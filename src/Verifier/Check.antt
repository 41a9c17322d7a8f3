-- ===== src/Verifier/Check.antt =====
-- The verdict on a finished plan: core/src/garis/agent/verify.py.
-- The router is the model of models/router.py; the prompt is part of what `Call` stands for. `parse`
-- is `Completion.json`, none for its `ValueError`. Python's slices of texts are `cut`.
use garis.Base.{
  ℕ, String, Bool, true, false, Option, none, some, List, [], ◌∷◌, ◌==◌, ◌&&◌, ◌||◌, not, any, keep,
  if◌then◌else◌, map,
}
use Prim.Native.String.{◌++◌ as ◌<>◌}
use garis.Contracts.{Verification}
use garis.Router.{ModelRouter, Need, Answer, answered, prefer_local, any_place, reason}
use garis.Verifier.Reflexes.{ToolValue, Flaw}
use garis.Verifier.Table.{origin}

pub record StepEvidence : Type 0 where
  pub tool : String
  pub purpose : String
  pub ok : Bool
  pub expects : String
  pub summary : String
  pub error : String
  pub skipped : Bool
  pub value : ToolValue

pub record Goal : Type 0 where
  pub text : String
  pub criteria : List String
  pub private : Bool

-- what a model's reply is as JSON: `data.get("ok")`, `note` and `unmet` of a dict
pub data Judgement : Type 0 where
  judged : Bool → String → List String → Judgement
  no_dict : Judgement

-- `Verification(…)`, which is not uncertain and has no evidence ids here
unfoldable pub verdict : Bool → Bool → String → String → List String → Verification
verdict goal_met checked checked_by why unmet = record {
  goal_met = goal_met;
  checked = checked;
  uncertain = false;
  checked_by = checked_by;
  reason = why;
  unmet = unmet;
  evidence_ids = [];
}

abbrev pub is_failure : StepEvidence → Bool
is_failure e = not e.ok && not e.skipped

abbrev pub has_run : StepEvidence → Bool
has_run e = e.ok && not e.skipped

abbrev first_three : {A : Type 0} → List A → List A
first_three [] = []
first_three (a ∷ []) = a ∷ []
first_three (a ∷ b ∷ []) = a ∷ b ∷ []
first_three (a ∷ b ∷ c ∷ rest) = a ∷ b ∷ c ∷ []

-- a verdict that says that nothing was checked
abbrev pub unseen : String → Verification
unseen why = verdict true false "none" why []

abbrev pub need_of : Goal → Need
need_of goal = record {
  job = reason;
  privacy = if goal.private then prefer_local else any_place;
  requires = [];
  max_cost = none;
  prefer_speed = false;
  min_context = 0;
}

module _ (cut : ℕ → String → String) (explain : Flaw → String)
    (reflexes : String → ToolValue → Option Flaw) where
  abbrev pub with_flaw : String → Option Flaw → List String → List String
  with_flaw tool none rest = rest
  with_flaw tool (some f) rest = (tool <> (": " <> explain f)) ∷ rest

  abbrev pub flaws : List StepEvidence → List String
  flaws [] = []
  flaws (e ∷ es) = with_flaw e.tool (reflexes e.tool e.value) (flaws es)

  -- `_check_reflex`
  abbrev pub flaw_verdict : List String → Verification
  flaw_verdict [] = verdict true true "rules" "Sprawdziłem zmierzone wartości." []
  flaw_verdict (p ∷ ps) =
      verdict false true "rules" ("Narzędzie zwróciło wynik, którego nie da się użyć: " <> p)
        (p ∷ ps)

  unfoldable pub check_reflex : List StepEvidence → Verification
  unfolding verdict
  check_reflex ran = flaw_verdict (flaws ran)

  abbrev failed_verdict : StepEvidence → List StepEvidence → Verification
  failed_verdict first failed =
      verdict false true "rules"
        ("Krok " <> (first.tool <> (" nie zakończył się poprawnie: " <> cut 200 first.error)))
        (map (λ e. e.tool <> (": " <> cut 120 e.error)) (first_three failed))

-- what the reply of a model comes to
abbrev pub judgement_verdict : Bool → Option Judgement → Verification
judgement_verdict stub none =
    unseen "Kroki wykonane bez błędów, ale nie udało mi się sprawdzić rezultatu."
judgement_verdict true (some j) =
    unseen "Kroki wykonane bez błędów. Rezultatu nie sprawdzał żaden model."
judgement_verdict false (some no_dict) =
    unseen "Kroki wykonane bez błędów. Odpowiedź weryfikatora była nieczytelna."
judgement_verdict false (some (judged ok note unmet)) = verdict ok true "model" note unmet

abbrev pub answer_verdict : (String → Option Judgement) → Answer → Verification
answer_verdict parse (answered c x) = judgement_verdict x.stub (parse x.text)
answer_verdict parse _ =
    unseen "Kroki wykonane bez błędów, ale nie udało mi się sprawdzić rezultatu."

abbrev pub is_reflex : Option String → Bool
is_reflex none = false
is_reflex (some o) = o == origin

-- something was declared that a result can be compared with
abbrev pub is_declared : Goal → List StepEvidence → Bool
is_declared goal evidence = not (none_of goal.criteria) || any (λ e. not (e.expects == "")) evidence
  where
    none_of : List String → Bool
    none_of [] = true
    none_of (c ∷ cs) = false

module _ (cut : ℕ → String → String) (explain : Flaw → String)
    (reflexes : String → ToolValue → Option Flaw) (parse : String → Option Judgement)
    (ask : ModelRouter → Need → Answer × ModelRouter) where
  abbrev pub judge : Goal → List StepEvidence → ModelRouter → Verification × ModelRouter
  judge goal evidence r = let a = ask r (need_of goal) in (answer_verdict parse a.0, a.1)

  abbrev pub check_ran :
      Goal
      → List StepEvidence
      → Option String
      → List StepEvidence
      → ModelRouter
      → Verification × ModelRouter
  check_ran goal evidence plan [] r =
      (verdict false true "rules" "Nie wykonano żadnego kroku." [], r)
  check_ran goal evidence plan (e ∷ es) r =
      if is_reflex plan
      then (check_reflex cut explain reflexes (e ∷ es), r)
      else if is_declared goal evidence
      then judge goal evidence r
      else (unseen "Wszystkie kroki wykonane bez błędów. Nie sprawdzałem rezultatu.", r)

  abbrev pub check_failed :
      Goal
      → List StepEvidence
      → Option String
      → List StepEvidence
      → ModelRouter
      → Verification × ModelRouter
  check_failed goal evidence plan [] r = check_ran goal evidence plan (keep has_run evidence) r
  check_failed goal evidence plan (e ∷ es) r = (failed_verdict cut explain reflexes e (e ∷ es), r)

  -- `Verifier.check`; `plan` is the origin of the plan, if there is one
  unfoldable pub check :
      Goal → List StepEvidence → Option String → ModelRouter → Verification × ModelRouter
  unfolding check_reflex verdict
  check goal evidence plan r = check_failed goal evidence plan (keep is_failure evidence) r
