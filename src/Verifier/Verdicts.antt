-- ===== src/Verifier/Verdicts.antt =====
-- When a task counts as verified (core/src/garis/agent/verify.py).
use garis.Base.{
  ℕ, String, Bool, true, false, Option, none, some, List, [], ◌∷◌, ◌≡◌, ◌∙◌, refl, ap, arith, ◌&&◌,
  not, all, any, keep, if◌then◌else◌, is_some, Bool-cases, inl, inr,
}
use garis.Contracts.{verified}
use garis.Router.{ModelRouter, Need, Answer, answered, no_model, all_failed}
use garis.Verifier.Reflexes.{ToolValue, Flaw}
use garis.Verifier.Check.{
  StepEvidence, Goal, Judgement, judged, no_dict, verdict, is_failure, has_run, need_of, with_flaw,
  flaws, flaw_verdict, check_reflex, judgement_verdict, answer_verdict, is_reflex, is_declared,
  check_ran, check_failed, check,
}

-- A model that is no stub said that the goal is met.
abbrev pub says_ok : Option Judgement → Bool
says_ok none = false
says_ok (some no_dict) = false
says_ok (some (judged ok note unmet)) = ok

abbrev pub is_confirmed : (String → Option Judgement) → Answer → Bool
is_confirmed parse (answered c x) = not x.stub && says_ok (parse x.text)
is_confirmed parse _ = false

verified-answer_verdict :
    (parse : String → Option Judgement) (a : Answer)
    → verified (answer_verdict parse a) ≡ is_confirmed parse a
unfolding verified verdict
verified-answer_verdict parse no_model = refl
verified-answer_verdict parse (all_failed ps) = refl
verified-answer_verdict parse (answered c x) = by_reply x.stub (parse x.text)
  where
    by_reply :
        (stub : Bool) (j : Option Judgement)
        → verified (judgement_verdict stub j) ≡ (not stub && says_ok j)
    by_reply true none = refl
    by_reply false none = refl
    by_reply true (some j) = refl
    by_reply false (some no_dict) = refl
    by_reply false (some (judged true note unmet)) = refl
    by_reply false (some (judged false note unmet)) = refl

module _ (cut : ℕ → String → String) (explain : Flaw → String)
    (reflexes : String → ToolValue → Option Flaw) where
  -- the reflex of the tool finds no flaw in its value
  abbrev pub is_sound : StepEvidence → Bool
  is_sound e = not (is_some (reflexes e.tool e.value))

  abbrev no_text : List String → Bool
  no_text [] = true
  no_text (p ∷ ps) = false

  no_text-flaws :
      (es : List StepEvidence) → no_text (flaws cut explain reflexes es) ≡ all is_sound es
  no_text-flaws [] = refl
  no_text-flaws (e ∷ es) =
      no_text-with_flaw (reflexes e.tool e.value)
      ∙ ap (λ b. not (is_some (reflexes e.tool e.value)) && b) (no_text-flaws es)
    where
      no_text-with_flaw :
          (o : Option Flaw)
          → no_text (with_flaw cut explain reflexes e.tool o (flaws cut explain reflexes es))
            ≡ (not (is_some o) && no_text (flaws cut explain reflexes es))
      no_text-with_flaw none = refl
      no_text-with_flaw (some f) = refl

  verified-flaw_verdict :
      (ps : List String) → verified (flaw_verdict cut explain reflexes ps) ≡ no_text ps
  unfolding verified verdict
  verified-flaw_verdict [] = refl
  verified-flaw_verdict (p ∷ ps) = refl

abbrev no_item : List StepEvidence → Bool
no_item [] = true
no_item (e ∷ es) = false

no_item-keep :
    (p : StepEvidence → Bool) (es : List StepEvidence) → no_item (keep p es) ≡ not (any p es)
no_item-keep p [] = refl
no_item-keep p (e ∷ es) = ground (arith, no_item-keep p es)

module _ (cut : ℕ → String → String) (explain : Flaw → String)
    (reflexes : String → ToolValue → Option Flaw) (parse : String → Option Judgement)
    (ask : ModelRouter → Need → Answer × ModelRouter) (goal : Goal) (evidence : List StepEvidence)
    (plan : Option String) (r : ModelRouter) where
  -- what is asked of the steps that ran
  abbrev ran_well : List StepEvidence → Bool
  ran_well ran =
      if is_reflex plan
      then all (is_sound cut explain reflexes) ran
      else is_declared goal evidence && is_confirmed parse (ask r (need_of goal)).0

  verified-check_ran :
      (ran : List StepEvidence)
      → verified (check_ran cut explain reflexes parse ask goal evidence plan ran r).0
        ≡ (not (no_item ran) && ran_well ran)
  unfolding verified verdict check_reflex
  verified-check_ran [] = refl
  verified-check_ran (e ∷ es) = elim (Bool-cases (is_reflex plan)) [
    | inl q ↦ rw q (
        verified-flaw_verdict cut explain reflexes (flaws cut explain reflexes (e ∷ es))
        ∙ no_text-flaws cut explain reflexes (e ∷ es))
    | inr q ↦ elim (Bool-cases (is_declared goal evidence)) [
      | inl d ↦ rw (q, d) (verified-answer_verdict parse (ask r (need_of goal)).0)
      | inr d ↦ rw (q, d) refl
    ]
  ]

  verified-check_failed :
      (failed : List StepEvidence)
      → verified (check_failed cut explain reflexes parse ask goal evidence plan failed r).0 ≡ (
          no_item failed
          && (not (no_item (keep has_run evidence)) && ran_well (keep has_run evidence)))
  unfolding verified verdict
  verified-check_failed [] = verified-check_ran (keep has_run evidence)
  verified-check_failed (e ∷ es) = refl

  -- A verdict counts as verified just when no step failed, some step ran, and: for a reflex plan, every
  -- value that came back is sound; for another plan, something was declared to be checked and a model
  -- that is no stub said that the goal is met.
  pub verified-check : verified (check cut explain reflexes parse ask goal evidence plan r).0 ≡ (
      not (any is_failure evidence)
      && (any has_run evidence
          && (if is_reflex plan
              then all (is_sound cut explain reflexes) (keep has_run evidence)
              else is_declared goal evidence && is_confirmed parse (ask r (need_of goal)).0)))
  unfolding check
  verified-check =
      verified-check_failed (keep is_failure evidence)
      ∙ ground (arith, no_item-keep is_failure evidence, no_item-keep has_run evidence)
