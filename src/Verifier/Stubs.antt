-- ===== src/Verifier/Stubs.antt =====
-- A provider that only pretends does not verify (core/src/garis/agent/verify.py, models/router.py).
use garis.Base.{
  ℕ, suc, String, Bool, true, false, Option, List, [], ◌∷◌, ◌++◌, ◌≡◌, ◌∙◌, refl, arith,
}
use garis.Contracts.{verified}
use garis.Router.{
  ModelRouter, Need, Choice, Call, CallEnd, completed, has_failed, Completion, Answer, answered,
  no_model, all_failed, complete, complete_ranked, attempts, tried, json_for, candidates,
}
use garis.Verifier.Reflexes.{ToolValue, Flaw}
use garis.Verifier.Check.{StepEvidence, Goal, Judgement, is_reflex, need_of, check}
use garis.Verifier.Verdicts.{verified-check, is_confirmed}

-- A reply that is there satisfies the test.
abbrev pub reply_is : (Completion → Bool) → CallEnd → Bool
reply_is p (completed x) = p x
reply_is p (has_failed exc) = true

abbrev pub answer_is : (Completion → Bool) → Answer → Bool
answer_is p (answered c x) = p x
answer_is p _ = true

module _ (lower : String → String) (within : String → String → Bool) (digits : String → Option ℕ)
    (call : Call) (p : Completion → Bool)
    (replies : (n : ℕ) (c : Choice) (j : Bool) → reply_is p (call n c j).0 ≡ true) where
  tried_is :
      (r : ModelRouter) (c : Choice) (rest : ModelRouter → Answer × ModelRouter) (x : CallEnd × ℕ)
      → reply_is p x.0 ≡ true
      → ((s : ModelRouter) → answer_is p (rest s).0 ≡ true)
      → answer_is p (tried lower within digits r c rest x).0 ≡ true
  tried_is r c rest (completed x, now) h g = h
  tried_is r c rest (has_failed exc, now) h g = g _

  attempts_is :
      (json : Bool) (n : ℕ) (attempted : List String) (order : List Choice) (r : ModelRouter)
      → answer_is p (attempts lower within digits call json n attempted order r).0 ≡ true
  unfolding attempts
  attempts_is json n attempted [] r = refl
  attempts_is json n attempted (c ∷ cs) r =
      tried_is r c
        (attempts lower within digits call json (suc n) (attempted ++ c.provider.name ∷ []) cs)
        (call n c (json_for lower within digits c json))
        (replies n c (json_for lower within digits c json))
        (attempts_is json (suc n) (attempted ++ c.provider.name ∷ []) cs)

  ranked_is :
      (json : Bool) (max_attempts : ℕ) (ranked : List Choice) (r : ModelRouter)
      → answer_is p (complete_ranked lower within digits call json max_attempts ranked r).0 ≡ true
  ranked_is json max_attempts [] r = refl
  ranked_is json max_attempts (c ∷ cs) r = attempts_is json 0 [] _ r

  -- What the router answers with is one of the replies.
  pub complete_is :
      (r : ModelRouter) (need : Need) (json : Bool) (max_attempts now : ℕ)
      → answer_is p (complete lower within digits r need call json max_attempts now).0 ≡ true
  unfolding complete
  complete_is r need json max_attempts now = ranked_is json max_attempts (candidates r need now) r

unconfirmed :
    (parse : String → Option Judgement) (a : Answer)
    → answer_is (λ x. x.stub) a ≡ true
    → is_confirmed parse a ≡ false
unconfirmed parse (answered c x) h = rw h refl
unconfirmed parse no_model h = refl
unconfirmed parse (all_failed ps) h = refl

abbrev pub ask_router :
    (String → String)
    → (String → String → Bool)
    → (String → Option ℕ)
    → Call
    → ℕ
    → ModelRouter
    → Need
    → Answer × ModelRouter
ask_router lower within digits call now r need = complete lower within digits r need call true 3 now

module _ (cut : ℕ → String → String) (explain : Flaw → String)
    (reflexes : String → ToolValue → Option Flaw) (parse : String → Option Judgement)
    (lower : String → String) (within : String → String → Bool) (digits : String → Option ℕ)
    (call : Call) (now : ℕ)
    (stubs : (n : ℕ) (c : Choice) (j : Bool) → reply_is (λ x. x.stub) (call n c j).0 ≡ true) where
  -- Where every reply comes from a stub, whatever it says, no plan of a model counts as verified.
  pub check-stubs :
      (goal : Goal) (evidence : List StepEvidence) (plan : Option String) (r : ModelRouter)
      → is_reflex plan ≡ false
      → verified
          (check cut explain reflexes parse
            (ask_router lower within digits call now)
            goal
            evidence
            plan
            r).0
        ≡ false
  check-stubs goal evidence plan r h =
      verified-check cut explain reflexes parse (ask_router lower within digits call now) goal
        evidence plan r
      ∙ ground (
        arith,
        h,
        unconfirmed parse (ask_router lower within digits call now r (need_of goal)).0
            (complete_is lower within digits call (λ x. x.stub) stubs r (need_of goal) true 3 now),
      )
