-- ===== src/Loop/Resume.antt =====
-- A task that continues (core/src/garis/agent/loop.py): steps on record are not performed again.
use garis.Base.{
  ℕ, zero, suc, ◌-◌, max, String, Bool, true, false, Option, none, some, List, [], ◌∷◌, ◌≡◌, refl,
  ap, ◌∙◌, arith, length, if◌then◌else◌,
}
use garis.Dict
use garis.Dict.{Dict}
use garis.Loop.{
  PlanStep, Plan, StepResult, StepEnd, performed, asks, is_refused, is_denied, is_aborted, Parts,
  Progress, Out, retried, tries, journaled, run_step, settled_step, given_up, stepped, advance,
  replanned, work, told, concluded, run, max_replans, rekey,
}

if_same :
    {A : Type 0} (b : Bool) (x x' y y' : A)
    → x ≡ x'
    → y ≡ y'
    → (if b then x else y) ≡ (if b then x' else y')
if_same true x x' y y' e g = e
if_same false x x' y y' e g = g

module _ {W : Type 0} (p : Parts W) (f : W → PlanStep → ℕ → StepEnd × W) where
  -- the parts, with another runtime
  abbrev pub with_perform : Parts W
  with_perform = record p { perform = f }

module _ {W : Type 0} (p : Parts W) (f g : W → PlanStep → ℕ → StepEnd × W) where
  retried_same :
      (next next' : W → StepEnd × W) (x : StepEnd × W)
      → ((w : W) → next w ≡ next' w)
      → retried (with_perform p f) next x ≡ retried (with_perform p g) next' x
  retried_same next next' (performed r, w) e = ground (arith, e w)
  retried_same next next' (asks id prompt, w) e = refl
  retried_same next next' (is_refused, w) e = refl
  retried_same next next' (is_denied, w) e = refl
  retried_same next next' (is_aborted, w) e = refl

  tries_same :
      (left attempt : ℕ) (step : PlanStep) (w : W)
      → ((w : W) (k : ℕ) → f w step k ≡ g w step k)
      → tries (with_perform p f) left attempt step w ≡ tries (with_perform p g) left attempt step w
  unfolding tries
  tries_same zero attempt step w e = e w attempt
  tries_same (suc left) attempt step w e =
      ap (retried (with_perform p f) (tries (with_perform p f) left (suc attempt) step))
        (e w attempt)
      ∙ retried_same _ _ (g w step attempt) (λ v. tries_same left (suc attempt) step v e)

  run_step_same :
      (step : PlanStep) (ordinal : ℕ) (w : W)
      → ((w : W) (k : ℕ) → f w step k ≡ g w step k)
      → run_step (with_perform p f) step ordinal w ≡ run_step (with_perform p g) step ordinal w
  unfolding run_step
  run_step_same step ordinal w e =
      ap (journaled p step)
        (tries_same (max 1 p.max_repair_attempts - 1) 0 step (p.step_started w step ordinal) e)

  settled_same :
      (rest rest' : Progress W → Out W) (again again' : PlanStep → StepResult → Progress W → Out W)
      (step : PlanStep) (pr : Progress W) (x : StepEnd × W)
      → ((q : Progress W) → rest q ≡ rest' q)
      → ((s : PlanStep) (r : StepResult) (q : Progress W) → again s r q ≡ again' s r q)
      → settled_step rest again step pr x ≡ settled_step rest' again' step pr x
  settled_same rest rest' again again' step pr (performed r, w) e a =
      if_same r.ok _ _ _ _ (e _) (if_same step.optional _ _ _ _ (e _) (a step r _))
  settled_same rest rest' again again' step pr (asks id prompt, w) e a = refl
  settled_same rest rest' again again' step pr (is_refused, w) e a = refl
  settled_same rest rest' again again' step pr (is_denied, w) e a = refl
  settled_same rest rest' again again' step pr (is_aborted, w) e a = refl

  module _ (completed : Dict (Option String))
      (same : (w : W) (step : PlanStep) (k : ℕ)
        → Dict.get completed step.key ≡ none
        → f w step k ≡ g w step k) where
    stepped_same :
        (rest rest' : Progress W → Out W)
        (again again' : PlanStep → StepResult → Progress W → Out W) (step : PlanStep)
        (pr : Progress W) (o : Option (Option String))
        → Dict.get completed step.key ≡ o
        → ((q : Progress W) → rest q ≡ rest' q)
        → ((s : PlanStep) (r : StepResult) (q : Progress W) → again s r q ≡ again' s r q)
        → stepped (with_perform p f) completed rest again step pr o
          ≡ stepped (with_perform p g) completed rest' again' step pr o
    stepped_same rest rest' again again' step pr (some value) n e a = e _
    stepped_same rest rest' again again' step pr none n e a =
        ap (settled_step rest again step pr)
          (run_step_same step (length pr.before) pr.world (λ w k. same w step k n))
        ∙ settled_same rest rest' again again' step pr
            (run_step (with_perform p g) step (length pr.before) pr.world) e a

    advance_same :
        (again again' : PlanStep → StepResult → Progress W → Out W) (steps : List PlanStep)
        (pr : Progress W)
        → ((s : PlanStep) (r : StepResult) (q : Progress W) → again s r q ≡ again' s r q)
        → advance (with_perform p f) completed again steps pr
          ≡ advance (with_perform p g) completed again' steps pr
    unfolding advance
    advance_same again again' [] pr a = refl
    advance_same again again' (step ∷ steps) pr a =
        stepped_same (advance (with_perform p f) completed again steps)
          (advance (with_perform p g) completed again' steps) again again' step pr
          (Dict.get completed step.key) refl (λ q. advance_same again again' steps q a) a

    replanned_same :
        (next next' : List PlanStep → Progress W → Out W) (step : PlanStep) (r : StepResult)
        (pr : Progress W) (steps : List PlanStep) (x : Plan × W)
        → ((xs : List PlanStep) (q : Progress W) → next xs q ≡ next' xs q)
        → replanned (with_perform p f) completed next step r pr steps x
          ≡ replanned (with_perform p g) completed next' step r pr steps x
    unfolding rekey
    replanned_same next next' step r pr [] (fresh, w) e = refl
    replanned_same next next' step r pr (x ∷ xs) (fresh, w) e = e _ _

    work_same :
        (left : ℕ) (steps : List PlanStep) (pr : Progress W)
        → work (with_perform p f) completed left steps pr
          ≡ work (with_perform p g) completed left steps pr
    unfolding work
    work_same zero steps pr = advance_same given_up given_up steps pr (λ s r q. refl)
    work_same (suc left) steps pr = advance_same _ _ steps pr (λ s r q.
        let x = p.repair_plan q.world q.failures (told q.evidence) in
        replanned_same _ _ s r q x.0.steps x (λ xs v. work_same left xs v))

    -- A run does not depend on what the runtime does with a step whose key is on record, whatever
    -- fails, is tried again or is replanned on the way: such a step is not performed again.
    pub run_skips :
        (plan : Plan) (w : W)
        → run (with_perform p f) completed plan w ≡ run (with_perform p g) completed plan w
    unfolding run
    run_skips plan w = ap (concluded p) (work_same max_replans plan.steps _)
