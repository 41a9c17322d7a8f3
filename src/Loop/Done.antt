-- ===== src/Loop/Done.antt =====
-- How a run ends (core/src/garis/agent/loop.py): what its evidence says of the plan that the verifier
-- is asked about.
use garis.Base.{String, true, false, List, [], ◌∷◌, ◌++◌, ◌≡◌, any, ◌&&◌, ◌||◌}
use Prim.Native.String.{◌++◌ as ◌<>◌}
use garis.Dict
use garis.Dict.{Dict}
use garis.Loop.{
  PlanStep, Plan, StepResult, StepEvidence, Parts, Progress, Out, ran_out, is_parked, is_stopped,
  has_raised, is_executed,
}

-- An entry of the evidence is about a step.
abbrev pub IsFor : StepEvidence → PlanStep → Type 0
IsFor e step = (e.tool ≡ step.tool) × (e.purpose ≡ step.purpose) × (e.expects ≡ step.expects)

-- A step succeeded, or it failed and is optional.
abbrev pub IsPast : StepEvidence → PlanStep → Type 0
IsPast e step = (e.ok || (e.skipped && step.optional)) ≡ true

-- The evidence has an entry for each step of a plan, in order; or it ends at a step that failed.
pub data Covers : List StepEvidence → List PlanStep → Type 0 where
  all_run : Covers [] []
  gave_up :
      {e : StepEvidence} {step : PlanStep} {steps : List PlanStep}
      → IsFor e step
      → e.ok ≡ false
      → Covers (e ∷ []) (step ∷ steps)
  one_more :
      {e : StepEvidence} {step : PlanStep} {es : List StepEvidence} {steps : List PlanStep}
      → IsFor e step
      → IsPast e step
      → Covers es steps
      → Covers (e ∷ es) (step ∷ steps)

-- The steps that are behind, with their evidence.
data Ran : List StepEvidence → List PlanStep → Type 0 where
  ran_none : Ran [] []
  ran_more :
      {e : StepEvidence} {step : PlanStep} {es : List StepEvidence} {steps : List PlanStep}
      → IsFor e step
      → IsPast e step
      → Ran es steps
      → Ran (e ∷ es) (step ∷ steps)

module _ {W : Type 0} (p : Parts W) where
  -- What ran and what is left make up the plan.
  abbrev Inv : Progress W → List PlanStep → Type 0
  Inv pr steps = Ran pr.evidence pr.before × (pr.plan.steps ≡ pr.before ++ steps)

  -- Where the steps came to an end, the evidence covers the plan.
  abbrev Ended : Out W → Type 0
  Ended (ran_out, pr) = Covers pr.evidence pr.plan.steps
  Ended (is_parked id prompt, pr) = Unit
  Ended (is_stopped, pr) = Unit
  Ended (has_raised, pr) = Unit

  abbrev Repairs : (PlanStep → StepResult → Progress W → Out W) → Type 0
  Repairs again =
      (step : PlanStep) (r : StepResult) (pr : Progress W) (rest : List PlanStep)
      → Inv pr (step ∷ rest)
      → Ended (again step r pr)

  -- where the loop begins
  abbrev pub started : Plan → W → Progress W
  started plan w = record {
    plan = plan;
    before = [];
    evidence = [];
    failures = [];
    world = p.save_plan w plan;
  }

  -- The loop came to the end of its steps, with evidence that covers the plan that it then had; a step of
  -- it was executed, and the verifier, asked there about this evidence and this plan, said yes.
  abbrev pub Met : Out W → List StepEvidence → Type 0
  Met x evidence =
      (q : Progress W) × (x ≡ (ran_out, q))
      × (evidence ≡ q.evidence)
      × (any is_executed q.evidence ≡ true)
      × ((p.check q.world q.evidence q.plan).0 ≡ true)
      × Covers q.evidence q.plan.steps
