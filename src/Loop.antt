-- ===== src/Loop.antt =====
-- The execution loop: core/src/garis/agent/loop.py, with `Plan` of agent/goal.py.
-- `W` is the world that the runtime, the planner, the verifier and the journal act on; they come as
-- `Parts`. `slug` stands for `_slug` (a regular expression), `show` for the text of a number. What has
-- run of a plan is `before`, the rest is the argument of the loop. Reports are not modelled.
pub mod Resume
pub mod Done
mod Tests
use garis.Base.{
  ℕ, zero, suc, ◌+◌, ◌-◌, String, Bool, true, false, Option, none, some, List, [], ◌∷◌, ◌++◌, any,
  not, max, nat_eq, length, ◌==◌, ◌&&◌, if◌then◌else◌,
}
use Prim.Native.String.{◌++◌ as ◌<>◌}
use garis.Dict
use garis.Dict.{Dict}

pub record PlanStep : Type 0 where
  pub key : String
  pub tool : String
  pub params : String
  pub purpose : String
  pub optional : Bool
  pub expects : String

pub record Plan : Type 0 where
  pub summary : String
  pub steps : List PlanStep
  pub question : String
  pub assumptions : List String
  pub notes : String

pub record StepResult : Type 0 where
  pub ok : Bool
  pub retryable : Bool
  pub value : Option String
  pub error : String

-- how `Runtime.perform` ends: a result, or what it raises
pub data StepEnd : Type 0 where
  performed : StepResult → StepEnd
  asks : String → String → StepEnd
  is_refused is_denied is_aborted : StepEnd

pub record StepEvidence : Type 0 where
  pub tool : String
  pub purpose : String
  pub ok : Bool
  pub expects : String
  pub value : Option String
  pub skipped : Bool
  pub resumed : Bool
  pub error : String

pub record Parts (W : Type 0) : Type 0 where
  pub perform : W → PlanStep → ℕ → StepEnd × W
  -- `repair_plan` on the failures and on what is done; an error gives a plan without steps
  pub repair_plan : W → List String → List String → Plan × W
  pub check : W → List StepEvidence → Plan → Bool × W
  pub save_plan : W → Plan → W
  pub step_started : W → PlanStep → ℕ → W
  pub step_finished : W → PlanStep → StepResult → W
  pub max_repair_attempts : ℕ
  pub slug : String → String
  pub show : ℕ → String

abbrev count_of : Option ℕ → ℕ
count_of none = 0
count_of (some n) = n

-- the states of `AgentState` that a run ends in; `aborted` is a `TaskAborted` that it raises
pub data AgentState : Type 0 where
  blocked done failed aborted : AgentState

module _ {W : Type 0} (p : Parts W) where
  abbrev base_key : PlanStep → ℕ → String
  base_key step index =
      let key = p.slug step.key in if key == "" then "step-" <> p.show (index + 1) else key

  unfoldable pub rekey_from : ℕ → Dict ℕ → List PlanStep → List PlanStep
  rekey_from index seen [] = []
  rekey_from index seen (step ∷ steps) =
      let base = base_key step index in
      let count = count_of (Dict.get seen base) in
      record step { key = if nat_eq count 0 then base else base <> ("-" <> p.show (count + 1)) }
      ∷ rekey_from (index + 1) (Dict.put seen base (count + 1)) steps

  -- `Plan.rekey`
  unfoldable pub rekey : List PlanStep → List PlanStep
  unfolding rekey_from
  rekey steps = rekey_from 0 [] steps

  -- one attempt came back: the next one, if it is worth it
  abbrev pub retried : (W → StepEnd × W) → StepEnd × W → StepEnd × W
  retried next (performed r, w) =
      if r.ok then (performed r, w) else if r.retryable then next w else (performed r, w)
  retried next (asks id prompt, w) = (asks id prompt, w)
  retried next (is_refused, w) = (is_refused, w)
  retried next (is_denied, w) = (is_denied, w)
  retried next (is_aborted, w) = (is_aborted, w)

  -- the attempts from number `attempt` on, with `left` more after it
  unfoldable pub tries : ℕ → ℕ → PlanStep → W → StepEnd × W
  tries zero attempt step w = p.perform w step attempt
  tries (suc left) attempt step w =
      retried (tries left (suc attempt) step) (p.perform w step attempt)

  abbrev pub journaled : PlanStep → StepEnd × W → StepEnd × W
  journaled step (performed r, w) = (performed r, p.step_finished w step r)
  journaled step (asks id prompt, w) = (asks id prompt, w)
  journaled step (is_refused, w) = (is_refused, w)
  journaled step (is_denied, w) = (is_denied, w)
  journaled step (is_aborted, w) = (is_aborted, w)

  -- `_run_step`
  unfoldable pub run_step : PlanStep → ℕ → W → StepEnd × W
  unfolding tries
  run_step step ordinal w =
      journaled step
        (tries (max 1 p.max_repair_attempts - 1) 0 step (p.step_started w step ordinal))

pub record Progress (W : Type 0) : Type 0 where
  pub plan : Plan
  pub before : List PlanStep
  pub evidence : List StepEvidence
  pub failures : List String
  pub world : W

abbrev pub evidence_of : PlanStep → Bool → Bool → Bool → Option String → String → StepEvidence
evidence_of step ok skipped resumed value error = record {
  tool = step.tool;
  purpose = step.purpose;
  ok = ok;
  expects = step.expects;
  value = value;
  skipped = skipped;
  resumed = resumed;
  error = error;
}

-- why the loop is left: its steps came to an end or one gave up, or a call raised
pub data LoopExit : Type 0 where
  ran_out : LoopExit
  is_parked : String → String → LoopExit
  is_stopped : LoopExit
  has_raised : LoopExit

abbrev pub take : ℕ → List PlanStep → List PlanStep
take n [] = []
take zero (x ∷ xs) = []
take (suc n) (x ∷ xs) = x ∷ take n xs

abbrev pub drop : ℕ → List PlanStep → List PlanStep
drop n [] = []
drop zero (x ∷ xs) = x ∷ xs
drop (suc n) (x ∷ xs) = drop n xs

-- `[f"{e.tool}: {e.purpose}" for e in evidence if e.ok]`
unfoldable pub told : List StepEvidence → List String
told [] = []
told (e ∷ es) = let rest = told es in if e.ok then (e.tool <> (": " <> e.purpose)) ∷ rest else rest

abbrev or_else : String → String → String
or_else a b = if a == "" then b else a

abbrev pub Out : Type 0 → Type 0
Out W = LoopExit × Progress W

module _ {W : Type 0} where
  -- the step is behind, with its evidence
  abbrev pub passed : Progress W → PlanStep → StepEvidence → Progress W
  passed pr step e = record pr { before = pr.before ++ step ∷ []; evidence = pr.evidence ++ e ∷ [] }

  abbrev pub given_up : PlanStep → StepResult → Progress W → Out W
  given_up step r pr = (
    ran_out,
    record pr {
      evidence =
          pr.evidence
          ++ evidence_of step false false false none (or_else r.error "nieznany błąd") ∷ [];
    },
  )

  -- what follows a step that was run: `rest` is the next step, `again` the repair
  abbrev pub settled_step :
      (Progress W → Out W)
      → (PlanStep → StepResult → Progress W → Out W)
      → PlanStep
      → Progress W
      → StepEnd × W
      → Out W
  settled_step rest again step pr (performed r, w) =
      let told_failure = pr.failures ++ (step.tool <> (": " <> r.error)) ∷ [] in
      if r.ok
      then rest
          (passed (record pr { world = w }) step (evidence_of step true false false r.value ""))
      else if step.optional
      then rest (
          passed (record pr { world = w; failures = told_failure }) step
            (evidence_of step false true false none r.error))
      else again step r (record pr { world = w; failures = told_failure })
  settled_step rest again step pr (asks id prompt, w) =
      (is_parked id prompt, record pr { world = w })
  settled_step rest again step pr (is_refused, w) = (is_stopped, record pr { world = w })
  settled_step rest again step pr (is_denied, w) = (is_stopped, record pr { world = w })
  settled_step rest again step pr (is_aborted, w) = (has_raised, record pr { world = w })

module _ {W : Type 0} (p : Parts W) (completed : Dict (Option String)) where
  -- one step: on record from an earlier life of the task, or run now
  abbrev pub stepped :
      (Progress W → Out W)
      → (PlanStep → StepResult → Progress W → Out W)
      → PlanStep
      → Progress W
      → Option (Option String)
      → Out W
  stepped rest again step pr (some value) =
      rest (passed pr step (evidence_of step true false true value ""))
  stepped rest again step pr none =
      settled_step rest again step pr (run_step p step (length pr.before) pr.world)

  unfoldable pub advance :
      (PlanStep → StepResult → Progress W → Out W) → List PlanStep → Progress W → Out W
  unfolding run_step
  advance again [] pr = (ran_out, pr)
  advance again (step ∷ steps) pr =
      stepped (advance again steps) again step pr (Dict.get completed step.key)

  -- the plan after a repair: what ran stays, with new keys, and the rest is replaced
  abbrev pub repaired : Progress W → Plan → Plan
  repaired pr fresh = record {
    summary = or_else pr.plan.summary fresh.summary;
    steps = rekey p (pr.before ++ fresh.steps);
    question = "";
    assumptions = elim pr.plan.assumptions [ [] ↦ fresh.assumptions | x ∷ xs ↦ x ∷ xs ];
    notes = fresh.notes;
  }

  abbrev pub replanned :
      (List PlanStep → Progress W → Out W)
      → PlanStep
      → StepResult
      → Progress W
      → List PlanStep
      → Plan × W
      → Out W
  replanned next step r pr [] (fresh, w) = given_up step r (record pr { world = w })
  replanned next step r pr (x ∷ xs) (fresh, w) =
      let plan = repaired pr fresh in
      let ran = length pr.before in
      next (drop ran plan.steps)
        (record pr { plan = plan; before = take ran plan.steps; world = p.save_plan w plan })

  -- the loop with so many repairs left
  unfoldable pub work : ℕ → List PlanStep → Progress W → Out W
  unfolding advance rekey told
  work zero steps pr = advance given_up steps pr
  work (suc left) steps pr =
      advance
        (λ step r q.
          let x = p.repair_plan q.world q.failures (told q.evidence) in
          replanned (work left) step r q x.0.steps x)
        steps pr

-- MAX_REPLANS
abbrev pub max_replans : ℕ
max_replans = 2

pub record Outcome (W : Type 0) : Type 0 where
  pub state : AgentState
  pub evidence : List StepEvidence
  pub approval_id : String
  pub world : W

abbrev pub is_executed : StepEvidence → Bool
is_executed e = e.ok && not e.skipped

module _ {W : Type 0} (p : Parts W) where
  abbrev pub concluded : LoopExit × Progress W → Outcome W
  concluded (ran_out, pr) =
      let (met, w) = p.check pr.world pr.evidence pr.plan in
      record {
        state = if any is_executed pr.evidence && met then done else failed;
        evidence = pr.evidence;
        approval_id = "";
        world = w;
      }
  concluded (is_parked id prompt, pr) = record {
    state = blocked;
    evidence = pr.evidence;
    approval_id = id;
    world = pr.world;
  }
  concluded (is_stopped, pr) = record {
    state = failed;
    evidence = pr.evidence;
    approval_id = "";
    world = pr.world;
  }
  concluded (has_raised, pr) = record {
    state = aborted;
    evidence = pr.evidence;
    approval_id = "";
    world = pr.world;
  }

  -- `run` on a plan that is not blocked, with the steps on record
  unfoldable pub run : Dict (Option String) → Plan → W → Outcome W
  unfolding work
  run completed plan w = concluded (
      work p completed max_replans plan.steps (record {
        plan = plan;
        before = [];
        evidence = [];
        failures = [];
        world = p.save_plan w plan;
      }))
