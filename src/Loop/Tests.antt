-- ===== src/Loop/Tests.antt =====
-- The loop on a plan of two steps, the first of them on record.
use garis.Base.{
  ℕ, ◌+◌, String, Bool, true, false, Option, none, some, [], ◌∷◌, ◌≡◌, arith, if◌then◌else◌, ◌==◌,
}
use garis.Dict
use garis.Dict.{Dict}
use garis.Loop.{PlanStep, Plan, StepEnd, performed, Parts, run}
use garis.Loop.Resume.{with_perform, run_skips}

abbrev outcome : Bool → StepEnd
outcome ok = performed (record { ok = ok; retryable = true; value = some "1"; error = "zajęty" })

-- the world counts the actions
abbrev works : ℕ → PlanStep → ℕ → StepEnd × ℕ
works w step k = (outcome true, w + 1)

abbrev breaks_first : ℕ → PlanStep → ℕ → StepEnd × ℕ
breaks_first w step k = if "a" == step.key then (outcome false, w) else (outcome true, w + 1)

abbrev step_of : String → PlanStep
step_of key = record {
  key = key;
  tool = "look";
  params = "{}";
  purpose = "";
  optional = false;
  expects = "";
}

abbrev plan : Plan
plan = record {
  summary = "";
  steps = step_of "a" ∷ step_of "b" ∷ [];
  question = "";
  assumptions = [];
  notes = "";
}

abbrev parts : Parts ℕ
parts = record {
  perform = works;
  repair_plan = λ w failures told. (record plan { steps = [] }, w);
  check = λ w evidence plan. (true, w);
  save_plan = λ w plan. w;
  step_started = λ w step n. w;
  step_finished = λ w step r. w;
  max_repair_attempts = 3;
  slug = λ key. key;
  show = λ n. "2";
}

abbrev on_record : Dict (Option String)
on_record = ("a", some "1") ∷ []

agree :
    (w : ℕ) (step : PlanStep) (k : ℕ)
    → Dict.get on_record step.key ≡ none
    → breaks_first w step k ≡ works w step k
unfolding Dict.get
agree w step k h = ground arith

run_skips_example :
    run (with_perform parts breaks_first) on_record plan 0
    ≡ run (with_perform parts works) on_record plan 0
run_skips_example = run_skips parts breaks_first works on_record agree plan 0
