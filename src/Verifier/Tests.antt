-- ===== src/Verifier/Tests.antt =====
-- Verdicts and readings at concrete values.
use garis.Base.{
  ℕ, ◌*◌, ◌≤◌, ◌≡◌, refl, String, Bool, true, false, Option, none, some, List, [], ◌∷◌, ◌&&◌, not,
  any, all, keep, arith, is_some, if◌then◌else◌,
}
use garis.Dict
use garis.Dict.{Dict}
use garis.Contracts.{verified}
use garis.Router.{ModelRouter, Need, ModelSpec, Choice, Call, completed, Answer, reason}
use garis.Verifier.Reflexes.{Field, number, ToolValue, is_dict, Flaw, abs_diff, validate_disk}
use garis.Verifier.Table.{reflex_check, plan_for, named_process, ReflexPlan}
use garis.Verifier.Check.{
  StepEvidence, Goal, Judgement, judged, check, is_failure, has_run, is_reflex, is_declared,
  need_of,
}
use garis.Verifier.Verdicts.{verified-check, is_sound, is_confirmed}
use garis.Verifier.Stubs.{check-stubs, ask_router, reply_is}
use garis.Verifier.Measured.{validate_disk_near}

abbrev no_float : String → Option ℕ
no_float s = none

abbrev same_text : String → String
same_text s = s

abbrev never : String → String → Bool
never s t = false

abbrev cut : ℕ → String → String
cut n s = s

abbrev explain : Flaw → String
explain f = "?"

-- 1000 GB, of which 250 are free
abbrev disk : Dict Field
disk =
    ("total", number 100000000000000)
    ∷ ("free", number 25000000000000)
    ∷ ("used", number 75000000000000)
    ∷ ("percent_used", number 7500)
    ∷ []

disk_sound : validate_disk no_float same_text (is_dict disk) ≡ none
unfolding validate_disk
disk_sound = refl

-- a container that reports five percent
abbrev odd_disk : Dict Field
odd_disk =
    ("total", number 25200000000000)
    ∷ ("free", number 2410000000000)
    ∷ ("percent_used", number 500)
    ∷ []

odd_disk_refused : is_some (validate_disk no_float same_text (is_dict odd_disk)) ≡ true
unfolding validate_disk
odd_disk_refused = refl

validate_disk_near_example :
    abs_diff (7500 * 100000000000000) (10000 * 75000000000000) ≤ 25 * 100000000000000
unfolding Dict.get validate_disk
validate_disk_near_example =
    validate_disk_near no_float same_text disk 100000000000000 25000000000000 75000000000000 7500
      refl refl refl refl (omega arith) refl

abbrev asked : List String
asked = "czy" ∷ "discord" ∷ "dziala" ∷ []

abbrev discord_plan : ReflexPlan
discord_plan = record {
  summary = "Sprawdzenie, czy dany program działa";
  key = "process-named";
  tool = "process_find";
  named = some "discord";
  purpose = "Sprawdzenie, czy dany program działa";
  expects = "zmierzone wartości";
}

abbrev evidence : List StepEvidence
evidence =
    record {
      tool = "disk_usage";
      purpose = "";
      ok = true;
      expects = "";
      summary = "";
      error = "";
      skipped = false;
      value = is_dict disk;
    }
    ∷ []

abbrev goal : Goal
goal = record { text = "restart"; criteria = "works" ∷ []; private = false }

abbrev brain : ModelSpec
brain = record {
  name = "stub";
  provider = "stub";
  jobs = reason ∷ [];
  capabilities = [];
  quality = 1;
  speed = 1;
  input_cost = 0;
  output_cost = 0;
  context_tokens = 1000;
  local = true;
}

abbrev router : ModelRouter
router = record {
  providers = record { name = "stub"; available = true; models = brain ∷ [] } ∷ [];
  config = record { privacy = "balanced"; allow_cloud = true; monthly_budget = 0 };
  health = none;
  input_tokens = 0;
  output_tokens = 0;
  spend = 0;
  fallbacks = [];
}

abbrev stub_call : Call
stub_call n c json = (
  completed (record {
    text = "{\"ok\": true}";
    input_tokens = 1;
    output_tokens = 1;
    cost = 0;
    stub = true;
  }),
  5,
)

all_stubs : (n : ℕ) (c : Choice) (j : Bool) → reply_is (λ x. x.stub) (stub_call n c j).0 ≡ true
all_stubs n c j = refl

abbrev parse : String → Option Judgement
parse s = some (judged true "" [])

abbrev check_tool : String → ToolValue → Option Flaw
check_tool = reflex_check no_float same_text

abbrev ask : ModelRouter → Need → Answer × ModelRouter
ask = ask_router same_text never no_float stub_call 5

check-stubs_example :
    verified (check cut explain check_tool parse ask goal evidence (some "model") router).0 ≡ false
check-stubs_example =
    check-stubs cut explain check_tool parse same_text never no_float stub_call 5 all_stubs goal
      evidence (some "model") router refl

verified-check_example :
    verified (check cut explain check_tool parse ask goal evidence (some "reflex") router).0 ≡ (
      not (any is_failure evidence)
      && (any has_run evidence
          && (if is_reflex (some "reflex")
              then all (is_sound cut explain check_tool) (keep has_run evidence)
              else is_declared goal evidence && is_confirmed parse (ask router (need_of goal)).0)))
verified-check_example =
    verified-check cut explain check_tool parse ask goal evidence (some "reflex") router

reflex_verified :
    verified (check cut explain check_tool parse ask goal evidence (some "reflex") router).0 ≡ true
unfolding verified check reflex_check validate_disk
reflex_verified = refl

discord_asked : plan_for no_float same_text (λ tool. true) asked ≡ some discord_plan
unfolding plan_for named_process
discord_asked = refl
