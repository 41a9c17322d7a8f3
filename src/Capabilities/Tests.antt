-- ===== src/Capabilities/Tests.antt =====
-- A capability at concrete arguments, in a world that counts the runs of its executor.
use garis.Base.{ℕ, ◌+◌, ◌≡◌, refl, String, true, false, Option, none, some, [], ◌∷◌}
use garis.Dict
use garis.Dict.{Dict}
use garis.Actions.{Value, other}
use garis.Capabilities.{
  Field, Outcome, Invocation, Execution, finished, Capability, Registry, Performed, Verdict, Result,
  is_performed, reversible, audio, evidence_verdict, perform, validate,
}
use garis.Capabilities.Effects.{Request, run, perform_again}
use garis.Capabilities.Evidence.{is_good}

abbrev convert : String → Value → Option Value
convert kind v = some v

abbrev level : Field
level = record { name = "level"; kind = "int"; required = true; check = none }

abbrev after : Field
after = record { name = "volume_after"; kind = "int"; required = true; check = some (λ v. true) }

abbrev set_volume : ℕ → Invocation → Execution × ℕ
set_volume n call = (
  finished (record {
    ok = true;
    value = none;
    evidence = ("volume_after", other "40") ∷ [];
    uncertain = false;
  }),
  n + 1,
)

abbrev by_evidence : ℕ → Invocation → Outcome → Verdict × ℕ
by_evidence n call outcome = (evidence_verdict (after ∷ []) outcome, n)

abbrev volume : Capability ℕ
volume = record {
  id = "windows.audio.set";
  version = 1;
  risk = reversible;
  permission = audio;
  executor = set_volume;
  verifier = by_evidence;
  inputs = level ∷ [];
  evidence = after ∷ [];
  platforms = "linux" ∷ [];
}

abbrev empty : Registry ℕ
empty = record { by_id = ("windows.audio.set", volume) ∷ []; performed = [] }

abbrev args : Dict Value
args = ("level", other "40") ∷ ("force", other "true") ∷ []

abbrev request : Request
request = record { capability = "windows.audio.set"; args = args; effect_id = "e2" }

abbrev first : Result × (Registry ℕ × ℕ)
first = perform convert "linux" "windows.audio.set" args "e1" empty 0

abbrev kept : Performed
kept = record {
  capability = "windows.audio.set";
  version = 1;
  outcome = record {
    ok = true;
    value = none;
    evidence = ("volume_after", other "40") ∷ [];
    uncertain = false;
  };
  verdict = record { ok = true; checked = true; missing = [] };
  effect_id = "e1";
}

ran_once : first.1.1 ≡ 1
unfolding perform
ran_once = refl

perform_again_example :
    perform convert "linux" "windows.audio.set" args "e1"
      (run convert "linux" (request ∷ []) first.1.0 first.1.1).0
      (run convert "linux" (request ∷ []) first.1.0 first.1.1).1
    ≡ (is_performed kept, run convert "linux" (request ∷ []) first.1.0 first.1.1)
unfolding perform evidence_verdict
perform_again_example =
    perform_again convert "linux" "e1" kept (request ∷ []) first.1.0 first.1.1 "windows.audio.set"
      args volume refl refl refl

abbrev seen : Outcome
seen = record {
  ok = true;
  value = none;
  evidence = ("volume_after", other "40") ∷ [];
  uncertain = false;
}

force_dropped : validate convert (level ∷ []) args ≡ some (("level", other "40") ∷ [])
unfolding validate
force_dropped = refl

seen_good : is_good (evidence_verdict (after ∷ []) seen) ≡ true
unfolding evidence_verdict Dict.get
seen_good = refl
