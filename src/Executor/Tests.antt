-- ===== src/Executor/Tests.antt =====
-- The execution path at a tool that pays and one that writes.
use garis.Base.{
  ◌+◌, ◌≤◌, ◌≡◌, refl, String, true, false, List, [], ◌∷◌, ◌++◌, some, none, arith, contains,
}
use garis.Dict
use garis.Actions.{
  Effect, read, payment, has, rank, same, Params, Action, ToolSpec, estimates, supported_here,
  validate, validate_params, resource_keys,
}
use garis.Policy.{
  allow, confirm, Verdict, verdict, AutonomyConfig, Paths, evaluate, hard_deny,
  non_negotiable_confirm, confirm_set, configured, gated, notices,
}
use garis.Approvals.{granted_for, latest}
use garis.Approvals.Pending.{resolves}
use garis.Leases.{
  exclusive, ordered, state, acquire, attempt, can_take, take_all, take, acquire_loop, clear_all,
  release, release_keys, give_back,
}
use garis.Leases.Attempts.{SameHolds, same_refl}
use garis.Leases.Table.{writer}
use garis.Executor
use garis.Policy
use garis.Executor.{
  Runtime, Setting, Draw, Handler, value, crashed, perform, result, ActionResult, AuditRow,
  run_leased, lease_mode, invoke, emit, record_audit, action_started, action_finished,
}
use garis.Executor.Gate.{Happening, calls, at_gate, pass_count, yes_count, usable, pass_count-le}
use garis.Executor.Inert.{verdict_of, Untouched, perform_untouched, perform_non_negotiable}
use garis.Executor.Outcomes.{perform_audited, run_leased_gives_back}

abbrev tool_with : String → List Effect → ToolSpec
tool_with name effects = record {
  name = name;
  params = [];
  effects = effects;
  platforms = "*" ∷ [];
  category = "files";
  timeout = 60;
  reversible = true;
  trusted_source = false;
  resources = some (λ p. "file:a" ∷ []);
  estimate = none;
}

abbrev setting : Setting
setting = record {
  registry = ("pay", tool_with "pay" (payment ∷ [])) ∷ ("look", tool_with "look" (read ∷ [])) ∷ [];
  platform = "linux";
  config = record {
    auto_install_free_software = true;
    download_notice_bytes = 1000;
    spend_notice_amount = 0;
    allow_admin_elevation = false;
    confirm_effects = [];
  };
  paths = record { key_file = "/g/key"; vault_db = "/g/vault.db"; state_db = "/g/state.db" };
  norm = λ p. p;
  repr = λ v. "";
  fingerprint = λ a. a.tool;
  prompt = λ a. "";
  redacted = λ p. "";
  resolve_secrets = λ p. some p;
}

abbrev using : String → Action
using tool = record {
  tool = tool;
  params = [];
  intent = "";
  task_id = some "t1";
  id = "a1";
  estimated_bytes = 0;
  estimated_cost = 0;
  reversible = true;
  target = "local";
}

abbrev idle : Runtime
idle = record {
  broker = record { rows = []; events = []; waiters = [] };
  table = [];
  audit = [];
  events = [];
}

abbrev draw : Draw
draw = record { approval_id = "r1"; now = 10; rounds = [] }

abbrev works : Handler
works p rt = (value "done", rt)

abbrev breaks : Handler
breaks p rt = (crashed, rt)

registered : Dict.get setting.registry "pay" ≡ some (tool_with "pay" (payment ∷ []))
unfolding Dict.get
registered = refl

payment_gated : has payment non_negotiable_confirm ≡ true
unfolding has same rank
payment_gated = refl

payment_inside : has payment (payment ∷ []) ≡ true
unfolding has same rank
payment_inside = refl

nothing_granted : (params : Params) → granted_for idle.broker "pay" ≡ none
unfolding granted_for latest
nothing_granted params = refl

perform_non_negotiable_example :
    perform setting works idle (using "pay") draw ≡ perform setting breaks idle (using "pay") draw
perform_non_negotiable_example =
    perform_non_negotiable setting works breaks idle (using "pay") draw
      (tool_with "pay" (payment ∷ [])) payment registered payment_gated payment_inside
      (λ params v. nothing_granted params)

here : supported_here (tool_with "pay" (payment ∷ [])) "linux" ≡ true
unfolding supported_here
here = refl

no_params : validate (tool_with "pay" (payment ∷ [])) [] ≡ some []
unfolding validate validate_params
no_params = refl

held_back : (verdict_of setting (tool_with "pay" (payment ∷ [])) (using "pay")).decision ≡ confirm
unfolding evaluate hard_deny garis.Policy.is_mutating has same rank gated confirm_set configured
held_back = refl

not_allowed :
    (verdict_of setting (tool_with "pay" (payment ∷ [])) (using "pay")).decision ≡ allow → ⊥
not_allowed h = ground (arith, held_back)

perform_untouched_example :
    Untouched setting works breaks
      (perform setting works idle (using "pay") draw)
      (perform setting breaks idle (using "pay") draw)
perform_untouched_example =
    perform_untouched setting works breaks idle (using "pay") draw (tool_with "pay" (payment ∷ []))
      [] registered here no_params not_allowed (λ c. nothing_granted [])

abbrev one_yes : List Happening
one_yes =
    at_gate (using "pay") (tool_with "pay" (payment ∷ [])) (verdict confirm "effect:payment") draw
    ∷ calls (resolves "r1" true "user" 20)
    ∷ at_gate (using "pay") (tool_with "pay" (payment ∷ [])) (verdict confirm "effect:payment") draw
    ∷ at_gate (using "pay") (tool_with "pay" (payment ∷ [])) (verdict confirm "effect:payment") draw
    ∷ []

pass_count-le_example :
    pass_count setting "pay" idle one_yes
    ≤ usable "pay" idle.broker + yes_count setting "pay" idle one_yes
pass_count-le_example = pass_count-le setting "pay" idle one_yes tt

abbrev looked : ActionResult
looked = record {
  ok = true;
  tool = "look";
  action_id = "a1";
  value = some "done";
  error_kind = "";
  retryable = true;
  detail = "";
}

abbrev after_look : Runtime
after_look = (perform setting works idle (using "look") draw).1

looks : perform setting works idle (using "look") draw ≡ (result looked, after_look)
unfolding perform Dict.get supported_here validate validate_params evaluate hard_deny
    garis.Policy.is_mutating has same rank gated confirm_set configured notices estimates run_leased
    garis.Executor.is_mutating resource_keys acquire attempt can_take take_all take acquire_loop
    clear_all release release_keys give_back ordered Dict.put invoke Dict.pop
looks = refl

perform_audited_example :
    (rows : List AuditRow) × (row : AuditRow) × (after_look.audit ≡ rows ++ row ∷ [])
    × (row.tool ≡ "look")
    × (row.task_id ≡ some "t1")
    × (row.outcome ≡ "ok")
    × (looked.tool ≡ "look")
    × (looked.action_id ≡ "a1")
perform_audited_example =
    perform_audited setting works idle after_look (using "look") draw looked looks

unwritten :
    (k : String)
    → contains k (ordered ("file:a" ∷ [])) ≡ true
    → lease_mode (payment ∷ []) ≡ exclusive
    → writer [] k ≡ none
unfolding state Dict.get
unwritten k c e = refl

run_leased_gives_back_example :
    SameHolds
      (run_leased setting breaks idle
        (using "pay")
        (tool_with "pay" (payment ∷ []))
        (verdict confirm "")
        draw).1.table
      []
unfolding resource_keys
run_leased_gives_back_example =
    run_leased_gives_back setting breaks (λ p rt. same_refl rt.table) idle (using "pay")
      (tool_with "pay" (payment ∷ [])) (verdict confirm "") draw tt unwritten
