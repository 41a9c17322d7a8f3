-- ===== src/Executor.antt =====
-- The single execution path: core/src/garis/runtime/executor.py.
-- `Runtime` is the state that `perform` changes: the approvals, the lease table, the audit rows and
-- the events given to the bus. What it only reads, and what stands outside the repository, is in
-- `Setting`. A handler is a function on the runtime, since tools may perform further actions; how it
-- ended is a `HandlerEnd`. Results carry no texts for the user and no durations.
pub mod Gate
pub mod Inert
pub mod Outcomes
mod Tests
use garis.Base.{
  ℕ, String, Bool, true, false, Option, none, some, List, [], ◌∷◌, ◌++◌, any, not, ◌==◌, ◌&&◌, ◌||◌,
  if◌then◌else◌,
}
use Prim.Native.String.{◌++◌ as ◌<>◌}
use garis.Dict
use garis.Dict.{Dict}
use garis.Actions.{
  Effect, write, delete_permanent, exec, install, credentials, system_config, input_control,
  effect_value, has, sorted_effects, Value, Params, Action, ToolSpec, supported_here, validate,
  resource_keys,
}
use garis.Policy.{Decision, allow, confirm, deny, Verdict, verdict, AutonomyConfig, Paths, evaluate}
use garis.Approvals.{
  Broker, Ask, ApprovalRequest, Answer, returned, missing, duplicate, request, consume, granted_for,
  denied_for,
}
use garis.Leases.{
  Manager, LeaseMode, shared, exclusive, Lease, Round, Acquired, acquired, lease_timeout, waiting,
  acquire, release,
}

pub record AuditRow : Type 0 where
  pub task_id : Option String
  pub tool : String
  pub decision : Decision
  pub rule : String
  pub outcome : String

pub data Event : Type 0 where
  action_started action_finished : String → Event
  action_denied action_failed : String → String → Event

pub record Runtime : Type 0 where
  pub broker : Broker
  pub table : Manager
  pub audit : List AuditRow
  pub events : List Event

-- why the flow itself stops
pub data Raised : Type 0 where
  policy_denied : String → Raised
  approval_denied : Raised
  approval_required : String → Raised
  cancelled : Raised
  store_error : Raised

pub record ActionResult : Type 0 where
  pub ok : Bool
  pub tool : String
  pub action_id : String
  pub value : Option String
  pub error_kind : String
  pub retryable : Bool
  pub detail : String

pub data Performed : Type 0 where
  result : ActionResult → Performed
  raised : Raised → Performed
  lease_waiting : Performed

-- how the awaited handler ended; `failed` is a `GarisError` with its `retryable`
pub data HandlerEnd : Type 0 where
  value : String → HandlerEnd
  timed_out : HandlerEnd
  stopped : HandlerEnd
  gate : Raised → HandlerEnd
  failed : Bool → HandlerEnd
  crashed : HandlerEnd

abbrev pub Handler : Type 0
Handler = Params → Runtime → HandlerEnd × Runtime

pub record Setting : Type 0 where
  pub registry : Dict ToolSpec
  pub platform : String
  pub config : AutonomyConfig
  pub paths : Paths
  pub norm : String → String
  pub repr : Value → String
  pub fingerprint : Action → String
  pub prompt : Action → String
  pub redacted : Params → String
  -- `vault.resolve_tree`; `none` is its `StoreError`
  pub resolve_secrets : Params → Option Params

-- what is drawn at the time of one call
pub record Draw : Type 0 where
  pub approval_id : String
  pub now : ℕ
  pub rounds : List Round

abbrev pub audit_row : Action → Verdict → String → AuditRow
audit_row action v outcome = record {
  task_id = action.task_id;
  tool = action.tool;
  decision = v.decision;
  rule = v.rule;
  outcome = outcome;
}

abbrev pub record_audit : Runtime → Action → Verdict → String → Runtime
record_audit rt action v outcome = record rt { audit = rt.audit ++ audit_row action v outcome ∷ [] }

abbrev pub emit : Runtime → Event → Runtime
emit rt e = record rt { events = rt.events ++ e ∷ [] }

abbrev pub failure : Action → String → Bool → String → ActionResult
failure action kind retryable detail = record {
  ok = false;
  tool = action.tool;
  action_id = action.id;
  value = none;
  error_kind = kind;
  retryable = retryable;
  detail = detail;
}

-- `_reject`
unfoldable pub reject : Runtime → Action → Verdict → String → String → Bool → Performed × Runtime
reject rt action used outcome kind retryable = (
  result (failure action kind retryable outcome),
  emit (record_audit rt action used "error") (action_failed action.tool kind),
)

unfoldable pub is_mutating : List Effect → Bool
is_mutating effects =
    has write effects
    || (has delete_permanent effects
        || (has install effects
            || (has system_config effects
                || (has credentials effects || (has input_control effects || has exec effects)))))

abbrev pub lease_mode : List Effect → LeaseMode
lease_mode effects = if is_mutating effects then exclusive else shared

abbrev pub holder_of : Action → String
holder_of action = elim action.task_id [
  | none ↦ "action:" <> action.id
  | some task ↦ if task == "" then "action:" <> action.id else task
]

abbrev awaiting :
    Runtime → Action → Verdict → Answer ApprovalRequest × Broker → Option Raised × Runtime
awaiting rt action v (returned r, b) = (
  some (approval_required r.id),
  record_audit (record rt { broker = b }) action v "awaiting_approval",
)
awaiting rt action v (missing, b) = (some store_error, record rt { broker = b })
awaiting rt action v (duplicate, b) = (some store_error, record rt { broker = b })

module _ (s : Setting) where
  abbrev ask_of : Action → ToolSpec → Ask
  ask_of action spec = record {
    tool = action.tool;
    prompt = s.prompt action;
    fingerprint = s.fingerprint action;
    task_id = action.task_id;
    effects = effect_names spec.effects sorted_effects;
    params = s.redacted action.params;
  }
    where
      effect_names : List Effect → List Effect → List String
      effect_names effects [] = []
      effect_names effects (e ∷ es) =
          let rest = effect_names effects es in
          if has e effects then effect_value e ∷ rest else rest

  abbrev pub granted_or_ask :
      Runtime
      → Action
      → ToolSpec
      → Verdict
      → Draw
      → Option ApprovalRequest
      → Option Raised × Runtime
  granted_or_ask rt action spec v d (some granted) =
      (none, record rt { broker = consume rt.broker granted.id })
  granted_or_ask rt action spec v d none =
      awaiting rt action v (request rt.broker (ask_of action spec) d.approval_id d.now)

  abbrev pub denied_or_granted :
      Runtime
      → Action
      → ToolSpec
      → Verdict
      → Draw
      → Option ApprovalRequest
      → Option Raised × Runtime
  denied_or_granted rt action spec v d (some denied) = (
    some approval_denied,
    record_audit (record rt { broker = consume rt.broker denied.id }) action v "rejected_by_user",
  )
  denied_or_granted rt action spec v d none =
      granted_or_ask rt action spec v d (granted_for rt.broker (s.fingerprint action))

  -- `_require_approval`: nothing is raised exactly when a yes was spent
  unfoldable pub require_approval :
      Runtime → Action → ToolSpec → Verdict → Draw → Option Raised × Runtime
  require_approval rt action spec v d =
      denied_or_granted rt action spec v d (denied_for rt.broker (s.fingerprint action))

  abbrev pub finish : Action → Verdict → HandlerEnd × Runtime → Performed × Runtime
  finish action v (value text, rt) = (
    result (record {
      ok = true;
      tool = action.tool;
      action_id = action.id;
      value = some text;
      error_kind = "";
      retryable = true;
      detail = "";
    }),
    emit (record_audit rt action v "ok") (action_finished action.tool),
  )
  finish action v (timed_out, rt) = reject rt action v "timeout" "timeout" true
  finish action v (stopped, rt) = (raised cancelled, record_audit rt action v "cancelled")
  finish action v (gate r, rt) = (raised r, rt)
  finish action v (failed retryable, rt) = reject rt action v "error" "error" retryable
  finish action v (crashed, rt) = reject rt action v "crash" "crash" true

  abbrev pub invoked : Handler → Runtime → Action → Verdict → Option Params → Performed × Runtime
  invoked handler rt action v none = reject rt action v "missing_secret" "missing_secret" false
  invoked handler rt action v (some params) =
      finish action v (handler params (emit rt (action_started action.tool)))

  -- `_invoke`
  unfoldable pub invoke : Handler → Runtime → Action → Verdict → Performed × Runtime
  unfolding reject
  invoke handler rt action v = invoked handler rt action v (s.resolve_secrets action.params)

  -- the `finally` of step 6
  abbrev pub releasing : Lease → Performed × Runtime → Performed × Runtime
  releasing lease (p, rt) = (p, record rt { table = (release rt.table lease).0 })

  abbrev pub leased : Handler → Runtime → Action → Verdict → Acquired → Performed × Runtime
  leased handler rt action v (acquired lease m) =
      releasing lease (invoke handler (record rt { table = m }) action v)
  leased handler rt action v (lease_timeout m) =
      reject (record rt { table = m }) action v "lease_timeout" "busy" true
  leased handler rt action v (waiting m) = (lease_waiting, record rt { table = m })

  -- steps 5 and 6
  unfoldable pub run_leased :
      Handler → Runtime → Action → ToolSpec → Verdict → Draw → Performed × Runtime
  unfolding reject is_mutating
  run_leased handler rt action spec v d = leased handler rt action v (
      acquire rt.table (resource_keys spec action.params) (lease_mode spec.effects)
        (holder_of action) (some spec.timeout) d.now d.rounds)

  abbrev pub after_approval :
      Handler → Action → ToolSpec → Verdict → Draw → Option Raised × Runtime → Performed × Runtime
  after_approval handler action spec v d (some r, rt) = (raised r, rt)
  after_approval handler action spec v d (none, rt) = run_leased handler rt action spec v d

  -- steps 3 and 4
  abbrev pub decide :
      Handler → Runtime → Action → ToolSpec → Verdict → Draw → Decision → Performed × Runtime
  decide handler rt action spec v d deny = (
    raised (policy_denied v.rule),
    emit (record_audit rt action v "denied") (action_denied action.tool v.rule),
  )
  decide handler rt action spec v d confirm =
      after_approval handler action spec v d (require_approval rt action spec v d)
  decide handler rt action spec v d allow = run_leased handler rt action spec v d

  abbrev pub validated :
      Handler → Runtime → Action → ToolSpec → Draw → Option Params → Performed × Runtime
  validated handler rt action spec d none =
      reject rt action (verdict allow "invalid_params") "invalid_params" "invalid" true
  validated handler rt action spec d (some params) =
      let checked = record action { params = params } in
      let v = evaluate s.norm s.repr s.paths s.config spec checked in
      decide handler rt checked spec v d v.decision

  abbrev pub supported : Handler → Runtime → Action → ToolSpec → Draw → Bool → Performed × Runtime
  supported handler rt action spec d true =
      validated handler rt action spec d (validate spec action.params)
  supported handler rt action spec d false =
      reject rt action (verdict allow "unsupported") "unsupported" "unsupported" false

  abbrev pub found : Handler → Runtime → Action → Draw → Option ToolSpec → Performed × Runtime
  found handler rt action d none =
      reject rt action (verdict allow "unknown_tool") "unknown_tool" "not_found" false
  found handler rt action d (some spec) =
      supported handler rt action spec d (supported_here spec s.platform)

  -- `Runtime.perform`, for a tool whose handler is given
  unfoldable pub perform : Handler → Runtime → Action → Draw → Performed × Runtime
  unfolding reject
  perform handler rt action d = found handler rt action d (Dict.get s.registry action.tool)
