-- ===== src/Executor/Outcomes.antt =====
-- What every performed action leaves behind: an audit row, and the lease table as it was
-- (core/src/garis/runtime/executor.py).
use garis.Base.{
  String, Bool, true, false, Option, none, some, List, [], ◌∷◌, ◌++◌, ◌≡◌, refl, subst, All,
  if◌then◌else◌,
}
use garis.Dict
use garis.Actions.{Params, Action, ToolSpec, supported_here, validate, resource_keys}
use garis.Policy.{Decision, allow, confirm, deny, Verdict, verdict, evaluate}
use garis.Leases.{Manager, Lease, Acquired, acquired, lease_timeout, waiting, ordered}
use garis.Leases.Attempts.{SameHolds, same_refl, same_trans}
use garis.Leases.GivesBack.{GivesBack, acquire-GivesBack, Unwritten}
use garis.Executor.{
  Runtime, AuditRow, Setting, Draw, Handler, HandlerEnd, value, timed_out, stopped, gate, failed,
  crashed, Raised, Performed, raised, result, lease_waiting, ActionResult, perform, decide,
  validated, supported, found, invoked, after_approval, invoke, finish, leased, run_leased, reject,
  releasing, emit, action_started, lease_mode, holder_of,
}

-- The last audit row tells of this action, and its outcome is "ok" exactly when the result is.
abbrev pub Audited : Action → Performed × Runtime → Type 0
Audited action (result r, rt) =
    (rows : List AuditRow) × (row : AuditRow) × (rt.audit ≡ rows ++ row ∷ [])
    × (row.tool ≡ action.tool)
    × (row.task_id ≡ action.task_id)
    × (row.outcome ≡ (if r.ok then "ok" else "error"))
    × (r.tool ≡ action.tool)
    × (r.action_id ≡ action.id)
Audited action (raised r, rt) = Unit
Audited action (lease_waiting, rt) = Unit

reject-Audited :
    (rt : Runtime) (action : Action) (v : Verdict) (outcome kind : String) (retryable : Bool)
    → Audited action (reject rt action v outcome kind retryable)
unfolding reject
reject-Audited rt action v outcome kind retryable =
    (rt.audit, _, refl, refl, refl, refl, refl, refl)

module _ (s : Setting) (handler : Handler) where
  finish-Audited :
      (action : Action) (v : Verdict) (x : HandlerEnd × Runtime)
      → Audited action (finish s action v x)
  finish-Audited action v (value text, rt) = (rt.audit, _, refl, refl, refl, refl, refl, refl)
  finish-Audited action v (timed_out, rt) = reject-Audited rt action v _ _ _
  finish-Audited action v (stopped, rt) = tt
  finish-Audited action v (gate r, rt) = tt
  finish-Audited action v (failed retryable, rt) = reject-Audited rt action v _ _ _
  finish-Audited action v (crashed, rt) = reject-Audited rt action v _ _ _

  invoked-Audited :
      (rt : Runtime) (action : Action) (v : Verdict) (p : Option Params)
      → Audited action (invoked s handler rt action v p)
  invoked-Audited rt action v none = reject-Audited rt action v _ _ _
  invoked-Audited rt action v (some params) = finish-Audited action v _

  invoke-Audited :
      (rt : Runtime) (action : Action) (v : Verdict) → Audited action (invoke s handler rt action v)
  unfolding invoke
  invoke-Audited rt action v = invoked-Audited rt action v (s.resolve_secrets action.params)

  releasing-Audited :
      (action : Action) (l : Lease) (x : Performed × Runtime)
      → Audited action x
      → Audited action (releasing s l x)
  releasing-Audited action l (result r, rt) a = a
  releasing-Audited action l (raised r, rt) a = tt
  releasing-Audited action l (lease_waiting, rt) a = tt

  leased-Audited :
      (rt : Runtime) (action : Action) (v : Verdict) (a : Acquired)
      → Audited action (leased s handler rt action v a)
  leased-Audited rt action v (acquired l m) =
      releasing-Audited action l _ (invoke-Audited (record rt { table = m }) action v)
  leased-Audited rt action v (lease_timeout m) =
      reject-Audited (record rt { table = m }) action v _ _ _
  leased-Audited rt action v (waiting m) = tt

  after_approval-Audited :
      (action : Action) (spec : ToolSpec) (v : Verdict) (d : Draw) (x : Option Raised × Runtime)
      → Audited action (after_approval s handler action spec v d x)
  unfolding run_leased
  after_approval-Audited action spec v d (some r, rt) = tt
  after_approval-Audited action spec v d (none, rt) = leased-Audited rt action v _

  decide-Audited :
      (rt : Runtime) (action : Action) (spec : ToolSpec) (v : Verdict) (d : Draw) (dec : Decision)
      → Audited action (decide s handler rt action spec v d dec)
  unfolding run_leased
  decide-Audited rt action spec v d deny = tt
  decide-Audited rt action spec v d confirm = after_approval-Audited action spec v d _
  decide-Audited rt action spec v d allow = leased-Audited rt action v _

  retag :
      (a : Action) (params : Params) (x : Performed × Runtime)
      → Audited (record a { params = params }) x
      → Audited a x
  retag a params (result r, t) h = h
  retag a params (raised r, t) h = tt
  retag a params (lease_waiting, t) h = tt

  validated-Audited :
      (rt : Runtime) (action : Action) (spec : ToolSpec) (d : Draw) (p : Option Params)
      → Audited action (validated s handler rt action spec d p)
  validated-Audited rt action spec d none =
      reject-Audited rt action (verdict allow "invalid_params") "invalid_params" "invalid" true
  validated-Audited rt action spec d (some params) =
      let checked = record action { params = params } in
      let v = evaluate s.norm s.repr s.paths s.config spec checked in
      retag action params (decide s handler rt checked spec v d v.decision)
        (decide-Audited rt checked spec v d v.decision)

  supported-Audited :
      (rt : Runtime) (action : Action) (spec : ToolSpec) (d : Draw) (b : Bool)
      → Audited action (supported s handler rt action spec d b)
  supported-Audited rt action spec d true =
      validated-Audited rt action spec d (validate spec action.params)
  supported-Audited rt action spec d false =
      reject-Audited rt action (verdict allow "unsupported") "unsupported" "unsupported" false

  found-Audited :
      (rt : Runtime) (action : Action) (d : Draw) (o : Option ToolSpec)
      → Audited action (found s handler rt action d o)
  found-Audited rt action d none =
      reject-Audited rt action (verdict allow "unknown_tool") "unknown_tool" "not_found" false
  found-Audited rt action d (some spec) =
      supported-Audited rt action spec d (supported_here spec s.platform)

  -- Every action that ends in a result, a failed one too, has left a row of its own at the end of the
  -- audit: it names the tool and the task, and its outcome is "ok" exactly when the result is.
  pub perform_audited :
      (rt rt' : Runtime) (action : Action) (d : Draw) (r : ActionResult)
      → perform s handler rt action d ≡ (result r, rt')
      → (rows : List AuditRow) × (row : AuditRow) × (rt'.audit ≡ rows ++ row ∷ [])
        × (row.tool ≡ action.tool)
        × (row.task_id ≡ action.task_id)
        × (row.outcome ≡ (if r.ok then "ok" else "error"))
        × (r.tool ≡ action.tool)
        × (r.action_id ≡ action.id)
  unfolding perform
  perform_audited rt rt' action d r e =
      subst (Audited action) e (found-Audited rt action d (Dict.get s.registry action.tool))

-- A runtime whose lease table holds what the table `m` holds.
abbrev pub Holds : Manager → Performed × Runtime → Type 0
Holds m x = SameHolds x.1.table m

module _ (s : Setting) (handler : Handler)
    (keeps : (p : Params) (rt : Runtime) → SameHolds (handler p rt).1.table rt.table) where
  reject-Holds :
      (rt : Runtime) (action : Action) (v : Verdict) (o k : String) (b : Bool)
      → Holds rt.table (reject rt action v o k b)
  unfolding reject
  reject-Holds rt action v o k b = same_refl rt.table

  finish-Holds :
      (action : Action) (v : Verdict) (x : HandlerEnd × Runtime)
      → Holds x.1.table (finish s action v x)
  finish-Holds action v (value text, rt) = same_refl rt.table
  finish-Holds action v (timed_out, rt) = reject-Holds rt action v _ _ _
  finish-Holds action v (stopped, rt) = same_refl rt.table
  finish-Holds action v (gate r, rt) = same_refl rt.table
  finish-Holds action v (failed retryable, rt) = reject-Holds rt action v _ _ _
  finish-Holds action v (crashed, rt) = reject-Holds rt action v _ _ _

  invoked-Holds :
      (rt : Runtime) (action : Action) (v : Verdict) (p : Option Params)
      → Holds rt.table (invoked s handler rt action v p)
  invoked-Holds rt action v none = reject-Holds rt action v _ _ _
  invoked-Holds rt action v (some params) =
      let rt' = emit rt (action_started action.tool) in
      same_trans (finish-Holds action v (handler params rt')) (keeps params rt')

  invoke-Holds :
      (rt : Runtime) (action : Action) (v : Verdict) → Holds rt.table (invoke s handler rt action v)
  unfolding invoke
  invoke-Holds rt action v = invoked-Holds rt action v (s.resolve_secrets action.params)

  leased-Holds :
      (rt : Runtime) (action : Action) (v : Verdict) (a : Acquired)
      → GivesBack a rt.table
      → Holds rt.table (leased s handler rt action v a)
  leased-Holds rt action v (acquired l m) g =
      let rt' = record rt { table = m } in
      g (invoke s handler rt' action v).1.table (invoke-Holds rt' action v)
  leased-Holds rt action v (lease_timeout m) g =
      same_trans (reject-Holds (record rt { table = m }) action v _ _ _) g
  leased-Holds rt action v (waiting m) g = g

  -- Once an action is let through, however it ends (a value, an error, a timeout, a crash, a
  -- cancellation, a gate raised by a nested action, or no lease in time), the lease table holds what it
  -- held before, where the handler keeps what the table holds, the other tasks leave it alone during
  -- the wait, and nobody writes on the keys of an exclusive request.
  pub run_leased_gives_back :
      (rt : Runtime) (action : Action) (spec : ToolSpec) (v : Verdict) (d : Draw)
      → All (λ r. (n : Manager) → SameHolds (r.others n) n) d.rounds
      → Unwritten rt.table (ordered (resource_keys spec action.params)) (lease_mode spec.effects)
      → SameHolds (run_leased s handler rt action spec v d).1.table rt.table
  unfolding run_leased
  run_leased_gives_back rt action spec v d idle u = leased-Holds rt action v _ (
      acquire-GivesBack rt.table (resource_keys spec action.params) (lease_mode spec.effects)
        (holder_of action) (some spec.timeout) d.now d.rounds idle u)
