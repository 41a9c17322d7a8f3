-- ===== src/Approvals.antt =====
-- Durable approvals: core/src/garis/runtime/approvals.py.
-- `Broker` holds the rows of the table `approvals`, the events given to the bus and the waiters of
-- `wait` with their flags. New ids and times are arguments. Of rows that share the time that a query
-- orders by, the one inserted first is taken.
pub mod Counts
pub mod Pending
mod Tests
use garis.Base.{
  ℕ, zero, suc, String, Bool, true, false, Option, none, some, List, [], ◌∷◌, ◌++◌, leb, ltb, keep,
  not, ◌&&◌, ◌==◌, if◌then◌else◌, length, map, is_some,
}
use garis.Dict
use garis.Dict.{Dict}
use garis.Rows

pub data ApprovalState : Type 0 where
  pending approved denied expired : ApprovalState

pub record ApprovalRequest : Type 0 where
  pub id : String
  pub tool : String
  pub prompt : String
  pub fingerprint : String
  pub state : ApprovalState
  pub requested_at : ℕ
  pub task_id : Option String
  pub effects : List String
  pub params : String
  pub consumed : Bool
  pub resolved_at : Option ℕ
  pub resolved_by : Option String

abbrev pub is_pending : ApprovalState → Bool
is_pending pending = true
is_pending _ = false

abbrev pub is_approved : ApprovalState → Bool
is_approved approved = true
is_approved _ = false

abbrev pub is_denied : ApprovalState → Bool
is_denied denied = true
is_denied _ = false

abbrev pub key : ApprovalRequest → String
key r = r.id

abbrev pub ApprovalRows : Type 0
ApprovalRows = List ApprovalRequest

pub data Event : Type 0 where
  approval_requested : String → Event
  approval_resolved : String → Bool → Event

pub record Broker : Type 0 where
  pub rows : ApprovalRows
  pub events : List Event
  pub waiters : Dict Bool

-- ORDER BY t DESC LIMIT 1 over the rows that satisfy a condition
abbrev pub newer :
    (ApprovalRequest → Bool)
    → (ApprovalRequest → ℕ)
    → ApprovalRequest
    → Option ApprovalRequest
    → Option ApprovalRequest
newer p t r none = if p r then some r else none
newer p t r (some x) = if p r && leb (t x) (t r) then some r else some x

unfoldable pub latest :
    (ApprovalRequest → Bool) → (ApprovalRequest → ℕ) → ApprovalRows → Option ApprovalRequest
latest p t [] = none
latest p t (r ∷ rows) = newer p t r (latest p t rows)

abbrev or_zero : Option ℕ → ℕ
or_zero none = 0
or_zero (some n) = n

abbrev pub resolution_time : ApprovalRequest → ℕ
resolution_time r = or_zero r.resolved_at

abbrev pub waits_for : String → ApprovalRequest → Bool
waits_for fingerprint r = r.fingerprint == fingerprint && is_pending r.state

abbrev pub usable_for : String → ApprovalRequest → Bool
usable_for fingerprint r = r.fingerprint == fingerprint && (is_approved r.state && not r.consumed)

abbrev pub refused_for : String → ApprovalRequest → Bool
refused_for fingerprint r = r.fingerprint == fingerprint && (is_denied r.state && not r.consumed)

-- what the caller of `request` passes of the action, the tool and the verdict
pub record Ask : Type 0 where
  pub tool : String
  pub prompt : String
  pub fingerprint : String
  pub task_id : Option String
  pub effects : List String
  pub params : String

abbrev pub new_request : Ask → String → ℕ → ApprovalRequest
new_request a id now = record {
  id = id;
  tool = a.tool;
  prompt = a.prompt;
  fingerprint = a.fingerprint;
  state = pending;
  requested_at = now;
  task_id = a.task_id;
  effects = a.effects;
  params = a.params;
  consumed = false;
  resolved_at = none;
  resolved_by = none;
}

-- a call returns a value, or raises: `missing` is the `ApprovalDenied` of `resolve`, and `duplicate`
-- the error of the database for an id that is taken
pub data Answer {ℓ} (A : Type ℓ) : Type ℓ where
  returned : A → Answer A
  missing : Answer A
  duplicate : Answer A

abbrev open_request :
    Broker → ApprovalRequest → Option ApprovalRequest → Answer ApprovalRequest × Broker
open_request b r none = (
  returned r,
  record b { rows = Rows.insert key b.rows r; events = b.events ++ approval_requested r.id ∷ [] },
)
open_request b r (some x) = (duplicate, b)

abbrev reuse_or_open :
    Broker → ApprovalRequest → Option ApprovalRequest → Answer ApprovalRequest × Broker
reuse_or_open b r (some existing) = (returned existing, b)
reuse_or_open b r none = open_request b r (Rows.find key b.rows r.id)

-- `ApprovalBroker.request`
unfoldable pub request : Broker → Ask → String → ℕ → Answer ApprovalRequest × Broker
request b a id now =
    reuse_or_open b (new_request a id now)
      (latest (waits_for a.fingerprint) (λ r. r.requested_at) b.rows)

abbrev pub resolved : Bool → ℕ → String → ApprovalRequest → ApprovalRequest
resolved yes' now by r = record r {
  state = if yes' then approved else denied;
  resolved_at = some now;
  resolved_by = some by;
}

-- `event.set()` for a registered waiter
abbrev signal : Dict Bool → String → Option Bool → Dict Bool
signal waiters id none = waiters
signal waiters id (some flag) = Dict.put waiters id true

abbrev resolve_row :
    Broker → String → Bool → String → ℕ → Option ApprovalRequest → Answer ApprovalRequest × Broker
resolve_row b id yes' by now none = (missing, b)
resolve_row b id yes' by now (some row) = (
  returned (resolved yes' now by row),
  record {
    rows = Rows.update key b.rows id (resolved yes' now by);
    events = b.events ++ approval_resolved id yes' ∷ [];
    waiters = signal b.waiters id (Dict.get b.waiters id);
  },
)

-- `ApprovalBroker.resolve`
unfoldable pub resolve : Broker → String → Bool → String → ℕ → Answer ApprovalRequest × Broker
resolve b id yes' by now = resolve_row b id yes' by now (Rows.find key b.rows id)

unfoldable pub get : Broker → String → Option ApprovalRequest
get b id = Rows.find key b.rows id

unfoldable pub granted_for : Broker → String → Option ApprovalRequest
granted_for b fingerprint = latest (usable_for fingerprint) resolution_time b.rows

unfoldable pub denied_for : Broker → String → Option ApprovalRequest
denied_for b fingerprint = latest (refused_for fingerprint) resolution_time b.rows

abbrev pub spent : ApprovalRequest → ApprovalRequest
spent r = record r { consumed = true }

unfoldable pub consume : Broker → String → Broker
consume b id = record b { rows = Rows.update key b.rows id spent }

-- the rows that `expire_older_than` changes
abbrev pub expire : ℕ → ApprovalRequest → ApprovalRequest
expire cutoff r =
    if is_pending r.state && ltb r.requested_at cutoff then record r { state = expired } else r

-- `expire_older_than`, with the cutoff computed, and the number of rows that it changed
unfoldable pub expire_older_than : Broker → ℕ → Broker × ℕ
expire_older_than b cutoff = (
  record b { rows = map (expire cutoff) b.rows },
  length (keep (λ r. is_pending r.state && ltb r.requested_at cutoff) b.rows),
)

abbrev with_flag : Dict Bool → String → Option Bool → Dict Bool
with_flag waiters id none = Dict.put waiters id false
with_flag waiters id (some flag) = waiters

abbrev decided : Option ApprovalRequest → Option Bool
decided none = none
decided (some r) = if is_pending r.state then none else some (is_approved r.state)

-- `wait` up to its first suspension: an answer that is there already, or a registered waiter
unfoldable pub wait_begin : Broker → String → Option Bool × Broker
unfolding get
wait_begin b id =
    let waiting = record b { waiters = with_flag b.waiters id (Dict.get b.waiters id) } in
    elim (decided (get b id)) [
      | some answer ↦ (some answer, record waiting { waiters = Dict.pop waiting.waiters id })
      | none ↦ (none, waiting)
    ]

-- `wait` after its event was set, or after the timeout
unfoldable pub wait_end : Broker → String → Bool → Bool × Broker
unfolding get
wait_end b id timed_out = (
  if timed_out then false else elim (get b id) [ none ↦ false | some r ↦ is_approved r.state ],
  record b { waiters = Dict.pop b.waiters id },
)
