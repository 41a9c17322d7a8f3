-- ===== src/Tasks/Supervisor.antt =====
-- The supervisor: core/src/garis/tasks/supervisor.py.
-- A launched task has a coroutine: it is `queued` until it has a slot of the semaphore and `inside`
-- afterwards. `begins` is the part of `_run` up to the agent loop, `ends` the part after it, with the
-- loop's outcome given. `asyncio` cancels a coroutine where it waits: at the semaphore it ends without
-- a word, in the loop it raises `CancelledError` there.
pub mod Rests
pub mod Queue
use garis.Base.{
  ℕ, String, Bool, true, false, Option, none, some, List, [], ◌∷◌, ◌++◌, ltb, max, ◌==◌, ◌&&◌, ◌||◌,
  not, if◌then◌else◌, keep, length, contains, map,
}
use garis.Tasks.{
  TaskState, pending, running, blocked, finished, failed, stopped, active, TaskRecord, TaskStore,
  create, get, new, set_state, finish, no_extra, with_error, recover_incomplete,
}

pub record Supervisor : Type 0 where
  pub store : TaskStore
  pub queued : List String
  pub inside : List String
  -- asked to cancel, not yet cancelled
  pub cancelling : List String
  pub slots : ℕ

-- what the agent loop comes to, or how it is left
pub data LoopEnd : Type 0 where
  asks_user : String → String → LoopEnd
  is_done : String → String → LoopEnd
  has_failed : String → String → String → LoopEnd
  is_cancelled : LoopEnd
  is_aborted : String → LoopEnd
  -- another exception, which leaves the row as it is
  has_crashed : LoopEnd

abbrev without : String → List String → List String
without id ids = keep (λ x. not (x == id)) ids

abbrev pub has_coroutine : Supervisor → String → Bool
has_coroutine s id = contains id s.queued || contains id s.inside

unfoldable pub launch : Supervisor → String → Supervisor
launch s id = if has_coroutine s id then s else record s { queued = s.queued ++ id ∷ [] }

abbrev submitted : Supervisor → String → Option TaskStore → Option Supervisor
submitted s id none = none
submitted s id (some store) = some (launch (record s { store = store }) id)

-- `submit`; `none` is the error of the database
unfoldable pub submit : Supervisor → TaskRecord → Option Supervisor
unfolding launch
submit s t = submitted s t.id (create s.store t)

abbrev pub may_resume : TaskState → Bool
may_resume blocked = true
may_resume pending = true
may_resume _ = false

abbrev pub resumed : Supervisor → String → ℕ → Option TaskRecord → Option Supervisor
resumed s id now none = none
resumed s id now (some t) =
    if may_resume t.state
    then some (launch (record s { store = set_state s.store id pending (with_error "") now }) id)
    else some s

-- `resume`; `none` is the `KeyError` of `require`
unfoldable pub resume : Supervisor → String → ℕ → Option Supervisor
unfolding launch
resume s id now = resumed s id now (get s.store id)

abbrev pub stopped_at_rest : Supervisor → String → ℕ → Option TaskRecord → Bool × Supervisor
stopped_at_rest s id now none = (false, s)
stopped_at_rest s id now (some t) =
    if active t.state
    then (
      true,
      record s {
        store = set_state s.store id stopped (with_error "zatrzymane przez użytkownika") now;
      },
    )
    else (false, s)

unfoldable pub stop : Supervisor → String → ℕ → Bool × Supervisor
stop s id now =
    if has_coroutine s id
    then (true, record s { cancelling = id ∷ s.cancelling })
    else stopped_at_rest s id now (get s.store id)

abbrev entered : Supervisor → String → ℕ → Option TaskRecord → Supervisor
entered s id now none = record s { queued = without id s.queued }
entered s id now (some t) = record s {
  store = set_state s.store id running no_extra now;
  queued = without id s.queued;
  inside = id ∷ s.inside;
}

-- a queued coroutine that is not being cancelled takes a free slot
unfoldable pub begins : Supervisor → String → ℕ → Supervisor
begins s id now =
    if contains id s.queued && (not (contains id s.cancelling) && ltb (length s.inside) s.slots)
    then entered s id now (get s.store id)
    else s

-- `_apply_outcome` and the two `except` branches of `_run`
unfoldable pub apply_end : TaskStore → String → ℕ → LoopEnd → TaskStore
apply_end store id now (asks_user report question) =
    set_state store id blocked
      (record { error = some question; report = some (some report); result = none }) now
apply_end store id now (is_done report result) =
    finish store id finished (some report) (some result) "" now
apply_end store id now (has_failed report result short) =
    finish store id failed (some report) (some result)
      (if short == "" then "nie udało się" else short) now
apply_end store id now is_cancelled =
    set_state store id stopped (with_error "zatrzymane przez użytkownika") now
apply_end store id now (is_aborted text) = set_state store id stopped (with_error text) now
apply_end store id now has_crashed = store

-- the end of a coroutine that has a slot
unfoldable pub ends : Supervisor → String → ℕ → LoopEnd → Supervisor
unfolding apply_end
ends s id now e =
    if contains id s.inside
    then record s {
      store = apply_end s.store id now e;
      inside = without id s.inside;
      cancelling = without id s.cancelling;
    }
    else s

-- a queued coroutine is cancelled where it waits for a slot
unfoldable pub cancelled_queued : Supervisor → String → Supervisor
cancelled_queued s id =
    if contains id s.queued && contains id s.cancelling
    then record s { queued = without id s.queued; cancelling = without id s.cancelling }
    else s

abbrev pub launch_all : Supervisor → List TaskRecord → Supervisor
launch_all s [] = s
launch_all s (t ∷ tasks) = launch_all (launch s t.id) tasks

-- `recover`
unfoldable pub recover : Supervisor → Supervisor
unfolding launch
recover s =
    launch_all (record s { store = (recover_incomplete s.store).1 }) (recover_incomplete s.store).0
