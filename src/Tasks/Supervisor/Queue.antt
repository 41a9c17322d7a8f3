-- ===== src/Tasks/Supervisor/Queue.antt =====
-- The semaphore and the tasks that wait for it (core/src/garis/tasks/supervisor.py).
use garis.Base.{
  ℕ, ◌≤◌, String, true, false, some, List, [], ◌∷◌, ◌≡◌, refl, ◌∙◌, arith, eq_iff, contains, length,
}
use garis.Tasks.{TaskRecord, get, pending, recover_incomplete}
use garis.Tasks.Supervisor.{
  Supervisor, without, has_coroutine, launch, submit, resume, stop, begins, ends, cancelled_queued,
  launch_all, recover,
}
use garis.Tasks.Supervisor.Rests.{
  Call, submits, resumes, stops, begins_run, ends_run, is_cut, recovers, call, run,
  contains-without,
}

-- A task that waits for a slot is stopped: `stop` says yes, and once its coroutine is cancelled at the
-- semaphore the task has no coroutine and its row is the one from before, pending and not stopped.
pub stop_queued :
    (s : Supervisor) (id : String) (now : ℕ) (t : TaskRecord)
    → contains id s.queued ≡ true
    → contains id s.inside ≡ false
    → get s.store id ≡ some t
    → t.state ≡ pending
    → ((stop s id now).0 ≡ true)
      × (has_coroutine (cancelled_queued (stop s id now).1 id) id ≡ false)
      × (get (cancelled_queued (stop s id now).1 id).store id ≡ some t)
unfolding stop cancelled_queued
stop_queued s id now t q i g p =
    (ground arith, ground (arith, contains-without id id s.queued, eq_iff id id), ground arith)

length-without : (x : String) (xs : List String) → length (without x xs) ≤ length xs
length-without x [] = omega arith
length-without x (y ∷ ys) = ground (arith, length-without x ys)

launch-inside :
    (s : Supervisor) (x : String)
    → ((launch s x).inside ≡ s.inside) × ((launch s x).slots ≡ s.slots)
unfolding launch
launch-inside s x = ground arith

launch_all-inside :
    (s : Supervisor) (found : List TaskRecord)
    → ((launch_all s found).inside ≡ s.inside) × ((launch_all s found).slots ≡ s.slots)
launch_all-inside s [] = (refl, refl)
launch_all-inside s (t ∷ found) = (
  (launch_all-inside (launch s t.id) found).0 ∙ (launch-inside s t.id).0,
  (launch_all-inside (launch s t.id) found).1 ∙ (launch-inside s t.id).1,
)

-- No more coroutines are inside the semaphore than it has slots.
abbrev pub Bounded : Supervisor → Type 0
Bounded s = length s.inside ≤ s.slots

call-Bounded : (s : Supervisor) (c : Call) → Bounded s → Bounded (call s c)
unfolding call submit resume stop begins ends cancelled_queued recover
call-Bounded s (submits y) h = grind (arith, launch-inside)
call-Bounded s (resumes x now) h = grind (arith, launch-inside)
call-Bounded s (stops x now) h = ground arith
call-Bounded s (begins_run x now) h = ground arith
call-Bounded s (ends_run x now e) h = ground (arith, length-without x s.inside)
call-Bounded s (is_cut x) h = ground arith
call-Bounded s recovers h = ground (
  arith,
  launch_all-inside (record s { store = (recover_incomplete s.store).1 })
      (recover_incomplete s.store).0,
)

-- However many tasks are submitted, resumed, stopped, run, cancelled and recovered, never more of them
-- are inside the semaphore than it has slots.
pub run-Bounded : (s : Supervisor) (calls : List Call) → Bounded s → Bounded (run s calls)
unfolding run
run-Bounded s [] h = h
run-Bounded s (c ∷ calls) h = run-Bounded (call s c) calls (call-Bounded s c h)
