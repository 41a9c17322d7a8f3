-- ===== src/Tasks/Tests.antt =====
-- The store and the supervisor at concrete tasks.
use garis.Base.{◌≡◌, refl, String, true, false, List, [], ◌∷◌, none, some}
use garis.Rows
use garis.Tasks.{
  TaskRecord, TaskStore, StepRecord, TaskState, pending, running, finished, terminal, new, key, get,
  completed_steps, recover_incomplete, first_row,
}
use garis.Tasks.Journal.{recover_keeps, in_flight}
use garis.Tasks.Supervisor.{Supervisor, stop, cancelled_queued, has_coroutine, is_cancelled}
use garis.Tasks.Supervisor.Rests.{
  Call, submits, resumes, stops, ends_run, is_cut, recovers, run, AtRest, run-AtRest,
}
use garis.Tasks.Supervisor.Queue.{stop_queued}

abbrev rows : List StepRecord
rows = first_row "t" "a" 0 "look" "{}" 1 ∷ first_row "t" "b" 1 "write" "{}" 2 ∷ []

abbrev same_text : String → String
same_text s = s

abbrev task : String → TaskState → TaskRecord
task id state = record (new same_text id "cel" [] "user" "local" none "{}" 1) { state = state }

abbrev store : TaskStore
store = record {
  tasks = task "t" running ∷ task "u" finished ∷ task "v" pending ∷ [];
  steps = rows;
}

is_found : Rows.find key (recover_incomplete store).0 "t" ≡ some (task "t" running)
unfolding recover_incomplete Rows.find
is_found = refl

recover_keeps_example :
    ((u : String)
      → completed_steps (recover_incomplete store).1.steps u ≡ completed_steps store.steps u)
    × ((recover_incomplete store).1.tasks ≡ store.tasks)
    × (in_flight "t" (recover_incomplete store).1.steps ≡ 0)
recover_keeps_example = recover_keeps store "t" (task "t" running) is_found

abbrev busy : Supervisor
busy = record { store = store; queued = "v" ∷ []; inside = "t" ∷ []; cancelling = []; slots = 1 }

at_rest : AtRest "u" (task "u" finished) busy
unfolding get terminal Rows.find
at_rest = record {
  stored = refl;
  final = refl;
  no_coroutine = refl;
  keyed = (refl, (refl, (refl, tt)));
}

abbrev calls : List Call
calls =
    resumes "u" 10
    ∷ submits (task "u" pending)
    ∷ stops "u" 12
    ∷ recovers
    ∷ stops "v" 13
    ∷ is_cut "v"
    ∷ ends_run "t" 14 is_cancelled
    ∷ []

run-AtRest_example : AtRest "u" (task "u" finished) (run busy calls)
run-AtRest_example = run-AtRest "u" (task "u" finished) busy calls at_rest

is_stored : get busy.store "v" ≡ some (task "v" pending)
unfolding get Rows.find
is_stored = refl

stop_queued_example :
    ((stop busy "v" 10).0 ≡ true)
    × (has_coroutine (cancelled_queued (stop busy "v" 10).1 "v") "v" ≡ false)
    × (get (cancelled_queued (stop busy "v" 10).1 "v").store "v" ≡ some (task "v" pending))
stop_queued_example = stop_queued busy "v" 10 (task "v" pending) refl refl is_stored refl
