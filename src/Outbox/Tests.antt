-- ===== src/Outbox/Tests.antt =====
-- The outbox at concrete operations.
use garis.Base.{ℕ, ◌≡◌, refl, String, true, false, List, [], ◌∷◌}
use garis.Outbox.{
  RuntimeEvent, EventOutbox, drain, publish, mark, prune, commit, stage, pending, last_sequence,
  sort_by, insert_by,
}
use garis.Outbox.Order.{Op, commits, drains, stops_midway, prunes, run, step}
use garis.Outbox.Delivery.{is_safe, run_delivers}

abbrev empty : EventOutbox
empty = record { rows = []; has_bus = true; emitted = [] }

abbrev day : List Op
day =
    commits true "task.started" "t" "{}" "e1" 10
    ∷ commits false "task.failed" "t" "{}" "e2" 11
    ∷ commits true "task.finished" "t" "{}" "e3" 12
    ∷ stops_midway 200
    ∷ drains 1 20
    ∷ prunes 15
    ∷ []

run_delivers_example :
    is_safe "e9" (run empty (commits true "task.started" "u" "{}" "e9" 9 ∷ day)) ≡ true
run_delivers_example = run_delivers empty "task.started" "u" "{}" "e9" 9 day refl

-- without a bus an event is marked as published and pruned, though nobody was given it
unheard :
    is_safe "e9" (
      run
        (record { rows = []; has_bus = false; emitted = [] })
        (commits true "task.started" "u" "{}" "e9" 9 ∷ drains 200 20 ∷ prunes 15 ∷ []))
    ≡ false
unfolding run step drain publish mark prune commit stage pending last_sequence sort_by insert_by
unheard = refl

abbrev event : String → ℕ → RuntimeEvent
event id n = record {
  event_id = id;
  topic = "task.started";
  task_id = "t";
  sequence = n;
  occurred_at = 10;
  payload = "{}";
}
