-- ===== src/Leases/Tests.antt =====
-- The lease table at concrete requests.
use garis.Base.{◌≡◌, refl, String, true, false, List, [], ◌∷◌, arith, some, none, eq_iff, contains}
use garis.Dict
use garis.Leases.{
  clear_all, Manager, Lease, shared, exclusive, Round, granted, attempt, acquire_loop, can_take,
  take, give_back, take_all, state,
}
use garis.Leases.Table.{writer}
use garis.Leases.Attempts.{is_waiting, acquire_loop_decided}
use garis.Leases.Mutex.{Op, acquires, nth, step, run, exclusives}
use garis.Leases.Mutex.Exclusion.{start, run-exclusive, NoReentry}
use garis.Leases.Reentry.{reentrant_release}

abbrev busy : Manager
busy = ("file:a", record { readers = 0; writer = some "t1"; changed = true }) ∷ []

abbrev lease_b : Lease
lease_b = record {
  keys = "file:b" ∷ [];
  mode = exclusive;
  holder = "t2";
  acquired_at = 5;
  released = false;
}

abbrev idle_round : Round
idle_round = record { now = 310; timed_out = false; others = λ m. m }

acquire_loop_decided_example :
    is_waiting (acquire_loop busy ("file:a" ∷ []) shared "t2" (some 300) 0 (idle_round ∷ []))
    ≡ false
acquire_loop_decided_example =
    acquire_loop_decided busy ("file:a" ∷ []) shared "t2" 300 0 (idle_round ∷ []) refl

granted_b :
    attempt busy ("file:b" ∷ []) exclusive "t2" 5
    ≡ granted lease_b (take_all busy ("file:b" ∷ []) exclusive "t2")
unfolding attempt can_take Dict.get
granted_b = refl

idle_b :
    (k : String) → contains k ("file:b" ∷ []) ≡ true → exclusive ≡ exclusive → writer busy k ≡ none
unfolding state Dict.get
idle_b k c e = rw (← (eq_iff "file:b" k).0 (ground arith))

-- Two tasks, one exclusive on a key and reading another.
abbrev two_tasks : List Op
two_tasks =
    acquires ("file:a" ∷ []) exclusive "t1" 1
    ∷ acquires ("file:a" ∷ []) shared "t2" 2
    ∷ acquires ("file:a" ∷ []) shared "t1" 3
    ∷ []

abbrev writing : Lease
writing = record {
  keys = "file:a" ∷ [];
  mode = exclusive;
  holder = "t1";
  acquired_at = 1;
  released = false;
}

abbrev reading : Lease
reading = record {
  keys = "file:a" ∷ [];
  mode = shared;
  holder = "t1";
  acquired_at = 3;
  released = false;
}

no_reentry : NoReentry start two_tasks
unfolding step attempt can_take take_all take clear_all Dict.get Dict.put exclusives
no_reentry = (refl, (refl, (refl, tt)))

both_held :
    (nth (run start two_tasks).held 1 ≡ some writing)
    × (nth (run start two_tasks).held 0 ≡ some reading)
unfolding run attempt can_take take_all take clear_all Dict.get Dict.put
both_held = (refl, refl)

run-exclusive_example : (reading.mode ≡ shared) × (reading.holder ≡ writing.holder)
run-exclusive_example =
    run-exclusive two_tasks "file:a" 1 0 writing reading no_reentry (omega arith) both_held.0
      both_held.1 refl refl refl

reentrant_release_example :
    (can_take busy "file:a" exclusive "t1" ≡ true)
    × (can_take
          (give_back (take busy "file:a" exclusive "t1") "file:a" exclusive "t1")
          "file:a"
          exclusive
          "t2"
        ≡ true)
    × (can_take
          (give_back (take busy "file:a" exclusive "t1") "file:a" exclusive "t1")
          "file:a"
          shared
          "t2"
        ≡ true)
unfolding state Dict.get
reentrant_release_example = reentrant_release busy "file:a" "t1" "t2" refl refl
