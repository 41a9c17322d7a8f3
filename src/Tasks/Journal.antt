-- ===== src/Tasks/Journal.antt =====
-- The step journal (core/src/garis/tasks/store.py): what survives a restart.
use garis.Base.{
  ℕ, String, Bool, true, false, Option, none, some, List, [], ◌∷◌, ◌≡◌, refl, sym, ◌∙◌, arith, ◌==◌,
  ◌&&◌, if◌then◌else◌, eq_iff, count, keep, inl, inr, Bool-cases,
}
use garis.Dict
use garis.Rows
use garis.Tasks.{
  StepRecord, TaskRecord, TaskStore, upsert, step_started, step_finished, completed_steps, is_step,
  is_step_running, ended, first_row, restarted, reset_running_steps, reset_all, recover_incomplete,
  key, is_running,
}

-- a row of another step
skip_row :
    (row : StepRecord) (rest : List StepRecord) (u j : String)
    → (row.task_id == u && row.step_key == j) ≡ false
    → Dict.get (completed_steps (row ∷ rest) u) j ≡ Dict.get (completed_steps rest u) j
unfolding completed_steps Dict.get
skip_row row rest u j n = ground arith

same_row :
    (row : StepRecord) (xs ys : List StepRecord) (u j : String)
    → Dict.get (completed_steps xs u) j ≡ Dict.get (completed_steps ys u) j
    → Dict.get (completed_steps (row ∷ xs) u) j ≡ Dict.get (completed_steps (row ∷ ys) u) j
unfolding completed_steps Dict.get
same_row row xs ys u j e = ground arith

other_row :
    (r : StepRecord) (t k u j : String)
    → is_step t k r ≡ true
    → (t == u && k == j) ≡ false
    → (r.task_id == u && r.step_key == j) ≡ false
other_row r t k u j s n = ground (arith, eq_iff r.task_id t, eq_iff r.step_key k)

module _ (t k : String) (fresh : StepRecord) (f : StepRecord → StepRecord) (ok : Bool)
    (value : Option String) (error : String) (now : ℕ) where
  -- the rows after the start and the end of one step
  abbrev written : List StepRecord → List StepRecord
  written rows = step_finished (upsert t k fresh f rows) t k ok value error now

  finished_own :
      (rows : List StepRecord)
      → ok ≡ false
      → Dict.get (completed_steps (step_finished rows t k ok value error now) t) k ≡ none
  unfolding step_finished completed_steps Dict.get
  finished_own [] e = refl
  finished_own (r ∷ rows) e = ground (arith, finished_own rows e)

  finished_other :
      (rows : List StepRecord) (u j : String)
      → (t == u && k == j) ≡ false
      → Dict.get (completed_steps (step_finished rows t k ok value error now) u) j
        ≡ Dict.get (completed_steps rows u) j
  unfolding step_finished
  finished_other [] u j n = refl
  finished_other (r ∷ rows) u j n = elim (Bool-cases (is_step t k r)) [
    | inl s ↦
        let away = other_row r t k u j s n in
        rw s (
          skip_row (ended ok value error now r) (step_finished rows t k ok value error now) u j away
          ∙ (finished_other rows u j n ∙ sym (skip_row r rows u j away)))
    | inr s ↦ rw s (same_row r _ rows u j (finished_other rows u j n))
  ]

  written_own :
      (rows : List StepRecord)
      → fresh.task_id ≡ t
      → fresh.step_key ≡ k
      → ((r : StepRecord) → ((f r).task_id ≡ r.task_id) × ((f r).step_key ≡ r.step_key))
      → Dict.get (completed_steps (written rows) t) k ≡ (if ok then some value else none)
  unfolding step_finished completed_steps upsert Dict.get
  written_own [] a b same = ground (arith, eq_iff t t, eq_iff k k)
  written_own (r ∷ rows) a b same = ground (
    arith,
    same r,
    written_own rows a b same,
    finished_own rows,
    eq_iff r.task_id t,
    eq_iff r.step_key k,
  )

  written_other :
      (rows : List StepRecord) (u j : String)
      → fresh.task_id ≡ t
      → fresh.step_key ≡ k
      → ((r : StepRecord) → ((f r).task_id ≡ r.task_id) × ((f r).step_key ≡ r.step_key))
      → (t == u && k == j) ≡ false
      → Dict.get (completed_steps (upsert t k fresh f rows) u) j
        ≡ Dict.get (completed_steps rows u) j
  unfolding upsert
  written_other [] u j a b same n = skip_row fresh [] u j (rw (a, b) n)
  written_other (r ∷ rows) u j a b same n = elim (Bool-cases (is_step t k r)) [
    | inl s ↦
        let away = other_row r t k u j s n in
        rw s (
          skip_row (f r) rows u j (rw ((same r).0, (same r).1) away)
          ∙ sym (skip_row r rows u j away))
    | inr s ↦ rw s (same_row r _ rows u j (written_other rows u j a b same n))
  ]

-- A step that was started and then ended is on record with its result exactly when it succeeded, and
-- what is on record of every other step of every task is as before.
pub completed-step_finished :
    (rows : List StepRecord) (t k tool params error : String) (ordinal began now : ℕ) (ok : Bool)
    (value : Option String)
    → (Dict.get
          (completed_steps
            (step_finished (step_started rows t k ordinal tool params began) t k ok value error now)
            t)
          k
        ≡ (if ok then some value else none))
      × ((u j : String)
          → (t == u && k == j) ≡ false
          → Dict.get
              (completed_steps
                (step_finished
                  (step_started rows t k ordinal tool params began)
                  t
                  k
                  ok
                  value
                  error
                  now)
                u)
              j
            ≡ Dict.get (completed_steps rows u) j)
unfolding step_started
completed-step_finished rows t k tool params error ordinal began now ok value =
    let fresh = first_row t k ordinal tool params began in
    let f = restarted began in
    (
      written_own t k fresh f ok value error now rows refl refl (λ r. (refl, refl)),
      λ u j n.
          finished_other t k fresh f ok value error now (upsert t k fresh f rows) u j n
          ∙ written_other t k fresh f ok value error now rows u j refl refl (λ r. (refl, refl)) n,
    )

completed-reset :
    (rows : List StepRecord) (t u : String)
    → completed_steps (reset_running_steps rows t) u ≡ completed_steps rows u
unfolding reset_running_steps completed_steps
completed-reset [] t u = refl
completed-reset (r ∷ rows) t u = ground (arith, completed-reset rows t u)

completed-reset_all :
    (rows : List StepRecord) (tasks : List TaskRecord) (u : String)
    → completed_steps (reset_all rows tasks) u ≡ completed_steps rows u
completed-reset_all rows [] u = refl
completed-reset_all rows (t ∷ tasks) u =
    completed-reset_all (reset_running_steps rows t.id) tasks u ∙ completed-reset rows t.id u

-- how many steps of a task are caught in flight
abbrev pub in_flight : String → List StepRecord → ℕ
in_flight t rows = count (λ r. r.task_id == t && is_step_running r.state) rows

in_flight-reset :
    (rows : List StepRecord) (t : String) → in_flight t (reset_running_steps rows t) ≡ 0
unfolding reset_running_steps
in_flight-reset [] t = refl
in_flight-reset (r ∷ rows) t = ground (arith, in_flight-reset rows t)

in_flight_stays :
    (rows : List StepRecord) (u t : String)
    → in_flight t rows ≡ 0
    → in_flight t (reset_running_steps rows u) ≡ 0
unfolding reset_running_steps
in_flight_stays [] u t h = refl
in_flight_stays (r ∷ rows) u t h = ground (arith, in_flight_stays rows u t)

in_flight-reset_all :
    (rows : List StepRecord) (tasks : List TaskRecord) (t : String)
    → in_flight t rows ≡ 0
    → in_flight t (reset_all rows tasks) ≡ 0
in_flight-reset_all rows [] t h = h
in_flight-reset_all rows (x ∷ tasks) t h =
    in_flight-reset_all (reset_running_steps rows x.id) tasks t (in_flight_stays rows x.id t h)

in_flight_found :
    (rows : List StepRecord) (found : List TaskRecord) (t : String) (r : TaskRecord)
    → Rows.find key found t ≡ some r
    → in_flight t (reset_all rows found) ≡ 0
unfolding Rows.find
in_flight_found rows [] t r e = absurd (cc)
in_flight_found rows (x ∷ found) t r e = elim (Bool-cases (x.id == t)) [
  | inl s ↦
      in_flight-reset_all (reset_running_steps rows x.id) found t
        (rw ((eq_iff x.id t).0 s) (in_flight-reset rows t))
  | inr s ↦ in_flight_found (reset_running_steps rows x.id) found t r (ground arith)
]

-- After a restart no result on record is lost, no task has changed, and no task that is taken up again
-- has a step in flight.
pub recover_keeps :
    (s : TaskStore) (t : String) (r : TaskRecord)
    → Rows.find key (recover_incomplete s).0 t ≡ some r
    → ((u : String) → completed_steps (recover_incomplete s).1.steps u ≡ completed_steps s.steps u)
      × ((recover_incomplete s).1.tasks ≡ s.tasks)
      × (in_flight t (recover_incomplete s).1.steps ≡ 0)
unfolding recover_incomplete
recover_keeps s t r e = (
  λ u. completed-reset_all s.steps (keep (λ x. is_running x.state) s.tasks) u,
  refl,
  in_flight_found s.steps (keep (λ x. is_running x.state) s.tasks) t r e,
)
