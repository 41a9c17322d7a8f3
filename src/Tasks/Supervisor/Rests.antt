-- ===== src/Tasks/Supervisor/Rests.antt =====
-- A task that came to its end (core/src/garis/tasks/supervisor.py).
use garis.Base.{
  ℕ, ltb, String, Bool, true, false, Option, none, some, List, [], ◌∷◌, ◌++◌, ◌≡◌, ◌⊎◌, refl, ◌∙◌,
  arith, ◌==◌, eq_iff, contains, keep, length, not, ◌||◌, ◌&&◌, Bool-cases, Option-cases, inl, inr,
}
use garis.Rows
use garis.Tasks.{
  TaskState, TaskRecord, TaskStore, key, get, create, set_state, finish, terminal, active, moved,
  Extra, is_running, recover_incomplete, running, stopped, pending, blocked, finished, failed,
  with_error, no_extra,
}
use garis.Tasks.Supervisor.{
  Supervisor, LoopEnd, asks_user, is_done, has_failed, is_cancelled, is_aborted, has_crashed,
  without, has_coroutine, launch, submit, resume, resumed, stop, stopped_at_rest, begins, entered,
  apply_end, ends, cancelled_queued, launch_all, recover, may_resume,
}

-- One event in the life of the supervisor; a call that raises changes nothing.
pub data Call : Type 0 where
  submits : TaskRecord → Call
  resumes stops begins_run : String → ℕ → Call
  ends_run : String → ℕ → LoopEnd → Call
  is_cut : String → Call
  recovers : Call

abbrev or_same : Supervisor → Option Supervisor → Supervisor
or_same s none = s
or_same s (some s') = s'

unfoldable pub call : Supervisor → Call → Supervisor
call s (submits t) = or_same s (submit s t)
call s (resumes id now) = or_same s (resume s id now)
call s (stops id now) = (stop s id now).1
call s (begins_run id now) = begins s id now
call s (ends_run id now e) = ends s id now e
call s (is_cut id) = cancelled_queued s id
call s recovers = recover s

unfoldable pub run : Supervisor → List Call → Supervisor
unfolding call
run s [] = s
run s (c ∷ calls) = run (call s c) calls

contains-append :
    (k : String) (xs ys : List String) → contains k (xs ++ ys) ≡ (contains k xs || contains k ys)
contains-append k [] ys = refl
contains-append k (x ∷ xs) ys = ground (arith, contains-append k xs ys)

pub contains-without :
    (k x : String) (xs : List String) → contains k (without x xs) ≡ (not (k == x) && contains k xs)
contains-without k x [] = ground arith
contains-without k x (y ∷ ys) =
    ground (arith, contains-without k x ys, eq_iff y x, eq_iff y k, eq_iff k x)

resumable_live : (v : TaskState) → may_resume v ≡ true → terminal v ≡ false
unfolding terminal
resumable_live blocked h = refl
resumable_live pending h = refl
resumable_live _ h = absurd (cc)

active_live : (v : TaskState) → active v ≡ true → terminal v ≡ false
unfolding terminal active
active_live blocked h = refl
active_live pending h = refl
active_live running h = refl
active_live _ h = absurd (cc)

find-set_state :
    (s : TaskStore) (x id : String) (state : TaskState) (extra : Extra) (now : ℕ)
    → (x == id) ≡ false
    → get (set_state s x state extra now) id ≡ get s id
unfolding get set_state moved
find-set_state s x id state extra now n =
    ground (arith, Rows.find-update key s.tasks x id (moved state extra now) (λ t. refl))

ended_rests : (v : TaskState) → terminal v ≡ true → is_running v ≡ false
unfolding terminal
ended_rests finished h = refl
ended_rests failed h = refl
ended_rests stopped h = refl
ended_rests _ h = absurd (cc)

set_state-IsKeyed :
    (s : TaskStore) (x : String) (state : TaskState) (extra : Extra) (now : ℕ)
    → Rows.IsKeyed key s.tasks
    → Rows.IsKeyed key (set_state s x state extra now).tasks
unfolding set_state moved
set_state-IsKeyed s x state extra now h =
    Rows.update-IsKeyed key s.tasks x (moved state extra now) (λ t. refl) h

apply_end-IsKeyed :
    (s : TaskStore) (x : String) (now : ℕ) (e : LoopEnd)
    → Rows.IsKeyed key s.tasks
    → Rows.IsKeyed key (apply_end s x now e).tasks
unfolding apply_end finish
apply_end-IsKeyed s x now (asks_user report question) h = set_state-IsKeyed s x _ _ now h
apply_end-IsKeyed s x now (is_done report out) h = set_state-IsKeyed s x _ _ now h
apply_end-IsKeyed s x now (has_failed report out short) h = set_state-IsKeyed s x _ _ now h
apply_end-IsKeyed s x now is_cancelled h = set_state-IsKeyed s x _ _ now h
apply_end-IsKeyed s x now (is_aborted text) h = set_state-IsKeyed s x _ _ now h
apply_end-IsKeyed s x now has_crashed h = h

kept_none :
    (p : TaskRecord → Bool) (rows : List TaskRecord) (id : String)
    → Rows.find key rows id ≡ none
    → Rows.find key (keep p rows) id ≡ none
unfolding Rows.find
kept_none p [] id e = refl
kept_none p (r ∷ rows) id e = ground (arith, kept_none p rows id)

dropped_none :
    (p : TaskRecord → Bool) (rows : List TaskRecord) (id : String) (t : TaskRecord)
    → Rows.IsKeyed key rows
    → Rows.find key rows id ≡ some t
    → p t ≡ false
    → Rows.find key (keep p rows) id ≡ none
unfolding Rows.find
dropped_none p [] id t k e n = refl
dropped_none p (r ∷ rows) id t k e n = elim (Bool-cases (r.id == id)) [
  | inl q ↦ let same = (eq_iff r.id id).0 q in ground (arith, kept_none p rows id (rw same at k.0))
  | inr q ↦ ground (arith, dropped_none p rows id t k.1)
]

-- The task is in a final state and has no coroutine; ids of tasks are unique, as the primary key has it.
pub record AtRest (id : String) (t : TaskRecord) (s : Supervisor) : Type 0 where
  pub stored : get s.store id ≡ some t
  pub final : terminal t.state ≡ true
  pub no_coroutine : has_coroutine s id ≡ false
  pub keyed : Rows.IsKeyed key s.store.tasks

module _ (id : String) (t : TaskRecord) where
  launch-AtRest :
      (s : Supervisor) (x : String) → (x == id) ≡ false → AtRest id t s → AtRest id t (launch s x)
  unfolding launch
  launch-AtRest s x n r = elim (Bool-cases (has_coroutine s x)) [
    | inl e ↦ rw e r
    | inr e ↦ rw e (record {
      stored = r.stored;
      final = r.final;
      no_coroutine = ground (arith, r.no_coroutine, contains-append id s.queued (x ∷ []));
      keyed = r.keyed;
    })
  ]

  store-AtRest :
      (s : Supervisor) (x : String) (state : TaskState) (extra : Extra) (now : ℕ)
      → (x == id) ≡ false
      → AtRest id t s
      → AtRest id t (record s { store = set_state s.store x state extra now })
  store-AtRest s x state extra now n r = record {
    stored = find-set_state s.store x id state extra now n ∙ r.stored;
    final = r.final;
    no_coroutine = r.no_coroutine;
    keyed = set_state-IsKeyed s.store x state extra now r.keyed;
  }

  other_coroutine :
      (s : Supervisor) (x : String)
      → has_coroutine s id ≡ false
      → (contains x s.queued ≡ true) ⊎ (contains x s.inside ≡ true)
      → (x == id) ≡ false
  other_coroutine s x h c = elim (Bool-cases (x == id)) [
    | inr n ↦ n
    | inl e ↦ absurd (
        let same = (eq_iff x id).0 e in
        elim c [ inl q ↦ ground (arith, rw same at q) | inr q ↦ ground (arith, rw same at q) ])
  ]

  live_other :
      (s : Supervisor) (x : String) (y : TaskRecord)
      → get s.store x ≡ some y
      → terminal y.state ≡ false
      → AtRest id t s
      → (x == id) ≡ false
  live_other s x y e m r = elim (Bool-cases (x == id)) [
    | inr n ↦ n
    | inl q ↦
        absurd (let same = (eq_iff x id).0 q in ground (arith, rw same at e, r.stored, r.final))
  ]

  resumed-AtRest :
      (s : Supervisor) (x : String) (now : ℕ) (o : Option TaskRecord)
      → get s.store x ≡ o
      → AtRest id t s
      → AtRest id t (or_same s (resumed s x now o))
  resumed-AtRest s x now none e r = r
  resumed-AtRest s x now (some y) e r = elim (Bool-cases (may_resume y.state)) [
    | inr m ↦ rw m r
    | inl m ↦
        let n = live_other s x y e (resumable_live y.state m) r in
        rw m (launch-AtRest _ x n (store-AtRest s x pending (with_error "") now n r))
  ]

  stopped-AtRest :
      (s : Supervisor) (x : String) (now : ℕ) (o : Option TaskRecord)
      → get s.store x ≡ o
      → AtRest id t s
      → AtRest id t (stopped_at_rest s x now o).1
  stopped-AtRest s x now none e r = r
  stopped-AtRest s x now (some y) e r = elim (Bool-cases (active y.state)) [
    | inr m ↦ rw m r
    | inl m ↦ rw m (
        store-AtRest s x stopped (with_error "zatrzymane przez użytkownika") now
          (live_other s x y e (active_live y.state m) r) r)
  ]

  stop-AtRest :
      (s : Supervisor) (x : String) (now : ℕ) → AtRest id t s → AtRest id t (stop s x now).1
  unfolding stop
  stop-AtRest s x now r = elim (Bool-cases (has_coroutine s x)) [
    | inl h ↦ rw h (record {
      stored = r.stored;
      final = r.final;
      no_coroutine = r.no_coroutine;
      keyed = r.keyed;
    })
    | inr h ↦ rw h (stopped-AtRest s x now (get s.store x) refl r)
  ]

  submit-AtRest :
      (s : Supervisor) (y : TaskRecord) → AtRest id t s → AtRest id t (or_same s (submit s y))
  unfolding submit create get
  submit-AtRest s y r = elim (Option-cases (Rows.find key s.store.tasks y.id)) [
    | inr (z, e) ↦ rw e r
    | inl e ↦
        let n = fresh_other s y e r in
        rw e (
          launch-AtRest _ y.id n (record {
            stored = kept s y n r;
            final = r.final;
            no_coroutine = r.no_coroutine;
            keyed = Rows.insert-IsKeyed key s.store.tasks y r.keyed e;
          }))
  ]
    where
      fresh_other :
          (s : Supervisor) (y : TaskRecord)
          → Rows.find key s.store.tasks y.id ≡ none
          → AtRest id t s
          → (y.id == id) ≡ false
      fresh_other s y e r = elim (Bool-cases (y.id == id)) [
        | inr n ↦ n
        | inl q ↦ absurd (let same = (eq_iff y.id id).0 q in ground (arith, rw same at e, r.stored))
      ]

      kept :
          (s : Supervisor) (y : TaskRecord)
          → (y.id == id) ≡ false
          → AtRest id t s
          → Rows.find key (Rows.insert key s.store.tasks y) id ≡ some t
      kept s y n r = ground (arith, Rows.find-insert key s.store.tasks y id, r.stored)

  entered-AtRest :
      (s : Supervisor) (x : String) (now : ℕ) (o : Option TaskRecord)
      → (x == id) ≡ false
      → AtRest id t s
      → AtRest id t (entered s x now o)
  entered-AtRest s x now none n r = record {
    stored = r.stored;
    final = r.final;
    no_coroutine = ground (arith, r.no_coroutine, contains-without id x s.queued);
    keyed = r.keyed;
  }
  entered-AtRest s x now (some y) n r = record {
    stored = (store-AtRest s x running no_extra now n r).stored;
    final = r.final;
    no_coroutine = ground (arith, r.no_coroutine, contains-without id x s.queued);
    keyed = (store-AtRest s x running no_extra now n r).keyed;
  }

  begins-AtRest :
      (s : Supervisor) (x : String) (now : ℕ) → AtRest id t s → AtRest id t (begins s x now)
  unfolding begins
  begins-AtRest s x now r =
      elim (Bool-cases
        (contains x s.queued && (not (contains x s.cancelling) && ltb (length s.inside) s.slots))) [
          | inr e ↦ rw e r
          | inl e ↦ rw e (
              entered-AtRest s x now (get s.store x)
                (other_coroutine s x r.no_coroutine (inl (ground arith))) r)
        ]

  apply_end-stored :
      (store : TaskStore) (x : String) (now : ℕ) (e : LoopEnd)
      → (x == id) ≡ false
      → get (apply_end store x now e) id ≡ get store id
  unfolding apply_end finish
  apply_end-stored store x now (asks_user report question) n = find-set_state store x id _ _ now n
  apply_end-stored store x now (is_done report out) n = find-set_state store x id _ _ now n
  apply_end-stored store x now (has_failed report out short) n = find-set_state store x id _ _ now n
  apply_end-stored store x now is_cancelled n = find-set_state store x id _ _ now n
  apply_end-stored store x now (is_aborted text) n = find-set_state store x id _ _ now n
  apply_end-stored store x now has_crashed n = refl

  ends-AtRest :
      (s : Supervisor) (x : String) (now : ℕ) (e : LoopEnd)
      → AtRest id t s
      → AtRest id t (ends s x now e)
  unfolding ends
  ends-AtRest s x now e r = elim (Bool-cases (contains x s.inside)) [
    | inr c ↦ rw c r
    | inl c ↦
        let n = other_coroutine s x r.no_coroutine (inr c) in
        rw c (record {
          stored = apply_end-stored s.store x now e n ∙ r.stored;
          final = r.final;
          no_coroutine = ground (arith, r.no_coroutine, contains-without id x s.inside);
          keyed = apply_end-IsKeyed s.store x now e r.keyed;
        })
  ]

  cut-AtRest : (s : Supervisor) (x : String) → AtRest id t s → AtRest id t (cancelled_queued s x)
  unfolding cancelled_queued
  cut-AtRest s x r = elim (Bool-cases (contains x s.queued && contains x s.cancelling)) [
    | inr c ↦ rw c r
    | inl c ↦ rw c (record {
      stored = r.stored;
      final = r.final;
      no_coroutine = ground (arith, r.no_coroutine, contains-without id x s.queued);
      keyed = r.keyed;
    })
  ]

  launch_all-AtRest :
      (s : Supervisor) (found : List TaskRecord)
      → (Rows.find key found id ≡ none)
      → AtRest id t s
      → AtRest id t (launch_all s found)
  unfolding Rows.find
  launch_all-AtRest s [] n r = r
  launch_all-AtRest s (y ∷ found) n r =
      launch_all-AtRest (launch s y.id) found (ground arith) (launch-AtRest s y.id (ground arith) r)

  recover-AtRest : (s : Supervisor) → AtRest id t s → AtRest id t (recover s)
  unfolding recover recover_incomplete get
  recover-AtRest s r =
      launch_all-AtRest _ (keep (λ x. is_running x.state) s.store.tasks)
        (dropped_none (λ x. is_running x.state) s.store.tasks id t r.keyed r.stored
          (ended_rests t.state r.final))
        (record {
          stored = r.stored;
          final = r.final;
          no_coroutine = r.no_coroutine;
          keyed = r.keyed;
        })

  call-AtRest : (s : Supervisor) (c : Call) → AtRest id t s → AtRest id t (call s c)
  unfolding call resume
  call-AtRest s (submits y) r = submit-AtRest s y r
  call-AtRest s (resumes x now) r = resumed-AtRest s x now (get s.store x) refl r
  call-AtRest s (stops x now) r = stop-AtRest s x now r
  call-AtRest s (begins_run x now) r = begins-AtRest s x now r
  call-AtRest s (ends_run x now e) r = ends-AtRest s x now e r
  call-AtRest s (is_cut x) r = cut-AtRest s x r
  call-AtRest s recovers r = recover-AtRest s r

  -- A task that is finished, failed or stopped and has no coroutine stays as it is, every column of
  -- its row included, and never gets a coroutine again, whatever tasks are submitted, resumed, stopped,
  -- run, cancelled or recovered afterwards.
  pub run-AtRest : (s : Supervisor) (calls : List Call) → AtRest id t s → AtRest id t (run s calls)
  unfolding run
  run-AtRest s [] r = r
  run-AtRest s (c ∷ calls) r = run-AtRest (call s c) calls (call-AtRest s c r)
