-- ===== src/Leases/Attempts.antt =====
-- Requests as a whole: nothing is taken unless everything is, a deadline ends the wait, and a release
-- gives back what was taken (core/src/garis/runtime/leases.py).
use garis.Base.{
  ℕ, ◌≡◌, refl, ◌∙◌, String, Bool, true, false, ◌&&◌, List, [], ◌∷◌, arith, eq_iff, contains, all,
  Bool-cases, inl, inr, Option, some, none, is_some, ◌||◌, All, leb,
}
use garis.Leases.{
  Manager, LeaseMode, shared, exclusive, Lease, Attempt, granted, blocked, Round, Acquired,
  acquired, lease_timeout, waiting, last_turn, turn, attempt, acquire_loop, past, can_take,
  take_all, release_keys, release,
}
use garis.Leases.Table.{
  readers, writer, readers-take_all, writer-take_all, readers-release_keys, writer-release_keys,
}
use garis.Leases.Mutex.Invariant.{readers-clear_all, writer-clear_all}

-- Two tables that no other task can tell apart by their readers and writers.
pub record SameHolds (m n : Manager) : Type 0 where
  pub same_readers : (k : String) → readers m k ≡ readers n k
  pub same_writer : (k : String) → writer m k ≡ writer n k

abbrev pub LeavesHolds : Attempt → Manager → Type 0
LeavesHolds (granted l m') m = Unit
LeavesHolds (blocked ks m') m = SameHolds m' m

-- A refused attempt has taken none of its keys.
pub attempt_all_or_nothing :
    (m : Manager) (keys : List String) (mode : LeaseMode) (h : String) (now : ℕ)
    → LeavesHolds (attempt m keys mode h now) m
unfolding attempt
attempt_all_or_nothing m keys mode h now = elim (Bool-cases (all (λ k. can_take m k mode h) keys)) [
  | inl a ↦ rw a tt
  | inr a ↦
      rw a (record { same_readers = readers-clear_all m _; same_writer = writer-clear_all m _ })
]

pub same_refl : (m : Manager) → SameHolds m m
same_refl m = record { same_readers = λ k. refl; same_writer = λ k. refl }

pub same_trans : {m n o : Manager} → SameHolds m n → SameHolds n o → SameHolds m o
same_trans p q = record {
  same_readers = λ k. p.same_readers k ∙ q.same_readers k;
  same_writer = λ k. p.same_writer k ∙ q.same_writer k;
}

abbrev pub TimedOutAs : Acquired → Manager → Type 0
TimedOutAs (acquired l m') m = Unit
TimedOutAs (lease_timeout m') m = SameHolds m' m
TimedOutAs (waiting m') m = SameHolds m' m

timed_out_trans : (a : Acquired) {m n : Manager} → TimedOutAs a m → SameHolds m n → TimedOutAs a n
timed_out_trans (acquired l m') p q = tt
timed_out_trans (lease_timeout m') p q = same_trans p q
timed_out_trans (waiting m') p q = same_trans p q

last_turn_unchanged : (a : Attempt) (m : Manager) → LeavesHolds a m → TimedOutAs (last_turn a) m
last_turn_unchanged (granted l n) m p = tt
last_turn_unchanged (blocked ks n) m p = p

turn_unchanged :
    (a : Attempt) (m : Manager) (deadline : Option ℕ) (r : Round) (again : Manager → Acquired)
    → LeavesHolds a m
    → ((n : Manager) → SameHolds (r.others n) n)
    → ((n : Manager) → TimedOutAs (again n) n)
    → TimedOutAs (turn a deadline r again) m
turn_unchanged (granted l n) m deadline r again p idle rest = tt
turn_unchanged (blocked ks n) m deadline r again p idle rest =
    elim (Bool-cases (past deadline r.now)) [
      | inl e ↦ rw e p
      | inr e ↦ rw e (elim (Bool-cases (is_some deadline && r.timed_out)) [
        | inl t ↦ rw t (same_trans (idle n) p)
        | inr t ↦
            rw t (timed_out_trans (again (r.others n)) (rest (r.others n)) (same_trans (idle n) p))
      ])
    ]

-- While no other task takes or releases anything, a request that times out or still waits has left
-- the readers and the writer of every key as they were: it never keeps a part of its keys.
pub acquire_loop_unchanged :
    (m : Manager) (keys : List String) (mode : LeaseMode) (h : String) (deadline : Option ℕ)
    (now : ℕ) (rounds : List Round)
    → All (λ r. (n : Manager) → SameHolds (r.others n) n) rounds
    → TimedOutAs (acquire_loop m keys mode h deadline now rounds) m
unfolding acquire_loop
acquire_loop_unchanged m keys mode h deadline now [] idle =
    last_turn_unchanged (attempt m keys mode h now) m (attempt_all_or_nothing m keys mode h now)
acquire_loop_unchanged m keys mode h deadline now (r ∷ rounds) idle =
    turn_unchanged (attempt m keys mode h now) m deadline r _
      (attempt_all_or_nothing m keys mode h now) idle.0
      (λ n. acquire_loop_unchanged n keys mode h deadline r.now rounds idle.1)

abbrev pub is_waiting : Acquired → Bool
is_waiting (waiting m) = true
is_waiting _ = false

abbrev pub reaches : ℕ → List Round → Bool
reaches d [] = false
reaches d (r ∷ rounds) = leb d r.now || reaches d rounds

turn_decided :
    (a : Attempt) (d : ℕ) (r : Round) (again : Manager → Acquired)
    → ((n : Manager) → leb d r.now ≡ false → is_waiting (again n) ≡ false)
    → is_waiting (turn a (some d) r again) ≡ false
turn_decided (granted l n) d r again f = refl
turn_decided (blocked ks n) d r again f = elim (Bool-cases (leb d r.now)) [
  | inl e ↦ rw e
  | inr e ↦ rw e (elim (Bool-cases r.timed_out) [ inl t ↦ rw t | inr t ↦ rw t (f (r.others n) e) ])
]

-- With a deadline, a request whose clock reaches it in some round does not wait beyond: it was
-- granted or it timed out, whatever the other tasks did.
pub acquire_loop_decided :
    (m : Manager) (keys : List String) (mode : LeaseMode) (h : String) (d now : ℕ)
    (rounds : List Round)
    → reaches d rounds ≡ true
    → is_waiting (acquire_loop m keys mode h (some d) now rounds) ≡ false
unfolding acquire_loop
acquire_loop_decided m keys mode h d now [] past_deadline = absurd (cc)
acquire_loop_decided m keys mode h d now (r ∷ rounds) past_deadline =
    turn_decided (attempt m keys mode h now) d r _
      (λ n e. acquire_loop_decided n keys mode h d r.now rounds (ground arith))

pub mode_released :
    (mode : LeaseMode) (m : Manager) (keys : List String) (h : String)
    → ((k : String) → contains k keys ≡ true → mode ≡ exclusive → writer m k ≡ none)
    → SameHolds (release_keys (take_all m keys mode h) keys mode h) m
mode_released shared m keys h idle = record {
  same_readers = λ k. ground (
    arith,
    readers-release_keys (take_all m keys shared h) keys k h shared,
    readers-take_all m keys k h shared,
  );
  same_writer = λ k.
      writer-release_keys (take_all m keys shared h) keys k h shared
      ∙ writer-take_all m keys k h shared;
}
mode_released exclusive m keys h idle = record {
  same_readers = λ k.
      readers-release_keys (take_all m keys exclusive h) keys k h exclusive
      ∙ readers-take_all m keys k h exclusive;
  same_writer = λ k. ground (
    arith,
    writer-release_keys (take_all m keys exclusive h) keys k h exclusive,
    writer-take_all m keys k h exclusive,
    idle k,
    eq_iff h h,
  );
}

unfoldable pub lease_of : List String → LeaseMode → String → ℕ → Lease
lease_of keys mode h now = record {
  keys = keys;
  mode = mode;
  holder = h;
  acquired_at = now;
  released = false;
}

pub granted_is :
    (m m' : Manager) (keys : List String) (mode : LeaseMode) (h : String) (now : ℕ) (l : Lease)
    → attempt m keys mode h now ≡ granted l m'
    → (l ≡ lease_of keys mode h now) × (m' ≡ take_all m keys mode h)
unfolding attempt lease_of
granted_is m m' keys mode h now l e = ground arith

-- Releasing a granted lease gives every key back the readers and the writer that it had, where an
-- exclusive lease was granted on keys with no writer; releasing it again changes nothing.
pub release-attempt :
    (m m' : Manager) (keys : List String) (mode : LeaseMode) (h : String) (now : ℕ) (l : Lease)
    → attempt m keys mode h now ≡ granted l m'
    → ((k : String) → contains k keys ≡ true → mode ≡ exclusive → writer m k ≡ none)
    → SameHolds (release m' l).0 m × (release (release m' l).0 (release m' l).1 ≡ release m' l)
unfolding release lease_of
release-attempt m m' keys mode h now l e idle =
    let (lease, table) = granted_is m m' keys mode h now l e in
    rw (lease, table) (mode_released mode m keys h idle, refl)
