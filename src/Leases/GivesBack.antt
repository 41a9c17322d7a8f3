-- ===== src/Leases/GivesBack.antt =====
-- A request followed by the release of what it was granted (core/src/garis/runtime/leases.py).
use garis.Base.{
  ℕ, ◌-◌, ◌≡◌, refl, sym, ◌∙◌, String, true, ◌&&◌, List, [], ◌∷◌, if◌then◌else◌, contains,
  Bool-cases, inl, inr, Option, none, All, is_some, ap,
}
use garis.Leases.{
  Manager, LeaseMode, exclusive, Lease, Attempt, granted, blocked, Round, Acquired, acquired,
  lease_timeout, waiting, last_turn, turn, attempt, acquire_loop, acquire_ordered, acquire, ordered,
  past, release_keys, release, take_all, deadline_of,
}
use garis.Leases.Table.{
  writer, readers-release_keys, writer-release_keys, unwritten, is_shared, occurrences,
}
use garis.Leases.Attempts.{
  SameHolds, LeavesHolds, attempt_all_or_nothing, same_trans, granted_is, lease_of, mode_released,
}

release_keys_same :
    (n m : Manager) (ks : List String) (mode : LeaseMode) (h : String)
    → SameHolds n m
    → SameHolds (release_keys n ks mode h) (release_keys m ks mode h)
release_keys_same n m ks mode h p = record {
  same_readers = λ k.
      readers-release_keys n ks k h mode
      ∙ (ap (λ x. if is_shared mode then x - occurrences k ks else x) (p.same_readers k)
          ∙ sym (readers-release_keys m ks k h mode));
  same_writer = λ k.
      writer-release_keys n ks k h mode
      ∙ (ap (λ w. unwritten mode (contains k ks) w h) (p.same_writer k)
          ∙ sym (writer-release_keys m ks k h mode));
}

-- Nobody, the holder included, writes on the keys of an exclusive request.
abbrev pub Unwritten : Manager → List String → LeaseMode → Type 0
Unwritten m keys mode = (k : String) → contains k keys ≡ true → mode ≡ exclusive → writer m k ≡ none

-- To release the lease in any table that holds what the grant left brings back what `m` holds.
abbrev pub GivesBack : Acquired → Manager → Type 0
GivesBack (acquired l n) m = (n' : Manager) → SameHolds n' n → SameHolds (release n' l).0 m
GivesBack (lease_timeout n) m = SameHolds n m
GivesBack (waiting n) m = SameHolds n m

GivesBack-trans : (a : Acquired) {n m : Manager} → GivesBack a n → SameHolds n m → GivesBack a m
GivesBack-trans (acquired l x) g p = λ n' q. same_trans (g n' q) p
GivesBack-trans (lease_timeout x) g p = same_trans g p
GivesBack-trans (waiting x) g p = same_trans g p

Unwritten-same :
    {n m : Manager} (keys : List String) (mode : LeaseMode)
    → SameHolds n m
    → Unwritten m keys mode
    → Unwritten n keys mode
Unwritten-same keys mode p u = λ k c e. p.same_writer k ∙ u k c e

grant-GivesBack :
    (m n : Manager) (keys : List String) (mode : LeaseMode) (h : String) (now : ℕ) (l : Lease)
    → attempt m keys mode h now ≡ granted l n
    → Unwritten m keys mode
    → GivesBack (acquired l n) m
unfolding release lease_of
grant-GivesBack m n keys mode h now l e u = λ n' q.
    let (lease, table) = granted_is m n keys mode h now l e in
    rw lease (
      same_trans (release_keys_same n' (take_all m keys mode h) keys mode h (rw table at q))
        (mode_released mode m keys h u))

module _ (keys : List String) (mode : LeaseMode) (h : String) (deadline : Option ℕ) where
  turn-GivesBack :
      (a : Attempt) (m : Manager) (r : Round) (again : Manager → Acquired)
      → GivesBack (last_turn a) m
      → ((n : Manager) → SameHolds (r.others n) n)
      → ((n : Manager) → SameHolds n m → GivesBack (again n) n)
      → GivesBack (turn a deadline r again) m
  turn-GivesBack (granted l n) m r again g idle rest = g
  turn-GivesBack (blocked ks n) m r again g idle rest = elim (Bool-cases (past deadline r.now)) [
    | inl e ↦ rw e g
    | inr e ↦ rw e (elim (Bool-cases (is_some deadline && r.timed_out)) [
      | inl t ↦ rw t (same_trans (idle n) g)
      | inr t ↦
          let p = same_trans (idle n) g in
          rw t (GivesBack-trans (again (r.others n)) (rest (r.others n) p) p)
    ])
  ]

  attempt-GivesBack :
      (a : Attempt) (m : Manager) (now : ℕ)
      → attempt m keys mode h now ≡ a
      → LeavesHolds a m
      → Unwritten m keys mode
      → GivesBack (last_turn a) m
  attempt-GivesBack (granted l n) m now e p u = grant-GivesBack m n keys mode h now l e u
  attempt-GivesBack (blocked ks n) m now e p u = p

  loop-GivesBack :
      (m : Manager) (now : ℕ) (rounds : List Round)
      → All (λ r. (n : Manager) → SameHolds (r.others n) n) rounds
      → Unwritten m keys mode
      → GivesBack (acquire_loop m keys mode h deadline now rounds) m
  unfolding acquire_loop
  loop-GivesBack m now [] idle u =
      attempt-GivesBack (attempt m keys mode h now) m now refl
        (attempt_all_or_nothing m keys mode h now) u
  loop-GivesBack m now (r ∷ rounds) idle u =
      turn-GivesBack (attempt m keys mode h now) m r _
        (attempt-GivesBack (attempt m keys mode h now) m now refl
          (attempt_all_or_nothing m keys mode h now) u)
        idle.0 (λ n p. loop-GivesBack n r.now rounds idle.1 (Unwritten-same keys mode p u))

ordered-GivesBack :
    (ks : List String) (m : Manager) (mode : LeaseMode) (h : String) (timeout : Option ℕ) (now : ℕ)
    (rounds : List Round)
    → All (λ r. (n : Manager) → SameHolds (r.others n) n) rounds
    → Unwritten m ks mode
    → GivesBack (acquire_ordered m ks mode h timeout now rounds) m
unfolding release release_keys
ordered-GivesBack [] m mode h timeout now rounds idle u = λ n' q. q
ordered-GivesBack (k ∷ ks) m mode h timeout now rounds idle u =
    loop-GivesBack (k ∷ ks) mode h (deadline_of timeout now) m now rounds idle u

-- While the other tasks leave the table alone, a request for keys on which nobody writes, followed by
-- the release of what it was granted, leaves the readers and the writer of every key as they were.
pub acquire-GivesBack :
    (m : Manager) (keys : List String) (mode : LeaseMode) (h : String) (timeout : Option ℕ)
    (now : ℕ) (rounds : List Round)
    → All (λ r. (n : Manager) → SameHolds (r.others n) n) rounds
    → Unwritten m (ordered keys) mode
    → GivesBack (acquire m keys mode h timeout now rounds) m
unfolding acquire
acquire-GivesBack m keys mode h timeout now rounds idle u =
    ordered-GivesBack (ordered keys) m mode h timeout now rounds idle u
