-- ===== src/Leases/Mutex/Invariant.antt =====
-- The table agrees with the leases that are out, whatever the tasks ask and release
-- (core/src/garis/runtime/leases.py).
use garis.Base.{
  ℕ, zero, suc, ◌≡◌, refl, ◌∙◌, String, true, false, some, List, [], ◌∷◌, arith, eq_iff, contains,
  Option-cases, inl, inr, any, all, ltb, Bool-cases, ◌⊎◌,
}
use garis.Dict
use garis.Dict.{get-put, get-pop}
use garis.Leases.{
  LeaseMode, shared, exclusive, Manager, Lease, ordered, attempt, release, state, can_take,
  take_all, release_keys, clear_all, admits,
}
use garis.Leases.Table.{
  readers, writer, occurrences, readers-take_all, writer-take_all, readers-release_keys,
  writer-release_keys,
}
use garis.Leases.Mutex.{
  World, Op, acquires, releases, nth, without, step, exclusives, sharers, other_sharers, writes,
  IsConsistent, asks_again, exclusives-without, sharers-without, other_sharers-without,
  other_sharers-le, nth-without,
}

pub can_take-eq-admits :
    (m : Manager) (k h : String) (mode : LeaseMode)
    → can_take m k mode h ≡ admits (state m k) mode h
unfolding can_take state
can_take-eq-admits m k h shared = ground arith
can_take-eq-admits m k h exclusive = ground arith

pub can_take_of_all :
    (m : Manager) (ks : List String) (mode : LeaseMode) (h k : String)
    → all (λ j. can_take m j mode h) ks ≡ true
    → contains k ks ≡ true
    → can_take m k mode h ≡ true
can_take_of_all m [] mode h k a c = absurd (cc)
can_take_of_all m (j ∷ ks) mode h k a c = ground (arith, eq_iff j k, can_take_of_all m ks mode h k)

occurrences_absent : (k : String) (ks : List String) → contains k ks ≡ false → occurrences k ks ≡ 0
unfolding occurrences
occurrences_absent k [] c = refl
occurrences_absent k (j ∷ ks) c = ground (arith, occurrences_absent k ks)

-- Clearing the signals changes no reader and no writer.
pub readers-clear_all :
    (m : Manager) (ks : List String) (j : String) → readers (clear_all m ks) j ≡ readers m j
unfolding clear_all state
readers-clear_all m [] j = refl
readers-clear_all m (k ∷ ks) j =
    let s = record (state m k) { changed = false } in
    ground (arith, readers-clear_all (Dict.put m k s) ks j, get-put m k j s, eq_iff k j)

pub writer-clear_all :
    (m : Manager) (ks : List String) (j : String) → writer (clear_all m ks) j ≡ writer m j
unfolding clear_all state
writer-clear_all m [] j = refl
writer-clear_all m (k ∷ ks) j =
    let s = record (state m k) { changed = false } in
    ground (arith, writer-clear_all (Dict.put m k s) ks j, get-put m k j s, eq_iff k j)

module _ (w : World) (ks : List String) (h : String) (now : ℕ) (c : IsConsistent w) where
  abbrev lease_of : LeaseMode → Lease
  lease_of mode = record { keys = ks; mode = mode; holder = h; acquired_at = now; released = false }

  abbrev after_take : LeaseMode → World
  after_take mode = record { table = take_all w.table ks mode h; held = lease_of mode ∷ w.held }

  take_shared-IsConsistent :
      all (λ k. can_take w.table k shared h) ks ≡ true → IsConsistent (after_take shared)
  unfolding sharers exclusives other_sharers nth
  take_shared-IsConsistent a = record {
    readers_counted =
        λ k. ground (arith, readers-take_all w.table ks k h shared, c.readers_counted k);
    writer_counted =
        λ k h'. ground (arith, writer-take_all w.table ks k h shared, c.writer_counted k h');
    no_conflict = λ k h' e. ground (
      arith,
      writer-take_all w.table ks k h shared,
      c.no_conflict k h',
      can_take_of_all w.table ks shared h k a,
      can_take-eq-admits w.table k h shared,
      occurrences_absent k ks,
      eq_iff h' h,
      eq_iff h h',
    );
    unreleased = elim [ zero ↦ λ l e. ground arith | suc i ↦ λ l e. c.unreleased i l e ];
  }

  take_exclusive_counted :
      all (λ k. can_take w.table k exclusive h) ks ≡ true
      → ((k : String) → contains k ks ≡ true → exclusives k h w.held ≡ 0)
      → (k h' : String)
      → writes (writer (after_take exclusive).table k) h'
        ≡ exclusives k h' (after_take exclusive).held
  unfolding exclusives
  take_exclusive_counted a once k h' = elim (Option-cases (writer w.table k)) [
    | inl e ↦
        ground (arith, writer-take_all w.table ks k h exclusive, c.writer_counted k h', eq_iff h h')
    | inr (x, e) ↦ ground (
      arith,
      writer-take_all w.table ks k h exclusive,
      c.writer_counted k h',
      once k,
      can_take_of_all w.table ks exclusive h k a,
      can_take-eq-admits w.table k h exclusive,
      eq_iff h h',
      eq_iff x h,
      eq_iff x h',
    )
  ]

  take_exclusive-IsConsistent :
      all (λ k. can_take w.table k exclusive h) ks ≡ true
      → ((k : String) → contains k ks ≡ true → exclusives k h w.held ≡ 0)
      → IsConsistent (after_take exclusive)
  unfolding sharers exclusives other_sharers nth
  take_exclusive-IsConsistent a once = record {
    readers_counted =
        λ k. ground (arith, readers-take_all w.table ks k h exclusive, c.readers_counted k);
    writer_counted = λ k h'. take_exclusive_counted a once k h';
    no_conflict = λ k h' e. ground (
      arith,
      writer-take_all w.table ks k h exclusive,
      c.no_conflict k h',
      c.readers_counted k,
      other_sharers-le k h' w.held,
      can_take_of_all w.table ks exclusive h k a,
      can_take-eq-admits w.table k h exclusive,
    );
    unreleased = elim [ zero ↦ λ l e. ground arith | suc i ↦ λ l e. c.unreleased i l e ];
  }

  clear-IsConsistent : (js : List String) → IsConsistent (record w { table = clear_all w.table js })
  clear-IsConsistent js = record {
    readers_counted = λ k. readers-clear_all w.table js k ∙ c.readers_counted k;
    writer_counted = λ k h'. rw (writer-clear_all w.table js k) (c.writer_counted k h');
    no_conflict = λ k h' e. c.no_conflict k h' (rw (writer-clear_all w.table js k) at e);
    unreleased = c.unreleased;
  }

mode_cases : (mode : LeaseMode) → (mode ≡ shared) ⊎ (mode ≡ exclusive)
mode_cases shared = inl refl
mode_cases exclusive = inr refl

module _ (w : World) (i : ℕ) (l : Lease) (at : nth w.held i ≡ some l) (c : IsConsistent w) where
  abbrev after_release : World
  after_release = record {
    table = release_keys w.table l.keys l.mode l.holder;
    held = without w.held i;
  }

  release-readers : (k : String) → readers after_release.table k ≡ sharers k after_release.held
  unfolding sharers
  release-readers k = elim (mode_cases l.mode) [
    | inl e ↦ ground (
      arith,
      e,
      readers-release_keys w.table l.keys k l.holder l.mode,
      c.readers_counted k,
      sharers-without k w.held i l at,
    )
    | inr e ↦ ground (
      arith,
      e,
      readers-release_keys w.table l.keys k l.holder l.mode,
      c.readers_counted k,
      sharers-without k w.held i l at,
    )
  ]

  release-writer :
      (k h : String) → writes (writer after_release.table k) h ≡ exclusives k h after_release.held
  unfolding exclusives
  release-writer k h = elim (mode_cases l.mode) [
    | inl e ↦ ground (
      arith,
      e,
      writer-release_keys w.table l.keys k l.holder l.mode,
      c.writer_counted k h,
      exclusives-without k h w.held i l at,
    )
    | inr e ↦ elim (Option-cases (writer w.table k)) [
      | inl n ↦ ground (
        arith,
        e,
        writer-release_keys w.table l.keys k l.holder l.mode,
        c.writer_counted k h,
        exclusives-without k h w.held i l at,
      )
      | inr (x, s) ↦ ground (
        arith,
        e,
        writer-release_keys w.table l.keys k l.holder l.mode,
        c.writer_counted k h,
        c.writer_counted k l.holder,
        exclusives-without k h w.held i l at,
        exclusives-without k l.holder w.held i l at,
        eq_iff x h,
        eq_iff x l.holder,
        eq_iff l.holder h,
        eq_iff l.holder l.holder,
      )
    ]
  ]

  release-no_conflict :
      (k h : String)
      → writer after_release.table k ≡ some h
      → other_sharers k h after_release.held ≡ 0
  release-no_conflict k h e = elim (mode_cases l.mode) [
    | inl s ↦ ground (
      arith,
      s,
      writer-release_keys w.table l.keys k l.holder l.mode,
      c.no_conflict k h,
      other_sharers-without k h w.held i l at,
    )
    | inr s ↦ elim (Option-cases (writer w.table k)) [
      | inl n ↦ ground (arith, s, writer-release_keys w.table l.keys k l.holder l.mode)
      | inr (x, n) ↦ ground (
        arith,
        s,
        writer-release_keys w.table l.keys k l.holder l.mode,
        c.no_conflict k h,
        other_sharers-without k h w.held i l at,
      )
    ]
  ]

  release-IsConsistent : IsConsistent after_release
  release-IsConsistent = record {
    readers_counted = release-readers;
    writer_counted = release-writer;
    no_conflict = release-no_conflict;
    unreleased = λ j l' e. let (n, p) = nth-without w.held i j l' e in c.unreleased n l' p;
  }

once_of_any :
    (ks : List String) (h k : String) (ls : List Lease)
    → any (λ j. ltb 0 (exclusives j h ls)) ks ≡ false
    → contains k ks ≡ true
    → exclusives k h ls ≡ 0
once_of_any [] h k ls n c = absurd (cc)
once_of_any (j ∷ ks) h k ls n c = ground (arith, eq_iff j k, once_of_any ks h k ls)

settle_shared :
    (w : World) (keys : List String) (h : String) (now : ℕ)
    → IsConsistent w
    → IsConsistent (step w (acquires keys shared h now))
unfolding step attempt
settle_shared w keys h now c =
    elim (Bool-cases (all (λ k. can_take w.table k shared h) (ordered keys))) [
      | inl a ↦ rw a (take_shared-IsConsistent w (ordered keys) h now c a)
      | inr a ↦ rw a (clear-IsConsistent w (ordered keys) h now c _)
    ]

settle_exclusive :
    (w : World) (keys : List String) (h : String) (now : ℕ)
    → IsConsistent w
    → asks_again w (acquires keys exclusive h now) ≡ false
    → IsConsistent (step w (acquires keys exclusive h now))
unfolding step attempt
settle_exclusive w keys h now c n =
    elim (Bool-cases (all (λ k. can_take w.table k exclusive h) (ordered keys))) [
      | inl a ↦ rw a (
          take_exclusive-IsConsistent w (ordered keys) h now c a
            (λ k. once_of_any (ordered keys) h k w.held n))
      | inr a ↦ rw a (clear-IsConsistent w (ordered keys) h now c _)
    ]

settle_release : (w : World) (i : ℕ) → IsConsistent w → IsConsistent (step w (releases i))
unfolding step release
settle_release w i c = elim (Option-cases (nth w.held i)) [
  | inl e ↦ rw e c
  | inr (l, e) ↦ rw (e, c.unreleased i l e) (release-IsConsistent w i l e c)
]

-- Every request, granted or not, and every release keeps the table consistent with the leases that
-- are out, unless a holder asks exclusively for a key that it already has exclusively.
pub step-IsConsistent :
    (w : World) (op : Op) → IsConsistent w → asks_again w op ≡ false → IsConsistent (step w op)
step-IsConsistent w (acquires keys shared h now) c n = settle_shared w keys h now c
step-IsConsistent w (acquires keys exclusive h now) c n = settle_exclusive w keys h now c n
step-IsConsistent w (releases i) c n = settle_release w i c
