-- ===== src/Leases/Mutex/Exclusion.antt =====
-- Two leases that are out at once (core/src/garis/runtime/leases.py).
use garis.Base.{
  ℕ, zero, suc, ◌≤◌, ◌≡◌, refl, ap, sym, ◌∙◌, String, true, false, Option, none, some, List, [],
  ◌∷◌, arith, ◌==◌, eq_iff, contains, inl, inr, ◌⊎◌, ◌≢◌,
}
use garis.Dict
use garis.Leases.{LeaseMode, shared, exclusive, Lease, state}
use garis.Leases.Table.{writer, occurrences}
use garis.Leases.Mutex.{
  World, Op, nth, without, step, run, exclusives, other_sharers, sharers, writes, IsConsistent,
  asks_again, exclusives-without,
}
use garis.Leases.Mutex.Invariant.{step-IsConsistent}

abbrev pub start : World
start = record { table = []; held = [] }

pub start-IsConsistent : IsConsistent start
unfolding sharers exclusives other_sharers nth state Dict.get
start-IsConsistent = record {
  readers_counted = λ k. refl;
  writer_counted = λ k h. refl;
  no_conflict = λ k h e. refl;
  unreleased = λ i l e. absurd (cc);
}

-- No request of the run asks exclusively for a key that its holder has exclusively then.
abbrev pub NoReentry : World → List Op → Type 0
NoReentry w [] = Unit
NoReentry w (op ∷ ops) = (asks_again w op ≡ false) × NoReentry (step w op) ops

pub run-IsConsistent :
    (w : World) (ops : List Op) → IsConsistent w → NoReentry w ops → IsConsistent (run w ops)
unfolding run
run-IsConsistent w [] c n = c
run-IsConsistent w (op ∷ ops) c n =
    run-IsConsistent (step w op) ops (step-IsConsistent w op c n.0) n.1

occurs_of_contains : (k : String) (ks : List String) → contains k ks ≡ true → 1 ≤ occurrences k ks
unfolding occurrences
occurs_of_contains k [] c = absurd (cc)
occurs_of_contains k (j ∷ ks) c = ground (arith, occurs_of_contains k ks)

counted_exclusive :
    (k : String) (ls : List Lease) (i : ℕ) (l : Lease)
    → nth ls i ≡ some l
    → l.mode ≡ exclusive
    → contains k l.keys ≡ true
    → 1 ≤ exclusives k l.holder ls
unfolding exclusives nth
counted_exclusive k [] i l e x c = absurd (cc)
counted_exclusive k (y ∷ ls) zero l e x c = ground (arith, eq_iff l.holder l.holder)
counted_exclusive k (y ∷ ls) (suc i) l e x c = ground (arith, counted_exclusive k ls i l)

counted_sharer :
    (k h : String) (ls : List Lease) (i : ℕ) (l : Lease)
    → nth ls i ≡ some l
    → l.mode ≡ shared
    → contains k l.keys ≡ true
    → (l.holder == h) ≡ false
    → 1 ≤ other_sharers k h ls
unfolding other_sharers nth
counted_sharer k h [] i l e x c n = absurd (cc)
counted_sharer k h (y ∷ ls) zero l e x c n = ground (arith, occurs_of_contains k l.keys)
counted_sharer k h (y ∷ ls) (suc i) l e x c n = ground (arith, counted_sharer k h ls i l)

nth_survives :
    (ls : List Lease) (i j : ℕ) (l : Lease)
    → i ≢ j
    → nth ls j ≡ some l
    → (n : ℕ) × (nth (without ls i) n ≡ some l)
unfolding nth without
nth_survives [] i j l n e = absurd (cc)
nth_survives (x ∷ ls) zero zero l n e = absurd (n refl)
nth_survives (x ∷ ls) zero (suc j) l n e = (j, e)
nth_survives (x ∷ ls) (suc i) zero l n e = (zero, e)
nth_survives (x ∷ ls) (suc i) (suc j) l n e =
    let (m, p) = nth_survives ls i j l (λ q. n (omega arith)) e in (suc m, p)

writer_of_count : (o : Option String) (h : String) → 1 ≤ writes o h → o ≡ some h
writer_of_count none h p = absurd (omega arith)
writer_of_count (some w) h p = ground (arith, eq_iff w h)

module _ (w : World) (c : IsConsistent w) (k : String) (i j : ℕ) (l l' : Lease) (apart : i ≢ j)
    (at : nth w.held i ≡ some l) (at' : nth w.held j ≡ some l') (x : l.mode ≡ exclusive)
    (has : contains k l.keys ≡ true) (has' : contains k l'.keys ≡ true) where
  writer_is : writer w.table k ≡ some l.holder
  writer_is =
      writer_of_count (writer w.table k) l.holder
        (omega (arith, c.writer_counted k l.holder, counted_exclusive k w.held i l at x has))

  both_exclusive : l'.mode ≡ exclusive → ⊥
  both_exclusive x' =
      let (n, p) = nth_survives w.held i j l' apart at' in
      let same : some l.holder ≡ some l'.holder = cc (
        writer_is,
        writer_of_count (writer w.table k) l'.holder (
            omega
              (arith, c.writer_counted k l'.holder, counted_exclusive k w.held j l' at' x' has')),
      ) in
      let holders : l.holder ≡ l'.holder = cc in
      let one : writes (some l.holder) l.holder ≤ 1 = ground arith in
      let count : writes (some l.holder) l.holder ≡ exclusives k l.holder w.held =
        ap (λ o. writes o l.holder) (sym writer_is) ∙ c.writer_counted k l.holder in
      let rest : 1 ≤ exclusives k l.holder (without w.held i) =
        rw holders (counted_exclusive k (without w.held i) n l' p x' has') in
      omega (
        arith,
        exclusives-without k l.holder w.held i l at,
        counted_exclusive k (l ∷ []) 0 l (unfold nth in refl) x has,
      )

  same_holder : l'.mode ≡ shared → l'.holder ≡ l.holder
  same_holder s = ground (
    arith,
    eq_iff l'.holder l.holder,
    c.no_conflict k l.holder writer_is,
    counted_sharer k l.holder w.held j l' at' s has',
  )

  exclusion : (l'.mode ≡ shared) × (l'.holder ≡ l.holder)
  exclusion = elim (mode_cases' l'.mode) [
    | inl s ↦ (s, same_holder s)
    | inr e ↦ absurd (both_exclusive e)
  ]
    where
      mode_cases' : (mode : LeaseMode) → (mode ≡ shared) ⊎ (mode ≡ exclusive)
      mode_cases' shared = inl refl
      mode_cases' exclusive = inr refl

-- In every run from the empty table in which no holder asks exclusively for a key that it already
-- has exclusively, if an exclusive lease is out, any other lease out on one of its keys is a shared
-- one of the same holder: no two exclusive leases and no foreign reader meet on a key.
pub run-exclusive :
    (ops : List Op) (k : String) (i j : ℕ) (l l' : Lease)
    → NoReentry start ops
    → i ≢ j
    → nth (run start ops).held i ≡ some l
    → nth (run start ops).held j ≡ some l'
    → l.mode ≡ exclusive
    → contains k l.keys ≡ true
    → contains k l'.keys ≡ true
    → (l'.mode ≡ shared) × (l'.holder ≡ l.holder)
run-exclusive ops k i j l l' n apart at at' x has has' =
    exclusion (run start ops) (run-IsConsistent start ops start-IsConsistent n) k i j l l' apart at
      at' x has has'
