-- ===== src/Leases/Mutex.antt =====
-- Leases that are out at the same time never conflict (core/src/garis/runtime/leases.py).
-- A `World` is the table with the leases that were granted and not yet released, newest first.
pub mod Invariant
pub mod Exclusion
use garis.Base.{
  ℕ, zero, suc, ◌+◌, ◌-◌, ◌≤◌, ◌<◌, ◌≡◌, refl, String, Bool, true, false, ◌&&◌, not, Option, none,
  some, List, [], ◌∷◌, arith, ◌==◌, eq_iff, if◌then◌else◌, contains, Option-cases, inl, inr, any,
  all, ltb, length, Bool-cases, ◌⊎◌, ◌≢◌,
}
use garis.Dict
use garis.Dict.{get-put, get-pop}
use garis.Leases.{
  LeaseMode, shared, exclusive, KeyState, Manager, Lease, Attempt, granted, blocked, ordered,
  attempt, release, state, can_take, take_all, release_keys, clear_all, other_writer,
}
use garis.Leases.Table.{
  readers, writer, occurrences, is_shared, readers-take_all, writer-take_all, readers-release_keys,
  writer-release_keys,
}

pub record World : Type 0 where
  pub table : Manager
  pub held : List Lease

-- A task asks for some keys, or the lease at a position is released.
pub data Op : Type 0 where
  acquires : List String → LeaseMode → String → ℕ → Op
  releases : ℕ → Op

unfoldable pub nth : List Lease → ℕ → Option Lease
nth [] i = none
nth (l ∷ ls) zero = some l
nth (l ∷ ls) (suc i) = nth ls i

unfoldable pub without : List Lease → ℕ → List Lease
without [] i = []
without (l ∷ ls) zero = ls
without (l ∷ ls) (suc i) = l ∷ without ls i

abbrev settled : World → Attempt → World
settled w (granted l m) = record { table = m; held = l ∷ w.held }
settled w (blocked ks m) = record w { table = m }

abbrev dropped : World → ℕ → Option Lease → World
dropped w i none = w
dropped w i (some l) = record { table = (release w.table l).0; held = without w.held i }

unfoldable pub step : World → Op → World
unfolding nth without ordered
step w (acquires keys mode holder now) = settled w (attempt w.table (ordered keys) mode holder now)
step w (releases i) = dropped w i (nth w.held i)

unfoldable pub run : World → List Op → World
unfolding step
run w [] = w
run w (op ∷ ops) = run (step w op) ops

abbrev pub is_exclusive : LeaseMode → Bool
is_exclusive exclusive = true
is_exclusive shared = false

-- how many of the leases are exclusive ones of this holder on this key
unfoldable pub exclusives : String → String → List Lease → ℕ
exclusives k h [] = 0
exclusives k h (l ∷ ls) =
    let rest = exclusives k h ls in
    if is_exclusive l.mode && (l.holder == h && contains k l.keys) then rest + 1 else rest

-- how many shared leases name the key, counted with repetition
unfoldable pub sharers : String → List Lease → ℕ
sharers k [] = 0
sharers k (l ∷ ls) =
    let rest = sharers k ls in if is_shared l.mode then rest + occurrences k l.keys else rest

-- the same, of the holders other than this one
unfoldable pub other_sharers : String → String → List Lease → ℕ
other_sharers k h [] = 0
other_sharers k h (l ∷ ls) =
    let rest = other_sharers k h ls in
    if is_shared l.mode && not (l.holder == h) then rest + occurrences k l.keys else rest

abbrev pub writes : Option String → String → ℕ
writes none h = 0
writes (some w) h = if w == h then 1 else 0

-- The table agrees with the leases that are out.
pub record IsConsistent (w : World) : Type 0 where
  pub readers_counted : (k : String) → readers w.table k ≡ sharers k w.held
  pub writer_counted : (k h : String) → writes (writer w.table k) h ≡ exclusives k h w.held
  pub no_conflict : (k h : String) → writer w.table k ≡ some h → other_sharers k h w.held ≡ 0
  pub unreleased : (i : ℕ) (l : Lease) → nth w.held i ≡ some l → l.released ≡ false

-- The request does not ask exclusively for a key that its holder has exclusively.
abbrev pub asks_again : World → Op → Bool
asks_again w (acquires keys exclusive holder now) =
    any (λ k. ltb 0 (exclusives k holder w.held)) (ordered keys)
asks_again w (acquires keys shared holder now) = false
asks_again w (releases i) = false

pub exclusives-without :
    (k h : String) (ls : List Lease) (i : ℕ) (l : Lease)
    → nth ls i ≡ some l
    → exclusives k h ls ≡ exclusives k h (without ls i) + exclusives k h (l ∷ [])
unfolding exclusives nth without
exclusives-without k h [] i l e = absurd (cc)
exclusives-without k h (x ∷ ls) zero l e = ground arith
exclusives-without k h (x ∷ ls) (suc i) l e = ground (arith, exclusives-without k h ls i l e)

pub sharers-without :
    (k : String) (ls : List Lease) (i : ℕ) (l : Lease)
    → nth ls i ≡ some l
    → sharers k ls ≡ sharers k (without ls i) + sharers k (l ∷ [])
unfolding sharers nth without
sharers-without k [] i l e = absurd (cc)
sharers-without k (x ∷ ls) zero l e = ground arith
sharers-without k (x ∷ ls) (suc i) l e = ground (arith, sharers-without k ls i l e)

pub other_sharers-without :
    (k h : String) (ls : List Lease) (i : ℕ) (l : Lease)
    → nth ls i ≡ some l
    → other_sharers k h ls ≡ other_sharers k h (without ls i) + other_sharers k h (l ∷ [])
unfolding other_sharers nth without
other_sharers-without k h [] i l e = absurd (cc)
other_sharers-without k h (x ∷ ls) zero l e = ground arith
other_sharers-without k h (x ∷ ls) (suc i) l e = ground (arith, other_sharers-without k h ls i l e)

pub other_sharers-le : (k h : String) (ls : List Lease) → other_sharers k h ls ≤ sharers k ls
unfolding other_sharers sharers
other_sharers-le k h [] = omega arith
other_sharers-le k h (l ∷ ls) = ground (arith, other_sharers-le k h ls)

pub nth-without :
    (ls : List Lease) (i j : ℕ) (l : Lease)
    → nth (without ls i) j ≡ some l
    → (n : ℕ) × (nth ls n ≡ some l)
unfolding nth without
nth-without [] i j l e = absurd (cc)
nth-without (x ∷ ls) zero j l e = (suc j, e)
nth-without (x ∷ ls) (suc i) zero l e = (zero, e)
nth-without (x ∷ ls) (suc i) (suc j) l e = let (n, p) = nth-without ls i j l e in (suc n, p)
