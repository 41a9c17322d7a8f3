-- ===== src/Rows.antt =====
-- A database table with a text primary key, as the list of its rows in the order of insertion:
-- what the statements of core/src/garis/kernel/effects.py, runtime/approvals.py and tasks/store.py do.
-- SQLite itself is not part of the repository; the statements are read by their documented meaning.
use garis.Base.{
  String, ◌≡◌, refl, false, Option, none, some, List, [], ◌∷◌, ◌++◌, arith, ◌==◌, eq_iff,
  if◌then◌else◌,
}
use mathlib.Core.Option

module _ {ℓ} {A : Type ℓ} (id : A → String) where
  -- SELECT * FROM t WHERE id = ?
  unfoldable pub find : List A → String → Option A
  find [] k = none
  find (r ∷ rows) k = if id r == k then some r else find rows k

  -- UPDATE t SET … WHERE id = ?
  unfoldable pub update : List A → String → (A → A) → List A
  update [] k f = []
  update (r ∷ rows) k f = (if id r == k then f r else r) ∷ update rows k f

  -- INSERT INTO t; the primary key is free where the callers insert
  abbrev pub insert : List A → A → List A
  insert rows r = rows ++ r ∷ []

  -- The primary key: no two rows have one id.
  abbrev pub IsKeyed : List A → Type ℓ
  IsKeyed [] = Unit
  IsKeyed (r ∷ rows) = (find rows (id r) ≡ none) × IsKeyed rows

  pub find-update :
      (rows : List A) (k j : String) (f : A → A)
      → ((r : A) → id (f r) ≡ id r)
      → find (update rows k f) j ≡ (if k == j then Option.map f (find rows j) else find rows j)
  unfolding find update
  find-update [] k j f same = ground arith
  find-update (r ∷ rows) k j f same =
      ground
        (arith, same r, find-update rows k j f same, eq_iff (id r) k, eq_iff (id r) j, eq_iff k j)

  pub find-insert :
      (rows : List A) (r : A) (j : String)
      → find (insert rows r) j
        ≡ elim (find rows j) [ none ↦ if id r == j then some r else none | some x ↦ some x ]
  unfolding find
  find-insert [] r j = ground arith
  find-insert (x ∷ rows) r j = ground (arith, find-insert rows r j)

  pub id-find : (rows : List A) (k : String) (r : A) → find rows k ≡ some r → id r ≡ k
  unfolding find
  id-find [] k r e = absurd (cc)
  id-find (x ∷ rows) k r e = ground (arith, eq_iff (id x) k, id-find rows k r)

  find-insert-none :
      (rows : List A) (r : A) (j : String)
      → find rows j ≡ none
      → (id r == j) ≡ false
      → find (insert rows r) j ≡ none
  find-insert-none rows r j e n = rw (find-insert rows r j, e, n)

  -- The statements keep the primary key.
  pub insert-IsKeyed :
      (rows : List A) (r : A) → IsKeyed rows → find rows (id r) ≡ none → IsKeyed (insert rows r)
  unfolding find
  insert-IsKeyed [] r k e = (refl, tt)
  insert-IsKeyed (x ∷ rows) r k e = (
    find-insert-none rows r (id x) k.0 (ground (arith, eq_iff (id x) (id r), eq_iff (id r) (id x))),
    insert-IsKeyed rows r k.1 (ground arith),
  )

  pub update-IsKeyed :
      (rows : List A) (k : String) (f : A → A)
      → ((r : A) → id (f r) ≡ id r)
      → IsKeyed rows
      → IsKeyed (update rows k f)
  unfolding find update
  update-IsKeyed [] k f same h = tt
  update-IsKeyed (r ∷ rows) k f same h = (
    ground (arith, same r, find-update rows k (id r) f same, h.0),
    update-IsKeyed rows k f same h.1,
  )

  pub update_absent :
      (rows : List A) (k : String) (f : A → A) → find rows k ≡ none → update rows k f ≡ rows
  unfolding find update
  update_absent [] k f e = refl
  update_absent (r ∷ rows) k f e = ground (arith, update_absent rows k f)
