-- ===== src/Approvals/Counts.antt =====
-- How the statements on the table change the number of rows of a kind
-- (core/src/garis/runtime/approvals.py).
use garis.Base.{
  ℕ, ◌+◌, ◌≤◌, ◌≡◌, refl, String, Bool, true, false, none, some, [], ◌∷◌, ◌++◌, arith, ◌==◌, eq_iff,
  map, count, Bool-cases, inl, inr, ap, sym, ◌∙◌,
}
use garis.Rows
use garis.Approvals.{ApprovalRequest, ApprovalRows, key, latest, spent, expire, usable_for}

pub latest-none :
    (p : ApprovalRequest → Bool) (t : ApprovalRequest → ℕ) (rows : ApprovalRows)
    → latest p t rows ≡ none
    → count p rows ≡ 0
unfolding latest
latest-none p t [] e = refl
latest-none p t (r ∷ rows) e = ground (arith, latest-none p t rows)

pub latest-insert :
    (p : ApprovalRequest → Bool) (t : ApprovalRequest → ℕ) (rows : ApprovalRows)
    (r : ApprovalRequest)
    → latest p t rows ≡ none
    → p r ≡ true
    → latest p t (rows ++ r ∷ []) ≡ some r
unfolding latest
latest-insert p t [] r e h = ground arith
latest-insert p t (x ∷ rows) r e h = ground (arith, latest-insert p t rows r)

-- Every row of the id changed, no other.
pub count-update-le :
    (p : ApprovalRequest → Bool) (rows : ApprovalRows) (k : String)
    (f : ApprovalRequest → ApprovalRequest)
    → ((r : ApprovalRequest) → p (f r) ≡ true → p r ≡ true)
    → count p (Rows.update key rows k f) ≤ count p rows
unfolding Rows.update
count-update-le p [] k f keeps = omega arith
count-update-le p (r ∷ rows) k f keeps = ground (arith, keeps r, count-update-le p rows k f keeps)

-- With unique ids one update adds at most one row of a kind.
pub count-update-le-add :
    (p : ApprovalRequest → Bool) (rows : ApprovalRows) (k : String)
    (f : ApprovalRequest → ApprovalRequest)
    → Rows.IsKeyed key rows
    → count p (Rows.update key rows k f) ≤ count p rows + 1
unfolding Rows.update
count-update-le-add p [] k f h = omega arith
count-update-le-add p (r ∷ rows) k f h =
    ground (
      arith,
      eq_iff r.id k,
      h.0,
      Rows.update_absent key rows k f,
      count-update-le-add p rows k f h.1,
    )

-- The row that a query found is of the kind, and to spend it takes it from the kind.
pub latest-spent :
    (fingerprint : String) (t : ApprovalRequest → ℕ) (rows : ApprovalRows) (r : ApprovalRequest)
    → latest (usable_for fingerprint) t rows ≡ some r
    → count (usable_for fingerprint) (Rows.update key rows r.id spent) + 1
      ≤ count (usable_for fingerprint) rows
unfolding latest Rows.update
latest-spent fingerprint t [] r e = absurd (cc)
latest-spent fingerprint t (x ∷ rows) r e = ground (
  arith,
  latest-spent fingerprint t rows r,
  eq_iff x.id x.id,
  count-update-le (usable_for fingerprint) rows x.id spent (λ y h. absurd (ground arith)),
)

pub count-expire-le :
    (p : ApprovalRequest → Bool) (rows : ApprovalRows) (cutoff : ℕ)
    → ((r : ApprovalRequest) → p (expire cutoff r) ≡ true → p r ≡ true)
    → count p (map (expire cutoff) rows) ≤ count p rows
count-expire-le p [] cutoff keeps = omega arith
count-expire-le p (r ∷ rows) cutoff keeps =
    ground (arith, keeps r, count-expire-le p rows cutoff keeps)

-- If the row that changes does not come to be of the kind, the kind does not grow.
pub count-update_away :
    (p : ApprovalRequest → Bool) (rows : ApprovalRows) (k : String)
    (f : ApprovalRequest → ApprovalRequest) (r : ApprovalRequest)
    → Rows.IsKeyed key rows
    → Rows.find key rows k ≡ some r
    → p (f r) ≡ false
    → count p (Rows.update key rows k f) ≤ count p rows
unfolding Rows.find Rows.update
count-update_away p [] k f r h e n = absurd (cc)
count-update_away p (x ∷ rows) k f r h e n = elim (Bool-cases (x.id == k)) [
  | inl s ↦
      let gone : Rows.find key rows k ≡ none =
        ap (Rows.find key rows) (sym ((eq_iff x.id k).0 s)) ∙ h.0 in
      ground (arith, s, Rows.update_absent key rows k f gone)
  | inr s ↦ ground (arith, s, count-update_away p rows k f r h.1)
]

find-expire :
    (rows : ApprovalRows) (cutoff : ℕ) (k : String)
    → Rows.find key rows k ≡ none
    → Rows.find key (map (expire cutoff) rows) k ≡ none
unfolding Rows.find
find-expire [] cutoff k e = refl
find-expire (r ∷ rows) cutoff k e = ground (arith, find-expire rows cutoff k)

pub expire-IsKeyed :
    (rows : ApprovalRows) (cutoff : ℕ)
    → Rows.IsKeyed key rows
    → Rows.IsKeyed key (map (expire cutoff) rows)
expire-IsKeyed [] cutoff h = tt
expire-IsKeyed (r ∷ rows) cutoff h =
    (rw (same_id r) (find-expire rows cutoff r.id h.0), expire-IsKeyed rows cutoff h.1)
  where
    same_id : (x : ApprovalRequest) → (expire cutoff x).id ≡ x.id
    same_id x = ground arith
