-- ===== src/Leases/Keys.antt =====
-- The keys that a request settles on (core/src/garis/runtime/leases.py, `acquire`).
use garis.Base.{
  ◌≡◌, refl, ◌∙◌, String, not, ◌&&◌, List, [], ◌∷◌, arith, ◌==◌, eq_iff, if◌then◌else◌, contains,
  keep,
}
use garis.Leases.{insert_sorted, sorted, set_of, ordered}
use garis.Leases.Table.{occurrences}

occurrences-insert_sorted :
    (j k : String) (ks : List String) → occurrences j (insert_sorted k ks) ≡ occurrences j (k ∷ ks)
unfolding occurrences insert_sorted
occurrences-insert_sorted j k [] = refl
occurrences-insert_sorted j k (i ∷ ks) = ground (arith, occurrences-insert_sorted j k ks)

occurrences-sorted : (j : String) (ks : List String) → occurrences j (sorted ks) ≡ occurrences j ks
unfolding occurrences sorted
occurrences-sorted j [] = refl
occurrences-sorted j (k ∷ ks) =
    ground (arith, occurrences-insert_sorted j k (sorted ks), occurrences-sorted j ks)

occurrences-set_of :
    (j : String) (ks : List String) → occurrences j (set_of ks) ≡ (if contains j ks then 1 else 0)
unfolding occurrences set_of
occurrences-set_of j [] = refl
occurrences-set_of j (k ∷ ks) = ground (arith, occurrences-set_of j ks, eq_iff k j)

contains-keep :
    (j : String) (ks : List String)
    → contains j (keep (λ k. not (k == "")) ks) ≡ (contains j ks && not (j == ""))
contains-keep j [] = refl
contains-keep j (k ∷ ks) = ground (arith, contains-keep j ks, eq_iff k j)

-- A request names each nonempty key that it was given exactly once, and no other.
pub occurrences-ordered :
    (j : String) (keys : List String)
    → occurrences j (ordered keys) ≡ (if contains j keys && not (j == "") then 1 else 0)
unfolding ordered
occurrences-ordered j keys =
    occurrences-sorted j (set_of (keep (λ k. not (k == "")) keys))
    ∙ (occurrences-set_of j (keep (λ k. not (k == "")) keys) ∙ rw (contains-keep j keys))
