-- ===== src/Verifier/Measured.antt =====
-- What a usable reading of a disk says (core/src/garis/agent/reflex.py, `_validate_disk`).
use garis.Base.{
  ℕ, ◌+◌, ◌*◌, ◌≤◌, String, Bool, true, false, Option, none, some, ◌≡◌, refl, arith, ltb,
  if◌then◌else◌, nat_eq,
}
use garis.Dict.{Dict}
use garis.Verifier.Reflexes.{
  Field, is_dict, Flaw, abs_diff, slack, percent_off, used_off, share_off, sizes, measured, or_flaw,
  files, field_of, zero_size, too_much_free, parts_differ, percent_differs, validate_disk,
}

near :
    (x t f u s : ℕ)
    → s ≤ t
    → 1000 * abs_diff t (f + u) ≤ s
    → abs_diff (x + 10000 * f) (10000 * t) ≤ 15 * t
    → abs_diff x (10000 * u) ≤ 25 * t
near x t f u s a b c = omega (arith, a, b, c)

slack_le : (t : ℕ) → 100000 ≤ t → slack t ≤ t
unfolding slack
slack_le t h = ground (arith, h)

if_none :
    (b : Bool) (x : Flaw) (o : Option Flaw)
    → (if b then some x else o) ≡ none
    → (b ≡ false) × (o ≡ none)
if_none true x o h = absurd (cc)
if_none false x o h = (refl, h)

sizes_near :
    (t f u p : ℕ)
    → 100000 ≤ t
    → sizes t f (some u) (some p) ≡ none
    → abs_diff (p * t) (10000 * u) ≤ 25 * t
unfolding percent_off
sizes_near t f u p big h =
    let share_flaw = if share_off t f (some p) then some percent_differs else none in
    let used_flaw = if used_off t f (some u) then some parts_differ else share_flaw in
    let free_flaw = if ltb (1000 * t + slack t) (1000 * f) then some too_much_free else used_flaw in
    let (a, g) = if_none (nat_eq t 0) zero_size free_flaw h in
    let (b, i) = if_none (ltb (1000 * t + slack t) (1000 * f)) too_much_free used_flaw g in
    let (c, j) = if_none (used_off t f (some u)) parts_differ share_flaw i in
    let (d, k) = if_none (share_off t f (some p)) percent_differs none j in
    let parts : 1000 * abs_diff t (f + u) ≤ slack t = ground (arith, c) in
    let share : abs_diff (p * t + 10000 * f) (10000 * t) ≤ 15 * t = ground (arith, d) in
    near (p * t) t f u (slack t) (slack_le t big) parts share

or_flaw-none : (a b : Option Flaw) → or_flaw a b ≡ none → a ≡ none
or_flaw-none none b h = refl
or_flaw-none (some x) b h = absurd (cc)

-- Where a disk of at least a thousand bytes is found to be measured soundly, with its used bytes and
-- their percentage, the percentage is that of the used bytes to a quarter of a point.
pub validate_disk_near :
    (read_float : String → Option ℕ) (strip : String → String) (d : Dict Field)
    (total free used percent : ℕ)
    → field_of read_float strip d "total" ≡ some total
    → field_of read_float strip d "free" ≡ some free
    → field_of read_float strip d "used" ≡ some used
    → field_of read_float strip d "percent_used" ≡ some percent
    → 100000 ≤ total
    → validate_disk read_float strip (is_dict d) ≡ none
    → abs_diff (percent * total) (10000 * used) ≤ 25 * total
unfolding validate_disk
validate_disk_near read_float strip d total free used percent a b c e big h =
    let sound : measured (field_of read_float strip d "total") (field_of read_float strip d "free")
          (field_of read_float strip d "used") (field_of read_float strip d "percent_used")
        ≡ none =
      or_flaw-none
        (measured (field_of read_float strip d "total") (field_of read_float strip d "free")
          (field_of read_float strip d "used") (field_of read_float strip d "percent_used"))
        (files (field_of read_float strip d "total") (field_of read_float strip d "reserved")
          (field_of read_float strip d "filesystem_used") (field_of read_float strip d "used"))
        h in
    sizes_near total free used percent big (rw (a, b, c, e) at sound)
