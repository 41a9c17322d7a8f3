-- ===== src/Effects/Sweep.antt =====
-- What the sweep of a restart does to every effect (core/src/garis/kernel/effects.py).
use garis.Base.{
  ℕ, ◌≡◌, refl, ◌∙◌, String, Bool, false, [], ◌∷◌, arith, ◌==◌, eq_iff, if◌then◌else◌, leb, keep,
  any, Option, some, none,
}
use mathlib.Core.Option
use garis.Rows
use garis.Rows.{find-update}
use garis.Effects.{
  EffectState, reserved, uncertain, EffectRecord, EffectRows, key, settled_row, settle,
  mark_uncertain, mark_all, sweep_unsettled, is_stranded, lost,
}

abbrev lose : ℕ → EffectRecord → EffectRecord
lose = settled_row uncertain none "[]" lost

find-mark_all :
    (rows stranded : EffectRows) (now : ℕ) (j : String)
    → Rows.find key (mark_all rows stranded now) j ≡ (
        if any (λ r. r.effect_id == j) stranded
        then Option.map (lose now) (Rows.find key rows j)
        else Rows.find key rows j)
unfolding mark_all settle
find-mark_all rows [] now j = refl
find-mark_all rows (r ∷ stranded) now j = ground (
  arith,
  find-mark_all (mark_uncertain rows r.effect_id lost now) stranded now j,
  find-update key rows r.effect_id j (lose now) (λ x. refl),
)

any-keep :
    (p : EffectRecord → Bool) (rows : EffectRows) (j : String)
    → Rows.IsKeyed key rows
    → any (λ r. r.effect_id == j) (keep p rows)
      ≡ elim (Rows.find key rows j) [ none ↦ false | some r ↦ p r ]
unfolding Rows.find
any-keep p [] j k = refl
any-keep p (r ∷ rows) j k = ground (arith, eq_iff r.effect_id j, any-keep p rows j k.1)

-- what a restart makes of one row
abbrev pub after_restart : ℕ → ℕ → EffectState → EffectRecord → EffectRecord
after_restart cutoff now reserved r =
    if leb r.reserved_at cutoff
    then record r {
      state = uncertain;
      outcome = none;
      evidence = "[]";
      reason = lost;
      settled_at = some now;
    }
    else r
after_restart cutoff now _ r = r

swept :
    (cutoff now : ℕ) (o : Option EffectRecord)
    → (if (elim o [ none ↦ false | some r ↦ is_stranded cutoff r ])
        then Option.map (lose now) o
        else o)
      ≡ Option.map (λ r. after_restart cutoff now r.state r) o
swept cutoff now none = refl
swept cutoff now (some r) = ground arith

-- A sweep makes uncertain exactly the effects that were reserved by the cutoff and never settled, and
-- leaves every other row as it was (ids being unique, as the primary key keeps them).
pub find-sweep_unsettled :
    (rows : EffectRows) (cutoff now : ℕ) (j : String)
    → Rows.IsKeyed key rows
    → Rows.find key (sweep_unsettled rows cutoff now).1 j
      ≡ Option.map (λ r. after_restart cutoff now r.state r) (Rows.find key rows j)
unfolding sweep_unsettled
find-sweep_unsettled rows cutoff now j k =
    find-mark_all rows (keep (is_stranded cutoff) rows) now j
    ∙ (rw (any-keep (is_stranded cutoff) rows j k) (swept cutoff now (Rows.find key rows j)))
