-- ===== src/Notifications/Quiet.antt =====
-- Quiet hours as an arc of the day (core/src/garis/config.py, `QuietHours.contains`).
use garis.Base.{
  ℕ, ◌+◌, ◌-◌, ◌*◌, ◌%◌, ◌<◌, String, Option, some, ◌≡◌, ◌∙◌, refl, ap, arith, ltb, ◌&&◌,
  Bool-cases, inl, inr,
}
use garis.Notifications.{QuietHours, within, clock_of, contains_moment}

-- the seconds of a day
abbrev pub day : ℕ
day = 86400

-- how far a moment is past another one, around the clock
abbrev pub after : ℕ → ℕ → ℕ
after start moment = (moment + day - start) % day

within-after :
    (start stop moment : ℕ)
    → start < day
    → stop < day
    → moment < day
    → within start stop moment ≡ ltb (after start moment) (after start stop)
unfolding within
within-after start stop moment a b c = ground (arith, a, b, c)

-- Quiet hours from one time of the day to another are the arc of the clock between them, whether or not
-- it crosses midnight: a moment of the day is in them just when they are switched on and it is less far
-- past their start than their end is. Quiet hours that start when they end are empty.
pub contains_moment-arc :
    (read_clock : String → Option (ℕ × ℕ)) (q : QuietHours) (h m k l moment : ℕ)
    → read_clock q.start ≡ some (h, m)
    → read_clock q.stop ≡ some (k, l)
    → h < 24
    → m < 60
    → k < 24
    → l < 60
    → moment < day
    → contains_moment read_clock q moment
      ≡ some (
          q.enabled
          && ltb (after (3600 * h + 60 * m) moment) (after (3600 * h + 60 * m) (3600 * k + 60 * l)))
unfolding contains_moment
contains_moment-arc read_clock q h m k l moment a b c d e f g = elim (Bool-cases q.enabled) [
  | inl on ↦
      let start : clock_of (read_clock q.start) ≡ some (3600 * h + 60 * m) =
        ap clock_of a ∙ clock_some h m c d in
      let stop : clock_of (read_clock q.stop) ≡ some (3600 * k + 60 * l) =
        ap clock_of b ∙ clock_some k l e f in
      rw (on, start, stop)
        (ap some (
          within-after (3600 * h + 60 * m) (3600 * k + 60 * l) moment (omega (arith, c, d))
            (omega (arith, e, f)) g))
  | inr off ↦ rw off refl
]
  where
    clock_some : (h m : ℕ) → h < 24 → m < 60 → clock_of (some (h, m)) ≡ some (3600 * h + 60 * m)
    clock_some h m c d = ground (arith, c, d)
