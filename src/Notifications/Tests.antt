-- ===== src/Notifications/Tests.antt =====
-- The gate at concrete notices.
use garis.Base.{
  ℕ, ◌+◌, ◌*◌, String, true, false, Option, none, some, [], ◌∷◌, ◌==◌, ◌≡◌, refl, arith, ltb, ◌&&◌,
  if◌then◌else◌,
}
use garis.Notifications.{
  QuietHours, Notice, NotificationGate, deliver, hold, drop, contains_moment, consider,
}
use garis.Notifications.Quiet.{after, contains_moment-arc}
use garis.Notifications.Duplicates.{run, consider_duplicate}

abbrev read_clock : String → Option (ℕ × ℕ)
read_clock s = if s == "23:00" then some (23, 0) else if s == "08:00" then some (8, 0) else none

abbrev print : Notice → String
print n = n.message

abbrev night : QuietHours
night = record { enabled = true; start = "23:00"; stop = "08:00" }

abbrev gate : NotificationGate
gate = record {
  config = record {
    quiet_hours = night;
    suppress_while_gaming = true;
    min_importance = 3;
    max_per_hour = 6;
  };
  recent = [];
  delivered_at = [];
  held = [];
  gaming = false;
  has_bus = true;
  spoken = [];
}

abbrev notice : String → ℕ → ℕ → Notice
notice message importance at = record {
  message = message;
  importance = importance;
  source = "disk";
  task_id = none;
  at = at;
}

abbrev noon : ℕ
noon = 43200

at_night : (consider read_clock print (notice "a" 3 1000) 3600 gate).0 ≡ some hold
unfolding consider
at_night = refl

critical_at_night : (consider read_clock print (notice "a" 5 1000) 3600 gate).0 ≡ some deliver
unfolding consider
critical_at_night = refl

contains_moment-arc_example :
    contains_moment read_clock night 3600
    ≡ some (
        true
        && ltb (after (3600 * 23 + 60 * 0) 3600) (after (3600 * 23 + 60 * 0) (3600 * 8 + 60 * 0)))
contains_moment-arc_example =
    contains_moment-arc read_clock night 23 0 8 0 3600 refl refl (omega arith) (omega arith)
      (omega arith) (omega arith) (omega arith)

consider_duplicate_example :
    (consider read_clock print (notice "a" 3 1500) noon (
      run read_clock print
        ((notice "b" 3 1200, noon) ∷ [])
        (consider read_clock print (notice "a" 3 1000) noon gate).1)).0
    ≡ some drop
unfolding consider
consider_duplicate_example =
    consider_duplicate read_clock print (notice "a" 3 1000) (notice "a" 3 1500) noon noon
      ((notice "b" 3 1200, noon) ∷ []) gate refl refl (omega arith) (omega arith)
