-- ===== src/Notifications.antt =====
-- Which notices the user hears, and when: core/src/garis/notifications.py, with `QuietHours` of config.py.
-- A time of day is a number of seconds. `read_clock` is what `int` makes of the two parts of "hh:mm", none
-- where `split` or `int` raise; `fingerprint` is the hash of a notice, of which `data` is left out. A deque is a list with the newest
-- entry first. What the subscription `listen` does is `consider` of each event.
pub mod Quiet
pub mod Duplicates
mod Tests
use garis.Base.{
  ℕ, zero, suc, ◌+◌, ◌-◌, ◌*◌, String, Bool, true, false, Option, none, some, List, [], ◌∷◌, ◌++◌,
  any, count, keep, length, leb, ltb, nat_eq, ◌==◌, ◌&&◌, ◌||◌, not, if◌then◌else◌,
}

pub record QuietHours : Type 0 where
  pub enabled : Bool
  pub start : String
  pub stop : String

pub record NotificationsConfig : Type 0 where
  pub quiet_hours : QuietHours
  pub suppress_while_gaming : Bool
  pub min_importance : ℕ
  pub max_per_hour : ℕ

pub data Verdict : Type 0 where
  deliver hold drop : Verdict

pub record Notice : Type 0 where
  pub message : String
  pub importance : ℕ
  pub source : String
  pub task_id : Option String
  pub at : ℕ

pub record NotificationGate : Type 0 where
  pub config : NotificationsConfig
  pub recent : List (ℕ × String)
  pub delivered_at : List ℕ
  pub held : List Notice
  pub gaming : Bool
  pub has_bus : Bool
  -- `Topic.SPEAK`
  pub spoken : List Notice

-- CRITICAL
abbrev critical : ℕ
critical = 5

-- DEDUPE_WINDOW_SECONDS
abbrev pub dedupe_window_seconds : ℕ
dedupe_window_seconds = 900

-- `clock(hh, mm)`, none for its `ValueError`
abbrev pub clock_of : Option (ℕ × ℕ) → Option ℕ
clock_of none = none
clock_of (some (hh, mm)) = if ltb hh 24 && ltb mm 60 then some (3600 * hh + 60 * mm) else none

-- the window itself
unfoldable pub within : ℕ → ℕ → ℕ → Bool
within start stop moment =
    if nat_eq start stop
    then false
    else if ltb start stop
    then leb start moment && ltb moment stop
    else leb start moment || ltb moment stop

abbrev pub window : Option ℕ → Option ℕ → ℕ → Option Bool
window none stop moment = none
window (some start) none moment = none
window (some start) (some stop) moment = some (within start stop moment)

-- `contains`, none for a `ConfigError`
unfoldable pub contains_moment : (String → Option (ℕ × ℕ)) → QuietHours → ℕ → Option Bool
unfolding within
contains_moment read_clock q moment =
    if q.enabled
    then window (clock_of (read_clock q.start)) (clock_of (read_clock q.stop)) moment
    else some false

-- the first `n`, and an entry put in front of a deque of at most `n`
unfoldable pub first : {A : Type 0} → ℕ → List A → List A
first zero xs = []
first (suc n) [] = []
first (suc n) (x ∷ xs) = x ∷ first n xs

abbrev pub push : {A : Type 0} → ℕ → A → List A → List A
push n x xs = first n (x ∷ xs)

-- `set_gaming`
unfoldable pub set_gaming : Bool → NotificationGate → NotificationGate
set_gaming playing g = record g { gaming = playing }

-- `drop_held`
unfoldable pub drop_held : NotificationGate → ℕ × NotificationGate
drop_held g = (length g.held, record g { held = [] })

-- `_over_rate_limit`
unfoldable pub over_rate_limit : NotificationGate → ℕ → Bool
over_rate_limit g moment =
    not (nat_eq g.config.max_per_hour 0)
    && leb g.config.max_per_hour (count (λ at. leb moment (at + 3600)) g.delivered_at)

-- one entry of `_recent` makes a notice a duplicate
abbrev pub same_notice : ℕ → String → ℕ × String → Bool
same_notice moment print (at, seen) = leb moment (at + dedupe_window_seconds) && seen == print

-- `release_held` sorts by importance first, then by age
abbrev goes_before : Notice → Notice → Bool
goes_before a b =
    ltb b.importance a.importance || (nat_eq a.importance b.importance && leb a.at b.at)

unfoldable pub insert_notice : Notice → List Notice → List Notice
insert_notice n [] = n ∷ []
insert_notice n (x ∷ xs) =
    let rest = insert_notice n xs in if goes_before n x then n ∷ x ∷ xs else x ∷ rest

unfoldable pub sort_notices : List Notice → List Notice
unfolding insert_notice
sort_notices [] = []
sort_notices (n ∷ ns) = insert_notice n (sort_notices ns)

abbrev same_task : Option String → Option String → Bool
same_task none none = true
same_task (some s) (some t) = s == t
same_task _ _ = false

-- `==` of two notices
abbrev same_fields : Notice → Notice → Bool
same_fields a b =
    a.message == b.message
    && (nat_eq a.importance b.importance
        && (a.source == b.source && (same_task a.task_id b.task_id && nat_eq a.at b.at)))

abbrev pub speak : Notice → NotificationGate → NotificationGate
speak n g = if g.has_bus then record g { spoken = g.spoken ++ n ∷ [] } else g

-- the loop of `release_held`
unfoldable pub released : List Notice → ℕ → NotificationGate → NotificationGate
released [] now g = g
released (n ∷ ns) now g =
    released ns now (speak n (record g { delivered_at = push 256 now g.delivered_at }))

-- `release_held`
unfoldable pub release_held : ℕ → ℕ → NotificationGate → List Notice × NotificationGate
unfolding sort_notices released first
release_held limit now g =
    let ordered = first limit (sort_notices g.held) in
    (
      ordered,
      released ordered now
          (record g { held = keep (λ n. not (any (same_fields n) ordered)) g.held }),
    )

module _ (read_clock : String → Option (ℕ × ℕ)) (fingerprint : Notice → String) where
  -- `_is_duplicate`
  unfoldable pub is_duplicate : NotificationGate → Notice → Bool
  is_duplicate g n = any (same_notice n.at (fingerprint n)) g.recent

  -- what is decided where the clock is asked; none for a `ConfigError`
  abbrev pub by_clock : NotificationGate → Notice → Option Bool → Option Verdict
  by_clock g n none = none
  by_clock g n (some true) = some hold
  by_clock g n (some false) = some (
      if g.gaming && g.config.suppress_while_gaming
      then hold
      else if over_rate_limit g n.at
      then hold
      else deliver)

  -- `_decide`; `time` is the time of day
  unfoldable pub decide : NotificationGate → Notice → ℕ → Option Verdict
  unfolding is_duplicate over_rate_limit contains_moment
  decide g n time =
      if is_duplicate g n
      then some drop
      else if ltb n.importance g.config.min_importance
      then some drop
      else if leb critical n.importance
      then some deliver
      else by_clock g n (contains_moment read_clock g.config.quiet_hours time)

  abbrev pub noted : Notice → NotificationGate → NotificationGate
  noted n g = record g { recent = push 64 (n.at, fingerprint n) g.recent }

  -- what `consider` records
  abbrev pub settled : Option Verdict → Notice → NotificationGate → NotificationGate
  settled none n g = g
  settled (some drop) n g = g
  settled (some hold) n g = noted n (record g { held = g.held ++ n ∷ [] })
  settled (some deliver) n g =
      speak n (record (noted n g) { delivered_at = push 256 n.at g.delivered_at })

  -- `consider`
  unfoldable pub consider : Notice → ℕ → NotificationGate → Option Verdict × NotificationGate
  unfolding decide first
  consider n time g = let d = decide g n time in (d, settled d n g)
