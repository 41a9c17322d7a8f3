-- ===== src/Health/Tests.antt =====
-- The health of a provider at concrete answers.
use garis.Base.{
  ℕ, ◌+◌, ◌≡◌, refl, true, ltb, String, Bool, false, [], Option, none, some, leb, nat_eq, ◌&&◌,
  ◌||◌, ◌==◌, if◌then◌else◌,
}
use garis.Health.{HealthMonitor, classify_response, found, usable_at, retry_after_of}
use garis.Health.Answers.{wait, usable-classify_response}

abbrev same_text : String → String
same_text s = s

abbrev never : String → String → Bool
never s t = false

abbrev half_minute : String → Option ℕ
half_minute s = if s == "30" then some 30 else none

abbrev empty : HealthMonitor
empty = record { ttl = 3600; states = []; events = [] }

usable-classify_response_example :
    usable_at
      (found "openai" (classify_response same_text never half_minute 429 "" "30" 100) 100 1)
      130
    ≡ ((leb 200 429 && ltb 429 300) || (nat_eq 429 429 && leb (100 + wait (half_minute "30")) 130))
usable-classify_response_example =
    usable-classify_response same_text never half_minute "openai" 1 429 "" "30" 100 130

-- a limit that names no time lasts a minute
minute :
    (usable_at
        (found "openai" (classify_response same_text never half_minute 429 "" "" 100) 100 1)
        159
      ≡ false)
    × (usable_at
          (found "openai" (classify_response same_text never half_minute 429 "" "" 100) 100 1)
          160
        ≡ true)
unfolding usable_at classify_response retry_after_of
minute = (refl, refl)
