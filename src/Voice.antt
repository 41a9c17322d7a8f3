-- ===== src/Voice.antt =====
-- The conversation state machine: core/src/garis/voice/session.py.
-- A method takes the session and the reading of its clock in milliseconds, and returns the session
-- with the event that it emitted, if any. An event is its kind and the state it was emitted in; its
-- details and the bus are not modelled. `strip` stands for Python's `str.strip`.
pub mod Barge
pub mod Log
pub mod Paused
mod Tests
use garis.Base.{
  ℕ, zero, suc, ◌+◌, ◌-◌, String, Bool, true, false, Option, none, some, List, [], ◌∷◌, ◌++◌, leb,
  not, ◌==◌, ◌&&◌, if◌then◌else◌, is_some,
}
use Prim.Native.String.{◌++◌ as ◌<>◌}

pub data VoiceState : Type 0 where
  asleep listening thinking speaking paused : VoiceState

pub data Trigger : Type 0 where
  wake_word push_to_talk hotkey text_input follow_up : Trigger

pub record SessionEvent : Type 0 where
  pub kind : String
  pub at : VoiceState

pub record VoiceSession : Type 0 where
  pub barge_in_enabled : Bool
  pub barge_in_ms : ℕ
  pub end_of_turn_ms : ℕ
  pub wake_window_ms : ℕ
  pub state : VoiceState
  pub events : List SessionEvent
  pub speech_started_at : Option ℕ
  pub silence_started_at : Option ℕ
  pub listening_since : Option ℕ
  pub turn_started_at : Option ℕ
  pub transcript : List String
  pub trigger : Trigger
  pub interruptions : ℕ
  pub spoken_cut_short : Bool

-- `__init__` with the default thresholds
abbrev pub init : VoiceSession
init = record {
  barge_in_enabled = true;
  barge_in_ms = 220;
  end_of_turn_ms = 700;
  wake_window_ms = 6000;
  state = asleep;
  events = [];
  speech_started_at = none;
  silence_started_at = none;
  listening_since = none;
  turn_started_at = none;
  transcript = [];
  trigger = wake_word;
  interruptions = 0;
  spoken_cut_short = false;
}

abbrev pub Step : Type 0
Step = VoiceSession × Option SessionEvent

-- `_emit`
unfoldable pub emit : VoiceSession → String → Step
emit s kind =
    let e : SessionEvent = record { kind = kind; at = s.state } in
    (record s { events = s.events ++ e ∷ [] }, some e)

-- `_enter`
unfoldable pub enter : VoiceSession → VoiceState → String → Step
unfolding emit
enter s state kind = emit (record s { state = state }) kind

abbrev pub quiet : VoiceSession → Step
quiet s = (s, none)

-- `stop_speaking`; `own_end` says that the reason is the end of the utterance
abbrev pub stop_in : VoiceSession → Bool → VoiceState → Step
stop_in s own_end speaking =
    enter (record s { spoken_cut_short = not own_end }) asleep "stopped_speaking"
stop_in s own_end _ = emit s "ignored"

unfoldable pub stop_speaking : VoiceSession → Bool → Step
unfolding emit enter
stop_speaking s own_end = stop_in s own_end s.state

abbrev pub listen : VoiceSession → Trigger → ℕ → Step
listen s trigger now =
    enter
      (record s {
        trigger = trigger;
        listening_since = some now;
        turn_started_at = none;
        transcript = [];
        speech_started_at = none;
        silence_started_at = none;
      })
      listening "listening"

abbrev pub wake_in : VoiceSession → Trigger → ℕ → VoiceState → Step
wake_in s trigger now paused = emit s "ignored"
wake_in s trigger now speaking = listen (stop_speaking s false).0 trigger now
wake_in s trigger now _ = listen s trigger now

unfoldable pub wake : VoiceSession → Trigger → ℕ → Step
unfolding stop_speaking
wake s trigger now = wake_in s trigger now s.state

unfoldable pub pause : VoiceSession → Step
unfolding enter
pause s = enter s paused "paused"

unfoldable pub resume : VoiceSession → Step
unfolding enter
resume s = enter s asleep "asleep"

abbrev pub or_now : Option ℕ → ℕ → Option ℕ
or_now none now = some now
or_now (some t) now = some t

abbrev pub speech_now : VoiceSession → ℕ → VoiceSession
speech_now s now = record s {
  speech_started_at = some now;
  silence_started_at = none;
  turn_started_at = or_now s.turn_started_at now;
}

abbrev pub speech_in : VoiceSession → ℕ → VoiceState → Step
speech_in s now speaking =
    if s.barge_in_enabled
    then emit (record s { speech_started_at = some now }) "maybe_interrupting"
    else emit s "ignored"
speech_in s now asleep = quiet s
speech_in s now paused = quiet s
speech_in s now _ = emit (speech_now s now) "speech"

unfoldable pub speech_started : VoiceSession → ℕ → Step
unfolding emit
speech_started s now = speech_in s now s.state

-- `now - since >= limit`
abbrev pub elapsed : ℕ → ℕ → ℕ → Bool
elapsed since limit now = leb (since + limit) now

-- a frame of speech while GARIS speaks, by the moment of the first sound
abbrev pub interrupting : VoiceSession → ℕ → Option ℕ → Step
interrupting s now none = quiet (record s { speech_started_at = some now })
interrupting s now (some t) =
    if elapsed t s.barge_in_ms now
    then wake (stop_speaking (record s { interruptions = s.interruptions + 1 }) false).0 follow_up
        now
    else quiet s

abbrev pub loud_in : VoiceSession → ℕ → VoiceState → Step
loud_in s now speaking =
    if s.barge_in_enabled then interrupting s now s.speech_started_at else quiet s
loud_in s now listening =
    quiet (record s { silence_started_at = none; turn_started_at = or_now s.turn_started_at now })
loud_in s now _ = quiet s

-- `" ".join(parts)`
unfoldable pub join : List String → String
join [] = ""
join (x ∷ []) = x
join (x ∷ y ∷ xs) = x <> (" " <> join (y ∷ xs))

-- `start or now`, where 0.0 counts as no start
abbrev turn_start : Option ℕ → ℕ → ℕ
turn_start none now = now
turn_start (some zero) now = now
turn_start (some (suc t)) now = suc t

pub record Turn : Type 0 where
  pub text : String
  pub started_at : ℕ
  pub ended_at : ℕ
  pub by : Trigger

module _ (strip : String → String) where
  -- the turn that `end_turn` builds
  unfoldable pub turn_of : VoiceSession → ℕ → Turn
  unfolding join
  turn_of s now = record {
    text = strip (join s.transcript);
    started_at = turn_start s.turn_started_at now;
    ended_at = now;
    by = s.trigger;
  }

  unfoldable pub end_turn : VoiceSession → ℕ → Step
  unfolding enter turn_of
  end_turn s now =
      let cleared = record s {
        transcript = [];
        turn_started_at = none;
        silence_started_at = none;
      } in
      if (turn_of s now).text == ""
      then enter cleared asleep "empty_turn"
      else enter cleared thinking "turn"

  -- the end of the wake window
  abbrev pub window : VoiceSession → ℕ → Option ℕ → Step
  window s now none = quiet s
  window s now (some since) =
      if elapsed since s.wake_window_ms now then enter s asleep "timeout" else quiet s

  -- silence that began at `since`
  abbrev pub silent_for : VoiceSession → ℕ → ℕ → Option ℕ → Step
  silent_for s now since none = window s now s.listening_since
  silent_for s now since (some turn) =
      if elapsed since s.end_of_turn_ms now then end_turn s now else quiet s

  abbrev pub silent_listening : VoiceSession → ℕ → Option ℕ → Step
  silent_listening s now none = quiet (record s { silence_started_at = some now })
  silent_listening s now (some since) = silent_for s now since s.turn_started_at

  abbrev pub silent_in : VoiceSession → ℕ → VoiceState → Step
  silent_in s now speaking = quiet (record s { speech_started_at = none })
  silent_in s now listening = silent_listening s now s.silence_started_at
  silent_in s now _ = quiet s

  -- `audio_tick(speaking=…)`
  unfoldable pub audio_tick : VoiceSession → Bool → ℕ → Step
  unfolding wake stop_speaking end_turn enter
  audio_tick s true now = loud_in s now s.state
  audio_tick s false now = silent_in s now s.state

  unfoldable pub heard : VoiceSession → String → Step
  unfolding emit
  heard s text =
      if strip text == ""
      then emit s "transcript"
      else emit (record s { transcript = s.transcript ++ strip text ∷ [] }) "transcript"

unfoldable pub start_speaking : VoiceSession → Step
unfolding enter
start_speaking s =
    enter (record s { speech_started_at = none; spoken_cut_short = false }) speaking "speaking"

unfoldable pub finished_speaking : VoiceSession → Bool → ℕ → Step
unfolding enter wake
finished_speaking s keep_floor now =
    if keep_floor then wake s follow_up now else enter s asleep "done_speaking"
