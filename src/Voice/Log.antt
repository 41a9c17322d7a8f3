-- ===== src/Voice/Log.antt =====
-- The events of a session tell its state (core/src/garis/voice/session.py).
use garis.Base.{
  ℕ, String, Bool, true, false, Option, none, some, List, [], ◌∷◌, ◌++◌, ◌≡◌, refl, not, ◌+◌, ◌==◌,
  if◌then◌else◌,
}
use garis.Voice.{
  VoiceSession, VoiceState, SessionEvent, Trigger, Step, asleep, listening, thinking, speaking,
  paused, emit, enter, stop_speaking, stop_in, wake, wake_in, pause, resume, speech_started,
  speech_in, audio_tick, loud_in, silent_in, silent_listening, silent_for, window, interrupting,
  heard, end_turn, turn_of, start_speaking, finished_speaking, elapsed, follow_up, listen,
  speech_now,
}

-- One call of an engine or of the user on the session.
pub data Input : Type 0 where
  wakes : Trigger → Input
  pauses resumes speech_starts ends_turn starts_speaking : Input
  ticks : Bool → Input
  hears : String → Input
  stops_speaking finishes : Bool → Input

-- the state in which the last event was emitted
unfoldable pub last_state : VoiceState → List SessionEvent → VoiceState
last_state s [] = s
last_state s (e ∷ es) = last_state e.at es

last_state-append :
    (d : VoiceState) (es : List SessionEvent) (e : SessionEvent)
    → last_state d (es ++ e ∷ []) ≡ e.at
unfolding last_state
last_state-append d [] e = refl
last_state-append d (x ∷ es) e = last_state-append x.at es e

abbrev pub Mirrored : VoiceState → VoiceSession → Type 0
Mirrored d s = last_state d s.events ≡ s.state

module _ (strip : String → String) where
  unfoldable pub step : VoiceSession → Input → ℕ → VoiceSession
  step s (wakes trigger) now = (wake s trigger now).0
  step s pauses now = (pause s).0
  step s resumes now = (resume s).0
  step s speech_starts now = (speech_started s now).0
  step s ends_turn now = (end_turn strip s now).0
  step s starts_speaking now = (start_speaking s).0
  step s (ticks loud) now = (audio_tick strip s loud now).0
  step s (hears text) now = (heard strip s text).0
  step s (stops_speaking own_end) now = (stop_speaking s own_end).0
  step s (finishes keep_floor) now = (finished_speaking s keep_floor now).0

  unfoldable pub run : VoiceSession → List (Input × ℕ) → VoiceSession
  unfolding step
  run s [] = s
  run s ((i, now) ∷ inputs) = run (step s i now) inputs

  module _ (d : VoiceState) where
    emit-Mirrored : (s : VoiceSession) (kind : String) → Mirrored d (emit s kind).0
    unfolding emit
    emit-Mirrored s kind = last_state-append d s.events _

    enter-Mirrored :
        (s : VoiceSession) (state : VoiceState) (kind : String) → Mirrored d (enter s state kind).0
    unfolding enter
    enter-Mirrored s state kind = last_state-append d s.events _

    if_Mirrored :
        (b : Bool) (x y : Step)
        → Mirrored d x.0
        → Mirrored d y.0
        → Mirrored d (if b then x else y).0
    if_Mirrored true x y m n = m
    if_Mirrored false x y m n = n

    listen-Mirrored : (s : VoiceSession) (t : Trigger) (now : ℕ) → Mirrored d (listen s t now).0
    listen-Mirrored s t now = enter-Mirrored _ listening "listening"

    wake-Mirrored :
        (s : VoiceSession) (t : Trigger) (now : ℕ) (v : VoiceState)
        → Mirrored d (wake_in s t now v).0
    wake-Mirrored s t now paused = emit-Mirrored s "ignored"
    wake-Mirrored s t now speaking = listen-Mirrored (stop_speaking s false).0 t now
    wake-Mirrored s t now asleep = listen-Mirrored s t now
    wake-Mirrored s t now listening = listen-Mirrored s t now
    wake-Mirrored s t now thinking = listen-Mirrored s t now

    stop-Mirrored : (s : VoiceSession) (b : Bool) (v : VoiceState) → Mirrored d (stop_in s b v).0
    stop-Mirrored s b speaking =
        enter-Mirrored (record s { spoken_cut_short = not b }) asleep "stopped_speaking"
    stop-Mirrored s b asleep = emit-Mirrored s "ignored"
    stop-Mirrored s b listening = emit-Mirrored s "ignored"
    stop-Mirrored s b thinking = emit-Mirrored s "ignored"
    stop-Mirrored s b paused = emit-Mirrored s "ignored"

    loudly : (s : VoiceSession) (now : ℕ) → Mirrored d (emit (speech_now s now) "speech").0
    loudly s now = emit-Mirrored (speech_now s now) "speech"

    speech-Mirrored :
        (s : VoiceSession) (now : ℕ) (v : VoiceState)
        → Mirrored d s
        → Mirrored d (speech_in s now v).0
    speech-Mirrored s now speaking m =
        if_Mirrored s.barge_in_enabled _ _
          (emit-Mirrored (record s { speech_started_at = some now }) "maybe_interrupting")
          (emit-Mirrored s "ignored")
    speech-Mirrored s now asleep m = m
    speech-Mirrored s now paused m = m
    speech-Mirrored s now listening m = loudly s now
    speech-Mirrored s now thinking m = loudly s now

    interrupting-Mirrored :
        (s : VoiceSession) (now : ℕ) (o : Option ℕ)
        → Mirrored d s
        → Mirrored d (interrupting s now o).0
    unfolding wake
    interrupting-Mirrored s now none m = m
    interrupting-Mirrored s now (some t) m =
        let cut = (stop_speaking (record s { interruptions = s.interruptions + 1 }) false).0 in
        if_Mirrored (elapsed t s.barge_in_ms now) _ _ (wake-Mirrored cut follow_up now cut.state) m

    loud-Mirrored :
        (s : VoiceSession) (now : ℕ) (v : VoiceState)
        → Mirrored d s
        → Mirrored d (loud_in s now v).0
    loud-Mirrored s now speaking m =
        if_Mirrored s.barge_in_enabled _ _ (interrupting-Mirrored s now s.speech_started_at m) m
    loud-Mirrored s now asleep m = m
    loud-Mirrored s now paused m = m
    loud-Mirrored s now listening m = m
    loud-Mirrored s now thinking m = m

    end_turn-Mirrored : (s : VoiceSession) (now : ℕ) → Mirrored d (end_turn strip s now).0
    unfolding end_turn
    end_turn-Mirrored s now =
        let cleared = record s {
          transcript = [];
          turn_started_at = none;
          silence_started_at = none;
        } in
        if_Mirrored ((turn_of strip s now).text == "") _ _
          (enter-Mirrored cleared asleep "empty_turn") (enter-Mirrored cleared thinking "turn")

    window-Mirrored :
        (s : VoiceSession) (now : ℕ) (o : Option ℕ)
        → Mirrored d s
        → Mirrored d (window strip s now o).0
    window-Mirrored s now none m = m
    window-Mirrored s now (some t) m =
        if_Mirrored (elapsed t s.wake_window_ms now) _ _ (enter-Mirrored s asleep "timeout") m

    silent_for-Mirrored :
        (s : VoiceSession) (now since : ℕ) (o : Option ℕ)
        → Mirrored d s
        → Mirrored d (silent_for strip s now since o).0
    silent_for-Mirrored s now since none m = window-Mirrored s now s.listening_since m
    silent_for-Mirrored s now since (some t) m =
        if_Mirrored (elapsed since s.end_of_turn_ms now) _ _ (end_turn-Mirrored s now) m

    silent_listening-Mirrored :
        (s : VoiceSession) (now : ℕ) (o : Option ℕ)
        → Mirrored d s
        → Mirrored d (silent_listening strip s now o).0
    silent_listening-Mirrored s now none m = m
    silent_listening-Mirrored s now (some t) m = silent_for-Mirrored s now t s.turn_started_at m

    silent-Mirrored :
        (s : VoiceSession) (now : ℕ) (v : VoiceState)
        → Mirrored d s
        → Mirrored d (silent_in strip s now v).0
    silent-Mirrored s now speaking m = m
    silent-Mirrored s now asleep m = m
    silent-Mirrored s now paused m = m
    silent-Mirrored s now thinking m = m
    silent-Mirrored s now listening m = silent_listening-Mirrored s now s.silence_started_at m

    heard-Mirrored : (s : VoiceSession) (text : String) → Mirrored d (heard strip s text).0
    unfolding heard
    heard-Mirrored s text =
        if_Mirrored (strip text == "") _ _ (emit-Mirrored s "transcript")
          (emit-Mirrored (record s { transcript = s.transcript ++ strip text ∷ [] }) "transcript")

    finished-Mirrored :
        (s : VoiceSession) (b : Bool) (now : ℕ) → Mirrored d (finished_speaking s b now).0
    unfolding finished_speaking wake
    finished-Mirrored s true now = wake-Mirrored s follow_up now s.state
    finished-Mirrored s false now = enter-Mirrored s asleep "done_speaking"

    step-Mirrored :
        (s : VoiceSession) (i : Input) (now : ℕ) → Mirrored d s → Mirrored d (step s i now)
    unfolding step wake stop_speaking speech_started audio_tick
    step-Mirrored s (wakes trigger) now m = wake-Mirrored s trigger now s.state
    step-Mirrored s pauses now m = unfold pause in enter-Mirrored s paused "paused"
    step-Mirrored s resumes now m = unfold resume in enter-Mirrored s asleep "asleep"
    step-Mirrored s speech_starts now m = speech-Mirrored s now s.state m
    step-Mirrored s ends_turn now m = end_turn-Mirrored s now
    step-Mirrored s starts_speaking now m =
        unfold start_speaking in
        enter-Mirrored (record s { speech_started_at = none; spoken_cut_short = false }) speaking
          "speaking"
    step-Mirrored s (ticks true) now m = loud-Mirrored s now s.state m
    step-Mirrored s (ticks false) now m = silent-Mirrored s now s.state m
    step-Mirrored s (hears text) now m = heard-Mirrored s text
    step-Mirrored s (stops_speaking own_end) now m = stop-Mirrored s own_end s.state
    step-Mirrored s (finishes keep_floor) now m = finished-Mirrored s keep_floor now

    -- After any calls, whatever the clock read, the last event was emitted in the state that the
    -- session is in: who follows the events knows the state.
    pub run-Mirrored :
        (s : VoiceSession) (inputs : List (Input × ℕ)) → Mirrored d s → Mirrored d (run s inputs)
    unfolding run
    run-Mirrored s [] m = m
    run-Mirrored s ((i, now) ∷ inputs) m =
        run-Mirrored (step s i now) inputs (step-Mirrored s i now m)
