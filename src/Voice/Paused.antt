-- ===== src/Voice/Paused.antt =====
-- The microphone that the user switched off (core/src/garis/voice/session.py).
use garis.Base.{ℕ, String, Bool, true, false, List, [], ◌∷◌, ◌≡◌, refl, arith, All}
use garis.Voice.{
  VoiceSession, Trigger, asleep, listening, paused, wake, pause, audio_tick, speech_started, heard,
  start_speaking, finished_speaking,
}
use garis.Voice.Log.{Input, wakes, ticks, hears, speech_starts, step, run}

-- what the microphone and the wake word can bring about
abbrev pub is_heard : Input → Bool
is_heard (wakes t) = true
is_heard (ticks b) = true
is_heard (hears text) = true
is_heard speech_starts = true
is_heard _ = false

module _ (strip : String → String) where
  step_paused :
      (s : VoiceSession) (i : Input) (now : ℕ)
      → s.state ≡ paused
      → is_heard i ≡ true
      → (step strip s i now).state ≡ paused
  unfolding step wake speech_started audio_tick heard
  step_paused s (wakes t) now p h = ground arith
  step_paused s (ticks true) now p h = ground arith
  step_paused s (ticks false) now p h = ground arith
  step_paused s (hears text) now p h = ground arith
  step_paused s speech_starts now p h = ground arith
  step_paused s _ now p h = absurd (cc)

  -- Nothing that the microphone or the wake word brings about ends the pause.
  pub run_paused :
      (s : VoiceSession) (inputs : List (Input × ℕ))
      → s.state ≡ paused
      → All (λ x. is_heard x.0 ≡ true) inputs
      → (run strip s inputs).state ≡ paused
  unfolding run
  run_paused s [] p h = p
  run_paused s ((i, now) ∷ inputs) p h =
      run_paused (step strip s i now) inputs (step_paused s i now p h.0) h.1

-- A pause does not outlive an answer: whatever the session, if the user pauses the microphone and GARIS
-- then speaks and finishes without keeping the floor, the session is asleep, and the next wake word
-- makes it listen, although nobody has resumed it. If it keeps the floor, it listens at once.
pub pause_lost :
    (s : VoiceSession) (t : Trigger) (now later : ℕ)
    → ((finished_speaking (start_speaking (pause s).0).0 false now).0.state ≡ asleep)
      × ((wake (finished_speaking (start_speaking (pause s).0).0 false now).0 t later).0.state
          ≡ listening)
      × ((finished_speaking (start_speaking (pause s).0).0 true now).0.state ≡ listening)
unfolding pause start_speaking finished_speaking
pause_lost s t now later = (refl, refl, refl)
