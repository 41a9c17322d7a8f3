-- ===== src/Voice/Tests.antt =====
-- The session at concrete calls, on an installation with the default thresholds.
use garis.Base.{ℕ, ◌+◌, ◌≡◌, refl, String, true, false, List, [], ◌∷◌, some, arith}
use garis.Voice.{
  VoiceSession, init, speaking, listening, asleep, paused, audio_tick, start_speaking,
  finished_speaking, wake, pause, hotkey, wake_word,
}
use garis.Voice.Barge.{frames, barge_in_exact}
use garis.Voice.Log.{Input, wakes, speech_starts, starts_speaking, ticks, hears, finishes}
use garis.Voice.Paused.{pause_lost}

abbrev same_text : String → String
same_text s = s

-- GARIS speaks, and the user has been heard since 1000 ms.
abbrev interrupted : VoiceSession
interrupted = record init { state = speaking; speech_started_at = some 1000 }

barge_in_exact_example :
    (frames same_text interrupted (1100 ∷ 1219 ∷ []) ≡ interrupted)
    × ((audio_tick same_text (frames same_text interrupted (1100 ∷ 1219 ∷ [])) true 1220).0.state
        ≡ listening)
    × ((audio_tick same_text
          (frames same_text interrupted (1100 ∷ 1219 ∷ []))
          true
          1220).0.interruptions
        ≡ 0 + 1)
    × ((audio_tick same_text
          (frames same_text interrupted (1100 ∷ 1219 ∷ []))
          true
          1220).0.spoken_cut_short
        ≡ true)
    × ((audio_tick same_text
          (frames same_text interrupted (1100 ∷ 1219 ∷ []))
          true
          1220).0.listening_since
        ≡ some 1220)
    × ((audio_tick same_text
          (frames same_text interrupted (1100 ∷ 1219 ∷ []))
          true
          1220).0.transcript
        ≡ [])
barge_in_exact_example =
    barge_in_exact same_text interrupted 1000 1220 (1100 ∷ 1219 ∷ []) refl refl refl
      (omega arith, (omega arith, tt)) (omega arith)

abbrev evening : List (Input × ℕ)
evening =
    (wakes wake_word, 10)
    ∷ (speech_starts, 20)
    ∷ (hears "która godzina", 300)
    ∷ (ticks false, 400)
    ∷ (ticks false, 1200)
    ∷ (starts_speaking, 1300)
    ∷ (finishes true, 2000)
    ∷ []

abbrev muted : VoiceSession
muted = record init { state = paused }

pause_lost_example :
    ((finished_speaking (start_speaking (pause init).0).0 false 50).0.state ≡ asleep)
    × ((wake (finished_speaking (start_speaking (pause init).0).0 false 50).0 hotkey 60).0.state
        ≡ listening)
    × ((finished_speaking (start_speaking (pause init).0).0 true 50).0.state ≡ listening)
pause_lost_example = pause_lost init hotkey 50 60
