-- ===== src/Voice/Barge.antt =====
-- Barge-in (core/src/garis/voice/session.py, `audio_tick`).
use garis.Base.{ℕ, ◌+◌, ◌≤◌, ◌<◌, String, true, some, List, [], ◌∷◌, ◌≡◌, refl, arith, All}
use garis.Voice.{VoiceSession, speaking, listening, audio_tick}

module _ (strip : String → String) where
  -- frames of speech, at these times
  unfoldable pub frames : VoiceSession → List ℕ → VoiceSession
  frames s [] = s
  frames s (t ∷ ts) = frames (audio_tick strip s true t).0 ts

  too_short :
      (s : VoiceSession) (since now : ℕ)
      → s.state ≡ speaking
      → s.speech_started_at ≡ some since
      → now < since + s.barge_in_ms
      → (audio_tick strip s true now).0 ≡ s
  unfolding audio_tick
  too_short s since now st sp h = ground arith

  frames_short :
      (s : VoiceSession) (since : ℕ) (ts : List ℕ)
      → s.state ≡ speaking
      → s.speech_started_at ≡ some since
      → All (λ t. t < since + s.barge_in_ms) ts
      → frames s ts ≡ s
  unfolding frames
  frames_short s since [] st sp h = refl
  frames_short s since (t ∷ ts) st sp h =
      rw (too_short s since t st sp h.0) (frames_short s since ts st sp h.1)

  long_enough :
      (s : VoiceSession) (since now : ℕ)
      → s.state ≡ speaking
      → s.barge_in_enabled ≡ true
      → s.speech_started_at ≡ some since
      → since + s.barge_in_ms ≤ now
      → ((audio_tick strip s true now).0.state ≡ listening)
        × ((audio_tick strip s true now).0.interruptions ≡ s.interruptions + 1)
        × ((audio_tick strip s true now).0.spoken_cut_short ≡ true)
        × ((audio_tick strip s true now).0.listening_since ≡ some now)
        × ((audio_tick strip s true now).0.transcript ≡ [])
  unfolding audio_tick
  long_enough s since now st b sp h = ground arith

  -- While GARIS speaks and speech goes on without a gap since some moment, no frame before the barge-in
  -- threshold changes anything, and the first frame at or after it cuts GARIS off and listens: one more
  -- interruption is counted, the utterance is marked as cut short, and the transcript starts empty.
  pub barge_in_exact :
      (s : VoiceSession) (since now : ℕ) (ts : List ℕ)
      → s.state ≡ speaking
      → s.barge_in_enabled ≡ true
      → s.speech_started_at ≡ some since
      → All (λ t. t < since + s.barge_in_ms) ts
      → since + s.barge_in_ms ≤ now
      → (frames s ts ≡ s)
        × ((audio_tick strip (frames s ts) true now).0.state ≡ listening)
        × ((audio_tick strip (frames s ts) true now).0.interruptions ≡ s.interruptions + 1)
        × ((audio_tick strip (frames s ts) true now).0.spoken_cut_short ≡ true)
        × ((audio_tick strip (frames s ts) true now).0.listening_since ≡ some now)
        × ((audio_tick strip (frames s ts) true now).0.transcript ≡ [])
  barge_in_exact s since now ts st b sp before h =
      let same = frames_short s since ts st sp before in
      let (a, i, c, l, t) = long_enough s since now st b sp h in
      (same, rw same a, rw same i, rw same c, rw same l, rw same t)
