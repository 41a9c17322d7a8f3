-- ===== src/Memory/Run.antt =====
-- Any run of the operations of the memory (core/src/garis/memory.py).
use garis.Base.{ℕ, String, Bool, false, Option, some, List, [], ◌∷◌, ◌≡◌, not}
use garis.Memory.{
  MemoryService, Envelope, Details, Changes, has_expired, in_session, end_session, purge_expired,
  remember, update, pin, pin_changes, forget,
}
use garis.Memory.Clean.{
  AreClean, IsClean, All-keep, remember-AreClean, update-AreClean, forget-AreClean,
}

pub data Call : Type 0 where
  call_remember : String → String → Details → ℕ → Call
  call_update : String → Changes → ℕ → Call
  call_pin : String → Bool → ℕ → Call
  call_forget : String → Call
  call_purge : ℕ → Call
  call_end_session : Call

module _ {T C : Type 0} (seal : ℕ → T → String → C) (unseal : ℕ → C → String → Option T)
    (dumps : Envelope → T) (loads : T → Option Envelope) (plain_text : T → String)
    (strip lower : String → String) (patterns : String → Bool)
    (infer_subject : String → String) where
  unfoldable pub step : Call → MemoryService C → MemoryService C
  step (call_remember content id d now) m =
      (remember seal unseal dumps loads plain_text strip lower patterns infer_subject content id
        false d now m).1
  step (call_update id c now) m =
      (update seal unseal dumps loads plain_text strip lower patterns infer_subject id c now m).1
  step (call_pin id pinned now) m =
      (pin seal unseal dumps loads plain_text strip lower patterns infer_subject id pinned now m).1
  step (call_forget id) m =
      (forget seal unseal dumps loads plain_text strip lower patterns infer_subject id m).1
  step (call_purge now) m = (purge_expired now m).1
  step call_end_session m = (end_session m).1

  unfoldable pub run : List Call → MemoryService C → MemoryService C
  run [] m = m
  run (c ∷ cs) m = run cs (step c m)

  module _ (opens : (n : ℕ) (t : T) (c : String) → unseal n (seal n t c) c ≡ some t)
      (reads : (e : Envelope) → loads (dumps e) ≡ some e) where
    step-AreClean :
        (c : Call) (m : MemoryService C)
        → AreClean seal unseal dumps loads plain_text strip lower patterns infer_subject opens reads
            m
        → AreClean seal unseal dumps loads plain_text strip lower patterns infer_subject opens reads
            (step c m)
    unfolding step pin purge_expired end_session
    step-AreClean (call_remember content id d now) m h =
        remember-AreClean seal unseal dumps loads plain_text strip lower patterns infer_subject
          opens reads content id d now m h
    step-AreClean (call_update id c now) m h =
        update-AreClean seal unseal dumps loads plain_text strip lower patterns infer_subject opens
          reads id c now m h
    step-AreClean (call_pin id pinned now) m h =
        update-AreClean seal unseal dumps loads plain_text strip lower patterns infer_subject opens
          reads id (pin_changes pinned) now m h
    step-AreClean (call_forget id) m h =
        forget-AreClean seal unseal dumps loads plain_text strip lower patterns infer_subject opens
          reads id m h
    step-AreClean (call_purge now) m h =
        All-keep
          (IsClean seal unseal dumps loads plain_text strip lower patterns infer_subject opens
            reads)
          (λ r. not (has_expired now r)) m.rows h
    step-AreClean call_end_session m h =
        All-keep
          (IsClean seal unseal dumps loads plain_text strip lower patterns infer_subject opens
            reads)
          (λ r. not (in_session r)) m.rows h

    -- Whatever is remembered, updated, pinned, forgotten, purged or ended, without the bypass that is
    -- kept for the hints of the vault: a memory whose contents do not look like secrets stays so.
    pub run-AreClean :
        (cs : List Call) (m : MemoryService C)
        → AreClean seal unseal dumps loads plain_text strip lower patterns infer_subject opens reads
            m
        → AreClean seal unseal dumps loads plain_text strip lower patterns infer_subject opens reads
            (run cs m)
    unfolding run
    run-AreClean [] m h = h
    run-AreClean (c ∷ cs) m h = run-AreClean cs (step c m) (step-AreClean c m h)
