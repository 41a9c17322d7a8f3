-- ===== src/Memory/Recall.antt =====
-- What was remembered is found again, until it is forgotten (core/src/garis/memory.py).
use garis.Base.{
  ℕ, ◌+◌, String, Bool, Option, none, some, ◌==◌, ◌≡◌, ◌∙◌, refl, ap, arith, eq_refl, ◌&&◌, not,
  Bool-cases, inl, inr,
}
use garis.Rows
use garis.Rows.{find-insert}
use garis.Vault.{encrypt, decrypt}
use garis.Memory.{
  MemoryService, MemoryRecord, Envelope, Details, Change, Outcome, is_record, found_record, id_of,
  looks_like_secret, notify, payload_of, decode, row_of, new_record, remember, found_row, get,
  remembered,
}

module _ {T C : Type 0} (seal : ℕ → T → String → C) (unseal : ℕ → C → String → Option T)
    (dumps : Envelope → T) (loads : T → Option Envelope) (plain_text : T → String)
    (strip lower : String → String) (patterns : String → Bool) (infer_subject : String → String)
    (opens : (n : ℕ) (t : T) (c : String) → unseal n (seal n t c) c ≡ some t)
    (reads : (e : Envelope) → loads (dumps e) ≡ some e) where
  rows-notify : (x : Change) (m : MemoryService C) → (notify x m).rows ≡ m.rows
  rows-notify x m = elim (Bool-cases m.has_bus) [ inl e ↦ rw e refl | inr e ↦ rw e refl ]

  found-row_of :
      (content id : String) (d : Details) (now nonce : ℕ)
      → found_row seal unseal dumps loads plain_text strip lower patterns infer_subject (
          some (
            row_of seal unseal dumps loads plain_text strip lower patterns infer_subject nonce (
              new_record seal unseal dumps loads plain_text strip lower patterns infer_subject id
                content d now)))
        ≡ found_record (
            new_record seal unseal dumps loads plain_text strip lower patterns infer_subject id
              content d now)
  unfolding decode encrypt decrypt
  found-row_of content id d now nonce =
      let r =
        new_record seal unseal dumps loads plain_text strip lower patterns infer_subject id content
          d now in
      rw (opens nonce (dumps (payload_of r)) id, reads (payload_of r)) refl

  -- What `remember` returns is what `get` finds under the new id, which no row had before.
  pub get-remember :
      (content id : String) (bypass : Bool) (d : Details) (now : ℕ) (m : MemoryService C)
      (r : MemoryRecord)
      → Rows.find id_of m.rows id ≡ none
      → (remember seal unseal dumps loads plain_text strip lower patterns infer_subject content id
          bypass d now m).0
        ≡ is_record r
      → get seal unseal dumps loads plain_text strip lower patterns infer_subject id
          (remember seal unseal dumps loads plain_text strip lower patterns infer_subject content id
            bypass d now m).1
        ≡ found_record r
  unfolding remember get
  get-remember content id bypass d now m r free h = elim (Bool-cases (strip content == "")) [
    | inl b ↦ absurd (let no : Outcome.is_empty ≡ is_record r = rw b at h in cc)
    | inr b ↦ elim (Bool-cases (not bypass && looks_like_secret patterns (strip content))) [
      | inl c ↦ absurd (let no : Outcome.is_secret ≡ is_record r = rw (b, c) at h in cc)
      | inr c ↦
          let new =
            new_record seal unseal dumps loads plain_text strip lower patterns infer_subject id
              (strip content) d now in
          let row =
            row_of seal unseal dumps loads plain_text strip lower patterns infer_subject m.nonces
              new in
          let next = record m { rows = Rows.insert id_of m.rows row; nonces = m.nonces + 1 } in
          let same : is_record new ≡ is_record r = rw (b, c) at h in
          let there : Rows.find id_of (notify (remembered id) next).rows id ≡ some row =
            ap (λ rows. Rows.find id_of rows id) (rows-notify (remembered id) next)
            ∙ ground (arith, find-insert id_of m.rows row id, free, eq_refl id) in
          rw (b, c)
            (ap (found_row seal unseal dumps loads plain_text strip lower patterns infer_subject)
                there
              ∙ (found-row_of (strip content) id d now m.nonces
                  ∙ ap found_record (ground (arith, same))))
    ]
  ]
