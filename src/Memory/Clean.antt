-- ===== src/Memory/Clean.antt =====
-- No content that looks like a secret is kept (core/src/garis/memory.py).
use garis.Base.{
  ℕ, ◌+◌, String, Bool, true, false, Option, none, some, List, [], ◌∷◌, ◌++◌, keep, All, ◌==◌, ◌≡◌,
  ◌∙◌, refl, sym, ap, subst, arith, eq_iff, not, Bool-cases, inl, inr,
}
use garis.Rows
use garis.Vault.{encrypt, decrypt}
use garis.Memory.{
  MemoryService, MemoryRecord, Row, Envelope, Details, Changes, Change, Found, no_row, locked_row,
  found_record, id_of, looks_like_secret, notify, envelope_of, payload_of, opened_row, decode,
  sealed, row_of, new_record, remember, found_row, get, with_content, changed, refuses, rewritten,
  stored, update_found, update, forget_found, forget, remembered, updated, forgotten,
}

module _ {A : Type 0} (P : A → Type 0) where
  All-append : (xs : List A) (x : A) → All P xs → P x → All P (xs ++ x ∷ [])
  All-append [] x h p = (p, tt)
  All-append (y ∷ ys) x h p = (h.0, All-append ys x h.1 p)

  pub All-keep : (p : A → Bool) (xs : List A) → All P xs → All P (keep p xs)
  All-keep p [] h = tt
  All-keep p (x ∷ xs) h = kept (p x) (All-keep p xs h.1)
    where
      kept :
          (b : Bool)
          → All P (keep p xs)
          → All P (elim b [ true ↦ x ∷ keep p xs | false ↦ keep p xs ])
      kept true rest = (h.0, rest)
      kept false rest = rest

  All-find :
      (id : A → String) (xs : List A) (k : String) (x : A)
      → All P xs
      → Rows.find id xs k ≡ some x
      → P x
  unfolding Rows.find
  All-find id [] k x h e = absurd (cc)
  All-find id (y ∷ ys) k x h e = elim (Bool-cases (id y == k)) [
    | inl b ↦
        let here : some y ≡ some x = rw b at e in
        let same : y ≡ x = ground (arith, here) in subst P same h.0
    | inr b ↦ All-find id ys k x h.1 (rw b at e)
  ]

  All-update :
      (id : A → String) (xs : List A) (k : String) (f : A → A)
      → All P xs
      → ((x : A) → id x ≡ k → P (f x))
      → All P (Rows.update id xs k f)
  unfolding Rows.update
  All-update id [] k f h g = tt
  All-update id (y ∷ ys) k f h g = (
    elim (Bool-cases (id y == k)) [
      | inl b ↦ rw b (g y (ground (arith, b, eq_iff (id y) k)))
      | inr b ↦ rw b h.0
    ],
    All-update id ys k f h.1 g,
  )

module _ {T C : Type 0} (seal : ℕ → T → String → C) (unseal : ℕ → C → String → Option T)
    (dumps : Envelope → T) (loads : T → Option Envelope) (plain_text : T → String)
    (strip lower : String → String) (patterns : String → Bool) (infer_subject : String → String)
    (opens : (n : ℕ) (t : T) (c : String) → unseal n (seal n t c) c ≡ some t)
    (reads : (e : Envelope) → loads (dumps e) ≡ some e) where
  abbrev leaks : Option MemoryRecord → Bool
  leaks none = false
  leaks (some r) = looks_like_secret patterns r.content

  -- A row that opens has a content that does not look like a secret.
  abbrev pub IsClean : Row C → Type 0
  IsClean row =
      leaks (decode seal unseal dumps loads plain_text strip lower patterns infer_subject row)
      ≡ false

  -- what a row that was sealed for its own id says
  decode-sealed :
      (row : Row C) (nonce : ℕ) (r : MemoryRecord)
      → row.id ≡ r.id
      → leaks (
          opened_row loads plain_text row (
            decrypt unseal
              (sealed seal unseal dumps loads plain_text strip lower patterns infer_subject nonce r)
              row.id))
        ≡ looks_like_secret patterns r.content
  unfolding encrypt decrypt
  decode-sealed row nonce r e =
      let text = dumps (payload_of r) in
      let open_it : unseal nonce (seal nonce text r.id) row.id ≡ some text =
        ap (unseal nonce (seal nonce text r.id)) e ∙ opens nonce text r.id in
      ap (λ o. leaks (opened_row loads plain_text row o)) open_it
      ∙ ap (λ o. looks_like_secret patterns (envelope_of plain_text text o).content)
          (reads (payload_of r))

  rows-notify : (x : Change) (m : MemoryService C) → (notify x m).rows ≡ m.rows
  rows-notify x m = elim (Bool-cases m.has_bus) [ inl e ↦ rw e refl | inr e ↦ rw e refl ]

  abbrev pub AreClean : MemoryService C → Type 0
  AreClean m = All IsClean m.rows

  notify-AreClean : (x : Change) (m : MemoryService C) → AreClean m → AreClean (notify x m)
  notify-AreClean x m h = subst (All IsClean) (sym (rows-notify x m)) h

  pub remember-AreClean :
      (content id : String) (d : Details) (now : ℕ) (m : MemoryService C)
      → AreClean m
      → AreClean
          (remember seal unseal dumps loads plain_text strip lower patterns infer_subject content id
            false d now m).1
  unfolding remember decode
  remember-AreClean content id d now m h = elim (Bool-cases (strip content == "")) [
    | inl b ↦ rw b h
    | inr b ↦ elim (Bool-cases (looks_like_secret patterns (strip content))) [
      | inl c ↦ rw (b, c) h
      | inr c ↦
          let r =
            new_record seal unseal dumps loads plain_text strip lower patterns infer_subject id
              (strip content) d now in
          let row =
            row_of seal unseal dumps loads plain_text strip lower patterns infer_subject m.nonces
              r in
          let next = record m { rows = Rows.insert id_of m.rows row; nonces = m.nonces + 1 } in
          rw (b, c)
            (notify-AreClean (remembered id) next
              (All-append IsClean m.rows row h (decode-sealed row m.nonces r refl ∙ c)))
    ]
  ]

  stored-AreClean :
      (r : MemoryRecord) (m : MemoryService C)
      → looks_like_secret patterns r.content ≡ false
      → AreClean m
      → AreClean
          (stored seal unseal dumps loads plain_text strip lower patterns infer_subject r m).1
  unfolding decode
  stored-AreClean r m c h =
      let f =
        rewritten seal unseal dumps loads plain_text strip lower patterns infer_subject m.nonces
          r in
      let next = record m { rows = Rows.update id_of m.rows r.id f; nonces = m.nonces + 1 } in
      notify-AreClean (updated r.id) next
        (All-update IsClean id_of m.rows r.id f h (λ row e. decode-sealed (f row) m.nonces r e ∙ c))

  found-clean :
      (id : String) (m : MemoryService C) (r : MemoryRecord)
      → AreClean m
      → get seal unseal dumps loads plain_text strip lower patterns infer_subject id m
        ≡ found_record r
      → looks_like_secret patterns r.content ≡ false
  unfolding get
  found-clean id m r h e = by_row (Rows.find id_of m.rows id) refl e
    where
      by_row :
          (o : Option (Row C))
          → Rows.find id_of m.rows id ≡ o
          → found_row seal unseal dumps loads plain_text strip lower patterns infer_subject o
            ≡ found_record r
          → looks_like_secret patterns r.content ≡ false
      by_row none f g = absurd (cc)
      by_row (some row) f g =
          by_record
            (decode seal unseal dumps loads plain_text strip lower patterns infer_subject row)
            (All-find IsClean id_of m.rows id row h f) g
        where
          by_record :
              (o : Option MemoryRecord)
              → leaks o ≡ false
              → elim o [ none ↦ locked_row | some x ↦ found_record x ] ≡ found_record r
              → looks_like_secret patterns r.content ≡ false
          by_record none p q = absurd (cc)
          by_record (some x) p q = ground (arith, p, q)

  pub update-AreClean :
      (id : String) (c : Changes) (now : ℕ) (m : MemoryService C)
      → AreClean m
      → AreClean
          (update seal unseal dumps loads plain_text strip lower patterns infer_subject id c now
            m).1
  unfolding update
  update-AreClean id c now m h =
      by_found (get seal unseal dumps loads plain_text strip lower patterns infer_subject id m) refl
    where
      content_clean :
          (o : Option String) (r : MemoryRecord)
          → refuses seal unseal dumps loads plain_text strip lower patterns infer_subject o ≡ false
          → looks_like_secret patterns r.content ≡ false
          → looks_like_secret patterns
              (with_content seal unseal dumps loads plain_text strip lower patterns infer_subject o
                r).content
            ≡ false
      content_clean none r p q = q
      content_clean (some content) r p q = p

      by_found :
          (x : Found)
          → get seal unseal dumps loads plain_text strip lower patterns infer_subject id m ≡ x
          → AreClean
              (update_found seal unseal dumps loads plain_text strip lower patterns infer_subject c
                now x m).1
      by_found no_row e = h
      by_found locked_row e = h
      by_found (found_record r) e =
          elim (Bool-cases (
            refuses seal unseal dumps loads plain_text strip lower patterns infer_subject
              c.content)) [
                | inl b ↦ rw b h
                | inr b ↦ rw b (
                    stored-AreClean
                      (changed seal unseal dumps loads plain_text strip lower patterns infer_subject
                        c now r)
                      m (content_clean c.content r b (found-clean id m r h e)) h)
              ]

  pub forget-AreClean :
      (id : String) (m : MemoryService C)
      → AreClean m
      → AreClean
          (forget seal unseal dumps loads plain_text strip lower patterns infer_subject id m).1
  unfolding forget
  forget-AreClean id m h =
      by_found (get seal unseal dumps loads plain_text strip lower patterns infer_subject id m)
    where
      by_found :
          (x : Found)
          → AreClean
              (forget_found seal unseal dumps loads plain_text strip lower patterns infer_subject id
                x m).1
      by_found no_row = h
      by_found locked_row = h
      by_found (found_record r) =
          notify-AreClean (forgotten id) (record m { rows = keep (λ x. not (x.id == id)) m.rows })
            (All-keep IsClean (λ x. not (x.id == id)) m.rows h)
