-- ===== src/WebSocket/Header.antt =====
-- The header of a frame, written and read (core/src/garis/api/websocket.py).
use garis.Base.{
  ℕ, ◌+◌, ◌%◌, ◌≤◌, ◌<◌, Bool, true, false, Option, List, [], ◌∷◌, ◌++◌, ◌≡◌, refl, ap, ◌∙◌, arith,
  leb, ltb, if◌then◌else◌, Bool-cases, inl, inr,
}
use garis.WebSocket.{
  Read, Next, pack, frame_header, read_exactly, framed, measured, sized, collected, max_payload,
}
use garis.WebSocket.Bytes.{unpack-pack_two, unpack-pack_eight}

abbrev pub top : Bool → ℕ
top b = if b then 128 else 0

-- The header that RFC 6455 gives a frame: its last-fragment bit, opcode, mask bit and payload length.
unfoldable pub header : Bool → ℕ → Bool → ℕ → List ℕ
header final op masked n =
    if ltb n 126
    then (top final + op) ∷ (top masked + n) ∷ []
    else if ltb n 65536
    then (top final + op) ∷ (top masked + 126) ∷ pack 2 n
    else (top final + op) ∷ (top masked + 127) ∷ pack 8 n

pub frame_header-header : (op n : ℕ) → frame_header op n ≡ header true op false n
unfolding frame_header header
frame_header-header op n = ground arith

module _ (b : Bool) (n : ℕ) where
  top_read : n < 128 → (leb 128 (top b + n) ≡ b) × ((top b + n) % 128 ≡ n)
  top_read h = ground arith

  top_opcode : n < 16 → (leb 128 (top b + n) ≡ b) × ((top b + n) % 16 ≡ n)
  top_opcode h = ground arith

module _ (k : List ℕ → List ℕ → Read) (expect_mask masked : Bool) (rest : List ℕ) where
  measured_short :
      (n : ℕ) → n < 126 → measured k expect_mask masked n rest ≡ sized k expect_mask masked n rest
  measured_short n h = ground arith

  measured_two :
      (n : ℕ)
      → n < 65536
      → measured k expect_mask masked 126 (pack 2 n ++ rest) ≡ sized k expect_mask masked n rest
  unfolding read_exactly pack
  measured_two n h = ap (λ m. sized k expect_mask masked m rest) (unpack-pack_two n h)

  measured_eight :
      (n : ℕ)
      → n ≤ max_payload
      → measured k expect_mask masked 127 (pack 8 n ++ rest) ≡ sized k expect_mask masked n rest
  unfolding read_exactly pack
  measured_eight n h = ap (λ m. sized k expect_mask masked m rest) (unpack-pack_eight n h)

module _ (next : Next) (expect_mask : Bool) (opcode : Option ℕ) (chunks : List ℕ)
    (final masked : Bool) (op n : ℕ) (rest : List ℕ) where
  two_bytes :
      (l : ℕ) (more : List ℕ)
      → op < 16
      → l < 128
      → framed next expect_mask opcode chunks ((top final + op) ∷ (top masked + l) ∷ more)
        ≡ measured (collected next final op opcode chunks) expect_mask masked l more
  two_bytes l more h g =
      let (a, b) = top_opcode final op h in let (c, d) = top_read masked l g in rw (a, b, c, d) refl

  -- A header read from the stream gives the bits, the opcode and the length that it was made of.
  pub framed-header :
      op < 16
      → n ≤ max_payload
      → framed next expect_mask opcode chunks (header final op masked n ++ rest)
        ≡ sized (collected next final op opcode chunks) expect_mask masked n rest
  unfolding header
  framed-header h m =
      let k = collected next final op opcode chunks in
      elim (Bool-cases (ltb n 126)) [
        | inl e ↦ rw e (
            two_bytes n rest h (ground arith)
            ∙ measured_short k expect_mask masked rest n (ground arith))
        | inr e ↦ elim (Bool-cases (ltb n 65536)) [
          | inl f ↦
              rw (e, f)
                (two_bytes 126 (pack 2 n ++ rest) h (omega arith)
                  ∙ measured_two k expect_mask masked rest n (ground arith))
          | inr f ↦
              rw (e, f)
                (two_bytes 127 (pack 8 n ++ rest) h (omega arith)
                  ∙ measured_eight k expect_mask masked rest n m)
        ]
      ]
