-- ===== src/WebSocket/Bytes.antt =====
-- Bytes, their masks and numbers in network order (core/src/garis/api/websocket.py).
use garis.Base.{
  ℕ, zero, suc, ◌+◌, ◌*◌, ◌/◌, ◌%◌, ◌^◌, ◌≤◌, ◌<◌, some, List, [], ◌∷◌, ◌++◌, ◌≡◌, refl, ap, ◌∙◌,
  arith, length, All,
}
use native.Mathlib.Nat.{pow-succ'}
use garis.WebSocket.{xor, pack, unpack, read_exactly, unmask, mask_at, max_payload}

two_pow : (k : ℕ) → 2 ^ suc k ≡ 2 * 2 ^ k
two_pow k = pow-succ' 2 k

half : (k a : ℕ) → a < 2 ^ suc k → a / 2 < 2 ^ k
half k a h = omega (arith, two_pow k)

-- To mask twice with one mask changes nothing.
xor-xor : (k a m : ℕ) → a < 2 ^ k → xor k (xor k a m) m ≡ a
unfolding xor
xor-xor zero a m h = omega (arith, h)
xor-xor (suc k) a m h =
    let y = xor k (a / 2) (m / 2) in
    let x = (a % 2 + m % 2) % 2 + 2 * y in
    let e : x / 2 ≡ y = omega arith in
    ap (λ z. (x % 2 + m % 2) % 2 + 2 * xor k z (m / 2)) e
    ∙ omega (arith, xor-xor k (a / 2) (m / 2) (half k a h))

abbrev pub IsByte : ℕ → Type 0
IsByte b = b < 256

-- RFC 6455: byte number i of a payload is combined with byte i mod 4 of the mask.
unfoldable pub masked : ℕ → ℕ → ℕ → ℕ → List ℕ → List ℕ
masked m0 m1 m2 m3 [] = []
masked m0 m1 m2 m3 (b ∷ bytes) = xor 8 b m0 ∷ masked m1 m2 m3 m0 bytes

pub unmask-masked :
    (mask : List ℕ) (i : ℕ) (bytes : List ℕ)
    → All IsByte bytes
    → unmask mask i (
        masked
          (mask_at mask (i % 4))
          (mask_at mask ((i + 1) % 4))
          (mask_at mask ((i + 2) % 4))
          (mask_at mask ((i + 3) % 4))
          bytes)
      ≡ bytes
unfolding unmask masked
unmask-masked mask i [] h = refl
unmask-masked mask i (b ∷ bytes) h =
    let m : ℕ → ℕ = λ j. mask_at mask (j % 4) in
    let two : (i + 1 + 1) % 4 ≡ (i + 2) % 4 = omega arith in
    let three : (i + 1 + 2) % 4 ≡ (i + 3) % 4 = omega arith in
    let turn : (i + 1 + 3) % 4 ≡ i % 4 = omega arith in
    let rest : unmask mask (i + 1) (masked (m (i + 1)) (m (i + 2)) (m (i + 3)) (m i) bytes)
        ≡ bytes =
      rw (two, three, turn) at (unmask-masked mask (i + 1) bytes h.1) in
    ground (arith, xor-xor 8 b (m i) h.0, rest)

pub length-masked :
    (m0 m1 m2 m3 : ℕ) (bytes : List ℕ) → length (masked m0 m1 m2 m3 bytes) ≡ length bytes
unfolding masked
length-masked m0 m1 m2 m3 [] = refl
length-masked m0 m1 m2 m3 (b ∷ bytes) = ap suc (length-masked m1 m2 m3 m0 bytes)

pub read_exactly-append :
    (xs rest : List ℕ) → read_exactly (length xs) (xs ++ rest) ≡ some (xs, rest)
unfolding read_exactly
read_exactly-append [] rest = refl
read_exactly-append (x ∷ xs) rest = ground (arith, read_exactly-append xs rest)

pub length-pack : (k n : ℕ) → length (pack k n) ≡ k
unfolding pack
length-pack zero n = refl
length-pack (suc k) n = ap suc (length-pack k n)

pub unpack-pack_two : (n : ℕ) → n < 65536 → unpack 0 (pack 2 n) ≡ n
unfolding pack unpack
unpack-pack_two n h = omega arith

pub unpack-pack_eight : (n : ℕ) → n ≤ max_payload → unpack 0 (pack 8 n) ≡ n
unfolding pack unpack
unpack-pack_eight n h = omega arith
