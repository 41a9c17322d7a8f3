-- ===== src/WebSocket/Fuel.antt =====
-- The reader comes to an end (core/src/garis/api/websocket.py, `read_frame`).
use garis.Base.{
  ℕ, zero, suc, ◌≤◌, ◌<◌, ◌%◌, Bool, true, false, Option, none, some, List, [], ◌∷◌, ◌++◌, ◌≡◌,
  refl, arith, length, leb, if◌then◌else◌,
}
use garis.WebSocket.{
  Read, no_fuel, read_exactly, unmask, unpack, collected, unmasked, with_mask, plain, sized,
  long_sized, measured, read_loop, read_frame, opcode_after,
}

abbrev pub is_no_fuel : Read → Bool
is_no_fuel no_fuel = true
is_no_fuel _ = false

-- What was read off leaves at most the rest.
abbrev Leaves : ℕ → Option (List ℕ × List ℕ) → Type 0
Leaves n none = Unit
Leaves n (some (xs, rest)) = length rest ≤ n

read_exactly-Leaves : (n : ℕ) (bytes : List ℕ) → Leaves (length bytes) (read_exactly n bytes)
unfolding read_exactly
read_exactly-Leaves zero bytes = omega arith
read_exactly-Leaves (suc n) [] = tt
read_exactly-Leaves (suc n) (b ∷ bytes) =
    cons_Leaves (length bytes) b (read_exactly n bytes) (read_exactly-Leaves n bytes)
  where
    cons_Leaves :
        (m b : ℕ) (o : Option (List ℕ × List ℕ))
        → Leaves m o
        → Leaves (suc m) (elim o [ none ↦ none | some (xs, left) ↦ some (b ∷ xs, left) ])
    cons_Leaves m b none l = tt
    cons_Leaves m b (some (xs, rest)) l = omega (arith, l)

module _ (k : List ℕ → List ℕ → Read) (n : ℕ)
    (ends : (xs rest : List ℕ) → length rest ≤ n → is_no_fuel (k xs rest) ≡ false) where
  plain_ends : (o : Option (List ℕ × List ℕ)) → Leaves n o → is_no_fuel (plain k o) ≡ false
  plain_ends none l = refl
  plain_ends (some (xs, rest)) l = ends xs rest l

  unmasked_ends :
      (mask : List ℕ) (o : Option (List ℕ × List ℕ))
      → Leaves n o
      → is_no_fuel (unmasked k mask o) ≡ false
  unmasked_ends mask none l = refl
  unmasked_ends mask (some (xs, rest)) l = ends (unmask mask 0 xs) rest l

  Leaves-le : (m : ℕ) (o : Option (List ℕ × List ℕ)) → m ≤ n → Leaves m o → Leaves n o
  Leaves-le m none h l = tt
  Leaves-le m (some (xs, rest)) h l = omega (arith, h, l)

  with_mask_ends :
      (m : ℕ) (o : Option (List ℕ × List ℕ)) → Leaves n o → is_no_fuel (with_mask k m o) ≡ false
  with_mask_ends m none l = refl
  with_mask_ends m (some (mask, rest)) l =
      unmasked_ends mask (read_exactly m rest)
        (Leaves-le (length rest) (read_exactly m rest) l (read_exactly-Leaves m rest))

  sized_ends :
      (e masked : Bool) (m : ℕ) (rest : List ℕ)
      → length rest ≤ n
      → is_no_fuel (sized k e masked m rest) ≡ false
  sized_ends e masked m rest l = ground (
    arith,
    with_mask_ends m (read_exactly 4 rest)
        (Leaves-le (length rest) (read_exactly 4 rest) l (read_exactly-Leaves 4 rest)),
    plain_ends (read_exactly m rest)
        (Leaves-le (length rest) (read_exactly m rest) l (read_exactly-Leaves m rest)),
  )

  long_sized_ends :
      (e masked : Bool) (o : Option (List ℕ × List ℕ))
      → Leaves n o
      → is_no_fuel (long_sized k e masked o) ≡ false
  long_sized_ends e masked none l = refl
  long_sized_ends e masked (some (bytes, rest)) l = sized_ends e masked (unpack 0 bytes) rest l

  measured_ends :
      (e masked : Bool) (m : ℕ) (rest : List ℕ)
      → length rest ≤ n
      → is_no_fuel (measured k e masked m rest) ≡ false
  measured_ends e masked m rest l = ground (
    arith,
    long_sized_ends e masked (read_exactly 2 rest)
        (Leaves-le (length rest) (read_exactly 2 rest) l (read_exactly-Leaves 2 rest)),
    long_sized_ends e masked (read_exactly 8 rest)
        (Leaves-le (length rest) (read_exactly 8 rest) l (read_exactly-Leaves 8 rest)),
    sized_ends e masked m rest l,
  )

read_loop_ends :
    (fuel : ℕ) (e : Bool) (op : Option ℕ) (chunks bytes : List ℕ)
    → length bytes < fuel
    → is_no_fuel (read_loop fuel e op chunks bytes) ≡ false
unfolding read_loop
read_loop_ends zero e op chunks bytes h = absurd (omega (arith, h))
read_loop_ends (suc fuel) e op chunks [] h = refl
read_loop_ends (suc fuel) e op chunks (b ∷ []) h = refl
read_loop_ends (suc fuel) e op chunks (b ∷ l ∷ rest) h =
    measured_ends (collected (read_loop fuel e) (leb 128 b) (b % 16) op chunks) (length rest)
      (λ xs left g. if_ends (leb 128 b) _ _ refl (
        read_loop_ends fuel e (opcode_after (b % 16) op) (chunks ++ xs) left (omega (arith, g, h))))
      e (leb 128 l) (l % 128) rest (omega arith)
  where
    if_ends :
        (c : Bool) (x y : Read)
        → is_no_fuel x ≡ false
        → is_no_fuel y ≡ false
        → is_no_fuel (if c then x else y) ≡ false
    if_ends true x y p q = p
    if_ends false x y p q = q

-- Whatever the peer sends, the reader comes to an end: it returns a frame, or that the peer hung up, or
-- it raises.
pub read_frame_ends :
    (expect_mask : Bool) (bytes : List ℕ) → is_no_fuel (read_frame expect_mask bytes) ≡ false
unfolding read_frame
read_frame_ends expect_mask bytes =
    read_loop_ends (suc (length bytes)) expect_mask none [] bytes (omega arith)
