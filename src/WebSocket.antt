-- ===== src/WebSocket.antt =====
-- Frames of the WebSocket: core/src/garis/api/websocket.py.
-- A byte is a number. The stream is the bytes that come before the peer hangs up; what is left of it is
-- returned with a frame. `|` and `&` with the masks of a header are written as sums and remainders.
pub mod Bytes
pub mod Header
pub mod RoundTrip
pub mod Fragments
pub mod Fuel
mod Tests
use garis.Base.{
  ℕ, zero, suc, ◌+◌, ◌*◌, ◌/◌, ◌%◌, ◌^◌, Bool, true, false, Option, none, some, List, [], ◌∷◌, ◌++◌,
  length, leb, ltb, nat_eq, not, ◌&&◌, if◌then◌else◌,
}

abbrev pub op_text : ℕ
op_text = 1

abbrev pub op_close : ℕ
op_close = 8

-- MAX_PAYLOAD, 1 << 20
abbrev pub max_payload : ℕ
max_payload = 1048576

-- `a ^ b` on `k` bits
unfoldable pub xor : ℕ → ℕ → ℕ → ℕ
xor zero a b = 0
xor (suc k) a b = (a % 2 + b % 2) % 2 + 2 * xor k (a / 2) (b / 2)

-- `struct.pack` of an unsigned number in network order, on `k` bytes
unfoldable pub pack : ℕ → ℕ → List ℕ
pack zero n = []
pack (suc k) n = n / 256 ^ k % 256 ∷ pack k n

-- `struct.unpack`, after the digits in front
unfoldable pub unpack : ℕ → List ℕ → ℕ
unpack n [] = n
unpack n (b ∷ bs) = unpack (n * 256 + b) bs

unfoldable pub frame_header : ℕ → ℕ → List ℕ
unfolding pack
frame_header opcode n =
    if ltb n 126
    then (128 + opcode) ∷ n ∷ []
    else if ltb n 65536
    then (128 + opcode) ∷ 126 ∷ pack 2 n
    else (128 + opcode) ∷ 127 ∷ pack 8 n

unfoldable pub encode_frame : List ℕ → ℕ → List ℕ
unfolding frame_header
encode_frame payload opcode = frame_header opcode (length payload) ++ payload

-- `encode_close`, on the bytes of the reason
unfoldable pub encode_close : ℕ → List ℕ → List ℕ
unfolding encode_frame pack
encode_close code reason = encode_frame (pack 2 code ++ reason) op_close

pub record Frame : Type 0 where
  pub opcode : ℕ
  pub payload : List ℕ

unfoldable pub is_close : Frame → Bool
is_close f = nat_eq f.opcode op_close

pub data Refusal : Type 0 where
  too_long not_masked is_masked : Refusal

-- a frame and the rest of the stream; a clean end; a `ProtocolError`; an `IncompleteReadError`
pub data Read : Type 0 where
  got : Frame → List ℕ → Read
  closed : Read
  refused : Refusal → Read
  incomplete : Read
  no_fuel : Read

-- `readexactly`
unfoldable pub read_exactly : ℕ → List ℕ → Option (List ℕ × List ℕ)
read_exactly zero bytes = some ([], bytes)
read_exactly (suc n) [] = none
read_exactly (suc n) (b ∷ bytes) =
    let rest = read_exactly n bytes in
    elim rest [ none ↦ none | some (xs, left) ↦ some (b ∷ xs, left) ]

-- the byte of the mask at `i`
abbrev pub mask_at : List ℕ → ℕ → ℕ
mask_at [] i = 0
mask_at (m ∷ ms) zero = m
mask_at (m ∷ ms) (suc i) = mask_at ms i

-- `byte ^ mask[i % 4]`, from index `i` on
unfoldable pub unmask : List ℕ → ℕ → List ℕ → List ℕ
unfolding xor
unmask mask i [] = []
unmask mask i (b ∷ bytes) = xor 8 b (mask_at mask (i % 4)) ∷ unmask mask (i + 1) bytes

-- how the loop goes on: the opcode and the chunks so far, and the stream
abbrev pub Next : Type 0
Next = Option ℕ → List ℕ → List ℕ → Read

abbrev opcode_after : ℕ → Option ℕ → Option ℕ
opcode_after this op = if nat_eq this 0 then op else some this

abbrev or_text : Option ℕ → ℕ
or_text none = op_text
or_text (some op) = op

-- the payload of one frame is there
abbrev pub collected : Next → Bool → ℕ → Option ℕ → List ℕ → List ℕ → List ℕ → Read
collected next final this op chunks payload rest =
    if final
    then got (record { opcode = or_text (opcode_after this op); payload = chunks ++ payload }) rest
    else next (opcode_after this op) (chunks ++ payload) rest

abbrev pub unmasked : (List ℕ → List ℕ → Read) → List ℕ → Option (List ℕ × List ℕ) → Read
unmasked k mask none = incomplete
unmasked k mask (some (raw, rest)) = k (unmask mask 0 raw) rest

abbrev pub with_mask : (List ℕ → List ℕ → Read) → ℕ → Option (List ℕ × List ℕ) → Read
with_mask k n none = incomplete
with_mask k n (some (mask, rest)) = unmasked k mask (read_exactly n rest)

abbrev pub plain : (List ℕ → List ℕ → Read) → Option (List ℕ × List ℕ) → Read
plain k none = incomplete
plain k (some (raw, rest)) = k raw rest

-- the length of the payload is known
abbrev pub sized : (List ℕ → List ℕ → Read) → Bool → Bool → ℕ → List ℕ → Read
sized k expect_mask masked n rest =
    if ltb max_payload n
    then refused too_long
    else if expect_mask && not masked
    then refused not_masked
    else if not expect_mask && masked
    then refused is_masked
    else if masked
    then with_mask k n (read_exactly 4 rest)
    else plain k (read_exactly n rest)

abbrev pub long_sized : (List ℕ → List ℕ → Read) → Bool → Bool → Option (List ℕ × List ℕ) → Read
long_sized k expect_mask masked none = incomplete
long_sized k expect_mask masked (some (bytes, rest)) =
    sized k expect_mask masked (unpack 0 bytes) rest

abbrev pub measured : (List ℕ → List ℕ → Read) → Bool → Bool → ℕ → List ℕ → Read
measured k expect_mask masked n rest =
    if nat_eq n 126
    then long_sized k expect_mask masked (read_exactly 2 rest)
    else if nat_eq n 127
    then long_sized k expect_mask masked (read_exactly 8 rest)
    else sized k expect_mask masked n rest

-- one turn of the loop
abbrev pub framed : Next → Bool → Option ℕ → List ℕ → List ℕ → Read
framed next expect_mask op chunks [] = closed
framed next expect_mask op chunks (h ∷ []) = incomplete
framed next expect_mask op chunks (h ∷ l ∷ rest) =
    measured (collected next (leb 128 h) (h % 16) op chunks) expect_mask (leb 128 l) (l % 128) rest

unfoldable pub read_loop : ℕ → Bool → Next
unfolding read_exactly unmask unpack
read_loop zero expect_mask op chunks bytes = no_fuel
read_loop (suc fuel) expect_mask op chunks bytes =
    framed (read_loop fuel expect_mask) expect_mask op chunks bytes

-- `read_frame`; a turn takes two bytes at least
unfoldable pub read_frame : Bool → List ℕ → Read
unfolding read_loop
read_frame expect_mask bytes = read_loop (suc (length bytes)) expect_mask none [] bytes
