-- ===== src/WebSocket/RoundTrip.antt =====
-- One frame, written and read (core/src/garis/api/websocket.py).
use garis.Base.{
  ℕ, ◌≤◌, ◌<◌, Bool, true, false, Option, none, some, List, [], ◌∷◌, ◌++◌, ◌≡◌, ap, ◌∙◌, subst,
  arith, length, All,
}
use mathlib.Core.List.{append_assoc}
use garis.WebSocket.{
  Read, got, Next, encode_frame, frame_header, read_exactly, unmask, framed, sized, collected,
  max_payload, read_loop, read_frame,
}
use garis.WebSocket.Bytes.{IsByte, unmask-masked, length-masked, masked, read_exactly-append}
use garis.WebSocket.Header.{header, frame_header-header, framed-header}

sized-plain :
    (k : List ℕ → List ℕ → Read) (payload rest : List ℕ)
    → length payload ≤ max_payload
    → sized k false false (length payload) (payload ++ rest) ≡ k payload rest
sized-plain k payload rest h = ground (arith, read_exactly-append payload rest)

-- the frame that a client sends: RFC 6455 wants its payload masked
pub record Fragment : Type 0 where
  pub m0 : ℕ
  pub m1 : ℕ
  pub m2 : ℕ
  pub m3 : ℕ
  pub payload : List ℕ

abbrev pub mask_of : Fragment → List ℕ
mask_of f = f.m0 ∷ f.m1 ∷ f.m2 ∷ f.m3 ∷ []

unfoldable pub client_frame : Bool → ℕ → Fragment → List ℕ
client_frame final op f =
    header final op true (length f.payload) ++ (mask_of f ++ masked f.m0 f.m1 f.m2 f.m3 f.payload)

-- The bytes are bytes, and the payload is within the limit.
abbrev pub IsSendable : Fragment → Type 0
IsSendable f = All IsByte f.payload × (length f.payload ≤ max_payload)

sized-masked :
    (k : List ℕ → List ℕ → Read) (f : Fragment) (rest : List ℕ)
    → IsSendable f
    → sized k true true
        (length f.payload)
        ((mask_of f ++ masked f.m0 f.m1 f.m2 f.m3 f.payload) ++ rest)
      ≡ k f.payload rest
unfolding read_exactly
sized-masked k f rest h =
    let sent = masked f.m0 f.m1 f.m2 f.m3 f.payload in
    let read : read_exactly (length f.payload) (sent ++ rest) ≡ some (sent, rest) =
      subst (λ n. read_exactly n (sent ++ rest) ≡ some (sent, rest))
        (length-masked f.m0 f.m1 f.m2 f.m3 f.payload) (read_exactly-append sent rest) in
    let back : unmask (mask_of f) 0 sent ≡ f.payload = unmask-masked (mask_of f) 0 f.payload h.0 in
    ground (arith, read, back, h.1)

-- One turn of the loop takes one frame of a client.
pub framed-client_frame :
    (next : Next) (opcode : Option ℕ) (chunks : List ℕ) (final : Bool) (op : ℕ) (f : Fragment)
    (rest : List ℕ)
    → op < 16
    → IsSendable f
    → framed next true opcode chunks (client_frame final op f ++ rest)
      ≡ collected next final op opcode chunks f.payload rest
unfolding client_frame
framed-client_frame next opcode chunks final op f rest h s =
    ap (framed next true opcode chunks)
      (append_assoc (header final op true (length f.payload)) _ rest)
    ∙ (framed-header next true opcode chunks final true op (length f.payload) _ h s.1
        ∙ sized-masked (collected next final op opcode chunks) f rest s)

-- A frame that the server encodes is read back by a reader that expects no mask, with what follows it
-- left in the stream, if its payload is within the limit and its opcode one of the 15 that start a
-- message.
pub read_frame-encode_frame :
    (payload rest : List ℕ) (opcode : ℕ)
    → 0 < opcode
    → opcode < 16
    → length payload ≤ max_payload
    → read_frame false (encode_frame payload opcode ++ rest)
      ≡ got (record { opcode = opcode; payload = payload }) rest
unfolding read_frame encode_frame
read_frame-encode_frame payload rest opcode pos h m =
    let next =
      read_loop (length ((frame_header opcode (length payload) ++ payload) ++ rest)) false in
    ap (framed next false none []) (
      append_assoc (frame_header opcode (length payload)) payload rest
      ∙ ap (λ bs. bs ++ (payload ++ rest)) (frame_header-header opcode (length payload)))
    ∙ (framed-header next false none [] true false opcode (length payload) (payload ++ rest) h m
        ∙ (sized-plain (collected next true opcode none []) payload rest m ∙ ground arith))
