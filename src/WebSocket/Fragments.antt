-- ===== src/WebSocket/Fragments.antt =====
-- Messages in fragments (core/src/garis/api/websocket.py, `read_frame`).
use garis.Base.{
  ℕ, zero, suc, ◌≤◌, ◌<◌, Bool, true, false, Option, none, List, [], ◌∷◌, ◌++◌, ◌≡◌, ap, ◌∙◌, arith,
  length, length-append, All,
}
use mathlib.Core.List.{append_assoc}
use garis.WebSocket.{got, read_loop, read_frame, opcode_after, or_text}
use garis.WebSocket.Header.{header}
use garis.WebSocket.RoundTrip.{Fragment, client_frame, IsSendable, framed-client_frame}

-- the stream with a message of these fragments in front of `rest`
unfoldable pub stream : ℕ → Fragment → List Fragment → List ℕ → List ℕ
stream op f [] rest = client_frame true op f ++ rest
stream op f (g ∷ gs) rest = client_frame false op f ++ stream 0 g gs rest

abbrev pub message : Fragment → List Fragment → List ℕ
message f [] = f.payload
message f (g ∷ gs) = f.payload ++ message g gs

read_loop-stream :
    (fuel op : ℕ) (f : Fragment) (fs : List Fragment) (rest : List ℕ) (opcode : Option ℕ)
    (chunks : List ℕ)
    → length fs < fuel
    → op < 16
    → IsSendable f
    → All IsSendable fs
    → read_loop fuel true opcode chunks (stream op f fs rest)
      ≡ got
          (record { opcode = or_text (opcode_after op opcode); payload = chunks ++ message f fs })
          rest
unfolding read_loop stream
read_loop-stream zero op f fs rest opcode chunks l h s ss = absurd (omega (arith, l))
read_loop-stream (suc fuel) op f [] rest opcode chunks l h s ss =
    framed-client_frame (read_loop fuel true) opcode chunks true op f rest h s
read_loop-stream (suc fuel) op f (g ∷ gs) rest opcode chunks l h s ss =
    framed-client_frame (read_loop fuel true) opcode chunks false op f (stream 0 g gs rest) h s
    ∙ (read_loop-stream fuel 0 g gs rest (opcode_after op opcode) (chunks ++ f.payload)
          (omega (arith, l)) (omega arith) ss.0 ss.1
        ∙ ap (λ p. got (record { opcode = or_text (opcode_after op opcode); payload = p }) rest)
            (append_assoc chunks f.payload (message g gs)))

frame_is_long : (final : Bool) (op : ℕ) (f : Fragment) → 1 ≤ length (client_frame final op f)
unfolding client_frame header
frame_is_long final op f = ground (arith)

stream_is_long :
    (op : ℕ) (f : Fragment) (fs : List Fragment) (rest : List ℕ)
    → length fs ≤ length (stream op f fs rest)
unfolding stream
stream_is_long op f [] rest = omega arith
stream_is_long op f (g ∷ gs) rest = omega (
  arith,
  length-append (client_frame false op f) (stream 0 g gs rest),
  frame_is_long false op f,
  stream_is_long 0 g gs rest,
)

-- A message that a client sends in any number of masked fragments is read as one frame, with the opcode
-- of its first fragment and the payloads in order, and what follows it is left in the stream.
pub read_frame-stream :
    (op : ℕ) (f : Fragment) (fs : List Fragment) (rest : List ℕ)
    → 0 < op
    → op < 16
    → IsSendable f
    → All IsSendable fs
    → read_frame true (stream op f fs rest)
      ≡ got (record { opcode = op; payload = message f fs }) rest
unfolding read_frame
read_frame-stream op f fs rest pos h s ss =
    read_loop-stream (suc (length (stream op f fs rest))) op f fs rest none []
      (omega (arith, stream_is_long op f fs rest)) h s ss
    ∙ ground arith

read_loop_two :
    (fuel op this : ℕ) (f g : Fragment) (rest : List ℕ)
    → 1 < fuel
    → op < 16
    → this < 16
    → IsSendable f
    → IsSendable g
    → read_loop fuel true none [] (client_frame false op f ++ (client_frame true this g ++ rest))
      ≡ got
          (record {
            opcode = or_text (opcode_after this (opcode_after op none));
            payload = f.payload ++ g.payload;
          })
          rest
unfolding read_loop
read_loop_two zero op this f g rest l h k s t = absurd (omega (arith, l))
read_loop_two (suc zero) op this f g rest l h k s t = absurd (omega (arith, l))
read_loop_two (suc (suc fuel)) op this f g rest l h k s t =
    framed-client_frame (read_loop (suc fuel) true) none [] false op f
      (client_frame true this g ++ rest) h s
    ∙ framed-client_frame (read_loop fuel true) (opcode_after op none) f.payload true this g rest k
        t

-- A control frame between two fragments of a message, which RFC 6455 allows, ends the message: the
-- reader returns one frame with the opcode of the control frame and both payloads run together.
pub read_frame_interleaved :
    (op control : ℕ) (f ping : Fragment) (rest : List ℕ)
    → op < 16
    → 0 < control
    → control < 16
    → IsSendable f
    → IsSendable ping
    → read_frame true (client_frame false op f ++ (client_frame true control ping ++ rest))
      ≡ got (record { opcode = control; payload = f.payload ++ ping.payload }) rest
unfolding read_frame
read_frame_interleaved op control f ping rest h pos g s t =
    let fuel = length (client_frame false op f ++ (client_frame true control ping ++ rest)) in
    read_loop_two (suc fuel) op control f ping rest
      (omega (
        arith,
        length-append (client_frame false op f) (client_frame true control ping ++ rest),
        frame_is_long false op f,
      ))
      h g s t
    ∙ ground (arith, pos)
