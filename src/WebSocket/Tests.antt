-- ===== src/WebSocket/Tests.antt =====
-- Frames of the WebSocket at concrete bytes.
use garis.Base.{◌≡◌, refl, true, false, [], ◌∷◌, ◌++◌, arith}
use garis.WebSocket.{encode_frame, read_frame, got, closed, incomplete, refused, not_masked}
use garis.WebSocket.RoundTrip.{Fragment, client_frame, read_frame-encode_frame}
use garis.WebSocket.Fragments.{stream, read_frame-stream, read_frame_interleaved}

abbrev hello : Fragment
hello = record { m0 = 1; m1 = 2; m2 = 3; m3 = 4; payload = 104 ∷ 101 ∷ 108 ∷ 108 ∷ 111 ∷ [] }

abbrev again : Fragment
again = record { m0 = 9; m1 = 8; m2 = 7; m3 = 6; payload = 33 ∷ [] }

encode_frame_hi : encode_frame (104 ∷ 105 ∷ []) 1 ≡ 129 ∷ 2 ∷ 104 ∷ 105 ∷ []
unfolding encode_frame
encode_frame_hi = refl

read_frame_empty : read_frame true [] ≡ closed
unfolding read_frame
read_frame_empty = refl

read_frame_cut : read_frame true (129 ∷ 133 ∷ 1 ∷ []) ≡ incomplete
unfolding read_frame
read_frame_cut = refl

read_frame_plain : read_frame true (129 ∷ 1 ∷ 104 ∷ []) ≡ refused not_masked
unfolding read_frame
read_frame_plain = refl

read_frame-encode_frame_example :
    read_frame false (encode_frame (104 ∷ 105 ∷ []) 1 ++ 136 ∷ [])
    ≡ got (record { opcode = 1; payload = 104 ∷ 105 ∷ [] }) (136 ∷ [])
read_frame-encode_frame_example =
    read_frame-encode_frame (104 ∷ 105 ∷ []) (136 ∷ []) 1 (omega arith) (omega arith) (omega arith)

read_frame-stream_example :
    read_frame true (stream 1 hello (again ∷ []) (136 ∷ []))
    ≡ got (record { opcode = 1; payload = 104 ∷ 101 ∷ 108 ∷ 108 ∷ 111 ∷ 33 ∷ [] }) (136 ∷ [])
read_frame-stream_example =
    read_frame-stream 1 hello (again ∷ []) (136 ∷ []) (omega arith) (omega arith) (ground arith)
      (ground arith)

read_frame_interleaved_example :
    read_frame true (client_frame false 1 hello ++ (client_frame true 9 again ++ []))
    ≡ got (record { opcode = 9; payload = 104 ∷ 101 ∷ 108 ∷ 108 ∷ 111 ∷ 33 ∷ [] }) []
read_frame_interleaved_example =
    read_frame_interleaved 1 9 hello again [] (omega arith) (omega arith) (omega arith)
      (ground arith) (ground arith)
