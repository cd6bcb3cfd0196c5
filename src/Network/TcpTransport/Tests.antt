-- ===== src/Network/TcpTransport/Tests.antt =====
-- The read loop at frames of five and of seven bytes, and at one longer than the buffer.
use goblockchain.Base.{
  ℕ, ◌≡◌, refl, List, [], ◌∷◌, ◌++◌, ok, panic, Panic, arith, length, take, replicate,
  length-replicate, ◌>>◌,
}
use goblockchain.Network.Envelope.{encode_envelope, new_tcp_envelope}
use goblockchain.Network.TcpTransport.{Reading, Queued, read_round, content_of, Conn, send_on}
use goblockchain.Network.TcpTransport.Delivery.{
  Buffers, Delivered, send_on-Delivered, content_of_overwritten, read_round_too_long,
}

abbrev fresh_conn : Conn
fresh_conn = record { local_addr = 65 ∷ []; remote_addr = 66 ∷ []; written = [] }

-- The variables of `read` before the first round, with this to read.
abbrev start : List ℕ → Reading
start input = record { buf = replicate 65536 0; len_buf = replicate 4 0; input = input; recv = [] }

start-Buffers : (input : List ℕ) → Buffers (start input)
start-Buffers input = (length-replicate {A = ℕ} 65536 0, length-replicate {A = ℕ} 4 0)

abbrev two_frames : List ℕ
two_frames =
    encode_envelope (new_tcp_envelope (65 ∷ []) (1 ∷ 2 ∷ []))
    ++ (encode_envelope (new_tcp_envelope (65 ∷ []) (7 ∷ 8 ∷ 9 ∷ [])) ++ [])

abbrev hello : List ℕ
hello = (send_on (65 ∷ []) (1 ∷ 2 ∷ []) fresh_conn).written ++ (4 ∷ [])

send_on-Delivered_example :
    (s' : Reading) × (read_round 4 (start hello) ≡ (ok tt, s'))
    × Delivered (65 ∷ []) (1 ∷ 2 ∷ []) (4 ∷ []) (start hello) s'
send_on-Delivered_example =
    send_on-Delivered (65 ∷ []) (1 ∷ 2 ∷ []) (4 ∷ []) fresh_conn (start hello) refl refl
      (start-Buffers hello) (omega arith)

content_of_overwritten_example :
    (s' : Reading) × (q : Queued) × (q' : Queued) × ((read_round 4 >> read_round 4)
        (start two_frames)
      ≡ (ok tt, s'))
    × (s'.recv ≡ ([] ++ (q ∷ [])) ++ (q' ∷ []))
    × (q.count ≡ 2)
    × (content_of s' q ≡ take 2 (7 ∷ 8 ∷ 9 ∷ []))
content_of_overwritten_example =
    content_of_overwritten (65 ∷ []) (1 ∷ 2 ∷ []) (7 ∷ 8 ∷ 9 ∷ []) [] (start two_frames) refl
      (start-Buffers two_frames) (omega arith) (omega arith)

abbrev long_payload : List ℕ
long_payload = replicate 70000 1

abbrev long_frame : List ℕ
long_frame = encode_envelope (new_tcp_envelope (65 ∷ []) long_payload) ++ []

long_length : length long_payload ≡ 70000
long_length = length-replicate {A = ℕ} 70000 1

read_round_too_long_example : (read_round 4 (start long_frame)).0 ≡ panic Panic.index_out_of_range
read_round_too_long_example =
    read_round_too_long (65 ∷ []) long_payload [] (start long_frame) refl (start-Buffers long_frame)
      (omega (arith, long_length)) (omega (arith, long_length))
