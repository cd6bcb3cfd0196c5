-- ===== src/Network/Tests.antt =====
-- The envelope of network/tcp_envelope.go at a concrete sender and payload.
use goblockchain.Base.{◌≡◌, refl, [], ◌∷◌, ◌++◌, ok, arith, length, drop, panic, Panic}
use goblockchain.Network.Envelope.{
  TcpEnvelope, encode_envelope, decode_envelope, read_u32, put_u32, slice_of,
}
use goblockchain.Network.Envelope.RoundTrip.{decode_envelope-encode_envelope}

abbrev hello : TcpEnvelope
hello = record { sender_id = 65 ∷ 66 ∷ []; payload = 104 ∷ 105 ∷ 33 ∷ [] }

abbrev blank : TcpEnvelope
blank = record { sender_id = []; payload = [] }

encoded :
    encode_envelope hello
    ≡ 13 ∷ 0 ∷ 0 ∷ 0 ∷ 2 ∷ 0 ∷ 0 ∷ 0 ∷ 65 ∷ 66 ∷ 3 ∷ 0 ∷ 0 ∷ 0 ∷ 104 ∷ 105 ∷ 33 ∷ []
unfolding encode_envelope put_u32
encoded = refl

-- A length beyond the buffer panics.
short : (decode_envelope (9 ∷ 0 ∷ 0 ∷ 0 ∷ 65 ∷ []) blank).0 ≡ panic Panic.index_out_of_range
unfolding decode_envelope read_u32 slice_of
short = refl

decode_envelope-encode_envelope_example :
    (read_u32 (encode_envelope hello) ≡ ok (length (drop 4 (encode_envelope hello))))
    × (decode_envelope (drop 4 (encode_envelope hello) ++ (7 ∷ 7 ∷ [])) blank ≡ (ok tt, hello))
decode_envelope-encode_envelope_example =
    decode_envelope-encode_envelope hello blank (7 ∷ 7 ∷ []) (omega arith)
