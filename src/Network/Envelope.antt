-- ===== src/Network/Envelope.antt =====
-- network/tcp_envelope.go: the sender and the payload with their lengths in front. A write to a
-- `bytes.Buffer` does not fail, so encoding returns the bytes alone. A slice is the bytes up to its
-- capacity, against which Go checks the bounds of a slice expression.
pub mod RoundTrip
use goblockchain.Base.{
  ℕ, ◌+◌, ◌-◌, ◌*◌, ◌/◌, ◌%◌, u32_mod, List, [], ◌∷◌, ◌++◌, Result, ok, err, panic, Panic, Go,
  ◌>>=◌, ◌>>◌, pure, modify, if◌then◌else◌, ltb, length, take, drop,
}

pub record TcpEnvelope : Type 0 where
  pub sender_id : List ℕ
  pub payload : List ℕ

unfoldable pub new_tcp_envelope : List ℕ → List ℕ → TcpEnvelope
new_tcp_envelope id content = record { sender_id = id; payload = content }

-- `binary.LittleEndian.PutUint32` of `uint32(n)`
unfoldable pub put_u32 : ℕ → List ℕ
put_u32 n = n % 256 ∷ n / 256 % 256 ∷ n / 65536 % 256 ∷ n / 16777216 % 256 ∷ []

-- `binary.LittleEndian.Uint32`, which indexes its argument at 3 first.
unfoldable pub read_u32 : List ℕ → Result ⊥ ℕ
read_u32 (a ∷ b ∷ c ∷ d ∷ _) = ok (a + b * 256 + c * 65536 + d * 16777216)
read_u32 _ = panic Panic.index_out_of_range

unfoldable pub encode_envelope : TcpEnvelope → List ℕ
encode_envelope e =
    let len_size : ℕ = 4 in
    let msg_len : ℕ = length e.sender_id + len_size + length e.payload + len_size in
    put_u32 msg_len
    ++ (put_u32 (length e.sender_id) ++ (e.sender_id ++ (put_u32 (length e.payload) ++ e.payload)))

-- `b[lo:hi]`
unfoldable pub slice_of : ℕ → ℕ → List ℕ → Result ⊥ (List ℕ)
slice_of lo hi b =
    if ltb hi lo
    then panic Panic.index_out_of_range
    else (if ltb (length b) hi
        then panic Panic.index_out_of_range
        else ok (take (hi - lo) (drop lo b)))

-- The offsets are of type `uint32`.
unfoldable pub decode_envelope : List ℕ → Go ⊥ TcpEnvelope (Unit {0})
decode_envelope b = do
  id_prefix ← (λ e. (slice_of 0 4 b, e))
  id_len ← (λ e. (read_u32 id_prefix, e))
  id ← (λ e. (slice_of 4 ((4 + id_len) % u32_mod) b, e))
  len_prefix ←
      (λ e. (slice_of ((4 + id_len) % u32_mod) (((4 + id_len) % u32_mod + 4) % u32_mod) b, e))
  p_len ← (λ e. (read_u32 len_prefix, e))
  content ← (λ e. (
    slice_of (((4 + id_len) % u32_mod + 4) % u32_mod)
        ((((4 + id_len) % u32_mod + 4) % u32_mod + p_len) % u32_mod) b,
    e,
  ))
  modify (λ e. record { sender_id = id; payload = content })
