-- ===== src/Network/Envelope/RoundTrip.antt =====
-- Encoding and decoding of network/tcp_envelope.go undo each other.
use goblockchain.Base.{
  ℕ, ◌+◌, ◌-◌, ◌%◌, ◌<◌, ◌≡◌, refl, sym, ap, ◌∙◌, u32_mod, List, [], ◌++◌, ok, arith, length, drop,
  length-append, drop-append, take-append,
}
use mathlib.Core.List.{append_assoc}
use goblockchain.Network.Envelope.{
  TcpEnvelope, put_u32, read_u32, encode_envelope, slice_of, decode_envelope,
}

read_u32-put_u32 : (n : ℕ) (rest : List ℕ) → n < u32_mod → read_u32 (put_u32 n ++ rest) ≡ ok n
unfolding read_u32 put_u32
read_u32-put_u32 n rest h = ap ok (omega arith)

read_u32_alone : (n : ℕ) → n < u32_mod → read_u32 (put_u32 n) ≡ ok n
unfolding read_u32 put_u32
read_u32_alone n h = ap ok (omega arith)

pub length-put_u32 : (n : ℕ) → length (put_u32 n) ≡ 4
unfolding put_u32
length-put_u32 n = refl

-- A slice expression that cuts out the middle of three parts.
slice_middle :
    (lo hi : ℕ) (xs ys zs : List ℕ)
    → lo ≡ length xs
    → hi ≡ length xs + length ys
    → slice_of lo hi (xs ++ (ys ++ zs)) ≡ ok ys
unfolding slice_of
slice_middle lo hi xs ys zs p q =
    let total : length (xs ++ (ys ++ zs)) ≡ length xs + (length ys + length zs) =
      omega (arith, length-append xs (ys ++ zs), length-append ys zs) in
    let cut : drop lo (xs ++ (ys ++ zs)) ≡ ys ++ zs = rw p (drop-append xs (ys ++ zs)) in
    let wide : hi - lo ≡ length ys = omega arith in
    ground (arith, total, cut, wide, take-append ys zs)

-- What stands behind the message length on the wire, and then whatever follows in the buffer.
abbrev pub body : TcpEnvelope → List ℕ → List ℕ
body e rest =
    put_u32 (length e.sender_id)
    ++ (e.sender_id ++ (put_u32 (length e.payload) ++ (e.payload ++ rest)))

module _ (e : TcpEnvelope) (rest : List ℕ)
    (fits : length e.sender_id + length e.payload + 8 < u32_mod) where
  at_id_prefix : slice_of 0 4 (body e rest) ≡ ok (put_u32 (length e.sender_id))
  at_id_prefix =
      slice_middle 0 4 [] (put_u32 (length e.sender_id)) _ refl
        (omega (arith, length-put_u32 (length e.sender_id)))

  at_id : slice_of 4 (4 + length e.sender_id) (body e rest) ≡ ok e.sender_id
  at_id =
      slice_middle 4 (4 + length e.sender_id) (put_u32 (length e.sender_id)) e.sender_id _
        (omega (arith, length-put_u32 (length e.sender_id)))
        (omega (arith, length-put_u32 (length e.sender_id)))

  length-head : length (put_u32 (length e.sender_id) ++ e.sender_id) ≡ 4 + length e.sender_id
  length-head = omega (
    arith,
    length-append (put_u32 (length e.sender_id)) e.sender_id,
    length-put_u32 (length e.sender_id),
  )

  at_payload_prefix :
      slice_of (4 + length e.sender_id) (4 + length e.sender_id + 4) (body e rest)
      ≡ ok (put_u32 (length e.payload))
  at_payload_prefix =
      ap (slice_of (4 + length e.sender_id) (4 + length e.sender_id + 4))
        (sym (append_assoc (put_u32 (length e.sender_id)) e.sender_id _))
      ∙ slice_middle (4 + length e.sender_id) (4 + length e.sender_id + 4)
          (put_u32 (length e.sender_id) ++ e.sender_id) (put_u32 (length e.payload))
          (e.payload ++ rest) (sym length-head)
          (omega (arith, length-head, length-put_u32 (length e.payload)))

  at_payload :
      slice_of
        (4 + length e.sender_id + 4)
        (4 + length e.sender_id + 4 + length e.payload)
        (body e rest)
      ≡ ok e.payload
  at_payload =
      let head = put_u32 (length e.sender_id) ++ e.sender_id in
      let prefix = put_u32 (length e.payload) in
      let length-both : length (head ++ prefix) ≡ 4 + length e.sender_id + 4 =
        omega (arith, length-append head prefix, length-head, length-put_u32 (length e.payload)) in
      ap (slice_of (4 + length e.sender_id + 4) (4 + length e.sender_id + 4 + length e.payload)) (
        sym (append_assoc (put_u32 (length e.sender_id)) e.sender_id _)
        ∙ sym (append_assoc head prefix (e.payload ++ rest)))
      ∙ slice_middle (4 + length e.sender_id + 4) (4 + length e.sender_id + 4 + length e.payload)
          (head ++ prefix) e.payload rest (sym length-both) (omega (arith, length-both))

  decode-body : (old : TcpEnvelope) → decode_envelope (body e rest) old ≡ (ok tt, e)
  unfolding decode_envelope
  decode-body old =
      let id_end : (4 + length e.sender_id) % u32_mod ≡ 4 + length e.sender_id = omega arith in
      let p_start : (4 + length e.sender_id + 4) % u32_mod ≡ 4 + length e.sender_id + 4 =
        omega arith in
      let p_end : (4 + length e.sender_id + 4 + length e.payload) % u32_mod
          ≡ 4 + length e.sender_id + 4 + length e.payload =
        omega arith in
      rw
        (
          at_id_prefix,
          read_u32_alone (length e.sender_id) (omega arith),
          id_end,
          at_id,
          p_start,
          at_payload_prefix,
          read_u32_alone (length e.payload) (omega arith),
          p_end,
          at_payload,
        )
        refl

-- The bytes behind the message length.
abbrev pub sent : TcpEnvelope → List ℕ
sent e = put_u32 (length e.sender_id) ++ (e.sender_id ++ (put_u32 (length e.payload) ++ e.payload))

behind_length : (n : ℕ) (xs : List ℕ) → drop 4 (put_u32 n ++ xs) ≡ xs
unfolding put_u32
behind_length n xs = refl

pub drop-encode : (e : TcpEnvelope) → drop 4 (encode_envelope e) ≡ sent e
unfolding encode_envelope
drop-encode e = behind_length (length e.sender_id + 4 + length e.payload + 4) (sent e)

pub sent-append : (e : TcpEnvelope) (rest : List ℕ) → sent e ++ rest ≡ body e rest
sent-append e rest =
    append_assoc (put_u32 (length e.sender_id)) _ rest
    ∙ ap (λ x. put_u32 (length e.sender_id) ++ x) (append_assoc e.sender_id _ rest)
    ∙ ap (λ x. put_u32 (length e.sender_id) ++ (e.sender_id ++ x))
        (append_assoc (put_u32 (length e.payload)) e.payload rest)

pub length-sent :
    (e : TcpEnvelope) → length (sent e) ≡ length e.sender_id + 4 + length e.payload + 4
length-sent e = omega (
  arith,
  length-append (put_u32 (length e.sender_id))
      (e.sender_id ++ (put_u32 (length e.payload) ++ e.payload)),
  length-append e.sender_id (put_u32 (length e.payload) ++ e.payload),
  length-append (put_u32 (length e.payload)) e.payload,
  length-put_u32 (length e.sender_id),
  length-put_u32 (length e.payload),
)

pub encode-length :
    (e : TcpEnvelope)
    → length e.sender_id + length e.payload + 8 < u32_mod
    → read_u32 (encode_envelope e) ≡ ok (length (sent e))
unfolding encode_envelope
encode-length e fits =
    read_u32-put_u32 (length e.sender_id + 4 + length e.payload + 4) (sent e) (omega arith)
    ∙ ap ok (sym (length-sent e))

-- An envelope with a sender and a payload that fit a `uint32` together with their lengths: its first
-- four bytes tell how many follow, and these decode to the envelope, whatever stands behind them in
-- the buffer, and whatever was in the struct that is filled.
pub decode_envelope-encode_envelope :
    (e old : TcpEnvelope) (rest : List ℕ)
    → length e.sender_id + length e.payload + 8 < u32_mod
    → (read_u32 (encode_envelope e) ≡ ok (length (drop 4 (encode_envelope e))))
      × (decode_envelope (drop 4 (encode_envelope e) ++ rest) old ≡ (ok tt, e))
decode_envelope-encode_envelope e old rest fits =
    rw (drop-encode e, sent-append e rest) (encode-length e fits, decode-body e rest fits old)
