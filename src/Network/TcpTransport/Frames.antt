-- ===== src/Network/TcpTransport/Frames.antt =====
-- What the loop of network/tcp_transport.go reads is what the other end sent, frame by frame, as long
-- as the receiver keeps up.
use goblockchain.Base.{
  panic, Panic, true, ℕ, zero, suc, false, ◌+◌, ◌≤◌, ◌<◌, ◌%◌, ◌/◌, ◌≡◌, refl, sym, ap, ◌∙◌, List,
  [], ◌∷◌, ◌++◌, ok, Result, arith, length, take, drop, length-append, take-append, drop-append,
  length-drop, ltb, u32_mod,
}
use mathlib.Core.List.{append_assoc}
use goblockchain.Network.Envelope.{TcpEnvelope, put_u32, read_u32, encode_envelope, decode_envelope}
use goblockchain.Network.Envelope.RoundTrip.{
  decode_envelope-encode_envelope, body, sent, sent-append, length-put_u32, encode-length,
}
use goblockchain.Network.TcpTransport.{
  Reading, Queued, queued, blank_envelope, read_round, content_of,
}

-- The state after a frame with the prefix `prefix` and the bytes `frame` of the envelope `e`.
abbrev after_frame : List ℕ → List ℕ → TcpEnvelope → List ℕ → Reading → Reading
after_frame prefix frame e rest s = record {
  buf = frame ++ drop (length frame) s.buf;
  len_buf = prefix;
  input = rest;
  recv = s.recv ++ (queued e ∷ []);
}

drop_all : (n : ℕ) (xs : List ℕ) → length xs ≡ n → drop n xs ≡ []
drop_all n [] h = ground (arith, h)
drop_all zero (x ∷ xs) h = ground (arith, h)
drop_all (suc n) (x ∷ xs) h = drop_all n xs (omega arith)

read_frame :
    (a b c d : ℕ) (frame rest buf len_buf : List ℕ) (recv : List Queued) (e : TcpEnvelope)
    → length len_buf ≡ 4
    → read_u32 (a ∷ b ∷ c ∷ d ∷ []) ≡ ok (length frame)
    → length frame ≤ length buf
    → decode_envelope (frame ++ drop (length frame) buf) blank_envelope ≡ (ok tt, e)
    → let s : Reading = record {
      buf = buf;
      len_buf = len_buf;
      input = a ∷ b ∷ c ∷ d ∷ (frame ++ rest);
      recv = recv;
    } in
      read_round 4 s ≡ (ok tt, after_frame (a ∷ b ∷ c ∷ d ∷ []) frame e rest s)
unfolding read_round
read_frame a b c d frame rest buf len_buf recv e four prefix room decodes =
    let nonempty : ltb (length (a ∷ b ∷ c ∷ d ∷ (frame ++ rest))) 1 ≡ false = ground arith in
    let no_stale : drop 4 len_buf ≡ [] = drop_all 4 len_buf four in
    let within : ltb (length buf) (length frame) ≡ false = ground arith in
    let enough : ltb (length (frame ++ rest)) (length frame) ≡ false =
      ground (arith, length-append frame rest) in
    rw
      (
        nonempty,
        no_stale,
        prefix,
        within,
        enough,
        take-append frame rest,
        drop-append frame rest,
        decodes,
      )
      (ap
        (λ (x : Result ⊥ (Unit {0}) × TcpEnvelope). (
          ok tt,
          record {
            buf = frame ++ drop (length frame) buf;
            len_buf = a ∷ b ∷ c ∷ d ∷ [];
            input = rest;
            recv = recv ++ (queued x.1 ∷ []);
          },
        ))
        decodes)

length-overwritten :
    (xs ys : List ℕ) → length xs ≤ length ys → length (xs ++ drop (length xs) ys) ≡ length ys
length-overwritten xs ys h =
    omega (arith, length-append xs (drop (length xs) ys), length-drop (length xs) ys)

-- What a round has done with a frame.
abbrev pub AfterFrame : TcpEnvelope → List ℕ → Reading → Reading → Type 0
AfterFrame e rest s s' =
    (s'.input ≡ rest)
    × (length s'.len_buf ≡ 4)
    × (length s'.buf ≡ length s.buf)
    × (s'.recv ≡ s.recv ++ (queued e ∷ []))
    × (s'.buf ≡ sent e ++ drop (length (sent e)) s.buf)

pub read_round-AfterFrame :
    (e : TcpEnvelope) (rest : List ℕ) (s : Reading)
    → length e.sender_id + length e.payload + 8 < u32_mod
    → s.input ≡ encode_envelope e ++ rest
    → length s.len_buf ≡ 4
    → length (sent e) ≤ length s.buf
    → (s' : Reading) × (read_round 4 s ≡ (ok tt, s')) × AfterFrame e rest s s'
unfolding encode_envelope put_u32 read_u32
read_round-AfterFrame e rest s fits at_input four room =
    let n : ℕ = length e.sender_id + 4 + length e.payload + 4 in
    let prefix : List ℕ = put_u32 n in
    let (_, decodes) =
      decode_envelope-encode_envelope e blank_envelope (drop (length (sent e)) s.buf) fits in
    (
      after_frame prefix (sent e) e rest s,
      ap (λ x. read_round 4 (record s { input = x })) at_input
          ∙ read_frame (n % 256) (n / 256 % 256) (n / 65536 % 256) (n / 16777216 % 256) (sent e)
              rest s.buf s.len_buf s.recv e four (encode-length e fits) room decodes,
      (refl, refl, length-overwritten (sent e) s.buf room, refl, refl),
    )

behind_sender :
    (e : TcpEnvelope) (rest : List ℕ)
    → drop (length e.sender_id + 8) (body e rest) ≡ e.payload ++ rest
behind_sender e rest =
    let p = put_u32 (length e.sender_id) in
    let q = put_u32 (length e.payload) in
    let head : List ℕ = p ++ (e.sender_id ++ q) in
    let size : length e.sender_id + 8 ≡ length head = omega (
      arith,
      length-append p (e.sender_id ++ q),
      length-append e.sender_id q,
      length-put_u32 (length e.sender_id),
      length-put_u32 (length e.payload),
    ) in
    let parts : body e rest ≡ head ++ (e.payload ++ rest) = sym (
      append_assoc p (e.sender_id ++ q) (e.payload ++ rest)
      ∙ ap (λ x. p ++ x) (append_assoc e.sender_id q (e.payload ++ rest))) in
    rw (size, parts) (drop-append head (e.payload ++ rest))

-- What the receiver of an RPC finds in the buffer after the frame of `e`: from the start that this
-- RPC has, the payload of `e`, and then what was in the buffer before.
pub content_of-buf :
    (e : TcpEnvelope) (rest : List ℕ) (s s' : Reading) (q : Queued)
    → q.start ≡ length e.sender_id + 8
    → AfterFrame e rest s s'
    → content_of s' q ≡ take q.count (e.payload ++ drop (length (sent e)) s.buf)
unfolding content_of
content_of-buf e rest s s' q same (_, _, _, _, b) = ap (take q.count) (
    ap (λ n. drop n s'.buf) same
    ∙ ap (drop (length e.sender_id + 8)) (b ∙ sent-append e (drop (length (sent e)) s.buf))
    ∙ behind_sender e (drop (length (sent e)) s.buf))

-- The content of the last RPC on the channel is the payload that was sent.
pub content_of-last :
    (e : TcpEnvelope) (rest : List ℕ) (s s' : Reading)
    → AfterFrame e rest s s'
    → content_of s' (queued e) ≡ e.payload
content_of-last e rest s s' h =
    content_of-buf e rest s s' (queued e) refl h
    ∙ take-append e.payload (drop (length (sent e)) s.buf)

read_long :
    (a b c d len : ℕ) (tail buf len_buf : List ℕ) (recv : List Queued)
    → length len_buf ≡ 4
    → read_u32 (a ∷ b ∷ c ∷ d ∷ []) ≡ ok len
    → length buf < len
    → let s : Reading = record {
      buf = buf;
      len_buf = len_buf;
      input = a ∷ b ∷ c ∷ d ∷ tail;
      recv = recv;
    } in
      (read_round 4 s).0 ≡ panic Panic.index_out_of_range
unfolding read_round
read_long a b c d len tail buf len_buf recv four prefix long =
    let nonempty : ltb (length (a ∷ b ∷ c ∷ d ∷ tail)) 1 ≡ false = ground arith in
    let no_stale : drop 4 len_buf ≡ [] = drop_all 4 len_buf four in
    let beyond : ltb (length buf) len ≡ true = ground arith in
    rw (nonempty, no_stale, prefix, beyond) refl

-- A frame longer than the buffer.
pub read_round_beyond :
    (e : TcpEnvelope) (rest : List ℕ) (s : Reading)
    → length e.sender_id + length e.payload + 8 < u32_mod
    → s.input ≡ encode_envelope e ++ rest
    → length s.len_buf ≡ 4
    → length s.buf < length (sent e)
    → (read_round 4 s).0 ≡ panic Panic.index_out_of_range
unfolding encode_envelope put_u32 read_u32
read_round_beyond e rest s fits at_input four long =
    let n : ℕ = length e.sender_id + 4 + length e.payload + 4 in
    ap (λ x. (read_round 4 (record s { input = x })).0) at_input
    ∙ read_long (n % 256) (n / 256 % 256) (n / 65536 % 256) (n / 16777216 % 256) (length (sent e))
        (sent e ++ rest) s.buf s.len_buf s.recv four (encode-length e fits) long
