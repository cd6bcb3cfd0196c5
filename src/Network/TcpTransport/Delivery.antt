-- ===== src/Network/TcpTransport/Delivery.antt =====
-- From `send` of one transport to the channel of another (network/tcp_transport.go): payloads arrive,
-- unless the receiver is late or they are too long.
use goblockchain.Base.{
  ℕ, ◌+◌, ◌≤◌, ◌<◌, ◌≡◌, refl, ap, ◌∙◌, List, [], ◌∷◌, ◌++◌, ok, panic, Panic, arith, length, take,
  drop, take-append_le, ◌>>◌, >>=_ok, u32_mod,
}
use goblockchain.Network.Envelope.{TcpEnvelope, encode_envelope, new_tcp_envelope}
use goblockchain.Network.Envelope.RoundTrip.{sent, length-sent}
use goblockchain.Network.TcpTransport.{
  Reading, Queued, queued, read_round, content_of, Conn, send_on,
}
use goblockchain.Network.TcpTransport.Frames.{
  read_round-AfterFrame, content_of-buf, content_of-last, read_round_beyond,
}

-- The buffers of `read` as they are made.
abbrev pub Buffers : Reading → Type 0
Buffers s = (length s.buf ≡ 65536) × (length s.len_buf ≡ 4)

-- The payload is the next one on the channel, from this sender, and the rest is still to be read.
abbrev pub Delivered : List ℕ → List ℕ → List ℕ → Reading → Reading → Type 0
Delivered addr payload rest s s' =
    Buffers s'
    × (s'.input ≡ rest)
    × ((q : Queued) × (s'.recv ≡ s.recv ++ (q ∷ []))
        × (q.from ≡ addr)
        × (content_of s' q ≡ payload))

-- Let a transport `send` a payload on a connection that has been read, whose frame fits the buffer of
-- 64 KiB. The next round at the other end, where `Read` returns the four bytes of the length, puts an
-- RPC on the channel with the address of the sender and, as the buffer stands, the payload; all that
-- follows on the connection is left for the rounds to come, which find the buffers as this one did.
pub send_on-Delivered :
    (addr payload rest : List ℕ) (c : Conn) (s : Reading)
    → c.written ≡ []
    → s.input ≡ (send_on addr payload c).written ++ rest
    → Buffers s
    → length addr + length payload + 8 ≤ 65536
    → (s' : Reading) × (read_round 4 s ≡ (ok tt, s')) × Delivered addr payload rest s s'
unfolding send_on new_tcp_envelope
send_on-Delivered addr payload rest c s unwritten at_input (size, four) fits =
    let e : TcpEnvelope = record { sender_id = addr; payload = payload } in
    let (s', e_read, h) =
      read_round-AfterFrame e rest s (omega arith)
        (at_input ∙ ap (λ w. (w ++ encode_envelope e) ++ rest) unwritten) four
        (omega (arith, length-sent e)) in
    let (i, l, b, r, _) = h in
    (s', e_read, ((b ∙ size, l), i, (queued e, r, refl, content_of-last e rest s s' h)))

-- Two frames from the same sender, the second with a payload no shorter, of which the first RPC is
-- still on the channel when the second is read: what the receiver then finds in the first RPC is the
-- beginning of the second payload, since both stand in the same buffer.
pub content_of_overwritten :
    (addr payload later rest : List ℕ) (s : Reading)
    → s.input
      ≡ encode_envelope (new_tcp_envelope addr payload)
        ++ (encode_envelope (new_tcp_envelope addr later) ++ rest)
    → Buffers s
    → length payload ≤ length later
    → length addr + length later + 8 ≤ 65536
    → (s' : Reading) × (q : Queued) × (q' : Queued) × ((read_round 4 >> read_round 4) s
        ≡ (ok tt, s'))
      × (s'.recv ≡ (s.recv ++ (q ∷ [])) ++ (q' ∷ []))
      × (q.count ≡ length payload)
      × (content_of s' q ≡ take (length payload) later)
unfolding new_tcp_envelope
content_of_overwritten addr payload later rest s at_input (size, four) shorter fits =
    let e : TcpEnvelope = record { sender_id = addr; payload = payload } in
    let f : TcpEnvelope = record { sender_id = addr; payload = later } in
    let (s1, read_1, (i1, l1, b1, r1, _)) =
      read_round-AfterFrame e (encode_envelope f ++ rest) s (omega arith) at_input four
        (omega (arith, length-sent e)) in
    let (s2, read_2, h) =
      read_round-AfterFrame f rest s1 (omega arith) i1 l1 (omega (arith, length-sent f, b1)) in
    let (_, _, _, r2, _) = h in
    (
      s2,
      queued e,
      queued f,
      >>=_ok (read_round 4) (λ _. read_round 4) s read_1 ∙ read_2,
      r2 ∙ ap (λ x. x ++ (queued f ∷ [])) r1,
      refl,
      content_of-buf f rest s1 s2 (queued e) refl h
          ∙ take-append_le (length payload) later (drop (length (sent f)) s1.buf) shorter,
    )

-- A frame that does not fit the buffer of 64 KiB, though its length fits a `uint32`, ends the process
-- of the receiver: the slice expression of the buffer panics.
pub read_round_too_long :
    (addr payload rest : List ℕ) (s : Reading)
    → s.input ≡ encode_envelope (new_tcp_envelope addr payload) ++ rest
    → Buffers s
    → 65536 < length addr + length payload + 8
    → length addr + length payload + 8 < u32_mod
    → (read_round 4 s).0 ≡ panic Panic.index_out_of_range
unfolding new_tcp_envelope
read_round_too_long addr payload rest s at_input (size, four) long fits =
    let e : TcpEnvelope = record { sender_id = addr; payload = payload } in
    read_round_beyond e rest s fits at_input four (omega (arith, length-sent e))
