-- ===== src/Server/Decode/Broadcast.antt =====
-- A payload that a node broadcasts, from its message to what each of its peers extracts
-- (protocol/message.go, network/local_transport.go, server/rpc_decode_func.go).
use goblockchain.Base.{ℕ, ◌+◌, ◌≤◌, ◌≡◌, refl, sym, some, List, [], ◌∷◌, ok, All, length, bytes_eq}
use mathlib.Core.Path.{subst}
use goblockchain.Base.Map.{Map, lookup}
use goblockchain.Network.Rpc.{Rpc}
use goblockchain.Network.LocalTransport.{Heap, capacity, broadcast}
use goblockchain.Network.LocalTransport.Delivery.{Addressed, times, Sent, broadcast-Sent}
use goblockchain.Network.LocalTransport.Joins.{Keyed}
use goblockchain.Network.LocalTransport.Connect.{Mesh}
use goblockchain.Protocol.{Gob, Message, message_bytes}
use goblockchain.Protocol.Payload.{Payload, message_from, received, Sendable, Delivers}
use goblockchain.Server.Decode.{extract_message_from_rpc}
use goblockchain.Server.Decode.RoundTrip.{extract_message_from_rpc-Arrives}

-- The message of the payload is built, and the RPC with its bytes is put behind those of each peer's
-- channel, once for each time that it is among the peers, and on no other channel; from the RPC comes
-- the payload again, with the sender's address.
abbrev pub ReachesPeers : Gob → ℕ → Payload → ℕ → Heap → Type 0
ReachesPeers g addr x lt h =
    (m : Message) × (r : Rpc) × (h' : Heap) × (message_from g x ≡ ok m)
    × (message_bytes g.messages m ≡ ok (some r.content))
    × (broadcast lt r.content h ≡ (ok tt, h'))
    × Sent lt r h (h lt).peers h'
    × (extract_message_from_rpc g addr r
        ≡ ok (record { from = (h lt).addr; message_data = received addr x }))

Keyed-Addressed :
    (lt : ℕ) (h : Heap) (peers : Map (List ℕ) ℕ)
    → All (Keyed h lt) peers
    → All (Addressed lt h) peers
Keyed-Addressed lt h [] a = tt
Keyed-Addressed lt h (e ∷ peers) ((named, found), a) =
    (subst (λ x. lookup x (h lt).peers ≡ some e.1) (sym named) found, Keyed-Addressed lt h peers a)

-- With codecs that read back what they write, take a payload without a pointer to an empty signature,
-- and transports that are connected as `Connect` leaves them, each under its own address and both ways;
-- the channels of the peers of one of them have room. Then the payload's message has bytes, and to
-- broadcast them on that transport succeeds: behind the RPCs of a channel there is one more with these
-- bytes for each entry of the map that leads to it, and no other channel changes. What
-- `ExtractMessageFromRPC` makes of the RPC is the payload with its exported fields, from the address of
-- the transport that broadcast it.
pub broadcast-ReachesPeers :
    (g : Gob) (addr : ℕ) (x : Payload) (lt : ℕ) (h : Heap)
    → Delivers g
    → Sendable x
    → Mesh h
    → ((k : ℕ) → length (h k).recv_ch + times k (h lt).peers ≤ capacity)
    → ReachesPeers g addr x lt h
broadcast-ReachesPeers g addr x lt h d w mesh room =
    let (m, out, built, bytes, extracted) =
      extract_message_from_rpc-Arrives g d addr (h lt).addr x w in
    let r : Rpc = record { from = (h lt).addr; content = out } in
    let (h', done, put) =
      broadcast-Sent lt r h refl (Keyed-Addressed lt h (h lt).peers (mesh.keyed lt)) room in
    (m, r, h', built, bytes, done, put, extracted)
