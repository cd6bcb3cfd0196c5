-- ===== src/Network/LocalTransport/Delivery.antt =====
-- `Send` and `Broadcast` of network/local_transport.go put RPCs behind those of the channels.
use goblockchain.Base.{
  ℕ, suc, ◌+◌, ◌<◌, ◌≤◌, ◌≡◌, refl, sym, ap, ◌∙◌, inl, inr, true, false, some, List, [], ◌∷◌, ◌++◌,
  Result, ok, panic, stuck, All, Bool-cases, if◌then◌else◌, ◌==◌, ==_iff, leb, length,
  length-append, arith, bytes_eq,
}
use mathlib.Core.List.{append-nil, append_assoc}
use goblockchain.Base.Map.{Map, lookup}
use goblockchain.Network.Rpc.{Rpc}
use goblockchain.Network.LocalTransport.{
  Heap, Error, capacity, write, send, broadcast_loop, broadcast,
}

-- A peer that is found under its own address.
abbrev pub Addressed : ℕ → Heap → List ℕ × ℕ → Type 0
Addressed lt h e = lookup (h e.1).addr (h lt).peers ≡ some e.1

-- The RPCs for the channel of `k`, one for each time that it is among the peers.
abbrev pub copies : Rpc → ℕ → Map (List ℕ) ℕ → List Rpc
copies r k [] = []
copies r k ((_, to) ∷ peers) = let rest = copies r k peers in if k == to then r ∷ rest else rest

-- How often it is among the peers.
abbrev pub times : ℕ → Map (List ℕ) ℕ → ℕ
times k [] = 0
times k ((_, to) ∷ peers) = let rest = times k peers in if k == to then suc rest else rest

length-copies :
    (r : Rpc) (k : ℕ) (peers : Map (List ℕ) ℕ) → length (copies r k peers) ≡ times k peers
length-copies r k [] = refl
length-copies r k ((_, to) ∷ peers) = ground (arith, length-copies r k peers)

-- Addresses and connections are as before.
abbrev pub SamePeers : Heap → Heap → Type 0
SamePeers h h' = ((k : ℕ) → (h' k).addr ≡ (h k).addr) × ((k : ℕ) → (h' k).peers ≡ (h k).peers)

SamePeers-Addressed :
    (lt : ℕ) (h h' : Heap) (peers : Map (List ℕ) ℕ)
    → SamePeers h h'
    → All (Addressed lt h) peers
    → All (Addressed lt h') peers
SamePeers-Addressed lt h h' [] s a = tt
SamePeers-Addressed lt h h' (e ∷ peers) s (a, all) =
    (rw (s.0 e.1, s.1 lt) a, SamePeers-Addressed lt h h' peers s all)

-- The heap with the RPC behind those of `tr`.
abbrev pushed : ℕ → Rpc → Heap → Heap
pushed tr r h = write tr (record (h tr) { recv_ch = (h tr).recv_ch ++ (r ∷ []) }) h

module _ (tr : ℕ) (r : Rpc) (h : Heap) where
  pushed-SamePeers : SamePeers h (pushed tr r h)
  pushed-SamePeers = (
    λ k. elim (Bool-cases (k == tr)) [
      | inl e ↦ rw e (ap (λ j. (h j).addr) (sym ((==_iff k tr).0 e)))
      | inr e ↦ rw e refl
    ],
    λ k. elim (Bool-cases (k == tr)) [
      | inl e ↦ rw e (ap (λ j. (h j).peers) (sym ((==_iff k tr).0 e)))
      | inr e ↦ rw e refl
    ],
  )

  pushed-copies :
      (k : ℕ) (a : List ℕ) (peers : Map (List ℕ) ℕ)
      → (pushed tr r h k).recv_ch ++ copies r k peers
        ≡ (h k).recv_ch ++ copies r k ((a, tr) ∷ peers)
  pushed-copies k a peers = elim (Bool-cases (k == tr)) [
    | inl e ↦
        let same : k ≡ tr = (==_iff k tr).0 e in
        rw e (
          append_assoc (h tr).recv_ch (r ∷ []) (copies r k peers)
          ∙ ap (λ j. (h j).recv_ch ++ (r ∷ copies r k peers)) (sym same))
    | inr e ↦ rw e refl
  ]

  sent :
      (lt : ℕ)
      → r.from ≡ (h lt).addr
      → Addressed lt h ((h tr).addr, tr)
      → length (h tr).recv_ch < capacity
      → send lt (h tr).addr r.content h ≡ (ok tt, pushed tr r h)
  unfolding send
  sent lt e at room =
      let space : leb capacity (length (h tr).recv_ch) ≡ false = ground arith in
      rw (at, space, sym e) refl

abbrev goes_on :
    ℕ → List ℕ → Map (List ℕ) ℕ → Result Error (Unit {0}) × Heap → Result Error (Unit {0}) × Heap
goes_on lt payload peers r = elim r.0 [
  | stuck ↦ (stuck, r.1)
  | panic q ↦ (panic q, r.1)
  | _ ↦ broadcast_loop lt payload peers r.1
]

module _ (lt : ℕ) (r : Rpc) where
  -- What a loop over some of the peers does.
  abbrev pub Sent : Heap → Map (List ℕ) ℕ → Heap → Type 0
  Sent h peers h' = ((k : ℕ) → (h' k).recv_ch ≡ (h k).recv_ch ++ copies r k peers) × SamePeers h h'

  broadcast_loop-Sent :
      (peers : Map (List ℕ) ℕ) (h : Heap)
      → r.from ≡ (h lt).addr
      → All (Addressed lt h) peers
      → ((k : ℕ) → length ((h k).recv_ch ++ copies r k peers) ≤ capacity)
      → (h' : Heap) × (broadcast_loop lt r.content peers h ≡ (ok tt, h')) × Sent h peers h'
  unfolding broadcast_loop
  broadcast_loop-Sent [] h e a room =
      (h, refl, (λ k. sym (append-nil (h k).recv_ch), (λ k. refl, λ k. refl)))
  broadcast_loop-Sent ((a, to) ∷ peers) h e (at, all) room =
      let h1 = pushed to r h in
      let own : (to == to) ≡ true = (==_iff to to).1 refl in
      let space : length (h to).recv_ch < capacity =
        omega (arith, rw own at (room to), length-append (h to).recv_ch (r ∷ copies r to peers)) in
      let same = pushed-SamePeers to r h in
      let (h', done, (put, kept)) =
        broadcast_loop-Sent peers h1 (e ∙ sym (same.0 lt))
          (SamePeers-Addressed lt h h1 peers same all)
          (λ k. rw (pushed-copies to r h k a peers) (room k)) in
      (
        h',
        ap (goes_on lt r.content peers) (sent to r h lt e at space) ∙ done,
        (
          λ k. put k ∙ pushed-copies to r h k a peers,
          (λ k. kept.0 k ∙ same.0 k, λ k. kept.1 k ∙ same.1 k),
        ),
      )

  -- All of the peers get it, where their channels have room.
  pub broadcast-Sent :
      (h : Heap)
      → r.from ≡ (h lt).addr
      → All (Addressed lt h) (h lt).peers
      → ((k : ℕ) → length (h k).recv_ch + times k (h lt).peers ≤ capacity)
      → (h' : Heap) × (broadcast lt r.content h ≡ (ok tt, h')) × Sent h (h lt).peers h'
  unfolding broadcast
  broadcast-Sent h e a room = broadcast_loop-Sent (h lt).peers h e a (λ k. omega (
    arith,
    room k,
    length-copies r k (h lt).peers,
    length-append (h k).recv_ch (copies r k (h lt).peers),
  ))
