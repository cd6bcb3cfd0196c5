-- ===== src/Network/LocalTransport/Connect.antt =====
-- `Connect` of network/local_transport.go connects both ways.
use goblockchain.Base.{
  ℕ, suc, ◌≡◌, ◌≢◌, refl, sym, ap, ◌∙◌, inl, inr, Bool, true, false, Option, none, some, List,
  Bool-cases, Option-cases, arith, All, ◌==◌, ==_iff, bytes_eq, if◌then◌else◌,
}
use goblockchain.Base.Map.{lookup}
use goblockchain.Network.LocalTransport.{Heap, add_peer, is_connected, connect_loop, connect}
use goblockchain.Network.LocalTransport.Joins.{
  Keyed, addr-add_peer, peers-add_peer_other, here-add_peer, Joins, add_peer-Joins,
  add_peer_both-Joins,
}

-- The address under which a transport has a peer is the peer's, and the peer has it in turn; each
-- entry of the map is the one that is found under its address.
pub record Mesh (h : Heap) : Type 0 where
  pub named : (lt tr : ℕ) (a : List ℕ) → lookup a (h lt).peers ≡ some tr → (h tr).addr ≡ a
  pub mutual_peers :
      (lt tr : ℕ) (a : List ℕ)
      → lookup a (h lt).peers ≡ some tr
      → lookup (h lt).addr (h tr).peers ≡ some lt
  pub keyed : (lt : ℕ) → All (Keyed h lt) (h lt).peers

-- No two transports have the same address.
abbrev pub DistinctAddrs : Heap → Type 0
DistinctAddrs h = (i j : ℕ) → (h i).addr ≡ (h j).addr → i ≡ j

-- The two are connected, in both directions; addresses and channels are as before, and the
-- connections of before are there still.
abbrev pub Connected : ℕ → ℕ → Heap → Heap → Type 0
Connected lt tr h h' =
    (lookup (h tr).addr (h' lt).peers ≡ some tr)
    × (lookup (h lt).addr (h' tr).peers ≡ some lt)
    × ((k : ℕ) → (h' k).addr ≡ (h k).addr)
    × ((k : ℕ) → (h' k).recv_ch ≡ (h k).recv_ch)
    × ((k x : ℕ) (a : List ℕ) → lookup a (h k).peers ≡ some x → lookup a (h' k).peers ≡ some x)

Joins-Mesh : (h : Heap) (lt tr : ℕ) (h' : Heap) → Joins h lt tr h' → Mesh h → Mesh h'
Joins-Mesh h lt tr h' j m = record {
  named = λ k x a e. elim (j.new k a e) [
    | inl e' ↦ j.addrs x ∙ m.named k x a e'
    | inr (inl (_, key, same)) ↦ ap (λ i. (h' i).addr) same ∙ j.addrs tr ∙ sym key
    | inr (inr (_, key, same)) ↦ ap (λ i. (h' i).addr) same ∙ j.addrs lt ∙ sym key
  ];
  mutual_peers = λ k x a e. elim (j.new k a e) [
    | inl e' ↦ rw (j.addrs k) (j.old x (h k).addr (m.mutual_peers k x a e'))
    | inr (inl (at_k, _, same)) ↦ rw (j.addrs k, at_k, same) j.there
    | inr (inr (at_k, _, same)) ↦ rw (j.addrs k, at_k, same) j.here
  ];
  keyed = j.keyed m.keyed;
}

Connected_already :
    (h : Heap) (lt tr : ℕ) → Mesh h → lookup (h tr).addr (h lt).peers ≡ some tr → Joins h lt tr h
Connected_already h lt tr m e = record {
  addrs = λ k. refl;
  channels = λ k. refl;
  here = e;
  there = m.mutual_peers lt tr (h tr).addr e;
  new = λ k a q. inl q;
  old = λ k a q. q;
  keyed = λ all. all;
}

abbrev known_of : Option ℕ → Bool
known_of o = elim o [ none ↦ false | some _ ↦ true ]

connect_known :
    (n : ℕ) (h : Heap) (lt tr : ℕ) {x : ℕ}
    → lookup (h tr).addr (h lt).peers ≡ some x
    → connect_loop (suc n) lt tr h ≡ some h
unfolding connect_loop is_connected
connect_known n h lt tr e =
    ap (λ o. if known_of o then some h else connect_loop n tr lt (add_peer lt tr h)) e

connect_unknown :
    (n : ℕ) (h : Heap) (lt tr : ℕ)
    → lookup (h tr).addr (h lt).peers ≡ none
    → connect_loop (suc n) lt tr h ≡ connect_loop n tr lt (add_peer lt tr h)
unfolding connect_loop is_connected
connect_unknown n h lt tr e =
    ap (λ o. if known_of o then some h else connect_loop n tr lt (add_peer lt tr h)) e

connect_self :
    (h : Heap) (lt : ℕ)
    → lookup (h lt).addr (h lt).peers ≡ none
    → connect_loop 3 lt lt h ≡ some (add_peer lt lt h)
connect_self h lt fresh =
    let h1 = add_peer lt lt h in
    connect_unknown 2 h lt lt fresh
    ∙ connect_known 1 h1 lt lt
        (ap (λ a. lookup a (h1 lt).peers) (addr-add_peer h lt lt lt) ∙ here-add_peer h lt lt)

connect_both :
    (h : Heap) (lt tr : ℕ)
    → tr ≢ lt
    → lookup (h tr).addr (h lt).peers ≡ none
    → lookup (h lt).addr (h tr).peers ≡ none
    → connect_loop 3 lt tr h ≡ some (add_peer tr lt (add_peer lt tr h))
connect_both h lt tr ne fresh fresh' =
    let h1 = add_peer lt tr h in
    let h2 = add_peer tr lt h1 in
    let j = add_peer_both-Joins h lt tr ne fresh fresh' in
    connect_unknown 2 h lt tr fresh
    ∙ connect_unknown 1 h1 tr lt (
        ap (λ a. lookup a (h1 tr).peers) (addr-add_peer h lt tr lt)
        ∙ peers-add_peer_other h lt tr tr (h lt).addr ne
        ∙ fresh')
    ∙ connect_known 0 h2 lt tr (ap (λ a. lookup a (h2 lt).peers) (j.addrs tr) ∙ j.here)

unknown_back :
    (h : Heap) (lt tr : ℕ)
    → Mesh h
    → DistinctAddrs h
    → lookup (h tr).addr (h lt).peers ≡ none
    → lookup (h lt).addr (h tr).peers ≡ none
unknown_back h lt tr m d fresh = elim (Option-cases (lookup (h lt).addr (h tr).peers)) [
  | inl e ↦ e
  | inr (k, e) ↦
      let same : k ≡ lt = d k lt (m.named tr k (h lt).addr e) in
      let back : lookup (h tr).addr (h lt).peers ≡ some tr =
        ap (λ i. lookup (h tr).addr (h i).peers) (sym same) ∙ m.mutual_peers tr k (h lt).addr e in
      absurd (ground (arith, fresh, back))
]

-- Take transports with different addresses, connected as `Connect` connects them: each under the
-- address of the peer, and both ways. Then `Connect` of one with another ends within three calls of
-- itself. After it the two are connected in both directions, every connection of before is there
-- still, no address and no channel has changed, and connections are again under the right address and
-- both ways.
pub connect-Mesh :
    (h : Heap) (lt tr : ℕ)
    → Mesh h
    → DistinctAddrs h
    → (h' : Heap) × (connect lt tr h ≡ some h') × Connected lt tr h h' × Mesh h'
unfolding connect
connect-Mesh h lt tr m d = elim (Option-cases (lookup (h tr).addr (h lt).peers)) [
  | inr (x, e) ↦
      let same : x ≡ tr = d x tr (m.named lt x (h tr).addr e) in
      by_joins h (Connected_already h lt tr m (e ∙ ap some same)) (connect_known 2 h lt tr e)
  | inl fresh ↦ elim (Bool-cases (tr == lt)) [
    | inl q ↦
        let same : tr ≡ lt = (==_iff tr lt).0 q in
        let alone : lookup (h lt).addr (h lt).peers ≡ none =
          ap (λ i. lookup (h i).addr (h lt).peers) (sym same) ∙ fresh in
        by_joins (add_peer lt lt h) (rw same (add_peer-Joins h lt alone))
          (rw same (connect_self h lt alone))
    | inr q ↦
        let back = unknown_back h lt tr m d fresh in
        let ne : tr ≢ lt = λ e. ground (arith, q, e) in
        by_joins (add_peer tr lt (add_peer lt tr h)) (add_peer_both-Joins h lt tr ne fresh back)
          (connect_both h lt tr ne fresh back)
  ]
]
  where
    by_joins :
        (h' : Heap)
        → Joins h lt tr h'
        → connect_loop 3 lt tr h ≡ some h'
        → (h' : Heap) × (connect_loop 3 lt tr h ≡ some h') × Connected lt tr h h' × Mesh h'
    by_joins h' j e = (
      h',
      e,
      (j.here, j.there, j.addrs, j.channels, λ k x a q. j.old k a q),
      Joins-Mesh h lt tr h' j m,
    )
