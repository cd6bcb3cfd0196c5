-- ===== src/Server/Setup/Joined.antt =====
-- `Connect` of server/server.go, over all the transports that it is given.
use goblockchain.Base.{
  ℕ, ◌≡◌, refl, sym, ap, ◌∙◌, inl, inr, ◌⊎◌, Option, none, some, List, [], ◌∷◌, All, Bool-cases,
  bytes_beq, bytes_beq_iff, bytes_eq,
}
use goblockchain.Base.Map.{lookup}
use goblockchain.Network.LocalTransport.{Heap}
use goblockchain.Network.LocalTransport.Connect.{Mesh, DistinctAddrs, connect-Mesh}
use goblockchain.Server.Setup.{connect_stranger, connect_strangers}

-- The two have each other under their addresses, unless they are one.
abbrev pub Linked : ℕ → Heap → ℕ → Type 0
Linked lt h tr =
    (tr ≡ lt)
    ⊎ ((lookup (h tr).addr (h lt).peers ≡ some tr) × (lookup (h lt).addr (h tr).peers ≡ some lt))

-- Addresses and channels are as before, and the connections of before are there still.
abbrev pub Extended : Heap → Heap → Type 0
Extended h h' =
    ((k : ℕ) → (h' k).addr ≡ (h k).addr)
    × ((k : ℕ) → (h' k).recv_ch ≡ (h k).recv_ch)
    × ((k x : ℕ) (a : List ℕ) → lookup a (h k).peers ≡ some x → lookup a (h' k).peers ≡ some x)

module _ (lt tr : ℕ) (h h' : Heap) (x : Extended h h') where
  Extended-Linked : Linked lt h tr → Linked lt h' tr
  Extended-Linked (inl same) = inl same
  Extended-Linked (inr (here, there)) = inr (
    ap (λ a. lookup a (h' lt).peers) (x.0 tr) ∙ x.2 lt tr (h tr).addr here,
    ap (λ a. lookup a (h' tr).peers) (x.0 lt) ∙ x.2 tr lt (h lt).addr there,
  )

  Extended-DistinctAddrs : DistinctAddrs h → DistinctAddrs h'
  Extended-DistinctAddrs d i j e = d i j (sym (x.0 i) ∙ e ∙ x.0 j)

-- A round of the loop.
connect_stranger_lem :
    (lt tr : ℕ) (h : Heap)
    → Mesh h
    → DistinctAddrs h
    → (h' : Heap) × (connect_stranger lt tr h ≡ some h') × Linked lt h' tr × Extended h h' × Mesh h'
connect_stranger_lem lt tr h m d = elim (Bool-cases (bytes_beq (h lt).addr (h tr).addr)) [
  | inl e ↦
      let same : lt ≡ tr = d lt tr ((bytes_beq_iff (h lt).addr (h tr).addr).0 e) in
      (h, rw e refl, inl (sym same), (λ k. refl, λ k. refl, λ k x a q. q), m)
  | inr e ↦
      let (h', done, (here, there, addrs, channels, old), m') = connect-Mesh h lt tr m d in
      let x : Extended h h' = (addrs, channels, old) in
      (
        h',
        rw e done,
        inr (
          ap (λ a. lookup a (h' lt).peers) (addrs tr) ∙ here,
          ap (λ a. lookup a (h' tr).peers) (addrs lt) ∙ there,
        ),
        x,
        m',
      )
]

abbrev then_strangers : ℕ → List ℕ → Option Heap → Option Heap
then_strangers lt strangers o = elim o [ none ↦ none | some h ↦ connect_strangers lt strangers h ]

-- Take transports with different addresses, connected as `Connect` of a transport leaves them: each
-- under its own address, and both ways. Then `Connect` of a server ends without an error, and after it
-- the server's transport and each of those it was given, but itself, have each other as peers. No
-- address and no channel has changed, all connections of before are there still, and connections are
-- again under the right address and both ways.
pub connect_strangers-Mesh :
    (lt : ℕ) (strangers : List ℕ) (h : Heap)
    → Mesh h
    → DistinctAddrs h
    → (h' : Heap) × (connect_strangers lt strangers h ≡ some h')
      × All (Linked lt h') strangers
      × Extended h h'
      × Mesh h'
unfolding connect_strangers
connect_strangers-Mesh lt [] h m d = (h, refl, tt, (λ k. refl, λ k. refl, λ k x a q. q), m)
connect_strangers-Mesh lt (tr ∷ strangers) h m d =
    let (h1, e1, linked, x, m1) = connect_stranger_lem lt tr h m d in
    let (h2, e2, all, y, m2) =
      connect_strangers-Mesh lt strangers h1 m1 (Extended-DistinctAddrs lt tr h h1 x d) in
    (
      h2,
      ap (then_strangers lt strangers) e1 ∙ e2,
      (Extended-Linked lt tr h1 h2 y linked, all),
      (λ k. y.0 k ∙ x.0 k, λ k. y.1 k ∙ x.1 k, λ k z a q. y.2 k z a (x.2 k z a q)),
      m2,
    )
