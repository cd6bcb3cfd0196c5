-- ===== src/Network/LocalTransport/Joins.antt =====
-- How `addPeer` of network/local_transport.go changes the transports.
use goblockchain.Base.{
  ℕ, ◌⊎◌, ◌≡◌, ◌≢◌, refl, sym, ap, ◌∙◌, inl, inr, none, some, List, Bool-cases, arith, ◌==◌, All,
  All-append, ◌++◌, [], ◌∷◌, ==_iff, bytes_eq, bytes_beq, bytes_beq_iff,
}
use mathlib.Core.Path.{subst}
use goblockchain.Base.Map.{Map, lookup, insert}
use goblockchain.Base.MapLaws.{lookup-insert, lookup-insert_self}
use goblockchain.Network.LocalTransport.{Heap, add_peer}

-- Each entry of the map is the one that is found under its key, which is the address of the peer.
abbrev pub Keyed : Heap → ℕ → List ℕ × ℕ → Type 0
Keyed h lt e = ((h e.1).addr ≡ e.0) × (lookup e.0 (h lt).peers ≡ some e.1)

insert-fresh :
    (a : List ℕ) (tr : ℕ) (m : Map (List ℕ) ℕ)
    → lookup a m ≡ none
    → insert a tr m ≡ m ++ ((a, tr) ∷ [])
insert-fresh a tr [] e = refl
insert-fresh a tr ((j, k) ∷ m) e = elim (Bool-cases (bytes_beq j a)) [
  | inl q ↦ absurd (ground (arith, rw q at e))
  | inr q ↦ rw q (ap (λ l. (j, k) ∷ l) (insert-fresh a tr m (rw q at e)))
]

module _ (h : Heap) (lt tr : ℕ) where
  pub addr-add_peer : (k : ℕ) → (add_peer lt tr h k).addr ≡ (h k).addr
  addr-add_peer k = elim (Bool-cases (k == lt)) [
    | inl e ↦ rw e (ap (λ j. (h j).addr) (sym ((==_iff k lt).0 e)))
    | inr e ↦ rw e refl
  ]

  recv_ch-add_peer : (k : ℕ) → (add_peer lt tr h k).recv_ch ≡ (h k).recv_ch
  recv_ch-add_peer k = elim (Bool-cases (k == lt)) [
    | inl e ↦ rw e (ap (λ j. (h j).recv_ch) (sym ((==_iff k lt).0 e)))
    | inr e ↦ rw e refl
  ]

  peers-add_peer_self :
      (a : List ℕ)
      → lookup a (add_peer lt tr h lt).peers ≡ lookup a (insert (h tr).addr tr (h lt).peers)
  peers-add_peer_self a = rw ((==_iff lt lt).1 refl) refl

  pub peers-add_peer_other :
      (k : ℕ) (a : List ℕ) → k ≢ lt → lookup a (add_peer lt tr h k).peers ≡ lookup a (h k).peers
  peers-add_peer_other k a ne = elim (Bool-cases (k == lt)) [
    | inl e ↦ absurd (ne ((==_iff k lt).0 e))
    | inr e ↦ rw e refl
  ]

  pub here-add_peer : lookup (h tr).addr (add_peer lt tr h lt).peers ≡ some tr
  here-add_peer = peers-add_peer_self (h tr).addr ∙ lookup-insert_self (h tr).addr tr (h lt).peers

  new-add_peer :
      (k : ℕ) (a : List ℕ) {x : ℕ}
      → lookup a (add_peer lt tr h k).peers ≡ some x
      → (lookup a (h k).peers ≡ some x) ⊎ ((k ≡ lt) × (a ≡ (h tr).addr) × (x ≡ tr))
  new-add_peer k a e = elim (Bool-cases (k == lt)) [
    | inr other ↦ inl (rw other at e)
    | inl same ↦
        let at_lt : k ≡ lt = (==_iff k lt).0 same in
        elim (Bool-cases (bytes_beq (h tr).addr a)) [
          | inl q ↦ inr (
            at_lt,
            sym ((bytes_beq_iff (h tr).addr a).0 q),
            ground (arith, rw (same, lookup-insert (h tr).addr a tr (h lt).peers, q) at e),
          )
          | inr q ↦ inl (
              ap (λ j. lookup a (h j).peers) at_lt
              ∙ (rw (same, lookup-insert (h tr).addr a tr (h lt).peers, q) at e))
        ]
  ]

  old-add_peer :
      lookup (h tr).addr (h lt).peers ≡ none
      → (k : ℕ) (a : List ℕ) {x : ℕ} → lookup a (h k).peers ≡ some x
      → lookup a (add_peer lt tr h k).peers ≡ some x
  old-add_peer fresh k a e = elim (Bool-cases (k == lt)) [
    | inr other ↦ rw other e
    | inl same ↦
        let at_lt : k ≡ lt = (==_iff k lt).0 same in
        let found = sym (ap (λ j. lookup a (h j).peers) at_lt) ∙ e in
        elim (Bool-cases (bytes_beq (h tr).addr a)) [
          | inl q ↦
              let key : (h tr).addr ≡ a = (bytes_beq_iff (h tr).addr a).0 q in
              absurd (ground (arith, found, fresh, key))
          | inr q ↦ rw (same, lookup-insert (h tr).addr a tr (h lt).peers, q) found
        ]
  ]

module _ (h : Heap) (lt tr : ℕ) (fresh : lookup (h tr).addr (h lt).peers ≡ none) where
  add_peer_old-Keyed : (k : ℕ) (e : List ℕ × ℕ) → Keyed h k e → Keyed (add_peer lt tr h) k e
  add_peer_old-Keyed k e (named, found) =
      (addr-add_peer h lt tr e.1 ∙ named, old-add_peer h lt tr fresh k e.0 found)

  add_peers-Keyed :
      (k : ℕ) (peers : Map (List ℕ) ℕ)
      → All (Keyed h k) peers
      → All (Keyed (add_peer lt tr h) k) peers
  add_peers-Keyed k [] a = tt
  add_peers-Keyed k (e ∷ peers) (x, a) = (add_peer_old-Keyed k e x, add_peers-Keyed k peers a)

  add_peer_own-Keyed :
      All (Keyed h lt) (h lt).peers → All (Keyed (add_peer lt tr h) lt) (add_peer lt tr h lt).peers
  add_peer_own-Keyed a =
      let at_lt : (add_peer lt tr h lt).peers ≡ insert (h tr).addr tr (h lt).peers =
        rw ((==_iff lt lt).1 refl) refl in
      subst (λ l. All (Keyed (add_peer lt tr h) lt) l)
        (sym (at_lt ∙ insert-fresh (h tr).addr tr (h lt).peers fresh))
        (All-append (Keyed (add_peer lt tr h) lt) (h lt).peers (((h tr).addr, tr) ∷ [])
          (add_peers-Keyed lt (h lt).peers a)
          ((addr-add_peer h lt tr tr, here-add_peer h lt tr), tt))

  add_peer-Keyed :
      (k : ℕ)
      → All (Keyed h k) (h k).peers
      → All (Keyed (add_peer lt tr h) k) (add_peer lt tr h k).peers
  add_peer-Keyed k a = elim (Bool-cases (k == lt)) [
    | inr other ↦ rw other (add_peers-Keyed k (h k).peers a)
    | inl q ↦
        let same : k ≡ lt = (==_iff k lt).0 q in
        subst (λ j. All (Keyed (add_peer lt tr h) j) (add_peer lt tr h j).peers) (sym same)
          (add_peer_own-Keyed (subst (λ j. All (Keyed h j) (h j).peers) same a))
  ]

-- How the heap changes when the two are connected.
pub record Joins (h : Heap) (lt tr : ℕ) (h' : Heap) : Type 0 where
  pub addrs : (k : ℕ) → (h' k).addr ≡ (h k).addr
  pub channels : (k : ℕ) → (h' k).recv_ch ≡ (h k).recv_ch
  pub here : lookup (h tr).addr (h' lt).peers ≡ some tr
  pub there : lookup (h lt).addr (h' tr).peers ≡ some lt
  pub new :
      (k : ℕ) (a : List ℕ) {x : ℕ}
      → lookup a (h' k).peers ≡ some x
      → (lookup a (h k).peers ≡ some x)
        ⊎ (((k ≡ lt) × (a ≡ (h tr).addr) × (x ≡ tr)) ⊎ ((k ≡ tr) × (a ≡ (h lt).addr) × (x ≡ lt)))
  pub old :
      (k : ℕ) (a : List ℕ) {x : ℕ} → lookup a (h k).peers ≡ some x → lookup a (h' k).peers ≡ some x
  pub keyed : ((k : ℕ) → All (Keyed h k) (h k).peers) → (k : ℕ) → All (Keyed h' k) (h' k).peers

pub add_peer-Joins :
    (h : Heap) (lt : ℕ) → lookup (h lt).addr (h lt).peers ≡ none → Joins h lt lt (add_peer lt lt h)
add_peer-Joins h lt fresh = record {
  addrs = addr-add_peer h lt lt;
  channels = recv_ch-add_peer h lt lt;
  here = here-add_peer h lt lt;
  there = here-add_peer h lt lt;
  new = λ k a e. elim (new-add_peer h lt lt k a e) [ inl q ↦ inl q | inr q ↦ inr (inl q) ];
  old = old-add_peer h lt lt fresh;
  keyed = λ all k. add_peer-Keyed h lt lt fresh k (all k);
}

pub add_peer_both-Joins :
    (h : Heap) (lt tr : ℕ)
    → tr ≢ lt
    → lookup (h tr).addr (h lt).peers ≡ none
    → lookup (h lt).addr (h tr).peers ≡ none
    → Joins h lt tr (add_peer tr lt (add_peer lt tr h))
add_peer_both-Joins h lt tr ne fresh fresh' =
    let h1 = add_peer lt tr h in
    let at_lt : (h1 lt).addr ≡ (h lt).addr = addr-add_peer h lt tr lt in
    let still : lookup (h1 lt).addr (h1 tr).peers ≡ none =
      ap (λ a. lookup a (h1 tr).peers) at_lt
      ∙ peers-add_peer_other h lt tr tr (h lt).addr ne
      ∙ fresh' in
    record {
      addrs = λ k. addr-add_peer h1 tr lt k ∙ addr-add_peer h lt tr k;
      channels = λ k. recv_ch-add_peer h1 tr lt k ∙ recv_ch-add_peer h lt tr k;
      here = old-add_peer h1 tr lt still lt (h tr).addr (here-add_peer h lt tr);
      there = ap (λ a. lookup a (add_peer tr lt h1 tr).peers) (sym at_lt) ∙ here-add_peer h1 tr lt;
      new = λ k a e. elim (new-add_peer h1 tr lt k a e) [
        | inr (at_k, key, x) ↦ inr (inr (at_k, key ∙ at_lt, x))
        | inl q ↦ elim (new-add_peer h lt tr k a q) [ inl r ↦ inl r | inr r ↦ inr (inl r) ]
      ];
      old = λ k a e. old-add_peer h1 tr lt still k a (old-add_peer h lt tr fresh k a e);
      keyed = λ all k. add_peer-Keyed h1 tr lt still k (add_peer-Keyed h lt tr fresh k (all k));
    }
