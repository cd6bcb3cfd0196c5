-- ===== src/Server/Node/Sync.antt =====
-- `handleGetBlocksResponse` of server/server_internal.go: the blocks that a peer sent.
use goblockchain.Base.{
  ◌>>=◌, ◌≤◌, ◌≡◌, ◌≢◌, refl, sym, ap, ◌∙◌, ◌⊎◌, inl, inr, List, [], ◌∷◌, ◌++◌, Result, ok, err,
  panic, stuck, Go, bind_at, if◌then◌else◌, pure, leb, length, get_elem?-append_cases, All, Fails,
  Bool-cases, arith,
}
use goblockchain.Core.Data
use goblockchain.Core.Data.{HeaderPtr, Block}
use goblockchain.Core.Platform.{Platform}
use goblockchain.Core.Blockchain.{Blockchain, Session, height, has_block_at_height, add_block}
use goblockchain.Core.Blockchain.Invariant.{IsValid, chain_headers, height_lem}
use goblockchain.Core.Blockchain.Append.{Coherent}
use goblockchain.Core.Blockchain.Add.{add_block_outcome, Extended, SameBlocks}
use goblockchain.Core.Blockchain.History.{SameBlocks-IsValid}
use goblockchain.Server.Node.{Node, Error, carry, chain_add, handle_get_blocks_response}

-- The headers of the blocks stand at addresses of their own, as a decoder makes them.
abbrev pub Apart : Blockchain → List Block → Type 0
Apart bc [] = Unit
Apart bc (b ∷ blocks) =
    Coherent bc b.header
    × All (λ (c : Block). b.header.addr ≢ c.header.addr) blocks
    × Apart bc blocks

Apart-same :
    (bc bc' : Blockchain) (blocks : List Block)
    → chain_headers bc' ≡ chain_headers bc
    → Apart bc blocks
    → Apart bc' blocks
Apart-same bc bc' [] e a = tt
Apart-same bc bc' (b ∷ blocks) e (c, others, a) = (rw e c, others, Apart-same bc bc' blocks e a)

Apart-grown :
    (bc bc' : Blockchain) (hdr : HeaderPtr) (blocks : List Block)
    → chain_headers bc' ≡ chain_headers bc ++ (hdr ∷ [])
    → All (λ (c : Block). hdr.addr ≢ c.header.addr) blocks
    → Apart bc blocks
    → Apart bc' blocks
Apart-grown bc bc' hdr [] e ne a = tt
Apart-grown bc bc' hdr (b ∷ blocks) e (n, ne) (c, others, a) =
    (coherent, others, Apart-grown bc bc' hdr blocks e ne a)
  where
    coherent : Coherent bc' b.header
    coherent i h at_i q = elim (get_elem?-append_cases (chain_headers bc) hdr i (rw e at at_i)) [
      | inl (_, old) ↦ c i h old q
      | inr (_, same) ↦ absurd (n (ap (λ (x : HeaderPtr). x.addr) (sym same) ∙ q))
    ]

module _ (p : Platform) where
  -- The chain is valid and no shorter, and after a success it has a block at the height of each of
  -- these; the rest of the node is as before.
  abbrev pub Synced : List Block → Node → Result Error (Unit {0}) × Node → Type 0
  Synced blocks n (r, n') =
      IsValid p n'.chain
      × (height n.chain ≤ height n'.chain)
      × (n'.pool ≡ n.pool)
      × (n'.outbox ≡ n.outbox)
      × (Fails r ⊎ All (λ (b : Block). b.header.target.height ≤ height n'.chain) blocks)

  abbrev offered : Block → Go Error Node (Unit {0})
  offered b n =
      (if has_block_at_height b.header.target.height n.chain
          then pure tt
          else (chain_add p b >>= λ _. pure tt))
        n

  -- One block: it is there afterwards, or the call failed; and the other blocks are still apart.
  abbrev Offered : Block → List Block → Node → Result Error (Unit {0}) × Node → Type 0
  Offered b blocks n (r, n') =
      IsValid p n'.chain
      × (height n.chain ≤ height n'.chain)
      × (n'.pool ≡ n.pool)
      × (n'.outbox ≡ n.outbox)
      × Apart n'.chain blocks
      × (Fails r ⊎ (b.header.target.height ≤ height n'.chain))

  kept :
      (bc bc' : Blockchain) (blocks : List Block)
      → IsValid p bc
      → Apart bc blocks
      → SameBlocks p bc bc'
      → IsValid p bc' × (height bc ≤ height bc') × Apart bc' blocks
  kept bc bc' blocks v a (headers, store, txns) =
      let w = SameBlocks-IsValid p bc bc' (headers, store, txns) v in
      let same : chain_headers bc' ≡ chain_headers bc = ap (λ h. h.headers) headers in
      (
        w,
        omega (arith, height_lem p bc v, height_lem p bc' w, ap length same),
        Apart-same bc bc' blocks same a,
      )

  added :
      (b : Block) (blocks : List Block) (n : Node) (r : Result Data.Error (Unit {0})) (s : Session)
      → IsValid p n.chain
      → All (λ (c : Block). b.header.addr ≢ c.header.addr) blocks
      → Apart n.chain blocks
      → ((r ≡ ok tt) × Extended p n.chain b s.chain) ⊎ (Fails r × SameBlocks p n.chain s.chain)
      → Offered b blocks n
          (bind_at (carry (r, s.block)) (record n { chain = s.chain }) (λ _. pure tt))
  added b blocks n (ok _) s v ne a (inl (_, (w, x, g, h))) = (
    w,
    omega (arith, h),
    refl,
    refl,
    Apart-grown n.chain s.chain b.header blocks g ne a,
    inr (omega (arith, h, x.next_height, height_lem p n.chain v)),
  )
  added b blocks n (ok _) s v ne a (inr (f, _)) = absurd f
  added b blocks n (err y) s v ne a (inl (q, _)) = cc
  added b blocks n (err y) s v ne a (inr (_, same)) =
      let (w, le, a') = kept n.chain s.chain blocks v a same in (w, le, refl, refl, a', inl tt)
  added b blocks n (panic y) s v ne a (inl (q, _)) = cc
  added b blocks n (panic y) s v ne a (inr (_, same)) =
      let (w, le, a') = kept n.chain s.chain blocks v a same in (w, le, refl, refl, a', inl tt)
  added b blocks n stuck s v ne a (inl (q, _)) = cc
  added b blocks n stuck s v ne a (inr (_, same)) =
      let (w, le, a') = kept n.chain s.chain blocks v a same in (w, le, refl, refl, a', inl tt)

  offered-Offered :
      (b : Block) (blocks : List Block) (n : Node)
      → IsValid p n.chain
      → Apart n.chain (b ∷ blocks)
      → Offered b blocks n (offered b n)
  unfolding has_block_at_height
  offered-Offered b blocks n v (c, ne, a) =
      elim (Bool-cases (leb b.header.target.height (height n.chain))) [
        | inl known ↦ rw known (v, omega arith, refl, refl, a, inr (ground arith))
        | inr above ↦
            let s : Session = record { chain = n.chain; block = b } in
            rw above (
              added b blocks n (add_block p s).0 (add_block p s).1 v ne a
                (add_block_outcome p s v c))
      ]

  then_rest :
      (b : Block) (blocks : List Block) (n : Node) (r : Result Error (Unit {0})) (n' : Node)
      → Offered b blocks n (r, n')
      → ((m : Node)
          → IsValid p m.chain
          → Apart m.chain blocks
          → Synced blocks m (handle_get_blocks_response p blocks m))
      → Synced (b ∷ blocks) n (bind_at r n' (λ _. handle_get_blocks_response p blocks))
  then_rest b blocks n (ok _) n' (w, le, po, ou, a, there) rest =
      let (w', le', po', ou', all) = rest n' w a in
      (
        w',
        omega arith,
        po' ∙ po,
        ou' ∙ ou,
        elim all [
          | inl f ↦ inl f
          | inr hs ↦ elim there [ inl f ↦ absurd f | inr h ↦ inr (omega arith, hs) ]
        ],
      )
  then_rest b blocks n (err y) n' (w, le, po, ou, a, there) rest = (w, le, po, ou, inl tt)
  then_rest b blocks n (panic y) n' (w, le, po, ou, a, there) rest = (w, le, po, ou, inl tt)
  then_rest b blocks n stuck n' (w, le, po, ou, a, there) rest = (w, le, po, ou, inl tt)

  -- On a valid chain, with blocks whose headers stand at addresses of their own,
  -- `handleGetBlocksResponse` leaves a valid chain that is no shorter. Where it succeeds the chain has
  -- a block at the height of each of the blocks, and pool and outbox are as before in any case.
  pub handle_get_blocks_response-Synced :
      (blocks : List Block) (n : Node)
      → IsValid p n.chain
      → Apart n.chain blocks
      → Synced blocks n (handle_get_blocks_response p blocks n)
  unfolding handle_get_blocks_response
  handle_get_blocks_response-Synced [] n v a = (v, omega arith, refl, refl, inr tt)
  handle_get_blocks_response-Synced (b ∷ blocks) n v a =
      then_rest b blocks n (offered b n).0 (offered b n).1 (offered-Offered b blocks n v a)
        (λ m w a'. handle_get_blocks_response-Synced blocks m w a')
