-- ===== src/Server/Node/Serve.antt =====
-- `handleGetBlocksRequest` of server/server_internal.go: the blocks that a peer asks for.
use goblockchain.Base.{
  ℕ, zero, suc, ◌+◌, ◌-◌, ◌%◌, ◌<◌, ◌≤◌, ◌≡◌, refl, ap, ◌∙◌, inl, inr, ◌⊎◌, true, false, some, List,
  [], ◌∷◌, ◌++◌, ok, leb, length, get_elem?, bytes_eq, arith, u32_mod, Bool-cases,
}
use goblockchain.Base.Map.{lookup, has_key}
use goblockchain.Core.Data.{Block}
use goblockchain.Core.Platform.{Platform}
use goblockchain.Core.Blockchain.{Blockchain, height, get_block_at}
use goblockchain.Core.Blockchain.Invariant.{IsValid, get_header_within}
use goblockchain.Core.Blockchain.Lookup.{found}
use goblockchain.Server.Node.{Node, get_blocks_response, blocks_to_send, handle_get_blocks_request}

-- The blocks of the chain from this height on, in order, to its last.
abbrev pub BlocksFrom : ℕ → Blockchain → List Block → Type 0
BlocksFrom start bc blocks =
    (start + length blocks ≡ height bc + 1)
    × ((k : ℕ) (b : Block)
        → get_elem? blocks k ≡ some b
        → (get_block_at (start + k) bc ≡ ok b) × (b.header.target.height ≡ start + k))

module _ (p : Platform) (bc : Blockchain) (v : IsValid p bc) where
  block_within :
      (i : ℕ)
      → i ≤ height bc
      → (b : Block) × (get_block_at i bc ≡ ok b) × (b.header.target.height ≡ i)
  block_within i h =
      let (hdr, at_i, got) = get_header_within p bc v i h in
      let (b, in_store, of_hdr) = v.stored i hdr at_i in
      (b, found bc i hdr b got in_store, rw of_hdr (v.numbered i hdr at_i))

  BlocksFrom-cons :
      (i : ℕ) (b : Block) (blocks : List Block)
      → get_block_at i bc ≡ ok b
      → b.header.target.height ≡ i
      → BlocksFrom (suc i) bc blocks
      → BlocksFrom i bc (b ∷ blocks)
  BlocksFrom-cons i b blocks got at_i (l, each) = (omega arith, by_index)
    where
      by_index :
          (k : ℕ) (c : Block)
          → get_elem? (b ∷ blocks) k ≡ some c
          → (get_block_at (i + k) bc ≡ ok c) × (c.header.target.height ≡ i + k)
      by_index zero c e =
          let here : i + 0 ≡ i = omega arith in
          let same : b ≡ c = cc in rw (here, ← same) (got, at_i)
      by_index (suc k) c e = let up : i + suc k ≡ suc i + k = omega arith in rw up (each k c e)

  one_more :
      (fuel i j : ℕ) (b : Block) (blocks : List Block)
      → leb i (height bc) ≡ true
      → get_block_at i bc ≡ ok b
      → (i + 1) % u32_mod ≡ j
      → blocks_to_send fuel j bc ≡ ok blocks
      → blocks_to_send (suc fuel) i bc ≡ ok (b ∷ blocks)
  unfolding blocks_to_send
  one_more fuel i j b blocks within got next sent =
      let rest : blocks_to_send fuel ((i + 1) % u32_mod) bc ≡ ok blocks =
        ap (λ k. blocks_to_send fuel k bc) next ∙ sent in
      rw (within, got, rest) refl

  blocks_to_send_lem :
      (fuel i : ℕ)
      → i ≤ height bc + 1
      → height bc + 1 < u32_mod
      → i + fuel ≡ height bc + 2
      → (blocks : List Block) × (blocks_to_send fuel i bc ≡ ok blocks) × BlocksFrom i bc blocks
  unfolding blocks_to_send
  blocks_to_send_lem zero i h q f = absurd (omega arith)
  blocks_to_send_lem (suc fuel) i h q f = elim (Bool-cases (leb i (height bc))) [
    | inr above ↦ ([], rw above refl, (ground arith, λ k b e. absurd (ground arith)))
    | inl within ↦
        let (b, got, at_i) = block_within i (ground arith) in
        let next : (i + 1) % u32_mod ≡ suc i = ground arith in
        let (blocks, sent, from) = blocks_to_send_lem fuel (suc i) (ground arith) q (omega arith) in
        (
          b ∷ blocks,
          one_more fuel i (suc i) b blocks within got next sent,
          BlocksFrom-cons i b blocks got at_i from,
        )
  ]

-- With a valid chain below the last height of a `uint32`, `handleGetBlocksRequest` of a known peer
-- for a height up to one above the chain's always returns without an error. If the transport has a
-- connection to the peer's address, the blocks of the chain from this height on, in order and to
-- the last, are sent there; if it has none, nothing is sent. Nothing else changes. (gob writes the
-- response.)
pub handle_get_blocks_request-BlocksFrom :
    (p : Platform) (n : Node) (requestor addr : List ℕ) (start : ℕ)
    → IsValid p n.chain
    → height n.chain + 1 < u32_mod
    → start ≤ height n.chain + 1
    → lookup requestor n.peers ≡ some addr
    → (blocks : List Block) × BlocksFrom start n.chain blocks
      × (((has_key addr n.connections ≡ true)
            × (handle_get_blocks_request requestor start n ≡ (
              ok tt,
              record n { outbox = n.outbox ++ (get_blocks_response addr blocks ∷ []) },
            )))
          ⊎ ((has_key addr n.connections ≡ false)
              × (handle_get_blocks_request requestor start n ≡ (ok tt, n))))
unfolding handle_get_blocks_request
handle_get_blocks_request-BlocksFrom p n requestor addr start v q h known =
    let (blocks, sent, from) =
      blocks_to_send_lem p n.chain v (suc (suc (height n.chain) - start)) start h q (omega arith) in
    (
      blocks,
      from,
      elim (Bool-cases (has_key addr n.connections)) [
        | inl e ↦ inl (e, rw (known, sent, e) refl)
        | inr e ↦ inr (e, rw (known, sent, e) refl)
      ],
    )
