-- ===== src/Server/Node/CatchUp/Request.antt =====
-- The request, the answer and what the follower makes of it (server/server_internal.go).
use goblockchain.Base.{
  ℕ, suc, ◌+◌, ◌≤◌, ◌<◌, ◌≡◌, refl, sym, ap, ◌∙◌, inl, inr, true, some, List, [], ◌∷◌, ◌++◌, ok,
  arith, length, get_elem?, u32_mod, bytes_eq, nat_eq, bytes_eq,
}
use goblockchain.Core.Data.{HeaderPtr, Block}
use goblockchain.Core.Platform.{Platform, EncodesFields}
use goblockchain.Core.Block.{verify_block}
use goblockchain.Core.Blockchain.{Blockchain, height, get_block_at}
use goblockchain.Core.Blockchain.Invariant.{IsValid, chain_headers, height_lem, get_header_within}
use goblockchain.Core.Blockchain.Lookup.{found}
use goblockchain.Core.Coding.{blocks_received}
use goblockchain.Core.Block.Received.{verify_block-block_received}
use goblockchain.Base.Map.{lookup, has_key}
use goblockchain.Server.Decode.Allocation.{AllocatedFrom}
use goblockchain.Server.Node.{
  Node, get_blocks_response, handle_get_blocks_request, handle_get_blocks_response,
}
use goblockchain.Server.Node.Serve.{BlocksFrom, handle_get_blocks_request-BlocksFrom}
use goblockchain.Server.Node.Growth.{Below, Kept-start}
use goblockchain.Server.Node.CatchUp.{Agrees, Continues, RunOn, CaughtUp, adopts}

module _ (p : Platform) where
  -- A block that `GetBlockAt` finds has the header that the chain has at its height.
  header_at :
      (bc : Blockchain) (i : ℕ) (b : Block)
      → IsValid p bc
      → i ≤ height bc
      → get_block_at i bc ≡ ok b
      → (hdr : HeaderPtr) × (get_elem? (chain_headers bc) i ≡ some hdr) × (b.header ≡ hdr)
  header_at bc i b v h e =
      let (hdr, at_i, got) = get_header_within p bc v i h in
      let (c, in_store, of_hdr) = v.stored i hdr at_i in
      let same : c ≡ b = ground (arith, e, found bc i hdr c got in_store) in
      (hdr, at_i, ap (λ (x : Block). x.header) (sym same) ∙ of_hdr)

  received-AllocatedFrom :
      (k : ℕ) (blocks : List Block) → AllocatedFrom k (blocks_received k blocks)
  received-AllocatedFrom k [] = tt
  received-AllocatedFrom k (b ∷ blocks) = (refl, received-AllocatedFrom (suc k) blocks)

  -- The blocks of the chain from this height on verify.
  abbrev pub VerifiedFrom : ℕ → Blockchain → Type 0
  VerifiedFrom start bc =
      (i : ℕ) (b : Block) → start ≤ i → get_block_at i bc ≡ ok b → verify_block p b ≡ ok tt

  received-Continues :
      EncodesFields p
      → (bc : Blockchain) (start k : ℕ) (blocks : List Block) → IsValid p bc
      → VerifiedFrom start bc
      → start + length blocks ≡ length (chain_headers bc)
      → ((j : ℕ) (b : Block) → get_elem? blocks j ≡ some b → get_block_at (start + j) bc ≡ ok b)
      → Continues p bc start (blocks_received k blocks)
  received-Continues f bc start k [] v good total each = omega (arith, total)
  received-Continues f bc start k (b ∷ blocks) v good total each =
      let here : get_block_at start bc ≡ ok b =
        ap (λ i. get_block_at i bc) (omega arith) ∙ each 0 b refl in
      let (hdr, at_start, same) =
        header_at bc start b v (omega (arith, height_lem p bc v, total)) here in
      (
        (hdr, at_start, ap (λ (x : HeaderPtr). x.target) same),
        (verify_block-block_received p f k b).0 ∙ good start b (omega arith) here,
        received-Continues f bc (suc start) (suc k) blocks v (λ i c h e. good i c (omega arith) e)
            (omega (arith, total))
            (λ j c e. ap (λ i. get_block_at i bc) (omega arith) ∙ each (suc j) c e),
      )

  -- Take two nodes with valid chains, the follower's a part of the leader's as far as it goes, and let
  -- the leader know the follower as a peer and have a connection to it. The leader answers the follower's request for the blocks
  -- above its height, whatever this height is, and what then arrives at the follower gives it the
  -- leader's headers, all of them. The one way for this to fail is that the index has the hash of a
  -- new header already, that is, a collision. (These blocks of the leader verify, their transactions
  -- run on the follower's contract state, gob writes the exported fields, and the follower's decoder
  -- allocates from `k` on.)
  pub handle_get_blocks_response-CaughtUp :
      EncodesFields p
      → (k : ℕ) (leader follower : Node) (requestor addr : List ℕ) → IsValid p leader.chain
      → IsValid p follower.chain
      → Below k (chain_headers follower.chain)
      → height follower.chain ≤ height leader.chain
      → height leader.chain + 1 < u32_mod
      → Agrees follower.chain leader.chain
      → VerifiedFrom (height follower.chain + 1) leader.chain
      → ((blocks : List Block)
          → BlocksFrom (height follower.chain + 1) leader.chain blocks
          → RunOn p follower.chain.contract_state (blocks_received k blocks))
      → lookup requestor leader.peers ≡ some addr
      → has_key addr leader.connections ≡ true
      → (blocks : List Block) × (handle_get_blocks_request requestor
            (height follower.chain + 1)
            leader
          ≡ (
            ok tt,
            record leader { outbox = leader.outbox ++ (get_blocks_response addr blocks ∷ []) },
          ))
        × CaughtUp p leader.chain (handle_get_blocks_response p (blocks_received k blocks) follower)
  handle_get_blocks_response-CaughtUp f k leader follower requestor addr v w below lower room same
        good run known connected =
      let start : ℕ = height follower.chain + 1 in
      let (blocks, (total, each), answers) =
        handle_get_blocks_request-BlocksFrom p leader requestor addr start v room (omega arith)
          known in
      let next : start ≡ length (chain_headers follower.chain) = height_lem p follower.chain w in
      (
        blocks,
        elim answers [
          | inl (_, sent) ↦ sent
          | inr (none_there, _) ↦ absurd (ground (arith, none_there, connected))
        ],
        adopts p f follower.chain k (blocks_received k blocks) follower leader.chain
            (received-AllocatedFrom k blocks) (Kept-start p follower.chain k w below) v same
            (rw (sym next) (
              received-Continues f leader.chain start k blocks v good
                (total ∙ height_lem p leader.chain v) (λ j b e. (each j b e).0)))
            (run blocks (total, each)),
      )
