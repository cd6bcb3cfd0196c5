-- ===== src/Server/Setup/Ready.antt =====
-- The server that `NewServer` of server/server.go returns.
use goblockchain.Base.{ℕ, ◌+◌, ◌≡◌, refl, ap, ◌∙◌, none, ok, [], ◌∷◌, arith}
use goblockchain.Core.Platform.{Platform, EncodesFields}
use goblockchain.Core.Block.{new_block}
use goblockchain.Core.Block.Total.{block_hash_total}
use goblockchain.Core.Blockchain.{new_blockchain}
use goblockchain.Core.Blockchain.Invariant.{IsValid, chain_headers}
use goblockchain.Core.Blockchain.Genesis.{Starts, new_blockchain_lem}
use goblockchain.Server.TxPool.{new_tx_pool, with_hasher, max_pool_depth}
use goblockchain.Server.TxPool.Admission
use goblockchain.Server.TxPool.History.{created, History-IsValid}
use goblockchain.Server.Node.Dispatch.{Server}
use goblockchain.Server.Node.Growth.{Below}
use goblockchain.Server.Setup.{
  ServerOpts, Started, create_genesis, server_with, new_server, with_chain, after_genesis,
  hasher_or_default,
}

-- What the loops of a server start from, with the genesis block at this address alone.
abbrev pub Ready : Platform → ℕ → Server → Type 0
Ready p addr s =
    IsValid p s.node.chain
    × (chain_headers s.node.chain ≡ (create_genesis addr).header ∷ [])
    × Below s.next_addr (chain_headers s.node.chain)
    × Admission.IsValid p s.node.pool

module _ (p : Platform) (f : EncodesFields p) (random addr : ℕ) (opts : ServerOpts) where
  genesis-Starts :
      ((new_blockchain p (create_genesis addr)).0 ≡ ok tt)
      × Starts p (create_genesis addr).header (new_blockchain p (create_genesis addr)).1.chain
  unfolding create_genesis new_block
  genesis-Starts =
      let (h, b, e) = block_hash_total p f (create_genesis addr) in
      new_blockchain_lem p (create_genesis addr) b h refl e

  pool-IsValid :
      Admission.IsValid p (new_tx_pool (with_hasher (hasher_or_default opts.tx_hasher) ∷ []))
  unfolding new_tx_pool with_hasher max_pool_depth
  pool-IsValid = History-IsValid p _ (created 1000 (hasher_or_default opts.tx_hasher))

  -- `NewServer` without a chain in its options returns a server (gob writes headers without an error).
  -- Its chain is valid and has the genesis block alone, its pool is valid, and its headers stand below
  -- the next free address: this is where the loops of `Start` begin.
  pub new_server-Ready :
      opts.blockchain ≡ none
      → (s : Started) × (new_server p random addr opts ≡ ok s) × Ready p addr s.server
  unfolding new_server server_with create_genesis new_block
  new_server-Ready e =
      let (done, (v, one, _, _)) = genesis-Starts in
      let session = (new_blockchain p (create_genesis addr)).1 in
      (
        server_with random (addr + 1) opts session.chain,
        ap (with_chain p random addr opts) e
            ∙ ap (λ r. after_genesis (server_with random (addr + 1) opts) (r, session)) done,
        (v, one, rw one (omega arith, tt), pool-IsValid),
      )
