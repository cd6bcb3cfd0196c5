-- ===== src/Core/Blockchain/History.antt =====
-- A chain over its life (core/blockchain.go): made by `NewBlockchain`, and offered blocks by `AddBlock`,
-- good ones and others.
use goblockchain.Base.{◌≡◌, ok, inl, inr}
use goblockchain.Types.Hash.{Hash}
use goblockchain.Core.Data.{Block}
use goblockchain.Core.Platform.{Platform}
use goblockchain.Core.Block.{block_hash}
use goblockchain.Core.Blockchain.{Blockchain, Session, add_block, new_blockchain}
use goblockchain.Core.Blockchain.Invariant.{IsValid}
use goblockchain.Core.Blockchain.Append.{Coherent}
use goblockchain.Core.Blockchain.Add.{add_block_outcome, SameBlocks}
use goblockchain.Core.Blockchain.Genesis.{new_blockchain_lem}

pub data ChainHistory (p : Platform) : Blockchain → Type 0 where
  started :
      (genesis b : Block) (h : Hash)
      → genesis.header.target.height ≡ 0
      → block_hash p genesis ≡ (ok h, b)
      → ChainHistory p (new_blockchain p genesis).1.chain
  offered :
      (s : Session)
      → ChainHistory p s.chain
      → Coherent s.chain s.block.header
      → ChainHistory p (add_block p s).1.chain

module _ (p : Platform) where
  pub SameBlocks-IsValid :
      (bc bc' : Blockchain) → SameBlocks p bc bc' → IsValid p bc → IsValid p bc'
  SameBlocks-IsValid bc bc' (headers, store, _) v = record {
    nonempty = rw headers v.nonempty;
    fits = rw headers v.fits;
    numbered = rw headers v.numbered;
    linked = rw headers v.linked;
    stored = rw (headers, store) v.stored;
    indexed = rw headers v.indexed;
  }

  -- Whatever blocks it is offered after its genesis block, a chain stays valid: numbered from 0 on,
  -- each header with the hash of the one before, and each with a block in the store.
  pub ChainHistory-IsValid : (bc : Blockchain) → ChainHistory p bc → IsValid p bc
  ChainHistory-IsValid _ (started genesis b h z e) = (new_blockchain_lem p genesis b h z e).1.0
  ChainHistory-IsValid _ (offered s past c) =
      let v = ChainHistory-IsValid s.chain past in
      elim (add_block_outcome p s v c) [
        | inl (_, (w, _, _, _)) ↦ w
        | inr (_, same) ↦ SameBlocks-IsValid s.chain (add_block p s).1.chain same v
      ]
