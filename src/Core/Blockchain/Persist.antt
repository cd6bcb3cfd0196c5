-- ===== src/Core/Blockchain/Persist.antt =====
-- `persistBlock` of core/blockchain.go: it fails only if the block's hash is already in the index.
use goblockchain.Base.{
  ℕ, ◌-◌, ◌≡◌, refl, none, some, List, [], ◌∷◌, ◌++◌, ok, err, arith, length, bytes_eq, Result,
  Fails, panic, stuck, Bool-cases, inl, inr,
}
use goblockchain.Base.Map.{Map, lookup, insert}
use goblockchain.Types.Hash.{Hash, is_zero}
use goblockchain.Core.Data.{Error, Transaction, Block, TxHasher, default_tx_hasher, header_exists}
use goblockchain.Core.Platform.{Platform}
use goblockchain.Core.Transaction.{set_hasher, tx_hash, hash_with}
use goblockchain.Core.Block.{block_hash}
use goblockchain.Core.HeaderStore
use goblockchain.Core.HeaderStore.{HeaderStore}
use goblockchain.Core.Blockchain.{Session, index_txns, store_block, persist_block, after_hash}

module _ (p : Platform) where
  -- With a hasher a transaction has a hash.
  pub tx_hash_ok :
      (t : Transaction) (h : TxHasher)
      → (x : Hash) × (u : Transaction) × (tx_hash p (set_hasher h t) ≡ (ok x, u))
  unfolding tx_hash set_hasher
  tx_hash_ok t h = elim (Bool-cases (is_zero t.hash)) [
    | inl e ↦ (
      hash_with p h (set_hasher h t),
      record t { hasher = some h; hash = hash_with p h (set_hasher h t) },
      rw e,
    )
    | inr e ↦ (t.hash, record t { hasher = some h }, rw e)
  ]

  pub index_txns_ok :
      (txns : List Transaction) (st : Map Hash Transaction) → (index_txns p txns st).0 ≡ ok tt
  unfolding index_txns
  index_txns_ok [] st = refl
  index_txns_ok (t ∷ txns) st =
      let (x, u, e) = tx_hash_ok t default_tx_hasher in
      rw (e, after_hash) (index_txns_ok txns (insert x u st))

  -- The hash of a block is kept with it, and nothing else of the block changes.
  pub block_hash_keeps :
      (b b' : Block) (h : Hash)
      → block_hash p b ≡ (ok h, b')
      → (block_hash p b' ≡ (ok h, b')) × (b'.header ≡ b.header) × (b'.transactions ≡ b.transactions)
  unfolding block_hash
  block_hash_keeps b b' h e = ground arith

  -- The chain and the block after the header is in the store.
  abbrev pub with_header : Hash → Block → Session → Session
  with_header h b s = record {
    chain = record s.chain {
      headers = record {
        headers = s.chain.headers.headers ++ (b.header ∷ []);
        idx =
            insert h (length (s.chain.headers.headers ++ (b.header ∷ [])) - 1) s.chain.headers.idx;
      };
    };
    block = b;
  }

  pub store_block_ok : (s : Session) → store_block p s ≡ (ok tt, (store_block p s).1)
  unfolding store_block
  store_block_ok s = rw (index_txns_ok s.block.transactions s.chain.tx_store)

  -- A block with a hash that the index does not know goes in, and its header behind the others.
  pub persist_block_ok :
      (s : Session) (h : Hash) (b : Block)
      → block_hash p s.block ≡ (ok h, b)
      → lookup h s.chain.headers.idx ≡ none
      → persist_block p s ≡ (ok tt, (store_block p (with_header h b s)).1)
  unfolding persist_block HeaderStore.put
  persist_block_ok s h b e fresh =
      let (again, hdr, _) = block_hash_keeps s.block b h e in
      rw (e, fresh, again) (store_block_ok (with_header h b s))

  pub persist_block_exists :
      (s : Session) (h : Hash) (b : Block) {ix : ℕ}
      → block_hash p s.block ≡ (ok h, b)
      → lookup h s.chain.headers.idx ≡ some ix
      → persist_block p s ≡ (err header_exists, record s { block = b })
  unfolding persist_block HeaderStore.put
  persist_block_exists s h b e known = rw (e, known)

  -- A block with no hash to be had does not reach the index.
  pub persist_block_unhashed :
      (s : Session) (r : Result Error Hash) (b : Block)
      → block_hash p s.block ≡ (r, b)
      → Fails r
      → Fails (persist_block p s).0 × ((persist_block p s).1 ≡ record s { block = b })
  unfolding persist_block
  persist_block_unhashed s (ok h) b e f = absurd f
  persist_block_unhashed s (err x) b e f = rw e (tt, refl)
  persist_block_unhashed s (panic q) b e f = rw e (tt, refl)
  persist_block_unhashed s stuck b e f = rw e (tt, refl)
