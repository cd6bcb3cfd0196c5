-- ===== src/Core/Blockchain/Genesis.antt =====
-- `NewBlockchain` and `addGenesisBlock` of core/blockchain.go.
use goblockchain.Base.{
  ℕ, zero, suc, ◌≡◌, refl, sym, ap, ◌∙◌, some, [], ◌∷◌, ok, arith, length, get_elem?, bytes_eq,
  nat_eq,
}
use goblockchain.Base.Map.{lookup, insert}
use goblockchain.Base.MapLaws.{lookup-insert_self}
use goblockchain.Types.Hash.{Hash}
use goblockchain.Vm.State.{new_state}
use goblockchain.Core.Data.{HeaderPtr, Block}
use goblockchain.Core.Platform.{Platform}
use goblockchain.Core.HeaderStore
use goblockchain.Core.HeaderStore.{new_header_store}
use goblockchain.Core.Store.{new_mem_store, store_put}
use goblockchain.Core.Block.{block_hash}
use goblockchain.Core.Blockchain.{
  get_block_at, Blockchain, Session, height, persist_block, store_block, add_genesis_block,
  new_blockchain,
}
use goblockchain.Core.Blockchain.Invariant.{IsValid, chain_headers, height_lem, get_header_within}
use goblockchain.Core.Blockchain.Lookup.{found}
use goblockchain.Core.Blockchain.Persist.{persist_block_ok, block_hash_keeps, with_header}

module _ (p : Platform) where
  abbrev pub new_session : Block → Session
  new_session genesis = record {
    chain = record {
      headers = new_header_store;
      store = [];
      tx_store = [];
      contract_state = new_state;
    };
    block = genesis;
  }

  genesis_persists :
      (genesis : Block) → new_blockchain p genesis ≡ persist_block p (new_session genesis)
  unfolding new_blockchain new_mem_store add_genesis_block HeaderStore.empty
  genesis_persists genesis = refl

  only_one :
      (bc : Blockchain) (hdr : HeaderPtr) (i : ℕ) (a : HeaderPtr)
      → chain_headers bc ≡ hdr ∷ []
      → get_elem? (chain_headers bc) i ≡ some a
      → (i ≡ 0) × (a ≡ hdr)
  only_one bc hdr i a one e = by_index i (rw one at e)
    where
      by_index : (i : ℕ) → get_elem? (hdr ∷ []) i ≡ some a → (i ≡ 0) × (a ≡ hdr)
      by_index zero e = (refl, cc)
      by_index (suc i) e = absurd (ground arith)

  -- A chain of one header whose store has its block.
  one_header-IsValid :
      (bc : Blockchain) (hdr : HeaderPtr) (b : Block) (h : Hash)
      → hdr.target.height ≡ 0
      → chain_headers bc ≡ hdr ∷ []
      → bc.store ≡ insert hdr.addr b []
      → b.header ≡ hdr
      → bc.headers.idx ≡ insert h 0 []
      → IsValid p bc
  one_header-IsValid bc hdr b h z one st of_hdr ix = record {
    nonempty = rw one (omega arith);
    fits = rw one (omega arith);
    numbered =
        λ i a e. let (at_0, same) = only_one bc hdr i a one e in ground (arith, z, at_0, same);
    linked = λ i a c ea ec.
        let (beyond, _) = only_one bc hdr (suc i) c one ec in absurd (omega (arith, beyond));
    stored = λ i a e.
        let (_, same) = only_one bc hdr i a one e in
        (b, rw (same, st) (lookup-insert_self hdr.addr b []), of_hdr ∙ sym same);
    indexed = λ k n e. ground (arith, one, ix, e);
  }

  -- A chain as it starts: valid, of height 0, with a block for its only header.
  abbrev pub Starts : HeaderPtr → Blockchain → Type 0
  Starts hdr bc =
      IsValid p bc
      × (chain_headers bc ≡ hdr ∷ [])
      × (height bc ≡ 0)
      × ((b : Block) × (get_block_at 0 bc ≡ ok b) × (b.header ≡ hdr))

  one_header-Starts :
      (bc : Blockchain) (hdr : HeaderPtr) (b : Block) (h : Hash)
      → hdr.target.height ≡ 0
      → chain_headers bc ≡ hdr ∷ []
      → bc.store ≡ insert hdr.addr b []
      → b.header ≡ hdr
      → bc.headers.idx ≡ insert h 0 []
      → Starts hdr bc
  one_header-Starts bc hdr b h z one st of_hdr ix =
      let v = one_header-IsValid bc hdr b h z one st of_hdr ix in
      let (first, at_0, got) = get_header_within p bc v 0 (omega arith) in
      let (_, same) = only_one bc hdr 0 first one at_0 in
      let in_store : lookup first.addr bc.store ≡ some b =
        rw (same, st) (lookup-insert_self hdr.addr b []) in
      (
        v,
        one,
        omega (arith, height_lem p bc v, ap length one),
        (b, found bc 0 first b got in_store, of_hdr),
      )

  first-Starts :
      (hdr : HeaderPtr) (b : Block) (h : Hash) (genesis : Block)
      → hdr.target.height ≡ 0
      → b.header ≡ hdr
      → Starts hdr (store_block p (with_header p h b (new_session genesis))).1.chain
  unfolding store_block store_put
  first-Starts hdr b h genesis z same =
      let bc = (store_block p (with_header p h b (new_session genesis))).1.chain in
      let stored = (store_block p (with_header p h b (new_session genesis))).1.block in
      one_header-Starts bc hdr stored h z (ap (λ x. x ∷ []) same)
        (ap (λ (x : HeaderPtr). insert x.addr stored []) same) same refl

  -- From a genesis block of height 0 whose hash can be taken, `NewBlockchain` makes a valid chain of
  -- height 0: its only header is that of the block, and `GetBlockAt(0)` returns a block with it.
  pub new_blockchain_lem :
      (genesis b : Block) (h : Hash)
      → genesis.header.target.height ≡ 0
      → block_hash p genesis ≡ (ok h, b)
      → ((new_blockchain p genesis).0 ≡ ok tt)
        × Starts genesis.header (new_blockchain p genesis).1.chain
  new_blockchain_lem genesis b h z e =
      let done = genesis_persists genesis ∙ persist_block_ok p (new_session genesis) h b e refl in
      let (_, same, _) = block_hash_keeps p genesis b h e in
      rw done (refl, first-Starts genesis.header b h genesis z same)
