-- ===== src/Core/Blockchain.antt =====
-- `Blockchain` of core/blockchain.go and `BlockValidator` of core/validator.go, with the default
-- validator and hashers. Logging is left out.
pub mod Persist
pub mod Invariant
pub mod Validate
pub mod Append
pub mod Add
pub mod Contents
pub mod Lookup
pub mod TxIndex
pub mod Failures
pub mod Genesis
pub mod History
pub mod Integrity
use goblockchain.Base.{
  ℕ, ◌+◌, ◌-◌, ◌%◌, Bool, true, not, List, [], ◌∷◌, Result, ok, err, panic, stuck, Go, ◌>>=◌, ◌>>◌,
  gets, throw_if, on_part, if◌then◌else◌, ◌==◌, leb, bytes_beq, bytes_eq, nat_eq, sub_ℕ,
}
use goblockchain.Base.Map.{Map}
use goblockchain.Types.Hash.{Hash}
use goblockchain.Vm.Value
use goblockchain.Vm.State.{State, new_state}
use goblockchain.Vm.Machine.{Vm, new_vm, run}
use goblockchain.Core.Data.{
  Transaction, HeaderPtr, Block, Error, default_tx_hasher, vm_failed, block_at_height_exists,
  previous_hash_mismatch, out_of_sync, genesis_on_nonempty_chain,
}
use goblockchain.Core.Platform.{Platform}
use goblockchain.Core.Transaction.{set_hasher, tx_hash}
use goblockchain.Core.Block.{u32_mod, header_hash, block_hash, verify_block}
use goblockchain.Core.HeaderStore
use goblockchain.Core.HeaderStore.{HeaderStore, new_header_store}
use goblockchain.Core.Store.{new_mem_store, store_put, store_get}

-- `store` is keyed by the address of a header.
pub record Blockchain : Type 0 where
  pub headers : HeaderStore
  pub store : Map ℕ Block
  pub tx_store : Map Hash Transaction
  pub contract_state : State

-- What a call that is handed a `*Block` reads and writes.
pub record Session : Type 0 where
  pub chain : Blockchain
  pub block : Block

unfoldable pub height : Blockchain → ℕ
height bc = HeaderStore.height bc.headers

unfoldable pub has_block_at_height : ℕ → Blockchain → Bool
has_block_at_height h bc = leb h (height bc)

unfoldable pub get_header : ℕ → Blockchain → Result Error HeaderPtr
get_header h bc = HeaderStore.get_at h bc.headers

abbrev pub block_of : Result Error HeaderPtr → Blockchain → Result Error Block
block_of (ok hdr) bc = store_get hdr.addr bc.store
block_of (err e) bc = err e
block_of (panic q) bc = panic q
block_of stuck bc = stuck

unfoldable pub get_block_at : ℕ → Blockchain → Result Error Block
get_block_at h bc = block_of (get_header h bc) bc

unfoldable pub get_block_hash : Hash → Blockchain → Result Error Block
get_block_hash h bc = block_of (HeaderStore.get_hash h bc.headers) bc

unfoldable pub get_transaction : Hash → Blockchain → Result Error Transaction
get_transaction h bc = store_get h bc.tx_store

module _ (p : Platform) where
  abbrev pub hash_block : Go Error Session Hash
  hash_block = on_part (λ s. s.block) (λ s b. record s { block = b }) (block_hash p)

  -- The end of `ValidateBlock`, on the hash of the header before the block.
  abbrev pub check_previous : Block → Result Error Hash → Result Error (Unit {0})
  check_previous b (ok on_chain_hash) =
      if bytes_beq on_chain_hash b.header.target.previous_block_hash
      then verify_block p b
      else err previous_hash_mismatch
  check_previous b (err e) = err e
  check_previous b (panic q) = panic q
  check_previous b stuck = stuck

  -- An error of `GetHeader` counts as a success.
  abbrev pub check_header : Block → Result Error HeaderPtr → Result Error (Unit {0})
  check_header b (ok prev) = check_previous b (header_hash p prev.target)
  check_header b (err _) = ok tt
  check_header b (panic q) = panic q
  check_header b stuck = stuck

  -- `ValidateBlock`; its first message takes the hash of the block, which is cached.
  unfoldable pub validate_block : Go Error Session (Unit {0})
  validate_block s =
      let b = s.block.header.target in
      if has_block_at_height b.height s.chain
      then ((do hash_block; throw_if true block_at_height_exists) s)
      else (if b.height == (height s.chain + 1) % u32_mod
          then (check_header s.block (get_header ((b.height + u32_mod - 1) % u32_mod) s.chain), s)
          else (err (out_of_sync (sub_ℕ b.height (height s.chain))), s))

  -- The message of a failed run takes the hash of the transaction.
  abbrev pub vm_error : Value.Error → Result Error Hash → Result Error (Unit {0})
  vm_error e (ok _) = err (vm_failed e)
  vm_error e (err x) = err x
  vm_error e (panic q) = panic q
  vm_error e stuck = stuck

  abbrev pub after_run :
      Transaction
      → List Transaction
      → Result Value.Error (Unit {0}) × Vm
      → (State → Result Error (Unit {0}) × State × List Transaction)
      → Result Error (Unit {0}) × State × List Transaction
  after_run t txns (ok _, v) next = let (r, cs, done) = next v.contract_state in (r, cs, t ∷ done)
  after_run t txns (err e, v) next =
      (vm_error e (tx_hash p t).0, v.contract_state, (tx_hash p t).1 ∷ txns)
  after_run t txns (panic q, v) next = (panic q, v.contract_state, t ∷ txns)
  after_run t txns (stuck, v) next = (stuck, v.contract_state, t ∷ txns)

  -- The loop of `AddBlock`: each transaction runs on the contract state that the one before left.
  unfoldable pub run_txns :
      List Transaction → State → Result Error (Unit {0}) × State × List Transaction
  run_txns [] cs = (ok tt, cs, [])
  run_txns (t ∷ txns) cs = after_run t txns (run (new_vm t.tx_data cs)) (run_txns txns)

  unfoldable pub run_block : Go Error Session (Unit {0})
  run_block s =
      let (r, cs, txns) = run_txns s.block.transactions s.chain.contract_state in
      (
        r,
        record {
          chain = record s.chain { contract_state = cs };
          block = record s.block { transactions = txns };
        },
      )

  abbrev pub after_hash :
      List Transaction
      → Result Error Hash × Transaction
      → Map Hash Transaction
      → (Map Hash Transaction → Result Error (Unit {0}) × List Transaction × Map Hash Transaction)
      → Result Error (Unit {0}) × List Transaction × Map Hash Transaction
  after_hash txns (ok h, t) st next =
      let (r, done, st') = next (store_put h t st).1 in (r, t ∷ done, st')
  after_hash txns (err e, t) st next = (err e, t ∷ txns, st)
  after_hash txns (panic q, t) st next = (panic q, t ∷ txns, st)
  after_hash txns (stuck, t) st next = (stuck, t ∷ txns, st)

  -- The loop of `persistBlock` over the transactions.
  unfoldable pub index_txns :
      List Transaction
      → Map Hash Transaction
      → Result Error (Unit {0}) × List Transaction × Map Hash Transaction
  unfolding store_put
  index_txns [] st = (ok tt, [], st)
  index_txns (t ∷ txns) st =
      after_hash txns (tx_hash p (set_hasher default_tx_hasher t)) st (index_txns txns)

  -- The store holds the pointer to the block, so it shows what the loop writes to the transactions.
  unfoldable pub store_block : Go Error Session (Unit {0})
  store_block s =
      let (r, txns, st) = index_txns s.block.transactions s.chain.tx_store in
      let b = record s.block { transactions = txns } in
      (
        r,
        record {
          chain = record s.chain {
            store = (store_put b.header.addr b s.chain.store).1;
            tx_store = st;
          };
          block = b;
        },
      )

  unfoldable pub persist_block : Go Error Session (Unit {0})
  unfolding store_put
  persist_block = do
    bh ← hash_block
    hdr ← gets (λ s. s.block.header)
    on_part (λ s. s.chain.headers) (λ s hs. record s { chain = record s.chain { headers = hs } })
        (HeaderStore.put bh hdr)
    hash_block
    store_block

  unfoldable pub add_block : Go Error Session (Unit {0})
  add_block = do validate_block; run_block; persist_block

  unfoldable pub add_genesis_block : Go Error Session (Unit {0})
  add_genesis_block = do
    throw_if (not (HeaderStore.empty (← gets (λ s. s.chain.headers)))) genesis_on_nonempty_chain
    persist_block

  unfoldable pub new_blockchain : Block → Result Error (Unit {0}) × Session
  unfolding new_mem_store
  new_blockchain genesis = add_genesis_block (record {
    chain = record {
      headers = new_header_store;
      store = new_mem_store;
      tx_store = new_mem_store;
      contract_state = new_state;
    };
    block = genesis;
  })
