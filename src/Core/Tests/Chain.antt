-- ===== src/Core/Tests/Chain.antt =====
-- The theorems on chains (core/blockchain.go) at the genesis chain and the one after it.
use goblockchain.Core.Tests.Scenario.{genesis, genesis_chain, sum_tx, signed, next_session}
use goblockchain.Base.{
  ℕ, zero, suc, ◌+◌, ◌≡◌, ◌≤◌, ◌↔◌, refl, some, [], ◌∷◌, ◌⊎◌, ok, err, Fails, get_elem?, arith, pos,
}
use goblockchain.Types.Hash.{is_zero}
use goblockchain.Vm.Machine.{run, run_loop, round, exec, operand, instruction, new_vm}
use goblockchain.Crypto
use goblockchain.Vm.Stack.{push, pop, empty, new_stack}
use goblockchain.Core.HeaderStore
use goblockchain.Core.Store.{store_put, new_mem_store}
use goblockchain.Core.Data.{out_of_sync}
use goblockchain.Core.Transaction.{
  new_transaction, sign_tx, verify_tx, tx_hash, set_hasher, hash_with, calculate_data_hash,
  encode_loop,
}
use goblockchain.Core.Block.{
  must_to_bytes, new_block, block_hash, header_hash, sign_block, verify_block, verify_txns,
  verify_data_hash, new_block_from_prev_header, new_header_from_prev,
}
use goblockchain.Core.Blockchain.{
  add_genesis_block, has_block_at_height, get_header, run_block, run_txns, store_block, index_txns,
  Blockchain, Session, height, validate_block, add_block, persist_block, new_blockchain,
}
use goblockchain.Core.Blockchain.Genesis.{new_blockchain_lem, Starts}
use goblockchain.Core.Blockchain.Invariant.{IsValid, chain_headers}
use goblockchain.Core.Blockchain.Append.{Coherent}
use goblockchain.Core.Blockchain.Validate.{Extends, validate_iff, validate_out_of_sync}
use goblockchain.Core.Blockchain.Add.{add_block_outcome, Extended, SameBlocks}
use goblockchain.Core.Blockchain.History.{ChainHistory, started, offered, ChainHistory-IsValid}
use goblockchain.Core.Blockchain.Integrity.{NoCollision, headers_agree}
use goblockchain.Core.Demo.{header_bytes-injective, demo}

new_blockchain_lem_example :
    ((new_blockchain demo genesis).0 ≡ ok tt) × Starts demo genesis.header genesis_chain
unfolding block_hash header_hash new_block is_zero must_to_bytes
new_blockchain_lem_example =
    new_blockchain_lem demo genesis (block_hash demo genesis).1 ((block_hash demo genesis).1.hash)
      refl refl

genesis_chain-Starts :
    ((new_blockchain demo genesis).0 ≡ ok tt) × Starts demo genesis.header genesis_chain
unfolding block_hash header_hash new_block is_zero must_to_bytes
genesis_chain-Starts =
    new_blockchain_lem demo genesis (block_hash demo genesis).1 ((block_hash demo genesis).1.hash)
      refl refl

genesis_chain-IsValid : IsValid demo genesis_chain
genesis_chain-IsValid = genesis_chain-Starts.1.0

genesis_headers : chain_headers genesis_chain ≡ genesis.header ∷ []
genesis_headers = genesis_chain-Starts.1.1

next-Coherent : Coherent genesis_chain (signed (sum_tx ∷ [])).header
unfolding new_block_from_prev_header new_header_from_prev header_hash must_to_bytes
    calculate_data_hash encode_loop new_block sign_block Crypto.sign Crypto.public_key sign_tx
    new_transaction
next-Coherent i a e q = by_index i (rw genesis_headers at e)
  where
    by_index :
        (i : ℕ) → get_elem? (genesis.header ∷ []) i ≡ some a → a ≡ (signed (sum_tx ∷ [])).header
    by_index zero e = absurd (ground (arith, e, q))
    by_index (suc i) e = absurd (ground (arith, e))

add_block_outcome_example :
    let (r, s') = add_block demo next_session in
    ((r ≡ ok tt) × Extended demo genesis_chain (signed (sum_tx ∷ [])) s'.chain)
    ⊎ (Fails r × SameBlocks demo genesis_chain s'.chain)
add_block_outcome_example = add_block_outcome demo next_session genesis_chain-IsValid next-Coherent

next_accepted : (add_block demo next_session).0 ≡ ok tt
unfolding add_block validate_block has_block_at_height height HeaderStore.height get_header
    HeaderStore.get_at verify_block verify_txns verify_tx verify_data_hash calculate_data_hash
    encode_loop Crypto.verify Crypto.sign Crypto.public_key must_to_bytes header_hash block_hash
    is_zero run_block run_txns run run_loop round exec operand new_vm instruction push pop empty
    new_stack persist_block store_block index_txns tx_hash set_hasher hash_with HeaderStore.put
    store_put new_blockchain add_genesis_block new_mem_store HeaderStore.empty new_block sign_block
    sign_tx new_transaction new_block_from_prev_header new_header_from_prev
next_accepted = refl

validate_iff_example :
    ((validate_block demo next_session).0 ≡ ok tt)
    ↔ Extends demo genesis_chain (signed (sum_tx ∷ []))
validate_iff_example = validate_iff demo next_session genesis_chain-IsValid

-- A block of height 7, which reaches a chain of height 0.
abbrev far_session : Session
far_session = record {
  chain = genesis_chain;
  block = record genesis {
    header = record { addr = 300; target = record genesis.header.target { height = 7 } };
  };
}

genesis_height : height genesis_chain ≡ 0
genesis_height = genesis_chain-Starts.1.2

validate_out_of_sync_example :
    (lag : ℕ) × (validate_block demo far_session ≡ (err (out_of_sync (pos lag)), far_session))
    × (height genesis_chain + lag ≡ 7)
    × (2 ≤ lag)
unfolding new_block
validate_out_of_sync_example =
    validate_out_of_sync demo far_session genesis_chain-IsValid (omega (arith, genesis_height))
      (omega arith)

abbrev next_chain : Blockchain
next_chain = (add_block demo next_session).1.chain

genesis_hash :
    block_hash demo genesis ≡ (ok (block_hash demo genesis).1.hash, (block_hash demo genesis).1)
unfolding block_hash header_hash new_block is_zero must_to_bytes
genesis_hash = refl

next_chain-ChainHistory : ChainHistory demo next_chain
unfolding new_block
next_chain-ChainHistory =
    offered next_session
      (started genesis (block_hash demo genesis).1 (block_hash demo genesis).1.hash refl
        genesis_hash)
      next-Coherent

ChainHistory-IsValid_example : IsValid demo next_chain
ChainHistory-IsValid_example = ChainHistory-IsValid demo next_chain next_chain-ChainHistory

next_headers : chain_headers next_chain ≡ genesis.header ∷ (signed (sum_tx ∷ [])).header ∷ []
unfolding add_block validate_block has_block_at_height height HeaderStore.height get_header
    HeaderStore.get_at verify_block verify_txns verify_tx verify_data_hash calculate_data_hash
    encode_loop Crypto.verify Crypto.sign Crypto.public_key must_to_bytes header_hash block_hash
    is_zero run_block run_txns run run_loop round exec operand new_vm instruction push pop empty
    new_stack persist_block store_block index_txns tx_hash set_hasher hash_with HeaderStore.put
    store_put new_blockchain add_genesis_block new_mem_store HeaderStore.empty new_block sign_block
    sign_tx new_transaction new_block_from_prev_header new_header_from_prev
next_headers = refl

demo-NoCollision : NoCollision demo
unfolding header_hash must_to_bytes
demo-NoCollision = record { same = λ h k x e f. header_bytes-injective h k (ground (arith, e, f)) }

headers_agree_example : genesis.header.target ≡ genesis.header.target
headers_agree_example =
    headers_agree demo next_chain next_chain 1 0 genesis.header genesis.header
      (signed (sum_tx ∷ [])).header (signed (sum_tx ∷ [])).header demo-NoCollision
      next_chain-ChainHistory next_chain-ChainHistory (rw next_headers refl) (rw next_headers refl)
      refl (rw next_headers refl) (rw next_headers refl)
