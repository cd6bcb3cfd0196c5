-- ===== src/Core/Tests/Failures.antt =====
-- Blocks that are validated and fail as they run (core/blockchain.go).
use goblockchain.Core.Tests.Scenario.{genesis_chain, signed_tx, session}
use goblockchain.Base.{◌≡◌, refl, none, [], ◌∷◌, panic, Panic, Fails}
use goblockchain.Types.Hash.{is_zero}
use goblockchain.Vm.Machine.{
  run, run_loop, round, exec, operand, instruction, new_vm, Vm, pack_loop, must_be_key,
}
use goblockchain.Vm.Value
use goblockchain.Vm.State
use goblockchain.Vm.State.{new_state}
use goblockchain.Crypto
use goblockchain.Vm.Stack.{push, pop, empty, new_stack}
use goblockchain.Core.HeaderStore
use goblockchain.Core.Store.{store_put, new_mem_store}
use goblockchain.Core.Data.{Transaction}
use goblockchain.Core.Transaction.{
  new_transaction, sign_tx, verify_tx, tx_hash, set_hasher, hash_with, calculate_data_hash,
  encode_loop,
}
use goblockchain.Core.Block.{
  must_to_bytes, new_block, block_hash, header_hash, sign_block, verify_block, verify_txns,
  verify_data_hash, new_block_from_prev_header, new_header_from_prev,
}
use goblockchain.Core.Blockchain.{
  add_genesis_block, has_block_at_height, get_header, run_block, run_txns, store_block, index_txns,
  height, validate_block, add_block, persist_block, new_blockchain,
}
use goblockchain.Core.Blockchain.Failures.{
  add_block_not_atomic, add_block_nil_hasher, add_block_bad_code,
}
use goblockchain.Core.Demo.{demo}

-- Stores 5 under the key `a`.
abbrev store_tx : Transaction
store_tx = signed_tx (97 ∷ 12 ∷ 1 ∷ 10 ∷ 13 ∷ 5 ∷ 10 ∷ 15 ∷ [])

-- Adds on an empty stack.
abbrev add_tx : Transaction
add_tx = signed_tx (11 ∷ [])

abbrev after_store : Vm
after_store = (run (new_vm store_tx.tx_data new_state)).1

add_block_not_atomic_example :
    let s = session (store_tx ∷ add_tx ∷ []) in
    Fails (add_block demo s).0
    × ((add_block demo s).1.chain ≡ record genesis_chain {
      contract_state = (run (new_vm add_tx.tx_data after_store.contract_state)).1.contract_state;
    })
unfolding add_block validate_block has_block_at_height height HeaderStore.height get_header
    HeaderStore.get_at verify_block verify_txns verify_tx verify_data_hash calculate_data_hash
    encode_loop Crypto.verify Crypto.sign Crypto.public_key must_to_bytes header_hash block_hash
    is_zero run_block run_txns run run_loop round exec operand new_vm instruction push pop empty
    new_stack persist_block store_block index_txns tx_hash set_hasher hash_with HeaderStore.put
    store_put new_blockchain add_genesis_block new_mem_store HeaderStore.empty new_block sign_block
    sign_tx new_transaction new_block_from_prev_header new_header_from_prev pack_loop must_be_key
    State.put
add_block_not_atomic_example =
    add_block_not_atomic demo (session (store_tx ∷ add_tx ∷ [])) refl store_tx add_tx []
      (run (new_vm store_tx.tx_data genesis_chain.contract_state)).1
      (run (new_vm add_tx.tx_data after_store.contract_state)).1 Value.stack_empty refl refl refl

-- As a decoder leaves it: the cached hash is zero and the hasher nil.
abbrev decoded_tx : Transaction
decoded_tx = record (signed_tx (11 ∷ [])) { hasher = none }

add_block_nil_hasher_example :
    (add_block demo (session (decoded_tx ∷ []))).0 ≡ panic Panic.nil_dereference
unfolding add_block validate_block has_block_at_height height HeaderStore.height get_header
    HeaderStore.get_at verify_block verify_txns verify_tx verify_data_hash calculate_data_hash
    encode_loop Crypto.verify Crypto.sign Crypto.public_key must_to_bytes header_hash block_hash
    is_zero run_block run_txns run run_loop round exec operand new_vm instruction push pop empty
    new_stack persist_block store_block index_txns tx_hash set_hasher hash_with HeaderStore.put
    store_put new_blockchain add_genesis_block new_mem_store HeaderStore.empty new_block sign_block
    sign_tx new_transaction new_block_from_prev_header new_header_from_prev
add_block_nil_hasher_example =
    add_block_nil_hasher demo (session (decoded_tx ∷ [])) refl decoded_tx []
      (run (new_vm decoded_tx.tx_data genesis_chain.contract_state)).1 Value.stack_empty refl refl
      refl refl

add_block_bad_code_example :
    (add_block demo (session (signed_tx [] ∷ []))).0 ≡ panic Panic.index_out_of_range
unfolding add_block validate_block has_block_at_height height HeaderStore.height get_header
    HeaderStore.get_at verify_block verify_txns verify_tx verify_data_hash calculate_data_hash
    encode_loop Crypto.verify Crypto.sign Crypto.public_key must_to_bytes header_hash block_hash
    is_zero run_block run_txns run run_loop round exec operand new_vm instruction push pop empty
    new_stack persist_block store_block index_txns tx_hash set_hasher hash_with HeaderStore.put
    store_put new_blockchain add_genesis_block new_mem_store HeaderStore.empty new_block sign_block
    sign_tx new_transaction new_block_from_prev_header new_header_from_prev
add_block_bad_code_example =
    add_block_bad_code demo (session (signed_tx [] ∷ [])) refl (signed_tx []) [] refl refl
