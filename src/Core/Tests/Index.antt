-- ===== src/Core/Tests/Index.antt =====
-- The theorem on the transaction store (core/blockchain.go) at the block after the genesis block.
use goblockchain.Core.Tests.Scenario.{genesis_chain, sum_tx, next_session}
use goblockchain.Base.{◌≡◌, refl, some, ok, get_elem?, arith}
use goblockchain.Types.Hash.{is_zero}
use goblockchain.Vm.Machine.{run, run_loop, round, exec, operand, instruction, new_vm}
use goblockchain.Crypto
use goblockchain.Vm.Stack.{push, pop, empty, new_stack}
use goblockchain.Core.HeaderStore
use goblockchain.Core.Store.{store_put, new_mem_store}
use goblockchain.Core.Transaction.{
  new_transaction, sign_tx, verify_tx, tx_hash, set_hasher, hash_with, calculate_data_hash,
  encode_loop,
}
use goblockchain.Core.Block.{
  must_to_bytes, new_block, block_hash, header_hash, sign_block, verify_block, verify_txns,
  verify_data_hash, new_block_from_prev_header, new_header_from_prev,
}
use goblockchain.Core.Blockchain.{
  add_genesis_block, has_block_at_height, get_header, run_block, run_txns, store_block, index_txns,
  height, validate_block, add_block, persist_block, new_blockchain,
}
use goblockchain.Core.Blockchain.TxIndex.{persist_block-Finds, Finds, IsFiled}
use goblockchain.Core.Demo.{demo}

genesis-IsFiled : IsFiled demo genesis_chain.tx_store
unfolding add_block validate_block has_block_at_height height HeaderStore.height get_header
    HeaderStore.get_at verify_block verify_txns verify_tx verify_data_hash calculate_data_hash
    encode_loop Crypto.verify Crypto.sign Crypto.public_key must_to_bytes header_hash block_hash
    is_zero run_block run_txns run run_loop round exec operand new_vm instruction push pop empty
    new_stack persist_block store_block index_txns tx_hash set_hasher hash_with HeaderStore.put
    store_put new_blockchain add_genesis_block new_mem_store HeaderStore.empty new_block sign_block
    sign_tx new_transaction new_block_from_prev_header new_header_from_prev
genesis-IsFiled h w e = absurd (ground (arith, e))

sum_tx_persists : (persist_block demo next_session).0 ≡ ok tt
unfolding add_block validate_block has_block_at_height height HeaderStore.height get_header
    HeaderStore.get_at verify_block verify_txns verify_tx verify_data_hash calculate_data_hash
    encode_loop Crypto.verify Crypto.sign Crypto.public_key must_to_bytes header_hash block_hash
    is_zero run_block run_txns run run_loop round exec operand new_vm instruction push pop empty
    new_stack persist_block store_block index_txns tx_hash set_hasher hash_with HeaderStore.put
    store_put new_blockchain add_genesis_block new_mem_store HeaderStore.empty new_block sign_block
    sign_tx new_transaction new_block_from_prev_header new_header_from_prev
sum_tx_persists = refl

has_sum_tx : get_elem? next_session.block.transactions 0 ≡ some sum_tx
unfolding add_block validate_block has_block_at_height height HeaderStore.height get_header
    HeaderStore.get_at verify_block verify_txns verify_tx verify_data_hash calculate_data_hash
    encode_loop Crypto.verify Crypto.sign Crypto.public_key must_to_bytes header_hash block_hash
    is_zero run_block run_txns run run_loop round exec operand new_vm instruction push pop empty
    new_stack persist_block store_block index_txns tx_hash set_hasher hash_with HeaderStore.put
    store_put new_blockchain add_genesis_block new_mem_store HeaderStore.empty new_block sign_block
    sign_tx new_transaction new_block_from_prev_header new_header_from_prev
has_sum_tx = refl

persist_block-Finds_example :
    let bc' = (persist_block demo next_session).1.chain in
    IsFiled demo bc'.tx_store × Finds demo bc' next_session.block.transactions sum_tx
persist_block-Finds_example =
    persist_block-Finds demo next_session 0 sum_tx genesis-IsFiled has_sum_tx sum_tx_persists
