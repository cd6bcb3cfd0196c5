-- ===== src/Server/Node/RoundTests.antt =====
-- Rounds of the loops at the node of Tests: bytes that are no message, a transaction, and a tick.
use goblockchain.Base.{◌≡◌, ◌⊎◌, refl, arith, List, [], ◌∷◌, Result, ok, err}
use goblockchain.Types.Hash.{is_zero}
use goblockchain.Core.Data.{deep_equal, default_tx_hasher, header_exists}
use goblockchain.Core.Demo.{demo, demo_key, demo-SignsSoundly, demo-SignsAlways, demo-EncodesFields}
use goblockchain.Protocol.Demo.{demo_gob}
use goblockchain.Server.Decode.Tests.{demo_gob-Allocates}
use goblockchain.Vm.Machine
use goblockchain.Vm.Machine.{run, run_loop, exec, operand, instruction, new_vm}
use goblockchain.Vm.Stack.{push, pop, empty, new_stack}
use goblockchain.Crypto
use goblockchain.Core.HeaderStore
use goblockchain.Core.Store.{store_put, new_mem_store}
use goblockchain.Core.Transaction.{
  new_transaction, sign_tx, verify_tx, tx_hash, set_hasher, set_created_at, hash_with,
  calculate_data_hash, encode_loop,
}
use goblockchain.Core.Block.{
  must_to_bytes, new_block, block_hash, header_hash, sign_block, verify_block, verify_txns,
  verify_data_hash, new_block_from_prev_header, new_header_from_prev,
}
use goblockchain.Core.Block.Signing.{AllVerify}
use goblockchain.Core.Blockchain.{
  add_genesis_block, has_block_at_height, get_header, run_block, run_txns, store_block, index_txns,
  height, validate_block, add_block, persist_block, new_blockchain,
}
use goblockchain.Protocol.{message_from_rpc}
use goblockchain.Types.GoList
use goblockchain.Server.TxOrderedMap
use goblockchain.Server.TxOrderedMap.{new_map}
use goblockchain.Server.Decode.{extract_message_from_rpc, extract_payload}
use goblockchain.Server.TxPool
use goblockchain.Server.TxPool.{
  TxPool, new_tx_pool, max_pool_depth, with_hasher, add_both, prune, clear_pending, contains,
  pending_count, pending_txns,
}
use goblockchain.Server.TxPool.History.{created, History-IsValid}
use goblockchain.Server.Node.{Node, Error, in_core, create_new_block, handle_transaction}
use goblockchain.Server.Node.Create.{Created}
use goblockchain.Server.Node.Dispatch.{
  Event, rpc_arrived, api_tx, block_tick, Server, round, rounds, process_rpc, process_message,
}
use goblockchain.Server.Node.Rounds.{StillSound, rounds-StillSound}
use goblockchain.Server.Node.Progress.{create_new_block-Created}
use goblockchain.Server.Node.Tests.{validator, genesis_addr, chain_0-Starts, apart, paid_tx}

abbrev server_0 : Server
server_0 = record { node = validator; next_addr = 500; errors = [] }

abbrev some_events : List Event
some_events =
    rpc_arrived 1 (record { from = 66 ∷ []; content = 0 ∷ [] })
    ∷ api_tx 2 paid_tx
    ∷ block_tick 0 3
    ∷ []

abbrev server_of : Result Error Server → Server
server_of (ok s) = s
server_of _ = server_0

abbrev server_3 : Server
server_3 = server_of (rounds demo demo_gob some_events server_0)

they_live : rounds demo demo_gob some_events server_0 ≡ ok server_3
unfolding rounds round process_rpc process_message extract_message_from_rpc extract_payload
    message_from_rpc handle_transaction create_new_block add_block validate_block
    has_block_at_height height HeaderStore.height get_header HeaderStore.get_at verify_block
    verify_txns verify_tx verify_data_hash calculate_data_hash encode_loop Crypto.verify Crypto.sign
    Crypto.public_key Crypto.is_zero must_to_bytes header_hash block_hash is_zero run_block run_txns
    run run_loop Machine.round exec operand new_vm instruction push pop empty new_stack
    persist_block store_block index_txns tx_hash set_hasher set_created_at hash_with HeaderStore.put
    store_put new_blockchain add_genesis_block new_mem_store HeaderStore.empty new_block sign_block
    sign_tx new_transaction new_block_from_prev_header new_header_from_prev TxPool.add add_both
    prune clear_pending contains pending_count pending_txns new_tx_pool max_pool_depth with_hasher
    new_map TxOrderedMap.add TxOrderedMap.remove TxOrderedMap.clear TxOrderedMap.len
    TxOrderedMap.first TxOrderedMap.contains GoList.append GoList.delete GoList.delete_at
    GoList.index GoList.index_loop GoList.get GoList.length GoList.clear GoList.new_list
    GoList.slice deep_equal
they_live = refl

rounds-StillSound_example : StillSound demo demo_gob server_0 server_3
rounds-StillSound_example =
    rounds-StillSound demo demo_gob demo-EncodesFields demo_gob-Allocates some_events server_0
      server_3 chain_0-Starts.0 (History-IsValid demo validator.pool (created 2 default_tx_hasher))
      (rw chain_0-Starts.1 (omega (arith, genesis_addr), tt)) they_live

abbrev waiting : Node
waiting = record validator { pool = (TxPool.add demo paid_tx validator.pool).1 }

it_verifies : AllVerify demo (pending_txns waiting.pool)
unfolding rounds round process_rpc process_message extract_message_from_rpc extract_payload
    message_from_rpc handle_transaction create_new_block add_block validate_block
    has_block_at_height height HeaderStore.height get_header HeaderStore.get_at verify_block
    verify_txns verify_tx verify_data_hash calculate_data_hash encode_loop Crypto.verify Crypto.sign
    Crypto.public_key Crypto.is_zero must_to_bytes header_hash block_hash is_zero run_block run_txns
    run run_loop Machine.round exec operand new_vm instruction push pop empty new_stack
    persist_block store_block index_txns tx_hash set_hasher set_created_at hash_with HeaderStore.put
    store_put new_blockchain add_genesis_block new_mem_store HeaderStore.empty new_block sign_block
    sign_tx new_transaction new_block_from_prev_header new_header_from_prev TxPool.add add_both
    prune clear_pending contains pending_count pending_txns new_tx_pool max_pool_depth with_hasher
    new_map TxOrderedMap.add TxOrderedMap.remove TxOrderedMap.clear TxOrderedMap.len
    TxOrderedMap.first TxOrderedMap.contains GoList.append GoList.delete GoList.delete_at
    GoList.index GoList.index_loop GoList.get GoList.length GoList.clear GoList.new_list
    GoList.slice deep_equal
it_verifies = (refl, tt)

it_runs : (run_txns demo (pending_txns waiting.pool) waiting.chain.contract_state).0 ≡ ok tt
unfolding rounds round process_rpc process_message extract_message_from_rpc extract_payload
    message_from_rpc handle_transaction create_new_block add_block validate_block
    has_block_at_height height HeaderStore.height get_header HeaderStore.get_at verify_block
    verify_txns verify_tx verify_data_hash calculate_data_hash encode_loop Crypto.verify Crypto.sign
    Crypto.public_key Crypto.is_zero must_to_bytes header_hash block_hash is_zero run_block run_txns
    run run_loop Machine.round exec operand new_vm instruction push pop empty new_stack
    persist_block store_block index_txns tx_hash set_hasher set_created_at hash_with HeaderStore.put
    store_put new_blockchain add_genesis_block new_mem_store HeaderStore.empty new_block sign_block
    sign_tx new_transaction new_block_from_prev_header new_header_from_prev TxPool.add add_both
    prune clear_pending contains pending_count pending_txns new_tx_pool max_pool_depth with_hasher
    new_map TxOrderedMap.add TxOrderedMap.remove TxOrderedMap.clear TxOrderedMap.len
    TxOrderedMap.first TxOrderedMap.contains GoList.append GoList.delete GoList.delete_at
    GoList.index GoList.index_loop GoList.get GoList.length GoList.clear GoList.new_list
    GoList.slice deep_equal
it_runs = refl

create_new_block-Created_example :
    (((create_new_block demo 0 200 9 waiting).0 ≡ ok tt)
      × Created demo 200 waiting (create_new_block demo 0 200 9 waiting).1)
    ⊎ ((create_new_block demo 0 200 9 waiting).0 ≡ err (in_core header_exists))
create_new_block-Created_example =
    create_new_block-Created demo demo-EncodesFields demo_key demo-SignsSoundly demo-SignsAlways 0
      200 9 waiting chain_0-Starts.0 refl (omega (arith, chain_0-Starts.2))
      (apart 200 (λ e. absurd (omega (arith, e)))) it_verifies it_runs
