-- ===== src/Server/Node/CatchUp/Tests.antt =====
-- A follower with the genesis block alone, and a leader with one block more.
use goblockchain.Base.{
  zero, suc, ◌+◌, ◌++◌, ℕ, inl, inr, sym, ap, ◌∙◌, some, length, get_elem?, Fails-not_ok, bytes_eq,
  nat_eq, ◌≡◌, refl, true, arith, List, [], ◌∷◌, ok,
}
use goblockchain.Types.Hash.{is_zero}
use goblockchain.Core.Data.{deep_equal}
use goblockchain.Core.Demo.{demo, demo_key, demo-EncodesFields}
use goblockchain.Base.Map.{lookup, has_key}
use goblockchain.Vm.Machine
use goblockchain.Vm.Machine.{run, run_loop, exec, operand, instruction, new_vm}
use goblockchain.Vm.Stack.{push, pop, empty, new_stack}
use goblockchain.Crypto
use goblockchain.Core.HeaderStore
use goblockchain.Core.Store.{store_put, store_get, new_mem_store}
use goblockchain.Core.Transaction.{
  new_transaction, sign_tx, verify_tx, tx_hash, set_hasher, set_created_at, hash_with,
  calculate_data_hash, encode_loop,
}
use goblockchain.Core.Block.{
  must_to_bytes, new_block, block_hash, header_hash, sign_block, verify_block, verify_txns,
  verify_data_hash, new_block_from_prev_header, new_header_from_prev,
}
use goblockchain.Core.Blockchain.{
  add_genesis_block, has_block_at_height, get_header, run_block, run_txns, store_block, index_txns,
  height, get_block_at, validate_block, add_block, persist_block, new_blockchain,
}
use goblockchain.Types.GoList
use goblockchain.Server.TxOrderedMap
use goblockchain.Server.TxOrderedMap.{new_map}
use goblockchain.Server.TxPool
use goblockchain.Server.TxPool.{
  TxPool, new_tx_pool, max_pool_depth, with_hasher, add_both, prune, clear_pending, contains,
  pending_count, pending_txns,
}
use goblockchain.Server.Node.{
  Node, create_new_block, get_blocks_response, handle_get_blocks_request,
  handle_get_blocks_response,
}
use goblockchain.Core.Data.{HeaderPtr, Block}
use goblockchain.Core.Coding.{block_received, blocks_received}
use goblockchain.Core.Blockchain.Invariant.{IsValid, chain_headers, height_lem}
use goblockchain.Core.Blockchain.Lookup.{get_block_at_lem}
use goblockchain.Server.Node.Create.{create_new_block-CreateOutcome}
use goblockchain.Server.Node.Serve.{BlocksFrom}
use goblockchain.Server.Node.CatchUp.{Agrees, RunOn, CaughtUp}
use goblockchain.Server.Node.CatchUp.Request.{VerifiedFrom, handle_get_blocks_response-CaughtUp}
use goblockchain.Server.Node.Tests.{
  validator, genesis_addr, chain_0-Starts, apart, paid_tx, block_of_height,
}

abbrev paid_node : Node
paid_node = record validator { pool = (TxPool.add demo paid_tx validator.pool).1 }

abbrev leader : Node
leader = (create_new_block demo 0 200 9 paid_node).1

abbrev block_1 : Block
block_1 = elim (get_block_at 1 leader.chain) [ ok b ↦ b | _ ↦ block_of_height 100 0 ]

abbrev first_header : HeaderPtr
first_header = (block_of_height 100 0).header

facts :
    ((create_new_block demo 0 200 9 paid_node).0 ≡ ok tt)
    × (chain_headers leader.chain ≡ first_header ∷ block_1.header ∷ [])
    × (get_block_at 1 leader.chain ≡ ok block_1)
    × (verify_block demo block_1 ≡ ok tt)
    × ((run_txns demo (block_received 500 block_1).transactions validator.chain.contract_state).0
        ≡ ok tt)
    × (leader.peers ≡ validator.peers)
    × (has_key (66 ∷ []) leader.connections ≡ true)
unfolding create_new_block get_block_at store_get add_block validate_block has_block_at_height
    height HeaderStore.height get_header HeaderStore.get_at verify_block verify_txns verify_tx
    verify_data_hash calculate_data_hash encode_loop Crypto.verify Crypto.sign Crypto.public_key
    Crypto.is_zero must_to_bytes header_hash block_hash is_zero run_block run_txns run run_loop
    Machine.round exec operand new_vm instruction push pop empty new_stack persist_block store_block
    index_txns tx_hash set_hasher set_created_at hash_with HeaderStore.put store_put new_blockchain
    add_genesis_block new_mem_store HeaderStore.empty new_block sign_block sign_tx new_transaction
    new_block_from_prev_header new_header_from_prev TxPool.add add_both prune clear_pending contains
    pending_count pending_txns new_tx_pool max_pool_depth with_hasher new_map TxOrderedMap.add
    TxOrderedMap.remove TxOrderedMap.clear TxOrderedMap.len TxOrderedMap.first TxOrderedMap.contains
    GoList.append GoList.delete GoList.delete_at GoList.index GoList.index_loop GoList.get
    GoList.length GoList.clear GoList.new_list GoList.slice deep_equal
facts = (refl, refl, refl, refl, refl, refl, refl)

leader-IsValid : IsValid demo leader.chain
leader-IsValid =
    elim (create_new_block-CreateOutcome demo 0 200 9 demo_key paid_node chain_0-Starts.0 refl
      (apart 200 (λ e. absurd (omega (arith, e))))) [
        | inl (_, (_, (v, _, _, _), _, _, _, _, _)) ↦ v
        | inr (fails, _) ↦
            absurd (Fails-not_ok (create_new_block demo 0 200 9 paid_node).0 facts.0 fails)
      ]

leader_height : height leader.chain ≡ 1
leader_height = omega (arith, height_lem demo leader.chain leader-IsValid, ap length facts.1)

leader-Agrees : Agrees validator.chain leader.chain
leader-Agrees i a b e q = by_index i (rw chain_0-Starts.1 at e) (rw facts.1 at q)
  where
    by_index :
        (i : ℕ)
        → get_elem? (first_header ∷ []) i ≡ some a
        → get_elem? (first_header ∷ block_1.header ∷ []) i ≡ some b
        → a.target ≡ b.target
    by_index zero e q =
        let same : a ≡ b = ground (arith, e, q) in ap (λ (h : HeaderPtr). h.target) same
    by_index (suc i) e q = absurd (ground (arith, e))

leader_verified : VerifiedFrom demo 1 leader.chain
unfolding has_block_at_height
leader_verified i b le e = elim (get_block_at_lem demo leader.chain leader-IsValid i) [
  | inr (above, fails) ↦ absurd (ground (arith, e, fails))
  | inl (within, _) ↦
      let at_one : i ≡ 1 = ground (arith, within, leader_height) in
      let same : block_1 ≡ b =
        ground (arith, facts.2, sym (ap (λ j. get_block_at j leader.chain) at_one) ∙ e) in
      rw (sym same) facts.3
]

no_blocks : (blocks : List Block) → length blocks ≡ 0 → blocks ≡ []
no_blocks [] e = refl
no_blocks (b ∷ blocks) e = absurd (omega (arith, e))

start_height : height validator.chain + 1 ≡ 1
start_height = omega (arith, chain_0-Starts.2)

they_run :
    (blocks : List Block)
    → BlocksFrom (height validator.chain + 1) leader.chain blocks
    → RunOn demo validator.chain.contract_state (blocks_received 500 blocks)
they_run [] (total, each) = tt
they_run (b ∷ blocks) (total, each) =
    let start : height validator.chain + 1 ≡ 1 = omega (arith, chain_0-Starts.2) in
    let here : get_block_at 1 leader.chain ≡ ok b =
      ap (λ j. get_block_at j leader.chain) (omega (arith, start)) ∙ (each 0 b refl).0 in
    let same : block_1 ≡ b = ground (arith, facts.2, here) in
    let no_more : blocks ≡ [] = no_blocks blocks (omega (arith, total, start, leader_height)) in
    rw (sym same, no_more) (facts.4, tt)

handle_get_blocks_response-CaughtUp_example :
    (blocks : List Block) × (handle_get_blocks_request (65 ∷ []) (height validator.chain + 1) leader
      ≡ (
        ok tt,
        record leader { outbox = leader.outbox ++ (get_blocks_response (66 ∷ []) blocks ∷ []) },
      ))
    × CaughtUp demo leader.chain
        (handle_get_blocks_response demo (blocks_received 500 blocks) validator)
handle_get_blocks_response-CaughtUp_example =
    handle_get_blocks_response-CaughtUp demo demo-EncodesFields 500 leader validator (65 ∷ [])
      (66 ∷ []) leader-IsValid chain_0-Starts.0
      (rw chain_0-Starts.1 (omega (arith, genesis_addr), tt))
      (omega (arith, leader_height, chain_0-Starts.2)) (omega (arith, leader_height)) leader-Agrees
      (rw start_height leader_verified) they_run (ap (λ m. lookup (65 ∷ []) m) facts.5) facts.6
