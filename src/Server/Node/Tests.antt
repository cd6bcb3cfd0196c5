-- ===== src/Server/Node/Tests.antt =====
-- The theorems on the handlers at a node whose chain has its genesis block.
use goblockchain.Base.Map.{has_key}
use goblockchain.Base.{
  true, false, ◌⊎◌, bytes_eq, ℕ, zero, suc, ◌≡◌, ◌≢◌, refl, some, List, [], ◌∷◌, ok, arith,
  get_elem?,
}
use goblockchain.Types.Hash.{zero_hash, is_zero}
use goblockchain.Core.Data.{Transaction, HeaderPtr, Block, default_tx_hasher}
use goblockchain.Core.Transaction.{new_transaction, sign_tx}
use goblockchain.Core.Block.{new_block, block_hash, header_hash, must_to_bytes}
use goblockchain.Core.Blockchain.{Blockchain, new_blockchain}
use goblockchain.Core.Blockchain.Invariant.{chain_headers}
use goblockchain.Core.Blockchain.Append.{Coherent}
use goblockchain.Core.Blockchain.Genesis.{new_blockchain_lem, Starts}
use goblockchain.Core.Demo.{demo, demo_key}
use goblockchain.Server.TxPool.{new_tx_pool, max_pool_depth, with_hasher}
use goblockchain.Server.TxPool.History.{created, History-IsValid}
use goblockchain.Server.Node.{
  Node, get_blocks_response, create_new_block, handle_transaction, handle_block,
  handle_get_blocks_request, handle_get_blocks_response,
}
use goblockchain.Server.Node.Create.{CreateOutcome, create_new_block-CreateOutcome}
use goblockchain.Server.Node.Handle.{HandleOutcome, handle_transaction-HandleOutcome}
use goblockchain.Server.Node.Receive.{BlockOutcome, handle_block-BlockOutcome}
use goblockchain.Server.Node.Sync.{Synced, handle_get_blocks_response-Synced}
use goblockchain.Server.Node.Serve.{BlocksFrom, handle_get_blocks_request-BlocksFrom}

-- The genesis block of `createGenesis`, and a block of height 1 that nobody signed.
abbrev pub block_of_height : ℕ → ℕ → Block
unfolding new_block
block_of_height addr h =
    new_block
      (record {
        addr = addr;
        target = record {
          version = 1;
          data_hash = zero_hash;
          previous_block_hash = zero_hash;
          timestamp = 1000000;
          height = h;
        };
      })
      []

pub genesis_addr : (block_of_height 100 0).header.addr ≡ 100
unfolding block_of_height new_block
genesis_addr = refl

abbrev pub chain_0 : Blockchain
chain_0 = (new_blockchain demo (block_of_height 100 0)).1.chain

pub chain_0-Starts : Starts demo (block_of_height 100 0).header chain_0
unfolding block_of_height block_hash header_hash new_block is_zero must_to_bytes
chain_0-Starts =
    (new_blockchain_lem demo (block_of_height 100 0) (block_hash demo (block_of_height 100 0)).1
      (block_hash demo (block_of_height 100 0)).1.hash refl refl).1

abbrev pub validator : Node
validator = record {
  id = 86 ∷ [];
  addr = 67 ∷ [];
  connections = ((66 ∷ [], record { local_addr = 67 ∷ []; remote_addr = 66 ∷ [] }) ∷ []);
  chain = chain_0;
  pool = new_tx_pool (max_pool_depth 2 ∷ with_hasher default_tx_hasher ∷ []);
  key = record { key = some demo_key };
  peers = ((65 ∷ [], 66 ∷ []) ∷ []);
  outbox = [];
}

pub apart :
    (addr : ℕ)
    → addr ≢ 100
    → (i : ℕ) (a : HeaderPtr) → get_elem? (chain_headers chain_0) i ≡ some a
    → a.addr ≢ addr
unfolding block_of_height new_block
apart addr ne i a e q = by_index i (rw chain_0-Starts.1 at e)
  where
    by_index : (i : ℕ) → get_elem? ((block_of_height 100 0).header ∷ []) i ≡ some a → ⊥
    by_index zero e = ne (ground (arith, e, q))
    by_index (suc i) e = ground (arith, e)

create_new_block-CreateOutcome_example :
    CreateOutcome demo 200 validator (create_new_block demo 0 200 9 validator)
create_new_block-CreateOutcome_example =
    create_new_block-CreateOutcome demo 0 200 9 demo_key validator chain_0-Starts.0 refl
      (apart 200 (λ e. absurd (omega (arith, e))))

abbrev pub paid_tx : Transaction
unfolding new_transaction sign_tx
paid_tx = (sign_tx demo 0 (record { key = some demo_key }) (new_transaction (1 ∷ []))).1

handle_transaction-HandleOutcome_example :
    HandleOutcome demo paid_tx validator (handle_transaction demo 9 paid_tx validator)
handle_transaction-HandleOutcome_example =
    handle_transaction-HandleOutcome demo 9 paid_tx validator
      (History-IsValid demo validator.pool (created 2 default_tx_hasher))

far_block_hash : block_hash demo (block_of_height 300 5) ≡ (
  ok (block_hash demo (block_of_height 300 5)).1.hash,
  (block_hash demo (block_of_height 300 5)).1,
)
unfolding block_of_height block_hash header_hash new_block is_zero must_to_bytes
far_block_hash = refl

far_block-Coherent : Coherent chain_0 (block_of_height 300 5).header
unfolding block_of_height new_block
far_block-Coherent i a e q = absurd (apart 300 (λ r. absurd (omega (arith, r))) i a e q)

handle_block-BlockOutcome_example :
    BlockOutcome demo
      (block_of_height 300 5)
      validator
      (handle_block demo (block_of_height 300 5) validator)
handle_block-BlockOutcome_example =
    handle_block-BlockOutcome demo (block_of_height 300 5)
      (block_hash demo (block_of_height 300 5)).1 (block_hash demo (block_of_height 300 5)).1.hash
      validator chain_0-Starts.0 far_block-Coherent far_block_hash

handle_get_blocks_request-BlocksFrom_example :
    (blocks : List Block) × BlocksFrom 0 chain_0 blocks
    × (((has_key (66 ∷ []) validator.connections ≡ true)
          × (handle_get_blocks_request (65 ∷ []) 0 validator
              ≡ (ok tt, record validator { outbox = get_blocks_response (66 ∷ []) blocks ∷ [] })))
        ⊎ ((has_key (66 ∷ []) validator.connections ≡ false)
            × (handle_get_blocks_request (65 ∷ []) 0 validator ≡ (ok tt, validator))))
handle_get_blocks_request-BlocksFrom_example =
    handle_get_blocks_request-BlocksFrom demo validator (65 ∷ []) (66 ∷ []) 0 chain_0-Starts.0
      (omega (arith, chain_0-Starts.2)) (omega arith) refl

handle_get_blocks_response-Synced_example :
    Synced demo
      (block_of_height 300 5 ∷ [])
      validator
      (handle_get_blocks_response demo (block_of_height 300 5 ∷ []) validator)
handle_get_blocks_response-Synced_example =
    handle_get_blocks_response-Synced demo (block_of_height 300 5 ∷ []) validator chain_0-Starts.0
      (far_block-Coherent, tt, tt)
