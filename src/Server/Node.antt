-- ===== src/Server/Node.antt =====
-- The handlers of server/server_internal.go for transactions and blocks. What a goroutine is started
-- to broadcast goes to the outbox; logging and the channels are left out. Handlers and the validator
-- loop take turns here, one handler after the other. A message is built without an error, as the
-- codecs of Protocol do it.
pub mod Status
pub mod Dispatch
pub mod Growth
pub mod Healthy
pub mod Rounds
pub mod Create
pub mod Handle
pub mod Receive
pub mod Progress
pub mod CatchUp
pub mod Serve
pub mod Sync
pub mod Tests
mod RoundTests
use goblockchain.Base.{
  ℕ, zero, suc, ◌+◌, ◌-◌, ◌%◌, leb, or_throw, bytes_eq, Bool, true, false, not, List, [], ◌∷◌, ◌++◌,
  Result, ok, err, panic, stuck, Go, ◌>>=◌, ◌>>◌, pure, gets, modify, wrap_result, if◌then◌else◌,
  u32_mod,
}
use goblockchain.Base.Map.{Map, lookup, has_key}
use goblockchain.Crypto.{PrivateKey}
use goblockchain.Core.Data
use goblockchain.Core.Data.{Transaction, HeaderPtr, Block, out_of_sync}
use goblockchain.Core.Platform.{Platform}
use goblockchain.Core.Transaction.{set_created_at, verify_tx}
use goblockchain.Core.Block.{block_hash, new_block_from_prev_header, sign_block}
use goblockchain.Core.Blockchain.{
  Blockchain, Session, height, has_block_at_height, get_header, get_block_at, add_block,
}
use goblockchain.Network.Rpc.{Pipe}
use goblockchain.Protocol.{
  StatusMessageRequest, StatusMessageResponse, SubscribeMessageRequest, SubscribeMessageResponse,
}
use goblockchain.Server.Decode
use goblockchain.Server.TxOrderedMap
use goblockchain.Server.TxPool
use goblockchain.Server.TxPool.{TxPool, pending_txns, clear_pending}

-- What the node broadcasts, and what it sends to an address.
pub data Outgoing : Type 0 where
  tx_message : Transaction → Outgoing
  block_message : Block → Outgoing
  get_blocks_request : ℕ → Outgoing
  get_blocks_response : List ℕ → List Block → Outgoing
  status_request_message : StatusMessageRequest → Outgoing
  status_response_message : StatusMessageResponse → Outgoing
  subscribe_request_message : List ℕ → SubscribeMessageRequest → Outgoing
  subscribe_response_message : List ℕ → SubscribeMessageResponse → Outgoing

pub data Error : Type 0 where
  in_core : Data.Error → Error
  in_pool : TxOrderedMap.Error → Error
  unknown_requestor : List ℕ → Error
  unknown_peer ghost_connection : List ℕ → Error
  in_decoder : Decode.Error → Error

-- The fields of `Server` that its handlers use. Of its transport they see the address and the pipes
-- that `Get` finds, by the address of the other end; of a peer's pipe only the remote address counts.
pub record Node : Type 0 where
  pub id : List ℕ
  pub addr : List ℕ
  pub connections : Map (List ℕ) Pipe
  pub chain : Blockchain
  pub pool : TxPool
  pub key : PrivateKey
  pub peers : Map (List ℕ) (List ℕ)
  pub outbox : List Outgoing

abbrev pub post : Outgoing → Go Error Node (Unit {0})
post m = modify (λ n. record n { outbox = n.outbox ++ (m ∷ []) })

-- A call that writes to the value `a` returns it with its outcome.
abbrev pub carry : {A : Type 0} → Result Data.Error (Unit {0}) × A → Result Error A
carry (ok _, a) = ok a
carry (err e, a) = err (in_core e)
carry (panic q, a) = panic q
carry (stuck, a) = stuck

module _ (p : Platform) where
  abbrev pub pool_add : Transaction → Go Error Node (Bool × Transaction)
  pool_add tx n = (
    wrap_result in_pool (TxPool.add p tx n.pool).0,
    record n { pool = (TxPool.add p tx n.pool).1 },
  )

  -- `handleTransaction`; `now` is the clock.
  unfoldable pub handle_transaction : ℕ → Transaction → Go Error Node (Unit {0})
  handle_transaction now tx = do
    (λ n. (wrap_result in_core (verify_tx p tx), n))
    (is_new, t) ← pool_add (set_created_at now tx)
    if is_new then post (tx_message t) else pure tt

  -- `s.chain.AddBlock(b)` and the block after it.
  abbrev pub chain_add : Block → Go Error Node Block
  chain_add b n =
      let (r, s) = add_block p (record { chain = n.chain; block = b }) in
      (carry (r, s.block), record n { chain = s.chain })

  -- `createNewBlock`; the new header is allocated at `addr`. The block has the pointers of the pool's
  -- transactions: what `AddBlock` writes to them, their hasher and hash, the pool has written before.
  unfoldable pub create_new_block : ℕ → ℕ → ℕ → Go Error Node (Unit {0})
  create_new_block entropy addr now = do
    curr ← (λ n. (wrap_result in_core (get_header (height n.chain) n.chain), n))
    txns ← gets (λ n. pending_txns n.pool)
    b ← (λ n. (wrap_result in_core (new_block_from_prev_header p addr now curr.target txns), n))
    signed ← (λ n. (carry (sign_block p entropy n.key b), n))
    added ← chain_add signed
    post (block_message added)
    modify (λ n. record n { pool = clear_pending n.pool })

  -- `requestBlocks`, whose error nobody looks at.
  abbrev pub request_blocks : Go Error Node (Unit {0})
  request_blocks n = post (get_blocks_request ((height n.chain + 1) % u32_mod)) n

  -- What `handleBlock` does after `AddBlock`, on its outcome.
  abbrev pub after_add : Result Data.Error (Unit {0}) → Block → Go Error Node (Unit {0})
  after_add (ok _) b = post (block_message b)
  after_add (err (out_of_sync _)) b = request_blocks
  after_add (err e) b = λ n. (err (in_core e), n)
  after_add (panic q) b = λ n. (panic q, n)
  after_add stuck b = λ n. (stuck, n)

  -- `handleBlock`; its first message takes the hash of the block.
  unfoldable pub handle_block : Block → Go Error Node (Unit {0})
  handle_block b = do
    (λ n. (wrap_result in_core (block_hash p b).0, n))
    (λ n.
        let (r, s) = add_block p (record { chain = n.chain; block = (block_hash p b).1 }) in
        after_add r s.block (record n { chain = s.chain }))

abbrev pub append_block :
    Result Data.Error Block → Result Data.Error (List Block) → Result Data.Error (List Block)
append_block (ok b) (ok blocks) = ok (b ∷ blocks)
append_block (ok b) rest = rest
append_block (err e) rest = err e
append_block (panic q) rest = panic q
append_block stuck rest = stuck

-- The loop of `handleGetBlocksRequest`; `i` is a `uint32`.
unfoldable pub blocks_to_send : ℕ → ℕ → Blockchain → Result Data.Error (List Block)
blocks_to_send zero i bc = stuck
blocks_to_send (suc fuel) i bc =
    let rest = blocks_to_send fuel ((i + 1) % u32_mod) bc in
    if leb i (height bc) then append_block (get_block_at i bc) rest else ok []

-- `send`, whose error nobody looks at: the transport sends on a connection to this address only.
abbrev pub send_ignored : List ℕ → Outgoing → Go Error Node (Unit {0})
send_ignored addr m n = if has_key addr n.connections then post m n else (ok tt, n)

-- `handleGetBlocksRequest`: a round for each height from the start on, and one to leave the loop.
unfoldable pub handle_get_blocks_request : List ℕ → ℕ → Go Error Node (Unit {0})
handle_get_blocks_request requestor start = do
  addr ← or_throw (← gets (λ n. lookup requestor n.peers)) (unknown_requestor requestor)
  blocks ← (λ n.
      (wrap_result in_core (blocks_to_send (suc (suc (height n.chain) - start)) start n.chain), n))
  send_ignored addr (get_blocks_response addr blocks)

module _ (p : Platform) where
  -- `handleGetBlocksResponse`
  unfoldable pub handle_get_blocks_response : List Block → Go Error Node (Unit {0})
  handle_get_blocks_response [] = pure tt
  handle_get_blocks_response (b ∷ blocks) = do
    known ← gets (λ n. has_block_at_height b.header.target.height n.chain)
    if known then pure tt else (do chain_add p b; pure tt)
    handle_get_blocks_response blocks
