-- ===== src/Server/Node/Dispatch.antt =====
-- `ProcessMessage` of server/server.go, and a round of the loops of server/server_internal.go.
use goblockchain.Base.{
  ℕ, ◌+◌, List, [], ◌∷◌, Result, ok, err, panic, stuck, Go, length, if◌then◌else◌,
}
use goblockchain.Crypto
use goblockchain.Core.Data.{Transaction}
use goblockchain.Core.Platform.{Platform}
use goblockchain.Network.Rpc.{Rpc, DecodedMessage}
use goblockchain.Protocol.{Gob}
use goblockchain.Protocol.Payload.{
  Payload, of_tx, of_block, of_status_request, of_status_response, of_subscribe_request,
  of_subscribe_response, of_get_blocks_request, of_get_blocks_response,
}
use goblockchain.Server.Decode
use goblockchain.Server.Decode.{extract_message_from_rpc}
use goblockchain.Server.Node.{
  Node, Error, in_decoder, handle_transaction, handle_block, handle_get_blocks_request,
  handle_get_blocks_response, create_new_block,
}
use goblockchain.Server.Node.Status.{
  handle_status_message_request, handle_status_message_response, handle_subscribe_message_request,
  handle_subscribe_message_response,
}

module _ (p : Platform) where
  -- The type switch of `ProcessMessage`; `now` is the clock.
  unfoldable pub process_message : ℕ → Payload → Go Error Node (Unit {0})
  process_message now (of_tx t) = handle_transaction p now t
  process_message now (of_block b) = handle_block p b
  process_message now (of_status_request s) = handle_status_message_request s
  process_message now (of_status_response s) = handle_status_message_response s
  process_message now (of_subscribe_request s) = handle_subscribe_message_request s
  process_message now (of_subscribe_response s) = handle_subscribe_message_response s
  process_message now (of_get_blocks_request s) =
      handle_get_blocks_request s.requestor_id s.start_height
  process_message now (of_get_blocks_response s) = handle_get_blocks_response p s.blocks

  module _ (g : Gob) where
    abbrev pub process_decoded :
        ℕ → Result Decode.Error (DecodedMessage Payload) → Go Error Node (Unit {0})
    process_decoded now (ok m) = process_message now m.message_data
    process_decoded now (err e) = λ n. (err (in_decoder e), n)
    process_decoded now (panic q) = λ n. (panic q, n)
    process_decoded now stuck = λ n. (stuck, n)

    -- What `processChannels` does with an RPC, the decoder being `ExtractMessageFromRPC`.
    unfoldable pub process_rpc : ℕ → ℕ → Rpc → Go Error Node (Unit {0})
    process_rpc now addr r = process_decoded now (extract_message_from_rpc g addr r)

-- What a round of `processChannels` or of `runValidator` takes up: an RPC, a transaction of the API
-- server, or a tick of the block timer. Each has the clock, a tick also its randomness.
pub data Event : Type 0 where
  rpc_arrived : ℕ → Rpc → Event
  api_tx : ℕ → Transaction → Event
  block_tick : ℕ → ℕ → Event

-- The node, the next free address for what a round allocates, and the errors that went to `errChan`.
pub record Server : Type 0 where
  pub node : Node
  pub next_addr : ℕ
  pub errors : List Error

-- How many headers a payload brings.
abbrev pub headers_of : Payload → ℕ
headers_of (of_block b) = 1
headers_of (of_get_blocks_response s) = length s.blocks
headers_of _ = 0

abbrev pub allocates : Result Decode.Error (DecodedMessage Payload) → ℕ
allocates (ok m) = headers_of m.message_data
allocates _ = 0

-- A loop goes on after an error, which goes to `errChan`; a panic ends the process.
abbrev pub after_round : ℕ → Server → Result Error (Unit {0}) × Node → Result Error Server
after_round used s (ok _, n) = ok (record s { node = n; next_addr = s.next_addr + used })
after_round used s (err e, n) =
    ok (record { node = n; next_addr = s.next_addr + used; errors = e ∷ s.errors })
after_round used s (panic q, n) = panic q
after_round used s (stuck, n) = stuck

module _ (p : Platform) (g : Gob) where
  -- `runValidator` is started only where the private key is set.
  unfoldable pub round : Event → Server → Result Error Server
  unfolding process_rpc
  round (rpc_arrived now r) s =
      after_round (allocates (extract_message_from_rpc g s.next_addr r)) s
        (process_rpc p g now s.next_addr r s.node)
  round (api_tx now t) s = after_round 0 s (handle_transaction p now t s.node)
  round (block_tick entropy now) s =
      if Crypto.is_zero s.node.key
      then ok s
      else after_round 1 s (create_new_block p entropy s.next_addr now s.node)

  -- The rounds of the two loops in any order.
  unfoldable pub rounds : List Event → Server → Result Error Server
  rounds [] s = ok s
  rounds (e ∷ events) s = elim (round e s) [
    | ok t ↦ rounds events t
    | err x ↦ err x
    | panic q ↦ panic q
    | stuck ↦ stuck
  ]
