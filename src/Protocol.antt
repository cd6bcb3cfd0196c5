-- ===== src/Protocol.antt =====
-- protocol/message.go and protocol/status_message.go: the messages and their payloads. Strings are
-- lists of bytes; the names of the message types, which only the log shows, are left out.
pub mod Payload
pub mod Format
pub mod Demo
use goblockchain.Base.{ℕ, Option, none, some, List, [], ◌∷◌, Result, ok, err, panic, stuck}
use goblockchain.Core.Data
use goblockchain.Core.Data.{Transaction, Block}
use goblockchain.Core.Coding.{
  Codec, Encoder, gob_encode, gob_decode, gob_tx_encoder, default_block_encoder, encode_tx,
  encode_block,
}
use goblockchain.Network.Rpc.{Rpc}

-- `MessageType` is a byte.
abbrev pub message_type_tx : ℕ
message_type_tx = 0

abbrev pub message_type_block : ℕ
message_type_block = 1

abbrev pub message_type_status_request : ℕ
message_type_status_request = 2

abbrev pub message_type_status_response : ℕ
message_type_status_response = 3

abbrev pub message_type_subscribe_response : ℕ
message_type_subscribe_response = 4

abbrev pub message_type_subscribe_request : ℕ
message_type_subscribe_request = 5

abbrev pub message_type_get_blocks_request : ℕ
message_type_get_blocks_request = 6

abbrev pub message_type_get_blocks_response : ℕ
message_type_get_blocks_response = 7

-- A nil slice is `none`.
pub record Message : Type 0 where
  pub message_type : ℕ
  pub message_data : Option (List ℕ)

pub record StatusMessageResponse : Type 0 where
  pub server_id : List ℕ
  pub current_height : ℕ
  pub version : ℕ

pub record StatusMessageRequest : Type 0 where
  pub requestor_id : List ℕ

pub record SubscribeMessageResponse : Type 0 where
  pub provider_id : List ℕ

pub record SubscribeMessageRequest : Type 0 where
  pub requestor_id : List ℕ
  pub handle : List ℕ

pub record GetBlocksRequest : Type 0 where
  pub requestor_id : List ℕ
  pub start_height : ℕ

pub record GetBlocksResponse : Type 0 where
  pub blocks : List Block

-- gob on each of the types that the program sends.
pub record Gob : Type 0 where
  pub messages : Codec Message
  pub txs : Codec Transaction
  pub blocks : Codec Block
  pub status_requests : Codec StatusMessageRequest
  pub status_responses : Codec StatusMessageResponse
  pub subscribe_requests : Codec SubscribeMessageRequest
  pub subscribe_responses : Codec SubscribeMessageResponse
  pub get_blocks_requests : Codec GetBlocksRequest
  pub get_blocks_responses : Codec GetBlocksResponse

unfoldable pub new_message : ℕ → Option (List ℕ) → Message
new_message t d = record { message_type = t; message_data = d }

-- `buf.Bytes()` of a new buffer: nil where nothing was written.
abbrev pub buffer_bytes : List ℕ → Option (List ℕ)
buffer_bytes [] = none
buffer_bytes (x ∷ xs) = some (x ∷ xs)

abbrev pub written : Result Data.Error (Unit {0}) × List ℕ → Result Data.Error (Option (List ℕ))
written (ok _, buf) = ok (buffer_bytes buf)
written (err e, buf) = err e
written (panic q, buf) = panic q
written (stuck, buf) = stuck

-- `Message.Bytes`
unfoldable pub message_bytes : Codec Message → Message → Result Data.Error (Option (List ℕ))
message_bytes c m = written (gob_encode c m [])

-- How each of the constructors of a message ends, on what its encoder left in the buffer.
abbrev pub message_of : ℕ → Result Data.Error (Unit {0}) × List ℕ → Result Data.Error Message
unfolding new_message
message_of t (ok _, buf) = ok (new_message t (buffer_bytes buf))
message_of t (err e, buf) = err e
message_of t (panic q, buf) = panic q
message_of t (stuck, buf) = stuck

module _ (g : Gob) where
  unfoldable pub new_message_from_transaction : Transaction → Result Data.Error Message
  unfolding gob_tx_encoder encode_tx
  new_message_from_transaction t =
      message_of message_type_tx (encode_tx (gob_tx_encoder g.txs) t [])

  unfoldable pub new_message_from_block : Block → Result Data.Error Message
  unfolding default_block_encoder encode_block
  new_message_from_block b =
      message_of message_type_block (encode_block (default_block_encoder g.blocks) b [])

  unfoldable pub new_message_from_status_message_response :
      StatusMessageResponse → Result Data.Error Message
  new_message_from_status_message_response s =
      message_of message_type_status_response (gob_encode g.status_responses s [])

  unfoldable pub new_message_from_status_message_request :
      StatusMessageRequest → Result Data.Error Message
  new_message_from_status_message_request s =
      message_of message_type_status_request (gob_encode g.status_requests s [])

  unfoldable pub new_message_from_subscribe_message_response :
      SubscribeMessageResponse → Result Data.Error Message
  new_message_from_subscribe_message_response s =
      message_of message_type_subscribe_response (gob_encode g.subscribe_responses s [])

  unfoldable pub new_message_from_subscribe_message_request :
      SubscribeMessageRequest → Result Data.Error Message
  new_message_from_subscribe_message_request s =
      message_of message_type_subscribe_request (gob_encode g.subscribe_requests s [])

  unfoldable pub new_message_from_get_blocks_request : GetBlocksRequest → Result Data.Error Message
  new_message_from_get_blocks_request s =
      message_of message_type_get_blocks_request (gob_encode g.get_blocks_requests s [])

  unfoldable pub new_message_from_get_blocks_response :
      GetBlocksResponse → Result Data.Error Message
  new_message_from_get_blocks_response s =
      message_of message_type_get_blocks_response (gob_encode g.get_blocks_responses s [])

-- `MessageFromRPC`
unfoldable pub message_from_rpc : Codec Message → Rpc → Result Data.Error Message
message_from_rpc c r = gob_decode c 0 r.content
