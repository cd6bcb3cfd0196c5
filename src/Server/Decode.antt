-- ===== src/Server/Decode.antt =====
-- server/rpc_decode_func.go: an RPC with the bytes of a message becomes a decoded message.
pub mod RoundTrip
pub mod Broadcast
pub mod Allocation
pub mod Tests
use goblockchain.Base.{
  ℕ, Option, none, some, List, Result, ok, err, panic, stuck, if◌then◌else◌, ◌==◌,
}
use goblockchain.Core.Data
use goblockchain.Core.Coding.{
  Codec, Decoder, gob_decode, gob_tx_decoder, default_block_decoder, decode_tx, decode_block,
}
use goblockchain.Network.Rpc.{Rpc, DecodedMessage}
use goblockchain.Protocol.{
  Gob, Message, message_type_tx, message_type_block, message_type_status_request,
  message_type_status_response, message_type_subscribe_response, message_type_subscribe_request,
  message_type_get_blocks_request, message_type_get_blocks_response, message_from_rpc,
}
use goblockchain.Protocol.Payload.{
  Payload, of_tx, of_block, of_status_request, of_status_response, of_subscribe_request,
  of_subscribe_response, of_get_blocks_request, of_get_blocks_response,
}

-- Each error named for its message; the errors of decoders are wrapped.
pub data Error : Type 0 where
  no_message : Data.Error → Error
  nil_data : Error
  no_payload : Data.Error → Error
  invalid_message_type : ℕ → Error

-- How each case of the switch ends.
abbrev pub decoded_as :
    {A : Type 0}
    → (A → Payload)
    → List ℕ
    → Result Data.Error A
    → Result Error (DecodedMessage Payload)
decoded_as f from (ok a) = ok (record { from = from; message_data = f a })
decoded_as f from (err e) = err (no_payload e)
decoded_as f from (panic q) = panic q
decoded_as f from stuck = stuck

module _ (g : Gob) (addr : ℕ) (from : List ℕ) where
  -- The switch on the type of the message, in the order of its cases.
  unfoldable pub extract_payload : ℕ → List ℕ → Result Error (DecodedMessage Payload)
  unfolding gob_tx_decoder default_block_decoder decode_tx decode_block
  extract_payload t d =
      if t == message_type_tx
      then decoded_as of_tx from (decode_tx (gob_tx_decoder g.txs addr d))
      else (if t == message_type_block
          then decoded_as of_block from (decode_block (default_block_decoder g.blocks addr d))
          else (if t == message_type_status_request
              then decoded_as of_status_request from (gob_decode g.status_requests addr d)
              else (if t == message_type_status_response
                  then decoded_as of_status_response from (gob_decode g.status_responses addr d)
                  else (if t == message_type_subscribe_request
                      then decoded_as of_subscribe_request from
                          (gob_decode g.subscribe_requests addr d)
                      else (if t == message_type_subscribe_response
                          then decoded_as of_subscribe_response from
                              (gob_decode g.subscribe_responses addr d)
                          else (if t == message_type_get_blocks_request
                              then decoded_as of_get_blocks_request from
                                  (gob_decode g.get_blocks_requests addr d)
                              else (if t == message_type_get_blocks_response
                                  then decoded_as of_get_blocks_response from
                                      (gob_decode g.get_blocks_responses addr d)
                                  else err (invalid_message_type t))))))))

  abbrev pub extract_data : Result Data.Error Message → Result Error (DecodedMessage Payload)
  extract_data (ok m) = elim m.message_data [
    | none ↦ err nil_data
    | some d ↦ extract_payload m.message_type d
  ]
  extract_data (err e) = err (no_message e)
  extract_data (panic q) = panic q
  extract_data stuck = stuck

-- `ExtractMessageFromRPC`; what it allocates stands at `addr` and after it.
unfoldable pub extract_message_from_rpc : Gob → ℕ → Rpc → Result Error (DecodedMessage Payload)
extract_message_from_rpc g addr r = extract_data g addr r.from (message_from_rpc g.messages r)
