-- ===== src/Protocol/Payload.antt =====
-- What the messages of protocol/message.go carry, as one type: the types that
-- `ExtractMessageFromRPC` stores in `DecodedMessage.Data`, and the constructor of a message for each.
use goblockchain.Base.{ℕ, ◌≡◌, ◌≢◌, Option, some, List, [], ◌∷◌, Result}
use goblockchain.Core.Data
use goblockchain.Core.Data.{Transaction, Block}
use goblockchain.Core.Coding.{Codec, tx_received, block_received, blocks_received}
use goblockchain.Protocol.{
  Gob, Message, StatusMessageRequest, StatusMessageResponse, SubscribeMessageRequest,
  SubscribeMessageResponse, GetBlocksRequest, GetBlocksResponse, new_message_from_transaction,
  new_message_from_block, new_message_from_status_message_response,
  new_message_from_status_message_request, new_message_from_subscribe_message_response,
  new_message_from_subscribe_message_request, new_message_from_get_blocks_request,
  new_message_from_get_blocks_response,
}

pub data Payload : Type 0 where
  of_tx : Transaction → Payload
  of_block : Block → Payload
  of_status_request : StatusMessageRequest → Payload
  of_status_response : StatusMessageResponse → Payload
  of_subscribe_request : SubscribeMessageRequest → Payload
  of_subscribe_response : SubscribeMessageResponse → Payload
  of_get_blocks_request : GetBlocksRequest → Payload
  of_get_blocks_response : GetBlocksResponse → Payload

-- The constructor of a message that a payload of this type goes through.
abbrev pub message_from : Gob → Payload → Result Data.Error Message
message_from g (of_tx t) = new_message_from_transaction g t
message_from g (of_block b) = new_message_from_block g b
message_from g (of_status_request s) = new_message_from_status_message_request g s
message_from g (of_status_response s) = new_message_from_status_message_response g s
message_from g (of_subscribe_request s) = new_message_from_subscribe_message_request g s
message_from g (of_subscribe_response s) = new_message_from_subscribe_message_response g s
message_from g (of_get_blocks_request s) = new_message_from_get_blocks_request g s
message_from g (of_get_blocks_response s) = new_message_from_get_blocks_response g s

-- What a payload is on arrival, where a decoder allocates from `addr` on.
abbrev pub received : ℕ → Payload → Payload
received addr (of_tx t) = of_tx (tx_received t)
received addr (of_block b) = of_block (block_received addr b)
received addr (of_get_blocks_response s) =
    of_get_blocks_response (record { blocks = blocks_received addr s.blocks })
received addr x = x

-- A pointer to an empty signature is not told apart from one to nothing by gob.
abbrev pub SendsSignature : Option (List ℕ) → Type 0
SendsSignature s = s ≢ some []

abbrev pub SendsTxs : List Transaction → Type 0
SendsTxs [] = Unit
SendsTxs (t ∷ txs) = SendsSignature t.signature × SendsTxs txs

abbrev pub SendsBlock : Block → Type 0
SendsBlock b = SendsSignature b.signature × SendsTxs b.transactions

abbrev pub SendsBlocks : List Block → Type 0
SendsBlocks [] = Unit
SendsBlocks (b ∷ blocks) = SendsBlock b × SendsBlocks blocks

abbrev pub Sendable : Payload → Type 0
Sendable (of_tx t) = SendsSignature t.signature
Sendable (of_block b) = SendsBlock b
Sendable (of_get_blocks_response s) = SendsBlocks s.blocks
Sendable _ = Unit

-- gob writes something for each value, and reads back the exported fields.
pub record ReadsBack {A : Type 0} (c : Codec A) (Whole : A → Type 0) (arrives : ℕ → A → A)
    : Type 0 where
  pub reads_back :
      (a : A)
      → Whole a
      → (x : ℕ) × (out : List ℕ) × (c.encode a ≡ some (x ∷ out))
        × ((addr : ℕ) → c.decode addr (x ∷ out) ≡ some (arrives addr a))

abbrev pub Plain : {A : Type 0} → Codec A → Type 0
Plain c = ReadsBack c (λ _. Unit) (λ _ a. a)

pub record Delivers (g : Gob) : Type 0 where
  pub messages : ReadsBack g.messages (λ m. m.message_data ≢ some []) (λ _ m. m)
  pub txs : ReadsBack g.txs (λ t. SendsSignature t.signature) (λ _ t. tx_received t)
  pub blocks : ReadsBack g.blocks SendsBlock block_received
  pub status_requests : Plain g.status_requests
  pub status_responses : Plain g.status_responses
  pub subscribe_requests : Plain g.subscribe_requests
  pub subscribe_responses : Plain g.subscribe_responses
  pub get_blocks_requests : Plain g.get_blocks_requests
  pub get_blocks_responses :
      ReadsBack g.get_blocks_responses
        (λ s. SendsBlocks s.blocks)
        (λ addr s. record { blocks = blocks_received addr s.blocks })
