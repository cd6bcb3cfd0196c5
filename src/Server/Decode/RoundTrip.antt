-- ===== src/Server/Decode/RoundTrip.antt =====
-- A payload from the constructor of its message to `ExtractMessageFromRPC` (protocol/message.go,
-- server/rpc_decode_func.go).
use goblockchain.Base.{ℕ, ◌≡◌, ◌∙◌, ap, some, List, [], ◌∷◌, ok, arith}
use goblockchain.Core.Coding.{
  Codec, gob_encode, gob_decode, gob_encode-some, gob_decode-some, gob_tx_encoder, gob_tx_decoder,
  default_block_encoder, default_block_decoder, encode_tx, encode_block, decode_tx, decode_block,
}
use goblockchain.Protocol.{
  Gob, Message, message_of, written, message_bytes, message_from_rpc, new_message,
  new_message_from_transaction, new_message_from_block, new_message_from_status_message_response,
  new_message_from_status_message_request, new_message_from_subscribe_message_response,
  new_message_from_subscribe_message_request, new_message_from_get_blocks_request,
  new_message_from_get_blocks_response,
}
use goblockchain.Protocol.Payload.{
  Payload, of_tx, of_block, of_status_request, of_status_response, of_subscribe_request,
  of_subscribe_response, of_get_blocks_request, of_get_blocks_response, message_from, received,
  Sendable, ReadsBack, Delivers,
}
use goblockchain.Server.Decode.{decoded_as, extract_data, extract_payload, extract_message_from_rpc}

module _ (g : Gob) where
  -- The bytes of the payload's message, and what the far end makes of them.
  abbrev pub Arrives : ℕ → List ℕ → Payload → Type 0
  Arrives addr from x =
      (m : Message) × (out : List ℕ) × (message_from g x ≡ ok m)
      × (message_bytes g.messages m ≡ ok (some out))
      × (extract_message_from_rpc g addr (record { from = from; content = out })
          ≡ ok (record { from = from; message_data = received addr x }))

  module _ (d : Delivers g) (addr : ℕ) (from : List ℕ) where
    -- A message that is built, with bytes that are extracted as the payload `y`.
    carried :
        {A : Type 0} (c : Codec A) (Whole : A → Type 0) (arrives : ℕ → A → A)
        → ReadsBack c Whole arrives
        → (a : A) → Whole a
        → (t : ℕ) (y : Payload)
        → ((out : List ℕ)
            → gob_decode c addr out ≡ ok (arrives addr a)
            → extract_payload g addr from t out ≡ ok (record { from = from; message_data = y }))
        → (m : Message) × (out : List ℕ) × (message_of t (gob_encode c a []) ≡ ok m)
          × (message_bytes g.messages m ≡ ok (some out))
          × (extract_message_from_rpc g addr (record { from = from; content = out })
              ≡ ok (record { from = from; message_data = y }))
    unfolding message_bytes message_from_rpc extract_message_from_rpc new_message
    carried c Whole arrives r a w t y reads =
        let (x, out, e, back) = r.reads_back a w in
        let m : Message = record { message_type = t; message_data = some (x ∷ out) } in
        let (z, bytes, f, again) = d.messages.reads_back m (λ q. ground (arith, q)) in
        (
          m,
          z ∷ bytes,
          ap (message_of t) (gob_encode-some c a [] (x ∷ out) e),
          ap written (gob_encode-some g.messages m [] (z ∷ bytes) f),
          ap (extract_data g addr from) (gob_decode-some g.messages 0 (z ∷ bytes) m (again 0))
              ∙ reads (x ∷ out) (gob_decode-some c addr (x ∷ out) (arrives addr a) (back addr)),
        )

    -- With codecs that read back what they write, each of the eight kinds of payload goes through: its
    -- constructor makes a message, the message has bytes, and `ExtractMessageFromRPC` makes of these
    -- bytes the payload again, from the sender that the RPC names. Of transactions and blocks the
    -- exported fields arrive, while cached hashes are zero and hashers are nil. (No pointer to an empty
    -- signature is sent.)
    pub extract_message_from_rpc-Arrives : (x : Payload) → Sendable x → Arrives addr from x
    unfolding new_message_from_transaction new_message_from_block
        new_message_from_status_message_response new_message_from_status_message_request
        new_message_from_subscribe_message_response new_message_from_subscribe_message_request
        new_message_from_get_blocks_request new_message_from_get_blocks_response gob_tx_encoder
        default_block_encoder encode_tx encode_block gob_tx_decoder default_block_decoder decode_tx
        decode_block extract_payload
    extract_message_from_rpc-Arrives (of_tx t) w =
        carried _ _ _ d.txs t w 0 _ (λ out e. ap (decoded_as of_tx from) e)
    extract_message_from_rpc-Arrives (of_block b) w =
        carried _ _ _ d.blocks b w 1 _ (λ out e. ap (decoded_as of_block from) e)
    extract_message_from_rpc-Arrives (of_status_request s) w =
        carried _ _ _ d.status_requests s tt 2 _ (λ out e. ap (decoded_as of_status_request from) e)
    extract_message_from_rpc-Arrives (of_status_response s) w =
        carried _ _ _ d.status_responses s tt 3 _
          (λ out e. ap (decoded_as of_status_response from) e)
    extract_message_from_rpc-Arrives (of_subscribe_request s) w =
        carried _ _ _ d.subscribe_requests s tt 5 _
          (λ out e. ap (decoded_as of_subscribe_request from) e)
    extract_message_from_rpc-Arrives (of_subscribe_response s) w =
        carried _ _ _ d.subscribe_responses s tt 4 _
          (λ out e. ap (decoded_as of_subscribe_response from) e)
    extract_message_from_rpc-Arrives (of_get_blocks_request s) w =
        carried _ _ _ d.get_blocks_requests s tt 6 _
          (λ out e. ap (decoded_as of_get_blocks_request from) e)
    extract_message_from_rpc-Arrives (of_get_blocks_response s) w =
        carried _ _ _ d.get_blocks_responses s w 7 _
          (λ out e. ap (decoded_as of_get_blocks_response from) e)
