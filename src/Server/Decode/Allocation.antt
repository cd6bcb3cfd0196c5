-- ===== src/Server/Decode/Allocation.antt =====
-- What `ExtractMessageFromRPC` of server/rpc_decode_func.go allocates: the headers of the blocks that
-- it returns.
use goblockchain.Base.{
  ℕ, suc, ◌≡◌, refl, inl, inr, true, false, Bool, some, List, [], ◌∷◌, arith, Result, ok, err,
  panic, stuck, if◌then◌else◌, ◌==◌, Option-cases,
}
use goblockchain.Core.Data
use goblockchain.Core.Data.{Block}
use goblockchain.Core.Coding.{
  Codec, gob_decode, gob_tx_decoder, default_block_decoder, decode_tx, decode_block,
}
use goblockchain.Network.Rpc.{Rpc, DecodedMessage}
use goblockchain.Protocol.{Gob, GetBlocksResponse, Message, message_from_rpc}
use goblockchain.Protocol.Payload.{
  Payload, of_tx, of_block, of_status_request, of_status_response, of_subscribe_request,
  of_subscribe_response, of_get_blocks_request, of_get_blocks_response,
}
use goblockchain.Server.Decode
use goblockchain.Server.Decode.{decoded_as, extract_payload, extract_data, extract_message_from_rpc}

-- The blocks' headers stand one after the other from this address on.
abbrev pub AllocatedFrom : ℕ → List Block → Type 0
AllocatedFrom k [] = Unit
AllocatedFrom k (b ∷ blocks) = (b.header.addr ≡ k) × AllocatedFrom (suc k) blocks

-- A decoder allocates each header that it returns, from the address given on.
pub record Allocates (g : Gob) : Type 0 where
  pub blocks :
      (addr : ℕ) (d : List ℕ) (b : Block) → g.blocks.decode addr d ≡ some b → b.header.addr ≡ addr
  pub responses :
      (addr : ℕ) (d : List ℕ) (s : GetBlocksResponse)
      → g.get_blocks_responses.decode addr d ≡ some s
      → AllocatedFrom addr s.blocks

abbrev pub New : ℕ → Payload → Type 0
New addr (of_block b) = b.header.addr ≡ addr
New addr (of_get_blocks_response s) = AllocatedFrom addr s.blocks
New addr _ = Unit

abbrev pub NewResult : ℕ → Result Decode.Error (DecodedMessage Payload) → Type 0
NewResult addr (ok m) = New addr m.message_data
NewResult addr _ = Unit

decoded_as-NewResult :
    {A : Type 0} (addr : ℕ) (from : List ℕ) (f : A → Payload) (r : Result Data.Error A)
    → ((a : A) → r ≡ ok a → New addr (f a))
    → NewResult addr (decoded_as f from r)
decoded_as-NewResult addr from f (ok a) h = h a refl
decoded_as-NewResult addr from f (err e) h = tt
decoded_as-NewResult addr from f (panic q) h = tt
decoded_as-NewResult addr from f stuck h = tt

either_way :
    (addr : ℕ) (t : Bool) (x y : Result Decode.Error (DecodedMessage Payload))
    → NewResult addr x
    → NewResult addr y
    → NewResult addr (if t then x else y)
either_way addr true x y h k = h
either_way addr false x y h k = k

gob_decode_ok :
    {A : Type 0} (c : Codec A) (addr : ℕ) (d : List ℕ) (a : A)
    → gob_decode c addr d ≡ ok a
    → c.decode addr d ≡ some a
gob_decode_ok c addr d a e = elim (Option-cases (c.decode addr d)) [
  | inl n ↦ absurd (ground (arith, e, n))
  | inr (x, s) ↦ ground (arith, e, s)
]

module _ (g : Gob) (w : Allocates g) where
  extract_payload-NewResult :
      (addr : ℕ) (from : List ℕ) (t : ℕ) (d : List ℕ)
      → NewResult addr (extract_payload g addr from t d)
  unfolding extract_payload gob_tx_decoder default_block_decoder decode_tx decode_block
  extract_payload-NewResult addr from t d =
      either_way addr (t == 0) _ _
        (decoded_as-NewResult addr from of_tx (gob_decode g.txs addr d) (λ a e. tt))
        (either_way addr (t == 1) _ _
          (decoded_as-NewResult addr from of_block (gob_decode g.blocks addr d)
            (λ b e. w.blocks addr d b (gob_decode_ok g.blocks addr d b e)))
          (either_way addr (t == 2) _ _
            (decoded_as-NewResult addr from of_status_request (gob_decode g.status_requests addr d)
              (λ a e. tt))
            (either_way addr (t == 3) _ _
              (decoded_as-NewResult addr from of_status_response
                (gob_decode g.status_responses addr d) (λ a e. tt))
              (either_way addr (t == 5) _ _
                (decoded_as-NewResult addr from of_subscribe_request
                  (gob_decode g.subscribe_requests addr d) (λ a e. tt))
                (either_way addr (t == 4) _ _
                  (decoded_as-NewResult addr from of_subscribe_response
                    (gob_decode g.subscribe_responses addr d) (λ a e. tt))
                  (either_way addr (t == 6) _ _
                    (decoded_as-NewResult addr from of_get_blocks_request
                      (gob_decode g.get_blocks_requests addr d) (λ a e. tt))
                    (either_way addr (t == 7) _ (err (Decode.invalid_message_type t))
                      (decoded_as-NewResult addr from of_get_blocks_response
                        (gob_decode g.get_blocks_responses addr d)
                        (λ s e.
                          w.responses addr d s (gob_decode_ok g.get_blocks_responses addr d s e)))
                      tt)))))))

  extract_data-NewResult :
      (addr : ℕ) (from : List ℕ) (r : Result Data.Error Message)
      → NewResult addr (extract_data g addr from r)
  extract_data-NewResult addr from (ok m) = elim (Option-cases m.message_data) [
    | inl e ↦ rw e tt
    | inr (d, e) ↦ rw e (extract_payload-NewResult addr from m.message_type d)
  ]
  extract_data-NewResult addr from (err e) = tt
  extract_data-NewResult addr from (panic q) = tt
  extract_data-NewResult addr from stuck = tt

  pub extract-NewResult : (addr : ℕ) (r : Rpc) → NewResult addr (extract_message_from_rpc g addr r)
  unfolding extract_message_from_rpc
  extract-NewResult addr r = extract_data-NewResult addr r.from (message_from_rpc g.messages r)
