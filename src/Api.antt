-- ===== src/Api.antt =====
-- The HTTP handlers of api/server.go over the queries of the chain.
pub mod Number
pub mod Heights
pub mod Hashes
mod Tests
use goblockchain.Base.{
  ℕ, Bool, Option, none, some, List, [], ◌∷◌, ◌++◌, Result, ok, err, panic, stuck, Panic, Go,
  if◌then◌else◌, ℤ,
}
use goblockchain.Types.Hash.{HexError, Hash, hash_from_hex}
use goblockchain.Core.Data
use goblockchain.Core.Data.{Transaction, Block}
use goblockchain.Core.Blockchain.{Blockchain, get_block_at, get_block_hash, get_transaction}
use goblockchain.Api.Number.{atoi, u32_of}

-- What the JSON object of an answer says of the chain or of the failure; the entries that repeat the
-- request are left out.
pub data Body : Type 0 where
  bad_hash : HexError → Body
  bad_number bad_request_body bad_transaction : Body
  chain_error : Data.Error → Body
  block_by_hash : Hash → Block → Body
  block_by_height : ℤ → Block → Body
  transaction : Hash → Transaction → Body
  accepted : Transaction → Body

pub record Response : Type 0 where
  pub status : ℕ
  pub body : Body

abbrev pub status_ok : ℕ
status_ok = 200

abbrev pub status_bad_request : ℕ
status_bad_request = 400

abbrev pub status_not_found : ℕ
status_not_found = 404

-- What `ectx.JSON` returns where the answer is not written.
pub data Error : Type 0 where
  not_written : Error

-- A request by its route, with the parameter in its path, or its body if that can be read.
pub data Request : Type 0 where
  get_block_hash_request : List ℕ → Request
  get_block_height_request : List ℕ → Request
  get_txn_request : List ℕ → Request
  put_txn_request : Option (List ℕ) → Request

-- `writes` is whether the framework writes an answer.
module _ (writes : Response → Bool) where
  -- `ectx.JSON`
  abbrev pub json : ℕ → Body → Result Error Response
  json status body =
      let r : Response = record { status = status; body = body } in
      if writes r then ok r else err not_written

  -- The last answer of `handleGetBlockByHeight`: it panics where that is not written.
  abbrev pub json_or_panic : ℕ → Body → Result Error Response
  json_or_panic status body =
      let r : Response = record { status = status; body = body } in
      if writes r then ok r else panic Panic.explicit

  abbrev pub answer :
      {A : Type 0} → (A → Result Error Response) → Result Data.Error A → Result Error Response
  answer f (ok a) = f a
  answer f (err e) = json status_not_found (chain_error e)
  answer f (panic q) = panic q
  answer f stuck = stuck

  abbrev pub with_hash :
      (Hash → Result Error Response) → Result HexError Hash → Result Error Response
  with_hash f (ok h) = f h
  with_hash f (err e) = json status_bad_request (bad_hash e)
  with_hash f (panic q) = panic q
  with_hash f stuck = stuck

  unfoldable pub handle_get_block_by_hash : List ℕ → Blockchain → Result Error Response
  handle_get_block_by_hash q bc =
      with_hash (λ h. answer (λ b. json status_ok (block_by_hash h b)) (get_block_hash h bc))
        (hash_from_hex q)

  unfoldable pub handle_get_transaction : List ℕ → Blockchain → Result Error Response
  handle_get_transaction q bc =
      with_hash (λ h. answer (λ t. json status_ok (transaction h t)) (get_transaction h bc))
        (hash_from_hex q)

  abbrev pub block_at_number : Blockchain → Option ℤ → Result Error Response
  block_at_number bc none = json status_bad_request bad_number
  block_at_number bc (some n) =
      answer (λ b. json_or_panic status_ok (block_by_height n b)) (get_block_at (u32_of n) bc)

  unfoldable pub handle_get_block_by_height : List ℕ → Blockchain → Result Error Response
  handle_get_block_by_height val bc = block_at_number bc (atoi val)

  -- The state is what the handler has sent to `txChan`; `unmarshal` is the decoder of JSON.
  unfoldable pub handle_put_transaction :
      (List ℕ → Option Transaction) → Option (List ℕ) → Go Error (List Transaction) Response
  handle_put_transaction unmarshal body sent = elim body [
    | none ↦ (json status_bad_request bad_request_body, sent)
    | some b ↦ elim (unmarshal b) [
      | none ↦ (json status_bad_request bad_transaction, sent)
      | some t ↦ (json status_ok (accepted t), sent ++ (t ∷ []))
    ]
  ]

  -- The routes of `Start`.
  unfoldable pub handle :
      (List ℕ → Option Transaction) → Blockchain → Request → Go Error (List Transaction) Response
  handle unmarshal bc (get_block_hash_request q) sent = (handle_get_block_by_hash q bc, sent)
  handle unmarshal bc (get_block_height_request v) sent = (handle_get_block_by_height v bc, sent)
  handle unmarshal bc (get_txn_request q) sent = (handle_get_transaction q bc, sent)
  handle unmarshal bc (put_txn_request body) sent = handle_put_transaction unmarshal body sent
