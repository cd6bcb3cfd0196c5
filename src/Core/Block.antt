-- ===== src/Core/Block.antt =====
-- The methods of core/block.go and the header hasher of core/hasher.go.
pub mod Signing
pub mod Build
pub mod Received
pub mod Total
use goblockchain.Base.{
  ℕ, suc, ◌+◌, ◌%◌, ◌^◌, none, some, List, [], ◌∷◌, ◌++◌, Result, ok, err, panic, stuck, Panic, Go,
  ◌>>=◌, ◌>>◌, modify, wrap_result, if◌then◌else◌, bytes_beq,
}
use goblockchain.Types.Hash.{Hash, is_zero, zero_hash}
use goblockchain.Core.Data.{
  Transaction, Header, HeaderPtr, Block, Error, no_block_signature, invalid_block_signature,
  invalid_data_hash, tx_verify_failed, signing_failed,
}
use goblockchain.Core.Platform.{Platform}
use goblockchain.Core.Transaction.{verify_tx, calculate_data_hash}
use goblockchain.Crypto
use goblockchain.Crypto.{PrivateKey}
pub use goblockchain.Base.{u32_mod}

unfoldable pub new_block : HeaderPtr → List Transaction → Block
new_block h txns = record {
  header = h;
  transactions = txns;
  validator = [];
  signature = none;
  hash = zero_hash;
}

unfoldable pub add_transaction : Transaction → Block → Block
add_transaction t b = record b { transactions = b.transactions ++ (t ∷ []) }

module _ (p : Platform) where
  -- `Header.MustToBytes`
  unfoldable pub must_to_bytes : Header → Result Error (List ℕ)
  must_to_bytes h = elim (p.encode_header h) [ none ↦ panic Panic.explicit | some out ↦ ok out ]

  abbrev pub hash_bytes : Result Error (List ℕ) → Result Error Hash
  hash_bytes (ok out) = ok (p.sha256 out)
  hash_bytes (err e) = err e
  hash_bytes (panic q) = panic q
  hash_bytes stuck = stuck

  -- `DefaultBlockHasher.Hash`
  unfoldable pub header_hash : Header → Result Error Hash
  header_hash h = hash_bytes (must_to_bytes h)

  -- `Block.Hash`: the cache, or the hash of the header.
  unfoldable pub block_hash : Go Error Block Hash
  block_hash b =
      if is_zero b.hash
      then elim (header_hash b.header.target) [
        | ok h ↦ (ok h, record b { hash = h })
        | other ↦ (other, b)
      ]
      else (ok b.hash, b)

  -- `newHeaderFromPrev`; `now` is the clock.
  unfoldable pub new_header_from_prev : ℕ → Header → Result Error Header
  new_header_from_prev now prev = elim (header_hash prev) [
    | ok h ↦ ok (record {
      version = 1;
      data_hash = zero_hash;
      previous_block_hash = h;
      timestamp = now;
      height = (prev.height + 1) % u32_mod;
    })
    | err e ↦ err e
    | panic q ↦ panic q
    | stuck ↦ stuck
  ]

  -- `NewBlockFromPrevHeader`; the new header is allocated at `addr`.
  unfoldable pub new_block_from_prev_header : ℕ → ℕ → Header → List Transaction → Result Error Block
  new_block_from_prev_header addr now prev txns = elim (new_header_from_prev now prev) [
    | ok h ↦ elim (calculate_data_hash p txns) [
      | ok dh ↦ ok (new_block (record { addr = addr; target = record h { data_hash = dh } }) txns)
      | err e ↦ err e
      | panic q ↦ panic q
      | stuck ↦ stuck
    ]
    | err e ↦ err e
    | panic q ↦ panic q
    | stuck ↦ stuck
  ]

  abbrev pub set_data_hash : Hash → Block → Block
  set_data_hash dh b = record b {
    header = record { addr = b.header.addr; target = record b.header.target { data_hash = dh } };
  }

  -- `Block.Sign`: the signature is over the header as it stands, and `DataHash` is written after it.
  unfoldable pub sign_block : ℕ → PrivateKey → Go Error Block (Unit {0})
  sign_block entropy k = do
    message ← (λ b. (must_to_bytes b.header.target, b))
    sig ← (λ b. (wrap_result (λ _. signing_failed) (Crypto.sign p entropy k message), b))
    modify (λ b. record b { signature = some sig })
    pub_key ← (λ b. (wrap_result (λ _. signing_failed) (Crypto.public_key p k), b))
    modify (λ b. record b { validator = pub_key })
    dh ← (λ b. (calculate_data_hash p b.transactions, b))
    modify (set_data_hash dh)

  -- The loop of `Block.Verify` over the transactions, from the index `i` on.
  unfoldable pub verify_txns : ℕ → List Transaction → Result Error (Unit {0})
  verify_txns i [] = ok tt
  verify_txns i (t ∷ txns) = elim (verify_tx p t) [
    | ok _ ↦ verify_txns (suc i) txns
    | err e ↦ err (tx_verify_failed i e)
    | other ↦ other
  ]

  -- The last test of `Block.Verify`; an error of `calculateDataHash` counts as a success.
  unfoldable pub verify_data_hash : Block → Result Error (Unit {0})
  verify_data_hash b = elim (calculate_data_hash p b.transactions) [
    | ok dh ↦ if bytes_beq dh b.header.target.data_hash then ok tt else err invalid_data_hash
    | err _ ↦ ok tt
    | panic q ↦ panic q
    | stuck ↦ stuck
  ]

  abbrev pub then_check :
      Result Error (Unit {0}) → Result Error (Unit {0}) → Result Error (Unit {0})
  then_check (ok _) next = next
  then_check (err e) next = err e
  then_check (panic q) next = panic q
  then_check stuck next = stuck

  abbrev pub verify_signature : Block → List ℕ → Result Error (List ℕ) → Result Error (Unit {0})
  verify_signature b s (ok message) =
      Crypto.accepts invalid_block_signature (Crypto.verify p s b.validator message)
  verify_signature b s (err e) = err e
  verify_signature b s (panic q) = panic q
  verify_signature b s stuck = stuck

  -- `Block.Verify`
  unfoldable pub verify_block : Block → Result Error (Unit {0})
  verify_block b = elim b.signature [
    | none ↦ err no_block_signature
    | some s ↦
        then_check (verify_signature b s (must_to_bytes b.header.target))
          (then_check (verify_txns 0 b.transactions) (verify_data_hash b))
  ]
