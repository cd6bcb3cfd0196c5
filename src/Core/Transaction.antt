-- ===== src/Core/Transaction.antt =====
-- The methods of core/transaction.go, and the hasher of core/hasher.go. A method that writes a field
-- takes and returns what the pointer points at.
use goblockchain.Base.{
  ℕ, Option, none, some, List, [], ◌∷◌, ◌++◌, Result, ok, err, panic, Panic, Go, ◌>>=◌, gets,
  modify, wrap_result, if◌then◌else◌, ◌==◌,
}
use goblockchain.Types.Hash.{Hash, is_zero, zero_hash}
use goblockchain.Core.Data.{
  Transaction, TxHasher, default_tx_hasher, Error, no_tx_signature, invalid_tx_signature,
  signing_failed, encoding_failed,
}
use goblockchain.Core.Platform.{Platform}
use goblockchain.Crypto
use goblockchain.Crypto.{PrivateKey}

unfoldable pub new_transaction : List ℕ → Transaction
new_transaction d = record {
  tx_data = d;
  from = [];
  signature = none;
  hash = zero_hash;
  created_at = 0;
  hasher = some default_tx_hasher;
}

unfoldable pub set_hasher : TxHasher → Transaction → Transaction
set_hasher h t = record t { hasher = some h }

unfoldable pub set_created_at : ℕ → Transaction → Transaction
set_created_at now t = record t { created_at = now }

unfoldable pub get_created_at : ℕ → Go Error Transaction ℕ
get_created_at now t =
    if t.created_at == 0 then (ok now, record t { created_at = now }) else (ok t.created_at, t)

module _ (p : Platform) where
  -- `DefaultTxHasher.Hash`: the hash covers `Data` alone.
  unfoldable pub hash_with : TxHasher → Transaction → Hash
  hash_with default_tx_hasher t = p.sha256 t.tx_data

  -- `Transaction.Hash`: the cache, or the hasher, which is nil behind a decoder.
  unfoldable pub tx_hash : Go Error Transaction Hash
  unfolding hash_with
  tx_hash t =
      if is_zero t.hash
      then elim t.hasher [
        | none ↦ (panic Panic.nil_dereference, t)
        | some h ↦ (ok (hash_with h t), record t { hash = hash_with h t })
      ]
      else (ok t.hash, t)

  -- `Transaction.Sign`
  unfoldable pub sign_tx : ℕ → PrivateKey → Go Error Transaction (Unit {0})
  sign_tx entropy k = do
    message ← gets (λ t. t.tx_data)
    sig ← (λ t. (wrap_result (λ _. signing_failed) (Crypto.sign p entropy k message), t))
    from ← (λ t. (wrap_result (λ _. signing_failed) (Crypto.public_key p k), t))
    modify (λ t. record t { from = from; signature = some sig })

  -- `Transaction.Verify`
  unfoldable pub verify_tx : Transaction → Result Error (Unit {0})
  verify_tx t = elim t.signature [
    | none ↦ err no_tx_signature
    | some s ↦ Crypto.accepts invalid_tx_signature (Crypto.verify p s t.from t.tx_data)
  ]

  -- The loop of `calculateDataHash` with what the buffer holds.
  unfoldable pub encode_loop : List Transaction → List ℕ → Option (List ℕ)
  encode_loop [] buf = some buf
  encode_loop (t ∷ txns) buf = elim (p.encode_tx t) [
    | none ↦ none
    | some out ↦ encode_loop txns (buf ++ out)
  ]

  unfoldable pub calculate_data_hash : List Transaction → Result Error Hash
  calculate_data_hash txns = elim (encode_loop txns []) [
    | none ↦ err encoding_failed
    | some buf ↦ ok (p.sha256 buf)
  ]
