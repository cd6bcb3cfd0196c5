-- ===== src/Core/Block/Received.antt =====
-- A block behind the decoder of core/coding.go: what `Block.Verify` and `Block.Hash` of core/block.go
-- make of it.
use goblockchain.Base.{
  ℕ, suc, ◌≡◌, refl, ap, ◌∙◌, none, some, List, [], ◌∷◌, ◌++◌, Result, ok, err, panic, stuck,
}
use goblockchain.Types.Hash.{Hash, is_zero}
use goblockchain.Core.Data.{Transaction, Block, Error, tx_verify_failed, no_block_signature}
use goblockchain.Core.Platform.{Platform, EncodesFields}
use goblockchain.Core.Coding.{tx_received, txs_received, block_received}
use goblockchain.Core.Transaction.{verify_tx, encode_loop, calculate_data_hash}
use goblockchain.Core.Block.{
  header_hash, block_hash, verify_txns, verify_data_hash, verify_signature, then_check,
  must_to_bytes, verify_block,
}

module _ (p : Platform) where
  encode_loop-received :
      EncodesFields p
      → (txns : List Transaction) (buf : List ℕ)
      → encode_loop p (txs_received txns) buf ≡ encode_loop p txns buf
  unfolding encode_loop
  encode_loop-received f [] buf = refl
  encode_loop-received f (t ∷ txns) buf =
      let (out, e) = f.txns t in
      let arrived : p.encode_tx (tx_received t) ≡ some out =
        f.exported (tx_received t) t refl refl refl ∙ e in
      rw (arrived, e, encode_loop) (encode_loop-received f txns (buf ++ out))

  calculate_data_hash-received :
      EncodesFields p
      → (txns : List Transaction)
      → calculate_data_hash p (txs_received txns) ≡ calculate_data_hash p txns
  unfolding calculate_data_hash
  calculate_data_hash-received f txns =
      rw (encode_loop-received f txns [], calculate_data_hash) refl

  verify_txns-received :
      (i : ℕ) (txns : List Transaction) → verify_txns p i (txs_received txns) ≡ verify_txns p i txns
  unfolding verify_txns verify_tx
  verify_txns-received i [] = refl
  verify_txns-received i (t ∷ txns) =
      ap
        (λ rest. elim (verify_tx p t) [
          | ok _ ↦ rest
          | err e ↦ err (tx_verify_failed i e)
          | other ↦ other
        ])
        (verify_txns-received (suc i) txns)

  verify_data_hash-received :
      EncodesFields p
      → (addr : ℕ) (b : Block) → verify_data_hash p (block_received addr b) ≡ verify_data_hash p b
  unfolding verify_data_hash
  verify_data_hash-received f addr b =
      rw (calculate_data_hash-received f b.transactions, verify_data_hash) refl

  -- Where gob writes the exported fields alone, `Verify` says of a block that arrives what it says of
  -- the block that was sent, whichever test fails; and its hash is the hash of the header that was
  -- sent, whatever the sender had cached.
  pub verify_block-block_received :
      EncodesFields p
      → (addr : ℕ) (b : Block)
      → (verify_block p (block_received addr b) ≡ verify_block p b)
        × ((block_hash p (block_received addr b)).0 ≡ header_hash p b.header.target)
  unfolding verify_block block_hash is_zero
  verify_block-block_received f addr b = (
    ap
        (λ rest. elim b.signature [
          | none ↦ err no_block_signature
          | some s ↦ then_check p (verify_signature p b s (must_to_bytes p b.header.target)) rest
        ])
        same_checks,
    of_header (header_hash p b.header.target),
  )
    where
      same_checks :
          then_check p
            (verify_txns p 0 (txs_received b.transactions))
            (verify_data_hash p (block_received addr b))
          ≡ then_check p (verify_txns p 0 b.transactions) (verify_data_hash p b)
      same_checks =
          ap (λ x. then_check p x (verify_data_hash p (block_received addr b)))
            (verify_txns-received 0 b.transactions)
          ∙ ap (then_check p (verify_txns p 0 b.transactions)) (verify_data_hash-received f addr b)

      of_header :
          (r : Result Error Hash)
          → (elim r as (λ _. Result Error Hash × Block) [
            | ok h ↦ (ok h, record (block_received addr b) { hash = h })
            | other ↦ (other, block_received addr b)
          ]).0
            ≡ r
      of_header (ok h) = refl
      of_header (err e) = refl
      of_header (panic q) = refl
      of_header stuck = refl
