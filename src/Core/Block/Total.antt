-- ===== src/Core/Block/Total.antt =====
-- Building, hashing and signing a block of core/block.go, where gob and the signatures do not fail.
use goblockchain.Base.{
  ℕ, ◌+◌, ◌%◌, arith, ◌≡◌, refl, inl, inr, some, List, [], ◌∷◌, ◌++◌, ok, Bool-cases,
}
use goblockchain.Types.Hash.{Hash, is_zero}
use goblockchain.Crypto
use goblockchain.Core.Data.{Transaction, Header, Block}
use goblockchain.Core.Platform.{Platform, EcdsaKey, EncodesFields, SignsAlways}
use goblockchain.Core.Transaction.{encode_loop, calculate_data_hash}
use goblockchain.Core.Block.{
  header_hash, block_hash, must_to_bytes, new_header_from_prev, new_block_from_prev_header,
  sign_block, new_block, u32_mod,
}

module _ (p : Platform) (f : EncodesFields p) where
  -- Taking the hash of a block does not fail where gob writes every header.
  pub block_hash_total : (b : Block) → (h : Hash) × (c : Block) × (block_hash p b ≡ (ok h, c))
  unfolding block_hash header_hash must_to_bytes
  block_hash_total b = elim (Bool-cases (is_zero b.hash)) [
    | inl z ↦
        let (out, e) = f.headers b.header.target in
        (p.sha256 out, record b { hash = p.sha256 out }, rw (z, e) refl)
    | inr c ↦ (b.hash, b, rw c refl)
  ]

  must_to_bytes_lem :
      (h : Header) (out : List ℕ) → p.encode_header h ≡ some out → must_to_bytes p h ≡ ok out
  unfolding must_to_bytes
  must_to_bytes_lem h out e = rw (e, must_to_bytes) refl

  encode_loop_total :
      (txns : List Transaction) (buf : List ℕ)
      → (out : List ℕ) × (encode_loop p txns buf ≡ some out)
  unfolding encode_loop
  encode_loop_total [] buf = (buf, refl)
  encode_loop_total (t ∷ txns) buf =
      let (out, e) = f.txns t in
      let (all, r) = encode_loop_total txns (buf ++ out) in (all, rw (e, encode_loop) r)

  calculate_data_hash_total :
      (txns : List Transaction) → (h : Hash) × (calculate_data_hash p txns ≡ ok h)
  unfolding calculate_data_hash
  calculate_data_hash_total txns =
      let (out, e) = encode_loop_total txns [] in (p.sha256 out, rw (e, calculate_data_hash) refl)

  pub new_block_from_prev_header_total :
      (addr now : ℕ) (prev : Header) (txns : List Transaction)
      → (b : Block) × (new_block_from_prev_header p addr now prev txns ≡ ok b)
  unfolding new_block_from_prev_header new_header_from_prev header_hash
  new_block_from_prev_header_total addr now prev txns =
      let (out, e) = f.headers prev in
      let (h, r) = calculate_data_hash_total txns in
      (
        new_block
            (record {
              addr = addr;
              target = record {
                version = 1;
                data_hash = h;
                previous_block_hash = p.sha256 out;
                timestamp = now;
                height = (prev.height + 1) % u32_mod;
              };
            })
            txns,
        rw
            (
              must_to_bytes_lem prev out e,
              r,
              header_hash,
              new_header_from_prev,
              new_block_from_prev_header,
            )
            refl,
      )

  pub sign_block_total :
      (key : EcdsaKey)
      → SignsAlways p key
      → (entropy : ℕ) (b : Block) → (sign_block p entropy (record { key = some key }) b).0 ≡ ok tt
  unfolding sign_block must_to_bytes Crypto.sign Crypto.public_key
  sign_block_total key a entropy b =
      let (out, e) = f.headers b.header.target in
      let (s, q) = a.signature entropy out in
      let (h, r) = calculate_data_hash_total b.transactions in ground arith
