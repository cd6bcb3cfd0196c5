-- ===== src/Core/Block/Build.antt =====
-- The block that a validator builds from the last header and its pending transactions (core/block.go).
use goblockchain.Base.{
  ℕ, ◌+◌, ◌%◌, ◌≡◌, refl, sym, some, List, Result, ok, err, panic, stuck, arith, ap, ◌∙◌, inl, inr,
}
use goblockchain.Types.Hash.{Hash}
use goblockchain.Core.Data.{Transaction, Block, Header, Error}
use goblockchain.Core.Platform.{Platform, EcdsaKey, SignsSoundly, EncodesFields}
use goblockchain.Core.Transaction.{calculate_data_hash}
use goblockchain.Core.Block.{
  header_hash, new_block, new_header_from_prev, new_block_from_prev_header, sign_block,
  verify_block, u32_mod,
}
use goblockchain.Core.Block.Signing.{sign_block-Signs, current-verifies, AllVerify, data_hash_cases}

module _ (p : Platform) where
  -- What `NewBlockFromPrevHeader` puts into the block.
  pub record Builds (addr : ℕ) (prev : Header) (txns : List Transaction) (b : Block) : Type 0 where
    pub at_addr : b.header.addr ≡ addr
    pub next_height : b.header.target.height ≡ (prev.height + 1) % u32_mod
    pub names_prev : header_hash p prev ≡ ok b.header.target.previous_block_hash
    pub current : calculate_data_hash p txns ≡ ok b.header.target.data_hash
    pub holds : b.transactions ≡ txns

  pub new_block-Builds :
      (addr now : ℕ) (prev : Header) (txns : List Transaction) (b : Block)
      → new_block_from_prev_header p addr now prev txns ≡ ok b
      → Builds addr prev txns b
  unfolding new_block_from_prev_header new_header_from_prev new_block
  new_block-Builds addr now prev txns b e = by_hash (header_hash p prev) refl
    where
      by_hash : (r : Result Error Hash) → header_hash p prev ≡ r → Builds addr prev txns b
      by_hash (ok x) q = elim (data_hash_cases p txns) [
        | inl (dh, r) ↦ record {
          at_addr = ground arith;
          next_height = ground arith;
          names_prev = ground arith;
          current = ground arith;
          holds = ground arith;
        }
        | inr r ↦ absurd (ground arith)
      ]
      by_hash (err x) q = absurd (ground arith)
      by_hash (panic x) q = absurd (ground arith)
      by_hash stuck q = absurd (ground arith)

  -- The block that `NewBlockFromPrevHeader` builds and `Sign` signs has what `ValidateBlock` looks for
  -- in the block after `prev`: the next height (as a `uint32`), the hash of `prev`, and, given that its
  -- transactions verify, a signature and a data hash that verify. (The key's signatures are sound, and
  -- gob encodes the structs by their exported fields.)
  pub sign_block-new_block_from_prev_header :
      (entropy addr now : ℕ) (key : EcdsaKey) (prev : Header) (txns : List Transaction) (b : Block)
      → SignsSoundly p key
      → EncodesFields p
      → AllVerify p txns
      → new_block_from_prev_header p addr now prev txns ≡ ok b
      → (sign_block p entropy (record { key = some key }) b).0 ≡ ok tt
      → let b' = (sign_block p entropy (record { key = some key }) b).1 in
        (verify_block p b' ≡ ok tt)
        × (b'.header.target.height ≡ (prev.height + 1) % u32_mod)
        × (header_hash p prev ≡ ok b'.header.target.previous_block_hash)
        × (b'.transactions ≡ txns)
  sign_block-new_block_from_prev_header entropy addr now key prev txns b sound enc all made h =
      let m = new_block-Builds addr now prev txns b made in
      let w = sign_block-Signs p entropy key b h in
      (
        current-verifies p entropy key b sound enc (rw m.holds all) h (rw m.holds m.current),
        ap (λ (x : Block). x.header.target.height) w.result ∙ m.next_height,
        m.names_prev ∙ ap (λ (x : Block). ok x.header.target.previous_block_hash) (sym w.result),
        ap (λ (x : Block). x.transactions) w.result ∙ m.holds,
      )
