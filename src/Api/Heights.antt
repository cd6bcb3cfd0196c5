-- ===== src/Api/Heights.antt =====
-- What api/server.go answers to a request for the block at a height.
use goblockchain.Base.{ℕ, ◌≡◌, Bool, true, false, List, ok, ◌⊎◌, ℤ}
use goblockchain.Core.Data
use goblockchain.Core.Data.{Block, height_out_of_range}
use goblockchain.Core.Platform.{Platform}
use goblockchain.Core.Blockchain.{Blockchain, has_block_at_height, get_header}
use goblockchain.Api.{
  Response, block_by_height, chain_error, status_ok, status_not_found, handle_get_block_by_height,
  json, json_or_panic,
}
use goblockchain.Api.Number.{u32_of}

-- The answer to a number.
abbrev pub NumberAnswer : (Response → Bool) → Blockchain → List ℕ → ℤ → Type 0
NumberAnswer writes bc val n =
    ((has_block_at_height (u32_of n) bc ≡ true)
      × ((b : Block) × (handle_get_block_by_height writes val bc
            ≡ json_or_panic writes status_ok (block_by_height n b))
          × (b.header.target.height ≡ u32_of n)
          × (get_header (u32_of n) bc ≡ ok b.header)))
    ⊎ ((has_block_at_height (u32_of n) bc ≡ false)
        × (handle_get_block_by_height writes val bc
            ≡ json writes status_not_found (chain_error height_out_of_range)))
