-- ===== src/Core/Blockchain/Lookup.antt =====
-- The queries of a valid chain: `GetBlockAt`, `GetHeader` and `GetTransaction` of core/blockchain.go.
use goblockchain.Base.{
  ℕ, ◌≡◌, some, ok, err, arith, bytes_eq, nat_eq, inl, inr, ◌⊎◌, leb, Bool-cases, true, false,
}
use goblockchain.Base.Map.{lookup}
use goblockchain.Core.Data.{HeaderPtr, Block, height_out_of_range}
use goblockchain.Core.Platform.{Platform}
use goblockchain.Core.Store.{store_get}
use goblockchain.Core.Blockchain.{
  Blockchain, height, get_header, block_of, get_block_at, has_block_at_height,
}
use goblockchain.Core.Blockchain.Invariant.{IsValid, get_header_within, get_header_above}

pub found :
    (bc : Blockchain) (h : ℕ) (hdr : HeaderPtr) (b : Block)
    → get_header h bc ≡ ok hdr
    → lookup hdr.addr bc.store ≡ some b
    → get_block_at h bc ≡ ok b
unfolding get_block_at store_get
found bc h hdr b e q = ground arith

module _ (p : Platform) (bc : Blockchain) (v : IsValid p bc) where
  -- On a valid chain `GetBlockAt` finds a block for every height up to that of the chain, and the
  -- block has this height and the chain's header; above it returns an error, and never panics.
  pub get_block_at_lem :
      (h : ℕ)
      → ((has_block_at_height h bc ≡ true)
          × ((b : Block) × (get_block_at h bc ≡ ok b)
              × (b.header.target.height ≡ h)
              × (get_header h bc ≡ ok b.header)))
        ⊎ ((has_block_at_height h bc ≡ false) × (get_block_at h bc ≡ err height_out_of_range))
  unfolding get_block_at has_block_at_height
  get_block_at_lem h = elim (Bool-cases (leb h (height bc))) [
    | inl within ↦
        let (hdr, at_h, got) = get_header_within p bc v h (ground arith) in
        let (b, in_store, of_hdr) = v.stored h hdr at_h in
        inl (
          within,
          (b, found bc h hdr b got in_store, rw of_hdr (v.numbered h hdr at_h), rw of_hdr got),
        )
    | inr above ↦ inr (above, rw (get_header_above p bc v h (ground arith), block_of))
  ]
