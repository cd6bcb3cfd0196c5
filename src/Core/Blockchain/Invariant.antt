-- ===== src/Core/Blockchain/Invariant.antt =====
-- The invariant of a chain (core/blockchain.go) whose genesis block has height 0.
use goblockchain.Base.{
  ℕ, suc, ◌+◌, ◌≤◌, ◌<◌, ◌≡◌, some, List, ok, err, arith, length, get_elem?, bytes_eq, nat_eq,
  get_elem?-some,
}
use goblockchain.Base.Map.{lookup}
use goblockchain.Types.Hash.{Hash}
use goblockchain.Core.Data.{HeaderPtr, Block, height_out_of_range}
use goblockchain.Core.Platform.{Platform}
use goblockchain.Core.Block.{u32_mod, header_hash}
use goblockchain.Core.HeaderStore
use goblockchain.Core.HeaderStore.{HeaderStore}
use goblockchain.Core.Blockchain.{Blockchain, height, get_header}

-- The headers of a chain in order.
abbrev pub chain_headers : Blockchain → List HeaderPtr
chain_headers bc = bc.headers.headers

-- The headers are numbered from 0 on, each names the hash of the one before, and for each the store
-- has the block that was added with it. There is a genesis block, and the heights fit a `uint32`.
pub record IsValid (p : Platform) (bc : Blockchain) : Type 0 where
  pub nonempty : 0 < length (chain_headers bc)
  pub fits : length (chain_headers bc) ≤ u32_mod
  pub numbered :
      (i : ℕ) (hdr : HeaderPtr) → get_elem? (chain_headers bc) i ≡ some hdr → hdr.target.height ≡ i
  pub linked :
      (i : ℕ) (a b : HeaderPtr)
      → get_elem? (chain_headers bc) i ≡ some a
      → get_elem? (chain_headers bc) (suc i) ≡ some b
      → header_hash p a.target ≡ ok b.target.previous_block_hash
  pub stored :
      (i : ℕ) (hdr : HeaderPtr)
      → get_elem? (chain_headers bc) i ≡ some hdr
      → (b : Block) × (lookup hdr.addr bc.store ≡ some b) × (b.header ≡ hdr)
  pub indexed :
      (h : Hash) (ix : ℕ) → lookup h bc.headers.idx ≡ some ix → ix < length (chain_headers bc)

module _ (p : Platform) (bc : Blockchain) (v : IsValid p bc) where
  -- The height is that of the last block.
  pub height_lem : height bc + 1 ≡ length (chain_headers bc)
  unfolding height HeaderStore.height
  height_lem = omega (arith, v.nonempty, v.fits)

  pub get_header_within :
      (h : ℕ)
      → h ≤ height bc
      → (hdr : HeaderPtr) × (get_elem? (chain_headers bc) h ≡ some hdr) × (get_header h bc ≡ ok hdr)
  unfolding get_header HeaderStore.get_at height
  get_header_within h q =
      let (hdr, e) = get_elem?-some (chain_headers bc) h (omega (arith, height_lem)) in
      (hdr, e, ground arith)

  pub get_header_above : (h : ℕ) → height bc < h → get_header h bc ≡ err height_out_of_range
  unfolding get_header HeaderStore.get_at height
  get_header_above h q = ground arith
