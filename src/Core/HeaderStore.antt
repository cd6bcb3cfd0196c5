-- ===== src/Core/HeaderStore.antt =====
-- `headerStore` of core/blockchain.go: the headers in the order of their blocks, and an index by
-- hash. The locks are left out.
use goblockchain.Base.{
  ℕ, ◌+◌, ◌-◌, ◌%◌, Bool, none, some, List, [], ◌∷◌, ◌++◌, Result, ok, err, panic, Panic, Go,
  if◌then◌else◌, ltb, ◌==◌, length, get_elem?, bytes_eq,
}
use goblockchain.Base.Map.{Map, lookup, insert}
use goblockchain.Types.Hash.{Hash}
use goblockchain.Core.Data.{HeaderPtr, Error, header_exists, height_out_of_range, unknown_hash}
use goblockchain.Core.Block.{u32_mod}

pub record HeaderStore : Type 0 where
  pub headers : List HeaderPtr
  pub idx : Map Hash ℕ

abbrev pub new_header_store : HeaderStore
new_header_store = record { headers = []; idx = [] }

unfoldable pub put : Hash → HeaderPtr → Go Error HeaderStore (Unit {0})
put block_id hdr hs = elim (lookup block_id hs.idx) [
  | some _ ↦ (err header_exists, hs)
  | none ↦
      let headers = hs.headers ++ (hdr ∷ []) in
      (ok tt, record { headers = headers; idx = insert block_id (length headers - 1) hs.idx })
]

unfoldable pub empty : HeaderStore → Bool
empty hs = length hs.headers == 0

-- `uint32(len(hs.data) - 1)`, which wraps around for the empty store.
unfoldable pub height : HeaderStore → ℕ
height hs = (length hs.headers + u32_mod - 1) % u32_mod

-- `hs.data[i]`
abbrev pub header_at : ℕ → HeaderStore → Result Error HeaderPtr
header_at i hs = elim (get_elem? hs.headers i) [
  | none ↦ panic Panic.index_out_of_range
  | some hdr ↦ ok hdr
]

unfoldable pub get_at : ℕ → HeaderStore → Result Error HeaderPtr
get_at h hs = if ltb (height hs) h then err height_out_of_range else header_at h hs

unfoldable pub get_hash : Hash → HeaderStore → Result Error HeaderPtr
get_hash h hs = elim (lookup h hs.idx) [ none ↦ err unknown_hash | some ix ↦ header_at ix hs ]
