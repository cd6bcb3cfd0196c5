-- ===== src/Core/Blockchain/Append.antt =====
-- A chain with one more header and its block is valid again.
use goblockchain.Base.{
  ℕ, suc, ◌+◌, ◌-◌, ◌<◌, ◌≡◌, true, false, some, [], ◌∷◌, ◌++◌, ok, arith, length, get_elem?,
  bytes_eq, nat_eq, Bool-cases, inl, inr, ◌==◌, ◌∙◌, sym, ap, get_elem?-append_cases, length-append,
  ◌⊎◌,
}
use goblockchain.Base.Map.{lookup, insert}
use goblockchain.Base.MapLaws.{lookup-insert}
use goblockchain.Types.Hash.{Hash}
use goblockchain.Core.Data.{HeaderPtr, Block}
use goblockchain.Core.Platform.{Platform}
use goblockchain.Core.Block.{u32_mod, header_hash}
use goblockchain.Core.Blockchain.{Blockchain}
use goblockchain.Core.Blockchain.Invariant.{IsValid, chain_headers}

-- Pointers agree: a header of the chain at the block's address is the block's header.
abbrev pub Coherent : Blockchain → HeaderPtr → Type 0
Coherent bc hdr =
    (i : ℕ) (a : HeaderPtr) → get_elem? (chain_headers bc) i ≡ some a → a.addr ≡ hdr.addr → a ≡ hdr

-- How the parts of the chain that the invariant looks at change.
pub record Grows (p : Platform) (bc bc' : Blockchain) (hdr : HeaderPtr) : Type 0 where
  pub next_height : hdr.target.height ≡ length (chain_headers bc)
  pub in_range : hdr.target.height < u32_mod
  pub names_last :
      (i : ℕ) (a : HeaderPtr)
      → suc i ≡ length (chain_headers bc)
      → get_elem? (chain_headers bc) i ≡ some a
      → header_hash p a.target ≡ ok hdr.target.previous_block_hash
  pub grown : chain_headers bc' ≡ chain_headers bc ++ (hdr ∷ [])
  pub block : Block
  pub of_header : block.header ≡ hdr
  pub stored : bc'.store ≡ insert hdr.addr block bc.store
  pub hash : Hash
  pub indexed :
      bc'.headers.idx ≡ insert hash (length (chain_headers bc ++ (hdr ∷ [])) - 1) bc.headers.idx

module _ (p : Platform) (bc bc' : Blockchain) (hdr : HeaderPtr) (g : Grows p bc bc' hdr) where
  length-grown : length (chain_headers bc') ≡ length (chain_headers bc) + 1
  length-grown = rw g.grown (length-append (chain_headers bc) (hdr ∷ []))

  at_grown :
      (i : ℕ) (a : HeaderPtr)
      → get_elem? (chain_headers bc') i ≡ some a
      → ((i < length (chain_headers bc)) × (get_elem? (chain_headers bc) i ≡ some a))
        ⊎ ((i ≡ length (chain_headers bc)) × (a ≡ hdr))
  at_grown i a e = get_elem?-append_cases (chain_headers bc) hdr i (rw g.grown at e)

  module _ (v : IsValid p bc) (c : Coherent bc hdr) where
    numbered' :
        (i : ℕ) (a : HeaderPtr) → get_elem? (chain_headers bc') i ≡ some a → a.target.height ≡ i
    numbered' i a e = elim (at_grown i a e) [
      | inl (h, old) ↦ v.numbered i a old
      | inr (h, same) ↦ rw (same, h) g.next_height
    ]

    linked' :
        (i : ℕ) (a b : HeaderPtr)
        → get_elem? (chain_headers bc') i ≡ some a
        → get_elem? (chain_headers bc') (suc i) ≡ some b
        → header_hash p a.target ≡ ok b.target.previous_block_hash
    linked' i a b ea eb = elim (at_grown (suc i) b eb) [
      | inl (h, old) ↦ elim (at_grown i a ea) [
        | inl (k, old_a) ↦ v.linked i a b old_a old
        | inr (k, _) ↦ absurd (omega arith)
      ]
      | inr (h, same) ↦ elim (at_grown i a ea) [
        | inl (k, old_a) ↦ rw same (g.names_last i a h old_a)
        | inr (k, _) ↦ absurd (omega arith)
      ]
    ]

    stored' :
        (i : ℕ) (a : HeaderPtr)
        → get_elem? (chain_headers bc') i ≡ some a
        → (b : Block) × (lookup a.addr bc'.store ≡ some b) × (b.header ≡ a)
    stored' i a e = elim (Bool-cases (hdr.addr == a.addr)) [
      | inl same_addr ↦ (g.block, in_store same_addr, g.of_header ∙ sym (at_addr i a e same_addr))
      | inr other_addr ↦ elim (at_grown i a e) [
        | inl (h, old) ↦ let (b, at_b, of_a) = v.stored i a old in (b, kept other_addr at_b, of_a)
        | inr (h, same) ↦ absurd (ground (arith, other_addr, ap (λ (q : HeaderPtr). q.addr) same))
      ]
    ]
      where
        at_addr :
            (i : ℕ) (a : HeaderPtr)
            → get_elem? (chain_headers bc') i ≡ some a
            → (hdr.addr == a.addr) ≡ true
            → a ≡ hdr
        at_addr i a e q = elim (at_grown i a e) [
          | inl (h, old) ↦ c i a old (ground arith)
          | inr (h, same) ↦ same
        ]

        in_store : (hdr.addr == a.addr) ≡ true → lookup a.addr bc'.store ≡ some g.block
        in_store q = ground (arith, g.stored, lookup-insert hdr.addr a.addr g.block bc.store)

        kept :
            {b : Block}
            → (hdr.addr == a.addr) ≡ false
            → lookup a.addr bc.store ≡ some b
            → lookup a.addr bc'.store ≡ some b
        kept q o = ground (arith, g.stored, lookup-insert hdr.addr a.addr g.block bc.store)

    indexed' :
        (h : Hash) (ix : ℕ) → lookup h bc'.headers.idx ≡ some ix → ix < length (chain_headers bc')
    indexed' h ix e = ground (
      arith,
      g.indexed,
      length-grown,
      length-append (chain_headers bc) (hdr ∷ []),
      lookup-insert g.hash h (length (chain_headers bc ++ (hdr ∷ [])) - 1) bc.headers.idx,
      v.indexed h ix,
    )

    -- The invariant holds of the chain with the new header.
    pub Grows-IsValid : IsValid p bc'
    Grows-IsValid = record {
      nonempty = omega (arith, length-grown);
      fits = omega (arith, length-grown, g.next_height, g.in_range);
      numbered = numbered';
      linked = linked';
      stored = stored';
      indexed = indexed';
    }
