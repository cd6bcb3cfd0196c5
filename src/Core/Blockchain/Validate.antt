-- ===== src/Core/Blockchain/Validate.antt =====
-- `ValidateBlock` of core/validator.go on a valid chain.
use goblockchain.Base.{
  ℕ, ◌+◌, ◌-◌, ◌%◌, ◌≤◌, ◌<◌, ◌≡◌, ◌≢◌, ◌↔◌, refl, true, some, Result, ok, err, panic, stuck, arith,
  length, get_elem?, bytes_beq_iff, Bool-cases, inl, inr, leb, ◌==◌, bind_at, throw_if, pos, sub_ℕ,
  ◌∙◌, ap,
}
use goblockchain.Types.Hash.{Hash}
use goblockchain.Core.Data.{HeaderPtr, Block, Error, out_of_sync, block_at_height_exists}
use goblockchain.Core.Platform.{Platform}
use goblockchain.Core.Block.{u32_mod, header_hash, verify_block}
use goblockchain.Core.Blockchain.{
  Blockchain, Session, height, has_block_at_height, get_header, check_previous, check_header,
  validate_block, hash_block,
}
use goblockchain.Core.Blockchain.Invariant.{IsValid, chain_headers, height_lem, get_header_within}

-- The block is the next one of the chain: it has the next height, names the hash of the last header,
-- and is itself verified.
pub record Extends (p : Platform) (bc : Blockchain) (b : Block) : Type 0 where
  pub next_height : b.header.target.height ≡ length (chain_headers bc)
  pub in_range : b.header.target.height < u32_mod
  pub last : HeaderPtr
  pub is_last : get_elem? (chain_headers bc) (height bc) ≡ some last
  pub names_last : header_hash p last.target ≡ ok b.header.target.previous_block_hash
  pub verified : verify_block p b ≡ ok tt

module _ (p : Platform) where
  throws :
      {A : Type 0} (r : Result Error A) (s : Session) (e : Error)
      → (bind_at r s (λ _. throw_if true e)).0 ≢ ok tt
  throws (ok a) s e h = cc
  throws (err x) s e h = cc
  throws (panic q) s e h = cc
  throws stuck s e h = cc

  throws_keeps :
      {A : Type 0} (r : Result Error A) (s : Session) (e : Error)
      → (bind_at r s (λ _. throw_if true e)).1 ≡ s
  throws_keeps (ok a) s e = refl
  throws_keeps (err x) s e = refl
  throws_keeps (panic q) s e = refl
  throws_keeps stuck s e = refl

  -- Validation leaves the chain alone.
  pub validate_keeps : (s : Session) → (validate_block p s).1.chain ≡ s.chain
  unfolding validate_block
  validate_keeps s = elim (Bool-cases (has_block_at_height s.block.header.target.height s.chain)) [
    | inl known ↦ rw known (
        ap (λ (x : Session). x.chain)
          (throws_keeps (hash_block p s).0 (hash_block p s).1 block_at_height_exists))
    | inr above ↦ rw above (ground arith)
  ]

  check_previous_ok :
      (b : Block) (r : Result Error Hash)
      → check_previous p b r ≡ ok tt
      → (r ≡ ok b.header.target.previous_block_hash) × (verify_block p b ≡ ok tt)
  check_previous_ok b (ok h) e = ground (arith, bytes_beq_iff h b.header.target.previous_block_hash)
  check_previous_ok b (err x) e = cc
  check_previous_ok b (panic q) e = cc
  check_previous_ok b stuck e = cc

  check_previous_of :
      (b : Block) (r : Result Error Hash)
      → r ≡ ok b.header.target.previous_block_hash
      → verify_block p b ≡ ok tt
      → check_previous p b r ≡ ok tt
  check_previous_of b r e v =
      let same = b.header.target.previous_block_hash in
      rw (e, (bytes_beq_iff same same).1 refl, check_previous) v

  -- Which of its three ways `ValidateBlock` takes depends on the height alone.
  pub validate_known :
      (s : Session) → s.block.header.target.height ≤ height s.chain → (validate_block p s).0 ≢ ok tt
  unfolding validate_block has_block_at_height
  validate_known s q h =
      throws (hash_block p s).0 (hash_block p s).1 block_at_height_exists (ground arith)

  pub validate_ahead :
      (s : Session)
      → height s.chain < s.block.header.target.height
      → s.block.header.target.height ≢ (height s.chain + 1) % u32_mod
      → validate_block p s
        ≡ (err (out_of_sync (sub_ℕ s.block.header.target.height (height s.chain))), s)
  unfolding validate_block has_block_at_height
  validate_ahead s q n = ground arith

  pub validate_next :
      (s : Session)
      → height s.chain < s.block.header.target.height
      → s.block.header.target.height ≡ (height s.chain + 1) % u32_mod
      → validate_block p s ≡ (
        check_header p s.block
            (get_header ((s.block.header.target.height + u32_mod - 1) % u32_mod) s.chain),
        s,
      )
  unfolding validate_block has_block_at_height
  validate_next s q n = ground arith

  module _ (s : Session) (v : IsValid p s.chain) where
    -- The header before a block of the next height is the last one.
    checked :
        (last : HeaderPtr)
        → get_elem? (chain_headers s.chain) (height s.chain) ≡ some last
        → s.block.header.target.height ≡ height s.chain + 1
        → height s.chain + 1 < u32_mod
        → validate_block p s ≡ (check_previous p s.block (header_hash p last.target), s)
    checked last e n q =
        let back : (s.block.header.target.height + u32_mod - 1) % u32_mod ≡ height s.chain =
          omega arith in
        let (hdr, at_hdr, got) = get_header_within p s.chain v (height s.chain) (omega arith) in
        let same : hdr ≡ last = ground (arith, e, at_hdr) in
        validate_next s (omega arith) (omega arith) ∙ rw (back, got, same, check_header)

    follows :
        height s.chain < s.block.header.target.height
        → s.block.header.target.height ≡ (height s.chain + 1) % u32_mod
        → (s.block.header.target.height ≡ height s.chain + 1) × (height s.chain + 1 < u32_mod)
    follows q n = omega (arith, height_lem p s.chain v, v.fits)

    extends :
        (validate_block p s).0 ≡ ok tt
        → height s.chain < s.block.header.target.height
        → s.block.header.target.height ≡ (height s.chain + 1) % u32_mod
        → Extends p s.chain s.block
    extends h q n =
        let (next, r) = follows q n in
        let (hdr, at_hdr, _) = get_header_within p s.chain v (height s.chain) (omega arith) in
        let answer : check_previous p s.block (header_hash p hdr.target) ≡ ok tt =
          ground (arith, h, checked hdr at_hdr next r) in
        let (names, good) = check_previous_ok s.block (header_hash p hdr.target) answer in
        record {
          next_height = omega (arith, height_lem p s.chain v);
          in_range = omega arith;
          last = hdr;
          is_last = at_hdr;
          names_last = names;
          verified = good;
        }

    to_Extends : (validate_block p s).0 ≡ ok tt → Extends p s.chain s.block
    to_Extends h = elim (Bool-cases (leb s.block.header.target.height (height s.chain))) [
      | inl known ↦ absurd (validate_known s (ground arith) h)
      | inr above ↦
          elim (Bool-cases (s.block.header.target.height == (height s.chain + 1) % u32_mod)) [
            | inl next ↦ extends h (ground arith) (ground arith)
            | inr ahead ↦ absurd (ground (arith, h, validate_ahead s (ground arith) (ground arith)))
          ]
    ]

    pub validate_Extends : Extends p s.chain s.block → validate_block p s ≡ (ok tt, s)
    validate_Extends x = ground (
      arith,
      checked x.last x.is_last (omega (arith, height_lem p s.chain v))
          (omega (arith, height_lem p s.chain v)),
      check_previous_of s.block (header_hash p x.last.target) x.names_last x.verified,
    )

    -- On a valid chain `ValidateBlock` accepts exactly the verified blocks that extend it: the next
    -- height, which still fits a `uint32`, and the hash of the last header.
    pub validate_iff : ((validate_block p s).0 ≡ ok tt) ↔ Extends p s.chain s.block
    validate_iff = (to_Extends, λ x. ap (λ r. r.0) (validate_Extends x))

    -- On a valid chain a block from further ahead than the next, whose height fits a `uint32`, is not
    -- called invalid: the error says how far it is, which is 2 at least, and nothing changes.
    pub validate_out_of_sync :
        height s.chain + 1 < s.block.header.target.height
        → s.block.header.target.height < u32_mod
        → (lag : ℕ) × (validate_block p s ≡ (err (out_of_sync (pos lag)), s))
          × (height s.chain + lag ≡ s.block.header.target.height)
          × (2 ≤ lag)
    validate_out_of_sync q r = (
      s.block.header.target.height - height s.chain,
      ground (arith, validate_ahead s (omega arith) (omega arith)),
      omega arith,
      omega arith,
    )
