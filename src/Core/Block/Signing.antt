-- ===== src/Core/Block/Signing.antt =====
-- `Sign` and `Verify` of core/block.go, and the block that a validator builds.
use goblockchain.Base.{
  take, ℕ, suc, ◌≡◌, refl, sym, true, some, [], ◌∷◌, List, Result, ok, err, arith, ap, ◌∙◌, All,
  bytes_beq_iff, Option-cases, ◌⊎◌, inl, inr,
}
use goblockchain.Types.Hash.{Hash}
use goblockchain.Core.Data.{HeaderPtr, Transaction, Block, Error, encoding_failed}
use goblockchain.Core.Platform.{Platform, Point, EcdsaKey, SignsSoundly, SignsPrefix, EncodesFields}
use goblockchain.Core.Transaction.{verify_tx, calculate_data_hash, encode_loop}
use goblockchain.Core.Block.{
  must_to_bytes, sign_block, verify_block, verify_txns, verify_data_hash, set_data_hash,
}
use goblockchain.Crypto
use goblockchain.Crypto.{PrivateKey}

module _ (p : Platform) where
  -- What a successful `Sign` has done: it signed the header as it was, then wrote the hash of the
  -- transactions into it.
  pub record Signs (entropy : ℕ) (key : EcdsaKey) (b b' : Block) : Type 0 where
    pub message : List ℕ
    pub signed_bytes : p.encode_header b.header.target ≡ some message
    pub signature : List ℕ
    pub signed : p.sign_asn1 entropy key message ≡ some signature
    pub data_hash : Hash
    pub hashed : calculate_data_hash p b.transactions ≡ ok data_hash
    pub result :
        b'
        ≡ set_data_hash p data_hash
            (record b { signature = some signature; validator = p.marshal_compressed key.public })

  pub data_hash_cases :
      (txns : List Transaction)
      → ((dh : Hash) × (calculate_data_hash p txns ≡ ok dh))
        ⊎ (calculate_data_hash p txns ≡ err encoding_failed)
  unfolding calculate_data_hash
  data_hash_cases txns = elim (Option-cases (encode_loop p txns [])) [
    | inl e ↦ inr (ground arith)
    | inr (buf, e) ↦ inl (p.sha256 buf, ground arith)
  ]

  pub sign_block-Signs :
      (entropy : ℕ) (key : EcdsaKey) (b : Block)
      → (sign_block p entropy (record { key = some key }) b).0 ≡ ok tt
      → Signs entropy key b (sign_block p entropy (record { key = some key }) b).1
  unfolding sign_block must_to_bytes Crypto.sign Crypto.public_key
  sign_block-Signs entropy key b h = elim (Option-cases (p.encode_header b.header.target)) [
    | inl e ↦ absurd (ground arith)
    | inr (message, e) ↦ elim (Option-cases (p.sign_asn1 entropy key message)) [
      | inl q ↦ absurd (ground arith)
      | inr (signature, q) ↦ elim (data_hash_cases b.transactions) [
        | inl (dh, r) ↦ record {
          message = message;
          signed_bytes = e;
          signature = signature;
          signed = q;
          data_hash = dh;
          hashed = r;
          result = ground arith;
        }
        | inr r ↦ absurd (ground arith)
      ]
    ]
  ]

  -- Every transaction of the list verifies.
  abbrev pub AllVerify : List Transaction → Type 0
  AllVerify = All (λ t. verify_tx p t ≡ ok tt)

  verify_txns-AllVerify :
      (i : ℕ) (txns : List Transaction) → AllVerify txns → verify_txns p i txns ≡ ok tt
  unfolding verify_txns
  verify_txns-AllVerify i [] h = refl
  verify_txns-AllVerify i (t ∷ txns) (h, hs) =
      rw (h, verify_txns) (verify_txns-AllVerify (suc i) txns hs)

  -- The tests of `Verify` on a block whose parts are known.
  verify_block_parts :
      (b : Block) (signature out : List ℕ) (dh : Hash) (q : Point)
      → b.signature ≡ some signature
      → p.encode_header b.header.target ≡ some out
      → p.unmarshal_compressed b.validator ≡ some q
      → calculate_data_hash p b.transactions ≡ ok dh
      → b.header.target.data_hash ≡ dh
      → AllVerify b.transactions
      → p.verify_asn1 (some q) out signature ≡ some true
      → verify_block p b ≡ ok tt
  unfolding verify_block must_to_bytes Crypto.verify verify_data_hash
  verify_block_parts b signature out dh q has enc key calc same all good = ground (
    arith,
    verify_txns-AllVerify 0 b.transactions all,
    bytes_beq_iff dh b.header.target.data_hash,
  )

  ok-injective : {A : Type 0} {a b : A} → ◌≡◌ {A = Result Error A} (ok a) (ok b) → a ≡ b
  ok-injective e = cc

  some-eq : {A : Type 0} {a b : A} → some a ≡ some b → a ≡ b
  some-eq e = cc

  module _ (entropy : ℕ) (key : EcdsaKey) (b : Block) (sound : SignsSoundly p key)
      (enc : EncodesFields p) (all : AllVerify b.transactions)
      (h : (sign_block p entropy (record { key = some key }) b).0 ≡ ok tt) where
    abbrev pub after : Block
    after = (sign_block p entropy (record { key = some key }) b).1

    w : Signs entropy key b after
    w = sign_block-Signs entropy key b h

    abbrev signed_block : Block
    signed_block =
        set_data_hash p w.data_hash
          (record b { signature = some w.signature; validator = p.marshal_compressed key.public })

    out : (o : List ℕ) × (p.encode_header signed_block.header.target ≡ some o)
    out = enc.headers signed_block.header.target

    answer :
        p.verify_asn1 (some key.public) out.0 w.signature ≡ some true → verify_block p after ≡ ok tt
    answer good =
        ap (verify_block p) w.result
        ∙ verify_block_parts signed_block w.signature out.0 w.data_hash key.public refl out.1
            sound.reads_back w.hashed refl all good

    pub current-verifies :
        calculate_data_hash p b.transactions ≡ ok b.header.target.data_hash
        → verify_block p after ≡ ok tt
    current-verifies e =
        let same : w.data_hash ≡ b.header.target.data_hash = ok-injective (sym w.hashed ∙ e) in
        let same_bytes : out.0 ≡ w.message = some-eq (
          sym out.1
          ∙ ap (λ d. p.encode_header (record b.header.target { data_hash = d })) same
          ∙ w.signed_bytes) in
        answer (
          ap (λ o. p.verify_asn1 (some key.public) o w.signature) same_bytes
          ∙ sound.verifies entropy w.message w.signature w.signed)

  -- Take a block that `Sign` has signed, whose transactions verify, and any header with the hash of
  -- these transactions whose gob bytes begin with the same 32 bytes as those of the header that was
  -- signed. With this header in place of its own the block still verifies: `Sign` hands the bytes to
  -- ECDSA without hashing them, and ECDSA looks at the first 32. One such header is that of the signed
  -- block, into which `Sign` writes `DataHash` after it has signed. (The key's signatures are sound.)
  pub verify_block-sign_block :
      (entropy : ℕ) (key : EcdsaKey) (b : Block) (hdr : HeaderPtr) (message out : List ℕ)
      → SignsSoundly p key
      → SignsPrefix p
      → AllVerify b.transactions
      → (sign_block p entropy (record { key = some key }) b).0 ≡ ok tt
      → calculate_data_hash p b.transactions ≡ ok hdr.target.data_hash
      → p.encode_header b.header.target ≡ some message
      → p.encode_header hdr.target ≡ some out
      → take 32 out ≡ take 32 message
      → verify_block p
          (record (sign_block p entropy (record { key = some key }) b).1 { header = hdr })
        ≡ ok tt
  verify_block-sign_block entropy key b hdr message out sound short all done hashed signed encoded
        same =
      let w = sign_block-Signs entropy key b done in
      let original : w.message ≡ message = some-eq (sym w.signed_bytes ∙ signed) in
      let good : p.verify_asn1 (some key.public) w.message w.signature ≡ some true =
        sound.verifies entropy w.message w.signature w.signed in
      let passes : p.verify_asn1 (some key.public) out w.signature ≡ some true =
        short.truncates (some key.public) out w.signature
        ∙ ap (λ m. p.verify_asn1 (some key.public) m w.signature)
            (same ∙ ap (λ m. take 32 m) (sym original))
        ∙ sym (short.truncates (some key.public) w.message w.signature)
        ∙ good in
      let changed : Block = record b {
        header = hdr;
        signature = some w.signature;
        validator = p.marshal_compressed key.public;
      } in
      ap (λ (x : Block). verify_block p (record x { header = hdr })) w.result
      ∙ verify_block_parts changed w.signature out hdr.target.data_hash key.public refl encoded
          sound.reads_back hashed refl all passes
