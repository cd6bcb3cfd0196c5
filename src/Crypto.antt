-- ===== src/Crypto.antt =====
-- crypto/keypair.go: the keys and signatures of the program over the ECDSA of the platform.
use goblockchain.Base.{
  ℕ, ◌-◌, Bool, true, false, Option, none, some, List, Result, ok, err, panic, Panic, drop, length,
  stuck, if◌then◌else◌,
}
use goblockchain.Core.Platform.{Platform, EcdsaKey}
use goblockchain.Types.Address.{Address, must_address_from_bytes}

-- The struct `PrivateKey` with its pointer `key`.
pub record PrivateKey : Type 0 where
  pub key : Option EcdsaKey

pub data Error : Type 0 where
  signing_failed : Error

-- `MustGeneratePrivateKey`, where `ecdsa.GenerateKey` has returned `generated`.
unfoldable pub must_generate_private_key : Option EcdsaKey → Result Error PrivateKey
must_generate_private_key generated = elim generated [
  | none ↦ panic Panic.explicit
  | some key ↦ ok (record { key = some key })
]

unfoldable pub is_zero : PrivateKey → Bool
is_zero k = elim k.key [ none ↦ true | some _ ↦ false ]

-- `if !ok { return e }` after a call of `Verify`.
abbrev pub accepts : {E : Type 0} → E → Result ⊥ Bool → Result E (Unit {0})
accepts e (ok valid) = if valid then ok tt else err e
accepts e (err never) = absurd never
accepts e (panic q) = panic q
accepts e stuck = stuck

module _ (p : Platform) where
  unfoldable pub public_key : PrivateKey → Result Error (List ℕ)
  public_key k = elim k.key [
    | none ↦ panic Panic.nil_dereference
    | some key ↦ ok (p.marshal_compressed key.public)
  ]

  unfoldable pub sign : ℕ → PrivateKey → List ℕ → Result Error (List ℕ)
  sign entropy k message = elim k.key [
    | none ↦ panic Panic.nil_dereference
    | some key ↦ elim (p.sign_asn1 entropy key message) [
      | none ↦ err signing_failed
      | some s ↦ ok s
    ]
  ]

  -- `Signature.Verify`: what is no point of the curve has nil coordinates, and goes to ECDSA as such.
  unfoldable pub verify : List ℕ → List ℕ → List ℕ → Result ⊥ Bool
  verify signature pub_key message =
      elim (p.verify_asn1 (p.unmarshal_compressed pub_key) message signature) [
        | none ↦ panic Panic.nil_dereference
        | some valid ↦ ok valid
      ]

  -- `h[len(h)-20:]`
  unfoldable pub address : List ℕ → Result ⊥ Address
  address k = let h = p.sha256 k in must_address_from_bytes (drop (length h - 20) h)
