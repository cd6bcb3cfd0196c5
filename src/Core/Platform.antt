-- ===== src/Core/Platform.antt =====
-- What the program takes from the libraries that it calls: SHA-256, ECDSA over P-256 and the gob
-- encoders. Randomness is an argument of signing.
use goblockchain.Base.{ℕ, ◌≡◌, Bool, true, Option, some, List, take}
use goblockchain.Types.Hash.{Hash}
use goblockchain.Core.Data.{Header, Transaction}

abbrev pub Point : Type 0
Point = ℕ × ℕ

-- What `*ecdsa.PrivateKey` points at.
pub record EcdsaKey : Type 0 where
  pub secret : ℕ
  pub public : Point

pub record Platform : Type 0 where
  pub sha256 : List ℕ → Hash
  pub marshal_compressed : Point → List ℕ
  pub unmarshal_compressed : List ℕ → Option Point
  pub sign_asn1 : ℕ → EcdsaKey → List ℕ → Option (List ℕ)
  -- `none` where it panics, as it may on the coordinates of no point
  pub verify_asn1 : Option Point → List ℕ → List ℕ → Option Bool
  pub encode_header : Header → Option (List ℕ)
  pub encode_tx : Transaction → Option (List ℕ)

-- The signatures of a key verify under it, and its compressed point reads back.
pub record SignsSoundly (p : Platform) (key : EcdsaKey) : Type 0 where
  pub verifies :
      (entropy : ℕ) (message signature : List ℕ)
      → p.sign_asn1 entropy key message ≡ some signature
      → p.verify_asn1 (some key.public) message signature ≡ some true
  pub reads_back : p.unmarshal_compressed (p.marshal_compressed key.public) ≡ some key.public

-- gob writes the exported fields alone, and does not fail on these structs.
pub record EncodesFields (p : Platform) : Type 0 where
  pub headers : (h : Header) → (out : List ℕ) × (p.encode_header h ≡ some out)
  pub txns : (t : Transaction) → (out : List ℕ) × (p.encode_tx t ≡ some out)
  pub exported :
      (s t : Transaction)
      → s.tx_data ≡ t.tx_data
      → s.from ≡ t.from
      → s.signature ≡ t.signature
      → p.encode_tx s ≡ p.encode_tx t

-- ECDSA over P-256 looks at the first 32 bytes of the message, which is meant to be a hash.
pub record SignsPrefix (p : Platform) : Type 0 where
  pub truncates :
      (q : Option Point) (message signature : List ℕ)
      → p.verify_asn1 q message signature ≡ p.verify_asn1 q (take 32 message) signature

-- Signing with a key does not fail: the source of randomness has enough.
pub record SignsAlways (p : Platform) (key : EcdsaKey) : Type 0 where
  pub signature :
      (entropy : ℕ) (message : List ℕ) → (s : List ℕ) × (p.sign_asn1 entropy key message ≡ some s)
