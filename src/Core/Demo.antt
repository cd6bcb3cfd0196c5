-- ===== src/Core/Demo.antt =====
-- Concrete libraries for the tests: a hash that marks its input, signatures that show their message,
-- and an encoder that writes the exported fields one after the other.
use goblockchain.Base.{
  ℕ, ◌≡◌, refl, sym, ap, ◌∙◌, Bool, Option, none, some, List, [], ◌∷◌, ◌++◌, length, take, drop,
  take-append, drop-append, arith, bytes_beq, bytes_beq_iff,
}
use goblockchain.Core.Data.{Header, Transaction}
use goblockchain.Core.Platform.{Platform, Point, EcdsaKey, SignsSoundly, SignsAlways, EncodesFields}

abbrev pub read_point : List ℕ → Option Point
read_point (x ∷ y ∷ []) = some (x, y)
read_point _ = none

abbrev pub check_signature : Option Point → List ℕ → List ℕ → Option Bool
check_signature none message sig = none
check_signature (some q) message sig = some (bytes_beq sig (q.0 ∷ message))

abbrev pub header_bytes : Header → List ℕ
header_bytes h =
    h.version ∷ h.timestamp ∷ h.height ∷ length h.data_hash ∷ (h.data_hash ++ h.previous_block_hash)

abbrev pub tx_bytes : Transaction → List ℕ
tx_bytes t = length t.tx_data ∷ (t.tx_data ++ t.from)

abbrev pub demo : Platform
demo = record {
  sha256 = λ message. 7 ∷ message;
  marshal_compressed = λ q. q.0 ∷ q.1 ∷ [];
  unmarshal_compressed = read_point;
  sign_asn1 = λ entropy key message. some (key.public.0 ∷ message);
  verify_asn1 = check_signature;
  encode_header = λ h. some (header_bytes h);
  encode_tx = λ t. some (tx_bytes t);
}

abbrev pub demo_key : EcdsaKey
demo_key = record { secret = 5; public = (3, 4) }

pub demo-SignsSoundly : SignsSoundly demo demo_key
demo-SignsSoundly = record {
  verifies = λ entropy message signature e.
      ground (arith, bytes_beq_iff signature (demo_key.public.0 ∷ message));
  reads_back = refl;
}

pub demo-SignsAlways : SignsAlways demo demo_key
demo-SignsAlways = record { signature = λ entropy message. (demo_key.public.0 ∷ message, refl) }

pub demo-EncodesFields : EncodesFields demo
demo-EncodesFields = record {
  headers = λ h. (header_bytes h, refl);
  txns = λ t. (tx_bytes t, refl);
  exported = λ s t d f g. rw (d, f) refl;
}

split_eq : (a b c d : List ℕ) → length a ≡ length c → a ++ b ≡ c ++ d → (a ≡ c) × (b ≡ d)
split_eq a b c d e q = (
  sym (take-append a b)
      ∙ ap (λ l. take (length a) l) q
      ∙ ap (λ n. take n (c ++ d)) e
      ∙ take-append c d,
  sym (drop-append a b)
      ∙ ap (λ l. drop (length a) l) q
      ∙ ap (λ n. drop n (c ++ d)) e
      ∙ drop-append c d,
)

pub header_bytes-injective : (h k : Header) → header_bytes h ≡ header_bytes k → h ≡ k
header_bytes-injective h k e =
    let tail : h.data_hash ++ h.previous_block_hash ≡ k.data_hash ++ k.previous_block_hash =
      ap (λ l. drop 4 l) e in
    let same_length : length h.data_hash ≡ length k.data_hash = ground (arith, e) in
    let (d, q) =
      split_eq h.data_hash h.previous_block_hash k.data_hash k.previous_block_hash same_length
        tail in
    ground (arith, e, d, q)
