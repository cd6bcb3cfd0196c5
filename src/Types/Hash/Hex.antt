-- ===== src/Types/Hash/Hex.antt =====
-- The text of a hash: round trip, and what happens to other texts.
use goblockchain.Base.{
  ℕ, ◌+◌, ◌*◌, ◌/◌, ◌%◌, ◌<◌, ◌≡◌, ◌≢◌, ◌↔◌, refl, true, Option, none, some, List, [], ◌∷◌, Result,
  ok, err, panic, Panic, length, replicate, All, arith, ◌⊎◌, inl, inr, ap, Option-cases,
}
use goblockchain.Types.Hash.{
  HexError, Hash, IsHash, hash_from_bytes, is_zero, to_slice, hex_digit, hex_encode, to_string,
  hex_value, cons_byte, hex_decode, hash_from_hex, zero_hash,
}

hex_value-hex_digit : (n : ℕ) → n < 16 → hex_value (hex_digit n) ≡ some n
unfolding hex_value hex_digit
hex_value-hex_digit n h = ground arith

decode-encode : (bs : List ℕ) → All (λ b. b < 256) bs → hex_decode (hex_encode bs) ≡ ok bs
unfolding hex_decode hex_encode
decode-encode [] h = refl
decode-encode (b ∷ bs) (h, hs) =
    rw
      (
        hex_value-hex_digit (b / 16) (omega arith),
        hex_value-hex_digit (b % 16) (omega arith),
        decode-encode bs hs,
      )
      (ap (λ n. ok (n ∷ bs)) (omega arith))

pub length-hex_encode : (bs : List ℕ) → length (hex_encode bs) ≡ 2 * length bs
unfolding hex_encode
length-hex_encode [] = refl
length-hex_encode (b ∷ bs) = omega (arith, length-hex_encode bs)

-- The text of a hash has 64 characters and reads back as that hash.
pub hash_from_hex-to_string :
    (h : Hash) → IsHash h → (length (to_string h) ≡ 64) × (hash_from_hex (to_string h) ≡ ok h)
unfolding hash_from_hex to_string hash_from_bytes to_slice
hash_from_hex-to_string h (l, b) =
    (omega (arith, length-hex_encode h), rw (decode-encode h b) (ground arith))

-- Decoding returns bytes or an error, and never panics.
hex_decode_cases :
    (text : List ℕ)
    → ((bs : List ℕ) × (hex_decode text ≡ ok bs)) ⊎ ((e : HexError) × (hex_decode text ≡ err e))
unfolding hex_decode
hex_decode_cases [] = inl ([], refl)
hex_decode_cases (p ∷ []) = elim (Option-cases (hex_value p)) [
  | inl e ↦ inr (HexError.invalid_byte p, ground arith)
  | inr (v, e) ↦ inr (HexError.odd_length, ground arith)
]
hex_decode_cases (p ∷ q ∷ text) = pair (hex_value p) (hex_value q) (hex_decode_cases text)
  where
    pair :
        (u v : Option ℕ) {r : Result HexError (List ℕ)}
        → ((bs : List ℕ) × (r ≡ ok bs)) ⊎ ((e : HexError) × (r ≡ err e))
        → ((bs : List ℕ) × (cons_byte p q u v r ≡ ok bs))
          ⊎ ((e : HexError) × (cons_byte p q u v r ≡ err e))
    pair none v c = inr (HexError.invalid_byte p, refl)
    pair (some u) none c = inr (HexError.invalid_byte q, refl)
    pair (some u) (some v) (inl (bs, e)) = inl ((u * 16 + v) ∷ bs, rw (e, cons_byte))
    pair (some u) (some v) (inr (x, e)) = inr (x, rw (e, cons_byte))

-- `HashFromHex` has an error result, yet it panics exactly on the texts that decode to a number of
-- bytes other than 32.
pub hash_from_hex_panics :
    (text : List ℕ)
    → (hash_from_hex text ≡ panic Panic.explicit)
      ↔ ((bs : List ℕ) × (hex_decode text ≡ ok bs) × (length bs ≢ 32))
unfolding hash_from_hex hash_from_bytes
hash_from_hex_panics text = elim (hex_decode_cases text) [
  | inl (bs, e) ↦ (λ h. (bs, e, ground arith), λ (bs', e', n). ground arith)
  | inr (x, e) ↦ (λ h. absurd (ground arith), λ (bs', e', n). absurd (ground arith))
]

zeros : (h : Hash) → (is_zero h ≡ true) ↔ (h ≡ replicate (length h) 0)
unfolding is_zero
zeros [] = (λ _. refl, λ _. refl)
zeros (b ∷ h) = (λ e. ground (arith, (zeros h).0), λ e. ground (arith, (zeros h).1))

-- `IsZero` holds of the zero hash and of no other.
pub is_zero_iff : (h : Hash) → IsHash h → (is_zero h ≡ true) ↔ (h ≡ zero_hash)
is_zero_iff h v = rw v.0 at (zeros h)
