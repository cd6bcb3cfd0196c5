-- ===== src/Types/Hash.antt =====
-- types/hash.go: the 32 bytes of a hash and their hexadecimal text. A Go string is the list of its
-- bytes.
pub mod Hex
use goblockchain.Base.{
  ℕ, zero, suc, ◌+◌, ◌-◌, ◌*◌, ◌/◌, ◌%◌, ◌<◌, ◌≡◌, Bool, true, false, ◌&&◌, Option, none, some,
  List, [], ◌∷◌, ◌++◌, Result, ok, err, panic, Panic, if◌then◌else◌, ltb, leb, ◌==◌, length,
  replicate, take, All,
}

pub data HexError : Type 0 where
  invalid_byte : ℕ → HexError
  odd_length : HexError

abbrev pub Hash : Type 0
Hash = List ℕ

abbrev pub hash_byte_len : ℕ
hash_byte_len = 32

-- The values of the Go type `[32]uint8`.
abbrev pub IsHash : Hash → Type 0
IsHash h = (length h ≡ hash_byte_len) × All (λ b. b < 256) h

abbrev pub zero_hash : Hash
zero_hash = replicate 32 0

unfoldable pub hash_from_bytes : List ℕ → Result HexError Hash
hash_from_bytes b = if length b == hash_byte_len then ok b else panic Panic.explicit

-- `RandomBytes`: a slice of zeros in which `rand.Read` has written what it read; its error is dropped.
unfoldable pub random_bytes : ℕ → List ℕ → List ℕ
random_bytes size read = take size read ++ replicate (size - length read) 0

unfoldable pub random_hash : List ℕ → Result HexError Hash
unfolding random_bytes
random_hash read = hash_from_bytes (random_bytes hash_byte_len read)

unfoldable pub is_zero : Hash → Bool
is_zero [] = true
is_zero (b ∷ h) = (b == 0) && is_zero h

unfoldable pub to_slice : Hash → List ℕ
to_slice h = h

-- `hex.EncodeToString`
unfoldable pub hex_digit : ℕ → ℕ
hex_digit n = if ltb n 10 then n + 48 else n + 87

unfoldable pub hex_encode : List ℕ → List ℕ
hex_encode [] = []
hex_encode (b ∷ bs) = hex_digit (b / 16) ∷ hex_digit (b % 16) ∷ hex_encode bs

unfoldable pub to_string : Hash → List ℕ
unfolding to_slice
to_string h = hex_encode (to_slice h)

unfoldable pub prefix : Hash → List ℕ
prefix h = take 8 (to_string h)

-- `MarshalJSON`: the text between quotes.
unfoldable pub marshal_json : Hash → List ℕ
marshal_json h = 34 ∷ (to_string h ++ (34 ∷ []))

-- `hex.DecodeString`, digits of either case; of an odd text the last byte is looked at too.
unfoldable pub hex_value : ℕ → Option ℕ
hex_value c =
    if leb 48 c && leb c 57
    then some (c - 48)
    else (if leb 97 c && leb c 102
        then some (c - 87)
        else (if leb 65 c && leb c 70 then some (c - 55) else none))

abbrev pub cons_byte :
    ℕ → ℕ → Option ℕ → Option ℕ → Result HexError (List ℕ) → Result HexError (List ℕ)
cons_byte p q none v r = err (invalid_byte p)
cons_byte p q (some u) none r = err (invalid_byte q)
cons_byte p q (some u) (some v) (ok bs) = ok ((u * 16 + v) ∷ bs)
cons_byte p q (some u) (some v) other = other

unfoldable pub hex_decode : List ℕ → Result HexError (List ℕ)
unfolding hex_value
hex_decode [] = ok []
hex_decode (p ∷ []) = elim (hex_value p) [ none ↦ err (invalid_byte p) | some _ ↦ err odd_length ]
hex_decode (p ∷ q ∷ text) = cons_byte p q (hex_value p) (hex_value q) (hex_decode text)

abbrev pub then_hash : Result HexError (List ℕ) → Result HexError Hash
then_hash (ok b) = hash_from_bytes b
then_hash other = other

unfoldable pub hash_from_hex : List ℕ → Result HexError Hash
hash_from_hex hx = then_hash (hex_decode hx)
