-- ===== src/Types/Tests.antt =====
-- The theorems on hashes and lists at concrete values.
use goblockchain.Base.{zero, suc, ◌<◌, ℕ, ◌≡◌, refl, [], ◌∷◌, replicate, All, arith, nat_eq}
use goblockchain.Types.Hash.{Hash, IsHash, to_string, to_slice, prefix, hex_encode, hex_digit}

abbrev some_hash : Hash
some_hash = replicate 32 171

small : (n : ℕ) → All (λ b. b < 256) (replicate n 171)
small zero = tt
small (suc n) = (omega arith, small n)

some_hash-IsHash : IsHash some_hash
some_hash-IsHash = (refl, small 32)

-- The prefix in the log.
prefix_text : prefix some_hash ≡ 97 ∷ 98 ∷ 97 ∷ 98 ∷ 97 ∷ 98 ∷ 97 ∷ 98 ∷ []
unfolding prefix to_string to_slice hex_encode hex_digit
prefix_text = refl
