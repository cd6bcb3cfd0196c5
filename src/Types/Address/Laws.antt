-- ===== src/Types/Address/Laws.antt =====
-- `MustAddressFromBytes` of types/address.go on slices of every length.
use goblockchain.Base.{
  ℕ, zero, suc, ◌+◌, ◌<◌, ◌≤◌, ◌≡◌, refl, sym, ap, ◌∙◌, ◌⊎◌, inl, inr, List, [], ◌∷◌, ◌++◌, ok,
  panic, Panic, ltb, length, length-set, set, take, replicate, arith, Bool-cases,
}
use mathlib.Core.List.{append_assoc, append-nil}
use goblockchain.Base.{take-set-suc}
use goblockchain.Types.Address.{Address, copy_loop, must_address_from_bytes}

step_in :
    (b : ℕ) (bs : List ℕ) (i : ℕ) (out : Address)
    → i < length out
    → copy_loop (b ∷ bs) i out ≡ copy_loop bs (i + 1) (set out i b)
unfolding copy_loop
step_in b bs i out h = ground arith

step_out :
    (b : ℕ) (bs : List ℕ) (i : ℕ) (out : Address)
    → length out ≤ i
    → copy_loop (b ∷ bs) i out ≡ panic Panic.index_out_of_range
unfolding copy_loop
step_out b bs i out h = ground arith

take_all : (l : List ℕ) (n : ℕ) → length l ≤ n → take n l ≡ l
take_all [] zero h = refl
take_all [] (suc n) h = refl
take_all (x ∷ l) zero h = elim h [ ]
take_all (x ∷ l) (suc n) h = ap (λ r. x ∷ r) (take_all l n (omega arith))

-- The slice fills the array up to its end.
copies :
    (bs : List ℕ) (i : ℕ) (out : Address)
    → i + length bs ≡ length out
    → copy_loop bs i out ≡ ok (take i out ++ bs)
unfolding copy_loop
copies [] i out h = ap ok (sym (take_all out i (omega arith)) ∙ sym (append-nil (take i out)))
copies (b ∷ bs) i out h =
    let up : i + 1 ≡ suc i = omega arith in
    let written : take (i + 1) (set out i b) ≡ take i out ++ (b ∷ []) =
      ap (λ n. take n (set out i b)) up ∙ take-set-suc out i b (omega arith) in
    step_in b bs i out (omega arith)
    ∙ copies bs (i + 1) (set out i b) (omega (arith, length-set out i b))
    ∙ ap (λ l. ok (l ++ bs)) written
    ∙ ap ok (append_assoc (take i out) (b ∷ []) bs)

-- The slice runs over the end of the array.
overruns :
    (bs : List ℕ) (i : ℕ) (out : Address)
    → i ≤ length out
    → length out < i + length bs
    → copy_loop bs i out ≡ panic Panic.index_out_of_range
overruns [] i out l h = absurd (omega arith)
overruns (b ∷ bs) i out l h = elim (Bool-cases (ltb i (length out))) [
  | inl e ↦
      step_in b bs i out (ground arith)
      ∙ overruns bs (i + 1) (set out i b) (ground (arith, length-set out i b))
          (omega (arith, length-set out i b))
  | inr e ↦ step_out b bs i out (ground arith)
]

-- A slice of 20 bytes is the address with these bytes. A shorter one panics with a message; a longer
-- one passes the test on the length and panics by an index out of range.
pub must_address_from_bytes_lem :
    (b : List ℕ)
    → ((length b ≡ 20) × (must_address_from_bytes b ≡ ok b))
      ⊎ (((length b < 20) × (must_address_from_bytes b ≡ panic Panic.explicit))
          ⊎ ((20 < length b) × (must_address_from_bytes b ≡ panic Panic.index_out_of_range)))
unfolding must_address_from_bytes
must_address_from_bytes_lem b = elim (Bool-cases (ltb (length b) 20)) [
  | inl short ↦ inr (inl (ground arith, rw short refl))
  | inr rest ↦ elim (Bool-cases (ltb 20 (length b))) [
    | inl long ↦
        inr
          (inr (ground arith, rw rest (overruns b 0 (replicate 20 0) (omega arith) (ground arith))))
    | inr same ↦ inl (ground arith, rw rest (copies b 0 (replicate 20 0) (ground arith)))
  ]
]
