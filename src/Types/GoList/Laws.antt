-- ===== src/Types/GoList/Laws.antt =====
-- `Index`, `Contains` and `Delete` of types/list.go against a plain recursion.
use goblockchain.Base.{
  ℕ, zero, suc, ◌+◌, ◌-◌, ◌<◌, ◌≤◌, ◌≡◌, ◌↔◌, refl, ap, true, false, some, List, [], ◌∷◌, ◌++◌, ok,
  if◌then◌else◌, ◌==◌, length, take, drop, get_elem?, Eq, ℤ, pos, negsuc, arith,
  lt_length_of_get_elem?, Bool-cases, inl, inr,
}
use goblockchain.Types.GoList.{get, delete_at, index_loop, index, delete, contains}
use mathlib.Core.List.{append-nil}
use native.Mathlib.Numerals.{add-one}

module _ {A : Type 0} ⦃q : Eq A⦄ where
  -- The list without the first element that equals `val`.
  abbrev pub erase_first : A → List A → List A
  erase_first val [] = []
  erase_first val (elem ∷ l) = if q.beq elem val then l else elem ∷ erase_first val l

  -- What the index that the loop returned says of the elements from `idx` on.
  abbrev Finds : A → ℕ → List A → ℤ → Type 0
  Finds val idx l (pos k) =
      (i : ℕ) × (k ≡ idx + i)
      × (get_elem? l i ≡ some val)
      × (erase_first val l ≡ take i l ++ drop (i + 1) l)
      × (contains val l ≡ true)
  Finds val idx l (negsuc _) = (erase_first val l ≡ l) × (contains val l ≡ false)

  Finds-cons :
      (val elem : A) (idx : ℕ) (l : List A) (r : ℤ)
      → q.beq elem val ≡ false
      → Finds val (idx + 1) l r
      → Finds val idx (elem ∷ l) r
  unfolding contains
  Finds-cons val elem idx l (pos k) e (i, p, at_i, erased, found) =
      (suc i, omega arith, at_i, ground (arith, towards i), ground arith)
    where
      towards : (i : ℕ) → drop (i + 1) l ≡ drop (suc i) l
      towards i = rw add-one
  Finds-cons val elem idx l (negsuc _) e (kept, missing) = (ground arith, ground arith)

  index_loop-Finds : (val : A) (idx : ℕ) (l : List A) → Finds val idx l (index_loop val idx l)
  unfolding index_loop contains
  index_loop-Finds val idx [] = (refl, refl)
  index_loop-Finds val idx (elem ∷ l) = elim (Bool-cases (q.beq elem val)) [
    | inl e ↦
        let same : elem ≡ val = (q.beq_iff elem val).0 e in
        rw e (0, omega arith, ap some same, ground arith, ground arith)
    | inr e ↦ rw e (Finds-cons val elem idx l _ e (index_loop-Finds val (idx + 1) l))
  ]

  drop_all : (l : List A) (n : ℕ) → length l ≤ n → drop n l ≡ []
  drop_all [] zero h = refl
  drop_all [] (suc n) h = refl
  drop_all (x ∷ l) zero h = elim h [ ]
  drop_all (x ∷ l) (suc n) h = drop_all l n (omega arith)

  delete_at_lem :
      (l : List A) (i : ℕ) → i < length l → delete_at (pos i) l ≡ take i l ++ drop (i + 1) l
  unfolding delete_at
  delete_at_lem l i h = elim (Bool-cases (i == length l - 1)) [
    | inl e ↦
        let none_after : drop (i + 1) l ≡ [] = drop_all l (i + 1) (ground arith) in
        ground (arith, none_after, append-nil (take i l))
    | inr e ↦ ground arith
  ]

  -- `Delete` takes out the first element that equals the value and keeps the order of the others;
  -- a list without such an element stays as it is.
  pub delete_lem : (val : A) (l : List A) → delete val l ≡ erase_first val l
  unfolding delete index
  delete_lem val l = by_index (index_loop val 0 l) (index_loop-Finds val 0 l)
    where
      by_index :
          (r : ℤ)
          → Finds val 0 l r
          → (elim r [ negsuc _ ↦ l | pos idx ↦ delete_at (pos idx) l ]) ≡ erase_first val l
      by_index (pos k) (i, p, at_i, erased, found) =
          let k-eq : k ≡ i = omega arith in
          rw (k-eq, erased) (delete_at_lem l i (lt_length_of_get_elem? l i at_i))
      by_index (negsuc n) (kept, missing) = rw kept

  -- `Contains` answers yes exactly if `Index` gives a position, and `Get` finds the value there.
  pub contains_iff :
      (val : A) (l : List A)
      → (contains val l ≡ true) ↔ ((i : ℕ) × (index val l ≡ pos i) × (get (pos i) l ≡ ok val))
  unfolding index get
  contains_iff val l = by_index (index_loop val 0 l) refl (index_loop-Finds val 0 l)
    where
      by_index :
          (r : ℤ)
          → index_loop val 0 l ≡ r
          → Finds val 0 l r
          → (contains val l ≡ true) ↔ ((i : ℕ) × (index val l ≡ pos i) × (get (pos i) l ≡ ok val))
      by_index (pos k) e (i, p, at_i, erased, found) =
          let k-eq : k ≡ i = omega arith in
          let inside : i < length l = lt_length_of_get_elem? l i at_i in
          (λ _. (i, rw (e, k-eq), ground arith), λ _. found)
      by_index (negsuc n) e (kept, missing) =
          (λ found. absurd (ground arith), λ (i, p, _). absurd (ground (arith, e, p)))
