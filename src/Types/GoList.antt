-- ===== src/Types/GoList.antt =====
-- types/list.go: the generic list over a slice. `reflect.DeepEqual` is the interface `Eq`. A slice
-- that `Slice` has handed out is a value here: the source shares its array until `Clear`.
pub mod Laws
use goblockchain.Base.{
  ℕ, zero, suc, ◌+◌, ◌-◌, ◌≡◌, Bool, true, false, Option, none, some, List, [], ◌∷◌, ◌++◌, Result,
  ok, err, panic, Panic, if◌then◌else◌, ltb, leb, ◌==◌, length as list_length, take, drop,
  get_elem?, Eq, ℤ, pos, negsuc,
}

pub data Error : Type 0 where
  index_out_of_range : Error

abbrev pub GoList : Type 0 → Type 0
GoList A = List A

module _ {A : Type 0} where
  unfoldable pub new_list : GoList A
  new_list = []

  unfoldable pub get : ℤ → GoList A → Result Error A
  get (negsuc _) l = err index_out_of_range
  get (pos idx) l =
      if leb (list_length l) idx
      then err index_out_of_range
      else elim (get_elem? l idx) [ none ↦ panic Panic.index_out_of_range | some a ↦ ok a ]

  unfoldable pub append : A → GoList A → GoList A
  append val l = l ++ (val ∷ [])

  unfoldable pub clear : GoList A → GoList A
  clear l = []

  unfoldable pub delete_at : ℤ → GoList A → GoList A
  delete_at (negsuc _) l = l
  delete_at (pos idx) l =
      if leb (list_length l) idx
      then l
      else (let out = take idx l in
          if idx == list_length l - 1 then out else out ++ drop (idx + 1) l)

  unfoldable pub last : GoList A → Result Error A
  last [] = panic Panic.index_out_of_range
  last (a ∷ l) = elim (get_elem? (a ∷ l) (list_length (a ∷ l) - 1)) [
    | none ↦ panic Panic.index_out_of_range
    | some b ↦ ok b
  ]

  unfoldable pub length : GoList A → ℕ
  length l = list_length l

  unfoldable pub slice : GoList A → List A
  slice l = l

module _ {A : Type 0} ⦃q : Eq A⦄ where
  -- The loop of `Index` from the position `idx` on.
  unfoldable pub index_loop : A → ℕ → GoList A → ℤ
  index_loop val idx [] = negsuc 0
  index_loop val idx (elem ∷ l) =
      let rest = index_loop val (idx + 1) l in if q.beq elem val then pos idx else rest

  unfoldable pub index : A → GoList A → ℤ
  index val l = index_loop val 0 l

  unfoldable pub delete : A → GoList A → GoList A
  delete val l = elim (index val l) [ negsuc _ ↦ l | pos idx ↦ delete_at (pos idx) l ]

  unfoldable pub contains : A → GoList A → Bool
  contains val [] = false
  contains val (elem ∷ l) = let rest = contains val l in if q.beq elem val then true else rest
