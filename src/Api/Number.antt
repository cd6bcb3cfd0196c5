-- ===== src/Api/Number.antt =====
-- The numbers in the paths of api/server.go: `strconv.Atoi` and the conversion to `uint32`.
use goblockchain.Base.{
  ℕ, ◌+◌, ◌-◌, ◌*◌, ◌%◌, ◌^◌, Option, none, some, List, [], ◌∷◌, ◌&&◌, if◌then◌else◌, ltb, leb,
  ◌==◌, ℤ, pos, negsuc, sub_ℕ, u32_mod,
}

-- The digits that follow the value so far.
unfoldable pub digits : List ℕ → ℕ → Option ℕ
digits [] value = some value
digits (c ∷ cs) value =
    let rest = digits cs (value * 10 + (c - 48)) in if leb 48 c && leb c 57 then rest else none

-- At least one digit.
abbrev pub unsigned : List ℕ → Option ℕ
unsigned [] = none
unsigned (c ∷ cs) = digits (c ∷ cs) 0

-- The range of an `int` of 64 bits.
abbrev pub positive : Option ℕ → Option ℤ
positive none = none
positive (some n) = if ltb n (2 ^ 63) then some (pos n) else none

abbrev pub negative : Option ℕ → Option ℤ
negative none = none
negative (some n) = if leb n (2 ^ 63) then some (sub_ℕ 0 n) else none

-- `strconv.Atoi`, `none` for an error.
unfoldable pub atoi : List ℕ → Option ℤ
unfolding digits
atoi [] = none
atoi (c ∷ cs) =
    if c == 45
    then negative (unsigned cs)
    else (if c == 43 then positive (unsigned cs) else positive (unsigned (c ∷ cs)))

-- `uint32(n)`
unfoldable pub u32_of : ℤ → ℕ
u32_of (pos n) = n % u32_mod
u32_of (negsuc n) = u32_mod - 1 - n % u32_mod
