-- ===== src/Base/Int.antt =====
-- Go's `int` where the code looks at its sign: `negsuc n` is -(n + 1).
use Prim.Native.Nat.{◌^◌, ℕ, ◌-◌}
use goblockchain.Base.Tests.{leb, if◌then◌else◌}

pub data ℤ : Type 0 where
  pos : ℕ → ℤ
  negsuc : ℕ → ℤ

-- a - b, as an integer.
abbrev pub sub_ℕ : ℕ → ℕ → ℤ
sub_ℕ a b = if leb b a then pos (a - b) else negsuc (b - a - 1)

-- The number of values of a `uint32`, which wraps around there.
abbrev pub u32_mod : ℕ
u32_mod = 2 ^ 32
