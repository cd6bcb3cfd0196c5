-- ===== src/Vm/Value.antt =====
-- What the stack and the contract state hold (`any` in vm/stack.go and vm/state.go), and the errors
-- of the package.
use goblockchain.Base.{ℕ, List}

-- The dynamic types that the machine pushes. An `int` is its 64-bit pattern, and `nil` is the content
-- of a slot that nothing was written to.
pub data Value : Type 0 where
  nil : Value
  int : ℕ → Value
  byte : ℕ → Value
  bytes : List ℕ → Value

-- The bytes of a Go string.
abbrev pub Key : Type 0
Key = List ℕ

pub data Error : Type 0 where
  stack_overflow stack_empty read_out_of_range : Error
  no_such_key : Key → Error
