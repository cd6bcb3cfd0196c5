-- ===== src/Vm/Stack.antt =====
-- vm/stack.go: a stack of bounded depth over a slice of slots. The locks are left out.
pub mod Laws
pub mod Refinement
use goblockchain.Base.{
  ℕ, ◌+◌, ◌-◌, Bool, List, [], ◌∷◌, ok, err, panic, Panic, Go, ◌>>=◌, ◌>>◌, pure, gets, modify,
  throw_if, or_panic, if◌then◌else◌, ltb, leb, ◌==◌, length, set, get_elem?, replicate, ℤ, pos,
  negsuc, sub_ℕ,
}
use goblockchain.Vm.Value.{Value, nil, Error, stack_overflow, stack_empty, read_out_of_range}

pub record Stack : Type 0 where
  pub slots : List Value
  pub ptr : ℕ
  pub depth : ℕ

abbrev pub StackOpt : Type 0
StackOpt = Stack → Stack

unfoldable pub max_stack : ℕ → StackOpt
max_stack max s = record s { depth = max }

abbrev pub apply_opts : List StackOpt → Stack → Stack
apply_opts [] s = s
apply_opts (opt ∷ opts) s = apply_opts opts (opt s)

unfoldable pub new_stack : List StackOpt → Stack
new_stack opts =
    let s = apply_opts opts (record { slots = []; ptr = 0; depth = 1024 }) in
    record s { slots = replicate s.depth nil }

-- `s.data[s.ptr] = b`
abbrev write_slot : Value → Go Error Stack (Unit {0})
write_slot b s =
    if ltb s.ptr (length s.slots)
    then (ok tt, record s { slots = set s.slots s.ptr b })
    else (panic Panic.index_out_of_range, s)

unfoldable pub push : Value → Go Error Stack (Unit {0})
push b = do
  throw_if (← gets (λ s. s.ptr == s.depth)) stack_overflow
  write_slot b
  modify (λ s. record s { ptr = s.ptr + 1 })

unfoldable pub empty : Stack → Bool
empty s = s.ptr == 0

unfoldable pub pop : Go Error Stack Value
unfolding empty
pop = do
  throw_if (← gets empty) stack_empty
  b ← or_panic (← gets (λ s. get_elem? s.slots (s.ptr - 1))) Panic.index_out_of_range
  modify (λ s. record s { ptr = s.ptr - 1 })
  pure b

unfoldable pub len : Stack → ℕ
len s = s.ptr

unfoldable pub read : ℤ → Go Error Stack Value
unfolding len
read (negsuc _) s = (err read_out_of_range, s)
read (pos n) s =
    if leb (len s) n
    then (err read_out_of_range, s)
    else or_panic (get_elem? s.slots n) Panic.index_out_of_range s

unfoldable pub peek : Go Error Stack Value
unfolding len read
peek s = read (sub_ℕ (len s) 1) s
