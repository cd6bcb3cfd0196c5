-- ===== src/Vm/Stack/Refinement.antt =====
-- The operations of vm/stack.go against a bounded list, whose last element is the top.
use goblockchain.Base.{
  ℕ, ◌-◌, ◌<◌, ◌≡◌, refl, List, [], ◌∷◌, ◌++◌, ok, err, arith, length, get_elem?, Option, Result,
  Bool-cases, inl, inr, ◌==◌, none, some, if◌then◌else◌, length-replicate,
}
use goblockchain.Vm.Value.{Value, nil, Error, stack_overflow, stack_empty, read_out_of_range}
use goblockchain.Vm.Stack.{Stack, StackOpt, new_stack, push, pop, peek, max_stack, apply_opts}
use goblockchain.Vm.Stack.Laws.{
  IsValid, contents, length-contents, push_room, push_full, pushed-IsValid, contents-pushed, popped,
  pop_empty, pop_full, top_slot, contents-popped,
}

-- The last element of a list, and what stands before it.
abbrev pub unsnoc {ℓ} : {A : Type ℓ} → List A → Option (List A × A)
unsnoc [] = none
unsnoc (x ∷ xs) = elim (unsnoc xs) [ none ↦ some ([], x) | some (ys, y) ↦ some (x ∷ ys, y) ]

pub unsnoc-append {ℓ} : {A : Type ℓ} (xs : List A) (x : A) → unsnoc (xs ++ (x ∷ [])) ≡ some (xs, x)
unsnoc-append [] x = refl
unsnoc-append (y ∷ xs) x = ground (arith, unsnoc-append xs x)

-- The operations on the list.
abbrev pub list_push : ℕ → Value → List Value → Result Error (Unit {0}) × List Value
list_push depth b xs =
    if length xs == depth then (err stack_overflow, xs) else (ok tt, xs ++ (b ∷ []))

abbrev pub list_pop : List Value → Result Error Value × List Value
list_pop xs = elim (unsnoc xs) [ none ↦ (err stack_empty, xs) | some (ys, y) ↦ (ok y, ys) ]

abbrev pub list_peek : List Value → Result Error Value
list_peek xs = elim (unsnoc xs) [ none ↦ err read_out_of_range | some (ys, y) ↦ ok y ]

-- A call on the stack does to its contents what the list operation does, and keeps it valid.
abbrev pub Refines :
    {A : Type 0} → Stack → Result Error A × Stack → Result Error A × List Value → Type 0
Refines s (r, s') (q, xs) = (r ≡ q) × (contents s' ≡ xs) × IsValid s' × (s'.depth ≡ s.depth)

-- On a valid stack `push` appends the value, or reports an overflow and changes nothing when the
-- stack is at its depth; the stack stays valid.
pub push-Refines :
    (b : Value) (s : Stack) → IsValid s → Refines s (push b s) (list_push s.depth b (contents s))
push-Refines b s v = elim (Bool-cases (s.ptr == s.depth)) [
  | inl full ↦ rw (push_full b s (ground arith)) (ground (arith, length-contents s v))
  | inr room ↦
      let h : s.ptr < s.depth = ground arith in
      rw (push_room b s v h)
        (ground (arith, length-contents s v, contents-pushed b s v h, pushed-IsValid b s v h))
]

contents_empty : (s : Stack) → s.ptr ≡ 0 → contents s ≡ []
unfolding contents
contents_empty s h = rw h

list_pop-append : (xs : List Value) (b : Value) → list_pop (xs ++ (b ∷ [])) ≡ (ok b, xs)
list_pop-append xs b = ground (arith, unsnoc-append xs b)

pop-Refines_top :
    (s : Stack) (b : Value)
    → IsValid s
    → 0 < s.ptr
    → get_elem? s.slots (s.ptr - 1) ≡ some b
    → Refines s (pop s) (list_pop (contents s))
pop-Refines_top s b v h e =
    rw (pop_full s b h e, contents-popped s b h e, list_pop-append) (refl, refl, omega arith, refl)

-- On a valid stack `pop` takes off and returns the value that was pushed last, or reports an empty
-- stack and changes nothing; the stack stays valid.
pub pop-Refines : (s : Stack) → IsValid s → Refines s (pop s) (list_pop (contents s))
pop-Refines s v = elim (Bool-cases (s.ptr == 0)) [
  | inl none_left ↦
      rw (pop_empty s (ground arith), contents_empty s (ground arith)) (refl, refl, v, refl)
  | inr some_left ↦
      let (b, e) = top_slot s v (ground arith) in pop-Refines_top s b v (ground arith) e
]

peek_top :
    (s : Stack) (b : Value)
    → 0 < s.ptr
    → get_elem? s.slots (s.ptr - 1) ≡ some b
    → peek s ≡ (ok b, s)
unfolding peek
peek_top s b h e = ground arith

peek_empty : (s : Stack) → s.ptr ≡ 0 → peek s ≡ (err read_out_of_range, s)
unfolding peek
peek_empty s h = ground arith

-- On a valid stack `peek` returns the value that `pop` would, or reports an error on an empty stack;
-- it changes nothing.
pub peek_refines : (s : Stack) → IsValid s → peek s ≡ (list_peek (contents s), s)
peek_refines s v = elim (Bool-cases (s.ptr == 0)) [
  | inl none_left ↦ rw (contents_empty s (ground arith)) (peek_empty s (ground arith))
  | inr some_left ↦
      let h : 0 < s.ptr = ground arith in
      let (b, e) = top_slot s v h in
      cc (contents-popped s b h e, unsnoc-append (contents (popped s)) b, peek_top s b h e)
]

new_stack-IsValid :
    (opts : List StackOpt)
    → (apply_opts opts (record { slots = []; ptr = 0; depth = 1024 })).ptr ≡ 0
    → IsValid (new_stack opts) × (contents (new_stack opts) ≡ [])
unfolding new_stack contents
new_stack-IsValid opts e = (record { sized = length-replicate _ nil; within = omega arith }, rw e)

-- With or without a limit a new stack is valid and empty, and as deep as asked.
pub new_stack_lem :
    (max : ℕ)
    → IsValid (new_stack [])
      × IsValid (new_stack (max_stack max ∷ []))
      × (contents (new_stack (max_stack max ∷ [])) ≡ [])
      × ((new_stack (max_stack max ∷ [])).depth ≡ max)
unfolding new_stack max_stack contents
new_stack_lem max =
    ((new_stack-IsValid [] refl).0, (new_stack-IsValid (max_stack max ∷ []) refl).0, refl, refl)
