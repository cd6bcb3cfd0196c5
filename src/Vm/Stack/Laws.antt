-- ===== src/Vm/Stack/Laws.antt =====
-- The slice and the pointer of vm/stack.go implement a bounded list: `contents` is the list.
use goblockchain.Base.{
  suc, ◌+◌, ◌-◌, ◌≤◌, ◌<◌, ◌≡◌, List, [], ◌∷◌, ◌++◌, ok, err, arith, length, take, set, get_elem?,
  length-set, length-take, take-set-suc, take-suc, get_elem?-some, ◌∙◌, ap, some,
}
use goblockchain.Vm.Value.{Value, stack_overflow, stack_empty}
use goblockchain.Vm.Stack.{Stack, push, pop}
use native.Mathlib.Numerals.{add-one}

-- The slice has as many slots as the stack may hold, and the pointer stays inside.
pub record IsValid (s : Stack) : Type 0 where
  pub sized : length s.slots ≡ s.depth
  pub within : s.ptr ≤ s.depth

-- The values on the stack, the last one pushed at the end.
unfoldable pub contents : Stack → List Value
contents s = take s.ptr s.slots

pub length-contents : (s : Stack) → IsValid s → length (contents s) ≡ s.ptr
unfolding contents
length-contents s v = omega (arith, length-take s.ptr s.slots)

-- What `push` leaves behind when there is room.
abbrev pub pushed : Value → Stack → Stack
pushed b s = record { slots = set s.slots s.ptr b; ptr = s.ptr + 1; depth = s.depth }

pub push_room :
    (b : Value) (s : Stack) → IsValid s → s.ptr < s.depth → push b s ≡ (ok tt, pushed b s)
unfolding push
push_room b s v h = ground arith

pub push_full : (b : Value) (s : Stack) → s.ptr ≡ s.depth → push b s ≡ (err stack_overflow, s)
unfolding push
push_full b s h = ground arith

pub pushed-IsValid : (b : Value) (s : Stack) → IsValid s → s.ptr < s.depth → IsValid (pushed b s)
pushed-IsValid b s v h = omega (arith, length-set s.slots s.ptr b)

pub contents-pushed :
    (b : Value) (s : Stack)
    → IsValid s
    → s.ptr < s.depth
    → contents (pushed b s) ≡ contents s ++ (b ∷ [])
unfolding contents
contents-pushed b s v h = rw add-one (take-set-suc s.slots s.ptr b (omega arith))

-- What `pop` leaves behind: the slot keeps its value.
abbrev pub popped : Stack → Stack
popped s = record { slots = s.slots; ptr = s.ptr - 1; depth = s.depth }

pub pop_empty : (s : Stack) → s.ptr ≡ 0 → pop s ≡ (err stack_empty, s)
unfolding pop
pop_empty s h = ground arith

pub pop_full :
    (s : Stack) (b : Value)
    → 0 < s.ptr
    → get_elem? s.slots (s.ptr - 1) ≡ some b
    → pop s ≡ (ok b, popped s)
unfolding pop
pop_full s b h e = ground arith

pub top_slot :
    (s : Stack) → IsValid s → 0 < s.ptr → (b : Value) × (get_elem? s.slots (s.ptr - 1) ≡ some b)
top_slot s v h = get_elem?-some s.slots (s.ptr - 1) (omega arith)

pub contents-popped :
    (s : Stack) (b : Value)
    → 0 < s.ptr
    → get_elem? s.slots (s.ptr - 1) ≡ some b
    → contents s ≡ contents (popped s) ++ (b ∷ [])
unfolding contents
contents-popped s b h e =
    let p : s.ptr ≡ suc (s.ptr - 1) = omega arith in
    ap (λ n. take n s.slots) p ∙ take-suc s.slots (s.ptr - 1) e
