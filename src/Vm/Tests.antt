-- ===== src/Vm/Tests.antt =====
-- The programs of vm/vm_test.go, and the theorems on the machine at concrete stacks and codes.
use goblockchain.Base.{ℕ, ◌≡◌, ◌↔◌, refl, true, List, [], ◌∷◌, ok, panic, Panic, arith}
use goblockchain.Vm.Value.{Value, nil, int, byte, bytes}
use goblockchain.Vm.Stack.{Stack, new_stack, push, pop, empty}
use goblockchain.Vm.Stack.Laws.{IsValid, contents}
use goblockchain.Vm.Stack.Refinement.{Refines, list_push, push-Refines, pop-Refines, new_stack_lem}
use goblockchain.Vm.State.{new_state}
use goblockchain.Vm.Machine.{
  Vm, run, run_loop, round, exec, operand, instruction, new_vm, pack_loop,
}
use goblockchain.Vm.Machine.Run.{run_ends, RunEnds, run_index_iff, starts_badly}

-- What is on the stack after a run of the code.
abbrev result : List ℕ → List Value
unfolding new_vm contents
result code = contents (run (new_vm code new_state)).1.stack

add_2_4 : result (2 ∷ 10 ∷ 4 ∷ 10 ∷ 11 ∷ []) ≡ int 6 ∷ []
unfolding run run_loop round exec operand instruction new_vm push pop empty new_stack contents
add_2_4 = refl

push_one_byte : result (97 ∷ 12 ∷ []) ≡ byte 97 ∷ []
unfolding run run_loop round exec operand instruction new_vm push pop empty new_stack contents
push_one_byte = refl

pack_ab : result (97 ∷ 12 ∷ 98 ∷ 12 ∷ 2 ∷ 10 ∷ 13 ∷ []) ≡ bytes (97 ∷ 98 ∷ []) ∷ []
unfolding run run_loop round exec operand instruction new_vm push pop empty new_stack contents
    pack_loop
pack_ab = refl

-- The operand of a push runs too: the 11 that is pushed adds the two values below first.
operand_runs : result (2 ∷ 10 ∷ 4 ∷ 10 ∷ 11 ∷ 10 ∷ []) ≡ int 6 ∷ int 11 ∷ []
unfolding run run_loop round exec operand instruction new_vm push pop empty new_stack contents
operand_runs = refl

-- A stack of depth 2 with one value.
abbrev one_of_two : Stack
one_of_two = record { slots = int 1 ∷ nil ∷ []; ptr = 1; depth = 2 }

one_of_two-IsValid : IsValid one_of_two
one_of_two-IsValid = record { sized = refl; within = omega arith }

push-Refines_example :
    Refines one_of_two (push (int 5) one_of_two) (list_push 2 (int 5) (int 1 ∷ []))
unfolding contents
push-Refines_example = push-Refines (int 5) one_of_two one_of_two-IsValid

pop-Refines_example : Refines one_of_two (pop one_of_two) (ok (int 1), [])
unfolding contents
pop-Refines_example = pop-Refines one_of_two one_of_two-IsValid

abbrev sum_vm : Vm
unfolding new_vm
sum_vm = new_vm (2 ∷ 10 ∷ 4 ∷ 10 ∷ 11 ∷ []) new_state

run_ends_example : RunEnds (2 ∷ 10 ∷ 4 ∷ 10 ∷ 11 ∷ []) (run sum_vm)
unfolding new_vm instruction
run_ends_example = run_ends sum_vm (new_stack_lem 2).0 refl refl

run_index_iff_example :
    ((run (new_vm (10 ∷ []) new_state)).0 ≡ panic Panic.index_out_of_range)
    ↔ (starts_badly (10 ∷ []) ≡ true)
unfolding new_vm
run_index_iff_example = run_index_iff (new_vm (10 ∷ []) new_state) (new_stack_lem 2).0 refl
