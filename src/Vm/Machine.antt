-- ===== src/Vm/Machine.antt =====
-- vm/vm.go and vm/instruction.go: the instructions and the loop over the bytes of a transaction.
-- Logging is left out. An `int` is its 64-bit pattern.
pub mod Safety
pub mod Run
use goblockchain.Base.{
  ℕ, zero, suc, ◌+◌, ◌-◌, ◌^◌, ◌%◌, true, false, none, some, List, [], Result, ok, err, panic,
  stuck, Panic, Go, ◌>>=◌, ◌>>◌, pure, gets, modify, or_panic, panic_if, panic_with, on_part,
  ignore_error, if◌then◌else◌, ltb, leb, ◌==◌, length, set, get_elem?, replicate,
}
use goblockchain.Vm.Value.{Value, int, byte, bytes, Key, Error}
use goblockchain.Vm.Stack.{Stack, new_stack, push, pop}
use goblockchain.Vm.State
use goblockchain.Vm.State.{State, new_state}

-- The constants of vm/instruction.go; `other` is any byte that the switch has no case for.
pub data Instruction : Type 0 where
  push_int add_int push_bytes pack store get other : Instruction

unfoldable pub instruction : ℕ → Instruction
instruction b =
    if b == 0x0a
    then push_int
    else (if b == 0x0b
        then add_int
        else (if b == 0x0c
            then push_bytes
            else (if b == 0x0d
                then pack
                else (if b == 0x0f then store else (if b == 0x10 then get else other)))))

-- `data`, `ip`, `Stack` and `contractState` of the source's VM.
pub record Vm : Type 0 where
  pub code : List ℕ
  pub ip : ℕ
  pub stack : Stack
  pub contract_state : State

-- `NewVM` with the option `ContractStateOpt`.
unfoldable pub new_vm : List ℕ → State → Vm
new_vm code cs = record { code = code; ip = 0; stack = new_stack []; contract_state = cs }

abbrev pub on_stack : {A : Type 0} → Go Error Stack A → Go Error Vm A
on_stack = on_part (λ v. v.stack) (λ v s. record v { stack = s })

abbrev pub on_state : {A : Type 0} → Go Error State A → Go Error Vm A
on_state = on_part (λ v. v.contract_state) (λ v s. record v { contract_state = s })

-- `vm.data[i]`; the index is negative where `i` is read as a predecessor of 0.
abbrev pub byte_before : Vm → Result Error ℕ
byte_before v =
    if v.ip == 0 then panic Panic.index_out_of_range else elim (get_elem? v.code (v.ip - 1)) [
      | none ↦ panic Panic.index_out_of_range
      | some b ↦ ok b
    ]

-- `vm.data[vm.ip-1]`
unfoldable pub operand : Go Error Vm ℕ
operand v = (byte_before v, v)

-- The type assertions `v.(int)`, `v.(byte)` and `v.([]byte)`.
abbrev pub as_int : Value → Go Error Vm ℕ
as_int (int n) = pure n
as_int _ = panic_with Panic.type_assertion

abbrev pub as_byte : Value → Go Error Vm ℕ
as_byte (byte b) = pure b
as_byte _ = panic_with Panic.type_assertion

unfoldable pub must_be_key : Value → Go Error Vm Key
must_be_key (bytes b) = pure b
must_be_key _ = panic_with Panic.type_assertion

-- Wrap-around of a Go `int`.
abbrev pub int_mod : ℕ
int_mod = 2 ^ 64

-- `make([]byte, l)` panics above the runtime's limit of 2^48 bytes, a negative `l` included.
abbrev pub max_alloc : ℕ
max_alloc = 2 ^ 48

-- The loop of `InstructionPack` with `n` rounds left: the value goes to index `l - (i + 1)`, which is
-- the number of rounds left after this one.
unfoldable pub pack_loop : ℕ → List ℕ → Go Error Vm (List ℕ)
pack_loop zero out = pure out
pack_loop (suc n) out = do val ← on_stack pop; b ← as_byte val; pack_loop n (set out n b)

unfoldable pub exec : Instruction → Go Error Vm (Unit {0})
unfolding operand must_be_key
exec push_int = do d ← operand; on_stack (push (int d))
exec add_int = do
  a ← on_stack pop
  b ← on_stack pop
  x ← as_int a
  y ← as_int b
  on_stack (push (int ((x + y) % int_mod)))
exec push_bytes = do d ← operand; on_stack (push (byte d))
exec pack = do
  v ← on_stack pop
  l ← as_int v
  panic_if (ltb max_alloc l) Panic.makeslice
  out ← pack_loop l (replicate l 0)
  ignore_error (on_stack (push (bytes out)))
exec store = do
  val ← on_stack pop
  key ← on_stack pop
  k ← must_be_key key
  on_state (State.put k val)
exec get = do
  key ← on_stack pop
  k ← must_be_key key
  val ← on_state (State.get k)
  on_stack (push val)
exec other = pure tt

-- One round of the loop of `Run`: `Exec(Instruction(vm.data[vm.ip]))` and `vm.ip++`.
unfoldable pub round : Go Error Vm (Unit {0})
round = do
  inst ← or_panic (← gets (λ v. get_elem? v.code v.ip)) Panic.index_out_of_range
  exec (instruction inst)
  modify (λ v. record v { ip = v.ip + 1 })

-- What follows a round: the error is returned, the loop is left at the end of the code, or goes on.
abbrev pub continue :
    Result Error (Unit {0}) × Vm → Go Error Vm (Unit {0}) → Result Error (Unit {0}) × Vm
continue (ok _, v) next = elim (leb (length v.code) v.ip) [ true ↦ (ok tt, v) | false ↦ next v ]
continue (err e, v) next = (err e, v)
continue (panic p, v) next = (panic p, v)
continue (stuck, v) next = (stuck, v)

unfoldable pub run_loop : ℕ → Go Error Vm (Unit {0})
run_loop zero v = (stuck, v)
run_loop (suc fuel) v = continue (round v) (run_loop fuel)

-- Every round moves `ip` on by one, so one round for each byte is enough, and one more for no bytes.
unfoldable pub run : Go Error Vm (Unit {0})
run v = run_loop (suc (length v.code)) v
