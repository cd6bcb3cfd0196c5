-- ===== src/Vm/Machine/Safety.antt =====
-- Every instruction, and so every run, ends, keeps the stack valid and leaves the code alone.
use goblockchain.Base.{
  ℕ, zero, suc, ◌-◌, ◌≤◌, ◌<◌, ◌≡◌, refl, Bool, true, false, some, List, Result, ok, err, panic,
  stuck, Panic, Go, pure, panic_if, ignore_error, ignore_result, ltb, ◌==◌, length, set, get_elem?,
  replicate, arith, Ends, Runs, >>=-Runs, Bool-cases, inl, inr, get_elem?-some, ◌∙◌, bytes_eq,
}
use goblockchain.Vm.Value.{Value, nil, int, byte, bytes, Key, Error}
use goblockchain.Vm.Stack.{Stack, push, pop}
use goblockchain.Vm.Stack.Laws.{
  IsValid, push_room, push_full, pushed-IsValid, pop_empty, pop_full, top_slot,
}
use goblockchain.Vm.State
use goblockchain.Vm.State.{State, new_state}
use goblockchain.Vm.Machine.{
  Vm, Instruction, push_int, add_int, push_bytes, pack, store, get, other, on_stack, on_state,
  operand, byte_before, as_int, as_byte, must_be_key, pack_loop, exec, max_alloc,
}

-- What holds before and after each instruction of a run over `code`, at the position `i`.
pub record Holds (code : List ℕ) (i depth : ℕ) (v : Vm) : Type 0 where
  pub same_code : v.code ≡ code
  pub same_ip : v.ip ≡ i
  pub valid : IsValid v.stack
  pub same_depth : v.stack.depth ≡ depth

-- A panic that a run behind a first byte that is no push can meet.
abbrev pub IsTypePanic : Panic → Type 0
IsTypePanic Panic.type_assertion = Unit
IsTypePanic Panic.makeslice = Unit
IsTypePanic _ = ⊥

-- The instructions that read the byte before them.
abbrev pub is_push : Instruction → Bool
is_push push_int = true
is_push push_bytes = true
is_push _ = false

-- No stack operation panics on a valid stack.
abbrev StackEnds : {A : Type 0} → Stack → Result Error A × Stack → Type 0
StackEnds s (r, s') = Ends IsTypePanic r × IsValid s' × (s'.depth ≡ s.depth)

push-StackEnds : (b : Value) (s : Stack) → IsValid s → StackEnds s (push b s)
push-StackEnds b s v = elim (Bool-cases (s.ptr == s.depth)) [
  | inl full ↦ rw (push_full b s (ground arith)) (tt, v, refl)
  | inr room ↦ rw (push_room b s v (ground arith)) (tt, pushed-IsValid b s v (ground arith), refl)
]

pop-StackEnds : (s : Stack) → IsValid s → StackEnds s (pop s)
pop-StackEnds s v = elim (Bool-cases (s.ptr == 0)) [
  | inl none_left ↦ rw (pop_empty s (ground arith)) (tt, v, refl)
  | inr some_left ↦
      let (b, e) = top_slot s v (ground arith) in
      rw (pop_full s b (ground arith) e) (tt, omega arith, refl)
]

module _ (code : List ℕ) (i depth : ℕ) where
  abbrev Keeps : {A : Type 0} → Go Error Vm A → Type 0
  Keeps = Runs IsTypePanic (Holds code i depth)

  on_stack-Keeps :
      {A : Type 0} (m : Go Error Stack A)
      → ((s : Stack) → IsValid s → StackEnds s (m s))
      → Keeps (on_stack m)
  on_stack-Keeps m k = record {
    ends = λ v h.
        let (e, w, d) = k v.stack h.valid in
        (
          e,
          record {
            same_code = h.same_code;
            same_ip = h.same_ip;
            valid = w;
            same_depth = d ∙ h.same_depth;
          },
        );
  }

  push-Keeps : (b : Value) → Keeps (on_stack (push b))
  push-Keeps b = on_stack-Keeps (push b) (push-StackEnds b)

  pop-Keeps : Keeps (on_stack pop)
  pop-Keeps = on_stack-Keeps pop pop-StackEnds

  pure-Keeps : {A : Type 0} (a : A) → Keeps (pure a)
  pure-Keeps a = record { ends = λ v h. (tt, h) }

  as_int-Keeps : (b : Value) → Keeps (as_int b)
  as_int-Keeps nil = record { ends = λ v h. (tt, h) }
  as_int-Keeps (int n) = record { ends = λ v h. (tt, h) }
  as_int-Keeps (byte n) = record { ends = λ v h. (tt, h) }
  as_int-Keeps (bytes n) = record { ends = λ v h. (tt, h) }

  as_byte-Keeps : (b : Value) → Keeps (as_byte b)
  as_byte-Keeps nil = record { ends = λ v h. (tt, h) }
  as_byte-Keeps (int n) = record { ends = λ v h. (tt, h) }
  as_byte-Keeps (byte n) = record { ends = λ v h. (tt, h) }
  as_byte-Keeps (bytes n) = record { ends = λ v h. (tt, h) }

  must_be_key-Keeps : (b : Value) → Keeps (must_be_key b)
  unfolding must_be_key
  must_be_key-Keeps nil = record { ends = λ v h. (tt, h) }
  must_be_key-Keeps (int n) = record { ends = λ v h. (tt, h) }
  must_be_key-Keeps (byte n) = record { ends = λ v h. (tt, h) }
  must_be_key-Keeps (bytes n) = record { ends = λ v h. (tt, h) }

  put-Keeps : (k : Key) (b : Value) → Keeps (on_state (State.put k b))
  unfolding State.put
  put-Keeps k b = record {
    ends = λ v h. (
      tt,
      record {
        same_code = h.same_code;
        same_ip = h.same_ip;
        valid = h.valid;
        same_depth = h.same_depth;
      },
    );
  }

  get-Ends : (k : Key) (s : State) → Ends IsTypePanic (State.get k s).0
  unfolding State.get
  get-Ends k s = ground arith

  get-Keeps : (k : Key) → Keeps (on_state (State.get k))
  unfolding State.get
  get-Keeps k = record { ends = λ v h. (get-Ends k v.contract_state, h) }

  operand_there :
      (v : Vm) → Holds code i depth v → 0 < i → i ≤ length code → v.ip - 1 < length v.code
  operand_there v h p q = rw (h.same_ip, h.same_code) (omega arith)

  operand_after : (v : Vm) → Holds code i depth v → 0 < i → 0 < v.ip
  operand_after v h p = rw h.same_ip p

  operand-Ends :
      (v : Vm) (b : ℕ)
      → 0 < v.ip
      → get_elem? v.code (v.ip - 1) ≡ some b
      → Ends {A = ℕ} IsTypePanic (byte_before v)
  operand-Ends v b p e = ground arith

  operand-Keeps : 0 < i → i ≤ length code → Keeps operand
  unfolding operand
  operand-Keeps p q = record {
    ends = λ v h.
        let (b, e) = get_elem?-some v.code (v.ip - 1) (operand_there v h p q) in
        (operand-Ends v b (operand_after v h p) e, h);
  }

  pack_loop-Keeps : (n : ℕ) (out : List ℕ) → Keeps (pack_loop n out)
  unfolding pack_loop
  pack_loop-Keeps zero out = pure-Keeps out
  pack_loop-Keeps (suc n) out =
      >>=-Runs _ _ _ _ pop-Keeps
        λ val. >>=-Runs _ _ _ _ (as_byte-Keeps val) λ b. pack_loop-Keeps n (set out n b)

  panic_if-Keeps : (b : Bool) → Keeps (panic_if b Panic.makeslice)
  panic_if-Keeps true = record { ends = λ v h. (tt, h) }
  panic_if-Keeps false = record { ends = λ v h. (tt, h) }

  ignore-Ends :
      (r : Result Error (Unit {0})) → Ends IsTypePanic r → Ends IsTypePanic (ignore_result r)
  ignore-Ends (ok _) h = tt
  ignore-Ends (err _) h = tt
  ignore-Ends (panic p) h = h
  ignore-Ends stuck h = h

  ignore_error-Keeps : (m : Go Error Vm (Unit {0})) → Keeps m → Keeps (ignore_error m)
  ignore_error-Keeps m k = record {
    ends = λ v h. let (e, w) = k.ends v h in (ignore-Ends (m v).0 e, w);
  }

  -- An instruction panics only on a value of the wrong type or size, given that the pushes are not
  -- the first byte.
  pub exec-Keeps :
      (inst : Instruction) → (is_push inst ≡ true → 0 < i) → i ≤ length code → Keeps (exec inst)
  unfolding exec
  exec-Keeps push_int p q = >>=-Runs _ _ _ _ (operand-Keeps (p refl) q) λ d. push-Keeps (int d)
  exec-Keeps add_int p q = >>=-Runs _ _ _ _ pop-Keeps λ a. >>=-Runs _ _ _ _ pop-Keeps λ b.
      >>=-Runs _ _ _ _ (as_int-Keeps a) λ x. >>=-Runs _ _ _ _ (as_int-Keeps b) λ y. push-Keeps _
  exec-Keeps push_bytes p q = >>=-Runs _ _ _ _ (operand-Keeps (p refl) q) λ d. push-Keeps (byte d)
  exec-Keeps pack p q = >>=-Runs _ _ _ _ pop-Keeps λ v. >>=-Runs _ _ _ _ (as_int-Keeps v) λ l.
      >>=-Runs _ _ _ _ (panic_if-Keeps (ltb max_alloc l)) λ _.
        >>=-Runs _ _ _ _ (pack_loop-Keeps l (replicate l 0))
          λ out. ignore_error-Keeps _ (push-Keeps (bytes out))
  exec-Keeps store p q = >>=-Runs _ _ _ _ pop-Keeps λ val.
      >>=-Runs _ _ _ _ pop-Keeps
        λ key. >>=-Runs _ _ _ _ (must_be_key-Keeps key) λ k. put-Keeps k val
  exec-Keeps get p q = >>=-Runs _ _ _ _ pop-Keeps λ key.
      >>=-Runs _ _ _ _ (must_be_key-Keeps key)
        λ k. >>=-Runs _ _ _ _ (get-Keeps k) λ val. push-Keeps val
  exec-Keeps other p q = pure-Keeps tt
