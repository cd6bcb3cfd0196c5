-- ===== src/Vm/Machine/Run.antt =====
-- The loop of `Run` in vm/vm.go: it ends, at the end of the code if there is no error, and only a
-- code that is empty or begins with a push runs out of the slice.
use mathlib.Core.Path.{subst}
use goblockchain.Base.{
  ℕ, ◌⊎◌, zero, suc, ◌+◌, ◌≤◌, ◌<◌, ◌≡◌, ◌≢◌, ◌↔◌, refl, Bool, true, false, none, some, List, [],
  ◌∷◌, Result, ok, err, panic, stuck, Panic, leb, length, get_elem?, arith, Ends, Bool-cases, inl,
  inr, get_elem?-some, bind_at, modify, Go, sym, ap, leb→le,
}
use goblockchain.Vm.Value.{Error}
use goblockchain.Vm.Stack.Laws.{IsValid}
use goblockchain.Vm.Machine.{
  Vm, instruction, exec, round, continue, run_loop, run, operand, Instruction,
}
use goblockchain.Vm.Machine.Safety.{Holds, IsTypePanic, is_push, exec-Keeps}

-- A round that returns has moved on by one byte.
abbrev RoundEnds : List ℕ → ℕ → ℕ → Result Error (Unit {0}) × Vm → Type 0
RoundEnds code i depth (ok _, v) = Holds code (suc i) depth v
RoundEnds code i depth (err _, v) = IsValid v.stack
RoundEnds code i depth (panic p, v) = IsTypePanic p × IsValid v.stack
RoundEnds code i depth (stuck, v) = ⊥

-- How a run may end: at the end of the code, by an error, or by a panic on a value's type.
abbrev pub RunEnds : List ℕ → Result Error (Unit {0}) × Vm → Type 0
RunEnds code (ok _, v) = (v.ip ≡ length code) × IsValid v.stack
RunEnds code (err _, v) = IsValid v.stack
RunEnds code (panic p, v) = IsTypePanic p × IsValid v.stack
RunEnds code (stuck, v) = ⊥

-- `Run` indexes the slice out of range on an empty code, and on one that begins with a push.
abbrev pub starts_badly : List ℕ → Bool
starts_badly [] = true
starts_badly (b ∷ _) = is_push (instruction b)

after_exec :
    (code : List ℕ) (i depth : ℕ) (r : Result Error (Unit {0})) (v : Vm)
    → Ends IsTypePanic r × Holds code i depth v
    → RoundEnds code i depth (bind_at r v (λ _. modify (λ v. record v { ip = v.ip + 1 })))
after_exec code i depth (ok _) v (_, h) = record {
  same_code = h.same_code;
  same_ip = omega (arith, h.same_ip);
  valid = h.valid;
  same_depth = h.same_depth;
}
after_exec code i depth (err _) v (_, h) = h.valid
after_exec code i depth (panic p) v (e, h) = (e, h.valid)
after_exec code i depth stuck v (e, h) = e

round_lem :
    (code : List ℕ) (i depth : ℕ) (b : ℕ) (v : Vm)
    → get_elem? v.code v.ip ≡ some b
    → (is_push (instruction b) ≡ true → 0 < i)
    → i < length code
    → Holds code i depth v
    → RoundEnds code i depth (round v)
unfolding round
round_lem code i depth b v e p q h = rw e (
    after_exec code i depth (exec (instruction b) v).0 (exec (instruction b) v).1
      ((exec-Keeps code i depth (instruction b) p (omega arith)).ends v h))

pub continue_done :
    (v : Vm) (next : Go Error Vm (Unit {0}))
    → leb (length v.code) v.ip ≡ true
    → continue (ok tt, v) next ≡ (ok tt, v)
continue_done v next e = rw (e, continue)

pub continue_more :
    (v : Vm) (next : Go Error Vm (Unit {0}))
    → leb (length v.code) v.ip ≡ false
    → continue (ok tt, v) next ≡ next v
continue_more v next e = rw (e, continue)

loop_step :
    (code : List ℕ) (fuel i depth : ℕ) (r : Result Error (Unit {0}) × Vm)
    → RoundEnds code i depth r
    → ((v : Vm) → Holds code (suc i) depth v → suc i < length code → RunEnds code (run_loop fuel v))
    → i < length code
    → RunEnds code (continue r (run_loop fuel))
loop_step code fuel i depth (ok _, v) h k q = elim (Bool-cases (leb (length v.code) v.ip)) [
  | inl done ↦ subst (RunEnds code) (sym (continue_done v (run_loop fuel) done)) (finish done)
  | inr more ↦
      subst (RunEnds code) (sym (continue_more v (run_loop fuel) more)) (k v h (further more))
]
  where
    same_length : length v.code ≡ length code
    same_length = ap length h.same_code

    finish : leb (length v.code) v.ip ≡ true → (v.ip ≡ length code) × IsValid v.stack
    finish e = (omega (arith, leb→le _ _ e, same_length, h.same_ip), h.valid)

    further : leb (length v.code) v.ip ≡ false → suc i < length code
    further e = ground (arith, e, same_length, h.same_ip)
loop_step code fuel i depth (err _, v) h k q = h
loop_step code fuel i depth (panic p, v) h k q = h
loop_step code fuel i depth (stuck, v) h k q = h

loop_ends :
    (code : List ℕ) (fuel i depth : ℕ) (v : Vm)
    → starts_badly code ≡ false
    → i < length code
    → length code ≤ i + fuel
    → Holds code i depth v
    → RunEnds code (run_loop fuel v)
unfolding run_loop
loop_ends code zero i depth v s q f h = absurd (omega arith)
loop_ends code (suc fuel) i depth v s q f h =
    loop_step code fuel i depth (round v) (entered v h)
      (λ w k r. loop_ends code fuel (suc i) depth w s r (omega arith) k) q
  where
    no_push_first :
        (code : List ℕ) (i b : ℕ)
        → starts_badly code ≡ false
        → get_elem? code i ≡ some b
        → is_push (instruction b) ≡ true
        → 0 < i
    no_push_first (c ∷ code) zero b s e p = ground arith
    no_push_first (c ∷ code) (suc i) b s e p = omega arith
    no_push_first [] i b s e p = ground arith

    entered : (v : Vm) → Holds code i depth v → RoundEnds code i depth (round v)
    entered v h =
        let (b, e) = get_elem?-some code i q in
        let at_ip : get_elem? v.code v.ip ≡ some b = rw (h.same_code, h.same_ip) e in
        round_lem code i depth b v at_ip (no_push_first code i b s e) q h

-- On a valid stack, a code that is not empty and does not begin with a push instruction runs to an
-- end: past its last byte, or to an error, or to a panic by a type assertion or by `make`. It never
-- indexes out of range, and the stack stays valid.
pub run_ends :
    (v : Vm) → IsValid v.stack → v.ip ≡ 0 → starts_badly v.code ≡ false → RunEnds v.code (run v)
unfolding run
run_ends v h z s =
    loop_ends v.code (suc (length v.code)) 0 v.stack.depth v s (nonempty v.code s) (omega arith)
      (record { same_code = refl; same_ip = z; valid = h; same_depth = refl })
  where
    nonempty : (code : List ℕ) → starts_badly code ≡ false → 0 < length code
    nonempty [] s = ground arith
    nonempty (b ∷ code) s = omega arith

not_index :
    (code : List ℕ) (r : Result Error (Unit {0}) × Vm)
    → RunEnds code r
    → r.0 ≢ panic Panic.index_out_of_range
not_index code (ok _, v) h e = cc
not_index code (err _, v) h e = cc
not_index code (panic Panic.index_out_of_range, v) h e = h.0
not_index code (panic Panic.type_assertion, v) h e = cc
not_index code (panic Panic.makeslice, v) h e = cc
not_index code (panic Panic.nil_dereference, v) h e = cc
not_index code (panic Panic.explicit, v) h e = cc
not_index code (stuck, v) h e = h

push_first :
    (inst : Instruction) (v : Vm)
    → is_push inst ≡ true
    → v.ip ≡ 0
    → exec inst v ≡ (panic Panic.index_out_of_range, v)
unfolding exec operand
push_first inst v p z = ground arith

first_byte :
    (code : List ℕ)
    → starts_badly code ≡ true
    → (get_elem? code 0 ≡ none)
      ⊎ ((b : ℕ) × (get_elem? code 0 ≡ some b) × (is_push (instruction b) ≡ true))
first_byte [] s = inl refl
first_byte (b ∷ _) s = inr (b, refl, s)

bad_round :
    (v : Vm) → v.ip ≡ 0 → starts_badly v.code ≡ true → round v ≡ (panic Panic.index_out_of_range, v)
unfolding round
bad_round v z s = elim (first_byte v.code s) [
  | inl e ↦ let at_ip : get_elem? v.code v.ip ≡ none = rw z e in rw at_ip
  | inr (b, e, p) ↦
      let at_ip : get_elem? v.code v.ip ≡ some b = rw z e in
      rw (at_ip, push_first (instruction b) v p z)
]

-- On a valid stack, a run from the first byte indexes its code out of range exactly when the code is
-- empty or begins with a push instruction.
pub run_index_iff :
    (v : Vm)
    → IsValid v.stack
    → v.ip ≡ 0
    → ((run v).0 ≡ panic Panic.index_out_of_range) ↔ (starts_badly v.code ≡ true)
run_index_iff v h z = (to, from)
  where
    to : (run v).0 ≡ panic Panic.index_out_of_range → starts_badly v.code ≡ true
    to e = elim (Bool-cases (starts_badly v.code)) [
      | inl s ↦ s
      | inr s ↦ absurd (not_index v.code (run v) (run_ends v h z s) e)
    ]

    from : starts_badly v.code ≡ true → (run v).0 ≡ panic Panic.index_out_of_range
    from s = unfold run run_loop in rw (bad_round v z s)
