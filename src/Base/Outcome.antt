-- ===== src/Base/Outcome.antt =====
-- Go's outcomes: a value, an error that is returned, or a panic. A function with effects takes the
-- state and gives it back whatever the outcome, since what was written stays written.
use mathlib.Core.Path.{◌≡◌, refl}
use mathlib.Core.Logic.{◌⊎◌, inl, inr}
use mathlib.Core.Bool.{Bool, true, false}
use mathlib.Core.Option.{Option, none, some}

pub data Panic : Type 0 where
  index_out_of_range type_assertion makeslice nil_dereference explicit : Panic

pub data Result (E A : Type 0) : Type 0 where
  ok : A → Result E A
  err : E → Result E A
  panic : Panic → Result E A
  -- no outcome of Go: the fuel of a loop ran out
  stuck : Result E A

abbrev pub Go : Type 0 → Type 0 → Type 0 → Type 0
Go E S A = S → Result E A × S

-- A call whose returned error nobody looks at.
abbrev pub ignore_result : {E : Type 0} → Result E (Unit {0}) → Result E (Unit {0})
ignore_result (ok _) = ok tt
ignore_result (err _) = ok tt
ignore_result (panic p) = panic p
ignore_result stuck = stuck

module _ {E S : Type 0} where
  abbrev pub pure : {A : Type 0} → A → Go E S A
  pure a s = (ok a, s)

  abbrev pub throw : {A : Type 0} → E → Go E S A
  throw e s = (err e, s)

  abbrev pub panic_with : {A : Type 0} → Panic → Go E S A
  panic_with p s = (panic p, s)

  abbrev pub gets : {A : Type 0} → (S → A) → Go E S A
  gets f s = (ok (f s), s)

  abbrev pub modify : (S → S) → Go E S (Unit {0})
  modify f s = (ok tt, f s)

  abbrev pub or_panic : {A : Type 0} → Option A → Panic → Go E S A
  or_panic none p s = (panic p, s)
  or_panic (some a) p s = (ok a, s)

  abbrev pub or_throw : {A : Type 0} → Option A → E → Go E S A
  or_throw none e s = (err e, s)
  or_throw (some a) e s = (ok a, s)

  abbrev pub throw_if : Bool → E → Go E S (Unit {0})
  throw_if true e s = (err e, s)
  throw_if false e s = (ok tt, s)

  abbrev pub panic_if : Bool → Panic → Go E S (Unit {0})
  panic_if true p s = (panic p, s)
  panic_if false p s = (ok tt, s)

  -- What follows a call, on each of its outcomes.
  abbrev pub bind_at : {A B : Type 0} → Result E A → S → (A → Go E S B) → Result E B × S
  bind_at (ok a) s f = f a s
  bind_at (err e) s f = (err e, s)
  bind_at (panic p) s f = (panic p, s)
  bind_at stuck s f = (stuck, s)

  abbrev pub ignore_error : Go E S (Unit {0}) → Go E S (Unit {0})
  ignore_error m s = (ignore_result (m s).0, (m s).1)

infixl 5 ◌>>=◌ ◌>>◌
abbrev pub ◌>>=◌ : {E S A B : Type 0} → Go E S A → (A → Go E S B) → Go E S B
◌>>=◌ m f s = bind_at (m s).0 (m s).1 f

abbrev pub ◌>>◌ : {E S A B : Type 0} → Go E S A → Go E S B → Go E S B
m >> k = m >>= λ _. k

-- A method called on a part of the caller's state.
abbrev pub on_part : {E S T A : Type 0} → (S → T) → (S → T → S) → Go E T A → Go E S A
on_part get put m s = ((m (get s)).0, put s (m (get s)).1)

-- The caller wraps the error of a call (`fmt.Errorf` with `%w`).
abbrev pub wrap_result : {E F A : Type 0} → (E → F) → Result E A → Result F A
wrap_result f (ok a) = ok a
wrap_result f (err e) = err (f e)
wrap_result f (panic p) = panic p
wrap_result f stuck = stuck

-- The outcomes in which no value comes back.
abbrev pub Fails : {E A : Type 0} → Result E A → Type 0
Fails (ok a) = ⊥
Fails (err e) = Unit
Fails (panic p) = Unit
Fails stuck = Unit

pub Result-cases : {E A : Type 0} (r : Result E A) → ((a : A) × (r ≡ ok a)) ⊎ Fails r
Result-cases (ok a) = inl (a, refl)
Result-cases (err e) = inr tt
Result-cases (panic p) = inr tt
Result-cases stuck = inr tt

pub Fails-not_ok : {E A : Type 0} (r : Result E A) {a : A} → r ≡ ok a → ¬ Fails r
Fails-not_ok (ok a) e f = f
Fails-not_ok (err x) e f = cc
Fails-not_ok (panic p) e f = cc
Fails-not_ok stuck e f = cc
