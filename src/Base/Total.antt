-- ===== src/Base/Total.antt =====
-- Total correctness of effectful code: from states of the invariant `I` a call ends, keeps `I`, and
-- panics only in the ways that `B` allows.
use mathlib.Core.Path.{◌≡◌, refl}
use goblockchain.Base.Outcome.{Fails, Panic, Result, ok, err, panic, stuck, Go, ◌>>=◌, bind_at}

abbrev pub Ends : {E A : Type 0} → (Panic → Type 0) → Result E A → Type 0
Ends B (ok a) = Unit
Ends B (err e) = Unit
Ends B (panic p) = B p
Ends B stuck = ⊥

module _ {E S : Type 0} (B : Panic → Type 0) (I : S → Type 0) where
  pub record Runs {A : Type 0} (m : Go E S A) : Type 0 where
    pub ends : (s : S) → I s → Ends B (m s).0 × I (m s).1

  bind-Runs :
      {A C : Type 0} (r : Result E A) (s : S) (f : A → Go E S C)
      → Ends B r × I s
      → ((a : A) → Runs (f a))
      → Ends B (bind_at r s f).0 × I (bind_at r s f).1
  bind-Runs (ok a) s f h k = (k a).ends s h.1
  bind-Runs (err e) s f h k = h
  bind-Runs (panic p) s f h k = h
  bind-Runs stuck s f h k = h

  pub >>=-Runs :
      {A C : Type 0} (m : Go E S A) (f : A → Go E S C)
      → Runs m
      → ((a : A) → Runs (f a))
      → Runs (m >>= f)
  >>=-Runs m f h k = record { ends = λ s i. bind-Runs (m s).0 (m s).1 f (h.ends s i) k }

bind_at-eq-ok :
    {E S A C : Type 0} (r : Result E A) (s : S) (f : A → Go E S C) {c : C}
    → (bind_at r s f).0 ≡ ok c
    → (a : A) × (r ≡ ok a) × (bind_at r s f ≡ f a s)
bind_at-eq-ok (ok a) s f h = (a, refl, refl)
bind_at-eq-ok (err e) s f h = cc
bind_at-eq-ok (panic p) s f h = cc
bind_at-eq-ok stuck s f h = cc

-- A sequence that succeeds: its first part does, and the rest goes on from there.
pub >>=-eq-ok :
    {E S A C : Type 0} (m : Go E S A) (f : A → Go E S C) (s : S) {c : C}
    → ((m >>= f) s).0 ≡ ok c
    → (a : A) × ((m s).0 ≡ ok a) × ((m >>= f) s ≡ f a (m s).1)
>>=-eq-ok m f s h = bind_at-eq-ok (m s).0 (m s).1 f h

-- A call that succeeds, followed by the rest.
pub >>=_ok :
    {E S A C : Type 0} (m : Go E S A) (f : A → Go E S C) (s : S) {a : A} {s' : S}
    → m s ≡ (ok a, s')
    → (m >>= f) s ≡ f a s'
>>=_ok m f s h = rw h

-- A call that does not succeed ends the sequence.
pub >>=_err :
    {E S A C : Type 0} (m : Go E S A) (f : A → Go E S C) (s : S) {e : E} {s' : S}
    → m s ≡ (err e, s')
    → (m >>= f) s ≡ (err e, s')
>>=_err m f s h = rw h

pub >>=_panic :
    {E S A C : Type 0} (m : Go E S A) (f : A → Go E S C) (s : S) {q : Panic} {s' : S}
    → m s ≡ (panic q, s')
    → (m >>= f) s ≡ (panic q, s')
>>=_panic m f s h = rw h

bind_at-Fails :
    {E S A C : Type 0} (r : Result E A) (s : S) (f : A → Go E S C)
    → Fails r
    → Fails (bind_at r s f).0 × ((bind_at r s f).1 ≡ s)
bind_at-Fails (ok a) s f h = absurd h
bind_at-Fails (err e) s f h = (tt, refl)
bind_at-Fails (panic p) s f h = (tt, refl)
bind_at-Fails stuck s f h = (tt, refl)

-- A call that fails ends the sequence in the state that it left.
pub >>=-Fails :
    {E S A C : Type 0} (m : Go E S A) (f : A → Go E S C) (s : S)
    → Fails (m s).0
    → Fails ((m >>= f) s).0 × (((m >>= f) s).1 ≡ (m s).1)
>>=-Fails m f s h = bind_at-Fails (m s).0 (m s).1 f h
