-- ===== src/Protocol/Format.antt =====
-- A concrete way to write values as bytes, which stands in for gob in the tests: numbers, pairs and
-- lists, each of which tells where it ends.
use goblockchain.Base.{
  ℕ, zero, suc, ◌≡◌, refl, ap, sym, ◌∙◌, Option, none, some, List, [], ◌∷◌, ◌++◌, Option-cases,
  arith, inl, inr,
}
use mathlib.Core.List.{append_assoc, append-nil}
use goblockchain.Core.Coding.{Codec}
use goblockchain.Protocol.Payload.{ReadsBack}

abbrev pub then_read : {A B : Type 0} → Option A → (A → Option B) → Option B
then_read none f = none
then_read (some a) f = f a

pub record Format (W : Type 0) : Type 0 where
  pub write : W → List ℕ
  pub read : List ℕ → Option (W × List ℕ)
  pub law : (w : W) (rest : List ℕ) → read (write w ++ rest) ≡ some (w, rest)

abbrev read_number : List ℕ → Option (ℕ × List ℕ)
read_number [] = none
read_number (n ∷ rest) = some (n, rest)

abbrev pub number : Format ℕ
number = record { write = λ n. n ∷ []; read = read_number; law = λ n rest. refl }

module _ {A : Type 0} (f : Format A) where
  abbrev pub pair_with : {B : Type 0} → Format B → Format (A × B)
  pair_with g = record {
    write = λ w. f.write w.0 ++ g.write w.1;
    read = λ r. then_read (f.read r) (λ x. then_read (g.read x.1) (λ y. some ((x.0, y.0), y.1)));
    law = λ w rest.
        ap (λ r. then_read (f.read r) (λ x. then_read (g.read x.1) (λ y. some ((x.0, y.0), y.1))))
          (append_assoc (f.write w.0) (g.write w.1) rest)
        ∙ ap (λ o. then_read o (λ x. then_read (g.read x.1) (λ y. some ((x.0, y.0), y.1))))
            (f.law w.0 (g.write w.1 ++ rest))
        ∙ ap (λ o. then_read o (λ y. some ((w.0, y.0), y.1))) (g.law w.1 rest);
  }

  abbrev write_all : List A → List ℕ
  write_all [] = []
  write_all (a ∷ xs) = f.write a ++ write_all xs

  abbrev count : List A → ℕ
  count [] = 0
  count (a ∷ xs) = suc (count xs)

  abbrev push_read : A → Option (List A × List ℕ) → Option (List A × List ℕ)
  push_read a none = none
  push_read a (some (xs, r)) = some (a ∷ xs, r)

  abbrev read_all : ℕ → List ℕ → Option (List A × List ℕ)
  read_all zero r = some ([], r)
  read_all (suc n) r = then_read (f.read r) (λ x. push_read x.0 (read_all n x.1))

  abbrev read_list : List ℕ → Option (List A × List ℕ)
  read_list [] = none
  read_list (n ∷ r) = read_all n r

  pub read_all_lem :
      (xs : List A) (rest : List ℕ) → read_all (count xs) (write_all xs ++ rest) ≡ some (xs, rest)
  read_all_lem [] rest = refl
  read_all_lem (a ∷ xs) rest =
      ap (λ r. then_read (f.read r) (λ x. push_read x.0 (read_all (count xs) x.1)))
        (append_assoc (f.write a) (write_all xs) rest)
      ∙ ap (λ o. then_read o (λ x. push_read x.0 (read_all (count xs) x.1)))
          (f.law a (write_all xs ++ rest))
      ∙ ap (push_read a) (read_all_lem xs rest)

  abbrev pub list_of : Format (List A)
  list_of = record { write = λ xs. count xs ∷ write_all xs; read = read_list; law = read_all_lem }

module _ {A W : Type 0} (f : Format W) (take_apart : A → W) (build : ℕ → W → A) where
  abbrev decode_with : ℕ → List ℕ → Option A
  decode_with addr [] = none
  decode_with addr (x ∷ out) = then_read (f.read out) (λ w. some (build addr w.0))

  -- A codec that writes a mark and then the parts of the value.
  abbrev pub codec_of : Codec A
  codec_of = record { encode = λ a. some (9 ∷ f.write (take_apart a)); decode = decode_with }

  pub codec_of-ReadsBack :
      (Whole : A → Type 0) (arrives : ℕ → A → A)
      → ((addr : ℕ) (a : A) → Whole a → build addr (take_apart a) ≡ arrives addr a)
      → ReadsBack codec_of Whole arrives
  codec_of-ReadsBack Whole arrives same = record {
    reads_back = λ a w. (
      9,
      f.write (take_apart a),
      refl,
      λ addr.
          ap (λ r. then_read (f.read r) (λ x. some (build addr x.0)))
            (sym (append-nil (f.write (take_apart a))))
          ∙ ap (λ o. then_read o (λ x. some (build addr x.0))) (f.law (take_apart a) [])
          ∙ ap some (same addr a w),
    );
  }

  pub codec_of-decodes :
      (addr : ℕ) (d : List ℕ) (a : A)
      → codec_of.decode addr d ≡ some a
      → (w : W) × (a ≡ build addr w)
  codec_of-decodes addr [] a e = absurd (ground (arith, e))
  codec_of-decodes addr (x ∷ out) a e = elim (Option-cases (f.read out)) [
    | inl n ↦ absurd (ground (arith, e, n))
    | inr (r, s) ↦ (r.0, ground (arith, e, s))
  ]
