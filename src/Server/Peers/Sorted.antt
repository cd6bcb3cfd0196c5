-- ===== src/Server/Peers/Sorted.antt =====
-- The order in which `Slice` of server/server.go gives the pipes.
use goblockchain.Base.{
  ℕ, ◌≡◌, refl, inl, inr, true, false, List, [], ◌∷◌, Option, some, All, Bool-cases, arith,
  bytes_eq, bytes_beq, bytes_beq_iff,
}
use goblockchain.Base.Map.{lookup}
use goblockchain.Network.Rpc.{Pipe}
use goblockchain.Server.Peers.{Peers, bytes_leb, insert_sorted, sort_strings, ids, pipes_at, slice}
use mathlib.Core.List.Permᴰ
use mathlib.Core.List.{Permᴰ}

-- Each string is at most the one after it.
abbrev pub Ascending : List (List ℕ) → Type 0
Ascending [] = Unit
Ascending (a ∷ []) = Unit
Ascending (a ∷ b ∷ keys) = (bytes_leb a b ≡ true) × Ascending (b ∷ keys)

bytes_leb_total : (a b : List ℕ) → bytes_leb a b ≡ false → bytes_leb b a ≡ true
bytes_leb_total [] ys e = absurd (ground (arith, e))
bytes_leb_total (x ∷ xs) [] e = refl
bytes_leb_total (x ∷ xs) (y ∷ ys) e = ground (arith, e, bytes_leb_total xs ys)

insert_sorted-Ascending :
    (k : List ℕ) (keys : List (List ℕ)) → Ascending keys → Ascending (insert_sorted k keys)
insert_sorted-Ascending k [] a = tt
insert_sorted-Ascending k (j ∷ []) a = elim (Bool-cases (bytes_leb k j)) [
  | inl e ↦ rw e (e, tt)
  | inr e ↦ rw e (bytes_leb_total k j e, tt)
]
insert_sorted-Ascending k (j ∷ i ∷ keys) (le, a) = elim (Bool-cases (bytes_leb k j)) [
  | inl e ↦ rw e (e, (le, a))
  | inr e ↦ elim (Bool-cases (bytes_leb k i)) [
    | inl f ↦ rw (e, f) (bytes_leb_total k j e, (f, a))
    | inr f ↦ rw (e, f) (le, rw f at (insert_sorted-Ascending k (i ∷ keys) a))
  ]
]

sort_strings-Ascending : (keys : List (List ℕ)) → Ascending (sort_strings keys)
sort_strings-Ascending [] = tt
sort_strings-Ascending (k ∷ keys) =
    insert_sorted-Ascending k (sort_strings keys) (sort_strings-Ascending keys)

insert_sorted-Perm : (k : List ℕ) (keys : List (List ℕ)) → Permᴰ (insert_sorted k keys) (k ∷ keys)
insert_sorted-Perm k [] = Permᴰ.refl (k ∷ [])
insert_sorted-Perm k (j ∷ keys) = elim (Bool-cases (bytes_leb k j)) [
  | inl e ↦ rw e (Permᴰ.refl (k ∷ j ∷ keys))
  | inr e ↦ rw e (Permᴰ.trans (Permᴰ.cons refl (insert_sorted-Perm k keys)) (Permᴰ.swap refl refl))
]

sort_strings-Perm : (keys : List (List ℕ)) → Permᴰ (sort_strings keys) keys
sort_strings-Perm [] = Permᴰ.nil
sort_strings-Perm (k ∷ keys) =
    Permᴰ.trans (insert_sorted-Perm k (sort_strings keys))
      (Permᴰ.cons refl (sort_strings-Perm keys))

-- There is a pipe for the id.
abbrev Known : Peers → List ℕ → Type 0
Known p k = (v : Pipe) × (lookup k p ≡ some v)

insert_sorted-All :
    (p : Peers) (k : List ℕ) (keys : List (List ℕ))
    → Known p k
    → All (Known p) keys
    → All (Known p) (insert_sorted k keys)
insert_sorted-All p k [] f a = (f, tt)
insert_sorted-All p k (j ∷ keys) f (g, a) = elim (Bool-cases (bytes_leb k j)) [
  | inl e ↦ rw e (f, (g, a))
  | inr e ↦ rw e (g, insert_sorted-All p k keys f a)
]

sort_strings-All :
    (p : Peers) (keys : List (List ℕ)) → All (Known p) keys → All (Known p) (sort_strings keys)
sort_strings-All p [] a = tt
sort_strings-All p (k ∷ keys) (f, a) =
    insert_sorted-All p k (sort_strings keys) f (sort_strings-All p keys a)

module _ (j : List ℕ) (v : Pipe) (p : Peers) where
  cons-Known : (k : List ℕ) → Known p k → Known ((j, v) ∷ p) k
  cons-Known k (w, e) = elim (Bool-cases (bytes_beq j k)) [
    | inl q ↦ (v, rw q refl)
    | inr q ↦ (w, rw q e)
  ]

  cons-All : (keys : List (List ℕ)) → All (Known p) keys → All (Known ((j, v) ∷ p)) keys
  cons-All [] a = tt
  cons-All (k ∷ keys) (f, a) = (cons-Known k f, cons-All keys a)

ids-All : (p : Peers) → All (Known p) (ids p)
ids-All [] = tt
ids-All ((j, v) ∷ p) =
    ((v, rw ((bytes_beq_iff j j).1 refl) refl), cons-All j v p (ids p) (ids-All p))

-- The pipes that the ids have, one for each and none of them nil.
abbrev pub PipesOf : Peers → List (List ℕ) → List (Option Pipe) → Type 0
PipesOf p [] [] = Unit
PipesOf p (k ∷ keys) (some v ∷ pipes) = (lookup k p ≡ some v) × PipesOf p keys pipes
PipesOf p _ _ = ⊥

pipes_at-PipesOf :
    (p : Peers) (keys : List (List ℕ)) → All (Known p) keys → PipesOf p keys (pipes_at keys p)
pipes_at-PipesOf p [] a = tt
pipes_at-PipesOf p (k ∷ keys) ((v, e), a) = rw e (e, pipes_at-PipesOf p keys a)

-- `Slice` gives a pipe for each id of the map, none of them nil, in ascending order of the ids.
pub slice-PipesOf :
    (p : Peers)
    → (keys : List (List ℕ)) × Ascending keys × Permᴰ keys (ids p) × PipesOf p keys (slice p)
unfolding slice
slice-PipesOf p =
    let keys = sort_strings (ids p) in
    (
      keys,
      sort_strings-Ascending (ids p),
      sort_strings-Perm (ids p),
      pipes_at-PipesOf p keys (sort_strings-All p (ids p) (ids-All p)),
    )
