-- ===== src/Server/Peers.antt =====
-- `Peers` of server/server.go. The lock is left out; `Slice` and `String` go over the map in the order
-- of the ids, which `sort.Strings` makes.
pub mod Sorted
use goblockchain.Base.{
  ℕ, Bool, true, false, List, [], ◌∷◌, ◌++◌, Option, none, some, if◌then◌else◌, ltb, ◌==◌, length,
  map, bytes_eq, Result, ok, err, panic, stuck, Panic,
}
use goblockchain.Base.Map.{Map, lookup, insert}
use goblockchain.Network.Rpc.{Pipe, pipe_string}

abbrev pub Peers : Type 0
Peers = Map (List ℕ) Pipe

abbrev pub new_peers : Peers
new_peers = []

unfoldable pub add : List ℕ → Pipe → Peers → Peers
add id pipe p = insert id pipe p

unfoldable pub get : List ℕ → Peers → Option Pipe
get id p = lookup id p

unfoldable pub len : Peers → ℕ
len p = length p

-- The order of strings in Go: byte by byte, and a prefix first.
abbrev pub bytes_leb : List ℕ → List ℕ → Bool
bytes_leb [] ys = true
bytes_leb (x ∷ xs) [] = false
bytes_leb (x ∷ xs) (y ∷ ys) =
    let rest = bytes_leb xs ys in if ltb x y then true else (if x == y then rest else false)

abbrev pub insert_sorted : List ℕ → List (List ℕ) → List (List ℕ)
insert_sorted k [] = k ∷ []
insert_sorted k (j ∷ keys) =
    let rest = insert_sorted k keys in if bytes_leb k j then k ∷ j ∷ keys else j ∷ rest

-- `sort.Strings`
abbrev pub sort_strings : List (List ℕ) → List (List ℕ)
sort_strings [] = []
sort_strings (k ∷ keys) = insert_sorted k (sort_strings keys)

abbrev pub ids : Peers → List (List ℕ)
ids p = map (λ e. e.0) p

-- `p.pipes[k]` for each of the ids; a missing entry is the nil interface.
abbrev pub pipes_at : List (List ℕ) → Peers → List (Option Pipe)
pipes_at [] p = []
pipes_at (k ∷ keys) p = lookup k p ∷ pipes_at keys p

unfoldable pub slice : Peers → List (Option Pipe)
slice p = pipes_at (sort_strings (ids p)) p

-- The entries of `String`: an id, a colon, and the text of its pipe.
abbrev pub entries : List (List ℕ) → Peers → Result ⊥ (List (List ℕ))
unfolding pipe_string
entries [] p = ok []
entries (k ∷ keys) p = entry k (lookup k p) (entries keys p)
  where
    entry : List ℕ → Option Pipe → Result ⊥ (List (List ℕ)) → Result ⊥ (List (List ℕ))
    entry k none r = panic Panic.nil_dereference
    entry k (some pipe) (ok texts) = ok ((k ++ (58 ∷ []) ++ pipe_string pipe) ∷ texts)
    entry k (some pipe) r = r

-- `strings.Join` with " , ".
abbrev pub join : List (List ℕ) → List ℕ
join [] = []
join (s ∷ []) = s
join (s ∷ t ∷ texts) = s ++ (32 ∷ 44 ∷ 32 ∷ []) ++ join (t ∷ texts)

unfoldable pub to_string : Peers → Result ⊥ (List ℕ)
unfolding entries
to_string p = elim (entries (sort_strings (ids p)) p) [
  | ok texts ↦ ok (join texts)
  | err e ↦ err e
  | panic q ↦ panic q
  | stuck ↦ stuck
]
