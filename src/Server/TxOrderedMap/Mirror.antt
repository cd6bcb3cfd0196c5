-- ===== src/Server/TxOrderedMap/Mirror.antt =====
-- The two halves of a `TxOrderedMap` (server/txpool.go) agree: the map finds exactly the transactions
-- of the list, and no two of these have the same hash.
use goblockchain.Base.{
  ◌≡◌, refl, sym, ap, ◌∙◌, false, Option, none, some, List, [], ◌∷◌, ◌++◌, ok, arith, bytes_eq,
  bytes_beq, bytes_beq_iff, if◌then◌else◌, Bool-cases, Option-cases, inl, inr,
}
use goblockchain.Base.Map.{lookup, insert, erase}
use goblockchain.Base.MapLaws.{lookup-insert, lookup-erase}
use goblockchain.Types.Hash.{Hash}
use goblockchain.Types.GoList
use goblockchain.Types.GoList.Laws.{erase_first, delete_lem}
use goblockchain.Core.Data.{Transaction, transaction_eq, deep_equal, deep_equal_iff}
use goblockchain.Core.Platform.{Platform}
use goblockchain.Core.Transaction.{tx_hash}
use goblockchain.Server.TxOrderedMap.{TxOrderedMap, add, remove}

-- The first transaction of the list with this hash.
abbrev pub find_tx : Hash → List Transaction → Option Transaction
find_tx h [] = none
find_tx h (t ∷ txns) = if bytes_beq t.hash h then some t else find_tx h txns

-- No two transactions of the list have the same hash.
abbrev pub Distinct : List Transaction → Type 0
Distinct [] = Unit
Distinct (t ∷ txns) = (find_tx t.hash txns ≡ none) × Distinct txns

pub record Mirrors (tm : TxOrderedMap) : Type 0 where
  pub agrees : (h : Hash) → lookup h tm.by_hash ≡ find_tx h tm.txns
  pub distinct : Distinct tm.txns

find_tx-append :
    (h : Hash) (txns : List Transaction) (t : Transaction)
    → find_tx t.hash txns ≡ none
    → find_tx h (txns ++ (t ∷ [])) ≡ (if bytes_beq t.hash h then some t else find_tx h txns)
find_tx-append h [] t n = refl
find_tx-append h (u ∷ txns) t n = ground (
  arith,
  bytes_beq_iff u.hash h,
  bytes_beq_iff t.hash h,
  bytes_beq_iff u.hash t.hash,
  find_tx-append h txns t,
)

Distinct-append :
    (txns : List Transaction) (t : Transaction)
    → find_tx t.hash txns ≡ none
    → Distinct txns
    → Distinct (txns ++ (t ∷ []))
Distinct-append [] t n d = (refl, tt)
Distinct-append (u ∷ txns) t n (d, ds) =
    let later : find_tx t.hash txns ≡ none = ground arith in
    (
      ground (
        arith,
        find_tx-append u.hash txns t later,
        bytes_beq_iff u.hash t.hash,
        bytes_beq_iff t.hash u.hash,
      ),
      Distinct-append txns t later ds,
    )

-- What `Add` leaves behind for a transaction with the hash `h`.
abbrev pub added : Hash → Transaction → TxOrderedMap → TxOrderedMap
added h t tm = record { by_hash = insert h t tm.by_hash; txns = tm.txns ++ (t ∷ []) }

pub add_lem :
    (p : Platform) (t u : Transaction) (h : Hash) (tm : TxOrderedMap)
    → tx_hash p t ≡ (ok h, u)
    → add p t tm ≡ (ok u, added h u tm)
unfolding add GoList.append
add_lem p t u h tm e = rw e

pub added-Mirrors :
    (h : Hash) (t : Transaction) (tm : TxOrderedMap)
    → t.hash ≡ h
    → find_tx h tm.txns ≡ none
    → Mirrors tm
    → Mirrors (added h t tm)
added-Mirrors h t tm e n m =
    let fresh : find_tx t.hash tm.txns ≡ none = rw e n in
    record {
      agrees = λ k.
          ground
            (arith, lookup-insert h k t tm.by_hash, find_tx-append k tm.txns t fresh, m.agrees k);
      distinct = Distinct-append tm.txns t fresh m.distinct;
    }

differ : (u val : Transaction) → bytes_beq u.hash val.hash ≡ false → deep_equal u val ≡ false
differ u val e = ground (arith, deep_equal_iff u val, bytes_beq_iff u.hash val.hash)

find_tx-erase_first :
    (h : Hash) (txns : List Transaction) (val : Transaction)
    → find_tx val.hash txns ≡ some val
    → Distinct txns
    → find_tx h (erase_first val txns) ≡ (if bytes_beq val.hash h then none else find_tx h txns)
find_tx-erase_first h [] val f d = absurd (ground arith)
find_tx-erase_first h (u ∷ txns) val f (d, ds) = elim (Bool-cases (bytes_beq u.hash val.hash)) [
  | inl e ↦
      let same : u ≡ val = ground arith in
      rw ((deep_equal_iff u val).1 same)
        (ground (arith, ap (λ (t : Transaction). t.hash) same, bytes_beq_iff u.hash h))
  | inr e ↦ rw (differ u val e) (
      ground (
        arith,
        find_tx-erase_first h txns val,
        bytes_beq_iff u.hash h,
        bytes_beq_iff val.hash h,
        bytes_beq_iff u.hash val.hash,
      ))
]

Distinct-erase_first :
    (txns : List Transaction) (val : Transaction)
    → find_tx val.hash txns ≡ some val
    → Distinct txns
    → Distinct (erase_first val txns)
Distinct-erase_first [] val f d = tt
Distinct-erase_first (u ∷ txns) val f (d, ds) = elim (Bool-cases (bytes_beq u.hash val.hash)) [
  | inl e ↦ let same : u ≡ val = ground arith in rw ((deep_equal_iff u val).1 same) ds
  | inr e ↦
      let later : find_tx val.hash txns ≡ some val = ground arith in
      rw (differ u val e) (
        ground (arith, find_tx-erase_first u.hash txns val later ds),
        Distinct-erase_first txns val later ds,
      )
]

pub remove_entry :
    (h : Hash) (tm : TxOrderedMap) (val : Transaction)
    → lookup h tm.by_hash ≡ some val
    → remove h tm ≡ record { by_hash = erase h tm.by_hash; txns = erase_first val tm.txns }
unfolding remove
remove_entry h tm val e = rw (remove, e, delete_lem val tm.txns)

pub remove_missing : (h : Hash) (tm : TxOrderedMap) → lookup h tm.by_hash ≡ none → remove h tm ≡ tm
unfolding remove
remove_missing h tm e = rw (remove, e)

find_tx-hash :
    (h : Hash) (txns : List Transaction) (val : Transaction)
    → find_tx h txns ≡ some val
    → val.hash ≡ h
find_tx-hash h [] val e = absurd (ground arith)
find_tx-hash h (u ∷ txns) val e = ground (arith, bytes_beq_iff u.hash h, find_tx-hash h txns val)

-- `Remove` takes out the one entry with this hash, from the map and from the list.
pub remove-Mirrors :
    (h k : Hash) (tm : TxOrderedMap)
    → Mirrors tm
    → Mirrors (remove h tm)
      × (lookup k (remove h tm).by_hash ≡ (if bytes_beq h k then none else lookup k tm.by_hash))
remove-Mirrors h k tm m = elim (Option-cases (lookup h tm.by_hash)) [
  | inl e ↦ rw (remove_missing h tm e) (m, ground (arith, bytes_beq_iff h k))
  | inr (val, e) ↦
      let found : find_tx h tm.txns ≡ some val = sym (m.agrees h) ∙ e in
      let same : val.hash ≡ h = find_tx-hash h tm.txns val found in
      let at_val : find_tx val.hash tm.txns ≡ some val = ap (λ i. find_tx i tm.txns) same ∙ found in
      rw (remove_entry h tm val e) (
        record {
          agrees = λ i. ground (
            arith,
            lookup-erase h i tm.by_hash,
            find_tx-erase_first i tm.txns val at_val m.distinct,
            m.agrees i,
          );
          distinct = Distinct-erase_first tm.txns val at_val m.distinct;
        },
        lookup-erase h k tm.by_hash,
      )
]
