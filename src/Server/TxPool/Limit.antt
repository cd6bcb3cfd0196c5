-- ===== src/Server/TxPool/Limit.antt =====
-- How long `all` of `TxPool` (server/txpool.go) becomes: `Add` makes room in it when it has exactly
-- `max` transactions.
use goblockchain.Base.{
  ◌+◌, ◌≤◌, ◌<◌, ◌≡◌, ◌≢◌, refl, ap, ◌∙◌, true, false, none, some, List, [], ◌∷◌, ok, arith, length,
  length-append, bytes_eq, bytes_beq_iff, ◌==◌, All, Bool-cases, Option-cases, inl, inr,
}
use goblockchain.Base.Map.{lookup}
use goblockchain.Types.Hash.{Hash}
use goblockchain.Types.GoList
use goblockchain.Core.Data.{Transaction, deep_equal_iff}
use goblockchain.Core.Platform.{Platform}
use goblockchain.Core.Transaction.{set_hasher, tx_hash}
use goblockchain.Server.TxOrderedMap
use goblockchain.Server.TxOrderedMap.{TxOrderedMap, Error, no_more_space}
use goblockchain.Server.TxOrderedMap.Mirror.{
  Mirrors, find_tx, added-Mirrors, remove_entry, remove-Mirrors,
}
use goblockchain.Server.TxPool.{TxPool, add, prune, drop_first}
use goblockchain.Server.TxPool.Steps.{Hashed, set_hasher-Hashed, first_lem}
use goblockchain.Server.TxPool.Admission.{IsValid, add_new, add_full, add_known}

module _ (p : Platform) where
  prune_kept :
      (pool : TxPool) → (length pool.all.txns == pool.max) ≡ false → prune p pool ≡ (ok tt, pool)
  unfolding prune TxOrderedMap.len GoList.length
  prune_kept pool e = rw e refl

  prune_full :
      (pool : TxPool) (f : Transaction) (txns : List Transaction)
      → (length pool.all.txns == pool.max) ≡ true
      → pool.all.txns ≡ f ∷ txns
      → Hashed p f
      → prune p pool ≡ (ok tt, record pool { all = TxOrderedMap.remove f.hash pool.all })
  unfolding prune TxOrderedMap.len GoList.length
  prune_full pool f txns e at_txns h =
      rw (e, first_lem p pool.all f txns at_txns, drop_first, h) refl

  -- With its entry in the map the first transaction goes, and those behind it stay.
  remove_first :
      (tm : TxOrderedMap) (f : Transaction) (txns : List Transaction)
      → tm.txns ≡ f ∷ txns
      → Mirrors tm
      → (TxOrderedMap.remove f.hash tm).txns ≡ txns
  remove_first tm f txns e m =
      let found : lookup f.hash tm.by_hash ≡ some f =
        m.agrees f.hash ∙ rw e (ground (arith, bytes_beq_iff f.hash f.hash)) in
      rw (remove_entry f.hash tm f found, e) (ground (arith, deep_equal_iff f f))

  not_full :
      (pool : TxPool)
      → IsValid p pool
      → (length pool.pending.txns == pool.max) ≡ false
      → pool.max ≢ 0
  not_full pool v e z = ground (arith, e, v.bounded)

  abbrev Room : TxPool → Type 0
  Room pool =
      (tm : TxOrderedMap) × (prune p pool ≡ (ok tt, record pool { all = tm }))
      × Mirrors tm
      × (length tm.txns < pool.max)
      × ((h : Hash) → find_tx h pool.all.txns ≡ none → find_tx h tm.txns ≡ none)

  -- Where the map and the list agree, room is made whenever none is left.
  prune-Room :
      (pool : TxPool)
      → IsValid p pool
      → pool.max ≢ 0
      → Mirrors pool.all
      → length pool.all.txns ≤ pool.max
      → Room pool
  prune-Room pool v nz m le = by_list pool.all.txns refl v.hashed
    where
      by_list : (txns : List Transaction) → pool.all.txns ≡ txns → All (Hashed p) txns → Room pool
      by_list [] at_txns hs =
          let none_yet : length pool.all.txns ≡ 0 = ap length at_txns in
          let e : (length pool.all.txns == pool.max) ≡ false = ground arith in
          (pool.all, prune_kept pool e, m, ground (arith, e, le), λ _ n. n)
      by_list (f ∷ txns) at_txns (hf, hs) = elim (Bool-cases (length pool.all.txns == pool.max)) [
        | inr e ↦ (pool.all, prune_kept pool e, m, ground (arith, e, le), λ _ n. n)
        | inl e ↦
            let rest = remove_first pool.all f txns at_txns m in
            (
              TxOrderedMap.remove f.hash pool.all,
              prune_full pool f txns e at_txns hf,
              (remove-Mirrors f.hash f.hash pool.all m).0,
              ground (arith, ap length at_txns, ap length rest, e),
              λ h n. ground (arith, at_txns, rest),
            )
      ]

  -- In a valid pool whose `all` has at most `max` transactions and finds each by its hash, `Add` of a
  -- transaction with a hash that `all` does not have, keeps both.
  pub all_bounded :
      (tx : Transaction) (pool : TxPool)
      → IsValid p pool
      → Mirrors pool.all
      → length pool.all.txns ≤ pool.max
      → ((u : Transaction)
          → tx_hash p (set_hasher pool.hasher tx) ≡ (ok u.hash, u)
          → find_tx u.hash pool.all.txns ≡ none)
      → Mirrors (add p tx pool).1.all × (length (add p tx pool).1.all.txns ≤ pool.max)
  all_bounded tx pool v m le new =
      let (u, h, hu, _, _) = set_hasher-Hashed p tx pool.hasher in
      elim (Bool-cases (length pool.pending.txns == pool.max)) [
        | inl e ↦ rw (add_full p tx pool e) (m, le)
        | inr e ↦ elim (Option-cases (lookup u.hash pool.pending.by_hash)) [
          | inr (val, k) ↦ rw (add_known p tx u val pool e h k) (m, le)
          | inl k ↦
              let (tm, pruned, mt, lt, keeps) = prune-Room pool v (not_full pool v e) m le in
              rw (add_new p tx u pool tm e h hu k pruned) (
                added-Mirrors u.hash u tm refl (keeps u.hash (new u h)) mt,
                omega (arith, length-append tm.txns (u ∷ [])),
              )
        ]
      ]

  -- In a valid pool whose `all` is longer than `max`, each `Add` that takes a transaction makes `all`
  -- longer by one: no room is made any more.
  pub all_never_shrinks :
      (tx u : Transaction) (pool : TxPool)
      → IsValid p pool
      → pool.max < length pool.all.txns
      → (add p tx pool).0 ≡ ok (true, u)
      → length (add p tx pool).1.all.txns ≡ length pool.all.txns + 1
  all_never_shrinks tx u pool v lt ok_true =
      let (w, h, hw, _, _) = set_hasher-Hashed p tx pool.hasher in
      elim (Bool-cases (length pool.pending.txns == pool.max)) [
        | inl e ↦ absurd (ground (arith, ok_true, add_full p tx pool e))
        | inr e ↦ elim (Option-cases (lookup w.hash pool.pending.by_hash)) [
          | inr (val, k) ↦ absurd (ground (arith, ok_true, add_known p tx w val pool e h k))
          | inl k ↦
              rw (add_new p tx w pool pool.all e h hw k (prune_kept pool (ground arith)))
                (omega (arith, length-append pool.all.txns (w ∷ [])))
        ]
      ]
