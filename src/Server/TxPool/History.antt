-- ===== src/Server/TxPool/History.antt =====
-- A `TxPool` of server/txpool.go over its life: made by `NewTxPool`, filled by `Add` and emptied by
-- `ClearPending`, in any order.
use goblockchain.Base.{
  ℕ, ◌≡◌, ◌≢◌, refl, sym, ◌∙◌, true, false, some, List, [], ◌∷◌, ◌++◌, ok, arith, length, bytes_eq,
  bytes_beq, bytes_beq_iff, ◌==◌, Bool-cases, Option-cases, inl, inr,
}
use goblockchain.Types.Hash.{Hash, is_zero}
use goblockchain.Types.GoList
use goblockchain.Core.Data.{Transaction, TxHasher}
use goblockchain.Core.Platform.{Platform}
use goblockchain.Server.TxOrderedMap
use goblockchain.Server.TxOrderedMap.{TxOrderedMap, new_map}
use goblockchain.Server.TxOrderedMap.Mirror.{find_tx}
use goblockchain.Server.TxPool.{
  TxPool, new_tx_pool, with_hasher, max_pool_depth, add, clear_pending,
}
use goblockchain.Server.TxPool.Steps.{hash_found}
use goblockchain.Server.TxPool.Admission.{answer, offer, IsValid, add-Outcome}

pub data History (p : Platform) : TxPool → Type 0 where
  created :
      (max : ℕ) (h : TxHasher) → History p (new_tx_pool (max_pool_depth max ∷ with_hasher h ∷ []))
  taken : (pool : TxPool) (tx : Transaction) → History p pool → History p (add p tx pool).1
  cleared : (pool : TxPool) → History p pool → History p (clear_pending pool)

module _ (p : Platform) where
  pub clear_pending-IsValid : (pool : TxPool) → IsValid p pool → IsValid p (clear_pending pool)
  unfolding clear_pending TxOrderedMap.clear GoList.clear
  clear_pending-IsValid pool v = record {
    mirrors = record { agrees = λ h. refl; distinct = tt };
    bounded = omega arith;
    hashed = v.hashed;
  }

  -- Over its whole life a pool is valid: its pending transactions are at most `max`, no two of them
  -- have the same hash, and the map finds each of them by it.
  pub History-IsValid : (pool : TxPool) → History p pool → IsValid p pool
  unfolding new_tx_pool max_pool_depth with_hasher new_map GoList.new_list
  History-IsValid _ (created max h) = record {
    mirrors = record { agrees = λ h. refl; distinct = tt };
    bounded = omega arith;
    hashed = tt;
  }
  History-IsValid _ (taken pool tx past) =
      let (u, _, _, (v, _, _, _)) = add-Outcome p tx pool (History-IsValid pool past) in v
  History-IsValid _ (cleared pool past) = clear_pending-IsValid pool (History-IsValid pool past)

  find_tx-last :
      (h : Hash) (txns : List Transaction) (t : Transaction)
      → t.hash ≡ h
      → (w : Transaction) × (find_tx h (txns ++ (t ∷ [])) ≡ some w)
  find_tx-last h [] t e = (t, ground (arith, bytes_beq_iff t.hash h))
  find_tx-last h (u ∷ txns) t e = elim (Bool-cases (bytes_beq u.hash h)) [
    | inl same ↦ (u, rw same refl)
    | inr other ↦ let (w, found) = find_tx-last h txns t e in (w, rw other found)
  ]

  taken_last :
      (max : ℕ) (w u : Transaction) (q : List Transaction)
      → answer max w q ≡ ok (true, u)
      → offer max w q ≡ q ++ (w ∷ [])
  taken_last max w u q e = elim (Bool-cases (length q == max)) [
    | inl full ↦ absurd (ground (arith, e, full))
    | inr room ↦ elim (Option-cases (find_tx w.hash q)) [
      | inl none_yet ↦ rw (room, none_yet) refl
      | inr (z, found) ↦ absurd (ground (arith, e, room, found))
    ]
  ]

  known_stays :
      (max : ℕ) (w z : Transaction) (q : List Transaction)
      → length q ≢ max
      → find_tx w.hash q ≡ some z
      → (answer max w q ≡ ok (false, w)) × (offer max w q ≡ q)
  known_stays max w z q ne found =
      let room : (length q == max) ≡ false = ground arith in rw (room, found) (refl, refl)

  found_same :
      (s t : Transaction)
      → is_zero s.hash ≡ true
      → is_zero t.hash ≡ true
      → s.tx_data ≡ t.tx_data
      → hash_found p s ≡ hash_found p t
  found_same s t zs zt e = rw (zs, zt, e) refl

  -- In a valid pool take a transaction without a cached hash that `Add` took, and then, with room left,
  -- another without one and with the same data: whoever sent and signed it, it is turned away. The
  -- answer is false, and the pending transactions stay the same.
  pub same_data_dropped :
      (s t u : Transaction) (pool : TxPool)
      → IsValid p pool
      → is_zero s.hash ≡ true
      → is_zero t.hash ≡ true
      → s.tx_data ≡ t.tx_data
      → (add p s pool).0 ≡ ok (true, u)
      → length (add p s pool).1.pending.txns ≢ pool.max
      → (w : Transaction) × ((add p t (add p s pool).1).0 ≡ ok (false, w))
        × ((add p t (add p s pool).1).1.pending.txns ≡ (add p s pool).1.pending.txns)
  same_data_dropped s t u pool v zs zt same taken_one room =
      let (w, _, hw, (v', m, r, q)) = add-Outcome p s pool v in
      let (z, _, hz, (_, _, r', q')) = add-Outcome p t (add p s pool).1 v' in
      let last = q ∙ taken_last pool.max w u pool.pending.txns (sym r ∙ taken_one) in
      let hashes : w.hash ≡ z.hash = hw ∙ found_same s t zs zt same ∙ sym hz in
      let (y, found) = find_tx-last z.hash pool.pending.txns w hashes in
      let (told, stays) =
        known_stays (add p s pool).1.max z y (add p s pool).1.pending.txns (λ e. room (e ∙ m))
          (rw last found) in
      (z, r' ∙ told, q' ∙ stays)
