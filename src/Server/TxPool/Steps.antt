-- ===== src/Server/TxPool/Steps.antt =====
-- `TxPool.Add` of server/txpool.go, step by step: the hash of the transaction, the room that is made
-- in `all`, and the two insertions.
use goblockchain.Base.{
  ◌≡◌, ◌≢◌, refl, true, some, List, [], ◌∷◌, ok, arith, bytes_eq, ◌==◌, All, Bool-cases,
  Option-cases, inl, inr, if◌then◌else◌,
}
use goblockchain.Base.Map.{lookup}
use goblockchain.Types.Hash.{Hash, is_zero}
use goblockchain.Types.GoList
use goblockchain.Types.GoList.Laws.{erase_first}
use goblockchain.Core.Data.{Transaction, TxHasher, default_tx_hasher, transaction_eq, deep_equal}
use goblockchain.Core.Blockchain.Contents.{SameTx}
use goblockchain.Core.Platform.{Platform}
use goblockchain.Core.Transaction.{set_hasher, tx_hash, hash_with}
use goblockchain.Server.TxOrderedMap
use goblockchain.Server.TxOrderedMap.{TxOrderedMap, no_more_space}
use goblockchain.Server.TxOrderedMap.Mirror.{added, add_lem, remove_entry, remove_missing}
use goblockchain.Server.TxPool.{TxPool, prune, drop_first, add_both, after_all}

module _ (p : Platform) where
  -- The transaction carries its hash, so that `Hash` answers from the cache or finds the same again.
  abbrev pub Hashed : Transaction → Type 0
  Hashed t = tx_hash p t ≡ (ok t.hash, t)

  fresh-Hashed :
      (t : Transaction) → t.hash ≡ p.sha256 t.tx_data → t.hasher ≡ some default_tx_hasher → Hashed t
  unfolding tx_hash hash_with
  fresh-Hashed t e h = elim (Bool-cases (is_zero t.hash)) [
    | inl z ↦ ground (arith, e, h, z)
    | inr z ↦ rw z refl
  ]

  -- The cached hash, or that of the data.
  abbrev pub hash_found : Transaction → Hash
  hash_found t = if is_zero t.hash then p.sha256 t.tx_data else t.hash

  -- `SetHasher` and `Hash` leave the hash with the transaction.
  pub set_hasher-Hashed :
      (t : Transaction) (h : TxHasher)
      → (u : Transaction) × (tx_hash p (set_hasher h t) ≡ (ok u.hash, u))
        × Hashed u
        × SameTx t u
        × (u.hash ≡ hash_found t)
  unfolding tx_hash set_hasher hash_with
  set_hasher-Hashed t default_tx_hasher = elim (Bool-cases (is_zero t.hash)) [
    | inl e ↦
        let x : Hash = p.sha256 t.tx_data in
        (
          record t { hasher = some default_tx_hasher; hash = x },
          rw e refl,
          fresh-Hashed (record t { hasher = some default_tx_hasher; hash = x }) refl refl,
          (refl, refl, refl),
          rw e refl,
        )
    | inr e ↦
        let u : Transaction = record t { hasher = some default_tx_hasher } in
        (u, rw e refl, rw e refl, (refl, refl, refl), rw e refl)
  ]

  All-erase_first :
      (val : Transaction) (txns : List Transaction)
      → All Hashed txns
      → All Hashed (erase_first val txns)
  All-erase_first val [] a = tt
  All-erase_first val (t ∷ txns) (h, a) = elim (Bool-cases (deep_equal t val)) [
    | inl e ↦ rw e a
    | inr e ↦ rw e (h, All-erase_first val txns a)
  ]

  pub Hashed-remove :
      (h : Hash) (tm : TxOrderedMap)
      → All Hashed tm.txns
      → All Hashed (TxOrderedMap.remove h tm).txns
  Hashed-remove h tm a = elim (Option-cases (lookup h tm.by_hash)) [
    | inl e ↦ rw (remove_missing h tm e) a
    | inr (val, e) ↦ rw (remove_entry h tm val e) (All-erase_first val tm.txns a)
  ]

  pub first_lem :
      (tm : TxOrderedMap) (f : Transaction) (txns : List Transaction)
      → tm.txns ≡ f ∷ txns
      → TxOrderedMap.first tm ≡ ok f
  unfolding TxOrderedMap.first GoList.get
  first_lem tm f txns e = rw e (ground arith)

  -- Room is made without failing, and of the pool only `all` changes.
  pub prune_ok :
      (pool : TxPool)
      → All Hashed pool.all.txns
      → pool.max ≢ 0
      → (tm : TxOrderedMap) × (prune p pool ≡ (ok tt, record pool { all = tm }))
        × All Hashed tm.txns
  unfolding prune TxOrderedMap.len GoList.length
  prune_ok pool a h = elim (Bool-cases (TxOrderedMap.len pool.all == pool.max)) [
    | inr e ↦ (pool.all, rw e refl, a)
    | inl e ↦ full_all pool.all.txns refl a e
  ]
    where
      full_all :
          (txns : List Transaction)
          → pool.all.txns ≡ txns
          → All Hashed txns
          → (TxOrderedMap.len pool.all == pool.max) ≡ true
          → (tm : TxOrderedMap) × (prune p pool ≡ (ok tt, record pool { all = tm }))
            × All Hashed tm.txns
      full_all [] at_txns b e = absurd (ground (arith, e, at_txns))
      full_all (f ∷ txns) at_txns (b, bs) e = (
        TxOrderedMap.remove f.hash pool.all,
        rw (e, first_lem pool.all f txns at_txns, drop_first, b) refl,
        Hashed-remove f.hash pool.all a,
      )

  pub add_both_lem :
      (t : Transaction) (pool : TxPool)
      → Hashed t
      → add_both p t.hash t pool ≡ (
        ok (true, t),
        record pool { all = added t.hash t pool.all; pending = added t.hash t pool.pending },
      )
  unfolding add_both
  add_both_lem t pool e =
      rw (add_lem p t t t.hash pool.all e, after_all, add_lem p t t t.hash pool.pending e) refl
