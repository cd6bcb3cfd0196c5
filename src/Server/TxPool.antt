-- ===== src/Server/TxPool.antt =====
-- `TxPool` of server/txpool.go: the pending transactions, and all that were seen, up to a limit.
-- Logging and the lock are left out.
pub mod Steps
pub mod Admission
pub mod Limit
pub mod History
use goblockchain.Base.{
  ℕ, Bool, true, false, List, [], ◌∷◌, Result, ok, err, panic, stuck, Go, ◌>>=◌, ◌>>◌, pure, gets,
  throw_if, if◌then◌else◌, ◌==◌,
}
use goblockchain.Types.Hash.{Hash}
use goblockchain.Types.GoList
use goblockchain.Core.Data
use goblockchain.Core.Data.{Transaction, TxHasher, default_tx_hasher}
use goblockchain.Core.Platform.{Platform}
use goblockchain.Core.Transaction.{set_hasher, tx_hash}
use goblockchain.Server.TxOrderedMap
use goblockchain.Server.TxOrderedMap.{TxOrderedMap, Error, no_more_space, in_list, in_core, new_map}

pub record TxPool : Type 0 where
  pub all : TxOrderedMap
  pub pending : TxOrderedMap
  pub max : ℕ
  pub hasher : TxHasher

abbrev pub TxPoolOpt : Type 0
TxPoolOpt = TxPool → TxPool

unfoldable pub with_hasher : TxHasher → TxPoolOpt
with_hasher h pool = record pool { hasher = h }

unfoldable pub max_pool_depth : ℕ → TxPoolOpt
max_pool_depth m pool = record pool { max = m }

abbrev pub apply_opts : List TxPoolOpt → TxPool → TxPool
apply_opts [] pool = pool
apply_opts (opt ∷ opts) pool = apply_opts opts (opt pool)

unfoldable pub new_tx_pool : List TxPoolOpt → TxPool
unfolding new_map
new_tx_pool opts =
    apply_opts opts
      (record { all = new_map; pending = new_map; max = 1000; hasher = default_tx_hasher })

-- `Pending`, `PendingCount`, `ClearPending` and `Contains`
unfoldable pub pending_txns : TxPool → List Transaction
pending_txns pool = GoList.slice pool.pending.txns

unfoldable pub pending_count : TxPool → ℕ
pending_count pool = TxOrderedMap.len pool.pending

unfoldable pub clear_pending : TxPool → TxPool
clear_pending pool = record pool { pending = TxOrderedMap.clear pool.pending }

unfoldable pub contains : Hash → TxPool → Bool
contains h pool = TxOrderedMap.contains h pool.pending

-- The deferred function of `Add`, which runs its body when an `Add` below returned an error.
unfoldable pub roll_back : Hash → TxPool → TxPool
roll_back h pool = record pool {
  all = TxOrderedMap.remove h pool.all;
  pending = TxOrderedMap.remove h pool.pending;
}

module _ (p : Platform) where
  abbrev pub hash_result : Result Data.Error Hash × Transaction → Result Error (Hash × Transaction)
  hash_result (ok h, t) = ok (h, t)
  hash_result (err e, t) = err (in_core e)
  hash_result (panic q, t) = panic q
  hash_result (stuck, t) = stuck

  abbrev pub drop_hashed : Result Error (Hash × Transaction) → Go Error TxPool (Unit {0})
  drop_hashed (ok (h, _)) pool = (ok tt, record pool { all = TxOrderedMap.remove h pool.all })
  drop_hashed (err e) pool = (err e, pool)
  drop_hashed (panic q) pool = (panic q, pool)
  drop_hashed stuck pool = (stuck, pool)

  abbrev pub drop_first : Result GoList.Error Transaction → Go Error TxPool (Unit {0})
  drop_first (ok f) pool = drop_hashed (hash_result (tx_hash p f)) pool
  drop_first (err e) pool = (err (in_list e), pool)
  drop_first (panic q) pool = (panic q, pool)
  drop_first stuck pool = (stuck, pool)

  -- Make room in `all` by its oldest transaction.
  unfoldable pub prune : Go Error TxPool (Unit {0})
  prune pool =
      if TxOrderedMap.len pool.all == pool.max
      then drop_first (TxOrderedMap.first pool.all) pool
      else (ok tt, pool)

  abbrev pub after_pending :
      Hash → Result Error Transaction × TxOrderedMap → Go Error TxPool (Bool × Transaction)
  after_pending h (ok t, m) pool = (ok (true, t), record pool { pending = m })
  after_pending h (err e, m) pool = (err e, roll_back h (record pool { pending = m }))
  after_pending h (panic q, m) pool = (panic q, record pool { pending = m })
  after_pending h (stuck, m) pool = (stuck, record pool { pending = m })

  abbrev pub after_all :
      Hash → Result Error Transaction × TxOrderedMap → Go Error TxPool (Bool × Transaction)
  after_all h (ok t, m) pool =
      after_pending h (TxOrderedMap.add p t pool.pending) (record pool { all = m })
  after_all h (err e, m) pool = (err e, roll_back h (record pool { all = m }))
  after_all h (panic q, m) pool = (panic q, record pool { all = m })
  after_all h (stuck, m) pool = (stuck, record pool { all = m })

  -- The two `Add`s at the end of `Add`.
  unfoldable pub add_both : Hash → Transaction → Go Error TxPool (Bool × Transaction)
  add_both h t pool = after_all h (TxOrderedMap.add p t pool.all) pool

  -- `Add` returns whether the transaction is new, and the transaction with its hasher and hash.
  unfoldable pub add : Transaction → Go Error TxPool (Bool × Transaction)
  unfolding pending_count contains
  add tx = do
    throw_if (← gets (λ pool. pending_count pool == pool.max)) no_more_space
    hasher ← gets (λ pool. pool.hasher)
    (h, t) ← (λ pool. (hash_result (tx_hash p (set_hasher hasher tx)), pool))
    known ← gets (contains h)
    if known then pure (false, t) else (do prune; add_both h t)
