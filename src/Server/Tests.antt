-- ===== src/Server/Tests.antt =====
-- The pool on the concrete libraries of Core/Demo: runs, and the theorems at these runs.
use goblockchain.Base.{ℕ, ◌+◌, ◌≤◌, ◌≡◌, refl, true, false, [], ◌∷◌, ok, length, arith, bytes_eq}
use goblockchain.Types.Hash.{is_zero}
use goblockchain.Types.GoList
use goblockchain.Core.Data.{deep_equal, Transaction, transaction_eq, default_tx_hasher}
use goblockchain.Core.Transaction.{new_transaction, set_hasher, tx_hash, hash_with}
use goblockchain.Core.Demo.{demo}
use goblockchain.Server.TxOrderedMap
use goblockchain.Server.TxOrderedMap.{new_map}
use goblockchain.Server.TxOrderedMap.Mirror.{Mirrors}
use goblockchain.Server.TxPool.{
  TxPool, new_tx_pool, max_pool_depth, with_hasher, add, add_both, prune, clear_pending, contains,
  pending_count,
}
use goblockchain.Server.TxPool.Steps.{hash_found}
use goblockchain.Core.Blockchain.Contents.{SameTx}
use goblockchain.Server.TxPool.Admission.{IsValid, Outcome, add-Outcome}
use goblockchain.Server.TxPool.Limit.{all_bounded, all_never_shrinks}
use goblockchain.Server.TxPool.History.{
  History, created, taken, cleared, History-IsValid, same_data_dropped,
}

abbrev tx_of : ℕ → Transaction
unfolding new_transaction
tx_of n = new_transaction (n ∷ [])

abbrev pool_2 : TxPool
pool_2 = new_tx_pool (max_pool_depth 2 ∷ with_hasher default_tx_hasher ∷ [])

-- The pool of depth 2 after one transaction.
abbrev pool_with_1 : TxPool
pool_with_1 = (add demo (tx_of 1) pool_2).1

pool_with_1-History : History demo pool_with_1
pool_with_1-History = taken pool_2 (tx_of 1) (created 2 default_tx_hasher)

History-IsValid_example : IsValid demo pool_with_1
History-IsValid_example = History-IsValid demo pool_with_1 pool_with_1-History

pool_2-IsValid : IsValid demo pool_2
pool_2-IsValid = History-IsValid demo pool_2 (created 2 default_tx_hasher)

add-Outcome_example :
    (u : Transaction) × SameTx (tx_of 1) u
    × (u.hash ≡ hash_found demo (tx_of 1))
    × Outcome demo u pool_2 (add demo (tx_of 1) pool_2)
unfolding tx_of
add-Outcome_example = add-Outcome demo (tx_of 1) pool_2 pool_2-IsValid

pool_2-Mirrors : Mirrors pool_2.all
unfolding add add_both prune clear_pending contains pending_count tx_hash set_hasher hash_with
    is_zero new_transaction new_tx_pool max_pool_depth with_hasher new_map TxOrderedMap.add
    TxOrderedMap.remove TxOrderedMap.clear TxOrderedMap.len TxOrderedMap.first TxOrderedMap.contains
    GoList.append GoList.delete GoList.delete_at GoList.index GoList.index_loop GoList.get
    GoList.length GoList.clear GoList.new_list deep_equal
pool_2-Mirrors = record { agrees = λ h. refl; distinct = tt }

all_bounded_example : Mirrors pool_with_1.all × (length pool_with_1.all.txns ≤ 2)
unfolding add add_both prune clear_pending contains pending_count tx_hash set_hasher hash_with
    is_zero new_transaction new_tx_pool max_pool_depth with_hasher new_map TxOrderedMap.add
    TxOrderedMap.remove TxOrderedMap.clear TxOrderedMap.len TxOrderedMap.first TxOrderedMap.contains
    GoList.append GoList.delete GoList.delete_at GoList.index GoList.index_loop GoList.get
    GoList.length GoList.clear GoList.new_list deep_equal
all_bounded_example =
    all_bounded demo (tx_of 1) pool_2 pool_2-IsValid pool_2-Mirrors (omega arith) (λ u e. refl)

-- Two rounds with the same transaction put it into `all` twice, and `remove` of its hash takes one
-- out: the other is never found again, and no room is made when it comes to the front.
abbrev overflowed : TxPool
overflowed =
    let a = clear_pending (add demo (tx_of 1) pool_2).1 in
    let b = clear_pending (add demo (tx_of 1) a).1 in
    let c = clear_pending (add demo (tx_of 2) b).1 in (add demo (tx_of 3) c).1

overflowed-History : History demo overflowed
overflowed-History =
    let a = cleared _ (taken pool_2 (tx_of 1) (created 2 default_tx_hasher)) in
    let b = cleared _ (taken _ (tx_of 1) a) in
    let c = cleared _ (taken _ (tx_of 2) b) in taken _ (tx_of 3) c

all_overflows : (length overflowed.all.txns ≡ 3) × (overflowed.max ≡ 2)
unfolding add add_both prune clear_pending contains pending_count tx_hash set_hasher hash_with
    is_zero new_transaction new_tx_pool max_pool_depth with_hasher new_map TxOrderedMap.add
    TxOrderedMap.remove TxOrderedMap.clear TxOrderedMap.len TxOrderedMap.first TxOrderedMap.contains
    GoList.append GoList.delete GoList.delete_at GoList.index GoList.index_loop GoList.get
    GoList.length GoList.clear GoList.new_list deep_equal
all_overflows = (refl, refl)

overflowed-IsValid : IsValid demo overflowed
overflowed-IsValid = History-IsValid demo overflowed overflowed-History

-- A transaction as `Add` leaves it.
abbrev hashed_tx : ℕ → Transaction
hashed_tx n = record (tx_of n) { hash = 7 ∷ n ∷ [] }

fourth_taken : (add demo (tx_of 4) overflowed).0 ≡ ok (true, hashed_tx 4)
unfolding add add_both prune clear_pending contains pending_count tx_hash set_hasher hash_with
    is_zero new_transaction new_tx_pool max_pool_depth with_hasher new_map TxOrderedMap.add
    TxOrderedMap.remove TxOrderedMap.clear TxOrderedMap.len TxOrderedMap.first TxOrderedMap.contains
    GoList.append GoList.delete GoList.delete_at GoList.index GoList.index_loop GoList.get
    GoList.length GoList.clear GoList.new_list deep_equal
fourth_taken = refl

all_never_shrinks_example :
    length (add demo (tx_of 4) overflowed).1.all.txns ≡ length overflowed.all.txns + 1
all_never_shrinks_example =
    all_never_shrinks demo (tx_of 4) (hashed_tx 4) overflowed overflowed-IsValid
      (omega (arith, all_overflows.0, all_overflows.1)) fourth_taken

-- The data of the transaction 1, from someone else.
abbrev other_tx : Transaction
other_tx = record (tx_of 1) { from = 9 ∷ [] }

first_taken : (add demo (tx_of 1) pool_2).0 ≡ ok (true, hashed_tx 1)
unfolding add add_both prune clear_pending contains pending_count tx_hash set_hasher hash_with
    is_zero new_transaction new_tx_pool max_pool_depth with_hasher new_map TxOrderedMap.add
    TxOrderedMap.remove TxOrderedMap.clear TxOrderedMap.len TxOrderedMap.first TxOrderedMap.contains
    GoList.append GoList.delete GoList.delete_at GoList.index GoList.index_loop GoList.get
    GoList.length GoList.clear GoList.new_list deep_equal
first_taken = refl

one_pending : length pool_with_1.pending.txns ≡ 1
unfolding add add_both prune clear_pending contains pending_count tx_hash set_hasher hash_with
    is_zero new_transaction new_tx_pool max_pool_depth with_hasher new_map TxOrderedMap.add
    TxOrderedMap.remove TxOrderedMap.clear TxOrderedMap.len TxOrderedMap.first TxOrderedMap.contains
    GoList.append GoList.delete GoList.delete_at GoList.index GoList.index_loop GoList.get
    GoList.length GoList.clear GoList.new_list deep_equal
one_pending = refl

same_data_dropped_example :
    (w : Transaction) × ((add demo other_tx pool_with_1).0 ≡ ok (false, w))
    × ((add demo other_tx pool_with_1).1.pending.txns ≡ pool_with_1.pending.txns)
unfolding add add_both prune clear_pending contains pending_count tx_hash set_hasher hash_with
    is_zero new_transaction new_tx_pool max_pool_depth with_hasher new_map TxOrderedMap.add
    TxOrderedMap.remove TxOrderedMap.clear TxOrderedMap.len TxOrderedMap.first TxOrderedMap.contains
    GoList.append GoList.delete GoList.delete_at GoList.index GoList.index_loop GoList.get
    GoList.length GoList.clear GoList.new_list deep_equal
same_data_dropped_example =
    same_data_dropped demo (tx_of 1) other_tx (hashed_tx 1) pool_2 pool_2-IsValid refl refl refl
      first_taken (λ e. absurd (omega (arith, e, one_pending)))
