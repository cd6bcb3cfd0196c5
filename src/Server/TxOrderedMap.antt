-- ===== src/Server/TxOrderedMap.antt =====
-- `TxOrderedMap` of server/txpool.go: transactions by hash, and in the order in which they came. The
-- locks are left out. A method that takes a `*Transaction` returns what the pointer points at after.
pub mod Mirror
use goblockchain.Base.{
  ℕ, Bool, Option, none, some, [], Result, ok, err, panic, stuck, Panic, Go, bytes_eq, pos,
}
use goblockchain.Base.Map.{Map, lookup, insert, erase, has_key}
use goblockchain.Types.Hash.{Hash}
use goblockchain.Types.GoList
use goblockchain.Types.GoList.{GoList}
use goblockchain.Core.Data
use goblockchain.Core.Data.{Transaction, transaction_eq}
use goblockchain.Core.Platform.{Platform}
use goblockchain.Core.Transaction.{tx_hash}

pub data Error : Type 0 where
  no_more_space : Error
  in_list : GoList.Error → Error
  in_core : Data.Error → Error

pub record TxOrderedMap : Type 0 where
  pub by_hash : Map Hash Transaction
  pub txns : GoList Transaction

unfoldable pub new_map : TxOrderedMap
new_map = record { by_hash = []; txns = GoList.new_list }

unfoldable pub len : TxOrderedMap → ℕ
len tm = GoList.length tm.txns

unfoldable pub contains : Hash → TxOrderedMap → Bool
contains h tm = has_key h tm.by_hash

unfoldable pub first : TxOrderedMap → Result GoList.Error Transaction
first tm = GoList.get (pos 0) tm.txns

unfoldable pub get : Hash → TxOrderedMap → Option Transaction
get h tm = lookup h tm.by_hash

unfoldable pub remove : Hash → TxOrderedMap → TxOrderedMap
remove h tm = elim (lookup h tm.by_hash) [
  | none ↦ tm
  | some val ↦ record { by_hash = erase h tm.by_hash; txns = GoList.delete val tm.txns }
]

unfoldable pub clear : TxOrderedMap → TxOrderedMap
clear tm = record { by_hash = []; txns = GoList.clear tm.txns }

module _ (p : Platform) where
  abbrev pub add_hashed :
      Result Data.Error Hash × Transaction → TxOrderedMap → Result Error Transaction × TxOrderedMap
  add_hashed (ok h, t) tm =
      (ok t, record { by_hash = insert h t tm.by_hash; txns = GoList.append t tm.txns })
  add_hashed (err e, t) tm = (err (in_core e), tm)
  add_hashed (panic q, t) tm = (panic q, tm)
  add_hashed (stuck, t) tm = (stuck, tm)

  unfoldable pub add : Transaction → Go Error TxOrderedMap Transaction
  add t tm = add_hashed (tx_hash p t) tm
