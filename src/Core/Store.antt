-- ===== src/Core/Store.antt =====
-- core/storage.go: the store behind its two channels. The goroutine `handleAccess` serves one request
-- after the other, so a call of `Put` or `Get` is one step on the map.
use goblockchain.Base.{none, some, [], Result, ok, err, Go, Eq}
use goblockchain.Base.Map.{Map, lookup, insert}
use goblockchain.Core.Data.{Error, key_not_in_store}

module _ {K V : Type 0} where
  unfoldable pub new_mem_store : Map K V
  new_mem_store = []

module _ {K V : Type 0} ⦃q : Eq K⦄ where
  unfoldable pub store_put : K → V → Go Error (Map K V) (Unit {0})
  store_put key val s = (ok tt, insert key val s)

  unfoldable pub store_get : K → Map K V → Result Error V
  store_get key s = elim (lookup key s) [ none ↦ err key_not_in_store | some v ↦ ok v ]
