-- ===== src/Vm/State.antt =====
-- vm/state.go: the contract state, a map from keys to stack values. No operation of it fails but
-- `get` on a missing key. The lock is not used by the source.
pub mod Laws
use goblockchain.Base.{ok, err, none, some, Go, []}
use goblockchain.Base.Map.{Map, lookup, insert, erase}
use goblockchain.Base.{bytes_eq}
use goblockchain.Vm.Value.{Value, Key, Error, no_such_key}

pub record State : Type 0 where
  pub entries : Map Key Value

abbrev pub new_state : State
new_state = record { entries = [] }

unfoldable pub put : Key → Value → Go Error State (Unit {0})
put k v s = (ok tt, record { entries = insert k v s.entries })

unfoldable pub delete : Key → Go Error State (Unit {0})
delete k s = (ok tt, record { entries = erase k s.entries })

unfoldable pub get : Key → Go Error State Value
get k s = (elim (lookup k s.entries) [ none ↦ err (no_such_key k) | some v ↦ ok v ], s)
