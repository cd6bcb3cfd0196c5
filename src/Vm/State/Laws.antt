-- ===== src/Vm/State/Laws.antt =====
-- The operations of vm/state.go on one another.
use goblockchain.Base.{◌≡◌, refl, ok, err, if◌then◌else◌, bytes_beq, bytes_eq, arith}
use goblockchain.Base.MapLaws.{lookup-insert, lookup-erase}
use goblockchain.Vm.Value.{Value, Key, no_such_key}
use goblockchain.Vm.State.{State, put, delete, get}

-- `Get` returns what `Put` stored under the key last, or an error that names the key after `Delete`;
-- both leave every other key alone and do not fail, and `Get` changes nothing.
pub get-put-delete :
    (k j : Key) (v : Value) (s : State)
    → ((put k v s).0 ≡ ok tt)
      × ((delete k s).0 ≡ ok tt)
      × ((get j (put k v s).1).0 ≡ (if bytes_beq k j then ok v else (get j s).0))
      × ((get j (delete k s).1).0 ≡ (if bytes_beq k j then err (no_such_key j) else (get j s).0))
      × ((get j s).1 ≡ s)
unfolding put delete get
get-put-delete k j v s = (
  refl,
  refl,
  ground (arith, lookup-insert k j v s.entries),
  ground (arith, lookup-erase k j s.entries),
  refl,
)
