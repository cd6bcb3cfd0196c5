-- ===== src/Network/LocalTransport.antt =====
-- network/local_transport.go: transports of one process, which write to the channels of one another.
-- The heap has the transports by their pointers. A send on a full channel waits, which is the outcome
-- `stuck`. The locks and logging are left out, and so is the error of `Connect` for a transport of
-- another kind.
pub mod Joins
pub mod Connect
pub mod Delivery
mod Tests
use goblockchain.Base.{
  ℕ, zero, suc, List, [], ◌∷◌, ◌++◌, Option, none, some, Bool, true, false, Result, ok, err, panic,
  stuck, Go, ◌>>=◌, ◌>>◌, pure, gets, modify, or_throw, leb, length, bytes_eq, nat_eq,
  if◌then◌else◌, ◌==◌,
}
use goblockchain.Base.Map.{Map, lookup, insert, has_key}
use goblockchain.Network.Rpc.{Rpc, Pipe}

-- `LocalAddr` is a string. The peers are pointers.
pub record LocalTransport : Type 0 where
  pub addr : List ℕ
  pub peers : Map (List ℕ) ℕ
  pub recv_ch : List Rpc

abbrev pub Heap : Type 0
Heap = ℕ → LocalTransport

abbrev pub write : ℕ → LocalTransport → Heap → Heap
write lt t h k = if k == lt then t else h k

pub data Error : Type 0 where
  unknown_peer : List ℕ → Error

unfoldable pub new_local_transport : List ℕ → LocalTransport
new_local_transport addr = record { addr = addr; peers = []; recv_ch = [] }

unfoldable pub get : ℕ → List ℕ → Heap → Option Pipe
get lt id h = elim (lookup id (h lt).peers) [
  | none ↦ none
  | some tr ↦ some (record { local_addr = (h lt).addr; remote_addr = (h tr).addr })
]

unfoldable pub is_connected : ℕ → List ℕ → Heap → Bool
is_connected lt addr h = has_key addr (h lt).peers

-- `lt.peers[tr.Addr()] = tr`
abbrev pub add_peer : ℕ → ℕ → Heap → Heap
add_peer lt tr h = write lt (record (h lt) { peers = insert (h tr).addr tr (h lt).peers }) h

-- `Connect`, which calls itself with the two transports swapped until they are connected.
unfoldable pub connect_loop : ℕ → ℕ → ℕ → Heap → Option Heap
unfolding is_connected
connect_loop zero lt tr h = none
connect_loop (suc fuel) lt tr h =
    let rest = connect_loop fuel tr lt (add_peer lt tr h) in
    if is_connected lt (h tr).addr h then some h else rest

unfoldable pub connect : ℕ → ℕ → Heap → Option Heap
connect lt tr h = connect_loop 3 lt tr h

-- The capacity of the channel.
abbrev pub capacity : ℕ
capacity = 1024

abbrev pub push_rpc : ℕ → Rpc → Go Error Heap (Unit {0})
push_rpc tr rpc h =
    if leb capacity (length (h tr).recv_ch)
    then (stuck, h)
    else (ok tt, write tr (record (h tr) { recv_ch = (h tr).recv_ch ++ (rpc ∷ []) }) h)

-- `Send`
unfoldable pub send : ℕ → List ℕ → List ℕ → Go Error Heap (Unit {0})
send lt to payload = do
  tr ← or_throw (← gets (λ h. lookup to (h lt).peers)) (unknown_peer to)
  from ← gets (λ h. (h lt).addr)
  push_rpc tr (record { from = from; content = payload })

-- The loop of `Broadcast`, whose errors go to the log; a send that waits holds it up.
unfoldable pub broadcast_loop : ℕ → List ℕ → Map (List ℕ) ℕ → Go Error Heap (Unit {0})
unfolding send
broadcast_loop lt payload [] h = (ok tt, h)
broadcast_loop lt payload ((_, tr) ∷ peers) h = elim (send lt (h tr).addr payload h).0 [
  | stuck ↦ (stuck, (send lt (h tr).addr payload h).1)
  | panic q ↦ (panic q, (send lt (h tr).addr payload h).1)
  | _ ↦ broadcast_loop lt payload peers (send lt (h tr).addr payload h).1
]

-- `Broadcast`
unfoldable pub broadcast : ℕ → List ℕ → Go Error Heap (Unit {0})
broadcast lt payload h = broadcast_loop lt payload (h lt).peers h

-- `Recv`: the oldest RPC of the channel, when there is one.
unfoldable pub receive : ℕ → Heap → Option (Rpc × Heap)
receive lt h = elim (h lt).recv_ch [
  | [] ↦ none
  | rpc ∷ rest ↦ some (rpc, write lt (record (h lt) { recv_ch = rest }) h)
]
