-- ===== src/Network/LocalTransport/Tests.antt =====
-- Transports of one process that are not connected.
use goblockchain.Base.{◌≡◌, refl, [], ◌∷◌, err, bytes_eq}
use goblockchain.Network.LocalTransport.{Heap, new_local_transport, send, unknown_peer}

-- The transport at the pointer `k` has the address `k`.
abbrev alone : Heap
unfolding new_local_transport
alone k = new_local_transport (k ∷ [])

-- Without a connection a send is refused.
not_connected : (send 1 (2 ∷ []) (9 ∷ []) alone).0 ≡ err (unknown_peer (2 ∷ []))
unfolding send alone new_local_transport
not_connected = refl
