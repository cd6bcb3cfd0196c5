-- ===== src/Server/Setup/Tests.antt =====
-- Servers as they start, and transports of one process that connect.
use goblockchain.Base.{◌≡◌, refl, none, some, [], ◌∷◌, ok, All, arith, bytes_eq}
use goblockchain.Core.Demo.{demo, demo_key, demo-EncodesFields}
use goblockchain.Network.LocalTransport.{Heap, new_local_transport}
use goblockchain.Network.LocalTransport.Connect.{Mesh, DistinctAddrs}
use goblockchain.Server.Setup.{ServerOpts, Started, new_server, connect_strangers, format_int}
use goblockchain.Server.Setup.Ready.{Ready, new_server-Ready}
use goblockchain.Server.Setup.Joined.{Linked, Extended, connect_strangers-Mesh}

-- A validator without a name, a hasher or a chain.
abbrev unnamed : ServerOpts
unnamed = record {
  id = [];
  addr = 67 ∷ [];
  connections = [];
  private_key = record { key = some demo_key };
  block_time = 0;
  tx_hasher = none;
  blockchain = none;
}

new_server-Ready_example :
    (s : Started) × (new_server demo 42 100 unnamed ≡ ok s) × Ready demo 100 s.server
new_server-Ready_example = new_server-Ready demo demo-EncodesFields 42 100 unnamed refl

-- "7", "42" and "999".
format_int_texts :
    (format_int 7 ≡ 55 ∷ []) × (format_int 42 ≡ 52 ∷ 50 ∷ []) × (format_int 999 ≡ 57 ∷ 57 ∷ 57 ∷ [])
unfolding format_int
format_int_texts = (refl, refl, refl)

-- The transport at the pointer `k` has the address `k`.
abbrev alone : Heap
unfolding new_local_transport
alone k = new_local_transport (k ∷ [])

alone-Mesh : Mesh alone
unfolding alone new_local_transport
alone-Mesh = record {
  named = λ lt tr a e. absurd (ground (arith, e));
  mutual_peers = λ lt tr a e. absurd (ground (arith, e));
  keyed = λ lt. tt;
}

alone-DistinctAddrs : DistinctAddrs alone
unfolding alone new_local_transport
alone-DistinctAddrs i j e = ground (arith, e)

connect_strangers-Mesh_example :
    (h : Heap) × (connect_strangers 1 (2 ∷ 1 ∷ 3 ∷ []) alone ≡ some h)
    × All (Linked 1 h) (2 ∷ 1 ∷ 3 ∷ [])
    × Extended alone h
    × Mesh h
connect_strangers-Mesh_example =
    connect_strangers-Mesh 1 (2 ∷ 1 ∷ 3 ∷ []) alone alone-Mesh alone-DistinctAddrs
