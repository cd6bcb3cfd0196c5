-- ===== src/Server/Decode/Tests.antt =====
-- The round trip at a block with two transactions, and the addresses of the concrete decoders.
use goblockchain.Base.{
  All, Bool-cases, inl, inr, ◌+◌, ◌≤◌, length, if◌then◌else◌, ◌==◌, bytes_eq, ℕ, arith, suc, ◌≡◌,
  refl, none, some, ap, List, [], ◌∷◌,
}
use goblockchain.Types.Hash.{zero_hash}
use goblockchain.Core.Data.{Transaction, Block}
use goblockchain.Core.Block.{verify_block, block_hash, header_hash}
use goblockchain.Core.Block.Received.{verify_block-block_received}
use goblockchain.Core.Coding.{block_received}
use goblockchain.Core.Demo.{demo, demo-EncodesFields}
use goblockchain.Protocol.{GetBlocksResponse}
use goblockchain.Protocol.Payload.{of_block, Sendable}
use goblockchain.Protocol.Format.{codec_of-decodes, list_of}
use goblockchain.Protocol.Demo.{
  demo_gob, demo_gob-Delivers, block_format, block_parts, block_built, blocks_parts, blocks_built,
  BlockParts,
}
use goblockchain.Server.Decode.Allocation.{AllocatedFrom, Allocates}
use goblockchain.Server.Decode.Broadcast.{ReachesPeers, broadcast-ReachesPeers}
use goblockchain.Network.LocalTransport.{Heap, capacity}
use goblockchain.Network.LocalTransport.Delivery.{times}
use goblockchain.Network.LocalTransport.Joins.{Keyed}
use goblockchain.Network.LocalTransport.Connect.{Mesh}
use goblockchain.Base.Map.{Map}
use goblockchain.Server.Decode.RoundTrip.{Arrives, extract_message_from_rpc-Arrives}

abbrev tx_1 : Transaction
tx_1 = record {
  tx_data = 1 ∷ 2 ∷ [];
  from = 3 ∷ 4 ∷ [];
  signature = some (5 ∷ []);
  hash = 7 ∷ [];
  created_at = 8;
  hasher = none;
}

abbrev block_1 : Block
block_1 = record {
  header = record {
    addr = 300;
    target = record {
      version = 1;
      data_hash = 6 ∷ [];
      previous_block_hash = zero_hash;
      timestamp = 9;
      height = 1;
    };
  };
  transactions = tx_1 ∷ record tx_1 { signature = none } ∷ [];
  validator = 3 ∷ 4 ∷ [];
  signature = some (5 ∷ []);
  hash = zero_hash;
}

block_1-Sendable : Sendable (of_block block_1)
block_1-Sendable = (λ e. ground (arith, e), (λ e. ground (arith, e), (λ e. ground (arith, e), tt)))

extract_message_from_rpc-Arrives_example : Arrives demo_gob 900 (66 ∷ []) (of_block block_1)
extract_message_from_rpc-Arrives_example =
    extract_message_from_rpc-Arrives demo_gob demo_gob-Delivers 900 (66 ∷ []) (of_block block_1)
      block_1-Sendable

-- The transport 1 has the peers 2 and 3, each of these has it, and the others have none.
abbrev star_peers : ℕ → Map (List ℕ) ℕ
star_peers k =
    if k == 1
    then (2 ∷ [], 2) ∷ (3 ∷ [], 3) ∷ []
    else (if k == 2 then (1 ∷ [], 1) ∷ [] else (if k == 3 then (1 ∷ [], 1) ∷ [] else []))

abbrev star : Heap
star k = record { addr = k ∷ []; peers = star_peers k; recv_ch = [] }

star-Keyed : (k : ℕ) → All (Keyed star k) (star_peers k)
star-Keyed k = elim (Bool-cases (k == 1)) [
  | inl e ↦ rw e ((refl, rw e refl), ((refl, rw e refl), tt))
  | inr e ↦ elim (Bool-cases (k == 2)) [
    | inl f ↦ rw (e, f) ((refl, rw (e, f) refl), tt)
    | inr f ↦ elim (Bool-cases (k == 3)) [
      | inl g ↦ rw (e, f, g) ((refl, rw (e, f, g) refl), tt)
      | inr g ↦ rw (e, f, g) tt
    ]
  ]
]

star-Mesh : Mesh star
star-Mesh = record {
  named = λ lt tr a e. ground (arith, e);
  mutual_peers = λ lt tr a e. ground (arith, e);
  keyed = star-Keyed;
}

star_room : (k : ℕ) → length (star k).recv_ch + times k (star 1).peers ≤ capacity
star_room k = ground arith

broadcast-ReachesPeers_example : ReachesPeers demo_gob 900 (of_block block_1) 1 star
broadcast-ReachesPeers_example =
    broadcast-ReachesPeers demo_gob 900 (of_block block_1) 1 star demo_gob-Delivers block_1-Sendable
      star-Mesh star_room

verify_block-block_received_example :
    (verify_block demo (block_received 900 block_1) ≡ verify_block demo block_1)
    × ((block_hash demo (block_received 900 block_1)).0 ≡ header_hash demo block_1.header.target)
verify_block-block_received_example =
    verify_block-block_received demo demo-EncodesFields 900 block_1

blocks_built-AllocatedFrom :
    (addr : ℕ) (parts : List BlockParts) → AllocatedFrom addr (blocks_built addr parts)
blocks_built-AllocatedFrom addr [] = tt
blocks_built-AllocatedFrom addr (x ∷ parts) = (refl, blocks_built-AllocatedFrom (suc addr) parts)

pub demo_gob-Allocates : Allocates demo_gob
demo_gob-Allocates = record {
  blocks = λ addr d b e.
      let (w, same) = codec_of-decodes block_format block_parts block_built addr d b e in
      ap (λ (x : Block). x.header.addr) same;
  responses = λ addr d s e.
      let (w, same) =
        codec_of-decodes (list_of block_format) (λ (r : GetBlocksResponse). blocks_parts r.blocks)
          (λ k parts. record { blocks = blocks_built k parts }) addr d s e in
      rw same (blocks_built-AllocatedFrom addr w);
}
