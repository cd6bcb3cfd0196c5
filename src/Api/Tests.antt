-- ===== src/Api/Tests.antt =====
-- The handlers of api/server.go at concrete requests.
use goblockchain.Base.{
  ℕ, ◌%◌, ◌<◌, ◌≡◌, Bool, true, refl, none, some, List, [], ◌∷◌, ok, length, zero, suc, replicate,
  All, arith, get_elem?, pos, negsuc, nat_eq, bytes_eq,
}
use goblockchain.Types.Hash.{Hash, IsHash, is_zero, zero_hash, to_string}
use goblockchain.Core.Data.{Transaction, HeaderPtr, Block}
use goblockchain.Core.Platform.{Platform}
use goblockchain.Core.Transaction.{new_transaction, tx_hash, set_hasher, hash_with}
use goblockchain.Core.Block.{new_block, block_hash, header_hash, must_to_bytes}
use goblockchain.Core.HeaderStore
use goblockchain.Core.HeaderStore.{new_header_store}
use goblockchain.Core.Store.{new_mem_store, store_put}
use goblockchain.Core.Blockchain.{
  Blockchain, Session, new_blockchain, persist_block, store_block, index_txns,
}
use goblockchain.Core.Blockchain.Contents.{SameBlock}
use goblockchain.Core.Blockchain.TxIndex.{OneOf, filed_hash, IsFiled}
use goblockchain.Core.Demo.{demo, header_bytes}
use goblockchain.Vm.State.{new_state}
use goblockchain.Api.{
  json, Response, block_by_hash, transaction, status_ok, handle_get_block_by_hash,
  handle_get_transaction,
}
use goblockchain.Api.Number.{atoi, u32_of, digits}
use goblockchain.Api.Hashes.{persist_block-Served}

abbrev always : Response → Bool
always r = true

-- "42", "-1", "+7", "4x", "-" and "".
numbers :
    (atoi (52 ∷ 50 ∷ []) ≡ some (pos 42))
    × (atoi (45 ∷ 49 ∷ []) ≡ some (negsuc 0))
    × (atoi (43 ∷ 55 ∷ []) ≡ some (pos 7))
    × (atoi (52 ∷ 120 ∷ []) ≡ none)
    × (atoi (45 ∷ []) ≡ none)
    × (atoi [] ≡ none)
unfolding atoi digits
numbers = (refl, refl, refl, refl, refl, refl)

-- "4294967296", which is 2^32.
abbrev too_large : List ℕ
too_large = 52 ∷ 50 ∷ 57 ∷ 52 ∷ 57 ∷ 54 ∷ 55 ∷ 50 ∷ 57 ∷ 54 ∷ []

-- It is taken for 0.
too_large_height : (atoi too_large ≡ some (pos 4294967296)) × (u32_of (pos 4294967296) ≡ 0)
unfolding atoi digits u32_of
too_large_height = (refl, refl)

-- Hashes of 32 bytes that tell the length of the message.
abbrev padded : Platform
padded = record demo { sha256 = λ message. length message % 256 ∷ replicate 31 171 }

small : (n : ℕ) → All (λ b. b < 256) (replicate n 171)
small zero = tt
small (suc n) = (omega arith, small n)

padded-IsHash : (message : List ℕ) → IsHash (padded.sha256 message)
padded-IsHash message = (refl, (omega arith, small 31))

abbrev some_tx : Transaction
unfolding new_transaction
some_tx = new_transaction (3 ∷ 10 ∷ [])

abbrev some_header : HeaderPtr
some_header = record {
  addr = 5;
  target = record {
    version = 1;
    data_hash = zero_hash;
    previous_block_hash = zero_hash;
    timestamp = 9;
    height = 0;
  };
}

-- A chain without blocks is handed a block with one transaction.
abbrev first_session : Session
unfolding new_block new_mem_store
first_session = record {
  chain = record {
    headers = new_header_store;
    store = new_mem_store;
    tx_store = new_mem_store;
    contract_state = new_state;
  };
  block = new_block some_header (some_tx ∷ []);
}

abbrev first_chain : Blockchain
first_chain = (new_blockchain padded first_session.block).1.chain

abbrev first_hash : Hash
unfolding must_to_bytes
first_hash = elim (must_to_bytes padded some_header.target) [ ok out ↦ padded.sha256 out | _ ↦ [] ]

abbrev tx_id : Hash
tx_id = padded.sha256 (3 ∷ 10 ∷ [])

no_entries : IsFiled padded first_session.chain.tx_store
unfolding first_session new_mem_store
no_entries h w e = absurd (ground (arith, e))

first_hashed : (block_hash padded first_session.block).0 ≡ ok first_hash
unfolding first_session first_hash block_hash header_hash is_zero must_to_bytes new_block
first_hashed = refl

has_some_tx : get_elem? first_session.block.transactions 0 ≡ some some_tx
unfolding first_session some_tx new_block
has_some_tx = refl

some_tx_hash : filed_hash padded some_tx ≡ ok tx_id
unfolding some_tx tx_hash set_hasher hash_with is_zero new_transaction
some_tx_hash = refl

first_persists : (persist_block padded first_session).0 ≡ ok tt
unfolding first_session some_tx persist_block store_block index_txns tx_hash set_hasher hash_with
    is_zero new_transaction block_hash header_hash must_to_bytes new_block new_mem_store
    HeaderStore.put store_put
first_persists = refl

persist_block-Served_example :
    let bc = (persist_block padded first_session).1.chain in
    ((b : Block) × (handle_get_block_by_hash always (to_string first_hash) bc
        ≡ json always status_ok (block_by_hash first_hash b))
      × SameBlock first_session.block b)
    × ((w : Transaction) × (handle_get_transaction always (to_string tx_id) bc
          ≡ json always status_ok (transaction tx_id w))
        × (w.hash ≡ tx_id)
        × OneOf padded tx_id first_session.block.transactions w)
unfolding first_hash must_to_bytes
persist_block-Served_example =
    persist_block-Served padded always first_session first_hash tx_id 0 some_tx no_entries
      (padded-IsHash (header_bytes some_header.target)) (padded-IsHash (3 ∷ 10 ∷ [])) first_hashed
      has_some_tx some_tx_hash first_persists
