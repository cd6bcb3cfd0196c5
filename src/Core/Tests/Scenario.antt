-- ===== src/Core/Tests/Scenario.antt =====
-- The chain and the blocks of the tests: a genesis block, and the block after it with given code.
use goblockchain.Base.{ℕ, some, List, [], ◌∷◌, ok}
use goblockchain.Types.Hash.{zero_hash}
use goblockchain.Crypto
use goblockchain.Core.Data.{Transaction, Block}
use goblockchain.Core.Transaction.{new_transaction, sign_tx, calculate_data_hash, encode_loop}
use goblockchain.Core.Block.{
  must_to_bytes, new_block, header_hash, sign_block, new_block_from_prev_header,
  new_header_from_prev,
}
use goblockchain.Core.Blockchain.{Blockchain, Session, new_blockchain}
use goblockchain.Core.Demo.{demo, demo_key}

abbrev pub genesis : Block
unfolding new_block
genesis =
    new_block
      (record {
        addr = 100;
        target = record {
          version = 1;
          data_hash = zero_hash;
          previous_block_hash = zero_hash;
          timestamp = 9;
          height = 0;
        };
      })
      []

abbrev pub genesis_chain : Blockchain
genesis_chain = (new_blockchain demo genesis).1.chain

-- A transaction with this code, signed.
abbrev pub signed_tx : List ℕ → Transaction
unfolding new_transaction sign_tx Crypto.sign Crypto.public_key
signed_tx code = (sign_tx demo 0 (record { key = some demo_key }) (new_transaction code)).1

-- 3 + 4 on the machine: push 3, push 4, add.
abbrev pub sum_tx : Transaction
sum_tx = signed_tx (3 ∷ 10 ∷ 4 ∷ 10 ∷ 11 ∷ [])

-- The block after the genesis block with these transactions, before and after it is signed.
abbrev pub unsigned : List Transaction → Block
unfolding new_block_from_prev_header new_header_from_prev header_hash must_to_bytes
    calculate_data_hash encode_loop new_block sign_block Crypto.sign Crypto.public_key sign_tx
    new_transaction
unsigned txns = elim (new_block_from_prev_header demo 200 9 genesis.header.target txns) [
  | ok b ↦ b
  | _ ↦ genesis
]

abbrev pub signed : List Transaction → Block
unfolding new_block_from_prev_header new_header_from_prev header_hash must_to_bytes
    calculate_data_hash encode_loop new_block sign_block Crypto.sign Crypto.public_key sign_tx
    new_transaction
signed txns = (sign_block demo 0 (record { key = some demo_key }) (unsigned txns)).1

abbrev pub session : List Transaction → Session
session txns = record { chain = genesis_chain; block = signed txns }

abbrev pub next_session : Session
next_session = session (sum_tx ∷ [])
