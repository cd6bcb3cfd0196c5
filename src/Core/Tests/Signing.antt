-- ===== src/Core/Tests/Signing.antt =====
-- The theorems on signed blocks (core/block.go) at the block after the genesis block.
use goblockchain.Core.Tests.Scenario.{genesis, sum_tx, unsigned, signed}
use goblockchain.Base.{
  ℕ, zero, suc, ◌++◌, ◌≡◌, refl, sym, ap, some, List, [], ◌∷◌, ok, Result, take, replicate, arith,
  bytes_beq_iff,
}
use goblockchain.Core.Data.{HeaderPtr, Block, Error}
use goblockchain.Core.Platform.{Platform, SignsSoundly, SignsPrefix}
use goblockchain.Types.Hash.{Hash, zero_hash, is_zero}
use goblockchain.Vm.Machine.{run, run_loop, round, exec, operand, instruction, new_vm}
use goblockchain.Crypto
use goblockchain.Vm.Stack.{push, pop, empty, new_stack}
use goblockchain.Core.HeaderStore
use goblockchain.Core.Store.{store_put, new_mem_store}
use goblockchain.Core.Transaction.{
  new_transaction, sign_tx, verify_tx, tx_hash, set_hasher, hash_with, calculate_data_hash,
  encode_loop,
}
use goblockchain.Core.Block.{
  must_to_bytes, new_block, block_hash, header_hash, sign_block, verify_block, verify_txns,
  verify_data_hash, new_block_from_prev_header, new_header_from_prev,
}
use goblockchain.Core.Block.Signing.{AllVerify, verify_block-sign_block}
use goblockchain.Core.Block.Build.{sign_block-new_block_from_prev_header}
use goblockchain.Core.Blockchain.{
  add_genesis_block, has_block_at_height, get_header, run_block, run_txns, store_block, index_txns,
  height, validate_block, add_block, persist_block, new_blockchain,
}
use goblockchain.Core.Demo.{
  demo, demo_key, demo-SignsSoundly, demo-EncodesFields, check_signature, header_bytes,
}

all_verify : AllVerify demo (unsigned (sum_tx ∷ [])).transactions
unfolding add_block validate_block has_block_at_height height HeaderStore.height get_header
    HeaderStore.get_at verify_block verify_txns verify_tx verify_data_hash calculate_data_hash
    encode_loop Crypto.verify Crypto.sign Crypto.public_key must_to_bytes header_hash block_hash
    is_zero run_block run_txns run run_loop round exec operand new_vm instruction push pop empty
    new_stack persist_block store_block index_txns tx_hash set_hasher hash_with HeaderStore.put
    store_put new_blockchain add_genesis_block new_mem_store HeaderStore.empty new_block sign_block
    sign_tx new_transaction new_block_from_prev_header new_header_from_prev
all_verify = (refl, tt)

signs : (sign_block demo 0 (record { key = some demo_key }) (unsigned (sum_tx ∷ []))).0 ≡ ok tt
unfolding add_block validate_block has_block_at_height height HeaderStore.height get_header
    HeaderStore.get_at verify_block verify_txns verify_tx verify_data_hash calculate_data_hash
    encode_loop Crypto.verify Crypto.sign Crypto.public_key must_to_bytes header_hash block_hash
    is_zero run_block run_txns run run_loop round exec operand new_vm instruction push pop empty
    new_stack persist_block store_block index_txns tx_hash set_hasher hash_with HeaderStore.put
    store_put new_blockchain add_genesis_block new_mem_store HeaderStore.empty new_block sign_block
    sign_tx new_transaction new_block_from_prev_header new_header_from_prev
signs = refl

-- Signatures on the first 32 bytes, and headers that are written behind 32 bytes of description.
abbrev truncating : Platform
truncating = record demo {
  sign_asn1 = λ entropy key message. some (key.public.0 ∷ take 32 message);
  verify_asn1 = λ q message sig. check_signature q (take 32 message) sig;
  encode_header = λ h. some (replicate 32 1 ++ header_bytes h);
}

take_twice : (n : ℕ) (xs : List ℕ) → take n (take n xs) ≡ take n xs
take_twice zero xs = refl
take_twice (suc n) [] = refl
take_twice (suc n) (x ∷ xs) = ap (λ l. x ∷ l) (take_twice n xs)

truncating-SignsPrefix : SignsPrefix truncating
truncating-SignsPrefix = record {
  truncates = λ q message sig. ap (λ m. check_signature q m sig) (sym (take_twice 32 message));
}

truncating-SignsSoundly : SignsSoundly truncating demo_key
truncating-SignsSoundly = record {
  verifies = λ entropy message signature e.
      ground (arith, bytes_beq_iff signature (demo_key.public.0 ∷ take 32 message));
  reads_back = refl;
}

-- Its `DataHash` is not up to date.
abbrev stale : Block
unfolding new_block
stale = new_block genesis.header (sum_tx ∷ [])

abbrev data_hash_of : Result Error Hash → Hash
data_hash_of (ok h) = h
data_hash_of _ = zero_hash

-- The header of `stale` at another height, with the hash of its transactions.
abbrev forged_header : HeaderPtr
unfolding calculate_data_hash encode_loop
forged_header = record {
  addr = 300;
  target = record genesis.header.target {
    height = 7;
    data_hash = data_hash_of (calculate_data_hash truncating (sum_tx ∷ []));
  };
}

stale_verifies : AllVerify truncating stale.transactions
unfolding stale forged_header new_block calculate_data_hash encode_loop sign_block must_to_bytes
    verify_tx Crypto.verify Crypto.sign Crypto.public_key sign_tx new_transaction
stale_verifies = (refl, tt)

stale_signs : (sign_block truncating 0 (record { key = some demo_key }) stale).0 ≡ ok tt
unfolding stale forged_header new_block calculate_data_hash encode_loop sign_block must_to_bytes
    verify_tx Crypto.verify Crypto.sign Crypto.public_key sign_tx new_transaction
stale_signs = refl

forged_hash : calculate_data_hash truncating stale.transactions ≡ ok forged_header.target.data_hash
unfolding stale forged_header new_block calculate_data_hash encode_loop sign_block must_to_bytes
    verify_tx Crypto.verify Crypto.sign Crypto.public_key sign_tx new_transaction
forged_hash = refl

verify_block-sign_block_example :
    verify_block truncating
      (record (sign_block truncating 0 (record { key = some demo_key }) stale).1 {
        header = forged_header;
      })
    ≡ ok tt
verify_block-sign_block_example =
    verify_block-sign_block truncating 0 demo_key stale forged_header
      (replicate 32 1 ++ header_bytes stale.header.target)
      (replicate 32 1 ++ header_bytes forged_header.target) truncating-SignsSoundly
      truncating-SignsPrefix stale_verifies stale_signs forged_hash refl refl refl

built :
    new_block_from_prev_header demo 200 9 genesis.header.target (sum_tx ∷ [])
    ≡ ok (unsigned (sum_tx ∷ []))
unfolding add_block validate_block has_block_at_height height HeaderStore.height get_header
    HeaderStore.get_at verify_block verify_txns verify_tx verify_data_hash calculate_data_hash
    encode_loop Crypto.verify Crypto.sign Crypto.public_key must_to_bytes header_hash block_hash
    is_zero run_block run_txns run run_loop round exec operand new_vm instruction push pop empty
    new_stack persist_block store_block index_txns tx_hash set_hasher hash_with HeaderStore.put
    store_put new_blockchain add_genesis_block new_mem_store HeaderStore.empty new_block sign_block
    sign_tx new_transaction new_block_from_prev_header new_header_from_prev
built = refl

sum_tx_verifies : AllVerify demo (sum_tx ∷ [])
unfolding add_block validate_block has_block_at_height height HeaderStore.height get_header
    HeaderStore.get_at verify_block verify_txns verify_tx verify_data_hash calculate_data_hash
    encode_loop Crypto.verify Crypto.sign Crypto.public_key must_to_bytes header_hash block_hash
    is_zero run_block run_txns run run_loop round exec operand new_vm instruction push pop empty
    new_stack persist_block store_block index_txns tx_hash set_hasher hash_with HeaderStore.put
    store_put new_blockchain add_genesis_block new_mem_store HeaderStore.empty new_block sign_block
    sign_tx new_transaction new_block_from_prev_header new_header_from_prev
sum_tx_verifies = (refl, tt)

sign_block-new_block_from_prev_header_example :
    let b = signed (sum_tx ∷ []) in
    (verify_block demo b ≡ ok tt)
    × (b.header.target.height ≡ 1)
    × (header_hash demo genesis.header.target ≡ ok b.header.target.previous_block_hash)
    × (b.transactions ≡ sum_tx ∷ [])
unfolding new_block_from_prev_header new_header_from_prev header_hash must_to_bytes
    calculate_data_hash encode_loop new_block sign_block Crypto.sign Crypto.public_key sign_tx
    new_transaction
sign_block-new_block_from_prev_header_example =
    sign_block-new_block_from_prev_header demo 0 200 9 demo_key genesis.header.target (sum_tx ∷ [])
      (unsigned (sum_tx ∷ [])) demo-SignsSoundly demo-EncodesFields sum_tx_verifies built signs
