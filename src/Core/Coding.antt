-- ===== src/Core/Coding.antt =====
-- core/coding.go, and the methods `Encode` and `Decode` of core/transaction.go and core/block.go. What
-- gob makes of a value is a parameter; a decoder fills a new struct, and what it allocates stands at
-- the address given and after it. A block that comes without a header has no value here.
use goblockchain.Base.{
  ℕ, suc, ◌≡◌, refl, Option, none, some, List, [], ◌∷◌, ◌++◌, Result, ok, err, Go,
}
use goblockchain.Types.Hash.{zero_hash}
use goblockchain.Core.Data.{Transaction, Block, Error, encoding_failed, decoding_failed}

-- `gob.Encoder.Encode` and `gob.Decoder.Decode` on the values of a type.
pub record Codec (A : Type 0) : Type 0 where
  pub encode : A → Option (List ℕ)
  pub decode : ℕ → List ℕ → Option A

-- `Encoder[T]`, with what its writer holds, and `Decoder[T]`, with its reader.
abbrev pub Encoder : Type 0 → Type 0
Encoder A = A → Go Error (List ℕ) (Unit {0})

abbrev pub Decoder : Type 0 → Type 0
Decoder A = Result Error A

-- `gob.NewEncoder(w).Encode(a)`; nobody reads the writer after an error.
abbrev pub gob_encode : {A : Type 0} → Codec A → Encoder A
gob_encode c a buf = elim (c.encode a) [
  | none ↦ (err encoding_failed, buf)
  | some out ↦ (ok tt, buf ++ out)
]

-- `gob.NewDecoder(r).Decode(a)`
abbrev pub gob_decode : {A : Type 0} → Codec A → ℕ → List ℕ → Decoder A
gob_decode c addr r = elim (c.decode addr r) [ none ↦ err decoding_failed | some a ↦ ok a ]

pub gob_encode-some :
    {A : Type 0} (c : Codec A) (a : A) (buf out : List ℕ)
    → c.encode a ≡ some out
    → gob_encode c a buf ≡ (ok tt, buf ++ out)
gob_encode-some c a buf out e = rw (e, gob_encode) refl

pub gob_decode-some :
    {A : Type 0} (c : Codec A) (addr : ℕ) (r : List ℕ) (a : A)
    → c.decode addr r ≡ some a
    → gob_decode c addr r ≡ ok a
gob_decode-some c addr r a e = rw (e, gob_decode) refl

unfoldable pub default_block_encoder : Codec Block → Encoder Block
default_block_encoder c b = gob_encode c b

unfoldable pub default_block_decoder : Codec Block → ℕ → List ℕ → Decoder Block
default_block_decoder c addr r = gob_decode c addr r

unfoldable pub gob_tx_encoder : Codec Transaction → Encoder Transaction
gob_tx_encoder c t = gob_encode c t

unfoldable pub gob_tx_decoder : Codec Transaction → ℕ → List ℕ → Decoder Transaction
gob_tx_decoder c addr r = gob_decode c addr r

-- `Transaction.Encode`, `Transaction.Decode`, `Block.Encode` and `Block.Decode`
unfoldable pub encode_tx : Encoder Transaction → Transaction → Go Error (List ℕ) (Unit {0})
encode_tx enc t = enc t

unfoldable pub decode_tx : Decoder Transaction → Result Error Transaction
decode_tx dec = dec

unfoldable pub encode_block : Encoder Block → Block → Go Error (List ℕ) (Unit {0})
encode_block enc b = enc b

unfoldable pub decode_block : Decoder Block → Result Error Block
decode_block dec = dec

-- What a value is on arrival: gob writes the exported fields, and the others are zero, the hasher nil.
abbrev pub tx_received : Transaction → Transaction
tx_received t = record t { hash = zero_hash; created_at = 0; hasher = none }

abbrev pub txs_received : List Transaction → List Transaction
txs_received [] = []
txs_received (t ∷ txs) = tx_received t ∷ txs_received txs

abbrev pub block_received : ℕ → Block → Block
block_received addr b = record {
  header = record { addr = addr; target = b.header.target };
  transactions = txs_received b.transactions;
  validator = b.validator;
  signature = b.signature;
  hash = zero_hash;
}

abbrev pub blocks_received : ℕ → List Block → List Block
blocks_received addr [] = []
blocks_received addr (b ∷ blocks) = block_received addr b ∷ blocks_received (suc addr) blocks
