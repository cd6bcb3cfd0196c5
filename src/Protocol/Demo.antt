-- ===== src/Protocol/Demo.antt =====
-- Codecs for the tests that write the exported fields and read them back.
use goblockchain.Base.{ℕ, suc, ◌≡◌, refl, ap, ◌∙◌, Option, none, some, List, [], ◌∷◌}
use goblockchain.Types.Hash.{zero_hash}
use goblockchain.Core.Data.{Transaction, Header, Block}
use goblockchain.Core.Coding.{tx_received, txs_received, block_received, blocks_received}
use goblockchain.Protocol.{Gob, Message}
use goblockchain.Protocol.Payload.{Delivers, SendsSignature, SendsTxs, SendsBlock, SendsBlocks}
use goblockchain.Protocol.Format.{Format, number, pair_with, list_of, codec_of, codec_of-ReadsBack}

abbrev pub Bytes : Type 0
Bytes = List ℕ

abbrev bytes : Format Bytes
bytes = list_of number

-- An empty slice behind a pointer reads as no pointer.
abbrev slice_bytes : Option Bytes → Bytes
slice_bytes none = []
slice_bytes (some b) = b

abbrev read_slice : Bytes → Option Bytes
read_slice [] = none
read_slice (x ∷ xs) = some (x ∷ xs)

read_slice_lem : (s : Option Bytes) → SendsSignature s → read_slice (slice_bytes s) ≡ s
read_slice_lem none w = refl
read_slice_lem (some []) w = absurd (w refl)
read_slice_lem (some (x ∷ xs)) w = refl

abbrev pub TxParts : Type 0
TxParts = Bytes × (Bytes × Bytes)

abbrev tx_format : Format TxParts
tx_format = pair_with bytes (pair_with bytes bytes)

abbrev tx_parts : Transaction → TxParts
tx_parts t = (t.tx_data, (t.from, slice_bytes t.signature))

abbrev tx_built : TxParts → Transaction
tx_built (d, (f, s)) = record {
  tx_data = d;
  from = f;
  signature = read_slice s;
  hash = zero_hash;
  created_at = 0;
  hasher = none;
}

tx_built_lem :
    (t : Transaction) → SendsSignature t.signature → tx_built (tx_parts t) ≡ tx_received t
tx_built_lem t w = ap (λ s. record (tx_received t) { signature = s }) (read_slice_lem t.signature w)

abbrev all_parts : List Transaction → List TxParts
all_parts [] = []
all_parts (t ∷ txs) = tx_parts t ∷ all_parts txs

abbrev all_built : List TxParts → List Transaction
all_built [] = []
all_built (t ∷ txs) = tx_built t ∷ all_built txs

all_built_lem :
    (txs : List Transaction) → SendsTxs txs → all_built (all_parts txs) ≡ txs_received txs
all_built_lem [] w = refl
all_built_lem (t ∷ txs) (w, ws) =
    ap (λ x. x ∷ all_built (all_parts txs)) (tx_built_lem t w)
    ∙ ap (λ xs. tx_received t ∷ xs) (all_built_lem txs ws)

abbrev pub HeaderParts : Type 0
HeaderParts = ℕ × (Bytes × (Bytes × (ℕ × ℕ)))

abbrev pub BlockParts : Type 0
BlockParts = HeaderParts × (List TxParts × (Bytes × Bytes))

abbrev pub block_format : Format BlockParts
block_format =
    pair_with (pair_with number (pair_with bytes (pair_with bytes (pair_with number number))))
      (pair_with (list_of tx_format) (pair_with bytes bytes))

abbrev header_parts : Header → HeaderParts
header_parts h = (h.version, (h.data_hash, (h.previous_block_hash, (h.timestamp, h.height))))

abbrev header_built : HeaderParts → Header
header_built (v, (d, (prev, (t, h)))) = record {
  version = v;
  data_hash = d;
  previous_block_hash = prev;
  timestamp = t;
  height = h;
}

abbrev pub block_parts : Block → BlockParts
block_parts b = (
  header_parts b.header.target,
  (all_parts b.transactions, (b.validator, slice_bytes b.signature)),
)

abbrev pub block_built : ℕ → BlockParts → Block
block_built addr (h, (txs, (v, s))) = record {
  header = record { addr = addr; target = header_built h };
  transactions = all_built txs;
  validator = v;
  signature = read_slice s;
  hash = zero_hash;
}

block_built_lem :
    (addr : ℕ) (b : Block) → SendsBlock b → block_built addr (block_parts b) ≡ block_received addr b
block_built_lem addr b (w, ws) =
    ap (λ s. record (block_built addr (block_parts b)) { signature = s })
      (read_slice_lem b.signature w)
    ∙ ap (λ txs. record (block_received addr b) { transactions = txs })
        (all_built_lem b.transactions ws)

abbrev pub blocks_parts : List Block → List BlockParts
blocks_parts [] = []
blocks_parts (b ∷ bs) = block_parts b ∷ blocks_parts bs

abbrev pub blocks_built : ℕ → List BlockParts → List Block
blocks_built addr [] = []
blocks_built addr (b ∷ bs) = block_built addr b ∷ blocks_built (suc addr) bs

blocks_built_lem :
    (addr : ℕ) (bs : List Block)
    → SendsBlocks bs
    → blocks_built addr (blocks_parts bs) ≡ blocks_received addr bs
blocks_built_lem addr [] w = refl
blocks_built_lem addr (b ∷ bs) (w, ws) =
    ap (λ x. x ∷ blocks_built (suc addr) (blocks_parts bs)) (block_built_lem addr b w)
    ∙ ap (λ xs. block_received addr b ∷ xs) (blocks_built_lem (suc addr) bs ws)

abbrev message_parts : Message → ℕ × Bytes
message_parts m = (m.message_type, slice_bytes m.message_data)

abbrev message_built : ℕ → ℕ × Bytes → Message
message_built addr (t, d) = record { message_type = t; message_data = read_slice d }

message_built_lem :
    (addr : ℕ) (m : Message)
    → SendsSignature m.message_data
    → message_built addr (message_parts m) ≡ m
message_built_lem addr m w =
    ap (λ d. record m { message_data = d }) (read_slice_lem m.message_data w)

abbrev pub demo_gob : Gob
demo_gob = record {
  messages = codec_of (pair_with number bytes) message_parts message_built;
  txs = codec_of tx_format tx_parts (λ _ w. tx_built w);
  blocks = codec_of block_format block_parts block_built;
  status_requests = codec_of bytes (λ s. s.requestor_id) (λ _ w. record { requestor_id = w });
  status_responses =
      codec_of (pair_with bytes (pair_with number number))
        (λ s. (s.server_id, (s.current_height, s.version)))
        (λ _ w. record { server_id = w.0; current_height = w.1.0; version = w.1.1 });
  subscribe_requests =
      codec_of (pair_with bytes bytes) (λ s. (s.requestor_id, s.handle))
        (λ _ w. record { requestor_id = w.0; handle = w.1 });
  subscribe_responses = codec_of bytes (λ s. s.provider_id) (λ _ w. record { provider_id = w });
  get_blocks_requests =
      codec_of (pair_with bytes number) (λ s. (s.requestor_id, s.start_height))
        (λ _ w. record { requestor_id = w.0; start_height = w.1 });
  get_blocks_responses =
      codec_of (list_of block_format) (λ s. blocks_parts s.blocks)
        (λ addr w. record { blocks = blocks_built addr w });
}

pub demo_gob-Delivers : Delivers demo_gob
demo_gob-Delivers = record {
  messages =
      codec_of-ReadsBack (pair_with number bytes) message_parts message_built _ _ message_built_lem;
  txs = codec_of-ReadsBack tx_format tx_parts (λ _ w. tx_built w) _ _ (λ _ t w. tx_built_lem t w);
  blocks = codec_of-ReadsBack block_format block_parts block_built _ _ block_built_lem;
  status_requests = codec_of-ReadsBack bytes _ _ _ _ (λ _ _ _. refl);
  status_responses =
      codec_of-ReadsBack (pair_with bytes (pair_with number number)) _ _ _ _ (λ _ _ _. refl);
  subscribe_requests = codec_of-ReadsBack (pair_with bytes bytes) _ _ _ _ (λ _ _ _. refl);
  subscribe_responses = codec_of-ReadsBack bytes _ _ _ _ (λ _ _ _. refl);
  get_blocks_requests = codec_of-ReadsBack (pair_with bytes number) _ _ _ _ (λ _ _ _. refl);
  get_blocks_responses =
      codec_of-ReadsBack (list_of block_format) (λ s. blocks_parts s.blocks)
        (λ addr w. record { blocks = blocks_built addr w }) _ _
        (λ addr s w. ap (λ bs. record { blocks = bs }) (blocks_built_lem addr s.blocks w));
}
