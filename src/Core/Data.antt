-- ===== src/Core/Data.antt =====
-- The structs of core/transaction.go and core/block.go. Go strings and byte slices are lists of bytes.
use goblockchain.Base.{
  ℕ, ◌≡◌, refl, ◌↔◌, Bool, true, false, ◌&&◌, Option, none, some, List, Eq, bytes_beq,
  bytes_beq_iff, ◌==◌, arith, ℤ,
}
use goblockchain.Types.Hash.{Hash}
use goblockchain.Vm.Value

-- The one implementation of `Hasher[*Transaction]` in the repository; a nil interface is `none`.
pub data TxHasher : Type 0 where
  default_tx_hasher : TxHasher

-- What a `*Transaction` points at. `tx_data` is its field `Data`; `created_at` is 0 for the zero time.
pub record Transaction : Type 0 where
  pub tx_data : List ℕ
  pub from : List ℕ
  pub signature : Option (List ℕ)
  pub hash : Hash
  pub created_at : ℕ
  pub hasher : Option TxHasher

pub record Header : Type 0 where
  pub version : ℕ
  pub data_hash : Hash
  pub previous_block_hash : Hash
  pub timestamp : ℕ
  pub height : ℕ

-- A `*Header`: its address, by which pointers are compared, and what stands there.
pub record HeaderPtr : Type 0 where
  pub addr : ℕ
  pub target : Header

-- What a `*Block` points at. `hash` is the cache of the header's hash.
pub record Block : Type 0 where
  pub header : HeaderPtr
  pub transactions : List Transaction
  pub validator : List ℕ
  pub signature : Option (List ℕ)
  pub hash : Hash

-- The errors of the package that callers can tell apart, each named for its message.
pub data Error : Type 0 where
  header_exists genesis_on_nonempty_chain : Error
  height_out_of_range unknown_hash key_not_in_store : Error
  block_at_height_exists previous_hash_mismatch : Error
  out_of_sync : ℤ → Error
  no_block_signature invalid_block_signature invalid_data_hash : Error
  no_tx_signature invalid_tx_signature : Error
  tx_verify_failed : ℕ → Error → Error
  signing_failed encoding_failed decoding_failed : Error
  vm_failed : Value.Error → Error

-- `reflect.DeepEqual` on two `*Transaction`: the same fields, cached ones included.
abbrev signature_beq : Option (List ℕ) → Option (List ℕ) → Bool
signature_beq none none = true
signature_beq (some a) (some b) = bytes_beq a b
signature_beq _ _ = false

abbrev hasher_beq : Option TxHasher → Option TxHasher → Bool
hasher_beq none none = true
hasher_beq (some default_tx_hasher) (some default_tx_hasher) = true
hasher_beq _ _ = false

unfoldable pub deep_equal : Transaction → Transaction → Bool
deep_equal s t =
    bytes_beq s.tx_data t.tx_data
    && (bytes_beq s.from t.from
        && (signature_beq s.signature t.signature
            && (bytes_beq s.hash t.hash
                && (s.created_at == t.created_at && hasher_beq s.hasher t.hasher))))

signature_beq_iff : (a b : Option (List ℕ)) → (signature_beq a b ≡ true) ↔ (a ≡ b)
signature_beq_iff none none = (λ _. refl, λ _. refl)
signature_beq_iff (some a) none = (λ e. ground arith, λ e. ground arith)
signature_beq_iff none (some b) = (λ e. ground arith, λ e. ground arith)
signature_beq_iff (some a) (some b) =
    (λ e. ground (arith, bytes_beq_iff a b), λ e. ground (arith, bytes_beq_iff a b))

hasher_beq_iff : (a b : Option TxHasher) → (hasher_beq a b ≡ true) ↔ (a ≡ b)
hasher_beq_iff none none = (λ _. refl, λ _. refl)
hasher_beq_iff (some default_tx_hasher) none = (λ e. ground arith, λ e. ground arith)
hasher_beq_iff none (some default_tx_hasher) = (λ e. ground arith, λ e. ground arith)
hasher_beq_iff (some default_tx_hasher) (some default_tx_hasher) = (λ _. refl, λ _. refl)

pub deep_equal_iff : (s t : Transaction) → (deep_equal s t ≡ true) ↔ (s ≡ t)
unfolding deep_equal
deep_equal_iff s t = (
  λ e. ground (
    arith,
    bytes_beq_iff s.tx_data t.tx_data,
    bytes_beq_iff s.from t.from,
    signature_beq_iff s.signature t.signature,
    bytes_beq_iff s.hash t.hash,
    hasher_beq_iff s.hasher t.hasher,
  ),
  λ e. ground (
    arith,
    bytes_beq_iff s.tx_data t.tx_data,
    bytes_beq_iff s.from t.from,
    signature_beq_iff s.signature t.signature,
    bytes_beq_iff s.hash t.hash,
    hasher_beq_iff s.hasher t.hasher,
  ),
)

instance abbrev pub transaction_eq : Eq Transaction
transaction_eq = record { beq = deep_equal; beq_iff = deep_equal_iff }
