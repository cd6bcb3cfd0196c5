-- ===== src/Server/Setup.antt =====
-- `NewServer`, `createGenesis` and `Connect` of server/server.go. Loggers are left out, and so are the
-- channels and the functions that a server is given in place of its own.
pub mod Ready
pub mod Joined
mod Tests
use goblockchain.Base.{
  ℕ, zero, suc, ◌+◌, ◌/◌, ◌%◌, Bool, not, List, [], ◌∷◌, ◌++◌, Option, none, some, Result, ok, err,
  panic, stuck, if◌then◌else◌, bytes_beq, ◌==◌, ltb,
}
use goblockchain.Base.Map.{Map}
use goblockchain.Types.Hash.{zero_hash}
use goblockchain.Crypto
use goblockchain.Crypto.{PrivateKey}
use goblockchain.Core.Data
use goblockchain.Core.Data.{TxHasher, default_tx_hasher, Block}
use goblockchain.Core.Platform.{Platform}
use goblockchain.Core.Block.{new_block}
use goblockchain.Core.Blockchain.{Blockchain, Session, new_blockchain}
use goblockchain.Network.Rpc.{Pipe}
use goblockchain.Network.LocalTransport.{Heap, connect}
use goblockchain.Server.TxPool.{new_tx_pool, with_hasher}
use goblockchain.Server.Node.{Node}
use goblockchain.Server.Node.Dispatch.{Server}

-- Of the transport the address and the pipes count. A nil hasher or chain is `none`.
pub record ServerOpts : Type 0 where
  pub id : List ℕ
  pub addr : List ℕ
  pub connections : Map (List ℕ) Pipe
  pub private_key : PrivateKey
  pub block_time : ℕ
  pub tx_hasher : Option TxHasher
  pub blockchain : Option Blockchain

-- The server with its other fields; the time is in nanoseconds.
pub record Started : Type 0 where
  pub server : Server
  pub block_time : ℕ
  pub is_validator : Bool

abbrev pub default_block_time : ℕ
default_block_time = 5000000000

-- `strconv.FormatInt` of a number below 1000.
unfoldable pub format_int : ℕ → List ℕ
format_int n =
    (if ltb n 100 then [] else (n / 100 + 48) ∷ [])
    ++ (if ltb n 10 then [] else (n / 10 % 10 + 48) ∷ [])
    ++ ((n % 10 + 48) ∷ [])

abbrev pub id_or : ℕ → List ℕ → List ℕ
id_or random [] = format_int random
id_or random (c ∷ cs) = c ∷ cs

abbrev pub hasher_or_default : Option TxHasher → TxHasher
hasher_or_default none = default_tx_hasher
hasher_or_default (some h) = h

-- `createGenesis`; the header is allocated at `addr`.
unfoldable pub create_genesis : ℕ → Block
unfolding new_block
create_genesis addr =
    new_block
      (record {
        addr = addr;
        target = record {
          version = 1;
          data_hash = zero_hash;
          previous_block_hash = zero_hash;
          timestamp = 1000000;
          height = 0;
        };
      })
      []

-- The end of `NewServer`.
unfoldable pub server_with : ℕ → ℕ → ServerOpts → Blockchain → Started
server_with random addr opts chain = record {
  server = record {
    node = record {
      id = id_or random opts.id;
      addr = opts.addr;
      connections = opts.connections;
      chain = chain;
      pool = new_tx_pool (with_hasher (hasher_or_default opts.tx_hasher) ∷ []);
      key = opts.private_key;
      peers = [];
      outbox = [];
    };
    next_addr = addr;
    errors = [];
  };
  block_time = if opts.block_time == 0 then default_block_time else opts.block_time;
  is_validator = not (Crypto.is_zero opts.private_key);
}

abbrev pub after_genesis :
    (Blockchain → Started) → Result Data.Error (Unit {0}) × Session → Result Data.Error Started
after_genesis f (ok _, s) = ok (f s.chain)
after_genesis f (err e, s) = err e
after_genesis f (panic q, s) = panic q
after_genesis f (stuck, s) = stuck

abbrev pub with_chain :
    Platform → ℕ → ℕ → ServerOpts → Option Blockchain → Result Data.Error Started
with_chain p random addr opts (some chain) = ok (server_with random addr opts chain)
with_chain p random addr opts none =
    after_genesis (server_with random (addr + 1) opts) (new_blockchain p (create_genesis addr))

-- `NewServer`; `random` is below 1000, and `addr` the next free address.
unfoldable pub new_server : Platform → ℕ → ℕ → ServerOpts → Result Data.Error Started
new_server p random addr opts = with_chain p random addr opts opts.blockchain

-- A round of the loop of `Connect`: a transport with the address of the server's own is passed over.
abbrev pub connect_stranger : ℕ → ℕ → Heap → Option Heap
connect_stranger lt pt h =
    let connected = connect lt pt h in
    if bytes_beq (h lt).addr (h pt).addr then some h else connected

-- `Connect`, on transports of one process.
unfoldable pub connect_strangers : ℕ → List ℕ → Heap → Option Heap
connect_strangers lt [] h = some h
connect_strangers lt (pt ∷ strangers) h = elim (connect_stranger lt pt h) [
  | none ↦ none
  | some h' ↦ connect_strangers lt strangers h'
]
