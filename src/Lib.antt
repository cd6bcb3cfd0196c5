-- ===== src/Lib.antt =====
-- The verification library of goblockchain: models of its packages and the theorems that make them
-- correct.
--
-- The program is a proof-of-authority chain. A node (server/) takes transactions from the network or
-- the HTTP API into a pool; a validator builds a block from the pending ones, signs it and adds it to
-- its chain (core/), and others validate the block and add it to theirs. To add a block is to run the
-- bytes of each transaction on a stack machine (vm/) over the contract state that all transactions
-- share, then to file the header, the block and the transactions. Hashes, addresses and the generic
-- list are in types/, keys and signatures in crypto/.
--
-- Which file models what:
--   Base            Go's outcomes (a value, an error, a panic), state passing, lists and maps.
--   Types/Hash      types/hash.go: all of its functions.
--   Types/Address   types/address.go: ToSlice, MustAddressFromBytes, String.
--   Types/GoList    types/list.go: List with all its methods.
--   Vm/Value        the values of the stack, the keys and errors of vm/.
--   Vm/Stack        vm/stack.go: NewStack, MaxStack, Push, Pop, Peek, read.
--   Vm/State        vm/state.go: Put, Delete, Get.
--   Vm/Machine      vm/vm.go, vm/instruction.go: NewVM, Exec, Run.
--   Crypto          crypto/keypair.go: all of its functions.
--   Core/Data       the structs of core/; Core/Platform, the libraries that the program calls.
--   Core/Transaction, Core/Block
--                   core/transaction.go, core/block.go, core/hasher.go: hashes with their caches, Sign
--                   and Verify, calculateDataHash, NewBlockFromPrevHeader.
--   Core/HeaderStore, Core/Store, Core/Blockchain
--                   core/blockchain.go, core/storage.go, core/validator.go: headerStore,
--                   GenericMemStore, ValidateBlock, AddBlock, persistBlock, NewBlockchain, the queries.
--   Server/TxOrderedMap, Server/TxPool
--                   server/txpool.go: TxOrderedMap, and TxPool with Add, Pending, ClearPending.
--   Core/Coding     core/coding.go: the coders of blocks and transactions over gob.
--   Network/Rpc     network/rpc.go, network/transport.go: RPC, DecodedMessage, Pipe.
--   Network/Envelope
--                   network/tcp_envelope.go: encodeEnvelope, decodeEnvelope.
--   Network/TcpTransport
--                   network/tcp_transport.go: NewTcpTransport, Get, IsConnected, Connect, Send,
--                   Broadcast, listen, read.
--   Network/LocalTransport
--                   network/local_transport.go: all of its methods.
--   Protocol        protocol/message.go, protocol/status_message.go: Message and its constructors.
--   Server/Decode   server/rpc_decode_func.go: ExtractMessageFromRPC.
--   Server/Node     server/server_internal.go: handleTransaction, createNewBlock, handleBlock,
--                   requestBlocks, handleGetBlocksRequest, handleGetBlocksResponse.
--   Server/Node/Status
--                   the status messages there, server/handle_subscribe.go, and Subscribe and Join of
--                   server/server.go.
--   Server/Node/Dispatch
--                   ProcessMessage of server/server.go, and the rounds of processChannels and
--                   runValidator.
--   Server/Setup    server/server.go: NewServer, createGenesis, Connect.
--   Server/Peers    server/server.go: Peers.
--   Api             api/server.go: the four handlers and the routes; Api/Number, the numbers in paths.
-- The modules below these hold the theorems, named for what they are about. Tests hold runs at
-- concrete inputs; Core/Demo and Protocol/Demo have the concrete libraries they run on.
--
-- How the parts meet. A handler of Server/Node posts what it sends to an outbox, as a value. On the
-- wire such a value is a message (Protocol) in an envelope (Network/Envelope), which the read loop of
-- the other end (Network/TcpTransport) puts on a channel as an RPC; Server/Decode makes the value of
-- it again, and Server/Node/Dispatch hands it to its handler, one round after the other.
--
-- How state and calls correspond. A method with a pointer receiver takes the struct and returns its
-- outcome with the struct after it, whatever the outcome, since Go keeps what was written before an
-- error. A pointer argument that the callee writes through is part of the state (`Session` has the
-- chain and the block that AddBlock was handed). A nil pointer or interface is `none`. `*Header` keys
-- the block store by its address, so a header pointer is an address with its target. An error is a
-- constructor named for its message; a panic is named for its cause.
--
-- Numbers. An `int` of the machine is its 64-bit pattern, and addition wraps; heights are uint32 and
-- wrap at 2^32; bytes are numbers, bounded where a theorem needs it. `make` panics above 2^48 bytes.
-- Loops over slices are structural. `Run` has fuel for one round more than the code has bytes, which
-- is enough since each round moves the instruction pointer on by one; the loop over the blocks that
-- a peer asks for has one round for each block and one to leave it. The outcome `stuck` is excluded by
-- theorem.
--
-- `Connect` of two local transports ends within three calls of itself, which is a theorem as well.
--
-- Libraries. SHA-256, ECDSA with its point compression, and gob's encoding of headers and
-- transactions are the fields of `Platform`, with `SignsSoundly`, `SignsPrefix`, `SignsAlways` and
-- `EncodesFields` for what is relied on; gob on the types that go over the wire is `Gob`, with
-- `Delivers` and `Allocates`. The clock, the randomness of signing and the addresses of new objects are
-- arguments, as are the number of bytes that a `Read` returns, whether an answer of api/ is written,
-- and the JSON decoder of a transaction.
--
-- Not modelled: logging and locks; the goroutine of GenericMemStore serves one request at a time, so
-- that a call is one step. The handlers and the validator loop take turns, and what a goroutine is
-- started to send goes to an outbox. The goroutines of Start, the HTTP listener of api/ and main.go
-- are input and output alone.
pub mod Base
pub mod Types
pub mod Vm
pub mod Crypto
pub mod Core
pub mod Network
pub mod Protocol
pub mod Server
pub mod Api
