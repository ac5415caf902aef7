-- ===== src/Lib.antt =====
-- BaaLS, an embedded blockchain ledger: the models of its Rust sources, and what is proved of them.
--
-- The program. `Runtime` (src/runtime.rs) holds a mempool and the chain state behind mutexes. It
-- takes transactions in, has a consensus engine (src/consensus.rs) make a block of them, has the
-- ledger (src/ledger.rs) validate and apply it, and offers it to the peers (src/sync.rs). The ledger
-- reads accounts and blocks from a storage (src/storage.rs) and hands contract payloads to a contract
-- engine (src/contracts.rs). src/types.rs has the data, and what is hashed and signed. src/main.rs is
-- the command line.
--
-- The files.
--   Types           src/types.rs: the data, calculate_hash, sign, verify_signature; Types/Keys has
--                   the keys and signatures from bytes, addresses, and their serde implementations
--   Storage         src/storage.rs: the trait Storage, as a record of operations
--   SledStorage     src/storage.rs: SledStorage; its methods are in SledStorage/Operations, and
--                   SledStorage/Laws has what is assumed of sled, bincode and hex;
--                   SledStorage/Specification is an abstract store: what each read answers, and what
--                   each writing method makes of the answers
--   BTreeMap        the map keyed by public keys that src/ledger.rs uses
--   Contracts       src/contracts.rs: the trait ContractEngine and BaaLSContractEngine
--   Consensus       src/consensus.rs: the trait ConsensusEngine and PoAConsensus
--   Ledger          src/ledger.rs: errors; Ledger/Validation has initialize_chain and
--                   validate_block, Ledger/Transactions the loop of apply_block, and
--                   Ledger/Application the rest of it; Ledger/Chain has the sequences of blocks
--                   that are validated and applied
--   Production      src/consensus.rs against src/ledger.rs
--   Runtime         src/runtime.rs: the state and the locks; the calls are in Runtime/Calls, and
--                   Runtime/Steps has the sequences of calls by several threads; Runtime/Threads
--                   has the calls cut at their locks, and the interleavings of their parts
--   Node            the ledger and the runtime over SledStorage, as src/main.rs wires them
--   Sync            src/sync.rs: frames; Sync/Peers has the table of peers, the server and the
--                   broadcast, and Sync/Protocol the client
--   Cli             src/main.rs: Cli/Transactions has the wallet commands and makes transactions,
--                   Cli/Queries runs queries, and Cli/Main is main on a parsed command, with what
--                   it prints
--   Prelude         shared notation and lemmas
--   Fixtures        small stand-ins for the third-party crates, for the runs in Tests
-- Ledger, Runtime, SledStorage, Node, Types, Sync and Cli have further modules, which are named for
-- what they prove.
--
-- How the code is modelled. State is passed explicitly: a storage method that only reads is a
-- function of the store, and one that writes returns the store that it leaves, also with an error. An
-- error is the source's variant, and a formatted message is the values that it shows. Integers are
-- natural numbers; u64 and u32 additions wrap as in a release build, and a difference is taken only
-- where the source has compared first. Loops are structural recursion over the lists that they walk,
-- so no fuel is used but for a thread that runs alone in Runtime/Threads: three moves are enough for
-- submit_transaction, and four for produce_block. A call of the runtime or of the network ends in a
-- result, a panic, or never; a call runs on one thread, a std::sync::Mutex that is held blocks it,
-- and a thread that is blocked keeps the guards that it has. In Runtime/Steps the calls of several
-- threads follow one another; in Runtime/Threads a thread may stop at each lock() and others go on.
-- The tasks that the server spawns run one after the other, and what the network does is an argument:
-- the bytes that a socket brings, and which connections and writes succeed.
--
-- Third-party code is a parameter: SHA-256 and ed25519 (`Crypto`), bincode (`Bincode`), sled (`Sled`)
-- and hex (`Hex`). A theorem that relies on more than their types names it as a hypothesis: that a
-- sled tree is a map and does not fail, that a value comes back from bincode, that bincode is
-- self-delimiting, that it writes byte strings and vectors with a length of eight bytes and arrays
-- without one (`IsBincode`), that hex is injective and decodes what it encodes, that a signature
-- verifies.
--
-- Not modelled: argument parsing and the layout of what is printed, sockets and tokio's tasks,
-- WasmtimeRuntime (an empty struct), and the random generator, whose bytes are input.
pub mod Prelude
pub mod Types
pub mod Storage
pub mod SledStorage
pub mod BTreeMap
pub mod Contracts
pub mod Consensus
pub mod Ledger
pub mod Production
pub mod Runtime
pub mod Node
pub mod Sync
pub mod Cli
mod Fixtures
mod Tests
