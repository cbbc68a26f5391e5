-- ===== src/Lib.antt =====
-- Metashrew: the storage core of the indexer, its WASM runtime with the guest library, the
-- synchronization engine and the block validators.
--
-- A block's key-value updates go into an append-only store over a key-value backend: under a user
-- key `k`, `k/length` holds the number of updates and `k/0`, `k/1`, … hold `height:hex(value)`.
-- Reads at a height search these records, a block writes them with its state root and a manifest of
-- its keys in one batch, and a reorganisation removes the updates above a height. Beside it stands
-- a sparse Merkle tree whose nodes are stored under their hashes. The updates are those that an
-- indexer, a WASM module linked with the guest library, sets in a block and flushes to the runtime.
-- The sync engine fetches blocks from a node, runs them and commits them through an adapter of the
-- storage, heals the pointers at startup, and rolls back when the node has replaced blocks; the
-- validators judge one block against its parent.
--
-- Paths are from the repository's root; all of them lie under crates/.
-- - Keys: metashrew-runtime/src/key_utils.rs, `Keys.Layout` the keys that smt.rs and rollback.rs build.
-- - Storage: the traits of metashrew-runtime/src/traits.rs and rollback.rs as interfaces
--   (`KeyValueStoreLike`, `SmtRollback`) that the other modules take as instance arguments.
--   `Storage.Memory` is the backend of memshrew-runtime/src/adapter.rs, `Storage.Memory.Laws` fills the
--   interfaces with it, and `Adapter` is its `StorageAdapter` for the sync framework. The order of the
--   entries of a `HashMap` is that of the model's list, and a batch is the list of its operations.
-- - Append: `SMTHelper` of metashrew-runtime/src/smt.rs, put and reads. `Append.History` is what a key
--   holds, abstractly: its updates, oldest first; `Append.Represents` says when a backend holds it, and
--   when the updates that a rollback takes away are deleted (`Clears`).
-- - Manifest: `serialize_key_manifest` and `deserialize_key_manifest` of smt.rs.
-- - Block: `build_state_root_batch_unwritten`, `calculate_and_store_state_root_batched` of
--   `BatchedSMTHelper`, and `get_smt_root_at_height`.
-- - Rollback: `rollback_with_manifests` of metashrew-runtime/src/rollback.rs; `Rollback.Full` is
--   `rollback_smt_data`, and `Rollback.Keywise` the rollback of `SMTHelper`.
-- - Reorg: a block and its rollback together.
-- - Tree: `SMTNode` with its hashing and serialization; `Tree.Read` the traversals, `Tree.Update` the
--   updates through a batch, `Tree.HashOnly` those of `BatchedSMTHelper` in memory with its caches, which
--   `Tree.Coherent` and `Tree.Agree` compare with the former,
--   `Tree.Paths` `compute_smt_updates` and `compute_new_root`, `Tree.Root` the state root of a height.
-- - Sync: metashrew-sync/src. `Sync.Error` and `Sync.Adapters` are the errors and the traits of node,
--   storage and runtime; `Sync.Reorg` is `handle_reorg`, `Sync.Heal`
--   `heal_pointer_divergence_at_startup`, `Sync.Validate` `validate_block_connects`, `Sync.Apply` the two
--   `process_block` with the retries of `Sync.Retry`, `Sync.Fetch` `init` and
--   `get_next_block_data_with_floor`, `Sync.Pipeline` the tasks of `run_pipeline` as a step
--   relation, and `Sync.Snapshot` the loop of snapshot_sync.rs in the mode without snapshots.
-- - Rocks: `RocksDBStorageAdapter` of rockshrew-runtime/src/storage_adapter.rs over the interfaces of
--   Storage; `Rocks.Engine` is the sync engine over it, and `Rocks.Indexer` the runtime's adapter,
--   `MetashrewRuntimeAdapter` of rockshrew-mono/src/adapters.rs, with the whole way of a block in
--   `Rocks.Indexer.Commits`.
-- - Guest: metashrew-core/src/lib.rs, the library that an indexer is linked with; `Guest.View` is the map
--   that an indexer sees, `Guest.Calls` what each call does to it, `Guest.Program` an indexer's block as a
--   program of reads and writes.
-- - Runtime: metashrew-runtime/src/runtime.rs and context.rs. `Runtime.Memory` reads buffers of the linear
--   memory, with `to_arraybuffer_layout` of metashrew-support/src/compat.rs, `Runtime.HostFunctions` are
--   the functions that the linkers set up, `Runtime.Process` runs a block. `Runtime.Serving` fills the
--   imports of Guest with the host functions, `Runtime.Indexing` and `Runtime.Views` follow a program's
--   block into the store, `Runtime.Flushes` a second flush. `Runtime.ViewLimits` is view_limits.rs.
-- - Pointer: metashrew-support/src/index_pointer.rs over an interface of cells, `Pointer.ByteView`
--   byte_view.rs beside it, `Pointer.Lists` the pointer as a list, and `Pointer.Checkpoint` the
--   transactions of metashrew-core/src/index_pointer.rs.
-- - Validator: metashrew-validator-core/src, `Validator.Wire` wire.rs, `Validator.Target` the compact
--   targets and `Validator.Policy` the policies of lib.rs.
-- - RustStd: what the code uses of Rust's standard library: decimal text, UTF-8, little-endian words,
--   searching and sorting. Error: the errors as values, with panics among them. Prelude: shared names.
-- - Tests, EngineTests, StoreTests, GuestTests: instances of the interfaces and each theorem at a small input.
--
-- Numbers are natural numbers; a u32 that is written is taken `% 2 ^ 32`. The `hex` crate and
-- SHA-256 are parameters (`HexCodec`, `Sha256`) with the behaviour their documentation gives. Loops
-- are structural. The binary search takes one round more than there are updates, which suffices
-- since a round narrows the range; the traversals of the tree count the levels down from 256, where
-- the code itself stops. A user key is any key but `/__INTERNAL/keys-at-height` and
-- `/__INTERNAL/height-to-hash`, whose updates would share records with the block's.
--
-- What wasmtime does is a parameter: `Engine` says what a run makes of the host and whether it
-- traps, and `LinearMemory` is `Memory::write`. An i32 is given by its bits. `prost` is the
-- parameter `FlushCodec`. In the guest library a pointer stands for the buffer behind it;
-- `Runtime.Serving` takes the memory to hold just the buffers of a call. A walk along linked
-- entries runs on fuel, since the links may form a circle.
--
-- The adapters of the sync engine are interfaces. A function of the engine takes the store and the
-- runtime's machine and returns them with its result; the node's answers do not change while one
-- function runs. `process_block` counts the attempts left, of thirty; the loop of the pipeline has
-- no bound, so it runs on fuel, with none when the fuel is used up. Each of the pipeline's steps
-- reads or writes one of the things that its tasks share. The `bitcoin` crate and `WriteBatch::from_data` are parameters.
--
-- Not modelled: failing calls of the database, the Mutex and the sharing of the in-memory map
-- between clones, crashes between batches, the durability of a write, the set-up of WASM engines
-- and instances, preview as a whole, the JSON-RPC methods, the transfer of snapshots, the pipeline
-- while the chain is reorganized, the servers, and addresses, blocks and cursors of the support
-- library. A function of the storage core or of the guest library that fails returns no store: what
-- it wrote before the failure is not modelled.
pub mod Prelude
pub mod RustStd
pub mod Keys
pub mod Error
pub mod Storage
pub mod Append
pub mod Manifest
pub mod Block
pub mod Rollback
pub mod Reorg
pub mod Tree
pub mod Tests
pub mod Adapter
pub mod Sync
pub mod Rocks
pub mod Validator
pub mod EngineTests
pub mod StoreTests
pub mod Runtime
pub mod Guest
pub mod Pointer
pub mod GuestTests
