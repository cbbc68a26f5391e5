-- ===== src/Runtime.antt =====
-- The WASM runtime: crates/metashrew-runtime/src/runtime.rs and context.rs. The engine that runs a
-- module is a parameter; what is modelled are the host functions and the run of a block.
pub mod Memory
pub mod HostFunctions
pub mod Process
pub mod Serving
pub mod Indexing
pub mod Views
pub mod Flushes
pub mod ViewLimits
use metashrew.Prelude.{
  ℕ, zero, suc, ◌+◌, ◌-◌, ◌%◌, Bool, true, false, Option, none, some, List, [], ◌∷◌, ◌++◌, Bytes,
  length,
}
use metashrew.RustStd.Decimal.{u32_mod}
use metashrew.RustStd.Words.{to_le_bytes}
use metashrew.Error.{Error, Result, ok, err, memory_write}
use metashrew.Storage.{KeyValueStoreLike, HexCodec}
use metashrew.Storage.Batch.{BatchOperation}
use metashrew.Append.{get_at_height}
use metashrew.Block.{build_state_root_batch_unwritten, calculate_and_store_state_root_batched}
use metashrew.Guest.{FlushCodec}
use Memory.{LinearMemory, try_read_arraybuffer_as_vec, u32_to_vec, as_usize, i32_max}

-- `MetashrewRuntimeContext`, with the values in its atomics and locks.
pub record Context ⦃db : KeyValueStoreLike⦄ : Type 0 where
  pub store : db.Store
  pub height : ℕ
  pub block : Bytes
  pub state : ℕ
  pub current_block_hash : Bytes
  pub pending_atomic_batch : Option Bytes

-- The `State` of an instance, with the context that its host functions share. A captured error
-- keeps its value, where the code keeps its text.
pub record Host ⦃db : KeyValueStoreLike⦄ : Type 0 where
  pub context : Context
  pub had_failure : Bool
  pub last_flush_error : Option Error

-- `iter().tuples()`: pairs of neighbours; one left over is dropped.
unfoldable pub tuples : List Bytes → List (Bytes × Bytes)
tuples [] = []
tuples (k ∷ []) = []
tuples (k ∷ v ∷ list) = (k, v) ∷ tuples list

-- The height that an indexer reads at.
unfoldable pub target_height : ℕ → ℕ
target_height zero = 0
target_height (suc h) = h

module _ ⦃db : KeyValueStoreLike⦄ where
  unfoldable pub fail : Host → Host
  fail w = record w { had_failure = true }

  unfoldable pub capture : Host → Error → Host
  capture w e = record w { had_failure = true; last_flush_error = some e }

  -- What the three outcomes of a query come to: the value, or nothing.
  unfoldable pub found_or_empty : Result (Option Bytes) → Bytes
  found_or_empty (ok none) = []
  found_or_empty (ok (some v)) = v
  found_or_empty (err e) = []
