-- ===== src/Rocks/Indexer.antt =====
-- The sync engine over the RocksDB store and the WASM runtime: `MetashrewRuntimeAdapter` of
-- crates/rockshrew-mono/src/adapters.rs.
pub mod Commits
use metashrew.Prelude.{
  ℕ, suc, ◌+◌, ◌<◌, ◌≡◌, ◌≢◌, refl, sym, ◌∙◌, ap, true, ◌⊎◌, inl, inr, Option, none, some, List,
  ◌++◌, Bytes, codes, All, IsByte, length, leb, if◌then◌else◌, arith,
}
use metashrew.RustStd.Decimal.{u32_mod, to_string, to_string-ne, to_string-Lacks}
use metashrew.Error.{Error, Result}
use metashrew.Keys.Layout.{slash, length_key, update_key, root_key, height_to_hash_key}
use metashrew.Keys.Layout.Distinct.{
  IsUserKey, last_split, length_key-ne-block_key, update_key-ne-block_key, root, height_to_hash,
}
use metashrew.Storage.{KeyValueStoreLike, SmtRollback, HexCodec}
use metashrew.Storage.Batch.{BatchOperation, replay}
use metashrew.Append.History.{History}
use metashrew.Append.Represents.{Represents, Represents-agree, behind}
use metashrew.Block.Effect.{block_batch, Represents-block_batch}
use metashrew.Block.Updates.{updates_of}
use metashrew.Tree.Root.{get_current_state_root}
use metashrew.Guest.{FlushCodec}
use metashrew.Guest.Program.{Program, final_view}
use metashrew.Runtime.{Host}
use metashrew.Runtime.Memory.{LinearMemory}
use metashrew.Runtime.HostFunctions.{lookup_value}
use metashrew.Runtime.Process
use metashrew.Runtime.Process.{Engine}
use metashrew.Runtime.Indexing.{
  updates_by, Fitting, idle, program_engine, process_block_atomic-builds,
}
use metashrew.Runtime.Views.{Holds, lookup_value-appended}
use metashrew.Sync.Error.{SyncResult, runtime, ok, err}
use metashrew.Sync.Adapters.{AtomicBlockResult, StorageAdapter, RuntimeAdapter}
use metashrew.Sync.Retry.{atomic_retry_backoff_ms}
use metashrew.Sync.Apply.{
  Applied, committed, process_block, attempt_block, after_execution, after_commit, apply_loop,
}
use metashrew.Rocks.{
  indexed_height_key, get_indexed_height, get_block_hash, saturating_add_one, wasm_batch,
  commit_batch, is_fresh_db, commit_atomic,
}
use metashrew.Rocks.Commit.{commit-others, commit_atomic-ok}
use metashrew.Rocks.Engine.{rocks_adapter}

-- `map` and `map_err(|e| SyncError::Runtime(e.to_string()))`, with the text of an error as a parameter.
unfoldable pub adapt {ℓ} :
    {W : Type ℓ} → (Error → Bytes) → Result AtomicBlockResult → W → SyncResult AtomicBlockResult × W
adapt text (Result.ok r) w = (ok r, w)
adapt text (Result.err e) w = (err (runtime (text e)), w)

module _ ⦃db : KeyValueStoreLike⦄ where
  -- The runtime reads the database that the storage adapter writes.
  unfoldable pub with_store : Host → db.Store → Host
  with_store w s = record w { context = record w.context { store = s } }

module _ ⦃db : KeyValueStoreLike⦄ ⦃rb : SmtRollback db⦄ (from_data : Bytes → List BatchOperation)
    (e : Engine) (text : Error → Bytes) where
  unfoldable pub run_atomic :
      Host → db.Store → ℕ → Bytes → Bytes → SyncResult AtomicBlockResult × Host
  unfolding adapt with_store
  run_atomic w s height block_data block_hash =
      let ran = Process.process_block_atomic e (with_store w s) height block_data block_hash in
      adapt text ran.0 ran.1

  -- Its `refresh_memory` does nothing.
  abbrev pub runtime_adapter : RuntimeAdapter (rocks_adapter from_data)
  runtime_adapter = record {
    Machine = Host;
    process_block_atomic = run_atomic;
    refresh_memory = λ w. (ok tt, w);
  }
