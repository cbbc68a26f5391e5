-- ===== src/Sync/Adapters.antt =====
-- The adapter traits of crates/metashrew-sync/src/traits.rs as interfaces, with the default methods
-- of `StorageAdapter`. A method with `&mut self` returns the store also where it fails.
use metashrew.Prelude.{ℕ, zero, suc, ◌+◌, ◌≡◌, Bool, true, Option, none, some, Bytes}
use metashrew.Sync.Error.{SyncError, SyncResult, ok, err}

pub record SyncConfig : Type 0 where
  pub start_block : ℕ
  pub exit_at : Option ℕ
  pub pipeline_size : Option ℕ
  pub max_reorg_depth : ℕ
  pub reorg_check_threshold : ℕ
  pub enable_startup_heal : Bool

abbrev pub default_config : SyncConfig
default_config = record {
  start_block = 0;
  exit_at = none;
  pipeline_size = none;
  max_reorg_depth = 100;
  reorg_check_threshold = 6;
  enable_startup_heal = true;
}

pub record BlockInfo : Type 0 where
  pub height : ℕ
  pub hash : Bytes
  pub data_bytes : Bytes

-- What a `BitcoinNodeAdapter` answers while one function runs.
pub record Node : Type 0 where
  pub tip_height : SyncResult ℕ
  pub block_hash : ℕ → SyncResult Bytes
  pub block_data : ℕ → SyncResult Bytes
  pub block_info : ℕ → SyncResult BlockInfo
  pub is_connected : Bool

pub record AtomicBlockResult : Type 0 where
  pub state_root : Bytes
  pub batch_data : Bytes
  pub height : ℕ
  pub block_hash : Bytes

-- What a method did, with the store that it leaves.
abbrev pub Outcome : Type 0 → Type 0 → Type 0
Outcome A S = SyncResult A × S

pub record StorageAdapter : Type 1 where
  pub Store : Type 0
  pub get_indexed_height : Store → SyncResult ℕ
  pub get_block_hash : Store → ℕ → SyncResult (Option Bytes)
  pub get_state_root : Store → ℕ → SyncResult (Option Bytes)
  pub store_state_root : Store → ℕ → Bytes → Outcome Unit Store
  pub rollback_to_height : Store → ℕ → Outcome Unit Store
  pub get_runtime_tip_height : Store → SyncResult ℕ
  pub find_max_stored_block_hash_height : Store → ℕ → SyncResult ℕ
  pub heal_pointers_atomic : Store → ℕ → Outcome Unit Store
  pub commit_atomic : Store → ℕ → Bytes → Bytes → Bytes → Outcome Unit Store
  -- A commit happens or it does not.
  pub commit_atomic-err :
      (s t : Store) (height : ℕ) (hash root batch : Bytes) (e : SyncError)
      → commit_atomic s height hash root batch ≡ (err e, t)
      → t ≡ s

-- The runtime reads the same database, and keeps a WASM memory of its own.
pub record RuntimeAdapter (st : StorageAdapter) : Type 1 where
  pub Machine : Type 0
  pub process_block_atomic :
      Machine → st.Store → ℕ → Bytes → Bytes → Outcome AtomicBlockResult Machine
  pub refresh_memory : Machine → Outcome Unit Machine

-- The default methods of the trait, from the methods that an adapter has to give.
module _ {S : Type 0} (get_indexed_height : S → SyncResult ℕ)
    (get_block_hash : S → ℕ → SyncResult (Option Bytes)) where
  -- `while h > stop_at`, by the heights left above `stop_at`.
  unfoldable pub scan_down : S → ℕ → ℕ → SyncResult ℕ
  scan_down s stop_at zero = elim (get_block_hash s stop_at) [
    | err e ↦ err e
    | ok none ↦ ok 0
    | ok (some hash) ↦ ok stop_at
  ]
  scan_down s stop_at (suc above) =
      let lower = scan_down s stop_at above in
      elim (get_block_hash s (stop_at + suc above)) [
        | err e ↦ err e
        | ok none ↦ lower
        | ok (some hash) ↦ ok (stop_at + suc above)
      ]
