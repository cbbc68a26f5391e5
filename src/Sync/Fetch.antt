-- ===== src/Sync/Fetch.antt =====
-- The cursor of the sync engine: `init`, `get_next_block_data_with_floor`, `start`, `get_status` and
-- the choice of the next block, of crates/metashrew-sync/src/sync.rs. A panic of `init` is an error.
pub mod Bounds
use metashrew.Prelude.{
  ℕ, zero, suc, ◌+◌, ◌-◌, ◌≤◌, ◌<◌, ◌≡◌, Bool, true, false, ◌&&◌, Option, none, some, List, [], ◌∷◌,
  Bytes, codes, leb, ltb, ◌==◌, if◌then◌else◌,
}
use metashrew.Sync.Error.{SyncError, bitcoin_node, storage, runtime, SyncResult, ok, err, unwrap_or}
use metashrew.Sync.Adapters.{SyncConfig, BlockInfo, Node, Outcome, StorageAdapter, RuntimeAdapter}
use metashrew.Sync.Reorg.{handle_reorg}
use metashrew.Sync.Heal.{StartupHealOutcome, heal_pointer_divergence_at_startup}
use metashrew.Validator.Target.{zero_bytes}

-- Where the sync starts, from the height that the store records.
unfoldable pub start_height_of : ℕ → ℕ → ℕ
start_height_of start_block indexed_height =
    if ltb 0 start_block && ltb indexed_height start_block
    then start_block
    else if ltb 0 indexed_height
    then indexed_height + 1
    else start_block

unfoldable pub is_missing_root : SyncResult (Option Bytes) → Bool
is_missing_root (ok none) = true
is_missing_root (ok (some root)) = false
is_missing_root (err e) = false

module _ (st : StorageAdapter) where
  -- The empty state root below a start block that is not 0; `unwrap` panics where it cannot be stored.
  unfoldable pub stored_or_panic : ℕ → Outcome Unit st.Store → Outcome ℕ st.Store
  stored_or_panic start_height (ok u, t) = (ok start_height, t)
  stored_or_panic start_height (err e, t) = (err e, t)

  unfoldable pub seed_state_root : ℕ → ℕ → st.Store → Outcome ℕ st.Store
  seed_state_root start_block start_height s =
      if is_missing_root (st.get_state_root s (start_block - 1))
      then stored_or_panic start_height (st.store_state_root s (start_block - 1) (zero_bytes 32))
      else (ok start_height, s)

  unfoldable pub init_after_heal :
      SyncConfig → Outcome (ℕ × StartupHealOutcome) st.Store → Outcome ℕ st.Store
  init_after_heal config (err e, t) = (err e, t)
  init_after_heal config (ok h, t) =
      let indexed_height = unwrap_or (st.get_indexed_height t) 0 in
      let start_height = start_height_of config.start_block indexed_height in
      if (indexed_height == 0) && ltb 0 config.start_block
      then seed_state_root config.start_block start_height t
      else (ok start_height, t)

  -- The new `current_height`.
  unfoldable pub init : Node → SyncConfig → st.Store → Outcome ℕ st.Store
  init node config s = init_after_heal config (heal_pointer_divergence_at_startup st node config s)

unfoldable pub reached_exit : Option ℕ → ℕ → Bool
reached_exit none height = false
reached_exit (some exit_at) height = leb exit_at height

unfoldable pub clamp : Option ℕ → ℕ → ℕ
clamp none current = current
clamp (some m) current = if ltb current m then m else current

-- The block that is handed to the caller, if any.
unfoldable pub fetched : ℕ → SyncResult BlockInfo → SyncResult (Option (ℕ × (Bytes × Bytes)))
fetched height (ok info) = ok (some (height, (info.data_bytes, info.hash)))
fetched height (err e) = err e

unfoldable pub fetch_at : Node → SyncConfig → ℕ → ℕ → SyncResult (Option (ℕ × (Bytes × Bytes)))
fetch_at node config remote_tip height =
    if reached_exit config.exit_at height
    then ok none
    else if ltb remote_tip height
    then ok none
    else fetched height (node.block_info height)

module _ (st : StorageAdapter) (rt : RuntimeAdapter st) where
  -- What a step of the fetcher leaves: its answer, the cursor, the store and the machine.
  pub record Fetched : Type 0 where
    pub answer : SyncResult (Option (ℕ × (Bytes × Bytes)))
    pub cursor : ℕ
    pub store : st.Store
    pub machine : rt.Machine

  unfoldable pub fetch_after_reorg :
      Node → SyncConfig → Option ℕ → ℕ → ℕ → SyncResult ℕ × (st.Store × rt.Machine) → Fetched
  fetch_after_reorg node config floor remote_tip current (err e, (t, n)) = record {
    answer = err e;
    cursor = current;
    store = t;
    machine = n;
  }
  fetch_after_reorg node config floor remote_tip current (ok height, (t, n)) = record {
    answer = fetch_at node config remote_tip (clamp floor height);
    cursor = height;
    store = t;
    machine = n;
  }

  unfoldable pub fetch_with_tip :
      Node → SyncConfig → Option ℕ → ℕ → st.Store → rt.Machine → SyncResult ℕ → Fetched
  fetch_with_tip node config floor current s m (err e) = record {
    answer = err e;
    cursor = current;
    store = s;
    machine = m;
  }
  fetch_with_tip node config floor current s m (ok remote_tip) =
      if leb (remote_tip - current) config.reorg_check_threshold
      then fetch_after_reorg node config floor remote_tip current
          (handle_reorg st rt node config current s m)
      else record {
        answer = fetch_at node config remote_tip (clamp floor current);
        cursor = current;
        store = s;
        machine = m;
      }

  unfoldable pub get_next_block_data_with_floor :
      Node → SyncConfig → Option ℕ → ℕ → st.Store → rt.Machine → Fetched
  get_next_block_data_with_floor node config floor current s m =
      fetch_with_tip node config floor current s m node.tip_height

-- `start` until the pipeline runs: whether it was running, and what it asks of the adapters. It
-- leaves the flag `is_running` set where a check fails.
unfoldable pub start_checks : (is_running connected available ready : Bool) → Outcome Unit Bool
start_checks true connected available ready =
    (err (SyncError.config (codes "Sync engine is already running")), true)
start_checks false false available ready =
    (err (bitcoin_node (codes "Node is not connected")), true)
start_checks false true false ready = (err (storage (codes "Storage is not available")), true)
start_checks false true true false = (err (runtime (codes "Runtime is not ready")), true)
start_checks false true true true = (ok tt, true)

-- `get_status` without the rate, which is a floating-point number.
unfoldable pub blocks_behind : SyncResult ℕ → ℕ → SyncResult ℕ
blocks_behind (err e) current_height = err e
blocks_behind (ok tip_height) current_height = ok (tip_height - current_height)
