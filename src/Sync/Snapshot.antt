-- ===== src/Sync/Snapshot.antt =====
-- The loop of crates/metashrew-sync/src/snapshot_sync.rs in the normal mode, without snapshots:
-- `process_block_with_snapshots` and a round of `run_snapshot_sync_loop`. The loop has a height of its
-- own beside the engine's `current_height`, which nothing else moves while a block is applied.
pub mod Skips
use metashrew.Prelude.{
  ℕ, zero, suc, ◌+◌, ◌-◌, Bool, true, false, ◌&&◌, Option, none, some, Bytes, codes, ◌++◌, leb, ltb,
  if◌then◌else◌,
}
use metashrew.RustStd.Decimal.{to_string}
use metashrew.Sync.Error.{SyncError, storage, SyncResult, ok, err, contains_text}
use metashrew.Sync.Adapters.{SyncConfig, Node, StorageAdapter, RuntimeAdapter}
use metashrew.Sync.Retry.{atomic_retry_backoff_ms, max_atomic_commit_attempts, out_of_order}
use metashrew.Sync.Reorg.{handle_reorg}
use metashrew.Sync.Apply.{committed, commit_failed, execution_failed, attempt_block, refreshed}
use metashrew.Sync.Fetch.{reached_exit}

-- The loop's height, the cursor, the store and the machine.
pub record LoopState (S M : Type 0) : Type 0 where
  pub height : ℕ
  pub current_height : ℕ
  pub store : S
  pub machine : M

pub record SnapshotApplied (S M : Type 0) : Type 0 where
  pub result : SyncResult {0} Unit
  pub current_height : ℕ
  pub store : S
  pub machine : M

pub data LoopStep (S M : Type 0) : Type 0 where
  again : LoopState S M → LoopStep S M
  finished : LoopState S M → LoopStep S M

unfoldable pub last_message : Option Bytes → Bytes
last_message none = codes "no error captured"
last_message (some last) = last

unfoldable pub loop_budget_message : ℕ → Option Bytes → Bytes
loop_budget_message height last =
    codes "snapshot-loop: commit_atomic at height "
    ++ (to_string height
        ++ (codes " exceeded max-retry budget (30 attempts): last error: " ++ last_message last))

module _ (st : StorageAdapter) (rt : RuntimeAdapter st) where
  unfoldable pub leaves :
      SyncResult {0} Unit → ℕ → st.Store → rt.Machine → SnapshotApplied st.Store rt.Machine
  leaves r current s m = record { result = r; current_height = current; store = s; machine = m }

  -- The attempts, by those that are left, past the staleness guard.
  unfoldable pub attempt_loop :
      (current height : ℕ)
      → Bytes
      → Bytes
      → ℕ
      → Option Bytes
      → st.Store
      → rt.Machine
      → SnapshotApplied st.Store rt.Machine
  attempt_loop current height body hash zero last s m =
      leaves (err (storage (loop_budget_message height last))) current s m
  attempt_loop current height body hash (suc left) last s m =
      elim (attempt_block st rt height body hash s m) [
        | committed t n ↦ leaves (ok tt) (height + 1) t n
        | commit_failed message t n ↦ elim (contains_text message out_of_order) [
          | true ↦ leaves (err (storage (codes "commit_atomic: " ++ message))) current t n
          | false ↦
              attempt_loop current height body hash left (some (codes "commit_atomic: " ++ message))
                t (refreshed st rt n)
        ]
        | execution_failed message t n ↦
            attempt_loop current height body hash left
              (some (codes "process_block_atomic: " ++ message)) t (refreshed st rt n)
      ]

  -- The guard is asked before each attempt, of a cursor that does not change between them.
  unfoldable pub guarded_block :
      (current height : ℕ)
      → Bytes
      → st.Store
      → rt.Machine
      → SyncResult Bytes
      → SnapshotApplied st.Store rt.Machine
  guarded_block current height body s m (err e) = leaves (err e) current s m
  guarded_block current height body s m (ok hash) =
      if ltb height current
      then leaves (ok tt) current s m
      else attempt_loop current height body hash max_atomic_commit_attempts none s m

  unfoldable pub process_block_with_snapshots :
      Node
      → (current height : ℕ) → Bytes
      → st.Store
      → rt.Machine
      → SnapshotApplied st.Store rt.Machine
  process_block_with_snapshots node current height body s m =
      guarded_block current height body s m (node.block_hash height)

  unfoldable pub after_block :
      ℕ → SnapshotApplied st.Store rt.Machine → SyncResult {0} Unit → LoopStep st.Store rt.Machine
  after_block height a (ok u) = again (record {
    height = height + 1;
    current_height = a.current_height;
    store = a.store;
    machine = a.machine;
  })
  after_block height a (err e) = again (record {
    height = height;
    current_height = a.current_height;
    store = a.store;
    machine = a.machine;
  })

  unfoldable pub apply_data :
      Node → LoopState st.Store rt.Machine → SyncResult Bytes → LoopStep st.Store rt.Machine
  apply_data node p (err e) = again p
  apply_data node p (ok body) =
      let a = process_block_with_snapshots node p.current_height p.height body p.store p.machine in
      after_block p.height a a.result

  -- From the test of the exit height on.
  unfoldable pub fetch_and_apply :
      Node → SyncConfig → ℕ → LoopState st.Store rt.Machine → LoopStep st.Store rt.Machine
  fetch_and_apply node config remote_tip p =
      if reached_exit config.exit_at p.height
      then finished p
      else if ltb remote_tip p.height
      then again p
      else apply_data node p (node.block_data p.height)

  unfoldable pub after_reorg :
      Node
      → SyncConfig
      → ℕ
      → LoopState st.Store rt.Machine
      → SyncResult ℕ × (st.Store × rt.Machine)
      → LoopStep st.Store rt.Machine
  after_reorg node config remote_tip p (err e, (t, n)) = again (record p { store = t; machine = n })
  after_reorg node config remote_tip p (ok reorg_height, (t, n)) =
      if ltb reorg_height p.height
      then again (record p { height = reorg_height; store = t; machine = n })
      else fetch_and_apply node config remote_tip (record p { store = t; machine = n })

  unfoldable pub round_with_tip :
      Node
      → SyncConfig
      → LoopState st.Store rt.Machine
      → SyncResult ℕ
      → LoopStep st.Store rt.Machine
  round_with_tip node config p (err e) = again p
  round_with_tip node config p (ok remote_tip) =
      if ltb 0 p.height && leb (remote_tip - p.height) config.reorg_check_threshold
      then after_reorg node config remote_tip p
          (handle_reorg st rt node config p.height p.store p.machine)
      else fetch_and_apply node config remote_tip p

  unfoldable pub loop_round :
      Node → SyncConfig → LoopState st.Store rt.Machine → LoopStep st.Store rt.Machine
  loop_round node config p = round_with_tip node config p node.tip_height
