-- ===== src/Sync/Reorg.antt =====
-- `handle_reorg` of crates/metashrew-sync/src/sync.rs. The loop is recursion on the height that it
-- looks at, since each round lowers it by one.
mod Ancestor
pub mod Reconcile
use metashrew.Prelude.{
  ℕ, zero, suc, ◌+◌, ◌-◌, ◌≤◌, ◌<◌, ◌≡◌, ◌≢◌, refl, Bool, true, false, Option, none, some, Bytes,
  bytes_eq, leb, if◌then◌else◌, arith,
}
use metashrew.Sync.Error.{SyncResult, ok, err}
use metashrew.Sync.Adapters.{SyncConfig, Node, Outcome, StorageAdapter, RuntimeAdapter}

-- Where the loop stops: the node failed, or a height and whether a block differed on the way.
pub data Walk : Type 0 where
  node_failed : Walk
  stopped : (check_height : ℕ) (reorg_detected : Bool) → Walk

-- One round: `break` or `return`, or the flag with which the next height is looked at.
pub data Round : Type 0 where
  leave : Walk → Round
  lower : (reorg_detected : Bool) → Round

module _ (st : StorageAdapter) (node : Node) where
  unfoldable pub compare_hashes : ℕ → Bool → Bytes → SyncResult Bytes → Round
  compare_hashes h detected local_hash (err e) = leave node_failed
  compare_hashes h detected local_hash (ok remote_hash) =
      if bytes_eq local_hash remote_hash then leave (stopped h detected) else lower true

  unfoldable pub look_at : ℕ → Bool → SyncResult (Option Bytes) → Round
  look_at h detected (err e) = lower detected
  look_at h detected (ok none) = lower detected
  look_at h detected (ok (some local_hash)) =
      compare_hashes h detected local_hash (node.block_hash h)

  unfoldable pub reorg_round : st.Store → ℕ → ℕ → Bool → Round
  reorg_round s floor h detected =
      if leb floor h then look_at h detected (st.get_block_hash s h) else leave (stopped h detected)

  -- `while check_height > 0 && check_height >= floor`
  unfoldable pub walk_to_ancestor : st.Store → ℕ → ℕ → Bool → Walk
  walk_to_ancestor s floor zero detected = stopped 0 detected
  walk_to_ancestor s floor (suc h) detected = elim (reorg_round s floor (suc h) detected) [
    | leave w ↦ w
    | lower flag ↦ walk_to_ancestor s floor h flag
  ]

module _ (st : StorageAdapter) (rt : RuntimeAdapter st) where
  unfoldable pub refresh_after :
      ℕ → st.Store → Outcome Unit rt.Machine → SyncResult ℕ × (st.Store × rt.Machine)
  refresh_after height t (err e, m) = (err e, (t, m))
  refresh_after height t (ok u, m) = (ok (height + 1), (t, m))

  unfoldable pub roll_back_and_refresh :
      ℕ → rt.Machine → Outcome Unit st.Store → SyncResult ℕ × (st.Store × rt.Machine)
  roll_back_and_refresh height m (err e, t) = (err e, (t, m))
  roll_back_and_refresh height m (ok u, t) = refresh_after height t (rt.refresh_memory m)

  unfoldable pub finish_reorg :
      ℕ → st.Store → rt.Machine → Walk → SyncResult ℕ × (st.Store × rt.Machine)
  finish_reorg current_height s m node_failed = (ok current_height, (s, m))
  finish_reorg current_height s m (stopped h false) = (ok current_height, (s, m))
  finish_reorg current_height s m (stopped h true) =
      roll_back_and_refresh h m (st.rollback_to_height s h)

  unfoldable pub handle_reorg :
      Node → SyncConfig → ℕ → st.Store → rt.Machine → SyncResult ℕ × (st.Store × rt.Machine)
  handle_reorg node config zero s m = (ok 0, (s, m))
  handle_reorg node config (suc below) s m =
      let floor = suc below - config.max_reorg_depth in
      finish_reorg (suc below) s m (walk_to_ancestor st node s floor below false)

-- The store and the node have different blocks at a height, or the same one.
pub record Differs (st : StorageAdapter) (node : Node) (s : st.Store) (h : ℕ) : Type 0 where
  pub local_hash : Bytes
  pub remote_hash : Bytes
  pub stored : st.get_block_hash s h ≡ ok (some local_hash)
  pub reported : node.block_hash h ≡ ok remote_hash
  pub different : local_hash ≢ remote_hash

pub record Matches (st : StorageAdapter) (node : Node) (s : st.Store) (h : ℕ) : Type 0 where
  pub hash : Bytes
  pub stored : st.get_block_hash s h ≡ ok (some hash)
  pub reported : node.block_hash h ≡ ok hash
