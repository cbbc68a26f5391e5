-- ===== src/Rocks.antt =====
-- `impl StorageAdapter for RocksDBStorageAdapter` of crates/rockshrew-runtime/src/storage_adapter.rs,
-- where the calls of the database succeed. The database is the store of the traits in
-- crates/metashrew-runtime, read by `get_value` and written by one batch with `apply_atomic`; its
-- `WriteBatch::from_data` is a parameter.
pub mod Pointers
pub mod Commit
pub mod Healing
pub mod Engine
pub mod Indexer
use metashrew.Prelude.{
  ℕ, zero, suc, ◌+◌, ◌-◌, ◌%◌, ◌≡◌, Bool, true, false, ◌&&◌, ◌||◌, not, Option, none, some, List,
  [], ◌∷◌, ◌++◌, Bytes, codes, length, take, ltb, leb, ◌==◌, if◌then◌else◌,
}
use metashrew.RustStd.Decimal.{u32_mod, to_string}
use metashrew.RustStd.Words.{to_le_bytes, from_le_bytes}
use metashrew.Keys.Layout.{tip_height_key, height_to_hash_key, root_key}
use metashrew.Error.{Error, Result}
use metashrew.Storage.{KeyValueStoreLike, SmtRollback}
use metashrew.Storage.Batch.{BatchOperation, put}
use metashrew.Rollback.{rollback_with_manifests}
use metashrew.Rollback.Full.{rollback_smt_data}
use metashrew.Block.{Hash, get_smt_root_at_height}
use metashrew.Sync.Error.{SyncError, storage, SyncResult, ok, err}
use metashrew.Sync.Adapters.{Outcome}

abbrev pub indexed_height_key : Bytes
indexed_height_key = codes "__INTERNAL/height"

-- The u32 in the first four bytes of a record, 0 where there is none.
unfoldable pub read_u32 : Option Bytes → ℕ
read_u32 none = 0
read_u32 (some value) = if leb 4 (length value) then from_le_bytes (take 4 value) else 0

unfoldable pub is_none : Option Bytes → Bool
is_none none = true
is_none (some v) = false

abbrev pub saturating_add_one : ℕ → ℕ
saturating_add_one n = if ltb (n + 1) u32_mod then n + 1 else n

unfoldable pub out_of_order_message : ℕ → ℕ → Bytes
out_of_order_message height current =
    codes "out-of-order commit rejected: attempted height "
    ++ (to_string height
        ++ (codes " but current tip is "
            ++ (to_string current ++ codes " (commit_atomic only accepts height == tip + 1)")))

unfoldable pub refused_message : ℕ → ℕ → Bytes
refused_message current_indexed target_height =
    codes "heal_pointers_atomic refused to advance tip: current_indexed="
    ++ (to_string current_indexed
        ++ (codes " target="
            ++ (to_string target_height ++ codes " (heal only rolls back, never forward)")))

-- `WriteBatch::default()` for empty bytes.
unfoldable pub wasm_batch : (Bytes → List BatchOperation) → Bytes → List BatchOperation
wasm_batch from_data [] = []
wasm_batch from_data (b ∷ bs) = from_data (b ∷ bs)

unfoldable pub commit_batch :
    (Bytes → List BatchOperation) → ℕ → Bytes → Bytes → Bytes → List BatchOperation
commit_batch from_data height block_hash state_root batch_data =
    wasm_batch from_data batch_data
    ++ put (height_to_hash_key height) block_hash
      ∷ put (root_key height) state_root
      ∷ put indexed_height_key (to_le_bytes height)
      ∷ []

module _ ⦃db : KeyValueStoreLike⦄ ⦃rb : SmtRollback db⦄ where
  unfoldable pub get_indexed_height : db.Store → ℕ
  get_indexed_height s = read_u32 (rb.get_value s indexed_height_key)

  unfoldable pub set_indexed_height : db.Store → ℕ → db.Store
  set_indexed_height s height = rb.apply_atomic s (put indexed_height_key (to_le_bytes height) ∷ [])

  unfoldable pub store_block_hash : db.Store → ℕ → Bytes → db.Store
  store_block_hash s height hash = rb.apply_atomic s (put (height_to_hash_key height) hash ∷ [])

  unfoldable pub get_block_hash : db.Store → ℕ → Option Bytes
  get_block_hash s height = rb.get_value s (height_to_hash_key height)

  unfoldable pub store_state_root : db.Store → ℕ → Bytes → db.Store
  store_state_root s height root = rb.apply_atomic s (put (root_key height) root ∷ [])

  unfoldable pub get_state_root : db.Store → ℕ → Option Hash
  get_state_root s height = elim (get_smt_root_at_height s height) [
    | Result.ok root ↦ some root
    | Result.err e ↦ none
  ]

  unfoldable pub get_runtime_tip_height : db.Store → ℕ
  get_runtime_tip_height s = read_u32 (rb.get_value s tip_height_key)

  unfoldable pub full_rollback : db.Store → ℕ → ℕ → Bool × db.Store → db.Store
  full_rollback s height current (true, t) = t
  full_rollback s height current (false, t) = rollback_smt_data t height current

  -- The manifest rollback fails only by a panic, which is the error here.
  unfoldable pub finish_rollback :
      db.Store → ℕ → ℕ → Result (Bool × db.Store) → Outcome Unit db.Store
  finish_rollback s height current (Result.ok r) =
      (ok tt, set_indexed_height (full_rollback s height current r) height)
  finish_rollback s height current (Result.err e) =
      (err (storage (codes "Manifest rollback failed: ")), s)

  unfoldable pub rollback_to_height : db.Store → ℕ → Outcome Unit db.Store
  rollback_to_height s height =
      let current = get_indexed_height s in
      finish_rollback s height current (rollback_with_manifests s height current)

  -- The loop goes down from the pointer and stops at `floor`.
  unfoldable pub scan_hashes : db.Store → ℕ → ℕ → ℕ
  scan_hashes s floor zero = 0
  scan_hashes s floor (suc h) =
      let lower = scan_hashes s floor h in
      if is_none (get_block_hash s (suc h)) then if leb (suc h) floor then 0 else lower else suc h

  unfoldable pub find_max_stored_block_hash_height : db.Store → ℕ → ℕ
  find_max_stored_block_hash_height s floor = scan_hashes s floor (get_indexed_height s)

  unfoldable pub write_pointers : db.Store → ℕ → db.Store
  write_pointers s target =
      rb.apply_atomic s
        (put indexed_height_key (to_le_bytes target) ∷ put tip_height_key (to_le_bytes target) ∷ [])

  unfoldable pub write_pointers_after : ℕ → Outcome Unit db.Store → Outcome Unit db.Store
  write_pointers_after target (ok u, t) = (ok tt, write_pointers t target)
  write_pointers_after target (err e, t) = (err e, t)

  unfoldable pub heal_pointers_atomic : db.Store → ℕ → Outcome Unit db.Store
  heal_pointers_atomic s target =
      let indexed = get_indexed_height s in
      if (indexed == target) && (get_runtime_tip_height s == target)
      then (ok tt, s)
      else if ltb target indexed
      then write_pointers_after target (rollback_to_height s target)
      else if ltb indexed target
      then (err (storage (refused_message indexed target)), s)
      else (ok tt, write_pointers s target)

  unfoldable pub is_fresh_db : db.Store → Bool
  is_fresh_db s = (get_indexed_height s == 0) && is_none (get_block_hash s 0)

  unfoldable pub commit_atomic :
      (Bytes → List BatchOperation) → db.Store → ℕ → Bytes → Bytes → Bytes → Outcome Unit db.Store
  commit_atomic from_data s height block_hash state_root batch_data =
      let current = get_indexed_height s in
      if is_fresh_db s || (height == saturating_add_one current)
      then (
        ok tt,
        rb.apply_atomic s (commit_batch from_data height block_hash state_root batch_data),
      )
      else (err (storage (out_of_order_message height current)), s)
