-- ===== src/Rollback/Keywise.antt =====
-- The rollback of `SMTHelper`, which needs no manifest: `rollback_key` and `rollback_to_height` of
-- crates/metashrew-runtime/src/smt.rs.
pub mod Cut
use metashrew.Prelude.{
  ℕ, zero, suc, ◌+◌, none, some, List, [], ◌∷◌, ◌++◌, Bytes, leb, if◌then◌else◌,
}
use metashrew.RustStd.Decimal.{to_string}
use metashrew.Keys.Layout.{length_key, update_key}
use metashrew.Storage.{KeyValueStoreLike}
use metashrew.Storage.Batch.{BatchOperation, put, delete}
use metashrew.Append.{parse_length, update_height}
use metashrew.Tree.Root.{base_keys_of}

module _ ⦃db : KeyValueStoreLike⦄ where
  -- `for i in 0..length`, by the rounds left: the deletions, and the new length.
  unfoldable pub prune_updates : db.Store → Bytes → ℕ → ℕ → ℕ → ℕ → List BatchOperation × ℕ
  prune_updates s key target_height i zero new_length = ([], new_length)
  prune_updates s key target_height i (suc left) new_length =
      let unread = prune_updates s key target_height (i + 1) left new_length in
      let kept = prune_updates s key target_height (i + 1) left (i + 1) in
      elim (db.get_immutable s (update_key key i)) [
        | none ↦ unread
        | some update_data ↦ elim (update_height update_data) [
          | none ↦ unread
          | some h ↦
              if leb h target_height then kept else (delete (update_key key i) ∷ unread.0, unread.1)
        ]
      ]

  unfoldable pub rollback_key_to_batch :
      db.Store → List BatchOperation → Bytes → ℕ → List BatchOperation
  rollback_key_to_batch s batch key target_height = elim (db.get_immutable s (length_key key)) [
    | none ↦ batch
    | some length_bytes ↦
        let pruned = prune_updates s key target_height 0 (parse_length length_bytes) 0 in
        batch ++ (pruned.0 ++ put (length_key key) (to_string pruned.1) ∷ [])
  ]

  unfoldable pub rollback_key : db.Store → Bytes → ℕ → db.Store
  rollback_key s key target_height = db.write s (rollback_key_to_batch s [] key target_height)

  unfoldable pub rollback_keys_to_batch :
      db.Store → List BatchOperation → List Bytes → ℕ → List BatchOperation
  rollback_keys_to_batch s batch [] target_height = batch
  rollback_keys_to_batch s batch (key ∷ keys) target_height =
      rollback_keys_to_batch s (rollback_key_to_batch s batch key target_height) keys target_height

  unfoldable pub rollback_to_height_to_batch :
      db.Store → List BatchOperation → ℕ → List BatchOperation
  rollback_to_height_to_batch s batch target_height =
      rollback_keys_to_batch s batch (base_keys_of (db.scan_prefix s [])) target_height

  unfoldable pub rollback_to_height : db.Store → ℕ → db.Store
  rollback_to_height s target_height = db.write s (rollback_to_height_to_batch s [] target_height)
