-- ===== src/Rollback.antt =====
-- Rollback of the append-only store: crates/metashrew-runtime/src/rollback.rs.
pub mod TrimOps
pub mod Trim
pub mod Keys
pub mod Records
pub mod Heights
pub mod Keywise
pub mod Full
use metashrew.Prelude.{
  ℕ, zero, suc, ◌+◌, ◌-◌, Bool, true, false, Option, none, some, List, [], ◌∷◌, ◌++◌, Bytes, ltb,
  leb, ◌==◌, if◌then◌else◌,
}
use metashrew.RustStd.Decimal.{to_string}
use metashrew.RustStd.Utf8.{from_utf8_lossy}
use metashrew.Keys.Layout.{
  length_key, update_key, manifest_key, root_key, block_hash_key, state_root_key,
  height_to_hash_key,
}
use metashrew.Error.{Result, ok, err, ◌>>=◌, unwrap_none}
use metashrew.Storage.{KeyValueStoreLike, SmtRollback}
use metashrew.Storage.Batch.{BatchOperation, put, delete}
use metashrew.Append.{parse_length, update_height}
use metashrew.Manifest.{deserialize_key_manifest}

abbrev pub RollbackOp : Type 0
RollbackOp = BatchOperation

-- The height before the colon.
unfoldable pub parse_height_from_smt_value : Bytes → Option ℕ
unfolding update_height
parse_height_from_smt_value value = update_height value

-- The write of the new length, if it changed.
unfoldable pub length_ops : Bytes → ℕ → ℕ → List RollbackOp
length_ops key length new_length =
    if new_length == length
    then []
    else if ltb 0 new_length
    then put (length_key key) (to_string new_length) ∷ []
    else delete (length_key key) ∷ []

-- The manifest and the metadata of a height.
unfoldable pub record_ops : ℕ → List RollbackOp
record_ops h =
    delete (manifest_key h)
    ∷ delete (root_key h)
    ∷ delete (block_hash_key h)
    ∷ delete (state_root_key h)
    ∷ delete (height_to_hash_key h)
    ∷ []

module _ ⦃db : KeyValueStoreLike⦄ ⦃rb : SmtRollback db⦄ where
  -- `for i in (0..length).rev()`: the deletions, and the new length.
  unfoldable pub walk_back : db.Store → Bytes → ℕ → ℕ → ℕ → List RollbackOp × ℕ
  walk_back s key rollback_height zero new_length = ([], new_length)
  walk_back s key rollback_height (suc i) new_length =
      let unread = walk_back s key rollback_height i new_length in
      let deeper = walk_back s key rollback_height i i in
      elim (rb.get_value s (update_key key i)) [
        | none ↦ unread
        | some update_data ↦ elim (parse_height_from_smt_value update_data) [
          | none ↦ unread
          | some entry_height ↦
              if ltb rollback_height entry_height
              then (delete (update_key key i) ∷ deeper.0, deeper.1)
              else ([], new_length)
        ]
      ]

  unfoldable pub trim_key : db.Store → ℕ → Bytes → List RollbackOp
  trim_key s rollback_height key = elim (rb.get_value s (length_key key)) [
    | none ↦ []
    | some length_bytes ↦
        let length = parse_length length_bytes in
        let walked = walk_back s key rollback_height length length in
        walked.0 ++ length_ops key length walked.1
  ]

  -- `for key in &keys`
  unfoldable pub trim_keys : db.Store → ℕ → List Bytes → List RollbackOp
  trim_keys s rollback_height [] = []
  trim_keys s rollback_height (key ∷ keys) =
      trim_key s rollback_height key ++ trim_keys s rollback_height keys

  -- `for h in (rollback_height + 1)..=current_height`, by the rounds left.
  unfoldable pub manifests_exist : db.Store → ℕ → ℕ → Bool
  manifests_exist s h zero = true
  manifests_exist s h (suc left) =
      let rest = manifests_exist s (h + 1) left in
      elim (rb.get_value s (manifest_key h)) [ none ↦ false | some m ↦ rest ]

  -- `for h in ((rollback_height + 1)..=current_height).rev()`, by the heights left.
  unfoldable pub roll_heights : db.Store → ℕ → ℕ → Result db.Store
  roll_heights s rollback_height zero = ok s
  roll_heights s rollback_height (suc left) =
      let h = rollback_height + suc left in
      elim (rb.get_value s (manifest_key h)) [
        | none ↦ err unwrap_none
        | some manifest_data ↦
            roll_heights
              (rb.apply_atomic s (
                trim_keys s rollback_height (deserialize_key_manifest manifest_data)
                ++ record_ops h))
              rollback_height left
      ]

  -- The flag says whether the manifests sufficed.
  unfoldable pub rollback_with_manifests : db.Store → ℕ → ℕ → Result (Bool × db.Store)
  rollback_with_manifests s rollback_height current_height =
      if leb current_height rollback_height
      then ok (true, s)
      else if manifests_exist s (rollback_height + 1) (current_height - rollback_height)
      then (roll_heights s rollback_height (current_height - rollback_height) >>= λ t. ok (true, t))
      else ok (false, s)
