-- ===== src/Rollback/Full.antt =====
-- The rollback that scans every key: `rollback_smt_data` of crates/metashrew-runtime/src/rollback.rs.
pub mod Slots
pub mod Compact
use metashrew.Prelude.{
  ℕ, zero, suc, ◌+◌, ◌-◌, Option, none, some, List, [], ◌∷◌, ◌++◌, Bytes, codes, length, take, ltb,
  leb, if◌then◌else◌,
}
use metashrew.RustStd.Decimal.{to_string, parse_u32}
use metashrew.RustStd.Utf8.{from_utf8_lossy}
use metashrew.RustStd.Find.{strip_prefix, ends_with}
use metashrew.RustStd.Sort.{sort_unstable, dedup}
use metashrew.Keys.Layout.{length_key, length_suffix, update_key, smt_root_prefix}
use metashrew.Storage.{KeyValueStoreLike, SmtRollback}
use metashrew.Storage.Batch.{put, delete}
use metashrew.Append.{parse_length}
use metashrew.Rollback.{RollbackOp, parse_height_from_smt_value}

-- The number behind the first prefix that the text has; a later prefix is not tried then.
unfoldable pub metadata_height : Bytes → Option ℕ
metadata_height key =
    let key_str = from_utf8_lossy key in
    elim (strip_prefix (codes "block_hash_") key_str) [
      | some stripped ↦ parse_u32 stripped
      | none ↦ elim (strip_prefix (codes "state_root_") key_str) [
        | some stripped ↦ parse_u32 stripped
        | none ↦ elim (strip_prefix smt_root_prefix key_str) [
          | some stripped ↦ parse_u32 stripped
          | none ↦ none
        ]
      ]
    ]

-- `iter_keys` with its callback: the metadata to delete, and the base keys.
unfoldable pub collect_keys : ℕ → List Bytes → List Bytes × List Bytes
collect_keys rollback_height [] = ([], [])
collect_keys rollback_height (key ∷ keys) =
    let rest = collect_keys rollback_height keys in
    elim (metadata_height key) [
      | some h ↦ if ltb rollback_height h then (key ∷ rest.0, rest.1) else rest
      | none ↦
          if ends_with key length_suffix
          then (rest.0, take (length key - length length_suffix) key ∷ rest.1)
          else rest
    ]

unfoldable pub deletions : List Bytes → List RollbackOp
deletions [] = []
deletions (key ∷ keys) = delete key ∷ deletions keys

-- `for i in 0..old_length`, by the rounds left.
unfoldable pub delete_slots : Bytes → ℕ → ℕ → List RollbackOp
delete_slots base_key i zero = []
delete_slots base_key i (suc left) =
    delete (update_key base_key i) ∷ delete_slots base_key (i + 1) left

-- The survivors at compacted indices.
unfoldable pub put_slots : Bytes → ℕ → List Bytes → List RollbackOp
put_slots base_key new_index [] = []
put_slots base_key new_index (update_data ∷ updates) =
    put (update_key base_key new_index) update_data ∷ put_slots base_key (new_index + 1) updates

-- The new `/length` record, or its removal.
unfoldable pub compact_length_op : Bytes → ℕ → RollbackOp
compact_length_op base_key new_length =
    if ltb 0 new_length
    then put (length_key base_key) (to_string new_length)
    else delete (length_key base_key)

module _ ⦃db : KeyValueStoreLike⦄ ⦃rb : SmtRollback db⦄ where
  unfoldable pub valid_updates : db.Store → Bytes → ℕ → ℕ → ℕ → List Bytes
  valid_updates s base_key rollback_height i zero = []
  valid_updates s base_key rollback_height i (suc left) =
      let rest = valid_updates s base_key rollback_height (i + 1) left in
      elim (rb.get_value s (update_key base_key i)) [
        | none ↦ rest
        | some update_data ↦ elim (parse_height_from_smt_value update_data) [
          | none ↦ rest
          | some h ↦ if leb h rollback_height then update_data ∷ rest else rest
        ]
      ]

  unfoldable pub compact_ops : db.Store → Bytes → ℕ → ℕ → List RollbackOp
  compact_ops s base_key rollback_height old_length =
      let valid = valid_updates s base_key rollback_height 0 old_length in
      delete_slots base_key 0 old_length
      ++ (put_slots base_key 0 valid ++ compact_length_op base_key (length valid) ∷ [])

  -- One structure: a key with no `/length` record is passed over.
  unfoldable pub compact_key : db.Store → ℕ → Bytes → db.Store
  compact_key s rollback_height base_key = elim (rb.get_value s (length_key base_key)) [
    | none ↦ s
    | some length_bytes ↦
        rb.apply_atomic s (compact_ops s base_key rollback_height (parse_length length_bytes))
  ]

  unfoldable pub compact_keys : db.Store → ℕ → List Bytes → db.Store
  compact_keys s rollback_height [] = s
  compact_keys s rollback_height (base_key ∷ base_keys) =
      compact_keys (compact_key s rollback_height base_key) rollback_height base_keys

  unfoldable pub rollback_smt_data : db.Store → ℕ → ℕ → db.Store
  rollback_smt_data s rollback_height current_height =
      if leb current_height rollback_height
      then s
      else (let collected = collect_keys rollback_height (rb.iter_keys s) in
          compact_keys (rb.apply_atomic s (deletions collected.0)) rollback_height
            (dedup (sort_unstable collected.1)))
