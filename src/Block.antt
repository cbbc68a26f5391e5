-- ===== src/Block.antt =====
-- The batch of a block: `get_smt_root_at_height`, `build_state_root_batch_unwritten` and
-- `calculate_and_store_state_root_batched` of `BatchedSMTHelper` in
-- crates/metashrew-runtime/src/smt.rs.
pub mod Updates
pub mod Effect
pub mod Closest
use metashrew.Prelude.{
  ℕ, zero, suc, ◌+◌, ◌-◌, ◌%◌, Option, none, some, List, [], ◌∷◌, ◌++◌, Bytes, bytes_eq, length,
  ltb, ◌==◌, if◌then◌else◌,
}
use metashrew.RustStd.Decimal.{u32_mod, to_string}
use metashrew.RustStd.Words.{to_le_bytes}
use metashrew.RustStd.Sort.{sort_unstable, dedup}
use metashrew.Keys.Layout.{length_key, update_key, root_key, manifest_key, tip_height_key}
use metashrew.Error.{Result, ok, err, no_state_root}
use metashrew.Storage.{KeyValueStoreLike, HexCodec}
use metashrew.Storage.Batch.{BatchOperation, put}
use metashrew.Append.{stored_length, update_value}
use metashrew.Manifest.{serialize_key_manifest}

abbrev pub Hash : Type 0
Hash = Bytes

abbrev pub zeros : ℕ → Bytes
zeros zero = []
zeros (suc n) = 0 ∷ zeros n

abbrev pub empty_node_hash : Hash
empty_node_hash = zeros 32

-- `HashMap<Vec<u8>, u32>`: a later entry hides an earlier one.
abbrev pub Lengths : Type 0
Lengths = List (Bytes × ℕ)

unfoldable pub find : Lengths → Bytes → Option ℕ
find [] key = none
find ((k, n) ∷ lengths) key = if bytes_eq k key then some n else find lengths key

abbrev pub keys_of : List (Bytes × Bytes) → List Bytes
keys_of [] = []
keys_of ((k, v) ∷ kvs) = k ∷ keys_of kvs

unfoldable pub manifest_ops : ℕ → List (Bytes × Bytes) → List BatchOperation
manifest_ops height [] = []
manifest_ops height ((key, value) ∷ kvs) =
    let unique_keys = dedup (sort_unstable (keys_of ((key, value) ∷ kvs))) in
    put (manifest_key height) (serialize_key_manifest unique_keys) ∷ []

module _ ⦃db : KeyValueStoreLike⦄ where
  -- The record of a root counts if it has 32 bytes.
  unfoldable pub root_at : db.Store → ℕ → Option Hash
  root_at s height = elim (db.get_immutable s (root_key height)) [
    | none ↦ none
    | some root_data ↦ if length root_data == 32 then some root_data else none
  ]

  -- `loop { … target_height -= 1; }` from `height - 1` down to 0.
  unfoldable pub root_below : db.Store → ℕ → Option Hash
  root_below s zero = none
  root_below s (suc target_height) =
      let lower = root_below s target_height in
      elim (root_at s target_height) [ some root ↦ some root | none ↦ lower ]

  unfoldable pub get_smt_root_at_height : db.Store → ℕ → Result Hash
  get_smt_root_at_height s height = elim (root_at s height) [
    | some root ↦ ok root
    | none ↦ elim (root_below s height) [ some root ↦ ok root | none ↦ err (no_state_root height) ]
  ]

  unfoldable pub previous_root : db.Store → ℕ → Hash
  previous_root s zero = empty_node_hash
  previous_root s (suc h) = elim (get_smt_root_at_height s h) [
    | ok root ↦ root
    | err e ↦ empty_node_hash
  ]

module _ ⦃db : KeyValueStoreLike⦄ ⦃hex : HexCodec⦄ where
  -- The length that the next update of `key` finds: this batch's, or the stored one.
  unfoldable pub current_length : db.Store → Lengths → Bytes → ℕ
  current_length s key_lengths key = elim (find key_lengths key) [
    | some len ↦ len
    | none ↦ stored_length s key
  ]

  -- `for (key, value) in key_values`
  unfoldable pub append_updates :
      db.Store → ℕ → Lengths → List (Bytes × Bytes) → List BatchOperation
  append_updates s height key_lengths [] = []
  append_updates s height key_lengths ((key, value) ∷ kvs) =
      let length = current_length s key_lengths key in
      let new_length = (length + 1) % u32_mod in
      put (update_key key length) (update_value height value)
      ∷ put (length_key key) (to_string new_length)
      ∷ append_updates s height ((key, new_length) ∷ key_lengths) kvs

  -- The new root is the previous one: the tree is not recomputed.
  unfoldable pub build_state_root_batch_unwritten :
      db.Store → ℕ → List (Bytes × Bytes) → Bytes → Result (Hash × List BatchOperation)
  build_state_root_batch_unwritten s height key_values block_hash =
      let new_root = previous_root s height in
      ok (
        new_root,
        append_updates s height [] key_values
            ++ (put (root_key height) new_root
                ∷ (manifest_ops height key_values ++ put tip_height_key (to_le_bytes height) ∷ [])),
      )

  unfoldable pub calculate_and_store_state_root_batched :
      db.Store → ℕ → List (Bytes × Bytes) → Bytes → Result (Hash × db.Store)
  calculate_and_store_state_root_batched s height key_values block_hash =
      elim (build_state_root_batch_unwritten s height key_values block_hash) [
        | ok built ↦ ok (built.0, db.write s built.1)
        | err e ↦ err e
      ]
