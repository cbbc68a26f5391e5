-- ===== src/Tree/Root.antt =====
-- The state root of a height from the append-only store, and the tree-side scans: `get_keys_at_height`,
-- `compute_incremental_smt_root`, `calculate_and_store_state_root`, its `_batched` twin and
-- `get_current_state_root` of `SMTHelper`.
use metashrew.Prelude.{
  ℕ, ◌-◌, Bool, true, false, Option, none, some, List, [], ◌∷◌, ◌++◌, Bytes, length, take, ltb,
  ◌==◌, ◌&&◌, ◌||◌, if◌then◌else◌,
}
use metashrew.RustStd.Decimal.{parse_u32}
use metashrew.RustStd.Find.{strip_prefix, ends_with}
use metashrew.Keys.Layout.{length_suffix, root_key, smt_root_prefix}
use metashrew.Error.{Result, ok, ◌>>=◌}
use metashrew.Storage.{KeyValueStoreLike, HexCodec}
use metashrew.Storage.Batch.{put}
use metashrew.Append.{get_at_height, get_heights_for_key}
use metashrew.Block.{Hash, empty_node_hash, previous_root}
use metashrew.Tree.{Sha256}
use metashrew.Tree.Update.{update_smt_for_key, compute_batched_smt_root}

-- `heights.contains(&height)`
unfoldable pub has_height : List ℕ → ℕ → Bool
has_height [] height = false
has_height (h ∷ heights) height = (h == height) || has_height heights height

-- The keys of `/length` records, without that suffix.
unfoldable pub base_keys_of : List (Bytes × Bytes) → List Bytes
base_keys_of [] = []
base_keys_of ((stored_key, v) ∷ entries) =
    if ends_with stored_key length_suffix
    then take (length stored_key - length length_suffix) stored_key ∷ base_keys_of entries
    else base_keys_of entries

-- The highest height seen, with its root.
abbrev pub Highest : Type 0
Highest = Option (ℕ × Hash)

-- `highest_height.is_none() || height > highest_height.unwrap()`
is_higher : Highest → ℕ → Bool
is_higher none height = true
is_higher (some best) height = ltb best.0 height

-- One round of the scan. Text that `str::from_utf8` refuses is no number.
unfoldable pub higher : Bytes × Bytes → Highest → Highest
unfolding is_higher
higher (key, value) highest = elim (strip_prefix smt_root_prefix key) [
  | none ↦ highest
  | some height_bytes ↦ elim (parse_u32 height_bytes) [
    | none ↦ highest
    | some height ↦
        if is_higher highest height && (length value == 32) then some (height, value) else highest
  ]
]

unfoldable pub highest_of : List (Bytes × Bytes) → Highest → Highest
highest_of [] highest = highest
highest_of (entry ∷ entries) highest = highest_of entries (higher entry highest)

module _ ⦃db : KeyValueStoreLike⦄ where
  unfoldable pub get_current_state_root : db.Store → Hash
  get_current_state_root s = elim (highest_of (db.scan_prefix s smt_root_prefix) none) [
    | none ↦ empty_node_hash
    | some best ↦ best.1
  ]

module _ ⦃db : KeyValueStoreLike⦄ ⦃hex : HexCodec⦄ where
  unfoldable pub updated_at : db.Store → ℕ → List Bytes → List Bytes
  updated_at s height [] = []
  updated_at s height (key ∷ keys) =
      if has_height (get_heights_for_key s key) height
      then key ∷ updated_at s height keys
      else updated_at s height keys

  unfoldable pub get_keys_at_height : db.Store → ℕ → List Bytes
  get_keys_at_height s height = updated_at s height (base_keys_of (db.scan_prefix s []))

  -- The values of the keys that have one at `height`.
  unfoldable pub values_of : db.Store → ℕ → List Bytes → Result (List (Bytes × Bytes))
  values_of s height [] = ok []
  values_of s height (key ∷ keys) = get_at_height s key height >>= λ found.
      values_of s height keys >>= λ rest. elim found [
        | some value ↦ ok ((key, value) ∷ rest)
        | none ↦ ok rest
      ]

module _ ⦃db : KeyValueStoreLike⦄ ⦃hex : HexCodec⦄ ⦃sha : Sha256⦄ where
  -- An update writes the store, which the next reads see.
  unfoldable pub compute_incremental_smt_root :
      db.Store → Hash → List Bytes → ℕ → Result (Hash × db.Store)
  compute_incremental_smt_root s current_root [] height = ok (current_root, s)
  compute_incremental_smt_root s current_root (key ∷ keys) height =
      get_at_height s key height >>= λ found. elim found [
        | none ↦ compute_incremental_smt_root s current_root keys height
        | some value ↦
            (update_smt_for_key s current_root key value height >>= λ made.
            compute_incremental_smt_root made.1 made.0 keys height)
      ]

  store_root : db.Store → ℕ → Hash → Hash × db.Store
  store_root s height root = (root, db.write s (put (root_key height) root ∷ []))

  unfoldable pub calculate_and_store_state_root : db.Store → ℕ → Result (Hash × db.Store)
  unfolding store_root
  calculate_and_store_state_root s height = elim (get_keys_at_height s height) [
    | [] ↦ ok (store_root s height (previous_root s height))
    | updated_key ∷ keys ↦
        (compute_incremental_smt_root s (previous_root s height) (updated_key ∷ keys) height
          >>= λ made. ok (store_root made.1 height made.0))
  ]

  -- `SMTHelper::calculate_and_store_state_root_batched`
  unfoldable pub calculate_and_store_root_of_keys :
      db.Store → ℕ → List Bytes → Result (Hash × db.Store)
  unfolding store_root
  calculate_and_store_root_of_keys s height [] = ok (store_root s height (previous_root s height))
  calculate_and_store_root_of_keys s height (updated_key ∷ keys) =
      values_of s height (updated_key ∷ keys) >>= λ key_values.
      compute_batched_smt_root s (previous_root s height) key_values height [] >>= λ made.
      ok (made.0, db.write s (made.1 ++ put (root_key height) made.0 ∷ []))
