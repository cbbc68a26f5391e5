-- ===== src/Tree/HashOnly.antt =====
-- The root after an update with no node stored: `BatchedSMTHelper`'s caches,
-- `compute_root_hash_only`, `compute_path_root_only` and `compute_separating_internals_hash_only`.
use metashrew.Prelude.{
  ℕ, zero, suc, ◌+◌, ◌-◌, true, false, Option, none, some, List, [], ◌∷◌, Bytes, bytes_eq,
  if◌then◌else◌,
}
use metashrew.Error.{Result, ok, err, ◌>>=◌, depth_exceeded, keys_identical}
use metashrew.Storage.{KeyValueStoreLike}
use metashrew.Block.{Hash, empty_node_hash}
use metashrew.Tree.{
  Sha256, SmtNode, internal, leaf, smt_node_key, bit_of, deserialize_node, hash_key, hash_value,
  hash_node,
}
use metashrew.Tree.Read.{PathNode, child, with_child}
use metashrew.Tree.Update.{divergence, fork}

-- The two `HashMap`s of `BatchedSMTHelper`: a later entry hides an earlier one.
pub record Caches : Type 0 where
  pub node_cache : List (Hash × SmtNode)
  pub key_hash_cache : List (Bytes × Hash)

unfoldable pub cached {ℓ} : {A : Type ℓ} → List (Bytes × A) → Bytes → Option A
cached [] key = none
cached ((k, a) ∷ entries) key = if bytes_eq k key then some a else cached entries key

abbrev pub no_caches : Caches
no_caches = record { node_cache = []; key_hash_cache = [] }

unfoldable pub clear_caches : Caches → Caches
clear_caches caches = no_caches

module _ ⦃sha : Sha256⦄ where
  unfoldable pub get_key_hash : Caches → Bytes → Hash × Caches
  get_key_hash caches key = elim (cached caches.key_hash_cache key) [
    | some hash ↦ (hash, caches)
    | none ↦ (
      hash_key key,
      record caches { key_hash_cache = (key, hash_key key) ∷ caches.key_hash_cache },
    )
  ]

  -- `for d in (start_depth..depth).rev()`, by the number of levels.
  unfoldable pub parents_hash_only : Hash → ℕ → ℕ → Hash → Hash
  parents_hash_only new_key_hash start_depth zero current_hash = current_hash
  parents_hash_only new_key_hash start_depth (suc levels) current_hash =
      parents_hash_only new_key_hash start_depth levels (
        hash_node (
          with_child (bit_of new_key_hash (start_depth + levels)) current_hash empty_node_hash
            empty_node_hash))

  unfoldable pub compute_separating_internals_hash_only :
      ℕ → Hash → Hash → Hash → Hash → Result Hash
  compute_separating_internals_hash_only start_depth existing_key_hash existing_leaf_hash
        new_key_hash new_leaf_hash =
      elim (divergence existing_key_hash new_key_hash (256 - start_depth) start_depth) [
        | none ↦ err keys_identical
        | some depth ↦ ok (
            parents_hash_only new_key_hash start_depth (depth - start_depth)
              (hash_node (fork (bit_of existing_key_hash depth) existing_leaf_hash new_leaf_hash)))
      ]

  -- One round of `for … in path_nodes.into_iter().rev()`.
  unfoldable pub rebuild_node_hash_only : Hash → PathNode → Hash × Caches → Result (Hash × Caches)
  rebuild_node_hash_only key_hash (node_depth, (leaf existing_key value_index, true)) (h, caches) =
      ok (h, caches)
  rebuild_node_hash_only key_hash (node_depth, (leaf existing_key value_index, false)) (h, caches) =
      let existing = get_key_hash caches existing_key in
      compute_separating_internals_hash_only node_depth existing.0
        (hash_node (leaf existing_key value_index)) key_hash h
      >>= λ made. ok (made, existing.1)
  rebuild_node_hash_only key_hash (node_depth, (internal left_child right_child, flag))
        (h, caches) =
      ok (hash_node (with_child (bit_of key_hash node_depth) h left_child right_child), caches)

  unfoldable pub rebuild_hash_only : Hash → List PathNode → Hash × Caches → Result (Hash × Caches)
  rebuild_hash_only key_hash [] built = ok built
  rebuild_hash_only key_hash (p ∷ path) built =
      rebuild_hash_only key_hash path built >>= rebuild_node_hash_only key_hash p

  -- One round of the traversal; `below` is the rest of it at a child.
  unfoldable pub path_step_cached :
      Hash
      → ℕ
      → (Hash → Caches → Result (List PathNode × Caches))
      → Option SmtNode × Caches
      → Result (List PathNode × Caches)
  path_step_cached key_hash depth below (none, caches) = ok ([], caches)
  path_step_cached key_hash depth below (some (leaf key value_index), caches) =
      let existing = get_key_hash caches key in
      ok ((depth, (leaf key value_index, bytes_eq existing.0 key_hash)) ∷ [], existing.1)
  path_step_cached key_hash depth below (some (internal left_child right_child), caches) =
      below (child (bit_of key_hash depth) left_child right_child) caches >>= λ rest.
      ok ((depth, (internal left_child right_child, false)) ∷ rest.0, rest.1)

module _ ⦃db : KeyValueStoreLike⦄ where
  unfoldable pub get_node_cached : db.Store → Caches → Hash → ℕ → Result (Option SmtNode × Caches)
  get_node_cached s caches node_hash height =
      if bytes_eq node_hash empty_node_hash
      then ok (none, caches)
      else elim (cached caches.node_cache node_hash) [
        | some node ↦ ok (some node, caches)
        | none ↦ elim (db.get_immutable s (smt_node_key node_hash)) [
          | none ↦ ok (none, caches)
          | some node_data ↦
              (deserialize_node node_data >>= λ node.
              ok (some node, record caches { node_cache = (node_hash, node) ∷ caches.node_cache }))
        ]
      ]

module _ ⦃db : KeyValueStoreLike⦄ ⦃sha : Sha256⦄ where
  unfoldable pub path_cached :
      db.Store → Hash → ℕ → ℕ → Hash → Caches → Result (List PathNode × Caches)
  path_cached s key_hash zero depth current_hash caches = err depth_exceeded
  path_cached s key_hash (suc left) depth current_hash caches =
      get_node_cached s caches current_hash 0
      >>= path_step_cached key_hash depth (path_cached s key_hash left (depth + 1))

  unfoldable pub compute_path_root_only :
      db.Store → Caches → Hash → Hash → Hash → Result (Hash × Caches)
  compute_path_root_only s caches current_root key_hash new_leaf_hash =
      path_cached s key_hash 256 0 current_root caches >>= λ path.
      rebuild_hash_only key_hash path.0 (new_leaf_hash, path.1)

  unfoldable pub compute_root_hash_only :
      db.Store → Caches → Hash → Bytes → Bytes → Result (Hash × Caches)
  compute_root_hash_only s caches current_root key value =
      let hashed = get_key_hash caches key in
      let new_leaf_hash = hash_node (leaf key (hash_value value)) in
      if bytes_eq current_root empty_node_hash
      then ok (new_leaf_hash, hashed.1)
      else compute_path_root_only s hashed.1 current_root hashed.0 new_leaf_hash

  unfoldable pub compute_minimal_smt_root :
      db.Store → Caches → Hash → List (Bytes × Bytes) → Result (Hash × Caches)
  compute_minimal_smt_root s caches current_root [] = ok (current_root, caches)
  compute_minimal_smt_root s caches current_root ((key, value) ∷ kvs) =
      compute_root_hash_only s caches current_root key value >>= λ made.
      compute_minimal_smt_root s made.1 made.0 kvs
