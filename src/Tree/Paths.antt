-- ===== src/Tree/Paths.antt =====
-- The tree update that returns its writes as a list: `compute_smt_updates` and `compute_new_root`
-- of `SMTHelper`.
use metashrew.Prelude.{
  ℕ, Bool, Option, none, some, List, [], ◌∷◌, ◌++◌, Bytes, length, ◌==◌, if◌then◌else◌,
}
use metashrew.RustStd.Find.{starts_with}
use metashrew.Keys.Layout.{root_key, smt_root_prefix}
use metashrew.Error.{Result, ok, err, ◌>>=◌, slice_length}
use metashrew.Storage.{KeyValueStoreLike}
use metashrew.Block.{Hash}
use metashrew.Tree.{
  Sha256, SmtNode, internal, leaf, smt_node_key, serialize_node, hash_key, hash_value, hash_node,
}
use metashrew.Tree.Read.{collect_path_nodes}

abbrev pub Updates : Type 0
Updates = List (Bytes × Bytes)

-- `for … in updates.iter().rev()`: the last value under the prefix of the roots.
unfoldable pub last_root : Updates → Option Bytes
last_root [] = none
last_root ((key, value) ∷ updates) = elim (last_root updates) [
  | some root ↦ some root
  | none ↦ if starts_with key smt_root_prefix then some value else none
]

unfoldable pub root_of : Updates → Hash → Result Hash
root_of updates current_root = elim (last_root updates) [
  | none ↦ ok current_root
  | some value ↦ if length value == 32 then ok value else err slice_length
]

module _ ⦃sha : Sha256⦄ where
  -- One round of `for … in path_nodes.iter().enumerate().rev()`, on the updates and the hash that
  -- `new_nodes` ends with, which for the last node of the path is that of the leaf.
  unfoldable pub update_node : Bool × SmtNode → Updates × Hash → Updates × Hash
  update_node (path_bit, leaf key value_index) (updates, child_hash) = (updates, child_hash)
  update_node (path_bit, internal left_child right_child) (updates, child_hash) =
      let new_node =
        if path_bit then internal left_child child_hash else internal child_hash right_child in
      (
        updates ++ (smt_node_key (hash_node new_node), serialize_node new_node) ∷ [],
        hash_node new_node,
      )

  unfoldable pub update_nodes : List (Bool × SmtNode) → Updates × Hash → Updates × Hash
  update_nodes [] state = state
  update_nodes (p ∷ path) state = update_node p (update_nodes path state)

  -- The leaf under the hash of its key, and under its own.
  unfoldable pub leaf_updates : Bytes → SmtNode → Updates
  leaf_updates key leaf_node =
      (smt_node_key (hash_key key), serialize_node leaf_node)
      ∷ (smt_node_key (hash_node leaf_node), serialize_node leaf_node)
      ∷ []

module _ ⦃db : KeyValueStoreLike⦄ ⦃sha : Sha256⦄ where
  -- For the empty path the rounds make no update, and the root is the leaf.
  unfoldable pub compute_smt_updates : db.Store → Bytes → Bytes → Hash → ℕ → Result Updates
  compute_smt_updates s key value current_root height =
      let leaf_node = leaf key (hash_value value) in
      collect_path_nodes s current_root (hash_key key) height >>= λ path_nodes.
      let built = update_nodes path_nodes (leaf_updates key leaf_node, hash_node leaf_node) in
      ok (built.0 ++ (root_key height, built.1) ∷ [])

  unfoldable pub compute_new_root : db.Store → Hash → List (Bytes × Bytes) → ℕ → Result Hash
  compute_new_root s current_root [] height = ok current_root
  compute_new_root s current_root ((key, value) ∷ []) height =
      compute_smt_updates s key value current_root height >>= λ updates.
      root_of updates current_root
  compute_new_root s current_root (kv ∷ kv2 ∷ kvs) height =
      compute_new_root s current_root (kv2 ∷ kvs) height
