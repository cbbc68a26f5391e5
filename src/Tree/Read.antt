-- ===== src/Tree/Read.antt =====
-- Reads of the tree: `get_node`, `get_smt_leaf` and `collect_path_nodes` of `SMTHelper`, and the
-- traversal that its updates share. `left` counts the levels down to depth 256, where the code stops.
use metashrew.Prelude.{
  ℕ, zero, suc, ◌+◌, Bool, false, Option, none, some, List, [], ◌∷◌, bytes_eq, ◌==◌, if◌then◌else◌,
}
use metashrew.Error.{Result, ok, err, ◌>>=◌, depth_exceeded}
use metashrew.Storage.{KeyValueStoreLike}
use metashrew.Block.{Hash, empty_node_hash}
use metashrew.Tree.{
  Sha256, SmtNode, internal, leaf, smt_node_key, bit_of, deserialize_node, hash_key,
}

-- A node of a path: its depth, and whether it is a leaf of the key that is replaced.
abbrev pub PathNode : Type 0
PathNode = ℕ × (SmtNode × Bool)

-- What the child of an internal node on the side of `bit` is.
abbrev pub child : ℕ → Hash → Hash → Hash
child bit left_child right_child = if bit == 0 then left_child else right_child

-- The internal node whose child on the side of `bit` is `new_child`.
abbrev pub with_child : ℕ → Hash → Hash → Hash → SmtNode
with_child bit new_child left_child right_child =
    if bit == 0 then internal new_child right_child else internal left_child new_child

module _ ⦃db : KeyValueStoreLike⦄ where
  unfoldable pub get_node : db.Store → Hash → Result (Option SmtNode)
  get_node s node_hash =
      if bytes_eq node_hash empty_node_hash
      then ok none
      else elim (db.get_immutable s (smt_node_key node_hash)) [
        | none ↦ ok none
        | some node_data ↦ (deserialize_node node_data >>= λ node. ok (some node))
      ]

module _ ⦃sha : Sha256⦄ where
  -- One round of `loop { … }` at the head of `compute_path_updates` and
  -- `compute_path_updates_batched`; `below` is the rest of the loop at a child.
  unfoldable pub path_step :
      Hash → ℕ → (Hash → Result (List PathNode)) → Option SmtNode → Result (List PathNode)
  path_step key_hash depth below none = ok []
  path_step key_hash depth below (some (leaf key value_index)) =
      ok ((depth, (leaf key value_index, bytes_eq (hash_key key) key_hash)) ∷ [])
  path_step key_hash depth below (some (internal left_child right_child)) =
      below (child (bit_of key_hash depth) left_child right_child) >>= λ path.
      ok ((depth, (internal left_child right_child, false)) ∷ path)

module _ ⦃db : KeyValueStoreLike⦄ ⦃sha : Sha256⦄ where
  unfoldable pub find_leaf : db.Store → Hash → ℕ → ℕ → Hash → Result (Option SmtNode)
  find_leaf s key_hash zero depth current_hash = err depth_exceeded
  find_leaf s key_hash (suc left) depth current_hash = get_node s current_hash >>= λ found.
      elim found [
        | none ↦ ok none
        | some (leaf key value_index) ↦
            if bytes_eq (hash_key key) key_hash then ok (some (leaf key value_index)) else ok none
        | some (internal left_child right_child) ↦
            let next = child (bit_of key_hash depth) left_child right_child in
            let below = find_leaf s key_hash left (depth + 1) next in
            if bytes_eq next empty_node_hash then ok none else below
      ]

  unfoldable pub get_smt_leaf : db.Store → Hash → Hash → ℕ → Result (Option SmtNode)
  get_smt_leaf s root key_hash height =
      if bytes_eq root empty_node_hash then ok none else find_leaf s key_hash 256 0 root

  unfoldable pub collect_from : db.Store → Hash → ℕ → ℕ → Hash → Result (List (Bool × SmtNode))
  collect_from s key_hash zero depth current_hash = err depth_exceeded
  collect_from s key_hash (suc left) depth current_hash = get_node s current_hash >>= λ found.
      elim found [
        | none ↦ ok []
        | some (leaf key value_index) ↦ ok ((false, leaf key value_index) ∷ [])
        | some (internal left_child right_child) ↦
            let bit = bit_of key_hash depth in
            let next = child bit left_child right_child in
            let below = collect_from s key_hash left (depth + 1) next >>= λ path.
            ok ((bit == 1, internal left_child right_child) ∷ path) in
            if bytes_eq next empty_node_hash
            then ok ((bit == 1, internal left_child right_child) ∷ [])
            else below
      ]

  unfoldable pub collect_path_nodes : db.Store → Hash → Hash → ℕ → Result (List (Bool × SmtNode))
  collect_path_nodes s root key_hash height =
      if bytes_eq root empty_node_hash then ok [] else collect_from s key_hash 256 0 root

  unfoldable pub path_from : db.Store → Hash → ℕ → ℕ → Hash → Result (List PathNode)
  path_from s key_hash zero depth current_hash = err depth_exceeded
  path_from s key_hash (suc left) depth current_hash =
      get_node s current_hash >>= path_step key_hash depth (path_from s key_hash left (depth + 1))
