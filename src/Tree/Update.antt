-- ===== src/Tree/Update.antt =====
-- An update of the tree that adds its nodes to a batch: `compute_path_updates`,
-- `create_separating_internals` and their `_batched` twins, of `SMTHelper`.
use metashrew.Prelude.{
  ℕ, zero, suc, ◌+◌, ◌-◌, true, false, Option, none, some, List, [], ◌∷◌, ◌++◌, Bytes, bytes_eq,
  ◌==◌, if◌then◌else◌,
}
use metashrew.Error.{Result, ok, err, ◌>>=◌, keys_identical}
use metashrew.Storage.{KeyValueStoreLike}
use metashrew.Storage.Batch.{BatchOperation, put}
use metashrew.Block.{Hash, empty_node_hash}
use metashrew.Tree.{
  Sha256, SmtNode, internal, leaf, smt_node_key, bit_of, serialize_node, hash_key, hash_value,
  hash_node,
}
use metashrew.Tree.Read.{PathNode, with_child, path_from}

-- `while depth < 256`: the first depth from `depth` on where the keys differ, by the levels left.
unfoldable pub divergence : Hash → Hash → ℕ → ℕ → Option ℕ
divergence existing_key_hash new_key_hash zero depth = none
divergence existing_key_hash new_key_hash (suc left) depth =
    let deeper = divergence existing_key_hash new_key_hash left (depth + 1) in
    if bit_of existing_key_hash depth == bit_of new_key_hash depth then deeper else some depth

-- The internal node that tells two leaves apart: each on the side of its bit.
abbrev pub fork : ℕ → Hash → Hash → SmtNode
fork existing_bit existing_leaf_hash new_leaf_hash =
    if existing_bit == 0
    then internal existing_leaf_hash new_leaf_hash
    else internal new_leaf_hash existing_leaf_hash

-- `updates.last()`, or else the hash of the leaf.
unfoldable pub last_hash : List (ℕ × Hash) → Hash → Hash
last_hash [] hash = hash
last_hash ((depth, h) ∷ updates) hash = last_hash updates h

module _ ⦃sha : Sha256⦄ where
  -- The batch with a node stored under its hash.
  unfoldable pub put_node : List BatchOperation → SmtNode → List BatchOperation
  put_node batch node = batch ++ put (smt_node_key (hash_node node)) (serialize_node node) ∷ []

  -- `for d in (start_depth..depth).rev()`, by the number of levels.
  unfoldable pub put_parents :
      List BatchOperation → Hash → ℕ → ℕ → Hash → Hash × List BatchOperation
  put_parents batch new_key_hash start_depth zero current_hash = (current_hash, batch)
  put_parents batch new_key_hash start_depth (suc levels) current_hash =
      let parent =
        with_child (bit_of new_key_hash (start_depth + levels)) current_hash empty_node_hash
          empty_node_hash in
      put_parents (put_node batch parent) new_key_hash start_depth levels (hash_node parent)

  unfoldable pub create_separating_internals :
      ℕ → Hash → Hash → Hash → Hash → List BatchOperation → Result (Hash × List BatchOperation)
  create_separating_internals start_depth existing_key_hash existing_leaf_hash new_key_hash
        new_leaf_hash batch =
      elim (divergence existing_key_hash new_key_hash (256 - start_depth) start_depth) [
        | none ↦ err keys_identical
        | some depth ↦
            let node = fork (bit_of existing_key_hash depth) existing_leaf_hash new_leaf_hash in
            ok (
              put_parents (put_node batch node) new_key_hash start_depth (depth - start_depth)
                (hash_node node))
      ]

  -- The same code once more.
  unfoldable pub create_separating_internals_batched :
      ℕ → Hash → Hash → Hash → Hash → List BatchOperation → Result (Hash × List BatchOperation)
  create_separating_internals_batched = create_separating_internals

  -- What the loops over the path have: the updates made, the hash of the child, and the batch.
  abbrev pub Built : Type 0
  Built = List (ℕ × Hash) × (Hash × List BatchOperation)

  -- One round of `for … in path_nodes.into_iter().rev()`.
  unfoldable pub rebuild_node : Hash → PathNode → Built → Result Built
  rebuild_node key_hash (node_depth, (leaf existing_key value_index, true)) (updates, (h, batch)) =
      ok (updates ++ (node_depth, h) ∷ [], (h, batch))
  rebuild_node key_hash (node_depth, (leaf existing_key value_index, false)) (updates, (h, batch)) =
      create_separating_internals node_depth (hash_key existing_key)
        (hash_node (leaf existing_key value_index)) key_hash h batch
      >>= λ made. ok (updates ++ (node_depth, made.0) ∷ [], made)
  rebuild_node key_hash (node_depth, (internal left_child right_child, flag))
        (updates, (h, batch)) =
      let node = with_child (bit_of key_hash node_depth) h left_child right_child in
      ok (updates ++ (node_depth, hash_node node) ∷ [], (hash_node node, put_node batch node))

  -- The nodes stand from the root down; the rounds go up.
  unfoldable pub rebuild : Hash → List PathNode → Built → Result Built
  rebuild key_hash [] built = ok built
  rebuild key_hash (p ∷ path) built = rebuild key_hash path built >>= rebuild_node key_hash p

module _ ⦃db : KeyValueStoreLike⦄ ⦃sha : Sha256⦄ where
  unfoldable pub compute_path_updates :
      db.Store
      → Hash
      → Hash
      → Hash
      → List BatchOperation
      → Result (List (ℕ × Hash) × List BatchOperation)
  compute_path_updates s current_root key_hash new_leaf_hash batch =
      path_from s key_hash 256 0 current_root >>= λ path.
      rebuild key_hash path ([], (new_leaf_hash, batch)) >>= λ built. ok (built.0, built.1.1)

  unfoldable pub compute_path_updates_batched :
      db.Store
      → Hash
      → Hash
      → Hash
      → List BatchOperation
      → Result (List (ℕ × Hash) × List BatchOperation)
  compute_path_updates_batched = compute_path_updates

  -- The empty tree gets its leaf in the batch as well.
  unfoldable pub update_smt_for_key_batched :
      db.Store
      → Hash
      → Bytes
      → Bytes
      → ℕ
      → List BatchOperation
      → Result (Hash × List BatchOperation)
  update_smt_for_key_batched s current_root key value height batch =
      let new_leaf = leaf key (hash_value value) in
      let new_leaf_hash = hash_node new_leaf in
      if bytes_eq current_root empty_node_hash
      then ok (new_leaf_hash, put_node batch new_leaf)
      else (compute_path_updates_batched s current_root (hash_key key) new_leaf_hash
            (put_node batch new_leaf)
          >>= λ made. ok (last_hash made.0 new_leaf_hash, made.1))

  unfoldable pub compute_batched_smt_root :
      db.Store
      → Hash
      → List (Bytes × Bytes)
      → ℕ
      → List BatchOperation
      → Result (Hash × List BatchOperation)
  compute_batched_smt_root s current_root [] height batch = ok (current_root, batch)
  compute_batched_smt_root s current_root ((key, value) ∷ kvs) height batch =
      update_smt_for_key_batched s current_root key value height batch >>= λ made.
      compute_batched_smt_root s made.0 kvs height made.1

  -- The tree of an empty root returns before its batch is written: the store is as it was.
  unfoldable pub update_smt_for_key : db.Store → Hash → Bytes → Bytes → ℕ → Result (Hash × db.Store)
  update_smt_for_key s current_root key value height =
      let new_leaf = leaf key (hash_value value) in
      let new_leaf_hash = hash_node new_leaf in
      if bytes_eq current_root empty_node_hash
      then ok (new_leaf_hash, s)
      else (compute_path_updates s current_root (hash_key key) new_leaf_hash (put_node [] new_leaf)
          >>= λ made. ok (last_hash made.0 new_leaf_hash, db.write s made.1))
