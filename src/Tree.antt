-- ===== src/Tree.antt =====
-- The nodes of the sparse Merkle tree: `SMTNode` and the hashing and serialization of
-- `SMTHelper` in crates/metashrew-runtime/src/smt.rs.
pub mod Serial
pub mod Read
pub mod Update
pub mod HashOnly
pub mod Coherent
pub mod Agree
pub mod Paths
pub mod Root
use metashrew.Prelude.{
  ℕ, ◌+◌, ◌-◌, ◌/◌, ◌%◌, ◌^◌, ◌≡◌, Bool, true, false, Option, none, some, List, [], ◌∷◌, ◌++◌,
  Bytes, All, IsByte, length, get_elem?, take, drop, ltb, ◌==◌, if◌then◌else◌,
}
use metashrew.RustStd.Decimal.{u32_mod}
use metashrew.RustStd.Words.{to_le_bytes, from_le_bytes}
use metashrew.Keys.{make_smt_node_key, prefixes}
use metashrew.Error.{
  Result, ok, err, empty_node_data, invalid_internal_length, invalid_leaf_length, invalid_node_type,
}
use metashrew.Block.{Hash}

-- The `sha2` crate, which the repository does not contain: a digest has 32 bytes.
pub record Sha256 : Type 0 where
  pub digest : Bytes → Hash
  pub length-digest : (message : Bytes) → length (digest message) ≡ 32

-- A `[u8; 32]` is a list of 32 bytes.
pub data SmtNode : Type 0 where
  internal : (left_child right_child : Hash) → SmtNode
  leaf : (key : Bytes) (value_index : Hash) → SmtNode

abbrev pub smt_node_key : Hash → Bytes
smt_node_key hash = make_smt_node_key prefixes.smt_node hash

-- `(hash[depth / 8] >> (7 - (depth % 8))) & 1`, of a hash of 32 bytes and a depth below 256; the
-- default stands for the panic of an index out of range. A shift by at most 7 is a division.
unfoldable pub bit_of : Hash → ℕ → ℕ
bit_of hash depth = elim (get_elem? hash (depth / 8)) [
  | none ↦ 0
  | some byte ↦ byte / 2 ^ (7 - depth % 8) % 2
]

unfoldable pub serialize_node : SmtNode → Bytes
serialize_node (internal left_child right_child) = 0 ∷ (left_child ++ right_child)
serialize_node (leaf key value_index) =
    1 ∷ (to_le_bytes (length key % u32_mod) ++ (key ++ value_index))

-- The parts of a leaf after its type byte and its length.
unfoldable pub leaf_of : ℕ → Bytes → Result SmtNode
leaf_of key_len rest =
    if length rest == key_len + 32
    then ok (leaf (take key_len rest) (drop key_len rest))
    else err invalid_leaf_length

unfoldable pub deserialize_node : Bytes → Result SmtNode
unfolding leaf_of
deserialize_node [] = err empty_node_data
deserialize_node (type_byte ∷ rest) =
    if type_byte == 0
    then (if length rest == 64
        then ok (internal (take 32 rest) (drop 32 rest))
        else err invalid_internal_length)
    else if type_byte == 1
    then (if ltb (length rest) 4
        then err invalid_leaf_length
        else leaf_of (from_le_bytes (take 4 rest)) (drop 4 rest))
    else err invalid_node_type

module _ ⦃sha : Sha256⦄ where
  unfoldable pub hash_key : Bytes → Hash
  hash_key key = sha.digest key

  unfoldable pub hash_value : Bytes → Hash
  hash_value value = sha.digest value

  unfoldable pub hash_node : SmtNode → Hash
  hash_node (internal left_child right_child) = sha.digest (0 ∷ (left_child ++ right_child))
  hash_node (leaf key value_index) = sha.digest (1 ∷ (key ++ value_index))
