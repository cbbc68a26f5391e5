-- ===== src/Tree/Serial.antt =====
-- `serialize_node` and `deserialize_node` of crates/metashrew-runtime/src/smt.rs as inverses.
use metashrew.Prelude.{
  ℕ, zero, suc, ◌%◌, ◌<◌, ◌≡◌, refl, sym, ◌∙◌, ap, [], ◌∷◌, ◌++◌, Bytes, length, length-append,
  take, drop, take-append, drop-append, length-take, All, All-take, IsByte, arith, ltb, Bool-cases,
  inl, inr,
}
use metashrew.RustStd.Decimal.{u32_mod}
use metashrew.RustStd.Words.{to_le_bytes, from_le_bytes, length-to_le_bytes}
use metashrew.Error.{ok}
use metashrew.Block.{Hash}
use metashrew.Tree.{SmtNode, internal, leaf, serialize_node, deserialize_node, leaf_of}

-- What Rust's types say of a node, and that the key's length fits a u32.
unfoldable pub IsNode : SmtNode → Type 0
IsNode (internal left_child right_child) = (length left_child ≡ 32) × (length right_child ≡ 32)
IsNode (leaf key value_index) = (length key < u32_mod) × (length value_index ≡ 32)

leaf_part :
    (key : Bytes) (v : Hash) (n : ℕ)
    → length v ≡ 32
    → n ≡ length key
    → leaf_of n (key ++ v) ≡ ok (leaf key v)
unfolding leaf_of
leaf_part key v n h e =
    ground (arith, length-append key v, take-append key v n e, drop-append key v n e)

key_length : (n : ℕ) → n < u32_mod → from_le_bytes (to_le_bytes (n % u32_mod)) ≡ n
unfolding from_le_bytes to_le_bytes
key_length n h = omega arith

-- Reading a serialized node gives the node back, if its hashes have 32 bytes and the length of its
-- key fits a u32.
pub deserialize_node-serialize_node :
    (node : SmtNode) → IsNode node → deserialize_node (serialize_node node) ≡ ok node
unfolding deserialize_node serialize_node IsNode
deserialize_node-serialize_node (internal l r) (hl, hr) =
    ground (arith, length-append l r, take-append l r 32 (sym hl), drop-append l r 32 (sym hl))
deserialize_node-serialize_node (leaf key v) (hk, hv) =
    let w = to_le_bytes (length key % u32_mod) in
    ground (
      arith,
      length-append w (key ++ v),
      length-to_le_bytes (length key % u32_mod),
      take-append w (key ++ v) 4 (sym (length-to_le_bytes _)),
      drop-append w (key ++ v) 4 (sym (length-to_le_bytes _)),
      leaf_part key v (from_le_bytes w) hv (key_length (length key) hk),
    )

take-drop : (n : ℕ) (xs : Bytes) → take n xs ++ drop n xs ≡ xs
take-drop zero xs = refl
take-drop (suc n) [] = refl
take-drop (suc n) (x ∷ xs) = ap (λ l. x ∷ l) (take-drop n xs)

word_back :
    (a b c d : ℕ)
    → All IsByte (a ∷ b ∷ c ∷ d ∷ [])
    → to_le_bytes (from_le_bytes (a ∷ b ∷ c ∷ d ∷ []) % u32_mod) ≡ a ∷ b ∷ c ∷ d ∷ []
unfolding to_le_bytes from_le_bytes
word_back a b c d h = ground arith

leaf_back :
    (w rest : Bytes) (node : SmtNode)
    → length w ≡ 4
    → All IsByte w
    → leaf_of (from_le_bytes w) rest ≡ ok node
    → serialize_node node ≡ 1 ∷ (w ++ rest)
unfolding leaf_of serialize_node
leaf_back (a ∷ b ∷ c ∷ d ∷ []) rest node four bytes e = ground (
  arith,
  e,
  word_back a b c d bytes,
  take-drop (from_le_bytes (a ∷ b ∷ c ∷ d ∷ [])) rest,
  length-take (from_le_bytes (a ∷ b ∷ c ∷ d ∷ [])) rest,
)
leaf_back _ rest node four bytes e = absurd (omega arith)

-- Bytes that read as a node are the bytes that the node is written as: the encoding of a node is
-- unique.
pub serialize_node-deserialize_node :
    (text : Bytes) (node : SmtNode)
    → All IsByte text
    → deserialize_node text ≡ ok node
    → serialize_node node ≡ text
unfolding deserialize_node serialize_node
serialize_node-deserialize_node [] node bytes e = absurd (cc)
serialize_node-deserialize_node (zero ∷ rest) node bytes e = ground (arith, e, take-drop 32 rest)
serialize_node-deserialize_node (suc zero ∷ rest) node bytes e =
    elim (Bool-cases (ltb (length rest) 4)) [
      | inl short ↦ ground (arith, e, short)
      | inr long ↦
          leaf_back (take 4 rest) (drop 4 rest) node (length-take 4 rest (ground (arith, long)))
            (All-take IsByte 4 rest bytes.1) (ground (arith, e, long))
          ∙ ap (λ l. 1 ∷ l) (take-drop 4 rest)
    ]
serialize_node-deserialize_node (suc (suc n) ∷ rest) node bytes e = ground (arith, e)
