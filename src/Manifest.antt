-- ===== src/Manifest.antt =====
-- The per-height manifests of crates/metashrew-runtime/src/smt.rs: the list of the keys that a
-- block modified.
use metashrew.Prelude.{
  ℕ, zero, suc, ◌%◌, ◌<◌, ◌≡◌, refl, sym, ◌∙◌, ap, List, [], ◌∷◌, ◌++◌, append-nil, Bytes, All,
  arith, length, length-append, take, drop, take-append, drop-append, ltb, if◌then◌else◌,
}
use metashrew.RustStd.Decimal.{u32_mod}
use metashrew.RustStd.Words.{
  to_le_bytes, from_le_bytes, from_le_bytes-to_le_bytes, length-to_le_bytes,
}

unfoldable pub serialize_keys : List Bytes → Bytes
serialize_keys [] = []
serialize_keys (key ∷ keys) = to_le_bytes (length key % u32_mod) ++ (key ++ serialize_keys keys)

unfoldable pub serialize_key_manifest : List Bytes → Bytes
serialize_key_manifest keys = to_le_bytes (length keys % u32_mod) ++ serialize_keys keys

-- The rounds left, and the bytes from `offset` on.
unfoldable pub deserialize_keys : ℕ → Bytes → List Bytes
deserialize_keys zero rest = []
deserialize_keys (suc n) rest =
    let key_len = from_le_bytes (take 4 rest) in
    let after = drop 4 rest in
    let more = deserialize_keys n (drop key_len after) in
    if ltb (length rest) 4
    then []
    else if ltb (length after) key_len
    then []
    else take key_len after ∷ more

unfoldable pub deserialize_key_manifest : Bytes → List Bytes
deserialize_key_manifest bytes =
    if ltb (length bytes) 4
    then []
    else deserialize_keys (from_le_bytes (take 4 bytes)) (drop 4 bytes)

-- The length of the key fits its u32.
abbrev pub KeyFits : Bytes → Type 0
KeyFits key = length key < u32_mod

word : (n : ℕ) → n < u32_mod → from_le_bytes (to_le_bytes (n % u32_mod)) ≡ n
word n h =
    let e : n % u32_mod ≡ n = omega arith in
    rw e (ap from_le_bytes (sym (append-nil (to_le_bytes n))) ∙ from_le_bytes-to_le_bytes n [] h)

deserialize_step :
    (n : ℕ) (key rest : Bytes)
    → KeyFits key
    → deserialize_keys (suc n) (to_le_bytes (length key % u32_mod) ++ (key ++ rest))
      ≡ key ∷ deserialize_keys n rest
unfolding deserialize_keys
deserialize_step n key rest fits =
    let w = to_le_bytes (length key % u32_mod) in
    ground (
      arith,
      take-append w (key ++ rest) 4 (sym (length-to_le_bytes _)),
      drop-append w (key ++ rest) 4 (sym (length-to_le_bytes _)),
      word (length key) fits,
      take-append key rest (length key) refl,
      drop-append key rest (length key) refl,
      length-append w (key ++ rest),
      length-append key rest,
      length-to_le_bytes (length key % u32_mod),
    )

deserialize-serialize_keys :
    (keys : List Bytes)
    → All KeyFits keys
    → deserialize_keys (length keys) (serialize_keys keys) ≡ keys
unfolding serialize_keys
deserialize-serialize_keys [] h = unfold deserialize_keys in refl
deserialize-serialize_keys (key ∷ keys) (fits, h) =
    deserialize_step (length keys) key (serialize_keys keys) fits
    ∙ ap (λ ks. key ∷ ks) (deserialize-serialize_keys keys h)

-- A manifest is read back as the keys that were written to it, if their number and their lengths fit
-- a u32.
pub deserialize-serialize :
    (keys : List Bytes)
    → length keys < u32_mod
    → All KeyFits keys
    → deserialize_key_manifest (serialize_key_manifest keys) ≡ keys
unfolding deserialize_key_manifest serialize_key_manifest
deserialize-serialize keys few fits =
    let w = to_le_bytes (length keys % u32_mod) in
    ground (
      arith,
      take-append w (serialize_keys keys) 4 (sym (length-to_le_bytes _)),
      drop-append w (serialize_keys keys) 4 (sym (length-to_le_bytes _)),
      word (length keys) few,
      length-append w (serialize_keys keys),
      length-to_le_bytes (length keys % u32_mod),
      deserialize-serialize_keys keys fits,
    )
