-- ===== src/Keys/Layout.antt =====
-- The keys of the append-only store: `key/length`, `key/0`, `key/1`, …, and the records of a height.
pub mod Distinct
use metashrew.Prelude.{ℕ, [], ◌∷◌, ◌++◌, Bytes, codes}
use metashrew.RustStd.Decimal.{to_string}

abbrev pub slash : ℕ
slash = b'/'

abbrev pub length_suffix : Bytes
length_suffix = codes "/length"

-- `[key, b"/length"].concat()`
unfoldable pub length_key : Bytes → Bytes
length_key key = key ++ length_suffix

-- `[key, b"/", index.to_string().as_bytes()].concat()`
unfoldable pub update_key : Bytes → ℕ → Bytes
update_key key index = key ++ slash ∷ to_string index

abbrev pub smt_root_prefix : Bytes
smt_root_prefix = codes "smt:root:"

abbrev pub manifest_prefix : Bytes
manifest_prefix = codes "/__INTERNAL/keys-at-height/"

abbrev pub tip_height_key : Bytes
tip_height_key = codes "/__INTERNAL/tip-height"

unfoldable pub root_key : ℕ → Bytes
root_key height = smt_root_prefix ++ to_string height

unfoldable pub manifest_key : ℕ → Bytes
manifest_key height = manifest_prefix ++ to_string height

unfoldable pub block_hash_key : ℕ → Bytes
block_hash_key height = codes "block_hash_" ++ to_string height

unfoldable pub state_root_key : ℕ → Bytes
state_root_key height = codes "state_root_" ++ to_string height

unfoldable pub height_to_hash_key : ℕ → Bytes
height_to_hash_key height = codes "/__INTERNAL/height-to-hash/" ++ to_string height
