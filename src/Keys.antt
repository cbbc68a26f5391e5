-- ===== src/Keys.antt =====
-- The layout of database keys: crates/metashrew-runtime/src/key_utils.rs, and the keys that
-- crates/metashrew-runtime/src/smt.rs and rollback.rs build in place.
pub mod Layout
pub mod Hex
use Prim.Native.Nat.{bit_and}
use metashrew.Prelude.{ℕ, ◌+◌, ◌/◌, ◌^◌, [], ◌∷◌, ◌++◌, Bytes, codes, Option, none, some, get_elem?}
use metashrew.RustStd.Decimal.{to_string}

abbrev pub hex_chars : Bytes
hex_chars = codes "0123456789abcdef"

-- An index is below 16 there; the default stands for the panic of an index out of range.
unfoldable pub hex_char : ℕ → ℕ
hex_char i = elim (get_elem? hex_chars i) [ none ↦ 0 | some c ↦ c ]

unfoldable pub encode_hex_to_buf : Bytes → Bytes → Bytes
encode_hex_to_buf [] output = output
encode_hex_to_buf (byte ∷ input) output =
    encode_hex_to_buf input (output ++ hex_char (byte / 2 ^ 4) ∷ hex_char (bit_and byte 0xf) ∷ [])

unfoldable pub encode_hex_fast : Bytes → Bytes
encode_hex_fast input = encode_hex_to_buf input []

unfoldable pub make_current_key : Bytes → Bytes → Bytes
make_current_key prefix key = prefix ++ key

unfoldable pub make_historical_key : Bytes → Bytes → ℕ → Bytes
make_historical_key prefix key height = prefix ++ (key ++ b':' ∷ to_string height)

unfoldable pub make_height_index_key : Bytes → ℕ → Bytes → Bytes
make_height_index_key prefix height key = prefix ++ (to_string height ++ b':' ∷ key)

unfoldable pub make_smt_node_key : Bytes → Bytes → Bytes
make_smt_node_key prefix hash = prefix ++ b':' ∷ hash

unfoldable pub make_prefixed_key : Bytes → Bytes → Bytes
make_prefixed_key prefix key = prefix ++ b':' ∷ key

unfoldable pub make_update_key : Bytes → Bytes
make_update_key key = codes "updates:" ++ key

pub record KeyPrefixes : Type 0 where
  pub current_value : Bytes
  pub historical_value : Bytes
  pub height_index : Bytes
  pub keys_at_height : Bytes
  pub smt_node : Bytes
  pub smt_root : Bytes

abbrev pub prefixes : KeyPrefixes
prefixes = record {
  current_value = codes "current:";
  historical_value = codes "hist:";
  height_index = codes "height:";
  keys_at_height = codes "keys:";
  smt_node = codes "smt:node:";
  smt_root = codes "smt:root:";
}
