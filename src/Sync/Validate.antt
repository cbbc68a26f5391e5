-- ===== src/Sync/Validate.antt =====
-- `validate_block_connects` of crates/metashrew-sync/src/sync.rs, from what the `bitcoin` and `sha2`
-- crates answer.
pub mod Inline
use metashrew.Prelude.{
  ℕ, zero, suc, ◌+◌, ◌-◌, ◌≤◌, ◌<◌, ◌≡◌, Bool, true, false, Option, none, some, List, [], Bytes,
  codes, length, bytes_eq, take, ◌++◌, ◌==◌, not, leb, if◌then◌else◌,
}
use mathlib.Core.List.{reverse}
use metashrew.Sync.Error.{SyncError, block_processing, SyncResult, ok, err}
use metashrew.Sync.Adapters.{StorageAdapter}
use metashrew.Validator.Wire.{ValidationRequest, Verdict}

-- What decoding gives: a value, or the text of the error.
pub data Decoded (A : Type 0) : Type 0 where
  malformed : Bytes → Decoded A
  decoded : A → Decoded A

pub record Codec : Type 1 where
  pub Header : Type 0
  pub deserialize : Bytes → Decoded Header
  pub consensus_encode : Header → Decoded Bytes
  pub prev_blockhash : Header → Bytes
  pub sha256 : Bytes → Bytes

-- `block_data.get(..80).unwrap_or(block_data)`
abbrev pub header_part : Bytes → Bytes
header_part block_data = if leb 80 (length block_data) then take 80 block_data else block_data

-- A stored hash serves as a parent's hash if it has 32 bytes.
unfoldable pub sized_hash : Option Bytes → Option Bytes
sized_hash none = none
sized_hash (some v) = if length v == 32 then some v else none

module _ (st : StorageAdapter) where
  unfoldable pub stored_parent : st.Store → ℕ → SyncResult (Option Bytes)
  stored_parent s zero = ok none
  stored_parent s (suc below) = st.get_block_hash s below

  -- The branch with a policy.
  unfoldable pub ask_validator :
      (ValidationRequest → Verdict)
      → ℕ
      → Bytes
      → Bytes
      → SyncResult (Option Bytes)
      → SyncResult Bool
  ask_validator validate height block_data provided_hash (err e) = err e
  ask_validator validate height block_data provided_hash (ok stored) =
      ok
        (validate (record {
          height = height;
          header = header_part block_data;
          claimed_hash = provided_hash;
          prev_hash = sized_hash stored;
        })).accepted

  unfoldable pub validate_by_policy :
      (ValidationRequest → Verdict) → st.Store → ℕ → Bytes → Bytes → SyncResult Bool
  validate_by_policy validate s height block_data provided_hash =
      if length provided_hash == 32
      then ask_validator validate height block_data provided_hash (stored_parent s height)
      else ok false

  -- The branch without one. A missing parent is let through.
  unfoldable pub links_to : Bytes → SyncResult (Option Bytes) → SyncResult Bool
  links_to prev (err e) = err e
  links_to prev (ok none) = ok true
  links_to prev (ok (some stored_hash)) = ok (bytes_eq stored_hash prev)

  module _ (codec : Codec) where
    unfoldable pub check_parent : st.Store → ℕ → codec.Header → SyncResult Bool
    check_parent s zero header = ok true
    check_parent s (suc below) header =
        links_to (reverse (codec.prev_blockhash header)) (st.get_block_hash s below)

    unfoldable pub check_hash :
        st.Store → ℕ → Bytes → codec.Header → Decoded Bytes → SyncResult Bool
    check_hash s height provided_hash header (malformed text) =
        err (block_processing height (codes "Failed to encode block header: " ++ text))
    check_hash s height provided_hash header (decoded header_bytes) =
        if bytes_eq (reverse (codec.sha256 (codec.sha256 header_bytes))) provided_hash
        then check_parent s height header
        else ok false

    unfoldable pub check_block : st.Store → ℕ → Bytes → Decoded codec.Header → SyncResult Bool
    check_block s height provided_hash (malformed text) =
        err (block_processing height (codes "Failed to deserialize block: " ++ text))
    check_block s height provided_hash (decoded header) =
        check_hash s height provided_hash header (codec.consensus_encode header)

    unfoldable pub validate_block_connects :
        Option (ValidationRequest → Verdict) → st.Store → ℕ → Bytes → Bytes → SyncResult Bool
    validate_block_connects (some validate) s height block_data provided_hash =
        validate_by_policy validate s height block_data provided_hash
    validate_block_connects none s height block_data provided_hash =
        check_block s height provided_hash (codec.deserialize block_data)
