-- ===== src/StoreTests.antt =====
-- The adapter of RocksDB over the in-memory backend, and the validators, each theorem at a small input.
use metashrew.Prelude.{
  ℕ, suc, ◌≡◌, ◌≢◌, ◌↔◌, refl, ◌⊎◌, true, false, none, some, List, [], ◌∷◌, ◌++◌, Bytes, codes,
  length, arith,
}
use metashrew.Prelude.{bytes_eq}
use metashrew.Keys.Layout.{root_key, height_to_hash_key}
use metashrew.Keys.{encode_hex_fast}
use metashrew.Keys.Hex.{decode_hex, decode-encode_hex_fast, encode_hex_fast-IsAscii}
use metashrew.Storage.{KeyValueStoreLike, SmtRollback, HexCodec}
use metashrew.Storage.Batch.{BatchOperation}
use metashrew.Storage.Memory.{MemStoreAdapter, get_value, lookup, apply_atomic, put_key, insert}
use metashrew.Storage.Memory.Laws.{mem_store, mem_rollback}
use metashrew.Tree.{Sha256}
use metashrew.Block.{zeros}
use metashrew.Sync.Error.{storage, message_of, ok, err}
use metashrew.Sync.Adapters.{Outcome, RuntimeAdapter}
use metashrew.Sync.Apply.{process_block, pipeline_loop}
use metashrew.Rocks.{
  read_u32, is_none, get_indexed_height, get_runtime_tip_height, get_block_hash, commit_atomic,
  is_fresh_db, saturating_add_one, out_of_order_message, heal_pointers_atomic, write_pointers,
  commit_batch, wasm_batch,
}
use metashrew.Rocks.Commit.{commit_atomic-ok}
use metashrew.Rocks.Healing.{heal_pointers_atomic_idempotent}
use metashrew.Rocks.Engine.{rocks_adapter, process_block-tip, process_block-gap, pipeline_loop-gap}
use metashrew.Validator.Wire.{ValidationRequest, encode_request, decode_request}
use metashrew.Validator.Wire.Trip.{decode-encode_request}
use metashrew.Validator.Target.{meets_target}
use metashrew.Validator.Target.Value.{be_value}
use metashrew.Validator.Target.Compact.{compact_value, is_below, meets_target-value}
use metashrew.Validator.Policy.{bitcoin_validate, block_hash}
use metashrew.Validator.Policy.Accepts.{
  IsContinuous, IsAnchored, stated_bits, bitcoin_validate-accepts,
}

instance abbrev hex_codec : HexCodec
hex_codec = record {
  encode = encode_hex_fast;
  decode = decode_hex;
  decode-encode = decode-encode_hex_fast;
  encode-IsAscii = encode_hex_fast-IsAscii;
}

instance abbrev disk : KeyValueStoreLike
disk = mem_store none

instance abbrev disk_rollback : SmtRollback disk
disk_rollback = mem_rollback

instance abbrev toy_sha : Sha256
toy_sha = record { digest = λ m. length m ∷ zeros 31; length-digest = λ m. refl }

-- Block batches are empty.
abbrev no_data : Bytes → List BatchOperation
no_data b = []

abbrev unused : MemStoreAdapter
unused = record { db = []; height = 0 }

-- The first block, at height 5.
abbrev first_block : Outcome Unit MemStoreAdapter
first_block = commit_atomic no_data unused 5 (9 ∷ []) [] []

abbrev disk_runtime : RuntimeAdapter (rocks_adapter no_data)
disk_runtime = record {
  Machine = ℕ;
  process_block_atomic = λ m s height body hash.
      (ok (record { state_root = []; batch_data = []; height = height; block_hash = hash }), m);
  refresh_memory = λ m. (ok tt, suc m);
}

first_commits : commit_atomic no_data unused 5 (9 ∷ []) [] [] ≡ (ok tt, first_block.1)
unfolding commit_atomic is_fresh_db get_indexed_height get_block_hash read_u32 is_none get_value
    lookup
first_commits = refl

first_height : get_indexed_height first_block.1 ≡ 5
first_height =
    (commit_atomic-ok no_data unused first_block.1 5 (9 ∷ []) [] [] (omega arith) first_commits).1.0

not_fresh : is_fresh_db first_block.1 ≡ false
unfolding is_fresh_db
not_fresh = rw (first_height) refl

not_next : 9 ≢ saturating_add_one (get_indexed_height first_block.1)
not_next = rw (first_height) (λ e. ground arith)

process_block-tip_example :
    (((is_fresh_db first_block.1 ≡ true)
        ⊎ (6 ≡ saturating_add_one (get_indexed_height first_block.1)))
      × (get_indexed_height
            (process_block
              (rocks_adapter no_data)
              disk_runtime
              (ok true)
              6
              []
              (8 ∷ [])
              first_block.1
              0).store
          ≡ 6))
    ⊎ ((process_block
          (rocks_adapter no_data)
          disk_runtime
          (ok true)
          6
          []
          (8 ∷ [])
          first_block.1
          0).store
        ≡ first_block.1)
process_block-tip_example =
    process_block-tip no_data disk_runtime (ok true) 6 [] (8 ∷ []) first_block.1 0 (omega arith)

process_block-gap_example :
    process_block (rocks_adapter no_data) disk_runtime (ok true) 9 [] (8 ∷ []) first_block.1 0
    ≡ record {
      result = err (
          storage (
            codes "commit_atomic: "
            ++ message_of (storage (out_of_order_message 9 (get_indexed_height first_block.1)))));
      store = first_block.1;
      machine = 0;
      attempts = 1;
      slept_ms = 0;
    }
process_block-gap_example =
    process_block-gap no_data disk_runtime 9 [] (8 ∷ []) first_block.1 0 0
      (record { state_root = []; batch_data = []; height = 9; block_hash = 8 ∷ [] }) not_fresh
      not_next refl

pipeline_loop-gap_example :
    pipeline_loop (rocks_adapter no_data) disk_runtime 9 [] (8 ∷ []) 1000 0 0 first_block.1 0 ≡ none
pipeline_loop-gap_example =
    pipeline_loop-gap no_data disk_runtime 9 [] (8 ∷ []) 1000 0 0 first_block.1 0 (omega arith)
      not_fresh not_next

first_tip : get_runtime_tip_height first_block.1 ≡ 0
unfolding get_runtime_tip_height commit_atomic is_fresh_db get_indexed_height get_block_hash
    read_u32 is_none get_value lookup commit_batch wasm_batch apply_atomic put_key insert bytes_eq
    root_key height_to_hash_key
first_tip = refl

healed_write : heal_pointers_atomic first_block.1 5 ≡ (ok tt, write_pointers first_block.1 5)
unfolding heal_pointers_atomic
healed_write = rw (first_height, first_tip) refl

heal_pointers_atomic_idempotent_example :
    ((get_indexed_height (write_pointers first_block.1 5) ≡ 5)
      × (get_runtime_tip_height (write_pointers first_block.1 5) ≡ 5))
    × (heal_pointers_atomic (write_pointers first_block.1 5) 5
        ≡ (ok tt, write_pointers first_block.1 5))
heal_pointers_atomic_idempotent_example =
    heal_pointers_atomic_idempotent first_block.1 (write_pointers first_block.1 5) 5 (omega arith)
      healed_write

abbrev request : ValidationRequest
request = record {
  height = 700000;
  header = 1 ∷ 2 ∷ 3 ∷ [];
  claimed_hash = zeros 32;
  prev_hash = some (zeros 32);
}

decode-encode_request_example : decode_request (encode_request request) ≡ some request
decode-encode_request_example =
    decode-encode_request request (omega arith, (omega arith, (refl, refl)))

-- The difficulty of regtest.
meets_target-value_example :
    meets_target (zeros 31 ++ 7 ∷ []) 545259519
    ≡ is_below (be_value (zeros 31 ++ 7 ∷ [])) (compact_value 545259519)
meets_target-value_example = meets_target-value (zeros 31 ++ 7 ∷ []) 545259519 (omega arith) refl

abbrev header : Bytes
header = 1 ∷ zeros 71 ++ (255 ∷ 255 ∷ 127 ∷ 32 ∷ 0 ∷ 0 ∷ 0 ∷ 0 ∷ [])

abbrev linked : ValidationRequest
linked = record {
  height = 1;
  header = header;
  claimed_hash = block_hash header;
  prev_hash = some (zeros 32);
}

bitcoin_validate-accepts_example :
    ((bitcoin_validate (codes "regtest") (zeros 32) (λ n. []) linked).accepted ≡ true) ↔ (
      IsContinuous linked
      × (IsAnchored (codes "regtest") (zeros 32) (λ n. []) linked
          × (meets_target linked.claimed_hash
                (stated_bits (codes "regtest") (zeros 32) (λ n. []) linked)
              ≡ true)))
bitcoin_validate-accepts_example =
    bitcoin_validate-accepts (codes "regtest") (zeros 32) (λ n. []) linked
