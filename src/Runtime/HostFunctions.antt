-- ===== src/Runtime/HostFunctions.antt =====
-- The host functions: `setup_linker`, `setup_linker_indexer`, `setup_linker_view` and
-- `setup_linker_preview` of crates/metashrew-runtime/src/runtime.rs. A memory that is not exported is
-- `none`; a pointer is an i32, given by its bits, whose arithmetic wraps.
use metashrew.Prelude.{
  ℕ, ◌+◌, ◌-◌, ◌%◌, Option, none, some, List, [], ◌∷◌, ◌++◌, Bytes, length, ltb, if◌then◌else◌,
}
use metashrew.RustStd.Decimal.{u32_mod}
use metashrew.RustStd.Words.{to_le_bytes}
use metashrew.Error.{Result, ok, err, memory_write}
use metashrew.Storage.{KeyValueStoreLike, HexCodec}
use metashrew.Storage.Batch.{BatchOperation}
use metashrew.Append.{get_at_height, put_to_batch}
use metashrew.Block.{build_state_root_batch_unwritten, calculate_and_store_state_root_batched}
use metashrew.Guest.{FlushCodec}
use metashrew.Runtime.Memory.{
  LinearMemory, try_read_arraybuffer_as_vec, u32_to_vec, as_usize, i32_max,
}
use metashrew.Runtime.{Host, tuples, target_height, fail, capture, found_or_empty}

-- `.expect(…)` of a memory write.
unfoldable pub expect_written {ℓ} : {A : Type ℓ} → A → Option Bytes → Result (A × Option Bytes)
expect_written w none = err memory_write
expect_written w (some mem) = ok (w, some mem)

module _ ⦃db : KeyValueStoreLike⦄ ⦃hex : HexCodec⦄ where
  -- `get_value_at_height`; an error reads as the empty value in every caller.
  unfoldable pub get_value_at_height : db.Store → Bytes → ℕ → Result Bytes
  get_value_at_height s key height = elim (get_at_height s key height) [
    | ok (some value) ↦ ok value
    | ok none ↦ ok []
    | err e ↦ err e
  ]

  -- The value of a key at `at`, as the host hands it to an instance.
  unfoldable pub lookup_value : db.Store → ℕ → Bytes → Bytes
  unfolding found_or_empty
  lookup_value s at key = found_or_empty (get_at_height s key at)

  -- `__get_len`
  unfoldable pub len_at : ℕ → Host → Option Bytes → ℕ → ℕ
  unfolding lookup_value
  len_at at w none key = i32_max
  len_at at w (some mem) key = elim (try_read_arraybuffer_as_vec mem key) [
    | ok key_vec ↦ length (lookup_value w.context.store at key_vec) % u32_mod
    | err e ↦ i32_max
  ]

module _ ⦃db : KeyValueStoreLike⦄ ⦃hex : HexCodec⦄ ⦃lm : LinearMemory⦄ where
  -- `__get`
  unfoldable pub get_at : ℕ → Host → Option Bytes → ℕ → ℕ → Result (Host × Option Bytes)
  unfolding fail expect_written u32_to_vec
  get_at at w none key value = ok (fail w, none)
  get_at at w (some mem) key value = elim (try_read_arraybuffer_as_vec mem key) [
    | ok key_vec ↦
        expect_written w (lm.write mem (as_usize value) (lookup_value w.context.store at key_vec))
    | err e ↦
        expect_written w
          (lm.write mem (as_usize ((value + u32_mod - 4) % u32_mod)) (u32_to_vec i32_max))
  ]

  -- The indexer reads the state that the block before left.
  unfoldable pub indexer_get_len : Host → Option Bytes → ℕ → ℕ
  unfolding len_at target_height
  indexer_get_len w = len_at (target_height w.context.height) w

  unfoldable pub indexer_get : Host → Option Bytes → ℕ → ℕ → Result (Host × Option Bytes)
  unfolding get_at target_height
  indexer_get w = get_at (target_height w.context.height) w

  -- A view or a preview reads at its own height.
  unfoldable pub view_get_len : Host → Option Bytes → ℕ → ℕ
  unfolding len_at
  view_get_len w = len_at w.context.height w

  unfoldable pub view_get : Host → Option Bytes → ℕ → ℕ → Result (Host × Option Bytes)
  unfolding get_at
  view_get w = get_at w.context.height w

  -- `__load_input`: the height, then the block.
  unfoldable pub load_input : Host → Option Bytes → ℕ → Result (Host × Option Bytes)
  unfolding fail expect_written
  load_input w none data_start = ok (fail w, none)
  load_input w (some mem) data_start =
      if ltb i32_max data_start
      then err memory_write
      else expect_written w
          (lm.write mem data_start (to_le_bytes w.context.height ++ w.context.block))

module _ ⦃db : KeyValueStoreLike⦄ where
  unfoldable pub host_len : Host → ℕ
  host_len w = (length w.context.block % u32_mod + 4) % u32_mod

  unfoldable pub abort : Host → Host
  unfolding fail
  abort w = fail w

  unfoldable pub view_flush : Host → Host
  view_flush w = w

  unfoldable pub set_state : Host → ℕ → Host
  set_state w state = record w { context = record w.context { state = state } }

module _ ⦃db : KeyValueStoreLike⦄ ⦃codec : FlushCodec⦄ where
  -- The updates that an instance hands over, if they can be read.
  unfoldable pub decode_flush : Option Bytes → ℕ → Option (List (Bytes × Bytes))
  unfolding tuples
  decode_flush none encoded = none
  decode_flush (some mem) encoded = elim (try_read_arraybuffer_as_vec mem encoded) [
    | err e ↦ none
    | ok encoded_vec ↦ elim (codec.decode encoded_vec) [
      | none ↦ none
      | some list ↦ some (tuples list)
    ]
  ]

module _ ⦃db : KeyValueStoreLike⦄ ⦃hex : HexCodec⦄ ⦃codec : FlushCodec⦄
    (to_bytes : List BatchOperation → Bytes) where
  -- With the slot armed, the batch is put there; else it is written.
  unfoldable pub flush_updates : Host → List (Bytes × Bytes) → Option Bytes → Host
  unfolding capture set_state
  flush_updates w key_values (some slot) =
      elim (build_state_root_batch_unwritten w.context.store w.context.height key_values
        w.context.current_block_hash) [
          | ok built ↦
              set_state
                (record w {
                  context = record w.context { pending_atomic_batch = some (to_bytes built.1) };
                })
                1
          | err e ↦ capture w e
        ]
  flush_updates w key_values none =
      elim (calculate_and_store_state_root_batched w.context.store w.context.height key_values
        w.context.current_block_hash) [
          | ok written ↦ set_state (record w { context = record w.context { store = written.1 } }) 1
          | err e ↦ capture w e
        ]

  -- `__flush` of the indexer. `track_kv_update` tells a listener, if there is one, and changes
  -- nothing else.
  unfoldable pub indexer_flush : Host → Option Bytes → ℕ → Host
  unfolding flush_updates decode_flush fail
  indexer_flush w mem encoded = elim (decode_flush mem encoded) [
    | none ↦ fail w
    | some key_values ↦ flush_updates w key_values w.context.pending_atomic_batch
  ]

module _ ⦃db : KeyValueStoreLike⦄ ⦃hex : HexCodec⦄ ⦃codec : FlushCodec⦄ where
  unfoldable pub preview_batch :
      db.Store → ℕ → List BatchOperation → List (Bytes × Bytes) → List BatchOperation
  preview_batch s height batch [] = batch
  preview_batch s height batch ((k, v) ∷ kvs) =
      preview_batch s height (put_to_batch s batch k v height) kvs

  -- `__flush` of a preview.
  unfoldable pub preview_flush : Host → Option Bytes → ℕ → Host
  unfolding preview_batch decode_flush fail set_state
  preview_flush w mem encoded = elim (decode_flush mem encoded) [
    | none ↦ fail w
    | some key_values ↦
        set_state
          (record w {
            context = record w.context {
              store =
                  db.write w.context.store
                    (preview_batch w.context.store w.context.height [] key_values);
            };
          })
          1
  ]
