-- ===== src/Adapter.antt =====
-- `impl StorageAdapter for MemStoreAdapter` of crates/memshrew-runtime/src/adapter.rs, which the sync
-- framework drives, with no label set.
use metashrew.Prelude.{
  ℕ, ◌+◌, ◌-◌, ◌%◌, ◌<◌, ◌≡◌, Option, none, some, Bytes, length, take, ltb, if◌then◌else◌, arith,
  bytes_eq_refl,
}
use metashrew.RustStd.Decimal.{u32_mod}
use metashrew.RustStd.Words.{to_le_bytes, from_le_bytes}
use metashrew.Keys.Layout.{tip_height_key, block_hash_key, state_root_key}
use metashrew.Storage.Memory.{MemStoreAdapter, lookup, insert, get_immutable, put_key}
use metashrew.Storage.Memory.Laws.{mem_store, mem_rollback}
use metashrew.Rollback.Full.{rollback_smt_data}

-- The durable tip is the next height to process; the field is for a store that has none.
unfoldable pub get_indexed_height : MemStoreAdapter → ℕ
unfolding lookup
get_indexed_height s = elim (lookup s.db tip_height_key) [
  | none ↦ s.height
  | some v ↦ if ltb (length v) 4 then s.height else from_le_bytes (take 4 v) - 1
]

unfoldable pub set_indexed_height : MemStoreAdapter → ℕ → MemStoreAdapter
unfolding insert
set_indexed_height s height = record s {
  db = insert s.db tip_height_key (to_le_bytes ((height + 1) % u32_mod));
  height = height;
}

unfoldable pub store_block_hash : MemStoreAdapter → ℕ → Bytes → MemStoreAdapter
unfolding put_key
store_block_hash s height hash = put_key s (block_hash_key height) hash

unfoldable pub get_block_hash : MemStoreAdapter → ℕ → Option Bytes
unfolding get_immutable
get_block_hash s height = get_immutable none s (block_hash_key height)

unfoldable pub store_state_root : MemStoreAdapter → ℕ → Bytes → MemStoreAdapter
unfolding put_key
store_state_root s height root = put_key s (state_root_key height) root

unfoldable pub get_state_root : MemStoreAdapter → ℕ → Option Bytes
unfolding get_immutable
get_state_root s height = get_immutable none s (state_root_key height)

unfoldable pub rollback_adapter : MemStoreAdapter → ℕ → MemStoreAdapter
rollback_adapter s height =
    set_indexed_height
      (rollback_smt_data ⦃db = mem_store none⦄ ⦃rb = mem_rollback⦄ s height (get_indexed_height s))
      height

get_indexed_height-set_indexed_height :
    (s : MemStoreAdapter) (height : ℕ)
    → height + 1 < u32_mod
    → get_indexed_height (set_indexed_height s height) ≡ height
unfolding get_indexed_height set_indexed_height to_le_bytes from_le_bytes
get_indexed_height-set_indexed_height s height small = ground (arith, bytes_eq_refl tip_height_key)

-- Whatever the in-memory adapter held, its indexed height after a rollback is the target, even if
-- the target was above the tip before, provided that the target's successor fits a u32.
pub get_indexed_height-rollback_adapter :
    (s : MemStoreAdapter) (height : ℕ)
    → height + 1 < u32_mod
    → get_indexed_height (rollback_adapter s height) ≡ height
unfolding rollback_adapter
get_indexed_height-rollback_adapter s height small =
    get_indexed_height-set_indexed_height _ height small
