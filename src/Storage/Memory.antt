-- ===== src/Storage/Memory.antt =====
-- The in-memory backend: crates/memshrew-runtime/src/adapter.rs, and `to_labeled_key` of
-- crates/metashrew-runtime/src/lib.rs, whose global label is an argument here.
pub mod Laws
use metashrew.Prelude.{
  ℕ, suc, ◌+◌, ◌%◌, Bool, true, false, Option, none, some, List, [], ◌∷◌, ◌++◌, Bytes, bytes_eq,
  ltb, leb, ◌==◌, if◌then◌else◌,
}
use metashrew.RustStd.Decimal.{u32_mod}
use metashrew.RustStd.Words.{to_le_bytes, from_le_bytes}
use metashrew.RustStd.Find.{starts_with}
use metashrew.Keys.Layout.{tip_height_key}
use metashrew.Storage.Batch.{BatchOperation, put, delete}

-- A `HashMap<Vec<u8>, Vec<u8>>`: its entries, one for each key.
abbrev pub Db : Type 0
Db = List (Bytes × Bytes)

unfoldable pub lookup : Db → Bytes → Option Bytes
lookup [] k = none
lookup ((j, v) ∷ db) k = if bytes_eq j k then some v else lookup db k

unfoldable pub remove : Db → Bytes → Db
remove [] k = []
remove ((j, v) ∷ db) k = if bytes_eq j k then remove db k else (j, v) ∷ remove db k

unfoldable pub insert : Db → Bytes → Bytes → Db
insert db k v = (k, v) ∷ remove db k

pub record MemStoreAdapter : Type 0 where
  pub db : Db
  pub height : ℕ

unfoldable pub to_labeled_key : Option Bytes → Bytes → Bytes
to_labeled_key none key = key
to_labeled_key (some label) key = label ++ key

-- Byte strings compare lexicographically.
bytes_le : Bytes → Bytes → Bool
bytes_le [] t = true
bytes_le (c ∷ s) [] = false
bytes_le (c ∷ s) (d ∷ t) = if c == d then bytes_le s t else ltb c d

insert_sorted : Bytes × Bytes → Db → Db
unfolding bytes_le
insert_sorted e [] = e ∷ []
insert_sorted e (f ∷ db) = if bytes_le e.0 f.0 then e ∷ f ∷ db else f ∷ insert_sorted e db

sort_by_key : Db → Db
unfolding insert_sorted
sort_by_key [] = []
sort_by_key (e ∷ db) = insert_sorted e (sort_by_key db)

with_prefix : Bytes → Db → Db
with_prefix p [] = []
with_prefix p ((k, v) ∷ db) =
    if starts_with k p then (k, v) ∷ with_prefix p db else with_prefix p db

module _ (label : Option Bytes) where
  unfoldable pub apply_operations : List BatchOperation → Db → Db
  unfolding lookup remove insert to_labeled_key
  apply_operations [] db = db
  apply_operations (put k v ∷ ops) db = apply_operations ops (insert db (to_labeled_key label k) v)
  apply_operations (delete k ∷ ops) db = apply_operations ops (remove db (to_labeled_key label k))

  unfoldable pub write : MemStoreAdapter → List BatchOperation → MemStoreAdapter
  unfolding apply_operations
  write s batch = record s {
    db = apply_operations batch (
        insert s.db (to_labeled_key label tip_height_key) (to_le_bytes ((s.height + 1) % u32_mod)));
  }

  unfoldable pub get_immutable : MemStoreAdapter → Bytes → Option Bytes
  unfolding lookup to_labeled_key
  get_immutable s key = lookup s.db (to_labeled_key label key)

  unfoldable pub scan_prefix : MemStoreAdapter → Bytes → List (Bytes × Bytes)
  unfolding with_prefix sort_by_key
  scan_prefix s prefix = sort_by_key (with_prefix (to_labeled_key label prefix) s.db)

-- `impl SmtRollback for MemStoreAdapter`: raw keys, with no label.
unfoldable pub put_key : MemStoreAdapter → Bytes → Bytes → MemStoreAdapter
unfolding insert
put_key s key value = record s { db = insert s.db key value }

unfoldable pub delete_key : MemStoreAdapter → Bytes → MemStoreAdapter
unfolding remove
delete_key s key = record s { db = remove s.db key }

unfoldable pub get_value : MemStoreAdapter → Bytes → Option Bytes
unfolding lookup
get_value s key = lookup s.db key

abbrev keys_of_db : Db → List Bytes
keys_of_db [] = []
keys_of_db ((k, v) ∷ db) = k ∷ keys_of_db db

unfoldable pub iter_keys : MemStoreAdapter → List Bytes
iter_keys s = keys_of_db s.db

-- The default `apply_atomic` of crates/metashrew-runtime/src/rollback.rs.
unfoldable pub apply_atomic : MemStoreAdapter → List BatchOperation → MemStoreAdapter
unfolding put_key delete_key
apply_atomic s [] = s
apply_atomic s (put k v ∷ ops) = apply_atomic (put_key s k v) ops
apply_atomic s (delete k ∷ ops) = apply_atomic (delete_key s k) ops
