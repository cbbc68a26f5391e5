-- ===== src/Storage/Memory/Laws.antt =====
-- The laws of the in-memory backend of crates/memshrew-runtime/src/adapter.rs.
use metashrew.Prelude.{
  ap, ◌≡◌, ◌≢◌, refl, sym, ◌∙◌, Option, none, some, List, [], ◌∷◌, ◌++◌, Bytes, arith, bytes_eq,
  bytes_eq_iff, ne→bytes_eq, bytes_eq-cases, inl, inr, if◌then◌else◌,
}
use metashrew.Keys.Layout.{tip_height_key}
use metashrew.Storage.{KeyValueStoreLike, SmtRollback}
use metashrew.Storage.Batch.{BatchOperation, put, delete, replay}
use metashrew.Storage.Memory.{
  Db, MemStoreAdapter, lookup, remove, insert, to_labeled_key, apply_operations, write,
  get_immutable, scan_prefix, put_key, delete_key, get_value, iter_keys, apply_atomic,
}

lookup-remove :
    (db : Db) (j k : Bytes) → lookup (remove db j) k ≡ (if bytes_eq j k then none else lookup db k)
unfolding lookup remove
lookup-remove [] j k = ground arith
lookup-remove ((i, v) ∷ db) j k =
    ground (arith, lookup-remove db j k, bytes_eq_iff i j, bytes_eq_iff i k, bytes_eq_iff j k)

pub lookup-insert :
    (db : Db) (j k v : Bytes)
    → lookup (insert db j v) k ≡ (if bytes_eq j k then some v else lookup db k)
unfolding lookup insert
lookup-insert db j k v = ground (arith, lookup-remove db j k)

label_cancel : (l j k : Bytes) → l ++ j ≡ l ++ k → j ≡ k
label_cancel [] j k e = e
label_cancel (c ∷ l) j k e = label_cancel l j k (cc)

-- Labelling tells keys apart as well as the keys themselves.
bytes_eq-to_labeled_key :
    (label : Option Bytes) (j k : Bytes)
    → bytes_eq (to_labeled_key label j) (to_labeled_key label k) ≡ bytes_eq j k
unfolding to_labeled_key
bytes_eq-to_labeled_key none j k = refl
bytes_eq-to_labeled_key (some l) j k = elim (bytes_eq-cases j k) [
  | inl e ↦ (bytes_eq_iff (l ++ j) (l ++ k)).1 (rw e) ∙ sym ((bytes_eq_iff j k).1 e)
  | inr ne ↦
      ne→bytes_eq (l ++ j) (l ++ k) (λ e. ne (label_cancel l j k e)) ∙ sym (ne→bytes_eq j k ne)
]

module _ (label : Option Bytes) where
  lookup-apply_operations :
      (ops : List BatchOperation) (db : Db) (k : Bytes)
      → lookup (apply_operations label ops db) (to_labeled_key label k)
        ≡ replay ops k (lookup db (to_labeled_key label k))
  unfolding apply_operations replay
  lookup-apply_operations [] db k = refl
  lookup-apply_operations (put j v ∷ ops) db k =
      rw (lookup-apply_operations ops _ k, lookup-insert, bytes_eq-to_labeled_key label j k)
  lookup-apply_operations (delete j ∷ ops) db k =
      rw (lookup-apply_operations ops _ k, lookup-remove, bytes_eq-to_labeled_key label j k)

  -- Under any label, a read of the in-memory store after `write` is the read before with the
  -- operations of the batch replayed on it in order, for every key but the tip height.
  pub get_immutable-write_lem :
      (s : MemStoreAdapter) (batch : List BatchOperation) (k : Bytes)
      → k ≢ tip_height_key
      → get_immutable label (write label s batch) k ≡ replay batch k (get_immutable label s k)
  unfolding get_immutable write
  get_immutable-write_lem s batch k ne = rw (
    lookup-apply_operations batch _ k,
    lookup-insert,
    bytes_eq-to_labeled_key label tip_height_key k,
    ne→bytes_eq tip_height_key k (λ e. ne (sym e)),
  )

  -- The in-memory backend fills the interface.
  abbrev pub mem_store : KeyValueStoreLike
  mem_store = record {
    Store = MemStoreAdapter;
    get_immutable = get_immutable label;
    write = write label;
    scan_prefix = scan_prefix label;
    get_immutable-write = get_immutable-write_lem;
  }

pub get_value-apply_atomic_lem :
    (s : MemStoreAdapter) (ops : List BatchOperation) (k : Bytes)
    → get_value (apply_atomic s ops) k ≡ replay ops k (get_value s k)
unfolding get_value apply_atomic replay
get_value-apply_atomic_lem s [] k = refl
get_value-apply_atomic_lem s (put j v ∷ ops) k =
    rw (get_value-apply_atomic_lem (put_key s j v) ops k)
      (ap (replay ops k) (lookup-insert s.db j k v))
get_value-apply_atomic_lem s (delete j ∷ ops) k =
    rw (get_value-apply_atomic_lem (delete_key s j) ops k)
      (ap (replay ops k) (lookup-remove s.db j k))

pub get_value-get_immutable :
    (s : MemStoreAdapter) (k : Bytes) → get_value s k ≡ get_immutable none s k
unfolding get_value get_immutable
get_value-get_immutable s k = refl

-- The in-memory backend with no label fills the interface of the rollback.
abbrev pub mem_rollback : SmtRollback (mem_store none)
mem_rollback = record {
  get_value = get_value;
  apply_atomic = apply_atomic;
  iter_keys = iter_keys;
  get_value_lem = get_value-get_immutable;
  get_value-apply_atomic = get_value-apply_atomic_lem;
}
