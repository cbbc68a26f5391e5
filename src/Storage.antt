-- ===== src/Storage.antt =====
-- The storage traits of crates/metashrew-runtime/src/traits.rs, as an interface of operations with
-- the laws that their clients use. The backends are modelled where their calls succeed.
pub mod Batch
pub mod Memory
use metashrew.Prelude.{◌≡◌, ◌≢◌, Option, some, List, Bytes, All, IsByte, IsAscii}
use metashrew.Keys.Layout.{tip_height_key}
use Batch.{BatchOperation, replay}

pub record KeyValueStoreLike : Type 1 where
  pub Store : Type 0
  pub get_immutable : Store → Bytes → Option Bytes
  pub write : Store → List BatchOperation → Store
  pub scan_prefix : Store → Bytes → List (Bytes × Bytes)
  -- A batch takes effect in order. A backend may keep its own tip height beside it.
  pub get_immutable-write :
      (s : Store) (batch : List BatchOperation) (k : Bytes)
      → k ≢ tip_height_key
      → get_immutable (write s batch) k ≡ replay batch k (get_immutable s k)

-- The trait `SmtRollback` of crates/metashrew-runtime/src/rollback.rs, over the same store: its reads
-- are those of the backend, and a list of operations takes effect in order.
pub record SmtRollback (db : KeyValueStoreLike) : Type 0 where
  pub get_value : db.Store → Bytes → Option Bytes
  pub apply_atomic : db.Store → List BatchOperation → db.Store
  pub iter_keys : db.Store → List Bytes
  pub get_value_lem : (s : db.Store) (k : Bytes) → get_value s k ≡ db.get_immutable s k
  pub get_value-apply_atomic :
      (s : db.Store) (ops : List BatchOperation) (k : Bytes)
      → get_value (apply_atomic s ops) k ≡ replay ops k (get_value s k)

-- The `hex` crate, which the repository does not contain: what is decoded after `encode` is the
-- bytes, and the text is ASCII.
pub record HexCodec : Type 0 where
  pub encode : Bytes → Bytes
  pub decode : Bytes → Option Bytes
  pub decode-encode : (v : Bytes) → All IsByte v → decode (encode v) ≡ some v
  pub encode-IsAscii : (v : Bytes) → All IsByte v → All IsAscii (encode v)
