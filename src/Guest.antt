-- ===== src/Guest.antt =====
-- The guest library of an indexer: crates/metashrew-core/src/lib.rs, whose globals `CACHE` and
-- `TO_FLUSH` are a state, with the imports of imports.rs as an interface.
pub mod View
pub mod Calls
pub mod Program
use metashrew.Prelude.{
  ℕ, ◌+◌, ◌%◌, ◌^◌, ◌≡◌, Option, none, some, List, [], ◌∷◌, ◌++◌, Bytes, bytes_eq, length, drop,
  ltb, if◌then◌else◌,
}
use metashrew.RustStd.Decimal.{u32_mod}
use metashrew.RustStd.Words.{to_le_bytes}
use metashrew.Error.{Result, ok, err, ◌>>=◌, unwrap_none, capacity_overflow}
use metashrew.Block.{zeros}
use metashrew.Storage.Memory.{lookup, insert, Db}
use metashrew.Runtime.Memory.{to_arraybuffer_layout, i32_max}

-- `KeyValueFlush` of the proto crate, encoded by `prost`.
pub record FlushCodec : Type 0 where
  pub encode : List Bytes → Bytes
  pub decode : Bytes → Option (List Bytes)
  pub decode-encode : (l : List Bytes) → decode (encode l) ≡ some l

-- The host functions. A pointer stands for the buffer that it points into: `__get` is handed the
-- key's buffer and returns what it leaves in the buffer for the value, `__load_input` likewise. A
-- length is an i32, given by its bits.
pub record Imports : Type 1 where
  pub World : Type 0
  pub __get_len : World → Bytes → ℕ
  pub __get : World → Bytes → Bytes → Result Bytes
  pub __flush : World → Bytes → World
  pub __host_len : World → ℕ
  pub __load_input : World → Bytes → Result Bytes

pub record GuestState : Type 0 where
  pub cache : Option Db
  pub to_flush : Option (List Bytes)

-- The globals when an instance starts.
abbrev pub start : GuestState
start = record { cache = none; to_flush = none }

unfoldable pub unwrap {ℓ} : {A : Type ℓ} → Option A → Result A
unwrap none = err unwrap_none
unwrap (some a) = ok a

unfoldable pub reset : GuestState → GuestState
reset s = record s { to_flush = some [] }

unfoldable pub initialize : GuestState → GuestState
unfolding reset
initialize s = elim s.cache [ none ↦ record (reset s) { cache = some [] } | some c ↦ s ]

unfoldable pub clear : GuestState → GuestState
unfolding reset
clear s = record (reset s) { cache = some [] }

unfoldable pub get_cache : GuestState → Result Db
unfolding unwrap
get_cache s = unwrap s.cache

-- The buffer that a value of the host goes into: its length, then as many zeros. A capacity above
-- `isize::MAX` panics.
unfoldable pub value_buffer : ℕ → Result Bytes
value_buffer len =
    if ltb i32_max (len + 4) then err capacity_overflow else ok (to_le_bytes len ++ zeros len)

-- The pairs that `flush` encodes.
unfoldable pub to_encode : Db → List Bytes → Result (List Bytes)
unfolding unwrap
to_encode cache [] = ok []
to_encode cache (item ∷ items) = unwrap (lookup cache item) >>= λ value.
    to_encode cache items >>= λ rest. ok (item ∷ value ∷ rest)

unfoldable pub export_bytes : Bytes → Bytes
export_bytes bytes = to_le_bytes (length bytes % u32_mod) ++ bytes

module _ ⦃im : Imports⦄ where
  fetch : im.World → Bytes → Result Bytes
  unfolding value_buffer
  fetch w v = value_buffer (im.__get_len w (to_arraybuffer_layout v)) >>= λ buffer.
      im.__get w (to_arraybuffer_layout v) buffer >>= λ filled. ok (drop 4 filled)

  -- Of a state whose cache is there.
  get_cached : im.World → GuestState → Db → Bytes → Result (GuestState × Bytes)
  unfolding fetch
  get_cached w s cache v = elim (lookup cache v) [
    | some value ↦ ok (s, value)
    | none ↦ fetch w v >>= λ value. ok ((record s { cache = some (insert cache v value) }, value))
  ]

  unfoldable pub get : im.World → GuestState → Bytes → Result (GuestState × Bytes)
  unfolding get_cached unwrap initialize
  get w s v = unwrap (initialize s).cache >>= λ cache. get_cached w (initialize s) cache v

  unfoldable pub input : im.World → GuestState → Result (GuestState × Bytes)
  unfolding value_buffer initialize
  input w s = value_buffer (im.__host_len w) >>= λ buffer.
      im.__load_input w buffer >>= λ filled. ok ((initialize s, drop 4 filled))

unfoldable pub set : GuestState → Bytes → Bytes → Result GuestState
unfolding unwrap initialize
set s k v = unwrap (initialize s).cache >>= λ cache. unwrap (initialize s).to_flush >>= λ keys.
    ok (record { cache = some (insert cache k v); to_flush = some (keys ++ k ∷ []) })

module _ ⦃im : Imports⦄ ⦃codec : FlushCodec⦄ where
  unfoldable pub flush : im.World → GuestState → Result (GuestState × im.World)
  unfolding unwrap initialize to_encode
  flush w s = unwrap (initialize s).to_flush >>= λ keys. unwrap (initialize s).cache >>= λ cache.
      to_encode cache keys >>= λ pairs. ok (
        (
          record { cache = some cache; to_flush = some [] },
          im.__flush w (to_arraybuffer_layout (codec.encode pairs)),
        ))
