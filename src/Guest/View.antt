-- ===== src/Guest/View.antt =====
-- What an indexer sees of the store through the guest library, and what `flush` hands to the host.
use metashrew.Prelude.{
  ◌+◌, ◌^◌, ◌<◌, ◌≤◌, ◌≡◌, ◌≢◌, refl, ◌⊎◌, inl, inr, Bool, true, false, Option, none, some, List,
  [], ◌∷◌, ◌++◌, Bytes, length, All, arith, if◌then◌else◌,
}
use metashrew.RustStd.Words.{to_le_bytes}
use metashrew.Error.{ok}
use metashrew.Block.{zeros}
use metashrew.Storage.Memory.{lookup, insert, Db}
use metashrew.Storage.Memory.Laws.{lookup-insert}
use metashrew.Runtime.Memory.{to_arraybuffer_layout, i32_max}
use metashrew.Guest.{Imports, GuestState, initialize, reset}

-- A key whose buffer ends below 2^31, wherever the other buffer stands.
abbrev pub IsShort : Bytes → Type 0
IsShort k = length k < 2 ^ 30

-- The host answers reads of short keys by a function, whose values fit a buffer.
pub record ServesValues ⦃im : Imports⦄ (w : im.World) (value_of : Bytes → Bytes) : Type 0 where
  pub len : (k : Bytes) → IsShort k → im.__get_len w (to_arraybuffer_layout k) ≡ length (value_of k)
  pub fits : (k : Bytes) → length (value_of k) + 4 ≤ i32_max
  pub got :
      (k : Bytes)
      → IsShort k
      → im.__get w
          (to_arraybuffer_layout k)
          (to_le_bytes (length (value_of k)) ++ zeros (length (value_of k)))
        ≡ ok (to_le_bytes (length (value_of k)) ++ value_of k)

unfoldable pub cached_or : Option Bytes → Bytes → Bytes
cached_or none v = v
cached_or (some u) v = u

-- A key's value as the indexer sees it: cached, or the host's.
unfoldable pub view_of : (Bytes → Bytes) → Option Db → Bytes → Bytes
view_of value_of none k = value_of k
view_of value_of (some c) k = cached_or (lookup c k) (value_of k)

-- The keys that wait for a flush.
unfoldable pub waiting : Option Db → Option (List Bytes) → List Bytes
waiting none keys = []
waiting (some c) none = []
waiting (some c) (some keys) = keys

abbrev pub view : (Bytes → Bytes) → GuestState → Bytes → Bytes
view value_of s = view_of value_of s.cache

abbrev pub pending : GuestState → List Bytes
pending s = waiting s.cache s.to_flush

abbrev pub IsCached : Db → Bytes → Type 0
IsCached c k = lookup c k ≢ none

-- Both globals are there, and every key that waits for a flush is cached.
pub record IsLive (s : GuestState) (c : Db) (keys : List Bytes) : Type 0 where
  pub cache : s.cache ≡ some c
  pub to_flush : s.to_flush ≡ some keys
  pub cached : All (IsCached c) keys

-- An instance that has just started, or one whose globals are set.
abbrev pub IsValid : GuestState → Type 0
IsValid s = (s.cache ≡ none) ⊎ ((c : Db) × (keys : List Bytes) × IsLive s c keys)

pub initialize-IsLive :
    (value_of : Bytes → Bytes) (s : GuestState)
    → IsValid s
    → (c : Db) × (keys : List Bytes) × IsLive (initialize s) c keys
      × (keys ≡ pending s)
      × ((k : Bytes) → cached_or (lookup c k) (value_of k) ≡ view value_of s k)
unfolding initialize reset waiting view_of cached_or lookup
initialize-IsLive value_of s (inl e) = (
  [],
  [],
  record { cache = ground (arith, e); to_flush = ground (arith, e); cached = tt },
  ground (arith, e),
  λ k. ground (arith, e),
)
initialize-IsLive value_of s (inr (c, keys, l)) = (
  c,
  keys,
  record {
    cache = ground (arith, l.cache);
    to_flush = ground (arith, l.cache, l.to_flush);
    cached = l.cached;
  },
  ground (arith, l.cache, l.to_flush),
  λ k. ground (arith, l.cache),
)

pub cached_or-if :
    (b : Bool) (v : Bytes) (o : Option Bytes) (u : Bytes)
    → cached_or (if b then some v else o) u ≡ (if b then v else cached_or o u)
unfolding cached_or
cached_or-if true v o u = refl
cached_or-if false v o u = refl

-- Caching a key's value keeps cached what was.
pub All-IsCached-insert :
    (c : Db) (k v : Bytes) (keys : List Bytes)
    → All (IsCached c) keys
    → All (IsCached (insert c k v)) keys
All-IsCached-insert c k v [] h = tt
All-IsCached-insert c k v (j ∷ keys) (here, h) =
    (ground (arith, lookup-insert c k j v), All-IsCached-insert c k v keys h)
