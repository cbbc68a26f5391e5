-- ===== src/Sync/Error.antt =====
-- `SyncError` and `SyncResult` of crates/metashrew-sync/src/error.rs, with the messages as bytes, and
-- the tests on messages that crates/metashrew-sync/src/sync.rs makes.
use metashrew.Prelude.{
  ℕ, ◌≡◌, refl, ◌⊎◌, inl, inr, some, Bool, true, ◌||◌, [], ◌∷◌, ◌++◌, Bytes, codes, arith,
}
use metashrew.RustStd.Decimal.{to_string}
use metashrew.RustStd.Find.{starts_with, strip_prefix}

pub data SyncError : Type 0 where
  bitcoin_node storage runtime reorg view_function config network serialization : Bytes → SyncError
  unavailable resource_exhausted generic : Bytes → SyncError
  block_processing : (height : ℕ) (message : Bytes) → SyncError

-- `#[error("…")]`, as `to_string` and `{}` print it.
unfoldable pub message_of : SyncError → Bytes
message_of (bitcoin_node m) = codes "Bitcoin node error: " ++ m
message_of (storage m) = codes "Storage error: " ++ m
message_of (runtime m) = codes "Runtime error: " ++ m
message_of (reorg m) = codes "Chain reorganization error: " ++ m
message_of (view_function m) = codes "View function error: " ++ m
message_of (config m) = codes "Configuration error: " ++ m
message_of (network m) = codes "Network error: " ++ m
message_of (serialization m) = codes "Serialization error: " ++ m
message_of (unavailable m) = codes "View runtime unavailable: " ++ m
message_of (resource_exhausted m) = codes "View runtime resource exhausted: " ++ m
message_of (generic m) = codes "Generic error: " ++ m
message_of (block_processing height m) =
    codes "Block processing error at height " ++ (to_string height ++ (codes ": " ++ m))

pub data SyncResult {ℓ} (A : Type ℓ) : Type ℓ where
  err : SyncError → SyncResult A
  ok : A → SyncResult A

pub SyncResult-cases {ℓ} :
    {A : Type ℓ} (m : SyncResult A) → ((e : SyncError) × (m ≡ err e)) ⊎ ((a : A) × (m ≡ ok a))
SyncResult-cases (err e) = inl (e, refl)
SyncResult-cases (ok a) = inr (a, refl)

-- `unwrap_or(default)`
unfoldable pub unwrap_or {ℓ} : {A : Type ℓ} → SyncResult A → A → A
unwrap_or (ok a) default = a
unwrap_or (err e) default = default

-- `str::contains`
unfoldable pub contains_text : Bytes → Bytes → Bool
unfolding starts_with
contains_text [] needle = starts_with [] needle
contains_text (c ∷ s) needle = starts_with (c ∷ s) needle || contains_text s needle

strip_prefix-append : (p s : Bytes) → strip_prefix p (p ++ s) ≡ some s
unfolding strip_prefix
strip_prefix-append [] s = refl
strip_prefix-append (c ∷ p) s = ground (arith, strip_prefix-append p s)

contains_text_here :
    (s needle : Bytes) → starts_with s needle ≡ true → contains_text s needle ≡ true
unfolding contains_text
contains_text_here [] needle h = h
contains_text_here (c ∷ s) needle h = ground (arith, h)

-- A text contains what stands in it.
pub contains_text-append :
    (before needle rest : Bytes) → contains_text (before ++ (needle ++ rest)) needle ≡ true
unfolding contains_text
contains_text-append [] needle rest =
    contains_text_here (needle ++ rest) needle
      (unfold starts_with in ground (arith, strip_prefix-append needle rest))
contains_text-append (c ∷ before) needle rest =
    ground (arith, contains_text-append before needle rest)
