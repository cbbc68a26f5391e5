-- ===== src/RustStd/Find.antt =====
-- `str::find` of one byte with the split around it, `strip_prefix`, `ends_with`.
use metashrew.Prelude.{
  ℕ, ◌-◌, ◌≡◌, Bool, true, false, Option, none, some, [], ◌∷◌, ◌++◌, Bytes, Lacks, arith, ◌==◌,
  if◌then◌else◌, bytes_eq, length, drop, ltb,
}

-- `find(sep)` with `&s[..pos]` and `&s[pos + 1..]`: what stands before the first `sep` and behind it.
unfoldable pub split_at : ℕ → Bytes → Option (Bytes × Bytes)
split_at sep [] = none
split_at sep (c ∷ s) = elim (c == sep) [
  | true ↦ some ([], s)
  | false ↦ elim (split_at sep s) [ none ↦ none | some p ↦ some (c ∷ p.0, p.1) ]
]

pub split_at-append :
    (sep : ℕ) (s t : Bytes) → Lacks sep s → split_at sep (s ++ sep ∷ t) ≡ some (s, t)
unfolding split_at
split_at-append sep [] t h = ground arith
split_at-append sep (c ∷ s) t h = ground (arith, split_at-append sep s t)

-- `strip_prefix(prefix)`.
unfoldable pub strip_prefix : Bytes → Bytes → Option Bytes
strip_prefix [] s = some s
strip_prefix (p ∷ ps) [] = none
strip_prefix (p ∷ ps) (c ∷ s) = if c == p then strip_prefix ps s else none

unfoldable pub starts_with : Bytes → Bytes → Bool
unfolding strip_prefix
starts_with s p = elim (strip_prefix p s) [ none ↦ false | some r ↦ true ]

-- `ends_with(suffix)`.
unfoldable pub ends_with : Bytes → Bytes → Bool
unfolding bytes_eq
ends_with s suffix =
    if ltb (length s) (length suffix)
    then false
    else bytes_eq (drop (length s - length suffix) s) suffix
