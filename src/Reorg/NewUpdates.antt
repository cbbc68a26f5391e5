-- ===== src/Reorg/NewUpdates.antt =====
-- The updates of a new block behind the histories, and their keys in its manifest.
use metashrew.Prelude.{
  ℕ, suc, ◌+◌, ◌≤◌, ◌<◌, ◌≡◌, refl, ◌∙◌, ap, false, List, [], ◌∷◌, ◌++◌, append-nil, Bytes, All,
  All-append, inl, inr, arith, length, bytes_eq, Bool-cases,
}
use metashrew.RustStd.Decimal.{u32_mod}
use metashrew.RustStd.Sort.{
  contains, dedup, sort_unstable, contains-dedup, contains-sort_unstable, All-dedup,
  All-sort_unstable, length-dedup, length-sort_unstable,
}
use metashrew.Keys.Layout.Distinct.{IsUserKey}
use metashrew.Append.History.{History, IsSorted, count_to, cut}
use metashrew.Manifest.{
  serialize_key_manifest, deserialize_key_manifest, KeyFits, deserialize-serialize,
}
use metashrew.Block.{keys_of}
use metashrew.Block.Updates.{updates_of}
use metashrew.Rollback.Heights.{Covered}

-- Every update of the history stands at or below `t`.
abbrev pub Until : ℕ → History → Type 0
Until t = All (λ e. e.0 ≤ t)

updates_of-unlisted :
    (k : Bytes) (h : ℕ) (kvs : List (Bytes × Bytes))
    → contains (keys_of kvs) k ≡ false
    → updates_of k h kvs ≡ []
updates_of-unlisted k h [] e = refl
updates_of-unlisted k h ((j, v) ∷ kvs) e = ground (arith, updates_of-unlisted k h kvs)

pub updates_of-All :
    (k : Bytes) (h b : ℕ) (kvs : List (Bytes × Bytes))
    → b ≤ h
    → All (λ e. b ≤ e.0) (updates_of k h kvs)
updates_of-All k h b [] le = tt
updates_of-All k h b ((j, v) ∷ kvs) le = elim (Bool-cases (bytes_eq j k)) [
  | inl e ↦ rw (e, All) ((le, updates_of-All k h b kvs le))
  | inr e ↦ rw (e, All) (updates_of-All k h b kvs le)
]

pub updates_of-IsSorted :
    (k : Bytes) (h : ℕ) (kvs : List (Bytes × Bytes)) → IsSorted (updates_of k h kvs)
updates_of-IsSorted k h [] = tt
updates_of-IsSorted k h ((j, v) ∷ kvs) = elim (Bool-cases (bytes_eq j k)) [
  | inl e ↦ rw (e, IsSorted) ((updates_of-All k h h kvs (omega arith), updates_of-IsSorted k h kvs))
  | inr e ↦ rw (e, IsSorted) (updates_of-IsSorted k h kvs)
]

cut_new : (r : History) (t h : ℕ) → t < h → All (λ e. h ≤ e.0) r → cut t r ≡ []
cut_new [] t h lt a = refl
cut_new ((g, v) ∷ r) t h lt (le, a) = ground arith

pub cut-append_new :
    (hist r : History) (t : ℕ) → Until t hist → All (λ e. t + 1 ≤ e.0) r → cut t (hist ++ r) ≡ hist
cut-append_new [] r t old new = cut_new r t (t + 1) (omega arith) new
cut-append_new ((g, v) ∷ hist) r t (le, old) new = ground (arith, cut-append_new hist r t old new)

pub IsSorted-append_new :
    (hist r : History) (t : ℕ)
    → IsSorted hist
    → Until t hist
    → IsSorted r
    → All (λ e. t + 1 ≤ e.0) r
    → IsSorted (hist ++ r)
IsSorted-append_new [] r t sorted old sr new = sr
IsSorted-append_new ((g, v) ∷ hist) r t (above, sorted) (le, old) sr new = (
  All-append (λ e. g ≤ e.0) hist r above (lower r new),
  IsSorted-append_new hist r t sorted old sr new,
)
  where
    lower : (l : History) → All (λ e. t + 1 ≤ e.0) l → All (λ e. g ≤ e.0) l
    lower [] a = tt
    lower (e ∷ l) (b, a) = (omega arith, lower l a)

count_to_old : (hist : History) (t : ℕ) → Until t hist → count_to hist t ≡ length hist
count_to_old [] t old = refl
count_to_old ((g, v) ∷ hist) t (le, old) = ground (arith, count_to_old hist t old)

length-keys_of : (kvs : List (Bytes × Bytes)) → length (keys_of kvs) ≡ length kvs
length-keys_of [] = refl
length-keys_of ((k, v) ∷ kvs) = ap suc (length-keys_of kvs)

-- The keys that the manifest of a block lists.
abbrev pub listed_keys : List (Bytes × Bytes) → List Bytes
listed_keys kvs = dedup (sort_unstable (keys_of kvs))

contains-listed_keys :
    (kvs : List (Bytes × Bytes)) (k : Bytes)
    → contains (listed_keys kvs) k ≡ contains (keys_of kvs) k
contains-listed_keys kvs k =
    contains-dedup (sort_unstable (keys_of kvs)) k ∙ contains-sort_unstable (keys_of kvs) k

pub manifest_round_trip :
    (kvs : List (Bytes × Bytes))
    → length kvs < u32_mod
    → All KeyFits (keys_of kvs)
    → deserialize_key_manifest (serialize_key_manifest (listed_keys kvs)) ≡ listed_keys kvs
manifest_round_trip kvs few fits =
    deserialize-serialize (listed_keys kvs)
      (omega (
        arith,
        length-dedup (sort_unstable (keys_of kvs)),
        length-sort_unstable (keys_of kvs),
        length-keys_of kvs,
      ))
      (All-dedup KeyFits _ (All-sort_unstable KeyFits (keys_of kvs) fits))

pub Covered-after :
    (kvs : List (Bytes × Bytes)) (t : ℕ) (hist : History) (k : Bytes)
    → Until t hist
    → Covered (λ h. listed_keys kvs) t 1 (hist ++ updates_of k (t + 1) kvs) k
Covered-after kvs t hist k old = elim (Bool-cases (contains (keys_of kvs) k)) [
  | inl e ↦ inr (t + 1, omega arith, omega arith, contains-listed_keys kvs k ∙ e)
  | inr e ↦ inl (rw (updates_of-unlisted k (t + 1) kvs e) (rw append-nil (count_to_old hist t old)))
]

pub listed_users :
    (kvs : List (Bytes × Bytes)) → All IsUserKey (keys_of kvs) → All IsUserKey (listed_keys kvs)
listed_users kvs h = All-dedup IsUserKey _ (All-sort_unstable IsUserKey (keys_of kvs) h)
