-- ===== src/RustStd/Sort.antt =====
-- `sort_unstable` and `dedup` on byte strings, which compare lexicographically.
use metashrew.Prelude.{
  suc, ◌≡◌, inl, inr, refl, Bool, true, false, List, [], ◌∷◌, Bytes, All, bytes_eq, bytes_eq_refl,
  ltb, ◌==◌, if◌then◌else◌, length, ◌≤◌, arith, Bool-cases, bytes_eq→eq,
}

unfoldable pub bytes_le : Bytes → Bytes → Bool
bytes_le [] t = true
bytes_le (c ∷ s) [] = false
bytes_le (c ∷ s) (d ∷ t) = if c == d then bytes_le s t else ltb c d

unfoldable pub insert_key : Bytes → List Bytes → List Bytes
unfolding bytes_le
insert_key k [] = k ∷ []
insert_key k (x ∷ xs) = if bytes_le k x then k ∷ x ∷ xs else x ∷ insert_key k xs

unfoldable pub sort_unstable : List Bytes → List Bytes
unfolding insert_key
sort_unstable [] = []
sort_unstable (k ∷ ks) = insert_key k (sort_unstable ks)

-- `dedup` keeps the first of equal neighbours.
unfoldable pub dedup : List Bytes → List Bytes
dedup [] = []
dedup (k ∷ []) = k ∷ []
dedup (k ∷ j ∷ ks) = if bytes_eq k j then dedup (j ∷ ks) else k ∷ dedup (j ∷ ks)

-- Membership as a test.
abbrev pub contains : List Bytes → Bytes → Bool
contains [] k = false
contains (x ∷ xs) k = if bytes_eq x k then true else contains xs k

contains-insert_key :
    (x k : Bytes) (ks : List Bytes)
    → contains (insert_key x ks) k ≡ (if bytes_eq x k then true else contains ks k)
unfolding insert_key
contains-insert_key x k [] = refl
contains-insert_key x k (y ∷ ks) = ground (arith, contains-insert_key x k ks)

pub contains-sort_unstable :
    (ks : List Bytes) (k : Bytes) → contains (sort_unstable ks) k ≡ contains ks k
unfolding sort_unstable
contains-sort_unstable [] k = refl
contains-sort_unstable (x ∷ ks) k =
    ground (arith, contains-insert_key x k (sort_unstable ks), contains-sort_unstable ks k)

pub contains-dedup : (ks : List Bytes) (k : Bytes) → contains (dedup ks) k ≡ contains ks k
unfolding dedup
contains-dedup [] k = refl
contains-dedup (x ∷ []) k = refl
contains-dedup (x ∷ y ∷ ks) k = elim (Bool-cases (bytes_eq x y)) [
  | inl e ↦ rw (bytes_eq→eq x y e) (ground (arith, contains-dedup (y ∷ ks) k, bytes_eq_refl y))
  | inr e ↦ ground (arith, contains-dedup (y ∷ ks) k)
]

module _ {ℓ} (P : Bytes → Type ℓ) where
  All-insert_key : (k : Bytes) (ks : List Bytes) → P k → All P ks → All P (insert_key k ks)
  unfolding insert_key
  All-insert_key k [] p h = (p, tt)
  All-insert_key k (x ∷ xs) p (px, h) = elim (Bool-cases (bytes_le k x)) [
    | inl e ↦ rw (e, All) ((p, (px, h)))
    | inr e ↦ rw (e, All) ((px, All-insert_key k xs p h))
  ]

  pub All-sort_unstable : (ks : List Bytes) → All P ks → All P (sort_unstable ks)
  unfolding sort_unstable
  All-sort_unstable [] h = tt
  All-sort_unstable (k ∷ ks) (p, h) = All-insert_key k _ p (All-sort_unstable ks h)

  pub All-dedup : (ks : List Bytes) → All P ks → All P (dedup ks)
  unfolding dedup
  All-dedup [] h = tt
  All-dedup (k ∷ []) h = h
  All-dedup (k ∷ j ∷ ks) (p, h) = elim (Bool-cases (bytes_eq k j)) [
    | inl e ↦ rw (e, All) (All-dedup (j ∷ ks) h)
    | inr e ↦ rw (e, All) ((p, All-dedup (j ∷ ks) h))
  ]

length-insert_key : (k : Bytes) (ks : List Bytes) → length (insert_key k ks) ≡ suc (length ks)
unfolding insert_key
length-insert_key k [] = refl
length-insert_key k (x ∷ xs) = ground (arith, length-insert_key k xs)

pub length-sort_unstable : (ks : List Bytes) → length (sort_unstable ks) ≡ length ks
unfolding sort_unstable
length-sort_unstable [] = refl
length-sort_unstable (k ∷ ks) =
    omega (arith, length-insert_key k (sort_unstable ks), length-sort_unstable ks)

pub length-dedup : (ks : List Bytes) → length (dedup ks) ≤ length ks
unfolding dedup
length-dedup [] = omega arith
length-dedup (k ∷ []) = omega arith
length-dedup (k ∷ j ∷ ks) = ground (arith, length-dedup (j ∷ ks))
