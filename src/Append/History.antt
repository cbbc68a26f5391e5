-- ===== src/Append/History.antt =====
-- The abstract view of a key: the updates that were put, oldest first.
use metashrew.Prelude.{
  ℕ, zero, suc, ◌≤◌, ◌<◌, ◌≡◌, refl, Option, none, some, List, [], ◌∷◌, Bytes, All, arith, length,
  get_elem?, leb, leb→le, le→leb, leb→lt, Bool-cases, inl, inr, get_elem?-some, if◌then◌else◌,
}

abbrev pub History : Type 0
History = List (ℕ × Bytes)

-- The heights never fall.
abbrev pub IsSorted : History → Type 0
IsSorted [] = Unit
IsSorted ((h, v) ∷ r) = All (λ e. h ≤ e.0) r × IsSorted r

-- The value of the last update at or before `height`.
abbrev pub lookup_at : History → ℕ → Option Bytes
lookup_at [] height = none
lookup_at ((h, v) ∷ r) height = elim (lookup_at r height) [
  | some w ↦ some w
  | none ↦ if leb h height then some v else none
]

-- How many updates, from the oldest on, stand at or before `height`.
abbrev pub count_to : History → ℕ → ℕ
count_to [] height = 0
count_to ((h, v) ∷ r) height = if leb h height then suc (count_to r height) else 0

-- The value of the update before index `i`.
abbrev pub value_before : History → ℕ → Option Bytes
value_before hist zero = none
value_before hist (suc i) = elim (get_elem? hist i) [ none ↦ none | some e ↦ some e.1 ]

pub count_to-le-length : (hist : History) (t : ℕ) → count_to hist t ≤ length hist
count_to-le-length [] t = omega arith
count_to-le-length ((h, v) ∷ r) t = ground (arith, count_to-le-length r t)

pub count_to_below :
    (hist : History) (t i h : ℕ) (v : Bytes)
    → get_elem? hist i ≡ some (h, v)
    → i < count_to hist t
    → h ≤ t
count_to_below [] t i h v e lt = absurd (omega arith)
count_to_below ((g, w) ∷ r) t zero h v e lt = ground arith
count_to_below ((g, w) ∷ r) t (suc i) h v e lt = ground (arith, count_to_below r t i h v e)

All-above :
    (r : History) (g i h : ℕ) (v : Bytes)
    → All (λ e. g ≤ e.0) r
    → get_elem? r i ≡ some (h, v)
    → g ≤ h
All-above [] g i h v a e = cc
All-above ((x, w) ∷ r) g zero h v a e = ground arith
All-above ((x, w) ∷ r) g (suc i) h v a e = All-above r g i h v a.1 e

pub count_to_above :
    (hist : History) (t i h : ℕ) (v : Bytes)
    → IsSorted hist
    → get_elem? hist i ≡ some (h, v)
    → count_to hist t ≤ i
    → t < h
count_to_above [] t i h v sorted e le = cc
count_to_above ((g, w) ∷ r) t zero h v sorted e le = ground arith
count_to_above ((g, w) ∷ r) t (suc i) h v sorted e le =
    ground (arith, count_to_above r t i h v sorted.1 e, All-above r g i h v sorted.0 e)

lookup_at-above : (r : History) (h t : ℕ) → All (λ e. h ≤ e.0) r → t < h → lookup_at r t ≡ none
lookup_at-above [] h t a lt = refl
lookup_at-above ((g, v) ∷ r) h t (le, a) lt = ground (arith, lookup_at-above r h t a lt)

pub count_to-zero_above : (r : History) (h t : ℕ) → All (λ e. h ≤ e.0) r → t < h → count_to r t ≡ 0
count_to-zero_above [] h t a lt = refl
count_to-zero_above ((g, v) ∷ r) h t a lt = ground arith

later_wins :
    (h c t : ℕ) (v : Bytes) (r : History)
    → lookup_at r t ≡ value_before r c
    → c ≤ length r
    → h ≤ t
    → lookup_at ((h, v) ∷ r) t ≡ value_before ((h, v) ∷ r) (suc c)
later_wins h zero t v r e le lt = rw (e, le→leb h t lt)
later_wins h (suc c) t v r e le lt =
    let (x, found) = get_elem?-some r c (omega arith) in ground (arith, e, found)

-- On a sorted history the last update at or before `t` closes the prefix that `count_to` counts.
pub lookup_at-count_to :
    (hist : History) (t : ℕ)
    → IsSorted hist
    → lookup_at hist t ≡ value_before hist (count_to hist t)
lookup_at-count_to [] t sorted = refl
lookup_at-count_to ((h, v) ∷ r) t (above, sorted) = elim (Bool-cases (leb h t)) [
  | inl e ↦ rw e (
      later_wins h (count_to r t) t v r (lookup_at-count_to r t sorted) (count_to-le-length r t)
        (leb→le h t e))
  | inr e ↦ rw e (rw (lookup_at-above r h t above (leb→lt h t e)) (rw e))
]

-- The updates at or below `t`, up to the first above it.
abbrev pub cut : ℕ → History → History
cut t [] = []
cut t ((h, v) ∷ r) = if leb h t then (h, v) ∷ cut t r else []

pub length-cut : (hist : History) (t : ℕ) → length (cut t hist) ≡ count_to hist t
length-cut [] t = refl
length-cut ((h, v) ∷ r) t = ground (arith, length-cut r t)

pub get_elem?-cut :
    (hist : History) (t i : ℕ) → i < count_to hist t → get_elem? (cut t hist) i ≡ get_elem? hist i
get_elem?-cut [] t i lt = absurd (omega arith)
get_elem?-cut ((h, v) ∷ r) t zero lt = ground arith
get_elem?-cut ((h, v) ∷ r) t (suc i) lt = ground (arith, get_elem?-cut r t i)

pub cut-cut : (hist : History) (t : ℕ) → cut t (cut t hist) ≡ cut t hist
cut-cut [] t = refl
cut-cut ((h, v) ∷ r) t = ground (arith, cut-cut r t)

pub cut_all : (hist : History) (t : ℕ) → count_to hist t ≡ length hist → cut t hist ≡ hist
cut_all [] t e = refl
cut_all ((h, v) ∷ r) t e = ground (arith, cut_all r t)

pub count_to-cut : (hist : History) (t : ℕ) → count_to (cut t hist) t ≡ length (cut t hist)
count_to-cut [] t = refl
count_to-cut ((h, v) ∷ r) t = ground (arith, count_to-cut r t)

pub All-cut {ℓ} :
    (P : ℕ × Bytes → Type ℓ) (hist : History) (t : ℕ) → All P hist → All P (cut t hist)
All-cut P [] t h = tt
All-cut P ((g, v) ∷ r) t (p, h) = elim (Bool-cases (leb g t)) [
  | inl e ↦ rw (e, All) ((p, All-cut P r t h))
  | inr e ↦ rw (e, All) tt
]

pub IsSorted-cut : (hist : History) (t : ℕ) → IsSorted hist → IsSorted (cut t hist)
IsSorted-cut [] t h = tt
IsSorted-cut ((g, v) ∷ r) t (above, sorted) = elim (Bool-cases (leb g t)) [
  | inl e ↦ rw (e, IsSorted) ((All-cut (λ x. g ≤ x.0) r t above, IsSorted-cut r t sorted))
  | inr e ↦ rw (e, IsSorted) tt
]

-- What is cut away at `t` is not seen at or below `t`.
pub lookup_at-cut :
    (hist : History) (t u : ℕ) → IsSorted hist → u ≤ t → lookup_at (cut t hist) u ≡ lookup_at hist u
lookup_at-cut [] t u sorted le = refl
lookup_at-cut ((g, v) ∷ r) t u (above, sorted) le =
    ground (arith, lookup_at-cut r t u sorted le, lookup_at-above r g u above)

-- Above it, the value of the last update that is kept is seen.
pub lookup_at-cut_above :
    (hist : History) (t u : ℕ) → IsSorted hist → t ≤ u → lookup_at (cut t hist) u ≡ lookup_at hist t
lookup_at-cut_above [] t u sorted le = refl
lookup_at-cut_above ((g, v) ∷ r) t u (above, sorted) le =
    ground (arith, lookup_at-cut_above r t u sorted le, lookup_at-above r g t above)
