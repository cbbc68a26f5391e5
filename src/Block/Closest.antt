-- ===== src/Block/Closest.antt =====
-- Which root `get_smt_root_at_height` returns.
use metashrew.Prelude.{
  ℕ, zero, suc, ◌≤◌, ◌<◌, ◌≡◌, ◌⊎◌, refl, none, some, arith, inl, inr, Option-cases, Bool-cases,
  ltb, ltb→lt, ltb→le,
}
use metashrew.Error.{ok, err, no_state_root}
use metashrew.Storage.{KeyValueStoreLike}
use metashrew.Block.{Hash, root_at, root_below, get_smt_root_at_height}

module _ ⦃db : KeyValueStoreLike⦄ where
  -- No root record of 32 bytes stands from `low` up to and including `high`.
  abbrev pub NoRoots : db.Store → ℕ → ℕ → Type 0
  NoRoots s low high = (h : ℕ) → low ≤ h → h ≤ high → root_at s h ≡ none

  -- The root is that of the closest height at or below `height` that has one.
  abbrev pub IsClosest : db.Store → ℕ → Hash → Type 0
  IsClosest s height root =
      (h : ℕ) × (h ≤ height) × (root_at s h ≡ some root) × NoRoots s (suc h) height

  root_at_up_to :
      (s : db.Store) (n j : ℕ)
      → root_at s n ≡ none
      → (j < n → root_at s j ≡ none)
      → j ≤ n
      → root_at s j ≡ none
  root_at_up_to s n j here below le = elim (Bool-cases (ltb j n)) [
    | inl e ↦ below (ltb→lt j n e)
    | inr e ↦ let same : j ≡ n = omega (arith, ltb→le j n e) in rw same here
  ]

  root_below_lem :
      (s : db.Store) (n : ℕ)
      → ((root : Hash) × (h : ℕ) × (root_below s n ≡ some root)
          × (h < n)
          × (root_at s h ≡ some root)
          × ((j : ℕ) → suc h ≤ j → j < n → root_at s j ≡ none))
        ⊎ ((root_below s n ≡ none) × ((j : ℕ) → j < n → root_at s j ≡ none))
  unfolding root_below
  root_below_lem s zero = inr (refl, λ j lt. absurd (omega arith))
  root_below_lem s (suc n) = elim (Option-cases (root_at s n)) [
    | inr (root, e) ↦
        inl (root, n, ground (arith, e), omega arith, e, λ j lo hi. absurd (omega arith))
    | inl e ↦ elim (root_below_lem s n) [
      | inl (root, h, found, lt, at_h, above) ↦ inl (
        root,
        h,
        ground (arith, e, found),
        omega arith,
        at_h,
        λ j lo hi. root_at_up_to s n j e (λ lt2. above j lo lt2) (omega arith),
      )
      | inr (absent, all) ↦
          inr (ground (arith, e, absent), λ j lt. root_at_up_to s n j e (all j) (omega arith))
    ]
  ]

  -- `get_smt_root_at_height` returns the root of the closest height at or below the given one whose
  -- record has 32 bytes, or, where no height from 0 up to the given one has such a record, the error
  -- that names the height.
  pub get_smt_root_at_height-IsClosest :
      (s : db.Store) (height : ℕ)
      → ((root : Hash) × (get_smt_root_at_height s height ≡ ok root) × IsClosest s height root)
        ⊎ ((get_smt_root_at_height s height ≡ err (no_state_root height)) × NoRoots s 0 height)
  unfolding get_smt_root_at_height
  get_smt_root_at_height-IsClosest s height = elim (Option-cases (root_at s height)) [
    | inr (root, e) ↦
        inl (root, ground (arith, e), (height, omega arith, e, λ j lo hi. absurd (omega arith)))
    | inl e ↦ elim (root_below_lem s height) [
      | inl (root, h, found, lt, at_h, above) ↦ inl (
        root,
        ground (arith, e, found),
        (h, omega arith, at_h, λ j lo hi. root_at_up_to s height j e (λ lt2. above j lo lt2) hi),
      )
      | inr (absent, all) ↦
          inr (ground (arith, e, absent), λ j lo hi. root_at_up_to s height j e (all j) hi)
    ]
  ]
