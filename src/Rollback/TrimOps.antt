-- ===== src/Rollback/TrimOps.antt =====
-- The operations that trim a key, and what they do to its records and to those of other keys.
use metashrew.Prelude.{
  ℕ, zero, suc, ◌≤◌, ◌<◌, ◌≡◌, ◌≢◌, ◌⊎◌, refl, sym, ◌∙◌, Option, none, some, List, [], ◌∷◌, ◌++◌,
  Bytes, All, All-append, inl, inr, arith, true, bytes_eq_refl, ltb, ltb→lt, ltb→le, leb, leb→le,
  ◌==◌, Bool-cases, if◌then◌else◌,
}
use metashrew.RustStd.Decimal.{u32_mod, to_string}
use metashrew.Keys.Layout.{length_key, update_key}
use metashrew.Keys.Layout.Distinct.{
  update_key_injective, length_key_injective, length_key-ne-update_key,
}
use metashrew.Storage.Batch.{
  delete, replay, replay-append, Spares, replay-Spares, replay-put_self, replay-delete_self,
}
use metashrew.Rollback.{length_ops, RollbackOp}

-- The deletions of the updates from `cut` up to `i`, the last first.
unfoldable pub deletions : Bytes → ℕ → ℕ → List RollbackOp
deletions key cut zero = []
deletions key cut (suc i) =
    if leb cut i then delete (update_key key i) ∷ deletions key cut i else []

-- What trimming a history of `n` updates to `cut` writes.
unfoldable pub trim_ops : Bytes → ℕ → ℕ → List RollbackOp
trim_ops key cut n = deletions key cut n ++ length_ops key n (if ltb cut n then cut else n)

deletions_none : (key : Bytes) (cut i : ℕ) → i ≤ cut → deletions key cut i ≡ []
unfolding deletions
deletions_none key cut zero le = refl
deletions_none key cut (suc i) le = ground arith

pub trim_ops_none : (key : Bytes) (n : ℕ) → trim_ops key n n ≡ []
unfolding trim_ops length_ops
trim_ops_none key n = ground (arith, deletions_none key n n (omega arith))

deletions-Spares-update_key :
    (key j : Bytes) (cut n i : ℕ)
    → n < u32_mod
    → i < u32_mod
    → (j ≢ key) ⊎ (i < cut)
    → Spares (update_key j i) (deletions key cut n)
unfolding deletions
deletions-Spares-update_key key j cut zero i hn hi apart = tt
deletions-Spares-update_key key j cut (suc m) i hn hi apart = elim (Bool-cases (leb cut m)) [
  | inl e ↦
      rw (e, All)
        ((
          λ p.
              let (same_key, same_index) = update_key_injective key j m i (omega arith) hi p in
              elim apart [
                | inl ne ↦ ne (sym same_key)
                | inr lt ↦ absurd (omega (arith, leb→le cut m e))
              ],
          deletions-Spares-update_key key j cut m i (omega arith) hi apart,
        ))
  | inr e ↦ rw (e, All) tt
]

-- A record that is neither the length nor an update of the key is not touched.
deletions-Spares_apart :
    (key j : Bytes) (cut n : ℕ) → ((i : ℕ) → update_key key i ≢ j) → Spares j (deletions key cut n)
unfolding deletions
deletions-Spares_apart key j cut zero apart = tt
deletions-Spares_apart key j cut (suc i) apart = elim (Bool-cases (leb cut i)) [
  | inl e ↦ rw (e, All) ((apart i, deletions-Spares_apart key j cut i apart))
  | inr e ↦ rw (e, All) tt
]

length_ops-Spares_apart :
    (key j : Bytes) (n m : ℕ) → length_key key ≢ j → Spares j (length_ops key n m)
unfolding length_ops
length_ops-Spares_apart key j n m ne = elim (Bool-cases (m == n)) [
  | inl e ↦ rw (e, All) tt
  | inr e ↦ elim (Bool-cases (ltb 0 m)) [
    | inl p ↦ rw (e, p, All) ((ne, tt))
    | inr p ↦ rw (e, p, All) ((ne, tt))
  ]
]

pub trim_ops-Spares_apart :
    (key j : Bytes) (cut n : ℕ)
    → length_key key ≢ j
    → ((i : ℕ) → update_key key i ≢ j)
    → Spares j (trim_ops key cut n)
unfolding trim_ops
trim_ops-Spares_apart key j cut n ne apart =
    All-append _ (deletions key cut n) _ (deletions-Spares_apart key j cut n apart)
      (length_ops-Spares_apart key j n _ ne)

pub trim_ops-Spares-length_key :
    (key j : Bytes) (cut n : ℕ) → j ≢ key → Spares (length_key j) (trim_ops key cut n)
unfolding trim_ops
trim_ops-Spares-length_key key j cut n ne =
    All-append _ (deletions key cut n) _
      (deletions-Spares_apart key (length_key j) cut n
        (λ i p. length_key-ne-update_key j key i (sym p)))
      (length_ops-Spares_apart key (length_key j) n _
        (λ q. ne (sym (length_key_injective key j q))))

pub trim_ops-Spares-update_key :
    (key j : Bytes) (cut n i : ℕ)
    → n < u32_mod
    → i < u32_mod
    → (j ≢ key) ⊎ (i < cut)
    → Spares (update_key j i) (trim_ops key cut n)
unfolding trim_ops
trim_ops-Spares-update_key key j cut n i hn hi apart =
    All-append _ (deletions key cut n) _ (deletions-Spares-update_key key j cut n i hn hi apart)
      (length_ops-Spares_apart key (update_key j i) n _ (length_key-ne-update_key key j i))

-- Deletions give no record back, and take away those from the cut on.
replay-deletions-none : (key j : Bytes) (cut n : ℕ) → replay (deletions key cut n) j none ≡ none
unfolding replay deletions
replay-deletions-none key j cut zero = refl
replay-deletions-none key j cut (suc m) = ground (arith, replay-deletions-none key j cut m)

replay-deletions :
    (key : Bytes) (cut n i : ℕ) (old : Option Bytes)
    → cut ≤ i
    → i < n
    → replay (deletions key cut n) (update_key key i) old ≡ none
unfolding replay deletions
replay-deletions key cut zero i old above lt = absurd (omega arith)
replay-deletions key cut (suc m) i old above lt =
    let open_cut : leb cut m ≡ true = ground arith in
    elim (Bool-cases (ltb i m)) [
      | inl e ↦ rw open_cut (replay-deletions key cut m i _ above (ltb→lt i m e))
      | inr e ↦
          let same : m ≡ i = omega (arith, ltb→le i m e) in
          rw (open_cut, same, bytes_eq_refl (update_key key i))
            (replay-deletions-none key (update_key key i) cut i)
    ]

-- Trimming a key gives no update of any key back, and leaves none of its own from the cut on.
pub trim_ops-none :
    (key j : Bytes) (cut n i : ℕ) → replay (trim_ops key cut n) (update_key j i) none ≡ none
unfolding trim_ops
trim_ops-none key j cut n i =
    replay-append (deletions key cut n) _ (update_key j i) none
    ∙ replay-Spares _ (update_key j i) _
        (length_ops-Spares_apart key (update_key j i) n _ (length_key-ne-update_key key j i))
    ∙ replay-deletions-none key (update_key j i) cut n

pub trim_ops-gone :
    (key : Bytes) (cut n i : ℕ) (old : Option Bytes)
    → cut ≤ i
    → i < n
    → replay (trim_ops key cut n) (update_key key i) old ≡ none
unfolding trim_ops
trim_ops-gone key cut n i old above lt =
    replay-append (deletions key cut n) _ (update_key key i) old
    ∙ replay-Spares _ (update_key key i) _
        (length_ops-Spares_apart key (update_key key i) n _ (length_key-ne-update_key key key i))
    ∙ replay-deletions key cut n i old above lt

length_ops-length_key :
    (key : Bytes) (n m : ℕ) (old : Option Bytes)
    → m < n
    → replay (length_ops key n m) (length_key key) old
      ≡ (if ltb 0 m then some (to_string m) else none)
unfolding length_ops
length_ops-length_key key n m old lt = ground (
  arith,
  replay-put_self [] (length_key key) (to_string m) old tt,
  replay-delete_self [] (length_key key) old tt,
)

pub trim_ops-length_key :
    (key : Bytes) (cut n : ℕ) (old : Option Bytes)
    → cut < n
    → replay (trim_ops key cut n) (length_key key) old
      ≡ (if ltb 0 cut then some (to_string cut) else none)
unfolding trim_ops
trim_ops-length_key key cut n old lt =
    replay-append (deletions key cut n) _ (length_key key) old
    ∙ ground (
      arith,
      replay-Spares (deletions key cut n) (length_key key) old (
          deletions-Spares_apart key (length_key key) cut n
            (λ i p. length_key-ne-update_key key key i (sym p))),
      length_ops-length_key key n cut old lt,
    )
