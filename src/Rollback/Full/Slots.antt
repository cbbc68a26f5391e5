-- ===== src/Rollback/Full/Slots.antt =====
-- The slots of a compacted structure: which updates survive, and what writing and deleting slots does.
use metashrew.Prelude.{
  ℕ, zero, suc, ◌+◌, ◌≤◌, ◌<◌, ◌≡◌, ◌≢◌, refl, ◌∙◌, ap, Option, none, some, List, [], ◌∷◌, Bytes,
  All, inl, inr, arith, length, get_elem?, get_elem?-lt_length, ltb, ltb→lt, ltb→le, bytes_eq_refl,
  leb, Bool-cases, if◌then◌else◌,
}
use metashrew.RustStd.Decimal.{u32_mod}
use metashrew.Keys.Layout.{update_key}
use metashrew.Keys.Layout.Distinct.{update_key_injective}
use metashrew.Storage.{HexCodec}
use metashrew.Storage.Batch.{replay, Spares, replay-put_self, replay-put_ne}
use metashrew.Append.{update_value}
use metashrew.Append.History.{History, IsSorted, cut}
use metashrew.Rollback.Full.{delete_slots, put_slots}

module _ ⦃hex : HexCodec⦄ where
  -- The texts of a history's updates.
  unfoldable pub texts : History → List Bytes
  texts [] = []
  texts ((h, v) ∷ r) = update_value h v ∷ texts r

  -- The updates of `hist` at or below `t`.
  unfoldable pub kept : ℕ → History → History
  kept t [] = []
  kept t ((h, v) ∷ r) = if leb h t then (h, v) ∷ kept t r else kept t r

  kept_above : (t g : ℕ) (r : History) → All (λ e. g ≤ e.0) r → t < g → kept t r ≡ []
  unfolding kept
  kept_above t g [] above lt = refl
  kept_above t g ((h, v) ∷ r) (le, above) lt = ground (arith, kept_above t g r above lt)

  pub kept-cut : (t : ℕ) (hist : History) → IsSorted hist → kept t hist ≡ cut t hist
  unfolding kept
  kept-cut t [] sorted = refl
  kept-cut t ((h, v) ∷ r) (above, sorted) =
      ground (arith, kept-cut t r sorted, kept_above t h r above)

  pub length-texts : (hist : History) → length (texts hist) ≡ length hist
  unfolding texts
  length-texts [] = refl
  length-texts (e ∷ r) = ap suc (length-texts r)

  pub put_slots-Spares_apart :
      (key j : Bytes) (i : ℕ) (ts : List Bytes)
      → ((n : ℕ) → i ≤ n → n < i + length ts → update_key key n ≢ j)
      → Spares j (put_slots key i ts)
  unfolding put_slots
  put_slots-Spares_apart key j i [] apart = tt
  put_slots-Spares_apart key j i (x ∷ ts) apart = (
    apart i (omega arith) (omega arith),
    put_slots-Spares_apart key j (i + 1) ts (λ n lo hi. apart n (omega arith) (omega arith)),
  )

  pub delete_slots-Spares_apart :
      (key j : Bytes) (i left : ℕ)
      → ((n : ℕ) → n < i + left → update_key key n ≢ j)
      → Spares j (delete_slots key i left)
  unfolding delete_slots
  delete_slots-Spares_apart key j i zero apart = tt
  delete_slots-Spares_apart key j i (suc left) apart = (
    apart i (omega arith),
    delete_slots-Spares_apart key j (i + 1) left (λ n lt. apart n (omega arith)),
  )

  pub replay-put_slots :
      (key : Bytes) (i : ℕ) (hist : History) (n h : ℕ) (v : Bytes) (old : Option Bytes)
      → i + length hist < u32_mod
      → get_elem? hist n ≡ some (h, v)
      → replay (put_slots key i (texts hist)) (update_key key (i + n)) old ≡ some (update_value h v)
  unfolding put_slots texts
  replay-put_slots key i [] n h v old small found = cc
  replay-put_slots key i ((g, w) ∷ r) zero h v old small found =
      let same : i + 0 ≡ i = omega arith in
      rw same (
        replay-put_self (put_slots key (i + 1) (texts r)) (update_key key i) (update_value g w) old
          (put_slots-Spares_apart key (update_key key i) (i + 1) (texts r) (λ n lo hi p.
            let (_, eq) =
              update_key_injective key key n i (omega (arith, length-texts r)) (omega arith) p in
            absurd (omega arith)))
        ∙ ap (λ (e : ℕ × Bytes). some (update_value e.0 e.1)) (cc))
  replay-put_slots key i ((g, w) ∷ r) (suc n) h v old small found =
      let shift : i + suc n ≡ i + 1 + n = omega arith in
      let far : n < length r = get_elem?-lt_length r n (h, v) found in
      rw shift (
        replay-put_ne (put_slots key (i + 1) (texts r)) (update_key key i)
          (update_key key (i + 1 + n)) (update_value g w) old
          (λ p.
            let (_, eq) =
              update_key_injective key key i (i + 1 + n) (omega arith) (omega arith) p in
            absurd (omega arith))
        ∙ replay-put_slots key (i + 1) r n h v _ (omega arith) found)

-- Deletions give no record back.
pub replay-delete_slots-none :
    (key j : Bytes) (i left : ℕ) → replay (delete_slots key i left) j none ≡ none
unfolding replay delete_slots
replay-delete_slots-none key j i zero = refl
replay-delete_slots-none key j i (suc left) =
    ground (arith, replay-delete_slots-none key j (i + 1) left)

pub replay-delete_slots :
    (key : Bytes) (i left m : ℕ) (old : Option Bytes)
    → i ≤ m
    → m < i + left
    → replay (delete_slots key i left) (update_key key m) old ≡ none
unfolding replay delete_slots
replay-delete_slots key i zero m old low high = absurd (omega arith)
replay-delete_slots key i (suc left) m old low high = elim (Bool-cases (ltb i m)) [
  | inr e ↦
      let same : i ≡ m = omega (arith, ltb→le i m e) in
      rw (same, bytes_eq_refl (update_key key m))
        (replay-delete_slots-none key (update_key key m) (m + 1) left)
  | inl e ↦ replay-delete_slots key (i + 1) left m _ (omega (arith, ltb→lt i m e)) (omega arith)
]
