-- ===== src/Rocks/Pointers.antt =====
-- The pointers of the RocksDB store and the records under other keys.
use metashrew.Prelude.{
  ℕ, zero, suc, ◌≤◌, ◌<◌, ◌≡◌, ◌≢◌, refl, sym, ◌⊎◌, inl, inr, true, some, [], ◌∷◌, leb, leb→le,
  leb→lt, arith, Bool-cases,
}
use metashrew.RustStd.Decimal.{u32_mod}
use metashrew.RustStd.Words.{to_le_bytes, from_le_bytes}
use metashrew.Keys.Layout.{tip_height_key, height_to_hash_key, root_key}
use metashrew.Storage.{KeyValueStoreLike, SmtRollback}
use metashrew.Storage.Batch.{put, replay-put_self, replay-put_ne}
use metashrew.Rocks.{
  indexed_height_key, read_u32, is_none, get_indexed_height, get_runtime_tip_height, get_block_hash,
  set_indexed_height, write_pointers, scan_hashes, find_max_stored_block_hash_height,
}

pub read_u32-to_le_bytes : (n : ℕ) → n < u32_mod → read_u32 (some (to_le_bytes n)) ≡ n
unfolding read_u32 to_le_bytes from_le_bytes
read_u32-to_le_bytes n h = omega arith

pub hash_key-ne-indexed : (h : ℕ) → height_to_hash_key h ≢ indexed_height_key
unfolding height_to_hash_key
hash_key-ne-indexed h e = ground arith

pub root_key-ne-indexed : (h : ℕ) → root_key h ≢ indexed_height_key
unfolding root_key
root_key-ne-indexed h e = ground arith

pub root_key-ne-hash_key : (h k : ℕ) → root_key h ≢ height_to_hash_key k
unfolding root_key height_to_hash_key
root_key-ne-hash_key h k e = ground arith

pub indexed-ne-hash_key : (h : ℕ) → indexed_height_key ≢ height_to_hash_key h
unfolding height_to_hash_key
indexed-ne-hash_key h e = ground arith

pub indexed-ne-tip : indexed_height_key ≢ tip_height_key
indexed-ne-tip e = ground arith

module _ ⦃db : KeyValueStoreLike⦄ ⦃rb : SmtRollback db⦄ where
  pub get_indexed_height-set_indexed_height :
      (s : db.Store) (height : ℕ)
      → height < u32_mod
      → get_indexed_height (set_indexed_height s height) ≡ height
  unfolding get_indexed_height set_indexed_height
  get_indexed_height-set_indexed_height s height small =
      rw
        (
          rb.get_value-apply_atomic s (put indexed_height_key (to_le_bytes height) ∷ [])
              indexed_height_key,
          replay-put_self [] indexed_height_key (to_le_bytes height)
              (rb.get_value s indexed_height_key) tt,
        )
        (read_u32-to_le_bytes height small)

  pub get_indexed_height-write_pointers :
      (s : db.Store) (target : ℕ)
      → target < u32_mod
      → get_indexed_height (write_pointers s target) ≡ target
  unfolding get_indexed_height write_pointers
  get_indexed_height-write_pointers s target small =
      rw
        (
          rb.get_value-apply_atomic s
              (put indexed_height_key (to_le_bytes target)
                ∷ put tip_height_key (to_le_bytes target)
                ∷ [])
              indexed_height_key,
          replay-put_self (put tip_height_key (to_le_bytes target) ∷ []) indexed_height_key
              (to_le_bytes target) (rb.get_value s indexed_height_key)
              ((λ e. indexed-ne-tip (sym e)), tt),
        )
        (read_u32-to_le_bytes target small)

  pub get_runtime_tip_height-write_pointers :
      (s : db.Store) (target : ℕ)
      → target < u32_mod
      → get_runtime_tip_height (write_pointers s target) ≡ target
  unfolding get_runtime_tip_height write_pointers
  get_runtime_tip_height-write_pointers s target small =
      rw
        (
          rb.get_value-apply_atomic s
              (put indexed_height_key (to_le_bytes target)
                ∷ put tip_height_key (to_le_bytes target)
                ∷ [])
              tip_height_key,
          replay-put_ne (put tip_height_key (to_le_bytes target) ∷ []) indexed_height_key
              tip_height_key (to_le_bytes target) (rb.get_value s tip_height_key) indexed-ne-tip,
          replay-put_self [] tip_height_key (to_le_bytes target) (rb.get_value s tip_height_key) tt,
        )
        (read_u32-to_le_bytes target small)

  scan_hashes_bounds :
      (s : db.Store) (floor h : ℕ)
      → floor ≤ h
      → (scan_hashes s floor h ≤ h)
        × ((scan_hashes s floor h ≡ 0) ⊎ (floor ≤ scan_hashes s floor h))
  unfolding scan_hashes
  scan_hashes_bounds s floor zero low = (omega arith, inl refl)
  scan_hashes_bounds s floor (suc h) low = elim (Bool-cases (is_none (get_block_hash s (suc h)))) [
    | inl e ↦ elim (Bool-cases (leb (suc h) floor)) [
      | inl l ↦ rw (scan_hashes, e, l) (omega arith, inl refl)
      | inr l ↦
          rw (scan_hashes, e, l)
            (later (scan_hashes_bounds s floor h (ground (arith, leb→lt (suc h) floor))))
    ]
    | inr e ↦ rw (scan_hashes, e) (omega arith, inr low)
  ]
    where
      later : {a : ℕ} → (a ≤ h) × ((a ≡ 0) ⊎ (floor ≤ a)) → (a ≤ suc h) × ((a ≡ 0) ⊎ (floor ≤ a))
      later (p, q) = (omega arith, q)

  -- The scan never looks above the indexed height.
  pub find_max_bounds :
      (s : db.Store) (floor : ℕ)
      → floor ≤ get_indexed_height s
      → (find_max_stored_block_hash_height s floor ≤ get_indexed_height s)
        × ((find_max_stored_block_hash_height s floor ≡ 0)
            ⊎ (floor ≤ find_max_stored_block_hash_height s floor))
  unfolding find_max_stored_block_hash_height
  find_max_bounds s floor low = scan_hashes_bounds s floor (get_indexed_height s) low

  scan_hashes-highest :
      (s : db.Store) (floor h k : ℕ)
      → scan_hashes s floor h < k
      → floor ≤ k
      → k ≤ h
      → is_none (get_block_hash s k) ≡ true
  unfolding scan_hashes
  scan_hashes-highest s floor zero k above low high = absurd (omega arith)
  scan_hashes-highest s floor (suc h) k above low high =
      elim (Bool-cases (is_none (get_block_hash s (suc h)))) [
        | inl e ↦ elim (Bool-cases (leb k h)) [
          | inl l ↦ elim (Bool-cases (leb (suc h) floor)) [
            | inl f ↦ absurd (ground (arith, leb→le (suc h) floor, leb→le k h))
            | inr f ↦
                scan_hashes-highest s floor h k (rw (scan_hashes, e, f) at above) low (leb→le k h l)
          ]
          | inr l ↦ rw (is_top (leb→lt k h l)) e
        ]
        | inr e ↦ absurd (too_high (rw (scan_hashes, e) at above))
      ]
    where
      is_top : h < k → k ≡ suc h
      is_top l = omega arith

      too_high : suc h < k → ⊥
      too_high l = omega arith

  pub find_max-highest :
      (s : db.Store) (floor k : ℕ)
      → find_max_stored_block_hash_height s floor < k
      → floor ≤ k
      → k ≤ get_indexed_height s
      → is_none (get_block_hash s k) ≡ true
  unfolding find_max_stored_block_hash_height
  find_max-highest s floor k above low high =
      scan_hashes-highest s floor (get_indexed_height s) k above low high
