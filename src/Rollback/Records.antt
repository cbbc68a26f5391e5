-- ===== src/Rollback/Records.antt =====
-- What one height's batch leaves: the histories of the keys in its manifest, and the other manifests.
use metashrew.Prelude.{
  ℕ, ◌<◌, ◌≡◌, ◌≢◌, sym, ◌∙◌, List, [], ◌∷◌, ◌++◌, Bytes, All, All-append, length,
}
use metashrew.RustStd.Decimal.{u32_mod}
use metashrew.Keys.Layout.{length_key, update_key, manifest_key}
use metashrew.Keys.Layout.Distinct.{
  IsUserKey, IsBlockKey, root, manifest, block_hash, state_root, height_to_hash,
  length_key-ne-block_key, update_key-ne-block_key, manifest_key_injective,
  manifest_key-ne-root_key, manifest_key-ne-block_hash_key, manifest_key-ne-state_root_key,
  manifest_key-ne-height_to_hash_key,
}
use metashrew.Storage.{KeyValueStoreLike, SmtRollback, HexCodec}
use metashrew.Storage.Batch.{Spares, replay-Spares, replay-append}
use metashrew.Append.History.{History, count_to}
use metashrew.Append.Represents.{behind, Clears, Represents-agree}
use metashrew.Block.Effect.{OnBlockKeys, Spares-update_key, Represents-append_block_ops}
use metashrew.Rollback.{trim_key, trim_keys, record_ops}
use metashrew.Rollback.TrimOps.{trim_ops, trim_ops-Spares_apart}
use metashrew.Rollback.Trim.{trim_key_lem}
use metashrew.Rollback.Keys.{Holds, trimmed, trim_keys-Holds, trim_keys-Clears}

record_ops-OnBlockKeys : (h : ℕ) → OnBlockKeys h (record_ops h)
unfolding record_ops
record_ops-OnBlockKeys h = (manifest, (root, (block_hash, (state_root, (height_to_hash, tt)))))

record_ops-Spares :
    (h j : ℕ) → h < u32_mod → j < u32_mod → j ≢ h → Spares (manifest_key j) (record_ops h)
unfolding record_ops
record_ops-Spares h j hh hj ne = (
  λ e. ne (sym (manifest_key_injective h j hh hj e)),
  (
    λ e. manifest_key-ne-root_key j h (sym e),
    (
      λ e. manifest_key-ne-block_hash_key j h (sym e),
      (
        λ e. manifest_key-ne-state_root_key j h (sym e),
        (λ e. manifest_key-ne-height_to_hash_key j h (sym e), tt),
      ),
    ),
  ),
)

-- A record that is neither the length nor an update of a key is not touched by trimming it.
trim_ops-Spares_block_key :
    (key : Bytes) (c n h : ℕ) (j : Bytes)
    → IsUserKey key
    → IsBlockKey h j
    → Spares j (trim_ops key c n)
trim_ops-Spares_block_key key c n h j user b =
    trim_ops-Spares_apart key j c n (length_key-ne-block_key key h j b)
      (λ i. update_key-ne-block_key key i h j user b)

module _ ⦃db : KeyValueStoreLike⦄ ⦃rb : SmtRollback db⦄ ⦃hex : HexCodec⦄ where
  trim_keys-Spares :
      (s : db.Store) (hists : Bytes → History) (t : ℕ) (keys : List Bytes) (h : ℕ) (j : Bytes)
      → Holds (rb.get_value s) hists
      → All IsUserKey keys
      → IsBlockKey h j
      → Spares j (trim_keys s t keys)
  unfolding trim_keys
  trim_keys-Spares s hists t [] h j holds users b = tt
  trim_keys-Spares s hists t (x ∷ keys) h j holds (ux, users) b =
      let (rx, sorted) = holds x ux in
      All-append _ (trim_key s t x) (trim_keys s t keys)
        (rw (trim_key_lem s x (hists x) t rx sorted)
          (trim_ops-Spares_block_key x (count_to (hists x) t) (length (hists x)) h j ux b))
        (trim_keys-Spares s hists t keys h j holds users b)

  -- The histories of the user keys that a batch and the records of a height leave.
  pub Holds-apply :
      (s : db.Store) (hists : Bytes → History) (t h : ℕ) (keys : List Bytes)
      → Holds (rb.get_value s) hists
      → All IsUserKey keys
      → Holds
          (rb.get_value (rb.apply_atomic s (trim_keys s t keys ++ record_ops h)))
          (trimmed keys t hists)
  Holds-apply s hists t h keys holds users k user =
      let (r, sorted) = trim_keys-Holds s hists t keys holds users k user in
      (
        Represents-agree (behind (trim_keys s t keys ++ record_ops h) (rb.get_value s)) _ k _
            (rb.get_value-apply_atomic s _ (length_key k))
            (λ i _. rb.get_value-apply_atomic s _ (update_key k i))
            (Represents-append_block_ops (rb.get_value s) (trim_keys s t keys) (record_ops h) h k _
              user (record_ops-OnBlockKeys h) r),
        sorted,
      )

  pub Clears-apply :
      (s : db.Store) (hists : Bytes → History) (t h : ℕ) (keys : List Bytes) (k : Bytes)
      → Holds (rb.get_value s) hists
      → All IsUserKey keys
      → IsUserKey k
      → Clears
          (rb.get_value s)
          (rb.get_value (rb.apply_atomic s (trim_keys s t keys ++ record_ops h)))
          k
          (length (trimmed keys t hists k))
          (length (hists k))
  Clears-apply s hists t h keys k holds users user i above small gone =
      rb.get_value-apply_atomic s _ (update_key k i)
      ∙ replay-append (trim_keys s t keys) (record_ops h) (update_key k i) _
      ∙ replay-Spares (record_ops h) (update_key k i) _
          (Spares-update_key k i h (record_ops h) user (record_ops-OnBlockKeys h))
      ∙ trim_keys-Clears s hists t keys k holds users i above small gone

  pub manifest-apply :
      (s : db.Store) (hists : Bytes → History) (t h j : ℕ) (keys : List Bytes)
      → Holds (rb.get_value s) hists
      → All IsUserKey keys
      → h < u32_mod
      → j < u32_mod
      → j ≢ h
      → rb.get_value (rb.apply_atomic s (trim_keys s t keys ++ record_ops h)) (manifest_key j)
        ≡ rb.get_value s (manifest_key j)
  manifest-apply s hists t h j keys holds users hh hj ne =
      rb.get_value-apply_atomic s _ (manifest_key j)
      ∙ replay-Spares _ (manifest_key j) _ (
          All-append _ (trim_keys s t keys) (record_ops h)
            (trim_keys-Spares s hists t keys j (manifest_key j) holds users manifest)
            (record_ops-Spares h j hh hj ne))
