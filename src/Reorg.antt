-- ===== src/Reorg.antt =====
-- A block and its rollback: `calculate_and_store_state_root_batched` of
-- crates/metashrew-runtime/src/smt.rs, followed by `rollback_with_manifests` of rollback.rs.
pub mod NewUpdates
use metashrew.Prelude.{
  ℕ, ◌+◌, ◌-◌, ◌^◌, ◌≤◌, ◌<◌, ◌≡◌, refl, sym, ◌∙◌, ap, Bool, true, List, [], ◌∷◌, ◌++◌, Bytes, All,
  IsByte, arith, length,
}
use metashrew.RustStd.Decimal.{u32_mod}
use metashrew.Keys.Layout.{length_key, update_key, manifest_key}
use metashrew.Keys.Layout.Distinct.{IsUserKey}
use metashrew.Error.{Result, ok}
use metashrew.Storage.{KeyValueStoreLike, SmtRollback, HexCodec}
use metashrew.Append.{get_at_height}
use metashrew.Append.History.{History, IsSorted, cut, lookup_at}
use metashrew.Append.Represents.{View, Represents, Represents-agree}
use metashrew.Append.Search.{get_at_height-lookup_at}
use metashrew.Manifest.{KeyFits, serialize_key_manifest}
use metashrew.Block.{Hash, keys_of, previous_root, calculate_and_store_state_root_batched}
use metashrew.Block.Updates.{updates_of}
use metashrew.Block.Effect.{indexed, calculate_and_store_lem, Represents-indexed, manifest_stored}
use metashrew.Rollback.{rollback_with_manifests}
use metashrew.Rollback.Keys.{Holds}
use metashrew.Rollback.Heights.{HasManifests, rollback_with_manifests-cut}
use NewUpdates.{
  Until, listed_keys, updates_of-All, updates_of-IsSorted, cut-append_new, IsSorted-append_new,
  manifest_round_trip, Covered-after, listed_users,
}

module _ ⦃db : KeyValueStoreLike⦄ ⦃rb : SmtRollback db⦄ ⦃hex : HexCodec⦄ where
  -- What a block at `t + 1` asks of the backend and of its updates: the histories end at `t`, and
  -- keys, values and counts fit their encodings.
  pub record CanIndex (s : db.Store) (hists : Bytes → History) (t : ℕ) (kvs : List (Bytes × Bytes))
      : Type 0 where
    pub holds : Holds (db.get_immutable s) hists
    pub until : (k : Bytes) → Until t (hists k)
    pub height_fits : t + 1 < u32_mod
    pub values_fit : All (λ kv. All IsByte kv.1) kvs
    pub room : (k : Bytes) → length (hists k) + length kvs < u32_mod
    pub user_keys : All IsUserKey (keys_of kvs)
    pub keys_fit : All KeyFits (keys_of kvs)

  indexed-Holds :
      (s t' : db.Store) (hists : Bytes → History) (t : ℕ) (kvs : List (Bytes × Bytes))
      → CanIndex s hists t kvs
      → ((k : Bytes)
          → IsUserKey k
          → Represents (db.get_immutable t') k (hists k ++ updates_of k (t + 1) kvs))
      → Holds (rb.get_value t') (λ k. hists k ++ updates_of k (t + 1) kvs)
  indexed-Holds s t' hists t kvs can appended k user = (
    Represents-agree (db.get_immutable t') (rb.get_value t') k _
        (rb.get_value_lem t' (length_key k)) (λ i _. rb.get_value_lem t' (update_key k i))
        (appended k user),
    IsSorted-append_new (hists k) _ t (can.holds k user).1 (can.until k)
        (updates_of-IsSorted k (t + 1) kvs) (updates_of-All k (t + 1) (t + 1) kvs (omega arith)),
  )

  -- Two stores that hold the same history under a key answer its reads alike.
  same_reads :
      (s final : db.Store) (k : Bytes) (hist : History) (height : ℕ)
      → Represents (db.get_immutable s) k hist
      → Represents (rb.get_value final) k hist
      → IsSorted hist
      → length hist ≤ 2 ^ 31
      → get_at_height final k height ≡ get_at_height s k height
  same_reads s final k hist height before back sorted few =
      get_at_height-lookup_at final k hist height
        (Represents-agree (rb.get_value final) (db.get_immutable final) k hist
          (sym (rb.get_value_lem final (length_key k)))
          (λ i _. sym (rb.get_value_lem final (update_key k i))) back)
        sorted few
      ∙ sym (get_at_height-lookup_at s k hist height before sorted few)

  -- Let the store hold sorted histories of user keys that end at height t, that of the key in
  -- question with at most 2^31 updates, and let keys, values and counts fit their encodings.
  -- Indexing a block of at least one update at t + 1 and then rolling back to t by the manifests
  -- both succeed; afterwards the store holds of the key, which is a user key, the history that it
  -- held before, and a read of the key at any height returns what it returned before the block.
  pub rollback-index_block :
      (s : db.Store) (hists : Bytes → History) (t : ℕ) (kv : Bytes × Bytes)
      (kvs : List (Bytes × Bytes)) (block_hash k : Bytes) (height : ℕ)
      → CanIndex s hists t (kv ∷ kvs)
      → IsUserKey k
      → length (hists k) ≤ 2 ^ 31
      → (root : Hash) × (after : db.Store) × (final : db.Store)
        × (calculate_and_store_state_root_batched s (t + 1) (kv ∷ kvs) block_hash
            ≡ ok (root, after))
        × (rollback_with_manifests after t (t + 1) ≡ ok (true, final))
        × Represents (rb.get_value final) k (hists k)
        × (get_at_height final k height ≡ get_at_height s k height)
  rollback-index_block s hists t kv kvs block_hash k height can user few =
      let after = indexed s (t + 1) (kv ∷ kvs) in
      let listed = listed_keys (kv ∷ kvs) in
      let one : t + 1 - t ≡ 1 = omega arith in
      let (final, rolled, kept, _) =
        rollback_with_manifests-cut after (λ k. hists k ++ updates_of k (t + 1) (kv ∷ kvs))
          (λ h. listed) t (t + 1) k (omega arith) can.height_fits
          (indexed-Holds s after hists t (kv ∷ kvs) can (λ k user.
            Represents-indexed s (t + 1) (kv ∷ kvs) k (hists k) user can.height_fits can.values_fit
              (can.room k) (can.holds k user).0))
          (λ h above le.
            let top : h ≡ t + 1 = omega arith in
            (
              serialize_key_manifest listed,
              rw top (
                  rb.get_value_lem after (manifest_key (t + 1))
                  ∙ manifest_stored s (t + 1) kv kvs can.user_keys),
              manifest_round_trip (kv ∷ kvs) (omega (arith, can.room [])) can.keys_fit,
              listed_users (kv ∷ kvs) can.user_keys,
            ))
          user (rw one (Covered-after (kv ∷ kvs) t (hists k) k (can.until k))) in
      let back =
        rw
          (cut-append_new (hists k) (updates_of k (t + 1) (kv ∷ kvs)) t (can.until k)
            (updates_of-All k (t + 1) (t + 1) (kv ∷ kvs) (omega arith)))
          at kept in
      (
        previous_root s (t + 1),
        after,
        final,
        calculate_and_store_lem s (t + 1) (kv ∷ kvs) block_hash,
        rolled,
        back,
        same_reads s final k (hists k) height (can.holds k user).0 back (can.holds k user).1 few,
      )
