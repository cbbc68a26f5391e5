-- ===== src/Block/Effect.antt =====
-- What a block leaves in the backend: the batch of crates/metashrew-runtime/src/smt.rs.
use metashrew.Prelude.{
  ℕ, ◌+◌, ◌<◌, ◌≡◌, ◌≢◌, refl, sym, ◌∙◌, ap, some, List, [], ◌∷◌, ◌++◌, Bytes, All, All-append,
  IsByte, arith, length,
}
use metashrew.RustStd.Decimal.{u32_mod}
use metashrew.RustStd.Words.{to_le_bytes}
use metashrew.RustStd.Sort.{sort_unstable, dedup}
use metashrew.Keys.Layout.{length_key, update_key, root_key, manifest_key, tip_height_key}
use metashrew.Keys.Layout.Distinct.{
  IsBlockKey, root, manifest, tip, IsUserKey, root_key-ne-tip, manifest_key-ne-tip,
  manifest_key-ne-root_key, length_key-ne-block_key, update_key-ne-block_key,
}
use metashrew.Error.{ok}
use metashrew.Storage.{KeyValueStoreLike, HexCodec}
use metashrew.Storage.Batch.{
  BatchOperation, put, op_key, replay, replay-append, Spares, replay-Spares, replay-put_self,
  replay-put_ne,
}
use metashrew.Append.{stored_length}
use metashrew.Append.History.{History}
use metashrew.Append.Represents.{
  View, behind, Represents, Represents-agree, stored_length-Represents, stored_length-lt,
}
use metashrew.Append.Put.{Represents-write}
use metashrew.Manifest.{serialize_key_manifest}
use metashrew.Block.{
  Lengths, find, keys_of, current_length, append_updates, manifest_ops, previous_root,
  build_state_root_batch_unwritten, calculate_and_store_state_root_batched,
}
use metashrew.Block.Updates.{updates_of, Represents-append_updates}

-- Every operation of the batch is on a record of the block at `height`.
abbrev pub OnBlockKeys : ℕ → List BatchOperation → Type 0
OnBlockKeys height = All (λ op. IsBlockKey height (op_key op))

pub Spares-length_key :
    (key : Bytes) (height : ℕ) (ops : List BatchOperation)
    → OnBlockKeys height ops
    → Spares (length_key key) ops
Spares-length_key key height [] h = tt
Spares-length_key key height (op ∷ ops) (here, h) = (
  λ e. length_key-ne-block_key key height (op_key op) here (sym e),
  Spares-length_key key height ops h,
)

pub Spares-update_key :
    (key : Bytes) (i height : ℕ) (ops : List BatchOperation)
    → IsUserKey key
    → OnBlockKeys height ops
    → Spares (update_key key i) ops
Spares-update_key key i height [] user h = tt
Spares-update_key key i height (op ∷ ops) user (here, h) = (
  λ e. update_key-ne-block_key key i height (op_key op) user here (sym e),
  Spares-update_key key i height ops user h,
)

module _ ⦃hex : HexCodec⦄ where
  -- The records of a block beside the updates touch no history.
  pub Represents-append_block_ops :
      (get : View) (xs ys : List BatchOperation) (height : ℕ) (key : Bytes) (hist : History)
      → IsUserKey key
      → OnBlockKeys height ys
      → Represents (behind xs get) key hist
      → Represents (behind (xs ++ ys) get) key hist
  Represents-append_block_ops get xs ys height key hist user on r =
      Represents-agree (behind xs get) (behind (xs ++ ys) get) key hist
        (replay-append xs ys (length_key key) _
          ∙ replay-Spares ys (length_key key) _ (Spares-length_key key height ys on))
        (λ i _.
          replay-append xs ys (update_key key i) _
          ∙ replay-Spares ys (update_key key i) _ (Spares-update_key key i height ys user on))
        r

manifest_ops-OnBlockKeys :
    (height : ℕ) (kvs : List (Bytes × Bytes)) → OnBlockKeys height (manifest_ops height kvs)
unfolding manifest_ops
manifest_ops-OnBlockKeys height [] = tt
manifest_ops-OnBlockKeys height (kv ∷ kvs) = (manifest, tt)

module _ ⦃db : KeyValueStoreLike⦄ ⦃hex : HexCodec⦄ where
  current_length-nil : (s : db.Store) (k : Bytes) → current_length s [] k ≡ stored_length s k
  unfolding current_length find
  current_length-nil s k = refl

  -- The records of the block at `height`, beside the updates.
  abbrev pub block_records : db.Store → ℕ → List (Bytes × Bytes) → List BatchOperation
  block_records s height kvs =
      put (root_key height) (previous_root s height)
      ∷ (manifest_ops height kvs ++ put tip_height_key (to_le_bytes height) ∷ [])

  block_records-OnBlockKeys :
      (s : db.Store) (height : ℕ) (kvs : List (Bytes × Bytes))
      → OnBlockKeys height (block_records s height kvs)
  block_records-OnBlockKeys s height kvs =
      (root, All-append _ _ _ (manifest_ops-OnBlockKeys height kvs) ((tip, tt)))

  -- The batch of a block, and the backend with it written.
  abbrev pub block_batch : db.Store → ℕ → List (Bytes × Bytes) → List BatchOperation
  block_batch s height kvs = append_updates s height [] kvs ++ block_records s height kvs

  abbrev pub indexed : db.Store → ℕ → List (Bytes × Bytes) → db.Store
  indexed s height kvs = db.write s (block_batch s height kvs)

  pub calculate_and_store_lem :
      (s : db.Store) (height : ℕ) (kvs : List (Bytes × Bytes)) (block_hash : Bytes)
      → calculate_and_store_state_root_batched s height kvs block_hash
        ≡ ok (previous_root s height, indexed s height kvs)
  unfolding calculate_and_store_state_root_batched build_state_root_batch_unwritten
  calculate_and_store_lem s height kvs block_hash = refl

  pub Represents-block_batch :
      (s : db.Store) (height : ℕ) (kvs : List (Bytes × Bytes)) (key : Bytes) (hist : History)
      → IsUserKey key
      → height < u32_mod
      → All (λ kv. All IsByte kv.1) kvs
      → length hist + length kvs < u32_mod
      → Represents (db.get_immutable s) key hist
      → Represents
          (behind (block_batch s height kvs) (db.get_immutable s))
          key
          (hist ++ updates_of key height kvs)
  Represents-block_batch s height kvs key hist user small bytes room r =
      Represents-append_block_ops (db.get_immutable s) (append_updates s height [] kvs)
        (block_records s height kvs) height key _ user (block_records-OnBlockKeys s height kvs)
        (Represents-append_updates s height [] kvs (db.get_immutable s) key hist small bytes
          (λ k. omega (arith, current_length-nil s k, stored_length-lt s k))
          (current_length-nil s key ∙ stored_length-Represents s key hist r) room r)

  pub Represents-indexed :
      (s : db.Store) (height : ℕ) (kvs : List (Bytes × Bytes)) (key : Bytes) (hist : History)
      → IsUserKey key
      → height < u32_mod
      → All (λ kv. All IsByte kv.1) kvs
      → length hist + length kvs < u32_mod
      → Represents (db.get_immutable s) key hist
      → Represents (db.get_immutable (indexed s height kvs)) key (hist ++ updates_of key height kvs)
  Represents-indexed s height kvs key hist user small bytes room r =
      Represents-write s _ key _
        (Represents-block_batch s height kvs key hist user small bytes room r)

  append_updates-Spares :
      (s : db.Store) (height : ℕ) (kvs : List (Bytes × Bytes)) (lengths : Lengths) (j : Bytes)
      → All IsUserKey (keys_of kvs)
      → IsBlockKey height j
      → Spares j (append_updates s height lengths kvs)
  unfolding append_updates
  append_updates-Spares s height [] lengths j users b = tt
  append_updates-Spares s height ((k, v) ∷ kvs) lengths j (user, users) b = (
    update_key-ne-block_key k (current_length s lengths k) height j user b,
    (length_key-ne-block_key k height j b, append_updates-Spares s height kvs _ j users b),
  )

  -- The records of the block are read back behind the batch.
  behind_updates :
      (s : db.Store) (height : ℕ) (kvs : List (Bytes × Bytes)) (j : Bytes)
      → All IsUserKey (keys_of kvs)
      → IsBlockKey height j
      → j ≢ tip_height_key
      → db.get_immutable
          (db.write s (append_updates s height [] kvs ++ block_records s height kvs))
          j
        ≡ replay (block_records s height kvs) j (db.get_immutable s j)
  behind_updates s height kvs j users b ne =
      db.get_immutable-write s _ j ne
      ∙ replay-append (append_updates s height [] kvs) (block_records s height kvs) j _
      ∙ ap (replay (block_records s height kvs) j)
          (replay-Spares _ j _ (append_updates-Spares s height kvs [] j users b))

  -- After a block that modified a key, its manifest is stored.
  pub manifest_stored :
      (s : db.Store) (height : ℕ) (kv : Bytes × Bytes) (kvs : List (Bytes × Bytes))
      → All IsUserKey (keys_of (kv ∷ kvs))
      → db.get_immutable (indexed s height (kv ∷ kvs)) (manifest_key height)
        ≡ some (serialize_key_manifest (dedup (sort_unstable (keys_of (kv ∷ kvs)))))
  unfolding manifest_ops
  manifest_stored s height kv kvs users =
      behind_updates s height (kv ∷ kvs) (manifest_key height) users manifest
        (manifest_key-ne-tip height)
      ∙ replay-put_ne _ (root_key height) (manifest_key height) _ _
          (λ e. manifest_key-ne-root_key height height (sym e))
      ∙ replay-put_self _ (manifest_key height) _ _ ((λ e. manifest_key-ne-tip height (sym e), tt))

  pub root_stored :
      (s : db.Store) (height : ℕ) (kvs : List (Bytes × Bytes))
      → All IsUserKey (keys_of kvs)
      → db.get_immutable (indexed s height kvs) (root_key height) ≡ some (previous_root s height)
  unfolding manifest_ops
  root_stored s height [] users =
      behind_updates s height [] (root_key height) users root (root_key-ne-tip height)
      ∙ replay-put_self _ (root_key height) _ _ ((λ e. root_key-ne-tip height (sym e), tt))
  root_stored s height (kv ∷ kvs) users =
      behind_updates s height (kv ∷ kvs) (root_key height) users root (root_key-ne-tip height)
      ∙ replay-put_self _ (root_key height) _ _
          ((manifest_key-ne-root_key height height, (λ e. root_key-ne-tip height (sym e), tt)))

  -- Indexing a block of at least one update succeeds. It appends to the history of a user key the
  -- block's updates of that key in their order, stores under the height's root record the root of
  -- the height before, and stores the manifest of the block's keys, sorted and once each. The height
  -- and the values fit their encodings, the block's keys are user keys, and the history has room for
  -- the block in a u32.
  pub calculate_and_store-append :
      (s : db.Store) (height : ℕ) (kv : Bytes × Bytes) (kvs : List (Bytes × Bytes))
      (block_hash key : Bytes) (hist : History)
      → height < u32_mod
      → All (λ e. All IsByte e.1) (kv ∷ kvs)
      → All IsUserKey (keys_of (kv ∷ kvs))
      → IsUserKey key
      → length hist + length (kv ∷ kvs) < u32_mod
      → Represents (db.get_immutable s) key hist
      → (t : db.Store) × (calculate_and_store_state_root_batched s height (kv ∷ kvs) block_hash
          ≡ ok (previous_root s height, t))
        × Represents (db.get_immutable t) key (hist ++ updates_of key height (kv ∷ kvs))
        × (db.get_immutable t (root_key height) ≡ some (previous_root s height))
        × (db.get_immutable t (manifest_key height)
            ≡ some (serialize_key_manifest (dedup (sort_unstable (keys_of (kv ∷ kvs))))))
  calculate_and_store-append s height kv kvs block_hash key hist small bytes users user room r = (
    indexed s height (kv ∷ kvs),
    calculate_and_store_lem s height (kv ∷ kvs) block_hash,
    Represents-indexed s height (kv ∷ kvs) key hist user small bytes room r,
    root_stored s height (kv ∷ kvs) users,
    manifest_stored s height kv kvs users,
  )
