-- ===== src/Rocks/Commit.antt =====
-- The commit of a block into the RocksDB store.
use metashrew.Prelude.{
  ℕ, ◌<◌, ◌≡◌, ◌≢◌, ◌∙◌, ◌⊎◌, true, false, some, List, [], ◌∷◌, ◌++◌, Bytes, codes, arith,
}
use metashrew.RustStd.Decimal.{u32_mod, to_string}
use metashrew.RustStd.Words.{to_le_bytes}
use metashrew.Keys.Layout.{height_to_hash_key, root_key}
use metashrew.Storage.{KeyValueStoreLike, SmtRollback}
use metashrew.Storage.Batch.{
  BatchOperation, put, replay, replay-append, replay-put_self, replay-put_ne, replay-Spares,
}
use metashrew.Sync.Error.{
  SyncError, storage, message_of, ok, err, contains_text, contains_text-append,
}
use metashrew.Sync.Retry.{out_of_order}
use metashrew.Rocks.{
  indexed_height_key, get_indexed_height, get_block_hash, saturating_add_one, out_of_order_message,
  wasm_batch, commit_batch, is_fresh_db, commit_atomic,
}
use metashrew.Rocks.Pointers.{
  read_u32-to_le_bytes, hash_key-ne-indexed, root_key-ne-indexed, root_key-ne-hash_key,
  indexed-ne-hash_key,
}

module _ ⦃db : KeyValueStoreLike⦄ ⦃rb : SmtRollback db⦄
    (from_data : Bytes → List BatchOperation) where
  -- The store that a commit leaves.
  abbrev after_batch : db.Store → ℕ → Bytes → Bytes → Bytes → db.Store
  after_batch s height hash root batch =
      rb.apply_atomic s (commit_batch from_data height hash root batch)

  read_after :
      (s : db.Store) (height : ℕ) (hash root batch k : Bytes)
      → rb.get_value (after_batch s height hash root batch) k
        ≡ replay
            (put (height_to_hash_key height) hash
              ∷ put (root_key height) root
              ∷ put indexed_height_key (to_le_bytes height)
              ∷ [])
            k
            (replay (wasm_batch from_data batch) k (rb.get_value s k))
  unfolding commit_batch
  read_after s height hash root batch k =
      rb.get_value-apply_atomic s (commit_batch from_data height hash root batch) k
      ∙ replay-append (wasm_batch from_data batch)
          (put (height_to_hash_key height) hash
            ∷ put (root_key height) root
            ∷ put indexed_height_key (to_le_bytes height)
            ∷ [])
          k (rb.get_value s k)

  height_after :
      (s : db.Store) (height : ℕ) (hash root batch : Bytes)
      → height < u32_mod
      → get_indexed_height (after_batch s height hash root batch) ≡ height
  unfolding get_indexed_height
  height_after s height hash root batch small =
      rw
        (
          read_after s height hash root batch indexed_height_key,
          replay-put_ne
              (put (root_key height) root ∷ put indexed_height_key (to_le_bytes height) ∷ [])
              (height_to_hash_key height) indexed_height_key hash
              (replay (wasm_batch from_data batch) indexed_height_key
                (rb.get_value s indexed_height_key))
              (hash_key-ne-indexed height),
          replay-put_ne (put indexed_height_key (to_le_bytes height) ∷ []) (root_key height)
              indexed_height_key root
              (replay (wasm_batch from_data batch) indexed_height_key
                (rb.get_value s indexed_height_key))
              (root_key-ne-indexed height),
          replay-put_self [] indexed_height_key (to_le_bytes height)
              (replay (wasm_batch from_data batch) indexed_height_key
                (rb.get_value s indexed_height_key))
              tt,
        )
        (read_u32-to_le_bytes height small)

  hash_after :
      (s : db.Store) (height : ℕ) (hash root batch : Bytes)
      → get_block_hash (after_batch s height hash root batch) height ≡ some hash
  unfolding get_block_hash
  hash_after s height hash root batch =
      rw (read_after s height hash root batch (height_to_hash_key height)) (
        replay-put_self
          (put (root_key height) root ∷ put indexed_height_key (to_le_bytes height) ∷ [])
          (height_to_hash_key height) hash
          (replay (wasm_batch from_data batch) (height_to_hash_key height)
            (rb.get_value s (height_to_hash_key height)))
          (root_key-ne-hash_key height height, (indexed-ne-hash_key height, tt)))

  -- Under a key of its own, the batch of the block decides alone.
  pub commit-others :
      (s : db.Store) (height : ℕ) (hash root batch k : Bytes)
      → height_to_hash_key height ≢ k
      → root_key height ≢ k
      → indexed_height_key ≢ k
      → rb.get_value (rb.apply_atomic s (commit_batch from_data height hash root batch)) k
        ≡ replay (wasm_batch from_data batch) k (rb.get_value s k)
  commit-others s height hash root batch k a b c =
      rw
        (
          read_after s height hash root batch k,
          replay-put_ne
              (put (root_key height) root ∷ put indexed_height_key (to_le_bytes height) ∷ [])
              (height_to_hash_key height) k hash
              (replay (wasm_batch from_data batch) k (rb.get_value s k)) a,
          replay-put_ne (put indexed_height_key (to_le_bytes height) ∷ []) (root_key height) k root
              (replay (wasm_batch from_data batch) k (rb.get_value s k)) b,
        )
        (replay-Spares (put indexed_height_key (to_le_bytes height) ∷ []) k
          (replay (wasm_batch from_data batch) k (rb.get_value s k)) (c, tt))

  pub commit_atomic-ok :
      (s t : db.Store) (height : ℕ) (hash root batch : Bytes)
      → height < u32_mod
      → commit_atomic from_data s height hash root batch ≡ (ok tt, t)
      → ((is_fresh_db s ≡ true) ⊎ (height ≡ saturating_add_one (get_indexed_height s)))
        × ((get_indexed_height t ≡ height) × (get_block_hash t height ≡ some hash))
  unfolding commit_atomic
  commit_atomic-ok s t height hash root batch small e =
      ground
        (arith, height_after s height hash root batch small, hash_after s height hash root batch)

  pub commit_atomic-rejects :
      (s : db.Store) (height : ℕ) (hash root batch : Bytes)
      → is_fresh_db s ≡ false
      → height ≢ saturating_add_one (get_indexed_height s)
      → commit_atomic from_data s height hash root batch
        ≡ (err (storage (out_of_order_message height (get_indexed_height s))), s)
  unfolding commit_atomic
  commit_atomic-rejects s height hash root batch old gap = ground arith

  pub commit_atomic-err :
      (s t : db.Store) (height : ℕ) (hash root batch : Bytes) (e : SyncError)
      → commit_atomic from_data s height hash root batch ≡ (err e, t)
      → t ≡ s
  unfolding commit_atomic
  commit_atomic-err s t height hash root batch e h = ground arith

-- The text by which `process_block` knows the rejection.
pub out_of_order-found :
    (height current : ℕ)
    → contains_text (message_of (storage (out_of_order_message height current))) out_of_order ≡ true
unfolding message_of out_of_order_message
out_of_order-found height current = contains_text-append (codes "Storage error: ") out_of_order (
    codes ": attempted height "
    ++ (to_string height
        ++ (codes " but current tip is "
            ++ (to_string current ++ codes " (commit_atomic only accepts height == tip + 1)"))))
