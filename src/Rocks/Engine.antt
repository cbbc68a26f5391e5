-- ===== src/Rocks/Engine.antt =====
-- The sync engine over the RocksDB store.
use metashrew.Prelude.{
  ℕ, ◌<◌, ◌≡◌, ◌≢◌, ◌⊎◌, inl, inr, Bool, true, false, none, List, Bytes, codes, ◌++◌, arith,
}
use metashrew.RustStd.Decimal.{u32_mod}
use metashrew.Storage.{KeyValueStoreLike, SmtRollback}
use metashrew.Storage.Batch.{BatchOperation}
use metashrew.Sync.Error.{storage, message_of, SyncResult, ok, err}
use metashrew.Sync.Adapters.{AtomicBlockResult, StorageAdapter, RuntimeAdapter}
use metashrew.Sync.Apply.{process_block, pipeline_loop}
use metashrew.Sync.Apply.Attempts.{Commits, process_block-OnceOrNever}
use metashrew.Sync.Apply.Budget.{process_block-out_of_order}
use metashrew.Sync.Apply.Pipelined.{pipeline_loop-stuck}
use metashrew.Rocks.{
  get_indexed_height, get_block_hash, get_state_root, store_state_root, rollback_to_height,
  get_runtime_tip_height, find_max_stored_block_hash_height, heal_pointers_atomic, commit_atomic,
  is_fresh_db, saturating_add_one, out_of_order_message,
}
use metashrew.Rocks.Commit.{
  commit_atomic-ok, commit_atomic-err, commit_atomic-rejects, out_of_order-found,
}

abbrev pub rocks_adapter :
    ⦃db : KeyValueStoreLike⦄ ⦃rb : SmtRollback db⦄ (from_data : Bytes → List BatchOperation)
    → StorageAdapter
rocks_adapter ⦃db⦄ ⦃rb⦄ from_data = record {
  Store = db.Store;
  get_indexed_height = λ s. ok (get_indexed_height s);
  get_block_hash = λ s height. ok (get_block_hash s height);
  get_state_root = λ s height. ok (get_state_root s height);
  store_state_root = λ s height root. (ok tt, store_state_root s height root);
  rollback_to_height = rollback_to_height;
  get_runtime_tip_height = λ s. ok (get_runtime_tip_height s);
  find_max_stored_block_hash_height = λ s floor. ok (find_max_stored_block_hash_height s floor);
  heal_pointers_atomic = heal_pointers_atomic;
  commit_atomic = commit_atomic from_data;
  commit_atomic-err = commit_atomic-err from_data;
}

module _ ⦃db : KeyValueStoreLike⦄ ⦃rb : SmtRollback db⦄ (from_data : Bytes → List BatchOperation)
    (rt : RuntimeAdapter (rocks_adapter from_data)) where
  -- A commit moves the tip to its height, and records its hash.
  Commits-tip :
      (height : ℕ) (s t : db.Store)
      → height < u32_mod
      → Commits (rocks_adapter from_data) height s t
      → ((is_fresh_db s ≡ true) ⊎ (height ≡ saturating_add_one (get_indexed_height s)))
        × (get_indexed_height t ≡ height)
  Commits-tip height s t small c =
      let after = commit_atomic-ok from_data s t height c.hash c.root c.batch small c.commits in
      (after.0, after.1.0)

  -- With the RocksDB adapter and whatever runtime, `process_block` of a block at a height below 2^32
  -- either leaves the store as it was, or leaves it with that height as its indexed height, and then
  -- the store was fresh or the height was the one after its tip. A fresh store has the indexed
  -- height 0 and no hash of block 0; the one after 2^32 - 1 is itself.
  pub process_block-tip :
      (checked : SyncResult Bool) (height : ℕ) (body hash : Bytes) (s : db.Store) (m : rt.Machine)
      → height < u32_mod
      → (((is_fresh_db s ≡ true) ⊎ (height ≡ saturating_add_one (get_indexed_height s)))
          × (get_indexed_height
                (process_block (rocks_adapter from_data) rt checked height body hash s m).store
              ≡ height))
        ⊎ ((process_block (rocks_adapter from_data) rt checked height body hash s m).store ≡ s)
  process_block-tip checked height body hash s m small =
      elim (process_block-OnceOrNever (rocks_adapter from_data) rt checked height body hash s m) [
        | inl (r, c) ↦ inl (
            Commits-tip height s
              (process_block (rocks_adapter from_data) rt checked height body hash s m).store small
              c)
        | inr (e, (r, same)) ↦ inr same
      ]

  -- With the RocksDB adapter, on a store that is not fresh, a block whose height is not the one
  -- after the tip, which passed the continuity check and which the runtime executes, is given up
  -- after one attempt and no sleep, with the out-of-order message as a storage error and the store
  -- unchanged.
  pub process_block-gap :
      (height : ℕ) (body hash : Bytes) (s : db.Store) (m n : rt.Machine) (r : AtomicBlockResult)
      → is_fresh_db s ≡ false
      → height ≢ saturating_add_one (get_indexed_height s)
      → rt.process_block_atomic m s height body hash ≡ (ok r, n)
      → process_block (rocks_adapter from_data) rt (ok true) height body hash s m ≡ record {
        result = err (
            storage (
              codes "commit_atomic: "
              ++ message_of (storage (out_of_order_message height (get_indexed_height s)))));
        store = s;
        machine = n;
        attempts = 1;
        slept_ms = 0;
      }
  process_block-gap height body hash s m n r old gap ran =
      process_block-out_of_order (rocks_adapter from_data) rt height body hash s m n r
        (storage (out_of_order_message height (get_indexed_height s))) ran
        (commit_atomic-rejects from_data s height r.block_hash r.state_root r.batch_data old gap)
        (out_of_order-found height (get_indexed_height s))

  -- With the RocksDB adapter, on a store that is not fresh, the pipeline's `process_block` of a
  -- block at a height below 2^32 that is not the one after the tip has not returned after any number
  -- of attempts, whatever the runtime does.
  pub pipeline_loop-gap :
      (height : ℕ) (body hash : Bytes) (fuel done slept : ℕ) (s : db.Store) (m : rt.Machine)
      → height < u32_mod
      → is_fresh_db s ≡ false
      → height ≢ saturating_add_one (get_indexed_height s)
      → pipeline_loop (rocks_adapter from_data) rt height body hash fuel done slept s m ≡ none
  pipeline_loop-gap height body hash fuel done slept s m small old gap =
      pipeline_loop-stuck (rocks_adapter from_data) rt height body hash fuel done slept s m
        (λ t c. in_order t (Commits-tip height s t small c).0)
    where
      in_order :
          (t : db.Store)
          → (is_fresh_db s ≡ true) ⊎ (height ≡ saturating_add_one (get_indexed_height s))
          → ⊥
      in_order t (inl fresh) = ground (arith, old, fresh)
      in_order t (inr next) = absurd (gap next)
