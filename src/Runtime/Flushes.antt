-- ===== src/Runtime/Flushes.antt =====
-- Two calls of `__flush` (crates/metashrew-runtime/src/runtime.rs) in one block.
use metashrew.Prelude.{ℕ, ◌≡◌, refl, sym, ◌∙◌, ap, some, List, Bytes}
use metashrew.Storage.{KeyValueStoreLike, HexCodec}
use metashrew.Storage.Batch.{BatchOperation}
use metashrew.Block.{build_state_root_batch_unwritten}
use metashrew.Block.Effect.{block_batch}
use metashrew.Guest.{FlushCodec}
use metashrew.Runtime.{Host}
use metashrew.Runtime.HostFunctions.{decode_flush, flush_updates, indexer_flush, set_state}

module _ ⦃db : KeyValueStoreLike⦄ ⦃hex : HexCodec⦄ ⦃codec : FlushCodec⦄
    (to_bytes : List BatchOperation → Bytes) where
  flush_decoded :
      (w : Host) (mem : Bytes) (ptr : ℕ) (kvs : List (Bytes × Bytes))
      → decode_flush (some mem) ptr ≡ some kvs
      → indexer_flush to_bytes w (some mem) ptr
        ≡ flush_updates to_bytes w kvs w.context.pending_atomic_batch
  unfolding indexer_flush
  flush_decoded w mem ptr kvs e = rw (indexer_flush, e) refl

  -- With the slot armed, two flushes in a block, whose updates can both be read, leave what the
  -- second alone leaves: the slot holds the second's batch, built on the store without the first's,
  -- whose updates are lost.
  pub indexer_flush_twice :
      (w : Host) (slot mem mem' : Bytes) (ptr ptr' : ℕ) (kvs kvs' : List (Bytes × Bytes))
      → w.context.pending_atomic_batch ≡ some slot
      → decode_flush (some mem) ptr ≡ some kvs
      → decode_flush (some mem') ptr' ≡ some kvs'
      → (indexer_flush to_bytes (indexer_flush to_bytes w (some mem) ptr) (some mem') ptr'
          ≡ indexer_flush to_bytes w (some mem') ptr')
        × ((indexer_flush to_bytes
              (indexer_flush to_bytes w (some mem) ptr)
              (some mem')
              ptr').context.pending_atomic_batch
            ≡ some (to_bytes (block_batch w.context.store w.context.height kvs')))
  unfolding flush_updates build_state_root_batch_unwritten set_state
  indexer_flush_twice w slot mem mem' ptr ptr' kvs kvs' armed e e' =
      let first : indexer_flush to_bytes w (some mem) ptr
          ≡ flush_updates to_bytes w kvs (some slot) =
        flush_decoded w mem ptr kvs e ∙ ap (flush_updates to_bytes w kvs) armed in
      let both : indexer_flush to_bytes (indexer_flush to_bytes w (some mem) ptr) (some mem') ptr'
          ≡ flush_updates to_bytes w kvs' (some slot) =
        ap (λ (v : Host). indexer_flush to_bytes v (some mem') ptr') first
        ∙ flush_decoded (flush_updates to_bytes w kvs (some slot)) mem' ptr' kvs' e' in
      (
        both ∙ sym (flush_decoded w mem' ptr' kvs' e' ∙ ap (flush_updates to_bytes w kvs') armed),
        ap (λ (v : Host). v.context.pending_atomic_batch) both,
      )
