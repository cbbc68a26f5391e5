-- ===== src/GuestTests.antt =====
-- The guest library, the WASM runtime over the in-memory backend, and the pointers, each theorem at a
-- small input.
mod Codecs
use metashrew.Prelude.{
  ℕ, zero, suc, ◌+◌, ◌≤◌, ◌<◌, ◌≡◌, refl, ap, inl, inr, true, false, Option, none, some, List, [],
  ◌∷◌, ◌++◌, append_assoc, Bytes, All, IsByte, codes, length, length-append, take, drop,
  take-append, drop-append, leb, bytes_eq, if◌then◌else◌, arith, ◌∙◌, sym,
}
use metashrew.Error.{ok}
use metashrew.Keys.{encode_hex_fast}
use metashrew.Keys.Hex.{decode_hex, decode-encode_hex_fast, encode_hex_fast-IsAscii}
use metashrew.Keys.Layout.{length_key}
use metashrew.Storage.{KeyValueStoreLike, SmtRollback, HexCodec}
use metashrew.Storage.Batch.{BatchOperation, put, delete}
use metashrew.Storage.Memory.{MemStoreAdapter, get_immutable, lookup, get_value}
use metashrew.Storage.Memory.Laws.{mem_store, mem_rollback}
use metashrew.Guest.{FlushCodec}
use metashrew.Guest.Program.{Program, finish, read, write}
use metashrew.Runtime.Memory.{LinearMemory, to_arraybuffer_layout}
use metashrew.Append.{get_at_height}
use metashrew.Guest.Program.{updated, final_view, written}
use metashrew.Rocks.{wasm_batch, is_fresh_db, get_indexed_height}
use metashrew.Runtime.{target_height, found_or_empty, tuples}
use metashrew.Runtime.HostFunctions.{lookup_value}
use metashrew.Runtime.Indexing.{updates_by, Fitting}
use metashrew.Runtime.Views.{Holds}
use metashrew.Runtime.ViewLimits
use metashrew.Runtime.ViewLimits.{ViewLimiter, run_events_bounds}
use metashrew.Runtime.Flushes.{indexer_flush_twice}
use metashrew.Runtime.HostFunctions.{decode_flush, indexer_flush}
use metashrew.Runtime.{Host}
use metashrew.Runtime.Process.{new_host}
use metashrew.Runtime.Indexing.{idle, decode_flush_lem}
use metashrew.Runtime.Serving.{indexer_imports, indexer_imports-ServesValues, indexer_view}
use metashrew.Rocks.{get_block_hash, read_u32, is_none}
use metashrew.Rocks.Indexer.Commits.{applied, process_block-final_view}
use metashrew.Sync.Error.{SyncResult}
use metashrew.Sync.Apply.{Applied}
use metashrew.Guest.{GuestState}
use metashrew.Guest.View.{view}
use metashrew.Guest.Calls.{pairs}
use metashrew.Guest.Program.{run_start, run_start-flushes}
use metashrew.Block.Effect.{block_batch}
use metashrew.Pointer.{Cells, get_list}
use metashrew.Pointer
use metashrew.Pointer.Lists.{ListAt, append-pop}
use metashrew.Pointer.Checkpoint
use metashrew.Pointer.Checkpoint.{AtomicPointer, overlay, checkpoint-rollback-commit}
use metashrew.GuestTests.Codecs.{
  raised, encode_list, flush_codec, batch_bytes, batch_of, batch_of-batch_bytes, linear_memory,
  hex_of_bytes, database, database_rollback,
}

-- An indexer that writes, and writes again what it reads with one byte more.
abbrev counter : Program
counter = write (codes "n") (9 ∷ []) (read (codes "n") (λ v. write (codes "n") (1 ∷ v) finish))

abbrev empty : MemStoreAdapter
empty = record { db = []; height = 0 }

empty_reads : (k : Bytes) → lookup_value empty 0 k ≡ []
unfolding lookup_value found_or_empty get_at_height lookup get_immutable
empty_reads k = refl

counter-Fitting : Fitting counter empty 1
unfolding target_height final_view written updated bytes_eq encode_list raised
counter-Fitting = record {
  values = λ k. omega (arith, ap length (empty_reads k));
  reads = (omega arith, tt);
  flushed = omega arith;
}

n-Holds : Holds empty 0 (length (updates_by counter empty 1)) (codes "n") []
unfolding target_height written updated lookup length_key get_immutable
n-Holds = record {
  user = (λ e. ground arith, λ e. ground arith);
  stored = record {
    stored = inr (refl, refl);
    entries = λ i h v e. cc;
    fits = tt;
    short = omega arith;
  };
  sorted = tt;
  old = tt;
  room = omega arith;
}

empty-fresh : is_fresh_db empty ≡ true
unfolding is_fresh_db get_indexed_height get_block_hash read_u32 is_none get_value lookup
empty-fresh = refl

counter-bytes : All (λ kv. All IsByte kv.1) (updates_by counter empty 1)
unfolding target_height written updated final_view bytes_eq
counter-bytes = omega arith

process_block-final_view_example :
    (after : Applied MemStoreAdapter Host) × (applied batch_of batch_bytes
        (λ e. codes "error")
        batch_of-batch_bytes
        counter
        empty
        1
        []
        (5 ∷ [])
        (idle empty 0 [] 0 [] none)
      ≡ after)
    × (after.result ≡ SyncResult.ok tt)
    × (after.attempts ≡ 1)
    × (get_indexed_height after.store ≡ 1)
    × (get_block_hash after.store 1 ≡ some (5 ∷ []))
    × ((j : ℕ)
        → lookup_value after.store j (codes "n") ≡ (
            if leb 1 j
            then final_view counter (lookup_value empty 0) (codes "n")
            else lookup_value empty j (codes "n")))
process_block-final_view_example =
    process_block-final_view batch_of batch_bytes (λ e. codes "error") batch_of-batch_bytes counter
      empty empty 0 0 0 [] (5 ∷ []) [] [] none (codes "n") [] counter-Fitting (inl empty-fresh)
      (omega arith) n-Holds counter-bytes

run_start-flushes_example :
    (s : GuestState) × (run_start ⦃im = indexer_imports batch_bytes⦄ (new_host empty 1 []) counter
      ≡ ok (
          (
            s,
            indexer_flush batch_bytes
                (new_host empty 1 [])
                (some (
                  to_arraybuffer_layout (
                    encode_list (
                      pairs
                        (final_view counter (indexer_view (new_host empty 1 [])))
                        (written counter (indexer_view (new_host empty 1 [])))))))
                4,
          )))
    × (view (indexer_view (new_host empty 1 [])) s
        ≡ final_view counter (indexer_view (new_host empty 1 [])))
unfolding new_host target_height
run_start-flushes_example =
    run_start-flushes ⦃im = indexer_imports batch_bytes⦄ (indexer_view (new_host empty 1 []))
      (new_host empty 1 []) counter
      (indexer_imports-ServesValues batch_bytes (new_host empty 1 []) counter-Fitting.values)
      counter-Fitting.reads

-- Two flushes of one update each.
abbrev flush_of : ℕ → Bytes
flush_of v = to_arraybuffer_layout (encode_list (codes "n" ∷ (v ∷ []) ∷ []))

abbrev armed_host : Host
armed_host = record {
  context = record {
    store = empty;
    height = 1;
    block = [];
    state = 0;
    current_block_hash = [];
    pending_atomic_batch = some [];
  };
  had_failure = false;
  last_flush_error = none;
}

decoded : (v : ℕ) → v < 200 → decode_flush (some (flush_of v)) 4 ≡ some ((codes "n", v ∷ []) ∷ [])
unfolding tuples encode_list raised
decoded v h = decode_flush_lem (codes "n" ∷ (v ∷ []) ∷ []) (omega arith)

indexer_flush_twice_example :
    (indexer_flush batch_bytes
        (indexer_flush batch_bytes armed_host (some (flush_of 1)) 4)
        (some (flush_of 2))
        4
      ≡ indexer_flush batch_bytes armed_host (some (flush_of 2)) 4)
    × ((indexer_flush batch_bytes
          (indexer_flush batch_bytes armed_host (some (flush_of 1)) 4)
          (some (flush_of 2))
          4).context.pending_atomic_batch
        ≡ some (batch_bytes (block_batch empty 1 ((codes "n", 2 ∷ []) ∷ []))))
indexer_flush_twice_example =
    indexer_flush_twice batch_bytes armed_host [] (flush_of 1) (flush_of 2) 4 4
      ((codes "n", 1 ∷ []) ∷ []) ((codes "n", 2 ∷ []) ∷ []) refl (decoded 1 (omega arith))
      (decoded 2 (omega arith))

-- Pointers over a map.
instance abbrev map_cells : Cells
map_cells = record {
  State = Bytes → Bytes;
  get = λ s k. s k;
  set = λ s k v j. if bytes_eq k j then v else s j;
  get-set = λ s k v j. refl;
}

abbrev blank : Bytes → Bytes
blank k = []

blank-ListAt : ListAt blank (codes "k") []
blank-ListAt = record { stored = inr (refl, refl); entries = λ i v e. cc; short = omega arith }

append-pop_example :
    (t u : Bytes → Bytes) × (Pointer.append blank (codes "k") (7 ∷ []) ≡ ok t)
    × (get_list t (codes "k") ≡ ok ((7 ∷ []) ∷ []))
    × (Pointer.pop t (codes "k") ≡ ok (u, 7 ∷ []))
    × (get_list u (codes "k") ≡ ok [])
    × ListAt u (codes "k") []
append-pop_example = append-pop blank (codes "k") [] (7 ∷ []) blank-ListAt (omega arith)

checkpoint-rollback-commit_example :
    (b d : AtomicPointer) × (Checkpoint.set_all
        (Checkpoint.checkpoint (record { checkpoints = [] ∷ []; base = blank }))
        ((codes "k", 7 ∷ []) ∷ [])
      ≡ ok b)
    × ((k : Bytes)
        → Checkpoint.get b k
          ≡ overlay
              ((codes "k", 7 ∷ []) ∷ [])
              (Checkpoint.get (record { checkpoints = [] ∷ []; base = blank }))
              k)
    × (Checkpoint.rollback b ≡ record { checkpoints = [] ∷ []; base = blank })
    × (Checkpoint.commit b ≡ ok d)
    × ((k : Bytes) → Checkpoint.get d k ≡ Checkpoint.get b k)
    × (Checkpoint.checkpoint_depth d ≡ 1)
checkpoint-rollback-commit_example =
    checkpoint-rollback-commit [] [] blank ((codes "k", 7 ∷ []) ∷ [])

abbrev two_views : ViewLimits.ViewLimitsConfig
two_views = record {
  view_concurrency = 2;
  view_memory_bytes = 1000;
  view_memory_floor_bytes = 50;
  memory_floor_refresh = 10;
  acquire_timeout = 30;
}

-- The third view waits in vain, and the fourth until one of the two ends.
abbrev crowd : List ViewLimits.Event
crowd =
    ViewLimits.request 80 1 false
    ∷ ViewLimits.request 80 2 true
    ∷ ViewLimits.request 80 3 false
    ∷ ViewLimits.request 80 4 true
    ∷ ViewLimits.finish
    ∷ ViewLimits.request 20 30 true
    ∷ []

run_events_bounds_example :
    let final : ViewLimiter × ℕ =
      ViewLimits.run_events (ViewLimits.new_limiter two_views 80 0, 0) crowd in
    (final.0.available_permits + final.1 ≡ 2) × (final.1 ≤ 2)
run_events_bounds_example = run_events_bounds two_views 80 0 crowd
