-- ===== src/Runtime/Indexing.antt =====
-- A block of an indexer that is a program over the guest library, run by the runtime of
-- crates/metashrew-runtime/src/runtime.rs.
use metashrew.Prelude.{
  ℕ, ◌+◌, ◌<◌, ◌^◌, ◌≡◌, refl, sym, ◌∙◌, ap, Bool, true, false, Option, none, some, List, [], ◌∷◌,
  append-nil, Bytes, length, arith,
}
use metashrew.Error.{Error, Result, ok, err}
use metashrew.Storage.{KeyValueStoreLike, HexCodec}
use metashrew.Storage.Batch.{BatchOperation}
use metashrew.Block.{build_state_root_batch_unwritten, calculate_and_store_state_root_batched}
use metashrew.Block.Effect.{indexed, block_batch}
use metashrew.Tree.Root.{get_current_state_root}
use metashrew.Guest.{FlushCodec, GuestState}
use metashrew.Guest.Calls.{pairs}
use metashrew.Guest.Program.{Program, ReadsShort, final_view, written, run_start, run_start-flushes}
use metashrew.Runtime.{Host, tuples, target_height}
use metashrew.Runtime.Memory.{
  LinearMemory, try_read_arraybuffer_as_vec, to_arraybuffer_layout, try_read-to_arraybuffer_layout,
}
use metashrew.Runtime.HostFunctions.{
  lookup_value, decode_flush, flush_updates, indexer_flush, set_state,
}
use metashrew.Runtime.Process.{
  Engine, run, process_block, process_block_atomic, execute, refreshed, refresh_memory, set_block,
  set_slot, verdict, outcome, finish_atomic, unwrap_or_default, calculate_state_root,
}
use metashrew.Runtime.Serving.{indexer_imports, FitsBuffer, indexer_imports-ServesValues}

-- The written keys with their final values, in the order of the writes.
abbrev pub entries : (Bytes → Bytes) → List Bytes → List (Bytes × Bytes)
entries f [] = []
entries f (k ∷ keys) = (k, f k) ∷ entries f keys

tuples-pairs : (f : Bytes → Bytes) (keys : List Bytes) → tuples (pairs f keys) ≡ entries f keys
unfolding tuples
tuples-pairs f [] = refl
tuples-pairs f (k ∷ keys) = ap (λ l. (k, f k) ∷ l) (tuples-pairs f keys)

module _ ⦃db : KeyValueStoreLike⦄ ⦃hex : HexCodec⦄ ⦃codec : FlushCodec⦄ where
  pub decode_flush_lem :
      (l : List Bytes)
      → length (codec.encode l) + 4 < 2 ^ 31
      → decode_flush (some (to_arraybuffer_layout (codec.encode l))) 4 ≡ some (tuples l)
  unfolding decode_flush
  decode_flush_lem l small =
      rw
        (
          decode_flush,
          ap (λ (m : Bytes). try_read_arraybuffer_as_vec m 4)
                (sym (append-nil (to_arraybuffer_layout (codec.encode l))))
              ∙ try_read-to_arraybuffer_layout [] (codec.encode l) [] (omega arith),
          codec.decode-encode l,
        )
        refl

module _ ⦃db : KeyValueStoreLike⦄ ⦃hex : HexCodec⦄ ⦃codec : FlushCodec⦄
    (to_bytes : List BatchOperation → Bytes) where
  flush_lem :
      (w : Host) (f : Bytes → Bytes) (keys : List Bytes)
      → length (codec.encode (pairs f keys)) + 4 < 2 ^ 31
      → indexer_flush to_bytes w (some (to_arraybuffer_layout (codec.encode (pairs f keys)))) 4
        ≡ flush_updates to_bytes w (entries f keys) w.context.pending_atomic_batch
  unfolding indexer_flush
  flush_lem w f keys small =
      rw (indexer_flush, decode_flush_lem (pairs f keys) small, tuples-pairs f keys) refl

module _ ⦃db : KeyValueStoreLike⦄ where
  -- Between blocks: no failure, no slot, and whatever the block before left.
  abbrev pub idle : db.Store → ℕ → Bytes → ℕ → Bytes → Option Error → Host
  idle s height block state hash last_flush_error = record {
    context = record {
      store = s;
      height = height;
      block = block;
      state = state;
      current_block_hash = hash;
      pending_atomic_batch = none;
    };
    had_failure = false;
    last_flush_error = last_flush_error;
  }

module _ ⦃db : KeyValueStoreLike⦄ where
  -- A panic of the library is a trap.
  unfoldable pub after_start : Host → Result (GuestState × Host) → Host × Bool
  after_start w (ok (g, w')) = (w', true)
  after_start w (err e) = (w, false)

module _ ⦃db : KeyValueStoreLike⦄ ⦃hex : HexCodec⦄ where
  -- The updates that the program makes of a block at a height, from the store before.
  abbrev pub updates_by : Program → db.Store → ℕ → List (Bytes × Bytes)
  updates_by p s height =
      let f = lookup_value s (target_height height) in entries (final_view p f) (written p f)

module _ ⦃db : KeyValueStoreLike⦄ ⦃hex : HexCodec⦄ ⦃codec : FlushCodec⦄ where
  -- The program reads short keys, every value before fits a buffer, and so do the updates.
  pub record Fitting (p : Program) (s : db.Store) (height : ℕ) : Type 0 where
    pub values : FitsBuffer (lookup_value s (target_height height))
    pub reads : ReadsShort p (lookup_value s (target_height height))
    pub flushed :
        length (
            codec.encode (
              pairs
                (final_view p (lookup_value s (target_height height)))
                (written p (lookup_value s (target_height height)))))
          + 4
        < 2 ^ 31

module _ ⦃db : KeyValueStoreLike⦄ ⦃hex : HexCodec⦄ ⦃lm : LinearMemory⦄ ⦃codec : FlushCodec⦄
    (to_bytes : List BatchOperation → Bytes) where
  -- An engine whose module is the program.
  unfoldable pub program_engine : Program → Engine
  unfolding after_start
  program_engine p = record {
    has_start = true;
    start = λ w. after_start w (run_start ⦃im = indexer_imports to_bytes⦄ w p);
    instantiates = true;
  }

  start_lem :
      (p : Program) (w : Host)
      → Fitting p w.context.store w.context.height
      → (program_engine p).start w ≡ (
        flush_updates to_bytes w
            (updates_by p w.context.store w.context.height)
            w.context.pending_atomic_batch,
        true,
      )
  unfolding program_engine after_start
  start_lem p w fit =
      let f = lookup_value w.context.store (target_height w.context.height) in
      let (g, ran, seen) =
        run_start-flushes ⦃im = indexer_imports to_bytes⦄ f w p
          (indexer_imports-ServesValues to_bytes w fit.values) fit.reads in
      ap (after_start w) ran
      ∙ ap (λ (h : Host). (h, true))
          (flush_lem to_bytes w (final_view p f) (written p f) fit.flushed)

  -- Without the slot armed, the block is written.
  pub process_block-indexes :
      (p : Program) (s : db.Store) (height g st : ℕ) (block_data b hash : Bytes) (le : Option Error)
      → Fitting p s height
      → process_block (program_engine p) (idle s g b st hash le) height block_data
        ≡ (ok tt, idle (indexed s height (updates_by p s height)) height block_data 1 [] none)
  unfolding process_block run set_block execute program_engine flush_updates set_state outcome
      verdict refreshed refresh_memory calculate_and_store_state_root_batched
      build_state_root_batch_unwritten
  process_block-indexes p s height g st block_data b hash le fit =
      ap (λ (r : Host × Bool). refreshed (program_engine p) (outcome r))
        (start_lem p (idle s height block_data 0 [] none) fit)

  -- The host with the slot armed for a block.
  abbrev armed : db.Store → ℕ → Bytes → Bytes → Host
  armed s height block_data block_hash =
      set_slot (idle s height block_data 0 block_hash none) (some [])

  -- With the slot armed, the batch is returned and the store left alone; the root is the one that
  -- the store shows.
  pub process_block_atomic-builds :
      (p : Program) (s : db.Store) (height g st : ℕ) (block_data block_hash b hash : Bytes)
      (le : Option Error)
      → Fitting p s height
      → process_block_atomic (program_engine p) (idle s g b st hash le) height block_data block_hash
        ≡ (
          ok (record {
            state_root = get_current_state_root s;
            batch_data = to_bytes (block_batch s height (updates_by p s height));
            height = height;
            block_hash = block_hash;
          }),
          idle s height block_data 1 block_hash none,
        )
  unfolding process_block_atomic finish_atomic set_block set_slot execute program_engine
      flush_updates set_state outcome verdict refresh_memory build_state_root_batch_unwritten
      unwrap_or_default calculate_state_root
  process_block_atomic-builds p s height g st block_data block_hash b hash le fit =
      ap (λ (r : Host × Bool). finish_atomic (program_engine p) height block_hash (outcome r))
        (start_lem p (armed s height block_data block_hash) fit)
