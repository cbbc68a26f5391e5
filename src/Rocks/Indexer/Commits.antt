-- ===== src/Rocks/Indexer/Commits.antt =====
-- A block of an indexer from its program to the store that the sync engine commits.
use metashrew.Prelude.{
  ℕ, suc, ◌+◌, ◌<◌, ◌≡◌, ◌≢◌, refl, sym, ◌∙◌, ap, true, ◌⊎◌, inl, inr, Option, none, some, List,
  ◌++◌, Bytes, codes, All, IsByte, length, leb, if◌then◌else◌, arith,
}
use metashrew.RustStd.Decimal.{u32_mod, to_string, to_string-ne, to_string-Lacks}
use metashrew.Error.{Error, Result}
use metashrew.Keys.Layout.{slash, length_key, update_key, root_key, height_to_hash_key}
use metashrew.Keys.Layout.Distinct.{
  IsUserKey, last_split, length_key-ne-block_key, update_key-ne-block_key, root, height_to_hash,
}
use metashrew.Storage.{KeyValueStoreLike, SmtRollback, HexCodec}
use metashrew.Storage.Batch.{BatchOperation, replay}
use metashrew.Append.History.{History}
use metashrew.Append.Represents.{Represents, Represents-agree, behind}
use metashrew.Block.Effect.{block_batch, Represents-block_batch}
use metashrew.Block.Updates.{updates_of}
use metashrew.Tree.Root.{get_current_state_root}
use metashrew.Guest.{FlushCodec}
use metashrew.Guest.Program.{Program, final_view}
use metashrew.Runtime.{Host}
use metashrew.Runtime.Memory.{LinearMemory}
use metashrew.Runtime.HostFunctions.{lookup_value}
use metashrew.Runtime.Indexing.{
  updates_by, Fitting, idle, program_engine, process_block_atomic-builds,
}
use metashrew.Runtime.Views.{Holds, lookup_value-appended}
use metashrew.Sync.Error.{ok}
use metashrew.Sync.Adapters.{AtomicBlockResult, StorageAdapter, RuntimeAdapter}
use metashrew.Sync.Retry.{atomic_retry_backoff_ms}
use metashrew.Sync.Apply.{
  Applied, committed, process_block, attempt_block, after_execution, after_commit, apply_loop,
}
use metashrew.Rocks.{
  indexed_height_key, get_indexed_height, get_block_hash, saturating_add_one, wasm_batch,
  commit_batch, is_fresh_db, commit_atomic,
}
use metashrew.Rocks.Commit.{commit-others, commit_atomic-ok}
use metashrew.Rocks.Engine.{rocks_adapter}
use metashrew.Rocks.Indexer.{adapt, with_store, run_atomic, runtime_adapter}

length_key-ne-indexed : (k : Bytes) → length_key k ≢ indexed_height_key
unfolding length_key
length_key-ne-indexed k e =
    letters_ne
      (last_split slash k (codes "__INTERNAL") (codes "length") (codes "height") (omega arith)
        (omega arith) e).1
  where
    letters_ne : codes "length" ≢ codes "height"
    letters_ne p = ground arith

update_key-ne-indexed : (k : Bytes) (i : ℕ) → update_key k i ≢ indexed_height_key
unfolding update_key
update_key-ne-indexed k i e =
    to_string-ne i b'h' (codes "eight") (inr (omega arith))
      (last_split slash k (codes "__INTERNAL") (to_string i) (codes "height")
        (to_string-Lacks slash i (inl (omega arith))) (omega arith) e).1

module _ ⦃db : KeyValueStoreLike⦄ ⦃rb : SmtRollback db⦄ ⦃hex : HexCodec⦄
    (from_data : Bytes → List BatchOperation) where
  commit_accepted :
      (s : db.Store) (height : ℕ) (hash state_root batch : Bytes)
      → (is_fresh_db s ≡ true) ⊎ (height ≡ saturating_add_one (get_indexed_height s))
      → commit_atomic from_data s height hash state_root batch
        ≡ (ok tt, rb.apply_atomic s (commit_batch from_data height hash state_root batch))
  unfolding commit_atomic
  commit_accepted s height hash state_root batch (inl fresh) = rw fresh refl
  commit_accepted s height hash state_root batch (inr next) = ground (arith, next)

  -- A commit of a block's batch leaves of a user key its history with the block's updates.
  Represents-commit :
      (s : db.Store) (height : ℕ) (kvs : List (Bytes × Bytes)) (hash state_root batch key : Bytes)
      (hist : History)
      → wasm_batch from_data batch ≡ block_batch s height kvs
      → IsUserKey key
      → height < u32_mod
      → All (λ kv. All IsByte kv.1) kvs
      → length hist + length kvs < u32_mod
      → Represents (db.get_immutable s) key hist
      → Represents
          (db.get_immutable
            (rb.apply_atomic s (commit_batch from_data height hash state_root batch)))
          key
          (hist ++ updates_of key height kvs)
  Represents-commit s height kvs hash state_root batch key hist trip user small bytes room r =
      let t = rb.apply_atomic s (commit_batch from_data height hash state_root batch) in
      let read : (k : Bytes)
          → height_to_hash_key height ≢ k
          → root_key height ≢ k
          → indexed_height_key ≢ k
          → db.get_immutable t k ≡ behind (block_batch s height kvs) (db.get_immutable s) k =
        λ k a b c.
          sym (rb.get_value_lem t k)
          ∙ commit-others from_data s height hash state_root batch k a b c
          ∙ ap (λ (ops : List BatchOperation). replay ops k (rb.get_value s k)) trip
          ∙ ap (replay (block_batch s height kvs) k) (rb.get_value_lem s k) in
      Represents-agree (behind (block_batch s height kvs) (db.get_immutable s)) (db.get_immutable t)
        key (hist ++ updates_of key height kvs)
        (read (length_key key) (λ e. length_key-ne-block_key key height _ height_to_hash (sym e))
          (λ e. length_key-ne-block_key key height _ root (sym e))
          (λ e. length_key-ne-indexed key (sym e)))
        (λ i _.
          read (update_key key i)
            (λ e. update_key-ne-block_key key i height _ user height_to_hash (sym e))
            (λ e. update_key-ne-block_key key i height _ user root (sym e))
            (λ e. update_key-ne-indexed key i (sym e)))
        (Represents-block_batch s height kvs key hist user small bytes room r)

module _ (st : StorageAdapter) (rt : RuntimeAdapter st) where
  apply_once :
      (height : ℕ) (block_data block_hash : Bytes) (left : ℕ) (s t : st.Store) (m n : rt.Machine)
      → attempt_block st rt height block_data block_hash s m ≡ committed t n
      → apply_loop st rt height block_data block_hash (suc left) 0 0 none s m
        ≡ record { result = ok tt; store = t; machine = n; attempts = 1; slept_ms = 0 }
  unfolding atomic_retry_backoff_ms apply_loop
  apply_once height block_data block_hash left s t m n e = rw (apply_loop, e) refl

module _ ⦃db : KeyValueStoreLike⦄ ⦃rb : SmtRollback db⦄ ⦃hex : HexCodec⦄ ⦃lm : LinearMemory⦄
    ⦃codec : FlushCodec⦄ (from_data : Bytes → List BatchOperation)
    (to_bytes : List BatchOperation → Bytes) (text : Error → Bytes)
    (trip : (ops : List BatchOperation) → wasm_batch from_data (to_bytes ops) ≡ ops) where
  -- The state of the engine after a block that the program made.
  abbrev pub applied : Program → db.Store → ℕ → Bytes → Bytes → Host → Applied db.Store Host
  applied p s height block_data block_hash w =
      process_block (rocks_adapter from_data)
        (runtime_adapter from_data (program_engine to_bytes p) text) (ok true) height block_data
        block_hash s w

  first_attempt :
      (p : Program) (s r : db.Store) (height g st : ℕ) (block_data block_hash b hash : Bytes)
      (le : Option Error)
      → Fitting p s height
      → (is_fresh_db s ≡ true) ⊎ (height ≡ saturating_add_one (get_indexed_height s))
      → applied p s height block_data block_hash (idle r g b st hash le) ≡ record {
        result = ok tt;
        store = rb.apply_atomic s (
            commit_batch from_data height block_hash
              (get_current_state_root s)
              (to_bytes (block_batch s height (updates_by p s height))));
        machine = idle s height block_data 1 block_hash none;
        attempts = 1;
        slept_ms = 0;
      }
  unfolding run_atomic adapt with_store process_block apply_loop attempt_block after_execution
      after_commit
  first_attempt p s r height g st block_data block_hash b hash le fit next =
      apply_once (rocks_adapter from_data)
        (runtime_adapter from_data (program_engine to_bytes p) text) height block_data block_hash 29
        s _ (idle r g b st hash le) (idle s height block_data 1 block_hash none)
        (ap
            (λ (ran : Result AtomicBlockResult × Host).
              after_execution (rocks_adapter from_data)
                (runtime_adapter from_data (program_engine to_bytes p) text) height s
                (adapt text ran.0 ran.1))
            (process_block_atomic-builds to_bytes p s height g st block_data block_hash b hash le
              fit)
          ∙ ap
              (after_commit (rocks_adapter from_data)
                (runtime_adapter from_data (program_engine to_bytes p) text)
                (idle s height block_data 1 block_hash none))
              (commit_accepted from_data s height block_hash (get_current_state_root s) _ next))

  -- Let the store hold of a user key a sorted history that ends at height t, with room for the
  -- block, and be fresh or have t as its tip; let an indexer be a program that reads short keys and
  -- writes, run between blocks with no failure left, with every value at t within a buffer, as the
  -- updates are, its updates bytes and t + 1 a u32; and let a batch be read back from its bytes.
  -- With the RocksDB adapter, `process_block` of a block at t + 1 that passed the continuity check
  -- then commits it at the first attempt. The store has t + 1 as its indexed height and the block's
  -- hash; reads of the key at t + 1 and above return its value in the map that the program ends
  -- with, run from the values at t, and reads below return what they returned before.
  pub process_block-final_view :
      (p : Program) (s r : db.Store) (t g st : ℕ) (block_data block_hash b hash : Bytes)
      (le : Option Error) (key : Bytes) (hist : History)
      → Fitting p s (suc t)
      → (is_fresh_db s ≡ true) ⊎ (suc t ≡ saturating_add_one (get_indexed_height s))
      → suc t < u32_mod
      → Holds s t (length (updates_by p s (suc t))) key hist
      → All (λ kv. All IsByte kv.1) (updates_by p s (suc t))
      → (after : Applied db.Store Host) × (applied p s
            (suc t)
            block_data
            block_hash
            (idle r g b st hash le)
          ≡ after)
        × (after.result ≡ ok tt)
        × (after.attempts ≡ 1)
        × (get_indexed_height after.store ≡ suc t)
        × (get_block_hash after.store (suc t) ≡ some block_hash)
        × ((j : ℕ)
            → lookup_value after.store j key ≡ (
                if leb (suc t) j
                then final_view p (lookup_value s t) key
                else lookup_value s j key))
  process_block-final_view p s r t g st block_data block_hash b hash le key hist fit next small
        holds bytes =
      let kvs = updates_by p s (suc t) in
      let root' = get_current_state_root s in
      let batch = to_bytes (block_batch s (suc t) kvs) in
      let s' = rb.apply_atomic s (commit_batch from_data (suc t) block_hash root' batch) in
      let done =
        commit_atomic-ok from_data s s' (suc t) block_hash root' batch small
          (commit_accepted from_data s (suc t) block_hash root' batch next) in
      (
        record {
          result = ok tt;
          store = s';
          machine = idle s (suc t) block_data 1 block_hash none;
          attempts = 1;
          slept_ms = 0;
        },
        first_attempt p s r (suc t) g st block_data block_hash b hash le fit next,
        refl,
        refl,
        done.1.0,
        done.1.1,
        λ j. lookup_value-appended p s s' t key hist j holds (
            Represents-commit from_data s (suc t) kvs block_hash root' batch key hist
              (trip (block_batch s (suc t) kvs)) holds.user small bytes (omega (arith, holds.room))
              holds.stored),
      )
