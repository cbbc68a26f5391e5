-- ===== src/Runtime/Process.antt =====
-- The run of a block: `run`, `process_block`, `process_block_atomic`, `refresh_memory`,
-- `calculate_state_root`, `get_accumulated_batch` and the deprecated `handle_reorg` of
-- crates/metashrew-runtime/src/runtime.rs. Each returns its result with the host that it leaves.
use metashrew.Prelude.{
  ℕ, zero, suc, ◌+◌, ◌-◌, ◌%◌, Bool, true, false, not, ◌&&◌, Option, none, some, List, [], ◌∷◌,
  ◌++◌, Bytes, length, take, ltb, leb, ◌==◌, if◌then◌else◌,
}
use metashrew.RustStd.Decimal.{u32_mod}
use metashrew.RustStd.Words.{to_le_bytes, from_le_bytes}
use metashrew.Keys.Layout.{tip_height_key, root_key}
use metashrew.Error.{
  Error, Result, ok, err, no_start, wasm_trap, exited_unexpectedly, host_failure, refresh_failed,
  flush_failed, ◌>>=◌, too_far_ahead,
}
use metashrew.Storage.{KeyValueStoreLike}
use metashrew.Storage.Batch.{BatchOperation, put, delete}
use metashrew.Block.{Hash, get_smt_root_at_height}
use metashrew.Tree.Root.{get_current_state_root}
use metashrew.Rollback.Keywise.{rollback_to_height_to_batch}
use metashrew.Sync.Adapters.{AtomicBlockResult}
use metashrew.Runtime.{Host}
use metashrew.Runtime.Memory.{read_arraybuffer_as_vec}

-- What wasmtime does: whether the module has `_start`, what its run makes of the host and whether
-- it traps, and whether a new instance can be made.
pub record Engine ⦃db : KeyValueStoreLike⦄ : Type 0 where
  pub has_start : Bool
  pub start : Host → Host × Bool
  pub instantiates : Bool

unfoldable pub unwrap_or_default : Option Bytes → Bytes
unwrap_or_default none = []
unwrap_or_default (some b) = b

module _ ⦃db : KeyValueStoreLike⦄ where
  -- `MetashrewRuntimeContext::new`, with a new instance.
  unfoldable pub new_host : db.Store → ℕ → Bytes → Host
  new_host s height block = record {
    context = record {
      store = s;
      height = height;
      block = block;
      state = 0;
      current_block_hash = [];
      pending_atomic_batch = none;
    };
    had_failure = false;
    last_flush_error = none;
  }

  -- The block and its hash in the context, with the state cleared.
  unfoldable pub set_block : Host → ℕ → Bytes → Bytes → Host
  set_block w height block_data block_hash = record w {
    context = record w.context {
      block = block_data;
      height = height;
      current_block_hash = block_hash;
      state = 0;
    };
  }

  unfoldable pub set_slot : Host → Option Bytes → Host
  set_slot w slot = record w { context = record w.context { pending_atomic_batch = slot } }

  unfoldable pub refresh_memory : Engine → Host → Result (Unit {0}) × Host
  refresh_memory e w =
      if e.instantiates
      then (ok tt, record w { had_failure = false; last_flush_error = none })
      else (err refresh_failed, w)

  -- What the host says of a run that ended without a trap.
  unfoldable pub verdict : Option Error → ℕ → Bool → Result (Unit {0})
  verdict (some msg) state had_failure = err (flush_failed msg)
  verdict none state had_failure =
      if not (state == 1) && not had_failure
      then err exited_unexpectedly
      else if had_failure
      then err host_failure
      else ok tt

  unfoldable pub outcome : Host × Bool → Result (Unit {0}) × Host
  unfolding verdict
  outcome (w, false) = (err wasm_trap, w)
  outcome (w, true) = (verdict w.last_flush_error w.context.state w.had_failure, w)

  -- The call of `_start`, with the error of the block before cleared.
  unfoldable pub execute : Engine → Host → Result (Unit {0}) × Host
  unfolding outcome
  execute e w = outcome (e.start (record w { last_flush_error = none }))

  -- The memory is refreshed whatever the run gave; a failure of that is the result.
  unfoldable pub refreshed : Engine → Result (Unit {0}) × Host → Result (Unit {0}) × Host
  unfolding refresh_memory
  refreshed e (result, w) = ((refresh_memory e w).0 >>= λ u. result, (refresh_memory e w).1)

  unfoldable pub run : Engine → Host → Result (Unit {0}) × Host
  unfolding execute refreshed
  run e w =
      let w0 : Host = record w {
        context = record w.context { state = 0 };
        last_flush_error = none;
      } in
      if e.has_start then refreshed e (execute e w0) else (err no_start, w0)

  unfoldable pub process_block : Engine → Host → ℕ → Bytes → Result (Unit {0}) × Host
  unfolding run set_block
  process_block e w height block_data = run e (set_block w height block_data [])

  unfoldable pub calculate_state_root : db.Store → Hash
  calculate_state_root s = get_current_state_root s

  unfoldable pub get_accumulated_batch : db.Store → Bytes
  get_accumulated_batch s = []

  -- After the run: the root and the batch, and the slot disarmed, or the error.
  unfoldable pub finish_atomic :
      Engine → ℕ → Bytes → Result (Unit {0}) × Host → Result AtomicBlockResult × Host
  unfolding refresh_memory unwrap_or_default set_slot calculate_state_root
  finish_atomic e height block_hash (err reason, w) =
      (err reason, (refresh_memory e (set_slot w none)).1)
  finish_atomic e height block_hash (ok u, w) = (
    (refresh_memory e (set_slot w none)).0 >>= λ u. ok (record {
      state_root = calculate_state_root w.context.store;
      batch_data = unwrap_or_default w.context.pending_atomic_batch;
      height = height;
      block_hash = block_hash;
    }),
    (refresh_memory e (set_slot w none)).1,
  )

  unfoldable pub process_block_atomic :
      Engine → Host → ℕ → Bytes → Bytes → Result AtomicBlockResult × Host
  unfolding execute finish_atomic set_block set_slot
  process_block_atomic e w height block_data block_hash =
      let w0 : Host = set_block (set_slot w (some [])) height block_data block_hash in
      if e.has_start
      then finish_atomic e height block_hash (execute e w0)
      else (err no_start, record w0 { last_flush_error = none })

  -- `view_with_limits`: a new instance over the database, its input as the block; what wasmtime does is
  -- `call`, which gives the memory and the pointer that the function returned.
  unfoldable pub view_with_limits :
      (call : Host → Bytes → Result (Bytes × ℕ)) → db.Store → Bytes → Bytes → ℕ → Result Bytes
  unfolding new_host
  view_with_limits call s symbol input height =
      call (new_host s height input) symbol >>= λ r. ok (read_arraybuffer_as_vec r.0 r.1)

  unfoldable pub get_state_root : db.Store → ℕ → Result Hash
  get_state_root s height = get_smt_root_at_height s height

  -- `(context_height..=db_tip_height).rev()`, by the roots left.
  root_deletions : ℕ → ℕ → List BatchOperation
  root_deletions context_height zero = []
  root_deletions context_height (suc left) =
      delete (root_key (context_height + left)) ∷ root_deletions context_height left

  tip_of : Option Bytes → ℕ
  tip_of none = 0
  tip_of (some bytes) = if leb 4 (length bytes) then from_le_bytes (take 4 bytes) else 0

  unfoldable pub handle_reorg : Host → Result (Unit {0}) × Host
  unfolding root_deletions tip_of
  handle_reorg w =
      let s = w.context.store in
      let context_height = w.context.height in
      let tip = tip_of (db.get_immutable s tip_height_key) in
      let target_height = context_height - 1 in
      if ltb ((tip + 1) % u32_mod) context_height
      then (err (too_far_ahead context_height tip), w)
      else if not (ltb context_height tip)
      then (ok tt, w)
      else if context_height == 0
      then (ok tt, w)
      else (
        ok tt,
        record w {
          context = record w.context {
            store = db.write s (
                rollback_to_height_to_batch s
                  (root_deletions context_height (tip + 1 - context_height)) target_height
                ++ put tip_height_key (to_le_bytes target_height) ∷ []);
          };
        },
      )
