-- ===== src/Sync/Apply.antt =====
-- How a block is applied: `MetashrewSync::process_block`, with at most thirty attempts, and
-- `ProcessingClone::process_block` of the pipeline, which tries without end, of
-- crates/metashrew-sync/src/sync.rs. An attempt runs the block and commits what it gives. The time
-- slept and the number of attempts are part of the result.
pub mod Attempts
pub mod Budget
pub mod Pipelined
use metashrew.Prelude.{
  ℕ, zero, suc, ◌+◌, ◌-◌, ◌≡◌, Bool, true, false, Option, none, some, Bytes, codes, ◌++◌,
  if◌then◌else◌,
}
use metashrew.RustStd.Decimal.{to_string}
use metashrew.Sync.Error.{
  SyncError, storage, block_processing, message_of, SyncResult, ok, err, contains_text,
}
use metashrew.Sync.Adapters.{Outcome, AtomicBlockResult, StorageAdapter, RuntimeAdapter}
use metashrew.Sync.Retry.{atomic_retry_backoff_ms, max_atomic_commit_attempts, out_of_order}

-- What is left after one attempt: the store with the commit, or the error's text.
pub data Attempt (S M : Type 0) : Type 0 where
  committed : S → M → Attempt S M
  commit_failed : (message : Bytes) → S → M → Attempt S M
  execution_failed : (message : Bytes) → S → M → Attempt S M

pub record Applied (S M : Type 0) : Type 0 where
  pub result : SyncResult {0} Unit
  pub store : S
  pub machine : M
  pub attempts : ℕ
  pub slept_ms : ℕ

abbrev pub discontinuity : Bytes
discontinuity =
    codes "Block does not connect to previous block - possible reorg or chain inconsistency"

unfoldable pub budget_message : ℕ → Option Bytes → Bytes
budget_message height none =
    codes "process_block: commit_atomic at height "
    ++ (to_string height
        ++ codes " exceeded max-retry budget (30 attempts): last error: no error captured")
budget_message height (some last) =
    codes "process_block: commit_atomic at height "
    ++ (to_string height
        ++ (codes " exceeded max-retry budget (30 attempts): last error: " ++ last))

module _ (st : StorageAdapter) (rt : RuntimeAdapter st) where
  unfoldable pub after_commit : rt.Machine → Outcome Unit st.Store → Attempt st.Store rt.Machine
  after_commit m (ok u, t) = committed t m
  after_commit m (err e, t) = commit_failed (message_of e) t m

  unfoldable pub after_execution :
      ℕ → st.Store → Outcome AtomicBlockResult rt.Machine → Attempt st.Store rt.Machine
  after_execution height s (ok r, m) =
      after_commit m (st.commit_atomic s height r.block_hash r.state_root r.batch_data)
  after_execution height s (err e, m) = execution_failed (message_of e) s m

  unfoldable pub attempt_block :
      ℕ → Bytes → Bytes → st.Store → rt.Machine → Attempt st.Store rt.Machine
  attempt_block height block_data block_hash s m =
      after_execution height s (rt.process_block_atomic m s height block_data block_hash)

  -- `refresh_memory` between the attempts; its failure is only logged.
  abbrev pub refreshed : rt.Machine → rt.Machine
  refreshed m = (rt.refresh_memory m).1

  -- The loop of `MetashrewSync::process_block`, by the attempts that are left.
  unfoldable pub apply_loop :
      ℕ
      → Bytes
      → Bytes
      → (left done slept : ℕ) → Option Bytes
      → st.Store
      → rt.Machine
      → Applied st.Store rt.Machine
  apply_loop height block_data block_hash zero done slept last_err s m = record {
    result = err (storage (budget_message height last_err));
    store = s;
    machine = m;
    attempts = done;
    slept_ms = slept;
  }
  apply_loop height block_data block_hash (suc left) done slept last_err s m =
      let waited = slept + atomic_retry_backoff_ms (suc done) in
      elim (attempt_block height block_data block_hash s m) [
        | committed t n ↦ record {
          result = ok tt;
          store = t;
          machine = n;
          attempts = suc done;
          slept_ms = waited;
        }
        | commit_failed message t n ↦ elim (contains_text message out_of_order) [
          | true ↦ record {
            result = err (storage (codes "commit_atomic: " ++ message));
            store = t;
            machine = n;
            attempts = suc done;
            slept_ms = waited;
          }
          | false ↦
              apply_loop height block_data block_hash left (suc done) waited
                (some (codes "commit_atomic: " ++ message)) t (refreshed n)
        ]
        | execution_failed message t n ↦
            apply_loop height block_data block_hash left (suc done) waited
              (some (codes "process_block_atomic: " ++ message)) t (refreshed n)
      ]

  -- `process_block`, from what the continuity check said.
  unfoldable pub process_block :
      SyncResult Bool → ℕ → Bytes → Bytes → st.Store → rt.Machine → Applied st.Store rt.Machine
  process_block (err e) height block_data block_hash s m = record {
    result = err e;
    store = s;
    machine = m;
    attempts = 0;
    slept_ms = 0;
  }
  process_block (ok false) height block_data block_hash s m = record {
    result = err (block_processing height discontinuity);
    store = s;
    machine = m;
    attempts = 0;
    slept_ms = 0;
  }
  process_block (ok true) height block_data block_hash s m =
      apply_loop height block_data block_hash max_atomic_commit_attempts 0 0 none s m

  -- The loop of the pipeline on fuel: none when no attempt of the first `fuel` committed.
  unfoldable pub pipeline_loop :
      ℕ
      → Bytes
      → Bytes
      → (fuel done slept : ℕ) → st.Store
      → rt.Machine
      → Option (Applied st.Store rt.Machine)
  pipeline_loop height block_data block_hash zero done slept s m = none
  pipeline_loop height block_data block_hash (suc fuel) done slept s m =
      let waited = slept + atomic_retry_backoff_ms (suc done) in
      elim (attempt_block height block_data block_hash s m) [
        | committed t n ↦ some (record {
          result = ok tt;
          store = t;
          machine = n;
          attempts = suc done;
          slept_ms = waited;
        })
        | commit_failed message t n ↦
            pipeline_loop height block_data block_hash fuel (suc done) waited t (refreshed n)
        | execution_failed message t n ↦
            pipeline_loop height block_data block_hash fuel (suc done) waited t (refreshed n)
      ]
