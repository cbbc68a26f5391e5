-- ===== src/Sync/Apply/Budget.antt =====
-- How long `MetashrewSync::process_block` tries, and what it does with an out-of-order rejection.
use metashrew.Prelude.{
  ℕ, zero, suc, ◌+◌, ◌≤◌, ◌≡◌, refl, inl, inr, Bool, true, false, Option, none, some, Bytes, codes,
  ◌++◌, arith, Bool-cases,
}
use metashrew.Sync.Error.{SyncError, storage, message_of, SyncResult, ok, err, contains_text}
use metashrew.Sync.Adapters.{AtomicBlockResult, StorageAdapter, RuntimeAdapter}
use metashrew.Sync.Retry.{atomic_retry_backoff_ms, max_atomic_commit_attempts, out_of_order}
use metashrew.Sync.Apply.{
  commit_failed, after_commit, after_execution, attempt_block, refreshed, apply_loop, process_block,
}
use metashrew.Sync.Apply.Attempts.{attempt_block-cases}

-- The sleeps before the next `left` attempts.
abbrev pub backoff_sum : ℕ → ℕ → ℕ
backoff_sum zero done = 0
backoff_sum (suc left) done = atomic_retry_backoff_ms (suc done) + backoff_sum left (suc done)

module _ (st : StorageAdapter) (rt : RuntimeAdapter st) where
  apply_loop_bounds :
      (height : ℕ) (body hash : Bytes) (left done slept : ℕ) (last : Option Bytes) (s : st.Store)
      (m : rt.Machine)
      → ((apply_loop st rt height body hash left done slept last s m).attempts ≤ left + done)
        × ((apply_loop st rt height body hash left done slept last s m).slept_ms
            ≤ slept + backoff_sum left done)
  unfolding apply_loop
  apply_loop_bounds height body hash zero done slept last s m = (omega arith, omega arith)
  apply_loop_bounds height body hash (suc left) done slept last s m =
      let waited = slept + atomic_retry_backoff_ms (suc done) in
      elim (attempt_block-cases st rt height body hash s m) [
        | inl (t, n, (e, c)) ↦ rw (apply_loop, e) (omega arith, omega arith)
        | inr (inl (message, n, e)) ↦ elim (Bool-cases (contains_text message out_of_order)) [
          | inl final ↦ rw (apply_loop, e, final) (omega arith, omega arith)
          | inr again ↦
              rw (apply_loop, e, again)
                (later (
                  apply_loop_bounds height body hash left (suc done) waited
                    (some (codes "commit_atomic: " ++ message)) s (refreshed st rt n)))
        ]
        | inr (inr (message, n, e)) ↦
            rw (apply_loop, e)
              (later (
                apply_loop_bounds height body hash left (suc done) waited
                  (some (codes "process_block_atomic: " ++ message)) s (refreshed st rt n)))
      ]
    where
      later :
          {a b : ℕ}
          → (a ≤ left + suc done)
            × (b ≤ (slept + atomic_retry_backoff_ms (suc done)) + backoff_sum left (suc done))
          → (a ≤ suc left + done) × (b ≤ slept + backoff_sum (suc left) done)
      later (h, k) = (omega arith, omega arith)

  -- `process_block` makes at most 30 attempts and sleeps at most 651,100 milliseconds between them,
  -- whatever the adapters do.
  pub process_block_bounds :
      (checked : SyncResult Bool) (height : ℕ) (body hash : Bytes) (s : st.Store) (m : rt.Machine)
      → ((process_block st rt checked height body hash s m).attempts ≤ 30)
        × ((process_block st rt checked height body hash s m).slept_ms ≤ 651100)
  unfolding process_block atomic_retry_backoff_ms
  process_block_bounds (err e) height body hash s m = (omega arith, omega arith)
  process_block_bounds (ok false) height body hash s m = (omega arith, omega arith)
  process_block_bounds (ok true) height body hash s m =
      apply_loop_bounds height body hash max_atomic_commit_attempts 0 0 none s m

  attempt_block-rejected :
      (height : ℕ) (body hash : Bytes) (s : st.Store) (m n : rt.Machine) (r : AtomicBlockResult)
      (e : SyncError)
      → rt.process_block_atomic m s height body hash ≡ (ok r, n)
      → st.commit_atomic s height r.block_hash r.state_root r.batch_data ≡ (err e, s)
      → attempt_block st rt height body hash s m ≡ commit_failed (message_of e) s n
  unfolding attempt_block after_execution after_commit
  attempt_block-rejected height body hash s m n r e ran rejected = rw (ran, rejected) refl

  apply_loop-final :
      (height : ℕ) (body hash message : Bytes) (left done slept : ℕ) (last : Option Bytes)
      (s : st.Store) (m n : rt.Machine)
      → attempt_block st rt height body hash s m ≡ commit_failed message s n
      → contains_text message out_of_order ≡ true
      → apply_loop st rt height body hash (suc left) done slept last s m ≡ record {
        result = err (storage (codes "commit_atomic: " ++ message));
        store = s;
        machine = n;
        attempts = suc done;
        slept_ms = slept + atomic_retry_backoff_ms (suc done);
      }
  unfolding apply_loop
  apply_loop-final height body hash message left done slept last s m n e final =
      rw (apply_loop, e, final) refl

  pub process_block-out_of_order :
      (height : ℕ) (body hash : Bytes) (s : st.Store) (m n : rt.Machine) (r : AtomicBlockResult)
      (e : SyncError)
      → rt.process_block_atomic m s height body hash ≡ (ok r, n)
      → st.commit_atomic s height r.block_hash r.state_root r.batch_data ≡ (err e, s)
      → contains_text (message_of e) out_of_order ≡ true
      → process_block st rt (ok true) height body hash s m ≡ record {
        result = err (storage (codes "commit_atomic: " ++ message_of e));
        store = s;
        machine = n;
        attempts = 1;
        slept_ms = 0;
      }
  unfolding process_block atomic_retry_backoff_ms
  process_block-out_of_order height body hash s m n r e ran rejected final =
      apply_loop-final height body hash (message_of e) 29 0 0 none s m n
        (attempt_block-rejected height body hash s m n r e ran rejected) final
