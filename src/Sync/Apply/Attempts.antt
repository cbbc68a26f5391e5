-- ===== src/Sync/Apply/Attempts.antt =====
-- `MetashrewSync::process_block` commits a block once or leaves the store alone.
use metashrew.Prelude.{
  ℕ, zero, suc, ◌+◌, ◌≡◌, refl, ◌⊎◌, inl, inr, Bool, true, false, Option, none, some, Bytes, codes,
  ◌++◌, Bool-cases,
}
use metashrew.Sync.Error.{
  SyncError, storage, block_processing, message_of, SyncResult, ok, err, contains_text,
}
use metashrew.Sync.Adapters.{Outcome, AtomicBlockResult, StorageAdapter, RuntimeAdapter}
use metashrew.Sync.Retry.{atomic_retry_backoff_ms, max_atomic_commit_attempts, out_of_order}
use metashrew.Sync.Apply.{
  Attempt, committed, commit_failed, execution_failed, Applied, after_commit, after_execution,
  attempt_block, refreshed, apply_loop, process_block, budget_message, discontinuity,
}

-- A commit of a block at a height took one store to another.
pub record Commits (st : StorageAdapter) (height : ℕ) (s t : st.Store) : Type 0 where
  pub hash : Bytes
  pub root : Bytes
  pub batch : Bytes
  pub commits : st.commit_atomic s height hash root batch ≡ (ok tt, t)

-- One attempt committed, or it left the store and says what failed.
abbrev pub AttemptCases :
    (st : StorageAdapter) (rt : RuntimeAdapter st) (height : ℕ) (s : st.Store)
    → Attempt st.Store rt.Machine
    → Type 0
AttemptCases st rt height s a =
    ((t : st.Store) × (m : rt.Machine) × ((a ≡ committed t m) × Commits st height s t))
    ⊎ (((message : Bytes) × (m : rt.Machine) × (a ≡ commit_failed message s m))
        ⊎ ((message : Bytes) × (m : rt.Machine) × (a ≡ execution_failed message s m)))

module _ (st : StorageAdapter) (rt : RuntimeAdapter st) where
  after_commit-cases :
      (height : ℕ) (hash root batch : Bytes) (s : st.Store) (m : rt.Machine)
      (o : Outcome Unit st.Store)
      → st.commit_atomic s height hash root batch ≡ o
      → AttemptCases st rt height s (after_commit st rt m o)
  unfolding after_commit
  after_commit-cases height hash root batch s m (ok u, t) e =
      inl (t, m, (refl, record { hash = hash; root = root; batch = batch; commits = e }))
  after_commit-cases height hash root batch s m (err er, t) e =
      inr (inl (message_of er, m, rw (st.commit_atomic-err s t height hash root batch er e) refl))

  after_execution-cases :
      (height : ℕ) (s : st.Store) (o : Outcome AtomicBlockResult rt.Machine)
      → AttemptCases st rt height s (after_execution st rt height s o)
  unfolding after_execution
  after_execution-cases height s (ok r, m) =
      after_commit-cases height r.block_hash r.state_root r.batch_data s m
        (st.commit_atomic s height r.block_hash r.state_root r.batch_data) refl
  after_execution-cases height s (err e, m) = inr (inr (message_of e, m, refl))

  pub attempt_block-cases :
      (height : ℕ) (body hash : Bytes) (s : st.Store) (m : rt.Machine)
      → AttemptCases st rt height s (attempt_block st rt height body hash s m)
  unfolding attempt_block
  attempt_block-cases height body hash s m =
      after_execution-cases height s (rt.process_block_atomic m s height body hash)

-- A block was committed once, or the store is the one before.
abbrev pub OnceOrNever :
    (st : StorageAdapter) (rt : RuntimeAdapter st) (height : ℕ) (s : st.Store)
    → Applied st.Store rt.Machine
    → Type 0
OnceOrNever st rt height s r =
    ((r.result ≡ ok tt) × Commits st height s r.store)
    ⊎ ((e : SyncError) × ((r.result ≡ err e) × (r.store ≡ s)))

module _ (st : StorageAdapter) (rt : RuntimeAdapter st) where
  apply_loop-OnceOrNever :
      (height : ℕ) (body hash : Bytes) (left done slept : ℕ) (last : Option Bytes) (s : st.Store)
      (m : rt.Machine)
      → OnceOrNever st rt height s (apply_loop st rt height body hash left done slept last s m)
  unfolding apply_loop
  apply_loop-OnceOrNever height body hash zero done slept last s m =
      inr (storage (budget_message height last), (refl, refl))
  apply_loop-OnceOrNever height body hash (suc left) done slept last s m =
      elim (attempt_block-cases st rt height body hash s m) [
        | inl (t, n, (e, c)) ↦ rw (apply_loop, e) (inl (refl, c))
        | inr (inl (message, n, e)) ↦ elim (Bool-cases (contains_text message out_of_order)) [
          | inl final ↦
              rw (apply_loop, e, final)
                (inr (storage (codes "commit_atomic: " ++ message), (refl, refl)))
          | inr again ↦
              rw (apply_loop, e, again)
                (apply_loop-OnceOrNever height body hash left (suc done)
                  (slept + atomic_retry_backoff_ms (suc done))
                  (some (codes "commit_atomic: " ++ message)) s (refreshed st rt n))
        ]
        | inr (inr (message, n, e)) ↦
            rw (apply_loop, e)
              (apply_loop-OnceOrNever height body hash left (suc done)
                (slept + atomic_retry_backoff_ms (suc done))
                (some (codes "process_block_atomic: " ++ message)) s (refreshed st rt n))
      ]

  pub process_block-OnceOrNever :
      (checked : SyncResult Bool) (height : ℕ) (body hash : Bytes) (s : st.Store) (m : rt.Machine)
      → OnceOrNever st rt height s (process_block st rt checked height body hash s m)
  unfolding process_block
  process_block-OnceOrNever (err e) height body hash s m = inr (e, (refl, refl))
  process_block-OnceOrNever (ok false) height body hash s m =
      inr (block_processing height discontinuity, (refl, refl))
  process_block-OnceOrNever (ok true) height body hash s m =
      apply_loop-OnceOrNever height body hash max_atomic_commit_attempts 0 0 none s m
