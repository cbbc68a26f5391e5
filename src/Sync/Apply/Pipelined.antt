-- ===== src/Sync/Apply/Pipelined.antt =====
-- `ProcessingClone::process_block` gives no error, commits once, and goes on for as long as no
-- attempt commits.
use metashrew.Prelude.{ℕ, zero, suc, ◌+◌, ◌≡◌, refl, sym, inl, inr, none, some, Bytes}
use metashrew.Sync.Error.{ok}
use metashrew.Sync.Adapters.{StorageAdapter, RuntimeAdapter}
use metashrew.Sync.Retry.{atomic_retry_backoff_ms}
use metashrew.Sync.Apply.{Applied, refreshed, pipeline_loop}
use metashrew.Sync.Apply.Attempts.{attempt_block-cases, Commits}

-- What the runtime does to its machine when it fails n times.
abbrev pub after_failures :
    (st : StorageAdapter) (rt : RuntimeAdapter st)
    → ℕ
    → Bytes
    → Bytes
    → st.Store
    → ℕ
    → rt.Machine
    → rt.Machine
after_failures st rt height body hash s zero m = m
after_failures st rt height body hash s (suc n) m =
    after_failures st rt height body hash s n
      (refreshed st rt (rt.process_block_atomic m s height body hash).1)

module _ (st : StorageAdapter) (rt : RuntimeAdapter st) where
  pub pipeline_loop-Commits :
      (height : ℕ) (body hash : Bytes) (fuel done slept : ℕ) (s : st.Store) (m : rt.Machine)
      (r : Applied st.Store rt.Machine)
      → pipeline_loop st rt height body hash fuel done slept s m ≡ some r
      → (r.result ≡ ok tt) × Commits st height s r.store
  unfolding pipeline_loop
  pipeline_loop-Commits height body hash zero done slept s m r h = cc
  pipeline_loop-Commits height body hash (suc fuel) done slept s m r h =
      let waited = slept + atomic_retry_backoff_ms (suc done) in
      elim (attempt_block-cases st rt height body hash s m) [
        | inl (t, n, (e, c)) ↦ applied t n waited c (rw (pipeline_loop, e) at h)
        | inr (inl (message, n, e)) ↦
            pipeline_loop-Commits height body hash fuel (suc done) waited s (refreshed st rt n) r
              (rw (pipeline_loop, e) at h)
        | inr (inr (message, n, e)) ↦
            pipeline_loop-Commits height body hash fuel (suc done) waited s (refreshed st rt n) r
              (rw (pipeline_loop, e) at h)
      ]
    where
      applied :
          (t : st.Store) (n : rt.Machine) (waited : ℕ)
          → Commits st height s t
          → some (record {
            result = ok tt;
            store = t;
            machine = n;
            attempts = suc done;
            slept_ms = waited;
          })
            ≡ some r
          → (r.result ≡ ok tt) × Commits st height s r.store
      applied t n waited c e = rw (sym (unwrap e)) (refl, c)
        where
          unwrap : {a b : Applied st.Store rt.Machine} → some a ≡ some b → a ≡ b
          unwrap q = cc

  -- A store that rejects each commit of the height keeps the loop going.
  pub pipeline_loop-stuck :
      (height : ℕ) (body hash : Bytes) (fuel done slept : ℕ) (s : st.Store) (m : rt.Machine)
      → ((t : st.Store) → Commits st height s t → ⊥)
      → pipeline_loop st rt height body hash fuel done slept s m ≡ none
  unfolding pipeline_loop
  pipeline_loop-stuck height body hash zero done slept s m rejects = refl
  pipeline_loop-stuck height body hash (suc fuel) done slept s m rejects =
      let waited = slept + atomic_retry_backoff_ms (suc done) in
      elim (attempt_block-cases st rt height body hash s m) [
        | inl (t, n, (e, c)) ↦ absurd (rejects t c)
        | inr (inl (message, n, e)) ↦
            rw (pipeline_loop, e)
              (pipeline_loop-stuck height body hash fuel (suc done) waited s (refreshed st rt n)
                rejects)
        | inr (inr (message, n, e)) ↦
            rw (pipeline_loop, e)
              (pipeline_loop-stuck height body hash fuel (suc done) waited s (refreshed st rt n)
                rejects)
      ]
