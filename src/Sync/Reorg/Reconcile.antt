-- ===== src/Sync/Reorg/Reconcile.antt =====
-- What `handle_reorg` returns and what it does to the store.
use metashrew.Prelude.{
  ℕ, zero, suc, ◌+◌, ◌-◌, ◌≤◌, ◌<◌, ◌≡◌, refl, ◌⊎◌, inl, inr, true, false, arith,
}
use metashrew.Sync.Error.{ok}
use metashrew.Sync.Adapters.{SyncConfig, Node, StorageAdapter, RuntimeAdapter}
use metashrew.Sync.Reorg.{
  Walk, node_failed, stopped, Differs, Matches, walk_to_ancestor, refresh_after,
  roll_back_and_refresh, finish_reorg, handle_reorg,
}
use metashrew.Sync.Reorg.Ancestor.{walk-Differs, walk_same, walk_bounds}

module _ (st : StorageAdapter) (rt : RuntimeAdapter st) (node : Node) (config : SyncConfig) where
  -- Let the store and the node have different blocks at every height above `fork` and below the
  -- cursor, of which there is at least one, and the same block at `fork`, or let `fork` be 0; let
  -- the cursor be at most `max_reorg_depth` above it, and the rollback to `fork` and the refresh of
  -- the memory succeed. Then `handle_reorg` returns `fork + 1` and leaves the store that the
  -- rollback to `fork` leaves.
  pub handle_reorg-rollback :
      (s t : st.Store) (m n : rt.Machine) (current_height fork : ℕ)
      → suc fork < current_height
      → current_height ≤ fork + config.max_reorg_depth
      → Matches st node s fork ⊎ (fork ≡ 0)
      → ((k : ℕ) → fork < k → k < current_height → Differs st node s k)
      → st.rollback_to_height s fork ≡ (ok tt, t)
      → rt.refresh_memory m ≡ (ok tt, n)
      → handle_reorg st rt node config current_height s m ≡ (ok (suc fork), (t, n))
  unfolding handle_reorg finish_reorg roll_back_and_refresh refresh_after
  handle_reorg-rollback s t m n zero fork low deep fork_matches differ rolled refreshed =
      absurd (omega arith)
  handle_reorg-rollback s t m n (suc below) fork low deep fork_matches differ rolled refreshed =
      rw
        (
          walk-Differs st node s (suc below - config.max_reorg_depth) fork below false (omega arith)
              (omega arith) fork_matches (λ k a b. differ k a (omega arith)),
          rolled,
          refreshed,
        )
        (ground arith)

  -- If at no height below the cursor the store holds a block that differs from the node's,
  -- `handle_reorg` returns the cursor and changes neither store nor memory, also where the cursor is
  -- above what the store holds.
  pub handle_reorg-same :
      (s : st.Store) (m : rt.Machine) (current_height : ℕ)
      → ((k : ℕ) → k < current_height → Differs st node s k → ⊥)
      → handle_reorg st rt node config current_height s m ≡ (ok current_height, (s, m))
  unfolding handle_reorg finish_reorg
  handle_reorg-same s m zero same = refl
  handle_reorg-same s m (suc below) same =
      elim (walk_same st node s (suc below - config.max_reorg_depth) below
        (λ k l. same k (omega arith))) [ inl e ↦ rw (e) refl | inr (k, e) ↦ rw (e) refl ]

  finish_reorg_bounds :
      (s t : st.Store) (m n : rt.Machine) (current_height floor new_height : ℕ) (w : Walk)
      → floor ≤ current_height
      → ((k : ℕ) → w ≡ stopped k true → (suc k ≤ current_height) × (floor ≤ suc k))
      → finish_reorg st rt current_height s m w ≡ (ok new_height, (t, n))
      → (new_height ≤ current_height) × (floor ≤ new_height)
  unfolding finish_reorg roll_back_and_refresh refresh_after
  finish_reorg_bounds s t m n current_height floor new_height node_failed low bounds e =
      ground arith
  finish_reorg_bounds s t m n current_height floor new_height (stopped k false) low bounds e =
      ground arith
  finish_reorg_bounds s t m n current_height floor new_height (stopped k true) low bounds e =
      ground (arith, bounds k refl)

  -- A height that `handle_reorg` returns is at most the cursor, and the cursor is at most
  -- `max_reorg_depth` above it.
  pub handle_reorg_bounds :
      (s t : st.Store) (m n : rt.Machine) (current_height new_height : ℕ)
      → handle_reorg st rt node config current_height s m ≡ (ok new_height, (t, n))
      → (new_height ≤ current_height) × (current_height ≤ new_height + config.max_reorg_depth)
  unfolding handle_reorg
  handle_reorg_bounds s t m n zero new_height e = ground arith
  handle_reorg_bounds s t m n (suc below) new_height e = ground (
    arith,
    finish_reorg_bounds s t m n (suc below) (suc below - config.max_reorg_depth) new_height
        (walk_to_ancestor st node s (suc below - config.max_reorg_depth) below false) (omega arith)
        (λ k w. ground (
          arith,
          walk_bounds st node s (suc below - config.max_reorg_depth) below k false true
              (omega arith) w,
        ))
        e,
  )
