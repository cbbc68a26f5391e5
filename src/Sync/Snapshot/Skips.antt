-- ===== src/Sync/Snapshot/Skips.antt =====
-- The blocks below the cursor that the loop passes over after a reorganization.
use metashrew.Prelude.{
  ℕ, zero, suc, ◌+◌, ◌-◌, ◌≤◌, ◌<◌, ◌≡◌, refl, ap, Bool, true, false, ◌&&◌, none, Bytes, leb, ltb,
  if◌then◌else◌, arith, lt→ltb, le→ltb,
}
use metashrew.Sync.Error.{ok}
use metashrew.Sync.Adapters.{SyncConfig, Node, StorageAdapter, RuntimeAdapter}
use metashrew.Sync.Reorg.{Differs}
use metashrew.Sync.Reorg.Reconcile.{handle_reorg-same}
use metashrew.Sync.Fetch.{reached_exit}
use metashrew.Sync.Snapshot.{
  LoopState, LoopStep, again, finished, leaves, guarded_block, process_block_with_snapshots,
  after_block, apply_data, fetch_and_apply, after_reorg, round_with_tip, loop_round,
}

-- The rounds of the loop, until it is finished.
abbrev pub rounds :
    (st : StorageAdapter) (rt : RuntimeAdapter st)
    → Node
    → SyncConfig
    → ℕ
    → LoopState st.Store rt.Machine
    → LoopState st.Store rt.Machine
rounds st rt node config zero p = p
rounds st rt node config (suc n) p = elim (loop_round st rt node config p) [
  | again q ↦ rounds st rt node config n q
  | finished q ↦ q
]

module _ (st : StorageAdapter) (rt : RuntimeAdapter st) (node : Node) (config : SyncConfig) where
  apply_data-stale :
      (p : LoopState st.Store rt.Machine) (body hash : Bytes)
      → p.height < p.current_height
      → node.block_hash p.height ≡ ok hash
      → apply_data st rt node p (ok body) ≡ again (record p { height = p.height + 1 })
  unfolding apply_data process_block_with_snapshots guarded_block leaves after_block
  apply_data-stale p body hash stale e = simp (e, lt→ltb p.height p.current_height stale) refl

  fetch_and_apply-stale :
      (p : LoopState st.Store rt.Machine) (tip : ℕ) (body hash : Bytes)
      → config.exit_at ≡ none
      → p.height ≤ tip
      → p.height < p.current_height
      → node.block_data p.height ≡ ok body
      → node.block_hash p.height ≡ ok hash
      → fetch_and_apply st rt node config tip p ≡ again (record p { height = p.height + 1 })
  unfolding fetch_and_apply reached_exit
  fetch_and_apply-stale p tip body hash open_end low stale d e =
      simp (open_end, le→ltb tip p.height low, d) (apply_data-stale p body hash stale e)

  loop_round-stale :
      (p : LoopState st.Store rt.Machine) (tip : ℕ) (body hash : Bytes)
      → node.tip_height ≡ ok tip
      → config.exit_at ≡ none
      → p.height ≤ tip
      → p.height < p.current_height
      → node.block_data p.height ≡ ok body
      → node.block_hash p.height ≡ ok hash
      → ((k : ℕ) → k < p.height → Differs st node p.store k → ⊥)
      → loop_round st rt node config p ≡ again (record p { height = p.height + 1 })
  unfolding loop_round round_with_tip after_reorg
  loop_round-stale p tip body hash t open_end low stale d e same =
      simp
        (
          t,
          handle_reorg-same st rt node config p.store p.machine p.height same,
          le→ltb p.height p.height (omega arith),
        )
        (either (ltb 0 p.height && leb (tip - p.height) config.reorg_check_threshold)
          (fetch_and_apply-stale p tip body hash open_end low stale d e))
    where
      either :
          {x : LoopStep st.Store rt.Machine} (b : Bool)
          → fetch_and_apply st rt node config tip p ≡ x
          → (if b
              then fetch_and_apply st rt node config tip p
              else fetch_and_apply st rt node config tip p)
            ≡ x
      either true q = q
      either false q = q

  -- Let the snapshot engine's loop in the normal mode stand `k` heights below the cursor, with the
  -- node's tip at or above the cursor, no exit height, a body and a hash of the node for every
  -- height below the cursor, and no stored block there that differs from the node's. After `k`
  -- rounds the loop stands at the cursor, and the cursor, the store and the memory are as they were:
  -- the blocks between have been passed over.
  pub rounds-skips :
      (k tip : ℕ) (p : LoopState st.Store rt.Machine)
      → node.tip_height ≡ ok tip
      → config.exit_at ≡ none
      → p.current_height ≤ tip
      → p.height + k ≡ p.current_height
      → ((h : ℕ) → h < p.current_height → (body : Bytes) × (node.block_data h ≡ ok body))
      → ((h : ℕ) → h < p.current_height → (hash : Bytes) × (node.block_hash h ≡ ok hash))
      → ((h : ℕ) → h < p.current_height → Differs st node p.store h → ⊥)
      → rounds st rt node config k p ≡ record p { height = p.current_height }
  rounds-skips zero tip p t open_end high sum bodies hashes same =
      let arrived : p.height ≡ p.current_height = omega arith in
      ap (λ h. record p { height = h }) arrived
  rounds-skips (suc k) tip p t open_end high sum bodies hashes same =
      let below : p.height < p.current_height = omega arith in
      let (body, d) = bodies p.height below in
      let (hash, e) = hashes p.height below in
      rw
        (
          rounds,
          loop_round-stale p tip body hash t open_end (omega arith) below d e
              (λ j l. same j (omega arith)),
        )
        (rounds-skips k tip (record p { height = p.height + 1 }) t open_end high (omega arith)
          bodies hashes same)
