-- ===== src/Sync/Fetch/Bounds.antt =====
-- Which block the fetcher hands out.
use metashrew.Prelude.{
  ℕ, ◌-◌, ◌≤◌, ◌<◌, ◌≡◌, refl, inl, inr, false, Option, none, some, Bytes, leb, ltb, arith,
  Bool-cases, leb→lt, ltb→le,
}
use metashrew.Sync.Error.{SyncResult, ok, err}
use metashrew.Sync.Adapters.{SyncConfig, BlockInfo, Node, StorageAdapter, RuntimeAdapter}
use metashrew.Sync.Fetch.{
  reached_exit, clamp, fetched, fetch_at, fetch_after_reorg, fetch_with_tip,
  get_next_block_data_with_floor,
}
use metashrew.Sync.Reorg.{handle_reorg}

-- The height is not above the tip and not below the floor, and comes before the exit.
abbrev pub InRange : Option ℕ → Option ℕ → ℕ → ℕ → Type 0
InRange floor exit_at tip height =
    (height ≤ tip)
    × (((m : ℕ) → floor ≡ some m → m ≤ height) × ((e : ℕ) → exit_at ≡ some e → height < e))

fetched-height :
    (height k : ℕ) (b : Bytes × Bytes) (r : SyncResult BlockInfo)
    → fetched height r ≡ ok (some (k, b))
    → k ≡ height
unfolding fetched
fetched-height height k b (ok info) e = ground arith
fetched-height height k b (err x) e = ground arith

exit_above :
    (exit_at : Option ℕ) (height : ℕ)
    → reached_exit exit_at height ≡ false
    → (e : ℕ) → exit_at ≡ some e
    → height < e
unfolding reached_exit
exit_above none height h e q = ground arith
exit_above (some x) height h e q = ground (arith, leb→lt x height h)

clamp_above : (floor : Option ℕ) (current m : ℕ) → floor ≡ some m → m ≤ clamp floor current
unfolding clamp
clamp_above none current m e = ground arith
clamp_above (some x) current m e = ground arith

fetch_at-InRange :
    (node : Node) (config : SyncConfig) (floor : Option ℕ) (tip current k : ℕ) (b : Bytes × Bytes)
    → fetch_at node config tip (clamp floor current) ≡ ok (some (k, b))
    → InRange floor config.exit_at tip k
unfolding fetch_at
fetch_at-InRange node config floor tip current k b e =
    elim (Bool-cases (reached_exit config.exit_at (clamp floor current))) [
      | inl x ↦ absurd (ground arith)
      | inr x ↦ elim (Bool-cases (ltb tip (clamp floor current))) [
        | inl w ↦ absurd (ground arith)
        | inr w ↦
            let same =
              fetched-height (clamp floor current) k b (node.block_info (clamp floor current))
                (rw (fetch_at, x, w) at e) in
            rw (same) (
              ltb→le tip (clamp floor current) w,
              (clamp_above floor current, exit_above config.exit_at (clamp floor current) x),
            )
      ]
    ]

module _ (st : StorageAdapter) (rt : RuntimeAdapter st) (node : Node) (config : SyncConfig) where
  fetch_after_reorg-InRange :
      (floor : Option ℕ) (tip current k : ℕ) (b : Bytes × Bytes)
      (r : SyncResult ℕ × (st.Store × rt.Machine))
      → (fetch_after_reorg st rt node config floor tip current r).answer ≡ ok (some (k, b))
      → InRange floor config.exit_at tip k
  unfolding fetch_after_reorg
  fetch_after_reorg-InRange floor tip current k b (err e, (t, n)) h = absurd (ground arith)
  fetch_after_reorg-InRange floor tip current k b (ok height, (t, n)) h =
      fetch_at-InRange node config floor tip height k b h

  fetch_with_tip-InRange :
      (floor : Option ℕ) (current k : ℕ) (s : st.Store) (m : rt.Machine) (b : Bytes × Bytes)
      (tip : SyncResult ℕ)
      → (fetch_with_tip st rt node config floor current s m tip).answer ≡ ok (some (k, b))
      → (t : ℕ) × ((tip ≡ ok t) × InRange floor config.exit_at t k)
  unfolding fetch_with_tip
  fetch_with_tip-InRange floor current k s m b (err e) h = absurd (ground arith)
  fetch_with_tip-InRange floor current k s m b (ok t) h = (
    t,
    (
      refl,
      (elim (Bool-cases (leb (t - current) config.reorg_check_threshold)) [
        | inl near ↦
            fetch_after_reorg-InRange floor t current k b
              (handle_reorg st rt node config current s m) (rw (fetch_with_tip, near) at h)
        | inr far ↦ fetch_at-InRange node config floor t current k b (rw (fetch_with_tip, far) at h)
      ]),
    ),
  )

  -- If the fetcher hands out a block, the node reported a tip, and the block's height is at most the
  -- tip, at least the floor that the caller gave, and below the exit height.
  pub next_block-InRange :
      (floor : Option ℕ) (current k : ℕ) (s : st.Store) (m : rt.Machine) (b : Bytes × Bytes)
      → (get_next_block_data_with_floor st rt node config floor current s m).answer
        ≡ ok (some (k, b))
      → (t : ℕ) × ((node.tip_height ≡ ok t) × InRange floor config.exit_at t k)
  unfolding get_next_block_data_with_floor
  next_block-InRange floor current k s m b h =
      fetch_with_tip-InRange floor current k s m b node.tip_height h
