-- ===== src/Sync/Reorg/Ancestor.antt =====
-- Where the walk of `handle_reorg` stops, and what the function then returns.
use metashrew.Prelude.{
  ℕ, zero, suc, ◌≤◌, ◌<◌, ◌≡◌, refl, ◌⊎◌, inl, inr, Bool, true, false, Option, none, some, Bytes,
  bytes_eq_refl, ne→bytes_eq, bytes_eq-cases, le→leb, leb, leb→le, leb→lt, arith, Bool-cases,
}
use metashrew.Sync.Error.{SyncResult, ok, err}
use metashrew.Sync.Adapters.{Node, StorageAdapter}
use metashrew.Sync.Reorg.{
  node_failed, stopped, leave, lower, Differs, Matches, compare_hashes, look_at, reorg_round,
  walk_to_ancestor,
}

module _ (st : StorageAdapter) (node : Node) where
  reorg_round-Differs :
      (s : st.Store) (floor h : ℕ) (flag : Bool)
      → floor ≤ h
      → Differs st node s h
      → reorg_round st node s floor h flag ≡ lower true
  unfolding reorg_round look_at compare_hashes
  reorg_round-Differs s floor h flag above d =
      rw
        (
          le→leb floor h above,
          d.stored,
          d.reported,
          ne→bytes_eq d.local_hash d.remote_hash d.different,
        )
        refl

  reorg_round-Matches :
      (s : st.Store) (floor h : ℕ) (flag : Bool)
      → floor ≤ h
      → Matches st node s h
      → reorg_round st node s floor h flag ≡ leave (stopped h flag)
  unfolding reorg_round look_at compare_hashes
  reorg_round-Matches s floor h flag above d =
      rw (le→leb floor h above, d.stored, d.reported, bytes_eq_refl d.hash) refl

  walk_at_fork :
      (s : st.Store) (floor f : ℕ) (flag : Bool)
      → floor ≤ f
      → Matches st node s f ⊎ (f ≡ 0)
      → walk_to_ancestor st node s floor f flag ≡ stopped f flag
  unfolding walk_to_ancestor
  walk_at_fork s floor zero flag low fork = refl
  walk_at_fork s floor (suc f) flag low (inl m) =
      rw (walk_to_ancestor, reorg_round-Matches s floor (suc f) flag low m) refl
  walk_at_fork s floor (suc f) flag low (inr e) = absurd (omega arith)

  -- From a different block the walk goes down to the common one.
  pub walk-Differs :
      (s : st.Store) (floor f h : ℕ) (flag : Bool)
      → floor ≤ f
      → f < h
      → Matches st node s f ⊎ (f ≡ 0)
      → ((k : ℕ) → f < k → k ≤ h → Differs st node s k)
      → walk_to_ancestor st node s floor h flag ≡ stopped f true
  unfolding walk_to_ancestor
  walk-Differs s floor f zero flag low high fork differ = absurd (omega arith)
  walk-Differs s floor f (suc h) flag low high fork differ =
      rw
        (
          walk_to_ancestor,
          reorg_round-Differs s floor (suc h) flag (omega arith)
              (differ (suc h) (omega arith) (omega arith)),
        )
        (elim (Bool-cases (leb h f)) [
          | inl e ↦ rw (h_is_f (leb→le h f e)) (walk_at_fork s floor f true low fork)
          | inr l ↦
              walk-Differs s floor f h true low (leb→lt h f l) fork
                (λ k a b. differ k a (omega arith))
        ])
    where
      h_is_f : h ≤ f → h ≡ f
      h_is_f l = omega arith

  -- Where no block differs, a round never raises the flag.
  look_at-same :
      (s : st.Store) (h : ℕ) (stored : SyncResult (Option Bytes)) (reported : SyncResult Bytes)
      → st.get_block_hash s h ≡ stored
      → node.block_hash h ≡ reported
      → (Differs st node s h → ⊥)
      → (look_at st node h false stored ≡ leave node_failed)
        ⊎ ((look_at st node h false stored ≡ leave (stopped h false))
            ⊎ (look_at st node h false stored ≡ lower false))
  unfolding look_at compare_hashes
  look_at-same s h (err e) reported p q same = inr (inr refl)
  look_at-same s h (ok none) reported p q same = inr (inr refl)
  look_at-same s h (ok (some local)) (err e) p q same = inl (rw (q) refl)
  look_at-same s h (ok (some local)) (ok remote) p q same = elim (bytes_eq-cases local remote) [
    | inl e ↦ inr (inl (rw (q, e, bytes_eq_refl remote) refl))
    | inr ne ↦ absurd (
        same (record {
          local_hash = local;
          remote_hash = remote;
          stored = p;
          reported = q;
          different = ne;
        }))
  ]

  reorg_round-same :
      (s : st.Store) (floor h : ℕ)
      → (Differs st node s h → ⊥)
      → (reorg_round st node s floor h false ≡ leave node_failed)
        ⊎ ((reorg_round st node s floor h false ≡ leave (stopped h false))
            ⊎ (reorg_round st node s floor h false ≡ lower false))
  unfolding reorg_round
  reorg_round-same s floor h same = elim (Bool-cases (leb floor h)) [
    | inl e ↦ rw (e) (look_at-same s h (st.get_block_hash s h) (node.block_hash h) refl refl same)
    | inr e ↦ inr (inl (rw (e) refl))
  ]

  pub walk_same :
      (s : st.Store) (floor h : ℕ)
      → ((k : ℕ) → k ≤ h → Differs st node s k → ⊥)
      → (walk_to_ancestor st node s floor h false ≡ node_failed)
        ⊎ ((k : ℕ) × (walk_to_ancestor st node s floor h false ≡ stopped k false))
  unfolding walk_to_ancestor
  walk_same s floor zero same = inr (0, refl)
  walk_same s floor (suc h) same =
      elim (reorg_round-same s floor (suc h) (same (suc h) (omega arith))) [
        | inl e ↦ inl (rw (walk_to_ancestor, e) refl)
        | inr (inl e) ↦ inr (suc h, rw (walk_to_ancestor, e) refl)
        | inr (inr e) ↦ rw (walk_to_ancestor, e) (walk_same s floor h (λ k l. same k (omega arith)))
      ]

  -- What one round says of the height it looked at.
  reorg_round-cases :
      (s : st.Store) (floor h : ℕ) (flag : Bool)
      → (reorg_round st node s floor h flag ≡ leave node_failed)
        ⊎ ((reorg_round st node s floor h flag ≡ leave (stopped h flag))
            ⊎ ((floor ≤ h) × ((next : Bool) × (reorg_round st node s floor h flag ≡ lower next))))
  unfolding reorg_round look_at compare_hashes
  reorg_round-cases s floor h flag = ground (arith, leb→le floor h)

  pub walk_bounds :
      (s : st.Store) (floor h k : ℕ) (flag raised : Bool)
      → floor ≤ suc h
      → walk_to_ancestor st node s floor h flag ≡ stopped k raised
      → (k ≤ h) × (floor ≤ suc k)
  unfolding walk_to_ancestor
  walk_bounds s floor zero k flag raised low e = ground arith
  walk_bounds s floor (suc h) k flag raised low e = elim (reorg_round-cases s floor (suc h) flag) [
    | inl r ↦ absurd (ground arith)
    | inr (inl r) ↦ ground arith
    | inr (inr (l, (next, r))) ↦ ground (arith, walk_bounds s floor h k next raised (omega arith))
  ]
