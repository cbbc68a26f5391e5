-- ===== src/Sync/Heal/Outcomes.antt =====
-- What the startup heal returns and writes.
use metashrew.Prelude.{
  ℕ, ◌+◌, ◌-◌, ◌≤◌, ◌<◌, ◌≡◌, refl, sym, ap, ◌∙◌, ◌⊎◌, inl, inr, Bool, true, false, none, arith,
  Bool-cases,
}
use metashrew.Sync.Error.{ok}
use metashrew.Sync.Adapters.{SyncConfig, Node, StorageAdapter}
use metashrew.Sync.Reorg.{Differs, Matches}
use metashrew.Sync.Heal.{
  StartupHealOutcome, already_consistent, Pointers, candidate_of, all_agree, is_above,
  read_pointers, heal_done, issue_heal, find_safe_height, heal_decided, is_fresh, is_confirmed,
  heal_from, heal_pointer_divergence_at_startup,
}
use metashrew.Sync.Heal.Safe.{heal_walk_bounds, heal_walk-Matches}

module _ (st : StorageAdapter) (node : Node) (config : SyncConfig) where
  pub find_safe_height_bounds :
      (s : st.Store) (candidate : ℕ)
      → (find_safe_height st node config s candidate ≤ candidate)
        × (candidate ≤ find_safe_height st node config s candidate + config.max_reorg_depth)
  unfolding find_safe_height
  find_safe_height_bounds s candidate = ground (
    arith,
    heal_walk_bounds st node s (candidate - config.max_reorg_depth) candidate candidate
        (omega arith) (omega arith),
  )

  issue_heal_height :
      (s t : st.Store) (p : Pointers) (safe height : ℕ) (outcome : StartupHealOutcome)
      → issue_heal st s p safe ≡ (ok (height, outcome), t)
      → height ≡ safe
  unfolding issue_heal heal_done
  issue_heal_height s t p safe height outcome e = ground arith

  pub candidate_agree : (p : Pointers) → all_agree p ≡ true → candidate_of p ≡ p.indexed_height
  unfolding candidate_of all_agree
  candidate_agree p e = ground arith

  is_fresh-zero :
      (p : Pointers) → is_fresh st node p ≡ true → (candidate_of p ≡ 0) × (p.indexed_height ≡ 0)
  unfolding is_fresh
  is_fresh-zero p e = ground (arith, candidate_agree p)

  candidate_low :
      (p : Pointers)
      → (candidate_of p ≤ p.indexed_height)
        × ((candidate_of p ≤ p.runtime_tip) × (candidate_of p ≤ p.max_blockhash_h))
  unfolding candidate_of
  candidate_low p = (ground arith, (ground arith, ground arith))

  heal_decided_bounds :
      (s t : st.Store) (p : Pointers) (fresh confirmed : Bool) (safe height : ℕ)
      (outcome : StartupHealOutcome)
      → (fresh ≡ true → (candidate_of p ≡ 0) × (p.indexed_height ≡ 0))
      → safe ≤ candidate_of p
      → candidate_of p ≤ safe + config.max_reorg_depth
      → heal_decided st node fresh confirmed s p safe ≡ (ok (height, outcome), t)
      → (height ≤ candidate_of p) × (candidate_of p ≤ height + config.max_reorg_depth)
  unfolding heal_decided
  heal_decided_bounds s t p true confirmed safe height outcome when_fresh low high e =
      ground (arith, when_fresh refl)
  heal_decided_bounds s t p false true safe height outcome when_fresh low high e = ground arith
  heal_decided_bounds s t p false false safe height outcome when_fresh low high e =
      ground (arith, issue_heal_height s t p safe height outcome e)

  heal_from_bounds :
      (s t : st.Store) (p : Pointers) (height : ℕ) (outcome : StartupHealOutcome)
      → heal_from st node config s p ≡ (ok (height, outcome), t)
      → (height ≤ candidate_of p) × (candidate_of p ≤ height + config.max_reorg_depth)
  unfolding heal_from
  heal_from_bounds s t p height outcome e =
      let bounds = find_safe_height_bounds s (candidate_of p) in
      heal_decided_bounds s t p (is_fresh st node p) (is_confirmed st node s p)
        (find_safe_height st node config s (candidate_of p)) height outcome (is_fresh-zero p)
        bounds.0 bounds.1 e

  -- If the startup heal is enabled and returns a height, that height is at most each of the three
  -- pointers, and the lowest of them is at most `max_reorg_depth` above it.
  pub heal_bounds :
      (s t : st.Store) (height : ℕ) (outcome : StartupHealOutcome)
      → config.enable_startup_heal ≡ true
      → heal_pointer_divergence_at_startup st node config s ≡ (ok (height, outcome), t)
      → (height ≤ (read_pointers st s).indexed_height)
        × ((height ≤ (read_pointers st s).runtime_tip)
            × ((height ≤ (read_pointers st s).max_blockhash_h)
                × (candidate_of (read_pointers st s) ≤ height + config.max_reorg_depth)))
  unfolding heal_pointer_divergence_at_startup
  heal_bounds s t height outcome on e = ground (
    arith,
    heal_from_bounds s t (read_pointers st s) height outcome,
    candidate_low (read_pointers st s),
  )

  unchanged_above : (p : Pointers) → all_agree p ≡ true → is_above p p.indexed_height ≡ false
  unfolding is_above all_agree
  unchanged_above p e = ground arith

  issue_heal_agreed :
      (s : st.Store) (p : Pointers)
      → all_agree p ≡ true
      → issue_heal st s p p.indexed_height
        ≡ (ok (p.indexed_height, already_consistent p.indexed_height), s)
  unfolding issue_heal
  issue_heal_agreed s p e = rw (unchanged_above p e) refl

  heal_decided_agreed :
      (s : st.Store) (p : Pointers) (fresh confirmed : Bool) (safe : ℕ)
      → all_agree p ≡ true
      → safe ≡ p.indexed_height
      → heal_decided st node fresh confirmed s p safe
        ≡ (ok (p.indexed_height, already_consistent p.indexed_height), s)
  unfolding heal_decided
  heal_decided_agreed s p true confirmed safe e q = refl
  heal_decided_agreed s p false true safe e q = rw (candidate_agree p e) refl
  heal_decided_agreed s p false false safe e q = rw (q) (issue_heal_agreed s p e)

  heal_from_agreed :
      (s : st.Store) (p : Pointers) (h : ℕ)
      → all_agree p ≡ true
      → p.indexed_height ≡ h
      → find_safe_height st node config s h ≡ h
      → heal_from st node config s p ≡ (ok (h, already_consistent h), s)
  unfolding heal_from
  heal_from_agreed s p h agree a safe =
      let at_h : candidate_of p ≡ h = candidate_agree p agree ∙ a in
      heal_decided_agreed s p (is_fresh st node p) (is_confirmed st node s p)
        (find_safe_height st node config s (candidate_of p)) agree
        (ap (find_safe_height st node config s) at_h ∙ safe ∙ sym a)
      ∙ ap (λ k. (ok (k, already_consistent k), s)) a

  pub find_safe_height-Matches :
      (s : st.Store) (h f : ℕ)
      → node.is_connected ≡ true
      → f ≤ h
      → h ≤ f + config.max_reorg_depth
      → Matches st node s f
      → ((k : ℕ) → f < k → k ≤ h → Differs st node s k ⊎ (st.get_block_hash s k ≡ ok none))
      → find_safe_height st node config s h ≡ f
  unfolding find_safe_height
  find_safe_height-Matches s h f on low deep m down =
      simp (on)
        (heal_walk-Matches st node s (h - config.max_reorg_depth) h f h (omega arith) low m down)

  find_safe_height_healthy :
      (s : st.Store) (h : ℕ)
      → (node.is_connected ≡ false) ⊎ Matches st node s h
      → find_safe_height st node config s h ≡ h
  unfolding find_safe_height
  find_safe_height_healthy s h (inl off) = rw (off) refl
  find_safe_height_healthy s h (inr m) = elim (Bool-cases node.is_connected) [
    | inl on ↦
        find_safe_height-Matches s h h on (omega arith) (omega arith) m
          (λ k a b. absurd (omega arith))
    | inr off ↦ rw (off) refl
  ]

  all_agree-intro :
      (p : Pointers)
      → p.runtime_tip ≡ p.indexed_height
      → p.max_blockhash_h ≡ p.indexed_height
      → all_agree p ≡ true
  unfolding all_agree
  all_agree-intro p a b = ground arith

  -- If the startup heal is enabled and the three pointers agree, it returns their height as
  -- consistent and leaves the store as it was, provided that the node is not connected or has the
  -- stored block at that height.
  pub heal_healthy :
      (s : st.Store) (h : ℕ)
      → config.enable_startup_heal ≡ true
      → (read_pointers st s).indexed_height ≡ h
      → (read_pointers st s).runtime_tip ≡ h
      → (read_pointers st s).max_blockhash_h ≡ h
      → (node.is_connected ≡ false) ⊎ Matches st node s h
      → heal_pointer_divergence_at_startup st node config s ≡ (ok (h, already_consistent h), s)
  unfolding heal_pointer_divergence_at_startup
  heal_healthy s h on a b c healthy = simp (on) (
      heal_from_agreed s (read_pointers st s) h
        (all_agree-intro (read_pointers st s) (b ∙ sym a) (c ∙ sym a)) a
        (find_safe_height_healthy s h healthy))
