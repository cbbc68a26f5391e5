-- ===== src/Sync/Heal/Fork.antt =====
-- The startup heal of a store whose blocks the node has replaced, and how it fails.
use metashrew.Prelude.{
  ℕ, ◌+◌, ◌≤◌, ◌<◌, ◌≡◌, refl, sym, ◌⊎◌, inl, inr, Bool, true, false, none, ne→bytes_eq, arith,
  Bool-cases,
}
use metashrew.Sync.Error.{SyncError, ok, err, unwrap_or}
use metashrew.Sync.Adapters.{SyncConfig, Node, StorageAdapter}
use metashrew.Sync.Reorg.{Differs, Matches}
use metashrew.Sync.Heal.{
  healed, Pointers, candidate_of, highest_pointer, all_agree, is_above, read_pointers, heal_done,
  issue_heal, trusts_reported, trusts_stored, find_safe_height, is_fresh, is_confirmed,
  heal_decided, heal_from, heal_pointer_divergence_at_startup,
}
use metashrew.Sync.Heal.Outcomes.{
  find_safe_height-Matches, find_safe_height_bounds, candidate_agree,
}

module _ (st : StorageAdapter) (node : Node) (config : SyncConfig) where
  agreed-highest : (p : Pointers) → all_agree p ≡ true → highest_pointer p ≡ p.indexed_height
  unfolding all_agree highest_pointer
  agreed-highest p e = ground arith

  below-is_above : (p : Pointers) (f : ℕ) → f < highest_pointer p → is_above p f ≡ true
  unfolding highest_pointer is_above
  below-is_above p f l = ground arith

  trusts_stored-down :
      (s : st.Store) (h : ℕ)
      → Differs st node s h ⊎ (st.get_block_hash s h ≡ ok none)
      → trusts_stored st node h (unwrap_or (st.get_block_hash s h) none) ≡ false
  unfolding trusts_stored trusts_reported unwrap_or
  trusts_stored-down s h (inl d) =
      rw (d.stored, d.reported, ne→bytes_eq d.remote_hash d.local_hash (λ e. d.different (sym e)))
        refl
  trusts_stored-down s h (inr e) = rw (e) refl

  is_fresh-behind : (p : Pointers) (f : ℕ) → f < highest_pointer p → is_fresh st node p ≡ false
  unfolding is_fresh
  is_fresh-behind p f l = ground (arith, agreed-highest p)

  is_confirmed-down :
      (s : st.Store) (p : Pointers) (f : ℕ)
      → f < highest_pointer p
      → ((k : ℕ)
          → f < k
          → k ≤ candidate_of p
          → Differs st node s k ⊎ (st.get_block_hash s k ≡ ok none))
      → is_confirmed st node s p ≡ false
  unfolding is_confirmed
  is_confirmed-down s p f l down = elim (Bool-cases (all_agree p)) [
    | inl agree ↦
        rw
          (trusts_stored-down s (candidate_of p) (
            down (candidate_of p)
              (ground (arith, candidate_agree st node config p agree, agreed-highest p agree))
              (omega arith)))
          (ground arith)
    | inr apart ↦ rw (apart) refl
  ]

  heal_from-Matches :
      (s t : st.Store) (p : Pointers) (f : ℕ)
      → node.is_connected ≡ true
      → f < highest_pointer p
      → f ≤ candidate_of p
      → candidate_of p ≤ f + config.max_reorg_depth
      → Matches st node s f
      → ((k : ℕ)
          → f < k
          → k ≤ candidate_of p
          → Differs st node s k ⊎ (st.get_block_hash s k ≡ ok none))
      → st.heal_pointers_atomic s f ≡ (ok tt, t)
      → heal_from st node config s p ≡ (ok (f, healed (highest_pointer p) f), t)
  unfolding heal_from heal_decided issue_heal heal_done
  heal_from-Matches s t p f on behind low deep m down written =
      rw
        (
          is_fresh-behind p f behind,
          is_confirmed-down s p f behind down,
          find_safe_height-Matches st node config s (candidate_of p) f on low deep m down,
          below-is_above p f behind,
          written,
        )
        refl

  -- Let the startup heal be enabled and the node connected; let `f` be at most the lowest of the
  -- three pointers and below the highest, and the lowest at most `max_reorg_depth` above it; let the
  -- store and the node have the same block at `f`, and above it up to the lowest pointer different
  -- ones or none stored; let `heal_pointers_atomic` at `f` succeed. Then the heal returns `f` as the
  -- height that it healed to from the highest pointer, and the store is the one that
  -- `heal_pointers_atomic` leaves.
  pub heal-Matches :
      (s t : st.Store) (f : ℕ)
      → config.enable_startup_heal ≡ true
      → node.is_connected ≡ true
      → f < highest_pointer (read_pointers st s)
      → f ≤ candidate_of (read_pointers st s)
      → candidate_of (read_pointers st s) ≤ f + config.max_reorg_depth
      → Matches st node s f
      → ((k : ℕ)
          → f < k
          → k ≤ candidate_of (read_pointers st s)
          → Differs st node s k ⊎ (st.get_block_hash s k ≡ ok none))
      → st.heal_pointers_atomic s f ≡ (ok tt, t)
      → heal_pointer_divergence_at_startup st node config s
        ≡ (ok (f, healed (highest_pointer (read_pointers st s)) f), t)
  unfolding heal_pointer_divergence_at_startup
  heal-Matches s t f enabled on behind low deep m down written =
      simp (enabled)
        (heal_from-Matches s t (read_pointers st s) f on behind low deep m down written)

  issue_heal-err :
      (s t : st.Store) (p : Pointers) (safe : ℕ) (e : SyncError)
      → issue_heal st s p safe ≡ (err e, t)
      → st.heal_pointers_atomic s safe ≡ (err e, t)
  unfolding issue_heal heal_done
  issue_heal-err s t p safe e h = ground arith

  heal_decided-err :
      (s t : st.Store) (p : Pointers) (fresh confirmed : Bool) (safe : ℕ) (e : SyncError)
      → heal_decided st node fresh confirmed s p safe ≡ (err e, t)
      → st.heal_pointers_atomic s safe ≡ (err e, t)
  unfolding heal_decided
  heal_decided-err s t p true confirmed safe e h = ground arith
  heal_decided-err s t p false true safe e h = ground arith
  heal_decided-err s t p false false safe e h = issue_heal-err s t p safe e h

  -- No other step of the heal fails.
  pub heal-err :
      (s t : st.Store) (e : SyncError)
      → heal_pointer_divergence_at_startup st node config s ≡ (err e, t)
      → (safe : ℕ) × ((safe ≤ candidate_of (read_pointers st s))
          × (st.heal_pointers_atomic s safe ≡ (err e, t)))
  unfolding heal_pointer_divergence_at_startup heal_from
  heal-err s t e h =
      let p = read_pointers st s in
      let safe = find_safe_height st node config s (candidate_of p) in
      elim (Bool-cases config.enable_startup_heal) [
        | inl on ↦ (
          safe,
          (
            (find_safe_height_bounds st node config s (candidate_of p)).0,
            heal_decided-err s t p (is_fresh st node p) (is_confirmed st node s p) safe e
                (simp (on) at h),
          ),
        )
        | inr off ↦ absurd (ground arith)
      ]
