-- ===== src/Sync/Heal/Safe.antt =====
-- The height at which the startup heal leaves the store.
use metashrew.Prelude.{
  ℕ, zero, suc, ◌≤◌, ◌<◌, ◌≡◌, refl, sym, ◌⊎◌, inl, inr, none, some, bytes_eq_refl, ne→bytes_eq,
  leb, arith, Bool-cases, Option-cases, leb→le, leb→lt, lt→leb,
}
use metashrew.Sync.Error.{ok, unwrap_or}
use metashrew.Sync.Adapters.{Node, StorageAdapter}
use metashrew.Sync.Reorg.{Differs, Matches}
use metashrew.Sync.Heal.{heal_reported, heal_stored, heal_round, heal_walk}

module _ (st : StorageAdapter) (node : Node) where
  heal_round_at :
      (s : st.Store) (candidate h safe : ℕ)
      → h ≤ candidate
      → heal_round st node s candidate h ≡ some safe
      → safe ≡ h
  unfolding heal_round heal_stored heal_reported
  heal_round_at s candidate h safe low e = ground arith

  -- The walk ends between the floor and where it starts.
  pub heal_walk_bounds :
      (s : st.Store) (floor candidate h : ℕ)
      → h ≤ candidate
      → floor ≤ h
      → (heal_walk st node s floor candidate h ≤ h)
        × (floor ≤ heal_walk st node s floor candidate h)
  unfolding heal_walk
  heal_walk_bounds s floor candidate zero low high =
      elim (Option-cases (heal_round st node s candidate 0)) [
        | inl e ↦ rw (heal_walk, e) (ground arith)
        | inr (safe, e) ↦ rw (heal_walk, e) (ground (arith, heal_round_at s candidate 0 safe low e))
      ]
  heal_walk_bounds s floor candidate (suc h) low high =
      elim (Option-cases (heal_round st node s candidate (suc h))) [
        | inl e ↦ elim (Bool-cases (leb (suc h) floor)) [
          | inl l ↦ rw (heal_walk, e, l) (ground (arith))
          | inr l ↦
              rw (heal_walk, e, l)
                (ground (
                  arith,
                  heal_walk_bounds s floor candidate h (omega arith)
                      (ground (arith, leb→lt (suc h) floor)),
                ))
        ]
        | inr (safe, e) ↦
            rw (heal_walk, e) (ground (arith, heal_round_at s candidate (suc h) safe low e))
      ]

  heal_round-Matches :
      (s : st.Store) (candidate h : ℕ)
      → Matches st node s h
      → heal_round st node s candidate h ≡ some h
  unfolding heal_round heal_stored heal_reported unwrap_or
  heal_round-Matches s candidate h m = rw (m.stored, m.reported, bytes_eq_refl m.hash) refl

  heal_round-Differs :
      (s : st.Store) (candidate h : ℕ)
      → Differs st node s h
      → heal_round st node s candidate h ≡ none
  unfolding heal_round heal_stored heal_reported unwrap_or
  heal_round-Differs s candidate h d =
      rw (d.stored, d.reported, ne→bytes_eq d.remote_hash d.local_hash (λ e. d.different (sym e)))
        refl

  heal_round_missing :
      (s : st.Store) (candidate h : ℕ)
      → st.get_block_hash s h ≡ ok none
      → heal_round st node s candidate h ≡ none
  unfolding heal_round heal_stored unwrap_or
  heal_round_missing s candidate h e = rw (e) refl

  heal_round_down :
      (s : st.Store) (candidate h : ℕ)
      → Differs st node s h ⊎ (st.get_block_hash s h ≡ ok none)
      → heal_round st node s candidate h ≡ none
  heal_round_down s candidate h (inl d) = heal_round-Differs s candidate h d
  heal_round_down s candidate h (inr e) = heal_round_missing s candidate h e

  pub heal_walk-Matches :
      (s : st.Store) (floor candidate f h : ℕ)
      → floor ≤ f
      → f ≤ h
      → Matches st node s f
      → ((k : ℕ) → f < k → k ≤ h → Differs st node s k ⊎ (st.get_block_hash s k ≡ ok none))
      → heal_walk st node s floor candidate h ≡ f
  unfolding heal_walk
  heal_walk-Matches s floor candidate f zero low high m down = at_f (omega arith)
    where
      at_f : f ≡ 0 → heal_walk st node s floor candidate 0 ≡ f
      at_f e = rw (heal_walk, heal_round-Matches s candidate 0 (rw (sym e) m)) (sym e)
  heal_walk-Matches s floor candidate f (suc h) low high m down =
      elim (Bool-cases (leb (suc h) f)) [
        | inl e ↦ at_f (ground (arith, leb→le (suc h) f))
        | inr e ↦
            rw
              (
                heal_walk,
                heal_round_down s candidate (suc h)
                    (down (suc h) (ground (arith, leb→lt (suc h) f)) (omega arith)),
                lt→leb (suc h) floor (ground (arith, leb→lt (suc h) f)),
              )
              (heal_walk-Matches s floor candidate f h low (ground (arith, leb→lt (suc h) f)) m
                (λ k a b. down k a (omega arith)))
      ]
    where
      at_f : f ≡ suc h → heal_walk st node s floor candidate (suc h) ≡ f
      at_f e = rw (heal_walk, heal_round-Matches s candidate (suc h) (rw (sym e) m)) (sym e)
