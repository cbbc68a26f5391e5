-- ===== src/Sync/Heal.antt =====
-- `heal_pointer_divergence_at_startup` of crates/metashrew-sync/src/sync.rs. The walk back is
-- recursion on the height that it looks at.
pub mod Safe
pub mod Outcomes
pub mod Fork
use metashrew.Prelude.{
  ℕ, zero, suc, ◌+◌, ◌-◌, ◌≤◌, ◌<◌, ◌≡◌, Bool, true, false, ◌&&◌, ◌||◌, Option, none, some, Bytes,
  bytes_eq, leb, ltb, ◌==◌, if◌then◌else◌,
}
use metashrew.Sync.Error.{SyncResult, ok, err, unwrap_or}
use metashrew.Sync.Adapters.{SyncConfig, Node, Outcome, StorageAdapter}
use metashrew.Sync.Retry.{min}

pub data StartupHealOutcome : Type 0 where
  already_consistent : (tip : ℕ) → StartupHealOutcome
  healed : (from healed_to : ℕ) → StartupHealOutcome
  disabled : StartupHealOutcome

pub record Pointers : Type 0 where
  pub indexed_height : ℕ
  pub runtime_tip : ℕ
  pub max_blockhash_h : ℕ

abbrev pub max : ℕ → ℕ → ℕ
max a b = if leb a b then b else a

unfoldable pub candidate_of : Pointers → ℕ
candidate_of p = min (min p.indexed_height p.runtime_tip) p.max_blockhash_h

unfoldable pub highest_pointer : Pointers → ℕ
highest_pointer p = max (max p.indexed_height p.runtime_tip) p.max_blockhash_h

unfoldable pub all_agree : Pointers → Bool
all_agree p = (p.indexed_height == p.runtime_tip) && (p.runtime_tip == p.max_blockhash_h)

unfoldable pub is_above : Pointers → ℕ → Bool
is_above p safe_height =
    ltb safe_height p.indexed_height
    || (ltb safe_height p.runtime_tip || ltb safe_height p.max_blockhash_h)

module _ (st : StorageAdapter) where
  unfoldable pub read_pointers : st.Store → Pointers
  read_pointers s =
      let indexed = unwrap_or (st.get_indexed_height s) 0 in
      record {
        indexed_height = indexed;
        runtime_tip = unwrap_or (st.get_runtime_tip_height s) indexed;
        max_blockhash_h =
            unwrap_or (st.find_max_stored_block_hash_height s (indexed - 256)) indexed;
      }

  unfoldable pub heal_done :
      ℕ → ℕ → Outcome Unit st.Store → Outcome (ℕ × StartupHealOutcome) st.Store
  heal_done from safe_height (err e, t) = (err e, t)
  heal_done from safe_height (ok u, t) = (ok (safe_height, healed from safe_height), t)

  -- Step 5
  unfoldable pub issue_heal : st.Store → Pointers → ℕ → Outcome (ℕ × StartupHealOutcome) st.Store
  issue_heal s p safe_height =
      if is_above p safe_height
      then heal_done (highest_pointer p) safe_height (st.heal_pointers_atomic s safe_height)
      else (ok (safe_height, already_consistent safe_height), s)

module _ (st : StorageAdapter) (node : Node) where
  -- Whether the node confirms the height on which the pointers agree, or fails when asked.
  unfoldable pub trusts_reported : Bytes → SyncResult Bytes → Bool
  trusts_reported stored_hash (ok remote_hash) = bytes_eq remote_hash stored_hash
  trusts_reported stored_hash (err e) = true

  unfoldable pub trusts_stored : ℕ → Option Bytes → Bool
  trusts_stored h none = false
  trusts_stored h (some stored_hash) = trusts_reported stored_hash (node.block_hash h)

  -- One round of the walk: the safe height, when it breaks out.
  unfoldable pub heal_reported : ℕ → ℕ → Bytes → SyncResult Bytes → Option ℕ
  heal_reported candidate h stored_hash (ok remote_hash) =
      if bytes_eq remote_hash stored_hash then some h else none
  heal_reported candidate h stored_hash (err e) = some (min candidate h)

  unfoldable pub heal_stored : ℕ → ℕ → Option Bytes → Option ℕ
  heal_stored candidate h none = none
  heal_stored candidate h (some stored_hash) =
      heal_reported candidate h stored_hash (node.block_hash h)

  unfoldable pub heal_round : st.Store → ℕ → ℕ → Option ℕ
  heal_round s candidate h = heal_stored candidate h (unwrap_or (st.get_block_hash s h) none)

  unfoldable pub heal_walk : st.Store → ℕ → ℕ → ℕ → ℕ
  heal_walk s floor candidate zero = elim (heal_round s candidate zero) [
    | some safe ↦ safe
    | none ↦ 0
  ]
  heal_walk s floor candidate (suc h) =
      let lower = heal_walk s floor candidate h in
      elim (heal_round s candidate (suc h)) [
        | some safe ↦ safe
        | none ↦ if leb (suc h) floor then suc h else lower
      ]

  unfoldable pub find_safe_height : SyncConfig → st.Store → ℕ → ℕ
  find_safe_height config s candidate =
      if node.is_connected
      then heal_walk s (candidate - config.max_reorg_depth) candidate candidate
      else candidate

  -- Steps 2 to 5, from whether a fresh store or a confirmed tip lets the function return early.
  unfoldable pub heal_decided :
      (fresh confirmed : Bool) → st.Store → Pointers → ℕ → Outcome (ℕ × StartupHealOutcome) st.Store
  heal_decided true confirmed s p safe_height =
      (ok (p.indexed_height, already_consistent p.indexed_height), s)
  heal_decided false true s p safe_height =
      (ok (candidate_of p, already_consistent (candidate_of p)), s)
  heal_decided false false s p safe_height = issue_heal st s p safe_height

  unfoldable pub is_fresh : Pointers → Bool
  is_fresh p = all_agree p && (p.indexed_height == 0)

  unfoldable pub is_confirmed : st.Store → Pointers → Bool
  is_confirmed s p =
      (all_agree p && node.is_connected)
      && trusts_stored (candidate_of p) (unwrap_or (st.get_block_hash s (candidate_of p)) none)

  unfoldable pub heal_from :
      SyncConfig → st.Store → Pointers → Outcome (ℕ × StartupHealOutcome) st.Store
  heal_from config s p =
      heal_decided (is_fresh p) (is_confirmed s p) s p (find_safe_height config s (candidate_of p))

  unfoldable pub heal_pointer_divergence_at_startup :
      SyncConfig → st.Store → Outcome (ℕ × StartupHealOutcome) st.Store
  heal_pointer_divergence_at_startup config s =
      if config.enable_startup_heal
      then heal_from config s (read_pointers st s)
      else (ok (unwrap_or (st.get_indexed_height s) 0, disabled), s)
