-- ===== src/EngineTests.antt =====
-- Adapters for the sync engine: a chain of hashes as the store, a node, and a runtime that gives the
-- block back. Each theorem on the engine at a small input.
use metashrew.Prelude.{
  ℕ, zero, suc, ◌+◌, ◌-◌, ◌≤◌, ◌<◌, ◌≡◌, refl, ◌⊎◌, inl, true, none, List, [], ◌∷◌, ◌++◌, Bytes,
  codes, length, get_elem?, take, ◌==◌, if◌then◌else◌, arith,
}
use metashrew.Sync.Error.{SyncError, storage, network, SyncResult, ok, err, unwrap_or}
use metashrew.Sync.Adapters.{default_config, Node, Outcome, StorageAdapter, RuntimeAdapter}
use metashrew.Sync.Reorg.{Differs, Matches, handle_reorg}
use metashrew.Sync.Reorg.Reconcile.{handle_reorg-rollback, handle_reorg-same, handle_reorg_bounds}
use metashrew.Sync.Heal.{
  healed, candidate_of, highest_pointer, read_pointers, heal_pointer_divergence_at_startup,
}
use metashrew.Sync.Heal.Outcomes.{heal_bounds}
use metashrew.Sync.Heal.Fork.{heal-Matches}
use metashrew.Sync.Apply.{process_block}
use metashrew.Sync.Apply.Budget.{process_block_bounds}
use metashrew.Sync.Pipeline.{
  Pipe, started, working, Reach, here, next, load, clear, enter, send, receive, commit, report,
  pick_up, store, inserted, stored, waiting, insert_height, in_flight, count,
}
use metashrew.Sync.Pipeline.InFlight.{in_flight_once}
use metashrew.Sync.Pipeline.Wedge.{race-Wedged}
use metashrew.Sync.Snapshot.{LoopState}
use metashrew.Sync.Snapshot.Skips.{rounds, rounds-skips}
use metashrew.Sync.Validate.{decoded, Codec, validate_block_connects}
use metashrew.Sync.Validate.Inline.{Reads, IsLinkedTo, display_hash, validate_block_connects_iff}
use metashrew.Prelude.{◌↔◌}

abbrev commit_chain : List Bytes → ℕ → Bytes → Bytes → Bytes → Outcome Unit (List Bytes)
commit_chain s height hash root batch =
    if height == length s
    then (ok tt, s ++ hash ∷ [])
    else (err (storage (codes "out of order")), s)

commit_chain-err :
    (s t : List Bytes) (height : ℕ) (hash root batch : Bytes) (e : SyncError)
    → commit_chain s height hash root batch ≡ (err e, t)
    → t ≡ s
commit_chain-err s t height hash root batch e h = ground arith

abbrev chain_store : StorageAdapter
chain_store = record {
  Store = List Bytes;
  get_indexed_height = λ s. ok (length s - 1);
  get_block_hash = λ s h. ok (get_elem? s h);
  get_state_root = λ s h. ok none;
  store_state_root = λ s h root. (ok tt, s);
  rollback_to_height = λ s h. (ok tt, take (h + 1) s);
  get_runtime_tip_height = λ s. ok (length s - 1);
  find_max_stored_block_hash_height = λ s floor. ok (length s - 1);
  heal_pointers_atomic = λ s h. (ok tt, take (h + 1) s);
  commit_atomic = commit_chain;
  commit_atomic-err = commit_chain-err;
}

-- The machine counts its refreshes.
abbrev echo_runtime : RuntimeAdapter chain_store
echo_runtime = record {
  Machine = ℕ;
  process_block_atomic = λ m s height body hash.
      (ok (record { state_root = []; batch_data = []; height = height; block_hash = hash }), m);
  refresh_memory = λ m. (ok tt, suc m);
}

abbrev hash_at : List Bytes → ℕ → SyncResult Bytes
hash_at [] h = err (network (codes "no block"))
hash_at (b ∷ bs) zero = ok b
hash_at (b ∷ bs) (suc h) = hash_at bs h

abbrev node_of : List Bytes → Node
node_of hashes = record {
  tip_height = ok (length hashes - 1);
  block_hash = hash_at hashes;
  block_data = hash_at hashes;
  block_info = λ h. elim (hash_at hashes h) [
    | ok hash ↦ ok (record { height = h; hash = hash; data_bytes = [] })
    | err e ↦ err e
  ];
  is_connected = true;
}

-- The node has replaced the blocks 2 and 3.
abbrev stale : List Bytes
stale = (1 ∷ []) ∷ (2 ∷ []) ∷ (3 ∷ []) ∷ (4 ∷ []) ∷ []

abbrev replaced : Node
replaced = node_of ((1 ∷ []) ∷ (2 ∷ []) ∷ (5 ∷ []) ∷ (6 ∷ []) ∷ (7 ∷ []) ∷ [])

abbrev unchanged : Node
unchanged = node_of stale

fork_at_one : Matches chain_store replaced stale 1
fork_at_one = record { hash = 2 ∷ []; stored = refl; reported = refl }

changed_above : (k : ℕ) → 1 < k → k < 4 → Differs chain_store replaced stale k
changed_above zero low high = absurd (omega arith)
changed_above (suc zero) low high = absurd (omega arith)
changed_above (suc (suc zero)) low high = record {
  local_hash = 3 ∷ [];
  remote_hash = 5 ∷ [];
  stored = refl;
  reported = refl;
  different = λ e. ground arith;
}
changed_above (suc (suc (suc zero))) low high = record {
  local_hash = 4 ∷ [];
  remote_hash = 6 ∷ [];
  stored = refl;
  reported = refl;
  different = λ e. ground arith;
}
changed_above (suc (suc (suc (suc k)))) low high = absurd (omega arith)

handle_reorg-rollback_example :
    handle_reorg chain_store echo_runtime replaced default_config 4 stale 0
    ≡ (ok 2, (take 2 stale, 1))
handle_reorg-rollback_example =
    handle_reorg-rollback chain_store echo_runtime replaced default_config stale (take 2 stale) 0 1
      4 1 (omega arith) (omega arith) (inl fork_at_one) changed_above refl refl

same_below : (k : ℕ) → k < 9 → Differs chain_store unchanged stale k → ⊥
same_below zero low d = ground (arith, d.stored, d.reported, d.different)
same_below (suc zero) low d = ground (arith, d.stored, d.reported, d.different)
same_below (suc (suc zero)) low d = ground (arith, d.stored, d.reported, d.different)
same_below (suc (suc (suc zero))) low d = ground (arith, d.stored, d.reported, d.different)
same_below (suc (suc (suc (suc k)))) low d = ground (arith, d.stored)

handle_reorg-same_example :
    handle_reorg chain_store echo_runtime unchanged default_config 9 stale 0 ≡ (ok 9, (stale, 0))
handle_reorg-same_example =
    handle_reorg-same chain_store echo_runtime unchanged default_config stale 0 9 same_below

handle_reorg_bounds_example : (2 ≤ 4) × (4 ≤ 2 + 100)
handle_reorg_bounds_example =
    handle_reorg_bounds chain_store echo_runtime replaced default_config stale (take 2 stale) 0 1 4
      2 handle_reorg-rollback_example

healthy-Matches : Matches chain_store unchanged stale 3
healthy-Matches = record { hash = 4 ∷ []; stored = refl; reported = refl }

changed_or_missing :
    (k : ℕ)
    → 1 < k
    → k ≤ candidate_of (read_pointers chain_store stale)
    → Differs chain_store replaced stale k ⊎ (chain_store.get_block_hash stale k ≡ ok none)
unfolding candidate_of read_pointers unwrap_or
changed_or_missing k low high = inl (changed_above k low (omega arith))

heal-Matches_example :
    heal_pointer_divergence_at_startup chain_store replaced default_config stale
    ≡ (ok (1, healed 3 1), take 2 stale)
unfolding candidate_of highest_pointer read_pointers unwrap_or
heal-Matches_example =
    heal-Matches chain_store replaced default_config stale (take 2 stale) 1 refl refl (omega arith)
      (omega arith) (omega arith) fork_at_one changed_or_missing refl

heal_bounds_example :
    (1 ≤ (read_pointers chain_store stale).indexed_height)
    × ((1 ≤ (read_pointers chain_store stale).runtime_tip)
        × ((1 ≤ (read_pointers chain_store stale).max_blockhash_h)
            × (candidate_of (read_pointers chain_store stale) ≤ 1 + 100)))
heal_bounds_example =
    heal_bounds chain_store replaced default_config stale (take 2 stale) 1 (healed 3 1) refl
      heal-Matches_example

process_block_bounds_example :
    ((process_block chain_store echo_runtime (ok true) 7 [] (9 ∷ []) stale 0).attempts ≤ 30)
    × ((process_block chain_store echo_runtime (ok true) 7 [] (9 ∷ []) stale 0).slept_ms ≤ 651100)
process_block_bounds_example =
    process_block_bounds chain_store echo_runtime (ok true) 7 [] (9 ∷ []) stale 0

-- A runtime that fails until its memory has been refreshed twice.
abbrev late_runtime : RuntimeAdapter chain_store
late_runtime = record {
  Machine = ℕ;
  process_block_atomic = λ m s height body hash.
      if m == 2
      then (ok (record { state_root = []; batch_data = []; height = height; block_hash = hash }), m)
      else (err (storage (codes "not ready")), m);
  refresh_memory = λ m. (ok tt, suc m);
}

-- The block 5 is committed and the cursor moved past it, the fetcher has entered the block 6, and the
-- result loop has yet to remove 5 from the set.
abbrev overlapping : Pipe
overlapping = record {
  tip = 5;
  current_height = 6;
  processing_heights = 6 ∷ 5 ∷ [];
  fetcher = inserted 6;
  blocks = [];
  worker = waiting;
  results = [];
  handler = stored 5;
}

overlapping-Reach : Reach 8 (started 4) overlapping
unfolding started insert_height count
overlapping-Reach =
    next
      (next
        (next
          (next
            (next
              (next
                (next
                  (next
                    (next
                      (next (next (next here (load _ refl)) (clear _ 5 refl refl)) (enter _ 5 refl))
                      (send _ 5 refl (omega arith)))
                    (receive _ 5 [] refl refl))
                  (commit _ 5 refl refl))
                (report _ 5 refl (omega arith)))
              (pick_up _ 5 [] refl refl))
            (store _ 5 refl))
          (load _ refl))
        (clear _ 6 refl refl))
      (enter _ 6 refl)

in_flight_once_example :
    ((k : ℕ)
      → (count k (in_flight overlapping) ≡ count k overlapping.processing_heights)
        × (count k (in_flight overlapping) ≤ 1))
    × ((0 ≤ 8) × (0 ≤ 8))
in_flight_once_example = in_flight_once 8 4 overlapping overlapping-Reach

race-Wedged_example :
    (w : Pipe) × (Reach 5 (started 100) w
      × ((p : Pipe) → Reach 5 w p → (p.tip ≡ 101) × (p.worker ≡ working 101)))
race-Wedged_example = race-Wedged 5 100 (omega arith)

-- Headers are their bytes, and the hash is the first byte.
abbrev toy_codec : Codec
toy_codec = record {
  Header = Bytes;
  deserialize = λ b. decoded b;
  consensus_encode = λ h. decoded h;
  prev_blockhash = λ h. h;
  sha256 = λ b. take 1 b;
}

abbrev toy_reads : Reads toy_codec (4 ∷ [])
toy_reads = record { header = 4 ∷ []; header_bytes = 4 ∷ []; deserialized = refl; encoded = refl }

validate_block_connects_iff_example :
    (validate_block_connects chain_store toy_codec none stale 4 (4 ∷ []) (4 ∷ []) ≡ ok true) ↔ (
      (display_hash chain_store toy_codec (4 ∷ []) ≡ 4 ∷ [])
      × IsLinkedTo chain_store toy_codec stale 4 (4 ∷ []))
validate_block_connects_iff_example =
    validate_block_connects_iff chain_store toy_codec stale 4 (4 ∷ []) (4 ∷ []) toy_reads

-- After a rollback to the block 1, the loop stands at 2 and the cursor at 4.
abbrev rolled_back : LoopState (List Bytes) ℕ
rolled_back = record { height = 2; current_height = 4; store = take 2 stale; machine = 1 }

abbrev five_blocks : List Bytes
five_blocks = (1 ∷ []) ∷ (2 ∷ []) ∷ (5 ∷ []) ∷ (6 ∷ []) ∷ (7 ∷ []) ∷ []

hash_below : (h : ℕ) → h < 4 → (hash : Bytes) × (hash_at five_blocks h ≡ ok hash)
hash_below zero low = (1 ∷ [], refl)
hash_below (suc zero) low = (2 ∷ [], refl)
hash_below (suc (suc zero)) low = (5 ∷ [], refl)
hash_below (suc (suc (suc zero))) low = (6 ∷ [], refl)
hash_below (suc (suc (suc (suc k)))) low = absurd (omega arith)

rolled_back_same : (h : ℕ) → h < 4 → Differs chain_store replaced (take 2 stale) h → ⊥
rolled_back_same zero low d = ground (arith, d.stored, d.reported, d.different)
rolled_back_same (suc zero) low d = ground (arith, d.stored, d.reported, d.different)
rolled_back_same (suc (suc h)) low d = ground (arith, d.stored)

rounds-skips_example :
    rounds chain_store echo_runtime replaced default_config 2 rolled_back
    ≡ record { height = 4; current_height = 4; store = take 2 stale; machine = 1 }
rounds-skips_example =
    rounds-skips chain_store echo_runtime replaced default_config 2 4 rolled_back refl refl
      (omega arith) refl hash_below hash_below rolled_back_same
