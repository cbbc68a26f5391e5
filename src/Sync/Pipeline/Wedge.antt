-- ===== src/Sync/Pipeline/Wedge.antt =====
-- A race of the pipeline: the fetcher reads the cursor before a result moves it and tests the set
-- after, so that the block is fetched a second time.
use metashrew.Prelude.{ℕ, suc, ◌<◌, ◌≡◌, ◌≢◌, refl, [], ◌∷◌, arith}
use metashrew.Sync.Pipeline.{
  count, insert_height, remove_height, idle, loaded, waiting, working, Pipe, started, Step, load,
  listening, no_block_yet, busy, wake, clear, miss, enter, send, receive, commit, retry, report,
  pick_up, store, remove, Reach, here, next,
}

-- The processor works on a block that the store does not take.
abbrev pub Wedged : ℕ → ℕ → Pipe → Type 0
Wedged tip h p = (p.tip ≡ tip) × (p.worker ≡ working h)

Step-Wedged :
    (size tip h : ℕ) {p q : Pipe} → h ≢ suc tip → Step size p q → Wedged tip h p → Wedged tip h q
Step-Wedged size tip h gap (load p e) w = w
Step-Wedged size tip h gap (no_block_yet p k e) w = w
Step-Wedged size tip h gap (busy p k e c) w = w
Step-Wedged size tip h gap (wake p e) w = w
Step-Wedged size tip h gap (clear p k e c) w = w
Step-Wedged size tip h gap (miss p k e) w = w
Step-Wedged size tip h gap (enter p k e) w = w
Step-Wedged size tip h gap (send p k e c) w = w
Step-Wedged size tip h gap (receive p k rest e b) w = absurd (ground arith)
Step-Wedged size tip h gap (commit p k e c) w = absurd (ground arith)
Step-Wedged size tip h gap (retry p k e) w = w
Step-Wedged size tip h gap (report p k e c) w = absurd (ground arith)
Step-Wedged size tip h gap (pick_up p k rest e r) w = w
Step-Wedged size tip h gap (store p k e) w = w
Step-Wedged size tip h gap (remove p k e free) w = w

-- Once wedged, the pipeline stays wedged.
pub Reach-Wedged :
    (size tip h : ℕ) (start : Pipe) {p : Pipe}
    → h ≢ suc tip
    → Wedged tip h start
    → Reach size start p
    → Wedged tip h p
Reach-Wedged size tip h start gap w here = w
Reach-Wedged size tip h start gap w (next r s) =
    Step-Wedged size tip h gap s (Reach-Wedged size tip h start gap w r)

-- The state of the race, for the block above the tip.
abbrev wedged_at : ℕ → Pipe
wedged_at tip = record {
  tip = suc tip;
  current_height = suc (suc tip);
  processing_heights = suc tip ∷ [];
  fetcher = idle;
  blocks = [];
  worker = working (suc tip);
  results = [];
  handler = listening;
}

remove_self : (h : ℕ) → remove_height h (h ∷ []) ≡ []
unfolding remove_height
remove_self h = ground arith

-- The first block is committed, and its result handled, between the fetcher's second load of the
-- cursor and its test of the set.
race_handled :
    (size tip : ℕ)
    → 0 < size
    → Reach size (started tip) (record {
      tip = suc tip;
      current_height = suc (suc tip);
      processing_heights = remove_height (suc tip) (suc tip ∷ []);
      fetcher = loaded (suc tip);
      blocks = [];
      worker = waiting;
      results = [];
      handler = listening;
    })
unfolding started count insert_height
race_handled size tip room =
    next
      (next
        (next
          (next
            (next
              (next
                (next
                  (next
                    (next (next (next here (load _ refl)) (clear _ (suc tip) refl refl))
                      (enter _ (suc tip) refl))
                    (send _ (suc tip) refl room))
                  (load _ refl))
                (receive _ (suc tip) [] refl refl))
              (commit _ (suc tip) refl refl))
            (report _ (suc tip) refl room))
          (pick_up _ (suc tip) [] refl refl))
        (store _ (suc tip) refl))
      (remove _ (suc tip) refl refl)

fetched_again :
    (size tip : ℕ)
    → 0 < size
    → Reach size
        (record {
          tip = suc tip;
          current_height = suc (suc tip);
          processing_heights = [];
          fetcher = loaded (suc tip);
          blocks = [];
          worker = waiting;
          results = [];
          handler = listening;
        })
        (wedged_at tip)
unfolding count insert_height
fetched_again size tip room =
    next
      (next (next (next here (clear _ (suc tip) refl refl)) (enter _ (suc tip) refl))
        (send _ (suc tip) refl room))
      (receive _ (suc tip) [] refl refl)

Reach-trans : (size : ℕ) {a b c : Pipe} → Reach size a b → Reach size b c → Reach size a c
Reach-trans size r here = r
Reach-trans size r (next q s) = next (Reach-trans size r q) s

race : (size tip : ℕ) → 0 < size → Reach size (started tip) (wedged_at tip)
race size tip room =
    Reach-trans size (race_handled size tip room)
      (rw (remove_self (suc tip)) (fetched_again size tip room))

-- From its start at any tip, with channels of at least one place, the pipeline can reach a state in
-- which the processor works on the block at the tip itself, fetched a second time, and from there
-- every state that it reaches has the same tip and the processor on the same block.
pub race-Wedged :
    (size tip : ℕ)
    → 0 < size
    → (w : Pipe) × (Reach size (started tip) w
        × ((p : Pipe) → Reach size w p → (p.tip ≡ suc tip) × (p.worker ≡ working (suc tip))))
race-Wedged size tip room = (
  wedged_at tip,
  (
    race size tip room,
    λ p r. Reach-Wedged size (suc tip) (suc tip) (wedged_at tip) (ground arith) (refl, refl) r,
  ),
)
