-- ===== src/Sync/Pipeline/InFlight.antt =====
-- No block is in flight twice: the set of the heights in work is that of the blocks on their way, the
-- one that the result loop handles included.
use metashrew.Prelude.{
  ℕ, ◌+◌, ◌≤◌, ◌≡◌, refl, sym, ap, ◌∙◌, List, [], ◌∷◌, ◌++◌, length, length-append, ◌==◌,
  if◌then◌else◌, arith, ==→eq,
}
use metashrew.Sync.Pipeline.{
  count, insert_height, remove_height, Fetcher, idle, loaded, cleared, inserted, Worker, Pipe,
  started, sleeping, Handler, Step, load, no_block_yet, busy, wake, clear, miss, enter, send,
  receive, commit, retry, report, pick_up, store, remove, handler_holds, Reach, here, next,
  fetcher_holds, worker_holds, in_flight,
}

count-append : (k : ℕ) (xs ys : List ℕ) → count k (xs ++ ys) ≡ count k xs + count k ys
unfolding count
count-append k [] ys = omega arith
count-append k (h ∷ xs) ys = omega (arith, count-append k xs ys)

count-insert_height :
    (k h : ℕ) (hs : List ℕ)
    → count h hs ≡ 0
    → count k (insert_height h hs) ≡ count k (h ∷ []) + count k hs
unfolding insert_height count
count-insert_height k h hs e = ground arith

count-remove_height :
    (k h : ℕ) (hs : List ℕ) → count k (remove_height h hs) ≡ (if h == k then 0 else count k hs)
unfolding remove_height count
count-remove_height k h [] = ground arith
count-remove_height k h (j ∷ hs) = ground (arith, count-remove_height k h hs)

-- The copies of a block in flight, part by part.
abbrev pub copies : ℕ → Pipe → ℕ
copies k p =
    count k (fetcher_holds p.fetcher)
    + (count k p.blocks
        + (count k (worker_holds p.worker)
            + (count k p.results + count k (handler_holds p.handler))))

copies-in_flight : (k : ℕ) (p : Pipe) → count k (in_flight p) ≡ copies k p
unfolding in_flight
copies-in_flight k p =
    let last = p.results ++ handler_holds p.handler in
    omega (
      arith,
      count-append k (fetcher_holds p.fetcher) (p.blocks ++ (worker_holds p.worker ++ last)),
      count-append k p.blocks (worker_holds p.worker ++ last),
      count-append k (worker_holds p.worker) last,
      count-append k p.results (handler_holds p.handler),
    )

-- A height that the fetcher has found free stays free.
abbrev pub IsClear : Fetcher → List ℕ → Type 0
IsClear idle hs = Unit
IsClear (loaded h) hs = Unit
IsClear sleeping hs = Unit
IsClear (cleared h) hs = count h hs ≡ 0
IsClear (inserted h) hs = Unit

IsClear-remove : (f : Fetcher) (h : ℕ) (hs : List ℕ) → IsClear f hs → IsClear f (remove_height h hs)
IsClear-remove idle h hs c = tt
IsClear-remove (loaded g) h hs c = tt
IsClear-remove sleeping h hs c = tt
IsClear-remove (cleared g) h hs c = ground (arith, count-remove_height g h hs)
IsClear-remove (inserted g) h hs c = tt

pub record IsSound (size : ℕ) (p : Pipe) : Type 0 where
  pub tracked : (k : ℕ) → count k p.processing_heights ≡ copies k p
  pub once : (k : ℕ) → count k p.processing_heights ≤ 1
  pub is_clear : IsClear p.fetcher p.processing_heights
  pub blocks_fit : length p.blocks ≤ size
  pub results_fit : length p.results ≤ size

started-IsSound : (size tip : ℕ) → IsSound size (started tip)
unfolding started count
started-IsSound size tip = record {
  tracked = λ k. refl;
  once = λ k. omega arith;
  is_clear = tt;
  blocks_fit = omega arith;
  results_fit = omega arith;
}

-- The fetcher's copies change only with what it holds.
held : (k : ℕ) {f g : Fetcher} → f ≡ g → count k (fetcher_holds f) ≡ count k (fetcher_holds g)
held k e = ap (λ f. count k (fetcher_holds f)) e

worked : (k : ℕ) {w v : Worker} → w ≡ v → count k (worker_holds w) ≡ count k (worker_holds v)
worked k e = ap (λ w. count k (worker_holds w)) e

handled : (k : ℕ) {g f : Handler} → g ≡ f → count k (handler_holds g) ≡ count k (handler_holds f)
handled k e = ap (λ g. count k (handler_holds g)) e

clear_of : (h : ℕ) {f : Fetcher} (hs : List ℕ) → f ≡ cleared h → IsClear f hs → count h hs ≡ 0
clear_of h hs e c = rw (e) at c

once-insert_height :
    (k h : ℕ) (hs : List ℕ) → count h hs ≡ 0 → count k hs ≤ 1 → count k (insert_height h hs) ≤ 1
unfolding count insert_height
once-insert_height k h hs e o = ground (arith, ==→eq h k)

once-remove_height : (k h : ℕ) (hs : List ℕ) → count k hs ≤ 1 → count k (remove_height h hs) ≤ 1
once-remove_height k h hs o = ground (arith, count-remove_height k h hs)

tracked-remove :
    (k h others : ℕ) (hs : List ℕ)
    → count k hs ≤ 1
    → count k hs ≡ others + count k (h ∷ [])
    → count k (remove_height h hs) ≡ others
unfolding count
tracked-remove k h others hs o e = ground (arith, count-remove_height k h hs)

Step-IsSound : (size : ℕ) {p q : Pipe} → Step size p q → IsSound size p → IsSound size q
unfolding count
Step-IsSound size (load p e) s = record {
  tracked = λ k. omega (arith, s.tracked k, held k e);
  is_clear = tt;
  once = s.once;
  blocks_fit = s.blocks_fit;
  results_fit = s.results_fit;
}
Step-IsSound size (no_block_yet p h e) s = record {
  tracked = λ k. omega (arith, s.tracked k, held k e);
  is_clear = tt;
  once = s.once;
  blocks_fit = s.blocks_fit;
  results_fit = s.results_fit;
}
Step-IsSound size (wake p e) s = record {
  tracked = λ k. omega (arith, s.tracked k, held k e);
  is_clear = tt;
  once = s.once;
  blocks_fit = s.blocks_fit;
  results_fit = s.results_fit;
}
Step-IsSound size (busy p h e c) s = record {
  tracked = λ k. omega (arith, s.tracked k, held k e);
  is_clear = tt;
  once = s.once;
  blocks_fit = s.blocks_fit;
  results_fit = s.results_fit;
}
Step-IsSound size (clear p h e c) s = record {
  tracked = λ k. omega (arith, s.tracked k, held k e);
  is_clear = c;
  once = s.once;
  blocks_fit = s.blocks_fit;
  results_fit = s.results_fit;
}
Step-IsSound size (miss p h e) s = record {
  tracked = λ k. omega (arith, s.tracked k, held k e);
  is_clear = tt;
  once = s.once;
  blocks_fit = s.blocks_fit;
  results_fit = s.results_fit;
}
Step-IsSound size (enter p h e) s =
    let free = clear_of h p.processing_heights e s.is_clear in
    record {
      tracked = λ k.
          omega (arith, s.tracked k, held k e, count-insert_height k h p.processing_heights free);
      once = λ k. once-insert_height k h p.processing_heights free (s.once k);
      is_clear = tt;
      blocks_fit = s.blocks_fit;
      results_fit = s.results_fit;
    }
Step-IsSound size (send p h e c) s = record {
  tracked = λ k. omega (arith, s.tracked k, held k e, count-append k p.blocks (h ∷ []));
  is_clear = tt;
  blocks_fit = omega (arith, length-append p.blocks (h ∷ []));
  once = s.once;
  results_fit = s.results_fit;
}
Step-IsSound size (receive p h rest e b) s = record {
  tracked = λ k. omega (arith, s.tracked k, worked k e, ap (count k) b);
  blocks_fit = omega (arith, s.blocks_fit, ap length b);
  once = s.once;
  is_clear = s.is_clear;
  results_fit = s.results_fit;
}
Step-IsSound size (commit p h e c) s = record {
  tracked = λ k. omega (arith, s.tracked k, worked k e);
  once = s.once;
  is_clear = s.is_clear;
  blocks_fit = s.blocks_fit;
  results_fit = s.results_fit;
}
Step-IsSound size (retry p h e) s = s
Step-IsSound size (report p h e c) s = record {
  tracked = λ k. omega (arith, s.tracked k, worked k e, count-append k p.results (h ∷ []));
  results_fit = omega (arith, length-append p.results (h ∷ []));
  once = s.once;
  is_clear = s.is_clear;
  blocks_fit = s.blocks_fit;
}
Step-IsSound size (pick_up p h rest e r) s = record {
  tracked = λ k. omega (arith, s.tracked k, handled k e, ap (count k) r);
  results_fit = omega (arith, s.results_fit, ap length r);
  once = s.once;
  is_clear = s.is_clear;
  blocks_fit = s.blocks_fit;
}
Step-IsSound size (store p h e) s = record {
  tracked = λ k. omega (arith, s.tracked k, handled k e);
  once = s.once;
  is_clear = s.is_clear;
  blocks_fit = s.blocks_fit;
  results_fit = s.results_fit;
}
Step-IsSound size (remove p h e free) s = record {
  tracked = λ k. omega (
    arith,
    tracked-remove k h
        (count k (fetcher_holds p.fetcher)
          + (count k p.blocks + (count k (worker_holds p.worker) + count k p.results)))
        p.processing_heights (s.once k) (omega (arith, s.tracked k, handled k e)),
  );
  once = λ k. once-remove_height k h p.processing_heights (s.once k);
  is_clear = IsClear-remove p.fetcher h p.processing_heights s.is_clear;
  blocks_fit = s.blocks_fit;
  results_fit = s.results_fit;
}

Reach-IsSound : (size tip : ℕ) {p : Pipe} → Reach size (started tip) p → IsSound size p
Reach-IsSound size tip here = started-IsSound size tip
Reach-IsSound size tip (next r s) = Step-IsSound size s (Reach-IsSound size tip r)

-- In every state that the pipeline reaches from its start, no block is in flight twice, counting one
-- as in flight from the fetcher's insertion of its height into the set until the result loop has
-- removed it; the set of the heights in work holds just those blocks, and neither channel holds more
-- than the pipeline's size.
pub in_flight_once :
    (size tip : ℕ) (p : Pipe)
    → Reach size (started tip) p
    → ((k : ℕ)
        → (count k (in_flight p) ≡ count k p.processing_heights) × (count k (in_flight p) ≤ 1))
      × ((length p.blocks ≤ size) × (length p.results ≤ size))
in_flight_once size tip p r =
    let s = Reach-IsSound size tip r in
    (
      λ k. (
        copies-in_flight k p ∙ sym (s.tracked k),
        omega (arith, copies-in_flight k p, s.tracked k, s.once k),
      ),
      (s.blocks_fit, s.results_fit),
    )
