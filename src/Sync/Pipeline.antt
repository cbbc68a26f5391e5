-- ===== src/Sync/Pipeline.antt =====
-- `run_pipeline` of crates/metashrew-sync/src/sync.rs as a step relation: the fetcher, the processor
-- and the loop on the results, with the two bounded channels, the shared cursor and the set of the
-- heights in work, which has a lock. A step reads or writes one of them, or is the passage to the next
-- such step. The steps are those of a chain without a reorganization, above the store's first block,
-- before the exit height, and with no adapter failing but the node. The processor asks for a commit of
-- `tip + 1` only to succeed.
pub mod Wedge
pub mod InFlight
use metashrew.Prelude.{
  ℕ, zero, suc, ◌+◌, ◌≤◌, ◌<◌, ◌≡◌, ◌≢◌, Bool, true, false, Option, none, some, List, [], ◌∷◌, ◌++◌,
  length, ◌==◌, if◌then◌else◌,
}

-- The set of heights, with the times that a height stands in it.
unfoldable pub count : ℕ → List ℕ → ℕ
count k [] = 0
count k (h ∷ hs) = (if h == k then 1 else 0) + count k hs

unfoldable pub insert_height : ℕ → List ℕ → List ℕ
insert_height h hs = if count h hs == 0 then h ∷ hs else hs

unfoldable pub remove_height : ℕ → List ℕ → List ℕ
remove_height h [] = []
remove_height h (k ∷ ks) = let rest = remove_height h ks in if k == h then rest else k ∷ rest

-- Where the fetcher is in its loop: before the load of the cursor, after the load and the call for the
-- node's tip, asleep on a height that is in the set, past the test of the set, past the insertion into
-- it.
pub data Fetcher : Type 0 where
  idle : Fetcher
  loaded : ℕ → Fetcher
  sleeping : Fetcher
  cleared : ℕ → Fetcher
  inserted : ℕ → Fetcher

-- The processor waits, works on a block, or has a result to send.
pub data Worker : Type 0 where
  waiting : Worker
  working : ℕ → Worker
  finished : ℕ → Worker

-- The result loop waits, has taken a result off its channel, or has stored the cursor and not yet
-- removed the height from the set.
pub data Handler : Type 0 where
  listening : Handler
  taken : ℕ → Handler
  stored : ℕ → Handler

pub record Pipe : Type 0 where
  pub tip : ℕ
  pub current_height : ℕ
  pub processing_heights : List ℕ
  pub fetcher : Fetcher
  pub blocks : List ℕ
  pub worker : Worker
  pub results : List ℕ
  pub handler : Handler

unfoldable pub started : ℕ → Pipe
started tip = record {
  tip = tip;
  current_height = suc tip;
  processing_heights = [];
  fetcher = idle;
  blocks = [];
  worker = waiting;
  results = [];
  handler = listening;
}

-- Whether the fetcher holds the set's lock from one step to the next: it sleeps with it. The other uses
-- of the lock are over within their step.
abbrev pub is_locked : Fetcher → Bool
is_locked idle = false
is_locked (loaded h) = false
is_locked sleeping = true
is_locked (cleared h) = false
is_locked (inserted h) = false

pub data Step (pipeline_size : ℕ) : Pipe → Pipe → Type 0 where
  load :
      (p : Pipe)
      → p.fetcher ≡ idle
      → Step pipeline_size p (record p { fetcher = loaded p.current_height })
  -- The node has no block at that height, or does not say.
  no_block_yet :
      (p : Pipe) (h : ℕ) → p.fetcher ≡ loaded h → Step pipeline_size p (record p { fetcher = idle })
  busy :
      (p : Pipe) (h : ℕ)
      → p.fetcher ≡ loaded h
      → 0 < count h p.processing_heights
      → Step pipeline_size p (record p { fetcher = sleeping })
  wake : (p : Pipe) → p.fetcher ≡ sleeping → Step pipeline_size p (record p { fetcher = idle })
  clear :
      (p : Pipe) (h : ℕ)
      → p.fetcher ≡ loaded h
      → count h p.processing_heights ≡ 0
      → Step pipeline_size p (record p { fetcher = cleared h })
  miss :
      (p : Pipe) (h : ℕ)
      → p.fetcher ≡ cleared h
      → Step pipeline_size p (record p { fetcher = idle })
  enter :
      (p : Pipe) (h : ℕ)
      → p.fetcher ≡ cleared h
      → Step pipeline_size p (record p {
        fetcher = inserted h;
        processing_heights = insert_height h p.processing_heights;
      })
  send :
      (p : Pipe) (h : ℕ)
      → p.fetcher ≡ inserted h
      → length p.blocks < pipeline_size
      → Step pipeline_size p (record p { fetcher = idle; blocks = p.blocks ++ h ∷ [] })
  receive :
      (p : Pipe) (h : ℕ) (rest : List ℕ)
      → p.worker ≡ waiting
      → p.blocks ≡ h ∷ rest
      → Step pipeline_size p (record p { blocks = rest; worker = working h })
  commit :
      (p : Pipe) (h : ℕ)
      → p.worker ≡ working h
      → h ≡ suc p.tip
      → Step pipeline_size p (record p { tip = h; worker = finished h })
  retry : (p : Pipe) (h : ℕ) → p.worker ≡ working h → Step pipeline_size p p
  report :
      (p : Pipe) (h : ℕ)
      → p.worker ≡ finished h
      → length p.results < pipeline_size
      → Step pipeline_size p (record p { worker = waiting; results = p.results ++ h ∷ [] })
  pick_up :
      (p : Pipe) (h : ℕ) (rest : List ℕ)
      → p.handler ≡ listening
      → p.results ≡ h ∷ rest
      → Step pipeline_size p (record p { results = rest; handler = taken h })
  store :
      (p : Pipe) (h : ℕ)
      → p.handler ≡ taken h
      → Step pipeline_size p (record p { current_height = suc h; handler = stored h })
  remove :
      (p : Pipe) (h : ℕ)
      → p.handler ≡ stored h
      → is_locked p.fetcher ≡ false
      → Step pipeline_size p (record p {
        handler = listening;
        processing_heights = remove_height h p.processing_heights;
      })

pub data Reach (pipeline_size : ℕ) (start : Pipe) : Pipe → Type 0 where
  here : Reach pipeline_size start start
  next :
      {p q : Pipe}
      → Reach pipeline_size start p
      → Step pipeline_size p q
      → Reach pipeline_size start q

abbrev pub fetcher_holds : Fetcher → List ℕ
fetcher_holds idle = []
fetcher_holds (loaded h) = []
fetcher_holds sleeping = []
fetcher_holds (cleared h) = []
fetcher_holds (inserted h) = h ∷ []

abbrev pub worker_holds : Worker → List ℕ
worker_holds waiting = []
worker_holds (working h) = h ∷ []
worker_holds (finished h) = h ∷ []

abbrev pub handler_holds : Handler → List ℕ
handler_holds listening = []
handler_holds (taken h) = h ∷ []
handler_holds (stored h) = h ∷ []

-- The blocks on their way from the fetcher to the end of the result loop's work on them.
unfoldable pub in_flight : Pipe → List ℕ
in_flight p =
    fetcher_holds p.fetcher
    ++ (p.blocks ++ (worker_holds p.worker ++ (p.results ++ handler_holds p.handler)))
