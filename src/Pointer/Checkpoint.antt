-- ===== src/Pointer/Checkpoint.antt =====
-- Nested transactions of an indexer: `AtomicPointer` of crates/metashrew-core/src/index_pointer.rs, by
-- its stack of checkpoints, the newest first, over the store of its `IndexPointer`.
use metashrew.Prelude.{
  ℕ, suc, ◌≡◌, refl, ◌∙◌, ap, Option, none, some, List, [], ◌∷◌, Bytes, bytes_eq, length,
  if◌then◌else◌, arith,
}
use mathlib.Core.Path.{fun_ext}
use metashrew.Error.{Result, ok, err, ◌>>=◌, unwrap_none, no_checkpoint}
use metashrew.Storage.Memory.{Db, lookup, insert}
use metashrew.Storage.Memory.Laws.{lookup-insert}
use metashrew.Pointer.{Cells}

pub record AtomicPointer ⦃cells : Cells⦄ : Type 0 where
  pub checkpoints : List Db
  pub base : cells.State

-- The first checkpoint that has the key, from the newest on.
unfoldable pub find_cached : List Db → Bytes → Option Bytes
find_cached [] k = none
find_cached (c ∷ rest) k = elim (lookup c k) [ some v ↦ some v | none ↦ find_cached rest k ]

unfoldable pub or_value : Option Bytes → Bytes → Bytes
or_value none v = v
or_value (some u) v = u

-- The keys of a checkpoint are distinct, so that the order in which they are written does not matter.
unfoldable pub pipe_to : Db → Db → Db
pipe_to [] target = target
pipe_to ((k, v) ∷ entries) target = insert (pipe_to entries target) k v

module _ ⦃cells : Cells⦄ where
  -- `AtomicPointer::wrap` and `default` start with one checkpoint.
  unfoldable pub start : cells.State → AtomicPointer
  start base = record { checkpoints = [] ∷ []; base = base }

  unfoldable pub get : AtomicPointer → Bytes → Bytes
  unfolding find_cached or_value
  get a k = or_value (find_cached a.checkpoints k) (cells.get a.base k)

  set_in : AtomicPointer → List Db → Bytes → Bytes → Result AtomicPointer
  set_in a [] k v = err unwrap_none
  set_in a (c ∷ rest) k v = ok (record a { checkpoints = insert c k v ∷ rest })

  unfoldable pub set : AtomicPointer → Bytes → Bytes → Result AtomicPointer
  unfolding set_in
  set a k v = set_in a a.checkpoints k v

  unfoldable pub checkpoint : AtomicPointer → AtomicPointer
  checkpoint a = record a { checkpoints = [] ∷ a.checkpoints }

  set_each : cells.State → Db → cells.State
  set_each base [] = base
  set_each base ((k, v) ∷ entries) = cells.set (set_each base entries) k v

  commit_in : AtomicPointer → List Db → Result AtomicPointer
  unfolding set_each pipe_to
  commit_in a [] = err no_checkpoint
  commit_in a (c ∷ []) = ok (record a { base = set_each a.base c })
  commit_in a (c ∷ d ∷ rest) = ok (record a { checkpoints = pipe_to c d ∷ rest })

  unfoldable pub commit : AtomicPointer → Result AtomicPointer
  unfolding commit_in
  commit a = commit_in a a.checkpoints

  popped : List Db → List Db
  popped [] = []
  popped (c ∷ rest) = rest

  unfoldable pub rollback : AtomicPointer → AtomicPointer
  unfolding popped
  rollback a = record a { checkpoints = popped a.checkpoints }

  unfoldable pub checkpoint_depth : AtomicPointer → ℕ
  checkpoint_depth a = length a.checkpoints

  -- Writes in a row.
  unfoldable pub set_all : AtomicPointer → List (Bytes × Bytes) → Result AtomicPointer
  set_all a [] = ok a
  set_all a ((k, v) ∷ writes) = set a k v >>= λ b. set_all b writes

-- The writes in a row on a map.
unfoldable pub overlay : List (Bytes × Bytes) → (Bytes → Bytes) → Bytes → Bytes
overlay [] f j = f j
overlay ((k, v) ∷ writes) f j = overlay writes (λ i. if bytes_eq k i then v else f i) j

lookup-pipe_to :
    (c d : Db) (k : Bytes)
    → lookup (pipe_to c d) k ≡ elim (lookup c k) [ some v ↦ some v | none ↦ lookup d k ]
unfolding pipe_to lookup
lookup-pipe_to [] d k = refl
lookup-pipe_to ((j, v) ∷ c) d k =
    ground (arith, lookup-insert (pipe_to c d) j k v, lookup-pipe_to c d k)

module _ ⦃cells : Cells⦄ where
  get-set_each :
      (base : cells.State) (c : Db) (k : Bytes)
      → cells.get (set_each base c) k ≡ or_value (lookup c k) (cells.get base k)
  unfolding set_each lookup or_value
  get-set_each base [] k = refl
  get-set_each base ((j, v) ∷ c) k =
      ground (arith, cells.get-set (set_each base c) j v k, get-set_each base c k)

  get-insert :
      (c : Db) (rest : List Db) (base : cells.State) (k v j : Bytes)
      → get (record { checkpoints = insert c k v ∷ rest; base = base }) j
        ≡ (if bytes_eq k j then v else get (record { checkpoints = c ∷ rest; base = base }) j)
  unfolding get find_cached or_value
  get-insert c rest base k v j = ground (arith, lookup-insert c k j v)

  get-pipe_to :
      (c d : Db) (rest : List Db) (base : cells.State) (k : Bytes)
      → get (record { checkpoints = pipe_to c d ∷ rest; base = base }) k
        ≡ get (record { checkpoints = c ∷ d ∷ rest; base = base }) k
  unfolding get find_cached or_value
  get-pipe_to c d rest base k = ground (arith, lookup-pipe_to c d k)

  get-checkpoint :
      (stack : List Db) (base : cells.State) (k : Bytes)
      → get (record { checkpoints = [] ∷ stack; base = base }) k
        ≡ get (record { checkpoints = stack; base = base }) k
  unfolding get find_cached lookup
  get-checkpoint stack base k = refl

  -- A commit changes nothing that is read.
  pub commit-get :
      (c : Db) (rest : List Db) (base : cells.State)
      → (b : AtomicPointer) × (commit (record { checkpoints = c ∷ rest; base = base }) ≡ ok b)
        × ((k : Bytes) → get b k ≡ get (record { checkpoints = c ∷ rest; base = base }) k)
  unfolding commit get find_cached or_value
  commit-get c [] base = (
    record { checkpoints = c ∷ []; base = set_each base c },
    refl,
    λ k. ground (arith, get-set_each base c k),
  )
  commit-get c (d ∷ rest) base = (
    record { checkpoints = pipe_to c d ∷ rest; base = base },
    refl,
    λ k. get-pipe_to c d rest base k,
  )

  set_all_lem :
      (c : Db) (rest : List Db) (base : cells.State) (writes : List (Bytes × Bytes))
      → (d : Db) × (set_all (record { checkpoints = c ∷ rest; base = base }) writes
          ≡ ok (record { checkpoints = d ∷ rest; base = base }))
        × ((k : Bytes)
            → get (record { checkpoints = d ∷ rest; base = base }) k
              ≡ overlay writes (get (record { checkpoints = c ∷ rest; base = base })) k)
  unfolding set_all set overlay
  set_all_lem c rest base [] = (c, refl, λ k. refl)
  set_all_lem c rest base ((k, v) ∷ writes) =
      let (d, done, seen) = set_all_lem (insert c k v) rest base writes in
      (
        d,
        done,
        λ j.
            seen j
            ∙ ap (λ (f : Bytes → Bytes). overlay writes f j)
                (fun_ext (λ i. get-insert c rest base k v i)),
      )

  -- A transaction inside another: after `checkpoint`, writes succeed and are read back in their
  -- order over what was read before; `rollback` leaves the state of before the checkpoint; `commit`
  -- instead succeeds, shows what the transaction shows, and leaves as many checkpoints as before it.
  pub checkpoint-rollback-commit :
      (c : Db) (rest : List Db) (base : cells.State) (writes : List (Bytes × Bytes))
      → (b d : AtomicPointer) × (set_all
            (checkpoint (record { checkpoints = c ∷ rest; base = base }))
            writes
          ≡ ok b)
        × ((k : Bytes)
            → get b k ≡ overlay writes (get (record { checkpoints = c ∷ rest; base = base })) k)
        × (rollback b ≡ record { checkpoints = c ∷ rest; base = base })
        × (commit b ≡ ok d)
        × ((k : Bytes) → get d k ≡ get b k)
        × (checkpoint_depth d ≡ suc (length rest))
  unfolding checkpoint rollback commit checkpoint_depth
  checkpoint-rollback-commit c rest base writes =
      let (top, done, seen) = set_all_lem [] (c ∷ rest) base writes in
      (
        record { checkpoints = top ∷ c ∷ rest; base = base },
        record { checkpoints = pipe_to top c ∷ rest; base = base },
        done,
        λ k.
            seen k
            ∙ ap (λ (f : Bytes → Bytes). overlay writes f k)
                (fun_ext (λ i. get-checkpoint (c ∷ rest) base i)),
        refl,
        refl,
        λ k. get-pipe_to top c rest base k,
        refl,
      )
