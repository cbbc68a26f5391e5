-- ===== src/Runtime/Views.antt =====
-- What the store shows after a block that the runtime of crates/metashrew-runtime/src/runtime.rs ran.
use metashrew.Prelude.{
  ℕ, suc, ◌+◌, ◌≤◌, ◌<◌, ◌^◌, ◌≡◌, refl, sym, ◌∙◌, ap, false, ◌&&◌, Option, none, some, List, [],
  ◌∷◌, ◌++◌, append-nil, append_assoc, Bytes, All, IsByte, inl, inr, length, length-append, leb,
  bytes_eq-cases, bytes_eq_iff, ne→bytes_eq, if◌then◌else◌, Bool-cases, leb→le, arith,
}
use metashrew.RustStd.Decimal.{u32_mod}
use metashrew.RustStd.Sort.{contains}
use metashrew.Error.{Error, ok}
use metashrew.Keys.Layout.Distinct.{IsUserKey}
use metashrew.Storage.{KeyValueStoreLike, HexCodec}
use metashrew.Storage.Batch.{BatchOperation}
use metashrew.Append.History.{History, IsSorted, lookup_at}
use metashrew.Append.Represents.{Represents}
use metashrew.Append.Reads.{lookup_at-append}
use metashrew.Append.Search.{get_at_height-lookup_at}
use metashrew.Block.Effect.{indexed, Represents-indexed}
use metashrew.Block.Updates.{updates_of}
use metashrew.Reorg.NewUpdates.{Until, IsSorted-append_new, updates_of-IsSorted, updates_of-All}
use metashrew.Guest.{FlushCodec}
use metashrew.Guest.Program.{Program, finish, read, write, updated, final_view, written}
use metashrew.Runtime.{Host, found_or_empty, target_height}
use metashrew.Runtime.Memory.{LinearMemory}
use metashrew.Runtime.HostFunctions.{lookup_value}
use metashrew.Runtime.Process.{process_block}
use metashrew.Runtime.Indexing.{
  entries, updates_by, Fitting, idle, program_engine, process_block-indexes,
}

lookup_at-entries :
    (f : Bytes → Bytes) (keys : List Bytes) (hist : History) (key : Bytes) (h j : ℕ)
    → lookup_at (hist ++ updates_of key h (entries f keys)) j
      ≡ (if leb h j && contains keys key then some (f key) else lookup_at hist j)
lookup_at-entries f [] hist key h j = rw (append-nil hist) (ground arith)
lookup_at-entries f (k ∷ keys) hist key h j = elim (bytes_eq-cases k key) [
  | inl e ↦
      rw
        (
          (bytes_eq_iff k key).1 e,
          ← append_assoc hist ((h, f k) ∷ []) (updates_of key h (entries f keys)),
        )
        (ground (
          arith,
          lookup_at-entries f keys (hist ++ (h, f k) ∷ []) key h j,
          lookup_at-append hist h (f k) j,
          ap f e,
        ))
  | inr ne ↦ rw (ne→bytes_eq k key ne) (lookup_at-entries f keys hist key h j)
]

-- A key that a program does not write keeps its value.
final_view-unwritten :
    (p : Program) (f : Bytes → Bytes) (key : Bytes)
    → contains (written p f) key ≡ false
    → final_view p f key ≡ f key
unfolding final_view written updated
final_view-unwritten finish f key e = refl
final_view-unwritten (read k next) f key e = final_view-unwritten (next (f k)) f key e
final_view-unwritten (write k v rest) f key e =
    ground (arith, final_view-unwritten rest (updated f k v) key)

lookup_at-Until :
    (hist : History) (t j : ℕ) → Until t hist → t ≤ j → lookup_at hist j ≡ lookup_at hist t
lookup_at-Until [] t j old le = refl
lookup_at-Until ((g, v) ∷ hist) t j (here, old) le = ground (arith, lookup_at-Until hist t j old le)

length-updates_of :
    (key : Bytes) (h : ℕ) (kvs : List (Bytes × Bytes)) → length (updates_of key h kvs) ≤ length kvs
length-updates_of key h [] = omega arith
length-updates_of key h ((k, v) ∷ kvs) = ground (arith, length-updates_of key h kvs)

module _ ⦃db : KeyValueStoreLike⦄ ⦃hex : HexCodec⦄ where
  lookup_value-Represents :
      (s : db.Store) (j : ℕ) (key : Bytes) (hist : History)
      → Represents (db.get_immutable s) key hist
      → IsSorted hist
      → length hist ≤ 2 ^ 31
      → lookup_value s j key ≡ found_or_empty (ok (lookup_at hist j))
  unfolding lookup_value
  lookup_value-Represents s j key hist r sorted short =
      ap found_or_empty (get_at_height-lookup_at s key hist j r sorted short)

  -- The store holds of the key a sorted history that ends at the height, with room for so many updates.
  pub record Holds (s : db.Store) (t more : ℕ) (key : Bytes) (hist : History) : Type 0 where
    pub user : IsUserKey key
    pub stored : Represents (db.get_immutable s) key hist
    pub sorted : IsSorted hist
    pub old : Until t hist
    pub room : length hist + more ≤ 2 ^ 31

  value_shown :
      (s : db.Store) (t j : ℕ) (more : ℕ) (key : Bytes) (hist : History)
      → Holds s t more key hist
      → found_or_empty (ok (lookup_at hist j)) ≡ lookup_value s j key
  value_shown s t j more key hist holds =
      sym
        (lookup_value-Represents s j key hist holds.stored holds.sorted (omega (arith, holds.room)))

  shown_if :
      (p : Program) (s : db.Store) (t j more : ℕ) (key : Bytes) (hist : History)
      → Holds s t more key hist
      → found_or_empty (
          ok (
            if leb (suc t) j && contains (written p (lookup_value s t)) key
            then some (final_view p (lookup_value s t) key)
            else lookup_at hist j))
        ≡ (if leb (suc t) j then final_view p (lookup_value s t) key else lookup_value s j key)
  unfolding found_or_empty
  shown_if p s t j more key hist holds =
      let f = lookup_value s t in
      elim (Bool-cases (leb (suc t) j)) [
        | inr below ↦ rw below (value_shown s t j more key hist holds)
        | inl above ↦ elim (Bool-cases (contains (written p f) key)) [
          | inl yes_written ↦ rw (above, yes_written) refl
          | inr unwritten ↦
              rw
                (
                  above,
                  unwritten,
                  final_view-unwritten p f key unwritten,
                  lookup_at-Until hist t j holds.old (omega (arith, leb→le (suc t) j above)),
                )
                (value_shown s t t more key hist holds)
        ]
      ]

  -- A store that holds the updates of the program's block behind the key's history shows the map that
  -- the program ends with from the block's height on, and below it what the store before showed.
  pub lookup_value-appended :
      (p : Program) (s s' : db.Store) (t : ℕ) (key : Bytes) (hist : History) (j : ℕ)
      → Holds s t (length (updates_by p s (suc t))) key hist
      → Represents
          (db.get_immutable s')
          key
          (hist ++ updates_of key (suc t) (updates_by p s (suc t)))
      → lookup_value s' j key
        ≡ (if leb (suc t) j then final_view p (lookup_value s t) key else lookup_value s j key)
  unfolding target_height
  lookup_value-appended p s s' t key hist j holds r =
      let f = lookup_value s t in
      let kvs = updates_by p s (suc t) in
      let after = hist ++ updates_of key (suc t) kvs in
      let size : length after ≤ 2 ^ 31 = omega (
        arith,
        length-append hist (updates_of key (suc t) kvs),
        length-updates_of key (suc t) kvs,
        holds.room,
      ) in
      lookup_value-Represents s' j key after r
        (IsSorted-append_new hist _ t holds.sorted holds.old (updates_of-IsSorted key (suc t) kvs)
          (updates_of-All key (suc t) (t + 1) kvs (omega arith)))
        size
      ∙ ap (λ (o : Option Bytes). found_or_empty (ok o))
          (lookup_at-entries (final_view p f) (written p f) hist key (suc t) j)
      ∙ shown_if p s t j (length kvs) key hist holds

module _ ⦃db : KeyValueStoreLike⦄ ⦃hex : HexCodec⦄ ⦃lm : LinearMemory⦄ ⦃codec : FlushCodec⦄
    (to_bytes : List BatchOperation → Bytes) where
  -- Let an indexer be a program that reads short keys and writes, on a store whose values at height t
  -- fit a buffer, as the updates do; let the store hold of a user key a sorted history that ends at t
  -- and has room for the block, the updates be bytes and t + 1 fit a u32. `process_block` at t + 1
  -- then succeeds, with no failure left; reads of the key at t + 1 and above return its value in the
  -- map that the program ends with, run from the values at t, and reads below return what they
  -- returned before.
  pub process_block-view :
      (p : Program) (s : db.Store) (t g st : ℕ) (block_data b hash : Bytes) (le : Option Error)
      (key : Bytes) (hist : History)
      → Fitting p s (suc t)
      → suc t < u32_mod
      → Holds s t (length (updates_by p s (suc t))) key hist
      → All (λ kv. All IsByte kv.1) (updates_by p s (suc t))
      → (w : Host) × (process_block
            (program_engine to_bytes p)
            (idle s g b st hash le)
            (suc t)
            block_data
          ≡ (ok tt, w))
        × (w.had_failure ≡ false)
        × ((j : ℕ)
            → lookup_value w.context.store j key ≡ (
                if leb (suc t) j
                then final_view p (lookup_value s t) key
                else lookup_value s j key))
  process_block-view p s t g st block_data b hash le key hist fit small holds bytes = (
    idle (indexed s (suc t) (updates_by p s (suc t))) (suc t) block_data 1 [] none,
    process_block-indexes to_bytes p s (suc t) g st block_data b hash le fit,
    refl,
    λ j. lookup_value-appended p s (indexed s (suc t) (updates_by p s (suc t))) t key hist j holds (
        Represents-indexed s (suc t) (updates_by p s (suc t)) key hist holds.user small bytes
          (omega (arith, holds.room)) holds.stored),
  )
