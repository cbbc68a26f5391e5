-- ===== src/Block/Updates.antt =====
-- The updates of a block, key by key.
use metashrew.Prelude.{
  ℕ, ◌+◌, ◌%◌, ◌<◌, ◌≡◌, sym, ◌∙◌, ap, List, [], ◌∷◌, ◌++◌, append-nil, append_assoc, Bytes, All,
  IsByte, inl, inr, arith, length, length-append, bytes_eq, bytes_eq_iff, bytes_eq-cases,
  ne→bytes_eq, if◌then◌else◌,
}
use metashrew.RustStd.Decimal.{u32_mod}
use metashrew.Storage.{KeyValueStoreLike, HexCodec}
use metashrew.Storage.Batch.{replay}
use metashrew.Append.History.{History}
use metashrew.Append.Represents.{View, behind, Represents}
use metashrew.Append.Put.{update_ops, Represents-update_ops, Represents-update_ops_ne}
use metashrew.Block.{Lengths, find, current_length, append_updates}

-- The updates that a block brings to `key`, in order.
abbrev pub updates_of : Bytes → ℕ → List (Bytes × Bytes) → History
updates_of key height [] = []
updates_of key height ((k, v) ∷ kvs) =
    if bytes_eq k key then (height, v) ∷ updates_of key height kvs else updates_of key height kvs

module _ ⦃db : KeyValueStoreLike⦄ ⦃hex : HexCodec⦄ where
  current_length_step :
      (s : db.Store) (lengths : Lengths) (k key : Bytes) (n : ℕ)
      → current_length s ((k, n) ∷ lengths) key
        ≡ (if bytes_eq k key then n else current_length s lengths key)
  unfolding current_length find
  current_length_step s lengths k key n = ground arith

  -- The batch of the updates turns each key's history into the longer one, if the lengths that
  -- it counts with are right.
  pub Represents-append_updates :
      (s : db.Store) (height : ℕ) (lengths : Lengths) (kvs : List (Bytes × Bytes)) (get : View)
      (key : Bytes) (hist : History)
      → height < u32_mod
      → All (λ kv. All IsByte kv.1) kvs
      → ((k : Bytes) → current_length s lengths k < u32_mod)
      → current_length s lengths key ≡ length hist
      → length hist + length kvs < u32_mod
      → Represents get key hist
      → Represents
          (behind (append_updates s height lengths kvs) get)
          key
          (hist ++ updates_of key height kvs)
  unfolding append_updates replay
  Represents-append_updates s height lengths [] get key hist small bytes bounded len room r =
      rw (append-nil hist) r
  Represents-append_updates s height lengths ((k, v) ∷ kvs) get key hist small (b, bytes) bounded
        len room r =
      let n = (current_length s lengths k + 1) % u32_mod in
      let bounded' : (j : Bytes) → current_length s ((k, n) ∷ lengths) j < u32_mod =
        λ j. ground (arith, current_length_step s lengths k j n, bounded j) in
      elim (bytes_eq-cases k key) [
        | inl e ↦ rw ((bytes_eq_iff k key).1 e) (
            rw (← append_assoc hist ((height, v) ∷ []) (updates_of key height kvs)) (
              Represents-append_updates s height ((k, n) ∷ lengths) kvs
                (behind (update_ops k (current_length s lengths k) height v) get) key
                (hist ++ (height, v) ∷ []) small bytes bounded'
                (ground (
                  arith,
                  current_length_step s lengths k key n,
                  (bytes_eq_iff k key).1 e,
                  ap (current_length s lengths) e,
                  len,
                  length-append hist ((height, v) ∷ []),
                ))
                (omega (arith, length-append hist ((height, v) ∷ [])))
                (rw (e, len)
                  (Represents-update_ops get key hist height v r ((small, b)) (omega arith)))))
        | inr ne ↦ rw (ne→bytes_eq k key ne) (
            Represents-append_updates s height ((k, n) ∷ lengths) kvs
              (behind (update_ops k (current_length s lengths k) height v) get) key hist small bytes
              bounded' (current_length_step s lengths k key n ∙ rw (ne→bytes_eq k key ne) len)
              (omega arith)
              (Represents-update_ops_ne get k key hist _ height v (λ e. ne (sym e)) (bounded k) r))
      ]
