-- ===== src/Append/Put.antt =====
-- What `put` (crates/metashrew-runtime/src/smt.rs) makes of the histories.
use metashrew.Prelude.{
  ℕ, ◌+◌, ◌%◌, ◌<◌, ◌≡◌, ◌≢◌, ◌⊎◌, sym, ◌∙◌, some, List, [], ◌∷◌, ◌++◌, Bytes, All-append, inl, inr,
  ap, arith, length, length-append, get_elem?, get_elem?-append_left, get_elem?-append_last,
  get_elem?-lt_length, ltb, ltb→lt, ltb→le, Bool-cases,
}
use metashrew.RustStd.Decimal.{u32_mod, to_string}
use metashrew.Keys.Layout.{length_key, update_key}
use metashrew.Keys.Layout.Distinct.{
  update_key_injective, length_key_injective, length_key-ne-update_key, length_key-ne-tip,
  update_key-ne-tip,
}
use metashrew.Storage.{KeyValueStoreLike, HexCodec}
use metashrew.Storage.Batch.{
  BatchOperation, put, Spares, replay-Spares, replay-put_self, replay-put_ne,
}
use metashrew.Append.{update_value, put_to_batch, put_value}
use metashrew.Append.History.{History}
use metashrew.Append.Represents.{
  View, behind, Represents, Represents-agree, Fits, stored_length-Represents,
}

-- The update at an index of a history with one more update.
appended :
    (hist : History) (e x : ℕ × Bytes) (i : ℕ)
    → get_elem? (hist ++ e ∷ []) i ≡ some x
    → ((i < length hist) × (get_elem? hist i ≡ some x)) ⊎ ((i ≡ length hist) × (x ≡ e))
appended hist e x i found =
    let lt : i < length hist + 1 =
      omega (arith, get_elem?-lt_length _ i x found, length-append hist (e ∷ [])) in
    elim (Bool-cases (ltb i (length hist))) [
      | inl b ↦
          let h = ltb→lt i (length hist) b in
          inl (h, sym (get_elem?-append_left hist (e ∷ []) i h) ∙ found)
      | inr b ↦
          let h : i ≡ length hist = omega (arith, ltb→le i (length hist) b) in
          inr (h, cc (get_elem?-append_last hist e i h))
    ]

module _ ⦃hex : HexCodec⦄ where
  -- The two records that an update at `index` writes.
  abbrev pub update_ops : Bytes → ℕ → ℕ → Bytes → List BatchOperation
  update_ops key index h v =
      put (update_key key index) (update_value h v)
      ∷ put (length_key key) (to_string ((index + 1) % u32_mod))
      ∷ []

  pub update_ops-Spares-length_key :
      (key j : Bytes) (index h : ℕ) (v : Bytes)
      → j ≢ key
      → Spares (length_key j) (update_ops key index h v)
  update_ops-Spares-length_key key j index h v ne = (
    λ e. length_key-ne-update_key j key index (sym e),
    (λ e. ne (sym (length_key_injective key j e)), tt),
  )

  pub update_ops-Spares-update_key :
      (key j : Bytes) (index i h : ℕ) (v : Bytes)
      → i < u32_mod
      → index < u32_mod
      → (j ≢ key) ⊎ (i ≢ index)
      → Spares (update_key j i) (update_ops key index h v)
  update_ops-Spares-update_key key j index i h v hi hindex apart = (
    λ e.
        let (same_key, same_index) = update_key_injective key j index i hindex hi e in
        elim apart [ inl ne ↦ ne (sym same_key) | inr ne ↦ ne (sym same_index) ],
    (λ e. length_key-ne-update_key key j i e, tt),
  )

  -- Behind the records of one more update stands the longer history.
  pub Represents-update_ops :
      (get : View) (key : Bytes) (hist : History) (h : ℕ) (v : Bytes)
      → Represents get key hist
      → Fits (h, v)
      → length hist + 1 < u32_mod
      → Represents (behind (update_ops key (length hist) h v) get) key (hist ++ (h, v) ∷ [])
  Represents-update_ops get key hist h v r fit room = record {
    stored = inl (
        replay-put_ne _ (update_key key (length hist)) (length_key key) _ (get (length_key key))
          (λ e. length_key-ne-update_key key key (length hist) (sym e))
        ∙ replay-put_self [] (length_key key) _ _ tt
        ∙ ap (λ n. some (to_string n)) (omega (arith, length-append hist ((h, v) ∷ []))));
    entries = λ i g w found. elim (appended hist (h, v) (g, w) i found) [
      | inl (lt, old) ↦
          replay-Spares (update_ops key (length hist) h v) _ _ (
            update_ops-Spares-update_key key key (length hist) i h v (omega arith) (omega arith)
              (inr (omega arith)))
          ∙ r.entries i g w old
      | inr (last, same) ↦ rw last (
          replay-put_self _ (update_key key (length hist)) (update_value h v) _
            ((λ e. length_key-ne-update_key key key (length hist) e, tt))
          ∙ ap (λ (e : ℕ × Bytes). some (update_value e.0 e.1)) (sym same))
    ];
    fits = All-append Fits hist ((h, v) ∷ []) r.fits ((fit, tt));
    short = omega (arith, length-append hist ((h, v) ∷ []));
  }

  pub Represents-update_ops_ne :
      (get : View) (key j : Bytes) (hist : History) (index h : ℕ) (v : Bytes)
      → j ≢ key
      → index < u32_mod
      → Represents get j hist
      → Represents (behind (update_ops key index h v) get) j hist
  Represents-update_ops_ne get key j hist index h v ne room r =
      Represents-agree get _ j hist
        (replay-Spares (update_ops key index h v) _ _
          (update_ops-Spares-length_key key j index h v ne))
        (λ i lt.
          let hi : i < u32_mod = omega (arith, r.short) in
          replay-Spares (update_ops key index h v) _ _
            (update_ops-Spares-update_key key j index i h v hi room (inl ne)))
        r

module _ ⦃db : KeyValueStoreLike⦄ ⦃hex : HexCodec⦄ where
  -- What is written is read back, but for the tip.
  pub Represents-write :
      (s : db.Store) (batch : List BatchOperation) (key : Bytes) (hist : History)
      → Represents (behind batch (db.get_immutable s)) key hist
      → Represents (db.get_immutable (db.write s batch)) key hist
  Represents-write s batch key hist r =
      Represents-agree _ _ key hist
        (db.get_immutable-write s batch (length_key key) (length_key-ne-tip key))
        (λ i _. db.get_immutable-write s batch (update_key key i) (update_key-ne-tip key i)) r

  put_to_batch_lem :
      (s : db.Store) (key : Bytes) (hist : History) (h : ℕ) (v : Bytes)
      → Represents (db.get_immutable s) key hist
      → put_to_batch s [] key v h ≡ update_ops key (length hist) h v
  unfolding put_to_batch
  put_to_batch_lem s key hist h v r = rw (stored_length-Represents s key hist r)

  -- `put` appends the update to the history that the store holds under the key, if the update fits
  -- its encoding and the new length is below 2^32.
  pub put_value-append :
      (s : db.Store) (key : Bytes) (hist : History) (h : ℕ) (v : Bytes)
      → Represents (db.get_immutable s) key hist
      → Fits (h, v)
      → length hist + 1 < u32_mod
      → Represents (db.get_immutable (put_value s key v h)) key (hist ++ (h, v) ∷ [])
  unfolding put_value
  put_value-append s key hist h v r fit room =
      Represents-write s _ key _
        (rw (put_to_batch_lem s key hist h v r) (Represents-update_ops _ key hist h v r fit room))

  -- `put` under one key leaves the history of another key as it was, if the store holds a history
  -- under each.
  pub put_value_ne :
      (s : db.Store) (key j : Bytes) (past hist : History) (h : ℕ) (v : Bytes)
      → j ≢ key
      → Represents (db.get_immutable s) key past
      → Represents (db.get_immutable s) j hist
      → Represents (db.get_immutable (put_value s key v h)) j hist
  unfolding put_value
  put_value_ne s key j past hist h v ne r other = Represents-write s _ j hist (
      rw (put_to_batch_lem s key past h v r)
        (Represents-update_ops_ne _ key j hist (length past) h v ne r.short other))
