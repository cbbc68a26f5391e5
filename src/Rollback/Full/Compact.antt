-- ===== src/Rollback/Full/Compact.antt =====
-- What `compact_key` leaves of a structure.
use metashrew.Prelude.{
  ℕ, true, suc, ◌+◌, ◌≤◌, ◌<◌, ◌≡◌, ◌≢◌, ◌⊎◌, refl, sym, ◌∙◌, ap, subst, Option, none, some, List,
  [], ◌∷◌, ◌++◌, Bytes, All, inl, inr, arith, length, get_elem?, ltb, All-append, Bool-cases,
}
use metashrew.RustStd.Decimal.{u32_mod, to_string}
use metashrew.Keys.Layout.{length_key, update_key}
use metashrew.Keys.Layout.Distinct.{update_key_injective, length_key-ne-update_key}
use metashrew.Storage.{KeyValueStoreLike, SmtRollback, HexCodec}
use metashrew.Storage.Batch.{
  BatchOperation, replay, replay-append, Spares, replay-Spares, replay-put_self, replay-delete_self,
}
use metashrew.Append.{update_value}
use metashrew.Append.History.{History, IsSorted, cut, count_to-le-length, length-cut, All-cut}
use metashrew.Append.Represents.{
  View, behind, Clears, Represents, Represents-agree, Fits, parse_length-to_string,
  update_height-update_value,
}
use metashrew.Rollback.{parse_height_from_smt_value}
use metashrew.Rollback.Full.{
  delete_slots, put_slots, compact_length_op, valid_updates, compact_ops, compact_key,
}
use metashrew.Rollback.Full.Slots.{
  texts, kept, kept-cut, length-texts, put_slots-Spares_apart, replay-put_slots,
  replay-delete_slots-none, replay-delete_slots,
}

module _ ⦃db : KeyValueStoreLike⦄ ⦃rb : SmtRollback db⦄ ⦃hex : HexCodec⦄ where
  valid_updates_lem :
      (s : db.Store) (key : Bytes) (t i : ℕ) (r : History)
      → All Fits r
      → ((n h : ℕ) (v : Bytes)
          → get_elem? r n ≡ some (h, v)
          → rb.get_value s (update_key key (i + n)) ≡ some (update_value h v))
      → valid_updates s key t i (length r) ≡ texts (kept t r)
  unfolding valid_updates texts kept parse_height_from_smt_value
  valid_updates_lem s key t i [] fits entries = refl
  valid_updates_lem s key t i ((h, v) ∷ r) (fit, fits) entries =
      let same : i + 0 ≡ i = omega arith in
      let here : rb.get_value s (update_key key i) ≡ some (update_value h v) =
        rw same at (entries 0 h v refl) in
      ground (
        arith,
        here,
        update_height-update_value h v fit,
        valid_updates_lem s key t (i + 1) r fits (λ n g w found.
            let shift : i + suc n ≡ i + 1 + n = omega arith in
            rw shift at (entries (suc n) g w found)),
      )

  -- What compacting to the history `r` writes.
  compacted : Bytes → ℕ → History → List BatchOperation
  compacted key n r =
      delete_slots key 0 n ++ (put_slots key 0 (texts r) ++ compact_length_op key (length r) ∷ [])

  compact_ops_lem :
      (s : db.Store) (key : Bytes) (hist : History) (t : ℕ)
      → Represents (rb.get_value s) key hist
      → IsSorted hist
      → compact_ops s key t (length hist) ≡ compacted key (length hist) (cut t hist)
  unfolding compact_ops compacted
  compact_ops_lem s key hist t r sorted =
      rw
        (
          valid_updates_lem s key t 0 hist r.fits (λ n h v found.
              let zero_plus : 0 + n ≡ n = omega arith in rw zero_plus (r.entries n h v found)),
          kept-cut t hist sorted,
          length-texts (cut t hist),
        )
        refl

  length_after :
      (key : Bytes) (r : History) (old : Option Bytes)
      → (replay (compact_length_op key (length r) ∷ []) (length_key key) old
          ≡ some (to_string (length r)))
        ⊎ ((r ≡ []) × (replay (compact_length_op key (length r) ∷ []) (length_key key) old ≡ none))
  unfolding compact_length_op
  length_after key [] old = inr (refl, replay-delete_self [] (length_key key) old tt)
  length_after key (e ∷ r) old =
      let some_left : ltb 0 (suc (length r)) ≡ true = ground arith in
      rw some_left (inl (replay-put_self [] (length_key key) (to_string (suc (length r))) old tt))

  length_op-Spares :
      (key j : Bytes) (n : ℕ) → length_key key ≢ j → Spares j (compact_length_op key n ∷ [])
  unfolding compact_length_op
  length_op-Spares key j n ne = elim (Bool-cases (ltb 0 n)) [
    | inl e ↦ rw e (ne, tt)
    | inr e ↦ rw e (ne, tt)
  ]

  replay-put_slots_all :
      (key : Bytes) (r : History) (i h : ℕ) (v : Bytes) (old : Option Bytes)
      → length r < u32_mod
      → get_elem? r i ≡ some (h, v)
      → replay (put_slots key 0 (texts r)) (update_key key i) old ≡ some (update_value h v)
  replay-put_slots_all key r i h v old small found =
      let zero_plus : 0 + i ≡ i = omega arith in
      rw zero_plus at (replay-put_slots key 0 r i h v old (omega arith) found)

  Represents-compacted :
      (get : View) (key : Bytes) (n : ℕ) (r : History)
      → n < u32_mod
      → length r ≤ n
      → All Fits r
      → Represents (behind (compacted key n r) get) key r
  unfolding compacted
  Represents-compacted get key n r small le fits =
      let split = λ (k : Bytes).
        replay-append (delete_slots key 0 n)
          (put_slots key 0 (texts r) ++ compact_length_op key (length r) ∷ []) k (get k)
        ∙ replay-append (put_slots key 0 (texts r)) (compact_length_op key (length r) ∷ []) k _ in
      record {
        stored =
            elim (length_after key r (
              replay (put_slots key 0 (texts r)) (length_key key)
                (replay (delete_slots key 0 n) (length_key key) (get (length_key key))))) [
                  | inl e ↦ inl (split (length_key key) ∙ e)
                  | inr (none_left, e) ↦ inr (none_left, split (length_key key) ∙ e)
                ];
        entries = λ i h v found.
            split (update_key key i)
            ∙ replay-Spares (compact_length_op key (length r) ∷ []) (update_key key i) _ (
                length_op-Spares key (update_key key i) (length r)
                  (length_key-ne-update_key key key i))
            ∙ replay-put_slots_all key r i h v _ (omega arith) found;
        fits = fits;
        short = omega arith;
      }

  compacted-Clears :
      (get : View) (key : Bytes) (n : ℕ) (r : History)
      → length r < u32_mod
      → Clears get (behind (compacted key n r) get) key (length r) n
  unfolding compacted
  compacted-Clears get key n r short i above small gone =
      replay-append (delete_slots key 0 n) _ (update_key key i) _
      ∙ replay-Spares _ (update_key key i) _ (
          All-append _ (put_slots key 0 (texts r)) _
            (put_slots-Spares_apart key (update_key key i) 0 (texts r) (λ m low high p.
              let (_, same) =
                update_key_injective key key m i (omega (arith, length-texts r)) small p in
              absurd (omega (arith, length-texts r))))
            (length_op-Spares key (update_key key i) (length r)
              (length_key-ne-update_key key key i)))
      ∙ elim gone [
        | inl lt ↦ replay-delete_slots key 0 n i _ (omega arith) (omega arith)
        | inr absent ↦ rw absent (replay-delete_slots-none key (update_key key i) 0 n)
      ]

  compact_key_stored :
      (s : db.Store) (key : Bytes) (hist : History) (t : ℕ)
      → Represents (rb.get_value s) key hist
      → IsSorted hist
      → rb.get_value s (length_key key) ≡ some (to_string (length hist))
      → compact_key s t key ≡ rb.apply_atomic s (compacted key (length hist) (cut t hist))
  unfolding compact_key
  compact_key_stored s key hist t r sorted e = ground (
    arith,
    e,
    parse_length-to_string (length hist) r.short,
    compact_ops_lem s key hist t r sorted,
  )

  compact_key_absent :
      (s : db.Store) (key : Bytes) (t : ℕ)
      → rb.get_value s (length_key key) ≡ none
      → compact_key s t key ≡ s
  unfolding compact_key
  compact_key_absent s key t e = rw (compact_key, e) refl

  -- The step of `rollback_smt_data` for one structure, which deletes every update and writes the
  -- survivors at compacted indices, leaves of a sorted history that the store holds under the key
  -- exactly the updates at or below the rollback height: the store then holds that history, and no
  -- record is left at an index past its length and below the old one, nor at any later index that
  -- had none.
  pub compact_key-cut :
      (s : db.Store) (key : Bytes) (hist : History) (t : ℕ)
      → Represents (rb.get_value s) key hist
      → IsSorted hist
      → Represents (rb.get_value (compact_key s t key)) key (cut t hist)
        × Clears
            (rb.get_value s)
            (rb.get_value (compact_key s t key))
            key
            (length (cut t hist))
            (length hist)
  compact_key-cut s key hist t r sorted = elim r.stored [
    | inl e ↦
        let fewer : length (cut t hist) ≤ length hist =
          omega (arith, length-cut hist t, count_to-le-length hist t) in
        let ops = compacted key (length hist) (cut t hist) in
        rw (compact_key_stored s key hist t r sorted e) (
          Represents-agree (behind ops (rb.get_value s)) _ key _
              (rb.get_value-apply_atomic s _ (length_key key))
              (λ i _. rb.get_value-apply_atomic s _ (update_key key i))
              (Represents-compacted (rb.get_value s) key (length hist) (cut t hist) r.short fewer
                (All-cut Fits hist t r.fits)),
          λ i above small gone.
              rb.get_value-apply_atomic s ops (update_key key i)
              ∙ compacted-Clears (rb.get_value s) key (length hist) (cut t hist)
                  (omega (arith, r.short)) i above small gone,
        )
    | inr (e, absent) ↦ rw (compact_key_absent s key t absent) (
      subst (λ h. Represents (rb.get_value s) key (cut t h)) (sym e) (rw e at r),
      λ i above small gone. elim gone [
        | inl lt ↦ absurd (omega (arith, ap length e))
        | inr none_before ↦ none_before
      ],
    )
  ]
