-- ===== src/Rollback/Keywise/Cut.antt =====
-- What `rollback_key` leaves of a key.
use metashrew.Prelude.{
  ℕ, zero, suc, ◌+◌, ◌≤◌, ◌<◌, ◌≡◌, ◌≢◌, refl, sym, ◌∙◌, ap, subst, none, some, List, [], ◌∷◌, ◌++◌,
  Bytes, All, All-get_elem?, All-append, inl, inr, arith, length, get_elem?-some,
  get_elem?-lt_length, ltb, ltb→lt, ltb→le, leb, leb→le, bytes_eq_refl, Option, Bool-cases,
  if◌then◌else◌,
}
use metashrew.RustStd.Decimal.{u32_mod, to_string}
use metashrew.Keys.Layout.{length_key, update_key}
use metashrew.Keys.Layout.Distinct.{
  update_key_injective, length_key_injective, length_key-ne-update_key, update_key-ne-tip,
}
use metashrew.Storage.{KeyValueStoreLike, HexCodec}
use metashrew.Storage.Batch.{
  BatchOperation, put, delete, replay, replay-append, Spares, replay-Spares, replay-put_self,
}
use metashrew.Append.History.{
  History, IsSorted, cut, count_to, count_to_below, count_to_above, count_to-le-length, length-cut,
  get_elem?-cut, All-cut,
}
use metashrew.Append.Represents.{
  View, behind, Clears, Represents, Represents-agree, Fits, parse_length-to_string,
  update_height-update_value,
}
use metashrew.Append.Put.{Represents-write}
use metashrew.Rollback.Keywise.{prune_updates, rollback_key_to_batch, rollback_key}

-- The deletions of the updates from `bound` on, among the `left` from `i` on.
pruned : Bytes → ℕ → ℕ → ℕ → List BatchOperation
pruned key bound i zero = []
pruned key bound i (suc left) =
    if leb bound i
    then delete (update_key key i) ∷ pruned key bound (i + 1) left
    else pruned key bound (i + 1) left

pruned-Spares_apart :
    (key j : Bytes) (bound i left : ℕ)
    → ((n : ℕ) → n < i + left → bound ≤ n → update_key key n ≢ j)
    → Spares j (pruned key bound i left)
unfolding pruned
pruned-Spares_apart key j bound i zero apart = tt
pruned-Spares_apart key j bound i (suc left) apart =
    let rest = pruned-Spares_apart key j bound (i + 1) left (λ n lt le. apart n (omega arith) le) in
    elim (Bool-cases (leb bound i)) [
      | inl e ↦ rw (e, All) (apart i (omega arith) (leb→le bound i e), rest)
      | inr e ↦ rw (e, All) rest
    ]

-- Deletions give no record back.
replay-pruned-none :
    (key j : Bytes) (bound i left : ℕ) → replay (pruned key bound i left) j none ≡ none
unfolding replay pruned
replay-pruned-none key j bound i zero = refl
replay-pruned-none key j bound i (suc left) =
    ground (arith, replay-pruned-none key j bound (i + 1) left)

replay-pruned :
    (key : Bytes) (bound i left m : ℕ) (old : Option Bytes)
    → bound ≤ m
    → i ≤ m
    → m < i + left
    → replay (pruned key bound i left) (update_key key m) old ≡ none
unfolding replay pruned
replay-pruned key bound i zero m old above low high = absurd (omega arith)
replay-pruned key bound i (suc left) m old above low high = elim (Bool-cases (ltb i m)) [
  | inr e ↦
      let same : i ≡ m = omega (arith, ltb→le i m e) in
      rw same (
        ground (
          arith,
          bytes_eq_refl (update_key key m),
          replay-pruned-none key (update_key key m) bound (m + 1) left,
        ))
  | inl e ↦
      let rest = λ (o : Option Bytes).
        replay-pruned key bound (i + 1) left m o above (omega (arith, ltb→lt i m e))
          (omega arith) in
      elim (Bool-cases (leb bound i)) [ inl d ↦ rw d (rest _) | inr d ↦ rw d (rest old) ]
]

module _ ⦃db : KeyValueStoreLike⦄ ⦃hex : HexCodec⦄ where
  prune_updates_lem :
      (s : db.Store) (key : Bytes) (hist : History) (t i left n : ℕ)
      → Represents (db.get_immutable s) key hist
      → IsSorted hist
      → i + left ≡ length hist
      → prune_updates s key t i left n ≡ (
        pruned key (count_to hist t) i left,
        if ltb i (count_to hist t) then count_to hist t else n,
      )
  unfolding prune_updates pruned
  prune_updates_lem s key hist t i zero n r sorted len = ground (arith, count_to-le-length hist t)
  prune_updates_lem s key hist t i (suc left) n r sorted len =
      let ((h, v), found) = get_elem?-some hist i (omega arith) in
      ground (
        arith,
        r.entries i h v found,
        update_height-update_value h v (All-get_elem? Fits hist i (h, v) r.fits found),
        count_to_below hist t i h v found,
        count_to_above hist t i h v sorted found,
        prune_updates_lem s key hist t (i + 1) left n r sorted (omega arith),
        prune_updates_lem s key hist t (i + 1) left (i + 1) r sorted (omega arith),
      )

  -- The batch of a key with a length.
  cut_ops : Bytes → ℕ → ℕ → List BatchOperation
  cut_ops key bound n = pruned key bound 0 n ++ put (length_key key) (to_string bound) ∷ []

  Represents-cut_ops :
      (get : View) (key : Bytes) (hist : History) (t : ℕ)
      → Represents get key hist
      → Represents (behind (cut_ops key (count_to hist t) (length hist)) get) key (cut t hist)
  unfolding cut_ops
  Represents-cut_ops get key hist t r =
      let bound = count_to hist t in
      record {
        stored = inl (
            replay-append (pruned key bound 0 (length hist)) _ (length_key key) _
            ∙ replay-put_self [] (length_key key) _ _ tt
            ∙ ap (λ n. some (to_string n)) (sym (length-cut hist t)));
        entries = λ i h v found.
            let below : i < bound =
              omega (arith, get_elem?-lt_length (cut t hist) i (h, v) found, length-cut hist t) in
            replay-Spares _ (update_key key i) _ (
              All-append _ (pruned key bound 0 (length hist)) _
                (pruned-Spares_apart key (update_key key i) bound 0 (length hist) (λ n lt le p.
                  let (_, same) =
                    update_key_injective key key n i (omega (arith, r.short))
                      (omega (arith, r.short, count_to-le-length hist t)) p in
                  absurd (omega arith)))
                (length_key-ne-update_key key key i, tt))
            ∙ r.entries i h v (sym (get_elem?-cut hist t i below) ∙ found);
        fits = All-cut Fits hist t r.fits;
        short = omega (arith, r.short, length-cut hist t, count_to-le-length hist t);
      }

  cut_ops-Clears :
      (get : View) (key : Bytes) (bound n : ℕ)
      → Clears get (behind (cut_ops key bound n) get) key bound n
  unfolding cut_ops
  cut_ops-Clears get key bound n i above small gone =
      replay-append (pruned key bound 0 n) _ (update_key key i) _
      ∙ replay-Spares _ (update_key key i) _ ((length_key-ne-update_key key key i, tt))
      ∙ elim gone [
        | inl lt ↦ replay-pruned key bound 0 n i _ above (omega arith) (omega arith)
        | inr absent ↦ rw absent (replay-pruned-none key (update_key key i) bound 0 n)
      ]

  Represents-cut_ops_ne :
      (get : View) (key j : Bytes) (bound n : ℕ) (other : History)
      → j ≢ key
      → n < u32_mod
      → Represents get j other
      → Represents (behind (cut_ops key bound n) get) j other
  unfolding cut_ops
  Represents-cut_ops_ne get key j bound n other ne small r =
      Represents-agree get _ j other
        (replay-Spares _ (length_key j) _ (
          All-append _ (pruned key bound 0 n) _
            (pruned-Spares_apart key (length_key j) bound 0 n
              (λ m lt le p. length_key-ne-update_key j key m (sym p)))
            (λ q. ne (sym (length_key_injective key j q)), tt)))
        (λ i lt. replay-Spares _ (update_key j i) _ (
          All-append _ (pruned key bound 0 n) _
            (pruned-Spares_apart key (update_key j i) bound 0 n (λ m le above p.
              ne (sym (update_key_injective key j m i (omega arith) (omega (arith, r.short)) p).0)))
            (length_key-ne-update_key key j i, tt)))
        r

  rollback_key_to_batch_stored :
      (s : db.Store) (key : Bytes) (hist : History) (t : ℕ)
      → Represents (db.get_immutable s) key hist
      → IsSorted hist
      → db.get_immutable s (length_key key) ≡ some (to_string (length hist))
      → rollback_key_to_batch s [] key t ≡ cut_ops key (count_to hist t) (length hist)
  unfolding rollback_key_to_batch cut_ops
  rollback_key_to_batch_stored s key hist t r sorted e = ground (
    arith,
    e,
    parse_length-to_string (length hist) r.short,
    prune_updates_lem s key hist t 0 (length hist) 0 r sorted (omega arith),
  )

  rollback_key_to_batch_absent :
      (s : db.Store) (key : Bytes) (t : ℕ)
      → db.get_immutable s (length_key key) ≡ none
      → rollback_key_to_batch s [] key t ≡ []
  unfolding rollback_key_to_batch
  rollback_key_to_batch_absent s key t e = rw (rollback_key_to_batch, e) refl

  -- `rollback_key` leaves of a sorted history that the store holds under the key exactly the updates
  -- at or below the target height: the store then holds that history, and no record is left of an
  -- update that it has lost, nor at any later index that had none.
  pub rollback_key-cut :
      (s : db.Store) (key : Bytes) (hist : History) (t : ℕ)
      → Represents (db.get_immutable s) key hist
      → IsSorted hist
      → Represents (db.get_immutable (rollback_key s key t)) key (cut t hist)
        × Clears
            (db.get_immutable s)
            (db.get_immutable (rollback_key s key t))
            key
            (length (cut t hist))
            (length hist)
  unfolding rollback_key
  rollback_key-cut s key hist t r sorted = elim r.stored [
    | inl e ↦
        rw (rollback_key, rollback_key_to_batch_stored s key hist t r sorted e)
          (
            Represents-write s _ key (cut t hist)
                (Represents-cut_ops (db.get_immutable s) key hist t r),
            λ i above small gone.
                db.get_immutable-write s _ (update_key key i) (update_key-ne-tip key i)
                ∙ cut_ops-Clears (db.get_immutable s) key (count_to hist t) (length hist) i
                    (omega (arith, length-cut hist t)) small gone,
          )
    | inr (e, absent) ↦
        unfold replay in
        rw (rollback_key, rollback_key_to_batch_absent s key t absent)
          (
            Represents-write s _ key (cut t hist)
                (subst (λ h. Represents (db.get_immutable s) key (cut t h)) (sym e) (rw e at r)),
            λ i above small gone.
                db.get_immutable-write s _ (update_key key i) (update_key-ne-tip key i)
                ∙ elim gone [
                  | inl lt ↦ absurd (omega (arith, ap length e))
                  | inr none_before ↦ none_before
                ],
          )
  ]

  -- `rollback_key` leaves the history of another key as it was, if the store holds histories under
  -- both and that of the rolled back key is sorted.
  pub rollback_key_ne :
      (s : db.Store) (key j : Bytes) (hist other : History) (t : ℕ)
      → j ≢ key
      → Represents (db.get_immutable s) key hist
      → IsSorted hist
      → Represents (db.get_immutable s) j other
      → Represents (db.get_immutable (rollback_key s key t)) j other
  unfolding rollback_key
  rollback_key_ne s key j hist other t ne r sorted untouched =
      Represents-write s _ j other (elim r.stored [
        | inl e ↦ rw (rollback_key_to_batch_stored s key hist t r sorted e) (
            Represents-cut_ops_ne (db.get_immutable s) key j (count_to hist t) (length hist) other
              ne r.short untouched)
        | inr (e, absent) ↦
            unfold replay in rw (rollback_key_to_batch_absent s key t absent) untouched
      ])
