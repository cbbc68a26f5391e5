-- ===== src/Rollback/Trim.antt =====
-- One key is trimmed to the updates at or below the height.
use metashrew.Prelude.{
  ℕ, zero, suc, ◌≤◌, ◌<◌, ◌≡◌, ◌≢◌, ◌⊎◌, refl, sym, ◌∙◌, ap, Option, none, some, [], ◌∷◌, Bytes,
  All, All-get_elem?, inl, inr, arith, length, get_elem?, get_elem?-some, get_elem?-lt_length, ltb,
  if◌then◌else◌,
}
use metashrew.RustStd.Decimal.{u32_mod, to_string}
use metashrew.Keys.Layout.{length_key, update_key}
use metashrew.Storage.{KeyValueStoreLike, SmtRollback, HexCodec}
use metashrew.Storage.Batch.{replay-Spares}
use metashrew.Append.{update_value}
use metashrew.Append.History.{History, IsSorted, count_to, count_to_below, count_to_above}
use metashrew.Append.Represents.{
  View, behind, Represents, Represents-agree, Fits, parse_length-to_string,
  update_height-update_value,
}
use metashrew.Rollback.{walk_back, trim_key, parse_height_from_smt_value}
use metashrew.Rollback.TrimOps.{
  deletions, trim_ops, trim_ops_none, trim_ops-Spares-length_key, trim_ops-Spares-update_key,
  trim_ops-length_key,
}

module _ ⦃db : KeyValueStoreLike⦄ ⦃rb : SmtRollback db⦄ ⦃hex : HexCodec⦄ where
  -- Walking back from `i` deletes down to the cut.
  walk_back_lem :
      (s : db.Store) (key : Bytes) (hist : History) (t i n : ℕ)
      → Represents (rb.get_value s) key hist
      → IsSorted hist
      → i ≤ length hist
      → walk_back s key t i n ≡ (
        deletions key (count_to hist t) i,
        if ltb (count_to hist t) i then count_to hist t else n,
      )
  unfolding walk_back deletions parse_height_from_smt_value
  walk_back_lem s key hist t zero n r sorted le = ground arith
  walk_back_lem s key hist t (suc i) n r sorted le =
      let ((h, v), found) = get_elem?-some hist i (omega arith) in
      ground (
        arith,
        r.entries i h v found,
        update_height-update_value h v (All-get_elem? Fits hist i (h, v) r.fits found),
        count_to_below hist t i h v found,
        count_to_above hist t i h v sorted found,
        walk_back_lem s key hist t i i r sorted (omega arith),
      )

module _ ⦃hex : HexCodec⦄ where
  -- The updates of a history are all readable, whatever the stored length says.
  abbrev pub Readable : View → Bytes → History → Type 0
  Readable get key hist =
      (i h : ℕ) (v : Bytes)
      → get_elem? hist i ≡ some (h, v)
      → get (update_key key i) ≡ some (update_value h v)

  empty_history : (hist : History) → length hist ≡ 0 → hist ≡ []
  empty_history [] e = refl
  empty_history (x ∷ hist) e = absurd (omega arith)

  stored_after :
      (key : Bytes) (target : History) (found : Option Bytes)
      → found ≡ (if ltb 0 (length target) then some (to_string (length target)) else none)
      → (found ≡ some (to_string (length target))) ⊎ ((target ≡ []) × (found ≡ none))
  stored_after key [] found e = inr (refl, e)
  stored_after key (x ∷ target) found e = inl (ground (arith, e))

  -- Behind the operations that cut a longer history stands the shorter one.
  pub Represents-trim_ops :
      (get : View) (key : Bytes) (target : History) (n : ℕ)
      → length target < n
      → n < u32_mod
      → All Fits target
      → Readable get key target
      → Represents (behind (trim_ops key (length target) n) get) key target
  Represents-trim_ops get key target n lt small fits readable = record {
    stored = stored_after key target _ (trim_ops-length_key key (length target) n _ lt);
    entries = λ i h v found.
        let below = get_elem?-lt_length target i (h, v) found in
        replay-Spares _ (update_key key i) _
          (trim_ops-Spares-update_key key key (length target) n i small (omega arith) (inr below))
        ∙ readable i h v found;
    fits = fits;
    short = omega arith;
  }

  pub Represents-trim_ops_ne :
      (get : View) (key j : Bytes) (hist : History) (cut n : ℕ)
      → j ≢ key
      → n < u32_mod
      → Represents get j hist
      → Represents (behind (trim_ops key cut n) get) j hist
  Represents-trim_ops_ne get key j hist cut n ne small r =
      Represents-agree get _ j hist
        (replay-Spares _ (length_key j) _ (trim_ops-Spares-length_key key j cut n ne))
        (λ i lt.
          replay-Spares _ (update_key j i) _
            (trim_ops-Spares-update_key key j cut n i small (omega (arith, r.short)) (inl ne)))
        r

module _ ⦃db : KeyValueStoreLike⦄ ⦃rb : SmtRollback db⦄ ⦃hex : HexCodec⦄ where
  trim_key_stored :
      (s : db.Store) (key : Bytes) (hist : History) (t : ℕ)
      → Represents (rb.get_value s) key hist
      → IsSorted hist
      → rb.get_value s (length_key key) ≡ some (to_string (length hist))
      → trim_key s t key ≡ trim_ops key (count_to hist t) (length hist)
  unfolding trim_key trim_ops
  trim_key_stored s key hist t r sorted e = ground (
    arith,
    e,
    parse_length-to_string (length hist) r.short,
    walk_back_lem s key hist t (length hist) (length hist) r sorted (omega arith),
  )

  trim_key_absent :
      (s : db.Store) (key : Bytes) (t : ℕ)
      → rb.get_value s (length_key key) ≡ none
      → trim_key s t key ≡ []
  unfolding trim_key
  trim_key_absent s key t absent = ground (arith, absent)

  -- What `trim_key` writes for a key that the backend holds a history of.
  pub trim_key_lem :
      (s : db.Store) (key : Bytes) (hist : History) (t : ℕ)
      → Represents (rb.get_value s) key hist
      → IsSorted hist
      → trim_key s t key ≡ trim_ops key (count_to hist t) (length hist)
  trim_key_lem s key hist t r sorted = elim r.stored [
    | inl e ↦ trim_key_stored s key hist t r sorted e
    | inr (e, absent) ↦
        trim_key_absent s key t absent
        ∙ sym (trim_ops_none key 0)
        ∙ sym (ap (λ (l : History). trim_ops key (count_to l t) (length l)) e)
  ]
