-- ===== src/Append/Search.antt =====
-- The binary search of `get_at_height` (crates/metashrew-runtime/src/smt.rs) over a history.
use native.Mathlib.Numerals.{add-one}
use metashrew.Prelude.{
  ℕ, zero, suc, ◌+◌, ◌-◌, ◌/◌, ◌%◌, ◌^◌, ◌≤◌, ◌<◌, ◌≡◌, ◌⊎◌, ◌∙◌, none, some, [], Bytes, inl, inr,
  arith, length, get_elem?, get_elem?-some, ltb, ltb→lt, ltb→le, le→leb, lt→leb, Bool-cases, tests,
  ap, All-get_elem?,
}
use metashrew.RustStd.Decimal.{u32_mod, to_string}
use metashrew.Keys.Layout.{length_key}
use metashrew.Error.{ok}
use metashrew.Storage.{KeyValueStoreLike, HexCodec}
use metashrew.Append.{probe, search_loop, get_at_height}
use metashrew.Append.History.{
  History, IsSorted, lookup_at, count_to, value_before, count_to-le-length, count_to_below,
  count_to_above, lookup_at-count_to,
}
use metashrew.Append.Represents.{Represents, Fits, parse_length-to_string, probe_lem}

value_before-suc :
    (hist : History) (i h : ℕ) (v : Bytes)
    → get_elem? hist i ≡ some (h, v)
    → value_before hist (suc i) ≡ some v
value_before-suc hist i h v e = ground arith

module _ ⦃db : KeyValueStoreLike⦄ ⦃hex : HexCodec⦄ where
  -- A probe of an index in range says whether the index lies before the cut.
  probe_cut :
      (s : db.Store) (key : Bytes) (hist : History) (t i : ℕ)
      → Represents (db.get_immutable s) key hist
      → IsSorted hist
      → i < length hist
      → ((i < count_to hist t)
          × (v : Bytes) × (probe s key t i ≡ ok (some v))
          × (value_before hist (suc i) ≡ some v))
        ⊎ ((count_to hist t ≤ i) × (probe s key t i ≡ ok none))
  probe_cut s key hist t i r sorted lt =
      let ((h, v), found) = get_elem?-some hist i lt in
      let probed =
        probe_lem s key t i h v (r.entries i h v found)
          (All-get_elem? Fits hist i (h, v) r.fits found) in
      elim (Bool-cases (ltb i (count_to hist t))) [
        | inl e ↦ inl (
          ltb→lt i (count_to hist t) e,
          v,
          probed
              ∙ ap ok (
                  rw (
                    le→leb h t (count_to_below hist t i h v found (ltb→lt i (count_to hist t) e)))),
          value_before-suc hist i h v found,
        )
        | inr e ↦ inr (
          ltb→le i (count_to hist t) e,
          probed
              ∙ ap ok (
                  rw (
                    lt→leb h t
                      (count_to_above hist t i h v sorted found (ltb→le i (count_to hist t) e)))),
        )
      ]

  -- The loop narrows the range down to the cut, and the rounds suffice.
  search_loop_lem :
      (s : db.Store) (key : Bytes) (hist : History) (t rounds left right : ℕ)
      → Represents (db.get_immutable s) key hist
      → IsSorted hist
      → length hist ≤ 2 ^ 31
      → right - left < rounds
      → left ≤ count_to hist t
      → count_to hist t ≤ right
      → right ≤ length hist
      → search_loop s key t rounds left right (value_before hist left)
        ≡ ok (value_before hist (count_to hist t))
  unfolding search_loop
  search_loop_lem s key hist t zero left right r sorted short fuel lo hi fit = absurd (omega arith)
  search_loop_lem s key hist t (suc rounds) left right r sorted short fuel lo hi fit =
      elim (Bool-cases (ltb left right)) [
        | inr done ↦ rw done (ap (λ i. ok (value_before hist i)) (omega tests))
        | inl more ↦
            let mid = ((left + right) % u32_mod) / 2 in
            let lt : left < right = ltb→lt left right more in
            let within : (left ≤ mid) × (mid < right) = omega arith in
            elim (probe_cut s key hist t mid r sorted (omega arith)) [
              | inl (below, v, probed, here) ↦
                  let ih =
                    search_loop_lem s key hist t rounds (suc mid) right r sorted short (omega arith)
                      below hi fit in
                  rw (more, probed, add-one mid, ← here) ih
              | inr (above, probed) ↦
                  let ih =
                    search_loop_lem s key hist t rounds left mid r sorted short (omega arith) lo
                      above (omega arith) in
                  rw (more, probed) ih
            ]
      ]

  get_at_height_stored :
      (s : db.Store) (key : Bytes) (hist : History) (height : ℕ)
      → Represents (db.get_immutable s) key hist
      → IsSorted hist
      → length hist ≤ 2 ^ 31
      → db.get_immutable s (length_key key) ≡ some (to_string (length hist))
      → get_at_height s key height ≡ ok (value_before hist (count_to hist height))
  unfolding get_at_height
  get_at_height_stored s key hist height r sorted short e =
      let cut_le = count_to-le-length hist height in
      ground (
        arith,
        e,
        parse_length-to_string (length hist) r.short,
        search_loop_lem s key hist height (suc (length hist)) 0 (length hist) r sorted short
            (omega arith) (omega arith) cut_le (omega arith),
        cut_le,
      )

  get_at_height_absent :
      (s : db.Store) (key : Bytes) (hist : History) (height : ℕ)
      → hist ≡ []
      → db.get_immutable s (length_key key) ≡ none
      → get_at_height s key height ≡ ok (lookup_at hist height)
  unfolding get_at_height
  get_at_height_absent s key hist height e absent =
      ground (arith, absent, ap (λ l. lookup_at l height) e)

  -- On a store that holds a sorted history of at most 2^31 updates under a key, the binary search of
  -- `get_at_height` returns without an error, and returns the value of the last update at or before
  -- the height, none if there is none.
  pub get_at_height-lookup_at :
      (s : db.Store) (key : Bytes) (hist : History) (height : ℕ)
      → Represents (db.get_immutable s) key hist
      → IsSorted hist
      → length hist ≤ 2 ^ 31
      → get_at_height s key height ≡ ok (lookup_at hist height)
  get_at_height-lookup_at s key hist height r sorted short = elim r.stored [
    | inl e ↦
        rw (lookup_at-count_to hist height sorted)
          (get_at_height_stored s key hist height r sorted short e)
    | inr (e, absent) ↦ get_at_height_absent s key hist height e absent
  ]
