-- ===== src/Pointer/Lists.antt =====
-- A pointer as a list: `append`, `pop`, `length` and `get_list` of
-- crates/metashrew-support/src/index_pointer.rs.
use metashrew.Prelude.{
  ℕ, suc, ◌+◌, ◌-◌, ◌<◌, ◌≡◌, ◌≢◌, ◌⊎◌, inl, inr, false, refl, sym, ◌∙◌, ap, subst, some, List, [],
  ◌∷◌, ◌++◌, append_assoc, Bytes, bytes_eq_refl, ne→bytes_eq, length, length-append, get_elem?,
  get_elem?-append_left, get_elem?-append_last, get_elem?-lt_length, ltb, ltb→lt, ltb→le,
  Bool-cases, ◌==◌, arith,
}
use metashrew.RustStd.Decimal.{u32_mod}
use metashrew.Error.{ok}
use metashrew.Keys.Layout.{length_key, update_key}
use metashrew.Keys.Layout.Distinct.{
  update_key_injective, length_key_injective, length_key-ne-update_key,
}
use metashrew.Pointer.ByteView.{to_bytes, from_bytes-to_bytes, values}
use metashrew.Pointer.{
  Cells, value_or_zero, get_value, set_value, list_length, select_index, items_from, get_list,
  extend, append, pop,
}

module _ ⦃cells : Cells⦄ where
  -- The store holds the items behind the key, as `append` leaves them; a list never written has no
  -- length.
  pub record ListAt (s : cells.State) (key : Bytes) (items : List Bytes) : Type 0 where
    pub stored :
        (cells.get s (length_key key) ≡ to_bytes 4 (length items))
        ⊎ ((items ≡ []) × (cells.get s (length_key key) ≡ []))
    pub entries :
        (i : ℕ) (v : Bytes) → get_elem? items i ≡ some v → cells.get s (update_key key i) ≡ v
    pub short : length items < u32_mod

  value_or_zero-to_bytes : (n : ℕ) → n < u32_mod → value_or_zero 4 (to_bytes 4 n) ≡ ok n
  unfolding value_or_zero to_bytes values
  value_or_zero-to_bytes n small = from_bytes-to_bytes 4 n (omega arith)

  pub list_length_lem :
      (s : cells.State) (key : Bytes) (items : List Bytes)
      → ListAt s key items
      → list_length s key ≡ ok (length items)
  unfolding list_length get_value value_or_zero
  list_length_lem s key items l = elim l.stored [
    | inl e ↦ ap (value_or_zero 4) e ∙ value_or_zero-to_bytes (length items) l.short
    | inr (e, absent) ↦ ap (value_or_zero 4) absent ∙ ap (λ (x : List Bytes). ok (length x)) (sym e)
  ]

  get-set_self : (s : cells.State) (k v : Bytes) → cells.get (cells.set s k v) k ≡ v
  get-set_self s k v = cells.get-set s k v k ∙ rw (bytes_eq_refl k) refl

  get-set_ne :
      (s : cells.State) (k v j : Bytes) → k ≢ j → cells.get (cells.set s k v) j ≡ cells.get s j
  get-set_ne s k v j ne = cells.get-set s k v j ∙ rw (ne→bytes_eq k j ne) refl

  -- The store after an item was written behind `n` others.
  abbrev with_item : cells.State → Bytes → ℕ → Bytes → cells.State
  with_item s key n v =
      cells.set (cells.set s (length_key key) (to_bytes 4 (suc n))) (update_key key n) v

  entries_with_item :
      (s : cells.State) (key : Bytes) (items : List Bytes) (v : Bytes) (i : ℕ) (w : Bytes)
      → ListAt s key items
      → get_elem? (items ++ v ∷ []) i ≡ some w
      → cells.get (with_item s key (length items) v) (update_key key i) ≡ w
  entries_with_item s key items v i w l found = elim (Bool-cases (ltb i (length items))) [
    | inl b ↦
        let h = ltb→lt i (length items) b in
        get-set_ne _ (update_key key (length items)) v (update_key key i) (λ e. absurd (
          omega (
            arith,
            (update_key_injective key key (length items) i l.short (omega (arith, l.short)) e).1,
          )))
        ∙ get-set_ne s (length_key key) _ (update_key key i) (length_key-ne-update_key key key i)
        ∙ l.entries i w (sym (get_elem?-append_left items (v ∷ []) i h) ∙ found)
    | inr b ↦
        let h : i ≡ length items = omega (
          arith,
          ltb→le i (length items) b,
          get_elem?-lt_length _ i w found,
          length-append items (v ∷ []),
        ) in
        let same : some w ≡ some v = sym found ∙ get_elem?-append_last items v i h in
        ap (λ (n : ℕ). cells.get (with_item s key (length items) v) (update_key key n)) h
        ∙ get-set_self _ (update_key key (length items)) v
        ∙ cc
  ]

  -- `append` puts the item behind the others.
  pub append-ListAt :
      (s : cells.State) (key : Bytes) (items : List Bytes) (v : Bytes)
      → ListAt s key items
      → length items + 1 < u32_mod
      → (append s key v ≡ ok (with_item s key (length items) v))
        × ListAt (with_item s key (length items) v) key (items ++ v ∷ [])
  unfolding append extend set_value select_index
  append-ListAt s key items v l room = (
    rw (list_length_lem s key items l) (
        ap
          (λ (n : ℕ). ok (
            cells.set (cells.set s (length_key key) (to_bytes 4 n)) (update_key key (length items))
              v))
          (omega arith)),
    record {
      stored = inl (
          get-set_ne _ (update_key key (length items)) v (length_key key)
            (λ e. length_key-ne-update_key key key (length items) (sym e))
          ∙ get-set_self s (length_key key) _
          ∙ ap (to_bytes 4) (omega (arith, length-append items (v ∷ []))));
      entries = λ i w found. entries_with_item s key items v i w l found;
      short = omega (arith, length-append items (v ∷ []));
    },
  )

  -- `pop` takes the last item.
  pub pop-ListAt :
      (s : cells.State) (key : Bytes) (items : List Bytes) (v : Bytes)
      → ListAt s key (items ++ v ∷ [])
      → (t : cells.State) × (pop s key ≡ ok (t, v)) × ListAt t key items
  unfolding pop set_value select_index
  pop-ListAt s key items v l =
      let t = cells.set s (length_key key) (to_bytes 4 (length items)) in
      let size : length (items ++ v ∷ []) ≡ suc (length items) =
        omega (arith, length-append items (v ∷ [])) in
      let less : suc (length items) - 1 ≡ length items = omega arith in
      let positive : (suc (length items) == 0) ≡ false = ground arith in
      let last : cells.get t (update_key key (length items)) ≡ v =
        get-set_ne s (length_key key) _ (update_key key (length items))
          (length_key-ne-update_key key key (length items))
        ∙ l.entries (length items) v (get_elem?-append_last items v (length items) refl) in
      (
        t,
        rw (list_length_lem s key (items ++ v ∷ []) l, size, less, positive, last) refl,
        record {
          stored = inl (get-set_self s (length_key key) _);
          entries = λ i w found.
              get-set_ne s (length_key key) _ (update_key key i)
                (length_key-ne-update_key key key i)
              ∙ l.entries i w (
                  get_elem?-append_left items (v ∷ []) i (get_elem?-lt_length items i w found)
                  ∙ found);
          short = omega (arith, l.short, size);
        },
      )

  -- From an empty list `pop` returns the empty bytes and changes nothing.
  pub pop-ListAt_empty : (s : cells.State) (key : Bytes) → ListAt s key [] → pop s key ≡ ok (s, [])
  unfolding pop
  pop-ListAt_empty s key l = rw (list_length_lem s key [] l) refl

  items_from_lem :
      (s : cells.State) (key : Bytes) (before items : List Bytes)
      → ListAt s key (before ++ items)
      → items_from s key (length before) (length items) ≡ items
  unfolding items_from select_index
  items_from_lem s key before [] l = refl
  items_from_lem s key before (v ∷ items) l =
      let l' : ListAt s key ((before ++ v ∷ []) ++ items) =
        subst (λ (x : List Bytes). ListAt s key x) (sym (append_assoc before (v ∷ []) items)) l in
      let size : length (before ++ v ∷ []) ≡ suc (length before) =
        omega (arith, length-append before (v ∷ [])) in
      let here : cells.get s (update_key key (length before)) ≡ v = l'.entries (length before) v (
        get_elem?-append_left (before ++ v ∷ []) items (length before) (omega (arith, size))
        ∙ get_elem?-append_last before v (length before) refl) in
      rw here (
        ap (λ (x : List Bytes). v ∷ x)
          (ap (λ (n : ℕ). items_from s key n (length items)) (sym size)
            ∙ items_from_lem s key (before ++ v ∷ []) items l'))

  -- `get_list` returns the items.
  pub get_list-ListAt :
      (s : cells.State) (key : Bytes) (items : List Bytes)
      → ListAt s key items
      → get_list s key ≡ ok items
  unfolding get_list
  get_list-ListAt s key items l =
      rw (list_length_lem s key items l) (ap ok (items_from_lem s key [] items l))

  -- Let the store hold items behind a key, with room for one more. After `append` of one, `get_list`
  -- returns them with it last; a `pop` then returns it and leaves a store that holds the items
  -- again.
  pub append-pop :
      (s : cells.State) (key : Bytes) (items : List Bytes) (v : Bytes)
      → ListAt s key items
      → length items + 1 < u32_mod
      → (t u : cells.State) × (append s key v ≡ ok t)
        × (get_list t key ≡ ok (items ++ v ∷ []))
        × (pop t key ≡ ok (u, v))
        × (get_list u key ≡ ok items)
        × ListAt u key items
  append-pop s key items v l room =
      let t = with_item s key (length items) v in
      let (put, after) = append-ListAt s key items v l room in
      let (u, popped, back) = pop-ListAt t key items v after in
      (
        t,
        u,
        put,
        get_list-ListAt t key (items ++ v ∷ []) after,
        popped,
        get_list-ListAt u key items back,
        back,
      )

  -- An `append` behind one key leaves the list behind another, whose indices are below 2^32.
  pub append-ListAt_ne :
      (s : cells.State) (key j : Bytes) (items others : List Bytes) (v : Bytes)
      → key ≢ j
      → ListAt s key items
      → ListAt s j others
      → length items + 1 < u32_mod
      → (t : cells.State) × (append s key v ≡ ok t) × ListAt t j others
  append-ListAt_ne s key j items others v ne l o room =
      let t = with_item s key (length items) v in
      let kept_length : cells.get t (length_key j) ≡ cells.get s (length_key j) =
        get-set_ne _ (update_key key (length items)) v (length_key j)
          (λ e. length_key-ne-update_key j key (length items) (sym e))
        ∙ get-set_ne s (length_key key) _ (length_key j) (λ e. ne (length_key_injective key j e)) in
      (
        t,
        (append-ListAt s key items v l room).0,
        record {
          stored = elim o.stored [
            | inl e ↦ inl (kept_length ∙ e)
            | inr (e, absent) ↦ inr (e, kept_length ∙ absent)
          ];
          entries = λ i w found.
              get-set_ne _ (update_key key (length items)) v (update_key j i) (λ e.
                ne
                  (update_key_injective key j (length items) i l.short
                    (omega (arith, get_elem?-lt_length others i w found, o.short)) e).0)
              ∙ get-set_ne s (length_key key) _ (update_key j i) (length_key-ne-update_key key j i)
              ∙ o.entries i w found;
          short = o.short;
        },
      )
