-- ===== src/Pointer.antt =====
-- Lists of byte strings behind a key of the indexer's store: the trait `KeyValuePointer` of
-- crates/metashrew-support/src/index_pointer.rs. A pointer is its key, and what it `inherits` is
-- part of the store. Arithmetic on u32 wraps, as in a release build.
pub mod ByteView
pub mod Lists
pub mod Checkpoint
use metashrew.Prelude.{
  ℕ, zero, suc, ◌+◌, ◌-◌, ◌%◌, ◌≡◌, Bool, true, false, Option, none, some, List, [], ◌∷◌, ◌++◌,
  Bytes, bytes_eq, codes, length, ltb, ◌==◌, if◌then◌else◌,
}
use metashrew.RustStd.Decimal.{u32_mod}
use metashrew.Error.{Result, ok, err, ◌>>=◌}
use metashrew.Keys.Layout.{length_key, update_key}
use ByteView.{to_bytes, from_bytes}

-- The required methods `get` and `set`: a write is read back at its key, and changes no other.
pub record Cells : Type 1 where
  pub State : Type 0
  pub get : State → Bytes → Bytes
  pub set : State → Bytes → Bytes → State
  pub get-set :
      (s : State) (k v j : Bytes) → get (set s k v) j ≡ (if bytes_eq k j then v else get s j)

unfoldable pub select : Bytes → Bytes → Bytes
select key word = key ++ word

unfoldable pub keyword : Bytes → Bytes → Bytes
keyword key word = key ++ word

unfoldable pub prefix : Bytes → Bytes → Bytes
prefix key word = word ++ key

unfoldable pub select_value : ℕ → Bytes → ℕ → Bytes
unfolding select
select_value width key value = select key (to_bytes width value)

unfoldable pub head_key : Bytes → Bytes
unfolding keyword
head_key key = keyword key (codes "/head")

unfoldable pub next_key : Bytes → ℕ → Bytes
unfolding keyword select_value
next_key key i = select_value 4 (keyword key (codes "/next")) i

-- `/length` and `/<index>`, which are also those of the append-only store.
unfoldable pub select_index : Bytes → ℕ → Bytes
select_index key index = update_key key index

unfoldable pub value_or_zero : ℕ → Bytes → Result ℕ
value_or_zero width [] = ok 0
value_or_zero width (b ∷ v) = from_bytes width (b ∷ v)

module _ ⦃cells : Cells⦄ where
  unfoldable pub set_value : ℕ → cells.State → Bytes → ℕ → cells.State
  set_value width s key v = cells.set s key (to_bytes width v)

  unfoldable pub get_value : ℕ → cells.State → Bytes → Result ℕ
  unfolding value_or_zero
  get_value width s key = value_or_zero width (cells.get s key)

  unfoldable pub list_length : cells.State → Bytes → Result ℕ
  unfolding get_value
  list_length s key = get_value 4 s (length_key key)

  unfoldable pub nullify : cells.State → Bytes → cells.State
  nullify s key = cells.set s key (0 ∷ [])

  unfoldable pub drop_index : cells.State → Bytes → ℕ → cells.State
  unfolding nullify select_index
  drop_index s key index = nullify s (select_index key index)

  -- A `usize` has four bytes in a WASM module.
  unfoldable pub set_or_nullify : cells.State → Bytes → Bytes → Result cells.State
  unfolding nullify
  set_or_nullify s key v =
      from_bytes 4 v >>= λ n. ok (if n == 0 then nullify s key else cells.set s key v)

  -- `for i in 0..length`, by the rounds left.
  items_from : cells.State → Bytes → ℕ → ℕ → List Bytes
  unfolding select_index
  items_from s key i zero = []
  items_from s key i (suc left) = cells.get s (select_index key i) ∷ items_from s key (suc i) left

  unfoldable pub get_list : cells.State → Bytes → Result (List Bytes)
  unfolding list_length items_from
  get_list s key = list_length s key >>= λ length. ok (items_from s key 0 length)

  values_from : ℕ → cells.State → Bytes → ℕ → ℕ → Result (List ℕ)
  unfolding get_value select_index
  values_from width s key i zero = ok []
  values_from width s key i (suc left) = get_value width s (select_index key i) >>= λ v.
      values_from width s key (suc i) left >>= λ rest. ok (v ∷ rest)

  unfoldable pub get_list_values : ℕ → cells.State → Bytes → Result (List ℕ)
  unfolding list_length values_from
  get_list_values width s key = list_length s key >>= λ length. values_from width s key 0 length

  -- The store with one index more, and that index's key.
  unfoldable pub extend : cells.State → Bytes → Result (cells.State × Bytes)
  unfolding list_length set_value select_index
  extend s key = list_length s key >>= λ length.
      ok ((set_value 4 s (length_key key) ((length + 1) % u32_mod), select_index key length))

  unfoldable pub append : cells.State → Bytes → Bytes → Result cells.State
  unfolding extend
  append s key v = extend s key >>= λ r. ok (cells.set r.0 r.1 v)

  unfoldable pub append_value : ℕ → cells.State → Bytes → ℕ → Result cells.State
  unfolding extend set_value
  append_value width s key v = extend s key >>= λ r. ok (set_value width r.0 r.1 v)

  unfoldable pub pop : cells.State → Bytes → Result (cells.State × Bytes)
  unfolding list_length set_value select_index
  pop s key = list_length s key >>= λ length.
      if length == 0
      then ok ((s, []))
      else (let t = set_value 4 s (length_key key) (length - 1) in
          ok ((t, cells.get t (select_index key (length - 1)))))

  unfoldable pub pop_value : ℕ → cells.State → Bytes → Result (cells.State × ℕ)
  unfolding list_length set_value get_value select_index
  pop_value width s key = list_length s key >>= λ length.
      if length == 0
      then (from_bytes width [] >>= λ v. ok ((s, v)))
      else (let t = set_value 4 s (length_key key) (length - 1) in
          get_value width t (select_index key (length - 1)) >>= λ v. ok ((t, v)))

  unfoldable pub set_next_for : cells.State → Bytes → ℕ → ℕ → cells.State
  unfolding set_value next_key
  set_next_for s key i v = set_value 4 s (next_key key i) v

  unfoldable pub extend_ll : cells.State → Bytes → Result (cells.State × Bytes)
  unfolding list_length set_next_for set_value select_index
  extend_ll s key = list_length s key >>= λ length.
      let t = if ltb 0 length then set_next_for s key (length - 1) length else s in
      ok ((set_value 4 t (length_key key) ((length + 1) % u32_mod), select_index key length))

  unfoldable pub append_ll : cells.State → Bytes → Bytes → Result cells.State
  unfolding extend_ll
  append_ll s key v = extend_ll s key >>= λ r. ok (cells.set r.0 r.1 v)

  unfoldable pub delete_value : cells.State → Bytes → ℕ → Result cells.State
  unfolding get_value set_value head_key next_key drop_index
  delete_value s key i = get_value 4 s (head_key key) >>= λ head.
      get_value 4 s (next_key key i) >>= λ next. ok (
        if i == head
        then drop_index (set_value 4 s (head_key key) next) key i
        else drop_index (set_value 4 s (next_key key ((i + u32_mod - 1) % u32_mod)) next) key i)

  -- `while i < length`, on fuel: the items that the links lead to, and none when the fuel is used up.
  walk_ll : ℕ → cells.State → Bytes → ℕ → ℕ → Option (Result (List (ℕ × Bytes)))
  unfolding get_value next_key select_index
  walk_ll zero s key length i = none
  walk_ll (suc fuel) s key length i = elim (ltb i length) [
    | false ↦ some (ok [])
    | true ↦ elim (get_value 4 s (next_key key i)) [
      | err e ↦ some (err e)
      | ok next ↦ elim (next == 0) [
        | true ↦ some (ok ((i, cells.get s (select_index key i)) ∷ []))
        | false ↦ elim (walk_ll fuel s key length next) [
          | none ↦ none
          | some rest ↦ some (rest >>= λ items. ok ((i, cells.get s (select_index key i)) ∷ items))
        ]
      ]
    ]
  ]

  -- `map_ll`, whose function is handed each item.
  unfoldable pub map_ll : ℕ → cells.State → Bytes → Option (Result (List (ℕ × Bytes)))
  unfolding list_length get_value head_key walk_ll
  map_ll fuel s key = elim (list_length s key) [
    | err e ↦ some (err e)
    | ok length ↦ elim (get_value 4 s (head_key key)) [
      | err e ↦ some (err e)
      | ok head ↦ walk_ll fuel s key length head
    ]
  ]
