-- ===== src/Append.antt =====
-- The append-only store of crates/metashrew-runtime/src/smt.rs: `put`, `get_at_height`,
-- `get_current` and the heights of a key, as methods of `SMTHelper` over a backend.
pub mod History
pub mod Represents
pub mod Search
pub mod Put
pub mod Reads
use metashrew.Prelude.{
  ℕ, zero, suc, ◌+◌, ◌-◌, ◌/◌, ◌%◌, Bool, true, false, Option, none, some, List, [], ◌∷◌, ◌++◌,
  Bytes, ltb, leb, ◌==◌, if◌then◌else◌,
}
use metashrew.RustStd.Decimal.{u32_mod, to_string, parse_u32}
use metashrew.RustStd.Utf8.{from_utf8_lossy}
use metashrew.RustStd.Find.{split_at}
use metashrew.Keys.Layout.{length_key, update_key}
use metashrew.Error.{
  Result, ok, err, ◌>>=◌, invalid_hex, invalid_height, invalid_format, missing_update,
  out_of_rounds,
}
use metashrew.Storage.{KeyValueStoreLike, HexCodec}
use metashrew.Storage.Batch.{BatchOperation, put}

abbrev pub colon : ℕ
colon = b':'

-- `String::from_utf8_lossy(&length_bytes).parse::<u32>().unwrap_or(0)`
pub parse_length : Bytes → ℕ
parse_length length_bytes = elim (parse_u32 (from_utf8_lossy length_bytes)) [
  | none ↦ 0
  | some n ↦ n
]

-- `heights.sort()`
insert_ascending : ℕ → List ℕ → List ℕ
insert_ascending h [] = h ∷ []
insert_ascending h (x ∷ xs) = if leb h x then h ∷ x ∷ xs else x ∷ insert_ascending h xs

pub sort : List ℕ → List ℕ
unfolding insert_ascending
sort [] = []
sort (h ∷ hs) = insert_ascending h (sort hs)

-- `sort_by(|a, b| b.cmp(a))`
insert_descending : ℕ → List ℕ → List ℕ
insert_descending h [] = h ∷ []
insert_descending h (x ∷ xs) = if leb x h then h ∷ x ∷ xs else x ∷ insert_descending h xs

pub sort_descending : List ℕ → List ℕ
unfolding insert_descending
sort_descending [] = []
sort_descending (h ∷ hs) = insert_descending h (sort_descending hs)

pub at_most : ℕ → List ℕ → List ℕ
at_most bound [] = []
at_most bound (h ∷ hs) = if leb h bound then h ∷ at_most bound hs else at_most bound hs

-- The height that stands before the colon of an update, if the update has that form.
unfoldable pub update_height : Bytes → Option ℕ
update_height update_data = elim (split_at colon (from_utf8_lossy update_data)) [
  | none ↦ none
  | some p ↦ parse_u32 p.0
]

module _ ⦃hex : HexCodec⦄ where
  -- `format!("{}:{}", height, value_hex)`
  unfoldable pub update_value : ℕ → Bytes → Bytes
  update_value height value = to_string height ++ colon ∷ hex.encode value

module _ ⦃db : KeyValueStoreLike⦄ ⦃hex : HexCodec⦄ where
  -- The length that is stored under a key, zero if there is none.
  unfoldable pub stored_length : db.Store → Bytes → ℕ
  stored_length s key = elim (db.get_immutable s (length_key key)) [
    | none ↦ 0
    | some length_bytes ↦ parse_length length_bytes
  ]

  unfoldable pub put_to_batch :
      db.Store → List BatchOperation → Bytes → Bytes → ℕ → List BatchOperation
  put_to_batch s batch key value height =
      let current_length = stored_length s key in
      batch
      ++ put (update_key key current_length) (update_value height value)
        ∷ put (length_key key) (to_string ((current_length + 1) % u32_mod))
        ∷ []

  unfoldable pub put_batched :
      db.Store → List BatchOperation → Bytes → Bytes → ℕ → List BatchOperation
  put_batched s batch key value height = put_to_batch s batch key value height

  -- `SMTHelper::put`
  unfoldable pub put_value : db.Store → Bytes → Bytes → ℕ → db.Store
  put_value s key value height = db.write s (put_to_batch s [] key value height)

  -- What one round of the binary search learns from the update at `mid`: its value, if it stands
  -- at or before `height`.
  pub probe : db.Store → Bytes → ℕ → ℕ → Result (Option Bytes)
  probe s key height mid = elim (db.get_immutable s (update_key key mid)) [
    | none ↦ err (missing_update mid)
    | some update_data ↦ elim (split_at colon (from_utf8_lossy update_data)) [
      | none ↦ err invalid_format
      | some p ↦ elim (parse_u32 p.0) [
        | none ↦ err invalid_height
        | some update_height ↦
            if leb update_height height
            then (elim (hex.decode p.1) [ none ↦ err invalid_hex | some value ↦ ok (some value) ])
            else ok none
      ]
    ]
  ]

  -- `while left < right`: a round halves the range, so the length of the list bounds the rounds.
  pub search_loop : db.Store → Bytes → ℕ → ℕ → ℕ → ℕ → Option Bytes → Result (Option Bytes)
  search_loop s key height zero left right best_value = err out_of_rounds
  search_loop s key height (suc rounds) left right best_value =
      let mid = ((left + right) % u32_mod) / 2 in
      let round = probe s key height mid >>= λ found. elim found [
        | some value ↦ search_loop s key height rounds (mid + 1) right (some value)
        | none ↦ search_loop s key height rounds left mid best_value
      ] in
      if ltb left right then round else ok best_value

  unfoldable pub get_at_height : db.Store → Bytes → ℕ → Result (Option Bytes)
  get_at_height s key height = elim (db.get_immutable s (length_key key)) [
    | none ↦ ok none
    | some length_bytes ↦
        let length = parse_length length_bytes in
        if length == 0 then ok none else search_loop s key height (suc length) 0 length none
  ]

  -- The value hash is not used: values are looked up in the append-only store.
  unfoldable pub get_value_at_height : db.Store → Bytes → Bytes → ℕ → Result (Option Bytes)
  get_value_at_height s key value_hash height = get_at_height s key height

  unfoldable pub get_current : db.Store → Bytes → Result (Option Bytes)
  get_current s key = elim (db.get_immutable s (length_key key)) [
    | none ↦ ok none
    | some length_bytes ↦
        let length = parse_length length_bytes in
        if length == 0 then ok none else elim (db.get_immutable s (update_key key (length - 1))) [
          | none ↦ ok none
          | some update_data ↦ elim (split_at colon (from_utf8_lossy update_data)) [
            | none ↦ err invalid_format
            | some p ↦ elim (hex.decode p.1) [ none ↦ err invalid_hex | some v ↦ ok (some v) ]
          ]
        ]
  ]

  -- `for i in 0..length`: `i` and the rounds left.
  pub collect_heights : db.Store → Bytes → ℕ → ℕ → List ℕ
  collect_heights s key i zero = []
  collect_heights s key i (suc left) =
      let rest = collect_heights s key (i + 1) left in
      elim (db.get_immutable s (update_key key i)) [
        | none ↦ rest
        | some update_data ↦ elim (update_height update_data) [ none ↦ rest | some h ↦ h ∷ rest ]
      ]

  unfoldable pub get_heights_for_key : db.Store → Bytes → List ℕ
  get_heights_for_key s key = elim (db.get_immutable s (length_key key)) [
    | none ↦ []
    | some length_bytes ↦ sort (collect_heights s key 0 (parse_length length_bytes))
  ]

  pub values_at : db.Store → Bytes → List ℕ → Result (List (ℕ × Bytes))
  values_at s key [] = ok []
  values_at s key (h ∷ hs) = get_at_height s key h >>= λ found. values_at s key hs >>= λ rest.
      elim found [ some value ↦ ok ((h, value) ∷ rest) | none ↦ ok rest ]

  unfoldable pub iterate_backwards : db.Store → Bytes → ℕ → Result (List (ℕ × Bytes))
  iterate_backwards s key from_height =
      values_at s key (sort_descending (at_most from_height (get_heights_for_key s key)))
