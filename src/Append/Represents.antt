-- ===== src/Append/Represents.antt =====
-- When a backend holds a history under a key, and how one update is read back.
use metashrew.Prelude.{
  ℕ, ◌≤◌, ◌<◌, ◌≡◌, Bool-cases, ltb, ltb→lt, ltb→le, ◌⊎◌, ◌∙◌, Option, none, some, List, [], ◌∷◌,
  ◌++◌, Bytes, All, All-append, IsByte, IsAscii, inl, inr, Option-cases, ap, arith, length,
  get_elem?, get_elem?-lt_length, leb, if◌then◌else◌,
}
use metashrew.RustStd.Decimal.{
  u32_mod, to_string, parse_u32, parse_u32-lt, parse_u32-to_string, to_string-Lacks,
  to_string-IsAscii,
}
use metashrew.RustStd.Utf8.{from_utf8_lossy, from_utf8_lossy-ascii}
use metashrew.RustStd.Find.{split_at, split_at-append}
use metashrew.Keys.Layout.{length_key, update_key}
use metashrew.Error.{ok}
use metashrew.Storage.{KeyValueStoreLike, HexCodec}
use metashrew.Storage.Batch.{BatchOperation, replay}
use metashrew.Append.{colon, parse_length, stored_length, update_height, update_value, probe}
use metashrew.Append.History.{History}

-- The update fits its encoding: a u32 height, and a value of bytes.
abbrev pub Fits : ℕ × Bytes → Type 0
Fits e = (e.0 < u32_mod) × All IsByte e.1

pub parse_length-to_string : (n : ℕ) → n < u32_mod → parse_length (to_string n) ≡ n
unfolding parse_length
parse_length-to_string n h =
    ground
      (arith, from_utf8_lossy-ascii (to_string n) (to_string-IsAscii n), parse_u32-to_string n h)

parse_length-lt : (text : Bytes) → parse_length text < u32_mod
unfolding parse_length
parse_length-lt text = elim (Option-cases (parse_u32 (from_utf8_lossy text))) [
  | inl e ↦ ground (arith, e)
  | inr (n, e) ↦ ground (arith, e, parse_u32-lt (from_utf8_lossy text) n e)
]

-- What a backend answers to reads: `db.get_immutable s`, or that behind a batch still unwritten.
abbrev pub View : Type 0
View = Bytes → Option Bytes

-- The view behind a batch.
abbrev pub behind : List BatchOperation → View → View
behind ops get k = replay ops k (get k)

-- What took one view to the other deleted the updates of `key` from the index `new` up to the index
-- `old`, and wrote none from `new` on: an index that had no record has none.
abbrev pub Clears : View → View → Bytes → ℕ → ℕ → Type 0
Clears before after key new old =
    (i : ℕ)
    → new ≤ i
    → i < u32_mod
    → (i < old) ⊎ (before (update_key key i) ≡ none)
    → after (update_key key i) ≡ none

pub Clears-trans :
    (before between after : View) (key : Bytes) (new mid old : ℕ)
    → Clears before between key mid old
    → Clears between after key new mid
    → Clears before after key new old
Clears-trans before between after key new mid old first second i above small gone =
    elim (Bool-cases (ltb i mid)) [
      | inl e ↦ second i above small (inl (ltb→lt i mid e))
      | inr e ↦ second i above small (inr (first i (ltb→le i mid e) small gone))
    ]

module _ ⦃hex : HexCodec⦄ where
  -- The length under `key` is that of `history`, and the records of the indices below it are its
  -- updates, oldest first. A key with no update may have a length of zero, which a rollback leaves.
  -- Nothing is said of records past the length, which no read reaches; `Clears` speaks of those.
  pub record Represents (get : View) (key : Bytes) (history : History) : Type 0 where
    pub stored :
        (get (length_key key) ≡ some (to_string (length history)))
        ⊎ ((history ≡ []) × (get (length_key key) ≡ none))
    pub entries :
        (i h : ℕ) (v : Bytes)
        → get_elem? history i ≡ some (h, v)
        → get (update_key key i) ≡ some (update_value h v)
    pub fits : All Fits history
    pub short : length history < u32_mod

  pub split_at-update_value :
      (h : ℕ) (v : Bytes)
      → All IsByte v
      → split_at colon (from_utf8_lossy (update_value h v)) ≡ some (to_string h, hex.encode v)
  unfolding update_value
  split_at-update_value h v bytes =
      rw
        (from_utf8_lossy-ascii (to_string h ++ colon ∷ hex.encode v) (
          All-append IsAscii (to_string h) (colon ∷ hex.encode v) (to_string-IsAscii h)
            ((omega arith, hex.encode-IsAscii v bytes))))
        (split_at-append colon (to_string h) (hex.encode v)
          (to_string-Lacks colon h (inr (omega arith))))

  pub update_height-update_value :
      (h : ℕ) (v : Bytes) → Fits (h, v) → update_height (update_value h v) ≡ some h
  unfolding update_height
  update_height-update_value h v (fits, bytes) =
      ground (arith, split_at-update_value h v bytes, parse_u32-to_string h fits)

  -- Only the records of its own keys matter to what a backend holds under a key.
  pub Represents-agree :
      (get later : View) (key : Bytes) (hist : History)
      → later (length_key key) ≡ get (length_key key)
      → ((i : ℕ) → i < length hist → later (update_key key i) ≡ get (update_key key i))
      → Represents get key hist
      → Represents later key hist
  Represents-agree get later key hist same_length same_updates r = record {
    stored = elim r.stored [
      | inl e ↦ inl (same_length ∙ e)
      | inr (e, absent) ↦ inr (e, same_length ∙ absent)
    ];
    entries = λ i h v found.
        same_updates i (get_elem?-lt_length hist i (h, v) found) ∙ r.entries i h v found;
    fits = r.fits;
    short = r.short;
  }

module _ ⦃db : KeyValueStoreLike⦄ ⦃hex : HexCodec⦄ where
  pub probe_lem :
      (s : db.Store) (key : Bytes) (t i h : ℕ) (v : Bytes)
      → db.get_immutable s (update_key key i) ≡ some (update_value h v)
      → Fits (h, v)
      → probe s key t i ≡ ok (if leb h t then some v else none)
  unfolding probe
  probe_lem s key t i h v found (fits, bytes) = ground (
    arith,
    found,
    split_at-update_value h v bytes,
    parse_u32-to_string h fits,
    hex.decode-encode v bytes,
  )

  pub stored_length-Represents :
      (s : db.Store) (key : Bytes) (hist : History)
      → Represents (db.get_immutable s) key hist
      → stored_length s key ≡ length hist
  unfolding stored_length
  stored_length-Represents s key hist r = elim r.stored [
    | inl e ↦ ground (arith, e, parse_length-to_string (length hist) r.short)
    | inr (e, absent) ↦ ground (arith, absent, ap length e)
  ]

  pub stored_length-lt : (s : db.Store) (key : Bytes) → stored_length s key < u32_mod
  unfolding stored_length
  stored_length-lt s key = elim (Option-cases (db.get_immutable s (length_key key))) [
    | inl e ↦ ground (arith, e)
    | inr (text, e) ↦ ground (arith, e, parse_length-lt text)
  ]
