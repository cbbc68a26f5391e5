-- ===== src/Append/Reads.antt =====
-- What the reads of a key return before and after `put`.
use metashrew.Prelude.{
  ℕ, zero, suc, ◌+◌, ◌^◌, ◌≤◌, ◌≡◌, ◌≢◌, refl, sym, ◌∙◌, none, some, [], ◌∷◌, ◌++◌, Bytes, All,
  All-append, All-get_elem?, inl, inr, ap, arith, length, length-append, get_elem?-some, leb,
  if◌then◌else◌,
}
use metashrew.RustStd.Decimal.{to_string}
use metashrew.Keys.Layout.{length_key}
use metashrew.Error.{ok}
use metashrew.Storage.{KeyValueStoreLike, HexCodec}
use metashrew.Append.{put_value, get_at_height, get_current}
use metashrew.Append.History.{History, IsSorted, lookup_at, value_before}
use metashrew.Append.Represents.{Represents, Fits, parse_length-to_string, split_at-update_value}
use metashrew.Append.Search.{get_at_height-lookup_at}
use metashrew.Append.Put.{put_value-append, put_value_ne}

pub IsSorted-append :
    (hist : History) (h : ℕ) (v : Bytes)
    → IsSorted hist
    → All (λ e. e.0 ≤ h) hist
    → IsSorted (hist ++ (h, v) ∷ [])
IsSorted-append [] h v sorted top = (tt, tt)
IsSorted-append ((g, w) ∷ r) h v (above, sorted) (le, top) =
    (All-append (λ e. g ≤ e.0) r ((h, v) ∷ []) above ((le, tt)), IsSorted-append r h v sorted top)

pub lookup_at-append :
    (hist : History) (h : ℕ) (v : Bytes) (t : ℕ)
    → lookup_at (hist ++ (h, v) ∷ []) t ≡ (if leb h t then some v else lookup_at hist t)
lookup_at-append [] h v t = refl
lookup_at-append ((g, w) ∷ r) h v t = ground (arith, lookup_at-append r h v t)

module _ ⦃db : KeyValueStoreLike⦄ ⦃hex : HexCodec⦄ where
  -- After `put` at a height that no earlier update of the key exceeds, a read at or above that
  -- height returns the new value, and a read below it returns what it returned before. The history
  -- before is sorted, has less than 2^31 updates, and the new update fits its encoding.
  pub get_at_height-put_value :
      (s : db.Store) (key : Bytes) (hist : History) (h : ℕ) (v : Bytes) (t : ℕ)
      → Represents (db.get_immutable s) key hist
      → IsSorted hist
      → All (λ e. e.0 ≤ h) hist
      → Fits (h, v)
      → length hist + 1 ≤ 2 ^ 31
      → get_at_height (put_value s key v h) key t
        ≡ (if leb h t then ok (some v) else get_at_height s key t)
  get_at_height-put_value s key hist h v t r sorted top fit room = ground (
    arith,
    get_at_height-lookup_at s key hist t r sorted (omega arith),
    get_at_height-lookup_at (put_value s key v h) key (hist ++ (h, v) ∷ []) t
        (put_value-append s key hist h v r fit (omega arith)) (IsSorted-append hist h v sorted top)
        (omega (arith, length-append hist ((h, v) ∷ []))),
    lookup_at-append hist h v t,
  )

  -- `put` under one key changes no read of another key at any height, if the store holds a history
  -- under each, and that of the other key is sorted and has at most 2^31 updates.
  pub get_at_height-put_value_ne :
      (s : db.Store) (key j : Bytes) (past hist : History) (h : ℕ) (v : Bytes) (t : ℕ)
      → j ≢ key
      → Represents (db.get_immutable s) key past
      → Represents (db.get_immutable s) j hist
      → IsSorted hist
      → length hist ≤ 2 ^ 31
      → get_at_height (put_value s key v h) j t ≡ get_at_height s j t
  get_at_height-put_value_ne s key j past hist h v t ne r other sorted room =
      get_at_height-lookup_at (put_value s key v h) j hist t
        (put_value_ne s key j past hist h v ne r other) sorted room
      ∙ sym (get_at_height-lookup_at s j hist t other sorted room)

  get_current_stored :
      (s : db.Store) (key : Bytes) (hist : History) (n : ℕ)
      → n ≡ length hist
      → Represents (db.get_immutable s) key hist
      → db.get_immutable s (length_key key) ≡ some (to_string n)
      → get_current s key ≡ ok (value_before hist n)
  unfolding get_current
  get_current_stored s key hist zero len r e =
      ground (arith, e, parse_length-to_string 0 (omega arith))
  get_current_stored s key hist (suc i) len r e =
      let ((h, v), found) = get_elem?-some hist i (omega arith) in
      let bytes = All-get_elem? Fits hist i (h, v) r.fits found in
      ground (
        arith,
        e,
        parse_length-to_string (suc i) (omega (arith, r.short)),
        r.entries i h v found,
        found,
        split_at-update_value h v bytes.1,
        hex.decode-encode v bytes.1,
      )

  get_current_absent :
      (s : db.Store) (key : Bytes) (hist : History)
      → hist ≡ []
      → db.get_immutable s (length_key key) ≡ none
      → get_current s key ≡ ok (value_before hist (length hist))
  unfolding get_current
  get_current_absent s key hist e absent =
      ground (arith, absent, ap (λ (l : History). value_before l (length l)) e)

  -- `get_current` returns without an error the value that was put last under a key, whatever the
  -- heights, and none if the key has no update.
  pub get_current-value_before :
      (s : db.Store) (key : Bytes) (hist : History)
      → Represents (db.get_immutable s) key hist
      → get_current s key ≡ ok (value_before hist (length hist))
  get_current-value_before s key hist r = elim r.stored [
    | inl e ↦ get_current_stored s key hist (length hist) refl r e
    | inr (e, absent) ↦ get_current_absent s key hist e absent
  ]
