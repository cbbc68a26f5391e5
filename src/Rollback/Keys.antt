-- ===== src/Rollback/Keys.antt =====
-- The keys of one manifest are trimmed together.
use metashrew.Prelude.{
  ℕ, ◌≤◌, ◌<◌, Option, none, ap, ◌≡◌, ◌⊎◌, refl, sym, ◌∙◌, Bool, true, false, List, [], ◌∷◌, ◌++◌,
  Bytes, All, inl, inr, arith, length, get_elem?-lt_length, ltb, ltb→lt, ltb→le, bytes_eq-cases,
  bytes_eq_iff, ne→bytes_eq, Bool-cases, if◌then◌else◌,
}
use metashrew.RustStd.Decimal.{u32_mod}
use metashrew.RustStd.Sort.{contains}
use metashrew.Keys.Layout.{length_key, update_key}
use metashrew.Keys.Layout.Distinct.{IsUserKey}
use metashrew.Storage.{KeyValueStoreLike, SmtRollback, HexCodec}
use metashrew.Storage.Batch.{BatchOperation, replay, replay-append}
use metashrew.Append.History.{
  History, IsSorted, count_to, count_to-le-length, cut, length-cut, get_elem?-cut, cut_all, All-cut,
  IsSorted-cut,
}
use metashrew.Append.Represents.{View, behind, Clears, Represents, Represents-agree, Fits}
use metashrew.Rollback.{trim_keys}
use metashrew.Rollback.TrimOps.{trim_ops, trim_ops_none, trim_ops-none, trim_ops-gone}
use metashrew.Rollback.Trim.{trim_key_lem, Readable, Represents-trim_ops, Represents-trim_ops_ne}

module _ ⦃hex : HexCodec⦄ where
  pub Represents-behind_append :
      (get : View) (xs ys : List BatchOperation) (key : Bytes) (hist : History)
      → Represents (behind ys (behind xs get)) key hist
      → Represents (behind (xs ++ ys) get) key hist
  Represents-behind_append get xs ys key hist r =
      Represents-agree _ (behind (xs ++ ys) get) key hist
        (replay-append xs ys (length_key key) (get (length_key key)))
        (λ i _. replay-append xs ys (update_key key i) (get (update_key key i))) r

  -- The histories of all user keys.
  abbrev pub Holds : View → (Bytes → History) → Type 0
  Holds get hists = (k : Bytes) → IsUserKey k → Represents get k (hists k) × IsSorted (hists k)

  Readable-cut :
      (get : View) (key : Bytes) (hist : History) (t : ℕ)
      → Represents get key hist
      → Readable get key (cut t hist)
  Readable-cut get key hist t r i h v found =
      let below : i < count_to hist t =
        omega (arith, get_elem?-lt_length (cut t hist) i (h, v) found, length-cut hist t) in
      r.entries i h v (sym (get_elem?-cut hist t i below) ∙ found)

  trim_ops_self :
      (get : View) (key : Bytes) (hist past : History) (t : ℕ)
      → (past ≡ hist) ⊎ (past ≡ cut t hist)
      → length hist < u32_mod
      → All Fits hist
      → Represents get key past
      → Represents (behind (trim_ops key (count_to hist t) (length hist)) get) key (cut t hist)
  unfolding replay
  trim_ops_self get key hist past t which small fits r =
      elim (Bool-cases (ltb (count_to hist t) (length hist))) [
        | inl e ↦ rw (← length-cut hist t) (
            Represents-trim_ops get key (cut t hist) (length hist)
              (rw (length-cut hist t) (ltb→lt _ _ e)) small (All-cut Fits hist t fits)
              (elim which [
                | inl same ↦ Readable-cut get key hist t (rw same at r)
                | inr same ↦ (rw same at r).entries
              ]))
        | inr e ↦
            let whole : count_to hist t ≡ length hist =
              omega (arith, ltb→le _ _ e, count_to-le-length hist t) in
            let kept : past ≡ cut t hist = elim which [
              | inl same ↦ same ∙ sym (cut_all hist t whole)
              | inr same ↦ same
            ] in
            rw (whole, trim_ops_none) (rw kept at r)
      ]

-- What the keys of a manifest leave of the histories.
abbrev pub trimmed : List Bytes → ℕ → (Bytes → History) → Bytes → History
trimmed keys t hists k = if contains keys k then cut t (hists k) else hists k

if_same {ℓ} : {A : Type ℓ} (b : Bool) (a : A) → (if b then a else a) ≡ a
if_same true a = refl
if_same false a = refl

module _ ⦃db : KeyValueStoreLike⦄ ⦃rb : SmtRollback db⦄ ⦃hex : HexCodec⦄ where
  trim_keys-Represents :
      (s : db.Store) (hists : Bytes → History) (t : ℕ) (keys : List Bytes) (get : View) (k : Bytes)
      (past : History)
      → Holds (rb.get_value s) hists
      → All IsUserKey keys
      → IsUserKey k
      → (past ≡ hists k) ⊎ (past ≡ cut t (hists k))
      → Represents get k past
      → Represents
          (behind (trim_keys s t keys) get)
          k
          (if contains keys k then cut t (hists k) else past)
  unfolding trim_keys replay
  trim_keys-Represents s hists t [] get k past holds users user which r = r
  trim_keys-Represents s hists t (x ∷ keys) get k past holds (ux, users) user which r =
      let (rx, sorted) = holds x ux in
      let ops = trim_ops x (count_to (hists x) t) (length (hists x)) in
      rw (trim_key_lem s x (hists x) t rx sorted) (
        Represents-behind_append get ops (trim_keys s t keys) k _ (elim (bytes_eq-cases x k) [
          | inl e ↦ rw ((bytes_eq_iff x k).1 e) (
              rw (if_same (contains keys k) (cut t (hists k))) at (
                trim_keys-Represents s hists t keys (behind ops get) k (cut t (hists k)) holds users
                  user (inr refl)
                  (rw e (
                    trim_ops_self get k (hists k) past t which (holds k user).0.short
                      (holds k user).0.fits r))))
          | inr ne ↦ rw (ne→bytes_eq x k ne) (
              trim_keys-Represents s hists t keys (behind ops get) k past holds users user which
                (Represents-trim_ops_ne get x k past _ _ (λ e. ne (sym e)) rx.short r))
        ]))

  -- The histories behind the batch of a manifest's keys.
  pub trim_keys-Holds :
      (s : db.Store) (hists : Bytes → History) (t : ℕ) (keys : List Bytes)
      → Holds (rb.get_value s) hists
      → All IsUserKey keys
      → Holds (behind (trim_keys s t keys) (rb.get_value s)) (trimmed keys t hists)
  trim_keys-Holds s hists t keys holds users k user =
      let (r, sorted) = holds k user in
      (
        trim_keys-Represents s hists t keys _ k (hists k) holds users user (inl refl) r,
        elim (Bool-cases (contains keys k)) [
          | inl e ↦ rw e (IsSorted-cut (hists k) t sorted)
          | inr e ↦ rw e sorted
        ],
      )

  -- The batch of a manifest's keys gives no update back, and deletes what the keys lose.
  trim_keys-none :
      (s : db.Store) (hists : Bytes → History) (t : ℕ) (keys : List Bytes) (k : Bytes) (i : ℕ)
      → Holds (rb.get_value s) hists
      → All IsUserKey keys
      → replay (trim_keys s t keys) (update_key k i) none ≡ none
  unfolding trim_keys replay
  trim_keys-none s hists t [] k i holds users = refl
  trim_keys-none s hists t (x ∷ keys) k i holds (ux, users) =
      let (rx, sorted) = holds x ux in
      let ops = trim_ops x (count_to (hists x) t) (length (hists x)) in
      rw (trim_key_lem s x (hists x) t rx sorted) (
        replay-append ops (trim_keys s t keys) (update_key k i) none
        ∙ ap (replay (trim_keys s t keys) (update_key k i)) (trim_ops-none x k _ _ i)
        ∙ trim_keys-none s hists t keys k i holds users)

  trim_keys-gone :
      (s : db.Store) (hists : Bytes → History) (t : ℕ) (keys : List Bytes) (k : Bytes) (i : ℕ)
      (old : Option Bytes)
      → Holds (rb.get_value s) hists
      → All IsUserKey keys
      → contains keys k ≡ true
      → count_to (hists k) t ≤ i
      → i < length (hists k)
      → replay (trim_keys s t keys) (update_key k i) old ≡ none
  unfolding trim_keys replay
  trim_keys-gone s hists t [] k i old holds users listed above lt = absurd cc
  trim_keys-gone s hists t (x ∷ keys) k i old holds (ux, users) listed above lt =
      let (rx, sorted) = holds x ux in
      let ops = trim_ops x (count_to (hists x) t) (length (hists x)) in
      rw (trim_key_lem s x (hists x) t rx sorted) (
        replay-append ops (trim_keys s t keys) (update_key k i) old ∙ elim (bytes_eq-cases x k) [
          | inl e ↦
              ap (replay (trim_keys s t keys) (update_key k i))
                (rw e (trim_ops-gone k (count_to (hists k) t) (length (hists k)) i old above lt))
              ∙ trim_keys-none s hists t keys k i holds users
          | inr ne ↦
              trim_keys-gone s hists t keys k i _ holds users (rw (ne→bytes_eq x k ne) at listed)
                above lt
        ])

  pub trim_keys-Clears :
      (s : db.Store) (hists : Bytes → History) (t : ℕ) (keys : List Bytes) (k : Bytes)
      → Holds (rb.get_value s) hists
      → All IsUserKey keys
      → Clears
          (rb.get_value s)
          (behind (trim_keys s t keys) (rb.get_value s))
          k
          (length (trimmed keys t hists k))
          (length (hists k))
  trim_keys-Clears s hists t keys k holds users i above small (inr absent) =
      ap (replay (trim_keys s t keys) (update_key k i)) absent
      ∙ trim_keys-none s hists t keys k i holds users
  trim_keys-Clears s hists t keys k holds users i above small (inl lt) =
      elim (Bool-cases (contains keys k)) [
        | inl e ↦
            trim_keys-gone s hists t keys k i _ holds users e
              (omega (arith, length-cut (hists k) t, rw e at above)) lt
        | inr e ↦ absurd (omega (arith, rw e at above))
      ]
