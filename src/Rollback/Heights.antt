-- ===== src/Rollback/Heights.antt =====
-- The heights are rolled back one by one, from the current one down.
use metashrew.Prelude.{
  ℕ, zero, suc, ◌+◌, ◌-◌, ◌≤◌, ◌<◌, ◌≡◌, ◌≢◌, ◌⊎◌, refl, sym, ◌∙◌, ap, true, false, some, List,
  ◌++◌, Bytes, All, inl, inr, arith, length, Bool-cases,
}
use metashrew.RustStd.Decimal.{u32_mod}
use metashrew.RustStd.Sort.{contains}
use metashrew.Keys.Layout.{manifest_key}
use metashrew.Keys.Layout.Distinct.{IsUserKey}
use metashrew.Error.{ok}
use metashrew.Storage.{KeyValueStoreLike, SmtRollback, HexCodec}
use metashrew.Append.History.{History, count_to, cut, cut-cut, cut_all, count_to-cut}
use metashrew.Append.Represents.{View, Clears, Clears-trans, Represents}
use metashrew.Manifest.{deserialize_key_manifest}
use metashrew.Rollback.{
  trim_keys, record_ops, manifests_exist, roll_heights, rollback_with_manifests,
}
use metashrew.Rollback.Keys.{Holds, trimmed}
use metashrew.Rollback.Records.{Holds-apply, Clears-apply, manifest-apply}

module _ ⦃db : KeyValueStoreLike⦄ ⦃rb : SmtRollback db⦄ ⦃hex : HexCodec⦄ where
  -- The heights above `t`, up to `t + n`, have manifests: those of `keys`.
  abbrev pub HasManifests : View → (ℕ → List Bytes) → ℕ → ℕ → Type 0
  HasManifests get keys t n =
      (h : ℕ)
      → t < h
      → h ≤ t + n
      → (m : Bytes) × (get (manifest_key h) ≡ some m)
        × (deserialize_key_manifest m ≡ keys h)
        × All IsUserKey (keys h)

-- The histories after the heights up to `t + n` are rolled back.
abbrev rolled : (ℕ → List Bytes) → ℕ → ℕ → (Bytes → History) → Bytes → History
rolled keys t zero hists = hists
rolled keys t (suc n) hists = rolled keys t n (trimmed (keys (t + suc n)) t hists)

-- Every key with an update above `t` is in a manifest.
abbrev pub Covered : (ℕ → List Bytes) → ℕ → ℕ → History → Bytes → Type 0
Covered keys t n hist k =
    (count_to hist t ≡ length hist)
    ⊎ ((h : ℕ) × (t < h) × (h ≤ t + n) × (contains (keys h) k ≡ true))

below_top :
    (keys : ℕ → List Bytes) (t n h : ℕ) (k : Bytes)
    → t < h
    → h ≤ t + suc n
    → contains (keys h) k ≡ true
    → contains (keys (t + suc n)) k ≡ false
    → h ≤ t + n
below_top keys t n h k above le listed unlisted =
    let ne : h ≢ t + suc n = λ e. cc (ap (λ i. contains (keys i) k) e) in omega arith

rolled-cut :
    (keys : ℕ → List Bytes) (t n : ℕ) (hists : Bytes → History) (k : Bytes)
    → Covered keys t n (hists k) k
    → rolled keys t n hists k ≡ cut t (hists k)
rolled-cut keys t zero hists k c = elim c [
  | inl whole ↦ sym (cut_all (hists k) t whole)
  | inr (h, above, le, listed) ↦ absurd (omega arith)
]
rolled-cut keys t (suc n) hists k c =
    let hists' = trimmed (keys (t + suc n)) t hists in
    elim (Bool-cases (contains (keys (t + suc n)) k)) [
      | inl e ↦
          let cut_now : hists' k ≡ cut t (hists k) = rw e in
          rolled-cut keys t n hists' k (inl (rw cut_now (count_to-cut (hists k) t)))
          ∙ ap (cut t) cut_now
          ∙ cut-cut (hists k) t
      | inr e ↦
          let kept : hists' k ≡ hists k = rw e in
          rolled-cut keys t n hists' k (
            rw kept (elim c [
              | inl whole ↦ inl whole
              | inr (h, above, le, listed) ↦
                  inr (h, above, below_top keys t n h k above le listed e, listed)
            ]))
          ∙ ap (cut t) kept
    ]

module _ ⦃db : KeyValueStoreLike⦄ ⦃rb : SmtRollback db⦄ ⦃hex : HexCodec⦄ where
  roll_heights_step :
      (s : db.Store) (t n : ℕ) (m : Bytes) (keys : List Bytes)
      → rb.get_value s (manifest_key (t + suc n)) ≡ some m
      → deserialize_key_manifest m ≡ keys
      → roll_heights s t (suc n)
        ≡ roll_heights (rb.apply_atomic s (trim_keys s t keys ++ record_ops (t + suc n))) t n
  unfolding roll_heights
  roll_heights_step s t n m keys stored listed = ground (arith, stored, listed)

  roll_heights_lem :
      (s : db.Store) (hists : Bytes → History) (keys : ℕ → List Bytes) (t n : ℕ)
      → t + n < u32_mod
      → Holds (rb.get_value s) hists
      → HasManifests (rb.get_value s) keys t n
      → (final : db.Store) × (roll_heights s t n ≡ ok final)
        × Holds (rb.get_value final) (rolled keys t n hists)
        × ((k : Bytes)
            → IsUserKey k
            → Clears
                (rb.get_value s)
                (rb.get_value final)
                k
                (length (rolled keys t n hists k))
                (length (hists k)))
  unfolding roll_heights
  roll_heights_lem s hists keys t zero small holds has = (
    s,
    refl,
    holds,
    λ k user i above fits gone. elim gone [ inl lt ↦ absurd (omega arith) | inr absent ↦ absent ],
  )
  roll_heights_lem s hists keys t (suc n) small holds has =
      let (m, stored, listed, users) = has (t + suc n) (omega arith) (omega arith) in
      let after = rb.apply_atomic s (trim_keys s t (keys (t + suc n)) ++ record_ops (t + suc n)) in
      let (final, done, kept, clears) =
        roll_heights_lem after (trimmed (keys (t + suc n)) t hists) keys t n (omega arith)
          (Holds-apply s hists t (t + suc n) (keys (t + suc n)) holds users)
          (λ h above le.
            let (mh, at_h, listed_h, users_h) = has h above (omega arith) in
            (
              mh,
              manifest-apply s hists t (t + suc n) h (keys (t + suc n)) holds users (omega arith)
                    (omega arith) (omega arith)
                  ∙ at_h,
              listed_h,
              users_h,
            )) in
      (
        final,
        roll_heights_step s t n m (keys (t + suc n)) stored listed ∙ done,
        kept,
        λ k user.
            Clears-trans (rb.get_value s) (rb.get_value after) (rb.get_value final) k _ _ _
              (Clears-apply s hists t (t + suc n) (keys (t + suc n)) k holds users user)
              (clears k user),
      )

  manifests_exist_lem :
      (s : db.Store) (keys : ℕ → List Bytes) (t n : ℕ) (h left : ℕ)
      → HasManifests (rb.get_value s) keys t n
      → t < h
      → h + left ≤ t + n + 1
      → manifests_exist s h left ≡ true
  unfolding manifests_exist
  manifests_exist_lem s keys t n h zero has above le = refl
  manifests_exist_lem s keys t n h (suc left) has above le =
      let (m, stored, listed, users) = has h above (omega arith) in
      ground
        (arith, stored, manifests_exist_lem s keys t n (h + 1) left has (omega arith) (omega arith))

  -- Let the current height be above the rollback height and fit a u32, let the store hold sorted
  -- histories of user keys, and let every height above the one and up to the other have a manifest
  -- of user keys. The fast rollback then succeeds, and leaves of a user key exactly the updates at
  -- or below the rollback height, if all its updates are such or a manifest in the range lists it:
  -- the store then holds that history, and no record is left of an update that it has lost, nor at
  -- any later index that had none.
  pub rollback_with_manifests-cut :
      (s : db.Store) (hists : Bytes → History) (keys : ℕ → List Bytes)
      (rollback_height current_height : ℕ) (k : Bytes)
      → rollback_height < current_height
      → current_height < u32_mod
      → Holds (rb.get_value s) hists
      → HasManifests (rb.get_value s) keys rollback_height (current_height - rollback_height)
      → IsUserKey k
      → Covered keys rollback_height (current_height - rollback_height) (hists k) k
      → (final : db.Store) × (rollback_with_manifests s rollback_height current_height
          ≡ ok (true, final))
        × Represents (rb.get_value final) k (cut rollback_height (hists k))
        × Clears
            (rb.get_value s)
            (rb.get_value final)
            k
            (length (cut rollback_height (hists k)))
            (length (hists k))
  unfolding rollback_with_manifests
  rollback_with_manifests-cut s hists keys t current k lt small holds has user covered =
      let n = current - t in
      let (final, done, kept, clears) = roll_heights_lem s hists keys t n (omega arith) holds has in
      let cut_down = rolled-cut keys t n hists k covered in
      (
        final,
        ground
            (arith, manifests_exist_lem s keys t n (t + 1) n has (omega arith) (omega arith), done),
        rw cut_down at (kept k user).0,
        rw cut_down at (clears k user),
      )
