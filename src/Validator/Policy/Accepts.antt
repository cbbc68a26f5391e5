-- ===== src/Validator/Policy/Accepts.antt =====
-- What a policy accepts.
use metashrew.Prelude.{
  ℕ, ◌≤◌, ◌<◌, ◌≡◌, ◌↔◌, refl, sym, ap, ◌∙◌, ◌⊎◌, inl, inr, true, false, Option, none, some, Bytes,
  length, take, drop, bytes_eq, bytes_eq_refl, bytes_eq→eq, ltb, ◌==◌, arith, Bool-cases, ltb→lt,
  ltb→le, le→ltb,
}
use mathlib.Core.List.{reverse}
use metashrew.RustStd.Words.{from_le_bytes}
use metashrew.Storage.{HexCodec}
use metashrew.Tree.{Sha256}
use metashrew.Validator.Wire.{ValidationRequest}
use metashrew.Validator.Target.{meets_target}
use metashrew.Validator.Policy.{
  bits_of, prev_hash_of, Checked, passed, failed, block_hash, check_stored, check_link,
  check_continuity, verdict_of, continuity_validate, check_work, anchored, check_anchor,
  bitcoin_validate,
}

-- The header names the stored hash of the block before, which there is above height 0.
abbrev pub IsLinked : ValidationRequest → Type 0
IsLinked req = (req.height ≡ 0) ⊎ (req.prev_hash ≡ some (reverse (take 32 (drop 4 req.header))))

module _ ⦃sha : Sha256⦄ ⦃hex : HexCodec⦄ where
  -- The header is whole, hashes to the claimed hash, and is linked.
  abbrev pub IsContinuous : ValidationRequest → Type 0
  IsContinuous req =
      (80 ≤ length req.header)
      × ((block_hash (take 80 req.header) ≡ req.claimed_hash) × IsLinked req)

  linked-passed :
      (req : ValidationRequest) (h : Bytes)
      → 80 ≤ length req.header
      → IsLinked req
      → 0 < req.height
      → check_link req.height h (prev_hash_of req.header) req.prev_hash ≡ passed h
  unfolding check_link check_stored prev_hash_of
  linked-passed req h whole (inl z) up = absurd (omega arith)
  linked-passed req h whole (inr e) up =
      rw
        (
          le→ltb (length req.header) 80 whole,
          e,
          bytes_eq_refl (reverse (take 32 (drop 4 req.header))),
        )
        refl

  check_continuity-passed :
      (req : ValidationRequest) → IsContinuous req → check_continuity req ≡ passed req.claimed_hash
  unfolding check_continuity
  check_continuity-passed req (whole, (hashed, linked)) =
      rw (le→ltb (length req.header) 80 whole, hashed, bytes_eq_refl req.claimed_hash)
        (elim (Bool-cases (ltb 0 req.height)) [
          | inl up ↦
              rw (up) (linked-passed req req.claimed_hash whole linked (ltb→lt 0 req.height up))
          | inr z ↦ rw (z) refl
        ])

  stored-linked :
      (height : ℕ) (h g parent : Bytes) (stored : Option Bytes)
      → check_stored height h parent stored ≡ passed g
      → (stored ≡ some parent) × (g ≡ h)
  unfolding check_stored
  stored-linked height h g parent none e = absurd (ground arith)
  stored-linked height h g parent (some s) e = elim (Bool-cases (bytes_eq parent s)) [
    | inl q ↦ (ap some (sym (bytes_eq→eq parent s q)), ground arith)
    | inr q ↦ absurd (ground arith)
  ]

  passed-linked :
      (req : ValidationRequest) (h g : Bytes)
      → 80 ≤ length req.header
      → check_link req.height h (prev_hash_of req.header) req.prev_hash ≡ passed g
      → (req.prev_hash ≡ some (reverse (take 32 (drop 4 req.header)))) × (g ≡ h)
  unfolding check_link prev_hash_of
  passed-linked req h g whole e =
      stored-linked req.height h g (reverse (take 32 (drop 4 req.header))) req.prev_hash
        (rw (check_link, prev_hash_of, le→ltb (length req.header) 80 whole) at e)

  passed-IsContinuous :
      (req : ValidationRequest) (g : Bytes)
      → check_continuity req ≡ passed g
      → IsContinuous req × (g ≡ req.claimed_hash)
  unfolding check_continuity
  passed-IsContinuous req g e = elim (Bool-cases (ltb (length req.header) 80)) [
    | inl short ↦ absurd (ground arith)
    | inr whole ↦ elim (Bool-cases (bytes_eq (block_hash (take 80 req.header)) req.claimed_hash)) [
      | inl same ↦
          let hashed = bytes_eq→eq (block_hash (take 80 req.header)) req.claimed_hash same in
          let long : 80 ≤ length req.header = ltb→le (length req.header) 80 whole in
          elim (Bool-cases (ltb 0 req.height)) [
            | inl up ↦
                let linked =
                  passed-linked req (block_hash (take 80 req.header)) g long
                    (rw (whole, same, up) at e) in
                ((long, (hashed, inr linked.0)), linked.1 ∙ hashed)
            | inr z ↦ (
              (long, (hashed, inl (ground (arith, ltb→le 0 req.height)))),
              at_ground whole same z hashed,
            )
          ]
      | inr other ↦ absurd (ground arith)
    ]
  ]
    where
      at_ground :
          ltb (length req.header) 80 ≡ false
          → bytes_eq (block_hash (take 80 req.header)) req.claimed_hash ≡ true
          → ltb 0 req.height ≡ false
          → block_hash (take 80 req.header) ≡ req.claimed_hash
          → g ≡ req.claimed_hash
      at_ground whole same z hashed = ground arith

  accepted-passed : (c : Checked) → (verdict_of c).accepted ≡ true → (g : Bytes) × (c ≡ passed g)
  unfolding verdict_of
  accepted-passed (passed g) e = (g, refl)
  accepted-passed (failed reason) e = absurd (ground arith)

  pub continuity_validate-accepts :
      (req : ValidationRequest) → ((continuity_validate req).accepted ≡ true) ↔ IsContinuous req
  unfolding continuity_validate verdict_of
  continuity_validate-accepts req = (
    λ a. let (g, e) = accepted-passed (check_continuity req) a in (passed-IsContinuous req g e).0,
    λ c. rw (check_continuity-passed req c) refl,
  )

module _ ⦃sha : Sha256⦄ ⦃hex : HexCodec⦄ (network_name genesis : Bytes) (hex_bits : ℕ → Bytes) where
  -- Block 0 is the genesis block.
  abbrev pub IsAnchored : ValidationRequest → Type 0
  IsAnchored req = (0 < req.height) ⊎ (req.claimed_hash ≡ genesis)

  abbrev pub stated_bits : ValidationRequest → ℕ
  stated_bits req = from_le_bytes (take 4 (drop 72 req.header))

  anchored-IsAnchored :
      (req : ValidationRequest)
      → anchored network_name genesis hex_bits req req.claimed_hash ≡ true
      → IsAnchored req
  unfolding anchored
  anchored-IsAnchored req e = elim (Bool-cases (req.height == 0)) [
    | inl z ↦ inr (bytes_eq→eq req.claimed_hash genesis (rw (anchored, z) at e))
    | inr n ↦ inl (ground arith)
  ]

  IsAnchored-anchored :
      (req : ValidationRequest)
      → IsAnchored req
      → anchored network_name genesis hex_bits req req.claimed_hash ≡ true
  unfolding anchored
  IsAnchored-anchored req (inl up) = ground arith
  IsAnchored-anchored req (inr e) =
      ground (arith, ap (λ h. bytes_eq h genesis) e, bytes_eq_refl genesis)

  bits_of-whole :
      (req : ValidationRequest)
      → 80 ≤ length req.header
      → bits_of req.header ≡ some (stated_bits req)
  unfolding bits_of
  bits_of-whole req whole = rw (le→ltb (length req.header) 80 whole) refl

  check_work-accepts :
      (height bits : ℕ) (hash : Bytes)
      → ((check_work network_name genesis hex_bits height hash (some bits)).accepted ≡ true)
        ↔ (meets_target hash bits ≡ true)
  unfolding check_work
  check_work-accepts height bits hash = (λ a. ground arith, λ m. ground arith)

  anchor-accepts :
      (req : ValidationRequest)
      → 80 ≤ length req.header
      → ((check_anchor network_name genesis hex_bits req (passed req.claimed_hash)).accepted ≡ true)
        ↔ (IsAnchored req × (meets_target req.claimed_hash (stated_bits req) ≡ true))
  unfolding check_anchor
  anchor-accepts req whole =
      elim (Bool-cases (anchored network_name genesis hex_bits req req.claimed_hash)) [
        | inl a ↦
            rw (a, bits_of-whole req whole)
              (
                (λ e. (
                  anchored-IsAnchored req a,
                  (check_work-accepts req.height (stated_bits req) req.claimed_hash).0 e,
                )),
                (λ (h : IsAnchored req × (meets_target req.claimed_hash (stated_bits req) ≡ true)).
                    (check_work-accepts req.height (stated_bits req) req.claimed_hash).1 h.1),
              )
        | inr b ↦ rw (b) (
          (λ e. absurd (ground arith)),
          (λ (h : IsAnchored req × (meets_target req.claimed_hash (stated_bits req) ≡ true)).
              absurd (ground (arith, IsAnchored-anchored req h.0))),
        )
      ]

  passed-only :
      (req : ValidationRequest) (c : Checked)
      → (check_anchor network_name genesis hex_bits req c).accepted ≡ true
      → (g : Bytes) × (c ≡ passed g)
  unfolding check_anchor
  passed-only req (passed g) e = (g, refl)
  passed-only req (failed reason) e = absurd (ground arith)

  -- The validator of a bitcoin network accepts a request exactly if the header has at least 80
  -- bytes, its first 80 hash to the claimed hash, it names the stored hash of the block before or
  -- the height is 0, the claimed hash is the genesis hash or the height is above 0, and the claimed
  -- hash meets the target of the header's bits.
  pub bitcoin_validate-accepts :
      (req : ValidationRequest)
      → ((bitcoin_validate network_name genesis hex_bits req).accepted ≡ true) ↔ (
          IsContinuous req
          × (IsAnchored req × (meets_target req.claimed_hash (stated_bits req) ≡ true)))
  unfolding bitcoin_validate
  bitcoin_validate-accepts req = (forth, back)
    where
      forth :
          (bitcoin_validate network_name genesis hex_bits req).accepted ≡ true
          → IsContinuous req
            × (IsAnchored req × (meets_target req.claimed_hash (stated_bits req) ≡ true))
      forth a =
          let (g, e) = passed-only req (check_continuity req) a in
          let known = passed-IsContinuous req g e in
          (
            known.0,
            (anchor-accepts req known.0.0).0 (rw (check_continuity-passed req known.0) at a),
          )

      back :
          IsContinuous req
            × (IsAnchored req × (meets_target req.claimed_hash (stated_bits req) ≡ true))
          → (bitcoin_validate network_name genesis hex_bits req).accepted ≡ true
      back (c, h) = rw (check_continuity-passed req c) ((anchor-accepts req c.0).1 h)
