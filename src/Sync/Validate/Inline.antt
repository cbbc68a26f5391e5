-- ===== src/Sync/Validate/Inline.antt =====
-- What the check without a policy lets through.
use metashrew.Prelude.{
  ℕ, zero, suc, ◌≡◌, ◌↔◌, refl, ap, ◌∙◌, ◌⊎◌, inl, inr, true, false, Option, none, some, Bytes,
  bytes_eq, bytes_eq_refl, bytes_eq→eq, if◌then◌else◌, arith, Bool-cases,
}
use mathlib.Core.List.{reverse}
use metashrew.Sync.Error.{SyncResult, ok, err}
use metashrew.Sync.Adapters.{StorageAdapter}
use metashrew.Sync.Validate.{
  decoded, Codec, links_to, check_parent, check_hash, check_block, validate_block_connects,
}

-- The header of a block and its bytes, as the crates give them.
pub record Reads (codec : Codec) (block_data : Bytes) : Type 0 where
  pub header : codec.Header
  pub header_bytes : Bytes
  pub deserialized : codec.deserialize block_data ≡ decoded header
  pub encoded : codec.consensus_encode header ≡ decoded header_bytes

module _ (st : StorageAdapter) (codec : Codec) where
  -- At height 0, where no parent is stored, or where the parent is the stored one.
  abbrev pub IsLinkedTo : st.Store → ℕ → Bytes → Type 0
  IsLinkedTo s zero prev = Unit
  IsLinkedTo s (suc below) prev =
      (st.get_block_hash s below ≡ ok none) ⊎ (st.get_block_hash s below ≡ ok (some prev))

  links_to_iff :
      (prev : Bytes) (stored : SyncResult (Option Bytes))
      → (links_to st prev stored ≡ ok true) ↔ ((stored ≡ ok none) ⊎ (stored ≡ ok (some prev)))
  unfolding links_to
  links_to_iff prev (err e) = (λ h. absurd (ground arith), λ h. ground arith)
  links_to_iff prev (ok none) = (λ h. inl refl, λ h. refl)
  links_to_iff prev (ok (some stored)) = (forth, back)
    where
      forth :
          ok (bytes_eq stored prev) ≡ ok true
          → (ok (some stored) ≡ ok none) ⊎ (ok (some stored) ≡ ok (some prev))
      forth h = inr (ap (λ v. ok (some v)) (bytes_eq→eq stored prev (ground arith)))

      back :
          (◌≡◌ {A = SyncResult (Option Bytes)} (ok (some stored)) (ok none))
            ⊎ (ok (some stored) ≡ ok (some prev))
          → ok (bytes_eq stored prev) ≡ ok true
      back (inl e) = ground arith
      back (inr e) = ap ok (ap (λ v. bytes_eq v prev) (same e) ∙ bytes_eq_refl prev)
        where
          same :
              ◌≡◌ {A = SyncResult (Option Bytes)} (ok (some stored)) (ok (some prev))
              → stored ≡ prev
          same q = cc

  check_parent_iff :
      (s : st.Store) (height : ℕ) (header : codec.Header)
      → (check_parent st codec s height header ≡ ok true)
        ↔ IsLinkedTo s height (reverse (codec.prev_blockhash header))
  unfolding check_parent
  check_parent_iff s zero header = (λ h. tt, λ h. refl)
  check_parent_iff s (suc below) header =
      links_to_iff (reverse (codec.prev_blockhash header)) (st.get_block_hash s below)

  -- The reversed double hash of the header.
  abbrev pub display_hash : Bytes → Bytes
  display_hash header_bytes = reverse (codec.sha256 (codec.sha256 header_bytes))

  check_hash_iff :
      (s : st.Store) (height : ℕ) (provided_hash header_bytes : Bytes) (header : codec.Header)
      → (check_hash st codec s height provided_hash header (decoded header_bytes) ≡ ok true) ↔ (
          (display_hash header_bytes ≡ provided_hash)
          × IsLinkedTo s height (reverse (codec.prev_blockhash header)))
  unfolding check_hash
  check_hash_iff s height provided_hash header_bytes header = (forth, back)
    where
      forth :
          check_hash st codec s height provided_hash header (decoded header_bytes) ≡ ok true
          → (display_hash header_bytes ≡ provided_hash)
            × IsLinkedTo s height (reverse (codec.prev_blockhash header))
      forth h = elim (Bool-cases (bytes_eq (display_hash header_bytes) provided_hash)) [
        | inl same ↦ (
          bytes_eq→eq (display_hash header_bytes) provided_hash same,
          (check_parent_iff s height header).0 (rw (check_hash, same) at h),
        )
        | inr other ↦ absurd (ground arith)
      ]

      back :
          (display_hash header_bytes ≡ provided_hash)
            × IsLinkedTo s height (reverse (codec.prev_blockhash header))
          → check_hash st codec s height provided_hash header (decoded header_bytes) ≡ ok true
      back (e, l) =
          ap (λ b. if b then check_parent st codec s height header else ok false)
            (ap (λ d. bytes_eq d provided_hash) e ∙ bytes_eq_refl provided_hash)
          ∙ (check_parent_iff s height header).1 l

  -- Where no policy is installed and the block decodes, the continuity check accepts it exactly if
  -- its header's double hash in display order is the provided hash, and the height is 0, or the
  -- store has no hash for the height before, or has the hash that the header names.
  pub validate_block_connects_iff :
      (s : st.Store) (height : ℕ) (block_data provided_hash : Bytes)
      (reads : Reads codec block_data)
      → (validate_block_connects st codec none s height block_data provided_hash ≡ ok true) ↔ (
          (display_hash reads.header_bytes ≡ provided_hash)
          × IsLinkedTo s height (reverse (codec.prev_blockhash reads.header)))
  unfolding validate_block_connects check_block
  validate_block_connects_iff s height block_data provided_hash reads =
      simp (reads.deserialized, reads.encoded)
        (check_hash_iff s height provided_hash reads.header_bytes reads.header)
