-- ===== src/Validator/Wire/Trip.antt =====
-- What is encoded is decoded again.
use metashrew.Prelude.{
  ℕ, ◌%◌, ◌<◌, ◌≡◌, refl, sym, ap, ◌∙◌, Bool, true, false, Option, none, some, [], ◌∷◌, ◌++◌,
  append-nil, Bytes, All, IsAscii, length, length-append, take-append, drop-append, leb, le→leb,
  ◌==◌, arith,
}
use metashrew.RustStd.Decimal.{u32_mod}
use metashrew.RustStd.Words.{
  to_le_bytes, from_le_bytes, from_le_bytes-to_le_bytes, length-to_le_bytes,
}
use metashrew.RustStd.Utf8.{from_utf8_lossy-ascii}
use metashrew.Validator.Wire.{
  wire_version, ValidationRequest, Verdict, flag_of, bytes_of, encode_request, take_bytes,
  decode_prev, decode_request, accepted_byte, encode_verdict, decode_reason, decode_verdict,
}

pub take_bytes-append :
    (n : ℕ) (xs ys : Bytes) → n ≡ length xs → take_bytes n (xs ++ ys) ≡ some (xs, ys)
unfolding take_bytes
take_bytes-append n xs ys e =
    rw
      (
        le→leb n (length (xs ++ ys)) (omega (arith, length-append xs ys)),
        take-append xs ys n e,
        drop-append xs ys n e,
      )
      refl

word : (n : ℕ) → n < u32_mod → from_le_bytes (to_le_bytes n) ≡ n
word n h = ap from_le_bytes (sym (append-nil (to_le_bytes n))) ∙ from_le_bytes-to_le_bytes n [] h

-- The hashes have their size, and the numbers fit a u32.
abbrev pub FitsOption : Option Bytes → Type 0
FitsOption none = Unit
FitsOption (some p) = length p ≡ 32

abbrev pub FitsWire : ValidationRequest → Type 0
FitsWire r =
    (r.height < u32_mod)
    × ((length r.header < u32_mod) × ((length r.claimed_hash ≡ 32) × FitsOption r.prev_hash))

decode_prev-back :
    (p : Option Bytes) → FitsOption p → decode_prev (flag_of p == 1) (bytes_of p) ≡ some p
unfolding decode_prev
decode_prev-back none h = refl
decode_prev-back (some p) h =
    rw (ap (take_bytes 32) (sym (append-nil p)) ∙ take_bytes-append 32 p [] (sym h)) refl

small_word : (n : ℕ) → n < u32_mod → from_le_bytes (to_le_bytes (n % u32_mod)) ≡ n
small_word n h = ap (λ k. from_le_bytes (to_le_bytes k)) (omega arith) ∙ word n h

verdict_back :
    (accepted : Bool) (reason : Bytes)
    → length reason < u32_mod
    → All IsAscii reason
    → decode_reason (accepted_byte accepted) (length reason) reason
      ≡ some (record { accepted = accepted; reason = reason })
unfolding decode_reason
verdict_back true reason small ascii =
    rw
      (
        ap (take_bytes (length reason)) (sym (append-nil reason))
            ∙ take_bytes-append (length reason) reason [] refl,
        from_utf8_lossy-ascii reason ascii,
      )
      refl
verdict_back false reason small ascii =
    rw
      (
        ap (take_bytes (length reason)) (sym (append-nil reason))
            ∙ take_bytes-append (length reason) reason [] refl,
        from_utf8_lossy-ascii reason ascii,
      )
      refl

pub decode-encode_verdict :
    (v : Verdict)
    → length v.reason < u32_mod
    → All IsAscii v.reason
    → decode_verdict (encode_verdict v) ≡ some v
unfolding decode_verdict encode_verdict to_le_bytes
decode-encode_verdict v small ascii =
    ap (λ n. decode_reason (accepted_byte v.accepted) n v.reason)
      (small_word (length v.reason) small)
    ∙ verdict_back v.accepted v.reason small ascii

take_bytes-cons : (c : ℕ) (s : Bytes) → take_bytes 1 (c ∷ s) ≡ some (c ∷ [], s)
take_bytes-cons c s = take_bytes-append 1 (c ∷ []) s refl

-- Decoding an encoded request gives the request back, if its height and the length of its header fit
-- a u32 and its hashes have 32 bytes.
pub decode-encode_request :
    (r : ValidationRequest) → FitsWire r → decode_request (encode_request r) ≡ some r
unfolding decode_request encode_request
decode-encode_request r (a, (b, (c, d))) =
    let tail = bytes_of r.prev_hash in
    let size = to_le_bytes (length r.header % u32_mod) in
    rw
      (
        take_bytes-cons wire_version (
            to_le_bytes r.height
            ++ (flag_of r.prev_hash ∷ (r.claimed_hash ++ (size ++ (r.header ++ tail))))),
        take_bytes-append 4 (to_le_bytes r.height)
            (flag_of r.prev_hash ∷ (r.claimed_hash ++ (size ++ (r.header ++ tail))))
            (sym (length-to_le_bytes r.height)),
        take_bytes-cons (flag_of r.prev_hash) (r.claimed_hash ++ (size ++ (r.header ++ tail))),
        take_bytes-append 32 r.claimed_hash (size ++ (r.header ++ tail)) (sym c),
        take_bytes-append 4 size (r.header ++ tail)
            (sym (length-to_le_bytes (length r.header % u32_mod))),
        small_word (length r.header) b,
        room,
        take_bytes-append (length r.header) r.header tail refl,
        decode_prev-back r.prev_hash d,
        word r.height a,
      )
      refl
  where
    room :
        leb (length r.header) (
          length (
            wire_version
            ∷ (to_le_bytes r.height
                ++ (flag_of r.prev_hash
                    ∷ (r.claimed_hash
                        ++ (to_le_bytes (length r.header % u32_mod)
                            ++ (r.header ++ bytes_of r.prev_hash)))))))
        ≡ true
    room = le→leb _ _ (
        omega (
          arith,
          length-append (to_le_bytes r.height) (
              flag_of r.prev_hash
              ∷ (r.claimed_hash
                  ++ (to_le_bytes (length r.header % u32_mod)
                      ++ (r.header ++ bytes_of r.prev_hash)))),
          length-append r.claimed_hash
              (to_le_bytes (length r.header % u32_mod) ++ (r.header ++ bytes_of r.prev_hash)),
          length-append (to_le_bytes (length r.header % u32_mod))
              (r.header ++ bytes_of r.prev_hash),
          length-append r.header (bytes_of r.prev_hash),
        ))
