-- ===== src/Validator/Target/Compact.antt =====
-- The proof of work as a comparison of numbers.
use metashrew.Prelude.{
  ℕ, zero, suc, ◌+◌, ◌-◌, ◌*◌, ◌/◌, ◌^◌, ◌≤◌, ◌<◌, ◌≡◌, refl, inl, inr, Bool, false, Option, none,
  some, ◌++◌, Bytes, All, All-append, IsByte, length, length-append, ltb, leb, ◌==◌, if◌then◌else◌,
  arith, Bool-cases, lt→ltb, leb→le, leb→lt, le→ltb,
}
use native.Mathlib.Nat.{div-le_self}
use metashrew.RustStd.Sort.{bytes_le}
use metashrew.Validator.Target.{
  zero_bytes, low_three, exponent_of, mantissa_of, sign_of, place_mantissa, target_from_bits,
  is_below_target, meets_target,
}
use metashrew.Validator.Target.Value.{
  be_value, take_zeros, zeros-IsByte, length-zero_bytes, be_value-low_three, leading_zeros,
  bytes_le-value,
}

-- The number that a compact target stands for: the mantissa shifted by whole bytes.
unfoldable pub shifted_value : ℕ → ℕ → Option ℕ
shifted_value exponent mantissa =
    if leb exponent 3
    then some (mantissa / 256 ^ (3 - exponent))
    else if leb exponent 32
    then some (mantissa * 256 ^ (exponent - 3))
    else none

unfoldable pub compact_value : ℕ → Option ℕ
compact_value bits =
    if sign_of bits == 0
    then if mantissa_of bits == 0 then none else shifted_value (exponent_of bits) (mantissa_of bits)
    else none

abbrev pub is_below : ℕ → Option ℕ → Bool
is_below n none = false
is_below n (some v) = leb n v

low_three-IsByte : (n : ℕ) → All IsByte (low_three n)
unfolding low_three
low_three-IsByte n = omega arith

length-low_three : (n : ℕ) → length (low_three n) ≡ 3
unfolding low_three
length-low_three n = refl

shift_small : (e : ℕ) → e ≤ 3 → 2 ^ (8 * (3 - e)) ≡ 256 ^ (3 - e)
shift_small zero h = refl
shift_small (suc zero) h = refl
shift_small (suc (suc zero)) h = refl
shift_small (suc (suc (suc zero))) h = refl
shift_small (suc (suc (suc (suc e)))) h = absurd (omega arith)

small_target :
    (hash : Bytes) (e m : ℕ)
    → All IsByte hash
    → length hash ≡ 32
    → e ≤ 3
    → m < 8388608
    → bytes_le hash (zero_bytes 29 ++ low_three (m / 2 ^ (8 * (3 - e))))
      ≡ leb (be_value hash) (m / 256 ^ (3 - e))
small_target hash e m bytes size small fits =
    let v = m / 256 ^ (3 - e) in
    rw
      (
        shift_small e small,
        bytes_le-value hash (zero_bytes 29 ++ low_three v) bytes
            (All-append IsByte (zero_bytes 29) (low_three v) (zeros-IsByte 29) (low_three-IsByte v))
            (omega (
              arith,
              length-append (zero_bytes 29) (low_three v),
              length-zero_bytes 29,
              length-low_three v,
            )),
        leading_zeros 29 (low_three v),
        be_value-low_three v (quotient_small (256 ^ (3 - e))),
      )
      refl
  where
    quotient_small : (d : ℕ) → m / d < 16777216
    quotient_small d = omega (arith, div-le_self m d)

large_target :
    (hash : Bytes) (e m : ℕ)
    → All IsByte hash
    → length hash ≡ 32
    → 3 < e
    → e ≤ 32
    → m < 8388608
    → bytes_le hash (zero_bytes (32 - e) ++ (low_three m ++ zero_bytes (32 - (32 - e + 3))))
      ≡ leb (be_value hash) (m * 256 ^ (e - 3))
large_target hash e m bytes size low high fits =
    let a = 32 - e in
    let b = 32 - (32 - e + 3) in
    let b_is : b ≡ e - 3 = omega arith in
    rw
      (
        bytes_le-value hash (zero_bytes a ++ (low_three m ++ zero_bytes b)) bytes
            (All-append IsByte (zero_bytes a) (low_three m ++ zero_bytes b) (zeros-IsByte a) (
              All-append IsByte (low_three m) (zero_bytes b) (low_three-IsByte m) (zeros-IsByte b)))
            (omega (
              arith,
              length-append (zero_bytes a) (low_three m ++ zero_bytes b),
              length-append (low_three m) (zero_bytes b),
              length-zero_bytes a,
              length-zero_bytes b,
              length-low_three m,
            )),
        take_zeros a b (low_three m),
        be_value-low_three m (omega arith),
        b_is,
      )
      refl

place_mantissa-value :
    (hash : Bytes) (e m : ℕ)
    → All IsByte hash
    → length hash ≡ 32
    → m < 8388608
    → is_below_target hash (place_mantissa e m) ≡ is_below (be_value hash) (shifted_value e m)
unfolding place_mantissa shifted_value is_below_target
place_mantissa-value hash e m bytes size fits = elim (Bool-cases (leb e 3)) [
  | inl l ↦ rw (l) (small_target hash e m bytes size (leb→le e 3 l) fits)
  | inr g ↦ elim (Bool-cases (leb e 32)) [
    | inl h ↦
        let inside : ltb 32 (32 - e + 3) ≡ false =
          le→ltb 32 (32 - e + 3) (ground (arith, leb→lt e 3)) in
        rw (g, h, le→ltb 32 e (leb→le e 32 h), inside)
          (large_target hash e m bytes size (leb→lt e 3 g) (leb→le e 32 h) fits)
    | inr o ↦ rw (g, o, lt→ltb 32 e (leb→lt e 32 o)) refl
  ]
]

-- A hash of 32 bytes meets the target of `bits` exactly if, as a big-endian number, it is at most
-- the mantissa shifted by the exponent less three in whole bytes; with the sign bit, a zero mantissa
-- or an exponent above 32 no hash does.
pub meets_target-value :
    (hash : Bytes) (bits : ℕ)
    → All IsByte hash
    → length hash ≡ 32
    → meets_target hash bits ≡ is_below (be_value hash) (compact_value bits)
unfolding meets_target is_below_target target_from_bits compact_value
meets_target-value hash bits bytes size = elim (Bool-cases (sign_of bits == 0)) [
  | inl s ↦ elim (Bool-cases (mantissa_of bits == 0)) [
    | inl z ↦ rw (s, z) refl
    | inr n ↦
        rw (s, n)
          (place_mantissa-value hash (exponent_of bits) (mantissa_of bits) bytes size (omega arith))
  ]
  | inr s ↦ rw (s) refl
]
