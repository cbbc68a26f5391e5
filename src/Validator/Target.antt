-- ===== src/Validator/Target.antt =====
-- Proof of work: `target_from_bits` and `meets_target` of crates/metashrew-validator-core/src/lib.rs,
-- on a u32 given as a number.
pub mod Value
pub mod Compact
use metashrew.Prelude.{
  ℕ, zero, suc, ◌+◌, ◌-◌, ◌*◌, ◌/◌, ◌%◌, ◌^◌, Bool, true, false, Option, none, some, List, [], ◌∷◌,
  ◌++◌, Bytes, ltb, leb, ◌==◌, if◌then◌else◌,
}
use metashrew.RustStd.Sort.{bytes_le}

-- `[0u8; n]`
unfoldable pub zero_bytes : ℕ → Bytes
zero_bytes zero = []
zero_bytes (suc n) = 0 ∷ zero_bytes n

-- `to_be_bytes()[1..4]`
unfoldable pub low_three : ℕ → Bytes
low_three n = n / 65536 % 256 ∷ n / 256 % 256 ∷ n % 256 ∷ []

abbrev pub exponent_of : ℕ → ℕ
exponent_of bits = bits / 16777216

abbrev pub mantissa_of : ℕ → ℕ
mantissa_of bits = bits % 8388608

abbrev pub sign_of : ℕ → ℕ
sign_of bits = bits / 8388608 % 2

-- The target of a mantissa under an exponent.
unfoldable pub place_mantissa : ℕ → ℕ → Option Bytes
place_mantissa exponent mantissa =
    if leb exponent 3
    then some (zero_bytes 29 ++ low_three (mantissa / 2 ^ (8 * (3 - exponent))))
    else if ltb 32 exponent
    then none
    else if ltb 32 (32 - exponent + 3)
    then none
    else some (
        zero_bytes (32 - exponent) ++ (low_three mantissa ++ zero_bytes (32 - (32 - exponent + 3))))

unfoldable pub target_from_bits : ℕ → Option Bytes
target_from_bits bits =
    if sign_of bits == 0
    then if mantissa_of bits == 0
      then none
      else place_mantissa (exponent_of bits) (mantissa_of bits)
    else none

-- Slices compare as lists of bytes do.
unfoldable pub is_below_target : Bytes → Option Bytes → Bool
is_below_target hash none = false
is_below_target hash (some target) = bytes_le hash target

unfoldable pub meets_target : Bytes → ℕ → Bool
meets_target hash bits = is_below_target hash (target_from_bits bits)
