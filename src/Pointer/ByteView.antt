-- ===== src/Pointer/ByteView.antt =====
-- Integers as bytes: crates/metashrew-support/src/byte_view.rs. A type is its number of bytes.
use metashrew.Prelude.{
  ℕ, zero, suc, ◌+◌, ◌-◌, ◌*◌, ◌/◌, ◌%◌, ◌<◌, ◌≡◌, ◌⊎◌, refl, ap, [], ◌∷◌, Bytes, length, drop, ltb,
  ◌==◌, if◌then◌else◌, arith,
}
use metashrew.Error.{Result, ok, err, incorrect_length}

unfoldable pub shrink_back : Bytes → ℕ → Bytes
shrink_back b v = if ltb (length b) v then [] else drop v b

-- The number of values of a type.
unfoldable pub values : ℕ → ℕ
values zero = 1
values (suc width) = 256 * values width

unfoldable pub maximum : ℕ → ℕ
unfolding values
maximum width = values width - 1

unfoldable pub to_bytes : ℕ → ℕ → Bytes
to_bytes zero n = []
to_bytes (suc width) n = n % 256 ∷ to_bytes width (n / 256)

unfoldable pub le_value : Bytes → ℕ
le_value [] = 0
le_value (b ∷ v) = b + 256 * le_value v

-- `try_into().expect("incorrect length")`
unfoldable pub from_bytes : ℕ → Bytes → Result ℕ
unfolding le_value
from_bytes width v = if length v == width then ok (le_value v) else err incorrect_length

pub length-to_bytes : (width n : ℕ) → length (to_bytes width n) ≡ width
unfolding to_bytes
length-to_bytes zero n = refl
length-to_bytes (suc width) n = ap suc (length-to_bytes width (n / 256))

le_value-to_bytes : (width n : ℕ) → n < values width → le_value (to_bytes width n) ≡ n
unfolding le_value to_bytes values
le_value-to_bytes zero n h = omega arith
le_value-to_bytes (suc width) n h = omega (arith, le_value-to_bytes width (n / 256) (omega arith))

-- A number that a type of any width holds is read back from its bytes.
pub from_bytes-to_bytes :
    (width n : ℕ) → n < values width → from_bytes width (to_bytes width n) ≡ ok n
unfolding from_bytes
from_bytes-to_bytes width n h = ground (arith, length-to_bytes width n, le_value-to_bytes width n h)

-- Every other length panics.
pub from_bytes-incorrect :
    (width : ℕ) (v : Bytes)
    → (length v < width) ⊎ (width < length v)
    → from_bytes width v ≡ err incorrect_length
unfolding from_bytes
from_bytes-incorrect width v h = ground arith
