-- ===== src/RustStd/Words.antt =====
-- `u32::to_le_bytes` and `u32::from_le_bytes`.
use metashrew.Prelude.{
  ℕ, ◌+◌, ◌*◌, ◌/◌, ◌%◌, ◌<◌, ◌≡◌, refl, [], ◌∷◌, ◌++◌, Bytes, All, IsByte, length, arith,
}
use metashrew.RustStd.Decimal.{u32_mod}

unfoldable pub to_le_bytes : ℕ → Bytes
to_le_bytes n = n % 256 ∷ n / 256 % 256 ∷ n / 65536 % 256 ∷ n / 16777216 % 256 ∷ []

-- Of the first four bytes; the sources hand it four.
unfoldable pub from_le_bytes : Bytes → ℕ
from_le_bytes (a ∷ b ∷ c ∷ d ∷ _) = a + 256 * b + 65536 * c + 16777216 * d
from_le_bytes _ = 0

pub from_le_bytes-to_le_bytes :
    (n : ℕ) (rest : Bytes) → n < u32_mod → from_le_bytes (to_le_bytes n ++ rest) ≡ n
unfolding from_le_bytes to_le_bytes
from_le_bytes-to_le_bytes n rest h = omega arith

pub length-to_le_bytes : (n : ℕ) → length (to_le_bytes n) ≡ 4
unfolding to_le_bytes
length-to_le_bytes n = refl

pub to_le_bytes-IsByte : (n : ℕ) → All IsByte (to_le_bytes n)
unfolding to_le_bytes
to_le_bytes-IsByte n = omega arith
