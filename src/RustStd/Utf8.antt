-- ===== src/RustStd/Utf8.antt =====
-- `String::from_utf8_lossy`: each maximal ill-formed part becomes U+FFFD.
use metashrew.Prelude.{
  ℕ, zero, suc, ◌≡◌, refl, ◌&&◌, [], ◌∷◌, ◌++◌, Bytes, All, IsAscii, arith, ltb, leb, ◌==◌,
  if◌then◌else◌,
}

-- Between characters, or inside one: the range of the next byte, how many follow it, and the bytes
-- so far.
pub data Utf8State : Type 0 where
  boundary : Utf8State
  within : ℕ → ℕ → ℕ → Bytes → Utf8State

abbrev replacement : Bytes
replacement = 0xEF ∷ 0xBF ∷ 0xBD ∷ []

first_byte : ℕ → Bytes × Utf8State
first_byte b =
    if ltb b 0x80
    then (b ∷ [], boundary)
    else if ltb b 0xC2
    then (replacement, boundary)
    else if leb b 0xDF
    then ([], within 0x80 0xBF 0 (b ∷ []))
    else if b == 0xE0
    then ([], within 0xA0 0xBF 1 (b ∷ []))
    else if b == 0xED
    then ([], within 0x80 0x9F 1 (b ∷ []))
    else if leb b 0xEF
    then ([], within 0x80 0xBF 1 (b ∷ []))
    else if b == 0xF0
    then ([], within 0x90 0xBF 2 (b ∷ []))
    else if leb b 0xF3
    then ([], within 0x80 0xBF 2 (b ∷ []))
    else if b == 0xF4
    then ([], within 0x80 0x8F 2 (b ∷ []))
    else (replacement, boundary)

next_byte : Utf8State → ℕ → Bytes × Utf8State
unfolding first_byte
next_byte boundary b = first_byte b
next_byte (within lo hi zero pending) b =
    if leb lo b && leb b hi
    then (pending ++ b ∷ [], boundary)
    else (replacement ++ (first_byte b).0, (first_byte b).1)
next_byte (within lo hi (suc more) pending) b =
    if leb lo b && leb b hi
    then ([], within 0x80 0xBF more (pending ++ b ∷ []))
    else (replacement ++ (first_byte b).0, (first_byte b).1)

lossy_go : Utf8State → Bytes → Bytes
unfolding next_byte
lossy_go boundary [] = []
lossy_go (within lo hi more pending) [] = replacement
lossy_go st (b ∷ s) = (next_byte st b).0 ++ lossy_go (next_byte st b).1 s

unfoldable pub from_utf8_lossy : Bytes → Bytes
unfolding lossy_go
from_utf8_lossy s = lossy_go boundary s

lossy_go-ascii : (s : Bytes) → All IsAscii s → lossy_go boundary s ≡ s
unfolding lossy_go
lossy_go-ascii [] h = refl
lossy_go-ascii (b ∷ s) (hb, hs) = ground (arith, lossy_go-ascii s hs)

-- ASCII text is unchanged.
pub from_utf8_lossy-ascii : (s : Bytes) → All IsAscii s → from_utf8_lossy s ≡ s
unfolding from_utf8_lossy
from_utf8_lossy-ascii s h = lossy_go-ascii s h

euro_test : from_utf8_lossy (0x61 ∷ 0xE2 ∷ 0x82 ∷ 0xAC ∷ []) ≡ 0x61 ∷ 0xE2 ∷ 0x82 ∷ 0xAC ∷ []
unfolding from_utf8_lossy
euro_test = refl

truncated_test : from_utf8_lossy (0xE2 ∷ 0x82 ∷ 0x2F ∷ []) ≡ 0xEF ∷ 0xBF ∷ 0xBD ∷ 0x2F ∷ []
unfolding from_utf8_lossy
truncated_test = refl
