-- ===== src/Keys/Hex.antt =====
-- A decoder for the text of `encode_hex_fast` (crates/metashrew-runtime/src/key_utils.rs), which writes
-- two digits for each byte, high half first.
use Prim.Native.Nat.{bit_and}
use metashrew.Prelude.{
  ℕ, zero, suc, ◌+◌, ◌*◌, ◌-◌, ◌/◌, ◌^◌, ◌<◌, ◌≤◌, ◌≡◌, refl, sym, ◌∙◌, Bool, true, false, ◌&&◌,
  Option, none, some, [], ◌∷◌, ◌++◌, append_assoc, append-nil, Bytes, All, IsByte, IsAscii, arith,
  ltb, leb, ◌==◌, if◌then◌else◌, length,
}
use metashrew.Keys.{hex_char, encode_hex_to_buf, encode_hex_fast}

-- The value of a hexadecimal digit, 16 for any other byte.
unfoldable pub nibble : ℕ → ℕ
nibble c =
    if leb b'0' c && leb c b'9'
    then c - b'0'
    else if leb b'a' c && leb c b'f'
    then c - b'a' + 10
    else if leb b'A' c && leb c b'F'
    then c - b'A' + 10
    else 16

unfoldable pub decode_hex : Bytes → Option Bytes
unfolding nibble
decode_hex [] = some []
decode_hex (c ∷ []) = none
decode_hex (c ∷ d ∷ s) =
    if ltb (nibble c) 16 && ltb (nibble d) 16
    then (elim (decode_hex s) [ none ↦ none | some r ↦ some ((nibble c * 16 + nibble d) ∷ r) ])
    else none

-- The test passes for each byte up to a bound.
passes_up_to : (ℕ → Bool) → ℕ → Bool
passes_up_to test zero = test 0
passes_up_to test (suc top) = if test (suc top) then passes_up_to test top else false

passes_up_to_lem :
    (test : ℕ → Bool) (top byte : ℕ) → byte ≤ top → passes_up_to test top ≡ true → test byte ≡ true
unfolding passes_up_to
passes_up_to_lem test zero byte le e = ground (arith, e)
passes_up_to_lem test (suc top) byte le e = ground (arith, passes_up_to_lem test top byte)

hi : ℕ → ℕ
hi b = hex_char (b / 2 ^ 4)

lo : ℕ → ℕ
lo b = hex_char (bit_and b 0xf)

-- What holds of the two digits of every byte.
digits_ok : ℕ → Bool
digits_ok b =
    (ltb (nibble (hi b)) 16 && ltb (nibble (lo b)) 16)
    && ((nibble (hi b) * 16 + nibble (lo b) == b) && (ltb (hi b) 128 && ltb (lo b) 128))

table : passes_up_to digits_ok 255 ≡ true
unfolding passes_up_to digits_ok hi lo nibble hex_char
table = refl

digits_ok_lem : (b : ℕ) → IsByte b → digits_ok b ≡ true
digits_ok_lem b h = passes_up_to_lem digits_ok 255 b (omega arith) table

hex_text : Bytes → Bytes
hex_text [] = []
hex_text (b ∷ s) = hi b ∷ lo b ∷ hex_text s

encode_hex_to_buf_lem : (s out : Bytes) → encode_hex_to_buf s out ≡ out ++ hex_text s
unfolding encode_hex_to_buf hex_text hi lo
encode_hex_to_buf_lem [] out = sym (append-nil out)
encode_hex_to_buf_lem (b ∷ s) out =
    encode_hex_to_buf_lem s (out ++ hi b ∷ lo b ∷ [])
    ∙ append_assoc out (hi b ∷ lo b ∷ []) (hex_text s)

decode_hex_text : (s : Bytes) → All IsByte s → decode_hex (hex_text s) ≡ some s
unfolding decode_hex hex_text digits_ok
decode_hex_text [] h = refl
decode_hex_text (b ∷ s) (hb, hs) = ground (arith, digits_ok_lem b hb, decode_hex_text s hs)

-- Decoding the hexadecimal text of `encode_hex_fast` gives the bytes back.
pub decode-encode_hex_fast : (s : Bytes) → All IsByte s → decode_hex (encode_hex_fast s) ≡ some s
unfolding encode_hex_fast
decode-encode_hex_fast s h = rw (encode_hex_to_buf_lem s []) (decode_hex_text s h)

hex_text-IsAscii : (s : Bytes) → All IsByte s → All IsAscii (hex_text s)
unfolding hex_text digits_ok
hex_text-IsAscii [] h = tt
hex_text-IsAscii (b ∷ s) (hb, hs) =
    let ok_b = digits_ok_lem b hb in
    let a : hi b < 128 = ground arith in
    let c : lo b < 128 = ground arith in (a, (c, hex_text-IsAscii s hs))

pub encode_hex_fast-IsAscii : (s : Bytes) → All IsByte s → All IsAscii (encode_hex_fast s)
unfolding encode_hex_fast
encode_hex_fast-IsAscii s h = rw (encode_hex_to_buf_lem s []) (hex_text-IsAscii s h)

length-hex_text : (s : Bytes) → length (hex_text s) ≡ 2 * length s
unfolding hex_text
length-hex_text [] = refl
length-hex_text (b ∷ s) = omega (arith, length-hex_text s)

-- Two digits for each byte.
pub length-encode_hex_fast : (s : Bytes) → length (encode_hex_fast s) ≡ 2 * length s
unfolding encode_hex_fast
length-encode_hex_fast s = rw (encode_hex_to_buf_lem s []) (length-hex_text s)
