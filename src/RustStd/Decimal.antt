-- ===== src/RustStd/Decimal.antt =====
-- `u32::to_string` and `str::parse::<u32>`.
use metashrew.Prelude.{
  ℕ, zero, suc, ◌+◌, ◌-◌, ◌*◌, ◌/◌, ◌%◌, ◌^◌, ◌≤◌, ◌<◌, ◌≡◌, ◌≢◌, ◌⊎◌, inl, inr, refl, ap, Bool,
  ◌&&◌, Option, none, some, [], ◌∷◌, Bytes, All, Lacks, IsAscii, arith, ltb, leb, ◌==◌,
  if◌then◌else◌, Bool-cases, tests,
}

abbrev pub u32_mod : ℕ
u32_mod = 2 ^ 32

decimal_go : ℕ → ℕ → Bytes → Bytes
decimal_go zero n out = out
decimal_go (suc f) n out =
    let more = decimal_go f (n / 10) ((b'0' + n % 10) ∷ out) in
    if ltb n 10 then (b'0' + n) ∷ out else more

-- Decimal digits with no leading zero. A round divides by ten, so `suc n` rounds are enough.
unfoldable pub to_string : ℕ → Bytes
unfolding decimal_go
to_string n = decimal_go (suc n) n []

is_digit : ℕ → Bool
is_digit c = leb b'0' c && leb c b'9'

parse_digits : Bytes → ℕ → Option ℕ
unfolding is_digit
parse_digits [] n = some n
parse_digits (c ∷ s) n =
    if is_digit c
    then (if ltb (n * 10 + (c - b'0')) u32_mod then parse_digits s (n * 10 + (c - b'0')) else none)
    else none

-- Digits after an optional `+`; an empty text and an overflow are errors.
unfoldable pub parse_u32 : Bytes → Option ℕ
unfolding parse_digits
parse_u32 [] = none
parse_u32 (c ∷ []) = parse_digits (c ∷ []) 0
parse_u32 (c ∷ d ∷ s) = if c == b'+' then parse_digits (d ∷ s) 0 else parse_digits (c ∷ d ∷ s) 0

abbrev pub IsDigit : ℕ → Type 0
IsDigit c = (b'0' ≤ c) × (c ≤ b'9')

scan_last :
    (n : ℕ) (out : Bytes)
    → n < u32_mod
    → parse_digits ((b'0' + n % 10) ∷ out) (n / 10) ≡ parse_digits out n
unfolding parse_digits
scan_last n out h = ground arith

scan_first : (n : ℕ) (out : Bytes) → n < 10 → parse_digits ((b'0' + n) ∷ out) 0 ≡ parse_digits out n
unfolding parse_digits
scan_first n out h = ground arith

parse_digits-decimal_go :
    (f n : ℕ) (out : Bytes)
    → n < f
    → n < u32_mod
    → parse_digits (decimal_go f n out) 0 ≡ parse_digits out n
unfolding decimal_go
parse_digits-decimal_go zero n out h b = absurd (omega arith)
parse_digits-decimal_go (suc f) n out h b = ground (
  arith,
  scan_first n out,
  scan_last n out,
  parse_digits-decimal_go f (n / 10) ((b'0' + n % 10) ∷ out),
)

decimal_go-IsDigit : (f n : ℕ) (out : Bytes) → All IsDigit out → All IsDigit (decimal_go f n out)
unfolding decimal_go
decimal_go-IsDigit zero n out h = h
decimal_go-IsDigit (suc f) n out h = elim (Bool-cases (ltb n 10)) [
  | inl e ↦ rw (e, All) (let d : IsDigit (b'0' + n) = omega tests in (d, h))
  | inr e ↦ rw (e, All) (decimal_go-IsDigit f (n / 10) _ ((omega arith, h)))
]

decimal_go-cons :
    (f n c : ℕ) (out : Bytes) → (d : ℕ) × (s : Bytes) × (decimal_go f n (c ∷ out) ≡ d ∷ s)
unfolding decimal_go
decimal_go-cons zero n c out = (c, out, refl)
decimal_go-cons (suc f) n c out = elim (Bool-cases (ltb n 10)) [
  | inl e ↦ (b'0' + n, c ∷ out, rw e)
  | inr e ↦ rw e (decimal_go-cons f (n / 10) (b'0' + n % 10) (c ∷ out))
]

pub to_string-IsDigit : (n : ℕ) → All IsDigit (to_string n)
unfolding to_string
to_string-IsDigit n = decimal_go-IsDigit (suc n) n [] tt

-- The text is not empty.
pub to_string-cons : (n : ℕ) → (d : ℕ) × (s : Bytes) × (to_string n ≡ d ∷ s)
unfolding to_string
to_string-cons n = elim (Bool-cases (ltb n 10)) [
  | inl e ↦ (b'0' + n, [], rw e)
  | inr e ↦ rw e (decimal_go-cons n (n / 10) (b'0' + n % 10) [])
]

parse_u32-digits :
    (d : ℕ) (s : Bytes) → All IsDigit (d ∷ s) → parse_u32 (d ∷ s) ≡ parse_digits (d ∷ s) 0
unfolding parse_u32
parse_u32-digits d [] h = refl
parse_u32-digits d (c ∷ s) h = ground arith

digits_back : (n : ℕ) → n < u32_mod → parse_digits (to_string n) 0 ≡ some n
unfolding to_string parse_digits
digits_back n h = parse_digits-decimal_go (suc n) n [] (omega arith) h

-- Every u32 is read back from its decimal text.
pub parse_u32-to_string : (n : ℕ) → n < u32_mod → parse_u32 (to_string n) ≡ some n
parse_u32-to_string n h =
    let (d, s, e) = to_string-cons n in
    cc (
      ap parse_u32 e,
      parse_u32-digits d s (rw e at (to_string-IsDigit n)),
      ap (λ t. parse_digits t 0) e,
      digits_back n h,
    )

pub to_string_injective : (n m : ℕ) → n < u32_mod → m < u32_mod → to_string n ≡ to_string m → n ≡ m
to_string_injective n m hn hm e =
    cc (parse_u32-to_string n hn, parse_u32-to_string m hm, ap parse_u32 e)

digits-Lacks : (b : ℕ) (s : Bytes) → (b < b'0') ⊎ (b'9' < b) → All IsDigit s → Lacks b s
digits-Lacks b [] o h = tt
digits-Lacks b (c ∷ s) o (hc, hs) = (λ e. omega arith, digits-Lacks b s o hs)

digits-IsAscii : (s : Bytes) → All IsDigit s → All IsAscii s
digits-IsAscii [] h = tt
digits-IsAscii (c ∷ s) (hc, hs) = (omega arith, digits-IsAscii s hs)

pub to_string-Lacks : (b n : ℕ) → (b < b'0') ⊎ (b'9' < b) → Lacks b (to_string n)
to_string-Lacks b n o = digits-Lacks b (to_string n) o (to_string-IsDigit n)

pub to_string-IsAscii : (n : ℕ) → All IsAscii (to_string n)
to_string-IsAscii n = digits-IsAscii (to_string n) (to_string-IsDigit n)

-- A text that does not begin with a digit is not the text of a number.
pub to_string-ne : (n c : ℕ) (s : Bytes) → (c < b'0') ⊎ (b'9' < c) → to_string n ≢ c ∷ s
to_string-ne n c s o e =
    let h : All IsDigit (c ∷ s) = rw e at (to_string-IsDigit n) in absurd (omega (arith, h.0))

parse_digits-lt : (s : Bytes) (n m : ℕ) → n < u32_mod → parse_digits s n ≡ some m → m < u32_mod
unfolding parse_digits
parse_digits-lt [] n m h e = ground arith
parse_digits-lt (c ∷ s) n m h e = ground (arith, parse_digits-lt s (n * 10 + (c - b'0')) m)

-- What is read fits a u32.
pub parse_u32-lt : (s : Bytes) (m : ℕ) → parse_u32 s ≡ some m → m < u32_mod
unfolding parse_u32
parse_u32-lt [] m e = cc
parse_u32-lt (c ∷ []) m e = parse_digits-lt (c ∷ []) 0 m (omega arith) e
parse_u32-lt (c ∷ d ∷ s) m e =
    ground (arith, parse_digits-lt (d ∷ s) 0 m, parse_digits-lt (c ∷ d ∷ s) 0 m)
