-- ===== src/Validator/Target/Value.antt =====
-- Hashes and targets as numbers.
use metashrew.Prelude.{
  ℕ, zero, suc, ◌+◌, ◌*◌, ◌^◌, ◌≤◌, ◌<◌, ◌≡◌, refl, sym, ap, ◌∙◌, inl, inr, [], ◌∷◌, ◌++◌, Bytes,
  All, IsByte, length, length-append, ltb, leb, ◌==◌, arith, Bool-cases, le→leb, lt→leb, leb→le,
  leb→lt, ltb→lt, ltb→le, ==→eq,
}
use native.Mathlib.Nat.{pow-succ'}
use metashrew.RustStd.Sort.{bytes_le}
use metashrew.Validator.Target.{zero_bytes, low_three}

-- The number that big-endian bytes stand for.
abbrev pub be_value : Bytes → ℕ
be_value [] = 0
be_value (c ∷ s) = c * 256 ^ length s + be_value s

pub length-zero_bytes : (n : ℕ) → length (zero_bytes n) ≡ n
unfolding zero_bytes
length-zero_bytes zero = refl
length-zero_bytes (suc n) = ap suc (length-zero_bytes n)

pub be_value-zero_bytes : (n : ℕ) → be_value (zero_bytes n) ≡ 0
unfolding zero_bytes
be_value-zero_bytes zero = refl
be_value-zero_bytes (suc n) = omega (arith, be_value-zero_bytes n)

pub zeros-IsByte : (n : ℕ) → All IsByte (zero_bytes n)
unfolding zero_bytes
zeros-IsByte zero = tt
zeros-IsByte (suc n) = (omega arith, zeros-IsByte n)

pow-plus : (a b : ℕ) → 256 ^ (a + b) ≡ 256 ^ a * 256 ^ b
pow-plus zero b =
    let drop_zero : 0 + b ≡ b = omega arith in ap (λ k. 256 ^ k) drop_zero ∙ one_times (256 ^ b)
  where
    one_times : (p : ℕ) → p ≡ 1 * p
    one_times p = omega arith
pow-plus (suc a) b =
    let step : suc a + b ≡ suc (a + b) = omega arith in
    ap (λ k. 256 ^ k) step
    ∙ pow-succ' 256 (a + b)
    ∙ ap (λ k. 256 * k) (pow-plus a b)
    ∙ regroup (256 ^ a) (256 ^ b)
    ∙ ap (λ k. k * 256 ^ b) (sym (pow-succ' 256 a))
  where
    regroup : (p q : ℕ) → 256 * (p * q) ≡ 256 * p * q
    regroup p q = omega arith

pub be_value-append : (s t : Bytes) → be_value (s ++ t) ≡ be_value s * 256 ^ length t + be_value t
be_value-append [] t = omega arith
be_value-append (c ∷ s) t =
    rw (length-append s t, pow-plus (length s) (length t)) (omega (arith, be_value-append s t))

pub be_value-low_three : (n : ℕ) → n < 16777216 → be_value (low_three n) ≡ n
unfolding low_three
be_value-low_three n h = omega arith

mul_gap : (c d p : ℕ) → c < d → c * p + p ≤ d * p
mul_gap zero zero p h = absurd (omega arith)
mul_gap zero (suc d) p h = omega arith
mul_gap (suc c) zero p h = absurd (omega arith)
mul_gap (suc c) (suc d) p h = omega (arith, mul_gap c d p (omega arith))

pub be_value-bound : (s : Bytes) → All IsByte s → be_value s < 256 ^ length s
be_value-bound [] h = omega arith
be_value-bound (c ∷ s) (b, h) =
    omega (arith, pow-succ' 256 (length s), be_value-bound s h, mul_gap c 256 (256 ^ length s) b)

leb-add : (k a b : ℕ) → leb (k + a) (k + b) ≡ leb a b
leb-add k a b = elim (Bool-cases (leb a b)) [
  | inl e ↦ rw (e) (le→leb (k + a) (k + b) (ground (arith, leb→le a b)))
  | inr e ↦ rw (e) (lt→leb (k + a) (k + b) (ground (arith, leb→lt a b)))
]

digit_lt : (c d p v w : ℕ) → v < p → c < d → c * p + v < d * p + w
digit_lt c d p v w small l = omega (arith, mul_gap c d p l)

pub bytes_le-value :
    (s t : Bytes)
    → All IsByte s
    → All IsByte t
    → length s ≡ length t
    → bytes_le s t ≡ leb (be_value s) (be_value t)
unfolding bytes_le
bytes_le-value [] t hs ht e = sym (le→leb 0 (be_value t) (omega arith))
bytes_le-value (c ∷ s) [] hs ht e = absurd (omega arith)
bytes_le-value (c ∷ s) (d ∷ t) (hc, hs) (hd, ht) e =
    let same : length s ≡ length t = omega arith in
    let ih = bytes_le-value s t hs ht same in
    let p = 256 ^ length t in
    let s_small : be_value s < p = rw (same) at (be_value-bound s hs) in
    rw (same) (elim (Bool-cases (c == d)) [
      | inl eq ↦ rw (eq, ih) (first_same (==→eq c d eq))
      | inr ne ↦ elim (Bool-cases (ltb c d)) [
        | inl l ↦
            rw (ne, l)
              (sym (
                le→leb _ _
                  (omega (arith, digit_lt c d p (be_value s) (be_value t) s_small (ltb→lt c d l)))))
        | inr g ↦
            rw (ne, g)
              (sym (
                lt→leb _ _ (
                  digit_lt d c p (be_value t) (be_value s) (be_value-bound t ht)
                    (ground (arith, ltb→le c d)))))
      ]
    ])
  where
    first_same :
        c ≡ d
        → leb (be_value s) (be_value t)
          ≡ leb (c * 256 ^ length t + be_value s) (d * 256 ^ length t + be_value t)
    first_same q = rw (q) (sym (leb-add (d * 256 ^ length t) (be_value s) (be_value t)))

pub take_zeros :
    (a b : ℕ) (s : Bytes) → be_value (zero_bytes a ++ (s ++ zero_bytes b)) ≡ be_value s * 256 ^ b
take_zeros a b s =
    rw
      (
        be_value-append (zero_bytes a) (s ++ zero_bytes b),
        be_value-zero_bytes a,
        be_value-append s (zero_bytes b),
        be_value-zero_bytes b,
        length-zero_bytes b,
      )
      (omega arith)

pub leading_zeros : (a : ℕ) (s : Bytes) → be_value (zero_bytes a ++ s) ≡ be_value s
leading_zeros a s = rw (be_value-append (zero_bytes a) s, be_value-zero_bytes a) (omega arith)
