-- ===== src/Number.antt =====
-- `parse` and `to_string` of the unsigned integers of Rust, whose standard library prints in decimal.
use skipjack_mcp.Base.{
  ℕ, zero, suc, ◌+◌, ◌-◌, ◌*◌, ◌/◌, ◌%◌, ◌<◌, ◌≤◌, ◌≡◌, refl, inl, inr, true, false, ◌&&◌, Option,
  none, some, ap, ◌∙◌, [], ◌∷◌, ◌++◌, leb, ltb, ◌==◌, if◌then◌else◌, All, All-append, length,
  length-append, arith, tests, Bool-cases,
}
use skipjack_mcp.Base.Text.{Text}

-- Digits of a number below the limit, with a `+` in front or not.
abbrev pub digits : ℕ → ℕ → Text → Option ℕ
digits limit n [] = some n
digits limit n (c ∷ s) =
    if leb b'0' c && leb c b'9' && ltb (10 * n + (c - b'0')) limit
    then digits limit (10 * n + (c - b'0')) s
    else none

abbrev unsigned : ℕ → Text → Option ℕ
unsigned limit [] = none
unsigned limit (c ∷ s) = digits limit 0 (c ∷ s)

abbrev pub parse_unsigned : ℕ → Text → Option ℕ
parse_unsigned limit [] = none
parse_unsigned limit (c ∷ s) = if c == b'+' then unsigned limit s else unsigned limit (c ∷ s)

-- The digits of a number, which are fewer than `fuel` if it is.
abbrev digits_of : ℕ → ℕ → Text
digits_of zero n = []
digits_of (suc fuel) n = elim (ltb n 10) [
  | true ↦ (b'0' + n) ∷ []
  | false ↦ digits_of fuel (n / 10) ++ (b'0' + n % 10) ∷ []
]

unfoldable pub to_decimal : ℕ → Text
to_decimal n = digits_of (suc n) n

abbrev pub IsDigit : ℕ → Type 0
IsDigit c = (b'0' ≤ c) × (c ≤ b'9')

-- A digit behind a number.
digits-snoc :
    (limit a n c : ℕ) (s : Text)
    → digits limit a s ≡ some n
    → leb b'0' c ≡ true
    → leb c b'9' ≡ true
    → 10 * n + (c - b'0') < limit
    → digits limit a (s ++ c ∷ []) ≡ some (10 * n + (c - b'0'))
digits-snoc limit a n c [] h low high fits =
    let same : a ≡ n = cc in
    let small : ltb (10 * a + (c - b'0')) limit ≡ true = omega (tests, same) in
    rw (low, high, small) (ap some (omega (arith, same)))
digits-snoc limit a n c (d ∷ s) h low high fits =
    elim (Bool-cases (leb b'0' d && leb d b'9' && ltb (10 * a + (d - b'0')) limit)) [
      | inl fine ↦
          rw fine (digits-snoc limit (10 * a + (d - b'0')) n c s (rw fine at h) low high fits)
      | inr wrong ↦ absurd (let none_left = rw wrong at h in cc)
    ]

digits_of-one : (fuel n : ℕ) → ltb n 10 ≡ true → digits_of (suc fuel) n ≡ (b'0' + n) ∷ []
digits_of-one fuel n e = rw (e, digits_of) refl

digits_of-more :
    (fuel n : ℕ)
    → ltb n 10 ≡ false
    → digits_of (suc fuel) n ≡ digits_of fuel (n / 10) ++ (b'0' + n % 10) ∷ []
digits_of-more fuel n e = rw (e, digits_of) refl

digits-digits_of :
    (limit fuel n : ℕ) → n < fuel → n < limit → digits limit 0 (digits_of fuel n) ≡ some n
digits-digits_of limit zero n h fits = absurd (omega arith)
digits-digits_of limit (suc fuel) n h fits = elim (Bool-cases (ltb n 10)) [
  | inl one ↦ rw (digits_of-one fuel n one) (ground arith)
  | inr more ↦
      let front = digits-digits_of limit fuel (n / 10) (omega tests) (omega arith) in
      let last : 10 * (n / 10) + (b'0' + n % 10 - b'0') ≡ n = omega arith in
      rw (digits_of-more fuel n more) (
        digits-snoc limit 0 (n / 10) (b'0' + n % 10) (digits_of fuel (n / 10)) front (omega tests)
          (omega tests) (omega (arith, last))
        ∙ ap some last)
]

digits_of-IsDigit : (fuel n : ℕ) → All IsDigit (digits_of fuel n)
digits_of-IsDigit zero n = tt
digits_of-IsDigit (suc fuel) n = elim (Bool-cases (ltb n 10)) [
  | inl one ↦ rw (digits_of-one fuel n one) ((omega arith, omega tests), tt)
  | inr more ↦ rw (digits_of-more fuel n more) (
      All-append _ (digits_of fuel (n / 10)) ((b'0' + n % 10) ∷ [])
        (digits_of-IsDigit fuel (n / 10)) ((omega arith, omega arith), tt))
]

pub to_decimal-IsDigit : (n : ℕ) → All IsDigit (to_decimal n)
unfolding to_decimal
to_decimal-IsDigit n = digits_of-IsDigit (suc n) n

unsigned-digits :
    (limit n : ℕ) (s : Text)
    → All IsDigit s
    → 0 < length s
    → digits limit 0 s ≡ some n
    → parse_unsigned limit s ≡ some n
unsigned-digits limit n [] h long e = absurd (omega arith)
unsigned-digits limit n (c ∷ s) h long e =
    let plain : (c == b'+') ≡ false = ground (arith, h.0) in rw plain e

digits_of-length : (fuel n : ℕ) → 0 < length (digits_of (suc fuel) n)
digits_of-length fuel n = elim (Bool-cases (ltb n 10)) [
  | inl one ↦ rw (digits_of-one fuel n one) (omega arith)
  | inr more ↦
      rw
        (digits_of-more fuel n more, length-append (digits_of fuel (n / 10)) ((b'0' + n % 10) ∷ []))
        (omega arith)
]

pub parse-to_decimal : (limit n : ℕ) → n < limit → parse_unsigned limit (to_decimal n) ≡ some n
unfolding to_decimal
parse-to_decimal limit n fits =
    unsigned-digits limit n (to_decimal n) (to_decimal-IsDigit n) (digits_of-length n n)
      (digits-digits_of limit (suc n) n (omega arith) fits)
