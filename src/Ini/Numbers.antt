-- ===== src/Ini/Numbers.antt =====
-- config.cpp: the numbers that the parsers accept, and those that the errors print.
use e2ee_windows.Common.{
  ℕ, zero, suc, ◌+◌, ◌-◌, ◌*◌, ◌/◌, ◌%◌, ◌^◌, ◌≤◌, ◌<◌, ◌≡◌, refl, ◌∙◌, false, none, some, [], ◌∷◌,
  Bytes, arith, if◌then◌else◌, ltb, ltb→lt, ltb_false→le, Bool-cases, inl, inr,
}
use e2ee_windows.Ini.{
  is_space, skip_spaces, digits_value, signed_digits, sign_first, scan_number, parse_uint16,
  parse_uint32, digits, to_decimal,
}

digits_value-digit :
    (value d : ℕ) (rest : Bytes)
    → 48 ≤ d
    → d < 58
    → digits_value value (d ∷ rest) ≡ digits_value (value * 10 + (d - 48)) rest
unfolding digits_value
digits_value-digit value d rest lo hi = ground arith

-- The digits of a number, read in front of more digits.
digits_value-digits :
    (fuel n : ℕ) (out : Bytes) → n < fuel → digits_value 0 (digits fuel n out) ≡ digits_value n out
unfolding digits
digits_value-digits zero n out h = absurd (omega arith)
digits_value-digits (suc fuel) n out h = elim (Bool-cases (ltb n 10)) [
  | inl one ↦
      (let value : 0 * 10 + (48 + n - 48) ≡ n = omega arith in
        rw one (
          digits_value-digit 0 (48 + n) out (omega arith) (omega (arith, ltb→lt n 10 one))
          ∙ rw value refl))
  | inr more ↦
      (let value : n / 10 * 10 + (48 + n % 10 - 48) ≡ n = omega arith in
        rw more (
          digits_value-digits fuel (n / 10) ((48 + n % 10) ∷ out)
            (omega (arith, ltb_false→le n 10 more))
          ∙ (digits_value-digit (n / 10) (48 + n % 10) out (omega arith) (omega arith)
              ∙ rw value refl)))
]

-- There is a digit in front.
digits_front :
    (fuel n : ℕ) (out : Bytes)
    → n < fuel
    → (d : ℕ) × (rest : Bytes) × (digits fuel n out ≡ d ∷ rest) × (48 ≤ d) × (d < 58)
unfolding digits
digits_front zero n out h = absurd (omega arith)
digits_front (suc fuel) n out h = elim (Bool-cases (ltb n 10)) [
  | inl one ↦ (48 + n, out, rw one refl, omega arith, omega (arith, ltb→lt n 10 one))
  | inr more ↦
      (let (d, rest, e, lo, hi) =
          digits_front fuel (n / 10) ((48 + n % 10) ∷ out)
            (omega (arith, ltb_false→le n 10 more)) in
        (d, rest, rw more e, lo, hi))
]

scan_front :
    (d : ℕ) (rest : Bytes)
    → 48 ≤ d
    → d < 58
    → scan_number (d ∷ rest) ≡ some (false, digits_value 0 (d ∷ rest))
unfolding scan_number sign_first signed_digits skip_spaces is_space
scan_front d rest lo hi = ground arith

digits_value_nil : (n : ℕ) → digits_value n [] ≡ n
unfolding digits_value
digits_value_nil n = refl

pub scan_number-to_decimal : (n : ℕ) → scan_number (to_decimal n) ≡ some (false, n)
unfolding to_decimal
scan_number-to_decimal n =
    let (d, rest, e, lo, hi) = digits_front (n + 1) n [] (omega arith) in
    let value : digits_value 0 (d ∷ rest) ≡ n =
      rw (← e) (digits_value-digits (n + 1) n [] (omega arith) ∙ digits_value_nil n) in
    rw (to_decimal, e, scan_front d rest lo hi, value) refl

-- The port that a written number stands for is the number itself, up to 65535; a larger one is refused.
pub parse_uint16-to_decimal :
    (n : ℕ) → parse_uint16 (to_decimal n) ≡ (if ltb 65535 n then none else some n)
unfolding parse_uint16
parse_uint16-to_decimal n = rw (parse_uint16, scan_number-to_decimal n) refl

pub parse_uint16-lt : (s : Bytes) (n : ℕ) → parse_uint16 s ≡ some n → n < 65536
unfolding parse_uint16
parse_uint16-lt s n h = ground arith

pub parse_uint32-lt : (bits : ℕ) (s : Bytes) (n : ℕ) → parse_uint32 bits s ≡ some n → n < 2 ^ 32
unfolding parse_uint32
parse_uint32-lt bits s n h = ground arith
