-- ===== src/Strings/Numbers.antt =====
-- Decimal numbers, printed and parsed.
use docker_monitoring.Prelude.{
  ℕ, zero, suc, ◌+◌, ◌/◌, ◌%◌, ◌^◌, ◌<◌, ◌≡◌, ◌≢◌, ◌∙◌, inl, inr, true, some, [], ◌∷◌, Text, ◌==◌,
  arith, Bool-cases, All,
}
use docker_monitoring.Strings.{is_digit, scan_uint, parse_uint, digits, format_uint}

scan_last :
    (n : ℕ) (out : Text) → n < 2 ^ 64 → scan_uint ((b'0' + n % 10) ∷ out) (n / 10) ≡ scan_uint out n
unfolding scan_uint is_digit
scan_last n out h = ground arith

scan-digits :
    (k n : ℕ) (out : Text)
    → n < 10 ^ k
    → n < 2 ^ 64
    → scan_uint (digits k n out) 0 ≡ scan_uint out n
unfolding digits
scan-digits zero n out h fits = ground arith
scan-digits (suc k) n out h fits = elim (Bool-cases (n == 0)) [
  | inl e ↦ ground arith
  | inr e ↦ ground (arith, scan-digits k (n / 10) ((b'0' + n % 10) ∷ out), scan_last n out fits)
]

-- Printing puts digits alone.
digits-All :
    (k n : ℕ) (out : Text)
    → All (λ c. is_digit c ≡ true) out
    → All (λ c. is_digit c ≡ true) (digits k n out)
unfolding digits is_digit
digits-All zero n out h = h
digits-All (suc k) n out h = elim (Bool-cases (n == 0)) [
  | inl e ↦ ground arith
  | inr e ↦ ground (arith, digits-All k (n / 10) ((b'0' + n % 10) ∷ out))
]

digits-ne-nil : (k n : ℕ) (out : Text) → out ≢ [] → digits k n out ≢ []
unfolding digits
digits-ne-nil zero n out h = h
digits-ne-nil (suc k) n out h = elim (Bool-cases (n == 0)) [
  | inl e ↦ ground arith
  | inr e ↦ ground (arith, digits-ne-nil k (n / 10) ((b'0' + n % 10) ∷ out))
]

-- One round is made for a number that is not 0.
pub format_uint-ne-nil : (n : ℕ) → format_uint n ≢ []
unfolding format_uint digits
format_uint-ne-nil n = ground (arith, digits-ne-nil 19 (n / 10) ((b'0' + n % 10) ∷ []))

parse_uint-scan_uint : (s : Text) → s ≢ [] → parse_uint s ≡ scan_uint s 0
unfolding parse_uint
parse_uint-scan_uint s h = ground arith

pub format_uint-All : (n : ℕ) → All (λ c. is_digit c ≡ true) (format_uint n)
unfolding format_uint is_digit
format_uint-All n = ground (arith, digits-All 20 n [] tt)

-- Every uint64 is read back from what is printed of it.
pub parse_uint-format_uint : (n : ℕ) → n < 2 ^ 64 → parse_uint (format_uint n) ≡ some n
unfolding format_uint scan_uint is_digit
parse_uint-format_uint n fits =
    parse_uint-scan_uint (format_uint n) (format_uint-ne-nil n)
    ∙ ground (arith, scan-digits 20 n [])
