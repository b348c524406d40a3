-- ===== src/Strings.antt =====
-- What the code uses of Go's strings and strconv, on bytes. The files it is used on are ASCII, so
-- white space is the ASCII one.
pub mod Numbers
pub mod Lines
use docker_monitoring.Prelude.{
  ℕ, zero, suc, ◌+◌, ◌-◌, ◌*◌, ◌/◌, ◌%◌, ◌^◌, Bool, true, false, not, ◌&&◌, ◌||◌, Option, none,
  some, List, [], ◌∷◌, ◌++◌, keep, Text, text_eq, is_empty, ltb, leb, ◌==◌, if◌then◌else◌,
}
use docker_monitoring.Prelude.Int.{ℤ, pos, negsuc}

-- strings.CutPrefix; `has_prefix` is strings.HasPrefix.
unfoldable pub after_prefix : Text → Text → Option Text
after_prefix [] text = some text
after_prefix (c ∷ rest) [] = none
after_prefix (c ∷ rest) (d ∷ text) =
    let tail = after_prefix rest text in if c == d then tail else none

unfoldable pub has_prefix : Text → Text → Bool
unfolding after_prefix
has_prefix prefix text = elim (after_prefix prefix text) [ none ↦ false | some _ ↦ true ]

unfoldable pub is_space : ℕ → Bool
is_space c = (c == 32) || (leb 9 c && leb c 13)

unfoldable pub trim_left : Text → Text
trim_left [] = []
trim_left (c ∷ s) = let rest = trim_left s in if is_space c then rest else c ∷ s

unfoldable pub trim_right : Text → Text
trim_right [] = []
trim_right (c ∷ s) = let rest = trim_right s in if is_empty rest && is_space c then [] else c ∷ rest

unfoldable pub trim_space : Text → Text
unfolding trim_left trim_right
trim_space s = trim_right (trim_left s)

-- A byte at the front of the first part.
unfoldable pub push : ℕ → List Text → List Text
push c [] = (c ∷ []) ∷ []
push c (part ∷ parts) = (c ∷ part) ∷ parts

-- The parts between the bytes that a test accepts: strings.Split at one byte.
unfoldable pub split_by : (ℕ → Bool) → Text → List Text
split_by test [] = [] ∷ []
split_by test (c ∷ s) = let rest = split_by test s in if test c then [] ∷ rest else push c rest

unfoldable pub fields : Text → List Text
unfolding split_by
fields s = keep (λ part. not (is_empty part)) (split_by is_space s)

-- strings.Cut at one byte: what stands before its first occurrence and behind it.
unfoldable pub cut : ℕ → Text → Option (Text × Text)
cut sep [] = none
cut sep (c ∷ s) =
    let rest = cut sep s in
    if c == sep
    then some ([], s)
    else elim rest [ none ↦ none | some (before, after) ↦ some (c ∷ before, after) ]

unfoldable pub is_digit : ℕ → Bool
is_digit c = leb b'0' c && leb c b'9'

-- strconv.ParseUint with base 10 and 64 bits.
unfoldable pub scan_uint : Text → ℕ → Option ℕ
scan_uint [] n = some n
scan_uint (c ∷ s) n =
    let rest = scan_uint s (n * 10 + (c - b'0')) in
    if is_digit c && ltb (n * 10 + (c - b'0')) (2 ^ 64) then rest else none

unfoldable pub parse_uint : Text → Option ℕ
unfolding scan_uint
parse_uint s = if is_empty s then none else scan_uint s 0

-- The digits of `n` before `out`, at most as many as the first argument says.
unfoldable pub digits : ℕ → ℕ → Text → Text
digits zero n out = out
digits (suc k) n out = elim (n == 0) [
  | true ↦ out
  | false ↦ digits k (n / 10) ((b'0' + n % 10) ∷ out)
]

-- strconv.FormatUint with base 10; a uint64 has at most 20 digits.
unfoldable pub format_uint : ℕ → Text
unfolding digits
format_uint n = if n == 0 then b'0' ∷ [] else digits 20 n []

-- strconv.Atoi on a 64-bit machine.
unfoldable pub atoi : Text → Option ℤ
unfolding parse_uint
atoi [] = none
atoi (c ∷ s) =
    let negative = c == b'-' in
    elim (parse_uint (if negative || (c == b'+') then s else c ∷ s)) [
      | none ↦ none
      | some n ↦
          if negative
          then if leb n (2 ^ 63) then some (if n == 0 then pos 0 else negsuc (n - 1)) else none
          else if ltb n (2 ^ 63)
          then some (pos n)
          else none
    ]

-- strings.HasSuffix
unfoldable pub has_suffix : Text → Text → Bool
has_suffix suffix [] = is_empty suffix
has_suffix suffix (c ∷ s) = let rest = has_suffix suffix s in text_eq suffix (c ∷ s) || rest
