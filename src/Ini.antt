-- ===== src/Ini.antt =====
-- server/src/config.cpp: the text helpers of the configuration files, of which
-- client/src/client_config.cpp has copies. `std::isspace` is that of the "C" locale. A file is the
-- bytes that a stream in text mode gives.
pub mod Trimming
pub mod Numbers
use e2ee_windows.Common.{
  ℕ, zero, suc, ◌+◌, ◌-◌, ◌*◌, ◌/◌, ◌%◌, ◌^◌, ◌==◌, Bool, true, false, not, ◌&&◌, ◌||◌, Option,
  none, some, List, [], ◌∷◌, ◌++◌, Bytes, text, same, if◌then◌else◌, is_empty, length, take, get_or,
  ltb, leb,
}

-- `std::isspace`
unfoldable pub is_space : ℕ → Bool
is_space b = b == 32 || (leb 9 b && leb b 13)

-- From the first byte that is no space on.
unfoldable pub skip_spaces : Bytes → Bytes
skip_spaces [] = []
skip_spaces (b ∷ bs) = let rest = skip_spaces bs in if is_space b then rest else b ∷ bs

-- Up to the last byte that is no space.
unfoldable pub drop_spaces : Bytes → Bytes
drop_spaces [] = []
drop_spaces (b ∷ bs) =
    let rest = drop_spaces bs in if is_space b && is_empty rest then [] else b ∷ rest

unfoldable pub trim : Bytes → Bytes
trim s = drop_spaces (skip_spaces s)

-- What stands before a comment; `may_start` says whether one may begin at the first byte.
unfoldable pub before_comment : Bool → Bytes → Option Bytes
before_comment may_start [] = none
before_comment may_start (b ∷ bs) =
    let rest = before_comment (is_space b) bs in
    if (b == b'#' || b == b';') && may_start
    then some []
    else elim rest [ none ↦ none | some front ↦ some (b ∷ front) ]

unfoldable pub strip_inline_comment : Bytes → Bytes
strip_inline_comment s = elim (before_comment true s) [ none ↦ s | some front ↦ trim front ]

-- `substr(0, pos)` and `substr(pos + 1)` for the first `mark`.
unfoldable pub split_at : ℕ → Bytes → Option (Bytes × Bytes)
split_at mark [] = none
split_at mark (b ∷ bs) =
    let rest = split_at mark bs in
    if b == mark
    then some ([], bs)
    else elim rest [ none ↦ none | some (front, back) ↦ some (b ∷ front, back) ]

-- The lines that `std::getline` reads one after the other.
unfoldable pub lines : Bytes → List Bytes
lines [] = []
lines (b ∷ bs) =
    let rest = lines bs in
    if b == 10 then [] ∷ rest else elim rest [ [] ↦ (b ∷ []) ∷ [] | ◌∷◌ l ls ↦ (b ∷ l) ∷ ls ]

-- `s.back()`
abbrev pub last_byte : Bytes → ℕ
last_byte s = get_or s (length s - 1) 0

-- The name of a section.
unfoldable pub section_name : Bytes → Option Bytes
section_name [] = none
section_name (b ∷ bs) =
    if b == b'[' && last_byte (b ∷ bs) == b']' then some (take (length bs - 1) bs) else none

-- What a line of a configuration file says.
pub data Line : Type 0 where
  blank invalid : Line
  section : Bytes → Line
  pair : Bytes → Bytes → Line

-- A line without its spaces and its comment.
unfoldable pub read_trimmed : Bytes → Line
read_trimmed t = if is_empty t then blank else elim (section_name t) [
  | some name ↦ section name
  | none ↦ elim (split_at b'=' t) [
    | none ↦ invalid
    | some (key, value) ↦ pair (trim key) (trim value)
  ]
]

unfoldable pub read_line : Bytes → Line
read_line line = read_trimmed (strip_inline_comment (trim line))

abbrev pub is_digit : ℕ → Bool
is_digit b = leb b'0' b && leb b b'9'

-- The number that the digits in front stand for, behind `value`.
unfoldable pub digits_value : ℕ → Bytes → ℕ
digits_value value [] = value
digits_value value (b ∷ bs) =
    let more = digits_value (value * 10 + (b - b'0')) bs in if is_digit b then more else value

-- The digits behind a sign; `none` where there are none.
unfoldable pub signed_digits : Bool → Bytes → Option (Bool × ℕ)
signed_digits negative [] = none
signed_digits negative (b ∷ bs) =
    if is_digit b then some (negative, digits_value 0 (b ∷ bs)) else none

unfoldable pub sign_first : Bytes → Option (Bool × ℕ)
sign_first [] = none
sign_first (b ∷ bs) =
    if b == b'-'
    then signed_digits true bs
    else if b == b'+'
    then signed_digits false bs
    else signed_digits false (b ∷ bs)

-- What `strtol` and `strtoul` read in base 10: whether there is a minus, and the digits, as a number
-- that is not cut off yet; `none` where `end_ptr` stays at the start.
unfoldable pub scan_number : Bytes → Option (Bool × ℕ)
scan_number s = sign_first (skip_spaces s)

-- A value that `strtol` cuts off is outside 16 bits before and after.
unfoldable pub parse_uint16 : Bytes → Option ℕ
parse_uint16 s = elim (scan_number s) [
  | none ↦ none
  | some (negative, value) ↦
      if (negative && not (value == 0)) || ltb 65535 value then none else some value
]

-- `static_cast<std::uint32_t>` of what `strtoul` returns, where an `unsigned long` has `bits` bits.
unfoldable pub parse_uint32 : ℕ → Bytes → Option ℕ
parse_uint32 bits s = elim (scan_number s) [
  | none ↦ none
  | some (negative, value) ↦ some (
      (if leb (2 ^ bits) value
        then 2 ^ bits - 1
        else if negative
        then (2 ^ bits - value) % 2 ^ bits
        else value)
      % 2 ^ 32)
]

unfoldable pub parse_bool : Bytes → Option Bool
parse_bool s =
    if same s (text "1") || (same s (text "true") || same s (text "on"))
    then some true
    else if same s (text "0") || (same s (text "false") || same s (text "off"))
    then some false
    else none

-- The digits of `n`, lowest first, behind `out`; `fuel` bounds the rounds.
unfoldable pub digits : ℕ → ℕ → Bytes → Bytes
digits zero n out = out
digits (suc fuel) n out =
    let more = digits fuel (n / 10) ((b'0' + n % 10) ∷ out) in
    if ltb n 10 then (b'0' + n) ∷ out else more

-- `std::to_string`, and `<<` of a number. A number has no more digits than its value and one.
unfoldable pub to_decimal : ℕ → Bytes
to_decimal n = digits (n + 1) n []
