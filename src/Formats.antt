-- ===== src/Formats.antt =====
-- The checks for "format" in src/validation/validate_helpers.c. A text is its bytes; a byte from 128 on is a
-- negative char in the source and no digit, letter or sign there either.
pub mod Octets
pub mod Ipv4
pub mod Dates
use jsonv.Base.{
  ℕ, zero, suc, ◌+◌, ◌-◌, ◌*◌, ◌/◌, ◌%◌, Bool, true, false, not, ◌&&◌, ◌||◌, List, [], ◌∷◌, ◌==◌,
  leb, ltb, length, drop, get_or, if◌then◌else◌,
}
use jsonv.Token.{Bytes}
use jsonv.Lexer.Cursor.{is_digit, is_hex_digit, starts, within}

-- A turn of the loop of validate_ipv4: false, or the next parts, current_val and part_started.
pub data Ipv4Turn : Type 0 where
  refused : Ipv4Turn
  next : ℕ → ℕ → Bool → Ipv4Turn

unfoldable pub ipv4_turn : ℕ → ℕ → Bool → ℕ → Ipv4Turn
ipv4_turn parts current_val part_started c =
    if is_digit c
    then if current_val == 0 && part_started
      then refused
      else if ltb 255 (current_val * 10 + (c - b'0'))
      then refused
      else next parts (current_val * 10 + (c - b'0')) true
    else if c == b'.'
    then if part_started then next (parts + 1) 0 false else refused
    else refused

unfoldable pub ipv4_loop : ℕ → ℕ → Bool → Bytes → Bool
ipv4_loop parts current_val part_started [] = parts == 3 && part_started
ipv4_loop parts current_val part_started (c ∷ s) =
    elim (ipv4_turn parts current_val part_started c) [
      | refused ↦ false
      | next p v b ↦ ipv4_loop p v b s
    ]

unfoldable pub validate_ipv4 : Bytes → Bool
validate_ipv4 s = ipv4_loop 0 0 false s

-- Where the only '@' stands; `none` in the source is -1, and two of them end the check.
pub data At : Type 0 where
  no_at : At
  at_index : ℕ → At
  two_at : At

unfoldable pub at_turn : ℕ → ℕ → At → At
at_turn c i no_at = if c == b'@' then at_index i else no_at
at_turn c i (at_index j) = if c == b'@' then two_at else at_index j
at_turn c i two_at = two_at

unfoldable pub find_at : ℕ → Bytes → At → At
find_at i [] found = found
find_at i (c ∷ s) found = find_at (i + 1) s (at_turn c i found)

-- A dot among the first n bytes.
unfoldable pub has_dot : ℕ → Bytes → Bool
has_dot zero s = false
has_dot (suc n) [] = false
has_dot (suc n) (c ∷ s) = c == b'.' || has_dot n s

-- From at_idx + 2 to len - 2 there is a dot.
unfoldable pub validate_email : Bytes → Bool
validate_email s = elim (find_at 0 s no_at) [
  | no_at ↦ false
  | two_at ↦ false
  | at_index i ↦
      not (i == 0) && ltb (i + 1) (length s) && has_dot (length s - 1 - (i + 2)) (drop (i + 2) s)
]

abbrev pub is_dash_index : ℕ → Bool
is_dash_index i = i == 8 || i == 13 || i == 18 || i == 23

unfoldable pub uuid_loop : ℕ → Bytes → Bool
uuid_loop i [] = true
uuid_loop i (c ∷ s) = (if is_dash_index i then c == b'-' else is_hex_digit c) && uuid_loop (i + 1) s

unfoldable pub validate_uuid : Bytes → Bool
validate_uuid s = length s == 36 && uuid_loop 0 s

-- `s[i]`, read only where there is one
abbrev pub char_at : Bytes → ℕ → ℕ
char_at s i = get_or s i 0

abbrev pub digit_at : Bytes → ℕ → ℕ
digit_at s i = char_at s i - b'0'

-- The signs between the numbers.
unfoldable pub has_signs : Bytes → Bool
has_signs s =
    char_at s 4 == b'-'
    && char_at s 7 == b'-'
    && (char_at s 10 == b'T' || char_at s 10 == b't')
    && char_at s 13 == b':'
    && char_at s 16 == b':'

abbrev pub is_sign_index : ℕ → Bool
is_sign_index i = i == 4 || i == 7 || i == 10 || i == 13 || i == 16

-- The digits of the first n bytes, from index i on.
unfoldable pub has_digits : ℕ → ℕ → Bytes → Bool
has_digits zero i s = true
has_digits (suc n) i s = (is_sign_index i || is_digit (char_at s i)) && has_digits n (i + 1) s

abbrev pub year_of : Bytes → ℕ
year_of s = digit_at s 0 * 1000 + digit_at s 1 * 100 + digit_at s 2 * 10 + digit_at s 3

abbrev pub two_digits : ℕ → Bytes → ℕ
two_digits i s = digit_at s i * 10 + digit_at s (i + 1)

unfoldable pub is_leap : ℕ → Bool
is_leap year = year % 4 == 0 && (not (year % 100 == 0) || year % 400 == 0)

-- The tests on month and day, one return after another.
unfoldable pub date_in_range : ℕ → ℕ → ℕ → Bool
date_in_range year month day =
    if ltb month 1 || ltb 12 month
    then false
    else if ltb day 1 || ltb 31 day
    then false
    else if (month == 4 || month == 6 || month == 9 || month == 11) && ltb 30 day
    then false
    else if month == 2
    then if is_leap year then leb day 29 else leb day 28
    else true

unfoldable pub time_in_range : ℕ → ℕ → ℕ → Bool
time_in_range hour minute second = leb hour 23 && leb minute 59 && leb second 60

-- `HH:MM` behind the sign of an offset.
unfoldable pub is_offset : Bytes → Bool
is_offset s =
    char_at s 2 == b':'
    && is_digit (char_at s 0)
    && is_digit (char_at s 1)
    && is_digit (char_at s 3)
    && is_digit (char_at s 4)

-- Behind the seconds and their fraction: Z, or an offset of six bytes. A fraction that ends the text is
-- refused.
unfoldable pub is_zone : Bytes → Bool
is_zone [] = false
is_zone (c ∷ s) =
    if c == b'Z' || c == b'z'
    then length s == 0
    else if c == b'+' || c == b'-'
    then length s == 5 && is_offset s
    else false

unfoldable pub skip_fraction : Bytes → Bytes
skip_fraction [] = []
skip_fraction (c ∷ s) = let rest = skip_fraction s in if is_digit c then rest else c ∷ s

-- Behind index 18: the length is at least 20.
unfoldable pub after_seconds : Bytes → Bool
after_seconds [] = false
after_seconds (c ∷ s) = if c == b'.' then is_zone (skip_fraction s) else is_zone (c ∷ s)

unfoldable pub validate_datetime : Bytes → Bool
validate_datetime s =
    leb 20 (length s)
    && has_signs s
    && has_digits 19 0 s
    && date_in_range (year_of s) (two_digits 5 s) (two_digits 8 s)
    && time_in_range (two_digits 11 s) (two_digits 14 s) (two_digits 17 s)
    && after_seconds (drop 19 s)
