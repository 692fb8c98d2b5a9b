-- ===== src/Lexer/Strings.antt =====
-- src/parser/lexer.c: parse_string, one turn of its loop at a time.
pub mod Grammar
pub mod Complete
pub mod Turns
pub mod Sound
use jsonv.Base.{
  ℕ, zero, suc, ◌+◌, ◌-◌, ◌*◌, ◌%◌, ◌^◌, Bool, true, false, ◌&&◌, ◌||◌, leb, ltb, ◌==◌, length,
  drop, if◌then◌else◌,
}
use jsonv.Token.{Bytes, error, string, Token}
use jsonv.Lexer.Cursor.{Lexer, advance, has, peek, next_is, within, is_hex_digit}

-- How a turn ends: at the closing quote, at an error, or at the next character with the flag
-- that the escape sets.
pub data Turn : Type 0 where
  closed failed : Lexer → Turn
  going : Bool → Lexer → Turn

unfoldable pub hex_value : ℕ → ℕ
hex_value c =
    if within b'0' b'9' c
    then c - b'0'
    else if within b'a' b'f' c
    then c - b'a' + 10
    else c - b'A' + 10

-- `u = (u << 4) | digit` on a uint16_t: the low four bits of the shifted value are zero.
abbrev pub push_hex : ℕ → ℕ → ℕ
push_hex u c = (u * 16 + hex_value c) % 2 ^ 16

pub data Hex : Type 0 where
  hex_ok : ℕ → Lexer → Hex
  hex_bad : Lexer → Hex

abbrev pub at_hex {ℓ} : {A : Type ℓ} → (ℕ → Lexer → A) → (Lexer → A) → Hex → A
at_hex g b (hex_ok u l) = g u l
at_hex g b (hex_bad l) = b l

-- the loop over four digits; it stops behind the last digit that it read
unfoldable pub read_hex : ℕ → ℕ → Lexer → Hex
read_hex zero u l = hex_ok u l
read_hex (suc n) u l =
    let more = read_hex n (push_hex u (peek 0 l)) (advance 1 l) in
    if next_is is_hex_digit l then more else hex_bad l

abbrev pub is_high : ℕ → Bool
is_high u = within 0xD800 0xDBFF u

abbrev pub is_low : ℕ → Bool
is_low u = within 0xDC00 0xDFFF u

-- behind a high surrogate, `\uDC00` to `\uDFFF` must follow
unfoldable pub low_surrogate : Lexer → Turn
low_surrogate l =
    if has 5 l && peek 0 l == b'\\' && peek 1 l == b'u'
    then at_hex (λ u₂ l₂. if is_low u₂ then going true (advance 6 l) else failed l) (λ _. failed l)
        (read_hex 4 0 (advance 2 l))
    else failed l

-- A code unit on its own is no surrogate.
abbrev pub decide_unit : ℕ → Lexer → Turn
decide_unit u₁ l₁ =
    if is_high u₁ then low_surrogate l₁ else if is_low u₁ then failed l₁ else going true l₁

unfoldable pub unicode_escape : Lexer → Turn
unicode_escape l = at_hex decide_unit failed (read_hex 4 0 l)

unfoldable pub is_short_escape : ℕ → Bool
is_short_escape e =
    e == b'"'
    || e == b'\\'
    || e == b'/'
    || e == b'b'
    || e == b'f'
    || e == b'n'
    || e == b't'
    || e == b'r'

-- behind a backslash
unfoldable pub escape_turn : Lexer → Turn
escape_turn l =
    if next_is is_short_escape l
    then going true (advance 1 l)
    else if next_is (λ e. e == b'u') l
    then unicode_escape (advance 1 l)
    else failed l

abbrev pub is_tail : ℕ → Bool
is_tail b = within 0x80 0xBF b

-- The second byte, whose range the first may narrow.
unfoldable pub second_of_three : ℕ → ℕ → Bool
second_of_three c b =
    if c == 0xE0 then within 0xA0 0xBF b else if c == 0xED then within 0x80 0x9F b else is_tail b

unfoldable pub second_of_four : ℕ → ℕ → Bool
second_of_four c b =
    if c == 0xF0 then within 0x90 0xBF b else if c == 0xF4 then within 0x80 0x8F b else is_tail b

unfoldable pub two_bytes : Lexer → Turn
two_bytes l = if has 1 l && is_tail (peek 1 l) then going false (advance 2 l) else failed l

unfoldable pub three_bytes : ℕ → Lexer → Turn
three_bytes c l =
    if has 2 l && (second_of_three c (peek 1 l) && is_tail (peek 2 l))
    then going false (advance 3 l)
    else failed l

unfoldable pub four_bytes : ℕ → Lexer → Turn
four_bytes c l =
    if has 3 l && (second_of_four c (peek 1 l) && (is_tail (peek 2 l) && is_tail (peek 3 l)))
    then going false (advance 4 l)
    else failed l

-- The branches on the first byte `c` of a character that is no escape.
unfoldable pub utf8_turn : ℕ → Lexer → Turn
utf8_turn c l =
    if ltb c 0x20
    then failed l
    else if leb c 0x7F
    then going false (advance 1 l)
    else if within 0xC2 0xDF c
    then two_bytes l
    else if within 0xE0 0xEF c
    then three_bytes c l
    else if within 0xF0 0xF4 c
    then four_bytes c l
    else failed l

unfoldable pub string_turn : Lexer → Turn
string_turn l =
    let c = peek 0 l in
    if c == b'"'
    then closed (advance 1 l)
    else if c == b'\\'
    then escape_turn (advance 1 l)
    else utf8_turn c l

-- The loop, whose fuel is more than the bytes left: each turn reads one at least.
unfoldable pub scan_string : ℕ → Bool → Lexer → Bool × Turn
scan_string zero esc l = (esc, failed l)
scan_string (suc f) esc l = elim (has 0 l) [
  | false ↦ (esc, failed l)
  | true ↦ elim (string_turn l) [ going e l₁ ↦ scan_string f (esc || e) l₁ | stop ↦ (esc, stop) ]
]

abbrev pub error_token : Bytes → ℕ → Lexer → Token × Lexer
error_token start pos l =
    (record { start = start; len = l.current_pos - (pos - 1); type = error; has_escape = false }, l)

-- The token: the text between the quotes, or what was read, from the opening quote on.
abbrev pub string_token : Bytes → ℕ → Bool × Turn → Token × Lexer
string_token start pos (esc, closed l) = (
  record { start = drop 1 start; len = l.current_pos - pos - 1; type = string; has_escape = esc },
  l,
)
string_token start pos (esc, failed l) = error_token start pos l
string_token start pos (esc, going _ l) = error_token start pos l

-- `start` is the opening quote, and `l` stands behind it.
unfoldable pub parse_string : Bytes → Lexer → Token × Lexer
parse_string start l = string_token start l.current_pos (scan_string (suc (length l.rest)) false l)
