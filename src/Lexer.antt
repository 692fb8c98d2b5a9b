-- ===== src/Lexer.antt =====
-- src/parser/lexer.c: lexer_init, parse_literal and lexer_next_token. The state, numbers and
-- strings are in the children of those names.
pub mod Cursor
pub mod Number
pub mod Strings
pub mod Reads
pub mod Progress
use jsonv.Base.{
  ℕ, ◌+◌, Bool, false, ◌&&◌, ◌||◌, List, [], ◌∷◌, ◌==◌, leb, length, drop, if◌then◌else◌,
}
use jsonv.Token.{
  Bytes, TokenType, error, eof, colon, comma, brace_open, brace_close, bracket_open, bracket_close,
  null, true_lit, false_lit, Token,
}
use jsonv.Lexer.Cursor.{Lexer, advance, has, peek, is_digit, skip_whitespace}
use jsonv.Lexer.Number.{parse_number}
use jsonv.Lexer.Strings.{parse_string}

-- A byte order mark is skipped.
unfoldable pub lexer_init : Bytes → Lexer
lexer_init source =
    let l : Lexer = record { rest = source; current_pos = 0 } in
    if has 2 l && peek 0 l == 0xEF && peek 1 l == 0xBB && peek 2 l == 0xBF then advance 3 l else l

abbrev pub plain_token : TokenType → Bytes → ℕ → Token
plain_token type start n = record { start = start; len = n; type = type; has_escape = false }

-- `(Token){.type = type}`: no text.
abbrev pub bare_token : TokenType → Token
bare_token type = plain_token type [] 0

-- `c` is `token_start[0]`, and `l` stands behind it.
unfoldable pub parse_literal : ℕ → Bytes → Lexer → Token × Lexer
parse_literal c start l =
    if c == b't' && has 2 l && peek 0 l == b'r' && peek 1 l == b'u' && peek 2 l == b'e'
    then (bare_token true_lit, advance 3 l)
    else if c == b'f'
        && has 3 l
        && peek 0 l == b'a'
        && peek 1 l == b'l'
        && peek 2 l == b's'
        && peek 3 l == b'e'
    then (bare_token false_lit, advance 4 l)
    else if c == b'n' && has 2 l && peek 0 l == b'u' && peek 1 l == b'l' && peek 2 l == b'l'
    then (bare_token null, advance 3 l)
    else (plain_token error start 1, l)

unfoldable pub starts_number : ℕ → Bool
starts_number c = c == b'-' || c == b'+' || c == b'.' || is_digit c

-- The switch on `c`, the byte at `start`, from the case of a quote on; `l` stands behind it.
unfoldable pub value_at : ℕ → Bytes → Lexer → Token × Lexer
value_at c start l =
    if c == b'"'
    then parse_string start l
    else if starts_number c
    then parse_number c start l
    else if c == b't' || c == b'f' || c == b'n'
    then parse_literal c start l
    else (plain_token error start 1, l)

-- The cases of the switch above those.
unfoldable pub token_at : ℕ → Bytes → Lexer → Token × Lexer
token_at c start l =
    if c == b'{'
    then (plain_token brace_open start 1, l)
    else if c == b'}'
    then (plain_token brace_close start 1, l)
    else if c == b'['
    then (plain_token bracket_open start 1, l)
    else if c == b']'
    then (plain_token bracket_close start 1, l)
    else if c == b':'
    then (plain_token colon start 1, l)
    else if c == b','
    then (plain_token comma start 1, l)
    else value_at c start l

-- The token at the first byte that is not whitespace, or `eof`.
unfoldable pub token_from : Lexer → Token × Lexer
token_from l = if has 0 l then token_at (peek 0 l) l.rest (advance 1 l) else (bare_token eof, l)

unfoldable pub lexer_next_token : Lexer → Token × Lexer
lexer_next_token l = token_from (skip_whitespace l)
