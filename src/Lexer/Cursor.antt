-- ===== src/Lexer/Cursor.antt =====
-- src/parser/lexer.c and lexer.h: the lexer's state and how it reads the source.
use jsonv.Base.{
  ℕ, zero, suc, ◌+◌, Bool, true, false, ◌&&◌, ◌||◌, [], ◌∷◌, drop, get_or, leb, ◌==◌, if◌then◌else◌,
}
use jsonv.Token.{Bytes}

-- `Lexer`. `rest` is what stands from `source + current_pos` up to `source + source_len`, so
-- `current_pos < source_len` is the test that it has a byte.
pub record Lexer : Type 0 where
  pub rest : Bytes
  pub current_pos : ℕ

-- `current_pos += n`, where n bytes are left.
abbrev pub advance : ℕ → Lexer → Lexer
advance n l = record { rest = drop n l.rest; current_pos = l.current_pos + n }

-- The list holds more than k bytes.
abbrev pub longer : ℕ → Bytes → Bool
longer k [] = false
longer zero (c ∷ cs) = true
longer (suc k) (c ∷ cs) = longer k cs

-- `current_pos + k < source_len`
abbrev pub has : ℕ → Lexer → Bool
has k l = longer k l.rest

-- `source[current_pos + k]`, read only under `has k`
abbrev pub peek : ℕ → Lexer → ℕ
peek k l = get_or l.rest k 0

-- `current_pos < source_len && test(source[current_pos])`
abbrev pub starts : (ℕ → Bool) → Bytes → Bool
starts test [] = false
starts test (c ∷ cs) = test c

abbrev pub next_is : (ℕ → Bool) → Lexer → Bool
next_is test l = starts test l.rest

abbrev pub within : ℕ → ℕ → ℕ → Bool
within lo hi c = leb lo c && leb c hi

unfoldable pub is_digit : ℕ → Bool
is_digit c = within b'0' b'9' c

unfoldable pub is_hex_digit : ℕ → Bool
is_hex_digit c = within b'0' b'9' c || within b'a' b'f' c || within b'A' b'F' c

-- the lookup table `is_space_lut`
unfoldable pub is_space : ℕ → Bool
is_space c = c == b' ' || c == b'\t' || c == b'\r' || c == b'\n'

-- `while (current_pos < source_len && test(source[current_pos])) current_pos++;`
unfoldable pub skip : (ℕ → Bool) → Bytes → ℕ → Lexer
skip test [] p = record { rest = []; current_pos = p }
skip test (c ∷ cs) p =
    if test c then skip test cs (p + 1) else record { rest = c ∷ cs; current_pos = p }

unfoldable pub skip_digits : Lexer → Lexer
skip_digits l = skip is_digit l.rest l.current_pos

unfoldable pub skip_whitespace : Lexer → Lexer
skip_whitespace l = skip is_space l.rest l.current_pos
