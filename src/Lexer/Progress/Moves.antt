-- ===== src/Lexer/Progress/Moves.antt =====
-- src/parser/lexer.c: moves that stay inside the source.
use jsonv.Base.{ℕ, zero, suc, ◌+◌, ◌≤◌, ◌<◌, ◌≡◌, Bool, true, [], ◌∷◌, arith, length, length-drop}
use jsonv.Token.{Bytes}
use jsonv.Lexer.Cursor.{Lexer, longer, advance, starts, is_digit, skip, skip_digits}

-- The end of the source stays where it is, and `current_pos` does not go back: with the record's
-- meaning, `current_pos ≤ source_len` is kept.
pub record Keeps (l m : Lexer) : Type 0 where
  pub same_end : m.current_pos + length m.rest ≡ l.current_pos + length l.rest
  pub forward : l.current_pos ≤ m.current_pos

pub Keeps-refl : (l : Lexer) → Keeps l l
Keeps-refl l = omega arith

pub Keeps-trans : {l m n : Lexer} → Keeps l m → Keeps m n → Keeps l n
Keeps-trans h k = omega arith

pub longer-lt : (k : ℕ) (cs : Bytes) → longer k cs ≡ true → k < length cs
longer-lt k [] h = cc
longer-lt zero (c ∷ cs) h = omega arith
longer-lt (suc k) (c ∷ cs) h = omega (arith, longer-lt k cs h)

pub starts-lt : (test : ℕ → Bool) (cs : Bytes) → starts test cs ≡ true → 0 < length cs
starts-lt test [] h = cc
starts-lt test (c ∷ cs) h = omega arith

pub advance-Keeps : (n : ℕ) (l : Lexer) → n ≤ length l.rest → Keeps l (advance n l)
advance-Keeps n l h = omega (arith, length-drop n l.rest)

pub skip-Keeps :
    (test : ℕ → Bool) (cs : Bytes) (p : ℕ)
    → Keeps (record { rest = cs; current_pos = p }) (skip test cs p)
unfolding skip
skip-Keeps test [] p = omega arith
skip-Keeps test (c ∷ cs) p = ground (arith, skip-Keeps test cs (p + 1))

pub skip_digits-Keeps : (l : Lexer) → Keeps l (skip_digits l)
unfolding skip_digits
skip_digits-Keeps l = skip-Keeps is_digit l.rest l.current_pos
