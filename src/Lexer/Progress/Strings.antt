-- ===== src/Lexer/Progress/Strings.antt =====
-- src/parser/lexer.c: parse_string stays inside the source.
use jsonv.Base.{
  ℕ, zero, suc, ◌<◌, ◌≡◌, refl, Bool, true, false, ◌||◌, ◌==◌, arith, length, length-drop,
  Bool-cases, inl, inr,
}
use jsonv.Token.{Bytes}
use jsonv.Lexer.Cursor.{Lexer, advance, has, peek, next_is, is_hex_digit}
use jsonv.Lexer.Strings.{
  Turn, closed, failed, going, Hex, hex_ok, hex_bad, at_hex, decide_unit, read_hex, push_hex,
  low_surrogate, unicode_escape, is_short_escape, escape_turn, two_bytes, three_bytes, four_bytes,
  utf8_turn, string_turn, scan_string, string_token, parse_string,
}
use jsonv.Lexer.Progress.Moves.{Keeps, Keeps-refl, Keeps-trans, longer-lt, starts-lt, advance-Keeps}

-- Where a turn, or the loop over four digits, leaves the lexer.
abbrev turn_lexer : Turn → Lexer
turn_lexer (closed m) = m
turn_lexer (failed m) = m
turn_lexer (going e m) = m

abbrev hex_lexer : Hex → Lexer
hex_lexer (hex_ok u m) = m
hex_lexer (hex_bad m) = m

two_bytes-Keeps : (l : Lexer) → Keeps l (turn_lexer (two_bytes l))
unfolding two_bytes
two_bytes-Keeps l = ground (arith, length-drop 2 l.rest, longer-lt 1 l.rest)

three_bytes-Keeps : (c : ℕ) (l : Lexer) → Keeps l (turn_lexer (three_bytes c l))
unfolding three_bytes
three_bytes-Keeps c l = ground (arith, length-drop 3 l.rest, longer-lt 2 l.rest)

four_bytes-Keeps : (c : ℕ) (l : Lexer) → Keeps l (turn_lexer (four_bytes c l))
unfolding four_bytes
four_bytes-Keeps c l = ground (arith, length-drop 4 l.rest, longer-lt 3 l.rest)

utf8_turn-Keeps : (c : ℕ) (l : Lexer) → 0 < length l.rest → Keeps l (turn_lexer (utf8_turn c l))
unfolding utf8_turn
utf8_turn-Keeps c l h =
    ground
      (arith, advance-Keeps 1 l h, two_bytes-Keeps l, three_bytes-Keeps c l, four_bytes-Keeps c l)

read_hex-Keeps : (n u : ℕ) (l : Lexer) → Keeps l (hex_lexer (read_hex n u l))
unfolding read_hex
read_hex-Keeps zero u l = Keeps-refl l
read_hex-Keeps (suc n) u l = elim (Bool-cases (next_is is_hex_digit l)) [
  | inr other ↦ rw other (Keeps-refl l)
  | inl digit ↦ rw digit (
      Keeps-trans (advance-Keeps 1 l (starts-lt is_hex_digit l.rest digit))
        (read_hex-Keeps n (push_hex u (peek 0 l)) (advance 1 l)))
]

low_surrogate-Keeps : (l : Lexer) → Keeps l (turn_lexer (low_surrogate l))
unfolding low_surrogate
low_surrogate-Keeps l = ground (arith, length-drop 6 l.rest, longer-lt 5 l.rest)

unicode_escape-Keeps : (l : Lexer) → Keeps l (turn_lexer (unicode_escape l))
unfolding unicode_escape
unicode_escape-Keeps l = go (read_hex 4 0 l) refl
  where
    go : (x : Hex) → read_hex 4 0 l ≡ x → Keeps l (turn_lexer (at_hex decide_unit failed x))
    go (hex_bad m) e = rw e at (read_hex-Keeps 4 0 l)
    go (hex_ok u m) e =
        let k : Keeps l m = rw e at (read_hex-Keeps 4 0 l) in ground (arith, low_surrogate-Keeps m)

escape_turn-Keeps : (l : Lexer) → Keeps l (turn_lexer (escape_turn l))
unfolding escape_turn
escape_turn-Keeps l = ground (
  arith,
  starts-lt is_short_escape l.rest,
  starts-lt (λ e. e == b'u') l.rest,
  length-drop 1 l.rest,
  unicode_escape-Keeps (advance 1 l),
)

string_turn-Keeps : (l : Lexer) → 0 < length l.rest → Keeps l (turn_lexer (string_turn l))
unfolding string_turn
string_turn-Keeps l h =
    ground
      (arith, advance-Keeps 1 l h, escape_turn-Keeps (advance 1 l), utf8_turn-Keeps (peek 0 l) l h)

scan_round-Keeps :
    (f : ℕ) (esc : Bool) (l : Lexer) (t : Turn)
    → string_turn l ≡ t
    → has 0 l ≡ true
    → ((b : Bool) (m : Lexer) → Keeps m (turn_lexer (scan_string f b m).1))
    → Keeps l (turn_lexer (scan_string (suc f) esc l).1)
unfolding scan_string
scan_round-Keeps f esc l t e there rest =
    let k : Keeps l (turn_lexer t) = rw e at (string_turn-Keeps l (longer-lt 0 l.rest there)) in
    rw (scan_string, there, e) (after t k)
  where
    after :
        (t : Turn)
        → Keeps l (turn_lexer t)
        → Keeps l (
            turn_lexer
              (elim t as (λ _. Bool × Turn) [
                | going b m ↦ scan_string f (esc || b) m
                | stop ↦ (esc, stop)
              ]).1)
    after (closed m) k = k
    after (failed m) k = k
    after (going b m) k = Keeps-trans k (rest (esc || b) m)

scan_string-Keeps : (f : ℕ) (esc : Bool) (l : Lexer) → Keeps l (turn_lexer (scan_string f esc l).1)
unfolding scan_string
scan_string-Keeps zero esc l = Keeps-refl l
scan_string-Keeps (suc f) esc l = elim (Bool-cases (has 0 l)) [
  | inl there ↦ scan_round-Keeps f esc l (string_turn l) refl there (λ b m. scan_string-Keeps f b m)
  | inr empty ↦ rw (scan_string, empty) (Keeps-refl l)
]

pub parse_string-Keeps : (start : Bytes) (l : Lexer) → Keeps l (parse_string start l).1
unfolding parse_string
parse_string-Keeps start l =
    go (scan_string (suc (length l.rest)) false l) (scan_string-Keeps _ false l)
  where
    go :
        (x : Bool × Turn)
        → Keeps l (turn_lexer x.1)
        → Keeps l (string_token start l.current_pos x).1
    go (esc, closed m) h = h
    go (esc, failed m) h = h
    go (esc, going e m) h = h
