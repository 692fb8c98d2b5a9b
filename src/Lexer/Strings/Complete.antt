-- ===== src/Lexer/Strings/Complete.antt =====
-- src/parser/lexer.c: parse_string reads every string of RFC 8259 whole.
use mathlib.Core.List.{append_assoc}
use jsonv.Base.{
  ℕ, zero, suc, ◌+◌, ◌<◌, ◌≡◌, ◌≢◌, ◌⊎◌, refl, ap, ◌∙◌, Bool, true, false, ◌||◌, ◌∷◌, ◌++◌, arith,
  length, length-append,
}
use jsonv.Token.{Bytes, string, Token}
use jsonv.Lexer.Cursor.{Lexer, has, is_hex_digit}
use jsonv.Lexer.Strings.{
  Turn, closed, going, hex_ok, hex_value, read_hex, low_surrogate, unicode_escape, is_short_escape,
  escape_turn, second_of_three, second_of_four, two_bytes, three_bytes, four_bytes, utf8_turn,
  string_turn, scan_string, parse_string, is_high, is_low,
}
use jsonv.Lexer.Strings.Grammar.{
  In, IsUnit, unit, IsSecondOfThree, IsSecondOfFour, IsChar, ascii, two, three, four, short,
  code_unit, surrogates, IsBody, done, char,
}

abbrev pub at : Bytes → ℕ → Lexer
at cs p = record { rest = cs; current_pos = p }

hex_value-lt : (c : ℕ) → is_hex_digit c ≡ true → hex_value c < 16
unfolding is_hex_digit hex_value
hex_value-lt c h = ground arith

read_hex-IsUnit :
    {u : ℕ} {ds : Bytes} (r : Bytes) (p : ℕ)
    → IsUnit u ds
    → read_hex 4 0 (at (ds ++ r) p) ≡ hex_ok u (at r (p + 1 + 1 + 1 + 1))
unfolding read_hex
read_hex-IsUnit r p (unit {a} {b} {c} {d} ha hb hc hd e) =
    rw (ha, hb, hc, hd)
      (ap (λ (v : ℕ). hex_ok v (at r (p + 1 + 1 + 1 + 1)))
        (omega (arith, hex_value-lt a ha, hex_value-lt b hb, hex_value-lt c hc, hex_value-lt d hd)))

utf8_turn_ascii :
    (c : ℕ) (r : Bytes) (p : ℕ)
    → In 0x20 0x7F c
    → utf8_turn c (at (c ∷ r) p) ≡ going false (at r (p + 1))
unfolding utf8_turn
utf8_turn_ascii c r p i = ground arith

utf8_turn_two :
    (c b : ℕ) (r : Bytes) (p : ℕ)
    → In 0xC2 0xDF c
    → In 0x80 0xBF b
    → utf8_turn c (at (c ∷ b ∷ r) p) ≡ going false (at r (p + 2))
unfolding utf8_turn two_bytes
utf8_turn_two c b r p i j = ground arith

utf8_turn_three :
    (c b d : ℕ) (r : Bytes) (p : ℕ)
    → In 0xE0 0xEF c
    → IsSecondOfThree c b
    → In 0x80 0xBF d
    → utf8_turn c (at (c ∷ b ∷ d ∷ r) p) ≡ going false (at r (p + 3))
unfolding utf8_turn three_bytes second_of_three
utf8_turn_three c b d r p i j k = ground arith

utf8_turn_four :
    (c b d e : ℕ) (r : Bytes) (p : ℕ)
    → In 0xF0 0xF4 c
    → IsSecondOfFour c b
    → In 0x80 0xBF d
    → In 0x80 0xBF e
    → utf8_turn c (at (c ∷ b ∷ d ∷ e ∷ r) p) ≡ going false (at r (p + 4))
unfolding utf8_turn four_bytes second_of_four
utf8_turn_four c b d e r p i j k m = ground arith

-- The same position, counted in another way.
going_pos : (e : Bool) (r : Bytes) {p q : ℕ} → p ≡ q → going e (at r p) ≡ going e (at r q)
going_pos e r h = ap (λ (q : ℕ). going e (at r q)) h

length-IsUnit : {u : ℕ} {ds : Bytes} → IsUnit u ds → length ds ≡ 4
length-IsUnit (unit _ _ _ _ _) = refl

low_surrogate-IsUnit :
    {low : ℕ} {ls : Bytes} (r : Bytes) (p : ℕ)
    → IsUnit low ls
    → In 0xDC00 0xDFFF low
    → low_surrogate (at (b'\\' ∷ b'u' ∷ (ls ++ r)) p) ≡ going true (at r (p + 6))
unfolding low_surrogate
low_surrogate-IsUnit {low} r p (unit {a} {b} {c} {d} ha hb hc hd e) i =
    let test : is_low low ≡ true = ground arith in
    rw (read_hex-IsUnit r (p + 2) (unit ha hb hc hd e), test) refl

unicode_escape-IsUnit :
    {u : ℕ} {ds : Bytes} (r : Bytes) (p : ℕ)
    → IsUnit u ds
    → (u < 0xD800) ⊎ (0xDFFF < u)
    → unicode_escape (at (ds ++ r) p) ≡ going true (at r (p + 4))
unfolding unicode_escape
unicode_escape-IsUnit {u} r p h i =
    let high : is_high u ≡ false = ground arith in
    let low : is_low u ≡ false = ground arith in
    rw (read_hex-IsUnit r p h, high, low) (going_pos true r (omega arith))

unicode_escape_pair :
    {high low : ℕ} {hs ls : Bytes} (r : Bytes) (p : ℕ)
    → IsUnit high hs
    → In 0xD800 0xDBFF high
    → IsUnit low ls
    → In 0xDC00 0xDFFF low
    → unicode_escape (at (hs ++ (b'\\' ∷ b'u' ∷ (ls ++ r))) p) ≡ going true (at r (p + 10))
unfolding unicode_escape
unicode_escape_pair {high} {low} {hs} {ls} r p h i l j =
    let test : is_high high ≡ true = ground arith in
    rw (read_hex-IsUnit (b'\\' ∷ b'u' ∷ (ls ++ r)) p h, test)
      (low_surrogate-IsUnit r (p + 1 + 1 + 1 + 1) l j ∙ going_pos true r (omega arith))

escape_turn_u : (r : Bytes) (p : ℕ) → escape_turn (at (b'u' ∷ r) p) ≡ unicode_escape (at r (p + 1))
unfolding escape_turn is_short_escape
escape_turn_u r p = refl

string_turn_plain :
    (c : ℕ) (r : Bytes) (p : ℕ)
    → c ≢ b'"'
    → c ≢ b'\\'
    → string_turn (at (c ∷ r) p) ≡ utf8_turn c (at (c ∷ r) p)
unfolding string_turn
string_turn_plain c r p h k = ground arith

string_turn_escape :
    (r : Bytes) (p : ℕ) → string_turn (at (b'\\' ∷ r) p) ≡ escape_turn (at r (p + 1))
unfolding string_turn
string_turn_escape r p = refl

-- A turn reads one character.
string_turn-IsChar :
    {e : Bool} {cs : Bytes} (r : Bytes) (p : ℕ)
    → IsChar e cs
    → string_turn (at (cs ++ r) p) ≡ going e (at r (p + length cs))
string_turn-IsChar r p (ascii {c} i q b) = string_turn_plain c r p q b ∙ utf8_turn_ascii c r p i
string_turn-IsChar r p (two {c} {b} i j) =
    string_turn_plain c (b ∷ r) p (omega arith) (omega arith) ∙ utf8_turn_two c b r p i j
string_turn-IsChar r p (three {c} {b} {d} i j k) =
    string_turn_plain c (b ∷ d ∷ r) p (omega arith) (omega arith) ∙ utf8_turn_three c b d r p i j k
string_turn-IsChar r p (four {c} {b} {d} {e} i j k m) =
    string_turn_plain c (b ∷ d ∷ e ∷ r) p (omega arith) (omega arith)
    ∙ utf8_turn_four c b d e r p i j k m
string_turn-IsChar r p (short {q} {e} h k) =
    rw h
      (string_turn_escape (e ∷ r) p ∙ unfold escape_turn in rw k (going_pos true r (omega arith)))
string_turn-IsChar r p (code_unit {ds = ds} hq hv u i) =
    rw (hq, hv)
      (string_turn_escape (b'u' ∷ (ds ++ r)) p
        ∙ escape_turn_u (ds ++ r) (p + 1)
        ∙ unicode_escape-IsUnit r (p + 1 + 1) u i
        ∙ going_pos true r (omega (arith, length-IsUnit u)))
string_turn-IsChar r p (surrogates {hs = hs} {ls = ls} hq hv h i hq' hv' l j) =
    rw (hq, hv, hq', hv', append_assoc)
      (string_turn_escape (b'u' ∷ (hs ++ (b'\\' ∷ b'u' ∷ (ls ++ r)))) p
        ∙ escape_turn_u (hs ++ (b'\\' ∷ b'u' ∷ (ls ++ r))) (p + 1)
        ∙ unicode_escape_pair r (p + 1 + 1) h i l j
        ∙ going_pos true r
            (omega (arith, length-IsUnit h, length-IsUnit l, length-append hs (b'\\' ∷ b'u' ∷ ls))))

-- One turn of the loop.
pub scan_string-closed :
    (f : ℕ) (esc : Bool) (l : Lexer) {m : Lexer}
    → has 0 l ≡ true
    → string_turn l ≡ closed m
    → scan_string (suc f) esc l ≡ (esc, closed m)
unfolding scan_string
scan_string-closed f esc l h t = rw (scan_string, h, t)

pub scan_string_going :
    (f : ℕ) (esc : Bool) (l : Lexer) {e : Bool} {m : Lexer}
    → has 0 l ≡ true
    → string_turn l ≡ going e m
    → scan_string (suc f) esc l ≡ scan_string f (esc || e) m
unfolding scan_string
scan_string_going f esc l h t = rw (scan_string, h, t)

IsChar-has :
    {e : Bool} {cs : Bytes} (r : Bytes) (p : ℕ)
    → IsChar e cs
    → (has 0 (at (cs ++ r) p) ≡ true) × (0 < length cs)
IsChar-has r p (ascii _ _ _) = (refl, omega arith)
IsChar-has r p (two _ _) = (refl, omega arith)
IsChar-has r p (three _ _ _) = (refl, omega arith)
IsChar-has r p (four _ _ _ _) = (refl, omega arith)
IsChar-has r p (short _ _) = (refl, omega arith)
IsChar-has r p (code_unit _ _ _ _) = (refl, omega arith)
IsChar-has r p (surrogates _ _ _ _ _ _ _ _) = (refl, omega arith)

string_turn_quote : (r : Bytes) (p : ℕ) → string_turn (at (b'"' ∷ r) p) ≡ closed (at r (p + 1))
unfolding string_turn
string_turn_quote r p = refl

body_end :
    (a b : Bool) (r : Bytes) {p q : ℕ}
    → a ≡ b
    → p ≡ q
    → ◌≡◌ {A = Bool × Turn} (a, closed (at r p)) (b, closed (at r q))
body_end a b r h k = rw (h, k)

or_assoc : (a b c : Bool) → ((a || b) || c) ≡ (a || (b || c))
or_assoc a b c = ground arith

-- The loop reads a body up to its closing quote, on fuel for each of its bytes and one more.
scan_string-IsBody :
    {g : Bool} {s : Bytes} (r : Bytes) (p f : ℕ) (esc : Bool)
    → IsBody g s
    → length s < f
    → scan_string f esc (at (s ++ (b'"' ∷ r)) p) ≡ (esc || g, closed (at r (p + length s + 1)))
scan_string-IsBody r p zero esc b h = elim h [ ]
scan_string-IsBody r p (suc f) esc done h =
    scan_string-closed f esc _ refl (string_turn_quote r p)
    ∙ body_end _ _ r (ground arith) (omega arith)
scan_string-IsBody r p (suc f) esc (char {e} {f = g₂} {p = cs} {r = s₂} c b hg hs) h =
    let (there, size) = IsChar-has (s₂ ++ (b'"' ∷ r)) p c in
    let n = length-append cs s₂ in
    let total = ap length hs in
    rw (hg, hs, append_assoc)
      (scan_string_going f esc _ there (string_turn-IsChar (s₂ ++ (b'"' ∷ r)) p c)
        ∙ scan_string-IsBody r (p + length cs) f (esc || e) b (omega arith)
        ∙ body_end _ _ r (or_assoc esc e g₂) (omega arith))

abbrev pub string_at : Bool → Bytes → Bytes → ℕ → Token × Lexer
string_at g s r p = (
  record { start = s ++ (b'"' ∷ r); len = length s; type = string; has_escape = g },
  at r (p + length s + 1),
)

-- On the body of a string of RFC 8259 with a closing quote behind it, parse_string returns a
-- string token over exactly the body, flagged if it holds an escape, and the lexer stands behind
-- the quote.
pub parse_string_complete :
    {g : Bool} (s r : Bytes) (p : ℕ)
    → IsBody g s
    → parse_string (b'"' ∷ (s ++ (b'"' ∷ r))) (at (s ++ (b'"' ∷ r)) p) ≡ string_at g s r p
unfolding parse_string
parse_string_complete s r p b =
    let n = length-append s (b'"' ∷ r) in
    rw (scan_string-IsBody r p (suc (length (s ++ (b'"' ∷ r)))) false b (omega arith))
      (ground arith)
