-- ===== src/Prescan/Strings.antt =====
-- src/parser/prescan.c: prescan leaves a string where the lexer does, at the first quote that no
-- escape stands in front of.
use mathlib.Core.List.{append_assoc}
use mathlib.Core.Path.{subst}
use jsonv.Base.{
  ℕ, ◌+◌, ◌≤◌, ◌≡◌, ◌≢◌, ◌∙◌, refl, sym, ap, Bool, true, false, [], ◌∷◌, ◌++◌, length,
  length-append, arith,
}
use jsonv.Token.{Bytes}
use jsonv.Lexer.Cursor.{is_hex_digit}
use jsonv.Lexer.Strings.Grammar.{
  IsUnit, unit, IsChar, ascii, two, three, four, short, code_unit, surrogates, IsBody, done, char,
}
use jsonv.Prescan.{
  JsonEstimate, Scan, one_value, one_byte, scan_string_byte, scan_byte, scan_step, scan_loop,
}

-- In a string, behind no backslash, and outside one.
abbrev pub inside : JsonEstimate → Scan
inside e = record { in_string = true; escape = false; out = e }

abbrev pub outside : JsonEstimate → Scan
outside e = record { in_string = false; escape = false; out = e }

abbrev pub more_bytes : ℕ → JsonEstimate → JsonEstimate
more_bytes k e = record e { string_bytes = e.string_bytes + k }

-- Over the bytes `p` the scan stays in the string and counts some of them.
record Stays (p : Bytes) : Type 0 where
  k : ℕ
  bound : k ≤ length p
  scans :
      (r : Bytes) (e : JsonEstimate)
      → scan_loop (p ++ r) (inside e) ≡ scan_loop r (inside (more_bytes k e))

abbrev IsPlain : ℕ → Type 0
IsPlain c = (c ≢ b'"') × (c ≢ b'\\')

plain_step : (c : ℕ) (e : JsonEstimate) → IsPlain c → scan_step c (inside e) ≡ inside (one_byte e)
unfolding scan_step scan_string_byte
plain_step c e (q, b) = ground (arith, q, b)

escape_steps :
    (c d : ℕ) (e : JsonEstimate)
    → c ≡ b'\\'
    → scan_step d (scan_step c (inside e)) ≡ inside (one_byte e)
unfolding scan_step scan_string_byte
escape_steps c d e h = rw h refl

Stays-nil : Stays []
Stays-nil = record {
  k = 0;
  bound = omega arith;
  scans = λ r e.
      ap (λ (n : ℕ). scan_loop r (inside (record e { string_bytes = n }))) {x = e.string_bytes}
        {y = e.string_bytes + 0} (omega arith);
}

Stays-append : {p q : Bytes} → Stays p → Stays q → Stays (p ++ q)
Stays-append {p} {q} h m = record {
  k = h.k + m.k;
  bound = omega (arith, h.bound, m.bound, length-append p q);
  scans = λ r e.
      ap (λ t. scan_loop t (inside e)) (append_assoc p q r)
      ∙ h.scans (q ++ r) e
      ∙ m.scans r (more_bytes h.k e)
      ∙ ap (λ (n : ℕ). scan_loop r (inside (record e { string_bytes = n })))
          {x = e.string_bytes + h.k + m.k} {y = e.string_bytes + (h.k + m.k)} (omega arith);
}

plain : {c : ℕ} → IsPlain c → Stays (c ∷ [])
unfolding scan_loop
plain {c} p = record {
  k = 1;
  bound = omega arith;
  scans = λ r e. ap (scan_loop r) (plain_step c e p);
}

escaped : {c d : ℕ} → c ≡ b'\\' → Stays (c ∷ d ∷ [])
unfolding scan_loop
escaped {c} {d} h = record {
  k = 1;
  bound = omega arith;
  scans = λ r e. ap (scan_loop r) (escape_steps c d e h);
}

hex-IsPlain : {c : ℕ} → is_hex_digit c ≡ true → IsPlain c
unfolding is_hex_digit
hex-IsPlain {c} h = ground arith

unit-Stays : {u : ℕ} {ds : Bytes} → IsUnit u ds → Stays ds
unit-Stays (unit a b c d e) = Stays-append (plain (hex-IsPlain a)) (
    Stays-append (plain (hex-IsPlain b))
      (Stays-append (plain (hex-IsPlain c)) (plain (hex-IsPlain d))))

char-Stays : {f : Bool} {p : Bytes} → IsChar f p → Stays p
char-Stays (ascii c q b) = plain (q, b)
char-Stays (two c b) = Stays-append (plain (omega arith)) (plain (omega arith))
char-Stays (three c b d) =
    Stays-append (plain (omega arith))
      (Stays-append (plain (omega (arith, b.0))) (plain (omega arith)))
char-Stays (four c b d e) = Stays-append (plain (omega arith)) (
    Stays-append (plain (omega (arith, b.0)))
      (Stays-append (plain (omega arith)) (plain (omega arith))))
char-Stays (short q e) = escaped q
char-Stays (code_unit q v u w) = Stays-append (escaped q) (unit-Stays u)
char-Stays (surrogates q v u w q' v' u' w') =
    Stays-append (escaped q)
      (Stays-append (unit-Stays u) (Stays-append (escaped q') (unit-Stays u')))

body-Stays : {f : Bool} {p : Bytes} → IsBody f p → Stays p
body-Stays done = Stays-nil
body-Stays (char c b g s) = subst Stays (sym s) (Stays-append (char-Stays c) (body-Stays b))

-- From the quote that opens a string of the lexer's grammar, prescan comes behind the quote that
-- closes it: it has counted one value and at most the bytes of the string.
pub scan_loop-string :
    (f : Bool) (body rest : Bytes) (e : JsonEstimate)
    → IsBody f body
    → (k : ℕ) × (k ≤ length body)
      × (scan_loop (b'"' ∷ (body ++ (b'"' ∷ rest))) (outside e)
          ≡ scan_loop rest (outside (one_value (more_bytes k e))))
unfolding scan_loop scan_step scan_byte scan_string_byte
scan_loop-string f body rest e h = let s = body-Stays h in (s.k, s.bound, s.scans (b'"' ∷ rest) e)
