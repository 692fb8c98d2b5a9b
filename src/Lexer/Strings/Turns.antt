-- ===== src/Lexer/Strings/Turns.antt =====
-- src/parser/lexer.c: what one turn of parse_string's loop reads is one character of RFC 8259.
mod Units
use jsonv.Base.{
  ℕ, suc, ◌+◌, ◌<◌, ◌≡◌, ◌≢◌, refl, Bool, true, ◌&&◌, [], ◌∷◌, ◌++◌, ◌==◌, arith, Bool-cases, inl,
  inr, leb, ltb, if◌then◌else◌,
}
use jsonv.Token.{Bytes}
use jsonv.Lexer.Cursor.{Lexer, advance, has, peek, next_is, within, is_hex_digit}
use jsonv.Lexer.Reads.{Reads, Reads-trans}
use jsonv.Lexer.Strings.{
  Turn, closed, failed, going, Hex, at_hex, decide_unit, hex_ok, hex_bad, hex_value, read_hex,
  push_hex, low_surrogate, unicode_escape, is_short_escape, escape_turn, second_of_three,
  second_of_four, two_bytes, three_bytes, four_bytes, utf8_turn, string_turn, is_high, is_low,
  is_tail,
}
use jsonv.Lexer.Strings.Grammar.{
  In, IsUnit, unit, IsChar, ascii, two, three, four, short, code_unit, surrogates,
}
pub use jsonv.Lexer.Strings.Turns.Units.{at}
use jsonv.Lexer.Strings.Turns.Units.{
  Found, Found-going, two_bytes-Found, three_bytes-Found, four_bytes-Found, utf8_turn-Found,
  read_hex-step, hex_value-lt, read_hex-four, read_hex-IsUnit, at_hex_going,
}

-- What `low_surrogate` read.
record LowSurrogate (l : Lexer) (e : Bool) (m : Lexer) : Type 0 where
  q : ℕ
  v : ℕ
  low : ℕ
  ls : Bytes
  backslash : q ≡ b'\\'
  letter : v ≡ b'u'
  four_digits : IsUnit low ls
  in_range : In 0xDC00 0xDFFF low
  reads : Reads l (q ∷ v ∷ ls) m
  escape : e ≡ true

low_surrogate-lem :
    (cs : Bytes) (p : ℕ) {e : Bool} {m : Lexer}
    → low_surrogate (at cs p) ≡ going e m
    → LowSurrogate (at cs p) e m
unfolding low_surrogate
low_surrogate-lem (q ∷ v ∷ a ∷ b ∷ c ∷ d ∷ r) p {e} {m} h =
    elim (Bool-cases (q == b'\\' && v == b'u')) [
      | inr fails ↦ absurd (ground arith)
      | inl passes ↦
          let l = at (q ∷ v ∷ a ∷ b ∷ c ∷ d ∷ r) p in
          let (low, n, four_, k) =
            at_hex_going (read_hex 4 0 (at (a ∷ b ∷ c ∷ d ∷ r) (p + 2)))
              (λ u₂ l₂. if is_low u₂ then going true (advance 6 l) else failed l) (λ _. l)
              (rw passes at h) in
          let ok = (read_hex-four a b c d low r (p + 2) four_).0 in
          let same : m ≡ at r (p + 6) = ground arith in
          record {
            q = q;
            v = v;
            low = low;
            ls = a ∷ b ∷ c ∷ d ∷ [];
            backslash = ground arith;
            letter = ground arith;
            four_digits = ok;
            in_range = ground arith;
            reads = rw same (record { split = refl; position = omega arith });
            escape = ground arith;
          }
    ]
low_surrogate-lem _ p h = absurd (ground arith)

two-Reads :
    (q v : ℕ) (cs : Bytes) (p : ℕ) → Reads (at (q ∷ v ∷ cs) p) (q ∷ v ∷ []) (at cs (p + 1 + 1))
two-Reads q v cs p = record { split = refl; position = omega arith }

surrogates-Found :
    (q v : ℕ) (cs : Bytes) (p : ℕ) {u : ℕ} {ds : Bytes} {l : Lexer} {e : Bool} {m : Lexer}
    → q ≡ b'\\'
    → v ≡ b'u'
    → Reads (at cs (p + 1 + 1)) ds l
    → IsUnit u ds
    → is_high u ≡ true
    → low_surrogate l ≡ going e m
    → Found e (at (q ∷ v ∷ cs) p) m
surrogates-Found q v cs p {u} {ds} {l} {e} {m} hq hv r ok high h =
    let w = low_surrogate-lem l.rest l.current_pos h in
    let tail = w.q ∷ w.v ∷ w.ls in
    let whole =
      Reads-trans (q ∷ v ∷ []) (ds ++ tail) (two-Reads q v cs p) (Reads-trans ds tail r w.reads) in
    rw w.escape (
      q ∷ v ∷ (ds ++ tail),
      whole,
      surrogates hq hv ok (ground arith) w.backslash w.letter w.four_digits w.in_range,
    )

unicode_escape-Found :
    (q v : ℕ) (cs : Bytes) (p : ℕ) {e : Bool} {m : Lexer}
    → q ≡ b'\\'
    → v ≡ b'u'
    → unicode_escape (at cs (p + 1 + 1)) ≡ going e m
    → Found e (at (q ∷ v ∷ cs) p) m
unfolding unicode_escape
unicode_escape-Found q v cs p {e} {m} hq hv h =
    let (u, l, x, k) = at_hex_going (read_hex 4 0 (at cs (p + 1 + 1))) decide_unit (λ l. l) h in
    let (ds, r, ok) = read_hex-IsUnit cs (p + 1 + 1) x in
    elim (Bool-cases (is_high u)) [
      | inl high ↦ surrogates-Found q v cs p hq hv r ok high (rw high at k)
      | inr not_high ↦ elim (Bool-cases (is_low u)) [
        | inl low ↦ cc (rw (not_high, low) at k)
        | inr not_low ↦ Found-going (rw (not_high, not_low) at k) (
          q ∷ v ∷ ds,
          Reads-trans (q ∷ v ∷ []) ds (two-Reads q v cs p) r,
          code_unit hq hv ok (ground arith),
        )
      ]
    ]

escape_turn-Found :
    (q : ℕ) (cs : Bytes) (p : ℕ) {e : Bool} {m : Lexer}
    → q ≡ b'\\'
    → escape_turn (at cs (p + 1)) ≡ going e m
    → Found e (at (q ∷ cs) p) m
unfolding escape_turn
escape_turn-Found q [] p hq h = cc
escape_turn-Found q (x ∷ cs) p hq h = elim (Bool-cases (is_short_escape x)) [
  | inl ok ↦ Found-going (rw ok at h) (q ∷ x ∷ [], two-Reads q x cs p, short hq ok)
  | inr no_short ↦ elim (Bool-cases (x == b'u')) [
    | inl letter ↦ unicode_escape-Found q x cs p hq (ground arith) (rw (no_short, letter) at h)
    | inr other ↦ cc (rw (no_short, other) at h)
  ]
]

pub string_turn-Found :
    (cs : Bytes) (p : ℕ) {e : Bool} {m : Lexer}
    → has 0 (at cs p) ≡ true
    → string_turn (at cs p) ≡ going e m
    → Found e (at cs p) m
unfolding string_turn
string_turn-Found [] p n h = cc
string_turn-Found (c ∷ cs) p n h = elim (Bool-cases (c == b'"')) [
  | inl quote ↦ cc (rw quote at h)
  | inr q ↦ elim (Bool-cases (c == b'\\')) [
    | inl b ↦ escape_turn-Found c cs p (ground arith) (rw (q, b) at h)
    | inr b ↦ utf8_turn-Found c cs p (ground arith) (ground arith) (rw (q, b) at h)
  ]
]

escape_turn-ne-closed : (l : Lexer) {m : Lexer} → escape_turn l ≢ closed m
unfolding escape_turn unicode_escape low_surrogate
escape_turn-ne-closed l h = ground arith

utf8_turn-ne-closed : (c : ℕ) (l : Lexer) {m : Lexer} → utf8_turn c l ≢ closed m
unfolding utf8_turn two_bytes three_bytes four_bytes
utf8_turn-ne-closed c l h = ground arith

pub string_turn-closed :
    (cs : Bytes) (p : ℕ) {m : Lexer}
    → has 0 (at cs p) ≡ true
    → string_turn (at cs p) ≡ closed m
    → Reads (at cs p) (b'"' ∷ []) m
unfolding string_turn
string_turn-closed [] p n h = cc
string_turn-closed (c ∷ cs) p {m} n h = elim (Bool-cases (c == b'"')) [
  | inl quote ↦
      let same : m ≡ at cs (p + 1) = ground arith in
      let byte : c ≡ b'"' = ground arith in
      rw (same, byte) (record { split = refl; position = omega arith })
  | inr q ↦ elim (Bool-cases (c == b'\\')) [
    | inl b ↦ absurd (escape_turn-ne-closed _ (rw (q, b) at h))
    | inr b ↦ absurd (utf8_turn-ne-closed c _ (rw (q, b) at h))
  ]
]
