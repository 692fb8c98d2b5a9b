-- ===== src/Lexer/Strings/Sound.antt =====
-- src/parser/lexer.c: every string token that parse_string returns is a string of RFC 8259.
use mathlib.Core.List.{append_assoc}
use jsonv.Base.{
  ℕ, zero, suc, ◌-◌, ◌≡◌, refl, ◌∙◌, Bool, true, false, ◌||◌, [], ◌∷◌, ◌++◌, arith, take, length,
  length-append, take-append, inl, inr, Bool-cases,
}
use jsonv.Token.{Bytes, string, text}
use jsonv.Lexer.Cursor.{Lexer, has}
use jsonv.Lexer.Reads.{Reads, Reads-trans}
use jsonv.Lexer.Strings.{
  Turn, closed, failed, going, string_turn, scan_string, string_token, parse_string,
}
use jsonv.Lexer.Strings.Grammar.{IsBody, done, char}
use jsonv.Lexer.Strings.Turns.{at, string_turn-Found, string_turn-closed}

-- The two ways in which a round of the loop leads to a closing quote.
data Round (f : ℕ) (esc : Bool) (l : Lexer) (g : Bool) (m : Lexer) : Type 0 where
  last : string_turn l ≡ closed m → g ≡ esc → Round f esc l g m
  more :
      {e : Bool} {n : Lexer}
      → string_turn l ≡ going e n
      → scan_string f (esc || e) n ≡ (g, closed m)
      → Round f esc l g m

Round-at :
    (f : ℕ) (esc g : Bool) (l m : Lexer) (t : Turn)
    → string_turn l ≡ t
    → scan_string (suc f) esc l ≡ (g, closed m)
    → has 0 l ≡ true
    → Round f esc l g m
unfolding scan_string
Round-at f esc g l m (closed n) e h there =
    let k : ◌≡◌ {A = Bool × Turn} (esc, closed n) (g, closed m) = rw (scan_string, there, e) at h in
    last (ground arith) (ground arith)
Round-at f esc g l m (failed n) e h there =
    let k : ◌≡◌ {A = Bool × Turn} (esc, failed n) (g, closed m) = rw (scan_string, there, e) at h in
    absurd (ground arith)
Round-at f esc g l m (going x n) e h there = more e (rw (scan_string, there, e) at h)

scan_string-Round :
    (f : ℕ) (esc g : Bool) (l m : Lexer)
    → scan_string (suc f) esc l ≡ (g, closed m)
    → (has 0 l ≡ true) × Round f esc l g m
unfolding scan_string
scan_string-Round f esc g l m h = elim (Bool-cases (has 0 l)) [
  | inl there ↦ (there, Round-at f esc g l m (string_turn l) refl h there)
  | inr empty ↦
      let k : ◌≡◌ {A = Bool × Turn} (esc, failed l) (g, closed m) = rw (scan_string, empty) at h in
      absurd (ground arith)
]

-- What the loop read up to the closing quote.
record Body (esc : Bool) (l : Lexer) (g : Bool) (m : Lexer) : Type 0 where
  body : Bytes
  escaped : Bool
  is_body : IsBody escaped body
  flag : g ≡ (esc || escaped)
  reads : Reads l (body ++ b'"' ∷ []) m

scan_string-Body :
    (f : ℕ) (esc g : Bool) (l m : Lexer) → scan_string f esc l ≡ (g, closed m) → Body esc l g m
unfolding scan_string
scan_string-Body zero esc g l m h = absurd (ground arith)
scan_string-Body (suc f) esc g l m h =
    let (there, round) = scan_string-Round f esc g l m h in
    elim round [
      | last t e ↦ record {
        body = [];
        escaped = false;
        is_body = done;
        flag = ground arith;
        reads = string_turn-closed l.rest l.current_pos there t;
      }
      | more {e = x} {n} t k ↦
          let rest = scan_string-Body f (esc || x) g n m k in
          let (cs, r, c) = string_turn-Found l.rest l.current_pos there t in
          record {
            body = cs ++ rest.body;
            escaped = x || rest.escaped;
            is_body = char c rest.is_body refl refl;
            flag = rest.flag ∙ ground arith;
            reads = rw append_assoc (Reads-trans cs (rest.body ++ b'"' ∷ []) r rest.reads);
          }
    ]

-- Where parse_string returns a string token, the token's text is the body of a string of RFC
-- 8259, flagged exactly if it holds an escape, and the lexer stands behind the closing quote.
pub parse_string-IsBody :
    (q : ℕ) (cs : Bytes) (p : ℕ)
    → (parse_string (q ∷ cs) (at cs p)).0.type ≡ string
    → IsBody
        (parse_string (q ∷ cs) (at cs p)).0.has_escape
        (text (parse_string (q ∷ cs) (at cs p)).0)
      × Reads
          (at cs p)
          (text (parse_string (q ∷ cs) (at cs p)).0 ++ b'"' ∷ [])
          (parse_string (q ∷ cs) (at cs p)).1
unfolding parse_string
parse_string-IsBody q cs p h = go _ refl h
  where
    go :
        (x : Bool × Turn)
        → scan_string (suc (length cs)) false (at cs p) ≡ x
        → (string_token (q ∷ cs) p x).0.type ≡ string
        → IsBody (string_token (q ∷ cs) p x).0.has_escape (text (string_token (q ∷ cs) p x).0)
          × Reads
              (at cs p)
              (text (string_token (q ∷ cs) p x).0 ++ b'"' ∷ [])
              (string_token (q ∷ cs) p x).1
    go (g, failed m) e k = cc
    go (g, going b m) e k = cc
    go (g, closed m) e k =
        let b = scan_string-Body (suc (length cs)) false g (at cs p) m e in
        let flag : g ≡ b.escaped = b.flag in
        let split : cs ≡ b.body ++ (b'"' ∷ m.rest) = rw append_assoc at b.reads.split in
        let n : m.current_pos - p - 1 ≡ length b.body =
          omega (arith, b.reads.position, length-append b.body (b'"' ∷ [])) in
        let t : take (m.current_pos - p - 1) cs ≡ b.body =
          rw (n, split) (take-append b.body (b'"' ∷ m.rest)) in
        rw (t, flag) (b.is_body, b.reads)
