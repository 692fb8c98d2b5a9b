-- ===== src/Sax/Steps.antt =====
-- src/parser/sax.c: what the tokens are before and after each step of jsonv_parse_sax.
use jsonv.Base.{
  ℕ, ◌+◌, ◌≡◌, ◌≢◌, ◌∙◌, refl, sym, ap, Bool, true, false, Option, none, some, List, [], ◌∷◌, ◌++◌,
  inl, inr, Bool-cases, take, if◌then◌else◌,
}
use jsonv.Token.{
  Bytes, TokenType, error, eof, colon, comma, brace_open, brace_close, bracket_open, bracket_close,
  string, number, null, true_lit, false_lit, Token, text,
}
use jsonv.Lexer.Cursor.{Lexer, is_space, skip, skip_whitespace}
use jsonv.Lexer.{token_from, lexer_next_token}
use jsonv.Parser.{is_leaf}
use jsonv.Parser.Build.{same_type}
use jsonv.Parser.Tokens.{Feed, Feed-next, in_front, in_front_token, same_type_iff}
use jsonv.Sax.{
  Callbacks, SaxParser, Outcome, accepted, refused, exhausted, and_then, answered, call, call_with,
  sax_next_token, sax_advance, separator, sax_key, sax_scalar,
}

-- The current token, of type t, and those that the lexer has yet to return are `ts`, up to `eof`.
pub record Ready (l : Lexer) (t : TokenType) (ts : List TokenType) : Type 0 where
  pub unread : List TokenType
  pub feed : Feed l unread
  pub split : ts ≡ in_front t unread

-- Skipping whitespace twice is skipping it once.
skip_twice :
    (test : ℕ → Bool) (cs : Bytes) (p : ℕ)
    → skip test (skip test cs p).rest (skip test cs p).current_pos ≡ skip test cs p
unfolding skip
skip_twice test [] p = refl
skip_twice test (c ∷ cs) p = elim (Bool-cases (test c)) [
  | inl space ↦ rw space (skip_twice test cs (p + 1))
  | inr other ↦ rw (other, skip, other) refl
]

pub lexer_next_token-skip : (l : Lexer) → lexer_next_token (skip_whitespace l) ≡ lexer_next_token l
unfolding lexer_next_token skip_whitespace
lexer_next_token-skip l = ap token_from (skip_twice is_space l.rest l.current_pos)

-- What stands in front of an item of a container.
abbrev pub lead : Bool → List TokenType
lead true = []
lead false = comma ∷ []

module _ {U : Type 0} where
  -- What stands in front of the parser.
  abbrev pub At : SaxParser U → List TokenType → Type 0
  At p ts = Ready p.lexer p.current_tok.type ts

  -- What holds of the parser if true is returned.
  abbrev pub Ends : (SaxParser U → Type 0) → Outcome U → Type 0
  Ends P (accepted p) = P p
  Ends P (refused p) = Unit
  Ends P exhausted = Unit

  pub and_then-Ends :
      (P Q : SaxParser U → Type 0) (r : Outcome U) (k : SaxParser U → Outcome U)
      → Ends P r
      → ((p : SaxParser U) → P p → Ends Q (k p))
      → Ends Q (and_then r k)
  and_then-Ends P Q (accepted p) k h g = g p h
  and_then-Ends P Q (refused p) k h g = tt
  and_then-Ends P Q exhausted k h g = tt

  abbrev pub Kept : SaxParser U → List TokenType → SaxParser U → Type 0
  Kept p ts q = (q.current_tok ≡ p.current_tok) × At q ts

  answered-Ends :
      (p : SaxParser U) (r : Bool × U) {ts : List TokenType}
      → At p ts
      → Ends (Kept p ts) (answered p r)
  answered-Ends p (true, u) w = (refl, w)
  answered-Ends p (false, u) w = tt

  -- A callback takes no token.
  pub call-Ends :
      (f : Option (U → Bool × U)) (p : SaxParser U) {ts : List TokenType}
      → At p ts
      → Ends (Kept p ts) (call f p)
  call-Ends none p w = (refl, w)
  call-Ends (some f) p w = answered-Ends p (f p.user_data) w

  pub call_with-Ends :
      {A : Type 0} (f : Option (A → U → Bool × U)) (a : A) (p : SaxParser U) {ts : List TokenType}
      → At p ts
      → Ends (Kept p ts) (call_with f a p)
  call_with-Ends none a p w = (refl, w)
  call_with-Ends (some f) a p w = answered-Ends p (f a p.user_data) w

  -- The tokens begin with `lead`, and the parser is behind it.
  abbrev pub Behind : List TokenType → List TokenType → SaxParser U → Type 0
  Behind lead ts q = (us : List TokenType) × (ts ≡ lead ++ us) × At q us

  fresh_token : (p : SaxParser U) {ts : List TokenType} → Feed p.lexer ts → At (sax_next_token p) ts
  unfolding sax_next_token
  fresh_token p f =
      let (b, g, split, _) = Feed-next f in
      rw (lexer_next_token-skip p.lexer) (record { unread = b; feed = g; split = split })

  -- The next token is read.
  pub advance-first :
      (p : SaxParser U) {ts : List TokenType}
      → Feed p.lexer ts
      → Ends (λ q. At q ts) (sax_advance p)
  unfolding sax_advance
  advance-first p f = elim (Bool-cases (same_type (sax_next_token p).current_tok.type error)) [
    | inl bad ↦ rw bad tt
    | inr good ↦ rw good (fresh_token p f)
  ]

  -- The current token is taken.
  pub advance-Ends :
      (t : TokenType) (p : SaxParser U) {ts : List TokenType}
      → p.current_tok.type ≡ t
      → t ≢ eof
      → At p ts
      → Ends (Behind (t ∷ []) ts) (sax_advance p)
  unfolding sax_advance
  advance-Ends t p {ts} e n w =
      let split : ts ≡ t ∷ w.unread =
        w.split
        ∙ in_front_token p.current_tok.type w.unread (λ k. n (sym e ∙ k))
        ∙ ap (λ x. x ∷ w.unread) e in
      elim (Bool-cases (same_type (sax_next_token p).current_tok.type error)) [
        | inl bad ↦ rw bad tt
        | inr good ↦ rw good (w.unread, split, fresh_token p w.feed)
      ]

  pub separator-Ends :
      (closing : TokenType) (first : Bool) (p : SaxParser U) {ts : List TokenType}
      → At p ts
      → Ends (Behind (lead first) ts) (separator closing first p)
  unfolding separator
  separator-Ends closing true p {ts} w = (ts, refl, w)
  separator-Ends closing false p {ts} w = elim (Bool-cases (same_type p.current_tok.type comma)) [
    | inr other ↦ rw other tt
    | inl same ↦ rw same (
        and_then-Ends (Behind (comma ∷ []) ts) (Behind (comma ∷ []) ts) (sax_advance p) _
          (advance-Ends comma p ((same_type_iff p.current_tok.type comma).0 same) (λ k. cc) w)
          (λ q b. elim (Bool-cases (same_type q.current_tok.type closing)) [
            | inl closed ↦ rw closed tt
            | inr more ↦ rw more b
          ]))
  ]

  pub Ends-map :
      (P Q : SaxParser U → Type 0) (r : Outcome U)
      → Ends P r
      → ((q : SaxParser U) → P q → Q q)
      → Ends Q r
  Ends-map P Q (accepted q) h g = g q h
  Ends-map P Q (refused q) h g = tt
  Ends-map P Q exhausted h g = tt

  colon-Ends :
      (p : SaxParser U) (us : List TokenType) {ts : List TokenType}
      → ts ≡ string ∷ us
      → At p us
      → Ends
          (Behind (string ∷ colon ∷ []) ts)
          (if same_type p.current_tok.type colon then sax_advance p else refused p)
  colon-Ends p us {ts} e w = elim (Bool-cases (same_type p.current_tok.type colon)) [
    | inr other ↦ rw other tt
    | inl same ↦ rw same (
        Ends-map (Behind (colon ∷ []) us) (Behind (string ∷ colon ∷ []) ts) (sax_advance p)
          (advance-Ends colon p ((same_type_iff p.current_tok.type colon).0 same) (λ k. cc) w)
          (λ q (vs, f, v). (vs, e ∙ ap (λ x. string ∷ x) f, v)))
  ]

  pub sax_key-Ends :
      (callbacks : Callbacks U) (p : SaxParser U) {ts : List TokenType}
      → At p ts
      → Ends (Behind (string ∷ colon ∷ []) ts) (sax_key callbacks p)
  unfolding sax_key
  sax_key-Ends callbacks p {ts} w = elim (Bool-cases (same_type p.current_tok.type string)) [
    | inr other ↦ rw other tt
    | inl same ↦ rw same (
        and_then-Ends (Kept p ts) (Behind (string ∷ colon ∷ []) ts) _ _
          (call_with-Ends callbacks.on_object_key (text p.current_tok) p w)
          (λ p₁ (kept, w₁).
            and_then-Ends (Behind (string ∷ []) ts) (Behind (string ∷ colon ∷ []) ts)
              (sax_advance p₁) _
              (advance-Ends string p₁
                (ap (λ (t : Token). t.type) kept ∙ (same_type_iff p.current_tok.type string).0 same)
                (λ k. cc) w₁)
              (λ p₂ (us, e, w₂). colon-Ends p₂ us e w₂)))
  ]

  -- A callback, and then the next token.
  pub taken :
      (t : TokenType) (p : SaxParser U) (r : Outcome U) (ts : List TokenType)
      → p.current_tok.type ≡ t
      → t ≢ eof
      → Ends (Kept p ts) r
      → Ends (Behind (t ∷ []) ts) (and_then r sax_advance)
  taken t p r ts e n h =
      and_then-Ends (Kept p ts) (Behind (t ∷ []) ts) r sax_advance h
        (λ q (kept, w). advance-Ends t q (ap (λ (x : Token). x.type) kept ∙ e) n w)

  scalar :
      (t : TokenType) (p : SaxParser U) (r : Outcome U) (ts : List TokenType)
      → p.current_tok.type ≡ t
      → t ≢ eof
      → is_leaf t ≡ true
      → Ends (Kept p ts) r
      → Ends (λ q. (is_leaf t ≡ true) × Behind (t ∷ []) ts q) (and_then r sax_advance)
  scalar t p r ts e n leaf h =
      Ends-map (Behind (t ∷ []) ts) (λ q. (is_leaf t ≡ true) × Behind (t ∷ []) ts q) _
        (taken t p r ts e n h) (λ q b. (leaf, b))

  -- The values of one token.
  pub sax_scalar-Ends :
      (callbacks : Callbacks U) (p : SaxParser U) {ts : List TokenType} (t : TokenType)
      → p.current_tok.type ≡ t
      → At p ts
      → Ends (λ q. (is_leaf t ≡ true) × Behind (t ∷ []) ts q) (sax_scalar callbacks t p)
  unfolding sax_scalar is_leaf same_type
  sax_scalar-Ends callbacks p {ts} null e w =
      scalar null p _ ts e (λ k. cc) refl (call-Ends callbacks.on_null p w)
  sax_scalar-Ends callbacks p {ts} true_lit e w =
      scalar true_lit p _ ts e (λ k. cc) refl (call_with-Ends callbacks.on_boolean true p w)
  sax_scalar-Ends callbacks p {ts} false_lit e w =
      scalar false_lit p _ ts e (λ k. cc) refl (call_with-Ends callbacks.on_boolean false p w)
  sax_scalar-Ends callbacks p {ts} number e w =
      scalar number p _ ts e (λ k. cc) refl
        (call_with-Ends callbacks.on_number (take p.token_len p.token_start) p w)
  sax_scalar-Ends callbacks p {ts} string e w =
      scalar string p _ ts e (λ k. cc) refl
        (call_with-Ends callbacks.on_string (text p.current_tok) p w)
  sax_scalar-Ends callbacks p {ts} error e w = tt
  sax_scalar-Ends callbacks p {ts} eof e w = tt
  sax_scalar-Ends callbacks p {ts} colon e w = tt
  sax_scalar-Ends callbacks p {ts} comma e w = tt
  sax_scalar-Ends callbacks p {ts} brace_open e w = tt
  sax_scalar-Ends callbacks p {ts} brace_close e w = tt
  sax_scalar-Ends callbacks p {ts} bracket_open e w = tt
  sax_scalar-Ends callbacks p {ts} bracket_close e w = tt
