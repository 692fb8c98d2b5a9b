-- ===== src/Sax/Fuel/Takes.antt =====
-- src/parser/sax.c: how much every step of jsonv_parse_sax takes.
use jsonv.Base.{
  ℕ, ◌+◌, ◌-◌, ◌≤◌, ◌<◌, ◌≡◌, ◌≢◌, ◌∙◌, refl, sym, ap, Bool, true, false, Option, none, some, arith,
  inl, inr, Bool-cases, if◌then◌else◌, length, take,
}
use jsonv.Token.{
  TokenType, error, eof, colon, comma, brace_open, brace_close, bracket_open, bracket_close, string,
  number, null, true_lit, false_lit, Token, text,
}
use jsonv.Lexer.{lexer_next_token}
use jsonv.Lexer.Progress.{lexer_next_token-Keeps}
use jsonv.Parser.Build.{same_type}
use jsonv.Parser.Tokens.{same_type_iff}
use jsonv.Sax.Steps.{lexer_next_token-skip}
use jsonv.Sax.{
  Callbacks, SaxParser, Outcome, accepted, refused, exhausted, and_then, answered, call, call_with,
  sax_next_token, sax_advance, separator, sax_key, sax_scalar,
}

-- A token that is not `eof` counts one.
abbrev pub one : TokenType → ℕ
one t = if same_type t eof then 0 else 1

pub not_eof : (t : TokenType) → t ≢ eof → same_type t eof ≡ false
unfolding same_type
not_eof t n = ground arith

module _ {U : Type 0} where
  -- The bytes that are left, and the current token.
  abbrev pub size : SaxParser U → ℕ
  size p = length p.lexer.rest + one p.current_tok.type

  -- The fuel is not exhausted, and P holds if true is returned.
  abbrev pub Total : (SaxParser U → Type 0) → Outcome U → Type 0
  Total P (accepted p) = P p
  Total P (refused p) = Unit
  Total P exhausted = ⊥

  pub and_then-Total :
      (P Q : SaxParser U → Type 0) (r : Outcome U) (k : SaxParser U → Outcome U)
      → Total P r
      → ((p : SaxParser U) → P p → Total Q (k p))
      → Total Q (and_then r k)
  and_then-Total P Q (accepted p) k h g = g p h
  and_then-Total P Q (refused p) k h g = tt
  and_then-Total P Q exhausted k h g = absurd h

  pub Total-map :
      (P Q : SaxParser U → Type 0) (r : Outcome U)
      → Total P r
      → ((q : SaxParser U) → P q → Q q)
      → Total Q r
  Total-map P Q (accepted q) h g = g q h
  Total-map P Q (refused q) h g = tt
  Total-map P Q exhausted h g = absurd h

  abbrev pub Same : SaxParser U → SaxParser U → Type 0
  Same p q = (q.current_tok ≡ p.current_tok) × (q.lexer ≡ p.lexer)

  pub answered-Total : (p : SaxParser U) (r : Bool × U) → Total (Same p) (answered p r)
  answered-Total p (true, u) = (refl, refl)
  answered-Total p (false, u) = tt

  pub call-Total : (f : Option (U → Bool × U)) (p : SaxParser U) → Total (Same p) (call f p)
  call-Total none p = (refl, refl)
  call-Total (some f) p = answered-Total p (f p.user_data)

  pub call_with-Total :
      {A : Type 0} (f : Option (A → U → Bool × U)) (a : A) (p : SaxParser U)
      → Total (Same p) (call_with f a p)
  call_with-Total none a p = (refl, refl)
  call_with-Total (some f) a p = answered-Total p (f a p.user_data)

  pub Same-size : (p q : SaxParser U) → Same p q → size q ≡ size p
  Same-size p q (e, f) = cc

  -- A token is no larger than the bytes that it takes.
  pub next-size : (p : SaxParser U) → size (sax_next_token p) ≤ length p.lexer.rest
  unfolding sax_next_token
  next-size p =
      let (keeps, forward) = lexer_next_token-Keeps p.lexer in
      rw (lexer_next_token-skip p.lexer)
        (elim (Bool-cases (same_type (lexer_next_token p.lexer).0.type eof)) [
          | inl e ↦ rw e (omega (arith, keeps.same_end, keeps.forward))
          | inr n ↦
              let d = forward (λ e. cc ((same_type_iff _ eof).1 e)) in
              rw n (omega (arith, keeps.same_end, d))
        ])

  pub advance-size : (p : SaxParser U) → Total (λ q. size q ≤ length p.lexer.rest) (sax_advance p)
  unfolding sax_advance
  advance-size p = elim (Bool-cases (same_type (sax_next_token p).current_tok.type error)) [
    | inl bad ↦ rw bad tt
    | inr good ↦ rw good (next-size p)
  ]

  -- Behind a token that is not `eof` less is left.
  pub advance-less :
      (p : SaxParser U) (n : ℕ)
      → p.current_tok.type ≢ eof
      → size p ≤ n
      → Total (λ q. size q < n) (sax_advance p)
  advance-less p n more h =
      let one_left : same_type p.current_tok.type eof ≡ false = not_eof p.current_tok.type more in
      Total-map (λ q. size q ≤ length p.lexer.rest) _ _ (advance-size p)
        (λ q i. omega (arith, i, rw one_left at h))

  abbrev pub Less : ℕ → SaxParser U → Type 0
  Less n q = size q < n

  abbrev pub AtMost : ℕ → SaxParser U → Type 0
  AtMost n q = size q ≤ n

  -- A callback and the token that it is about.
  pub taken-Less :
      (p : SaxParser U) (n : ℕ) (r : Outcome U)
      → p.current_tok.type ≢ eof
      → size p ≤ n
      → Total (Same p) r
      → Total (Less n) (and_then r sax_advance)
  taken-Less p n r more h kept = and_then-Total (Same p) (Less n) r sax_advance kept (λ q same.
      advance-less q n (λ e. more (sym (ap (λ (x : Token). x.type) same.0) ∙ e))
        (omega (arith, Same-size p q same)))

  pub separator-Total :
      (closing : TokenType) (first : Bool) (p : SaxParser U) (n : ℕ)
      → size p ≤ n
      → Total (AtMost n) (separator closing first p)
  unfolding separator
  separator-Total closing true p n h = h
  separator-Total closing false p n h = elim (Bool-cases (same_type p.current_tok.type comma)) [
    | inr other ↦ rw other tt
    | inl same ↦
        let e = (same_type_iff p.current_tok.type comma).0 same in
        rw same (
          and_then-Total (Less n) (AtMost n) (sax_advance p) _ (advance-less p n (λ k. cc) h)
            (λ q less. elim (Bool-cases (same_type q.current_tok.type closing)) [
              | inl closed ↦ rw closed tt
              | inr more ↦ rw more (omega (arith, less))
            ]))
  ]

  pub colon-Total :
      (p : SaxParser U) (n : ℕ)
      → size p ≤ n
      → Total (AtMost n) (if same_type p.current_tok.type colon then sax_advance p else refused p)
  colon-Total p n h = elim (Bool-cases (same_type p.current_tok.type colon)) [
    | inr other ↦ rw other tt
    | inl same ↦
        let e = (same_type_iff p.current_tok.type colon).0 same in
        rw same
          (Total-map (Less n) (AtMost n) _ (advance-less p n (λ k. cc) h) (λ q i. omega (arith, i)))
  ]

  pub sax_key-Total :
      (callbacks : Callbacks U) (p : SaxParser U) (n : ℕ)
      → size p ≤ n
      → Total (AtMost n) (sax_key callbacks p)
  unfolding sax_key
  sax_key-Total callbacks p n h = elim (Bool-cases (same_type p.current_tok.type string)) [
    | inr other ↦ rw other tt
    | inl same ↦
        let e = (same_type_iff p.current_tok.type string).0 same in
        rw same (
          and_then-Total (Same p) (AtMost n) _ _
            (call_with-Total callbacks.on_object_key (text p.current_tok) p)
            (λ p₁ kept.
              and_then-Total (Less n) (AtMost n) (sax_advance p₁) _
                (advance-less p₁ n (λ k. cc (ap (λ (x : Token). x.type) kept.0))
                  (omega (arith, Same-size p p₁ kept)))
                (λ p₂ less. colon-Total p₂ n (omega (arith, less)))))
  ]

  pub sax_scalar-Total :
      (callbacks : Callbacks U) (p : SaxParser U) (n : ℕ) (t : TokenType)
      → p.current_tok.type ≡ t
      → size p ≤ n
      → Total (Less n) (sax_scalar callbacks t p)
  unfolding sax_scalar
  sax_scalar-Total callbacks p n null e h =
      taken-Less p n _ (λ k. cc) h (call-Total callbacks.on_null p)
  sax_scalar-Total callbacks p n true_lit e h =
      taken-Less p n _ (λ k. cc) h (call_with-Total callbacks.on_boolean true p)
  sax_scalar-Total callbacks p n false_lit e h =
      taken-Less p n _ (λ k. cc) h (call_with-Total callbacks.on_boolean false p)
  sax_scalar-Total callbacks p n number e h =
      taken-Less p n _ (λ k. cc) h
        (call_with-Total callbacks.on_number (take p.token_len p.token_start) p)
  sax_scalar-Total callbacks p n string e h =
      taken-Less p n _ (λ k. cc) h (call_with-Total callbacks.on_string (text p.current_tok) p)
  sax_scalar-Total callbacks p n error e h = tt
  sax_scalar-Total callbacks p n eof e h = tt
  sax_scalar-Total callbacks p n colon e h = tt
  sax_scalar-Total callbacks p n comma e h = tt
  sax_scalar-Total callbacks p n brace_open e h = tt
  sax_scalar-Total callbacks p n brace_close e h = tt
  sax_scalar-Total callbacks p n bracket_open e h = tt
  sax_scalar-Total callbacks p n bracket_close e h = tt

  -- The items of a container, and its closing token in front.
  abbrev pub Closing : TokenType → ℕ → SaxParser U → Type 0
  Closing closing n q = (q.current_tok.type ≡ closing) × (size q ≤ n)

  -- A container whose items have fuel enough.
  pub container-Total :
      (opening closing : TokenType) (on_begin on_end : Option (U → Bool × U))
      (items : SaxParser U → Outcome U) (p : SaxParser U) (n : ℕ)
      → opening ≢ eof
      → closing ≢ eof
      → p.current_tok.type ≡ opening
      → size p ≤ n
      → ((q : SaxParser U) → size q < n → Total (Closing closing (n - 1)) (items q))
      → Total (Less n) (
          and_then (call on_begin p) (λ p₁.
            and_then
              (sax_advance p₁)
              (λ p₂. and_then (items p₂) (λ p₃. and_then (call on_end p₃) sax_advance))))
  container-Total opening closing on_begin on_end items p n open_ne close_ne e h inner =
      and_then-Total (Same p) (Less n) (call on_begin p) _ (call-Total on_begin p) (λ p₁ kept.
        and_then-Total (Less n) (Less n) (sax_advance p₁) _
          (advance-less p₁ n (λ k. open_ne (sym e ∙ sym (ap (λ (x : Token). x.type) kept.0) ∙ k))
            (omega (arith, Same-size p p₁ kept)))
          (λ p₂ less.
            and_then-Total (Closing closing (n - 1)) (Less n) (items p₂) _ (inner p₂ less)
              (λ p₃ (c, i).
                taken-Less p₃ n (call on_end p₃) (λ k. close_ne (sym c ∙ k)) (omega (arith, i))
                  (call-Total on_end p₃))))
