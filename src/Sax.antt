-- ===== src/Sax.antt =====
-- src/parser/sax.c and include/sax.h: the event parser, jsonv_parse_sax. The state that the callbacks
-- share, `user_data`, is a parameter, and so are they; a null table of callbacks is one of null
-- entries. The recursion is on fuel, and so is the while loop of a container.

pub mod Steps
pub mod Containers
pub mod Sound
pub mod Fuel
use jsonv.Base.{
  ℕ, zero, suc, ◌+◌, ◌-◌, ◌*◌, Bool, true, false, ◌&&◌, Option, none, some, List, [], ◌∷◌, ltb,
  ◌==◌, take, length, if◌then◌else◌,
}
use jsonv.Token.{
  Bytes, TokenType, error, eof, colon, comma, brace_open, brace_close, bracket_open, bracket_close,
  string, number, null, true_lit, false_lit, Token, text,
}
use jsonv.Lexer.Cursor.{Lexer, skip_whitespace}
use jsonv.Lexer.{lexer_init, lexer_next_token}
use jsonv.Parser.Build.{same_type}

-- `jsonv_sax_callbacks`: each is null, or changes `user_data` and says whether to go on.
pub record Callbacks (U : Type 0) : Type 0 where
  pub on_begin_object : Option (U → Bool × U)
  pub on_end_object : Option (U → Bool × U)
  pub on_begin_array : Option (U → Bool × U)
  pub on_end_array : Option (U → Bool × U)
  pub on_object_key : Option (Bytes → U → Bool × U)
  pub on_string : Option (Bytes → U → Bool × U)
  pub on_number : Option (Bytes → U → Bool × U)
  pub on_boolean : Option (Bool → U → Bool × U)
  pub on_null : Option (U → Bool × U)

-- `SaxParser`, with `user_data`; `token_len` is `token_end - token_start`.
pub record SaxParser (U : Type 0) : Type 0 where
  pub lexer : Lexer
  pub current_tok : Token
  pub token_start : Bytes
  pub token_len : ℕ
  pub user_data : U

-- What a function returns: true, false, or the end of the fuel.
pub data Outcome (U : Type 0) : Type 0 where
  accepted refused : SaxParser U → Outcome U
  exhausted : Outcome U

abbrev pub max_sax_depth : ℕ
max_sax_depth = 64

abbrev pub no_token : Token
no_token = record { start = []; len = 0; type = eof; has_escape = false }

-- Three calls for each byte, and those around the first value.
unfoldable pub sax_fuel : Bytes → ℕ
sax_fuel buffer = 3 * length buffer + 8

module _ {U : Type 0} where
  -- `if (!…) return false;`
  abbrev pub and_then : Outcome U → (SaxParser U → Outcome U) → Outcome U
  and_then (accepted p) k = k p
  and_then (refused p) k = refused p
  and_then exhausted k = exhausted

  abbrev pub answered : SaxParser U → Bool × U → Outcome U
  answered p (ok, u) = let q = record p { user_data = u } in if ok then accepted q else refused q

  abbrev pub call : Option (U → Bool × U) → SaxParser U → Outcome U
  call none p = accepted p
  call (some f) p = answered p (f p.user_data)

  abbrev pub call_with : {A : Type 0} → Option (A → U → Bool × U) → A → SaxParser U → Outcome U
  call_with none a p = accepted p
  call_with (some f) a p = answered p (f a p.user_data)

  -- sax_next_token, its token and the two pointers put in place
  unfoldable pub sax_next_token : SaxParser U → SaxParser U
  sax_next_token p =
      let l = skip_whitespace p.lexer in
      let (t, m) = lexer_next_token l in
      record p {
        lexer = m;
        current_tok = t;
        token_start = l.rest;
        token_len = m.current_pos - l.current_pos;
      }

  unfoldable pub sax_advance : SaxParser U → Outcome U
  sax_advance p =
      let q = sax_next_token p in
      if same_type q.current_tok.type error then refused q else accepted q

  -- A comma, and no closing token behind it, in front of all but the first.
  unfoldable pub separator : TokenType → Bool → SaxParser U → Outcome U
  separator closing first p =
      if first
      then accepted p
      else if same_type p.current_tok.type comma
      then and_then (sax_advance p)
          (λ q. if same_type q.current_tok.type closing then refused q else accepted q)
      else refused p

  -- The key of a pair and its colon.
  unfoldable pub sax_key : Callbacks U → SaxParser U → Outcome U
  sax_key callbacks p =
      if same_type p.current_tok.type string
      then and_then (call_with callbacks.on_object_key (text p.current_tok) p) (λ p₁.
        and_then (sax_advance p₁)
          (λ p₂. if same_type p₂.current_tok.type colon then sax_advance p₂ else refused p₂))
      else refused p

  -- The values that are one token.
  unfoldable pub sax_scalar : Callbacks U → TokenType → SaxParser U → Outcome U
  sax_scalar callbacks null p = and_then (call callbacks.on_null p) sax_advance
  sax_scalar callbacks true_lit p = and_then (call_with callbacks.on_boolean true p) sax_advance
  sax_scalar callbacks false_lit p = and_then (call_with callbacks.on_boolean false p) sax_advance
  sax_scalar callbacks number p =
      and_then (call_with callbacks.on_number (take p.token_len p.token_start) p) sax_advance
  sax_scalar callbacks string p =
      and_then (call_with callbacks.on_string (text p.current_tok) p) sax_advance
  sax_scalar callbacks _ p = refused p

  unfoldable mutual
    pub sax_parse_value : ℕ → Callbacks U → ℕ → SaxParser U → Outcome U
    sax_parse_value zero callbacks depth p = exhausted
    sax_parse_value (suc f) callbacks depth p = elim (ltb max_sax_depth depth) [
      | true ↦ refused p
      | false ↦ elim (same_type p.current_tok.type brace_open) [
        | true ↦ sax_parse_object f callbacks depth p
        | false ↦ elim (same_type p.current_tok.type bracket_open) [
          | true ↦ sax_parse_array f callbacks depth p
          | false ↦ sax_scalar callbacks p.current_tok.type p
        ]
      ]
    ]

    pub sax_parse_object : ℕ → Callbacks U → ℕ → SaxParser U → Outcome U
    sax_parse_object zero callbacks depth p = exhausted
    sax_parse_object (suc f) callbacks depth p = and_then (call callbacks.on_begin_object p) (λ p₁.
        and_then (sax_advance p₁) (λ p₂.
          and_then (sax_members f callbacks true depth p₂)
            (λ p₃. and_then (call callbacks.on_end_object p₃) sax_advance)))

    -- the while loop of sax_parse_object
    pub sax_members : ℕ → Callbacks U → Bool → ℕ → SaxParser U → Outcome U
    sax_members zero callbacks first depth p = exhausted
    sax_members (suc f) callbacks first depth p = elim (same_type p.current_tok.type brace_close) [
      | true ↦ accepted p
      | false ↦ and_then (separator brace_close first p) (λ p₁.
          and_then (sax_key callbacks p₁) (λ p₂.
            and_then (sax_parse_value f callbacks (depth + 1) p₂)
              (λ p₃. sax_members f callbacks false depth p₃)))
    ]

    pub sax_parse_array : ℕ → Callbacks U → ℕ → SaxParser U → Outcome U
    sax_parse_array zero callbacks depth p = exhausted
    sax_parse_array (suc f) callbacks depth p = and_then (call callbacks.on_begin_array p) (λ p₁.
        and_then (sax_advance p₁) (λ p₂.
          and_then (sax_elements f callbacks true depth p₂)
            (λ p₃. and_then (call callbacks.on_end_array p₃) sax_advance)))

    -- the while loop of sax_parse_array
    pub sax_elements : ℕ → Callbacks U → Bool → ℕ → SaxParser U → Outcome U
    sax_elements zero callbacks first depth p = exhausted
    sax_elements (suc f) callbacks first depth p =
        elim (same_type p.current_tok.type bracket_close) [
          | true ↦ accepted p
          | false ↦ and_then (separator bracket_close first p) (λ p₁.
              and_then (sax_parse_value f callbacks (depth + 1) p₁)
                (λ p₂. sax_elements f callbacks false depth p₂))
        ]

  -- The end of the input behind the value.
  unfoldable pub sax_end : SaxParser U → Outcome U
  sax_end p = if same_type p.current_tok.type eof then accepted p else refused p

  -- A null buffer has no bytes.
  unfoldable pub jsonv_parse_sax : Bytes → Callbacks U → U → Outcome U
  jsonv_parse_sax buffer callbacks u =
      let p : SaxParser U = record {
        lexer = lexer_init buffer;
        current_tok = no_token;
        token_start = [];
        token_len = 0;
        user_data = u;
      } in
      if length buffer == 0
      then refused p
      else and_then (sax_advance p)
          (λ p₁. and_then (sax_parse_value (sax_fuel buffer) callbacks 0 p₁) sax_end)
