-- ===== src/Token.antt =====
-- src/comm/struct/token.h: the tokens that the lexer hands to the parser. A pointer into the
-- source is the list of the bytes from there to the end of the source.
use jsonv.Base.{ℕ, Bool, List, take}

abbrev pub Bytes : Type 0
Bytes = List ℕ

-- `TokenType`, without the three that only the YAML build has.
pub data TokenType : Type 0 where
  error eof : TokenType
  colon comma : TokenType
  brace_open brace_close bracket_open bracket_close : TokenType
  string number null true_lit false_lit : TokenType

-- `Token`; `string` and `raw_number` of the union `TokenValue` have one layout.
pub record Token : Type 0 where
  pub start : Bytes
  pub len : ℕ
  pub type : TokenType
  pub has_escape : Bool

-- The bytes that a token's `start` and `length` name.
abbrev pub text : Token → Bytes
text t = take t.len t.start
