-- ===== src/Parser/Decides.antt =====
-- src/parser/lexer.c, src/parser/parser.c: the lexer comes to its end on every source, so parse_ast
-- decides the grammar.
use jsonv.Base.{
  ℕ, zero, suc, ◌+◌, ◌<◌, ◌≡◌, ◌≢◌, ◌⊎◌, refl, List, [], ◌∷◌, arith, inl, inr, length, Bool-cases,
}
use jsonv.Token.{TokenType, eof}
use jsonv.Lexer.Cursor.{Lexer}
use jsonv.Lexer.{lexer_next_token}
use jsonv.Lexer.Progress.{lexer_next_token-Keeps}
use jsonv.HashSet.{HashSet}
use jsonv.Ast.{KeyPool}
use jsonv.Parser.Build.{same_type}
use jsonv.Parser.Grammar.{Value}
use jsonv.Parser.Tokens.{Feed, ended, token, same_type_iff}
use jsonv.Parser.Accepts.{parse_ast-accepts}
use jsonv.Parser.Sound.{parse_ast-sound}
use jsonv.Parser.{State, Parsed, parsed, raised, Fault, parse_ast}

feed_within : (n : ℕ) (l : Lexer) → length l.rest < n → (ts : List TokenType) × Feed l ts
feed_within zero l h = absurd (omega arith)
feed_within (suc n) l h = elim (Bool-cases (same_type (lexer_next_token l).0.type eof)) [
  | inl e ↦ ([], ended ((same_type_iff _ eof).0 e))
  | inr more ↦
      let u : (lexer_next_token l).0.type ≢ eof = λ e. cc ((same_type_iff _ eof).1 e) in
      let (keeps, forward) = lexer_next_token-Keeps l in
      let (ts, f) =
        feed_within n (lexer_next_token l).1 (omega (arith, keeps.same_end, forward u)) in
      ((lexer_next_token l).0.type ∷ ts, token refl u f)
]

-- Calling the lexer again and again from any state comes to `eof` after finitely many tokens.
lexer_next_token-feed : (l : Lexer) → (ts : List TokenType) × Feed l ts
lexer_next_token-feed l = feed_within (length l.rest + 1) l (omega arith)

-- What a result of parse_ast tells of the tokens.
abbrev pub Decided : Lexer → HashSet → KeyPool → List TokenType → Type 0
Decided l keys pool ts =
    ((t : State) × (parse_ast l keys pool ≡ parsed t) × Value 64 ts)
    ⊎ ((e : Fault) × (parse_ast l keys pool ≡ raised e) × (¬ Value 64 ts))

decide :
    (l : Lexer) (keys : HashSet) (pool : KeyPool) (ts : List TokenType) (r : Parsed)
    → Feed l ts
    → parse_ast l keys pool ≡ r
    → Decided l keys pool ts
decide l keys pool ts (parsed t) f out = inl (t, out, parse_ast-sound l keys pool ts f out)
decide l keys pool ts (raised e) f out =
    inr (e, out, λ v. let (t, accepted) = parse_ast-accepts l keys pool ts f v in cc)

-- On every source the lexer comes to its end, and parse_ast either returns, and the tokens of the
-- source are a JSON value that nests at most 64 deep, or raises an exception, and they are none.
pub parse_ast-decides :
    (l : Lexer) (keys : HashSet) (pool : KeyPool)
    → (ts : List TokenType) × Feed l ts × Decided l keys pool ts
parse_ast-decides l keys pool =
    let (ts, f) = lexer_next_token-feed l in
    (ts, f, decide l keys pool ts (parse_ast l keys pool) f refl)
