-- ===== src/Parser/Grammar.antt =====
-- The grammar of JSON over token types, as README.md and RFC 8259 give it, with a bound on the
-- nesting: parse_ast of src/parser/parser.c is held to it.
use jsonv.Base.{ℕ, suc, true, List, [], ◌∷◌, ◌++◌, ◌≡◌}
use jsonv.Token.{
  TokenType, colon, comma, brace_open, brace_close, bracket_open, bracket_close, string,
}
use jsonv.Parser.{is_leaf}

-- `Value k ts`: the tokens `ts` are one value, whose objects and arrays nest at most k deep.
mutual
  pub data Value : ℕ → List TokenType → Type 0 where
    leaf_value :
        {k : ℕ} {t : TokenType} {ts : List TokenType} → is_leaf t ≡ true → ts ≡ t ∷ [] → Value k ts
    empty_object :
        {k : ℕ} {ts : List TokenType} → ts ≡ brace_open ∷ brace_close ∷ [] → Value (suc k) ts
    full_object :
        {k : ℕ} {ms ts : List TokenType}
        → Members k ms
        → ts ≡ brace_open ∷ (ms ++ (brace_close ∷ []))
        → Value (suc k) ts
    empty_array :
        {k : ℕ} {ts : List TokenType} → ts ≡ bracket_open ∷ bracket_close ∷ [] → Value (suc k) ts
    full_array :
        {k : ℕ} {es ts : List TokenType}
        → Elements k es
        → ts ≡ bracket_open ∷ (es ++ (bracket_close ∷ []))
        → Value (suc k) ts

  -- One pair or more, with commas between them.
  pub data Members : ℕ → List TokenType → Type 0 where
    last_member :
        {k : ℕ} {vs ts : List TokenType} → Value k vs → ts ≡ string ∷ colon ∷ vs → Members k ts
    more_members :
        {k : ℕ} {vs ms ts : List TokenType}
        → Value k vs
        → Members k ms
        → ts ≡ string ∷ colon ∷ (vs ++ (comma ∷ ms))
        → Members k ts

  -- One value or more, with commas between them.
  pub data Elements : ℕ → List TokenType → Type 0 where
    last_element : {k : ℕ} {ts : List TokenType} → Value k ts → Elements k ts
    more_elements :
        {k : ℕ} {vs es ts : List TokenType}
        → Value k vs
        → Elements k es
        → ts ≡ vs ++ (comma ∷ es)
        → Elements k ts
