-- ===== src/Parser/Means.antt =====
-- src/parser/parser.c: what the control stack of parse_ast stands for, and that a turn which goes
-- on keeps it.
use jsonv.Base.{ℕ, ◌-◌, ◌≡◌, ◌≢◌, ◌⊎◌, sym, ap, ◌∙◌, List, [], ◌∷◌, ◌++◌, inl, inr, Bool-cases}
use mathlib.Core.Path.{subst}
use jsonv.Token.{TokenType, eof, colon, comma, string}
use jsonv.Parser.Build.{same_type}
use jsonv.Parser.Grammar.{Value, Members, Elements}
use jsonv.Parser.Tokens.{
  in_front, in_front_eof, in_front_token, Left, Left-with, shift-Left, shift-Left-nil,
  same_type_iff,
}
use jsonv.Parser.{
  Symbol, terminal, rule_json, rule_value, rule_object, rule_members, rule_pair, rule_array,
  rule_elements, rule_next_member, rule_next_element, mark_object_end, mark_array_end, State, Turn,
  go, stop, raise, shift, add_leaf, max_json_depth,
}

-- How deep a value may still nest.
abbrev pub room : ℕ → ℕ
room d = max_json_depth - d

-- `Means d symbols ts`: at depth d the tokens `ts` begin with what the symbols ask for.
abbrev pub Means : ℕ → List Symbol → List TokenType → Type 0
Means d [] ts = Unit
Means d (terminal t ∷ xs) ts =
    ((t ≡ eof) × (ts ≡ []) × Means d xs [])
    ⊎ ((us : List TokenType) × (t ≢ eof) × (ts ≡ t ∷ us) × Means d xs us)
Means d (rule_json ∷ xs) ts = Value (room d) ts × Means d xs []
Means d (rule_value ∷ xs) ts =
    (vs us : List TokenType) × (ts ≡ vs ++ us) × Value (room d) vs × Means d xs us
Means d (rule_object ∷ xs) ts =
    (vs us : List TokenType) × (ts ≡ vs ++ us) × Value (room d) vs × Means d xs us
Means d (rule_array ∷ xs) ts =
    (vs us : List TokenType) × (ts ≡ vs ++ us) × Value (room d) vs × Means d xs us
Means d (rule_members ∷ xs) ts =
    (ms us : List TokenType) × (ts ≡ ms ++ us) × Members (room d) ms × Means d xs us
Means d (rule_pair ∷ xs) ts =
    (vs us : List TokenType) × (ts ≡ string ∷ colon ∷ (vs ++ us))
    × Value (room d) vs
    × Means d xs us
Means d (rule_elements ∷ xs) ts =
    (es us : List TokenType) × (ts ≡ es ++ us) × Elements (room d) es × Means d xs us
Means d (rule_next_member ∷ xs) ts =
    Means d xs ts
    ⊎ ((ms us : List TokenType) × (ts ≡ comma ∷ (ms ++ us)) × Members (room d) ms × Means d xs us)
Means d (rule_next_element ∷ xs) ts =
    Means d xs ts
    ⊎ ((es us : List TokenType) × (ts ≡ comma ∷ (es ++ us)) × Elements (room d) es × Means d xs us)
Means d (mark_object_end ∷ xs) ts = Means (d - 1) xs ts
Means d (mark_array_end ∷ xs) ts = Means (d - 1) xs ts

-- A state whose symbols mean all that is left.
abbrev pub Sound : State → Type 0
Sound s = (ts : List TokenType) → Left s ts → Means s.depth s.controls ts

-- The tokens behind a terminal that is not `eof`.
pub behind :
    (t : TokenType) (d : ℕ) (xs : List Symbol) (ts : List TokenType)
    → t ≢ eof
    → Means d (terminal t ∷ xs) ts
    → (us : List TokenType) × (ts ≡ t ∷ us) × Means d xs us
behind t d xs ts n (inl (e, _, _)) = absurd (n e)
behind t d xs ts n (inr (us, _, e, m)) = (us, e, m)

-- Taking a token proves what its terminal means.
pub terminal-Means :
    (t : TokenType) (s : State) (rest : List Symbol) (ts : List TokenType)
    → t ≡ s.c.type
    → Left s ts
    → ((us : List TokenType)
        → Left (shift (record s { controls = rest; builder = add_leaf s.c s.builder })) us
        → Means s.depth rest us)
    → Means s.depth (terminal t ∷ rest) ts
terminal-Means t s rest ts e w later = elim (Bool-cases (same_type s.c.type eof)) [
  | inl ended ↦
      let c = (same_type_iff s.c.type eof).0 ended in
      let none_left : ts ≡ [] = w.split ∙ in_front_eof s.c.type _ c in
      let w₀ : Left s [] = subst (Left s) none_left w in
      let b = add_leaf s.c s.builder in
      inl (e ∙ c, none_left, later [] (shift-Left-nil _ (Left-with w₀ rest s.depth b)))
  | inr more ↦
      let n : s.c.type ≢ eof = λ c. cc ((same_type_iff s.c.type eof).1 c) in
      let us = in_front s.n.type w.unread in
      let split : ts ≡ s.c.type ∷ us = w.split ∙ in_front_token s.c.type us n in
      let w₁ : Left s (s.c.type ∷ us) = subst (Left s) split w in
      let b = add_leaf s.c s.builder in
      inr (
        us,
        λ k. n (sym e ∙ k),
        split ∙ ap (λ (y : TokenType). y ∷ us) (sym e),
        later us (shift-Left _ (Left-with w₁ rest s.depth b)),
      )
]

-- What a turn leaves behind for the turns after it.
abbrev pub Next : Turn → Type 0
Next (go s) = Sound s
Next (stop s) = Unit
Next (raise e) = ⊥
