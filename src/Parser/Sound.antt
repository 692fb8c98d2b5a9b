-- ===== src/Parser/Sound.antt =====
-- src/parser/parser.c: what parse_ast returns on is a JSON text that nests at most 64 deep.
mod Symbols
mod Scopes
mod Turns
use mathlib.Core.List.{append-nil, append_assoc}
use mathlib.Core.Path.{subst}
use jsonv.Base.{
  ℕ, zero, suc, ◌+◌, ◌-◌, ◌≤◌, ◌≡◌, ◌≢◌, ◌⊎◌, refl, sym, ap, ◌∙◌, Bool, true, false, List, [], ◌∷◌,
  ◌++◌, arith, inl, inr, ltb, Bool-cases, if◌then◌else◌,
}
use jsonv.Token.{
  TokenType, eof, Token, colon, comma, brace_open, brace_close, bracket_open, bracket_close, string,
}
use jsonv.Ast.{AstType, object, array}
use jsonv.Parser.Build.{same_type, Scope, Builder}
use jsonv.Parser.Grammar.{
  Value, leaf_value, empty_object, full_object, empty_array, full_array, Members, last_member,
  more_members, Elements, last_element, more_elements,
}
use jsonv.Parser.Accepts.{start-Left}
use jsonv.Lexer.Cursor.{Lexer}
use jsonv.HashSet.{HashSet}
use jsonv.Ast.{KeyPool}
use jsonv.Parser.Tokens.{Feed, in_front, Left, Left-with, same_type_iff}
use jsonv.Parser.Means.{Means, room, Sound, Next, behind, terminal-Means}
use jsonv.Parser.{
  Symbol, terminal, rule_json, rule_value, rule_object, rule_members, rule_pair, rule_array,
  rule_elements, rule_next_member, rule_next_element, mark_object_end, mark_array_end, State, Turn,
  go, stop, raise, shift, leave_or_go, is_leaf, match_terminal, push, expand_value,
  expand_container, open_scope, expand_next, close_scope, turn, popped, add_leaf, is_empty,
  max_json_depth, parse_loop, at_end, Parsed, parsed, raised, parse_ast, parse_fuel, start,
}
use jsonv.Parser.Sound.Turns.{turn-Means}

-- How the loop goes on from a turn, split out of parse_loop.
Next-parsed :
    (f : ℕ) (r : Turn) {t : State}
    → ((s : State) → parse_loop f s.controls s ≡ parsed t → Sound s)
    → elim r [ go s₁ ↦ parse_loop f s₁.controls s₁ | stop s₁ ↦ at_end s₁ | raise e ↦ raised e ]
      ≡ parsed t
    → Next r
Next-parsed f (go s) later e = later s e
Next-parsed f (stop s) later e = tt
Next-parsed f (raise e₁) later e = cc

loop-Sound :
    (f : ℕ) (k : List Symbol) (s : State) {t : State}
    → s.controls ≡ k
    → parse_loop f k s ≡ parsed t
    → (ts : List TokenType) → Left s ts
    → Means s.depth k ts
unfolding parse_loop
loop-Sound f [] s e out ts w = tt
loop-Sound zero (x ∷ rest) s e out ts w = cc
loop-Sound (suc f) (x ∷ rest) s e out ts w =
    turn-Means x s rest ts w (
      Next-parsed f (turn x (popped rest s)) (λ s₁ out₁. loop-Sound f s₁.controls s₁ refl out₁) out)

-- If the lexer returns the tokens `ts` from `l` on, and then `eof`, and parse_ast returns, then `ts`
-- is a JSON value whose objects and arrays nest at most 64 deep.
pub parse_ast-sound :
    (l : Lexer) (keys : HashSet) (pool : KeyPool) (ts : List TokenType) {t : State}
    → Feed l ts
    → parse_ast l keys pool ≡ parsed t
    → Value 64 ts
unfolding parse_ast start
parse_ast-sound l keys pool ts f out =
    (loop-Sound (parse_fuel l) (rule_json ∷ []) (start l keys pool) refl out ts
      (start-Left l keys pool ts f)).0
