-- ===== src/Parser/Sound/Turns.antt =====
-- src/parser/parser.c: what every symbol means, from what its turn leaves.
use mathlib.Core.List.{append-nil, append_assoc}
use mathlib.Core.Path.{subst}
use jsonv.Base.{◌-◌, ◌≡◌, ◌⊎◌, refl, sym, ap, ◌∙◌, List, [], ◌∷◌, ◌++◌, inl, inr, Bool-cases}
use jsonv.Token.{TokenType, eof, colon, comma, string}
use jsonv.Parser.Build.{same_type, Scope}
use jsonv.Parser.Grammar.{Value, last_member, more_members, last_element, more_elements}
use jsonv.Parser.Tokens.{Left, Left-with}
use jsonv.Parser.Means.{Means, room, Next, behind}
use jsonv.Parser.{
  Symbol, terminal, rule_json, rule_value, rule_object, rule_members, rule_pair, rule_array,
  rule_elements, rule_next_member, rule_next_element, mark_object_end, mark_array_end, State,
  expand_next, close_scope, turn, popped,
}
use jsonv.Parser.Sound.Symbols.{push-Means, match-Means, value-Means}
use jsonv.Parser.Sound.Scopes.{object-Means, array-Means}

-- A comma and what follows it, or nothing.
Next-Means :
    (contents : Symbol) (s : State) (rest : List Symbol) (ts : List TokenType)
    → Left s ts
    → Next (expand_next contents (popped rest s))
    → Means s.depth rest ts
      ⊎ ((us : List TokenType) × (ts ≡ comma ∷ us) × Means s.depth (contents ∷ rest) us)
unfolding expand_next
Next-Means contents s rest ts w h = elim (Bool-cases (same_type s.c.type comma)) [
  | inr other ↦ inl ((rw other at h) ts (Left-with w rest s.depth s.builder))
  | inl same ↦
      let m = push-Means (terminal comma ∷ contents ∷ []) s rest ts w (rw same at h) in
      inr (behind comma s.depth (contents ∷ rest) ts (λ k. cc) m)
]

mark-Means :
    (s : State) (rest : List Symbol) (ts : List TokenType) (scopes : List Scope)
    → Left s ts
    → Next (close_scope scopes (popped rest s))
    → Means (s.depth - 1) rest ts
unfolding close_scope
mark-Means s rest ts [] w h = absurd h
mark-Means s rest ts (scope ∷ below) w h =
    h ts (Left-with w rest (s.depth - 1) (record s.builder { scopes = below }))

-- One turn: what the symbol means, from what the turn leaves.
pub turn-Means :
    (x : Symbol) (s : State) (rest : List Symbol) (ts : List TokenType)
    → Left s ts
    → Next (turn x (popped rest s))
    → Means s.depth (x ∷ rest) ts
unfolding turn
turn-Means (terminal t) s rest ts w h = match-Means t s rest ts w h
turn-Means rule_json s rest ts w h =
    let (vs, us, e, v, m) = push-Means (rule_value ∷ terminal eof ∷ []) s rest ts w h in
    elim m [
      | inl (_, none_left, later) ↦ (
        subst (Value (room s.depth)) (sym (e ∙ ap (λ r. vs ++ r) none_left ∙ append-nil vs)) v,
        later,
      )
      | inr (rs, n, e₁, later) ↦ absurd (n refl)
    ]
turn-Means rule_value s rest ts w h = value-Means s rest ts w h
turn-Means rule_object s rest ts w h = object-Means s rest ts w h
turn-Means rule_array s rest ts w h = array-Means s rest ts w h
turn-Means rule_members s rest ts w h =
    let m = push-Means (rule_pair ∷ rule_next_member ∷ []) s rest ts w h in
    let (vs, us, e, v, next) = m in
    elim next [
      | inl later ↦ (string ∷ colon ∷ vs, us, e, last_member v refl, later)
      | inr (ms, rs, e₁, more, later) ↦ (
        string ∷ colon ∷ (vs ++ (comma ∷ ms)),
        rs,
        e
            ∙ ap (λ r. string ∷ colon ∷ (vs ++ r)) e₁
            ∙ ap (λ r. string ∷ colon ∷ r) (sym (append_assoc vs (comma ∷ ms) rs)),
        more_members v more refl,
        later,
      )
    ]
turn-Means rule_pair s rest ts w h =
    let m = push-Means (terminal string ∷ terminal colon ∷ rule_value ∷ []) s rest ts w h in
    let (us, e, m₁) = behind string s.depth (terminal colon ∷ rule_value ∷ rest) ts (λ k. cc) m in
    let (vs, e₁, m₂) = behind colon s.depth (rule_value ∷ rest) us (λ k. cc) m₁ in
    let (ws, rs, e₂, v, later) = m₂ in (ws, rs, rw (e, e₁, e₂) refl, v, later)
turn-Means rule_elements s rest ts w h =
    let (vs, us, e, v, next) = push-Means (rule_value ∷ rule_next_element ∷ []) s rest ts w h in
    elim next [
      | inl later ↦ (vs, us, e, last_element v, later)
      | inr (es, rs, e₁, more, later) ↦ (
        vs ++ (comma ∷ es),
        rs,
        e ∙ ap (λ r. vs ++ r) e₁ ∙ sym (append_assoc vs (comma ∷ es) rs),
        more_elements v more refl,
        later,
      )
    ]
turn-Means rule_next_member s rest ts w h = elim (Next-Means rule_members s rest ts w h) [
  | inl later ↦ inl later
  | inr (us, e, (ms, rs, e₁, m, later)) ↦ inr (ms, rs, rw (e, e₁) refl, m, later)
]
turn-Means rule_next_element s rest ts w h = elim (Next-Means rule_elements s rest ts w h) [
  | inl later ↦ inl later
  | inr (us, e, (es, rs, e₁, m, later)) ↦ inr (es, rs, rw (e, e₁) refl, m, later)
]
turn-Means mark_object_end s rest ts w h = mark-Means s rest ts s.builder.scopes w h
turn-Means mark_array_end s rest ts w h = mark-Means s rest ts s.builder.scopes w h
