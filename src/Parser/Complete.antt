-- ===== src/Parser/Complete.antt =====
-- src/parser/parser.c: parse_ast works off every value of the grammar.
use mathlib.Core.List.{append_assoc}
use mathlib.Core.Path.{subst}
use jsonv.Base.{ℕ, suc, ◌+◌, ◌≡◌, ◌≢◌, refl, sym, ◌∙◌, false, List, [], ◌∷◌, ◌++◌, arith}
use jsonv.Token.{
  TokenType, colon, comma, brace_open, brace_close, bracket_open, bracket_close, string,
}
use jsonv.Ast.{object, array}
use jsonv.Parser.Build.{same_type}
use jsonv.Parser.Grammar.{
  Value, leaf_value, empty_object, full_object, empty_array, full_array, Members, last_member,
  more_members, Elements, last_element, more_elements,
}
use jsonv.Parser.Tokens.{Left, Left-with, Left-c}
use jsonv.Parser.Runs.{here, After, After-trans, After-step, terminal-After}
use jsonv.Parser.{
  Symbol, terminal, rule_value, rule_object, rule_members, rule_pair, rule_array, rule_elements,
  rule_next_member, rule_next_element, mark_object_end, mark_array_end, State, go, push,
  expand_next, turn, popped, max_json_depth,
}
use jsonv.Parser.Containers.{
  WorksOff, WorksOffBefore, cons-ne-nil, empty-After, full-After, array_filled, object_filled,
  leaf-After, object-After, array-After,
}

-- A pair's name and colon, and then its value.
pair-After :
    (k : ℕ) (vs : List TokenType)
    → WorksOff rule_value k vs
    → WorksOff rule_pair k (string ∷ colon ∷ vs)
unfolding turn
pair-After k vs value s rest r e n w d =
    let k₁ = terminal string ∷ terminal colon ∷ rule_value ∷ rest in
    let s₁ = record s { controls = k₁ } in
    let a =
      terminal-After string (terminal colon ∷ rule_value ∷ rest) (colon ∷ (vs ++ r)) s₁ refl
        (cons-ne-nil _ _) (Left-with w k₁ s.depth s.builder) in
    let b =
      terminal-After colon (rule_value ∷ rest) (vs ++ r) a.result a.controls (cons-ne-nil _ _)
        a.left in
    let c = value b.result rest r b.controls n b.left (omega (arith, a.depth, b.depth)) in
    After-step rule_pair rest e refl refl refl (After-trans a (After-trans b c))

-- Where no comma follows, the list of pairs or values ends.
module _ (next contents : Symbol)
    (is_next : (s : State) → turn next s ≡ expand_next contents s) where
  next_last :
      (u : TokenType) (s : State) (rest : List Symbol) (r : List TokenType)
      → same_type u comma ≡ false
      → s.controls ≡ next ∷ rest
      → Left s (u ∷ r)
      → After s rest (u ∷ r)
  unfolding expand_next
  next_last u s rest r h e w =
      let c = (Left-c s w).1 in
      After-step next rest e (is_next (popped rest s) ∙ rw (c, h)) refl refl (record {
        result = popped rest s;
        runs = here;
        controls = refl;
        left = Left-with w rest s.depth s.builder;
        depth = refl;
        scopes = refl;
      })

  next_more :
      (k : ℕ) (u : TokenType) (ms : List TokenType)
      → WorksOffBefore u contents k ms
      → (s : State) (rest : List Symbol) (r : List TokenType) → s.controls ≡ next ∷ rest
      → rest ≢ []
      → Left s (comma ∷ (ms ++ (u ∷ r)))
      → s.depth + k ≡ max_json_depth
      → After s rest (u ∷ r)
  unfolding expand_next same_type
  next_more k u ms more s rest r e n w d =
      let c = (Left-c s w).1 in
      let k₁ = terminal comma ∷ contents ∷ rest in
      let s₁ = record s { controls = k₁ } in
      let a =
        terminal-After comma (contents ∷ rest) (ms ++ (u ∷ r)) s₁ refl (cons-ne-nil _ _)
          (Left-with w k₁ s.depth s.builder) in
      let b = more a.result rest r a.controls n a.left (omega (arith, a.depth)) in
      After-step next rest e (is_next (popped rest s) ∙ rw c refl) refl refl (After-trans a b)

-- A list rule: an item, and what follows it.
list-After :
    (rule item next : Symbol) (k : ℕ) (u : TokenType) (vs : List TokenType)
    (q : List TokenType → List TokenType)
    → ((s : State) → turn rule s ≡ go (push (item ∷ next ∷ []) s))
    → WorksOff item k vs
    → ((s : State) (rest : List Symbol) (r : List TokenType)
        → s.controls ≡ next ∷ rest
        → rest ≢ []
        → Left s (q r)
        → s.depth + k ≡ max_json_depth
        → After s rest (u ∷ r))
    → (s : State) (rest : List Symbol) (r : List TokenType) → s.controls ≡ rule ∷ rest
    → rest ≢ []
    → Left s (vs ++ q r)
    → s.depth + k ≡ max_json_depth
    → After s rest (u ∷ r)
list-After rule item next k u vs q is_rule first then_ s rest r e n w d =
    let k₁ = item ∷ next ∷ rest in
    let s₁ = record s { controls = k₁ } in
    let a =
      first s₁ (next ∷ rest) (q r) refl (cons-ne-nil _ _) (Left-with w k₁ s.depth s.builder) d in
    let b = then_ a.result rest r a.controls n a.left (omega (arith, a.depth)) in
    After-step rule rest e (is_rule (popped rest s)) refl refl (After-trans a b)

mutual
  unfolding turn same_type

  pub value-After : {k : ℕ} {ts : List TokenType} → Value k ts → WorksOff rule_value k ts
  value-After {k} (leaf_value {t} h e) = subst (WorksOff rule_value k) (sym e) (leaf-After k t h)
  value-After (empty_object {k} e) = subst (WorksOff rule_value (suc k)) (sym e) (
      object-After (suc k) (brace_close ∷ []) (
        empty-After object brace_open brace_close rule_members mark_object_end rule_object
          (λ s. refl) (λ s. refl) k))
  value-After (full_object {k} {ms} m e) = subst (WorksOff rule_value (suc k)) (sym e) (
      object-After (suc k) (ms ++ (brace_close ∷ [])) (
        full-After object brace_open brace_close rule_members mark_object_end rule_object
          (λ s. refl) (λ s. refl) k ms (members-After m) (λ s r w. object_filled s r m w)))
  value-After (empty_array {k} e) = subst (WorksOff rule_value (suc k)) (sym e) (
      array-After (suc k) (bracket_close ∷ []) (
        empty-After array bracket_open bracket_close rule_elements mark_array_end rule_array
          (λ s. refl) (λ s. refl) k))
  value-After (full_array {k} {es} m e) = subst (WorksOff rule_value (suc k)) (sym e) (
      array-After (suc k) (es ++ (bracket_close ∷ [])) (
        full-After array bracket_open bracket_close rule_elements mark_array_end rule_array
          (λ s. refl) (λ s. refl) k es (elements-After m) (λ s r w. array_filled s r m w)))

  members-After :
      {k : ℕ} {ms : List TokenType} → Members k ms → WorksOffBefore brace_close rule_members k ms
  members-After {k} (last_member {vs} v e) =
      subst (WorksOffBefore brace_close rule_members k) (sym e) (
        list-After rule_members rule_pair rule_next_member k brace_close (string ∷ colon ∷ vs)
          (λ r. brace_close ∷ r) (λ s. refl) (pair-After k vs (value-After v))
          (λ s rest r c n w d.
            next_last rule_next_member rule_members (λ t. refl) brace_close s rest r refl c w))
  members-After {k} (more_members {vs} {ms} v m e) =
      subst (WorksOffBefore brace_close rule_members k) (sym e) (λ s rest r c n w d.
        list-After rule_members rule_pair rule_next_member k brace_close (string ∷ colon ∷ vs)
          (λ q. comma ∷ (ms ++ (brace_close ∷ q))) (λ t. refl) (pair-After k vs (value-After v))
          (next_more rule_next_member rule_members (λ t. refl) k brace_close ms (members-After m)) s
          rest r c n (rw append_assoc at w) d)

  elements-After :
      {k : ℕ} {es : List TokenType}
      → Elements k es
      → WorksOffBefore bracket_close rule_elements k es
  elements-After {k} (last_element {ts} v) =
      list-After rule_elements rule_value rule_next_element k bracket_close ts
        (λ r. bracket_close ∷ r) (λ s. refl) (value-After v)
        (λ s rest r c n w d.
          next_last rule_next_element rule_elements (λ t. refl) bracket_close s rest r refl c w)
  elements-After {k} (more_elements {vs} {es} v m e) =
      subst (WorksOffBefore bracket_close rule_elements k) (sym e) (λ s rest r c n w d.
        list-After rule_elements rule_value rule_next_element k bracket_close vs
          (λ q. comma ∷ (es ++ (bracket_close ∷ q))) (λ t. refl) (value-After v)
          (next_more rule_next_element rule_elements (λ t. refl) k bracket_close es
            (elements-After m))
          s rest r c n (rw append_assoc at w) d)
