-- ===== src/Parser/Containers.antt =====
-- src/parser/parser.c: how parse_ast works off a value and a container.
mod Brackets
use mathlib.Core.List.{append_assoc}
use jsonv.Base.{
  ℕ, suc, ◌+◌, ◌-◌, ◌≤◌, ◌≡◌, ◌≢◌, refl, ap, ◌∙◌, true, false, List, [], ◌∷◌, ◌++◌, arith, length,
  ltb, if◌then◌else◌,
}
use jsonv.Token.{
  TokenType, comma, brace_open, brace_close, bracket_open, bracket_close, string, Token,
}
use jsonv.Ast.{AstType}
use jsonv.Parser.Build.{same_type, Scope, Builder}
use jsonv.Parser.Grammar.{
  Value, leaf_value, empty_object, full_object, empty_array, full_array, Members, last_member,
  more_members, Elements, last_element, more_elements,
}
use jsonv.Parser.Tokens.{Left, Left-with, Left-c, Left-n, same_type_iff}
use jsonv.Parser.Scopes.Links.{add_node-Steps}
use jsonv.Parser.Runs.{here, step, Runs-trans, After, After-trans, After-step, terminal-After}
use jsonv.Parser.{
  Symbol, terminal, rule_value, rule_object, rule_array, State, go, is_leaf, expand_value,
  expand_container, close_scope, turn, popped, open_scope, max_json_depth,
}
pub use jsonv.Parser.Containers.Brackets.{
  empty-After, full-After, WorksOff, WorksOffBefore, cons-ne-nil,
}
use jsonv.Parser.Containers.Brackets.{
  open_scope-length, closing_turn, container-After, opened, opening_turn,
}

-- What a value, or a list of values, begins with does not close an array.
leaf_first :
    (t : TokenType)
    → is_leaf t ≡ true
    → (same_type t brace_open ≡ false)
      × (same_type t bracket_open ≡ false)
      × (same_type t bracket_close ≡ false)
unfolding is_leaf same_type
leaf_first t h = ground arith

abbrev BeginsValue : List TokenType → Type 0
BeginsValue ts =
    (t : TokenType) × (us : List TokenType) × (ts ≡ t ∷ us) × (same_type t bracket_close ≡ false)

Value-first : {k : ℕ} {ts : List TokenType} → Value k ts → BeginsValue ts
unfolding same_type
Value-first (leaf_value {t} h e) = (t, [], e, (leaf_first t h).2)
Value-first (empty_object e) = (brace_open, _, e, refl)
Value-first (full_object m e) = (brace_open, _, e, refl)
Value-first (empty_array e) = (bracket_open, _, e, refl)
Value-first (full_array m e) = (bracket_open, _, e, refl)

Elements-first : {k : ℕ} {ts : List TokenType} → Elements k ts → BeginsValue ts
Elements-first (last_element v) = Value-first v
Elements-first (more_elements {es = es} v m e) =
    let (t, us, f, n) = Value-first v in (t, us ++ (comma ∷ es), rw (e, f) refl, n)

pub array_filled :
    {k : ℕ} {es : List TokenType} (s : State) (r : List TokenType)
    → Elements k es
    → Left s (bracket_open ∷ (es ++ r))
    → same_type s.n.type bracket_close ≡ false
array_filled s r m w =
    let (t, us, f, n) = Elements-first m in
    let w' : Left s (bracket_open ∷ t ∷ (us ++ r)) = rw f at w in rw (Left-n s w') n

Members-first :
    {k : ℕ} {ms : List TokenType} → Members k ms → (us : List TokenType) × (ms ≡ string ∷ us)
Members-first (last_member v e) = (_, e)
Members-first (more_members v m e) = (_, e)

pub object_filled :
    {k : ℕ} {ms : List TokenType} (s : State) (r : List TokenType)
    → Members k ms
    → Left s (brace_open ∷ (ms ++ r))
    → same_type s.n.type brace_close ≡ false
unfolding same_type
object_filled s r m w =
    let (us, f) = Members-first m in
    let w' : Left s (brace_open ∷ string ∷ (us ++ r)) = rw f at w in
    let e = Left-n s w' in rw e refl

-- The value rule hands on to the rule, or to the token, that its first token names.
pub leaf-After : (k : ℕ) (t : TokenType) → is_leaf t ≡ true → WorksOff rule_value k (t ∷ [])
unfolding turn expand_value
leaf-After k t h s rest r e n w d =
    let c = (Left-c s w).1 in
    let (n₁, n₂, _) = leaf_first t h in
    let k₁ = terminal t ∷ rest in
    After-step rule_value rest e (rw (c, n₁, n₂, h)) refl refl (
      terminal-After t rest r (record s { controls = k₁ }) refl n
        (Left-with w k₁ s.depth s.builder))

pub object-After :
    (k : ℕ) (ts : List TokenType)
    → WorksOff rule_object k (brace_open ∷ ts)
    → WorksOff rule_value k (brace_open ∷ ts)
unfolding turn expand_value same_type
object-After k ts inside s rest r e n w d =
    let c = (Left-c s w).1 in
    let k₁ = rule_object ∷ rest in
    After-step rule_value rest e (rw c) refl refl
      (inside (record s { controls = k₁ }) rest r refl n (Left-with w k₁ s.depth s.builder) d)

pub array-After :
    (k : ℕ) (ts : List TokenType)
    → WorksOff rule_array k (bracket_open ∷ ts)
    → WorksOff rule_value k (bracket_open ∷ ts)
unfolding turn expand_value same_type
array-After k ts inside s rest r e n w d =
    let c = (Left-c s w).1 in
    let k₁ = rule_array ∷ rest in
    After-step rule_value rest e (rw c) refl refl
      (inside (record s { controls = k₁ }) rest r refl n (Left-with w k₁ s.depth s.builder) d)
