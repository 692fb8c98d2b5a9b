-- ===== src/Parser/Scopes.antt =====
-- src/parser/parser.c: the scopes match the marks on the control stack, and the set of keys stays
-- well formed, so parse_ast raises one of its two exceptions and nothing else.
pub mod Links
mod Balance
use mathlib.Core.Path.{subst}
use jsonv.Base.{
  ℕ, zero, suc, ◌+◌, ◌-◌, ◌%◌, ◌≡◌, ◌≢◌, ◌⊎◌, ◌∙◌, refl, sym, ap, Bool, true, false, not, ◌&&◌,
  Option, none, some, List, [], ◌∷◌, ◌++◌, ◌==◌, arith, inl, inr, length, ltb, Bool-cases,
  if◌then◌else◌,
}
use jsonv.Token.{
  Bytes, TokenType, eof, comma, brace_open, brace_close, bracket_open, bracket_close, Token,
}
use jsonv.Lexer.Cursor.{Lexer}
use jsonv.HashSet.{
  HashSet, InsertResult, key_is_uniq, table_is_full, key_already_exist, key_too_long, set_insert,
}
use jsonv.HashSet.Members.{IsHashSet}
use jsonv.HashSet.Inserts.{Inserts, set_insert-Inserts}
use jsonv.Ast.{AstType, leaf, object, array, new_node, KeyPool, key_tree_insert}
use jsonv.Parser.Build.{
  same_type, Scope, Builder, in_object, recorded, record_key, record_short, detect_duplicate,
  link_in, link_scopes, link_node_to_scope, skip_node, modify, max_scoped_key,
}
use jsonv.Parser.Fuel.{parse_ast_total}
use jsonv.Parser.{
  Symbol, terminal, rule_json, rule_value, rule_object, rule_members, rule_pair, rule_array,
  rule_elements, rule_next_member, rule_next_element, mark_object_end, mark_array_end, Fault,
  malformed_json, maximum_nested_depth_reached, assertion_failed, out_of_fuel, State, Turn, go,
  stop, raise, is_leaf, add_node, add_leaf, shift, is_empty, leave_or_go, match_terminal, push,
  expand_value, open_scope, expand_container, expand_next, close_scope, turn, Parsed, parsed,
  raised, at_end, popped, parse_loop, start, parse_fuel, parse_ast, max_json_depth,
}
use jsonv.Parser.Scopes.Balance.{marks, IsBalanced, Leaves, turn-Leaves}

-- The set is well formed where parse_ast returns, and it raises no failed assert.
abbrev Ends : Parsed → Type 0
Ends (parsed t) = IsHashSet t.builder.keys
Ends (raised e) = e ≢ assertion_failed

at_end-Ends : (s : State) → IsHashSet s.builder.keys → Ends (at_end s)
at_end-Ends s k = elim (Bool-cases (same_type s.n.type eof)) [
  | inl ended ↦ rw ended k
  | inr more ↦ rw more (λ e. cc)
]

next-Ends :
    (f : ℕ) (r : Turn)
    → ((s : State) → IsBalanced s → Ends (parse_loop f s.controls s))
    → Leaves r
    → Ends
        (elim r [ go s₁ ↦ parse_loop f s₁.controls s₁ | stop s₁ ↦ at_end s₁ | raise e ↦ raised e ])
next-Ends f (go s) later h = later s h
next-Ends f (stop s) later h = at_end-Ends s h
next-Ends f (raise e) later h = λ same. elim h [ inl malformed ↦ cc | inr deep ↦ cc ]

loop-Ends :
    (f : ℕ) (k : List Symbol) (s : State)
    → length s.builder.scopes ≡ marks k
    → IsHashSet s.builder.keys
    → Ends (parse_loop f k s)
unfolding parse_loop
loop-Ends f [] s h keys = at_end-Ends s keys
loop-Ends zero (x ∷ rest) s h keys = λ e. cc
loop-Ends (suc f) (x ∷ rest) s h keys =
    next-Ends f (turn x (popped rest s)) (λ s₁ b. loop-Ends f s₁.controls s₁ b.open_scopes b.keys)
      (turn-Leaves x s rest h keys)

parse_ast-Ends :
    (l : Lexer) (keys : HashSet) (pool : KeyPool) → IsHashSet keys → Ends (parse_ast l keys pool)
unfolding parse_ast start
parse_ast-Ends l keys pool inv =
    loop-Ends (parse_fuel l) (rule_json ∷ []) (start l keys pool) refl inv

outcome :
    (r : Parsed)
    → r ≢ raised out_of_fuel
    → Ends r
    → ((t : State) × (r ≡ parsed t) × IsHashSet t.builder.keys)
      ⊎ ((r ≡ raised malformed_json) ⊎ (r ≡ raised maximum_nested_depth_reached))
outcome (parsed t) n h = inl (t, refl, h)
outcome (raised malformed_json) n h = inr (inl refl)
outcome (raised maximum_nested_depth_reached) n h = inr (inr refl)
outcome (raised assertion_failed) n h = absurd (h refl)
outcome (raised out_of_fuel) n h = absurd (n refl)

-- On a well-formed set of keys parse_ast returns and leaves the set well formed, or raises
-- MALFORMED_JSON or MAXIMUM_NESTED_DEPTH_REACHED; it never pops a scope that is not there.
pub parse_ast-outcome :
    (l : Lexer) (keys : HashSet) (pool : KeyPool)
    → IsHashSet keys
    → ((t : State) × (parse_ast l keys pool ≡ parsed t) × IsHashSet t.builder.keys)
      ⊎ ((parse_ast l keys pool ≡ raised malformed_json)
          ⊎ (parse_ast l keys pool ≡ raised maximum_nested_depth_reached))
parse_ast-outcome l keys pool inv =
    outcome (parse_ast l keys pool) (parse_ast_total l keys pool) (parse_ast-Ends l keys pool inv)
