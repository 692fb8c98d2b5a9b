-- ===== src/Parser/Fuel.antt =====
-- src/parser/parser.c: the loop of parse_ast ends, whatever the source.
mod Measure
use jsonv.Base.{
  ℕ, zero, suc, ◌+◌, ◌*◌, ◌≤◌, ◌<◌, ◌≡◌, ◌≢◌, refl, ap, ◌∙◌, true, false, List, [], ◌∷◌, arith,
  length, ltb, Bool-cases, inl, inr, if◌then◌else◌,
}
use jsonv.Token.{TokenType, error, eof, bracket_open, bracket_close, comma, brace_open, brace_close}
use jsonv.Lexer.Cursor.{Lexer}
use jsonv.Lexer.{lexer_next_token}
use jsonv.Lexer.Progress.{lexer_next_token-Keeps}
use jsonv.Parser.Build.{same_type, Scope}
use jsonv.HashSet.{HashSet}
use jsonv.Ast.{KeyPool, AstType, object, array}
use jsonv.Parser.{
  Symbol, terminal, rule_json, rule_value, rule_object, rule_members, rule_pair, rule_array,
  rule_elements, rule_next_member, rule_next_element, mark_object_end, mark_array_end, Fault,
  out_of_fuel, State, Turn, go, stop, raise, shift, leave_or_go, is_leaf, max_json_depth,
  match_terminal, expand_value, expand_container, expand_next, close_scope, turn, raised, at_end,
  popped, parse_loop, start, parse_fuel, parse_ast, add_leaf, is_empty,
}
use jsonv.Parser.Fuel.Measure.{
  weight, weights, lead, counts, ahead, measure, lead-le, same_type-eof, same_type-ne-eof,
  next-counts, shift-ahead, shift-controls, Shrinks, leave_or_go-Shrinks, weight-taken, taken,
  match_terminal-Shrinks, weight-le, expand_value-Shrinks, expand_container-Shrinks,
  expand_next-Shrinks, close_scope-Shrinks,
}

-- No turn that goes on lets the measure stand.
turn-Shrinks : (x : Symbol) (s : State) → Shrinks x s (turn x s)
unfolding turn
turn-Shrinks (terminal t) s = match_terminal-Shrinks t s
turn-Shrinks rule_json s = omega arith
turn-Shrinks rule_value s = expand_value-Shrinks s
turn-Shrinks rule_object s =
    expand_container-Shrinks object brace_open brace_close rule_members mark_object_end rule_object
      s (omega arith)
turn-Shrinks rule_array s =
    expand_container-Shrinks array bracket_open bracket_close rule_elements mark_array_end
      rule_array s (omega arith)
turn-Shrinks rule_members s = omega arith
turn-Shrinks rule_pair s = omega arith
turn-Shrinks rule_next_member s =
    expand_next-Shrinks rule_next_member rule_members s refl refl (omega arith)
turn-Shrinks rule_elements s = omega arith
turn-Shrinks rule_next_element s =
    expand_next-Shrinks rule_next_element rule_elements s refl refl (omega arith)
turn-Shrinks mark_object_end s = close_scope-Shrinks mark_object_end s s.builder.scopes refl refl
turn-Shrinks mark_array_end s = close_scope-Shrinks mark_array_end s s.builder.scopes refl refl

weight-pos : (x : Symbol) → 0 < weight x
weight-pos (terminal eof) = omega arith
weight-pos (terminal error) = omega arith
weight-pos (terminal _) = omega arith
weight-pos rule_json = omega arith
weight-pos rule_value = omega arith
weight-pos rule_members = omega arith
weight-pos rule_elements = omega arith
weight-pos _ = omega arith

at_end-ne-fuel : (s : State) → at_end s ≢ raised out_of_fuel
at_end-ne-fuel s e = ground arith

close_scope-ne-fuel : (scopes : List Scope) (s : State) → close_scope scopes s ≢ raise out_of_fuel
unfolding close_scope
close_scope-ne-fuel [] s e = cc
close_scope-ne-fuel (scope ∷ below) s e = cc

expand_container-ne-fuel :
    (type : AstType) (opening closing : TokenType) (contents mark : Symbol) (s : State)
    → expand_container type opening closing contents mark s ≢ raise out_of_fuel
unfolding expand_container
expand_container-ne-fuel type opening closing contents mark s e = ground arith

turn-ne-fuel : (x : Symbol) (s : State) → turn x s ≢ raise out_of_fuel
unfolding turn match_terminal expand_value expand_next
turn-ne-fuel rule_object s e = expand_container-ne-fuel _ _ _ _ _ s e
turn-ne-fuel rule_array s e = expand_container-ne-fuel _ _ _ _ _ s e
turn-ne-fuel mark_object_end s e = close_scope-ne-fuel s.builder.scopes s e
turn-ne-fuel mark_array_end s e = close_scope-ne-fuel s.builder.scopes s e
turn-ne-fuel _ s e = ground arith

raised-injective : {a b : Fault} → raised a ≡ raised b → a ≡ b
raised-injective h = cc

round_total :
    (f : ℕ) (x : Symbol) (rest : List Symbol) (s : State) (t : Turn)
    → turn x (popped rest s) ≡ t
    → ((s₁ : State) → t ≡ go s₁ → parse_loop f s₁.controls s₁ ≢ raised out_of_fuel)
    → parse_loop (suc f) (x ∷ rest) s ≢ raised out_of_fuel
unfolding parse_loop
round_total f x rest s (go s₁) h later e = later s₁ refl (rw (parse_loop, h) at e)
round_total f x rest s (stop s₁) h later e = at_end-ne-fuel s₁ (rw (parse_loop, h) at e)
round_total f x rest s (raise fault) h later e =
    let k : raised fault ≡ raised out_of_fuel = rw (parse_loop, h) at e in
    turn-ne-fuel x (popped rest s) (h ∙ ap raise (raised-injective k))

-- On fuel for the measure the loop does not run out of it.
parse_loop_total :
    (f : ℕ) (symbols : List Symbol) (s : State)
    → measure symbols s ≤ f
    → parse_loop f symbols s ≢ raised out_of_fuel
unfolding parse_loop
parse_loop_total f [] s h = at_end-ne-fuel s
parse_loop_total zero (x ∷ rest) s h = absurd (omega (arith, weight-pos x))
parse_loop_total (suc f) (x ∷ rest) s h =
    round_total f x rest s (turn x (popped rest s)) refl λ s₁ e. parse_loop_total f s₁.controls s₁ (
      let shrinks : Shrinks x (popped rest s) (go s₁) = rw e at (turn-Shrinks x (popped rest s)) in
      omega (arith, shrinks))

-- parse_ast ends on every source, set and pool: its fuel, seven turns for each byte and 32,
-- is enough.
pub parse_ast_total :
    (l : Lexer) (keys : HashSet) (pool : KeyPool) → parse_ast l keys pool ≢ raised out_of_fuel
unfolding parse_ast start parse_fuel
parse_ast_total l keys pool =
    let (c, l₁) = lexer_next_token l in
    parse_loop_total _ _ _ (omega (arith, next-counts l, next-counts l₁))
