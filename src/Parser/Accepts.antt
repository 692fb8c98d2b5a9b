-- ===== src/Parser/Accepts.antt =====
-- src/parser/parser.c: parse_ast accepts every JSON text of the grammar that nests at most 64 deep.
use mathlib.Core.List.{append-nil}
use jsonv.Base.{ℕ, zero, suc, ◌≡◌, ◌≢◌, refl, sym, ap, ◌∙◌, List, [], ◌∷◌, ◌++◌, inl, inr}
use jsonv.Token.{TokenType, eof}
use jsonv.Lexer.Cursor.{Lexer}
use jsonv.Lexer.{lexer_next_token}
use jsonv.HashSet.{HashSet}
use jsonv.Ast.{KeyPool}
use jsonv.Parser.Grammar.{Value}
use jsonv.Parser.Tokens.{
  Feed, in_front, in_front-nil, Feed-next, Left, Left-with, Left-end, shift-Left-nil, same_type_iff,
}
use jsonv.Parser.Runs.{Runs, step, parse_loop-Runs, shift_builder}
use jsonv.Parser.Complete.{value-After}
use jsonv.Parser.Containers.{cons-ne-nil}
use jsonv.Parser.Fuel.{parse_ast_total}
use jsonv.Parser.{
  terminal, rule_json, rule_value, out_of_fuel, State, go, push, shift, match_terminal, turn,
  popped, parse_loop, start, parse_fuel, parse_ast, parsed, raised, add_leaf,
}

-- In front of the loop nothing has been taken.
pub start-Left :
    (l : Lexer) (keys : HashSet) (pool : KeyPool) (ts : List TokenType)
    → Feed l ts
    → Left (start l keys pool) ts
unfolding start
start-Left l keys pool ts f =
    let (a, fa, split, stop_a) = Feed-next f in
    let (b, fb, split_b, stop_b) = Feed-next fa in
    record {
      unread = b;
      feed = fb;
      split = split ∙ ap (in_front (lexer_next_token l).0.type) split_b;
      after_c = λ k. in_front-nil _ b (sym (stop_a k) ∙ split_b);
      after_n = stop_b;
    }

-- The last turn takes `eof`.
last_turn :
    (g : ℕ) (s : State)
    → s.controls ≡ terminal eof ∷ []
    → Left s []
    → (t : State) × (parse_loop (suc g) s.controls s ≡ parsed t)
unfolding parse_loop turn match_terminal
last_turn g s e w =
    let b = add_leaf s.c s.builder in
    let s₁ = record s { controls = []; builder = b } in
    let w₁ = shift-Left-nil s₁ (Left-with w [] s.depth b) in
    let c = (same_type_iff eof s.c.type).1 (sym (Left-end s w).0) in
    let n = (same_type_iff (shift s₁).n.type eof).1 (Left-end (shift s₁) w₁).1 in
    (shift s₁, rw (e, parse_loop, c, n, (shift_builder s₁).2, parse_loop) (rw n refl))

ended_loop :
    (g : ℕ) (s : State)
    → s.controls ≡ terminal eof ∷ []
    → Left s []
    → parse_loop g s.controls s ≢ raised out_of_fuel
    → (t : State) × (parse_loop g s.controls s ≡ parsed t)
unfolding parse_loop
ended_loop zero s e w n = absurd (n (rw e refl))
ended_loop (suc g) s e w n = last_turn g s e w

json_turn : (s : State) → turn rule_json s ≡ go (push (rule_value ∷ terminal eof ∷ []) s)
unfolding turn
json_turn s = refl

-- If the lexer returns from `l` on the tokens of a JSON value that nests at most 64 deep, and then
-- `eof`, parse_ast returns, whatever set and pool it is given.
pub parse_ast-accepts :
    (l : Lexer) (keys : HashSet) (pool : KeyPool) (ts : List TokenType)
    → Feed l ts
    → Value 64 ts
    → (t : State) × (parse_ast l keys pool ≡ parsed t)
unfolding parse_ast start
parse_ast-accepts l keys pool ts f v =
    let s = start l keys pool in
    let k = rule_value ∷ terminal eof ∷ [] in
    let w : Left s (ts ++ []) = rw append-nil (start-Left l keys pool ts f) in
    let s₁ = record s { controls = k } in
    let a =
      value-After v s₁ (terminal eof ∷ []) [] refl (cons-ne-nil _ _) (Left-with w k 0 s.builder)
        refl in
    let fuel = parse_fuel l in
    let whole : Runs s a.result = step rule_json [] refl (json_turn (popped [] s)) a.runs in
    let total = parse_ast_total l keys pool in
    elim (parse_loop-Runs fuel whole) [
      | inl out ↦ absurd (total out)
      | inr (g, same) ↦
          let (t, e) = ended_loop g a.result a.controls a.left (λ out. total (same ∙ out)) in
          (t, same ∙ e)
    ]
