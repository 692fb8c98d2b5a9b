-- ===== src/Parser/Fuel/Measure.antt =====
-- src/parser/parser.c: a measure of the control stack and of the tokens ahead, and the turns that lower it.
use jsonv.Base.{
  ℕ, ◌+◌, ◌*◌, ◌≤◌, ◌<◌, ◌≡◌, ◌≢◌, refl, true, false, List, [], ◌∷◌, arith, length, ltb, Bool-cases,
  inl, inr, if◌then◌else◌,
}
use jsonv.Token.{TokenType, error, eof, bracket_open, comma, brace_open}
use jsonv.Lexer.Cursor.{Lexer}
use jsonv.Lexer.{lexer_next_token}
use jsonv.Lexer.Progress.{lexer_next_token-Keeps}
use jsonv.Parser.Build.{same_type, Scope}
use jsonv.Ast.{AstType}
use jsonv.Parser.{
  Symbol, terminal, rule_json, rule_value, rule_object, rule_members, rule_pair, rule_array,
  rule_elements, rule_next_member, rule_next_element, mark_object_end, mark_array_end, State, Turn,
  go, stop, raise, shift, leave_or_go, is_leaf, max_json_depth, match_terminal, expand_value,
  expand_container, expand_next, close_scope, add_leaf, is_empty,
}

-- Turns that a symbol stands for, but for those that a token pays.
abbrev pub weight : Symbol → ℕ
weight (terminal eof) = 8
weight (terminal _) = 1
weight rule_json = 11
weight rule_value = 2
weight rule_members = 3
weight rule_elements = 4
weight _ = 1

abbrev pub weights : List Symbol → ℕ
weights [] = 0
weights (x ∷ xs) = weight x + weights xs

-- A token pays seven turns: the one that takes it, and those up to the next such turn.
abbrev pub lead : List Symbol → ℕ
lead [] = 0
lead (terminal t ∷ xs) = 0
lead (x ∷ xs) = 7

abbrev pub counts : TokenType → ℕ
counts t = if same_type t eof then 0 else 1

-- An upper bound of the tokens that are not yet taken.
abbrev pub ahead : State → ℕ
ahead s = length s.lexer.rest + counts s.n.type + counts s.c.type

abbrev pub measure : List Symbol → State → ℕ
measure symbols s = 7 * ahead s + weights symbols + lead symbols

pub lead-le : (xs : List Symbol) → lead xs ≤ 7
lead-le [] = omega arith
lead-le (terminal t ∷ xs) = omega arith
lead-le (rule_json ∷ xs) = omega arith
lead-le (rule_value ∷ xs) = omega arith
lead-le (rule_object ∷ xs) = omega arith
lead-le (rule_members ∷ xs) = omega arith
lead-le (rule_pair ∷ xs) = omega arith
lead-le (rule_array ∷ xs) = omega arith
lead-le (rule_elements ∷ xs) = omega arith
lead-le (rule_next_member ∷ xs) = omega arith
lead-le (rule_next_element ∷ xs) = omega arith
lead-le (mark_object_end ∷ xs) = omega arith
lead-le (mark_array_end ∷ xs) = omega arith

pub same_type-eof : (t : TokenType) → same_type t eof ≡ true → t ≡ eof
unfolding same_type
same_type-eof t h = ground arith

pub same_type-ne-eof : (t : TokenType) → same_type t eof ≡ false → t ≢ eof
unfolding same_type
same_type-ne-eof t h e = ground arith

pub next-counts :
    (l : Lexer)
    → length (lexer_next_token l).1.rest + counts (lexer_next_token l).0.type ≤ length l.rest
next-counts l = elim (Bool-cases (same_type (lexer_next_token l).0.type eof)) [
  | inl ended ↦
      let k = lexer_next_token-Keeps l in rw ended (omega (arith, k.0.same_end, k.0.forward))
  | inr more ↦
      let k = lexer_next_token-Keeps l in
      let moved = k.1 (same_type-ne-eof _ more) in rw more (omega (arith, k.0.same_end, moved))
]

pub shift-ahead : (s : State) → ahead (shift s) + counts s.c.type ≤ ahead s
unfolding shift
shift-ahead s = omega (arith, next-counts s.lexer)

pub shift-controls : (s : State) → (shift s).controls ≡ s.controls
unfolding shift
shift-controls s = refl

-- The symbols left by a turn that goes on measure less than those before it.
abbrev pub Shrinks : Symbol → State → Turn → Type 0
Shrinks x s (go t) = measure t.controls t < measure (x ∷ s.controls) s
Shrinks x s (stop t) = Unit
Shrinks x s (raise e) = Unit

pub leave_or_go-Shrinks :
    (x : Symbol) (s t : State)
    → measure t.controls t < measure (x ∷ s.controls) s
    → Shrinks x s (leave_or_go t)
leave_or_go-Shrinks x s t h = elim (Bool-cases (same_type t.n.type eof)) [
  | inr more ↦ rw more h
  | inl ended ↦ elim (Bool-cases (is_empty t.controls)) [
    | inr left ↦ rw (ended, left) h
    | inl empty ↦ rw (ended, empty) tt
  ]
]

pub weight-taken : (t u : TokenType) → same_type t u ≡ true → 8 ≤ weight (terminal t) + 7 * counts u
unfolding same_type
weight-taken eof u h = omega arith
weight-taken t u h = ground arith

pub taken :
    (t : TokenType) (s s' : State)
    → same_type t s.c.type ≡ true
    → s'.controls ≡ s.controls
    → ahead s' + counts s.c.type ≤ ahead s
    → measure s'.controls s' < measure (terminal t ∷ s.controls) s
taken t s s' h e k = rw e (omega (arith, lead-le s.controls, weight-taken t s.c.type h))

pub match_terminal-Shrinks :
    (t : TokenType) (s : State) → Shrinks (terminal t) s (match_terminal t s)
unfolding match_terminal
match_terminal-Shrinks t s = elim (Bool-cases (same_type t s.c.type)) [
  | inr other ↦ rw other tt
  | inl same ↦
      let s₁ = record s { builder = add_leaf s.c s.builder } in
      rw same (
        leave_or_go-Shrinks (terminal t) s (shift s₁)
          (taken t s (shift s₁) same (shift-controls s₁) (shift-ahead s₁)))
]

pub weight-le : (t : TokenType) → weight (terminal t) ≤ 8
weight-le eof = omega arith
weight-le error = omega arith
weight-le _ = omega arith

-- An expansion leaves the tokens as they are.
pub expand_value-Shrinks : (s : State) → Shrinks rule_value s (expand_value s)
unfolding expand_value
expand_value-Shrinks s = elim (Bool-cases (same_type s.c.type brace_open)) [
  | inl brace ↦ rw brace (omega arith)
  | inr n₁ ↦ elim (Bool-cases (same_type s.c.type bracket_open)) [
    | inl bracket ↦ rw (n₁, bracket) (omega arith)
    | inr n₂ ↦ elim (Bool-cases (is_leaf s.c.type)) [
      | inl value ↦ rw (n₁, n₂, value) (omega (arith, weight-le s.c.type))
      | inr n₃ ↦ rw (n₁, n₂, n₃) tt
    ]
  ]
]

module _ (type : AstType) (opening closing : TokenType) (contents mark : Symbol) where
  pub expand_container-Shrinks :
      (x : Symbol) (s : State)
      → weight (terminal opening) + weight (terminal closing) + weight contents + weight mark
        < weight x + lead (x ∷ s.controls)
      → Shrinks x s (expand_container type opening closing contents mark s)
  unfolding expand_container
  expand_container-Shrinks x s h = elim (Bool-cases (ltb max_json_depth (s.depth + 1))) [
    | inl deep ↦ rw deep tt
    | inr fits ↦ elim (Bool-cases (same_type s.n.type closing)) [
      | inl empty ↦ rw (fits, empty) (omega arith)
      | inr full ↦ rw (fits, full) (omega arith)
    ]
  ]

pub expand_next-Shrinks :
    (x contents : Symbol) (s : State)
    → lead (x ∷ s.controls) ≡ 7
    → weight x ≡ 1
    → weight contents ≤ 4
    → Shrinks x s (expand_next contents s)
unfolding expand_next
expand_next-Shrinks x contents s h k m = elim (Bool-cases (same_type s.c.type comma)) [
  | inl more ↦ rw more (omega arith)
  | inr last ↦ rw last (omega (arith, lead-le s.controls))
]

pub close_scope-Shrinks :
    (x : Symbol) (s : State) (scopes : List Scope)
    → lead (x ∷ s.controls) ≡ 7
    → weight x ≡ 1
    → Shrinks x s (close_scope scopes s)
unfolding close_scope
close_scope-Shrinks x s [] h k = tt
close_scope-Shrinks x s (scope ∷ below) h k = omega (arith, lead-le s.controls)
