-- ===== src/Parser/Scopes/Balance.antt =====
-- src/parser/parser.c: after every turn a scope is open for each mark on the control stack.
use jsonv.Base.{
  ℕ, ◌+◌, ◌≡◌, ◌⊎◌, ◌∙◌, refl, sym, List, [], ◌∷◌, arith, inl, inr, length, ltb, Bool-cases,
}
use jsonv.Token.{TokenType, eof, comma, brace_open, brace_close, bracket_open, bracket_close}
use jsonv.HashSet.Members.{IsHashSet}
use jsonv.Ast.{AstType, object, array}
use jsonv.Parser.Build.{same_type, Scope}
use jsonv.Parser.{
  Symbol, terminal, rule_json, rule_value, rule_object, rule_members, rule_pair, rule_array,
  rule_elements, rule_next_member, rule_next_element, mark_object_end, mark_array_end,
  malformed_json, maximum_nested_depth_reached, State, Turn, go, stop, raise, is_leaf, shift,
  is_empty, leave_or_go, match_terminal, expand_value, open_scope, expand_container, expand_next,
  close_scope, turn, popped, max_json_depth,
}
use jsonv.Parser.Scopes.Links.{add_node-Steps, add_leaf-Steps}

-- How many scopes are to be closed.
abbrev pub marks : List Symbol → ℕ
marks [] = 0
marks (mark_object_end ∷ xs) = marks xs + 1
marks (mark_array_end ∷ xs) = marks xs + 1
marks (x ∷ xs) = marks xs

-- A scope is open for each mark.
pub record IsBalanced (s : State) : Type 0 where
  pub open_scopes : length s.builder.scopes ≡ marks s.controls
  pub keys : IsHashSet s.builder.keys

-- What a turn leaves.
abbrev pub Leaves : Turn → Type 0
Leaves (go s) = IsBalanced s
Leaves (stop s) = IsHashSet s.builder.keys
Leaves (raise e) = (e ≡ malformed_json) ⊎ (e ≡ maximum_nested_depth_reached)

shift_builder : (s : State) → ((shift s).builder ≡ s.builder) × ((shift s).controls ≡ s.controls)
unfolding shift
shift_builder s = (refl, refl)

leave-Leaves : (s : State) → IsBalanced s → Leaves (leave_or_go s)
leave-Leaves s h = elim (Bool-cases (same_type s.n.type eof)) [
  | inr more ↦ rw more h
  | inl ended ↦ elim (Bool-cases (is_empty s.controls)) [
    | inl empty ↦ rw (ended, empty) h.keys
    | inr some_left ↦ rw (ended, some_left) h
  ]
]

match-Leaves : (t : TokenType) (s : State) → IsBalanced s → Leaves (match_terminal t s)
unfolding match_terminal shift
match-Leaves t s h = elim (Bool-cases (same_type t s.c.type)) [
  | inr other ↦ rw other (inl refl)
  | inl same ↦
      let step = add_leaf-Steps s.c s.builder in
      rw same (
        leave-Leaves _
          (record { open_scopes = step.scopes ∙ h.open_scopes; keys = step.keys h.keys }))
]

expand_value-Leaves : (s : State) → IsBalanced s → Leaves (expand_value s)
unfolding expand_value
expand_value-Leaves s h = elim (Bool-cases (same_type s.c.type brace_open)) [
  | inl b ↦ rw b (record { open_scopes = h.open_scopes; keys = h.keys })
  | inr no_brace ↦ elim (Bool-cases (same_type s.c.type bracket_open)) [
    | inl b ↦ rw (no_brace, b) (record { open_scopes = h.open_scopes; keys = h.keys })
    | inr no_bracket ↦ elim (Bool-cases (is_leaf s.c.type)) [
      | inl l ↦ rw (no_brace, no_bracket, l) (record { open_scopes = h.open_scopes; keys = h.keys })
      | inr other ↦ rw (no_brace, no_bracket, other) (inl refl)
    ]
  ]
]

-- A container opens a scope and puts a mark.
container-Leaves :
    (type : AstType) (opening closing : TokenType) (contents mark : Symbol) (s : State)
    → ((xs : List Symbol) → marks (contents ∷ xs) ≡ marks xs)
    → ((xs : List Symbol) → marks (mark ∷ xs) ≡ marks xs + 1)
    → IsBalanced s
    → Leaves (expand_container type opening closing contents mark s)
unfolding expand_container open_scope
container-Leaves type opening closing contents mark s inside behind h =
    let step = add_node-Steps type s.c s.builder in
    elim (Bool-cases (ltb max_json_depth (s.depth + 1))) [
      | inl deep ↦ rw deep (inr refl)
      | inr shallow ↦ elim (Bool-cases (same_type s.n.type closing)) [
        | inl empty ↦
            rw (shallow, empty)
              (record {
                open_scopes = omega (arith, step.scopes, h.open_scopes, behind s.controls);
                keys = step.keys h.keys;
              })
        | inr full ↦
            rw (shallow, full)
              (record {
                open_scopes = omega (
                  arith,
                  step.scopes,
                  h.open_scopes,
                  behind s.controls,
                  inside (terminal closing ∷ mark ∷ s.controls),
                );
                keys = step.keys h.keys;
              })
      ]
    ]

expand_next-Leaves :
    (contents : Symbol) (s : State)
    → ((xs : List Symbol) → marks (contents ∷ xs) ≡ marks xs)
    → IsBalanced s
    → Leaves (expand_next contents s)
unfolding expand_next
expand_next-Leaves contents s inside h = elim (Bool-cases (same_type s.c.type comma)) [
  | inl same ↦
      rw same (record { open_scopes = h.open_scopes ∙ sym (inside s.controls); keys = h.keys })
  | inr other ↦ rw other h
]

close_scope-Leaves :
    (scopes : List Scope) (s : State)
    → length scopes ≡ marks s.controls + 1
    → IsHashSet s.builder.keys
    → Leaves (close_scope scopes s)
unfolding close_scope
close_scope-Leaves [] s h k = absurd (omega arith)
close_scope-Leaves (scope ∷ below) s h k = record { open_scopes = omega arith; keys = k }

pub turn-Leaves :
    (x : Symbol) (s : State) (rest : List Symbol)
    → length s.builder.scopes ≡ marks (x ∷ rest)
    → IsHashSet s.builder.keys
    → Leaves (turn x (popped rest s))
unfolding turn
turn-Leaves (terminal t) s rest h k =
    match-Leaves t (popped rest s) (record { open_scopes = h; keys = k })
turn-Leaves rule_json s rest h k = record { open_scopes = h; keys = k }
turn-Leaves rule_value s rest h k =
    expand_value-Leaves (popped rest s) (record { open_scopes = h; keys = k })
turn-Leaves rule_object s rest h k =
    container-Leaves object brace_open brace_close rule_members mark_object_end (popped rest s)
      (λ xs. refl) (λ xs. refl) (record { open_scopes = h; keys = k })
turn-Leaves rule_array s rest h k =
    container-Leaves array bracket_open bracket_close rule_elements mark_array_end (popped rest s)
      (λ xs. refl) (λ xs. refl) (record { open_scopes = h; keys = k })
turn-Leaves rule_members s rest h k = record { open_scopes = h; keys = k }
turn-Leaves rule_pair s rest h k = record { open_scopes = h; keys = k }
turn-Leaves rule_next_member s rest h k =
    expand_next-Leaves rule_members (popped rest s) (λ xs. refl)
      (record { open_scopes = h; keys = k })
turn-Leaves rule_elements s rest h k = record { open_scopes = h; keys = k }
turn-Leaves rule_next_element s rest h k =
    expand_next-Leaves rule_elements (popped rest s) (λ xs. refl)
      (record { open_scopes = h; keys = k })
turn-Leaves mark_object_end s rest h k = close_scope-Leaves s.builder.scopes (popped rest s) h k
turn-Leaves mark_array_end s rest h k = close_scope-Leaves s.builder.scopes (popped rest s) h k
