-- ===== src/Parser/Sound/Scopes.antt =====
-- src/parser/parser.c: what `RULE_OBJECT` and `RULE_ARRAY` mean, from what their turn leaves.
use mathlib.Core.List.{append_assoc}
use mathlib.Core.Path.{subst}
use jsonv.Base.{
  ℕ, suc, ◌+◌, ◌-◌, ◌≡◌, ◌≢◌, ◌⊎◌, refl, sym, ap, ◌∙◌, List, [], ◌∷◌, ◌++◌, arith, inl, inr, ltb,
  Bool-cases, if◌then◌else◌,
}
use jsonv.Token.{TokenType, eof, brace_open, brace_close, bracket_open, bracket_close}
use jsonv.Ast.{AstType, object, array}
use jsonv.Parser.Build.{same_type}
use jsonv.Parser.Grammar.{Value, empty_object, full_object, empty_array, full_array}
use jsonv.Parser.Tokens.{Left, Left-with}
use jsonv.Parser.Means.{Means, room, Next, behind}
use jsonv.Parser.{
  Symbol, terminal, rule_object, rule_members, rule_array, rule_elements, mark_object_end,
  mark_array_end, State, expand_container, open_scope, popped, max_json_depth,
}

-- What stands behind the opening token of a container.
abbrev Inside : ℕ → TokenType → Symbol → Symbol → List Symbol → List TokenType → Type 0
Inside d closing contents mark rest us =
    ((vs : List TokenType) × (us ≡ closing ∷ vs) × Means d (mark ∷ rest) vs)
    ⊎ Means d (contents ∷ terminal closing ∷ mark ∷ rest) us

inside :
    (type : AstType) (opening closing : TokenType) (contents mark : Symbol) (s : State)
    (rest : List Symbol) (ts : List TokenType)
    → opening ≢ eof
    → closing ≢ eof
    → Left s ts
    → Next (expand_container type opening closing contents mark (popped rest s))
    → (us : List TokenType) × (room s.depth ≡ suc (room (s.depth + 1)))
      × (ts ≡ opening ∷ us)
      × Inside (s.depth + 1) closing contents mark rest us
unfolding expand_container
inside type opening closing contents mark s rest ts n_opening n_closing w h =
    elim (Bool-cases (ltb max_json_depth (s.depth + 1))) [
      | inl deep ↦ absurd (rw deep at h)
      | inr shallow ↦
          let h₁ = rw shallow at h in
          let k =
            (if same_type s.n.type closing then [] else contents ∷ [])
            ++ (terminal closing ∷ mark ∷ rest) in
          let m =
            h₁ ts
              (Left-with w (terminal opening ∷ k) (s.depth + 1) (open_scope type s.c s.builder)) in
          let (us, e, later) = behind opening (s.depth + 1) k ts n_opening m in
          (
            us,
            ground arith,
            e,
            elim (Bool-cases (same_type s.n.type closing)) [
              | inl empty ↦
                  inl (behind closing (s.depth + 1) (mark ∷ rest) us n_closing (rw empty at later))
              | inr full ↦ inr (rw full at later)
            ],
          )
    ]

up :
    (d : ℕ) (rest : List Symbol) (us : List TokenType) → Means (d + 1 - 1) rest us → Means d rest us
up d rest us m = subst (λ k. Means k rest us) (omega arith) m

-- Brackets around what is followed by more.
wrapped :
    {A : Type 0} (x y : A) (ms us vs rs ts : List A)
    → ts ≡ x ∷ us
    → us ≡ ms ++ vs
    → vs ≡ y ∷ rs
    → ts ≡ (x ∷ (ms ++ (y ∷ []))) ++ rs
wrapped x y ms us vs rs ts e f g = rw (e, f, g, append_assoc ms (y ∷ []) rs) refl

pub object-Means :
    (s : State) (rest : List Symbol) (ts : List TokenType)
    → Left s ts
    → Next (
        expand_container object brace_open brace_close rule_members mark_object_end (popped rest s))
    → Means s.depth (rule_object ∷ rest) ts
object-Means s rest ts w h =
    let (us, deeper, e, i) =
      inside object brace_open brace_close rule_members mark_object_end s rest ts (λ k. cc)
        (λ k. cc) w h in
    elim i [
      | inl (vs, e₁, m) ↦ (
        brace_open ∷ brace_close ∷ [],
        vs,
        e ∙ ap (λ r. brace_open ∷ r) e₁,
        subst (λ k. Value k (brace_open ∷ brace_close ∷ [])) (sym deeper) (empty_object refl),
        up s.depth rest vs m,
      )
      | inr (ms, vs, e₁, inner, m) ↦
          let (rs, e₂, later) =
            behind brace_close (s.depth + 1) (mark_object_end ∷ rest) vs (λ k. cc) m in
          let ws = brace_open ∷ (ms ++ (brace_close ∷ [])) in
          (
            ws,
            rs,
            wrapped brace_open brace_close ms us vs rs ts e e₁ e₂,
            subst (λ k. Value k ws) (sym deeper) (full_object inner refl),
            up s.depth rest rs later,
          )
    ]

pub array-Means :
    (s : State) (rest : List Symbol) (ts : List TokenType)
    → Left s ts
    → Next (
        expand_container array bracket_open bracket_close rule_elements mark_array_end
          (popped rest s))
    → Means s.depth (rule_array ∷ rest) ts
array-Means s rest ts w h =
    let (us, deeper, e, i) =
      inside array bracket_open bracket_close rule_elements mark_array_end s rest ts (λ k. cc)
        (λ k. cc) w h in
    elim i [
      | inl (vs, e₁, m) ↦ (
        bracket_open ∷ bracket_close ∷ [],
        vs,
        e ∙ ap (λ r. bracket_open ∷ r) e₁,
        subst (λ k. Value k (bracket_open ∷ bracket_close ∷ [])) (sym deeper) (empty_array refl),
        up s.depth rest vs m,
      )
      | inr (es, vs, e₁, inner, m) ↦
          let (rs, e₂, later) =
            behind bracket_close (s.depth + 1) (mark_array_end ∷ rest) vs (λ k. cc) m in
          let ws = bracket_open ∷ (es ++ (bracket_close ∷ [])) in
          (
            ws,
            rs,
            wrapped bracket_open bracket_close es us vs rs ts e e₁ e₂,
            subst (λ k. Value k ws) (sym deeper) (full_array inner refl),
            up s.depth rest rs later,
          )
    ]
