-- ===== src/Parser/Sound/Symbols.antt =====
-- src/parser/parser.c: what a token, pushed symbols and a value mean, from what their turn leaves.
use mathlib.Core.Path.{subst}
use jsonv.Base.{
  ◌≡◌, ◌≢◌, refl, true, List, [], ◌∷◌, ◌++◌, arith, inl, inr, Bool-cases, if◌then◌else◌,
}
use jsonv.Token.{TokenType, eof, brace_open, bracket_open}
use jsonv.Parser.Build.{same_type}
use jsonv.Parser.Grammar.{leaf_value}
use jsonv.Parser.Tokens.{Left, Left-with, same_type_iff}
use jsonv.Parser.Means.{Means, Sound, Next, behind, terminal-Means}
use jsonv.Parser.{
  Symbol, terminal, rule_value, rule_object, rule_array, State, go, stop, shift, leave_or_go,
  is_leaf, match_terminal, push, expand_value, popped, is_empty,
}

-- With nothing on the stack the loop is left, else it goes on.
stop-Sound :
    (s : State) (k : List Symbol) (us : List TokenType)
    → s.controls ≡ k
    → Next (if is_empty s.controls then stop s else go s)
    → Left s us
    → Means s.depth k us
stop-Sound s [] us e h w = tt
stop-Sound s (x ∷ xs) us e h w =
    let sound : Sound s = subst (λ k. Next (if is_empty k then stop s else go s)) e h in
    subst (λ k. Means s.depth k us) e (sound us w)

-- Taking a token, from what the turn leaves.
leave-Sound :
    (s : State) (us : List TokenType)
    → Next (leave_or_go s)
    → Left s us
    → Means s.depth s.controls us
leave-Sound s us h w = elim (Bool-cases (same_type s.n.type eof)) [
  | inr more ↦ (rw more at h) us w
  | inl ended ↦ stop-Sound s s.controls us refl (rw ended at h) w
]

pub match-Means :
    (t : TokenType) (s : State) (rest : List Symbol) (ts : List TokenType)
    → Left s ts
    → Next (match_terminal t (popped rest s))
    → Means s.depth (terminal t ∷ rest) ts
unfolding match_terminal shift
match-Means t s rest ts w h = elim (Bool-cases (same_type t s.c.type)) [
  | inr other ↦ absurd (rw other at h)
  | inl same ↦
      terminal-Means t s rest ts ((same_type_iff t s.c.type).0 same) w
        (λ us w₁. leave-Sound _ us (rw same at h) w₁)
]

-- The symbols that a rule puts in its place, from what the turn leaves.
pub push-Means :
    (symbols : List Symbol) (s : State) (rest : List Symbol) (ts : List TokenType)
    → Left s ts
    → Sound (push symbols (popped rest s))
    → Means s.depth (symbols ++ rest) ts
push-Means symbols s rest ts w h = h ts (Left-with w (symbols ++ rest) s.depth s.builder)

ne_eof : (t : TokenType) → is_leaf t ≡ true → t ≢ eof
unfolding is_leaf same_type
ne_eof t = ground arith

-- A value: an object, an array or a leaf.
pub value-Means :
    (s : State) (rest : List Symbol) (ts : List TokenType)
    → Left s ts
    → Next (expand_value (popped rest s))
    → Means s.depth (rule_value ∷ rest) ts
unfolding expand_value
value-Means s rest ts w h = elim (Bool-cases (same_type s.c.type brace_open)) [
  | inl b ↦ push-Means (rule_object ∷ []) s rest ts w (rw b at h)
  | inr no_brace ↦
      let h₁ = rw no_brace at h in
      elim (Bool-cases (same_type s.c.type bracket_open)) [
        | inl b ↦ push-Means (rule_array ∷ []) s rest ts w (rw b at h₁)
        | inr no_bracket ↦
            let h₂ = rw no_bracket at h₁ in
            elim (Bool-cases (is_leaf s.c.type)) [
              | inr other ↦ absurd (rw other at h₂)
              | inl l ↦
                  let m = push-Means (terminal s.c.type ∷ []) s rest ts w (rw l at h₂) in
                  let (us, e, later) = behind s.c.type s.depth rest ts (ne_eof s.c.type l) m in
                  (s.c.type ∷ [], us, e, leaf_value l refl, later)
            ]
      ]
]
