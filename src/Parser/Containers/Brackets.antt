-- ===== src/Parser/Containers/Brackets.antt =====
-- src/parser/parser.c: how parse_ast works off a container, from its opening token to its mark.
use mathlib.Core.List.{append_assoc}
use jsonv.Base.{
  ℕ, suc, ◌+◌, ◌-◌, ◌≤◌, ◌≡◌, ◌≢◌, refl, ap, ◌∙◌, false, List, [], ◌∷◌, ◌++◌, arith, length, ltb,
  if◌then◌else◌,
}
use jsonv.Token.{TokenType, Token}
use jsonv.Ast.{AstType}
use jsonv.Parser.Build.{same_type, Scope, Builder}
use jsonv.Parser.Tokens.{Left, Left-with, Left-n, same_type_iff}
use jsonv.Parser.Scopes.Links.{add_node-Steps}
use jsonv.Parser.Runs.{here, step, Runs-trans, After, After-trans, terminal-After}
use jsonv.Parser.{
  Symbol, terminal, State, go, expand_container, close_scope, turn, popped, open_scope,
  max_json_depth,
}

-- What every lemma below says of a symbol on top of the stack, with the tokens `ts` for it.
abbrev pub WorksOff : Symbol → ℕ → List TokenType → Type 0
WorksOff x k ts =
    (s : State) (rest : List Symbol) (r : List TokenType)
    → s.controls ≡ x ∷ rest
    → rest ≢ []
    → Left s (ts ++ r)
    → s.depth + k ≡ max_json_depth
    → After s rest r

-- The same where the token `u` follows.
abbrev pub WorksOffBefore : TokenType → Symbol → ℕ → List TokenType → Type 0
WorksOffBefore u x k ts =
    (s : State) (rest : List Symbol) (r : List TokenType)
    → s.controls ≡ x ∷ rest
    → rest ≢ []
    → Left s (ts ++ (u ∷ r))
    → s.depth + k ≡ max_json_depth
    → After s rest (u ∷ r)

pub cons-ne-nil : (x : Symbol) (xs : List Symbol) → x ∷ xs ≢ []
cons-ne-nil x xs e = cc

pub open_scope-length :
    (type : AstType) (t : Token) (b : Builder)
    → length (open_scope type t b).scopes ≡ suc (length b.scopes)
unfolding open_scope
open_scope-length type t b = ap suc ((add_node-Steps type t b).scopes)

-- The mark at the end of a container closes its scope.
pub closing_turn :
    (scopes : List Scope) (s : State) (m : ℕ)
    → length scopes ≡ suc m
    → (t : State) × (close_scope scopes s ≡ go t)
      × (t.controls ≡ s.controls)
      × (t.depth ≡ s.depth - 1)
      × (length t.builder.scopes ≡ m)
      × ((r : List TokenType) → Left s r → Left t r)
unfolding close_scope
closing_turn [] s m h = absurd (omega arith)
closing_turn (scope ∷ below) s m h = (
  record s { depth = s.depth - 1; builder = record s.builder { scopes = below } },
  refl,
  refl,
  refl,
  omega arith,
  λ r w. Left-with w s.controls (s.depth - 1) (record s.builder { scopes = below }),
)

-- A container: a turn that opens it, its tokens, and the mark.
pub container-After :
    (x mark : Symbol) (s s₁ : State) (rest : List Symbol) (r : List TokenType)
    → s.controls ≡ x ∷ rest
    → turn x (popped rest s) ≡ go s₁
    → s₁.depth ≡ s.depth + 1
    → length s₁.builder.scopes ≡ suc (length s.builder.scopes)
    → ((t : State) → turn mark t ≡ close_scope t.builder.scopes t)
    → After s₁ (mark ∷ rest) r
    → After s rest r
container-After x mark s s₁ rest r e h d k m a =
    let t = a.result in
    let (u, close, uc, ud, us, left) =
      closing_turn t.builder.scopes (popped rest t) (length s.builder.scopes) (a.scopes ∙ k) in
    record {
      result = u;
      runs =
          step x rest e h
            (Runs-trans a.runs (step mark rest a.controls (m (popped rest t) ∙ close) here));
      controls = uc;
      left = left r (Left-with a.left rest t.depth t.builder);
      depth = ud ∙ omega (arith, a.depth, d);
      scopes = us;
    }

module _ (type : AstType) (opening closing : TokenType) (contents mark x : Symbol) where
  pub opened : List Symbol → State → List Symbol → State
  opened inner s rest = record s {
    depth = s.depth + 1;
    builder = open_scope type s.c s.builder;
    controls = terminal opening ∷ (inner ++ (terminal closing ∷ mark ∷ rest));
  }

  pub opening_turn :
      (s : State) (rest : List Symbol) (inner : List Symbol)
      → s.depth + 1 ≤ max_json_depth
      → (if same_type s.n.type closing then [] else contents ∷ []) ≡ inner
      → expand_container type opening closing contents mark (popped rest s)
        ≡ go (opened inner s rest)
  unfolding expand_container opened
  opening_turn s rest inner h e =
      let fits : ltb max_json_depth (s.depth + 1) ≡ false = ground arith in rw (fits, e)

  module _
      (is_turn : (s : State) → turn x s ≡ expand_container type opening closing contents mark s)
      (is_mark : (s : State) → turn mark s ≡ close_scope s.builder.scopes s) where
    pub empty-After : (k : ℕ) → WorksOff x (suc k) (opening ∷ closing ∷ [])
    unfolding opened
    empty-After k s rest r e n w d =
        let test = (same_type_iff s.n.type closing).1 (Left-n s w) in
        let s₁ = opened [] s rest in
        let w₁ = Left-with w s₁.controls s₁.depth s₁.builder in
        let a =
          terminal-After opening (terminal closing ∷ mark ∷ rest) (closing ∷ r) s₁ refl
            (cons-ne-nil _ _) w₁ in
        let b =
          terminal-After closing (mark ∷ rest) r a.result a.controls (cons-ne-nil _ _) a.left in
        container-After x mark s s₁ rest r e
          (is_turn (popped rest s) ∙ opening_turn s rest [] (omega arith) (rw test refl)) refl
          (open_scope-length type s.c s.builder) is_mark (After-trans a b)

    pub full-After :
        (k : ℕ) (ms : List TokenType)
        → WorksOffBefore closing contents k ms
        → ((s : State) (r : List TokenType)
            → Left s (opening ∷ (ms ++ r))
            → same_type s.n.type closing ≡ false)
        → WorksOff x (suc k) (opening ∷ (ms ++ (closing ∷ [])))
    unfolding opened
    full-After k ms inside other s rest r e n w d =
        let w' : Left s (opening ∷ (ms ++ (closing ∷ r))) = rw append_assoc at w in
        let s₁ = opened (contents ∷ []) s rest in
        let w₁ = Left-with w' s₁.controls s₁.depth s₁.builder in
        let a =
          terminal-After opening (contents ∷ terminal closing ∷ mark ∷ rest) (ms ++ (closing ∷ r))
            s₁ refl (cons-ne-nil _ _) w₁ in
        let b =
          inside a.result (terminal closing ∷ mark ∷ rest) r a.controls (cons-ne-nil _ _) a.left
            (omega (arith, a.depth)) in
        let c =
          terminal-After closing (mark ∷ rest) r b.result b.controls (cons-ne-nil _ _) b.left in
        container-After x mark s s₁ rest r e
          (is_turn (popped rest s)
            ∙ opening_turn s rest (contents ∷ []) (omega arith)
                (rw (other s (closing ∷ r) w') refl))
          refl (open_scope-length type s.c s.builder) is_mark (After-trans a (After-trans b c))
