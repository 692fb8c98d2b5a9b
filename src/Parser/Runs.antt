-- ===== src/Parser/Runs.antt =====
-- src/parser/parser.c: turns of the loop of parse_ast in a row, and what each symbol needs to be
-- worked off.
use jsonv.Base.{
  ℕ, zero, suc, ◌≡◌, ◌≢◌, ◌⊎◌, refl, sym, ap, ◌∙◌, List, [], ◌∷◌, length, Bool-cases, inl, inr,
  if◌then◌else◌,
}
use jsonv.Token.{TokenType, eof}
use jsonv.Parser.Build.{same_type, Builder}
use jsonv.Parser.Scopes.Links.{add_leaf-Steps}
use jsonv.Parser.Tokens.{Left, Left-with, Left-c, shift-Left, same_type_iff}
use jsonv.Parser.{
  Symbol, terminal, out_of_fuel, State, go, stop, shift, leave_or_go, match_terminal, turn, raised,
  popped, parse_loop, add_leaf, is_empty,
}

-- Turns that go on, from one state to another.
pub data Runs : State → State → Type 0 where
  here : {s : State} → Runs s s
  step :
      {s s₁ s' : State} (x : Symbol) (rest : List Symbol)
      → s.controls ≡ x ∷ rest
      → turn x (popped rest s) ≡ go s₁
      → Runs s₁ s'
      → Runs s s'

pub Runs-trans : {s t u : State} → Runs s t → Runs t u → Runs s u
Runs-trans here k = k
Runs-trans (step x rest e h r) k = step x rest e h (Runs-trans r k)

-- The loop from the first state is the loop from the last, on the fuel that is left.
pub parse_loop-Runs :
    {s t : State} (f : ℕ)
    → Runs s t
    → (parse_loop f s.controls s ≡ raised out_of_fuel)
      ⊎ ((g : ℕ) × (parse_loop f s.controls s ≡ parse_loop g t.controls t))
unfolding parse_loop
parse_loop-Runs f here = inr (f, refl)
parse_loop-Runs zero (step x rest e h r) = inl (rw e refl)
parse_loop-Runs {s} (suc f) (step {s₁} x rest e h r) =
    let one : parse_loop (suc f) s.controls s ≡ parse_loop f s₁.controls s₁ =
      rw (e, parse_loop, h) refl in
    elim (parse_loop-Runs f r) [ inl out ↦ inl (one ∙ out) | inr (g, same) ↦ inr (g, one ∙ same) ]

-- The parser has worked off what stood above `rest`: the tokens `r` are left, the depth is the
-- same, and no scope was opened or closed for good.
pub record After (s : State) (rest : List Symbol) (r : List TokenType) : Type 0 where
  pub result : State
  pub runs : Runs s result
  pub controls : result.controls ≡ rest
  pub left : Left result r
  pub depth : result.depth ≡ s.depth
  pub scopes : length result.builder.scopes ≡ length s.builder.scopes

pub After-trans :
    {s : State} {mid rest : List Symbol} {q r : List TokenType}
    → (a : After s mid q) → After a.result rest r
    → After s rest r
After-trans a b = record {
  result = b.result;
  runs = Runs-trans a.runs b.runs;
  controls = b.controls;
  left = b.left;
  depth = b.depth ∙ a.depth;
  scopes = b.scopes ∙ a.scopes;
}

-- One turn in front.
pub After-step :
    {s s₁ : State} {rest : List Symbol} {r : List TokenType} (x : Symbol) (below : List Symbol)
    → s.controls ≡ x ∷ below
    → turn x (popped below s) ≡ go s₁
    → s₁.depth ≡ s.depth
    → length s₁.builder.scopes ≡ length s.builder.scopes
    → After s₁ rest r
    → After s rest r
After-step x below e h d k a = record {
  result = a.result;
  runs = step x below e h a.runs;
  controls = a.controls;
  left = a.left;
  depth = a.depth ∙ d;
  scopes = a.scopes ∙ k;
}

go_on : (s : State) → s.controls ≢ [] → leave_or_go s ≡ go s
go_on s n = elim (Bool-cases (same_type s.n.type eof)) [
  | inr more ↦ rw more
  | inl ended ↦ rw ended (filled s.controls n)
]
  where
    filled : (k : List Symbol) → k ≢ [] → (if is_empty k then stop s else go s) ≡ go s
    filled [] m = absurd (m refl)
    filled (x ∷ xs) m = refl

pub shift_builder :
    (s : State)
    → ((shift s).builder ≡ s.builder)
      × ((shift s).depth ≡ s.depth)
      × ((shift s).controls ≡ s.controls)
unfolding shift
shift_builder s = (refl, refl, refl)

-- A terminal takes its token.
pub terminal-After :
    (t : TokenType) (rest : List Symbol) (r : List TokenType) (s : State)
    → s.controls ≡ terminal t ∷ rest
    → rest ≢ []
    → Left s (t ∷ r)
    → After s rest r
unfolding turn match_terminal
terminal-After t rest r s e n w =
    let b = add_leaf s.c s.builder in
    let s₁ = record s { controls = rest; builder = b } in
    let same = (same_type_iff t s.c.type).1 (sym (Left-c s w).1) in
    let (kb, kd, kc) = shift_builder s₁ in
    After-step (terminal t) rest e (rw same (go_on (shift s₁) (λ k. n (sym kc ∙ k)))) kd
      (ap (λ (x : Builder). length x.scopes) kb ∙ (add_leaf-Steps s.c s.builder).scopes)
      (record {
        result = shift s₁;
        runs = here;
        controls = kc;
        left = shift-Left s₁ (Left-with w rest s.depth b);
        depth = refl;
        scopes = refl;
      })
