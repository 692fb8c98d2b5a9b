-- ===== src/Parser/Tokens.antt =====
-- src/parser/parser.c: the tokens that parse_ast has still to take, the two of its lookahead and
-- those that the lexer has yet to return.
use jsonv.Base.{
  ℕ, ◌≡◌, ◌≢◌, refl, sym, ap, ◌∙◌, true, List, [], ◌∷◌, arith, Bool-cases, inl, inr, if◌then◌else◌,
}
use jsonv.Token.{TokenType, eof}
use jsonv.Lexer.Cursor.{Lexer}
use jsonv.Lexer.{lexer_next_token}
use jsonv.Lexer.Progress.{lexer_next_token_eof}
use jsonv.Parser.Build.{same_type, Builder}
use jsonv.Parser.{Symbol, State, shift}

pub same_type_iff :
    (t u : TokenType) → (same_type t u ≡ true → t ≡ u) × (t ≡ u → same_type t u ≡ true)
unfolding same_type
same_type_iff t u = ground arith

-- The types of the tokens that the lexer returns from `l` on, up to `eof`.
pub data Feed : Lexer → List TokenType → Type 0 where
  ended : {l : Lexer} → (lexer_next_token l).0.type ≡ eof → Feed l []
  token :
      {l : Lexer} {t : TokenType} {ts : List TokenType}
      → (lexer_next_token l).0.type ≡ t
      → t ≢ eof
      → Feed (lexer_next_token l).1 ts
      → Feed l (t ∷ ts)

-- A token in front of others; `eof` has none behind it.
abbrev pub in_front : TokenType → List TokenType → List TokenType
in_front t ts = if same_type t eof then [] else t ∷ ts

pub in_front_eof : (t : TokenType) (ts : List TokenType) → t ≡ eof → in_front t ts ≡ []
in_front_eof t ts e = rw ((same_type_iff t eof).1 e)

pub in_front_token : (t : TokenType) (ts : List TokenType) → t ≢ eof → in_front t ts ≡ t ∷ ts
in_front_token t ts n = elim (Bool-cases (same_type t eof)) [
  | inl e ↦ absurd (n ((same_type_iff t eof).0 e))
  | inr other ↦ rw other
]

-- What is left tells what stands in front.
pub in_front-inv :
    (u : TokenType) (us : List TokenType) {t : TokenType} {ts : List TokenType}
    → t ∷ ts ≡ in_front u us
    → (u ≢ eof) × (t ≡ u) × (ts ≡ us)
in_front-inv u us h = elim (Bool-cases (same_type u eof)) [
  | inl e ↦ cc (rw e at h)
  | inr other ↦ let k = rw other at h in (λ e. cc ((same_type_iff u eof).1 e), cc, cc)
]

pub in_front-nil : (u : TokenType) (us : List TokenType) → [] ≡ in_front u us → u ≡ eof
in_front-nil u us h = elim (Bool-cases (same_type u eof)) [
  | inl e ↦ (same_type_iff u eof).0 e
  | inr other ↦ cc (rw other at h)
]

-- Everything that is left in a state of the parser.
pub record Left (s : State) (ts : List TokenType) : Type 0 where
  pub unread : List TokenType
  pub feed : Feed s.lexer unread
  pub split : ts ≡ in_front s.c.type (in_front s.n.type unread)
  pub after_c : s.c.type ≡ eof → s.n.type ≡ eof
  pub after_n : s.n.type ≡ eof → unread ≡ []

-- One call of the lexer.
pub Feed-next :
    {l : Lexer} {a : List TokenType}
    → Feed l a
    → (b : List TokenType) × Feed (lexer_next_token l).1 b
      × (a ≡ in_front (lexer_next_token l).0.type b)
      × ((lexer_next_token l).0.type ≡ eof → b ≡ [])
Feed-next {l} (ended e) = (
  [],
  ended (ap (λ t. t.0.type) (lexer_next_token_eof l e).1),
  sym (in_front_eof _ [] e),
  λ _. refl,
)
Feed-next {l} (token {t} {ts} e n f) =
    (ts, f, rw e (sym (in_front_token t ts n)), λ k. absurd (n (sym e ∙ k)))

-- Taking a token.
pub shift-Left :
    (s : State) {t : TokenType} {ts : List TokenType} → Left s (t ∷ ts) → Left (shift s) ts
unfolding shift
shift-Left s {t} {ts} w =
    let (n, e, rest) = in_front-inv s.c.type (in_front s.n.type w.unread) w.split in
    let (b, f, split, stop) = Feed-next w.feed in
    record {
      unread = b;
      feed = f;
      split = rest ∙ ap (in_front s.n.type) split;
      after_c = λ k. in_front-nil _ b (sym (w.after_n k) ∙ split);
      after_n = stop;
    }

-- At the end it stays so.
pub shift-Left-nil : (s : State) → Left s [] → Left (shift s) []
unfolding shift
shift-Left-nil s w =
    let c = in_front-nil s.c.type (in_front s.n.type w.unread) w.split in
    let (b, f, split, stop) = Feed-next w.feed in
    record {
      unread = b;
      feed = f;
      split = sym (in_front_eof s.n.type _ (w.after_c c));
      after_c = λ k. in_front-nil _ b (sym (w.after_n k) ∙ split);
      after_n = stop;
    }

-- What is left tells the two tokens of lookahead.
pub Left-c :
    (s : State) {t : TokenType} {ts : List TokenType} → Left s (t ∷ ts) → (t ≢ eof) × (s.c.type ≡ t)
Left-c s w =
    let (n, e, rest) = in_front-inv s.c.type (in_front s.n.type w.unread) w.split in
    (λ k. n (sym e ∙ k), sym e)

pub Left-n :
    (s : State) {t u : TokenType} {ts : List TokenType} → Left s (t ∷ u ∷ ts) → s.n.type ≡ u
Left-n s w =
    let (n, e, rest) = in_front-inv s.c.type (in_front s.n.type w.unread) w.split in
    let (m, e', rest') = in_front-inv s.n.type w.unread rest in sym e'

pub Left-end : (s : State) → Left s [] → (s.c.type ≡ eof) × (s.n.type ≡ eof)
Left-end s w =
    let c = in_front-nil s.c.type (in_front s.n.type w.unread) w.split in (c, w.after_c c)

-- The stacks, the depth and the nodes play no part in it.
pub Left-with :
    {s : State} {ts : List TokenType}
    → Left s ts
    → (k : List Symbol) (d : ℕ) (b : Builder)
    → Left (record s { controls = k; depth = d; builder = b }) ts
Left-with w k d b = record {
  unread = w.unread;
  feed = w.feed;
  split = w.split;
  after_c = w.after_c;
  after_n = w.after_n;
}
