-- ===== src/Sax/Containers.antt =====
-- src/parser/sax.c: the tokens of a container, put together from those of its steps.
use mathlib.Core.List.{append_assoc}
use jsonv.Base.{
  ℕ, suc, ◌+◌, ◌-◌, ◌≡◌, ◌≢◌, ◌⊎◌, ◌∙◌, refl, sym, ap, Bool, true, false, Option, List, [], ◌∷◌,
  ◌++◌, inl, inr,
}
use jsonv.Token.{
  TokenType, eof, colon, comma, brace_open, brace_close, bracket_open, bracket_close, string, Token,
}
use jsonv.Parser.Grammar.{
  Value, empty_object, full_object, empty_array, full_array, Members, last_member, more_members,
  Elements, last_element, more_elements,
}
use jsonv.Sax.Steps.{
  lead, At, Ends, Kept, Behind, and_then-Ends, Ends-map, call-Ends, advance-Ends, taken,
}
use jsonv.Sax.{SaxParser, Outcome, and_then, call, sax_advance, max_sax_depth}

-- How deep a value at a depth may still nest.
abbrev pub room : ℕ → ℕ
room d = max_sax_depth + 1 - d

module _ {U : Type 0} where
  -- A value stands in front.
  abbrev pub ValueThen : ℕ → List TokenType → SaxParser U → Type 0
  ValueThen k ts q = (vs us : List TokenType) × (ts ≡ vs ++ us) × Value k vs × At q us

  -- The items of a container stand in front, or none, and its closing token behind them.
  abbrev pub ItemsThen :
      (List TokenType → Type 0) → TokenType → Bool → List TokenType → SaxParser U → Type 0
  ItemsThen P closing first ts q =
      (us : List TokenType) × (q.current_tok.type ≡ closing)
      × At q us
      × ((ts ≡ us) ⊎ ((ms : List TokenType) × (ts ≡ lead first ++ (ms ++ us)) × P ms))

  -- A whole container stands in front.
  abbrev pub ContainerThen :
      (List TokenType → Type 0) → TokenType → TokenType → List TokenType → SaxParser U → Type 0
  ContainerThen P opening closing ts q =
      (us : List TokenType) × At q us
      × ((ts ≡ opening ∷ closing ∷ us)
          ⊎ ((ms : List TokenType) × (ts ≡ opening ∷ (ms ++ (closing ∷ us))) × P ms))

  module _ (P : List TokenType → Type 0) (opening closing : TokenType) where
    -- Behind the items the container is closed.
    closed :
        (r : Outcome U) (on_end : Option (U → Bool × U)) (us ts : List TokenType)
        → ts ≡ opening ∷ us
        → closing ≢ eof
        → Ends (ItemsThen P closing true us) r
        → Ends
            (ContainerThen P opening closing ts)
            (and_then r (λ p. and_then (call on_end p) sax_advance))
    closed r on_end us ts f n h =
        and_then-Ends (ItemsThen P closing true us) (ContainerThen P opening closing ts) r _ h
          (λ p (vs, e, w, items).
            Ends-map (Behind (closing ∷ []) vs) (ContainerThen P opening closing ts) _
              (taken closing p (call on_end p) vs e n (call-Ends on_end p w))
              (λ q (rs, g, v). (
                rs,
                v,
                elim items [
                  | inl same ↦ inl (f ∙ ap (λ x. opening ∷ x) (same ∙ g))
                  | inr (ms, k, m) ↦
                      inr (ms, f ∙ ap (λ x. opening ∷ x) (k ∙ ap (λ x. ms ++ x) g), m)
                ],
              )))

    -- Its opening token, its items, and its closing token.
    pub container :
        (on_begin on_end : Option (U → Bool × U)) (items : SaxParser U → Outcome U)
        (p : SaxParser U) (ts : List TokenType)
        → opening ≢ eof
        → closing ≢ eof
        → p.current_tok.type ≡ opening
        → ((q : SaxParser U) (us : List TokenType)
            → At q us
            → Ends (ItemsThen P closing true us) (items q))
        → At p ts
        → Ends (ContainerThen P opening closing ts) (
            and_then (call on_begin p) (λ p₁.
              and_then
                (sax_advance p₁)
                (λ p₂. and_then (items p₂) (λ p₃. and_then (call on_end p₃) sax_advance))))
    container on_begin on_end items p ts open_ne close_ne e inner w =
        and_then-Ends (Kept p ts) (ContainerThen P opening closing ts) (call on_begin p) _
          (call-Ends on_begin p w)
          (λ p₁ (kept, w₁).
            and_then-Ends (Behind (opening ∷ []) ts) (ContainerThen P opening closing ts)
              (sax_advance p₁) _
              (advance-Ends opening p₁ (ap (λ (x : Token). x.type) kept ∙ e) open_ne w₁)
              (λ p₂ (us, f, w₂). closed (items p₂) on_end us ts f close_ne (inner p₂ us w₂)))

  -- A pair or more after the pair that was read.
  pub members-cons :
      (k : ℕ) (first : Bool) (ts us vs rest : List TokenType) (q : SaxParser U)
      → ts ≡ lead first ++ (string ∷ colon ∷ us)
      → us ≡ vs ++ rest
      → Value k vs
      → ItemsThen (Members k) brace_close false rest q
      → ItemsThen (Members k) brace_close first ts q
  members-cons k first ts us vs rest q e f v (rs, b, w, inl same) = (
    rs,
    b,
    w,
    inr (
      string ∷ colon ∷ vs,
      e ∙ ap (λ x. lead first ++ (string ∷ colon ∷ x)) (f ∙ ap (λ x. vs ++ x) same),
      last_member v refl,
    ),
  )
  members-cons k first ts us vs rest q e f v (rs, b, w, inr (ms, g, m)) = (
    rs,
    b,
    w,
    inr (
      string ∷ colon ∷ (vs ++ (comma ∷ ms)),
      e
          ∙ ap (λ x. lead first ++ (string ∷ colon ∷ x))
              (f ∙ ap (λ x. vs ++ x) g ∙ sym (append_assoc vs (comma ∷ ms) rs)),
      more_members v m refl,
    ),
  )

  pub elements-cons :
      (k : ℕ) (first : Bool) (ts us vs rest : List TokenType) (q : SaxParser U)
      → ts ≡ lead first ++ us
      → us ≡ vs ++ rest
      → Value k vs
      → ItemsThen (Elements k) bracket_close false rest q
      → ItemsThen (Elements k) bracket_close first ts q
  elements-cons k first ts us vs rest q e f v (rs, b, w, inl same) = (
    rs,
    b,
    w,
    inr (vs, e ∙ ap (λ x. lead first ++ x) (f ∙ ap (λ x. vs ++ x) same), last_element v),
  )
  elements-cons k first ts us vs rest q e f v (rs, b, w, inr (es, g, m)) = (
    rs,
    b,
    w,
    inr (
      vs ++ (comma ∷ es),
      e
          ∙ ap (λ x. lead first ++ x)
              (f ∙ ap (λ x. vs ++ x) g ∙ sym (append_assoc vs (comma ∷ es) rs)),
      more_elements v m refl,
    ),
  )

  -- A container of a nesting to spare is a value.
  pub object_value :
      (k : ℕ) (ts : List TokenType) (q : SaxParser U)
      → ContainerThen (Members k) brace_open brace_close ts q
      → ValueThen (suc k) ts q
  object_value k ts q (us, w, inl e) = (brace_open ∷ brace_close ∷ [], us, e, empty_object refl, w)
  object_value k ts q (us, w, inr (ms, e, m)) = (
    brace_open ∷ (ms ++ (brace_close ∷ [])),
    us,
    e ∙ ap (λ x. brace_open ∷ x) (sym (append_assoc ms (brace_close ∷ []) us)),
    full_object m refl,
    w,
  )

  pub array_value :
      (k : ℕ) (ts : List TokenType) (q : SaxParser U)
      → ContainerThen (Elements k) bracket_open bracket_close ts q
      → ValueThen (suc k) ts q
  array_value k ts q (us, w, inl e) =
      (bracket_open ∷ bracket_close ∷ [], us, e, empty_array refl, w)
  array_value k ts q (us, w, inr (es, e, m)) = (
    bracket_open ∷ (es ++ (bracket_close ∷ [])),
    us,
    e ∙ ap (λ x. bracket_open ∷ x) (sym (append_assoc es (bracket_close ∷ []) us)),
    full_array m refl,
    w,
  )
