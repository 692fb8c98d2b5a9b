-- ===== src/Sax/Sound.antt =====
-- src/parser/sax.c: what jsonv_parse_sax returns true on is a JSON text that nests at most 65 deep.
use mathlib.Core.List.{append-nil}
use mathlib.Core.Path.{subst}
use jsonv.Base.{
  ℕ, zero, suc, ◌+◌, ◌≡◌, ◌∙◌, refl, sym, ap, Bool, true, false, List, [], ◌∷◌, ◌++◌, arith, inl,
  inr, Bool-cases, ltb, length, ◌==◌,
}
use jsonv.Token.{
  Bytes, TokenType, eof, colon, brace_open, brace_close, bracket_open, bracket_close, string,
}
use jsonv.Lexer.{lexer_init}
use jsonv.Parser.Build.{same_type}
use jsonv.Parser.{is_leaf}
use jsonv.Parser.Grammar.{Value, leaf_value, Members, Elements}
use jsonv.Parser.Tokens.{Feed, in_front_eof, same_type_iff}
use jsonv.Sax.Steps.{
  lead, At, Ends, Behind, and_then-Ends, Ends-map, advance-first, separator-Ends, sax_key-Ends,
  sax_scalar-Ends,
}
use jsonv.Sax.{
  Callbacks, SaxParser, accepted, sax_advance, separator, sax_key, sax_parse_value,
  sax_parse_object, sax_members, sax_parse_array, sax_elements, max_sax_depth, sax_end, sax_fuel,
  jsonv_parse_sax,
}
use jsonv.Sax.Containers.{
  room, ValueThen, ItemsThen, ContainerThen, container, members-cons, elements-cons, object_value,
  array_value,
}

module _ {U : Type 0} (callbacks : Callbacks U) where
  mutual
    unfolding sax_parse_value sax_parse_object sax_members sax_parse_array sax_elements

    value-Ends :
        (f d : ℕ) (p : SaxParser U) (ts : List TokenType)
        → At p ts
        → Ends (ValueThen (room d) ts) (sax_parse_value f callbacks d p)
    value-Ends zero d p ts w = tt
    value-Ends (suc f) d p ts w = elim (Bool-cases (ltb max_sax_depth d)) [
      | inl deep ↦ rw (sax_parse_value, deep) tt
      | inr shallow ↦
          let more : room d ≡ suc (room (d + 1)) = ground arith in
          elim (Bool-cases (same_type p.current_tok.type brace_open)) [
            | inl b ↦
                let e = (same_type_iff p.current_tok.type brace_open).0 b in
                rw (sax_parse_value, shallow, b, more) (object-Ends f d p ts e w)
            | inr no_brace ↦ elim (Bool-cases (same_type p.current_tok.type bracket_open)) [
              | inl b ↦
                  let e = (same_type_iff p.current_tok.type bracket_open).0 b in
                  rw (sax_parse_value, shallow, no_brace, b, more) (array-Ends f d p ts e w)
              | inr no_bracket ↦
                  let t = p.current_tok.type in
                  rw (sax_parse_value, shallow, no_brace, no_bracket)
                    (Ends-map (λ q. (is_leaf t ≡ true) × Behind (t ∷ []) ts q)
                      (ValueThen (room d) ts) _ (sax_scalar-Ends callbacks p t refl w)
                      (λ q (l, (us, e, v)). (t ∷ [], us, e, leaf_value l refl, v)))
            ]
          ]
    ]

    object-Ends :
        (f d : ℕ) (p : SaxParser U) (ts : List TokenType)
        → p.current_tok.type ≡ brace_open
        → At p ts
        → Ends (ValueThen (suc (room (d + 1))) ts) (sax_parse_object f callbacks d p)
    object-Ends zero d p ts e w = tt
    object-Ends (suc f) d p ts e w =
        Ends-map (ContainerThen (Members (room (d + 1))) brace_open brace_close ts) _ _
          (container (Members (room (d + 1))) brace_open brace_close callbacks.on_begin_object
            callbacks.on_end_object (sax_members f callbacks true d) p ts (λ k. cc) (λ k. cc) e
            (λ q us. members-Ends f true d q us) w)
          (object_value (room (d + 1)) ts)

    members-Ends :
        (f : ℕ) (first : Bool) (d : ℕ) (p : SaxParser U) (ts : List TokenType)
        → At p ts
        → Ends
            (ItemsThen (Members (room (d + 1))) brace_close first ts)
            (sax_members f callbacks first d p)
    members-Ends zero first d p ts w = tt
    members-Ends (suc f) first d p ts w =
        elim (Bool-cases (same_type p.current_tok.type brace_close)) [
          | inl end ↦
              rw (sax_members, end)
                (ts, (same_type_iff p.current_tok.type brace_close).0 end, w, inl refl)
          | inr more ↦
              let Goal = ItemsThen (Members (room (d + 1))) brace_close first ts in
              rw (sax_members, more)
                (and_then-Ends (Behind (lead first) ts) Goal (separator brace_close first p) _
                  (separator-Ends brace_close first p w)
                  (λ p₁ (us, e, w₁).
                    and_then-Ends (Behind (string ∷ colon ∷ []) us) Goal (sax_key callbacks p₁) _
                      (sax_key-Ends callbacks p₁ w₁)
                      (λ p₂ (vs, e₁, w₂).
                        and_then-Ends (ValueThen (room (d + 1)) vs) Goal
                          (sax_parse_value f callbacks (d + 1) p₂) _ (value-Ends f (d + 1) p₂ vs w₂)
                          (λ p₃ (xs, rs, e₂, v, w₃).
                            Ends-map (ItemsThen (Members (room (d + 1))) brace_close false rs) Goal
                              _ (members-Ends f false d p₃ rs w₃)
                              (λ q.
                                members-cons (room (d + 1)) first ts vs xs rs q
                                  (e ∙ ap (λ x. lead first ++ x) e₁) e₂ v)))))
        ]

    array-Ends :
        (f d : ℕ) (p : SaxParser U) (ts : List TokenType)
        → p.current_tok.type ≡ bracket_open
        → At p ts
        → Ends (ValueThen (suc (room (d + 1))) ts) (sax_parse_array f callbacks d p)
    array-Ends zero d p ts e w = tt
    array-Ends (suc f) d p ts e w =
        Ends-map (ContainerThen (Elements (room (d + 1))) bracket_open bracket_close ts) _ _
          (container (Elements (room (d + 1))) bracket_open bracket_close callbacks.on_begin_array
            callbacks.on_end_array (sax_elements f callbacks true d) p ts (λ k. cc) (λ k. cc) e
            (λ q us. elements-Ends f true d q us) w)
          (array_value (room (d + 1)) ts)

    elements-Ends :
        (f : ℕ) (first : Bool) (d : ℕ) (p : SaxParser U) (ts : List TokenType)
        → At p ts
        → Ends
            (ItemsThen (Elements (room (d + 1))) bracket_close first ts)
            (sax_elements f callbacks first d p)
    elements-Ends zero first d p ts w = tt
    elements-Ends (suc f) first d p ts w =
        elim (Bool-cases (same_type p.current_tok.type bracket_close)) [
          | inl end ↦
              rw (sax_elements, end)
                (ts, (same_type_iff p.current_tok.type bracket_close).0 end, w, inl refl)
          | inr more ↦
              let Goal = ItemsThen (Elements (room (d + 1))) bracket_close first ts in
              rw (sax_elements, more)
                (and_then-Ends (Behind (lead first) ts) Goal (separator bracket_close first p) _
                  (separator-Ends bracket_close first p w)
                  (λ p₁ (us, e, w₁).
                    and_then-Ends (ValueThen (room (d + 1)) us) Goal
                      (sax_parse_value f callbacks (d + 1) p₁) _ (value-Ends f (d + 1) p₁ us w₁)
                      (λ p₂ (xs, rs, e₁, v, w₂).
                        Ends-map (ItemsThen (Elements (room (d + 1))) bracket_close false rs) Goal _
                          (elements-Ends f false d p₂ rs w₂)
                          (λ q. elements-cons (room (d + 1)) first ts us xs rs q e e₁ v))))
        ]

whole-Ends :
    {U : Type 0} (buffer : Bytes) (callbacks : Callbacks U) (u : U) (ts : List TokenType)
    → Feed (lexer_init buffer) ts
    → Ends (λ (_ : SaxParser U). Value 65 ts) (jsonv_parse_sax buffer callbacks u)
unfolding jsonv_parse_sax sax_end
whole-Ends {U} buffer callbacks u ts feed = elim (Bool-cases (length buffer == 0)) [
  | inl empty ↦ rw empty tt
  | inr some_bytes ↦
      let Goal : SaxParser U → Type 0 = λ _. Value 65 ts in
      rw some_bytes (
        and_then-Ends (λ q. At q ts) Goal (sax_advance _) _ (advance-first _ feed)
          (λ p w.
            and_then-Ends (ValueThen 65 ts) Goal _ _
              (value-Ends callbacks (sax_fuel buffer) 0 p ts w)
              (λ q (vs, us, e, v, w₁). elim (Bool-cases (same_type q.current_tok.type eof)) [
                | inr other ↦ rw other tt
                | inl ended ↦
                    let none_left =
                      w₁.split
                      ∙ in_front_eof _ w₁.unread ((same_type_iff q.current_tok.type eof).0 ended) in
                    rw ended
                      (subst (Value 65) (sym (e ∙ ap (λ x. vs ++ x) none_left ∙ append-nil vs)) v)
              ])))
]

-- If the lexer returns the tokens `ts` from the buffer, and then `eof`, and jsonv_parse_sax returns
-- true, whatever the callbacks do, then `ts` is a JSON value whose objects and arrays nest at most
-- 65 deep.
pub jsonv_parse_sax-sound :
    {U : Type 0} (buffer : Bytes) (callbacks : Callbacks U) (u : U) (ts : List TokenType)
    {q : SaxParser U}
    → Feed (lexer_init buffer) ts
    → jsonv_parse_sax buffer callbacks u ≡ accepted q
    → Value 65 ts
jsonv_parse_sax-sound {U} buffer callbacks u ts {q} feed out =
    subst (Ends (λ (_ : SaxParser U). Value 65 ts)) out (whole-Ends buffer callbacks u ts feed)
