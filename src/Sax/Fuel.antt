-- ===== src/Sax/Fuel.antt =====
-- src/parser/sax.c: jsonv_parse_sax has fuel enough, since every call takes a token.
mod Takes
use mathlib.Core.Path.{subst}
use jsonv.Base.{
  ℕ, zero, suc, ◌+◌, ◌-◌, ◌*◌, ◌≤◌, ◌<◌, ◌≡◌, ◌≢◌, ◌∙◌, refl, sym, ap, Bool, true, false, Option,
  none, some, arith, inl, inr, Bool-cases, ltb, if◌then◌else◌, length, ◌==◌, take, length-drop,
}
use jsonv.Token.{
  Bytes, TokenType, error, eof, colon, comma, brace_open, brace_close, bracket_open, bracket_close,
  string, number, null, true_lit, false_lit, Token, text,
}
use jsonv.Lexer.{lexer_init, lexer_next_token}
use jsonv.Lexer.Progress.{lexer_next_token-Keeps}
use jsonv.Parser.Build.{same_type}
use jsonv.Parser.Tokens.{same_type_iff}
use jsonv.Sax.Steps.{lexer_next_token-skip}
use jsonv.Sax.{
  Callbacks, SaxParser, Outcome, accepted, refused, exhausted, and_then, answered, call, call_with,
  sax_next_token, sax_advance, separator, sax_key, sax_scalar, sax_parse_value, sax_parse_object,
  sax_members, sax_parse_array, sax_elements, max_sax_depth, sax_end, sax_fuel, jsonv_parse_sax,
}
use jsonv.Sax.Fuel.Takes.{
  one, not_eof, size, Total, and_then-Total, Total-map, Same, answered-Total, call-Total,
  call_with-Total, Same-size, next-size, advance-size, advance-less, Less, AtMost, taken-Less,
  separator-Total, colon-Total, sax_key-Total, sax_scalar-Total, Closing, container-Total,
}

module _ {U : Type 0} (callbacks : Callbacks U) where
  mutual
    unfolding sax_parse_value sax_parse_object sax_members sax_parse_array sax_elements

    value-Total :
        (f d : ℕ) (p : SaxParser U) (n : ℕ)
        → size p ≤ n
        → 3 * n + 2 ≤ f
        → Total (Less n) (sax_parse_value f callbacks d p)
    value-Total zero d p n h b = absurd (omega arith)
    value-Total (suc f) d p n h b = elim (Bool-cases (ltb max_sax_depth d)) [
      | inl deep ↦ rw (sax_parse_value, deep) tt
      | inr shallow ↦ elim (Bool-cases (same_type p.current_tok.type brace_open)) [
        | inl c ↦
            rw (sax_parse_value, shallow, c)
              (object-Total f d p n h ((same_type_iff p.current_tok.type brace_open).0 c)
                (omega arith))
        | inr no_brace ↦ elim (Bool-cases (same_type p.current_tok.type bracket_open)) [
          | inl c ↦
              rw (sax_parse_value, shallow, no_brace, c)
                (array-Total f d p n h ((same_type_iff p.current_tok.type bracket_open).0 c)
                  (omega arith))
          | inr no_bracket ↦
              rw (sax_parse_value, shallow, no_brace, no_bracket)
                (sax_scalar-Total callbacks p n p.current_tok.type refl h)
        ]
      ]
    ]

    object-Total :
        (f d : ℕ) (p : SaxParser U) (n : ℕ)
        → size p ≤ n
        → p.current_tok.type ≡ brace_open
        → 3 * n + 1 ≤ f
        → Total (Less n) (sax_parse_object f callbacks d p)
    object-Total zero d p n h e b = absurd (omega arith)
    object-Total (suc f) d p n h e b =
        container-Total brace_open brace_close callbacks.on_begin_object callbacks.on_end_object
          (sax_members f callbacks true d) p n (λ k. cc) (λ k. cc) e h
          (λ q less. members-Total f true d q (n - 1) (omega (arith, less)) (omega (arith, less)))

    members-Total :
        (f : ℕ) (first : Bool) (d : ℕ) (p : SaxParser U) (n : ℕ)
        → size p ≤ n
        → 3 * n + 3 ≤ f
        → Total (Closing brace_close n) (sax_members f callbacks first d p)
    members-Total zero first d p n h b = absurd (omega arith)
    members-Total (suc f) first d p n h b =
        elim (Bool-cases (same_type p.current_tok.type brace_close)) [
          | inl end ↦
              rw (sax_members, end) ((same_type_iff p.current_tok.type brace_close).0 end, h)
          | inr more ↦
              rw (sax_members, more)
                (and_then-Total (AtMost n) (Closing brace_close n) (separator brace_close first p) _
                  (separator-Total brace_close first p n h)
                  (λ p₁ h₁.
                    and_then-Total (AtMost n) (Closing brace_close n) (sax_key callbacks p₁) _
                      (sax_key-Total callbacks p₁ n h₁)
                      (λ p₂ h₂.
                        and_then-Total (Less n) (Closing brace_close n)
                          (sax_parse_value f callbacks (d + 1) p₂) _
                          (value-Total f (d + 1) p₂ n h₂ (omega arith))
                          (λ p₃ less.
                            Total-map (Closing brace_close (n - 1)) (Closing brace_close n) _
                              (members-Total f false d p₃ (n - 1) (omega (arith, less))
                                (omega (arith, less)))
                              (λ q (c, i). (c, omega (arith, i)))))))
        ]

    array-Total :
        (f d : ℕ) (p : SaxParser U) (n : ℕ)
        → size p ≤ n
        → p.current_tok.type ≡ bracket_open
        → 3 * n + 1 ≤ f
        → Total (Less n) (sax_parse_array f callbacks d p)
    array-Total zero d p n h e b = absurd (omega arith)
    array-Total (suc f) d p n h e b =
        container-Total bracket_open bracket_close callbacks.on_begin_array callbacks.on_end_array
          (sax_elements f callbacks true d) p n (λ k. cc) (λ k. cc) e h
          (λ q less. elements-Total f true d q (n - 1) (omega (arith, less)) (omega (arith, less)))

    elements-Total :
        (f : ℕ) (first : Bool) (d : ℕ) (p : SaxParser U) (n : ℕ)
        → size p ≤ n
        → 3 * n + 3 ≤ f
        → Total (Closing bracket_close n) (sax_elements f callbacks first d p)
    elements-Total zero first d p n h b = absurd (omega arith)
    elements-Total (suc f) first d p n h b =
        elim (Bool-cases (same_type p.current_tok.type bracket_close)) [
          | inl end ↦
              rw (sax_elements, end) ((same_type_iff p.current_tok.type bracket_close).0 end, h)
          | inr more ↦
              rw (sax_elements, more)
                (and_then-Total (AtMost n) (Closing bracket_close n)
                  (separator bracket_close first p) _ (separator-Total bracket_close first p n h)
                  (λ p₁ h₁.
                    and_then-Total (Less n) (Closing bracket_close n)
                      (sax_parse_value f callbacks (d + 1) p₁) _
                      (value-Total f (d + 1) p₁ n h₁ (omega arith))
                      (λ p₂ less.
                        Total-map (Closing bracket_close (n - 1)) (Closing bracket_close n) _
                          (elements-Total f false d p₂ (n - 1) (omega (arith, less))
                            (omega (arith, less)))
                          (λ q (c, i). (c, omega (arith, i))))))
        ]

lexer_init-size : (buffer : Bytes) → length (lexer_init buffer).rest ≤ length buffer
unfolding lexer_init
lexer_init-size buffer = ground (arith, length-drop 3 buffer)

jsonv_parse_sax-Total :
    {U : Type 0} (buffer : Bytes) (callbacks : Callbacks U) (u : U)
    → Total (λ (_ : SaxParser U). Unit) (jsonv_parse_sax buffer callbacks u)
unfolding jsonv_parse_sax sax_end sax_fuel
jsonv_parse_sax-Total {U} buffer callbacks u = elim (Bool-cases (length buffer == 0)) [
  | inl empty ↦ rw empty tt
  | inr some_bytes ↦
      let n = length buffer in
      let Goal : SaxParser U → Type 0 = λ _. Unit in
      let small = lexer_init-size buffer in
      rw some_bytes (
        and_then-Total (λ q. size q ≤ length (lexer_init buffer).rest) Goal (sax_advance _) _
          (advance-size _)
          (λ p h.
            and_then-Total (Less n) Goal _ _
              (Total-map (Less n) (Less n) _
                (value-Total callbacks (3 * n + 8) 0 p n (omega (arith, h, small)) (omega arith))
                (λ q i. i))
              (λ q i. elim (Bool-cases (same_type q.current_tok.type eof)) [
                | inr other ↦ rw other tt
                | inl ended ↦ rw ended tt
              ])))
]

-- jsonv_parse_sax comes to an end on every buffer, whatever the callbacks do: it returns true or false.
pub jsonv_parse_sax_total :
    {U : Type 0} (buffer : Bytes) (callbacks : Callbacks U) (u : U)
    → jsonv_parse_sax buffer callbacks u ≢ exhausted
jsonv_parse_sax_total {U} buffer callbacks u out =
    subst (Total (λ (_ : SaxParser U). Unit)) out (jsonv_parse_sax-Total buffer callbacks u)
