-- ===== src/Formats/Ipv4.antt =====
-- validate_ipv4 of src/validation/validate_helpers.c against the texts of four numbers.
use mathlib.Core.List.{append-nil}
use mathlib.Core.Path.{subst}
use jsonv.Base.{
  ℕ, zero, suc, ◌+◌, ◌*◌, ◌/◌, ◌%◌, ◌≤◌, ◌<◌, ◌≡◌, ◌≢◌, ◌↔◌, ◌⊎◌, refl, sym, ap, ◌∙◌, Bool, true,
  false, [], ◌∷◌, ◌++◌, arith, inl, inr, ltb, length, Bool-cases, length-append,
}
use jsonv.Token.{Bytes}
use jsonv.Lexer.Cursor.{is_digit}
use jsonv.Formats.{next, ipv4_turn, ipv4_loop, validate_ipv4}
use jsonv.Formats.Octets.{octet, IsDotted, ipv4_loop-next, started-Continues, last, more}

length-octet : (n : ℕ) → 0 < length (octet n)
unfolding octet
length-octet n = ground arith

ipv4_loop-IsDotted :
    (f parts : ℕ) (s : Bytes)
    → length s ≤ f
    → ipv4_loop parts 0 false s ≡ true
    → (k : ℕ) × (parts + k ≡ 3) × IsDotted k s
unfolding ipv4_loop
ipv4_loop-IsDotted zero parts [] b h = absurd (ground arith)
ipv4_loop-IsDotted zero parts (c ∷ s) b h = absurd (omega arith)
ipv4_loop-IsDotted (suc f) parts s b h =
    let (n, rest, small, split, ends) = started-Continues parts s h in
    elim ends [
      | inl (e, three) ↦
          (0, omega arith, last small (split ∙ ap (λ r. octet n ++ r) e ∙ append-nil (octet n)))
      | inr (r, e, again) ↦
          let whole : s ≡ octet n ++ (b'.' ∷ r) = split ∙ ap (λ t. octet n ++ t) e in
          let size : length s ≡ length (octet n) + suc (length r) =
            ap length whole ∙ length-append (octet n) (b'.' ∷ r) in
          let some_digit = length-octet n in
          let (k, sum, d) = ipv4_loop-IsDotted f (parts + 1) r (omega arith) again in
          (suc k, omega arith, more small whole d)
    ]

digit_turn :
    (parts v : ℕ) (b : Bool) (d : ℕ)
    → d < 10
    → (b ≡ false) ⊎ (v ≢ 0)
    → v * 10 + d ≤ 255
    → ipv4_turn parts v b (b'0' + d) ≡ next parts (v * 10 + d) true
unfolding ipv4_turn is_digit
digit_turn parts v b d l (inl e) h = ground arith
digit_turn parts v b d l (inr n) h = ground arith

-- The digits of a number are read as it.
ipv4_loop-octet :
    (parts n : ℕ) (rest : Bytes)
    → n ≤ 255
    → ipv4_loop parts 0 false (octet n ++ rest) ≡ ipv4_loop parts n true rest
unfolding octet
ipv4_loop-octet parts n rest b = elim (Bool-cases (ltb n 10)) [
  | inl one ↦
      let e : octet n ≡ (b'0' + n) ∷ [] = ground arith in
      let t = digit_turn parts 0 false n (ground arith) (inl refl) (omega arith) in
      let v : 0 * 10 + n ≡ n = omega arith in
      ap (λ o. ipv4_loop parts 0 false (o ++ rest)) e
      ∙ ipv4_loop-next parts 0 false (b'0' + n) rest t
      ∙ ap (λ (w : ℕ). ipv4_loop parts w true rest) v
  | inr longer ↦ elim (Bool-cases (ltb n 100)) [
    | inl two ↦
        let e : octet n ≡ (b'0' + n / 10) ∷ (b'0' + n % 10) ∷ [] = ground arith in
        let t = digit_turn parts 0 false (n / 10) (ground arith) (inl refl) (omega arith) in
        let nonzero : 0 * 10 + n / 10 ≢ 0 = ground arith in
        let u =
          digit_turn parts (0 * 10 + n / 10) true (n % 10) (omega arith) (inr nonzero)
            (omega arith) in
        let v : (0 * 10 + n / 10) * 10 + n % 10 ≡ n = omega arith in
        ap (λ o. ipv4_loop parts 0 false (o ++ rest)) e
        ∙ ipv4_loop-next parts 0 false (b'0' + n / 10) ((b'0' + n % 10) ∷ rest) t
        ∙ ipv4_loop-next parts (0 * 10 + n / 10) true (b'0' + n % 10) rest u
        ∙ ap (λ (w : ℕ). ipv4_loop parts w true rest) v
    | inr three ↦
        let e : octet n ≡ (b'0' + n / 100) ∷ (b'0' + n / 10 % 10) ∷ (b'0' + n % 10) ∷ [] =
          ground arith in
        let t = digit_turn parts 0 false (n / 100) (omega arith) (inl refl) (omega arith) in
        let nonzero : 0 * 10 + n / 100 ≢ 0 = ground arith in
        let u =
          digit_turn parts (0 * 10 + n / 100) true (n / 10 % 10) (omega arith) (inr nonzero)
            (omega arith) in
        let w =
          digit_turn parts ((0 * 10 + n / 100) * 10 + n / 10 % 10) true (n % 10) (omega arith)
            (inr (ground arith)) (omega arith) in
        let v : ((0 * 10 + n / 100) * 10 + n / 10 % 10) * 10 + n % 10 ≡ n = omega arith in
        ap (λ o. ipv4_loop parts 0 false (o ++ rest)) e
        ∙ ipv4_loop-next parts 0 false (b'0' + n / 100)
            ((b'0' + n / 10 % 10) ∷ (b'0' + n % 10) ∷ rest) t
        ∙ ipv4_loop-next parts (0 * 10 + n / 100) true (b'0' + n / 10 % 10) ((b'0' + n % 10) ∷ rest)
            u
        ∙ ipv4_loop-next parts ((0 * 10 + n / 100) * 10 + n / 10 % 10) true (b'0' + n % 10) rest w
        ∙ ap (λ (w : ℕ). ipv4_loop parts w true rest) v
  ]
]

IsDotted-ipv4_loop :
    {k : ℕ} {s : Bytes} (parts : ℕ)
    → parts + k ≡ 3
    → IsDotted k s
    → ipv4_loop parts 0 false s ≡ true
unfolding ipv4_loop ipv4_turn is_digit
IsDotted-ipv4_loop parts e (last {n} b split) =
    ap (ipv4_loop parts 0 false) (split ∙ sym (append-nil (octet n)))
    ∙ ipv4_loop-octet parts n [] b
    ∙ ground arith
IsDotted-ipv4_loop parts e (more {k = k} {n = n} {r = r} b split d) =
    let dot : ipv4_turn parts n true b'.' ≡ next (parts + 1) 0 false = refl in
    ap (ipv4_loop parts 0 false) split
    ∙ ipv4_loop-octet parts n (b'.' ∷ r) b
    ∙ ipv4_loop-next parts n true b'.' r dot
    ∙ IsDotted-ipv4_loop (parts + 1) (omega arith) d

-- validate_ipv4 accepts exactly dotted decimal: four numbers below 256 without leading zeros, with dots
-- between and nothing around them.
pub validate_ipv4-decides : (s : Bytes) → (validate_ipv4 s ≡ true) ↔ IsDotted 3 s
unfolding validate_ipv4
validate_ipv4-decides s = (
  λ h.
      let (k, e, d) = ipv4_loop-IsDotted (length s) 0 s (omega arith) h in
      let three : k ≡ 3 = omega arith in subst (λ j. IsDotted j s) three d,
  λ d. IsDotted-ipv4_loop 0 refl d,
)
