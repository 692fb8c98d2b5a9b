-- ===== src/Formats/Octets.antt =====
-- validate_ipv4 of src/validation/validate_helpers.c on one number of a dotted text.
use mathlib.Core.List.{append_assoc, append-nil}
use jsonv.Base.{
  ℕ, suc, ◌+◌, ◌-◌, ◌*◌, ◌/◌, ◌%◌, ◌≤◌, ◌<◌, ◌≡◌, ◌≢◌, ◌⊎◌, refl, sym, ap, ◌∙◌, Bool, true, false,
  [], ◌∷◌, ◌++◌, arith, inl, inr, ltb, if◌then◌else◌, Bool-cases, eq_or_ne,
}
use jsonv.Token.{Bytes}
use jsonv.Lexer.Cursor.{is_digit}
use jsonv.Formats.{refused, next, ipv4_turn, ipv4_loop}

-- A number below 1000 in decimal, without leading zeros.
unfoldable pub octet : ℕ → Bytes
octet n =
    if ltb n 10
    then (b'0' + n) ∷ []
    else if ltb n 100
    then (b'0' + n / 10) ∷ (b'0' + n % 10) ∷ []
    else (b'0' + n / 100) ∷ (b'0' + n / 10 % 10) ∷ (b'0' + n % 10) ∷ []

-- A text that is n + 1 such numbers below 256, with dots between.
pub data IsDotted : ℕ → Bytes → Type 0 where
  last : {n : ℕ} {s : Bytes} → n ≤ 255 → s ≡ octet n → IsDotted 0 s
  more :
      {k n : ℕ} {s r : Bytes}
      → n ≤ 255
      → s ≡ octet n ++ (b'.' ∷ r)
      → IsDotted k r
      → IsDotted (suc k) s

-- One digit more.
octet-digit :
    (v d : ℕ)
    → v ≢ 0
    → d < 10
    → v * 10 + d ≤ 255
    → octet (v * 10 + d) ≡ octet v ++ ((b'0' + d) ∷ [])
unfolding octet
octet-digit v d h b l = ground arith

-- How the rest of a text that is accepted goes on behind a number that was begun: with the digits that
-- complete it to `whole`, then the end, or a dot and a text that is accepted.
record Continues (parts current : ℕ) (s : Bytes) : Type 0 where
  whole : ℕ
  digits : Bytes
  rest : Bytes
  small : whole ≤ 255
  split : s ≡ digits ++ rest
  text : octet whole ≡ octet current ++ digits
  ends :
      (rest ≡ [] × (parts ≡ 3))
      ⊎ ((r : Bytes) × (rest ≡ b'.' ∷ r) × (ipv4_loop (parts + 1) 0 false r ≡ true))

abbrev digit_value : ℕ → ℕ
digit_value c = c - b'0'

digit_back : (c : ℕ) → is_digit c ≡ true → (c ≡ b'0' + digit_value c) × (digit_value c < 10)
unfolding is_digit
digit_back c h = ground arith

-- The digits so far, and one more.
extend :
    (parts v c : ℕ) (s : Bytes)
    → v ≢ 0
    → is_digit c ≡ true
    → v * 10 + digit_value c ≤ 255
    → Continues parts (v * 10 + digit_value c) s
    → Continues parts v (c ∷ s)
extend parts v c s h d b k =
    let (e, l) = digit_back c d in
    record {
      whole = k.whole;
      digits = c ∷ k.digits;
      rest = k.rest;
      small = k.small;
      split = ap (◌∷◌ c) k.split;
      text =
          k.text
          ∙ ap (λ o. o ++ k.digits) (octet-digit v (digit_value c) h l b)
          ∙ append_assoc (octet v) ((b'0' + digit_value c) ∷ []) k.digits
          ∙ ap (λ (x : ℕ). octet v ++ (x ∷ k.digits)) (sym e);
      ends = k.ends;
    }

stop :
    (parts v : ℕ) (s : Bytes)
    → v ≤ 255
    → (s ≡ [] × (parts ≡ 3))
      ⊎ ((r : Bytes) × (s ≡ b'.' ∷ r) × (ipv4_loop (parts + 1) 0 false r ≡ true))
    → Continues parts v s
stop parts v s b e = record {
  whole = v;
  digits = [];
  rest = s;
  small = b;
  split = refl;
  text = sym (append-nil (octet v));
  ends = e;
}

-- A turn that goes on behind a begun number: by a digit, or by a dot.
turn_goes :
    (parts v c : ℕ)
    → (ipv4_turn parts v true c ≡ refused)
      ⊎ (v ≢ 0
          × (is_digit c ≡ true)
          × (v * 10 + digit_value c ≤ 255)
          × (ipv4_turn parts v true c ≡ next parts (v * 10 + digit_value c) true))
      ⊎ ((c ≡ b'.') × (ipv4_turn parts v true c ≡ next (parts + 1) 0 false))
unfolding ipv4_turn is_digit
turn_goes parts v c = elim (Bool-cases (is_digit c)) [
  | inl digit ↦ elim (eq_or_ne v 0) [
    | inl z ↦ inl (ground arith)
    | inr n ↦ elim (Bool-cases (ltb 255 (v * 10 + digit_value c))) [
      | inl big ↦ inl (ground arith)
      | inr fits ↦ inr (inl (n, digit, ground arith, ground arith))
    ]
  ]
  | inr other ↦ elim (eq_or_ne c b'.') [
    | inl dot ↦ inr (inr (dot, ground arith))
    | inr bad ↦ inl (ground arith)
  ]
]

pub ipv4_loop-next :
    (parts v : ℕ) (b : Bool) (c : ℕ) (s : Bytes) {p w : ℕ} {d : Bool}
    → ipv4_turn parts v b c ≡ next p w d
    → ipv4_loop parts v b (c ∷ s) ≡ ipv4_loop p w d s
unfolding ipv4_loop
ipv4_loop-next parts v b c s t = rw (ipv4_loop, t)

ipv4_loop-refused :
    (parts v : ℕ) (b : Bool) (c : ℕ) (s : Bytes)
    → ipv4_turn parts v b c ≡ refused
    → ipv4_loop parts v b (c ∷ s) ≡ false
unfolding ipv4_loop
ipv4_loop-refused parts v b c s t = rw (ipv4_loop, t)

begun-Continues :
    (s : Bytes) (parts v : ℕ) → v ≤ 255 → ipv4_loop parts v true s ≡ true → Continues parts v s
unfolding ipv4_loop
begun-Continues [] parts v b h = stop parts v [] b (inl (refl, ground arith))
begun-Continues (c ∷ s) parts v b h = elim (turn_goes parts v c) [
  | inl no_turn ↦ let f = ipv4_loop-refused parts v true c s no_turn in cc
  | inr (inl (n, d, l, t)) ↦ extend parts v c s n d l (
      begun-Continues s parts (v * 10 + digit_value c) l
        (sym (ipv4_loop-next parts v true c s t) ∙ h))
  | inr (inr (dot, t)) ↦
      stop parts v (c ∷ s) b
        (inr (s, ap (λ (x : ℕ). x ∷ s) dot, sym (ipv4_loop-next parts v true c s t) ∙ h))
]

-- The first turn of a number takes a digit.
first_turn :
    (parts c : ℕ)
    → (ipv4_turn parts 0 false c ≡ refused)
      ⊎ ((is_digit c ≡ true) × (ipv4_turn parts 0 false c ≡ next parts (digit_value c) true))
unfolding ipv4_turn is_digit
first_turn parts c = elim (Bool-cases (is_digit c)) [
  | inl digit ↦ inr (digit, ground arith)
  | inr other ↦ inl (ground arith)
]

octet-one : (c : ℕ) → is_digit c ≡ true → octet (digit_value c) ≡ c ∷ []
unfolding octet is_digit
octet-one c h = ground arith

-- What is accepted from the start of a number on: the number, and how it goes on.
pub started-Continues :
    (parts : ℕ) (s : Bytes)
    → ipv4_loop parts 0 false s ≡ true
    → (n : ℕ) × (rest : Bytes) × (n ≤ 255)
      × (s ≡ octet n ++ rest)
      × ((rest ≡ [] × (parts ≡ 3))
          ⊎ ((r : Bytes) × (rest ≡ b'.' ∷ r) × (ipv4_loop (parts + 1) 0 false r ≡ true)))
unfolding ipv4_loop
started-Continues parts [] h = absurd (ground arith)
started-Continues parts (c ∷ s) h = elim (first_turn parts c) [
  | inl no_turn ↦ let f = ipv4_loop-refused parts 0 false c s no_turn in cc
  | inr (digit, t) ↦
      let (e, l) = digit_back c digit in
      let k =
        begun-Continues s parts (digit_value c) (omega arith)
          (sym (ipv4_loop-next parts 0 false c s t) ∙ h) in
      (
        k.whole,
        k.rest,
        k.small,
        ap (◌∷◌ c) k.split
            ∙ ap (λ o. o ++ k.rest) (sym (k.text ∙ ap (λ o. o ++ k.digits) (octet-one c digit))),
        k.ends,
      )
]
