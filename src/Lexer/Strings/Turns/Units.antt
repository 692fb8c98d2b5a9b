-- ===== src/Lexer/Strings/Turns/Units.antt =====
-- src/parser/lexer.c: the bytes of UTF-8 and the four digits that one turn of parse_string's loop reads.
use jsonv.Base.{
  ℕ, suc, ◌+◌, ◌<◌, ◌≡◌, ◌≢◌, refl, Bool, true, ◌&&◌, [], ◌∷◌, arith, Bool-cases, inl, inr, leb,
  ltb,
}
use jsonv.Token.{Bytes}
use jsonv.Lexer.Cursor.{Lexer, advance, peek, next_is, within, is_hex_digit}
use jsonv.Lexer.Reads.{Reads}
use jsonv.Lexer.Strings.{
  Turn, failed, going, Hex, at_hex, hex_ok, hex_bad, hex_value, read_hex, push_hex, second_of_three,
  second_of_four, two_bytes, three_bytes, four_bytes, utf8_turn, is_tail,
}
use jsonv.Lexer.Strings.Grammar.{In, IsUnit, unit, IsChar, ascii, two, three, four}

abbrev pub at : Bytes → ℕ → Lexer
at cs p = record { rest = cs; current_pos = p }

-- From `l` to `m` one character was read.
abbrev pub Found : Bool → Lexer → Lexer → Type 0
Found e l m = (cs : Bytes) × Reads l cs m × IsChar e cs

pub Found-going : {e f : Bool} {l m n : Lexer} → going e m ≡ going f n → Found e l m → Found f l n
Found-going {e} {f} {l} {m} {n} h x = let a : e ≡ f = cc in let b : m ≡ n = cc in rw (← a, ← b) x

pub two_bytes-Found :
    (c : ℕ) (cs : Bytes) (p : ℕ) {e : Bool} {m : Lexer}
    → In 0xC2 0xDF c
    → two_bytes (at (c ∷ cs) p) ≡ going e m
    → Found e (at (c ∷ cs) p) m
unfolding two_bytes
two_bytes-Found c [] p i h = cc
two_bytes-Found c (b ∷ r) p i h = elim (Bool-cases (is_tail b)) [
  | inr fails ↦ cc (rw fails at h)
  | inl passes ↦
      Found-going (rw passes at h)
        (c ∷ b ∷ [], record { split = refl; position = omega arith }, two i (ground arith))
]

pub three_bytes-Found :
    (c : ℕ) (cs : Bytes) (p : ℕ) {e : Bool} {m : Lexer}
    → In 0xE0 0xEF c
    → three_bytes c (at (c ∷ cs) p) ≡ going e m
    → Found e (at (c ∷ cs) p) m
unfolding three_bytes second_of_three
three_bytes-Found c [] p i h = cc
three_bytes-Found c (b ∷ []) p i h = cc
three_bytes-Found c (b ∷ d ∷ r) p i h = elim (Bool-cases (second_of_three c b && is_tail d)) [
  | inr fails ↦ cc (rw fails at h)
  | inl passes ↦ Found-going (rw passes at h) (
    c ∷ b ∷ d ∷ [],
    record { split = refl; position = omega arith },
    three i (ground arith) (ground arith),
  )
]

pub four_bytes-Found :
    (c : ℕ) (cs : Bytes) (p : ℕ) {e : Bool} {m : Lexer}
    → In 0xF0 0xF4 c
    → four_bytes c (at (c ∷ cs) p) ≡ going e m
    → Found e (at (c ∷ cs) p) m
unfolding four_bytes second_of_four
four_bytes-Found c [] p i h = cc
four_bytes-Found c (b ∷ []) p i h = cc
four_bytes-Found c (b ∷ d ∷ []) p i h = cc
four_bytes-Found c (b ∷ d ∷ e ∷ r) p i h =
    elim (Bool-cases (second_of_four c b && (is_tail d && is_tail e))) [
      | inr fails ↦ cc (rw fails at h)
      | inl passes ↦ Found-going (rw passes at h) (
        c ∷ b ∷ d ∷ e ∷ [],
        record { split = refl; position = omega arith },
        four i (ground arith) (ground arith) (ground arith),
      )
    ]

pub utf8_turn-Found :
    (c : ℕ) (cs : Bytes) (p : ℕ) {e : Bool} {m : Lexer}
    → c ≢ b'"'
    → c ≢ b'\\'
    → utf8_turn c (at (c ∷ cs) p) ≡ going e m
    → Found e (at (c ∷ cs) p) m
unfolding utf8_turn
utf8_turn-Found c cs p q b h = elim (Bool-cases (ltb c 0x20)) [
  | inl control ↦ cc (rw control at h)
  | inr printable ↦ elim (Bool-cases (leb c 0x7F)) [
    | inl one ↦
        Found-going (rw (printable, one) at h)
          (c ∷ [], record { split = refl; position = omega arith }, ascii (ground arith) q b)
    | inr more ↦ elim (Bool-cases (within 0xC2 0xDF c)) [
      | inl h₂ ↦ two_bytes-Found c cs p (ground arith) (rw (printable, more, h₂) at h)
      | inr n₂ ↦ elim (Bool-cases (within 0xE0 0xEF c)) [
        | inl h₃ ↦ three_bytes-Found c cs p (ground arith) (rw (printable, more, n₂, h₃) at h)
        | inr n₃ ↦ elim (Bool-cases (within 0xF0 0xF4 c)) [
          | inl h₄ ↦ four_bytes-Found c cs p (ground arith) (rw (printable, more, n₂, n₃, h₄) at h)
          | inr n₄ ↦ cc (rw (printable, more, n₂, n₃, n₄) at h)
        ]
      ]
    ]
  ]
]

-- One round of the loop over four digits.
pub read_hex-step :
    (n u : ℕ) (l : Lexer) {v : ℕ} {m : Lexer}
    → read_hex (suc n) u l ≡ hex_ok v m
    → (next_is is_hex_digit l ≡ true)
      × (read_hex n (push_hex u (peek 0 l)) (advance 1 l) ≡ hex_ok v m)
unfolding read_hex
read_hex-step n u l h = ground arith

pub hex_value-lt : (c : ℕ) → is_hex_digit c ≡ true → hex_value c < 16
unfolding is_hex_digit hex_value
hex_value-lt c h = ground arith

pub read_hex-four :
    (a b c d u : ℕ) (r : Bytes) (p : ℕ) {m : Lexer}
    → read_hex 4 0 (at (a ∷ b ∷ c ∷ d ∷ r) p) ≡ hex_ok u m
    → IsUnit u (a ∷ b ∷ c ∷ d ∷ []) × (m ≡ at r (p + 1 + 1 + 1 + 1))
unfolding read_hex
read_hex-four a b c d u r p h =
    let (ha, h₁) = read_hex-step 3 0 (at (a ∷ b ∷ c ∷ d ∷ r) p) h in
    let (hb, h₂) = read_hex-step 2 (push_hex 0 a) (at (b ∷ c ∷ d ∷ r) (p + 1)) h₁ in
    let u₂ = push_hex (push_hex 0 a) b in
    let (hc, h₃) = read_hex-step 1 u₂ (at (c ∷ d ∷ r) (p + 1 + 1)) h₂ in
    let (hd, h₄) = read_hex-step 0 (push_hex u₂ c) (at (d ∷ r) (p + 1 + 1 + 1)) h₃ in
    (
      unit ha hb hc hd (
          ground
            (arith, hex_value-lt a ha, hex_value-lt b hb, hex_value-lt c hc, hex_value-lt d hd)),
      ground arith,
    )

pub read_hex-IsUnit :
    (cs : Bytes) (p : ℕ) {u : ℕ} {m : Lexer}
    → read_hex 4 0 (at cs p) ≡ hex_ok u m
    → (ds : Bytes) × Reads (at cs p) ds m × IsUnit u ds
unfolding read_hex
read_hex-IsUnit (a ∷ b ∷ c ∷ d ∷ r) p {u} {m} h =
    let (ok, e) = read_hex-four a b c d u r p h in
    (a ∷ b ∷ c ∷ d ∷ [], rw e (record { split = refl; position = omega arith }), ok)
read_hex-IsUnit _ p h = absurd (ground arith)

-- Where the loop over the digits decides, a turn goes on only if it read four of them.
pub at_hex_going :
    (x : Hex) (f : ℕ → Lexer → Turn) (g : Lexer → Lexer) {e : Bool} {m : Lexer}
    → at_hex f (λ l. failed (g l)) x ≡ going e m
    → (u : ℕ) × (l : Lexer) × (x ≡ hex_ok u l) × (f u l ≡ going e m)
at_hex_going (hex_ok u l) f g h = (u, l, refl, h)
at_hex_going (hex_bad l) f g h = cc
