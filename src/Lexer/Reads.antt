-- ===== src/Lexer/Reads.antt =====
-- src/parser/lexer.c: what it means that the lexer moved over a piece of the source, and the
-- moves that the whole lexer is made of.
use jsonv.Base.{
  ℕ, ◌+◌, ◌≤◌, ◌≡◌, refl, sym, ap, ◌∙◌, Bool, true, false, List, [], ◌∷◌, ◌++◌, arith, take, length,
  length-append, take-append-drop, length-take, Bool-cases, inl, inr,
}
use mathlib.Core.List.{append_assoc}
use jsonv.Token.{Bytes}
use jsonv.Lexer.Cursor.{Lexer, advance, next_is, skip}

-- From `l` the lexer read `piece` and is at `m`; the source is the same, and nothing was skipped.
pub record Reads (l : Lexer) (piece : Bytes) (m : Lexer) : Type 0 where
  pub split : l.rest ≡ piece ++ m.rest
  pub position : m.current_pos ≡ l.current_pos + length piece

-- The lexer moved forward, inside the source.
abbrev pub Ahead : Lexer → Lexer → Type 0
Ahead l m = (piece : Bytes) × Reads l piece m

pub Reads-refl : (l : Lexer) → Reads l [] l
Reads-refl l = record { split = refl; position = omega arith }

pub Reads-trans : {l m n : Lexer} (a b : Bytes) → Reads l a m → Reads m b n → Reads l (a ++ b) n
Reads-trans {l} {m} {n} a b h k = record {
  split = h.split ∙ ap (λ t. a ++ t) k.split ∙ sym (append_assoc a b n.rest);
  position = omega (arith, h.position, k.position, length-append a b);
}

pub Ahead-refl : (l : Lexer) → Ahead l l
Ahead-refl l = ([], Reads-refl l)

pub Ahead-trans : {l m n : Lexer} → Ahead l m → Ahead m n → Ahead l n
Ahead-trans (a, h) (b, k) = (a ++ b, Reads-trans a b h k)

pub advance-Reads : (n : ℕ) (l : Lexer) → n ≤ length l.rest → Reads l (take n l.rest) (advance n l)
advance-Reads n l h = record {
  split = sym (take-append-drop n l.rest);
  position = omega (arith, length-take n l.rest);
}

pub advance-Ahead : (n : ℕ) (l : Lexer) → n ≤ length l.rest → Ahead l (advance n l)
advance-Ahead n l h = (take n l.rest, advance-Reads n l h)

abbrev pub All {ℓ κ} : {A : Type ℓ} → (A → Type κ) → List A → Type κ
All P [] = Unit
All P (x ∷ xs) = P x × All P xs

-- All bytes pass the test.
abbrev pub AllPass : (ℕ → Bool) → Bytes → Type 0
AllPass test ds = All (λ d. test d ≡ true) ds

-- The loop reads the longest prefix that passes.
pub skip_lem :
    (test : ℕ → Bool) (cs : Bytes) (p : ℕ)
    → (ds : Bytes) × Reads (record { rest = cs; current_pos = p }) ds (skip test cs p)
      × AllPass test ds
      × (next_is test (skip test cs p) ≡ false)
unfolding skip
skip_lem test [] p = ([], Reads-refl _, tt, refl)
skip_lem test (c ∷ cs) p = elim (Bool-cases (test c)) [
  | inl passes ↦
      let (ds, r, all, stop) = skip_lem test cs (p + 1) in
      rw passes (
        c ∷ ds,
        record { split = ap (◌∷◌ c) r.split; position = omega (arith, r.position) },
        (passes, all),
        stop,
      )
  | inr fails ↦ rw fails ([], Reads-refl _, tt, fails)
]

pub skip-append :
    (test : ℕ → Bool) (ds r : Bytes) (p : ℕ)
    → AllPass test ds
    → next_is test (record { rest = r; current_pos = p }) ≡ false
    → skip test (ds ++ r) p ≡ record { rest = r; current_pos = p + length ds }
unfolding skip
skip-append test [] [] p all stop =
    ap (λ (q : ℕ). record { rest = []; current_pos = q }) (omega arith)
skip-append test [] (c ∷ r) p all stop = ground arith
skip-append test (d ∷ ds) r p (h, all) stop = rw h (
    skip-append test ds r (p + 1) all stop
    ∙ ap (λ (q : ℕ). record { rest = r; current_pos = q }) (omega arith))
