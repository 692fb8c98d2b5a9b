-- ===== src/Ast/KeyTree.antt =====
-- src/parser/keytree.c: the linked nodes of the pool as a binary tree, and key_tree_insert on it.
use mathlib.Core.Path.{subst}
use jsonv.Base.{
  ℕ, zero, suc, ◌+◌, ◌<◌, ◌≡◌, ◌≢◌, ◌⊎◌, ◌∙◌, refl, sym, ap, Option, none, some, List, [], ◌∷◌,
  ◌++◌, arith, inl, inr, length, set, Bool-cases, if◌then◌else◌,
}
use jsonv.Ast.{AstNode, compare_keys, is_lt, KeyNode, key_at}

-- A tree of slots, each with the key that stands in it.
pub data Tree : Type 0 where
  tip : Tree
  fork : Tree → ℕ → ℕ → Tree → Tree

abbrev pub inorder : Tree → List ℕ
inorder tip = []
inorder (fork l i k r) = inorder l ++ (k ∷ inorder r)

abbrev pub size : Tree → ℕ
size tip = 0
size (fork l i k r) = size l + size r + 1

abbrev pub Occurs : ℕ → Tree → Type 0
Occurs j tip = ⊥
Occurs j (fork l i k r) = (j ≡ i) ⊎ (Occurs j l ⊎ Occurs j r)

-- The links from `root` on are those of the tree, and no slot is in it twice.
abbrev pub Links : List KeyNode → Option ℕ → Tree → Type 0
Links nodes none tip = Unit
Links nodes none (fork l i k r) = ⊥
Links nodes (some c) tip = ⊥
Links nodes (some c) (fork l i k r) =
    (c ≡ i)
    × ((key_at nodes i).ast_key_idx ≡ k)
    × Links nodes (key_at nodes i).left l
    × Links nodes (key_at nodes i).right r
    × (¬ Occurs i l)
    × (¬ Occurs i r)
    × ((j : ℕ) → Occurs j l → ¬ Occurs j r)

-- Where a new key goes.
abbrev pub insert : List AstNode → ℕ → ℕ → Tree → Tree
insert ast key new tip = fork tip new key tip
insert ast key new (fork l i k r) =
    if is_lt (compare_keys ast key k)
    then fork (insert ast key new l) i k r
    else fork l i k (insert ast key new r)

-- Other slots play no part.
pub Links-same :
    (m n : List KeyNode) (t : Tree) (root : Option ℕ)
    → ((j : ℕ) → Occurs j t → key_at n j ≡ key_at m j)
    → Links m root t
    → Links n root t
Links-same m n tip none same h = tt
Links-same m n (fork l i k r) none same h = h
Links-same m n tip (some c) same h = h
Links-same m n (fork l i k r) (some c) same (e, f, hl, hr, nl, nr, d) =
    let at = same i (inl refl) in
    let left = Links-same m n l (key_at m i).left (λ j o. same j (inr (inl o))) hl in
    let right = Links-same m n r (key_at m i).right (λ j o. same j (inr (inr o))) hr in
    (
      e,
      ap (λ (x : KeyNode). x.ast_key_idx) at ∙ f,
      subst (λ o. Links n o l) (sym (ap (λ (x : KeyNode). x.left) at)) left,
      subst (λ o. Links n o r) (sym (ap (λ (x : KeyNode). x.right) at)) right,
      nl,
      nr,
      d,
    )

pub insert-Occurs :
    (ast : List AstNode) (key new j : ℕ) (t : Tree)
    → Occurs j (insert ast key new t)
    → (j ≡ new) ⊎ Occurs j t
insert-Occurs ast key new j tip (inl e) = inl e
insert-Occurs ast key new j tip (inr (inl o)) = absurd o
insert-Occurs ast key new j tip (inr (inr o)) = absurd o
insert-Occurs ast key new j (fork l i k r) o = elim (Bool-cases (is_lt (compare_keys ast key k))) [
  | inl lt ↦ elim (rw lt at o) [
    | inl e ↦ inr (inl e)
    | inr (inl p) ↦ elim (insert-Occurs ast key new j l p) [
      | inl e ↦ inl e
      | inr q ↦ inr (inr (inl q))
    ]
    | inr (inr p) ↦ inr (inr (inr p))
  ]
  | inr ge ↦ elim (rw ge at o) [
    | inl e ↦ inr (inl e)
    | inr (inl p) ↦ inr (inr (inl p))
    | inr (inr p) ↦ elim (insert-Occurs ast key new j r p) [
      | inl e ↦ inl e
      | inr q ↦ inr (inr (inr q))
    ]
  ]
]

pub key_at-set :
    (nodes : List KeyNode) (i : ℕ) (v : KeyNode) → i < length nodes → key_at (set nodes i v) i ≡ v
key_at-set [] i v h = absurd (omega arith)
key_at-set (x ∷ nodes) zero v h = refl
key_at-set (x ∷ nodes) (suc i) v h = key_at-set nodes i v (omega arith)

pub key_at-set_ne :
    (nodes : List KeyNode) (i j : ℕ) (v : KeyNode)
    → i ≢ j
    → key_at (set nodes i v) j ≡ key_at nodes j
key_at-set_ne [] i j v h = refl
key_at-set_ne (x ∷ nodes) zero zero v h = absurd (h refl)
key_at-set_ne (x ∷ nodes) zero (suc j) v h = refl
key_at-set_ne (x ∷ nodes) (suc i) zero v h = refl
key_at-set_ne (x ∷ nodes) (suc i) (suc j) v h = key_at-set_ne nodes i j v (λ e. h (ap suc e))
