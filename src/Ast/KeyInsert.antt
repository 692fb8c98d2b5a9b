-- ===== src/Ast/KeyInsert.antt =====
-- src/parser/keytree.c: the descent of key_tree_insert hangs the new slot where a key goes in a tree.
use mathlib.Core.Path.{subst}
use jsonv.Base.{
  ℕ, zero, suc, ◌≤◌, ◌<◌, ◌≡◌, ◌≢◌, ◌∙◌, refl, sym, ap, true, false, none, some, List, arith, inl,
  inr, length, set, length-set, Bool-cases, Option-cases,
}
use jsonv.Ast.{AstNode, compare_keys, is_lt, KeyNode, key_at, hang, fresh_key}
use jsonv.Ast.KeyTree.{
  Tree, tip, fork, size, Occurs, Links, insert, Links-same, insert-Occurs, key_at-set,
  key_at-set_ne,
}

pub none_tip : (nodes : List KeyNode) (t : Tree) → Links nodes none t → t ≡ tip
none_tip nodes tip h = refl
none_tip nodes (fork l i k r) h = absurd h

pub single :
    (nodes : List KeyNode) (new key : ℕ)
    → key_at nodes new ≡ fresh_key key
    → Links nodes (some new) (fork tip new key tip)
single nodes new key e = (
  refl,
  ap (λ (x : KeyNode). x.ast_key_idx) e,
  subst (λ o. Links nodes o tip) (sym (ap (λ (x : KeyNode). x.left) e)) tt,
  subst (λ o. Links nodes o tip) (sym (ap (λ (x : KeyNode). x.right) e)) tt,
  (λ o. o),
  (λ o. o),
  (λ j o. absurd o),
)

-- The nodes `m` are `nodes` with the key hung into the tree at `curr`.
pub record Hung (ast : List AstNode) (key new curr : ℕ) (t : Tree) (nodes m : List KeyNode)
    : Type 0 where
  pub links : Links m (some curr) (insert ast key new t)
  pub others : (j : ℕ) → ¬ Occurs j t → key_at m j ≡ key_at nodes j
  pub same_length : length m ≡ length nodes

module _ (ast : List AstNode) (key new : ℕ) where
  -- The ways of one step of the descent.
  module _ (f i : ℕ) (nodes : List KeyNode) where
    hang_left :
        is_lt (compare_keys ast key (key_at nodes i).ast_key_idx) ≡ true
        → (key_at nodes i).left ≡ none
        → hang (suc f) ast key new i nodes
          ≡ set nodes i (record (key_at nodes i) { left = some new })
    unfolding hang
    hang_left lt e = rw (hang, lt, e) refl

    hang-left_of :
        (c : ℕ)
        → is_lt (compare_keys ast key (key_at nodes i).ast_key_idx) ≡ true
        → (key_at nodes i).left ≡ some c
        → hang (suc f) ast key new i nodes ≡ hang f ast key new c nodes
    unfolding hang
    hang-left_of c lt e = rw (hang, lt, e) refl

    hang_right :
        is_lt (compare_keys ast key (key_at nodes i).ast_key_idx) ≡ false
        → (key_at nodes i).right ≡ none
        → hang (suc f) ast key new i nodes
          ≡ set nodes i (record (key_at nodes i) { right = some new })
    unfolding hang
    hang_right ge e = rw (hang, ge, e) refl

    hang-right_of :
        (c : ℕ)
        → is_lt (compare_keys ast key (key_at nodes i).ast_key_idx) ≡ false
        → (key_at nodes i).right ≡ some c
        → hang (suc f) ast key new i nodes ≡ hang f ast key new c nodes
    unfolding hang
    hang-right_of c ge e = rw (hang, ge, e) refl

  module _ (l : Tree) (i k : ℕ) (r : Tree) (nodes m : List KeyNode)
      (h : Links nodes (some i) (fork l i k r)) (unused : ¬ Occurs new (fork l i k r))
      (same_length : length m ≡ length nodes) where
    -- The key went to the left.
    left-Hung :
        is_lt (compare_keys ast key k) ≡ true
        → (key_at m i).ast_key_idx ≡ (key_at nodes i).ast_key_idx
        → (key_at m i).right ≡ (key_at nodes i).right
        → Links m (key_at m i).left (insert ast key new l)
        → ((j : ℕ) → ¬ Occurs j (fork l i k r) → key_at m j ≡ key_at nodes j)
        → ((j : ℕ) → Occurs j r → key_at m j ≡ key_at nodes j)
        → Hung ast key new i (fork l i k r) nodes m
    left-Hung lt same_key same_right left others on_right =
        let (e, f, hl, hr, nl, nr, d) = h in
        record {
          links = rw lt (
            refl,
            same_key ∙ f,
            left,
            subst (λ o. Links m o r) (sym same_right)
                (Links-same nodes m r (key_at nodes i).right on_right hr),
            (λ o. elim (insert-Occurs ast key new i l o) [
              | inl same ↦ unused (inl (sym same))
              | inr p ↦ nl p
            ]),
            nr,
            (λ j o. elim (insert-Occurs ast key new j l o) [
              | inl same ↦ λ p. unused (inr (inr (subst (λ x. Occurs x r) same p)))
              | inr p ↦ d j p
            ]),
          );
          others = others;
          same_length = same_length;
        }

    -- The key went to the right.
    right-Hung :
        is_lt (compare_keys ast key k) ≡ false
        → (key_at m i).ast_key_idx ≡ (key_at nodes i).ast_key_idx
        → (key_at m i).left ≡ (key_at nodes i).left
        → Links m (key_at m i).right (insert ast key new r)
        → ((j : ℕ) → ¬ Occurs j (fork l i k r) → key_at m j ≡ key_at nodes j)
        → ((j : ℕ) → Occurs j l → key_at m j ≡ key_at nodes j)
        → Hung ast key new i (fork l i k r) nodes m
    right-Hung ge same_key same_left right others on_left =
        let (e, f, hl, hr, nl, nr, d) = h in
        record {
          links = rw ge (
            refl,
            same_key ∙ f,
            subst (λ o. Links m o l) (sym same_left)
                (Links-same nodes m l (key_at nodes i).left on_left hl),
            right,
            nl,
            (λ o. elim (insert-Occurs ast key new i r o) [
              | inl same ↦ unused (inl (sym same))
              | inr p ↦ nr p
            ]),
            (λ j p o. elim (insert-Occurs ast key new j r o) [
              | inl same ↦ unused (inr (inl (subst (λ x. Occurs x l) same p)))
              | inr q ↦ d j p q
            ]),
          );
          others = others;
          same_length = same_length;
        }

  -- What the descent relies on.
  pub record Ready (f : ℕ) (t : Tree) (nodes : List KeyNode) : Type 0 where
    pub fuel : size t ≤ f
    pub bounds : (j : ℕ) → Occurs j t → j < length nodes
    pub unused : ¬ Occurs new t
    pub fresh : key_at nodes new ≡ fresh_key key

  pub hang-Hung :
      (f : ℕ) (t : Tree) (curr : ℕ) (nodes : List KeyNode)
      → Links nodes (some curr) t
      → Ready f t nodes
      → Hung ast key new curr t nodes (hang f ast key new curr nodes)
  hang-Hung f tip curr nodes h r = absurd h
  hang-Hung zero (fork l i k r) curr nodes h ready = absurd (omega (arith, ready.fuel))
  hang-Hung (suc f) (fork l i k r) curr nodes h ready =
      let (e, key_is, hl, hr, nl, nr, d) = h in
      let whole : Links nodes (some i) (fork l i k r) = (refl, key_is, hl, hr, nl, nr, d) in
      let new_ne : new ≢ i = λ same. ready.unused (inl same) in
      let i_lt = ready.bounds i (inl refl) in
      subst (λ c. Hung ast key new c (fork l i k r) nodes (hang (suc f) ast key new c nodes))
        (sym e)
        (elim (Bool-cases (is_lt (compare_keys ast key k))) [
          | inl lt ↦
              let lt' = subst (λ x. is_lt (compare_keys ast key x) ≡ true) (sym key_is) lt in
              elim (Option-cases (key_at nodes i).left) [
                | inl none_left ↦
                    let m = set nodes i (record (key_at nodes i) { left = some new }) in
                    let at =
                      key_at-set nodes i (record (key_at nodes i) { left = some new }) i_lt in
                    let other : (j : ℕ) → i ≢ j → key_at m j ≡ key_at nodes j = λ j n.
                      key_at-set_ne nodes i j (record (key_at nodes i) { left = some new }) n in
                    let empty = none_tip nodes l (subst (λ o. Links nodes o l) none_left hl) in
                    let one =
                      single m new key (other new (λ same. new_ne (sym same)) ∙ ready.fresh) in
                    subst (Hung ast key new i (fork l i k r) nodes)
                      (sym (hang_left f i nodes lt' none_left))
                      (left-Hung l i k r nodes m whole ready.unused (length-set nodes i _) lt
                        (ap (λ (x : KeyNode). x.ast_key_idx) at) (ap (λ (x : KeyNode). x.right) at)
                        (subst (λ o. Links m o (insert ast key new l))
                          (sym (ap (λ (x : KeyNode). x.left) at))
                          (subst (λ x. Links m (some new) (insert ast key new x)) (sym empty) one))
                        (λ j n. other j (λ same. n (inl (sym same))))
                        (λ j o. other j (λ same. nr (subst (λ x. Occurs x r) (sym same) o))))
                | inr (c, some_left) ↦
                    let m = hang f ast key new c nodes in
                    let below =
                      hang-Hung f l c nodes (subst (λ o. Links nodes o l) some_left hl) (record {
                        fuel = omega (arith, ready.fuel);
                        bounds = λ j o. ready.bounds j (inr (inl o));
                        unused = λ o. ready.unused (inr (inl o));
                        fresh = ready.fresh;
                      }) in
                    let at = below.others i nl in
                    subst (Hung ast key new i (fork l i k r) nodes)
                      (sym (hang-left_of f i nodes c lt' some_left))
                      (left-Hung l i k r nodes m whole ready.unused below.same_length lt
                        (ap (λ (x : KeyNode). x.ast_key_idx) at) (ap (λ (x : KeyNode). x.right) at)
                        (subst (λ o. Links m o (insert ast key new l))
                          (sym (ap (λ (x : KeyNode). x.left) at ∙ some_left)) below.links)
                        (λ j n. below.others j (λ o. n (inr (inl o))))
                        (λ j o. below.others j (λ p. d j p o)))
              ]
          | inr ge ↦
              let ge' = subst (λ x. is_lt (compare_keys ast key x) ≡ false) (sym key_is) ge in
              elim (Option-cases (key_at nodes i).right) [
                | inl none_right ↦
                    let m = set nodes i (record (key_at nodes i) { right = some new }) in
                    let at =
                      key_at-set nodes i (record (key_at nodes i) { right = some new }) i_lt in
                    let other : (j : ℕ) → i ≢ j → key_at m j ≡ key_at nodes j = λ j n.
                      key_at-set_ne nodes i j (record (key_at nodes i) { right = some new }) n in
                    let empty = none_tip nodes r (subst (λ o. Links nodes o r) none_right hr) in
                    let one =
                      single m new key (other new (λ same. new_ne (sym same)) ∙ ready.fresh) in
                    subst (Hung ast key new i (fork l i k r) nodes)
                      (sym (hang_right f i nodes ge' none_right))
                      (right-Hung l i k r nodes m whole ready.unused (length-set nodes i _) ge
                        (ap (λ (x : KeyNode). x.ast_key_idx) at) (ap (λ (x : KeyNode). x.left) at)
                        (subst (λ o. Links m o (insert ast key new r))
                          (sym (ap (λ (x : KeyNode). x.right) at))
                          (subst (λ x. Links m (some new) (insert ast key new x)) (sym empty) one))
                        (λ j n. other j (λ same. n (inl (sym same))))
                        (λ j o. other j (λ same. nl (subst (λ x. Occurs x l) (sym same) o))))
                | inr (c, some_right) ↦
                    let m = hang f ast key new c nodes in
                    let below =
                      hang-Hung f r c nodes (subst (λ o. Links nodes o r) some_right hr) (record {
                        fuel = omega (arith, ready.fuel);
                        bounds = λ j o. ready.bounds j (inr (inr o));
                        unused = λ o. ready.unused (inr (inr o));
                        fresh = ready.fresh;
                      }) in
                    let at = below.others i nr in
                    subst (Hung ast key new i (fork l i k r) nodes)
                      (sym (hang-right_of f i nodes c ge' some_right))
                      (right-Hung l i k r nodes m whole ready.unused below.same_length ge
                        (ap (λ (x : KeyNode). x.ast_key_idx) at) (ap (λ (x : KeyNode). x.left) at)
                        (subst (λ o. Links m o (insert ast key new r))
                          (sym (ap (λ (x : KeyNode). x.right) at ∙ some_right)) below.links)
                        (λ j n. below.others j (λ o. n (inr (inr o))))
                        (λ j o. below.others j (λ p. d j o p)))
              ]
        ])
