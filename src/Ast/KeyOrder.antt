-- ===== src/Ast/KeyOrder.antt =====
-- src/parser/keytree.c: key_tree_insert keeps the tree of an object a search tree, and
-- key_tree_get_ordered lists its keys with the new one put in its place.
use mathlib.Core.List.{append_assoc}
use jsonv.Base.{
  ℕ, zero, suc, ◌+◌, ◌≤◌, ◌<◌, ◌≡◌, ◌≢◌, ◌∙◌, refl, sym, ap, true, false, Option, none, some, List,
  [], ◌∷◌, ◌++◌, arith, inl, inr, length, set, length-set, length-replicate, leb, Bool-cases,
}
use jsonv.Ast.{
  AstNode, compare_keys, is_lt, KeyNode, KeyPool, zero_key, key_at, fresh_key, key_tree_insert,
  get_ordered_recursive, key_tree_get_ordered, key_tree_init,
}
use jsonv.Ast.KeyTree.{
  Tree, tip, fork, inorder, size, Occurs, Links, insert, insert-Occurs, Links-same, key_at-set,
  key_at-set_ne,
}
use jsonv.Ast.KeyInsert.{none_tip, single, hang-Hung}

abbrev pub AllKeys : (ℕ → Type 0) → Tree → Type 0
AllKeys P tip = Unit
AllKeys P (fork l i k r) = AllKeys P l × P k × AllKeys P r

-- A search tree: the keys on the left are less than the key between, those on the right are not.
abbrev pub IsSearch : List AstNode → Tree → Type 0
IsSearch ast tip = Unit
IsSearch ast (fork l i k r) =
    AllKeys (λ x. is_lt (compare_keys ast x k) ≡ true) l
    × AllKeys (λ x. is_lt (compare_keys ast x k) ≡ false) r
    × IsSearch ast l
    × IsSearch ast r

-- The tree at `root` is in the pool.
pub record IsKeyTree (ast : List AstNode) (pool : KeyPool) (root : Option ℕ) (t : Tree)
    : Type 0 where
  pub links : Links pool.nodes root t
  pub search : IsSearch ast t
  pub below : (j : ℕ) → Occurs j t → j < pool.count
  pub slots : length pool.nodes ≡ pool.capacity
  pub counted : size t ≤ pool.count

insert-AllKeys :
    (ast : List AstNode) (key new : ℕ) (P : ℕ → Type 0) (t : Tree)
    → P key
    → AllKeys P t
    → AllKeys P (insert ast key new t)
insert-AllKeys ast key new P tip p h = (tt, p, tt)
insert-AllKeys ast key new P (fork l i k r) p (hl, hk, hr) =
    elim (Bool-cases (is_lt (compare_keys ast key k))) [
      | inl lt ↦ rw lt (insert-AllKeys ast key new P l p hl, hk, hr)
      | inr ge ↦ rw ge (hl, hk, insert-AllKeys ast key new P r p hr)
    ]

insert-IsSearch :
    (ast : List AstNode) (key new : ℕ) (t : Tree)
    → IsSearch ast t
    → IsSearch ast (insert ast key new t)
insert-IsSearch ast key new tip h = (tt, tt, tt, tt)
insert-IsSearch ast key new (fork l i k r) (al, ar, hl, hr) =
    elim (Bool-cases (is_lt (compare_keys ast key k))) [
      | inl lt ↦
          rw lt (insert-AllKeys ast key new _ l lt al, ar, insert-IsSearch ast key new l hl, hr)
      | inr ge ↦
          rw ge (al, insert-AllKeys ast key new _ r ge ar, hl, insert-IsSearch ast key new r hr)
    ]

insert-size :
    (ast : List AstNode) (key new : ℕ) (t : Tree) → size (insert ast key new t) ≡ size t + 1
insert-size ast key new tip = refl
insert-size ast key new (fork l i k r) =
    ground (arith, insert-size ast key new l, insert-size ast key new r)

-- The keys in their order, with one more put in.
insert-inorder :
    (ast : List AstNode) (key new : ℕ) (t : Tree)
    → (xs ys : List ℕ) × (inorder t ≡ xs ++ ys)
      × (inorder (insert ast key new t) ≡ xs ++ (key ∷ ys))
insert-inorder ast key new tip = ([], [], refl, refl)
insert-inorder ast key new (fork l i k r) = elim (Bool-cases (is_lt (compare_keys ast key k))) [
  | inl lt ↦
      let (xs, ys, e, f) = insert-inorder ast key new l in
      (
        xs,
        ys ++ (k ∷ inorder r),
        ap (λ x. x ++ (k ∷ inorder r)) e ∙ append_assoc xs ys (k ∷ inorder r),
        rw lt (ap (λ x. x ++ (k ∷ inorder r)) f ∙ append_assoc xs (key ∷ ys) (k ∷ inorder r)),
      )
  | inr ge ↦
      let (xs, ys, e, f) = insert-inorder ast key new r in
      (
        inorder l ++ (k ∷ xs),
        ys,
        ap (λ x. inorder l ++ (k ∷ x)) e ∙ sym (append_assoc (inorder l) (k ∷ xs) ys),
        rw ge
            (ap (λ x. inorder l ++ (k ∷ x)) f ∙ sym (append_assoc (inorder l) (k ∷ xs) (key ∷ ys))),
      )
]

get_ordered_recursive-inorder :
    (f : ℕ) (nodes : List KeyNode) (t : Tree) (root : Option ℕ)
    → size t < f
    → Links nodes root t
    → get_ordered_recursive f nodes root ≡ inorder t
unfolding get_ordered_recursive
get_ordered_recursive-inorder zero nodes t root b h = absurd (omega arith)
get_ordered_recursive-inorder (suc f) nodes tip none b h = refl
get_ordered_recursive-inorder (suc f) nodes tip (some c) b h = absurd h
get_ordered_recursive-inorder (suc f) nodes (fork l i k r) none b h = absurd h
get_ordered_recursive-inorder (suc f) nodes (fork l i k r) (some c) b (e, key, hl, hr, nl, nr, d) =
    let left = get_ordered_recursive-inorder f nodes l (key_at nodes i).left (omega arith) hl in
    let right = get_ordered_recursive-inorder f nodes r (key_at nodes i).right (omega arith) hr in
    rw (e, left, key, right) refl

-- key_tree_get_ordered lists the tree, the left of each key before it and the right behind it.
pub key_tree_get_ordered-inorder :
    (ast : List AstNode) (pool : KeyPool) (root : Option ℕ) (t : Tree)
    → IsKeyTree ast pool root t
    → key_tree_get_ordered pool root ≡ inorder t
unfolding key_tree_get_ordered
key_tree_get_ordered-inorder ast pool root t h =
    get_ordered_recursive-inorder (pool.count + 1) pool.nodes t root (omega (arith, h.counted))
      h.links

module _ (ast : List AstNode) (key : ℕ) (pool : KeyPool) (t : Tree)
    (room : pool.count < pool.capacity) where
  at_root :
      (root : Option ℕ)
      → IsKeyTree ast pool root t
      → Links
          (key_tree_insert pool root key ast).1.nodes
          (key_tree_insert pool root key ast).0
          (insert ast key pool.count t)
        × (length (key_tree_insert pool root key ast).1.nodes ≡ pool.capacity)
        × ((key_tree_insert pool root key ast).1.count ≡ pool.count + 1)
        × ((key_tree_insert pool root key ast).1.capacity ≡ pool.capacity)
  unfolding key_tree_insert
  at_root none h =
      let not_full : leb pool.capacity pool.count ≡ false = ground arith in
      let empty = none_tip pool.nodes t h.links in
      let fresh = key_at-set pool.nodes pool.count (fresh_key key) (omega (arith, h.slots)) in
      rw (not_full, empty)
        (
          single _ pool.count key fresh,
          length-set pool.nodes pool.count (fresh_key key) ∙ h.slots,
          refl,
          refl,
        )
  at_root (some c) h =
      let not_full : leb pool.capacity pool.count ≡ false = ground arith in
      let nodes = set pool.nodes pool.count (fresh_key key) in
      let fresh = key_at-set pool.nodes pool.count (fresh_key key) (omega (arith, h.slots)) in
      let long = length-set pool.nodes pool.count (fresh_key key) ∙ h.slots in
      let apart : (j : ℕ) → Occurs j t → pool.count ≢ j =
        λ j o e. absurd (omega (arith, h.below j o)) in
      let links =
        Links-same pool.nodes nodes t (some c)
          (λ j o. key_at-set_ne pool.nodes pool.count j (fresh_key key) (apart j o)) h.links in
      let hung = hang-Hung ast key pool.count (pool.count + 1) t c nodes links (record {
        fuel = omega (arith, h.counted);
        bounds = λ j o. omega (arith, h.below j o, long);
        unused = λ o. apart pool.count o refl;
        fresh = fresh;
      }) in
      rw not_full (hung.links, hung.same_length ∙ long, refl, refl)

-- If the pool has room, key_tree_insert keeps the tree at the root a search tree with the key put
-- into it, and key_tree_get_ordered then lists what it did before, with the key put in between.
pub key_tree_insert-IsKeyTree :
    (ast : List AstNode) (key : ℕ) (pool : KeyPool) (root : Option ℕ) (t : Tree)
    → IsKeyTree ast pool root t
    → pool.count < pool.capacity
    → IsKeyTree ast
        (key_tree_insert pool root key ast).1
        (key_tree_insert pool root key ast).0
        (insert ast key pool.count t)
      × ((xs : List ℕ) × (ys : List ℕ) × (key_tree_get_ordered pool root ≡ xs ++ ys)
          × (key_tree_get_ordered
                (key_tree_insert pool root key ast).1
                (key_tree_insert pool root key ast).0
              ≡ xs ++ (key ∷ ys)))
key_tree_insert-IsKeyTree ast key pool root t h room =
    let (links, long, count, capacity) = at_root ast key pool t room root h in
    let whole : IsKeyTree ast (key_tree_insert pool root key ast).1
        (key_tree_insert pool root key ast).0 (insert ast key pool.count t) =
      record {
        links = links;
        search = insert-IsSearch ast key pool.count t h.search;
        below = λ j o. elim (insert-Occurs ast key pool.count j t o) [
          | inl new ↦ omega (arith, count)
          | inr old ↦ omega (arith, count, h.below j old)
        ];
        slots = long ∙ sym capacity;
        counted = omega (arith, insert-size ast key pool.count t, h.counted, count);
      } in
    let (xs, ys, e, f) = insert-inorder ast key pool.count t in
    (
      whole,
      (
        xs,
        ys,
        key_tree_get_ordered-inorder ast pool root t h ∙ e,
        key_tree_get_ordered-inorder ast _ _ _ whole ∙ f,
      ),
    )

-- A pool that was just initialised holds the empty tree of an object without keys.
pub key_tree_init-IsKeyTree :
    (ast : List AstNode) (capacity : ℕ) → IsKeyTree ast (key_tree_init capacity) none tip
unfolding key_tree_init
key_tree_init-IsKeyTree ast capacity = record {
  links = tt;
  search = tt;
  below = λ j o. absurd o;
  slots = length-replicate capacity zero_key;
  counted = omega arith;
}
