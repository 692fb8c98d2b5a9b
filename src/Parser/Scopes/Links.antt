-- ===== src/Parser/Scopes/Links.antt =====
-- src/parser/parser.c: link_node_to_scope opens and closes no scope, and keeps the set of keys well formed.
use mathlib.Core.Path.{subst}
use jsonv.Base.{
  ℕ, ◌%◌, ◌≡◌, ◌∙◌, refl, sym, ap, ◌&&◌, List, [], ◌∷◌, ◌++◌, ◌==◌, inl, inr, length, ltb,
  Bool-cases,
}
use jsonv.Token.{Bytes, Token}
use jsonv.HashSet.{
  HashSet, InsertResult, key_is_uniq, table_is_full, key_already_exist, key_too_long, set_insert,
}
use jsonv.HashSet.Members.{IsHashSet}
use jsonv.HashSet.Inserts.{Inserts, set_insert-Inserts}
use jsonv.Ast.{AstType, leaf, new_node}
use jsonv.Parser.Build.{
  Scope, Builder, in_object, recorded, record_key, record_short, detect_duplicate, link_in,
  link_scopes, link_node_to_scope, max_scoped_key,
}
use jsonv.Parser.{is_leaf, add_node, add_leaf}

-- A step of the builder that neither opens nor closes a scope.
pub record Steps (b c : Builder) : Type 0 where
  pub scopes : length c.scopes ≡ length b.scopes
  pub keys : IsHashSet b.keys → IsHashSet c.keys

Inserts-IsHashSet :
    (s : HashSet) (key : Bytes) (r : InsertResult × HashSet)
    → IsHashSet s
    → Inserts s key r
    → IsHashSet r.1
Inserts-IsHashSet s key (key_is_uniq, t) inv h = h.1
Inserts-IsHashSet s key (key_already_exist, t) inv h = subst IsHashSet (sym h.1) inv
Inserts-IsHashSet s key (table_is_full, t) inv h = subst IsHashSet (sym h.1) inv
Inserts-IsHashSet s key (key_too_long, t) inv h = subst IsHashSet (sym h.1) inv

recorded-Steps :
    (s : Scope) (new : ℕ) (b : Builder) (r : InsertResult × HashSet)
    → (IsHashSet b.keys → IsHashSet r.1)
    → Steps b (recorded s new b r)
unfolding recorded
recorded-Steps s new b (key_is_uniq, keys) k = record { scopes = refl; keys = k }
recorded-Steps s new b (key_already_exist, keys) k = record { scopes = refl; keys = k }
recorded-Steps s new b (table_is_full, keys) k = record { scopes = refl; keys = k }
recorded-Steps s new b (key_too_long, keys) k = record { scopes = refl; keys = k }

record_key-Steps :
    (s : Scope) (new : ℕ) (key : Bytes) (b : Builder) → Steps b (record_key s new key b)
unfolding record_key
record_key-Steps s new key b = recorded-Steps s new b (set_insert b.keys key) (λ inv.
    Inserts-IsHashSet b.keys key (set_insert b.keys key) inv (set_insert-Inserts b.keys key inv))

Steps-refl : (b : Builder) → Steps b b
Steps-refl b = record { scopes = refl; keys = λ inv. inv }

record_short-Steps :
    (s : Scope) (new : ℕ) (key : Bytes) (b : Builder) → Steps b (record_short s new key b)
unfolding record_short
record_short-Steps s new key b = elim (Bool-cases (ltb max_scoped_key (length key))) [
  | inl long ↦ rw long (Steps-refl b)
  | inr short ↦ rw short (record_key-Steps s new key b)
]

detect_duplicate-Steps : (s : Scope) (new : ℕ) (b : Builder) → Steps b (detect_duplicate s new b)
unfolding detect_duplicate
detect_duplicate-Steps s new b = elim (Bool-cases (in_object s b.nodes && s.count % 2 == 0)) [
  | inl key ↦ rw key (record_short-Steps s new _ b)
  | inr other ↦ rw other (Steps-refl b)
]

link_scopes-Steps :
    (scopes : List Scope) (new : ℕ) (b : Builder)
    → b.scopes ≡ scopes
    → Steps b (link_scopes scopes new b)
unfolding link_scopes link_in
link_scopes-Steps [] new b e = Steps-refl b
link_scopes-Steps (s ∷ below) new b e =
    let h = detect_duplicate-Steps s new _ in
    record { scopes = h.scopes ∙ sym (ap length e); keys = h.keys }

pub add_node-Steps : (type : AstType) (t : Token) (b : Builder) → Steps b (add_node type t b)
unfolding add_node link_node_to_scope
add_node-Steps type t b =
    let h =
      link_scopes-Steps b.scopes (length b.nodes)
        (record b { nodes = b.nodes ++ (new_node type t ∷ []) }) refl in
    record { scopes = h.scopes; keys = h.keys }

pub add_leaf-Steps : (t : Token) (b : Builder) → Steps b (add_leaf t b)
add_leaf-Steps t b = elim (Bool-cases (is_leaf t.type)) [
  | inl leaf_token ↦ rw leaf_token (add_node-Steps leaf t b)
  | inr other ↦ rw other (Steps-refl b)
]
