-- ===== src/Ast.antt =====
-- src/parser/ast.h and keytree.h, keytree.c: the nodes that the parser builds and the search tree
-- over the keys of each object. An index of -1 is `none`.
pub mod KeyTree
pub mod KeyInsert
pub mod KeyOrder
use jsonv.Base.{
  ℕ, zero, suc, ◌+◌, Bool, true, false, Option, none, some, List, [], ◌∷◌, ◌++◌, ◌==◌, leb, length,
  get_or, set, replicate, if◌then◌else◌,
}
use Prim.Native.Nat.{compare, Ordering}
use jsonv.Token.{Bytes, error, Token, text}
use jsonv.Unescape.{unescape_string}

-- `ASTNodeType`, of which the parser sets these four.
pub data AstType : Type 0 where
  leaf object array skipped : AstType

pub record AstNode : Type 0 where
  pub token : Token
  pub parent : Option ℕ
  pub type : AstType
  pub first_child : Option ℕ
  pub next_sibling : Option ℕ
  pub key_tree_root : Option ℕ

unfoldable pub new_node : AstType → Token → AstNode
new_node type t = record {
  token = t;
  parent = none;
  type = type;
  first_child = none;
  next_sibling = none;
  key_tree_root = none;
}

abbrev pub no_node : AstNode
no_node = record {
  token = record { start = []; len = 0; type = error; has_escape = false };
  parent = none;
  type = leaf;
  first_child = none;
  next_sibling = none;
  key_tree_root = none;
}

-- `pool[i]`
abbrev pub node_at : List AstNode → ℕ → AstNode
node_at pool i = get_or pool i no_node

-- The bytes of a key as they are compared: unescaped if an escape is in them.
unfoldable pub key_bytes : Token → Bytes
key_bytes t = if t.has_escape then unescape_string (text t) else text t

-- `strncmp` of the C library, up to n bytes.
unfoldable pub strncmp : ℕ → Bytes → Bytes → Ordering
strncmp zero a b = Ordering.eq
strncmp (suc n) (x ∷ a) (y ∷ b) =
    let rest = strncmp n a b in
    if x == y then (if x == 0 then Ordering.eq else rest) else compare x y
strncmp (suc n) _ _ = Ordering.eq

abbrev pub smaller : ℕ → ℕ → ℕ
smaller a b = if leb b a then b else a

-- The common bytes decide, then the lengths.
unfoldable pub compare_bytes : Bytes → Bytes → Ordering
compare_bytes a b = elim (strncmp (smaller (length a) (length b)) a b) [
  | Ordering.eq ↦ compare (length a) (length b)
  | other ↦ other
]

unfoldable pub compare_keys : List AstNode → ℕ → ℕ → Ordering
compare_keys pool i j =
    compare_bytes (key_bytes (node_at pool i).token) (key_bytes (node_at pool j).token)

pub record KeyNode : Type 0 where
  pub ast_key_idx : ℕ
  pub left : Option ℕ
  pub right : Option ℕ

-- `KeyTreePool`; `nodes` has `capacity` slots.
pub record KeyPool : Type 0 where
  pub nodes : List KeyNode
  pub capacity : ℕ
  pub count : ℕ

abbrev pub zero_key : KeyNode
zero_key = record { ast_key_idx = 0; left = some 0; right = some 0 }

unfoldable pub key_tree_init : ℕ → KeyPool
key_tree_init capacity = record {
  nodes = replicate capacity zero_key;
  capacity = capacity;
  count = 0;
}

-- `memset(self, 0, sizeof(KeyTreePool))`
unfoldable pub key_tree_clear : KeyPool → KeyPool
key_tree_clear pool = record { nodes = []; capacity = 0; count = 0 }

abbrev pub key_at : List KeyNode → ℕ → KeyNode
key_at nodes i = get_or nodes i zero_key

abbrev pub is_lt : Ordering → Bool
is_lt Ordering.lt = true
is_lt _ = false

-- The descent from `curr`, on fuel for the nodes of the pool: `new` is hung where a link is -1.
unfoldable pub hang : ℕ → List AstNode → ℕ → ℕ → ℕ → List KeyNode → List KeyNode
hang zero ast key new curr nodes = nodes
hang (suc f) ast key new curr nodes =
    let k = key_at nodes curr in
    elim (is_lt (compare_keys ast key k.ast_key_idx)) [
      | true ↦ elim k.left [
        | none ↦ set nodes curr (record k { left = some new })
        | some next ↦ hang f ast key new next nodes
      ]
      | false ↦ elim k.right [
        | none ↦ set nodes curr (record k { right = some new })
        | some next ↦ hang f ast key new next nodes
      ]
    ]

abbrev pub fresh_key : ℕ → KeyNode
fresh_key key = record { ast_key_idx = key; left = none; right = none }

-- The new root, or -1 if the pool is full, and the pool.
unfoldable pub key_tree_insert : KeyPool → Option ℕ → ℕ → List AstNode → Option ℕ × KeyPool
key_tree_insert pool root key ast =
    if leb pool.capacity pool.count
    then (none, pool)
    else let new = pool.count in
      let nodes = set pool.nodes new (fresh_key key) in
      elim root [
        | none ↦ (some new, record pool { nodes = nodes; count = new + 1 })
        | some r ↦
            (some r, record pool { nodes = hang (new + 1) ast key new r nodes; count = new + 1 })
      ]

-- Left, node, right, on fuel for the depth of the tree.
unfoldable pub get_ordered_recursive : ℕ → List KeyNode → Option ℕ → List ℕ
get_ordered_recursive zero nodes i = []
get_ordered_recursive (suc f) nodes none = []
get_ordered_recursive (suc f) nodes (some i) =
    let k = key_at nodes i in
    get_ordered_recursive f nodes k.left ++ (k.ast_key_idx ∷ get_ordered_recursive f nodes k.right)

unfoldable pub key_tree_get_ordered : KeyPool → Option ℕ → List ℕ
key_tree_get_ordered pool root = get_ordered_recursive (pool.count + 1) pool.nodes root
