-- ===== src/Parser/Build.antt =====
-- src/parser/parser.c: link_node_to_scope, which hangs a new node into the tree. An ALLOC for a
-- long key is taken to succeed.
use jsonv.Base.{
  ℕ, zero, suc, ◌+◌, ◌/◌, ◌%◌, Bool, true, false, not, ◌&&◌, Option, none, some, List, [], ◌∷◌,
  ◌++◌, ◌==◌, ltb, length, set, if◌then◌else◌,
}
use jsonv.Token.{
  Bytes, TokenType, error, eof, colon, comma, brace_open, brace_close, bracket_open, bracket_close,
  string, number, null, true_lit, false_lit,
}
use jsonv.HashSet.{HashSet, InsertResult, key_already_exist, set_insert}
use jsonv.Ast.{AstType, skipped, AstNode, node_at, key_bytes, KeyPool, key_tree_insert}

-- The values of the enum, by which the source compares types.
abbrev pub code_of : TokenType → ℕ
code_of error = 0
code_of eof = 1
code_of colon = 2
code_of comma = 3
code_of brace_open = 4
code_of brace_close = 5
code_of bracket_open = 6
code_of bracket_close = 7
code_of string = 8
code_of number = 9
code_of null = 10
code_of true_lit = 11
code_of false_lit = 12

unfoldable pub same_type : TokenType → TokenType → Bool
same_type t u = code_of t == code_of u

abbrev pub is_skipped : AstType → Bool
is_skipped skipped = true
is_skipped _ = false

-- The three ints of a scope, pushed and popped together: Count on top, then Tail, then Parent.
pub record Scope : Type 0 where
  pub count : ℕ
  pub tail : Option ℕ
  pub parent : ℕ

-- What the parser builds: the node pool (`nodes->data`, to `nodes->top`), the scopes, the set of
-- keys and the trees of keys.
pub record Builder : Type 0 where
  pub nodes : List AstNode
  pub scopes : List Scope
  pub keys : HashSet
  pub key_pool : KeyPool

-- `pool[i] = change(pool[i])`
abbrev pub modify : ℕ → (AstNode → AstNode) → List AstNode → List AstNode
modify i change pool = set pool i (change (node_at pool i))

-- `snprintf` of `%d`, for a number that is not negative, on fuel for its digits.
unfoldable pub decimal : ℕ → ℕ → Bytes
decimal zero n = []
decimal (suc f) n =
    let more = decimal f (n / 10) in (if n == 0 then [] else more ++ ((b'0' + n % 10) ∷ []))

unfoldable pub print_index : ℕ → Bytes
print_index n = if n == 0 then b'0' ∷ [] else decimal n n

-- `"%d:"` and the key
unfoldable pub scoped_key : ℕ → Bytes → Bytes
scoped_key parent key = print_index parent ++ (b':' ∷ key)

-- 1. the links: of the last sibling, or of the parent where the node is the first
unfoldable pub link_structure : Scope → ℕ → List AstNode → List AstNode
link_structure s new pool =
    let pool₁ = modify new (λ n. record n { parent = some s.parent }) pool in
    elim s.tail [
      | none ↦ modify s.parent (λ n. record n { first_child = some new }) pool₁
      | some t ↦ modify t (λ n. record n { next_sibling = some new }) pool₁
    ]

abbrev pub in_object : Scope → List AstNode → Bool
in_object s pool = same_type (node_at pool s.parent).token.type brace_open

abbrev pub tail_skipped : Option ℕ → List AstNode → Bool
tail_skipped none pool = false
tail_skipped (some t) pool = is_skipped (node_at pool t).type

abbrev pub skip_node : ℕ → List AstNode → List AstNode
skip_node new = modify new (λ n. record n { type = skipped })

-- 1b. the value of a skipped key is skipped
unfoldable pub skip_value : Scope → ℕ → List AstNode → List AstNode
skip_value s new pool =
    if in_object s pool && not (s.count % 2 == 0)
    then (if tail_skipped s.tail pool then skip_node new pool else pool)
    else pool

-- 3. A key that the object has is skipped; another goes into the object's tree.
unfoldable pub recorded : Scope → ℕ → Builder → InsertResult × HashSet → Builder
recorded s new b (key_already_exist, keys) = record b { nodes = skip_node new b.nodes; keys = keys }
recorded s new b (_, keys) =
    let (root, pool) =
      key_tree_insert b.key_pool (node_at b.nodes s.parent).key_tree_root new b.nodes in
    record b {
      nodes = modify s.parent (λ n. record n { key_tree_root = root }) b.nodes;
      keys = keys;
      key_pool = pool;
    }

unfoldable pub record_key : Scope → ℕ → Bytes → Builder → Builder
record_key s new key b = recorded s new b (set_insert b.keys key)

abbrev pub max_scoped_key : ℕ
max_scoped_key = 65535

-- A key longer than a uint16_t can count is not recorded.
unfoldable pub record_short : Scope → ℕ → Bytes → Builder → Builder
record_short s new key b = if ltb max_scoped_key (length key) then b else record_key s new key b

unfoldable pub detect_duplicate : Scope → ℕ → Builder → Builder
detect_duplicate s new b =
    if in_object s b.nodes && s.count % 2 == 0
    then record_short s new (scoped_key s.parent (key_bytes (node_at b.nodes new).token)) b
    else b

-- The whole function, in the scope on top; at the root there is none and nothing to link.
unfoldable pub link_in : Scope → List Scope → ℕ → Builder → Builder
link_in s below new b = detect_duplicate s new (record b {
  nodes = skip_value s new (link_structure s new b.nodes);
  scopes = record s { count = s.count + 1; tail = some new } ∷ below;
})

unfoldable pub link_scopes : List Scope → ℕ → Builder → Builder
link_scopes [] new b = b
link_scopes (s ∷ below) new b = link_in s below new b

unfoldable pub link_node_to_scope : ℕ → Builder → Builder
link_node_to_scope new b = link_scopes b.scopes new b
