-- ===== src/Tests/KeyTreeExamples.antt =====
-- src/parser/keytree.c: its theorem at a concrete input, the key "a" put behind the key "b".
use jsonv.Base.{ℕ, ◌<◌, ◌≡◌, false, Option, none, List, [], ◌∷◌, ◌++◌, arith}
use jsonv.Token.{string}
use jsonv.Ast.{
  AstNode, leaf, new_node, KeyPool, key_tree_init, key_tree_insert, key_tree_get_ordered,
}
use jsonv.Ast.KeyTree.{Tree, tip, insert}
use jsonv.Ast.KeyOrder.{IsKeyTree, key_tree_insert-IsKeyTree, key_tree_init-IsKeyTree}
use jsonv.Tests.LexerRuns.{codes}

abbrev two_keys : List AstNode
two_keys =
    new_node leaf (record { start = codes "b\""; len = 1; type = string; has_escape = false })
    ∷ new_node leaf (record { start = codes "a\""; len = 1; type = string; has_escape = false })
    ∷ []

abbrev one_key : Option ℕ × KeyPool
one_key = key_tree_insert (key_tree_init 4) none 0 two_keys

one_key-IsKeyTree :
    IsKeyTree two_keys one_key.1 one_key.0 (insert two_keys 0 (key_tree_init 4).count tip)
unfolding key_tree_init
one_key-IsKeyTree =
    (key_tree_insert-IsKeyTree two_keys 0 (key_tree_init 4) none tip
      (key_tree_init-IsKeyTree two_keys 4) (omega arith)).0

one_key_room : one_key.1.count < one_key.1.capacity
unfolding key_tree_init key_tree_insert
one_key_room = omega arith

abbrev one_key_tree : Tree
one_key_tree = insert two_keys 0 (key_tree_init 4).count tip

key_tree_insert-IsKeyTree_example :
    IsKeyTree two_keys
      (key_tree_insert one_key.1 one_key.0 1 two_keys).1
      (key_tree_insert one_key.1 one_key.0 1 two_keys).0
      (insert two_keys 1 one_key.1.count one_key_tree)
    × ((xs : List ℕ) × (ys : List ℕ) × (key_tree_get_ordered one_key.1 one_key.0 ≡ xs ++ ys)
        × (key_tree_get_ordered
              (key_tree_insert one_key.1 one_key.0 1 two_keys).1
              (key_tree_insert one_key.1 one_key.0 1 two_keys).0
            ≡ xs ++ (1 ∷ ys)))
key_tree_insert-IsKeyTree_example =
    key_tree_insert-IsKeyTree two_keys 1 one_key.1 one_key.0 one_key_tree one_key-IsKeyTree
      one_key_room
