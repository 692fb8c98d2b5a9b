-- ===== src/Parser.antt =====
-- src/parser/parser.c: parse_ast, the pushdown parser. Its three stacks are lists with the top
-- first, but for the node pool, which is indexed from the bottom; growing a stack is taken to
-- succeed.
pub mod Build
pub mod Fuel
pub mod Grammar
pub mod Tokens
pub mod Runs
pub mod Containers
pub mod Complete
pub mod Accepts
pub mod Means
pub mod Sound
pub mod Decides
pub mod Scopes
use jsonv.Base.{
  ℕ, zero, suc, ◌+◌, ◌-◌, ◌*◌, Bool, true, false, not, ◌||◌, none, some, List, [], ◌∷◌, ◌++◌, ◌==◌,
  ltb, length, if◌then◌else◌,
}
use jsonv.Token.{
  Bytes, TokenType, error, eof, colon, comma, brace_open, brace_close, bracket_open, bracket_close,
  string, number, null, true_lit, false_lit, Token,
}
use jsonv.Lexer.Cursor.{Lexer}
use jsonv.Lexer.{lexer_next_token}
use jsonv.HashSet.{HashSet}
use jsonv.Ast.{AstType, leaf, object, array, AstNode, new_node, KeyPool}
use jsonv.Parser.Build.{same_type, Scope, Builder, link_node_to_scope}

-- What stands on the control stack: a token type to match, a `RuleType` or a mark.
pub data Symbol : Type 0 where
  terminal : TokenType → Symbol
  rule_json rule_value rule_object rule_members rule_pair rule_array : Symbol
  rule_elements rule_next_member rule_next_element : Symbol
  mark_object_end mark_array_end : Symbol

-- The exceptions that parse_ast raises, a failed `assert` of stack_pop, and the end of the fuel.
pub data Fault : Type 0 where
  malformed_json maximum_nested_depth_reached assertion_failed out_of_fuel : Fault

abbrev pub max_json_depth : ℕ
max_json_depth = 64

-- The locals of parse_ast, `c` and `n` the two tokens of lookahead.
pub record State : Type 0 where
  pub lexer : Lexer
  pub c : Token
  pub n : Token
  pub controls : List Symbol
  pub depth : ℕ
  pub builder : Builder

-- One turn of the loop: it goes on, leaves the loop, or raises.
pub data Turn : Type 0 where
  go stop : State → Turn
  raise : Fault → Turn

unfoldable pub is_leaf : TokenType → Bool
is_leaf t =
    same_type t string
    || same_type t number
    || same_type t true_lit
    || same_type t false_lit
    || same_type t null

-- `stack_push(nodes, &node)` and link_node_to_scope on its index
unfoldable pub add_node : AstType → Token → Builder → Builder
add_node type t b =
    link_node_to_scope (length b.nodes) (record b { nodes = b.nodes ++ (new_node type t ∷ []) })

abbrev pub add_leaf : Token → Builder → Builder
add_leaf t b = if is_leaf t.type then add_node leaf t b else b

-- `c = n; n = lexer_next_token(lexer);`
unfoldable pub shift : State → State
shift s = let (t, l) = lexer_next_token s.lexer in record s { lexer = l; c = s.n; n = t }

abbrev pub is_empty : List Symbol → Bool
is_empty [] = true
is_empty (x ∷ xs) = false

-- Leaf nodes are added, the token is taken, and the loop ends with the input and the stack.
abbrev pub leave_or_go : State → Turn
leave_or_go s =
    if same_type s.n.type eof then (if is_empty s.controls then stop s else go s) else go s

unfoldable pub match_terminal : TokenType → State → Turn
match_terminal expected s =
    if same_type expected s.c.type
    then leave_or_go (shift (record s { builder = add_leaf s.c s.builder }))
    else raise malformed_json

abbrev pub push : List Symbol → State → State
push symbols s = record s { controls = symbols ++ s.controls }

unfoldable pub expand_value : State → Turn
expand_value s =
    if same_type s.c.type brace_open
    then go (push (rule_object ∷ []) s)
    else if same_type s.c.type bracket_open
    then go (push (rule_array ∷ []) s)
    else if is_leaf s.c.type
    then go (push (terminal s.c.type ∷ []) s)
    else raise malformed_json

-- A container's node is added, linked, and becomes the scope of what follows.
unfoldable pub open_scope : AstType → Token → Builder → Builder
open_scope type t b =
    let new = length b.nodes in
    let b₁ = add_node type t b in
    record b₁ { scopes = record { count = 0; tail = none; parent = new } ∷ b₁.scopes }

-- `RULE_OBJECT` and `RULE_ARRAY`, by their node type, tokens, contents and mark
unfoldable pub expand_container : AstType → TokenType → TokenType → Symbol → Symbol → State → Turn
expand_container type opening closing contents mark s =
    if ltb max_json_depth (s.depth + 1)
    then raise maximum_nested_depth_reached
    else go (record s {
      depth = s.depth + 1;
      builder = open_scope type s.c s.builder;
      controls =
          terminal opening
          ∷ ((if same_type s.n.type closing then [] else contents ∷ [])
              ++ (terminal closing ∷ mark ∷ s.controls));
    })

-- `RULE_NEXT_MEMBER` and `RULE_NEXT_ELEMENT`: after a comma the list goes on.
unfoldable pub expand_next : Symbol → State → Turn
expand_next contents s =
    if same_type s.c.type comma then go (push (terminal comma ∷ contents ∷ []) s) else go s

-- The three ints of a scope are popped.
unfoldable pub close_scope : List Scope → State → Turn
close_scope [] s = raise assertion_failed
close_scope (scope ∷ below) s =
    go (record s { depth = s.depth - 1; builder = record s.builder { scopes = below } })

-- The switch on the symbol that was popped.
unfoldable pub turn : Symbol → State → Turn
turn (terminal t) s = match_terminal t s
turn rule_json s = go (push (rule_value ∷ terminal eof ∷ []) s)
turn rule_value s = expand_value s
turn rule_object s = expand_container object brace_open brace_close rule_members mark_object_end s
turn rule_array s = expand_container array bracket_open bracket_close rule_elements mark_array_end s
turn rule_members s = go (push (rule_pair ∷ rule_next_member ∷ []) s)
turn rule_pair s = go (push (terminal string ∷ terminal colon ∷ rule_value ∷ []) s)
turn rule_next_member s = expand_next rule_members s
turn rule_elements s = go (push (rule_value ∷ rule_next_element ∷ []) s)
turn rule_next_element s = expand_next rule_elements s
turn mark_object_end s = close_scope s.builder.scopes s
turn mark_array_end s = close_scope s.builder.scopes s

-- A parse returns its last state, or raises.
pub data Parsed : Type 0 where
  parsed : State → Parsed
  raised : Fault → Parsed

-- Behind the loop: `if (n.type != T_EOF) RAISE(MALFORMED_JSON);`
abbrev pub at_end : State → Parsed
at_end s = if same_type s.n.type eof then parsed s else raised malformed_json

abbrev pub popped : List Symbol → State → State
popped rest s = record s { controls = rest }

-- The loop, by the control stack.
unfoldable pub parse_loop : ℕ → List Symbol → State → Parsed
parse_loop f [] s = at_end s
parse_loop zero (x ∷ rest) s = raised out_of_fuel
parse_loop (suc f) (x ∷ rest) s = elim (turn x (popped rest s)) [
  | go s₁ ↦ parse_loop f s₁.controls s₁
  | stop s₁ ↦ at_end s₁
  | raise e ↦ raised e
]

-- The state in front of the loop.
unfoldable pub start : Lexer → HashSet → KeyPool → State
start l keys pool =
    let (c, l₁) = lexer_next_token l in
    let (n, l₂) = lexer_next_token l₁ in
    record {
      lexer = l₂;
      c = c;
      n = n;
      controls = rule_json ∷ [];
      depth = 0;
      builder = record { nodes = []; scopes = []; keys = keys; key_pool = pool };
    }

-- Seven turns for each byte of the source, and those of the first and last rules.
unfoldable pub parse_fuel : Lexer → ℕ
parse_fuel l = 7 * length l.rest + 32

unfoldable pub parse_ast : Lexer → HashSet → KeyPool → Parsed
parse_ast l keys pool = let s = start l keys pool in parse_loop (parse_fuel l) s.controls s
