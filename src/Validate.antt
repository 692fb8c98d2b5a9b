-- ===== src/Validate.antt =====
-- src/validation/validate_internal.h and the nodes that src/validation reads: bytecode as the bytes from a
-- pointer on, the children of a node, find_property of src/parser/parser.c, and ast_nodes_equal of
-- validate_helpers.c. `none` is a read out of bounds or a chain of siblings without an end.
pub mod Handlers
pub mod Items
pub mod Run
pub mod Properties
pub mod Machine
pub mod Applicators
pub mod Within
pub mod Advances
pub mod Forward
pub mod Tables
pub mod Ends
pub mod Below
pub mod Monotone
pub mod Fuel
use jsonv.Base.{
  ℕ, zero, suc, ◌+◌, ◌-◌, ◌*◌, ◌/◌, ◌%◌, ◌^◌, Bool, true, false, not, ◌&&◌, ◌||◌, Option, none,
  some, List, [], ◌∷◌, ◌++◌, ◌==◌, leb, ltb, length, take, drop, get_or, if◌then◌else◌,
}
use jsonv.Token.{
  Bytes, TokenType, error, eof, colon, comma, brace_open, brace_close, bracket_open, bracket_close,
  string, number, null, true_lit, false_lit, Token, text,
}
use jsonv.HashSet.{bytes_equal}
use jsonv.Unescape.{unescape_string}
use jsonv.Ast.{AstType, leaf, object, array, skipped, AstNode, node_at}

-- read_byte, and read_uint32, read_int32 and read_double on a little-endian machine: the value of the next
-- bytes, the least first, and the bytes behind them.
unfoldable pub read_bytes : ℕ → Bytes → Option (ℕ × Bytes)
read_bytes zero pc = some (0, pc)
read_bytes (suc n) [] = none
read_bytes (suc n) (c ∷ pc) = elim (read_bytes n pc) [
  | none ↦ none
  | some (v, rest) ↦ some (c + 256 * v, rest)
]

abbrev pub read_uint32 : Bytes → Option (ℕ × Bytes)
read_uint32 = read_bytes 4

abbrev pub read_double : Bytes → Option (ℕ × Bytes)
read_double = read_bytes 8

-- The bytes that an offset into the constant pool and a length name.
unfoldable pub constant : Bytes → ℕ → ℕ → Option Bytes
constant pool offset len =
    if ltb (length pool) (offset + len) then none else some (take len (drop offset pool))

-- A text as the C library reads it: up to its first NUL.
unfoldable pub c_string : Bytes → Bytes
c_string [] = []
c_string (c ∷ s) = let rest = c_string s in if c == 0 then [] else c ∷ rest

-- `while (child_idx != -1) … child_idx = next_sibling`
unfoldable pub siblings : ℕ → List AstNode → Option ℕ → Option (List ℕ)
siblings f pool none = some []
siblings zero pool (some c) = none
siblings (suc f) pool (some c) = elim (siblings f pool (node_at pool c).next_sibling) [
  | none ↦ none
  | some cs ↦ some (c ∷ cs)
]

unfoldable pub children : List AstNode → ℕ → Option (List ℕ)
children pool n = siblings (length pool) pool (node_at pool n).first_child

-- A key, and its value if it has one.
abbrev pub Member : Type 0
Member = ℕ × Option ℕ

-- The loop over keys and values: it ends behind a key without a value.
unfoldable pub pair_up : List ℕ → List Member
pair_up [] = []
pair_up (k ∷ []) = (k, none) ∷ []
pair_up (k ∷ v ∷ rest) = (k, some v) ∷ pair_up rest

abbrev pub is_skipped : List AstNode → ℕ → Bool
is_skipped pool n = elim (node_at pool n).type [ skipped ↦ true | _ ↦ false ]

unfoldable pub kept : List AstNode → List Member → List Member
kept pool [] = []
kept pool ((k, v) ∷ ms) =
    let rest = kept pool ms in if is_skipped pool k then rest else (k, v) ∷ rest

unfoldable pub kept_items : List AstNode → List ℕ → List ℕ
kept_items pool [] = []
kept_items pool (c ∷ cs) =
    let rest = kept_items pool cs in if is_skipped pool c then rest else c ∷ rest

-- The keys of an object that are not skipped, each with its value.
unfoldable pub members : List AstNode → ℕ → Option (List Member)
members pool n = elim (children pool n) [ none ↦ none | some cs ↦ some (kept pool (pair_up cs)) ]

-- A text without the quotes around it, if it has them.
unfoldable pub unquote : Bytes → Bytes
unquote s =
    if leb 2 (length s) && get_or s 0 0 == b'"' && get_or s (length s - 1) 0 == b'"'
    then take (length s - 2) (drop 1 s)
    else s

abbrev pub unescaped : Bool → Bytes → Bytes
unescaped has_escape s = if has_escape then unescape_string s else s

-- find_property: the value of the first key that is the text.
unfoldable pub find_member : List AstNode → List Member → Bytes → Option ℕ
find_member pool [] key = none
find_member pool ((k, v) ∷ ms) key =
    let t = (node_at pool k).token in
    if bytes_equal (unescaped t.has_escape (text t)) key then v else find_member pool ms key

unfoldable pub find_property : List AstNode → ℕ → Bytes → Option (Option ℕ)
find_property pool n key = elim (node_at pool n).type [
  | object ↦ elim (members pool n) [ none ↦ none | some ms ↦ some (find_member pool ms key) ]
  | _ ↦ some none
]

-- The kinds that ast_nodes_equal tells apart; a leaf goes by its token.
pub data Kind : Type 0 where
  k_null k_true k_false k_number k_string k_array k_object k_other : Kind

unfoldable pub leaf_kind : TokenType → Kind
leaf_kind string = k_string
leaf_kind number = k_number
leaf_kind null = k_null
leaf_kind true_lit = k_true
leaf_kind false_lit = k_false
leaf_kind _ = k_other

unfoldable pub kind : AstNode → Kind
kind n = elim n.type [
  | object ↦ k_object
  | array ↦ k_array
  | leaf ↦ leaf_kind n.token.type
  | skipped ↦ k_other
]

-- What the validator takes from the C library: regcomp with regexec, `none` where the pattern does not
-- compile; strtod; and the operations of the machine on doubles, which are their 64 bits here: `truncate` is
-- the conversion to int64_t and back.
pub record CLibrary : Type 0 where
  pub matches : Bytes → Bytes → Option Bool
  pub strtod : Bytes → ℕ
  pub less : ℕ → ℕ → Bool
  pub equal : ℕ → ℕ → Bool
  pub is_integral : ℕ → Bool
  pub add : ℕ → ℕ → ℕ
  pub subtract : ℕ → ℕ → ℕ
  pub divide : ℕ → ℕ → ℕ
  pub truncate : ℕ → ℕ
  pub negate : ℕ → ℕ

-- Texts of 128 bytes or more are equal only byte by byte.
unfoldable pub same_number : CLibrary → Bytes → Bytes → Bool
same_number lib a b =
    bytes_equal a b
    || ltb (length a) 128 && ltb (length b) 128 && lib.equal (lib.strtod a) (lib.strtod b)

abbrev pub Equality : Type 0
Equality = ℕ → ℕ → Option Bool

unfoldable pub same_items : Equality → List ℕ → List ℕ → Option Bool
same_items eq [] [] = some true
same_items eq (x ∷ xs) (y ∷ ys) = elim (eq x y) [ some true ↦ same_items eq xs ys | other ↦ other ]
same_items eq _ _ = some false

-- Keys are compared as they are written, without the quotes.
unfoldable pub same_key_in : List AstNode → Bytes → List Member → Option ℕ
same_key_in pool key [] = none
same_key_in pool key ((k, v) ∷ ms) =
    if bytes_equal key (unquote (text (node_at pool k).token)) then v else same_key_in pool key ms

-- A key without a value, which parse_ast does not build, makes the source read pool[-1]: `none`.
unfoldable pub same_members : Equality → List AstNode → List Member → List Member → Option Bool
same_members eq pool [] others = some true
same_members eq pool ((k, none) ∷ ms) others = none
same_members eq pool ((k, some v) ∷ ms) others =
    elim (same_key_in pool (unquote (text (node_at pool k).token)) others) [
      | none ↦ some false
      | some w ↦ elim (eq v w) [ some true ↦ same_members eq pool ms others | other ↦ other ]
    ]

unfoldable pub same_objects :
    Equality → List AstNode → Option (List Member) → Option (List Member) → Option Bool
same_objects eq pool (some xs) (some ys) = elim (same_members eq pool xs ys) [
  | some true ↦ some (length xs == length ys)
  | other ↦ other
]
same_objects eq pool _ _ = none

unfoldable pub same_arrays :
    Equality → List AstNode → Option (List ℕ) → Option (List ℕ) → Option Bool
same_arrays eq pool (some xs) (some ys) = same_items eq (kept_items pool xs) (kept_items pool ys)
same_arrays eq pool _ _ = none

unfoldable pub same_nodes : CLibrary → Equality → List AstNode → ℕ → ℕ → Kind → Kind → Option Bool
same_nodes lib eq pool a b k_null k_null = some true
same_nodes lib eq pool a b k_true k_true = some true
same_nodes lib eq pool a b k_false k_false = some true
same_nodes lib eq pool a b k_number k_number =
    some (same_number lib (text (node_at pool a).token) (text (node_at pool b).token))
same_nodes lib eq pool a b k_string k_string =
    some
      (bytes_equal (unquote (text (node_at pool a).token)) (unquote (text (node_at pool b).token)))
same_nodes lib eq pool a b k_array k_array = same_arrays eq pool (children pool a) (children pool b)
same_nodes lib eq pool a b k_object k_object =
    same_objects eq pool (members pool a) (members pool b)
same_nodes lib eq pool a b _ _ = some false

-- On fuel for the nesting.
unfoldable pub ast_nodes_equal : CLibrary → ℕ → List AstNode → ℕ → ℕ → Option Bool
ast_nodes_equal lib zero pool a b = none
ast_nodes_equal lib (suc f) pool a b =
    same_nodes lib (λ x y. ast_nodes_equal lib f pool x y) pool a b (kind (node_at pool a))
      (kind (node_at pool b))
