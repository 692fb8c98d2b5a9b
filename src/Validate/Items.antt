-- ===== src/Validate/Items.antt =====
-- The handlers of src/validation/validate_opcodes.c on the parts of arrays and objects.
use jsonv.Base.{
  ℕ, zero, suc, ◌+◌, ◌*◌, Bool, true, false, not, Option, none, some, List, [], ◌∷◌, ◌++◌, length,
  take, drop,
}
use jsonv.Token.{Bytes}
use jsonv.Ast.{object, array}
use jsonv.Parser.Build.{print_index}
use jsonv.Validate.{
  constant, c_string, children, kept_items, Member, members, find_property, ast_nodes_equal,
}
use jsonv.Validate.Handlers.{
  ErrorType, Verdict, Handled, Vm, refuse, with_uint32, require, this_node, and_then, below_int32,
  above_int32, min_properties_error, max_properties_error, min_items_error, required_error,
  unique_items_error, contains_error, valid, faulty, stop, go_on,
}

-- The children of an array; any other node is passed over.
abbrev pub on_array : Vm → Bytes → (List ℕ → Handled) → Handled
on_array vm rest k = elim (this_node vm).type [
  | array ↦ elim (children vm.pool vm.node_idx) [ none ↦ stop faulty | some cs ↦ k cs ]
  | _ ↦ go_on rest
]

abbrev pub on_object : Vm → Bytes → (List Member → Handled) → Handled
on_object vm rest k = elim (this_node vm).type [
  | object ↦ elim (members vm.pool vm.node_idx) [ none ↦ stop faulty | some ms ↦ k ms ]
  | _ ↦ go_on rest
]

unfoldable pub handle_min_items : Vm → Bytes → Handled
handle_min_items vm pc = with_uint32 pc (λ w rest.
    on_array vm rest (λ cs. require min_items_error (not (below_int32 (length cs) w)) vm rest))

-- There is no error type for too many items.
unfoldable pub handle_max_items : Vm → Bytes → Handled
handle_max_items vm pc = with_uint32 pc (λ w rest.
    on_array vm rest (λ cs. require min_items_error (not (above_int32 (length cs) w)) vm rest))

unfoldable pub handle_min_properties : Vm → Bytes → Handled
handle_min_properties vm pc = with_uint32 pc (λ w rest.
    on_object vm rest
      (λ ms. require min_properties_error (not (below_int32 (length ms) w)) vm rest))

unfoldable pub handle_max_properties : Vm → Bytes → Handled
handle_max_properties vm pc = with_uint32 pc (λ w rest.
    on_object vm rest
      (λ ms. require max_properties_error (not (above_int32 (length ms) w)) vm rest))

-- snprintf into 64 bytes
abbrev pub item_path : Bytes → ℕ → Bytes
item_path path i = take 63 (path ++ (b'[' ∷ (print_index i ++ (b']' ∷ []))))

unfoldable pub validate_items : Vm → ℕ → ℕ → List ℕ → Verdict
validate_items vm offset i [] = valid
validate_items vm offset i (c ∷ cs) = elim (vm.validate offset c (item_path vm.path i)) [
  | valid ↦ validate_items vm offset (i + 1) cs
  | other ↦ other
]

unfoldable pub handle_items : Vm → Bytes → Handled
handle_items vm pc =
    with_uint32 pc (λ offset rest.
      on_array vm rest (λ cs. and_then (validate_items vm offset 0 cs) (go_on rest)))

-- The first item that is valid ends the loop.
unfoldable pub contains_item : Vm → ℕ → List ℕ → Option Bool
contains_item vm offset [] = some false
contains_item vm offset (c ∷ cs) = elim (vm.validate offset c vm.path) [
  | valid ↦ some true
  | faulty ↦ none
  | _ ↦ contains_item vm offset cs
]

abbrev pub require? : ErrorType → Option Bool → Vm → Bytes → Handled
require? e ok vm rest = elim ok [ none ↦ stop faulty | some b ↦ require e b vm rest ]

unfoldable pub handle_contains : Vm → Bytes → Handled
handle_contains vm pc = with_uint32 pc (λ offset rest.
    on_array vm rest
      (λ cs. require? contains_error (contains_item vm offset (kept_items vm.pool cs)) vm rest))

-- Whether no later item equals the first, and then the rest.
unfoldable pub none_equal : Vm → ℕ → List ℕ → Option Bool
none_equal vm c [] = some true
none_equal vm c (d ∷ ds) = elim (ast_nodes_equal vm.lib (suc (length vm.pool)) vm.pool c d) [
  | some false ↦ none_equal vm c ds
  | some true ↦ some false
  | none ↦ none
]

unfoldable pub all_unique : Vm → List ℕ → Option Bool
all_unique vm [] = some true
all_unique vm (c ∷ cs) = elim (none_equal vm c cs) [ some true ↦ all_unique vm cs | other ↦ other ]

unfoldable pub handle_unique_items : Vm → Bytes → Handled
handle_unique_items vm pc =
    on_array vm pc (λ cs. require? unique_items_error (all_unique vm (kept_items vm.pool cs)) vm pc)

-- The keys that are required, read while they are looked up.
unfoldable pub required_loop : Vm → ℕ → Bytes → Handled
required_loop vm zero pc = go_on pc
required_loop vm (suc n) pc = with_uint32 pc (λ offset pc₁. with_uint32 pc₁ (λ len pc₂.
    elim (constant vm.constants offset len) [
      | none ↦ stop faulty
      | some key ↦ elim (find_property vm.pool vm.node_idx (c_string key)) [
        | none ↦ stop faulty
        | some none ↦ refuse required_error vm
        | some (some v) ↦ required_loop vm n pc₂
      ]
    ]))

unfoldable pub handle_required : Vm → Bytes → Handled
handle_required vm pc = with_uint32 pc (λ count rest. elim (this_node vm).type [
  | object ↦ required_loop vm count rest
  | _ ↦ go_on (drop (count * 8) rest)
])
