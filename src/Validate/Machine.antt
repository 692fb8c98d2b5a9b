-- ===== src/Validate/Machine.antt =====
-- The table of opcodes of src/validation/validate_opcodes.c, and validate_bytecode of validate.c. Compiled code
-- may name itself, so the rules that a rule calls take fuel; without fuel the verdict is `faulty`.
use jsonv.Base.{
  ℕ, zero, suc, Bool, ◌+◌, not, ◌&&◌, none, some, List, [], ◌∷◌, ◌==◌, leb, ltb, length, drop,
  get_elem?, if◌then◌else◌,
}
use jsonv.Token.{Bytes}
use jsonv.Ast.{AstNode}
use jsonv.Validate.{read_uint32, CLibrary}
use jsonv.Validate.Handlers.{
  Verdict, valid, faulty, malformed, invalid, Handled, stop, go_on, Vm, Validate, handle_fail,
  handle_type, handle_minimum, handle_maximum, handle_min_length, handle_max_length,
  handle_multiple_of, handle_exclusive_minimum, handle_exclusive_maximum,
}
use jsonv.Validate.Items.{
  handle_min_items, handle_max_items, handle_items, handle_required, handle_min_properties,
  handle_max_properties, handle_unique_items, handle_contains,
}
use jsonv.Validate.Run.{
  handle_pattern, handle_not, handle_all_of, handle_any_of, handle_one_of, handle_if_then_else,
  handle_format,
}
use jsonv.Validate.Properties.{handle_properties, handle_property_names}

-- In the order of the enum in schema.h, from OP_FAIL = 1 on.
abbrev pub opcode_handlers : List (Vm → Bytes → Handled)
opcode_handlers =
    handle_fail ∷ handle_type ∷ handle_minimum ∷ handle_maximum ∷ handle_min_length
    ∷ handle_max_length ∷ handle_min_items ∷ handle_max_items ∷ handle_items ∷ handle_required
    ∷ handle_properties ∷ handle_multiple_of ∷ handle_exclusive_minimum ∷ handle_exclusive_maximum
    ∷ handle_pattern ∷ handle_min_properties ∷ handle_max_properties ∷ handle_unique_items
    ∷ handle_contains ∷ handle_not ∷ handle_all_of ∷ handle_any_of ∷ handle_one_of
    ∷ handle_if_then_else ∷ handle_property_names ∷ handle_format ∷ []

-- One turn of the loop: OP_END ends it, and an opcode that is not in the table is refused.
unfoldable pub handle : Vm → Bytes → Handled
handle vm [] = stop faulty
handle vm (zero ∷ pc) = stop valid
handle vm (suc o ∷ pc) = elim (get_elem? opcode_handlers o) [
  | none ↦ stop (invalid none)
  | some h ↦ h vm pc
]

-- `while (running)`
unfoldable pub run : Vm → ℕ → Bytes → Verdict
run vm zero pc = faulty
run vm (suc f) pc = elim (handle vm pc) [ stop v ↦ v | go_on rest ↦ run vm f rest ]

-- `BytecodeHeader`
pub record BytecodeHeader : Type 0 where
  pub magic : ℕ
  pub version : ℕ
  pub code_size : ℕ

abbrev pub uint32_at : ℕ → Bytes → ℕ
uint32_at i s = elim (read_uint32 (drop i s)) [ none ↦ 0 | some (v, _) ↦ v ]

unfoldable pub read_header : Bytes → BytecodeHeader
read_header s = record { magic = uint32_at 0 s; version = uint32_at 4 s; code_size = uint32_at 8 s }

-- sizeof(BytecodeHeader)
abbrev pub header_size : ℕ
header_size = 16

-- `state`
abbrev pub machine : CLibrary → List AstNode → Bytes → Validate → ℕ → Bytes → Vm
machine lib pool schema validate node path = record {
  lib = lib;
  pool = pool;
  constants = drop (header_size + (read_header schema).code_size) schema;
  node_idx = node;
  path = path;
  validate = validate;
}

-- The magic number is 0x4A535642.
abbrev pub is_expected : BytecodeHeader → Bool
is_expected header = (header.magic == 1246975554) && (header.version == 1)

-- The code at an offset, on a node.
unfoldable pub validate_bytecode : ℕ → CLibrary → List AstNode → Bytes → Validate
validate_bytecode zero lib pool schema offset node path = faulty
validate_bytecode (suc f) lib pool schema offset node path =
    if leb (length schema) offset
    then valid
    else if ltb (length schema) header_size
    then malformed
    else if (offset == header_size) && not (is_expected (read_header schema))
    then malformed
    else run (machine lib pool schema (validate_bytecode f lib pool schema) node path)
        (suc (length schema)) (drop offset schema)
