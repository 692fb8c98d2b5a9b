-- ===== src/Validate/Handlers.antt =====
-- src/validation/validate_opcodes.c: one handler for each opcode. A handler gets the bytes behind the opcode
-- and ends the validation or goes on behind its operands. `validate` runs the code at an offset on a node, with
-- its own error. An error is its type and path; the description is not modelled. The arena has memory: where
-- it has not, arena_alloc raises.
use jsonv.Base.{
  ℕ, ◌+◌, ◌-◌, ◌^◌, Bool, true, false, not, ◌&&◌, ◌||◌, Option, none, some, List, ◌==◌, leb, ltb,
  take, bit_and, if◌then◌else◌,
}
use jsonv.Token.{Bytes, Token, text}
use jsonv.Ast.{AstNode, node_at}
use jsonv.Validate.{
  read_uint32, read_double, k_null, k_true, k_false, k_number, k_string, k_array, k_object, k_other,
  kind, CLibrary,
}

-- The members of Jsonv_Except_Type that a validation sets.
pub data ErrorType : Type 0 where
  maximum_error minimum_error multiple_of_error exclusive_maximum_error exclusive_minimum_error :
      ErrorType
  max_length_error min_length_error pattern_error : ErrorType
  type_error additional_properties_error min_properties_error max_properties_error : ErrorType
  min_items_error required_error unique_items_error contains_error not_error : ErrorType
  all_of_error any_of_error one_of_error format_error : ErrorType
  value_not_allowed_error compile_regexp_failed : ErrorType

-- How a validation ends; `invalid none` leaves out_err as it is, and `malformed` sets no path there.
pub data Verdict : Type 0 where
  valid faulty malformed : Verdict
  invalid : Option (ErrorType × Bytes) → Verdict

pub data Handled : Type 0 where
  stop : Verdict → Handled
  go_on : Bytes → Handled

abbrev pub Validate : Type 0
Validate = ℕ → ℕ → Bytes → Verdict

-- `VMState`, with the constant pool, and what the handlers call.
pub record Vm : Type 0 where
  pub lib : CLibrary
  pub pool : List AstNode
  pub constants : Bytes
  pub node_idx : ℕ
  pub path : Bytes
  pub validate : Validate

abbrev pub refuse : ErrorType → Vm → Handled
refuse e vm = stop (invalid (some (e, vm.path)))

-- Operands, one after another.
abbrev pub with_uint32 : Bytes → (ℕ → Bytes → Handled) → Handled
with_uint32 pc k = elim (read_uint32 pc) [ none ↦ stop faulty | some (v, rest) ↦ k v rest ]

abbrev pub with_double : Bytes → (ℕ → Bytes → Handled) → Handled
with_double pc k = elim (read_double pc) [ none ↦ stop faulty | some (v, rest) ↦ k v rest ]

abbrev pub require : ErrorType → Bool → Vm → Bytes → Handled
require e ok vm rest = if ok then go_on rest else refuse e vm

abbrev pub this_node : Vm → AstNode
this_node vm = node_at vm.pool vm.node_idx

-- A verdict on a part ends the validation unless it is valid.
abbrev pub and_then : Verdict → Handled → Handled
and_then valid k = k
and_then v k = stop v

unfoldable pub handle_fail : Vm → Bytes → Handled
handle_fail vm pc = refuse value_not_allowed_error vm

abbrev pub has_bit : ℕ → ℕ → Bool
has_bit mask bit = not (bit_and mask bit == 0)

-- token_get_double: strtod of up to 127 bytes
abbrev pub token_get_double : CLibrary → Token → ℕ
token_get_double lib t = lib.strtod (take 127 (text t))

unfoldable pub matches_type : CLibrary → ℕ → AstNode → Bool
matches_type lib mask n = elim (kind n) [
  | k_object ↦ has_bit mask 32
  | k_array ↦ has_bit mask 16
  | k_null ↦ has_bit mask 1
  | k_true ↦ has_bit mask 2
  | k_false ↦ has_bit mask 2
  | k_number ↦ has_bit mask 4 || has_bit mask 64 && lib.is_integral (token_get_double lib n.token)
  | k_string ↦ has_bit mask 8
  | k_other ↦ false
]

unfoldable pub handle_type : Vm → Bytes → Handled
handle_type vm pc =
    with_uint32 pc (λ mask. require type_error (matches_type vm.lib mask (this_node vm)) vm)

-- A bound on numbers: `test bound value` says that the value is kept.
unfoldable pub keeps_bound : CLibrary → (ℕ → ℕ → Bool) → ℕ → AstNode → Bool
keeps_bound lib test bound n = elim (kind n) [
  | k_number ↦ test bound (token_get_double lib n.token)
  | _ ↦ true
]

abbrev pub handle_bound : ErrorType → (ℕ → ℕ → Bool) → Vm → Bytes → Handled
handle_bound e test vm pc =
    with_double pc (λ bound. require e (keeps_bound vm.lib test bound (this_node vm)) vm)

unfoldable pub handle_minimum : Vm → Bytes → Handled
handle_minimum vm = handle_bound minimum_error (λ min num. not (vm.lib.less num min)) vm

unfoldable pub handle_maximum : Vm → Bytes → Handled
handle_maximum vm = handle_bound maximum_error (λ max num. not (vm.lib.less max num)) vm

unfoldable pub handle_exclusive_minimum : Vm → Bytes → Handled
handle_exclusive_minimum vm =
    handle_bound exclusive_minimum_error
      (λ min num. not (vm.lib.less num min || vm.lib.equal num min)) vm

unfoldable pub handle_exclusive_maximum : Vm → Bytes → Handled
handle_exclusive_maximum vm =
    handle_bound exclusive_maximum_error
      (λ max num. not (vm.lib.less max num || vm.lib.equal num max)) vm

-- 0.5, -0.5 and 1e-9
abbrev half : ℕ
half = 4602678819172646912

abbrev minus_half : ℕ
minus_half = 13826050856027422720

abbrev tolerance : ℕ
tolerance = 4472406533629990549

-- The quotient is at most the tolerance away from the integer next to it.
unfoldable pub is_multiple : CLibrary → ℕ → ℕ → Bool
is_multiple lib num mult_val =
    let quot = lib.divide num mult_val in
    let nearest = lib.truncate (lib.add quot (if lib.less 0 quot then half else minus_half)) in
    let diff = lib.subtract quot nearest in
    not (lib.less tolerance (if lib.less diff 0 then lib.negate diff else diff))

unfoldable pub handle_multiple_of : Vm → Bytes → Handled
handle_multiple_of vm = handle_bound multiple_of_error (λ m num. is_multiple vm.lib num m) vm

-- `(size_t)` of an int32_t, and the comparisons of an int with one.
abbrev pub size_of_int32 : ℕ → ℕ
size_of_int32 w = if ltb w (2 ^ 31) then w else w + (2 ^ 64 - 2 ^ 32)

abbrev pub below_int32 : ℕ → ℕ → Bool
below_int32 count w = ltb w (2 ^ 31) && ltb count w

abbrev pub above_int32 : ℕ → ℕ → Bool
above_int32 count w = leb (2 ^ 31) w || ltb w count

unfoldable pub keeps_length : (ℕ → Bool) → AstNode → Bool
keeps_length test n = elim (kind n) [ k_string ↦ test n.token.len | _ ↦ true ]

unfoldable pub handle_min_length : Vm → Bytes → Handled
handle_min_length vm pc = with_uint32 pc (λ w.
    require min_length_error (keeps_length (λ len. leb (size_of_int32 w) len) (this_node vm)) vm)

unfoldable pub handle_max_length : Vm → Bytes → Handled
handle_max_length vm pc = with_uint32 pc (λ w.
    require max_length_error (keeps_length (λ len. leb len (size_of_int32 w)) (this_node vm)) vm)
