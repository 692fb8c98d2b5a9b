-- ===== src/Validate/Fuel.antt =====
-- validate_bytecode of src/validation/validate.c: its verdict does not depend on the fuel, which the model has for
-- the rules that a rule calls.
use jsonv.Base.{suc, not, ◌&&◌, List, length, ◌==◌, if◌then◌else◌, ltb, leb, drop}
use jsonv.Token.{Bytes}
use jsonv.Ast.{AstNode}
use jsonv.Validate.{CLibrary}
use jsonv.Validate.Handlers.{valid, malformed, Validate}
use jsonv.Validate.Machine.{run, machine, is_expected, header_size, read_header}
use jsonv.Validate.Below.{Below}

-- One call, with verdicts for the rules.
abbrev call : CLibrary → List AstNode → Bytes → Validate → Validate
call lib pool schema v offset node path =
    if leb (length schema) offset
    then valid
    else if ltb (length schema) header_size
    then malformed
    else if (offset == header_size) && not (is_expected (read_header schema))
    then malformed
    else run (machine lib pool schema v node path) (suc (length schema)) (drop offset schema)
