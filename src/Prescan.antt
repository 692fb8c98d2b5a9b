-- ===== src/Prescan.antt =====
-- src/parser/prescan.c and prescan.h: the pass over the source that estimates what parsing it takes.
-- A byte is a number below 256.
pub mod Estimates
pub mod Strings
use jsonv.Base.{
  ℕ, zero, suc, ◌+◌, ◌-◌, Bool, true, false, ◌&&◌, ◌||◌, Option, none, some, List, [], ◌∷◌, ◌==◌,
  ltb, drop, get_or, length, if◌then◌else◌,
}
use jsonv.Token.{Bytes}
use jsonv.Lexer.Cursor.{is_digit, longer}

-- `JsonEstimate`
pub record JsonEstimate : Type 0 where
  pub max_depth : ℕ
  pub cur_depth : ℕ
  pub value_count : ℕ
  pub object_count : ℕ
  pub array_count : ℕ
  pub string_bytes : ℕ

-- The locals of the loop and `*out`.
pub record Scan : Type 0 where
  pub in_string : Bool
  pub escape : Bool
  pub out : JsonEstimate

abbrev pub one_value : JsonEstimate → JsonEstimate
one_value e = record e { value_count = e.value_count + 1 }

abbrev pub one_byte : JsonEstimate → JsonEstimate
one_byte e = record e { string_bytes = e.string_bytes + 1 }

-- `cur_depth++`, with `max_depth` kept above it.
unfoldable pub deeper : JsonEstimate → JsonEstimate
deeper e =
    let d = e.cur_depth + 1 in
    record e { cur_depth = d; max_depth = if ltb e.max_depth d then d else e.max_depth }

-- The branch `if (in_string)`.
unfoldable pub scan_string_byte : ℕ → Scan → Scan
scan_string_byte c s =
    if s.escape
    then record s { escape = false; out = one_byte s.out }
    else if c == b'\\'
    then record s { escape = true }
    else if c == b'"'
    then record s { in_string = false; out = one_value s.out }
    else record s { out = one_byte s.out }

abbrev pub starts_value : ℕ → Bool
starts_value c = c == b't' || c == b'f' || c == b'n' || c == b'-' || is_digit c

-- The switch.
unfoldable pub scan_byte : ℕ → Scan → Scan
scan_byte c s =
    if c == b'"'
    then record s { in_string = true }
    else if c == b'{'
    then record s { out = deeper (record s.out { object_count = s.out.object_count + 1 }) }
    else if c == b'['
    then record s { out = deeper (record s.out { array_count = s.out.array_count + 1 }) }
    else if c == b'}' || c == b']'
    then record s { out = record s.out { cur_depth = s.out.cur_depth - 1 } }
    else if starts_value c
    then record s { out = one_value s.out }
    else s

unfoldable pub scan_step : ℕ → Scan → Scan
scan_step c s = if s.in_string then scan_string_byte c s else scan_byte c s

unfoldable pub scan_loop : Bytes → Scan → Scan
scan_loop [] s = s
scan_loop (c ∷ cs) s = scan_loop cs (scan_step c s)

abbrev pub no_estimate : JsonEstimate
no_estimate = record {
  max_depth = 0;
  cur_depth = 0;
  value_count = 0;
  object_count = 0;
  array_count = 0;
  string_bytes = 0;
}

-- `len >= 3` and a byte order mark in front
unfoldable pub has_bom : Bytes → Bool
has_bom s = longer 2 s && get_or s 0 0 == 0xEF && get_or s 1 0 == 0xBB && get_or s 2 0 == 0xBF

-- The estimate, or none where MALFORMED_JSON is raised.
unfoldable pub prescan : Bytes → Option JsonEstimate
prescan s =
    if ltb 0xFFFFFFFF (length s)
    then none
    else let body = if has_bom s then drop 3 s else s in
      let end = scan_loop body (record { in_string = false; escape = false; out = no_estimate }) in
      if end.in_string then none else some end.out
