-- ===== src/Prescan/Estimates.antt =====
-- src/parser/prescan.c: the estimates stay within the source, and strings end where the lexer ends them.
use jsonv.Base.{
  ℕ, ◌+◌, ◌≤◌, ◌≡◌, false, some, [], ◌∷◌, drop, length, length-drop, arith, if◌then◌else◌,
}
use jsonv.Token.{Bytes}
use jsonv.Lexer.Cursor.{is_digit}
use jsonv.Prescan.{
  JsonEstimate, Scan, deeper, scan_string_byte, scan_byte, scan_step, scan_loop, no_estimate,
  has_bom, prescan,
}

-- All that an estimate counts.
abbrev pub total : JsonEstimate → ℕ
total e = e.value_count + e.object_count + e.array_count + e.string_bytes

-- The depth is that of brackets that were opened.
pub record IsEstimate (e : JsonEstimate) : Type 0 where
  pub current : e.cur_depth ≤ e.max_depth
  pub opened : e.max_depth ≤ e.object_count + e.array_count

-- One byte counts at most once.
scan_step-total :
    (c : ℕ) (s : Scan)
    → IsEstimate s.out
    → IsEstimate (scan_step c s).out × (total (scan_step c s).out ≤ total s.out + 1)
unfolding scan_step scan_string_byte scan_byte deeper is_digit
scan_step-total c s inv = ground (arith, inv.current, inv.opened)

scan_loop-total :
    (cs : Bytes) (s : Scan)
    → IsEstimate s.out
    → IsEstimate (scan_loop cs s).out × (total (scan_loop cs s).out ≤ total s.out + length cs)
unfolding scan_loop
scan_loop-total [] s inv = (inv, omega arith)
scan_loop-total (c ∷ cs) s inv =
    let (one, a) = scan_step-total c s inv in
    let (rest, b) = scan_loop-total cs (scan_step c s) one in (rest, omega (arith, a, b))

-- If prescan returns an estimate, its depth is at most the number of objects and arrays, and the
-- values, objects, arrays and bytes of strings that it counts are together at most the bytes of
-- the source.
pub prescan-total :
    (s : Bytes) {e : JsonEstimate} → prescan s ≡ some e → IsEstimate e × (total e ≤ length s)
unfolding prescan
prescan-total s {e} h =
    let body = if has_bom s then drop 3 s else s in
    let (inv, bound) =
      scan_loop-total body (record { in_string = false; escape = false; out = no_estimate })
        (omega arith) in
    let short : length body ≤ length s = ground (arith, length-drop 3 s) in
    ground (arith, inv.current, inv.opened, bound, short)
