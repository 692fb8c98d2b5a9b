-- ===== src/Validate/Ends.antt =====
-- The loop of validate_bytecode in src/validation/validate.c ends: an opcode is a byte, and no handler moves the
-- program counter back.
use mathlib.Core.Path.{subst}
use jsonv.Base.{
  ℕ, zero, suc, ◌≤◌, ◌<◌, true, false, not, none, some, List, [], ◌∷◌, ◌≡◌, refl, arith, length,
  drop, get_elem?, ◌==◌, inl, inr, length-drop, ◌⊎◌, Bool-cases, ◌≢◌, ◌↔◌, ◌&&◌, ◌∙◌, sym, leb, ltb,
}
use jsonv.Token.{Bytes}
use jsonv.Ast.{AstNode}
use jsonv.Validate.{CLibrary}
use jsonv.Validate.Handlers.{invalid, Verdict, Handled, stop, go_on, Vm, handle_fail}
use jsonv.Validate.Machine.{opcode_handlers, handle, run}
use jsonv.Validate.Within.{Within, Within}
use jsonv.Validate.Advances.{Advances}
use jsonv.Validate.Forward.{
  advance_tests, advance_bounds, advance_arrays, handle_unique_items-Advances, advance_objects,
  handle_format-Advances, handle_pattern-Advances, handle_not-Advances,
  handle_if_then_else-Advances, advance_applicators,
}
use jsonv.Validate.Machine.{machine, is_expected, validate_bytecode, read_header, header_size}
use jsonv.Validate.Tables.{handle_required-Advances, handle_properties-Advances}

-- Every handler of a list, and the one at an index.
data Every : List (Vm → Bytes → Handled) → Type 0 where
  no_more : Every []
  one_more :
      (h : Vm → Bytes → Handled)
      → (hs : List (Vm → Bytes → Handled)) → Advances h
      → Every hs
      → Every (h ∷ hs)

Every-Within :
    (hs : List (Vm → Bytes → Handled))
    → Every hs
    → (o : ℕ) → (vm : Vm) → (pc : Bytes)
    → Within (length pc) (elim (get_elem? hs o) [ none ↦ stop (invalid none) | some h ↦ h vm pc ])
Every-Within _ no_more o vm pc = tt
Every-Within _ (one_more h hs a r) zero vm pc = a vm pc
Every-Within _ (one_more h hs a r) (suc o) vm pc = Every-Within hs r o vm pc

Every-opcode_handlers : Every opcode_handlers
unfolding handle_fail
Every-opcode_handlers =
    let (t, lo, hi) = advance_tests in
    let (min, max, above, below, times) = advance_bounds in
    let (min_items, max_items, items, contains) = advance_arrays in
    let (min_props, max_props, names) = advance_objects in
    let (all, any, one) = advance_applicators in
    one_more _ _ (λ vm pc. tt)
      (one_more _ _ t (
        one_more _ _ min (
          one_more _ _ max (
            one_more _ _ lo (
              one_more _ _ hi (
                one_more _ _ min_items (
                  one_more _ _ max_items (
                    one_more _ _ items (
                      one_more _ _ handle_required-Advances (
                        one_more _ _ handle_properties-Advances (
                          one_more _ _ times (
                            one_more _ _ above (
                              one_more _ _ below (
                                one_more _ _ handle_pattern-Advances (
                                  one_more _ _ min_props (
                                    one_more _ _ max_props (
                                      one_more _ _ handle_unique_items-Advances (
                                        one_more _ _ contains (
                                          one_more _ _ handle_not-Advances (
                                            one_more _ _ all (
                                              one_more _ _ any (
                                                one_more _ _ one (
                                                  one_more _ _ handle_if_then_else-Advances (
                                                    one_more _ _ names (
                                                      one_more _ _ handle_format-Advances
                                                        no_more)))))))))))))))))))))))))

Within-go_on :
    (n : ℕ) → (h : Handled) → (rest : Bytes) → Within n h → h ≡ go_on rest → length rest ≤ n
Within-go_on n (stop v) rest w e = absurd (ground arith)
Within-go_on n (go_on r) rest w e = ground arith

handle-forward : (vm : Vm) → (pc rest : Bytes) → handle vm pc ≡ go_on rest → length rest < length pc
unfolding handle
handle-forward vm [] rest e = absurd (ground arith)
handle-forward vm (zero ∷ pc) rest e = absurd (ground arith)
handle-forward vm (suc o ∷ pc) rest e =
    let l =
      Within-go_on (length pc) (handle vm (suc o ∷ pc)) rest
        (Every-Within opcode_handlers Every-opcode_handlers o vm pc) e in
    omega arith

-- The loop without fuel: from a place in the code to a verdict.
pub data Runs (vm : Vm) : Bytes → Verdict → Type 0 where
  ends : (pc : Bytes) → (v : Verdict) → handle vm pc ≡ stop v → Runs vm pc v
  turns :
      (pc rest : Bytes) → (v : Verdict) → handle vm pc ≡ go_on rest → Runs vm rest v → Runs vm pc v

Handled-cases : (h : Handled) → ((v : Verdict) × (h ≡ stop v)) ⊎ ((rest : Bytes) × (h ≡ go_on rest))
Handled-cases (stop v) = inl (v, refl)
Handled-cases (go_on rest) = inr (rest, refl)

run-Runs : (vm : Vm) → (f : ℕ) → (pc : Bytes) → length pc < f → Runs vm pc (run vm f pc)
unfolding run
run-Runs vm zero pc l = absurd (omega arith)
run-Runs vm (suc f) pc l = elim (Handled-cases (handle vm pc)) [
  | inl (v, e) ↦ rw (run, e) (ends pc v e)
  | inr (rest, e) ↦
      let s = handle-forward vm pc rest e in
      rw (run, e) (turns pc rest (run vm f rest) e (run-Runs vm f rest (omega arith)))
]

Runs-run :
    (vm : Vm)
    → (pc : Bytes) → (v : Verdict) → Runs vm pc v
    → (f : ℕ) → length pc < f
    → run vm f pc ≡ v
unfolding run
Runs-run vm pc v r zero l = absurd (omega arith)
Runs-run vm _ _ (ends pc v e) (suc f) l = rw (run, e)
Runs-run vm _ _ (turns pc rest v e r) (suc f) l =
    let s = handle-forward vm pc rest e in rw (run, e) (Runs-run vm rest v r f (omega arith))

-- Past the checks of the offset and the header.
validate_bytecode-run :
    (f : ℕ)
    → (lib : CLibrary) → (pool : List AstNode) → (schema : Bytes) → (offset node : ℕ)
    → (path : Bytes) → offset < length schema
    → header_size ≤ length schema
    → (offset ≢ header_size) ⊎ (is_expected (read_header schema) ≡ true)
    → validate_bytecode (suc f) lib pool schema offset node path
      ≡ run
          (machine lib pool schema (validate_bytecode f lib pool schema) node path)
          (suc (length schema))
          (drop offset schema)
unfolding validate_bytecode
validate_bytecode-run f lib pool schema offset node path lo hi good =
    let a : leb (length schema) offset ≡ false = ground arith in
    let b : ltb (length schema) header_size ≡ false = ground arith in
    let c : ((offset == header_size) && not (is_expected (read_header schema))) ≡ false =
      elim good [
        | inl away ↦ let d : (offset == header_size) ≡ false = ground arith in rw d
        | inr ok ↦ elim (Bool-cases (offset == header_size)) [ inl t ↦ rw (t, ok) | inr t ↦ rw t ]
      ] in
    rw (validate_bytecode, a, b, c)

-- Past its checks validate_bytecode is that loop, with validate_bytecode on the fuel that is left for the rules.
pub validate_bytecode-Runs :
    (f : ℕ)
    → (lib : CLibrary) → (pool : List AstNode) → (schema : Bytes) → (offset node : ℕ)
    → (path : Bytes) → (v : Verdict) → offset < length schema
    → header_size ≤ length schema
    → (offset ≢ header_size) ⊎ (is_expected (read_header schema) ≡ true)
    → Runs
        (machine lib pool schema (validate_bytecode f lib pool schema) node path)
        (drop offset schema)
        v
      ↔ (validate_bytecode (suc f) lib pool schema offset node path ≡ v)
validate_bytecode-Runs f lib pool schema offset node path v lo hi good =
    let vm = machine lib pool schema (validate_bytecode f lib pool schema) node path in
    let e = validate_bytecode-run f lib pool schema offset node path lo hi good in
    let l : length (drop offset schema) < suc (length schema) =
      omega (arith, length-drop offset schema) in
    (
      (λ r. e ∙ Runs-run vm (drop offset schema) v r (suc (length schema)) l),
      (λ h.
          subst (λ w. Runs vm (drop offset schema) w) (sym e ∙ h)
            (run-Runs vm (suc (length schema)) (drop offset schema) l)),
    )
