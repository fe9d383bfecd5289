-- ===== src/Translator/Emit/Calls.antt =====
-- oplt/stran/OPL16GEN.CPP: the depth of the runtime's stack that the converter counts, over the code
-- of expressions and calls, with their references, and of a call whose value is dropped.
use opl_dev.Prelude.{
  ℕ, ◌+◌, ◌*◌, ◌^◌, ◌<◌, ◌≤◌, List, [], ◌∷◌, ◌≡◌, refl, Bool, true, false, Option, none, some,
  get_elem?, if◌then◌else◌,
}
use opl_dev.Prelude.Outcome.{Outcome}
use opl_dev.Translator.Token.{OplType, word, rank}
use opl_dev.Translator.Pcode.{Pcode}
use opl_dev.Translator.Expr.Typing.{check_instruction, pop_type, ◌then?◌}
use opl_dev.Translator.Emit.{
  Side, left_side, right_side, Converter, Instruction, statement, evaluate, identifier, field,
  proc_call_name, arg_list, proc_arg, other_arg, proc_call, opx_call, proc_by_name_call,
  function_call, drop,
}
use opl_dev.Translator.Emit.Tables.{function_table, proc_by_name_type_bytes}
use opl_dev.Translator.Emit.Depth.{sizes, max_of, Counts}

-- The types of the values on the stack, and those that were there at the calls whose arguments are
-- being put out, from the innermost.
abbrev pub Shape : Type 0
Shape = List OplType × List (List OplType)

abbrev after_call : OplType → List (List OplType) → Option Shape
after_call t [] = none
after_call t (ts ∷ saved) = some (t ∷ ts, saved)

abbrev read_of : Side → Bool → OplType → List OplType → List (List OplType) → Option Shape
read_of right_side true t ts saved = pop_type word ts then? λ ts'. some (t ∷ ts', saved)
read_of right_side false t ts saved = some (t ∷ ts, saved)
read_of left_side array t ts saved = none

abbrev has_some : Option ℕ → Bool
has_some none = false
has_some (some n) = true

abbrev only_empty : List (List OplType) → List OplType → Option Shape
only_empty saved [] = some ([], saved)
only_empty saved (t ∷ ts) = none

-- What an instruction of an expression or a call makes of the stack, from the runtime's side: an
-- element takes its index, a call takes its arguments, and a value that is dropped is the only one.
unfoldable pub check_code : {R : Type 0} → Instruction R → Shape → Option Shape
check_code (statement offset) (ts, saved) = some (ts, saved)
check_code (evaluate p) (ts, saved) = check_instruction p ts then? λ ts'. some (ts', saved)
check_code (identifier by_name r) (ts, saved) = read_of r.side r.of_array r.type ts saved
check_code (field side t name device) (ts, saved) = read_of side false t ts saved
check_code proc_call_name (ts, saved) = some (ts, saved)
check_code arg_list (ts, saved) = some (ts, ts ∷ saved)
check_code (proc_arg t) (ts, saved) = some (word ∷ ts, saved)
check_code other_arg (ts, saved) = some (ts, saved)
check_code (proc_call t addr) (ts, saved) = after_call t saved
check_code (opx_call t addr) (ts, saved) = after_call t saved
check_code (proc_by_name_call t count) (ts, saved) =
    if has_some (get_elem? proc_by_name_type_bytes (rank t)) then after_call t saved else none
check_code (function_call t number count) (ts, saved) =
    if has_some (get_elem? function_table number) then after_call t saved else none
check_code (drop t) (ts, saved) = pop_type t ts then? only_empty saved
check_code i s = none

unfoldable pub check_codes : {R : Type 0} → List (Instruction R) → Shape → Option Shape
unfolding check_code
check_codes [] s = some s
check_codes (i ∷ is) s = check_code i s then? check_codes is

abbrev on_shape : Option Shape → ℕ → (Shape → ℕ) → ℕ
on_shape none m next = m
on_shape (some s) m next = next s

-- The greatest of `m` and the sizes of the stack behind each instruction
unfoldable pub peak_of : {R : Type 0} → List (Instruction R) → Shape → ℕ → ℕ
unfolding check_code
peak_of [] s m = m
peak_of (i ∷ is) s m = on_shape (check_code i s) m λ s'. peak_of is s' (max_of m (sizes s'.0))

abbrev pub all_sizes : List (List OplType) → List ℕ
all_sizes [] = []
all_sizes (ts ∷ saved) = sizes ts ∷ all_sizes saved

-- The depth, the greatest depth and the depths at the calls are those of the types.
abbrev pub CountsShape : Shape → ℕ → Converter → Type 0
CountsShape s m e = Counts s.0 m e × (e.stack_depths ≡ all_sizes s.1)

-- There is room in 32 bits for `n` more instructions.
abbrev pub AllRoom : ℕ → List (List OplType) → Type 0
AllRoom n [] = Unit
AllRoom n (ts ∷ saved) = (sizes ts + 8 * n < 2 ^ 32) × AllRoom n saved

abbrev pub Room : ℕ → Shape → ℕ → Type 0
Room n s m = (sizes s.0 ≤ m) × (sizes s.0 + 8 * n < 2 ^ 32) × AllRoom n s.1

-- The invariant of the loop
abbrev Goes : ℕ → Shape → ℕ → Converter → Type 0
Goes n s m e = CountsShape s (max_of m (sizes s.0)) e × Room n s (max_of m (sizes s.0))

pub guarded :
    (b : Bool) (o : Option Shape) (s : Shape)
    → (if b then o else none) ≡ some s
    → (b ≡ true) × (o ≡ some s)
guarded true o s h = (refl, h)
guarded false o s h = cc
