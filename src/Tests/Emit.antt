-- ===== src/Tests/Emit.antt =====
-- Samples for oplt/stran/OPL16GEN.CPP: a loop, and a call whose value is dropped.
use opl_dev.Prelude.{ℕ, List, [], ◌∷◌, ◌++◌, ◌≡◌, refl, false, some, get_elem?, arith}
use opl_dev.Prelude.Int.{pos}
use opl_dev.Prelude.Outcome.{Outcome, ok}
use opl_dev.Translator.Token.{word, long, Operator, word_value, long_value}
use opl_dev.Translator.Pcode.{push_constant, cast, apply, binary}
use opl_dev.Translator.Expr.Typing.{check_instruction, signature, pop_type}
use opl_dev.Translator.Codegen.{qcode}
use opl_dev.Translator.Emit.{
  Converter, Instruction, command, label, branch_to, branch_false, evaluate, arg_list, identifier,
  proc_arg, proc_call, drop, Reference, right_side,
}
use opl_dev.Translator.Emit.Convert.{branch_code, start_run, limit, convert_pcode, run_l}
use opl_dev.Translator.Emit.Calls.{check_code, peak_of}
use opl_dev.Translator.Symbols.{SymbolClass}
use opl_dev.Runtime.Control.{do_goto}
use opl_dev.Runtime.Control.Lands.{run_l-lands}

abbrev no_bytes : ℕ → List ℕ
no_bytes x = []

abbrev loop_name : List ℕ
loop_name = 0x4c ∷ []

-- Two bytes are in the stream.
abbrev new_converter : Converter
new_converter = record {
  stream = 7 ∷ 7 ∷ [];
  stack_depth = 0;
  max_stack_depth = 0;
  stack_depths = [];
  labels = [];
  address_of = λ n. 0;
  references = [];
  vector_base = 0;
  vector_patch_pos = 0;
  vector_labels_count = 0;
}

-- The label, the code of BEEP, a number, and the branch back
abbrev body : List (Instruction ℕ)
body = command 4 ∷ evaluate (push_constant (word_value (pos 0))) ∷ []

abbrev up_to_branch : List (Instruction ℕ)
up_to_branch = label loop_name ∷ body

abbrev sample_loop : List (Instruction ℕ)
sample_loop = up_to_branch ++ branch_to branch_false (some loop_name) ∷ []

abbrev returned : Outcome Converter → Converter
returned (ok e) = e
returned o = new_converter

abbrev converted : List (Instruction ℕ) → Outcome Converter
converted is =
    convert_pcode no_bytes false (limit 0x7fff_ffff new_converter) (loop_name ∷ []) is
      (start_run new_converter)

abbrev sample_run : Outcome Converter
sample_run = run_l no_bytes false 0x7fff_ffff (loop_name ∷ []) sample_loop new_converter

abbrev at_branch : Converter
at_branch = returned (converted up_to_branch)

sample_branch : converted up_to_branch ≡ ok at_branch
unfolding convert_pcode qcode
sample_branch = refl

sample_label : converted [] ≡ ok (start_run new_converter)
unfolding convert_pcode
sample_label = refl

sample_returns : sample_run ≡ ok (returned sample_run)
unfolding run_l qcode
sample_returns = refl

run_l-lands_example :
    (get_elem? (returned sample_run).stream 5 ≡ some (branch_code branch_false))
    × (do_goto (returned sample_run).stream 6 ≡ ok (pos 2))
unfolding convert_pcode qcode
run_l-lands_example =
    run_l-lands no_bytes false 0x7fff_ffff (loop_name ∷ []) branch_false loop_name up_to_branch []
      [] (body ++ branch_to branch_false (some loop_name) ∷ []) sample_loop new_converter at_branch
      (start_run new_converter) (returned sample_run) refl refl
      ((λ h. h), ((λ h. h), ((λ h. h), tt))) (omega arith) refl sample_branch sample_label
      sample_returns (omega arith) (omega arith) (omega arith)

-- A word variable
abbrev x_reference : Reference
x_reference = record {
  side = right_side;
  of_array = false;
  type = word;
  class = SymbolClass.local;
  address = 40;
  name = 88 ∷ [];
}

-- P&:(x%,5+70000&), whose value is dropped
abbrev call_code : List (Instruction ℕ)
call_code =
    arg_list
    ∷ identifier false x_reference
    ∷ proc_arg word
    ∷ evaluate (push_constant (word_value (pos 5)))
    ∷ evaluate (cast word long)
    ∷ evaluate (push_constant (long_value (pos 70000)))
    ∷ evaluate (apply long long binary Operator.plus)
    ∷ proc_arg long
    ∷ proc_call long 12
    ∷ drop long
    ∷ []

-- A word with the word for its type, and two longs
call_peak : peak_of call_code ([], []) 0 ≡ 12
unfolding peak_of check_code check_instruction signature pop_type
call_peak = refl
