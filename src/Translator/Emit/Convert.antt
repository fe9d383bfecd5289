-- ===== src/Translator/Emit/Convert.antt =====
-- oplt/stran/OPL16GEN.CPP: `ConvertPcodeL`, instruction by instruction, and RunL.
use opl_dev.Prelude.{
  ℕ, ◌+◌, ◌-◌, ◌/◌, ◌%◌, List, [], ◌∷◌, ◌++◌, ◌≡◌, refl, Bool, Option, none, some, length,
  get_elem?, ltb, ◌==◌, if◌then◌else◌,
}
use opl_dev.Prelude.Int.{to_bits}
use opl_dev.Prelude.Bytes.{bytes_of_word, long_bytes, put_word_at}
use opl_dev.Prelude.Outcome.{
  Outcome, ok, leave, panic, ◌>>=◌, bind_assoc, checked, error_found, converter_stack,
}
use opl_dev.Runtime.Arith.{bits_or}
use opl_dev.Translator.Token.{word, rank, type_of}
use opl_dev.Translator.Pcode.{Pcode, push_constant, cast, apply, unary, binary}
use opl_dev.Translator.Codegen.{
  Qcode, code, constant_int, constant_long, constant_float, constant_string, stack_byte_as_word,
  stack_byte_as_long, stack_word_as_long, qcode,
}
use opl_dev.Translator.Symbols.{SymbolClass}
use opl_dev.Translator.Emit.{
  Side, left_side, right_side, Reference, Branch, branch_false, branch_always, on_err, Instruction,
  statement, evaluate, identifier, field, proc_call_name, arg_list, proc_arg, other_arg, proc_call,
  opx_call, proc_by_name_call, function_call, drop, assign, command, typed_command,
  qualified_command, label, branch_to, field_name, end_field_list, vector, end_vector, vector_label,
  Converter, opcode, text_bytes, write, add_to_stack, add_side, side_bits, remove_from_stack,
  zero_stack, adjust_stack_for_call, set_label, refer_to_label, patch_labels,
}
use opl_dev.Translator.Emit.Tables.{qcode_table, function_table, proc_by_name_type_bytes}

-- `KOpl16ExternalReference`, for a symbol's class
abbrev pub external_bits : SymbolClass → ℕ
external_bits SymbolClass.external_ref = 8
external_bits SymbolClass.argument = 8
external_bits c = 0

-- The code of EIdentifier
abbrev pub identifier_code : Reference → ℕ
identifier_code r =
    let bits = bits_or 8 (side_bits r.side) (external_bits r.class) in
    bits_or 8 (if r.of_array then bits_or 8 bits 0x10 else bits) (rank r.type)

abbrev pub eval_code : Side → ℕ
eval_code right_side = 305
eval_code left_side = 306

-- `TGlobalType`
abbrev pub global_type : Reference → ℕ
global_type r = if r.of_array then bits_or 8 (rank r.type) 0x80 else rank r.type

-- `StatementQcodeL`: what it writes, and the code that it returns
unfoldable pub statement_qcode : ℕ → Outcome (List ℕ × ℕ)
statement_qcode number = do
  n ← checked (get_elem? qcode_table number)
  if n == 0xed then ok (opcode n, number - 20) else ok ([], n)

-- What a branch takes off the stack, and its opcode
abbrev pub branch_stack : Branch → Converter → Converter
branch_stack branch_false e = remove_from_stack word e
branch_stack k e = e

abbrev pub branch_code : Branch → ℕ
branch_code branch_false = 0x5b
branch_code branch_always = 0xbf
branch_code on_err = 0xb1

abbrev counted : Option ℕ → List ℕ
counted none = []
counted (some n) = n % 256 ∷ []

-- The depth of the stack behind an instruction of an expression, for which `qs` is put out: a cast
-- that puts out nothing leaves it.
unfoldable pub account : {R : Type 0} → Pcode R → List (Qcode R) → Converter → Converter
account (push_constant c) qs e = add_to_stack (type_of c) e
account (cast from to) [] e = e
account (cast from to) (q ∷ qs) e = add_to_stack to (remove_from_stack from e)
account (apply t r unary op) qs e = add_to_stack r (remove_from_stack t e)
account (apply t r binary op) qs e = add_to_stack r (remove_from_stack t (remove_from_stack t e))

-- iErrorPos as ConvertPcodeL sets it, for what the stream holds before: it is KOplNoErrorLocation,
-- or the count of bytes that are written when the place has been passed.
abbrev pub limit : ℕ → Converter → ℕ
limit error_pos e = if error_pos == 0x7fff_ffff then error_pos else error_pos + length e.stream

-- The members and variables that a run sets first
abbrev pub start_run : Converter → Converter
start_run e = record e {
  stack_depth = 0;
  max_stack_depth = 0;
  vector_base = 0;
  vector_patch_pos = 0;
  vector_labels_count = 0;
}

-- The patches of RunL, and the arrays that it resets
unfoldable pub finish : Converter → Converter
unfolding patch_labels
finish e = record e {
  stream = patch_labels e.labels e.address_of e.references e.stream;
  labels = [];
  stack_depths = [];
}

-- `real_bytes` is what the write stream writes of a floating-point number. Of the settings,
-- `debug` is aFlag==EDebug, `error_pos` is iErrorPos as ConvertPcodeL sets it, and `defined` are the labels whose symbol
-- IsDefined().
module _ {R : Type 0} (real_bytes : R → List ℕ) where
  unfoldable pub qcode_bytes : Qcode R → Outcome (List ℕ)
  unfolding text_bytes
  qcode_bytes (code n) = ok (opcode n)
  qcode_bytes (constant_int v) = ok (opcode 0x28 ++ bytes_of_word (to_bits 0x8000 v))
  qcode_bytes (constant_long v) = ok (opcode 0x29 ++ long_bytes (to_bits 0x8000_0000 v))
  qcode_bytes (constant_float x) = ok (opcode 0x2a ++ real_bytes x)
  qcode_bytes (constant_string t) = text_bytes t >>= λ bs. ok (opcode 0x2b ++ bs)
  qcode_bytes (stack_byte_as_word v) = ok (opcode 0x4f ++ to_bits 128 v ∷ [])
  qcode_bytes (stack_byte_as_long v) = ok (opcode 0x5f ++ to_bits 128 v ∷ [])
  qcode_bytes (stack_word_as_long v) = ok (opcode 0x63 ++ bytes_of_word (to_bits 0x8000 v))

  unfoldable pub qcodes_bytes : List (Qcode R) → Outcome (List ℕ)
  unfolding qcode_bytes
  qcodes_bytes [] = ok []
  qcodes_bytes (q ∷ qs) = do bs ← qcode_bytes q; rest ← qcodes_bytes qs; ok (bs ++ rest)

  -- The cases of EConstant, ECast and EOperator
  unfoldable pub evaluate_code : Pcode R → Converter → Outcome Converter
  unfolding account qcodes_bytes
  evaluate_code p e = do qs ← qcode p; bs ← qcodes_bytes qs; ok (write bs (account p qs e))

  module _ (debug : Bool) (error_pos : ℕ) (defined : List (List ℕ)) where
    -- The switch of ConvertPcodeL
    unfoldable pub convert_case : Instruction R → Converter → Outcome Converter
    unfolding evaluate_code text_bytes statement_qcode set_label refer_to_label
    convert_case (statement offset) e =
        if ltb 65535 offset
        then ok (write (opcode 281 ++ long_bytes offset) e)
        else ok (write (opcode 0x67 ++ bytes_of_word offset) e)
    convert_case (evaluate p) e = evaluate_code p e
    convert_case (identifier by_name r) e = do
      let e₁ = if r.of_array then remove_from_stack word e else e
      let e₂ = add_side r.side r.type e₁
      if by_name
          then (do
            name ← text_bytes r.name
            ok (write (opcode (eval_code r.side) ++ name ++ bytes_of_word (global_type r)) e₂))
          else ok (write (opcode (identifier_code r) ++ bytes_of_word r.address) e₂)
    convert_case (field side type name device) e = do
      text ← text_bytes name
      let n = bits_or 8 (bits_or 8 0x20 (side_bits side)) (rank type)
      ok (write (opcode 0x2b ++ text ++ opcode n ++ device % 256 ∷ []) (add_side side type e))
    convert_case proc_call_name e = ok e
    convert_case arg_list e = ok (record e { stack_depths = e.stack_depth ∷ e.stack_depths })
    convert_case (proc_arg type) e =
        ok (add_to_stack word (write (opcode 0x4f ++ rank type ∷ []) e))
    convert_case other_arg e = ok e
    convert_case (proc_call type addr) e =
        adjust_stack_for_call type e >>= λ e₁. ok (write (opcode 0x53 ++ bytes_of_word addr) e₁)
    convert_case (opx_call type addr) e = do
      e₁ ← adjust_stack_for_call type e
      ok (write (opcode 280 ++ addr / 65536 % 256 ∷ bytes_of_word addr) e₁)
    convert_case (proc_by_name_call type count) e = do
      e₁ ← adjust_stack_for_call type e
      byte ← checked (get_elem? proc_by_name_type_bytes (rank type))
      ok (write (opcode 0x6b ++ count % 256 ∷ byte ∷ []) e₁)
    convert_case (function_call type number count) e = do
      e₁ ← adjust_stack_for_call type e
      n ← checked (get_elem? function_table number)
      ok (write (opcode 0x57 ++ n ∷ counted count) e₁)
    convert_case (drop type) e =
        let e₁ = remove_from_stack type e in
        if e₁.stack_depth == 0
        then ok (write (opcode (bits_or 8 0x80 (rank type))) e₁)
        else panic converter_stack
    convert_case (assign type) e = ok (zero_stack (write (opcode (bits_or 8 0x84 (rank type))) e))
    convert_case (command number) e = do
      (bs, n) ← statement_qcode number
      ok (zero_stack (write (bs ++ opcode n) e))
    convert_case (typed_command number type) e = do
      (bs, n) ← statement_qcode number
      ok (zero_stack (write (bs ++ opcode (bits_or 9 n (rank type))) e))
    convert_case (qualified_command number qualifier) e = do
      (bs, n) ← statement_qcode number
      ok (zero_stack (write (bs ++ opcode n ++ qualifier % 256 ∷ []) e))
    convert_case (label name) e = ok (set_label name e)
    convert_case (branch_to k name) e =
        refer_to_label defined name (length e.stream)
          (write (opcode (branch_code k)) (branch_stack k e))
    convert_case (field_name type name) e = do
      text ← text_bytes name
      ok (write (rank type ∷ text) e)
    convert_case end_field_list e = ok (write (0xff ∷ []) e)
    convert_case vector e = ok (
        zero_stack (
          write (opcode 0xab ++ bytes_of_word 0xffff) (record e {
            vector_base = length e.stream;
            vector_patch_pos = length e.stream + 1;
            vector_labels_count = 0;
          })))
    convert_case (vector_label name) e = do
      e₁ ← refer_to_label defined name e.vector_base e
      ok (record e₁ { vector_labels_count = e₁.vector_labels_count + 1 })
    convert_case end_vector e =
        ok (record e { stream = put_word_at e.vector_patch_pos e.vector_labels_count e.stream })

    -- The test at the end of a round
    abbrev pub located : Converter → Outcome Converter
    located e = if ltb error_pos (length e.stream) then leave error_found else ok e

    -- A round of the loop: statements are passed over unless they are wanted.
    unfoldable pub convert_round : Instruction R → Converter → Outcome Converter
    unfolding convert_case
    convert_round (statement offset) e =
        if debug then convert_case (statement offset) e >>= located else ok e
    convert_round i e = convert_case i e >>= located

    -- `ConvertPcodeL`, up to the end of the parse code
    unfoldable pub convert_pcode : List (Instruction R) → Converter → Outcome Converter
    unfolding convert_round
    convert_pcode [] e = ok e
    convert_pcode (i ∷ is) e = convert_round i e >>= convert_pcode is

    pub convert_pcode-append :
        (is js : List (Instruction R)) (e : Converter)
        → convert_pcode (is ++ js) e ≡ (convert_pcode is e >>= convert_pcode js)
    unfolding convert_pcode
    convert_pcode-append [] js e = refl
    convert_pcode-append (i ∷ is) js e =
        bind_assoc (convert_round i e) (convert_pcode is) (convert_pcode js)
          (convert_pcode-append is js)

  -- `RunL`
  unfoldable pub run_l :
      Bool → ℕ → List (List ℕ) → List (Instruction R) → Converter → Outcome Converter
  unfolding convert_pcode finish
  run_l debug error_pos defined is e = do
    e₁ ← convert_pcode debug (limit error_pos e) defined is (start_run e)
    ok (finish e₁)
