-- ===== src/Translator/Emit.antt =====
-- oplt/stran/OPL16GEN.CPP, COpl16PcodeConverter: the parse code of a procedure becomes qcode. The
-- stream of qcode is the list of its bytes. A label's symbol is found by its name, which stands
-- for it.
pub mod Tables
pub mod Convert
pub mod Depth
pub mod Calls
pub mod Patches
pub mod Kept
pub mod Addresses
use opl_dev.Prelude.{
  ℕ, ◌+◌, ◌-◌, ◌*◌, ◌/◌, ◌%◌, ◌^◌, List, [], ◌∷◌, ◌++◌, Bool, true, false, Option, none, some,
  length, get_elem?, ltb, ◌==◌, if◌then◌else◌,
}
use opl_dev.Prelude.Int.{ℤ, to_bits}
use opl_dev.Prelude.Bytes.{bytes_of_word, long_bytes, put_word_at}
use opl_dev.Prelude.Outcome.{Outcome, ok, leave, ◌>>=◌, checked, bad_string_length, missing_label}
use opl_dev.Translator.Token.{OplType, word, long, real, string, u_word, rank}
use opl_dev.Translator.Pcode.{Pcode, push_constant, cast, apply, Arity, unary, binary}
use opl_dev.Translator.Token.{type_of}
use opl_dev.Translator.Codegen.{
  Qcode, code, constant_int, constant_long, constant_float, constant_string, stack_byte_as_word,
  stack_byte_as_long, stack_word_as_long, qcode,
}
use opl_dev.Translator.Structure.{is_among}
use opl_dev.Translator.Symbols.{SymbolClass}
use opl_dev.Runtime.Globals.{same_name}

-- `TPcode::TIdentifierSide`
pub data Side : Type 0 where
  left_side right_side : Side

-- What the converter reads of a referenced symbol; `of_array` says that its Token() is EArray.
pub record Reference : Type 0 where
  pub side : Side
  pub of_array : Bool
  pub type : OplType
  pub class : SymbolClass
  pub address : ℕ
  pub name : List ℕ

-- `EBranchFalse`, EBranchAlways and EOnErr
pub data Branch : Type 0 where
  branch_false branch_always on_err : Branch

-- The instructions of a procedure's parse code, by their `TPcode::TCode`, with what follows each
-- in the stream. A branch's label may be none (NULL), at ONERR OFF.
pub data Instruction (R : Type 0) : Type 0 where
  statement : ℕ → Instruction R
  evaluate : Pcode R → Instruction R
  identifier : Bool → Reference → Instruction R
  field : Side → OplType → List ℕ → ℕ → Instruction R
  proc_call_name arg_list : Instruction R
  proc_arg : OplType → Instruction R
  other_arg : Instruction R
  proc_call opx_call : OplType → ℕ → Instruction R
  proc_by_name_call : OplType → ℕ → Instruction R
  function_call : OplType → ℕ → Option ℕ → Instruction R
  drop assign : OplType → Instruction R
  command : ℕ → Instruction R
  typed_command : ℕ → OplType → Instruction R
  qualified_command : ℕ → ℕ → Instruction R
  label : List ℕ → Instruction R
  branch_to : Branch → Option (List ℕ) → Instruction R
  field_name : OplType → List ℕ → Instruction R
  end_field_list vector end_vector : Instruction R
  vector_label : Option (List ℕ) → Instruction R

-- `TLabelReference`, with the label that it is a reference to
pub record LabelReference : Type 0 where
  pub to_label : List ℕ
  pub position : ℕ
  pub base : ℕ

-- `COpl16PcodeConverter` with its stream and ConvertPcodeL's variables. `labels` is iLabels, from
-- the last; `address_of` is the symbols' Address(); `references` are those of all the labels, from
-- the last.
pub record Converter : Type 0 where
  pub stream : List ℕ
  pub stack_depth : ℕ
  pub max_stack_depth : ℕ
  pub stack_depths : List ℕ
  pub labels : List (List ℕ)
  pub address_of : List ℕ → ℕ
  pub references : List LabelReference
  pub vector_base : ℕ
  pub vector_patch_pos : ℕ
  pub vector_labels_count : ℕ

-- `TQcode16::ExternalizeL`
abbrev pub opcode : ℕ → List ℕ
opcode n = if n / 256 % 2 == 1 then 0xff ∷ n % 256 ∷ [] else n % 256 ∷ []

abbrev text_units : List ℕ → List ℕ
text_units [] = []
text_units (c ∷ cs) = c % 256 ∷ c / 256 % 256 ∷ text_units cs

-- `TLbc::ExternalizeL`
unfoldable pub text_bytes : List ℕ → Outcome (List ℕ)
text_bytes t =
    if ltb 255 (length t)
    then leave bad_string_length
    else ok (bytes_of_word (length t) ++ text_units t)

abbrev pub write : List ℕ → Converter → Converter
write bs e = record e { stream = e.stream ++ bs }

-- `SizeOnStack`
abbrev pub size_on_stack : OplType → ℕ
size_on_stack word = 2
size_on_stack long = 4
size_on_stack real = 8
size_on_stack string = 0
size_on_stack u_word = 2

-- `AddToStackL(TUint)` and AddToStackL(TType), over a TUint
abbrev pub add_bytes : ℕ → Converter → Converter
add_bytes n e =
    let depth = (e.stack_depth + n) % 2 ^ 32 in
    record e {
      stack_depth = depth;
      max_stack_depth = if ltb e.max_stack_depth depth then depth else e.max_stack_depth;
    }

abbrev pub add_to_stack : OplType → Converter → Converter
add_to_stack t e = add_bytes (size_on_stack t) e

-- `AddToStackL(TIdentifierSide,TType)`: the bits of the side go with it
abbrev pub add_side : Side → OplType → Converter → Converter
add_side right_side t e = add_to_stack t e
add_side left_side t e = add_bytes 6 e

abbrev pub side_bits : Side → ℕ
side_bits right_side = 0
side_bits left_side = 4

-- `RemoveFromStack`, over a TUint
abbrev pub remove_from_stack : OplType → Converter → Converter
remove_from_stack t e = record e {
  stack_depth = (e.stack_depth + 2 ^ 32 - size_on_stack t) % 2 ^ 32;
}

abbrev pub zero_stack : Converter → Converter
zero_stack e = record e { stack_depth = 0 }

abbrev rest_of : List ℕ → List ℕ
rest_of [] = []
rest_of (d ∷ ds) = ds

-- `AdjustStackForCallL`; an empty stack of depths is the array's bounds panic
abbrev pub adjust_stack_for_call : OplType → Converter → Outcome Converter
adjust_stack_for_call t e = do
  depth ← checked (get_elem? e.stack_depths 0)
  ok (add_to_stack t (record e { stack_depth = depth; stack_depths = rest_of e.stack_depths }))

-- `SetAddress` and the append to iLabels, for ELabel
unfoldable pub set_label : List ℕ → Converter → Converter
set_label name e = record e {
  labels = name ∷ e.labels;
  address_of = λ n. if same_name n name then length e.stream else e.address_of n;
}

-- The reference at a position is remembered, and its bytes reserved (`AddPatch16L`).
unfoldable pub add_reference : List ℕ → ℕ → Converter → Converter
add_reference name base e =
    let r : LabelReference = record { to_label = name; position = length e.stream; base = base } in
    write (bytes_of_word 0xffff) (record e { references = r ∷ e.references })

-- `LabelReferenceL`, where the parser has defined the labels `defined`
unfoldable pub refer_to_label : List (List ℕ) → Option (List ℕ) → ℕ → Converter → Outcome Converter
unfolding add_reference
refer_to_label defined none base e = ok (write (bytes_of_word 0) e)
refer_to_label defined (some name) base e =
    if is_among name defined then ok (add_reference name base e) else leave missing_label

-- The loop over a label's references in RunL, from the first
unfoldable pub patch_references : List ℕ → ℕ → List LabelReference → List ℕ → List ℕ
patch_references name address [] bs = bs
patch_references name address (r ∷ rs) bs =
    let rest = patch_references name address rs bs in
    if same_name name r.to_label
    then put_word_at r.position ((address + 2 ^ 32 - r.base) % 2 ^ 32) rest
    else rest

-- The loop over the labels in RunL, from the first
unfoldable pub patch_labels : List (List ℕ) → (List ℕ → ℕ) → List LabelReference → List ℕ → List ℕ
unfolding patch_references
patch_labels [] address refs bs = bs
patch_labels (name ∷ names) address refs bs =
    patch_references name (address name) refs (patch_labels names address refs bs)
