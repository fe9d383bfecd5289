-- ===== src/Translator/Emit/Addresses.antt =====
-- oplt/stran/OPL16GEN.CPP: the address of a label, once it is put into the code, stays.
use opl_dev.Prelude.{
  Among, ℕ, List, [], ◌∷◌, ◌≡◌, ◌≢◌, inl, inr, refl, sym, Bool, Bool-cases, true, false, Option,
  none, some, length, get_elem?, ltb, ◌==◌, if◌then◌else◌,
}
use opl_dev.Prelude.Outcome.{◌>>=◌, checked, Ensures, Ensures-bind, Ensures-after, Ensures-if}
use opl_dev.Translator.Token.{OplType, word, rank}
use opl_dev.Translator.Pcode.{Pcode, push_constant, cast, apply, unary, binary}
use opl_dev.Translator.Codegen.{Qcode, qcode}
use opl_dev.Translator.Structure.{is_among}
use opl_dev.Translator.Emit.{
  Side, left_side, right_side, Branch, branch_false, branch_always, on_err, Instruction, statement,
  evaluate, identifier, field, proc_call_name, arg_list, proc_arg, other_arg, proc_call, opx_call,
  proc_by_name_call, function_call, drop, assign, command, typed_command, qualified_command, label,
  branch_to, field_name, end_field_list, vector, end_vector, vector_label, Converter, opcode,
  text_bytes, write, add_side, remove_from_stack, adjust_stack_for_call, set_label, add_reference,
  refer_to_label,
}
use opl_dev.Translator.Emit.Tables.{function_table, proc_by_name_type_bytes}
use opl_dev.Translator.Emit.Convert.{
  account, branch_stack, branch_code, qcodes_bytes, evaluate_code, statement_qcode, convert_case,
  located, convert_round, convert_pcode,
}
use opl_dev.Runtime.Globals.{same_name}
use opl_dev.Runtime.Globals.Find.{same_name_equal}
use opl_dev.Translator.Structure.Names.{self_name}

abbrev IsLabel : {R : Type 0} → List ℕ → Instruction R → Type 0
IsLabel l (label name) = name ≡ l
IsLabel l i = ⊥

-- The code does not have the label.
abbrev pub Unlabelled : {R : Type 0} → List ℕ → List (Instruction R) → Type 0
Unlabelled l [] = Unit
Unlabelled l (i ∷ is) = (IsLabel l i → ⊥) × Unlabelled l is

-- The label is among those that are put into the code, at this address.
abbrev pub At : List ℕ → ℕ → Converter → Type 0
At l a e = Among l e.labels × (e.address_of l ≡ a)

account-At :
    {R : Type 0} (l : List ℕ) (a : ℕ) (p : Pcode R) (qs : List (Qcode R)) (e : Converter)
    → At l a e
    → At l a (account p qs e)
unfolding account
account-At l a (push_constant c) qs e h = h
account-At l a (cast from to) [] e h = h
account-At l a (cast from to) (q ∷ qs) e h = h
account-At l a (apply t r unary op) qs e h = h
account-At l a (apply t r binary op) qs e h = h

index_stack-At :
    (l : List ℕ) (a : ℕ) (b : Bool) (t : OplType) (e : Converter)
    → At l a e
    → At l a (if b then remove_from_stack t e else e)
index_stack-At l a true t e h = h
index_stack-At l a false t e h = h

add_side-At :
    (l : List ℕ) (a : ℕ) (side : Side) (t : OplType) (e : Converter)
    → At l a e
    → At l a (add_side side t e)
add_side-At l a left_side t e h = h
add_side-At l a right_side t e h = h

branch_stack-At :
    (l : List ℕ) (a : ℕ) (k : Branch) (e : Converter) → At l a e → At l a (branch_stack k e)
branch_stack-At l a branch_false e h = h
branch_stack-At l a branch_always e h = h
branch_stack-At l a on_err e h = h

adjust-At :
    (l : List ℕ) (a : ℕ) (t : OplType) (e : Converter)
    → At l a e
    → Ensures (At l a) (adjust_stack_for_call t e)
adjust-At l a t e h = Ensures-after (At l a) (checked (get_elem? e.stack_depths 0)) _ λ d. h

refer_to_label-At :
    (l : List ℕ) (a : ℕ) (defined : List (List ℕ)) (name : Option (List ℕ)) (base : ℕ)
    (e : Converter)
    → At l a e
    → Ensures (At l a) (refer_to_label defined name base e)
unfolding refer_to_label add_reference
refer_to_label-At l a defined none base e h = h
refer_to_label-At l a defined (some name) base e h =
    Ensures-if (At l a) (is_among name defined) _ _ h tt

-- A label that is put into the code is at the end of the stream.
pub set_label-At : (l : List ℕ) (e : Converter) → At l (length e.stream) (set_label l e)
unfolding set_label
set_label-At l e = (inl refl, rw (self_name l) refl)

set_label-other :
    (l name : List ℕ) (a : ℕ) (e : Converter) → name ≢ l → At l a e → At l a (set_label name e)
unfolding set_label
set_label-other l name a e other (m, h) = (
  inr m,
  elim (Bool-cases (same_name l name)) [
    | inl same ↦ absurd (other (sym (same_name_equal l name same)))
    | inr e ↦ rw e h
  ],
)

module _ {R : Type 0} (real_bytes : R → List ℕ) (debug : Bool) (error_pos : ℕ)
    (defined : List (List ℕ)) (l : List ℕ) (a : ℕ) where
  convert_case-At :
      (i : Instruction R) (e : Converter)
      → (IsLabel l i → ⊥)
      → At l a e
      → Ensures (At l a) (convert_case real_bytes debug error_pos defined i e)
  unfolding convert_case evaluate_code
  convert_case-At (statement offset) e n h = Ensures-if (At l a) (ltb 65535 offset) _ _ h h
  convert_case-At (evaluate p) e n h =
      Ensures-after (At l a) (qcode p) _
        λ qs. Ensures-after (At l a) (qcodes_bytes real_bytes qs) _ λ bs. account-At l a p qs e h
  convert_case-At (identifier by_name r) e n h =
      let indexed = index_stack-At l a r.of_array word e h in
      let h₁ = add_side-At l a r.side r.type _ indexed in
      Ensures-if (At l a) by_name _ _ (Ensures-after (At l a) (text_bytes r.name) _ λ name. h₁) h₁
  convert_case-At (field side type name device) e n h =
      Ensures-after (At l a) (text_bytes name) _ λ text. add_side-At l a side type e h
  convert_case-At proc_call_name e n h = h
  convert_case-At arg_list e n h = h
  convert_case-At (proc_arg type) e n h = h
  convert_case-At other_arg e n h = h
  convert_case-At (proc_call type addr) e n h =
      Ensures-bind (At l a) (adjust_stack_for_call type e) _ (adjust-At l a type e h) λ e₁ h₁. h₁
  convert_case-At (opx_call type addr) e n h =
      Ensures-bind (At l a) (adjust_stack_for_call type e) _ (adjust-At l a type e h) λ e₁ h₁. h₁
  convert_case-At (proc_by_name_call type count) e n h =
      Ensures-bind (At l a) (adjust_stack_for_call type e) _ (adjust-At l a type e h) λ e₁ h₁.
        Ensures-after (At l a) (checked (get_elem? proc_by_name_type_bytes (rank type))) _
          λ byte. h₁
  convert_case-At (function_call type number count) e n h =
      Ensures-bind (At l a) (adjust_stack_for_call type e) _ (adjust-At l a type e h)
        λ e₁ h₁. Ensures-after (At l a) (checked (get_elem? function_table number)) _ λ n. h₁
  convert_case-At (drop type) e n h =
      Ensures-if (At l a) ((remove_from_stack type e).stack_depth == 0) _ _ h tt
  convert_case-At (assign type) e n h = h
  convert_case-At (command number) e n h = Ensures-after (At l a) (statement_qcode number) _ λ q. h
  convert_case-At (typed_command number type) e n h =
      Ensures-after (At l a) (statement_qcode number) _ λ q. h
  convert_case-At (qualified_command number qualifier) e n h =
      Ensures-after (At l a) (statement_qcode number) _ λ q. h
  convert_case-At (label name) e n h = set_label-other l name a e n h
  convert_case-At (branch_to k name) e n h =
      refer_to_label-At l a defined name (length e.stream)
        (write (opcode (branch_code k)) (branch_stack k e)) (branch_stack-At l a k e h)
  convert_case-At (field_name type name) e n h =
      Ensures-after (At l a) (text_bytes name) _ λ text. h
  convert_case-At end_field_list e n h = h
  convert_case-At vector e n h = h
  convert_case-At (vector_label name) e n h =
      Ensures-bind (At l a) (refer_to_label defined name e.vector_base e) _
        (refer_to_label-At l a defined name e.vector_base e h) λ e₁ h₁. h₁
  convert_case-At end_vector e n h = h

  case-At :
      (i : Instruction R) (e : Converter)
      → (IsLabel l i → ⊥)
      → At l a e
      → Ensures (At l a) (
          convert_case real_bytes debug error_pos defined i e
          >>= located real_bytes debug error_pos defined)
  case-At i e n h =
      Ensures-bind (At l a) (convert_case real_bytes debug error_pos defined i e) _
        (convert_case-At i e n h)
        λ e₁ h₁. Ensures-if (At l a) (ltb error_pos (length e₁.stream)) _ _ tt h₁

  convert_round-At :
      (i : Instruction R) (e : Converter)
      → (IsLabel l i → ⊥)
      → At l a e
      → Ensures (At l a) (convert_round real_bytes debug error_pos defined i e)
  unfolding convert_round
  convert_round-At (statement offset) e n h =
      Ensures-if (At l a) debug _ _ (case-At (statement offset) e n h) h
  convert_round-At i e n h = case-At i e n h

  pub convert_pcode-At :
      (is : List (Instruction R)) (e : Converter)
      → Unlabelled l is
      → At l a e
      → Ensures (At l a) (convert_pcode real_bytes debug error_pos defined is e)
  unfolding convert_pcode
  convert_pcode-At [] e n h = h
  convert_pcode-At (i ∷ is) e (n, ns) h =
      Ensures-bind (At l a) (convert_round real_bytes debug error_pos defined i e) _
        (convert_round-At i e n h) λ e₁ h₁. convert_pcode-At is e₁ ns h₁
