-- ===== src/Translator/Emit/Kept.antt =====
-- oplt/stran/OPL16GEN.CPP: what a run of the converter keeps of the bytes that it has written and
-- of the references that it remembers.
use opl_dev.Prelude.{
  Among, ℕ, ◌+◌, ◌≤◌, ◌<◌, List, [], ◌∷◌, ◌++◌, ◌≡◌, ◌≢◌, inr, refl, ap, ◌∙◌, Bool, true, false,
  Option, none, some, length, length-append, get_elem?, ltb, ◌==◌, if◌then◌else◌, arith,
}
use opl_dev.Prelude.Bytes.{
  bytes_of_word, put_word_at, length-put_word_at, get_elem?-put_word_at, get_elem?-append,
}
use opl_dev.Prelude.Outcome.{
  ◌>>=◌, checked, Ensures, Ensures-bind, Ensures-weaken, Ensures-after, Ensures-if,
}
use opl_dev.Translator.Token.{OplType, word, rank}
use opl_dev.Translator.Pcode.{Pcode, push_constant, cast, apply, unary, binary}
use opl_dev.Translator.Codegen.{Qcode, qcode}
use opl_dev.Translator.Structure.{is_among}
use opl_dev.Translator.Emit.{
  Side, left_side, right_side, Branch, branch_false, branch_always, on_err, Instruction, statement,
  evaluate, identifier, field, proc_call_name, arg_list, proc_arg, other_arg, proc_call, opx_call,
  proc_by_name_call, function_call, drop, assign, command, typed_command, qualified_command, label,
  branch_to, field_name, end_field_list, vector, end_vector, vector_label, Converter,
  LabelReference, opcode, text_bytes, write, add_side, remove_from_stack, adjust_stack_for_call,
  set_label, add_reference, refer_to_label,
}
use opl_dev.Translator.Emit.Tables.{function_table, proc_by_name_type_bytes}
use opl_dev.Translator.Emit.Convert.{
  account, branch_stack, branch_code, qcodes_bytes, evaluate_code, statement_qcode, convert_case,
  located, convert_round, convert_pcode,
}
use opl_dev.Translator.Emit.Patches.{IsSpaced, IsSpaced-weaken, Free}

-- The references and the count of a vector's labels take bytes that are in the stream, and that
-- do not overlap.
abbrev pub Sound : Converter → Type 0
Sound e = (e.vector_patch_pos + 2 ≤ length e.stream) × IsSpaced (length e.stream) e.references

-- A byte that nothing writes again before the end.
abbrev pub IsSettled : ℕ → Converter → Type 0
IsSettled p e =
    (p < length e.stream)
    × (p ≢ e.vector_patch_pos)
    × (p ≢ e.vector_patch_pos + 1)
    × Free p e.references

abbrev pub Keeps : Converter → Converter → Type 0
Keeps e e' =
    ((p : ℕ) → IsSettled p e → IsSettled p e' × (get_elem? e'.stream p ≡ get_elem? e.stream p))
    × ((r : LabelReference) → Among r e.references → Among r e'.references)

abbrev pub Next : Converter → Converter → Type 0
Next e e' = Sound e' × Keeps e e'

Next-trans : (a b c : Converter) → Next a b → Next b c → Next a c
Next-trans a b c (s, (k, m)) (s', (k', m')) = (
  s',
  (
    (λ p h. let (h', same) = k p h in let (h'', same') = k' p h' in (h'', same' ∙ same)),
    (λ r h. m' r (m r h)),
  ),
)

-- What is only written at the end of the stream.
abbrev Appends : List ℕ → Converter → Converter → Type 0
Appends bs e e' =
    (e'.stream ≡ e.stream ++ bs)
    × (e'.references ≡ e.references)
    × (e'.vector_patch_pos ≡ e.vector_patch_pos)

Next-append : (bs : List ℕ) (e e' : Converter) → Sound e → Appends bs e e' → Next e e'
Next-append bs e e' (v, s) (b, r, q) =
    let long : length e'.stream ≡ length e.stream + length bs =
      ap length b ∙ length-append e.stream bs in
    (
      (
        rw (q, long) (omega (arith, v)),
        rw (r, long) (IsSpaced-weaken (length e.stream) _ e.references s (omega arith)),
      ),
      (
        (λ p h. (
          (
            rw long (omega (arith, h.0)),
            (λ x. h.1 (x ∙ q)),
            (λ x. h.2 (x ∙ ap (λ n. n + 1) q)),
            rw r h.3,
          ),
          rw b (get_elem?-append e.stream bs p h.0),
        )),
        (λ x h. rw r h),
      ),
    )

Next-add_reference :
    (name : List ℕ) (base : ℕ) (e : Converter) → Sound e → Next e (add_reference name base e)
unfolding add_reference
Next-add_reference name base e (v, s) =
    let long : length (e.stream ++ bytes_of_word 0xffff) ≡ length e.stream + 2 =
      length-append e.stream (bytes_of_word 0xffff) in
    (
      (rw long (omega (arith, v)), (rw long (omega arith), s)),
      (
        (λ p h. (
          (
            rw long (omega (arith, h.0)),
            h.1,
            h.2,
            ((λ x. absurd (omega (arith, x, h.0))), (λ x. absurd (omega (arith, x, h.0))), h.3),
          ),
          get_elem?-append e.stream (bytes_of_word 0xffff) p h.0,
        )),
        (λ x h. inr h),
      ),
    )

-- The code of a vector, whose count of labels is to be written
Next-vector :
    (bs : List ℕ) (e e' : Converter)
    → Sound e
    → e'.stream ≡ e.stream ++ bs
    → 3 ≤ length bs
    → e'.references ≡ e.references
    → e'.vector_patch_pos ≡ length e.stream + 1
    → Next e e'
Next-vector bs e e' (v, s) b enough r q =
    let long : length e'.stream ≡ length e.stream + length bs =
      ap length b ∙ length-append e.stream bs in
    (
      (
        rw (q, long) (omega (arith, enough)),
        rw (r, long) (IsSpaced-weaken (length e.stream) _ e.references s (omega arith)),
      ),
      (
        (λ p h. (
          (
            rw long (omega (arith, h.0)),
            (λ x. absurd (omega (arith, x, q, h.0))),
            (λ x. absurd (omega (arith, x, q, h.0))),
            rw r h.3,
          ),
          rw b (get_elem?-append e.stream bs p h.0),
        )),
        (λ x h. rw r h),
      ),
    )

Next-end_vector :
    (n : ℕ) (e : Converter)
    → Sound e
    → Next e (record e { stream = put_word_at e.vector_patch_pos n e.stream })
Next-end_vector n e (v, s) =
    let long = length-put_word_at e.vector_patch_pos n e.stream in
    (
      (rw long v, rw long s),
      (
        (λ p h. (
          (rw long h.0, h.1, h.2, h.3),
          get_elem?-put_word_at e.vector_patch_pos n p e.stream h.1 h.2,
        )),
        (λ x h. h),
      ),
    )

-- What only changes the count of the stack.
abbrev Same : Converter → Converter → Type 0
Same e e' =
    (e'.stream ≡ e.stream)
    × (e'.references ≡ e.references)
    × (e'.vector_patch_pos ≡ e.vector_patch_pos)

Next-write : (bs : List ℕ) (e e' : Converter) → Sound e → Same e e' → Next e (write bs e')
Next-write bs e e' s (b, r, q) = Next-append bs e (write bs e') s (ap (λ x. x ++ bs) b, r, q)

Next-refl : (e : Converter) → Sound e → Next e e
Next-refl e s = (s, ((λ p h. (h, refl)), (λ r h. h)))

account-Same :
    {R : Type 0} (p : Pcode R) (qs : List (Qcode R)) (e : Converter) → Same e (account p qs e)
unfolding account
account-Same (push_constant c) qs e = (refl, refl, refl)
account-Same (cast from to) [] e = (refl, refl, refl)
account-Same (cast from to) (q ∷ qs) e = (refl, refl, refl)
account-Same (apply t r unary op) qs e = (refl, refl, refl)
account-Same (apply t r binary op) qs e = (refl, refl, refl)

index_stack-Same :
    (b : Bool) (t : OplType) (e : Converter) → Same e (if b then remove_from_stack t e else e)
index_stack-Same true t e = (refl, refl, refl)
index_stack-Same false t e = (refl, refl, refl)

add_side-Same :
    (side : Side) (t : OplType) (e e' : Converter) → Same e e' → Same e (add_side side t e')
add_side-Same left_side t e e' h = h
add_side-Same right_side t e e' h = h

branch_stack-Same : (k : Branch) (e : Converter) → Same e (branch_stack k e)
branch_stack-Same branch_false e = (refl, refl, refl)
branch_stack-Same branch_always e = (refl, refl, refl)
branch_stack-Same on_err e = (refl, refl, refl)

adjust-Same : (t : OplType) (e : Converter) → Ensures (Same e) (adjust_stack_for_call t e)
adjust-Same t e =
    Ensures-after (Same e) (checked (get_elem? e.stack_depths 0)) _ λ d. (refl, refl, refl)

refer_to_label-Next :
    (defined : List (List ℕ)) (name : Option (List ℕ)) (base : ℕ) (e : Converter)
    → Sound e
    → Ensures (Next e) (refer_to_label defined name base e)
unfolding refer_to_label
refer_to_label-Next defined none base e s = Next-write (bytes_of_word 0) e e s (refl, refl, refl)
refer_to_label-Next defined (some name) base e s =
    Ensures-if (Next e) (is_among name defined) _ _ (Next-add_reference name base e s) tt

module _ {R : Type 0} (real_bytes : R → List ℕ) (debug : Bool) (error_pos : ℕ)
    (defined : List (List ℕ)) where
  convert_case-Next :
      (i : Instruction R) (e : Converter)
      → Sound e
      → Ensures (Next e) (convert_case real_bytes debug error_pos defined i e)
  unfolding convert_case evaluate_code set_label
  convert_case-Next (statement offset) e s =
      Ensures-if (Next e) (ltb 65535 offset) _ _ (Next-write _ e e s (refl, refl, refl))
        (Next-write _ e e s (refl, refl, refl))
  convert_case-Next (evaluate p) e s = Ensures-after (Next e) (qcode p) _ λ qs.
      Ensures-after (Next e) (qcodes_bytes real_bytes qs) _
        λ bs. Next-write bs e (account p qs e) s (account-Same p qs e)
  convert_case-Next (identifier by_name r) e s =
      let indexed = if r.of_array then remove_from_stack word e else e in
      let same = add_side-Same r.side r.type e indexed (index_stack-Same r.of_array word e) in
      let e₁ = add_side r.side r.type indexed in
      Ensures-if (Next e) by_name _ _
        (Ensures-after (Next e) (text_bytes r.name) _ λ name. Next-write _ e e₁ s same)
        (Next-write _ e e₁ s same)
  convert_case-Next (field side type name device) e s =
      Ensures-after (Next e) (text_bytes name) _ λ text.
        Next-write _ e (add_side side type e) s (add_side-Same side type e e (refl, refl, refl))
  convert_case-Next proc_call_name e s = Next-refl e s
  convert_case-Next arg_list e s = Next-refl e s
  convert_case-Next (proc_arg type) e s = Next-write _ e e s (refl, refl, refl)
  convert_case-Next other_arg e s = Next-refl e s
  convert_case-Next (proc_call type addr) e s =
      Ensures-bind (Next e) (adjust_stack_for_call type e) _ (adjust-Same type e)
        λ e₁ same. Next-write _ e e₁ s same
  convert_case-Next (opx_call type addr) e s =
      Ensures-bind (Next e) (adjust_stack_for_call type e) _ (adjust-Same type e)
        λ e₁ same. Next-write _ e e₁ s same
  convert_case-Next (proc_by_name_call type count) e s =
      Ensures-bind (Next e) (adjust_stack_for_call type e) _ (adjust-Same type e) λ e₁ same.
        Ensures-after (Next e) (checked (get_elem? proc_by_name_type_bytes (rank type))) _
          λ byte. Next-write _ e e₁ s same
  convert_case-Next (function_call type number count) e s =
      Ensures-bind (Next e) (adjust_stack_for_call type e) _ (adjust-Same type e) λ e₁ same.
        Ensures-after (Next e) (checked (get_elem? function_table number)) _
          λ n. Next-write _ e e₁ s same
  convert_case-Next (drop type) e s =
      Ensures-if (Next e) ((remove_from_stack type e).stack_depth == 0) _ _
        (Next-write _ e (remove_from_stack type e) s (refl, refl, refl)) tt
  convert_case-Next (assign type) e s = Next-write _ e e s (refl, refl, refl)
  convert_case-Next (command number) e s =
      Ensures-after (Next e) (statement_qcode number) _ λ q. Next-write _ e e s (refl, refl, refl)
  convert_case-Next (typed_command number type) e s =
      Ensures-after (Next e) (statement_qcode number) _ λ q. Next-write _ e e s (refl, refl, refl)
  convert_case-Next (qualified_command number qualifier) e s =
      Ensures-after (Next e) (statement_qcode number) _ λ q. Next-write _ e e s (refl, refl, refl)
  convert_case-Next (label name) e s = Next-refl e s
  convert_case-Next (branch_to k name) e s =
      let e₁ = write (opcode (branch_code k)) (branch_stack k e) in
      let n₁ = Next-write (opcode (branch_code k)) e (branch_stack k e) s (branch_stack-Same k e) in
      Ensures-weaken (refer_to_label defined name (length e.stream) e₁)
        (λ e₂ n₂. Next-trans e e₁ e₂ n₁ n₂)
        (refer_to_label-Next defined name (length e.stream) e₁ n₁.0)
  convert_case-Next (field_name type name) e s =
      Ensures-after (Next e) (text_bytes name) _ λ text. Next-write _ e e s (refl, refl, refl)
  convert_case-Next end_field_list e s = Next-write _ e e s (refl, refl, refl)
  convert_case-Next vector e s =
      let bs = opcode 0xab ++ bytes_of_word 0xffff in
      Next-vector bs e
        (record e { stream = e.stream ++ bs; vector_patch_pos = length e.stream + 1 }) s refl
        (omega arith) refl refl
  convert_case-Next (vector_label name) e s =
      Ensures-bind (Next e) (refer_to_label defined name e.vector_base e) _
        (refer_to_label-Next defined name e.vector_base e s) λ e₁ n. n
  convert_case-Next end_vector e s = Next-end_vector e.vector_labels_count e s

  located-Next :
      (e e' : Converter)
      → Next e e'
      → Ensures (Next e) (located real_bytes debug error_pos defined e')
  located-Next e e' h = Ensures-if (Next e) (ltb error_pos (length e'.stream)) _ _ tt h

  case-Next :
      (i : Instruction R) (e : Converter)
      → Sound e
      → Ensures (Next e) (
          convert_case real_bytes debug error_pos defined i e
          >>= located real_bytes debug error_pos defined)
  case-Next i e s =
      Ensures-bind (Next e) (convert_case real_bytes debug error_pos defined i e) _
        (convert_case-Next i e s) (located-Next e)

  pub convert_round-Next :
      (i : Instruction R) (e : Converter)
      → Sound e
      → Ensures (Next e) (convert_round real_bytes debug error_pos defined i e)
  unfolding convert_round
  convert_round-Next (statement offset) e s =
      Ensures-if (Next e) debug _ _ (case-Next (statement offset) e s) (Next-refl e s)
  convert_round-Next i e s = case-Next i e s

  pub convert_pcode-Next :
      (is : List (Instruction R)) (e : Converter)
      → Sound e
      → Ensures (Next e) (convert_pcode real_bytes debug error_pos defined is e)
  unfolding convert_pcode
  convert_pcode-Next [] e s = Next-refl e s
  convert_pcode-Next (i ∷ is) e s =
      Ensures-bind (Next e) (convert_round real_bytes debug error_pos defined i e) _
        (convert_round-Next i e s)
        λ e₁ n₁.
          Ensures-weaken (convert_pcode real_bytes debug error_pos defined is e₁)
            (λ e₂ n₂. Next-trans e e₁ e₂ n₁ n₂) (convert_pcode-Next is e₁ n₁.0)
