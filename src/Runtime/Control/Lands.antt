-- ===== src/Runtime/Control/Lands.antt =====
-- oplt/stran/OPL16GEN.CPP with oplr/src/EN_CTRL.CPP: a branch of the parse code, converted and
-- then run, goes to the place of its label.
use mathlib.Core.Path.{subst}
use opl_dev.Prelude.{
  Among, ℕ, ◌+◌, ◌-◌, ◌%◌, ◌^◌, ◌≤◌, ◌<◌, List, [], ◌∷◌, ◌++◌, ◌≡◌, inl, sym, ap, ◌∙◌, Bool, some,
  length, length-append, get_elem?, ltb, arith,
}
use opl_dev.Prelude.Int.{pos, ◌+ℤ◌, ◌-ℤ◌, from_bits}
use opl_dev.Prelude.Bytes.{bytes_of_word, get_elem?-append, get_elem?-append_right}
use opl_dev.Prelude.Outcome.{
  Outcome, ok, ◌>>=◌, Ensures, Ensures-bind, Ensures-if, Ensures-ok, bind-returned,
}
use opl_dev.Runtime.Control.{do_goto}
use opl_dev.Translator.Token.{word}
use opl_dev.Translator.Structure.{is_among}
use opl_dev.Translator.Emit.{
  Branch, branch_false, branch_always, on_err, Instruction, branch_to, label, Converter,
  LabelReference, add_reference, refer_to_label, remove_from_stack, write,
}
use opl_dev.Translator.Emit.Convert.{
  branch_code, convert_case, convert_round, located, convert_pcode, convert_pcode-append, finish,
  run_l, start_run, limit,
}
use opl_dev.Translator.Emit.Patches.{IsSpaced-Free, patch_labels-Among, patch_labels-Free}
use opl_dev.Translator.Emit.Kept.{Sound, IsSettled, Next, convert_round-Next, convert_pcode-Next}
use opl_dev.Translator.Emit.Addresses.{Unlabelled, At, set_label-At, convert_pcode-At}

-- The word at a branch, from the place of the branch to that of the label, is the signed offset
-- between them.
offset-goto :
    (at to : ℕ)
    → at + 1 < 2 ^ 32
    → to < at + 0x8000
    → at ≤ to + 0x8000
    → (pos (at + 1) +ℤ from_bits 0x8000 ((to + 2 ^ 32 - at) % 2 ^ 32 % 65536) -ℤ pos 1) ≡ pos to
unfolding ◌+ℤ◌ ◌-ℤ◌
offset-goto at to h near far = ground arith

abbrev reference_at : List ℕ → ℕ → ℕ → LabelReference
reference_at l p b = record { to_label = l; position = p; base = b }

-- The branch stands in the code at `at`, its opcode `n`, with a reference to its label behind it.
abbrev BranchAt : ℕ → ℕ → List ℕ → Converter → Type 0
BranchAt at n l e =
    IsSettled at e
    × (get_elem? e.stream at ≡ some n)
    × Among (reference_at l (at + 1) at) e.references

new_branch-BranchAt :
    (n : ℕ) (l : List ℕ) (e : Converter)
    → Sound e
    → BranchAt (length e.stream) n l (add_reference l (length e.stream) (write (n ∷ []) e))
unfolding add_reference
new_branch-BranchAt n l e (v, s) =
    let one : length (e.stream ++ n ∷ []) ≡ length e.stream + 1 = length-append e.stream (n ∷ []) in
    let long : length ((e.stream ++ n ∷ []) ++ bytes_of_word 0xffff) ≡ length e.stream + 1 + 2 =
      length-append (e.stream ++ n ∷ []) (bytes_of_word 0xffff) ∙ ap (λ x. x + 2) one in
    let inside : length e.stream < length (e.stream ++ n ∷ []) = rw one (omega arith) in
    let there : get_elem? (e.stream ++ n ∷ []) (length e.stream) ≡ some n =
      subst (λ x. get_elem? (e.stream ++ n ∷ []) x ≡ some n)
        (let zero : length e.stream + 0 ≡ length e.stream = omega arith in zero)
        (get_elem?-append_right e.stream (n ∷ []) 0) in
    (
      (
        rw long (omega arith),
        (λ x. absurd (omega (arith, x, v))),
        (λ x. absurd (omega (arith, x, v))),
        (
          (λ x. absurd (omega (arith, x ∙ one))),
          (λ x. absurd (omega (arith, x ∙ ap (λ y. y + 1) one))),
          IsSpaced-Free (length e.stream) (length e.stream) e.references s (omega arith),
        ),
      ),
      get_elem?-append (e.stream ++ n ∷ []) (bytes_of_word 0xffff) (length e.stream) inside ∙ there,
      inl (ap (λ x. reference_at l x (length e.stream)) one),
    )

ok_injective : {x y : Converter} → ok x ≡ ok y → x ≡ y
ok_injective h = cc

module _ {R : Type 0} (real_bytes : R → List ℕ) (debug : Bool) (error_pos : ℕ)
    (defined : List (List ℕ)) where
  defined-BranchAt :
      (n : ℕ) (l : List ℕ) (e : Converter)
      → Sound e
      → Ensures (BranchAt (length e.stream) n l) (
          refer_to_label defined (some l) (length e.stream) (write (n ∷ []) e)
          >>= located real_bytes debug error_pos defined)
  unfolding refer_to_label
  defined-BranchAt n l e s =
      let P = BranchAt (length e.stream) n l in
      Ensures-bind P (refer_to_label defined (some l) (length e.stream) (write (n ∷ []) e)) _
        (Ensures-if P (is_among l defined) _ _ (new_branch-BranchAt n l e s) tt)
        λ e' h. Ensures-if P (ltb error_pos (length e'.stream)) _ _ tt h

  branch-BranchAt :
      (k : Branch) (l : List ℕ) (e : Converter)
      → Sound e
      → Ensures
          (BranchAt (length e.stream) (branch_code k) l)
          (convert_round real_bytes debug error_pos defined (branch_to k (some l)) e)
  unfolding convert_round convert_case
  branch-BranchAt branch_false l e s = defined-BranchAt 0x5b l (remove_from_stack word e) s
  branch-BranchAt branch_always l e s = defined-BranchAt 0xbf l e s
  branch-BranchAt on_err l e s = defined-BranchAt 0xb1 l e s

  label-At :
      (l : List ℕ) (e : Converter)
      → Ensures
          (At l (length e.stream))
          (convert_round real_bytes debug error_pos defined (label l) e)
  unfolding convert_round convert_case
  label-At l e =
      Ensures-if (At l (length e.stream)) (ltb error_pos (length e.stream)) _ _ tt
        (set_label-At l e)

  -- The parts of a conversion that returns, around an instruction
  convert-split :
      (a b : List (Instruction R)) (i : Instruction R) (e e₁ e₂ : Converter)
      → convert_pcode real_bytes debug error_pos defined a e ≡ ok e₁
      → convert_pcode real_bytes debug error_pos defined (a ++ i ∷ b) e ≡ ok e₂
      → (e' : Converter) × (convert_round real_bytes debug error_pos defined i e₁ ≡ ok e')
        × (convert_pcode real_bytes debug error_pos defined b e' ≡ ok e₂)
  unfolding convert_pcode
  convert-split a b i e e₁ e₂ h h' =
      let run_b = convert_pcode real_bytes debug error_pos defined (i ∷ b) in
      let split = convert_pcode-append real_bytes debug error_pos defined a (i ∷ b) e in
      bind-returned (convert_round real_bytes debug error_pos defined i e₁)
        (convert_pcode real_bytes debug error_pos defined b) e₂
        (sym (ap (λ m. m >>= run_b) h) ∙ sym split ∙ h')

  branch-kept :
      (k : Branch) (l : List ℕ) (a b : List (Instruction R)) (e e₁ e₂ : Converter)
      → Sound e
      → convert_pcode real_bytes debug error_pos defined a e ≡ ok e₁
      → convert_pcode real_bytes debug error_pos defined (a ++ branch_to k (some l) ∷ b) e ≡ ok e₂
      → Sound e₂ × BranchAt (length e₁.stream) (branch_code k) l e₂
  branch-kept k l a b e e₁ e₂ s h h' =
      let at = length e₁.stream in
      let (e₃, h₁, h₂) = convert-split a b (branch_to k (some l)) e e₁ e₂ h h' in
      let s₁ =
        (Ensures-ok (Next e) _ e₁ (convert_pcode-Next real_bytes debug error_pos defined a e s)
          h).0 in
      let (settled, byte, m) =
        Ensures-ok (BranchAt at (branch_code k) l) _ e₃ (branch-BranchAt k l e₁ s₁) h₁ in
      let s₃ =
        (Ensures-ok (Next e₁) _ e₃
          (convert_round-Next real_bytes debug error_pos defined (branch_to k (some l)) e₁ s₁)
          h₁).0 in
      let (s₂, (keeps, remembers)) =
        Ensures-ok (Next e₃) _ e₂ (convert_pcode-Next real_bytes debug error_pos defined b e₃ s₃)
          h₂ in
      let (settled', same) = keeps at settled in
      (s₂, (settled', same ∙ byte, remembers (reference_at l (at + 1) at) m))

  label-kept :
      (l : List ℕ) (c d : List (Instruction R)) (e e₁ e₂ : Converter)
      → convert_pcode real_bytes debug error_pos defined c e ≡ ok e₁
      → convert_pcode real_bytes debug error_pos defined (c ++ label l ∷ d) e ≡ ok e₂
      → Unlabelled l d
      → At l (length e₁.stream) e₂
  label-kept l c d e e₁ e₂ h h' once =
      let at = length e₁.stream in
      let (e₃, h₁, h₂) = convert-split c d (label l) e e₁ e₂ h h' in
      let put = Ensures-ok (At l at) _ e₃ (label-At l e₁) h₁ in
      Ensures-ok (At l at) _ e₂
        (convert_pcode-At real_bytes debug error_pos defined l at d e₃ once put) h₂

-- What the patched code holds at a branch
finish-goto :
    (at to n : ℕ) (l : List ℕ) (e : Converter)
    → Sound e
    → BranchAt at n l e
    → At l to e
    → at + 1 < 2 ^ 32
    → to < at + 0x8000
    → at ≤ to + 0x8000
    → (get_elem? (finish e).stream at ≡ some n) × (do_goto (finish e).stream (at + 1) ≡ ok (pos to))
unfolding finish do_goto
finish-goto at to n l e (v, s) (settled, byte, m) (k, address) h near far =
    let r = reference_at l (at + 1) at in
    let word =
      patch_labels-Among e.labels e.address_of (length e.stream) r e.references e.stream s
        (omega arith) m k in
    (
      patch_labels-Free e.labels e.address_of at e.references e.stream settled.3 ∙ byte,
      rw word (ap ok (rw address (offset-goto at to h near far))),
    )

module _ {R : Type 0} (real_bytes : R → List ℕ) (debug : Bool) (error_pos : ℕ)
    (defined : List (List ℕ)) where
  -- A branch of a procedure's parse code, and its label, which is put into the code once or for the
  -- last time. `e` is the converter at the start of the run, `e₁` and `e₂` what the code up to the
  -- branch and up to the label make of it, and `e₃` what the run returns; at the start the stream
  -- holds two bytes or more, and no reference is remembered. The branch is not farther from its
  -- label than a signed word. Then where the branch was put out the patched code has the opcode of
  -- the branch, and the runtime's jump, from behind that opcode, goes to where the label's code
  -- was put out.
  pub run_l-lands :
      (k : Branch) (l : List ℕ) (a b c d program : List (Instruction R)) (e e₁ e₂ e₃ : Converter)
      → program ≡ a ++ branch_to k (some l) ∷ b
      → program ≡ c ++ label l ∷ d
      → Unlabelled l d
      → 2 ≤ length e.stream
      → e.references ≡ []
      → convert_pcode real_bytes debug (limit error_pos e) defined a (start_run e) ≡ ok e₁
      → convert_pcode real_bytes debug (limit error_pos e) defined c (start_run e) ≡ ok e₂
      → run_l real_bytes debug error_pos defined program e ≡ ok e₃
      → length e₁.stream + 1 < 2 ^ 32
      → length e₂.stream < length e₁.stream + 0x8000
      → length e₁.stream ≤ length e₂.stream + 0x8000
      → (get_elem? e₃.stream (length e₁.stream) ≡ some (branch_code k))
        × (do_goto e₃.stream (length e₁.stream + 1) ≡ ok (pos (length e₂.stream)))
  unfolding run_l
  run_l-lands k l a b c d program e e₁ e₂ e₃ at_branch at_label once two none ha hc hr h near far =
      let most = limit error_pos e in
      let (e', returns, ends) =
        bind-returned (convert_pcode real_bytes debug most defined program (start_run e))
          (λ e'. ok (finish e')) e₃ hr in
      let sound : Sound (start_run e) = (omega (arith, two), rw none tt) in
      let code : (is : List (Instruction R)) → Outcome Converter =
        λ is. convert_pcode real_bytes debug most defined is (start_run e) in
      let (s, branched) =
        branch-kept real_bytes debug most defined k l a b (start_run e) e₁ e' sound ha
          (ap code (sym at_branch) ∙ returns) in
      let labelled =
        label-kept real_bytes debug most defined l c d (start_run e) e₂ e' hc
          (ap code (sym at_label) ∙ returns) once in
      let same : finish e' ≡ e₃ = ok_injective ends in
      subst
        (λ (e₃ : Converter).
          (get_elem? e₃.stream (length e₁.stream) ≡ some (branch_code k))
          × (do_goto e₃.stream (length e₁.stream + 1) ≡ ok (pos (length e₂.stream))))
        same
        (finish-goto (length e₁.stream) (length e₂.stream) (branch_code k) l e' s branched labelled
          h near far)
