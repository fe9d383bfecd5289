-- ===== src/Runtime/Pipeline.antt =====
-- From parse code to the runtime: oplt/stran/OPL16GEN.CPP's conversion of an expression's parse
-- code and the execution of the qcode by oplr/src/.
use mathlib.Core.Path.{subst}
use opl_dev.Prelude.{
  List, [], ◌∷◌, ◌++◌, ◌≡◌, refl, sym, ap, ◌∙◌, Bool, true, false, ◌||◌, Option, none, some, ◌==◌,
  if◌then◌else◌, Bool-cases, inl, inr, ℕ, arith,
}
use opl_dev.Prelude.Outcome.{
  LeaveCode, Outcome, ok, leave, panic, spent, ◌>>=◌, bind_assoc, Leaves, Leaves-bind, LeavesWith,
  LeavesWith-bind, LeavesWith-weaken, Returns, Returns-LeavesWith, type_mismatch,
}
use opl_dev.Translator.Token.{OplType, string, rank, Operator, type_of}
use opl_dev.Translator.Pcode.{Pcode, push_constant, cast, apply, Arity, unary, binary}
use opl_dev.Translator.Codegen.{Qcode, qcode, constant_qcode, cast_qcode, operator_qcode, convert}
use opl_dev.Translator.Expr.Typing.{
  signature, check, check_instruction, pop_type, pop_operands, ◌then?◌,
}
use opl_dev.Runtime.Stack.{Stack}
use opl_dev.Runtime.Reals.{Platform}
use opl_dev.Runtime.Execute.{run, step}
use opl_dev.Runtime.Typed.{Typed}
use opl_dev.Runtime.Sound.{
  ShortTexts, ShortText, TypedResult, apply_binary-Typed, apply_unary-Typed, cast-Typed,
  constant-Typed,
}

pub then?_elim :
    {A B : Type 0} (o : Option A) (f : A → Option B) (b : B)
    → (o then? f) ≡ some b
    → (a : A) × (o ≡ some a) × (f a ≡ some b)
then?_elim none f b h = cc
then?_elim (some a) f b h = (a, refl, h)

pub rank_injective : (a b : OplType) → (rank a == rank b) ≡ true → a ≡ b
rank_injective a b h = ground arith

pub pop_type_elim : (t : OplType) (s r : List OplType) → pop_type t s ≡ some r → s ≡ t ∷ r
unfolding pop_type
pop_type_elim t [] r h = cc
pop_type_elim t (x ∷ s) r h = elim (Bool-cases (rank x == rank t)) [
  | inl e ↦ let same = rank_injective x t e in let h' : some s ≡ some r = rw e at h in cc
  | inr e ↦ let h' : none ≡ some r = rw e at h in cc
]

pub some_injective : (x y : List OplType) → some x ≡ some y → x ≡ y
some_injective x y h = cc

pub guard_elim :
    (b : Bool) (x y : List OplType) → (if b then some x else none) ≡ some y → (b ≡ true) × (x ≡ y)
guard_elim true x y h = (refl, cc)
guard_elim false x y h = cc

LeavesWith-split :
    {A B : Type 0} {S : Type 0} (E : LeaveCode → Type 0) (F : Type 0) (Q : S → Type 0)
    (P : B → Type 0) (o : Outcome A) (f : A → S → Outcome B)
    → LeavesWith E (λ a. F) o
    → ((s : S) → Q s → Leaves P (o >>= λ a. f a s))
    → LeavesWith E (λ a. F × ((s : S) → Q s → Leaves P (f a s))) o
LeavesWith-split E F Q P (ok a) f h k = (h, k)
LeavesWith-split E F Q P (leave e) f h k = h
LeavesWith-split E F Q P (panic p) f h k = h
LeavesWith-split E F Q P spent f h k = h

-- A cast between a text and a number
abbrev pub is_mismatch : {R : Type 0} → Pcode R → Bool
is_mismatch (cast a b) =
    if rank a == rank string
    then (if rank b == rank string then false else true)
    else rank b == rank string
is_mismatch p = false

abbrev pub has_mismatch : {R : Type 0} → List (Pcode R) → Bool
has_mismatch [] = false
has_mismatch (p ∷ ps) = is_mismatch p || has_mismatch ps

-- The code of a type mismatch, where there is one.
abbrev pub MismatchIf : Bool → LeaveCode → Type 0
MismatchIf b e = (e ≡ type_mismatch) × (b ≡ true)

cast_qcode-LeavesWith :
    (R : Type 0) (a b : OplType)
    → LeavesWith
        (MismatchIf (is_mismatch {R = R} (cast a b)))
        (λ (qs : List (Qcode R)). is_mismatch {R = R} (cast a b) ≡ false)
        (cast_qcode a b)
unfolding cast_qcode
cast_qcode-LeavesWith R a b = ground arith

pub operator_qcode-Returns :
    (R : Type 0) (t : OplType) (op : Operator)
    → Returns (λ (qs : List (Qcode R)). Unit) (operator_qcode t op)
unfolding operator_qcode
operator_qcode-Returns R t op = ground arith

pub qcode-LeavesWith :
    {R : Type 0} (p : Pcode R)
    → LeavesWith
        (MismatchIf (is_mismatch p))
        (λ (qs : List (Qcode R)). is_mismatch p ≡ false)
        (qcode p)
unfolding qcode
qcode-LeavesWith (push_constant c) = refl
qcode-LeavesWith {R = R} (cast a b) = cast_qcode-LeavesWith R a b
qcode-LeavesWith {R = R} (apply t r a op) =
    let none : LeaveCode → Type 0 = MismatchIf false in
    LeavesWith-weaken none none (operator_qcode t op) (λ e h. h) (λ (qs : List (Qcode R)) u. refl)
      (Returns-LeavesWith (λ (qs : List (Qcode R)). Unit) none (operator_qcode t op)
        (operator_qcode-Returns R t op))

abbrev pub Short : {R : Type 0} → Pcode R → Type 0
Short (push_constant c) = ShortText c
Short p = Unit

ShortTexts-split :
    {R : Type 0} (p : Pcode R) (ps : List (Pcode R)) → ShortTexts (p ∷ ps) → Short p × ShortTexts ps
ShortTexts-split (push_constant c) ps h = h
ShortTexts-split (cast a b) ps h = (tt, h)
ShortTexts-split (apply t r a op) ps h = (tt, h)

module _ (m : Platform) (rest : ℕ → Stack m.R → Outcome (Stack m.R)) where
  apply-Typed :
      (a : Arity) (op : Operator) (t r : OplType) (ts ts' : List OplType) (s : Stack m.R)
      → signature op a t ≡ some r
      → pop_operands a t ts ≡ some ts'
      → Typed ts s
      → Leaves (Typed (r ∷ ts')) (operator_qcode t op >>= λ qs. run m rest qs s)
  apply-Typed unary op t r ts ts' s sig pops h =
      let typed =
        subst
          (λ o. TypedResult m rest o (t ∷ []) (λ s. operator_qcode t op >>= λ qs. run m rest qs s))
          sig (apply_unary-Typed m rest op t) in
      typed ts' s (subst (λ ts. Typed ts s) (pop_type_elim t ts ts' pops) h)
  apply-Typed binary op t r ts ts' s sig pops h =
      let typed =
        subst
          (λ o.
            TypedResult m rest o (t ∷ t ∷ []) (λ s. operator_qcode t op >>= λ qs. run m rest qs s))
          sig (apply_binary-Typed m rest op t) in
      let (ts₁, e, e') = then?_elim (pop_type t ts) (pop_type t) ts' pops in
      let shape = pop_type_elim t ts ts₁ e ∙ ap (λ x. t ∷ x) (pop_type_elim t ts₁ ts' e') in
      typed ts' s (subst (λ ts. Typed ts s) shape h)

  -- One instruction of parse code
  instruction-Typed :
      (p : Pcode m.R) (ts ts' : List OplType) (s : Stack m.R)
      → check_instruction p ts ≡ some ts'
      → Short p
      → Typed ts s
      → Leaves (Typed ts') (qcode p >>= λ qs. run m rest qs s)
  unfolding qcode check_instruction
  instruction-Typed (push_constant c) ts ts' s e short_c h =
      let shape : type_of c ∷ ts ≡ ts' = cc in
      subst (λ ts'. Leaves (Typed ts') (run m rest (constant_qcode c) s)) shape
        (constant-Typed m rest c ts s short_c h)
  instruction-Typed (cast a b) ts ts' s e short_c h =
      let (ts₁, e₁, e₂) = then?_elim (pop_type a ts) (λ rest. some (b ∷ rest)) ts' e in
      let shape : b ∷ ts₁ ≡ ts' = cc in
      subst (λ ts'. Leaves (Typed ts') (cast_qcode a b >>= λ qs. run m rest qs s)) shape
        (cast-Typed m rest a b ts₁ s (subst (λ ts. Typed ts s) (pop_type_elim a ts ts₁ e₁) h))
  instruction-Typed (apply t r arity op) ts ts' s e short_c h =
      let (r', e₁, e₂) = then?_elim (signature op arity t) _ ts' e in
      let (ts₁, e₃, e₄) = then?_elim (pop_operands arity t ts) _ ts' e₂ in
      let (same, shape) = guard_elim (rank r' == rank r) (r ∷ ts₁) ts' e₄ in
      subst (λ ts'. Leaves (Typed ts') (operator_qcode t op >>= λ qs. run m rest qs s)) shape
        (subst (λ r. Leaves (Typed (r ∷ ts₁)) (operator_qcode t op >>= λ qs. run m rest qs s))
          (rank_injective r' r same) (apply-Typed arity op t r' ts ts₁ s e₁ e₃ h))

  run-append :
      (a b : List (Qcode m.R)) (s : Stack m.R)
      → run m rest (a ++ b) s ≡ (run m rest a s >>= run m rest b)
  unfolding run
  run-append [] b s = refl
  run-append (q ∷ a) b s =
      bind_assoc (step m rest q s) (run m rest a) (run m rest b) (run-append a b)

  -- Parse code that is well typed on a stack's types is left at a type mismatch if it has a cast
  -- between a text and a number, and is converted if it has none; and the qcode, run on any stack
  -- of those types, gives a stack of the types that the check of the code gives, or leaves with an
  -- error. It never panics on the stack's types or its end, and no opcode is reached that an
  -- expression does not have. The texts in the code are not too long.
  pub convert-Typed :
      (code : List (Pcode m.R)) (ts ts' : List OplType)
      → check code ts ≡ some ts'
      → ShortTexts code
      → LeavesWith
          (MismatchIf (has_mismatch code))
          (λ qs.
            (has_mismatch code ≡ false)
            × ((s : Stack m.R) → Typed ts s → Leaves (Typed ts') (run m rest qs s)))
          (convert code)
  unfolding convert check run
  convert-Typed [] ts ts' e short_c =
      (refl, λ s h. subst (λ ts'. Typed ts' s) (some_injective ts ts' e) h)
  convert-Typed (p ∷ ps) ts ts' e short_c =
      let (ts₁, e₁, e₂) = then?_elim (check_instruction p ts) (check ps) ts' e in
      let (short_p, short_ps) = ShortTexts-split p ps short_c in
      let all = MismatchIf (is_mismatch p || has_mismatch ps) in
      LeavesWith-bind (MismatchIf (is_mismatch p)) all _ (qcode p) _ (λ c h. (h.0, rw (h.1) refl))
        (LeavesWith-split (MismatchIf (is_mismatch p)) (is_mismatch p ≡ false) (Typed ts)
          (Typed ts₁) (qcode p) (run m rest) (qcode-LeavesWith p)
          (λ s h. instruction-Typed p ts ts₁ s e₁ short_p h))
        λ q typed_q.
          LeavesWith-bind (MismatchIf (has_mismatch ps)) all _ (convert ps) _
            (λ c h. (h.0, rw (typed_q.0) (h.1))) (convert-Typed ps ts₁ ts' e₂ short_ps)
            λ qs typed_qs. (
              rw (typed_q.0) (typed_qs.0),
              λ s h. subst (Leaves (Typed ts')) (sym (run-append q qs s)) (
                  Leaves-bind (Typed ts') (run m rest q s) (run m rest qs) (typed_q.1 s h)
                    (typed_qs.1)),
            )
