-- ===== src/Translator/Emit/Depth.antt =====
-- oplt/stran/OPL16GEN.CPP: the depth of the runtime's stack that the converter counts, against the
-- types of the values that are on it.
use mathlib.Core.Path.{subst}
use opl_dev.Prelude.{
  ℕ, ◌+◌, ◌-◌, ◌%◌, ◌^◌, ◌<◌, ◌≤◌, List, [], ◌∷◌, ◌≡◌, ◌⊎◌, inl, inr, refl, sym, ap, ◌∙◌, some,
  length, ltb, ◌==◌, if◌then◌else◌, arith,
}
use opl_dev.Prelude.Outcome.{
  LeaveCode, ok, leave, LeavesWith, LeavesWith-bind, LeavesWith-if, LeavesWith-weaken,
  Returns-LeavesWith, type_mismatch, bad_string_length, error_found,
}
use opl_dev.Translator.Token.{OplType, word, long, real, string, u_word, rank, type_of, Operator}
use opl_dev.Translator.Pcode.{Pcode, push_constant, cast, apply, Arity, unary, binary}
use opl_dev.Translator.Codegen.{
  Qcode, code, constant_int, constant_long, constant_float, constant_string, stack_byte_as_word,
  stack_byte_as_long, stack_word_as_long, qcode, cast_qcode, operator_qcode,
}
use opl_dev.Translator.Expr.Typing.{check_instruction, pop_type, pop_operands, signature}
use opl_dev.Translator.Emit.{text_bytes, Converter, add_to_stack, remove_from_stack, size_on_stack}
use opl_dev.Translator.Emit.Convert.{account, qcode_bytes, qcodes_bytes}
use opl_dev.Runtime.Pipeline.{operator_qcode-Returns, then?_elim, pop_type_elim, guard_elim}

-- The bytes that values of these types take.
abbrev pub sizes : List OplType → ℕ
sizes [] = 0
sizes (t ∷ ts) = size_on_stack t + sizes ts

abbrev pub max_of : ℕ → ℕ → ℕ
max_of a b = if ltb a b then b else a

-- The depth is that of the types, and the greatest depth is at least that.
abbrev pub Counts : List OplType → ℕ → Converter → Type 0
Counts ts m e = (e.stack_depth ≡ sizes ts) × (e.max_stack_depth ≡ m)

cast-sizes :
    (R : Type 0) (a b : OplType)
    → ((cast_qcode {R = R} a b ≡ ok []) × (size_on_stack a ≡ size_on_stack b))
      ⊎ (((n : ℕ) × (cast_qcode {R = R} a b ≡ ok (code n ∷ [])))
          ⊎ (cast_qcode {R = R} a b ≡ leave type_mismatch))
unfolding cast_qcode
cast-sizes R word word = inl (refl, refl)
cast-sizes R word u_word = inl (refl, refl)
cast-sizes R long long = inl (refl, refl)
cast-sizes R real real = inl (refl, refl)
cast-sizes R string string = inl (refl, refl)
cast-sizes R u_word word = inl (refl, refl)
cast-sizes R u_word u_word = inl (refl, refl)
cast-sizes R word long = inr (inl (_, refl))
cast-sizes R word real = inr (inl (_, refl))
cast-sizes R word string = inr (inr refl)
cast-sizes R long word = inr (inl (_, refl))
cast-sizes R long real = inr (inl (_, refl))
cast-sizes R long string = inr (inr refl)
cast-sizes R long u_word = inr (inl (_, refl))
cast-sizes R real word = inr (inl (_, refl))
cast-sizes R real long = inr (inl (_, refl))
cast-sizes R real string = inr (inr refl)
cast-sizes R real u_word = inr (inl (_, refl))
cast-sizes R string word = inr (inr refl)
cast-sizes R string long = inr (inr refl)
cast-sizes R string real = inr (inr refl)
cast-sizes R string u_word = inr (inr refl)
cast-sizes R u_word long = inr (inl (_, refl))
cast-sizes R u_word real = inr (inl (_, refl))
cast-sizes R u_word string = inr (inr refl)

pub size_small : (t : OplType) → size_on_stack t ≤ 8
size_small t = ground arith

taken : (a b : ℕ) → a + b < 2 ^ 32 → (a + b + 2 ^ 32 - a) % 2 ^ 32 ≡ b
taken a b h = omega (arith, h)

given : (a b : ℕ) → b + a < 2 ^ 32 → (b + a) % 2 ^ 32 ≡ a + b
given a b h = omega (arith, h)

pub max_of_same : (a b : ℕ) → a ≤ b → max_of b a ≡ b
max_of_same a b h = ground arith

-- The converter takes a value off the stack, or puts one on it.
pub remove-Counts :
    (t : OplType) (ts : List OplType) (m : ℕ) (e : Converter)
    → Counts (t ∷ ts) m e
    → sizes (t ∷ ts) < 2 ^ 32
    → Counts ts m (remove_from_stack t e)
remove-Counts t ts m e (d, x) h =
    (ap (λ n. (n + 2 ^ 32 - size_on_stack t) % 2 ^ 32) d ∙ taken (size_on_stack t) (sizes ts) h, x)

pub add-Counts :
    (t : OplType) (ts : List OplType) (m : ℕ) (e : Converter)
    → Counts ts m e
    → sizes (t ∷ ts) < 2 ^ 32
    → Counts (t ∷ ts) (max_of m (sizes (t ∷ ts))) (add_to_stack t e)
add-Counts t ts m e (d, x) h =
    let depth : (e.stack_depth + size_on_stack t) % 2 ^ 32 ≡ sizes (t ∷ ts) =
      ap (λ n. (n + size_on_stack t) % 2 ^ 32) d
      ∙ given (size_on_stack t) (sizes ts) (omega (arith, h)) in
    (depth, rw (depth, x))

-- What the conversion of an expression leaves with: a cast between a text and a number, a text of
-- more than 255 units, or the place in the code that is looked for.
abbrev pub Faults : LeaveCode → Type 0
Faults e = (e ≡ type_mismatch) ⊎ ((e ≡ bad_string_length) ⊎ (e ≡ error_found))

pub any_fault : (e : LeaveCode) → Faults e → Faults e
any_fault e h = h

cast-Counts :
    (R : Type 0) (a b : OplType) (ts : List OplType) (m : ℕ) (e : Converter)
    → Counts (a ∷ ts) m e
    → sizes (a ∷ ts) ≤ m
    → sizes (a ∷ ts) < 2 ^ 32
    → sizes (b ∷ ts) < 2 ^ 32
    → LeavesWith Faults
        (λ (qs : List (Qcode R)).
          Counts (b ∷ ts) (max_of m (sizes (b ∷ ts))) (account (cast a b) qs e))
        (cast_qcode a b)
unfolding account
cast-Counts R a b ts m e (d, x) le h h' = elim (cast-sizes R a b) [
  | inl (q, same) ↦
      rw q (d ∙ ap (λ n. n + sizes ts) same, x ∙ sym (max_of_same _ m (rw (sym same) le)))
  | inr (inl (n, q)) ↦
      rw q (add-Counts b ts m (remove_from_stack a e) (remove-Counts a ts m e (d, x) h) h')
  | inr (inr q) ↦ rw q (inl refl)
]

operator-Counts :
    (t r : OplType) (arity : Arity) (ts ts' : List OplType) (m : ℕ) (e : Converter) {R : Type 0}
    (op : Operator) (qs : List (Qcode R))
    → pop_operands arity t ts ≡ some ts'
    → Counts ts m e
    → sizes ts < 2 ^ 32
    → sizes (r ∷ ts') < 2 ^ 32
    → Counts (r ∷ ts') (max_of m (sizes (r ∷ ts'))) (account (apply t r arity op) qs e)
unfolding account
operator-Counts t r unary ts ts' m e op qs pops c h h' =
    let shape = pop_type_elim t ts ts' pops in
    add-Counts r ts' m (remove_from_stack t e)
      (remove-Counts t ts' m e (subst (λ ts. Counts ts m e) shape c)
        (subst (λ ts. sizes ts < 2 ^ 32) shape h))
      h'
operator-Counts t r binary ts ts' m e op qs pops c h h' =
    let (ts₁, e₁, e₂) = then?_elim (pop_type t ts) (pop_type t) ts' pops in
    let shape = pop_type_elim t ts ts₁ e₁ in
    let shape' = pop_type_elim t ts₁ ts' e₂ in
    let h₁ : sizes (t ∷ ts₁) < 2 ^ 32 = subst (λ ts. sizes ts < 2 ^ 32) shape h in
    let h₂ : sizes (t ∷ t ∷ ts') < 2 ^ 32 = subst (λ ts. sizes (t ∷ ts) < 2 ^ 32) shape' h₁ in
    let c₁ = remove-Counts t ts₁ m e (subst (λ ts. Counts ts m e) shape c) h₁ in
    let c₂ = subst (λ ts. Counts ts m (remove_from_stack t e)) shape' c₁ in
    add-Counts r ts' m (remove_from_stack t (remove_from_stack t e))
      (remove-Counts t ts' m (remove_from_stack t e) c₂ (omega (arith, h₂))) h'

pop_operands-sizes :
    (arity : Arity) (t : OplType) (ts ts' : List OplType)
    → pop_operands arity t ts ≡ some ts'
    → sizes ts' ≤ sizes ts
pop_operands-sizes unary t ts ts' pops =
    let same : sizes ts ≡ size_on_stack t + sizes ts' = ap sizes (pop_type_elim t ts ts' pops) in
    omega (arith, same)
pop_operands-sizes binary t ts ts' pops =
    let (ts₁, e₁, e₂) = then?_elim (pop_type t ts) (pop_type t) ts' pops in
    let same : sizes ts ≡ size_on_stack t + sizes ts₁ = ap sizes (pop_type_elim t ts ts₁ e₁) in
    let same' : sizes ts₁ ≡ size_on_stack t + sizes ts' = ap sizes (pop_type_elim t ts₁ ts' e₂) in
    omega (arith, same, same')

-- The types behind an instruction, with what it counts
pub instruction-Counts :
    {R : Type 0} (p : Pcode R) (ts ts' : List OplType) (m : ℕ) (e : Converter)
    → check_instruction p ts ≡ some ts'
    → Counts ts m e
    → sizes ts ≤ m
    → sizes ts + 8 < 2 ^ 32
    → LeavesWith Faults
        (λ (qs : List (Qcode R)). Counts ts' (max_of m (sizes ts')) (account p qs e))
        (qcode p)
unfolding check_instruction qcode account
instruction-Counts (push_constant c) ts ts' m e ch cs le h =
    let shape : type_of c ∷ ts ≡ ts' = cc in
    subst (λ ts'. Counts ts' (max_of m (sizes ts')) (account (push_constant c) [] e)) shape
      (add-Counts (type_of c) ts m e cs (omega (arith, h, size_small (type_of c))))
instruction-Counts {R = R} (cast a b) ts ts' m e ch cs le h =
    let (ts₁, e₁, e₂) = then?_elim (pop_type a ts) (λ rest. some (b ∷ rest)) ts' ch in
    let shape : b ∷ ts₁ ≡ ts' = cc in
    let was = pop_type_elim a ts ts₁ e₁ in
    let same : sizes ts ≡ size_on_stack a + sizes ts₁ = ap sizes was in
    subst
      (λ ts'.
        LeavesWith Faults
          (λ (qs : List (Qcode R)). Counts ts' (max_of m (sizes ts')) (account (cast a b) qs e))
          (cast_qcode a b))
      shape
      (cast-Counts R a b ts₁ m e (subst (λ ts. Counts ts m e) was cs) (omega (arith, le, same))
        (omega (arith, h, same)) (omega (arith, h, same, size_small b)))
instruction-Counts {R = R} (apply t r arity op) ts ts' m e ch cs le h =
    let (r', e₁, e₂) = then?_elim (signature op arity t) _ ts' ch in
    let (ts₁, e₃, e₄) = then?_elim (pop_operands arity t ts) _ ts' e₂ in
    let (same, shape) = guard_elim (rank r' == rank r) (r ∷ ts₁) ts' e₄ in
    let left = pop_operands-sizes arity t ts ts₁ e₃ in
    subst
      (λ ts'.
        LeavesWith Faults
          (λ (qs : List (Qcode R)).
            Counts ts' (max_of m (sizes ts')) (account (apply t r arity op) qs e))
          (operator_qcode t op))
      shape
      (LeavesWith-weaken Faults Faults (operator_qcode t op) any_fault
        (λ (qs : List (Qcode R)) u.
          operator-Counts t r arity ts ts₁ m e op qs e₃ cs (omega (arith, h))
            (omega (arith, h, left, size_small r)))
        (Returns-LeavesWith (λ (qs : List (Qcode R)). Unit) Faults (operator_qcode t op)
          (operator_qcode-Returns R t op)))

pub max_of_least : (a b : ℕ) → b ≤ max_of a b
max_of_least a b = ground arith

pub check-sizes :
    {R : Type 0} (p : Pcode R) (ts ts' : List OplType)
    → check_instruction p ts ≡ some ts'
    → sizes ts' ≤ sizes ts + 8
unfolding check_instruction
check-sizes (push_constant c) ts ts' ch =
    let shape : type_of c ∷ ts ≡ ts' = cc in
    subst (λ ts'. sizes ts' ≤ sizes ts + 8) shape (omega (arith, size_small (type_of c)))
check-sizes (cast a b) ts ts' ch =
    let (ts₁, e₁, e₂) = then?_elim (pop_type a ts) (λ rest. some (b ∷ rest)) ts' ch in
    let shape : b ∷ ts₁ ≡ ts' = cc in
    let same : sizes ts ≡ size_on_stack a + sizes ts₁ = ap sizes (pop_type_elim a ts ts₁ e₁) in
    subst (λ ts'. sizes ts' ≤ sizes ts + 8) shape (omega (arith, size_small b, same))
check-sizes (apply t r arity op) ts ts' ch =
    let (r', e₁, e₂) = then?_elim (signature op arity t) _ ts' ch in
    let (ts₁, e₃, e₄) = then?_elim (pop_operands arity t ts) _ ts' e₂ in
    let (same, shape) = guard_elim (rank r' == rank r) (r ∷ ts₁) ts' e₄ in
    subst (λ ts'. sizes ts' ≤ sizes ts + 8) shape
      (omega (arith, size_small r, pop_operands-sizes arity t ts ts₁ e₃))

module _ {R : Type 0} (real_bytes : R → List ℕ) where
  pub text_bytes-leaves : (t : List ℕ) → LeavesWith Faults (λ bs. Unit) (text_bytes t)
  unfolding text_bytes
  text_bytes-leaves t = LeavesWith-if Faults _ (ltb 255 (length t)) _ _ (inr (inl refl)) tt

  qcode_bytes-leaves : (q : Qcode R) → LeavesWith Faults (λ bs. Unit) (qcode_bytes real_bytes q)
  unfolding qcode_bytes
  qcode_bytes-leaves (code n) = tt
  qcode_bytes-leaves (constant_int v) = tt
  qcode_bytes-leaves (constant_long v) = tt
  qcode_bytes-leaves (constant_float x) = tt
  qcode_bytes-leaves (constant_string t) =
      LeavesWith-bind Faults Faults _ (text_bytes t) _ any_fault (text_bytes-leaves t) λ bs u. tt
  qcode_bytes-leaves (stack_byte_as_word v) = tt
  qcode_bytes-leaves (stack_byte_as_long v) = tt
  qcode_bytes-leaves (stack_word_as_long v) = tt

  pub qcodes_bytes-leaves :
      (qs : List (Qcode R)) → LeavesWith Faults (λ bs. Unit) (qcodes_bytes real_bytes qs)
  unfolding qcodes_bytes
  qcodes_bytes-leaves [] = tt
  qcodes_bytes-leaves (q ∷ qs) =
      LeavesWith-bind Faults Faults _ (qcode_bytes real_bytes q) _ any_fault (qcode_bytes-leaves q)
        λ bs u.
          LeavesWith-bind Faults Faults _ (qcodes_bytes real_bytes qs) _ any_fault
            (qcodes_bytes-leaves qs) λ rest u. tt
