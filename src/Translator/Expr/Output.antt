-- ===== src/Translator/Expr/Output.antt =====
-- oplt/stran/OT_EXPR.CPP, PromoteL and OutputOperatorL: the code that an operator is put out
-- behind stays well typed.
use mathlib.Core.List.{append_assoc, append-nil}
use opl_dev.Prelude.{
  List, [], ◌∷◌, ◌++◌, ◌≡◌, refl, Bool, true, false, ◌&&◌, ◌||◌, some, length, insert_at-length,
  leb, ltb, ◌==◌, if◌then◌else◌, Bool-cases, inl, inr, arith,
}
use opl_dev.Prelude.Outcome.{ok, leave, Leaves, type_mismatch}
use opl_dev.Translator.Token.{OplType, word, real, string, u_word, rank, Operator, number}
use opl_dev.Translator.Pcode.{Pcode, cast, apply, unary, binary}
use opl_dev.Translator.Expr.{
  StackedOperator, is_oper, promote, output_unary, output_percent, output_binary, binary_result,
  output,
}
use opl_dev.Translator.Expr.Table.Facts.{is_infix, is_sign}
use opl_dev.Translator.Expr.Typing.{signature, Pushes, Pushes-cast, Pushes-unary, Pushes-binary}

-- The types of operands, where texts are among the operands or are not.
abbrev pub is_operand : Bool → OplType → Bool
is_operand strings u_word = false
is_operand strings string = strings
is_operand strings t = true

abbrev pub is_percent : Operator → Bool
is_percent op = leb 20 (number op)

abbrev larger : OplType → OplType → OplType
larger a b = if leb (rank b) (rank a) then a else b

signature_sign :
    (op : Operator) (t : OplType)
    → is_sign op ≡ true
    → is_operand true t ≡ true
    → (rank t == rank string) ≡ false
    → signature op unary t
      ≡ some (if is_oper op Operator.not && rank t == rank real then word else t)
unfolding signature
signature_sign op t s o n = ground arith

signature_infix :
    (op : Operator) (t : OplType)
    → is_infix op ≡ true
    → is_operand true t ≡ true
    → (rank t == rank string && ltb (number Operator.plus) (number op)) ≡ false
    → signature op binary t ≡ some (binary_result op t)
unfolding signature binary_result
signature_infix op t s o n = ground arith

sign_test :
    (op : Operator)
    → is_sign op ≡ true
    → (is_oper op Operator.unary_minus || is_oper op Operator.not) ≡ true
sign_test op h = ground arith

abbrev in_percents : Operator → Bool
in_percents op = leb (number Operator.perc_less) (number op) && leb (number op) 25

percent_test :
    (op : Operator)
    → is_percent op ≡ true
    → ((is_oper op Operator.unary_minus || is_oper op Operator.not) ≡ false)
      × (in_percents op ≡ true)
percent_test op h = ground arith

infix_test :
    (op : Operator)
    → is_infix op ≡ true
    → ((is_oper op Operator.unary_minus || is_oper op Operator.not) ≡ false)
      × (in_percents op ≡ false)
infix_test op h = ground arith

larger_real : (a : OplType) → is_operand false a ≡ true → larger a real ≡ real
larger_real a h = ground arith

signature_percent : (op : Operator) → is_percent op ≡ true → signature op binary real ≡ some real
unfolding signature
signature_percent op h = ground arith

larger-larger : (a b : OplType) → larger b (larger a b) ≡ larger a b
larger-larger a b = ground arith

module _ {R : Type 0} where
  -- The code is `base` and, behind it, code for one value of the type.
  abbrev pub Grown : Bool → List (Pcode R) → OplType × List (Pcode R) → Type 0
  Grown strings base r =
      (seg : List (Pcode R)) × (r.1 ≡ base ++ seg)
      × Pushes seg r.0
      × (is_operand strings r.0 ≡ true)

  promote-larger :
      (base sa sb : List (Pcode R)) (a b : OplType)
      → Pushes sa a
      → (sa' : List (Pcode R)) × (promote a b (length (base ++ sa)) ((base ++ sa) ++ sb)
          ≡ (larger a b, (base ++ sa') ++ sb))
        × Pushes sa' (larger a b)
  unfolding promote
  promote-larger base sa sb a b h = elim (Bool-cases (leb (rank b) (rank a))) [
    | inl e ↦ (sa, rw e refl, rw e h)
    | inr e ↦ (
      sa ++ cast a b ∷ [],
      (let ne : (rank a == rank b) ≡ false = ground arith in
          rw (e, ne, insert_at-length) (simp append_assoc)),
      rw e (Pushes-cast sa a b h),
    )
  ]

  pub output_unary-Grown :
      (base seg : List (Pcode R)) (strings : Bool) (op : Operator) (t : OplType)
      → is_sign op ≡ true
      → Pushes seg t
      → is_operand strings t ≡ true
      → Leaves (Grown strings base) (output_unary op t (base ++ seg))
  unfolding output_unary
  output_unary-Grown base seg strings op t s h o = elim (Bool-cases (rank t == rank string)) [
    | inl e ↦ rw e tt
    | inr e ↦ rw e (
      _,
      append_assoc base seg _,
      Pushes-unary seg t _ op h (signature_sign op t s (ground arith) e),
      ground arith,
    )
  ]

  -- The right side, to the type that the left side has by then.
  promote-right :
      (base sb : List (Pcode R)) (b a : OplType)
      → Pushes sb b
      → (sb' : List (Pcode R)) × (promote b a (length (base ++ sb)) (base ++ sb)
          ≡ (larger b a, base ++ sb'))
        × Pushes sb' (larger b a)
  promote-right base sb b a h =
      let (sb', e, h') = promote-larger base sb [] b a h in (sb', simp append-nil at e, h')

  binary_finish :
      (base sa sb : List (Pcode R)) (strings : Bool) (op : Operator) (t : OplType)
      → Pushes sa t
      → Pushes sb t
      → is_infix op ≡ true
      → is_operand strings t ≡ true
      → Leaves (Grown strings base) (
          if rank t == rank string && ltb (number Operator.plus) (number op)
          then leave type_mismatch
          else ok (
            binary_result op t,
            ((base ++ sa) ++ sb) ++ apply t (binary_result op t) binary op ∷ [],
          ))
  unfolding binary_result
  binary_finish base sa sb strings op t ha hb between o =
      elim (Bool-cases (rank t == rank string && ltb (number Operator.plus) (number op))) [
        | inl e ↦ rw e tt
        | inr e ↦ rw e (
          (sa ++ sb) ++ apply t (binary_result op t) binary op ∷ [],
          simp append_assoc,
          Pushes-binary sa sb t _ op ha hb (signature_infix op t between (ground arith) e),
          ground arith,
        )
      ]

  percent_finish :
      (base sa sb : List (Pcode R)) (op : Operator)
      → Pushes sa real
      → Pushes sb real
      → is_percent op ≡ true
      → Leaves
          (Grown false base)
          (ok (real, ((base ++ sa) ++ sb) ++ apply real real binary op ∷ []))
  percent_finish base sa sb op ha hb percent = (
    (sa ++ sb) ++ apply real real binary op ∷ [],
    simp append_assoc,
    Pushes-binary sa sb real real op ha hb (signature_percent op percent),
    refl,
  )

  module _ (base sa sb : List (Pcode R)) (strings : Bool) (e : StackedOperator) (b : OplType)
      (left : Pushes sa e.type) (right : Pushes sb b) (at : e.pcode_pos ≡ length (base ++ sa))
      (left_ok : is_operand strings e.type ≡ true) (right_ok : is_operand strings b ≡ true) where
    pub output_binary-Grown :
        is_infix e.operator ≡ true
        → Leaves (Grown strings base) (output_binary e b ((base ++ sa) ++ sb))
    unfolding output_binary
    output_binary-Grown between =
        let (sa', ea, ha) = promote-larger base sa sb e.type b left in
        let (sb', eb, hb) = promote-right (base ++ sa') sb b (larger e.type b) right in
        rw (at, ea, eb, larger-larger)
          (binary_finish base sa' sb' strings e.operator (larger e.type b) ha
            (simp larger-larger at hb) between (ground arith))

    pub output_percent-Grown :
        is_percent e.operator ≡ true
        → strings ≡ false
        → Leaves (Grown strings base) (output_percent e b ((base ++ sa) ++ sb))
    unfolding output_percent
    output_percent-Grown percent numeric =
        let (sa', ea, ha) = promote-larger base sa sb e.type real left in
        let (sb', eb, hb) = promote-right (base ++ sa') sb b real right in
        let la : larger e.type real ≡ real = larger_real e.type (rw numeric at left_ok) in
        let lb : larger b real ≡ real = larger_real b (rw numeric at right_ok) in
        rw (at, ea, eb, lb)
          (percent_finish base sa' sb' e.operator (rw la at ha) (rw lb at hb) percent)

  pub output-sign :
      (e : StackedOperator) (t : OplType) (code : List (Pcode R))
      → is_sign e.operator ≡ true
      → output e t code ≡ output_unary e.operator t code
  unfolding output
  output-sign e t code h = rw (sign_test e.operator h)

  pub output-percent :
      (e : StackedOperator) (t : OplType) (code : List (Pcode R))
      → is_percent e.operator ≡ true
      → output e t code ≡ output_percent e t code
  unfolding output
  output-percent e t code h = let (a, b) = percent_test e.operator h in rw (a, b)

  pub output-infix :
      (e : StackedOperator) (t : OplType) (code : List (Pcode R))
      → is_infix e.operator ≡ true
      → output e t code ≡ output_binary e t code
  unfolding output
  output-infix e t code h = let (a, b) = infix_test e.operator h in rw (a, b)
