-- ===== src/Translator/Expr/Percent.antt =====
-- oplt/stran/OT_EXPR.CPP, OutputOperatorL: a percent operator whose operands are texts.
use opl_dev.Prelude.{List, [], ◌∷◌, ◌++◌, ◌≡◌, refl, ◌∙◌, true, Option, none, some, arith}
use opl_dev.Prelude.Outcome.{ok}
use opl_dev.Translator.Token.{OplType, string, real, Operator}
use opl_dev.Translator.Pcode.{Pcode, apply, binary}
use opl_dev.Translator.Expr.{StackedOperator, output_percent, promote}
use opl_dev.Translator.Expr.Typing.{signature, check, check_instruction, check-append, ◌then?◌}
use opl_dev.Translator.Expr.Output.{is_percent}

no_signature : (op : Operator) → is_percent op ≡ true → signature op binary string ≡ none
unfolding signature
no_signature op h = ground arith

then?_none :
    {A B : Type 0} (o : Option A) (f : A → Option B) → ((a : A) → f a ≡ none) → (o then? f) ≡ none
then?_none none f h = refl
then?_none (some a) f h = h a

refused :
    {R : Type 0} (code : List (Pcode R)) (op : Operator)
    → is_percent op ≡ true
    → (s : List OplType) → check (code ++ apply string real binary op ∷ []) s ≡ none
unfolding check check_instruction
refused {R = R} code op h s =
    check-append code (apply string real binary op ∷ []) s
    ∙ then?_none (check code s) (check {R = R} (apply string real binary op ∷ []))
        λ a. rw (no_signature op h) refl

-- A percent operator over a text on its right is not refused: it is put out, as if its result
-- were a float, in code that the check of the types refuses on every stack.
pub output_percent-string :
    {R : Type 0} (e : StackedOperator) (code : List (Pcode R))
    → is_percent e.operator ≡ true
    → (code' : List (Pcode R)) × (output_percent e string code ≡ ok (real, code'))
      × ((s : List OplType) → check code' s ≡ none)
unfolding output_percent promote
output_percent-string e code h = (_, refl, λ s. refused _ e.operator h s)
