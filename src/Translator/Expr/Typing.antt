-- ===== src/Translator/Expr/Typing.antt =====
-- What well-typed parse code is, described from the runtime's side and independently of the
-- parser: `check` runs the instructions over the types of the values on the runtime's stack.
-- Each operator has the types that oplr/src/EN_ARITH.CPP, EN_CMP.CPP and LB_MATHS.CPP give it.
use opl_dev.Prelude.{
  List, [], ◌∷◌, ◌++◌, ◌≡◌, refl, Bool, true, false, Option, none, some, ◌==◌, arith, if◌then◌else◌,
}
use opl_dev.Translator.Token.{OplType, word, long, real, u_word, rank, Operator, Constant, type_of}
use opl_dev.Translator.Pcode.{Pcode, push_constant, cast, apply, Arity, unary, binary}

-- The types of values.
abbrev pub is_value : OplType → Bool
is_value u_word = false
is_value t = true

abbrev pub is_number : OplType → Bool
is_number word = true
is_number long = true
is_number real = true
is_number t = false

-- Logic over reals gives a word.
abbrev pub logic_result : OplType → Option OplType
logic_result word = some word
logic_result long = some long
logic_result real = some word
logic_result t = none

-- The result type of an operator over operands of one type, where the runtime has it.
unfoldable pub signature : Operator → Arity → OplType → Option OplType
signature Operator.less_than binary t = if is_value t then some word else none
signature Operator.less_than_eq binary t = if is_value t then some word else none
signature Operator.greater_than binary t = if is_value t then some word else none
signature Operator.greater_than_eq binary t = if is_value t then some word else none
signature Operator.equal binary t = if is_value t then some word else none
signature Operator.not_equal binary t = if is_value t then some word else none
signature Operator.plus binary t = if is_value t then some t else none
signature Operator.minus binary t = if is_number t then some t else none
signature Operator.multiply binary t = if is_number t then some t else none
signature Operator.divide binary t = if is_number t then some t else none
signature Operator.power binary t = if is_number t then some t else none
signature Operator.and binary t = logic_result t
signature Operator.or binary t = logic_result t
signature Operator.not unary t = logic_result t
signature Operator.unary_minus unary t = if is_number t then some t else none
signature Operator.close_bracket unary t = if is_value t then some t else none
signature Operator.perc_less binary real = some real
signature Operator.perc_greater binary real = some real
signature Operator.perc_plus binary real = some real
signature Operator.perc_minus binary real = some real
signature Operator.perc_multiply binary real = some real
signature Operator.perc_divide binary real = some real
signature _ _ _ = none

-- Takes a value of type `t` off the stack.
unfoldable pub pop_type : OplType → List OplType → Option (List OplType)
pop_type t [] = none
pop_type t (x ∷ s) = if rank x == rank t then some s else none

infixl 5 ◌then?◌
abbrev pub ◌then?◌ : {A B : Type 0} → Option A → (A → Option B) → Option B
none then? f = none
some a then? f = f a

abbrev pub pop_operands : Arity → OplType → List OplType → Option (List OplType)
pop_operands unary t s = pop_type t s
pop_operands binary t s = pop_type t s then? pop_type t

then?_split :
    {A B C : Type 0} (o : Option A) {f : A → Option C} (g : A → Option B) (h : B → Option C)
    → ((a : A) → f a ≡ (g a then? h))
    → (o then? f) ≡ ((o then? g) then? h)
then?_split none g h e = refl
then?_split (some a) g h e = e a

rank_refl : (t : OplType) → (rank t == rank t) ≡ true
rank_refl t = ground arith

pop_type_self : (t : OplType) (s : List OplType) → pop_type t (t ∷ s) ≡ some s
unfolding pop_type
pop_type_self t s = rw (rank_refl t)

module _ {R : Type 0} where
  unfoldable pub check_instruction : Pcode R → List OplType → Option (List OplType)
  check_instruction (push_constant c) s = some (type_of c ∷ s)
  check_instruction (cast from to) s = pop_type from s then? λ rest. some (to ∷ rest)
  check_instruction (apply t result arity op) s = signature op arity t then? λ expected.
      pop_operands arity t s then? λ rest.
      if rank expected == rank result then some (result ∷ rest) else none

  unfoldable pub check : List (Pcode R) → List OplType → Option (List OplType)
  check [] s = some s
  check (i ∷ is) s = check_instruction i s then? check is

  -- The code leaves one more value, of the given type, on any stack.
  abbrev pub Pushes : List (Pcode R) → OplType → Type 0
  Pushes code t = (s : List OplType) → check code s ≡ some (t ∷ s)

  pub check-append :
      (a b : List (Pcode R)) (s : List OplType) → check (a ++ b) s ≡ (check a s then? check b)
  unfolding check
  check-append [] b s = refl
  check-append (i ∷ is) b s =
      then?_split (check_instruction i s) (check is) (check b) (check-append is b)

  pub Pushes-push_constant : (c : Constant R) → Pushes (push_constant c ∷ []) (type_of c)
  unfolding check check_instruction
  Pushes-push_constant c s = refl

  pub Pushes-cast :
      (code : List (Pcode R)) (a b : OplType) → Pushes code a → Pushes (code ++ cast a b ∷ []) b
  unfolding check check_instruction
  Pushes-cast code a b h s = rw (check-append, h s, ◌then?◌, pop_type_self)

  pub Pushes-unary :
      (code : List (Pcode R)) (t r : OplType) (op : Operator)
      → Pushes code t
      → signature op unary t ≡ some r
      → Pushes (code ++ apply t r unary op ∷ []) r
  unfolding check check_instruction
  Pushes-unary code t r op h e s =
      rw (check-append, h s, ◌then?◌, e, ◌then?◌, pop_type_self, ◌then?◌, rank_refl)

  pub Pushes-binary :
      (a b : List (Pcode R)) (t r : OplType) (op : Operator)
      → Pushes a t
      → Pushes b t
      → signature op binary t ≡ some r
      → Pushes ((a ++ b) ++ apply t r binary op ∷ []) r
  unfolding check check_instruction
  Pushes-binary a b t r op ha hb e s =
      simp (check-append, ha s, hb (t ∷ s), e, pop_type_self, rank_refl)
