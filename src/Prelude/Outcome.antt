-- ===== src/Prelude/Outcome.antt =====
-- What a call does under Symbian's leave mechanism: it returns, it leaves with an error code
-- (`User::Leave`), or it panics (`User::Panic`, a failed assertion, an index outside an array).
-- `spent` is none of these: it says that the model's fuel ran out.
use mathlib.Core.Path.{◌≡◌, refl, subst}
use mathlib.Core.Option.{Option, none, some}
use mathlib.Core.Bool.{Bool, true, false}
use opl_dev.Prelude.Tests.{if◌then◌else◌}

pub data LeaveCode : Type 0 where
  syntax type_mismatch mismatched_bracket : LeaveCode
  duplicate_name too_complex : LeaveCode
  no_memory invalid_args argument : LeaveCode
  overflow underflow divide_by_zero str_too_long : LeaveCode
  num_arg type_viol structure_fault missing_label missing_comma unexpected_eof : LeaveCode
  subscript end_of_stream bad_string_length error_found : LeaveCode
  bad_number missing_quote bad_suffices identifier_too_long : LeaveCode
  bad_field_name bad_logical_device bad_character : LeaveCode

pub data PanicCode : Type 0 where
  array_bounds : PanicCode
  stack_empty stack_type_mismatch bad_type : PanicCode
  align_bad_length empty_list : PanicCode
  scope_underflow no_frame converter_stack memory_access : PanicCode

pub data Outcome {ℓ} (A : Type ℓ) : Type ℓ where
  ok : A → Outcome A
  leave : LeaveCode → Outcome A
  panic : PanicCode → Outcome A
  spent : Outcome A

infixl 5 ◌>>=◌
abbrev pub ◌>>=◌ {ℓ κ} : {A : Type ℓ} {B : Type κ} → Outcome A → (A → Outcome B) → Outcome B
ok a >>= f = f a
leave e >>= f = leave e
panic p >>= f = panic p
spent >>= f = spent

pub bind_assoc :
    {A B C : Type 0} (o : Outcome A) (f : A → Outcome B) (g : B → Outcome C) {h : A → Outcome C}
    → ((a : A) → h a ≡ (f a >>= g))
    → (o >>= h) ≡ ((o >>= f) >>= g)
bind_assoc (ok a) f g e = e a
bind_assoc (leave c) f g e = refl
bind_assoc (panic c) f g e = refl
bind_assoc spent f g e = refl

-- An element of an array; an index outside it is the array's bounds panic.
abbrev pub checked {ℓ} : {A : Type ℓ} → Option A → Outcome A
checked none = panic array_bounds
checked (some a) = ok a

-- `User::LeaveIfError`, where none is KErrNone.
abbrev pub leave_on {ℓ} : {A : Type ℓ} → Option LeaveCode → A → Outcome A
leave_on none a = ok a
leave_on (some e) a = leave e

-- The call returns a value with `P`, or leaves: it neither panics nor runs out of fuel.
abbrev pub Leaves {ℓ} : {A : Type ℓ} → (A → Type 0) → Outcome A → Type 0
Leaves P (ok a) = P a
Leaves P (leave e) = Unit
Leaves P (panic p) = ⊥
Leaves P spent = ⊥

pub Leaves-bind {ℓ κ} :
    {A : Type ℓ} {B : Type κ} {P : A → Type 0} (Q : B → Type 0) (m : Outcome A) (f : A → Outcome B)
    → Leaves P m
    → ((a : A) → P a → Leaves Q (f a))
    → Leaves Q (m >>= f)
Leaves-bind Q (ok a) f h k = k a h
Leaves-bind Q (leave e) f h k = tt
Leaves-bind Q (panic p) f h k = absurd h
Leaves-bind Q spent f h k = absurd h

pub Leaves-weaken {ℓ} :
    {A : Type ℓ} {P Q : A → Type 0} (m : Outcome A)
    → ((a : A) → P a → Q a)
    → Leaves P m
    → Leaves Q m
Leaves-weaken (ok a) k h = k a h
Leaves-weaken (leave e) k h = tt
Leaves-weaken (panic p) k h = h
Leaves-weaken spent k h = h

pub Leaves-if {ℓ} :
    {A : Type ℓ} (P : A → Type 0) (b : Bool) (m n : Outcome A)
    → Leaves P m
    → Leaves P n
    → Leaves P (if b then m else n)
Leaves-if P true m n h k = h
Leaves-if P false m n h k = k

pub Leaves-checked {ℓ} :
    {A : Type ℓ} (P : A → Type 0) (e : Option LeaveCode) (a : A) → P a → Leaves P (leave_on e a)
Leaves-checked P none a h = h
Leaves-checked P (some e) a h = tt

-- The call returns a value with `P`, or leaves with a code with `E`, and does nothing else.
abbrev pub LeavesWith {ℓ} : {A : Type ℓ} → (LeaveCode → Type 0) → (A → Type 0) → Outcome A → Type 0
LeavesWith E P (ok a) = P a
LeavesWith E P (leave e) = E e
LeavesWith E P (panic p) = ⊥
LeavesWith E P spent = ⊥

pub LeavesWith-bind {ℓ κ} :
    {A : Type ℓ} {B : Type κ} {P : A → Type 0} (D E : LeaveCode → Type 0) (Q : B → Type 0)
    (m : Outcome A) (f : A → Outcome B)
    → ((e : LeaveCode) → D e → E e)
    → LeavesWith D P m
    → ((a : A) → P a → LeavesWith E Q (f a))
    → LeavesWith E Q (m >>= f)
LeavesWith-bind D E Q (ok a) f w h k = k a h
LeavesWith-bind D E Q (leave e) f w h k = w e h
LeavesWith-bind D E Q (panic p) f w h k = absurd h
LeavesWith-bind D E Q spent f w h k = absurd h

pub LeavesWith-weaken {ℓ} :
    {A : Type ℓ} {P Q : A → Type 0} (D E : LeaveCode → Type 0) (m : Outcome A)
    → ((e : LeaveCode) → D e → E e)
    → ((a : A) → P a → Q a)
    → LeavesWith D P m
    → LeavesWith E Q m
LeavesWith-weaken D E (ok a) w k h = k a h
LeavesWith-weaken D E (leave e) w k h = w e h
LeavesWith-weaken D E (panic p) w k h = h
LeavesWith-weaken D E spent w k h = h

pub LeavesWith-if {ℓ} :
    {A : Type ℓ} (E : LeaveCode → Type 0) (P : A → Type 0) (b : Bool) (m n : Outcome A)
    → LeavesWith E P m
    → LeavesWith E P n
    → LeavesWith E P (if b then m else n)
LeavesWith-if E P true m n h k = h
LeavesWith-if E P false m n h k = k

-- The call returns a value with `P`.
abbrev pub Returns {ℓ} : {A : Type ℓ} → (A → Type 0) → Outcome A → Type 0
Returns P (ok a) = P a
Returns P o = ⊥

pub Returns-bind {ℓ κ} :
    {A : Type ℓ} {B : Type κ} {P : A → Type 0} (Q : B → Type 0) (m : Outcome A) (f : A → Outcome B)
    → Returns P m
    → ((a : A) → P a → Returns Q (f a))
    → Returns Q (m >>= f)
Returns-bind Q (ok a) f h k = k a h
Returns-bind Q (leave e) f h k = absurd h
Returns-bind Q (panic p) f h k = absurd h
Returns-bind Q spent f h k = absurd h

pub Returns-weaken {ℓ} :
    {A : Type ℓ} {P Q : A → Type 0} (m : Outcome A)
    → ((a : A) → P a → Q a)
    → Returns P m
    → Returns Q m
Returns-weaken (ok a) k h = k a h
Returns-weaken (leave e) k h = h
Returns-weaken (panic p) k h = h
Returns-weaken spent k h = h

pub Returns-LeavesWith {ℓ} :
    {A : Type ℓ} (P : A → Type 0) (E : LeaveCode → Type 0) (m : Outcome A)
    → Returns P m
    → LeavesWith E P m
Returns-LeavesWith P E (ok a) h = h
Returns-LeavesWith P E (leave e) h = absurd h
Returns-LeavesWith P E (panic p) h = absurd h
Returns-LeavesWith P E spent h = absurd h

-- If the call returns, its value has `P`.
abbrev pub Ensures {ℓ} : {A : Type ℓ} → (A → Type 0) → Outcome A → Type 0
Ensures P (ok a) = P a
Ensures P o = Unit

pub Ensures-bind {ℓ κ} :
    {A : Type ℓ} {B : Type κ} {P : A → Type 0} (Q : B → Type 0) (m : Outcome A) (f : A → Outcome B)
    → Ensures P m
    → ((a : A) → P a → Ensures Q (f a))
    → Ensures Q (m >>= f)
Ensures-bind Q (ok a) f h k = k a h
Ensures-bind Q (leave e) f h k = tt
Ensures-bind Q (panic p) f h k = tt
Ensures-bind Q spent f h k = tt

pub Ensures-weaken {ℓ} :
    {A : Type ℓ} {P Q : A → Type 0} (m : Outcome A)
    → ((a : A) → P a → Q a)
    → Ensures P m
    → Ensures Q m
Ensures-weaken (ok a) k h = k a h
Ensures-weaken (leave e) k h = tt
Ensures-weaken (panic p) k h = tt
Ensures-weaken spent k h = tt

-- Nothing is known of what the first call returns.
pub Ensures-after {ℓ κ} :
    {A : Type ℓ} {B : Type κ} (Q : B → Type 0) (m : Outcome A) (f : A → Outcome B)
    → ((a : A) → Ensures Q (f a))
    → Ensures Q (m >>= f)
Ensures-after Q (ok a) f k = k a
Ensures-after Q (leave e) f k = tt
Ensures-after Q (panic p) f k = tt
Ensures-after Q spent f k = tt

pub Ensures-if {ℓ} :
    {A : Type ℓ} (P : A → Type 0) (b : Bool) (m n : Outcome A)
    → Ensures P m
    → Ensures P n
    → Ensures P (if b then m else n)
Ensures-if P true m n h k = h
Ensures-if P false m n h k = k

pub Ensures-ok {ℓ} :
    {A : Type ℓ} (P : A → Type 0) (m : Outcome A) (a : A) → Ensures P m → m ≡ ok a → P a
Ensures-ok P (ok b) a h e = subst P (value e) h
  where
    value : {A : Type ℓ} {a b : A} → ok b ≡ ok a → b ≡ a
    value e = cc
Ensures-ok P (leave c) a h e = cc
Ensures-ok P (panic p) a h e = cc
Ensures-ok P spent a h e = cc

-- A call that returns is one whose parts return.
pub bind-returned {ℓ κ} :
    {A : Type ℓ} {B : Type κ} (m : Outcome A) (f : A → Outcome B) (b : B)
    → (m >>= f) ≡ ok b
    → (a : A) × (m ≡ ok a) × (f a ≡ ok b)
bind-returned (ok a) f b h = (a, refl, h)
bind-returned (leave e) f b h = cc
bind-returned (panic p) f b h = cc
bind-returned spent f b h = cc
