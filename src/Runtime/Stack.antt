-- ===== src/Runtime/Stack.antt =====
-- oplr/src/STACK.CPP: the evaluation stack, as the build with _DEBUG_STACK has it, which records
-- a type for each cell and asserts it on every pop.
pub mod Bounds
pub mod Params
use opl_dev.Prelude.{
  ℕ, zero, suc, ◌+◌, ◌-◌, ◌*◌, ◌/◌, List, [], ◌∷◌, Bool, length, ltb, leb, ◌==◌, if◌then◌else◌,
}
use opl_dev.Prelude.Int.{ℤ, pos_part, neg_part, pos, sub_ℕ}
use opl_dev.Prelude.Outcome.{
  Outcome, ok, leave, panic, ◌>>=◌, no_memory, num_arg, type_viol, stack_empty, stack_type_mismatch,
  bad_type, align_bad_length,
}

-- A value on the stack, by its `Ttype`. A reference is the address that it Holds.
pub data Item (R : Type 0) : Type 0 where
  int16 : ℤ → Item R
  int32 : ℤ → Item R
  real64 : R → Item R
  text : List ℕ → Item R
  ref_int16 : ℕ → Item R
  ref_int32 : ℕ → Item R
  ref_real64 : ℕ → Item R
  ref_text : ℕ → Item R

-- The bytes of a text: its length, its code units, rounded up to a multiple of 4.
abbrev pub text_size : List ℕ → ℕ
text_size s = (length s * 2 + 1 + 4) / 4 * 4

-- The bytes that a value takes.
abbrev pub cell_size : {R : Type 0} → Item R → ℕ
cell_size (real64 x) = 8
cell_size (text s) = text_size s
cell_size i = 4

-- `CStack`. `capacity` is iRoot-iBase, in bytes; `max_stack` is the frame's MaxStack().
pub record Stack (R : Type 0) : Type 0 where
  pub items : List (Item R)
  pub capacity : ℕ
  pub max_stack : ℕ

-- iRoot-iSP
abbrev pub used : {R : Type 0} → List (Item R) → ℕ
used [] = 0
used (i ∷ is) = cell_size i + used is

abbrev equal_ℤ : ℤ → ℤ → Bool
equal_ℤ a b = pos_part a + neg_part b == pos_part b + neg_part a

module _ {R : Type 0} where
  -- `ConstructL`: the bytes of the cells, of which the lowest 256 lie below iBase.
  unfoldable pub construct : ℕ → ℕ → Stack R
  construct size max =
      let rounded = (size + 3) / 4 * 4 in
      let cells = if ltb 512 rounded then rounded else 512 in
      record { items = []; capacity = cells - 256; max_stack = max }

  -- The overloads of Push for numbers and addresses.
  unfoldable pub push : Item R → Stack R → Outcome (Stack R)
  push i s =
      if ltb (used s.items) s.capacity
      then ok (record s { items = i ∷ s.items })
      else leave no_memory

  -- `Push(const TDesC16&)` and `Push(const OplString)`
  unfoldable pub push_text : List ℕ → Stack R → Outcome (Stack R)
  push_text t s =
      if ltb (used s.items) s.capacity
      then (if leb (length t) 255
          then (if ltb s.capacity (used s.items + text_size t + s.max_stack)
              then leave no_memory
              else ok (record s { items = text t ∷ s.items }))
          else panic align_bad_length)
      else leave no_memory

  unfoldable pub pop_int16 : Stack R → Outcome (ℤ × Stack R)
  pop_int16 s = elim s.items [
    | [] ↦ panic stack_empty
    | int16 n ∷ is ↦ ok (n, record s { items = is })
    | _ ∷ is ↦ panic stack_type_mismatch
  ]

  unfoldable pub pop_int32 : Stack R → Outcome (ℤ × Stack R)
  pop_int32 s = elim s.items [
    | [] ↦ panic stack_empty
    | int32 n ∷ is ↦ ok (n, record s { items = is })
    | _ ∷ is ↦ panic stack_type_mismatch
  ]

  unfoldable pub pop_real64 : Stack R → Outcome (R × Stack R)
  pop_real64 s = elim s.items [
    | [] ↦ panic stack_empty
    | real64 x ∷ is ↦ ok (x, record s { items = is })
    | _ ∷ is ↦ panic stack_type_mismatch
  ]

  unfoldable pub pop_text : Stack R → Outcome (List ℕ × Stack R)
  pop_text s = elim s.items [
    | [] ↦ panic stack_empty
    | text t ∷ is ↦
        if leb (length t) 255 then ok (t, record s { items = is }) else panic align_bad_length
    | _ ∷ is ↦ panic stack_type_mismatch
  ]

  unfoldable pub pop_ref_int16 : Stack R → Outcome (ℕ × Stack R)
  pop_ref_int16 s = elim s.items [
    | [] ↦ panic stack_empty
    | ref_int16 a ∷ is ↦ ok (a, record s { items = is })
    | _ ∷ is ↦ panic stack_type_mismatch
  ]

  unfoldable pub pop_ref_int32 : Stack R → Outcome (ℕ × Stack R)
  pop_ref_int32 s = elim s.items [
    | [] ↦ panic stack_empty
    | ref_int32 a ∷ is ↦ ok (a, record s { items = is })
    | _ ∷ is ↦ panic stack_type_mismatch
  ]

  unfoldable pub pop_ref_real64 : Stack R → Outcome (ℕ × Stack R)
  pop_ref_real64 s = elim s.items [
    | [] ↦ panic stack_empty
    | ref_real64 a ∷ is ↦ ok (a, record s { items = is })
    | _ ∷ is ↦ panic stack_type_mismatch
  ]

  unfoldable pub pop_ref_text : Stack R → Outcome (ℕ × Stack R)
  pop_ref_text s = elim s.items [
    | [] ↦ panic stack_empty
    | ref_text a ∷ is ↦ ok (a, record s { items = is })
    | _ ∷ is ↦ panic stack_type_mismatch
  ]

  -- `CheckParamCountL`
  unfoldable pub check_param_count : ℤ → Stack R → Outcome (Stack R)
  check_param_count count s = do
    (n, s₁) ← pop_int16 s
    if equal_ℤ count n then ok s₁ else leave num_arg

  -- `JumpParam`
  unfoldable pub jump_param : ℤ → Stack R → Outcome (Stack R)
  jump_param (pos zero) s = do (v, s₁) ← pop_int16 s; ok s₁
  jump_param (pos (suc zero)) s = do (v, s₁) ← pop_int32 s; ok s₁
  jump_param (pos (suc (suc zero))) s = do (v, s₁) ← pop_real64 s; ok s₁
  jump_param (pos (suc (suc (suc zero)))) s = do (v, s₁) ← pop_text s; ok s₁
  jump_param type s = panic bad_type

  -- `NextParamL`; the parameter that it returns the address of is the top of the stack it is
  -- given, under the type.
  unfoldable pub next_param : ℤ → Stack R → Outcome (List (Item R) × Stack R)
  next_param type s = do
    (t, s₁) ← pop_int16 s
    if equal_ℤ type t then (do s₂ ← jump_param type s₁; ok (s₁.items, s₂)) else leave type_viol

  -- UnwindParams' loop, `count` rounds.
  unfoldable pub unwind : ℕ → Stack R → Outcome (Stack R)
  unwind zero s = ok s
  unwind (suc count) s = do (type, s₁) ← pop_int16 s; s₂ ← jump_param type s₁; unwind count s₂

  -- `UnwindParams`
  unfoldable pub unwind_params : Stack R → Outcome (Stack R)
  unwind_params s = do (count, s₁) ← pop_int16 s; unwind (pos_part count) s₁

  -- `FreeBytes`: below iBase it is negative.
  unfoldable pub free_bytes : Stack R → ℤ
  free_bytes s = sub_ℕ s.capacity (used s.items)
