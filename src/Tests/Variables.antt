-- ===== src/Tests/Variables.antt =====
-- Samples for oplr/src/PUSHOC.CPP and ASSIGN.CPP: an array of three words at 100, and a few
-- assignments.
use opl_dev.Prelude.{
  ℕ, zero, suc, ◌+◌, ◌*◌, ◌≤◌, ◌<◌, List, [], ◌∷◌, ◌≡◌, ◌⊎◌, refl, length, ◌-◌, ◌==◌, if◌then◌else◌,
  arith,
}
use opl_dev.Prelude.Int.{ℤ, pos, negsuc, pos_part}
use opl_dev.Prelude.Outcome.{Outcome, ok, leave, ◌>>=◌, Returns, str_too_long}
use opl_dev.Runtime.Memory.{Memory, put_word, get_word}
use opl_dev.Runtime.Memory.Errors.{error_era_to_opl1993, error_era_to_opl1993-is_zero}
use opl_dev.Runtime.Arith.{is_zero}
use opl_dev.Runtime.Stack.{Stack, int16, int32, ref_text, text, push}
use opl_dev.Runtime.Variables.{
  Fields, Machine, get_element, left_side_int, left_side_long, assign_int, assign_long,
  assign_string,
}
use opl_dev.Runtime.Variables.Elements.{IsIndex, get_element-IsIndex, get_element-put_word}
use opl_dev.Runtime.Variables.Assigned.{
  HoldsWord, HoldsLong, HoldsText, assign_int-left_side_int, assign_long-left_side_long,
  assign_string-text,
}

abbrev empty_memory : Memory
empty_memory a = if a == 98 then 3 else 0

abbrev no_fields : Fields ℤ
no_fields = record {
  assign_word = λ n k. ok k;
  assign_long = λ n k. ok k;
  assign_text = λ t k. ok k;
}

abbrev small_stack : Stack ℤ
small_stack = record { items = int16 (pos 9) ∷ []; capacity = 100; max_stack = 10 }

get_element-IsIndex_example :
    (IsIndex (get_word empty_memory (100 - 2)) (pos 2)
      × Returns
          (λ a. (100 ≤ a) × (a + 2 ≤ 100 + pos_part (get_word empty_memory (100 - 2)) * 2))
          (get_element empty_memory 100 (pos 2) 2))
    ⊎ (((pos_part (pos 2) < 1) ⊎ (pos_part (get_word empty_memory (100 - 2)) < pos_part (pos 2)))
        × (get_element empty_memory 100 (pos 2) 2 ≡ leave opl_dev.Prelude.Outcome.subscript))
get_element-IsIndex_example = get_element-IsIndex empty_memory 100 2 (pos 2)

get_element-put_word_example :
    (get_element (put_word 102 (negsuc 6) empty_memory) 100 (pos 3) 2 ≡ ok 104)
    × (get_word (put_word 102 (negsuc 6) empty_memory) 104
        ≡ (if pos_part (pos 2) == pos_part (pos 3) then negsuc 6 else get_word empty_memory 104))
unfolding get_element get_word
get_element-put_word_example =
    get_element-put_word empty_memory 100 102 104 (pos 2) (pos 3) (negsuc 6) (omega arith)
      (omega arith, omega arith) refl refl

assign_int-left_side_int_example : Returns (HoldsWord 102 (negsuc 6) small_stack empty_memory) (
    left_side_int 102 small_stack >>= push (int16 (negsuc 6)) >>= λ s'.
    assign_int no_fields (record { stack = s'; memory = empty_memory }))
assign_int-left_side_int_example =
    assign_int-left_side_int no_fields 102 (negsuc 6) small_stack empty_memory
      (omega arith, omega arith) (omega arith)

assign_long-left_side_long_example : Returns (HoldsLong 200 (pos 70000) small_stack empty_memory) (
    left_side_long 200 small_stack >>= push (int32 (pos 70000)) >>= λ s'.
    assign_long no_fields (record { stack = s'; memory = empty_memory }))
assign_long-left_side_long_example =
    assign_long-left_side_long no_fields 200 (pos 70000) small_stack empty_memory
      (omega arith, omega arith) (omega arith)

abbrev hi : List ℕ
hi = 72 ∷ 105 ∷ []

abbrev text_machine : Machine ℤ
text_machine = record {
  stack = record small_stack {
    items = text hi ∷ int16 (pos 0) ∷ ref_text 300 ∷ int16 (pos 5) ∷ small_stack.items;
  };
  memory = empty_memory;
}

assign_string-text_example :
    ((length hi ≤ 5)
      × Returns (HoldsText 300 hi small_stack) (assign_string no_fields text_machine))
    ⊎ ((5 < length hi) × (assign_string no_fields text_machine ≡ leave str_too_long))
assign_string-text_example =
    assign_string-text no_fields 300 5 hi small_stack empty_memory (omega arith, (omega arith, tt))
      (omega arith) refl

error_era_to_opl1993-is_zero_example : is_zero (error_era_to_opl1993 (negsuc 24)) ≡ (24 == 43)
error_era_to_opl1993-is_zero_example = error_era_to_opl1993-is_zero 24
