-- ===== src/Runtime/Variables.antt =====
-- oplr/src/PUSHOC.CPP, the opcodes of variables and arrays, and oplr/src/ASSIGN.CPP. `op` is the
-- word behind the opcode, IP16. Variables that are real numbers are left out.
pub mod Elements
pub mod Assigned
use opl_dev.Prelude.{
  ℕ, zero, suc, ◌+◌, ◌-◌, ◌*◌, ◌/◌, List, Bool, ◌||◌, get_elem?, ltb, leb, length, ◌==◌,
  if◌then◌else◌,
}
use opl_dev.Prelude.Int.{ℤ, pos, negsuc, pos_part, neg_part, ltb_ℤ}
use opl_dev.Prelude.Outcome.{
  Outcome, ok, leave, panic, ◌>>=◌, checked, subscript, str_too_long, align_bad_length,
  array_bounds, memory_access,
}
use opl_dev.Runtime.Memory.{Memory, put_word, get_word, put_long, get_long, put_text, get_text}
use opl_dev.Runtime.Stack.{
  Stack, int16, int32, ref_int16, ref_int32, ref_text, push, push_text, pop_int16, pop_int32,
  pop_text, pop_ref_int16, pop_ref_int32, pop_ref_text,
}

-- `==KLeftSideField`
abbrev pub is_minus_one : ℤ → Bool
is_minus_one n = neg_part n == 1

-- Of CFrame what its variables need: iFrameCell, the addresses of iIndirectTbl, iStartOfIndTbl.
pub record Frame : Type 0 where
  pub frame_cell : ℕ
  pub indirect_tbl : List ℕ
  pub start_of_ind_tbl : ℕ

-- `VarAddrRel`
unfoldable pub var_addr_rel : Frame → ℕ → Outcome ℕ
var_addr_rel f op = ok (f.frame_cell + op)

-- `VarAddrInd`: the difference is halved towards zero, so that one below the start is the first.
unfoldable pub var_addr_ind : Frame → ℕ → Outcome ℕ
var_addr_ind f op =
    if leb f.start_of_ind_tbl (op + 1)
    then checked (get_elem? f.indirect_tbl ((op - f.start_of_ind_tbl) / 2))
    else panic array_bounds

-- `JumpToIndex`, for an index from 1 on
unfoldable pub jump_to_index : ℕ → ℤ → ℕ → ℕ
jump_to_index array index size = array + (pos_part index - 1) * size

-- `aIndex>max||aIndex<1`
abbrev pub out_of_range : ℤ → ℤ → Bool
out_of_range max index = ltb_ℤ max index || ltb_ℤ index (pos 1)

-- `GetElementL`
unfoldable pub get_element : Memory → ℕ → ℤ → ℕ → Outcome ℕ
unfolding jump_to_index
get_element m array index size =
    if out_of_range (get_word m (array - 2)) index
    then leave subscript
    else ok (jump_to_index array index size)

-- An element of an array of texts, and the texts' greatest length
unfoldable pub get_text_element : Memory → ℕ → ℤ → Outcome (ℤ × ℕ)
unfolding jump_to_index
get_text_element m array index =
    let max_len = get_word m (array - 2) in
    if out_of_range (get_word m (array - 4)) index
    then leave subscript
    else ok (max_len, jump_to_index array index (pos_part max_len * 2 + 2))

module _ {R : Type 0} where
  -- A value is pushed.
  unfoldable pub right_side_int : Memory → ℕ → Stack R → Outcome (Stack R)
  right_side_int m a s = push (int16 (get_word m a)) s

  unfoldable pub right_side_long : Memory → ℕ → Stack R → Outcome (Stack R)
  right_side_long m a s = push (int32 (get_long m a)) s

  -- With a negative length the pointer of the copy and its length wrap round: that is undefined,
  -- and here an access to memory that is not there.
  unfoldable pub right_side_string : Memory → ℕ → Stack R → Outcome (Stack R)
  right_side_string m a s =
      if ltb 0 (neg_part (get_word m a)) then panic memory_access else push_text (get_text m a) s

  -- An address is pushed, and 0, which says that it is no field.
  unfoldable pub left_side_int : ℕ → Stack R → Outcome (Stack R)
  left_side_int a s = push (ref_int16 a) s >>= push (int16 (pos 0))

  unfoldable pub left_side_long : ℕ → Stack R → Outcome (Stack R)
  left_side_long a s = push (ref_int32 a) s >>= push (int16 (pos 0))

  -- So it is with texts, over the greatest length.
  unfoldable pub left_side_string : ℤ → ℕ → Stack R → Outcome (Stack R)
  left_side_string max_len a s = do
    s₁ ← push (int16 max_len) s
    s₂ ← push (ref_text a) s₁
    push (int16 (pos 0)) s₂

  unfoldable pub simple_direct_right_side_int : Frame → Memory → ℕ → Stack R → Outcome (Stack R)
  unfolding var_addr_rel right_side_int
  simple_direct_right_side_int f m op s = var_addr_rel f op >>= λ a. right_side_int m a s

  unfoldable pub simple_direct_right_side_long : Frame → Memory → ℕ → Stack R → Outcome (Stack R)
  unfolding var_addr_rel right_side_long
  simple_direct_right_side_long f m op s = var_addr_rel f op >>= λ a. right_side_long m a s

  unfoldable pub simple_direct_right_side_string : Frame → Memory → ℕ → Stack R → Outcome (Stack R)
  unfolding var_addr_rel right_side_string
  simple_direct_right_side_string f m op s = var_addr_rel f op >>= λ a. right_side_string m a s

  unfoldable pub simple_direct_left_side_int : Frame → Memory → ℕ → Stack R → Outcome (Stack R)
  unfolding var_addr_rel left_side_int
  simple_direct_left_side_int f m op s = var_addr_rel f op >>= λ a. left_side_int a s

  unfoldable pub simple_direct_left_side_long : Frame → Memory → ℕ → Stack R → Outcome (Stack R)
  unfolding var_addr_rel left_side_long
  simple_direct_left_side_long f m op s = var_addr_rel f op >>= λ a. left_side_long a s

  unfoldable pub simple_direct_left_side_string : Frame → Memory → ℕ → Stack R → Outcome (Stack R)
  unfolding var_addr_rel left_side_string
  simple_direct_left_side_string f m op s = do
    a ← var_addr_rel f op
    let max_len = get_word m (a - 2)
    if out_of_range (pos 255) max_len then panic align_bad_length else left_side_string max_len a s

  unfoldable pub simple_indirect_right_side_int : Frame → Memory → ℕ → Stack R → Outcome (Stack R)
  unfolding var_addr_ind right_side_int
  simple_indirect_right_side_int f m op s = var_addr_ind f op >>= λ a. right_side_int m a s

  unfoldable pub simple_indirect_right_side_long : Frame → Memory → ℕ → Stack R → Outcome (Stack R)
  unfolding var_addr_ind right_side_long
  simple_indirect_right_side_long f m op s = var_addr_ind f op >>= λ a. right_side_long m a s

  unfoldable pub simple_indirect_right_side_string :
      Frame → Memory → ℕ → Stack R → Outcome (Stack R)
  unfolding var_addr_ind right_side_string
  simple_indirect_right_side_string f m op s = var_addr_ind f op >>= λ a. right_side_string m a s

  unfoldable pub simple_indirect_left_side_int : Frame → Memory → ℕ → Stack R → Outcome (Stack R)
  unfolding var_addr_ind left_side_int
  simple_indirect_left_side_int f m op s = var_addr_ind f op >>= λ a. left_side_int a s

  unfoldable pub simple_indirect_left_side_long : Frame → Memory → ℕ → Stack R → Outcome (Stack R)
  unfolding var_addr_ind left_side_long
  simple_indirect_left_side_long f m op s = var_addr_ind f op >>= λ a. left_side_long a s

  unfoldable pub simple_indirect_left_side_string : Frame → Memory → ℕ → Stack R → Outcome (Stack R)
  unfolding var_addr_ind left_side_string
  simple_indirect_left_side_string f m op s = do
    a ← var_addr_ind f op
    let max_len = get_word m (a - 2)
    if pos_part max_len + neg_part max_len == 0 || ltb_ℤ (pos 255) max_len
        then panic align_bad_length
        else left_side_string max_len a s

  unfoldable pub array_direct_right_side_int : Frame → Memory → ℕ → Stack R → Outcome (Stack R)
  unfolding var_addr_rel get_element right_side_int
  array_direct_right_side_int f m op s = do
    a ← var_addr_rel f op
    (index, s₁) ← pop_int16 s
    e ← get_element m a index 2
    right_side_int m e s₁

  unfoldable pub array_direct_right_side_long : Frame → Memory → ℕ → Stack R → Outcome (Stack R)
  unfolding var_addr_rel get_element right_side_long
  array_direct_right_side_long f m op s = do
    a ← var_addr_rel f op
    (index, s₁) ← pop_int16 s
    e ← get_element m a index 4
    right_side_long m e s₁

  unfoldable pub array_direct_right_side_string : Frame → Memory → ℕ → Stack R → Outcome (Stack R)
  unfolding var_addr_rel get_text_element right_side_string
  array_direct_right_side_string f m op s = do
    a ← var_addr_rel f op
    (index, s₁) ← pop_int16 s
    (max_len, e) ← get_text_element m a index
    right_side_string m e s₁

  unfoldable pub array_direct_left_side_int : Frame → Memory → ℕ → Stack R → Outcome (Stack R)
  unfolding var_addr_rel get_element left_side_int
  array_direct_left_side_int f m op s = do
    a ← var_addr_rel f op
    (index, s₁) ← pop_int16 s
    e ← get_element m a index 2
    left_side_int e s₁

  unfoldable pub array_direct_left_side_long : Frame → Memory → ℕ → Stack R → Outcome (Stack R)
  unfolding var_addr_rel get_element left_side_long
  array_direct_left_side_long f m op s = do
    a ← var_addr_rel f op
    (index, s₁) ← pop_int16 s
    e ← get_element m a index 4
    left_side_long e s₁

  unfoldable pub array_direct_left_side_string : Frame → Memory → ℕ → Stack R → Outcome (Stack R)
  unfolding var_addr_rel get_text_element left_side_string
  array_direct_left_side_string f m op s = do
    a ← var_addr_rel f op
    (index, s₁) ← pop_int16 s
    (max_len, e) ← get_text_element m a index
    left_side_string max_len e s₁

  unfoldable pub array_indirect_right_side_int : Frame → Memory → ℕ → Stack R → Outcome (Stack R)
  unfolding var_addr_ind get_element right_side_int
  array_indirect_right_side_int f m op s = do
    a ← var_addr_ind f op
    (index, s₁) ← pop_int16 s
    e ← get_element m a index 2
    right_side_int m e s₁

  unfoldable pub array_indirect_right_side_long : Frame → Memory → ℕ → Stack R → Outcome (Stack R)
  unfolding var_addr_ind get_element right_side_long
  array_indirect_right_side_long f m op s = do
    a ← var_addr_ind f op
    (index, s₁) ← pop_int16 s
    e ← get_element m a index 4
    right_side_long m e s₁

  unfoldable pub array_indirect_right_side_string : Frame → Memory → ℕ → Stack R → Outcome (Stack R)
  unfolding var_addr_ind get_text_element right_side_string
  array_indirect_right_side_string f m op s = do
    a ← var_addr_ind f op
    (index, s₁) ← pop_int16 s
    (max_len, e) ← get_text_element m a index
    right_side_string m e s₁

  unfoldable pub array_indirect_left_side_int : Frame → Memory → ℕ → Stack R → Outcome (Stack R)
  unfolding var_addr_ind get_element left_side_int
  array_indirect_left_side_int f m op s = do
    a ← var_addr_ind f op
    (index, s₁) ← pop_int16 s
    e ← get_element m a index 2
    left_side_int e s₁

  unfoldable pub array_indirect_left_side_long : Frame → Memory → ℕ → Stack R → Outcome (Stack R)
  unfolding var_addr_ind get_element left_side_long
  array_indirect_left_side_long f m op s = do
    a ← var_addr_ind f op
    (index, s₁) ← pop_int16 s
    e ← get_element m a index 4
    left_side_long e s₁

  unfoldable pub array_indirect_left_side_string : Frame → Memory → ℕ → Stack R → Outcome (Stack R)
  unfolding var_addr_ind get_text_element left_side_string
  array_indirect_left_side_string f m op s = do
    a ← var_addr_ind f op
    (index, s₁) ← pop_int16 s
    (max_len, e) ← get_text_element m a index
    left_side_string max_len e s₁

-- The stack and the memory, which an assignment changes
pub record Machine (R : Type 0) : Type 0 where
  pub stack : Stack R
  pub memory : Memory

-- What the database does with a value for a field: DbManager()->Assign.
pub record Fields (R : Type 0) : Type 0 where
  pub assign_word : ℤ → Machine R → Outcome (Machine R)
  pub assign_long : ℤ → Machine R → Outcome (Machine R)
  pub assign_text : List ℕ → Machine R → Outcome (Machine R)

module _ {R : Type 0} (db : Fields R) where
  -- `AssignInt`
  unfoldable pub assign_int : Machine R → Outcome (Machine R)
  assign_int k = do
    (n, s₁) ← pop_int16 k.stack
    (flag, s₂) ← pop_int16 s₁
    if is_minus_one flag then db.assign_word n (record k { stack = s₂ }) else (do
      (a, s₃) ← pop_ref_int16 s₂
      ok (record { stack = s₃; memory = put_word a n k.memory }))

  -- `AssignLong`
  unfoldable pub assign_long : Machine R → Outcome (Machine R)
  assign_long k = do
    (n, s₁) ← pop_int32 k.stack
    (flag, s₂) ← pop_int16 s₁
    if is_minus_one flag then db.assign_long n (record k { stack = s₂ }) else (do
      (a, s₃) ← pop_ref_int32 s₂
      ok (record { stack = s₃; memory = put_long a n k.memory }))

  -- `AssignString`
  unfoldable pub assign_string : Machine R → Outcome (Machine R)
  assign_string k = do
    (t, s₁) ← pop_text k.stack
    (flag, s₂) ← pop_int16 s₁
    if is_minus_one flag then db.assign_text t (record k { stack = s₂ }) else (do
      (a, s₃) ← pop_ref_text s₂
      (max_len, s₄) ← pop_int16 s₃
      if ltb_ℤ max_len (pos (length t))
          then leave str_too_long
          else ok (record { stack = s₄; memory = put_text a t k.memory }))
