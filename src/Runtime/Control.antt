-- ===== src/Runtime/Control.antt =====
-- oplr/src/EN_CTRL.CPP, with the reading of the code of EN_MAIN.CPP: the opcodes that set the
-- instruction pointer. A pointer is its distance from the start of the code, in bytes.
pub mod Lands
use opl_dev.Prelude.{ℕ, zero, suc, ◌+◌, ◌-◌, ◌*◌, List, Bool, ◌||◌, ltb, ◌==◌, if◌then◌else◌}
use opl_dev.Prelude.Int.{ℤ, pos, negsuc, ◌+ℤ◌, ◌-ℤ◌, from_bits, to_bits}
use opl_dev.Prelude.Bytes.{word_at}
use opl_dev.Prelude.Outcome.{Outcome, ok, ◌>>=◌}
use opl_dev.Runtime.Stack.{Stack, pop_int16}

-- `OplUtil::GetWord`, a TInt16
abbrev pub signed_word : List ℕ → ℕ → Outcome ℤ
signed_word code ip = word_at code ip >>= λ w. ok (from_bits 0x8000 w)

-- `DoGoto`, where the pointer is behind the opcode: the offset counts from the opcode.
unfoldable pub do_goto : List ℕ → ℕ → Outcome ℤ
do_goto code ip = do offset ← signed_word code ip; ok (pos ip +ℤ offset -ℤ pos 1)

-- `KOplFalse`
abbrev pub is_false : ℤ → Bool
is_false (pos n) = n == 0
is_false (negsuc n) = Bool.false

module _ {R : Type 0} where
  -- `OpCode::BranchIfFalse`
  unfoldable pub branch_if_false : List ℕ → ℕ → Stack R → Outcome (ℤ × Stack R)
  unfolding do_goto pop_int16
  branch_if_false code ip s = do
    (value, s₁) ← pop_int16 s
    if is_false value then (do_goto code ip >>= λ ip'. ok (ip', s₁)) else ok (pos (ip + 2), s₁)

  -- `OpCode::Vector`; the index is a TUint of a TInt16.
  unfoldable pub jump_to_vector : List ℕ → ℕ → Stack R → Outcome (ℤ × Stack R)
  unfolding pop_int16
  jump_to_vector code ip s = do
    max_index ← word_at code ip
    (value, s₁) ← pop_int16 s
    let index = to_bits 0x8000_0000 value
    if index == 0 || ltb max_index index then ok (pos (ip + 2 + max_index * 2), s₁) else (do
      offset ← signed_word code (ip + 2 + (index - 1) * 2)
      ok (pos (ip + 2) +ℤ (offset -ℤ pos 3), s₁))
