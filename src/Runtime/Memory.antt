-- ===== src/Runtime/Memory.antt =====
-- oplr/src/OPLUTIL.CPP: words, longs and texts in memory that need not be aligned, the lowest byte
-- first, and the codes of errors. Memory is a byte for each address.
pub mod Cells
pub mod Errors
use opl_dev.Prelude.{
  ℕ, zero, suc, ◌+◌, ◌-◌, ◌*◌, ◌/◌, ◌%◌, List, [], ◌∷◌, Bool, ◌||◌, length, leb, ltb, ◌==◌,
  if◌then◌else◌,
}
use opl_dev.Prelude.Int.{ℤ, pos_part, from_bits, to_bits}

abbrev pub Memory : Type 0
Memory = ℕ → ℕ

abbrev pub byte : Memory → ℕ → ℕ
byte m a = m a % 0x100

-- `*trg=b`
abbrev pub set : ℕ → ℕ → Memory → Memory
set a b m k = if k == a then b % 0x100 else m k

-- `PutWord`
unfoldable pub put_word : ℕ → ℤ → Memory → Memory
put_word a n m = let w = to_bits 0x8000 n in set (a + 1) (w / 0x100) (set a w m)

-- `GetWord`
unfoldable pub get_word : Memory → ℕ → ℤ
get_word m a = from_bits 0x8000 (byte m a + 0x100 * byte m (a + 1))

-- `PutLong`
unfoldable pub put_long : ℕ → ℤ → Memory → Memory
put_long a n m =
    let w = to_bits 0x8000_0000 n in
    set (a + 3) (w / 0x100_0000) (set (a + 2) (w / 0x1_0000) (set (a + 1) (w / 0x100) (set a w m)))

-- `GetLong`
unfoldable pub get_long : Memory → ℕ → ℤ
get_long m a =
    from_bits 0x8000_0000
      (byte m a + 0x100 * byte m (a + 1) + 0x1_0000 * byte m (a + 2) + 0x100_0000 * byte m (a + 3))

-- `Mem::Copy` of code units, two bytes each
abbrev pub put_units : ℕ → List ℕ → Memory → Memory
put_units a [] m = m
put_units a (c ∷ cs) m = put_units (a + 2) cs (set (a + 1) (c / 0x100) (set a c m))

abbrev pub get_units : ℕ → ℕ → Memory → List ℕ
get_units zero a m = []
get_units (suc n) a m = (byte m a + 0x100 * byte m (a + 1)) ∷ get_units n (a + 2) m

-- A text in memory: a word with its length, of which an assignment writes the low byte alone, and
-- its units.
unfoldable pub put_text : ℕ → List ℕ → Memory → Memory
put_text a t m = put_units (a + 2) t (set a (length t) m)

-- The units of a text whose length, a signed word, is not negative
unfoldable pub get_text : Memory → ℕ → List ℕ
unfolding get_word
get_text m a = get_units (pos_part (get_word m a)) (a + 2) m
