-- ===== src/Runtime/Memory/Cells.antt =====
-- oplr/src/OPLUTIL.CPP: what GetWord and GetLong give after PutWord and PutLong.
use opl_dev.Prelude.{ℕ, ◌+◌, ◌*◌, ◌/◌, ◌%◌, ◌<◌, ◌≡◌, refl, ◌⊎◌, arith}
use opl_dev.Prelude.Int.{
  ℤ, pos, negsuc, from_bits, to_bits, to_int16, to_int32, IsInt16, IsInt32, to_int16_fits,
  to_int32_fits,
}
use opl_dev.Runtime.Memory.{Memory, set, put_word, get_word, put_long, get_long}

-- The bytes that are read where four, or two, were written
four_bytes :
    (a x y z w : ℕ) (m : Memory)
    → (set (a + 3) w (set (a + 2) z (set (a + 1) y (set a x m))) a ≡ x % 0x100)
      × (set (a + 3) w (set (a + 2) z (set (a + 1) y (set a x m))) (a + 1) ≡ y % 0x100)
      × (set (a + 3) w (set (a + 2) z (set (a + 1) y (set a x m))) (a + 2) ≡ z % 0x100)
      × (set (a + 3) w (set (a + 2) z (set (a + 1) y (set a x m))) (a + 3) ≡ w % 0x100)
four_bytes a x y z w m = (ground arith, ground arith, ground arith, ground arith)

two_bytes :
    (a x y : ℕ) (m : Memory)
    → (set (a + 1) y (set a x m) a ≡ x % 0x100) × (set (a + 1) y (set a x m) (a + 1) ≡ y % 0x100)
two_bytes a x y m = (ground arith, ground arith)

two_apart :
    (a b x y : ℕ) (m : Memory)
    → (b + 1 < a) ⊎ (a + 1 < b)
    → (set (a + 1) y (set a x m) b ≡ m b) × (set (a + 1) y (set a x m) (b + 1) ≡ m (b + 1))
two_apart a b x y m h = (ground arith, ground arith)

four_apart :
    (a b k x y z w : ℕ) (m : Memory)
    → k < 4
    → (b + 3 < a) ⊎ (a + 3 < b)
    → set (a + 3) w (set (a + 2) z (set (a + 1) y (set a x m))) (b + k) ≡ m (b + k)
four_apart a b k x y z w m lt h = ground arith

word_bytes : (w : ℕ) → w < 0x1_0000 → w % 0x100 % 0x100 + 0x100 * (w / 0x100 % 0x100 % 0x100) ≡ w
word_bytes w h = omega (arith, h)

to_bits_bound : (n : ℤ) → to_bits 0x8000 n < 0x1_0000
to_bits_bound (pos n) = omega arith
to_bits_bound (negsuc n) = omega arith

long_bytes :
    (w : ℕ)
    → w < 0x1_0000_0000
    → w % 0x100 % 0x100
        + 0x100 * (w / 0x100 % 0x100 % 0x100)
        + 0x1_0000 * (w / 0x1_0000 % 0x100 % 0x100)
        + 0x100_0000 * (w / 0x100_0000 % 0x100 % 0x100)
      ≡ w
long_bytes w h = omega (arith, h)

to_bits_long : (n : ℤ) → to_bits 0x8000_0000 n < 0x1_0000_0000
to_bits_long (pos n) = omega arith
to_bits_long (negsuc n) = omega arith

-- A word that was written is read, whatever its address.
pub get_word-put_word : (a : ℕ) (n : ℤ) (m : Memory) → IsInt16 n → get_word (put_word a n m) a ≡ n
unfolding get_word put_word to_int16
get_word-put_word a n m h =
    let w = to_bits 0x8000 n in
    let b = two_bytes a w (w / 0x100) m in
    let fits : from_bits 0x8000 w ≡ n = to_int16_fits n h in
    rw (b.0, b.1, word_bytes w (to_bits_bound n)) fits

-- Words whose bytes are others are not changed.
pub get_word-put_word_apart :
    (a b : ℕ) (n : ℤ) (m : Memory)
    → (b + 1 < a) ⊎ (a + 1 < b)
    → get_word (put_word a n m) b ≡ get_word m b
unfolding get_word put_word
get_word-put_word_apart a b n m h =
    let w = to_bits 0x8000 n in let e = two_apart a b w (w / 0x100) m h in rw (e.0, e.1) refl

-- So it is with longs.
pub get_long-put_long : (a : ℕ) (n : ℤ) (m : Memory) → IsInt32 n → get_long (put_long a n m) a ≡ n
unfolding get_long put_long to_int32
get_long-put_long a n m h =
    let w = to_bits 0x8000_0000 n in
    let b = four_bytes a w (w / 0x100) (w / 0x1_0000) (w / 0x100_0000) m in
    let fits : from_bits 0x8000_0000 w ≡ n = to_int32_fits n h in
    rw (b.0, b.1, b.2, b.3, long_bytes w (to_bits_long n)) fits

plus_zero : (b : ℕ) → b + 0 ≡ b
plus_zero b = omega arith

pub get_long-put_long_apart :
    (a b : ℕ) (n : ℤ) (m : Memory)
    → (b + 3 < a) ⊎ (a + 3 < b)
    → get_long (put_long a n m) b ≡ get_long m b
unfolding get_long put_long
get_long-put_long_apart a b n m h =
    let w = to_bits 0x8000_0000 n in
    let e = λ (k : ℕ) (lt : k < 4).
      four_apart a b k w (w / 0x100) (w / 0x1_0000) (w / 0x100_0000) m lt h in
    let e₀ = rw (plus_zero b) at (e 0 (omega arith)) in
    rw (e₀, e 1 (omega arith), e 2 (omega arith), e 3 (omega arith)) refl
