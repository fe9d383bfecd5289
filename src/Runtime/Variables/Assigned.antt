-- ===== src/Runtime/Variables/Assigned.antt =====
-- oplr/src/ASSIGN.CPP: what a variable holds after an assignment.
use opl_dev.Prelude.{
  ℕ, ◌+◌, ◌*◌, ◌/◌, ◌%◌, ◌≤◌, ◌<◌, List, [], ◌∷◌, ◌≡◌, refl, ap, ◌∙◌, ◌⊎◌, inl, inr, true, length,
  ltb, leb, Bool-cases, arith,
}
use opl_dev.Prelude.Int.{ℤ, pos, from_bits, IsInt16, IsInt32, ltb_ℤ}
use opl_dev.Prelude.Outcome.{ok, leave, ◌>>=◌, Returns, str_too_long}
use opl_dev.Runtime.Memory.{
  Memory, byte, set, get_word, get_long, put_units, get_units, put_text, get_text,
}
use opl_dev.Runtime.Memory.Cells.{
  get_word-put_word, get_word-put_word_apart, get_long-put_long, get_long-put_long_apart,
}
use opl_dev.Runtime.Stack.{
  Stack, Item, int16, int32, ref_text, text, used, push, pop_int16, pop_int32, pop_text,
  pop_ref_int16, pop_ref_int32, pop_ref_text, push_text,
}
use opl_dev.Runtime.Variables.{
  Machine, Fields, right_side_string, left_side_int, left_side_long, assign_int, assign_long,
  assign_string,
}

module _ {R : Type 0} where
  push_room :
      (i : Item R) (s : Stack R)
      → used s.items < s.capacity
      → push i s ≡ ok (record s { items = i ∷ s.items })
  unfolding push
  push_room i s h = let room : ltb (used s.items) s.capacity ≡ true = ground arith in rw room refl

  -- The stack is as it was, the variable has the value, and words with other bytes are as they
  -- were.
  abbrev pub HoldsWord : ℕ → ℤ → Stack R → Memory → Machine R → Type 0
  HoldsWord a n s m k =
      (k.stack ≡ s)
      × (get_word k.memory a ≡ n)
      × ((b : ℕ) → (b + 1 < a) ⊎ (a + 1 < b) → get_word k.memory b ≡ get_word m b)

  -- `x%=n%` on a stack with room for three cells: the left side, the value and AssignInt return,
  -- the variable then has the value, and words with other bytes are as they were.
  pub assign_int-left_side_int :
      (db : Fields R) (a : ℕ) (n : ℤ) (s : Stack R) (m : Memory)
      → IsInt16 n
      → used s.items + 8 < s.capacity
      → Returns (HoldsWord a n s m) (
          left_side_int a s >>= push (int16 n) >>= λ s'.
          assign_int db (record { stack = s'; memory = m }))
  unfolding left_side_int assign_int push pop_int16 pop_ref_int16
  assign_int-left_side_int db a n s m h room =
      let r₁ : ltb (used s.items) s.capacity ≡ true = ground arith in
      let r₂ : ltb (4 + used s.items) s.capacity ≡ true = ground arith in
      let r₃ : ltb (4 + (4 + used s.items)) s.capacity ≡ true = ground arith in
      rw (r₁, r₂, r₃) (refl, get_word-put_word a n m h, λ b x. get_word-put_word_apart a b n m x)

  abbrev pub HoldsLong : ℕ → ℤ → Stack R → Memory → Machine R → Type 0
  HoldsLong a n s m k =
      (k.stack ≡ s)
      × (get_long k.memory a ≡ n)
      × ((b : ℕ) → (b + 3 < a) ⊎ (a + 3 < b) → get_long k.memory b ≡ get_long m b)

  -- So it is with `x&=n&`.
  pub assign_long-left_side_long :
      (db : Fields R) (a : ℕ) (n : ℤ) (s : Stack R) (m : Memory)
      → IsInt32 n
      → used s.items + 8 < s.capacity
      → Returns (HoldsLong a n s m) (
          left_side_long a s >>= push (int32 n) >>= λ s'.
          assign_long db (record { stack = s'; memory = m }))
  unfolding left_side_long assign_long push pop_int16 pop_int32 pop_ref_int32
  assign_long-left_side_long db a n s m h room =
      let r₁ : ltb (used s.items) s.capacity ≡ true = ground arith in
      let r₂ : ltb (4 + used s.items) s.capacity ≡ true = ground arith in
      let r₃ : ltb (4 + (4 + used s.items)) s.capacity ≡ true = ground arith in
      rw (r₁, r₂, r₃) (refl, get_long-put_long a n m h, λ b x. get_long-put_long_apart a b n m x)

-- Code units of 16 bits
abbrev pub AreUnits : List ℕ → Type 0
AreUnits [] = Unit
AreUnits (c ∷ cs) = (c < 0x1_0000) × AreUnits cs

put_units_below : (t : List ℕ) (a k : ℕ) (m : Memory) → k < a → put_units a t m k ≡ m k
put_units_below [] a k m lt = refl
put_units_below (c ∷ cs) a k m lt =
    let later : k < a + 2 = omega (arith, lt) in
    put_units_below cs (a + 2) k (set (a + 1) (c / 0x100) (set a c m)) later
    ∙ not_there a k (c / 0x100) c m lt
  where
    not_there : (a k x y : ℕ) (m : Memory) → k < a → set (a + 1) x (set a y m) k ≡ m k
    not_there a k x y m lt = ground arith

unit_bytes :
    (a c : ℕ) (m : Memory)
    → c < 0x1_0000
    → byte (set (a + 1) (c / 0x100) (set a c m)) a
        + 0x100 * byte (set (a + 1) (c / 0x100) (set a c m)) (a + 1)
      ≡ c
unit_bytes a c m lt =
    let low : set (a + 1) (c / 0x100) (set a c m) a ≡ c % 0x100 = ground arith in
    let high : set (a + 1) (c / 0x100) (set a c m) (a + 1) ≡ c / 0x100 % 0x100 = ground arith in
    rw (low, high) (omega (arith, lt))

get_units-put_units :
    (t : List ℕ) (a : ℕ) (m : Memory) → AreUnits t → get_units (length t) a (put_units a t m) ≡ t
get_units-put_units [] a m u = refl
get_units-put_units (c ∷ cs) a m u =
    let m' = set (a + 1) (c / 0x100) (set a c m) in
    let low = put_units_below cs (a + 2) a m' (omega arith) in
    let high = put_units_below cs (a + 2) (a + 1) m' (omega arith) in
    rw (low, high, get_units-put_units cs (a + 2) m' u.1) (ap (λ x. x ∷ cs) (unit_bytes a c m u.0))

length_word :
    (t : List ℕ) (a : ℕ) (m : Memory)
    → length t ≤ 255
    → byte m (a + 1) ≡ 0
    → (get_word (put_text a t m) a ≡ pos (length t)) × (byte (put_text a t m) (a + 1) ≡ 0)
unfolding get_word put_text
length_word t a m le zero_high =
    let m' = set a (length t) m in
    let low : m' a ≡ length t % 0x100 = ground arith in
    let high : m' (a + 1) ≡ m (a + 1) = ground arith in
    let low' : byte (put_units (a + 2) t m') a ≡ length t =
      ap (λ x. x % 0x100) (put_units_below t (a + 2) a m' (omega arith) ∙ low)
      ∙ omega (arith, le) in
    let high' : byte (put_units (a + 2) t m') (a + 1) ≡ 0 =
      ap (λ x. x % 0x100) (put_units_below t (a + 2) (a + 1) m' (omega arith) ∙ high) ∙ zero_high in
    (rw (low', high') (small_word (length t) le), high')
  where
    small_word : (n : ℕ) → n ≤ 255 → from_bits 0x8000 (n + 0x100 * 0) ≡ pos n
    small_word n le = ground arith

module _ {R : Type 0} where
  -- The stack is as it was, the high byte of the text's length is 0, and the variable's right side
  -- is the text.
  abbrev pub HoldsText : ℕ → List ℕ → Stack R → Machine R → Type 0
  HoldsText a t s k =
      (k.stack ≡ s)
      × (byte k.memory (a + 1) ≡ 0)
      × ((s' : Stack R) → right_side_string k.memory a s' ≡ push_text t s')

  -- A text of at most 255 units that was written is what the variable's right side pushes, and the
  -- high byte of its length is still 0.
  right_side_string-put_text :
      (t : List ℕ) (a : ℕ) (s : Stack R) (m : Memory)
      → AreUnits t
      → length t ≤ 255
      → byte m (a + 1) ≡ 0
      → HoldsText a t s (record { stack = s; memory = put_text a t m })
  unfolding right_side_string get_text put_text
  right_side_string-put_text t a s m u le zero_high =
      let (size, high) = length_word t a m le zero_high in
      (refl, high, λ s'. rw size (ap (λ x. push_text x s') (read_units t a m u)))
    where
      read_units :
          (t : List ℕ) (a : ℕ) (m : Memory)
          → AreUnits t
          → get_units (length t) (a + 2) (put_text a t m) ≡ t
      read_units t a m u = get_units-put_units t (a + 2) (set a (length t) m) u

  -- `x$=t$` with room on the stack, in a variable whose length has a high byte of 0, as in one that
  -- was cleared: where the text is not longer than the variable can hold, the stack is as it was,
  -- the high byte is still 0, and the variable's right side then pushes the text; a longer one is
  -- refused before memory is written.
  pub assign_string-text :
      (db : Fields R) (a : ℕ) (max_len : ℕ) (t : List ℕ) (s : Stack R) (m : Memory)
      → AreUnits t
      → length t ≤ 255
      → byte m (a + 1) ≡ 0
      → ((length t ≤ max_len)
          × Returns (HoldsText a t s) (
              assign_string db (record {
                stack = record s {
                  items = text t ∷ int16 (pos 0) ∷ ref_text a ∷ int16 (pos max_len) ∷ s.items;
                };
                memory = m;
              })))
        ⊎ ((max_len < length t)
            × (assign_string db (record {
              stack = record s {
                items = text t ∷ int16 (pos 0) ∷ ref_text a ∷ int16 (pos max_len) ∷ s.items;
              };
              memory = m;
            })
                ≡ leave str_too_long))
  unfolding assign_string pop_text pop_int16 pop_ref_text
  assign_string-text db a max_len t s m u le zero_high =
      let short : leb (length t) 255 ≡ true = ground arith in
      elim (Bool-cases (ltb_ℤ (pos max_len) (pos (length t)))) [
        | inl e ↦ inr (ground arith, rw (short, e) refl)
        | inr e ↦
            inl (ground arith, rw (short, e) (right_side_string-put_text t a s m u le zero_high))
      ]
