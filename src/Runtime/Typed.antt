-- ===== src/Runtime/Typed.antt =====
-- What it is for the runtime's stack (oplr/src/STACK.CPP) to hold values of given types, and what
-- pops and pushes do to it. A value of a type is of its cell's kind and within its bounds.
pub mod Opcodes
use opl_dev.Prelude.{
  ℕ, ◌+◌, ◌≤◌, ◌<◌, List, [], ◌∷◌, ◌≡◌, refl, Bool, true, false, length, ltb, leb, if◌then◌else◌,
  Bool-cases, inl, inr, arith,
}
use opl_dev.Prelude.Int.{
  ℤ, IsInt16, IsInt32, to_int16, to_int32, to_int16-IsInt16, to_int32-IsInt32,
}
use opl_dev.Prelude.Outcome.{Outcome, ok, leave, panic, ◌>>=◌, Leaves, Leaves-bind}
use opl_dev.Translator.Token.{OplType, word, long, real, string, u_word}
use opl_dev.Runtime.Stack.{
  Item, int16, int32, real64, text, Stack, push, push_text, pop_int16, pop_int32, pop_real64,
  pop_text, used, text_size,
}
use opl_dev.Runtime.Arith.{with_ints, with_longs, with_floats, with_texts, push_int, push_long}

module _ {R : Type 0} where
  abbrev pub HasType : OplType → Item R → Type 0
  HasType word (int16 n) = IsInt16 n
  HasType u_word (int16 n) = IsInt16 n
  HasType long (int32 n) = IsInt32 n
  HasType real (real64 x) = Unit
  HasType string (text t) = length t ≤ 255
  HasType t i = ⊥

  abbrev pub HasTypes : List OplType → List (Item R) → Type 0
  HasTypes [] items = Unit
  HasTypes (t ∷ ts) [] = ⊥
  HasTypes (t ∷ ts) (i ∷ items) = HasType t i × HasTypes ts items

  -- The stack has values of the types on top.
  abbrev pub Typed : List OplType → Stack R → Type 0
  Typed ts s = HasTypes ts s.items

  -- From operands of the types `ins`, top first, the opcode gives a value of type `out` in their
  -- place, or leaves.
  abbrev pub TypedOpcode : List OplType → OplType → (Stack R → Outcome (Stack R)) → Type 0
  TypedOpcode [] out f = Unit
  TypedOpcode (a ∷ []) out f =
      (ts : List OplType) (s : Stack R) → Typed (a ∷ ts) s → Leaves (Typed (out ∷ ts)) (f s)
  TypedOpcode (a ∷ b ∷ ins) out f =
      (ts : List OplType) (s : Stack R) → Typed (a ∷ b ∷ ts) s → Leaves (Typed (out ∷ ts)) (f s)

  abbrev stack : List (Item R) → ℕ → ℕ → Stack R
  stack is capacity max = record { items = is; capacity = capacity; max_stack = max }

  pop_int16_items :
      (ts : List OplType) (is : List (Item R)) (c m : ℕ)
      → HasTypes (word ∷ ts) is
      → Leaves (λ r. IsInt16 r.0 × Typed ts r.1) (pop_int16 (stack is c m))
  unfolding pop_int16
  pop_int16_items ts [] c m h = absurd h
  pop_int16_items ts (int16 v ∷ is) c m h = h
  pop_int16_items ts (int32 v ∷ is) c m h = absurd h.0
  pop_int16_items ts (real64 v ∷ is) c m h = absurd h.0
  pop_int16_items ts (text v ∷ is) c m h = absurd h.0
  pop_int16_items ts (Item.ref_int16 v ∷ is) c m h = absurd h.0
  pop_int16_items ts (Item.ref_int32 v ∷ is) c m h = absurd h.0
  pop_int16_items ts (Item.ref_real64 v ∷ is) c m h = absurd h.0
  pop_int16_items ts (Item.ref_text v ∷ is) c m h = absurd h.0

  pub pop_int16-Typed :
      (ts : List OplType) (s : Stack R)
      → Typed (word ∷ ts) s
      → Leaves (λ r. IsInt16 r.0 × Typed ts r.1) (pop_int16 s)
  pop_int16-Typed ts s h = pop_int16_items ts s.items s.capacity s.max_stack h

  pop_int32_items :
      (ts : List OplType) (is : List (Item R)) (c m : ℕ)
      → HasTypes (long ∷ ts) is
      → Leaves (λ r. IsInt32 r.0 × Typed ts r.1) (pop_int32 (stack is c m))
  unfolding pop_int32
  pop_int32_items ts [] c m h = absurd h
  pop_int32_items ts (int16 v ∷ is) c m h = absurd h.0
  pop_int32_items ts (int32 v ∷ is) c m h = h
  pop_int32_items ts (real64 v ∷ is) c m h = absurd h.0
  pop_int32_items ts (text v ∷ is) c m h = absurd h.0
  pop_int32_items ts (Item.ref_int16 v ∷ is) c m h = absurd h.0
  pop_int32_items ts (Item.ref_int32 v ∷ is) c m h = absurd h.0
  pop_int32_items ts (Item.ref_real64 v ∷ is) c m h = absurd h.0
  pop_int32_items ts (Item.ref_text v ∷ is) c m h = absurd h.0

  pub pop_int32-Typed :
      (ts : List OplType) (s : Stack R)
      → Typed (long ∷ ts) s
      → Leaves (λ r. IsInt32 r.0 × Typed ts r.1) (pop_int32 s)
  pop_int32-Typed ts s h = pop_int32_items ts s.items s.capacity s.max_stack h

  pop_real64_items :
      (ts : List OplType) (is : List (Item R)) (c m : ℕ)
      → HasTypes (real ∷ ts) is
      → Leaves (λ r. Unit × Typed ts r.1) (pop_real64 (stack is c m))
  unfolding pop_real64
  pop_real64_items ts [] c m h = absurd h
  pop_real64_items ts (int16 v ∷ is) c m h = absurd h.0
  pop_real64_items ts (int32 v ∷ is) c m h = absurd h.0
  pop_real64_items ts (real64 v ∷ is) c m h = h
  pop_real64_items ts (text v ∷ is) c m h = absurd h.0
  pop_real64_items ts (Item.ref_int16 v ∷ is) c m h = absurd h.0
  pop_real64_items ts (Item.ref_int32 v ∷ is) c m h = absurd h.0
  pop_real64_items ts (Item.ref_real64 v ∷ is) c m h = absurd h.0
  pop_real64_items ts (Item.ref_text v ∷ is) c m h = absurd h.0

  pub pop_real64-Typed :
      (ts : List OplType) (s : Stack R)
      → Typed (real ∷ ts) s
      → Leaves (λ r. Unit × Typed ts r.1) (pop_real64 s)
  pop_real64-Typed ts s h = pop_real64_items ts s.items s.capacity s.max_stack h

  pop_text_items :
      (ts : List OplType) (is : List (Item R)) (c m : ℕ)
      → HasTypes (string ∷ ts) is
      → Leaves (λ r. (length r.0 ≤ 255) × Typed ts r.1) (pop_text (stack is c m))
  unfolding pop_text
  pop_text_items ts [] c m h = absurd h
  pop_text_items ts (int16 v ∷ is) c m h = absurd h.0
  pop_text_items ts (int32 v ∷ is) c m h = absurd h.0
  pop_text_items ts (real64 v ∷ is) c m h = absurd h.0
  pop_text_items ts (text v ∷ is) c m h =
      let short : leb (length v) 255 ≡ true = ground arith in rw short h
  pop_text_items ts (Item.ref_int16 v ∷ is) c m h = absurd h.0
  pop_text_items ts (Item.ref_int32 v ∷ is) c m h = absurd h.0
  pop_text_items ts (Item.ref_real64 v ∷ is) c m h = absurd h.0
  pop_text_items ts (Item.ref_text v ∷ is) c m h = absurd h.0

  pub pop_text-Typed :
      (ts : List OplType) (s : Stack R)
      → Typed (string ∷ ts) s
      → Leaves (λ r. (length r.0 ≤ 255) × Typed ts r.1) (pop_text s)
  pop_text-Typed ts s h = pop_text_items ts s.items s.capacity s.max_stack h

  push-Typed :
      (t : OplType) (i : Item R) (ts : List OplType) (s : Stack R)
      → HasType t i
      → Typed ts s
      → Leaves (Typed (t ∷ ts)) (push i s)
  unfolding push
  push-Typed t i ts s h hs = elim (Bool-cases (ltb (used s.items) s.capacity)) [
    | inl e ↦ rw e (h, hs)
    | inr e ↦ rw e tt
  ]

  pub push_int-Typed :
      (n : ℤ) (ts : List OplType) (s : Stack R)
      → Typed ts s
      → Leaves (Typed (word ∷ ts)) (push_int n s)
  push_int-Typed n ts s hs = push-Typed word _ ts s (to_int16-IsInt16 n) hs

  pub push_u_int-Typed :
      (n : ℤ) (ts : List OplType) (s : Stack R)
      → Typed ts s
      → Leaves (Typed (u_word ∷ ts)) (push_int n s)
  push_u_int-Typed n ts s hs = push-Typed u_word _ ts s (to_int16-IsInt16 n) hs

  pub push_long-Typed :
      (n : ℤ) (ts : List OplType) (s : Stack R)
      → Typed ts s
      → Leaves (Typed (long ∷ ts)) (push_long n s)
  push_long-Typed n ts s hs = push-Typed long _ ts s (to_int32-IsInt32 n) hs

  pub push_real-Typed :
      (x : R) (ts : List OplType) (s : Stack R)
      → Typed ts s
      → Leaves (Typed (real ∷ ts)) (push (real64 x) s)
  push_real-Typed x ts s hs = push-Typed real (real64 x) ts s tt hs

  pub push_text-Typed :
      (t : List ℕ) (ts : List OplType) (s : Stack R)
      → length t ≤ 255
      → Typed ts s
      → Leaves (Typed (string ∷ ts)) (push_text t s)
  unfolding push_text
  push_text-Typed t ts s h hs =
      let short : leb (length t) 255 ≡ true = ground arith in
      elim (Bool-cases (ltb (used s.items) s.capacity)) [
        | inr e ↦ rw e tt
        | inl e ↦ elim (Bool-cases (ltb s.capacity (used s.items + text_size t + s.max_stack))) [
          | inl f ↦ rw (e, short, f) tt
          | inr f ↦ rw (e, short, f) (h, hs)
        ]
      ]

  pub with_ints-Typed :
      (out : OplType) (f : ℤ → ℤ → Stack R → Outcome (Stack R))
      → ((l r : ℤ) (ts : List OplType) (s : Stack R)
          → IsInt16 l
          → IsInt16 r
          → Typed ts s
          → Leaves (Typed (out ∷ ts)) (f l r s))
      → TypedOpcode (word ∷ word ∷ []) out (with_ints f)
  with_ints-Typed out f k ts s h =
      Leaves-bind (Typed (out ∷ ts)) (pop_int16 s) _ (pop_int16-Typed (word ∷ ts) s h) λ r a.
        Leaves-bind (Typed (out ∷ ts)) (pop_int16 r.1) _ (pop_int16-Typed ts r.1 a.1)
          λ l b. k l.0 r.0 ts l.1 b.0 a.0 b.1

  pub with_longs-Typed :
      (out : OplType) (f : ℤ → ℤ → Stack R → Outcome (Stack R))
      → ((l r : ℤ) (ts : List OplType) (s : Stack R)
          → IsInt32 l
          → IsInt32 r
          → Typed ts s
          → Leaves (Typed (out ∷ ts)) (f l r s))
      → TypedOpcode (long ∷ long ∷ []) out (with_longs f)
  with_longs-Typed out f k ts s h =
      Leaves-bind (Typed (out ∷ ts)) (pop_int32 s) _ (pop_int32-Typed (long ∷ ts) s h) λ r a.
        Leaves-bind (Typed (out ∷ ts)) (pop_int32 r.1) _ (pop_int32-Typed ts r.1 a.1)
          λ l b. k l.0 r.0 ts l.1 b.0 a.0 b.1

  pub with_floats-Typed :
      (out : OplType) (f : R → R → Stack R → Outcome (Stack R))
      → ((l r : R) (ts : List OplType) (s : Stack R)
          → Typed ts s
          → Leaves (Typed (out ∷ ts)) (f l r s))
      → TypedOpcode (real ∷ real ∷ []) out (with_floats f)
  with_floats-Typed out f k ts s h =
      Leaves-bind (Typed (out ∷ ts)) (pop_real64 s) _ (pop_real64-Typed (real ∷ ts) s h) λ r a.
        Leaves-bind (Typed (out ∷ ts)) (pop_real64 r.1) _ (pop_real64-Typed ts r.1 a.1)
          λ l b. k l.0 r.0 ts l.1 b.1

  pub with_texts-Typed :
      (out : OplType) (f : List ℕ → List ℕ → Stack R → Outcome (Stack R))
      → ((l r : List ℕ) (ts : List OplType) (s : Stack R)
          → length l ≤ 255
          → length r ≤ 255
          → Typed ts s
          → Leaves (Typed (out ∷ ts)) (f l r s))
      → TypedOpcode (string ∷ string ∷ []) out (with_texts f)
  with_texts-Typed out f k ts s h =
      Leaves-bind (Typed (out ∷ ts)) (pop_text s) _ (pop_text-Typed (string ∷ ts) s h) λ r a.
        Leaves-bind (Typed (out ∷ ts)) (pop_text r.1) _ (pop_text-Typed ts r.1 a.1)
          λ l b. k l.0 r.0 ts l.1 b.0 a.0 b.1

  pub with_int16-Typed :
      (out : OplType) (f : ℤ × Stack R → Outcome (Stack R))
      → ((n : ℤ) (ts : List OplType) (s : Stack R)
          → Typed ts s
          → Leaves (Typed (out ∷ ts)) (f (n, s)))
      → TypedOpcode (word ∷ []) out (λ s. pop_int16 s >>= f)
  with_int16-Typed out f k ts s h =
      Leaves-bind (Typed (out ∷ ts)) (pop_int16 s) f (pop_int16-Typed ts s h)
        λ r a. k r.0 ts r.1 a.1

  pub with_int32-Typed :
      (out : OplType) (f : ℤ × Stack R → Outcome (Stack R))
      → ((n : ℤ) (ts : List OplType) (s : Stack R)
          → Typed ts s
          → Leaves (Typed (out ∷ ts)) (f (n, s)))
      → TypedOpcode (long ∷ []) out (λ s. pop_int32 s >>= f)
  with_int32-Typed out f k ts s h =
      Leaves-bind (Typed (out ∷ ts)) (pop_int32 s) f (pop_int32-Typed ts s h)
        λ r a. k r.0 ts r.1 a.1

  pub with_real64-Typed :
      (out : OplType) (f : R × Stack R → Outcome (Stack R))
      → ((n : R) (ts : List OplType) (s : Stack R)
          → Typed ts s
          → Leaves (Typed (out ∷ ts)) (f (n, s)))
      → TypedOpcode (real ∷ []) out (λ s. pop_real64 s >>= f)
  with_real64-Typed out f k ts s h =
      Leaves-bind (Typed (out ∷ ts)) (pop_real64 s) f (pop_real64-Typed ts s h)
        λ r a. k r.0 ts r.1 a.1

  pub with_text-Typed :
      (out : OplType) (f : List ℕ × Stack R → Outcome (Stack R))
      → ((n : List ℕ) (ts : List OplType) (s : Stack R)
          → Typed ts s
          → Leaves (Typed (out ∷ ts)) (f (n, s)))
      → TypedOpcode (string ∷ []) out (λ s. pop_text s >>= f)
  with_text-Typed out f k ts s h =
      Leaves-bind (Typed (out ∷ ts)) (pop_text s) f (pop_text-Typed ts s h) λ r a. k r.0 ts r.1 a.1
