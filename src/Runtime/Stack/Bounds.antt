-- ===== src/Runtime/Stack/Bounds.antt =====
-- oplr/src/STACK.CPP: the stack pointer stays above the cells' lower end, and aligned.
use opl_dev.Prelude.{
  ℕ, ◌+◌, ◌*◌, ◌/◌, ◌%◌, ◌≤◌, List, ◌≡◌, Bool, true, false, length, ltb, leb, Bool-cases, inl, inr,
  arith,
}
use opl_dev.Prelude.Outcome.{Leaves}
use opl_dev.Runtime.Stack.{Item, text, Stack, used, cell_size, text_size, push, push_text}

-- iSP is a multiple of 4, as iBase is, and no more than 4 bytes below iBase, which is 256 bytes
-- above the lower end.
abbrev pub IsBounded : {R : Type 0} → Stack R → Type 0
IsBounded s = (s.capacity % 4 ≡ 0) × (used s.items % 4 ≡ 0) × (used s.items ≤ s.capacity + 4)

abbrev pub is_number_cell : {R : Type 0} → Item R → Bool
is_number_cell (text t) = false
is_number_cell i = true

text_step :
    (n u c m : ℕ)
    → u % 4 ≡ 0
    → ltb c (u + (n * 2 + 1 + 4) / 4 * 4 + m) ≡ false
    → (((n * 2 + 1 + 4) / 4 * 4 + u) % 4 ≡ 0) × ((n * 2 + 1 + 4) / 4 * 4 + u ≤ c + 4)
text_step n u c m hu h = ground arith

module _ {R : Type 0} where
  cell_step :
      (i : Item R) (u c : ℕ)
      → is_number_cell i ≡ true
      → c % 4 ≡ 0
      → u % 4 ≡ 0
      → ltb u c ≡ true
      → ((cell_size i + u) % 4 ≡ 0) × (cell_size i + u ≤ c + 4)
  cell_step i u c n ha hu h = ground arith

  -- A number or an address that is pushed leaves the stack pointer aligned and no more than 4
  -- bytes below the base; or there is no room and the push leaves.
  pub push-IsBounded :
      (i : Item R) (s : Stack R)
      → is_number_cell i ≡ true
      → IsBounded s
      → Leaves IsBounded (push i s)
  unfolding push
  push-IsBounded i s n (hc, hu, h) = elim (Bool-cases (ltb (used s.items) s.capacity)) [
    | inl e ↦ let (a, b) = cell_step i (used s.items) s.capacity n hc hu e in rw e (hc, a, b)
    | inr e ↦ rw e tt
  ]

  -- A text that is pushed is stored only where it ends above the base and above the frame's
  -- reserve; otherwise the push leaves before it copies a byte.
  pub push_text-IsBounded :
      (t : List ℕ) (s : Stack R)
      → length t ≤ 255
      → IsBounded s
      → Leaves (λ s'. IsBounded s' × (used s'.items + s'.max_stack ≤ s'.capacity)) (push_text t s)
  unfolding push_text
  push_text-IsBounded t s short (hc, hu, h) =
      let fits : leb (length t) 255 ≡ true = ground arith in
      elim (Bool-cases (ltb (used s.items) s.capacity)) [
        | inr e ↦ rw e tt
        | inl e ↦ elim (Bool-cases (ltb s.capacity (used s.items + text_size t + s.max_stack))) [
          | inl f ↦ rw (e, fits, f) tt
          | inr f ↦
              (let (a, b) = text_step (length t) (used s.items) s.capacity s.max_stack hu f in
                rw (e, fits, f) ((hc, a, b), ground arith))
        ]
      ]
