-- ===== src/Runtime/Variables/Elements.antt =====
-- oplr/src/PUSHOC.CPP: the elements of arrays, as cells of their own.
use opl_dev.Prelude.{
  ℕ, ◌+◌, ◌-◌, ◌*◌, ◌≤◌, ◌<◌, ◌≡◌, refl, ◌∙◌, ◌⊎◌, inl, inr, true, false, ◌==◌, if◌then◌else◌,
  Bool-cases, arith,
}
use opl_dev.Prelude.Int.{ℤ, pos, negsuc, pos_part, IsInt16}
use opl_dev.Prelude.Outcome.{ok, leave, Returns, subscript}
use opl_dev.Runtime.Memory.{Memory, put_word, get_word}
use opl_dev.Runtime.Memory.Cells.{get_word-put_word, get_word-put_word_apart}
use opl_dev.Runtime.Variables.{jump_to_index, out_of_range, get_element}

-- An index from 1 to the bound
abbrev pub IsIndex : ℤ → ℤ → Type 0
IsIndex max i = (1 ≤ pos_part i) × (pos_part i ≤ pos_part max)

in_range : (max i : ℤ) → out_of_range max i ≡ false → IsIndex max i
in_range (pos n) (pos k) h = (ground arith, ground arith)
in_range (pos n) (negsuc k) h = absurd (ground arith)
in_range (negsuc n) (pos k) h = absurd (ground arith)
in_range (negsuc n) (negsuc k) h = absurd (ground arith)

index_fits :
    (max i : ℤ) (array size : ℕ)
    → IsIndex max i
    → (array ≤ array + (pos_part i - 1) * size)
      × (array + (pos_part i - 1) * size + size ≤ array + pos_part max * size)
index_fits max i array size h = (omega arith, grind arith)

no_index : (max i : ℤ) → out_of_range max i ≡ true → (pos_part i < 1) ⊎ (pos_part max < pos_part i)
no_index (pos n) (pos k) h = ground arith
no_index (pos n) (negsuc k) h = ground arith
no_index (negsuc n) (pos k) h = ground arith
no_index (negsuc n) (negsuc k) h = ground arith

-- For an index from 1 to the bound in front of the array GetElementL gives an address within the
-- array, with room there for an element; every other index leaves with a subscript error.
pub get_element-IsIndex :
    (m : Memory) (array size : ℕ) (index : ℤ)
    → (IsIndex (get_word m (array - 2)) index
        × Returns
            (λ a. (array ≤ a) × (a + size ≤ array + pos_part (get_word m (array - 2)) * size))
            (get_element m array index size))
      ⊎ (((pos_part index < 1) ⊎ (pos_part (get_word m (array - 2)) < pos_part index))
          × (get_element m array index size ≡ leave subscript))
unfolding get_element jump_to_index
get_element-IsIndex m array size index =
    elim (Bool-cases (out_of_range (get_word m (array - 2)) index)) [
      | inl e ↦ inr (no_index (get_word m (array - 2)) index e, rw e refl)
      | inr e ↦
          (let i = in_range (get_word m (array - 2)) index e in
            let f = index_fits (get_word m (array - 2)) index array size i in
            inl (i, rw e (f.0, f.1)))
    ]

get_element-ok :
    (m : Memory) (array size a : ℕ) (index : ℤ)
    → get_element m array index size ≡ ok a
    → IsIndex (get_word m (array - 2)) index × (a ≡ array + (pos_part index - 1) * size)
unfolding get_element jump_to_index
get_element-ok m array size a index h =
    elim (Bool-cases (out_of_range (get_word m (array - 2)) index)) [
      | inl e ↦ (let no : leave subscript ≡ ok a = rw e at h in absurd cc)
      | inr e ↦
          (let same : ok (array + (pos_part index - 1) * size) ≡ ok a = rw e at h in
            (in_range (get_word m (array - 2)) index e, cc))
    ]

same_bound :
    (m m' : Memory) (array size : ℕ) (j : ℤ)
    → get_word m' (array - 2) ≡ get_word m (array - 2)
    → get_element m' array j size ≡ get_element m array j size
unfolding get_element
same_bound m m' array size j e = rw e refl

-- `arr%(i%)=n%`, then `arr%(j%)`: the array's bound is as it was, so that j% is still in range, and
-- the element is n% where j% is i%, and what it was elsewhere.
pub get_element-put_word :
    (m : Memory) (array a b : ℕ) (i j n : ℤ)
    → 2 ≤ array
    → IsInt16 n
    → get_element m array i 2 ≡ ok a
    → get_element m array j 2 ≡ ok b
    → (get_element (put_word a n m) array j 2 ≡ ok b)
      × (get_word (put_word a n m) b ≡ (if pos_part i == pos_part j then n else get_word m b))
get_element-put_word m array a b i j n le h ei ej =
    let (ri, ai) = get_element-ok m array 2 a i ei in
    let (rj, bj) = get_element-ok m array 2 b j ej in
    let above : array ≤ a = omega (arith, ai) in
    let bound : get_word (put_word a n m) (array - 2) ≡ get_word m (array - 2) =
      get_word-put_word_apart a (array - 2) n m (inl (omega (arith, above, le))) in
    (
      same_bound m (put_word a n m) array 2 j bound ∙ ej,
      elim (Bool-cases (pos_part i == pos_part j)) [
        | inl e ↦
            (let eq : b ≡ a = same_place array a b i j e ai bj in
              rw (e, eq) (get_word-put_word a n m h))
        | inr e ↦ rw e (get_word-put_word_apart a b n m (apart array a b i j e ri.0 rj.0 ai bj))
      ],
    )
  where
    same_place :
        (array a b : ℕ) (i j : ℤ)
        → (pos_part i == pos_part j) ≡ true
        → a ≡ array + (pos_part i - 1) * 2
        → b ≡ array + (pos_part j - 1) * 2
        → b ≡ a
    same_place array a b i j e ai bj = ground arith

    apart :
        (array a b : ℕ) (i j : ℤ)
        → (pos_part i == pos_part j) ≡ false
        → 1 ≤ pos_part i
        → 1 ≤ pos_part j
        → a ≡ array + (pos_part i - 1) * 2
        → b ≡ array + (pos_part j - 1) * 2
        → (b + 1 < a) ⊎ (a + 1 < b)
    apart array a b i j e ri rj ai bj = ground arith
