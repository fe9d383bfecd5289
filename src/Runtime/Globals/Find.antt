-- ===== src/Runtime/Globals/Find.antt =====
-- oplr/src/GLOBTBL.CPP: what Find gives after AddL.
use opl_dev.Prelude.{
  ℕ, List, [], ◌∷◌, ◌≡◌, refl, sym, ap, true, false, ◌&&◌, some, ◌==◌, if◌then◌else◌, Bool-cases,
  inl, inr, arith,
}
use opl_dev.Runtime.Globals.{Table, get_hash_value, same_name, add, find}

pub same_name_equal : (s t : List ℕ) → same_name s t ≡ true → s ≡ t
same_name_equal [] [] h = refl
same_name_equal [] (c ∷ t) h = cc
same_name_equal (b ∷ s) [] h = cc
same_name_equal (b ∷ s) (c ∷ t) h = elim (Bool-cases (b == c)) [
  | inl e ↦
      (let rest : s ≡ t = same_name_equal s t (rw e at h) in let head : b ≡ c = ground arith in cc)
  | inr e ↦ let no : false ≡ true = rw e at h in cc
]

pub equal_self : (n : ℕ) → (n == n) ≡ true
equal_self n = ground arith

different_names :
    (s t : List ℕ) → (get_hash_value t == get_hash_value s) ≡ false → same_name s t ≡ false
different_names s t h = elim (Bool-cases (same_name s t)) [
  | inl e ↦
      (let same : get_hash_value t ≡ get_hash_value s =
          ap get_hash_value (sym (same_name_equal s t e)) in
        absurd (omega_clash (get_hash_value t) (get_hash_value s) same h))
  | inr e ↦ e
]
  where
    omega_clash : (a b : ℕ) → a ≡ b → (a == b) ≡ false → ⊥
    omega_clash a b e h = ground arith

-- After a global was added, Find gives its address for its name and type, and for every other
-- name or type what it gave before: a new global hides an older one that has the same name and
-- type, and no other.
pub find-add :
    (name name' : List ℕ) (type type' ptr : ℕ) (t : Table)
    → find name' type' (add name type ptr t)
      ≡ (if same_name name name' && (type == type') then some ptr else find name' type' t)
unfolding find add
find-add name name' type type' ptr t =
    elim (Bool-cases (get_hash_value name' == get_hash_value name)) [
      | inl e ↦
          (let same : get_hash_value name' ≡ get_hash_value name = ground arith in
            rw (e, same) refl)
      | inr e ↦ rw (e, different_names name name' e) refl
    ]
