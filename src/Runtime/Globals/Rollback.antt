-- ===== src/Runtime/Globals/Rollback.antt =====
-- oplr/src/GLOBTBL.CPP with CProcedure::AddGlobalsL and ~CFrame (oplr/src/FRAME.CPP): the table
-- after a call that failed, and after one that ended.
use mathlib.Core.Path.{subst}
use opl_dev.Prelude.{
  ℕ, zero, suc, ◌+◌, ◌≤◌, ◌<◌, List, [], ◌∷◌, ◌++◌, ◌≡◌, refl, sym, ap, ◌∙◌, true, false, Option,
  length, ◌==◌, if◌then◌else◌, Bool-cases, inl, inr, arith,
}
use opl_dev.Prelude.Outcome.{ok, ◌>>=◌, Returns, Returns-bind, Returns-weaken}
use opl_dev.Runtime.Globals.{
  Global, Table, Declared, get_hash_value, update, add, remove, prepare_to_add, first_address,
  remove_added, all_lists, remove_added_globals, add_all, remove_all,
}

-- All addresses are from `n` on; or below.
abbrev pub AllFrom : ℕ → List Global → Type 0
AllFrom n [] = Unit
AllFrom n (g ∷ gs) = (n ≤ g.address) × AllFrom n gs

abbrev pub AllBelow : ℕ → List Global → Type 0
AllBelow n [] = Unit
AllBelow n (g ∷ gs) = (g.address < n) × AllBelow n gs

-- Entries have addresses of their own: a new one's is none of theirs.
abbrev pub IsFresh : Table → Type 0
IsFresh t = (k : ℕ) → AllBelow t.next (t.lists k)

abbrev hit : ℕ → Declared → ℕ
hit k d = if k == get_hash_value d.name then 1 else 0

-- How many of the globals go to a list.
abbrev hits : ℕ → List Declared → ℕ
hits k [] = 0
hits k (d ∷ ds) = hit k d + hits k ds

-- The lists of `t` are those of `base` with `count k` new entries in front, from address `n` on.
abbrev GrownBy : (ℕ → ℕ) → ℕ → (ℕ → List Global) → (ℕ → List Global) → Type 0
GrownBy count n base lists =
    (k : ℕ)
    → (new : List Global) × (lists k ≡ new ++ base k) × (length new ≡ count k) × AllFrom n new

remove_added-new :
    (n : ℕ) (new base : List Global)
    → AllFrom n new
    → AllBelow n base
    → remove_added (first_address base) (new ++ base) ≡ ok base
unfolding remove_added
remove_added-new n [] [] h b = refl
remove_added-new n [] (g ∷ gs) h b =
    let same : (g.address == g.address) ≡ true = ground arith in rw same refl
remove_added-new n (x ∷ new) [] h b = remove_added-new n new [] h.1 b
remove_added-new n (x ∷ new) (g ∷ gs) h b =
    let other : (x.address == g.address) ≡ false = ground arith in
    rw other (remove_added-new n new (g ∷ gs) h.1 b)

add-GrownBy :
    (cell : ℕ) (d : Declared) (t : Table) (n : ℕ) (base : ℕ → List Global) (count : ℕ → ℕ)
    → n ≤ t.next
    → GrownBy count n base t.lists
    → GrownBy (λ k. count k + hit k d) n base (add d.name d.type (cell + d.offset) t).lists
unfolding add
add-GrownBy cell d t n base count le g k =
    let (new, e, len, from) = g k in
    let h = get_hash_value d.name in
    let global : Global = record {
      address = t.next;
      name = d.name;
      type = d.type;
      ptr = cell + d.offset;
    } in
    elim (Bool-cases (k == h)) [
      | inl same ↦
          (let eq : h ≡ k = ground arith in
            (
              global ∷ new,
              rw same (ap (λ l. global ∷ l) (ap t.lists eq ∙ e)),
              rw same (omega (arith, len)),
              (le, from),
            ))
      | inr other ↦ (new, rw other e, rw other (omega (arith, len)), from)
    ]

add_all-GrownBy :
    (cell : ℕ) (ds : List Declared) (t : Table) (n : ℕ) (base : ℕ → List Global) (count : ℕ → ℕ)
    → n ≤ t.next
    → GrownBy count n base t.lists
    → GrownBy (λ k. count k + hits k ds) n base (add_all cell ds t).lists
unfolding add_all add
add_all-GrownBy cell [] t n base count le g =
    λ k. let (new, e, len, from) = g k in (new, e, omega (arith, len), from)
add_all-GrownBy cell (d ∷ ds) t n base count le g = λ k.
    let later : n ≤ suc t.next = omega (arith, le) in
    let (new, e, len, from) =
      add_all-GrownBy cell ds (add d.name d.type (cell + d.offset) t) n base _ later
        (add-GrownBy cell d t n base count le g) k in
    (new, e, omega (arith, len), from)

-- An AddL that is followed leaves the marks alone.
add_all-marks : (cell : ℕ) (ds : List Declared) (t : Table) → (add_all cell ds t).marks ≡ t.marks
unfolding add_all add
add_all-marks cell [] t = refl
add_all-marks cell (d ∷ ds) t = add_all-marks cell ds (add d.name d.type (cell + d.offset) t)

abbrev Swept : ℕ → (ℕ → List Global) → (ℕ → List Global) → (ℕ → List Global) → Type 0
Swept count lists base l =
    ((k : ℕ) → k < count → l k ≡ base k) × ((k : ℕ) → count ≤ k → l k ≡ lists k)

update_other :
    (lists : ℕ → List Global) (c : ℕ) (l : List Global) (k : ℕ)
    → (k == c) ≡ false
    → update lists c l k ≡ lists k
update_other lists c l k h = rw h refl

update_self :
    (lists : ℕ → List Global) (c : ℕ) (l : List Global) (k : ℕ)
    → (k == c) ≡ true
    → update lists c l k ≡ l
update_self lists c l k h = rw h refl

Swept-more :
    (c : ℕ) (lists base l : ℕ → List Global)
    → Swept c (update lists c (base c)) base l
    → Swept (suc c) lists base l
Swept-more c lists base l (below, above) = (
  (λ k lt. elim (Bool-cases (k == c)) [
    | inl same ↦
        (let eq : c ≤ k = ground arith in
          let k_c : k ≡ c = ground arith in
          above k eq ∙ update_self lists c (base c) k same ∙ ap base (sym k_c))
    | inr other ↦ below k (ground arith)
  ]),
  (λ k le.
      let later : c ≤ k = omega (arith, le) in
      let other : (k == c) ≡ false = ground arith in
      above k later ∙ update_other lists c (base c) k other),
)

all_lists-Swept :
    (count : ℕ) (lists base : ℕ → List Global) (marks : ℕ → Option ℕ)
    → ((k : ℕ) → k < count → remove_added (marks k) (lists k) ≡ ok (base k))
    → Returns (Swept count lists base) (all_lists lists marks count)
all_lists-Swept zero lists base marks h = ((λ k lt. absurd (omega (arith, lt))), (λ k le. refl))
all_lists-Swept (suc c) lists base marks h =
    let here : c < suc c = omega arith in
    let lists' = update lists c (base c) in
    rw (h c here) (
      Returns-weaken (all_lists lists' marks c) (λ l swept. Swept-more c lists base l swept)
        (all_lists-Swept c lists' base marks λ k lt.
          let other : (k == c) ≡ false = ground arith in
          let sooner : k < suc c = omega (arith, lt) in
          rw (update_other lists c (base c) k other) (h k sooner)))

-- A table that has the 16 lists of another.
abbrev pub SameLists : Table → Table → Type 0
SameLists t t' = (k : ℕ) → k < 16 → t'.lists k ≡ t.lists k

-- After AddGlobalsL failed, its cleanup item takes the table's 16 lists back to what they were
-- before PrepareToAddC, whatever globals had been added until then; it does not panic. The table's
-- entries have addresses of their own.
pub remove_added_globals-add_all :
    (t : Table) (cell : ℕ) (ds : List Declared)
    → IsFresh t
    → Returns (SameLists t) (remove_added_globals (add_all cell ds (prepare_to_add t)))
unfolding remove_added_globals prepare_to_add
remove_added_globals-add_all t cell ds fresh =
    let t₁ = prepare_to_add t in
    let t₂ = add_all cell ds t₁ in
    let grown =
      add_all-GrownBy cell ds t₁ t.next t.lists (λ k. 0) (omega arith)
        (λ k. ([], refl, refl, tt)) in
    Returns-bind (SameLists t) (all_lists t₂.lists t₂.marks 16) _
      (all_lists-Swept 16 t₂.lists t.lists t₂.marks λ k lt.
        let (new, e, len, from) = grown k in
        rw (ap (λ f. f k) (add_all-marks cell ds t₁), e)
          (remove_added-new t.next new (t.lists k) from (fresh k)))
      λ l swept. swept.0

split_first :
    (l : List Global) (new base : List Global) (c : ℕ)
    → l ≡ new ++ base
    → length new ≡ 1 + c
    → (g : Global) × (rest : List Global) × (new' : List Global) × (l ≡ g ∷ rest)
      × (rest ≡ new' ++ base)
      × (length new' ≡ c)
split_first l [] base c e n = absurd (omega (arith, n))
split_first l (g ∷ new') base c e n = (g, new' ++ base, new', e, refl, omega (arith, n))

-- Each list is `base` with as many entries in front as `ds` has names for it.
abbrev Above : (ℕ → List Global) → List Declared → (ℕ → List Global) → Type 0
Above base ds lists =
    (k : ℕ) → (new : List Global) × (lists k ≡ new ++ base k) × (length new ≡ hits k ds)

abbrev Front : (ℕ → List Global) → List Declared → Table → ℕ → Type 0
Front base ds t k = (new : List Global) × (t.lists k ≡ new ++ base k) × (length new ≡ hits k ds)

zero_plus : (n : ℕ) → 0 + n ≡ n
zero_plus n = omega arith

empty_front : (l new base : List Global) → l ≡ new ++ base → length new ≡ 0 → l ≡ base
empty_front l [] base e n = e
empty_front l (g ∷ new) base e n = absurd (omega (arith, n))

remove_first :
    (name : List ℕ) (t : Table) (g : Global) (rest : List Global)
    → t.lists (get_hash_value name) ≡ g ∷ rest
    → remove name t ≡ ok (record t { lists = update t.lists (get_hash_value name) rest })
unfolding remove
remove_first name t g rest e = rw (remove, e) refl

remove_all-Above :
    (ds : List Declared) (t : Table) (base : ℕ → List Global)
    → Above base ds t.lists
    → Returns (λ t'. (k : ℕ) → t'.lists k ≡ base k) (remove_all ds t)
unfolding remove_all remove
remove_all-Above [] t base above =
    λ k. let (new, e, len) = above k in empty_front (t.lists k) new (base k) e len
remove_all-Above (d ∷ ds) t base above =
    let h = get_hash_value d.name in
    let (new, e, len) = above h in
    let here : (h == h) ≡ true = ground arith in
    let (g, rest, new', e₁, e₂, len') =
      split_first (t.lists h) new (base h) (hits h ds) e (rw here at len) in
    subst (λ o. Returns (λ t'. (k : ℕ) → t'.lists k ≡ base k) (o >>= remove_all ds))
      (sym (remove_first d.name t g rest e₁))
      (remove_all-Above ds (record t { lists = update t.lists h rest }) base
        λ k. elim (Bool-cases (k == h)) [
          | inl same ↦
              (let k_h : h ≡ k = ground arith in
                subst (λ k. Front base ds (record t { lists = update t.lists h rest }) k) k_h
                  (new', update_self t.lists h rest h here ∙ e₂, len'))
          | inr other ↦
              (let (front, e', l') = above k in
                (
                  front,
                  update_other t.lists h rest k other ∙ e',
                  rw other at l' ∙ zero_plus (hits k ds),
                ))
        ])

-- When a procedure's frame is destroyed after it had added its globals, the lists are what they
-- were before it: Remove, which takes a list's first entry whatever its name, takes exactly the
-- entries that were added, and never finds a list empty. (Procedures that it called have ended.)
pub remove_all-add_all :
    (t : Table) (cell : ℕ) (ds : List Declared)
    → Returns (λ t'. (k : ℕ) → t'.lists k ≡ t.lists k) (remove_all ds (add_all cell ds t))
remove_all-add_all t cell ds = remove_all-Above ds (add_all cell ds t) t.lists λ k.
    let (new, e, len, _) =
      add_all-GrownBy cell ds t 0 t.lists (λ k. 0) (omega arith) (λ k. ([], refl, refl, tt)) k in
    (new, e, len ∙ zero_plus (hits k ds))
