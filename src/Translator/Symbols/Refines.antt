-- ===== src/Translator/Symbols/Refines.antt =====
-- oplt/stran/OT_SYMBL.CPP: the hash table does what a stack of scopes does.
use mathlib.Core.Path.{subst}
use opl_dev.Prelude.{
  ℕ, suc, ◌≤◌, ◌<◌, List, [], ◌∷◌, ◌++◌, ◌≡◌, refl, sym, ap, ◌∙◌, true, false, ◌&&◌, length, ltb,
  ◌==◌, if◌then◌else◌, Bool-cases, inl, inr, arith,
}
use opl_dev.Prelude.Outcome.{Outcome, ok, leave, panic, spent, ◌>>=◌}
use opl_dev.Runtime.Globals.{same_name}
use opl_dev.Runtime.Globals.Find.{same_name_equal, equal_self}
use opl_dev.Translator.Symbols.{
  Symbol, SymbolTable, SymbolStep, start_call, end_call, reset_call, add_call, new_table, hash_of,
  find_symbol, find, is_duplicate, put, add, unlink, delete, delete_scope, end_scope, delete_all,
  reset, call, calls,
}
use opl_dev.Translator.Symbols.Layers.{
  symbols, lookup, is_taken, declare, close, layer_call, layer_calls,
}

abbrev pub HasScope : ℕ → List Symbol → Type 0
HasScope n [] = Unit
HasScope n (s ∷ ss) = (s.scope ≡ n) × HasScope n ss

abbrev IsBelow : ℕ → List Symbol → Type 0
IsBelow n [] = Unit
IsBelow n (s ∷ ss) = (s.scope < n) × IsBelow n ss

-- Each layer's symbols have its depth for their scope.
abbrev pub IsScoped : List (List Symbol) → Type 0
IsScoped [] = Unit
IsScoped (l ∷ ls) = HasScope (length ls) l × IsScoped ls

-- The symbols of a queue whose names go to bucket `k`
abbrev pub bucket : ℕ → List Symbol → List Symbol
bucket k [] = []
bucket k (s ∷ ss) = let rest = bucket k ss in if k == hash_of s.name then s ∷ rest else rest

-- The two queues of each symbol agree.
abbrev pub Holds : List Symbol → SymbolTable → Type 0
Holds q t = (t.scope_queue ≡ q) × ((k : ℕ) → t.table k ≡ bucket k q)

abbrev pub Refines : List (List Symbol) → SymbolTable → Type 0
Refines ls t = (suc t.current_scope ≡ length ls) × IsScoped ls × Holds (symbols ls) t

-- Both sides go on, and the table refines the layers, or both end in the same way.
abbrev pub Matches : Outcome (List (List Symbol)) → Outcome SymbolTable → Type 0
Matches (ok ls) (ok t) = Refines ls t
Matches (leave e) (leave e') = e ≡ e'
Matches (panic p) (panic p') = p ≡ p'
Matches o o' = ⊥

find-bucket :
    (name : List ℕ) (token : ℕ) (q : List Symbol)
    → find_symbol name token (bucket (hash_of name) q) ≡ find_symbol name token q
find-bucket name token [] = refl
find-bucket name token (s ∷ ss) = elim (Bool-cases (hash_of name == hash_of s.name)) [
  | inl e ↦ rw (e, find-bucket name token ss) refl
  | inr e ↦ elim (Bool-cases (same_name name s.name)) [
    | inl same ↦
        (let eq : hash_of name ≡ hash_of s.name = ap hash_of (same_name_equal name s.name same) in
          let yes : (hash_of name == hash_of s.name) ≡ true =
            subst (λ n. (hash_of name == n) ≡ true) eq (equal_self (hash_of name)) in
          let no : true ≡ false = sym yes ∙ e in cc)
    | inr other ↦ rw (e, other, find-bucket name token ss) refl
  ]
]

-- Find gives the innermost symbol of that name and token.
pub find-lookup :
    (name : List ℕ) (token : ℕ) (ls : List (List Symbol)) (t : SymbolTable)
    → Refines ls t
    → find name token t ≡ lookup name token ls
unfolding find
find-lookup name token ls t r =
    ap (find_symbol name token) (r.2.1 (hash_of name)) ∙ find-bucket name token (symbols ls)

IsBelow-append :
    (n m : ℕ) (l q : List Symbol) → m < n → HasScope m l → IsBelow n q → IsBelow n (l ++ q)
IsBelow-append n m [] q lt h b = b
IsBelow-append n m (s ∷ l) q lt h b = (omega (arith, lt, h.0), IsBelow-append n m l q lt h.1 b)

IsScoped-IsBelow :
    (n : ℕ) (ls : List (List Symbol)) → length ls ≤ n → IsScoped ls → IsBelow n (symbols ls)
IsScoped-IsBelow n [] le h = tt
IsScoped-IsBelow n (l ∷ ls) le h =
    let lt : length ls < n = omega (arith, le) in
    let below : length ls ≤ n = omega (arith, le) in
    IsBelow-append n (length ls) l (symbols ls) lt h.0 (IsScoped-IsBelow n ls below h.1)

below_not_equal : (a n : ℕ) → a < n → (a == n) ≡ false
below_not_equal a n lt = ground arith

-- A symbol of an outer scope is no duplicate.
outer_is_duplicate :
    (s : Symbol) (name : List ℕ) (token n : ℕ) (q : List Symbol)
    → IsBelow n q
    → is_duplicate s n (find_symbol name token q) ≡ false
outer_is_duplicate s name token n [] b = refl
outer_is_duplicate s name token n (p ∷ q) b =
    elim (Bool-cases (same_name name p.name && (p.token == token))) [
      | inl e ↦ rw (e, below_not_equal p.scope n b.0) refl
      | inr e ↦ rw e (outer_is_duplicate s name token n q b.1)
    ]

is_duplicate-is_taken :
    (s : Symbol) (name : List ℕ) (token n : ℕ) (l q : List Symbol)
    → HasScope n l
    → IsBelow n q
    → is_duplicate s n (find_symbol name token (l ++ q)) ≡ is_taken s (find_symbol name token l)
is_duplicate-is_taken s name token n [] q h b = outer_is_duplicate s name token n q b
is_duplicate-is_taken s name token n (p ∷ l) q h b =
    elim (Bool-cases (same_name name p.name && (p.token == token))) [
      | inl e ↦
          (let here : (p.scope == n) ≡ true =
              subst (λ m. (p.scope == m) ≡ true) h.0 (equal_self p.scope) in
            rw (e, here) refl)
      | inr e ↦ rw e (is_duplicate-is_taken s name token n l q h.1 b)
    ]

put-Holds :
    (p : Symbol) (q : List Symbol) (table : ℕ → List Symbol)
    → ((k : ℕ) → table k ≡ bucket k q)
    → (k : ℕ) → put table (hash_of p.name) (p ∷ table (hash_of p.name)) k ≡ bucket k (p ∷ q)
put-Holds p q table h k = elim (Bool-cases (k == hash_of p.name)) [
  | inl e ↦
      (let eq : hash_of p.name ≡ k = ground arith in rw e (ap (λ b. p ∷ b) (ap table eq ∙ h k)))
  | inr e ↦ rw e (h k)
]

pub add-Matches :
    (s : Symbol) (ls : List (List Symbol)) (t : SymbolTable)
    → Refines ls t
    → Matches (declare s ls) (add s t)
unfolding add find
add-Matches s [] t r = absurd (omega (arith, r.0))
add-Matches s (l ∷ ls) t r =
    let n : t.current_scope ≡ length ls = omega (arith, r.0) in
    let placed = record s { scope = t.current_scope } in
    let same : is_duplicate s t.current_scope (find s.name s.token t)
        ≡ is_taken s (find_symbol s.name s.token l) =
      rw (find-lookup s.name s.token (l ∷ ls) t r, n)
        (is_duplicate-is_taken s s.name s.token (length ls) l (symbols ls) r.1.0
          (IsScoped-IsBelow (length ls) ls (omega arith) r.1.1)) in
    elim (Bool-cases (is_taken s (find_symbol s.name s.token l))) [
      | inl e ↦ rw (same ∙ e, e) refl
      | inr e ↦
          rw (same ∙ e, e)
            (
              r.0,
              ((refl, r.1.0), r.1.1),
              (
                ap (λ m. record s { scope = m } ∷ t.scope_queue) n
                    ∙ ap (λ q. record s { scope = length ls } ∷ q) r.2.0,
                λ k.
                    put-Holds placed (symbols (l ∷ ls)) t.table r.2.1 k
                    ∙ ap (λ m. bucket k (record s { scope = m } ∷ symbols (l ∷ ls))) n,
              ),
            )
    ]

unlink_first : (s : Symbol) (q : List Symbol) → unlink s.address (s ∷ q) ≡ q
unlink_first s q = rw (equal_self s.address) refl

delete-Holds :
    (s : Symbol) (q : List Symbol) (t : SymbolTable) → Holds (s ∷ q) t → Holds q (delete s t)
unfolding delete
delete-Holds s q t h = (
  ap (unlink s.address) h.0 ∙ unlink_first s q,
  λ k. elim (Bool-cases (k == hash_of s.name)) [
    | inl e ↦
        (let eq : k ≡ hash_of s.name = ground arith in
          let own : bucket (hash_of s.name) (s ∷ q) ≡ s ∷ bucket (hash_of s.name) q =
            rw (equal_self (hash_of s.name)) refl in
          rw e (
            ap (unlink s.address) (h.1 (hash_of s.name) ∙ own)
            ∙ unlink_first s (bucket (hash_of s.name) q)
            ∙ ap (λ k. bucket k q) (sym eq)))
    | inr e ↦ (let other : bucket k (s ∷ q) ≡ bucket k q = rw e refl in rw e (h.1 k ∙ other))
  ],
)

delete_current : (s : Symbol) (t : SymbolTable) → (delete s t).current_scope ≡ t.current_scope
unfolding delete
delete_current s t = refl

delete_scope_current :
    (q : List Symbol) (t : SymbolTable) → (delete_scope q t).current_scope ≡ t.current_scope
unfolding delete_scope delete
delete_scope_current [] t = refl
delete_scope_current (s ∷ q) t = elim (Bool-cases (s.scope == t.current_scope)) [
  | inl e ↦ rw e (delete_scope_current q (delete s t))
  | inr e ↦ rw e refl
]

-- A scope's symbols go, and the outer ones stay.
delete_scope-Holds :
    (l q : List Symbol) (t : SymbolTable)
    → HasScope t.current_scope l
    → IsBelow t.current_scope q
    → Holds (l ++ q) t
    → Holds q (delete_scope (l ++ q) t)
unfolding delete_scope delete
delete_scope-Holds [] [] t s b h = h
delete_scope-Holds [] (p ∷ q) t s b h = rw (below_not_equal p.scope t.current_scope b.0) h
delete_scope-Holds (p ∷ l) q t s b h =
    let here : (p.scope == t.current_scope) ≡ true =
      subst (λ m. (p.scope == m) ≡ true) s.0 (equal_self p.scope) in
    rw here (delete_scope-Holds l q (delete p t) s.1 b (delete-Holds p (l ++ q) t h))

pub end_scope-Matches :
    (ls : List (List Symbol)) (t : SymbolTable) → Refines ls t → Matches (close ls) (end_scope t)
unfolding end_scope
end_scope-Matches [] t r = absurd (omega (arith, r.0))
end_scope-Matches (l ∷ []) t r = let n : t.current_scope ≡ 0 = omega (arith, r.0) in rw n refl
end_scope-Matches (l ∷ l' ∷ ls) t r =
    let n : t.current_scope ≡ suc (length ls) = omega (arith, r.0) in
    let positive : ltb 0 t.current_scope ≡ true = ground arith in
    let outer = symbols (l' ∷ ls) in
    let scoped : HasScope t.current_scope l = subst (λ m. HasScope m l) (sym n) r.1.0 in
    let below = IsScoped-IsBelow t.current_scope (l' ∷ ls) (omega (arith, n)) r.1.1 in
    let held : Holds (l ++ outer) t = r.2 in
    let kept : Holds outer (delete_scope t.scope_queue t) =
      subst (λ q. Holds outer (delete_scope q t)) (sym r.2.0)
        (delete_scope-Holds l outer t scoped below held) in
    let depth = delete_scope_current t.scope_queue t in
    rw positive (omega (arith, depth, n), r.1.1, kept)

delete_all-Holds : (q : List Symbol) (t : SymbolTable) → Holds q t → Holds [] (delete_all q t)
unfolding delete_all
delete_all-Holds [] t h = h
delete_all-Holds (s ∷ q) t h = delete_all-Holds q (delete s t) (delete-Holds s q t h)

-- Reset leaves one scope, and nothing in it.
pub reset-Refines :
    (ls : List (List Symbol)) (t : SymbolTable) → Refines ls t → Refines ([] ∷ []) (reset t)
unfolding reset
reset-Refines ls t r =
    let empty : Holds [] (delete_all t.scope_queue t) =
      subst (λ q. Holds [] (delete_all q t)) (sym r.2.0) (delete_all-Holds (symbols ls) t r.2) in
    (refl, (tt, tt), empty)

call-Matches :
    (c : SymbolStep) (ls : List (List Symbol)) (t : SymbolTable)
    → Refines ls t
    → Matches (layer_call c ls) (call c t)
unfolding call
call-Matches start_call ls t r = (omega (arith, r.0), (tt, r.1), r.2)
call-Matches end_call ls t r = end_scope-Matches ls t r
call-Matches reset_call ls t r = reset-Refines ls t r
call-Matches (add_call s) ls t r = add-Matches s ls t r

Matches-bind :
    (o : Outcome (List (List Symbol))) (o' : Outcome SymbolTable)
    (f : List (List Symbol) → Outcome (List (List Symbol))) (g : SymbolTable → Outcome SymbolTable)
    → Matches o o'
    → ((ls : List (List Symbol)) (t : SymbolTable) → Refines ls t → Matches (f ls) (g t))
    → Matches (o >>= f) (o' >>= g)
Matches-bind (ok ls) (ok t) f g m k = k ls t m
Matches-bind (ok ls) (leave e) f g m k = absurd m
Matches-bind (ok ls) (panic p) f g m k = absurd m
Matches-bind (ok ls) spent f g m k = absurd m
Matches-bind (leave e) (ok t) f g m k = absurd m
Matches-bind (leave e) (leave e') f g m k = m
Matches-bind (leave e) (panic p) f g m k = absurd m
Matches-bind (leave e) spent f g m k = absurd m
Matches-bind (panic p) (ok t) f g m k = absurd m
Matches-bind (panic p) (leave e) f g m k = absurd m
Matches-bind (panic p) (panic p') f g m k = m
Matches-bind (panic p) spent f g m k = absurd m
Matches-bind spent o f g m k = absurd m

pub calls-Matches_from :
    (cs : List SymbolStep) (ls : List (List Symbol)) (t : SymbolTable)
    → Refines ls t
    → Matches (layer_calls cs ls) (calls cs t)
unfolding calls
calls-Matches_from [] ls t r = r
calls-Matches_from (c ∷ cs) ls t r =
    Matches-bind (layer_call c ls) (call c t) (layer_calls cs) (calls cs) (call-Matches c ls t r)
      (calls-Matches_from cs)

-- Every sequence of StartScope, EndScope, AddL and Reset calls on a new table goes the way it goes
-- on a stack of scopes: it ends in the same error at the same call, or both go on and then the
-- table's queues hold the symbols of the scopes, each under its scope's number.
pub calls-Matches : (cs : List SymbolStep) → Matches (layer_calls cs ([] ∷ [])) (calls cs new_table)
calls-Matches cs = calls-Matches_from cs ([] ∷ []) new_table (refl, (tt, tt), (refl, λ k. refl))

observed-Matches :
    (name : List ℕ) (token : ℕ) (o : Outcome (List (List Symbol))) (o' : Outcome SymbolTable)
    → Matches o o'
    → (o' >>= λ t. ok (find name token t)) ≡ (o >>= λ ls. ok (lookup name token ls))
observed-Matches name token (ok ls) (ok t) m = ap ok (find-lookup name token ls t m)
observed-Matches name token (ok ls) (leave e) m = absurd m
observed-Matches name token (ok ls) (panic p) m = absurd m
observed-Matches name token (ok ls) spent m = absurd m
observed-Matches name token (leave e) (ok t) m = absurd m
observed-Matches name token (leave e) (leave e') m = ap leave (sym m)
observed-Matches name token (leave e) (panic p) m = absurd m
observed-Matches name token (leave e) spent m = absurd m
observed-Matches name token (panic p) (ok t) m = absurd m
observed-Matches name token (panic p) (leave e) m = absurd m
observed-Matches name token (panic p) (panic p') m = ap panic (sym m)
observed-Matches name token (panic p) spent m = absurd m
observed-Matches name token spent o m = absurd m

-- After every sequence of calls on a new table, Find gives for every name and token what the
-- innermost scope that declares them gives on a stack of scopes; or both sequences end in the same
-- error.
pub find-calls :
    (name : List ℕ) (token : ℕ) (cs : List SymbolStep)
    → (calls cs new_table >>= λ t. ok (find name token t))
      ≡ (layer_calls cs ([] ∷ []) >>= λ ls. ok (lookup name token ls))
find-calls name token cs =
    observed-Matches name token (layer_calls cs ([] ∷ [])) (calls cs new_table) (calls-Matches cs)
