-- ===== src/Runtime/Globals.antt =====
-- oplr/src/GLOBTBL.CPP and GLOBTBL.H: the table of the global variables that the procedures on
-- the call stack have declared. An entry's address is its identity, which the marks compare.
pub mod Find
pub mod Rollback
use opl_dev.Prelude.{
  ℕ, zero, suc, ◌+◌, ◌*◌, ◌/◌, ◌%◌, List, [], ◌∷◌, Bool, true, false, ◌&&◌, Option, none, some,
  ◌==◌, if◌then◌else◌,
}
use opl_dev.Prelude.Int.{ℤ, pos_part, neg_part, from_bits}
use opl_dev.Prelude.Outcome.{Outcome, ok, panic, ◌>>=◌, empty_list}

-- `TOplGlobal`. A name is its code units; `ptr` is the address of the variable.
pub record Global : Type 0 where
  pub address : ℕ
  pub name : List ℕ
  pub type : ℕ
  pub ptr : ℕ

-- `CGlobalsTbl`: `iList` and `iListMark` at each index, and the address of the next entry that is
-- allocated.
pub record Table : Type 0 where
  pub lists : ℕ → List Global
  pub marks : ℕ → Option ℕ
  pub next : ℕ

abbrev pub bits_xor : ℕ → ℕ → ℕ → ℕ
bits_xor zero a b = 0
bits_xor (suc w) a b = (a + b) % 2 + 2 * bits_xor w (a / 2) (b / 2)

-- The loop of GetHashValue, over 32 bits
abbrev pub hash_bits : ℕ → List ℕ → ℕ
hash_bits h [] = h
hash_bits h (c ∷ cs) = hash_bits (bits_xor 32 (h * 2 % 0x1_0000_0000) c) cs

-- `GetHashValue`
unfoldable pub get_hash_value : List ℕ → ℕ
get_hash_value name =
    let hash = from_bits 0x8000_0000 (hash_bits 0 name) in (pos_part hash + neg_part hash) % 16

-- `iName.Compare(aName)==0`
abbrev pub same_name : List ℕ → List ℕ → Bool
same_name [] [] = true
same_name [] (c ∷ t) = false
same_name (b ∷ s) [] = false
same_name (b ∷ s) (c ∷ t) = let rest = same_name s t in if b == c then rest else false

abbrev pub update : (ℕ → List Global) → ℕ → List Global → ℕ → List Global
update lists i l k = if k == i then l else lists k

-- `AddL`
unfoldable pub add : List ℕ → ℕ → ℕ → Table → Table
add name type ptr t =
    let hash = get_hash_value name in
    let global : Global = record { address = t.next; name = name; type = type; ptr = ptr } in
    record t { lists = update t.lists hash (global ∷ t.lists hash); next = suc t.next }

-- `Remove`: the first entry of the name's list goes.
unfoldable pub remove : List ℕ → Table → Outcome Table
remove name t =
    let hash = get_hash_value name in
    elim (t.lists hash) [
      | [] ↦ panic empty_list
      | first ∷ rest ↦ ok (record t { lists = update t.lists hash rest })
    ]

abbrev pub find_in : List ℕ → ℕ → List Global → Option ℕ
find_in name type [] = none
find_in name type (g ∷ gs) =
    let rest = find_in name type gs in
    if same_name g.name name && (g.type == type) then some g.ptr else rest

-- `Find`; none is NULL.
unfoldable pub find : List ℕ → ℕ → Table → Option ℕ
find name type t = find_in name type (t.lists (get_hash_value name))

abbrev pub first_address : List Global → Option ℕ
first_address [] = none
first_address (g ∷ gs) = some g.address

-- `PrepareToAddC`
unfoldable pub prepare_to_add : Table → Table
prepare_to_add t = record t { marks = λ k. first_address (t.lists k) }

abbrev pub same_address : Option ℕ → Option ℕ → Bool
same_address none none = true
same_address (some a) (some b) = a == b
same_address a b = false

-- The loop of RemoveAddedGlobals at one index
unfoldable pub remove_added : Option ℕ → List Global → Outcome (List Global)
remove_added mark [] = if same_address none mark then ok [] else panic empty_list
remove_added mark (g ∷ gs) =
    let rest = remove_added mark gs in
    if same_address (some g.address) mark then ok (g ∷ gs) else rest

abbrev all_lists : (ℕ → List Global) → (ℕ → Option ℕ) → (count : ℕ) → Outcome (ℕ → List Global)
all_lists lists marks zero = ok lists
all_lists lists marks (suc k) =
    remove_added (marks k) (lists k) >>= λ l. all_lists (update lists k l) marks k

-- `RemoveAddedGlobals`. The lists do not depend on each other: they are taken from the last.
unfoldable pub remove_added_globals : Table → Outcome Table
remove_added_globals t = do lists ← all_lists t.lists t.marks 16; ok (record t { lists = lists })

-- What a procedure declares: `SOplGlobal`, with the offset in its frame.
pub record Declared : Type 0 where
  pub name : List ℕ
  pub type : ℕ
  pub offset : ℕ

-- The loop of CProcedure::AddGlobalsL, with the address of the frame's cell
unfoldable pub add_all : ℕ → List Declared → Table → Table
add_all cell [] t = t
add_all cell (d ∷ ds) t = add_all cell ds (add d.name d.type (cell + d.offset) t)

-- The loop of ~CFrame
unfoldable pub remove_all : List Declared → Table → Outcome Table
remove_all [] t = ok t
remove_all (d ∷ ds) t = remove d.name t >>= remove_all ds
