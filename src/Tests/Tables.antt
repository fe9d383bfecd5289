-- ===== src/Tests/Tables.antt =====
-- Samples for oplr/src/GLOBTBL.CPP: a table with one entry, and what a procedure declares.
use opl_dev.Prelude.{
  ℕ, zero, suc, List, [], ◌∷◌, ◌≡◌, ◌&&◌, Option, some, ◌==◌, if◌then◌else◌, arith,
}
use opl_dev.Prelude.Outcome.{Returns}
use opl_dev.Runtime.Globals.{
  Global, Table, Declared, same_name, add, find, prepare_to_add, remove_added_globals, add_all,
  remove_all,
}
use opl_dev.Runtime.Globals.Find.{find-add}
use opl_dev.Runtime.Globals.Rollback.{
  IsFresh, SameLists, remove_added_globals-add_all, remove_all-add_all,
}

abbrev one_entry : ℕ → List Global
one_entry zero = record { address = 3; name = 65 ∷ []; type = 1; ptr = 100 } ∷ []
one_entry (suc k) = []

abbrev sample_table : Table
sample_table = record { lists = one_entry; marks = λ k. Option.none; next = 4 }

sample_IsFresh : IsFresh sample_table
sample_IsFresh zero = (omega arith, tt)
sample_IsFresh (suc k) = tt

abbrev sample_declared : List Declared
sample_declared =
    record { name = 65 ∷ []; type = 1; offset = 20 }
    ∷ record { name = 66 ∷ 67 ∷ []; type = 3; offset = 24 }
    ∷ []

find-add_example : find (65 ∷ []) 1 (add (65 ∷ []) 1 200 sample_table) ≡ (
    if same_name (65 ∷ []) (65 ∷ []) && (1 == 1) then some 200 else find (65 ∷ []) 1 sample_table)
find-add_example = find-add (65 ∷ []) (65 ∷ []) 1 1 200 sample_table

remove_added_globals-add_all_example :
    Returns
      (SameLists sample_table)
      (remove_added_globals (add_all 500 sample_declared (prepare_to_add sample_table)))
remove_added_globals-add_all_example =
    remove_added_globals-add_all sample_table 500 sample_declared sample_IsFresh

remove_all-add_all_example :
    Returns
      (λ t'. (k : ℕ) → t'.lists k ≡ sample_table.lists k)
      (remove_all sample_declared (add_all 500 sample_declared sample_table))
remove_all-add_all_example = remove_all-add_all sample_table 500 sample_declared
