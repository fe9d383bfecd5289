-- ===== src/Translator/Structure/Sound.antt =====
-- oplt/stran/OT_STRUC.CPP and StatementListL (oplt/stran/OT_PARSE.CPP): every branch that the code
-- of a statement list makes goes to a label that is defined in it.
use opl_dev.Prelude.{List, ◌≡◌}
use opl_dev.Prelude.Outcome.{Outcome}
use opl_dev.Translator.Token.{Token}
use opl_dev.Translator.Structure.{ModuleCode, Front}
use opl_dev.Translator.Structure.Segments.{count, AllRefer}
use opl_dev.Translator.Structure.Steps.{LawfulFront}

module _ (fr : Front) (lf : LawfulFront fr) where
  -- Each branch of the code goes to an internal label that the code defines exactly once, or is a
  -- GOTO to a label of the program.
  abbrev pub IsLinked : List (ModuleCode fr.Reals) → Type 0
  IsLinked code = AllRefer (λ k. count k code ≡ 1) code
