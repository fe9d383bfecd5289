-- ===== src/Translator/Lexer/Reserved.antt =====
-- oplt/stran/OT_RESRV.CPP: the lookup tables of the other reserved words, a list for each initial
-- letter from A to Y. A name is its code units behind the initial.
use opl_dev.Prelude.{ℕ, List, [], ◌∷◌}

-- `TReservedLookup`: name, targets, and the token's value.
pub data ReservedLookup : Type 0 where
  reserved_row : List ℕ → ℕ → ℕ → ReservedLookup

abbrev pub reserved_tables : List (List ReservedLookup)
reserved_tables =
    (reserved_row (0x4c ∷ 0x49 ∷ 0x41 ∷ 0x53 ∷ []) 254 24576
      ∷ reserved_row (0x4e ∷ 0x44 ∷ []) 255 12
      ∷ reserved_row (0x50 ∷ 0x50 ∷ []) 255 24577
      ∷ [])
    ∷ (reserved_row (0x59 ∷ 0x52 ∷ 0x45 ∷ 0x46 ∷ []) 254 24578 ∷ [])
    ∷ (reserved_row (0x41 ∷ 0x50 ∷ 0x54 ∷ 0x49 ∷ 0x4f ∷ 0x4e ∷ []) 254 24579
        ∷ reserved_row (0x4f ∷ 0x4e ∷ 0x53 ∷ 0x54 ∷ []) 254 24580
        ∷ [])
    ∷ (reserved_row (0x4f ∷ []) 255 20480
        ∷ reserved_row (0x45 ∷ 0x43 ∷ 0x4c ∷ 0x41 ∷ 0x52 ∷ 0x45 ∷ []) 254 24581
        ∷ [])
    ∷ (reserved_row (0x4e ∷ 0x44 ∷ []) 254 24584
        ∷ reserved_row (0x4c ∷ 0x53 ∷ 0x45 ∷ []) 255 24582
        ∷ reserved_row (0x4c ∷ 0x53 ∷ 0x45 ∷ 0x49 ∷ 0x46 ∷ []) 255 24583
        ∷ reserved_row (0x4e ∷ 0x44 ∷ 0x41 ∷ []) 255 24585
        ∷ reserved_row (0x4e ∷ 0x44 ∷ 0x49 ∷ 0x46 ∷ []) 255 24586
        ∷ reserved_row (0x4e ∷ 0x44 ∷ 0x50 ∷ []) 255 24587
        ∷ reserved_row (0x4e ∷ 0x44 ∷ 0x56 ∷ []) 255 24588
        ∷ reserved_row (0x4e ∷ 0x44 ∷ 0x57 ∷ 0x48 ∷ []) 255 24589
        ∷ reserved_row (0x58 ∷ 0x54 ∷ []) 1 24590
        ∷ reserved_row (0x58 ∷ 0x54 ∷ 0x45 ∷ 0x52 ∷ 0x4e ∷ 0x41 ∷ 0x4c ∷ []) 254 24591
        ∷ [])
    ∷ (reserved_row (0x4c ∷ 0x41 ∷ 0x47 ∷ 0x53 ∷ []) 254 24603 ∷ [])
    ∷ (reserved_row (0x4c ∷ 0x4f ∷ 0x42 ∷ 0x41 ∷ 0x4c ∷ []) 255 24593 ∷ [])
    ∷ []
    ∷ (reserved_row (0x43 ∷ 0x4f ∷ 0x4e ∷ []) 255 24595
        ∷ reserved_row (0x46 ∷ []) 255 20482
        ∷ reserved_row (0x4e ∷ 0x43 ∷ 0x4c ∷ 0x55 ∷ 0x44 ∷ 0x45 ∷ []) 254 24594
        ∷ [])
    ∷ []
    ∷ []
    ∷ (reserved_row (0x4f ∷ 0x43 ∷ 0x41 ∷ 0x4c ∷ []) 255 24592 ∷ [])
    ∷ (reserved_row (0x49 ∷ 0x4d ∷ 0x45 ∷ []) 254 24604 ∷ [])
    ∷ (reserved_row (0x4f ∷ 0x54 ∷ []) 255 14 ∷ [])
    ∷ (reserved_row (0x52 ∷ []) 255 13
        ∷ reserved_row (0x4e ∷ []) 255 24596
        ∷ reserved_row (0x50 ∷ 0x58 ∷ []) 254 24597
        ∷ [])
    ∷ (reserved_row (0x41 ∷ 0x54 ∷ 0x48 ∷ []) 1 24598
        ∷ reserved_row (0x52 ∷ 0x4f ∷ 0x43 ∷ []) 255 24599
        ∷ [])
    ∷ []
    ∷ (reserved_row (0x45 ∷ 0x4d ∷ []) 255 8192 ∷ [])
    ∷ []
    ∷ (reserved_row (0x59 ∷ 0x50 ∷ 0x45 ∷ []) 1 24601 ∷ [])
    ∷ (reserved_row (0x4e ∷ 0x54 ∷ 0x49 ∷ 0x4c ∷ []) 255 24602 ∷ [])
    ∷ (reserved_row (0x45 ∷ 0x43 ∷ 0x54 ∷ 0x4f ∷ 0x52 ∷ []) 255 20483 ∷ [])
    ∷ (reserved_row (0x48 ∷ 0x49 ∷ 0x4c ∷ 0x45 ∷ []) 255 20481 ∷ [])
    ∷ []
    ∷ []
    ∷ []
