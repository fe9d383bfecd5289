-- ===== src/Translator/Lexer/Keywords.antt =====
-- oplt/stran/OT_RESRV.CPP: the lookup tables of the keywords, a list for each initial letter from A
-- to Y. A name is its code units behind the initial.
use opl_dev.Prelude.{ℕ, List, [], ◌∷◌, Bool, true, false}

-- `TKeywordLookup`: name, targets, code, and whether the keyword can be trapped.
pub data KeywordLookup : Type 0 where
  keyword_row : List ℕ → ℕ → ℕ → Bool → KeywordLookup

abbrev pub keyword_tables : List (List KeywordLookup)
keyword_tables =
    (keyword_row (0x50 ∷ 0x50 ∷ 0x45 ∷ 0x4e ∷ 0x44 ∷ []) 255 0 true
      ∷ keyword_row
          (0x50 ∷ 0x50 ∷ 0x45 ∷ 0x4e ∷ 0x44 ∷ 0x53 ∷ 0x50 ∷ 0x52 ∷ 0x49 ∷ 0x54 ∷ 0x45 ∷ []) 1 1
          false
      ∷ keyword_row (0x54 ∷ []) 255 2 false
      ∷ [])
    ∷ (keyword_row (0x41 ∷ 0x43 ∷ 0x4b ∷ []) 255 3 true
        ∷ keyword_row (0x45 ∷ 0x45 ∷ 0x50 ∷ []) 255 4 false
        ∷ keyword_row (0x45 ∷ 0x47 ∷ 0x49 ∷ 0x4e ∷ 0x54 ∷ 0x52 ∷ 0x41 ∷ 0x4e ∷ 0x53 ∷ []) 254 157
            false
        ∷ keyword_row (0x52 ∷ 0x45 ∷ 0x41 ∷ 0x4b ∷ []) 255 5 false
        ∷ keyword_row (0x55 ∷ 0x53 ∷ 0x59 ∷ []) 255 6 false
        ∷ [])
    ∷ (keyword_row (0x41 ∷ 0x43 ∷ 0x48 ∷ 0x45 ∷ []) 1 7 true
        ∷ keyword_row (0x41 ∷ 0x43 ∷ 0x48 ∷ 0x45 ∷ 0x48 ∷ 0x44 ∷ 0x52 ∷ []) 1 8 false
        ∷ keyword_row (0x41 ∷ 0x43 ∷ 0x48 ∷ 0x45 ∷ 0x52 ∷ 0x45 ∷ 0x43 ∷ []) 1 9 false
        ∷ keyword_row (0x41 ∷ 0x43 ∷ 0x48 ∷ 0x45 ∷ 0x54 ∷ 0x49 ∷ 0x44 ∷ 0x59 ∷ []) 1 10 false
        ∷ keyword_row (0x41 ∷ 0x4e ∷ 0x43 ∷ 0x45 ∷ 0x4c ∷ []) 254 140 true
        ∷ keyword_row
            (0x48 ∷ 0x41 ∷ 0x4e ∷ 0x47 ∷ 0x45 ∷ 0x53 ∷ 0x50 ∷ 0x52 ∷ 0x49 ∷ 0x54 ∷ 0x45 ∷ []) 1 11
            false
        ∷ keyword_row (0x4c ∷ 0x45 ∷ 0x41 ∷ 0x52 ∷ 0x46 ∷ 0x4c ∷ 0x41 ∷ 0x47 ∷ 0x53 ∷ []) 254 160
            false
        ∷ keyword_row (0x4c ∷ 0x4f ∷ 0x53 ∷ 0x45 ∷ []) 255 12 true
        ∷ keyword_row (0x4c ∷ 0x4f ∷ 0x53 ∷ 0x45 ∷ 0x53 ∷ 0x50 ∷ 0x52 ∷ 0x49 ∷ 0x54 ∷ 0x45 ∷ []) 1
            13 false
        ∷ keyword_row (0x4c ∷ 0x53 ∷ []) 255 14 false
        ∷ keyword_row (0x4f ∷ 0x4d ∷ 0x4d ∷ 0x49 ∷ 0x54 ∷ 0x54 ∷ 0x52 ∷ 0x41 ∷ 0x4e ∷ 0x53 ∷ []) 254
            158 false
        ∷ keyword_row (0x4f ∷ 0x4d ∷ 0x50 ∷ 0x41 ∷ 0x43 ∷ 0x54 ∷ []) 254 156 false
        ∷ keyword_row (0x4f ∷ 0x4d ∷ 0x50 ∷ 0x52 ∷ 0x45 ∷ 0x53 ∷ 0x53 ∷ []) 1 15 true
        ∷ keyword_row (0x4f ∷ 0x4e ∷ 0x54 ∷ 0x49 ∷ 0x4e ∷ 0x55 ∷ 0x45 ∷ []) 255 16 false
        ∷ keyword_row (0x4f ∷ 0x50 ∷ 0x59 ∷ []) 255 17 true
        ∷ keyword_row (0x52 ∷ 0x45 ∷ 0x41 ∷ 0x54 ∷ 0x45 ∷ []) 255 18 true
        ∷ keyword_row (0x55 ∷ 0x52 ∷ 0x53 ∷ 0x4f ∷ 0x52 ∷ []) 255 19 false
        ∷ [])
    ∷ (keyword_row (0x41 ∷ 0x59 ∷ 0x53 ∷ 0x54 ∷ 0x4f ∷ 0x44 ∷ 0x41 ∷ 0x54 ∷ 0x45 ∷ []) 254 153 false
        ∷ keyword_row (0x42 ∷ 0x55 ∷ 0x54 ∷ 0x54 ∷ 0x4f ∷ 0x4e ∷ 0x53 ∷ []) 255 30 false
        ∷ keyword_row (0x43 ∷ 0x48 ∷ 0x4f ∷ 0x49 ∷ 0x43 ∷ 0x45 ∷ []) 255 21 false
        ∷ keyword_row (0x44 ∷ 0x41 ∷ 0x54 ∷ 0x45 ∷ []) 255 25 false
        ∷ keyword_row (0x45 ∷ 0x44 ∷ 0x49 ∷ 0x54 ∷ []) 255 26 false
        ∷ keyword_row (0x45 ∷ 0x44 ∷ 0x49 ∷ 0x54 ∷ 0x4d ∷ 0x55 ∷ 0x4c ∷ 0x54 ∷ 0x49 ∷ []) 254 164
            false
        ∷ keyword_row (0x45 ∷ 0x46 ∷ 0x41 ∷ 0x55 ∷ 0x4c ∷ 0x54 ∷ 0x57 ∷ 0x49 ∷ 0x4e ∷ []) 255 32
            false
        ∷ keyword_row (0x45 ∷ 0x4c ∷ 0x45 ∷ 0x54 ∷ 0x45 ∷ []) 255 33 true
        ∷ keyword_row (0x46 ∷ 0x49 ∷ 0x4c ∷ 0x45 ∷ []) 255 29 false
        ∷ keyword_row (0x46 ∷ 0x4c ∷ 0x4f ∷ 0x41 ∷ 0x54 ∷ []) 255 23 false
        ∷ keyword_row (0x49 ∷ 0x41 ∷ 0x4d ∷ 0x49 ∷ 0x4e ∷ 0x49 ∷ 0x54 ∷ []) 1 34 false
        ∷ keyword_row (0x49 ∷ 0x41 ∷ 0x4d ∷ 0x50 ∷ 0x4f ∷ 0x53 ∷ []) 1 35 false
        ∷ keyword_row (0x49 ∷ 0x4e ∷ 0x49 ∷ 0x54 ∷ []) 255 36 false
        ∷ keyword_row (0x49 ∷ 0x4e ∷ 0x49 ∷ 0x54 ∷ 0x53 ∷ []) 1 37 false
        ∷ keyword_row (0x4c ∷ 0x4f ∷ 0x4e ∷ 0x47 ∷ []) 255 22 false
        ∷ keyword_row (0x50 ∷ 0x4f ∷ 0x53 ∷ 0x49 ∷ 0x54 ∷ 0x49 ∷ 0x4f ∷ 0x4e ∷ []) 255 31 false
        ∷ keyword_row (0x52 ∷ 0x41 ∷ 0x57 ∷ 0x53 ∷ 0x50 ∷ 0x52 ∷ 0x49 ∷ 0x54 ∷ 0x45 ∷ []) 1 38 false
        ∷ keyword_row (0x54 ∷ 0x45 ∷ 0x58 ∷ 0x54 ∷ []) 255 20 false
        ∷ keyword_row (0x54 ∷ 0x49 ∷ 0x4d ∷ 0x45 ∷ []) 255 24 false
        ∷ keyword_row (0x58 ∷ 0x49 ∷ 0x4e ∷ 0x50 ∷ 0x55 ∷ 0x54 ∷ []) 255 28 false
        ∷ [])
    ∷ (keyword_row (0x44 ∷ 0x49 ∷ 0x54 ∷ []) 255 39 true
        ∷ keyword_row (0x52 ∷ 0x41 ∷ 0x53 ∷ 0x45 ∷ []) 255 40 true
        ∷ keyword_row (0x53 ∷ 0x43 ∷ 0x41 ∷ 0x50 ∷ 0x45 ∷ []) 255 41 false
        ∷ [])
    ∷ (keyword_row (0x49 ∷ 0x52 ∷ 0x53 ∷ 0x54 ∷ []) 255 42 true
        ∷ keyword_row (0x4f ∷ 0x4e ∷ 0x54 ∷ []) 255 43 false
        ∷ keyword_row (0x52 ∷ 0x45 ∷ 0x45 ∷ 0x41 ∷ 0x4c ∷ 0x4c ∷ 0x4f ∷ 0x43 ∷ []) 255 44 false
        ∷ [])
    ∷ (keyword_row (0x41 ∷ 0x54 ∷ []) 255 45 false
        ∷ keyword_row (0x42 ∷ 0x4f ∷ 0x52 ∷ 0x44 ∷ 0x45 ∷ 0x52 ∷ []) 255 46 false
        ∷ keyword_row (0x42 ∷ 0x4f ∷ 0x58 ∷ []) 255 47 false
        ∷ keyword_row (0x42 ∷ 0x55 ∷ 0x54 ∷ 0x54 ∷ 0x4f ∷ 0x4e ∷ []) 255 48 false
        ∷ keyword_row (0x43 ∷ 0x49 ∷ 0x52 ∷ 0x43 ∷ 0x4c ∷ 0x45 ∷ []) 254 143 false
        ∷ keyword_row (0x43 ∷ 0x4c ∷ 0x4f ∷ 0x43 ∷ 0x4b ∷ []) 255 49 false
        ∷ keyword_row (0x43 ∷ 0x4c ∷ 0x4f ∷ 0x53 ∷ 0x45 ∷ []) 255 50 true
        ∷ keyword_row (0x43 ∷ 0x4c ∷ 0x53 ∷ []) 255 51 false
        ∷ keyword_row (0x43 ∷ 0x4f ∷ 0x4c ∷ 0x4f ∷ 0x52 ∷ []) 254 150 false
        ∷ keyword_row
            (0x43 ∷ 0x4f ∷ 0x4c ∷ 0x4f ∷ 0x52 ∷ 0x42 ∷ 0x41 ∷ 0x43 ∷ 0x4b ∷ 0x47 ∷ 0x52 ∷ 0x4f
              ∷ 0x55 ∷ 0x4e ∷ 0x44 ∷ [])
            254 166 false
        ∷ keyword_row (0x43 ∷ 0x4f ∷ 0x4c ∷ 0x4f ∷ 0x52 ∷ 0x49 ∷ 0x4e ∷ 0x46 ∷ 0x4f ∷ []) 254 165
            false
        ∷ keyword_row (0x43 ∷ 0x4f ∷ 0x50 ∷ 0x59 ∷ []) 255 52 true
        ∷ keyword_row (0x44 ∷ 0x52 ∷ 0x41 ∷ 0x57 ∷ 0x4f ∷ 0x42 ∷ 0x4a ∷ 0x45 ∷ 0x43 ∷ 0x54 ∷ []) 1
            53 false
        ∷ keyword_row (0x45 ∷ 0x4c ∷ 0x4c ∷ 0x49 ∷ 0x50 ∷ 0x53 ∷ 0x45 ∷ []) 254 144 false
        ∷ keyword_row (0x45 ∷ 0x54 ∷ 0x45 ∷ 0x56 ∷ 0x45 ∷ 0x4e ∷ 0x54 ∷ []) 255 54 false
        ∷ keyword_row (0x45 ∷ 0x54 ∷ 0x45 ∷ 0x56 ∷ 0x45 ∷ 0x4e ∷ 0x54 ∷ 0x33 ∷ 0x32 ∷ []) 254 148
            false
        ∷ keyword_row (0x45 ∷ 0x54 ∷ 0x45 ∷ 0x56 ∷ 0x45 ∷ 0x4e ∷ 0x54 ∷ 0x41 ∷ 0x33 ∷ 0x32 ∷ []) 254
            149 false
        ∷ keyword_row (0x46 ∷ 0x49 ∷ 0x4c ∷ 0x4c ∷ []) 255 55 false
        ∷ keyword_row (0x46 ∷ 0x4f ∷ 0x4e ∷ 0x54 ∷ []) 255 56 true
        ∷ keyword_row (0x47 ∷ 0x4d ∷ 0x4f ∷ 0x44 ∷ 0x45 ∷ []) 255 57 false
        ∷ keyword_row (0x47 ∷ 0x52 ∷ 0x45 ∷ 0x59 ∷ []) 255 58 false
        ∷ keyword_row (0x49 ∷ 0x4e ∷ 0x46 ∷ 0x4f ∷ []) 1 59 false
        ∷ keyword_row (0x49 ∷ 0x4e ∷ 0x46 ∷ 0x4f ∷ 0x33 ∷ 0x32 ∷ []) 254 154 false
        ∷ keyword_row (0x49 ∷ 0x4e ∷ 0x56 ∷ 0x45 ∷ 0x52 ∷ 0x54 ∷ []) 255 60 false
        ∷ keyword_row (0x49 ∷ 0x50 ∷ 0x52 ∷ 0x49 ∷ 0x4e ∷ 0x54 ∷ []) 255 61 false
        ∷ keyword_row (0x4c ∷ 0x49 ∷ 0x4e ∷ 0x45 ∷ 0x42 ∷ 0x59 ∷ []) 255 62 false
        ∷ keyword_row (0x4c ∷ 0x49 ∷ 0x4e ∷ 0x45 ∷ 0x54 ∷ 0x4f ∷ []) 255 63 false
        ∷ keyword_row (0x4d ∷ 0x4f ∷ 0x56 ∷ 0x45 ∷ []) 255 64 false
        ∷ keyword_row (0x4f ∷ 0x52 ∷ 0x44 ∷ 0x45 ∷ 0x52 ∷ []) 255 65 false
        ∷ keyword_row (0x4f ∷ 0x54 ∷ 0x4f ∷ []) 255 66 false
        ∷ keyword_row (0x4f ∷ 0x54 ∷ 0x4f ∷ 0x4d ∷ 0x41 ∷ 0x52 ∷ 0x4b ∷ []) 254 145 false
        ∷ keyword_row (0x50 ∷ 0x41 ∷ 0x54 ∷ 0x54 ∷ []) 255 67 true
        ∷ keyword_row (0x50 ∷ 0x45 ∷ 0x45 ∷ 0x4b ∷ 0x4c ∷ 0x49 ∷ 0x4e ∷ 0x45 ∷ []) 255 68 false
        ∷ keyword_row (0x50 ∷ 0x4f ∷ 0x4c ∷ 0x59 ∷ []) 255 69 false
        ∷ keyword_row (0x50 ∷ 0x52 ∷ 0x49 ∷ 0x4e ∷ 0x54 ∷ []) 255 70 false
        ∷ keyword_row (0x50 ∷ 0x52 ∷ 0x49 ∷ 0x4e ∷ 0x54 ∷ 0x42 ∷ []) 255 72 false
        ∷ keyword_row (0x53 ∷ 0x41 ∷ 0x56 ∷ 0x45 ∷ 0x42 ∷ 0x49 ∷ 0x54 ∷ []) 255 73 true
        ∷ keyword_row (0x53 ∷ 0x43 ∷ 0x52 ∷ 0x4f ∷ 0x4c ∷ 0x4c ∷ []) 255 74 false
        ∷ keyword_row
            (0x53 ∷ 0x45 ∷ 0x54 ∷ 0x50 ∷ 0x45 ∷ 0x4e ∷ 0x57 ∷ 0x49 ∷ 0x44 ∷ 0x54 ∷ 0x48 ∷ []) 254
            163 false
        ∷ keyword_row (0x53 ∷ 0x45 ∷ 0x54 ∷ 0x57 ∷ 0x49 ∷ 0x4e ∷ []) 255 75 false
        ∷ keyword_row (0x53 ∷ 0x54 ∷ 0x59 ∷ 0x4c ∷ 0x45 ∷ []) 255 76 false
        ∷ keyword_row (0x54 ∷ 0x4d ∷ 0x4f ∷ 0x44 ∷ 0x45 ∷ []) 255 77 false
        ∷ keyword_row (0x55 ∷ 0x4e ∷ 0x4c ∷ 0x4f ∷ 0x41 ∷ 0x44 ∷ 0x46 ∷ 0x4f ∷ 0x4e ∷ 0x54 ∷ []) 255
            78 true
        ∷ keyword_row (0x55 ∷ 0x50 ∷ 0x44 ∷ 0x41 ∷ 0x54 ∷ 0x45 ∷ []) 255 79 false
        ∷ keyword_row (0x55 ∷ 0x53 ∷ 0x45 ∷ []) 255 80 true
        ∷ keyword_row (0x56 ∷ 0x49 ∷ 0x53 ∷ 0x49 ∷ 0x42 ∷ 0x4c ∷ 0x45 ∷ []) 255 81 false
        ∷ keyword_row (0x58 ∷ 0x42 ∷ 0x4f ∷ 0x52 ∷ 0x44 ∷ 0x45 ∷ 0x52 ∷ []) 255 82 false
        ∷ keyword_row (0x58 ∷ 0x50 ∷ 0x52 ∷ 0x49 ∷ 0x4e ∷ 0x54 ∷ []) 255 83 false
        ∷ keyword_row (0x58 ∷ 0x42 ∷ 0x4f ∷ 0x52 ∷ 0x44 ∷ 0x45 ∷ 0x52 ∷ 0x33 ∷ 0x32 ∷ []) 254 171
            false
        ∷ [])
    ∷ []
    ∷ (keyword_row (0x4e ∷ 0x50 ∷ 0x55 ∷ 0x54 ∷ []) 255 84 true
        ∷ keyword_row (0x4e ∷ 0x53 ∷ 0x45 ∷ 0x52 ∷ 0x54 ∷ []) 254 139 true
        ∷ keyword_row (0x4f ∷ 0x53 ∷ 0x49 ∷ 0x47 ∷ 0x4e ∷ 0x41 ∷ 0x4c ∷ []) 255 85 true
        ∷ keyword_row (0x4f ∷ 0x57 ∷ 0x41 ∷ 0x49 ∷ 0x54 ∷ 0x53 ∷ 0x54 ∷ 0x41 ∷ 0x54 ∷ []) 255 86
            false
        ∷ keyword_row
            (0x4f ∷ 0x57 ∷ 0x41 ∷ 0x49 ∷ 0x54 ∷ 0x53 ∷ 0x54 ∷ 0x41 ∷ 0x54 ∷ 0x33 ∷ 0x32 ∷ []) 254
            155 false
        ∷ keyword_row (0x4f ∷ 0x59 ∷ 0x49 ∷ 0x45 ∷ 0x4c ∷ 0x44 ∷ []) 255 87 false
        ∷ [])
    ∷ []
    ∷ (keyword_row (0x49 ∷ 0x4c ∷ 0x4c ∷ 0x4d ∷ 0x41 ∷ 0x52 ∷ 0x4b ∷ []) 254 146 false ∷ [])
    ∷ (keyword_row (0x41 ∷ 0x53 ∷ 0x54 ∷ []) 255 88 true
        ∷ keyword_row (0x43 ∷ 0x4c ∷ 0x4f ∷ 0x53 ∷ 0x45 ∷ []) 255 89 true
        ∷ keyword_row (0x49 ∷ 0x4e ∷ 0x4b ∷ 0x4c ∷ 0x49 ∷ 0x42 ∷ []) 1 90 false
        ∷ keyword_row (0x4f ∷ 0x41 ∷ 0x44 ∷ 0x4d ∷ []) 255 91 true
        ∷ keyword_row (0x4f ∷ 0x43 ∷ 0x4b ∷ []) 255 92 false
        ∷ keyword_row (0x4f ∷ 0x50 ∷ 0x45 ∷ 0x4e ∷ []) 255 93 true
        ∷ keyword_row (0x50 ∷ 0x52 ∷ 0x49 ∷ 0x4e ∷ 0x54 ∷ []) 255 94 false
        ∷ [])
    ∷ (keyword_row (0x43 ∷ 0x41 ∷ 0x52 ∷ 0x44 ∷ []) 255 97 false
        ∷ keyword_row (0x43 ∷ 0x41 ∷ 0x52 ∷ 0x44 ∷ 0x58 ∷ []) 254 167 false
        ∷ keyword_row (0x43 ∷ 0x41 ∷ 0x53 ∷ 0x43 ∷ []) 254 162 false
        ∷ keyword_row (0x49 ∷ 0x4e ∷ 0x49 ∷ 0x54 ∷ []) 255 98 false
        ∷ keyword_row (0x4b ∷ 0x44 ∷ 0x49 ∷ 0x52 ∷ []) 255 99 true
        ∷ keyword_row (0x4f ∷ 0x44 ∷ 0x49 ∷ 0x46 ∷ 0x59 ∷ []) 254 138 true
        ∷ [])
    ∷ (keyword_row (0x45 ∷ 0x58 ∷ 0x54 ∷ []) 255 100 true ∷ [])
    ∷ (keyword_row (0x44 ∷ 0x42 ∷ 0x49 ∷ 0x4e ∷ 0x46 ∷ 0x4f ∷ []) 1 101 false
        ∷ keyword_row (0x46 ∷ 0x46 ∷ []) 255 102 false
        ∷ keyword_row (0x4e ∷ 0x45 ∷ 0x52 ∷ 0x52 ∷ []) 255 104 false
        ∷ keyword_row (0x50 ∷ 0x45 ∷ 0x4e ∷ []) 255 105 true
        ∷ keyword_row (0x50 ∷ 0x45 ∷ 0x4e ∷ 0x52 ∷ []) 255 106 true
        ∷ [])
    ∷ (keyword_row (0x41 ∷ 0x55 ∷ 0x53 ∷ 0x45 ∷ []) 255 107 false
        ∷ keyword_row (0x4f ∷ 0x4b ∷ 0x45 ∷ 0x24 ∷ []) 255 111 false
        ∷ keyword_row (0x4f ∷ 0x4b ∷ 0x45 ∷ 0x42 ∷ []) 255 108 false
        ∷ keyword_row (0x4f ∷ 0x4b ∷ 0x45 ∷ 0x46 ∷ []) 255 109 false
        ∷ keyword_row (0x4f ∷ 0x4b ∷ 0x45 ∷ 0x4c ∷ []) 255 110 false
        ∷ keyword_row (0x4f ∷ 0x4b ∷ 0x45 ∷ 0x57 ∷ []) 255 112 false
        ∷ keyword_row
            (0x4f ∷ 0x49 ∷ 0x4e ∷ 0x54 ∷ 0x45 ∷ 0x52 ∷ 0x46 ∷ 0x49 ∷ 0x4c ∷ 0x54 ∷ 0x45 ∷ 0x52 ∷ [])
            254 161 false
        ∷ keyword_row (0x4f ∷ 0x53 ∷ 0x49 ∷ 0x54 ∷ 0x49 ∷ 0x4f ∷ 0x4e ∷ []) 255 113 true
        ∷ keyword_row (0x4f ∷ 0x53 ∷ 0x53 ∷ 0x50 ∷ 0x52 ∷ 0x49 ∷ 0x54 ∷ 0x45 ∷ []) 1 114 false
        ∷ keyword_row (0x52 ∷ 0x49 ∷ 0x4e ∷ 0x54 ∷ []) 255 115 false
        ∷ keyword_row (0x55 ∷ 0x54 ∷ []) 254 141 true
        ∷ [])
    ∷ []
    ∷ (keyword_row (0x41 ∷ 0x49 ∷ 0x53 ∷ 0x45 ∷ []) 255 118 true
        ∷ keyword_row (0x41 ∷ 0x4e ∷ 0x44 ∷ 0x4f ∷ 0x4d ∷ 0x49 ∷ 0x5a ∷ 0x45 ∷ []) 255 119 false
        ∷ keyword_row (0x45 ∷ 0x4e ∷ 0x41 ∷ 0x4d ∷ 0x45 ∷ []) 255 120 true
        ∷ keyword_row (0x45 ∷ 0x54 ∷ 0x55 ∷ 0x52 ∷ 0x4e ∷ []) 255 121 false
        ∷ keyword_row (0x4d ∷ 0x44 ∷ 0x49 ∷ 0x52 ∷ []) 255 123 true
        ∷ keyword_row (0x4f ∷ 0x4c ∷ 0x4c ∷ 0x42 ∷ 0x41 ∷ 0x43 ∷ 0x4b ∷ []) 254 159 false
        ∷ [])
    ∷ (keyword_row (0x43 ∷ 0x52 ∷ 0x45 ∷ 0x45 ∷ 0x4e ∷ []) 255 124 false
        ∷ keyword_row (0x43 ∷ 0x52 ∷ 0x45 ∷ 0x45 ∷ 0x4e ∷ 0x49 ∷ 0x4e ∷ 0x46 ∷ 0x4f ∷ []) 255 126
            false
        ∷ keyword_row (0x45 ∷ 0x43 ∷ 0x53 ∷ 0x54 ∷ 0x4f ∷ 0x44 ∷ 0x41 ∷ 0x54 ∷ 0x45 ∷ []) 255 127
            false
        ∷ keyword_row (0x45 ∷ 0x54 ∷ 0x44 ∷ 0x4f ∷ 0x43 ∷ []) 254 152 false
        ∷ keyword_row (0x45 ∷ 0x54 ∷ 0x46 ∷ 0x4c ∷ 0x41 ∷ 0x47 ∷ 0x53 ∷ []) 254 151 false
        ∷ keyword_row (0x45 ∷ 0x54 ∷ 0x48 ∷ 0x45 ∷ 0x4c ∷ 0x50 ∷ []) 254 168 false
        ∷ keyword_row (0x45 ∷ 0x54 ∷ 0x48 ∷ 0x45 ∷ 0x4c ∷ 0x50 ∷ 0x55 ∷ 0x49 ∷ 0x44 ∷ []) 254 170
            false
        ∷ keyword_row (0x45 ∷ 0x54 ∷ 0x4e ∷ 0x41 ∷ 0x4d ∷ 0x45 ∷ []) 1 128 false
        ∷ keyword_row (0x45 ∷ 0x54 ∷ 0x50 ∷ 0x41 ∷ 0x54 ∷ 0x48 ∷ []) 255 129 false
        ∷ keyword_row (0x48 ∷ 0x4f ∷ 0x57 ∷ 0x48 ∷ 0x45 ∷ 0x4c ∷ 0x50 ∷ []) 254 169 false
        ∷ keyword_row (0x54 ∷ 0x41 ∷ 0x54 ∷ 0x55 ∷ 0x53 ∷ 0x57 ∷ 0x49 ∷ 0x4e ∷ []) 1 130 false
        ∷ keyword_row (0x54 ∷ 0x4f ∷ 0x50 ∷ []) 255 131 false
        ∷ keyword_row (0x54 ∷ 0x59 ∷ 0x4c ∷ 0x45 ∷ []) 255 132 false
        ∷ [])
    ∷ (keyword_row (0x52 ∷ 0x41 ∷ 0x50 ∷ []) 255 133 false ∷ [])
    ∷ (keyword_row (0x4e ∷ 0x4c ∷ 0x4f ∷ 0x41 ∷ 0x44 ∷ 0x4d ∷ []) 255 134 true
        ∷ keyword_row (0x50 ∷ 0x44 ∷ 0x41 ∷ 0x54 ∷ 0x45 ∷ []) 255 135 true
        ∷ keyword_row (0x53 ∷ 0x45 ∷ []) 255 136 true
        ∷ keyword_row (0x53 ∷ 0x45 ∷ 0x53 ∷ 0x50 ∷ 0x52 ∷ 0x49 ∷ 0x54 ∷ 0x45 ∷ []) 1 137 false
        ∷ [])
    ∷ []
    ∷ []
    ∷ []
    ∷ []
    ∷ []
