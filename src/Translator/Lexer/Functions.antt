-- ===== src/Translator/Lexer/Functions.antt =====
-- oplt/stran/OT_RESRV.CPP: the lookup tables of the functions, a list for each initial letter from
-- A to Y. A name is its code units behind the initial.
use opl_dev.Prelude.{ℕ, List, [], ◌∷◌}

-- `TFunctionLookup`: name, targets, return type, number, the bits of the argument counts that are
-- allowed (0 for a statistical function), and the types of the arguments, a nibble each.
pub data FunctionLookup : Type 0 where
  function_row : List ℕ → ℕ → ℕ → ℕ → ℕ → ℕ → FunctionLookup

abbrev pub function_tables : List (List FunctionLookup)
function_tables =
    (function_row (0x42 ∷ 0x53 ∷ []) 255 2 81 2 0x3
      ∷ function_row (0x43 ∷ 0x4f ∷ 0x53 ∷ []) 255 2 82 2 0x3
      ∷ function_row (0x44 ∷ 0x44 ∷ 0x52 ∷ []) 255 6 0 2 0xb
      ∷ function_row (0x44 ∷ 0x4a ∷ 0x55 ∷ 0x53 ∷ 0x54 ∷ 0x41 ∷ 0x4c ∷ 0x4c ∷ 0x4f ∷ 0x43 ∷ []) 255
          6 67 8 0xccc
      ∷ function_row (0x4c ∷ 0x45 ∷ 0x52 ∷ 0x54 ∷ []) 255 0 54 62 0x44444
      ∷ function_row (0x4c ∷ 0x4c ∷ 0x4f ∷ 0x43 ∷ []) 255 6 65 2 0xd
      ∷ function_row (0x53 ∷ 0x43 ∷ []) 255 0 1 2 0x4
      ∷ function_row (0x53 ∷ 0x49 ∷ 0x4e ∷ []) 255 2 83 2 0x3
      ∷ function_row (0x54 ∷ 0x41 ∷ 0x4e ∷ []) 255 2 84 2 0x3
      ∷ [])
    ∷ (function_row (0x4f ∷ 0x4f ∷ 0x4b ∷ 0x4d ∷ 0x41 ∷ 0x52 ∷ 0x4b ∷ []) 254 0 135 1 0x0 ∷ [])
    ∷ (function_row (0x41 ∷ 0x4c ∷ 0x4c ∷ []) 1 0 2 126 0x111111
        ∷ function_row (0x48 ∷ 0x52 ∷ 0x24 ∷ []) 255 3 107 2 0x1
        ∷ function_row (0x4d ∷ 0x44 ∷ 0x24 ∷ []) 255 3 129 2 0x1
        ∷ function_row (0x4f ∷ 0x53 ∷ []) 255 2 85 2 0x3
        ∷ function_row (0x4f ∷ 0x55 ∷ 0x4e ∷ 0x54 ∷ []) 255 0 3 1 0x0
        ∷ function_row
            (0x52 ∷ 0x45 ∷ 0x41 ∷ 0x54 ∷ 0x45 ∷ 0x53 ∷ 0x50 ∷ 0x52 ∷ 0x49 ∷ 0x54 ∷ 0x45 ∷ []) 1 0 55
            1 0x0
        ∷ [])
    ∷ (function_row (0x41 ∷ 0x54 ∷ 0x45 ∷ 0x54 ∷ 0x4f ∷ 0x53 ∷ 0x45 ∷ 0x43 ∷ 0x53 ∷ []) 255 1 80 64
          0x111111
        ∷ function_row (0x41 ∷ 0x54 ∷ 0x49 ∷ 0x4d ∷ 0x24 ∷ []) 255 3 108 1 0x0
        ∷ function_row (0x41 ∷ 0x59 ∷ []) 255 0 4 1 0x0
        ∷ function_row (0x41 ∷ 0x59 ∷ 0x4e ∷ 0x41 ∷ 0x4d ∷ 0x45 ∷ 0x24 ∷ []) 255 3 109 2 0x1
        ∷ function_row (0x41 ∷ 0x59 ∷ 0x53 ∷ []) 255 1 75 8 0x111
        ∷ function_row (0x45 ∷ 0x47 ∷ []) 255 2 86 2 0x3
        ∷ function_row (0x49 ∷ 0x41 ∷ 0x4c ∷ 0x4f ∷ 0x47 ∷ []) 255 0 53 1 0x0
        ∷ function_row (0x49 ∷ 0x52 ∷ 0x24 ∷ []) 255 3 110 2 0x4
        ∷ function_row (0x4f ∷ 0x57 ∷ []) 255 0 5 8 0x111
        ∷ [])
    ∷ (function_row (0x4e ∷ 0x54 ∷ 0x45 ∷ 0x52 ∷ 0x53 ∷ 0x45 ∷ 0x4e ∷ 0x44 ∷ []) 1 0 63 60 0xaaa11
        ∷ function_row (0x4e ∷ 0x54 ∷ 0x45 ∷ 0x52 ∷ 0x53 ∷ 0x45 ∷ 0x4e ∷ 0x44 ∷ 0x30 ∷ []) 1 0 64 60
            0xaaa11
        ∷ function_row (0x4f ∷ 0x46 ∷ []) 255 0 6 1 0x0
        ∷ function_row (0x52 ∷ 0x52 ∷ []) 255 0 7 1 0x0
        ∷ function_row (0x52 ∷ 0x52 ∷ 0x24 ∷ []) 255 3 111 2 0x1
        ∷ function_row (0x52 ∷ 0x52 ∷ 0x58 ∷ 0x24 ∷ []) 254 3 137 1 0x0
        ∷ function_row (0x56 ∷ 0x41 ∷ 0x4c ∷ []) 255 2 106 2 0x4
        ∷ function_row (0x58 ∷ 0x49 ∷ 0x53 ∷ 0x54 ∷ []) 255 0 8 2 0x4
        ∷ function_row (0x58 ∷ 0x50 ∷ []) 255 2 87 2 0x3
        ∷ [])
    ∷ (function_row (0x49 ∷ 0x4e ∷ 0x44 ∷ []) 255 0 9 2 0x4
        ∷ function_row (0x49 ∷ 0x4e ∷ 0x44 ∷ 0x46 ∷ 0x49 ∷ 0x45 ∷ 0x4c ∷ 0x44 ∷ []) 255 0 74 16
            0x1114
        ∷ function_row (0x49 ∷ 0x4e ∷ 0x44 ∷ 0x4c ∷ 0x49 ∷ 0x42 ∷ []) 1 0 58 4 0x46
        ∷ function_row (0x49 ∷ 0x58 ∷ 0x24 ∷ []) 255 3 112 8 0x113
        ∷ function_row (0x4c ∷ 0x54 ∷ []) 255 2 88 2 0x2
        ∷ [])
    ∷ (function_row (0x43 ∷ 0x52 ∷ 0x45 ∷ 0x41 ∷ 0x54 ∷ 0x45 ∷ []) 255 0 36 32 0xb11111
        ∷ function_row (0x43 ∷ 0x52 ∷ 0x45 ∷ 0x41 ∷ 0x54 ∷ 0x45 ∷ 0x42 ∷ 0x49 ∷ 0x54 ∷ []) 255 0 37
            4 0x1b1
        ∷ function_row (0x45 ∷ 0x4e ∷ 0x24 ∷ []) 255 3 113 4 0x13
        ∷ function_row (0x45 ∷ 0x54 ∷ []) 255 0 10 1 0x0
        ∷ function_row (0x45 ∷ 0x54 ∷ 0x24 ∷ []) 255 3 114 1 0x0
        ∷ function_row (0x45 ∷ 0x54 ∷ 0x43 ∷ 0x4d ∷ 0x44 ∷ 0x24 ∷ []) 255 3 128 1 0x0
        ∷ function_row (0x45 ∷ 0x54 ∷ 0x44 ∷ 0x4f ∷ 0x43 ∷ 0x24 ∷ []) 254 3 139 1 0x0
        ∷ function_row (0x45 ∷ 0x54 ∷ 0x45 ∷ 0x56 ∷ 0x45 ∷ 0x4e ∷ 0x54 ∷ 0x43 ∷ []) 254 0 136 2 0x6
        ∷ function_row (0x45 ∷ 0x54 ∷ 0x4c ∷ 0x49 ∷ 0x42 ∷ 0x48 ∷ []) 1 0 59 2 0x1
        ∷ function_row (0x48 ∷ 0x45 ∷ 0x49 ∷ 0x47 ∷ 0x48 ∷ 0x54 ∷ []) 255 0 45 1 0x0
        ∷ function_row (0x49 ∷ 0x44 ∷ 0x45 ∷ 0x4e ∷ 0x54 ∷ 0x49 ∷ 0x54 ∷ 0x59 ∷ []) 255 0 41 1 0x0
        ∷ function_row (0x4c ∷ 0x4f ∷ 0x41 ∷ 0x44 ∷ 0x42 ∷ 0x49 ∷ 0x54 ∷ []) 255 0 38 14 0x114
        ∷ function_row (0x4c ∷ 0x4f ∷ 0x41 ∷ 0x44 ∷ 0x46 ∷ 0x4f ∷ 0x4e ∷ 0x54 ∷ []) 255 0 39 2 0x4
        ∷ function_row (0x4f ∷ 0x52 ∷ 0x49 ∷ 0x47 ∷ 0x49 ∷ 0x4e ∷ 0x58 ∷ []) 255 0 46 1 0x0
        ∷ function_row (0x4f ∷ 0x52 ∷ 0x49 ∷ 0x47 ∷ 0x49 ∷ 0x4e ∷ 0x59 ∷ []) 255 0 47 1 0x0
        ∷ function_row (0x50 ∷ 0x49 ∷ 0x58 ∷ 0x45 ∷ 0x4c ∷ []) 254 1 143 4 0x11
        ∷ function_row (0x50 ∷ 0x52 ∷ 0x49 ∷ 0x4e ∷ 0x54 ∷ 0x43 ∷ 0x4c ∷ 0x49 ∷ 0x50 ∷ []) 255 0 49
            4 0x14
        ∷ function_row (0x52 ∷ 0x41 ∷ 0x4e ∷ 0x4b ∷ []) 255 0 40 1 0x0
        ∷ function_row (0x54 ∷ 0x57 ∷ 0x49 ∷ 0x44 ∷ 0x54 ∷ 0x48 ∷ []) 255 0 48 2 0x4
        ∷ function_row (0x57 ∷ 0x49 ∷ 0x44 ∷ 0x54 ∷ 0x48 ∷ []) 255 0 44 1 0x0
        ∷ function_row (0x58 ∷ []) 255 0 42 1 0x0
        ∷ function_row (0x59 ∷ []) 255 0 43 1 0x0
        ∷ [])
    ∷ (function_row (0x45 ∷ 0x58 ∷ 0x24 ∷ []) 255 3 115 2 0x2
        ∷ function_row (0x4f ∷ 0x55 ∷ 0x52 ∷ []) 255 0 18 1 0x0
        ∷ [])
    ∷ (function_row (0x41 ∷ 0x42 ∷ 0x53 ∷ []) 255 1 76 2 0x2
        ∷ function_row (0x4e ∷ 0x54 ∷ []) 255 1 77 2 0x3
        ∷ function_row (0x4e ∷ 0x54 ∷ 0x46 ∷ []) 255 2 89 2 0x3
        ∷ function_row (0x4e ∷ 0x54 ∷ 0x52 ∷ 0x41 ∷ 0x4e ∷ 0x53 ∷ []) 254 0 138 1 0x0
        ∷ function_row (0x4f ∷ 0x41 ∷ []) 255 0 11 32 0xaa611
        ∷ function_row (0x4f ∷ 0x43 ∷ []) 255 0 69 56 0xaa611
        ∷ function_row (0x4f ∷ 0x43 ∷ 0x41 ∷ 0x4e ∷ 0x43 ∷ 0x45 ∷ 0x4c ∷ []) 255 0 72 2 0x1
        ∷ function_row (0x4f ∷ 0x43 ∷ 0x4c ∷ 0x4f ∷ 0x53 ∷ 0x45 ∷ []) 255 0 16 2 0x1
        ∷ function_row (0x4f ∷ 0x4f ∷ 0x50 ∷ 0x45 ∷ 0x4e ∷ []) 255 0 13 8 0x1b6
        ∷ function_row (0x4f ∷ 0x52 ∷ 0x45 ∷ 0x41 ∷ 0x44 ∷ []) 255 0 15 8 0x1d1
        ∷ function_row (0x4f ∷ 0x53 ∷ 0x45 ∷ 0x45 ∷ 0x4b ∷ []) 255 0 32 8 0x711
        ∷ function_row (0x4f ∷ 0x57 ∷ []) 255 0 12 16 0xaa11
        ∷ function_row (0x4f ∷ 0x57 ∷ 0x41 ∷ 0x49 ∷ 0x54 ∷ []) 255 0 17 1 0x0
        ∷ function_row (0x4f ∷ 0x57 ∷ 0x52 ∷ 0x49 ∷ 0x54 ∷ 0x45 ∷ []) 255 0 14 8 0x1d1
        ∷ [])
    ∷ []
    ∷ (function_row (0x45 ∷ 0x59 ∷ []) 255 0 19 1 0x0
        ∷ function_row (0x45 ∷ 0x59 ∷ 0x24 ∷ []) 255 3 116 1 0x0
        ∷ function_row (0x45 ∷ 0x59 ∷ 0x41 ∷ []) 255 0 34 4 0x66
        ∷ function_row (0x45 ∷ 0x59 ∷ 0x43 ∷ []) 255 0 35 2 0x6
        ∷ function_row (0x4d ∷ 0x4f ∷ 0x44 ∷ []) 255 0 33 1 0x0
        ∷ [])
    ∷ (function_row (0x45 ∷ 0x46 ∷ 0x54 ∷ 0x24 ∷ []) 255 3 117 4 0x14
        ∷ function_row (0x45 ∷ 0x4e ∷ []) 255 0 20 2 0x4
        ∷ function_row (0x45 ∷ 0x4e ∷ 0x41 ∷ 0x4c ∷ 0x4c ∷ 0x4f ∷ 0x43 ∷ []) 255 6 68 2 0xc
        ∷ function_row (0x4e ∷ []) 255 2 90 2 0x3
        ∷ function_row (0x4f ∷ 0x41 ∷ 0x44 ∷ 0x4c ∷ 0x49 ∷ 0x42 ∷ []) 1 0 56 8 0x146
        ∷ function_row (0x4f ∷ 0x43 ∷ []) 255 0 21 4 0xb44
        ∷ function_row (0x4f ∷ 0x47 ∷ []) 255 2 91 2 0x3
        ∷ function_row (0x4f ∷ 0x57 ∷ 0x45 ∷ 0x52 ∷ 0x24 ∷ []) 255 3 118 2 0x4
        ∷ [])
    ∷ (function_row (0x41 ∷ 0x58 ∷ []) 255 2 100 0 0x0
        ∷ function_row (0x45 ∷ 0x41 ∷ 0x4e ∷ []) 255 2 101 0 0x0
        ∷ function_row (0x45 ∷ 0x4e ∷ 0x55 ∷ []) 255 0 52 1 0xb
        ∷ function_row (0x49 ∷ 0x44 ∷ 0x24 ∷ []) 255 3 119 8 0x114
        ∷ function_row (0x49 ∷ 0x4e ∷ []) 255 2 102 0 0x0
        ∷ function_row (0x49 ∷ 0x4e ∷ 0x55 ∷ 0x54 ∷ 0x45 ∷ []) 255 0 22 1 0x0
        ∷ function_row (0x4f ∷ 0x4e ∷ 0x54 ∷ 0x48 ∷ []) 255 0 23 1 0x0
        ∷ function_row (0x4f ∷ 0x4e ∷ 0x54 ∷ 0x48 ∷ 0x24 ∷ []) 255 3 120 2 0x1
        ∷ function_row (0x50 ∷ 0x4f ∷ 0x50 ∷ 0x55 ∷ 0x50 ∷ []) 254 0 140 32 0xb14111
        ∷ [])
    ∷ (function_row (0x45 ∷ 0x57 ∷ 0x4f ∷ 0x42 ∷ 0x4a ∷ []) 1 0 60 4 0x11
        ∷ function_row (0x45 ∷ 0x57 ∷ 0x4f ∷ 0x42 ∷ 0x4a ∷ 0x48 ∷ []) 1 0 61 4 0x11
        ∷ function_row (0x55 ∷ 0x4d ∷ 0x24 ∷ []) 255 3 121 4 0x13
        ∷ [])
    ∷ (function_row (0x53 ∷ []) 1 0 51 14 0x111 ∷ [])
    ∷ (function_row (0x41 ∷ 0x52 ∷ 0x53 ∷ 0x45 ∷ 0x24 ∷ []) 255 3 130 8 0x644
        ∷ function_row (0x45 ∷ 0x45 ∷ 0x4b ∷ 0x24 ∷ []) 255 3 122 2 0xd
        ∷ function_row (0x45 ∷ 0x45 ∷ 0x4b ∷ 0x42 ∷ []) 255 0 24 2 0xd
        ∷ function_row (0x45 ∷ 0x45 ∷ 0x4b ∷ 0x46 ∷ []) 255 2 92 2 0xd
        ∷ function_row (0x45 ∷ 0x45 ∷ 0x4b ∷ 0x4c ∷ []) 255 1 78 2 0xd
        ∷ function_row (0x45 ∷ 0x45 ∷ 0x4b ∷ 0x57 ∷ []) 255 0 25 2 0xd
        ∷ function_row (0x49 ∷ []) 255 2 93 1 0x0
        ∷ function_row (0x4f ∷ 0x53 ∷ []) 255 0 26 1 0x0
        ∷ [])
    ∷ []
    ∷ (function_row (0x41 ∷ 0x44 ∷ []) 255 2 94 2 0x3
        ∷ function_row (0x45 ∷ 0x41 ∷ 0x4c ∷ 0x4c ∷ 0x4f ∷ 0x43 ∷ []) 255 6 66 4 0xdc
        ∷ function_row (0x45 ∷ 0x43 ∷ 0x53 ∷ 0x49 ∷ 0x5a ∷ 0x45 ∷ []) 1 0 27 1 0x0
        ∷ function_row (0x45 ∷ 0x50 ∷ 0x54 ∷ 0x24 ∷ []) 255 3 123 4 0x14
        ∷ function_row (0x49 ∷ 0x47 ∷ 0x48 ∷ 0x54 ∷ 0x24 ∷ []) 255 3 124 4 0x14
        ∷ function_row (0x4e ∷ 0x44 ∷ []) 255 2 95 1 0x0
        ∷ [])
    ∷ (function_row (0x43 ∷ 0x49 ∷ 0x24 ∷ []) 255 3 125 8 0x113
        ∷ function_row (0x45 ∷ 0x43 ∷ 0x4f ∷ 0x4e ∷ 0x44 ∷ []) 255 0 28 1 0x0
        ∷ function_row (0x45 ∷ 0x4e ∷ 0x44 ∷ []) 1 0 62 60 0xaaa11
        ∷ function_row (0x49 ∷ 0x4e ∷ []) 255 2 96 2 0x3
        ∷ function_row (0x49 ∷ 0x5a ∷ 0x45 ∷ []) 254 0 141 2 0x4
        ∷ function_row (0x50 ∷ 0x41 ∷ 0x43 ∷ 0x45 ∷ []) 255 1 79 1 0x0
        ∷ function_row (0x51 ∷ 0x52 ∷ []) 255 2 97 2 0x3
        ∷ function_row (0x54 ∷ 0x41 ∷ 0x54 ∷ 0x57 ∷ 0x49 ∷ 0x4e ∷ 0x49 ∷ 0x4e ∷ 0x46 ∷ 0x4f ∷ []) 1
            0 73 4 0x61
        ∷ function_row (0x54 ∷ 0x44 ∷ []) 255 2 103 0 0x0
        ∷ function_row (0x55 ∷ 0x4d ∷ []) 255 2 104 0 0x0
        ∷ [])
    ∷ (function_row (0x41 ∷ 0x4e ∷ []) 255 2 98 2 0x3
        ∷ function_row (0x45 ∷ 0x53 ∷ 0x54 ∷ 0x45 ∷ 0x56 ∷ 0x45 ∷ 0x4e ∷ 0x54 ∷ []) 255 0 50 1 0x0
        ∷ [])
    ∷ (function_row (0x41 ∷ 0x44 ∷ 0x44 ∷ []) 255 0 70 4 0x15
        ∷ function_row (0x4e ∷ 0x4c ∷ 0x4f ∷ 0x41 ∷ 0x44 ∷ 0x4c ∷ 0x49 ∷ 0x42 ∷ []) 1 0 57 2 0x1
        ∷ function_row (0x50 ∷ 0x50 ∷ 0x45 ∷ 0x52 ∷ 0x24 ∷ []) 255 3 126 2 0x4
        ∷ function_row (0x53 ∷ 0x52 ∷ []) 1 0 29 32 0x55555
        ∷ function_row (0x53 ∷ 0x52 ∷ 0x24 ∷ []) 1 3 127 32 0x55555
        ∷ function_row (0x53 ∷ 0x55 ∷ 0x42 ∷ []) 255 0 71 4 0x15
        ∷ [])
    ∷ (function_row (0x41 ∷ 0x4c ∷ []) 255 2 99 2 0x4
        ∷ function_row (0x41 ∷ 0x52 ∷ []) 255 2 105 0 0x0
        ∷ [])
    ∷ (function_row (0x45 ∷ 0x45 ∷ 0x4b ∷ []) 255 0 31 8 0x111 ∷ [])
    ∷ []
    ∷ (function_row (0x45 ∷ 0x41 ∷ 0x52 ∷ []) 255 0 30 1 0x0 ∷ [])
    ∷ []
