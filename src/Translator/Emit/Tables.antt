-- ===== src/Translator/Emit/Tables.antt =====
-- oplt/stran/OPL16GEN.CPP: the tables of the codes that keywords and functions become.
use opl_dev.Prelude.{ℕ, List, [], ◌∷◌}

-- `QcodeTable`, by TOplKeyword::TCode. 0xff (EExtended) stands at the keywords that are no command.
abbrev pub qcode_table : List ℕ
qcode_table =
    0x9d ∷ 0x107 ∷ 0x9e ∷ 0x9f ∷ 0xa0 ∷ 0xff ∷ 0xf0 ∷ 0x10e ∷ 0x115 ∷ 0x116 ∷ 0x113 ∷ 0x109 ∷ 0xa1
    ∷ 0x10b ∷ 0xa2 ∷ 0xa3 ∷ 0xff ∷ 0xa4 ∷ 0xa5 ∷ 0xa6 ∷ 0xed ∷ 0xed ∷ 0xed ∷ 0xed ∷ 0xed ∷ 0xed
    ∷ 0xed ∷ 0xed ∷ 0xed ∷ 0xed ∷ 0xed ∷ 0xed ∷ 0x101 ∷ 0xa7 ∷ 0x102 ∷ 0x103 ∷ 0xec ∷ 0x117 ∷ 0x108
    ∷ 0xc2 ∷ 0xa8 ∷ 0xa9 ∷ 0xaa ∷ 0x104 ∷ 0x10c ∷ 0xd2 ∷ 0xf4 ∷ 0xdb ∷ 0x10f ∷ 0xf5 ∷ 0xc6 ∷ 0xd1
    ∷ 0xe1 ∷ 0x111 ∷ 0xe4 ∷ 0xdf ∷ 0xca ∷ 0xcc ∷ 0x100 ∷ 0xd0 ∷ 0xf2 ∷ 0xfc ∷ 0xda ∷ 0xe5 ∷ 0xd3
    ∷ 0xcf ∷ 0xff ∷ 0xe0 ∷ 0xe6 ∷ 0xde ∷ 0xd4 ∷ 0xd8 ∷ 0xd9 ∷ 0xc5 ∷ 0xe2 ∷ 0xc8 ∷ 0xce ∷ 0xcd
    ∷ 0xcb ∷ 0xe3 ∷ 0xc7 ∷ 0xc9 ∷ 0x110 ∷ 0xf3 ∷ 0x94 ∷ 0xb7 ∷ 0xe8 ∷ 0xe9 ∷ 0xac ∷ 0xad ∷ 0x10d
    ∷ 0xae ∷ 0xf1 ∷ 0xaf ∷ 0x8c ∷ 0x91 ∷ 0x93 ∷ 0xeb ∷ 0xea ∷ 0xf8 ∷ 0xb0 ∷ 0x112 ∷ 0xb2 ∷ 0xb3
    ∷ 0xff ∷ 0xb4 ∷ 0xc4 ∷ 0xb5 ∷ 0x9c ∷ 0x9a ∷ 0x99 ∷ 0x9b ∷ 0x98 ∷ 0xb6 ∷ 0x10a ∷ 0x88 ∷ 0x90
    ∷ 0x92 ∷ 0xb8 ∷ 0xb9 ∷ 0xba ∷ 0xc0 ∷ 0x74 ∷ 0xf9 ∷ 0xc3 ∷ 0xe7 ∷ 0x114 ∷ 0xfb ∷ 0xee ∷ 0xfa
    ∷ 0xef ∷ 0xbb ∷ 0x105 ∷ 0xbc ∷ 0xc1 ∷ 0xbd ∷ 0xbe ∷ 0x106 ∷ 0x11a ∷ 0x11b ∷ 0x11c ∷ 0x11d
    ∷ 0x11e ∷ 0xdc ∷ 0xdd ∷ 0x11f ∷ 0x120 ∷ 0x121 ∷ 0x122 ∷ 0x123 ∷ 0x124 ∷ 0x125 ∷ 0x126 ∷ 0x127
    ∷ 0x128 ∷ 0x129 ∷ 0x12a ∷ 0x12b ∷ 0x12c ∷ 0x12d ∷ 0x12e ∷ 0x12f ∷ 0x130 ∷ 0x133 ∷ 0x134 ∷ 0x135
    ∷ 0x136 ∷ 0x137 ∷ 0x138 ∷ 0x139 ∷ 0x13a ∷ 0x13b ∷ []

-- `FunctionTable`, by TOplFunction::TNumber
abbrev pub function_table : List ℕ
function_table =
    0x00 ∷ 0x01 ∷ 0x02 ∷ 0x03 ∷ 0x04 ∷ 0x05 ∷ 0x06 ∷ 0x07 ∷ 0x08 ∷ 0x09 ∷ 0x0a ∷ 0x0b ∷ 0x0c ∷ 0x0d
    ∷ 0x0e ∷ 0x0f ∷ 0x10 ∷ 0x11 ∷ 0x12 ∷ 0x13 ∷ 0x14 ∷ 0x15 ∷ 0x16 ∷ 0x17 ∷ 0x18 ∷ 0x19 ∷ 0x1a
    ∷ 0x1b ∷ 0x1c ∷ 0x1d ∷ 0x1e ∷ 0x20 ∷ 0x21 ∷ 0x22 ∷ 0x23 ∷ 0x24 ∷ 0x26 ∷ 0x27 ∷ 0x28 ∷ 0x29
    ∷ 0x2a ∷ 0x2b ∷ 0x2c ∷ 0x2d ∷ 0x2e ∷ 0x2f ∷ 0x30 ∷ 0x31 ∷ 0x32 ∷ 0x33 ∷ 0x34 ∷ 0x35 ∷ 0x36
    ∷ 0x37 ∷ 0x38 ∷ 0x3b ∷ 0x3c ∷ 0x3d ∷ 0x3e ∷ 0x3f ∷ 0x46 ∷ 0x47 ∷ 0x48 ∷ 0x49 ∷ 0x4a ∷ 0x4b
    ∷ 0x4c ∷ 0x4d ∷ 0x4e ∷ 0x4f ∷ 0x50 ∷ 0x51 ∷ 0x52 ∷ 0x53 ∷ 0x54 ∷ 0x40 ∷ 0x41 ∷ 0x42 ∷ 0x43
    ∷ 0x44 ∷ 0x45 ∷ 0x80 ∷ 0x81 ∷ 0x82 ∷ 0x83 ∷ 0x84 ∷ 0x85 ∷ 0x86 ∷ 0x87 ∷ 0x88 ∷ 0x89 ∷ 0x8a
    ∷ 0x8b ∷ 0x8c ∷ 0x8d ∷ 0x8e ∷ 0x8f ∷ 0x90 ∷ 0x91 ∷ 0x92 ∷ 0x93 ∷ 0x94 ∷ 0x95 ∷ 0x96 ∷ 0x97
    ∷ 0x98 ∷ 0x99 ∷ 0xc0 ∷ 0xc1 ∷ 0xc2 ∷ 0xc3 ∷ 0xc4 ∷ 0xc5 ∷ 0xc6 ∷ 0xc7 ∷ 0xc8 ∷ 0xc9 ∷ 0xca
    ∷ 0xcb ∷ 0xcc ∷ 0xcd ∷ 0xce ∷ 0xcf ∷ 0xd0 ∷ 0xd1 ∷ 0xd2 ∷ 0xd3 ∷ 0xd4 ∷ 0xd5 ∷ 0xd6 ∷ 0xd7
    ∷ 0x1f ∷ 0x39 ∷ 0x25 ∷ 0x3a ∷ 0x55 ∷ 0x56 ∷ 0xd8 ∷ 0x57 ∷ 0xd9 ∷ 0x58 ∷ 0xda ∷ 0xdb ∷ 0xdc ∷ []

-- `procByNameTypeBytes`: the characters % and & and $
abbrev pub proc_by_name_type_bytes : List ℕ
proc_by_name_type_bytes = 0x25 ∷ 0x26 ∷ 0 ∷ 0x24 ∷ []

-- `stackSizes`, by TOplToken::TType
abbrev pub stack_sizes : List ℕ
stack_sizes = 2 ∷ 4 ∷ 8 ∷ 0 ∷ 2 ∷ []
