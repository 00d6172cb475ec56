-- ===== src/Utf8/Case/Lower/From41.antt =====
-- Rows of `lowerMappings` in src/blocxx/UTF8Utils.cpp, from code point 0x41.
use libblocxx_deb.Prelude.{List, [], ◌∷◌}
use libblocxx_deb.Utf8.Case.Defs.{CaseMapping, ◌maps◌}

unfoldable pub lower_from_41 : List CaseMapping
lower_from_41 =
    (0x41 maps 0x61)
    ∷ (0x42 maps 0x62)
    ∷ (0x43 maps 0x63)
    ∷ (0x44 maps 0x64)
    ∷ (0x45 maps 0x65)
    ∷ (0x46 maps 0x66)
    ∷ (0x47 maps 0x67)
    ∷ (0x48 maps 0x68)
    ∷ (0x49 maps 0x69)
    ∷ (0x4a maps 0x6a)
    ∷ (0x4b maps 0x6b)
    ∷ (0x4c maps 0x6c)
    ∷ (0x4d maps 0x6d)
    ∷ (0x4e maps 0x6e)
    ∷ (0x4f maps 0x6f)
    ∷ (0x50 maps 0x70)
    ∷ (0x51 maps 0x71)
    ∷ (0x52 maps 0x72)
    ∷ (0x53 maps 0x73)
    ∷ (0x54 maps 0x74)
    ∷ (0x55 maps 0x75)
    ∷ (0x56 maps 0x76)
    ∷ (0x57 maps 0x77)
    ∷ (0x58 maps 0x78)
    ∷ (0x59 maps 0x79)
    ∷ (0x5a maps 0x7a)
    ∷ (0xc0 maps 0xe0)
    ∷ (0xc1 maps 0xe1)
    ∷ (0xc2 maps 0xe2)
    ∷ (0xc3 maps 0xe3)
    ∷ (0xc4 maps 0xe4)
    ∷ (0xc5 maps 0xe5)
    ∷ (0xc6 maps 0xe6)
    ∷ (0xc7 maps 0xe7)
    ∷ (0xc8 maps 0xe8)
    ∷ (0xc9 maps 0xe9)
    ∷ (0xca maps 0xea)
    ∷ (0xcb maps 0xeb)
    ∷ (0xcc maps 0xec)
    ∷ (0xcd maps 0xed)
    ∷ (0xce maps 0xee)
    ∷ (0xcf maps 0xef)
    ∷ (0xd0 maps 0xf0)
    ∷ (0xd1 maps 0xf1)
    ∷ (0xd2 maps 0xf2)
    ∷ (0xd3 maps 0xf3)
    ∷ (0xd4 maps 0xf4)
    ∷ (0xd5 maps 0xf5)
    ∷ (0xd6 maps 0xf6)
    ∷ (0xd8 maps 0xf8)
    ∷ (0xd9 maps 0xf9)
    ∷ (0xda maps 0xfa)
    ∷ (0xdb maps 0xfb)
    ∷ (0xdc maps 0xfc)
    ∷ (0xdd maps 0xfd)
    ∷ (0xde maps 0xfe)
    ∷ (0x100 maps 0x101)
    ∷ (0x102 maps 0x103)
    ∷ (0x104 maps 0x105)
    ∷ (0x106 maps 0x107)
    ∷ (0x108 maps 0x109)
    ∷ (0x10a maps 0x10b)
    ∷ (0x10c maps 0x10d)
    ∷ (0x10e maps 0x10f)
    ∷ (0x110 maps 0x111)
    ∷ (0x112 maps 0x113)
    ∷ (0x114 maps 0x115)
    ∷ (0x116 maps 0x117)
    ∷ (0x118 maps 0x119)
    ∷ (0x11a maps 0x11b)
    ∷ (0x11c maps 0x11d)
    ∷ (0x11e maps 0x11f)
    ∷ (0x120 maps 0x121)
    ∷ (0x122 maps 0x123)
    ∷ (0x124 maps 0x125)
    ∷ (0x126 maps 0x127)
    ∷ (0x128 maps 0x129)
    ∷ (0x12a maps 0x12b)
    ∷ (0x12c maps 0x12d)
    ∷ (0x12e maps 0x12f)
    ∷ (0x130 maps 0x69)
    ∷ (0x132 maps 0x133)
    ∷ (0x134 maps 0x135)
    ∷ (0x136 maps 0x137)
    ∷ (0x139 maps 0x13a)
    ∷ (0x13b maps 0x13c)
    ∷ (0x13d maps 0x13e)
    ∷ (0x13f maps 0x140)
    ∷ (0x141 maps 0x142)
    ∷ (0x143 maps 0x144)
    ∷ (0x145 maps 0x146)
    ∷ (0x147 maps 0x148)
    ∷ (0x14a maps 0x14b)
    ∷ (0x14c maps 0x14d)
    ∷ (0x14e maps 0x14f)
    ∷ (0x150 maps 0x151)
    ∷ (0x152 maps 0x153)
    ∷ (0x154 maps 0x155)
    ∷ (0x156 maps 0x157)
    ∷ (0x158 maps 0x159)
    ∷ (0x15a maps 0x15b)
    ∷ (0x15c maps 0x15d)
    ∷ (0x15e maps 0x15f)
    ∷ (0x160 maps 0x161)
    ∷ (0x162 maps 0x163)
    ∷ (0x164 maps 0x165)
    ∷ (0x166 maps 0x167)
    ∷ (0x168 maps 0x169)
    ∷ (0x16a maps 0x16b)
    ∷ (0x16c maps 0x16d)
    ∷ (0x16e maps 0x16f)
    ∷ (0x170 maps 0x171)
    ∷ (0x172 maps 0x173)
    ∷ (0x174 maps 0x175)
    ∷ (0x176 maps 0x177)
    ∷ (0x178 maps 0xff)
    ∷ (0x179 maps 0x17a)
    ∷ (0x17b maps 0x17c)
    ∷ (0x17d maps 0x17e)
    ∷ (0x181 maps 0x253)
    ∷ (0x182 maps 0x183)
    ∷ (0x184 maps 0x185)
    ∷ (0x186 maps 0x254)
    ∷ (0x187 maps 0x188)
    ∷ (0x189 maps 0x256)
    ∷ (0x18a maps 0x257)
    ∷ (0x18b maps 0x18c)
    ∷ (0x18e maps 0x1dd)
    ∷ []
