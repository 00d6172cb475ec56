-- ===== src/Utf8/Case/Upper/From61.antt =====
-- Rows of `upperMappings` in src/blocxx/UTF8Utils.cpp, from code point 0x61.
use libblocxx_deb.Prelude.{List, [], ◌∷◌}
use libblocxx_deb.Utf8.Case.Defs.{CaseMapping, ◌maps◌}

unfoldable pub upper_from_61 : List CaseMapping
upper_from_61 =
    (0x61 maps 0x41)
    ∷ (0x62 maps 0x42)
    ∷ (0x63 maps 0x43)
    ∷ (0x64 maps 0x44)
    ∷ (0x65 maps 0x45)
    ∷ (0x66 maps 0x46)
    ∷ (0x67 maps 0x47)
    ∷ (0x68 maps 0x48)
    ∷ (0x69 maps 0x49)
    ∷ (0x6a maps 0x4a)
    ∷ (0x6b maps 0x4b)
    ∷ (0x6c maps 0x4c)
    ∷ (0x6d maps 0x4d)
    ∷ (0x6e maps 0x4e)
    ∷ (0x6f maps 0x4f)
    ∷ (0x70 maps 0x50)
    ∷ (0x71 maps 0x51)
    ∷ (0x72 maps 0x52)
    ∷ (0x73 maps 0x53)
    ∷ (0x74 maps 0x54)
    ∷ (0x75 maps 0x55)
    ∷ (0x76 maps 0x56)
    ∷ (0x77 maps 0x57)
    ∷ (0x78 maps 0x58)
    ∷ (0x79 maps 0x59)
    ∷ (0x7a maps 0x5a)
    ∷ (0xb5 maps 0x39c)
    ∷ (0xe0 maps 0xc0)
    ∷ (0xe1 maps 0xc1)
    ∷ (0xe2 maps 0xc2)
    ∷ (0xe3 maps 0xc3)
    ∷ (0xe4 maps 0xc4)
    ∷ (0xe5 maps 0xc5)
    ∷ (0xe6 maps 0xc6)
    ∷ (0xe7 maps 0xc7)
    ∷ (0xe8 maps 0xc8)
    ∷ (0xe9 maps 0xc9)
    ∷ (0xea maps 0xca)
    ∷ (0xeb maps 0xcb)
    ∷ (0xec maps 0xcc)
    ∷ (0xed maps 0xcd)
    ∷ (0xee maps 0xce)
    ∷ (0xef maps 0xcf)
    ∷ (0xf0 maps 0xd0)
    ∷ (0xf1 maps 0xd1)
    ∷ (0xf2 maps 0xd2)
    ∷ (0xf3 maps 0xd3)
    ∷ (0xf4 maps 0xd4)
    ∷ (0xf5 maps 0xd5)
    ∷ (0xf6 maps 0xd6)
    ∷ (0xf8 maps 0xd8)
    ∷ (0xf9 maps 0xd9)
    ∷ (0xfa maps 0xda)
    ∷ (0xfb maps 0xdb)
    ∷ (0xfc maps 0xdc)
    ∷ (0xfd maps 0xdd)
    ∷ (0xfe maps 0xde)
    ∷ (0xff maps 0x178)
    ∷ (0x101 maps 0x100)
    ∷ (0x103 maps 0x102)
    ∷ (0x105 maps 0x104)
    ∷ (0x107 maps 0x106)
    ∷ (0x109 maps 0x108)
    ∷ (0x10b maps 0x10a)
    ∷ (0x10d maps 0x10c)
    ∷ (0x10f maps 0x10e)
    ∷ (0x111 maps 0x110)
    ∷ (0x113 maps 0x112)
    ∷ (0x115 maps 0x114)
    ∷ (0x117 maps 0x116)
    ∷ (0x119 maps 0x118)
    ∷ (0x11b maps 0x11a)
    ∷ (0x11d maps 0x11c)
    ∷ (0x11f maps 0x11e)
    ∷ (0x121 maps 0x120)
    ∷ (0x123 maps 0x122)
    ∷ (0x125 maps 0x124)
    ∷ (0x127 maps 0x126)
    ∷ (0x129 maps 0x128)
    ∷ (0x12b maps 0x12a)
    ∷ (0x12d maps 0x12c)
    ∷ (0x12f maps 0x12e)
    ∷ (0x131 maps 0x49)
    ∷ (0x133 maps 0x132)
    ∷ (0x135 maps 0x134)
    ∷ (0x137 maps 0x136)
    ∷ (0x13a maps 0x139)
    ∷ (0x13c maps 0x13b)
    ∷ (0x13e maps 0x13d)
    ∷ (0x140 maps 0x13f)
    ∷ (0x142 maps 0x141)
    ∷ (0x144 maps 0x143)
    ∷ (0x146 maps 0x145)
    ∷ (0x148 maps 0x147)
    ∷ (0x14b maps 0x14a)
    ∷ (0x14d maps 0x14c)
    ∷ (0x14f maps 0x14e)
    ∷ (0x151 maps 0x150)
    ∷ (0x153 maps 0x152)
    ∷ (0x155 maps 0x154)
    ∷ (0x157 maps 0x156)
    ∷ (0x159 maps 0x158)
    ∷ (0x15b maps 0x15a)
    ∷ (0x15d maps 0x15c)
    ∷ (0x15f maps 0x15e)
    ∷ (0x161 maps 0x160)
    ∷ (0x163 maps 0x162)
    ∷ (0x165 maps 0x164)
    ∷ (0x167 maps 0x166)
    ∷ (0x169 maps 0x168)
    ∷ (0x16b maps 0x16a)
    ∷ (0x16d maps 0x16c)
    ∷ (0x16f maps 0x16e)
    ∷ (0x171 maps 0x170)
    ∷ (0x173 maps 0x172)
    ∷ (0x175 maps 0x174)
    ∷ (0x177 maps 0x176)
    ∷ (0x17a maps 0x179)
    ∷ (0x17c maps 0x17b)
    ∷ (0x17e maps 0x17d)
    ∷ (0x17f maps 0x53)
    ∷ (0x183 maps 0x182)
    ∷ (0x185 maps 0x184)
    ∷ (0x188 maps 0x187)
    ∷ (0x18c maps 0x18b)
    ∷ (0x192 maps 0x191)
    ∷ (0x195 maps 0x1f6)
    ∷ (0x199 maps 0x198)
    ∷ []
