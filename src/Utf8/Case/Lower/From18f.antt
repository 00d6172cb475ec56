-- ===== src/Utf8/Case/Lower/From18f.antt =====
-- Rows of `lowerMappings` in src/blocxx/UTF8Utils.cpp, from code point 0x18f.
use libblocxx_deb.Prelude.{List, [], ◌∷◌}
use libblocxx_deb.Utf8.Case.Defs.{CaseMapping, ◌maps◌}

unfoldable pub lower_from_18f : List CaseMapping
lower_from_18f =
    (0x18f maps 0x259)
    ∷ (0x190 maps 0x25b)
    ∷ (0x191 maps 0x192)
    ∷ (0x193 maps 0x260)
    ∷ (0x194 maps 0x263)
    ∷ (0x196 maps 0x269)
    ∷ (0x197 maps 0x268)
    ∷ (0x198 maps 0x199)
    ∷ (0x19c maps 0x26f)
    ∷ (0x19d maps 0x272)
    ∷ (0x19f maps 0x275)
    ∷ (0x1a0 maps 0x1a1)
    ∷ (0x1a2 maps 0x1a3)
    ∷ (0x1a4 maps 0x1a5)
    ∷ (0x1a6 maps 0x280)
    ∷ (0x1a7 maps 0x1a8)
    ∷ (0x1a9 maps 0x283)
    ∷ (0x1ac maps 0x1ad)
    ∷ (0x1ae maps 0x288)
    ∷ (0x1af maps 0x1b0)
    ∷ (0x1b1 maps 0x28a)
    ∷ (0x1b2 maps 0x28b)
    ∷ (0x1b3 maps 0x1b4)
    ∷ (0x1b5 maps 0x1b6)
    ∷ (0x1b7 maps 0x292)
    ∷ (0x1b8 maps 0x1b9)
    ∷ (0x1bc maps 0x1bd)
    ∷ (0x1c4 maps 0x1c6)
    ∷ (0x1c5 maps 0x1c6)
    ∷ (0x1c7 maps 0x1c9)
    ∷ (0x1c8 maps 0x1c9)
    ∷ (0x1ca maps 0x1cc)
    ∷ (0x1cb maps 0x1cc)
    ∷ (0x1cd maps 0x1ce)
    ∷ (0x1cf maps 0x1d0)
    ∷ (0x1d1 maps 0x1d2)
    ∷ (0x1d3 maps 0x1d4)
    ∷ (0x1d5 maps 0x1d6)
    ∷ (0x1d7 maps 0x1d8)
    ∷ (0x1d9 maps 0x1da)
    ∷ (0x1db maps 0x1dc)
    ∷ (0x1de maps 0x1df)
    ∷ (0x1e0 maps 0x1e1)
    ∷ (0x1e2 maps 0x1e3)
    ∷ (0x1e4 maps 0x1e5)
    ∷ (0x1e6 maps 0x1e7)
    ∷ (0x1e8 maps 0x1e9)
    ∷ (0x1ea maps 0x1eb)
    ∷ (0x1ec maps 0x1ed)
    ∷ (0x1ee maps 0x1ef)
    ∷ (0x1f1 maps 0x1f3)
    ∷ (0x1f2 maps 0x1f3)
    ∷ (0x1f4 maps 0x1f5)
    ∷ (0x1f6 maps 0x195)
    ∷ (0x1f7 maps 0x1bf)
    ∷ (0x1f8 maps 0x1f9)
    ∷ (0x1fa maps 0x1fb)
    ∷ (0x1fc maps 0x1fd)
    ∷ (0x1fe maps 0x1ff)
    ∷ (0x200 maps 0x201)
    ∷ (0x202 maps 0x203)
    ∷ (0x204 maps 0x205)
    ∷ (0x206 maps 0x207)
    ∷ (0x208 maps 0x209)
    ∷ (0x20a maps 0x20b)
    ∷ (0x20c maps 0x20d)
    ∷ (0x20e maps 0x20f)
    ∷ (0x210 maps 0x211)
    ∷ (0x212 maps 0x213)
    ∷ (0x214 maps 0x215)
    ∷ (0x216 maps 0x217)
    ∷ (0x218 maps 0x219)
    ∷ (0x21a maps 0x21b)
    ∷ (0x21c maps 0x21d)
    ∷ (0x21e maps 0x21f)
    ∷ (0x220 maps 0x19e)
    ∷ (0x222 maps 0x223)
    ∷ (0x224 maps 0x225)
    ∷ (0x226 maps 0x227)
    ∷ (0x228 maps 0x229)
    ∷ (0x22a maps 0x22b)
    ∷ (0x22c maps 0x22d)
    ∷ (0x22e maps 0x22f)
    ∷ (0x230 maps 0x231)
    ∷ (0x232 maps 0x233)
    ∷ (0x386 maps 0x3ac)
    ∷ (0x388 maps 0x3ad)
    ∷ (0x389 maps 0x3ae)
    ∷ (0x38a maps 0x3af)
    ∷ (0x38c maps 0x3cc)
    ∷ (0x38e maps 0x3cd)
    ∷ (0x38f maps 0x3ce)
    ∷ (0x391 maps 0x3b1)
    ∷ (0x392 maps 0x3b2)
    ∷ (0x393 maps 0x3b3)
    ∷ (0x394 maps 0x3b4)
    ∷ (0x395 maps 0x3b5)
    ∷ (0x396 maps 0x3b6)
    ∷ (0x397 maps 0x3b7)
    ∷ (0x398 maps 0x3b8)
    ∷ (0x399 maps 0x3b9)
    ∷ (0x39a maps 0x3ba)
    ∷ (0x39b maps 0x3bb)
    ∷ (0x39c maps 0x3bc)
    ∷ (0x39d maps 0x3bd)
    ∷ (0x39e maps 0x3be)
    ∷ (0x39f maps 0x3bf)
    ∷ (0x3a0 maps 0x3c0)
    ∷ (0x3a1 maps 0x3c1)
    ∷ (0x3a3 maps 0x3c3)
    ∷ (0x3a4 maps 0x3c4)
    ∷ (0x3a5 maps 0x3c5)
    ∷ (0x3a6 maps 0x3c6)
    ∷ (0x3a7 maps 0x3c7)
    ∷ (0x3a8 maps 0x3c8)
    ∷ (0x3a9 maps 0x3c9)
    ∷ (0x3aa maps 0x3ca)
    ∷ (0x3ab maps 0x3cb)
    ∷ (0x3d8 maps 0x3d9)
    ∷ (0x3da maps 0x3db)
    ∷ (0x3dc maps 0x3dd)
    ∷ (0x3de maps 0x3df)
    ∷ (0x3e0 maps 0x3e1)
    ∷ (0x3e2 maps 0x3e3)
    ∷ (0x3e4 maps 0x3e5)
    ∷ (0x3e6 maps 0x3e7)
    ∷ (0x3e8 maps 0x3e9)
    ∷ (0x3ea maps 0x3eb)
    ∷ []
