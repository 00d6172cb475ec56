-- ===== src/Utf8/Case/Upper/From19e.antt =====
-- Rows of `upperMappings` in src/blocxx/UTF8Utils.cpp, from code point 0x19e.
use libblocxx_deb.Prelude.{List, [], ◌∷◌}
use libblocxx_deb.Utf8.Case.Defs.{CaseMapping, ◌maps◌}

unfoldable pub upper_from_19e : List CaseMapping
upper_from_19e =
    (0x19e maps 0x220)
    ∷ (0x1a1 maps 0x1a0)
    ∷ (0x1a3 maps 0x1a2)
    ∷ (0x1a5 maps 0x1a4)
    ∷ (0x1a8 maps 0x1a7)
    ∷ (0x1ad maps 0x1ac)
    ∷ (0x1b0 maps 0x1af)
    ∷ (0x1b4 maps 0x1b3)
    ∷ (0x1b6 maps 0x1b5)
    ∷ (0x1b9 maps 0x1b8)
    ∷ (0x1bd maps 0x1bc)
    ∷ (0x1bf maps 0x1f7)
    ∷ (0x1c5 maps 0x1c4)
    ∷ (0x1c6 maps 0x1c4)
    ∷ (0x1c8 maps 0x1c7)
    ∷ (0x1c9 maps 0x1c7)
    ∷ (0x1cb maps 0x1ca)
    ∷ (0x1cc maps 0x1ca)
    ∷ (0x1ce maps 0x1cd)
    ∷ (0x1d0 maps 0x1cf)
    ∷ (0x1d2 maps 0x1d1)
    ∷ (0x1d4 maps 0x1d3)
    ∷ (0x1d6 maps 0x1d5)
    ∷ (0x1d8 maps 0x1d7)
    ∷ (0x1da maps 0x1d9)
    ∷ (0x1dc maps 0x1db)
    ∷ (0x1dd maps 0x18e)
    ∷ (0x1df maps 0x1de)
    ∷ (0x1e1 maps 0x1e0)
    ∷ (0x1e3 maps 0x1e2)
    ∷ (0x1e5 maps 0x1e4)
    ∷ (0x1e7 maps 0x1e6)
    ∷ (0x1e9 maps 0x1e8)
    ∷ (0x1eb maps 0x1ea)
    ∷ (0x1ed maps 0x1ec)
    ∷ (0x1ef maps 0x1ee)
    ∷ (0x1f2 maps 0x1f1)
    ∷ (0x1f3 maps 0x1f1)
    ∷ (0x1f5 maps 0x1f4)
    ∷ (0x1f9 maps 0x1f8)
    ∷ (0x1fb maps 0x1fa)
    ∷ (0x1fd maps 0x1fc)
    ∷ (0x1ff maps 0x1fe)
    ∷ (0x201 maps 0x200)
    ∷ (0x203 maps 0x202)
    ∷ (0x205 maps 0x204)
    ∷ (0x207 maps 0x206)
    ∷ (0x209 maps 0x208)
    ∷ (0x20b maps 0x20a)
    ∷ (0x20d maps 0x20c)
    ∷ (0x20f maps 0x20e)
    ∷ (0x211 maps 0x210)
    ∷ (0x213 maps 0x212)
    ∷ (0x215 maps 0x214)
    ∷ (0x217 maps 0x216)
    ∷ (0x219 maps 0x218)
    ∷ (0x21b maps 0x21a)
    ∷ (0x21d maps 0x21c)
    ∷ (0x21f maps 0x21e)
    ∷ (0x223 maps 0x222)
    ∷ (0x225 maps 0x224)
    ∷ (0x227 maps 0x226)
    ∷ (0x229 maps 0x228)
    ∷ (0x22b maps 0x22a)
    ∷ (0x22d maps 0x22c)
    ∷ (0x22f maps 0x22e)
    ∷ (0x231 maps 0x230)
    ∷ (0x233 maps 0x232)
    ∷ (0x253 maps 0x181)
    ∷ (0x254 maps 0x186)
    ∷ (0x256 maps 0x189)
    ∷ (0x257 maps 0x18a)
    ∷ (0x259 maps 0x18f)
    ∷ (0x25b maps 0x190)
    ∷ (0x260 maps 0x193)
    ∷ (0x263 maps 0x194)
    ∷ (0x268 maps 0x197)
    ∷ (0x269 maps 0x196)
    ∷ (0x26f maps 0x19c)
    ∷ (0x272 maps 0x19d)
    ∷ (0x275 maps 0x19f)
    ∷ (0x280 maps 0x1a6)
    ∷ (0x283 maps 0x1a9)
    ∷ (0x288 maps 0x1ae)
    ∷ (0x28a maps 0x1b1)
    ∷ (0x28b maps 0x1b2)
    ∷ (0x292 maps 0x1b7)
    ∷ (0x345 maps 0x399)
    ∷ (0x3ac maps 0x386)
    ∷ (0x3ad maps 0x388)
    ∷ (0x3ae maps 0x389)
    ∷ (0x3af maps 0x38a)
    ∷ (0x3b1 maps 0x391)
    ∷ (0x3b2 maps 0x392)
    ∷ (0x3b3 maps 0x393)
    ∷ (0x3b4 maps 0x394)
    ∷ (0x3b5 maps 0x395)
    ∷ (0x3b6 maps 0x396)
    ∷ (0x3b7 maps 0x397)
    ∷ (0x3b8 maps 0x398)
    ∷ (0x3b9 maps 0x399)
    ∷ (0x3ba maps 0x39a)
    ∷ (0x3bb maps 0x39b)
    ∷ (0x3bc maps 0x39c)
    ∷ (0x3bd maps 0x39d)
    ∷ (0x3be maps 0x39e)
    ∷ (0x3bf maps 0x39f)
    ∷ (0x3c0 maps 0x3a0)
    ∷ (0x3c1 maps 0x3a1)
    ∷ (0x3c2 maps 0x3a3)
    ∷ (0x3c3 maps 0x3a3)
    ∷ (0x3c4 maps 0x3a4)
    ∷ (0x3c5 maps 0x3a5)
    ∷ (0x3c6 maps 0x3a6)
    ∷ (0x3c7 maps 0x3a7)
    ∷ (0x3c8 maps 0x3a8)
    ∷ (0x3c9 maps 0x3a9)
    ∷ (0x3ca maps 0x3aa)
    ∷ (0x3cb maps 0x3ab)
    ∷ (0x3cc maps 0x38c)
    ∷ (0x3cd maps 0x38e)
    ∷ (0x3ce maps 0x38f)
    ∷ (0x3d0 maps 0x392)
    ∷ (0x3d1 maps 0x398)
    ∷ (0x3d5 maps 0x3a6)
    ∷ (0x3d6 maps 0x3a0)
    ∷ (0x3d9 maps 0x3d8)
    ∷ (0x3db maps 0x3da)
    ∷ []
