-- ===== src/Utf8/Case/Lower/From506.antt =====
-- Rows of `lowerMappings` in src/blocxx/UTF8Utils.cpp, from code point 0x506.
use libblocxx_deb.Prelude.{List, [], ◌∷◌}
use libblocxx_deb.Utf8.Case.Defs.{CaseMapping, ◌maps◌}

unfoldable pub lower_from_506 : List CaseMapping
lower_from_506 =
    (0x506 maps 0x507)
    ∷ (0x508 maps 0x509)
    ∷ (0x50a maps 0x50b)
    ∷ (0x50c maps 0x50d)
    ∷ (0x50e maps 0x50f)
    ∷ (0x531 maps 0x561)
    ∷ (0x532 maps 0x562)
    ∷ (0x533 maps 0x563)
    ∷ (0x534 maps 0x564)
    ∷ (0x535 maps 0x565)
    ∷ (0x536 maps 0x566)
    ∷ (0x537 maps 0x567)
    ∷ (0x538 maps 0x568)
    ∷ (0x539 maps 0x569)
    ∷ (0x53a maps 0x56a)
    ∷ (0x53b maps 0x56b)
    ∷ (0x53c maps 0x56c)
    ∷ (0x53d maps 0x56d)
    ∷ (0x53e maps 0x56e)
    ∷ (0x53f maps 0x56f)
    ∷ (0x540 maps 0x570)
    ∷ (0x541 maps 0x571)
    ∷ (0x542 maps 0x572)
    ∷ (0x543 maps 0x573)
    ∷ (0x544 maps 0x574)
    ∷ (0x545 maps 0x575)
    ∷ (0x546 maps 0x576)
    ∷ (0x547 maps 0x577)
    ∷ (0x548 maps 0x578)
    ∷ (0x549 maps 0x579)
    ∷ (0x54a maps 0x57a)
    ∷ (0x54b maps 0x57b)
    ∷ (0x54c maps 0x57c)
    ∷ (0x54d maps 0x57d)
    ∷ (0x54e maps 0x57e)
    ∷ (0x54f maps 0x57f)
    ∷ (0x550 maps 0x580)
    ∷ (0x551 maps 0x581)
    ∷ (0x552 maps 0x582)
    ∷ (0x553 maps 0x583)
    ∷ (0x554 maps 0x584)
    ∷ (0x555 maps 0x585)
    ∷ (0x556 maps 0x586)
    ∷ (0x1e00 maps 0x1e01)
    ∷ (0x1e02 maps 0x1e03)
    ∷ (0x1e04 maps 0x1e05)
    ∷ (0x1e06 maps 0x1e07)
    ∷ (0x1e08 maps 0x1e09)
    ∷ (0x1e0a maps 0x1e0b)
    ∷ (0x1e0c maps 0x1e0d)
    ∷ (0x1e0e maps 0x1e0f)
    ∷ (0x1e10 maps 0x1e11)
    ∷ (0x1e12 maps 0x1e13)
    ∷ (0x1e14 maps 0x1e15)
    ∷ (0x1e16 maps 0x1e17)
    ∷ (0x1e18 maps 0x1e19)
    ∷ (0x1e1a maps 0x1e1b)
    ∷ (0x1e1c maps 0x1e1d)
    ∷ (0x1e1e maps 0x1e1f)
    ∷ (0x1e20 maps 0x1e21)
    ∷ (0x1e22 maps 0x1e23)
    ∷ (0x1e24 maps 0x1e25)
    ∷ (0x1e26 maps 0x1e27)
    ∷ (0x1e28 maps 0x1e29)
    ∷ (0x1e2a maps 0x1e2b)
    ∷ (0x1e2c maps 0x1e2d)
    ∷ (0x1e2e maps 0x1e2f)
    ∷ (0x1e30 maps 0x1e31)
    ∷ (0x1e32 maps 0x1e33)
    ∷ (0x1e34 maps 0x1e35)
    ∷ (0x1e36 maps 0x1e37)
    ∷ (0x1e38 maps 0x1e39)
    ∷ (0x1e3a maps 0x1e3b)
    ∷ (0x1e3c maps 0x1e3d)
    ∷ (0x1e3e maps 0x1e3f)
    ∷ (0x1e40 maps 0x1e41)
    ∷ (0x1e42 maps 0x1e43)
    ∷ (0x1e44 maps 0x1e45)
    ∷ (0x1e46 maps 0x1e47)
    ∷ (0x1e48 maps 0x1e49)
    ∷ (0x1e4a maps 0x1e4b)
    ∷ (0x1e4c maps 0x1e4d)
    ∷ (0x1e4e maps 0x1e4f)
    ∷ (0x1e50 maps 0x1e51)
    ∷ (0x1e52 maps 0x1e53)
    ∷ (0x1e54 maps 0x1e55)
    ∷ (0x1e56 maps 0x1e57)
    ∷ (0x1e58 maps 0x1e59)
    ∷ (0x1e5a maps 0x1e5b)
    ∷ (0x1e5c maps 0x1e5d)
    ∷ (0x1e5e maps 0x1e5f)
    ∷ (0x1e60 maps 0x1e61)
    ∷ (0x1e62 maps 0x1e63)
    ∷ (0x1e64 maps 0x1e65)
    ∷ (0x1e66 maps 0x1e67)
    ∷ (0x1e68 maps 0x1e69)
    ∷ (0x1e6a maps 0x1e6b)
    ∷ (0x1e6c maps 0x1e6d)
    ∷ (0x1e6e maps 0x1e6f)
    ∷ (0x1e70 maps 0x1e71)
    ∷ (0x1e72 maps 0x1e73)
    ∷ (0x1e74 maps 0x1e75)
    ∷ (0x1e76 maps 0x1e77)
    ∷ (0x1e78 maps 0x1e79)
    ∷ (0x1e7a maps 0x1e7b)
    ∷ (0x1e7c maps 0x1e7d)
    ∷ (0x1e7e maps 0x1e7f)
    ∷ (0x1e80 maps 0x1e81)
    ∷ (0x1e82 maps 0x1e83)
    ∷ (0x1e84 maps 0x1e85)
    ∷ (0x1e86 maps 0x1e87)
    ∷ (0x1e88 maps 0x1e89)
    ∷ (0x1e8a maps 0x1e8b)
    ∷ (0x1e8c maps 0x1e8d)
    ∷ (0x1e8e maps 0x1e8f)
    ∷ (0x1e90 maps 0x1e91)
    ∷ (0x1e92 maps 0x1e93)
    ∷ (0x1e94 maps 0x1e95)
    ∷ (0x1ea0 maps 0x1ea1)
    ∷ (0x1ea2 maps 0x1ea3)
    ∷ (0x1ea4 maps 0x1ea5)
    ∷ (0x1ea6 maps 0x1ea7)
    ∷ (0x1ea8 maps 0x1ea9)
    ∷ (0x1eaa maps 0x1eab)
    ∷ (0x1eac maps 0x1ead)
    ∷ (0x1eae maps 0x1eaf)
    ∷ (0x1eb0 maps 0x1eb1)
    ∷ (0x1eb2 maps 0x1eb3)
    ∷ []
