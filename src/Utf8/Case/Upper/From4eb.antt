-- ===== src/Utf8/Case/Upper/From4eb.antt =====
-- Rows of `upperMappings` in src/blocxx/UTF8Utils.cpp, from code point 0x4eb.
use libblocxx_deb.Prelude.{List, [], ◌∷◌}
use libblocxx_deb.Utf8.Case.Defs.{CaseMapping, ◌maps◌}

unfoldable pub upper_from_4eb : List CaseMapping
upper_from_4eb =
    (0x4eb maps 0x4ea)
    ∷ (0x4ed maps 0x4ec)
    ∷ (0x4ef maps 0x4ee)
    ∷ (0x4f1 maps 0x4f0)
    ∷ (0x4f3 maps 0x4f2)
    ∷ (0x4f5 maps 0x4f4)
    ∷ (0x4f9 maps 0x4f8)
    ∷ (0x501 maps 0x500)
    ∷ (0x503 maps 0x502)
    ∷ (0x505 maps 0x504)
    ∷ (0x507 maps 0x506)
    ∷ (0x509 maps 0x508)
    ∷ (0x50b maps 0x50a)
    ∷ (0x50d maps 0x50c)
    ∷ (0x50f maps 0x50e)
    ∷ (0x561 maps 0x531)
    ∷ (0x562 maps 0x532)
    ∷ (0x563 maps 0x533)
    ∷ (0x564 maps 0x534)
    ∷ (0x565 maps 0x535)
    ∷ (0x566 maps 0x536)
    ∷ (0x567 maps 0x537)
    ∷ (0x568 maps 0x538)
    ∷ (0x569 maps 0x539)
    ∷ (0x56a maps 0x53a)
    ∷ (0x56b maps 0x53b)
    ∷ (0x56c maps 0x53c)
    ∷ (0x56d maps 0x53d)
    ∷ (0x56e maps 0x53e)
    ∷ (0x56f maps 0x53f)
    ∷ (0x570 maps 0x540)
    ∷ (0x571 maps 0x541)
    ∷ (0x572 maps 0x542)
    ∷ (0x573 maps 0x543)
    ∷ (0x574 maps 0x544)
    ∷ (0x575 maps 0x545)
    ∷ (0x576 maps 0x546)
    ∷ (0x577 maps 0x547)
    ∷ (0x578 maps 0x548)
    ∷ (0x579 maps 0x549)
    ∷ (0x57a maps 0x54a)
    ∷ (0x57b maps 0x54b)
    ∷ (0x57c maps 0x54c)
    ∷ (0x57d maps 0x54d)
    ∷ (0x57e maps 0x54e)
    ∷ (0x57f maps 0x54f)
    ∷ (0x580 maps 0x550)
    ∷ (0x581 maps 0x551)
    ∷ (0x582 maps 0x552)
    ∷ (0x583 maps 0x553)
    ∷ (0x584 maps 0x554)
    ∷ (0x585 maps 0x555)
    ∷ (0x586 maps 0x556)
    ∷ (0x1e01 maps 0x1e00)
    ∷ (0x1e03 maps 0x1e02)
    ∷ (0x1e05 maps 0x1e04)
    ∷ (0x1e07 maps 0x1e06)
    ∷ (0x1e09 maps 0x1e08)
    ∷ (0x1e0b maps 0x1e0a)
    ∷ (0x1e0d maps 0x1e0c)
    ∷ (0x1e0f maps 0x1e0e)
    ∷ (0x1e11 maps 0x1e10)
    ∷ (0x1e13 maps 0x1e12)
    ∷ (0x1e15 maps 0x1e14)
    ∷ (0x1e17 maps 0x1e16)
    ∷ (0x1e19 maps 0x1e18)
    ∷ (0x1e1b maps 0x1e1a)
    ∷ (0x1e1d maps 0x1e1c)
    ∷ (0x1e1f maps 0x1e1e)
    ∷ (0x1e21 maps 0x1e20)
    ∷ (0x1e23 maps 0x1e22)
    ∷ (0x1e25 maps 0x1e24)
    ∷ (0x1e27 maps 0x1e26)
    ∷ (0x1e29 maps 0x1e28)
    ∷ (0x1e2b maps 0x1e2a)
    ∷ (0x1e2d maps 0x1e2c)
    ∷ (0x1e2f maps 0x1e2e)
    ∷ (0x1e31 maps 0x1e30)
    ∷ (0x1e33 maps 0x1e32)
    ∷ (0x1e35 maps 0x1e34)
    ∷ (0x1e37 maps 0x1e36)
    ∷ (0x1e39 maps 0x1e38)
    ∷ (0x1e3b maps 0x1e3a)
    ∷ (0x1e3d maps 0x1e3c)
    ∷ (0x1e3f maps 0x1e3e)
    ∷ (0x1e41 maps 0x1e40)
    ∷ (0x1e43 maps 0x1e42)
    ∷ (0x1e45 maps 0x1e44)
    ∷ (0x1e47 maps 0x1e46)
    ∷ (0x1e49 maps 0x1e48)
    ∷ (0x1e4b maps 0x1e4a)
    ∷ (0x1e4d maps 0x1e4c)
    ∷ (0x1e4f maps 0x1e4e)
    ∷ (0x1e51 maps 0x1e50)
    ∷ (0x1e53 maps 0x1e52)
    ∷ (0x1e55 maps 0x1e54)
    ∷ (0x1e57 maps 0x1e56)
    ∷ (0x1e59 maps 0x1e58)
    ∷ (0x1e5b maps 0x1e5a)
    ∷ (0x1e5d maps 0x1e5c)
    ∷ (0x1e5f maps 0x1e5e)
    ∷ (0x1e61 maps 0x1e60)
    ∷ (0x1e63 maps 0x1e62)
    ∷ (0x1e65 maps 0x1e64)
    ∷ (0x1e67 maps 0x1e66)
    ∷ (0x1e69 maps 0x1e68)
    ∷ (0x1e6b maps 0x1e6a)
    ∷ (0x1e6d maps 0x1e6c)
    ∷ (0x1e6f maps 0x1e6e)
    ∷ (0x1e71 maps 0x1e70)
    ∷ (0x1e73 maps 0x1e72)
    ∷ (0x1e75 maps 0x1e74)
    ∷ (0x1e77 maps 0x1e76)
    ∷ (0x1e79 maps 0x1e78)
    ∷ (0x1e7b maps 0x1e7a)
    ∷ (0x1e7d maps 0x1e7c)
    ∷ (0x1e7f maps 0x1e7e)
    ∷ (0x1e81 maps 0x1e80)
    ∷ (0x1e83 maps 0x1e82)
    ∷ (0x1e85 maps 0x1e84)
    ∷ (0x1e87 maps 0x1e86)
    ∷ (0x1e89 maps 0x1e88)
    ∷ (0x1e8b maps 0x1e8a)
    ∷ (0x1e8d maps 0x1e8c)
    ∷ (0x1e8f maps 0x1e8e)
    ∷ (0x1e91 maps 0x1e90)
    ∷ (0x1e93 maps 0x1e92)
    ∷ (0x1e95 maps 0x1e94)
    ∷ []
