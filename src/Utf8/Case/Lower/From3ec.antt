-- ===== src/Utf8/Case/Lower/From3ec.antt =====
-- Rows of `lowerMappings` in src/blocxx/UTF8Utils.cpp, from code point 0x3ec.
use libblocxx_deb.Prelude.{List, [], ◌∷◌}
use libblocxx_deb.Utf8.Case.Defs.{CaseMapping, ◌maps◌}

unfoldable pub lower_from_3ec : List CaseMapping
lower_from_3ec =
    (0x3ec maps 0x3ed)
    ∷ (0x3ee maps 0x3ef)
    ∷ (0x3f4 maps 0x3b8)
    ∷ (0x3f7 maps 0x3f8)
    ∷ (0x3f9 maps 0x3f2)
    ∷ (0x3fa maps 0x3fb)
    ∷ (0x400 maps 0x450)
    ∷ (0x401 maps 0x451)
    ∷ (0x402 maps 0x452)
    ∷ (0x403 maps 0x453)
    ∷ (0x404 maps 0x454)
    ∷ (0x405 maps 0x455)
    ∷ (0x406 maps 0x456)
    ∷ (0x407 maps 0x457)
    ∷ (0x408 maps 0x458)
    ∷ (0x409 maps 0x459)
    ∷ (0x40a maps 0x45a)
    ∷ (0x40b maps 0x45b)
    ∷ (0x40c maps 0x45c)
    ∷ (0x40d maps 0x45d)
    ∷ (0x40e maps 0x45e)
    ∷ (0x40f maps 0x45f)
    ∷ (0x410 maps 0x430)
    ∷ (0x411 maps 0x431)
    ∷ (0x412 maps 0x432)
    ∷ (0x413 maps 0x433)
    ∷ (0x414 maps 0x434)
    ∷ (0x415 maps 0x435)
    ∷ (0x416 maps 0x436)
    ∷ (0x417 maps 0x437)
    ∷ (0x418 maps 0x438)
    ∷ (0x419 maps 0x439)
    ∷ (0x41a maps 0x43a)
    ∷ (0x41b maps 0x43b)
    ∷ (0x41c maps 0x43c)
    ∷ (0x41d maps 0x43d)
    ∷ (0x41e maps 0x43e)
    ∷ (0x41f maps 0x43f)
    ∷ (0x420 maps 0x440)
    ∷ (0x421 maps 0x441)
    ∷ (0x422 maps 0x442)
    ∷ (0x423 maps 0x443)
    ∷ (0x424 maps 0x444)
    ∷ (0x425 maps 0x445)
    ∷ (0x426 maps 0x446)
    ∷ (0x427 maps 0x447)
    ∷ (0x428 maps 0x448)
    ∷ (0x429 maps 0x449)
    ∷ (0x42a maps 0x44a)
    ∷ (0x42b maps 0x44b)
    ∷ (0x42c maps 0x44c)
    ∷ (0x42d maps 0x44d)
    ∷ (0x42e maps 0x44e)
    ∷ (0x42f maps 0x44f)
    ∷ (0x460 maps 0x461)
    ∷ (0x462 maps 0x463)
    ∷ (0x464 maps 0x465)
    ∷ (0x466 maps 0x467)
    ∷ (0x468 maps 0x469)
    ∷ (0x46a maps 0x46b)
    ∷ (0x46c maps 0x46d)
    ∷ (0x46e maps 0x46f)
    ∷ (0x470 maps 0x471)
    ∷ (0x472 maps 0x473)
    ∷ (0x474 maps 0x475)
    ∷ (0x476 maps 0x477)
    ∷ (0x478 maps 0x479)
    ∷ (0x47a maps 0x47b)
    ∷ (0x47c maps 0x47d)
    ∷ (0x47e maps 0x47f)
    ∷ (0x480 maps 0x481)
    ∷ (0x48a maps 0x48b)
    ∷ (0x48c maps 0x48d)
    ∷ (0x48e maps 0x48f)
    ∷ (0x490 maps 0x491)
    ∷ (0x492 maps 0x493)
    ∷ (0x494 maps 0x495)
    ∷ (0x496 maps 0x497)
    ∷ (0x498 maps 0x499)
    ∷ (0x49a maps 0x49b)
    ∷ (0x49c maps 0x49d)
    ∷ (0x49e maps 0x49f)
    ∷ (0x4a0 maps 0x4a1)
    ∷ (0x4a2 maps 0x4a3)
    ∷ (0x4a4 maps 0x4a5)
    ∷ (0x4a6 maps 0x4a7)
    ∷ (0x4a8 maps 0x4a9)
    ∷ (0x4aa maps 0x4ab)
    ∷ (0x4ac maps 0x4ad)
    ∷ (0x4ae maps 0x4af)
    ∷ (0x4b0 maps 0x4b1)
    ∷ (0x4b2 maps 0x4b3)
    ∷ (0x4b4 maps 0x4b5)
    ∷ (0x4b6 maps 0x4b7)
    ∷ (0x4b8 maps 0x4b9)
    ∷ (0x4ba maps 0x4bb)
    ∷ (0x4bc maps 0x4bd)
    ∷ (0x4be maps 0x4bf)
    ∷ (0x4c1 maps 0x4c2)
    ∷ (0x4c3 maps 0x4c4)
    ∷ (0x4c5 maps 0x4c6)
    ∷ (0x4c7 maps 0x4c8)
    ∷ (0x4c9 maps 0x4ca)
    ∷ (0x4cb maps 0x4cc)
    ∷ (0x4cd maps 0x4ce)
    ∷ (0x4d0 maps 0x4d1)
    ∷ (0x4d2 maps 0x4d3)
    ∷ (0x4d4 maps 0x4d5)
    ∷ (0x4d6 maps 0x4d7)
    ∷ (0x4d8 maps 0x4d9)
    ∷ (0x4da maps 0x4db)
    ∷ (0x4dc maps 0x4dd)
    ∷ (0x4de maps 0x4df)
    ∷ (0x4e0 maps 0x4e1)
    ∷ (0x4e2 maps 0x4e3)
    ∷ (0x4e4 maps 0x4e5)
    ∷ (0x4e6 maps 0x4e7)
    ∷ (0x4e8 maps 0x4e9)
    ∷ (0x4ea maps 0x4eb)
    ∷ (0x4ec maps 0x4ed)
    ∷ (0x4ee maps 0x4ef)
    ∷ (0x4f0 maps 0x4f1)
    ∷ (0x4f2 maps 0x4f3)
    ∷ (0x4f4 maps 0x4f5)
    ∷ (0x4f8 maps 0x4f9)
    ∷ (0x500 maps 0x501)
    ∷ (0x502 maps 0x503)
    ∷ (0x504 maps 0x505)
    ∷ []
