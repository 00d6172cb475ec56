-- ===== src/Utf8/Case/Upper/From3dd.antt =====
-- Rows of `upperMappings` in src/blocxx/UTF8Utils.cpp, from code point 0x3dd.
use libblocxx_deb.Prelude.{List, [], ◌∷◌}
use libblocxx_deb.Utf8.Case.Defs.{CaseMapping, ◌maps◌}

unfoldable pub upper_from_3dd : List CaseMapping
upper_from_3dd =
    (0x3dd maps 0x3dc)
    ∷ (0x3df maps 0x3de)
    ∷ (0x3e1 maps 0x3e0)
    ∷ (0x3e3 maps 0x3e2)
    ∷ (0x3e5 maps 0x3e4)
    ∷ (0x3e7 maps 0x3e6)
    ∷ (0x3e9 maps 0x3e8)
    ∷ (0x3eb maps 0x3ea)
    ∷ (0x3ed maps 0x3ec)
    ∷ (0x3ef maps 0x3ee)
    ∷ (0x3f0 maps 0x39a)
    ∷ (0x3f1 maps 0x3a1)
    ∷ (0x3f2 maps 0x3f9)
    ∷ (0x3f5 maps 0x395)
    ∷ (0x3f8 maps 0x3f7)
    ∷ (0x3fb maps 0x3fa)
    ∷ (0x430 maps 0x410)
    ∷ (0x431 maps 0x411)
    ∷ (0x432 maps 0x412)
    ∷ (0x433 maps 0x413)
    ∷ (0x434 maps 0x414)
    ∷ (0x435 maps 0x415)
    ∷ (0x436 maps 0x416)
    ∷ (0x437 maps 0x417)
    ∷ (0x438 maps 0x418)
    ∷ (0x439 maps 0x419)
    ∷ (0x43a maps 0x41a)
    ∷ (0x43b maps 0x41b)
    ∷ (0x43c maps 0x41c)
    ∷ (0x43d maps 0x41d)
    ∷ (0x43e maps 0x41e)
    ∷ (0x43f maps 0x41f)
    ∷ (0x440 maps 0x420)
    ∷ (0x441 maps 0x421)
    ∷ (0x442 maps 0x422)
    ∷ (0x443 maps 0x423)
    ∷ (0x444 maps 0x424)
    ∷ (0x445 maps 0x425)
    ∷ (0x446 maps 0x426)
    ∷ (0x447 maps 0x427)
    ∷ (0x448 maps 0x428)
    ∷ (0x449 maps 0x429)
    ∷ (0x44a maps 0x42a)
    ∷ (0x44b maps 0x42b)
    ∷ (0x44c maps 0x42c)
    ∷ (0x44d maps 0x42d)
    ∷ (0x44e maps 0x42e)
    ∷ (0x44f maps 0x42f)
    ∷ (0x450 maps 0x400)
    ∷ (0x451 maps 0x401)
    ∷ (0x452 maps 0x402)
    ∷ (0x453 maps 0x403)
    ∷ (0x454 maps 0x404)
    ∷ (0x455 maps 0x405)
    ∷ (0x456 maps 0x406)
    ∷ (0x457 maps 0x407)
    ∷ (0x458 maps 0x408)
    ∷ (0x459 maps 0x409)
    ∷ (0x45a maps 0x40a)
    ∷ (0x45b maps 0x40b)
    ∷ (0x45c maps 0x40c)
    ∷ (0x45d maps 0x40d)
    ∷ (0x45e maps 0x40e)
    ∷ (0x45f maps 0x40f)
    ∷ (0x461 maps 0x460)
    ∷ (0x463 maps 0x462)
    ∷ (0x465 maps 0x464)
    ∷ (0x467 maps 0x466)
    ∷ (0x469 maps 0x468)
    ∷ (0x46b maps 0x46a)
    ∷ (0x46d maps 0x46c)
    ∷ (0x46f maps 0x46e)
    ∷ (0x471 maps 0x470)
    ∷ (0x473 maps 0x472)
    ∷ (0x475 maps 0x474)
    ∷ (0x477 maps 0x476)
    ∷ (0x479 maps 0x478)
    ∷ (0x47b maps 0x47a)
    ∷ (0x47d maps 0x47c)
    ∷ (0x47f maps 0x47e)
    ∷ (0x481 maps 0x480)
    ∷ (0x48b maps 0x48a)
    ∷ (0x48d maps 0x48c)
    ∷ (0x48f maps 0x48e)
    ∷ (0x491 maps 0x490)
    ∷ (0x493 maps 0x492)
    ∷ (0x495 maps 0x494)
    ∷ (0x497 maps 0x496)
    ∷ (0x499 maps 0x498)
    ∷ (0x49b maps 0x49a)
    ∷ (0x49d maps 0x49c)
    ∷ (0x49f maps 0x49e)
    ∷ (0x4a1 maps 0x4a0)
    ∷ (0x4a3 maps 0x4a2)
    ∷ (0x4a5 maps 0x4a4)
    ∷ (0x4a7 maps 0x4a6)
    ∷ (0x4a9 maps 0x4a8)
    ∷ (0x4ab maps 0x4aa)
    ∷ (0x4ad maps 0x4ac)
    ∷ (0x4af maps 0x4ae)
    ∷ (0x4b1 maps 0x4b0)
    ∷ (0x4b3 maps 0x4b2)
    ∷ (0x4b5 maps 0x4b4)
    ∷ (0x4b7 maps 0x4b6)
    ∷ (0x4b9 maps 0x4b8)
    ∷ (0x4bb maps 0x4ba)
    ∷ (0x4bd maps 0x4bc)
    ∷ (0x4bf maps 0x4be)
    ∷ (0x4c2 maps 0x4c1)
    ∷ (0x4c4 maps 0x4c3)
    ∷ (0x4c6 maps 0x4c5)
    ∷ (0x4c8 maps 0x4c7)
    ∷ (0x4ca maps 0x4c9)
    ∷ (0x4cc maps 0x4cb)
    ∷ (0x4ce maps 0x4cd)
    ∷ (0x4d1 maps 0x4d0)
    ∷ (0x4d3 maps 0x4d2)
    ∷ (0x4d5 maps 0x4d4)
    ∷ (0x4d7 maps 0x4d6)
    ∷ (0x4d9 maps 0x4d8)
    ∷ (0x4db maps 0x4da)
    ∷ (0x4dd maps 0x4dc)
    ∷ (0x4df maps 0x4de)
    ∷ (0x4e1 maps 0x4e0)
    ∷ (0x4e3 maps 0x4e2)
    ∷ (0x4e5 maps 0x4e4)
    ∷ (0x4e7 maps 0x4e6)
    ∷ (0x4e9 maps 0x4e8)
    ∷ []
