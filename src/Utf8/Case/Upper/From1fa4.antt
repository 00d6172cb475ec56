-- ===== src/Utf8/Case/Upper/From1fa4.antt =====
-- Rows of `upperMappings` in src/blocxx/UTF8Utils.cpp, from code point 0x1fa4.
use libblocxx_deb.Prelude.{List, [], ◌∷◌}
use libblocxx_deb.Utf8.Case.Defs.{CaseMapping, ◌maps◌}

unfoldable pub upper_from_1fa4 : List CaseMapping
upper_from_1fa4 =
    (0x1fa4 maps 0x1fac)
    ∷ (0x1fa5 maps 0x1fad)
    ∷ (0x1fa6 maps 0x1fae)
    ∷ (0x1fa7 maps 0x1faf)
    ∷ (0x1fb0 maps 0x1fb8)
    ∷ (0x1fb1 maps 0x1fb9)
    ∷ (0x1fb3 maps 0x1fbc)
    ∷ (0x1fbe maps 0x399)
    ∷ (0x1fc3 maps 0x1fcc)
    ∷ (0x1fd0 maps 0x1fd8)
    ∷ (0x1fd1 maps 0x1fd9)
    ∷ (0x1fe0 maps 0x1fe8)
    ∷ (0x1fe1 maps 0x1fe9)
    ∷ (0x1fe5 maps 0x1fec)
    ∷ (0x1ff3 maps 0x1ffc)
    ∷ (0x2170 maps 0x2160)
    ∷ (0x2171 maps 0x2161)
    ∷ (0x2172 maps 0x2162)
    ∷ (0x2173 maps 0x2163)
    ∷ (0x2174 maps 0x2164)
    ∷ (0x2175 maps 0x2165)
    ∷ (0x2176 maps 0x2166)
    ∷ (0x2177 maps 0x2167)
    ∷ (0x2178 maps 0x2168)
    ∷ (0x2179 maps 0x2169)
    ∷ (0x217a maps 0x216a)
    ∷ (0x217b maps 0x216b)
    ∷ (0x217c maps 0x216c)
    ∷ (0x217d maps 0x216d)
    ∷ (0x217e maps 0x216e)
    ∷ (0x217f maps 0x216f)
    ∷ (0x24d0 maps 0x24b6)
    ∷ (0x24d1 maps 0x24b7)
    ∷ (0x24d2 maps 0x24b8)
    ∷ (0x24d3 maps 0x24b9)
    ∷ (0x24d4 maps 0x24ba)
    ∷ (0x24d5 maps 0x24bb)
    ∷ (0x24d6 maps 0x24bc)
    ∷ (0x24d7 maps 0x24bd)
    ∷ (0x24d8 maps 0x24be)
    ∷ (0x24d9 maps 0x24bf)
    ∷ (0x24da maps 0x24c0)
    ∷ (0x24db maps 0x24c1)
    ∷ (0x24dc maps 0x24c2)
    ∷ (0x24dd maps 0x24c3)
    ∷ (0x24de maps 0x24c4)
    ∷ (0x24df maps 0x24c5)
    ∷ (0x24e0 maps 0x24c6)
    ∷ (0x24e1 maps 0x24c7)
    ∷ (0x24e2 maps 0x24c8)
    ∷ (0x24e3 maps 0x24c9)
    ∷ (0x24e4 maps 0x24ca)
    ∷ (0x24e5 maps 0x24cb)
    ∷ (0x24e6 maps 0x24cc)
    ∷ (0x24e7 maps 0x24cd)
    ∷ (0x24e8 maps 0x24ce)
    ∷ (0x24e9 maps 0x24cf)
    ∷ (0xff41 maps 0xff21)
    ∷ (0xff42 maps 0xff22)
    ∷ (0xff43 maps 0xff23)
    ∷ (0xff44 maps 0xff24)
    ∷ (0xff45 maps 0xff25)
    ∷ (0xff46 maps 0xff26)
    ∷ (0xff47 maps 0xff27)
    ∷ (0xff48 maps 0xff28)
    ∷ (0xff49 maps 0xff29)
    ∷ (0xff4a maps 0xff2a)
    ∷ (0xff4b maps 0xff2b)
    ∷ (0xff4c maps 0xff2c)
    ∷ (0xff4d maps 0xff2d)
    ∷ (0xff4e maps 0xff2e)
    ∷ (0xff4f maps 0xff2f)
    ∷ (0xff50 maps 0xff30)
    ∷ (0xff51 maps 0xff31)
    ∷ (0xff52 maps 0xff32)
    ∷ (0xff53 maps 0xff33)
    ∷ (0xff54 maps 0xff34)
    ∷ (0xff55 maps 0xff35)
    ∷ (0xff56 maps 0xff36)
    ∷ (0xff57 maps 0xff37)
    ∷ (0xff58 maps 0xff38)
    ∷ (0xff59 maps 0xff39)
    ∷ (0xff5a maps 0xff3a)
    ∷ (0x10428 maps 0x10400)
    ∷ (0x10429 maps 0x10401)
    ∷ (0x1042a maps 0x10402)
    ∷ (0x1042b maps 0x10403)
    ∷ (0x1042c maps 0x10404)
    ∷ (0x1042d maps 0x10405)
    ∷ (0x1042e maps 0x10406)
    ∷ (0x1042f maps 0x10407)
    ∷ (0x10430 maps 0x10408)
    ∷ (0x10431 maps 0x10409)
    ∷ (0x10432 maps 0x1040a)
    ∷ (0x10433 maps 0x1040b)
    ∷ (0x10434 maps 0x1040c)
    ∷ (0x10435 maps 0x1040d)
    ∷ (0x10436 maps 0x1040e)
    ∷ (0x10437 maps 0x1040f)
    ∷ (0x10438 maps 0x10410)
    ∷ (0x10439 maps 0x10411)
    ∷ (0x1043a maps 0x10412)
    ∷ (0x1043b maps 0x10413)
    ∷ (0x1043c maps 0x10414)
    ∷ (0x1043d maps 0x10415)
    ∷ (0x1043e maps 0x10416)
    ∷ (0x1043f maps 0x10417)
    ∷ (0x10440 maps 0x10418)
    ∷ (0x10441 maps 0x10419)
    ∷ (0x10442 maps 0x1041a)
    ∷ (0x10443 maps 0x1041b)
    ∷ (0x10444 maps 0x1041c)
    ∷ (0x10445 maps 0x1041d)
    ∷ (0x10446 maps 0x1041e)
    ∷ (0x10447 maps 0x1041f)
    ∷ (0x10448 maps 0x10420)
    ∷ (0x10449 maps 0x10421)
    ∷ (0x1044a maps 0x10422)
    ∷ (0x1044b maps 0x10423)
    ∷ (0x1044c maps 0x10424)
    ∷ (0x1044d maps 0x10425)
    ∷ (0x1044e maps 0x10426)
    ∷ (0x1044f maps 0x10427)
    ∷ []
