-- ===== src/Utf8/Case/Lower/From1ffa.antt =====
-- Rows of `lowerMappings` in src/blocxx/UTF8Utils.cpp, from code point 0x1ffa.
use libblocxx_deb.Prelude.{List, [], ◌∷◌}
use libblocxx_deb.Utf8.Case.Defs.{CaseMapping, ◌maps◌}

unfoldable pub lower_from_1ffa : List CaseMapping
lower_from_1ffa =
    (0x1ffa maps 0x1f7c)
    ∷ (0x1ffb maps 0x1f7d)
    ∷ (0x1ffc maps 0x1ff3)
    ∷ (0x2126 maps 0x3c9)
    ∷ (0x212a maps 0x6b)
    ∷ (0x212b maps 0xe5)
    ∷ (0x2160 maps 0x2170)
    ∷ (0x2161 maps 0x2171)
    ∷ (0x2162 maps 0x2172)
    ∷ (0x2163 maps 0x2173)
    ∷ (0x2164 maps 0x2174)
    ∷ (0x2165 maps 0x2175)
    ∷ (0x2166 maps 0x2176)
    ∷ (0x2167 maps 0x2177)
    ∷ (0x2168 maps 0x2178)
    ∷ (0x2169 maps 0x2179)
    ∷ (0x216a maps 0x217a)
    ∷ (0x216b maps 0x217b)
    ∷ (0x216c maps 0x217c)
    ∷ (0x216d maps 0x217d)
    ∷ (0x216e maps 0x217e)
    ∷ (0x216f maps 0x217f)
    ∷ (0x24b6 maps 0x24d0)
    ∷ (0x24b7 maps 0x24d1)
    ∷ (0x24b8 maps 0x24d2)
    ∷ (0x24b9 maps 0x24d3)
    ∷ (0x24ba maps 0x24d4)
    ∷ (0x24bb maps 0x24d5)
    ∷ (0x24bc maps 0x24d6)
    ∷ (0x24bd maps 0x24d7)
    ∷ (0x24be maps 0x24d8)
    ∷ (0x24bf maps 0x24d9)
    ∷ (0x24c0 maps 0x24da)
    ∷ (0x24c1 maps 0x24db)
    ∷ (0x24c2 maps 0x24dc)
    ∷ (0x24c3 maps 0x24dd)
    ∷ (0x24c4 maps 0x24de)
    ∷ (0x24c5 maps 0x24df)
    ∷ (0x24c6 maps 0x24e0)
    ∷ (0x24c7 maps 0x24e1)
    ∷ (0x24c8 maps 0x24e2)
    ∷ (0x24c9 maps 0x24e3)
    ∷ (0x24ca maps 0x24e4)
    ∷ (0x24cb maps 0x24e5)
    ∷ (0x24cc maps 0x24e6)
    ∷ (0x24cd maps 0x24e7)
    ∷ (0x24ce maps 0x24e8)
    ∷ (0x24cf maps 0x24e9)
    ∷ (0xff21 maps 0xff41)
    ∷ (0xff22 maps 0xff42)
    ∷ (0xff23 maps 0xff43)
    ∷ (0xff24 maps 0xff44)
    ∷ (0xff25 maps 0xff45)
    ∷ (0xff26 maps 0xff46)
    ∷ (0xff27 maps 0xff47)
    ∷ (0xff28 maps 0xff48)
    ∷ (0xff29 maps 0xff49)
    ∷ (0xff2a maps 0xff4a)
    ∷ (0xff2b maps 0xff4b)
    ∷ (0xff2c maps 0xff4c)
    ∷ (0xff2d maps 0xff4d)
    ∷ (0xff2e maps 0xff4e)
    ∷ (0xff2f maps 0xff4f)
    ∷ (0xff30 maps 0xff50)
    ∷ (0xff31 maps 0xff51)
    ∷ (0xff32 maps 0xff52)
    ∷ (0xff33 maps 0xff53)
    ∷ (0xff34 maps 0xff54)
    ∷ (0xff35 maps 0xff55)
    ∷ (0xff36 maps 0xff56)
    ∷ (0xff37 maps 0xff57)
    ∷ (0xff38 maps 0xff58)
    ∷ (0xff39 maps 0xff59)
    ∷ (0xff3a maps 0xff5a)
    ∷ (0x10400 maps 0x10428)
    ∷ (0x10401 maps 0x10429)
    ∷ (0x10402 maps 0x1042a)
    ∷ (0x10403 maps 0x1042b)
    ∷ (0x10404 maps 0x1042c)
    ∷ (0x10405 maps 0x1042d)
    ∷ (0x10406 maps 0x1042e)
    ∷ (0x10407 maps 0x1042f)
    ∷ (0x10408 maps 0x10430)
    ∷ (0x10409 maps 0x10431)
    ∷ (0x1040a maps 0x10432)
    ∷ (0x1040b maps 0x10433)
    ∷ (0x1040c maps 0x10434)
    ∷ (0x1040d maps 0x10435)
    ∷ (0x1040e maps 0x10436)
    ∷ (0x1040f maps 0x10437)
    ∷ (0x10410 maps 0x10438)
    ∷ (0x10411 maps 0x10439)
    ∷ (0x10412 maps 0x1043a)
    ∷ (0x10413 maps 0x1043b)
    ∷ (0x10414 maps 0x1043c)
    ∷ (0x10415 maps 0x1043d)
    ∷ (0x10416 maps 0x1043e)
    ∷ (0x10417 maps 0x1043f)
    ∷ (0x10418 maps 0x10440)
    ∷ (0x10419 maps 0x10441)
    ∷ (0x1041a maps 0x10442)
    ∷ (0x1041b maps 0x10443)
    ∷ (0x1041c maps 0x10444)
    ∷ (0x1041d maps 0x10445)
    ∷ (0x1041e maps 0x10446)
    ∷ (0x1041f maps 0x10447)
    ∷ (0x10420 maps 0x10448)
    ∷ (0x10421 maps 0x10449)
    ∷ (0x10422 maps 0x1044a)
    ∷ (0x10423 maps 0x1044b)
    ∷ (0x10424 maps 0x1044c)
    ∷ (0x10425 maps 0x1044d)
    ∷ (0x10426 maps 0x1044e)
    ∷ (0x10427 maps 0x1044f)
    ∷ []
