-- ===== src/Utf8/Case/Lower/From1eb4.antt =====
-- Rows of `lowerMappings` in src/blocxx/UTF8Utils.cpp, from code point 0x1eb4.
use libblocxx_deb.Prelude.{List, [], ◌∷◌}
use libblocxx_deb.Utf8.Case.Defs.{CaseMapping, ◌maps◌}

unfoldable pub lower_from_1eb4 : List CaseMapping
lower_from_1eb4 =
    (0x1eb4 maps 0x1eb5)
    ∷ (0x1eb6 maps 0x1eb7)
    ∷ (0x1eb8 maps 0x1eb9)
    ∷ (0x1eba maps 0x1ebb)
    ∷ (0x1ebc maps 0x1ebd)
    ∷ (0x1ebe maps 0x1ebf)
    ∷ (0x1ec0 maps 0x1ec1)
    ∷ (0x1ec2 maps 0x1ec3)
    ∷ (0x1ec4 maps 0x1ec5)
    ∷ (0x1ec6 maps 0x1ec7)
    ∷ (0x1ec8 maps 0x1ec9)
    ∷ (0x1eca maps 0x1ecb)
    ∷ (0x1ecc maps 0x1ecd)
    ∷ (0x1ece maps 0x1ecf)
    ∷ (0x1ed0 maps 0x1ed1)
    ∷ (0x1ed2 maps 0x1ed3)
    ∷ (0x1ed4 maps 0x1ed5)
    ∷ (0x1ed6 maps 0x1ed7)
    ∷ (0x1ed8 maps 0x1ed9)
    ∷ (0x1eda maps 0x1edb)
    ∷ (0x1edc maps 0x1edd)
    ∷ (0x1ede maps 0x1edf)
    ∷ (0x1ee0 maps 0x1ee1)
    ∷ (0x1ee2 maps 0x1ee3)
    ∷ (0x1ee4 maps 0x1ee5)
    ∷ (0x1ee6 maps 0x1ee7)
    ∷ (0x1ee8 maps 0x1ee9)
    ∷ (0x1eea maps 0x1eeb)
    ∷ (0x1eec maps 0x1eed)
    ∷ (0x1eee maps 0x1eef)
    ∷ (0x1ef0 maps 0x1ef1)
    ∷ (0x1ef2 maps 0x1ef3)
    ∷ (0x1ef4 maps 0x1ef5)
    ∷ (0x1ef6 maps 0x1ef7)
    ∷ (0x1ef8 maps 0x1ef9)
    ∷ (0x1f08 maps 0x1f00)
    ∷ (0x1f09 maps 0x1f01)
    ∷ (0x1f0a maps 0x1f02)
    ∷ (0x1f0b maps 0x1f03)
    ∷ (0x1f0c maps 0x1f04)
    ∷ (0x1f0d maps 0x1f05)
    ∷ (0x1f0e maps 0x1f06)
    ∷ (0x1f0f maps 0x1f07)
    ∷ (0x1f18 maps 0x1f10)
    ∷ (0x1f19 maps 0x1f11)
    ∷ (0x1f1a maps 0x1f12)
    ∷ (0x1f1b maps 0x1f13)
    ∷ (0x1f1c maps 0x1f14)
    ∷ (0x1f1d maps 0x1f15)
    ∷ (0x1f28 maps 0x1f20)
    ∷ (0x1f29 maps 0x1f21)
    ∷ (0x1f2a maps 0x1f22)
    ∷ (0x1f2b maps 0x1f23)
    ∷ (0x1f2c maps 0x1f24)
    ∷ (0x1f2d maps 0x1f25)
    ∷ (0x1f2e maps 0x1f26)
    ∷ (0x1f2f maps 0x1f27)
    ∷ (0x1f38 maps 0x1f30)
    ∷ (0x1f39 maps 0x1f31)
    ∷ (0x1f3a maps 0x1f32)
    ∷ (0x1f3b maps 0x1f33)
    ∷ (0x1f3c maps 0x1f34)
    ∷ (0x1f3d maps 0x1f35)
    ∷ (0x1f3e maps 0x1f36)
    ∷ (0x1f3f maps 0x1f37)
    ∷ (0x1f48 maps 0x1f40)
    ∷ (0x1f49 maps 0x1f41)
    ∷ (0x1f4a maps 0x1f42)
    ∷ (0x1f4b maps 0x1f43)
    ∷ (0x1f4c maps 0x1f44)
    ∷ (0x1f4d maps 0x1f45)
    ∷ (0x1f59 maps 0x1f51)
    ∷ (0x1f5b maps 0x1f53)
    ∷ (0x1f5d maps 0x1f55)
    ∷ (0x1f5f maps 0x1f57)
    ∷ (0x1f68 maps 0x1f60)
    ∷ (0x1f69 maps 0x1f61)
    ∷ (0x1f6a maps 0x1f62)
    ∷ (0x1f6b maps 0x1f63)
    ∷ (0x1f6c maps 0x1f64)
    ∷ (0x1f6d maps 0x1f65)
    ∷ (0x1f6e maps 0x1f66)
    ∷ (0x1f6f maps 0x1f67)
    ∷ (0x1f88 maps 0x1f80)
    ∷ (0x1f89 maps 0x1f81)
    ∷ (0x1f8a maps 0x1f82)
    ∷ (0x1f8b maps 0x1f83)
    ∷ (0x1f8c maps 0x1f84)
    ∷ (0x1f8d maps 0x1f85)
    ∷ (0x1f8e maps 0x1f86)
    ∷ (0x1f8f maps 0x1f87)
    ∷ (0x1f98 maps 0x1f90)
    ∷ (0x1f99 maps 0x1f91)
    ∷ (0x1f9a maps 0x1f92)
    ∷ (0x1f9b maps 0x1f93)
    ∷ (0x1f9c maps 0x1f94)
    ∷ (0x1f9d maps 0x1f95)
    ∷ (0x1f9e maps 0x1f96)
    ∷ (0x1f9f maps 0x1f97)
    ∷ (0x1fa8 maps 0x1fa0)
    ∷ (0x1fa9 maps 0x1fa1)
    ∷ (0x1faa maps 0x1fa2)
    ∷ (0x1fab maps 0x1fa3)
    ∷ (0x1fac maps 0x1fa4)
    ∷ (0x1fad maps 0x1fa5)
    ∷ (0x1fae maps 0x1fa6)
    ∷ (0x1faf maps 0x1fa7)
    ∷ (0x1fb8 maps 0x1fb0)
    ∷ (0x1fb9 maps 0x1fb1)
    ∷ (0x1fba maps 0x1f70)
    ∷ (0x1fbb maps 0x1f71)
    ∷ (0x1fbc maps 0x1fb3)
    ∷ (0x1fc8 maps 0x1f72)
    ∷ (0x1fc9 maps 0x1f73)
    ∷ (0x1fca maps 0x1f74)
    ∷ (0x1fcb maps 0x1f75)
    ∷ (0x1fcc maps 0x1fc3)
    ∷ (0x1fd8 maps 0x1fd0)
    ∷ (0x1fd9 maps 0x1fd1)
    ∷ (0x1fda maps 0x1f76)
    ∷ (0x1fdb maps 0x1f77)
    ∷ (0x1fe8 maps 0x1fe0)
    ∷ (0x1fe9 maps 0x1fe1)
    ∷ (0x1fea maps 0x1f7a)
    ∷ (0x1feb maps 0x1f7b)
    ∷ (0x1fec maps 0x1fe5)
    ∷ (0x1ff8 maps 0x1f78)
    ∷ (0x1ff9 maps 0x1f79)
    ∷ []
