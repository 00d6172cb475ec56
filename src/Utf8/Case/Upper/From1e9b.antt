-- ===== src/Utf8/Case/Upper/From1e9b.antt =====
-- Rows of `upperMappings` in src/blocxx/UTF8Utils.cpp, from code point 0x1e9b.
use libblocxx_deb.Prelude.{List, [], ◌∷◌}
use libblocxx_deb.Utf8.Case.Defs.{CaseMapping, ◌maps◌}

unfoldable pub upper_from_1e9b : List CaseMapping
upper_from_1e9b =
    (0x1e9b maps 0x1e60)
    ∷ (0x1ea1 maps 0x1ea0)
    ∷ (0x1ea3 maps 0x1ea2)
    ∷ (0x1ea5 maps 0x1ea4)
    ∷ (0x1ea7 maps 0x1ea6)
    ∷ (0x1ea9 maps 0x1ea8)
    ∷ (0x1eab maps 0x1eaa)
    ∷ (0x1ead maps 0x1eac)
    ∷ (0x1eaf maps 0x1eae)
    ∷ (0x1eb1 maps 0x1eb0)
    ∷ (0x1eb3 maps 0x1eb2)
    ∷ (0x1eb5 maps 0x1eb4)
    ∷ (0x1eb7 maps 0x1eb6)
    ∷ (0x1eb9 maps 0x1eb8)
    ∷ (0x1ebb maps 0x1eba)
    ∷ (0x1ebd maps 0x1ebc)
    ∷ (0x1ebf maps 0x1ebe)
    ∷ (0x1ec1 maps 0x1ec0)
    ∷ (0x1ec3 maps 0x1ec2)
    ∷ (0x1ec5 maps 0x1ec4)
    ∷ (0x1ec7 maps 0x1ec6)
    ∷ (0x1ec9 maps 0x1ec8)
    ∷ (0x1ecb maps 0x1eca)
    ∷ (0x1ecd maps 0x1ecc)
    ∷ (0x1ecf maps 0x1ece)
    ∷ (0x1ed1 maps 0x1ed0)
    ∷ (0x1ed3 maps 0x1ed2)
    ∷ (0x1ed5 maps 0x1ed4)
    ∷ (0x1ed7 maps 0x1ed6)
    ∷ (0x1ed9 maps 0x1ed8)
    ∷ (0x1edb maps 0x1eda)
    ∷ (0x1edd maps 0x1edc)
    ∷ (0x1edf maps 0x1ede)
    ∷ (0x1ee1 maps 0x1ee0)
    ∷ (0x1ee3 maps 0x1ee2)
    ∷ (0x1ee5 maps 0x1ee4)
    ∷ (0x1ee7 maps 0x1ee6)
    ∷ (0x1ee9 maps 0x1ee8)
    ∷ (0x1eeb maps 0x1eea)
    ∷ (0x1eed maps 0x1eec)
    ∷ (0x1eef maps 0x1eee)
    ∷ (0x1ef1 maps 0x1ef0)
    ∷ (0x1ef3 maps 0x1ef2)
    ∷ (0x1ef5 maps 0x1ef4)
    ∷ (0x1ef7 maps 0x1ef6)
    ∷ (0x1ef9 maps 0x1ef8)
    ∷ (0x1f00 maps 0x1f08)
    ∷ (0x1f01 maps 0x1f09)
    ∷ (0x1f02 maps 0x1f0a)
    ∷ (0x1f03 maps 0x1f0b)
    ∷ (0x1f04 maps 0x1f0c)
    ∷ (0x1f05 maps 0x1f0d)
    ∷ (0x1f06 maps 0x1f0e)
    ∷ (0x1f07 maps 0x1f0f)
    ∷ (0x1f10 maps 0x1f18)
    ∷ (0x1f11 maps 0x1f19)
    ∷ (0x1f12 maps 0x1f1a)
    ∷ (0x1f13 maps 0x1f1b)
    ∷ (0x1f14 maps 0x1f1c)
    ∷ (0x1f15 maps 0x1f1d)
    ∷ (0x1f20 maps 0x1f28)
    ∷ (0x1f21 maps 0x1f29)
    ∷ (0x1f22 maps 0x1f2a)
    ∷ (0x1f23 maps 0x1f2b)
    ∷ (0x1f24 maps 0x1f2c)
    ∷ (0x1f25 maps 0x1f2d)
    ∷ (0x1f26 maps 0x1f2e)
    ∷ (0x1f27 maps 0x1f2f)
    ∷ (0x1f30 maps 0x1f38)
    ∷ (0x1f31 maps 0x1f39)
    ∷ (0x1f32 maps 0x1f3a)
    ∷ (0x1f33 maps 0x1f3b)
    ∷ (0x1f34 maps 0x1f3c)
    ∷ (0x1f35 maps 0x1f3d)
    ∷ (0x1f36 maps 0x1f3e)
    ∷ (0x1f37 maps 0x1f3f)
    ∷ (0x1f40 maps 0x1f48)
    ∷ (0x1f41 maps 0x1f49)
    ∷ (0x1f42 maps 0x1f4a)
    ∷ (0x1f43 maps 0x1f4b)
    ∷ (0x1f44 maps 0x1f4c)
    ∷ (0x1f45 maps 0x1f4d)
    ∷ (0x1f51 maps 0x1f59)
    ∷ (0x1f53 maps 0x1f5b)
    ∷ (0x1f55 maps 0x1f5d)
    ∷ (0x1f57 maps 0x1f5f)
    ∷ (0x1f60 maps 0x1f68)
    ∷ (0x1f61 maps 0x1f69)
    ∷ (0x1f62 maps 0x1f6a)
    ∷ (0x1f63 maps 0x1f6b)
    ∷ (0x1f64 maps 0x1f6c)
    ∷ (0x1f65 maps 0x1f6d)
    ∷ (0x1f66 maps 0x1f6e)
    ∷ (0x1f67 maps 0x1f6f)
    ∷ (0x1f70 maps 0x1fba)
    ∷ (0x1f71 maps 0x1fbb)
    ∷ (0x1f72 maps 0x1fc8)
    ∷ (0x1f73 maps 0x1fc9)
    ∷ (0x1f74 maps 0x1fca)
    ∷ (0x1f75 maps 0x1fcb)
    ∷ (0x1f76 maps 0x1fda)
    ∷ (0x1f77 maps 0x1fdb)
    ∷ (0x1f78 maps 0x1ff8)
    ∷ (0x1f79 maps 0x1ff9)
    ∷ (0x1f7a maps 0x1fea)
    ∷ (0x1f7b maps 0x1feb)
    ∷ (0x1f7c maps 0x1ffa)
    ∷ (0x1f7d maps 0x1ffb)
    ∷ (0x1f80 maps 0x1f88)
    ∷ (0x1f81 maps 0x1f89)
    ∷ (0x1f82 maps 0x1f8a)
    ∷ (0x1f83 maps 0x1f8b)
    ∷ (0x1f84 maps 0x1f8c)
    ∷ (0x1f85 maps 0x1f8d)
    ∷ (0x1f86 maps 0x1f8e)
    ∷ (0x1f87 maps 0x1f8f)
    ∷ (0x1f90 maps 0x1f98)
    ∷ (0x1f91 maps 0x1f99)
    ∷ (0x1f92 maps 0x1f9a)
    ∷ (0x1f93 maps 0x1f9b)
    ∷ (0x1f94 maps 0x1f9c)
    ∷ (0x1f95 maps 0x1f9d)
    ∷ (0x1f96 maps 0x1f9e)
    ∷ (0x1f97 maps 0x1f9f)
    ∷ (0x1fa0 maps 0x1fa8)
    ∷ (0x1fa1 maps 0x1fa9)
    ∷ (0x1fa2 maps 0x1faa)
    ∷ (0x1fa3 maps 0x1fab)
    ∷ []
