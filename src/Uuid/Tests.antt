-- ===== src/Uuid/Tests.antt =====
-- The text of an identifier, and identifiers of one time.
use libblocxx_deb.Prelude.{◌≡◌, ◌≢◌, refl, none, some, [], ◌∷◌, arith}
use libblocxx_deb.Uuid.Text.{
  Bytes, to_string, from_string, from_hex_str, decode_hex, from_string-to_string,
}
use libblocxx_deb.Uuid.Generator.{
  Generator, started, generate, generate_all, get_current_time, get_node_identifier,
  generate-Repeats,
}

-- 6ba7b810-9dad-11d1-80b4-00c04fd430c8
abbrev u : Bytes
u =
    0x6b ∷ 0xa7 ∷ 0xb8 ∷ 0x10 ∷ 0x9d ∷ 0xad ∷ 0x11 ∷ 0xd1 ∷ 0x80 ∷ 0xb4 ∷ 0x00 ∷ 0xc0 ∷ 0x4f ∷ 0xd4
    ∷ 0x30 ∷ 0xc8 ∷ []

first_letters : from_hex_str 54 98 ≡ some 0x6b
unfolding from_hex_str decode_hex
first_letters = refl

-- A text without dashes is refused.
no_dashes : from_string (54 ∷ 98 ∷ []) ≡ none
unfolding from_string
no_dashes = refl

from_string-to_string_example : from_string (to_string u) ≡ some u
from_string-to_string_example =
    from_string-to_string 0x6b 0xa7 0xb8 0x10 0x9d 0xad 0x11 0xd1 0x80 0xb4 0x00 0xc0 0x4f 0xd4 0x30
      0xc8
      (
        omega arith,
        (
          omega arith,
          (
            omega arith,
            (
              omega arith,
              (
                omega arith,
                (
                  omega arith,
                  (
                    omega arith,
                    (
                      omega arith,
                      (
                        omega arith,
                        (
                          omega arith,
                          (
                            omega arith,
                            (
                              omega arith,
                              (omega arith, (omega arith, (omega arith, (omega arith, tt)))),
                            ),
                          ),
                        ),
                      ),
                    ),
                  ),
                ),
              ),
            ),
          ),
        ),
      )

abbrev node : Bytes
node = 1 ∷ 2 ∷ 3 ∷ 4 ∷ 5 ∷ 6 ∷ []

last_read : (generate_all node (7 ∷ []) started).time_last ≢ 100
unfolding generate_all generate get_current_time get_node_identifier
last_read = omega arith

-- The clock reads 7, 100, 50 and 100.
generate-Repeats_example :
    let g : Generator = generate_all node (7 ∷ []) started in
    let first : Bytes × Generator = generate node 100 100 g in
    let second : Bytes × Generator = generate node 50 50 first.1 in
    (first.0 ≡ (generate node 100 100 second.1).0)
    × ((generate node 100 100 second.1).1.clock_sequence ≡ 0)
generate-Repeats_example = generate-Repeats node 7 [] 100 50 last_read (omega arith)
