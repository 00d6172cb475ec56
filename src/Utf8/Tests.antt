-- ===== src/Utf8/Tests.antt =====
-- The conversions at concrete texts.
use libblocxx_deb.Prelude.{ℕ, ◌≡◌, refl, List, [], ◌∷◌, ◌++◌, some, true, map, arith}
use libblocxx_deb.Utf8.Table.{sequence_length}
use libblocxx_deb.Utf8.Codec.{utf8_to_ucs4, ucs4_to_utf8, utf8_char_len}
use libblocxx_deb.Utf8.Text.{encode}
use libblocxx_deb.Utf8.Ucs2.{converted, string_to_ucs2_common, ucs2_to_string}
use libblocxx_deb.Utf8.Ucs2.Laws.{string_to_ucs2_common-ucs2_to_string}
use libblocxx_deb.Utf8.Case.Defs.{transformer, lower_bound}
use libblocxx_deb.Utf8.Case.Lower.{lower_mappings}
use libblocxx_deb.Utf8.Case.Upper.{upper_mappings}
use libblocxx_deb.Utf8.Case.Lookup.{transformer-transformer, lower_mappings-IsCaseTable}
use libblocxx_deb.Utf8.Case.Transform.{
  done, to_upper_case, to_lower_case, transform, transform_loop, transform_in_place,
  to_upper_case_in_place, to_lower_case_in_place,
}
use libblocxx_deb.Utf8.Case.Transform.Copy.{to_case-encode}
use libblocxx_deb.Utf8.Case.Transform.Texts.{transform_in_place-encode}
use libblocxx_deb.Utf8.Case.Transform.Safety.{EndsWithin, to_case_in_place-EndsWithin}

-- What the tests compute with.
tables : Unit {0}
unfolding sequence_length ucs4_to_utf8 utf8_to_ucs4 utf8_char_len transformer lower_bound
    lower_mappings upper_mappings
tables = tt

-- "aé€" and the first code point past the BMP.
abbrev mixed : List ℕ
mixed = 0x61 ∷ 0xe9 ∷ 0x20ac ∷ 0x10000 ∷ []

mixed_bytes :
    encode mixed ≡ 0x61 ∷ 0xc3 ∷ 0xa9 ∷ 0xe2 ∷ 0x82 ∷ 0xac ∷ 0xf0 ∷ 0x90 ∷ 0x80 ∷ 0x80 ∷ []
unfolding tables
mixed_bytes = refl

upper_runs : to_upper_case (encode mixed) ≡ some (encode (0x41 ∷ 0xc9 ∷ 0x20ac ∷ 0x10000 ∷ []))
unfolding tables to_upper_case transform transform_loop
upper_runs = refl

string_to_ucs2_common-ucs2_to_string_example :
    string_to_ucs2_common (ucs2_to_string (0x61 ∷ 0x20ac ∷ [])) true
    ≡ converted (0x61 ∷ 0x20ac ∷ [])
string_to_ucs2_common-ucs2_to_string_example =
    string_to_ucs2_common-ucs2_to_string (0x61 ∷ 0x20ac ∷ []) true (omega arith)

transformer-transformer_example :
    transformer lower_mappings (transformer lower_mappings 0x130) ≡ transformer lower_mappings 0x130
transformer-transformer_example =
    transformer-transformer lower_mappings 0x130 lower_mappings-IsCaseTable

to_case-encode_example :
    (to_upper_case (encode mixed) ≡ some (encode (map (transformer upper_mappings) mixed)))
    × (to_lower_case (encode mixed) ≡ some (encode (map (transformer lower_mappings) mixed)))
to_case-encode_example = to_case-encode mixed (omega arith)

transform_in_place-encode_example :
    transform_in_place (transformer upper_mappings) (encode mixed ++ 0 ∷ [])
    ≡ done true (encode (map (transformer upper_mappings) mixed) ++ 0 ∷ [])
unfolding tables
transform_in_place-encode_example =
    transform_in_place-encode (transformer upper_mappings) mixed (omega arith)

-- A shrinking character, a byte that leads nothing, and a sequence cut short.
abbrev wild : List ℕ
wild = 0xc4 ∷ 0xb0 ∷ 0xff ∷ 0xe2 ∷ []

to_case_in_place-EndsWithin_example :
    EndsWithin 5 (to_upper_case_in_place (wild ++ 0 ∷ []))
    × EndsWithin 5 (to_lower_case_in_place (wild ++ 0 ∷ []))
to_case_in_place-EndsWithin_example = to_case_in_place-EndsWithin wild (omega arith)
