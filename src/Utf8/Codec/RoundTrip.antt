-- ===== src/Utf8/Codec/RoundTrip.antt =====
-- Decoding undoes encoding, on the first sixteen planes.
use libblocxx_deb.Prelude.{
  ℕ, ◌+◌, ◌-◌, ◌/◌, ◌%◌, ◌≤◌, ◌<◌, ◌≡◌, ◌≢◌, ap, List, [], ◌++◌, arith, length, dec_lt,
}
use libblocxx_deb.Utf8.Table.{sequence_length, lead_length, sequence_length-lead_length}
use libblocxx_deb.Utf8.Codec.{byte_at, utf8_to_ucs4, ucs4_to_utf8, utf8_char_len}
use libblocxx_deb.Utf8.Codec.Fields.{
  ucs4_to_utf8_one, ucs4_to_utf8_two, ucs4_to_utf8_three, ucs4_to_utf8_four, utf8_to_ucs4_one,
  utf8_to_ucs4_two, utf8_to_ucs4_three, utf8_to_ucs4_four,
}

-- The four ranges of code points, by the length of their encoding.
pub data Width (c : ℕ) : Type 0 where
  one : c < 0x80 → Width c
  two : 0x80 ≤ c → c < 0x800 → Width c
  three : 0x800 ≤ c → c < 0x10000 → Width c
  four : 0x10000 ≤ c → Width c

pub width : (c : ℕ) → Width c
width c = elim (dec_lt c 0x80) [
  | yes h ↦ one h
  | no n ↦ elim (dec_lt c 0x800) [
    | yes h ↦ two (omega arith) h
    | no m ↦ elim (dec_lt c 0x10000) [ yes h ↦ three (omega arith) h | no k ↦ four (omega arith) ]
  ]
]

-- What a four byte sequence decodes to: the mask 0x03 drops the bit that tells plane 16.
four_bytes :
    (c : ℕ) (rest : List ℕ)
    → 0x10000 ≤ c
    → c < 0x110000
    → utf8_to_ucs4 (ucs4_to_utf8 c ++ rest) ≡ c % 0x100000
four_bytes c rest lo hi = rw (ucs4_to_utf8_four c lo (omega arith)) (
    omega (
      arith,
      utf8_to_ucs4_four (0xf0 + c / 262144) (0x80 + c / 4096 % 64) (0x80 + c / 64 % 64)
          (0x80 + c % 64) rest (omega arith) (omega arith) (omega arith) (omega arith)
          (omega arith),
    ))

pub utf8_to_ucs4-ucs4_to_utf8 :
    (c : ℕ) (rest : List ℕ) → c < 0x100000 → utf8_to_ucs4 (ucs4_to_utf8 c ++ rest) ≡ c
utf8_to_ucs4-ucs4_to_utf8 c rest h = by_width (width c)
  where
    by_width : Width c → utf8_to_ucs4 (ucs4_to_utf8 c ++ rest) ≡ c
    by_width (one hi) = rw (ucs4_to_utf8_one c hi) (utf8_to_ucs4_one c rest hi)
    by_width (two lo hi) = rw (ucs4_to_utf8_two c lo hi) (
        omega (
          arith,
          utf8_to_ucs4_two (0xc0 + c / 64) (0x80 + c % 64) rest (omega arith) (omega arith)
              (omega arith),
        ))
    by_width (three lo hi) = rw (ucs4_to_utf8_three c lo hi) (
        omega (
          arith,
          utf8_to_ucs4_three (0xe0 + c / 4096) (0x80 + c / 64 % 64) (0x80 + c % 64) rest
              (omega arith) (omega arith) (omega arith) (omega arith),
        ))
    by_width (four lo) = omega (arith, four_bytes c rest lo (omega arith))

-- The encoding of a code point of plane 16 decodes to the code point 0x100000 below it.
pub utf8_to_ucs4_plane_16 :
    (c : ℕ) (rest : List ℕ)
    → 0x100000 ≤ c
    → c < 0x110000
    → utf8_to_ucs4 (ucs4_to_utf8 c ++ rest) ≡ c - 0x100000
utf8_to_ucs4_plane_16 c rest lo hi = omega (arith, four_bytes c rest (omega arith) hi)

pub length-ucs4_to_utf8 : (c : ℕ) → length (ucs4_to_utf8 c) ≡ utf8_char_len c
unfolding ucs4_to_utf8 utf8_char_len
length-ucs4_to_utf8 c = ground arith

-- The table, at the lead byte of the encoding of a Unicode code point, gives the number of bytes
-- that the encoding has, which is what `UTF8CharLen` computes.
pub sequence_length-ucs4_to_utf8 :
    (c : ℕ) (rest : List ℕ)
    → c < 0x110000
    → (sequence_length (byte_at (ucs4_to_utf8 c ++ rest) 0) ≡ length (ucs4_to_utf8 c))
      × (length (ucs4_to_utf8 c) ≡ utf8_char_len c)
unfolding lead_length
sequence_length-ucs4_to_utf8 c rest h = (by_width (width c), length-ucs4_to_utf8 c)
  where
    by_width :
        Width c → sequence_length (byte_at (ucs4_to_utf8 c ++ rest) 0) ≡ length (ucs4_to_utf8 c)
    by_width (one hi) = rw (ucs4_to_utf8_one c hi) (ground (arith, sequence_length-lead_length c))
    by_width (two lo hi) =
        rw (ucs4_to_utf8_two c lo hi) (ground (arith, sequence_length-lead_length (0xc0 + c / 64)))
    by_width (three lo hi) =
        rw (ucs4_to_utf8_three c lo hi)
          (ground (arith, sequence_length-lead_length (0xe0 + c / 4096)))
    by_width (four lo) =
        rw (ucs4_to_utf8_four c lo (omega arith))
          (ground (arith, sequence_length-lead_length (0xf0 + c / 262144)))

pub ucs4_to_utf8_pos : (c : ℕ) → 0 < length (ucs4_to_utf8 c)
unfolding ucs4_to_utf8
ucs4_to_utf8_pos c = ground arith

pub ucs4_to_utf8-ne-nil : (c : ℕ) → ucs4_to_utf8 c ≢ []
ucs4_to_utf8-ne-nil c e = omega (arith, ucs4_to_utf8_pos c, ap length e)
