-- ===== src/Utf8/Codec/Fields.antt =====
-- The masks, shifts and tables of the one-character conversions, as arithmetic on ranges.
use libblocxx_deb.Prelude.{
  ℕ, ◌+◌, ◌*◌, ◌/◌, ◌%◌, ◌≤◌, ◌<◌, ◌≡◌, List, [], ◌∷◌, arith, bit_and, bit_or,
}
use libblocxx_deb.Prelude.Bits.{◌<<◌, bit_and_ones, bit_or_disjoint}
use libblocxx_deb.Utf8.Table.{lead_length, sequence_length-lead_length}
use libblocxx_deb.Utf8.Codec.{decode_two, decode_three, decode_four, utf8_to_ucs4, u8, ucs4_to_utf8}

-- The masks and fields of the code, as arithmetic.
low_six : (c : ℕ) → bit_and c 0x3f ≡ c % 64
low_six c = bit_and_ones 6 c

or_two : (a b : ℕ) → b < 64 → bit_or (a << 6) b ≡ a * 64 + b
or_two a b h = bit_or_disjoint 6 a b h

or_three :
    (a b c : ℕ) → b < 64 → c < 64 → bit_or (bit_or (a << 12) (b << 6)) c ≡ a * 4096 + b * 64 + c
or_three a b c hb hc =
    ground (arith, bit_or_disjoint 12 a (b << 6), bit_or_disjoint 6 (a * 64 + b) c)

or_four :
    (a b c d : ℕ)
    → b < 64
    → c < 64
    → d < 64
    → bit_or (bit_or (bit_or (a << 18) (b << 12)) (c << 6)) d ≡ a * 262144 + b * 4096 + c * 64 + d
or_four a b c d hb hc hd = ground (
  arith,
  bit_or_disjoint 18 a (b << 12),
  bit_or_disjoint 12 (a * 64 + b) (c << 6),
  bit_or_disjoint 6 ((a * 64 + b) * 64 + c) d,
)

continuation : (c : ℕ) → u8 (bit_or 0x80 (bit_and c 0x3f)) ≡ 0x80 + c % 64
continuation c = ground (arith, low_six c, bit_or_disjoint 6 2 (c % 64))

pub decode_two_lem : (a b : ℕ) → decode_two a b ≡ a % 32 * 64 + b % 64
unfolding decode_two
decode_two_lem a b = ground (arith, bit_and_ones 5 a, low_six b, or_two (a % 32) (b % 64))

pub decode_three_lem : (a b c : ℕ) → decode_three a b c ≡ a % 16 * 4096 + b % 64 * 64 + c % 64
unfolding decode_three
decode_three_lem a b c =
    ground (arith, bit_and_ones 4 a, low_six b, low_six c, or_three (a % 16) (b % 64) (c % 64))

pub decode_four_lem :
    (a b c d : ℕ) → decode_four a b c d ≡ a % 4 * 262144 + b % 64 * 4096 + c % 64 * 64 + d % 64
unfolding decode_four
decode_four_lem a b c d = ground (
  arith,
  bit_and_ones 2 a,
  low_six b,
  low_six c,
  low_six d,
  or_four (a % 4) (b % 64) (c % 64) (d % 64),
)

-- The encodings by range.
pub ucs4_to_utf8_one : (c : ℕ) → c < 0x80 → ucs4_to_utf8 c ≡ c ∷ []
unfolding ucs4_to_utf8
ucs4_to_utf8_one c h = ground arith

pub ucs4_to_utf8_two :
    (c : ℕ) → 0x80 ≤ c → c < 0x800 → ucs4_to_utf8 c ≡ (0xc0 + c / 64) ∷ (0x80 + c % 64) ∷ []
unfolding ucs4_to_utf8
ucs4_to_utf8_two c lo hi = ground (arith, continuation c, bit_or_disjoint 5 6 (c / 64))

pub ucs4_to_utf8_three :
    (c : ℕ)
    → 0x800 ≤ c
    → c < 0x10000
    → ucs4_to_utf8 c ≡ (0xe0 + c / 4096) ∷ (0x80 + c / 64 % 64) ∷ (0x80 + c % 64) ∷ []
unfolding ucs4_to_utf8
ucs4_to_utf8_three c lo hi =
    ground (arith, continuation c, continuation (c / 64), bit_or_disjoint 4 14 (c / 4096))

pub ucs4_to_utf8_four :
    (c : ℕ)
    → 0x10000 ≤ c
    → c < 0x200000
    → ucs4_to_utf8 c
      ≡ (0xf0 + c / 262144) ∷ (0x80 + c / 4096 % 64) ∷ (0x80 + c / 64 % 64) ∷ (0x80 + c % 64) ∷ []
unfolding ucs4_to_utf8
ucs4_to_utf8_four c lo hi = ground (
  arith,
  continuation c,
  continuation (c / 64),
  continuation (c / 4096),
  bit_or_disjoint 3 30 (c / 262144),
)

-- The decodings by lead byte, when no byte of the sequence is a NUL.
pub utf8_to_ucs4_one : (a : ℕ) (rest : List ℕ) → a < 0x80 → utf8_to_ucs4 (a ∷ rest) ≡ a
unfolding utf8_to_ucs4 lead_length
utf8_to_ucs4_one a rest h = ground (arith, sequence_length-lead_length a)

pub utf8_to_ucs4_two :
    (a b : ℕ) (rest : List ℕ)
    → 0xc2 ≤ a
    → a < 0xe0
    → 0 < b
    → utf8_to_ucs4 (a ∷ b ∷ rest) ≡ a % 32 * 64 + b % 64
unfolding utf8_to_ucs4 lead_length
utf8_to_ucs4_two a b rest lo hi hb =
    ground (arith, sequence_length-lead_length a, decode_two_lem a b)

pub utf8_to_ucs4_three :
    (a b c : ℕ) (rest : List ℕ)
    → 0xe0 ≤ a
    → a < 0xf0
    → 0 < b
    → 0 < c
    → utf8_to_ucs4 (a ∷ b ∷ c ∷ rest) ≡ a % 16 * 4096 + b % 64 * 64 + c % 64
unfolding utf8_to_ucs4 lead_length
utf8_to_ucs4_three a b c rest lo hi hb hc =
    ground (arith, sequence_length-lead_length a, decode_three_lem a b c)

pub utf8_to_ucs4_four :
    (a b c d : ℕ) (rest : List ℕ)
    → 0xf0 ≤ a
    → a < 0xf5
    → 0 < b
    → 0 < c
    → 0 < d
    → utf8_to_ucs4 (a ∷ b ∷ c ∷ d ∷ rest) ≡ a % 4 * 262144 + b % 64 * 4096 + c % 64 * 64 + d % 64
unfolding utf8_to_ucs4 lead_length
utf8_to_ucs4_four a b c d rest lo hi hb hc hd =
    ground (arith, sequence_length-lead_length a, decode_four_lem a b c d)
