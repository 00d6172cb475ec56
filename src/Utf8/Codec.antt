-- ===== src/Utf8/Codec.antt =====
-- src/blocxx/UTF8Utils.cpp: the conversions of one code point. A C string is the list of its bytes without the terminating NUL; a read at the end
-- gives that NUL. The code never reads past it here, since `||` stops at the first NUL.
pub mod Fields
pub mod RoundTrip
use libblocxx_deb.Prelude.{
  ℕ, ◌%◌, ◌^◌, ◌||◌, List, [], ◌∷◌, ltb, ◌==◌, if◌then◌else◌, get_or, bit_and, bit_or,
}
use libblocxx_deb.Prelude.Bits.{◌<<◌, ◌>>◌}
use libblocxx_deb.Utf8.Table.{sequence_length}

abbrev pub byte_at : List ℕ → ℕ → ℕ
byte_at p i = get_or p i 0

-- What `UTF8toUCS4` answers for a malformed sequence.
abbrev pub bad : ℕ
bad = 0xffffffff

-- The value of a two, three or four byte sequence, from its bytes.
pub decode_two : ℕ → ℕ → ℕ
decode_two c0 c1 = bit_or (bit_and c0 0x1f << 6) (bit_and c1 0x3f)

pub decode_three : ℕ → ℕ → ℕ → ℕ
decode_three c0 c1 c2 =
    bit_or (bit_or (bit_and c0 0x0f << 12) (bit_and c1 0x3f << 6)) (bit_and c2 0x3f)

pub decode_four : ℕ → ℕ → ℕ → ℕ → ℕ
decode_four c0 c1 c2 c3 =
    bit_or (bit_or (bit_or (bit_and c0 0x03 << 18) (bit_and c1 0x3f << 12)) (bit_and c2 0x3f << 6))
      (bit_and c3 0x3f)

unfoldable pub utf8_to_ucs4 : List ℕ → ℕ
unfolding decode_two decode_three decode_four
utf8_to_ucs4 p =
    let c0 = byte_at p 0 in
    if sequence_length c0 == 1
    then c0
    else if sequence_length c0 == 2
    then (if byte_at p 1 == 0 then bad else decode_two c0 (byte_at p 1))
    else if sequence_length c0 == 3
    then (if (byte_at p 1 == 0) || (byte_at p 2 == 0)
        then bad
        else decode_three c0 (byte_at p 1) (byte_at p 2))
    else if sequence_length c0 == 4
    then (if (byte_at p 1 == 0) || (byte_at p 2 == 0) || (byte_at p 3 == 0)
        then bad
        else decode_four c0 (byte_at p 1) (byte_at p 2) (byte_at p 3))
    else bad

unfoldable pub utf8_to_ucs2 : List ℕ → ℕ
utf8_to_ucs2 p = let c = utf8_to_ucs4 p in if ltb 0xffff c then 0xffff else c

-- `static_cast<UInt8>`.
abbrev pub u8 : ℕ → ℕ
u8 n = n % 2 ^ 8

-- The bytes that both overloads write, the one to a `StringBuffer` and the one to a `char*`.
unfoldable pub ucs4_to_utf8 : ℕ → List ℕ
ucs4_to_utf8 c =
    if ltb c 0x80
    then u8 c ∷ []
    else if ltb c 0x800
    then u8 (bit_or 0xc0 (c >> 6)) ∷ u8 (bit_or 0x80 (bit_and c 0x3f)) ∷ []
    else if ltb c 0x10000
    then u8 (bit_or 0xe0 (c >> 12))
      ∷ u8 (bit_or 0x80 (bit_and (c >> 6) 0x3f))
      ∷ u8 (bit_or 0x80 (bit_and c 0x3f))
      ∷ []
    else u8 (bit_or 0xf0 (c >> 18))
      ∷ u8 (bit_or 0x80 (bit_and (c >> 12) 0x3f))
      ∷ u8 (bit_or 0x80 (bit_and (c >> 6) 0x3f))
      ∷ u8 (bit_or 0x80 (bit_and c 0x3f))
      ∷ []

-- `UCS2toUTF8` widens its argument, which changes nothing here.
unfoldable pub ucs2_to_utf8 : ℕ → List ℕ
ucs2_to_utf8 c = ucs4_to_utf8 c

unfoldable pub utf8_char_len : ℕ → ℕ
utf8_char_len c =
    if ltb c 0x80 then 1 else if ltb c 0x800 then 2 else if ltb c 0x10000 then 3 else 4
