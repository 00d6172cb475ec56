-- ===== src/Uuid/Text.antt =====
-- src/blocxx/UUID.cpp: an identifier of 16 bytes as text, and back. Characters are those of ASCII.
use libblocxx_deb.Prelude.{
  ℕ, ◌+◌, ◌-◌, ◌/◌, ◌%◌, ◌<◌, ◌≡◌, refl, ap, Bool, true, ◌&&◌, ◌||◌, not, Option, none, some, List,
  [], ◌∷◌, ◌++◌, arith, bit_and, bit_or, leb, ◌==◌, if◌then◌else◌, length, get_or, take, drop, All,
}
use libblocxx_deb.Prelude.Bits.{◌<<◌, ◌>>◌, bit_and_ones, bit_or_disjoint}

abbrev pub Bytes : Type 0
Bytes = List ℕ

-- `isdigit`, `isxdigit` and `toupper` of the C library.
abbrev is_digit : ℕ → Bool
is_digit c = leb 48 c && leb c 57

abbrev is_xdigit : ℕ → Bool
is_xdigit c = is_digit c || (leb 65 c && leb c 70) || (leb 97 c && leb c 102)

abbrev to_upper : ℕ → ℕ
to_upper c = if leb 97 c && leb c 122 then c - 32 else c

unfoldable pub decode_hex : ℕ → ℕ
decode_hex c = if is_digit c then c - 48 else to_upper c - 65 + 10

unfoldable pub from_hex_str : ℕ → ℕ → Option ℕ
from_hex_str c1 c2 =
    if not (is_xdigit c1) || not (is_xdigit c2)
    then none
    else some (bit_or (decode_hex c1 << 4) (decode_hex c2))

unfoldable pub to_hex_hi : ℕ → ℕ
to_hex_hi c = if leb 10 (c >> 4) then (c >> 4) - 10 + 97 else (c >> 4) + 48

unfoldable pub to_hex_low : ℕ → ℕ
to_hex_low c = if leb 10 (bit_and c 15) then bit_and c 15 - 10 + 97 else bit_and c 15 + 48

abbrev pub hex_bytes : Bytes → Bytes
hex_bytes [] = []
hex_bytes (b ∷ u) = to_hex_hi b ∷ to_hex_low b ∷ hex_bytes u

-- Four bytes, three times two, and six, with a dash between them.
unfoldable pub to_string : Bytes → Bytes
to_string u =
    hex_bytes (take 4 u)
    ++ 45 ∷ hex_bytes (take 2 (drop 4 u))
    ++ 45 ∷ hex_bytes (take 2 (drop 6 u))
    ++ 45 ∷ hex_bytes (take 2 (drop 8 u))
    ++ 45 ∷ hex_bytes (take 6 (drop 10 u))

-- The bytes whose digits stand at these places; none is an exception.
abbrev pub cons_or_none : Option ℕ → Option Bytes → Option Bytes
cons_or_none none u = none
cons_or_none (some b) none = none
cons_or_none (some b) (some u) = some (b ∷ u)

abbrev pub bytes_at : Bytes → List ℕ → Option Bytes
bytes_at s [] = some []
bytes_at s (i ∷ places) =
    cons_or_none (from_hex_str (get_or s i 0) (get_or s (i + 1) 0)) (bytes_at s places)

abbrev pub places : List ℕ
places = 0 ∷ 2 ∷ 4 ∷ 6 ∷ 9 ∷ 11 ∷ 14 ∷ 16 ∷ 19 ∷ 21 ∷ 24 ∷ 26 ∷ 28 ∷ 30 ∷ 32 ∷ 34 ∷ []

unfoldable pub from_string : Bytes → Option Bytes
from_string s =
    if not (length s == 36)
      || not (get_or s 8 0 == 45)
      || not (get_or s 13 0 == 45)
      || not (get_or s 18 0 == 45)
      || not (get_or s 23 0 == 45)
    then none
    else bytes_at s places

-- One digit, and the two of a byte.
digit : ℕ → ℕ
digit d = if leb 10 d then d - 10 + 97 else d + 48

digit-decoded : (d : ℕ) → d < 16 → (decode_hex (digit d) ≡ d) × (is_xdigit (digit d) ≡ true)
unfolding digit decode_hex
digit-decoded d h = ground arith

from_hex_str-byte : (c : ℕ) → c < 256 → from_hex_str (to_hex_hi c) (to_hex_low c) ≡ some c
unfolding from_hex_str to_hex_hi to_hex_low digit
from_hex_str-byte c h =
    let hi = digit-decoded (c / 16) (omega arith) in
    let low = digit-decoded (c % 16) (omega arith) in
    rw
      (
        bit_and_ones 4 c,
        hi.0,
        hi.1,
        low.0,
        low.1,
        bit_or_disjoint 4 (c / 16) (c % 16) (omega arith),
      )
      (ap some (omega arith))

-- An identifier of 16 bytes comes back from its text.
pub from_string-to_string :
    (b0 b1 b2 b3 b4 b5 b6 b7 b8 b9 b10 b11 b12 b13 b14 b15 : ℕ)
    → All
        (λ b. b < 256)
        (b0 ∷ b1 ∷ b2 ∷ b3 ∷ b4 ∷ b5 ∷ b6 ∷ b7 ∷ b8 ∷ b9 ∷ b10 ∷ b11 ∷ b12 ∷ b13 ∷ b14 ∷ b15 ∷ [])
    → from_string (
        to_string (
          b0 ∷ b1 ∷ b2 ∷ b3 ∷ b4 ∷ b5 ∷ b6 ∷ b7 ∷ b8 ∷ b9 ∷ b10 ∷ b11 ∷ b12 ∷ b13 ∷ b14 ∷ b15 ∷ []))
      ≡ some
          (b0 ∷ b1 ∷ b2 ∷ b3 ∷ b4 ∷ b5 ∷ b6 ∷ b7 ∷ b8 ∷ b9 ∷ b10 ∷ b11 ∷ b12 ∷ b13 ∷ b14 ∷ b15 ∷ [])
unfolding from_string to_string
from_string-to_string b0 b1 b2 b3 b4 b5 b6 b7 b8 b9 b10 b11 b12 b13 b14 b15 h =
    rw
      (
        from_hex_str-byte b0 h.0,
        from_hex_str-byte b1 h.1.0,
        from_hex_str-byte b2 h.1.1.0,
        from_hex_str-byte b3 h.1.1.1.0,
        from_hex_str-byte b4 h.1.1.1.1.0,
        from_hex_str-byte b5 h.1.1.1.1.1.0,
        from_hex_str-byte b6 h.1.1.1.1.1.1.0,
        from_hex_str-byte b7 h.1.1.1.1.1.1.1.0,
        from_hex_str-byte b8 h.1.1.1.1.1.1.1.1.0,
        from_hex_str-byte b9 h.1.1.1.1.1.1.1.1.1.0,
        from_hex_str-byte b10 h.1.1.1.1.1.1.1.1.1.1.0,
        from_hex_str-byte b11 h.1.1.1.1.1.1.1.1.1.1.1.0,
        from_hex_str-byte b12 h.1.1.1.1.1.1.1.1.1.1.1.1.0,
        from_hex_str-byte b13 h.1.1.1.1.1.1.1.1.1.1.1.1.1.0,
        from_hex_str-byte b14 h.1.1.1.1.1.1.1.1.1.1.1.1.1.1.0,
        from_hex_str-byte b15 h.1.1.1.1.1.1.1.1.1.1.1.1.1.1.1.0,
      )
      refl
