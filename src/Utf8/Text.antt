-- ===== src/Utf8/Text.antt =====
-- src/blocxx/UTF8Utils.cpp: `charCount`, and texts as the encodings of code points.
use libblocxx_deb.Prelude.{
  ℕ, ◌+◌, ◌<◌, ◌≡◌, ◌∙◌, ◌||◌, List, [], ◌∷◌, ◌++◌, arith, length, All, ltb, if◌then◌else◌,
}
use libblocxx_deb.Utf8.Codec.{ucs4_to_utf8}
use libblocxx_deb.Utf8.Codec.Fields.{
  ucs4_to_utf8_one, ucs4_to_utf8_two, ucs4_to_utf8_three, ucs4_to_utf8_four,
}
use libblocxx_deb.Utf8.Codec.RoundTrip.{Width, one, two, three, four, width}

-- Bytes 0x80 to 0xbf go on a character; any other byte begins one.
unfoldable pub char_count_from : ℕ → List ℕ → ℕ
char_count_from count [] = count
char_count_from count (c ∷ p) =
    char_count_from (if ltb c 0x80 || ltb 0xbf c then count + 1 else count) p

unfoldable pub char_count : List ℕ → ℕ
unfolding char_count_from
char_count p = char_count_from 0 p

-- A text: the encodings of its code points, one after another.
abbrev pub encode : List ℕ → List ℕ
encode [] = []
encode (c ∷ cs) = ucs4_to_utf8 c ++ encode cs

char_count_from-ucs4_to_utf8 :
    (n c : ℕ) (rest : List ℕ)
    → c < 0x110000
    → char_count_from n (ucs4_to_utf8 c ++ rest) ≡ char_count_from (n + 1) rest
unfolding char_count_from
char_count_from-ucs4_to_utf8 n c rest h = by_width (width c)
  where
    by_width : Width c → char_count_from n (ucs4_to_utf8 c ++ rest) ≡ char_count_from (n + 1) rest
    by_width (one hi) = rw (ucs4_to_utf8_one c hi) (ground arith)
    by_width (two lo hi) = rw (ucs4_to_utf8_two c lo hi) (ground arith)
    by_width (three lo hi) = rw (ucs4_to_utf8_three c lo hi) (ground arith)
    by_width (four lo) = rw (ucs4_to_utf8_four c lo (omega arith)) (ground arith)

char_count_from-encode :
    (n : ℕ) (cs : List ℕ)
    → All (λ c. c < 0x110000) cs
    → char_count_from n (encode cs) ≡ n + length cs
unfolding char_count_from
char_count_from-encode n [] h = omega arith
char_count_from-encode n (c ∷ cs) h =
    char_count_from-ucs4_to_utf8 n c (encode cs) h.0
    ∙ (omega (arith, char_count_from-encode (n + 1) cs h.1))

-- The count of a text is the number of its code points, if all are Unicode code points.
pub char_count-encode :
    (cs : List ℕ) → All (λ c. c < 0x110000) cs → char_count (encode cs) ≡ length cs
unfolding char_count
char_count-encode cs h = char_count_from-encode 0 cs h ∙ omega arith
