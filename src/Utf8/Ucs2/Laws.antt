-- ===== src/Utf8/Ucs2/Laws.antt =====
-- The conversions between UCS2 and UTF-8 end, and are inverse on UCS2 texts.
use mathlib.Core.List.{append-nil, append_assoc}
use libblocxx_deb.Prelude.{
  ℕ, zero, suc, ◌+◌, ◌/◌, ◌%◌, ◌≤◌, ◌<◌, ◌≡◌, ◌≢◌, ap, ◌∙◌, Bool, true, false, List, [], ◌∷◌, ◌++◌,
  arith, length, All, drop, if◌then◌else◌, length-drop, length-append,
}
use libblocxx_deb.Utf8.Table.{lead_length, sequence_length-lead_length}
use libblocxx_deb.Utf8.Codec.{byte_at, decode_two, decode_three, ucs4_to_utf8}
use libblocxx_deb.Utf8.Codec.Fields.{
  ucs4_to_utf8_one, ucs4_to_utf8_two, ucs4_to_utf8_three, decode_two_lem, decode_three_lem,
}
use libblocxx_deb.Utf8.Codec.RoundTrip.{Width, one, two, three, four, width, ucs4_to_utf8_pos}
use libblocxx_deb.Utf8.Text.{encode}
use libblocxx_deb.Utf8.Ucs2.{
  converted, invalid_utf8, overrun, stuck, ucs2_replacement_char, push_back, string_to_ucs2_loop,
  string_to_ucs2_common, string_to_ucs2, string_to_ucs2_replace_invalid, ucs2_to_string_loop,
  ucs2_to_string,
}

string_to_ucs2_loop-ne-stuck :
    (fuel : ℕ) (throws : Bool) (p rval : List ℕ)
    → length p < fuel
    → string_to_ucs2_loop fuel throws p rval ≢ stuck
unfolding string_to_ucs2_loop
string_to_ucs2_loop-ne-stuck zero throws p rval h = absurd (omega arith)
string_to_ucs2_loop-ne-stuck (suc fuel) throws [] rval h = λ e. cc
string_to_ucs2_loop-ne-stuck (suc fuel) throws (c ∷ q) rval h =
    let p = c ∷ q in
    ground (
      arith,
      string_to_ucs2_loop-ne-stuck fuel throws q (push_back rval c) (omega arith),
      string_to_ucs2_loop-ne-stuck fuel throws (drop 2 p)
          (push_back rval (decode_two c (byte_at p 1))) (omega (arith, length-drop 1 q)),
      string_to_ucs2_loop-ne-stuck fuel throws (drop 3 p)
          (push_back rval (decode_three c (byte_at p 1) (byte_at p 2)))
          (omega (arith, length-drop 2 q)),
      string_to_ucs2_loop-ne-stuck fuel throws (drop 4 p) (push_back rval ucs2_replacement_char)
          (omega (arith, length-drop 3 q)),
      string_to_ucs2_loop-ne-stuck fuel throws q (push_back rval ucs2_replacement_char)
          (omega arith),
    )

-- Both conversions of every byte string end: the fuel does not run out.
pub string_to_ucs2_common-ne-stuck :
    (input : List ℕ) (throws : Bool) → string_to_ucs2_common input throws ≢ stuck
unfolding string_to_ucs2_common
string_to_ucs2_common-ne-stuck input throws =
    string_to_ucs2_loop-ne-stuck (suc (length input)) throws input [] (omega arith)

-- One round of the loop, at the encoding of a UCS2 character.
round_trip_step :
    (fuel : ℕ) (throws : Bool) (c : ℕ) (rest rval : List ℕ)
    → 0 < c
    → c < 0x10000
    → string_to_ucs2_loop (suc fuel) throws (ucs4_to_utf8 c ++ rest) rval
      ≡ string_to_ucs2_loop fuel throws rest (rval ++ c ∷ [])
unfolding string_to_ucs2_loop lead_length
round_trip_step fuel throws c rest rval pos hi = by_width (width c)
  where
    by_width :
        Width c
        → string_to_ucs2_loop (suc fuel) throws (ucs4_to_utf8 c ++ rest) rval
          ≡ string_to_ucs2_loop fuel throws rest (rval ++ c ∷ [])
    by_width (one h) = rw (ucs4_to_utf8_one c h) (ground (arith, sequence_length-lead_length c))
    by_width (two lo h) = rw (ucs4_to_utf8_two c lo h) (
        ground (
          arith,
          sequence_length-lead_length (0xc0 + c / 64),
          decode_two_lem (0xc0 + c / 64) (0x80 + c % 64),
        ))
    by_width (three lo h) = rw (ucs4_to_utf8_three c lo h) (
        ground (
          arith,
          sequence_length-lead_length (0xe0 + c / 4096),
          decode_three_lem (0xe0 + c / 4096) (0x80 + c / 64 % 64) (0x80 + c % 64),
        ))
    by_width (four h) = absurd (omega arith)

string_to_ucs2_loop-encode :
    (fuel : ℕ) (throws : Bool) (cs rval : List ℕ)
    → length (encode cs) < fuel
    → All (λ c. (0 < c) × (c < 0x10000)) cs
    → string_to_ucs2_loop fuel throws (encode cs) rval ≡ converted (rval ++ cs)
unfolding string_to_ucs2_loop
string_to_ucs2_loop-encode zero throws cs rval h all = absurd (omega arith)
string_to_ucs2_loop-encode (suc fuel) throws [] rval h all = rw append-nil
string_to_ucs2_loop-encode (suc fuel) throws (c ∷ cs) rval h all =
    round_trip_step fuel throws c (encode cs) rval all.0.0 all.0.1
    ∙ string_to_ucs2_loop-encode fuel throws cs (rval ++ c ∷ [])
        (omega (arith, length-append (ucs4_to_utf8 c) (encode cs), ucs4_to_utf8_pos c)) all.1
    ∙ ap converted (append_assoc rval (c ∷ []) cs)

ucs2_to_string_loop-encode : (cs sb : List ℕ) → ucs2_to_string_loop cs sb ≡ sb ++ encode cs
unfolding ucs2_to_string_loop
ucs2_to_string_loop-encode [] sb = rw append-nil
ucs2_to_string_loop-encode (c ∷ cs) sb =
    ucs2_to_string_loop-encode cs (sb ++ ucs4_to_utf8 c)
    ∙ append_assoc sb (ucs4_to_utf8 c) (encode cs)

-- A UCS2 text is written as the encodings of its characters in order.
pub ucs2_to_string-encode : (cs : List ℕ) → ucs2_to_string cs ≡ encode cs
unfolding ucs2_to_string
ucs2_to_string-encode cs = ucs2_to_string_loop-encode cs []

-- A UCS2 text without NULs, written as UTF-8 and read back, is the same text, whether or not the
-- reader throws.
pub string_to_ucs2_common-ucs2_to_string :
    (cs : List ℕ) (throws : Bool)
    → All (λ c. (0 < c) × (c < 0x10000)) cs
    → string_to_ucs2_common (ucs2_to_string cs) throws ≡ converted cs
unfolding string_to_ucs2_common
string_to_ucs2_common-ucs2_to_string cs throws all =
    rw (ucs2_to_string-encode cs)
      (string_to_ucs2_loop-encode (suc (length (encode cs))) throws cs [] (omega arith) all)

-- A UCS2 text without NULs, encoded, and then the lone lead byte of a two or three byte sequence:
-- the throwing reader refuses it, and the replacing one reads past the end of the string.
pub string_to_ucs2_short_lead :
    (cs : List ℕ) (lead : ℕ)
    → All (λ c. (0 < c) × (c < 0x10000)) cs
    → 0xc2 ≤ lead
    → lead < 0xf0
    → (string_to_ucs2 (encode cs ++ lead ∷ []) ≡ invalid_utf8)
      × (string_to_ucs2_replace_invalid (encode cs ++ lead ∷ []) ≡ overrun)
unfolding string_to_ucs2 string_to_ucs2_replace_invalid string_to_ucs2_common
string_to_ucs2_short_lead cs lead all lo hi =
    (loop _ true cs [] (omega arith) all, loop _ false cs [] (omega arith) all)
  where
    last :
        (fuel : ℕ) (throws : Bool) (rval : List ℕ)
        → string_to_ucs2_loop (suc fuel) throws (lead ∷ []) rval
          ≡ (if throws then invalid_utf8 else overrun)
    last fuel throws rval =
        unfold string_to_ucs2_loop lead_length in ground (arith, sequence_length-lead_length lead)

    loop :
        (fuel : ℕ) (throws : Bool) (ds rval : List ℕ)
        → length (encode ds ++ lead ∷ []) < fuel
        → All (λ c. (0 < c) × (c < 0x10000)) ds
        → string_to_ucs2_loop fuel throws (encode ds ++ lead ∷ []) rval
          ≡ (if throws then invalid_utf8 else overrun)
    loop zero throws ds rval h hs = absurd (omega arith)
    loop (suc fuel) throws [] rval h hs = last fuel throws rval
    loop (suc fuel) throws (d ∷ ds) rval h hs =
        rw (append_assoc (ucs4_to_utf8 d) (encode ds) (lead ∷ [])) (
          round_trip_step fuel throws d (encode ds ++ lead ∷ []) rval hs.0.0 hs.0.1
          ∙ loop fuel throws ds (rval ++ d ∷ [])
              (omega (
                arith,
                length-append (ucs4_to_utf8 d) (encode ds ++ lead ∷ []),
                ap length (append_assoc (ucs4_to_utf8 d) (encode ds) (lead ∷ [])),
                ucs4_to_utf8_pos d,
              ))
              hs.1)
