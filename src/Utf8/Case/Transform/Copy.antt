-- ===== src/Utf8/Case/Transform/Copy.antt =====
-- `transform` on texts, and on any bytes.
use mathlib.Core.List.{append-nil, append_assoc}
use libblocxx_deb.Prelude.{
  ℕ, zero, suc, ◌<◌, ◌≡◌, ◌≢◌, refl, ap, ◌∙◌, List, [], ◌∷◌, ◌++◌, none, some, map, arith, length,
  All, drop, length-drop, length-append, drop-append,
}
use libblocxx_deb.Utf8.Table.{sequence_length}
use libblocxx_deb.Utf8.Codec.{bad, byte_at, utf8_to_ucs4, ucs4_to_utf8}
use libblocxx_deb.Utf8.Codec.RoundTrip.{
  utf8_to_ucs4-ucs4_to_utf8, sequence_length-ucs4_to_utf8, ucs4_to_utf8_pos, ucs4_to_utf8-ne-nil,
}
use libblocxx_deb.Utf8.Text.{encode}
use libblocxx_deb.Utf8.Case.Defs.{transformer, CaseMapping}
use libblocxx_deb.Utf8.Case.Lower.{lower_mappings}
use libblocxx_deb.Utf8.Case.Upper.{upper_mappings}
use libblocxx_deb.Utf8.Case.Lookup.{
  IsCaseTable, transformer_fits, transformer-transformer, lower_mappings-IsCaseTable,
  upper_mappings-IsCaseTable,
}
use libblocxx_deb.Utf8.Case.Transform.{transform_loop, transform, to_upper_case, to_lower_case}

-- The code points of planes 0 to 15, but for NUL.
abbrev pub IsChar : ℕ → Type 0
IsChar c = (0 < c) × (c < 0x100000)

-- A byte that does not lead a sequence decodes to `bad`.
utf8_to_ucs4_no_lead : (p : List ℕ) → sequence_length (byte_at p 0) ≡ 0 → utf8_to_ucs4 p ≡ bad
unfolding utf8_to_ucs4
utf8_to_ucs4_no_lead p h = ground arith

transform_loop_total :
    (fuel : ℕ) (f : ℕ → ℕ) (p rval : List ℕ) → length p < fuel → transform_loop fuel f p rval ≢ none
unfolding transform_loop
transform_loop_total zero f p rval h = absurd (omega arith)
transform_loop_total (suc fuel) f [] rval h = λ e. cc
transform_loop_total (suc fuel) f (c ∷ q) rval h = ground (
  arith,
  utf8_to_ucs4_no_lead (c ∷ q),
  length-drop (sequence_length c) (c ∷ q),
  transform_loop_total fuel f q (rval ++ c ∷ []) (omega arith),
  transform_loop_total fuel f (drop (sequence_length c) (c ∷ q))
      (rval ++ ucs4_to_utf8 (f (utf8_to_ucs4 (c ∷ q)))),
)

-- Both case conversions return a string for every byte string: the loop ends.
pub to_case_total : (input : List ℕ) → (to_upper_case input ≢ none) × (to_lower_case input ≢ none)
unfolding to_upper_case to_lower_case transform
to_case_total input = (
  transform_loop_total (suc (length input)) _ input [] (omega arith),
  transform_loop_total (suc (length input)) _ input [] (omega arith),
)

-- One round at the encoding of a code point, whose bytes are `xs`.
transform_loop_step :
    (fuel : ℕ) (f : ℕ → ℕ) (c : ℕ) (xs rest rval : List ℕ)
    → IsChar c
    → ucs4_to_utf8 c ≡ xs
    → transform_loop (suc fuel) f (xs ++ rest) rval
      ≡ transform_loop fuel f rest (rval ++ ucs4_to_utf8 (f c))
unfolding transform_loop
transform_loop_step fuel f c [] rest rval h e = absurd (ucs4_to_utf8-ne-nil c e)
transform_loop_step fuel f c (b ∷ bs) rest rval h e = ground (
  arith,
  rw e at (utf8_to_ucs4-ucs4_to_utf8 c rest h.1),
  rw e at ((sequence_length-ucs4_to_utf8 c rest (omega arith)).0),
  drop-append (b ∷ bs) rest,
)

transform_loop-encode :
    (fuel : ℕ) (f : ℕ → ℕ) (cs rval : List ℕ)
    → length (encode cs) < fuel
    → All IsChar cs
    → transform_loop fuel f (encode cs) rval ≡ some (rval ++ encode (map f cs))
unfolding transform_loop
transform_loop-encode zero f cs rval h all = absurd (omega arith)
transform_loop-encode (suc fuel) f [] rval h all = rw append-nil
transform_loop-encode (suc fuel) f (c ∷ cs) rval h all =
    transform_loop_step fuel f c (ucs4_to_utf8 c) (encode cs) rval all.0 refl
    ∙ transform_loop-encode fuel f cs (rval ++ ucs4_to_utf8 (f c))
        (omega (arith, length-append (ucs4_to_utf8 c) (encode cs), ucs4_to_utf8_pos c)) all.1
    ∙ ap some (append_assoc rval (ucs4_to_utf8 (f c)) (encode (map f cs)))

transform-encode :
    (f : ℕ → ℕ) (cs : List ℕ) → All IsChar cs → transform f (encode cs) ≡ some (encode (map f cs))
unfolding transform
transform-encode f cs all =
    transform_loop-encode (suc (length (encode cs))) f cs [] (omega arith) all

-- On a text of code points of planes 0 to 15, NUL excepted, both conversions map each code point
-- by their table, and write the texts of the results.
pub to_case-encode :
    (cs : List ℕ)
    → All IsChar cs
    → (to_upper_case (encode cs) ≡ some (encode (map (transformer upper_mappings) cs)))
      × (to_lower_case (encode cs) ≡ some (encode (map (transformer lower_mappings) cs)))
unfolding to_upper_case to_lower_case
to_case-encode cs all = (
  transform-encode (transformer upper_mappings) cs all,
  transform-encode (transformer lower_mappings) cs all,
)

map-transformer-IsChar :
    (table : List CaseMapping) (cs : List ℕ)
    → IsCaseTable table
    → All IsChar cs
    → All IsChar (map (transformer table) cs)
map-transformer-IsChar table [] t all = tt
map-transformer-IsChar table (c ∷ cs) t all =
    let fits = transformer_fits table c t in
    ((fits.1 all.0.0, fits.2 all.0.1), map-transformer-IsChar table cs t all.1)

map-transformer_twice :
    (table : List CaseMapping) (cs : List ℕ)
    → IsCaseTable table
    → map (transformer table) (map (transformer table) cs) ≡ map (transformer table) cs
map-transformer_twice table [] t = refl
map-transformer_twice table (c ∷ cs) t =
    rw (transformer-transformer table c t, map-transformer_twice table cs t)

transform_twice :
    (table : List CaseMapping) (cs : List ℕ) (once : List ℕ)
    → IsCaseTable table
    → All IsChar cs
    → transform (transformer table) (encode cs) ≡ some once
    → transform (transformer table) once ≡ some once
transform_twice table cs once t all e =
    let first = transform-encode (transformer table) cs all in
    let same : encode (map (transformer table) cs) ≡ once = cc first in
    rw (← same) (
      transform-encode (transformer table) (map (transformer table) cs)
        (map-transformer-IsChar table cs t all)
      ∙ ap (λ ds. some (encode ds)) (map-transformer_twice table cs t))

-- Converting a text that was converted to the same case changes nothing.
pub to_case_twice :
    (cs upper lower : List ℕ)
    → All IsChar cs
    → to_upper_case (encode cs) ≡ some upper
    → to_lower_case (encode cs) ≡ some lower
    → (to_upper_case upper ≡ some upper) × (to_lower_case lower ≡ some lower)
unfolding to_upper_case to_lower_case
to_case_twice cs upper lower all up low = (
  transform_twice upper_mappings cs upper upper_mappings-IsCaseTable all up,
  transform_twice lower_mappings cs lower lower_mappings-IsCaseTable all low,
)
