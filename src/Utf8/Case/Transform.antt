-- ===== src/Utf8/Case/Transform.antt =====
-- src/blocxx/UTF8Utils.cpp: `transform`, `transformInPlace` and the four conversions on them.
pub mod Copy
pub mod Write
pub mod Texts
pub mod Safety
use libblocxx_deb.Prelude.{
  ℕ, zero, suc, ◌+◌, Bool, true, false, List, [], ◌∷◌, ◌++◌, Option, none, some, ltb, ◌==◌,
  if◌then◌else◌, drop, length, set,
}
use libblocxx_deb.Utf8.Table.{sequence_length}
use libblocxx_deb.Utf8.Codec.{bad, byte_at, utf8_to_ucs4, ucs4_to_utf8, utf8_char_len}
use libblocxx_deb.Utf8.Case.Defs.{transformer}
use libblocxx_deb.Utf8.Case.Lower.{lower_mappings}
use libblocxx_deb.Utf8.Case.Upper.{upper_mappings}

-- The loop of `transform` at `p`, with the result so far; `none` if the fuel ran out.
unfoldable pub transform_loop : ℕ → (ℕ → ℕ) → List ℕ → List ℕ → Option (List ℕ)
transform_loop zero f p rval = none
transform_loop (suc fuel) f [] rval = some rval
transform_loop (suc fuel) f (c0 ∷ q) rval =
    let ucs4char = utf8_to_ucs4 (c0 ∷ q) in
    let skipped = transform_loop fuel f q (rval ++ c0 ∷ []) in
    let mapped =
      transform_loop fuel f (drop (sequence_length c0) (c0 ∷ q))
        (rval ++ ucs4_to_utf8 (f ucs4char)) in
    if ucs4char == bad then skipped else mapped

unfoldable pub transform : (ℕ → ℕ) → List ℕ → Option (List ℕ)
transform f input = transform_loop (suc (length input)) f input []

unfoldable pub to_upper_case : List ℕ → Option (List ℕ)
to_upper_case input = transform (transformer upper_mappings) input

unfoldable pub to_lower_case : List ℕ → Option (List ℕ)
to_lower_case input = transform (transformer lower_mappings) input

-- How `transformInPlace` ends: with its answer and the buffer, by a write outside the buffer,
-- which is undefined behaviour in C++, or, in the model only, without fuel.
pub data InPlace : Type 0 where
  done : Bool → List ℕ → InPlace
  overrun stuck : InPlace

-- `output[0] = b0; output[1] = b1; …`.
unfoldable pub write_at : List ℕ → ℕ → List ℕ → Option (List ℕ)
write_at buffer output [] = some buffer
write_at buffer output (b ∷ bytes) =
    if ltb output (length buffer) then write_at (set buffer output b) (output + 1) bytes else none

-- The loop of `transformInPlace` on the whole array, terminating NUL included, with `p` and
-- `output` as indices.
unfoldable pub transform_in_place_loop : ℕ → (ℕ → ℕ) → List ℕ → ℕ → ℕ → InPlace
transform_in_place_loop zero f buffer p output = stuck
transform_in_place_loop (suc fuel) f buffer p output =
    let input = drop p buffer in
    let ucs4char = utf8_to_ucs4 input in
    let skipped = transform_in_place_loop fuel f buffer (p + 1) (output + 1) in
    let next = λ (buffer' : List ℕ).
      transform_in_place_loop fuel f buffer' (p + sequence_length (byte_at input 0))
        (output + utf8_char_len (f ucs4char)) in
    if byte_at input 0 == 0
    then (elim (write_at buffer output (0 ∷ [])) [
      | none ↦ overrun
      | some buffer' ↦ done true buffer'
    ])
    else if ucs4char == bad
    then skipped
    else if ltb output p
    then done false buffer
    else (elim (write_at buffer output (ucs4_to_utf8 (f ucs4char))) [
      | none ↦ overrun
      | some buffer' ↦ next buffer'
    ])

unfoldable pub transform_in_place : (ℕ → ℕ) → List ℕ → InPlace
transform_in_place f buffer = transform_in_place_loop (suc (length buffer)) f buffer 0 0

unfoldable pub to_upper_case_in_place : List ℕ → InPlace
to_upper_case_in_place buffer = transform_in_place (transformer upper_mappings) buffer

unfoldable pub to_lower_case_in_place : List ℕ → InPlace
to_lower_case_in_place buffer = transform_in_place (transformer lower_mappings) buffer
