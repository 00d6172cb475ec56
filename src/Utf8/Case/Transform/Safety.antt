-- ===== src/Utf8/Case/Transform/Safety.antt =====
-- `transformInPlace` on any NUL-terminated array: it ends, and writes inside the array.
use mathlib.Core.List.{append_assoc}
use libblocxx_deb.Prelude.{
  ℕ, zero, suc, ◌+◌, ◌≤◌, ◌<◌, ◌≡◌, ◌≢◌, refl, sym, ap, ◌∙◌, List, [], ◌∷◌, ◌++◌, some, arith,
  length, All, All-drop, take, drop, set, length-drop, length-append, drop-append, take-append-drop,
  length-take, length-set,
}
use libblocxx_deb.Utf8.Table.{sequence_length, lead_length, sequence_length-lead_length}
use libblocxx_deb.Utf8.Codec.{bad, utf8_to_ucs4, ucs4_to_utf8, utf8_char_len}
use libblocxx_deb.Utf8.Codec.Fields.{decode_two_lem, decode_three_lem, decode_four_lem}
use libblocxx_deb.Utf8.Codec.RoundTrip.{length-ucs4_to_utf8}
use libblocxx_deb.Utf8.Case.Defs.{transformer}
use libblocxx_deb.Utf8.Case.Lower.{lower_mappings}
use libblocxx_deb.Utf8.Case.Upper.{upper_mappings}
use libblocxx_deb.Utf8.Case.Lookup.{
  transformer_fits, lower_mappings-IsCaseTable, upper_mappings-IsCaseTable,
}
use libblocxx_deb.Utf8.Case.Transform.{
  InPlace, done, overrun, stuck, write_at, transform_in_place_loop, transform_in_place,
  to_lower_case_in_place, to_upper_case_in_place,
}
use libblocxx_deb.Utf8.Case.Transform.Write.{write_at-append}

-- A byte of a string: any but NUL.
abbrev pub IsByte : ℕ → Type 0
IsByte b = (0 < b) × (b < 256)

-- The run ended, with an array of `n` bytes.
abbrev pub EndsWithin : ℕ → InPlace → Type 0
EndsWithin n (done answer buffer) = length buffer ≡ n
EndsWithin n overrun = ⊥
EndsWithin n stuck = ⊥

-- A sequence that decodes has all its bytes before the NUL, and is at least as long as the
-- encoding of what it decodes to.
decoded_length :
    (c : ℕ) (q : List ℕ)
    → All IsByte (c ∷ q)
    → utf8_to_ucs4 (c ∷ (q ++ 0 ∷ [])) ≢ bad
    → (1 ≤ sequence_length c)
      × (sequence_length c ≤ length (c ∷ q))
      × (utf8_char_len (utf8_to_ucs4 (c ∷ (q ++ 0 ∷ []))) ≤ sequence_length c)
unfolding utf8_to_ucs4 utf8_char_len lead_length
decoded_length c [] all ok = ground (arith, sequence_length-lead_length c)
decoded_length c (c1 ∷ []) all ok =
    ground (arith, sequence_length-lead_length c, decode_two_lem c c1)
decoded_length c (c1 ∷ c2 ∷ []) all ok =
    ground (arith, sequence_length-lead_length c, decode_two_lem c c1, decode_three_lem c c1 c2)
decoded_length c (c1 ∷ c2 ∷ c3 ∷ q) all ok = ground (
  arith,
  sequence_length-lead_length c,
  decode_two_lem c c1,
  decode_three_lem c c1 c2,
  decode_four_lem c c1 c2 c3,
)

-- The array after `new` is written over a sequence of `k` bytes, split where `p` goes next.
abbrev front_after : List ℕ → List ℕ → ℕ → List ℕ → List ℕ
front_after front rest k new = front ++ (new ++ drop (length new) (take k rest))

write_at_sequence :
    (front rest new : List ℕ) (k n : ℕ)
    → n ≡ length front
    → k ≤ length rest
    → length new ≤ k
    → (write_at (front ++ (rest ++ 0 ∷ [])) n new
        ≡ some (front_after front rest k new ++ (drop k rest ++ 0 ∷ [])))
      × (length (front_after front rest k new) ≡ n + k)
write_at_sequence front rest new k n at le fits = (
  ap (λ r. write_at (front ++ r) n new) (sym split)
      ∙ write_at-append front (take k rest) later new n at (omega (arith, length-take k rest))
      ∙ ap some (sym (append_assoc front (new ++ drop (length new) (take k rest)) later)),
  omega (
    arith,
    length-append front (new ++ drop (length new) (take k rest)),
    length-append new (drop (length new) (take k rest)),
    length-drop (length new) (take k rest),
    length-take k rest,
  ),
)
  where
    later : List ℕ
    later = drop k rest ++ 0 ∷ []

    split : take k rest ++ later ≡ rest ++ 0 ∷ []
    split =
        sym (append_assoc (take k rest) (drop k rest) (0 ∷ []))
        ∙ ap (λ r. r ++ 0 ∷ []) (take-append-drop k rest)

write_at_end :
    (buffer : List ℕ) (output : ℕ)
    → output < length buffer
    → write_at buffer output (0 ∷ []) ≡ some (set buffer output 0)
unfolding write_at
write_at_end buffer output h = ground arith

-- From any state with `output` at or behind `p`, and no NUL from `p` on but the last.
transform_in_place_loop-EndsWithin :
    (fuel : ℕ) (f : ℕ → ℕ) (front rest : List ℕ) (n output : ℕ)
    → ((c : ℕ) → utf8_char_len (f c) ≤ utf8_char_len c)
    → All IsByte rest
    → n ≡ length front
    → output ≤ n
    → length rest < fuel
    → EndsWithin
        (length (front ++ (rest ++ 0 ∷ [])))
        (transform_in_place_loop fuel f (front ++ (rest ++ 0 ∷ [])) n output)
unfolding transform_in_place_loop
transform_in_place_loop-EndsWithin zero f front rest n output fits all at le h =
    absurd (omega arith)
transform_in_place_loop-EndsWithin (suc fuel) f front [] n output fits all at le h =
    let here : drop n (front ++ 0 ∷ []) ≡ 0 ∷ [] = rw at (drop-append front (0 ∷ [])) in
    ground (
      arith,
      here,
      length-append front (0 ∷ []),
      write_at_end (front ++ 0 ∷ []) output,
      length-set (front ++ 0 ∷ []) output 0,
    )
transform_in_place_loop-EndsWithin (suc fuel) f front (c ∷ q) n output fits all at le h =
    let input = c ∷ (q ++ 0 ∷ []) in
    let here : drop n (front ++ input) ≡ input = rw at (drop-append front input) in
    let new = ucs4_to_utf8 (f (utf8_to_ucs4 input)) in
    let k = sequence_length c in
    ground (
      arith,
      here,
      decoded_length c q all,
      fits (utf8_to_ucs4 input),
      length-ucs4_to_utf8 (f (utf8_to_ucs4 input)),
      append_assoc front (c ∷ []) (q ++ 0 ∷ []),
      length-append front (c ∷ []),
      length-append front input,
      length-append (front_after front (c ∷ q) k new) (drop k (c ∷ q) ++ 0 ∷ []),
      length-append (drop k (c ∷ q)) (0 ∷ []),
      length-append q (0 ∷ []),
      length-drop k (c ∷ q),
      write_at_sequence front (c ∷ q) new k n at,
      transform_in_place_loop-EndsWithin fuel f (front ++ c ∷ []) q (n + 1) (output + 1) fits all.1,
      transform_in_place_loop-EndsWithin fuel f (front_after front (c ∷ q) k new) (drop k (c ∷ q))
          (n + k) (output + utf8_char_len (f (utf8_to_ucs4 input))) fits
          (All-drop IsByte k (c ∷ q) all),
    )

transform_in_place-EndsWithin :
    (f : ℕ → ℕ) (text : List ℕ)
    → ((c : ℕ) → utf8_char_len (f c) ≤ utf8_char_len c)
    → All IsByte text
    → EndsWithin (length (text ++ 0 ∷ [])) (transform_in_place f (text ++ 0 ∷ []))
unfolding transform_in_place
transform_in_place-EndsWithin f text fits all =
    transform_in_place_loop-EndsWithin (suc (length (text ++ 0 ∷ []))) f [] text 0 0 fits all refl
      (omega arith) (omega (arith, length-append text (0 ∷ [])))

-- The in-place conversions of any NUL-terminated array of bytes, valid UTF-8 or not, end, and
-- write no byte outside the array.
pub to_case_in_place-EndsWithin :
    (text : List ℕ)
    → All IsByte text
    → EndsWithin (length (text ++ 0 ∷ [])) (to_upper_case_in_place (text ++ 0 ∷ []))
      × EndsWithin (length (text ++ 0 ∷ [])) (to_lower_case_in_place (text ++ 0 ∷ []))
unfolding to_upper_case_in_place to_lower_case_in_place
to_case_in_place-EndsWithin text all = (
  transform_in_place-EndsWithin (transformer upper_mappings) text
      (λ c. (transformer_fits upper_mappings c upper_mappings-IsCaseTable).0) all,
  transform_in_place-EndsWithin (transformer lower_mappings) text
      (λ c. (transformer_fits lower_mappings c lower_mappings-IsCaseTable).0) all,
)
