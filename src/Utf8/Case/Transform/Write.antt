-- ===== src/Utf8/Case/Transform/Write.antt =====
-- The writes of `transformInPlace`, and one round of its loop.
use mathlib.Core.List.{append_assoc}
use libblocxx_deb.Prelude.{
  ℕ, suc, ◌+◌, ◌≤◌, ◌≡◌, refl, sym, ap, ◌∙◌, true, List, [], ◌∷◌, ◌++◌, some, arith, length, drop,
  set, length-append, drop-append, lt→ltb, ltb, set-append,
}
use libblocxx_deb.Utf8.Table.{sequence_length}
use libblocxx_deb.Utf8.Codec.{utf8_to_ucs4, ucs4_to_utf8, utf8_char_len}
use libblocxx_deb.Utf8.Codec.Fields.{utf8_to_ucs4_one}
use libblocxx_deb.Utf8.Codec.RoundTrip.{
  utf8_to_ucs4-ucs4_to_utf8, sequence_length-ucs4_to_utf8, length-ucs4_to_utf8, ucs4_to_utf8-ne-nil,
}
use libblocxx_deb.Utf8.Case.Transform.{write_at, transform_in_place_loop}
use libblocxx_deb.Utf8.Case.Transform.Copy.{IsChar}

-- Bytes written over the beginning of `old`, which stands after `front`.
pub write_at-append :
    (front old rest new : List ℕ) (n : ℕ)
    → n ≡ length front
    → length new ≤ length old
    → write_at (front ++ (old ++ rest)) n new
      ≡ some (front ++ ((new ++ drop (length new) old) ++ rest))
unfolding write_at
write_at-append front old rest [] n e h = refl
write_at-append front [] rest (b ∷ new) n e h = absurd (omega arith)
write_at-append front (o ∷ old) rest (b ∷ new) n e h =
    let later = old ++ rest in
    let written : set (front ++ o ∷ later) n b ≡ (front ++ b ∷ []) ++ later =
      rw e (set-append front o b later ∙ sym (append_assoc front (b ∷ []) later)) in
    let inside : ltb n (length (front ++ o ∷ later)) ≡ true =
      lt→ltb _ _ (omega (arith, length-append front (o ∷ later))) in
    rw (inside, written)
      (write_at-append (front ++ b ∷ []) old rest new (n + 1)
          (omega (arith, length-append front (b ∷ []))) (omega arith)
        ∙ ap some (append_assoc front (b ∷ []) ((new ++ drop (length new) old) ++ rest)))

-- The loop state after a round at a code point `c`: `stale` bytes of `c` are left behind.
abbrev pub shrunk : (ℕ → ℕ) → ℕ → List ℕ
shrunk f c = ucs4_to_utf8 (f c) ++ drop (utf8_char_len (f c)) (ucs4_to_utf8 c)

-- One round of the loop, when nothing has shrunk yet and the mapping of `c` is no longer than `c`.
pub transform_in_place_step :
    (fuel : ℕ) (f : ℕ → ℕ) (front : List ℕ) (c : ℕ) (xs rest : List ℕ) (n : ℕ)
    → n ≡ length front
    → IsChar c
    → ucs4_to_utf8 c ≡ xs
    → utf8_char_len (f c) ≤ utf8_char_len c
    → transform_in_place_loop (suc fuel) f (front ++ (xs ++ rest)) n n
      ≡ transform_in_place_loop fuel f
          (front ++ (shrunk f c ++ rest))
          (n + utf8_char_len c)
          (n + utf8_char_len (f c))
unfolding transform_in_place_loop
transform_in_place_step fuel f front c [] rest n e h enc le = absurd (ucs4_to_utf8-ne-nil c enc)
transform_in_place_step fuel f front c (b ∷ bs) rest n e h enc le =
    let here : drop n (front ++ (b ∷ bs ++ rest)) ≡ b ∷ bs ++ rest =
      rw e (drop-append front (b ∷ bs ++ rest)) in
    let code : utf8_to_ucs4 (b ∷ bs ++ rest) ≡ c =
      rw enc at (utf8_to_ucs4-ucs4_to_utf8 c rest h.1) in
    let lens : (sequence_length b ≡ length (b ∷ bs)) × (length (b ∷ bs) ≡ utf8_char_len c) =
      rw enc at (sequence_length-ucs4_to_utf8 c rest (omega arith)) in
    let wrote =
      write_at-append front (b ∷ bs) rest (ucs4_to_utf8 (f c)) n e
        (omega (arith, length-ucs4_to_utf8 (f c))) in
    ground (
      arith,
      here,
      code,
      lens.0,
      lens.1,
      wrote,
      utf8_to_ucs4_one b (bs ++ rest),
      length-ucs4_to_utf8 (f c),
    )
