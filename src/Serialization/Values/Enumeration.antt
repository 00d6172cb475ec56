-- ===== src/Serialization/Values/Enumeration.antt =====
-- The enumeration of values up to an end mark, and its end.
use libblocxx_deb.Prelude.{
  ℕ, zero, suc, ◌<◌, ◌≤◌, ◌≡◌, ◌≢◌, refl, false, List, [], ◌∷◌, ◌++◌, arith, ◌==◌, length,
  length-append, All,
}
use mathlib.Core.List.{append_assoc}
use libblocxx_deb.Serialization.Stream.{
  Bytes, Outcome, done, bad_signature, io_error, overrun, stalled, Reader, ◌>>=◌, ok,
  verify_signature,
}
use libblocxx_deb.Serialization.Values.{
  String, write_string, read_string, read_enum, read_enum_from, caught,
}
use libblocxx_deb.Serialization.Values.Progress.{
  Takes, Ends, after-Ends, verify_signature-Ends, read_string-Takes, read_string-Ends,
}
use libblocxx_deb.Serialization.Values.RoundTrip.{
  Fits, read_string-write_string, verify_signature-cons, verify_signature-other,
}

abbrev pub write_strings : List String → Bytes
write_strings [] = []
write_strings (x ∷ xs) = write_string x ++ write_strings xs

written : (x : String) → 1 ≤ length (write_string x)
unfolding write_string
written x = omega arith

read_string-other :
    (other : ℕ) (rest : Bytes)
    → (other == 106) ≡ false
    → read_string (other ∷ rest) ≡ bad_signature rest
unfolding read_string
read_string-other other rest h = rw (verify_signature-other 106 other rest h) refl

-- The turns that the texts take, and the last one.
read_enum_from_lem :
    (xs : List String) (other : ℕ) (rest : Bytes) (fuel : ℕ)
    → All Fits xs
    → (other == 106) ≡ false
    → length xs < fuel
    → read_enum_from fuel read_string 154 (write_strings xs ++ other ∷ 154 ∷ rest) ≡ done xs rest
read_enum_from_lem xs other rest zero h o f = absurd (omega arith)
read_enum_from_lem [] other rest (suc fuel) h o f =
    rw (read_string-other other (154 ∷ rest) o, verify_signature-cons 154 rest) refl
read_enum_from_lem (x ∷ xs) other rest (suc fuel) h o f =
    rw
      (
        append_assoc (write_string x) (write_strings xs) (other ∷ 154 ∷ rest),
        read_string-write_string x (write_strings xs ++ other ∷ 154 ∷ rest) h.0,
        read_enum_from_lem xs other rest fuel h.1 o (omega arith),
      )
      refl

length-write_strings : (xs : List String) → length xs ≤ length (write_strings xs)
length-write_strings [] = omega arith
length-write_strings (x ∷ xs) =
    omega
      (arith, written x, length-append (write_string x) (write_strings xs), length-write_strings xs)

-- `readEnum` reads the texts that were written after the begin mark, up to a byte that is no
-- signature of a text; it takes that byte and the end mark behind it. Each text has fewer bytes
-- than 2 ^ 32 - 1.
pub read_enum-write_strings :
    (xs : List String) (other : ℕ) (rest : Bytes)
    → All Fits xs
    → other ≢ 106
    → read_enum read_string 115 154 (115 ∷ write_strings xs ++ other ∷ 154 ∷ rest) ≡ done xs rest
unfolding read_enum
read_enum-write_strings xs other rest h o =
    rw (verify_signature-cons 115 (write_strings xs ++ other ∷ 154 ∷ rest)) (
      read_enum_from_lem xs other rest (suc (length (write_strings xs ++ other ∷ 154 ∷ rest))) h
        (ground arith)
        (omega
          (arith, length-append (write_strings xs) (other ∷ 154 ∷ rest), length-write_strings xs)))

caught-Ends :
    {A B : Type 0} (o : Outcome A) (handler : Reader B) (f : A → Reader B)
    → o ≢ stalled
    → ((r : Bytes) → handler r ≢ stalled)
    → ((a : A) (r : Bytes) → o ≡ done a r → f a r ≢ stalled)
    → caught o handler f ≢ stalled
caught-Ends (done a r) handler f h k g = g a r refl
caught-Ends (bad_signature r) handler f h k g = k r
caught-Ends io_error handler f h k g = λ p. cc p
caught-Ends overrun handler f h k g = λ p. cc p
caught-Ends stalled handler f h k g = λ p. h refl

read_enum_from-Ends :
    {A : Type 0} (m : Reader A) (end_sig fuel : ℕ) (s : Bytes)
    → Takes m
    → Ends m
    → length s < fuel
    → read_enum_from fuel m end_sig s ≢ stalled
read_enum_from-Ends m end_sig zero s t e f = absurd (omega arith)
read_enum_from-Ends m end_sig (suc fuel) s t e f =
    caught-Ends (m s) (do _ ← verify_signature end_sig; ok [])
      (λ x. do xs ← read_enum_from fuel m end_sig; ok (x ∷ xs)) (e s)
      (λ r.
        after-Ends (verify_signature end_sig r) (λ _. ok []) (verify_signature-Ends end_sig r)
          (λ a q z. cc z))
      (λ x r p.
        after-Ends (read_enum_from fuel m end_sig r) (λ xs. ok (x ∷ xs))
          (read_enum_from-Ends m end_sig fuel r t e (omega (arith, t s r x p))) (λ a q z. cc z))

-- The loop of `readEnum` comes to an end on every stream if the reader does and takes at least one
-- byte for each value.
pub read_enum-Ends :
    {A : Type 0} (m : Reader A) (begin_sig end_sig : ℕ) (s : Bytes)
    → Takes m
    → Ends m
    → read_enum m begin_sig end_sig s ≢ stalled
unfolding read_enum
read_enum-Ends m begin_sig end_sig s t e =
    after-Ends (verify_signature begin_sig s) (λ _ r. read_enum_from (suc (length r)) m end_sig r)
      (verify_signature-Ends begin_sig s)
      (λ _ r. read_enum_from-Ends m end_sig (suc (length r)) r t e (omega arith))

-- Reading an enumeration of texts comes to an end on every stream.
pub read_enum-read_string-Ends :
    (begin_sig end_sig : ℕ) → Ends (read_enum read_string begin_sig end_sig)
read_enum-read_string-Ends begin_sig end_sig s =
    read_enum-Ends read_string begin_sig end_sig s read_string-Takes read_string-Ends
