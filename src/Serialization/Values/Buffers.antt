-- ===== src/Serialization/Values/Buffers.antt =====
-- src/blocxx/String.cpp: where the buffer of a text that is read ends.
use libblocxx_deb.Prelude.{
  ℕ, ◌+◌, ◌-◌, ◌^◌, ◌<◌, ◌≡◌, ◌≢◌, ◌∷◌, ◌++◌, arith, ltb, ltb→lt, ◌⊎◌, inl, inr, Bool-cases,
}
use libblocxx_deb.Serialization.Stream.{Bytes, overrun, write_len}
use libblocxx_deb.Serialization.Values.{read_object, read_into}
use libblocxx_deb.Serialization.Values.Sizes.{read_len-write_len}
use libblocxx_deb.Serialization.Values.RoundTrip.{small}

read_into-fits : (size n : ℕ) (s : Bytes) → n < size → read_into size n s ≢ overrun
read_into-fits size n s h = λ p. ground arith

-- `readObject` stores past the end of its buffer where the length 2 ^ 32 - 1, which wraps the size
-- of the buffer around to 0, and a byte are on the stream. It does not where the length is another
-- number of 32 bits, as `writeLen` writes it.
pub read_object-Overruns :
    (n b : ℕ) (rest : Bytes)
    → n < 2 ^ 32
    → (read_object (write_len (2 ^ 32 - 1) ++ b ∷ rest) ≡ overrun)
      × ((n ≡ 2 ^ 32 - 1) ⊎ (read_object (write_len n ++ rest) ≢ overrun))
unfolding read_object
read_object-Overruns n b rest h = (
  rw (read_len-write_len (2 ^ 32 - 1) (b ∷ rest) (omega arith)) (ground arith),
  elim (Bool-cases (ltb n (2 ^ 32 - 1))) [
    | inl less ↦ inr (
        rw (read_len-write_len n rest h) (
          rw (small (n + 1) (omega (arith, ltb→lt n (2 ^ 32 - 1) less)))
            (read_into-fits (n + 1) n rest (omega arith))))
    | inr last ↦ inl (ground arith)
  ],
)
