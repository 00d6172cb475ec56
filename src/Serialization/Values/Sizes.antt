-- ===== src/Serialization/Values/Sizes.antt =====
-- The lengths before values: their octets, and what is read back.
use libblocxx_deb.Prelude.{
  ℕ, zero, suc, ◌+◌, ◌*◌, ◌/◌, ◌^◌, ◌%◌, ◌<◌, ◌≡◌, refl, ◌∙◌, ap, true, false, [], ◌∷◌, ◌++◌,
  bit_and, bit_or, arith, ltb, leb, length, drop-append, take-append, le→leb, length-append,
  Bool-cases, ltb→lt, inl, inr,
}
use libblocxx_deb.Prelude.Bits.{◌<<◌, ◌>>◌, bit_and_ones, bit_and_above, bit_or_disjoint}
use native.Mathlib.Nat.{pow-suc}
use libblocxx_deb.Serialization.Stream.{
  Bytes, done, after, ok, read, octets, join, write_len, read_len, length_length, len_from,
}

low_byte : (n : ℕ) → bit_and n 255 ≡ n % 256
low_byte n = bit_and_ones 8 n

-- One more byte of a number that has room for it.
next_byte : (len b : ℕ) → len < 2 ^ 24 → b < 256 → bit_or ((len << 8) % 2 ^ 32) b ≡ len * 256 + b
next_byte len b h k = ground (arith, bit_or_disjoint 8 len b)

length-octets : (k n : ℕ) (net : Bytes) → length (octets k n net) ≡ k + length net
length-octets zero n net = omega arith
length-octets (suc k) n net = omega (arith, length-octets k (n >> 8) (bit_and n 255 ∷ net))

-- The octets of a word, read from the highest one on.
pub join-octets :
    (k n : ℕ) (net : Bytes) → n < 256 ^ k → n < 2 ^ 32 → join 0 (octets k n net) ≡ join n net
join-octets zero n net h w = ap (λ m. join m net) (omega arith)
join-octets (suc k) n net h w =
    join-octets k (n / 256) (bit_and n 255 ∷ net) (omega (arith, pow-suc 256 k)) (omega arith)
    ∙ ap (λ m. join m net)
        (rw (low_byte n) (next_byte (n / 256) (n % 256) (omega arith) (omega arith) ∙ omega arith))

-- A read of exactly the bytes before the rest.
pub read-append : (xs rest : Bytes) → read (length xs) (xs ++ rest) ≡ done xs rest
unfolding read
read-append xs rest =
    rw
      (
        take-append xs rest,
        drop-append xs rest,
        le→leb (length xs) (length (xs ++ rest)) (omega (arith, length-append xs rest)),
      )
      refl

pub some_bytes : (rest : Bytes) → leb 1 (suc (length rest)) ≡ true
some_bytes rest = ground arith

pub length_of : (k n : ℕ) → k ≡ length (octets k n [])
length_of k n = omega (arith, length-octets k n [])

-- Each case of the length of a length.
pub read_long :
    (k n : ℕ) (rest : Bytes)
    → n < 256 ^ k
    → n < 2 ^ 32
    → after (read k (octets k n [] ++ rest)) (λ net. ok (join 0 net)) ≡ done n rest
read_long k n rest h w =
    ap (λ m. after (read m (octets k n [] ++ rest)) (λ net. ok (join 0 net))) (length_of k n)
    ∙ rw (read-append (octets k n []) rest) (ap (λ m. done m rest) (join-octets k n [] h w))

pub read_len-cons : (lc : ℕ) (rest : Bytes) → read_len (lc ∷ rest) ≡ len_from lc rest
unfolding read_len read
read_len-cons lc rest = rw (some_bytes rest) refl

read_len-short : (n : ℕ) (rest : Bytes) → n < 128 → read_len (n ∷ rest) ≡ done n rest
read_len-short n rest h = rw (read_len-cons n rest, bit_and_above 7 n h) refl

write_len-long :
    (k n : ℕ) → ltb n 128 ≡ false → length_length n ≡ k → write_len n ≡ bit_or k 128 ∷ octets k n []
unfolding write_len
write_len-long k n h e = rw (h, e) refl

-- A length is read back, and nothing of what is behind it.
pub read_len-write_len :
    (n : ℕ) (rest : Bytes) → n < 2 ^ 32 → read_len (write_len n ++ rest) ≡ done n rest
read_len-write_len n rest h = elim (Bool-cases (ltb n 128)) [
  | inl short ↦ unfold write_len in rw short (read_len-short n rest (ltb→lt n 128 short))
  | inr long ↦ elim (Bool-cases (ltb n 256)) [
    | inl one ↦
        rw (write_len-long 1 n long (rw one refl), read_len-cons 129 (octets 1 n [] ++ rest))
          (read_long 1 n rest (ltb→lt n 256 one) h)
    | inr more ↦ elim (Bool-cases (ltb n 65536)) [
      | inl two ↦
          rw
            (
              write_len-long 2 n long (rw (more, two) refl),
              read_len-cons 130 (octets 2 n [] ++ rest),
            )
            (read_long 2 n rest (ltb→lt n 65536 two) h)
      | inr most ↦ elim (Bool-cases (ltb n 16777216)) [
        | inl three ↦
            rw
              (
                write_len-long 3 n long (rw (more, most, three) refl),
                read_len-cons 131 (octets 3 n [] ++ rest),
              )
              (read_long 3 n rest (ltb→lt n 16777216 three) h)
        | inr four ↦
            rw
              (
                write_len-long 4 n long (rw (more, most, four) refl),
                read_len-cons 132 (octets 4 n [] ++ rest),
              )
              (read_long 4 n rest h h)
      ]
    ]
  ]
]
