-- ===== src/Serialization/Values/Progress.antt =====
-- What readers take of a stream, and that they end.
use libblocxx_deb.Prelude.{
  bit_and, ℕ, ◌+◌, ◌-◌, ◌^◌, ◌%◌, ◌<◌, ◌≤◌, ◌≡◌, ◌≢◌, refl, ap, [], ◌∷◌, if◌then◌else◌, arith, ◌==◌,
  length, length-drop,
}
use libblocxx_deb.Serialization.Stream.{
  Bytes, Outcome, done, bad_signature, io_error, overrun, stalled, Reader, after, ok, read,
  verify_signature, read_byte, first, read_len, len_from, join,
}
use libblocxx_deb.Serialization.Values.{read_object, read_into, read_string}

-- A reader that takes at least one byte for each value.
abbrev pub Takes : {A : Type 0} → Reader A → Type 0
Takes {A} m = (s r : Bytes) (x : A) → m s ≡ done x r → length r < length s

-- It also ends.
abbrev pub Ends : {A : Type 0} → Reader A → Type 0
Ends m = (s : Bytes) → m s ≢ stalled

pub after-Ends :
    {A B : Type 0} (o : Outcome A) (f : A → Reader B)
    → o ≢ stalled
    → ((a : A) (r : Bytes) → f a r ≢ stalled)
    → after o f ≢ stalled
after-Ends (done a r) f h k = k a r
after-Ends (bad_signature r) f h k = λ p. cc p
after-Ends io_error f h k = λ p. cc p
after-Ends overrun f h k = λ p. cc p
after-Ends stalled f h k = λ p. h refl

pub verify_signature-Ends : (sig : ℕ) (s : Bytes) → verify_signature sig s ≢ stalled
unfolding verify_signature read
verify_signature-Ends sig s = λ p. ground arith

-- What a reader leaves is no longer than what it had.
abbrev Shortens : {A : Type 0} → Outcome A → ℕ → Type 0
Shortens {A} o n = (x : A) (r : Bytes) → o ≡ done x r → length r ≤ n

after-Shortens :
    {A B : Type 0} (o : Outcome A) (f : A → Reader B) (n : ℕ)
    → Shortens o n
    → ((a : A) (r : Bytes) → Shortens (f a r) (length r))
    → Shortens (after o f) n
after-Shortens (done a s) f n h k x r p = omega (arith, h a s refl, k a s x r p)
after-Shortens (bad_signature s) f n h k x r p = absurd (cc p)
after-Shortens io_error f n h k x r p = absurd (cc p)
after-Shortens overrun f n h k x r p = absurd (cc p)
after-Shortens stalled f n h k x r p = absurd (cc p)

abbrev length_left : {A : Type 0} → Outcome A → ℕ
length_left (done x r) = length r
length_left (bad_signature r) = 0
length_left io_error = 0
length_left overrun = 0
length_left stalled = 0

ok-Shortens : {A : Type 0} (a : A) (s : Bytes) → Shortens (ok a s) (length s)
ok-Shortens a s x r p = omega (arith, ap length_left p)

read-Shortens : (n : ℕ) (s : Bytes) → Shortens (read n s) (length s - n)
unfolding read
read-Shortens n s x r p = ground (arith, length-drop n s)

read_into-Shortens : (size n : ℕ) (s : Bytes) → Shortens (read_into size n s) (length s)
read_into-Shortens size n s x r p = ground (arith, length-drop n s)

verify_signature-Shortens : (sig : ℕ) (s : Bytes) → Shortens (verify_signature sig s) (length s - 1)
unfolding verify_signature
verify_signature-Shortens sig s =
    after-Shortens (read_byte s) (λ val. if val == sig then ok tt else (λ s. bad_signature s))
      (length s - 1)
      (after-Shortens (read 1 s) (λ b. ok (first b)) (length s - 1) (read-Shortens 1 s)
        (λ a r. ok-Shortens (first a) r))
      (λ a r x q p. ground arith)

read_then :
    (lc : ℕ) (s : Bytes)
    → Shortens (after (read (bit_and lc 127) s) (λ net. ok (join 0 net))) (length s)
read_then lc s =
    after-Shortens (read (bit_and lc 127) s) (λ net. ok (join 0 net)) (length s)
      (λ x r p. omega (arith, read-Shortens (bit_and lc 127) s x r p))
      (λ a r. ok-Shortens (join 0 a) r)

len_from-Shortens : (lc : ℕ) (s : Bytes) → Shortens (len_from lc s) (length s)
len_from-Shortens lc s x r p = ground (arith, read_then lc s x r)

read_len-Shortens : (s : Bytes) → Shortens (read_len s) (length s)
unfolding read_len
read_len-Shortens s =
    after-Shortens (read_byte s) len_from (length s)
      (after-Shortens (read 1 s) (λ b. ok (first b)) (length s)
        (λ x r p. omega (arith, read-Shortens 1 s x r p)) (λ a r. ok-Shortens (first a) r))
      len_from-Shortens

read_object-Shortens : (s : Bytes) → Shortens (read_object s) (length s)
unfolding read_object
read_object-Shortens s =
    after-Shortens (read_len s) (λ len. read_into ((len + 1) % 2 ^ 32) len) (length s)
      (read_len-Shortens s) (λ n r. read_into-Shortens ((n + 1) % 2 ^ 32) n r)

pub read_string-Takes : Takes read_string
unfolding read_string verify_signature read
read_string-Takes [] r x p = absurd (cc p)
read_string-Takes (b ∷ s) r x p = omega (
  arith,
  after-Shortens (verify_signature 106 (b ∷ s)) (λ _. read_object) (length (b ∷ s) - 1)
      (verify_signature-Shortens 106 (b ∷ s)) (λ _ q. read_object-Shortens q) x r p,
)

read-Ends : (n : ℕ) → Ends (read n)
unfolding read
read-Ends n s = λ p. ground arith

len_from-Ends : (lc : ℕ) → Ends (len_from lc)
len_from-Ends lc s = λ p. ground (
  arith,
  after-Ends (read (bit_and lc 127) s) (λ net. ok (join 0 net)) (read-Ends (bit_and lc 127) s)
      (λ a r z. cc z),
)

read_into-Ends : (size n : ℕ) → Ends (read_into size n)
read_into-Ends size n s = λ p. ground arith

read_object-Ends : Ends read_object
unfolding read_object read_len
read_object-Ends s =
    after-Ends (read_len s) (λ len. read_into ((len + 1) % 2 ^ 32) len)
      (after-Ends (read_byte s) len_from
        (after-Ends (read 1 s) (λ b. ok (first b)) (read-Ends 1 s) (λ a r z. cc z)) len_from-Ends)
      (λ n r. read_into-Ends ((n + 1) % 2 ^ 32) n r)

pub read_string-Ends : Ends read_string
unfolding read_string
read_string-Ends s =
    after-Ends (verify_signature 106 s) (λ _. read_object) (verify_signature-Ends 106 s)
      (λ _ r. read_object-Ends r)
