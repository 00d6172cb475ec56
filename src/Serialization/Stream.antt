-- ===== src/Serialization/Stream.antt =====
-- src/blocxx/BinarySerialization.cpp: bytes to and from a stream, and the lengths before values. A
-- stream that is read is the bytes that are still in it; what is written is a list of bytes.
use libblocxx_deb.Prelude.{
  ℕ, zero, suc, ◌^◌, ◌%◌, List, [], ◌∷◌, bit_and, bit_or, if◌then◌else◌, ltb, leb, ◌==◌, length,
  take, drop,
}
use libblocxx_deb.Prelude.Bits.{◌<<◌, ◌>>◌}

abbrev pub Bytes : Type 0
Bytes = List ℕ

-- A value and the stream behind it, a `BadSignatureException` with the stream as it is left, an
-- `IOException`, a store past the end of the buffer, or no end.
pub data Outcome (A : Type 0) : Type 0 where
  done : A → Bytes → Outcome A
  bad_signature : Bytes → Outcome A
  io_error : Outcome A
  overrun : Outcome A
  stalled : Outcome A

abbrev pub Reader : Type 0 → Type 0
Reader A = Bytes → Outcome A

abbrev pub after : {A B : Type 0} → Outcome A → (A → Reader B) → Outcome B
after (done a s) f = f a s
after (bad_signature s) f = bad_signature s
after io_error f = io_error
after overrun f = overrun
after stalled f = stalled

infixl 5 ◌>>=◌
abbrev pub ◌>>=◌ : {A B : Type 0} → Reader A → (A → Reader B) → Reader B
(m >>= f) s = after (m s) f

abbrev pub ok : {A : Type 0} → A → Reader A
ok a s = done a s

-- `read` of that many bytes.
unfoldable pub read : ℕ → Reader Bytes
read n s = if leb n (length s) then done (take n s) (drop n s) else io_error

abbrev pub first : Bytes → ℕ
first [] = 0
first (b ∷ s) = b

abbrev pub read_byte : Reader ℕ
read_byte = do s ← read 1; ok (first s)

unfoldable pub verify_signature : ℕ → Reader (Unit {0})
verify_signature valid_sig = do
  val ← read_byte
  if val == valid_sig then ok tt else (λ s. bad_signature s)

-- The last `n` bytes of a number, the lowest one written last.
abbrev pub octets : ℕ → ℕ → Bytes → Bytes
octets zero len net = net
octets (suc n) len net = octets n (len >> 8) (bit_and len 255 ∷ net)

abbrev pub length_length : ℕ → ℕ
length_length len =
    if ltb len (1 << 8)
    then 1
    else if ltb len (1 << 16)
    then 2
    else if ltb len (1 << 24)
    then 3
    else 4

unfoldable pub write_len : ℕ → Bytes
write_len len =
    if ltb len 128
    then len ∷ []
    else bit_or (length_length len) 128 ∷ octets (length_length len) len []

abbrev pub join : ℕ → Bytes → ℕ
join len [] = len
join len (b ∷ net) = join (bit_or ((len << 8) % 2 ^ 32) b) net

-- The length that the first byte tells, or the number of bytes that follow for it.
abbrev pub len_from : ℕ → Reader ℕ
len_from lc =
    if bit_and lc 128 == 0
    then ok lc
    else if ltb 4 (bit_and lc 127)
    then (λ s. io_error)
    else (do net ← read (bit_and lc 127); ok (join 0 net))

unfoldable pub read_len : Reader ℕ
read_len = do lc ← read_byte; len_from lc
