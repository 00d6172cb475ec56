-- ===== src/Serialization/Values/RoundTrip.antt =====
-- What the writers write, the readers read back, whatever is behind it on the stream.
use libblocxx_deb.Prelude.{
  ℕ, suc, ◌+◌, ◌-◌, ◌^◌, ◌%◌, ◌<◌, ◌≡◌, refl, ap, Bool, true, false, List, [], ◌∷◌, ◌++◌,
  if◌then◌else◌, arith, ◌==◌, length, take, drop-append, take-append, le→leb, length-append, All,
  min, ==_iff, lt→ltb,
}
use mathlib.Core.List.{append_assoc}
use libblocxx_deb.Serialization.Stream.{
  Bytes, done, bad_signature, read, verify_signature, write_len,
}
use libblocxx_deb.Serialization.Values.{
  String, write_number, read_number, write_object, read_object, read_into, write_bool, read_bool,
  write_string, read_string, write_each, read_each, write_array, read_array, write_string_array,
  read_string_array,
}
use libblocxx_deb.Serialization.Values.Sizes.{read_len-write_len, read_long, some_bytes}

-- A number of up to 32 bits comes back from its bytes in network order.
pub read_number-write_number :
    (w n : ℕ) (rest : Bytes)
    → n < 256 ^ w
    → n < 2 ^ 32
    → read_number w (write_number w n ++ rest) ≡ done n rest
unfolding read_number write_number
read_number-write_number w n rest h k = read_long w n rest h k

pub verify_signature-cons :
    (sig : ℕ) (rest : Bytes) → verify_signature sig (sig ∷ rest) ≡ done tt rest
unfolding verify_signature read
verify_signature-cons sig rest = rw (some_bytes rest, (==_iff sig sig).1 refl) refl

pub verify_signature-other :
    (sig b : ℕ) (rest : Bytes)
    → (b == sig) ≡ false
    → verify_signature sig (b ∷ rest) ≡ bad_signature rest
unfolding verify_signature read
verify_signature-other sig b rest h = rw (some_bytes rest, h) refl

-- A text that leaves room for the zero behind it.
abbrev pub Fits : String → Type 0
Fits s = length s < 2 ^ 32 - 1

read_into-append :
    (s rest : Bytes) (size : ℕ)
    → length s < size
    → read_into size (length s) (s ++ rest) ≡ done s rest
read_into-append s rest size h =
    rw
      (
        take-append s rest,
        drop-append s rest,
        le→leb (length s) (length (s ++ rest)) (omega (arith, length-append s rest)),
        le→leb (min (length s) (length (s ++ rest))) size (omega arith),
        lt→ltb (length s) size h,
      )
      refl

take_all {ℓ} : {A : Type ℓ} (s : List A) → take (length s) s ≡ s
take_all [] = refl
take_all (b ∷ s) = ap (◌∷◌ b) (take_all s)

==_suc : (n : ℕ) → (suc n == 0) ≡ false
==_suc n = ground arith

payload : (s : String) → (if length s == 0 then [] else take (length s) s) ≡ s
payload [] = refl
payload (b ∷ s) = rw (==_suc (length s)) (take_all (b ∷ s))

pub small : (n : ℕ) → n < 2 ^ 32 → n % 2 ^ 32 ≡ n
small n h = omega arith

write_object_lem : (s : String) → Fits s → write_object s ≡ write_len (length s) ++ s
unfolding write_object
write_object_lem s h = rw (small (length s) (omega arith), payload s) refl

pub read_object-write_object :
    (s rest : Bytes) → Fits s → read_object (write_object s ++ rest) ≡ done s rest
unfolding read_object
read_object-write_object s rest h =
    rw
      (
        write_object_lem s h,
        append_assoc (write_len (length s)) s rest,
        read_len-write_len (length s) (s ++ rest) (omega arith),
        small (length s + 1) (omega arith),
      )
      (read_into-append s rest (length s + 1) (omega arith))

-- What `writeString` writes, `readString` reads back, and what is behind it on the stream stays,
-- for texts of fewer bytes than 2 ^ 32 - 1.
pub read_string-write_string :
    (s rest : Bytes) → Fits s → read_string (write_string s ++ rest) ≡ done s rest
unfolding read_string write_string
read_string-write_string s rest h =
    rw (verify_signature-cons 106 (write_object s ++ rest)) (read_object-write_object s rest h)

pub read_bool-write_bool :
    (b : Bool) (rest : Bytes) → read_bool (write_bool b ++ rest) ≡ done b rest
unfolding read_bool write_bool read verify_signature
read_bool-write_bool true rest = ground arith
read_bool-write_bool false rest = ground arith

read_each-write_each :
    (a : List String) (rest : Bytes)
    → All Fits a
    → read_each (length a) (write_each a ++ rest) ≡ done a rest
read_each-write_each [] rest h = refl
read_each-write_each (x ∷ a) rest h =
    rw
      (
        append_assoc (write_object x) (write_each a) rest,
        read_object-write_object x (write_each a ++ rest) h.0,
        read_each-write_each a rest h.1,
      )
      refl

-- What `writeStringArray` writes, `readStringArray` reads back, and what is behind it stays, for
-- fewer than 2 ^ 32 texts of fewer bytes than 2 ^ 32 - 1 each.
pub read_string_array-write_string_array :
    (a : List String) (rest : Bytes)
    → length a < 2 ^ 32
    → All Fits a
    → read_string_array (write_string_array a ++ rest) ≡ done a rest
unfolding read_string_array write_string_array read_array write_array
read_string_array-write_string_array a rest n h =
    rw
      (
        small (length a) n,
        take_all a,
        append_assoc (write_len (length a)) (write_each a) rest,
        verify_signature-cons 107 (write_len (length a) ++ (write_each a ++ rest)),
        read_len-write_len (length a) (write_each a ++ rest) n,
      )
      (read_each-write_each a rest h)
