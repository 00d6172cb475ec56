-- ===== src/Serialization/Values.antt =====
-- src/blocxx/BinarySerialization.hpp: numbers, truth values, texts and arrays of texts, with
-- src/blocxx/String.cpp and Bool.cpp; the enumeration of values up to an end mark.
pub mod Sizes
pub mod RoundTrip
pub mod Progress
pub mod Enumeration
pub mod Buffers
mod Tests
use libblocxx_deb.Prelude.{
  ℕ, zero, suc, ◌+◌, ◌^◌, ◌%◌, Bool, true, false, List, [], ◌∷◌, ◌++◌, Option, none, some,
  if◌then◌else◌, leb, ltb, ◌==◌, not, length, take, drop, min,
}
use libblocxx_deb.Serialization.Stream.{
  Bytes, Outcome, done, bad_signature, io_error, overrun, stalled, Reader, ◌>>=◌, after, ok, read,
  read_byte, verify_signature, octets, join, write_len, read_len,
}

abbrev pub String : Type 0
String = Bytes

-- A number of `w` bytes in network order.
unfoldable pub write_number : ℕ → ℕ → Bytes
write_number w val = octets w val []

unfoldable pub read_number : ℕ → Reader ℕ
read_number w = do net ← read w; ok (join 0 net)

abbrev pub write_object_bool : Bool → Bytes
write_object_bool true = 1 ∷ []
write_object_bool false = 0 ∷ []

abbrev pub read_object_bool : Reader Bool
read_object_bool = do v ← read_byte; ok (not (v == 0))

-- The length of a text as a word of 32 bits; no more bytes than that are written.
unfoldable pub write_object : String → Bytes
write_object s =
    let len = length s % 2 ^ 32 in write_len len ++ (if len == 0 then [] else take len s)

-- The bytes go into a buffer of `size`, and a zero behind them.
abbrev pub read_into : ℕ → ℕ → Reader String
read_into size len s =
    if leb (min len (length s)) size
    then (if leb len (length s)
        then (if ltb len size then done (take len s) (drop len s) else overrun)
        else io_error)
    else overrun

unfoldable pub read_object : Reader String
read_object = do len ← read_len; read_into ((len + 1) % 2 ^ 32) len

unfoldable pub write_bool : Bool → Bytes
write_bool arg = 104 ∷ write_object_bool arg

unfoldable pub read_bool : Reader Bool
read_bool = do _ ← verify_signature 104; read_object_bool

unfoldable pub write_string : String → Bytes
write_string str = 106 ∷ write_object str

unfoldable pub read_string : Reader String
read_string = do _ ← verify_signature 106; read_object

abbrev pub write_each : List String → Bytes
write_each [] = []
write_each (x ∷ a) = write_object x ++ write_each a

unfoldable pub write_array : List String → Bytes
write_array a = let len = length a % 2 ^ 32 in write_len len ++ write_each (take len a)

abbrev pub read_each : ℕ → Reader (List String)
read_each zero = ok []
read_each (suc n) = do x ← read_object; a ← read_each n; ok (x ∷ a)

unfoldable pub read_array : Reader (List String)
read_array = do len ← read_len; read_each len

unfoldable pub write_string_array : List String → Bytes
write_string_array stra = 107 ∷ write_array stra

unfoldable pub read_string_array : Reader (List String)
read_string_array = do _ ← verify_signature 107; read_array

-- Through a pointer that may be null.
unfoldable pub write_string_array_or_null : Option (List String) → Bytes
write_string_array_or_null none = write_bool true
write_string_array_or_null (some property_list) =
    write_bool false ++ write_string_array property_list

-- `try` with a handler of the `BadSignatureException`; behind the `try` the run goes on with `f`.
abbrev pub caught : {A B : Type 0} → Outcome A → Reader B → (A → Reader B) → Outcome B
caught (done x s) handler f = f x s
caught (bad_signature s) handler f = handler s
caught io_error handler f = io_error
caught overrun handler f = overrun
caught stalled handler f = stalled

-- The loop of `readEnum`: a signature that `read` refuses ends it, and the end mark is behind.
abbrev pub read_enum_from : {A : Type 0} → ℕ → Reader A → ℕ → Reader (List A)
read_enum_from zero read_one end_sig s = stalled
read_enum_from (suc fuel) read_one end_sig s =
    caught (read_one s) (do _ ← verify_signature end_sig; ok [])
      (λ x. do xs ← read_enum_from fuel read_one end_sig; ok (x ∷ xs))

-- One turn for each byte, and one for the end.
unfoldable pub read_enum : {A : Type 0} → Reader A → ℕ → ℕ → Reader (List A)
read_enum read_one begin_sig end_sig = do
  _ ← verify_signature begin_sig
  λ s. read_enum_from (suc (length s)) read_one end_sig s
