-- ===== src/Serialization/Values/Tests.antt =====
-- Values written and read back.
use libblocxx_deb.Prelude.{◌-◌, ◌^◌, ◌≡◌, ◌≢◌, refl, ◌⊎◌, [], ◌∷◌, ◌++◌, arith}
use libblocxx_deb.Serialization.Stream.{
  done, overrun, io_error, read, read_len, write_len, verify_signature,
}
use libblocxx_deb.Serialization.Values.{
  String, write_string, read_string, write_object, read_object, write_string_array,
  read_string_array, read_enum,
}
use libblocxx_deb.Serialization.Values.RoundTrip.{read_string_array-write_string_array}
use libblocxx_deb.Serialization.Values.Enumeration.{write_strings, read_enum-write_strings}
use libblocxx_deb.Serialization.Values.Buffers.{read_object-Overruns}

-- The text "abc", and what is behind it.
abbrev abc : String
abc = 97 ∷ 98 ∷ 99 ∷ []

write_len_400 : write_len 400 ≡ 130 ∷ 1 ∷ 144 ∷ []
unfolding write_len
write_len_400 = refl

-- A length of five bytes is too long.
length_too_long : read_len (133 ∷ 0 ∷ 0 ∷ 0 ∷ 0 ∷ 7 ∷ []) ≡ io_error
unfolding read_len read
length_too_long = refl

write_abc : write_string abc ≡ 106 ∷ 3 ∷ 97 ∷ 98 ∷ 99 ∷ []
unfolding write_string write_object write_len
write_abc = refl

read_short : read_string (106 ∷ 3 ∷ 97 ∷ 98 ∷ []) ≡ io_error
unfolding read_string verify_signature read_object read_len read
read_short = refl

read_string_array-write_string_array_example :
    read_string_array (write_string_array (abc ∷ [] ∷ []) ++ abc) ≡ done (abc ∷ [] ∷ []) abc
read_string_array-write_string_array_example =
    read_string_array-write_string_array (abc ∷ [] ∷ []) abc (omega arith)
      (omega arith, (omega arith, tt))

read_enum-write_strings_example :
    read_enum read_string 115 154 (115 ∷ write_strings (abc ∷ abc ∷ []) ++ 154 ∷ 154 ∷ abc)
    ≡ done (abc ∷ abc ∷ []) abc
read_enum-write_strings_example =
    read_enum-write_strings (abc ∷ abc ∷ []) 154 abc (omega arith, (omega arith, tt)) (omega arith)

read_object-Overruns_example :
    (read_object (write_len (2 ^ 32 - 1) ++ 97 ∷ []) ≡ overrun)
    × ((3 ≡ 2 ^ 32 - 1) ⊎ (read_object (write_len 3 ++ []) ≢ overrun))
read_object-Overruns_example = read_object-Overruns 3 97 [] (omega arith)
