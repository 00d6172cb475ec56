-- ===== src/Utf8/Ucs2.antt =====
-- src/blocxx/UTF8Utils.cpp: `StringToUCS2Common` and its two callers, and `UCS2ToString`.
pub mod Laws
use libblocxx_deb.Prelude.{
  ℕ, zero, suc, ◌%◌, ◌^◌, ◌||◌, Bool, true, false, List, [], ◌∷◌, ◌++◌, ◌==◌, if◌then◌else◌, drop,
  length,
}
use libblocxx_deb.Utf8.Table.{sequence_length}
use libblocxx_deb.Utf8.Codec.{byte_at, decode_two, decode_three, ucs4_to_utf8}

-- `overrun` is a read past the NUL that ends the string, which is undefined behaviour in C++;
-- `stuck` is a model loop that ran out of fuel.
pub data Conversion : Type 0 where
  converted : List ℕ → Conversion
  invalid_utf8 overrun stuck : Conversion

abbrev pub ucs2_replacement_char : ℕ
ucs2_replacement_char = 0xfffd

-- `Array<UInt16>::push_back`.
abbrev pub push_back : List ℕ → ℕ → List ℕ
push_back rval x = rval ++ (x % 2 ^ 16) ∷ []

-- The loop at `p`. A short sequence of two or three bytes that is not refused goes on after the
-- replacement: `p` is moved past the end, and is then read.
unfoldable pub string_to_ucs2_loop : ℕ → Bool → List ℕ → List ℕ → Conversion
string_to_ucs2_loop zero throw_exception p rval = stuck
string_to_ucs2_loop (suc fuel) throw_exception [] rval = converted rval
string_to_ucs2_loop (suc fuel) throw_exception (c0 ∷ q) rval =
    let p = c0 ∷ q in
    let after_one = string_to_ucs2_loop fuel throw_exception q (push_back rval c0) in
    let after_two =
      string_to_ucs2_loop fuel throw_exception (drop 2 p)
        (push_back rval (decode_two c0 (byte_at p 1))) in
    let after_three =
      string_to_ucs2_loop fuel throw_exception (drop 3 p)
        (push_back rval (decode_three c0 (byte_at p 1) (byte_at p 2))) in
    let skip_four =
      string_to_ucs2_loop fuel throw_exception (drop 4 p) (push_back rval ucs2_replacement_char) in
    let skip_one =
      string_to_ucs2_loop fuel throw_exception q (push_back rval ucs2_replacement_char) in
    if sequence_length c0 == 1
    then after_one
    else if sequence_length c0 == 2
    then (if byte_at p 1 == 0
        then (if throw_exception then invalid_utf8 else overrun)
        else after_two)
    else if sequence_length c0 == 3
    then (if (byte_at p 1 == 0) || (byte_at p 2 == 0)
        then (if throw_exception then invalid_utf8 else overrun)
        else after_three)
    else if sequence_length c0 == 4
    then (if throw_exception then invalid_utf8 else skip_four)
    else if throw_exception
    then invalid_utf8
    else skip_one

unfoldable pub string_to_ucs2_common : List ℕ → Bool → Conversion
string_to_ucs2_common input throw_exception =
    string_to_ucs2_loop (suc (length input)) throw_exception input []

unfoldable pub string_to_ucs2_replace_invalid : List ℕ → Conversion
string_to_ucs2_replace_invalid input = string_to_ucs2_common input false

unfoldable pub string_to_ucs2 : List ℕ → Conversion
string_to_ucs2 input = string_to_ucs2_common input true

-- The loop over the characters, on the bytes in the buffer so far.
unfoldable pub ucs2_to_string_loop : List ℕ → List ℕ → List ℕ
ucs2_to_string_loop [] sb = sb
ucs2_to_string_loop (x ∷ input) sb = ucs2_to_string_loop input (sb ++ ucs4_to_utf8 x)

unfoldable pub ucs2_to_string : List ℕ → List ℕ
unfolding ucs2_to_string_loop
ucs2_to_string input = ucs2_to_string_loop input []
