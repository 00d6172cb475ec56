-- ===== src/LogPattern/Laws.antt =====
-- What converters write: its width, and what becomes of it.
use libblocxx_deb.Prelude.{
  ℕ, zero, suc, ◌+◌, ◌-◌, ◌^◌, ◌≤◌, ◌<◌, ◌≡◌, refl, true, false, List, [], ◌∷◌, ◌++◌, Option, none,
  some, arith, Bool-cases, inl, inr, length, is_some, drop, take, length-drop, length-take,
  length-append, length-replicate, ap,
}
use mathlib.Core.Option
use mathlib.Core.List.{append-nil}
use libblocxx_deb.Prelude.Int.{ℤ, pos, negsuc}
use libblocxx_deb.CmdLine.Options.{String, empty}
use libblocxx_deb.LogPattern.Converters.{
  Justification, left_justify, right_justify, Formatting, formatted, no_minimum, least, spaces,
  cut_to, fill_up, index_of_text, cdata_start, cdata_end, cdata_embedded_end, xml_loop, xml_body,
  xml_text, xml_whole, Converter, LogMessage, Context, convert, formatting_of, format_message,
  append_both, literal, message_converter, xml_message_converter, thread_converter, pid_converter,
  component_converter, file_location, full_location, line_location, method_location,
  category_converter, relative_time, date_converter,
}

length-cut_to :
    (j : Justification) (width : ℕ) (buf : String)
    → width < length buf
    → length (cut_to j width buf) ≡ width
length-cut_to left_justify width buf h = omega (arith, h, length-take width buf)
length-cut_to right_justify width buf h = omega (arith, h, length-drop (length buf - width) buf)

length-spaces : (n : ℕ) → length (spaces n) ≡ n
length-spaces n = length-replicate {A = ℕ} n b' '

length-fill_up :
    (j : Justification) (width : ℕ) (buf : String)
    → length buf < width
    → length (fill_up j width buf) ≡ width
length-fill_up left_justify width buf h =
    omega (
      arith,
      h,
      length-append buf (spaces (width - length buf)),
      length-spaces (width - length buf),
    )
length-fill_up right_justify width buf h =
    omega (
      arith,
      h,
      length-append (spaces (width - length buf)) buf,
      length-spaces (width - length buf),
    )

least-unset : (m : ℤ) → no_minimum m ≡ true → least m ≡ 0
least-unset (pos n) h = absurd (cc h)
least-unset (negsuc n) h = refl

length-empty : (s : String) → empty s ≡ true → length s ≡ 0
length-empty [] h = refl
length-empty (a ∷ s) h = absurd (cc h)

-- What a converter adds to the output has at least as many characters as the least width and at
-- most as many as the largest, when these are in order and what it writes is not longer than an
-- `int` can count.
pub formatted-Fits :
    (f : Formatting) (buf : String)
    → least f.min_width ≤ f.max_width
    → length buf < 2 ^ 31
    → (least f.min_width ≤ length (formatted f buf)) × (length (formatted f buf) ≤ f.max_width)
unfolding formatted
formatted-Fits f buf o h = ground (
  arith,
  o,
  h,
  least-unset f.min_width,
  length-empty buf,
  length-spaces (least f.min_width),
  length-cut_to f.justification f.max_width buf,
  length-fill_up f.justification (least f.min_width) buf,
)

is_some-map {ℓ κ} :
    {A : Type ℓ} {B : Type κ} (f : A → B) (o : Option A)
    → is_some o ≡ true
    → is_some (Option.map f o) ≡ true
is_some-map f none h = absurd (cc h)
is_some-map f (some a) h = refl

nonempty-lt : (s : String) → empty s ≡ false → 0 < length s
nonempty-lt [] h = absurd (cc h)
nonempty-lt (a ∷ s) h = omega arith

xml_loop-Ends :
    (fuel : ℕ) (msg : String) (o : Option ℕ)
    → length msg < fuel
    → is_some (xml_loop fuel msg o) ≡ true
unfolding xml_loop
xml_loop-Ends zero msg o h = absurd (omega (arith, h))
xml_loop-Ends (suc fuel) msg none h = refl
xml_loop-Ends (suc fuel) msg (some end) h =
    let start = drop (end + 3) msg in
    elim (Bool-cases (empty start)) [
      | inl e ↦ rw e refl
      | inr e ↦ rw e (
          is_some-map (λ t. take end msg ++ cdata_embedded_end ++ t)
            (xml_loop fuel start (index_of_text cdata_end start))
            (xml_loop-Ends fuel start (index_of_text cdata_end start)
              (omega (arith, h, length-drop (end + 3) msg, nonempty-lt start e))))
    ]

xml_body-Ends : (msg : String) → is_some (xml_body msg) ≡ true
unfolding xml_body
xml_body-Ends msg = elim (Bool-cases (empty msg)) [
  | inl e ↦ rw e refl
  | inr e ↦ rw e (
      is_some-map (λ t. xml_whole msg (index_of_text cdata_end msg) ++ t)
        (xml_loop (suc (length msg)) msg (index_of_text cdata_end msg))
        (xml_loop-Ends (suc (length msg)) msg (index_of_text cdata_end msg) (omega arith)))
]

xml_text-Ends : (msg : String) → is_some (xml_text msg) ≡ true
xml_text-Ends msg =
    is_some-map (λ t. cdata_start ++ t ++ cdata_end) (xml_body msg) (xml_body-Ends msg)

convert-Ends : (cx : Context) (m : LogMessage) (c : Converter) → is_some (convert cx m c) ≡ true
convert-Ends cx m (literal t) = refl
convert-Ends cx m (message_converter f) = refl
convert-Ends cx m (xml_message_converter f) = xml_text-Ends m.message
convert-Ends cx m (thread_converter f) = refl
convert-Ends cx m (pid_converter f) = refl
convert-Ends cx m (component_converter f precision) = refl
convert-Ends cx m (file_location f) = refl
convert-Ends cx m (full_location f) = refl
convert-Ends cx m (line_location f) = refl
convert-Ends cx m (method_location f) = refl
convert-Ends cx m (category_converter f) = refl
convert-Ends cx m (relative_time f) = refl
convert-Ends cx m (date_converter f format) = refl

append_both-Ends :
    (a b : Option String) → is_some a ≡ true → is_some b ≡ true → is_some (append_both a b) ≡ true
append_both-Ends none b h k = absurd (cc h)
append_both-Ends (some a) none h k = absurd (cc k)
append_both-Ends (some a) (some b) h k = refl

-- Every message is written to its end, whatever the converters: the loop over the ends in a message
-- ends as well.
pub format_message-Ends :
    (cx : Context) (m : LogMessage) (cs : List Converter) → is_some (format_message cx m cs) ≡ true
unfolding format_message
format_message-Ends cx m [] = refl
format_message-Ends cx m (c ∷ cs) =
    append_both-Ends (Option.map (formatted (formatting_of c)) (convert cx m c))
      (format_message cx m cs)
      (is_some-map (formatted (formatting_of c)) (convert cx m c) (convert-Ends cx m c))
      (format_message-Ends cx m cs)

xml_loop-once :
    (fuel : ℕ) (msg : String) (end : ℕ)
    → index_of_text cdata_end (drop (end + 3) msg) ≡ none
    → xml_loop (suc (suc fuel)) msg (some end) ≡ some (take end msg ++ cdata_embedded_end)
unfolding xml_loop
xml_loop-once fuel msg end h = elim (Bool-cases (empty (drop (end + 3) msg))) [
  | inl e ↦ rw h (rw e (ap some (append-nil (take end msg ++ cdata_embedded_end))))
  | inr e ↦ rw h (rw e (ap some (append-nil (take end msg ++ cdata_embedded_end))))
]

-- Of a message with "]]>" in it, the text behind the last one is not written: what is written is
-- the same whatever stands there.
pub xml_text-Forgets :
    (msg : String) (end : ℕ)
    → empty msg ≡ false
    → index_of_text cdata_end msg ≡ some end
    → index_of_text cdata_end (drop (end + 3) msg) ≡ none
    → xml_text msg ≡ some (cdata_start ++ (take end msg ++ cdata_embedded_end) ++ cdata_end)
unfolding xml_body
xml_text-Forgets [] end n h l = absurd (cc n)
xml_text-Forgets (a ∷ s) end n h l = rw h (rw (xml_loop-once (length s) (a ∷ s) end l) refl)
