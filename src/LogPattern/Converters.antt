-- ===== src/LogPattern/Converters.antt =====
-- src/blocxx/LogMessagePatternFormatter.cpp: the converters and the widths of what they write.
use libblocxx_deb.Prelude.{
  ℕ, zero, suc, ◌+◌, ◌-◌, ◌*◌, ◌/◌, ◌%◌, ◌^◌, Bool, true, false, List, [], ◌∷◌, ◌++◌, Option, none,
  some, if◌then◌else◌, ◌&&◌, ltb, ◌==◌, length, take, drop, replicate,
}
use mathlib.Core.Option
use libblocxx_deb.Prelude.Int.{ℤ, pos, negsuc}
use libblocxx_deb.CmdLine.Options.{String, empty, starts_with}
use libblocxx_deb.CmdLine.Usage.{last_index_of}

pub data Justification : Type 0 where
  right_justify left_justify : Justification

pub record Formatting : Type 0 where
  pub min_width : ℤ
  pub max_width : ℕ
  pub justification : Justification

abbrev pub no_min_width : ℤ
no_min_width = negsuc 0

abbrev pub no_max_width : ℕ
no_max_width = 0x7FFFFFFF

abbrev pub new_formatting : Formatting
new_formatting = record {
  min_width = no_min_width;
  max_width = no_max_width;
  justification = right_justify;
}

pub record LogMessage : Type 0 where
  pub component : String
  pub category : String
  pub message : String
  pub filename : Option String
  pub fileline : ℤ
  pub methodname : Option String

-- What the converters take from elsewhere: numbers as text, the identities of the thread and of the
-- process, the time now and at the start, and `strftime` for the time now, into 255 bytes.
pub record Context : Type 0 where
  pub decimal : ℤ → String
  pub current_thread : ℕ
  pub getpid : ℕ
  pub now_seconds : ℕ
  pub now_microsecond : ℕ
  pub start_millis : ℕ
  pub strftime : String → String

pub data Converter : Type 0 where
  literal : String → Converter
  message_converter xml_message_converter thread_converter pid_converter : Formatting → Converter
  component_converter : Formatting → ℤ → Converter
  file_location full_location line_location method_location : Formatting → Converter
  category_converter relative_time : Formatting → Converter
  date_converter : Formatting → String → Converter

-- `indexOf` of a text.
abbrev pub index_of_text : String → String → Option ℕ
index_of_text t [] = if empty t then some 0 else none
index_of_text t (a ∷ s) =
    if starts_with t (a ∷ s) then some 0 else Option.map suc (index_of_text t s)

-- "<![CDATA[", "]]>" and "]]&gt;".
abbrev pub cdata_start : String
cdata_start = b'<' ∷ b'!' ∷ b'[' ∷ b'C' ∷ b'D' ∷ b'A' ∷ b'T' ∷ b'A' ∷ b'[' ∷ []

abbrev pub cdata_end : String
cdata_end = b']' ∷ b']' ∷ b'>' ∷ []

abbrev pub cdata_pseudo_end : String
cdata_pseudo_end = b']' ∷ b']' ∷ b'&' ∷ b'g' ∷ b't' ∷ b';' ∷ []

abbrev pub cdata_embedded_end : String
cdata_embedded_end = cdata_end ++ cdata_pseudo_end ++ cdata_start

-- The loop over the ends in a message, from `start` on, where `end` is the next one. `none` stands
-- for a loop that has not come to its end.
unfoldable pub xml_loop : ℕ → String → Option ℕ → Option String
xml_loop zero msg end = none
xml_loop (suc fuel) msg none = some []
xml_loop (suc fuel) msg (some end) =
    let start = drop (end + 3) msg in
    let rest = xml_loop fuel start (index_of_text cdata_end start) in
    Option.map (λ t. take end msg ++ cdata_embedded_end ++ t)
      (if empty start then some [] else rest)

abbrev pub xml_whole : String → Option ℕ → String
xml_whole msg none = msg
xml_whole msg (some end) = []

unfoldable pub xml_body : String → Option String
xml_body msg =
    let end = index_of_text cdata_end msg in
    if empty msg
    then some []
    else Option.map (λ t. xml_whole msg end ++ t) (xml_loop (suc (length msg)) msg end)

abbrev pub xml_text : String → Option String
xml_text msg = Option.map (λ t. cdata_start ++ t ++ cdata_end) (xml_body msg)

-- The text behind a dot that is looked for from `end - 1` on backwards, as often as the precision
-- says; from the end of the text on where `end` is 0.
abbrev pub dot_before : String → ℕ → Option ℕ
dot_before component zero = last_index_of b'.' (length component - 1) component
dot_before component (suc from) = last_index_of b'.' from component

unfoldable pub component_loop : ℕ → String → Option ℕ → String
component_loop i component none = component
component_loop zero component (some end) = drop (suc end) component
component_loop (suc i) component (some end) = component_loop i component (dot_before component end)

-- An empty component is written as it is: there is nothing to look for.
unfoldable pub component_text : ℤ → String → String
component_text (negsuc n) component = component
component_text (pos zero) component = component
component_text (pos (suc i)) [] = []
component_text (pos (suc i)) (a ∷ s) = component_loop (suc i) (a ∷ s) (some (length s))

abbrev pub or_nothing : Option String → String
or_nothing none = []
or_nothing (some t) = t

abbrev pub full_location_text : Context → LogMessage → Option String → String
full_location_text cx m none = []
full_location_text cx m (some filename) = filename ++ b'(' ∷ cx.decimal m.fileline ++ b')' ∷ []

unfoldable pub now_millis : Context → ℕ
now_millis cx = (cx.now_seconds * 1000 + cx.now_microsecond / 1000) % 2 ^ 64

unfoldable pub get_relative_time : Context → ℕ
get_relative_time cx = (now_millis cx + 2 ^ 64 - cx.start_millis) % 2 ^ 64

-- "%Q".
abbrev pub millis_mark : String
millis_mark = b'%' ∷ b'Q' ∷ []

abbrev pub escape_at : String → Option ℕ → String
escape_at format none = format
escape_at format (some i) = take i format ++ b'%' ∷ drop i format

-- The format that the constructor keeps.
unfoldable pub date_format : String → String
date_format format = escape_at format (index_of_text millis_mark format)

abbrev pub zeroes_before : ℕ → String
zeroes_before len = if len == 1 then b'0' ∷ b'0' ∷ [] else if len == 2 then b'0' ∷ [] else []

abbrev pub three_digits : String → String
three_digits millis = zeroes_before (length millis) ++ millis

abbrev pub millis_at : Context → String → Option ℕ → String
millis_at cx buf none = buf
millis_at cx buf (some p) =
    take p buf ++ three_digits (cx.decimal (pos (cx.now_microsecond / 1000))) ++ drop (p + 2) buf

unfoldable pub date_text : Context → String → String
date_text cx format =
    let buf = cx.strftime format in millis_at cx buf (index_of_text millis_mark buf)

-- What a converter writes.
abbrev pub convert : Context → LogMessage → Converter → Option String
convert cx m (literal t) = some t
convert cx m (message_converter f) = some m.message
convert cx m (xml_message_converter f) = xml_text m.message
convert cx m (thread_converter f) = some (cx.decimal (pos cx.current_thread))
convert cx m (pid_converter f) = some (cx.decimal (pos cx.getpid))
convert cx m (component_converter f precision) = some (component_text precision m.component)
convert cx m (file_location f) = some (or_nothing m.filename)
convert cx m (full_location f) = some (full_location_text cx m m.filename)
convert cx m (line_location f) = some (cx.decimal m.fileline)
convert cx m (method_location f) = some (or_nothing m.methodname)
convert cx m (category_converter f) = some m.category
convert cx m (relative_time f) = some (cx.decimal (pos (get_relative_time cx)))
convert cx m (date_converter f format) = some (date_text cx format)

abbrev pub formatting_of : Converter → Formatting
formatting_of (literal t) = new_formatting
formatting_of (message_converter f) = f
formatting_of (xml_message_converter f) = f
formatting_of (thread_converter f) = f
formatting_of (pid_converter f) = f
formatting_of (component_converter f precision) = f
formatting_of (file_location f) = f
formatting_of (full_location f) = f
formatting_of (line_location f) = f
formatting_of (method_location f) = f
formatting_of (category_converter f) = f
formatting_of (relative_time f) = f
formatting_of (date_converter f format) = f

abbrev pub no_minimum : ℤ → Bool
no_minimum (negsuc zero) = true
no_minimum (negsuc (suc n)) = false
no_minimum (pos n) = false

-- The least number of characters, which is 0 where there is no such width.
abbrev pub least : ℤ → ℕ
least (pos n) = n
least (negsuc n) = 0

abbrev pub spaces : ℕ → String
spaces n = replicate n b' '

abbrev pub cut_to : Justification → ℕ → String → String
cut_to left_justify width buf = take width buf
cut_to right_justify width buf = drop (length buf - width) buf

abbrev pub fill_up : Justification → ℕ → String → String
fill_up left_justify width buf = buf ++ spaces (width - length buf)
fill_up right_justify width buf = spaces (width - length buf) ++ buf

-- `formatMessage` of a converter, where `buf` is what it writes.
unfoldable pub formatted : Formatting → String → String
formatted f buf =
    if no_minimum f.min_width && (f.max_width == no_max_width)
    then buf
    else if empty buf
    then spaces (least f.min_width)
    else if ltb f.max_width (length buf)
    then cut_to f.justification f.max_width buf
    else if ltb (length buf) (least f.min_width)
    then fill_up f.justification (least f.min_width) buf
    else buf

abbrev pub append_both : Option String → Option String → Option String
append_both none u = none
append_both (some t) none = none
append_both (some t) (some u) = some (t ++ u)

-- `formatMessage` of the formatter, as what it appends.
unfoldable pub format_message : Context → LogMessage → List Converter → Option String
format_message cx m [] = some []
format_message cx m (c ∷ cs) =
    append_both (Option.map (formatted (formatting_of c)) (convert cx m c)) (format_message cx m cs)
