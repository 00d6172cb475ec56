-- ===== src/Utf8/Case/Lookup.antt =====
-- What holds for every row of a table holds for every mapping that `Transformer` makes.
use libblocxx_deb.Prelude.{
  ℕ, ◌+◌, ◌≤◌, ◌<◌, ◌≡◌, refl, ◌⊎◌, inl, inr, Bool, true, ◌&&◌, List, [], ◌∷◌, arith, ltb, leb,
  ◌==◌, if◌then◌else◌,
}
use libblocxx_deb.Utf8.Codec.{utf8_char_len}
use libblocxx_deb.Utf8.Case.Defs.{CaseMapping, lower_bound, transformer}
use libblocxx_deb.Utf8.Case.Lower.{lower_mappings}
use libblocxx_deb.Utf8.Case.Upper.{upper_mappings}

-- The rows all pass a test on code point and mapping.
unfoldable pub all_rows : (ℕ → ℕ → Bool) → List CaseMapping → Bool
all_rows test [] = true
all_rows test (row ∷ rows) = test row.code_point row.mapping && all_rows test rows

pub transformer_cases :
    (test : ℕ → ℕ → Bool) (table : List CaseMapping) (c : ℕ)
    → all_rows test table ≡ true
    → (transformer table c ≡ c) ⊎ (test c (transformer table c) ≡ true)
unfolding all_rows transformer lower_bound
transformer_cases test [] c all = inl refl
transformer_cases test (row ∷ rows) c all = ground (arith, transformer_cases test rows c)

-- A table fit for the look-up: rows in ascending order of code point.
unfoldable pub ascending_from : ℕ → List CaseMapping → Bool
ascending_from low [] = true
ascending_from low (row ∷ rows) = leb low row.code_point && ascending_from (row.code_point + 1) rows

-- The look-up by equality, row by row: the meaning that a sorted table leaves to `lower_bound`.
unfoldable pub find_mapping : List CaseMapping → ℕ → ℕ
find_mapping [] c = c
find_mapping (row ∷ rows) c = if row.code_point == c then row.mapping else find_mapping rows c

find_mapping_below :
    (low : ℕ) (table : List CaseMapping) (c : ℕ)
    → ascending_from low table ≡ true
    → c < low
    → find_mapping table c ≡ c
unfolding find_mapping ascending_from
find_mapping_below low [] c sorted h = refl
find_mapping_below low (row ∷ rows) c sorted h =
    ground (arith, find_mapping_below (row.code_point + 1) rows c)

transformer-find_mapping :
    (low : ℕ) (table : List CaseMapping) (c : ℕ)
    → ascending_from low table ≡ true
    → transformer table c ≡ find_mapping table c
unfolding find_mapping ascending_from transformer lower_bound
transformer-find_mapping low [] c sorted = refl
transformer-find_mapping low (row ∷ rows) c sorted = ground (
  arith,
  transformer-find_mapping (row.code_point + 1) rows c,
  find_mapping_below (row.code_point + 1) rows c,
)

lower_ascending : ascending_from 0 lower_mappings ≡ true
unfolding ascending_from lower_mappings
lower_ascending = refl

upper_ascending : ascending_from 0 upper_mappings ≡ true
unfolding ascending_from upper_mappings
upper_ascending = refl

-- In both tables the rows ascend, so the binary search finds the row of a code point if there is
-- one, and leaves every other code point as it is.
pub transformer-tables :
    (c : ℕ)
    → (transformer lower_mappings c ≡ find_mapping lower_mappings c)
      × (transformer upper_mappings c ≡ find_mapping upper_mappings c)
transformer-tables c = (
  transformer-find_mapping 0 lower_mappings c lower_ascending,
  transformer-find_mapping 0 upper_mappings c upper_ascending,
)

-- What the in-place conversion needs of a row: a mapping that is no longer in UTF-8, is not NUL
-- and lies in the planes that decode again; and a mapping that is mapped to itself.
pub fits_row : ℕ → ℕ → Bool
fits_row c m = leb (utf8_char_len m) (utf8_char_len c) && ltb 0 m && ltb m 0x100000

pub stays_row : List CaseMapping → ℕ → ℕ → Bool
stays_row table c m = transformer table m == m

-- The tables that pass these tests.
pub record IsCaseTable (table : List CaseMapping) : Type 0 where
  pub fits : all_rows fits_row table ≡ true
  pub stays : all_rows (stays_row table) table ≡ true

pub lower_mappings-IsCaseTable : IsCaseTable lower_mappings
unfolding all_rows fits_row stays_row transformer lower_bound utf8_char_len lower_mappings
lower_mappings-IsCaseTable = record { fits = refl; stays = refl }

pub upper_mappings-IsCaseTable : IsCaseTable upper_mappings
unfolding all_rows fits_row stays_row transformer lower_bound utf8_char_len upper_mappings
upper_mappings-IsCaseTable = record { fits = refl; stays = refl }

-- No mapping of a case table is longer in UTF-8 than the code point, so the string can only
-- shrink; a code point other than NUL is not mapped to NUL, and planes 0 to 15 stay there.
pub transformer_fits :
    (table : List CaseMapping) (c : ℕ)
    → IsCaseTable table
    → (utf8_char_len (transformer table c) ≤ utf8_char_len c)
      × (0 < c → 0 < transformer table c)
      × (c < 0x100000 → transformer table c < 0x100000)
unfolding fits_row
transformer_fits table c t = elim (transformer_cases fits_row table c t.fits) [
  | inl same ↦ rw same (omega arith)
  | inr fit ↦ ground arith
]

-- Mapping twice is mapping once.
pub transformer-transformer :
    (table : List CaseMapping) (c : ℕ)
    → IsCaseTable table
    → transformer table (transformer table c) ≡ transformer table c
unfolding stays_row
transformer-transformer table c t = elim (transformer_cases (stays_row table) table c t.stays) [
  | inl same ↦ rw (same, same)
  | inr stays ↦ ground arith
]
