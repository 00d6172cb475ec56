-- ===== src/Utf8/Case/Defs.antt =====
-- The rows of the case tables, and the look-up of `Transformer`.
use libblocxx_deb.Prelude.{ℕ, Bool, true, false, List, [], ◌∷◌, ltb, ◌==◌, if◌then◌else◌}

pub record CaseMapping : Type 0 where
  pub code_point : ℕ
  pub mapping : ℕ

infix 68 ◌maps◌
abbrev pub ◌maps◌ : ℕ → ℕ → CaseMapping
c maps m = record { code_point = c; mapping = m }

-- `MappingOrdering`.
abbrev pub mapping_ordering : CaseMapping → CaseMapping → Bool
mapping_ordering x y = ltb x.code_point y.code_point

-- `std::lower_bound` on a sorted range: the part from the first row that is not before `val`.
unfoldable pub lower_bound : List CaseMapping → CaseMapping → List CaseMapping
lower_bound [] val = []
lower_bound (row ∷ rows) val = elim (mapping_ordering row val) [
  | true ↦ lower_bound rows val
  | false ↦ row ∷ rows
]

mapped : List CaseMapping → ℕ → ℕ
mapped [] c = c
mapped (row ∷ rows) c = if row.code_point == c then row.mapping else c

-- `Transformer::operator()`.
unfoldable pub transformer : List CaseMapping → ℕ → ℕ
unfolding mapped
transformer table c = mapped (lower_bound table (c maps 0)) c
