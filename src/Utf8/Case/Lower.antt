-- ===== src/Utf8/Case/Lower.antt =====
-- The table `lowerMappings` of src/blocxx/UTF8Utils.cpp.
mod From41
mod From18f
mod From3ec
mod From506
mod From1eb4
mod From1ffa
use libblocxx_deb.Prelude.{List, ◌++◌}
use libblocxx_deb.Utf8.Case.Defs.{CaseMapping}
use From41.{lower_from_41}
use From18f.{lower_from_18f}
use From3ec.{lower_from_3ec}
use From506.{lower_from_506}
use From1eb4.{lower_from_1eb4}
use From1ffa.{lower_from_1ffa}

unfoldable pub lower_mappings : List CaseMapping
unfolding lower_from_41 lower_from_18f lower_from_3ec lower_from_506 lower_from_1eb4 lower_from_1ffa
lower_mappings =
    lower_from_41 ++ lower_from_18f ++ lower_from_3ec ++ lower_from_506 ++ lower_from_1eb4
    ++ lower_from_1ffa
