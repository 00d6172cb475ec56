-- ===== src/Utf8/Case/Upper.antt =====
-- The table `upperMappings` of src/blocxx/UTF8Utils.cpp.
mod From61
mod From19e
mod From3dd
mod From4eb
mod From1e9b
mod From1fa4
use libblocxx_deb.Prelude.{List, ◌++◌}
use libblocxx_deb.Utf8.Case.Defs.{CaseMapping}
use From61.{upper_from_61}
use From19e.{upper_from_19e}
use From3dd.{upper_from_3dd}
use From4eb.{upper_from_4eb}
use From1e9b.{upper_from_1e9b}
use From1fa4.{upper_from_1fa4}

unfoldable pub upper_mappings : List CaseMapping
unfolding upper_from_61 upper_from_19e upper_from_3dd upper_from_4eb upper_from_1e9b upper_from_1fa4
upper_mappings =
    upper_from_61 ++ upper_from_19e ++ upper_from_3dd ++ upper_from_4eb ++ upper_from_1e9b
    ++ upper_from_1fa4
