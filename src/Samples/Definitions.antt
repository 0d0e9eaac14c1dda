-- ===== src/Samples/Definitions.antt =====
-- A definition at concrete variables: 3 is defined as 2 where 1 is true.
use pedant_solver.Base.{ℕ, Option, List, [], ◌∷◌}
use pedant_solver.Base.Int.{ℤ, pos, negsuc}
use pedant_solver.Formula.{Clause}
use pedant_solver.Dependencies
use pedant_solver.Dependencies.Queries.{restrict_to_extended_dependencies}
use pedant_solver.Skolem.{Container, init_validity_check_model}

abbrev start : Container
start = record {
  last_used_variable = 3;
  validity_check_assumptions = [];
  forcing_disjunctions = [];
  no_forcing_clause_active_variables = [];
  use_default_indices = [];
  default_function_selector_indices = [];
  apply_default = [];
  arbiter_to_annotation = [];
  arbiter_to_existential = [];
  existential_arbiter_map = [];
  proper_arbiters = [];
  undefined_existentials = 3 ∷ [];
  calls = [];
}

abbrev initial : Container
initial = init_validity_check_model (3 ∷ []) (1 ∷ 2 ∷ []) start

abbrev definition : List Clause
definition = (negsuc 2 ∷ pos 2 ∷ []) ∷ (pos 3 ∷ negsuc 1 ∷ []) ∷ []

-- 3 depends on 1 and 2; the variables are universal.
abbrev dependencies : Dependencies.Container
dependencies = record {
  to_compute = [];
  supports = [];
  variables_to_update = [];
  extended = (3, 1 ∷ 2 ∷ []) ∷ [];
}

restriction : List ℤ → ℕ → Option (List ℤ)
restriction = restrict_to_extended_dependencies 2 (1 ∷ 2 ∷ []) dependencies
