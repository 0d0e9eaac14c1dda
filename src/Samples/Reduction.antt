-- ===== src/Samples/Reduction.antt =====
-- Universal reduction at a concrete formula: 3 depends on 1 only, so that 2 is reduced.
use pedant_solver.Base.{
  ◌≤◌, ℕ, ◌≡◌, refl, not, false, ◌==◌, if◌then◌else◌, ◌↔◌, List, [], ◌∷◌, arith,
}
use pedant_solver.Base.Int.{pos, negsuc}
use pedant_solver.Base.Maps.{Map, at_or, find}
use pedant_solver.Formula.{Clause}
use pedant_solver.Preprocessor.{
  reduce_matrix, apply_forall_reduction, push_dependencies, is_dependency,
}
use pedant_solver.Formula.Support.{restrict_to}
use pedant_solver.Preprocessor.MaxVariable.{set_max_variable, is_output, set_max_variable_lem}
use pedant_solver.Preprocessor.Reduction.{
  Functions, IsModel, Respects, IsReducible, reduce_matrix-IsModel,
}

abbrev dependency_map : Map (List ℕ)
dependency_map = (3, 1 ∷ []) ∷ []

abbrev clause : Clause
clause = pos 2 ∷ pos 3 ∷ pos 1 ∷ []

abbrev negation : Functions
negation v a = if v == 3 then not (a 1) else false

reduced : apply_forall_reduction clause (1 ∷ 2 ∷ []) [] dependency_map ≡ (pos 3 ∷ pos 1 ∷ [], 1)
unfolding apply_forall_reduction push_dependencies is_dependency restrict_to at_or find
reduced = refl

negation-Respects : Respects dependency_map negation
unfolding at_or find
negation-Respects v a b h = ground (arith, h 1)

clause-IsReducible : IsReducible (1 ∷ 2 ∷ []) dependency_map clause
clause-IsReducible (pos n) o = ground arith
clause-IsReducible (negsuc n) o = ground arith

reduce_matrix-IsModel_example :
    IsModel (1 ∷ 2 ∷ []) negation (reduce_matrix (clause ∷ []) (1 ∷ 2 ∷ []) [] dependency_map)
    ↔ IsModel (1 ∷ 2 ∷ []) negation (clause ∷ [])
reduce_matrix-IsModel_example =
    reduce_matrix-IsModel (1 ∷ 2 ∷ []) [] dependency_map (clause ∷ []) negation negation-Respects
      (clause-IsReducible, record {})

-- A clause with both literals of 2 is true, and its reduction is not: the hypothesis on signs is
-- needed.
both_signs_reduced :
    apply_forall_reduction (pos 2 ∷ negsuc 1 ∷ pos 3 ∷ []) (1 ∷ 2 ∷ []) [] dependency_map
    ≡ (pos 3 ∷ [], 2)
unfolding apply_forall_reduction push_dependencies is_dependency restrict_to at_or find
both_signs_reduced = refl

-- The gate of the definition of 3 has an output beyond the variables.
set_max_variable_lem_example :
    5 ≤ set_max_variable (1 ∷ 2 ∷ []) (3 ∷ []) ((3, ([], (pos 1 ∷ [], negsuc 4) ∷ [])) ∷ [])
unfolding is_output
set_max_variable_lem_example =
    set_max_variable_lem (1 ∷ 2 ∷ []) (3 ∷ []) ((3, ([], (pos 1 ∷ [], negsuc 4) ∷ [])) ∷ []) 5 refl
