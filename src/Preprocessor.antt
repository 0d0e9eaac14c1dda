-- ===== src/Preprocessor.antt =====
-- preprocessor.h, preprocessor.cc, inputformula.h: universal reduction and the formula that the solver
-- reads.
pub mod Reduction
pub mod MaxVariable
use pedant_solver.Base.{
  ℕ, zero, suc, ◌+◌, ◌-◌, ◌*◌, ◌/◌, ◌%◌, ◌^◌, ◌≤◌, ◌<◌, max, ◌≡◌, refl, sym, ap, ◌∙◌, subst, ◌≢◌,
  ◌↔◌, ◌⊎◌, inl, inr, Bool, true, false, not, ◌&&◌, ◌||◌, Option, none, some, List, [], ◌∷◌, ◌++◌,
  map, arith, ltb, leb, ◌==◌, if◌then◌else◌, Bool-cases, Option-cases, Bool_ext, not-not, ==_iff,
  ==_refl, length, get_elem?, set, is_empty, any, all, select, All, length-append, any-append,
  all-append, All-append, All-left, length-select-le, length-set, get_or, get_or-set_self,
  get_or-set_ne, get_or-append_left,
}
use pedant_solver.Base.Int.{
  ℤ, pos, negsuc, neg, abs, is_pos, is_neg, of_bool, eq_ℤ, eq_ℤ_iff, neg-neg, abs-neg,
}
use pedant_solver.Base.Maps.{
  Map, find, assign, erase, has, emplace, at_or, find-assign, find-erase, find-emplace,
}
use pedant_solver.Base.Sets.{
  contains, Above, IsAscending, Above-mono, Above-IsAscending, contains_below, contains-append,
  insert, contains-insert, insert-Above, insert-IsAscending, insert_all, contains-insert_all,
  insert_all-IsAscending, includes, includes_lem, all_of_contains, contains_of_all, binary_search,
  binary_search-contains, sort, contains-sort, IsDistinct, sort-IsAscending,
}
use pedant_solver.Literal.{var}
use pedant_solver.Formula.{Clause}
use pedant_solver.Formula.Support.{restrict_to}

abbrev pub keys : {V : Type 0} → Map V → List ℕ
keys m = map (λ e. e.0) m

-- The inner loop: is the variable a dependency of a literal of the clause? The map has every variable
-- of that clause, so that `at` does not throw.
unfoldable pub is_dependency : Map (List ℕ) → Clause → ℕ → Bool
unfolding at_or
is_dependency dependency_map existential_clause v =
    any (λ l. contains (at_or dependency_map (var l) []) v) existential_clause

-- The loop over the universal literals: the clause and the number of reduced literals.
unfoldable pub push_dependencies : Map (List ℕ) → Clause → List ℤ → Clause → ℕ → Clause × ℕ
unfolding is_dependency
push_dependencies m existential_clause [] clause reduced = (clause, reduced)
push_dependencies m existential_clause (l ∷ ls) clause reduced =
    let keep = push_dependencies m existential_clause ls (clause ++ l ∷ []) reduced in
    let drop = push_dependencies m existential_clause ls clause (reduced + 1) in
    if is_dependency m existential_clause (var l) then keep else drop

unfoldable pub apply_forall_reduction : Clause → List ℕ → List ℕ → Map (List ℕ) → Clause × ℕ
unfolding push_dependencies restrict_to
apply_forall_reduction clause universal_variables innermost_existentials m =
    if not (is_empty (restrict_to clause innermost_existentials))
    then (clause, 0)
    else let universal_clause = restrict_to clause universal_variables in
      let existential_clause = restrict_to clause (keys m) in
      push_dependencies m existential_clause universal_clause existential_clause 0

-- The loop over the matrix.
pub reduce_matrix : List Clause → List ℕ → List ℕ → Map (List ℕ) → List Clause
unfolding apply_forall_reduction
reduce_matrix matrix universal_variables innermost_existentials m =
    map (λ clause. (apply_forall_reduction clause universal_variables innermost_existentials m).0)
      matrix
