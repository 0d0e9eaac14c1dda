-- ===== src/Samples/Skolem.antt =====
-- Forcing clauses at concrete variables: 1 is universal, 2 and 3 are existential.
use pedant_solver.Base.{
  ◌≡◌, ◌==◌, refl, not, ◌&&◌, ℕ, Bool, true, false, some, List, [], ◌∷◌, arith, all, All,
}
use pedant_solver.Base.Int.{ℤ, pos, negsuc}
use pedant_solver.Formula.{Clause, Assignment, eval_lit, eval_formula}
use pedant_solver.Aiger.{back}
use pedant_solver.Base.Sets.{contains}
use pedant_solver.Base.Maps.{at_or, find}
use pedant_solver.Skolem.Arbiters.{
  sort_literals, place, eq_literals, find_arbiter, arbiter_of, get_arbiter,
}
use pedant_solver.Skolem.Requests.{
  known_or, is_unknown, AreOwned, get_arbiter-value, get_arbiter-get_arbiter,
}
use pedant_solver.Skolem.{Container, init_validity_check_model}
use pedant_solver.Skolem.Forcing.{meets, validity}
use pedant_solver.Skolem.Encoding.{fires_for}
use pedant_solver.Skolem.Runs.{
  add_forcing_clauses, joined, IsForcing, flag_of, init_validity_check_model-value,
}

abbrev start : Container
start = record {
  last_used_variable = 3;
  validity_check_assumptions = [];
  forcing_disjunctions = [];
  no_forcing_clause_active_variables = [];
  use_default_indices = [];
  default_function_selector_indices = [];
  apply_default = [];
  arbiter_to_annotation = [];
  arbiter_to_existential = [];
  existential_arbiter_map = [];
  proper_arbiters = [];
  undefined_existentials = 2 ∷ 3 ∷ [];
  calls = [];
}

-- x₁ forces 2, and ¬x₁ ∧ 2 forces ¬3.
abbrev clauses : List (Clause × Bool)
clauses = (negsuc 0 ∷ pos 2 ∷ [], true) ∷ (pos 1 ∷ negsuc 1 ∷ negsuc 2 ∷ [], false) ∷ []

clauses-IsForcing : All (IsForcing (2 ∷ 3 ∷ [])) clauses
unfolding back
clauses-IsForcing = ((omega arith, refl, refl), ((omega arith, refl, refl), tt))

init_validity_check_model-value_example :
    (c' : Container) × (add_forcing_clauses clauses
        (init_validity_check_model (2 ∷ 3 ∷ []) (1 ∷ []) start)
      ≡ some c')
    × ((a : Assignment)
        → meets a c'.calls ≡ true
        → all (eval_lit a) c'.validity_check_assumptions ≡ true
        → (eval_formula a (joined clauses []) ≡ true)
          × All (λ e. a (flag_of c' e) ≡ not (fires_for a e (joined clauses []))) (2 ∷ 3 ∷ []))
init_validity_check_model-value_example =
    init_validity_check_model-value (2 ∷ 3 ∷ []) (1 ∷ []) clauses start refl (refl, (refl, tt))
      clauses-IsForcing

-- The clauses of one variable at the start: the first disjunct, and the activation of the default.
initial_clauses :
    validity (init_validity_check_model (2 ∷ []) (1 ∷ []) start).calls
    ≡ (pos 4 ∷ pos 5 ∷ []) ∷ (negsuc 3 ∷ negsuc 6 ∷ pos 6 ∷ []) ∷ []
unfolding init_validity_check_model validity find
initial_clauses = refl

-- The assumptions: no more disjuncts, and the default is used.
initial_assumptions :
    (init_validity_check_model (2 ∷ []) (1 ∷ []) start).validity_check_assumptions
    ≡ negsuc 4 ∷ pos 7 ∷ []
unfolding init_validity_check_model find
initial_assumptions = refl

-- Arbiter 9 belongs to 2 where 1 is false.
abbrev owning : Container
owning = record {
  last_used_variable = 9;
  validity_check_assumptions = negsuc 7 ∷ [];
  forcing_disjunctions = (2, record { terminal_index = some 0 }) ∷ [];
  no_forcing_clause_active_variables = (2, 4) ∷ [];
  use_default_indices = [];
  default_function_selector_indices = [];
  apply_default = [];
  arbiter_to_annotation = (9, negsuc 0 ∷ []) ∷ [];
  arbiter_to_existential = (9, 2) ∷ [];
  existential_arbiter_map = (2, (negsuc 0 ∷ [], 9) ∷ []) ∷ [];
  proper_arbiters = [];
  undefined_existentials = 2 ∷ [];
  calls = [];
}

owning-AreOwned : AreOwned owning
unfolding arbiter_of at_or find find_arbiter
owning-AreOwned e annotation arbiter h = ground (arith, h)

get_arbiter-value_example :
    let sorted = sort_literals (negsuc 0 ∷ []) in
    let found = arbiter_of 2 sorted owning in
    let arbiter = known_or 10 found in
    (is_proper : Bool) × (c' : Container) × (get_arbiter 2 (negsuc 0 ∷ []) true owning
      ≡ some ((arbiter, is_unknown found, is_proper), c'))
    × (is_proper ≡ contains c'.proper_arbiters arbiter)
    × ((true && not is_proper) ≡ false)
    × (arbiter_of 2 sorted c' ≡ some arbiter)
    × ((e' : ℕ) (annotation : List ℤ)
        → (2 == e' && eq_literals sorted annotation) ≡ false
        → arbiter_of e' annotation c' ≡ arbiter_of e' annotation owning)
    × AreOwned c'
unfolding find
get_arbiter-value_example =
    get_arbiter-value 2 (negsuc 0 ∷ []) true owning (record { terminal_index = some 0 })
      owning-AreOwned refl

get_arbiter_test : arbiter_of 2 (sort_literals (negsuc 0 ∷ [])) owning ≡ some 9
unfolding arbiter_of at_or find find_arbiter sort_literals place
get_arbiter_test = refl

get_arbiter-get_arbiter_example :
    (arbiter : ℕ) × (is_new : Bool) × (is_proper : Bool) × (c' : Container) × (get_arbiter 2
        (pos 4 ∷ negsuc 0 ∷ [])
        true
        owning
      ≡ some ((arbiter, is_new, is_proper), c'))
    × (get_arbiter 2 (negsuc 0 ∷ pos 4 ∷ []) false c' ≡ some ((arbiter, false, is_proper), c'))
unfolding find sort_literals
get_arbiter-get_arbiter_example =
    get_arbiter-get_arbiter 2 (pos 4 ∷ negsuc 0 ∷ []) (negsuc 0 ∷ pos 4 ∷ []) true false owning
      (record { terminal_index = some 0 }) owning-AreOwned refl refl refl
