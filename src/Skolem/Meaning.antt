-- ===== src/Skolem/Meaning.antt =====
-- What `addDefinition` says of a variable, from the clauses it adds.
use pedant_solver.Base.{ℕ, ◌+◌, ◌≡◌, Bool, not, ◌&&◌, ◌||◌, Option, List, [], ◌∷◌, ◌++◌, is_empty}
use pedant_solver.Base.Int.{ℤ}
use pedant_solver.Formula.{Clause, Assignment}
use pedant_solver.Dqdimacs.{Circuit}
use pedant_solver.Disjunction.{Disjunction}
use pedant_solver.Skolem.{
  Call, Container, call_all, next_variable, add_disjunct, add_defining_clause,
  log_conditional_definition, check_definition,
}
use pedant_solver.Skolem.Forcing.{meets}
use pedant_solver.Skolem.Definitions.{
  select_definition, select_default, add_definition_with_selector, define,
  new_default_function_selector,
}

-- What a step keeps, or adds to.
record Extends (c c' : Container) (calls : List Call) (n : ℕ) : Type 0 where
  same_disjunctions : c'.forcing_disjunctions ≡ c.forcing_disjunctions
  same_flags : c'.no_forcing_clause_active_variables ≡ c.no_forcing_clause_active_variables
  variables : c'.last_used_variable ≡ c.last_used_variable + n
  implied : (a : Assignment) → meets a c'.calls ≡ (meets a c.calls && meets a calls)

module _ (restrict : List ℤ → ℕ → Option (List ℤ)) (support : List ℤ) (v : ℕ)
    (definition : List Clause) (circuit_def : Circuit) (conflict : List ℤ) (reduced : Bool)
    (c : Container) where
  abbrev defined : Container
  defined = define v conflict (
      call_all
        (log_conditional_definition v conflict definition circuit_def
          ∷ check_definition v definition conflict
          ∷ [])
        c)

  abbrev active : ℕ
  active = defined.last_used_variable + 1

  abbrev selected : Container
  selected =
      call_all (select_definition v conflict active reduced)
        (next_variable (next_variable (next_variable defined)))

  abbrev with_selector : Container
  with_selector = (new_default_function_selector v selected).1

  abbrev default_selector : ℕ
  default_selector = (new_default_function_selector v selected).0

  -- The container before the disjunct of the conflict.
  prepared : ℕ → Container
  prepared no_forcing =
      call_all (select_default v active default_selector no_forcing reduced) with_selector

  -- The container after the call.
  completed : ℕ → Disjunction → Container
  completed no_forcing d =
      call_all
        (add_definition_with_selector v definition (active + 1) (not (is_empty conflict) || reduced)
          ++ add_defining_clause v support active ∷ [])
        (add_disjunct v active d (prepared no_forcing))
