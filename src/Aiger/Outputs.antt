-- ===== src/Aiger/Outputs.antt =====
-- buildAIGER.cc: the circuit for all existential variables, where none has a definition.
use pedant_solver.Base.{
  ℕ, ◌<◌, ◌≡◌, refl, Bool, true, false, ◌&&◌, none, some, List, [], ◌∷◌, ◌++◌, All, get_or,
}
use pedant_solver.Base.Int.{pos}
use pedant_solver.Base.Maps.{Map, find, at_or}
use pedant_solver.Formula.{Clause, Assignment, IsFormula}
use pedant_solver.Aiger.{Builder, get_aiger_representation}
use pedant_solver.Aiger.Values.{obeys}
use pedant_solver.Aiger.Reduced.{Agrees, fires}
use pedant_solver.Aiger.Skolem.{
  Model, entailed_definition, add_forcing_clauses, add_skolem_function, add_inputs, add_outputs,
  compute_circuit_representation,
}
use pedant_solver.Aiger.Fallback.{skolem_value}
use pedant_solver.Aiger.Forcing.{add_forcing_clauses-value}

abbrev pub positive_clauses : Model → Map ℕ → ℕ → List Clause
positive_clauses m indices e = get_or m.positive_forcing_clauses (at_or indices e 0) []

abbrev pub negative_clauses : Model → Map ℕ → ℕ → List Clause
negative_clauses m indices e = get_or m.negative_forcing_clauses (at_or indices e 0) []

-- The logger has recorded forcing and default clauses for the variable, and no definition that holds
-- for the assignment of the arbiters.
pub record IsForced (m : Model) (indices : Map ℕ) (arbiters : Map Bool) (e : ℕ) : Type 0 where
  pub is_variable : 0 < e
  pub is_indexed : find indices e ≡ some (at_or indices e 0)
  pub has_defaults : find m.default_clauses e ≡ some (at_or m.default_clauses e [])
  pub is_undefined : get_or m.definitions (at_or indices e 0) [] ≡ []
  pub not_entailed :
      entailed_definition
        (get_or m.conditions (at_or indices e 0) [])
        (get_or m.conditional_definitions (at_or indices e 0) [])
        arbiters
      ≡ none
  pub positive_clauses-IsFormula : IsFormula (positive_clauses m indices e)
  pub negative_clauses-IsFormula : IsFormula (negative_clauses m indices e)
  pub defaults-IsFormula : IsFormula (at_or m.default_clauses e [])

-- No positive and negative forcing clause of the variable fire together.
abbrev pub IsConsistent : Assignment → Model → Map ℕ → ℕ → Type 0
IsConsistent a m indices e =
    (fires a (positive_clauses m indices e) && fires a (negative_clauses m indices e)) ≡ false

-- The value of the variable's Skolem function.
abbrev pub function_of : Assignment → Model → Map ℕ → ℕ → Bool
function_of a m indices e =
    skolem_value a (positive_clauses m indices e) (negative_clauses m indices e)
      (at_or m.default_clauses e [])

add_skolem_function_forced :
    (m : Model) (indices : Map ℕ) (every : List ℕ) (e index : ℕ) (defaults : List Clause)
    (arbiters : Map Bool) (b : Builder)
    → find indices e ≡ some index
    → find m.default_clauses e ≡ some defaults
    → get_or m.definitions index [] ≡ []
    → entailed_definition
        (get_or m.conditions index [])
        (get_or m.conditional_definitions index [])
        arbiters
      ≡ none
    → add_skolem_function m indices every e arbiters b
      ≡ some (
          add_forcing_clauses e
            (get_or m.positive_forcing_clauses index [])
            (get_or m.negative_forcing_clauses index [])
            defaults
            arbiters
            b)
unfolding add_skolem_function
add_skolem_function_forced m indices every e index defaults arbiters b i d u n =
    rw (i, u, n, d, add_skolem_function) refl

add_skolem_function-IsForced :
    (m : Model) (indices : Map ℕ) (every : List ℕ) (e : ℕ) (arbiters : Map Bool) (b : Builder)
    → IsForced m indices arbiters e
    → add_skolem_function m indices every e arbiters b
      ≡ some (
          add_forcing_clauses e
            (positive_clauses m indices e)
            (negative_clauses m indices e)
            (at_or m.default_clauses e [])
            arbiters
            b)
add_skolem_function-IsForced m indices every e arbiters b f =
    add_skolem_function_forced m indices every e (at_or indices e 0) (at_or m.default_clauses e [])
      arbiters b f.is_indexed f.has_defaults f.is_undefined f.not_entailed

-- The builder after the loop over such variables.
forced_outputs : Model → Map ℕ → List ℕ → Map Bool → Builder → Builder
forced_outputs m indices [] arbiters b = b
forced_outputs m indices (e ∷ existentials) arbiters b =
    let b' =
      add_forcing_clauses e (positive_clauses m indices e) (negative_clauses m indices e)
        (at_or m.default_clauses e []) arbiters b in
    forced_outputs m indices existentials arbiters
      (record b' { outputs = b'.outputs ++ get_aiger_representation (pos e) ∷ [] })

add_outputs-IsForced :
    (m : Model) (indices : Map ℕ) (every existentials : List ℕ) (arbiters : Map Bool) (b : Builder)
    → All (IsForced m indices arbiters) existentials
    → add_outputs m indices every existentials arbiters b
      ≡ some (forced_outputs m indices existentials arbiters b)
unfolding add_outputs forced_outputs
add_outputs-IsForced m indices every [] arbiters b f = refl
add_outputs-IsForced m indices every (e ∷ existentials) arbiters b f =
    rw (add_skolem_function-IsForced m indices every e arbiters b f.0, add_outputs)
      (add_outputs-IsForced m indices every existentials arbiters _ f.1)

forced_outputs-value :
    (a : Assignment) (m : Model) (indices : Map ℕ) (existentials : List ℕ) (arbiters : Map Bool)
    (b : Builder)
    → a 0 ≡ false
    → Agrees a arbiters
    → All (IsForced m indices arbiters) existentials
    → All (IsConsistent a m indices) existentials
    → obeys a (forced_outputs m indices existentials arbiters b).circuit ≡ true
    → (obeys a b.circuit ≡ true) × All (λ e. a e ≡ function_of a m indices e) existentials
unfolding forced_outputs
forced_outputs-value a m indices [] arbiters b z g f c o = (o, tt)
forced_outputs-value a m indices (e ∷ existentials) arbiters b z g f c o =
    let b' =
      add_forcing_clauses e (positive_clauses m indices e) (negative_clauses m indices e)
        (at_or m.default_clauses e []) arbiters b in
    let rest =
      forced_outputs-value a m indices existentials arbiters
        (record b' { outputs = b'.outputs ++ get_aiger_representation (pos e) ∷ [] }) z g f.1 c.1
        o in
    let here =
      add_forcing_clauses-value a arbiters z g (positive_clauses m indices e)
        (negative_clauses m indices e) f.0.positive_clauses-IsFormula f.0.negative_clauses-IsFormula
        c.0 e (at_or m.default_clauses e []) b f.0.is_variable f.0.defaults-IsFormula rest.0 in
    (here.0, (here.1, rest.1))

-- Where no existential variable has a definition and all have their clauses recorded, the
-- circuit is computed, and an assignment that gives the arbiters their values and obeys the
-- circuit gives each existential variable the value of its Skolem function, unless a positive and a
-- negative forcing clause of one variable both fire.
pub compute_circuit_representation-value :
    (m : Model) (indices : Map ℕ) (universals existentials : List ℕ) (arbiters : Map Bool)
    (b : Builder)
    → All (IsForced m indices arbiters) existentials
    → (b' : Builder) × (compute_circuit_representation m indices universals existentials arbiters b
        ≡ some b')
      × ((a : Assignment)
          → a 0 ≡ false
          → Agrees a arbiters
          → All (IsConsistent a m indices) existentials
          → obeys a b'.circuit ≡ true
          → All (λ e. a e ≡ function_of a m indices e) existentials)
unfolding compute_circuit_representation
compute_circuit_representation-value m indices universals existentials arbiters b f = (
  forced_outputs m indices existentials arbiters (add_inputs universals b),
  add_outputs-IsForced m indices existentials existentials arbiters (add_inputs universals b) f,
  λ a z g c o.
      (forced_outputs-value a m indices existentials arbiters (add_inputs universals b) z g f c
        o).1,
)
