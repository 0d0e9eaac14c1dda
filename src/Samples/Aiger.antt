-- ===== src/Samples/Aiger.antt =====
-- The circuit builder at concrete clauses: variable 3 is existential and 1 and 2 are universal.
use pedant_solver.Base.{
  ℕ, ◌≡◌, refl, true, false, ◌||◌, Option, none, some, List, [], ◌∷◌, arith, ◌==◌, All,
}
use pedant_solver.Base.Int.{pos, negsuc}
use pedant_solver.Base.Maps.{Map, find, at_or}
use pedant_solver.Formula.{Clause, Assignment}
use pedant_solver.Aiger.{Gate, Builder, new_builder, get_is_active_circuit}
use pedant_solver.Aiger.Values.{obeys, holds, aig_value}
use pedant_solver.Aiger.Reduced.{Agrees, fires}
use pedant_solver.Aiger.Active.{get_is_active_circuit-value}
use pedant_solver.Aiger.Skolem.{
  Model, entailed_definition, add_definition, add_forcing_clauses, compute_circuit_representation,
}
use pedant_solver.Aiger.Fallback.{skolem_value}
use pedant_solver.Aiger.Forcing.{add_forcing_clauses-value}
use pedant_solver.Aiger.Outputs.{
  IsForced, IsConsistent, function_of, compute_circuit_representation-value,
}

-- 3 is forced true by x₁ and false by ¬x₁ ∧ x₂.
abbrev positive : List Clause
positive = (negsuc 0 ∷ []) ∷ []

abbrev negative : List Clause
negative = (pos 1 ∷ negsuc 1 ∷ []) ∷ []

abbrev defaults : List Clause
defaults = (pos 2 ∷ pos 3 ∷ []) ∷ (negsuc 1 ∷ negsuc 2 ∷ []) ∷ []

abbrev sample_model : Model
sample_model = record {
  definitions = [] ∷ [];
  conditions = [] ∷ [];
  conditional_definitions = [] ∷ [];
  positive_forcing_clauses = positive ∷ [];
  negative_forcing_clauses = negative ∷ [];
  default_clauses = (3, defaults) ∷ [];
}

abbrev indices : Map ℕ
indices = (3, 0) ∷ []

-- 1 and 2 are false, so no forcing clause fires and the default of 3 is true.
abbrev assignment : Assignment
assignment v = v == 3 || v == 5

no_arbiters-Agrees : (a : Assignment) → Agrees a []
unfolding find
no_arbiters-Agrees a v value e = ground (arith, e)

get_is_active_circuit-value_example :
    (obeys assignment [] ≡ true)
    × (aig_value assignment (get_is_active_circuit negative [] (new_builder 3)).0
        ≡ fires assignment negative)
unfolding obeys holds aig_value get_is_active_circuit new_builder
get_is_active_circuit-value_example =
    get_is_active_circuit-value assignment negative [] (new_builder 3) refl
      (no_arbiters-Agrees assignment) (omega arith) refl

add_forcing_clauses-value_example :
    (obeys assignment [] ≡ true)
    × (assignment 3 ≡ skolem_value assignment positive negative defaults)
unfolding obeys holds aig_value fires add_forcing_clauses new_builder
add_forcing_clauses-value_example =
    add_forcing_clauses-value assignment [] refl (no_arbiters-Agrees assignment) positive negative
      (omega arith) (omega arith) refl 3 defaults (new_builder 3) (omega arith) (omega arith) refl

sample-IsForced : IsForced sample_model indices [] 3
unfolding find at_or entailed_definition
sample-IsForced = record {
  is_variable = omega arith;
  is_indexed = refl;
  has_defaults = refl;
  is_undefined = refl;
  not_entailed = refl;
  positive_clauses-IsFormula = omega arith;
  negative_clauses-IsFormula = omega arith;
  defaults-IsFormula = omega arith;
}

compute_circuit_representation-value_example :
    (b : Builder) × (compute_circuit_representation sample_model indices
        (1 ∷ 2 ∷ [])
        (3 ∷ [])
        []
        (new_builder 3)
      ≡ some b)
    × ((a : Assignment)
        → a 0 ≡ false
        → Agrees a []
        → All (IsConsistent a sample_model indices) (3 ∷ [])
        → obeys a b.circuit ≡ true
        → All (λ e. a e ≡ function_of a sample_model indices e) (3 ∷ []))
compute_circuit_representation-value_example =
    compute_circuit_representation-value sample_model indices (1 ∷ 2 ∷ []) (3 ∷ []) []
      (new_builder 3) (sample-IsForced, tt)

-- The gates for 3.
forcing_circuit :
    (add_forcing_clauses 3 positive negative defaults [] (new_builder 3)).circuit
    ≡ (8, 3, 4) ∷ (10, 9, 5) ∷ (12, 3, 11) ∷ (6, 13, 1) ∷ []
unfolding add_forcing_clauses new_builder
forcing_circuit = refl

-- The definition 9 := 2, 3 := 1 ∧ 9 makes 3 the conjunction of 1 and 2; its circuit makes 3 equal to
-- 1, since the input that is renamed to a literal is dropped.
abbrev circuit_of : Option Builder → List Gate
circuit_of none = []
circuit_of (some b) = b.circuit

dropped_input :
    circuit_of (
      add_definition 3
        ((pos 2 ∷ [], pos 9) ∷ (pos 1 ∷ pos 9 ∷ [], pos 3) ∷ [])
        []
        []
        (new_builder 3))
    ≡ (6, 2, 1) ∷ []
unfolding add_definition new_builder
dropped_input = refl

-- With the input negated, 3 := 1 ∧ ¬9, the builder throws an exception.
negated_input :
    add_definition 3
      ((pos 2 ∷ [], pos 9) ∷ (pos 1 ∷ negsuc 8 ∷ [], pos 3) ∷ [])
      []
      []
      (new_builder 3)
    ≡ none
unfolding add_definition new_builder
negated_input = refl
