-- ===== src/Preprocessor/MaxVariable.antt =====
-- `setMaxVariable` of inputformula.h: the greatest variable in use.
use pedant_solver.Base.{ℕ, ◌≤◌, max, ◌≡◌, Bool, true, ◌||◌, List, [], ◌∷◌, arith, ◌==◌, any}
use pedant_solver.Base.Int.{abs}
use pedant_solver.Base.Maps.{Map}
use pedant_solver.Base.Sets.{contains}
use pedant_solver.Formula.{Clause}
use pedant_solver.Dqdimacs.{Circuit}

-- `*std::max_element`, or 0 for no elements
unfoldable pub max_element : List ℕ → ℕ
max_element [] = 0
max_element (v ∷ vs) = max v (max_element vs)

-- The loops over the definitions and their gates.
unfoldable pub max_output : ℕ → Circuit → ℕ
max_output m [] = m
max_output m (gate ∷ circuit) = max_output (max m (abs gate.1)) circuit

unfoldable pub max_definition : ℕ → Map (List Clause × Circuit) → ℕ
unfolding max_output
max_definition m [] = m
max_definition m (entry ∷ definitions) = max_definition (max_output m entry.1.1) definitions

unfoldable pub set_max_variable : List ℕ → List ℕ → Map (List Clause × Circuit) → ℕ
unfolding max_element max_definition
set_max_variable universals existentials definitions =
    max_definition (max (max_element universals) (max_element existentials)) definitions

-- Some gate of the circuit has the variable for its output.
unfoldable pub is_output : ℕ → Circuit → Bool
is_output v circuit = any (λ gate. abs gate.1 == v) circuit

max_element_bound : (vs : List ℕ) (v : ℕ) → contains vs v ≡ true → v ≤ max_element vs
unfolding max_element
max_element_bound [] v m = ground arith
max_element_bound (w ∷ vs) v m = ground (arith, max_element_bound vs v)

max_output_bound :
    (m : ℕ) (circuit : Circuit) (v : ℕ)
    → (m ≤ max_output m circuit) × (is_output v circuit ≡ true → v ≤ max_output m circuit)
unfolding max_output is_output
max_output_bound m [] v = (omega arith, λ o. ground arith)
max_output_bound m (gate ∷ circuit) v =
    let rest = max_output_bound (max m (abs gate.1)) circuit v in
    (omega arith, λ o. ground (arith, rest.0, rest.1))

max_definition_bound :
    (m : ℕ) (definitions : Map (List Clause × Circuit)) (v : ℕ)
    → (m ≤ max_definition m definitions)
      × (any (λ entry. is_output v entry.1.1) definitions ≡ true → v ≤ max_definition m definitions)
unfolding max_definition
max_definition_bound m [] v = (omega arith, λ o. ground arith)
max_definition_bound m (entry ∷ definitions) v =
    let here = max_output_bound m entry.1.1 v in
    let rest = max_definition_bound (max_output m entry.1.1) definitions v in
    (omega arith, λ o. ground (arith, rest.0, rest.1, here.1))

-- Every universal variable, every existential variable and every output of a gate of a definition is
-- at most the maximum that is set.
pub set_max_variable_lem :
    (universals existentials : List ℕ) (definitions : Map (List Clause × Circuit)) (v : ℕ)
    → (contains universals v
        || (contains existentials v || any (λ entry. is_output v entry.1.1) definitions))
      ≡ true
    → v ≤ set_max_variable universals existentials definitions
unfolding set_max_variable
set_max_variable_lem universals existentials definitions v h =
    let m = max (max_element universals) (max_element existentials) in
    ground (
      arith,
      max_element_bound universals v,
      max_element_bound existentials v,
      (max_definition_bound m definitions v).0,
      (max_definition_bound m definitions v).1,
    )
