-- ===== src/Aiger/Skolem.antt =====
-- buildAIGER.cc: the gates for the Skolem function of a variable, from its definitions or from its
-- forcing clauses and defaults.
use pedant_solver.Base.{
  ℕ, ◌+◌, Bool, true, false, not, Option, none, some, List, [], ◌∷◌, ◌++◌, ltb, leb, ◌==◌,
  if◌then◌else◌, length, is_empty, get_or,
}
use pedant_solver.Base.Int.{ℤ, pos, neg, abs, is_pos}
use pedant_solver.Base.Maps.{Map, find, assign}
use pedant_solver.Formula.{Clause}
use pedant_solver.Literal.{var}
use pedant_solver.Dqdimacs.{Circuit}
use pedant_solver.Aiger.{
  Builder, get_aiger_representation, get_aiger_negation, same, filter_clauses, is_conflict_entailed,
  combine_aiger_variables, get_is_active_circuit, aiger_add_and, aiger_true, aiger_false,
}

-- `addForcingClauses` with a default constant.
unfoldable pub add_constant_default :
    ℕ → List Clause → List Clause → ℤ → Map Bool → Builder → Builder
unfolding get_is_active_circuit get_aiger_negation
add_constant_default representation positive negative default_constant arbiters b =
    let (not_forced, b₁) = get_is_active_circuit negative arbiters b in
    let (forced, b₂) = get_is_active_circuit positive arbiters b in
    if is_pos default_constant
    then aiger_add_and representation (get_aiger_negation not_forced) aiger_true b₁
    else aiger_add_and representation forced aiger_true b₂

-- With a default function of which more clauses are positive: the circuit stands for
-- -(negative_fires \/ (-positive_fires /\ negative_default_fires)).
unfoldable pub add_negative_default : ℕ → ℕ → ℕ → List Clause → Map Bool → Builder → Builder
unfolding get_is_active_circuit get_aiger_negation combine_aiger_variables
add_negative_default representation positive_fires negative_fires negative arbiters b =
    let (negative_default_fires, b₁) = get_is_active_circuit negative arbiters b in
    let (default_applicable, b₂) =
      combine_aiger_variables (get_aiger_negation positive_fires) negative_default_fires b₁ in
    let (is_positive, b₃) =
      combine_aiger_variables (get_aiger_negation negative_fires)
        (get_aiger_negation default_applicable) b₂ in
    aiger_add_and representation is_positive aiger_true b₃

-- And otherwise: positive_fires \/ (-negative_fires /\ positive_default_fires).
unfoldable pub add_positive_default : ℕ → ℕ → ℕ → List Clause → Map Bool → Builder → Builder
unfolding get_is_active_circuit get_aiger_negation combine_aiger_variables
add_positive_default representation positive_fires negative_fires positive arbiters b =
    let (positive_default_fires, b₁) = get_is_active_circuit positive arbiters b in
    let (default_applicable, b₂) =
      combine_aiger_variables (get_aiger_negation negative_fires) positive_default_fires b₁ in
    let (is_negative, b₃) =
      combine_aiger_variables (get_aiger_negation positive_fires)
        (get_aiger_negation default_applicable) b₂ in
    aiger_add_and representation (get_aiger_negation is_negative) aiger_true b₃

unfoldable pub add_default_function :
    ℕ → List Clause → List Clause → List Clause → Map Bool → Builder → Builder
unfolding add_negative_default add_positive_default filter_clauses
add_default_function representation positive negative default_clauses arbiters b =
    let (positive_fires, b₁) = get_is_active_circuit positive arbiters b in
    let (negative_fires, b₂) = get_is_active_circuit negative arbiters b₁ in
    let (positive_default, negative_default) = filter_clauses default_clauses in
    let more_positive =
      add_negative_default representation positive_fires negative_fires negative_default arbiters
        b₂ in
    let more_negative =
      add_positive_default representation positive_fires negative_fires positive_default arbiters
        b₂ in
    if positive_fires == aiger_true
    then aiger_add_and representation aiger_true aiger_true b₁
    else if negative_fires == aiger_true
    then aiger_add_and representation aiger_false aiger_false b₂
    else if ltb (length negative_default) (length positive_default)
    then more_positive
    else more_negative

unfoldable pub add_forcing_clauses :
    ℕ → List Clause → List Clause → List Clause → Map Bool → Builder → Builder
unfolding add_constant_default add_default_function get_aiger_representation
add_forcing_clauses variable positive negative [] arbiters b =
    add_constant_default (get_aiger_representation (pos variable)) positive negative (pos variable)
      arbiters b
add_forcing_clauses variable positive negative (cl ∷ []) arbiters b =
    add_constant_default (get_aiger_representation (pos variable)) positive negative
      (get_or cl 0 (pos 0)) arbiters b
add_forcing_clauses variable positive negative (cl ∷ cl' ∷ others) arbiters b =
    add_default_function (get_aiger_representation (pos variable)) positive negative
      (cl ∷ cl' ∷ others) arbiters b

-- A variable beyond those of the matrix is renamed to a fresh one, the same each time.
unfoldable pub check_variable_in_definition : ℤ → Builder → ℤ × Builder
unfolding find assign
check_variable_in_definition l b =
    if leb b.intermediate_variables_start (abs l)
    then elim (find b.renamings (abs l)) [
      | none ↦
          let aux = b.last_used_intermediate_variable + 1 in
          (
            if is_pos l then pos aux else neg (pos aux),
            record b {
              renamings = assign b.renamings (abs l) aux;
              last_used_intermediate_variable = aux;
            },
          )
      | some aux ↦ (if is_pos l then pos aux else neg (pos aux), b)
    ]
    else (l, b)

-- The loop over the inputs of a gate: is the gate falsified, and its inputs as AIGER literals. The
-- outer `none` is an exception: `gate_renaming.at(in)` fails for a negated input, since the keys are
-- positive. An input that was renamed to a literal that is no constant is not pushed.
unfoldable pub gate_inputs :
    Map Bool → Map ℕ → List ℤ → List ℕ → Builder → Option (Bool × List ℕ × Builder)
unfolding check_variable_in_definition get_aiger_representation find
gate_inputs arbiters gate_renaming [] ins b = some (false, ins, b)
gate_inputs arbiters gate_renaming (l ∷ inputs) ins b =
    let skip = gate_inputs arbiters gate_renaming inputs ins b in
    let (x, b') = check_variable_in_definition l b in
    let push =
      gate_inputs arbiters gate_renaming inputs (ins ++ get_aiger_representation x ∷ []) b' in
    elim (find arbiters (var l)) [
      | some value ↦ if same (is_pos l) value then skip else some (true, ins, b)
      | none ↦ elim (find gate_renaming (abs l)) [
        | none ↦ push
        | some renamed ↦
            if is_pos l then if renamed == aiger_false then some (true, ins, b) else skip else none
      ]
    ]

unfoldable pub constant_gate : ℕ → Bool → Builder → Builder
constant_gate representation value b =
    let val = if value then aiger_true else aiger_false in aiger_add_and representation val val b

-- The gate of the defined variable; the result says whether the definition ends here.
unfoldable pub output_gate : ℕ → Bool → Bool → List ℕ → Builder → Bool × Builder
unfolding constant_gate
output_gate representation positive is_falsified ins b =
    if is_falsified then (true, constant_gate representation (not positive) b) else elim ins [
      | [] ↦ (false, constant_gate representation positive b)
      | x ∷ rest ↦ elim rest [
        | [] ↦ (false, aiger_add_and representation x aiger_true b)
        | y ∷ more ↦ (false, if is_empty more then aiger_add_and representation x y b else b)
      ]
    ]

-- Another gate, whose output is positive.
unfoldable pub inner_gate : ℤ → Bool → List ℕ → Map ℕ → Builder → Map ℕ × Builder
unfolding check_variable_in_definition get_aiger_representation assign
inner_gate gate_output is_falsified ins gate_renaming b =
    let rename : ℕ → Map ℕ × Builder = λ val. (assign gate_renaming (abs gate_output) val, b) in
    let (x, b') = check_variable_in_definition gate_output b in
    if is_falsified
    then rename (if is_pos gate_output then aiger_false else aiger_true)
    else elim ins [
      | [] ↦ rename aiger_true
      | first ∷ rest ↦ elim rest [
        | [] ↦ rename first
        | second ∷ more ↦
            if is_empty more
            then (gate_renaming, aiger_add_and (get_aiger_representation x) first second b')
            else (gate_renaming, b)
      ]
    ]

unfoldable pub add_definition_circuit_adder :
    ℕ → List ℤ → ℤ → Map ℕ → Map Bool → Builder → Option (Bool × Map ℕ × Builder)
unfolding gate_inputs output_gate inner_gate get_aiger_representation
add_definition_circuit_adder defined_variable inputs gate_output gate_renaming arbiters b =
    elim (gate_inputs arbiters gate_renaming inputs [] b) [
      | none ↦ none
      | some (is_falsified, ins, b₁) ↦
          let (ends, b₂) =
            output_gate (get_aiger_representation (pos defined_variable)) (is_pos gate_output)
              is_falsified ins b₁ in
          let (renaming, b₃) = inner_gate gate_output is_falsified ins gate_renaming b₁ in
          if defined_variable == abs gate_output
          then some (ends, gate_renaming, b₂)
          else some (false, renaming, b₃)
    ]

unfoldable pub add_definition : ℕ → Circuit → Map ℕ → Map Bool → Builder → Option Builder
unfolding add_definition_circuit_adder
add_definition defined_variable [] gate_renaming arbiters b = some b
add_definition defined_variable ((adder, output) ∷ def) gate_renaming arbiters b =
    let rest = λ (r : Map ℕ) (b' : Builder). add_definition defined_variable def r arbiters b' in
    elim (add_definition_circuit_adder defined_variable adder output gate_renaming arbiters b) [
      | none ↦ none
      | some (ends, renaming, b₁) ↦ if ends then some b₁ else rest renaming b₁
    ]

-- What the logger has recorded for each variable, by index.
pub record Model : Type 0 where
  pub definitions : List Circuit
  pub conditions : List (List (List ℤ))
  pub conditional_definitions : List (List Circuit)
  pub positive_forcing_clauses : List (List Clause)
  pub negative_forcing_clauses : List (List Clause)
  pub default_clauses : Map (List Clause)

-- The first conditional definition whose condition is entailed.
unfoldable pub entailed_definition : List (List ℤ) → List Circuit → Map Bool → Option Circuit
unfolding is_conflict_entailed
entailed_definition [] defs arbiters = none
entailed_definition (condition ∷ conditions) [] arbiters = none
entailed_definition (condition ∷ conditions) (cdef ∷ defs) arbiters =
    let rest = entailed_definition conditions defs arbiters in
    if is_conflict_entailed condition arbiters then some cdef else rest

-- `none` is an exception: the variable has no index, no default clauses where they are needed, or a
-- definition with a gate on which `gate_inputs` fails.
unfoldable pub add_skolem_function :
    Model → Map ℕ → List ℕ → ℕ → Map Bool → Builder → Option Builder
unfolding entailed_definition add_definition add_forcing_clauses find
add_skolem_function m indices existential_variables variable arbiters b =
    elim (find indices variable) [
      | none ↦ none
      | some index ↦
          let definition = get_or m.definitions index [] in
          let conditional =
            entailed_definition (get_or m.conditions index [])
              (get_or m.conditional_definitions index []) arbiters in
          let defined_variable = get_or existential_variables index 0 in
          if not (is_empty definition)
          then add_definition defined_variable definition [] arbiters b
          else elim conditional [
            | some cdef ↦ add_definition defined_variable cdef [] arbiters b
            | none ↦ elim (find m.default_clauses variable) [
              | none ↦ none
              | some default_clauses ↦ some (
                  add_forcing_clauses variable (get_or m.positive_forcing_clauses index [])
                    (get_or m.negative_forcing_clauses index []) default_clauses arbiters b)
            ]
          ]
    ]

unfoldable pub add_inputs : List ℕ → Builder → Builder
unfolding get_aiger_representation
add_inputs [] b = b
add_inputs (u ∷ universals) b =
    add_inputs universals (record b { inputs = b.inputs ++ get_aiger_representation (pos u) ∷ [] })

-- The loop over the existential variables, of which the builder keeps the whole list.
unfoldable pub add_outputs : Model → Map ℕ → List ℕ → List ℕ → Map Bool → Builder → Option Builder
unfolding add_skolem_function get_aiger_representation
add_outputs m indices existential_variables [] arbiters b = some b
add_outputs m indices existential_variables (e ∷ existentials) arbiters b =
    elim (add_skolem_function m indices existential_variables e arbiters b) [
      | none ↦ none
      | some b' ↦
          add_outputs m indices existential_variables existentials arbiters
            (record b' { outputs = b'.outputs ++ get_aiger_representation (pos e) ∷ [] })
    ]

unfoldable pub compute_circuit_representation :
    Model → Map ℕ → List ℕ → List ℕ → Map Bool → Builder → Option Builder
unfolding add_inputs add_outputs
compute_circuit_representation m indices universals existentials arbiters b =
    add_outputs m indices existentials existentials arbiters (add_inputs universals b)

-- The loop of `writeToFile`; the arbiters' literals are signed.
unfoldable pub arbiter_assignment_map : List ℤ → Map Bool → Map Bool
unfolding assign
arbiter_assignment_map [] m = m
arbiter_assignment_map (l ∷ literals) m =
    arbiter_assignment_map literals (assign m (var l) (is_pos l))
