-- ===== src/Logger.antt =====
-- modellogger.cc: the recording of the model of a formula, and its writing as clauses.
pub mod Writer
pub mod Process
pub mod Cnf
pub mod Recorded
pub mod Indexed
use pedant_solver.Base.{
  ℕ, zero, suc, ◌+◌, ◌-◌, ◌*◌, ◌/◌, ◌%◌, ◌^◌, ◌≤◌, ◌<◌, max, ◌≡◌, refl, sym, ap, ◌∙◌, subst, ◌≢◌,
  ◌↔◌, ◌⊎◌, inl, inr, Bool, true, false, not, ◌&&◌, ◌||◌, Option, none, some, List, [], ◌∷◌, ◌++◌,
  map, arith, ltb, leb, ◌==◌, if◌then◌else◌, Bool-cases, Option-cases, Bool_ext, not-not, ==_iff,
  ==_refl, length, get_elem?, set, is_empty, any, all, select, All, length-append, any-append,
  all-append, All-append, All-left, length-select-le, length-set, get_or, get_or-set_self,
  get_or-set_ne, get_or-append_left,
}
use pedant_solver.Base.Maps.{
  Map, find, assign, erase, has, emplace, at_or, find-assign, find-erase, find-emplace,
}
use pedant_solver.Base.Int.{
  ℤ, pos, negsuc, neg, abs, is_pos, is_neg, of_bool, eq_ℤ, eq_ℤ_iff, neg-neg, abs-neg,
}
use pedant_solver.Formula.{Clause}
use pedant_solver.Literal.{var}
use pedant_solver.Dqdimacs.{Circuit}

pub record ModelLogger : Type 0 where
  pub max_variable_in_matrix : ℕ
  pub unused_variable : ℕ
  pub indices : Map ℕ
  pub existential_variables : List ℕ
  pub universal_variables : List ℕ
  pub positive_forcing_clauses : List (List Clause)
  pub negative_forcing_clauses : List (List Clause)
  pub definitions_circuit : List Circuit
  pub definitions_cnf : List (List Clause)
  pub conditions : List (List (List ℤ))
  pub conditional_definitions_circuit : List (List Circuit)
  pub conditional_definitions_cnf : List (List (List Clause))
  pub renaming_auxiliaries : Map ℕ

-- The members that the constructor leaves without a value are arguments.
unfoldable pub new_model_logger : ℕ → ℕ → List ℕ → List ℕ → ModelLogger
new_model_logger junk junk' existential_variables universal_variables = record {
  max_variable_in_matrix = junk;
  unused_variable = junk';
  indices = [];
  existential_variables = existential_variables;
  universal_variables = universal_variables;
  positive_forcing_clauses = [];
  negative_forcing_clauses = [];
  definitions_circuit = [];
  definitions_cnf = [];
  conditions = [];
  conditional_definitions_circuit = [];
  conditional_definitions_cnf = [];
  renaming_auxiliaries = [];
}

-- The loop of `init`: a variable that is present keeps its index.
unfoldable pub insert_indices : List ℕ → ℕ → Map ℕ → Map ℕ
unfolding emplace
insert_indices [] i m = m
insert_indices (existential ∷ existentials) i m =
    insert_indices existentials (suc i) (emplace m existential i)

-- `resize`
unfoldable pub resize {ℓ} : {A : Type ℓ} → ℕ → A → List A → List A
resize zero d xs = []
resize (suc n) d [] = d ∷ resize n d []
resize (suc n) d (x ∷ xs) = x ∷ resize n d xs

unfoldable pub init : ℕ → ModelLogger → ModelLogger
unfolding insert_indices resize
init last_variable_in_matrix m =
    let nof_existentials = length m.existential_variables in
    record m {
      max_variable_in_matrix = last_variable_in_matrix;
      unused_variable = last_variable_in_matrix + 1;
      indices = insert_indices m.existential_variables 0 m.indices;
      positive_forcing_clauses = resize nof_existentials [] m.positive_forcing_clauses;
      negative_forcing_clauses = resize nof_existentials [] m.negative_forcing_clauses;
      definitions_circuit = resize nof_existentials [] m.definitions_circuit;
      definitions_cnf = resize nof_existentials [] m.definitions_cnf;
      conditions = resize nof_existentials [] m.conditions;
      conditional_definitions_circuit =
          resize nof_existentials [] m.conditional_definitions_circuit;
      conditional_definitions_cnf = resize nof_existentials [] m.conditional_definitions_cnf;
    }

-- `v[i].push_back(x)`
unfoldable pub push_at {ℓ} : {A : Type ℓ} → List (List A) → ℕ → A → List (List A)
push_at xss i x = set xss i (get_or xss i [] ++ x ∷ [])

-- `getIndex`: the method `at`, which throws for a missing key
unfoldable pub get_index : ModelLogger → ℕ → Option ℕ
unfolding find
get_index m existential = find m.indices existential

-- The last literal of a clause, and the clause without it; undefined for an empty clause.
unfoldable pub split_last : ℤ → Clause → ℤ × Clause
split_last l [] = (l, [])
split_last l (k ∷ c) = let (forced, fc) = split_last k c in (forced, l ∷ fc)

unfoldable pub store_forcing_clause : ℤ → Clause → ℕ → ModelLogger → ModelLogger
unfolding push_at
store_forcing_clause forced_literal fc idx m =
    if is_pos forced_literal
    then record m { positive_forcing_clauses = push_at m.positive_forcing_clauses idx fc }
    else record m { negative_forcing_clauses = push_at m.negative_forcing_clauses idx fc }

unfoldable pub add_forcing_clause : ℤ → Clause → ModelLogger → Option ModelLogger
unfolding store_forcing_clause get_index split_last
add_forcing_clause l c m =
    let (forced_literal, fc) = split_last l c in
    elim (get_index m (var forced_literal)) [
      | none ↦ none
      | some idx ↦ some (store_forcing_clause forced_literal fc idx m)
    ]

unfoldable pub add_definition : ℕ → List Clause → Circuit → ModelLogger → Option ModelLogger
unfolding get_index
add_definition variable def_clauses def_circuit m = elim (get_index m variable) [
  | none ↦ none
  | some idx ↦ some (record m {
    definitions_circuit = set m.definitions_circuit idx def_circuit;
    definitions_cnf = set m.definitions_cnf idx def_clauses;
  })
]

unfoldable pub add_conditional_definition :
    ℕ → List ℤ → List Clause → Circuit → ModelLogger → Option ModelLogger
unfolding get_index add_definition push_at
add_conditional_definition variable [] def_clauses def_circuit m =
    add_definition variable def_clauses def_circuit m
add_conditional_definition variable (l ∷ condition) def_clauses def_circuit m =
    elim (get_index m variable) [
      | none ↦ none
      | some idx ↦ some (record m {
        conditions = push_at m.conditions idx (l ∷ condition);
        conditional_definitions_circuit = push_at m.conditional_definitions_circuit idx def_circuit;
        conditional_definitions_cnf = push_at m.conditional_definitions_cnf idx def_clauses;
      })
    ]
