-- ===== src/Logger/Cnf.antt =====
-- modellogger.cc: the model as a file of clauses, in sections for the variables.
pub mod Header
pub mod Printed
pub mod Decided
use pedant_solver.Base.{
  ℕ, zero, suc, ◌+◌, ◌-◌, ◌*◌, ◌/◌, ◌%◌, ◌^◌, ◌≤◌, ◌<◌, max, ◌≡◌, refl, sym, ap, ◌∙◌, subst, ◌≢◌,
  ◌↔◌, ◌⊎◌, inl, inr, Bool, true, false, not, ◌&&◌, ◌||◌, Option, none, some, List, [], ◌∷◌, ◌++◌,
  map, arith, ltb, leb, ◌==◌, if◌then◌else◌, Bool-cases, Option-cases, Bool_ext, not-not, ==_iff,
  ==_refl, length, get_elem?, set, is_empty, any, all, select, All, length-append, any-append,
  all-append, All-append, All-left, length-select-le, length-set, get_or, get_or-set_self,
  get_or-set_ne, get_or-append_left,
}
use pedant_solver.Base.Maps.{
  Map, find, assign, erase, has, emplace, at_or, find-assign, find-erase, find-emplace,
}
use pedant_solver.Base.Int.{
  ℤ, pos, negsuc, neg, abs, is_pos, is_neg, of_bool, eq_ℤ, eq_ℤ_iff, neg-neg, abs-neg,
}
use pedant_solver.Formula.{Clause}
use pedant_solver.Text.{Text, newline, to_string}
use pedant_solver.Logger.{ModelLogger}
use pedant_solver.Logger.Writer.{Writer, is_condition_entailed, write_reduced_formula, sort_ints}
use pedant_solver.Logger.Process.{process_forcing_clauses}

-- The first conditional definition whose condition is entailed is written. The conditions and the
-- definitions of a variable are as many.
unfoldable pub write_conditional_definitions :
    ℕ → List (List ℤ) → List (List Clause) → List ℤ → Writer → Bool × Writer
unfolding is_condition_entailed write_reduced_formula
write_conditional_definitions limit [] definitions assignment w = (false, w)
write_conditional_definitions limit (condition ∷ conditions) [] assignment w = (false, w)
write_conditional_definitions limit (condition ∷ conditions) (def ∷ definitions) assignment w =
    let rest = write_conditional_definitions limit conditions definitions assignment w in
    if is_condition_entailed condition assignment
    then (true, write_reduced_formula limit def assignment w)
    else rest

-- With the default clauses of a variable, where the map has them: `at` throws if it has not.
unfoldable pub write_by_clauses :
    ModelLogger → ℕ → Option (List Clause) → List ℤ → Writer → Option Writer
unfolding process_forcing_clauses
write_by_clauses m idx none assignment w = none
write_by_clauses m idx (some default_clauses) assignment w = some (
    process_forcing_clauses m.max_variable_in_matrix (get_or m.existential_variables idx 0)
      (get_or m.positive_forcing_clauses idx []) (get_or m.negative_forcing_clauses idx [])
      default_clauses assignment w)

-- The body of the loop over `indices`: a definition, or a conditional one, or forcing clauses.
unfoldable pub write_variable :
    ModelLogger → Map (List Clause) → ℕ → ℕ → List ℤ → Writer → Option Writer
unfolding write_conditional_definitions write_by_clauses write_reduced_formula find
write_variable m default_clause_map e idx assignment w =
    let def = get_or m.definitions_cnf idx [] in
    let (entailed, w') =
      write_conditional_definitions m.max_variable_in_matrix (get_or m.conditions idx [])
        (get_or m.conditional_definitions_cnf idx []) assignment w in
    if not (is_empty def)
    then some (write_reduced_formula m.max_variable_in_matrix def assignment w)
    else if entailed
    then some w'
    else write_by_clauses m idx (find default_clause_map e) assignment w'

-- A variable and the clauses after its comment.
abbrev pub Section : Type 0
Section = ℕ × List Clause

-- The clauses of all sections.
unfoldable pub all_clauses : List Section → List Clause
all_clauses [] = []
all_clauses ((e, clauses) ∷ sections) = clauses ++ all_clauses sections

abbrev pub push_section : Section → Option (List Section × Writer) → Option (List Section × Writer)
push_section section none = none
push_section section (some (sections, w)) = some (section ∷ sections, w)

-- The loop over `indices`; the clauses of a variable are those since its comment.
unfoldable pub write_variables :
    ModelLogger → Map (List Clause) → Map ℕ → List ℤ → Writer → Option (List Section × Writer)
unfolding write_variable
write_variables m default_clause_map [] assignment w = some ([], w)
write_variables m default_clause_map ((e, idx) ∷ indices) assignment w =
    elim (write_variable m default_clause_map e idx assignment (record w { out = [] })) [
      | none ↦ none
      | some w' ↦
          push_section (e, w'.out) (write_variables m default_clause_map indices assignment w')
    ]

unfoldable pub clause_text : Clause → Text
unfolding to_string
clause_text [] = b'0' ∷ []
clause_text (l ∷ clause) = to_string l ++ b' ' ∷ clause_text clause

unfoldable pub clauses_text : List Clause → Text
unfolding clause_text
clauses_text [] = []
clauses_text (clause ∷ clauses) = clause_text clause ++ newline ∷ clauses_text clauses

-- ` Model for variable `
abbrev pub model_for : Text
model_for =
    b' ' ∷ b'M' ∷ b'o' ∷ b'd' ∷ b'e' ∷ b'l' ∷ b' ' ∷ b'f' ∷ b'o' ∷ b'r' ∷ b' ' ∷ b'v' ∷ b'a' ∷ b'r'
    ∷ b'i' ∷ b'a' ∷ b'b' ∷ b'l' ∷ b'e' ∷ b' ' ∷ []

unfoldable pub sections_text : List Section → Text
unfolding clauses_text to_string
sections_text [] = []
sections_text ((e, clauses) ∷ sections) =
    (b'c' ∷ (model_for ++ (to_string (pos e) ++ b'.' ∷ [])))
    ++ newline ∷ (clauses_text clauses ++ sections_text sections)

unfoldable pub model_text : ℕ → ℕ → List Section → Text
unfolding sections_text to_string
model_text variables nof_clauses sections =
    (b'p'
      ∷ b' '
      ∷ b'c'
      ∷ b'n'
      ∷ b'f'
      ∷ b' '
      ∷ (to_string (pos variables) ++ b' ' ∷ to_string (pos nof_clauses)))
    ++ newline ∷ sections_text sections

-- The file and the logger afterwards.
abbrev pub finish : ModelLogger → Option (List Section × Writer) → Option (Text × ModelLogger)
finish m none = none
finish m (some (sections, w)) = some (
  model_text (w.unused_variable - 1) w.nof_clauses sections,
  record m { unused_variable = m.max_variable_in_matrix + 1; renaming_auxiliaries = [] },
)

unfoldable pub start : ModelLogger → Writer
start m = record {
  unused_variable = m.unused_variable;
  renaming_auxiliaries = m.renaming_auxiliaries;
  nof_clauses = 0;
  out = [];
}

unfoldable pub write_model_as_cnf :
    ModelLogger → Map (List Clause) → List ℤ → Option (Text × ModelLogger)
unfolding write_variables model_text sort_ints start
write_model_as_cnf m default_clause_map arbiter_assignment =
    finish m
      (write_variables m default_clause_map m.indices (sort_ints arbiter_assignment) (start m))
