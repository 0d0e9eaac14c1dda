-- ===== src/Skolem.antt =====
-- skolemcontainer.h, skolemcontainer.cc: the clauses that stand for the candidate Skolem functions.
-- What the container tells the other components is kept as the list of the calls in order.
pub mod Forcing
pub mod Arbiters
pub mod Annotations
pub mod Realization
pub mod Requests
pub mod Definitions
pub mod Selection
pub mod Meaning
pub mod Encoding
pub mod Start
pub mod Runs
use pedant_solver.Base.{
  ℕ, ◌+◌, max, Bool, Option, none, some, List, [], ◌∷◌, ◌++◌, if◌then◌else◌, length,
}
use pedant_solver.Base.Int.{ℤ, pos, neg}
use pedant_solver.Base.Maps.{Map, find, assign, emplace, at_or}
use pedant_solver.Formula.{Clause}
use pedant_solver.Literal.{var}
use pedant_solver.Aiger.{without_last, back}
use pedant_solver.Dqdimacs.{Circuit}
use pedant_solver.Disjunction.{Disjunction, Shared, new_disjunction, create_disjunct}

-- A call of the consistency checker (the names with `check_`), of the model logger (`log_`, `init_model`)
-- or else of the validity checker.
pub data Call : Type 0 where
  add_clause_validity_check : ℕ → Clause → Call
  add_clause_conflict_extraction : Clause → Call
  add_defining_clause : ℕ → Clause → ℕ → Call
  set_no_forcing_clause_active_variable : ℕ → ℕ → Call
  set_defined : ℕ → Call
  check_forcing_clause : Clause → Call
  log_forcing_clause : Clause → Call
  init_model : ℕ → Call
  check_arbiter_variable : ℕ → ℕ → Call
  add_arbiter_variable : ℕ → Call
  log_conditional_definition : ℕ → List ℤ → List Clause → Circuit → Call
  check_definition : ℕ → List Clause → List ℤ → Call
  check_default_clause : Clause → ℤ → Call
  check_default_value_active : ℕ → Bool → Call

-- `validity_check_assumptions` are also the terminals of the disjunctions. The index of a default
-- function selector is `none` for -1.
pub record Container : Type 0 where
  pub last_used_variable : ℕ
  pub validity_check_assumptions : List ℤ
  pub forcing_disjunctions : Map Disjunction
  pub no_forcing_clause_active_variables : Map ℕ
  pub use_default_indices : Map ℕ
  pub default_function_selector_indices : Map (Option ℕ)
  pub apply_default : Map ℕ
  pub arbiter_to_annotation : Map (List ℤ)
  pub arbiter_to_existential : Map ℕ
  pub existential_arbiter_map : Map (List (List ℤ × ℕ))
  pub proper_arbiters : List ℕ
  pub undefined_existentials : List ℕ
  pub calls : List Call

abbrev pub call : Call → Container → Container
call x c = record c { calls = c.calls ++ x ∷ [] }

abbrev pub call_all : List Call → Container → Container
call_all xs c = record c { calls = c.calls ++ xs }

abbrev pub next_variable : Container → Container
next_variable c = record c { last_used_variable = c.last_used_variable + 1 }

abbrev pub shared : Container → Shared
shared c = record {
  last_used_variable = c.last_used_variable;
  terminals = c.validity_check_assumptions;
}

-- `createDisjunct` of a copy of the variable's disjunction: what it changes of the copy is lost, not
-- what the disjunctions share.
unfoldable pub add_disjunct : ℕ → ℕ → Disjunction → Container → Container
unfolding create_disjunct
add_disjunct variable active d c =
    let (clause, d', s) = create_disjunct (pos active ∷ []) d (shared c) in
    record c {
      last_used_variable = s.last_used_variable;
      validity_check_assumptions = s.terminals;
      calls = c.calls ++ add_clause_validity_check variable clause ∷ [];
    }

-- `none` is the exception of `at`.
unfoldable pub add_forcing_disjunct : ℕ → ℕ → Container → Option Container
unfolding find add_disjunct
add_forcing_disjunct variable active c = elim (find c.forcing_disjunctions variable) [
  | none ↦ none
  | some d ↦ some (add_disjunct variable active d c)
]

-- The clauses `{-l, -active}`.
abbrev pub deactivate_each : ℕ → ℕ → Clause → List Call
deactivate_each variable active [] = []
deactivate_each variable active (l ∷ premise) =
    add_clause_validity_check variable (neg l ∷ neg (pos active) ∷ [])
    ∷ deactivate_each variable active premise

-- The calls for a clause with a literal that it implies, before its disjunct.
abbrev pub activate : ℕ → ℤ → Clause → ℕ → ℕ → List Call
activate variable literal premise active no_forcing =
    add_clause_validity_check variable (premise ++ pos active ∷ [])
    ∷ add_clause_validity_check variable (neg (pos active) ∷ literal ∷ [])
    ∷ add_defining_clause variable (premise ++ pos active ∷ []) active
    ∷ add_clause_validity_check variable (neg (pos active) ∷ neg (pos no_forcing) ∷ [])
    ∷ []

-- The clause is not empty; its last literal is the forced one. `none` is the exception of `at`.
unfoldable pub add_forcing_clause : Clause → Bool → Container → Option Container
unfolding add_forcing_disjunct at_or without_last back
add_forcing_clause forcing_clause reduced c =
    let forced_literal = back forcing_clause in
    let forced_variable = var forced_literal in
    let premise = without_last forcing_clause in
    let extraction = if reduced then add_clause_conflict_extraction forcing_clause ∷ [] else [] in
    let forcing_clause_active = c.last_used_variable + 1 in
    let default_active_variable = at_or c.no_forcing_clause_active_variables forced_variable 0 in
    let c' = next_variable (
      call_all
        (check_forcing_clause forcing_clause ∷ log_forcing_clause forcing_clause ∷ extraction
          ++ activate forced_variable forced_literal premise forcing_clause_active
              default_active_variable)
        c) in
    elim (add_forcing_disjunct forced_variable forcing_clause_active c') [
      | none ↦ none
      | some c'' ↦
          some (call_all (deactivate_each forced_variable forcing_clause_active premise) c'')
    ]

-- The same calls in the order of `addArbiterClause`.
abbrev pub activate_arbiter : ℕ → ℤ → Clause → ℕ → ℕ → List Call
activate_arbiter variable literal premise active no_forcing =
    add_clause_validity_check variable (premise ++ pos active ∷ [])
    ∷ add_defining_clause variable (premise ++ pos active ∷ []) active
    ∷ add_clause_validity_check variable (neg (pos active) ∷ literal ∷ [])
    ∷ add_clause_validity_check variable (neg (pos active) ∷ neg (pos no_forcing) ∷ [])
    ∷ []

unfoldable pub add_arbiter_clause : Clause → Container → Option Container
unfolding add_forcing_disjunct at_or without_last back
add_arbiter_clause arbiter_clause c =
    let implied_literal = back arbiter_clause in
    let implied_variable = var implied_literal in
    let premise = without_last arbiter_clause in
    let clause_active = c.last_used_variable + 1 in
    let no_forcing_active = at_or c.no_forcing_clause_active_variables implied_variable 0 in
    let c' = next_variable (
      call_all
        (check_forcing_clause arbiter_clause
          ∷ add_clause_conflict_extraction arbiter_clause
          ∷ log_forcing_clause arbiter_clause
          ∷ activate_arbiter implied_variable implied_literal premise clause_active
              no_forcing_active)
        c) in
    elim (add_forcing_disjunct implied_variable clause_active c') [
      | none ↦ none
      | some c'' ↦ some (call_all (deactivate_each implied_variable clause_active premise) c'')
    ]

-- One round of the loop of `initValidityCheckModel`. The disjunction that is built is kept here, in
-- contrast to `add_disjunct`.
unfoldable pub init_with : Disjunction → ℕ → Container → Container
unfolding assign create_disjunct
init_with disjunction e c =
    let no_forcing_clause_active = c.last_used_variable + 1 in
    let (clause, d, s) =
      create_disjunct (pos no_forcing_clause_active ∷ []) disjunction (shared (next_variable c)) in
    let use_default = s.last_used_variable + 1 in
    let use_default_value = use_default + 1 in
    record c {
      last_used_variable = use_default_value;
      validity_check_assumptions = s.terminals ++ pos use_default_value ∷ [];
      forcing_disjunctions = assign c.forcing_disjunctions e d;
      no_forcing_clause_active_variables =
          assign c.no_forcing_clause_active_variables e no_forcing_clause_active;
      use_default_indices = assign c.use_default_indices e (length s.terminals);
      default_function_selector_indices = assign c.default_function_selector_indices e none;
      apply_default = assign c.apply_default e use_default;
      calls =
          c.calls
          ++ set_no_forcing_clause_active_variable e no_forcing_clause_active
            ∷ add_clause_validity_check e clause
            ∷ add_clause_validity_check e (
                neg (pos no_forcing_clause_active)
                ∷ neg (pos use_default_value)
                ∷ pos use_default
                ∷ [])
            ∷ [];
    }

-- `emplace` keeps the disjunction of a variable that has one.
unfoldable pub init_variable : ℕ → Container → Container
unfolding at_or init_with
init_variable e c = init_with (at_or c.forcing_disjunctions e new_disjunction) e c

unfoldable pub init_variables : List ℕ → Container → Container
unfolding init_variable
init_variables [] c = c
init_variables (e ∷ existentials) c = init_variables existentials (init_variable e c)

abbrev pub max_of : List ℕ → ℕ
max_of [] = 0
max_of (v ∷ vs) = max v (max_of vs)

unfoldable pub init_validity_check_model : List ℕ → List ℕ → Container → Container
unfolding init_variables
init_validity_check_model existentials universals c =
    call (init_model (max (max_of universals) (max_of existentials)))
      (init_variables existentials c)
