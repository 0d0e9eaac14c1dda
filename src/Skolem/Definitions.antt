-- ===== src/Skolem/Definitions.antt =====
-- skolemcontainer.h, skolemcontainer.cc: definitions of existential variables under a conflict, default
-- function selectors and default clauses. The restriction to extended dependencies is a method of
-- the dependency container, `restrict_to_extended_dependencies` of Dependencies.Queries, and is `none`
-- where it throws.
use pedant_solver.Base.{
  ℕ, ◌+◌, Bool, not, ◌&&◌, ◌||◌, Option, none, some, List, [], ◌∷◌, ◌++◌, map, ◌==◌, if◌then◌else◌,
  length, set, is_empty, select, get_or,
}
use pedant_solver.Base.Int.{ℤ, pos, neg}
use pedant_solver.Base.Maps.{find, assign, at_or, emplace}
use pedant_solver.Dqdimacs.{Circuit}
use pedant_solver.Base.Sets.{contains}
use pedant_solver.Formula.{Clause}
use pedant_solver.Formula.Support.{get_support}
use pedant_solver.Literal.{var, negate_each, set_literal_sign}
use pedant_solver.Aiger.{without_last, back}
use pedant_solver.Skolem.{
  Call, Container, call, call_all, next_variable, add_forcing_disjunct, set_defined,
  add_clause_validity_check, add_clause_conflict_extraction, add_defining_clause,
  log_conditional_definition, check_definition, check_default_clause, check_default_value_active,
}

-- `operator[]` on the indices: a missing one is 0 from then on; `none` is -1.
abbrev pub selector_index : ℕ → Container → Option ℕ
selector_index e c = at_or c.default_function_selector_indices e (some 0)

abbrev pub index_selector : ℕ → Container → Container
index_selector e c = record c {
  default_function_selector_indices = emplace c.default_function_selector_indices e (some 0);
}

unfoldable pub disable_default_function_selector : ℕ → Container → Container
unfolding at_or emplace
disable_default_function_selector e c = elim (selector_index e c) [
  | none ↦ index_selector e c
  | some i ↦
      let selector = get_or c.validity_check_assumptions i (pos 0) in
      record (index_selector e c) {
        validity_check_assumptions = set c.validity_check_assumptions i (neg (pos (var selector)));
      }
]

unfoldable pub new_default_function_selector : ℕ → Container → ℕ × Container
unfolding disable_default_function_selector assign
new_default_function_selector e c =
    let c₁ = disable_default_function_selector e c in
    let selector = c₁.last_used_variable + 1 in
    (
      selector,
      record c₁ {
        last_used_variable = selector;
        default_function_selector_indices =
            assign c₁.default_function_selector_indices e
              (some (length c₁.validity_check_assumptions));
        validity_check_assumptions = c₁.validity_check_assumptions ++ neg (pos selector) ∷ [];
      },
    )

-- The clauses `{l, -active}`.
abbrev pub need_each : ℕ → ℕ → List ℤ → List Call
need_each variable active [] = []
need_each variable active (l ∷ conflict) =
    add_clause_validity_check variable (l ∷ neg (pos active) ∷ [])
    ∷ need_each variable active conflict

-- The clauses that say when the conflict is active, with those for the selector.
abbrev pub select_definition : ℕ → List ℤ → ℕ → Bool → List Call
select_definition variable conflict active reduced =
    let selector = active + 1 in
    let default_active = active + 2 in
    let clause = negate_each conflict ++ pos active ∷ [] in
    add_clause_validity_check variable clause
    ∷ ((if reduced then add_clause_conflict_extraction clause ∷ [] else [])
        ++ need_each variable active conflict
        ++ add_clause_validity_check variable
            (pos active ∷ pos default_active ∷ neg (pos selector) ∷ [])
          ∷ add_clause_validity_check variable (neg (pos active) ∷ pos selector ∷ [])
          ∷ add_clause_validity_check variable (neg (pos default_active) ∷ pos selector ∷ [])
          ∷ [])

-- The clauses behind the new default function selector.
abbrev pub select_default : ℕ → ℕ → ℕ → ℕ → Bool → List Call
select_default variable active default_selector no_forcing reduced =
    let default_active = active + 2 in
    add_clause_validity_check variable (neg (pos default_active) ∷ pos no_forcing ∷ [])
    ∷ add_clause_validity_check variable (neg (pos default_active) ∷ pos default_selector ∷ [])
    ∷ add_clause_validity_check variable
        (neg (pos no_forcing) ∷ neg (pos default_selector) ∷ pos default_active ∷ [])
    ∷ add_clause_validity_check variable (neg (pos active) ∷ neg (pos no_forcing) ∷ [])
    ∷ (if reduced
        then add_clause_conflict_extraction (neg (pos active) ∷ pos (active + 1) ∷ []) ∷ []
        else [])

unfoldable pub add_definition_with_selector : ℕ → List Clause → ℕ → Bool → List Call
add_definition_with_selector variable [] selector reduced = []
add_definition_with_selector variable (clause ∷ definition) selector reduced =
    let selected = clause ++ neg (pos selector) ∷ [] in
    add_clause_validity_check variable selected
    ∷ ((if reduced then add_clause_conflict_extraction selected ∷ [] else [])
        ++ add_definition_with_selector variable definition selector reduced)

-- A definition without a conflict defines the variable.
abbrev pub define : ℕ → List ℤ → Container → Container
define variable conflict c =
    if is_empty conflict && contains c.undefined_existentials variable
    then record (call (set_defined variable) c) {
      undefined_existentials = select (λ v. not (v == variable)) c.undefined_existentials;
    }
    else c

unfoldable pub add_definition :
    (List ℤ → ℕ → Option (List ℤ))
    → ℕ
    → List Clause
    → Circuit
    → List ℤ
    → Bool
    → Container
    → Option Container
unfolding new_default_function_selector add_forcing_disjunct add_definition_with_selector at_or
    get_support
add_definition restrict variable definition circuit_def conflict reduced c =
    let c₁ = define variable conflict (
      call_all
        (log_conditional_definition variable conflict definition circuit_def
          ∷ check_definition variable definition conflict
          ∷ [])
        c) in
    let conflict_active = c₁.last_used_variable + 1 in
    let selector = conflict_active + 1 in
    let c₂ =
      call_all (select_definition variable conflict conflict_active reduced)
        (next_variable (next_variable (next_variable c₁))) in
    let (default_selector, c₃) = new_default_function_selector variable c₂ in
    let no_forcing = at_or c₃.no_forcing_clause_active_variables variable 0 in
    let c₄ =
      call_all (select_default variable conflict_active default_selector no_forcing reduced) c₃ in
    let clauses =
      add_definition_with_selector variable definition selector
        (not (is_empty conflict) || reduced) in
    elim (add_forcing_disjunct variable conflict_active c₄) [
      | none ↦ none
      | some c₅ ↦ elim (restrict (map pos (get_support conflict definition)) variable) [
        | none ↦ none
        | some support ↦
            some
              (call_all (clauses ++ add_defining_clause variable support conflict_active ∷ []) c₅)
      ]
    ]

unfoldable pub set_default_value_active : ℕ → Bool → Container → Container
unfolding at_or emplace set_literal_sign
set_default_value_active e active c =
    let sign : List ℤ → ℕ → Bool → List ℤ =
      λ literals i b. set literals i (set_literal_sign (get_or literals i (pos 0)) b) in
    let used = sign c.validity_check_assumptions (at_or c.use_default_indices e 0) active in
    let selected : List ℤ = elim (selector_index e c) [
      | none ↦ used
      | some i ↦ sign used i (not active)
    ] in
    call (check_default_value_active e active) (record (index_selector e c) {
      validity_check_assumptions = selected;
      use_default_indices = emplace c.use_default_indices e 0;
    })

-- A clause with its label at the end, under the condition that the default is used.
unfoldable pub add_default_clause : ℕ → Clause → ℕ → Container → Container
unfolding without_last back
add_default_clause variable clause use_default c =
    call_all
      (check_default_clause (without_last clause) (back clause)
        ∷ add_clause_validity_check variable (clause ++ neg (pos use_default) ∷ [])
        ∷ [])
      c

unfoldable pub add_each_default : ℕ → List Clause → ℕ → Container → Container
unfolding add_default_clause
add_each_default variable [] use_default c = c
add_each_default variable (clause ∷ clauses) use_default c =
    add_each_default variable clauses use_default (add_default_clause variable clause use_default c)

-- `none` is the exception of `at`.
unfoldable pub add_default_clauses : ℕ → List Clause → Container → Option Container
unfolding add_each_default find
add_default_clauses variable clauses c = elim (find c.apply_default variable) [
  | none ↦ none
  | some use_default ↦ some (add_each_default variable clauses use_default c)
]

-- The clauses that the default container gives at its start.
unfoldable pub init_default_container : List (ℕ × List Clause) → Container → Option Container
unfolding add_default_clauses
init_default_container [] c = some c
init_default_container ((variable, clauses) ∷ x) c = elim (add_default_clauses variable clauses c) [
  | none ↦ none
  | some c' ↦ init_default_container x c'
]
