-- ===== src/Defaults.antt =====
-- defaultvaluecontainer.h, defaultvaluecontainer.cc: the default values of the existential variables,
-- as the code is without machine learning. Each has two selectors among the assumptions, of which the
-- sign says whether they are active.

pub mod Pairs
pub mod Growth
pub mod Polarity
pub mod Certificate
use pedant_solver.Base.{
  ℕ, zero, suc, ◌+◌, ◌-◌, ◌*◌, ◌/◌, ◌%◌, ◌^◌, ◌≤◌, ◌<◌, max, ◌≡◌, refl, sym, ap, ◌∙◌, subst, ◌≢◌,
  ◌↔◌, ◌⊎◌, inl, inr, Bool, true, false, not, ◌&&◌, ◌||◌, Option, none, some, List, [], ◌∷◌, ◌++◌,
  map, arith, ltb, leb, ◌==◌, if◌then◌else◌, Bool-cases, Option-cases, Bool_ext, not-not, ==_iff,
  ==_refl, length, get_elem?, set, is_empty, any, all, select, All, length-append, any-append,
  all-append, All-append, All-left, length-select-le, length-set, get_or, get_or-set_self,
  get_or-set_ne, get_or-append_left,
}
use pedant_solver.Base.Int.{
  ℤ, pos, negsuc, neg, abs, is_pos, is_neg, of_bool, eq_ℤ, eq_ℤ_iff, neg-neg, abs-neg,
}
use pedant_solver.Base.Maps.{
  Map, find, assign, erase, has, emplace, at_or, find-assign, find-erase, find-emplace,
}
use pedant_solver.Base.Sets.{contains, insert}
use pedant_solver.Formula.{Clause}
use pedant_solver.Literal.{var}

pub record Defaults : Type 0 where
  pub last_used_variable : ℕ
  pub assumptions : List ℤ
  pub default_selectors : List ℤ
  pub variables_with_defaults : List ℕ
  pub positive_indices_assumptions : Map ℕ
  pub negative_indices_assumptions : Map ℕ
  pub positive_indices_selectors : Map ℕ
  pub negative_indices_selectors : Map ℕ

abbrev pub use_default : ℕ → Defaults → Bool
use_default v d = contains d.variables_with_defaults v

-- Without machine learning.
abbrev pub tree_is_available : ℕ → Bool
tree_is_available v = false

abbrev pub tree_active : ℕ → Bool
tree_active v = false

abbrev pub signed : Bool → ℕ → ℤ
signed polarity v = if polarity then pos v else neg (pos v)

-- `literals[index] = abs(literals[index])`, or its negation.
abbrev pub set_sign : List ℤ → ℕ → Bool → List ℤ
set_sign literals index polarity =
    set literals index (signed polarity (abs (get_or literals index (pos 0))))

-- The positive and then the negative literal of a variable. `none` is the exception of `at`.
unfoldable pub set_signs : Map ℕ → Map ℕ → List ℤ → ℕ → Bool → Bool → Option (List ℤ)
unfolding find
set_signs positive negative literals v on_positive on_negative = elim (find positive v) [
  | none ↦ none
  | some p ↦ elim (find negative v) [
    | none ↦ none
    | some n ↦ some (set_sign (set_sign literals p on_positive) n on_negative)
  ]
]

abbrev pub with_literals : Defaults → Option (List ℤ) → Option (List ℤ) → Option Defaults
with_literals d none selectors = none
with_literals d (some assumptions') none = none
with_literals d (some assumptions') (some selectors) =
    some (record d { assumptions = assumptions'; default_selectors = selectors })

unfoldable pub set_fixed_default_polarity_unchecked : ℕ → Bool → Defaults → Option Defaults
unfolding set_signs
set_fixed_default_polarity_unchecked v polarity d =
    with_literals d
      (set_signs d.positive_indices_assumptions d.negative_indices_assumptions d.assumptions v
        polarity (not polarity))
      (set_signs d.positive_indices_selectors d.negative_indices_selectors d.default_selectors v
        polarity (not polarity))

unfoldable pub set_fixed_default_polarity : ℕ → Bool → Defaults → Option Defaults
unfolding set_fixed_default_polarity_unchecked
set_fixed_default_polarity v polarity d =
    let changed = set_fixed_default_polarity_unchecked v polarity d in
    if use_default v d && not (tree_active v) then changed else some d

-- With `use_ml_trees` false. The clauses that are returned are none.
unfoldable pub insert_conflict : ℤ → Defaults → Option (List Clause × Defaults)
unfolding set_fixed_default_polarity_unchecked
insert_conflict forced_literal d =
    let variable = var forced_literal in
    let changed = set_fixed_default_polarity_unchecked variable (is_pos forced_literal) d in
    if not (use_default variable d)
    then some ([], d)
    else elim changed [ none ↦ none | some d' ↦ some ([], d') ]

unfoldable pub new_fixed_default_selector : ℕ → Defaults → (ℕ × ℕ) × Defaults
unfolding assign
new_fixed_default_selector v d =
    let positive_selector = d.last_used_variable + 1 in
    let negative_selector = positive_selector + 1 in
    let both = pos positive_selector ∷ neg (pos negative_selector) ∷ [] in
    (
      (positive_selector, negative_selector),
      record {
        last_used_variable = negative_selector;
        assumptions = d.assumptions ++ both;
        default_selectors = d.default_selectors ++ both;
        variables_with_defaults = d.variables_with_defaults;
        positive_indices_assumptions =
            assign d.positive_indices_assumptions v (length d.assumptions);
        negative_indices_assumptions =
            assign d.negative_indices_assumptions v (length d.assumptions + 1);
        positive_indices_selectors =
            assign d.positive_indices_selectors v (length d.default_selectors);
        negative_indices_selectors =
            assign d.negative_indices_selectors v (length d.default_selectors + 1);
      },
    )

-- One round of the loop, and the loop, over the existential variables.
unfoldable pub add_default : ℕ → Defaults → (ℕ × List Clause) × Defaults
unfolding new_fixed_default_selector insert
add_default v d =
    let d' : Defaults = record d { variables_with_defaults = insert v d.variables_with_defaults } in
    let ((sel1, sel2), d'') = new_fixed_default_selector v d' in
    ((v, (neg (pos sel1) ∷ pos v ∷ []) ∷ (neg (pos sel2) ∷ neg (pos v) ∷ []) ∷ []), d'')

unfoldable pub initialize : List ℕ → List ℕ → Defaults → List (ℕ × List Clause) × Defaults
unfolding add_default
initialize undefined_variables [] d = ([], d)
initialize undefined_variables (v ∷ existentials) d =
    let (here, d₁) = add_default v d in
    let (rest, d₂) = initialize undefined_variables existentials d₁ in
    let skipped = initialize undefined_variables existentials d in
    if contains undefined_variables v then (here ∷ rest, d₂) else skipped

-- `-var` or `var`, by the sign of the selector.
abbrev pub default_clause : ℕ → ℤ → List Clause
default_clause v selector = (if is_pos selector then pos v ∷ [] else neg (pos v) ∷ []) ∷ []

unfoldable pub certificate_loop : List ℕ → Defaults → Map (List Clause) → Option (Map (List Clause))
unfolding find assign
certificate_loop [] d result = some result
certificate_loop (v ∷ existentials) d result =
    let skipped = certificate_loop existentials d result in
    let with = λ (selector : ℤ).
      certificate_loop existentials d (assign result v (default_clause v selector)) in
    if not (use_default v d) then skipped else elim (find d.positive_indices_selectors v) [
      | none ↦ none
      | some index ↦ with (get_or d.default_selectors index (pos 0))
    ]

unfoldable pub get_certificate : List ℕ → Defaults → Option (Map (List Clause))
unfolding certificate_loop
get_certificate existentials d = certificate_loop existentials d []
