-- ===== src/Dependencies.antt =====
-- dependencycontainer.h, dependencycontainer.cc: the dependencies and the extended dependencies of
-- the existential variables. The set of undefined variables and the universal variables belong to
-- the solver, which changes the first between calls: they are arguments here.
pub mod Inclusion
pub mod Vectors
pub mod Dynamic
pub mod Queries
pub mod Updates
use pedant_solver.Dependencies.Inclusion.{included_in_union}
use pedant_solver.Dependencies.Vectors.{restrict_to_vector, merge}
use pedant_solver.Base.{
  ℕ, zero, suc, ◌+◌, ◌-◌, ◌*◌, ◌/◌, ◌%◌, ◌^◌, ◌≤◌, ◌<◌, max, ◌≡◌, refl, sym, ap, ◌∙◌, subst, ◌≢◌,
  ◌↔◌, ◌⊎◌, inl, inr, Bool, true, false, not, ◌&&◌, ◌||◌, Option, none, some, List, [], ◌∷◌, ◌++◌,
  map, arith, ltb, leb, ◌==◌, if◌then◌else◌, Bool-cases, Option-cases, Bool_ext, not-not, ==_iff,
  ==_refl, length, get_elem?, set, any, all, select, All, length-append, any-append, all-append,
  All-append, All-left, length-select-le, length-set, get_or, get_or-set_self, get_or-set_ne,
  get_or-append_left,
}
use pedant_solver.Base.Int.{
  ℤ, pos, negsuc, neg, abs, is_pos, is_neg, of_bool, eq_ℤ, eq_ℤ_iff, neg-neg, abs-neg,
}
use pedant_solver.Base.Sets.{
  sort, contains, Above, IsAscending, Above-mono, Above-IsAscending, contains_below,
  contains-append, insert, contains-insert, insert-Above, insert-IsAscending, insert_all,
  contains-insert_all, insert_all-IsAscending, includes, includes_lem, all_of_contains,
  contains_of_all,
}
use pedant_solver.Base.Maps.{
  Map, find, assign, erase, has, emplace, at_or, find-assign, find-erase, find-emplace,
}
use pedant_solver.Literal.{var}
use pedant_solver.Formula.Support.{restrict_to}

-- `BaseDependencyContainer`
pub record Base : Type 0 where
  pub dependencies : Map (List ℕ)
  pub innermost_existentials : List ℕ
  pub ordered_universals : List ℕ

pub has_dependencies : Base → ℕ → Bool
has_dependencies b v =
    contains b.innermost_existentials v
    || elim (find b.dependencies v) [ none ↦ false | some [] ↦ false | some (d ∷ ds) ↦ true ]

-- `none` stands for the exception of `at`.
pub restrict_to_dependencies : Base → List ℤ → ℕ → Option (List ℤ)
restrict_to_dependencies b literals v = elim (find b.dependencies v) [
  | none ↦ none
  | some deps ↦ some (restrict_to_vector literals deps)
]

pub set_dependencies : Base → ℕ → List ℕ → Base
set_dependencies b v deps = record b { dependencies = emplace b.dependencies v deps }

pub add_innermost_existential : Base → ℕ → Base
add_innermost_existential b v = record b {
  innermost_existentials = insert v b.innermost_existentials;
}

pub get_dependencies : Base → ℕ → Option (List ℕ)
get_dependencies b v =
    if contains b.innermost_existentials v then some b.ordered_universals else find b.dependencies v

-- `DependencyContainer_Vector`, without its base. `to_compute` is
-- `extended_dependencies_to_compute`, `extended` is `extended_dependencies_map`.
pub record Container : Type 0 where
  pub to_compute : List ℕ
  pub supports : Map (List ℕ)
  pub variables_to_update : Map (List ℕ)
  pub extended : Map (List ℕ)

-- The constructor sorts the extended dependencies.
pub sort_values : Map (List ℕ) → Map (List ℕ)
sort_values [] = []
sort_values ((v, deps) ∷ m) = (v, sort deps) ∷ sort_values m

pub new_container : Map (List ℕ) → Container
unfolding sort_values
new_container extended_dependencies = record {
  to_compute = [];
  supports = [];
  variables_to_update = [];
  extended = sort_values extended_dependencies;
}

-- `updateVectorMap`
pub update_vector_map : ℕ → List ℕ → Container → Option Container
update_vector_map v variables_to_include c = elim (find c.extended v) [
  | none ↦ none
  | some deps ↦ some (record c { extended = assign c.extended v (merge deps variables_to_include) })
]

-- What both kinds of update begin with.
abbrev pub forget : ℕ → List ℕ → Container → Container
forget variable support_set c = record c {
  to_compute = insert variable c.to_compute;
  supports = emplace c.supports variable support_set;
  extended = erase c.extended variable;
}

-- The loop of `updateExtendedDependencies` over the undefined variables; the pair holds the
-- container and `updated_variables`.
pub update_each : ℕ → List ℕ → List ℕ → Container × List ℕ → Option (Container × List ℕ)
unfolding update_vector_map
update_each variable support_set [] s = some s
update_each variable support_set (v ∷ undefined) (c, updated) =
    let skip = update_each variable support_set undefined (c, updated) in
    let include =
      λ (c' : Container). update_each variable support_set undefined (c', insert v updated) in
    elim (find c.extended v) [
      | none ↦ none
      | some deps ↦
          if includes deps support_set
          then elim (update_vector_map v (variable ∷ []) c) [ none ↦ none | some c' ↦ include c' ]
          else skip
    ]

pub update_extended_dependencies :
    List ℕ → ℕ → List ℕ → Container × List ℕ → Option (Container × List ℕ)
unfolding update_each
update_extended_dependencies undefined variable support_set (c, updated) =
    update_each variable support_set undefined (forget variable support_set c, updated)

pub set_extended_dependencies : Container → ℕ → List ℕ → Container
set_extended_dependencies c v deps = record c { extended = emplace c.extended v deps }

-- `includedInDependencies`, with the fuel that suffices for its loop.
pub included_in_dependencies : ℕ → Container → ℕ → List ℕ → Option Bool
included_in_dependencies junk c v support_set = elim (find c.extended v) [
  | none ↦ none
  | some deps ↦ elim (find c.variables_to_update v) [
    | none ↦ some (includes deps support_set)
    | some more ↦
        included_in_union (suc (length deps + length more + length support_set)) junk deps more
          support_set
  ]
]

pub schedule_each : ℕ → ℕ → List ℕ → List ℕ → Container × List ℕ → Option (Container × List ℕ)
unfolding included_in_dependencies
schedule_each junk variable support_set [] s = some s
schedule_each junk variable support_set (v ∷ undefined) (c, updated) =
    let skip = schedule_each junk variable support_set undefined (c, updated) in
    let more = at_or c.variables_to_update v [] ++ variable ∷ [] in
    let push =
      schedule_each junk variable support_set undefined (
        record c { variables_to_update = assign c.variables_to_update v more },
        insert v updated,
      ) in
    elim (included_in_dependencies junk c v support_set) [
      | none ↦ none
      | some b ↦ if b then push else skip
    ]

pub schedule_update : ℕ → List ℕ → ℕ → List ℕ → Container × List ℕ → Option (Container × List ℕ)
unfolding schedule_each
schedule_update junk undefined variable support_set (c, updated) =
    let c' = forget variable support_set c in
    schedule_each junk variable support_set undefined
      (record c' { variables_to_update = erase c.variables_to_update variable }, updated)

pub perform_each : Map (List ℕ) → Container → Option Container
unfolding update_vector_map
perform_each [] c = some c
perform_each ((key, val) ∷ rest) c =
    let go = perform_each rest in
    elim (update_vector_map key val c) [ none ↦ none | some c' ↦ go c' ]

pub perform_update : Container → Option Container
unfolding perform_each
perform_update c = elim (perform_each c.variables_to_update c) [
  | none ↦ none
  | some c' ↦ some (record c' { variables_to_update = [] })
]
