-- ===== src/Samples/Containers.antt =====
-- The theorems on the containers of dependencies at concrete inputs.
use pedant_solver.Base.{
  ℕ, ◌-◌, ◌≡◌, refl, true, not, ◌&&◌, ◌||◌, some, List, [], ◌∷◌, arith, any, all,
}
use pedant_solver.Base.Sets.{contains, IsAscending, insert, insert_all}
use pedant_solver.Base.Maps.{find, has}
use pedant_solver.Dependencies.{Container, update_extended_dependencies}
use pedant_solver.Dependencies.Updates.{Updates, update_extended_dependencies-Updates}
use pedant_solver.Dependencies.Inclusion.{included_in_union, in_union, included_in_union_lem}
use pedant_solver.Dependencies.Dynamic.{
  get_extended_dependencies, or_empty, IsStratified, get_extended_dependencies_lem,
}
use pedant_solver.Dependencies.Queries.{Answers, queries_answer}

included_in_union_lem_example :
    included_in_union 6 0 (1 ∷ 4 ∷ []) (2 ∷ []) (1 ∷ 2 ∷ [])
    ≡ some (all (in_union (1 ∷ 4 ∷ []) (2 ∷ [])) (1 ∷ 2 ∷ []))
included_in_union_lem_example =
    included_in_union_lem 6 0 (1 ∷ 4 ∷ []) (2 ∷ []) (1 ∷ 2 ∷ []) (omega arith) (omega arith)
      (omega arith) (omega arith)

-- 1 and 2 are universal. 5 is defined over 1 and the undefined 4, and 6 over 2 and 5.
abbrev defined : Container
defined = record {
  to_compute = 5 ∷ 6 ∷ [];
  supports = (5, 1 ∷ 4 ∷ []) ∷ (6, 2 ∷ 5 ∷ []) ∷ [];
  variables_to_update = [];
  extended = (4, 1 ∷ 2 ∷ []) ∷ [];
}

defined-IsStratified : IsStratified (1 ∷ 2 ∷ []) defined (λ v. v - 5)
unfolding find
defined-IsStratified = record {
  supported = λ v h. ground arith;
  known = λ v w s e m a b. ground arith;
  falling = λ v w s e m a b. ground arith;
}

get_extended_dependencies_lem_example :
    (r : List ℕ) × (get_extended_dependencies 2 (1 ∷ 2 ∷ []) defined 6 ≡ some r)
    × IsAscending r
    × ((w : ℕ)
        → contains r w ≡ (
            contains (2 ∷ 5 ∷ []) w
            || any
                (λ x.
                  not (contains (1 ∷ 2 ∷ []) x)
                  && contains (or_empty (get_extended_dependencies 2 (1 ∷ 2 ∷ []) defined x)) w)
                (2 ∷ 5 ∷ [])))
unfolding find
get_extended_dependencies_lem_example =
    get_extended_dependencies_lem (1 ∷ 2 ∷ []) defined (λ v. v - 5) defined-IsStratified 2 6
      (2 ∷ 5 ∷ []) refl refl (omega arith)

queries_answer_example : Answers 2 (1 ∷ 2 ∷ []) defined 6 4 (1 ∷ 2 ∷ 4 ∷ 5 ∷ []) (1 ∷ 2 ∷ [])
unfolding find get_extended_dependencies insert_all insert
queries_answer_example =
    queries_answer 2 (1 ∷ 2 ∷ []) defined 6 4 (1 ∷ 2 ∷ 4 ∷ 5 ∷ []) (1 ∷ 2 ∷ [])
      (λ v deps e. ground arith) refl refl

-- 4 and 5 are undefined, and 6 is to be defined over 1 and 2.
abbrev before_update : Container
before_update = record {
  to_compute = [];
  supports = [];
  extended = (4, 1 ∷ 2 ∷ []) ∷ (5, 1 ∷ []) ∷ (6, 1 ∷ 2 ∷ 3 ∷ []) ∷ [];
  variables_to_update = [];
}

before_update_has : (v : ℕ) → contains (4 ∷ 5 ∷ []) v ≡ true → has before_update.extended v ≡ true
unfolding has find
before_update_has v m = ground arith

update_extended_dependencies-Updates_example :
    Updates 6
      (1 ∷ 2 ∷ [])
      (4 ∷ 5 ∷ [])
      (before_update, [])
      (update_extended_dependencies (4 ∷ 5 ∷ []) 6 (1 ∷ 2 ∷ []) (before_update, []))
update_extended_dependencies-Updates_example =
    update_extended_dependencies-Updates (4 ∷ 5 ∷ []) 6 (1 ∷ 2 ∷ []) before_update []
      (refl, (refl, record {})) refl before_update_has
