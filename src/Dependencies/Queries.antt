-- ===== src/Dependencies/Queries.antt =====
-- The queries of `DependencyContainer_Vector` in dependencycontainer.cc. Each branches on whether the
-- variable has a definition; all of them answer by its extended dependencies.
use pedant_solver.Base.{
  ℕ, ◌≡◌, refl, inl, inr, Bool, not, Option, none, some, List, [], ◌∷◌, map, arith, ltb,
  if◌then◌else◌, Bool-cases, length, all, select,
}
use pedant_solver.Base.Int.{ℤ}
use pedant_solver.Base.Sets.{
  contains, IsAscending, includes, includes_lem, binary_search, binary_search-contains,
}
use pedant_solver.Base.Maps.{find}
use pedant_solver.Literal.{var}
use pedant_solver.Formula.Support.{restrict_to, restrict_to_lem}
use pedant_solver.Dependencies.{Container}
use pedant_solver.Dependencies.Vectors.{restrict_to_vector, restrict_to_vector_lem}
use pedant_solver.Dependencies.Dynamic.{
  compute_dynamic_dependencies, get_extended_dependencies, dynamic_IsAscending,
}

-- `at` on the result of a fallible step
abbrev pub bind {ℓ κ} : {A : Type ℓ} {B : Type κ} → Option A → (A → Option B) → Option B
bind none f = none
bind (some a) f = f a

module _ (fuel : ℕ) (universals : List ℕ) (c : Container) where
  -- both overloads: of a sorted vector and of a set
  pub included_in_extended_dependencies : ℕ → List ℕ → Option Bool
  included_in_extended_dependencies v variables =
      if contains c.to_compute v
      then bind (compute_dynamic_dependencies fuel universals c v)
          (λ deps. some (includes deps variables))
      else bind (find c.extended v) (λ deps. some (includes deps variables))

  pub contained_in_extended_dependencies : ℕ → ℕ → Option Bool
  contained_in_extended_dependencies v1 v2 =
      if contains c.to_compute v2
      then bind (compute_dynamic_dependencies fuel universals c v2)
          (λ deps. some (contains deps v1))
      else bind (find c.extended v2) (λ deps. some (binary_search deps v1))

  extended_size : ℕ → Option ℕ
  extended_size v =
      if contains c.to_compute v
      then bind (compute_dynamic_dependencies fuel universals c v) (λ deps. some (length deps))
      else bind (find c.extended v) (λ deps. some (length deps))

  pub larger_extended_dependencies : ℕ → ℕ → Option Bool
  unfolding extended_size
  larger_extended_dependencies v1 v2 =
      bind (extended_size v1) (λ size1. bind (extended_size v2) (λ size2. some (ltb size2 size1)))

  pub restrict_to_extended_dependencies_sorted : List ℤ → ℕ → Option (List ℤ)
  restrict_to_extended_dependencies_sorted [] v = some []
  restrict_to_extended_dependencies_sorted (l ∷ literals) v =
      if contains c.to_compute v
      then bind (compute_dynamic_dependencies fuel universals c v)
          (λ deps. some (restrict_to (l ∷ literals) deps))
      else bind (find c.extended v) (λ deps. some (restrict_to_vector (l ∷ literals) deps))

  unfoldable pub restrict_to_extended_dependencies : List ℤ → ℕ → Option (List ℤ)
  restrict_to_extended_dependencies [] v = some []
  restrict_to_extended_dependencies (l ∷ literals) v =
      if contains c.to_compute v
      then bind (compute_dynamic_dependencies fuel universals c v)
          (λ deps. some (restrict_to (l ∷ literals) deps))
      else bind (find c.extended v)
          (λ deps. some (select (λ m. binary_search deps (var m)) (l ∷ literals)))

  pub get_existential_dependencies : ℕ → Option (List ℕ)
  get_existential_dependencies v =
      bind (get_extended_dependencies fuel universals c v)
        (λ deps. some (select (λ w. not (contains universals w)) deps))

  -- The vectors of the map are sorted without repetition.
  abbrev pub IsSorted : Type 0
  IsSorted = (v : ℕ) (deps : List ℕ) → find c.extended v ≡ some deps → IsAscending deps

  get_extended_dependencies-IsAscending :
      (v : ℕ) (deps : List ℕ)
      → IsSorted
      → get_extended_dependencies fuel universals c v ≡ some deps
      → IsAscending deps
  unfolding get_extended_dependencies
  get_extended_dependencies-IsAscending v deps h e = elim (Bool-cases (contains c.to_compute v)) [
    | inl k ↦ dynamic_IsAscending fuel universals c v deps (ground arith)
    | inr k ↦ h v deps (ground arith)
  ]

  pub record Answers (v w : ℕ) (deps other : List ℕ) : Type 0 where
    pub included :
        (vs : List ℕ)
        → IsAscending vs
        → included_in_extended_dependencies v vs ≡ some (all (contains deps) vs)
    pub contained : (u : ℕ) → contained_in_extended_dependencies u v ≡ some (contains deps u)
    pub larger : larger_extended_dependencies v w ≡ some (ltb (length other) (length deps))
    pub restricted :
        (ls : List ℤ)
        → restrict_to_extended_dependencies ls v ≡ some (select (λ l. contains deps (var l)) ls)
    pub restricted_sorted :
        (ls : List ℤ)
        → IsAscending (map var ls)
        → restrict_to_extended_dependencies_sorted ls v
          ≡ some (select (λ l. contains deps (var l)) ls)

  select_search :
      (deps : List ℕ) (ls : List ℤ)
      → IsAscending deps
      → select (λ m. binary_search deps (var m)) ls ≡ select (λ l. contains deps (var l)) ls
  select_search deps [] h = refl
  select_search deps (l ∷ ls) h =
      ground (arith, binary_search-contains deps (var l) h, select_search deps ls h)

  answer_restricted :
      (v : ℕ) (deps : List ℕ) (ls : List ℤ)
      → IsAscending deps
      → get_extended_dependencies fuel universals c v ≡ some deps
      → restrict_to_extended_dependencies ls v ≡ some (select (λ l. contains deps (var l)) ls)
  unfolding restrict_to_extended_dependencies get_extended_dependencies
  answer_restricted v deps [] h e = refl
  answer_restricted v deps (l ∷ ls) h e =
      ground (arith, restrict_to_lem (l ∷ ls) deps, select_search deps (l ∷ ls) h)

  answer_sorted :
      (v : ℕ) (deps : List ℕ) (ls : List ℤ)
      → IsAscending deps
      → get_extended_dependencies fuel universals c v ≡ some deps
      → IsAscending (map var ls)
      → restrict_to_extended_dependencies_sorted ls v
        ≡ some (select (λ l. contains deps (var l)) ls)
  unfolding restrict_to_extended_dependencies_sorted get_extended_dependencies
  answer_sorted v deps [] h e k = refl
  answer_sorted v deps (l ∷ ls) h e k =
      ground (arith, restrict_to_lem (l ∷ ls) deps, restrict_to_vector_lem (l ∷ ls) deps k h)

  -- In a container with sorted vectors, if the extended dependencies of two variables are found,
  -- every query about them answers as these sets say: inclusion of a sorted range, membership of a
  -- variable, comparison of the sizes, and the literals over the set in their order.
  pub queries_answer :
      (v w : ℕ) (deps other : List ℕ)
      → IsSorted
      → get_extended_dependencies fuel universals c v ≡ some deps
      → get_extended_dependencies fuel universals c w ≡ some other
      → Answers v w deps other
  unfolding included_in_extended_dependencies contained_in_extended_dependencies
      larger_extended_dependencies get_extended_dependencies
  queries_answer v w deps other h e f =
      let asc = get_extended_dependencies-IsAscending v deps h e in
      record {
        included = λ vs k. ground (arith, includes_lem deps vs asc k);
        contained = λ u. ground (arith, binary_search-contains deps u asc);
        larger = ground arith;
        restricted = λ ls. answer_restricted v deps ls asc e;
        restricted_sorted = λ ls k. answer_sorted v deps ls asc e k;
      }
