-- ===== src/Skolem/Arbiters.antt =====
-- skolemcontainer.h, skolemcontainer.cc: arbiter variables, one for an existential variable and an
-- assignment of its dependencies.
use pedant_solver.Base.{
  ℕ, ◌+◌, Bool, true, false, not, ◌&&◌, Option, none, some, List, [], ◌∷◌, ◌++◌, ltb, if◌then◌else◌,
}
use pedant_solver.Base.Int.{ℤ, pos, negsuc, neg, eq_ℤ}
use pedant_solver.Base.Maps.{assign, at_or}
use pedant_solver.Base.Sets.{contains, insert}
use pedant_solver.Literal.{negate_each}
use pedant_solver.Skolem.{
  Container, call_all, add_arbiter_clause, check_arbiter_variable, add_arbiter_variable,
}

-- a < b
abbrev pub ltb_ℤ : ℤ → ℤ → Bool
ltb_ℤ (pos m) (pos n) = ltb m n
ltb_ℤ (pos m) (negsuc n) = false
ltb_ℤ (negsuc m) (pos n) = true
ltb_ℤ (negsuc m) (negsuc n) = ltb n m

unfoldable pub place : ℤ → List ℤ → List ℤ
place l [] = l ∷ []
place l (k ∷ literals) =
    let rest = place l literals in if ltb_ℤ k l then k ∷ rest else l ∷ k ∷ literals

-- `std::sort`
unfoldable pub sort_literals : List ℤ → List ℤ
unfolding place
sort_literals [] = []
sort_literals (l ∷ literals) = place l (sort_literals literals)

abbrev pub eq_literals : List ℤ → List ℤ → Bool
eq_literals [] [] = true
eq_literals [] (l ∷ ks) = false
eq_literals (l ∷ ls) [] = false
eq_literals (l ∷ ls) (k ∷ ks) = eq_ℤ l k && eq_literals ls ks

-- A map from annotations to arbiters.
unfoldable pub find_arbiter : List (List ℤ × ℕ) → List ℤ → Option ℕ
find_arbiter [] annotation = none
find_arbiter ((key, arbiter) ∷ m) annotation =
    if eq_literals key annotation then some arbiter else find_arbiter m annotation

unfoldable pub assign_arbiter : List (List ℤ × ℕ) → List ℤ → ℕ → List (List ℤ × ℕ)
assign_arbiter [] annotation new_arbiter = (annotation, new_arbiter) ∷ []
assign_arbiter ((key, arbiter) ∷ m) annotation new_arbiter =
    if eq_literals key annotation
    then (key, new_arbiter) ∷ m
    else (key, arbiter) ∷ assign_arbiter m annotation new_arbiter

-- `existential_arbiter_map[e].find(annotation)`
unfoldable pub arbiter_of : ℕ → List ℤ → Container → Option ℕ
unfolding find_arbiter at_or
arbiter_of e annotation c = find_arbiter (at_or c.existential_arbiter_map e []) annotation

unfoldable pub exists_arbiter : ℕ → List ℤ → Container → Bool
unfolding arbiter_of
exists_arbiter e annotation c = elim (arbiter_of e annotation c) [ none ↦ false | some a ↦ true ]

unfoldable pub create_arbiter : ℕ → List ℤ → Container → ℕ × Container
unfolding assign assign_arbiter at_or sort_literals
create_arbiter e annotation c =
    let new_arbiter = c.last_used_variable + 1 in
    let annotation_copy = sort_literals annotation in
    (
      new_arbiter,
      record c {
        last_used_variable = new_arbiter;
        arbiter_to_annotation = assign c.arbiter_to_annotation new_arbiter annotation_copy;
        arbiter_to_existential = assign c.arbiter_to_existential new_arbiter e;
        existential_arbiter_map =
            assign c.existential_arbiter_map e
              (assign_arbiter (at_or c.existential_arbiter_map e []) annotation_copy new_arbiter);
      },
    )

-- `none` is the exception of `add_arbiter_clause`.
unfoldable pub realize_arbiter : ℕ → Container → Option Container
unfolding add_arbiter_clause at_or insert
realize_arbiter arbiter c =
    let e = at_or c.arbiter_to_existential arbiter 0 in
    let premise = negate_each (at_or c.arbiter_to_annotation arbiter []) in
    let c₁ = call_all (check_arbiter_variable e arbiter ∷ add_arbiter_variable arbiter ∷ []) c in
    elim (add_arbiter_clause (premise ++ neg (pos arbiter) ∷ pos e ∷ []) c₁) [
      | none ↦ none
      | some c₂ ↦ elim (add_arbiter_clause (premise ++ pos arbiter ∷ neg (pos e) ∷ []) c₂) [
        | none ↦ none
        | some c₃ ↦ some (record c₃ { proper_arbiters = insert arbiter c₃.proper_arbiters })
      ]
    ]

-- The container with an arbiter for the annotation, and whether it is a new one.
unfoldable pub ensure_arbiter : ℕ → List ℤ → Container → Bool × Container
unfolding exists_arbiter create_arbiter
ensure_arbiter e sorted c =
    if exists_arbiter e sorted c then (false, c) else (true, (create_arbiter e sorted c).1)

abbrev pub or_zero : Option ℕ → ℕ
or_zero none = 0
or_zero (some n) = n

-- What `getArbiter` returns, with the container.
abbrev pub Answer : Type 0
Answer = (ℕ × Bool × Bool) × Container

abbrev pub answer : ℕ → Bool → Container → Answer
answer arbiter is_new c = ((arbiter, is_new, contains c.proper_arbiters arbiter), c)

abbrev pub realized : ℕ → Bool → Option Container → Option Answer
realized arbiter is_new none = none
realized arbiter is_new (some c) = some (answer arbiter is_new c)

-- The part behind the look-up.
unfoldable pub introduce : ℕ → Bool → Bool → Container → Option Answer
unfolding realize_arbiter
introduce arbiter is_new introduce_clauses c =
    let after = realized arbiter is_new (realize_arbiter arbiter c) in
    if introduce_clauses && not (contains c.proper_arbiters arbiter)
    then after
    else some (answer arbiter is_new c)

unfoldable pub get_arbiter : ℕ → List ℤ → Bool → Container → Option Answer
unfolding ensure_arbiter arbiter_of introduce sort_literals
get_arbiter e assignment_dependencies introduce_clauses c =
    let sorted = sort_literals assignment_dependencies in
    let (is_new, c₁) = ensure_arbiter e sorted c in
    introduce (or_zero (arbiter_of e sorted c₁)) is_new introduce_clauses c₁
