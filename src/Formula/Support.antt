-- ===== src/Formula/Support.antt =====
-- `getSupport` and `restrictTo` of include/utils.h.
use pedant_solver.Base.{
  ℕ, ◌≡◌, refl, true, ◌||◌, List, [], ◌∷◌, map, arith, if◌then◌else◌, any, select,
}
use pedant_solver.Base.Int.{ℤ}
use pedant_solver.Base.Sets.{contains, IsAscending, insert, contains-insert, insert-IsAscending}
use pedant_solver.Formula.{Clause, Assignment, eval_clause, eval_formula, eval_lit_agree}
use pedant_solver.Literal.{var}

-- The literals whose variable is in a set (or is a key of a map).
unfoldable pub restrict_to : List ℤ → List ℕ → List ℤ
restrict_to [] range = []
restrict_to (l ∷ literals) range =
    let rest = restrict_to literals range in if contains range (var l) then l ∷ rest else rest

unfoldable pub insert_vars : Clause → List ℕ → List ℕ
insert_vars [] support = support
insert_vars (l ∷ clause) support = insert_vars clause (insert (var l) support)

unfoldable pub insert_formula : List Clause → List ℕ → List ℕ
unfolding insert_vars
insert_formula [] support = support
insert_formula (clause ∷ definition) support =
    insert_formula definition (insert_vars clause support)

unfoldable pub get_support : Clause → List Clause → List ℕ
unfolding insert_formula
get_support conflict definition = insert_formula definition (insert_vars conflict [])

contains-insert_vars :
    (c : Clause) (s : List ℕ) (v : ℕ)
    → contains (insert_vars c s) v ≡ (contains (map var c) v || contains s v)
unfolding insert_vars
contains-insert_vars [] s v = refl
contains-insert_vars (l ∷ c) s v =
    ground (arith, contains-insert_vars c (insert (var l) s) v, contains-insert (var l) v s)

contains-insert_formula :
    (f : List Clause) (s : List ℕ) (v : ℕ)
    → contains (insert_formula f s) v ≡ (any (λ c. contains (map var c) v) f || contains s v)
unfolding insert_formula
contains-insert_formula [] s v = refl
contains-insert_formula (c ∷ f) s v =
    ground (arith, contains-insert_formula f (insert_vars c s) v, contains-insert_vars c s v)

insert_vars-IsAscending : (c : Clause) (s : List ℕ) → IsAscending s → IsAscending (insert_vars c s)
unfolding insert_vars
insert_vars-IsAscending [] s h = h
insert_vars-IsAscending (l ∷ c) s h =
    insert_vars-IsAscending c (insert (var l) s) (insert-IsAscending (var l) s h)

insert_formula-IsAscending :
    (f : List Clause) (s : List ℕ) → IsAscending s → IsAscending (insert_formula f s)
unfolding insert_formula
insert_formula-IsAscending [] s h = h
insert_formula-IsAscending (c ∷ f) s h =
    insert_formula-IsAscending f (insert_vars c s) (insert_vars-IsAscending c s h)

-- The support is sorted without repetition, and a variable is in it exactly when it occurs in the
-- conflict or in a clause of the definition.
pub contains-get_support :
    (c : Clause) (f : List Clause) (v : ℕ)
    → IsAscending (get_support c f)
      × (contains (get_support c f) v
          ≡ (contains (map var c) v || any (λ d. contains (map var d) v) f))
unfolding get_support
contains-get_support c f v = (
  insert_formula-IsAscending f (insert_vars c []) (insert_vars-IsAscending c [] tt),
  ground (arith, contains-insert_formula f (insert_vars c []) v, contains-insert_vars c [] v),
)

clause_agree :
    (a b : Assignment) (c : Clause)
    → ((v : ℕ) → contains (map var c) v ≡ true → a v ≡ b v)
    → eval_clause a c ≡ eval_clause b c
clause_agree a b [] h = refl
clause_agree a b (l ∷ c) h = ground (
  arith,
  eval_lit_agree a b l (h (var l) (ground arith)),
  clause_agree a b c (λ v m. h v (ground arith)),
)

formula_agree :
    (a b : Assignment) (f : List Clause)
    → ((v : ℕ) → any (λ d. contains (map var d) v) f ≡ true → a v ≡ b v)
    → eval_formula a f ≡ eval_formula b f
formula_agree a b [] h = refl
formula_agree a b (c ∷ f) h = ground (
  arith,
  clause_agree a b c (λ v m. h v (ground arith)),
  formula_agree a b f (λ v m. h v (ground arith)),
)

-- The support determines the conflict and the definition: assignments that agree on it give both
-- the same values.
pub get_support_agree :
    (a b : Assignment) (c : Clause) (f : List Clause)
    → ((v : ℕ) → contains (get_support c f) v ≡ true → a v ≡ b v)
    → (eval_clause a c ≡ eval_clause b c) × (eval_formula a f ≡ eval_formula b f)
get_support_agree a b c f h = (
  clause_agree a b c (λ v m. h v (ground (arith, contains-get_support c f v))),
  formula_agree a b f (λ v m. h v (ground (arith, contains-get_support c f v))),
)

-- `restrictTo` keeps, in order, the literals whose variable is in the range.
pub restrict_to_lem :
    (ls : List ℤ) (range : List ℕ) → restrict_to ls range ≡ select (λ l. contains range (var l)) ls
unfolding restrict_to
restrict_to_lem [] range = refl
restrict_to_lem (l ∷ ls) range = ground (arith, restrict_to_lem ls range)
