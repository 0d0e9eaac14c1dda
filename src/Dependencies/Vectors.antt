-- ===== src/Dependencies/Vectors.antt =====
-- The loops over sorted vectors of dependencycontainer.cc: `restrictToVector` and the merge of
-- `updateVectorMap`. The indices of the loops are the parts of the vectors that lie ahead.
use pedant_solver.Base.{
  ℕ, ◌≤◌, ◌≡◌, refl, sym, ◌||◌, List, [], ◌∷◌, map, arith, ltb, ◌==◌, if◌then◌else◌, select,
}
use pedant_solver.Base.Int.{ℤ}
use pedant_solver.Base.Sets.{
  contains, Above, IsAscending, Above-mono, Above-IsAscending, contains_below,
}
use pedant_solver.Literal.{var}

unfoldable pub restrict_to_vector : List ℤ → List ℕ → List ℤ
restrict_to_vector [] range = []
restrict_to_vector (l ∷ literals) [] = []
restrict_to_vector (l ∷ literals) (r ∷ range) =
    let next_literal = restrict_to_vector literals (r ∷ range) in
    let next_both = restrict_to_vector literals range in
    let next_range = restrict_to_vector (l ∷ literals) range in
    if ltb (var l) r then next_literal else if var l == r then l ∷ next_both else next_range

unfoldable pub merge : List ℕ → List ℕ → List ℕ
merge [] ys = ys
merge (x ∷ xs) [] = x ∷ xs
merge (x ∷ xs) (y ∷ ys) =
    let both = merge xs ys in
    let left = merge xs (y ∷ ys) in
    let right = merge (x ∷ xs) ys in
    if x == y then x ∷ both else if ltb x y then x ∷ left else y ∷ right

-- An element of the range below the literals does not matter.
select_skip :
    (r n : ℕ) (ls : List ℤ) (range : List ℕ)
    → Above n (map var ls)
    → r ≤ n
    → select (λ l. contains (r ∷ range) (var l)) ls ≡ select (λ l. contains range (var l)) ls
select_skip r n [] range h k = refl
select_skip r n (l ∷ ls) range h k =
    ground (arith, select_skip r (var l) ls range h.1 (omega arith))

select_none : (ls : List ℤ) → select (λ l. contains [] (var l)) ls ≡ []
select_none [] = refl
select_none (l ∷ ls) = select_none ls

-- On literals with ascending variables and an ascending range, the loop keeps in order the literals
-- whose variable is in the range.
pub restrict_to_vector_lem :
    (ls : List ℤ) (range : List ℕ)
    → IsAscending (map var ls)
    → IsAscending range
    → restrict_to_vector ls range ≡ select (λ l. contains range (var l)) ls
unfolding restrict_to_vector
restrict_to_vector_lem [] range h k = refl
restrict_to_vector_lem (l ∷ ls) [] h k = sym (select_none (l ∷ ls))
restrict_to_vector_lem (l ∷ ls) (r ∷ range) h k = ground (
  arith,
  restrict_to_vector_lem ls (r ∷ range) (Above-IsAscending (var l) (map var ls) h) k,
  restrict_to_vector_lem ls range (Above-IsAscending (var l) (map var ls) h)
      (Above-IsAscending r range k),
  restrict_to_vector_lem (l ∷ ls) range h (Above-IsAscending r range k),
  select_skip r (var l) ls range h,
  contains_below r (var l) range k,
)

pub contains-merge :
    (xs ys : List ℕ) (v : ℕ) → contains (merge xs ys) v ≡ (contains xs v || contains ys v)
unfolding merge
contains-merge [] ys v = refl
contains-merge (x ∷ xs) [] v = ground arith
contains-merge (x ∷ xs) (y ∷ ys) v =
    ground
      (arith, contains-merge xs ys v, contains-merge xs (y ∷ ys) v, contains-merge (x ∷ xs) ys v)

merge-Above : (n : ℕ) (xs ys : List ℕ) → Above n xs → Above n ys → Above n (merge xs ys)
unfolding merge
merge-Above n [] ys h k = k
merge-Above n (x ∷ xs) [] h k = h
merge-Above n (x ∷ xs) (y ∷ ys) h k = ground (
  arith,
  merge-Above x xs ys,
  merge-Above x xs (y ∷ ys),
  merge-Above y (x ∷ xs) ys,
  Above-mono {m = x} {n = y} ys,
)

pub merge-IsAscending :
    (xs ys : List ℕ) → IsAscending xs → IsAscending ys → IsAscending (merge xs ys)
unfolding merge
merge-IsAscending [] ys h k = k
merge-IsAscending (x ∷ xs) [] h k = h
merge-IsAscending (x ∷ xs) (y ∷ ys) h k = ground (
  arith,
  merge-Above x xs ys,
  merge-Above x xs (y ∷ ys),
  merge-Above y (x ∷ xs) ys,
  Above-mono {m = x} {n = y} ys,
)

-- The merge of two ascending vectors is ascending, without repetition, and holds the elements of
-- both and no others.
pub merge_lem :
    (xs ys : List ℕ) (v : ℕ)
    → IsAscending xs
    → IsAscending ys
    → IsAscending (merge xs ys) × (contains (merge xs ys) v ≡ (contains xs v || contains ys v))
merge_lem xs ys v h k = (merge-IsAscending xs ys h k, contains-merge xs ys v)
