-- ===== src/Base/Sets.antt =====
-- `std::set<int>` and sorted vectors of variables: strictly ascending lists, and the algorithms of
-- the standard library that the program runs on them.
use Prim.Native.Nat.{ℕ, suc, ◌≤◌, ◌<◌}
use mathlib.Core.Path.{◌≡◌, refl, ◌∙◌}
use mathlib.Core.Bool.{Bool, true, false, ◌||◌}
use mathlib.Core.List.{List, [], ◌∷◌, ◌++◌}
use native.Mathlib.Omega.{arith}
use pedant_solver.Base.Tests.{◌==◌, ltb, if◌then◌else◌}
use pedant_solver.Base.Lists.{length, all}

-- `s.find(v) != s.end()`
abbrev pub contains : List ℕ → ℕ → Bool
contains [] v = false
contains (x ∷ xs) v = x == v || contains xs v

-- Strictly ascending, and above a bound.
abbrev pub Above : ℕ → List ℕ → Type 0
Above n [] = Unit {0}
Above n (x ∷ xs) = (n < x) × Above x xs

abbrev pub IsAscending : List ℕ → Type 0
IsAscending [] = Unit {0}
IsAscending (x ∷ xs) = Above x xs

pub Above-mono : {m n : ℕ} (xs : List ℕ) → m ≤ n → Above n xs → Above m xs
Above-mono [] h a = tt
Above-mono (x ∷ xs) h a = (omega arith, a.1)

pub Above-IsAscending : (n : ℕ) (xs : List ℕ) → Above n xs → IsAscending xs
Above-IsAscending n [] a = tt
Above-IsAscending n (x ∷ xs) a = a.1

-- What is not above the bound is not in the list.
pub contains_below : (n v : ℕ) (xs : List ℕ) → Above n xs → v ≤ n → contains xs v ≡ false
contains_below n v [] a h = refl
contains_below n v (x ∷ xs) a h = ground (arith, contains_below x v xs a.1 (omega arith))

pub contains-append :
    (xs ys : List ℕ) (v : ℕ) → contains (xs ++ ys) v ≡ (contains xs v || contains ys v)
contains-append [] ys v = refl
contains-append (x ∷ xs) ys v = ground (arith, contains-append xs ys v)

-- `s.insert(v)`
unfoldable pub insert : ℕ → List ℕ → List ℕ
insert v [] = v ∷ []
insert v (x ∷ xs) = if ltb v x then v ∷ x ∷ xs else if v == x then x ∷ xs else x ∷ insert v xs

pub contains-insert : (v w : ℕ) (xs : List ℕ) → contains (insert v xs) w ≡ (v == w || contains xs w)
unfolding insert
contains-insert v w [] = refl
contains-insert v w (x ∷ xs) = ground (arith, contains-insert v w xs)

pub insert-Above : (n v : ℕ) (xs : List ℕ) → n < v → Above n xs → Above n (insert v xs)
unfolding insert
insert-Above n v [] h a = (h, tt)
insert-Above n v (x ∷ xs) h a = ground (arith, insert-Above x v xs)

pub insert-IsAscending : (v : ℕ) (xs : List ℕ) → IsAscending xs → IsAscending (insert v xs)
unfolding insert
insert-IsAscending v [] a = tt
insert-IsAscending v (x ∷ xs) a = ground (arith, insert-Above x v xs)

-- `s.insert(first, last)`
unfoldable pub insert_all : List ℕ → List ℕ → List ℕ
insert_all [] s = s
insert_all (v ∷ vs) s = insert_all vs (insert v s)

pub contains-insert_all :
    (vs s : List ℕ) (w : ℕ) → contains (insert_all vs s) w ≡ (contains vs w || contains s w)
unfolding insert_all
contains-insert_all [] s w = refl
contains-insert_all (v ∷ vs) s w =
    ground (arith, contains-insert_all vs (insert v s) w, contains-insert v w s)

pub insert_all-IsAscending : (vs s : List ℕ) → IsAscending s → IsAscending (insert_all vs s)
unfolding insert_all
insert_all-IsAscending [] s a = a
insert_all-IsAscending (v ∷ vs) s a =
    insert_all-IsAscending vs (insert v s) (insert-IsAscending v s a)

-- `std::includes(xs.begin(), xs.end(), ys.begin(), ys.end())`
unfoldable pub includes : List ℕ → List ℕ → Bool
includes xs [] = true
includes [] (y ∷ ys) = false
includes (x ∷ xs) (y ∷ ys) =
    let skip = includes xs (y ∷ ys) in
    let both = includes xs ys in if ltb y x then false else if ltb x y then skip else both

-- An element below the sought ones does not matter.
all-contains_skip :
    (x n : ℕ) (xs ys : List ℕ)
    → Above n ys
    → x ≤ n
    → all (contains (x ∷ xs)) ys ≡ all (contains xs) ys
all-contains_skip x n xs [] a h = refl
all-contains_skip x n xs (y ∷ ys) a h =
    ground (arith, all-contains_skip x y xs ys a.1 (omega arith))

-- On ascending ranges it decides inclusion.
pub includes_lem :
    (xs ys : List ℕ) → IsAscending xs → IsAscending ys → includes xs ys ≡ all (contains xs) ys
unfolding includes
includes_lem [] [] a b = refl
includes_lem (x ∷ xs) [] a b = refl
includes_lem [] (y ∷ ys) a b = refl
includes_lem (x ∷ xs) (y ∷ ys) a b = ground (
  arith,
  contains_below x y xs a,
  all-contains_skip x y xs ys b,
  includes_lem xs (y ∷ ys) (Above-IsAscending x xs a) b,
  includes_lem xs ys (Above-IsAscending x xs a) (Above-IsAscending y ys b),
)

-- A test of all elements follows from the test at each.
pub all_of_contains :
    (p : ℕ → Bool) (xs : List ℕ) → ((v : ℕ) → contains xs v ≡ true → p v ≡ true) → all p xs ≡ true
all_of_contains p [] h = refl
all_of_contains p (x ∷ xs) h = ground (arith, h x, all_of_contains p xs (λ v m. h v (ground arith)))

pub contains_of_all :
    (p : ℕ → Bool) (xs : List ℕ) (v : ℕ) → all p xs ≡ true → contains xs v ≡ true → p v ≡ true
contains_of_all p [] v h m = ground arith
contains_of_all p (x ∷ xs) v h m = ground (arith, contains_of_all p xs v)

-- `std::binary_search` on an ascending range
unfoldable pub binary_search : List ℕ → ℕ → Bool
binary_search [] v = false
binary_search (x ∷ xs) v = let rest = binary_search xs v in if ltb x v then rest else v == x

pub binary_search-contains :
    (xs : List ℕ) (v : ℕ) → IsAscending xs → binary_search xs v ≡ contains xs v
unfolding binary_search
binary_search-contains [] v a = refl
binary_search-contains (x ∷ xs) v a =
    ground (arith, binary_search-contains xs v (Above-IsAscending x xs a), contains_below x v xs a)

-- `std::sort`, which keeps repetitions
unfoldable pub place : ℕ → List ℕ → List ℕ
place v [] = v ∷ []
place v (x ∷ xs) = if ltb x v then x ∷ place v xs else v ∷ x ∷ xs

unfoldable pub sort : List ℕ → List ℕ
unfolding place
sort [] = []
sort (x ∷ xs) = place x (sort xs)

contains-place : (v w : ℕ) (xs : List ℕ) → contains (place v xs) w ≡ (v == w || contains xs w)
unfolding place
contains-place v w [] = refl
contains-place v w (x ∷ xs) = ground (arith, contains-place v w xs)

pub contains-sort : (xs : List ℕ) (w : ℕ) → contains (sort xs) w ≡ contains xs w
unfolding sort
contains-sort [] w = refl
contains-sort (x ∷ xs) w = ground (arith, contains-place x w (sort xs), contains-sort xs w)

length-place : (v : ℕ) (xs : List ℕ) → length (place v xs) ≡ suc (length xs)
unfolding place
length-place v [] = refl
length-place v (x ∷ xs) = ground (arith, length-place v xs)

pub length-sort : (xs : List ℕ) → length (sort xs) ≡ length xs
unfolding sort
length-sort [] = refl
length-sort (x ∷ xs) = ground (arith, length-place x (sort xs), length-sort xs)

-- No element twice.
abbrev pub IsDistinct : List ℕ → Type 0
IsDistinct [] = Unit {0}
IsDistinct (x ∷ xs) = (contains xs x ≡ false) × IsDistinct xs

place-Above :
    (n v : ℕ) (xs : List ℕ) → n < v → contains xs v ≡ false → Above n xs → Above n (place v xs)
unfolding place
place-Above n v [] h e a = (h, tt)
place-Above n v (x ∷ xs) h e a = ground (arith, place-Above x v xs)

place-IsAscending :
    (v : ℕ) (xs : List ℕ) → contains xs v ≡ false → IsAscending xs → IsAscending (place v xs)
unfolding place
place-IsAscending v [] e a = tt
place-IsAscending v (x ∷ xs) e a = ground (arith, place-Above x v xs)

pub sort-IsAscending : (xs : List ℕ) → IsDistinct xs → IsAscending (sort xs)
unfolding sort
sort-IsAscending [] d = tt
sort-IsAscending (x ∷ xs) d =
    place-IsAscending x (sort xs) (contains-sort xs x ∙ d.0) (sort-IsAscending xs d.1)
