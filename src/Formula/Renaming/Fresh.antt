-- ===== src/Formula/Renaming/Fresh.antt =====
-- What `createRenaming` of include/utils.h promises: fresh names for the variables not shared.
use pedant_solver.Base.{
  ℕ, ◌+◌, ◌≤◌, ◌<◌, ◌≡◌, refl, ap, subst, true, false, not, ◌&&◌, ◌||◌, some, List, [], ◌∷◌, ◌++◌,
  map, arith, length,
}
use pedant_solver.Base.Maps.{Map, find, assign, has, find-assign}
use pedant_solver.Formula.{Clause, IsBelow, AllBelow, AllBelow-max_var_index, max_var_index}
use pedant_solver.Base.Sets.{contains, contains-append}
use pedant_solver.Literal.{var}
use pedant_solver.Formula.Renaming.{
  non_shared_clause, non_shared, assign_fresh, first_renamed, create_renaming,
}

-- The variables of a formula, in order of occurrence.
abbrev pub variables : List Clause → List ℕ
variables [] = []
variables (c ∷ f) = map var c ++ variables f

contains-non_shared_clause :
    (c : Clause) (s : List ℕ) (v : ℕ)
    → contains (non_shared_clause c s) v ≡ (contains (map var c) v && not (contains s v))
unfolding non_shared_clause
contains-non_shared_clause [] s v = refl
contains-non_shared_clause (l ∷ c) s v =
    ground (arith, contains-non_shared_clause c s v, ap (contains s) {x = var l} {y = v})

contains-non_shared :
    (f : List Clause) (s : List ℕ) (v : ℕ)
    → contains (non_shared f s) v ≡ (contains (variables f) v && not (contains s v))
unfolding non_shared
contains-non_shared [] s v = refl
contains-non_shared (c ∷ f) s v = ground (
  arith,
  contains-non_shared_clause c s v,
  contains-non_shared f s v,
  contains-append (non_shared_clause c s) (non_shared f s) v,
  contains-append (map var c) (variables f) v,
)

-- Below `n`, not below `lo`, and no value twice.
record IsFresh (lo n : ℕ) (r : Map ℕ) : Type 0 where
  within : (v w : ℕ) → find r v ≡ some w → (lo ≤ w) × (w < n)
  injective : (u v w : ℕ) → find r u ≡ some w → find r v ≡ some w → u ≡ v

assign-IsFresh :
    (lo n k : ℕ) (r : Map ℕ) → lo ≤ n → IsFresh lo n r → IsFresh lo (n + 1) (assign r k n)
assign-IsFresh lo n k r h s = record {
  within = λ v w e. ground (arith, find-assign r k v n, s.within v w);
  injective = λ u v w e f. ground (
    arith,
    find-assign r k u n,
    find-assign r k v n,
    s.injective u v w,
    s.within u n,
    s.within v n,
  );
}

assign_fresh-IsFresh :
    (vs : List ℕ) (lo n : ℕ) (r : Map ℕ)
    → lo ≤ n
    → IsFresh lo n r
    → IsFresh lo (n + length vs) (assign_fresh vs n r)
unfolding assign_fresh
assign_fresh-IsFresh [] lo n r h s = subst (λ m. IsFresh lo m r) (omega arith) s
assign_fresh-IsFresh (v ∷ vs) lo n r h s =
    subst (λ m. IsFresh lo m (assign_fresh vs (n + 1) (assign r v n))) (omega arith)
      (assign_fresh-IsFresh vs lo (n + 1) (assign r v n) (omega arith)
        (assign-IsFresh lo n v r h s))

has-assign_fresh :
    (vs : List ℕ) (n : ℕ) (r : Map ℕ) (v : ℕ)
    → has (assign_fresh vs n r) v ≡ (contains vs v || has r v)
unfolding assign_fresh has
has-assign_fresh [] n r v = refl
has-assign_fresh (k ∷ vs) n r v =
    ground (arith, has-assign_fresh vs (n + 1) (assign r k n) v, find-assign r k v n)

empty-IsFresh : (n : ℕ) → IsFresh n n []
unfolding find
empty-IsFresh n = record { within = λ v w e. cc; injective = λ u v w e f. cc }

has-empty : (v : ℕ) → has {V = ℕ} [] v ≡ false
unfolding has
has-empty v = refl

clause_variable_below :
    (n : ℕ) (c : Clause) (x : ℕ) → IsBelow n c → contains (map var c) x ≡ true → x ≤ n
clause_variable_below n [] x b m = absurd (ground (arith, m))
clause_variable_below n (l ∷ c) x b m = ground (arith, b.0, m, clause_variable_below n c x b.1)

variable_below :
    (n : ℕ) (f : List Clause) (x : ℕ) → AllBelow n f → contains (variables f) x ≡ true → x ≤ n
variable_below n [] x b m = absurd (ground (arith, m))
variable_below n (c ∷ f) x b m = ground (
  arith,
  m,
  contains-append (map var c) (variables f) x,
  clause_variable_below n c x b.0,
  variable_below n f x b.1,
)

first_renamed_start : (f : List Clause) (start : ℕ) → start ≤ first_renamed f start
unfolding first_renamed
first_renamed_start f start = ground arith

first_renamed_behind :
    (f : List Clause) (start x : ℕ)
    → start ≡ 0
    → contains (variables f) x ≡ true
    → x < first_renamed f start
unfolding first_renamed
first_renamed_behind f start x e m =
    ground (arith, e, variable_below (max_var_index f) f x (AllBelow-max_var_index f) m)

-- The renaming has exactly the variables that occur and are not shared; no value is below the given
-- number, and if that is 0 each value is greater than every variable of the formula, whether shared
-- or not; and no two variables share a value.
pub create_renaming_fresh :
    (f : List Clause) (shared : List ℕ) (start u v w x : ℕ)
    → (has (create_renaming f shared start) v
        ≡ (contains (variables f) v && not (contains shared v)))
      × (find (create_renaming f shared start) v ≡ some w → start ≤ w)
      × (find (create_renaming f shared start) v ≡ some w
          → start ≡ 0
          → contains (variables f) x ≡ true
          → x < w)
      × (find (create_renaming f shared start) u ≡ some w
          → find (create_renaming f shared start) v ≡ some w
          → u ≡ v)
unfolding create_renaming
create_renaming_fresh f shared start u v w x =
    let vs = non_shared f shared in
    let lo = first_renamed f start in
    let s = assign_fresh-IsFresh vs lo lo [] (omega arith) (empty-IsFresh lo) in
    (
      ground (arith, has-assign_fresh vs lo [] v, contains-non_shared f shared v, has-empty v),
      (λ e. ground (arith, s.within v w e, first_renamed_start f start)),
      (λ e z m. ground (arith, s.within v w e, first_renamed_behind f start x z m)),
      λ e e'. s.injective u v w e e',
    )
