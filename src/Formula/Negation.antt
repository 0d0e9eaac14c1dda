-- ===== src/Formula/Negation.antt =====
-- `negateFormula` of include/utils.h: a formula in conjunctive normal form, with one fresh variable
-- for each clause, for the negation of a formula.
use pedant_solver.Base.{
  ℕ, suc, ◌+◌, ◌≤◌, ◌<◌, ◌≡◌, refl, sym, subst, ◌↔◌, inl, inr, true, false, not, ◌||◌, List, [],
  ◌∷◌, ◌++◌, map, arith, ltb, ◌==◌, if◌then◌else◌, Bool-cases, length, All, all-append, All-append,
}
use pedant_solver.Base.Sets.{Above}
use pedant_solver.Base.Int.{pos, neg, abs-neg}
use pedant_solver.Formula.{
  Clause, Assignment, eval_clause, eval_formula, IsClause, IsFormula, eval_lit-neg, max_var_index,
  IsBelow, AllBelow, AllBelow-max_var_index, eval_clause_agree, eval_formula_agree,
}

-- The loop over the clauses: the binary clauses, the fresh variables in order, and the last one.
unfoldable pub negate_clauses : List Clause → ℕ → List Clause × List ℕ × ℕ
negate_clauses [] clause_variable = ([], [], clause_variable)
negate_clauses (clause ∷ formula) clause_variable =
    let v = clause_variable + 1 in
    let rest = negate_clauses formula v in
    (map (λ literal. neg literal ∷ pos v ∷ []) clause ++ rest.0, v ∷ rest.1, rest.2)

unfoldable pub first_used : List Clause → ℕ → ℕ
first_used formula max_used_variable =
    if ltb 0 max_used_variable then max_used_variable else max_var_index formula

-- The negation, the variables of the clauses, and the new `max_used_variable`.
unfoldable pub negate_formula : List Clause → ℕ → List Clause × List ℕ × ℕ
unfolding negate_clauses first_used
negate_formula formula max_used_variable =
    let (formula_negated, clause_variables, clause_variable) =
      negate_clauses formula (first_used formula max_used_variable) in
    (
      formula_negated ++ map (λ v. neg (pos v)) clause_variables ∷ [],
      clause_variables,
      clause_variable,
    )

-- a clause whose literals imply a variable
binary_eval :
    (b : Assignment) (c : Clause) (v : ℕ)
    → IsClause c
    → eval_formula b (map (λ l. neg l ∷ pos v ∷ []) c) ≡ (not (eval_clause b c) || b v)
binary_eval b [] v h = refl
binary_eval b (l ∷ c) v h = ground (arith, eval_lit-neg b l h.0, binary_eval b c v h.1)

-- Where the binary clauses hold, some fresh variable is false only if some clause is.
negate_clauses_sound :
    (b : Assignment) (f : List Clause) (m : ℕ)
    → IsFormula f
    → eval_formula b (negate_clauses f m).0 ≡ true
    → eval_clause b (map (λ v. neg (pos v)) (negate_clauses f m).1) ≡ true
    → eval_formula b f ≡ false
unfolding negate_clauses
negate_clauses_sound b [] m h e k = ground arith
negate_clauses_sound b (c ∷ f) m h e k = ground (
  arith,
  add_one m,
  binary_eval b c (m + 1) h.0,
  negate_clauses_sound b f (m + 1) h.1,
  all-append (eval_clause b) (map (λ l. neg l ∷ pos (m + 1) ∷ []) c) (negate_clauses f (m + 1)).0,
)
  where
    add_one : (n : ℕ) → n + 1 ≡ suc n
    add_one n = omega arith

-- Each fresh variable has the value of its clause.
abbrev Records : Assignment → List Clause → ℕ → Type 0
Records b [] m = Unit {0}
Records b (c ∷ f) m = (b (m + 1) ≡ eval_clause b c) × Records b f (m + 1)

negate_clauses_complete :
    (b : Assignment) (f : List Clause) (m : ℕ)
    → IsFormula f
    → Records b f m
    → (eval_formula b (negate_clauses f m).0 ≡ true)
      × (eval_clause b (map (λ v. neg (pos v)) (negate_clauses f m).1) ≡ not (eval_formula b f))
unfolding negate_clauses
negate_clauses_complete b [] m h r = (refl, refl)
negate_clauses_complete b (c ∷ f) m h r = ground (
  arith,
  binary_eval b c (m + 1) h.0,
  negate_clauses_complete b f (m + 1) h.1 r.1,
  eval_lit-neg b (pos (m + 1)) (omega arith),
  all-append (eval_clause b) (map (λ l. neg l ∷ pos (m + 1) ∷ []) c) (negate_clauses f (m + 1)).0,
)

-- An assignment with the values of the clauses behind the variables up to `m`.
extend : Assignment → List Clause → ℕ → Assignment
extend a [] m v = a v
extend a (c ∷ f) m v = if v == m + 1 then eval_clause a c else extend a f (m + 1) v

extend_below : (a : Assignment) (f : List Clause) (m v : ℕ) → v ≤ m → extend a f m v ≡ a v
unfolding extend
extend_below a [] m v h = refl
extend_below a (c ∷ f) m v h = ground (arith, extend_below a f (m + 1) v (omega arith))

extend-Records :
    (a b : Assignment) (f : List Clause) (k m : ℕ)
    → AllBelow k f
    → k ≤ m
    → ((v : ℕ) → v ≤ k → b v ≡ a v)
    → ((v : ℕ) → m < v → b v ≡ extend a f m v)
    → Records b f m
unfolding extend
extend-Records a b [] k m h le low high = tt
extend-Records a b (c ∷ f) k m h le low high = (
  ground (arith, high (m + 1), eval_clause_agree k b a c h.0 low),
  extend-Records a b f k (m + 1) h.1 (omega arith) low λ v lt. ground (arith, high v),
)

first_used_bound : (f : List Clause) (m : ℕ) → (0 < m → AllBelow m f) → AllBelow (first_used f m) f
unfolding first_used
first_used_bound f m h = elim (Bool-cases (ltb 0 m)) [
  | inl p ↦ rw p (h (ground arith))
  | inr p ↦ rw p (AllBelow-max_var_index f)
]

negated_by_extend :
    (a : Assignment) (f : List Clause) (k : ℕ)
    → IsFormula f
    → AllBelow k f
    → eval_formula a f ≡ false
    → eval_formula
        (extend a f k)
        ((negate_clauses f k).0 ++ map (λ v. neg (pos v)) (negate_clauses f k).1 ∷ [])
      ≡ true
negated_by_extend a f k h below e = ground (
  arith,
  eval_formula_agree k (extend a f k) a f below (λ v le. extend_below a f k v le),
  negate_clauses_complete (extend a f k) f k h (
      extend-Records a (extend a f k) f k k below (omega arith) (λ v le. extend_below a f k v le)
        λ v lt. refl),
  all-append (eval_clause (extend a f k)) (negate_clauses f k).0
      (map (λ v. neg (pos v)) (negate_clauses f k).1 ∷ []),
)

falsified_by_negation :
    (a b : Assignment) (f : List Clause) (k : ℕ)
    → IsFormula f
    → AllBelow k f
    → ((v : ℕ) → v ≤ k → b v ≡ a v)
    → eval_formula b ((negate_clauses f k).0 ++ map (λ v. neg (pos v)) (negate_clauses f k).1 ∷ [])
      ≡ true
    → eval_formula a f ≡ false
falsified_by_negation a b f k h below same e = ground (
  arith,
  eval_formula_agree k b a f below same,
  negate_clauses_sound b f k h,
  all-append (eval_clause b) (negate_clauses f k).0
      (map (λ v. neg (pos v)) (negate_clauses f k).1 ∷ []),
)

-- For a formula over variables up to the given maximum (which is computed if it is given as 0): an
-- assignment falsifies it exactly when an assignment that agrees with it on these variables
-- satisfies the negation.
pub eval-negate_formula :
    (a : Assignment) (f : List Clause) (m : ℕ)
    → IsFormula f
    → (0 < m → AllBelow m f)
    → (eval_formula a f ≡ false) ↔ (
        (b : Assignment) × ((v : ℕ) → v ≤ first_used f m → b v ≡ a v)
        × (eval_formula b (negate_formula f m).0 ≡ true))
unfolding negate_formula
eval-negate_formula a f m h below =
    let k = first_used f m in
    let fits = first_used_bound f m below in
    (
      λ e. (extend a f k, (λ v le. extend_below a f k v le), negated_by_extend a f k h fits e),
      λ r. falsified_by_negation a r.0 f k h fits r.1 r.2,
    )

negate_clauses_last : (f : List Clause) (m : ℕ) → (negate_clauses f m).2 ≡ m + length f
unfolding negate_clauses
negate_clauses_last [] m = omega arith
negate_clauses_last (c ∷ f) m = omega (arith, negate_clauses_last f (m + 1))

negate_clauses_fresh :
    (f : List Clause) (m : ℕ)
    → Above m (negate_clauses f m).1 × All (λ v. v ≤ m + length f) (negate_clauses f m).1
unfolding negate_clauses
negate_clauses_fresh [] m = (tt, tt)
negate_clauses_fresh (c ∷ f) m =
    let rest = negate_clauses_fresh f (m + 1) in
    (
      (omega arith, rest.0),
      (
        omega arith,
        subst (λ n. All (λ v. v ≤ n) (negate_clauses f (m + 1)).1) (omega arith) rest.1,
      ),
    )

-- The variables of the clauses are ascending, lie above the given maximum and up to the returned
-- one, and there is one of them for each clause.
pub negate_formula_fresh :
    (f : List Clause) (m : ℕ)
    → Above (first_used f m) (negate_formula f m).1
      × All (λ v. v ≤ (negate_formula f m).2) (negate_formula f m).1
      × ((negate_formula f m).2 ≡ first_used f m + length f)
unfolding negate_formula
negate_formula_fresh f m =
    let k = first_used f m in
    let last = negate_clauses_last f k in
    let rest = negate_clauses_fresh f k in
    (rest.0, subst (λ n. All (λ v. v ≤ n) (negate_clauses f k).1) (sym last) rest.1, last)

binary_below :
    (n v : ℕ) (c : Clause)
    → IsBelow n c
    → v ≤ n
    → AllBelow n (map (λ literal. neg literal ∷ pos v ∷ []) c)
binary_below n v [] h k = tt
binary_below n v (l ∷ c) h k =
    ((subst (λ x. x ≤ n) (sym (abs-neg l)) h.0, (k, tt)), binary_below n v c h.1 k)

negate_clauses-AllBelow :
    (f : List Clause) (m n : ℕ)
    → AllBelow n f
    → m + length f ≤ n
    → AllBelow n (negate_clauses f m).0
unfolding negate_clauses
negate_clauses-AllBelow [] m n h k = tt
negate_clauses-AllBelow (c ∷ f) m n h k =
    All-append (IsBelow n) (map (λ literal. neg literal ∷ pos (m + 1) ∷ []) c)
      (negate_clauses f (m + 1)).0 (binary_below n (m + 1) c h.0 (omega (arith, k)))
      (negate_clauses-AllBelow f (m + 1) n h.1 (omega (arith, k)))

negated_variables-IsBelow :
    (n : ℕ) (vs : List ℕ) → All (λ v. v ≤ n) vs → IsBelow n (map (λ v. neg (pos v)) vs)
negated_variables-IsBelow n [] h = tt
negated_variables-IsBelow n (v ∷ vs) h =
    (subst (λ x. x ≤ n) (sym (abs-neg (pos v))) h.0, negated_variables-IsBelow n vs h.1)

All-raise_bound : (m n : ℕ) (vs : List ℕ) → m ≤ n → All (λ v. v ≤ m) vs → All (λ v. v ≤ n) vs
All-raise_bound m n [] h a = tt
All-raise_bound m n (v ∷ vs) h a = (omega (arith, h, a.0), All-raise_bound m n vs h a.1)

pub negate_formula-AllBelow :
    (f : List Clause) (m n : ℕ)
    → AllBelow n f
    → first_used f m + length f ≤ n
    → AllBelow n (negate_formula f m).0
unfolding negate_formula
negate_formula-AllBelow f m n h k =
    let fresh = negate_clauses_fresh f (first_used f m) in
    All-append (IsBelow n) (negate_clauses f (first_used f m)).0
      (map (λ v. neg (pos v)) (negate_clauses f (first_used f m)).1 ∷ [])
      (negate_clauses-AllBelow f (first_used f m) n h k)
      (
        negated_variables-IsBelow n (negate_clauses f (first_used f m)).1 (
            All-raise_bound (first_used f m + length f) n (negate_clauses f (first_used f m)).1 k
              fresh.1),
        tt,
      )
