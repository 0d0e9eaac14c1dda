-- ===== src/Preprocessor/Reduction.antt =====
-- Universal reduction keeps the models: functions of the universal variables for the other variables
-- that respect the dependencies.
use pedant_solver.Base.{
  ℕ, ◌+◌, ◌≡◌, refl, sym, ap, ◌∙◌, ◌↔◌, inl, inr, Bool, true, false, not, ◌&&◌, ◌||◌, List, [], ◌∷◌,
  ◌++◌, arith, if◌then◌else◌, Bool-cases, is_empty, any, All, any-append,
}
use pedant_solver.Base.Int.{ℤ, pos, negsuc, neg, eq_ℤ, eq_ℤ_iff}
use pedant_solver.Base.Maps.{Map, at_or}
use pedant_solver.Base.Sets.{contains}
use pedant_solver.Literal.{var}
use pedant_solver.Formula.{Clause, Assignment, eval_lit, eval_clause, eval_formula}
use pedant_solver.Formula.Support.{restrict_to}
use pedant_solver.Preprocessor.{
  keys, is_dependency, push_dependencies, apply_forall_reduction, reduce_matrix,
}

-- A function for every variable, of which those of the existential variables count.
abbrev pub Functions : Type 0
Functions = ℕ → Assignment → Bool

-- The assignment that the functions make of one of the universal variables.
abbrev pub play : List ℕ → Functions → Assignment → Assignment
play universals f a v = if contains universals v then a v else f v a

-- The functions make the matrix true whatever the universal variables are.
abbrev pub IsModel : List ℕ → Functions → List Clause → Type 0
IsModel universals f matrix = (a : Assignment) → eval_formula (play universals f a) matrix ≡ true

-- The function of a variable depends on its dependencies only.
abbrev pub Respects : Map (List ℕ) → Functions → Type 0
Respects m f =
    (v : ℕ) (a b : Assignment)
    → ((w : ℕ) → contains (at_or m v []) w ≡ true → a w ≡ b w)
    → f v a ≡ f v b

abbrev pub occurs : ℤ → Clause → Bool
occurs l = any (eq_ℤ l)

-- Each variable of the clause is universal or has dependencies, and no universal variable occurs
-- with both signs.
abbrev pub IsReducible : List ℕ → Map (List ℕ) → Clause → Type 0
IsReducible universals m c =
    (l : ℤ)
    → occurs l c ≡ true
    → ((contains universals (var l) || contains (keys m) (var l)) ≡ true)
      × ((contains universals (var l) && occurs (neg l) c) ≡ false)

any-push_dependencies :
    (m : Map (List ℕ)) (ex : Clause) (ls : List ℤ) (c : Clause) (n : ℕ) (p : ℤ → Bool)
    → any p (push_dependencies m ex ls c n).0
      ≡ (any p c || any (λ l. is_dependency m ex (var l) && p l) ls)
unfolding push_dependencies
any-push_dependencies m ex [] c n p = ground arith
any-push_dependencies m ex (l ∷ ls) c n p = ground (
  arith,
  any-push_dependencies m ex ls (c ++ l ∷ []) n p,
  any-push_dependencies m ex ls c (n + 1) p,
  any-append p c (l ∷ []),
)

any-restrict_to :
    (c : Clause) (r : List ℕ) (p : ℤ → Bool)
    → any p (restrict_to c r) ≡ any (λ l. contains r (var l) && p l) c
unfolding restrict_to
any-restrict_to [] r p = refl
any-restrict_to (l ∷ c) r p = ground (arith, any-restrict_to c r p)

-- A witness moves from one test to another.
any_moves :
    (c : Clause) (p q : ℤ → Bool)
    → ((l : ℤ) → occurs l c ≡ true → p l ≡ true → q l ≡ true)
    → any p c ≡ true
    → any q c ≡ true
any_moves [] p q h e = e
any_moves (l ∷ c) p q h e =
    ground (arith, (eq_ℤ_iff l l).1 refl, h l, any_moves c p q (λ k o. h k (ground arith)))

any_or : (c : Clause) (p q : ℤ → Bool) → any (λ l. p l || q l) c ≡ (any p c || any q c)
any_or [] p q = refl
any_or (l ∷ c) p q = ground (arith, any_or c p q)

any_of_occurrence :
    (c : Clause) (p : ℤ → Bool) (l : ℤ) → occurs l c ≡ true → p l ≡ true → any p c ≡ true
any_of_occurrence c p l o e =
    any_moves c (eq_ℤ l) p (λ k _ i. sym (ap p ((eq_ℤ_iff l k).0 i)) ∙ e) o

-- What the reduction keeps of a clause.
keeps : List ℕ → Map (List ℕ) → Clause → ℤ → Bool
keeps universals m c l =
    contains (keys m) (var l)
    || (contains universals (var l) && is_dependency m (restrict_to c (keys m)) (var l))

any_ext : (c : Clause) (p q : ℤ → Bool) → ((l : ℤ) → p l ≡ q l) → any p c ≡ any q c
any_ext [] p q h = refl
any_ext (l ∷ c) p q h = ground (arith, h l, any_ext c p q h)

any-apply_forall_reduction :
    (c : Clause) (us inner : List ℕ) (m : Map (List ℕ)) (p : ℤ → Bool)
    → is_empty (restrict_to c inner) ≡ true
    → any p (apply_forall_reduction c us inner m).0 ≡ any (λ l. keeps us m c l && p l) c
unfolding apply_forall_reduction keeps
any-apply_forall_reduction c us inner m p e =
    let ex = restrict_to c (keys m) in
    rw e (
      any-push_dependencies m ex (restrict_to c us) ex 0 p
      ∙ ground (
        arith,
        any-restrict_to c (keys m) p,
        any-restrict_to c us (λ l. is_dependency m ex (var l) && p l),
        any_or c (λ l. contains (keys m) (var l) && p l)
            (λ l. contains us (var l) && (is_dependency m ex (var l) && p l)),
        any_ext c
            (λ l.
              (contains (keys m) (var l) && p l)
              || (contains us (var l) && (is_dependency m ex (var l) && p l)))
            (λ l.
              (contains (keys m) (var l) || (contains us (var l) && is_dependency m ex (var l)))
              && p l)
            (λ l. ground arith),
      ))

-- An assignment that differs in the reduced variables only, and makes their literals false.
falsify : List ℕ → Map (List ℕ) → Clause → Assignment → Assignment
falsify us m c a v =
    if contains us v && not (is_dependency m (restrict_to c (keys m)) v)
    then occurs (neg (pos v)) c
    else a v

is_dependency_of_occurs :
    (m : Map (List ℕ)) (c : Clause) (l : ℤ) (w : ℕ)
    → occurs l c ≡ true
    → contains (keys m) (var l) ≡ true
    → contains (at_or m (var l) []) w ≡ true
    → is_dependency m (restrict_to c (keys m)) w ≡ true
unfolding is_dependency
is_dependency_of_occurs m c l w o k e =
    any-restrict_to c (keys m) (λ j. contains (at_or m (var j) []) w)
    ∙ any_of_occurrence c (λ j. contains (keys m) (var j) && contains (at_or m (var j) []) w) l o
        (ground arith)

-- The function of a variable of the clause does not see the difference.
falsify_agree :
    (us : List ℕ) (m : Map (List ℕ)) (c : Clause) (f : Functions) (a : Assignment) (l : ℤ)
    → Respects m f
    → occurs l c ≡ true
    → contains (keys m) (var l) ≡ true
    → f (var l) (falsify us m c a) ≡ f (var l) a
unfolding falsify
falsify_agree us m c f a l r o k =
    r (var l) (falsify us m c a) a (λ w e. ground (arith, is_dependency_of_occurs m c l w o k e))

kept_literal :
    (us : List ℕ) (m : Map (List ℕ)) (c : Clause) (f : Functions) (a : Assignment) (l : ℤ)
    → Respects m f
    → IsReducible us m c
    → occurs l c ≡ true
    → eval_lit (play us f (falsify us m c a)) l ≡ true
    → (keeps us m c l && eval_lit (play us f a) l) ≡ true
unfolding keeps falsify
kept_literal us m c f a (pos n) r h o e =
    ground (arith, h (pos n) o, falsify_agree us m c f a (pos n) r o)
kept_literal us m c f a (negsuc n) r h o e =
    ground (arith, h (negsuc n) o, falsify_agree us m c f a (negsuc n) r o)

unreduced_clause :
    (us inner : List ℕ) (m : Map (List ℕ)) (c : Clause)
    → is_empty (restrict_to c inner) ≡ false
    → (apply_forall_reduction c us inner m).0 ≡ c
unfolding apply_forall_reduction
unreduced_clause us inner m c e = rw e refl

-- A clause and its reduction.
reduced_clause :
    (us inner : List ℕ) (m : Map (List ℕ)) (c : Clause) (f : Functions)
    → Respects m f
    → IsReducible us m c
    → ((a : Assignment) → eval_clause (play us f a) c ≡ true)
    → (a : Assignment) → eval_clause (play us f a) (apply_forall_reduction c us inner m).0 ≡ true
reduced_clause us inner m c f r h t a = elim (Bool-cases (is_empty (restrict_to c inner))) [
  | inl e ↦
      any-apply_forall_reduction c us inner m (eval_lit (play us f a)) e
      ∙ any_moves c (eval_lit (play us f (falsify us m c a)))
          (λ l. keeps us m c l && eval_lit (play us f a) l)
          (λ l o k. kept_literal us m c f a l r h o k) (t (falsify us m c a))
  | inr e ↦ ap (eval_clause (play us f a)) (unreduced_clause us inner m c e) ∙ t a
]

clause_of_reduced :
    (us inner : List ℕ) (m : Map (List ℕ)) (c : Clause) (a : Assignment)
    → eval_clause a (apply_forall_reduction c us inner m).0 ≡ true
    → eval_clause a c ≡ true
clause_of_reduced us inner m c a t = elim (Bool-cases (is_empty (restrict_to c inner))) [
  | inl e ↦
      any_moves c (λ l. keeps us m c l && eval_lit a l) (eval_lit a) (λ l o k. ground arith)
        (sym (any-apply_forall_reduction c us inner m (eval_lit a) e) ∙ t)
  | inr e ↦ ap (eval_clause a) (sym (unreduced_clause us inner m c e)) ∙ t
]

reduced_matrix :
    (us inner : List ℕ) (m : Map (List ℕ)) (matrix : List Clause) (f : Functions)
    → Respects m f
    → All (IsReducible us m) matrix
    → IsModel us f matrix
    → IsModel us f (reduce_matrix matrix us inner m)
unfolding reduce_matrix
reduced_matrix us inner m [] f r h t a = refl
reduced_matrix us inner m (c ∷ matrix) f r h t a = ground (
  arith,
  reduced_clause us inner m c f r h.0 (λ b. ground (arith, t b)) a,
  reduced_matrix us inner m matrix f r h.1 (λ b. ground (arith, t b)) a,
)

matrix_of_reduced :
    (us inner : List ℕ) (m : Map (List ℕ)) (matrix : List Clause) (f : Functions)
    → IsModel us f (reduce_matrix matrix us inner m)
    → IsModel us f matrix
unfolding reduce_matrix
matrix_of_reduced us inner m [] f t a = refl
matrix_of_reduced us inner m (c ∷ matrix) f t a = ground (
  arith,
  t a,
  clause_of_reduced us inner m c (play us f a),
  matrix_of_reduced us inner m matrix f (λ b. ground (arith, t b)) a,
)

-- Universal reduction of a matrix keeps its models: functions that respect the dependencies of the
-- map satisfy the matrix under all assignments of the universal variables exactly when they satisfy
-- the reduced matrix. This is for clauses whose variables are universal or keys of the map, and in
-- which no universal variable occurs with both signs.
pub reduce_matrix-IsModel :
    (universals innermost : List ℕ) (m : Map (List ℕ)) (matrix : List Clause) (f : Functions)
    → Respects m f
    → All (IsReducible universals m) matrix
    → IsModel universals f (reduce_matrix matrix universals innermost m)
      ↔ IsModel universals f matrix
reduce_matrix-IsModel universals innermost m matrix f r h = (
  matrix_of_reduced universals innermost m matrix f,
  reduced_matrix universals innermost m matrix f r h,
)
