-- ===== src/Formula/Restriction.antt =====
-- `restrictClauseByConstant0` and `restrictDefinitionByConstant0` of include/utils.h: the universal
-- variables outside the dependencies are fixed to false. The vectors are rewritten in place there;
-- of a clause that is found satisfied the caller reads nothing more.
use pedant_solver.Base.{
  ℕ, suc, ◌+◌, ◌≤◌, ◌<◌, ◌≡◌, refl, inl, inr, Bool, true, false, not, ◌&&◌, ◌||◌, Option, none,
  some, List, [], ◌∷◌, arith, ltb, if◌then◌else◌, Option-cases, length, all, any,
}
use pedant_solver.Base.Int.{ℤ, is_neg}
use pedant_solver.Base.Sets.{contains}
use pedant_solver.Formula.{Clause, Assignment, eval_clause, eval_formula}
use pedant_solver.Literal.{var}

abbrev prepend : ℤ → Option Clause → Option Clause
prepend l none = none
prepend l (some clause) = some (l ∷ clause)

-- The clauses and the literals, counted together.
abbrev pub size : List Clause → ℕ
size [] = 0
size (c ∷ f) = suc (length c) + size f

module _ (dependencies universal_variables : List ℕ) where
  pub keeps : ℕ → Bool
  keeps v = contains dependencies v || not (contains universal_variables v)

  -- `none` for `return true`, the clause that is left for `return false`.
  pub restrict_clause_by_constant0 : Clause → Option Clause
  unfolding keeps
  restrict_clause_by_constant0 [] = some []
  restrict_clause_by_constant0 (l ∷ clause) =
      let rest = restrict_clause_by_constant0 clause in
      if keeps (var l) then prepend l rest else if is_neg l then none else rest

  -- One round of the loop: `definition[j++] = clause; reduced |= …`, or `reduced = true`.
  pub restrict_step : Clause → Option Clause → List Clause × Bool → List Clause × Bool
  restrict_step clause none (kept, reduced) = (kept, true)
  restrict_step clause (some c) (kept, reduced) =
      (c ∷ kept, reduced || ltb (length c) (length clause))

  pub restrict_definition_by_constant0 : List Clause → List Clause × Bool
  unfolding restrict_step restrict_clause_by_constant0
  restrict_definition_by_constant0 [] = ([], false)
  restrict_definition_by_constant0 (clause ∷ definition) =
      restrict_step clause (restrict_clause_by_constant0 clause)
        (restrict_definition_by_constant0 definition)

  -- A universal variable that is none of the dependencies.
  abbrev pub is_outside : ℕ → Bool
  is_outside v = if contains universal_variables v then not (contains dependencies v) else false

  -- The universal variables outside the dependencies are false.
  abbrev pub zeroed : Assignment → Assignment
  zeroed a v = if is_outside v then false else a v

  -- The clauses without a negative literal of such a variable, less their positive ones.
  abbrev is_satisfied : Clause → Bool
  is_satisfied = any (λ l. is_outside (var l) && is_neg l)

  abbrev inside : Clause → Clause
  inside [] = []
  inside (l ∷ clause) = if is_outside (var l) then inside clause else l ∷ inside clause

  abbrev pub inside_clauses : List Clause → List Clause
  inside_clauses [] = []
  inside_clauses (c ∷ f) = if is_satisfied c then inside_clauses f else inside c ∷ inside_clauses f

  pub record Removed (f : List Clause) (r : List Clause × Bool) : Type 0 where
    pub left : r.0 ≡ inside_clauses f
    pub mentioned : all (all (λ l. not (is_outside (var l)))) r.0 ≡ true
    pub unchanged : r.1 ≡ false → r.0 ≡ f
    pub bounded : size r.0 ≤ size f
    pub smaller : r.1 ≡ true → size r.0 < size f

  abbrev eval_option : Assignment → Option Clause → Bool
  eval_option a none = true
  eval_option a (some c) = eval_clause a c

  keeps-not : (v : ℕ) → keeps v ≡ not (is_outside v)
  unfolding keeps
  keeps-not v = ground arith

  restrict_clause_eval :
      (a : Assignment) (c : Clause)
      → eval_option a (restrict_clause_by_constant0 c) ≡ eval_clause (zeroed a) c
  unfolding restrict_clause_by_constant0
  restrict_clause_eval a [] = refl
  restrict_clause_eval a (l ∷ c) = ground (arith, keeps-not (var l), restrict_clause_eval a c)

  restrict_clause_length :
      (c d : Clause)
      → restrict_clause_by_constant0 c ≡ some d
      → (length d ≤ length c) × (length d ≡ length c → d ≡ c)
  unfolding restrict_clause_by_constant0
  restrict_clause_length [] d e = ground arith
  restrict_clause_length (l ∷ c) d e = elim (Option-cases (restrict_clause_by_constant0 c)) [
    | inl n ↦ ground arith
    | inr (r, m) ↦ ground (arith, restrict_clause_length c r m)
  ]

  restrict_clause_keeps :
      (c d : Clause)
      → restrict_clause_by_constant0 c ≡ some d
      → all (λ l. not (is_outside (var l))) d ≡ true
  unfolding restrict_clause_by_constant0
  restrict_clause_keeps [] d e = ground arith
  restrict_clause_keeps (l ∷ c) d e = elim (Option-cases (restrict_clause_by_constant0 c)) [
    | inl n ↦ ground arith
    | inr (r, m) ↦ ground (arith, keeps-not (var l), restrict_clause_keeps c r m)
  ]

  restrict_clause_inside :
      (c : Clause)
      → restrict_clause_by_constant0 c ≡ (if is_satisfied c then none else some (inside c))
  unfolding restrict_clause_by_constant0
  restrict_clause_inside [] = refl
  restrict_clause_inside (l ∷ c) = ground (arith, keeps-not (var l), restrict_clause_inside c)

  restrict_step-eval :
      (a : Assignment) (c : Clause) (o : Option Clause) (r : List Clause × Bool)
      → eval_formula a (restrict_step c o r).0 ≡ (eval_option a o && eval_formula a r.0)
  unfolding restrict_step
  restrict_step-eval a c none r = refl
  restrict_step-eval a c (some d) r = refl

  -- Under every assignment the restricted definition has the value that the definition has once the
  -- universal variables that are no dependencies are set to false.
  pub eval-restrict_definition_by_constant0 :
      (a : Assignment) (f : List Clause)
      → eval_formula a (restrict_definition_by_constant0 f).0 ≡ eval_formula (zeroed a) f
  unfolding restrict_definition_by_constant0
  eval-restrict_definition_by_constant0 a [] = refl
  eval-restrict_definition_by_constant0 a (c ∷ f) = ground (
    arith,
    restrict_step-eval a c (restrict_clause_by_constant0 c) (restrict_definition_by_constant0 f),
    restrict_clause_eval a c,
    eval-restrict_definition_by_constant0 a f,
  )

  restrict_step-Removed :
      (c : Clause) (o : Option Clause) (f : List Clause) (r : List Clause × Bool)
      → ((d : Clause)
          → o ≡ some d
          → (all (λ l. not (is_outside (var l))) d ≡ true)
            × (length d ≤ length c)
            × (length d ≡ length c → d ≡ c))
      → o ≡ (if is_satisfied c then none else some (inside c))
      → Removed f r
      → Removed (c ∷ f) (restrict_step c o r)
  unfolding restrict_step
  restrict_step-Removed c none f r h e s = record {
    left = ground (arith, s.left);
    mentioned = s.mentioned;
    unchanged = λ e. cc;
    bounded = ground (arith, s.bounded);
    smaller = λ e. ground (arith, s.bounded);
  }
  restrict_step-Removed c (some d) f r h e s = record {
    left = ground (arith, s.left);
    mentioned = ground (arith, h d refl, s.mentioned);
    unchanged = λ e. ground (arith, h d refl, s.unchanged);
    bounded = ground (arith, h d refl, s.bounded);
    smaller = λ e. ground (arith, h d refl, s.bounded, s.smaller);
  }

  -- What is left are the clauses without a negative literal of a universal variable outside the
  -- dependencies, less their positive ones, so it mentions no such variable; and the result says
  -- whether anything was removed: it is false only if the definition is unchanged, and true only if
  -- clauses or literals have gone.
  pub restrict_definition_by_constant0-Removed :
      (f : List Clause) → Removed f (restrict_definition_by_constant0 f)
  unfolding restrict_definition_by_constant0
  restrict_definition_by_constant0-Removed [] = record {
    left = refl;
    mentioned = refl;
    unchanged = λ e. refl;
    bounded = omega arith;
    smaller = λ e. cc;
  }
  restrict_definition_by_constant0-Removed (c ∷ f) =
      restrict_step-Removed c (restrict_clause_by_constant0 c) f
        (restrict_definition_by_constant0 f)
        (λ d e. let n = restrict_clause_length c d e in (restrict_clause_keeps c d e, n.0, n.1))
        (restrict_clause_inside c) (restrict_definition_by_constant0-Removed f)
