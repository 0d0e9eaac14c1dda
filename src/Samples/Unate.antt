-- ===== src/Samples/Unate.antt =====
-- The doubled formula of a matrix, and two assignments that it joins.
use pedant_solver.Base.{ℕ, Bool, ◌≤◌, ◌<◌, ◌↔◌, ◌≡◌, refl, true, false, List, [], ◌∷◌, arith, ◌==◌}
use pedant_solver.Base.Int.{pos, negsuc}
use pedant_solver.Formula.{Clause, Assignment, eval_formula}
use pedant_solver.Base.Sets.{contains}
use pedant_solver.Unate.{new_unate_checker}
use pedant_solver.Unate.Meaning.{Agree, Joins, new_unate_checker-value}

-- 1 is universal; 3 is switched on.
abbrev matrix : List Clause
matrix = (pos 1 ∷ pos 2 ∷ pos 3 ∷ []) ∷ []

abbrev switched : ℕ → Bool
switched v = v == 3

-- 2 is true in the one assignment and false in the other.
abbrev first : Assignment
first v = v == 2

abbrev second : Assignment
second v = false

in_range : (v : ℕ) → contains (2 ∷ 3 ∷ []) v ≡ true → (0 < v) × (v ≤ 3)
in_range v h = ground (arith, h)

new_unate_checker-value_example :
    ((a : Assignment) × Joins first second switched 3 a (new_unate_checker matrix (2 ∷ 3 ∷ []) 3))
    ↔ ((eval_formula first matrix ≡ true)
        × (eval_formula second matrix ≡ false)
        × Agree first second switched (2 ∷ 3 ∷ []) 3)
new_unate_checker-value_example =
    new_unate_checker-value first second switched matrix (2 ∷ 3 ∷ []) 3 (omega arith) (omega arith)
      (omega arith) in_range

sample-Agree : Agree first second switched (2 ∷ 3 ∷ []) 3
sample-Agree v le h = ground (arith, h)

-- There is such an assignment.
joined_test :
    (a : Assignment) × (eval_formula a (new_unate_checker matrix (2 ∷ 3 ∷ []) 3).solver_clauses
      ≡ true)
joined_test =
    let r =
      (new_unate_checker-value first second switched matrix (2 ∷ 3 ∷ []) 3 (omega arith)
          (omega arith) (omega arith) in_range).1
        (refl, refl, sample-Agree) in
    (r.0, r.1.3)

-- Of the matrix x₁ ∨ x₂, where 2 is existential: its copy is 4, its switch 5.
equalities :
    (new_unate_checker ((pos 1 ∷ pos 2 ∷ []) ∷ []) (2 ∷ []) 2).equalities_for_renamings
    ≡ (negsuc 4 ∷ negsuc 1 ∷ pos 4 ∷ []) ∷ (negsuc 4 ∷ pos 2 ∷ negsuc 3 ∷ []) ∷ []
unfolding new_unate_checker
equalities = refl
