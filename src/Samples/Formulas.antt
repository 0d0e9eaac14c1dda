-- ===== src/Samples/Formulas.antt =====
-- The theorems on literals, formulas and disjunctions at concrete inputs.
use pedant_solver.Base.{
  ℕ, ◌%◌, ◌^◌, ◌≤◌, ◌<◌, ◌≡◌, refl, ◌≢◌, ◌↔◌, true, false, not, ◌&&◌, ◌||◌, some, List, [], ◌∷◌,
  arith, ◌==◌, any,
}
use pedant_solver.Base.Int.{pos, negsuc}
use pedant_solver.Base.Sets.{contains, insert}
use pedant_solver.Base.Maps.{Map, find, assign, has}
use pedant_solver.Formula.{
  Clause, Assignment, eval_lit, eval_clause, eval_formula, IsFormula, max_var_index,
}
use pedant_solver.Literal.{var, lit_from_mini_sat_lit, mini_sat_literal}
use pedant_solver.Literal.Codes.{mini_sat_roundtrip}
use pedant_solver.Formula.Negation.{negate_formula, first_used, eval-negate_formula}
use pedant_solver.Formula.Renaming.{
  non_shared_clause, rename_formula, create_renaming, renamed, IsRenaming, eval-rename_formula,
}
use pedant_solver.Formula.Renaming.Fresh.{variables, create_renaming_fresh}
use pedant_solver.Formula.Support.{get_support, get_support_agree}
use pedant_solver.Formula.Restriction.{
  zeroed, restrict_definition_by_constant0, eval-restrict_definition_by_constant0, Removed,
  restrict_definition_by_constant0-Removed,
}
use pedant_solver.Disjunction.{
  Shared, terminal, new_disjunction, create_disjunct, create_disjuncts, create_disjuncts_iff,
  create_disjunct_frame,
}

-- Variables 1 and 3 are true.
abbrev odd : Assignment
odd v = v % 2 == 1

-- (1 or -2) and (2 or 3 or -4)
abbrev small : List Clause
small = (pos 1 ∷ negsuc 1 ∷ []) ∷ (pos 2 ∷ pos 3 ∷ negsuc 3 ∷ []) ∷ []

small-IsFormula : IsFormula small
small-IsFormula = omega arith

mini_sat_roundtrip_example :
    (lit_from_mini_sat_lit (mini_sat_literal (negsuc 4)) ≡ negsuc 4)
    × (var (negsuc 4) < 2 ^ 30 → mini_sat_literal (negsuc 4) < 2 ^ 31)
    × (◌≢◌ {A = ℕ} 6 1 → mini_sat_literal (lit_from_mini_sat_lit 6) ≡ 6)
mini_sat_roundtrip_example = mini_sat_roundtrip (negsuc 4) 6

mini_sat_test : mini_sat_literal (negsuc 4) ≡ 11
unfolding mini_sat_literal
mini_sat_test = refl

eval-negate_formula_example : (eval_formula odd small ≡ false) ↔ (
    (b : Assignment) × ((v : ℕ) → v ≤ first_used small 4 → b v ≡ odd v)
    × (eval_formula b (negate_formula small 4).0 ≡ true))
eval-negate_formula_example = eval-negate_formula odd small 4 small-IsFormula (λ h. omega arith)

negate_formula_test : (negate_formula small 4).1 ≡ 5 ∷ 6 ∷ []
unfolding negate_formula
negate_formula_test = refl

abbrev swap : Map ℕ
swap = (1, 7) ∷ (2, 1) ∷ []

swap-IsRenaming : IsRenaming swap
unfolding find
swap-IsRenaming v w e = ground arith

eval-rename_formula_example :
    eval_formula odd (rename_formula small swap) ≡ eval_formula (λ v. odd (renamed swap v)) small
eval-rename_formula_example = eval-rename_formula odd swap small swap-IsRenaming

create_renaming_fresh_example :
    (has (create_renaming small (2 ∷ []) 0) 3
      ≡ (contains (variables small) 3 && not (contains (2 ∷ []) 3)))
    × (find (create_renaming small (2 ∷ []) 0) 3 ≡ some 6 → 0 ≤ 6)
    × (find (create_renaming small (2 ∷ []) 0) 3 ≡ some 6
        → ◌≡◌ {A = ℕ} 0 0
        → contains (variables small) 2 ≡ true
        → 2 < 6)
    × (find (create_renaming small (2 ∷ []) 0) 1 ≡ some 6
        → find (create_renaming small (2 ∷ []) 0) 3 ≡ some 6
        → ◌≡◌ {A = ℕ} 1 3)
create_renaming_fresh_example = create_renaming_fresh small (2 ∷ []) 0 1 3 6 2

create_renaming_test : find (create_renaming small (2 ∷ []) 0) 3 ≡ some 6
unfolding create_renaming max_var_index find assign non_shared_clause
create_renaming_test = refl

get_support_agree_example :
    (eval_clause odd (pos 4 ∷ []) ≡ eval_clause (λ v. v == 1 || v == 3) (pos 4 ∷ []))
    × (eval_formula odd small ≡ eval_formula (λ v. v == 1 || v == 3) small)
unfolding get_support insert
get_support_agree_example =
    get_support_agree odd (λ v. v == 1 || v == 3) (pos 4 ∷ []) small (λ v m. ground arith)

eval-restrict_definition_by_constant0_example :
    eval_formula odd (restrict_definition_by_constant0 (1 ∷ []) (1 ∷ 2 ∷ []) small).0
    ≡ eval_formula (zeroed (1 ∷ []) (1 ∷ 2 ∷ []) odd) small
eval-restrict_definition_by_constant0_example =
    eval-restrict_definition_by_constant0 (1 ∷ []) (1 ∷ 2 ∷ []) odd small

restrict_definition_by_constant0-Removed_example :
    Removed
      (1 ∷ [])
      (1 ∷ 2 ∷ [])
      small
      (restrict_definition_by_constant0 (1 ∷ []) (1 ∷ 2 ∷ []) small)
restrict_definition_by_constant0-Removed_example =
    restrict_definition_by_constant0-Removed (1 ∷ []) (1 ∷ 2 ∷ []) small

-- One other disjunction, with the terminal -5.
abbrev in_use : Shared
in_use = record { last_used_variable = 5; terminals = negsuc 4 ∷ [] }

create_disjuncts_iff_example :
    (any (eval_clause odd) ((pos 2 ∷ []) ∷ (pos 1 ∷ pos 4 ∷ []) ∷ []) ≡ true) ↔ (
      (b : Assignment) × ((v : ℕ) → v ≤ 5 → b v ≡ odd v)
      × (eval_formula b
            (create_disjuncts ((pos 2 ∷ []) ∷ (pos 1 ∷ pos 4 ∷ []) ∷ []) new_disjunction in_use).0
          ≡ true)
      × (eval_lit b (
            terminal 1
              (create_disjuncts
                ((pos 2 ∷ []) ∷ (pos 1 ∷ pos 4 ∷ []) ∷ [])
                new_disjunction
                in_use).2)
          ≡ true))
create_disjuncts_iff_example =
    create_disjuncts_iff odd (pos 2 ∷ []) ((pos 1 ∷ pos 4 ∷ []) ∷ []) in_use (omega arith)

create_disjunct_frame_example :
    (terminal 0 (create_disjunct (pos 2 ∷ []) new_disjunction in_use).2 ≡ negsuc 4)
    × (5 < (create_disjunct (pos 2 ∷ []) new_disjunction in_use).2.last_used_variable)
    × ((create_disjunct (pos 2 ∷ []) new_disjunction in_use).1.terminal_index ≢ some 0)
create_disjunct_frame_example =
    create_disjunct_frame (pos 2 ∷ []) new_disjunction in_use 0 (omega arith) (λ e. cc)
