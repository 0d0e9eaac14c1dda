-- ===== src/Formula/Renaming.antt =====
-- Renaming of variables in include/utils.h: `renameClause`, `renameFormula` and `createRenaming`.
pub mod Fresh
use pedant_solver.Base.{
  ℕ, zero, suc, ◌+◌, ◌-◌, ◌*◌, ◌/◌, ◌%◌, ◌^◌, ◌≤◌, ◌<◌, max, ◌≡◌, refl, sym, ap, ◌∙◌, subst, ◌≢◌,
  ◌↔◌, ◌⊎◌, inl, inr, Bool, true, false, not, ◌&&◌, ◌||◌, Option, none, some, List, [], ◌∷◌, ◌++◌,
  map, arith, ltb, leb, ◌==◌, if◌then◌else◌, Bool-cases, Option-cases, Bool_ext, not-not, ==_iff,
  ==_refl, length, get_elem?, set, any, all, select, All, length-append, any-append, all-append,
  All-append, All-left, length-select-le, length-set,
}
use pedant_solver.Base.Int.{
  ℤ, pos, negsuc, neg, abs, is_pos, is_neg, of_bool, eq_ℤ, eq_ℤ_iff, neg-neg, abs-neg,
}
use pedant_solver.Base.Maps.{
  Map, find, assign, erase, has, emplace, at_or, find-assign, find-erase, find-emplace,
}
use pedant_solver.Formula.{
  Clause, Assignment, eval_lit, eval_clause, eval_formula, IsLit, IsClause, IsFormula, eval_lit-neg,
  max_var_index, IsBelow, AllBelow, IsBelow-mono, AllBelow-mono, AllBelow-max_var_index,
  eval_lit_agree, eval_clause_agree, eval_formula_agree,
}
use pedant_solver.Base.Sets.{contains}
use pedant_solver.Literal.{var, rename_literal, rename_literal_to}
use pedant_solver.Literal.Codes.{rename_literal_to_lem}

abbrev pub rename_clause : Clause → Map ℕ → Clause
rename_clause clause renaming = map (λ literal. rename_literal literal renaming) clause

abbrev pub rename_formula : List Clause → Map ℕ → List Clause
rename_formula clauses renaming = map (λ clause. rename_clause clause renaming) clauses

-- The variables, in order of occurrence and repeated, that are not shared.
unfoldable pub non_shared_clause : Clause → List ℕ → List ℕ
non_shared_clause [] shared = []
non_shared_clause (literal ∷ clause) shared =
    let rest = non_shared_clause clause shared in
    if contains shared (var literal) then rest else var literal ∷ rest

unfoldable pub non_shared : List Clause → List ℕ → List ℕ
non_shared [] shared = []
non_shared (clause ∷ clauses) shared = non_shared_clause clause shared ++ non_shared clauses shared

-- `renaming[variable] = variable_renamed++` over the variables
unfoldable pub assign_fresh : List ℕ → ℕ → Map ℕ → Map ℕ
assign_fresh [] variable_renamed renaming = renaming
assign_fresh (variable ∷ rest) variable_renamed renaming =
    assign_fresh rest (variable_renamed + 1) (assign renaming variable variable_renamed)

unfoldable pub first_renamed : List Clause → ℕ → ℕ
first_renamed clauses auxiliary_start =
    if auxiliary_start == 0 then max_var_index clauses + 1 else auxiliary_start

unfoldable pub create_renaming : List Clause → List ℕ → ℕ → Map ℕ
unfolding non_shared assign_fresh first_renamed
create_renaming clauses shared_variables auxiliary_start =
    assign_fresh (non_shared clauses shared_variables) (first_renamed clauses auxiliary_start) []

-- The variable that stands for `v` after a renaming.
abbrev pub renamed : Map ℕ → ℕ → ℕ
renamed r v = at_or r v v

-- No variable is renamed to 0.
abbrev pub IsRenaming : Map ℕ → Type 0
IsRenaming r = (v w : ℕ) → find r v ≡ some w → 0 < w

eval-rename_literal :
    (a : Assignment) (r : Map ℕ) (l : ℤ)
    → IsRenaming r
    → eval_lit a (rename_literal l r) ≡ eval_lit (λ v. a (renamed r v)) l
unfolding rename_literal at_or
eval-rename_literal a r l h = elim (Option-cases (find r (var l))) [
  | inl e ↦ ground arith
  | inr (w, e) ↦ ground (arith, rename_literal_to_lem l w, h (var l) w e)
]

eval-rename_clause :
    (a : Assignment) (r : Map ℕ) (c : Clause)
    → IsRenaming r
    → eval_clause a (rename_clause c r) ≡ eval_clause (λ v. a (renamed r v)) c
eval-rename_clause a r [] h = refl
eval-rename_clause a r (l ∷ c) h =
    ground (arith, eval-rename_literal a r l h, eval-rename_clause a r c h)

-- A renamed formula has under an assignment the value that the formula has under the assignment of
-- the renamed variables, if no variable is renamed to 0.
pub eval-rename_formula :
    (a : Assignment) (r : Map ℕ) (f : List Clause)
    → IsRenaming r
    → eval_formula a (rename_formula f r) ≡ eval_formula (λ v. a (renamed r v)) f
eval-rename_formula a r [] h = refl
eval-rename_formula a r (c ∷ f) h =
    ground (arith, eval-rename_clause a r c h, eval-rename_formula a r f h)
