-- ===== src/Skolem/Selection.antt =====
-- What the clauses for a definition say.
use pedant_solver.Base.{
  ℕ, ◌+◌, ◌<◌, ◌≡◌, refl, Bool, true, false, not, ◌&&◌, ◌||◌, List, [], ◌∷◌, ◌++◌, arith,
  if◌then◌else◌, all, any-append,
}
use pedant_solver.Base.Int.{ℤ, pos, neg}
use pedant_solver.Formula.{
  Clause, Assignment, eval_lit, eval_clause, eval_formula, IsClause, eval_lit-neg,
}
use pedant_solver.Aiger.{same}
use pedant_solver.Literal.{negate_each}
use pedant_solver.Skolem.{Call, add_clause_validity_check, add_clause_conflict_extraction}
use pedant_solver.Skolem.Forcing.{meets, validity, meets-append, eval_pos}
use pedant_solver.Skolem.Definitions.{
  need_each, select_definition, select_default, add_definition_with_selector,
}

meets-need_each :
    (a : Assignment) (v active : ℕ) (conflict : List ℤ)
    → 0 < active
    → meets a (need_each v active conflict) ≡ (not (a active) || all (eval_lit a) conflict)
unfolding meets validity
meets-need_each a v active [] h = ground arith
meets-need_each a v active (l ∷ conflict) h = ground (
  arith,
  eval_lit-neg a (pos active) h,
  eval_pos a active h,
  meets-need_each a v active conflict h,
)

eval-negate_each :
    (a : Assignment) (conflict : List ℤ)
    → IsClause conflict
    → eval_clause a (negate_each conflict) ≡ not (all (eval_lit a) conflict)
eval-negate_each a [] h = refl
eval-negate_each a (l ∷ conflict) h =
    ground (arith, eval_lit-neg a l h.0, eval-negate_each a conflict h.1)

meets-extraction :
    (a : Assignment) (clause : Clause) (reduced : Bool) (calls : List Call)
    → meets a ((if reduced then add_clause_conflict_extraction clause ∷ [] else []) ++ calls)
      ≡ meets a calls
unfolding meets validity
meets-extraction a clause true calls = refl
meets-extraction a clause false calls = refl

meets_clause :
    (a : Assignment) (v : ℕ) (clause : Clause) (calls : List Call)
    → meets a (add_clause_validity_check v clause ∷ calls) ≡ (eval_clause a clause && meets a calls)
unfolding meets validity
meets_clause a v clause calls = refl

meets_triple :
    (a : Assignment) (v active : ℕ)
    → 0 < active
    → meets a (
        add_clause_validity_check v (pos active ∷ pos (active + 2) ∷ neg (pos (active + 1)) ∷ [])
        ∷ add_clause_validity_check v (neg (pos active) ∷ pos (active + 1) ∷ [])
        ∷ add_clause_validity_check v (neg (pos (active + 2)) ∷ pos (active + 1) ∷ [])
        ∷ [])
      ≡ same (a (active + 1)) (a active || a (active + 2))
unfolding meets validity
meets_triple a v active h = ground (
  arith,
  eval_lit-neg a (pos active) h,
  eval_lit-neg a (pos (active + 1)) (omega arith),
  eval_lit-neg a (pos (active + 2)) (omega arith),
  eval_pos a active h,
  eval_pos a (active + 1) (omega arith),
  eval_pos a (active + 2) (omega arith),
)

-- The selector is true exactly where the conflict or the new default function is active, and the
-- conflict is active exactly where its literals are true.
pub meets-select_definition :
    (a : Assignment) (v active : ℕ) (conflict : List ℤ) (reduced : Bool)
    → 0 < active
    → IsClause conflict
    → meets a (select_definition v conflict active reduced) ≡ (
        same (a active) (all (eval_lit a) conflict)
        && same (a (active + 1)) (a active || a (active + 2)))
meets-select_definition a v active conflict reduced h c =
    let clause = negate_each conflict ++ pos active ∷ [] in
    let triple =
      add_clause_validity_check v (pos active ∷ pos (active + 2) ∷ neg (pos (active + 1)) ∷ [])
      ∷ add_clause_validity_check v (neg (pos active) ∷ pos (active + 1) ∷ [])
      ∷ add_clause_validity_check v (neg (pos (active + 2)) ∷ pos (active + 1) ∷ [])
      ∷ [] in
    ground (
      arith,
      meets_clause a v clause (
          (if reduced then add_clause_conflict_extraction clause ∷ [] else [])
          ++ need_each v active conflict
          ++ triple),
      meets-extraction a clause reduced (need_each v active conflict ++ triple),
      meets-append a (need_each v active conflict) triple,
      meets-need_each a v active conflict h,
      meets_triple a v active h,
      any-append (eval_lit a) (negate_each conflict) (pos active ∷ []),
      eval-negate_each a conflict c,
      eval_pos a active h,
    )

-- The new default function is active exactly where no forcing clause is and its selector is true; the
-- conflict deactivates it.
pub meets-select_default :
    (a : Assignment) (v active selector no_forcing : ℕ) (reduced : Bool)
    → 0 < active
    → 0 < selector
    → 0 < no_forcing
    → meets a (select_default v active selector no_forcing reduced)
      ≡ (same (a (active + 2)) (a no_forcing && a selector) && not (a active && a no_forcing))
unfolding meets validity
meets-select_default a v active selector no_forcing reduced h k n = ground (
  arith,
  eval_lit-neg a (pos active) h,
  eval_lit-neg a (pos (active + 2)) (omega arith),
  eval_lit-neg a (pos no_forcing) n,
  eval_lit-neg a (pos selector) k,
  eval_pos a no_forcing n,
  eval_pos a selector k,
  eval_pos a (active + 2) (omega arith),
)

pub meets-add_definition_with_selector :
    (a : Assignment) (v selector : ℕ) (definition : List Clause) (reduced : Bool)
    → 0 < selector
    → meets a (add_definition_with_selector v definition selector reduced)
      ≡ (not (a selector) || eval_formula a definition)
unfolding add_definition_with_selector
meets-add_definition_with_selector a v selector [] reduced h = unfold meets validity in ground arith
meets-add_definition_with_selector a v selector (clause ∷ definition) reduced h =
    let selected = clause ++ neg (pos selector) ∷ [] in
    let rest = add_definition_with_selector v definition selector reduced in
    ground (
      arith,
      meets_clause a v selected
          ((if reduced then add_clause_conflict_extraction selected ∷ [] else []) ++ rest),
      meets-extraction a selected reduced rest,
      any-append (eval_lit a) clause (neg (pos selector) ∷ []),
      eval_lit-neg a (pos selector) h,
      eval_pos a selector h,
      meets-add_definition_with_selector a v selector definition reduced h,
    )
