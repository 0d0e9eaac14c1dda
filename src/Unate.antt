-- ===== src/Unate.antt =====
-- unatechecker.h, unatechecker.cc: the formula in which unate literals are looked for, the matrix and a
-- copy of its negation, with a switch for the equality of a variable and its copy. The SAT solver is
-- the list of the clauses given to it; the search by its answers is not modelled.
pub mod Copies
pub mod Meaning
use pedant_solver.Base.{
  ℕ, zero, suc, ◌+◌, ◌<◌, ◌≡◌, refl, sym, ap, ◌∙◌, subst, inl, inr, Bool, true, false, some, List,
  [], ◌∷◌, ◌++◌, arith, ◌==◌, Bool-cases, Option-cases, ==_iff, ==_refl, All, all-append,
}
use pedant_solver.Base.Int.{ℤ, pos}
use pedant_solver.Base.Maps.{Map, find, emplace, at_or}
use pedant_solver.Formula.{
  Clause, Assignment, eval_lit, eval_clause, eval_formula, IsFormula, AllBelow,
}
use pedant_solver.Base.Sets.{sort, contains, contains-sort}
use pedant_solver.Base.Maps.{find-emplace_new, find-emplace_old}
use pedant_solver.Formula.Gates.{clausal_encoding_equality, eval-clausal_encoding_equality}
use pedant_solver.Formula.Negation.{negate_formula, eval-negate_formula}
use pedant_solver.Formula.Renaming.{rename_formula, eval-rename_formula, renamed}

pub record UnateChecker : Type 0 where
  pub existential_variables : List ℕ
  pub renamed_existentials : List ℕ
  pub switches_for_equalities : List ℕ
  pub equalities_for_renamings : List Clause
  pub max_variable : ℕ
  pub solver_clauses : List Clause

-- The first loop: copies, switches and equalities, from the last variable in use.
unfoldable pub copies : List ℕ → ℕ → List ℕ × List ℕ × List Clause × ℕ
unfolding clausal_encoding_equality
copies [] max_variable = ([], [], [], max_variable)
copies (e ∷ existentials) max_variable =
    let copy = max_variable + 1 in
    let switch = copy + 1 in
    let (renamed_existentials, switches, equalities, last) = copies existentials switch in
    (
      copy ∷ renamed_existentials,
      switch ∷ switches,
      clausal_encoding_equality (pos e) (pos copy) (pos switch) ++ equalities,
      last,
    )

-- The second loop: `insert` leaves a key that is present.
unfoldable pub renaming_of : List ℕ → List ℕ → Map ℕ → Map ℕ
unfolding emplace
renaming_of [] copied renaming = renaming
renaming_of (e ∷ existentials) [] renaming = renaming
renaming_of (e ∷ existentials) (r ∷ copied) renaming =
    renaming_of existentials copied (emplace renaming e r)

unfoldable pub new_unate_checker : List Clause → List ℕ → ℕ → UnateChecker
unfolding copies renaming_of negate_formula sort
new_unate_checker matrix existentials last_used_variable =
    let (negated_matrix, extra, last) = negate_formula matrix last_used_variable in
    let sorted = sort existentials in
    let (copied, switches, equalities, max_variable) = copies sorted last in
    record {
      existential_variables = sorted;
      renamed_existentials = copied;
      switches_for_equalities = switches;
      equalities_for_renamings = equalities;
      max_variable = max_variable;
      solver_clauses =
          matrix ++ rename_formula negated_matrix (renaming_of sorted copied []) ++ equalities;
    }

unfoldable pub add_clause : Clause → UnateChecker → UnateChecker
add_clause clause u = record u { solver_clauses = u.solver_clauses ++ clause ∷ [] }

-- The assumptions for a call of the solver, which are the old ones again after it.
unfoldable pub unate_assumptions : ℤ → ℤ → List ℤ → List ℤ
unate_assumptions literal copied_literal assumptions = assumptions ++ literal ∷ copied_literal ∷ []

-- The switches of the variables in `on` are true.
unfoldable pub Switched : Assignment → (ℕ → Bool) → List ℕ → List ℕ → Type 0
Switched a on [] switches = Unit {0}
Switched a on (e ∷ existentials) [] = Unit {0}
Switched a on (e ∷ existentials) (s ∷ switches) =
    (on e ≡ true → a s ≡ true) × Switched a on existentials switches

-- Where a variable is in `on`, its copy has its value; copies are variables.
abbrev Linked : Assignment → (ℕ → Bool) → Map ℕ → Type 0
Linked a on r = (v w : ℕ) → find r v ≡ some w → (on v ≡ true → a w ≡ a v) × (0 < w)

emplace-Linked :
    (a : Assignment) (on : ℕ → Bool) (r : Map ℕ) (e copy : ℕ)
    → Linked a on r
    → (on e ≡ true → a copy ≡ a e)
    → 0 < copy
    → Linked a on (emplace r e copy)
emplace-Linked a on r e copy h k p v w f = elim (Option-cases (find r v)) [
  | inl n ↦
      let new = sym (find-emplace_new r e v copy n) ∙ f in
      elim (Bool-cases (e == v)) [
        | inl q ↦
            let same = (==_iff e v).0 q in
            let is_copy : copy ≡ w = ground (arith, new, q) in
            (
              λ o. ap a (sym is_copy) ∙ k (subst (λ x. on x ≡ true) (sym same) o) ∙ ap a same,
              subst (λ x. 0 < x) is_copy p,
            )
        | inr q ↦ absurd (ground (arith, new, q))
      ]
  | inr (w', g) ↦
      let old : w' ≡ w = ground (arith, sym (find-emplace_old r e v copy w' g) ∙ f) in
      subst (λ x. (on v ≡ true → a x ≡ a v) × (0 < x)) old (h v w' g)
]

pub pos_value : (a : Assignment) (v : ℕ) → 0 < v → eval_lit a (pos v) ≡ a v
pos_value a zero h = absurd (omega (arith, h))
pos_value a (suc v) h = refl

renaming_of-Linked :
    (a : Assignment) (on : ℕ → Bool) (existentials : List ℕ) (m : ℕ) (r : Map ℕ)
    → All (λ e. 0 < e) existentials
    → Linked a on r
    → let (copied, switches, equalities, last) = copies existentials m in
      Switched a on existentials switches
      → eval_formula a equalities ≡ true
      → Linked a on (renaming_of existentials copied r)
unfolding copies renaming_of Switched
renaming_of-Linked a on [] m r p h s e = h
renaming_of-Linked a on (x ∷ existentials) m r p h s e =
    let split =
      sym e
      ∙ all-append (eval_clause a)
          (clausal_encoding_equality (pos x) (pos (m + 1)) (pos (m + 1 + 1)))
          (copies existentials (m + 1 + 1)).2 in
    let rest : eval_formula a (copies existentials (m + 1 + 1)).2 ≡ true = ground (arith, split) in
    let here : eval_formula a (clausal_encoding_equality (pos x) (pos (m + 1)) (pos (m + 1 + 1)))
        ≡ true =
      ground (arith, split) in
    let equal =
      (eval-clausal_encoding_equality a (pos x) (pos (m + 1)) (pos (m + 1 + 1)) p.0 (omega arith)
          (omega arith)).0
        here in
    renaming_of-Linked a on existentials (m + 1 + 1) (emplace r x (m + 1)) p.1
      (emplace-Linked a on r x (m + 1) h
        (λ o.
          sym (pos_value a (m + 1) (omega arith))
          ∙ sym (equal (pos_value a (m + 1 + 1) (omega arith) ∙ s.0 o))
          ∙ pos_value a x p.0)
        (omega arith))
      s.1 rest

-- The copies of the first assignment's values.
copied_value :
    (a : Assignment) (on : ℕ → Bool) (r : Map ℕ) (v : ℕ)
    → Linked a on r
    → on v ≡ true
    → a (renamed r v) ≡ a v
unfolding at_or
copied_value a on r v h o = elim (Option-cases (find r v)) [
  | inl e ↦ rw (renamed, at_or, e) refl
  | inr (w, e) ↦ rw (renamed, at_or, e) ((h v w e).0 o)
]

every_positive :
    (existentials : List ℕ)
    → ((v : ℕ) → contains existentials v ≡ true → 0 < v)
    → All (λ e. 0 < e) existentials
every_positive [] h = tt
every_positive (e ∷ existentials) h = (
  h e (ground (arith, ==_refl e)),
  every_positive existentials (λ v hv. h v (ground (arith, hv))),
)

-- What an assignment that satisfies the clauses given to the solver says of the renamed variables.
pub solver_clauses_sound :
    (a : Assignment) (on : ℕ → Bool) (matrix : List Clause) (existentials : List ℕ) (last : ℕ)
    → IsFormula matrix
    → (0 < last → AllBelow last matrix)
    → ((v : ℕ) → contains existentials v ≡ true → 0 < v)
    → let u = new_unate_checker matrix existentials last in
      let r = renaming_of u.existential_variables u.renamed_existentials [] in
      Switched a on u.existential_variables u.switches_for_equalities
      → eval_formula a u.solver_clauses ≡ true
      → (eval_formula a matrix ≡ true)
        × (eval_formula (λ v. a (renamed r v)) matrix ≡ false)
        × ((v : ℕ) → on v ≡ true → a (renamed r v) ≡ a v)
unfolding new_unate_checker
solver_clauses_sound a on matrix existentials last hm below p s e =
    let negated = (negate_formula matrix last).0 in
    let m = (negate_formula matrix last).2 in
    let sorted = sort existentials in
    let copied = (copies sorted m).0 in
    let equalities = (copies sorted m).2 in
    let r = renaming_of sorted copied [] in
    let b : Assignment = λ v. a (renamed r v) in
    let first =
      sym e ∙ all-append (eval_clause a) (matrix ++ rename_formula negated r) equalities in
    let second = all-append (eval_clause a) matrix (rename_formula negated r) in
    let positive = every_positive sorted (λ v hv. p v (sym (contains-sort existentials v) ∙ hv)) in
    let equal : eval_formula a equalities ≡ true = ground (arith, first, second) in
    let linked =
      renaming_of-Linked a on sorted m [] positive
        (λ v w f. absurd (unfold find in ground (arith, f))) s equal in
    let copy : eval_formula a (rename_formula negated r) ≡ true = ground (arith, first, second) in
    let falsified = (eval-negate_formula b matrix last hm below).1 (
      b,
      (λ v le. refl),
      sym (eval-rename_formula a r negated (λ v w f. (linked v w f).1)) ∙ copy,
    ) in
    (ground (arith, first, second), falsified, λ v o. copied_value a on r v linked o)
