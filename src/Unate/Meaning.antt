-- ===== src/Unate/Meaning.antt =====
-- What the clauses given to the solver of unatechecker.cc say, in both directions.
use pedant_solver.Base.{
  ℕ, ◌+◌, ◌≤◌, ◌<◌, ◌≡◌, refl, sym, ap, ◌∙◌, ◌↔◌, inl, inr, Bool, true, false, not, ◌&&◌, List, [],
  ◌++◌, arith, leb, if◌then◌else◌, Bool-cases, length, all-append,
}
use pedant_solver.Base.Sets.{contains, sort, contains-sort}
use pedant_solver.Formula.{
  Clause, Assignment, eval_clause, eval_formula, IsFormula, AllBelow, AllBelow-mono,
  eval_formula_agree,
}
use pedant_solver.Formula.Negation.{
  negate_formula, eval-negate_formula, first_used, negate_formula-AllBelow, negate_formula_fresh,
}
use pedant_solver.Formula.Renaming.{rename_formula, eval-rename_formula, renamed}
use pedant_solver.Unate.{UnateChecker, copies, renaming_of, new_unate_checker, solver_clauses_sound}
use pedant_solver.Unate.Copies.{
  copied_assignment, AreSet, AreSet-Switched, linked, linked_below, copies-AreSet, copies-copied,
  copies-equal, copied_none, copies-IsRenaming, empty-IsRenaming, renamed-copied_empty,
  first_used_given,
}

-- Two assignments agree on the variables that are not existential or are switched on.
abbrev pub Agree : Assignment → Assignment → (ℕ → Bool) → List ℕ → ℕ → Type 0
Agree a c on existentials last =
    (v : ℕ) → v ≤ last → (contains existentials v && not (on v)) ≡ false → c v ≡ a v

-- An assignment extends the first, has the second in the copies, and satisfies the clauses.
abbrev pub Joins : Assignment → Assignment → (ℕ → Bool) → ℕ → Assignment → UnateChecker → Type 0
Joins a c on last a' u =
    ((v : ℕ) → v ≤ last → a' v ≡ a v)
    × ((v : ℕ)
        → v ≤ last
        → copied_assignment a' u.existential_variables u.renamed_existentials v ≡ c v)
    × AreSet a' on u.existential_variables u.switches_for_equalities
    × (eval_formula a' u.solver_clauses ≡ true)

-- A formula over the variables up to a bound, two assignments, and the variables that are switched.
module _ (a c : Assignment) (on : ℕ → Bool) (matrix : List Clause) (existentials : List ℕ)
    (last : ℕ) (hm : IsFormula matrix) (bound : 0 < last) (below : AllBelow last matrix)
    (p : (v : ℕ) → contains existentials v ≡ true → (0 < v) × (v ≤ last)) where
  Joins-sound :
      (a' : Assignment)
      → Joins a c on last a' (new_unate_checker matrix existentials last)
      → (eval_formula a matrix ≡ true)
        × (eval_formula c matrix ≡ false)
        × Agree a c on existentials last
  Joins-sound a' h =
      let u = new_unate_checker matrix existentials last in
      let es = u.existential_variables in
      let rs = u.renamed_existentials in
      let s =
        solver_clauses_sound a' on matrix existentials last hm (λ q. below) (λ v hv. (p v hv).0)
          (AreSet-Switched a' on es u.switches_for_equalities h.2) h.3 in
      let copied : (v : ℕ) → v ≤ last → c v ≡ a' (renamed (renaming_of es rs []) v) =
        λ v le. sym (h.1 v le) ∙ sym (renamed-copied_empty a' es rs v) in
      (
        eval_formula_agree last a a' matrix below (λ v le. sym (h.0 v le)) ∙ s.0,
        eval_formula_agree last c (λ v. a' (renamed (renaming_of es rs []) v)) matrix below copied
            ∙ s.1,
        λ v le q. elim (Bool-cases (on v)) [
          | inl o ↦ copied v le ∙ s.2 v o ∙ h.0 v le
          | inr o ↦
              let out : contains es v ≡ false =
                unfold new_unate_checker in (contains-sort existentials v ∙ ground (arith, q, o)) in
              sym (h.1 v le) ∙ copied_none a' es rs v out ∙ h.0 v le
        ],
      )

  module _ (b : Assignment) (agrees : (v : ℕ) → v ≤ last → b v ≡ c v)
      (falsifies : eval_formula b (negate_formula matrix last).0 ≡ true)
      (agree : Agree a c on existentials last) (satisfies : eval_formula a matrix ≡ true) where
    abbrev m : ℕ
    m = (negate_formula matrix last).2

    abbrev es : List ℕ
    es = sort existentials

    m_value : m ≡ last + length matrix
    m_value =
        (negate_formula_fresh matrix last).2
        ∙ ap (λ k. k + length matrix) (first_used_given matrix last bound)

    base : Assignment
    base v = if leb v last then a v else b v

    joint : Assignment
    joint = linked c on base es m

    joint-Follows : (v : ℕ) → m < v → joint v ≡ linked c on base es m v
    unfolding joint
    joint-Follows v l = refl

    joint_low : (v : ℕ) → v ≤ last → joint v ≡ a v
    unfolding joint base
    joint_low v le = linked_below c on base es m v (omega (arith, le, m_value)) ∙ ground (arith, le)

    joint_middle : (v : ℕ) → last < v → v ≤ m → joint v ≡ b v
    unfolding joint base
    joint_middle v l le = linked_below c on base es m v le ∙ ground (arith, l)

    joint_copied :
        (v : ℕ)
        → copied_assignment joint es (copies es m).0 v
          ≡ (if contains existentials v then c v else joint v)
    joint_copied v =
        copies-copied joint c on base es m v joint-Follows
        ∙ ap (λ t. if t then c v else joint v) (contains-sort existentials v)

    joint_copied_low : (v : ℕ) → v ≤ last → copied_assignment joint es (copies es m).0 v ≡ c v
    joint_copied_low v le = joint_copied v ∙ elim (Bool-cases (contains existentials v)) [
      | inl q ↦ rw q refl
      | inr q ↦ rw q (joint_low v le ∙ sym (agree v le (rw q refl)))
    ]

    joint-renamed : (v : ℕ) → v ≤ m → joint (renamed (renaming_of es (copies es m).0 []) v) ≡ b v
    joint-renamed v le =
        renamed-copied_empty joint es (copies es m).0 v ∙ elim (Bool-cases (leb v last)) [
          | inl l ↦
              let low : v ≤ last = ground (arith, l) in joint_copied_low v low ∙ sym (agrees v low)
          | inr l ↦
              let high : last < v = ground (arith, l) in
              let out : contains existentials v ≡ false = ground (arith, p v, high) in
              joint_copied v ∙ rw out (joint_middle v high le)
        ]

    joint_negated :
        eval_formula joint
          (rename_formula (negate_formula matrix last).0 (renaming_of es (copies es m).0 []))
        ≡ true
    joint_negated =
        let r = renaming_of es (copies es m).0 [] in
        let negated = (negate_formula matrix last).0 in
        let fits : first_used matrix last + length matrix ≤ m =
          omega (arith, m_value, first_used_given matrix last bound) in
        let high : AllBelow m matrix = AllBelow-mono matrix (omega (arith, m_value)) below in
        eval-rename_formula joint r negated (copies-IsRenaming es m [] empty-IsRenaming)
        ∙ eval_formula_agree m (λ v. joint (renamed r v)) b negated
            (negate_formula-AllBelow matrix last m high fits) joint-renamed
        ∙ falsifies

    joint_equalities : eval_formula joint (copies es m).2 ≡ true
    joint_equalities = copies-equal joint c on base es m joint-Follows (λ e he.
        let k = p e (sym (contains-sort existentials e) ∙ he) in
        (k.0, λ o. agree e k.1 (ground (arith, o)) ∙ sym (joint_low e k.1)))

    joint-Joins : Joins a c on last joint (new_unate_checker matrix existentials last)
    unfolding new_unate_checker
    joint-Joins = (
      joint_low,
      joint_copied_low,
      copies-AreSet joint c on base es m joint-Follows,
      all-append (eval_clause joint)
            (matrix
              ++ rename_formula (negate_formula matrix last).0 (renaming_of es (copies es m).0 []))
            (copies es m).2
          ∙ ground (
            arith,
            all-append (eval_clause joint) matrix
                (rename_formula (negate_formula matrix last).0 (renaming_of es (copies es m).0 [])),
            eval_formula_agree last joint a matrix below joint_low,
            satisfies,
            joint_negated,
            joint_equalities,
          ),
    )

  -- For a matrix of literals that are not 0, with variables up to a last one that is not 0, and
  -- existential variables among these: two assignments are joined by one that satisfies the clauses
  -- given to the solver, which has the values of the first for the variables up to the last and those
  -- of the second for the copies, and has just the switches of some given variables on, exactly if
  -- the first satisfies the matrix, the second falsifies it, and they agree up to the last variable
  -- on the variables that are not existential or are switched on.
  pub new_unate_checker-value :
      ((a' : Assignment) × Joins a c on last a' (new_unate_checker matrix existentials last)) ↔ (
        (eval_formula a matrix ≡ true)
        × (eval_formula c matrix ≡ false)
        × Agree a c on existentials last)
  new_unate_checker-value = (
    λ h. Joins-sound h.0 h.1,
    λ h.
        let n = (eval-negate_formula c matrix last hm (λ q. below)).0 h.1 in
        let near : (v : ℕ) → v ≤ last → n.0 v ≡ c v =
          λ v le. n.1 v (omega (arith, le, first_used_given matrix last bound)) in
        (joint n.0 near n.2 h.2 h.0, joint-Joins n.0 near n.2 h.2 h.0),
  )
