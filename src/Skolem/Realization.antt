-- ===== src/Skolem/Realization.antt =====
-- What `realizeArbiter` keeps.
use pedant_solver.Base.{
  ℕ, ◌+◌, ◌≤◌, ◌≡◌, refl, ap, ◌∙◌, inl, inr, some, [], ◌∷◌, ◌++◌, arith, Option-cases,
}
use pedant_solver.Base.Int.{ℤ, pos, neg, abs-neg}
use pedant_solver.Base.Maps.{find, at_or}
use pedant_solver.Base.Sets.{insert}
use pedant_solver.Formula.{Clause}
use pedant_solver.Literal.{var, negate_each}
use pedant_solver.Aiger.{without_last, back}
use pedant_solver.Disjunction.{Disjunction, Shared, create_disjunct, close_disjunct}
use pedant_solver.Skolem.{
  shared, Container, call_all, next_variable, add_arbiter_clause, add_disjunct,
  add_forcing_disjunct, check_arbiter_variable, add_arbiter_variable, deactivate_each,
  activate_arbiter, check_forcing_clause, log_forcing_clause, add_clause_conflict_extraction,
}
use pedant_solver.Skolem.Arbiters.{realize_arbiter}

back-append : (premise : Clause) (x y : ℤ) → back (premise ++ x ∷ y ∷ []) ≡ y
unfolding back
back-append [] x y = refl
back-append (l ∷ []) x y = refl
back-append (l ∷ k ∷ premise) x y = back-append (k ∷ premise) x y

-- The clauses of an arbiter keep the disjunctions, the arbiters and which of them are proper, and no
-- variable is given back.
abbrev Keeps : Container → Container → Type 0
Keeps c c' =
    (c'.forcing_disjunctions ≡ c.forcing_disjunctions)
    × (c'.existential_arbiter_map ≡ c.existential_arbiter_map)
    × (c'.proper_arbiters ≡ c.proper_arbiters)
    × (c'.arbiter_to_existential ≡ c.arbiter_to_existential)
    × (c.last_used_variable ≤ c'.last_used_variable)

-- The container after an arbiter clause, where the variable has a disjunction.
appended : Clause → Disjunction → Container → Container
appended clause d c =
    let literal = back clause in
    let premise = without_last clause in
    let active = c.last_used_variable + 1 in
    call_all (deactivate_each (var literal) active premise) (
      add_disjunct (var literal) active d (
        next_variable (
          call_all
            (check_forcing_clause clause
              ∷ add_clause_conflict_extraction clause
              ∷ log_forcing_clause clause
              ∷ activate_arbiter (var literal) literal premise active
                  (at_or c.no_forcing_clause_active_variables (var literal) 0))
            c)))

add_arbiter_clause-appended :
    (clause : Clause) (d : Disjunction) (c : Container)
    → find c.forcing_disjunctions (var (back clause)) ≡ some d
    → add_arbiter_clause clause c ≡ some (appended clause d c)
unfolding add_arbiter_clause add_forcing_disjunct appended
add_arbiter_clause-appended clause d c f = rw (add_arbiter_clause, add_forcing_disjunct, f) refl

create_disjunct_last :
    (clause : Clause) (d : Disjunction) (s : Shared)
    → (create_disjunct clause d s).2.last_used_variable ≡ s.last_used_variable + 1
unfolding create_disjunct close_disjunct
create_disjunct_last clause d s = elim (Option-cases d.terminal_index) [
  | inl e ↦ rw (create_disjunct, e) refl
  | inr (i, e) ↦ rw (create_disjunct, e) refl
]

appended-Keeps : (clause : Clause) (d : Disjunction) (c : Container) → Keeps c (appended clause d c)
unfolding appended add_disjunct
appended-Keeps clause d c = (
  refl,
  refl,
  refl,
  refl,
  omega (
    arith,
    create_disjunct_last (pos (c.last_used_variable + 1) ∷ []) d
        (shared (record c { last_used_variable = c.last_used_variable + 1 })),
  ),
)

add_arbiter_clause-Keeps :
    (premise : Clause) (x y : ℤ) (v : ℕ) (c : Container) (d : Disjunction)
    → var y ≡ v
    → find c.forcing_disjunctions v ≡ some d
    → (c' : Container) × (add_arbiter_clause (premise ++ x ∷ y ∷ []) c ≡ some c') × Keeps c c'
add_arbiter_clause-Keeps premise x y v c d e f =
    let clause = premise ++ x ∷ y ∷ [] in
    let f' = ap (find c.forcing_disjunctions) (ap var (back-append premise x y) ∙ e) ∙ f in
    (appended clause d c, add_arbiter_clause-appended clause d c f', appended-Keeps clause d c)

-- A proper arbiter has its clauses.
pub realize_arbiter-Keeps :
    (arbiter v : ℕ) (c : Container) (d : Disjunction)
    → at_or c.arbiter_to_existential arbiter 0 ≡ v
    → find c.forcing_disjunctions v ≡ some d
    → (c' : Container) × (realize_arbiter arbiter c ≡ some c')
      × (c'.existential_arbiter_map ≡ c.existential_arbiter_map)
      × (c'.proper_arbiters ≡ insert arbiter c.proper_arbiters)
      × (c'.arbiter_to_existential ≡ c.arbiter_to_existential)
      × (c.last_used_variable ≤ c'.last_used_variable)
unfolding realize_arbiter
realize_arbiter-Keeps arbiter v c d e f =
    let premise = negate_each (at_or c.arbiter_to_annotation arbiter []) in
    let owner = at_or c.arbiter_to_existential arbiter 0 in
    let c₁ =
      call_all (check_arbiter_variable owner arbiter ∷ add_arbiter_variable arbiter ∷ []) c in
    let r₁ = add_arbiter_clause-Keeps premise (neg (pos arbiter)) (pos owner) v c₁ d e f in
    let r₂ =
      add_arbiter_clause-Keeps premise (pos arbiter) (neg (pos owner)) v r₁.0 d
        (abs-neg (pos owner) ∙ e) (ap (λ m. find m v) r₁.2.0 ∙ f) in
    (
      record r₂.0 { proper_arbiters = insert arbiter r₂.0.proper_arbiters },
      rw (r₁.1, realize_arbiter, r₂.1) refl,
      r₂.2.1 ∙ r₁.2.1,
      ap (insert arbiter) (r₂.2.2 ∙ r₁.2.2),
      r₂.2.3 ∙ r₁.2.3,
      omega (arith, r₂.2.4, r₁.2.4),
    )
