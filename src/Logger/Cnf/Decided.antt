-- ===== src/Logger/Cnf/Decided.antt =====
-- The clauses of the file of a model against the candidate functions.
use pedant_solver.Base.{
  ℕ, ◌<◌, ◌≡◌, refl, sym, subst, Bool, true, false, not, ◌&&◌, Option, none, some, List, [], ◌∷◌,
  arith, if◌then◌else◌, is_empty, all, All, all-append, get_or,
}
use pedant_solver.Base.Int.{ℤ}
use pedant_solver.Base.Maps.{Map, find}
use pedant_solver.Formula.{Clause, Assignment, eval_clause, eval_formula}
use pedant_solver.Logger.{ModelLogger}
use pedant_solver.Logger.Writer.{Writer, write_reduced_formula, sort_ints}
use pedant_solver.Logger.Writer.Order.{Follows, sort_ints-Follows}
use pedant_solver.Logger.Writer.Values.{satisfies}
use pedant_solver.Logger.Writer.Extension.{Extends}
use pedant_solver.Logger.Process.Determined.{decides}
use pedant_solver.Logger.Process.Meaning.{IsEntry, process_forcing_clauses-value}
use pedant_solver.Logger.Process.Growth.{
  Grows, write_reduced_formula-Grows, process_forcing_clauses-Grows,
}
use pedant_solver.Logger.Cnf.{
  Section, all_clauses, push_section, start, write_conditional_definitions, write_by_clauses,
  write_variable, write_variables,
}
use pedant_solver.Logger.Cnf.Header.{
  WhenSome, WhenSome-map, uses_clauses, is_some_entailed, write_conditional_definitions-entailed,
}

-- The candidate function of a variable without a definition, under the defaults that are found for it.
abbrev pub decided_by : ModelLogger → ℕ → Assignment → Option (List Clause) → Bool
decided_by m idx c none = true
decided_by m idx c (some defaults) =
    decides c (get_or m.existential_variables idx 0) (get_or m.positive_forcing_clauses idx [])
      (get_or m.negative_forcing_clauses idx []) defaults

unfoldable pub is_decided : ModelLogger → Map (List Clause) → List ℤ → Assignment → ℕ × ℕ → Bool
unfolding find uses_clauses
is_decided m default_clause_map arbiters c (e, idx) =
    if uses_clauses m idx arbiters then decided_by m idx c (find default_clause_map e) else true

-- What the model holds for it can be written: see `IsEntry`.
abbrev pub EntryOf : ℕ → ModelLogger → ℕ → List ℤ → Option (List Clause) → Type 0
EntryOf bound m idx arbiters none = Unit
EntryOf bound m idx arbiters (some defaults) =
    IsEntry bound (get_or m.existential_variables idx 0) (get_or m.positive_forcing_clauses idx [])
      (get_or m.negative_forcing_clauses idx []) defaults arbiters

positive-Grows : (w w' : Writer) → Grows w w' → 0 < w.unused_variable → 0 < w'.unused_variable
unfolding Grows
positive-Grows w w' g u = omega (arith, g)

module _ (m : ModelLogger) (default_clause_map : Map (List Clause)) (arbiters : List ℤ) (bound : ℕ)
    (a c : Assignment) (x : Extends bound a c) (f : Follows c arbiters) where
  -- Writing returns with `unused_variable` not smaller and the variable decided.
  abbrev Decides : Writer → Bool → Writer → Type 0
  Decides w b w' = Grows w w' × (satisfies a w' ≡ true → b ≡ true)

  write_by_clauses-Decides :
      (idx : ℕ) (o : Option (List Clause)) (w : Writer)
      → EntryOf bound m idx arbiters o
      → 0 < w.unused_variable
      → WhenSome (Decides w (decided_by m idx c o)) (write_by_clauses m idx o arbiters w)
  unfolding write_by_clauses
  write_by_clauses-Decides idx none w i u = tt
  write_by_clauses-Decides idx (some defaults) w i u =
      let e = get_or m.existential_variables idx 0 in
      let positive = get_or m.positive_forcing_clauses idx [] in
      let negative = get_or m.negative_forcing_clauses idx [] in
      let limit = m.max_variable_in_matrix in
      (
        process_forcing_clauses-Grows limit e positive negative defaults arbiters w,
        λ s.
            (process_forcing_clauses-value bound e limit positive negative defaults arbiters i a c x
              f w u s).1,
      )

  write_conditional_definitions-Grows :
      (limit : ℕ) (conditions : List (List ℤ)) (definitions : List (List Clause)) (w : Writer)
      → Grows w (write_conditional_definitions limit conditions definitions arbiters w).1
  unfolding write_conditional_definitions Grows
  write_conditional_definitions-Grows limit [] definitions w = omega arith
  write_conditional_definitions-Grows limit (condition ∷ conditions) [] w = omega arith
  write_conditional_definitions-Grows limit (condition ∷ conditions) (def ∷ definitions) w =
      ground (
        arith,
        write_conditional_definitions-Grows limit conditions definitions w,
        write_reduced_formula-Grows limit def arbiters w,
      )

  -- The three ways to write a variable.
  choice-Decides :
      (w y y' : Writer) (b k k' d : Bool) (o : Option Writer)
      → k ≡ k'
      → Grows w y
      → Grows w y'
      → WhenSome (Decides y' d) o
      → WhenSome
          (Decides w (if b && not k' then d else true))
          (if not b then some y else if k then some y' else o)
  unfolding Grows
  choice-Decides w y y' false k k' d o e g g' h = (g, λ s. refl)
  choice-Decides w y y' true true k' d o e g g' h = rw (sym e) (g', λ s. refl)
  choice-Decides w y y' true false k' d o e g g' h =
      rw (sym e)
        (WhenSome-map (Decides y' d) (Decides w d) o (λ v p. (omega (arith, g', p.0), p.1)) h)

  write_variable-Decides :
      (e idx : ℕ) (w : Writer)
      → EntryOf bound m idx arbiters (find default_clause_map e)
      → 0 < w.unused_variable
      → WhenSome
          (Decides w (is_decided m default_clause_map arbiters c (e, idx)))
          (write_variable m default_clause_map e idx arbiters w)
  unfolding write_variable is_decided uses_clauses
  write_variable-Decides e idx w i u =
      let limit = m.max_variable_in_matrix in
      let def = get_or m.definitions_cnf idx [] in
      let conditions = get_or m.conditions idx [] in
      let definitions = get_or m.conditional_definitions_cnf idx [] in
      let w' = (write_conditional_definitions limit conditions definitions arbiters w).1 in
      let grown = write_conditional_definitions-Grows limit conditions definitions w in
      choice-Decides w (write_reduced_formula limit def arbiters w) w' (is_empty def)
        (write_conditional_definitions limit conditions definitions arbiters w).0
        (is_some_entailed conditions definitions arbiters)
        (decided_by m idx c (find default_clause_map e))
        (write_by_clauses m idx (find default_clause_map e) arbiters w')
        (write_conditional_definitions-entailed limit conditions definitions arbiters w)
        (write_reduced_formula-Grows limit def arbiters w) grown
        (write_by_clauses-Decides idx (find default_clause_map e) w' i
          (positive-Grows w w' grown u))

  -- If the clauses of the sections are satisfied, some variables are decided.
  abbrev AllDecided : Bool → List Section × Writer → Type 0
  AllDecided b (sections, w) = eval_formula a (all_clauses sections) ≡ true → b ≡ true

  push_section-AllDecided :
      (e : ℕ) (w : Writer) (d b : Bool) (o : Option (List Section × Writer))
      → (satisfies a w ≡ true → d ≡ true)
      → WhenSome (AllDecided b) o
      → WhenSome (AllDecided (d && b)) (push_section (e, w.out) o)
  unfolding all_clauses
  push_section-AllDecided e w d b none h k = tt
  push_section-AllDecided e w d b (some (sections, v)) h k =
      λ s. ground (arith, s, h, k, all-append (eval_clause a) w.out (all_clauses sections))

  loop-AllDecided :
      (w : Writer) (e : ℕ) (d b : Bool) (o : Option Writer)
      (rest : Writer → Option (List Section × Writer))
      → 0 < w.unused_variable
      → WhenSome (Decides w d) o
      → ((w' : Writer) → 0 < w'.unused_variable → WhenSome (AllDecided b) (rest w'))
      → WhenSome
          (AllDecided (d && b))
          (elim o [ none ↦ none | some w' ↦ push_section (e, w'.out) (rest w') ])
  loop-AllDecided w e d b none rest u h k = tt
  loop-AllDecided w e d b (some w') rest u h k =
      push_section-AllDecided e w' d b (rest w') h.1 (k w' (positive-Grows w w' h.0 u))

  write_variables-AllDecided :
      (indices : Map ℕ) (w : Writer)
      → All (λ p. EntryOf bound m p.1 arbiters (find default_clause_map p.0)) indices
      → 0 < w.unused_variable
      → WhenSome
          (AllDecided (all (is_decided m default_clause_map arbiters c) indices))
          (write_variables m default_clause_map indices arbiters w)
  unfolding write_variables
  write_variables-AllDecided [] w i u = λ s. refl
  write_variables-AllDecided ((e, idx) ∷ indices) w i u =
      let w₀ : Writer = record w { out = [] } in
      loop-AllDecided w₀ e (is_decided m default_clause_map arbiters c (e, idx))
        (all (is_decided m default_clause_map arbiters c) indices)
        (write_variable m default_clause_map e idx arbiters w₀)
        (write_variables m default_clause_map indices arbiters) u
        (write_variable-Decides e idx w₀ i.0 u)
        (λ w' u'. write_variables-AllDecided indices w' i.1 u')

-- Let the model be written, with literals of variables below a bound where no definition is written
-- and the arbiters' literals are removed. If an assignment satisfies the clauses of all sections,
-- then each assignment that agrees with it on the variables below the bound and gives the arbiters
-- their values gives each variable that is written without a definition the value that its forcing
-- clauses and defaults determine.
pub write_variables-value :
    (m : ModelLogger) (default_clause_map : Map (List Clause)) (arbiter_assignment : List ℤ)
    (bound : ℕ) (a c : Assignment) (sections : List Section) (w : Writer)
    → Extends bound a c
    → Follows c arbiter_assignment
    → 0 < m.unused_variable
    → All
        (λ p. EntryOf bound m p.1 (sort_ints arbiter_assignment) (find default_clause_map p.0))
        m.indices
    → write_variables m default_clause_map m.indices (sort_ints arbiter_assignment) (start m)
      ≡ some (sections, w)
    → eval_formula a (all_clauses sections) ≡ true
    → all (is_decided m default_clause_map (sort_ints arbiter_assignment) c) m.indices ≡ true
unfolding start
write_variables-value m default_clause_map arbiter_assignment bound a c sections w x f u i h s =
    let arbiters = sort_ints arbiter_assignment in
    let decided = all (is_decided m default_clause_map arbiters c) m.indices in
    subst
      (WhenSome (
        AllDecided m default_clause_map arbiters bound a c x
          (sort_ints-Follows c arbiter_assignment f) decided))
      h
      (write_variables-AllDecided m default_clause_map arbiters bound a c x
        (sort_ints-Follows c arbiter_assignment f) m.indices (start m) i u)
      s
