-- ===== src/Aiger/Active.antt =====
-- buildAIGER.cc: the literal that says whether a clause fires.
use pedant_solver.Base.{
  ℕ, ◌+◌, ◌<◌, ◌≡◌, refl, sym, ap, ◌∙◌, Bool, true, false, not, Option, none, some, List, [], ◌∷◌,
  arith, not-not, is_empty, All,
}
use pedant_solver.Base.Int.{ℤ, pos, neg}
use pedant_solver.Base.Maps.{Map}
use pedant_solver.Formula.{
  Clause, Assignment, eval_clause, IsLit, IsClause, IsFormula, eval_lit-neg,
}
use pedant_solver.Aiger.{
  Builder, get_aiger_representation, add_adder_to_circuit, active_loop,
  get_is_active_circuit_clause, reduced_clauses, clauses_fire, active_of_reduced,
  get_is_active_circuit, active_of,
}
use pedant_solver.Aiger.Values.{
  aig_value, obeys, aig_value-representation, aig_value-aiger_false, aig_value-aiger_true,
  IsLit-neg, get_is_active_circuit_clause-value,
}
use pedant_solver.Aiger.Reduced.{
  Agrees, fires, reduced_fires, reduced_clauses-value, AreReduced, reduced_clauses-AreReduced,
}

clauses_fire-value :
    (a : Assignment) (clauses : List Clause) (b : Builder)
    → All (λ c. (is_empty c ≡ false) × IsClause c) clauses
    → obeys a (clauses_fire clauses b).1.circuit ≡ true
    → (obeys a b.circuit ≡ true)
      × IsClause (clauses_fire clauses b).0
      × (eval_clause a (clauses_fire clauses b).0 ≡ fires a clauses)
unfolding clauses_fire fires
clauses_fire-value a [] b h o = (o, tt, refl)
clauses_fire-value a ([] ∷ clauses) b h o = absurd (ground (arith, h.0.0))
clauses_fire-value a ((l ∷ cl) ∷ clauses) b h o =
    let rest = clauses_fire-value a clauses (get_is_active_circuit_clause (l ∷ cl) b).1 h.1 o in
    let here = get_is_active_circuit_clause-value a l cl b h.0.1 rest.0 in
    (here.0, (here.1, rest.1), ground (arith, here.2, rest.2))

active_loop-IsLit :
    (x : ℤ) (active : ℕ) (l : ℤ) (clause : List ℤ) (b : Builder)
    → 0 < b.last_used_intermediate_variable
    → IsLit (active_loop x active (l ∷ clause) b).0
unfolding active_loop
active_loop-IsLit x active l [] b h = omega arith
active_loop-IsLit x active l (k ∷ clause) b h =
    active_loop-IsLit (pos active) (b.last_used_intermediate_variable + 1) k clause
      (record (add_adder_to_circuit x (neg l) (pos active) b) {
        last_used_intermediate_variable = b.last_used_intermediate_variable + 1;
      })
      (omega arith)

clause_literal-IsLit :
    (l : ℤ) (clause : Clause) (b : Builder)
    → IsLit l
    → IsLit (get_is_active_circuit_clause (l ∷ clause) b).0
unfolding get_is_active_circuit_clause
clause_literal-IsLit l [] b h = IsLit-neg l h
clause_literal-IsLit l (k ∷ clause) b h =
    active_loop-IsLit (neg l) (b.last_used_intermediate_variable + 1) k clause
      (record b { last_used_intermediate_variable = b.last_used_intermediate_variable + 1 })
      (omega arith)

fires-IsClause :
    (clauses : List Clause) (b : Builder)
    → All (λ c. (is_empty c ≡ false) × IsClause c) clauses
    → IsClause (clauses_fire clauses b).0
unfolding clauses_fire
fires-IsClause [] b h = tt
fires-IsClause ([] ∷ clauses) b h = absurd (ground (arith, h.0.0))
fires-IsClause ((l ∷ cl) ∷ clauses) b h = (
  clause_literal-IsLit l cl b h.0.1.0,
  fires-IsClause clauses (get_is_active_circuit_clause (l ∷ cl) b).1 h.1,
)

-- Of several literals, some is true.
any_active-value :
    (a : Assignment) (l : ℤ) (clause : Clause) (b : Builder)
    → IsClause (l ∷ clause)
    → let r = get_is_active_circuit_clause (l ∷ clause) b in
      obeys a r.1.circuit ≡ true
      → (obeys a b.circuit ≡ true)
        × (aig_value a (get_aiger_representation (neg r.0)) ≡ eval_clause a (l ∷ clause))
any_active-value a l clause b h o =
    let r = get_is_active_circuit_clause-value a l clause b h o in
    (
      r.0,
      aig_value-representation a _ (IsLit-neg _ r.1)
          ∙ eval_lit-neg a _ r.1
          ∙ ap not r.2
          ∙ not-not (eval_clause a (l ∷ clause)),
    )

active_of_reduced-value :
    (a : Assignment) (clauses : List Clause) (b : Builder)
    → a 0 ≡ false
    → All (λ c. (is_empty c ≡ false) × IsClause c) clauses
    → obeys a (active_of_reduced clauses b).1.circuit ≡ true
    → (obeys a b.circuit ≡ true) × (aig_value a (active_of_reduced clauses b).0 ≡ fires a clauses)
unfolding active_of_reduced fires clauses_fire
active_of_reduced-value a [] b z h o = (o, aig_value-aiger_false a z)
active_of_reduced-value a ([] ∷ []) b z h o = absurd (ground (arith, h.0.0))
active_of_reduced-value a ((l ∷ cl) ∷ []) b z h o =
    let r = get_is_active_circuit_clause-value a l cl b h.0.1 o in
    (r.0, aig_value-representation a _ r.1 ∙ r.2 ∙ ground arith)
active_of_reduced-value a (cl ∷ cl' ∷ clauses) b z h o =
    let several = cl ∷ cl' ∷ clauses in
    let r =
      any_active-value a (get_is_active_circuit_clause cl b).0
        (clauses_fire (cl' ∷ clauses) (get_is_active_circuit_clause cl b).1).0
        (clauses_fire several b).1 (fires-IsClause several b h) o in
    let q = clauses_fire-value a several b h r.0 in (q.0, r.1 ∙ q.2)

active_of-value :
    (a : Assignment) (o : Option (List Clause)) (b : Builder)
    → a 0 ≡ false
    → AreReduced o
    → obeys a (active_of o b).1.circuit ≡ true
    → (obeys a b.circuit ≡ true) × (aig_value a (active_of o b).0 ≡ reduced_fires a o)
unfolding active_of reduced_fires
active_of-value a none b z h o = (o, aig_value-aiger_true a z)
active_of-value a (some clauses) b z h o = active_of_reduced-value a clauses b z h o

-- An assignment that gives the arbiters their values and obeys the circuit after the call obeyed it
-- before, and makes the literal that is returned true exactly where it makes one of the clauses false.
pub get_is_active_circuit-value :
    (a : Assignment) (clauses : List Clause) (arbiters : Map Bool) (b : Builder)
    → a 0 ≡ false
    → Agrees a arbiters
    → IsFormula clauses
    → obeys a (get_is_active_circuit clauses arbiters b).1.circuit ≡ true
    → (obeys a b.circuit ≡ true)
      × (aig_value a (get_is_active_circuit clauses arbiters b).0 ≡ fires a clauses)
unfolding get_is_active_circuit
get_is_active_circuit-value a clauses arbiters b z g h o =
    let r =
      active_of-value a (reduced_clauses clauses arbiters) b z
        (reduced_clauses-AreReduced clauses arbiters h) o in
    (r.0, r.1 ∙ sym (reduced_clauses-value a clauses arbiters g h))
