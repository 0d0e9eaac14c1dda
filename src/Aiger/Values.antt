-- ===== src/Aiger/Values.antt =====
-- The meaning of the circuit: an assignment obeys the gates, and gives AIGER literals values.
use pedant_solver.Base.{
  ℕ, zero, suc, ◌+◌, ◌-◌, ◌*◌, ◌/◌, ◌%◌, ◌<◌, ◌≡◌, refl, sym, ap, ◌∙◌, Bool, true, false, not, ◌&&◌,
  List, [], ◌∷◌, arith, ◌==◌, if◌then◌else◌, all, all-append,
}
use pedant_solver.Base.Int.{ℤ, pos, negsuc, neg, abs-neg}
use pedant_solver.Formula.{Clause, Assignment, eval_lit, eval_clause, IsLit, IsClause, eval_lit-neg}
use pedant_solver.Base.Int.{bit_xor-one}
use pedant_solver.Aiger.{
  Gate, Builder, get_aiger_representation, get_aiger_negation, same, add_adder_to_circuit,
  active_loop, get_is_active_circuit_clause, aiger_add_and, aiger_true, aiger_false,
}

-- Variable 0 is false in the format, so an assignment is one that gives it this value.
unfoldable pub aig_value : Assignment → ℕ → Bool
aig_value a l = if l % 2 == 0 then a (l / 2) else not (a (l / 2))

unfoldable pub holds : Assignment → Gate → Bool
unfolding aig_value
holds a (lhs, rhs0, rhs1) = same (aig_value a lhs) (aig_value a rhs0 && aig_value a rhs1)

unfoldable pub obeys : Assignment → List Gate → Bool
obeys a = all (holds a)

-- The value of the literal for a variable of the solver, and of a negation.
pub aig_value-representation :
    (a : Assignment) (x : ℤ) → IsLit x → aig_value a (get_aiger_representation x) ≡ eval_lit a x
unfolding aig_value get_aiger_representation
aig_value-representation a (pos zero) h = elim h [ ]
aig_value-representation a (pos (suc n)) h =
    let half : 2 * suc n / 2 ≡ suc n = omega arith in
    let even : 2 * suc n % 2 ≡ 0 = omega arith in rw (half, even) refl
aig_value-representation a (negsuc n) h =
    let half : (2 * suc n + 1) / 2 ≡ suc n = omega arith in
    let odd : (2 * suc n + 1) % 2 ≡ 1 = omega arith in rw (half, odd) refl

pub aig_value-negation :
    (a : Assignment) (x : ℕ) → aig_value a (get_aiger_negation x) ≡ not (aig_value a x)
unfolding aig_value get_aiger_negation
aig_value-negation a x =
    let half : (x / 2 * 2 + (1 - x % 2)) / 2 ≡ x / 2 = omega arith in
    let digit : (x / 2 * 2 + (1 - x % 2)) % 2 ≡ 1 - x % 2 = omega arith in
    rw (bit_xor-one x, half, digit) (ground arith)

pub aig_value-aiger_false : (a : Assignment) → a 0 ≡ false → aig_value a aiger_false ≡ false
unfolding aig_value
aig_value-aiger_false a z = z

pub aig_value-aiger_true : (a : Assignment) → a 0 ≡ false → aig_value a aiger_true ≡ true
unfolding aig_value
aig_value-aiger_true a z = ap not z

-- A gate that is appended.
pub obeys-append :
    (a : Assignment) (lhs rhs0 rhs1 : ℕ) (b : Builder)
    → obeys a (aiger_add_and lhs rhs0 rhs1 b).circuit ≡ true
    → (obeys a b.circuit ≡ true) × (aig_value a lhs ≡ (aig_value a rhs0 && aig_value a rhs1))
unfolding obeys holds
obeys-append a lhs rhs0 rhs1 b h =
    ground (arith, h, all-append (holds a) b.circuit ((lhs, rhs0, rhs1) ∷ []))

add_adder_to_circuit-value :
    (a : Assignment) (in1 in2 out : ℤ) (b : Builder)
    → IsLit in1
    → IsLit in2
    → IsLit out
    → obeys a (add_adder_to_circuit in1 in2 out b).circuit ≡ true
    → (obeys a b.circuit ≡ true) × (eval_lit a out ≡ (eval_lit a in1 && eval_lit a in2))
unfolding add_adder_to_circuit
add_adder_to_circuit-value a in1 in2 out b h1 h2 h h' =
    let r =
      obeys-append a (get_aiger_representation out) (get_aiger_representation in1)
        (get_aiger_representation in2) b h' in
    (
      r.0,
      sym (aig_value-representation a out h)
          ∙ r.1
          ∙ ap (λ v. v && aig_value a (get_aiger_representation in2))
              (aig_value-representation a in1 h1)
          ∙ ap (λ v. eval_lit a in1 && v) (aig_value-representation a in2 h2),
    )

pub IsLit-neg : (l : ℤ) → IsLit l → IsLit (neg l)
IsLit-neg l h = omega (arith, abs-neg l)

-- The loop's result is true where it began with a true literal and no literal of the clause is true.
active_loop-value :
    (a : Assignment) (x : ℤ) (active : ℕ) (l : ℤ) (clause : List ℤ) (b : Builder)
    → IsLit x
    → 0 < active
    → IsClause (l ∷ clause)
    → b.last_used_intermediate_variable ≡ active
    → let r = active_loop x active (l ∷ clause) b in
      obeys a r.1.circuit ≡ true
      → (obeys a b.circuit ≡ true)
        × IsLit r.0
        × (eval_lit a r.0 ≡ (eval_lit a x && not (eval_clause a (l ∷ clause))))
unfolding active_loop
active_loop-value a x active l [] b hx pa hc e o =
    let g = add_adder_to_circuit-value a x (neg l) (pos active) b hx (IsLit-neg l hc.0) pa o in
    let last : b.last_used_intermediate_variable + 1 - 1 ≡ active = omega arith in
    rw last (g.0, pa, g.1 ∙ ground (arith, eval_lit-neg a l hc.0))
active_loop-value a x active l (k ∷ clause) b hx pa hc e o =
    let last = b.last_used_intermediate_variable + 1 in
    let b' : Builder = record (add_adder_to_circuit x (neg l) (pos active) b) {
      last_used_intermediate_variable = last;
    } in
    let rest = active_loop-value a (pos active) last k clause b' pa (omega arith) hc.1 refl o in
    let g = add_adder_to_circuit-value a x (neg l) (pos active) b hx (IsLit-neg l hc.0) pa rest.0 in
    (g.0, rest.1, rest.2 ∙ ground (arith, g.1, eval_lit-neg a l hc.0))

-- The literal for a clause is true exactly where the clause is false.
pub get_is_active_circuit_clause-value :
    (a : Assignment) (l : ℤ) (clause : Clause) (b : Builder)
    → IsClause (l ∷ clause)
    → obeys a (get_is_active_circuit_clause (l ∷ clause) b).1.circuit ≡ true
    → (obeys a b.circuit ≡ true)
      × IsLit (get_is_active_circuit_clause (l ∷ clause) b).0
      × (eval_lit a (get_is_active_circuit_clause (l ∷ clause) b).0
          ≡ not (eval_clause a (l ∷ clause)))
unfolding get_is_active_circuit_clause
get_is_active_circuit_clause-value a l [] b h o =
    (o, IsLit-neg l h.0, ground (arith, eval_lit-neg a l h.0))
get_is_active_circuit_clause-value a l (k ∷ clause) b h o =
    let active = b.last_used_intermediate_variable + 1 in
    let b' : Builder = record b { last_used_intermediate_variable = active } in
    let r =
      active_loop-value a (neg l) active k clause b' (IsLit-neg l h.0) (omega arith) h.1 refl o in
    (r.0, r.1, r.2 ∙ ground (arith, eval_lit-neg a l h.0))
