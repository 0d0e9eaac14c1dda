-- ===== src/Aiger.antt =====
-- buildAIGER.h, buildAIGER.cc: the model as an and-inverter graph. The library AIGER is not part of
-- the model: the circuit is the list of the gates given to `aiger_add_and`, in order, with
-- the literals given to `aiger_add_input` and `aiger_add_output`. An AIGER literal
-- is twice a variable, plus one for its negation; variable 0 is false.
pub mod Values
pub mod Reduced
pub mod Active
pub mod Skolem
pub mod Fallback
pub mod Forcing
pub mod Outputs
use pedant_solver.Base.{
  ℕ, zero, suc, ◌+◌, ◌-◌, ◌*◌, ◌/◌, ◌%◌, ◌^◌, ◌≤◌, ◌<◌, max, ◌≡◌, refl, sym, ap, ◌∙◌, subst, ◌≢◌,
  ◌↔◌, ◌⊎◌, inl, inr, Bool, true, false, not, ◌&&◌, ◌||◌, Option, none, some, List, [], ◌∷◌, ◌++◌,
  map, arith, ltb, leb, ◌==◌, if◌then◌else◌, Bool-cases, Option-cases, Bool_ext, not-not, ==_iff,
  ==_refl, length, get_elem?, set, is_empty, any, all, select, All, length-append, any-append,
  all-append, All-append, All-left, length-select-le, length-set, get_or, get_or-set_self,
  get_or-set_ne, get_or-append_left,
}
use pedant_solver.Base.Int.{
  ℤ, pos, negsuc, neg, abs, is_pos, is_neg, of_bool, eq_ℤ, eq_ℤ_iff, neg-neg, abs-neg,
}
use pedant_solver.Base.Maps.{
  Map, find, assign, erase, has, emplace, at_or, find-assign, find-erase, find-emplace,
}
use pedant_solver.Formula.{
  Clause, Assignment, eval_lit, eval_clause, eval_formula, IsLit, IsClause, IsFormula, eval_lit-neg,
  max_var_index, IsBelow, AllBelow, IsBelow-mono, AllBelow-mono, AllBelow-max_var_index,
  eval_lit_agree, eval_clause_agree, eval_formula_agree,
}
use pedant_solver.Literal.{var}
use Prim.Native.Nat.{bit_xor}

-- `lhs = rhs0 & rhs1`
abbrev pub Gate : Type 0
Gate = ℕ × ℕ × ℕ

-- The members that the methods change, and the intermediate variables' start.
pub record Builder : Type 0 where
  pub inputs : List ℕ
  pub outputs : List ℕ
  pub circuit : List Gate
  pub renamings : Map ℕ
  pub intermediate_variables_start : ℕ
  pub last_used_intermediate_variable : ℕ

unfoldable pub new_builder : ℕ → Builder
new_builder max_var_in_matrix = record {
  inputs = [];
  outputs = [];
  circuit = [];
  renamings = [];
  intermediate_variables_start = max_var_in_matrix + 1;
  last_used_intermediate_variable = max_var_in_matrix;
}

abbrev pub aiger_false : ℕ
aiger_false = 0

abbrev pub aiger_true : ℕ
aiger_true = 1

abbrev pub aiger_add_and : ℕ → ℕ → ℕ → Builder → Builder
aiger_add_and lhs rhs0 rhs1 b = record b { circuit = b.circuit ++ (lhs, rhs0, rhs1) ∷ [] }

unfoldable pub get_aiger_representation : ℤ → ℕ
get_aiger_representation x = if is_pos x then 2 * var x else 2 * var x + 1

unfoldable pub get_aiger_negation : ℕ → ℕ
get_aiger_negation x = bit_xor x 1

-- `Clause c (cl.begin(), cl.end() - 1)` and `cl.back()` of a clause that is not empty.
unfoldable pub without_last : Clause → Clause
without_last [] = []
without_last (l ∷ []) = []
without_last (l ∷ k ∷ c) = l ∷ without_last (k ∷ c)

unfoldable pub back : Clause → ℤ
back [] = pos 0
back (l ∷ []) = l
back (l ∷ k ∷ c) = back (k ∷ c)

unfoldable pub filter_clauses : List Clause → List Clause × List Clause
unfolding without_last back
filter_clauses [] = ([], [])
filter_clauses (cl ∷ clauses) =
    let (positive, negative) = filter_clauses clauses in
    if is_pos (back cl)
    then (without_last cl ∷ positive, negative)
    else (positive, without_last cl ∷ negative)

-- An arbiter assignment gives some variables a value.
abbrev pub same : Bool → Bool → Bool
same true b = b
same false b = not b

unfoldable pub is_conflict_entailed : List ℤ → Map Bool → Bool
unfolding find
is_conflict_entailed [] arbiters = true
is_conflict_entailed (l ∷ conflict) arbiters =
    let rest = is_conflict_entailed conflict arbiters in
    elim (find arbiters (var l)) [
      | none ↦ rest
      | some value ↦ if same (is_pos l) value then rest else false
    ]

-- The clause so far, with a literal that stays.
unfoldable pub keep_literal : ℤ → Option Clause → Option Clause
keep_literal l none = none
keep_literal l (some result) = some (l ∷ result)

-- `none` for a clause that the assignment satisfies, else the clause without the arbiters.
unfoldable pub remove_arbiters : Clause → Map Bool → Option Clause
unfolding keep_literal find
remove_arbiters [] arbiters = some []
remove_arbiters (l ∷ clause) arbiters =
    let rest = remove_arbiters clause arbiters in
    elim (find arbiters (var l)) [
      | none ↦ keep_literal l rest
      | some value ↦ if same (is_pos l) value then none else rest
    ]

unfoldable pub add_adder_to_circuit : ℤ → ℤ → ℤ → Builder → Builder
unfolding get_aiger_representation
add_adder_to_circuit in1 in2 out b =
    aiger_add_and (get_aiger_representation out) (get_aiger_representation in1)
      (get_aiger_representation in2) b

unfoldable pub combine_aiger_variables : ℕ → ℕ → Builder → ℕ × Builder
unfolding get_aiger_representation
combine_aiger_variables in1 in2 b =
    if in1 == aiger_false || in2 == aiger_false
    then (aiger_false, b)
    else if in1 == aiger_true
    then (in2, b)
    else if in2 == aiger_true
    then (in1, b)
    else let last = b.last_used_intermediate_variable + 1 in
      let out = get_aiger_representation (pos last) in
      (out, aiger_add_and out in1 in2 (record b { last_used_intermediate_variable = last }))

-- The loop of `getIsActiveCircuit` on a clause, with `x` and `active`.
unfoldable pub active_loop : ℤ → ℕ → List ℤ → Builder → ℤ × Builder
unfolding add_adder_to_circuit
active_loop x active [] b =
    let last = b.last_used_intermediate_variable - 1 in
    (pos last, record b { last_used_intermediate_variable = last })
active_loop x active (l ∷ clause) b =
    let b' = add_adder_to_circuit x (neg l) (pos active) b in
    let last = b'.last_used_intermediate_variable + 1 in
    active_loop (pos active) last clause (record b' { last_used_intermediate_variable = last })

-- The clause is not empty, as an assertion demands.
unfoldable pub get_is_active_circuit_clause : Clause → Builder → ℤ × Builder
unfolding active_loop
get_is_active_circuit_clause [] b = (pos 0, b)
get_is_active_circuit_clause (l ∷ []) b = (neg l, b)
get_is_active_circuit_clause (l ∷ k ∷ clause) b =
    let active = b.last_used_intermediate_variable + 1 in
    active_loop (neg l) active (k ∷ clause) (record b { last_used_intermediate_variable = active })

-- A reduced clause before others: one that is empty always fires.
unfoldable pub push_reduced : Option Clause → Option (List Clause) → Option (List Clause)
push_reduced none rest = rest
push_reduced (some []) rest = none
push_reduced (some (l ∷ reduced)) none = none
push_reduced (some (l ∷ reduced)) (some others) = some ((l ∷ reduced) ∷ others)

-- The clauses that may fire, `none` if one of them always does.
unfoldable pub reduced_clauses : List Clause → Map Bool → Option (List Clause)
unfolding remove_arbiters push_reduced
reduced_clauses [] arbiters = some []
reduced_clauses (cl ∷ clauses) arbiters =
    push_reduced (remove_arbiters cl arbiters) (reduced_clauses clauses arbiters)

-- The loop that pushes `clause_fires`.
unfoldable pub clauses_fire : List Clause → Builder → List ℤ × Builder
unfolding get_is_active_circuit_clause
clauses_fire [] b = ([], b)
clauses_fire (cl ∷ clauses) b =
    let (x, b₁) = get_is_active_circuit_clause cl b in
    let (fires, b₂) = clauses_fire clauses b₁ in (x ∷ fires, b₂)

unfoldable pub active_of_reduced : List Clause → Builder → ℕ × Builder
unfolding clauses_fire get_is_active_circuit_clause get_aiger_representation
active_of_reduced [] b = (aiger_false, b)
active_of_reduced (cl ∷ []) b =
    let (is_active, b₁) = get_is_active_circuit_clause cl b in
    (get_aiger_representation is_active, b₁)
active_of_reduced (cl ∷ cl' ∷ clauses) b =
    let (fires, b₁) = clauses_fire (cl ∷ cl' ∷ clauses) b in
    let (is_active, b₂) = get_is_active_circuit_clause fires b₁ in
    (get_aiger_representation (neg is_active), b₂)

unfoldable pub active_of : Option (List Clause) → Builder → ℕ × Builder
unfolding active_of_reduced
active_of none b = (aiger_true, b)
active_of (some reduced) b = active_of_reduced reduced b

unfoldable pub get_is_active_circuit : List Clause → Map Bool → Builder → ℕ × Builder
unfolding reduced_clauses active_of
get_is_active_circuit clauses arbiters b = active_of (reduced_clauses clauses arbiters) b
