-- ===== src/Logger/Process.antt =====
-- modellogger.cc: the clauses for a variable from its forcing clauses and its defaults.
pub mod Value
pub mod Determined
pub mod Meaning
pub mod Extended
pub mod Growth
pub mod Count
use pedant_solver.Base.{
  ℕ, zero, suc, ◌+◌, ◌-◌, ◌*◌, ◌/◌, ◌%◌, ◌^◌, ◌≤◌, ◌<◌, max, ◌≡◌, refl, sym, ap, ◌∙◌, subst, ◌≢◌,
  ◌↔◌, ◌⊎◌, inl, inr, Bool, true, false, not, ◌&&◌, ◌||◌, Option, none, some, List, [], ◌∷◌, ◌++◌,
  map, arith, ltb, leb, ◌==◌, if◌then◌else◌, Bool-cases, Option-cases, Bool_ext, not-not, ==_iff,
  ==_refl, length, get_elem?, set, is_empty, any, all, select, All, length-append, any-append,
  all-append, All-append, All-left, length-select-le, length-set, get_or, get_or-set_self,
  get_or-set_ne, get_or-append_left,
}
use pedant_solver.Base.Int.{
  ℤ, pos, negsuc, neg, abs, is_pos, is_neg, of_bool, eq_ℤ, eq_ℤ_iff, neg-neg, abs-neg,
}
use pedant_solver.Formula.{Clause}
use pedant_solver.Logger.Writer.{
  Writer, write_clause_to_stream, write_formula_to_stream, write_reduced_formula,
  write_clause_active, write_forcing_clauses, write_clausal_encoding_defaults, add_to_count,
}

-- With a default constant: the variable has this value if no clause against it is active.
unfoldable pub write_constant : ℤ → List ℤ → Writer → Writer
unfolding write_clause_to_stream write_clause_active add_to_count
write_constant default_constant [] w =
    add_to_count 1 (write_clause_to_stream (default_constant ∷ []) w)
write_constant default_constant (l ∷ active_clauses) w =
    let (active, w') = write_clause_active (l ∷ active_clauses) w in
    let rule_applies = neg (pos active) in
    add_to_count 2 (
      write_clause_to_stream (neg rule_applies ∷ neg default_constant ∷ [])
        (write_clause_to_stream (rule_applies ∷ default_constant ∷ []) w'))

-- With forcing clauses of one sign: if one fires, the literal that it forces.
unfoldable pub write_one_sided : ℤ → List ℤ → List Clause → Writer → Writer
unfolding write_clause_to_stream write_clause_active write_clausal_encoding_defaults add_to_count
write_one_sided forced active_clauses default_clauses w =
    let (active, w') = write_clause_active active_clauses w in
    let default_active = neg (pos active) in
    write_clausal_encoding_defaults default_clauses default_active
      (add_to_count 1 (write_clause_to_stream (neg default_active ∷ forced ∷ []) w'))

-- With forcing clauses of both signs. The clauses of the third variable are counted where they are
-- written, and one of them once more here.
unfoldable pub write_two_sided : ℤ → List ℤ → List ℤ → List Clause → Writer → Writer
unfolding write_clause_to_stream write_clause_active write_clausal_encoding_defaults add_to_count
write_two_sided e positive_active negative_active default_clauses w =
    let (p, w₁) = write_clause_active positive_active w in
    let positive_fires = neg (pos p) in
    let (n, w₂) = write_clause_active negative_active w₁ in
    let negative_fires = neg (pos n) in
    let (d, w₃) = write_clause_active (positive_fires ∷ negative_fires ∷ []) (
      write_clause_to_stream (neg negative_fires ∷ neg e ∷ [])
        (write_clause_to_stream (neg positive_fires ∷ e ∷ []) w₂)) in
    write_clausal_encoding_defaults default_clauses (neg (pos d)) (add_to_count 3 w₃)

unfoldable pub write_default_function : ℤ → List ℤ → List ℤ → List Clause → Writer → Writer
unfolding write_formula_to_stream write_one_sided write_two_sided
write_default_function e [] [] default_clauses w = write_formula_to_stream default_clauses w
write_default_function e [] (n ∷ negative_active) default_clauses w =
    write_one_sided (neg e) (n ∷ negative_active) default_clauses w
write_default_function e (p ∷ positive_active) [] default_clauses w =
    write_one_sided e (p ∷ positive_active) default_clauses w
write_default_function e (p ∷ positive_active) (n ∷ negative_active) default_clauses w =
    write_two_sided e (p ∷ positive_active) (n ∷ negative_active) default_clauses w

-- `processForcingClauses` for a variable with its forcing clauses; `get_or` reads the default
-- constant, which the code asserts to be there.
unfoldable pub process_forcing_clauses :
    ℕ → ℕ → List Clause → List Clause → List Clause → List ℤ → Writer → Writer
unfolding write_reduced_formula write_forcing_clauses write_constant write_default_function
process_forcing_clauses max_variable_in_matrix e positive negative [] assignment w =
    write_reduced_formula max_variable_in_matrix negative assignment
      (write_reduced_formula max_variable_in_matrix positive assignment w)
process_forcing_clauses max_variable_in_matrix e positive negative (cl ∷ []) assignment w =
    let default_constant = get_or cl 0 (pos 0) in
    let clauses = if is_pos default_constant then negative else positive in
    let (active_clauses, w') = write_forcing_clauses clauses assignment [] w in
    write_constant default_constant active_clauses w'
process_forcing_clauses max_variable_in_matrix e positive negative (cl ∷ cl' ∷ others) assignment
      w =
    let (positive_active, w₁) = write_forcing_clauses positive assignment [] w in
    let (negative_active, w₂) = write_forcing_clauses negative assignment [] w₁ in
    write_default_function (pos e) positive_active negative_active (cl ∷ cl' ∷ others) w₂
