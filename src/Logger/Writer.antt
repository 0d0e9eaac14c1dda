-- ===== src/Logger/Writer.antt =====
-- modellogger.cc: writing clauses under an assignment of the arbiters, and the variables that say
-- whether a clause is active.
pub mod Order
pub mod Values
pub mod Extension
pub mod Definitions
use pedant_solver.Base.{
  ℕ, zero, suc, ◌+◌, ◌-◌, ◌*◌, ◌/◌, ◌%◌, ◌^◌, ◌≤◌, ◌<◌, max, ◌≡◌, refl, sym, ap, ◌∙◌, subst, ◌≢◌,
  ◌↔◌, ◌⊎◌, inl, inr, Bool, true, false, not, ◌&&◌, ◌||◌, Option, none, some, List, [], ◌∷◌, ◌++◌,
  map, arith, ltb, leb, ◌==◌, if◌then◌else◌, Bool-cases, Option-cases, Bool_ext, not-not, ==_iff,
  ==_refl, length, get_elem?, set, is_empty, any, all, select, All, length-append, any-append,
  all-append, All-append, All-left, length-select-le, length-set, get_or, get_or-set_self,
  get_or-set_ne, get_or-append_left,
}
use pedant_solver.Base.Maps.{
  Map, find, assign, erase, has, emplace, at_or, find-assign, find-erase, find-emplace,
}
use pedant_solver.Base.Int.{
  ℤ, pos, negsuc, neg, abs, is_pos, is_neg, of_bool, eq_ℤ, eq_ℤ_iff, neg-neg, abs-neg,
}
use pedant_solver.Formula.{Clause}
use pedant_solver.Literal.{var}
use pedant_solver.Logger.{ModelLogger}

-- `a < b` on `int`
abbrev pub lt_ℤ : ℤ → ℤ → Bool
lt_ℤ (pos m) (pos n) = ltb m n
lt_ℤ (pos m) (negsuc n) = false
lt_ℤ (negsuc m) (pos n) = true
lt_ℤ (negsuc m) (negsuc n) = ltb n m

-- `std::sort`
unfoldable pub place_int : ℤ → List ℤ → List ℤ
place_int l [] = l ∷ []
place_int l (k ∷ ks) = let rest = place_int l ks in if lt_ℤ k l then k ∷ rest else l ∷ k ∷ ks

unfoldable pub sort_ints : List ℤ → List ℤ
unfolding place_int
sort_ints [] = []
sort_ints (l ∷ ls) = place_int l (sort_ints ls)

-- `std::binary_search`: the first element that is not less than the value is not greater either.
unfoldable pub search_int : List ℤ → ℤ → Bool
search_int [] l = false
search_int (k ∷ ks) l = let rest = search_int ks l in if lt_ℤ k l then rest else not (lt_ℤ l k)

-- What writing changes: members of the logger, the counter, and the clauses in the stream.
pub record Writer : Type 0 where
  pub unused_variable : ℕ
  pub renaming_auxiliaries : Map ℕ
  pub nof_clauses : ℕ
  pub out : List Clause

unfoldable pub is_condition_entailed : List ℤ → List ℤ → Bool
unfolding search_int
is_condition_entailed condition assignment = all (search_int assignment) condition

-- Is the clause satisfied, and what is left of it if not.
unfoldable pub apply_assignment : Clause → List ℤ → Bool × Clause
unfolding search_int
apply_assignment [] assignment = (false, [])
apply_assignment (l ∷ clause) assignment =
    let (satisfied, rest) = apply_assignment clause assignment in
    if search_int assignment l
    then (true, l ∷ clause)
    else if search_int assignment (neg l)
    then (satisfied, rest)
    else (satisfied, l ∷ rest)

-- `writeClauseToStream` of a clause as it is
unfoldable pub write_clause_to_stream : Clause → Writer → Writer
write_clause_to_stream clause w = record w { out = w.out ++ clause ∷ [] }

unfoldable pub add_to_count : ℕ → Writer → Writer
add_to_count n w = record w { nof_clauses = w.nof_clauses + n }

-- `writeFormulaToStream` of a formula as it is
unfoldable pub write_formula_to_stream : List Clause → Writer → Writer
unfolding add_to_count
write_formula_to_stream formula w = record (add_to_count (length formula) w) {
  out = w.out ++ formula;
}

-- The literal that is written: a variable beyond the matrix is renamed, the same each time.
unfoldable pub write_literal : ℕ → ℤ → Writer → ℤ × Writer
unfolding find assign
write_literal max_variable_in_matrix l w =
    if ltb max_variable_in_matrix (var l)
    then elim (find w.renaming_auxiliaries (var l)) [
      | some aux ↦ (if is_neg l then neg (pos aux) else pos aux, w)
      | none ↦ (
        if is_neg l then neg (pos w.unused_variable) else pos w.unused_variable,
        record w {
          renaming_auxiliaries = assign w.renaming_auxiliaries (var l) w.unused_variable;
          unused_variable = w.unused_variable + 1;
        },
      )
    ]
    else (l, w)

-- The second loop of `writeClauseToStream`: the literals that the assignment leaves.
unfoldable pub write_literals : ℕ → Clause → List ℤ → Writer → Clause × Writer
unfolding write_literal search_int
write_literals max_variable_in_matrix [] assignment w = ([], w)
write_literals max_variable_in_matrix (l ∷ clause) assignment w =
    let skip = write_literals max_variable_in_matrix clause assignment w in
    let (k, w') = write_literal max_variable_in_matrix l w in
    let (rest, w'') = write_literals max_variable_in_matrix clause assignment w' in
    if search_int assignment (neg l) then skip else (k ∷ rest, w'')

-- `writeClauseToStream` under an assignment: was the clause written?
unfoldable pub write_reduced_clause : ℕ → Clause → List ℤ → Writer → Bool × Writer
unfolding write_literals write_clause_to_stream search_int
write_reduced_clause max_variable_in_matrix clause assignment w =
    let (reduced, w') = write_literals max_variable_in_matrix clause assignment w in
    if any (search_int assignment) clause
    then (false, w)
    else (true, write_clause_to_stream reduced w')

-- `writeFormulaToStream` under an assignment
unfoldable pub write_reduced_formula : ℕ → List Clause → List ℤ → Writer → Writer
unfolding write_reduced_clause add_to_count
write_reduced_formula max_variable_in_matrix [] assignment w = w
write_reduced_formula max_variable_in_matrix (clause ∷ formula) assignment w =
    let (clause_added, w') = write_reduced_clause max_variable_in_matrix clause assignment w in
    write_reduced_formula max_variable_in_matrix formula assignment
      (if clause_added then add_to_count 1 w' else w')

-- `writeClauseActive`: the new variable stands for the falsity of the clause.
unfoldable pub write_clause_active : Clause → Writer → ℕ × Writer
write_clause_active clause w =
    let active = w.unused_variable in
    (
      active,
      record w {
        unused_variable = active + 1;
        nof_clauses = w.nof_clauses + (length clause + 1);
        out =
            w.out
            ++ ((clause ++ pos active ∷ []) ∷ map (λ l. neg l ∷ neg (pos active) ∷ []) clause);
      },
    )

-- The loop of `writeForcingClauses`; `active_clauses` is what was pushed before.
unfoldable pub write_forcing_clauses : List Clause → List ℤ → List ℤ → Writer → List ℤ × Writer
unfolding apply_assignment write_clause_active
write_forcing_clauses [] assignment active_clauses w = (active_clauses, w)
write_forcing_clauses (clause ∷ clauses) assignment active_clauses w =
    let (clause_satisfied, cl) = apply_assignment clause assignment in
    let (active, w') = write_clause_active cl w in
    let skip = write_forcing_clauses clauses assignment active_clauses w in
    let push = write_forcing_clauses clauses assignment (active_clauses ++ pos active ∷ []) w' in
    if clause_satisfied then skip else push

unfoldable pub write_clausal_encoding_defaults : List Clause → ℤ → Writer → Writer
unfolding write_clause_to_stream add_to_count
write_clausal_encoding_defaults [] default_activator w = w
write_clausal_encoding_defaults (cl ∷ default_clauses) default_activator w =
    write_clausal_encoding_defaults default_clauses default_activator
      (add_to_count 1 (write_clause_to_stream (cl ++ default_activator ∷ []) w))
