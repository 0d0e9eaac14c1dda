-- ===== src/Logger/Process/Growth.antt =====
-- Writing introduces variables one after the other: `unused_variable` does not fall.
use pedant_solver.Base.{
  ℕ, ◌≤◌, inl, inr, List, [], ◌∷◌, ◌++◌, arith, if◌then◌else◌, Bool-cases, any, get_or,
}
use pedant_solver.Base.Int.{ℤ, pos, neg, is_pos}
use pedant_solver.Formula.{Clause}
use pedant_solver.Logger.Writer.{
  Writer, write_literal, write_literals, write_reduced_clause, write_reduced_formula,
  write_clause_to_stream, write_formula_to_stream, write_clause_active, write_forcing_clauses,
  write_clausal_encoding_defaults, add_to_count, search_int,
}
use pedant_solver.Logger.Writer.Values.{write_forcing_clauses-grows}
use pedant_solver.Logger.Process.{
  write_constant, write_one_sided, write_two_sided, write_default_function, process_forcing_clauses,
}

-- `unused_variable` does not fall.
unfoldable pub Grows : Writer → Writer → Type 0
Grows w w' = w.unused_variable ≤ w'.unused_variable

write_literal-Grows : (limit : ℕ) (l : ℤ) (w : Writer) → Grows w (write_literal limit l w).1
unfolding write_literal Grows
write_literal-Grows limit l w = ground arith

write_literals-Grows :
    (limit : ℕ) (c : Clause) (arbiters : List ℤ) (w : Writer)
    → Grows w (write_literals limit c arbiters w).1
unfolding write_literals Grows
write_literals-Grows limit [] arbiters w = omega arith
write_literals-Grows limit (l ∷ c) arbiters w = ground (
  arith,
  write_literal-Grows limit l w,
  write_literals-Grows limit c arbiters (write_literal limit l w).1,
  write_literals-Grows limit c arbiters w,
)

pub write_reduced_formula-Grows :
    (limit : ℕ) (formula : List Clause) (arbiters : List ℤ) (w : Writer)
    → Grows w (write_reduced_formula limit formula arbiters w)
unfolding write_reduced_formula write_reduced_clause add_to_count Grows write_clause_to_stream
write_reduced_formula-Grows limit [] arbiters w = omega arith
write_reduced_formula-Grows limit (c ∷ formula) arbiters w =
    let (reduced, w') = write_literals limit c arbiters w in
    let rest =
      write_reduced_formula-Grows limit formula arbiters
        (add_to_count 1 (write_clause_to_stream reduced w')) in
    elim (Bool-cases (any (search_int arbiters) c)) [
      | inl e ↦ rw (e, write_reduced_formula) (write_reduced_formula-Grows limit formula arbiters w)
      | inr e ↦
          rw (e, write_reduced_formula)
            (omega (arith, rest, write_literals-Grows limit c arbiters w))
    ]

write_clausal_encoding_defaults-Grows :
    (defaults : List Clause) (d : ℤ) (w : Writer)
    → Grows w (write_clausal_encoding_defaults defaults d w)
unfolding write_clausal_encoding_defaults add_to_count write_clause_to_stream Grows
write_clausal_encoding_defaults-Grows [] d w = omega arith
write_clausal_encoding_defaults-Grows (cl ∷ defaults) d w = omega (
  arith,
  write_clausal_encoding_defaults-Grows defaults d
      (add_to_count 1 (write_clause_to_stream (cl ++ d ∷ []) w)),
)

write_constant-Grows : (k : ℤ) (active : List ℤ) (w : Writer) → Grows w (write_constant k active w)
unfolding write_constant Grows write_clause_to_stream add_to_count write_clause_active
write_constant-Grows k [] w = omega arith
write_constant-Grows k (l ∷ active) w = omega arith

write_one_sided-Grows :
    (forced : ℤ) (active : List ℤ) (defaults : List Clause) (w : Writer)
    → Grows w (write_one_sided forced active defaults w)
unfolding write_one_sided write_clause_active write_clause_to_stream add_to_count Grows
write_one_sided-Grows forced active defaults w =
    let (v, w₁) = write_clause_active active w in
    omega (
      arith,
      write_clausal_encoding_defaults-Grows defaults (neg (pos v))
          (add_to_count 1 (write_clause_to_stream (neg (neg (pos v)) ∷ forced ∷ []) w₁)),
    )

write_default_function-Grows :
    (e : ℤ) (ps ns : List ℤ) (defaults : List Clause) (w : Writer)
    → Grows w (write_default_function e ps ns defaults w)
unfolding write_default_function write_formula_to_stream add_to_count Grows write_two_sided
    write_clause_active write_clause_to_stream
write_default_function-Grows e [] [] defaults w = omega arith
write_default_function-Grows e [] (n ∷ ns) defaults w =
    write_one_sided-Grows (neg e) (n ∷ ns) defaults w
write_default_function-Grows e (p ∷ ps) [] defaults w = write_one_sided-Grows e (p ∷ ps) defaults w
write_default_function-Grows e (p ∷ ps) (n ∷ ns) defaults w =
    let (v, w₁) = write_clause_active (p ∷ ps) w in
    let (u, w₂) = write_clause_active (n ∷ ns) w₁ in
    let (d, w₃) = write_clause_active (neg (pos v) ∷ neg (pos u) ∷ []) (
      write_clause_to_stream (neg (neg (pos u)) ∷ neg e ∷ [])
        (write_clause_to_stream (neg (neg (pos v)) ∷ e ∷ []) w₂)) in
    omega (arith, write_clausal_encoding_defaults-Grows defaults (neg (pos d)) (add_to_count 3 w₃))

pub process_forcing_clauses-Grows :
    (limit e : ℕ) (positive negative defaults : List Clause) (arbiters : List ℤ) (w : Writer)
    → Grows w (process_forcing_clauses limit e positive negative defaults arbiters w)
unfolding process_forcing_clauses Grows
process_forcing_clauses-Grows limit e positive negative [] arbiters w =
    let w₁ = write_reduced_formula limit positive arbiters w in
    omega (
      arith,
      write_reduced_formula-Grows limit positive arbiters w,
      write_reduced_formula-Grows limit negative arbiters w₁,
    )
process_forcing_clauses-Grows limit e positive negative (cl ∷ []) arbiters w =
    let k = get_or cl 0 (pos 0) in
    let clauses = if is_pos k then negative else positive in
    let (active, w₁) = write_forcing_clauses clauses arbiters [] w in
    omega
      (arith, write_forcing_clauses-grows clauses arbiters [] w, write_constant-Grows k active w₁)
process_forcing_clauses-Grows limit e positive negative (cl ∷ cl' ∷ others) arbiters w =
    let (ps, w₁) = write_forcing_clauses positive arbiters [] w in
    let (ns, w₂) = write_forcing_clauses negative arbiters [] w₁ in
    omega (
      arith,
      write_forcing_clauses-grows positive arbiters [] w,
      write_forcing_clauses-grows negative arbiters [] w₁,
      write_default_function-Grows (pos e) ps ns (cl ∷ cl' ∷ others) w₂,
    )
