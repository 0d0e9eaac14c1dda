-- ===== src/Logger/Process/Count.antt =====
-- The number of clauses that the header announces, against the clauses that are written.
use pedant_solver.Base.{
  ℕ, suc, ◌+◌, ◌≡◌, refl, ap, inl, inr, Bool, false, not, ◌&&◌, ◌||◌, List, [], ◌∷◌, ◌++◌, map,
  arith, if◌then◌else◌, Bool-cases, length, is_empty, any, length-append, get_or,
}
use pedant_solver.Base.Int.{ℤ, pos, neg, is_pos}
use pedant_solver.Formula.{Clause}
use pedant_solver.Logger.Writer.{
  Writer, apply_assignment, write_clause_active, write_forcing_clauses, write_clause_to_stream,
  write_formula_to_stream, add_to_count, write_clausal_encoding_defaults, write_literals,
  write_reduced_clause, write_reduced_formula, search_int,
}
use pedant_solver.Logger.Writer.Values.{write_literals_frame}
use pedant_solver.Logger.Process.{
  write_constant, write_one_sided, write_two_sided, write_default_function, process_forcing_clauses,
}

-- Between two states of a writer, the counter grows by the clauses written and some more.
abbrev pub Counts : Writer → Writer → ℕ → Type 0
Counts w w' extra = w'.nof_clauses + length w.out ≡ w.nof_clauses + length w'.out + extra

length-map {ℓ κ} :
    {A : Type ℓ} {B : Type κ} (f : A → B) (xs : List A) → length (map f xs) ≡ length xs
length-map f [] = refl
length-map f (x ∷ xs) = ap suc (length-map f xs)

write_clause_active-Counts : (c : Clause) (w : Writer) → Counts w (write_clause_active c w).1 0
unfolding write_clause_active
write_clause_active-Counts c w =
    let active = w.unused_variable in
    omega (
      arith,
      length-append w.out ((c ++ pos active ∷ []) ∷ map (λ l. neg l ∷ neg (pos active) ∷ []) c),
      length-map (λ l. neg l ∷ neg (pos active) ∷ []) c,
    )

length-write_clause_to_stream :
    (c : Clause) (w : Writer) → length (write_clause_to_stream c w).out ≡ length w.out + 1
unfolding write_clause_to_stream
length-write_clause_to_stream c w = length-append w.out (c ∷ [])

write_forcing_clauses-Counts :
    (clauses : List Clause) (arbiters pushed : List ℤ) (w : Writer)
    → Counts w (write_forcing_clauses clauses arbiters pushed w).1 0
unfolding write_forcing_clauses
write_forcing_clauses-Counts [] arbiters pushed w = omega arith
write_forcing_clauses-Counts (c ∷ clauses) arbiters pushed w =
    let w' = (write_clause_active (apply_assignment c arbiters).1 w).1 in
    ground (
      arith,
      write_forcing_clauses-Counts clauses arbiters pushed w,
      write_forcing_clauses-Counts clauses arbiters (pushed ++ pos w.unused_variable ∷ []) w',
      write_clause_active-Counts (apply_assignment c arbiters).1 w,
    )

write_clausal_encoding_defaults-Counts :
    (defaults : List Clause) (d : ℤ) (w : Writer)
    → Counts w (write_clausal_encoding_defaults defaults d w) 0
unfolding write_clausal_encoding_defaults add_to_count write_clause_to_stream
write_clausal_encoding_defaults-Counts [] d w = omega arith
write_clausal_encoding_defaults-Counts (cl ∷ defaults) d w = omega (
  arith,
  write_clausal_encoding_defaults-Counts defaults d
      (add_to_count 1 (write_clause_to_stream (cl ++ d ∷ []) w)),
  length-append w.out ((cl ++ d ∷ []) ∷ []),
)

write_constant-Counts :
    (k : ℤ) (active : List ℤ) (w : Writer) → Counts w (write_constant k active w) 0
unfolding write_constant add_to_count write_clause_to_stream
write_constant-Counts k [] w = omega (arith, length-append w.out ((k ∷ []) ∷ []))
write_constant-Counts k (l ∷ active) w =
    let (v, w₁) = write_clause_active (l ∷ active) w in
    let w₂ = write_clause_to_stream (neg (pos v) ∷ k ∷ []) w₁ in
    omega (
      arith,
      write_clause_active-Counts (l ∷ active) w,
      length-append w₁.out ((neg (pos v) ∷ k ∷ []) ∷ []),
      length-append w₂.out ((neg (neg (pos v)) ∷ neg k ∷ []) ∷ []),
    )

write_one_sided-Counts :
    (forced : ℤ) (active : List ℤ) (defaults : List Clause) (w : Writer)
    → Counts w (write_one_sided forced active defaults w) 0
unfolding write_one_sided add_to_count write_clause_to_stream
write_one_sided-Counts forced active defaults w =
    let (v, w₁) = write_clause_active active w in
    let w₂ = write_clause_to_stream (neg (neg (pos v)) ∷ forced ∷ []) w₁ in
    omega (
      arith,
      write_clause_active-Counts active w,
      length-append w₁.out ((neg (neg (pos v)) ∷ forced ∷ []) ∷ []),
      write_clausal_encoding_defaults-Counts defaults (neg (pos v)) (add_to_count 1 w₂),
    )

write_two_sided-Counts :
    (e : ℤ) (ps ns : List ℤ) (defaults : List Clause) (w : Writer)
    → Counts w (write_two_sided e ps ns defaults w) 1
unfolding write_two_sided add_to_count write_clause_to_stream
write_two_sided-Counts e ps ns defaults w =
    let (p, w₁) = write_clause_active ps w in
    let (n, w₂) = write_clause_active ns w₁ in
    let w₃ = write_clause_to_stream (neg (neg (pos p)) ∷ e ∷ []) w₂ in
    let w₄ = write_clause_to_stream (neg (neg (pos n)) ∷ neg e ∷ []) w₃ in
    let (d, w₅) = write_clause_active (neg (pos p) ∷ neg (pos n) ∷ []) w₄ in
    omega (
      arith,
      write_clause_active-Counts ps w,
      write_clause_active-Counts ns w₁,
      length-append w₂.out ((neg (neg (pos p)) ∷ e ∷ []) ∷ []),
      length-append w₃.out ((neg (neg (pos n)) ∷ neg e ∷ []) ∷ []),
      write_clause_active-Counts (neg (pos p) ∷ neg (pos n) ∷ []) w₄,
      write_clausal_encoding_defaults-Counts defaults (neg (pos d)) (add_to_count 3 w₅),
    )

-- Is there a clause that the arbiters do not satisfy?
abbrev pub some_left : List Clause → List ℤ → Bool
some_left clauses arbiters = any (λ c. not (apply_assignment c arbiters).0) clauses

is_empty-append_some : (xs : List ℤ) (y : ℤ) (ys : List ℤ) → is_empty (xs ++ y ∷ ys) ≡ false
is_empty-append_some [] y ys = refl
is_empty-append_some (x ∷ xs) y ys = refl

is_empty-write_forcing_clauses :
    (clauses : List Clause) (arbiters pushed : List ℤ) (w : Writer)
    → is_empty (write_forcing_clauses clauses arbiters pushed w).0
      ≡ (is_empty pushed && not (some_left clauses arbiters))
unfolding write_forcing_clauses
is_empty-write_forcing_clauses [] arbiters pushed w = ground arith
is_empty-write_forcing_clauses (c ∷ clauses) arbiters pushed w =
    let w' = (write_clause_active (apply_assignment c arbiters).1 w).1 in
    ground (
      arith,
      is_empty-write_forcing_clauses clauses arbiters pushed w,
      is_empty-write_forcing_clauses clauses arbiters (pushed ++ pos w.unused_variable ∷ []) w',
      is_empty-append_some pushed (pos w.unused_variable) [],
    )

pub write_reduced_formula-Counts :
    (limit : ℕ) (formula : List Clause) (arbiters : List ℤ) (w : Writer)
    → Counts w (write_reduced_formula limit formula arbiters w) 0
unfolding write_reduced_formula write_reduced_clause add_to_count
write_reduced_formula-Counts limit [] arbiters w = omega arith
write_reduced_formula-Counts limit (c ∷ formula) arbiters w =
    let w' = (write_literals limit c arbiters w).1 in
    let reduced = (write_literals limit c arbiters w).0 in
    let literals = write_literals_frame limit c arbiters w in
    elim (Bool-cases (any (search_int arbiters) c)) [
      | inl e ↦
          rw (e, write_reduced_formula) (write_reduced_formula-Counts limit formula arbiters w)
      | inr e ↦
          rw (e, write_reduced_formula)
            (omega (
              arith,
              literals.0,
              ap (length {A = Clause}) literals.1,
              length-write_clause_to_stream reduced w',
              write_reduced_formula-Counts limit formula arbiters
                  (add_to_count 1 (write_clause_to_stream reduced w')),
            ))
    ]

write_default_function-Counts :
    (e : ℤ) (ps ns : List ℤ) (defaults : List Clause) (w : Writer)
    → Counts w
        (write_default_function e ps ns defaults w)
        (if is_empty ps || is_empty ns then 0 else 1)
unfolding write_default_function write_formula_to_stream add_to_count
write_default_function-Counts e [] [] defaults w = omega (arith, length-append w.out defaults)
write_default_function-Counts e [] (n ∷ ns) defaults w =
    write_one_sided-Counts (neg e) (n ∷ ns) defaults w
write_default_function-Counts e (p ∷ ps) [] defaults w =
    write_one_sided-Counts e (p ∷ ps) defaults w
write_default_function-Counts e (p ∷ ps) (n ∷ ns) defaults w =
    write_two_sided-Counts e (p ∷ ps) (n ∷ ns) defaults w

-- The clauses that are counted twice.
pub overcount : List Clause → List Clause → List Clause → List ℤ → ℕ
overcount positive negative [] arbiters = 0
overcount positive negative (cl ∷ []) arbiters = 0
overcount positive negative (cl ∷ cl' ∷ others) arbiters =
    if some_left positive arbiters && some_left negative arbiters then 1 else 0

-- The counter grows by the number of clauses that are written, and by one more exactly where the
-- variable has default clauses of a function and forcing clauses of both signs which the arbiters
-- do not satisfy.
pub process_forcing_clauses-Counts :
    (limit e : ℕ) (positive negative defaults : List Clause) (arbiters : List ℤ) (w : Writer)
    → Counts w
        (process_forcing_clauses limit e positive negative defaults arbiters w)
        (overcount positive negative defaults arbiters)
unfolding process_forcing_clauses overcount
process_forcing_clauses-Counts limit e positive negative [] arbiters w =
    let w₁ = write_reduced_formula limit positive arbiters w in
    omega (
      arith,
      write_reduced_formula-Counts limit positive arbiters w,
      write_reduced_formula-Counts limit negative arbiters w₁,
    )
process_forcing_clauses-Counts limit e positive negative (cl ∷ []) arbiters w =
    let k = get_or cl 0 (pos 0) in
    let clauses = if is_pos k then negative else positive in
    let (active, w₁) = write_forcing_clauses clauses arbiters [] w in
    omega
      (arith, write_forcing_clauses-Counts clauses arbiters [] w, write_constant-Counts k active w₁)
process_forcing_clauses-Counts limit e positive negative (cl ∷ cl' ∷ others) arbiters w =
    let (ps, w₁) = write_forcing_clauses positive arbiters [] w in
    let (ns, w₂) = write_forcing_clauses negative arbiters [] w₁ in
    ground (
      arith,
      write_forcing_clauses-Counts positive arbiters [] w,
      write_forcing_clauses-Counts negative arbiters [] w₁,
      is_empty-write_forcing_clauses positive arbiters [] w,
      is_empty-write_forcing_clauses negative arbiters [] w₁,
      write_default_function-Counts (pos e) ps ns (cl ∷ cl' ∷ others) w₂,
    )
