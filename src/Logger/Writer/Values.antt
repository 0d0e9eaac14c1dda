-- ===== src/Logger/Writer/Values.antt =====
-- What an assignment that satisfies the clauses of a writer gives the variables it introduced.
use pedant_solver.Base.{
  ℕ, ◌≤◌, ◌<◌, ◌≡◌, refl, ◌∙◌, inl, inr, Bool, true, false, not, ◌&&◌, ◌||◌, List, [], ◌∷◌, ◌++◌,
  map, arith, Bool-cases, All, any-append, all-append, All-append,
}
use pedant_solver.Base.Int.{ℤ, pos, neg}
use pedant_solver.Formula.{
  Clause, Assignment, eval_lit, eval_clause, eval_formula, IsLit, IsClause, IsFormula, eval_lit-neg,
}
use pedant_solver.Literal.{var}
use pedant_solver.Aiger.Reduced.{fires}
use pedant_solver.Logger.Writer.{
  write_literal, write_literals, search_int, Writer, apply_assignment, write_clause_active,
  write_forcing_clauses, write_clause_to_stream, add_to_count, write_clausal_encoding_defaults,
}
use pedant_solver.Logger.Writer.Order.{left}

-- The written clauses are satisfied.
abbrev pub satisfies : Assignment → Writer → Bool
satisfies a w = eval_formula a w.out

-- Do two Boolean values agree?
abbrev pub same : Bool → Bool → Bool
same true b = b
same false b = not b

implications-value :
    (a : Assignment) (active : ℕ) (c : Clause)
    → 0 < active
    → IsClause c
    → eval_formula a (map (λ l. neg l ∷ neg (pos active) ∷ []) c)
      ≡ (not (a active) || not (eval_clause a c))
implications-value a active [] h k = ground arith
implications-value a active (l ∷ c) h k = ground (
  arith,
  implications-value a active c h k.1,
  eval_lit-neg a l k.0,
  eval_lit-neg a (pos active) h,
)

-- The new variable is the falsity of the clause.
pub write_clause_active-value :
    (a : Assignment) (c : Clause) (w : Writer)
    → 0 < w.unused_variable
    → IsClause c
    → satisfies a (write_clause_active c w).1
      ≡ (satisfies a w && same (a w.unused_variable) (not (eval_clause a c)))
unfolding write_clause_active
write_clause_active-value a c w h k =
    let active = w.unused_variable in
    ground (
      arith,
      all-append (eval_clause a) w.out
          ((c ++ pos active ∷ []) ∷ map (λ l. neg l ∷ neg (pos active) ∷ []) c),
      implications-value a active c h k,
      any-append (eval_lit a) c (pos active ∷ []),
    )

pub write_clause_to_stream-value :
    (a : Assignment) (c : Clause) (w : Writer)
    → satisfies a (write_clause_to_stream c w) ≡ (satisfies a w && eval_clause a c)
unfolding write_clause_to_stream
write_clause_to_stream-value a c w = ground (arith, all-append (eval_clause a) w.out (c ∷ []))

pub write_clausal_encoding_defaults-value :
    (a : Assignment) (defaults : List Clause) (d : ℤ) (w : Writer)
    → satisfies a (write_clausal_encoding_defaults defaults d w)
      ≡ (satisfies a w && (eval_formula a defaults || eval_lit a d))
unfolding write_clausal_encoding_defaults add_to_count
write_clausal_encoding_defaults-value a [] d w = ground arith
write_clausal_encoding_defaults-value a (cl ∷ defaults) d w = ground (
  arith,
  write_clausal_encoding_defaults-value a defaults d
      (add_to_count 1 (write_clause_to_stream (cl ++ d ∷ []) w)),
  write_clause_to_stream-value a (cl ++ d ∷ []) w,
  any-append (eval_lit a) cl (d ∷ []),
)

-- `unused_variable` only grows.
pub write_forcing_clauses-grows :
    (clauses : List Clause) (arbiters pushed : List ℤ) (w : Writer)
    → w.unused_variable ≤ (write_forcing_clauses clauses arbiters pushed w).1.unused_variable
unfolding write_forcing_clauses write_clause_active
write_forcing_clauses-grows [] arbiters pushed w = omega arith
write_forcing_clauses-grows (c ∷ clauses) arbiters pushed w =
    let (active, w') = write_clause_active (apply_assignment c arbiters).1 w in
    ground (
      arith,
      write_forcing_clauses-grows clauses arbiters pushed w,
      write_forcing_clauses-grows clauses arbiters (pushed ++ pos active ∷ []) w',
    )

-- Literals of variables that are in use.
abbrev pub IsUsed : ℕ → ℤ → Type 0
IsUsed m l = IsLit l × (var l < m)

pub IsUsed-mono : {m n : ℕ} (ls : List ℤ) → m ≤ n → All (IsUsed m) ls → All (IsUsed n) ls
IsUsed-mono [] h k = tt
IsUsed-mono (l ∷ ls) h k = ((k.0.0, omega arith), IsUsed-mono ls h k.1)

-- The pushed literals are in use.
pub write_forcing_clauses-IsUsed :
    (clauses : List Clause) (arbiters pushed : List ℤ) (w : Writer)
    → 0 < w.unused_variable
    → All (IsUsed w.unused_variable) pushed
    → All
        (IsUsed (write_forcing_clauses clauses arbiters pushed w).1.unused_variable)
        (write_forcing_clauses clauses arbiters pushed w).0
unfolding write_forcing_clauses
write_forcing_clauses-IsUsed [] arbiters pushed w u h = h
write_forcing_clauses-IsUsed (c ∷ clauses) arbiters pushed w u h =
    elim (Bool-cases (apply_assignment c arbiters).0) [
      | inl e ↦ rw e (write_forcing_clauses-IsUsed clauses arbiters pushed w u h)
      | inr e ↦
          let w' = (write_clause_active (apply_assignment c arbiters).1 w).1 in
          rw e (
            write_forcing_clauses-IsUsed clauses arbiters (pushed ++ pos w.unused_variable ∷ []) w'
              (omega arith)
              (All-append _ pushed (pos w.unused_variable ∷ []) (IsUsed-mono pushed (omega arith) h)
                ((omega arith, omega arith), tt)))
    ]

pub IsUsed-IsClause : (m : ℕ) (ls : List ℤ) → All (IsUsed m) ls → IsClause ls
IsUsed-IsClause m [] h = tt
IsUsed-IsClause m (l ∷ ls) h = (h.0.0, IsUsed-IsClause m ls h.1)

-- One of the pushed variables is true exactly if what is left of a forcing clause is false.
pub write_forcing_clauses-value :
    (a : Assignment) (clauses : List Clause) (arbiters pushed : List ℤ) (w : Writer)
    → IsFormula (left clauses arbiters)
    → 0 < w.unused_variable
    → satisfies a (write_forcing_clauses clauses arbiters pushed w).1 ≡ true
    → (satisfies a w ≡ true)
      × (eval_clause a (write_forcing_clauses clauses arbiters pushed w).0
          ≡ (eval_clause a pushed || fires a (left clauses arbiters)))
unfolding write_forcing_clauses fires left
write_forcing_clauses-value a [] arbiters pushed w h u s = (s, ground arith)
write_forcing_clauses-value a (c ∷ clauses) arbiters pushed w h u s =
    elim (Bool-cases (apply_assignment c arbiters).0) [
      | inl e ↦
          let rest =
            write_forcing_clauses-value a clauses arbiters pushed w (rw (e, left) at h) u
              (rw (e, write_forcing_clauses) at s) in
          rw e rest
      | inr e ↦
          let cl = (apply_assignment c arbiters).1 in
          let w' = (write_clause_active cl w).1 in
          let kept : IsClause cl × IsFormula (left clauses arbiters) = rw (e, left) at h in
          let rest =
            write_forcing_clauses-value a clauses arbiters (pushed ++ pos w.unused_variable ∷ []) w'
              kept.1 (omega arith) (rw (e, write_forcing_clauses) at s) in
          let active : (satisfies a w ≡ true) × (a w.unused_variable ≡ not (eval_clause a cl)) =
            ground (arith, write_clause_active-value a cl w u kept.0, rest.0) in
          (
            active.0,
            rw e (
                rest.1
                ∙ ground
                    (arith, active.1, any-append (eval_lit a) pushed (pos w.unused_variable ∷ []))),
          )
    ]

write_literal_frame :
    (limit : ℕ) (l : ℤ) (w : Writer)
    → ((write_literal limit l w).1.nof_clauses ≡ w.nof_clauses)
      × ((write_literal limit l w).1.out ≡ w.out)
unfolding write_literal
write_literal_frame limit l w = ground arith

-- The literals of a clause are put together before it is written.
pub write_literals_frame :
    (limit : ℕ) (c : Clause) (arbiters : List ℤ) (w : Writer)
    → ((write_literals limit c arbiters w).1.nof_clauses ≡ w.nof_clauses)
      × ((write_literals limit c arbiters w).1.out ≡ w.out)
unfolding write_literals
write_literals_frame limit [] arbiters w = (refl, refl)
write_literals_frame limit (l ∷ c) arbiters w =
    let w' = (write_literal limit l w).1 in
    let same = write_literal_frame limit l w in
    let rest = write_literals_frame limit c arbiters w' in
    elim (Bool-cases (search_int arbiters (neg l))) [
      | inl e ↦ rw e (write_literals_frame limit c arbiters w)
      | inr e ↦ rw e (rest.0 ∙ same.0, rest.1 ∙ same.1)
    ]
