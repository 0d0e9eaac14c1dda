-- ===== src/Logger/Process/Value.antt =====
-- What the clauses for a variable say of its value.
use pedant_solver.Base.{ℕ, ◌+◌, ◌<◌, ◌≡◌, true, not, ◌&&◌, ◌||◌, List, [], ◌∷◌, arith, all-append}
use pedant_solver.Base.Int.{ℤ, pos, neg}
use pedant_solver.Formula.{
  Clause, Assignment, eval_lit, eval_clause, eval_formula, IsLit, IsClause, eval_lit-neg,
}
use pedant_solver.Logger.Writer.{
  Writer, write_clause_active, write_clause_to_stream, write_formula_to_stream, add_to_count,
}
use pedant_solver.Logger.Writer.Values.{
  satisfies, same, write_clause_active-value, write_clause_to_stream-value,
  write_clausal_encoding_defaults-value,
}
use pedant_solver.Logger.Process.{
  write_constant, write_one_sided, write_two_sided, write_default_function,
}

-- The clauses for a default constant hold exactly if the constant does where no clause is active.
pub write_constant_eq :
    (a : Assignment) (k l : ℤ) (active : List ℤ) (w : Writer)
    → IsLit k
    → IsClause (l ∷ active)
    → 0 < w.unused_variable
    → satisfies a (write_constant k (l ∷ active) w) ≡ (
        satisfies a w
        && same (a w.unused_variable) (not (eval_clause a (l ∷ active)))
        && same (eval_lit a k) (not (eval_clause a (l ∷ active))))
unfolding write_constant add_to_count
write_constant_eq a k l active w h i u =
    let (v, w₁) = write_clause_active (l ∷ active) w in
    let w₂ = write_clause_to_stream (neg (pos v) ∷ k ∷ []) w₁ in
    ground (
      arith,
      write_clause_to_stream-value a (neg (neg (pos v)) ∷ neg k ∷ []) w₂,
      write_clause_to_stream-value a (neg (pos v) ∷ k ∷ []) w₁,
      write_clause_active-value a (l ∷ active) w u i,
      eval_lit-neg a k h,
      eval_lit-neg a (pos v) u,
      eval_lit-neg a (neg (pos v)) (ground (arith, u)),
    )

pub write_constant_none :
    (a : Assignment) (k : ℤ) (w : Writer)
    → satisfies a (write_constant k [] w) ≡ (satisfies a w && eval_lit a k)
unfolding write_constant add_to_count
write_constant_none a k w = ground (arith, write_clause_to_stream-value a (k ∷ []) w)

pub write_constant-value :
    (a : Assignment) (k : ℤ) (active : List ℤ) (w : Writer)
    → IsLit k
    → IsClause active
    → 0 < w.unused_variable
    → satisfies a (write_constant k active w) ≡ true
    → (satisfies a w ≡ true) × (eval_lit a k ≡ not (eval_clause a active))
write_constant-value a k [] w h i u s = ground (arith, write_constant_none a k w, s)
write_constant-value a k (l ∷ active) w h i u s =
    ground (arith, write_constant_eq a k l active w h i u, s)

pub write_one_sided-value :
    (a : Assignment) (forced : ℤ) (active : List ℤ) (defaults : List Clause) (w : Writer)
    → IsClause active
    → 0 < w.unused_variable
    → satisfies a (write_one_sided forced active defaults w) ≡ (
        satisfies a w
        && same (a w.unused_variable) (not (eval_clause a active))
        && (not (eval_clause a active) || eval_lit a forced)
        && (eval_clause a active || eval_formula a defaults))
unfolding write_one_sided add_to_count
write_one_sided-value a forced active defaults w i u =
    let (v, w₁) = write_clause_active active w in
    let w₂ = write_clause_to_stream (neg (neg (pos v)) ∷ forced ∷ []) w₁ in
    ground (
      arith,
      write_clausal_encoding_defaults-value a defaults (neg (pos v)) (add_to_count 1 w₂),
      write_clause_to_stream-value a (neg (neg (pos v)) ∷ forced ∷ []) w₁,
      write_clause_active-value a active w u i,
      eval_lit-neg a (pos v) u,
      eval_lit-neg a (neg (pos v)) (ground (arith, u)),
    )

pub write_two_sided-value :
    (a : Assignment) (e : ℤ) (ps ns : List ℤ) (defaults : List Clause) (w : Writer)
    → IsLit e
    → IsClause ps
    → IsClause ns
    → 0 < w.unused_variable
    → satisfies a (write_two_sided e ps ns defaults w) ≡ (
        satisfies a w
        && same (a w.unused_variable) (not (eval_clause a ps))
        && same (a (w.unused_variable + 1)) (not (eval_clause a ns))
        && (not (eval_clause a ps) || eval_lit a e)
        && (not (eval_clause a ns) || not (eval_lit a e))
        && same (a (w.unused_variable + 2)) (not (eval_clause a ps || eval_clause a ns))
        && (eval_clause a ps || eval_clause a ns || eval_formula a defaults))
unfolding write_two_sided add_to_count
write_two_sided-value a e ps ns defaults w h i j u =
    let (p, w₁) = write_clause_active ps w in
    let (n, w₂) = write_clause_active ns w₁ in
    let w₃ = write_clause_to_stream (neg (neg (pos p)) ∷ e ∷ []) w₂ in
    let w₄ = write_clause_to_stream (neg (neg (pos n)) ∷ neg e ∷ []) w₃ in
    let (d, w₅) = write_clause_active (neg (pos p) ∷ neg (pos n) ∷ []) w₄ in
    ground (
      arith,
      write_clausal_encoding_defaults-value a defaults (neg (pos d)) (add_to_count 3 w₅),
      write_clause_active-value a (neg (pos p) ∷ neg (pos n) ∷ []) w₄ (omega arith) (ground arith),
      write_clause_to_stream-value a (neg (neg (pos n)) ∷ neg e ∷ []) w₃,
      write_clause_to_stream-value a (neg (neg (pos p)) ∷ e ∷ []) w₂,
      write_clause_active-value a ns w₁ (omega arith) j,
      write_clause_active-value a ps w u i,
    )

-- The same over the literals that say whether clauses fire.
pub write_default_function-value :
    (a : Assignment) (e : ℕ) (ps ns : List ℤ) (defaults : List Clause) (w : Writer)
    → 0 < e
    → IsClause ps
    → IsClause ns
    → 0 < w.unused_variable
    → satisfies a (write_default_function (pos e) ps ns defaults w) ≡ true
    → (satisfies a w ≡ true)
      × (((not (eval_clause a ps) || a e)
            && (not (eval_clause a ns) || not (a e))
            && (eval_clause a ps || eval_clause a ns || eval_formula a defaults))
          ≡ true)
unfolding write_default_function write_formula_to_stream add_to_count
write_default_function-value a e [] [] defaults w h i j u s =
    ground (arith, s, all-append (eval_clause a) w.out defaults)
write_default_function-value a e [] (n ∷ ns) defaults w h i j u s = ground (
  arith,
  s,
  write_one_sided-value a (neg (pos e)) (n ∷ ns) defaults w j u,
  eval_lit-neg a (pos e) h,
)
write_default_function-value a e (p ∷ ps) [] defaults w h i j u s =
    ground (arith, s, write_one_sided-value a (pos e) (p ∷ ps) defaults w i u)
write_default_function-value a e (p ∷ ps) (n ∷ ns) defaults w h i j u s =
    ground (arith, s, write_two_sided-value a (pos e) (p ∷ ps) (n ∷ ns) defaults w h i j u)
