-- ===== src/Formula/Gates.antt =====
-- The clausal encodings of include/utils.h for an AND gate and for a switched equality.
use pedant_solver.Base.{◌≡◌, ◌↔◌, true, not, ◌||◌, List, [], ◌∷◌, ◌++◌, map, arith, all, all-append}
use pedant_solver.Base.Int.{ℤ, neg}
use pedant_solver.Formula.{
  Clause, Assignment, eval_lit, eval_clause, eval_formula, IsLit, IsClause, eval_lit-neg,
}

unfoldable pub clausal_encoding_and : List ℤ × ℤ → List Clause
clausal_encoding_and (input_literals, output_literal) =
    map (λ literal. literal ∷ neg output_literal ∷ []) input_literals
    ++ (map neg input_literals ++ output_literal ∷ []) ∷ []

unfoldable pub clausal_encoding_equality : ℤ → ℤ → ℤ → List Clause
clausal_encoding_equality first_literal second_literal switch_literal =
    (neg switch_literal ∷ neg first_literal ∷ second_literal ∷ [])
    ∷ (neg switch_literal ∷ first_literal ∷ neg second_literal ∷ [])
    ∷ []

inputs_eval :
    (a : Assignment) (ins : List ℤ) (out : ℤ)
    → IsLit out
    → eval_formula a (map (λ l. l ∷ neg out ∷ []) ins)
      ≡ (not (eval_lit a out) || all (eval_lit a) ins)
inputs_eval a [] out h = ground arith
inputs_eval a (l ∷ ins) out h = ground (arith, eval_lit-neg a out h, inputs_eval a ins out h)

positive_eval :
    (a : Assignment) (ins : List ℤ) (out : ℤ)
    → IsClause ins
    → eval_clause a (map neg ins ++ out ∷ []) ≡ (not (all (eval_lit a) ins) || eval_lit a out)
positive_eval a [] out h = ground arith
positive_eval a (l ∷ ins) out h = ground (arith, eval_lit-neg a l h.0, positive_eval a ins out h.1)

-- An assignment satisfies the encoding of an AND gate exactly when it gives the output the
-- conjunction of the inputs.
pub eval-clausal_encoding_and :
    (a : Assignment) (ins : List ℤ) (out : ℤ)
    → IsClause ins
    → IsLit out
    → (eval_formula a (clausal_encoding_and (ins, out)) ≡ true)
      ↔ (eval_lit a out ≡ all (eval_lit a) ins)
unfolding clausal_encoding_and
eval-clausal_encoding_and a ins out h k = ground (
  arith,
  inputs_eval a ins out k,
  positive_eval a ins out h,
  all-append (eval_clause a) (map (λ l. l ∷ neg out ∷ []) ins) ((map neg ins ++ out ∷ []) ∷ []),
)

-- The encoding of an equality holds exactly when the switch is off or the two literals agree.
pub eval-clausal_encoding_equality :
    (a : Assignment) (first second switch : ℤ)
    → IsLit first
    → IsLit second
    → IsLit switch
    → (eval_formula a (clausal_encoding_equality first second switch) ≡ true)
      ↔ (eval_lit a switch ≡ true → eval_lit a first ≡ eval_lit a second)
unfolding clausal_encoding_equality
eval-clausal_encoding_equality a first second switch h k w =
    ground (arith, eval_lit-neg a first h, eval_lit-neg a second k, eval_lit-neg a switch w)
