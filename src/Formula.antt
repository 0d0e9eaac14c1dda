-- ===== src/Formula.antt =====
-- Clauses and formulas in conjunctive normal form (include/solvertypes.h) and their meaning: the
-- truth value under an assignment of the variables, by which the operations are judged.
pub mod Gates
pub mod Negation
pub mod Renaming
pub mod Support
pub mod Restriction
use pedant_solver.Base.{
  ℕ, suc, ◌+◌, ◌≤◌, ◌<◌, max, ◌≡◌, refl, Bool, true, false, not, ◌&&◌, List, [], ◌∷◌, ◌++◌, map,
  arith, any, all, All,
}
use pedant_solver.Base.Int.{ℤ, pos, negsuc, neg, abs}
use pedant_solver.Literal.{var}

-- `using Clause = std::vector<int>`
abbrev pub Clause : Type 0
Clause = List ℤ

abbrev pub Assignment : Type 0
Assignment = ℕ → Bool

-- The value of a literal, of a clause and of a formula.
abbrev pub eval_lit : Assignment → ℤ → Bool
eval_lit a (pos n) = a n
eval_lit a (negsuc n) = not (a (suc n))

abbrev pub eval_clause : Assignment → Clause → Bool
eval_clause a = any (eval_lit a)

abbrev pub eval_formula : Assignment → List Clause → Bool
eval_formula a = all (eval_clause a)

-- 0 is no literal: it ends a clause in the input format.
abbrev pub IsLit : ℤ → Type 0
IsLit l = 0 < var l

abbrev pub IsClause : Clause → Type 0
IsClause = All IsLit

abbrev pub IsFormula : List Clause → Type 0
IsFormula = All IsClause

pub eval_lit-neg : (a : Assignment) (l : ℤ) → IsLit l → eval_lit a (neg l) ≡ not (eval_lit a l)
eval_lit-neg a l h = ground arith

-- `maxVarIndex`
unfoldable pub max_var_clause : ℕ → Clause → ℕ
max_var_clause maximum [] = maximum
max_var_clause maximum (l ∷ c) = max_var_clause (max maximum (var l)) c

unfoldable pub max_var_from : ℕ → List Clause → ℕ
unfolding max_var_clause
max_var_from maximum [] = maximum
max_var_from maximum (c ∷ f) = max_var_from (max_var_clause maximum c) f

unfoldable pub max_var_index : List Clause → ℕ
unfolding max_var_from
max_var_index clauses = max_var_from 0 clauses

-- Every variable is at most a bound.
abbrev pub IsBelow : ℕ → Clause → Type 0
IsBelow m = All (λ l. var l ≤ m)

abbrev pub AllBelow : ℕ → List Clause → Type 0
AllBelow m = All (IsBelow m)

pub IsBelow-mono : {m n : ℕ} (c : Clause) → m ≤ n → IsBelow m c → IsBelow n c
IsBelow-mono [] h b = tt
IsBelow-mono (l ∷ c) h b = (omega arith, IsBelow-mono c h b.1)

pub AllBelow-mono : {m n : ℕ} (f : List Clause) → m ≤ n → AllBelow m f → AllBelow n f
AllBelow-mono [] h b = tt
AllBelow-mono (c ∷ f) h b = (IsBelow-mono c h b.0, AllBelow-mono f h b.1)

max_var_clause_bound :
    (m : ℕ) (c : Clause) → (m ≤ max_var_clause m c) × IsBelow (max_var_clause m c) c
unfolding max_var_clause
max_var_clause_bound m [] = (omega arith, tt)
max_var_clause_bound m (l ∷ c) =
    let rest = max_var_clause_bound (max m (var l)) c in (omega arith, (omega arith, rest.1))

max_var_from_bound :
    (m : ℕ) (f : List Clause) → (m ≤ max_var_from m f) × AllBelow (max_var_from m f) f
unfolding max_var_from
max_var_from_bound m [] = (omega arith, tt)
max_var_from_bound m (c ∷ f) =
    let here = max_var_clause_bound m c in
    let rest = max_var_from_bound (max_var_clause m c) f in
    (omega arith, (IsBelow-mono c rest.0 here.1, rest.1))

pub AllBelow-max_var_index : (f : List Clause) → AllBelow (max_var_index f) f
unfolding max_var_index
AllBelow-max_var_index f = (max_var_from_bound 0 f).1

-- Assignments that agree on the variables up to a bound give such clauses one value.
pub eval_lit_agree :
    (a b : Assignment) (l : ℤ) → a (var l) ≡ b (var l) → eval_lit a l ≡ eval_lit b l
eval_lit_agree a b l h = ground arith

pub eval_clause_agree :
    (m : ℕ) (a b : Assignment) (c : Clause)
    → IsBelow m c
    → ((v : ℕ) → v ≤ m → a v ≡ b v)
    → eval_clause a c ≡ eval_clause b c
eval_clause_agree m a b [] h e = refl
eval_clause_agree m a b (l ∷ c) h e =
    ground (arith, eval_lit_agree a b l (e (var l) h.0), eval_clause_agree m a b c h.1 e)

pub eval_formula_agree :
    (m : ℕ) (a b : Assignment) (f : List Clause)
    → AllBelow m f
    → ((v : ℕ) → v ≤ m → a v ≡ b v)
    → eval_formula a f ≡ eval_formula b f
eval_formula_agree m a b [] h e = refl
eval_formula_agree m a b (c ∷ f) h e =
    ground (arith, eval_clause_agree m a b c h.0 e, eval_formula_agree m a b f h.1 e)
