-- ===== src/Aiger/Reduced.antt =====
-- buildAIGER.cc: the clauses that an assignment of the arbiters reduces.
use pedant_solver.Base.{
  ℕ, zero, suc, ◌≡◌, refl, ap, Bool, true, false, not, ◌||◌, Option, none, some, List, [], ◌∷◌,
  arith, if◌then◌else◌, is_empty, any, All,
}
use pedant_solver.Base.Int.{ℤ, pos, negsuc, is_pos}
use pedant_solver.Base.Maps.{Map, find}
use pedant_solver.Formula.{Clause, Assignment, eval_lit, eval_clause, IsLit, IsClause, IsFormula}
use pedant_solver.Literal.{var}
use pedant_solver.Aiger.{same, remove_arbiters, keep_literal, push_reduced, reduced_clauses}

-- An assignment gives the arbiters their values.
abbrev pub Agrees : Assignment → Map Bool → Type 0
Agrees a arbiters = (v : ℕ) (value : Bool) → find arbiters v ≡ some value → a v ≡ value

-- What a clause is reduced to: nothing is left of a true one.
reduced_value : Assignment → Option Clause → Bool
reduced_value a none = true
reduced_value a (some reduced) = eval_clause a reduced

eval_lit-Agrees :
    (a : Assignment) (arbiters : Map Bool) (l : ℤ) (value : Bool)
    → Agrees a arbiters
    → IsLit l
    → find arbiters (var l) ≡ some value
    → eval_lit a l ≡ same (is_pos l) value
eval_lit-Agrees a arbiters (pos zero) value g h e = elim h [ ]
eval_lit-Agrees a arbiters (pos (suc n)) value g h e = g (suc n) value e
eval_lit-Agrees a arbiters (negsuc n) value g h e = ap not (g (suc n) value e)

eval-remove_arbiters :
    (a : Assignment) (clause : Clause) (arbiters : Map Bool)
    → Agrees a arbiters
    → IsClause clause
    → eval_clause a clause ≡ reduced_value a (remove_arbiters clause arbiters)
unfolding remove_arbiters reduced_value keep_literal
eval-remove_arbiters a [] arbiters g h = refl
eval-remove_arbiters a (l ∷ clause) arbiters g h = ground (
  arith,
  eval-remove_arbiters a clause arbiters g h.1,
  eval_lit-Agrees a arbiters l true g h.0,
  eval_lit-Agrees a arbiters l false g h.0,
)

-- What is kept has literals of the clause only.
abbrev IsKept : Option Clause → Type 0
IsKept none = Unit {0}
IsKept (some reduced) = IsClause reduced

keep_literal-IsKept : (l : ℤ) (o : Option Clause) → IsLit l → IsKept o → IsKept (keep_literal l o)
unfolding keep_literal
keep_literal-IsKept l none h k = tt
keep_literal-IsKept l (some reduced) h k = (h, k)

if-IsKept : (b : Bool) (o : Option Clause) → IsKept o → IsKept (if b then none else o)
if-IsKept true o k = tt
if-IsKept false o k = k

remove_arbiters-IsKept :
    (clause : Clause) (arbiters : Map Bool)
    → IsClause clause
    → IsKept (remove_arbiters clause arbiters)
unfolding remove_arbiters
remove_arbiters-IsKept [] arbiters h = tt
remove_arbiters-IsKept (l ∷ clause) arbiters h =
    let rest = remove_arbiters-IsKept clause arbiters h.1 in
    elim (find arbiters (var l))
      as (λ o. IsKept (elim o [
        | none ↦ keep_literal l (remove_arbiters clause arbiters)
        | some value ↦ if same (is_pos l) value then none else remove_arbiters clause arbiters
      ])) [
        | none ↦ keep_literal-IsKept l (remove_arbiters clause arbiters) h.0 rest
        | some value ↦ if-IsKept (same (is_pos l) value) (remove_arbiters clause arbiters) rest
      ]

-- Some clause has no true literal.
unfoldable pub fires : Assignment → List Clause → Bool
fires a = any (λ c. not (eval_clause a c))

unfoldable pub reduced_fires : Assignment → Option (List Clause) → Bool
unfolding fires
reduced_fires a none = true
reduced_fires a (some clauses) = fires a clauses

push_reduced-value :
    (a : Assignment) (o : Option Clause) (rest : Option (List Clause))
    → reduced_fires a (push_reduced o rest) ≡ (not (reduced_value a o) || reduced_fires a rest)
unfolding push_reduced reduced_fires reduced_value fires
push_reduced-value a none rest = refl
push_reduced-value a (some []) rest = refl
push_reduced-value a (some (l ∷ reduced)) none = ground arith
push_reduced-value a (some (l ∷ reduced)) (some others) = refl

pub reduced_clauses-value :
    (a : Assignment) (clauses : List Clause) (arbiters : Map Bool)
    → Agrees a arbiters
    → IsFormula clauses
    → fires a clauses ≡ reduced_fires a (reduced_clauses clauses arbiters)
unfolding reduced_clauses fires
reduced_clauses-value a [] arbiters g h = unfold reduced_fires in refl
reduced_clauses-value a (cl ∷ clauses) arbiters g h = ground (
  arith,
  push_reduced-value a (remove_arbiters cl arbiters) (reduced_clauses clauses arbiters),
  eval-remove_arbiters a cl arbiters g h.0,
  reduced_clauses-value a clauses arbiters g h.1,
)

-- The reduced clauses are clauses and not empty.
abbrev pub AreReduced : Option (List Clause) → Type 0
AreReduced none = Unit {0}
AreReduced (some clauses) = All (λ c. (is_empty c ≡ false) × IsClause c) clauses

push_reduced-AreReduced :
    (o : Option Clause) (rest : Option (List Clause))
    → IsKept o
    → AreReduced rest
    → AreReduced (push_reduced o rest)
unfolding push_reduced
push_reduced-AreReduced none rest k r = r
push_reduced-AreReduced (some []) rest k r = tt
push_reduced-AreReduced (some (l ∷ reduced)) none k r = tt
push_reduced-AreReduced (some (l ∷ reduced)) (some others) k r = ((refl, k), r)

pub reduced_clauses-AreReduced :
    (clauses : List Clause) (arbiters : Map Bool)
    → IsFormula clauses
    → AreReduced (reduced_clauses clauses arbiters)
unfolding reduced_clauses
reduced_clauses-AreReduced [] arbiters h = tt
reduced_clauses-AreReduced (cl ∷ clauses) arbiters h =
    push_reduced-AreReduced (remove_arbiters cl arbiters) (reduced_clauses clauses arbiters)
      (remove_arbiters-IsKept cl arbiters h.0) (reduced_clauses-AreReduced clauses arbiters h.1)
