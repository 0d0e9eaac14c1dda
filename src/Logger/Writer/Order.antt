-- ===== src/Logger/Writer/Order.antt =====
-- What `std::sort` and `std::binary_search` find among the arbiters' literals, and the clauses that
-- these literals reduce.
use pedant_solver.Base.{
  ◌≡◌, refl, subst, inl, inr, true, false, not, List, [], ◌∷◌, arith, if◌then◌else◌, Bool-cases,
  All,
}
use pedant_solver.Base.Int.{ℤ, pos, negsuc, neg}
use pedant_solver.Formula.{
  Clause, Assignment, eval_lit, eval_clause, IsClause, IsFormula, eval_lit-neg,
}
use pedant_solver.Aiger.Reduced.{fires}
use pedant_solver.Logger.Writer.{place_int, sort_ints, search_int, lt_ℤ, apply_assignment}

-- The literals of the arbiters are true.
abbrev pub Follows : Assignment → List ℤ → Type 0
Follows a = All (λ l. eval_lit a l ≡ true)

-- What neither is less than the other nor greater is equal.
lt_ℤ_tri : (k l : ℤ) → lt_ℤ k l ≡ false → lt_ℤ l k ≡ false → k ≡ l
lt_ℤ_tri (pos m) (pos n) h h' = ground arith
lt_ℤ_tri (pos m) (negsuc n) h h' = ground arith
lt_ℤ_tri (negsuc m) (pos n) h h' = ground arith
lt_ℤ_tri (negsuc m) (negsuc n) h h' = ground arith

pub search_int-Follows :
    (a : Assignment) (arbiters : List ℤ) (l : ℤ)
    → Follows a arbiters
    → search_int arbiters l ≡ true
    → eval_lit a l ≡ true
unfolding search_int
search_int-Follows a [] l f h = cc
search_int-Follows a (k ∷ ks) l f h = elim (Bool-cases (lt_ℤ k l)) [
  | inl e ↦ search_int-Follows a ks l f.1 (rw e at h)
  | inr e ↦
      let g : not (lt_ℤ l k) ≡ true = rw e at h in
      subst (λ j. eval_lit a j ≡ true) (lt_ℤ_tri k l e (ground (arith, g))) f.0
]

place_int-Follows :
    (a : Assignment) (l : ℤ) (ks : List ℤ)
    → eval_lit a l ≡ true
    → Follows a ks
    → Follows a (place_int l ks)
unfolding place_int
place_int-Follows a l [] h f = (h, tt)
place_int-Follows a l (k ∷ ks) h f = elim (Bool-cases (lt_ℤ k l)) [
  | inl e ↦ rw e (f.0, place_int-Follows a l ks h f.1)
  | inr e ↦ rw e (h, f)
]

pub sort_ints-Follows : (a : Assignment) (ls : List ℤ) → Follows a ls → Follows a (sort_ints ls)
unfolding sort_ints
sort_ints-Follows a [] f = tt
sort_ints-Follows a (l ∷ ls) f =
    place_int-Follows a l (sort_ints ls) f.0 (sort_ints-Follows a ls f.1)

-- What is left of a clause has its value; a clause that is satisfied is true.
apply_assignment-value :
    (a : Assignment) (clause : Clause) (arbiters : List ℤ)
    → Follows a arbiters
    → IsClause clause
    → eval_clause a clause ≡ (
        if (apply_assignment clause arbiters).0
        then true
        else eval_clause a (apply_assignment clause arbiters).1)
unfolding apply_assignment
apply_assignment-value a [] arbiters f h = refl
apply_assignment-value a (l ∷ clause) arbiters f h = ground (
  arith,
  apply_assignment-value a clause arbiters f h.1,
  search_int-Follows a arbiters l f,
  search_int-Follows a arbiters (neg l) f,
  eval_lit-neg a l h.0,
)

-- What is left of a formula: the clauses that the arbiters do not satisfy, without their literals.
unfoldable pub left : List Clause → List ℤ → List Clause
unfolding apply_assignment
left [] arbiters = []
left (c ∷ clauses) arbiters =
    let rest = left clauses arbiters in
    if (apply_assignment c arbiters).0 then rest else (apply_assignment c arbiters).1 ∷ rest

-- Where the arbiters have their values, what is left of forcing clauses fires exactly if one of
-- them does.
pub fires-left :
    (a : Assignment) (clauses : List Clause) (arbiters : List ℤ)
    → Follows a arbiters
    → IsFormula clauses
    → fires a (left clauses arbiters) ≡ fires a clauses
unfolding left fires
fires-left a [] arbiters f h = refl
fires-left a (c ∷ clauses) arbiters f h =
    ground (arith, apply_assignment-value a c arbiters f h.0, fires-left a clauses arbiters f h.1)
