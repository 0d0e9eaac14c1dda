-- ===== src/Aiger/Fallback.antt =====
-- What the default clauses of a variable say, read from the clauses themselves, and the two parts
-- that buildAIGER.cc sorts them into.
use pedant_solver.Base.{
  ℕ, suc, ◌≡◌, refl, sym, ap, ◌∙◌, inl, inr, Bool, true, false, not, ◌&&◌, List, [], ◌∷◌, arith,
  ltb, if◌then◌else◌, Bool-cases, length, get_or, any,
}
use pedant_solver.Base.Int.{pos, is_pos}
use pedant_solver.Formula.{eval_lit, eval_clause, Clause, Assignment}
use pedant_solver.Aiger.{same, filter_clauses, without_last, back}
use pedant_solver.Aiger.Reduced.{fires}

-- A default clause: whether its last literal is positive, and whether the others are all false.
pub ends_positive : Clause → Bool
ends_positive [] = false
ends_positive (l ∷ []) = is_pos l
ends_positive (l ∷ k ∷ c) = ends_positive (k ∷ c)

pub is_premise_false : Assignment → Clause → Bool
is_premise_false a [] = true
is_premise_false a (l ∷ []) = true
is_premise_false a (l ∷ k ∷ c) =
    let rest = is_premise_false a (k ∷ c) in if eval_lit a l then false else rest

-- Some clause of those that end so forces its last literal, and how many end so.
pub forces : Assignment → Bool → List Clause → Bool
forces a sign = any (λ c. same sign (ends_positive c) && is_premise_false a c)

pub count_ending : Bool → List Clause → ℕ
count_ending sign [] = 0
count_ending sign (c ∷ clauses) =
    let rest = count_ending sign clauses in if same sign (ends_positive c) then suc rest else rest

-- The default for a variable without forcing clauses that fire: true, a constant, or the function
-- that its default clauses define: if more of these end in a positive literal, true unless one that
-- ends in a negative literal has all its others false, and else true if one that ends in a positive
-- literal has all its others false.
unfoldable pub default_value : Assignment → List Clause → Bool
default_value a [] = true
default_value a (cl ∷ []) = is_pos (get_or cl 0 (pos 0))
default_value a (cl ∷ cl' ∷ others) =
    let clauses = cl ∷ cl' ∷ others in
    if ltb (count_ending false clauses) (count_ending true clauses)
    then not (forces a false clauses)
    else forces a true clauses

-- A forcing clause decides, or else the default.
unfoldable pub skolem_value : Assignment → List Clause → List Clause → List Clause → Bool
unfolding default_value
skolem_value a positive negative default_clauses =
    if fires a positive
    then true
    else if fires a negative
    then false
    else default_value a default_clauses

back-ends_positive : (c : Clause) → is_pos (back c) ≡ ends_positive c
unfolding back ends_positive
back-ends_positive [] = refl
back-ends_positive (l ∷ []) = refl
back-ends_positive (l ∷ k ∷ c) = back-ends_positive (k ∷ c)

without_last-is_premise_false :
    (a : Assignment) (c : Clause) → not (eval_clause a (without_last c)) ≡ is_premise_false a c
unfolding without_last is_premise_false
without_last-is_premise_false a [] = refl
without_last-is_premise_false a (l ∷ []) = refl
without_last-is_premise_false a (l ∷ k ∷ c) =
    ground (arith, without_last-is_premise_false a (k ∷ c))

-- The two parts of the default clauses, as what their clauses force.
filter_clauses-value :
    (a : Assignment) (clauses : List Clause)
    → (fires a (filter_clauses clauses).0 ≡ forces a true clauses)
      × (fires a (filter_clauses clauses).1 ≡ forces a false clauses)
      × (length (filter_clauses clauses).0 ≡ count_ending true clauses)
      × (length (filter_clauses clauses).1 ≡ count_ending false clauses)
unfolding filter_clauses forces count_ending fires
filter_clauses-value a [] = (refl, refl, refl, refl)
filter_clauses-value a (cl ∷ clauses) =
    let rest = filter_clauses-value a clauses in
    let sign = back-ends_positive cl in
    let premise = without_last-is_premise_false a cl in
    elim (Bool-cases (is_pos (back cl))) [
      | inl e ↦ rw e (
        ground (arith, e, sign, premise, rest.0),
        ground (arith, e, sign, premise, rest.1),
        ground (arith, e, sign, rest.2),
        ground (arith, e, sign, rest.3),
      )
      | inr e ↦ rw e (
        ground (arith, e, sign, premise, rest.0),
        ground (arith, e, sign, premise, rest.1),
        ground (arith, e, sign, rest.2),
        ground (arith, e, sign, rest.3),
      )
    ]

pub more_positive-default :
    (a : Assignment) (cl cl' : Clause) (others : List Clause)
    → let r = filter_clauses (cl ∷ cl' ∷ others) in
      ltb (length r.1) (length r.0) ≡ true → default_value a (cl ∷ cl' ∷ others) ≡ not (fires a r.1)
unfolding default_value
more_positive-default a cl cl' others e =
    let v = filter_clauses-value a (cl ∷ cl' ∷ others) in
    let t =
      sym (ap (λ n. ltb n (count_ending true (cl ∷ cl' ∷ others))) v.3)
      ∙ sym (ap (ltb (length (filter_clauses (cl ∷ cl' ∷ others)).1)) v.2)
      ∙ e in
    rw t (sym (ap not v.1))

pub more_negative-default :
    (a : Assignment) (cl cl' : Clause) (others : List Clause)
    → let r = filter_clauses (cl ∷ cl' ∷ others) in
      ltb (length r.1) (length r.0) ≡ false → default_value a (cl ∷ cl' ∷ others) ≡ fires a r.0
unfolding default_value
more_negative-default a cl cl' others e =
    let v = filter_clauses-value a (cl ∷ cl' ∷ others) in
    let t =
      sym (ap (λ n. ltb n (count_ending true (cl ∷ cl' ∷ others))) v.3)
      ∙ sym (ap (ltb (length (filter_clauses (cl ∷ cl' ∷ others)).1)) v.2)
      ∙ e in
    rw t (sym v.0)
