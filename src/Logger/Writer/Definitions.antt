-- ===== src/Logger/Writer/Definitions.antt =====
-- The clauses of a definition, with the variables beyond the matrix renamed.
use pedant_solver.Base.{
  ℕ, ◌≤◌, ◌<◌, ◌≡◌, refl, sym, ap, ◌∙◌, inl, inr, true, not, ◌&&◌, Option, none, some, List, [],
  ◌∷◌, arith, ltb, ◌==◌, if◌then◌else◌, Bool-cases, Option-cases, ==_refl, any,
}
use pedant_solver.Base.Int.{ℤ, pos, negsuc, neg, is_neg}
use pedant_solver.Base.Maps.{Map, find, assign, find-assign}
use pedant_solver.Formula.{
  Clause, Assignment, eval_lit, eval_clause, eval_formula, IsLit, IsClause, IsFormula, eval_lit-neg,
  eval_lit_agree,
}
use pedant_solver.Literal.{var}
use pedant_solver.Logger.Writer.{
  Writer, write_literal, write_literals, write_reduced_clause, write_reduced_formula,
  write_clause_to_stream, add_to_count, search_int,
}
use pedant_solver.Logger.Writer.Order.{Follows, search_int-Follows}
use pedant_solver.Logger.Writer.Values.{
  satisfies, write_literals_frame, write_clause_to_stream-value,
}

-- Later renamings are kept.
abbrev pub Keeps : Map ℕ → Map ℕ → Type 0
Keeps r s = (v k : ℕ) → find r v ≡ some k → find s v ≡ some k

-- One assignment is another one read through the renaming of the variables beyond the matrix.
abbrev pub Reads : ℕ → Map ℕ → Assignment → Assignment → Type 0
Reads limit renaming a c =
    ((v : ℕ) → v ≤ limit → c v ≡ a v)
    × ((v k : ℕ) → limit < v → find renaming v ≡ some k → (c v ≡ a k) × (0 < k))

Reads-Keeps :
    (limit : ℕ) (r s : Map ℕ) (a c : Assignment) → Keeps r s → Reads limit s a c → Reads limit r a c
Reads-Keeps limit r s a c k h = (h.0, λ v j lt e. h.1 v j lt (k v j e))

none-some : {j : ℕ} → ¬ (Path (Option ℕ) none (some j))
none-some h = cc

-- A renaming that is new keeps the others.
assign-Keeps : (r : Map ℕ) (x k : ℕ) → find r x ≡ none → Keeps r (assign r x k)
assign-Keeps r x k n v j e = elim (Bool-cases (x == v)) [
  | inl same ↦ absurd (none-some (sym n ∙ ap (find r) (ground (arith, same)) ∙ e))
  | inr other ↦ find-assign r x v k ∙ rw other e
]

write_literal-Keeps :
    (limit : ℕ) (l : ℤ) (w : Writer)
    → Keeps w.renaming_auxiliaries (write_literal limit l w).1.renaming_auxiliaries
unfolding write_literal
write_literal-Keeps limit l w v k e = elim (Bool-cases (ltb limit (var l))) [
  | inr inner ↦ rw (inner, write_literal) e
  | inl outer ↦ elim (Option-cases (find w.renaming_auxiliaries (var l))) [
    | inl n ↦
        rw (outer, n, write_literal)
          (assign-Keeps w.renaming_auxiliaries (var l) w.unused_variable n v k e)
    | inr (aux, found) ↦ rw (outer, found, write_literal) e
  ]
]

write_literals-Keeps :
    (limit : ℕ) (c : Clause) (arbiters : List ℤ) (w : Writer)
    → Keeps w.renaming_auxiliaries (write_literals limit c arbiters w).1.renaming_auxiliaries
unfolding write_literals
write_literals-Keeps limit [] arbiters w v k e = e
write_literals-Keeps limit (l ∷ c) arbiters w v k e = ground (
  arith,
  write_literals-Keeps limit c arbiters w v k e,
  write_literals-Keeps limit c arbiters (write_literal limit l w).1 v k
      (write_literal-Keeps limit l w v k e),
)

-- A literal of a renamed variable.
renamed_value :
    (a c : Assignment) (l : ℤ) (k : ℕ)
    → IsLit l
    → (c (var l) ≡ a k) × (0 < k)
    → eval_lit a (if is_neg l then neg (pos k) else pos k) ≡ eval_lit c l
renamed_value a c (pos n) k h e = sym e.0
renamed_value a c (negsuc n) k h e = eval_lit-neg a (pos k) e.1 ∙ ap not (sym e.0)

write_literal-value :
    (limit : ℕ) (l : ℤ) (w : Writer) (a c : Assignment)
    → IsLit l
    → Reads limit (write_literal limit l w).1.renaming_auxiliaries a c
    → eval_lit a (write_literal limit l w).0 ≡ eval_lit c l
unfolding write_literal
write_literal-value limit l w a c h r = elim (Bool-cases (ltb limit (var l))) [
  | inr inner ↦
      let same : Reads limit w.renaming_auxiliaries a c = rw (inner, write_literal) at r in
      rw (inner, write_literal)
        (sym (eval_lit_agree c a l (same.0 (var l) (ground (arith, inner)))))
  | inl outer ↦ elim (Option-cases (find w.renaming_auxiliaries (var l))) [
    | inl n ↦
        let u = w.unused_variable in
        let new : Reads limit (assign w.renaming_auxiliaries (var l) u) a c =
          rw (outer, n, write_literal) at r in
        rw (outer, n, write_literal)
          (renamed_value a c l u h (
            new.1 (var l) u (ground (arith, outer))
              (find-assign w.renaming_auxiliaries (var l) (var l) u ∙ rw (==_refl (var l)) refl)))
    | inr (aux, found) ↦
        let old : Reads limit w.renaming_auxiliaries a c = rw (outer, found, write_literal) at r in
        rw (outer, found, write_literal)
          (renamed_value a c l aux h (old.1 (var l) aux (ground (arith, outer)) found))
  ]
]

-- The literals that are left have the value of the clause, if the arbiters have theirs.
write_literals-value :
    (limit : ℕ) (clause : Clause) (arbiters : List ℤ) (w : Writer) (a c : Assignment)
    → IsClause clause
    → Follows c arbiters
    → Reads limit (write_literals limit clause arbiters w).1.renaming_auxiliaries a c
    → eval_clause a (write_literals limit clause arbiters w).0 ≡ eval_clause c clause
unfolding write_literals
write_literals-value limit [] arbiters w a c h f r = refl
write_literals-value limit (l ∷ clause) arbiters w a c h f r =
    let w' = (write_literal limit l w).1 in
    elim (Bool-cases (search_int arbiters (neg l))) [
      | inl e ↦
          let rest =
            write_literals-value limit clause arbiters w a c h.1 f (rw (e, write_literals) at r) in
          rw (e, write_literals)
            (rest ∙ ground (arith, search_int-Follows c arbiters (neg l) f e, eval_lit-neg c l h.0))
      | inr e ↦
          let r' : Reads limit (write_literals limit clause arbiters w').1.renaming_auxiliaries a
              c =
            rw (e, write_literals) at r in
          let rest = write_literals-value limit clause arbiters w' a c h.1 f r' in
          let here = write_literal-value limit l w a c h.0 (
            Reads-Keeps limit w'.renaming_auxiliaries _ a c
              (write_literals-Keeps limit clause arbiters w') r') in
          rw (e, write_literals) (ground (arith, rest, here))
    ]

satisfied_value :
    (a : Assignment) (clause : Clause) (arbiters : List ℤ)
    → Follows a arbiters
    → any (search_int arbiters) clause ≡ true
    → eval_clause a clause ≡ true
satisfied_value a [] arbiters f h = cc
satisfied_value a (l ∷ clause) arbiters f h =
    ground (arith, h, search_int-Follows a arbiters l f, satisfied_value a clause arbiters f)

write_reduced_formula-Keeps :
    (limit : ℕ) (formula : List Clause) (arbiters : List ℤ) (w : Writer)
    → Keeps w.renaming_auxiliaries
        (write_reduced_formula limit formula arbiters w).renaming_auxiliaries
unfolding write_reduced_formula write_reduced_clause write_clause_to_stream add_to_count
write_reduced_formula-Keeps limit [] arbiters w v k e = e
write_reduced_formula-Keeps limit (clause ∷ formula) arbiters w v k e =
    let (reduced, w') = write_literals limit clause arbiters w in
    elim (Bool-cases (any (search_int arbiters) clause)) [
      | inl s ↦
          rw (s, write_reduced_formula) (write_reduced_formula-Keeps limit formula arbiters w v k e)
      | inr s ↦
          rw (s, write_reduced_formula)
            (write_reduced_formula-Keeps limit formula arbiters
              (add_to_count 1 (write_clause_to_stream reduced w')) v k
              (write_literals-Keeps limit clause arbiters w v k e))
    ]

-- Let one assignment give the variables of the matrix the values of another one, each renamed
-- variable the value that the other gives its new name, and the arbiters their values. The other one
-- satisfies what is written of a definition exactly if the one satisfies the definition.
pub write_reduced_formula-value :
    (limit : ℕ) (formula : List Clause) (arbiters : List ℤ) (w : Writer) (a c : Assignment)
    → IsFormula formula
    → Follows c arbiters
    → Reads limit (write_reduced_formula limit formula arbiters w).renaming_auxiliaries a c
    → satisfies a (write_reduced_formula limit formula arbiters w)
      ≡ (satisfies a w && eval_formula c formula)
unfolding write_reduced_formula write_reduced_clause add_to_count
write_reduced_formula-value limit [] arbiters w a c h f r = ground arith
write_reduced_formula-value limit (clause ∷ formula) arbiters w a c h f r =
    let (reduced, w') = write_literals limit clause arbiters w in
    let next = add_to_count 1 (write_clause_to_stream reduced w') in
    elim (Bool-cases (any (search_int arbiters) clause)) [
      | inl s ↦
          let rest =
            write_reduced_formula-value limit formula arbiters w a c h.1 f
              (rw (s, write_reduced_formula) at r) in
          rw (s, write_reduced_formula)
            (rest ∙ ground (arith, satisfied_value c clause arbiters f s))
      | inr s ↦
          let r' : Reads limit
              (write_reduced_formula limit formula arbiters next).renaming_auxiliaries a c =
            rw (s, write_reduced_formula) at r in
          let rest = write_reduced_formula-value limit formula arbiters next a c h.1 f r' in
          let clause_value = write_literals-value limit clause arbiters w a c h.0 f (
            Reads-Keeps limit w'.renaming_auxiliaries _ a c
              (write_reduced_formula-Keeps limit formula arbiters next) r') in
          let before : satisfies a w' ≡ satisfies a w =
            ap (eval_formula a) (write_literals_frame limit clause arbiters w).1 in
          rw (s, write_reduced_formula)
            (rest ∙ ground (arith, write_clause_to_stream-value a reduced w', clause_value, before))
    ]
