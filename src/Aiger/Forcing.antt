-- ===== src/Aiger/Forcing.antt =====
-- What the gates for forcing clauses and defaults compute.
use pedant_solver.Base.{
  ℕ, zero, suc, ◌+◌, ◌<◌, ◌≡◌, refl, sym, ap, ◌∙◌, inl, inr, Bool, true, false, not, ◌&&◌, ◌||◌,
  List, [], ◌∷◌, arith, ltb, ◌==◌, if◌then◌else◌, Bool-cases, not-not, ==_iff, length, get_or,
}
use pedant_solver.Base.Int.{ℤ, pos, is_pos}
use pedant_solver.Base.Maps.{Map}
use pedant_solver.Formula.{Clause, Assignment, IsClause, IsFormula}
use pedant_solver.Aiger.{
  Builder, get_aiger_representation, get_aiger_negation, filter_clauses, without_last, back,
  combine_aiger_variables, get_is_active_circuit, aiger_add_and, aiger_true, aiger_false,
}
use pedant_solver.Aiger.Values.{
  aig_value, obeys, obeys-append, aig_value-representation, aig_value-negation,
  aig_value-aiger_true, aig_value-aiger_false,
}
use pedant_solver.Aiger.Reduced.{Agrees, fires}
use pedant_solver.Aiger.Active.{get_is_active_circuit-value}
use pedant_solver.Aiger.Fallback.{
  default_value, skolem_value, more_positive-default, more_negative-default,
}
use pedant_solver.Aiger.Skolem.{
  add_constant_default, add_negative_default, add_positive_default, add_default_function,
  add_forcing_clauses,
}

combine-value :
    (a : Assignment) (in1 in2 : ℕ) (b : Builder)
    → a 0 ≡ false
    → obeys a (combine_aiger_variables in1 in2 b).1.circuit ≡ true
    → (obeys a b.circuit ≡ true)
      × (aig_value a (combine_aiger_variables in1 in2 b).0 ≡ (aig_value a in1 && aig_value a in2))
unfolding combine_aiger_variables
combine-value a in1 in2 b z o =
    let last = b.last_used_intermediate_variable + 1 in
    let b' : Builder = record b { last_used_intermediate_variable = last } in
    ground (
      arith,
      aig_value-aiger_false a z,
      aig_value-aiger_true a z,
      aig_value-representation a (pos last) (omega arith),
      obeys-append a (get_aiger_representation (pos last)) in1 in2 b',
    )

-- A gate that copies a literal.
copy-value :
    (a : Assignment) (v x : ℕ) (b : Builder)
    → a 0 ≡ false
    → 0 < v
    → obeys a (aiger_add_and (get_aiger_representation (pos v)) x aiger_true b).circuit ≡ true
    → (obeys a b.circuit ≡ true) × (a v ≡ aig_value a x)
copy-value a v x b z h o =
    let r = obeys-append a (get_aiger_representation (pos v)) x aiger_true b o in
    (
      r.0,
      sym (aig_value-representation a (pos v) h)
          ∙ r.1
          ∙ ap (λ t. aig_value a x && t) (aig_value-aiger_true a z)
          ∙ ground arith,
    )

pub without_last-IsClause : (c : Clause) → IsClause c → IsClause (without_last c)
unfolding without_last
without_last-IsClause [] h = tt
without_last-IsClause (l ∷ []) h = tt
without_last-IsClause (l ∷ k ∷ c) h = (h.0, without_last-IsClause (k ∷ c) h.1)

filter_clauses-IsFormula :
    (clauses : List Clause)
    → IsFormula clauses
    → IsFormula (filter_clauses clauses).0 × IsFormula (filter_clauses clauses).1
unfolding filter_clauses
filter_clauses-IsFormula [] h = (tt, tt)
filter_clauses-IsFormula (cl ∷ clauses) h =
    let here = without_last-IsClause cl h.0 in
    let rest = filter_clauses-IsFormula clauses h.1 in
    elim (Bool-cases (is_pos (back cl))) [
      | inl e ↦ rw e ((here, rest.0), rest.1)
      | inr e ↦ rw e (rest.0, (here, rest.1))
    ]

module _ (a : Assignment) (arbiters : Map Bool) (z : a 0 ≡ false) (g : Agrees a arbiters)
    (positive negative : List Clause) (hp : IsFormula positive) (hn : IsFormula negative)
    (consistent : (fires a positive && fires a negative) ≡ false) where
  constant-value :
      (v : ℕ) (default_constant : ℤ) (b : Builder)
      → 0 < v
      → obeys a
          (add_constant_default
            (get_aiger_representation (pos v))
            positive
            negative
            default_constant
            arbiters
            b).circuit
        ≡ true
      → (obeys a b.circuit ≡ true)
        × (a v ≡ (
            if fires a positive
            then true
            else if fires a negative
            then false
            else is_pos default_constant))
  unfolding add_constant_default
  constant-value v default_constant b h o = elim (Bool-cases (is_pos default_constant)) [
    | inl e ↦
        let (forced, b') = get_is_active_circuit negative arbiters b in
        let c =
          copy-value a v (get_aiger_negation forced) b' z h (rw (e, add_constant_default) at o) in
        let r = get_is_active_circuit-value a negative arbiters b z g hn c.0 in
        (r.0, c.1 ∙ aig_value-negation a forced ∙ ap not r.1 ∙ ground (arith, e))
    | inr e ↦
        let (forced, b') = get_is_active_circuit positive arbiters b in
        let c = copy-value a v forced b' z h (rw (e, add_constant_default) at o) in
        let r = get_is_active_circuit-value a positive arbiters b z g hp c.0 in
        (r.0, c.1 ∙ r.1 ∙ ground (arith, e))
  ]

module _ (a : Assignment) (arbiters : Map Bool) (z : a 0 ≡ false) (g : Agrees a arbiters) where
  -- The two circuits for a default function, over literals that say whether forcing clauses fire.
  negative_default-value :
      (v p n : ℕ) (negative_default : List Clause) (b : Builder)
      → 0 < v
      → IsFormula negative_default
      → obeys a
          (add_negative_default
            (get_aiger_representation (pos v))
            p
            n
            negative_default
            arbiters
            b).circuit
        ≡ true
      → (obeys a b.circuit ≡ true)
        × (a v ≡ not (aig_value a n || (not (aig_value a p) && fires a negative_default)))
  unfolding add_negative_default
  negative_default-value v p n negative_default b h hd o =
      let (fired, b₁) = get_is_active_circuit negative_default arbiters b in
      let (applicable, b₂) = combine_aiger_variables (get_aiger_negation p) fired b₁ in
      let (is_positive, b₃) =
        combine_aiger_variables (get_aiger_negation n) (get_aiger_negation applicable) b₂ in
      let c = copy-value a v is_positive b₃ z h o in
      let r₃ = combine-value a (get_aiger_negation n) (get_aiger_negation applicable) b₂ z c.0 in
      let r₂ = combine-value a (get_aiger_negation p) fired b₁ z r₃.0 in
      let r₁ = get_is_active_circuit-value a negative_default arbiters b z g hd r₂.0 in
      (
        r₁.0,
        c.1
            ∙ r₃.1
            ∙ ground (
              arith,
              r₂.1,
              r₁.1,
              aig_value-negation a n,
              aig_value-negation a p,
              aig_value-negation a applicable,
            ),
      )

  positive_default-value :
      (v p n : ℕ) (positive_default : List Clause) (b : Builder)
      → 0 < v
      → IsFormula positive_default
      → obeys a
          (add_positive_default
            (get_aiger_representation (pos v))
            p
            n
            positive_default
            arbiters
            b).circuit
        ≡ true
      → (obeys a b.circuit ≡ true)
        × (a v ≡ (aig_value a p || (not (aig_value a n) && fires a positive_default)))
  unfolding add_positive_default
  positive_default-value v p n positive_default b h hd o =
      let (fired, b₁) = get_is_active_circuit positive_default arbiters b in
      let (applicable, b₂) = combine_aiger_variables (get_aiger_negation n) fired b₁ in
      let (is_negative, b₃) =
        combine_aiger_variables (get_aiger_negation p) (get_aiger_negation applicable) b₂ in
      let c = copy-value a v (get_aiger_negation is_negative) b₃ z h o in
      let r₃ = combine-value a (get_aiger_negation p) (get_aiger_negation applicable) b₂ z c.0 in
      let r₂ = combine-value a (get_aiger_negation n) fired b₁ z r₃.0 in
      let r₁ = get_is_active_circuit-value a positive_default arbiters b z g hd r₂.0 in
      (
        r₁.0,
        c.1
            ∙ aig_value-negation a is_negative
            ∙ ground (
              arith,
              r₃.1,
              r₂.1,
              r₁.1,
              aig_value-negation a n,
              aig_value-negation a p,
              aig_value-negation a applicable,
            ),
      )

-- The two formulas of the circuits, where not both sorts of forcing clauses fire.
negative_formula :
    (p n d : Bool)
    → (p && n) ≡ false
    → not (n || (not p && not d)) ≡ (if p then true else if n then false else d)
negative_formula p n d h = ground (arith, h)

positive_formula :
    (p n d : Bool)
    → (p && n) ≡ false
    → (p || (not n && d)) ≡ (if p then true else if n then false else d)
positive_formula p n d h = ground (arith, h)

forced_true : (p n d : Bool) → p ≡ true → true ≡ (if p then true else if n then false else d)
forced_true p n d e = rw e refl

forced_false :
    (p n d : Bool)
    → (p && n) ≡ false
    → n ≡ true
    → false ≡ (if p then true else if n then false else d)
forced_false p n d h e = ground (arith, h, e)

module _ (a : Assignment) (arbiters : Map Bool) (z : a 0 ≡ false) (g : Agrees a arbiters)
    (positive negative : List Clause) (hp : IsFormula positive) (hn : IsFormula negative)
    (consistent : (fires a positive && fires a negative) ≡ false) where
  function-value :
      (v : ℕ) (cl cl' : Clause) (others : List Clause) (b : Builder)
      → 0 < v
      → IsFormula (cl ∷ cl' ∷ others)
      → obeys a
          (add_default_function
            (get_aiger_representation (pos v))
            positive
            negative
            (cl ∷ cl' ∷ others)
            arbiters
            b).circuit
        ≡ true
      → (obeys a b.circuit ≡ true) × (a v ≡ skolem_value a positive negative (cl ∷ cl' ∷ others))
  unfolding add_default_function skolem_value
  function-value v cl cl' others b h hd o =
      let (p, b₁) = get_is_active_circuit positive arbiters b in
      let (n, b₂) = get_is_active_circuit negative arbiters b₁ in
      let (pd, nd) = filter_clauses (cl ∷ cl' ∷ others) in
      let hf = filter_clauses-IsFormula (cl ∷ cl' ∷ others) hd in
      let P = fires a positive in
      let N = fires a negative in
      let D = default_value a (cl ∷ cl' ∷ others) in
      elim (Bool-cases (p == aiger_true)) [
        | inl e ↦
            let c = copy-value a v aiger_true b₁ z h (rw (e, add_default_function) at o) in
            let r = get_is_active_circuit-value a positive arbiters b z g hp c.0 in
            let one = aig_value-aiger_true a z in
            let fired = sym r.1 ∙ ap (aig_value a) ((==_iff p aiger_true).0 e) ∙ one in
            (r.0, c.1 ∙ one ∙ forced_true P N D fired)
        | inr e ↦ elim (Bool-cases (n == aiger_true)) [
          | inl e' ↦
              let c =
                obeys-append a (get_aiger_representation (pos v)) aiger_false aiger_false b₂
                  (rw (e, e', add_default_function) at o) in
              let r' = get_is_active_circuit-value a negative arbiters b₁ z g hn c.0 in
              let r = get_is_active_circuit-value a positive arbiters b z g hp r'.0 in
              let fired =
                sym r'.1
                ∙ ap (aig_value a) ((==_iff n aiger_true).0 e')
                ∙ aig_value-aiger_true a z in
              (
                r.0,
                sym (aig_value-representation a (pos v) h)
                    ∙ c.1
                    ∙ ap (λ x. x && x) (aig_value-aiger_false a z)
                    ∙ forced_false P N D consistent fired,
              )
          | inr e' ↦ elim (Bool-cases (ltb (length nd) (length pd))) [
            | inl t ↦
                let c =
                  negative_default-value a arbiters z g v p n nd b₂ h hf.1
                    (rw (e, e', t, add_default_function) at o) in
                let r' = get_is_active_circuit-value a negative arbiters b₁ z g hn c.0 in
                let r = get_is_active_circuit-value a positive arbiters b z g hp r'.0 in
                let d = more_positive-default a cl cl' others t in
                let flip = sym (not-not (fires a nd)) ∙ ap not (sym d) in
                (
                  r.0,
                  c.1
                      ∙ ap (λ x. not (x || (not (aig_value a p) && fires a nd))) r'.1
                      ∙ ap (λ x. not (N || (not x && fires a nd))) r.1
                      ∙ ap (λ x. not (N || (not P && x))) flip
                      ∙ negative_formula P N D consistent,
                )
            | inr t ↦
                let c =
                  positive_default-value a arbiters z g v p n pd b₂ h hf.0
                    (rw (e, e', t, add_default_function) at o) in
                let r' = get_is_active_circuit-value a negative arbiters b₁ z g hn c.0 in
                let r = get_is_active_circuit-value a positive arbiters b z g hp r'.0 in
                let d = sym (more_negative-default a cl cl' others t) in
                (
                  r.0,
                  c.1
                      ∙ ap (λ x. x || (not (aig_value a n) && fires a pd)) r.1
                      ∙ ap (λ x. P || (not x && fires a pd)) r'.1
                      ∙ ap (λ x. P || (not N && x)) d
                      ∙ positive_formula P N D consistent,
                )
          ]
        ]
      ]

  -- Under an assignment that gives the arbiters their values, obeys the gates and makes no positive
  -- and negative forcing clause fire together, a variable has the value that a positive forcing
  -- clause that fires makes true, a negative one false, and else its default clauses: it is true
  -- without any, as the first literal of one alone says, and of several, if more end in a positive
  -- literal, true unless one that ends in a negative literal has all its others false, or if not,
  -- true just if one that ends in a positive literal has all its others false.
  pub add_forcing_clauses-value :
      (variable : ℕ) (default_clauses : List Clause) (b : Builder)
      → 0 < variable
      → IsFormula default_clauses
      → obeys a (add_forcing_clauses variable positive negative default_clauses arbiters b).circuit
        ≡ true
      → (obeys a b.circuit ≡ true) × (a variable ≡ skolem_value a positive negative default_clauses)
  unfolding add_forcing_clauses skolem_value default_value
  add_forcing_clauses-value (suc v) [] b h hd o =
      constant-value a arbiters z g positive negative hp hn consistent (suc v) (pos (suc v)) b h o
  add_forcing_clauses-value zero [] b h hd o = absurd (omega (arith, h))
  add_forcing_clauses-value variable (cl ∷ []) b h hd o =
      constant-value a arbiters z g positive negative hp hn consistent variable
        (get_or cl 0 (pos 0)) b h o
  add_forcing_clauses-value variable (cl ∷ cl' ∷ others) b h hd o =
      function-value variable cl cl' others b h hd o
