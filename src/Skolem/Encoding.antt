-- ===== src/Skolem/Encoding.antt =====
-- A run of `addForcingClause`: the clauses given to the validity checker stand for all of the forcing
-- clauses.
use pedant_solver.Base.{
  ℕ, ◌<◌, ◌≡◌, refl, sym, ap, ◌∙◌, subst, inl, inr, Bool, true, false, not, ◌&&◌, ◌||◌, some, List,
  [], ◌∷◌, arith, ◌==◌, Bool-cases, ==_iff, length, is_empty, get_or,
}
use pedant_solver.Base.Int.{ℤ, pos}
use pedant_solver.Base.Maps.{find}
use pedant_solver.Formula.{Clause, Assignment, eval_lit, eval_clause, eval_formula, IsClause}
use pedant_solver.Base.Sets.{contains}
use pedant_solver.Literal.{var}
use pedant_solver.Aiger.{without_last, back}
use pedant_solver.Aiger.Forcing.{without_last-IsClause}
use pedant_solver.Skolem.{Container, add_forcing_clause}
use pedant_solver.Skolem.Forcing.{
  meets, forced, add_forcing_clause-forced, forced-value, forced_frame,
}

-- A forcing clause for the variable has a false premise.
unfoldable pub fires_for : Assignment → ℕ → List Clause → Bool
fires_for a e [] = false
fires_for a e (clause ∷ clauses) =
    (var (back clause) == e && not (eval_clause a (without_last clause))) || fires_for a e clauses

abbrev pub assumption : Container → ℕ → ℤ
assumption c i = get_or c.validity_check_assumptions i (pos 0)

-- Each existential variable has a disjunction with a slot of its own and a flag. An assignment that
-- satisfies the clauses satisfies the forcing clauses, and sets a flag to false where a forcing
-- clause fires, and to true where none does but the assumption in the slot is true.
pub record IsEncoded (c : Container) (slot flag : ℕ → ℕ) (existentials : List ℕ)
    (clauses : List Clause) : Type 0 where
  pub found :
      (e : ℕ)
      → contains existentials e ≡ true
      → find c.forcing_disjunctions e ≡ some (record { terminal_index = some (slot e) })
  pub flagged :
      (e : ℕ)
      → contains existentials e ≡ true
      → find c.no_forcing_clause_active_variables e ≡ some (flag e)
  pub flag_positive : (e : ℕ) → contains existentials e ≡ true → 0 < flag e
  pub bound :
      (e : ℕ) → contains existentials e ≡ true → slot e < length c.validity_check_assumptions
  pub apart :
      (e e' : ℕ)
      → contains existentials e ≡ true
      → contains existentials e' ≡ true
      → (slot e == slot e') ≡ (e == e')
  pub satisfied : (a : Assignment) → meets a c.calls ≡ true → eval_formula a clauses ≡ true
  pub excluded :
      (a : Assignment) (e : ℕ)
      → contains existentials e ≡ true
      → meets a c.calls ≡ true
      → (not (fires_for a e clauses) || not (a (flag e))) ≡ true
  pub covered :
      (a : Assignment) (e : ℕ)
      → contains existentials e ≡ true
      → meets a c.calls ≡ true
      → eval_lit a (assumption c (slot e)) ≡ true
      → (a (flag e) || fires_for a e clauses) ≡ true

eval-back :
    (a : Assignment) (clause : Clause)
    → is_empty clause ≡ false
    → eval_clause a clause ≡ (eval_clause a (without_last clause) || eval_lit a (back clause))
unfolding without_last back
eval-back a [] h = absurd (ground (arith, h))
eval-back a (l ∷ []) h = ground arith
eval-back a (l ∷ k ∷ clause) h = ground (arith, eval-back a (k ∷ clause) refl)

module _ (c : Container) (slot flag : ℕ → ℕ) (existentials : List ℕ) (clauses : List Clause)
    (h : IsEncoded c slot flag existentials clauses) (clause : Clause) (reduced : Bool)
    (hc : IsClause clause) (full : is_empty clause ≡ false)
    (hv : contains existentials (var (back clause)) ≡ true) where
  pub next : Container
  next = forced clause reduced (flag (var (back clause))) (slot (var (back clause))) c

  next-value :
      (a : Assignment)
      → meets a next.calls ≡ true
      → let fires = not (eval_clause a (without_last clause)) in
        let v = var (back clause) in
        (meets a c.calls ≡ true)
        × ((not fires || eval_lit a (back clause)) ≡ true)
        × ((not fires || not (a (flag v))) ≡ true)
        × ((eval_lit a (assumption next (slot v)) ≡ true)
            → (eval_lit a (assumption c (slot v)) || fires) ≡ true)
  unfolding next
  next-value a m =
      forced-value a clause reduced _ _ c (h.flag_positive _ hv) (h.bound _ hv)
        (without_last-IsClause clause hc) m

  next_frame :
      (next.forcing_disjunctions ≡ c.forcing_disjunctions)
      × (next.no_forcing_clause_active_variables ≡ c.no_forcing_clause_active_variables)
      × (length next.validity_check_assumptions ≡ length c.validity_check_assumptions)
      × ((j : ℕ) → (slot (var (back clause)) == j) ≡ false → assumption next j ≡ assumption c j)
  unfolding next
  next_frame = forced_frame clause reduced _ _ c

  next-excluded :
      (a : Assignment) (e : ℕ)
      → contains existentials e ≡ true
      → meets a next.calls ≡ true
      → (not (fires_for a e (clause ∷ clauses)) || not (a (flag e))) ≡ true
  unfolding fires_for
  next-excluded a e he m =
      let r = next-value a m in
      let old = h.excluded a e he r.0 in
      elim (Bool-cases (var (back clause) == e)) [
        | inl q ↦
            let same = (==_iff (var (back clause)) e).0 q in
            let now =
              subst
                (λ v. (not (not (eval_clause a (without_last clause))) || not (a (flag v))) ≡ true)
                same r.2 in
            ground (arith, q, old, now)
        | inr q ↦ ground (arith, q, old)
      ]

  next-covered :
      (a : Assignment) (e : ℕ)
      → contains existentials e ≡ true
      → meets a next.calls ≡ true
      → eval_lit a (assumption next (slot e)) ≡ true
      → (a (flag e) || fires_for a e (clause ∷ clauses)) ≡ true
  unfolding fires_for
  next-covered a e he m o =
      let r = next-value a m in
      let v = var (back clause) in
      elim (Bool-cases (v == e)) [
        | inl q ↦
            let same = (==_iff v e).0 q in
            let now =
              subst
                (λ x.
                  eval_lit a (assumption next (slot x)) ≡ true
                  → (eval_lit a (assumption c (slot x))
                      || not (eval_clause a (without_last clause)))
                    ≡ true)
                same r.3 o in
            elim (Bool-cases (eval_lit a (assumption c (slot e)))) [
              | inl t ↦ ground (arith, h.covered a e he r.0 t, q)
              | inr t ↦ ground (arith, t, now, q)
            ]
        | inr q ↦
            let kept = ap (eval_lit a) (next_frame.3 (slot e) (h.apart v e hv he ∙ q)) in
            ground (arith, h.covered a e he r.0 (sym kept ∙ o))
      ]

  -- A forcing clause for one of the variables joins the others.
  pub next-IsEncoded : IsEncoded next slot flag existentials (clause ∷ clauses)
  next-IsEncoded = record {
    found = λ e he. ap (λ m. find m e) next_frame.0 ∙ h.found e he;
    flagged = λ e he. ap (λ m. find m e) next_frame.1 ∙ h.flagged e he;
    flag_positive = h.flag_positive;
    bound = λ e he. omega (arith, next_frame.2, h.bound e he);
    apart = h.apart;
    satisfied = λ a m.
        ground (arith, next-value a m, h.satisfied a (next-value a m).0, eval-back a clause full);
    excluded = next-excluded;
    covered = next-covered;
  }

  pub add_forcing_clause-IsEncoded : add_forcing_clause clause reduced c ≡ some next
  unfolding next
  add_forcing_clause-IsEncoded =
      add_forcing_clause-forced clause reduced _ _ c (h.found _ hv) (h.flagged _ hv)
