-- ===== src/Skolem/Forcing.antt =====
-- What the clauses given to the validity checker say of forcing clauses.
use pedant_solver.Base.{
  ℕ, zero, suc, ◌+◌, ◌<◌, ◌≡◌, refl, sym, ap, ◌∙◌, Bool, true, false, not, ◌&&◌, ◌||◌, some, List,
  [], ◌∷◌, ◌++◌, arith, ◌==◌, if◌then◌else◌, length, any-append, all-append, length-set, get_or,
  get_or-set_self, get_or-set_ne,
}
use pedant_solver.Base.Int.{ℤ, pos, neg}
use pedant_solver.Base.Maps.{find, at_or}
use pedant_solver.Formula.{
  Clause, Assignment, eval_lit, eval_clause, eval_formula, IsClause, eval_lit-neg,
}
use pedant_solver.Literal.{var}
use pedant_solver.Aiger.{without_last, back}
use pedant_solver.Disjunction.{create_disjunct, close_disjunct}
use pedant_solver.Skolem.{
  log_conditional_definition, check_definition, check_default_clause, check_default_value_active,
  check_arbiter_variable, add_arbiter_variable, Call, Container, call_all, next_variable,
  deactivate_each, activate, add_disjunct, add_forcing_disjunct, add_forcing_clause,
  add_clause_validity_check, add_clause_conflict_extraction, add_defining_clause,
  set_no_forcing_clause_active_variable, set_defined, check_forcing_clause, log_forcing_clause,
  init_model,
}

-- The clauses of the validity checker.
unfoldable pub validity : List Call → List Clause
validity [] = []
validity (add_clause_validity_check v clause ∷ calls) = clause ∷ validity calls
validity (add_clause_conflict_extraction clause ∷ calls) = validity calls
validity (add_defining_clause v clause active ∷ calls) = validity calls
validity (set_no_forcing_clause_active_variable v active ∷ calls) = validity calls
validity (set_defined v ∷ calls) = validity calls
validity (check_forcing_clause clause ∷ calls) = validity calls
validity (log_forcing_clause clause ∷ calls) = validity calls
validity (init_model n ∷ calls) = validity calls
validity (check_arbiter_variable e arbiter ∷ calls) = validity calls
validity (add_arbiter_variable arbiter ∷ calls) = validity calls
validity (log_conditional_definition v conflict definition circuit ∷ calls) = validity calls
validity (check_definition v definition conflict ∷ calls) = validity calls
validity (check_default_clause premise label ∷ calls) = validity calls
validity (check_default_value_active v active ∷ calls) = validity calls

validity-append : (xs ys : List Call) → validity (xs ++ ys) ≡ validity xs ++ validity ys
unfolding validity
validity-append [] ys = refl
validity-append (add_clause_validity_check v clause ∷ xs) ys =
    ap (λ l. clause ∷ l) (validity-append xs ys)
validity-append (add_clause_conflict_extraction clause ∷ xs) ys = validity-append xs ys
validity-append (add_defining_clause v clause active ∷ xs) ys = validity-append xs ys
validity-append (set_no_forcing_clause_active_variable v active ∷ xs) ys = validity-append xs ys
validity-append (set_defined v ∷ xs) ys = validity-append xs ys
validity-append (check_forcing_clause clause ∷ xs) ys = validity-append xs ys
validity-append (log_forcing_clause clause ∷ xs) ys = validity-append xs ys
validity-append (init_model n ∷ xs) ys = validity-append xs ys
validity-append (check_arbiter_variable e arbiter ∷ xs) ys = validity-append xs ys
validity-append (add_arbiter_variable arbiter ∷ xs) ys = validity-append xs ys
validity-append (log_conditional_definition v conflict definition circuit ∷ xs) ys =
    validity-append xs ys
validity-append (check_definition v definition conflict ∷ xs) ys = validity-append xs ys
validity-append (check_default_clause premise label ∷ xs) ys = validity-append xs ys
validity-append (check_default_value_active v active ∷ xs) ys = validity-append xs ys

-- The assignment satisfies the clauses.
unfoldable pub meets : Assignment → List Call → Bool
meets a calls = eval_formula a (validity calls)

pub meets-append :
    (a : Assignment) (xs ys : List Call) → meets a (xs ++ ys) ≡ (meets a xs && meets a ys)
unfolding meets
meets-append a xs ys =
    ap (eval_formula a) (validity-append xs ys)
    ∙ all-append (eval_clause a) (validity xs) (validity ys)

meets-deactivate_each :
    (a : Assignment) (v active : ℕ) (premise : Clause)
    → 0 < active
    → IsClause premise
    → meets a (deactivate_each v active premise) ≡ not (a active && eval_clause a premise)
unfolding meets validity
meets-deactivate_each a v active [] h c = ground arith
meets-deactivate_each a v active (l ∷ premise) h c = ground (
  arith,
  eval_lit-neg a l c.0,
  eval_lit-neg a (pos active) h,
  meets-deactivate_each a v active premise h c.1,
)

pub eval_pos : (a : Assignment) (v : ℕ) → 0 < v → eval_lit a (pos v) ≡ a v
eval_pos a zero h = absurd (omega (arith, h))
eval_pos a (suc v) h = refl

-- The clauses that make a variable active, the literal true and the flag false.
meets-activate :
    (a : Assignment) (v : ℕ) (literal : ℤ) (premise : Clause) (active no_forcing : ℕ)
    → 0 < active
    → 0 < no_forcing
    → meets a (activate v literal premise active no_forcing) ≡ (
        (eval_clause a premise || a active)
        && (not (a active) || eval_lit a literal)
        && (not (a active) || not (a no_forcing)))
unfolding meets validity
meets-activate a v literal premise active no_forcing h k = ground (
  arith,
  any-append (eval_lit a) premise (pos active ∷ []),
  eval_lit-neg a (pos active) h,
  eval_lit-neg a (pos no_forcing) k,
  eval_pos a active h,
  eval_pos a no_forcing k,
)

-- The disjunct: the old terminal, the variable or the new terminal.
meets-disjunct :
    (a : Assignment) (v active i : ℕ) (c : Container)
    → 0 < active
    → let c' = add_disjunct v active (record { terminal_index = some i }) c in
      i < length c.validity_check_assumptions
      → meets a c'.calls ≡ true
      → (meets a c.calls ≡ true)
        × ((eval_lit a (get_or c'.validity_check_assumptions i (pos 0)) ≡ true)
            → (eval_lit a (get_or c.validity_check_assumptions i (pos 0)) || a active) ≡ true)
unfolding meets validity add_disjunct create_disjunct close_disjunct
meets-disjunct a v active i c h b m =
    let n = c.last_used_variable + 1 in
    let t = get_or c.validity_check_assumptions i (pos 0) in
    let clause = t ∷ pos active ∷ pos n ∷ [] in
    let split = sym m ∙ meets-append a c.calls (add_clause_validity_check v clause ∷ []) in
    let fresh = get_or-set_self c.validity_check_assumptions i (neg (pos n)) (pos 0) b in
    (
      ground (arith, split),
      λ o.
          let off : a n ≡ false = ground (
            arith,
            sym (ap (eval_lit a) fresh) ∙ o,
            eval_lit-neg a (pos n) (omega arith),
            eval_pos a n (omega arith),
          ) in
          let on : eval_clause a clause ≡ true = ground (arith, split) in
          ground (arith, on, off, eval_pos a active h, eval_pos a n (omega arith)),
    )

-- The container after a clause with its literal, where the disjunction has slot `i`.
abbrev prepared : Clause → Bool → ℕ → Container → Container
prepared clause reduced no_forcing c = next_variable (
    call_all
      (check_forcing_clause clause
          ∷ log_forcing_clause clause
          ∷ (if reduced then add_clause_conflict_extraction clause ∷ [] else [])
        ++ activate (var (back clause)) (back clause) (without_last clause)
            (c.last_used_variable + 1) no_forcing)
      c)

pub forced : Clause → Bool → ℕ → ℕ → Container → Container
forced clause reduced no_forcing i c =
    call_all (deactivate_each (var (back clause)) (c.last_used_variable + 1) (without_last clause))
      (add_disjunct (var (back clause)) (c.last_used_variable + 1)
        (record { terminal_index = some i }) (prepared clause reduced no_forcing c))

add_forcing_clause_slot :
    (clause : Clause) (reduced : Bool) (i : ℕ) (c : Container)
    → find c.forcing_disjunctions (var (back clause)) ≡ some (record { terminal_index = some i })
    → add_forcing_clause clause reduced c
      ≡ some (
          forced clause reduced
            (at_or c.no_forcing_clause_active_variables (var (back clause)) 0)
            i
            c)
unfolding add_forcing_clause add_forcing_disjunct forced
add_forcing_clause_slot clause reduced i c d = rw (d, add_forcing_clause, add_forcing_disjunct) refl

pub flag_found :
    (c : Container) (v n : ℕ)
    → find c.no_forcing_clause_active_variables v ≡ some n
    → at_or c.no_forcing_clause_active_variables v 0 ≡ n
unfolding at_or
flag_found c v n f = rw (f, at_or) refl

pub add_forcing_clause-forced :
    (clause : Clause) (reduced : Bool) (no_forcing i : ℕ) (c : Container)
    → find c.forcing_disjunctions (var (back clause)) ≡ some (record { terminal_index = some i })
    → find c.no_forcing_clause_active_variables (var (back clause)) ≡ some no_forcing
    → add_forcing_clause clause reduced c ≡ some (forced clause reduced no_forcing i c)
add_forcing_clause-forced clause reduced no_forcing i c d f =
    add_forcing_clause_slot clause reduced i c d
    ∙ ap (λ n. some (forced clause reduced n i c)) (flag_found c (var (back clause)) no_forcing f)

four :
    (p q r s : Bool)
    → true ≡ (p && (q && r && s))
    → (p ≡ true) × (q ≡ true) × (r ≡ true) × (s ≡ true)
four p q r s h = ground (arith, h)

meets-extraction :
    (a : Assignment) (clause : Clause) (reduced : Bool) (calls : List Call)
    → meets a ((if reduced then add_clause_conflict_extraction clause ∷ [] else []) ++ calls)
      ≡ meets a calls
unfolding meets validity
meets-extraction a clause true calls = refl
meets-extraction a clause false calls = refl

meets_skip :
    (a : Assignment) (clause : Clause) (calls : List Call)
    → meets a (check_forcing_clause clause ∷ log_forcing_clause clause ∷ calls) ≡ meets a calls
unfolding meets validity
meets_skip a clause calls = refl

meets-prepared :
    (a : Assignment) (clause : Clause) (reduced : Bool) (no_forcing : ℕ) (c : Container)
    → 0 < no_forcing
    → meets a (prepared clause reduced no_forcing c).calls ≡ true
    → let active = c.last_used_variable + 1 in
      (meets a c.calls ≡ true)
      × ((eval_clause a (without_last clause) || a active) ≡ true)
      × ((not (a active) || eval_lit a (back clause)) ≡ true)
      × ((not (a active) || not (a no_forcing)) ≡ true)
meets-prepared a clause reduced no_forcing c h m =
    let active = c.last_used_variable + 1 in
    let calls =
      activate (var (back clause)) (back clause) (without_last clause) active no_forcing in
    let extraction : List Call =
      if reduced then add_clause_conflict_extraction clause ∷ [] else [] in
    let split =
      sym m
      ∙ meets-append a c.calls
          (check_forcing_clause clause ∷ log_forcing_clause clause ∷ extraction ++ calls)
      ∙ ap (λ b. meets a c.calls && b)
          (meets_skip a clause (extraction ++ calls)
            ∙ meets-extraction a clause reduced calls
            ∙ meets-activate a (var (back clause)) (back clause) (without_last clause) active
                no_forcing (omega arith) h) in
    four _ _ _ _ split

-- After a forcing clause, the assignment satisfies what it did, the new variable is true exactly
-- where the clause fires, and it makes the flag false and the literal true.
pub forced-value :
    (a : Assignment) (clause : Clause) (reduced : Bool) (no_forcing i : ℕ) (c : Container)
    → 0 < no_forcing
    → i < length c.validity_check_assumptions
    → IsClause (without_last clause)
    → let c' = forced clause reduced no_forcing i c in
      let fires = not (eval_clause a (without_last clause)) in
      meets a c'.calls ≡ true
      → (meets a c.calls ≡ true)
        × ((not fires || eval_lit a (back clause)) ≡ true)
        × ((not fires || not (a no_forcing)) ≡ true)
        × ((eval_lit a (get_or c'.validity_check_assumptions i (pos 0)) ≡ true)
            → (eval_lit a (get_or c.validity_check_assumptions i (pos 0)) || fires) ≡ true)
unfolding forced
forced-value a clause reduced no_forcing i c h b k m =
    let active = c.last_used_variable + 1 in
    let v = var (back clause) in
    let before = prepared clause reduced no_forcing c in
    let after = add_disjunct v active (record { terminal_index = some i }) before in
    let split =
      sym m ∙ meets-append a after.calls (deactivate_each v active (without_last clause)) in
    let last = meets-deactivate_each a v active (without_last clause) (omega arith) k in
    let middle = meets-disjunct a v active i before (omega arith) b (ground (arith, split)) in
    let first = meets-prepared a clause reduced no_forcing c h middle.0 in
    let off : not (a active && eval_clause a (without_last clause)) ≡ true =
      ground (arith, split, last) in
    (
      first.0,
      ground (arith, first.1, first.2, off),
      ground (arith, first.1, first.3, off),
      λ o. ground (arith, middle.1 o, first.1, off),
    )

-- What a forcing clause leaves as it is.
pub forced_frame :
    (clause : Clause) (reduced : Bool) (no_forcing i : ℕ) (c : Container)
    → let c' = forced clause reduced no_forcing i c in
      (c'.forcing_disjunctions ≡ c.forcing_disjunctions)
      × (c'.no_forcing_clause_active_variables ≡ c.no_forcing_clause_active_variables)
      × (length c'.validity_check_assumptions ≡ length c.validity_check_assumptions)
      × ((j : ℕ)
          → (i == j) ≡ false
          → get_or c'.validity_check_assumptions j (pos 0)
            ≡ get_or c.validity_check_assumptions j (pos 0))
unfolding forced add_disjunct create_disjunct close_disjunct
forced_frame clause reduced no_forcing i c =
    let x = neg (pos (c.last_used_variable + 1 + 1)) in
    (
      refl,
      refl,
      length-set c.validity_check_assumptions i x,
      λ j d. get_or-set_ne c.validity_check_assumptions i j x (pos 0) (λ q. ground (arith, q, d)),
    )
