-- ===== src/Skolem/Requests.antt =====
-- What `getArbiter` returns, and what it keeps.
use pedant_solver.Base.{
  ℕ, ◌+◌, ◌≤◌, ◌≡◌, ◌==◌, if◌then◌else◌, Option, refl, sym, ap, ◌∙◌, subst, inl, inr, Bool, true,
  false, not, ◌&&◌, none, some, List, [], arith, Bool-cases, Option-cases, ==_refl,
}
use pedant_solver.Base.Int.{ℤ}
use pedant_solver.Base.Maps.{find, at_or, find-assign}
use pedant_solver.Base.Sets.{contains, contains-insert}
use pedant_solver.Disjunction.{Disjunction}
use pedant_solver.Skolem.{Container}
use pedant_solver.Skolem.Arbiters.{
  sort_literals, eq_literals, arbiter_of, exists_arbiter, create_arbiter, ensure_arbiter, or_zero,
  get_arbiter, introduce, find_arbiter,
}
use pedant_solver.Skolem.Annotations.{
  sort_literals-sort_literals, eq_literals_refl, arbiter_of-create_arbiter,
}
use pedant_solver.Skolem.Realization.{realize_arbiter-Keeps}

-- Arbiters of the map belong to the variable that they are found for, and are in use.
abbrev pub AreOwned : Container → Type 0
AreOwned c =
    (e : ℕ) (annotation : List ℤ) (arbiter : ℕ)
    → arbiter_of e annotation c ≡ some arbiter
    → (at_or c.arbiter_to_existential arbiter 0 ≡ e) × (arbiter ≤ c.last_used_variable)

-- The arbiter that a look-up has found, or else another one.
abbrev pub known_or : ℕ → Option ℕ → ℕ
known_or fresh none = fresh
known_or fresh (some arbiter) = arbiter

abbrev pub is_unknown : Option ℕ → Bool
is_unknown none = true
is_unknown (some arbiter) = false

not_existing :
    (e : ℕ) (annotation : List ℤ) (c : Container)
    → arbiter_of e annotation c ≡ none
    → exists_arbiter e annotation c ≡ false
unfolding exists_arbiter
not_existing e annotation c n = rw (exists_arbiter, n) refl

existing :
    (e arbiter : ℕ) (annotation : List ℤ) (c : Container)
    → arbiter_of e annotation c ≡ some arbiter
    → exists_arbiter e annotation c ≡ true
unfolding exists_arbiter
existing e arbiter annotation c f = rw (exists_arbiter, f) refl

created-value :
    (e : ℕ) (assignment : List ℤ) (c : Container)
    → let sorted = sort_literals assignment in
      arbiter_of e sorted (create_arbiter e sorted c).1 ≡ some (c.last_used_variable + 1)
created-value e assignment c =
    let sorted = sort_literals assignment in
    let same : eq_literals (sort_literals sorted) sorted ≡ true =
      subst (λ x. eq_literals x sorted ≡ true) (sym (sort_literals-sort_literals assignment))
        (eq_literals_refl sorted) in
    arbiter_of-create_arbiter e e sorted sorted c ∙ rw (==_refl e, same) refl

created_rest :
    (e : ℕ) (annotation : List ℤ) (c : Container)
    → ((create_arbiter e annotation c).1.forcing_disjunctions ≡ c.forcing_disjunctions)
      × ((create_arbiter e annotation c).1.proper_arbiters ≡ c.proper_arbiters)
unfolding create_arbiter
created_rest e annotation c = (refl, refl)

-- A new arbiter belongs to its variable, and the others are as before.
create_arbiter_owner :
    (e : ℕ) (annotation : List ℤ) (c : Container) (arbiter : ℕ)
    → at_or (create_arbiter e annotation c).1.arbiter_to_existential arbiter 0 ≡ (
        if c.last_used_variable + 1 == arbiter then e else at_or c.arbiter_to_existential arbiter 0)
unfolding create_arbiter at_or
create_arbiter_owner e annotation c arbiter =
    ground (arith, find-assign c.arbiter_to_existential (c.last_used_variable + 1) arbiter e)

create_arbiter_last :
    (e : ℕ) (annotation : List ℤ) (c : Container)
    → (create_arbiter e annotation c).1.last_used_variable ≡ c.last_used_variable + 1
unfolding create_arbiter
create_arbiter_last e annotation c = refl

created_apart :
    (e e' : ℕ) (assignment annotation : List ℤ) (c : Container)
    → let sorted = sort_literals assignment in
      (e == e' && eq_literals sorted annotation) ≡ false
      → (if e == e' && eq_literals (sort_literals sorted) annotation
          then some (c.last_used_variable + 1)
          else arbiter_of e' annotation c)
        ≡ arbiter_of e' annotation c
created_apart e e' assignment annotation c q = rw (sort_literals-sort_literals assignment, q) refl

create_arbiter-AreOwned :
    (e : ℕ) (annotation : List ℤ) (c : Container)
    → AreOwned c
    → AreOwned (create_arbiter e annotation c).1
create_arbiter-AreOwned e annotation c o e' annotation' arbiter h =
    let n = c.last_used_variable + 1 in
    let found = sym (arbiter_of-create_arbiter e e' annotation annotation' c) ∙ h in
    let owner = create_arbiter_owner e annotation c arbiter in
    ground (arith, found, o e' annotation' arbiter, owner, create_arbiter_last e annotation c)

-- There is an arbiter after the first part of the call: the one that was, or a new one.
abbrev IsEnsured : ℕ → List ℤ → Container → Bool × Container → Type 0
IsEnsured e sorted c (is_new, c') =
    let arbiter = known_or (c.last_used_variable + 1) (arbiter_of e sorted c) in
    (arbiter_of e sorted c' ≡ some arbiter)
    × (is_new ≡ is_unknown (arbiter_of e sorted c))
    × (c'.forcing_disjunctions ≡ c.forcing_disjunctions)
    × AreOwned c'
    × ((e' : ℕ) (annotation : List ℤ)
        → (e == e' && eq_literals sorted annotation) ≡ false
        → arbiter_of e' annotation c' ≡ arbiter_of e' annotation c)

ensure_arbiter-IsEnsured :
    (e : ℕ) (assignment : List ℤ) (c : Container)
    → AreOwned c
    → IsEnsured e (sort_literals assignment) c (ensure_arbiter e (sort_literals assignment) c)
unfolding ensure_arbiter
ensure_arbiter-IsEnsured e assignment c o =
    let sorted = sort_literals assignment in
    elim (Option-cases (arbiter_of e sorted c)) [
      | inl n ↦
          rw (ensure_arbiter, not_existing e sorted c n, n)
            (
              created-value e assignment c,
              refl,
              (created_rest e sorted c).0,
              create_arbiter-AreOwned e sorted c o,
              λ e' annotation q.
                  arbiter_of-create_arbiter e e' sorted annotation c
                  ∙ created_apart e e' assignment annotation c q,
            )
      | inr (arbiter, f) ↦
          rw (ensure_arbiter, existing e arbiter sorted c f, f)
            (refl, refl, refl, o, λ e' annotation q. refl)
    ]

introduce-value :
    (arbiter e : ℕ) (is_new introduce_clauses : Bool) (c : Container) (d : Disjunction)
    → at_or c.arbiter_to_existential arbiter 0 ≡ e
    → find c.forcing_disjunctions e ≡ some d
    → (is_proper : Bool) × (c' : Container) × (introduce arbiter is_new introduce_clauses c
        ≡ some ((arbiter, is_new, is_proper), c'))
      × (c'.existential_arbiter_map ≡ c.existential_arbiter_map)
      × (is_proper ≡ contains c'.proper_arbiters arbiter)
      × ((introduce_clauses && not is_proper) ≡ false)
      × (c'.arbiter_to_existential ≡ c.arbiter_to_existential)
      × (c.last_used_variable ≤ c'.last_used_variable)
unfolding introduce
introduce-value arbiter e is_new introduce_clauses c d o f =
    let r = realize_arbiter-Keeps arbiter e c d o f in
    let proper : contains r.0.proper_arbiters arbiter ≡ true =
      ap (λ l. contains l arbiter) r.3
      ∙ contains-insert arbiter arbiter c.proper_arbiters
      ∙ ground (arith, ==_refl arbiter) in
    elim (Bool-cases (introduce_clauses && not (contains c.proper_arbiters arbiter))) [
      | inl t ↦ (
        contains r.0.proper_arbiters arbiter,
        r.0,
        rw (t, r.1, introduce) refl,
        r.2,
        refl,
        ground (arith, proper),
        r.4,
        r.5,
      )
      | inr t ↦ (
        contains c.proper_arbiters arbiter,
        c,
        rw (t, introduce) refl,
        refl,
        refl,
        t,
        refl,
        omega arith,
      )
    ]

arbiter_kept :
    (e : ℕ) (annotation : List ℤ) (c c' : Container)
    → c'.existential_arbiter_map ≡ c.existential_arbiter_map
    → arbiter_of e annotation c' ≡ arbiter_of e annotation c
unfolding arbiter_of
arbiter_kept e annotation c c' h = ap (λ m. find_arbiter (at_or m e []) annotation) h

kept-AreOwned :
    (c c' : Container)
    → c'.existential_arbiter_map ≡ c.existential_arbiter_map
    → c'.arbiter_to_existential ≡ c.arbiter_to_existential
    → c.last_used_variable ≤ c'.last_used_variable
    → AreOwned c
    → AreOwned c'
kept-AreOwned c c' m x l o e annotation arbiter h =
    let old = o e annotation arbiter (sym (arbiter_kept e annotation c c' m) ∙ h) in
    (ap (λ y. at_or y arbiter 0) x ∙ old.0, omega (arith, old.1, l))

-- If each arbiter of the map is in use and belongs to the variable that it is found for, and the
-- variable has a disjunction, the call returns: the arbiter that the map has for the sorted assignment,
-- or else, if it has none and only then, a new one, which is the next variable. The arbiter is proper
-- where the call is to introduce clauses. Afterwards the map has the arbiter for the variable and the
-- assignment, what it has for others is as before, and its arbiters are in use and belong to their
-- variables again.
pub get_arbiter-value :
    (e : ℕ) (assignment : List ℤ) (introduce_clauses : Bool) (c : Container) (d : Disjunction)
    → AreOwned c
    → find c.forcing_disjunctions e ≡ some d
    → let sorted = sort_literals assignment in
      let found = arbiter_of e sorted c in
      let arbiter = known_or (c.last_used_variable + 1) found in
      (is_proper : Bool) × (c' : Container) × (get_arbiter e assignment introduce_clauses c
        ≡ some ((arbiter, is_unknown found, is_proper), c'))
      × (is_proper ≡ contains c'.proper_arbiters arbiter)
      × ((introduce_clauses && not is_proper) ≡ false)
      × (arbiter_of e sorted c' ≡ some arbiter)
      × ((e' : ℕ) (annotation : List ℤ)
          → (e == e' && eq_literals sorted annotation) ≡ false
          → arbiter_of e' annotation c' ≡ arbiter_of e' annotation c)
      × AreOwned c'
unfolding get_arbiter
get_arbiter-value e assignment introduce_clauses c d o f =
    let sorted = sort_literals assignment in
    let arbiter = known_or (c.last_used_variable + 1) (arbiter_of e sorted c) in
    let is_new = is_unknown (arbiter_of e sorted c) in
    let c₁ = (ensure_arbiter e sorted c).1 in
    let r = ensure_arbiter-IsEnsured e assignment c o in
    let s =
      introduce-value arbiter e is_new introduce_clauses c₁ d (r.3 e sorted arbiter r.0).0
        (ap (λ m. find m e) r.2 ∙ f) in
    let same : get_arbiter e assignment introduce_clauses c
        ≡ introduce arbiter is_new introduce_clauses c₁ =
      ap (λ x. introduce (or_zero x) (ensure_arbiter e sorted c).0 introduce_clauses c₁) r.0
      ∙ ap (λ x. introduce arbiter x introduce_clauses c₁) r.1 in
    (
      s.0,
      s.1,
      same ∙ s.2,
      s.4,
      s.5,
      arbiter_kept e sorted c₁ s.1 s.3 ∙ r.0,
      (λ e' annotation q. arbiter_kept e' annotation c₁ s.1 s.3 ∙ r.4 e' annotation q),
      kept-AreOwned c₁ s.1 s.3 s.6 s.7 r.3,
    )

found_again :
    (e : ℕ) (annotation : List ℤ) (arbiter : ℕ) (c : Container)
    → arbiter_of e annotation c ≡ some arbiter
    → ensure_arbiter e annotation c ≡ (false, c)
unfolding ensure_arbiter
found_again e annotation arbiter c f = rw (ensure_arbiter, existing e arbiter annotation c f) refl

answered_again :
    (arbiter : ℕ) (introduce_clauses : Bool) (c : Container)
    → (introduce_clauses && not (contains c.proper_arbiters arbiter)) ≡ false
    → introduce arbiter false introduce_clauses c
      ≡ some ((arbiter, false, contains c.proper_arbiters arbiter), c)
unfolding introduce
answered_again arbiter introduce_clauses c h = rw (introduce, h) refl

-- If each arbiter of the map is in use and belongs to the variable that it is found for, and the
-- variable has a disjunction, a call returns, and one that follows on it, for the same variable and
-- the same literals in any order, returns the same arbiter, which is then not new, and changes nothing;
-- the second call may be to introduce clauses only if the first one was.
pub get_arbiter-get_arbiter :
    (e : ℕ) (assignment assignment' : List ℤ) (introduce_clauses again : Bool) (c : Container)
    (d : Disjunction)
    → AreOwned c
    → find c.forcing_disjunctions e ≡ some d
    → sort_literals assignment' ≡ sort_literals assignment
    → (again && not introduce_clauses) ≡ false
    → (arbiter : ℕ) × (is_new : Bool) × (is_proper : Bool) × (c' : Container) × (get_arbiter e
          assignment introduce_clauses c
        ≡ some ((arbiter, is_new, is_proper), c'))
      × (get_arbiter e assignment' again c' ≡ some ((arbiter, false, is_proper), c'))
unfolding get_arbiter
get_arbiter-get_arbiter e assignment assignment' introduce_clauses again c d o f p q =
    let r = get_arbiter-value e assignment introduce_clauses c d o f in
    let sorted = sort_literals assignment in
    let arbiter = known_or (c.last_used_variable + 1) (arbiter_of e sorted c) in
    let c' = r.1 in
    let resorted : get_arbiter e assignment' again c' ≡ get_arbiter e assignment again c' =
      ap
        (λ s.
          introduce (or_zero (arbiter_of e s (ensure_arbiter e s c').1)) (ensure_arbiter e s c').0
            again (ensure_arbiter e s c').1)
        p in
    let found : get_arbiter e assignment again c' ≡ introduce arbiter false again c' =
      ap (λ x. introduce (or_zero (arbiter_of e sorted x.1)) x.0 again x.1)
        (found_again e sorted arbiter c' r.5)
      ∙ ap (λ x. introduce (or_zero x) false again c') r.5 in
    let enough : (again && not r.0) ≡ false = ground (arith, r.4, q) in
    let kept = answered_again arbiter again c' (ap (λ x. again && not x) (sym r.3) ∙ enough) in
    (
      arbiter,
      is_unknown (arbiter_of e sorted c),
      r.0,
      c',
      r.2,
      resorted ∙ found ∙ kept ∙ ap (λ x. some ((arbiter, false, x), c')) (sym r.3),
    )
