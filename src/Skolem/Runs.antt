-- ===== src/Skolem/Runs.antt =====
-- The encoding from its start: `initValidityCheckModel`, then calls of `addForcingClause`.
use pedant_solver.Base.{
  ℕ, zero, suc, ◌<◌, max, ◌≡◌, refl, sym, ap, ◌∙◌, Bool, true, false, not, ◌||◌, Option, none, some,
  List, [], ◌∷◌, arith, length, is_empty, all, All, get_or,
}
use pedant_solver.Base.Int.{ℤ, pos}
use pedant_solver.Base.Maps.{find, at_or}
use pedant_solver.Formula.{Clause, Assignment, eval_lit, eval_formula, IsClause}
use pedant_solver.Base.Sets.{contains, IsDistinct}
use pedant_solver.Literal.{var}
use pedant_solver.Aiger.{back}
use pedant_solver.Skolem.{
  Container, add_forcing_clause, init_variables, init_validity_check_model, init_model,
}
use pedant_solver.Skolem.Forcing.{meets, validity, meets-append}
use pedant_solver.Skolem.{call, max_of}
use pedant_solver.Skolem.Start.{added, contains-added, init_variables-IsEncoded}
use pedant_solver.Skolem.Encoding.{
  IsEncoded, fires_for, next, next-IsEncoded, add_forcing_clause-IsEncoded,
}

-- Calls of `addForcingClause`, each with its flag.
pub add_forcing_clauses : List (Clause × Bool) → Container → Option Container
add_forcing_clauses [] c = some c
add_forcing_clauses ((clause, reduced) ∷ more) c = elim (add_forcing_clause clause reduced c) [
  | none ↦ none
  | some c' ↦ add_forcing_clauses more c'
]

-- The clauses of the calls, the last one first.
pub joined : List (Clause × Bool) → List Clause → List Clause
joined [] clauses = clauses
joined ((clause, reduced) ∷ more) clauses = joined more (clause ∷ clauses)

-- Not empty, of literals, and forcing one of the variables.
abbrev pub IsForcing : List ℕ → Clause × Bool → Type 0
IsForcing existentials (clause, reduced) =
    IsClause clause × (is_empty clause ≡ false) × (contains existentials (var (back clause)) ≡ true)

add_forcing_clauses-IsEncoded :
    (calls : List (Clause × Bool)) (c : Container) (slot flag : ℕ → ℕ) (existentials : List ℕ)
    (clauses : List Clause)
    → IsEncoded c slot flag existentials clauses
    → All (IsForcing existentials) calls
    → (c' : Container) × (add_forcing_clauses calls c ≡ some c')
      × IsEncoded c' slot flag existentials (joined calls clauses)
unfolding add_forcing_clauses joined
add_forcing_clauses-IsEncoded [] c slot flag existentials clauses h f = (c, refl, h)
add_forcing_clauses-IsEncoded ((clause, reduced) ∷ more) c slot flag existentials clauses h f =
    let (hc, full, hv) = f.0 in
    let r =
      add_forcing_clauses-IsEncoded more
        (next c slot flag existentials clauses h clause reduced hc full hv) slot flag existentials
        (clause ∷ clauses)
        (next-IsEncoded c slot flag existentials clauses h clause reduced hc full hv) f.1 in
    (
      r.0,
      rw
          (
            add_forcing_clause-IsEncoded c slot flag existentials clauses h clause reduced hc full
                hv,
            add_forcing_clauses,
          )
          r.1,
      r.2,
    )

all-get_or :
    (p : ℤ → Bool) (xs : List ℤ) (i : ℕ)
    → i < length xs
    → all p xs ≡ true
    → p (get_or xs i (pos 0)) ≡ true
all-get_or p [] i h e = elim h [ ]
all-get_or p (x ∷ xs) zero h e = ground (arith, e)
all-get_or p (x ∷ xs) (suc i) h e = all-get_or p xs i (omega arith) (ground (arith, e))

nothing-IsEncoded : (c : Container) → IsEncoded c (λ e. 0) (λ e. 0) [] []
unfolding fires_for
nothing-IsEncoded c = record {
  found = λ e h. absurd (ground (arith, h));
  flagged = λ e h. absurd (ground (arith, h));
  flag_positive = λ e h. absurd (ground (arith, h));
  bound = λ e h. absurd (ground (arith, h));
  apart = λ e e' h h'. absurd (ground (arith, h));
  satisfied = λ a m. refl;
  excluded = λ a e h m. refl;
  covered = λ a e h m o. absurd (ground (arith, h));
}

-- A call that gives the validity checker no clause.
meets-init_model :
    (a : Assignment) (n : ℕ) (c : Container)
    → meets a (call (init_model n) c).calls ≡ true
    → meets a c.calls ≡ true
unfolding meets validity
meets-init_model a n c m = ground (arith, sym m ∙ meets-append a c.calls (init_model n ∷ []))

call-IsEncoded :
    (n : ℕ) (c : Container) (slot flag : ℕ → ℕ) (existentials : List ℕ)
    → IsEncoded c slot flag existentials []
    → IsEncoded (call (init_model n) c) slot flag existentials []
call-IsEncoded n c slot flag existentials h = record {
  found = h.found;
  flagged = h.flagged;
  flag_positive = h.flag_positive;
  bound = h.bound;
  apart = h.apart;
  satisfied = λ a m. refl;
  excluded = λ a e he m. h.excluded a e he (meets-init_model a n c m);
  covered = λ a e he m o. h.covered a e he (meets-init_model a n c m) o;
}

-- The variable that says that no forcing clause for `e` is active.
pub flag_of : Container → ℕ → ℕ
flag_of c e = at_or c.no_forcing_clause_active_variables e 0

flag_of-IsEncoded :
    (c : Container) (slot flag : ℕ → ℕ) (existentials : List ℕ) (clauses : List Clause)
    → IsEncoded c slot flag existentials clauses
    → (e : ℕ) → contains existentials e ≡ true
    → flag_of c e ≡ flag e
unfolding flag_of at_or
flag_of-IsEncoded c slot flag existentials clauses h e he = rw (h.flagged e he, flag_of, at_or) refl

both_ways : (x f : Bool) → (not f || not x) ≡ true → (x || f) ≡ true → x ≡ not f
both_ways x f h k = ground (arith, h, k)

-- The same at each variable of a list.
everywhere :
    (a : Assignment) (c : Container) (clauses : List Clause) (existentials : List ℕ)
    → ((e : ℕ) → contains existentials e ≡ true → a (flag_of c e) ≡ not (fires_for a e clauses))
    → All (λ e. a (flag_of c e) ≡ not (fires_for a e clauses)) existentials
everywhere a c clauses [] h = tt
everywhere a c clauses (e ∷ existentials) h =
    (h e (ground arith), everywhere a c clauses existentials (λ x hx. h x (ground (arith, hx))))

decided :
    (a : Assignment) (c : Container) (slot flag : ℕ → ℕ) (existentials : List ℕ)
    (clauses : List Clause)
    → IsEncoded c slot flag existentials clauses
    → meets a c.calls ≡ true
    → all (eval_lit a) c.validity_check_assumptions ≡ true
    → (e : ℕ) → contains existentials e ≡ true
    → a (flag_of c e) ≡ not (fires_for a e clauses)
decided a c slot flag existentials clauses h m o e he =
    ap a (flag_of-IsEncoded c slot flag existentials clauses h e he)
    ∙ both_ways (a (flag e)) (fires_for a e clauses) (h.excluded a e he m) (
        h.covered a e he m
          (all-get_or (eval_lit a) c.validity_check_assumptions (slot e) (h.bound e he) o))

relist :
    (existentials : List ℕ) (calls : List (Clause × Bool))
    → All (IsForcing existentials) calls
    → All (IsForcing (added existentials [])) calls
relist existentials [] f = tt
relist existentials ((clause, reduced) ∷ calls) f = (
  (f.0.0, f.0.1, contains-added existentials [] (var (back clause)) ∙ ground (arith, f.0.2)),
  relist existentials calls f.1,
)

every_new : (existentials : List ℕ) → All (λ x. contains [] x ≡ false) existentials
every_new [] = tt
every_new (e ∷ existentials) = (refl, every_new existentials)

-- From a container without disjunctions, the model is set up for different existential variables and
-- gets clauses that force these variables. All calls return. An assignment that satisfies the clauses
-- given to the validity checker and the assumptions satisfies the forcing clauses, and makes the
-- flag of an existential variable true exactly where none of its forcing clauses fires.
pub init_validity_check_model-value :
    (existentials universals : List ℕ) (calls : List (Clause × Bool)) (c : Container)
    → c.forcing_disjunctions ≡ []
    → IsDistinct existentials
    → All (IsForcing existentials) calls
    → (c' : Container) × (add_forcing_clauses calls
          (init_validity_check_model existentials universals c)
        ≡ some c')
      × ((a : Assignment)
          → meets a c'.calls ≡ true
          → all (eval_lit a) c'.validity_check_assumptions ≡ true
          → (eval_formula a (joined calls []) ≡ true)
            × All (λ e. a (flag_of c' e) ≡ not (fires_for a e (joined calls []))) existentials)
unfolding init_validity_check_model find
init_validity_check_model-value existentials universals calls c n d f =
    let s =
      init_variables-IsEncoded existentials c (λ e. 0) (λ e. 0) [] (nothing-IsEncoded c) d
        (every_new existentials) (λ x hx. ap (λ m. find m x) n) in
    let started =
      call-IsEncoded (max (max_of universals) (max_of existentials)) (init_variables existentials c)
        s.0 s.1 (added existentials []) s.2 in
    let r =
      add_forcing_clauses-IsEncoded calls _ s.0 s.1 (added existentials []) [] started
        (relist existentials calls f) in
    (
      r.0,
      r.1,
      λ a m o. (
        r.2.satisfied a m,
        everywhere a r.0 (joined calls []) existentials (λ e he.
            decided a r.0 s.0 s.1 (added existentials []) (joined calls []) r.2 m o e
              (contains-added existentials [] e ∙ ground (arith, he))),
      ),
    )
