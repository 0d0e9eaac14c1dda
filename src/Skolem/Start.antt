-- ===== src/Skolem/Start.antt =====
-- The encoding at its start, by `initValidityCheckModel`.
use pedant_solver.Base.{
  ℕ, ◌+◌, ◌<◌, ◌≡◌, refl, sym, ap, ◌∙◌, subst, ◌⊎◌, inl, inr, true, false, ◌||◌, none, some, List,
  [], ◌∷◌, ◌++◌, arith, ◌==◌, if◌then◌else◌, Bool-cases, length, set, All, length-append,
  length-set, get_or, get_or-set_self, get_or-set_ne, get_or-append_left,
}
use pedant_solver.Base.Int.{ℤ, pos, neg}
use pedant_solver.Base.Maps.{find, at_or, find-assign}
use pedant_solver.Formula.{Assignment, eval_lit, eval_lit-neg}
use pedant_solver.Base.Sets.{contains, IsDistinct}
use pedant_solver.Disjunction.{Disjunction, new_disjunction, create_disjunct, close_disjunct}
use pedant_solver.Skolem.{
  Container, init_with, init_variable, init_variables, set_no_forcing_clause_active_variable,
  add_clause_validity_check,
}
use pedant_solver.Skolem.Forcing.{meets, validity, meets-append, eval_pos}
use pedant_solver.Skolem.Encoding.{IsEncoded, fires_for, assumption}

-- Slots and flags with those of a new variable.
abbrev pub extend : ℕ → ℕ → (ℕ → ℕ) → ℕ → ℕ
extend e n f x = if e == x then n else f x

extend_self : (e n : ℕ) (f : ℕ → ℕ) (x : ℕ) → (e == x) ≡ true → extend e n f x ≡ n
extend_self e n f x q = rw q refl

extend_ne : (e n : ℕ) (f : ℕ → ℕ) (x : ℕ) → (e == x) ≡ false → extend e n f x ≡ f x
extend_ne e n f x q = rw q refl

-- The assumptions with the terminal of a new disjunction and a flag for the use of the default.
abbrev pub two_more : List ℤ → ℤ → ℤ → List ℤ
two_more assumptions t u = set (assumptions ++ pos 0 ∷ []) (length assumptions) t ++ u ∷ []

length-two_more :
    (assumptions : List ℤ) (t u : ℤ) → length (two_more assumptions t u) ≡ length assumptions + 2
length-two_more assumptions t u = omega (
  arith,
  length-append (set (assumptions ++ pos 0 ∷ []) (length assumptions) t) (u ∷ []),
  length-set (assumptions ++ pos 0 ∷ []) (length assumptions) t,
  length-append assumptions (pos 0 ∷ []),
)

get_or-two_more :
    (assumptions : List ℤ) (t u : ℤ)
    → get_or (two_more assumptions t u) (length assumptions) (pos 0) ≡ t
get_or-two_more assumptions t u =
    let wide : length (assumptions ++ pos 0 ∷ []) ≡ length assumptions + 1 =
      omega (arith, length-append assumptions (pos 0 ∷ [])) in
    get_or-append_left (set (assumptions ++ pos 0 ∷ []) (length assumptions) t) (u ∷ [])
      (length assumptions) (pos 0)
      (omega (arith, wide, length-set (assumptions ++ pos 0 ∷ []) (length assumptions) t))
    ∙ get_or-set_self (assumptions ++ pos 0 ∷ []) (length assumptions) t (pos 0)
        (omega (arith, wide))

get_or-two_more_ne :
    (assumptions : List ℤ) (t u : ℤ) (i : ℕ)
    → i < length assumptions
    → get_or (two_more assumptions t u) i (pos 0) ≡ get_or assumptions i (pos 0)
get_or-two_more_ne assumptions t u i h =
    let wide : length (assumptions ++ pos 0 ∷ []) ≡ length assumptions + 1 =
      omega (arith, length-append assumptions (pos 0 ∷ [])) in
    get_or-append_left (set (assumptions ++ pos 0 ∷ []) (length assumptions) t) (u ∷ []) i (pos 0)
      (omega (arith, h, wide, length-set (assumptions ++ pos 0 ∷ []) (length assumptions) t))
    ∙ get_or-set_ne (assumptions ++ pos 0 ∷ []) (length assumptions) i t (pos 0)
        (λ q. omega (arith, h, q))
    ∙ get_or-append_left assumptions (pos 0 ∷ []) i (pos 0) h

-- The variables that have no disjunction yet.
abbrev pub AreUnknown : Container → List ℕ → Type 0
AreUnknown c existentials =
    (x : ℕ) → contains existentials x ≡ false → find c.forcing_disjunctions x ≡ none

abbrev first_time : ℕ → Container → Container
first_time = init_with new_disjunction

module _ (e : ℕ) (c : Container) (slot flag : ℕ → ℕ) (existentials : List ℕ)
    (h : IsEncoded c slot flag existentials []) (fresh : contains existentials e ≡ false)
    (unknown : AreUnknown c existentials) where
  abbrev pub slot' : ℕ → ℕ
  slot' = extend e (length c.validity_check_assumptions) slot

  abbrev pub flag' : ℕ → ℕ
  flag' = extend e (c.last_used_variable + 1) flag

  member :
      (x : ℕ)
      → contains (e ∷ existentials) x ≡ true
      → ((e == x) ≡ true) ⊎ (((e == x) ≡ false) × (contains existentials x ≡ true))
  member x hx = elim (Bool-cases (e == x)) [
    | inl q ↦ inl q
    | inr q ↦ inr (q, ground (arith, hx, q))
  ]

  init_found :
      (x : ℕ)
      → contains (e ∷ existentials) x ≡ true
      → find (first_time e c).forcing_disjunctions x
        ≡ some (record { terminal_index = some (slot' x) })
  unfolding init_with create_disjunct close_disjunct
  init_found x hx =
      let d : Disjunction = record {
        terminal_index = some (length c.validity_check_assumptions);
      } in
      elim (member x hx) [
        | inl q ↦ find-assign c.forcing_disjunctions e x d ∙ rw q refl
        | inr q ↦ find-assign c.forcing_disjunctions e x d ∙ rw q.0 (h.found x q.1)
      ]

  init_unknown_first : AreUnknown (first_time e c) (e ∷ existentials)
  unfolding init_with create_disjunct close_disjunct
  init_unknown_first x hx =
      let d : Disjunction = record {
        terminal_index = some (length c.validity_check_assumptions);
      } in
      let apart : (e == x) ≡ false = ground (arith, hx) in
      find-assign c.forcing_disjunctions e x d ∙ rw apart (unknown x (ground (arith, hx)))

  init_flagged :
      (x : ℕ)
      → contains (e ∷ existentials) x ≡ true
      → find (first_time e c).no_forcing_clause_active_variables x ≡ some (flag' x)
  unfolding init_with create_disjunct close_disjunct
  init_flagged x hx =
      let r = find-assign c.no_forcing_clause_active_variables e x (c.last_used_variable + 1) in
      elim (member x hx) [ inl q ↦ r ∙ rw q refl | inr q ↦ r ∙ rw q.0 (h.flagged x q.1) ]

  init_positive : (x : ℕ) → contains (e ∷ existentials) x ≡ true → 0 < flag' x
  init_positive x hx = elim (member x hx) [
    | inl q ↦ rw q (omega arith)
    | inr q ↦ rw q.0 (h.flag_positive x q.1)
  ]

  init_bound :
      (x : ℕ)
      → contains (e ∷ existentials) x ≡ true
      → slot' x < length (first_time e c).validity_check_assumptions
  unfolding init_with create_disjunct close_disjunct
  init_bound x hx =
      let n =
        length-two_more c.validity_check_assumptions (neg (pos (c.last_used_variable + 1 + 1)))
          (pos (c.last_used_variable + 1 + 1 + 1 + 1)) in
      elim (member x hx) [
        | inl q ↦ rw q (omega (arith, n))
        | inr q ↦ rw q.0 (omega (arith, n, h.bound x q.1))
      ]

  init_apart :
      (x y : ℕ)
      → contains (e ∷ existentials) x ≡ true
      → contains (e ∷ existentials) y ≡ true
      → (slot' x == slot' y) ≡ (x == y)
  init_apart x y hx hy = elim (member x hx) [
    | inl q ↦ elim (member y hy) [
      | inl q' ↦ ground (arith, q, q')
      | inr q' ↦ ground (arith, q, q'.0, h.bound y q'.1)
    ]
    | inr q ↦ elim (member y hy) [
      | inl q' ↦ ground (arith, q.0, q', h.bound x q.1)
      | inr q' ↦ ground (arith, q.0, q'.0, h.apart x y q.1 q'.1)
    ]
  ]

  init_covered :
      (a : Assignment) (x : ℕ)
      → contains (e ∷ existentials) x ≡ true
      → meets a (first_time e c).calls ≡ true
      → eval_lit a (assumption (first_time e c) (slot' x)) ≡ true
      → a (flag' x) ≡ true
  unfolding init_with create_disjunct close_disjunct meets validity
  init_covered a x hx m o =
      let n = c.last_used_variable + 1 in
      let t = n + 1 in
      let u = t + 1 + 1 in
      let clause = pos n ∷ pos t ∷ [] in
      let more = two_more c.validity_check_assumptions (neg (pos t)) (pos u) in
      let split =
        sym m
        ∙ meets-append a c.calls (
            set_no_forcing_clause_active_variable e n
            ∷ add_clause_validity_check e clause
            ∷ add_clause_validity_check e (neg (pos n) ∷ neg (pos u) ∷ pos (t + 1) ∷ [])
            ∷ []) in
      elim (member x hx) [
        | inl q ↦
            let o' : eval_lit a (neg (pos t)) ≡ true =
              sym (
                ap (λ i. eval_lit a (get_or more i (pos 0)))
                  (extend_self e (length c.validity_check_assumptions) slot x q)
                ∙ ap (eval_lit a)
                    (get_or-two_more c.validity_check_assumptions (neg (pos t)) (pos u)))
              ∙ o in
            let on : a n ≡ true = ground (
              arith,
              split,
              o',
              eval_lit-neg a (pos t) (omega arith),
              eval_pos a t (omega arith),
              eval_pos a n (omega arith),
            ) in
            rw q on
        | inr q ↦
            let o' : eval_lit a (assumption c (slot x)) ≡ true =
              sym (
                ap (λ i. eval_lit a (get_or more i (pos 0)))
                  (extend_ne e (length c.validity_check_assumptions) slot x q.0)
                ∙ ap (eval_lit a) (
                    get_or-two_more_ne c.validity_check_assumptions (neg (pos t)) (pos u) (slot x)
                      (h.bound x q.1)))
              ∙ o in
            let old = h.covered a x q.1 (ground (arith, split)) o' in
            rw q.0 (unfold fires_for in (ground (arith, old)))
      ]

  first_time-IsEncoded : IsEncoded (first_time e c) slot' flag' (e ∷ existentials) []
  first_time-IsEncoded = record {
    found = init_found;
    flagged = init_flagged;
    flag_positive = init_positive;
    bound = init_bound;
    apart = init_apart;
    satisfied = λ a m. refl;
    excluded = λ a x hx m. unfold fires_for in refl;
    covered = λ a x hx m o. unfold fires_for in (ground (arith, init_covered a x hx m o));
  }

  -- A variable without a disjunction gets a new one.
  init_variable-new : init_variable e c ≡ first_time e c
  unfolding init_variable
  init_variable-new =
      let none_yet : at_or c.forcing_disjunctions e new_disjunction ≡ new_disjunction =
        unfold at_or in rw (at_or, unknown e fresh) refl in
      ap (λ d. init_with d e c) none_yet

  pub init_unknown : AreUnknown (init_variable e c) (e ∷ existentials)
  init_unknown =
      subst (λ c'. AreUnknown c' (e ∷ existentials)) (sym init_variable-new) init_unknown_first

  pub init_variable-IsEncoded : IsEncoded (init_variable e c) slot' flag' (e ∷ existentials) []
  init_variable-IsEncoded =
      subst (λ c'. IsEncoded c' slot' flag' (e ∷ existentials) []) (sym init_variable-new)
        first_time-IsEncoded

-- The variables of a list, one after another, before others.
abbrev pub added : List ℕ → List ℕ → List ℕ
added [] existentials = existentials
added (e ∷ more) existentials = added more (e ∷ existentials)

pub contains-added :
    (more existentials : List ℕ) (x : ℕ)
    → contains (added more existentials) x ≡ (contains more x || contains existentials x)
contains-added [] existentials x = refl
contains-added (e ∷ more) existentials x = contains-added more (e ∷ existentials) x ∙ ground arith

still_new :
    (e : ℕ) (more existentials : List ℕ)
    → contains more e ≡ false
    → All (λ x. contains existentials x ≡ false) more
    → All (λ x. contains (e ∷ existentials) x ≡ false) more
still_new e [] existentials h f = tt
still_new e (x ∷ more) existentials h f =
    (ground (arith, h, f.0), still_new e more existentials (ground (arith, h)) f.1)

pub init_variables-IsEncoded :
    (more : List ℕ) (c : Container) (slot flag : ℕ → ℕ) (existentials : List ℕ)
    → IsEncoded c slot flag existentials []
    → IsDistinct more
    → All (λ x. contains existentials x ≡ false) more
    → AreUnknown c existentials
    → (slots : ℕ → ℕ) × (flags : ℕ → ℕ) × IsEncoded
        (init_variables more c)
        slots
        flags
        (added more existentials)
        []
unfolding init_variables
init_variables-IsEncoded [] c slot flag existentials h d f u = (slot, flag, h)
init_variables-IsEncoded (e ∷ more) c slot flag existentials h d f u =
    init_variables-IsEncoded more (init_variable e c) (slot' e c slot flag existentials h f.0 u)
      (flag' e c slot flag existentials h f.0 u) (e ∷ existentials)
      (init_variable-IsEncoded e c slot flag existentials h f.0 u) d.1
      (still_new e more existentials d.0 f.1) (init_unknown e c slot flag existentials h f.0 u)
