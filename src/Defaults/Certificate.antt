-- ===== src/Defaults/Certificate.antt =====
-- The certificate after a run of the operations that change default values.
use pedant_solver.Base.{
  ℕ, ◌≡◌, refl, ap, ◌∙◌, subst, inl, inr, Bool, true, false, ◌&&◌, ◌||◌, Option, none, some, List,
  [], ◌∷◌, arith, ◌==◌, if◌then◌else◌, Bool-cases, ==_iff, All,
}
use pedant_solver.Base.Int.{ℤ, pos, neg, is_pos}
use pedant_solver.Base.Maps.{Map, find, assign, find-assign}
use pedant_solver.Base.Sets.{contains, IsDistinct}
use pedant_solver.Formula.{Clause}
use pedant_solver.Literal.{var}
use pedant_solver.Defaults.{
  Defaults, use_default, set_fixed_default_polarity, insert_conflict, initialize, certificate_loop,
  get_certificate,
}
use pedant_solver.Defaults.Polarity.{
  HasPolarity, HasPolarity-empty, HasPolarity-agree, with_polarity, repolarized,
  set_fixed_default_polarity_unchecked-HasPolarity, repolarized-HasPolarity, initialize-HasPolarity,
}

-- A call: a polarity that is set, or a conflict that is inserted.
pub data Event : Type 0 where
  set_polarity : ℕ → Bool → Event
  conflict : ℤ → Event

pub call : Event → Defaults → Option Defaults
unfolding insert_conflict
call (set_polarity v b) d = set_fixed_default_polarity v b d
call (conflict l) d = elim (insert_conflict l d) [ none ↦ none | some (clauses, d') ↦ some d' ]

pub run : List Event → Defaults → Option Defaults
run [] d = some d
run (e ∷ events) d = elim (call e d) [ none ↦ none | some d' ↦ run events d' ]

-- The polarities, as calls change them.
abbrev pub after : Event → (ℕ → Bool) → ℕ → Bool
after (set_polarity v b) polarity = with_polarity polarity v b
after (conflict l) polarity = with_polarity polarity (var l) (is_pos l)

abbrev pub after_all : List Event → (ℕ → Bool) → ℕ → Bool
after_all [] polarity = polarity
after_all (e ∷ events) polarity = after_all events (after e polarity)

-- The container that a call of polarity `b` for `v` leaves.
abbrev left : ℕ → Bool → Defaults → Defaults
left v b d = if use_default v d then repolarized v b d else d

unchanged :
    (v : ℕ) (b : Bool) (d : Defaults) (polarity : ℕ → Bool)
    → use_default v d ≡ false
    → (w : ℕ) → use_default w d ≡ true
    → polarity w ≡ with_polarity polarity v b w
unchanged v b d polarity e w hw = elim (Bool-cases (w == v)) [
  | inl q ↦
      let hv = subst (λ x. use_default x d ≡ true) ((==_iff w v).0 q) hw in
      absurd (ground (arith, hv, e))
  | inr q ↦ rw q refl
]

left-HasPolarity :
    (v : ℕ) (b : Bool) (d : Defaults) (polarity : ℕ → Bool)
    → HasPolarity d polarity
    → HasPolarity (left v b d) (with_polarity polarity v b)
left-HasPolarity v b d polarity h = elim (Bool-cases (use_default v d)) [
  | inl e ↦ rw e (repolarized-HasPolarity d polarity h v e b)
  | inr e ↦
      rw e
        (HasPolarity-agree d polarity (with_polarity polarity v b) (unchanged v b d polarity e) h)
]

left-variables :
    (v : ℕ) (b : Bool) (d : Defaults)
    → (left v b d).variables_with_defaults ≡ d.variables_with_defaults
left-variables v b d = elim (Bool-cases (use_default v d)) [
  | inl e ↦ rw e (unfold repolarized in refl)
  | inr e ↦ rw e refl
]

abbrev pub container : Event → Defaults → Defaults
container (set_polarity v b) d = left v b d
container (conflict l) d = left (var l) (is_pos l) d

call-HasPolarity :
    (e : Event) (d : Defaults) (polarity : ℕ → Bool)
    → HasPolarity d polarity
    → call e d ≡ some (container e d)
unfolding call set_fixed_default_polarity insert_conflict
call-HasPolarity (set_polarity v b) d polarity h = elim (Bool-cases (use_default v d)) [
  | inl e ↦ rw e (set_fixed_default_polarity_unchecked-HasPolarity d polarity h v e b)
  | inr e ↦ rw e refl
]
call-HasPolarity (conflict l) d polarity h = elim (Bool-cases (use_default (var l) d)) [
  | inl e ↦
      rw
        (
          e,
          set_fixed_default_polarity_unchecked-HasPolarity d polarity h (var l) e (is_pos l),
          call,
          insert_conflict,
        )
        refl
  | inr e ↦ rw (e, call, insert_conflict) refl
]

left-use : (v : ℕ) (b : Bool) (d : Defaults) (w : ℕ) → use_default w (left v b d) ≡ use_default w d
left-use v b d w = ap (λ l. contains l w) (left-variables v b d)

container-HasPolarity :
    (e : Event) (d : Defaults) (polarity : ℕ → Bool)
    → HasPolarity d polarity
    → HasPolarity (container e d) (after e polarity)
container-HasPolarity (set_polarity v b) d polarity h = left-HasPolarity v b d polarity h
container-HasPolarity (conflict l) d polarity h = left-HasPolarity (var l) (is_pos l) d polarity h

container-use : (e : Event) (d : Defaults) (w : ℕ) → use_default w (container e d) ≡ use_default w d
container-use (set_polarity v b) d w = left-use v b d w
container-use (conflict l) d w = left-use (var l) (is_pos l) d w

-- Where the selectors stand for polarities, calls of the two methods that change them return and
-- leave selectors for the polarities as the calls changed them, of the same variables.
pub run-HasPolarity :
    (events : List Event) (d : Defaults) (polarity : ℕ → Bool)
    → HasPolarity d polarity
    → (d' : Defaults) × (run events d ≡ some d')
      × HasPolarity d' (after_all events polarity)
      × ((w : ℕ) → use_default w d' ≡ use_default w d)
unfolding run
run-HasPolarity [] d polarity h = (d, refl, h, λ w. refl)
run-HasPolarity (e ∷ events) d polarity h =
    let r =
      run-HasPolarity events (container e d) (after e polarity)
        (container-HasPolarity e d polarity h) in
    (r.0, rw (call-HasPolarity e d polarity h, run) r.1, r.2, λ w. r.3 w ∙ container-use e d w)

-- The clauses for a variable of a polarity.
abbrev pub constant_clause : ℕ → Bool → List Clause
constant_clause v b = (if b then pos v ∷ [] else neg (pos v) ∷ []) ∷ []

certificate_map : List ℕ → Defaults → (ℕ → Bool) → Map (List Clause) → Map (List Clause)
certificate_map [] d polarity result = result
certificate_map (v ∷ existentials) d polarity result =
    if use_default v d
    then certificate_map existentials d polarity (assign result v (constant_clause v (polarity v)))
    else certificate_map existentials d polarity result

certificate_loop-HasPolarity :
    (existentials : List ℕ) (d : Defaults) (polarity : ℕ → Bool) (result : Map (List Clause))
    → HasPolarity d polarity
    → certificate_loop existentials d result ≡ some (certificate_map existentials d polarity result)
unfolding certificate_loop certificate_map
certificate_loop-HasPolarity [] d polarity result h = refl
certificate_loop-HasPolarity (v ∷ existentials) d polarity result h =
    elim (Bool-cases (use_default v d)) [
      | inl e ↦
          rw
            (
              e,
              h.selected.positive_found v e,
              (h.selected.positive_literal v e).1,
              certificate_loop,
              certificate_map,
            )
            (certificate_loop-HasPolarity existentials d polarity _ h)
      | inr e ↦ rw e (certificate_loop-HasPolarity existentials d polarity result h)
    ]

choose : {A : Type 0} (c : Bool) (x y : A) → y ≡ x → (if c && true then x else y) ≡ x
choose true x y e = refl
choose false x y e = e

choose_false : {A : Type 0} (c : Bool) (x y : A) → (if c && false then x else y) ≡ y
choose_false true x y = refl
choose_false false x y = refl

twice :
    {A : Type 0} (c u : Bool) (x : Option A)
    → (if c && (c && u) then x else none) ≡ (if c && u then x else none)
twice true u x = refl
twice false u x = refl

none_used :
    (existentials : List ℕ) (d : Defaults)
    → d.variables_with_defaults ≡ []
    → All (λ v. use_default v d ≡ false) existentials
none_used [] d n = tt
none_used (v ∷ existentials) d n = (ap (λ l. contains l v) n, none_used existentials d n)

find-certificate_map :
    (existentials : List ℕ) (d : Defaults) (polarity : ℕ → Bool) (result : Map (List Clause))
    (w : ℕ)
    → find (certificate_map existentials d polarity result) w ≡ (
        if contains existentials w && use_default w d
        then some (constant_clause w (polarity w))
        else find result w)
unfolding certificate_map
find-certificate_map [] d polarity result w = refl
find-certificate_map (v ∷ existentials) d polarity result w =
    let constant : ℕ → Option (List Clause) = λ x. some (constant_clause x (polarity x)) in
    let result' = assign result v (constant_clause v (polarity v)) in
    let with = find-certificate_map existentials d polarity result' w in
    let without = find-certificate_map existentials d polarity result w in
    let here = find-assign result v w (constant_clause v (polarity v)) in
    elim (Bool-cases (use_default v d)) [
      | inl e ↦ elim (Bool-cases (v == w)) [
        | inl q ↦
            let same = (==_iff v w).0 q in
            let used = subst (λ x. use_default x d ≡ true) same e in
            rw (e, q, used)
              (with
                ∙ rw used (
                    choose (contains existentials w) (constant w) _
                      (here ∙ rw q (ap constant same))))
        | inr q ↦
            rw (e, q)
              (with
                ∙ ap (λ o. if contains existentials w && use_default w d then constant w else o)
                    (here ∙ rw q refl))
      ]
      | inr e ↦ elim (Bool-cases (v == w)) [
        | inl q ↦
            let unused = subst (λ x. use_default x d ≡ false) ((==_iff v w).0 q) e in
            rw (e, q, unused)
              (without
                ∙ rw unused (choose_false (contains existentials w) (constant w) (find result w)))
        | inr q ↦ rw (e, q) without
      ]
    ]

-- In a container without variables, the undefined ones of different existential variables get
-- defaults. After any calls of the two methods that change polarities, which all return, the
-- certificate is computed: it has for each of these variables the one clause of the polarity that
-- the calls left, true where there was none, and nothing for other variables.
pub get_certificate-value :
    (undefined_variables existentials : List ℕ) (d : Defaults) (events : List Event)
    → d.variables_with_defaults ≡ []
    → IsDistinct existentials
    → (d' : Defaults) × (m : Map (List Clause)) × (run events
          (initialize undefined_variables existentials d).1
        ≡ some d')
      × (get_certificate existentials d' ≡ some m)
      × ((w : ℕ)
          → find m w ≡ (
              if contains existentials w && contains undefined_variables w
              then some (constant_clause w (after_all events (λ x. true) w))
              else none))
unfolding get_certificate
get_certificate-value undefined_variables existentials d events n di =
    let polarity = after_all events (λ x. true) in
    let start =
      initialize-HasPolarity undefined_variables existentials d di (none_used existentials d n)
        (HasPolarity-empty d (λ x. true) n) in
    let r =
      run-HasPolarity events (initialize undefined_variables existentials d).1 (λ x. true)
        start.0 in
    (
      r.0,
      certificate_map existentials r.0 polarity [],
      r.1,
      certificate_loop-HasPolarity existentials r.0 polarity [] r.2,
      λ w.
          find-certificate_map existentials r.0 polarity [] w
          ∙ ap
              (λ u.
                if contains existentials w && u
                then some (constant_clause w (polarity w))
                else none)
              (r.3 w
                ∙ start.1 w
                ∙ ap
                    (λ l.
                      contains l w || (contains existentials w && contains undefined_variables w))
                    n)
          ∙ twice (contains existentials w) (contains undefined_variables w)
              (some (constant_clause w (polarity w))),
    )
