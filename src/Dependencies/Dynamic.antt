-- ===== src/Dependencies/Dynamic.antt =====
-- `computeDynamicDependencies` and `getExtendedDependencies` of dependencycontainer.cc: of a variable
-- with a definition the extended dependencies are collected through its support. The recursion runs
-- on fuel, which must exceed the depth of the definitions.
use pedant_solver.Base.{
  ℕ, zero, suc, ◌<◌, ◌≡◌, refl, sym, ap, ◌∙◌, subst, ◌≢◌, ◌⊎◌, inl, inr, Bool, true, false, not,
  ◌&&◌, ◌||◌, Option, none, some, List, [], ◌∷◌, arith, ◌==◌, if◌then◌else◌, Bool-cases,
  Option-cases, any,
}
use pedant_solver.Base.Sets.{
  contains, IsAscending, insert_all, contains-insert_all, insert_all-IsAscending,
}
use pedant_solver.Base.Maps.{find}
use pedant_solver.Dependencies.{Container}

-- What a variable of the support contributes: itself if it is universal, or its own extended
-- dependencies; `call` is the recursive call, `none` a fault in it or in `at`.
unfoldable pub contributes : (ℕ → Option (List ℕ)) → List ℕ → Container → ℕ → Option (List ℕ)
contributes call universals c v =
    if contains universals v
    then some (v ∷ [])
    else if contains c.to_compute v
    then call v
    else find c.extended v

-- The loop over the support.
unfoldable pub collect :
    (ℕ → Option (List ℕ)) → List ℕ → Container → List ℕ → List ℕ → Option (List ℕ)
unfolding contributes
collect call universals c [] result = some result
collect call universals c (v ∷ support) result = elim (contributes call universals c v) [
  | none ↦ none
  | some deps ↦ collect call universals c support (insert_all deps result)
]

unfoldable pub compute_dynamic_dependencies : ℕ → List ℕ → Container → ℕ → Option (List ℕ)
unfolding collect
compute_dynamic_dependencies zero universals c v = none
compute_dynamic_dependencies (suc fuel) universals c v =
    let call = compute_dynamic_dependencies fuel universals c in
    elim (find c.supports v) [
      | none ↦ none
      | some support ↦ collect call universals c support (insert_all support [])
    ]

unfoldable pub get_extended_dependencies : ℕ → List ℕ → Container → ℕ → Option (List ℕ)
unfolding compute_dynamic_dependencies
get_extended_dependencies fuel universals c v =
    if contains c.to_compute v
    then compute_dynamic_dependencies fuel universals c v
    else find c.extended v

some_inj : (a b : List ℕ) → some a ≡ some b → a ≡ b
some_inj a b e = cc

abbrev pub or_empty : Option (List ℕ) → List ℕ
or_empty none = []
or_empty (some deps) = deps

module _ (call : ℕ → Option (List ℕ)) (u : List ℕ) (c : Container) where
  collect-none :
      (v : ℕ) (support result : List ℕ)
      → contributes call u c v ≡ none
      → collect call u c (v ∷ support) result ≡ none
  unfolding collect
  collect-none v support result e = rw (e, collect)

  collect-some :
      (v : ℕ) (support result deps : List ℕ)
      → contributes call u c v ≡ some deps
      → collect call u c (v ∷ support) result ≡ collect call u c support (insert_all deps result)
  unfolding collect
  collect-some v support result deps e = rw (e, collect)

  -- Every contribution is there, so the loop ends with a result.
  collect_total :
      (support result : List ℕ)
      → ((v : ℕ) → contains support v ≡ true → contributes call u c v ≢ none)
      → (r : List ℕ) × (collect call u c support result ≡ some r)
  collect_total [] result h = (result, unfold collect in refl)
  collect_total (v ∷ support) result h = elim (Option-cases (contributes call u c v)) [
    | inl e ↦ absurd (h v (ground arith) e)
    | inr (deps, e) ↦
        rw (collect-some v support result deps e)
          (collect_total support (insert_all deps result) (λ w m. h w (ground arith)))
  ]

  contains-collect :
      (support result r : List ℕ) (w : ℕ)
      → collect call u c support result ≡ some r
      → contains r w
        ≡ (any (λ v. contains (or_empty (contributes call u c v)) w) support || contains result w)
  contains-collect [] result r w e = unfold collect in ground arith
  contains-collect (v ∷ support) result r w e = elim (Option-cases (contributes call u c v)) [
    | inl n ↦ absurd (ground (arith, collect-none v support result n))
    | inr (deps, m) ↦ ground (
      arith,
      collect-some v support result deps m,
      contains-collect support (insert_all deps result) r w,
      contains-insert_all deps result w,
    )
  ]

  collect-IsAscending :
      (support result r : List ℕ)
      → IsAscending result
      → collect call u c support result ≡ some r
      → IsAscending r
  collect-IsAscending [] result r h e = unfold collect in subst IsAscending (some_inj result r e) h
  collect-IsAscending (v ∷ support) result r h e = elim (Option-cases (contributes call u c v)) [
    | inl n ↦ absurd (ground (arith, collect-none v support result n))
    | inr (deps, m) ↦
        collect-IsAscending support (insert_all deps result) r
          (insert_all-IsAscending deps result h) (sym (collect-some v support result deps m) ∙ e)
  ]

-- The loop reads the recursive call at the elements of the support only.
collect_ext :
    (f g : ℕ → Option (List ℕ)) (u : List ℕ) (c : Container) (support result : List ℕ)
    → ((v : ℕ) → contains support v ≡ true → contributes f u c v ≡ contributes g u c v)
    → collect f u c support result ≡ collect g u c support result
collect_ext f g u c [] result h = unfold collect in refl
collect_ext f g u c (v ∷ support) result h = elim (Option-cases (contributes g u c v)) [
  | inl n ↦
      collect-none f u c v support result (h v (ground arith) ∙ n)
      ∙ sym (collect-none g u c v support result n)
  | inr (deps, m) ↦
      collect-some f u c v support result deps (h v (ground arith) ∙ m)
      ∙ collect_ext f g u c support (insert_all deps result) (λ w k. h w (ground arith))
      ∙ sym (collect-some g u c v support result deps m)
]

-- The definitions are acyclic, as a rank of the variables shows: every variable with a definition
-- has a support, and the existential variables of a support have extended dependencies of their own
-- or are defined with a lower rank.
pub record IsStratified (u : List ℕ) (c : Container) (rank : ℕ → ℕ) : Type 0 where
  pub supported : (v : ℕ) → contains c.to_compute v ≡ true → find c.supports v ≢ none
  pub known :
      (v w : ℕ) (s : List ℕ)
      → find c.supports v ≡ some s
      → contains s w ≡ true
      → contains u w ≡ false
      → contains c.to_compute w ≡ false
      → find c.extended w ≢ none
  pub falling :
      (v w : ℕ) (s : List ℕ)
      → find c.supports v ≡ some s
      → contains s w ≡ true
      → contains u w ≡ false
      → contains c.to_compute w ≡ true
      → rank w < rank v

dynamic_step :
    (fuel : ℕ) (u : List ℕ) (c : Container) (v : ℕ) (s : List ℕ)
    → find c.supports v ≡ some s
    → compute_dynamic_dependencies (suc fuel) u c v
      ≡ collect (compute_dynamic_dependencies fuel u c) u c s (insert_all s [])
unfolding compute_dynamic_dependencies
dynamic_step fuel u c v s e = rw (e, compute_dynamic_dependencies)

or_false : (b : Bool) → (b || false) ≡ b
or_false true = refl
or_false false = refl

-- Where an element adds itself only, nothing is added to the set.
any_or_self :
    (p q : ℕ → Bool) (w : ℕ) (s : List ℕ)
    → ((x : ℕ) → contains s x ≡ true → (p x ≡ q x) ⊎ ((p x ≡ (x == w)) × (q x ≡ false)))
    → (any p s || contains s w) ≡ (contains s w || any q s)
any_or_self p q w [] h = refl
any_or_self p q w (x ∷ s) h =
    ground (arith, h x (ground arith), any_or_self p q w s (λ y m. h y (ground arith)))

module _ (u : List ℕ) (c : Container) (rank : ℕ → ℕ) (st : IsStratified u c rank) where
  contributes_known :
      (call : ℕ → Option (List ℕ)) (v w : ℕ) (s : List ℕ)
      → find c.supports v ≡ some s
      → contains s w ≡ true
      → (contains c.to_compute w ≡ true → rank w < rank v → call w ≢ none)
      → contributes call u c w ≢ none
  unfolding contributes
  contributes_known call v w s e m known n =
      ground (arith, st.known v w s e m, st.falling v w s e m, known)

  contributes_ext :
      (f g : ℕ → Option (List ℕ)) (v w : ℕ) (s : List ℕ)
      → find c.supports v ≡ some s
      → contains s w ≡ true
      → (contains c.to_compute w ≡ true → rank w < rank v → f w ≡ g w)
      → contributes f u c w ≡ contributes g u c w
  unfolding contributes
  contributes_ext f g v w s e m same = ground (arith, st.falling v w s e m, same)

  dynamic_total :
      (fuel v : ℕ)
      → contains c.to_compute v ≡ true
      → rank v < fuel
      → (r : List ℕ) × (compute_dynamic_dependencies fuel u c v ≡ some r)
  dynamic_total zero v h f = elim f [ ]
  dynamic_total (suc fuel) v h f = elim (Option-cases (find c.supports v)) [
    | inl n ↦ absurd (st.supported v h n)
    | inr (s, e) ↦ rw (dynamic_step fuel u c v s e) (
        collect_total (compute_dynamic_dependencies fuel u c) u c s (insert_all s []) λ w m.
          contributes_known (compute_dynamic_dependencies fuel u c) v w s e m
            λ k lt n. absurd (clash (dynamic_total fuel w k (omega arith)) n))
  ]
    where
      clash : {o : Option (List ℕ)} → (r : List ℕ) × (o ≡ some r) → o ≡ none → ⊥
      clash p n = ground arith

  -- More fuel than the rank makes no difference.
  dynamic_fuel :
      (fuel more v : ℕ)
      → contains c.to_compute v ≡ true
      → rank v < fuel
      → rank v < more
      → compute_dynamic_dependencies fuel u c v ≡ compute_dynamic_dependencies more u c v
  dynamic_fuel zero more v h f g = elim f [ ]
  dynamic_fuel (suc fuel) zero v h f g = elim g [ ]
  dynamic_fuel (suc fuel) (suc more) v h f g = elim (Option-cases (find c.supports v)) [
    | inl n ↦ absurd (st.supported v h n)
    | inr (s, e) ↦
        rw (dynamic_step fuel u c v s e, dynamic_step more u c v s e)
          (collect_ext (compute_dynamic_dependencies fuel u c)
            (compute_dynamic_dependencies more u c) u c s (insert_all s [])
            λ w m.
              contributes_ext (compute_dynamic_dependencies fuel u c)
                (compute_dynamic_dependencies more u c) v w s e m
                λ k lt. dynamic_fuel fuel more w k (omega arith) (omega arith))
  ]

  abbrev contributed : ℕ → ℕ → ℕ → Bool
  contributed fuel w x =
      contains (or_empty (contributes (compute_dynamic_dependencies fuel u c) u c x)) w

  abbrev spread : ℕ → ℕ → ℕ → Bool
  spread fuel w x =
      not (contains u x) && contains (or_empty (get_extended_dependencies (suc fuel) u c x)) w

  contributed-spread :
      (fuel v w : ℕ) (s : List ℕ)
      → find c.supports v ≡ some s
      → rank v < suc fuel
      → (x : ℕ) → contains s x ≡ true
      → (contributed fuel w x ≡ spread fuel w x)
        ⊎ ((contributed fuel w x ≡ (x == w)) × (spread fuel w x ≡ false))
  unfolding contributes get_extended_dependencies
  contributed-spread fuel v w s e f x m = elim (Bool-cases (contains u x)) [
    | inl a ↦ inr (ground arith, ground arith)
    | inr a ↦ inl (elim (Bool-cases (contains c.to_compute x)) [
      | inl k ↦
          let lt = st.falling v x s e m a k in
          ground (arith, dynamic_fuel fuel (suc fuel) x k (omega arith) (omega arith))
      | inr k ↦ ground arith
    ])
  ]

  -- With acyclic definitions and fuel beyond the rank of a variable with a support, the computation
  -- ends with an ascending set; it holds the support, the universal variables of it, and the
  -- extended dependencies of its other variables, computed with the same fuel, and nothing else.
  pub get_extended_dependencies_lem :
      (fuel v : ℕ) (s : List ℕ)
      → contains c.to_compute v ≡ true
      → find c.supports v ≡ some s
      → rank v < fuel
      → (r : List ℕ) × (get_extended_dependencies fuel u c v ≡ some r)
        × IsAscending r
        × ((w : ℕ)
            → contains r w ≡ (
                contains s w
                || any
                    (λ x.
                      not (contains u x)
                      && contains (or_empty (get_extended_dependencies fuel u c x)) w)
                    s))
  unfolding get_extended_dependencies
  get_extended_dependencies_lem zero v s h e f = elim f [ ]
  get_extended_dependencies_lem (suc fuel) v s h e f =
      let t = dynamic_total (suc fuel) v h f in
      let ran = sym (dynamic_step fuel u c v s e) ∙ t.1 in
      (
        t.0,
        rw h t.1,
        collect-IsAscending (compute_dynamic_dependencies fuel u c) u c s (insert_all s []) t.0
            (insert_all-IsAscending s [] tt) ran,
        λ w.
            contains-collect (compute_dynamic_dependencies fuel u c) u c s (insert_all s []) t.0 w
              ran
            ∙ ap (λ b. any (contributed fuel w) s || b)
                (contains-insert_all s [] w ∙ or_false (contains s w))
            ∙ any_or_self (contributed fuel w) (spread fuel w) w s
                (contributed-spread fuel v w s e f),
      )

pub dynamic_IsAscending :
    (fuel : ℕ) (u : List ℕ) (c : Container) (v : ℕ) (r : List ℕ)
    → compute_dynamic_dependencies fuel u c v ≡ some r
    → IsAscending r
dynamic_IsAscending zero u c v r e = absurd (unfold compute_dynamic_dependencies in cc)
dynamic_IsAscending (suc fuel) u c v r e = elim (Option-cases (find c.supports v)) [
  | inl n ↦ absurd (no_support n)
  | inr (s, m) ↦
      collect-IsAscending (compute_dynamic_dependencies fuel u c) u c s (insert_all s []) r
        (insert_all-IsAscending s [] tt) (sym (dynamic_step fuel u c v s m) ∙ e)
]
  where
    no_support : find c.supports v ≡ none → ⊥
    no_support n = unfold compute_dynamic_dependencies in ground arith
