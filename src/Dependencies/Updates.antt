-- ===== src/Dependencies/Updates.antt =====
-- The effect of updates on the extended dependencies.
use pedant_solver.Base.{
  ℕ, ◌≡◌, refl, ◌∙◌, inl, inr, Bool, true, false, ◌&&◌, ◌||◌, Option, none, some, List, [], ◌∷◌,
  arith, if◌then◌else◌, Bool-cases, Option-cases, ==_refl, ==_iff, ◌==◌, not, ap,
}
use pedant_solver.Base.Maps.{find, assign, has, find-assign, find-erase, find-emplace}
use pedant_solver.Base.Sets.{contains, insert, contains-insert, includes, IsDistinct}
use pedant_solver.Base.Sets.{IsDistinct}
use pedant_solver.Dependencies.{
  Container, update_vector_map, update_each, update_extended_dependencies, forget,
}
use pedant_solver.Dependencies.Vectors.{merge}

-- An entry that contains the support, and what the update makes of it.
pub grows : List ℕ → Option (List ℕ) → Bool
grows support none = false
grows support (some deps) = includes deps support

pub grown : ℕ → Option (List ℕ) → Option (List ℕ)
grown variable none = none
grown variable (some deps) = some (insert variable deps)

-- What the loop over some undefined variables does to a container and the updated variables.
abbrev Grown : ℕ → List ℕ → List ℕ → Container × List ℕ → Option (Container × List ℕ) → Type 0
Grown variable support undefined (c, updated) result =
    (r : Container × List ℕ) × (result ≡ some r)
    × ((w : ℕ)
        → find r.0.extended w ≡ (
            if contains undefined w && grows support (find c.extended w)
            then grown variable (find c.extended w)
            else find c.extended w))
    × ((w : ℕ)
        → contains r.1 w
          ≡ (contains updated w || (contains undefined w && grows support (find c.extended w))))
    × (r.0.to_compute ≡ c.to_compute)
    × (r.0.supports ≡ c.supports)

-- What the whole update does to them.
abbrev pub Updates : ℕ → List ℕ → List ℕ → Container × List ℕ → Option (Container × List ℕ) → Type 0
Updates variable support undefined (c, updated) result =
    (r : Container × List ℕ) × (result ≡ some r)
    × ((w : ℕ)
        → find r.0.extended w ≡ (
            if variable == w
            then none
            else if contains undefined w && grows support (find c.extended w)
            then grown variable (find c.extended w)
            else find c.extended w))
    × ((w : ℕ) → contains r.0.to_compute w ≡ (variable == w || contains c.to_compute w))
    × ((w : ℕ)
        → find r.0.supports w
          ≡ (if variable == w && not (has c.supports w) then some support else find c.supports w))
    × ((w : ℕ)
        → contains r.1 w
          ≡ (contains updated w || (contains undefined w && grows support (find c.extended w))))

merge_empty : (deps : List ℕ) → merge deps [] ≡ deps
unfolding merge
merge_empty [] = refl
merge_empty (x ∷ deps) = refl

merge_single : (v : ℕ) (deps : List ℕ) → merge deps (v ∷ []) ≡ insert v deps
unfolding merge insert
merge_single v [] = refl
merge_single v (x ∷ deps) = ground (arith, merge_single v deps, merge_empty deps)

update_vector_map_found :
    (c : Container) (v : ℕ) (more deps : List ℕ)
    → find c.extended v ≡ some deps
    → update_vector_map v more c
      ≡ some (record c { extended = assign c.extended v (merge deps more) })
unfolding update_vector_map
update_vector_map_found c v more deps e = rw (e, update_vector_map) refl

update_each_grows :
    (variable : ℕ) (support : List ℕ) (v : ℕ) (undefined : List ℕ) (c : Container)
    (updated deps : List ℕ)
    → find c.extended v ≡ some deps
    → includes deps support ≡ true
    → update_each variable support (v ∷ undefined) (c, updated)
      ≡ update_each variable support undefined (
        record c { extended = assign c.extended v (merge deps (variable ∷ [])) },
        insert v updated,
      )
unfolding update_each
update_each_grows variable support v undefined c updated deps e t =
    rw (e, t, update_vector_map_found c v (variable ∷ []) deps e, update_each) refl

update_each_skips :
    (variable : ℕ) (support : List ℕ) (v : ℕ) (undefined : List ℕ) (c : Container)
    (updated deps : List ℕ)
    → find c.extended v ≡ some deps
    → includes deps support ≡ false
    → update_each variable support (v ∷ undefined) (c, updated)
      ≡ update_each variable support undefined (c, updated)
unfolding update_each
update_each_skips variable support v undefined c updated deps e t = rw (e, t, update_each) refl

update_each-Grown :
    (variable : ℕ) (support undefined : List ℕ) (c : Container) (updated : List ℕ)
    → IsDistinct undefined
    → ((v : ℕ) → contains undefined v ≡ true → has c.extended v ≡ true)
    → Grown variable support undefined
        (c, updated)
        (update_each variable support undefined (c, updated))
unfolding update_each grows grown has
update_each-Grown variable support [] c updated d h =
    ((c, updated), refl, (λ w. refl), (λ w. ground arith), refl, refl)
update_each-Grown variable support (v ∷ undefined) c updated d h =
    elim (Option-cases (find c.extended v)) [
      | inl e ↦ absurd (ground (arith, e, h v, ==_refl v))
      | inr (deps, e) ↦ elim (Bool-cases (includes deps support)) [
        | inl t ↦
            let c' : Container = record c {
              extended = assign c.extended v (merge deps (variable ∷ []));
            } in
            let rest =
              update_each-Grown variable support undefined c' (insert v updated) d.1 (λ w m.
                ground (arith, find-assign c.extended v w (merge deps (variable ∷ [])), h w)) in
            (
              rest.0,
              update_each_grows variable support v undefined c updated deps e t ∙ rest.1,
              (λ w.
                  rest.2 w
                  ∙ ground (
                    arith,
                    d.0,
                    e,
                    t,
                    merge_single variable deps,
                    find-assign c.extended v w (merge deps (variable ∷ [])),
                  )),
              (λ w.
                  rest.3 w
                  ∙ ground (
                    arith,
                    d.0,
                    e,
                    t,
                    contains-insert v w updated,
                    find-assign c.extended v w (merge deps (variable ∷ [])),
                  )),
              rest.4,
              rest.5,
            )
        | inr t ↦
            let rest =
              update_each-Grown variable support undefined c updated d.1
                (λ w m. h w (ground arith)) in
            (
              rest.0,
              update_each_skips variable support v undefined c updated deps e t ∙ rest.1,
              (λ w. rest.2 w ∙ ground (arith, e, t)),
              (λ w. rest.3 w ∙ ground (arith, e, t)),
              rest.4,
              rest.5,
            )
      ]
    ]

-- If the undefined variables are distinct, do not hold the variable that gets a definition, and have
-- extended dependencies, the immediate update does not fail. The variable's own entry is erased; the
-- variable is among those to compute from then on, besides those that were, and the support is
-- recorded for it unless a support was before. Each undefined variable whose extended dependencies
-- contain the support is updated: the variable is inserted at its place into its entry, unless it is
-- there. Other entries stay, and the updated variables join those that were updated before.
pub update_extended_dependencies-Updates :
    (undefined : List ℕ) (variable : ℕ) (support : List ℕ) (c : Container) (updated : List ℕ)
    → IsDistinct undefined
    → contains undefined variable ≡ false
    → ((v : ℕ) → contains undefined v ≡ true → has c.extended v ≡ true)
    → Updates variable support undefined
        (c, updated)
        (update_extended_dependencies undefined variable support (c, updated))
unfolding update_extended_dependencies has grows
update_extended_dependencies-Updates undefined variable support c updated d n h =
    let r =
      update_each-Grown variable support undefined (forget variable support c) updated d
        (λ w m. ground (arith, n, find-erase c.extended variable w, h w m)) in
    (
      r.0,
      r.1,
      (λ w. r.2 w ∙ ground (arith, n, find-erase c.extended variable w, ==_iff variable w)),
      (λ w. ap (λ l. contains l w) r.4 ∙ contains-insert variable w c.to_compute),
      (λ w. ap (λ m. find m w) r.5 ∙ ground (arith, find-emplace c.supports variable w support)),
      (λ w. r.3 w ∙ ground (arith, n, find-erase c.extended variable w, ==_iff variable w)),
    )
