-- ===== src/Defaults/Polarity.antt =====
-- The polarities of the default values: what the operations keep and change.
use pedant_solver.Base.{
  ℕ, ◌+◌, ◌≡◌, refl, sym, ap, ◌∙◌, subst, inl, inr, Bool, true, false, not, ◌&&◌, ◌||◌, some, List,
  [], ◌∷◌, arith, ◌==◌, if◌then◌else◌, Bool-cases, ==_iff, All,
}
use pedant_solver.Base.Int.{ℤ}
use pedant_solver.Base.Maps.{Map}
use pedant_solver.Base.Sets.{contains, contains-insert, IsDistinct}
use pedant_solver.Defaults.{
  Defaults, use_default, set_fixed_default_polarity_unchecked, add_default, initialize,
  new_fixed_default_selector,
}
use pedant_solver.Defaults.Pairs.{IsPaired, flipped, set_signs-IsPaired, flipped-IsPaired}
use pedant_solver.Defaults.Growth.{new_pair-IsPaired}

-- Each variable with a default has its two selectors in both lists, where the positive one has the
-- sign of the polarity and the negative one the other.
pub record HasPolarity (d : Defaults) (polarity : ℕ → Bool) : Type 0 where
  pub assumed :
      IsPaired d.variables_with_defaults d.positive_indices_assumptions
        d.negative_indices_assumptions d.assumptions polarity
  pub selected :
      IsPaired d.variables_with_defaults d.positive_indices_selectors d.negative_indices_selectors
        d.default_selectors polarity

-- A container without variables.
pub HasPolarity-empty :
    (d : Defaults) (polarity : ℕ → Bool) → d.variables_with_defaults ≡ [] → HasPolarity d polarity
HasPolarity-empty d polarity e =
    let none_of : (v : ℕ) → contains d.variables_with_defaults v ≡ true → ⊥ =
      λ v h. ground (arith, sym (ap (λ l. contains l v) e) ∙ h) in
    let any_pair : (P N : Map ℕ) (L : List ℤ) → IsPaired d.variables_with_defaults P N L polarity =
      λ P N L. record {
        positive_found = λ v h. absurd (none_of v h);
        negative_found = λ v h. absurd (none_of v h);
        positive_bound = λ v h. absurd (none_of v h);
        negative_bound = λ v h. absurd (none_of v h);
        positive_literal = λ v h. absurd (none_of v h);
        negative_literal = λ v h. absurd (none_of v h);
        apart = λ v w h h'. absurd (none_of v h);
        positive_injective = λ v w h h'. absurd (none_of v h);
        negative_injective = λ v w h h'. absurd (none_of v h);
      } in
    record { assumed = any_pair _ _ _; selected = any_pair _ _ _ }

IsPaired-agree :
    (vars : List ℕ) (P N : Map ℕ) (L : List ℤ) (p q : ℕ → Bool)
    → ((v : ℕ) → contains vars v ≡ true → p v ≡ q v)
    → IsPaired vars P N L p
    → IsPaired vars P N L q
IsPaired-agree vars P N L p q e h = record {
  positive_found = h.positive_found;
  negative_found = h.negative_found;
  positive_bound = h.positive_bound;
  negative_bound = h.negative_bound;
  positive_literal = λ v hv. ((h.positive_literal v hv).0, (h.positive_literal v hv).1 ∙ e v hv);
  negative_literal =
      λ v hv. ((h.negative_literal v hv).0, (h.negative_literal v hv).1 ∙ ap not (e v hv));
  apart = h.apart;
  positive_injective = h.positive_injective;
  negative_injective = h.negative_injective;
}

pub HasPolarity-agree :
    (d : Defaults) (p q : ℕ → Bool)
    → ((v : ℕ) → use_default v d ≡ true → p v ≡ q v)
    → HasPolarity d p
    → HasPolarity d q
HasPolarity-agree d p q e h = record {
  assumed = IsPaired-agree _ _ _ _ p q e h.assumed;
  selected = IsPaired-agree _ _ _ _ p q e h.selected;
}

-- A new polarity for one variable.
abbrev pub with_polarity : (ℕ → Bool) → ℕ → Bool → ℕ → Bool
with_polarity polarity v b w = if w == v then b else polarity w

-- The container after `set_fixed_default_polarity_unchecked`.
unfoldable pub repolarized : ℕ → Bool → Defaults → Defaults
repolarized v b d = record d {
  assumptions =
      flipped d.positive_indices_assumptions d.negative_indices_assumptions d.assumptions v b;
  default_selectors =
      flipped d.positive_indices_selectors d.negative_indices_selectors d.default_selectors v b;
}

module _ (d : Defaults) (polarity : ℕ → Bool) (h : HasPolarity d polarity) (v : ℕ)
    (hv : contains d.variables_with_defaults v ≡ true) (b : Bool) where
  pub set_fixed_default_polarity_unchecked-HasPolarity :
      set_fixed_default_polarity_unchecked v b d ≡ some (repolarized v b d)
  unfolding set_fixed_default_polarity_unchecked repolarized
  set_fixed_default_polarity_unchecked-HasPolarity =
      rw
        (
          set_signs-IsPaired _ _ _ _ polarity h.assumed v hv b,
          set_signs-IsPaired _ _ _ _ polarity h.selected v hv b,
        )
        refl

  pub repolarized-HasPolarity : HasPolarity (repolarized v b d) (with_polarity polarity v b)
  unfolding repolarized
  repolarized-HasPolarity = record {
    assumed = flipped-IsPaired _ _ _ _ polarity h.assumed v hv b;
    selected = flipped-IsPaired _ _ _ _ polarity h.selected v hv b;
  }

add_default-HasPolarity :
    (v : ℕ) (d : Defaults)
    → contains d.variables_with_defaults v ≡ false
    → HasPolarity d (λ w. true)
    → HasPolarity (add_default v d).1 (λ w. true)
unfolding add_default new_fixed_default_selector
add_default-HasPolarity v d fresh h =
    let s = d.last_used_variable + 1 in
    let grown : HasPolarity (add_default v d).1 (with_polarity (λ w. true) v true) = record {
      assumed =
          new_pair-IsPaired _ _ _ _ (λ w. true) h.assumed v fresh s (s + 1) (omega arith)
            (omega arith);
      selected =
          new_pair-IsPaired _ _ _ _ (λ w. true) h.selected v fresh s (s + 1) (omega arith)
            (omega arith);
    } in
    HasPolarity-agree _ (with_polarity (λ w. true) v true) (λ w. true) (λ w hw. ground arith) grown

add_default-use :
    (v w : ℕ) (d : Defaults) → use_default w (add_default v d).1 ≡ (v == w || use_default w d)
unfolding add_default new_fixed_default_selector
add_default-use v w d = contains-insert v w d.variables_with_defaults

unused-add_default :
    (v : ℕ) (d : Defaults) (existentials : List ℕ)
    → contains existentials v ≡ false
    → All (λ w. use_default w d ≡ false) existentials
    → All (λ w. use_default w (add_default v d).1 ≡ false) existentials
unused-add_default v d [] n f = tt
unused-add_default v d (w ∷ existentials) n f = (
  add_default-use v w d ∙ ground (arith, n, f.0),
  unused-add_default v d existentials (ground (arith, n)) f.1,
)

added :
    (undefined_variables existentials : List ℕ) (v w : ℕ) (d : Defaults)
    → contains undefined_variables v ≡ true
    → (use_default w (add_default v d).1
        || (contains existentials w && contains undefined_variables w))
      ≡ (use_default w d || (contains (v ∷ existentials) w && contains undefined_variables w))
added undefined_variables existentials v w d e = elim (Bool-cases (v == w)) [
  | inl q ↦
      let e' = subst (λ x. contains undefined_variables x ≡ true) ((==_iff v w).0 q) e in
      ground (arith, add_default-use v w d, q, e')
  | inr q ↦ ground (arith, add_default-use v w d, q)
]

skipped :
    (undefined_variables existentials : List ℕ) (v w : ℕ) (d : Defaults)
    → contains undefined_variables v ≡ false
    → (use_default w d || (contains existentials w && contains undefined_variables w))
      ≡ (use_default w d || (contains (v ∷ existentials) w && contains undefined_variables w))
skipped undefined_variables existentials v w d e = elim (Bool-cases (v == w)) [
  | inl q ↦
      let e' = subst (λ x. contains undefined_variables x ≡ false) ((==_iff v w).0 q) e in
      ground (arith, q, e')
  | inr q ↦ ground (arith, q)
]

-- Different variables, of which none has a default, get one that is true, those that are undefined.
pub initialize-HasPolarity :
    (undefined_variables existentials : List ℕ) (d : Defaults)
    → IsDistinct existentials
    → All (λ v. use_default v d ≡ false) existentials
    → HasPolarity d (λ w. true)
    → HasPolarity (initialize undefined_variables existentials d).1 (λ w. true)
      × ((w : ℕ)
          → use_default w (initialize undefined_variables existentials d).1
            ≡ (use_default w d || (contains existentials w && contains undefined_variables w)))
unfolding initialize
initialize-HasPolarity undefined_variables [] d di f h = (h, λ w. ground arith)
initialize-HasPolarity undefined_variables (v ∷ existentials) d di f h =
    elim (Bool-cases (contains undefined_variables v)) [
      | inl e ↦
          let d₁ = (add_default v d).1 in
          let r =
            initialize-HasPolarity undefined_variables existentials d₁ di.1
              (unused-add_default v d existentials di.0 f.1) (add_default-HasPolarity v d f.0 h) in
          rw e (r.0, λ w. r.1 w ∙ added undefined_variables existentials v w d e)
      | inr e ↦
          let r = initialize-HasPolarity undefined_variables existentials d di.1 f.1 h in
          rw e (r.0, λ w. r.1 w ∙ skipped undefined_variables existentials v w d e)
    ]
