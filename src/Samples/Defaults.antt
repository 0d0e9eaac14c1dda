-- ===== src/Samples/Defaults.antt =====
-- Default values of 4 and 6, which are undefined, while 5 is defined.
use pedant_solver.Base.{ℕ, ◌≡◌, refl, true, false, ◌&&◌, none, some, List, [], ◌∷◌, if◌then◌else◌}
use pedant_solver.Base.Int.{pos, negsuc}
use pedant_solver.Base.Maps.{Map, find}
use pedant_solver.Base.Sets.{contains}
use pedant_solver.Formula.{Clause}
use pedant_solver.Defaults.{Defaults, use_default, initialize, get_certificate}
use pedant_solver.Defaults.Polarity.{HasPolarity, HasPolarity-empty, initialize-HasPolarity}
use pedant_solver.Defaults.Certificate.{
  Event, set_polarity, conflict, run, after_all, constant_clause, run-HasPolarity,
  get_certificate-value,
}

abbrev undefined_variables : List ℕ
undefined_variables = 4 ∷ 6 ∷ []

abbrev existentials : List ℕ
existentials = 4 ∷ 5 ∷ 6 ∷ []

-- The solver has an assumption already.
abbrev empty : Defaults
empty = record {
  last_used_variable = 10;
  assumptions = pos 10 ∷ [];
  default_selectors = [];
  variables_with_defaults = [];
  positive_indices_assumptions = [];
  negative_indices_assumptions = [];
  positive_indices_selectors = [];
  negative_indices_selectors = [];
}

abbrev initial : Defaults
initial = (initialize undefined_variables existentials empty).1

abbrev events : List Event
events = set_polarity 5 false ∷ conflict (negsuc 5) ∷ []

initial_assumptions : initial.assumptions ≡ pos 10 ∷ pos 11 ∷ negsuc 11 ∷ pos 13 ∷ negsuc 13 ∷ []
unfolding initialize
initial_assumptions = refl

run-HasPolarity_example :
    (d' : Defaults) × (run events initial ≡ some d')
    × HasPolarity d' (after_all events (λ w. true))
    × ((w : ℕ) → use_default w d' ≡ use_default w initial)
run-HasPolarity_example =
    run-HasPolarity events initial (λ w. true)
      (initialize-HasPolarity undefined_variables existentials empty (refl, (refl, (refl, tt)))
        (refl, (refl, (refl, tt))) (HasPolarity-empty empty (λ w. true) refl)).0

get_certificate-value_example :
    (d' : Defaults) × (m : Map (List Clause)) × (run events initial ≡ some d')
    × (get_certificate existentials d' ≡ some m)
    × ((w : ℕ)
        → find m w ≡ (
            if contains existentials w && contains undefined_variables w
            then some (constant_clause w (after_all events (λ x. true) w))
            else none))
get_certificate-value_example =
    get_certificate-value undefined_variables existentials empty events refl
      (refl, (refl, (refl, tt)))
