-- ===== src/Samples/Blocks.antt =====
-- The theorems on quantifier blocks at concrete inputs.
use pedant_solver.Base.{refl, ◌||◌, if◌then◌else◌, ◌≡◌, true, false, [], ◌∷◌}
use pedant_solver.Base.Maps.{has}
use pedant_solver.Base.Sets.{contains}
use pedant_solver.Extractor.{compute_dependencies}
use pedant_solver.Extractor.Extraction.{depends, precedes}
use pedant_solver.Extractor.Extraction.Result.{covered, compute_dependencies_lem}
use pedant_solver.Dqdimacs.{Dqdimacs, new_dqdimacs, add_universal_block, add_existential_block}
use pedant_solver.Dqdimacs.Blocks.{Runs, Shows, add_run, run_variables, new_dqdimacs-Shows}
use pedant_solver.Dqdimacs.Blocks.Universal.{add_universal_block-Shows}
use pedant_solver.Dqdimacs.Blocks.Existential.{add_existential_block-Shows}

-- ∃1 ∀2 3: the first block is existential, whatever the uninitialised type was.
abbrev one_block : Dqdimacs
one_block = add_existential_block (1 ∷ []) (new_dqdimacs true)

abbrev one_run : Runs
one_run = add_run false (1 ∷ []) []

abbrev two_blocks : Dqdimacs
two_blocks = add_universal_block (2 ∷ 3 ∷ []) one_block

abbrev two_runs : Runs
two_runs = add_run true (2 ∷ 3 ∷ []) one_run

one_block-Shows : Shows one_block one_run
one_block-Shows =
    add_existential_block-Shows (new_dqdimacs true) [] (1 ∷ []) (new_dqdimacs-Shows true)

add_universal_block-Shows_example : Shows two_blocks two_runs
add_universal_block-Shows_example =
    add_universal_block-Shows one_block one_run (2 ∷ 3 ∷ []) one_block-Shows

two_blocks-Shows : Shows two_blocks two_runs
two_blocks-Shows = add_universal_block-Shows one_block one_run (2 ∷ 3 ∷ []) one_block-Shows

add_existential_block-Shows_example :
    Shows (add_existential_block (4 ∷ []) two_blocks) (add_run false (4 ∷ []) two_runs)
add_existential_block-Shows_example =
    add_existential_block-Shows two_blocks two_runs (4 ∷ []) two_blocks-Shows

-- ∃1 ∀2 3 ∃4: 4 depends on 2 and 3.
abbrev three_blocks : Dqdimacs
three_blocks = add_existential_block (4 ∷ []) two_blocks

abbrev three_runs : Runs
three_runs = add_run false (4 ∷ []) two_runs

compute_dependencies_lem_example :
    (has (compute_dependencies false three_blocks).0 4 ≡ (
      contains (run_variables false (covered false three_runs)) 4
      || has three_blocks.explicit_dependencies 4))
    × (depends (compute_dependencies false three_blocks).0 4 2 ≡ (
        if contains (run_variables false (covered false three_runs)) 4
        then precedes (covered false three_runs) 4 2
        else depends three_blocks.explicit_dependencies 4 2))
unfolding add_existential_block add_universal_block new_dqdimacs
compute_dependencies_lem_example =
    compute_dependencies_lem three_blocks false three_runs 4 2
      (add_existential_block-Shows two_blocks two_runs (4 ∷ []) two_blocks-Shows) refl

depends_on_2 : precedes three_runs 4 2 ≡ true
unfolding precedes add_run run_variables
depends_on_2 = refl
