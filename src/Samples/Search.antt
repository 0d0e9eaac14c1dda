-- ===== src/Samples/Search.antt =====
-- The binary searches over blocks at a concrete formula: ∀1 ∃2 ∀3 ∃4, and 5 depends on 1.
use pedant_solver.Base.{
  ◌<◌, ◌⊎◌, inl, inr, ℕ, zero, suc, ◌≡◌, refl, true, some, List, [], ◌∷◌, arith,
}
use pedant_solver.Base.Maps.{Map, find}
use pedant_solver.Base.Sets.{includes}
use pedant_solver.Dqdimacs.{Dqdimacs, get_nof_existential_blocks}
use pedant_solver.Extractor.BlockSearch.{HasKeys, get_maximal_sub_set, get_minimal_super_set}
use pedant_solver.Extractor.BlockSearch.Last.{last_index, IsDownward, get_maximal_sub_set_lem}
use pedant_solver.Extractor.BlockSearch.First.{first_index, IsUpward, get_minimal_super_set_lem}

abbrev formula : Dqdimacs
formula = record {
  max_var = 5;
  check_max_var = true;
  matrix = [];
  first_block_type = true;
  universal_variables = 1 ∷ 3 ∷ [];
  universal_blocks = 0 ∷ 1 ∷ 2 ∷ [];
  existential_variables = 2 ∷ 4 ∷ [];
  existential_blocks = 0 ∷ 1 ∷ 2 ∷ [];
  explicit_dependencies = (5, 1 ∷ []) ∷ [];
  definitions = [];
}

abbrev dependency_map : Map (List ℕ)
dependency_map = (2, 1 ∷ []) ∷ (4, 1 ∷ 3 ∷ []) ∷ (5, 1 ∷ []) ∷ []

abbrev block_dependency_lists : ℕ → List ℕ
block_dependency_lists zero = 1 ∷ []
block_dependency_lists (suc i) = 1 ∷ 3 ∷ []

zero_or_one : (i : ℕ) → i < 2 → (i ≡ 0) ⊎ (i ≡ 1)
zero_or_one zero b = inl refl
zero_or_one (suc zero) b = inr refl
zero_or_one (suc (suc i)) b = absurd (omega (arith, b))

formula-HasKeys : HasKeys formula dependency_map 5 0 2 (1 ∷ []) block_dependency_lists
unfolding find
formula-HasKeys = record {
  has_own = refl;
  has_blocks = λ i a b. elim (zero_or_one i b) [ inl z ↦ rw z refl | inr o ↦ rw o refl ];
}

formula-IsDownward : IsDownward (λ i. includes (1 ∷ []) (block_dependency_lists i)) 0 2
unfolding includes
formula-IsDownward zero j a b c e = refl
formula-IsDownward (suc i) zero a b c e = ground arith
formula-IsDownward (suc i) (suc j) a b c e = e

formula-IsUpward : IsUpward (λ i. includes (block_dependency_lists i) (1 ∷ [])) 0 2
unfolding includes
formula-IsUpward i zero a b c e = refl
formula-IsUpward i (suc j) a b c e = refl

get_maximal_sub_set_lem_example :
    get_maximal_sub_set formula dependency_map 5 0 2
    ≡ some (last_index (λ i. includes (1 ∷ []) (block_dependency_lists i)) 0 2)
get_maximal_sub_set_lem_example =
    get_maximal_sub_set_lem formula dependency_map 5 0 2 (1 ∷ []) block_dependency_lists
      (omega arith) formula-HasKeys formula-IsDownward

get_minimal_super_set_lem_example :
    get_minimal_super_set formula dependency_map 5 0 2
    ≡ some (
        first_index
          (get_nof_existential_blocks formula)
          (λ i. includes (block_dependency_lists i) (1 ∷ []))
          0
          2)
unfolding get_nof_existential_blocks
get_minimal_super_set_lem_example =
    get_minimal_super_set_lem formula dependency_map 5 0 2 (1 ∷ []) block_dependency_lists
      (omega arith) (omega arith) formula-HasKeys formula-IsUpward
