-- ===== src/Extractor/BlockSearch.antt =====
-- The binary searches of dependencyextractor.cc for the block whose dependencies are the greatest
-- subset, or the least superset, of those of a variable.
pub mod Last
pub mod First
use pedant_solver.Base.{
  ℕ, zero, suc, ◌+◌, ◌-◌, ◌*◌, ◌/◌, ◌%◌, ◌^◌, ◌≤◌, ◌<◌, max, ◌≡◌, refl, sym, ap, ◌∙◌, subst, ◌≢◌,
  ◌↔◌, ◌⊎◌, inl, inr, Bool, true, false, not, ◌&&◌, ◌||◌, Option, none, some, List, [], ◌∷◌, ◌++◌,
  map, arith, ltb, leb, ◌==◌, if◌then◌else◌, Bool-cases, Option-cases, Bool_ext, not-not, ==_iff,
  ==_refl, length, get_elem?, set, is_empty, any, all, select, All, length-append, any-append,
  all-append, All-append, All-left, length-select-le, length-set, get_or, get_or-set_self,
  get_or-set_ne, get_or-append_left,
}
use pedant_solver.Base.Int.{
  ℤ, pos, negsuc, neg, abs, is_pos, is_neg, of_bool, eq_ℤ, eq_ℤ_iff, neg-neg, abs-neg,
}
use pedant_solver.Base.Maps.{
  Map, find, assign, erase, has, emplace, at_or, find-assign, find-erase, find-emplace,
}
use pedant_solver.Base.Sets.{
  contains, Above, IsAscending, Above-mono, Above-IsAscending, contains_below, contains-append,
  insert, contains-insert, insert-Above, insert-IsAscending, insert_all, contains-insert_all,
  insert_all-IsAscending, includes, includes_lem, all_of_contains, contains_of_all, binary_search,
  binary_search-contains, sort, contains-sort, IsDistinct, sort-IsAscending,
}
use pedant_solver.Dqdimacs.{Dqdimacs, get_nof_existential_blocks}

-- `std::max` and `std::min` with an index
abbrev pub max_index : ℤ → ℕ → ℤ
max_index (pos x) i = pos (max x i)
max_index (negsuc x) i = pos i

abbrev pub min_index : ℕ → ℕ → ℕ
min_index x i = if ltb x i then x else i

-- The dependencies of the first variable of a block, against those of the variable; `none` where `at`
-- throws since the map does not have the one or the other.
unfoldable pub block_dependencies : Dqdimacs → Map (List ℕ) → ℕ → Option (List ℕ)
unfolding find
block_dependencies f m i =
    find m (get_or f.existential_variables (get_or f.existential_blocks i 0) 0)

unfoldable pub is_subset : Dqdimacs → Map (List ℕ) → ℕ → ℕ → Option Bool
unfolding includes find block_dependencies
is_subset f m v i = elim (find m v) [
  | none ↦ none
  | some dependencies ↦ elim (block_dependencies f m i) [
    | none ↦ none
    | some block ↦ some (includes dependencies block)
  ]
]

unfoldable pub is_superset : Dqdimacs → Map (List ℕ) → ℕ → ℕ → Option Bool
unfolding includes find block_dependencies
is_superset f m v i = elim (find m v) [
  | none ↦ none
  | some dependencies ↦ elim (block_dependencies f m i) [
    | none ↦ none
    | some block ↦ some (includes block dependencies)
  ]
]

-- The recursion, on fuel: the test is one of the two above.
pub search_last : (ℕ → Option Bool) → ℕ → ℕ → ℕ → Option ℤ
search_last p zero start_index end_index =
    if start_index == end_index then some (negsuc 0) else none
search_last p (suc fuel) start_index end_index =
    let mid_idx = (start_index + end_index) / 2 in
    let right = search_last p fuel (mid_idx + 1) end_index in
    let left = search_last p fuel start_index mid_idx in
    let later : Option ℤ = elim right [ none ↦ none | some x ↦ some (max_index x mid_idx) ] in
    if start_index == end_index
    then some (negsuc 0)
    else elim (p mid_idx) [ none ↦ none | some b ↦ if b then later else left ]

pub search_first : ℕ → (ℕ → Option Bool) → ℕ → ℕ → ℕ → Option ℕ
search_first absent p zero start_index end_index =
    if start_index == end_index then some absent else none
search_first absent p (suc fuel) start_index end_index =
    let mid_idx = (start_index + end_index) / 2 in
    let left = search_first absent p fuel start_index mid_idx in
    let right = search_first absent p fuel (mid_idx + 1) end_index in
    let earlier : Option ℕ = elim left [ none ↦ none | some x ↦ some (min_index x mid_idx) ] in
    if start_index == end_index
    then some absent
    else elim (p mid_idx) [ none ↦ none | some b ↦ if b then earlier else right ]

-- The map has the dependencies of the variable, and those of the first variable of each block
-- of a range.
pub record HasKeys (f : Dqdimacs) (m : Map (List ℕ)) (v first last : ℕ) (own : List ℕ)
    (blocks : ℕ → List ℕ) : Type 0 where
  pub has_own : find m v ≡ some own
  pub has_blocks :
      (i : ℕ)
      → first ≤ i
      → i < last
      → find m (get_or f.existential_variables (get_or f.existential_blocks i 0) 0)
        ≡ some (blocks i)

-- Each call halves the range, so that its length is fuel enough.
pub get_maximal_sub_set : Dqdimacs → Map (List ℕ) → ℕ → ℕ → ℕ → Option ℤ
unfolding search_last is_subset
get_maximal_sub_set f m v start_index end_index =
    search_last (is_subset f m v) (end_index - start_index) start_index end_index

pub get_minimal_super_set : Dqdimacs → Map (List ℕ) → ℕ → ℕ → ℕ → Option ℕ
unfolding search_first is_superset get_nof_existential_blocks
get_minimal_super_set f m v start_index end_index =
    search_first (get_nof_existential_blocks f) (is_superset f m v) (end_index - start_index)
      start_index end_index
