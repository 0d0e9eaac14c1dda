-- ===== src/Extractor.antt =====
-- dependencyextractor.h, dependencyextractor.cc: the dependencies that the quantifier blocks and the
-- dependency lines give to the existential variables.
pub mod Ranges
pub mod Extraction
pub mod BlockSearch
use pedant_solver.Base.{
  ℕ, zero, suc, ◌+◌, ◌-◌, ◌*◌, ◌/◌, ◌%◌, ◌^◌, ◌≤◌, ◌<◌, max, ◌≡◌, refl, sym, ap, ◌∙◌, subst, ◌≢◌,
  ◌↔◌, ◌⊎◌, inl, inr, Bool, true, false, not, ◌&&◌, ◌||◌, Option, none, some, List, [], ◌∷◌, ◌++◌,
  map, arith, ltb, leb, ◌==◌, if◌then◌else◌, Bool-cases, Option-cases, Bool_ext, not-not, ==_iff,
  ==_refl, length, get_elem?, set, is_empty, any, all, select, All, length-append, any-append,
  all-append, All-append, All-left, length-select-le, length-set, get_or, get_or-set_self,
  get_or-set_ne, get_or-append_left,
}
use pedant_solver.Base.Maps.{
  Map, find, assign, erase, has, emplace, at_or, find-assign, find-erase, find-emplace,
}
use pedant_solver.Base.Sets.{
  contains, Above, IsAscending, Above-mono, Above-IsAscending, contains_below, contains-append,
  insert, contains-insert, insert-Above, insert-IsAscending, insert_all, contains-insert_all,
  insert_all-IsAscending, includes, includes_lem, all_of_contains, contains_of_all, binary_search,
  binary_search-contains, sort, contains-sort, IsDistinct, sort-IsAscending,
}
use pedant_solver.Dqdimacs.{
  Dqdimacs, last_block_type, get_nof_existential_blocks, get_nof_universal_blocks,
  get_all_existentials,
}

-- Ranges of a vector.
abbrev pub take : ℕ → List ℕ → List ℕ
take zero xs = []
take (suc n) [] = []
take (suc n) (x ∷ xs) = x ∷ take n xs

abbrev pub drop : ℕ → List ℕ → List ℕ
drop zero xs = xs
drop (suc n) [] = []
drop (suc n) (x ∷ xs) = drop n xs

abbrev pub range : ℕ → ℕ → List ℕ → List ℕ
range first last xs = drop first (take last xs)

-- `existential_block_idx_end` of the constructor
pub block_index_end : Bool → Dqdimacs → ℕ
unfolding last_block_type get_nof_existential_blocks
block_index_end ignore_innermost_existentials f =
    if ignore_innermost_existentials && not (last_block_type f)
    then get_nof_existential_blocks f - 1
    else get_nof_existential_blocks f

-- `std::sort(universal_variables.begin(), universal_variables.begin() + n)`
pub sort_prefix : ℕ → List ℕ → List ℕ
sort_prefix n us = sort (take n us) ++ drop n us

-- The inner loop: each variable of a block gets the dependencies, if it has none yet.
pub emplace_each : List ℕ → List ℕ → Map (List ℕ) → Map (List ℕ)
emplace_each [] deps m = m
emplace_each (e ∷ es) deps m = emplace_each es deps (emplace m e deps)

-- What the loop over the blocks changes.
pub record Progress : Type 0 where
  pub index : ℕ
  pub universal_index : ℕ
  pub universals : List ℕ
  pub dependency_map : Map (List ℕ)

pub start : Dqdimacs → Progress
unfolding sort_prefix
start f =
    if f.first_block_type
    then record {
      index = 0;
      universal_index = 1;
      universals = sort_prefix (get_or f.universal_blocks 1 0) f.universal_variables;
      dependency_map = [];
    }
    else record {
      index = 0;
      universal_index = 0;
      universals = f.universal_variables;
      dependency_map = [];
    }

pub block_step : Dqdimacs → Progress → Progress
unfolding emplace_each sort_prefix get_nof_universal_blocks
block_step f s =
    let block =
      range (get_or f.existential_blocks s.index 0) (get_or f.existential_blocks (s.index + 1) 0)
        f.existential_variables in
    let more = ltb s.universal_index (get_nof_universal_blocks f) in
    record {
      index = s.index + 1;
      universal_index = if more then s.universal_index + 1 else s.universal_index;
      universals =
          if more
          then sort_prefix (get_or f.universal_blocks (s.universal_index + 1) 0) s.universals
          else s.universals;
      dependency_map =
          emplace_each block (take (get_or f.universal_blocks s.universal_index 0) s.universals)
            s.dependency_map;
    }

-- `for (int i = 0; i < n; i++)`
pub block_steps : Dqdimacs → ℕ → Progress → Progress
unfolding block_step
block_steps f zero s = s
block_steps f (suc n) s = block_steps f n (block_step f s)

emplace_explicit : Map (List ℕ) → Map (List ℕ) → Map (List ℕ)
emplace_explicit [] m = m
emplace_explicit ((v, deps) ∷ explicit) m = emplace_explicit explicit (emplace m v deps)

assign_none : List ℕ → Map (List ℕ) → Map (List ℕ)
assign_none [] m = m
assign_none (e ∷ es) m = assign_none es (assign m e [])

-- The dependencies, and the universal variables in the order that they get.
pub compute_dependencies : Bool → Dqdimacs → Map (List ℕ) × List ℕ
unfolding block_index_end start block_steps emplace_explicit assign_none get_all_existentials
compute_dependencies ignore_innermost_existentials f =
    if is_empty f.universal_variables
    then (assign_none (get_all_existentials f) [], f.universal_variables)
    else let s = block_steps f (block_index_end ignore_innermost_existentials f) (start f) in
      (emplace_explicit f.explicit_dependencies s.dependency_map, s.universals)
