-- ===== src/Extractor/Extraction.antt =====
-- The dependencies that the loop over the blocks computes are the universal variables of the runs
-- before a variable's own.
pub mod Loop
pub mod Result
use pedant_solver.Base.{
  ℕ, zero, suc, ◌+◌, ◌-◌, ◌*◌, ◌/◌, ◌%◌, ◌^◌, ◌≤◌, ◌<◌, max, ◌≡◌, refl, sym, ap, ◌∙◌, subst, ◌≢◌,
  ◌↔◌, ◌⊎◌, inl, inr, Bool, true, false, not, ◌&&◌, ◌||◌, Option, none, some, List, [], ◌∷◌, ◌++◌,
  map, arith, ltb, leb, ◌==◌, if◌then◌else◌, Bool-cases, Option-cases, Bool_ext, not-not, ==_iff,
  ==_refl, length, get_elem?, set, is_empty, any, all, select, All, length-append, any-append,
  all-append, All-append, All-left, length-select-le, length-set, get_or, get_or-set_self,
  get_or-set_ne, get_or-append_left,
}
use pedant_solver.Base.Maps.{
  Map, find, assign, erase, has, emplace, at_or, find-assign, find-erase, find-emplace,
}
use pedant_solver.Base.Sets.{
  contains, Above, IsAscending, Above-mono, Above-IsAscending, contains_below, contains-append,
  insert, contains-insert, insert-Above, insert-IsAscending, insert_all, contains-insert_all,
  insert_all-IsAscending, includes, includes_lem, all_of_contains, contains_of_all, binary_search,
  binary_search-contains, sort, contains-sort, IsDistinct, sort-IsAscending,
}
use mathlib.Core.List.{append-nil, append_assoc}
use pedant_solver.Dqdimacs.{Dqdimacs, get_nof_universal_blocks}
use pedant_solver.Dqdimacs.Blocks.{
  Runs, Shows, Alternates, same, run_variables, run_offsets, count, length-run_offsets,
}
use pedant_solver.Extractor.{
  take, drop, range, sort_prefix, emplace_each, Progress, start, block_step, block_steps,
  block_index_end, compute_dependencies,
}
use pedant_solver.Extractor.Ranges.{
  take-append, drop-append, range-append, run_variables-append, offset_of_older, offset_below,
  count-append,
}

-- Is the second variable a dependency of the first?
unfoldable pub depends : Map (List ℕ) → ℕ → ℕ → Bool
unfolding find
depends m e u = elim (find m e) [ none ↦ false | some deps ↦ contains deps u ]

-- Is there a run of the first, existential, variable and an older run of the second, universal, one?
unfoldable pub precedes : Runs → ℕ → ℕ → Bool
unfolding run_variables
precedes [] e u = false
precedes ((true, ws) ∷ runs) e u = precedes runs e u
precedes ((false, ws) ∷ runs) e u =
    if contains (run_variables false runs) e
    then precedes runs e u
    else contains ws e && contains (run_variables true runs) u

pub has-emplace :
    (m : Map (List ℕ)) (k e : ℕ) (deps : List ℕ) → has (emplace m k deps) e ≡ (has m e || k == e)
unfolding has
has-emplace m k e deps = ground (arith, find-emplace m k e deps)

pub depends-emplace :
    (m : Map (List ℕ)) (k e u : ℕ) (deps : List ℕ)
    → depends (emplace m k deps) e u
      ≡ (if has m e then depends m e u else k == e && contains deps u)
unfolding depends has
depends-emplace m k e u deps = ground (arith, find-emplace m k e deps)

has-emplace_each :
    (es deps : List ℕ) (m : Map (List ℕ)) (e : ℕ)
    → has (emplace_each es deps m) e ≡ (has m e || contains es e)
unfolding emplace_each
has-emplace_each [] deps m e = ground arith
has-emplace_each (k ∷ es) deps m e =
    ground (arith, has-emplace_each es deps (emplace m k deps) e, has-emplace m k e deps)

depends-emplace_each :
    (es deps : List ℕ) (m : Map (List ℕ)) (e u : ℕ)
    → depends (emplace_each es deps m) e u
      ≡ (if has m e then depends m e u else contains es e && contains deps u)
unfolding emplace_each depends has
depends-emplace_each [] deps m e u = ground arith
depends-emplace_each (k ∷ es) deps m e u = ground (
  arith,
  depends-emplace_each es deps (emplace m k deps) e u,
  has-emplace m k e deps,
  depends-emplace m k e u deps,
)

-- The state of the loop before the block of a run: what it has read of the universal variables is a
-- reordering of those of the older runs.
pub record At (newer older : Runs) (s : Progress) : Type 0 where
  pub index_is : s.index ≡ count false older
  pub universal_index_is : s.universal_index ≡ count true older
  pub prefix : List ℕ
  pub universals_are : s.universals ≡ prefix ++ run_variables true newer
  pub prefix_length : length prefix ≡ length (run_variables true older)
  pub prefix_contains : (u : ℕ) → contains prefix u ≡ contains (run_variables true older) u
  pub has_entry : (e : ℕ) → has s.dependency_map e ≡ contains (run_variables false older) e
  pub entry : (e u : ℕ) → depends s.dependency_map e u ≡ precedes older e u

pub plus_one : (n : ℕ) → n + 1 ≡ suc n
plus_one n = omega arith

-- The range of the block is the run.
block_range :
    (f : Dqdimacs) (newer : Runs) (ws : List ℕ) (older : Runs) (i : ℕ)
    → Shows f (newer ++ (false, ws) ∷ older)
    → i ≡ count false older
    → range
        (get_or f.existential_blocks i 0)
        (get_or f.existential_blocks (i + 1) 0)
        f.existential_variables
      ≡ ws
unfolding run_variables count
block_range f newer ws older i s e =
    rw
      (
        e,
        plus_one (count false older),
        s.existential_offsets,
        s.existentials,
        offset_below false newer (false, ws) older,
        offset_of_older false newer ((false, ws) ∷ older),
        run_variables-append false newer ((false, ws) ∷ older),
      )
      (range-append (run_variables false older) ws (run_variables false newer))

-- The variables read so far are the prefix.
block_prefix :
    (f : Dqdimacs) (newer : Runs) (run : Bool × List ℕ) (older : Runs) (s : Progress)
    → Shows f (newer ++ run ∷ older)
    → (a : At newer older s)
    → take (get_or f.universal_blocks s.universal_index 0) s.universals ≡ a.prefix
block_prefix f newer run older s h a =
    rw
      (
        a.universal_index_is,
        h.universal_offsets,
        offset_below true newer run older,
        sym a.prefix_length,
        a.universals_are,
      )
      (take-append a.prefix (run_variables true newer))

-- The map after the block of an existential run.
pub step_has_entry :
    (f : Dqdimacs) (newer : Runs) (ws : List ℕ) (older : Runs) (s : Progress)
    → Shows f (newer ++ (false, ws) ∷ older)
    → At newer older s
    → (e : ℕ)
    → has (block_step f s).dependency_map e ≡ contains (run_variables false ((false, ws) ∷ older)) e
unfolding block_step run_variables
step_has_entry f newer ws older s h a e =
    has-emplace_each _ _ s.dependency_map e
    ∙ ap (λ b. has s.dependency_map e || contains b e)
        (block_range f newer ws older s.index h a.index_is)
    ∙ ap (λ b. b || contains ws e) (a.has_entry e)
    ∙ sym (contains-append (run_variables false older) ws e)

pub step_entry :
    (f : Dqdimacs) (newer : Runs) (ws : List ℕ) (older : Runs) (s : Progress)
    → Shows f (newer ++ (false, ws) ∷ older)
    → At newer older s
    → (e u : ℕ) → depends (block_step f s).dependency_map e u ≡ precedes ((false, ws) ∷ older) e u
unfolding block_step precedes
step_entry f newer ws older s h a e u = ground (
  arith,
  depends-emplace_each
      (range (get_or f.existential_blocks s.index 0) (get_or f.existential_blocks (s.index + 1) 0)
        f.existential_variables)
      (take (get_or f.universal_blocks s.universal_index 0) s.universals) s.dependency_map e u,
  ap (λ b. contains b e) (block_range f newer ws older s.index h a.index_is),
  ap (λ b. contains b u) (block_prefix f newer (false, ws) older s h a),
  a.has_entry e,
  a.entry e u,
  a.prefix_contains u,
)
