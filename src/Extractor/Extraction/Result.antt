-- ===== src/Extractor/Extraction/Result.antt =====
-- What the extraction of dependencies computes, over the abstract view of the blocks.
use pedant_solver.Base.{
  ℕ, ◌≡◌, refl, sym, ap, ◌∙◌, subst, inl, inr, Bool, true, false, not, ◌&&◌, ◌||◌, List, [], ◌∷◌,
  ◌++◌, arith, if◌then◌else◌, Bool-cases, length, is_empty, get_or,
}
use pedant_solver.Base.Maps.{Map, find, has, emplace}
use pedant_solver.Base.Sets.{contains}
use pedant_solver.Dqdimacs.{Dqdimacs, get_nof_existential_blocks}
use pedant_solver.Dqdimacs.Blocks.{
  Runs, Shows, run_variables, run_offsets, count, length-run_offsets, last_block_type_lem,
}
use pedant_solver.Extractor.{
  Progress, start, block_steps, block_index_end, compute_dependencies, emplace_explicit,
}
use pedant_solver.Extractor.Ranges.{run_variables-append, offset_of_older}
use pedant_solver.Extractor.Extraction.{
  At, depends, precedes, step_has_entry, step_entry, has-emplace, depends-emplace,
}
use pedant_solver.Extractor.Extraction.Loop.{
  At-next, At-first_existential, At-first_universal, block_steps-suc, Alternates-older, reassociate,
}

no_repeat : (b : Bool) → (b ≡ not b) → ⊥
no_repeat true e = ground arith
no_repeat false e = ground arith

At-skip :
    (newer : Runs) (ws : List ℕ) (older : Runs) (s : Progress)
    → At (newer ++ (false, ws) ∷ []) older s
    → At newer older s
unfolding run_variables
At-skip newer ws older s a = record {
  index_is = a.index_is;
  universal_index_is = a.universal_index_is;
  prefix = a.prefix;
  universals_are =
      a.universals_are
      ∙ ap (λ l. a.prefix ++ l) (run_variables-append true newer ((false, ws) ∷ []));
  prefix_length = a.prefix_length;
  prefix_contains = a.prefix_contains;
  has_entry = a.has_entry;
  entry = a.entry;
}

At-run :
    (f : Dqdimacs) (newer : Runs) (ws : List ℕ) (older : Runs)
    → Shows f (newer ++ (false, ws) ∷ older)
    → At newer older (block_steps f (count false older) (start f))
unfolding block_steps count run_variables
At-run f newer ws [] h =
    At-first_existential f newer
      (sym (Alternates-older f.first_block_type newer ((false, ws) ∷ []) h.alternates).0)
      (h.universals ∙ run_variables-append true newer ((false, ws) ∷ []))
At-run f newer ws ((true, vs) ∷ []) h =
    At-first_universal f newer vs
      (sym (Alternates-older f.first_block_type newer _ h.alternates).2.0)
      (h.universals ∙ run_variables-append true newer ((false, ws) ∷ (true, vs) ∷ []))
      (ap (λ l. get_or l 1 0) h.universal_offsets
        ∙ offset_of_older true newer ((false, ws) ∷ (true, vs) ∷ []))
At-run f newer ws ((true, vs) ∷ (false, us) ∷ older) h =
    let h₁ = reassociate f newer (false, ws) ((true, vs) ∷ (false, us) ∷ older) h in
    let h₂ = reassociate f (newer ++ (false, ws) ∷ []) (true, vs) ((false, us) ∷ older) h₁ in
    subst (At newer ((true, vs) ∷ (false, us) ∷ older))
      (sym (block_steps-suc f (count false older) (start f)))
      (At-skip newer ws _ _ (
        At-next f (newer ++ (false, ws) ∷ []) vs us older _ h₁
          (At-run f ((newer ++ (false, ws) ∷ []) ++ (true, vs) ∷ []) us older h₂)))
At-run f newer ws ((true, vs) ∷ (true, us) ∷ older) h =
    absurd (no_repeat true (Alternates-older f.first_block_type newer _ h.alternates).2.0)
At-run f newer ws ((false, vs) ∷ older) h =
    absurd (no_repeat false (Alternates-older f.first_block_type newer _ h.alternates).0)

-- The runs that the loop covers: an innermost existential run may be ignored.
pub covered : Bool → Runs → Runs
covered ignore [] = []
covered ignore ((k, ws) ∷ runs) = if ignore && not k then runs else (k, ws) ∷ runs

newest : Bool → Runs → Runs
newest ignore [] = []
newest ignore ((k, ws) ∷ runs) = if ignore && not k then (k, ws) ∷ [] else []

covered-append : (ignore : Bool) (runs : Runs) → newest ignore runs ++ covered ignore runs ≡ runs
unfolding covered newest
covered-append ignore [] = refl
covered-append true ((true, ws) ∷ runs) = refl
covered-append true ((false, ws) ∷ runs) = refl
covered-append false ((true, ws) ∷ runs) = refl
covered-append false ((false, ws) ∷ runs) = refl

block_index_end_lem :
    (f : Dqdimacs) (ignore : Bool) (runs : Runs)
    → Shows f runs
    → block_index_end ignore f ≡ count false (covered ignore runs)
unfolding block_index_end covered count get_nof_existential_blocks run_offsets
block_index_end_lem f ignore [] h = ground (arith, ap (length {A = ℕ}) h.existential_offsets)
block_index_end_lem f ignore ((k, ws) ∷ runs) h = ground (
  arith,
  last_block_type_lem f k ws runs h,
  ap (length {A = ℕ}) h.existential_offsets,
  length-run_offsets false ((k, ws) ∷ runs),
)

start_map : (f : Dqdimacs) → (start f).dependency_map ≡ []
unfolding start
start_map f = elim (Bool-cases f.first_block_type) [ inl e ↦ rw e refl | inr e ↦ rw e refl ]

-- The map of the loop after the blocks of some runs.
loop_has :
    (f : Dqdimacs) (newer older : Runs) (e : ℕ)
    → Shows f (newer ++ older)
    → has (block_steps f (count false older) (start f)).dependency_map e
      ≡ contains (run_variables false older) e
unfolding count run_variables block_steps has find
loop_has f newer [] e h = ap (λ m. has m e) (start_map f)
loop_has f newer ((true, ws) ∷ older) e h =
    loop_has f (newer ++ (true, ws) ∷ []) older e (reassociate f newer (true, ws) older h)
loop_has f newer ((false, ws) ∷ older) e h =
    ap (λ s. has s.dependency_map e) (block_steps-suc f (count false older) (start f))
    ∙ step_has_entry f newer ws older _ h (At-run f newer ws older h) e

loop_depends :
    (f : Dqdimacs) (newer older : Runs) (e u : ℕ)
    → Shows f (newer ++ older)
    → depends (block_steps f (count false older) (start f)).dependency_map e u ≡ precedes older e u
unfolding count run_variables precedes block_steps depends find
loop_depends f newer [] e u h = ap (λ m. depends m e u) (start_map f)
loop_depends f newer ((true, ws) ∷ older) e u h =
    loop_depends f (newer ++ (true, ws) ∷ []) older e u (reassociate f newer (true, ws) older h)
loop_depends f newer ((false, ws) ∷ older) e u h =
    ap (λ s. depends s.dependency_map e u) (block_steps-suc f (count false older) (start f))
    ∙ step_entry f newer ws older _ h (At-run f newer ws older h) e u

has-emplace_explicit :
    (explicit m : Map (List ℕ)) (e : ℕ)
    → has (emplace_explicit explicit m) e ≡ (has m e || has explicit e)
unfolding emplace_explicit has find
has-emplace_explicit [] m e = ground arith
has-emplace_explicit ((v, deps) ∷ explicit) m e =
    ground (arith, has-emplace_explicit explicit (emplace m v deps) e, has-emplace m v e deps)

depends-emplace_explicit :
    (explicit m : Map (List ℕ)) (e u : ℕ)
    → depends (emplace_explicit explicit m) e u
      ≡ (if has m e then depends m e u else depends explicit e u)
unfolding emplace_explicit has find depends
depends-emplace_explicit [] m e u = ground arith
depends-emplace_explicit ((v, deps) ∷ explicit) m e u = ground (
  arith,
  depends-emplace_explicit explicit (emplace m v deps) e u,
  has-emplace m v e deps,
  depends-emplace m v e u deps,
)

computed :
    (f : Dqdimacs) (ignore : Bool) (runs : Runs)
    → Shows f runs
    → is_empty f.universal_variables ≡ false
    → (compute_dependencies ignore f).0
      ≡ emplace_explicit f.explicit_dependencies
          (block_steps f (count false (covered ignore runs)) (start f)).dependency_map
unfolding compute_dependencies
computed f ignore runs h n = rw (n, block_index_end_lem f ignore runs h) refl

-- If a formula with universal variables shows a sequence of runs, the dependency map that the
-- extraction computes has as keys the variables of the covered existential runs and those with
-- explicit dependencies. A variable of a covered run depends on exactly the universal variables of
-- the runs before its own, and another key on its explicit dependencies. All runs are covered, but
-- for an innermost existential run that is to be ignored.
pub compute_dependencies_lem :
    (f : Dqdimacs) (ignore : Bool) (runs : Runs) (e u : ℕ)
    → Shows f runs
    → is_empty f.universal_variables ≡ false
    → (has (compute_dependencies ignore f).0 e
        ≡ (contains (run_variables false (covered ignore runs)) e || has f.explicit_dependencies e))
      × (depends (compute_dependencies ignore f).0 e u ≡ (
          if contains (run_variables false (covered ignore runs)) e
          then precedes (covered ignore runs) e u
          else depends f.explicit_dependencies e u))
compute_dependencies_lem f ignore runs e u h n =
    let s = block_steps f (count false (covered ignore runs)) (start f) in
    let h' = subst (Shows f) (sym (covered-append ignore runs)) h in
    let here = loop_has f (newest ignore runs) (covered ignore runs) e h' in
    (
      ap (λ m. has m e) (computed f ignore runs h n)
          ∙ has-emplace_explicit f.explicit_dependencies s.dependency_map e
          ∙ ap (λ b. b || has f.explicit_dependencies e) here,
      ap (λ m. depends m e u) (computed f ignore runs h n)
          ∙ depends-emplace_explicit f.explicit_dependencies s.dependency_map e u
          ∙ ground (arith, here, loop_depends f (newest ignore runs) (covered ignore runs) e u h'),
    )
