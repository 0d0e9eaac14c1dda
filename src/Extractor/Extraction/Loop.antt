-- ===== src/Extractor/Extraction/Loop.antt =====
-- The loop over the blocks from its start: before the block of an existential run it has read the
-- older runs.
use pedant_solver.Base.{
  ℕ, zero, suc, ◌+◌, ◌≡◌, refl, sym, ap, ◌∙◌, subst, Bool, true, false, ◌||◌, List, [], ◌∷◌, ◌++◌,
  arith, ltb, if◌then◌else◌, length, length-append, get_or,
}
use pedant_solver.Base.Maps.{has}
use pedant_solver.Base.Sets.{contains, contains-append, sort, contains-sort}
use pedant_solver.Base.Sets.{length-sort}
use mathlib.Core.List.{append_assoc}
use pedant_solver.Dqdimacs.{Dqdimacs, get_nof_universal_blocks}
use pedant_solver.Dqdimacs.Blocks.{
  Runs, Shows, Alternates, run_variables, count, length-run_offsets,
}
use pedant_solver.Extractor.{sort_prefix, Progress, start, block_step, block_steps}
use pedant_solver.Extractor.Ranges.{
  take-append, drop-append, run_variables-append, offset_of_older, count-append,
}
use pedant_solver.Extractor.Extraction.{At, depends, precedes, step_has_entry, step_entry, plus_one}

sort_prefix-append :
    (xs ys : List ℕ) (n : ℕ) → n ≡ length xs → sort_prefix n (xs ++ ys) ≡ sort xs ++ ys
unfolding sort_prefix
sort_prefix-append xs ys n e = rw (e, take-append xs ys, drop-append xs ys) refl

pub reassociate :
    (f : Dqdimacs) (newer : Runs) (run : Bool × List ℕ) (older : Runs)
    → Shows f (newer ++ run ∷ older)
    → Shows f ((newer ++ run ∷ []) ++ older)
reassociate f newer run older s = subst (Shows f) (sym (append_assoc newer (run ∷ []) older)) s

next_offset :
    (f : Dqdimacs) (newer : Runs) (vs ws : List ℕ) (older : Runs) (i : ℕ)
    → Shows f (newer ++ (true, vs) ∷ (false, ws) ∷ older)
    → i ≡ count true older
    → get_or f.universal_blocks (i + 1) 0 ≡ length (run_variables true older ++ vs)
unfolding count run_variables
next_offset f newer vs ws older i s e =
    rw (e, plus_one (count true older), s.universal_offsets)
      (offset_of_older true newer ((true, vs) ∷ (false, ws) ∷ older))

more_blocks :
    (f : Dqdimacs) (newer : Runs) (vs ws : List ℕ) (older : Runs) (i : ℕ)
    → Shows f (newer ++ (true, vs) ∷ (false, ws) ∷ older)
    → i ≡ count true older
    → ltb i (get_nof_universal_blocks f) ≡ true
unfolding count get_nof_universal_blocks
more_blocks f newer vs ws older i s e = ground (
  arith,
  ap (length {A = ℕ}) s.universal_offsets,
  length-run_offsets true (newer ++ (true, vs) ∷ (false, ws) ∷ older),
  count-append true newer ((true, vs) ∷ (false, ws) ∷ older),
)

if_true : {A : Type 0} (b : Bool) (x y : A) → b ≡ true → (if b then x else y) ≡ x
if_true b x y e = rw e refl

-- From one existential run to the next.
pub At-next :
    (f : Dqdimacs) (newer : Runs) (vs ws : List ℕ) (older : Runs) (s : Progress)
    → Shows f (newer ++ (true, vs) ∷ (false, ws) ∷ older)
    → At (newer ++ (true, vs) ∷ []) older s
    → At newer ((true, vs) ∷ (false, ws) ∷ older) (block_step f s)
unfolding block_step count run_variables precedes
At-next f newer vs ws older s h a =
    let h' = reassociate f newer (true, vs) ((false, ws) ∷ older) h in
    let more = more_blocks f newer vs ws older s.universal_index h a.universal_index_is in
    let same_length : length (a.prefix ++ vs) ≡ length (run_variables true older ++ vs) =
      length-append a.prefix vs
      ∙ ap (λ n. n + length vs) a.prefix_length
      ∙ sym (length-append (run_variables true older) vs) in
    record {
      index_is = plus_one s.index ∙ ap suc a.index_is;
      universal_index_is =
          if_true _ _ _ more ∙ plus_one s.universal_index ∙ ap suc a.universal_index_is;
      prefix = sort (a.prefix ++ vs);
      universals_are =
          if_true _ _ _ more
          ∙ ap (sort_prefix (get_or f.universal_blocks (s.universal_index + 1) 0)) (
              a.universals_are
              ∙ ap (λ l. a.prefix ++ l) (run_variables-append true newer ((true, vs) ∷ []))
              ∙ sym (append_assoc a.prefix vs (run_variables true newer)))
          ∙ sort_prefix-append (a.prefix ++ vs) (run_variables true newer) _ (
              next_offset f newer vs ws older s.universal_index h a.universal_index_is
              ∙ sym same_length);
      prefix_length = length-sort (a.prefix ++ vs) ∙ same_length;
      prefix_contains = λ u.
          contains-sort (a.prefix ++ vs) u
          ∙ contains-append a.prefix vs u
          ∙ ap (λ b. b || contains vs u) (a.prefix_contains u)
          ∙ sym (contains-append (run_variables true older) vs u);
      has_entry = step_has_entry f (newer ++ (true, vs) ∷ []) ws older s h' a;
      entry = step_entry f (newer ++ (true, vs) ∷ []) ws older s h' a;
    }

-- The loop begins before the oldest existential run.
pub At-first_existential :
    (f : Dqdimacs) (newer : Runs)
    → f.first_block_type ≡ false
    → f.universal_variables ≡ run_variables true newer
    → At newer [] (start f)
unfolding start count run_variables precedes depends has
At-first_existential f newer e h = rw e (record {
  index_is = refl;
  universal_index_is = refl;
  prefix = [];
  universals_are = h;
  prefix_length = refl;
  prefix_contains = λ u. refl;
  has_entry = λ e. refl;
  entry = λ e u. refl;
})

pub At-first_universal :
    (f : Dqdimacs) (newer : Runs) (vs : List ℕ)
    → f.first_block_type ≡ true
    → f.universal_variables ≡ vs ++ run_variables true newer
    → get_or f.universal_blocks 1 0 ≡ length vs
    → At newer ((true, vs) ∷ []) (start f)
unfolding start count run_variables precedes depends has
At-first_universal f newer vs e h o = rw e (record {
  index_is = refl;
  universal_index_is = refl;
  prefix = sort vs;
  universals_are =
      ap (sort_prefix (get_or f.universal_blocks 1 0)) h
      ∙ sort_prefix-append vs (run_variables true newer) _ o;
  prefix_length = length-sort vs;
  prefix_contains = λ u. contains-sort vs u;
  has_entry = λ e. refl;
  entry = λ e u. refl;
})

pub block_steps-suc :
    (f : Dqdimacs) (n : ℕ) (s : Progress)
    → block_steps f (suc n) s ≡ block_step f (block_steps f n s)
unfolding block_steps
block_steps-suc f zero s = refl
block_steps-suc f (suc n) s = block_steps-suc f n (block_step f s)

pub Alternates-older :
    (first : Bool) (newer older : Runs) → Alternates first (newer ++ older) → Alternates first older
Alternates-older first [] older h = h
Alternates-older first (run ∷ []) [] h = record {}
Alternates-older first (run ∷ []) (next ∷ older) h = h.2
Alternates-older first (run ∷ next ∷ newer) older h =
    Alternates-older first (next ∷ newer) older h.2
