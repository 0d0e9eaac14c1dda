-- ===== src/Dqdimacs/Blocks/Existential.antt =====
-- `addExistentialBlock` on the abstract view of the quantifier blocks.
use pedant_solver.Base.{
  ℕ, ◌-◌, ◌≡◌, refl, sym, ap, ◌∙◌, subst, inl, inr, Bool, true, false, not, List, [], ◌∷◌, ◌++◌,
  arith, ◌==◌, if◌then◌else◌, length,
}
use pedant_solver.Dqdimacs.{
  Dqdimacs, last_block_type, add_existential_block, existential_inserted,
  get_nof_existential_blocks,
}
use mathlib.Core.List.{append_assoc}
use pedant_solver.Dqdimacs.Blocks.{
  Runs, add_run, run_variables, run_offsets, Alternates, Shows, set_back-append, if_pushed,
  if_replaced, joined-Alternates, some_offset, oldest_variables, last_block_type_lem,
}

-- The type of the first block is settled by the first run.
existential_first :
    (f : Dqdimacs) (k : Bool) (ws : List ℕ) (runs : Runs) (vs : List ℕ)
    → Shows f ((k, ws) ∷ runs)
    → (existential_inserted vs f).first_block_type ≡ f.first_block_type
unfolding existential_inserted
existential_first f k ws runs vs s =
    ground (arith, oldest_variables f.first_block_type k ws runs s.alternates, s.universals)

existential_last :
    (f : Dqdimacs) (k : Bool) (ws : List ℕ) (runs : Runs) (vs : List ℕ)
    → Shows f ((k, ws) ∷ runs)
    → last_block_type (existential_inserted vs f) ≡ k
unfolding last_block_type existential_inserted
existential_last f k ws runs vs s =
    ap (λ b. if length f.existential_blocks == length f.universal_blocks then not b else b)
      (existential_first f k ws runs vs s)
    ∙ last_block_type_lem f k ws runs s

existential_begins :
    (f : Dqdimacs) (v : ℕ) (vs : List ℕ)
    → Shows f []
    → Shows (add_existential_block (v ∷ vs) f) ((false, v ∷ vs) ∷ [])
unfolding add_existential_block run_variables run_offsets get_nof_existential_blocks
existential_begins f v vs s = record {
  alternates = (ground (arith, s.universals), refl);
  existentials = ap (λ l. l ++ v ∷ vs) s.existentials;
  existential_offsets =
      if_pushed (not (last_block_type (existential_inserted (v ∷ vs) f))) _ _ _
        (inr (ap (λ l. (length l - 1) == 0) s.existential_offsets))
      ∙ simp (s.existentials, s.existential_offsets);
  universals = s.universals;
  universal_offsets = s.universal_offsets;
}

existential_follows :
    (f : Dqdimacs) (ws : List ℕ) (runs : Runs) (v : ℕ) (vs : List ℕ)
    → Shows f ((true, ws) ∷ runs)
    → Shows (add_existential_block (v ∷ vs) f) ((false, v ∷ vs) ∷ (true, ws) ∷ runs)
unfolding add_existential_block run_variables run_offsets
existential_follows f ws runs v vs s = record {
  alternates = (
    refl,
    refl,
    subst (λ b. Alternates b ((true, ws) ∷ runs))
        (sym (existential_first f true ws runs (v ∷ vs) s)) s.alternates,
  );
  existentials = ap (λ l. l ++ v ∷ vs) s.existentials;
  existential_offsets =
      if_pushed _ _ _ _ (inl (ap (λ b. not b) (existential_last f true ws runs (v ∷ vs) s)))
      ∙ simp (s.existentials, s.existential_offsets);
  universals = s.universals;
  universal_offsets = s.universal_offsets;
}

existential_joins :
    (f : Dqdimacs) (ws : List ℕ) (runs : Runs) (v : ℕ) (vs : List ℕ)
    → Shows f ((false, ws) ∷ runs)
    → Shows (add_existential_block (v ∷ vs) f) ((false, ws ++ v ∷ vs) ∷ runs)
unfolding add_existential_block run_variables run_offsets get_nof_existential_blocks
existential_joins f ws runs v vs s = record {
  alternates = joined-Alternates _ false ws (v ∷ vs) runs (
      subst (λ b. Alternates b ((false, ws) ∷ runs))
        (sym (existential_first f false ws runs (v ∷ vs) s)) s.alternates);
  existentials =
      ap (λ l. l ++ v ∷ vs) s.existentials ∙ append_assoc (run_variables false runs) ws (v ∷ vs);
  existential_offsets =
      if_replaced _ _ _ _ (ap (λ b. not b) (existential_last f false ws runs (v ∷ vs) s))
        (ap (λ l. (length l - 1) == 0) s.existential_offsets ∙ some_offset false ws runs)
      ∙ simp (s.existentials, s.existential_offsets, set_back-append, append_assoc);
  universals = s.universals;
  universal_offsets = s.universal_offsets;
}

-- Adding a block of existential variables to a formula that shows a sequence of maximal runs gives a
-- formula that shows the sequence with the block's variables added: joined to the newest run if that
-- is existential, a new run otherwise, nothing for an empty block.
pub add_existential_block-Shows :
    (f : Dqdimacs) (runs : Runs) (vs : List ℕ)
    → Shows f runs
    → Shows (add_existential_block vs f) (add_run false vs runs)
unfolding add_existential_block add_run
add_existential_block-Shows f runs [] s = s
add_existential_block-Shows f [] (v ∷ vs) s = existential_begins f v vs s
add_existential_block-Shows f ((false, ws) ∷ runs) (v ∷ vs) s = existential_joins f ws runs v vs s
add_existential_block-Shows f ((true, ws) ∷ runs) (v ∷ vs) s = existential_follows f ws runs v vs s
