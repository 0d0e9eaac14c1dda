-- ===== src/Dqdimacs/Blocks/Universal.antt =====
-- `addUniversalBlock` on the abstract view of the quantifier blocks.
use pedant_solver.Base.{
  ℕ, ◌-◌, ◌≡◌, refl, sym, ap, ◌∙◌, subst, inl, inr, Bool, true, false, not, List, [], ◌∷◌, ◌++◌,
  arith, ◌==◌, if◌then◌else◌, length,
}
use pedant_solver.Dqdimacs.{
  Dqdimacs, last_block_type, add_universal_block, universal_inserted, get_nof_universal_blocks,
}
use mathlib.Core.List.{append_assoc}
use pedant_solver.Dqdimacs.Blocks.{
  Runs, add_run, run_variables, run_offsets, Alternates, Shows, set_back-append, if_pushed,
  if_replaced, joined-Alternates, some_offset, oldest_variables, last_block_type_lem,
}

-- The type of the first block is settled by the first run.
universal_first :
    (f : Dqdimacs) (k : Bool) (ws : List ℕ) (runs : Runs) (vs : List ℕ)
    → Shows f ((k, ws) ∷ runs)
    → (universal_inserted vs f).first_block_type ≡ f.first_block_type
unfolding universal_inserted
universal_first f k ws runs vs s =
    ground (arith, oldest_variables f.first_block_type k ws runs s.alternates, s.existentials)

universal_last :
    (f : Dqdimacs) (k : Bool) (ws : List ℕ) (runs : Runs) (vs : List ℕ)
    → Shows f ((k, ws) ∷ runs)
    → last_block_type (universal_inserted vs f) ≡ k
unfolding last_block_type universal_inserted
universal_last f k ws runs vs s =
    ap (λ b. if length f.existential_blocks == length f.universal_blocks then not b else b)
      (universal_first f k ws runs vs s)
    ∙ last_block_type_lem f k ws runs s

universal_begins :
    (f : Dqdimacs) (v : ℕ) (vs : List ℕ)
    → Shows f []
    → Shows (add_universal_block (v ∷ vs) f) ((true, v ∷ vs) ∷ [])
unfolding add_universal_block run_variables run_offsets get_nof_universal_blocks
universal_begins f v vs s = record {
  alternates = (ground (arith, s.existentials), refl);
  universals = ap (λ l. l ++ v ∷ vs) s.universals;
  universal_offsets =
      if_pushed (last_block_type (universal_inserted (v ∷ vs) f)) _ _ _
        (inr (ap (λ l. (length l - 1) == 0) s.universal_offsets))
      ∙ simp (s.universals, s.universal_offsets);
  existentials = s.existentials;
  existential_offsets = s.existential_offsets;
}

universal_follows :
    (f : Dqdimacs) (ws : List ℕ) (runs : Runs) (v : ℕ) (vs : List ℕ)
    → Shows f ((false, ws) ∷ runs)
    → Shows (add_universal_block (v ∷ vs) f) ((true, v ∷ vs) ∷ (false, ws) ∷ runs)
unfolding add_universal_block run_variables run_offsets
universal_follows f ws runs v vs s = record {
  alternates = (
    refl,
    refl,
    subst (λ b. Alternates b ((false, ws) ∷ runs))
        (sym (universal_first f false ws runs (v ∷ vs) s)) s.alternates,
  );
  universals = ap (λ l. l ++ v ∷ vs) s.universals;
  universal_offsets =
      if_pushed _ _ _ _ (inl (universal_last f false ws runs (v ∷ vs) s))
      ∙ simp (s.universals, s.universal_offsets);
  existentials = s.existentials;
  existential_offsets = s.existential_offsets;
}

universal_joins :
    (f : Dqdimacs) (ws : List ℕ) (runs : Runs) (v : ℕ) (vs : List ℕ)
    → Shows f ((true, ws) ∷ runs)
    → Shows (add_universal_block (v ∷ vs) f) ((true, ws ++ v ∷ vs) ∷ runs)
unfolding add_universal_block run_variables run_offsets get_nof_universal_blocks
universal_joins f ws runs v vs s = record {
  alternates = joined-Alternates _ true ws (v ∷ vs) runs (
      subst (λ b. Alternates b ((true, ws) ∷ runs))
        (sym (universal_first f true ws runs (v ∷ vs) s)) s.alternates);
  universals =
      ap (λ l. l ++ v ∷ vs) s.universals ∙ append_assoc (run_variables true runs) ws (v ∷ vs);
  universal_offsets =
      if_replaced _ _ _ _ (universal_last f true ws runs (v ∷ vs) s)
        (ap (λ l. (length l - 1) == 0) s.universal_offsets ∙ some_offset true ws runs)
      ∙ simp (s.universals, s.universal_offsets, set_back-append, append_assoc);
  existentials = s.existentials;
  existential_offsets = s.existential_offsets;
}

-- Adding a block of universal variables to a formula that shows a sequence of maximal runs gives a
-- formula that shows the sequence with the block's variables added: joined to the newest run if that
-- is universal, a new run otherwise, nothing for an empty block.
pub add_universal_block-Shows :
    (f : Dqdimacs) (runs : Runs) (vs : List ℕ)
    → Shows f runs
    → Shows (add_universal_block vs f) (add_run true vs runs)
unfolding add_universal_block add_run
add_universal_block-Shows f runs [] s = s
add_universal_block-Shows f [] (v ∷ vs) s = universal_begins f v vs s
add_universal_block-Shows f ((true, ws) ∷ runs) (v ∷ vs) s = universal_joins f ws runs v vs s
add_universal_block-Shows f ((false, ws) ∷ runs) (v ∷ vs) s = universal_follows f ws runs v vs s
