-- ===== src/Dqdimacs/Blocks.antt =====
-- The quantifier blocks of dqdimacs.cc against their abstract view: the sequence of maximal runs of
-- blocks of one kind.
pub mod Universal
pub mod Existential
use pedant_solver.Base.{
  is_empty, ℕ, zero, suc, ◌+◌, ◌-◌, ◌*◌, ◌/◌, ◌%◌, ◌^◌, ◌≤◌, ◌<◌, max, ◌≡◌, refl, sym, ap, ◌∙◌,
  subst, ◌≢◌, ◌↔◌, ◌⊎◌, inl, inr, Bool, true, false, not, ◌&&◌, ◌||◌, Option, none, some, List, [],
  ◌∷◌, ◌++◌, map, arith, ltb, leb, ◌==◌, if◌then◌else◌, Bool-cases, Option-cases, Bool_ext, not-not,
  ==_iff, ==_refl, length, get_elem?, set, any, all, select, All, length-append, any-append,
  all-append, All-append, All-left, length-select-le, length-set, get_or, get_or-set_self,
  get_or-set_ne, get_or-append_left,
}
use pedant_solver.Base.Maps.{
  Map, find, assign, erase, has, emplace, at_or, find-assign, find-erase, find-emplace,
}
use pedant_solver.Dqdimacs.{
  Dqdimacs, new_dqdimacs, last_block_type, set_back, max_with, add_universal_block,
  add_existential_block, universal_inserted, universal_closed, existential_inserted,
  existential_closed, checked_max_var, get_nof_universal_blocks, get_nof_existential_blocks,
}
use mathlib.Core.List.{append_assoc}

-- The runs, newest first, each with its kind (`true` for universal) and its variables.
abbrev pub Runs : Type 0
Runs = List (Bool × List ℕ)

abbrev pub same : Bool → Bool → Bool
same true b = b
same false b = not b

-- A block joins the newest run or begins one.
unfoldable pub add_run : Bool → List ℕ → Runs → Runs
add_run k [] runs = runs
add_run k (v ∷ vs) [] = (k, v ∷ vs) ∷ []
add_run k (v ∷ vs) ((j, ws) ∷ runs) =
    if same j k then (j, ws ++ v ∷ vs) ∷ runs else (k, v ∷ vs) ∷ (j, ws) ∷ runs

-- The variables of one kind, and the offsets at which its runs end.
unfoldable pub run_variables : Bool → Runs → List ℕ
run_variables k [] = []
run_variables k ((j, ws) ∷ runs) =
    let rest = run_variables k runs in if same j k then rest ++ ws else rest

unfoldable pub run_offsets : Bool → Runs → List ℕ
unfolding run_variables
run_offsets k [] = 0 ∷ []
run_offsets k ((j, ws) ∷ runs) =
    let rest = run_offsets k runs in
    if same j k then rest ++ length (run_variables k ((j, ws) ∷ runs)) ∷ [] else rest

-- Runs are not empty, their kinds alternate, and the oldest has the given kind.
abbrev pub Alternates : Bool → Runs → Type 0
Alternates first [] = Unit {0}
Alternates first ((k, ws) ∷ []) = (k ≡ first) × (is_empty ws ≡ false)
Alternates first ((k, ws) ∷ (j, vs) ∷ runs) =
    (k ≡ not j) × (is_empty ws ≡ false) × Alternates first ((j, vs) ∷ runs)

-- A formula stands for runs.
pub record Shows (f : Dqdimacs) (runs : Runs) : Type 0 where
  pub alternates : Alternates f.first_block_type runs
  pub universals : f.universal_variables ≡ run_variables true runs
  pub universal_offsets : f.universal_blocks ≡ run_offsets true runs
  pub existentials : f.existential_variables ≡ run_variables false runs
  pub existential_offsets : f.existential_blocks ≡ run_offsets false runs

is_empty-append : (xs : List ℕ) (y : ℕ) (ys : List ℕ) → is_empty (xs ++ y ∷ ys) ≡ false
is_empty-append [] y ys = refl
is_empty-append (x ∷ xs) y ys = refl

pub is_empty-append_left : (xs ys : List ℕ) → is_empty xs ≡ false → is_empty (xs ++ ys) ≡ false
is_empty-append_left [] ys h = cc
is_empty-append_left (x ∷ xs) ys h = refl

pub set_back-append : (xs : List ℕ) (m n : ℕ) → set_back (xs ++ m ∷ []) n ≡ xs ++ n ∷ []
unfolding set_back
set_back-append [] m n = refl
set_back-append (x ∷ []) m n = refl
set_back-append (x ∷ y ∷ xs) m n = ap (λ l. x ∷ l) (set_back-append (y ∷ xs) m n)

-- How many runs of a kind there are.
unfoldable pub count : Bool → Runs → ℕ
count k [] = 0
count k ((j, ws) ∷ runs) = if same j k then suc (count k runs) else count k runs

pub length-run_offsets : (k : Bool) (runs : Runs) → length (run_offsets k runs) ≡ suc (count k runs)
unfolding run_offsets count
length-run_offsets k [] = refl
length-run_offsets k ((j, ws) ∷ runs) = ground (
  arith,
  length-run_offsets k runs,
  length-append (run_offsets k runs) (length (run_variables k ((j, ws) ∷ runs)) ∷ []),
)

-- The newest run has the kind of the oldest exactly when that kind has a run more than the other.
pub count-Alternates :
    (first k : Bool) (ws : List ℕ) (runs : Runs)
    → Alternates first ((k, ws) ∷ runs)
    → count first ((k, ws) ∷ runs) ≡ (
        if same k first
        then suc (count (not first) ((k, ws) ∷ runs))
        else count (not first) ((k, ws) ∷ runs))
unfolding count
count-Alternates first k ws [] h = ground arith
count-Alternates first k ws ((j, vs) ∷ runs) h =
    ground (arith, count-Alternates first j vs runs h.2)

-- If a formula shows a sequence of runs that is not empty, `lastBlockType` is the kind of the newest
-- run.
pub last_block_type_lem :
    (f : Dqdimacs) (k : Bool) (ws : List ℕ) (runs : Runs)
    → Shows f ((k, ws) ∷ runs)
    → last_block_type f ≡ k
unfolding last_block_type
last_block_type_lem f k ws runs s = ground (
  arith,
  count-Alternates f.first_block_type k ws runs s.alternates,
  length-run_offsets true ((k, ws) ∷ runs),
  length-run_offsets false ((k, ws) ∷ runs),
  ap (length {A = ℕ}) s.universal_offsets,
  ap (length {A = ℕ}) s.existential_offsets,
)

-- The oldest run is not empty, so its kind has variables.
pub oldest_variables :
    (first k : Bool) (ws : List ℕ) (runs : Runs)
    → Alternates first ((k, ws) ∷ runs)
    → is_empty (run_variables first ((k, ws) ∷ runs)) ≡ false
unfolding run_variables
oldest_variables first k ws [] h = ground arith
oldest_variables first k ws ((j, vs) ∷ runs) h = ground (
  arith,
  oldest_variables first j vs runs h.2,
  is_empty-append_left (run_variables first ((j, vs) ∷ runs)) ws,
)

-- The update of the offsets: a new one, or the last one replaced.
pub if_pushed :
    (b t : Bool) (xs ys : List ℕ) → (b ≡ false) ⊎ (t ≡ true) → (if not b || t then xs else ys) ≡ xs
if_pushed false t xs ys h = refl
if_pushed true t xs ys (inl e) = cc
if_pushed true t xs ys (inr e) = rw e refl

pub if_replaced :
    (b t : Bool) (xs ys : List ℕ) → b ≡ true → t ≡ false → (if not b || t then xs else ys) ≡ ys
if_replaced b t xs ys e₁ e₂ = rw (e₁, e₂) refl

pub joined-Alternates :
    (first k : Bool) (ws vs : List ℕ) (runs : Runs)
    → Alternates first ((k, ws) ∷ runs)
    → Alternates first ((k, ws ++ vs) ∷ runs)
joined-Alternates first k ws vs [] h = (h.0, is_empty-append_left ws vs h.1)
joined-Alternates first k ws vs (run ∷ runs) h = (h.0, is_empty-append_left ws vs h.1, h.2)

-- A kind that has a run has an offset after the first.
pub some_offset :
    (k : Bool) (ws : List ℕ) (runs : Runs)
    → ((length (run_offsets k ((k, ws) ∷ runs)) - 1) == 0) ≡ false
unfolding count
some_offset true ws runs = ground (arith, length-run_offsets true ((true, ws) ∷ runs))
some_offset false ws runs = ground (arith, length-run_offsets false ((false, ws) ∷ runs))

-- A new formula shows no block, whatever its uninitialised type is.
pub new_dqdimacs-Shows : (junk : Bool) → Shows (new_dqdimacs junk) []
unfolding new_dqdimacs run_variables run_offsets
new_dqdimacs-Shows junk = record {
  alternates = record {};
  universals = refl;
  universal_offsets = refl;
  existentials = refl;
  existential_offsets = refl;
}
