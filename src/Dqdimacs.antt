-- ===== src/Dqdimacs.antt =====
-- dqdimacs.h, dqdimacs.cc: a formula as it is read, with its quantifier blocks. A block of variables
-- joins the block before it if both are of one kind.
pub mod Blocks
pub mod Entries
use pedant_solver.Base.{
  is_empty, ℕ, zero, suc, ◌+◌, ◌-◌, ◌*◌, ◌/◌, ◌%◌, ◌^◌, ◌≤◌, ◌<◌, max, ◌≡◌, refl, sym, ap, ◌∙◌,
  subst, ◌≢◌, ◌↔◌, ◌⊎◌, inl, inr, Bool, true, false, not, ◌&&◌, ◌||◌, Option, none, some, List, [],
  ◌∷◌, ◌++◌, map, arith, ltb, leb, ◌==◌, if◌then◌else◌, Bool-cases, Option-cases, Bool_ext, not-not,
  ==_iff, ==_refl, length, get_elem?, set, any, all, select, All, length-append, any-append,
  all-append, All-append, All-left, length-select-le, length-set, get_or, get_or-set_self,
  get_or-set_ne, get_or-append_left,
}
use pedant_solver.Base.Maps.{
  Map, find, assign, erase, has, emplace, at_or, find-assign, find-erase, find-emplace,
}
use pedant_solver.Formula.{Clause}
use pedant_solver.Base.Int.{ℤ}

-- A circuit is a list of gates: inputs and output.
abbrev pub Circuit : Type 0
Circuit = List (Clause × ℤ)

-- The two kinds of block: `true` for universal.
pub record Dqdimacs : Type 0 where
  pub max_var : ℕ
  pub check_max_var : Bool
  pub matrix : List Clause
  pub first_block_type : Bool
  pub universal_variables : List ℕ
  pub universal_blocks : List ℕ
  pub existential_variables : List ℕ
  pub existential_blocks : List ℕ
  pub explicit_dependencies : Map (List ℕ)
  pub definitions : Map (List Clause × Circuit)

-- The constructors leave `first_block_type` uninitialised: it is an argument.
unfoldable pub new_dqdimacs : Bool → Dqdimacs
new_dqdimacs junk = record {
  max_var = 0;
  check_max_var = true;
  matrix = [];
  first_block_type = junk;
  universal_variables = [];
  universal_blocks = 0 ∷ [];
  existential_variables = [];
  existential_blocks = 0 ∷ [];
  explicit_dependencies = [];
  definitions = [];
}

pub new_dqdimacs_max_var : Bool → ℕ → Dqdimacs
unfolding new_dqdimacs
new_dqdimacs_max_var junk max_var = record (new_dqdimacs junk) {
  max_var = max_var;
  check_max_var = false;
}

unfoldable pub add_clause : List ℤ → Dqdimacs → Dqdimacs
add_clause clause f = record f { matrix = f.matrix ++ clause ∷ [] }

unfoldable pub last_block_type : Dqdimacs → Bool
last_block_type f =
    if length f.existential_blocks == length f.universal_blocks
    then not f.first_block_type
    else f.first_block_type

unfoldable pub get_nof_universal_blocks : Dqdimacs → ℕ
get_nof_universal_blocks f = length f.universal_blocks - 1

unfoldable pub get_nof_existential_blocks : Dqdimacs → ℕ
get_nof_existential_blocks f = length f.existential_blocks - 1

-- `back() = n`
pub set_back : List ℕ → ℕ → List ℕ
set_back [] n = []
set_back (m ∷ []) n = n ∷ []
set_back (m ∷ k ∷ ms) n = m ∷ set_back (k ∷ ms) n

-- `*std::max_element` of a vector that is not empty, and `std::max` with it
pub max_with : ℕ → List ℕ → ℕ
max_with m [] = m
max_with m (v ∷ vs) = max_with (max m v) vs

-- The parts of `addUniversalBlock`: the variables and the first block's type, the offsets of the
-- blocks, the greatest variable.
universal_inserted : List ℕ → Dqdimacs → Dqdimacs
universal_inserted variables f = record f {
  first_block_type = if is_empty f.existential_variables then true else f.first_block_type;
  universal_variables = f.universal_variables ++ variables;
}

universal_closed : Dqdimacs → Dqdimacs
unfolding last_block_type get_nof_universal_blocks set_back
universal_closed f =
    let size = length f.universal_variables in
    record f {
      universal_blocks =
          if not (last_block_type f) || get_nof_universal_blocks f == 0
          then f.universal_blocks ++ size ∷ []
          else set_back f.universal_blocks size;
    }

checked_max_var : List ℕ → Dqdimacs → Dqdimacs
unfolding max_with
checked_max_var variables f = record f {
  max_var = if f.check_max_var then max_with f.max_var variables else f.max_var;
}

unfoldable pub add_universal_block : List ℕ → Dqdimacs → Dqdimacs
unfolding universal_inserted universal_closed checked_max_var
add_universal_block [] f = f
add_universal_block (v ∷ vs) f =
    checked_max_var (v ∷ vs) (universal_closed (universal_inserted (v ∷ vs) f))

existential_inserted : List ℕ → Dqdimacs → Dqdimacs
existential_inserted variables f = record f {
  first_block_type = if is_empty f.universal_variables then false else f.first_block_type;
  existential_variables = f.existential_variables ++ variables;
}

existential_closed : Dqdimacs → Dqdimacs
unfolding last_block_type get_nof_existential_blocks set_back
existential_closed f =
    let size = length f.existential_variables in
    record f {
      existential_blocks =
          if not (not (last_block_type f)) || get_nof_existential_blocks f == 0
          then f.existential_blocks ++ size ∷ []
          else set_back f.existential_blocks size;
    }

unfoldable pub add_existential_block : List ℕ → Dqdimacs → Dqdimacs
unfolding existential_inserted existential_closed checked_max_var
add_existential_block [] f = f
add_existential_block (v ∷ vs) f =
    checked_max_var (v ∷ vs) (existential_closed (existential_inserted (v ∷ vs) f))

pub add_explicit_dependencies : ℕ → List ℕ → Dqdimacs → Dqdimacs
add_explicit_dependencies v dependencies f = record f {
  explicit_dependencies = assign f.explicit_dependencies v dependencies;
  max_var = if f.check_max_var then max f.max_var v else f.max_var;
}

pub add_definition : ℕ → List Clause → Circuit → Dqdimacs → Dqdimacs
add_definition v clauses circuit f = record f {
  definitions = assign f.definitions v (clauses, circuit);
}

pub is_defined : Dqdimacs → ℕ → Bool
is_defined f v = has f.definitions v

pub get_definition : Dqdimacs → ℕ → Option (List Clause × Circuit)
get_definition f v = find f.definitions v

unfoldable pub get_all_existentials : Dqdimacs → List ℕ
get_all_existentials f = f.existential_variables ++ map (λ e. e.0) f.explicit_dependencies
