-- ===== src/Literal.antt =====
-- Literals: the helpers on single literals and on lists of literals of include/utils.h. A literal is
-- a C++ `int`, a variable its absolute value.
pub mod Codes
use pedant_solver.Base.{
  ℕ, ◌+◌, ◌*◌, ◌/◌, ◌%◌, Bool, true, false, not, Option, none, some, List, map, ◌==◌,
}
use pedant_solver.Base.Int.{ℤ, pos, neg, abs, is_neg, of_bool, xor, ◌+ℤ◌}
use pedant_solver.Base.Maps.{Map, find}

abbrev pub var : ℤ → ℕ
var literal = abs literal

-- The MiniSat code of a literal is never negative. `>> 1` and `& 1` on such a number.
unfoldable pub lit_from_mini_sat_lit : ℕ → ℤ
lit_from_mini_sat_lit minisat_literal =
    let variable = minisat_literal / 2 in
    let negated = minisat_literal % 2 == 1 in
    xor (pos variable) (neg (of_bool negated)) +ℤ of_bool negated

unfoldable pub mini_sat_literal : ℤ → ℕ
mini_sat_literal literal = 2 * var literal + abs (of_bool (is_neg literal))

abbrev pub literals_from_mini_sat_literals : List ℕ → List ℤ
literals_from_mini_sat_literals = map lit_from_mini_sat_lit

abbrev pub mini_sat_literals : List ℤ → List ℕ
mini_sat_literals = map mini_sat_literal

abbrev pub mini_sat_clauses : List (List ℤ) → List (List ℕ)
mini_sat_clauses = map mini_sat_literals

-- The two functions `renameLiteral`: to a given variable, and by a renaming.
unfoldable pub rename_literal_to : ℤ → ℕ → ℤ
rename_literal_to source_literal target_variable =
    let negated = is_neg source_literal in
    xor (pos target_variable) (neg (of_bool negated)) +ℤ of_bool negated

unfoldable pub rename_literal : ℤ → Map ℕ → ℤ
rename_literal literal renaming = elim (find renaming (var literal)) [
  | none ↦ literal
  | some renamed_variable ↦ rename_literal_to literal renamed_variable
]

unfoldable pub set_literal_sign : ℤ → Bool → ℤ
set_literal_sign literal sign =
    let negated = not sign in xor (pos (var literal)) (neg (of_bool negated)) +ℤ of_bool negated

abbrev pub negate_each : List ℤ → List ℤ
negate_each = map neg
