-- ===== src/Samples/Parser.antt =====
-- Files for the parser of dqdimacsparser.cc.
use pedant_solver.Base.{◌≡◌, refl, ◌↔◌, true, some, List, [], ◌∷◌, arith, all}
use pedant_solver.Base.Int.{pos, neg}
use Prim.Native.Char.{code}
use Prim.Native.String.{String}
use pedant_solver.Text.{Text, lines, words, stoi}
use pedant_solver.Parser.{ok, missing_return, invalid_file, negative_int, parse_formula, parse_line}
use pedant_solver.Parser.Roundtrip.{
  Statement, comment, universals, existentials, dependencies, clause, write_file, add_statements,
  parse_formula-write_file,
}
use pedant_solver.Parser.Accepted.{IsRead, parse_formula-IsRead}
use pedant_solver.Parser.Rejected.{parse_line-ended}
use pedant_solver.Parser.Returns.{is_skipped, parse_formula_missing_return_iff}
use pedant_solver.Dqdimacs.{Dqdimacs, new_dqdimacs}

-- The bytes of an ASCII text.
abbrev codes : String → Text
codes String.[] = []
codes (String.◌∷◌ c s) = code c ∷ codes s

abbrev statements : List Statement
statements =
    comment (codes " two blocks")
    ∷ universals (1 ∷ 12 ∷ [])
    ∷ existentials (3 ∷ [])
    ∷ dependencies 4 (12 ∷ [])
    ∷ clause (pos 1 ∷ neg (pos 3) ∷ [])
    ∷ clause []
    ∷ []

parse_formula-write_file_example :
    parse_formula true (some (write_file 12 2 statements))
    ≡ ok (add_statements statements (new_dqdimacs true))
parse_formula-write_file_example =
    parse_formula-write_file true 12 2 statements (omega arith) (ground arith)

abbrev small : Text
small = codes "p cnf 2 1\na1\n-1 2\n"

abbrev small_formula : Dqdimacs
small_formula =
    add_statements (universals (1 ∷ []) ∷ clause (neg (pos 1) ∷ pos 2 ∷ []) ∷ [])
      (new_dqdimacs true)

small_is_parsed : parse_formula true (some small) ≡ ok small_formula
unfolding parse_formula
small_is_parsed = refl

parse_formula-IsRead_example : IsRead small_formula
parse_formula-IsRead_example = parse_formula-IsRead true (some small) small_formula small_is_parsed

parse_line-ended_example :
    parse_line (codes "5 -3 7") true ≡ invalid_file (negative_int (codes "5 -3 7"))
unfolding words stoi
parse_line-ended_example =
    parse_line-ended true (codes "5 -3 7") (codes "-3") (codes "5" ∷ []) (codes "7" ∷ [])
      (pos 5 ∷ []) refl (refl, refl, refl) refl

parse_formula_missing_return_iff_example :
    (parse_formula true (some (codes "c no prefix")) ≡ missing_return)
    ↔ (all is_skipped (lines (codes "c no prefix")) ≡ true)
parse_formula_missing_return_iff_example =
    parse_formula_missing_return_iff true (codes "c no prefix")
