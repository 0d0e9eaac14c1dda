-- ===== src/Parser.antt =====
-- dqdimacsparser.cc: the reader of formulas in the DQDIMACS format, with what it throws.
pub mod Lines
pub mod Roundtrip
pub mod Accepted
pub mod Rejected
pub mod Returns
use pedant_solver.Base.{
  ℕ, zero, suc, ◌+◌, ◌-◌, ◌*◌, ◌/◌, ◌%◌, ◌^◌, ◌≤◌, ◌<◌, max, ◌≡◌, refl, sym, ap, ◌∙◌, subst, ◌≢◌,
  ◌↔◌, ◌⊎◌, inl, inr, Bool, true, false, not, ◌&&◌, ◌||◌, Option, none, some, List, [], ◌∷◌, ◌++◌,
  map, arith, ltb, leb, ◌==◌, if◌then◌else◌, Bool-cases, Option-cases, Bool_ext, not-not, ==_iff,
  ==_refl, length, get_elem?, set, is_empty, any, all, select, All, length-append, any-append,
  all-append, All-append, All-left, length-select-le, length-set, get_or, get_or-set_self,
  get_or-set_ne, get_or-append_left,
}
use pedant_solver.Base.Int.{
  ℤ, pos, negsuc, neg, abs, is_pos, is_neg, of_bool, eq_ℤ, eq_ℤ_iff, neg-neg, abs-neg,
}
use pedant_solver.Formula.{Clause}
use pedant_solver.Literal.{var}
use pedant_solver.Dqdimacs.{
  Dqdimacs, new_dqdimacs, add_clause, add_universal_block, add_existential_block,
  add_explicit_dependencies,
}
use pedant_solver.Text.{Text, lines, words, Conversion, value, invalid_argument, out_of_range, stoi}

-- The messages of `InvalidFileException`.
pub data Message : Type 0 where
  not_opened only_one_prefix no_prefix invalid_preamble : Message
  negative_int not_parsed no_variable : Text → Message

-- A result, or an exception of the program, or one of `stoi` that nothing catches, or the end of
-- a function without the `return` that it needs.
pub data Result {ℓ} (A : Type ℓ) : Type ℓ where
  ok : A → Result A
  invalid_file : Message → Result A
  uncaught_out_of_range : Result A
  missing_return : Result A

infixl 5 ◌>>=◌
abbrev pub ◌>>=◌ {μ ν} : {X : Type μ} {Y : Type ν} → Result X → (X → Result Y) → Result Y
ok x >>= next = next x
invalid_file message >>= next = invalid_file message
uncaught_out_of_range >>= next = uncaught_out_of_range
missing_return >>= next = missing_return

-- `stoi` where `invalid_argument` is caught
abbrev pub converted : Message → Conversion → Result ℤ
converted m (value i) = ok i
converted m invalid_argument = invalid_file m
converted m out_of_range = uncaught_out_of_range

-- The loop over the words: it ends at a zero.
abbrev pub push_int : Bool → Text → Result (List ℤ) → ℤ → Result (List ℤ)
push_int check_is_positive line rest i =
    if var i == 0
    then ok []
    else if check_is_positive && is_neg i
    then invalid_file (negative_int line)
    else rest >>= λ result. ok (i ∷ result)

unfoldable pub parse_words : Bool → Text → List Text → Result (List ℤ)
unfolding stoi
parse_words check_is_positive line [] = ok []
parse_words check_is_positive line (word ∷ ws) =
    let rest = parse_words check_is_positive line ws in
    converted (not_parsed line) (stoi word) >>= push_int check_is_positive line rest

unfoldable pub parse_line : Text → Bool → Result (List ℤ)
unfolding parse_words words
parse_line line check_is_positive = parse_words check_is_positive line (words line)

unfoldable pub parse_universal_block : Text → Dqdimacs → Result Dqdimacs
unfolding parse_line
parse_universal_block line formula = do
  vars ← parse_line line true
  ok (add_universal_block (map var vars) formula)

unfoldable pub parse_existential_block : Text → Dqdimacs → Result Dqdimacs
unfolding parse_line
parse_existential_block line formula = do
  vars ← parse_line line true
  ok (add_existential_block (map var vars) formula)

abbrev pub dependencies_of : Text → List ℤ → Dqdimacs → Result Dqdimacs
dependencies_of line [] formula = invalid_file (no_variable line)
dependencies_of line (v ∷ vars) formula =
    ok (add_explicit_dependencies (var v) (map var vars) formula)

unfoldable pub parse_dependency_block : Text → Dqdimacs → Result Dqdimacs
unfolding parse_line
parse_dependency_block line formula = do
  vars ← parse_line line true
  dependencies_of line vars formula

unfoldable pub parse_clause : Text → Dqdimacs → Result Dqdimacs
unfolding parse_line
parse_clause line formula = do lits ← parse_line line false; ok (add_clause lits formula)

-- `find_first_not_of(" \t\r\n")`: the text from the first other byte on
unfoldable pub is_blank : ℕ → Bool
is_blank c = c == b' ' || c == 9 || c == 13 || c == 10

unfoldable pub from_first_character : Text → Text
unfolding is_blank
from_first_character [] = []
from_first_character (c ∷ s) =
    let rest = from_first_character s in if is_blank c then rest else c ∷ s

-- The body of the loop: the switch over the first character of a line that is not blank.
unfoldable pub switch_line : Text → Text → Dqdimacs → Result Dqdimacs
unfolding parse_universal_block parse_existential_block parse_dependency_block parse_clause
switch_line line [] formula = ok formula
switch_line line (c ∷ rest) formula =
    if c == b'c'
    then ok formula
    else if c == b'p'
    then invalid_file only_one_prefix
    else if c == b'a'
    then parse_universal_block rest formula
    else if c == b'e'
    then parse_existential_block rest formula
    else if c == b'd'
    then parse_dependency_block rest formula
    else parse_clause line formula

unfoldable pub parse_body_line : Text → Dqdimacs → Result Dqdimacs
unfolding switch_line from_first_character
parse_body_line line formula = switch_line line (from_first_character line) formula

unfoldable pub parse_body : List Text → Dqdimacs → Result Dqdimacs
unfolding parse_body_line
parse_body [] formula = ok formula
parse_body (line ∷ rest) formula = parse_body_line line formula >>= parse_body rest

-- `str.compare("cnf") == 0`
abbrev pub is_cnf : Text → Bool
is_cnf (c ∷ n ∷ f ∷ []) = c == b'c' && n == b'n' && f == b'f'
is_cnf _ = false

-- The loop's test of the preamble. A second extraction that fails leaves the first word in `str`.
unfoldable pub preamble_words : List Text → Result ℤ
unfolding stoi
preamble_words [] = invalid_file invalid_preamble
preamble_words (str ∷ []) =
    if is_cnf str then converted invalid_preamble (stoi str) else invalid_file invalid_preamble
preamble_words (str ∷ number ∷ ws) =
    if is_cnf str then converted invalid_preamble (stoi number) else invalid_file invalid_preamble

unfoldable pub parse_prefix : Text → Result ℤ
unfolding preamble_words words
parse_prefix line = preamble_words (words line)

-- The body of the loop: the switch over the first character, with what the next lines give.
unfoldable pub process_line : Text → List Text → Result (ℤ × List Text) → Result (ℤ × List Text)
unfolding parse_prefix
process_line [] rest later = later
process_line (c ∷ s) rest later =
    if c == b'c'
    then later
    else if c == b'p'
    then (do n ← parse_prefix s; ok (n, rest))
    else invalid_file no_prefix

-- The number in the prefix and the lines that follow it. A file without a prefix ends the function
-- without a `return`.
unfoldable pub process_prefix : List Text → Result (ℤ × List Text)
unfolding process_line from_first_character
process_prefix [] = missing_return
process_prefix (line ∷ rest) = process_line (from_first_character line) rest (process_prefix rest)

-- The file's text, if it could be opened. The number of variables is not used.
unfoldable pub parse_formula : Bool → Option Text → Result Dqdimacs
unfolding process_prefix parse_body lines new_dqdimacs
parse_formula junk none = invalid_file not_opened
parse_formula junk (some input) = do
  prefix ← process_prefix (lines input)
  parse_body prefix.1 (new_dqdimacs junk)
