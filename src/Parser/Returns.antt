-- ===== src/Parser/Returns.antt =====
-- Where processPrefix of dqdimacsparser.cc ends without a `return`.
use pedant_solver.Base.{
  ◌≡◌, refl, ◌∙◌, ◌↔◌, Bool, true, false, not, ◌&&◌, ◌||◌, some, List, [], ◌∷◌, arith, ◌==◌,
  if◌then◌else◌, all,
}
use pedant_solver.Base.Int.{ℤ}
use pedant_solver.Dqdimacs.{Dqdimacs, new_dqdimacs}
use pedant_solver.Text.{Text, lines, words, stoi, Conversion, value}
use pedant_solver.Parser.{
  Message, Result, ok, invalid_file, uncaught_out_of_range, missing_return, not_parsed, ◌>>=◌,
  converted, parse_words, parse_line, dependencies_of, process_line, preamble_words,
  invalid_preamble, parse_prefix, parse_universal_block, parse_existential_block,
  parse_dependency_block, parse_clause, from_first_character, is_blank, switch_line,
  parse_body_line, parse_body, process_prefix, parse_formula,
}

-- A result other than a missing `return`.
abbrev returns {ℓ} : {A : Type ℓ} → Result A → Bool
returns (ok a) = true
returns (invalid_file m) = true
returns uncaught_out_of_range = true
returns missing_return = false

returns-bind {ℓ κ} :
    {A : Type ℓ} {B : Type κ} (m : Result A) (f : A → Result B)
    → ((a : A) → returns (f a) ≡ true)
    → returns (m >>= f) ≡ returns m
returns-bind (ok a) f k = k a
returns-bind (invalid_file m) f k = refl
returns-bind uncaught_out_of_range f k = refl
returns-bind missing_return f k = refl

returns->>= {ℓ κ} :
    {A : Type ℓ} {B : Type κ} (m : Result A) (f : A → Result B)
    → returns m ≡ true
    → ((a : A) → returns (f a) ≡ true)
    → returns (m >>= f) ≡ true
returns->>= m f h k = returns-bind m f k ∙ h

returns-converted : (m : Message) (c : Conversion) → returns (converted m c) ≡ true
returns-converted m (value i) = refl
returns-converted m Conversion.invalid_argument = refl
returns-converted m Conversion.out_of_range = refl

returns-parse_words :
    (check : Bool) (line : Text) (ws : List Text) → returns (parse_words check line ws) ≡ true
unfolding parse_words
returns-parse_words check line [] = refl
returns-parse_words check line (w ∷ ws) =
    returns->>= (converted (not_parsed line) (stoi w)) _
      (returns-converted (not_parsed line) (stoi w))
      (λ i.
        let later =
          returns->>= (parse_words check line ws) (λ ls. ok (i ∷ ls))
            (returns-parse_words check line ws) (λ ls. refl) in
        ground (arith, later))

returns-parse_line : (line : Text) (check : Bool) → returns (parse_line line check) ≡ true
unfolding parse_line
returns-parse_line line check = returns-parse_words check line (words line)

returns-dependencies_of :
    (line : Text) (f : Dqdimacs) (ls : List ℤ) → returns (dependencies_of line ls f) ≡ true
returns-dependencies_of line f [] = refl
returns-dependencies_of line f (l ∷ ls) = refl

returns-switch_line : (line s : Text) (f : Dqdimacs) → returns (switch_line line s f) ≡ true
unfolding switch_line parse_universal_block parse_existential_block parse_dependency_block
    parse_clause
returns-switch_line line [] f = refl
returns-switch_line line (c ∷ s) f = ground (
  arith,
  returns->>= (parse_line s true) (λ vars. dependencies_of s vars f) (returns-parse_line s true)
      (returns-dependencies_of s f),
  returns-parse_line s true,
  returns-parse_line line false,
)

returns-parse_body : (ls : List Text) (f : Dqdimacs) → returns (parse_body ls f) ≡ true
unfolding parse_body parse_body_line
returns-parse_body [] f = refl
returns-parse_body (line ∷ ls) f =
    returns->>= (parse_body_line line f) (parse_body ls)
      (returns-switch_line line (from_first_character line) f) (returns-parse_body ls)

returns-preamble_words : (ws : List Text) → returns (preamble_words ws) ≡ true
unfolding preamble_words
returns-preamble_words [] = refl
returns-preamble_words (w ∷ []) = ground (arith, returns-converted invalid_preamble (stoi w))
returns-preamble_words (w ∷ v ∷ ws) = ground (arith, returns-converted invalid_preamble (stoi v))

-- A line that the search for the prefix skips: a blank line or a comment.
abbrev skips : Text → Bool
skips [] = true
skips (c ∷ s) = c == b'c'

-- The same of the line itself: spaces, tabs and line ends, and then nothing or a `c`.
pub is_skipped : Text → Bool
is_skipped [] = true
is_skipped (c ∷ line) = c == b'c' || ((c == 32 || c == 9 || c == 10 || c == 13) && is_skipped line)

is_skipped-skips : (line : Text) → is_skipped line ≡ skips (from_first_character line)
unfolding is_skipped from_first_character is_blank
is_skipped-skips [] = refl
is_skipped-skips (c ∷ line) = ground (arith, is_skipped-skips line)

returns-process_line :
    (s : Text) (rest : List Text) (later : Result (ℤ × List Text))
    → returns (process_line s rest later) ≡ (if skips s then returns later else true)
unfolding process_line parse_prefix
returns-process_line [] rest later = refl
returns-process_line (c ∷ s) rest later = ground (
  arith,
  returns->>= {B = ℤ × List Text} (preamble_words (words s)) (λ n. ok (n, rest))
      (returns-preamble_words (words s)) (λ n. refl),
)

returns-process_prefix : (ls : List Text) → returns (process_prefix ls) ≡ not (all is_skipped ls)
unfolding process_prefix is_skipped
returns-process_prefix [] = refl
returns-process_prefix (line ∷ ls) = ground (
  arith,
  is_skipped-skips line,
  returns-process_line (from_first_character line) ls (process_prefix ls),
  returns-process_prefix ls,
)

missing_return_iff :
    {A : Type 0} (r : Result A) (b : Bool) → returns r ≡ not b → (r ≡ missing_return) ↔ (b ≡ true)
missing_return_iff (ok a) b h = ground arith
missing_return_iff (invalid_file m) b h = ground arith
missing_return_iff uncaught_out_of_range b h = ground arith
missing_return_iff missing_return b h = ground arith

-- A file that could be opened makes the program end a function without the `return` it needs exactly
-- if each of its lines is blank, which is nothing but spaces, tabs, carriage returns and line feeds,
-- or a comment, which has a c as its first other character.
pub parse_formula_missing_return_iff :
    (junk : Bool) (input : Text)
    → (parse_formula junk (some input) ≡ missing_return) ↔ (all is_skipped (lines input) ≡ true)
unfolding parse_formula
parse_formula_missing_return_iff junk input =
    missing_return_iff (parse_formula junk (some input)) (all is_skipped (lines input)) (
      returns-bind (process_prefix (lines input)) _
        (λ prefix. returns-parse_body prefix.1 (new_dqdimacs junk))
      ∙ returns-process_prefix (lines input))
