-- ===== src/Parser/Rejected.antt =====
-- The exceptions of dqdimacsparser.cc: which word ends a line, and how many prefixes a file has.
use pedant_solver.Base.{
  ℕ, suc, ◌≡◌, refl, ap, ◌∙◌, inl, inr, Bool, true, false, ◌&&◌, ◌||◌, some, List, [], ◌∷◌, ◌++◌,
  arith, ◌==◌, if◌then◌else◌, Bool-cases,
}
use pedant_solver.Base.Int.{ℤ, is_neg}
use pedant_solver.Literal.{var}
use pedant_solver.Dqdimacs.{Dqdimacs, new_dqdimacs}
use pedant_solver.Text.{Text, lines, words, stoi, Conversion, value}
use pedant_solver.Parser.{
  Result, ok, invalid_file, uncaught_out_of_range, not_parsed, negative_int, ◌>>=◌, converted,
  push_int, parse_words, parse_line, parse_prefix, from_first_character, switch_line, process_line,
  parse_body_line, parse_body, process_prefix, parse_formula,
}
use pedant_solver.Parser.Accepted.{both_return}

-- Does a word that is read so end the line, regularly or with an exception?
abbrev pub is_end : Bool → Conversion → Bool
is_end check_is_positive (value i) = var i == 0 || check_is_positive && is_neg i
is_end check_is_positive Conversion.invalid_argument = true
is_end check_is_positive Conversion.out_of_range = true

-- The result of a line that ends so after some numbers.
abbrev pub ended : Text → List ℤ → Conversion → Result (List ℤ)
ended line ls (value i) = if var i == 0 then ok ls else invalid_file (negative_int line)
ended line ls Conversion.invalid_argument = invalid_file (not_parsed line)
ended line ls Conversion.out_of_range = uncaught_out_of_range

-- Words that are numbers which do not end the line.
abbrev pub Continues : Bool → List Text → List ℤ → Type 0
Continues check_is_positive [] ls = ls ≡ []
Continues check_is_positive (w ∷ ws) [] = ⊥
Continues check_is_positive (w ∷ ws) (l ∷ ls) =
    (stoi w ≡ value l)
    × (is_end check_is_positive (value l) ≡ false)
    × Continues check_is_positive ws ls

push_end :
    (check : Bool) (line : Text) (r : Result (List ℤ)) (c : Conversion)
    → is_end check c ≡ true
    → (converted (not_parsed line) c >>= push_int check line r) ≡ ended line [] c
push_end check line r (value i) h = ground arith
push_end check line r Conversion.invalid_argument h = refl
push_end check line r Conversion.out_of_range h = refl

parse_words-end :
    (check : Bool) (line bad : Text) (rest : List Text)
    → is_end check (stoi bad) ≡ true
    → parse_words check line (bad ∷ rest) ≡ ended line [] (stoi bad)
unfolding parse_words
parse_words-end check line bad rest h =
    push_end check line (parse_words check line rest) (stoi bad) h

-- One number more.
ended_push :
    (check : Bool) (line : Text) (l : ℤ) (ls : List ℤ) (c : Conversion)
    → is_end check (value l) ≡ false
    → push_int check line (ended line ls c) l ≡ ended line (l ∷ ls) c
ended_push check line l ls (value i) h = ground arith
ended_push check line l ls Conversion.invalid_argument h = ground arith
ended_push check line l ls Conversion.out_of_range h = ground arith

parse_words-ended :
    (check : Bool) (line bad : Text) (ws rest : List Text) (ls : List ℤ)
    → Continues check ws ls
    → is_end check (stoi bad) ≡ true
    → parse_words check line (ws ++ bad ∷ rest) ≡ ended line ls (stoi bad)
unfolding parse_words
parse_words-ended check line bad [] rest ls h e = rw h (parse_words-end check line bad rest e)
parse_words-ended check line bad (w ∷ ws) rest [] h e = elim h [ ]
parse_words-ended check line bad (w ∷ ws) rest (l ∷ ls) h e =
    rw (h.0, parse_words-ended check line bad ws rest ls h.2 e)
      (ended_push check line l ls (stoi bad) h.1)

-- The first word of a line that ends it decides the result: the words before it are numbers that
-- neither are zero nor, if that is checked, negative. A zero returns these numbers whatever follows,
-- a negative number and a word that is no number raise `InvalidFileException`, and for a number beyond
-- the range of an `int` the exception of `stoi` is not caught.
pub parse_line-ended :
    (check : Bool) (line bad : Text) (ws rest : List Text) (ls : List ℤ)
    → words line ≡ ws ++ bad ∷ rest
    → Continues check ws ls
    → is_end check (stoi bad) ≡ true
    → parse_line line check ≡ ended line ls (stoi bad)
unfolding parse_line
parse_line-ended check line bad ws rest ls w h e =
    ap (parse_words check line) w ∙ parse_words-ended check line bad ws rest ls h e

-- How many lines begin with `p`.
abbrev begins_prefix : Text → Bool
begins_prefix [] = false
begins_prefix (c ∷ s) = c == b'p'

unfoldable pub number_of_prefixes : List Text → ℕ
unfolding from_first_character
number_of_prefixes [] = 0
number_of_prefixes (line ∷ ls) =
    let rest = number_of_prefixes ls in
    if begins_prefix (from_first_character line) then suc rest else rest

switch_line-prefix :
    (line s : Text) (f g : Dqdimacs) → switch_line line s f ≡ ok g → begins_prefix s ≡ false
unfolding switch_line
switch_line-prefix line [] f g h = refl
switch_line-prefix line (c ∷ s) f g h = ground arith

parse_body-prefixes :
    (ls : List Text) (f g : Dqdimacs) → parse_body ls f ≡ ok g → number_of_prefixes ls ≡ 0
unfolding parse_body parse_body_line number_of_prefixes
parse_body-prefixes [] f g h = refl
parse_body-prefixes (line ∷ ls) f g h =
    let (f', e, p) = both_return (parse_body_line line f) _ h in
    rw (switch_line-prefix line (from_first_character line) f f' e) (parse_body-prefixes ls f' g p)

rest_of_ok :
    (m n : ℤ) (xs ys : List Text)
    → Path (Result (ℤ × List Text)) (ok (m, xs)) (ok (n, ys))
    → xs ≡ ys
rest_of_ok m n xs ys h = cc

-- The step of the search for the prefix at one line.
prefix_step :
    (s : Text) (rest : List Text) (count : ℕ) (later : Result (ℤ × List Text)) (n : ℤ)
    (ls : List Text)
    → (later ≡ ok (n, ls) → count ≡ suc (number_of_prefixes ls))
    → count ≡ number_of_prefixes rest
    → process_line s rest later ≡ ok (n, ls)
    → (if begins_prefix s then suc count else count) ≡ suc (number_of_prefixes ls)
unfolding process_line
prefix_step [] rest count later n ls k e h = k h
prefix_step (c ∷ s) rest count later n ls k e h = elim (Bool-cases (c == b'c')) [
  | inl comment ↦
      let counted = k (rw comment at h) in
      let other : (c == b'p') ≡ false = ground arith in rw other counted
  | inr other ↦ elim (Bool-cases (c == b'p')) [
    | inl found ↦
        let (m, parsed, q) = both_return (parse_prefix s) _ (rw (other, found) at h) in
        rw found (ap suc (e ∙ ap number_of_prefixes (rest_of_ok m n rest ls q)))
    | inr bad ↦ cc (rw (other, bad) at h)
  ]
]

process_prefix-prefixes :
    (ls : List Text) (n : ℤ) (rest : List Text)
    → process_prefix ls ≡ ok (n, rest)
    → number_of_prefixes ls ≡ suc (number_of_prefixes rest)
unfolding process_prefix number_of_prefixes
process_prefix-prefixes [] n rest h = cc
process_prefix-prefixes (line ∷ ls) n rest h =
    prefix_step (from_first_character line) ls (number_of_prefixes ls) (process_prefix ls) n rest
      (process_prefix-prefixes ls n rest) refl h

-- If a file is accepted, then exactly one of its lines begins with `p`, blanks aside.
pub parse_formula-prefixes :
    (junk : Bool) (input : Text) (f : Dqdimacs)
    → parse_formula junk (some input) ≡ ok f
    → number_of_prefixes (lines input) ≡ 1
unfolding parse_formula
parse_formula-prefixes junk input f h =
    let ((n, rest), e, p) = both_return (process_prefix (lines input)) _ h in
    process_prefix-prefixes (lines input) n rest e
    ∙ ap suc (parse_body-prefixes rest (new_dqdimacs junk) f p)
