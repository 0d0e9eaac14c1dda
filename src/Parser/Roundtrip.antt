-- ===== src/Parser/Roundtrip.antt =====
-- A file written line by line is read back by dqdimacsparser.cc.
use pedant_solver.Base.{
  ℕ, ◌≤◌, ◌≡◌, refl, ap, ◌∙◌, Bool, true, false, some, List, [], ◌∷◌, ◌++◌, map, arith, All,
  All-append,
}
use pedant_solver.Base.Int.{pos}
use pedant_solver.Formula.{Clause}
use pedant_solver.Literal.{var}
use pedant_solver.Dqdimacs.{
  Dqdimacs, new_dqdimacs, add_clause, add_universal_block, add_existential_block,
  add_explicit_dependencies,
}
use pedant_solver.Text.{Text, newline, lines, stoi, to_string, is_digit, int_max}
use pedant_solver.Text.Words.{IsOneLine, lines-append, words-append_word, words-space}
use pedant_solver.Text.Numbers.{
  BeginsNumber, stoi-to_string, to_string-IsWord, to_string-IsOneLine, to_string-some,
}
use pedant_solver.Parser.{
  ok, parse_universal_block, parse_existential_block, parse_dependency_block, parse_clause,
  process_line, is_blank, from_first_character, switch_line, parse_body_line, parse_body,
  preamble_words, parse_prefix, process_prefix, parse_formula,
}
use pedant_solver.Parser.Lines.{
  write_ints, IsEntry, IsVar, parse_line-write_ints, parse_line-write_ints_space,
  write_ints-IsOneLine, write_ints-BeginsNumber,
}

-- The lines of a file after its prefix.
pub data Statement : Type 0 where
  comment : Text → Statement
  universals : List ℕ → Statement
  existentials : List ℕ → Statement
  dependencies : ℕ → List ℕ → Statement
  clause : Clause → Statement

unfoldable pub write_statement : Statement → Text
unfolding write_ints
write_statement (comment text) = b'c' ∷ text
write_statement (universals vs) = b'a' ∷ b' ' ∷ write_ints (map pos vs)
write_statement (existentials vs) = b'e' ∷ b' ' ∷ write_ints (map pos vs)
write_statement (dependencies v vs) = b'd' ∷ b' ' ∷ write_ints (pos v ∷ map pos vs)
write_statement (clause ls) = write_ints ls

unfoldable pub write_statements : List Statement → Text
unfolding write_statement
write_statements [] = []
write_statements (st ∷ sts) = write_statement st ++ newline ∷ write_statements sts

-- The prefix: `p cnf`, two numbers.
unfoldable pub write_prefix : ℕ → ℕ → Text
unfolding to_string
write_prefix variables clauses =
    b'p'
    ∷ b' '
    ∷ b'c'
    ∷ b'n'
    ∷ b'f'
    ∷ b' '
    ∷ (to_string (pos variables) ++ b' ' ∷ to_string (pos clauses))

unfoldable pub write_file : ℕ → ℕ → List Statement → Text
unfolding write_prefix write_statements
write_file variables clauses sts = write_prefix variables clauses ++ newline ∷ write_statements sts

-- What a line adds to the formula.
abbrev pub add_statement : Statement → Dqdimacs → Dqdimacs
add_statement (comment text) f = f
add_statement (universals vs) f = add_universal_block vs f
add_statement (existentials vs) f = add_existential_block vs f
add_statement (dependencies v vs) f = add_explicit_dependencies v vs f
add_statement (clause ls) f = add_clause ls f

abbrev pub add_statements : List Statement → Dqdimacs → Dqdimacs
add_statements [] f = f
add_statements (st ∷ sts) f = add_statements sts (add_statement st f)

-- What can be written: comments of one line, variables and literals in the range of an `int`.
abbrev pub IsWritable : Statement → Type 0
IsWritable (comment text) = IsOneLine text
IsWritable (universals vs) = All IsVar vs
IsWritable (existentials vs) = All IsVar vs
IsWritable (dependencies v vs) = IsVar v × All IsVar vs
IsWritable (clause ls) = All (IsEntry false) ls

IsVar-IsEntry : (v : ℕ) → IsVar v → IsEntry true (pos v)
IsVar-IsEntry v h = (h.0, h.1, refl)

every_entry : (vs : List ℕ) → All IsVar vs → All (IsEntry true) (map pos vs)
every_entry [] h = tt
every_entry (v ∷ vs) h = (IsVar-IsEntry v h.0, every_entry vs h.1)

map-var_pos : (vs : List ℕ) → map var (map pos vs) ≡ vs
map-var_pos [] = refl
map-var_pos (v ∷ vs) = ap (λ ws. v ∷ ws) (map-var_pos vs)

number_line :
    (s : Text) (f : Dqdimacs)
    → BeginsNumber s
    → switch_line s (from_first_character s) f ≡ parse_clause s f
unfolding switch_line from_first_character is_blank is_digit
number_line [] f h = elim h [ ]
number_line (c ∷ s) f h = ground arith

-- Each line is read as what it states.
parse_body_line-write_statement :
    (st : Statement) (f : Dqdimacs)
    → IsWritable st
    → parse_body_line (write_statement st) f ≡ ok (add_statement st f)
unfolding parse_body_line write_statement from_first_character is_blank switch_line
    parse_universal_block parse_existential_block parse_dependency_block parse_clause
parse_body_line-write_statement (comment text) f h = refl
parse_body_line-write_statement (universals vs) f h =
    rw (parse_line-write_ints_space true (map pos vs) (every_entry vs h), map-var_pos vs) refl
parse_body_line-write_statement (existentials vs) f h =
    rw (parse_line-write_ints_space true (map pos vs) (every_entry vs h), map-var_pos vs) refl
parse_body_line-write_statement (dependencies v vs) f h =
    rw
      (
        parse_line-write_ints_space true (pos v ∷ map pos vs) (every_entry (v ∷ vs) h),
        map-var_pos vs,
      )
      refl
parse_body_line-write_statement (clause ls) f h =
    number_line (write_ints ls) f (write_ints-BeginsNumber ls)
    ∙ rw (parse_line-write_ints false ls h) refl

write_statement-IsOneLine : (st : Statement) → IsWritable st → IsOneLine (write_statement st)
unfolding write_statement
write_statement-IsOneLine (comment text) h = (ground arith, h)
write_statement-IsOneLine (universals vs) h =
    (ground arith, (ground arith, write_ints-IsOneLine (map pos vs)))
write_statement-IsOneLine (existentials vs) h =
    (ground arith, (ground arith, write_ints-IsOneLine (map pos vs)))
write_statement-IsOneLine (dependencies v vs) h =
    (ground arith, (ground arith, write_ints-IsOneLine (map pos (v ∷ vs))))
write_statement-IsOneLine (clause ls) h = write_ints-IsOneLine ls

parse_body-write_statements :
    (sts : List Statement) (f : Dqdimacs)
    → All IsWritable sts
    → parse_body (lines (write_statements sts)) f ≡ ok (add_statements sts f)
unfolding parse_body write_statements lines
parse_body-write_statements [] f h = refl
parse_body-write_statements (st ∷ sts) f h =
    rw
      (
        lines-append (write_statement st) (write_statements sts) (write_statement-IsOneLine st h.0),
        parse_body_line-write_statement st f h.0,
      )
      (parse_body-write_statements sts (add_statement st f) h.1)

write_prefix-IsOneLine : (n m : ℕ) → IsOneLine (write_prefix n m)
unfolding write_prefix
write_prefix-IsOneLine n m =
    let numbers : IsOneLine (to_string (pos n) ++ b' ' ∷ to_string (pos m)) =
      All-append _ (to_string (pos n)) (b' ' ∷ to_string (pos m)) (to_string-IsOneLine (pos n))
        (ground arith, to_string-IsOneLine (pos m)) in
    ground (arith, numbers)

parse_prefix-numbers :
    (n m : ℕ)
    → n ≤ int_max
    → parse_prefix
        (b' ' ∷ b'c' ∷ b'n' ∷ b'f' ∷ b' ' ∷ (to_string (pos n) ++ b' ' ∷ to_string (pos m)))
      ≡ ok (pos n)
unfolding parse_prefix preamble_words stoi
parse_prefix-numbers n m h =
    let numbers = to_string (pos n) ++ b' ' ∷ to_string (pos m) in
    rw
      (
        words-space (b'c' ∷ b'n' ∷ b'f' ∷ b' ' ∷ numbers),
        words-append_word (b'c' ∷ b'n' ∷ b'f' ∷ []) numbers (refl, (refl, (refl, tt))) refl,
        words-append_word (to_string (pos n)) (to_string (pos m)) (to_string-IsWord (pos n))
            (to_string-some (pos n)),
        stoi-to_string (pos n) h,
      )
      refl

process_prefix-write_prefix :
    (n m : ℕ) (rest : List Text)
    → n ≤ int_max
    → process_prefix (write_prefix n m ∷ rest) ≡ ok (pos n, rest)
unfolding process_prefix process_line write_prefix from_first_character is_blank parse_prefix
process_prefix-write_prefix n m rest h = rw (parse_prefix-numbers n m h) refl

-- A file that is written with a prefix of two numbers, the first an `int`, and with comments of one
-- line, blocks and dependencies of positive variables and clauses of literals, all in the range of
-- an `int`, is read without an exception, and the formula is the empty one to which the statements
-- were added in order.
pub parse_formula-write_file :
    (junk : Bool) (variables clauses : ℕ) (sts : List Statement)
    → variables ≤ int_max
    → All IsWritable sts
    → parse_formula junk (some (write_file variables clauses sts))
      ≡ ok (add_statements sts (new_dqdimacs junk))
unfolding parse_formula write_file
parse_formula-write_file junk n m sts h w =
    rw
      (
        lines-append (write_prefix n m) (write_statements sts) (write_prefix-IsOneLine n m),
        process_prefix-write_prefix n m (lines (write_statements sts)) h,
      )
      (parse_body-write_statements sts (new_dqdimacs junk) w)
