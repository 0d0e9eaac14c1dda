-- ===== src/Parser/Lines.antt =====
-- Lists of numbers as text: a line is read back from what the writer of clauses in modellogger.cc
-- prints.
use pedant_solver.Base.{
  ℕ, ◌≤◌, ◌<◌, ◌≡◌, refl, ap, ◌∙◌, inl, Bool, false, ◌&&◌, List, [], ◌∷◌, ◌++◌, map, arith, All,
  All-append,
}
use pedant_solver.Base.Int.{ℤ, is_neg}
use pedant_solver.Formula.{IsLit}
use pedant_solver.Text.{int_max, is_digit, Text, words, stoi, to_string, is_space}
use pedant_solver.Text.Words.{IsOneLine, words-append_word, words-word, words-space}
use pedant_solver.Text.Numbers.{
  IsInt, stoi-to_string, to_string-IsWord, to_string-IsOneLine, to_string-some, BeginsNumber,
  to_string-BeginsNumber,
}
use pedant_solver.Parser.{ok, parse_words, parse_line}

-- Numbers, each with a space after it, and the final zero.
unfoldable pub write_ints : List ℤ → Text
unfolding to_string
write_ints [] = b'0' ∷ []
write_ints (l ∷ ls) = to_string l ++ b' ' ∷ write_ints ls

-- What a line may hold: no zero, nothing negative if that is checked, nothing beyond an `int`.
abbrev pub IsEntry : Bool → ℤ → Type 0
IsEntry check_is_positive l = IsLit l × IsInt l × ((check_is_positive && is_neg l) ≡ false)

-- A variable in the range of an `int`.
abbrev pub IsVar : ℕ → Type 0
IsVar v = (0 < v) × (v ≤ int_max)

words-write_ints : (ls : List ℤ) → words (write_ints ls) ≡ map to_string ls ++ (b'0' ∷ []) ∷ []
unfolding write_ints is_space
words-write_ints [] = words-word b'0' refl
words-write_ints (l ∷ ls) =
    words-append_word (to_string l) (write_ints ls) (to_string-IsWord l) (to_string-some l)
    ∙ ap (λ ws. to_string l ∷ ws) (words-write_ints ls)

parse_words-to_string :
    (check_is_positive : Bool) (line : Text) (ls : List ℤ)
    → All (IsEntry check_is_positive) ls
    → parse_words check_is_positive line (map to_string ls ++ (b'0' ∷ []) ∷ []) ≡ ok ls
unfolding parse_words stoi
parse_words-to_string check_is_positive line [] h = refl
parse_words-to_string check_is_positive line (l ∷ ls) h =
    rw (stoi-to_string l h.0.1, parse_words-to_string check_is_positive line ls h.1) (ground arith)

-- A line of numbers is read back.
pub parse_line-write_ints :
    (check_is_positive : Bool) (ls : List ℤ)
    → All (IsEntry check_is_positive) ls
    → parse_line (write_ints ls) check_is_positive ≡ ok ls
unfolding parse_line
parse_line-write_ints check_is_positive ls h =
    rw (words-write_ints ls) (parse_words-to_string check_is_positive (write_ints ls) ls h)

-- A space before it changes nothing.
pub parse_line-write_ints_space :
    (check_is_positive : Bool) (ls : List ℤ)
    → All (IsEntry check_is_positive) ls
    → parse_line (b' ' ∷ write_ints ls) check_is_positive ≡ ok ls
unfolding parse_line
parse_line-write_ints_space check_is_positive ls h =
    rw (words-space (write_ints ls), words-write_ints ls)
      (parse_words-to_string check_is_positive (b' ' ∷ write_ints ls) ls h)

pub write_ints-IsOneLine : (ls : List ℤ) → IsOneLine (write_ints ls)
unfolding write_ints
write_ints-IsOneLine [] = (ground arith, tt)
write_ints-IsOneLine (l ∷ ls) =
    All-append _ (to_string l) (b' ' ∷ write_ints ls) (to_string-IsOneLine l)
      (ground arith, write_ints-IsOneLine ls)

pub write_ints-BeginsNumber : (ls : List ℤ) → BeginsNumber (write_ints ls)
unfolding write_ints is_digit
write_ints-BeginsNumber [] = inl refl
write_ints-BeginsNumber (l ∷ ls) = to_string-BeginsNumber l (b' ' ∷ write_ints ls)
