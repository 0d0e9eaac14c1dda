-- ===== src/Text.antt =====
-- What the repository uses of the C++ library on text: `std::getline`, the extraction `>>` of words,
-- `std::stoi` and `std::to_string`. A text is a list of its bytes.
pub mod Words
pub mod Numbers
use pedant_solver.Base.{
  ℕ, zero, suc, ◌+◌, ◌-◌, ◌*◌, ◌/◌, ◌%◌, ◌^◌, ◌≤◌, ◌<◌, max, ◌≡◌, refl, sym, ap, ◌∙◌, subst, ◌≢◌,
  ◌↔◌, ◌⊎◌, inl, inr, Bool, true, false, not, ◌&&◌, ◌||◌, Option, none, some, List, [], ◌∷◌, ◌++◌,
  map, arith, ltb, leb, ◌==◌, if◌then◌else◌, Bool-cases, Option-cases, Bool_ext, not-not, ==_iff,
  ==_refl, length, get_elem?, set, is_empty, any, all, select, All, length-append, any-append,
  all-append, All-append, All-left, length-select-le, length-set, get_or, get_or-set_self,
  get_or-set_ne, get_or-append_left,
}
use pedant_solver.Base.Int.{
  ℤ, pos, negsuc, neg, abs, is_pos, is_neg, of_bool, eq_ℤ, eq_ℤ_iff, neg-neg, abs-neg,
}

abbrev pub Text : Type 0
Text = List ℕ

abbrev pub newline : ℕ
newline = 10

abbrev pub int_max : ℕ
int_max = 2 ^ 31 - 1

-- `isspace`
unfoldable pub is_space : ℕ → Bool
is_space c = c == b' ' || leb 9 c && leb c 13

unfoldable pub is_digit : ℕ → Bool
is_digit c = leb b'0' c && leb c b'9'

-- A byte before the first of some pieces.
abbrev pub push_front : ℕ → List Text → List Text
push_front c [] = (c ∷ []) ∷ []
push_front c (w ∷ ws) = (c ∷ w) ∷ ws

-- The lines that `getline` reads one after the other.
unfoldable pub lines : Text → List Text
lines [] = []
lines (c ∷ s) = let rest = lines s in if c == newline then [] ∷ rest else push_front c rest

-- Does a word end here?
unfoldable pub at_end : Text → Bool
unfolding is_space
at_end [] = true
at_end (c ∷ s) = is_space c

-- The words that `>>` extracts one after the other.
unfoldable pub words : Text → List Text
unfolding is_space at_end
words [] = []
words (c ∷ s) =
    let rest = words s in
    if is_space c then rest else if at_end s then (c ∷ []) ∷ rest else push_front c rest

-- What `std::stoi` returns or throws.
pub data Conversion : Type 0 where
  value : ℤ → Conversion
  invalid_argument : Conversion
  out_of_range : Conversion

-- The number that the digits at the front stand for: what follows them is ignored.
unfoldable pub digits : ℕ → Text → ℕ
unfolding is_digit
digits n [] = n
digits n (c ∷ s) = let rest = digits (n * 10 + (c - b'0')) s in if is_digit c then rest else n

abbrev pub in_range : Bool → ℕ → Conversion
in_range true n = if leb n (int_max + 1) then value (neg (pos n)) else out_of_range
in_range false n = if leb n int_max then value (pos n) else out_of_range

unfoldable pub magnitude : Bool → Text → Conversion
unfolding is_digit digits
magnitude negative [] = invalid_argument
magnitude negative (c ∷ s) =
    if is_digit c then in_range negative (digits 0 (c ∷ s)) else invalid_argument

unfoldable pub stoi : Text → Conversion
unfolding magnitude is_space
stoi [] = invalid_argument
stoi (c ∷ s) =
    let rest = stoi s in
    if is_space c
    then rest
    else if c == b'-'
    then magnitude true s
    else if c == b'+'
    then magnitude false s
    else magnitude false (c ∷ s)

-- The decimal digits of a number: a number has fewer digits than its fuel, its successor.
unfoldable pub decimal : ℕ → ℕ → Text
decimal zero n = []
decimal (suc fuel) n =
    let front = decimal fuel (n / 10) in
    if ltb n 10 then (b'0' + n) ∷ [] else front ++ (b'0' + n % 10) ∷ []

unfoldable pub to_string : ℤ → Text
unfolding decimal
to_string (pos n) = decimal (suc n) n
to_string (negsuc n) = b'-' ∷ decimal (suc (suc n)) (suc n)
