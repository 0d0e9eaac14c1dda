-- ===== src/Text/Numbers.antt =====
-- Numbers as text: `stoi` reads what `to_string` writes.
use pedant_solver.Base.{
  ℕ, zero, suc, ◌+◌, ◌-◌, ◌*◌, ◌/◌, ◌%◌, ◌≤◌, ◌<◌, ◌≡◌, refl, ◌∙◌, ◌⊎◌, inl, inr, Bool, true, false,
  [], ◌∷◌, ◌++◌, arith, ltb, Bool-cases, is_empty, All, All-append,
}
use pedant_solver.Base.Int.{ℤ, pos, negsuc}
use pedant_solver.Text.{
  Text, int_max, is_space, is_digit, value, digits, magnitude, stoi, decimal, to_string, in_range,
}
use pedant_solver.Text.Words.{IsOneLine, IsWord}

abbrev IsDecimal : Text → Type 0
IsDecimal = All (λ c. is_digit c ≡ true)

decimal-IsDecimal : (fuel n : ℕ) → IsDecimal (decimal fuel n)
unfolding decimal is_digit
decimal-IsDecimal zero n = tt
decimal-IsDecimal (suc fuel) n = elim (Bool-cases (ltb n 10)) [
  | inl e ↦ rw e (ground arith, tt)
  | inr e ↦ rw e (
      All-append _ (decimal fuel (n / 10)) ((b'0' + n % 10) ∷ []) (decimal-IsDecimal fuel (n / 10))
        (ground arith, tt))
]

digits-append :
    (n d : ℕ) (s : Text)
    → IsDecimal s
    → d < 10
    → digits n (s ++ (b'0' + d) ∷ []) ≡ digits n s * 10 + d
unfolding digits is_digit
digits-append n d [] h lt = ground arith
digits-append n d (c ∷ s) h lt = ground (arith, digits-append (n * 10 + (c - b'0')) d s h.1 lt)

digits-decimal : (fuel n : ℕ) → n < fuel → digits 0 (decimal fuel n) ≡ n
unfolding digits decimal is_digit
digits-decimal zero n lt = omega arith
digits-decimal (suc fuel) n lt = elim (Bool-cases (ltb n 10)) [
  | inl e ↦ rw e (ground arith)
  | inr e ↦ rw e (
      ground (
        arith,
        digits-append 0 (n % 10) (decimal fuel (n / 10)) (decimal-IsDecimal fuel (n / 10))
            (omega arith),
        digits-decimal fuel (n / 10) (ground arith),
      ))
]

is_empty-snoc : (s : Text) (c : ℕ) → is_empty (s ++ c ∷ []) ≡ false
is_empty-snoc [] c = refl
is_empty-snoc (d ∷ s) c = refl

decimal-some : (fuel n : ℕ) → is_empty (decimal (suc fuel) n) ≡ false
unfolding decimal
decimal-some fuel n = ground (arith, is_empty-snoc (decimal fuel (n / 10)) (b'0' + n % 10))

magnitude-IsDecimal :
    (negative : Bool) (s : Text)
    → IsDecimal s
    → is_empty s ≡ false
    → magnitude negative s ≡ in_range negative (digits 0 s)
unfolding magnitude
magnitude-IsDecimal negative [] h e = cc
magnitude-IsDecimal negative (c ∷ s) h e = rw h.0 refl

stoi-IsDecimal :
    (s : Text) → IsDecimal s → is_empty s ≡ false → stoi s ≡ in_range false (digits 0 s)
unfolding stoi is_space is_digit
stoi-IsDecimal [] h e = cc
stoi-IsDecimal (c ∷ s) h e = ground (arith, magnitude-IsDecimal false (c ∷ s) h e)

-- The values of `int`.
abbrev pub IsInt : ℤ → Type 0
IsInt (pos n) = n ≤ int_max
IsInt (negsuc n) = n ≤ int_max

-- `stoi` reads an `int` back from its text.
pub stoi-to_string : (l : ℤ) → IsInt l → stoi (to_string l) ≡ value l
unfolding to_string stoi is_space
stoi-to_string (pos n) h =
    stoi-IsDecimal (decimal (suc n) n) (decimal-IsDecimal (suc n) n) (decimal-some n n)
    ∙ rw (digits-decimal (suc n) n (omega arith)) (ground arith)
stoi-to_string (negsuc n) h =
    magnitude-IsDecimal true (decimal (suc (suc n)) (suc n))
      (decimal-IsDecimal (suc (suc n)) (suc n)) (decimal-some (suc n) (suc n))
    ∙ rw (digits-decimal (suc (suc n)) (suc n) (omega arith)) (ground arith)

-- The text of a number is one word in one line.
IsDecimal-IsWord : (s : Text) → IsDecimal s → IsWord s
unfolding is_digit is_space
IsDecimal-IsWord [] h = tt
IsDecimal-IsWord (c ∷ s) h = (ground arith, IsDecimal-IsWord s h.1)

IsWord-IsOneLine : (s : Text) → IsWord s → IsOneLine s
unfolding is_space
IsWord-IsOneLine [] h = tt
IsWord-IsOneLine (c ∷ s) h = (ground arith, IsWord-IsOneLine s h.1)

pub to_string-IsWord : (l : ℤ) → IsWord (to_string l)
unfolding to_string is_space
to_string-IsWord (pos n) = IsDecimal-IsWord (decimal (suc n) n) (decimal-IsDecimal (suc n) n)
to_string-IsWord (negsuc n) = (
  refl,
  IsDecimal-IsWord (decimal (suc (suc n)) (suc n)) (decimal-IsDecimal (suc (suc n)) (suc n)),
)

pub to_string-IsOneLine : (l : ℤ) → IsOneLine (to_string l)
to_string-IsOneLine l = IsWord-IsOneLine (to_string l) (to_string-IsWord l)

pub to_string-some : (l : ℤ) → is_empty (to_string l) ≡ false
unfolding to_string
to_string-some (pos n) = decimal-some n n
to_string-some (negsuc n) = refl

-- It begins with a digit or the sign.
abbrev pub BeginsNumber : Text → Type 0
BeginsNumber [] = ⊥
BeginsNumber (c ∷ s) = (is_digit c ≡ true) ⊎ (c ≡ b'-')

IsDecimal-BeginsNumber : (s t : Text) → IsDecimal s → is_empty s ≡ false → BeginsNumber (s ++ t)
IsDecimal-BeginsNumber [] t h e = cc
IsDecimal-BeginsNumber (c ∷ s) t h e = inl h.0

pub to_string-BeginsNumber : (l : ℤ) (t : Text) → BeginsNumber (to_string l ++ t)
unfolding to_string
to_string-BeginsNumber (pos n) t =
    IsDecimal-BeginsNumber (decimal (suc n) n) t (decimal-IsDecimal (suc n) n) (decimal-some n n)
to_string-BeginsNumber (negsuc n) t = inr refl
