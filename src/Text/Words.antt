-- ===== src/Text/Words.antt =====
-- Pieces of a text: joined lines and words are read one by one.
use pedant_solver.Base.{ℕ, ◌≡◌, refl, ◌≢◌, false, [], ◌∷◌, ◌++◌, arith, is_empty, All}
use pedant_solver.Text.{Text, newline, is_space, lines, at_end, words}

-- No byte of a text ends a line; none ends a word.
abbrev pub IsOneLine : Text → Type 0
IsOneLine = All (λ c. c ≢ newline)

abbrev pub IsWord : Text → Type 0
IsWord = All (λ c. is_space c ≡ false)

-- A line that ends is the first that is read.
pub lines-append :
    (line rest : Text) → IsOneLine line → lines (line ++ newline ∷ rest) ≡ line ∷ lines rest
unfolding lines
lines-append [] rest h = refl
lines-append (c ∷ line) rest h = ground (arith, lines-append line rest h.1)

-- A word before a space is the first that is read.
pub words-append :
    (c : ℕ) (w rest : Text) → IsWord (c ∷ w) → words ((c ∷ w) ++ b' ' ∷ rest) ≡ (c ∷ w) ∷ words rest
unfolding words at_end is_space
words-append c [] rest h = ground arith
words-append c (d ∷ w) rest h = ground (arith, words-append d w rest h.1)

pub words-append_word :
    (w rest : Text) → IsWord w → is_empty w ≡ false → words (w ++ b' ' ∷ rest) ≡ w ∷ words rest
words-append_word [] rest h e = cc
words-append_word (c ∷ w) rest h e = words-append c w rest h

pub words-word : (c : ℕ) → is_space c ≡ false → words (c ∷ []) ≡ (c ∷ []) ∷ []
unfolding words at_end
words-word c h = rw h refl

pub words-space : (rest : Text) → words (b' ' ∷ rest) ≡ words rest
unfolding words is_space
words-space rest = refl
