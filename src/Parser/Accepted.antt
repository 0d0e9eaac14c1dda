-- ===== src/Parser/Accepted.antt =====
-- What holds of each formula that dqdimacsparser.cc accepts.
use pedant_solver.Base.{
  ℕ, ◌≡◌, refl, subst, inl, inr, Bool, true, false, ◌&&◌, Option, none, some, List, [], ◌∷◌, map,
  arith, ◌==◌, if◌then◌else◌, Bool-cases, All,
}
use pedant_solver.Base.Int.{ℤ, is_neg}
use pedant_solver.Literal.{var}
use pedant_solver.Dqdimacs.{Dqdimacs, new_dqdimacs}
use pedant_solver.Dqdimacs.Entries.{
  HasEntries, new_dqdimacs-HasEntries, add_clause-HasEntries, add_universal_block-HasEntries,
  add_existential_block-HasEntries, add_explicit_dependencies-HasEntries,
}
use pedant_solver.Text.{Text, lines, words, stoi, magnitude, in_range, digits, Conversion, value}
use pedant_solver.Text.Numbers.{IsInt}
use pedant_solver.Parser.{
  Message, Result, ok, ◌>>=◌, converted, not_parsed, push_int, parse_words, parse_line,
  dependencies_of, parse_universal_block, parse_existential_block, parse_dependency_block,
  parse_clause, from_first_character, switch_line, parse_body_line, parse_body, process_prefix,
  parse_formula,
}
use pedant_solver.Parser.Lines.{IsEntry, IsVar}

-- Where two steps return, the first does, and the second on what it gives.
pub both_return {ℓ κ} :
    {A : Type ℓ} {B : Type κ} (first : Result A) (second : A → Result B) {result : B}
    → (first >>= second) ≡ ok result
    → (given : A) × (first ≡ ok given) × (second given ≡ ok result)
both_return (ok given) second e = (given, refl, e)
both_return (Result.invalid_file message) second e = cc
both_return Result.uncaught_out_of_range second e = cc
both_return Result.missing_return second e = cc

in_range-IsInt : (negative : Bool) (n : ℕ) (i : ℤ) → in_range negative n ≡ value i → IsInt i
in_range-IsInt true n i h = ground arith
in_range-IsInt false n i h = ground arith

magnitude-IsInt : (negative : Bool) (s : Text) (i : ℤ) → magnitude negative s ≡ value i → IsInt i
unfolding magnitude
magnitude-IsInt negative [] i h = cc
magnitude-IsInt negative (c ∷ s) i h = ground (arith, in_range-IsInt negative (digits 0 (c ∷ s)) i)

-- What `stoi` returns is an `int`.
pub stoi-IsInt : (s : Text) (i : ℤ) → stoi s ≡ value i → IsInt i
unfolding stoi
stoi-IsInt [] i h = cc
stoi-IsInt (c ∷ s) i h = ground (
  arith,
  stoi-IsInt s i,
  magnitude-IsInt true s i,
  magnitude-IsInt false s i,
  magnitude-IsInt false (c ∷ s) i,
)

converted-value : (m : Message) (c : Conversion) (i : ℤ) → converted m c ≡ ok i → c ≡ value i
converted-value m (value j) i h = ground arith
converted-value m Conversion.invalid_argument i h = cc
converted-value m Conversion.out_of_range i h = cc

ok_inj {ℓ} : {A : Type ℓ} (a b : A) → Path (Result A) (ok a) (ok b) → a ≡ b
ok_inj a b h = cc

-- A list that was returned may stand for the one that is known.
All-ok :
    (P : ℤ → Type 0) (ks ls : List ℤ) → Path (Result (List ℤ)) (ok ks) (ok ls) → All P ks → All P ls
All-ok P ks ls h = subst (All P) (ok_inj ks ls h)

push_int-IsEntry :
    (check : Bool) (line : Text) (rest : Result (List ℤ)) (i : ℤ) (ls : List ℤ)
    → IsInt i
    → ((ks : List ℤ) → rest ≡ ok ks → All (IsEntry check) ks)
    → push_int check line rest i ≡ ok ls
    → All (IsEntry check) ls
push_int-IsEntry check line rest i ls hi hr h = elim (Bool-cases (var i == 0)) [
  | inl e ↦ All-ok _ [] ls (rw e at h) tt
  | inr e ↦ elim (Bool-cases (check && is_neg i)) [
    | inl n ↦ cc (rw (e, n) at h)
    | inr n ↦
        let (ks, r, p) = both_return rest _ (rw (e, n) at h) in
        All-ok _ (i ∷ ks) ls p ((ground arith, hi, n), hr ks r)
  ]
]

parse_words-IsEntry :
    (check : Bool) (line : Text) (ws : List Text) (ls : List ℤ)
    → parse_words check line ws ≡ ok ls
    → All (IsEntry check) ls
unfolding parse_words
parse_words-IsEntry check line [] ls h = All-ok _ [] ls h tt
parse_words-IsEntry check line (w ∷ ws) ls h =
    let (i, e, p) = both_return (converted (not_parsed line) (stoi w)) _ h in
    push_int-IsEntry check line (parse_words check line ws) i ls
      (stoi-IsInt w i (converted-value (not_parsed line) (stoi w) i e))
      (parse_words-IsEntry check line ws) p

-- The numbers of a line that is accepted can stand in such a line.
pub parse_line-IsEntry :
    (line : Text) (check : Bool) (ls : List ℤ)
    → parse_line line check ≡ ok ls
    → All (IsEntry check) ls
unfolding parse_line
parse_line-IsEntry line check ls h = parse_words-IsEntry check line (words line) ls h

IsEntry-IsVar : (l : ℤ) → IsEntry true l → IsVar (var l)
IsEntry-IsVar l h = ground arith

every_var : (ls : List ℤ) → All (IsEntry true) ls → All IsVar (map var ls)
every_var [] h = tt
every_var (l ∷ ls) h = (IsEntry-IsVar l h.0, every_var ls h.1)

-- What holds of a formula that is read: literals and variables are not zero and in the range of an
-- `int`, and the variables of the blocks are at most `max_var`.
abbrev pub IsRead : Dqdimacs → Type 0
IsRead = HasEntries (IsEntry false) IsVar

-- A step that returns a formula keeps this.
abbrev Keeps : (Dqdimacs → Result Dqdimacs) → Type 0
Keeps step = (f g : Dqdimacs) → step f ≡ ok g → IsRead f → IsRead g

IsRead-ok : (f g : Dqdimacs) → Path (Result Dqdimacs) (ok f) (ok g) → IsRead f → IsRead g
IsRead-ok f g h = subst IsRead (ok_inj f g h)

parse_universal_block-Keeps : (line : Text) → Keeps (parse_universal_block line)
unfolding parse_universal_block
parse_universal_block-Keeps line f g h i =
    let (ls, e, p) = both_return (parse_line line true) _ h in
    IsRead-ok _ g p (
      add_universal_block-HasEntries _ _ (map var ls) f
        (every_var ls (parse_line-IsEntry line true ls e)) i)

parse_existential_block-Keeps : (line : Text) → Keeps (parse_existential_block line)
unfolding parse_existential_block
parse_existential_block-Keeps line f g h i =
    let (ls, e, p) = both_return (parse_line line true) _ h in
    IsRead-ok _ g p (
      add_existential_block-HasEntries _ _ (map var ls) f
        (every_var ls (parse_line-IsEntry line true ls e)) i)

dependencies_of-Keeps :
    (line : Text) (ls : List ℤ) → All (IsEntry true) ls → Keeps (dependencies_of line ls)
dependencies_of-Keeps line [] a f g h i = cc
dependencies_of-Keeps line (l ∷ ls) a f g h i = IsRead-ok _ g h (
    add_explicit_dependencies-HasEntries _ _ (var l) (map var ls) f (IsEntry-IsVar l a.0)
      (every_var ls a.1) i)

parse_dependency_block-Keeps : (line : Text) → Keeps (parse_dependency_block line)
unfolding parse_dependency_block
parse_dependency_block-Keeps line f g h i =
    let (ls, e, p) = both_return (parse_line line true) _ h in
    dependencies_of-Keeps line ls (parse_line-IsEntry line true ls e) f g p i

parse_clause-Keeps : (line : Text) → Keeps (parse_clause line)
unfolding parse_clause
parse_clause-Keeps line f g h i =
    let (ls, e, p) = both_return (parse_line line false) _ h in
    IsRead-ok _ g p (add_clause-HasEntries _ _ ls f (parse_line-IsEntry line false ls e) i)

-- A conditional that returns does so by one of its branches.
branch :
    (b : Bool) (x y : Result Dqdimacs) {g : Dqdimacs}
    → (x ≡ ok g → IsRead g)
    → (y ≡ ok g → IsRead g)
    → (if b then x else y) ≡ ok g
    → IsRead g
branch true x y hx hy h = hx h
branch false x y hx hy h = hy h

switch_line-Keeps : (line s : Text) → Keeps (switch_line line s)
unfolding switch_line
switch_line-Keeps line [] f g h i = IsRead-ok f g h i
switch_line-Keeps line (c ∷ s) f g h i =
    branch (c == b'c') _ _ (λ e. IsRead-ok f g e i)
      (branch (c == b'p') _ _ (λ e. cc)
        (branch (c == b'a') _ _ (λ e. parse_universal_block-Keeps s f g e i)
          (branch (c == b'e') _ _ (λ e. parse_existential_block-Keeps s f g e i)
            (branch (c == b'd') _ _ (λ e. parse_dependency_block-Keeps s f g e i)
              (λ e. parse_clause-Keeps line f g e i)))))
      h

parse_body-Keeps : (ls : List Text) → Keeps (parse_body ls)
unfolding parse_body parse_body_line
parse_body-Keeps [] f g h i = IsRead-ok f g h i
parse_body-Keeps (line ∷ ls) f g h i =
    let (f', e, p) = both_return (parse_body_line line f) _ h in
    parse_body-Keeps ls f' g p (switch_line-Keeps line (from_first_character line) f f' e i)

-- If a file is accepted, then the literals of its clauses and the variables of its blocks and
-- dependencies are not zero and in the range of an `int`, and `max_var` is at least each variable of
-- a block or with dependencies.
pub parse_formula-IsRead :
    (junk : Bool) (input : Option Text) (f : Dqdimacs) → parse_formula junk input ≡ ok f → IsRead f
unfolding parse_formula
parse_formula-IsRead junk none f h = cc
parse_formula-IsRead junk (some input) f h =
    let (prefix, e, p) = both_return (process_prefix (lines input)) _ h in
    parse_body-Keeps prefix.1 (new_dqdimacs junk) f p (new_dqdimacs-HasEntries _ _ junk)
