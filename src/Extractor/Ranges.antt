-- ===== src/Extractor/Ranges.antt =====
-- The offsets of the blocks cut the variables into the runs.
use pedant_solver.Base.{
  ℕ, zero, suc, ◌+◌, ◌≤◌, ◌≡◌, refl, sym, ap, ◌∙◌, inl, inr, Bool, true, false, List, [], ◌∷◌, ◌++◌,
  arith, Bool-cases, length, get_or, get_or-append_left,
}
use mathlib.Core.List.{append-nil, append_assoc}
use pedant_solver.Dqdimacs.Blocks.{
  Runs, same, run_variables, run_offsets, count, length-run_offsets,
}
use pedant_solver.Extractor.{take, drop, range}

pub take-append : (xs ys : List ℕ) → take (length xs) (xs ++ ys) ≡ xs
take-append [] ys = refl
take-append (x ∷ xs) ys = ap (λ l. x ∷ l) (take-append xs ys)

pub drop-append : (xs ys : List ℕ) → drop (length xs) (xs ++ ys) ≡ ys
drop-append [] ys = refl
drop-append (x ∷ xs) ys = drop-append xs ys

pub range-append :
    (xs ys zs : List ℕ) → range (length xs) (length (xs ++ ys)) ((xs ++ ys) ++ zs) ≡ ys
range-append xs ys zs = ap (drop (length xs)) (take-append (xs ++ ys) zs) ∙ drop-append xs ys

pub run_variables-append :
    (k : Bool) (newer older : Runs)
    → run_variables k (newer ++ older) ≡ run_variables k older ++ run_variables k newer
unfolding run_variables
run_variables-append k [] older = sym (append-nil (run_variables k older))
run_variables-append true ((true, ws) ∷ newer) older =
    ap (λ l. l ++ ws) (run_variables-append true newer older)
    ∙ append_assoc (run_variables true older) (run_variables true newer) ws
run_variables-append false ((false, ws) ∷ newer) older =
    ap (λ l. l ++ ws) (run_variables-append false newer older)
    ∙ append_assoc (run_variables false older) (run_variables false newer) ws
run_variables-append true ((false, ws) ∷ newer) older = run_variables-append true newer older
run_variables-append false ((true, ws) ∷ newer) older = run_variables-append false newer older

pub count-append :
    (k : Bool) (newer older : Runs) → count k (newer ++ older) ≡ count k newer + count k older
unfolding count
count-append k [] older = omega arith
count-append k ((j, ws) ∷ newer) older = ground (arith, count-append k newer older)

get_or-last : (xs : List ℕ) (n i : ℕ) → length xs ≡ i → get_or (xs ++ n ∷ []) i 0 ≡ n
get_or-last [] n i e = rw (sym e) refl
get_or-last (x ∷ xs) n zero e = ground arith
get_or-last (x ∷ xs) n (suc i) e = get_or-last xs n i (omega arith)

offset_here :
    (k : Bool) (runs : Runs)
    → get_or (run_offsets k runs) (count k runs) 0 ≡ length (run_variables k runs)
unfolding count run_offsets run_variables
offset_here k [] = refl
offset_here true ((true, ws) ∷ runs) =
    get_or-last (run_offsets true runs) (length (run_variables true runs ++ ws))
      (suc (count true runs)) (length-run_offsets true runs)
offset_here false ((false, ws) ∷ runs) =
    get_or-last (run_offsets false runs) (length (run_variables false runs ++ ws))
      (suc (count false runs)) (length-run_offsets false runs)
offset_here true ((false, ws) ∷ runs) = offset_here true runs
offset_here false ((true, ws) ∷ runs) = offset_here false runs

count_within :
    (k : Bool) (newer older : Runs) → suc (count k older) ≤ length (run_offsets k (newer ++ older))
count_within k newer older =
    omega (arith, length-run_offsets k (newer ++ older), count-append k newer older)

-- The offset with the number of older runs of a kind is the number of their variables.
pub offset_of_older :
    (k : Bool) (newer older : Runs)
    → get_or (run_offsets k (newer ++ older)) (count k older) 0 ≡ length (run_variables k older)
unfolding run_offsets
offset_of_older k [] older = offset_here k older
offset_of_older k ((j, ws) ∷ newer) older = elim (Bool-cases (same j k)) [
  | inl e ↦ rw e (
      get_or-append_left (run_offsets k (newer ++ older)) _ (count k older) 0
        (count_within k newer older)
      ∙ offset_of_older k newer older)
  | inr e ↦ rw e (offset_of_older k newer older)
]

pub offset_below :
    (k : Bool) (newer : Runs) (run : Bool × List ℕ) (older : Runs)
    → get_or (run_offsets k (newer ++ run ∷ older)) (count k older) 0
      ≡ length (run_variables k older)
offset_below k newer run older =
    ap (λ r. get_or (run_offsets k r) (count k older) 0) (sym (append_assoc newer (run ∷ []) older))
    ∙ offset_of_older k (newer ++ run ∷ []) older
