-- ===== src/Logger/Writer/Extension.antt =====
-- Satisfying assignments extend to the variables that writing introduces.
use pedant_solver.Base.{
  ℕ, ◌+◌, ◌≤◌, ◌<◌, ◌≡◌, refl, ◌∙◌, inl, inr, Bool, true, not, List, [], ◌∷◌, ◌++◌, map, arith,
  ◌==◌, if◌then◌else◌, Bool-cases, All, All-append,
}
use pedant_solver.Base.Int.{ℤ, pos, neg}
use pedant_solver.Formula.{Clause, Assignment, eval_lit, eval_clause, eval_formula, eval_lit_agree}
use pedant_solver.Literal.{var}
use pedant_solver.Aiger.Reduced.{fires}
use pedant_solver.Logger.Writer.{
  Writer, apply_assignment, write_clause_active, write_forcing_clauses,
}
use pedant_solver.Logger.Writer.Order.{left}
use pedant_solver.Logger.Writer.Values.{
  satisfies, write_clause_active-value, IsUsed, IsUsed-IsClause, IsUsed-mono,
}

-- Two assignments agree on the variables in use.
abbrev pub Extends : ℕ → Assignment → Assignment → Type 0
Extends m a b = (v : ℕ) → v < m → b v ≡ a v

-- A formula over variables in use, and a writer with such clauses.
abbrev pub AllUsed : ℕ → List Clause → Type 0
AllUsed m = All (All (IsUsed m))

abbrev pub IsReady : Writer → Type 0
IsReady w = (0 < w.unused_variable) × AllUsed w.unused_variable w.out

pub eval_lit-Extends :
    (m : ℕ) (a b : Assignment) (l : ℤ) → IsUsed m l → Extends m a b → eval_lit b l ≡ eval_lit a l
eval_lit-Extends m a b l u x = eval_lit_agree b a l (x (var l) u.1)

pub eval_clause-Extends :
    (m : ℕ) (a b : Assignment) (c : Clause)
    → All (IsUsed m) c
    → Extends m a b
    → eval_clause b c ≡ eval_clause a c
eval_clause-Extends m a b [] u x = refl
eval_clause-Extends m a b (l ∷ c) u x =
    ground (arith, eval_lit-Extends m a b l u.0 x, eval_clause-Extends m a b c u.1 x)

pub eval_formula-Extends :
    (m : ℕ) (a b : Assignment) (f : List Clause)
    → AllUsed m f
    → Extends m a b
    → eval_formula b f ≡ eval_formula a f
eval_formula-Extends m a b [] u x = refl
eval_formula-Extends m a b (c ∷ f) u x =
    ground (arith, eval_clause-Extends m a b c u.0 x, eval_formula-Extends m a b f u.1 x)

pub fires-Extends :
    (m : ℕ) (a b : Assignment) (f : List Clause)
    → AllUsed m f
    → Extends m a b
    → fires b f ≡ fires a f
unfolding fires
fires-Extends m a b [] u x = refl
fires-Extends m a b (c ∷ f) u x =
    ground (arith, eval_clause-Extends m a b c u.0 x, fires-Extends m a b f u.1 x)

pub AllUsed-mono : {m n : ℕ} (f : List Clause) → m ≤ n → AllUsed m f → AllUsed n f
AllUsed-mono [] h u = tt
AllUsed-mono (c ∷ f) h u = (IsUsed-mono c h u.0, AllUsed-mono f h u.1)

pub Extends-trans :
    (m n : ℕ) (a b c : Assignment) → m ≤ n → Extends m a b → Extends n b c → Extends m a c
Extends-trans m n a b c h x y v lt = y v (omega arith) ∙ x v lt

-- The variable that is introduced takes a value, the others keep theirs.
unfoldable pub update : Assignment → ℕ → Bool → Assignment
update a m x v = if v == m then x else a v

pub update-Extends : (a : Assignment) (m : ℕ) (x : Bool) → Extends m a (update a m x)
unfolding update
update-Extends a m x v h = ground arith

update_self : (a : Assignment) (m : ℕ) (x : Bool) → update a m x m ≡ x
unfolding update
update_self a m x = ground arith

implications-AllUsed :
    (u : ℕ) (c : Clause)
    → 0 < u
    → All (IsUsed u) c
    → AllUsed (u + 1) (map (λ l. neg l ∷ neg (pos u) ∷ []) c)
implications-AllUsed u [] h k = tt
implications-AllUsed u (l ∷ c) h k = (ground arith, implications-AllUsed u c h k.1)

write_clause_active-IsReady :
    (c : Clause) (w : Writer)
    → IsReady w
    → All (IsUsed w.unused_variable) c
    → IsReady (write_clause_active c w).1
unfolding write_clause_active
write_clause_active-IsReady c w r k =
    let u = w.unused_variable in
    (
      omega arith,
      All-append _ w.out _ (AllUsed-mono w.out (omega arith) r.1) (
        All-append _ c (pos u ∷ []) (IsUsed-mono c (omega arith) k)
            ((omega arith, omega arith), tt),
        implications-AllUsed u c r.0 k,
      ),
    )

-- An extension that satisfies the clauses of a writer.
abbrev pub Extension : Assignment → ℕ → Writer → Type 0
Extension a m w = (b : Assignment) × Extends m a b × (satisfies b w ≡ true)

write_clause_active-Extension :
    (a : Assignment) (c : Clause) (w : Writer)
    → IsReady w
    → All (IsUsed w.unused_variable) c
    → satisfies a w ≡ true
    → Extension a w.unused_variable (write_clause_active c w).1
write_clause_active-Extension a c w r k s =
    let u = w.unused_variable in
    let b = update a u (not (eval_clause a c)) in
    let x = update-Extends a u (not (eval_clause a c)) in
    (
      b,
      x,
      ground (
        arith,
        s,
        write_clause_active-value b c w r.0 (IsUsed-IsClause u c k),
        update_self a u (not (eval_clause a c)),
        eval_clause-Extends u a b c k x,
        eval_formula-Extends u a b w.out r.1 x,
      ),
    )

pub write_forcing_clauses-Extension :
    (a : Assignment) (clauses : List Clause) (arbiters pushed : List ℤ) (w : Writer)
    → IsReady w
    → AllUsed w.unused_variable (left clauses arbiters)
    → satisfies a w ≡ true
    → IsReady (write_forcing_clauses clauses arbiters pushed w).1
      × Extension a w.unused_variable (write_forcing_clauses clauses arbiters pushed w).1
unfolding write_forcing_clauses left
write_forcing_clauses-Extension a [] arbiters pushed w r k s = (r, (a, (λ v h. refl), s))
write_forcing_clauses-Extension a (c ∷ clauses) arbiters pushed w r k s =
    elim (Bool-cases (apply_assignment c arbiters).0) [
      | inl e ↦
          rw e (write_forcing_clauses-Extension a clauses arbiters pushed w r (rw (e, left) at k) s)
      | inr e ↦
          let u = w.unused_variable in
          let cl = (apply_assignment c arbiters).1 in
          let w' = (write_clause_active cl w).1 in
          let kept : All (IsUsed u) cl × AllUsed u (left clauses arbiters) = rw (e, left) at k in
          let (b, x, t) = write_clause_active-Extension a cl w r kept.0 s in
          let (r', (b', x', t')) =
            write_forcing_clauses-Extension b clauses arbiters (pushed ++ pos u ∷ []) w'
              (write_clause_active-IsReady cl w r kept.0)
              (AllUsed-mono (left clauses arbiters) (omega arith) kept.1) t in
          rw e (r', (b', Extends-trans u (u + 1) a b b' (omega arith) x x', t'))
    ]
