-- ===== src/Logger/Process/Determined.antt =====
-- What the clauses for a variable determine, from what the arbiters leave of its forcing clauses.
use pedant_solver.Base.{
  ℕ, zero, suc, ◌<◌, ◌≡◌, ap, ◌∙◌, inl, inr, Bool, true, not, ◌&&◌, ◌||◌, List, [], ◌∷◌, arith,
  if◌then◌else◌, Bool-cases, get_or,
}
use pedant_solver.Base.Int.{ℤ, pos, negsuc, is_pos}
use pedant_solver.Formula.{Clause, Assignment, eval_lit, eval_formula, IsFormula}
use pedant_solver.Literal.{var}
use pedant_solver.Aiger.Reduced.{fires}
use pedant_solver.Logger.Writer.{Writer, write_forcing_clauses}
use pedant_solver.Logger.Writer.Order.{left}
use pedant_solver.Logger.Writer.Values.{
  satisfies, same, write_forcing_clauses-value, write_forcing_clauses-grows,
  write_forcing_clauses-IsUsed, IsUsed-IsClause,
}
use pedant_solver.Logger.Process.{write_constant, process_forcing_clauses}
use pedant_solver.Logger.Process.Value.{write_constant-value, write_default_function-value}

-- Does an assignment give the variable the value that the model says? With a default constant it is
-- the constant if no clause against it fires. With a default function a clause that fires decides,
-- and if none fires the default clauses hold.
unfoldable pub decides : Assignment → ℕ → List Clause → List Clause → List Clause → Bool
unfolding fires
decides a e positive negative [] = true
decides a e positive negative (cl ∷ []) =
    same (a e) (if is_pos (get_or cl 0 (pos 0)) then not (fires a negative) else fires a positive)
decides a e positive negative (cl ∷ cl' ∷ others) =
    (not (fires a positive) || a e)
    && (not (fires a negative) || not (a e))
    && (fires a positive || fires a negative || eval_formula a (cl ∷ cl' ∷ others))

-- There are defaults, and a default constant is a literal of the variable.
abbrev pub HasDefaults : ℕ → List Clause → Type 0
HasDefaults e [] = ⊥
HasDefaults e (cl ∷ []) = var (get_or cl 0 (pos 0)) ≡ e
HasDefaults e (cl ∷ cl' ∷ others) = Unit

-- The value of a literal of a variable, by its sign.
pub literal_value :
    (a : Assignment) (k : ℤ) (e : ℕ)
    → var k ≡ e
    → 0 < e
    → eval_lit a k ≡ (if is_pos k then a e else not (a e))
literal_value a (pos zero) e d h = absurd (omega arith)
literal_value a (pos (suc n)) e d h = ap a d
literal_value a (negsuc n) e d h = ap (λ v. not (a v)) d

module _ (a : Assignment) (arbiters : List ℤ) (e limit : ℕ) (h : 0 < e)
    (positive negative : List Clause) (hp : IsFormula (left positive arbiters))
    (hn : IsFormula (left negative arbiters)) where
  -- The default constant, after the clauses against it.
  constant_value :
      (k : ℤ) (clauses : List Clause) (w : Writer)
      → var k ≡ e
      → 0 < w.unused_variable
      → IsFormula (left clauses arbiters)
      → satisfies a (
          write_constant k
            (write_forcing_clauses clauses arbiters [] w).0
            (write_forcing_clauses clauses arbiters [] w).1)
        ≡ true
      → (satisfies a w ≡ true) × (eval_lit a k ≡ not (fires a (left clauses arbiters)))
  constant_value k clauses w d u hc s =
      let (active, w') = write_forcing_clauses clauses arbiters [] w in
      let grown : 0 < w'.unused_variable =
        omega (arith, write_forcing_clauses-grows clauses arbiters [] w) in
      let used = write_forcing_clauses-IsUsed clauses arbiters [] w u tt in
      let r =
        write_constant-value a k active w' (omega arith)
          (IsUsed-IsClause w'.unused_variable active used) grown s in
      let rc = write_forcing_clauses-value a clauses arbiters [] w hc u r.0 in
      (rc.0, r.1 ∙ ap not rc.1)

  pub process_left :
      (defaults : List Clause) (w : Writer)
      → HasDefaults e defaults
      → 0 < w.unused_variable
      → satisfies a (process_forcing_clauses limit e positive negative defaults arbiters w) ≡ true
      → (satisfies a w ≡ true)
        × (decides a e (left positive arbiters) (left negative arbiters) defaults ≡ true)
  unfolding process_forcing_clauses decides
  process_left [] w d u s = elim d [ ]
  process_left (cl ∷ []) w d u s =
      let k = get_or cl 0 (pos 0) in
      elim (Bool-cases (is_pos k)) [
        | inl c ↦
            let r = constant_value k negative w d u hn (rw (c, process_forcing_clauses) at s) in
            (r.0, ground (arith, c, r.1, literal_value a k e d h))
        | inr c ↦
            let r = constant_value k positive w d u hp (rw (c, process_forcing_clauses) at s) in
            (r.0, ground (arith, c, r.1, literal_value a k e d h))
      ]
  process_left (cl ∷ cl' ∷ others) w d u s =
      let (ps, w₁) = write_forcing_clauses positive arbiters [] w in
      let (ns, w₂) = write_forcing_clauses negative arbiters [] w₁ in
      let u₁ : 0 < w₁.unused_variable =
        omega (arith, write_forcing_clauses-grows positive arbiters [] w) in
      let u₂ : 0 < w₂.unused_variable =
        omega (arith, write_forcing_clauses-grows negative arbiters [] w₁) in
      let up = write_forcing_clauses-IsUsed positive arbiters [] w u tt in
      let un = write_forcing_clauses-IsUsed negative arbiters [] w₁ u₁ tt in
      let r =
        write_default_function-value a e ps ns (cl ∷ cl' ∷ others) w₂ h
          (IsUsed-IsClause w₁.unused_variable ps up) (IsUsed-IsClause w₂.unused_variable ns un) u₂
          s in
      let rn = write_forcing_clauses-value a negative arbiters [] w₁ hn u₁ r.0 in
      let rp = write_forcing_clauses-value a positive arbiters [] w hp u rn.0 in
      (rp.0, ground (arith, r.1, rn.1, rp.1))
