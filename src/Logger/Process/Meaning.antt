-- ===== src/Logger/Process/Meaning.antt =====
-- The clauses for a variable against the candidate function of the variable.
use pedant_solver.Base.{
  ℕ, ◌≤◌, ◌<◌, ◌≡◌, refl, sym, ap, ◌∙◌, inl, inr, true, not, List, [], ◌∷◌, arith, Bool-cases,
  get_or,
}
use pedant_solver.Base.Int.{ℤ, pos, is_pos}
use pedant_solver.Formula.{Clause, Assignment, eval_lit, eval_formula, IsFormula}
use pedant_solver.Literal.{var}
use pedant_solver.Aiger.Reduced.{fires}
use pedant_solver.Logger.Writer.{Writer, write_forcing_clauses}
use pedant_solver.Logger.Writer.Order.{Follows, left, fires-left}
use pedant_solver.Logger.Writer.Values.{
  satisfies, IsUsed-IsClause, IsUsed-mono, write_forcing_clauses-value, write_forcing_clauses-grows,
  write_forcing_clauses-IsUsed,
}
use pedant_solver.Logger.Writer.Extension.{
  Extends, AllUsed, IsReady, Extension, eval_lit-Extends, eval_formula-Extends, fires-Extends,
  AllUsed-mono, Extends-trans, write_forcing_clauses-Extension,
}
use pedant_solver.Logger.Process.{write_constant, process_forcing_clauses}
use pedant_solver.Logger.Process.Determined.{decides, HasDefaults, process_left, literal_value}
use pedant_solver.Logger.Process.Extended.{
  write_constant-Extension, write_default_function-Extension,
}

AllUsed-IsFormula : (m : ℕ) (f : List Clause) → AllUsed m f → IsFormula f
AllUsed-IsFormula m [] h = tt
AllUsed-IsFormula m (c ∷ f) h = (IsUsed-IsClause m c h.0, AllUsed-IsFormula m f h.1)

-- What the model holds for a variable: the clauses are over variables below a bound once the
-- arbiters' literals are removed, and forcing clauses have no literal 0.
pub record IsEntry (m e : ℕ) (positive negative defaults : List Clause) (arbiters : List ℤ)
    : Type 0 where
  pub is_variable : 0 < e
  pub is_below : e < m
  pub positive_clauses : IsFormula positive
  pub negative_clauses : IsFormula negative
  pub positive_used : AllUsed m (left positive arbiters)
  pub negative_used : AllUsed m (left negative arbiters)
  pub defaults_used : AllUsed m defaults
  pub has_defaults : HasDefaults e defaults

IsEntry-mono :
    {m n e : ℕ} {positive negative defaults : List Clause} {arbiters : List ℤ}
    → m ≤ n
    → IsEntry m e positive negative defaults arbiters
    → IsEntry n e positive negative defaults arbiters
IsEntry-mono h i = record {
  is_variable = i.is_variable;
  is_below = omega (arith, i.is_below);
  positive_clauses = i.positive_clauses;
  negative_clauses = i.negative_clauses;
  positive_used = AllUsed-mono _ h i.positive_used;
  negative_used = AllUsed-mono _ h i.negative_used;
  defaults_used = AllUsed-mono _ h i.defaults_used;
  has_defaults = i.has_defaults;
}

decides_same :
    (a c : Assignment) (e : ℕ) (ps ns ps' ns' defaults : List Clause)
    → fires a ps' ≡ fires c ps
    → fires a ns' ≡ fires c ns
    → a e ≡ c e
    → eval_formula a defaults ≡ eval_formula c defaults
    → decides a e ps' ns' defaults ≡ decides c e ps ns defaults
unfolding decides
decides_same a c e ps ns ps' ns' [] p n v d = refl
decides_same a c e ps ns ps' ns' (cl ∷ []) p n v d = rw (p, n, v) refl
decides_same a c e ps ns ps' ns' (cl ∷ cl' ∷ others) p n v d = rw (p, n, v, d) refl

constant-Extension :
    (a : Assignment) (e : ℕ) (k : ℤ) (clauses : List Clause) (arbiters : List ℤ) (w : Writer)
    → IsReady w
    → 0 < e
    → e < w.unused_variable
    → var k ≡ e
    → AllUsed w.unused_variable (left clauses arbiters)
    → satisfies a w ≡ true
    → eval_lit a k ≡ not (fires a (left clauses arbiters))
    → Extension a w.unused_variable (
        write_constant k
          (write_forcing_clauses clauses arbiters [] w).0
          (write_forcing_clauses clauses arbiters [] w).1)
constant-Extension a e k clauses arbiters w r he lt d uc s h =
    let u = w.unused_variable in
    let (active, w') = write_forcing_clauses clauses arbiters [] w in
    let (r', (b, x, t)) = write_forcing_clauses-Extension a clauses arbiters [] w r uc s in
    let grown = write_forcing_clauses-grows clauses arbiters [] w in
    let v =
      write_forcing_clauses-value b clauses arbiters [] w
        (AllUsed-IsFormula u (left clauses arbiters) uc) r.0 t in
    let (b', x', t') =
      write_constant-Extension b k active w' r' (omega arith, omega arith)
        (write_forcing_clauses-IsUsed clauses arbiters [] w r.0 tt) t
        (eval_lit-Extends u a b k (omega arith, omega arith) x
          ∙ h
          ∙ ap not (sym (v.1 ∙ fires-Extends u a b (left clauses arbiters) uc x))) in
    (b', Extends-trans u w'.unused_variable a b b' grown x x', t')

extend_left :
    (a : Assignment) (e limit : ℕ) (positive negative defaults : List Clause) (arbiters : List ℤ)
    (w : Writer)
    → IsReady w
    → IsEntry w.unused_variable e positive negative defaults arbiters
    → satisfies a w ≡ true
    → decides a e (left positive arbiters) (left negative arbiters) defaults ≡ true
    → Extension a w.unused_variable
        (process_forcing_clauses limit e positive negative defaults arbiters w)
unfolding process_forcing_clauses decides
extend_left a e limit positive negative [] arbiters w r i s d = elim i.has_defaults [ ]
extend_left a e limit positive negative (cl ∷ []) arbiters w r i s d =
    let k = get_or cl 0 (pos 0) in
    let value = literal_value a k e i.has_defaults i.is_variable in
    elim (Bool-cases (is_pos k)) [
      | inl c ↦
          rw (c, process_forcing_clauses)
            (constant-Extension a e k negative arbiters w r i.is_variable i.is_below i.has_defaults
              i.negative_used s (ground (arith, c, value, d)))
      | inr c ↦
          rw (c, process_forcing_clauses)
            (constant-Extension a e k positive arbiters w r i.is_variable i.is_below i.has_defaults
              i.positive_used s (ground (arith, c, value, d)))
    ]
extend_left a e limit positive negative (cl ∷ cl' ∷ others) arbiters w r i s d =
    let u = w.unused_variable in
    let defaults = cl ∷ cl' ∷ others in
    let (ps, w₁) = write_forcing_clauses positive arbiters [] w in
    let (ns, w₂) = write_forcing_clauses negative arbiters [] w₁ in
    let u₁ = w₁.unused_variable in
    let u₂ = w₂.unused_variable in
    let g₁ = write_forcing_clauses-grows positive arbiters [] w in
    let g₂ = write_forcing_clauses-grows negative arbiters [] w₁ in
    let used = AllUsed-mono (left negative arbiters) g₁ i.negative_used in
    let (r₁, (b₁, x₁, t₁)) =
      write_forcing_clauses-Extension a positive arbiters [] w r i.positive_used s in
    let (r₂, (b₂, x₂, t₂)) =
      write_forcing_clauses-Extension b₁ negative arbiters [] w₁ r₁ used t₁ in
    let x : Extends u a b₂ = Extends-trans u u₁ a b₁ b₂ g₁ x₁ x₂ in
    let vn =
      write_forcing_clauses-value b₂ negative arbiters [] w₁
        (AllUsed-IsFormula u₁ (left negative arbiters) used) r₁.0 t₂ in
    let vp =
      write_forcing_clauses-value b₂ positive arbiters [] w
        (AllUsed-IsFormula u (left positive arbiters) i.positive_used) r.0 vn.0 in
    let (b, x₃, t) =
      write_default_function-Extension b₂ e ps ns defaults w₂ r₂ i.is_variable
        (omega (arith, i.is_below))
        (IsUsed-mono ps g₂ (write_forcing_clauses-IsUsed positive arbiters [] w r.0 tt))
        (write_forcing_clauses-IsUsed negative arbiters [] w₁ r₁.0 tt)
        (AllUsed-mono defaults (omega (arith, g₁, g₂)) i.defaults_used) t₂
        (ground (
          arith,
          d,
          vn.1,
          vp.1,
          fires-Extends u a b₂ (left positive arbiters) i.positive_used x,
          fires-Extends u a b₂ (left negative arbiters) i.negative_used x,
          x e i.is_below,
          eval_formula-Extends u a b₂ defaults i.defaults_used x,
        )) in
    (b, Extends-trans u u₂ a b₂ b (omega (arith, g₁, g₂)) x x₃, t)

module _ (m e limit : ℕ) (positive negative defaults : List Clause) (arbiters : List ℤ)
    (entry : IsEntry m e positive negative defaults arbiters) (a c : Assignment) (x : Extends m a c)
    (f : Follows c arbiters) where
  -- The written clauses are judged by the one assignment, the model by the other.
  decides-left :
      decides a e (left positive arbiters) (left negative arbiters) defaults
      ≡ decides c e positive negative defaults
  decides-left =
      let p = fires-Extends m a c (left positive arbiters) entry.positive_used x in
      let p' = fires-left c positive arbiters f entry.positive_clauses in
      let n = fires-Extends m a c (left negative arbiters) entry.negative_used x in
      let n' = fires-left c negative arbiters f entry.negative_clauses in
      decides_same a c e positive negative (left positive arbiters) (left negative arbiters)
        defaults (sym p ∙ p') (sym n ∙ n') (sym (x e entry.is_below))
        (sym (eval_formula-Extends m a c defaults entry.defaults_used x))

  -- If an assignment satisfies the clauses that are written for a variable with defaults, then it
  -- satisfies those that were written before; and each assignment that agrees with it on the
  -- variables below the bound and gives the arbiters their values gives the variable the value that
  -- its forcing clauses and defaults determine: a default constant unless a clause against it
  -- fires, or the literal of a forcing clause that fires, where otherwise the default clauses hold.
  pub process_forcing_clauses-value :
      (w : Writer)
      → 0 < w.unused_variable
      → satisfies a (process_forcing_clauses limit e positive negative defaults arbiters w) ≡ true
      → (satisfies a w ≡ true) × (decides c e positive negative defaults ≡ true)
  process_forcing_clauses-value w u s =
      let r =
        process_left a arbiters e limit entry.is_variable positive negative
          (AllUsed-IsFormula m (left positive arbiters) entry.positive_used)
          (AllUsed-IsFormula m (left negative arbiters) entry.negative_used) defaults w
          entry.has_defaults u s in
      (r.0, sym decides-left ∙ r.1)

  -- Conversely, an assignment that satisfies the clauses written before extends to the variables from
  -- `unused_variable` on so that it satisfies those for the variable too, if an assignment that
  -- agrees with it below the bound and gives the arbiters their values gives the variable the value
  -- that its forcing clauses and defaults determine.
  pub process_forcing_clauses-Extension :
      (w : Writer)
      → IsReady w
      → m ≤ w.unused_variable
      → satisfies a w ≡ true
      → decides c e positive negative defaults ≡ true
      → Extension a w.unused_variable
          (process_forcing_clauses limit e positive negative defaults arbiters w)
  process_forcing_clauses-Extension w r le s d =
      extend_left a e limit positive negative defaults arbiters w r (IsEntry-mono le entry) s
        (decides-left ∙ d)
