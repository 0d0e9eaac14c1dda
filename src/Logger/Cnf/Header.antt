-- ===== src/Logger/Cnf/Header.antt =====
-- The number of clauses in the header of the file of a model.
use pedant_solver.Base.{
  ℕ, ◌+◌, ◌≡◌, refl, Bool, false, not, ◌&&◌, ◌||◌, Option, none, some, List, [], ◌∷◌, arith,
  if◌then◌else◌, length, is_empty, get_or,
}
use pedant_solver.Base.Int.{ℤ}
use pedant_solver.Base.Maps.{Map, find}
use pedant_solver.Formula.{Clause}
use pedant_solver.Logger.{ModelLogger}
use pedant_solver.Logger.Writer.{Writer, is_condition_entailed}
use pedant_solver.Logger.Process.Count.{overcount}
use pedant_solver.Logger.Cnf.{Section, all_clauses, write_conditional_definitions}

-- What holds of a result, if there is one.
abbrev pub WhenSome {ℓ κ} : {A : Type ℓ} → (A → Type κ) → Option A → Type κ
WhenSome P none = Unit
WhenSome P (some x) = P x

-- Is the condition of a conditional definition entailed?
unfoldable pub is_some_entailed : List (List ℤ) → List (List Clause) → List ℤ → Bool
unfolding is_condition_entailed
is_some_entailed [] definitions assignment = false
is_some_entailed (condition ∷ conditions) [] assignment = false
is_some_entailed (condition ∷ conditions) (def ∷ definitions) assignment =
    is_condition_entailed condition assignment || is_some_entailed conditions definitions assignment

pub write_conditional_definitions-entailed :
    (limit : ℕ) (conditions : List (List ℤ)) (definitions : List (List Clause))
    (assignment : List ℤ) (w : Writer)
    → (write_conditional_definitions limit conditions definitions assignment w).0
      ≡ is_some_entailed conditions definitions assignment
unfolding write_conditional_definitions is_some_entailed
write_conditional_definitions-entailed limit [] definitions assignment w = refl
write_conditional_definitions-entailed limit (condition ∷ conditions) [] assignment w = refl
write_conditional_definitions-entailed limit (condition ∷ conditions) (def ∷ definitions) assignment
      w =
    ground (arith, write_conditional_definitions-entailed limit conditions definitions assignment w)

-- Where no condition is entailed, nothing is written.
pub write_conditional_definitions-none :
    (limit : ℕ) (conditions : List (List ℤ)) (definitions : List (List Clause))
    (assignment : List ℤ) (w : Writer)
    → is_some_entailed conditions definitions assignment ≡ false
    → (write_conditional_definitions limit conditions definitions assignment w).1 ≡ w
unfolding write_conditional_definitions is_some_entailed
write_conditional_definitions-none limit [] definitions assignment w h = refl
write_conditional_definitions-none limit (condition ∷ conditions) [] assignment w h = refl
write_conditional_definitions-none limit (condition ∷ conditions) (def ∷ definitions) assignment w
      h =
    ground (arith, write_conditional_definitions-none limit conditions definitions assignment w, h)

-- Is a variable written by its forcing clauses, without a definition?
unfoldable pub uses_clauses : ModelLogger → ℕ → List ℤ → Bool
unfolding is_some_entailed
uses_clauses m idx assignment =
    is_empty (get_or m.definitions_cnf idx [])
    && not (
        is_some_entailed (get_or m.conditions idx []) (get_or m.conditional_definitions_cnf idx [])
          assignment)

-- How many clauses too many are counted for a variable.
abbrev surplus_of : ModelLogger → ℕ → List ℤ → Option (List Clause) → ℕ
surplus_of m idx assignment none = 0
surplus_of m idx assignment (some defaults) =
    overcount (get_or m.positive_forcing_clauses idx []) (get_or m.negative_forcing_clauses idx [])
      defaults assignment

pub surplus : ModelLogger → Map (List Clause) → Map ℕ → List ℤ → ℕ
unfolding uses_clauses find
surplus m default_clause_map [] assignment = 0
surplus m default_clause_map ((e, idx) ∷ indices) assignment =
    (if uses_clauses m idx assignment
      then surplus_of m idx assignment (find default_clause_map e)
      else 0)
    + surplus m default_clause_map indices assignment

pub WhenSome-map :
    {A : Type 0} (P Q : A → Type 0) (o : Option A)
    → ((x : A) → P x → Q x)
    → WhenSome P o
    → WhenSome Q o
WhenSome-map P Q none f h = tt
WhenSome-map P Q (some x) f h = f x h

-- What the loop adds to the counter.
abbrev Announces : Writer → ℕ → List Section × Writer → Type 0
Announces w n (sections, w') = w'.nof_clauses ≡ w.nof_clauses + length (all_clauses sections) + n
