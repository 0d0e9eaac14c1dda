-- ===== src/Logger/Cnf/Printed.antt =====
-- The file of the model can be read by dqdimacsparser.cc.
use pedant_solver.Base.{
  ℕ, ◌≤◌, ◌≡◌, refl, sym, ap, ◌∙◌, Bool, false, some, List, [], ◌∷◌, ◌++◌, map, arith, All,
  All-append,
}
use pedant_solver.Base.Int.{pos}
use mathlib.Core.List.{append_assoc, append-nil}
use pedant_solver.Formula.{Clause}
use pedant_solver.Text.{newline, to_string, int_max}
use pedant_solver.Text.Numbers.{to_string-IsOneLine}
use pedant_solver.Dqdimacs.{Dqdimacs, new_dqdimacs, add_clause}
use pedant_solver.Parser.{ok, parse_formula}
use pedant_solver.Parser.Lines.{write_ints, IsEntry}
use pedant_solver.Parser.Roundtrip.{
  Statement, comment, clause, write_statement, write_statements, write_file, write_prefix,
  add_statements, IsWritable, parse_formula-write_file,
}
use pedant_solver.Logger.Cnf.{
  Section, all_clauses, clause_text, clauses_text, model_for, sections_text, model_text,
}

clause_text_same : (c : Clause) → clause_text c ≡ write_ints c
unfolding clause_text write_ints
clause_text_same [] = refl
clause_text_same (l ∷ c) = ap (λ t. to_string l ++ b' ' ∷ t) (clause_text_same c)

abbrev statements : List Section → List Statement
statements [] = []
statements ((e, clauses) ∷ sections) =
    comment (model_for ++ (to_string (pos e) ++ b'.' ∷ []))
    ∷ (map clause clauses ++ statements sections)

clauses_text_same :
    (clauses : List Clause) (sts : List Statement)
    → write_statements (map clause clauses ++ sts) ≡ clauses_text clauses ++ write_statements sts
unfolding write_statements write_statement clauses_text
clauses_text_same [] sts = refl
clauses_text_same (c ∷ clauses) sts =
    ap (λ t. write_ints c ++ newline ∷ t) (clauses_text_same clauses sts)
    ∙ ap (λ t. t ++ newline ∷ (clauses_text clauses ++ write_statements sts))
        (sym (clause_text_same c))
    ∙ sym (append_assoc (clause_text c) (newline ∷ clauses_text clauses) (write_statements sts))

sections_text_same :
    (sections : List Section) → sections_text sections ≡ write_statements (statements sections)
unfolding sections_text write_statements write_statement
sections_text_same [] = refl
sections_text_same ((e, clauses) ∷ sections) =
    ap (λ t. (b'c' ∷ (model_for ++ (to_string (pos e) ++ b'.' ∷ []))) ++ newline ∷ t)
      (ap (λ t. clauses_text clauses ++ t) (sections_text_same sections)
        ∙ sym (clauses_text_same clauses (statements sections)))

model_text_same :
    (variables nof : ℕ) (sections : List Section)
    → model_text variables nof sections ≡ write_file variables nof (statements sections)
unfolding model_text write_file write_prefix
model_text_same variables nof sections =
    ap (λ t. write_prefix variables nof ++ newline ∷ t) (sections_text_same sections)

clauses-IsWritable :
    (clauses : List Clause) (sts : List Statement)
    → All (All (IsEntry false)) clauses
    → All IsWritable sts
    → All IsWritable (map clause clauses ++ sts)
clauses-IsWritable [] sts h k = k
clauses-IsWritable (c ∷ clauses) sts h k = (h.0, clauses-IsWritable clauses sts h.1 k)

statements-IsWritable :
    (sections : List Section)
    → All (λ s. All (All (IsEntry false)) s.1) sections
    → All IsWritable (statements sections)
statements-IsWritable [] h = tt
statements-IsWritable ((e, clauses) ∷ sections) h = (
  All-append _ model_for (to_string (pos e) ++ b'.' ∷ []) (ground arith)
      (All-append _ (to_string (pos e)) (b'.' ∷ []) (to_string-IsOneLine (pos e)) (ground arith)),
  clauses-IsWritable clauses (statements sections) h.0 (statements-IsWritable sections h.1),
)

add_clauses :
    (clauses : List Clause) (sts : List Statement) (f : Dqdimacs)
    → add_statements (map clause clauses ++ sts) f
      ≡ add_statements sts (record f { matrix = f.matrix ++ clauses })
unfolding add_clause
add_clauses [] sts f =
    ap (λ m. add_statements sts (record f { matrix = m })) (sym (append-nil f.matrix))
add_clauses (c ∷ clauses) sts f =
    add_clauses clauses sts (record f { matrix = f.matrix ++ c ∷ [] })
    ∙ ap (λ m. add_statements sts (record f { matrix = m }))
        (append_assoc f.matrix (c ∷ []) clauses)

statements_matrix :
    (sections : List Section) (f : Dqdimacs)
    → add_statements (statements sections) f
      ≡ record f { matrix = f.matrix ++ all_clauses sections }
unfolding all_clauses
statements_matrix [] f = ap (λ m. record f { matrix = m }) (sym (append-nil f.matrix))
statements_matrix ((e, clauses) ∷ sections) f =
    add_clauses clauses (statements sections) f
    ∙ statements_matrix sections (record f { matrix = f.matrix ++ clauses })
    ∙ ap (λ m. record f { matrix = m }) (append_assoc f.matrix clauses (all_clauses sections))

-- If the number of variables and the literals that are written are in the range of an `int`, and no
-- literal is 0, then the file of a model is read by the parser as a formula without blocks whose
-- matrix has the clauses of all sections in order.
pub parse_formula-model_text :
    (junk : Bool) (variables nof_clauses : ℕ) (sections : List Section)
    → variables ≤ int_max
    → All (λ s. All (All (IsEntry false)) s.1) sections
    → parse_formula junk (some (model_text variables nof_clauses sections))
      ≡ ok (record (new_dqdimacs junk) { matrix = all_clauses sections })
unfolding new_dqdimacs
parse_formula-model_text junk variables nof sections h k =
    ap (λ t. parse_formula junk (some t)) (model_text_same variables nof sections)
    ∙ parse_formula-write_file junk variables nof (statements sections) h
        (statements-IsWritable sections k)
    ∙ ap ok (statements_matrix sections (new_dqdimacs junk))
