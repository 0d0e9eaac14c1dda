-- ===== src/Samples/Logger.antt =====
-- A model as clauses: 1 is universal, 2 existential with forcing clauses of both signs, 3 an arbiter.
use pedant_solver.Base.{ℕ, ◌<◌, ◌≡◌, refl, true, ◌&&◌, ◌||◌, some, List, [], ◌∷◌, arith, ◌==◌, all}
use pedant_solver.Base.Int.{ℤ, pos, negsuc, neg}
use pedant_solver.Base.Maps.{Map, find, assign}
use pedant_solver.Formula.{Clause, Assignment, eval_clause, eval_formula}
use pedant_solver.Dqdimacs.{new_dqdimacs}
use pedant_solver.Parser.{ok, parse_formula}
use pedant_solver.Logger.{ModelLogger, new_model_logger, init, add_forcing_clause}
use pedant_solver.Logger.Recorded.{obeys_clauses, add_forcing_clause-obeys}
use pedant_solver.Logger.Indexed.{init-IsIndexed}
use pedant_solver.Logger.Writer.{
  Writer, apply_assignment, write_reduced_formula, search_int, sort_ints,
}
use pedant_solver.Logger.Writer.Order.{left}
use pedant_solver.Logger.Writer.Extension.{Extension}
use pedant_solver.Logger.Writer.Definitions.{write_reduced_formula-value}
use pedant_solver.Logger.Writer.Values.{satisfies}
use pedant_solver.Logger.Process.{process_forcing_clauses}
use pedant_solver.Logger.Process.Determined.{decides}
use pedant_solver.Logger.Process.Meaning.{IsEntry, process_forcing_clauses-Extension}
use pedant_solver.Logger.Cnf.{Section, all_clauses, start, write_variables, model_text}
use pedant_solver.Logger.Cnf.Decided.{is_decided, write_variables-value}
use pedant_solver.Logger.Cnf.Printed.{parse_formula-model_text}

abbrev positive : List Clause
positive = (pos 1 ∷ pos 3 ∷ []) ∷ []

abbrev negative : List Clause
negative = (neg (pos 1) ∷ []) ∷ []

abbrev defaults : List Clause
defaults = (pos 1 ∷ pos 2 ∷ []) ∷ (neg (pos 1) ∷ neg (pos 2) ∷ []) ∷ []

abbrev arbiters : List ℤ
arbiters = neg (pos 3) ∷ []

-- The logger after `init` and the recording of the two forcing clauses.
abbrev logger : ModelLogger
logger = record (init 2 (new_model_logger 0 0 (2 ∷ []) (1 ∷ []))) {
  positive_forcing_clauses = positive ∷ [];
  negative_forcing_clauses = negative ∷ [];
}

recorded :
    add_forcing_clause
      (pos 1)
      (pos 3 ∷ pos 2 ∷ [])
      (init 2 (new_model_logger 0 0 (2 ∷ []) (1 ∷ [])))
    ≡ some (record (init 2 (new_model_logger 0 0 (2 ∷ []) (1 ∷ []))) {
      positive_forcing_clauses = positive ∷ [];
    })
unfolding add_forcing_clause init new_model_logger
recorded = refl

abbrev default_map : Map (List Clause)
default_map = (2, defaults) ∷ []

abbrev section : Section
section = (
  2,
  (pos 1 ∷ pos 3 ∷ [])
      ∷ (negsuc 0 ∷ negsuc 2 ∷ [])
      ∷ (negsuc 0 ∷ pos 4 ∷ [])
      ∷ (pos 1 ∷ negsuc 3 ∷ [])
      ∷ (pos 3 ∷ pos 5 ∷ [])
      ∷ (negsuc 2 ∷ negsuc 4 ∷ [])
      ∷ (pos 4 ∷ pos 6 ∷ [])
      ∷ (negsuc 3 ∷ negsuc 5 ∷ [])
      ∷ (pos 5 ∷ pos 2 ∷ [])
      ∷ (pos 6 ∷ negsuc 1 ∷ [])
      ∷ (negsuc 4 ∷ negsuc 5 ∷ pos 7 ∷ [])
      ∷ (pos 5 ∷ negsuc 6 ∷ [])
      ∷ (pos 6 ∷ negsuc 6 ∷ [])
      ∷ (pos 1 ∷ pos 2 ∷ negsuc 6 ∷ [])
      ∷ (negsuc 0 ∷ negsuc 1 ∷ negsuc 6 ∷ [])
      ∷ [],
)

-- 15 clauses are written, 16 are announced.
abbrev written : Writer
written = record {
  unused_variable = 8;
  renaming_auxiliaries = [];
  nof_clauses = 16;
  out = section.1;
}

is_written :
    write_variables logger default_map logger.indices (sort_ints arbiters) (start logger)
    ≡ some (section ∷ [], written)
unfolding write_variables start sort_ints init new_model_logger
is_written = refl

-- 1 is false: the positive clause fires. The arbiter 3 is false in the model; in the file 3 is another
-- variable.
abbrev in_file : Assignment
in_file v = v == 2 || v == 3 || v == 6

abbrev in_model : Assignment
in_model v = v == 2

in_model_extends : (v : ℕ) → v < 3 → in_model v ≡ in_file v
in_model_extends v h = ground arith

entry : IsEntry 3 2 positive negative defaults (sort_ints arbiters)
unfolding left apply_assignment search_int sort_ints
entry = record {
  is_variable = omega arith;
  is_below = omega arith;
  positive_clauses = omega arith;
  negative_clauses = omega arith;
  positive_used = omega arith;
  negative_used = omega arith;
  defaults_used = omega arith;
  has_defaults = tt;
}

write_variables-value_example :
    all (is_decided logger default_map (sort_ints arbiters) in_model) logger.indices ≡ true
unfolding init new_model_logger find all_clauses
write_variables-value_example =
    write_variables-value logger default_map arbiters 3 in_file in_model (section ∷ []) written
      in_model_extends (refl, tt) (omega arith) (entry, tt) is_written refl

parse_formula-model_text_example :
    parse_formula true (some (model_text 7 16 (section ∷ [])))
    ≡ ok (record (new_dqdimacs true) { matrix = all_clauses (section ∷ []) })
parse_formula-model_text_example =
    parse_formula-model_text true 7 16 (section ∷ []) (omega arith) (ground arith)

process_forcing_clauses-Extension_example :
    Extension in_file 3
      (process_forcing_clauses 2 2 positive negative defaults (sort_ints arbiters) (start logger))
unfolding start init new_model_logger decides sort_ints
process_forcing_clauses-Extension_example =
    process_forcing_clauses-Extension 3 2 2 positive negative defaults (sort_ints arbiters) entry
      in_file in_model in_model_extends (refl, tt) (start logger) (omega arith, tt) (omega arith)
      refl refl

-- Clauses with the auxiliary variable 9, which is renamed to 8, and the true arbiter 8, whose literal
-- is removed.
abbrev definition : List Clause
definition = (pos 9 ∷ pos 2 ∷ neg (pos 1) ∷ []) ∷ (neg (pos 9) ∷ pos 1 ∷ neg (pos 8) ∷ []) ∷ []

abbrev renamed : Assignment
renamed v = v == 1 || v == 8

abbrev original : Assignment
original v = v == 1 || v == 8 || v == 9

abbrev empty_writer : Writer
empty_writer = record { unused_variable = 8; renaming_auxiliaries = []; nof_clauses = 0; out = [] }

write_reduced_formula-value_example :
    satisfies renamed (write_reduced_formula 7 definition (pos 8 ∷ []) empty_writer)
    ≡ (satisfies renamed empty_writer && eval_formula original definition)
unfolding write_reduced_formula find assign
write_reduced_formula-value_example =
    write_reduced_formula-value 7 definition (pos 8 ∷ []) empty_writer renamed original
      (omega arith) (refl, tt) ((λ v h. ground arith), (λ v k h e. ground arith))

abbrev new_logger : ModelLogger
new_logger = init 2 (new_model_logger 0 0 (2 ∷ []) (1 ∷ []))

abbrev in_all : Assignment
in_all v = v == 2

add_forcing_clause-obeys_example :
    obeys_clauses in_all (record new_logger { positive_forcing_clauses = positive ∷ [] })
    ≡ (obeys_clauses in_all new_logger && eval_clause in_all (pos 1 ∷ pos 3 ∷ pos 2 ∷ []))
unfolding add_forcing_clause init new_model_logger
add_forcing_clause-obeys_example =
    add_forcing_clause-obeys in_all (pos 1) (pos 3 ∷ pos 2 ∷ []) new_logger
      (record new_logger { positive_forcing_clauses = positive ∷ [] })
      (init-IsIndexed 0 0 2 (2 ∷ []) (1 ∷ [])) (omega arith) refl
