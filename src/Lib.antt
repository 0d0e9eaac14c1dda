-- ===== src/Lib.antt =====
-- Pedant is a solver for dependency quantified Boolean formulas. This library models parts of its C++
-- code and proves what makes them correct.
--
-- The program. A parser reads a formula in DQDIMACS format; the preprocessor extracts from its
-- quantifier blocks the variables on which each existential variable depends. The solver asks a
-- definability checker for definitions of existential variables, keeps a candidate model of forcing
-- clauses, definitions, default values and arbiter variables, and refines it by conflicts that SAT
-- solvers find. The components exchange clauses: lists of literals, which are integers.
--
-- Files, and the code that each models:
--   Base                  integers, lists, `std::set` as ascending lists, `std::unordered_map` as
--                         association lists with the operations of the standard library
--   Literal, Formula      include/utils.h: literals, and the building and rewriting of clauses; the
--                         meaning of a formula is its value under an assignment
--   Disjunction           src/disjunction.h: disjunctions that grow one clause at a time
--   Dependencies          src/dependencycontainer.h, src/dependencycontainer.cc: the dependencies of
--                         the existential variables, with and without definitions
--   Dqdimacs              src/dqdimacs.h, src/dqdimacs.cc: a formula as it is read, with its
--                         quantifier blocks as two lists of offsets; Blocks has their abstract view,
--                         the sequence of maximal runs of variables of one kind
--   Extractor             src/dependencyextractor.h, src/dependencyextractor.cc: the dependencies that
--                         blocks and dependency lines give, and binary searches over the blocks
--   Preprocessor          src/preprocessor.h, src/preprocessor.cc: universal reduction; a model is a
--                         function of the universal variables for each other variable
--   Aiger                 src/buildAIGER.h, src/buildAIGER.cc: the model as an and-inverter graph, of
--                         which an assignment obeys the gates or not
--   Defaults              src/defaultvaluecontainer.h, src/defaultvaluecontainer.cc: the selectors of
--                         the default values, whose signs are the polarities
--   Skolem                src/skolemcontainer.h, src/skolemcontainer.cc: the clauses that stand for the
--                         candidate functions; calls of other components are a list in order
--   Unate                 src/unatechecker.h, src/unatechecker.cc: the matrix doubled with its negation,
--                         in which unate literals are looked for
--   Text                  what the code uses of the C++ library on text: lines, words, numbers
--   Parser                src/dqdimacsparser.h, src/dqdimacsparser.cc: the reader of files; a result is
--                         a formula, an exception, or the end of a function without its `return`
--   Logger                src/modellogger.h, src/modellogger.cc: the recording of the model, and the
--                         file of clauses for it; Writer and Process write the clauses for one
--                         variable, Cnf those for all, as sections of a text
--   Samples               the theorems at concrete inputs, and tests
-- Names are those of the code in snake case; of two overloads one has a longer name.
--
-- Conventions. A C++ `int` is an unbounded integer: overflow is not modelled, but a theorem on
-- MiniSat's codes states when they fit. Variables are natural numbers, the absolute values of
-- literals. The parser's numbers are in the range of an `int`, since `stoi` checks it, and a file is
-- the list of its bytes. The method `at` of a map throws on a missing key; the result is then `none`. A map's
-- order of iteration is that of its list, which can be any. An index into a vector is checked
-- nowhere in the code; reads out of range are named where they can happen.
--
-- Fuel. The loop over three sorted ranges in Dependencies.Inclusion takes fuel for the sum of their
-- lengths, since each round shortens one of them. The recursion through definitions in
-- Dependencies.Dynamic takes fuel beyond the rank of a variable, a number that falls along the
-- supports and exists where the definitions are acyclic. The binary searches of
-- Extractor.BlockSearch take fuel for the length of the range, which each call makes shorter. The
-- digits of a number in Text take fuel beyond the number, which has fewer digits.
--
-- Not modelled: the SAT solvers, interpolation, Boost's maximal flow, AIGER and mlpack (and with
-- it the default trees), which are third-party code, and output to streams other than the file of
-- clauses, logging and statistics. Nor are the main loop of the solver, the consistency, validity and
-- definability checkers, the support tracker, the graph separator, the options of the command line and
-- the tools for certificates.
mod Base
pub mod Literal
pub mod Formula
pub mod Disjunction
pub mod Dependencies
pub mod Dqdimacs
pub mod Extractor
pub mod Preprocessor
pub mod Aiger
pub mod Defaults
pub mod Skolem
pub mod Unate
pub mod Text
pub mod Parser
pub mod Logger
mod Samples
