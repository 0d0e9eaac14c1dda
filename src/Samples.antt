-- ===== src/Samples.antt =====
-- The theorems at concrete inputs, and tests of the definitions.
mod Formulas
mod Containers
mod Blocks
mod Reduction
mod Search
mod Aiger
mod Defaults
mod Skolem
mod Definitions
mod Unate
mod Parser
mod Logger
