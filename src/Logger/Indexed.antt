-- ===== src/Logger/Indexed.antt =====
-- The indices that `init` of modellogger.cc gives the variables, and that recording keeps them.
use pedant_solver.Base.{
  ℕ, zero, suc, ◌+◌, ◌≤◌, ◌<◌, ◌≡◌, refl, ap, ◌≢◌, inl, inr, List, [], ◌∷◌, ◌++◌, arith, Bool-cases,
  Option-cases, length, All, length-set, get_or,
}
use pedant_solver.Base.Int.{ℤ, is_pos}
use pedant_solver.Base.Maps.{Map, find, emplace}
use pedant_solver.Formula.{Clause}
use pedant_solver.Logger.{
  ModelLogger, new_model_logger, init, insert_indices, resize, push_at, store_forcing_clause,
}
use pedant_solver.Logger.Recorded.{DistinctIndices, IsIndexed}

length-resize : {A : Type 0} (n : ℕ) (d : A) (xs : List A) → length (resize n d xs) ≡ n
unfolding resize
length-resize zero d xs = refl
length-resize (suc n) d [] = ap suc (length-resize n d [])
length-resize (suc n) d (x ∷ xs) = ap suc (length-resize n d xs)

-- Indices below a bound.
abbrev Below : ℕ → Map ℕ → Type 0
Below n = All (λ p. p.1 < n)

Below-mono : {m n : ℕ} (ps : Map ℕ) → m ≤ n → Below m ps → Below n ps
Below-mono [] h b = tt
Below-mono (p ∷ ps) h b = (omega (arith, b.0), Below-mono ps h b.1)

Below-ne : (n : ℕ) (ps : Map ℕ) → Below n ps → All (λ p. p.1 ≢ n) ps
Below-ne n [] b = tt
Below-ne n (p ∷ ps) b = ((λ e. omega (arith, b.0, e)), Below-ne n ps b.1)

emplace_index :
    (ps : Map ℕ) (v i : ℕ)
    → DistinctIndices ps
    → Below i ps
    → DistinctIndices (emplace ps v i) × Below (suc i) (emplace ps v i)
unfolding emplace
emplace_index ps v i d b = elim (Option-cases (find ps v)) [
  | inl n ↦ rw (n, emplace) ((Below-ne i ps b, d), (omega arith, Below-mono ps (omega arith) b))
  | inr (w, found) ↦ rw (found, emplace) (d, Below-mono ps (omega arith) b)
]

insert_indices_lem :
    (es : List ℕ) (i : ℕ) (ps : Map ℕ)
    → DistinctIndices ps
    → Below i ps
    → DistinctIndices (insert_indices es i ps) × Below (i + length es) (insert_indices es i ps)
unfolding insert_indices
insert_indices_lem [] i ps d b = (d, Below-mono ps (omega arith) b)
insert_indices_lem (e ∷ es) i ps d b =
    let here = emplace_index ps e i d b in
    let rest = insert_indices_lem es (suc i) (emplace ps e i) here.0 here.1 in
    (rest.0, Below-mono (insert_indices es (suc i) (emplace ps e i)) (omega arith) rest.1)

-- `init` of a new logger gives the variables distinct indices, with places for clauses.
pub init-IsIndexed :
    (junk junk' n : ℕ) (es us : List ℕ) → IsIndexed (init n (new_model_logger junk junk' es us))
unfolding init new_model_logger
init-IsIndexed junk junk' n es us =
    let r = insert_indices_lem es 0 [] tt tt in
    let places =
      Below-mono (insert_indices es 0 [])
        (omega (arith, length-resize {A = List Clause} (length es) [] [])) r.1 in
    record { distinct = r.0; positive_places = places; negative_places = places }

-- Recording a forcing clause keeps them.
pub store_forcing_clause-IsIndexed :
    (k : ℤ) (fc : Clause) (i : ℕ) (m : ModelLogger)
    → IsIndexed m
    → IsIndexed (store_forcing_clause k fc i m)
unfolding store_forcing_clause push_at
store_forcing_clause-IsIndexed k fc i m h = elim (Bool-cases (is_pos k)) [
  | inl s ↦
      let ps = m.positive_forcing_clauses in
      rw (s, store_forcing_clause)
        (record {
          distinct = h.distinct;
          positive_places =
              Below-mono m.indices (omega (arith, length-set ps i (get_or ps i [] ++ fc ∷ [])))
                h.positive_places;
          negative_places = h.negative_places;
        })
  | inr s ↦
      let ns = m.negative_forcing_clauses in
      rw (s, store_forcing_clause)
        (record {
          distinct = h.distinct;
          positive_places = h.positive_places;
          negative_places =
              Below-mono m.indices (omega (arith, length-set ns i (get_or ns i [] ++ fc ∷ [])))
                h.negative_places;
        })
]
