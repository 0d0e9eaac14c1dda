-- ===== src/Logger/Recorded.antt =====
-- What the recorded forcing clauses say of an assignment.
use pedant_solver.Base.{
  ℕ, zero, suc, ◌<◌, ◌≡◌, refl, sym, ap, ◌∙◌, subst, ◌≢◌, inl, inr, Bool, not, ◌&&◌, ◌||◌, Option,
  some, List, [], ◌∷◌, ◌++◌, arith, ◌==◌, if◌then◌else◌, Bool-cases, Option-cases, length, all, All,
  any-append, get_or, get_or-set_self, get_or-set_ne,
}
use pedant_solver.Base.Int.{ℤ, pos, negsuc, is_pos}
use pedant_solver.Base.Maps.{Map, find}
use pedant_solver.Formula.{Clause, Assignment, eval_lit, eval_clause, IsLit, IsClause}
use pedant_solver.Literal.{var}
use pedant_solver.Aiger.Reduced.{fires}
use pedant_solver.Logger.{
  ModelLogger, push_at, get_index, split_last, store_forcing_clause, add_forcing_clause,
}

-- Does an assignment give a variable the values that its forcing clauses force?
pub forces : Assignment → List Clause → List Clause → ℕ → Bool
unfolding fires
forces a positive negative e =
    (not (fires a positive) || a e) && (not (fires a negative) || not (a e))

pub obeys_entry : Assignment → ModelLogger → ℕ × ℕ → Bool
unfolding forces
obeys_entry a m (e, idx) =
    forces a (get_or m.positive_forcing_clauses idx []) (get_or m.negative_forcing_clauses idx []) e

-- And all variables?
unfoldable pub obeys_clauses : Assignment → ModelLogger → Bool
unfolding obeys_entry
obeys_clauses a m = all (obeys_entry a m) m.indices

-- No two variables have one index, and the vectors have a place for each index.
abbrev pub DistinctIndices : Map ℕ → Type 0
DistinctIndices [] = Unit
DistinctIndices ((e, i) ∷ indices) = All (λ p. p.1 ≢ i) indices × DistinctIndices indices

pub record IsIndexed (m : ModelLogger) : Type 0 where
  pub distinct : DistinctIndices m.indices
  pub positive_places : All (λ p. p.1 < length m.positive_forcing_clauses) m.indices
  pub negative_places : All (λ p. p.1 < length m.negative_forcing_clauses) m.indices

fires-snoc :
    (a : Assignment) (cs : List Clause) (c : Clause)
    → fires a (cs ++ c ∷ []) ≡ (fires a cs || not (eval_clause a c))
unfolding fires
fires-snoc a cs c = ground (arith, any-append (λ d. not (eval_clause a d)) cs (c ∷ []))

push_at_self :
    (xss : List (List Clause)) (i : ℕ) (c : Clause)
    → i < length xss
    → get_or (push_at xss i c) i [] ≡ get_or xss i [] ++ c ∷ []
unfolding push_at
push_at_self xss i c h = get_or-set_self xss i (get_or xss i [] ++ c ∷ []) [] (omega arith)

push_at_ne :
    (xss : List (List Clause)) (i j : ℕ) (c : Clause)
    → i ≢ j
    → get_or (push_at xss i c) j [] ≡ get_or xss j []
unfolding push_at
push_at_ne xss i j c h = get_or-set_ne xss i j (get_or xss i [] ++ c ∷ []) [] h

-- A clause is what remains of it without its last literal, or that literal.
eval-split_last :
    (a : Assignment) (l : ℤ) (c : Clause)
    → eval_clause a (l ∷ c) ≡ (eval_clause a (split_last l c).1 || eval_lit a (split_last l c).0)
unfolding split_last
eval-split_last a l [] = ground arith
eval-split_last a l (k ∷ c) = ground (arith, eval-split_last a k c)

split_last-IsLit : (l : ℤ) (c : Clause) → IsClause (l ∷ c) → IsLit (split_last l c).0
unfolding split_last
split_last-IsLit l [] h = h.0
split_last-IsLit l (k ∷ c) h = split_last-IsLit k c h.1

literal_of :
    (a : Assignment) (k : ℤ)
    → IsLit k
    → eval_lit a k ≡ (if is_pos k then a (var k) else not (a (var k)))
literal_of a (pos zero) h = absurd (omega arith)
literal_of a (pos (suc n)) h = refl
literal_of a (negsuc n) h = refl

-- At the index of the variable the clause is added; elsewhere nothing changes.
obeys_entry_self :
    (a : Assignment) (k : ℤ) (fc : Clause) (i : ℕ) (m : ModelLogger)
    → IsLit k
    → i < length m.positive_forcing_clauses
    → i < length m.negative_forcing_clauses
    → obeys_entry a (store_forcing_clause k fc i m) (var k, i)
      ≡ (obeys_entry a m (var k, i) && (eval_clause a fc || eval_lit a k))
unfolding obeys_entry forces store_forcing_clause
obeys_entry_self a k fc i m h p n =
    let ps = get_or m.positive_forcing_clauses i [] in
    let ns = get_or m.negative_forcing_clauses i [] in
    elim (Bool-cases (is_pos k)) [
      | inl e ↦
          rw (e, push_at_self m.positive_forcing_clauses i fc p, fires-snoc a ps fc)
            (ground (arith, e, literal_of a k h))
      | inr e ↦
          rw (e, push_at_self m.negative_forcing_clauses i fc n, fires-snoc a ns fc)
            (ground (arith, e, literal_of a k h))
    ]

obeys_entry_ne :
    (a : Assignment) (k : ℤ) (fc : Clause) (i e j : ℕ) (m : ModelLogger)
    → j ≢ i
    → obeys_entry a (store_forcing_clause k fc i m) (e, j) ≡ obeys_entry a m (e, j)
unfolding obeys_entry store_forcing_clause
obeys_entry_ne a k fc i e j m h = elim (Bool-cases (is_pos k)) [
  | inl s ↦ rw (s, push_at_ne m.positive_forcing_clauses i j fc (λ q. h (sym q))) refl
  | inr s ↦ rw (s, push_at_ne m.negative_forcing_clauses i j fc (λ q. h (sym q))) refl
]

all_ne :
    (a : Assignment) (k : ℤ) (fc : Clause) (i : ℕ) (m : ModelLogger) (indices : Map ℕ)
    → All (λ p. p.1 ≢ i) indices
    → all (obeys_entry a (store_forcing_clause k fc i m)) indices ≡ all (obeys_entry a m) indices
all_ne a k fc i m [] h = refl
all_ne a k fc i m ((e, j) ∷ indices) h =
    ground (arith, obeys_entry_ne a k fc i e j m h.0, all_ne a k fc i m indices h.1)

some_inj : {i j : ℕ} → Path (Option ℕ) (some i) (some j) → i ≡ j
some_inj h = cc

-- An index that is found is not one that all entries differ from.
find_ne :
    (indices : Map ℕ) (v i j : ℕ) → All (λ p. p.1 ≢ j) indices → find indices v ≡ some i → i ≢ j
unfolding find
find_ne [] v i j h e = cc
find_ne ((u, x) ∷ indices) v i j h e = elim (Bool-cases (u == v)) [
  | inl s ↦ λ q. h.0 (some_inj (rw (s, find) at e) ∙ q)
  | inr s ↦ find_ne indices v i j h.1 (rw (s, find) at e)
]

all_store :
    (a : Assignment) (k : ℤ) (fc : Clause) (i : ℕ) (m : ModelLogger) (indices : Map ℕ)
    → IsLit k
    → DistinctIndices indices
    → All (λ p. p.1 < length m.positive_forcing_clauses) indices
    → All (λ p. p.1 < length m.negative_forcing_clauses) indices
    → find indices (var k) ≡ some i
    → all (obeys_entry a (store_forcing_clause k fc i m)) indices
      ≡ (all (obeys_entry a m) indices && (eval_clause a fc || eval_lit a k))
unfolding find
all_store a k fc i m [] h d p n e = cc
all_store a k fc i m ((u, x) ∷ indices) h d p n e = elim (Bool-cases (u == var k)) [
  | inl s ↦
      let at_index : x ≡ i = some_inj (rw (s, find) at e) in
      let here =
        subst
          (λ j.
            obeys_entry a (store_forcing_clause k fc j m) (u, x)
            ≡ (obeys_entry a m (u, x) && (eval_clause a fc || eval_lit a k)))
          at_index
          (subst
            (λ v.
              obeys_entry a (store_forcing_clause k fc x m) (v, x)
              ≡ (obeys_entry a m (v, x) && (eval_clause a fc || eval_lit a k)))
            (ground (arith, s)) (obeys_entry_self a k fc x m h p.0 n.0)) in
      let others =
        all_ne a k fc i m indices (subst (λ j. All (λ q. q.1 ≢ j) indices) at_index d.0) in
      ground (arith, here, others)
  | inr s ↦
      let found : find indices (var k) ≡ some i = rw (s, find) at e in
      let other = find_ne indices (var k) i x d.0 found in
      let here = obeys_entry_ne a k fc i u x m (λ q. other (sym q)) in
      let rest = all_store a k fc i m indices h d.1 p.1 n.1 found in ground (arith, here, rest)
]

store_indices :
    (k : ℤ) (fc : Clause) (i : ℕ) (m : ModelLogger)
    → (store_forcing_clause k fc i m).indices ≡ m.indices
unfolding store_forcing_clause
store_indices k fc i m = elim (Bool-cases (is_pos k)) [ inl s ↦ rw s refl | inr s ↦ rw s refl ]

model_inj : (m m' : ModelLogger) → Path (Option ModelLogger) (some m) (some m') → m ≡ m'
model_inj m m' h = cc

-- Where the variables have distinct indices, each with a place in both vectors, an assignment gives
-- all variables the values that their forcing clauses force after a forcing clause was recorded
-- exactly if it did so before and satisfies the clause.
pub add_forcing_clause-obeys :
    (a : Assignment) (l : ℤ) (c : Clause) (m m' : ModelLogger)
    → IsIndexed m
    → IsClause (l ∷ c)
    → add_forcing_clause l c m ≡ some m'
    → obeys_clauses a m' ≡ (obeys_clauses a m && eval_clause a (l ∷ c))
unfolding add_forcing_clause get_index obeys_clauses
add_forcing_clause-obeys a l c m m' i h e =
    let (k, fc) = split_last l c in
    elim (Option-cases (find m.indices (var k))) [
      | inl n ↦ cc (rw (n, add_forcing_clause) at e)
      | inr (idx, found) ↦
          let stored : store_forcing_clause k fc idx m ≡ m' =
            model_inj _ m' (rw (found, add_forcing_clause) at e) in
          subst (λ n. obeys_clauses a n ≡ (obeys_clauses a m && eval_clause a (l ∷ c))) stored
            (ap (all (obeys_entry a (store_forcing_clause k fc idx m))) (store_indices k fc idx m)
              ∙ all_store a k fc idx m m.indices (split_last-IsLit l c h) i.distinct
                  i.positive_places i.negative_places found
              ∙ ap (λ b. obeys_clauses a m && b) (sym (eval-split_last a l c)))
    ]
