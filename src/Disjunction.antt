-- ===== src/Disjunction.antt =====
-- disjunction.h: a disjunction of clauses that grows one clause at a time. Each disjunct is given to
-- a solver at once; the last fresh variable, negated, is the terminal under whose assumption the
-- disjunction has no further disjunct.
use pedant_solver.Base.{
  ℕ, suc, ◌+◌, ◌≤◌, ◌<◌, ◌≡◌, refl, ap, ◌∙◌, ◌≢◌, ◌↔◌, inl, inr, Bool, true, false, not, ◌||◌,
  Option, none, some, List, [], ◌∷◌, ◌++◌, arith, ◌==◌, if◌then◌else◌, Option-cases, not-not,
  length, set, any, length-append, any-append, length-set, get_or, get_or-set_self, get_or-set_ne,
  get_or-append_left,
}
use pedant_solver.Base.Int.{ℤ, pos, neg}
use pedant_solver.Formula.{
  Clause, Assignment, eval_lit, eval_clause, eval_formula, eval_lit-neg, AllBelow,
  eval_clause_agree,
}

-- What the objects refer to and share: the last variable in use and the terminals of all
-- disjunctions.
pub record Shared : Type 0 where
  pub last_used_variable : ℕ
  pub terminals : List ℤ

-- `terminal_index`, `none` for -1.
pub record Disjunction : Type 0 where
  pub terminal_index : Option ℕ

abbrev pub new_disjunction : Disjunction
new_disjunction = record { terminal_index = none }

abbrev pub terminal : ℕ → Shared → ℤ
terminal i s = get_or s.terminals i (pos 0)

-- The part behind the test: a new terminal in the slot, and the clause.
unfoldable pub close_disjunct : ℕ → Clause → List ℤ → Shared → Clause × Disjunction × Shared
close_disjunct i clause disjunct_clause s =
    let new_terminal = s.last_used_variable + 1 in
    (
      (disjunct_clause ++ clause) ++ pos new_terminal ∷ [],
      record { terminal_index = some i },
      record {
        last_used_variable = new_terminal;
        terminals = set s.terminals i (neg (pos new_terminal));
      },
    )

unfoldable pub create_disjunct : Clause → Disjunction → Shared → Clause × Disjunction × Shared
unfolding close_disjunct
create_disjunct clause d s = elim d.terminal_index [
  | none ↦
      close_disjunct (length s.terminals) clause []
        (record s { terminals = s.terminals ++ pos 0 ∷ [] })
  | some i ↦ close_disjunct i clause (terminal i s ∷ []) s
]

-- A disjunction that is built from several clauses in turn.
pub create_disjuncts : List Clause → Disjunction → Shared → List Clause × Disjunction × Shared
unfolding create_disjunct
create_disjuncts [] d s = ([], d, s)
create_disjuncts (clause ∷ clauses) d s =
    let (c, d', s') = create_disjunct clause d s in
    let (cs, d'', s'') = create_disjuncts clauses d' s' in (c ∷ cs, d'', s'')

-- Where slot `i` holds a terminal, further disjuncts are built by this loop on its value alone.
chain : List Clause → ℤ → ℕ → List Clause
chain [] t m = []
chain (c ∷ cs) t m = (t ∷ c ++ pos (m + 1) ∷ []) ∷ chain cs (neg (pos (m + 1))) (m + 1)

last_terminal : List Clause → ℤ → ℕ → ℤ
last_terminal [] t m = t
last_terminal (c ∷ cs) t m = last_terminal cs (neg (pos (m + 1))) (m + 1)

abbrev after : ℕ → Shared → Shared
after i s = record {
  last_used_variable = s.last_used_variable + 1;
  terminals = set s.terminals i (neg (pos (s.last_used_variable + 1)));
}

create_disjuncts-chain :
    (cs : List Clause) (i : ℕ) (s : Shared)
    → suc i ≤ length s.terminals
    → let r = create_disjuncts cs (record { terminal_index = some i }) s in
      (r.0 ≡ chain cs (terminal i s) s.last_used_variable)
      × (r.1.terminal_index ≡ some i)
      × (terminal i r.2 ≡ last_terminal cs (terminal i s) s.last_used_variable)
unfolding create_disjuncts chain last_terminal
create_disjuncts-chain [] i s h = (refl, refl, refl)
create_disjuncts-chain (c ∷ cs) i s h = ground (
  arith,
  create_disjuncts-chain cs i (after i s) (rw length-set h),
  get_or-set_self s.terminals i (neg (pos (s.last_used_variable + 1))) (pos 0) h,
)

-- The chain holds and its last terminal is true only if the first terminal or some clause is.
chain_sound :
    (a : Assignment) (cs : List Clause) (t : ℤ) (m : ℕ)
    → eval_formula a (chain cs t m) ≡ true
    → eval_lit a (last_terminal cs t m) ≡ true
    → (eval_lit a t || any (eval_clause a) cs) ≡ true
unfolding chain last_terminal
chain_sound a [] t m h k = ground arith
chain_sound a (c ∷ cs) t m h k = ground (
  arith,
  eval_lit-neg a (pos (m + 1)) (omega arith),
  any-append (eval_lit a) c (pos (m + 1) ∷ []),
  chain_sound a cs (neg (pos (m + 1))) (m + 1),
)

-- The new variables, each true as long as no disjunct so far is.
settle : Assignment → Bool → List Clause → ℕ → Assignment
settle a found [] m v = a v
settle a found (c ∷ cs) m v =
    let now = found || eval_clause a c in
    let rest = settle a now cs (m + 1) v in if v == m + 1 then not now else rest

settle_below :
    (a : Assignment) (found : Bool) (cs : List Clause) (m v : ℕ)
    → v ≤ m
    → settle a found cs m v ≡ a v
unfolding settle
settle_below a found [] m v h = refl
settle_below a found (c ∷ cs) m v h =
    ground (arith, settle_below a (found || eval_clause a c) cs (m + 1) v (omega arith))

-- An assignment that settles the variables above `m` satisfies the chain, and gives the last
-- terminal the value of the disjunction.
chain_complete :
    (a b : Assignment) (cs : List Clause) (t : ℤ) (k m : ℕ) (found : Bool)
    → AllBelow k cs
    → k ≤ m
    → ((v : ℕ) → v ≤ k → b v ≡ a v)
    → ((v : ℕ) → m < v → b v ≡ settle a found cs m v)
    → eval_lit b t ≡ found
    → (eval_formula b (chain cs t m) ≡ true)
      × (eval_lit b (last_terminal cs t m) ≡ (found || any (eval_clause a) cs))
unfolding chain last_terminal settle
chain_complete a b [] t k m found h le low high e = ground arith
chain_complete a b (c ∷ cs) t k m found h le low high e =
    let fresh : b (m + 1) ≡ not (found || eval_clause a c) = ground (arith, high (m + 1)) in
    let rest =
      chain_complete a b cs (neg (pos (m + 1))) k (m + 1) (found || eval_clause a c) h.1
        (omega arith) low (λ v lt. ground (arith, high v))
        (ground (
          arith,
          eval_lit-neg b (pos (m + 1)) (omega arith),
          fresh,
          not-not (found || eval_clause a c),
        )) in
    ground (
      arith,
      rest,
      fresh,
      eval_clause_agree k b a c h.0 low,
      any-append (eval_lit b) c (pos (m + 1) ∷ []),
    )

create_disjuncts_first :
    (c : Clause) (cs : List Clause) (s : Shared)
    → let r = create_disjuncts (c ∷ cs) new_disjunction s in
      let m = s.last_used_variable in
      (r.0 ≡ (c ++ pos (m + 1) ∷ []) ∷ chain cs (neg (pos (m + 1))) (m + 1))
      × (terminal (length s.terminals) r.2 ≡ last_terminal cs (neg (pos (m + 1))) (m + 1))
unfolding create_disjuncts
create_disjuncts_first c cs s =
    let i = length s.terminals in
    let grown : Shared = record s { terminals = s.terminals ++ pos 0 ∷ [] } in
    let fits : suc i ≤ length grown.terminals =
      omega (arith, length-append s.terminals (pos 0 ∷ [])) in
    let t = pos (s.last_used_variable + 1) in
    ground (
      arith,
      create_disjuncts-chain cs i (after i grown) (rw (length-set grown.terminals i (neg t)) fits),
      get_or-set_self grown.terminals i (neg t) (pos 0) fits,
    )

any_agree :
    (m : ℕ) (a b : Assignment) (cs : List Clause)
    → AllBelow m cs
    → ((v : ℕ) → v ≤ m → b v ≡ a v)
    → any (eval_clause b) cs ≡ any (eval_clause a) cs
any_agree m a b [] h e = refl
any_agree m a b (c ∷ cs) h e =
    ground (arith, eval_clause_agree m b a c h.0 e, any_agree m a b cs h.1 e)

first_sound :
    (a b : Assignment) (c : Clause) (cs : List Clause) (m : ℕ)
    → AllBelow m (c ∷ cs)
    → ((v : ℕ) → v ≤ m → b v ≡ a v)
    → eval_formula b ((c ++ pos (m + 1) ∷ []) ∷ chain cs (neg (pos (m + 1))) (m + 1)) ≡ true
    → eval_lit b (last_terminal cs (neg (pos (m + 1))) (m + 1)) ≡ true
    → any (eval_clause a) (c ∷ cs) ≡ true
first_sound a b c cs m below same e k = ground (
  arith,
  any_agree m a b cs below.1 same,
  eval_clause_agree m b a c below.0 same,
  eval_lit-neg b (pos (m + 1)) (omega arith),
  any-append (eval_lit b) c (pos (m + 1) ∷ []),
  chain_sound b cs (neg (pos (m + 1))) (m + 1),
)

first_complete :
    (a : Assignment) (c : Clause) (cs : List Clause) (m : ℕ)
    → AllBelow m (c ∷ cs)
    → any (eval_clause a) (c ∷ cs) ≡ true
    → let b = settle a false (c ∷ cs) m in
      (eval_formula b ((c ++ pos (m + 1) ∷ []) ∷ chain cs (neg (pos (m + 1))) (m + 1)) ≡ true)
      × (eval_lit b (last_terminal cs (neg (pos (m + 1))) (m + 1)) ≡ true)
unfolding settle
first_complete a c cs m below e =
    let b = settle a false (c ∷ cs) m in
    let low : (v : ℕ) → v ≤ m → b v ≡ a v = λ v le. settle_below a false (c ∷ cs) m v le in
    let t = neg (pos (m + 1)) in
    let fresh : eval_lit b t ≡ eval_clause a c =
      ground (arith, eval_lit-neg b (pos (m + 1)) (omega arith), not-not (eval_clause a c)) in
    ground (
      arith,
      chain_complete a b cs t m (m + 1) (eval_clause a c) below.1 (omega arith) low
          (λ v lt. ground arith) fresh,
      eval_clause_agree m b a c below.0 low,
      any-append (eval_lit b) c (pos (m + 1) ∷ []),
    )

-- A new disjunction of clauses over the variables in use: an assignment satisfies one of the clauses
-- exactly when an assignment that agrees with it on the variables in use satisfies every disjunct
-- that was handed out, under the assumption of the terminal in the disjunction's slot.
pub create_disjuncts_iff :
    (a : Assignment) (c : Clause) (cs : List Clause) (s : Shared)
    → AllBelow s.last_used_variable (c ∷ cs)
    → let r = create_disjuncts (c ∷ cs) new_disjunction s in
      (any (eval_clause a) (c ∷ cs) ≡ true) ↔ (
        (b : Assignment) × ((v : ℕ) → v ≤ s.last_used_variable → b v ≡ a v)
        × (eval_formula b r.0 ≡ true)
        × (eval_lit b (terminal (length s.terminals) r.2) ≡ true))
create_disjuncts_iff a c cs s below =
    let m = s.last_used_variable in
    let shape = create_disjuncts_first c cs s in
    let b = settle a false (c ∷ cs) m in
    (
      λ e.
          let r = first_complete a c cs m below e in
          (b, (λ v le. settle_below a false (c ∷ cs) m v le), rw shape.0 r.0, rw shape.1 r.1),
      λ r.
          first_sound a r.0 c cs m below r.1 (ground (arith, shape, r.2))
            (ground (arith, shape, r.3)),
    )

-- Building one disjunction leaves the terminals of the others as they are, from either start.
pub create_disjunct_frame :
    (c : Clause) (d : Disjunction) (s : Shared) (j : ℕ)
    → j < length s.terminals
    → d.terminal_index ≢ some j
    → (terminal j (create_disjunct c d s).2 ≡ terminal j s)
      × (s.last_used_variable < (create_disjunct c d s).2.last_used_variable)
      × ((create_disjunct c d s).1.terminal_index ≢ some j)
unfolding create_disjunct
create_disjunct_frame c d s j h n =
    let x = neg (pos (s.last_used_variable + 1)) in
    let i = length s.terminals in
    elim (Option-cases d.terminal_index) [
      | inl e ↦
          rw (e, create_disjunct)
            (
              get_or-set_ne (s.terminals ++ pos 0 ∷ []) i j x (pos 0) (λ q. omega arith)
                  ∙ get_or-append_left s.terminals (pos 0 ∷ []) j (pos 0) h,
              omega arith,
              λ q. ground arith,
            )
      | inr (k, e) ↦
          rw (e, create_disjunct)
            (
              get_or-set_ne s.terminals k j x (pos 0) (λ q. n (e ∙ ap some q)),
              omega arith,
              λ q. n (e ∙ q),
            )
    ]
