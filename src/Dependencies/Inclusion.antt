-- ===== src/Dependencies/Inclusion.antt =====
-- The loop of `includedInDependencies` in dependencycontainer.cc: is an ascending range included in
-- the union of two others? Behind a match the loop reads `*supp_it` even if that is the end; what
-- it finds there is the argument `junk`.
use pedant_solver.Base.{
  ℕ, zero, suc, ◌+◌, ◌<◌, ◌≡◌, refl, sym, ap, ◌∙◌, ◌⊎◌, inl, inr, Bool, true, false, ◌&&◌, ◌||◌,
  Option, none, some, List, [], ◌∷◌, arith, ltb, ◌==◌, if◌then◌else◌, Bool-cases, length, all,
}
use pedant_solver.Base.Sets.{
  contains, Above, IsAscending, Above-mono, Above-IsAscending, contains_below, includes,
  includes_lem,
}

pub head_or : List ℕ → ℕ → ℕ
head_or [] d = d
head_or (x ∷ xs) d = x

-- `if (*it < *supp_it) it++`
pub advance : List ℕ → ℕ → List ℕ
advance [] y = []
advance (a ∷ d) y = if ltb a y then d else a ∷ d

-- `if (*supp_it == *dep1_it || *supp_it == *dep2_it) supp_it++`
pub next_support : ℕ → ℕ → ℕ → List ℕ → List ℕ
next_support x a b support = if x == a || x == b then support else x ∷ support

-- `none` if the fuel runs out.
pub included_in_union : ℕ → ℕ → List ℕ → List ℕ → List ℕ → Option Bool
unfolding head_or advance next_support
included_in_union zero junk dep1 dep2 support = none
included_in_union (suc fuel) junk dep1 dep2 [] = some true
included_in_union (suc fuel) junk [] dep2 (x ∷ support) = some (includes dep2 (x ∷ support))
included_in_union (suc fuel) junk (a ∷ dep1) [] (x ∷ support) =
    some (includes (a ∷ dep1) (x ∷ support))
included_in_union (suc fuel) junk (a ∷ dep1) (b ∷ dep2) (x ∷ support) =
    let rest = next_support x a b support in
    let y = head_or rest junk in
    let again = included_in_union fuel junk (advance (a ∷ dep1) y) (advance (b ∷ dep2) y) rest in
    if ltb x a && ltb x b then some false else again

abbrev pub in_union : List ℕ → List ℕ → ℕ → Bool
in_union xs ys v = contains xs v || contains ys v

all-ext : (p q : ℕ → Bool) (s : List ℕ) → ((v : ℕ) → p v ≡ q v) → all p s ≡ all q s
all-ext p q [] h = refl
all-ext p q (x ∷ s) h = ground (arith, h x, all-ext p q s h)

skip_left :
    (a : ℕ) (d1 d2 s : List ℕ) → Above a s → all (in_union (a ∷ d1) d2) s ≡ all (in_union d1 d2) s
skip_left a d1 d2 [] h = refl
skip_left a d1 d2 (x ∷ s) h =
    ground (arith, skip_left a d1 d2 s (Above-mono {m = a} {n = x} s (omega arith) h.1))

all-in_union_comm : (d1 d2 s : List ℕ) → all (in_union d1 d2) s ≡ all (in_union d2 d1) s
all-in_union_comm d1 d2 s = all-ext (in_union d1 d2) (in_union d2 d1) s (λ v. ground arith)

advance-cases :
    (a : ℕ) (d : List ℕ) (y : ℕ) → ((a < y) × (advance (a ∷ d) y ≡ d)) ⊎ (advance (a ∷ d) y ≡ a ∷ d)
unfolding advance
advance-cases a d y = ground arith

advance_left :
    (junk : ℕ) (d1 d2 s : List ℕ)
    → IsAscending s
    → all (in_union (advance d1 (head_or s junk)) d2) s ≡ all (in_union d1 d2) s
unfolding head_or
advance_left junk [] d2 s h = unfold advance in refl
advance_left junk (a ∷ d1) d2 [] h = refl
advance_left junk (a ∷ d1) d2 (y ∷ s) h = elim (advance-cases a d1 y) [
  | inl (lt, e) ↦ ap (λ d. all (in_union d d2) (y ∷ s)) e ∙ sym (skip_left a d1 d2 (y ∷ s) (lt, h))
  | inr e ↦ ap (λ d. all (in_union d d2) (y ∷ s)) e
]

advance_both :
    (junk : ℕ) (d1 d2 s : List ℕ)
    → IsAscending s
    → all (in_union (advance d1 (head_or s junk)) (advance d2 (head_or s junk))) s
      ≡ all (in_union d1 d2) s
advance_both junk d1 d2 s h =
    advance_left junk d1 (advance d2 (head_or s junk)) s h
    ∙ all-in_union_comm d1 (advance d2 (head_or s junk)) s
    ∙ advance_left junk d2 d1 s h
    ∙ all-in_union_comm d2 d1 s

advance-IsAscending : (d : List ℕ) (y : ℕ) → IsAscending d → IsAscending (advance d y)
unfolding advance
advance-IsAscending [] y h = tt
advance-IsAscending (a ∷ d) y h = elim (Bool-cases (ltb a y)) [
  | inl lt ↦ rw lt (Above-IsAscending a d h)
  | inr ge ↦ rw ge h
]

-- A round shortens one of the ranges.
round_progress :
    (junk x a b : ℕ) (d1 d2 s : List ℕ)
    → (ltb x a && ltb x b) ≡ false
    → let rest = next_support x a b s in
      let y = head_or rest junk in
      length (advance (a ∷ d1) y) + length (advance (b ∷ d2) y) + length rest
      < suc (length d1) + suc (length d2) + suc (length s)
unfolding advance head_or next_support
round_progress junk x a b d1 d2 s h = ground arith

next_support-IsAscending : (x a b : ℕ) (s : List ℕ) → Above x s → IsAscending (next_support x a b s)
unfolding next_support
next_support-IsAscending x a b s h = elim (Bool-cases (x == a || x == b)) [
  | inl e ↦ rw e (Above-IsAscending x s h)
  | inr e ↦ rw e h
]

round_keeps :
    (x a b : ℕ) (d1 d2 s : List ℕ)
    → all (in_union (a ∷ d1) (b ∷ d2)) (next_support x a b s)
      ≡ all (in_union (a ∷ d1) (b ∷ d2)) (x ∷ s)
unfolding next_support
round_keeps x a b d1 d2 s = ground arith

round_fails :
    (x a b : ℕ) (d1 d2 s : List ℕ)
    → (ltb x a && ltb x b) ≡ true
    → Above a d1
    → Above b d2
    → all (in_union (a ∷ d1) (b ∷ d2)) (x ∷ s) ≡ false
round_fails x a b d1 d2 s h k l = ground (arith, contains_below a x d1 k, contains_below b x d2 l)

-- On ascending ranges, with fuel for their elements, the loop ends and decides whether each element
-- of the support lies in one of the two ranges, whatever it reads behind the end.
pub included_in_union_lem :
    (fuel junk : ℕ) (d1 d2 s : List ℕ)
    → IsAscending d1
    → IsAscending d2
    → IsAscending s
    → length d1 + length d2 + length s < fuel
    → included_in_union fuel junk d1 d2 s ≡ some (all (in_union d1 d2) s)
unfolding included_in_union
included_in_union_lem zero junk d1 d2 s h k l f = elim f [ ]
included_in_union_lem (suc fuel) junk d1 d2 [] h k l f = refl
included_in_union_lem (suc fuel) junk [] d2 (x ∷ s) h k l f = ap some (includes_lem d2 (x ∷ s) k l)
included_in_union_lem (suc fuel) junk (a ∷ d1) [] (x ∷ s) h k l f = ap some (
    includes_lem (a ∷ d1) (x ∷ s) h l
    ∙ all-ext (contains (a ∷ d1)) (in_union (a ∷ d1) []) (x ∷ s) (λ v. ground arith))
included_in_union_lem (suc fuel) junk (a ∷ d1) (b ∷ d2) (x ∷ s) h k l f =
    let rest = next_support x a b s in
    let y = head_or rest junk in
    let sorted = next_support-IsAscending x a b s l in
    elim (Bool-cases (ltb x a && ltb x b)) [
      | inl e ↦ ground (arith, round_fails x a b d1 d2 s e h k)
      | inr e ↦ rw e (
          included_in_union_lem fuel junk (advance (a ∷ d1) y) (advance (b ∷ d2) y) rest
            (advance-IsAscending (a ∷ d1) y h) (advance-IsAscending (b ∷ d2) y k) sorted
            (omega (arith, round_progress junk x a b d1 d2 s e))
          ∙ ap some (advance_both junk (a ∷ d1) (b ∷ d2) rest sorted ∙ round_keeps x a b d1 d2 s))
    ]
