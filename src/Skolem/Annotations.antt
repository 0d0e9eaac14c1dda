-- ===== src/Skolem/Annotations.antt =====
-- Annotations: sorting literals, and the look-up of arbiters by an annotation (`std::sort`, `createArbiter`).
use pedant_solver.Base.{
  ℕ, ◌+◌, ◌≡◌, refl, sym, ap, ◌∙◌, subst, inl, inr, true, false, ◌&&◌, some, List, [], ◌∷◌, arith,
  ◌==◌, if◌then◌else◌, Bool-cases, ==_iff, All,
}
use pedant_solver.Base.Int.{ℤ, pos, negsuc, eq_ℤ_iff}
use pedant_solver.Base.Maps.{Map, assign, at_or, find-assign}
use pedant_solver.Skolem.{Container}
use pedant_solver.Skolem.Arbiters.{
  ltb_ℤ, place, sort_literals, eq_literals, find_arbiter, assign_arbiter, arbiter_of,
  create_arbiter,
}

abbrev Ordered : List ℤ → Type 0
Ordered [] = Unit {0}
Ordered (l ∷ literals) = All (λ k. ltb_ℤ k l ≡ false) literals × Ordered literals

ltb_trans : (i j k : ℤ) → ltb_ℤ i j ≡ false → ltb_ℤ j k ≡ false → ltb_ℤ i k ≡ false
ltb_trans (pos i) (pos j) (pos k) h h' = ground (arith, h, h')
ltb_trans (pos i) (pos j) (negsuc k) h h' = refl
ltb_trans (pos i) (negsuc j) (pos k) h h' = ground (arith, h')
ltb_trans (pos i) (negsuc j) (negsuc k) h h' = refl
ltb_trans (negsuc i) (pos j) k h h' = ground (arith, h)
ltb_trans (negsuc i) (negsuc j) (pos k) h h' = ground (arith, h')
ltb_trans (negsuc i) (negsuc j) (negsuc k) h h' = ground (arith, h, h')

ltb_asym : (i j : ℤ) → ltb_ℤ i j ≡ true → ltb_ℤ j i ≡ false
ltb_asym (pos i) (pos j) h = ground (arith, h)
ltb_asym (pos i) (negsuc j) h = ground (arith, h)
ltb_asym (negsuc i) (pos j) h = refl
ltb_asym (negsuc i) (negsuc j) h = ground (arith, h)

All-raise :
    (i j : ℤ) (literals : List ℤ)
    → ltb_ℤ j i ≡ false
    → All (λ k. ltb_ℤ k j ≡ false) literals
    → All (λ k. ltb_ℤ k i ≡ false) literals
All-raise i j [] h a = tt
All-raise i j (k ∷ literals) h a = (ltb_trans k j i a.0 h, All-raise i j literals h a.1)

place-All :
    (l j : ℤ) (literals : List ℤ)
    → ltb_ℤ l j ≡ false
    → All (λ k. ltb_ℤ k j ≡ false) literals
    → All (λ k. ltb_ℤ k j ≡ false) (place l literals)
unfolding place
place-All l j [] h a = (h, tt)
place-All l j (k ∷ literals) h a = elim (Bool-cases (ltb_ℤ k l)) [
  | inl e ↦ rw e (a.0, place-All l j literals h a.1)
  | inr e ↦ rw e (h, a)
]

place-Ordered : (l : ℤ) (literals : List ℤ) → Ordered literals → Ordered (place l literals)
unfolding place
place-Ordered l [] o = (tt, tt)
place-Ordered l (k ∷ literals) o = elim (Bool-cases (ltb_ℤ k l)) [
  | inl e ↦ rw e (place-All l k literals (ltb_asym k l e) o.0, place-Ordered l literals o.1)
  | inr e ↦ rw e ((e, All-raise l k literals e o.0), o)
]

sort_literals-Ordered : (literals : List ℤ) → Ordered (sort_literals literals)
unfolding sort_literals
sort_literals-Ordered [] = tt
sort_literals-Ordered (l ∷ literals) = place-Ordered l _ (sort_literals-Ordered literals)

place_first :
    (l : ℤ) (literals : List ℤ)
    → All (λ k. ltb_ℤ k l ≡ false) literals
    → place l literals ≡ l ∷ literals
unfolding place
place_first l [] a = refl
place_first l (k ∷ literals) a = rw a.0 refl

sort_literals_same : (literals : List ℤ) → Ordered literals → sort_literals literals ≡ literals
unfolding sort_literals
sort_literals_same [] o = refl
sort_literals_same (l ∷ literals) o =
    ap (place l) (sort_literals_same literals o.1) ∙ place_first l literals o.0

pub sort_literals-sort_literals :
    (literals : List ℤ) → sort_literals (sort_literals literals) ≡ sort_literals literals
sort_literals-sort_literals literals = sort_literals_same _ (sort_literals-Ordered literals)

eq_literals_sound : (xs ys : List ℤ) → eq_literals xs ys ≡ true → xs ≡ ys
eq_literals_sound [] [] h = refl
eq_literals_sound [] (y ∷ ys) h = absurd (ground (arith, h))
eq_literals_sound (x ∷ xs) [] h = absurd (ground (arith, h))
eq_literals_sound (x ∷ xs) (y ∷ ys) h =
    let head : x ≡ y = (eq_ℤ_iff x y).0 (ground (arith, h)) in
    let tail : xs ≡ ys = eq_literals_sound xs ys (ground (arith, h)) in
    ap (λ z. z ∷ xs) head ∙ ap (λ zs. y ∷ zs) tail

pub eq_literals_refl : (xs : List ℤ) → eq_literals xs xs ≡ true
eq_literals_refl [] = refl
eq_literals_refl (x ∷ xs) = ground (arith, (eq_ℤ_iff x x).1 refl, eq_literals_refl xs)

at_or-assign :
    {V : Type 0} (m : Map (List V)) (k j : ℕ) (v : List V)
    → at_or (assign m k v) j [] ≡ (if k == j then v else at_or m j [])
unfolding at_or
at_or-assign m k j v = ground (arith, find-assign m k j v)

pub find-assign_arbiter :
    (m : List (List ℤ × ℕ)) (a b : List ℤ) (n : ℕ)
    → find_arbiter (assign_arbiter m a n) b ≡ (if eq_literals a b then some n else find_arbiter m b)
unfolding find_arbiter assign_arbiter
find-assign_arbiter [] a b n = refl
find-assign_arbiter ((key, arbiter) ∷ m) a b n = elim (Bool-cases (eq_literals key a)) [
  | inl e ↦
      let same = eq_literals_sound key a e in
      let over : (if eq_literals key b then some n else find_arbiter m b)
          ≡ (if eq_literals a b then some n else find_arbiter m b) =
        ap (λ k. if eq_literals k b then some n else find_arbiter m b) same in
      elim (Bool-cases (eq_literals a b)) [
        | inl t ↦ rw e (over ∙ rw t refl)
        | inr t ↦
            let t' : eq_literals key b ≡ false =
              subst (λ k. eq_literals k b ≡ false) (sym same) t in
            rw e (over ∙ rw (t, t') refl)
      ]
  | inr e ↦ elim (Bool-cases (eq_literals key b)) [
    | inl k ↦ elim (Bool-cases (eq_literals a b)) [
      | inl t ↦
          let same = eq_literals_sound key b k ∙ sym (eq_literals_sound a b t) in
          let equal : eq_literals key a ≡ true =
            subst (λ x. eq_literals key x ≡ true) same (eq_literals_refl key) in
          absurd (ground (arith, e, equal))
      | inr t ↦ rw (e, t, find_arbiter, k) refl
    ]
    | inr k ↦ rw (e, find_arbiter, k) (find-assign_arbiter m a b n)
  ]
]

-- The arbiter of an annotation after another one is created.
pub arbiter_of-create_arbiter :
    (e e' : ℕ) (annotation annotation' : List ℤ) (c : Container)
    → arbiter_of e' annotation' (create_arbiter e annotation c).1 ≡ (
        if e == e' && eq_literals (sort_literals annotation) annotation'
        then some (c.last_used_variable + 1)
        else arbiter_of e' annotation' c)
unfolding arbiter_of create_arbiter
arbiter_of-create_arbiter e e' annotation annotation' c =
    let m = at_or c.existential_arbiter_map e [] in
    let key = sort_literals annotation in
    let n = c.last_used_variable + 1 in
    let here = at_or-assign c.existential_arbiter_map e e' (assign_arbiter m key n) in
    elim (Bool-cases (e == e')) [
      | inl q ↦
          let same = (==_iff e e').0 q in
          ap (λ x. find_arbiter x annotation') (here ∙ rw q refl)
          ∙ find-assign_arbiter m key annotation' n
          ∙ rw q (
              ap
                (λ x.
                  if eq_literals key annotation'
                  then some n
                  else find_arbiter (at_or c.existential_arbiter_map x []) annotation')
                same)
      | inr q ↦
          let kept : at_or (assign c.existential_arbiter_map e (assign_arbiter m key n)) e' []
              ≡ at_or c.existential_arbiter_map e' [] =
            here ∙ rw q refl in
          ap (λ x. find_arbiter x annotation') kept ∙ rw q refl
    ]
