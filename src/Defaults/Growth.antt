-- ===== src/Defaults/Growth.antt =====
-- defaultvaluecontainer.h: a new pair of selectors.
use pedant_solver.Base.{
  ℕ, zero, suc, ◌+◌, ◌≤◌, ◌<◌, ◌≡◌, refl, sym, ap, ◌∙◌, subst, ◌⊎◌, inl, inr, Bool, true, false,
  not, some, List, [], ◌∷◌, ◌++◌, arith, ◌==◌, if◌then◌else◌, Bool-cases, length, length-append,
  get_or-append_left,
}
use pedant_solver.Base.Int.{ℤ, pos, neg, is_pos}
use pedant_solver.Base.Maps.{Map, find, assign, at_or, find-assign}
use pedant_solver.Base.Sets.{contains, insert, contains-insert}
use pedant_solver.Formula.{IsLit}
use pedant_solver.Defaults.Pairs.{IsPaired, entry, index, ==_sym}

index-assign : (m : Map ℕ) (k j v : ℕ) → index (assign m k v) j ≡ (if k == j then v else index m j)
unfolding at_or
index-assign m k j v = ground (arith, find-assign m k j v)

entry-append_at : (xs : List ℤ) (x : ℤ) (ys : List ℤ) → entry (xs ++ x ∷ ys) (length xs) ≡ x
entry-append_at [] x ys = refl
entry-append_at (z ∷ xs) x ys = entry-append_at xs x ys

entry-append_next :
    (xs : List ℤ) (x y : ℤ) (ys : List ℤ) → entry (xs ++ x ∷ y ∷ ys) (length xs + 1) ≡ y
entry-append_next [] x y ys = refl
entry-append_next (z ∷ xs) x y ys =
    let next : suc (length xs) + 1 ≡ suc (length xs + 1) = omega arith in
    rw next (entry-append_next xs x y ys)

carry :
    {l l' : ℤ} {q q' : Bool}
    → l ≡ l'
    → q ≡ q'
    → IsLit l' × (is_pos l' ≡ q')
    → IsLit l × (is_pos l ≡ q)
carry e f h = (subst IsLit (sym e) h.0, ap is_pos e ∙ h.1 ∙ sym f)

new_polarity : (v w : ℕ) (x : Bool) → (v == w) ≡ true → (if w == v then true else x) ≡ true
new_polarity v w x q = rw (==_sym w v ∙ q) refl

old_polarity : (v w : ℕ) (x : Bool) → (v == w) ≡ false → (if w == v then true else x) ≡ x
old_polarity v w x q = rw (==_sym w v ∙ q) refl

pos-IsLit : (s : ℕ) → 0 < s → IsLit (pos s) × (is_pos (pos s) ≡ true)
pos-IsLit zero h = absurd (omega (arith, h))
pos-IsLit (suc s) h = (h, refl)

neg-IsLit : (s : ℕ) → 0 < s → IsLit (neg (pos s)) × (is_pos (neg (pos s)) ≡ false)
neg-IsLit zero h = absurd (omega (arith, h))
neg-IsLit (suc s) h = (h, refl)

abbrev pub new_pair : List ℤ → ℕ → ℕ → List ℤ
new_pair literals s t = literals ++ pos s ∷ neg (pos t) ∷ []

length-new_pair :
    (literals : List ℤ) (s t : ℕ) → length (new_pair literals s t) ≡ length literals + 2
length-new_pair literals s t = omega (arith, length-append literals (pos s ∷ neg (pos t) ∷ []))

module _ (vars : List ℕ) (positive negative : Map ℕ) (literals : List ℤ) (polarity : ℕ → Bool)
    (h : IsPaired vars positive negative literals polarity) (v : ℕ)
    (fresh : contains vars v ≡ false) (s t : ℕ) (hs : 0 < s) (ht : 0 < t) where
  -- A member of the new set is the new one or an old one.
  member_cases :
      (w : ℕ)
      → contains (insert v vars) w ≡ true
      → ((v == w) ≡ true) ⊎ (((v == w) ≡ false) × (contains vars w ≡ true))
  member_cases w e = elim (Bool-cases (v == w)) [
    | inl q ↦ inl q
    | inr q ↦ inr (q, ground (arith, contains-insert v w vars, e, q))
  ]

  found :
      (m : Map ℕ) (i : ℕ) (w : ℕ)
      → ((u : ℕ) → contains vars u ≡ true → find m u ≡ some (index m u))
      → contains (insert v vars) w ≡ true
      → find (assign m v i) w ≡ some (index (assign m v i) w)
  found m i w f e = elim (member_cases w e) [
    | inl q ↦ ground (arith, find-assign m v w i, index-assign m v w i, q)
    | inr q ↦ ground (arith, find-assign m v w i, index-assign m v w i, q.0, f w q.1)
  ]

  bound :
      (m : Map ℕ) (i : ℕ) (w : ℕ)
      → ((u : ℕ) → contains vars u ≡ true → index m u < length literals)
      → i < length literals + 2
      → contains (insert v vars) w ≡ true
      → index (assign m v i) w < length (new_pair literals s t)
  bound m i w f hi e = elim (member_cases w e) [
    | inl q ↦ ground (arith, index-assign m v w i, length-new_pair literals s t, q, hi)
    | inr q ↦ ground (arith, index-assign m v w i, length-new_pair literals s t, q.0, f w q.1)
  ]

  -- An entry that was there.
  old_entry :
      (m : Map ℕ) (i w : ℕ)
      → (v == w) ≡ false
      → index m w < length literals
      → entry (new_pair literals s t) (index (assign m v i) w) ≡ entry literals (index m w)
  old_entry m i w q b =
      rw (index-assign m v w i, q)
        (get_or-append_left literals (pos s ∷ neg (pos t) ∷ []) (index m w) (pos 0) b)

  new_index : (m : Map ℕ) (i w : ℕ) → (v == w) ≡ true → index (assign m v i) w ≡ i
  new_index m i w q = rw (index-assign m v w i, q) refl

  injective :
      (m : Map ℕ) (i v' w : ℕ)
      → ((u : ℕ) → contains vars u ≡ true → index m u < length literals)
      → ((u x : ℕ)
          → contains vars u ≡ true
          → contains vars x ≡ true
          → (index m u == index m x) ≡ (u == x))
      → length literals ≤ i
      → contains (insert v vars) v' ≡ true
      → contains (insert v vars) w ≡ true
      → (index (assign m v i) v' == index (assign m v i) w) ≡ (v' == w)
  injective m i v' w f j hi e e' = elim (member_cases v' e) [
    | inl q ↦ elim (member_cases w e') [
      | inl q' ↦ ground (arith, index-assign m v v' i, index-assign m v w i, q, q')
      | inr q' ↦ ground (arith, index-assign m v v' i, index-assign m v w i, q, q'.0, f w q'.1, hi)
    ]
    | inr q ↦ elim (member_cases w e') [
      | inl q' ↦ ground (arith, index-assign m v v' i, index-assign m v w i, q.0, q', f v' q.1, hi)
      | inr q' ↦
          ground (arith, index-assign m v v' i, index-assign m v w i, q.0, q'.0, j v' w q.1 q'.1)
    ]
  ]

  new_positive : entry (new_pair literals s t) (length literals) ≡ pos s
  new_positive = entry-append_at literals (pos s) (neg (pos t) ∷ [])

  new_negative : entry (new_pair literals s t) (length literals + 1) ≡ neg (pos t)
  new_negative = entry-append_next literals (pos s) (neg (pos t)) []

  new_apart :
      (v' w : ℕ)
      → contains (insert v vars) v' ≡ true
      → contains (insert v vars) w ≡ true
      → (index (assign positive v (length literals)) v'
          == index (assign negative v (length literals + 1)) w)
        ≡ false
  new_apart v' w e e' =
      let n = length literals in
      let i = index-assign positive v v' n in
      let j = index-assign negative v w (n + 1) in
      elim (member_cases v' e) [
        | inl q ↦ elim (member_cases w e') [
          | inl q' ↦ ground (arith, i, j, q, q')
          | inr q' ↦ ground (arith, i, j, q, q'.0, h.negative_bound w q'.1)
        ]
        | inr q ↦ elim (member_cases w e') [
          | inl q' ↦ ground (arith, i, j, q.0, q', h.positive_bound v' q.1)
          | inr q' ↦ ground (arith, i, j, q.0, q'.0, h.apart v' w q.1 q'.1)
        ]
      ]

  -- The variable gets a pair that is positive.
  pub new_pair-IsPaired :
      IsPaired
        (insert v vars)
        (assign positive v (length literals))
        (assign negative v (length literals + 1))
        (new_pair literals s t)
        (λ w. if w == v then true else polarity w)
  new_pair-IsPaired = record {
    positive_found = λ w e. found positive (length literals) w h.positive_found e;
    negative_found = λ w e. found negative (length literals + 1) w h.negative_found e;
    positive_bound = λ w e. bound positive (length literals) w h.positive_bound (omega arith) e;
    negative_bound = λ w e. bound negative (length literals + 1) w h.negative_bound (omega arith) e;
    positive_literal = λ w e. elim (member_cases w e) [
      | inl q ↦
          carry
            (ap (entry (new_pair literals s t)) (new_index positive (length literals) w q)
              ∙ new_positive)
            (new_polarity v w (polarity w) q) (pos-IsLit s hs)
      | inr q ↦
          carry (old_entry positive (length literals) w q.0 (h.positive_bound w q.1))
            (old_polarity v w (polarity w) q.0) (h.positive_literal w q.1)
    ];
    negative_literal = λ w e. elim (member_cases w e) [
      | inl q ↦
          carry
            (ap (entry (new_pair literals s t)) (new_index negative (length literals + 1) w q)
              ∙ new_negative)
            (ap not (new_polarity v w (polarity w) q)) (neg-IsLit t ht)
      | inr q ↦
          carry (old_entry negative (length literals + 1) w q.0 (h.negative_bound w q.1))
            (ap not (old_polarity v w (polarity w) q.0)) (h.negative_literal w q.1)
    ];
    apart = λ v' w e e'. new_apart v' w e e';
    positive_injective = λ v' w e e'.
        injective positive (length literals) v' w h.positive_bound h.positive_injective
          (omega arith) e e';
    negative_injective = λ v' w e e'.
        injective negative (length literals + 1) v' w h.negative_bound h.negative_injective
          (omega arith) e e';
  }
