-- ===== src/Defaults/Pairs.antt =====
-- Pairs of literals in a list, found through two maps: one is negative where the other is positive.
use pedant_solver.Base.{
  ℕ, zero, suc, ◌<◌, ◌≡◌, refl, sym, ◌∙◌, subst, inl, inr, Bool, true, false, not, some, List,
  arith, ◌==◌, if◌then◌else◌, Bool-cases, ==_iff, length, length-set, get_or, get_or-set_self,
  get_or-set_ne,
}
use pedant_solver.Base.Int.{ℤ, pos, abs, is_pos}
use pedant_solver.Base.Maps.{Map, find, at_or}
use pedant_solver.Base.Sets.{contains}
use pedant_solver.Formula.{IsLit}
use pedant_solver.Defaults.{signed, set_sign, set_signs}

abbrev pub entry : List ℤ → ℕ → ℤ
entry literals i = get_or literals i (pos 0)

abbrev pub index : Map ℕ → ℕ → ℕ
index m v = at_or m v 0

-- The pairs of the variables in `vars`: the positive one has the sign that `polarity` gives, the
-- other one the other, and all stand in places of their own.
pub record IsPaired (vars : List ℕ) (positive negative : Map ℕ) (literals : List ℤ)
    (polarity : ℕ → Bool) : Type 0 where
  pub positive_found : (v : ℕ) → contains vars v ≡ true → find positive v ≡ some (index positive v)
  pub negative_found : (v : ℕ) → contains vars v ≡ true → find negative v ≡ some (index negative v)
  pub positive_bound : (v : ℕ) → contains vars v ≡ true → index positive v < length literals
  pub negative_bound : (v : ℕ) → contains vars v ≡ true → index negative v < length literals
  pub positive_literal :
      (v : ℕ)
      → contains vars v ≡ true
      → IsLit (entry literals (index positive v))
        × (is_pos (entry literals (index positive v)) ≡ polarity v)
  pub negative_literal :
      (v : ℕ)
      → contains vars v ≡ true
      → IsLit (entry literals (index negative v))
        × (is_pos (entry literals (index negative v)) ≡ not (polarity v))
  pub apart :
      (v w : ℕ)
      → contains vars v ≡ true
      → contains vars w ≡ true
      → (index positive v == index negative w) ≡ false
  pub positive_injective :
      (v w : ℕ)
      → contains vars v ≡ true
      → contains vars w ≡ true
      → (index positive v == index positive w) ≡ (v == w)
  pub negative_injective :
      (v w : ℕ)
      → contains vars v ≡ true
      → contains vars w ≡ true
      → (index negative v == index negative w) ≡ (v == w)

sign-signed : (b : Bool) (k : ℕ) → 0 < k → is_pos (signed b k) ≡ b
sign-signed true zero h = absurd (omega (arith, h))
sign-signed true (suc k) h = refl
sign-signed false zero h = refl
sign-signed false (suc k) h = refl

abs-signed : (b : Bool) (k : ℕ) → abs (signed b k) ≡ k
abs-signed true k = refl
abs-signed false zero = refl
abs-signed false (suc k) = refl

entry-set_sign :
    (literals : List ℤ) (i j : ℕ) (b : Bool)
    → i < length literals
    → entry (set_sign literals i b) j
      ≡ (if i == j then signed b (abs (entry literals i)) else entry literals j)
entry-set_sign literals i j b h = elim (Bool-cases (i == j)) [
  | inl e ↦
      let same = (==_iff i j).0 e in
      rw e (
        subst (λ k. entry (set_sign literals i b) k ≡ signed b (abs (entry literals i))) same
          (get_or-set_self literals i (signed b (abs (entry literals i))) (pos 0) h))
  | inr e ↦ rw e (
      get_or-set_ne literals i j (signed b (abs (entry literals i))) (pos 0)
        (λ q. absurd (ground (arith, e, q))))
]

-- Two entries, in different places.
entry-set_two :
    (literals : List ℤ) (p n j : ℕ) (b : Bool)
    → p < length literals
    → n < length literals
    → (p == n) ≡ false
    → entry (set_sign (set_sign literals p b) n (not b)) j ≡ (
        if n == j
        then signed (not b) (abs (entry literals n))
        else if p == j
        then signed b (abs (entry literals p))
        else entry literals j)
entry-set_two literals p n j b hp hn d =
    let first = set_sign literals p b in
    let bound : n < length first =
      omega (arith, length-set literals p (signed b (abs (entry literals p)))) in
    let old : entry first n ≡ entry literals n =
      entry-set_sign literals p n b hp ∙ ground (arith, d) in
    entry-set_sign first n j (not b) bound ∙ rw (old, entry-set_sign literals p j b hp) refl

pub ==_sym : (m n : ℕ) → (m == n) ≡ (n == m)
==_sym m n = ground arith

chosen_literal :
    (c b q : Bool) (x y : ℤ)
    → IsLit x
    → IsLit y × (is_pos y ≡ q)
    → IsLit (if c then signed b (abs x) else y)
      × (is_pos (if c then signed b (abs x) else y) ≡ (if c then b else q))
chosen_literal true b q x y hx hy =
    (omega (arith, hx, abs-signed b (abs x)), sign-signed b (abs x) hx)
chosen_literal false b q x y hx hy = hy

if-not : (c b q : Bool) → (if c then not b else not q) ≡ not (if c then b else q)
if-not true b q = refl
if-not false b q = refl

-- The literals of a variable after its signs are set.
pub flipped : Map ℕ → Map ℕ → List ℤ → ℕ → Bool → List ℤ
flipped positive negative literals v b =
    set_sign (set_sign literals (index positive v) b) (index negative v) (not b)

module _ (vars : List ℕ) (positive negative : Map ℕ) (literals : List ℤ) (polarity : ℕ → Bool)
    (h : IsPaired vars positive negative literals polarity) (v : ℕ) (hv : contains vars v ≡ true)
    (b : Bool) where
  pub set_signs-IsPaired :
      set_signs positive negative literals v b (not b)
      ≡ some (flipped positive negative literals v b)
  unfolding set_signs flipped
  set_signs-IsPaired = rw (h.positive_found v hv, h.negative_found v hv, set_signs) refl

  entry-flipped :
      (j : ℕ)
      → entry (flipped positive negative literals v b) j ≡ (
          if index negative v == j
          then signed (not b) (abs (entry literals (index negative v)))
          else if index positive v == j
          then signed b (abs (entry literals (index positive v)))
          else entry literals j)
  unfolding flipped
  entry-flipped j =
      entry-set_two literals (index positive v) (index negative v) j b (h.positive_bound v hv)
        (h.negative_bound v hv) (h.apart v v hv hv)

  length-flipped : length (flipped positive negative literals v b) ≡ length literals
  unfolding flipped
  length-flipped = length-set _ _ _ ∙ length-set _ _ _

  positive_value :
      (w : ℕ)
      → contains vars w ≡ true
      → entry (flipped positive negative literals v b) (index positive w) ≡ (
          if w == v
          then signed b (abs (entry literals (index positive v)))
          else entry literals (index positive w))
  positive_value w hw =
      entry-flipped (index positive w)
      ∙ rw
          (
            ==_sym (index negative v) (index positive w) ∙ h.apart w v hw hv,
            h.positive_injective v w hv hw ∙ ==_sym v w,
          )
          refl

  negative_value :
      (w : ℕ)
      → contains vars w ≡ true
      → entry (flipped positive negative literals v b) (index negative w) ≡ (
          if w == v
          then signed (not b) (abs (entry literals (index negative v)))
          else entry literals (index negative w))
  negative_value w hw =
      entry-flipped (index negative w)
      ∙ rw (h.negative_injective v w hv hw ∙ ==_sym v w, h.apart v w hv hw) refl

  -- The pairs stay pairs, of which only the one of the variable has a new polarity.
  pub flipped-IsPaired :
      IsPaired vars positive negative
        (flipped positive negative literals v b)
        (λ w. if w == v then b else polarity w)
  flipped-IsPaired = record {
    positive_found = h.positive_found;
    negative_found = h.negative_found;
    positive_bound = λ w hw. omega (arith, length-flipped, h.positive_bound w hw);
    negative_bound = λ w hw. omega (arith, length-flipped, h.negative_bound w hw);
    positive_literal = λ w hw.
        subst (λ l. IsLit l × (is_pos l ≡ (if w == v then b else polarity w)))
          (sym (positive_value w hw))
          (chosen_literal (w == v) b (polarity w) (entry literals (index positive v))
            (entry literals (index positive w)) (h.positive_literal v hv).0
            (h.positive_literal w hw));
    negative_literal = λ w hw.
        subst (λ l. IsLit l × (is_pos l ≡ not (if w == v then b else polarity w)))
          (sym (negative_value w hw))
          (subst
            (λ q.
              IsLit (
                if w == v
                then signed (not b) (abs (entry literals (index negative v)))
                else entry literals (index negative w))
              × (is_pos (
                    if w == v
                    then signed (not b) (abs (entry literals (index negative v)))
                    else entry literals (index negative w))
                  ≡ q))
            (if-not (w == v) b (polarity w))
            (chosen_literal (w == v) (not b) (not (polarity w)) (entry literals (index negative v))
              (entry literals (index negative w)) (h.negative_literal v hv).0
              (h.negative_literal w hw)));
    apart = h.apart;
    positive_injective = h.positive_injective;
    negative_injective = h.negative_injective;
  }
