-- ===== src/Unate/Copies.antt =====
-- The copies of the existential variables in unatechecker.cc, and assignments for them.
use pedant_solver.Base.{
  ℕ, ◌+◌, ◌≤◌, ◌<◌, ◌≡◌, refl, sym, ap, ◌∙◌, inl, inr, Bool, true, false, Option, none, some, List,
  [], ◌∷◌, arith, ◌==◌, if◌then◌else◌, Bool-cases, Option-cases, ==_iff, ==_refl, all-append,
}
use pedant_solver.Base.Int.{pos}
use pedant_solver.Base.Sets.{contains}
use pedant_solver.Base.Maps.{Map, find, has, emplace, at_or, find-emplace}
use pedant_solver.Formula.{Clause, Assignment, eval_clause, eval_formula}
use pedant_solver.Base.Maps.{find-emplace_new, find-emplace_old}
use pedant_solver.Formula.Gates.{clausal_encoding_equality, eval-clausal_encoding_equality}
use pedant_solver.Formula.Negation.{first_used}
use pedant_solver.Formula.Renaming.{renamed, IsRenaming}
use pedant_solver.Unate.{copies, renaming_of, Switched, pos_value}

-- The assignment that gives each of some variables the value of its copy.
unfoldable pub copied_assignment : Assignment → List ℕ → List ℕ → Assignment
copied_assignment a [] copied v = a v
copied_assignment a (e ∷ es) [] v = a v
copied_assignment a (e ∷ es) (r ∷ rs) v =
    let rest = copied_assignment a es rs v in if e == v then a r else rest

-- Each switch is on exactly if its variable is among those of `on`.
unfoldable pub AreSet : Assignment → (ℕ → Bool) → List ℕ → List ℕ → Type 0
AreSet a on [] switches = Unit {0}
AreSet a on (e ∷ es) [] = ⊥
AreSet a on (e ∷ es) (s ∷ switches) = (a s ≡ on e) × AreSet a on es switches

pub AreSet-Switched :
    (a : Assignment) (on : ℕ → Bool) (es switches : List ℕ)
    → AreSet a on es switches
    → Switched a on es switches
unfolding AreSet Switched
AreSet-Switched a on [] switches h = tt
AreSet-Switched a on (e ∷ es) [] h = tt
AreSet-Switched a on (e ∷ es) (s ∷ switches) h =
    (λ o. h.0 ∙ o, AreSet-Switched a on es switches h.1)

abbrev value_of : Assignment → Bool → Option ℕ → Bool
value_of a b none = b
value_of a b (some w) = a w

value_of-renamed :
    (a : Assignment) (r : Map ℕ) (v : ℕ) → a (renamed r v) ≡ value_of a (a v) (find r v)
unfolding at_or
value_of-renamed a r v = elim (Option-cases (find r v)) [
  | inl e ↦ rw (renamed, at_or, e) refl
  | inr (w, e) ↦ rw (renamed, at_or, e) refl
]

value_of-emplace :
    (a : Assignment) (r : Map ℕ) (e copy v : ℕ) (b : Bool)
    → value_of a b (find (emplace r e copy) v)
      ≡ value_of a (if e == v then a copy else b) (find r v)
value_of-emplace a r e copy v b = elim (Option-cases (find r v)) [
  | inl n ↦ elim (Bool-cases (e == v)) [
    | inl q ↦
        let found : find (emplace r e copy) v ≡ some copy =
          find-emplace_new r e v copy n ∙ rw q refl in
        rw (found, n, q) refl
    | inr q ↦
        let found : find (emplace r e copy) v ≡ none = find-emplace_new r e v copy n ∙ rw q refl in
        rw (found, n, q) refl
  ]
  | inr (w, n) ↦ rw (find-emplace_old r e v copy w n, n) refl
]

-- The renaming leads to the copies.
renamed-copied :
    (a : Assignment) (es rs : List ℕ) (r : Map ℕ) (v : ℕ)
    → a (renamed (renaming_of es rs r) v) ≡ value_of a (copied_assignment a es rs v) (find r v)
unfolding renaming_of copied_assignment
renamed-copied a [] rs r v = value_of-renamed a r v
renamed-copied a (e ∷ es) [] r v = value_of-renamed a r v
renamed-copied a (e ∷ es) (c ∷ rs) r v =
    renamed-copied a es rs (emplace r e c) v
    ∙ value_of-emplace a r e c v (copied_assignment a es rs v)

-- Values for the copies and the switches, behind those of another assignment.
pub linked : Assignment → (ℕ → Bool) → Assignment → List ℕ → ℕ → Assignment
linked c on f [] m v = f v
linked c on f (e ∷ es) m v =
    let rest = linked c on f es (m + 1 + 1) v in
    if v == m + 1 then c e else if v == m + 1 + 1 then on e else rest

pub linked_below :
    (c : Assignment) (on : ℕ → Bool) (f : Assignment) (es : List ℕ) (m v : ℕ)
    → v ≤ m
    → linked c on f es m v ≡ f v
unfolding linked
linked_below c on f [] m v h = refl
linked_below c on f (e ∷ es) m v h =
    ground (arith, h, linked_below c on f es (m + 1 + 1) v (omega (arith, h)))

-- The copies have the values of the one assignment, and the equalities hold where these agree.
module _ (a c : Assignment) (on : ℕ → Bool) (f : Assignment) where
  abbrev Follows : List ℕ → ℕ → Type 0
  Follows es m = (v : ℕ) → m < v → a v ≡ linked c on f es m v

  first_copy : (e : ℕ) (es : List ℕ) (m : ℕ) → Follows (e ∷ es) m → a (m + 1) ≡ c e
  unfolding linked
  first_copy e es m h = h (m + 1) (omega arith) ∙ rw (==_refl (m + 1)) refl

  first_switch : (e : ℕ) (es : List ℕ) (m : ℕ) → Follows (e ∷ es) m → a (m + 1 + 1) ≡ on e
  unfolding linked
  first_switch e es m h = h (m + 1 + 1) (omega arith) ∙ ground arith

  Follows-rest : (e : ℕ) (es : List ℕ) (m : ℕ) → Follows (e ∷ es) m → Follows es (m + 1 + 1)
  unfolding linked
  Follows-rest e es m h v l = h v (omega (arith, l)) ∙ ground (arith, l)

  pub copies-AreSet : (es : List ℕ) (m : ℕ) → Follows es m → AreSet a on es (copies es m).1
  unfolding copies AreSet
  copies-AreSet [] m h = tt
  copies-AreSet (e ∷ es) m h =
      (first_switch e es m h, copies-AreSet es (m + 1 + 1) (Follows-rest e es m h))

  pub copies-copied :
      (es : List ℕ) (m v : ℕ)
      → Follows es m
      → copied_assignment a es (copies es m).0 v ≡ (if contains es v then c v else a v)
  unfolding copies copied_assignment
  copies-copied [] m v h = refl
  copies-copied (e ∷ es) m v h = elim (Bool-cases (e == v)) [
    | inl q ↦ rw q (first_copy e es m h ∙ ap c ((==_iff e v).0 q))
    | inr q ↦ rw q (copies-copied es (m + 1 + 1) v (Follows-rest e es m h))
  ]

  pub copies-equal :
      (es : List ℕ) (m : ℕ)
      → Follows es m
      → ((e : ℕ) → contains es e ≡ true → (0 < e) × (on e ≡ true → c e ≡ a e))
      → eval_formula a (copies es m).2 ≡ true
  unfolding copies
  copies-equal [] m h k = refl
  copies-equal (e ∷ es) m h k =
      let here = k e (ground (arith, ==_refl e)) in
      let rest =
        copies-equal es (m + 1 + 1) (Follows-rest e es m h) (λ x hx. k x (ground (arith, hx))) in
      let equal : eval_formula a (clausal_encoding_equality (pos e) (pos (m + 1)) (pos (m + 1 + 1)))
          ≡ true =
        (eval-clausal_encoding_equality a (pos e) (pos (m + 1)) (pos (m + 1 + 1)) here.0
            (omega arith) (omega arith)).1
          (λ s.
            pos_value a e here.0
            ∙ sym (
                here.1
                  (sym (first_switch e es m h) ∙ sym (pos_value a (m + 1 + 1) (omega arith)) ∙ s))
            ∙ sym (first_copy e es m h)
            ∙ sym (pos_value a (m + 1) (omega arith))) in
      all-append (eval_clause a) (clausal_encoding_equality (pos e) (pos (m + 1)) (pos (m + 1 + 1)))
        (copies es (m + 1 + 1)).2
      ∙ ground (arith, equal, rest)

pub copied_none :
    (a : Assignment) (es rs : List ℕ) (v : ℕ)
    → contains es v ≡ false
    → copied_assignment a es rs v ≡ a v
unfolding copied_assignment
copied_none a [] rs v h = refl
copied_none a (e ∷ es) [] v h = refl
copied_none a (e ∷ es) (r ∷ rs) v h = ground (arith, h, copied_none a es rs v)

emplace-IsRenaming :
    (r : Map ℕ) (e copy : ℕ) → IsRenaming r → 0 < copy → IsRenaming (emplace r e copy)
unfolding has
emplace-IsRenaming r e copy h p v w f = ground (arith, find-emplace r e v copy, h v w, p, f)

pub copies-IsRenaming :
    (es : List ℕ) (m : ℕ) (r : Map ℕ) → IsRenaming r → IsRenaming (renaming_of es (copies es m).0 r)
unfolding copies renaming_of
copies-IsRenaming [] m r h = h
copies-IsRenaming (e ∷ es) m r h =
    copies-IsRenaming es (m + 1 + 1) (emplace r e (m + 1))
      (emplace-IsRenaming r e (m + 1) h (omega arith))

pub empty-IsRenaming : IsRenaming []
unfolding find
empty-IsRenaming v w f = absurd (ground (arith, f))

pub renamed-copied_empty :
    (a : Assignment) (es rs : List ℕ) (v : ℕ)
    → a (renamed (renaming_of es rs []) v) ≡ copied_assignment a es rs v
unfolding find
renamed-copied_empty a es rs v = renamed-copied a es rs [] v

pub first_used_given : (f : List Clause) (m : ℕ) → 0 < m → first_used f m ≡ m
unfolding first_used
first_used_given f m h = ground (arith, h)
