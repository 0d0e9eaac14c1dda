-- ===== src/Extractor/BlockSearch/First.antt =====
-- The search for the first block whose dependencies are a superset.
use pedant_solver.Base.{
  ℕ, zero, suc, ◌+◌, ◌-◌, ◌/◌, ◌≤◌, ◌<◌, ◌≡◌, refl, sym, ap, ◌∙◌, inl, inr, Bool, true, false, some,
  Option, List, arith, ◌==◌, if◌then◌else◌, Bool-cases, ==_refl,
}
use pedant_solver.Base.Maps.{Map}
use pedant_solver.Base.Sets.{includes}
use pedant_solver.Dqdimacs.{Dqdimacs, get_nof_existential_blocks}
use pedant_solver.Extractor.BlockSearch.{
  min_index, is_superset, block_dependencies, HasKeys, search_first, get_minimal_super_set,
}

-- The same by a scan of the range that begins at an index and has a length.
pub first_index : ℕ → (ℕ → Bool) → ℕ → ℕ → ℕ
first_index absent p i zero = absent
first_index absent p i (suc n) =
    let rest = first_index absent p (suc i) n in if p i then i else rest

-- A range before a passing test, and one that fails before another.
first_index_through :
    (absent : ℕ) (p : ℕ → Bool) (i a b m k : ℕ)
    → m ≡ a + suc b
    → k ≡ i + a
    → k < absent
    → p k ≡ true
    → first_index absent p i m ≡ min_index (first_index absent p i a) k
unfolding first_index
first_index_through absent p i zero b m k e h l t =
    let here : m ≡ suc b = omega arith in
    let from : i ≡ k = omega arith in rw (here, from) (ground arith)
first_index_through absent p i (suc a) b zero k e h l t = ground arith
first_index_through absent p i (suc a) b (suc m) k e h l t =
    ground (arith, first_index_through absent p (suc i) a b m k (omega arith) (omega arith) l t)

first_index_right :
    (absent : ℕ) (p : ℕ → Bool) (i a b m k : ℕ)
    → m ≡ a + b
    → k ≡ i + a
    → ((j : ℕ) → i ≤ j → j < k → p j ≡ false)
    → first_index absent p i m ≡ first_index absent p k b
unfolding first_index
first_index_right absent p i zero b m k e h n =
    let here : m ≡ b = omega arith in let from : k ≡ i = omega arith in rw (here, from) refl
first_index_right absent p i (suc a) b zero k e h n = ground arith
first_index_right absent p i (suc a) b (suc m) k e h n = rw (n i (omega arith) (omega arith)) (
    first_index_right absent p (suc i) a b m k (omega arith) (omega arith)
      (λ j l r. n j (omega arith) r))

-- The tests that pass come last in the range.
abbrev pub IsUpward : (ℕ → Bool) → ℕ → ℕ → Type 0
IsUpward p first last = (i j : ℕ) → first ≤ i → i ≤ j → j < last → p i ≡ true → p j ≡ true

search_first_correct :
    (absent : ℕ) (p : ℕ → Option Bool) (q : ℕ → Bool) (fuel first last : ℕ)
    → first ≤ last
    → last ≤ first + fuel
    → last ≤ absent
    → ((i : ℕ) → first ≤ i → i < last → p i ≡ some (q i))
    → IsUpward q first last
    → search_first absent p fuel first last ≡ some (first_index absent q first (last - first))
unfolding search_first first_index
search_first_correct absent p q zero first last l f b h d =
    let same : first ≡ last = omega arith in
    let size : last - last ≡ 0 = omega arith in rw (same, size, ==_refl last) refl
search_first_correct absent p q (suc fuel) first last l f b h d =
    elim (Bool-cases (first == last)) [
      | inl e ↦ let size : last - first ≡ 0 = ground arith in rw (e, size) refl
      | inr e ↦
          let mid = (first + last) / 2 in
          let lower : first ≤ mid = ground arith in
          let upper : mid < last = ground arith in
          elim (Bool-cases (q mid)) [
            | inl t ↦
                rw
                  (
                    e,
                    h mid lower upper,
                    t,
                    search_first_correct absent p q fuel first mid lower (omega arith) (omega arith)
                        (λ i a c. h i a (omega arith)) (λ i j a b c. d i j a b (omega arith)),
                  )
                  (ap some (
                    sym (
                      first_index_through absent q first (mid - first) (last - (mid + 1))
                        (last - first) mid (omega arith) (omega arith) (omega arith) t)))
            | inr t ↦
                rw (e, h mid lower upper, t)
                  (search_first_correct absent p q fuel (mid + 1) last (omega arith) (omega arith) b
                      (λ i a c. h i (omega arith) c) (λ i j a b c. d i j (omega arith) b c)
                    ∙ ap some (
                        sym (
                          first_index_right absent q first (mid + 1 - first) (last - (mid + 1))
                            (last - first) (mid + 1) (omega arith) (omega arith)
                            (λ j a c. ground (arith, d j mid a (omega arith) upper)))))
          ]
    ]

is_superset-HasKeys :
    (f : Dqdimacs) (m : Map (List ℕ)) (v first last : ℕ) (own : List ℕ) (blocks : ℕ → List ℕ)
    → HasKeys f m v first last own blocks
    → (i : ℕ) → first ≤ i
    → i < last
    → is_superset f m v i ≡ some (includes (blocks i) own)
unfolding is_superset block_dependencies
is_superset-HasKeys f m v first last own blocks k i a b =
    rw (k.has_own, is_superset, k.has_blocks i a b, block_dependencies) refl

-- If in a range of existential blocks the map has the dependencies of the variable and of each
-- block's first variable, and the blocks whose dependencies are a superset of the variable's come
-- last, the binary search does not throw and terminates, and gives what a scan of the range gives:
-- the first such block, or the number of existential blocks if there is none.
pub get_minimal_super_set_lem :
    (f : Dqdimacs) (m : Map (List ℕ)) (v first last : ℕ) (own : List ℕ) (blocks : ℕ → List ℕ)
    → first ≤ last
    → last ≤ get_nof_existential_blocks f
    → HasKeys f m v first last own blocks
    → IsUpward (λ i. includes (blocks i) own) first last
    → get_minimal_super_set f m v first last
      ≡ some (
          first_index
            (get_nof_existential_blocks f)
            (λ i. includes (blocks i) own)
            first
            (last - first))
unfolding get_minimal_super_set
get_minimal_super_set_lem f m v first last own blocks l b k d =
    search_first_correct (get_nof_existential_blocks f) (is_superset f m v)
      (λ i. includes (blocks i) own) (last - first) first last l (omega arith) b
      (is_superset-HasKeys f m v first last own blocks k) d
