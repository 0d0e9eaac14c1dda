-- ===== src/Extractor/BlockSearch/Last.antt =====
-- The search for the last block whose dependencies are a subset.
use pedant_solver.Base.{
  ℕ, zero, suc, ◌+◌, ◌-◌, ◌/◌, ◌≤◌, ◌<◌, ◌≡◌, refl, sym, ap, ◌∙◌, inl, inr, Bool, true, false, some,
  Option, List, arith, ◌==◌, if◌then◌else◌, Bool-cases, ==_refl,
}
use pedant_solver.Base.Int.{ℤ, pos, negsuc, abs, is_neg}
use pedant_solver.Base.Maps.{Map}
use pedant_solver.Base.Sets.{includes}
use pedant_solver.Dqdimacs.{Dqdimacs}
use pedant_solver.Extractor.BlockSearch.{
  max_index, is_subset, block_dependencies, HasKeys, search_last, get_maximal_sub_set,
}

-- The same by a scan of the range that begins at an index and has a length.
pub last_index : (ℕ → Bool) → ℕ → ℕ → ℤ
last_index p i zero = negsuc 0
last_index p i (suc n) =
    let rest = last_index p (suc i) n in
    if is_neg rest then if p i then pos i else negsuc 0 else rest

last_index_neg :
    (p : ℕ → Bool) (i n : ℕ) → is_neg (last_index p i n) ≡ true → last_index p i n ≡ negsuc 0
unfolding last_index
last_index_neg p i zero h = refl
last_index_neg p i (suc n) h = ground (arith, last_index_neg p (suc i) n)

-- A scan in two parts.
last_index-split :
    (p : ℕ → Bool) (i a b m k : ℕ)
    → m ≡ a + b
    → k ≡ i + a
    → last_index p i m ≡ (if is_neg (last_index p k b) then last_index p i a else last_index p k b)
unfolding last_index
last_index-split p i zero b m k e h =
    let here : m ≡ b = omega arith in
    let from : k ≡ i = omega arith in rw (here, from) (ground (arith, last_index_neg p i b))
last_index-split p i (suc a) b zero k e h = ground arith
last_index-split p i (suc a) b (suc m) k e h =
    ground (arith, last_index-split p (suc i) a b m k (omega arith) (omega arith))

-- A range on which the test fails.
last_index_none :
    (p : ℕ → Bool) (i n : ℕ)
    → ((j : ℕ) → i ≤ j → j < i + n → p j ≡ false)
    → last_index p i n ≡ negsuc 0
unfolding last_index
last_index_none p i zero h = refl
last_index_none p i (suc n) h = ground (
  arith,
  last_index_none p (suc i) n (λ j l r. h j (omega arith) (omega arith)),
  h i (omega arith) (omega arith),
)

last_index_bound :
    (p : ℕ → Bool) (i n : ℕ) → is_neg (last_index p i n) ≡ false → i ≤ abs (last_index p i n)
unfolding last_index
last_index_bound p i zero h = ground arith
last_index_bound p i (suc n) h = ground (arith, last_index_bound p (suc i) n)

-- The tests that pass come first in the range.
abbrev pub IsDownward : (ℕ → Bool) → ℕ → ℕ → Type 0
IsDownward p first last = (i j : ℕ) → first ≤ i → i ≤ j → j < last → p j ≡ true → p i ≡ true

last_index_through :
    (p : ℕ → Bool) (first mid last : ℕ)
    → first ≤ mid
    → mid < last
    → p mid ≡ true
    → last_index p first (last - first) ≡ max_index (last_index p (mid + 1) (last - (mid + 1))) mid
unfolding last_index
last_index_through p first mid last l r h =
    let size : last - mid ≡ suc (last - suc mid) = omega arith in
    let next : mid + 1 ≡ suc mid = omega arith in
    last_index-split p first (mid - first) (last - mid) (last - first) mid (omega arith)
      (omega arith)
    ∙ rw (size, next)
        (ground (
          arith,
          last_index_bound p (suc mid) (last - suc mid),
          last_index_neg p (suc mid) (last - suc mid),
        ))

last_index_left :
    (p : ℕ → Bool) (first mid last : ℕ)
    → first ≤ mid
    → mid < last
    → IsDownward p first last
    → p mid ≡ false
    → last_index p first (last - first) ≡ last_index p first (mid - first)
last_index_left p first mid last l r d h =
    let none_right =
      last_index_none p mid (last - mid) (λ j a b. ground (arith, d mid j l a (omega arith))) in
    last_index-split p first (mid - first) (last - mid) (last - first) mid (omega arith)
      (omega arith)
    ∙ rw none_right refl

search_last_correct :
    (p : ℕ → Option Bool) (q : ℕ → Bool) (fuel first last : ℕ)
    → first ≤ last
    → last ≤ first + fuel
    → ((i : ℕ) → first ≤ i → i < last → p i ≡ some (q i))
    → IsDownward q first last
    → search_last p fuel first last ≡ some (last_index q first (last - first))
unfolding search_last last_index
search_last_correct p q zero first last l f h d =
    let same : first ≡ last = omega arith in
    let size : last - last ≡ 0 = omega arith in rw (same, size, ==_refl last) refl
search_last_correct p q (suc fuel) first last l f h d = elim (Bool-cases (first == last)) [
  | inl e ↦ let size : last - first ≡ 0 = ground arith in rw (e, size) refl
  | inr e ↦
      let mid = (first + last) / 2 in
      let lower : first ≤ mid = ground arith in
      let upper : mid < last = ground arith in
      elim (Bool-cases (q mid)) [
        | inl t ↦
            rw
              (
                e,
                h mid lower upper,
                t,
                search_last_correct p q fuel (mid + 1) last (omega arith) (omega arith)
                    (λ i a b. h i (omega arith) b) (λ i j a b c. d i j (omega arith) b c),
              )
              (ap some (sym (last_index_through q first mid last lower upper t)))
        | inr t ↦
            rw (e, h mid lower upper, t)
              (search_last_correct p q fuel first mid lower (omega arith)
                  (λ i a b. h i a (omega arith)) (λ i j a b c. d i j a b (omega arith))
                ∙ ap some (sym (last_index_left q first mid last lower upper d t)))
      ]
]

is_subset-HasKeys :
    (f : Dqdimacs) (m : Map (List ℕ)) (v first last : ℕ) (own : List ℕ) (blocks : ℕ → List ℕ)
    → HasKeys f m v first last own blocks
    → (i : ℕ) → first ≤ i
    → i < last
    → is_subset f m v i ≡ some (includes own (blocks i))
unfolding is_subset block_dependencies
is_subset-HasKeys f m v first last own blocks k i a b =
    rw (k.has_own, is_subset, k.has_blocks i a b, block_dependencies) refl

-- If in a range of blocks the map has the dependencies of the variable and of each block's first
-- variable, and the blocks whose dependencies are a subset of the variable's come first, the binary
-- search does not throw and terminates, and gives what a scan of the range gives: the last such
-- block, or -1 if there is none.
pub get_maximal_sub_set_lem :
    (f : Dqdimacs) (m : Map (List ℕ)) (v first last : ℕ) (own : List ℕ) (blocks : ℕ → List ℕ)
    → first ≤ last
    → HasKeys f m v first last own blocks
    → IsDownward (λ i. includes own (blocks i)) first last
    → get_maximal_sub_set f m v first last
      ≡ some (last_index (λ i. includes own (blocks i)) first (last - first))
unfolding get_maximal_sub_set
get_maximal_sub_set_lem f m v first last own blocks l k d =
    search_last_correct (is_subset f m v) (λ i. includes own (blocks i)) (last - first) first last l
      (omega arith) (is_subset-HasKeys f m v first last own blocks k) d
