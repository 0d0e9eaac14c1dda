-- ===== src/Base/Maps.antt =====
-- `std::unordered_map<int, T>` with variables for keys: an association list whose order is one of
-- the orders in which the program may iterate.
use Prim.Native.Nat.{ℕ}
use mathlib.Core.Path.{◌≡◌, refl, ◌∙◌}
use mathlib.Core.Bool.{Bool, true, false}
use mathlib.Core.Option.{Option, none, some}
use mathlib.Core.List.{List, [], ◌∷◌}
use native.Mathlib.Omega.{arith}
use pedant_solver.Base.Tests.{◌==◌, if◌then◌else◌}

abbrev pub Map {ℓ} : Type ℓ → Type ℓ
Map V = List (ℕ × V)

module _ {ℓ} {V : Type ℓ} where
  -- `m.find(k)`, and `m.at(k)` where it is known to succeed
  unfoldable pub find : Map V → ℕ → Option V
  find [] k = none
  find ((j, v) ∷ m) k = if j == k then some v else find m k

  -- `m[k] = v`
  unfoldable pub assign : Map V → ℕ → V → Map V
  assign [] k v = (k, v) ∷ []
  assign ((j, w) ∷ m) k v = if j == k then (k, v) ∷ m else (j, w) ∷ assign m k v

  -- `m.erase(k)`
  unfoldable pub erase : Map V → ℕ → Map V
  erase [] k = []
  erase ((j, w) ∷ m) k = let rest = erase m k in if j == k then rest else (j, w) ∷ rest

  -- `m.find(k) != m.end()`
  unfoldable pub has : Map V → ℕ → Bool
  unfolding find
  has m k = elim (find m k) [ none ↦ false | some v ↦ true ]

  -- `m.emplace(k, v)` leaves a present key as it is.
  unfoldable pub emplace : Map V → ℕ → V → Map V
  emplace m k v = elim (find m k) [ none ↦ (k, v) ∷ m | some w ↦ m ]

  -- `m[k]`, which inserts the default `d` for a missing key
  unfoldable pub at_or : Map V → ℕ → V → V
  at_or m k d = elim (find m k) [ none ↦ d | some v ↦ v ]

  pub find-assign :
      (m : Map V) (k j : ℕ) (v : V) → find (assign m k v) j ≡ (if k == j then some v else find m j)
  unfolding find assign
  find-assign [] k j v = refl
  find-assign ((i, w) ∷ m) k j v = ground (arith, find-assign m k j v)

  pub find-erase : (m : Map V) (k j : ℕ) → find (erase m k) j ≡ (if k == j then none else find m j)
  unfolding find erase
  find-erase [] k j = ground arith
  find-erase ((i, w) ∷ m) k j = ground (arith, find-erase m k j)

  pub find-emplace :
      (m : Map V) (k j : ℕ) (v : V)
      → find (emplace m k v) j ≡ (if has m j then find m j else if k == j then some v else none)
  unfolding find emplace has
  find-emplace m k j v = ground arith

  pub find-emplace_new :
      (m : Map V) (k j : ℕ) (v : V)
      → find m j ≡ none
      → find (emplace m k v) j ≡ (if k == j then some v else none)
  unfolding has
  find-emplace_new m k j v e =
      let absent : has m j ≡ false = rw (e, has) refl in find-emplace m k j v ∙ rw absent refl

  pub find-emplace_old :
      (m : Map V) (k j : ℕ) (v w : V) → find m j ≡ some w → find (emplace m k v) j ≡ some w
  unfolding has
  find-emplace_old m k j v w e =
      let present : has m j ≡ true = rw (e, has) refl in find-emplace m k j v ∙ rw present e

pub ruleset map_laws = (find-assign, find-erase, find-emplace)
