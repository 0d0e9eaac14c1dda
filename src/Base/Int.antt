-- ===== src/Base/Int.antt =====
-- C++'s `int`, unbounded: the integers over the native numbers, under the library's names.
use Prim.Native.Nat.{
  ℕ, zero, suc, ◌+◌, ◌-◌, ◌/◌, ◌*◌, ◌%◌, ◌≤◌, bit_xor, digits, differ, bit_xor-bitwise,
}
use mathlib.Core.Path.{◌≡◌, refl, ◌∙◌}
use mathlib.Core.Bool.{Bool, true, false}
use mathlib.Core.Logic.{◌↔◌}
use native.Mathlib.Omega.{arith}
use pedant_solver.Base.Tests.{leb, ◌==◌, if◌then◌else◌}

-- `negsuc n` is -(n + 1).
pub data ℤ : Type 0 where
  pos : ℕ → ℤ
  negsuc : ℕ → ℤ

-- -a
abbrev pub neg : ℤ → ℤ
neg (pos zero) = pos 0
neg (pos (suc n)) = negsuc n
neg (negsuc n) = pos (suc n)

-- abs(a)
abbrev pub abs : ℤ → ℕ
abs (pos n) = n
abs (negsuc n) = suc n

-- a > 0
abbrev pub is_pos : ℤ → Bool
is_pos (pos zero) = false
is_pos (pos (suc n)) = true
is_pos (negsuc n) = false

-- a < 0
abbrev pub is_neg : ℤ → Bool
is_neg (pos n) = false
is_neg (negsuc n) = true

-- The conversion of `bool` to `int`.
abbrev pub of_bool : Bool → ℤ
of_bool true = pos 1
of_bool false = pos 0

-- a ^ b on two's complement: the complement of n is -(n + 1).
unfoldable pub xor : ℤ → ℤ → ℤ
xor (pos a) (pos b) = pos (bit_xor a b)
xor (pos a) (negsuc b) = negsuc (bit_xor a b)
xor (negsuc a) (pos b) = negsuc (bit_xor a b)
xor (negsuc a) (negsuc b) = pos (bit_xor a b)

abbrev pub pos_part : ℤ → ℕ
pos_part (pos n) = n
pos_part (negsuc n) = 0

abbrev pub neg_part : ℤ → ℕ
neg_part (pos n) = 0
neg_part (negsuc n) = suc n

infixl 65 ◌+ℤ◌
unfoldable pub ◌+ℤ◌ : ℤ → ℤ → ℤ
a +ℤ b =
    let m = pos_part a + pos_part b in
    let n = neg_part a + neg_part b in if leb n m then pos (m - n) else negsuc (n - m - 1)

-- a == b
abbrev pub eq_ℤ : ℤ → ℤ → Bool
eq_ℤ (pos m) (pos n) = m == n
eq_ℤ (negsuc m) (negsuc n) = m == n
eq_ℤ (pos m) (negsuc n) = false
eq_ℤ (negsuc m) (pos n) = false

pub eq_ℤ_iff : (a b : ℤ) → (eq_ℤ a b ≡ true) ↔ (a ≡ b)
eq_ℤ_iff a b = ground arith

differ-zero : (a : ℕ) → differ a 0 ≡ a
differ-zero zero = refl
differ-zero (suc a) = refl

xor_digits-zero : (n a : ℕ) → a ≤ n → digits (λ b. b) differ n a 0 ≡ a
xor_digits-zero zero a h = omega arith
xor_digits-zero (suc n) zero h = refl
xor_digits-zero (suc n) (suc a) h =
    omega (arith, xor_digits-zero n (suc a / 2) (omega arith), differ-zero (suc a % 2))

pub bit_xor-zero : (a : ℕ) → bit_xor a 0 ≡ a
bit_xor-zero a = bit_xor-bitwise a 0 ∙ xor_digits-zero a a (omega arith)

differ-one : (d : ℕ) → d ≤ 1 → differ d 1 ≡ 1 - d
differ-one zero h = refl
differ-one (suc zero) h = refl
differ-one (suc (suc d)) h = absurd (omega arith)

-- x ^ 1 flips the lowest digit.
pub bit_xor-one : (x : ℕ) → bit_xor x 1 ≡ x / 2 * 2 + (1 - x % 2)
bit_xor-one zero = bit_xor-bitwise 0 1
bit_xor-one (suc n) =
    bit_xor-bitwise (suc n) 1
    ∙ omega
        (arith, xor_digits-zero n (suc n / 2) (omega arith), differ-one (suc n % 2) (omega arith))

-- The idiom `(v ^ -negated) + negated` of the sources changes the sign where `negated` holds.
pub xor_add :
    (v : ℕ) (negated : Bool)
    → xor (pos v) (neg (of_bool negated)) +ℤ of_bool negated
      ≡ (if negated then neg (pos v) else pos v)
unfolding xor ◌+ℤ◌
xor_add v negated = ground (arith, bit_xor-zero v)

pub neg-neg : (a : ℤ) → neg (neg a) ≡ a
neg-neg (pos zero) = refl
neg-neg (pos (suc n)) = refl
neg-neg (negsuc n) = refl

pub abs-neg : (a : ℤ) → abs (neg a) ≡ abs a
abs-neg (pos zero) = refl
abs-neg (pos (suc n)) = refl
abs-neg (negsuc n) = refl
