-- ===== src/Literal/Codes.antt =====
-- The conversions of include/utils.h between literals and MiniSat's codes, and the sign idiom.
use pedant_solver.Base.{ℕ, ◌/◌, ◌%◌, ◌^◌, ◌<◌, ◌≡◌, ◌≢◌, Bool, ◌==◌, arith, if◌then◌else◌, not}
use pedant_solver.Base.Int.{ℤ, pos, neg, is_neg, is_pos, xor_add}
use pedant_solver.Literal.{
  var, lit_from_mini_sat_lit, mini_sat_literal, rename_literal_to, set_literal_sign,
}

pub rename_literal_to_lem :
    (l : ℤ) (t : ℕ) → rename_literal_to l t ≡ (if is_neg l then neg (pos t) else pos t)
unfolding rename_literal_to
rename_literal_to_lem l t = xor_add t (is_neg l)

lit_from_mini_sat_lit_lem :
    (m : ℕ) → lit_from_mini_sat_lit m ≡ (if m % 2 == 1 then neg (pos (m / 2)) else pos (m / 2))
unfolding lit_from_mini_sat_lit
lit_from_mini_sat_lit_lem m = xor_add (m / 2) (m % 2 == 1)

-- Every literal has a code from which it is read back; the code of a variable below 2^30 fits a
-- signed 32-bit integer; and every code but 1 (a negated 0) is the code of the literal read from it.
pub mini_sat_roundtrip :
    (l : ℤ) (m : ℕ)
    → (lit_from_mini_sat_lit (mini_sat_literal l) ≡ l)
      × (var l < 2 ^ 30 → mini_sat_literal l < 2 ^ 31)
      × (m ≢ 1 → mini_sat_literal (lit_from_mini_sat_lit m) ≡ m)
unfolding mini_sat_literal
mini_sat_roundtrip l m = (
  ground (arith, lit_from_mini_sat_lit_lem (mini_sat_literal l)),
  λ h. ground arith,
  λ h. ground (arith, lit_from_mini_sat_lit_lem m),
)

-- Setting a sign keeps the variable, and a variable other than 0 then has just that sign; renaming
-- keeps the sign and takes the new variable.
pub sign_idiom :
    (l : ℤ) (sign : Bool) (t : ℕ)
    → 0 < var l
    → 0 < t
    → (var (set_literal_sign l sign) ≡ var l)
      × (is_pos (set_literal_sign l sign) ≡ sign)
      × (var (rename_literal_to l t) ≡ t)
      × (is_neg (rename_literal_to l t) ≡ is_neg l)
unfolding set_literal_sign
sign_idiom l sign t h k = ground (arith, xor_add (var l) (not sign), rename_literal_to_lem l t)
