-- ===== src/Logger/Process/Extended.antt =====
-- The clauses for a variable after its forcing clauses, under an extension of an assignment.
use pedant_solver.Base.{
  ℕ, ◌+◌, ◌<◌, ◌≡◌, refl, Bool, true, not, ◌&&◌, ◌||◌, List, [], ◌∷◌, arith, All, all-append,
}
use pedant_solver.Base.Int.{ℤ, pos, neg}
use pedant_solver.Formula.{Clause, Assignment, eval_lit, eval_clause, eval_formula, eval_lit-neg}
use pedant_solver.Logger.Writer.{Writer, write_formula_to_stream, add_to_count}
use pedant_solver.Logger.Writer.Values.{satisfies, IsUsed, IsUsed-IsClause}
use pedant_solver.Logger.Writer.Extension.{
  Extends, AllUsed, IsReady, Extension, eval_lit-Extends, eval_clause-Extends, eval_formula-Extends,
  update, update-Extends,
}
use pedant_solver.Logger.Process.{
  write_constant, write_one_sided, write_two_sided, write_default_function,
}
use pedant_solver.Logger.Process.Value.{
  write_constant_eq, write_constant_none, write_one_sided-value, write_two_sided-value,
}

update_self : (a : Assignment) (m : ℕ) (x : Bool) → update a m x m ≡ x
unfolding update
update_self a m x = ground arith

pub write_constant-Extension :
    (a : Assignment) (k : ℤ) (active : List ℤ) (w : Writer)
    → IsReady w
    → IsUsed w.unused_variable k
    → All (IsUsed w.unused_variable) active
    → satisfies a w ≡ true
    → eval_lit a k ≡ not (eval_clause a active)
    → Extension a w.unused_variable (write_constant k active w)
write_constant-Extension a k [] w r uk ua s e =
    (a, (λ v h. refl), ground (arith, s, e, write_constant_none a k w))
write_constant-Extension a k (l ∷ active) w r uk ua s e =
    let u = w.unused_variable in
    let value = not (eval_clause a (l ∷ active)) in
    let b = update a u value in
    let x = update-Extends a u value in
    (
      b,
      x,
      ground (
        arith,
        s,
        e,
        write_constant_eq b k l active w uk.0 (IsUsed-IsClause u (l ∷ active) ua) r.0,
        update_self a u value,
        eval_lit-Extends u a b k uk x,
        eval_clause-Extends u a b (l ∷ active) ua x,
        eval_formula-Extends u a b w.out r.1 x,
      ),
    )

write_one_sided-Extension :
    (a : Assignment) (forced : ℤ) (active : List ℤ) (defaults : List Clause) (w : Writer)
    → IsReady w
    → IsUsed w.unused_variable forced
    → All (IsUsed w.unused_variable) active
    → AllUsed w.unused_variable defaults
    → satisfies a w ≡ true
    → ((not (eval_clause a active) || eval_lit a forced)
        && (eval_clause a active || eval_formula a defaults))
      ≡ true
    → Extension a w.unused_variable (write_one_sided forced active defaults w)
write_one_sided-Extension a forced active defaults w r uf ua ud s e =
    let u = w.unused_variable in
    let value = not (eval_clause a active) in
    let b = update a u value in
    let x = update-Extends a u value in
    (
      b,
      x,
      ground (
        arith,
        s,
        e,
        write_one_sided-value b forced active defaults w (IsUsed-IsClause u active ua) r.0,
        update_self a u value,
        eval_lit-Extends u a b forced uf x,
        eval_clause-Extends u a b active ua x,
        eval_formula-Extends u a b defaults ud x,
        eval_formula-Extends u a b w.out r.1 x,
      ),
    )

-- Three variables are introduced one after the other.
update_three : Assignment → ℕ → Bool → Bool → Bool → Assignment
unfolding update
update_three a u x y z = update (update (update a u x) (u + 1) y) (u + 2) z

update_three-values :
    (a : Assignment) (u : ℕ) (x y z : Bool)
    → Extends u a (update_three a u x y z)
      × (update_three a u x y z u ≡ x)
      × (update_three a u x y z (u + 1) ≡ y)
      × (update_three a u x y z (u + 2) ≡ z)
unfolding update_three
update_three-values a u x y z = ((λ v h. ground arith), ground arith, ground arith, ground arith)

write_two_sided-Extension :
    (a : Assignment) (e : ℤ) (ps ns : List ℤ) (defaults : List Clause) (w : Writer)
    → IsReady w
    → IsUsed w.unused_variable e
    → All (IsUsed w.unused_variable) ps
    → All (IsUsed w.unused_variable) ns
    → AllUsed w.unused_variable defaults
    → satisfies a w ≡ true
    → ((not (eval_clause a ps) || eval_lit a e)
        && (not (eval_clause a ns) || not (eval_lit a e))
        && (eval_clause a ps || eval_clause a ns || eval_formula a defaults))
      ≡ true
    → Extension a w.unused_variable (write_two_sided e ps ns defaults w)
write_two_sided-Extension a e ps ns defaults w r ue up un ud s h =
    let u = w.unused_variable in
    let p = eval_clause a ps in
    let n = eval_clause a ns in
    let b = update_three a u (not p) (not n) (not (p || n)) in
    let t = update_three-values a u (not p) (not n) (not (p || n)) in
    (
      b,
      t.0,
      ground (
        arith,
        s,
        h,
        write_two_sided-value b e ps ns defaults w ue.0 (IsUsed-IsClause u ps up)
            (IsUsed-IsClause u ns un) r.0,
        t.1,
        t.2,
        t.3,
        eval_lit-Extends u a b e ue t.0,
        eval_clause-Extends u a b ps up t.0,
        eval_clause-Extends u a b ns un t.0,
        eval_formula-Extends u a b defaults ud t.0,
        eval_formula-Extends u a b w.out r.1 t.0,
      ),
    )

pub write_default_function-Extension :
    (a : Assignment) (e : ℕ) (ps ns : List ℤ) (defaults : List Clause) (w : Writer)
    → IsReady w
    → 0 < e
    → e < w.unused_variable
    → All (IsUsed w.unused_variable) ps
    → All (IsUsed w.unused_variable) ns
    → AllUsed w.unused_variable defaults
    → satisfies a w ≡ true
    → ((not (eval_clause a ps) || a e)
        && (not (eval_clause a ns) || not (a e))
        && (eval_clause a ps || eval_clause a ns || eval_formula a defaults))
      ≡ true
    → Extension a w.unused_variable (write_default_function (pos e) ps ns defaults w)
unfolding write_default_function write_formula_to_stream add_to_count
write_default_function-Extension a e [] [] defaults w r he lt up un ud s h =
    (a, (λ v k. refl), ground (arith, s, h, all-append (eval_clause a) w.out defaults))
write_default_function-Extension a e [] (n ∷ ns) defaults w r he lt up un ud s h =
    write_one_sided-Extension a (neg (pos e)) (n ∷ ns) defaults w r (ground (arith, he, lt)) un ud s
      (ground (arith, h, eval_lit-neg a (pos e) he))
write_default_function-Extension a e (p ∷ ps) [] defaults w r he lt up un ud s h =
    write_one_sided-Extension a (pos e) (p ∷ ps) defaults w r (he, lt) up ud s (ground (arith, h))
write_default_function-Extension a e (p ∷ ps) (n ∷ ns) defaults w r he lt up un ud s h =
    write_two_sided-Extension a (pos e) (p ∷ ps) (n ∷ ns) defaults w r (he, lt) up un ud s h
