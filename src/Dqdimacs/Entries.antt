-- ===== src/Dqdimacs/Entries.antt =====
-- The literals and variables of a formula of dqdimacs.cc are those that its operations were given.
use pedant_solver.Base.{
  ℕ, ◌≤◌, max, ◌≡◌, refl, inl, inr, Bool, true, List, [], ◌∷◌, arith, ◌==◌, Bool-cases, All,
  All-append,
}
use pedant_solver.Base.Maps.{Map, assign}
use pedant_solver.Base.Int.{ℤ}
use pedant_solver.Formula.{Clause}
use pedant_solver.Dqdimacs.{
  Dqdimacs, new_dqdimacs, add_clause, add_universal_block, add_existential_block,
  add_explicit_dependencies, universal_inserted, universal_closed, existential_inserted,
  existential_closed, checked_max_var, max_with,
}

max_with_bound : (m : ℕ) (vs : List ℕ) → (m ≤ max_with m vs) × All (λ v. v ≤ max_with m vs) vs
unfolding max_with
max_with_bound m [] = (omega arith, tt)
max_with_bound m (v ∷ vs) =
    let rest = max_with_bound (max m v) vs in (omega arith, (omega arith, rest.1))

module _ (OkLit : ℤ → Type 0) (OkVar : ℕ → Type 0) where
  -- The literals of the matrix have one property, the variables of the prefix another, and the
  -- variables of the blocks are at most `max_var`.
  pub record HasEntries (f : Dqdimacs) : Type 0 where
    pub checked : f.check_max_var ≡ true
    pub literals : All (All OkLit) f.matrix
    pub universals : All OkVar f.universal_variables
    pub existentials : All OkVar f.existential_variables
    pub dependencies : All (λ e. OkVar e.0 × All OkVar e.1) f.explicit_dependencies
    pub universals_bound : All (λ v. v ≤ f.max_var) f.universal_variables
    pub existentials_bound : All (λ v. v ≤ f.max_var) f.existential_variables
    pub dependencies_bound : All (λ e. e.0 ≤ f.max_var) f.explicit_dependencies

All-map {ℓ} :
    {A : Type ℓ} (P Q : A → Type 0) (xs : List A) → ((x : A) → P x → Q x) → All P xs → All Q xs
All-map P Q [] f h = tt
All-map P Q (x ∷ xs) f h = (f x h.0, All-map P Q xs f h.1)

All-assign :
    (P : ℕ × List ℕ → Type 0) (m : Map (List ℕ)) (k : ℕ) (v : List ℕ)
    → All P m
    → P (k, v)
    → All P (assign m k v)
unfolding assign
All-assign P [] k v h p = (p, tt)
All-assign P ((j, w) ∷ m) k v h p = elim (Bool-cases (j == k)) [
  | inl e ↦ rw e (p, h.1)
  | inr e ↦ rw e (h.0, All-assign P m k v h.1 p)
]

-- A greater bound is a bound.
bound_mono : (m n : ℕ) (vs : List ℕ) → m ≤ n → All (λ v. v ≤ m) vs → All (λ v. v ≤ n) vs
bound_mono m n vs h = All-map _ _ vs (λ v p. omega arith)

keys_bound_mono :
    (m n : ℕ) (deps : Map (List ℕ)) → m ≤ n → All (λ e. e.0 ≤ m) deps → All (λ e. e.0 ≤ n) deps
keys_bound_mono m n deps h = All-map _ _ deps (λ e p. omega arith)

module _ (OkLit : ℤ → Type 0) (OkVar : ℕ → Type 0) where
  pub new_dqdimacs-HasEntries : (junk : Bool) → HasEntries OkLit OkVar (new_dqdimacs junk)
  unfolding new_dqdimacs
  new_dqdimacs-HasEntries junk = record {
    checked = refl;
    literals = tt;
    universals = tt;
    existentials = tt;
    dependencies = tt;
    universals_bound = tt;
    existentials_bound = tt;
    dependencies_bound = tt;
  }

  pub add_clause-HasEntries :
      (c : Clause) (f : Dqdimacs)
      → All OkLit c
      → HasEntries OkLit OkVar f
      → HasEntries OkLit OkVar (add_clause c f)
  unfolding add_clause
  add_clause-HasEntries c f h i = record {
    checked = i.checked;
    literals = All-append _ f.matrix (c ∷ []) i.literals (h, tt);
    universals = i.universals;
    existentials = i.existentials;
    dependencies = i.dependencies;
    universals_bound = i.universals_bound;
    existentials_bound = i.existentials_bound;
    dependencies_bound = i.dependencies_bound;
  }

  pub add_universal_block-HasEntries :
      (vs : List ℕ) (f : Dqdimacs)
      → All OkVar vs
      → HasEntries OkLit OkVar f
      → HasEntries OkLit OkVar (add_universal_block vs f)
  unfolding add_universal_block universal_inserted universal_closed checked_max_var
  add_universal_block-HasEntries [] f h i = i
  add_universal_block-HasEntries (v ∷ vs) f h i =
      let bound = max_with_bound f.max_var (v ∷ vs) in
      rw i.checked (record {
        checked = refl;
        literals = i.literals;
        universals = All-append _ f.universal_variables (v ∷ vs) i.universals h;
        existentials = i.existentials;
        dependencies = i.dependencies;
        universals_bound =
            All-append _ f.universal_variables (v ∷ vs)
              (bound_mono _ _ f.universal_variables bound.0 i.universals_bound) bound.1;
        existentials_bound = bound_mono _ _ f.existential_variables bound.0 i.existentials_bound;
        dependencies_bound =
            keys_bound_mono _ _ f.explicit_dependencies bound.0 i.dependencies_bound;
      })

  pub add_existential_block-HasEntries :
      (vs : List ℕ) (f : Dqdimacs)
      → All OkVar vs
      → HasEntries OkLit OkVar f
      → HasEntries OkLit OkVar (add_existential_block vs f)
  unfolding add_existential_block existential_inserted existential_closed checked_max_var
  add_existential_block-HasEntries [] f h i = i
  add_existential_block-HasEntries (v ∷ vs) f h i =
      let bound = max_with_bound f.max_var (v ∷ vs) in
      rw i.checked (record {
        checked = refl;
        literals = i.literals;
        universals = i.universals;
        existentials = All-append _ f.existential_variables (v ∷ vs) i.existentials h;
        dependencies = i.dependencies;
        universals_bound = bound_mono _ _ f.universal_variables bound.0 i.universals_bound;
        existentials_bound =
            All-append _ f.existential_variables (v ∷ vs)
              (bound_mono _ _ f.existential_variables bound.0 i.existentials_bound) bound.1;
        dependencies_bound =
            keys_bound_mono _ _ f.explicit_dependencies bound.0 i.dependencies_bound;
      })

  pub add_explicit_dependencies-HasEntries :
      (v : ℕ) (deps : List ℕ) (f : Dqdimacs)
      → OkVar v
      → All OkVar deps
      → HasEntries OkLit OkVar f
      → HasEntries OkLit OkVar (add_explicit_dependencies v deps f)
  unfolding add_explicit_dependencies
  add_explicit_dependencies-HasEntries v deps f hv hd i = rw i.checked (record {
    checked = refl;
    literals = i.literals;
    universals = i.universals;
    existentials = i.existentials;
    dependencies = All-assign _ f.explicit_dependencies v deps i.dependencies (hv, hd);
    universals_bound = bound_mono _ _ f.universal_variables (omega arith) i.universals_bound;
    existentials_bound = bound_mono _ _ f.existential_variables (omega arith) i.existentials_bound;
    dependencies_bound =
        All-assign _ f.explicit_dependencies v deps
          (keys_bound_mono _ _ f.explicit_dependencies (omega arith) i.dependencies_bound)
          (omega arith);
  })
