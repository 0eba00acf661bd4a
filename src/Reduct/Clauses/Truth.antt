-- ===== src/Reduct/Clauses/Truth.antt =====
-- What clauses mean as conjunctions, and lists of clauses as disjunctions of them.
use asmoses.Base.{
  zero, suc, ◌≡◌, ◌≢◌, refl, Bool, true, false, not, [], ◌∷◌, ◌++◌, arith, if◌then◌else◌,
}
use asmoses.Base.Int.{ℤ, pos, negsuc, neg, eqb_ℤ_iff}
use asmoses.Combo.Denote.{Valuation, literal}
use asmoses.Reduct.Clauses.{
  Clause, Nf, contains, is_included, subset_eq, subset, erase_supersets, erase,
}

pub literal-neg : (σ : Valuation) (x : ℤ) → x ≢ pos 0 → literal σ (neg x) ≡ not (literal σ x)
literal-neg σ (pos zero) h = absurd (h refl)
literal-neg σ (pos (suc n)) h = refl
literal-neg σ (negsuc n) h = ground arith

-- The valuation with every value turned.
abbrev pub flip : Valuation → Valuation
flip σ = λ n. not (σ n)

pub literal-flip : (σ : Valuation) (x : ℤ) → literal (flip σ) x ≡ not (literal σ x)
literal-flip σ (pos n) = refl
literal-flip σ (negsuc n) = refl

module _ (σ : Valuation) where
  unfoldable pub all_hold : Clause → Bool
  all_hold [] = true
  all_hold (x ∷ c) = let rest = all_hold c in if literal σ x then rest else false

  unfoldable pub some_clause : Nf → Bool
  some_clause [] = false
  some_clause (c ∷ f) = let rest = some_clause f in if all_hold c then true else rest

  pub literal_of_holds :
      (c : Clause) (x : ℤ) → all_hold c ≡ true → contains c x ≡ true → literal σ x ≡ true
  unfolding all_hold contains
  literal_of_holds [] x h k = absurd (ground arith)
  literal_of_holds (y ∷ c) x h k = ground (arith, literal_of_holds c x, eqb_ℤ_iff x y)

  pub holds_of_literals :
      (c : Clause) → ((x : ℤ) → contains c x ≡ true → literal σ x ≡ true) → all_hold c ≡ true
  unfolding all_hold contains
  holds_of_literals [] h = refl
  holds_of_literals (y ∷ c) h =
      let first : literal σ y ≡ true = ground (arith, h y, eqb_ℤ_iff y y) in
      let rest = holds_of_literals c (λ x k. ground (arith, h x, k)) in ground (arith, first, rest)

  -- A clause with more literals is stronger.
  pub holds_of_included :
      (c d : Clause) → is_included c d ≡ true → all_hold d ≡ true → all_hold c ≡ true
  unfolding is_included all_hold
  holds_of_included [] d h k = refl
  holds_of_included (x ∷ c) d h k = ground (arith, holds_of_included c d, literal_of_holds d x)

  pub holds_of_subset_eq :
      (c d : Clause) → subset_eq c d ≡ true → all_hold d ≡ true → all_hold c ≡ true
  unfolding subset_eq
  holds_of_subset_eq c d h k = ground (arith, holds_of_included c d)

  pub holds_of_subset : (c d : Clause) → subset c d ≡ true → all_hold d ≡ true → all_hold c ≡ true
  unfolding subset
  holds_of_subset c d h k = ground (arith, holds_of_included c d)

  pub some_clause-append :
      (f g : Nf) → some_clause (f ++ g) ≡ (if some_clause f then true else some_clause g)
  unfolding some_clause
  some_clause-append [] g = refl
  some_clause-append (c ∷ f) g = ground (arith, some_clause-append f g)

  -- Clauses are erased only where a weaker one is known, and none is added.
  pub some-erase_supersets :
      (impl : Clause) (f : Nf) → some_clause (erase_supersets impl f) ≡ true → some_clause f ≡ true
  unfolding some_clause erase_supersets
  some-erase_supersets impl [] h = h
  some-erase_supersets impl (c ∷ f) h = ground (arith, some-erase_supersets impl f)

  pub kept-erase_supersets :
      (impl : Clause) (f : Nf)
      → some_clause f ≡ true
      → all_hold impl ≡ false
      → some_clause (erase_supersets impl f) ≡ true
  unfolding some_clause erase_supersets
  kept-erase_supersets impl [] h k = h
  kept-erase_supersets impl (c ∷ f) h k =
      ground (arith, kept-erase_supersets impl f, holds_of_subset_eq impl c)

pub contains-erase_ne : (x y : ℤ) (c : Clause) → x ≢ y → contains (erase y c) x ≡ contains c x
unfolding contains erase
contains-erase_ne x y [] h = refl
contains-erase_ne x y (z ∷ c) h =
    ground (arith, contains-erase_ne x y c h, eqb_ℤ_iff x y, eqb_ℤ_iff y z, eqb_ℤ_iff x z)

pub contains_of-erase : (x y : ℤ) (c : Clause) → contains (erase y c) x ≡ true → contains c x ≡ true
unfolding contains erase
contains_of-erase x y [] h = h
contains_of-erase x y (z ∷ c) h = ground (arith, contains_of-erase x y c)
