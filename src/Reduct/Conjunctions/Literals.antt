-- ===== src/Reduct/Conjunctions/Literals.antt =====
-- Clauses of negated literals, and the literals that clauses share.
use asmoses.Base.{
  ◌≡◌, ◌≢◌, refl, sym, ap, ◌∙◌, inl, inr, Bool, true, [], ◌∷◌, map, arith, Bool-cases,
}
use asmoses.Base.Int.{ℤ, pos, neg, neg-neg, eqb_ℤ, eqb_ℤ_iff}
use asmoses.Combo.Denote.{Valuation, literal}
use asmoses.Reduct.Clauses.{Clause, contains, erase}
use asmoses.Reduct.Clauses.Truth.{
  flip, literal-flip, all_hold, literal-neg, literal_of_holds, holds_of_literals, contains_of-erase,
}
use asmoses.Reduct.Clauses.Sorted.{
  IsAbsoluteOrder, IsSorted, insert_all-IsSorted, contains-insert_all, contains_of-insert_all,
}
use asmoses.Reduct.Conjunctions.{negate_clause, erase_literals}

neg_test : (z y : ℤ) → eqb_ℤ z (neg y) ≡ eqb_ℤ (neg z) y
neg_test z y = elim (Bool-cases (eqb_ℤ z (neg y))) [
  | inl e ↦
      let p = (eqb_ℤ_iff z (neg y)).0 e in e ∙ sym ((eqb_ℤ_iff (neg z) y).1 (ap neg p ∙ neg-neg y))
  | inr e ↦ elim (Bool-cases (eqb_ℤ (neg z) y)) [
    | inr g ↦ e ∙ sym g
    | inl g ↦
        let p : z ≡ neg y = sym (neg-neg z) ∙ ap neg ((eqb_ℤ_iff (neg z) y).0 g) in
        absurd (ground (arith, e, (eqb_ℤ_iff z (neg y)).1 p))
  ]
]

contains-map-neg : (c : Clause) (z : ℤ) → contains (map neg c) z ≡ contains c (neg z)
unfolding contains
contains-map-neg [] z = refl
contains-map-neg (y ∷ c) z =
    let rest = contains-map-neg c z in
    let same : eqb_ℤ z (neg y) ≡ eqb_ℤ (neg z) y = neg_test z y in rw (same, rest) refl

all_hold_twice : (σ : Valuation) (c : Clause) → all_hold (flip (flip σ)) c ≡ all_hold σ c
unfolding all_hold
all_hold_twice σ [] = refl
all_hold_twice σ (x ∷ c) =
    let rest = all_hold_twice σ c in
    let once = literal-flip σ x in
    let twice = literal-flip (flip σ) x in ground (arith, rest, once, twice)

abbrev pub NonZeros : Clause → Type 0
NonZeros c = (x : ℤ) → contains c x ≡ true → x ≢ pos 0

module _ (before : ℤ → ℤ → Bool) (sorting : IsAbsoluteOrder before) where
  pub negate_clause-IsSorted : (c : Clause) → IsSorted (negate_clause before c)
  unfolding negate_clause IsSorted
  negate_clause-IsSorted c = insert_all-IsSorted before sorting (map neg c) [] tt

  pub in-negate_clause :
      (c : Clause) (z : ℤ) → contains c (neg z) ≡ true → contains (negate_clause before c) z ≡ true
  unfolding negate_clause
  in-negate_clause c z h =
      contains-insert_all before sorting (map neg c) [] z (contains-map-neg c z ∙ h)

  pub of-negate_clause :
      (c : Clause) (z : ℤ) → contains (negate_clause before c) z ≡ true → contains c (neg z) ≡ true
  unfolding negate_clause contains
  of-negate_clause c z h = elim (contains_of-insert_all before sorting (map neg c) [] z h) [
    | inl k ↦ sym (contains-map-neg c z) ∙ k
    | inr k ↦ absurd (ground arith)
  ]

  -- The negated literals all hold where the literals all hold under the turned valuation.
  pub all_hold-negate_clause :
      (σ : Valuation) (c : Clause)
      → NonZeros c
      → all_hold σ (negate_clause before c) ≡ all_hold (flip σ) c
  all_hold-negate_clause σ c n = elim (Bool-cases (all_hold (flip σ) c)) [
    | inl t ↦
        holds_of_literals σ (negate_clause before c) (λ z k.
          let m = of-negate_clause c z k in
          let value = literal_of_holds (flip σ) c (neg z) t m in
          let turned = literal-flip σ (neg z) in
          let opposite = literal-neg σ (neg z) (n (neg z) m) in
          let same = ap (literal σ) (neg-neg z) in ground (arith, value, turned, opposite, same))
        ∙ sym t
    | inr t ↦ elim (Bool-cases (all_hold σ (negate_clause before c))) [
      | inr u ↦ u ∙ sym t
      | inl u ↦
          let whole : all_hold (flip σ) c ≡ true = holds_of_literals (flip σ) c (λ z k.
            let m = in-negate_clause c (neg z) (ap (contains c) (neg-neg z) ∙ k) in
            let value = literal_of_holds σ _ (neg z) u m in
            let turned = literal-flip σ z in
            let opposite = literal-neg σ z (n z k) in ground (arith, value, turned, opposite)) in
          absurd (ground (arith, whole, t))
    ]
  ]

  pub turned-negate_clause :
      (σ : Valuation) (c : Clause)
      → NonZeros c
      → all_hold (flip σ) (negate_clause before c) ≡ all_hold σ c
  turned-negate_clause σ c n = all_hold-negate_clause (flip σ) c n ∙ all_hold_twice σ c

pub of-erase_literals :
    (xs c : Clause) (z : ℤ) → contains (erase_literals xs c) z ≡ true → contains c z ≡ true
unfolding erase_literals
of-erase_literals [] c z h = h
of-erase_literals (x ∷ xs) c z h = contains_of-erase z x c (of-erase_literals xs (erase x c) z h)
