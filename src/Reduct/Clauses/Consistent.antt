-- ===== src/Reduct/Clauses/Consistent.antt =====
-- A sorted clause that is no tautology holds no literal together with its negation.
use asmoses.Base.{
  zero, suc, ◌+◌, ◌≤◌, ◌≡◌, ◌≢◌, refl, sym, ap, ◌∙◌, inl, inr, true, false, [], ◌∷◌, arith,
  Bool-cases,
}
use asmoses.Base.Int.{ℤ, pos, negsuc, neg, neg-neg, eqb_ℤ, eqb_ℤ_iff}
use asmoses.Reduct.Clauses.{Clause, contains, tautology}
use asmoses.Reduct.Clauses.Sorted.{rank, AllAfter, IsSorted, AllAfter-contains}

-- No literal stands with its negation.
abbrev pub IsConsistent : Clause → Type 0
IsConsistent c = (x : ℤ) → contains c x ≡ true → contains c (neg x) ≡ false

rank-neg : (x : ℤ) → (rank (neg x) ≤ rank x + 1) × (rank x ≤ rank (neg x) + 1)
unfolding rank
rank-neg (pos zero) = omega arith
rank-neg (pos (suc n)) = omega arith
rank-neg (negsuc n) = omega arith

neg-ne : (x : ℤ) → x ≢ pos 0 → x ≢ neg x
neg-ne (pos zero) h = absurd (h refl)
neg-ne (pos (suc n)) h = ground arith
neg-ne (negsuc n) h = ground arith

neg_eq : (x y : ℤ) → neg x ≡ y → x ≡ neg y
neg_eq x y e = sym (neg-neg x) ∙ ap neg e

-- In a sorted clause a literal and its negation are neighbours, so `tautology` finds them.
neighbours :
    (c : Clause) (x : ℤ)
    → x ≢ pos 0
    → IsSorted c
    → tautology c ≡ false
    → contains c x ≡ true
    → contains c (neg x) ≡ true
    → ⊥
unfolding IsSorted AllAfter tautology contains
neighbours [] x n s t p q = ground arith
neighbours (a ∷ []) x n s t p q = ground (arith, eqb_ℤ_iff x a, eqb_ℤ_iff (neg x) a, neg-ne x n)
neighbours (a ∷ b ∷ c) x n s t p q = elim (Bool-cases (eqb_ℤ x a)) [
  | inl e ↦
      let xa = (eqb_ℤ_iff x a).0 e in
      elim (Bool-cases (eqb_ℤ (neg x) b)) [
        | inl g ↦
            let ab : a ≡ neg b = sym xa ∙ neg_eq x b ((eqb_ℤ_iff (neg x) b).0 g) in
            ground (arith, t, eqb_ℤ_iff a (neg b), ab)
        | inr g ↦
            let apart : eqb_ℤ (neg x) a ≡ false =
              ground (arith, xa, neg-ne x n, eqb_ℤ_iff (neg x) a) in
            let m : contains c (neg x) ≡ true = ground (arith, q, g, apart) in
            let r = AllAfter-contains b (neg x) c s.1.0 m in
            omega (arith, r, s.0.0, rank-neg x, ap rank xa)
      ]
  | inr e ↦ elim (Bool-cases (eqb_ℤ (neg x) a)) [
    | inl i ↦
        let na = (eqb_ℤ_iff (neg x) a).0 i in
        elim (Bool-cases (eqb_ℤ x b)) [
          | inl g ↦
              let ab : a ≡ neg b = sym na ∙ ap neg ((eqb_ℤ_iff x b).0 g) in
              ground (arith, t, eqb_ℤ_iff a (neg b), ab)
          | inr g ↦
              let m : contains c x ≡ true = ground (arith, p, e, g) in
              let r = AllAfter-contains b x c s.1.0 m in
              omega (arith, r, s.0.0, rank-neg x, ap rank na)
        ]
    | inr i ↦
        neighbours (b ∷ c) x n s.1 (ground (arith, t)) (ground (arith, p, e)) (ground (arith, q, i))
  ]
]

pub consistent_lem :
    (c : Clause) → IsSorted c → contains c (pos 0) ≡ false → tautology c ≡ false → IsConsistent c
consistent_lem c s z t x p = elim (Bool-cases (contains c (neg x))) [
  | inl q ↦
      let n : x ≢ pos 0 = λ e. ground (arith, z, rw e at p) in absurd (neighbours c x n s t p q)
  | inr q ↦ q
]
