-- ===== src/Reduct/Clauses/Implied.antt =====
-- The clauses of `implications` are implied by the two that they come from, and are as good.
use asmoses.Base.{
  ◌≡◌, ◌≢◌, refl, sym, ◌∙◌, ◌⊎◌, inl, inr, Bool, true, false, [], ◌∷◌, arith, Bool-cases, ap,
}
use asmoses.Base.Int.{ℤ, pos, neg, eqb_ℤ, eqb_ℤ_iff, neg-neg}
use asmoses.Combo.Denote.{Valuation, literal}
use asmoses.Threads.{AllOf, AllOf-append}
use asmoses.Reduct.Clauses.{Clause, contains, tautology, resolvent, implications_of, implications}
use asmoses.Reduct.Clauses.Truth.{
  all_hold, literal-neg, literal_of_holds, holds_of_literals, contains-erase_ne, contains_of-erase,
}
use asmoses.Reduct.Clauses.Consistent.{IsConsistent, consistent_lem}
use asmoses.Reduct.Clauses.Sorted.{
  IsAbsoluteOrder, IsSorted, erase-IsSorted, insert_all-IsSorted, contains-insert_all,
  kept-insert_all, contains_of-insert_all,
}

-- A sorted clause of known literals, none of them with its negation.
pub record IsGood (P : ℤ → Type 0) (c : Clause) : Type 0 where
  pub sorted : IsSorted c
  pub consistent : IsConsistent c
  pub known : (x : ℤ) → contains c x ≡ true → P x

-- Where the third clause holds, one of the others does.
abbrev pub IsImplied : Clause → Clause → Clause → Type 0
IsImplied c d r =
    (σ : Valuation) → all_hold σ r ≡ true → (all_hold σ c ≡ true) ⊎ (all_hold σ d ≡ true)

-- What is known of each clause that `implications` gives.
abbrev pub IsSound : (ℤ → Type 0) → Clause → Clause → Clause → Type 0
IsSound P c d r = IsGood P r × IsImplied c d r

module _ (before : ℤ → ℤ → Bool) (order : IsAbsoluteOrder before) (P : ℤ → Type 0)
    (nonzero : (x : ℤ) → P x → x ≢ pos 0) where
  left_in :
      (c d : Clause) (x y z : ℤ)
      → contains c z ≡ true
      → z ≢ x
      → z ≢ y
      → contains (resolvent before c d x y) z ≡ true
  unfolding resolvent
  left_in c d x y z h p q =
      contains-erase_ne z y _ q
      ∙ contains-erase_ne z x _ p
      ∙ kept-insert_all before order d _ z (contains-insert_all before order c [] z h)

  right_in :
      (c d : Clause) (x y z : ℤ)
      → contains d z ≡ true
      → z ≢ x
      → z ≢ y
      → contains (resolvent before c d x y) z ≡ true
  unfolding resolvent
  right_in c d x y z h p q =
      contains-erase_ne z y _ q
      ∙ contains-erase_ne z x _ p
      ∙ contains-insert_all before order d _ z h

  module _ (c d : Clause) (gc : IsGood P c) (gd : IsGood P d) where
    resolvent-IsImplied :
        (x y : ℤ)
        → contains c x ≡ true
        → contains d y ≡ true
        → x ≡ neg y
        → IsImplied c d (resolvent before c d x y)
    resolvent-IsImplied x y cx dy e σ h =
        let yx : y ≡ neg x = sym (neg-neg y) ∙ ap neg (sym e) in
        let values = literal-neg σ x (nonzero x (gc.known x cx)) in
        elim (Bool-cases (literal σ x)) [
          | inl t ↦ inl (
              holds_of_literals σ c (λ z k. elim (Bool-cases (eqb_ℤ z x)) [
                | inl p ↦ rw ((eqb_ℤ_iff z x).0 p) t
                | inr p ↦
                    let ny : z ≢ y = λ q. ground (arith, gc.consistent x cx, rw (q ∙ yx) at k) in
                    let nx : z ≢ x = λ q. ground (arith, p, eqb_ℤ_iff z x, q) in
                    literal_of_holds σ _ z h (left_in c d x y z k nx ny)
              ]))
          | inr t ↦ inr (
              holds_of_literals σ d (λ z k. elim (Bool-cases (eqb_ℤ z y)) [
                | inl p ↦ rw ((eqb_ℤ_iff z y).0 p, yx, values, t) refl
                | inr p ↦
                    let nx : z ≢ x = λ q. ground (arith, gd.consistent y dy, rw (q ∙ e) at k) in
                    let ny : z ≢ y = λ q. ground (arith, p, eqb_ℤ_iff z y, q) in
                    literal_of_holds σ _ z h (right_in c d x y z k nx ny)
              ]))
        ]

    known_in : (x y z : ℤ) → contains (resolvent before c d x y) z ≡ true → P z
    unfolding resolvent contains
    known_in x y z k =
        let k1 = contains_of-erase z x _ (contains_of-erase z y _ k) in
        elim (contains_of-insert_all before order d _ z k1) [
          | inl m ↦ gd.known z m
          | inr m ↦ elim (contains_of-insert_all before order c [] z m) [
            | inl m' ↦ gc.known z m'
            | inr m' ↦ absurd (ground arith)
          ]
        ]

    resolvent-IsGood :
        (x y : ℤ)
        → tautology (resolvent before c d x y) ≡ false
        → IsGood P (resolvent before c d x y)
    unfolding resolvent IsSorted
    resolvent-IsGood x y t =
        let s = erase-IsSorted y _ (
          erase-IsSorted x _
            (insert_all-IsSorted before order d _ (insert_all-IsSorted before order c [] tt))) in
        let known : (z : ℤ) → contains (resolvent before c d x y) z ≡ true → P z = known_in x y in
        record {
          sorted = s;
          consistent =
              consistent_lem _ s
                (elim (Bool-cases (contains (resolvent before c d x y) (pos 0))) [
                  | inl k ↦ absurd (nonzero (pos 0) (known (pos 0) k) refl)
                  | inr k ↦ k
                ])
                t;
          known = known;
        }

    implications_of-IsSound :
        (x : ℤ) (ys : Clause)
        → contains c x ≡ true
        → ((y : ℤ) → contains ys y ≡ true → contains d y ≡ true)
        → AllOf (IsSound P c d) (implications_of before c d x ys)
    unfolding implications_of AllOf contains
    implications_of-IsSound x [] cx sub = tt
    implications_of-IsSound x (y ∷ ys) cx sub =
        let rest = implications_of-IsSound x ys cx (λ z k. sub z (ground (arith, k))) in
        elim (Bool-cases (eqb_ℤ x (neg y))) [
          | inr e ↦ rw e rest
          | inl e ↦
              let dy = sub y (ground (arith, eqb_ℤ_iff y y)) in
              elim (Bool-cases (tautology (resolvent before c d x y))) [
                | inl t ↦ rw (e, t) rest
                | inr t ↦
                    rw (e, t)
                      ((
                        (
                          resolvent-IsGood x y t,
                          resolvent-IsImplied x y cx dy ((eqb_ℤ_iff x (neg y)).0 e),
                        ),
                        rest,
                      ))
              ]
        ]

    pub implications-IsSound :
        (xs : Clause)
        → ((x : ℤ) → contains xs x ≡ true → contains c x ≡ true)
        → AllOf (IsSound P c d) (implications before c d xs)
    unfolding implications AllOf contains
    implications-IsSound [] sub = tt
    implications-IsSound (x ∷ xs) sub =
        AllOf-append (IsSound P c d) (implications_of before c d x d) (implications before c d xs)
          (implications_of-IsSound x d (sub x (ground (arith, eqb_ℤ_iff x x))) (λ y k. k))
          (implications-IsSound xs (λ z k. sub z (ground (arith, k))))
