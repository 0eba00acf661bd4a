-- ===== src/Reduct/Clauses/Loops.antt =====
-- The loops over the clauses keep what the disjunction says, keep the clauses good, and end.
use asmoses.Base.{
  ◌≤◌, ◌≡◌, ◌≢◌, refl, ◌∙◌, ◌⊎◌, inl, inr, Bool, true, false, [], ◌∷◌, arith, Bool-cases,
  if◌then◌else◌, length,
}
use asmoses.Base.Int.{ℤ, pos, neg, eqb_ℤ, eqb_ℤ_iff}
use asmoses.Combo.Denote.{Valuation}
use asmoses.Threads.{AllOf}
use asmoses.Reduct.Clauses.{
  Clause, Nf, contains, subset, subset_eq, tautology, erase_supersets, Hand, absorb, absorb_all,
}
use asmoses.Reduct.Clauses.Truth.{
  all_hold, some_clause, literal-neg, holds_of_subset, some-erase_supersets, kept-erase_supersets,
}
use asmoses.Reduct.Clauses.Implied.{IsGood, IsImplied}

AllOf-erase_supersets {ℓ} :
    (Q : Clause → Type ℓ) (impl : Clause) (f : Nf) → AllOf Q f → AllOf Q (erase_supersets impl f)
unfolding AllOf erase_supersets
AllOf-erase_supersets Q impl [] a = tt
AllOf-erase_supersets Q impl (c ∷ f) a = elim (Bool-cases (subset_eq impl c)) [
  | inl e ↦ rw e (AllOf-erase_supersets Q impl f a.1)
  | inr e ↦ rw e ((a.0, AllOf-erase_supersets Q impl f a.1))
]

length-erase_supersets : (impl : Clause) (f : Nf) → length (erase_supersets impl f) ≤ length f
unfolding erase_supersets
length-erase_supersets impl [] = omega arith
length-erase_supersets impl (c ∷ f) = ground (arith, length-erase_supersets impl f)

module _ (σ : Valuation) where
  pub tautology_lem :
      (c : Clause)
      → ((x : ℤ) → contains c x ≡ true → x ≢ pos 0)
      → tautology c ≡ true
      → all_hold σ c ≡ false
  unfolding tautology all_hold contains
  tautology_lem [] k t = absurd (ground arith)
  tautology_lem (x ∷ []) k t = absurd (ground arith)
  tautology_lem (x ∷ y ∷ c) k t =
      let opposite = literal-neg σ y (k y (ground (arith, eqb_ℤ_iff y y))) in
      elim (Bool-cases (eqb_ℤ x (neg y))) [
        | inl e ↦ rw ((eqb_ℤ_iff x (neg y)).0 e, opposite) (ground arith)
        | inr e ↦
            let rest =
              tautology_lem (y ∷ c) (λ z m. k z (ground (arith, m))) (ground (arith, t, e)) in
            ground (arith, rest)
      ]

  -- A clause replaced by a stronger implied one, where that one is false.
  replaced :
      (impl c : Clause)
      → all_hold σ impl ≡ false
      → all_hold σ (if subset impl c then impl else c) ≡ all_hold σ c
  replaced impl c h = ground (arith, holds_of_subset σ impl c)

  weaker :
      (impl c : Clause)
      → all_hold σ c ≡ true
      → all_hold σ (if subset impl c then impl else c) ≡ true
  weaker impl c h = ground (arith, holds_of_subset σ impl c)

  erased :
      (impl : Clause) (f : Nf)
      → all_hold σ impl ≡ false
      → some_clause σ (erase_supersets impl f) ≡ some_clause σ f
  erased impl f h = ground (arith, some-erase_supersets σ impl f, kept-erase_supersets σ impl f)

  unfoldable pub hand_value : Hand → Bool
  hand_value h =
      if all_hold σ h.c2
      then true
      else (if all_hold σ h.c1
          then true
          else (if some_clause σ h.front
              then true
              else (if some_clause σ h.between then true else some_clause σ h.behind)))

  absorb-hand_value :
      (impl : Clause) (h : Hand)
      → (all_hold σ impl ≡ true → (all_hold σ h.c1 ≡ true) ⊎ (all_hold σ h.c2 ≡ true))
      → hand_value (absorb impl h) ≡ hand_value h
  unfolding hand_value absorb
  absorb-hand_value impl h i = elim (Bool-cases (all_hold σ impl)) [
    | inl t ↦ elim (i t) [
      | inl k ↦ ground (arith, weaker impl h.c1 k, k)
      | inr k ↦ ground (arith, weaker impl h.c2 k, k)
    ]
    | inr t ↦
        rw
          (
            replaced impl h.c2 t,
            replaced impl h.c1 t,
            erased impl h.front t,
            erased impl h.between t,
            erased impl h.behind t,
          )
          refl
  ]

  -- What `c` and `d` say together is said by the two clauses in hand.
  pub absorb_all-hand_value :
      (c d : Clause) (impls : Nf) (h : Hand)
      → AllOf (IsImplied c d) impls
      → (all_hold σ c ≡ true → all_hold σ h.c1 ≡ true)
      → (all_hold σ d ≡ true → all_hold σ h.c2 ≡ true)
      → hand_value (absorb_all impls h) ≡ hand_value h
  unfolding absorb_all AllOf absorb
  absorb_all-hand_value c d [] h a p q = refl
  absorb_all-hand_value c d (impl ∷ impls) h a p q =
      absorb_all-hand_value c d impls (absorb impl h) a.1 (λ t. weaker impl h.c1 (p t))
        (λ t. weaker impl h.c2 (q t))
      ∙ absorb-hand_value impl h (λ t. elim (a.0 σ t) [ inl k ↦ inl (p k) | inr k ↦ inr (q k) ])

pub absorb_all-length :
    (impls : Nf) (h : Hand)
    → (length (absorb_all impls h).between ≤ length h.between)
      × (length (absorb_all impls h).behind ≤ length h.behind)
unfolding absorb_all absorb
absorb_all-length [] h = omega arith
absorb_all-length (impl ∷ impls) h =
    let rest = absorb_all-length impls (absorb impl h) in
    omega (arith, rest, length-erase_supersets impl h.between, length-erase_supersets impl h.behind)

-- The clauses in hand are all good.
unfoldable pub HandIsGood : (ℤ → Type 0) → Hand → Type 0
HandIsGood P h =
    AllOf (IsGood P) h.front
    × IsGood P h.c2
    × AllOf (IsGood P) h.between
    × IsGood P h.c1
    × AllOf (IsGood P) h.behind

chosen-IsGood :
    {P : ℤ → Type 0} (b : Bool) (c d : Clause)
    → IsGood P c
    → IsGood P d
    → IsGood P (if b then c else d)
chosen-IsGood true c d gc gd = gc
chosen-IsGood false c d gc gd = gd

module _ (P : ℤ → Type 0) where
  pub absorb_all-HandIsGood :
      (impls : Nf) (h : Hand)
      → AllOf (IsGood P) impls
      → HandIsGood P h
      → HandIsGood P (absorb_all impls h)
  unfolding absorb_all absorb AllOf HandIsGood
  absorb_all-HandIsGood [] h a g = g
  absorb_all-HandIsGood (impl ∷ impls) h a g = absorb_all-HandIsGood impls (absorb impl h) a.1 (
    AllOf-erase_supersets (IsGood P) impl h.front g.0,
    chosen-IsGood (subset impl h.c2) impl h.c2 a.0 g.1,
    AllOf-erase_supersets (IsGood P) impl h.between g.2,
    chosen-IsGood (subset impl h.c1) impl h.c1 a.0 g.3,
    AllOf-erase_supersets (IsGood P) impl h.behind g.4,
  )
