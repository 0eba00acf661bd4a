-- ===== src/Reduct/Clauses/Erasing.antt =====
-- Erasing tautologies and clauses that contain another keeps what the disjunction says.
use asmoses.Base.{
  append-nil, ◌≡◌, ◌≢◌, refl, inl, inr, true, false, [], ◌∷◌, ◌++◌, arith, Bool-cases,
  if◌then◌else◌,
}
use asmoses.Base.Int.{ℤ, pos}
use asmoses.Combo.Denote.{Valuation}
use asmoses.Threads.{AllOf, AllOf-append}
use asmoses.Reduct.Clauses.{
  Clause, Nf, contains, subset_eq, tautology, remove_tautologies, erase_among, erase_pairs,
}
use asmoses.Reduct.Clauses.Truth.{all_hold, some_clause, holds_of_subset_eq, some_clause-append}
use asmoses.Reduct.Clauses.Consistent.{consistent_lem}
use asmoses.Reduct.Clauses.Sorted.{IsSorted}
use asmoses.Reduct.Clauses.Implied.{IsGood}
use asmoses.Reduct.Clauses.Loops.{tautology_lem}

-- A clause as it is read in: sorted, of known literals.
abbrev pub IsRead : (ℤ → Type 0) → Clause → Type 0
IsRead P c = IsSorted c × ((x : ℤ) → contains c x ≡ true → P x)

module _ (P : ℤ → Type 0) (nonzero : (x : ℤ) → P x → x ≢ pos 0) where
  IsRead-IsGood : (c : Clause) → IsRead P c → tautology c ≡ false → IsGood P c
  IsRead-IsGood c r t = record {
    sorted = r.0;
    consistent =
        consistent_lem c r.0
          (elim (Bool-cases (contains c (pos 0))) [
            | inl k ↦ absurd (nonzero (pos 0) (r.1 (pos 0) k) refl)
            | inr k ↦ k
          ])
          t;
    known = r.1;
  }

  pub remove_tautologies-IsGood :
      (f : Nf) → AllOf (IsRead P) f → AllOf (IsGood P) (remove_tautologies f)
  unfolding remove_tautologies AllOf
  remove_tautologies-IsGood [] a = tt
  remove_tautologies-IsGood (c ∷ f) a = elim (Bool-cases (tautology c)) [
    | inl t ↦ rw t (remove_tautologies-IsGood f a.1)
    | inr t ↦ rw t ((IsRead-IsGood c a.0 t, remove_tautologies-IsGood f a.1))
  ]

  pub some_clause-remove_tautologies :
      (σ : Valuation) (f : Nf)
      → AllOf (IsRead P) f
      → some_clause σ (remove_tautologies f) ≡ some_clause σ f
  unfolding remove_tautologies AllOf some_clause
  some_clause-remove_tautologies σ [] a = refl
  some_clause-remove_tautologies σ (c ∷ f) a =
      let rest = some_clause-remove_tautologies σ f a.1 in
      let never = tautology_lem σ c (λ x k. nonzero x (a.0.1 x k)) in
      elim (Bool-cases (tautology c)) [
        | inl t ↦ rw (t, rest, never t) refl
        | inr t ↦ rw (t, rest) refl
      ]

AllOf-erase_among {ℓ} :
    (Q : Clause → Type ℓ) (c : Clause) (f : Nf) → AllOf Q f → AllOf Q (erase_among c f).0
unfolding AllOf erase_among
AllOf-erase_among Q c [] a = tt
AllOf-erase_among Q c (d ∷ f) a =
    let rest = AllOf-erase_among Q c f a.1 in
    elim (Bool-cases (subset_eq c d)) [
      | inl e ↦ rw e rest
      | inr e ↦ elim (Bool-cases (subset_eq d c)) [
        | inl g ↦ rw (e, g) ((a.0, a.1))
        | inr g ↦ rw (e, g) ((a.0, rest))
      ]
    ]

pub AllOf-erase_pairs {ℓ} :
    (Q : Clause → Type ℓ) (kept f : Nf) → AllOf Q kept → AllOf Q f → AllOf Q (erase_pairs kept f)
unfolding AllOf erase_pairs
AllOf-erase_pairs Q kept [] a b = a
AllOf-erase_pairs Q kept (c ∷ f) a b =
    let among = AllOf-erase_among Q c kept a in
    elim (Bool-cases (erase_among c kept).1) [
      | inl e ↦ rw e (
          AllOf-erase_pairs Q ((erase_among c kept).0 ++ (c ∷ [])) f
            (AllOf-append Q (erase_among c kept).0 (c ∷ []) among (b.0, tt)) b.1)
      | inr e ↦ rw e (AllOf-erase_pairs Q (erase_among c kept).0 f among b.1)
    ]

module _ (σ : Valuation) where
  some_clause-erase_among :
      (c : Clause) (f : Nf)
      → (if some_clause σ (erase_among c f).0
          then true
          else (if (erase_among c f).1 then all_hold σ c else false))
        ≡ (if some_clause σ f then true else all_hold σ c)
  unfolding erase_among some_clause
  some_clause-erase_among c [] = refl
  some_clause-erase_among c (d ∷ f) =
      let rest = some_clause-erase_among c f in
      elim (Bool-cases (subset_eq c d)) [
        | inl e ↦ ground (arith, rest, e, holds_of_subset_eq σ c d)
        | inr e ↦ elim (Bool-cases (subset_eq d c)) [
          | inl g ↦ rw (e, g) (ground (arith, holds_of_subset_eq σ d c))
          | inr g ↦ rw (e, g) (ground (arith, rest))
        ]
      ]

  pub some_clause-erase_pairs :
      (kept f : Nf) → some_clause σ (erase_pairs kept f) ≡ some_clause σ (kept ++ f)
  unfolding erase_pairs some_clause
  some_clause-erase_pairs kept [] = rw (append-nil kept) refl
  some_clause-erase_pairs kept (c ∷ f) =
      let among = some_clause-erase_among c kept in
      let r = erase_among c kept in
      elim (Bool-cases r.1) [
        | inl e ↦ rw e (
            ground (
              arith,
              among,
              e,
              some_clause-erase_pairs (r.0 ++ (c ∷ [])) f,
              some_clause-append σ (r.0 ++ (c ∷ [])) f,
              some_clause-append σ r.0 (c ∷ []),
              some_clause-append σ kept (c ∷ f),
            ))
        | inr e ↦ rw e (
            ground (
              arith,
              among,
              e,
              some_clause-erase_pairs r.0 f,
              some_clause-append σ r.0 f,
              some_clause-append σ kept (c ∷ f),
            ))
      ]
