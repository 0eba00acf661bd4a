-- ===== src/Reduct/Conjunctions/Shared.antt =====
-- The literals that all clauses share, and the clauses without them.
use asmoses.Base.{
  ◌≤◌, ◌≡◌, ◌≢◌, refl, ap, ◌∙◌, ◌⊎◌, inl, inr, true, false, [], ◌∷◌, map, arith, Bool-cases,
  if◌then◌else◌, length, ◌==◌,
}
use asmoses.Base.Int.{ℤ, eqb_ℤ, eqb_ℤ_iff}
use mathlib.Core.List.{Memᴰ}
use mathlib.Core.List.Memᴰ.{head, tail}
use asmoses.Combo.Denote.{Valuation}
use asmoses.Threads.{AllOf}
use asmoses.Reduct.Clauses.{Clause, Nf, contains, erase}
use asmoses.Reduct.Clauses.Truth.{
  all_hold, some_clause, literal_of_holds, holds_of_literals, contains-erase_ne,
}
use asmoses.Reduct.Clauses.Sorted.{IsSorted, AllAfter-contains, erase-IsSorted, rank}
use asmoses.Reduct.Clauses.Antichain.{Sub, NoStrict}
use asmoses.Reduct.Conjunctions.{common, common_of, intersection, erase_literals}
use asmoses.Reduct.Conjunctions.Literals.{of-erase_literals}

of-common :
    (c d : Clause) (z : ℤ)
    → contains (common c d) z ≡ true
    → (contains c z ≡ true) × (contains d z ≡ true)
unfolding common contains
of-common [] d z h = absurd (ground arith)
of-common (x ∷ c) d z h = ground (arith, of-common c d z, eqb_ℤ_iff z x, h)

of-common_of :
    (i : Clause) (f : Nf) (z : ℤ)
    → contains (common_of i f) z ≡ true
    → (contains i z ≡ true) × ((c : Clause) → Memᴰ c f → contains c z ≡ true)
unfolding common_of contains
of-common_of [] [] z h = absurd (ground arith)
of-common_of (x ∷ i) [] z h = (h, λ c m. elim m [ ])
of-common_of [] (c ∷ f) z h = absurd (ground arith)
of-common_of (x ∷ i) (c ∷ f) z h =
    let rest = of-common_of (common (x ∷ i) c) f z (ground (arith, h)) in
    let both = of-common (x ∷ i) c z rest.0 in
    (both.0, λ d m. elim m [ head p ↦ rw p both.1 | tail k ↦ rest.1 d k ])

pub of-intersection : (f : Nf) (c : Clause) → Memᴰ c f → Sub (intersection f) c
unfolding intersection contains
of-intersection [] c m z h = elim m [ ]
of-intersection (d ∷ f) c m z h =
    let rest = of-common_of d f z (ground (arith, h)) in
    elim m [ head p ↦ rw p rest.0 | tail k ↦ rest.1 c k ]

pub intersection-several : (f : Nf) → 1 ≤ length (intersection f) → 2 ≤ length f
unfolding intersection
intersection-several [] h = absurd (omega arith)
intersection-several (d ∷ f) h = ground (arith, h)

in-erase_literals :
    (xs c : Clause) (z : ℤ)
    → contains c z ≡ true
    → contains xs z ≡ false
    → contains (erase_literals xs c) z ≡ true
unfolding erase_literals contains
in-erase_literals [] c z h k = h
in-erase_literals (x ∷ xs) c z h k =
    let apart : z ≢ x = λ e. ground (arith, k, (eqb_ℤ_iff z x).1 e) in
    in-erase_literals xs (erase x c) z (contains-erase_ne z x c apart ∙ h) (ground (arith, k))

all_hold-erase_literals :
    (σ : Valuation) (xs c : Clause)
    → Sub xs c
    → all_hold σ c ≡ (if all_hold σ xs then all_hold σ (erase_literals xs c) else false)
all_hold-erase_literals σ xs c s = elim (Bool-cases (all_hold σ c)) [
  | inl t ↦
      let first : all_hold σ xs ≡ true =
        holds_of_literals σ xs (λ z k. literal_of_holds σ c z t (s z k)) in
      let rest : all_hold σ (erase_literals xs c) ≡ true =
        holds_of_literals σ (erase_literals xs c)
          (λ z k. literal_of_holds σ c z t (of-erase_literals xs c z k)) in
      rw (t, first, rest) refl
  | inr t ↦ elim (Bool-cases (all_hold σ xs)) [
    | inr u ↦ rw (t, u) refl
    | inl u ↦ elim (Bool-cases (all_hold σ (erase_literals xs c))) [
      | inr w ↦ rw (t, u, w) refl
      | inl w ↦
          let whole : all_hold σ c ≡ true = holds_of_literals σ c (λ z k.
            elim (Bool-cases (contains xs z)) [
              | inl e ↦ literal_of_holds σ xs z u e
              | inr e ↦ literal_of_holds σ _ z w (in-erase_literals xs c z k e)
            ]) in
          absurd (ground (arith, whole, t))
    ]
  ]
]

pub some_clause-erase_literals :
    (σ : Valuation) (xs : Clause) (f : Nf)
    → ((c : Clause) → Memᴰ c f → Sub xs c)
    → some_clause σ f ≡ (if all_hold σ xs then some_clause σ (map (erase_literals xs) f) else false)
unfolding some_clause
some_clause-erase_literals σ xs [] s = ground arith
some_clause-erase_literals σ xs (c ∷ f) s =
    let here = all_hold-erase_literals σ xs c (s c (head refl)) in
    let rest = some_clause-erase_literals σ xs f (λ d m. s d (tail m)) in
    rw (here, rest) (ground arith)

empty_has : (c : Clause) (z : ℤ) → length c ≡ 0 → contains c z ≡ true → ⊥
unfolding contains
empty_has [] z e h = ground arith
empty_has (x ∷ c) z e h = omega (arith, e)

nothing_left : (xs c : Clause) → length (erase_literals xs c) ≡ 0 → Sub c xs
nothing_left xs c e z h = elim (Bool-cases (contains xs z)) [
  | inl k ↦ k
  | inr k ↦ absurd (empty_has (erase_literals xs c) z e (in-erase_literals xs c z h k))
]

erase_self : (x : ℤ) (c : Clause) → IsSorted c → contains (erase x c) x ≡ false
unfolding erase contains IsSorted
erase_self x [] s = refl
erase_self x (y ∷ c) s = elim (Bool-cases (eqb_ℤ x y)) [
  | inl e ↦
      let p = (eqb_ℤ_iff x y).0 e in
      rw (erase, e)
        (elim (Bool-cases (contains c x)) [
          | inl k ↦ absurd (omega (arith, AllAfter-contains y x c s.0 k, ap rank p))
          | inr k ↦ k
        ])
  | inr e ↦ rw (erase, e) (ground (arith, erase_self x c s.1, e))
]

erased_gone :
    (xs c : Clause) (z : ℤ)
    → IsSorted c
    → contains xs z ≡ true
    → contains (erase_literals xs c) z ≡ false
unfolding erase_literals contains
erased_gone [] c z s h = absurd (ground arith)
erased_gone (x ∷ xs) c z s h = elim (Bool-cases (contains (erase_literals xs (erase x c)) z)) [
  | inr k ↦ k
  | inl k ↦
      let inside = of-erase_literals xs (erase x c) z k in
      elim (Bool-cases (eqb_ℤ z x)) [
        | inl e ↦
            let p = (eqb_ℤ_iff z x).0 e in
            let none_left = erase_self x c s in absurd (ground (arith, none_left, rw p at inside))
        | inr e ↦
            let rest = erased_gone xs (erase x c) z (erase-IsSorted x c s) (ground (arith, h, e)) in
            absurd (ground (arith, rest, k))
      ]
]

empty_of_none : (c : Clause) → ((z : ℤ) → contains c z ≡ true → ⊥) → length c ≡ 0
unfolding contains
empty_of_none [] h = refl
empty_of_none (x ∷ c) h = absurd (h x (ground (arith, eqb_ℤ_iff x x)))

all_erased : (xs c : Clause) → IsSorted c → Sub c xs → length (erase_literals xs c) ≡ 0
all_erased xs c s h =
    empty_of_none (erase_literals xs c)
      (λ z k. ground (arith, erased_gone xs c z s (h z (of-erase_literals xs c z k)), k))

pub AllOf-map {ℓ} :
    (R : Clause → Type ℓ) (g : Clause → Clause) (f : Nf)
    → ((c : Clause) → Memᴰ c f → R (g c))
    → AllOf R (map g f)
unfolding AllOf
AllOf-map R g [] h = tt
AllOf-map R g (c ∷ f) h = (h c (head refl), AllOf-map R g f (λ d m. h d (tail m)))

-- Without the literals that all clauses share, all clauses are empty or none is, if no clause is strictly
-- inside another.
pub all_or_none :
    (xs : Clause) (f : Nf)
    → ((c : Clause) → Memᴰ c f → Sub xs c)
    → ((c : Clause) → Memᴰ c f → IsSorted c)
    → NoStrict f
    → AllOf (λ c. length c ≡ 0) (map (erase_literals xs) f)
      ⊎ AllOf (λ c. 1 ≤ length c) (map (erase_literals xs) f)
unfolding AllOf
all_or_none xs [] sub sorted n = inl tt
all_or_none xs (c ∷ f) sub sorted n = elim (Bool-cases (length (erase_literals xs c) == 0)) [
  | inl e ↦
      let inside = nothing_left xs c (ground (arith, e)) in
      inl (
        AllOf-map (λ d. length d ≡ 0) (erase_literals xs) (c ∷ f)
          (λ d m.
            let back = n c d (head refl) m (λ z k. sub d m z (inside z k)) in
            all_erased xs d (sorted d m) (λ z k. inside z (back z k))))
  | inr e ↦ inr (
      AllOf-map (λ d. 1 ≤ length d) (erase_literals xs) (c ∷ f)
        (λ d m. elim (Bool-cases (length (erase_literals xs d) == 0)) [
          | inr g ↦ ground (arith, g)
          | inl g ↦
              let inside = nothing_left xs d (ground (arith, g)) in
              let back = n d c m (head refl) (λ z k. sub c (head refl) z (inside z k)) in
              let gone = all_erased xs c (sorted c (head refl)) (λ z k. inside z (back z k)) in
              absurd (ground (arith, gone, e))
        ]))
]
