-- ===== src/Reduct/Clauses/Sorted.antt =====
-- Clauses in the order of the absolute value, in which a literal stands next to its negation.
use asmoses.Base.{
  ℕ, ◌+◌, ◌*◌, ◌<◌, ◌≡◌, ◌↔◌, refl, inl, inr, Bool, true, [], ◌∷◌, arith, Bool-cases, ◌⊎◌,
}
use asmoses.Base.Int.{ℤ, pos, negsuc, eqb_ℤ, eqb_ℤ_iff}
use asmoses.Reduct.Clauses.{Clause, contains, erase, insert, insert_all}

-- The place of a literal: by the absolute value, the negative one of a pair first.
unfoldable pub rank : ℤ → ℕ
rank (pos n) = n * 2 + 1
rank (negsuc n) = (n + 1) * 2

abbrev pub IsAbsoluteOrder : (ℤ → ℤ → Bool) → Type 0
IsAbsoluteOrder before = (x y : ℤ) → (before x y ≡ true) ↔ (rank x < rank y)

unfoldable pub AllAfter : ℤ → Clause → Type 0
AllAfter x [] = Unit
AllAfter x (y ∷ c) = (rank x < rank y) × AllAfter x c

unfoldable pub IsSorted : Clause → Type 0
IsSorted [] = Unit
IsSorted (x ∷ c) = AllAfter x c × IsSorted c

rank-injective : (x y : ℤ) → rank x ≡ rank y → x ≡ y
unfolding rank
rank-injective (pos a) (pos b) h = let e : a ≡ b = omega arith in rw e refl
rank-injective (negsuc a) (negsuc b) h = let e : a ≡ b = omega arith in rw e refl
rank-injective (pos a) (negsuc b) h = absurd (omega arith)
rank-injective (negsuc a) (pos b) h = absurd (omega arith)

AllAfter-lower : (x y : ℤ) (c : Clause) → rank x < rank y → AllAfter y c → AllAfter x c
unfolding AllAfter
AllAfter-lower x y [] h a = tt
AllAfter-lower x y (z ∷ c) h a = (omega (arith, h, a.0), AllAfter-lower x y c h a.1)

pub AllAfter-contains :
    (x y : ℤ) (c : Clause) → AllAfter x c → contains c y ≡ true → rank x < rank y
unfolding AllAfter contains
AllAfter-contains x y [] a h = absurd (ground arith)
AllAfter-contains x y (z ∷ c) a h = elim (Bool-cases (eqb_ℤ y z)) [
  | inl e ↦ let p = (eqb_ℤ_iff y z).0 e in rw p a.0
  | inr e ↦ AllAfter-contains x y c a.1 (ground (arith, e, h))
]

AllAfter-erase : (x y : ℤ) (c : Clause) → AllAfter x c → AllAfter x (erase y c)
unfolding AllAfter erase
AllAfter-erase x y [] a = tt
AllAfter-erase x y (z ∷ c) a = elim (Bool-cases (eqb_ℤ y z)) [
  | inl e ↦ rw e a.1
  | inr e ↦ rw e ((a.0, AllAfter-erase x y c a.1))
]

pub erase-IsSorted : (y : ℤ) (c : Clause) → IsSorted c → IsSorted (erase y c)
unfolding IsSorted erase
erase-IsSorted y [] s = tt
erase-IsSorted y (z ∷ c) s = elim (Bool-cases (eqb_ℤ y z)) [
  | inl e ↦ rw e s.1
  | inr e ↦ rw e ((AllAfter-erase z y c s.0, erase-IsSorted y c s.1))
]

module _ (before : ℤ → ℤ → Bool) (order : IsAbsoluteOrder before) where
  AllAfter-insert :
      (z x : ℤ) (c : Clause) → rank z < rank x → AllAfter z c → AllAfter z (insert before x c)
  unfolding AllAfter insert
  AllAfter-insert z x [] h a = (h, tt)
  AllAfter-insert z x (y ∷ c) h a = elim (Bool-cases (before x y)) [
    | inl e ↦ rw e ((h, a))
    | inr e ↦ elim (Bool-cases (before y x)) [
      | inl g ↦ rw (e, g) ((a.0, AllAfter-insert z x c h a.1))
      | inr g ↦ rw (e, g) a
    ]
  ]

  pub insert-IsSorted : (x : ℤ) (c : Clause) → IsSorted c → IsSorted (insert before x c)
  unfolding IsSorted AllAfter insert
  insert-IsSorted x [] s = (tt, tt)
  insert-IsSorted x (y ∷ c) s = elim (Bool-cases (before x y)) [
    | inl e ↦ let l = (order x y).0 e in rw e (((l, AllAfter-lower x y c l s.0), s))
    | inr e ↦ elim (Bool-cases (before y x)) [
      | inl g ↦ rw (e, g) ((AllAfter-insert y x c ((order y x).0 g) s.0, insert-IsSorted x c s.1))
      | inr g ↦ rw (e, g) s
    ]
  ]

  -- A literal that is not put in stands there already.
  pub contains-insert_self : (x : ℤ) (c : Clause) → contains (insert before x c) x ≡ true
  unfolding contains insert
  contains-insert_self x [] = ground (arith, eqb_ℤ_iff x x)
  contains-insert_self x (y ∷ c) = elim (Bool-cases (before x y)) [
    | inl e ↦ rw e (ground (arith, eqb_ℤ_iff x x))
    | inr e ↦ elim (Bool-cases (before y x)) [
      | inl g ↦ rw (e, g) (ground (arith, contains-insert_self x c))
      | inr g ↦
          let p = rank-injective x y (ground (arith, order x y, order y x, e, g)) in
          rw (e, g) (ground (arith, eqb_ℤ_iff x y, p))
    ]
  ]

  pub contains-insert :
      (x z : ℤ) (c : Clause) → contains c z ≡ true → contains (insert before x c) z ≡ true
  unfolding contains insert
  contains-insert x z [] h = absurd (ground arith)
  contains-insert x z (y ∷ c) h = ground (arith, contains-insert x z c)

  pub contains_of-insert :
      (x z : ℤ) (c : Clause)
      → contains (insert before x c) z ≡ true
      → (z ≡ x) ⊎ (contains c z ≡ true)
  unfolding contains insert
  contains_of-insert x z [] h = inl (ground (arith, eqb_ℤ_iff z x, h))
  contains_of-insert x z (y ∷ c) h = elim (Bool-cases (before x y)) [
    | inl e ↦ elim (Bool-cases (eqb_ℤ z x)) [
      | inl p ↦ inl ((eqb_ℤ_iff z x).0 p)
      | inr p ↦ inr (ground (arith, h, e, p))
    ]
    | inr e ↦ elim (Bool-cases (before y x)) [
      | inl g ↦ elim (Bool-cases (eqb_ℤ z y)) [
        | inl p ↦ inr (ground (arith, p))
        | inr p ↦ elim (contains_of-insert x z c (ground (arith, h, e, g, p))) [
          | inl q ↦ inl q
          | inr q ↦ inr (ground (arith, p, q))
        ]
      ]
      | inr g ↦ inr (ground (arith, h, e, g))
    ]
  ]

  pub insert_all-IsSorted : (xs c : Clause) → IsSorted c → IsSorted (insert_all before xs c)
  unfolding insert_all
  insert_all-IsSorted [] c s = s
  insert_all-IsSorted (x ∷ xs) c s =
      insert_all-IsSorted xs (insert before x c) (insert-IsSorted x c s)

  pub kept-insert_all :
      (xs c : Clause) (z : ℤ) → contains c z ≡ true → contains (insert_all before xs c) z ≡ true
  unfolding insert_all
  kept-insert_all [] c z h = h
  kept-insert_all (x ∷ xs) c z h =
      kept-insert_all xs (insert before x c) z (contains-insert x z c h)

  pub contains-insert_all :
      (xs c : Clause) (z : ℤ) → contains xs z ≡ true → contains (insert_all before xs c) z ≡ true
  unfolding insert_all contains
  contains-insert_all [] c z h = absurd (ground arith)
  contains-insert_all (x ∷ xs) c z h = elim (Bool-cases (eqb_ℤ z x)) [
    | inl p ↦
        let same = (eqb_ℤ_iff z x).0 p in
        rw same (kept-insert_all xs (insert before x c) x (contains-insert_self x c))
    | inr p ↦ contains-insert_all xs (insert before x c) z (ground (arith, h, p))
  ]

  pub contains_of-insert_all :
      (xs c : Clause) (z : ℤ)
      → contains (insert_all before xs c) z ≡ true
      → (contains xs z ≡ true) ⊎ (contains c z ≡ true)
  unfolding insert_all contains
  contains_of-insert_all [] c z h = inr h
  contains_of-insert_all (x ∷ xs) c z h = elim (contains_of-insert_all xs (insert before x c) z h) [
    | inl p ↦ inl (ground (arith, p))
    | inr p ↦ elim (contains_of-insert x z c p) [
      | inl q ↦ inl (ground (arith, q, eqb_ℤ_iff z x))
      | inr q ↦ inr q
    ]
  ]
