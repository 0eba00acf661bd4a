-- ===== src/Reduct/Clauses/Antichain.antt =====
-- No clause of the list stays strictly inside another one.
use asmoses.Base.{
  ◌+◌, ◌≤◌, ◌<◌, ◌≡◌, ◌≢◌, refl, sym, ap, ◌∙◌, ◌⊎◌, inl, inr, true, false, [], ◌∷◌, arith,
  Bool-cases, length,
}
use asmoses.Base.Int.{ℤ, eqb_ℤ, eqb_ℤ_iff}
use mathlib.Core.List.{Memᴰ}
use asmoses.Reduct.Clauses.{Clause, Nf, contains, erase, is_included, subset_eq, subset}
use asmoses.Reduct.Clauses.Sorted.{IsSorted, AllAfter-contains, rank}
use asmoses.Reduct.Clauses.Truth.{contains-erase_ne}

-- Each literal of the first clause is one of the second.
abbrev pub Sub : Clause → Clause → Type 0
Sub c d = (x : ℤ) → contains c x ≡ true → contains d x ≡ true

abbrev pub NoStrict : Nf → Type 0
NoStrict f = (c d : Clause) → Memᴰ c f → Memᴰ d f → Sub c d → Sub d c

included-Sub : (c d : Clause) → is_included c d ≡ true → Sub c d
unfolding is_included contains
included-Sub [] d h x k = absurd (ground arith)
included-Sub (y ∷ c) d h x k = elim (Bool-cases (eqb_ℤ x y)) [
  | inl e ↦ let p = (eqb_ℤ_iff x y).0 e in rw p (ground (arith, h))
  | inr e ↦ included-Sub c d (ground (arith, h)) x (ground (arith, k, e))
]

Sub-included : (c d : Clause) → Sub c d → is_included c d ≡ true
unfolding is_included contains
Sub-included [] d h = refl
Sub-included (y ∷ c) d h =
    let first = h y (ground (arith, eqb_ℤ_iff y y)) in
    let rest = Sub-included c d (λ x k. h x (ground (arith, k))) in ground (arith, first, rest)

length-erase_in : (x : ℤ) (d : Clause) → contains d x ≡ true → length (erase x d) + 1 ≡ length d
unfolding erase contains
length-erase_in x [] h = absurd (ground arith)
length-erase_in x (y ∷ d) h = ground (arith, length-erase_in x d, h)

-- A sorted clause inside another is no longer than it, and is all of it if it is as long.
Sub-length : (c d : Clause) → IsSorted c → Sub c d → length c ≤ length d
unfolding IsSorted contains
Sub-length [] d s h = omega arith
Sub-length (x ∷ c) d s h =
    let has = h x (ground (arith, eqb_ℤ_iff x x)) in
    let rest = Sub-length c (erase x d) s.1 (λ z k.
      let apart : z ≢ x = λ e. omega (arith, AllAfter-contains x z c s.0 k, ap rank e) in
      contains-erase_ne z x d apart ∙ h z (ground (arith, k))) in
    omega (arith, rest, length-erase_in x d has)

Sub-all : (c d : Clause) → IsSorted c → Sub c d → length d ≤ length c → Sub d c
Sub-all c d s h l z k = elim (Bool-cases (contains c z)) [
  | inl e ↦ e
  | inr e ↦
      let rest = Sub-length c (erase z d) s (λ y m.
        let apart : y ≢ z = λ p. ground (arith, e, rw p at m) in
        contains-erase_ne y z d apart ∙ h y m) in
      absurd (omega (arith, rest, l, length-erase_in z d k))
]

pub Sub-subset_eq : (c d : Clause) → IsSorted c → Sub c d → subset_eq c d ≡ true
unfolding subset_eq
Sub-subset_eq c d s h = ground (arith, Sub-included c d h, Sub-length c d s h)

-- What a clause of the list after a step of the loops is: an implied clause that is strictly inside an
-- old one, or an old one that does not strictly contain it.
abbrev pub IsAfter : Clause → Nf → Clause → Type 0
IsAfter impl f c =
    ((c ≡ impl) × (e : Clause) × Memᴰ e f × (subset impl e ≡ true))
    ⊎ (Memᴰ c f × (subset impl c ≡ false))

strict_lem : (c d : Clause) → subset c d ≡ true → Sub c d × (length c < length d)
unfolding subset
strict_lem c d h = (included-Sub c d (ground (arith, h)), ground (arith, h))

not_strict_lem : (c d : Clause) → subset c d ≡ false → Sub c d → length d ≤ length c
unfolding subset
not_strict_lem c d h s = ground (arith, h, Sub-included c d s)

pub after-NoStrict :
    (impl : Clause) (f g : Nf)
    → IsSorted impl
    → ((c : Clause) → Memᴰ c f → IsSorted c)
    → ((c : Clause) → Memᴰ c g → IsAfter impl f c)
    → NoStrict f
    → NoStrict g
after-NoStrict impl f g si sf after n c d mc md h = elim (after c mc) [
  | inl (ci, e, me, ke) ↦ elim (after d md) [
    | inl (di, e', me', ke') ↦ rw (ci, di) (λ x k. k)
    | inr (od, kd) ↦
        let h' : Sub impl d = rw (sym ci) h in
        rw ci (Sub-all impl d si h' (not_strict_lem impl d kd h'))
  ]
  | inr (oc, kc) ↦ elim (after d md) [
    | inr (od, kd) ↦ n c d oc od h
    | inl (di, e, me, ke) ↦
        let s = strict_lem impl e ke in
        let h' : Sub c impl = rw (sym di) h in
        let back = n c e oc me (λ x k. s.0 x (h' x k)) in
        absurd (omega (arith, Sub-length e impl (sf e me) (λ x k. h' x (back x k)), s.1))
  ]
]
