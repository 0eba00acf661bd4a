-- ===== src/Domination/Disjoint.antt =====
-- `get_nondominated_disjoint_rec` gives the candidates of each list that no one of the other dominates.
use asmoses.Base.{
  ◌≡◌, ◌≢◌, ◌↔◌, ◌⊎◌, refl, inl, inr, Bool, true, false, List, [], ◌∷◌, if◌then◌else◌, arith,
}
use mathlib.Core.List.{Memᴰ}
use mathlib.Core.List.Memᴰ.{head, tail}
use asmoses.Domination.{Tribool, holds, fails, indeterminate, against}

-- Domination is a strict order, and is seen from both sides.
pub record IsDomination {A : Type 0} (dom : A → A → Tribool) : Type 0 where
  pub turned : (x y : A) → dom x y ≡ holds → dom y x ≡ fails
  pub turned_back : (x y : A) → dom x y ≡ fails → dom y x ≡ holds
  pub trans : (x y z : A) → dom x y ≡ holds → dom y z ≡ holds → dom x z ≡ holds

module _ {A : Type 0} (dom : A → A → Tribool) where
  -- No candidate of the list dominates this one.
  abbrev pub NoneDominates : List A → A → Type 0
  NoneDominates bcv x = (z : A) → Memᴰ z bcv → dom z x ≢ holds

  -- No candidate of the list dominates another of it.
  abbrev pub IsFront : List A → Type 0
  IsFront bcv = (x : A) → Memᴰ x bcv → NoneDominates bcv x

  -- What is kept of two lists.
  pub record IsDisjoint (bcv1 bcv2 : List A) (r : List A × List A) : Type 0 where
    pub first : (x : A) → Memᴰ x r.0 ↔ (Memᴰ x bcv1 × NoneDominates bcv2 x)
    pub second : (y : A) → Memᴰ y r.1 ↔ (Memᴰ y bcv2 × NoneDominates bcv1 y)

pub Tribool-cases : (t : Tribool) → (t ≡ holds) ⊎ ((t ≡ fails) ⊎ (t ≡ indeterminate))
Tribool-cases holds = inl refl
Tribool-cases fails = inr (inl refl)
Tribool-cases indeterminate = inr (inr refl)

module _ {A : Type 0} (dom : A → A → Tribool) (laws : IsDomination dom) where
  -- What the loop of the base case finds.
  pub record Against (x : A) (ys : List A) (r : Bool × List A) : Type 0 where
    pub stays : r.0 ≡ true → NoneDominates dom ys x
    pub beaten : r.0 ≡ false → (z : A) × Memᴰ z ys × (dom z x ≡ holds)
    pub kept : (y : A) → Memᴰ y r.1 ↔ (Memᴰ y ys × (dom x y ≢ holds))

  -- One that is dominated dominates no other of a front.
  beaten_dominates_none :
      (x y : A) (ys : List A)
      → IsFront dom ys
      → Memᴰ y ys
      → dom x y ≡ fails
      → (z : A) → Memᴰ z ys
      → dom x z ≢ holds
  beaten_dominates_none x y ys f my e z mz h =
      f z mz y my (laws.trans y x z (laws.turned_back x y e) h)

  pub against_lem : (x : A) (ys : List A) → IsFront dom ys → Against x ys (against dom x ys)
  unfolding against
  against_lem x [] f = record {
    stays = λ e z m. elim m [ ];
    beaten = λ e. absurd (ground arith);
    kept = λ y. (λ m. elim m [ ], λ m. m.0);
  }
  against_lem x (y ∷ ys) f =
      let rest = against_lem x ys (λ z m w k. f z (tail m) w (tail k)) in
      elim (Tribool-cases (dom x y)) [
        | inl e ↦
            rw (against, e)
              (record {
                stays = λ s z m. elim m [
                  | head p ↦ λ h. ground (arith, laws.turned x y e, rw p at h)
                  | tail k ↦ rest.stays s z k
                ];
                beaten = λ s. let b = rest.beaten s in (b.0, tail b.1, b.2);
                kept = λ z. (
                  λ m. let k = (rest.kept z).0 m in (tail k.0, k.1),
                  λ m. elim m.0 [
                    | head p ↦ absurd (m.1 (rw p e))
                    | tail k ↦ (rest.kept z).1 (k, m.1)
                  ],
                );
              })
        | inr (inl e) ↦
            rw (against, e)
              (record {
                stays = λ s. absurd (ground arith);
                beaten = λ s. (y, head refl, laws.turned_back x y e);
                kept = λ z.
                    (λ m. (m, beaten_dominates_none x y (y ∷ ys) f (head refl) e z m), λ m. m.0);
              })
        | inr (inr e) ↦
            rw (against, e)
              (record {
                stays = λ s z m. elim m [
                  | head p ↦ λ h. ground (arith, e, laws.turned y x (rw p at h))
                  | tail k ↦ rest.stays s z k
                ];
                beaten = λ s. let b = rest.beaten s in (b.0, tail b.1, b.2);
                kept = λ z. (
                  λ m. elim m [
                    | head p ↦ (head p, λ h. ground (arith, e, rw p at h))
                    | tail k ↦ let q = (rest.kept z).0 k in (tail q.0, q.1)
                  ],
                  λ m. elim m.0 [ head p ↦ head p | tail k ↦ tail ((rest.kept z).1 (k, m.1)) ],
                );
              })
      ]

  pub nothing_first : (ys : List A) → IsDisjoint dom [] ys ([], ys)
  nothing_first ys = record {
    first = λ x. (λ m. elim m [ ], λ m. m.0);
    second = λ y. (λ m. (m, λ z k. elim k [ ]), λ m. m.0);
  }

  pub nothing_second : (xs : List A) → IsDisjoint dom xs [] (xs, [])
  nothing_second xs = record {
    first = λ x. (λ m. (m, λ z k. elim k [ ]), λ m. m.0);
    second = λ y. (λ m. elim m [ ], λ m. m.0);
  }

  pub one_first :
      (x : A) (ys : List A) (r : Bool × List A)
      → Against x ys r
      → IsDisjoint dom (x ∷ []) ys (if r.0 then x ∷ [] else [], r.1)
  one_first x ys (true, zs) a = record {
    first = λ z.
        (λ m. elim m [ head p ↦ (head p, rw p (a.stays refl)) | tail k ↦ elim k [ ] ], λ m. m.0);
    second = λ y. (
      λ m.
          let k = (a.kept y).0 m in
          (k.0, λ z i. elim i [ head p ↦ rw p k.1 | tail j ↦ elim j [ ] ]),
      λ m. (a.kept y).1 (m.0, m.1 x (head refl)),
    );
  }
  one_first x ys (false, zs) a =
      let b = a.beaten refl in
      record {
        first = λ z. (
          λ m. elim m [ ],
          λ m. elim m.0 [ head p ↦ absurd (m.1 b.0 b.1 (rw p b.2)) | tail j ↦ elim j [ ] ],
        );
        second = λ y. (
          λ m.
              let k = (a.kept y).0 m in
              (k.0, λ z i. elim i [ head p ↦ rw p k.1 | tail j ↦ elim j [ ] ]),
          λ m. (a.kept y).1 (m.0, m.1 x (head refl)),
        );
      }
