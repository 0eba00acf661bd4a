-- ===== src/Domination/Front.antt =====
-- `get_nondominated_rec` gives the candidates that no other one dominates.
use asmoses.Base.{
  ℕ, zero, suc, ◌≤◌, ◌≡◌, ◌≢◌, ◌↔◌, ◌⊎◌, refl, sym, ◌∙◌, inl, inr, List, [], ◌∷◌, ◌++◌, some,
  length, ltb, if◌then◌else◌, arith, subst,
}
use mathlib.Core.List.{Memᴰ}
use mathlib.Core.List.Memᴰ.{head, tail, append_left, append_right, append_cases}
use asmoses.Domination.{Tribool, holds, split}
use asmoses.Domination.Halves.{AreHalves, split-AreHalves, length-split}
use asmoses.Domination.Disjoint.{Tribool-cases, IsDomination, NoneDominates, IsFront, IsDisjoint}
use asmoses.Domination.Joined.{IsMeet, disjoint_rec_lem}
use asmoses.Domination.{get_nondominated_rec}

module _ {A : Type 0} (dom : A → A → Tribool) (laws : IsDomination dom) where
  -- Some of the candidates, none of which dominates another, and one of which stands for each that was
  -- left out.
  pub record IsBest (xs r : List A) : Type 0 where
    pub front : IsFront dom r
    pub inside : (x : A) → Memᴰ x r → Memᴰ x xs
    pub cover : (x : A) → Memᴰ x xs → (z : A) × Memᴰ z r × ((z ≡ x) ⊎ (dom z x ≡ holds))

  dominated_by_none :
      (ys : List A) (x : A) → NoneDominates dom ys x ⊎ ((z : A) × Memᴰ z ys × (dom z x ≡ holds))
  dominated_by_none [] x = inl (λ z m. elim m [ ])
  dominated_by_none (y ∷ ys) x =
      let here : (dom y x ≢ holds) → NoneDominates dom ys x → NoneDominates dom (y ∷ ys) x =
        λ n k z m. elim m [ head p ↦ rw p n | tail j ↦ k z j ] in
      elim (dominated_by_none ys x) [
        | inr (z, m, e) ↦ inr (z, tail m, e)
        | inl k ↦ elim (Tribool-cases (dom y x)) [
          | inl e ↦ inr (y, head refl, e)
          | inr (inl e) ↦ inl (here (λ h. ground (arith, e, h)) k)
          | inr (inr e) ↦ inl (here (λ h. ground (arith, e, h)) k)
        ]
      ]

  irreflexive : (x : A) → dom x x ≢ holds
  irreflexive x h = ground (arith, h, laws.turned x x h)

  self-IsBest : (xs : List A) → IsFront dom xs → IsBest xs xs
  self-IsBest xs f = record { front = f; inside = λ x m. m; cover = λ x m. (x, m, inl refl) }

  one_IsFront : (x : A) → IsFront dom (x ∷ [])
  one_IsFront x z m w k = elim m [
    | tail j ↦ elim j [ ]
    | head p ↦ elim k [ tail j ↦ elim j [ ] | head q ↦ rw (p, q) (irreflexive x) ]
  ]

  module _ (a1 a2 : List A) (r : List A × List A) (f1 : IsFront dom a1) (f2 : IsFront dom a2)
      (d : IsDisjoint dom a1 a2 r) where
    union_IsFront : IsFront dom (r.0 ++ r.1)
    union_IsFront x mx z mz = elim (append_cases r.0 mx) [
      | inl i ↦
          let k = (d.first x).0 i in
          elim (append_cases r.0 mz) [
            | inl j ↦ f1 x k.0 z ((d.first z).0 j).0
            | inr j ↦ k.1 z ((d.second z).0 j).0
          ]
      | inr i ↦
          let k = (d.second x).0 i in
          elim (append_cases r.0 mz) [
            | inl j ↦ k.1 z ((d.first z).0 j).0
            | inr j ↦ f2 x k.0 z ((d.second z).0 j).0
          ]
    ]

    -- A candidate of the first list, or one of the second that dominates it, is there.
    first_covered :
        (x : A) → Memᴰ x a1 → (z : A) × Memᴰ z (r.0 ++ r.1) × ((z ≡ x) ⊎ (dom z x ≡ holds))
    first_covered x m = elim (dominated_by_none a2 x) [
      | inl n ↦ (x, append_left r.1 ((d.first x).1 (m, n)), inl refl)
      | inr (z, k, e) ↦ (
        z,
        append_right r.0 ((d.second z).1 (k, λ u mu g. f1 x m u mu (laws.trans u z x g e))),
        inr e,
      )
    ]

    second_covered :
        (x : A) → Memᴰ x a2 → (z : A) × Memᴰ z (r.0 ++ r.1) × ((z ≡ x) ⊎ (dom z x ≡ holds))
    second_covered x m = elim (dominated_by_none a1 x) [
      | inl n ↦ (x, append_right r.0 ((d.second x).1 (m, n)), inl refl)
      | inr (z, k, e) ↦ (
        z,
        append_left r.1 ((d.first z).1 (k, λ u mu g. f2 x m u mu (laws.trans u z x g e))),
        inr e,
      )
    ]

  further :
      (x y z : A)
      → (y ≡ x) ⊎ (dom y x ≡ holds)
      → (z ≡ y) ⊎ (dom z y ≡ holds)
      → (z ≡ x) ⊎ (dom z x ≡ holds)
  further x y z (inl p) (inl q) = inl (q ∙ p)
  further x y z (inl p) (inr h) = inr (rw (sym p) h)
  further x y z (inr g) (inl q) = inr (rw q g)
  further x y z (inr g) (inr h) = inr (laws.trans z y x h g)

  union_IsBest :
      (xs hs ks a1 a2 : List A) (r : List A × List A)
      → AreHalves xs hs ks
      → IsBest hs a1
      → IsBest ks a2
      → IsDisjoint dom a1 a2 r
      → IsBest xs (r.0 ++ r.1)
  union_IsBest xs hs ks a1 a2 r halves b1 b2 d = record {
    front = union_IsFront a1 a2 r b1.front b2.front d;
    inside = λ x m. elim (append_cases r.0 m) [
      | inl i ↦ (halves x).1 (inl (b1.inside x ((d.first x).0 i).0))
      | inr i ↦ (halves x).1 (inr (b2.inside x ((d.second x).0 i).0))
    ];
    cover = λ x m. elim ((halves x).0 m) [
      | inl i ↦
          let y = b1.cover x i in
          let z = first_covered a1 a2 r b1.front b2.front d y.0 y.1 in
          (z.0, z.1, further x y.0 z.0 y.2 z.2)
      | inr i ↦
          let y = b2.cover x i in
          let z = second_covered a1 a2 r b1.front b2.front d y.0 y.1 in
          (z.0, z.1, further x y.0 z.0 y.2 z.2)
    ];
  }

  module _ (meet : List A → List A → List A) (split_jobs : ℕ → ℕ × ℕ) (meets : IsMeet meet) where
    rec_IsBest :
        (fuel : ℕ) (xs : List A) (jobs : ℕ)
        → length xs ≤ fuel
        → (r : List A) × (get_nondominated_rec dom meet split_jobs fuel xs jobs ≡ some r)
          × IsBest xs r
    unfolding get_nondominated_rec
    rec_IsBest zero [] jobs e = ([], refl, self-IsBest [] (λ x m. elim m [ ]))
    rec_IsBest (suc fuel) [] jobs e = ([], refl, self-IsBest [] (λ x m. elim m [ ]))
    rec_IsBest zero (x ∷ xs) jobs e = absurd (omega arith)
    rec_IsBest (suc fuel) (x ∷ []) jobs e = (x ∷ [], refl, self-IsBest (x ∷ []) (one_IsFront x))
    rec_IsBest (suc fuel) (x ∷ x' ∷ xs) jobs e =
        let whole = x ∷ x' ∷ xs in
        let h = split whole in
        let s_jobs : ℕ × ℕ = if ltb 1 jobs then split_jobs jobs else (1, 1) in
        let disjoint_jobs : ℕ = if ltb 1 jobs then jobs else 1 in
        let short = length-split whole fuel (omega arith) e in
        let b1 = rec_IsBest fuel h.0 s_jobs.0 short.0 in
        let b2 = rec_IsBest fuel h.1 s_jobs.1 short.1 in
        let d =
          disjoint_rec_lem dom laws meet split_jobs meets (length b1.0) b1.0 b2.0 disjoint_jobs
            (omega arith) b1.2.front b2.2.front in
        (
          d.0.0 ++ d.0.1,
          rw (get_nondominated_rec, b1.1, b2.1, d.1) refl,
          union_IsBest whole h.0 h.1 b1.0 b2.0 d.0 (split-AreHalves whole) b1.2 b2.2 d.2,
        )

    -- With whatever number of jobs, and fuel for the length of the list, `get_nondominated_rec` ends.
    -- What it gives are just the candidates that no candidate of the list dominates.
    pub get_nondominated_rec_lem :
        (xs : List A) (jobs : ℕ)
        → (r : List A) × (get_nondominated_rec dom meet split_jobs (length xs) xs jobs ≡ some r)
          × ((x : A) → Memᴰ x r ↔ (Memᴰ x xs × NoneDominates dom xs x))
    get_nondominated_rec_lem xs jobs =
        let b = rec_IsBest (length xs) xs jobs (omega arith) in
        (
          b.0,
          b.1,
          λ x. (
            λ m. (
              b.2.inside x m,
              λ z k h.
                  let c = b.2.cover z k in
                  elim c.2 [
                    | inl p ↦ b.2.front x m c.0 c.1 (rw p h)
                    | inr g ↦ b.2.front x m c.0 c.1 (laws.trans c.0 z x g h)
                  ],
            ),
            λ m.
                let c = b.2.cover x m.0 in
                elim c.2 [
                  | inl p ↦ subst (λ u. Memᴰ u b.0) p c.1
                  | inr g ↦ absurd (m.1 c.0 (b.2.inside c.0 c.1) g)
                ],
          ),
        )
