-- ===== src/Reduct/Clauses/Steps.antt =====
-- The loops over the clauses leave no clause strictly inside another one.
use asmoses.Base.{
  ◌≡◌, refl, ◌⊎◌, inl, inr, true, false, [], ◌∷◌, ◌++◌, arith, Bool-cases, if◌then◌else◌,
}
use mathlib.Core.List.{Memᴰ}
use mathlib.Core.List.Memᴰ.{head, tail, append_left, append_right, append_cases}
use asmoses.Reduct.Clauses.{
  Clause, Nf, subset_eq, subset, erase_among, erase_pairs, erase_supersets, Hand, absorb,
  absorb_all,
}
use asmoses.Reduct.Clauses.Sorted.{IsSorted}
use asmoses.Reduct.Clauses.Antichain.{NoStrict, Sub-subset_eq, IsAfter, after-NoStrict}

-- The clauses in hand, in order.
abbrev pub hand_list : Hand → Nf
hand_list h = (h.front ++ (h.c2 ∷ [])) ++ (h.between ++ (h.c1 ∷ h.behind))

pub hand_cases :
    (h : Hand) (c : Clause)
    → Memᴰ c (hand_list h)
    → Memᴰ c h.front ⊎ ((c ≡ h.c2) ⊎ (Memᴰ c h.between ⊎ ((c ≡ h.c1) ⊎ Memᴰ c h.behind)))
hand_cases h c m = elim (append_cases (h.front ++ (h.c2 ∷ [])) m) [
  | inl a ↦ elim (append_cases h.front a) [
    | inl b ↦ inl b
    | inr b ↦ elim b [ head p ↦ inr (inl p) | tail k ↦ elim k [ ] ]
  ]
  | inr a ↦ elim (append_cases h.between a) [
    | inl b ↦ inr (inr (inl b))
    | inr b ↦ elim b [ head p ↦ inr (inr (inr (inl p))) | tail k ↦ inr (inr (inr (inr k))) ]
  ]
]

pub hand_member :
    (h : Hand) (c : Clause)
    → Memᴰ c h.front ⊎ ((c ≡ h.c2) ⊎ (Memᴰ c h.between ⊎ ((c ≡ h.c1) ⊎ Memᴰ c h.behind)))
    → Memᴰ c (hand_list h)
hand_member h c (inl m) = append_left _ (append_left _ m)
hand_member h c (inr (inl p)) = append_left _ (append_right h.front (head p))
hand_member h c (inr (inr (inl m))) = append_right (h.front ++ (h.c2 ∷ [])) (append_left _ m)
hand_member h c (inr (inr (inr (inl p)))) =
    append_right (h.front ++ (h.c2 ∷ [])) (append_right h.between (head p))
hand_member h c (inr (inr (inr (inr m)))) =
    append_right (h.front ++ (h.c2 ∷ [])) (append_right h.between (tail m))

smaller : (impl d : Clause) → subset_eq impl d ≡ false → subset impl d ≡ false
unfolding subset_eq subset
smaller impl d h = ground (arith, h)

left_over :
    (impl : Clause) (f : Nf) (c : Clause)
    → Memᴰ c (erase_supersets impl f)
    → Memᴰ c f × (subset impl c ≡ false)
unfolding erase_supersets
left_over impl [] c m = elim m [ ]
left_over impl (d ∷ f) c m = elim (Bool-cases (subset_eq impl d)) [
  | inl e ↦ let r = left_over impl f c (rw (erase_supersets, e) at m) in (tail r.0, r.1)
  | inr e ↦
      let m' : Memᴰ c (d ∷ erase_supersets impl f) = rw (erase_supersets, e) at m in
      elim m' [
        | head p ↦ (head p, rw p (smaller impl d e))
        | tail k ↦ let r = left_over impl f c k in (tail r.0, r.1)
      ]
]

in_place :
    (impl d c : Clause) (f : Nf)
    → Memᴰ d f
    → c ≡ (if subset impl d then impl else d)
    → IsAfter impl f c
in_place impl d c f m p = elim (Bool-cases (subset impl d)) [
  | inl e ↦ inl (rw e at p, d, m, e)
  | inr e ↦ let q : c ≡ d = rw e at p in inr (rw q m, rw q e)
]

absorb-IsAfter :
    (impl : Clause) (h : Hand) (c : Clause)
    → Memᴰ c (hand_list (absorb impl h))
    → IsAfter impl (hand_list h) c
unfolding absorb
absorb-IsAfter impl h c m = elim (hand_cases (absorb impl h) c m) [
  | inl a ↦ let r = left_over impl h.front c a in inr (hand_member h c (inl r.0), r.1)
  | inr (inl p) ↦ in_place impl h.c2 c (hand_list h) (hand_member h h.c2 (inr (inl refl))) p
  | inr (inr (inl a)) ↦
      let r = left_over impl h.between c a in inr (hand_member h c (inr (inr (inl r.0))), r.1)
  | inr (inr (inr (inl p))) ↦
      in_place impl h.c1 c (hand_list h) (hand_member h h.c1 (inr (inr (inr (inl refl))))) p
  | inr (inr (inr (inr a))) ↦
      let r = left_over impl h.behind c a in inr (hand_member h c (inr (inr (inr (inr r.0)))), r.1)
]

pub absorb_all-NoStrict :
    (impls : Nf) (h : Hand)
    → ((c : Clause) → Memᴰ c impls → IsSorted c)
    → ((c : Clause) → Memᴰ c (hand_list h) → IsSorted c)
    → NoStrict (hand_list h)
    → NoStrict (hand_list (absorb_all impls h))
unfolding absorb_all
absorb_all-NoStrict [] h si sf n = n
absorb_all-NoStrict (impl ∷ impls) h si sf n =
    let after = absorb-IsAfter impl h in
    absorb_all-NoStrict impls (absorb impl h) (λ c m. si c (tail m))
      (λ c m. elim (after c m) [
        | inl (p, e, me, ke) ↦ rw p (si impl (head refl))
        | inr (o, k) ↦ sf c o
      ])
      (after-NoStrict impl (hand_list h) (hand_list (absorb impl h)) (si impl (head refl)) sf after
        n)

among-Mem :
    (c : Clause) (f : Nf) (d : Clause)
    → Memᴰ d (erase_among c f).0
    → Memᴰ d f × ((erase_among c f).1 ≡ true → (subset_eq c d ≡ false) × (subset_eq d c ≡ false))
unfolding erase_among
among-Mem c [] d m = elim m [ ]
among-Mem c (e ∷ f) d m = elim (Bool-cases (subset_eq c e)) [
  | inl k ↦
      let r = among-Mem c f d (rw (erase_among, k) at m) in
      (tail r.0, λ t. r.1 (rw (erase_among, k) at t))
  | inr k ↦ elim (Bool-cases (subset_eq e c)) [
    | inl j ↦
        ((rw (erase_among, k, j) at m), λ t. absurd (ground (arith, rw (erase_among, k, j) at t)))
    | inr j ↦
        let m' : Memᴰ d (e ∷ (erase_among c f).0) = rw (erase_among, k, j) at m in
        elim m' [
          | head p ↦ (head p, λ t. rw p ((k, j)))
          | tail i ↦ let r = among-Mem c f d i in (tail r.0, λ t. r.1 (rw (erase_among, k, j) at t))
        ]
  ]
]

pub erase_pairs-NoStrict :
    (kept f : Nf)
    → ((c : Clause) → Memᴰ c kept → IsSorted c)
    → ((c : Clause) → Memᴰ c f → IsSorted c)
    → NoStrict kept
    → NoStrict (erase_pairs kept f)
unfolding erase_pairs
erase_pairs-NoStrict kept [] sk sf n = n
erase_pairs-NoStrict kept (c ∷ f) sk sf n =
    let r = erase_among c kept in
    let sc = sf c (head refl) in
    let sf' : (d : Clause) → Memᴰ d f → IsSorted d = λ d m. sf d (tail m) in
    elim (Bool-cases r.1) [
      | inr e ↦
          rw (erase_pairs, e)
            (erase_pairs-NoStrict r.0 f (λ d m. sk d (among-Mem c kept d m).0) sf'
              (λ a b ma mb. n a b (among-Mem c kept a ma).0 (among-Mem c kept b mb).0))
      | inl e ↦
          rw (erase_pairs, e)
            (erase_pairs-NoStrict (r.0 ++ (c ∷ [])) f
              (λ d m. elim (append_cases r.0 m) [
                | inl i ↦ sk d (among-Mem c kept d i).0
                | inr i ↦ elim i [ head p ↦ rw p sc | tail k ↦ elim k [ ] ]
              ])
              sf'
              (λ a b ma mb h. elim (append_cases r.0 ma) [
                | inl i ↦
                    let old = among-Mem c kept a i in
                    elim (append_cases r.0 mb) [
                      | inl j ↦ n a b old.0 (among-Mem c kept b j).0 h
                      | inr j ↦ elim j [
                        | head p ↦ absurd (
                            ground (arith, (old.1 e).1, Sub-subset_eq a c (sk a old.0) (rw p at h)))
                        | tail k ↦ elim k [ ]
                      ]
                    ]
                | inr i ↦ elim i [
                  | tail k ↦ elim k [ ]
                  | head p ↦ elim (append_cases r.0 mb) [
                    | inl j ↦
                        let old = among-Mem c kept b j in
                        absurd (ground (arith, (old.1 e).0, Sub-subset_eq c b sc (rw p at h)))
                    | inr j ↦ elim j [ head q ↦ rw (p, q) (λ x k. k) | tail k ↦ elim k [ ] ]
                  ]
                ]
              ]))
    ]
