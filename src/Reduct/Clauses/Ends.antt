-- ===== src/Reduct/Clauses/Ends.antt =====
-- The loops of `reduce_ors` over its clauses, from end to end.
use mathlib.Core.List.{Memᴰ}
use mathlib.Core.List.Memᴰ.{head, tail}
use asmoses.Reduct.Clauses.Antichain.{NoStrict}
use asmoses.Reduct.Clauses.Steps.{hand_list, hand_cases, absorb_all-NoStrict, erase_pairs-NoStrict}
use asmoses.Reduct.Clauses.{erase_among}
use asmoses.Base.{
  Bool-cases, length-append, subst, List, inl, inr, false, ◌+◌, append-nil, append_assoc, ap, ℕ,
  zero, suc, ◌≤◌, ◌≡◌, ◌≢◌, refl, sym, ◌∙◌, Bool, [], ◌∷◌, ◌++◌, arith, length, some,
}
use asmoses.Base.Int.{ℤ, pos}
use asmoses.Combo.Denote.{Valuation}
use asmoses.Threads.{AllOf, AllOf-append, AllOf-weaken}
use asmoses.Reduct.Clauses.{
  Clause, Nf, remove_tautologies, erase_pairs, implications, Hand, absorb_all, walk, add_implied,
  reduce_nf,
}
use asmoses.Reduct.Clauses.Truth.{some_clause, some_clause-append}
use asmoses.Reduct.Clauses.Sorted.{IsAbsoluteOrder, IsSorted}
use asmoses.Reduct.Clauses.Implied.{IsGood, IsSound, implications-IsSound}
use asmoses.Reduct.Clauses.Loops.{
  HandIsGood, hand_value, absorb_all-hand_value, absorb_all-HandIsGood, absorb_all-length,
}
use asmoses.Reduct.Clauses.Erasing.{
  IsRead, remove_tautologies-IsGood, some_clause-remove_tautologies, AllOf-erase_pairs,
  some_clause-erase_pairs,
}

pub AllOf-Mem {ℓ} :
    {A : Type 0} (Q : A → Type ℓ) {x : A} (xs : List A) → AllOf Q xs → Memᴰ x xs → Q x
unfolding AllOf
AllOf-Mem Q (y ∷ xs) a (head p) = subst Q (sym p) a.0
AllOf-Mem Q (y ∷ xs) a (tail m) = AllOf-Mem Q xs a.1 m
AllOf-Mem Q [] a m = elim m [ ]

hand-IsSorted :
    {P : ℤ → Type 0} (h : Hand)
    → AllOf (IsGood P) h.front
    → IsGood P h.c2
    → AllOf (IsGood P) h.between
    → IsGood P h.c1
    → AllOf (IsGood P) h.behind
    → (c : Clause) → Memᴰ c (hand_list h)
    → IsSorted c
hand-IsSorted {P} h gf g2 gb g1 gh c m = elim (hand_cases h c m) [
  | inl a ↦ (AllOf-Mem (IsGood P) _ gf a).sorted
  | inr (inl p) ↦ rw p g2.sorted
  | inr (inr (inl a)) ↦ (AllOf-Mem (IsGood P) _ gb a).sorted
  | inr (inr (inr (inl p))) ↦ rw p g1.sorted
  | inr (inr (inr (inr a))) ↦ (AllOf-Mem (IsGood P) _ gh a).sorted
]

erase_among-some :
    (c : Clause) (f : Nf) → (erase_among c f).1 ≡ false → 1 ≤ length (erase_among c f).0
unfolding erase_among
erase_among-some c [] h = absurd (ground arith)
erase_among-some c (d ∷ f) h = ground (arith, erase_among-some c f, h)

-- Of clauses, some are left.
erase_pairs-some : (kept f : Nf) → 1 ≤ length kept + length f → 1 ≤ length (erase_pairs kept f)
unfolding erase_pairs
erase_pairs-some kept [] h = omega (arith, h)
erase_pairs-some kept (c ∷ f) h = elim (Bool-cases (erase_among c kept).1) [
  | inl e ↦
      rw (erase_pairs, e)
        (erase_pairs-some ((erase_among c kept).0 ++ (c ∷ [])) f
          (omega (arith, length-append (erase_among c kept).0 (c ∷ []))))
  | inr e ↦
      rw (erase_pairs, e)
        (erase_pairs-some (erase_among c kept).0 f (omega (arith, erase_among-some c kept e)))
]

hand_value_front :
    (σ : Valuation) (h : Hand)
    → some_clause σ ((h.front ++ (h.c2 ∷ [])) ++ (h.between ++ (h.c1 ∷ h.behind))) ≡ hand_value σ h
unfolding hand_value some_clause
hand_value_front σ h = ground (
  arith,
  some_clause-append σ (h.front ++ (h.c2 ∷ [])) (h.between ++ (h.c1 ∷ h.behind)),
  some_clause-append σ h.front (h.c2 ∷ []),
  some_clause-append σ h.between (h.c1 ∷ h.behind),
)

hand_value_rest :
    (σ : Valuation) (h : Hand)
    → some_clause σ (h.front ++ ((h.c2 ∷ h.between) ++ (h.c1 ∷ h.behind))) ≡ hand_value σ h
unfolding hand_value some_clause
hand_value_rest σ h = ground (
  arith,
  some_clause-append σ h.front ((h.c2 ∷ h.between) ++ (h.c1 ∷ h.behind)),
  some_clause-append σ (h.c2 ∷ h.between) (h.c1 ∷ h.behind),
)

module _ (before : ℤ → ℤ → Bool) (order : IsAbsoluteOrder before) (P : ℤ → Type 0)
    (nonzero : (x : ℤ) → P x → x ≢ pos 0) where
  walk_lem :
      (fuel : ℕ) (front between : Nf) (c1 : Clause) (behind : Nf)
      → length between ≤ fuel
      → AllOf (IsGood P) front
      → AllOf (IsGood P) between
      → IsGood P c1
      → AllOf (IsGood P) behind
      → (r : Nf × Clause × Nf) × (walk before fuel front between c1 behind ≡ some r)
        × AllOf (IsGood P) r.0
        × IsGood P r.1
        × AllOf (IsGood P) r.2
        × (length r.2 ≤ length behind)
        × ((σ : Valuation)
            → some_clause σ (r.0 ++ (r.1 ∷ r.2))
              ≡ some_clause σ (front ++ (between ++ (c1 ∷ behind))))
        × (NoStrict (front ++ (between ++ (c1 ∷ behind))) → NoStrict (r.0 ++ (r.1 ∷ r.2)))
  unfolding walk AllOf HandIsGood
  walk_lem zero front [] c1 behind e gf gb g1 gh =
      ((front, c1, behind), refl, gf, g1, gh, omega arith, λ σ. refl, λ n. n)
  walk_lem (suc fuel) front [] c1 behind e gf gb g1 gh =
      ((front, c1, behind), refl, gf, g1, gh, omega arith, λ σ. refl, λ n. n)
  walk_lem zero front (c2 ∷ between) c1 behind e gf gb g1 gh = absurd (omega arith)
  walk_lem (suc fuel) front (c2 ∷ between) c1 behind e gf gb g1 gh =
      let sound = implications-IsSound before order P nonzero c1 c2 g1 gb.0 c1 (λ x k. k) in
      let impls = implications before c1 c2 c1 in
      let h : Hand = record {
        front = front;
        c2 = c2;
        between = between;
        c1 = c1;
        behind = behind;
      } in
      let k = absorb_all impls h in
      let gk =
        absorb_all-HandIsGood P impls h (AllOf-weaken impls (λ r s. s.0) sound)
          (gf, gb.0, gb.1, g1, gh) in
      let shrinks = absorb_all-length impls h in
      let r =
        walk_lem fuel (k.front ++ (k.c2 ∷ [])) k.between k.c1 k.behind (omega (arith, e, shrinks.0))
          (AllOf-append (IsGood P) k.front (k.c2 ∷ []) gk.0 (gk.1, tt)) gk.2 gk.3 gk.4 in
      (
        r.0,
        r.1,
        r.2,
        r.3,
        r.4,
        omega (arith, r.5, shrinks.1),
        λ σ.
            r.6 σ
            ∙ hand_value_front σ k
            ∙ absorb_all-hand_value σ c1 c2 impls h (AllOf-weaken impls (λ r s. s.1) sound) (λ t. t)
                (λ t. t)
            ∙ sym (hand_value_rest σ h),
        λ n. r.7 (
            absorb_all-NoStrict impls h
              (λ c m. (AllOf-Mem (IsSound P c1 c2) impls sound m).0.sorted)
              (hand-IsSorted h gf gb.0 gb.1 g1 gh)
              (subst NoStrict (sym (append_assoc front (c2 ∷ []) (between ++ (c1 ∷ behind)))) n)),
      )

  add_implied_lem :
      (fuel : ℕ) (done rest : Nf)
      → length rest ≤ fuel
      → AllOf (IsGood P) done
      → AllOf (IsGood P) rest
      → (g : Nf) × (add_implied before fuel done rest ≡ some g)
        × AllOf (IsGood P) g
        × ((σ : Valuation) → some_clause σ g ≡ some_clause σ (done ++ rest))
        × (NoStrict (done ++ rest) → NoStrict g)
        × (1 ≤ length done + length rest → 1 ≤ length g)
  unfolding add_implied AllOf
  add_implied_lem zero done [] e gd gr = (
    done,
    refl,
    gd,
    λ σ. rw (append-nil done) refl,
    λ n. rw (sym (append-nil done)) n,
    λ l. omega (arith, l),
  )
  add_implied_lem (suc fuel) done [] e gd gr = (
    done,
    refl,
    gd,
    λ σ. rw (append-nil done) refl,
    λ n. rw (sym (append-nil done)) n,
    λ l. omega (arith, l),
  )
  add_implied_lem zero done (c ∷ rest) e gd gr = absurd (omega arith)
  add_implied_lem (suc fuel) done (c ∷ rest) e gd gr =
      let w = walk_lem (length done) [] done c rest (omega arith) tt gd gr.0 gr.1 in
      let r =
        add_implied_lem fuel (w.0.0 ++ (w.0.1 ∷ [])) w.0.2 (omega (arith, e, w.5))
          (AllOf-append (IsGood P) w.0.0 (w.0.1 ∷ []) w.2 (w.3, tt)) w.4 in
      let joined = append_assoc w.0.0 (w.0.1 ∷ []) w.0.2 in
      (
        r.0,
        rw (add_implied, w.1) r.1,
        r.2,
        λ σ. r.3 σ ∙ ap (some_clause σ) joined ∙ w.6 σ,
        λ n. r.4 (subst NoStrict (sym joined) (w.7 n)),
        λ l. r.5 (omega (arith, length-append w.0.0 (w.0.1 ∷ []))),
      )

module _ (before : ℤ → ℤ → Bool) (order : IsAbsoluteOrder before) (P : ℤ → Type 0)
    (nonzero : (x : ℤ) → P x → x ≢ pos 0) where
  -- With what the other rule asks for besides: no clause is strictly inside another one, and one is left.
  pub reduce_nf_whole :
      (f : Nf)
      → AllOf (IsRead P) f
      → (g : Nf) × (reduce_nf before f ≡ some g)
        × AllOf (IsGood P) g
        × ((σ : Valuation) → some_clause σ g ≡ some_clause σ f)
        × NoStrict g
        × (1 ≤ length (remove_tautologies f) → 1 ≤ length g)
  unfolding reduce_nf AllOf
  reduce_nf_whole f a =
      let h = remove_tautologies f in
      let gh = remove_tautologies-IsGood P nonzero f a in
      let p = erase_pairs [] h in
      let r =
        add_implied_lem before order P nonzero (length p) [] p (omega arith) tt
          (AllOf-erase_pairs (IsGood P) [] h tt gh) in
      (
        r.0,
        r.1,
        r.2,
        λ σ.
            r.3 σ ∙ some_clause-erase_pairs σ [] h ∙ some_clause-remove_tautologies P nonzero σ f a,
        r.4 (
            erase_pairs-NoStrict [] h (λ c m. elim m [ ])
              (λ c m. (AllOf-Mem (IsGood P) h gh m).sorted) (λ c d mc md k. elim mc [ ])),
        λ l. r.5 (omega (arith, erase_pairs-some [] h (omega (arith, l)))),
      )

  -- Clauses that are sorted by the absolute value, of literals that are not 0, are reduced within the fuel
  -- that `reduce_nf` gives. The clauses at the end are sorted, hold no literal together with its negation
  -- and no literal of another kind `P` than the given ones, and their disjunction has the same truth under
  -- every valuation.
  pub reduce_nf_lem :
      (f : Nf)
      → AllOf (IsRead P) f
      → (g : Nf) × (reduce_nf before f ≡ some g)
        × AllOf (IsGood P) g
        × ((σ : Valuation) → some_clause σ g ≡ some_clause σ f)
  reduce_nf_lem f a = let r = reduce_nf_whole f a in (r.0, r.1, r.2, r.3)
