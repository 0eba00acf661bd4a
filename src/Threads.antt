-- ===== src/Threads.antt =====
-- Threads that take turns on one shared state, as the critical sections of the threaded caches of
-- opencog/asmoses/utils/lru_cache.h do: a step is one such section, and a schedule names the thread
-- of each turn.
use asmoses.Base.{
  subst, ap, sym, get_elem?, some, ◌≡◌, refl, ◌++◌, ℕ, zero, suc, ◌+◌, ◌-◌, ◌≤◌, List, [], ◌∷◌,
  arith, ◌==◌, if◌then◌else◌,
}

unfoldable pub AllOf {ℓ} : {P : Type 0} → (P → Type ℓ) → List P → Type ℓ
AllOf F [] = Unit
AllOf F (p ∷ ps) = F p × AllOf F ps

pub AllOf-append {ℓ} :
    {P : Type 0} (F : P → Type ℓ) (ps qs : List P) → AllOf F ps → AllOf F qs → AllOf F (ps ++ qs)
unfolding AllOf
AllOf-append F [] qs a b = b
AllOf-append F (p ∷ ps) qs a b = (a.0, AllOf-append F ps qs a.1 b)

pub AllOf-weaken {ℓ κ} :
    {A : Type 0} {Q : A → Type ℓ} {R : A → Type κ} (xs : List A)
    → ((x : A) → Q x → R x)
    → AllOf Q xs
    → AllOf R xs
unfolding AllOf
AllOf-weaken [] f a = tt
AllOf-weaken (x ∷ xs) f a = (f x a.0, AllOf-weaken xs f a.1)

unfoldable pub count : ℕ → List ℕ → ℕ
count i [] = 0
count i (j ∷ js) = let rest = count i js in if i == j then rest + 1 else rest

module _ {P S : Type 0} (step : P → S → P × S) where
  -- One turn of thread `i`; a thread that does not exist does nothing.
  unfoldable pub turn : ℕ → List P → S → List P × S
  turn i [] s = ([], s)
  turn zero (p ∷ ps) s = ((step p s).0 ∷ ps, (step p s).1)
  turn (suc i) (p ∷ ps) s = (p ∷ (turn i ps s).0, (turn i ps s).1)

  unfoldable pub run : List ℕ → List P → S → List P × S
  run [] ps s = (ps, s)
  run (i ∷ is) ps s = run is (turn i ps s).0 (turn i ps s).1

  module _ (I : S → Type 0) (F : S → P → Type 0)
      (own : (p : P) (s : S) → I s → F s p → I (step p s).1 × F (step p s).1 (step p s).0)
      (others : (p q : P) (s : S) → I s → F s p → F s q → F (step p s).1 q) where
    bystander :
        (i : ℕ) (ps : List P) (s : S) (q : P) → I s → AllOf (F s) ps → F s q → F (turn i ps s).1 q
    unfolding turn AllOf
    bystander i [] s q h a f = f
    bystander zero (p ∷ ps) s q h a f = others p q s h a.0 f
    bystander (suc i) (p ∷ ps) s q h a f = bystander i ps s q h a.1 f

    bystanders :
        (p : P) (qs : List P) (s : S) → I s → F s p → AllOf (F s) qs → AllOf (F (step p s).1) qs
    unfolding AllOf
    bystanders p [] s h f a = tt
    bystanders p (q ∷ qs) s h f a = (others p q s h f a.0, bystanders p qs s h f a.1)

    turn-keeps :
        (i : ℕ) (ps : List P) (s : S)
        → I s
        → AllOf (F s) ps
        → I (turn i ps s).1 × AllOf (F (turn i ps s).1) (turn i ps s).0
    unfolding turn AllOf
    turn-keeps i [] s h a = (h, tt)
    turn-keeps zero (p ∷ ps) s h a =
        let o = own p s h a.0 in (o.0, (o.1, bystanders p ps s h a.0 a.1))
    turn-keeps (suc i) (p ∷ ps) s h a =
        let r = turn-keeps i ps s h a.1 in (r.0, (bystander i ps s p h a.1 a.0, r.1))

    -- What each step keeps for its own thread and for the others holds after every schedule.
    pub run-keeps :
        (is : List ℕ) (ps : List P) (s : S)
        → I s
        → AllOf (F s) ps
        → I (run is ps s).1 × AllOf (F (run is ps s).1) (run is ps s).0
    unfolding run
    run-keeps [] ps s h a = (h, a)
    run-keeps (i ∷ is) ps s h a = let r = turn-keeps i ps s h a in run-keeps is _ _ r.0 r.1

  module _ (rank : P → ℕ) where
    -- The steps that a thread has left at most, 0 for a thread that does not exist.
    unfoldable pub rank_at : ℕ → List P → ℕ
    rank_at i [] = 0
    rank_at zero (p ∷ ps) = rank p
    rank_at (suc i) (p ∷ ps) = rank_at i ps

    module _ (down : (p : P) (s : S) → rank (step p s).0 ≤ rank p - 1) where
      turn-rank :
          (i j : ℕ) (ps : List P) (s : S)
          → rank_at i (turn j ps s).0 ≤ (if i == j then rank_at i ps - 1 else rank_at i ps)
      unfolding turn rank_at
      turn-rank i j [] s = ground arith
      turn-rank zero zero (p ∷ ps) s = down p s
      turn-rank zero (suc j) (p ∷ ps) s = ground arith
      turn-rank (suc i) zero (p ∷ ps) s = ground arith
      turn-rank (suc i) (suc j) (p ∷ ps) s = ground (arith, turn-rank i j ps s)

      pub run-rank :
          (i : ℕ) (is : List ℕ) (ps : List P) (s : S)
          → rank_at i (run is ps s).0 ≤ rank_at i ps - count i is
      unfolding run count
      run-rank i [] ps s = omega arith
      run-rank i (j ∷ js) ps s =
          let t = turn-rank i j ps s in
          let r = run-rank i js (turn j ps s).0 (turn j ps s).1 in ground (arith, t, r)

  -- What every step keeps for its own thread holds at each place after every schedule.
  module _ (G : P → Type 0) (keeps : (p : P) (s : S) → G p → G (step p s).0) where
    turn-own :
        (i j : ℕ) (ps : List P) (s : S) (p : P)
        → get_elem? ps i ≡ some p
        → G p
        → (q : P) × (get_elem? (turn j ps s).0 i ≡ some q) × G q
    unfolding turn
    turn-own i j [] s p e g = absurd (ground (arith, e))
    turn-own zero zero (r ∷ ps) s p e g =
        let same : r ≡ p = ground (arith, e) in
        ((step r s).0, refl, keeps r s (subst G (sym same) g))
    turn-own zero (suc j) (r ∷ ps) s p e g = (p, e, g)
    turn-own (suc i) zero (r ∷ ps) s p e g = (p, e, g)
    turn-own (suc i) (suc j) (r ∷ ps) s p e g = turn-own i j ps s p e g

    pub run-own :
        (i : ℕ) (is : List ℕ) (ps : List P) (s : S) (p : P)
        → get_elem? ps i ≡ some p
        → G p
        → (q : P) × (get_elem? (run is ps s).0 i ≡ some q) × G q
    unfolding run
    run-own i [] ps s p e g = (p, e, g)
    run-own i (j ∷ js) ps s p e g =
        let (q, there, h) = turn-own i j ps s p e g in
        run-own i js (turn j ps s).0 (turn j ps s).1 q there h

pub AllOf-get :
    {P : Type 0} (F : P → Type 0) (ps : List P) (i : ℕ) (p : P)
    → AllOf F ps
    → get_elem? ps i ≡ some p
    → F p
unfolding AllOf
AllOf-get F [] i p a e = absurd (ground (arith, e))
AllOf-get F (q ∷ ps) zero p a e = let same : q ≡ p = ground (arith, e) in subst F same a.0
AllOf-get F (q ∷ ps) (suc i) p a e = AllOf-get F ps i p a.1 e

pub rank_at-get :
    {P S : Type 0} (step : P → S → P × S) (rank : P → ℕ) (ps : List P) (i : ℕ) (p : P)
    → get_elem? ps i ≡ some p
    → rank_at step rank i ps ≡ rank p
unfolding rank_at
rank_at-get step rank [] i p e = absurd (ground (arith, e))
rank_at-get step rank (q ∷ ps) zero p e = let same : q ≡ p = ground (arith, e) in ap rank same
rank_at-get step rank (q ∷ ps) (suc i) p e = rank_at-get step rank ps i p e
