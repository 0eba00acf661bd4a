-- ===== src/PrrCache/Overfull.antt =====
-- Two calls of `prr_cache_threaded` that both test `full()` before one of them stores.
use mathlib.Core.List.{lookup}
use asmoses.Base.{
  ℕ, zero, suc, ◌+◌, ◌≤◌, ◌<◌, ◌≡◌, ◌≢◌, refl, ap, sym, ◌∙◌, false, List, [], ◌∷◌, ◌++◌, some, none,
  Option, length, arith, ◌==◌,
}
use asmoses.Threads.{count, turn, run}
use asmoses.PrrCache.{
  answered, PrrCache, assign, Phase, calling, evaluating, testing, storing, finished, step,
}
use asmoses.PrrCache.Table.{length-assign-absent, lookup-assign_ne}
use asmoses.PrrCache.Races.{step-calling, step-evaluating, step-testing}

module _ {P S : Type 0} (step : P → S → P × S) where
  run-append :
      (is js : List ℕ) (ps : List P) (s : S)
      → run step (is ++ js) ps s ≡ run step js (run step is ps s).0 (run step is ps s).1
  unfolding run
  run-append [] js ps s = refl
  run-append (i ∷ is) js ps s = run-append is js (turn step i ps s).0 (turn step i ps s).1

-- Where a call at a missing key stands after so many of its turns, up to its test.
unfoldable reached : {K V : Type 0} → K → V → ℕ → Phase K V
reached x v zero = calling x
reached x v (suc zero) = evaluating x
reached x v (suc (suc zero)) = testing x v
reached x v (suc (suc (suc k))) = storing x v

module _ {K V : Type 0} (dec : Discrete K) (begin : List (K × V) → Option K)
    (f : K → Option V) where
  -- One turn of such a call leaves the entries and the size.
  one_more :
      (x : K) (v : V) (k : ℕ) (c : PrrCache K V)
      → f x ≡ some v
      → lookup dec x c.table ≡ none
      → length c.table + 1 ≡ c.n
      → k < 3
      → (d : PrrCache K V) × (step dec begin f (reached x v k) c ≡ (reached x v (suc k), d))
        × (d.table ≡ c.table)
        × (d.n ≡ c.n)
  unfolding reached
  one_more x v zero c e h l b = (c, step-calling dec begin f x c h, refl, refl)
  one_more x v (suc zero) c e h l b =
      (record c { misses = c.misses + 1 }, step-evaluating dec begin f x v c e, refl, refl)
  one_more x v (suc (suc zero)) c e h l b =
      let q : (length c.table == c.n) ≡ false = ground arith in
      (c, step-testing dec begin f x v c false q, refl, refl)
  one_more x v (suc (suc (suc k))) c e h l b = absurd (omega (arith, b))

  module _ (x y : K) (v w : V) (ex : f x ≡ some v) (ey : f y ≡ some w) where
    both_test :
        (is : List ℕ) (i j : ℕ) (c : PrrCache K V)
        → lookup dec x c.table ≡ none
        → lookup dec y c.table ≡ none
        → length c.table + 1 ≡ c.n
        → i + count 0 is ≡ 3
        → j + count 1 is ≡ 3
        → (d : PrrCache K V) × (run (step dec begin f) is (reached x v i ∷ reached y w j ∷ []) c
            ≡ (storing x v ∷ storing y w ∷ [], d))
          × (d.table ≡ c.table)
          × (d.n ≡ c.n)
    unfolding run turn count reached
    both_test [] i j c hx hy l p q =
        let pi : i ≡ 3 = omega (arith, p) in
        let pj : j ≡ 3 = omega (arith, q) in (c, rw (pi, pj, reached) refl, refl, refl)
    both_test (zero ∷ is) i j c hx hy l p q =
        let (c', s, t, n) = one_more x v i c ex hx l (omega (arith, p)) in
        let r =
          both_test is (suc i) j c' (rw t hx) (rw t hy) (rw (t, n) l) (omega (arith, p))
            (omega (arith, q)) in
        (r.0, rw s r.1, r.2 ∙ t, r.3 ∙ n)
    both_test (suc zero ∷ is) i j c hx hy l p q =
        let (c', s, t, n) = one_more y w j c ey hy l (omega (arith, q)) in
        let r =
          both_test is i (suc j) c' (rw t hx) (rw t hy) (rw (t, n) l) (omega (arith, p))
            (omega (arith, q)) in
        (r.0, rw s r.1, r.2 ∙ t, r.3 ∙ n)
    both_test (suc (suc k) ∷ is) i j c hx hy l p q =
        both_test is i j c hx hy l (ground (arith, p)) (ground (arith, q))

    -- A call that has finished does nothing more.
    both_done :
        (js : List ℕ) (c : PrrCache K V)
        → (run (step dec begin f) js (finished x (answered v) ∷ finished y (answered w) ∷ []) c).1
          ≡ c
    unfolding run turn step
    both_done [] c = refl
    both_done (zero ∷ js) c = both_done js c
    both_done (suc zero ∷ js) c = both_done js c
    both_done (suc (suc k) ∷ js) c = both_done js c

    first_left :
        (js : List ℕ) (c : PrrCache K V)
        → 1 ≤ count 0 js
        → (run (step dec begin f) js (storing x v ∷ finished y (answered w) ∷ []) c).1.table
          ≡ assign dec x v c.table
    unfolding run turn step count
    first_left [] c p = absurd (omega (arith, p))
    first_left (zero ∷ js) c p = ap (λ d. d.table) (both_done js _)
    first_left (suc zero ∷ js) c p = first_left js c p
    first_left (suc (suc k) ∷ js) c p = first_left js c (ground (arith, p))

    second_left :
        (js : List ℕ) (c : PrrCache K V)
        → 1 ≤ count 1 js
        → (run (step dec begin f) js (finished x (answered v) ∷ storing y w ∷ []) c).1.table
          ≡ assign dec y w c.table
    unfolding run turn step count
    second_left [] c q = absurd (omega (arith, q))
    second_left (zero ∷ js) c q = second_left js c q
    second_left (suc zero ∷ js) c q = ap (λ d. d.table) (both_done js _)
    second_left (suc (suc k) ∷ js) c q = second_left js c (ground (arith, q))

    module _ (ne : x ≢ y) where
      both_store :
          (js : List ℕ) (c : PrrCache K V)
          → lookup dec x c.table ≡ none
          → lookup dec y c.table ≡ none
          → 1 ≤ count 0 js
          → 1 ≤ count 1 js
          → length (run (step dec begin f) js (storing x v ∷ storing y w ∷ []) c).1.table
            ≡ length c.table + 2
      unfolding run turn step count
      both_store [] c hx hy p q = absurd (omega (arith, p))
      both_store (zero ∷ js) c hx hy p q =
          let lx = length-assign-absent dec x v c.table hx in
          let ly =
            length-assign-absent dec y w (assign dec x v c.table)
              (lookup-assign_ne dec x y v c.table ne ∙ hy) in
          let rest = second_left js (record c { table = assign dec x v c.table }) q in
          ap length rest ∙ omega (arith, lx, ly)
      both_store (suc zero ∷ js) c hx hy p q =
          let ly = length-assign-absent dec y w c.table hy in
          let lx =
            length-assign-absent dec x v (assign dec y w c.table)
              (lookup-assign_ne dec y x w c.table (λ e. ne (sym e)) ∙ hx) in
          let rest = first_left js (record c { table = assign dec y w c.table }) p in
          ap length rest ∙ omega (arith, lx, ly)
      both_store (suc (suc k) ∷ js) c hx hy p q =
          both_store js c hx hy (ground (arith, p)) (ground (arith, q))

      -- Two calls of missing keys of a cache with one free place, the function returning at both: after any
      -- schedule that gives each the three turns up to the test of `full()` before either has a fourth, and
      -- then each one more at least, the cache has one entry more than its size.
      pub overfills :
          (is js : List ℕ) (c : PrrCache K V)
          → lookup dec x c.table ≡ none
          → lookup dec y c.table ≡ none
          → length c.table + 1 ≡ c.n
          → count 0 is ≡ 3
          → count 1 is ≡ 3
          → 1 ≤ count 0 js
          → 1 ≤ count 1 js
          → length (run (step dec begin f) (is ++ js) (calling x ∷ calling y ∷ []) c).1.table
            ≡ c.n + 1
      unfolding reached
      overfills is js c hx hy l p q r s =
          let (d, before, t, n) =
            both_test is 0 0 c hx hy l (omega (arith, p)) (omega (arith, q)) in
          let stored = both_store js d (rw t hx) (rw t hy) r s in
          rw (run-append, before) (stored ∙ omega (arith, l, ap length t))
