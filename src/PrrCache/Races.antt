-- ===== src/PrrCache/Races.antt =====
-- An interleaving of `prr_cache_threaded` that the lock does not prevent, since a call tests
-- `full()` and stores under different locks.
use mathlib.Core.List.{lookup}
use asmoses.Base.{
  ◌+◌, ◌<◌, ◌≡◌, refl, true, false, List, [], ◌∷◌, Option, none, some, length, arith, if◌then◌else◌,
  ◌==◌, lt→ltb, Bool,
}
use asmoses.Threads.{turn, run}
use asmoses.PrrCache.{
  erased_end, PrrCache, prr_full, prr_clear, calling, evaluating, testing, replacing, storing,
  finished, clearing, ended, replace_locked, step,
}
use asmoses.PrrCache.Table.{IsBegin, erase_begin-none}

module _ {K V : Type 0} (dec : Discrete K) (begin : List (K × V) → Option K)
    (f : K → Option V) where
  pub step-calling :
      (x : K) (c : PrrCache K V)
      → lookup dec x c.table ≡ none
      → step dec begin f (calling x) c ≡ (evaluating x, c)
  unfolding step
  step-calling x c h = rw (step, h) refl

  pub step-evaluating :
      (x : K) (v : V) (c : PrrCache K V)
      → f x ≡ some v
      → step dec begin f (evaluating x) c ≡ (testing x v, record c { misses = c.misses + 1 })
  unfolding step
  step-evaluating x v c h = rw (step, h) refl

  pub step-testing :
      (x : K) (v : V) (c : PrrCache K V) (b : Bool)
      → (length c.table == c.n) ≡ b
      → step dec begin f (testing x v) c ≡ ((if b then replacing x v else storing x v), c)
  unfolding step prr_full
  step-testing x v c true h = rw (step, h) refl
  step-testing x v c false h = rw (step, h) refl

  -- A call of a full cache that finds it full, and then waits for the lock while another thread
  -- clears the cache, erases the end of the empty map.
  pub clear_races :
      (x : K) (v : V) (c : PrrCache K V)
      → IsBegin dec begin
      → f x ≡ some v
      → lookup dec x c.table ≡ none
      → length c.table ≡ c.n
      → 0 < c.n
      → (run (step dec begin f) (0 ∷ 0 ∷ 0 ∷ 1 ∷ 0 ∷ []) (calling x ∷ clearing ∷ []) c).0
        ≡ finished x erased_end ∷ ended ∷ []
  unfolding run turn step replace_locked prr_clear
  clear_races x v c b ex hx l p =
      let q : (length c.table == c.n) ≡ true = ground arith in
      let g = erase_begin-none dec begin b in
      let s = lt→ltb 0 c.n p in
      let one : PrrCache K V = record c { misses = c.misses + 1 } in
      rw
        (
          step-calling x c hx,
          step-evaluating x v c ex,
          step-testing x v one true q,
          replace_locked,
          g,
          s,
        )
        refl
