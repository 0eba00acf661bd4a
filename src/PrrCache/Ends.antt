-- ===== src/PrrCache/Ends.antt =====
-- What a call of `prr_cache_threaded` comes to: a turn is a section under the lock, or a step between
-- such sections, and four turns are enough.
use asmoses.Base.{
  ℕ, zero, suc, ◌-◌, ◌≤◌, ◌≡◌, refl, sym, ◌∙◌, List, [], ◌∷◌, Option, none, some, ap, subst, arith,
  get_elem?, map,
}
use asmoses.Threads.{AllOf, count, run, rank_at, run-rank, run-own, AllOf-get, rank_at-get}
use asmoses.PrrCache.{
  Answer, PrrCache, prr_full, Phase, calling, evaluating, testing, replacing, storing, finished,
  clearing, resizing, ended, broken, replace_locked, step,
}
use asmoses.PrrCache.Table.{IsBegin}
use asmoses.PrrCache.Phases.{IsAnswer, IsInCall, IsShared, run-IsInCall}

-- The steps that a thread has left at most.
unfoldable pub steps_left : {K V : Type 0} → Phase K V → ℕ
steps_left (calling x) = 4
steps_left (evaluating x) = 3
steps_left (testing x v) = 2
steps_left (replacing x v) = 1
steps_left (storing x v) = 1
steps_left clearing = 1
steps_left (resizing n) = 1
steps_left (finished x a) = 0
steps_left ended = 0
steps_left broken = 0

-- The key of a call.
unfoldable key_of : {K V : Type 0} → Phase K V → Option K
key_of (calling x) = some x
key_of (evaluating x) = some x
key_of (testing x v) = some x
key_of (replacing x v) = some x
key_of (storing x v) = some x
key_of (finished x a) = some x
key_of p = none

module _ {K V : Type 0} (dec : Discrete K) (begin : List (K × V) → Option K)
    (f : K → Option V) where
  step-left :
      (p : Phase K V) (c : PrrCache K V) → steps_left (step dec begin f p c).0 ≤ steps_left p - 1
  unfolding step steps_left prr_full replace_locked
  step-left (calling x) c = ground arith
  step-left (evaluating x) c = ground arith
  step-left (testing x v) c = ground arith
  step-left (replacing x v) c = ground arith
  step-left (storing x v) c = ground arith
  step-left (finished x a) c = ground arith
  step-left clearing c = ground arith
  step-left (resizing n) c = ground arith
  step-left ended c = ground arith
  step-left broken c = ground arith

  steps_left-le : (p : Phase K V) → steps_left p ≤ 4
  unfolding steps_left
  steps_left-le (calling x) = ground arith
  steps_left-le (evaluating x) = ground arith
  steps_left-le (testing x v) = ground arith
  steps_left-le (replacing x v) = ground arith
  steps_left-le (storing x v) = ground arith
  steps_left-le (finished x a) = ground arith
  steps_left-le clearing = ground arith
  steps_left-le (resizing n) = ground arith
  steps_left-le ended = ground arith
  steps_left-le broken = ground arith

  rank_at-le : (i : ℕ) (ps : List (Phase K V)) → rank_at (step dec begin f) steps_left i ps ≤ 4
  unfolding rank_at
  rank_at-le i [] = ground arith
  rank_at-le zero (p ∷ ps) = steps_left-le p
  rank_at-le (suc i) (p ∷ ps) = rank_at-le i ps

  step-key :
      (x : K) (p : Phase K V) (c : PrrCache K V)
      → key_of p ≡ some x
      → key_of (step dec begin f p c).0 ≡ some x
  unfolding step key_of prr_full replace_locked
  step-key x (calling y) c e = ground (arith, e)
  step-key x (evaluating y) c e = ground (arith, e)
  step-key x (testing y v) c e = ground (arith, e)
  step-key x (replacing y v) c e = ground (arith, e)
  step-key x (storing y v) c e = e
  step-key x (finished y a) c e = e
  step-key x clearing c e = absurd (ground (arith, e))
  step-key x (resizing n) c e = absurd (ground (arith, e))
  step-key x ended c e = absurd (ground (arith, e))
  step-key x broken c e = absurd (ground (arith, e))

  -- A call with no step left has the function's answer at its key.
  at_end :
      (x : K) (p : Phase K V) (c : PrrCache K V)
      → key_of p ≡ some x
      → steps_left p ≡ 0
      → IsInCall f c p
      → (a : Answer V) × (p ≡ finished x a) × IsAnswer f x a
  unfolding key_of steps_left IsInCall
  at_end x (calling y) c e z i = absurd (omega (arith, z))
  at_end x (evaluating y) c e z i = absurd (omega (arith, z))
  at_end x (testing y v) c e z i = absurd (omega (arith, z))
  at_end x (replacing y v) c e z i = absurd (omega (arith, z))
  at_end x (storing y v) c e z i = absurd (omega (arith, z))
  at_end x (finished y a) c e z i =
      let same : y ≡ x = ground (arith, e) in
      (a, ap (λ k. finished k a) same, subst (λ k. IsAnswer f k a) same i)
  at_end x clearing c e z i = elim i [ ]
  at_end x (resizing n) c e z i = elim i [ ]
  at_end x ended c e z i = elim i [ ]
  at_end x broken c e z i = elim i [ ]

  all_calling : (xs : List K) (c : PrrCache K V) → AllOf (IsInCall f c) (map calling xs)
  unfolding AllOf IsInCall
  all_calling [] c = tt
  all_calling (x ∷ xs) c = (tt, all_calling xs c)

  calling_at :
      (xs : List K) (i : ℕ) (x : K)
      → get_elem? xs i ≡ some x
      → ◌≡◌ {A = Option (Phase K V)} (get_elem? (map calling xs) i) (some (calling x))
  calling_at [] i x e = absurd (ground (arith, e))
  calling_at (y ∷ xs) zero x e = ground (arith, e)
  calling_at (y ∷ xs) (suc i) x e = calling_at xs i x e

  -- Let the cache have room for an entry, and its entries hold the values of the function. However threads
  -- that call it interleave, one that has had four turns has finished, with the answer of the function at
  -- its own key.
  pub run-answers :
      IsBegin dec begin
      → (i : ℕ) (is : List ℕ) (xs : List K) (x : K) (c : PrrCache K V) → IsShared f c
      → get_elem? xs i ≡ some x
      → 4 ≤ count i is
      → (a : Answer V) × (get_elem? (run (step dec begin f) is (map calling xs) c).0 i
          ≡ some (finished x a))
        × IsAnswer f x a
  unfolding key_of
  run-answers b i is xs x c s e h =
      let there = calling_at xs i x e in
      let (p, at_i, key) =
        run-own (step dec begin f) (λ q. key_of q ≡ some x) (step-key x) i is (map calling xs) c
          (calling x) there refl in
      let all = run-IsInCall dec begin f b is (map calling xs) c s (all_calling xs c) in
      let now = run (step dec begin f) is (map calling xs) c in
      let r = run-rank (step dec begin f) steps_left step-left i is (map calling xs) c in
      let spent : steps_left p ≡ 0 =
        sym (rank_at-get (step dec begin f) steps_left now.0 i p at_i)
        ∙ omega (arith, h, r, rank_at-le i (map calling xs)) in
      let (a, same, right) =
        at_end x p now.1 key spent (AllOf-get (IsInCall f now.1) now.0 i p all.1 at_i) in
      (a, at_i ∙ ap some same, right)
