-- ===== src/PrrCache.antt =====
-- `prr_cache` and `prr_cache_threaded` of opencog/asmoses/utils/lru_cache.h: a cache that makes room
-- by erasing `_map.begin()`. Which entry comes first in an unordered map is the parameter `begin`.
use mathlib.Core.List.{lookup}
use asmoses.Base.{
  ℕ, zero, suc, ◌+◌, ◌<◌, ◌≡◌, Bool, true, false, List, [], ◌∷◌, Option, none, some, ite, length,
  ◌==◌, ltb, if◌then◌else◌,
}
use asmoses.LruCache.{table_erase}
pub mod Table
mod Calls
mod Phases
mod Ends
mod Overfull
mod Races
mod Tests

-- What a call does: it returns, the exception of the cached function passes, it erases the end of
-- an empty map, which is undefined, or its assertion fails.
pub data Answer (A : Type 0) : Type 0 where
  answered : A → Answer A
  threw : Answer A
  erased_end : Answer A
  refused : Answer A

pub record PrrCache (K V : Type 0) : Type 0 where
  pub n : ℕ
  pub table : List (K × V)
  pub misses : ℕ
  pub hits : ℕ

module _ {K V : Type 0} where
  unfoldable pub prr_init : ℕ → PrrCache K V
  prr_init n = record { n = n; table = []; misses = 0; hits = 0 }

  unfoldable pub prr_full : PrrCache K V → Bool
  prr_full c = length c.table == c.n

  unfoldable pub prr_clear : PrrCache K V → PrrCache K V
  prr_clear c = record c { table = [] }

module _ {K V : Type 0} (dec : Discrete K) where
  -- `_map[x] = res`
  unfoldable pub assign : K → V → List (K × V) → List (K × V)
  assign x v [] = (x, v) ∷ []
  assign x v ((k, w) ∷ m) = ite (dec x k) ((k, v) ∷ m) ((k, w) ∷ assign x v m)

  module _ (begin : List (K × V) → Option K) where
    -- `_map.erase(_map.begin())`, `none` where there is nothing to erase.
    unfoldable pub erase_begin : List (K × V) → Option (List (K × V))
    erase_begin m = elim (begin m) [ none ↦ none | some k ↦ some (table_erase dec k m) ]

    -- The part of a call behind the evaluation: make room, store and return.
    unfoldable pub store : K → V → PrrCache K V → PrrCache K V × Answer V
    store x v c =
        let replaced : PrrCache K V × Answer V = elim (erase_begin c.table) [
          | none ↦ (c, erased_end)
          | some m ↦ (record c { table = assign x v m }, answered v)
        ] in
        if prr_full c then replaced else (record c { table = assign x v c.table }, answered v)

    module _ (f : K → Option V) where
      unfoldable pub prr_call : K → PrrCache K V → PrrCache K V × Answer V
      prr_call x c = elim (lookup dec x c.table) [
        | some v ↦ (record c { hits = c.hits + 1 }, answered v)
        | none ↦ elim (f x) [
          | none ↦ (record c { misses = c.misses + 1 }, threw)
          | some v ↦ store x v (record c { misses = c.misses + 1 })
        ]
      ]

    -- The loop of `resize`.
    unfoldable pub erase_over : ℕ → PrrCache K V → Option (PrrCache K V)
    erase_over zero c = some c
    erase_over (suc rounds) c =
        let fewer : Option (PrrCache K V) = elim (erase_begin c.table) [
          | none ↦ none
          | some m ↦ erase_over rounds (record c { table = m })
        ] in
        if ltb c.n (length c.table) then fewer else some c

    -- Each round takes an entry off, so as many rounds as entries are enough.
    unfoldable pub prr_resize : ℕ → PrrCache K V → Option (PrrCache K V)
    prr_resize n c = erase_over (length c.table) (record c { n = n })

-- The point that a thread has reached in an operation of `prr_cache_threaded`: each takes one step,
-- under its lock or on an atomic counter, to the next.
pub data Phase (K V : Type 0) : Type 0 where
  calling : K → Phase K V
  evaluating : K → Phase K V
  testing : K → V → Phase K V
  replacing : K → V → Phase K V
  storing : K → V → Phase K V
  finished : K → Answer V → Phase K V
  clearing : Phase K V
  resizing : ℕ → Phase K V
  ended : Phase K V
  broken : Phase K V

module _ {K V : Type 0} (dec : Discrete K) (begin : List (K × V) → Option K)
    (f : K → Option V) where
  -- Under the lock, with `full()` found true before the lock was taken.
  unfoldable pub replace_locked : K → V → PrrCache K V → Phase K V × PrrCache K V
  replace_locked x v c =
      let replaced : Phase K V × PrrCache K V = elim (erase_begin dec begin c.table) [
        | none ↦ (finished x erased_end, c)
        | some m ↦ (finished x (answered v), record c { table = assign dec x v m })
      ] in
      if ltb 0 c.n then replaced else (finished x refused, c)

  unfoldable pub step : Phase K V → PrrCache K V → Phase K V × PrrCache K V
  step (calling x) c = elim (lookup dec x c.table) [
    | some v ↦ (finished x (answered v), record c { hits = c.hits + 1 })
    | none ↦ (evaluating x, c)
  ]
  step (evaluating x) c = elim (f x) [
    | none ↦ (finished x threw, record c { misses = c.misses + 1 })
    | some v ↦ (testing x v, record c { misses = c.misses + 1 })
  ]
  step (testing x v) c = if prr_full c then (replacing x v, c) else (storing x v, c)
  step (replacing x v) c = replace_locked x v c
  step (storing x v) c = (finished x (answered v), record c { table = assign dec x v c.table })
  step clearing c = (ended, prr_clear c)
  step (resizing n) c = elim (prr_resize dec begin n c) [ none ↦ (broken, c) | some d ↦ (ended, d) ]
  step (finished x a) c = (finished x a, c)
  step ended c = (ended, c)
  step broken c = (broken, c)
