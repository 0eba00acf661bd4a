-- ===== src/PrrCache/Phases.antt =====
-- Threads that call one `prr_cache_threaded`, in every interleaving of their locked sections.
use mathlib.Core.List.{lookup}
use asmoses.Base.{
  ℕ, ◌<◌, ◌≡◌, refl, inl, inr, List, Option, none, some, length, arith, Option-cases, Bool-cases,
  ◌==◌, lt→ltb,
}
use asmoses.Threads.{AllOf, run, run-keeps}
use asmoses.LruCache.{table_erase}
use asmoses.PrrCache.{
  Answer, answered, threw, erased_end, refused, PrrCache, prr_full, assign, Phase, calling,
  evaluating, testing, replacing, storing, finished, clearing, resizing, ended, broken,
  replace_locked, step,
}
use asmoses.PrrCache.Table.{
  AllComputed, IsBegin, lookup-AllComputed, table_erase-AllComputed, assign-AllComputed,
  length-assign-le, erase_begin-some,
}

module _ {K V : Type 0} (f : K → Option V) where
  -- The answer is what the function gives at the key.
  unfoldable pub IsAnswer : K → Answer V → Type 0
  IsAnswer x (answered v) = f x ≡ some v
  IsAnswer x threw = f x ≡ none
  IsAnswer x erased_end = ⊥
  IsAnswer x refused = ⊥

  -- A thread in a call, with the value of the function in hand; where it is to replace an entry,
  -- there is one.
  unfoldable pub IsInCall : PrrCache K V → Phase K V → Type 0
  IsInCall c (calling x) = Unit
  IsInCall c (evaluating x) = Unit
  IsInCall c (testing x v) = f x ≡ some v
  IsInCall c (replacing x v) = (f x ≡ some v) × (0 < length c.table)
  IsInCall c (storing x v) = f x ≡ some v
  IsInCall c (finished x a) = IsAnswer x a
  IsInCall c clearing = ⊥
  IsInCall c (resizing n) = ⊥
  IsInCall c ended = ⊥
  IsInCall c broken = ⊥

  pub record IsShared (c : PrrCache K V) : Type 0 where
    pub positive : 0 < c.n
    pub computed : AllComputed f c.table

module _ {K V : Type 0} (dec : Discrete K) (begin : List (K × V) → Option K) (f : K → Option V)
    (b : IsBegin dec begin) where
  -- A locked replacement keeps what it needs, its answer is the function's, and it leaves an entry.
  replace-IsShared :
      (x : K) (v : V) (c : PrrCache K V)
      → IsShared f c
      → f x ≡ some v
      → 0 < length c.table
      → (m : List (K × V)) × (replace_locked dec begin f x v c
          ≡ (finished x (answered v), record c { table = m }))
        × AllComputed f m
        × (0 < length m)
  unfolding replace_locked
  replace-IsShared x v c s e l =
      let g = erase_begin-some dec begin b c.table l in
      let m = table_erase dec g.0 c.table in
      let q = lt→ltb 0 c.n s.positive in
      (
        assign dec x v m,
        rw (q, g.1) refl,
        assign-AllComputed dec f x v m e (table_erase-AllComputed dec f g.0 c.table s.computed),
        (length-assign-le dec x v m).1,
      )

  own :
      (p : Phase K V) (c : PrrCache K V)
      → IsShared f c
      → IsInCall f c p
      → IsShared f (step dec begin f p c).1
        × IsInCall f (step dec begin f p c).1 (step dec begin f p c).0
  unfolding step IsInCall IsAnswer prr_full
  own (calling x) c s i = elim (Option-cases (lookup dec x c.table)) [
    | inl h ↦ rw (step, h) ((s, tt))
    | inr (v, h) ↦
        rw (step, h)
          ((
            record { positive = s.positive; computed = s.computed },
            lookup-AllComputed dec f x v c.table s.computed h,
          ))
  ]
  own (evaluating x) c s i = elim (Option-cases (f x)) [
    | inl h ↦ rw (step, h) ((record { positive = s.positive; computed = s.computed }, h))
    | inr (v, h) ↦ rw (step, h) ((record { positive = s.positive; computed = s.computed }, h))
  ]
  own (testing x v) c s i = elim (Bool-cases (length c.table == c.n)) [
    | inl q ↦ rw (step, q) ((s, (i, ground (arith, q, s.positive))))
    | inr q ↦ rw (step, q) ((s, i))
  ]
  own (replacing x v) c s i =
      let r = replace-IsShared x v c s i.0 i.1 in
      rw (step, r.1) ((record { positive = s.positive; computed = r.2 }, i.0))
  own (storing x v) c s i = (
    record { positive = s.positive; computed = assign-AllComputed dec f x v c.table i s.computed },
    i,
  )
  own (finished x a) c s i = (s, i)
  own clearing c s i = elim i [ ]
  own (resizing n) c s i = elim i [ ]
  own ended c s i = elim i [ ]
  own broken c s i = elim i [ ]

  -- A step of a call never empties the map.
  entry_stays :
      (p : Phase K V) (c : PrrCache K V)
      → IsShared f c
      → IsInCall f c p
      → 0 < length c.table
      → 0 < length (step dec begin f p c).1.table
  unfolding step IsInCall IsAnswer prr_full
  entry_stays (calling x) c s i l = elim (Option-cases (lookup dec x c.table)) [
    | inl h ↦ rw (step, h) l
    | inr (v, h) ↦ rw (step, h) l
  ]
  entry_stays (evaluating x) c s i l = elim (Option-cases (f x)) [
    | inl h ↦ rw (step, h) l
    | inr (v, h) ↦ rw (step, h) l
  ]
  entry_stays (testing x v) c s i l = elim (Bool-cases (length c.table == c.n)) [
    | inl q ↦ rw (step, q) l
    | inr q ↦ rw (step, q) l
  ]
  entry_stays (replacing x v) c s i l =
      let r = replace-IsShared x v c s i.0 i.1 in rw (step, r.1) (r.3)
  entry_stays (storing x v) c s i l = (length-assign-le dec x v c.table).1
  entry_stays (finished x a) c s i l = l
  entry_stays clearing c s i l = elim i [ ]
  entry_stays (resizing n) c s i l = elim i [ ]
  entry_stays ended c s i l = elim i [ ]
  entry_stays broken c s i l = elim i [ ]

  others :
      (p q : Phase K V) (c : PrrCache K V)
      → IsShared f c
      → IsInCall f c p
      → IsInCall f c q
      → IsInCall f (step dec begin f p c).1 q
  unfolding IsInCall
  others p (replacing x v) c s i j = (j.0, entry_stays p c s i j.1)
  others p (calling x) c s i j = tt
  others p (evaluating x) c s i j = tt
  others p (testing x v) c s i j = j
  others p (storing x v) c s i j = j
  others p (finished x a) c s i j = j
  others p clearing c s i j = j
  others p (resizing n) c s i j = j
  others p ended c s i j = j
  others p broken c s i j = j

  -- However the steps of threads that call the cache interleave, every entry stays computed and
  -- every thread that finished has the answer of the function: none failed the assertion or erased
  -- the end of an empty map.
  pub run-IsInCall :
      (is : List ℕ) (ps : List (Phase K V)) (c : PrrCache K V)
      → IsShared f c
      → AllOf (IsInCall f c) ps
      → IsShared f (run (step dec begin f) is ps c).1
        × AllOf (IsInCall f (run (step dec begin f) is ps c).1) (run (step dec begin f) is ps c).0
  run-IsInCall = run-keeps (step dec begin f) (IsShared f) (IsInCall f) own others
