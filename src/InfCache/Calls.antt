-- ===== src/InfCache/Calls.antt =====
-- Every interleaving of calls of `inf_cache`.
use mathlib.Core.List.{lookup}
use asmoses.Base.{ℕ, ◌≡◌, sym, ◌∙◌, inl, inr, List, Option, none, some, arith, Option-cases}
use asmoses.Threads.{AllOf, run, run-keeps}
use asmoses.PrrCache.Table.{
  AllComputed, lookup-AllComputed, assign-AllComputed, lookup-assign_self, lookup-assign_ne,
}
use asmoses.InfCache.{InfCache, Point, searching, missed, inserting, over, inf_step}

module _ {K V : Type 0} (dec : Discrete K) (f : K → Option V) where
  abbrev pub Computed : InfCache K V → Type 0
  Computed c = AllComputed f c.entries

  -- The value in hand is the function's; a call that is over has the answer of the function, and a
  -- value that it returned is in the cache.
  unfoldable pub IsRight : InfCache K V → Point K V → Type 0
  IsRight c (searching x) = Unit
  IsRight c (missed x) = Unit
  IsRight c (inserting x v) = f x ≡ some v
  IsRight c (over x a) = (f x ≡ a) × (lookup dec x c.entries ≡ a)

  absent : (x : K) (m : List (K × V)) → AllComputed f m → f x ≡ none → lookup dec x m ≡ none
  absent x m a h = elim (Option-cases (lookup dec x m)) [
    | inl e ↦ e
    | inr (v, e) ↦ absurd (ground (arith, lookup-AllComputed dec f x v m a e, h))
  ]

  own :
      (p : Point K V) (c : InfCache K V)
      → Computed c
      → IsRight c p
      → Computed (inf_step dec f p c).1 × IsRight (inf_step dec f p c).1 (inf_step dec f p c).0
  unfolding inf_step IsRight
  own (searching x) c s i = elim (Option-cases (lookup dec x c.entries)) [
    | inl h ↦ rw (inf_step, h) ((s, tt))
    | inr (v, h) ↦ rw (inf_step, h) ((s, (lookup-AllComputed dec f x v c.entries s h, h)))
  ]
  own (missed x) c s i = elim (Option-cases (f x)) [
    | inl h ↦ rw (inf_step, h) ((s, (h, absent x c.entries s h)))
    | inr (v, h) ↦ rw (inf_step, h) ((s, h))
  ]
  own (inserting x v) c s i =
      (assign-AllComputed dec f x v c.entries i s, (i, lookup-assign_self dec x v c.entries))
  own (over x a) c s i = (s, i)

  -- What the cache has at a key does not change by a call, once it is what the function gives.
  lookup_stays :
      (p : Point K V) (c : InfCache K V) (x : K)
      → Computed c
      → IsRight c p
      → lookup dec x c.entries ≡ f x
      → lookup dec x (inf_step dec f p c).1.entries ≡ f x
  unfolding inf_step IsRight
  lookup_stays (searching y) c x s i h = elim (Option-cases (lookup dec y c.entries)) [
    | inl e ↦ rw (inf_step, e) h
    | inr (v, e) ↦ rw (inf_step, e) h
  ]
  lookup_stays (missed y) c x s i h = elim (Option-cases (f y)) [
    | inl e ↦ rw (inf_step, e) h
    | inr (v, e) ↦ rw (inf_step, e) h
  ]
  lookup_stays (inserting y w) c x s i h = elim (dec y x) [
    | yes p ↦ rw (sym p) (lookup-assign_self dec y w c.entries ∙ sym i)
    | no p ↦ lookup-assign_ne dec y x w c.entries p ∙ h
  ]
  lookup_stays (over y a) c x s i h = h

  others :
      (p q : Point K V) (c : InfCache K V)
      → Computed c
      → IsRight c p
      → IsRight c q
      → IsRight (inf_step dec f p c).1 q
  unfolding IsRight
  others p (searching x) c s i j = tt
  others p (missed x) c s i j = tt
  others p (inserting x v) c s i j = j
  others p (over x a) c s i j = (j.0, lookup_stays p c x s i (j.1 ∙ sym (j.0)) ∙ j.0)

  -- In every interleaving of calls of an `inf_cache`, every entry holds the value of the function at
  -- its key, and once a call is over its answer is the function's and the cache has it, or has no
  -- entry where the function throws, whatever the other calls do.
  pub run-IsRight :
      (is : List ℕ) (ps : List (Point K V)) (c : InfCache K V)
      → AllComputed f c.entries
      → AllOf (IsRight c) ps
      → AllComputed f (run (inf_step dec f) is ps c).1.entries
        × AllOf (IsRight (run (inf_step dec f) is ps c).1) (run (inf_step dec f) is ps c).0
  run-IsRight = run-keeps (inf_step dec f) Computed IsRight own others
