-- ===== src/PrrCache/Table.antt =====
-- What erasing and assigning do to the map of `prr_cache`.
use mathlib.Core.List.{lookup}
use asmoses.Base.{
  ◌+◌, ◌≤◌, ◌<◌, ◌≡◌, refl, ◌≢◌, sym, List, [], ◌∷◌, Option, none, some, length, arith, if_pos,
  if_neg,
}
use asmoses.LruCache.{table_erase}
use asmoses.LruCache.Keys.{lookup-some, length-table_erase}
use asmoses.PrrCache.{assign, erase_begin}

module _ {K V : Type 0} (f : K → Option V) where
  -- Each entry holds what the function gives at its key.
  unfoldable pub AllComputed : List (K × V) → Type 0
  AllComputed [] = Unit
  AllComputed (e ∷ m) = (f e.0 ≡ some e.1) × AllComputed m

module _ {K V : Type 0} (dec : Discrete K) where
  -- `begin` gives the end on an empty map, else an entry of the map.
  pub record IsBegin (begin : List (K × V) → Option K) : Type 0 where
    pub at_end : begin [] ≡ none
    pub entry :
        (m : List (K × V))
        → 0 < length m
        → (k : K) × (v : V) × (begin m ≡ some k) × (lookup dec k m ≡ some v)

  module _ (f : K → Option V) where
    pub lookup-AllComputed :
        (x : K) (v : V) (m : List (K × V))
        → AllComputed f m
        → lookup dec x m ≡ some v
        → f x ≡ some v
    unfolding lookup AllComputed
    lookup-AllComputed x v [] a h = ground arith
    lookup-AllComputed x v (e ∷ m) a h = ground (arith, lookup-AllComputed x v m a.1, a.0)

    pub table_erase-AllComputed :
        (x : K) (m : List (K × V)) → AllComputed f m → AllComputed f (table_erase dec x m)
    unfolding table_erase AllComputed
    table_erase-AllComputed x [] a = tt
    table_erase-AllComputed x (e ∷ m) a = elim (dec x e.0) [
      | yes p ↦ rw (if_pos _ p) a.1
      | no p ↦ rw (if_neg _ p) ((a.0, table_erase-AllComputed x m a.1))
    ]

    pub assign-AllComputed :
        (x : K) (v : V) (m : List (K × V))
        → f x ≡ some v
        → AllComputed f m
        → AllComputed f (assign dec x v m)
    unfolding assign AllComputed
    assign-AllComputed x v [] h a = (h, tt)
    assign-AllComputed x v (e ∷ m) h a = elim (dec x e.0) [
      | yes p ↦ rw (if_pos _ p) ((rw (sym p) h, a.1))
      | no p ↦ rw (if_neg _ p) ((a.0, assign-AllComputed x v m h a.1))
    ]

  pub length-assign-absent :
      (x : K) (v : V) (m : List (K × V))
      → lookup dec x m ≡ none
      → length (assign dec x v m) ≡ length m + 1
  unfolding assign lookup
  length-assign-absent x v [] h = refl
  length-assign-absent x v (e ∷ m) h = ground (arith, length-assign-absent x v m)

  pub length-assign-le :
      (x : K) (v : V) (m : List (K × V))
      → (length (assign dec x v m) ≤ length m + 1) × (0 < length (assign dec x v m))
  unfolding assign
  length-assign-le x v [] = ground arith
  length-assign-le x v (e ∷ m) = ground (arith, length-assign-le x v m)

  pub lookup-assign_self :
      (x : K) (v : V) (m : List (K × V)) → lookup dec x (assign dec x v m) ≡ some v
  unfolding assign lookup
  lookup-assign_self x v [] = ground arith
  lookup-assign_self x v (e ∷ m) = ground (arith, lookup-assign_self x v m)

  pub lookup-assign_ne :
      (x y : K) (v : V) (m : List (K × V))
      → x ≢ y
      → lookup dec y (assign dec x v m) ≡ lookup dec y m
  unfolding assign lookup
  lookup-assign_ne x y v [] h = ground arith
  lookup-assign_ne x y v (e ∷ m) h = ground (arith, lookup-assign_ne x y v m h)

  pub lookup-table_erase-none :
      (x k : K) (m : List (K × V))
      → lookup dec x m ≡ none
      → lookup dec x (table_erase dec k m) ≡ none
  unfolding lookup table_erase
  lookup-table_erase-none x k [] h = refl
  lookup-table_erase-none x k (e ∷ m) h = ground (arith, lookup-table_erase-none x k m)

  module _ (begin : List (K × V) → Option K) (b : IsBegin begin) where
    -- On a map with an entry, `erase(begin())` takes an entry off.
    pub erase_begin-some :
        (m : List (K × V))
        → 0 < length m
        → (k : K) × (erase_begin dec begin m ≡ some (table_erase dec k m))
          × (length (table_erase dec k m) + 1 ≡ length m)
    unfolding erase_begin
    erase_begin-some m h =
        let e = b.entry m h in
        (
          e.0,
          rw (erase_begin, e.2) refl,
          length-table_erase dec e.0 m (lookup-some dec e.0 e.1 m e.3),
        )

    pub erase_begin-none : erase_begin dec begin [] ≡ none
    unfolding erase_begin
    erase_begin-none = rw (erase_begin, b.at_end) refl
