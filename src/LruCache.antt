-- ===== src/LruCache.antt =====
-- `lru_cache` of opencog/asmoses/utils/lru_cache.h: a cache of at most `_n` results of a function
-- that may throw, with the keys kept in `_lru` from the most to the least recently used.
-- `_map` is an association list. A map entry is keyed by an iterator into `_lru`, compared by the
-- key that it points to: the model keys it by that key, which occurs once in `_lru`. The counters, atomic
-- `size_t`s, are natural numbers: as many calls as make them wrap are out of reach.
use mathlib.Core.List.{lookup}
use asmoses.Base.{
  ℕ, zero, suc, ◌+◌, Bool, true, false, List, [], ◌∷◌, Option, none, some, ite, length, ◌==◌, ltb,
  ◌&&◌, leb, if◌then◌else◌,
}
pub mod Keys
mod Valid
mod Calls
mod Resize
mod Tests

-- What a call does: it returns, the exception of the cached function passes, or an assertion fails.
pub data Outcome (A : Type 0) : Type 0 where
  returned : A → Outcome A
  thrown : Outcome A
  asserted : Outcome A

pub record Cache (K V : Type 0) : Type 0 where
  pub n : ℕ
  pub table : List (K × V)
  pub lru : List K
  pub misses : ℕ
  pub hits : ℕ

module _ {A : Type 0} where
  -- `list::pop_back`; on an empty list it is undefined, and here does nothing.
  unfoldable pub pop_back : List A → List A
  pop_back [] = []
  pop_back (x ∷ []) = []
  pop_back (x ∷ y ∷ xs) = x ∷ pop_back (y ∷ xs)

  unfoldable pub pop_front : List A → List A
  pop_front [] = []
  pop_front (x ∷ xs) = xs

  -- `*--list::end()`
  unfoldable pub back : List A → Option A
  back [] = none
  back (x ∷ []) = some x
  back (x ∷ y ∷ xs) = back (y ∷ xs)

module _ {K V : Type 0} where
  unfoldable pub init : ℕ → Cache K V
  init n = record { n = n; table = []; lru = []; misses = 0; hits = 0 }

  unfoldable pub full : Cache K V → Bool
  full c = length c.table == c.n

  unfoldable pub empty : Cache K V → Bool
  empty c = length c.table == 0

  unfoldable pub clear : Cache K V → Cache K V
  clear c = record c { table = []; lru = [] }

module _ {K : Type 0} (dec : Discrete K) where
  -- `list::erase` of the node that holds the key.
  unfoldable pub erase : K → List K → List K
  erase k [] = []
  erase k (x ∷ xs) = ite (dec k x) xs (x ∷ erase k xs)

module _ {K V : Type 0} (dec : Discrete K) where
  -- `unordered_map::erase`
  unfoldable pub table_erase : K → List (K × V) → List (K × V)
  table_erase k [] = []
  table_erase k ((j, v) ∷ m) = ite (dec k j) m ((j, v) ∷ table_erase k m)

  -- `unordered_map::insert` keeps an entry that is there.
  unfoldable pub table_insert : K → V → List (K × V) → List (K × V)
  table_insert k v m = elim (lookup dec k m) [ none ↦ (k, v) ∷ m | some _ ↦ m ]

  -- The temporary front node makes an iterator to search with; what is erased is the entry's own
  -- node, behind it.
  unfoldable pub remove : K → Cache K V → Cache K V
  remove x c =
      let found = record c {
        lru = pop_front (x ∷ erase dec x c.lru);
        table = table_erase x c.table;
      } in
      elim (lookup dec x c.table) [
        | none ↦ record c { lru = pop_front (x ∷ c.lru) }
        | some _ ↦ found
      ]

  -- The eviction of the least recently used key, if there are more than `_n` entries.
  unfoldable pub evict : Cache K V → Cache K V
  evict c =
      if ltb c.n (length c.table)
      then (elim (back c.lru) [
        | none ↦ c
        | some k ↦ record c { table = table_erase k c.table; lru = pop_back c.lru }
      ])
      else c

  -- The two assertions, and the result that is read through the inserted entry.
  unfoldable pub checked : Cache K V → V → Outcome V
  checked c v =
      if leb (length c.table) c.n && (length c.lru == length c.table) then returned v else asserted

  module _ (f : K → Option V) where
    -- `if_f`: count a miss and call.
    unfoldable pub call_uncached : K → Cache K V → Cache K V × Outcome V
    call_uncached x c = elim (f x) [
      | none ↦ (record c { misses = c.misses + 1 }, thrown)
      | some v ↦ (record c { misses = c.misses + 1 }, returned v)
    ]

    -- The first entry of an empty cache.
    unfoldable pub call_first : K → Cache K V → Cache K V × Outcome V
    call_first x c = elim (f x) [
      | none ↦ (record c { misses = c.misses + 1; lru = pop_front (x ∷ c.lru) }, thrown)
      | some v ↦ (
        record c { misses = c.misses + 1; lru = x ∷ c.lru; table = table_insert x v c.table },
        returned v,
      )
    ]

    -- `ifx_f`, the insertion and the eviction; where the function throws, `x_f` takes `x` off
    -- `_lru` again.
    unfoldable pub call_miss : K → Cache K V → Cache K V × Outcome V
    call_miss x c = elim (f x) [
      | none ↦ (record c { misses = c.misses + 1; lru = pop_front (x ∷ c.lru) }, thrown)
      | some v ↦
          let stored = record c {
            misses = c.misses + 1;
            lru = x ∷ c.lru;
            table = table_insert x v c.table;
          } in
          let kept = evict stored in (kept, checked kept v)
    ]

    -- A hit takes the temporary node off and splices the entry's node to the front.
    unfoldable pub call_hit : K → V → Cache K V → Cache K V × Outcome V
    call_hit x v c = (record c { lru = x ∷ erase dec x c.lru; hits = c.hits + 1 }, returned v)

    unfoldable pub call : K → Cache K V → Cache K V × Outcome V
    call x c =
        if empty c
        then (if full c then call_uncached x c else call_first x c)
        else (elim (lookup dec x c.table) [ none ↦ call_miss x c | some v ↦ call_hit x v c ])

  -- The loop of `resize`: it erases from the front of `_lru`. `none` is a failed assertion.
  unfoldable pub shrink : ℕ → Cache K V → Option (Cache K V)
  shrink zero c = some c
  shrink (suc rounds) c =
      let shorter : Option (Cache K V) = elim c.lru [
        | [] ↦ none
        | k ∷ ks ↦ elim (lookup dec k c.table) [
          | none ↦ none
          | some _ ↦ shrink rounds (record c { lru = ks; table = table_erase k c.table })
        ]
      ] in
      if ltb c.n (length c.table) then shorter else some c

  -- Each round takes an entry off, so as many rounds as entries are enough. At the end the sizes of the
  -- containers are asserted equal.
  unfoldable pub resize : ℕ → Cache K V → Option (Cache K V)
  resize n c = elim (shrink (length c.table) (record c { n = n })) [
    | none ↦ none
    | some d ↦ if length d.lru == length d.table then some d else none
  ]
