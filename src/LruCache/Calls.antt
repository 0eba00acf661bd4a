-- ===== src/LruCache/Calls.antt =====
-- What a call of `lru_cache` returns, leaves in the cache and counts.
use mathlib.Core.List.{lookup}
use asmoses.Base.{
  ◌+◌, ◌≤◌, ◌<◌, ◌≡◌, refl, inl, inr, true, false, ◌∷◌, Option, none, some, length, arith, ◌∙◌, sym,
  Option-cases, Bool-cases, ltb, take, take_of_length-le, eq-nil_of_length, ltb→lt, ℕ, dec_lt,
  if◌then◌else◌,
}
use asmoses.LruCache.{
  Cache, Outcome, returned, thrown, full, empty, pop_front, erase, table_insert, evict, checked,
  call_uncached, call_first, call_miss, call_hit, call,
}
use asmoses.LruCache.Keys.{
  contains, lookup-none, lookup-some, lookup_pos, erase_absent, pop_back-take, length-erase,
}
use asmoses.LruCache.Valid.{
  IsConsistent, IsValid, to_front-IsConsistent, insert-IsConsistent, evict-IsValid, evict-erase,
  evict_fits,
}

-- What the function itself would do.
abbrev pub as_outcome : {V : Type 0} → Option V → Outcome V
as_outcome none = thrown
as_outcome (some v) = returned v

module _ {K V : Type 0} (dec : Discrete K) (f : K → Option V) (x : K) (c : Cache K V) where
  -- The cache behind a miss that returned, before the eviction.
  abbrev pub stored : V → Cache K V
  stored v = record c { misses = c.misses + 1; lru = x ∷ c.lru; table = (x, v) ∷ c.table }

  module _ (s : IsValid dec f c) where
    open s use {consistent}

    lru_absent : lookup dec x c.table ≡ none → contains dec x c.lru ≡ false
    lru_absent h = sym (consistent.same x) ∙ lookup-none dec x c.table h

    lru_present : (v : V) → lookup dec x c.table ≡ some v → contains dec x c.lru ≡ true
    lru_present v h = sym (consistent.same x) ∙ lookup-some dec x v c.table h

    stored-IsConsistent :
        (v : V) → lookup dec x c.table ≡ none → f x ≡ some v → IsConsistent dec f (stored v)
    stored-IsConsistent v h e = insert-IsConsistent dec c x v _ (lru_absent h) e consistent

    pub call_miss_returns :
        (v : V)
        → lookup dec x c.table ≡ none
        → f x ≡ some v
        → (call_miss dec f x c ≡ (evict dec (stored v), returned v))
          × IsValid dec f (evict dec (stored v))
    unfolding call_miss table_insert checked
    call_miss_returns v h e =
        let w =
          evict-IsValid dec (stored v) (stored-IsConsistent v h e) (omega (arith, s.bounded)) in
        (ground (arith, w.bounded, w.consistent.sizes), w)

    pub call_miss_throws :
        f x ≡ none → call_miss dec f x c ≡ (record c { misses = c.misses + 1 }, thrown)
    unfolding call_miss pop_front
    call_miss_throws e = ground arith

    -- The four ways through a call.
    pub call_on_hit :
        (v : V) → lookup dec x c.table ≡ some v → call dec f x c ≡ call_hit dec f x v c
    unfolding call empty
    call_on_hit v h = ground (arith, lookup_pos dec x v c.table h)

    pub call_on_throw :
        lookup dec x c.table ≡ none
        → f x ≡ none
        → call dec f x c ≡ (record c { misses = c.misses + 1 }, thrown)
    unfolding call empty full call_uncached call_first pop_front
    call_on_throw h e = ground (arith, call_miss_throws e)

    pub call_unlimited :
        (v : V)
        → lookup dec x c.table ≡ none
        → f x ≡ some v
        → c.n ≡ 0
        → call dec f x c ≡ (record c { misses = c.misses + 1 }, returned v)
    unfolding call empty full call_uncached
    call_unlimited v h e z = ground (arith, s.bounded, consistent.sizes)

    pub call_on_miss :
        (v : V)
        → lookup dec x c.table ≡ none
        → f x ≡ some v
        → 0 < c.n
        → call dec f x c ≡ (evict dec (stored v), returned v)
    unfolding call empty full call_first table_insert evict
    call_on_miss v h e z = ground (arith, call_miss_returns v h e, s.bounded, consistent.sizes)

-- Each theorem about a call goes through its four ways.
module _ {K V : Type 0} (dec : Discrete K) (f : K → Option V) where
  data Way (x : K) (c : Cache K V) : Type 0 where
    hit : (v : V) → lookup dec x c.table ≡ some v → f x ≡ some v → Way x c
    throw : lookup dec x c.table ≡ none → f x ≡ none → Way x c
    unlimited : (v : V) → lookup dec x c.table ≡ none → f x ≡ some v → c.n ≡ 0 → Way x c
    miss : (v : V) → lookup dec x c.table ≡ none → f x ≡ some v → 0 < c.n → Way x c

  way : (x : K) (c : Cache K V) → IsValid dec f c → Way x c
  way x c s = elim (Option-cases (lookup dec x c.table)) [
    | inr (v, h) ↦ hit v h (s.consistent.sound x v h)
    | inl h ↦ elim (Option-cases (f x)) [
      | inl e ↦ throw h e
      | inr (v, e) ↦ elim (dec_lt 0 c.n) [
        | yes p ↦ miss v h e p
        | no p ↦ unlimited v h e (omega arith)
      ]
    ]
  ]

  -- On a valid cache a call gives what the function itself gives, its exception included, and no
  -- assertion fails.
  pub call-transparent :
      (x : K) (c : Cache K V) → IsValid dec f c → (call dec f x c).1 ≡ as_outcome (f x)
  unfolding call_hit
  call-transparent x c s = elim (way x c s) [
    | hit v h e ↦ rw (call_on_hit dec f x c s v h, e)
    | throw h e ↦ rw (call_on_throw dec f x c s h e, e)
    | unlimited v h e z ↦ rw (call_unlimited dec f x c s v h e z, e)
    | miss v h e p ↦ rw (call_on_miss dec f x c s v h e p, e)
  ]

  recount : (c : Cache K V) (m : ℕ) → IsValid dec f c → IsValid dec f (record c { misses = m })
  recount c m s = record {
    consistent = record {
      distinct = s.consistent.distinct;
      keys_distinct = s.consistent.keys_distinct;
      same = s.consistent.same;
      sizes = s.consistent.sizes;
      sound = s.consistent.sound;
    };
    bounded = s.bounded;
  }

  -- A call keeps the invariant, whether it hits, misses or throws.
  pub call-IsValid : (x : K) (c : Cache K V) → IsValid dec f c → IsValid dec f (call dec f x c).0
  unfolding call_hit
  call-IsValid x c s = elim (way x c s) [
    | hit v h e ↦
        let m = lru_present dec f x c s v h in
        rw (call_on_hit dec f x c s v h) (record {
          consistent = to_front-IsConsistent dec c x _ m s.consistent;
          bounded = omega (arith, length-erase dec x c.lru m, s.bounded);
        })
    | throw h e ↦ rw (call_on_throw dec f x c s h e) (recount c _ s)
    | unlimited v h e z ↦ rw (call_unlimited dec f x c s v h e z) (recount c _ s)
    | miss v h e p ↦ rw (call_on_miss dec f x c s v h e p) (call_miss_returns dec f x c s v h e).1
  ]

  evict-lru :
      (c : Cache K V)
      → IsConsistent dec f c
      → length c.lru ≤ c.n + 1
      → (evict dec c).lru ≡ take c.n c.lru
  unfolding evict
  evict-lru c s h = elim (Bool-cases (ltb c.n (length c.table))) [
    | inl over ↦
        let (b, _, e, _) = evict-erase dec c s (rw (← s.sizes) (ltb→lt _ _ over)) in
        ground (arith, pop_back-take c.n c.lru, s.sizes)
    | inr fits ↦
        rw (evict_fits dec c fits) (sym (take_of_length-le c.n c.lru (ground (arith, s.sizes))))
  ]

  -- After a call that returns, `_lru` is the key, then the other keys in their old order, cut to
  -- the size of the cache: only the least recently used key is ever evicted.
  pub call-lru :
      (x : K) (c : Cache K V) (v : V)
      → IsValid dec f c
      → f x ≡ some v
      → (call dec f x c).0.lru ≡ take c.n (x ∷ erase dec x c.lru)
  unfolding call_hit
  call-lru x c v s fx = elim (way x c s) [
    | hit w h e ↦ rw (call_on_hit dec f x c s w h) (
        sym (
          take_of_length-le c.n (x ∷ erase dec x c.lru)
            (omega (arith, length-erase dec x c.lru (lru_present dec f x c s w h), s.bounded))))
    | throw h e ↦ cc
    | unlimited w h e z ↦
        rw (call_unlimited dec f x c s w h e z, z)
          (eq-nil_of_length c.lru (omega (arith, s.bounded)))
    | miss w h e p ↦
        rw (call_on_miss dec f x c s w h e p, erase_absent dec x c.lru (lru_absent dec f x c s h))
          (evict-lru (stored dec f x c w) (stored-IsConsistent dec f x c s w h e)
            (omega (arith, s.bounded)))
  ]

  evict_counts : (c : Cache K V) → ((evict dec c).hits ≡ c.hits) × ((evict dec c).misses ≡ c.misses)
  unfolding evict
  evict_counts c = ground arith

  -- Every call counts once: as a hit exactly when the key is in the cache, else as a miss.
  pub call_counts :
      (x : K) (c : Cache K V)
      → IsValid dec f c
      → ((call dec f x c).0.hits ≡ c.hits + (if contains dec x c.lru then 1 else 0))
        × ((call dec f x c).0.misses ≡ c.misses + (if contains dec x c.lru then 0 else 1))
  unfolding call_hit
  call_counts x c s = elim (way x c s) [
    | hit v h e ↦
        rw (call_on_hit dec f x c s v h, lru_present dec f x c s v h) (omega arith, omega arith)
    | throw h e ↦
        rw (call_on_throw dec f x c s h e, lru_absent dec f x c s h) (omega arith, omega arith)
    | unlimited v h e z ↦
        rw (call_unlimited dec f x c s v h e z, lru_absent dec f x c s h) (omega arith, omega arith)
    | miss v h e p ↦
        rw (call_on_miss dec f x c s v h e p, lru_absent dec f x c s h)
          (
            omega (arith, (evict_counts (stored dec f x c v)).0),
            omega (arith, (evict_counts (stored dec f x c v)).1),
          )
  ]

  -- A call that throws leaves the keys and the results as they are.
  pub call_thrown :
      (x : K) (c : Cache K V)
      → IsValid dec f c
      → f x ≡ none
      → ((call dec f x c).0.lru ≡ c.lru) × ((call dec f x c).0.table ≡ c.table)
  call_thrown x c s fx = elim (way x c s) [
    | hit v h e ↦ cc
    | throw h e ↦ rw (call_on_throw dec f x c s h e) (refl, refl)
    | unlimited v h e z ↦ cc
    | miss v h e p ↦ cc
  ]
