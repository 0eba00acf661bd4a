-- ===== src/LruCache/Valid.antt =====
-- The invariant of `lru_cache`, and that each step of a call keeps it.
use mathlib.Core.List.{lookup}
use asmoses.Base.{
  suc, ◌+◌, ◌≤◌, ◌<◌, ◌≡◌, refl, inl, inr, true, false, List, ◌∷◌, Option, some, length, arith,
  if_pos, if_neg, ◌∙◌, sym, Option-cases, Bool-cases, ltb, ltb→lt, ap,
}
use asmoses.LruCache.{Cache, back, erase, table_erase, evict, init}
use asmoses.LruCache.Keys.{
  contains, Distinct, keys, contains-erase_self, contains-erase_ne, erase-Distinct, length-erase,
  back-contains, back-ne-none, pop_back-erase, keys-table_erase, lookup-table_erase_ne,
  length-table_erase, lookup-table_erase_self,
}

module _ {K V : Type 0} (dec : Discrete K) (f : K → Option V) where
  -- `_map` and `_lru` hold the same keys, each once, and every entry is a result of the function.
  pub record IsConsistent (c : Cache K V) : Type 0 where
    pub distinct : Distinct dec c.lru
    pub keys_distinct : Distinct dec (keys c.table)
    pub same : (k : K) → contains dec k (keys c.table) ≡ contains dec k c.lru
    pub sizes : length c.table ≡ length c.lru
    pub sound : (k : K) (v : V) → lookup dec k c.table ≡ some v → f k ≡ some v

  pub record IsValid (c : Cache K V) : Type 0 where
    pub consistent : IsConsistent c
    pub bounded : length c.lru ≤ c.n

module _ {K : Type 0} (dec : Discrete K) where
  pub front-Distinct : (x : K) (l : List K) → Distinct dec l → Distinct dec (x ∷ erase dec x l)
  front-Distinct x l d = (contains-erase_self dec x l d, erase-Distinct dec x l d)

  contains-front :
      (k x : K) (l : List K)
      → contains dec x l ≡ true
      → contains dec k (x ∷ erase dec x l) ≡ contains dec k l
  unfolding contains
  contains-front k x l h = elim (dec k x) [
    | yes p ↦ rw (if_pos _ p, p) (sym h)
    | no p ↦ rw (if_neg _ p) (contains-erase_ne dec x k l (λ e. p (sym e)))
  ]

module _ {K V : Type 0} (dec : Discrete K) where
  pub evict_fits : (c : Cache K V) → ltb c.n (length c.table) ≡ false → evict dec c ≡ c
  unfolding evict
  evict_fits c h = rw h

module _ {K V : Type 0} (dec : Discrete K) {f : K → Option V} where
  -- Moving a key that is there to the front.
  pub to_front-IsConsistent :
      (c : Cache K V) (x : K) (h : _)
      → contains dec x c.lru ≡ true
      → IsConsistent dec f c
      → IsConsistent dec f (record c { lru = x ∷ erase dec x c.lru; hits = h })
  to_front-IsConsistent c x h m v = record {
    distinct = front-Distinct dec x c.lru v.distinct;
    keys_distinct = v.keys_distinct;
    same = λ k. v.same k ∙ sym (contains-front dec k x c.lru m);
    sizes = omega (arith, length-erase dec x c.lru m, v.sizes);
    sound = v.sound;
  }

  -- A new key at the front, with its result.
  pub insert-IsConsistent :
      (c : Cache K V) (x : K) (v : V) (m : _)
      → contains dec x c.lru ≡ false
      → f x ≡ some v
      → IsConsistent dec f c
      → IsConsistent dec f (record c { misses = m; lru = x ∷ c.lru; table = (x, v) ∷ c.table })
  unfolding contains lookup
  insert-IsConsistent c x v m new fx s = record {
    distinct = (new, s.distinct);
    keys_distinct = (s.same x ∙ new, s.keys_distinct);
    same = λ k. ground (arith, s.same k);
    sizes = ap suc s.sizes;
    sound = λ k w h. ground (arith, s.sound k w);
  }

  -- Taking one key off both containers.
  pub erase-IsConsistent :
      (c : Cache K V) (x : K)
      → contains dec x c.lru ≡ true
      → IsConsistent dec f c
      → IsConsistent dec f (record c { lru = erase dec x c.lru; table = table_erase dec x c.table })
  erase-IsConsistent c x m s = record {
    distinct = erase-Distinct dec x c.lru s.distinct;
    keys_distinct = rw (keys-table_erase dec x c.table) (erase-Distinct dec x _ s.keys_distinct);
    same = λ k. rw (keys-table_erase dec x c.table) (same k);
    sizes = omega (
      arith,
      length-erase dec x c.lru m,
      length-table_erase dec x c.table (s.same x ∙ m),
      s.sizes,
    );
    sound = sound;
  }
    where
      same :
          (k : K) → contains dec k (erase dec x (keys c.table)) ≡ contains dec k (erase dec x c.lru)
      same k = elim (dec x k) [
        | yes p ↦ rw (sym p) (
            contains-erase_self dec x _ s.keys_distinct
            ∙ sym (contains-erase_self dec x _ s.distinct))
        | no p ↦ contains-erase_ne dec x k _ p ∙ s.same k ∙ sym (contains-erase_ne dec x k c.lru p)
      ]

      sound : (k : K) (v : V) → lookup dec k (table_erase dec x c.table) ≡ some v → f k ≡ some v
      sound k v h = elim (dec x k) [
        | yes p ↦ ground (arith, p, lookup-table_erase_self dec x c.table s.keys_distinct)
        | no p ↦ s.sound k v (sym (lookup-table_erase_ne dec x k c.table p) ∙ h)
      ]

  -- The eviction, as an erasure of the last key.
  pub evict-erase :
      (c : Cache K V)
      → IsConsistent dec f c
      → c.n < length c.lru
      → (b : K) × (contains dec b c.lru ≡ true)
        × (back c.lru ≡ some b)
        × (evict dec c ≡ record c { lru = erase dec b c.lru; table = table_erase dec b c.table })
  unfolding evict
  evict-erase c s h = elim (Option-cases (back c.lru)) [
    | inl e ↦ absurd (back-ne-none dec c.lru (omega arith) e)
    | inr (b, e) ↦ (
      b,
      back-contains dec c.lru e,
      e,
      ground (arith, pop_back-erase dec c.lru s.distinct e, s.sizes),
    )
  ]

  -- An eviction where one entry is too many, and none where all fit.
  pub evict-IsValid :
      (c : Cache K V) → IsConsistent dec f c → length c.lru ≤ c.n + 1 → IsValid dec f (evict dec c)
  evict-IsValid c s h = elim (Bool-cases (ltb c.n (length c.table))) [
    | inl over ↦
        let (b, m, _, e) = evict-erase c s (rw (← s.sizes) (ltb→lt _ _ over)) in
        rw e (record {
          consistent = erase-IsConsistent c b m s;
          bounded = omega (arith, length-erase dec b c.lru m);
        })
    | inr fits ↦
        rw (evict_fits dec c fits) (record { consistent = s; bounded = ground (arith, s.sizes) })
  ]

  pub init-IsValid : (n : _) → IsValid dec f (init n)
  unfolding init lookup
  init-IsValid n = record {
    consistent = record {
      distinct = tt;
      keys_distinct = tt;
      same = λ k. refl;
      sizes = refl;
      sound = λ k v h. ground arith;
    };
    bounded = omega arith;
  }
