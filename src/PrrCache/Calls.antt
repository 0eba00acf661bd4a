-- ===== src/PrrCache/Calls.antt =====
-- What calls and `resize` of `prr_cache` return and leave in the cache.
use mathlib.Core.List.{lookup}
use asmoses.Base.{
  ℕ, zero, suc, ◌+◌, ◌≤◌, ◌<◌, ◌≡◌, refl, inl, inr, List, Option, none, some, length, arith,
  Option-cases, Bool-cases, ltb, ◌==◌,
}
use asmoses.LruCache.{table_erase}
use asmoses.PrrCache.{
  Answer, answered, threw, erased_end, PrrCache, prr_init, prr_full, store, prr_call, erase_over,
  prr_resize,
}
use asmoses.PrrCache.Table.{
  AllComputed, IsBegin, lookup-AllComputed, table_erase-AllComputed, assign-AllComputed,
  length-assign-absent, lookup-assign_self, lookup-table_erase-none, erase_begin-some,
  erase_begin-none,
}

-- What the function itself would do.
abbrev pub as_answer : {V : Type 0} → Option V → Answer V
as_answer none = threw
as_answer (some v) = answered v

module _ {K V : Type 0} (f : K → Option V) where
  pub record IsPrrValid (c : PrrCache K V) : Type 0 where
    pub bounded : length c.table ≤ c.n
    pub computed : AllComputed f c.table

module _ {K V : Type 0} (dec : Discrete K) (begin : List (K × V) → Option K) (f : K → Option V)
    (b : IsBegin dec begin) where
  -- What a store of a missing key leaves: its answer, a valid cache and the key's entry.
  pub store-missing :
      (x : K) (v : V) (c : PrrCache K V)
      → 0 < c.n
      → IsPrrValid f c
      → f x ≡ some v
      → lookup dec x c.table ≡ none
      → ((store dec begin x v c).1 ≡ answered v)
        × IsPrrValid f (store dec begin x v c).0
        × ((store dec begin x v c).0.n ≡ c.n)
        × (lookup dec x (store dec begin x v c).0.table ≡ some v)
  unfolding store prr_full
  store-missing x v c p w e h = elim (Bool-cases (length c.table == c.n)) [
    | inr q ↦ rw q (
        (
          refl,
          record {
            bounded =
                let l = length-assign-absent dec x v c.table h in ground (arith, l, w.bounded);
            computed = assign-AllComputed dec f x v c.table e w.computed;
          },
          refl,
          lookup-assign_self dec x v c.table,
        ))
    | inl q ↦
        let s = erase_begin-some dec begin b c.table (ground (arith, q, p)) in
        let m = table_erase dec s.0 c.table in
        rw (q, s.1)
          ((
            refl,
            record {
              bounded =
                  let l =
                    length-assign-absent dec x v m (lookup-table_erase-none dec x s.0 c.table h) in
                  omega (arith, l, s.2, w.bounded);
              computed =
                  assign-AllComputed dec f x v m e
                    (table_erase-AllComputed dec f s.0 c.table w.computed);
            },
            refl,
            lookup-assign_self dec x v m,
          ))
  ]

  -- On a valid cache that holds at least one entry, a call does what the function does, keeps the
  -- cache valid and its size, and a call that returns leaves the key in the cache.
  pub prr_call-transparent :
      (x : K) (c : PrrCache K V)
      → 0 < c.n
      → IsPrrValid f c
      → ((prr_call dec begin f x c).1 ≡ as_answer (f x))
        × IsPrrValid f (prr_call dec begin f x c).0
        × ((prr_call dec begin f x c).0.n ≡ c.n)
        × (lookup dec x (prr_call dec begin f x c).0.table ≡ f x)
  unfolding prr_call
  prr_call-transparent x c p w = elim (Option-cases (lookup dec x c.table)) [
    | inr (v, h) ↦
        let e = lookup-AllComputed dec f x v c.table w.computed h in
        rw (prr_call, h, e) ((refl, record { bounded = w.bounded; computed = w.computed }, refl, h))
    | inl h ↦ elim (Option-cases (f x)) [
      | inl e ↦
          rw (prr_call, h, e)
            ((refl, record { bounded = w.bounded; computed = w.computed }, refl, h))
      | inr (v, e) ↦
          rw (prr_call, h, e)
            (store-missing x v (record c { misses = c.misses + 1 }) p
              (record { bounded = w.bounded; computed = w.computed }) e h)
    ]
  ]

  -- Where the function returns, a call of a new cache of size 0 erases the end of the map.
  pub prr_call-zero :
      (x : K) (v : V) → f x ≡ some v → (prr_call dec begin f x (prr_init 0)).1 ≡ erased_end
  unfolding prr_call store prr_full prr_init lookup
  prr_call-zero x v e = let g = erase_begin-none dec begin b in rw (prr_call, e, g) refl

  -- Once a cache holds more entries than its size, a call never evicts: a call that returns at a
  -- missing key adds an entry.
  pub prr_call-over_full :
      (x : K) (v : V) (c : PrrCache K V)
      → f x ≡ some v
      → lookup dec x c.table ≡ none
      → c.n < length c.table
      → length (prr_call dec begin f x c).0.table ≡ length c.table + 1
  unfolding prr_call store prr_full
  prr_call-over_full x v c e h o =
      let l = length-assign-absent dec x v c.table h in rw (prr_call, h, e) (ground (arith, l, o))

  pub erase_over_lem :
      (rounds : ℕ) (c : PrrCache K V)
      → length c.table ≤ rounds
      → AllComputed f c.table
      → (d : PrrCache K V) × (erase_over dec begin rounds c ≡ some d) × IsPrrValid f d × (d.n ≡ c.n)
  unfolding erase_over
  erase_over_lem zero c h a = (c, refl, record { bounded = omega (arith, h); computed = a }, refl)
  erase_over_lem (suc rounds) c h a = elim (Bool-cases (ltb c.n (length c.table))) [
    | inr q ↦ (c, rw q refl, record { bounded = ground (arith, q); computed = a }, refl)
    | inl q ↦
        let s = erase_begin-some dec begin b c.table (ground (arith, q)) in
        let smaller : PrrCache K V = record c { table = table_erase dec s.0 c.table } in
        let r =
          erase_over_lem rounds smaller (omega (arith, s.2, h))
            (table_erase-AllComputed dec f s.0 c.table a) in
        rw (q, s.1) r
  ]

  -- `resize` of a valid cache ends without erasing the end of the map, in a valid cache of the size
  -- asked for.
  pub prr_resize_lem :
      (n : ℕ) (c : PrrCache K V)
      → IsPrrValid f c
      → (d : PrrCache K V) × (prr_resize dec begin n c ≡ some d) × IsPrrValid f d × (d.n ≡ n)
  unfolding prr_resize
  prr_resize_lem n c w =
      erase_over_lem (length c.table) (record c { n = n }) (omega arith) w.computed
