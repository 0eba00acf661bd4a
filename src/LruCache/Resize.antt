-- ===== src/LruCache/Resize.antt =====
-- `remove`, `clear` and `resize` of `lru_cache`.
use mathlib.Core.List.{lookup}
use mathlib.Core.Bool.{false≢true}
use asmoses.Base.{
  ◌==◌, ℕ, zero, suc, ◌-◌, ◌≤◌, ◌<◌, ◌≡◌, refl, ◌≢◌, inl, inr, true, false, List, ◌∷◌, Option, none,
  some, length, arith, sym, ◌∙◌, Option-cases, Bool-cases, ltb, ltb→lt, drop, if_pos, ap,
  List-cases, drop-length_le,
}
use asmoses.LruCache.{Cache, pop_front, erase, table_erase, remove, shrink, resize}
use asmoses.LruCache.Keys.{
  contains, lookup-none, lookup-some, contains-erase_self, length-erase, lookup-table_erase_ne,
  lookup-table_erase_self,
}
use asmoses.LruCache.Valid.{IsConsistent, IsValid, erase-IsConsistent}

drop-front :
    {K : Type 0} {l : List K} (k : K) (ks : List K) (n : ℕ)
    → l ≡ k ∷ ks
    → n < length l
    → drop (length l - n) l ≡ drop (length ks - n) ks
drop-front k ks n e h =
    let more : suc (length ks) - n ≡ suc (length ks - n) = omega (arith, ap length e) in
    rw (e, more)

module _ {K V : Type 0} (dec : Discrete K) (f : K → Option V) where
  -- A valid cache of the size of `c`, with the keys of `c` from which those in front are dropped
  -- that are too many.
  abbrev pub Shrunk : Cache K V → Cache K V → Type 0
  Shrunk c d = IsValid dec f d × (d.n ≡ c.n) × (d.lru ≡ drop (length c.lru - c.n) c.lru)

  -- `remove` keeps the invariant, takes the key out of both containers, and keeps what a lookup of
  -- any other key finds.
  pub remove_lem :
      (x : K) (c : Cache K V)
      → IsValid dec f c
      → IsValid dec f (remove dec x c)
        × (contains dec x (remove dec x c).lru ≡ false)
        × (lookup dec x (remove dec x c).table ≡ none)
        × ((j : K) → x ≢ j → lookup dec j (remove dec x c).table ≡ lookup dec j c.table)
  unfolding remove pop_front
  remove_lem x c s = elim (Option-cases (lookup dec x c.table)) [
    | inl h ↦
        rw (h, remove) (s, sym (s.consistent.same x) ∙ lookup-none dec x c.table h, h, λ j ne. refl)
    | inr (v, h) ↦
        let m = sym (s.consistent.same x) ∙ lookup-some dec x v c.table h in
        rw (h, remove)
          (
            record {
              consistent = erase-IsConsistent dec c x m s.consistent;
              bounded = omega (arith, length-erase dec x c.lru m, s.bounded);
            },
            contains-erase_self dec x c.lru s.consistent.distinct,
            lookup-table_erase_self dec x c.table s.consistent.keys_distinct,
            λ j ne. lookup-table_erase_ne dec x j c.table ne,
          )
  ]

  kept_all : (c : Cache K V) → IsConsistent dec f c → length c.lru ≤ c.n → Shrunk c c
  kept_all c s h = (record { consistent = s; bounded = h }, refl, sym (drop-length_le c.n c.lru h))

  -- One round erases the front key, which is in the map.
  round :
      (c : Cache K V) (k : K) (ks : List K)
      → IsConsistent dec f c
      → c.lru ≡ k ∷ ks
      → (v : V) × (lookup dec k c.table ≡ some v)
        × IsConsistent dec f (record c { lru = ks; table = table_erase dec k c.table })
  unfolding contains erase
  round c k ks s e =
      let m : contains dec k c.lru ≡ true = rw (e, contains) (if_pos (dec k k) refl _ _) in
      let ks_left : erase dec k c.lru ≡ ks = rw (e, erase) (if_pos (dec k k) refl _ _) in
      elim (Option-cases (lookup dec k c.table)) [
        | inl h ↦ absurd (false≢true (sym (lookup-none dec k c.table h) ∙ s.same k ∙ m))
        | inr (v, h) ↦ (v, h, rw ks_left at (erase-IsConsistent dec c k m s))
      ]

  shrink_lem :
      (rounds : ℕ) (c : Cache K V)
      → IsConsistent dec f c
      → length c.lru ≤ rounds
      → (d : Cache K V) × (shrink dec rounds c ≡ some d) × Shrunk c d
  unfolding shrink
  shrink_lem zero c s h = (c, refl, kept_all c s (omega arith))
  shrink_lem (suc rounds) c s h = elim (Bool-cases (ltb c.n (length c.table))) [
    | inl over ↦ elim (List-cases c.lru) [
      | inl e ↦ absurd (omega (arith, ltb→lt _ _ over, s.sizes, ap length e))
      | inr (k, ks, e) ↦
          let (v, found, t) = round c k ks s e in
          let (d, runs, w) =
            shrink_lem rounds (record c { lru = ks; table = table_erase dec k c.table }) t
              (omega (arith, ap length e)) in
          (
            d,
            ground (arith, runs),
            (w.0, w.1, w.2 ∙ sym (drop-front k ks c.n e (rw (← s.sizes) (ltb→lt _ _ over)))),
          )
    ]
    | inr fits ↦ (c, rw fits, kept_all c s (ground (arith, s.sizes)))
  ]

  resized : (n : ℕ) (c : Cache K V) → IsConsistent dec f c → IsConsistent dec f (record c { n = n })
  resized n c s = record {
    distinct = s.distinct;
    keys_distinct = s.keys_distinct;
    same = s.same;
    sizes = s.sizes;
    sound = s.sound;
  }

  -- `resize` ends with its assertions met and keeps the invariant. Where it has to drop entries it
  -- drops those at the front of `_lru`: the most recently used keys go, the oldest stay.
  pub resize_lem :
      (n : ℕ) (c : Cache K V)
      → IsValid dec f c
      → (d : Cache K V) × (resize dec n c ≡ some d) × Shrunk (record c { n = n }) d
  unfolding resize
  resize_lem n c s =
      let (d, runs, w) =
        shrink_lem (length c.table) (record c { n = n }) (resized n c s.consistent)
          (omega (arith, s.consistent.sizes)) in
      let same : (length d.lru == length d.table) ≡ true = ground (arith, w.0.consistent.sizes) in
      (d, rw (resize, runs, same) refl, w)
