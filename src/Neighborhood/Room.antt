-- ===== src/Neighborhood/Room.antt =====
-- `vary_n_knobs` writes as many instances as there are neighbours, if the deme has room for them:
-- for field sets of discs and bits.
use asmoses.Base.{
  ℕ, zero, suc, ◌+◌, ◌-◌, ◌*◌, ◌≤◌, ◌<◌, ◌≡◌, inl, inr, false, Bool-cases, List, [], ◌∷◌, length,
  length-drop, drop, arith, ltb, ◌==◌, ap,
}
use asmoses.FieldSet.{FieldSet, Instance, end_bit_raw_idx}
use asmoses.Neighborhood.{
  Deme, Writing, ◌>>=◌, put, has_room, with_disc, with_flip, disc_value, other_value, value_loop,
  disc_loop, vary_values, vary_disc, vary_bit, vary_n_knobs, generate_all_in_neighborhood,
}
use asmoses.Neighborhood.Numbers.{
  neighbors, other_values, AllMulti, drop-suc, drop-AllMulti, drop-cons,
}
use asmoses.Neighborhood.Loops.{
  Writes, put-Writes, has_room-done, done-Writes, bind-Writes, bit_loop-Writes, value_loop-Writes,
}
use asmoses.Neighborhood.Fields.{
  discs_and_bits, knob_disc, knob_bit, knob_past, multy_disc, end_disc, end_bit, bits_step,
  bits_one, past_none, bits_here, disc_here, disc_step, neighbors_from,
}

module _ (ms : List ℕ) (bits : ℕ) where
  abbrev fs : FieldSet
  fs = discs_and_bits ms bits

  disc_loop-Writes :
      (rest : List ℕ) (idx : ℕ) (inst : Instance) (d : Deme)
      → drop idx ms ≡ rest
      → AllMulti rest
      → other_values rest ≤ d.room
      → Writes (disc_loop fs (length rest) idx inst d) d (other_values rest)
  unfolding disc_loop other_values AllMulti ◌>>=◌
  disc_loop-Writes [] idx inst d e a h = done-Writes d
  disc_loop-Writes (m ∷ rest) idx inst d e a h =
      let v = disc_value fs idx inst in
      let back = with_disc fs idx v inst in
      let g = has_room-done d (omega (arith, h, a.0)) in
      let my = multy_disc ms bits idx m rest e in
      let b =
        bind-Writes (value_loop fs (m - 1) 1 v idx inst d)
          (disc_loop fs (length rest) (idx + 1) back) d (m - 1) (other_values rest)
          (value_loop-Writes fs (m - 1) 1 v idx inst d (omega (arith, h))) h
          (λ f l.
            disc_loop-Writes rest (idx + 1) back f
              (let s : idx + 1 ≡ suc idx = omega arith in rw s (drop-suc idx ms m rest e)) a.1 l) in
      rw (g, my) b

  vary_values-Writes :
      (rec : Instance → ℕ → ℕ → Deme → Writing) (n dist idx : ℕ)
      → ((inst : Instance) (e : Deme) → n ≤ e.room → Writes (rec inst (dist - 1) (idx + 1) e) e n)
      → (k i v : ℕ) (inst : Instance) (d : Deme) → k * n ≤ d.room
      → Writes (vary_values fs rec k i v dist idx inst d) d (k * n)
  unfolding vary_values ◌>>=◌
  vary_values-Writes rec n dist idx r zero i v inst d h =
      let eq : 0 ≡ 0 * n = omega arith in rw eq at done-Writes d
  vary_values-Writes rec n dist idx r (suc k) i v inst d h =
      let changed = with_disc fs idx (other_value fs v i) inst in
      let eq : n + k * n ≡ suc k * n = omega arith in
      let a =
        bind-Writes (rec changed (dist - 1) (idx + 1) d)
          (vary_values fs rec k (i + 1) v dist idx inst) d n (k * n)
          (r changed d (omega (arith, h))) (omega (arith, h))
          (λ e l. vary_values-Writes rec n dist idx r k (i + 1) v inst e l) in
      rw eq at a

  -- What is left to vary at a distance from an index on.
  abbrev Varies : (Instance → ℕ → ℕ → Deme → Writing) → ℕ → ℕ → Type 0
  Varies rec dist idx =
      (inst : Instance) (d : Deme)
      → neighbors_from ms bits dist idx ≤ d.room
      → Writes (rec inst dist idx d) d (neighbors_from ms bits dist idx)

  vary_bit-Writes :
      (rec : Instance → ℕ → ℕ → Deme → Writing) (dist idx : ℕ)
      → length ms ≤ idx
      → idx < length ms + bits
      → Varies rec (suc dist) (idx + 1)
      → Varies rec dist (idx + 1)
      → Varies (vary_bit fs rec) (suc dist) idx
  unfolding vary_bit
  vary_bit-Writes rec zero idx h l r s inst d room =
      let q = bits_one ms bits idx h in
      rw (q, (end_bit ms bits))
        (bit_loop-Writes fs (length ms + bits - idx) idx inst d (omega (arith, q, room)))
  vary_bit-Writes rec (suc near) idx h l r s inst d room =
      let q = bits_step ms bits idx near h l in
      let c : (suc (suc near) == 1) ≡ false = ground arith in
      let p : suc (suc near) - 1 ≡ suc near = omega arith in
      let a =
        bind-Writes (rec inst (suc (suc near)) (idx + 1) d)
          (rec (with_flip fs idx inst) (suc near) (idx + 1)) d
          (neighbors_from ms bits (suc (suc near)) (idx + 1))
          (neighbors_from ms bits (suc near) (idx + 1)) (r inst d (omega (arith, q, room)))
          (omega (arith, q, room)) (λ e le. s (with_flip fs idx inst) e le) in
      rw (c, p) (rw q at a)

  vary_disc-Writes :
      (rec : Instance → ℕ → ℕ → Deme → Writing) (dist idx m : ℕ) (rest : List ℕ)
      → drop idx ms ≡ m ∷ rest
      → idx < length ms
      → AllMulti (m ∷ rest)
      → Varies rec (suc dist) (idx + 1)
      → Varies rec dist (idx + 1)
      → Varies rec 1 (length ms)
      → Varies (vary_disc fs rec) (suc dist) idx
  unfolding vary_disc
  vary_disc-Writes rec zero idx m rest e l a r s t inst d room =
      let q = disc_here ms bits idx m rest e l in
      let k : length ms - idx ≡ length (m ∷ rest) =
        omega (arith, ap length e, length-drop idx ms) in
      let first : Writes (rec inst 1 (length ms) d) d bits =
        rw (bits_here ms bits) at (t inst d (omega (arith, (bits_here ms bits), q, room))) in
      let b =
        bind-Writes (rec inst 1 (length ms) d) (disc_loop fs (length (m ∷ rest)) idx inst) d bits
          (other_values (m ∷ rest)) first (omega (arith, q, room))
          (λ x le. disc_loop-Writes (m ∷ rest) idx inst x e a le) in
      rw (q, (end_disc ms bits), k) b
  vary_disc-Writes rec (suc near) idx m rest e l a r s t inst d room =
      let dist = suc (suc near) in
      let q = disc_step ms bits (suc near) idx m rest e l in
      let my = multy_disc ms bits idx m rest e in
      let c : (suc (suc near) == 1) ≡ false = ground arith in
      let p : suc (suc near) - 1 ≡ suc near = omega arith in
      let v = disc_value fs idx inst in
      let n = neighbors_from ms bits (suc near) (idx + 1) in
      let b =
        bind-Writes (rec inst dist (idx + 1) d) (vary_values fs rec (m - 1) 1 v dist idx inst) d
          (neighbors_from ms bits dist (idx + 1)) ((m - 1) * n) (r inst d (omega (arith, q, room)))
          (omega (arith, q, room))
          (λ x le.
            vary_values-Writes rec n dist idx (λ i f ro. rw p (s i f ro)) (m - 1) 1 v inst x le) in
      rw (c, my) (rw q at b)

  here :
      (inst : Instance) (d : Deme) (idx : ℕ)
      → neighbors_from ms bits 0 idx ≤ d.room
      → Writes (has_room d >>= put inst) d (neighbors_from ms bits 0 idx)
  unfolding ◌>>=◌ neighbors
  here inst d idx room =
      let h : 1 ≤ d.room = omega (arith, room) in rw (has_room-done d h) (put-Writes inst d h)

  vary_n_knobs-Writes :
      (fuel dist idx : ℕ)
      → AllMulti ms
      → 1 ≤ fuel
      → length ms + bits < fuel + idx
      → Varies (vary_n_knobs fs fuel) dist idx
  unfolding vary_n_knobs
  vary_n_knobs-Writes zero dist idx a f g inst d room = absurd (omega (arith, f))
  vary_n_knobs-Writes (suc fuel) zero idx a f g inst d room = here inst d idx room
  vary_n_knobs-Writes (suc fuel) (suc near) idx a f g inst d room =
      elim (Bool-cases (ltb idx (length ms))) [
        | inl p ↦
            let l : idx < length ms = ground (arith, p) in
            let e = drop-cons idx ms l in
            rw (vary_n_knobs, knob_disc ms bits idx l)
              (vary_disc-Writes (vary_n_knobs fs fuel) near idx e.0 e.1 e.2 l
                (rw (e.2) at (drop-AllMulti idx ms a))
                (vary_n_knobs-Writes fuel (suc near) (idx + 1) a (omega (arith, g, l))
                  (omega (arith, g)))
                (vary_n_knobs-Writes fuel near (idx + 1) a (omega (arith, g, l)) (omega (arith, g)))
                (vary_n_knobs-Writes fuel 1 (length ms) a (omega (arith, g, l))
                  (omega (arith, g, l)))
                inst d room)
        | inr p ↦ elim (Bool-cases (ltb idx (length ms + bits))) [
          | inl q ↦
              let h : length ms ≤ idx = ground (arith, p) in
              let l : idx < length ms + bits = ground (arith, q) in
              rw (vary_n_knobs, knob_bit ms bits idx h l)
                (vary_bit-Writes (vary_n_knobs fs fuel) near idx h l
                  (vary_n_knobs-Writes fuel (suc near) (idx + 1) a (omega (arith, g, l))
                    (omega (arith, g)))
                  (vary_n_knobs-Writes fuel near (idx + 1) a (omega (arith, g, l))
                    (omega (arith, g)))
                  inst d room)
          | inr q ↦
              let h : length ms + bits ≤ idx = ground (arith, q) in
              rw (vary_n_knobs, knob_past ms bits idx h, past_none ms bits idx near h)
                (done-Writes d)
        ]
      ]

  -- For a field set of discs of at least two values and bits, `generate_all_in_neighborhood` returns
  -- with as many instances written as there are neighbours at the distance, if the deme has the room.
  pub generate-Writes :
      (inst : Instance) (dist : ℕ) (d : Deme)
      → AllMulti ms
      → neighbors ms bits dist ≤ d.room
      → Writes (generate_all_in_neighborhood fs inst dist d) d (neighbors ms bits dist)
  unfolding generate_all_in_neighborhood
  generate-Writes inst dist d a room =
      let z : bits - (0 - length ms) ≡ bits = omega arith in
      let w =
        vary_n_knobs-Writes (end_bit_raw_idx fs + 1) dist 0 a (omega arith)
          (omega (arith, (end_bit ms bits))) inst d in
      rw z at w room
