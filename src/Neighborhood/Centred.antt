-- ===== src/Neighborhood/Centred.antt =====
-- Each instance that `vary_n_knobs` writes is at the distance asked for: for field sets of discs and
-- bits.
use asmoses.Base.{
  ℕ, zero, suc, ◌+◌, ◌-◌, ◌≤◌, ◌<◌, ◌≡◌, refl, ap, length-append, Bool, inl, inr, true, false,
  Bool-cases, List, [], ◌∷◌, ◌++◌, length, arith, ltb, ◌==◌,
}
use asmoses.Threads.{AllOf}
use asmoses.FieldSet.{FieldSet, Instance, end_bit_raw_idx, multy}
use asmoses.Neighborhood.{
  Deme, Writing, done, put, has_room, with_disc, with_flip, disc_value, other_value, bit_loop,
  value_loop, disc_loop, vary_values, vary_disc, vary_bit, vary_n_knobs,
  generate_all_in_neighborhood,
}
use asmoses.Neighborhood.Fields.{discs_and_bits, knob_disc, knob_bit, knob_past, end_disc, end_bit}
use asmoses.Neighborhood.Numbers.{neighbors, AllMulti}
use asmoses.Neighborhood.Room.{generate-Writes}
use asmoses.Neighborhood.Distance.{
  distance, differ, differ_bits, is_same, IsAt, IsAt-next, IsAt-disc, IsAt-flip, flip_back,
  put_back, other_value-ne,
}
use asmoses.Neighborhood.Appends.{
  Appends, put-Appends, done-Appends, has_room-Appends, bind-Appends,
}

module _ (ms : List ℕ) (bits : ℕ) (centre : Instance) (goal : ℕ)
    (dc : length centre.disc_values ≡ length ms) (bc : length centre.bit_values ≡ bits) where
  abbrev fs : FieldSet
  fs = discs_and_bits ms bits

  abbrev Far : Instance → Type 0
  Far inst = distance inst centre ≡ goal

  abbrev At : ℕ → ℕ → Instance → Type 0
  At = IsAt ms bits centre goal

  At-Far : (idx : ℕ) (inst : Instance) → At idx 0 inst → Far inst
  At-Far idx inst a = omega (arith, a.far)

  bit_loop-Appends :
      (k idx : ℕ) (inst : Instance) (d : Deme)
      → length ms ≤ idx
      → idx + k ≤ length ms + bits
      → At idx 1 inst
      → Appends Far d (bit_loop fs k idx inst d)
  unfolding bit_loop
  bit_loop-Appends zero idx inst d h l a = done-Appends Far d
  bit_loop-Appends (suc k) idx inst d h l a =
      let flipped = with_flip fs idx inst in
      let far =
        At-Far (idx + 1) flipped
          (IsAt-flip ms bits centre goal dc bc idx 0 inst h (omega (arith, l)) a) in
      rw (flip_back ms bits centre goal idx inst) (
        bind-Appends Far d (has_room d) _ (has_room-Appends Far d) (λ e.
          bind-Appends Far e (put flipped e) _ (put-Appends Far flipped e far) (λ e'.
            bit_loop-Appends k (idx + 1) inst e' (omega (arith, h)) (omega (arith, l))
              (IsAt-next ms bits centre goal idx (idx + 1) 1 inst (omega arith) a))))

  value_loop-Appends :
      (k i idx : ℕ) (inst : Instance) (d : Deme)
      → 1 ≤ i
      → idx < length ms
      → At idx 1 inst
      → Appends Far d (value_loop fs k i (disc_value fs idx inst) idx inst d)
  unfolding value_loop
  value_loop-Appends zero i idx inst d o h a = done-Appends Far d
  value_loop-Appends (suc k) i idx inst d o h a =
      let v = other_value fs (disc_value fs idx inst) i in
      let changed = with_disc fs idx v inst in
      let far =
        At-Far (idx + 1) changed
          (IsAt-disc ms bits centre goal dc bc idx v 0 inst h (other_value-ne fs _ i o) a) in
      bind-Appends Far d (put changed d) _ (put-Appends Far changed d far)
        (λ e. value_loop-Appends k (i + 1) idx inst e (omega arith) h a)

  disc_loop-Appends :
      (k idx : ℕ) (inst : Instance) (d : Deme)
      → idx + k ≤ length ms
      → At idx 1 inst
      → Appends Far d (disc_loop fs k idx inst d)
  unfolding disc_loop
  disc_loop-Appends zero idx inst d l a = done-Appends Far d
  disc_loop-Appends (suc k) idx inst d l a = rw (put_back ms bits centre goal idx inst) (
      bind-Appends Far d (has_room d) _ (has_room-Appends Far d) (λ e.
        bind-Appends Far e _ _
          (value_loop-Appends (multy fs idx - 1) 1 idx inst e (omega arith) (omega (arith, l)) a)
          (λ e'.
            disc_loop-Appends k (idx + 1) inst e' (omega (arith, l))
              (IsAt-next ms bits centre goal idx (idx + 1) 1 inst (omega arith) a))))

  -- Calls at a distance and an index append instances at the distance.
  abbrev Extends : (Instance → ℕ → ℕ → Deme → Writing) → ℕ → ℕ → Type 0
  Extends rec dist idx =
      (inst : Instance) (d : Deme) → At idx dist inst → Appends Far d (rec inst dist idx d)

  vary_values-Appends :
      (rec : Instance → ℕ → ℕ → Deme → Writing) (near idx : ℕ)
      → idx < length ms
      → Extends rec near (idx + 1)
      → (k i : ℕ) (inst : Instance) (d : Deme) → 1 ≤ i
      → At idx (suc near) inst
      → Appends Far d (vary_values fs rec k i (disc_value fs idx inst) (suc near) idx inst d)
  unfolding vary_values
  vary_values-Appends rec near idx h r zero i inst d o a = done-Appends Far d
  vary_values-Appends rec near idx h r (suc k) i inst d o a =
      let v = other_value fs (disc_value fs idx inst) i in
      let changed = with_disc fs idx v inst in
      let at = IsAt-disc ms bits centre goal dc bc idx v near inst h (other_value-ne fs _ i o) a in
      let p : suc near - 1 ≡ near = omega arith in
      rw p (
        bind-Appends Far d _ _ (r changed d at)
          (λ e. vary_values-Appends rec near idx h r k (i + 1) inst e (omega arith) a))

  vary_bit-Appends :
      (rec : Instance → ℕ → ℕ → Deme → Writing) (near idx : ℕ)
      → length ms ≤ idx
      → idx < length ms + bits
      → Extends rec (suc near) (idx + 1)
      → Extends rec near (idx + 1)
      → Extends (vary_bit fs rec) (suc near) idx
  unfolding vary_bit
  vary_bit-Appends rec near idx h l r s inst d a = elim (Bool-cases (suc near == 1)) [
    | inl q ↦
        let z : near ≡ 0 = ground (arith, q) in
        let eb = end_bit ms bits in
        rw q (
          bit_loop-Appends (end_bit_raw_idx fs - idx) idx inst d h (omega (arith, eb, l))
            (rw z at a))
    | inr q ↦
        let p : suc near - 1 ≡ near = omega arith in
        rw (q, p)
          (bind-Appends Far d _ _
            (r inst d (IsAt-next ms bits centre goal idx (idx + 1) (suc near) inst (omega arith) a))
            (λ e. s _ e (IsAt-flip ms bits centre goal dc bc idx near inst h l a)))
  ]

  vary_disc-Appends :
      (rec : Instance → ℕ → ℕ → Deme → Writing) (near idx : ℕ)
      → idx < length ms
      → Extends rec (suc near) (idx + 1)
      → Extends rec near (idx + 1)
      → Extends rec (suc near) (length ms)
      → Extends (vary_disc fs rec) (suc near) idx
  unfolding vary_disc
  vary_disc-Appends rec near idx h r s t inst d a = elim (Bool-cases (suc near == 1)) [
    | inl q ↦
        let z : near ≡ 0 = ground (arith, q) in
        rw (q, end_disc ms bits)
          (bind-Appends Far d _ _
            (t inst d
              (IsAt-next ms bits centre goal idx (length ms) (suc near) inst (omega (arith, h)) a))
            (λ e. disc_loop-Appends (length ms - idx) idx inst e (omega (arith, h)) (rw z at a)))
    | inr q ↦ rw q (
        bind-Appends Far d _ _
          (r inst d (IsAt-next ms bits centre goal idx (idx + 1) (suc near) inst (omega arith) a))
          (λ e. vary_values-Appends rec near idx h s (multy fs idx - 1) 1 inst e (omega arith) a))
  ]

  vary_n_knobs-Appends : (fuel dist idx : ℕ) → Extends (vary_n_knobs fs fuel) dist idx
  unfolding vary_n_knobs Appends
  vary_n_knobs-Appends zero dist idx inst d a = tt
  vary_n_knobs-Appends (suc fuel) zero idx inst d a =
      bind-Appends Far d _ _ (has_room-Appends Far d)
        (λ e. put-Appends Far inst e (At-Far idx inst a))
  vary_n_knobs-Appends (suc fuel) (suc near) idx inst d a =
      elim (Bool-cases (ltb idx (length ms))) [
        | inl p ↦
            let l : idx < length ms = ground (arith, p) in
            rw (vary_n_knobs, knob_disc ms bits idx l)
              (vary_disc-Appends (vary_n_knobs fs fuel) near idx l
                (vary_n_knobs-Appends fuel (suc near) (idx + 1))
                (vary_n_knobs-Appends fuel near (idx + 1))
                (vary_n_knobs-Appends fuel (suc near) (length ms)) inst d a)
        | inr p ↦ elim (Bool-cases (ltb idx (length ms + bits))) [
          | inl q ↦
              let h : length ms ≤ idx = ground (arith, p) in
              let l : idx < length ms + bits = ground (arith, q) in
              rw (vary_n_knobs, knob_bit ms bits idx h l)
                (vary_bit-Appends (vary_n_knobs fs fuel) near idx h l
                  (vary_n_knobs-Appends fuel (suc near) (idx + 1))
                  (vary_n_knobs-Appends fuel near (idx + 1)) inst d a)
          | inr q ↦
              let h : length ms + bits ≤ idx = ground (arith, q) in
              rw (vary_n_knobs, knob_past ms bits idx h) (done-Appends Far d)
        ]
      ]

differ_self : (xs : List ℕ) → differ xs xs ≡ 0
unfolding differ
differ_self [] = refl
differ_self (x ∷ xs) = ground (arith, differ_self xs)

differ_bits_self : (bs : List Bool) → differ_bits bs bs ≡ 0
unfolding differ_bits is_same
differ_bits_self [] = refl
differ_bits_self (true ∷ bs) = differ_bits_self bs
differ_bits_self (false ∷ bs) = differ_bits_self bs

module _ (ms : List ℕ) (bits : ℕ) where
  -- For discs of at least two values and bits, and a deme with room for the neighbours of an instance
  -- with a value for each of them, `generate_all_in_neighborhood` ends; what it appends to the deme
  -- are as many instances as there are neighbours, each at the distance from the instance.
  pub generate-distance :
      (inst : Instance) (dist : ℕ) (d : Deme)
      → length inst.disc_values ≡ length ms
      → length inst.bit_values ≡ bits
      → AllMulti ms
      → neighbors ms bits dist ≤ d.room
      → (end : Deme) × (generate_all_in_neighborhood (discs_and_bits ms bits) inst dist d
          ≡ done end)
        × (news : List Instance) × (end.written ≡ d.written ++ news)
        × (length news ≡ neighbors ms bits dist)
        × AllOf (λ i. distance i inst ≡ dist) news
  unfolding generate_all_in_neighborhood Appends distance
  generate-distance inst dist d dc bc a room =
      let w = generate-Writes ms bits inst dist d a room in
      let at : IsAt ms bits inst dist 0 dist inst = record {
        far = omega (arith, differ_self inst.disc_values, differ_bits_self inst.bit_values);
        discs_size = dc;
        bits_size = bc;
        disc_same = λ j l. refl;
        bit_same = λ j l. refl;
      } in
      let x =
        vary_n_knobs-Appends ms bits inst dist dc bc (end_bit_raw_idx (discs_and_bits ms bits) + 1)
          dist 0 inst d at in
      let y : Appends (λ i. distance i inst ≡ dist) d (done w.end) = rw (w.ends) at x in
      (
        w.end,
        w.ends,
        y.0,
        y.1,
        omega (arith, w.wrote, ap length (y.1), length-append d.written y.0),
        y.2,
      )
