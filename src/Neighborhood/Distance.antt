-- ===== src/Neighborhood/Distance.antt =====
-- How far an instance is from another, and what changing one field does to it.
use asmoses.Base.{
  ℕ, zero, suc, ◌+◌, ◌-◌, ◌≤◌, ◌<◌, ◌≡◌, ◌≢◌, refl, ap, ◌∙◌, Bool, true, false, not, List, [], ◌∷◌,
  length, arith, ◌==◌, if◌then◌else◌,
}
use asmoses.FieldSet.{
  FieldSet, Instance, read, write, flip_at, total, end_term_raw_idx, begin_contin_raw_idx,
  end_contin_raw_idx, begin_disc_raw_idx, end_disc_raw_idx, begin_bit_raw_idx,
}
use asmoses.Neighborhood.{with_disc, with_flip, disc_value, other_value}
use asmoses.Neighborhood.Fields.{discs_and_bits}

unfoldable pub differ : List ℕ → List ℕ → ℕ
differ [] ys = 0
differ (x ∷ xs) [] = 0
differ (x ∷ xs) (y ∷ ys) = let rest = differ xs ys in if x == y then rest else rest + 1

unfoldable pub read_bit : List Bool → ℕ → Bool
read_bit [] i = false
read_bit (b ∷ bs) zero = b
read_bit (b ∷ bs) (suc i) = read_bit bs i

unfoldable pub is_same : Bool → Bool → Bool
is_same true b = b
is_same false b = not b

unfoldable pub differ_bits : List Bool → List Bool → ℕ
differ_bits [] cs = 0
differ_bits (b ∷ bs) [] = 0
differ_bits (b ∷ bs) (c ∷ cs) =
    let rest = differ_bits bs cs in if is_same b c then rest else rest + 1

-- The number of discs and bits at which two instances differ.
unfoldable pub distance : Instance → Instance → ℕ
distance i j = differ i.disc_values j.disc_values + differ_bits i.bit_values j.bit_values

pub differ-write :
    (i v : ℕ) (xs ys : List ℕ)
    → i < length xs
    → i < length ys
    → read xs i ≡ read ys i
    → v ≢ read xs i
    → differ (write i v xs) ys ≡ differ xs ys + 1
unfolding differ write read
differ-write i v [] ys h k e n = absurd (omega (arith, h))
differ-write i v (x ∷ xs) [] h k e n = absurd (omega (arith, k))
differ-write zero v (x ∷ xs) (y ∷ ys) h k e n = ground (arith, e, n)
differ-write (suc i) v (x ∷ xs) (y ∷ ys) h k e n =
    let r = differ-write i v xs ys (omega (arith, h)) (omega (arith, k)) e n in ground (arith, r)

pub read-write_ne : (i j v : ℕ) (xs : List ℕ) → i ≢ j → read (write i v xs) j ≡ read xs j
unfolding read write
read-write_ne i j v [] n = refl
read-write_ne zero zero v (x ∷ xs) n = absurd (n refl)
read-write_ne zero (suc j) v (x ∷ xs) n = refl
read-write_ne (suc i) zero v (x ∷ xs) n = refl
read-write_ne (suc i) (suc j) v (x ∷ xs) n = read-write_ne i j v xs (λ e. n (ap suc e))

pub length-write : (i v : ℕ) (xs : List ℕ) → length (write i v xs) ≡ length xs
unfolding write
length-write i v [] = refl
length-write zero v (x ∷ xs) = refl
length-write (suc i) v (x ∷ xs) = ap suc (length-write i v xs)

pub write-read : (i : ℕ) (xs : List ℕ) → write i (read xs i) xs ≡ xs
unfolding write read
write-read i [] = refl
write-read zero (x ∷ xs) = refl
write-read (suc i) (x ∷ xs) = ap (◌∷◌ x) (write-read i xs)

pub differ_bits-flip :
    (i : ℕ) (bs cs : List Bool)
    → i < length bs
    → i < length cs
    → read_bit bs i ≡ read_bit cs i
    → differ_bits (flip_at i bs) cs ≡ differ_bits bs cs + 1
unfolding differ_bits flip_at read_bit is_same
differ_bits-flip i [] cs h k e = absurd (omega (arith, h))
differ_bits-flip i (b ∷ bs) [] h k e = absurd (omega (arith, k))
differ_bits-flip zero (true ∷ bs) (c ∷ cs) h k e = ground (arith, e)
differ_bits-flip zero (false ∷ bs) (c ∷ cs) h k e = ground (arith, e)
differ_bits-flip (suc i) (b ∷ bs) (c ∷ cs) h k e =
    let r = differ_bits-flip i bs cs (omega (arith, h)) (omega (arith, k)) e in ground (arith, r)

pub read_bit-flip_ne :
    (i j : ℕ) (bs : List Bool) → i ≢ j → read_bit (flip_at i bs) j ≡ read_bit bs j
unfolding read_bit flip_at
read_bit-flip_ne i j [] n = refl
read_bit-flip_ne zero zero (x ∷ xs) n = absurd (n refl)
read_bit-flip_ne zero (suc j) (x ∷ xs) n = refl
read_bit-flip_ne (suc i) zero (x ∷ xs) n = refl
read_bit-flip_ne (suc i) (suc j) (x ∷ xs) n = read_bit-flip_ne i j xs (λ e. n (ap suc e))

pub length-flip : (i : ℕ) (bs : List Bool) → length (flip_at i bs) ≡ length bs
unfolding flip_at
length-flip i [] = refl
length-flip zero (x ∷ xs) = refl
length-flip (suc i) (x ∷ xs) = ap suc (length-flip i xs)

pub flip-flip : (i : ℕ) (bs : List Bool) → flip_at i (flip_at i bs) ≡ bs
unfolding flip_at
flip-flip i [] = refl
flip-flip zero (true ∷ bs) = refl
flip-flip zero (false ∷ bs) = refl
flip-flip (suc i) (b ∷ bs) = ap (◌∷◌ b) (flip-flip i bs)

pub other_value-ne : (fs : FieldSet) (v i : ℕ) → 1 ≤ i → other_value fs v i ≢ v
unfolding other_value
other_value-ne fs v i h = ground (arith, h)

module _ (ms : List ℕ) (bits : ℕ) (centre : Instance) (goal : ℕ) where
  abbrev fs : FieldSet
  fs = discs_and_bits ms bits

  -- An instance that is as far from the centre as leaves `left_over` to go, and is like it from a
  -- raw index on.
  pub record IsAt (idx left_over : ℕ) (inst : Instance) : Type 0 where
    pub far : distance inst centre + left_over ≡ goal
    pub discs_size : length inst.disc_values ≡ length ms
    pub bits_size : length inst.bit_values ≡ bits
    pub disc_same : (j : ℕ) → idx ≤ j → read inst.disc_values j ≡ read centre.disc_values j
    pub bit_same :
        (j : ℕ) → idx ≤ length ms + j → read_bit inst.bit_values j ≡ read_bit centre.bit_values j

  pub IsAt-next :
      (idx next n : ℕ) (inst : Instance) → idx ≤ next → IsAt idx n inst → IsAt next n inst
  IsAt-next idx next n inst h a = record {
    far = a.far;
    discs_size = a.discs_size;
    bits_size = a.bits_size;
    disc_same = λ j l. a.disc_same j (omega (arith, h, l));
    bit_same = λ j l. a.bit_same j (omega (arith, h, l));
  }

  module _ (dc : length centre.disc_values ≡ length ms) (bc : length centre.bit_values ≡ bits) where
    pub IsAt-disc :
        (idx v n : ℕ) (inst : Instance)
        → idx < length ms
        → v ≢ disc_value fs idx inst
        → IsAt idx (suc n) inst
        → IsAt (idx + 1) n (with_disc fs idx v inst)
    unfolding with_disc disc_value distance begin_disc_raw_idx end_contin_raw_idx
        begin_contin_raw_idx end_term_raw_idx total
    IsAt-disc idx v n inst h ne a =
        let z : idx - 0 ≡ idx = omega arith in
        let ne' : v ≢ read inst.disc_values idx = rw z at ne in
        let w =
          differ-write idx v inst.disc_values centre.disc_values (omega (arith, h, a.discs_size))
            (omega (arith, h, dc)) (a.disc_same idx (omega arith)) ne' in
        rw z (record {
          far = omega (arith, w, a.far);
          discs_size = length-write idx v inst.disc_values ∙ a.discs_size;
          bits_size = a.bits_size;
          disc_same = λ j l.
              read-write_ne idx j v inst.disc_values (omega (arith, l))
              ∙ a.disc_same j (omega (arith, l));
          bit_same = λ j l. a.bit_same j (omega (arith, l));
        })

    pub IsAt-flip :
        (idx n : ℕ) (inst : Instance)
        → length ms ≤ idx
        → idx < length ms + bits
        → IsAt idx (suc n) inst
        → IsAt (idx + 1) n (with_flip fs idx inst)
    unfolding with_flip distance begin_bit_raw_idx end_disc_raw_idx begin_disc_raw_idx
        end_contin_raw_idx begin_contin_raw_idx end_term_raw_idx total
    IsAt-flip idx n inst h l a =
        let i = idx - length ms in
        let z : idx - (0 + length ms) ≡ i = omega arith in
        let w =
          differ_bits-flip i inst.bit_values centre.bit_values (omega (arith, h, l, a.bits_size))
            (omega (arith, h, l, bc)) (a.bit_same i (omega (arith, h))) in
        rw z (record {
          far = omega (arith, w, a.far);
          discs_size = a.discs_size;
          bits_size = length-flip i inst.bit_values ∙ a.bits_size;
          disc_same = λ j m. a.disc_same j (omega (arith, m));
          bit_same = λ j m.
              read_bit-flip_ne i j inst.bit_values (omega (arith, h, m))
              ∙ a.bit_same j (omega (arith, m));
        })

  -- Flipping twice, and writing what is there, change nothing.
  pub flip_back : (idx : ℕ) (inst : Instance) → with_flip fs idx (with_flip fs idx inst) ≡ inst
  unfolding with_flip
  flip_back idx inst = rw (flip-flip _ inst.bit_values) refl

  pub put_back : (idx : ℕ) (inst : Instance) → with_disc fs idx (disc_value fs idx inst) inst ≡ inst
  unfolding with_disc disc_value
  put_back idx inst = rw (write-read _ inst.disc_values) refl
