-- ===== src/Neighborhood/Loops.antt =====
-- What the unrolled loops of `vary_n_knobs` write into the room of the deme.
use asmoses.Base.{
  ℕ, zero, suc, ◌+◌, ◌-◌, ◌≤◌, ◌≡◌, refl, inl, inr, Bool-cases, [], ◌∷◌, ◌++◌, length,
  length-append, arith, ◌==◌,
}
use asmoses.FieldSet.{FieldSet, Instance}
use asmoses.Neighborhood.{
  Deme, Writing, done, ◌>>=◌, put, has_room, with_disc, with_flip, other_value, bit_loop,
  value_loop,
}

-- The loop ends and has written `n` instances into the room of the deme.
pub record Writes (w : Writing) (d : Deme) (n : ℕ) : Type 0 where
  pub end : Deme
  pub ends : w ≡ done end
  pub wrote : length end.written ≡ length d.written + n
  pub room_left : end.room + n ≡ d.room

pub put-Writes : (inst : Instance) (d : Deme) → 1 ≤ d.room → Writes (put inst d) d 1
unfolding put
put-Writes inst d h = elim (Bool-cases (d.room == 0)) [
  | inl q ↦ absurd (ground (arith, q, h))
  | inr q ↦ record {
    end = record { written = d.written ++ (inst ∷ []); room = d.room - 1 };
    ends = rw q refl;
    wrote = length-append d.written (inst ∷ []);
    room_left = omega (arith, h);
  }
]

pub has_room-done : (d : Deme) → 1 ≤ d.room → has_room d ≡ done d
unfolding has_room
has_room-done d h = ground (arith, h)

pub done-Writes : (d : Deme) → Writes (done d) d 0
done-Writes d = record { end = d; ends = refl; wrote = omega arith; room_left = omega arith }

-- Two loops in a row.
pub bind-Writes :
    (w : Writing) (k : Deme → Writing) (d : Deme) (n m : ℕ)
    → Writes w d n
    → n + m ≤ d.room
    → ((e : Deme) → m ≤ e.room → Writes (k e) e m)
    → Writes (w >>= k) d (n + m)
unfolding ◌>>=◌
bind-Writes w k d n m a h b =
    let r = b a.end (omega (arith, h, a.room_left)) in
    record {
      end = r.end;
      ends = rw (a.ends) (r.ends);
      wrote = omega (arith, a.wrote, r.wrote);
      room_left = omega (arith, a.room_left, r.room_left);
    }

module _ (fs : FieldSet) where
  pub bit_loop-Writes :
      (k idx : ℕ) (inst : Instance) (d : Deme) → k ≤ d.room → Writes (bit_loop fs k idx inst d) d k
  unfolding bit_loop ◌>>=◌
  bit_loop-Writes zero idx inst d h = done-Writes d
  bit_loop-Writes (suc k) idx inst d h =
      let flipped = with_flip fs idx inst in
      let a =
        bind-Writes (put flipped d) (bit_loop fs k (idx + 1) (with_flip fs idx flipped)) d 1 k
          (put-Writes flipped d (omega arith)) (omega arith)
          (λ e l. bit_loop-Writes k (idx + 1) (with_flip fs idx flipped) e l) in
      let g = has_room-done d (omega arith) in
      let eq : 1 + k ≡ suc k = omega arith in rw g (rw eq at a)

  pub value_loop-Writes :
      (k i v idx : ℕ) (inst : Instance) (d : Deme)
      → k ≤ d.room
      → Writes (value_loop fs k i v idx inst d) d k
  unfolding value_loop ◌>>=◌
  value_loop-Writes zero i v idx inst d h = done-Writes d
  value_loop-Writes (suc k) i v idx inst d h =
      let changed = with_disc fs idx (other_value fs v i) inst in
      let a =
        bind-Writes (put changed d) (value_loop fs k (i + 1) v idx inst) d 1 k
          (put-Writes changed d (omega arith)) (omega arith)
          (λ e l. value_loop-Writes k (i + 1) v idx inst e l) in
      let eq : 1 + k ≡ suc k = omega arith in rw eq at a
