-- ===== src/Knobs/Turns.antt =====
-- What stands at the place of a knob depends on its setting alone, however it was turned.
use asmoses.Base.{
  ℕ, zero, suc, ◌≤◌, ◌<◌, ◌≡◌, ◌≢◌, refl, sym, ap, ◌∙◌, inl, inr, Bool, true, false, Bool-cases,
  List, [], ◌∷◌, some, length, ltb, ◌==◌, ==_iff, arith,
}
use asmoses.Combo.Tree.{node, nil, cons, null_vertex, logical_not, builtin, ComboTree}
use asmoses.Knobs.{
  DiscreteKnob, map_idx, insert_above, set_vertex, erase_flattened, Placed, set_to, logical_loc,
  turn_logical, action_loc, turn_action,
}
use asmoses.Knobs.Settings.{AllAllowed, map_idx-AllAllowed}

module _ {C : Type 0} where
  -- The tree under a null vertex where it is absent, the tree itself, and its negation.
  unfoldable pub logical_arrangement : ℕ → ComboTree C → ComboTree C
  logical_arrangement zero t = node (builtin null_vertex) (cons t nil)
  logical_arrangement (suc zero) t = t
  logical_arrangement (suc (suc i)) t = node (builtin logical_not) (cons t nil)

  abbrev pub logical_at : DiscreteKnob → ComboTree C → Placed C
  logical_at k t = record { knob = k; loc = logical_arrangement k.current t }

  logical_loc-arranged :
      (c i : ℕ) (t : ComboTree C)
      → c < 3
      → i < 3
      → i ≢ c
      → logical_loc c i (logical_arrangement c t) ≡ some (logical_arrangement i t)
  unfolding logical_loc logical_arrangement insert_above set_vertex erase_flattened
  logical_loc-arranged zero zero t p q n = absurd (n refl)
  logical_loc-arranged zero (suc zero) t p q n = refl
  logical_loc-arranged zero (suc (suc i)) t p q n = refl
  logical_loc-arranged (suc zero) zero t p q n = refl
  logical_loc-arranged (suc zero) (suc zero) t p q n = absurd (n refl)
  logical_loc-arranged (suc zero) (suc (suc i)) t p q n = refl
  logical_loc-arranged (suc (suc zero)) zero t p q n = refl
  logical_loc-arranged (suc (suc zero)) (suc zero) t p q n = refl
  logical_loc-arranged (suc (suc zero)) (suc (suc zero)) t p q n = absurd (n refl)
  logical_loc-arranged (suc (suc zero)) (suc (suc (suc i))) t p q n = absurd (omega arith)
  logical_loc-arranged (suc (suc (suc c))) i t p q n = absurd (omega arith)

  -- A logical knob that is at one of its three settings is at the setting of the index after a turn to an
  -- index that has one of them, and at its place stands what belongs there.
  pub turn_logical_lem :
      (k : DiscreteKnob) (t : ComboTree C) (idx : ℕ)
      → k.current < 3
      → map_idx k idx < 3
      → turn_logical idx (logical_at k t)
        ≡ some (logical_at (record k { current = map_idx k idx }) t)
  unfolding turn_logical set_to
  turn_logical_lem k t idx p q =
      let in_range : ltb (map_idx k idx) 3 ≡ true = ground (arith, q) in
      elim (Bool-cases (map_idx k idx == k.current)) [
        | inl e ↦
            let same : map_idx k idx ≡ k.current = (==_iff _ _).0 e in
            rw (turn_logical, in_range, e, same) refl
        | inr e ↦
            let other : map_idx k idx ≢ k.current = λ s. ground (arith, e, (==_iff _ _).1 s) in
            rw
              (
                turn_logical,
                in_range,
                e,
                logical_loc-arranged k.current (map_idx k idx) t p q other,
              )
              refl
      ]

  -- Turned to any of its three indices and back to 0, a logical knob at its default setting, with nothing
  -- disallowed, is what it was, the tree at its place included.
  pub turn_logical-back :
      (bits : List Bool) (d : ℕ) (t : ComboTree C) (idx : ℕ)
      → AllAllowed (record { disallowed = bits; default = d; current = d })
      → d < 3
      → idx < 3
      → (q : Placed C) × (turn_logical idx
            (logical_at (record { disallowed = bits; default = d; current = d }) t)
          ≡ some q)
        × (turn_logical 0 q
            ≡ some (logical_at (record { disallowed = bits; default = d; current = d }) t))
  turn_logical-back bits d t idx h p q =
      let k : DiscreteKnob = record { disallowed = bits; default = d; current = d } in
      let there = map_idx-AllAllowed k idx h in
      let back = map_idx-AllAllowed k 0 h in
      let i = map_idx k idx in
      let k' : DiscreteKnob = record k { current = i } in
      let home : map_idx k' 0 ≡ d = map_idx-AllAllowed k' 0 h ∙ ground arith in
      let range : i < 3 = ground (arith, there, p, q) in
      (
        logical_at k' t,
        turn_logical_lem k t idx p range,
        turn_logical_lem k' t 0 range (omega (arith, home, p))
            ∙ ap (λ c. some (logical_at (record { disallowed = bits; default = d; current = c }) t))
                home,
      )

  -- What belongs at the place of an action knob over some trees: a childless null vertex at the setting 0,
  -- and at each setting from 1 on the tree of that number.
  pub data IsAction : List (ComboTree C) → ℕ → ComboTree C → Type 0 where
    absent : {perms : List (ComboTree C)} → IsAction perms 0 (node (builtin null_vertex) nil)
    first : {t : ComboTree C} {perms : List (ComboTree C)} → IsAction (t ∷ perms) 1 t
    later :
        {t u : ComboTree C} {perms : List (ComboTree C)} {i : ℕ}
        → IsAction perms (suc i) t
        → IsAction (u ∷ perms) (suc (suc i)) t

  perm_at :
      (perms : List (ComboTree C)) (i : ℕ)
      → i ≤ length perms
      → (t : ComboTree C) × (action_loc perms i ≡ some t) × IsAction perms i t
  unfolding action_loc
  perm_at perms zero h = (node (builtin null_vertex) nil, refl, absent)
  perm_at [] (suc i) h = absurd (omega arith)
  perm_at (t ∷ perms) (suc zero) h = (t, refl, first)
  perm_at (u ∷ perms) (suc (suc i)) h =
      let (t, found, is) = perm_at perms (suc i) (omega (arith, h)) in (t, found, later is)

  -- Where at the place of an action knob stands what belongs to its setting, a turn to an index whose setting is
  -- at most the number of the trees ends with that setting, and with what belongs to it at the place: the tree
  -- of that number, or a null vertex.
  pub turn_action_lem :
      (perms : List (ComboTree C)) (p : Placed C) (idx : ℕ)
      → IsAction perms p.knob.current p.loc
      → map_idx p.knob idx ≤ length perms
      → (q : Placed C) × (turn_action perms idx p ≡ some q)
        × (q.knob.current ≡ map_idx p.knob idx)
        × IsAction perms q.knob.current q.loc
  unfolding turn_action set_to
  turn_action_lem perms p idx h l =
      let i = map_idx p.knob idx in
      let in_range : ltb (length perms) i ≡ false = ground (arith, l) in
      elim (Bool-cases (i == p.knob.current)) [
        | inl e ↦ (p, rw (turn_action, in_range, e) refl, sym ((==_iff _ _).0 e), h)
        | inr e ↦
            let (t, found, is) = perm_at perms i l in
            (
              record { knob = record p.knob { current = i }; loc = t },
              rw (turn_action, in_range, e, found) refl,
              refl,
              is,
            )
      ]
