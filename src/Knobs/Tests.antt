-- ===== src/Knobs/Tests.antt =====
-- Knobs for one argument.
use asmoses.Base.{ℕ, ◌+◌, ◌≡◌, refl, true, false, List, [], ◌∷◌, some, get_elem?, replicate, arith}
use asmoses.Base.Int.{pos}
use asmoses.Combo.Tree.{node, nil, cons, argument, builtin, null_vertex, logical_not, ComboTree}
use asmoses.Knobs.{
  DiscreteKnob, Placed, disallow, allow, multiplicity, in_exemplar, map_idx, count_bits_set,
  count_shifted, set_bit, turn_logical, logical_knob_absent, logical_knob_present, insert_above,
  set_to, logical_loc, erase_flattened, turn_simple_action, simple_action_loc, action_loc,
  turn_action,
}
use asmoses.Knobs.Settings.{AllAllowed, map_idx-disallow}
use asmoses.Knobs.Turns.{
  logical_at, turn_logical_lem, turn_logical-back, turn_action_lem, IsAction, absent,
}

abbrev first_arg : ComboTree ℕ
first_arg = node (argument (pos 1)) nil

abbrev fresh : DiscreteKnob
fresh = record { disallowed = replicate 3 false; default = 0; current = 0 }

fresh-AllAllowed : AllAllowed fresh
unfolding count_bits_set
fresh-AllAllowed = refl

-- The two indices that are left stand for absent and for the disallowed setting.
one_disallowed :
    (multiplicity (disallow 1 fresh) ≡ 2)
    × (map_idx (disallow 1 fresh) 0 ≡ 0)
    × (map_idx (disallow 1 fresh) 1 ≡ 1)
unfolding multiplicity disallow map_idx count_shifted count_bits_set set_bit
one_disallowed = (refl, refl, refl)

negated_first :
    turn_logical 2 (logical_knob_absent first_arg)
    ≡ some (record {
      knob = record { disallowed = replicate 3 false; default = 0; current = 2 };
      loc = node (builtin logical_not) (cons first_arg nil);
    })
unfolding turn_logical map_idx count_shifted count_bits_set logical_knob_absent insert_above set_to
    logical_loc asmoses.Knobs.set_vertex
negated_first = refl

hidden :
    turn_simple_action 1 (record {
      knob = record { disallowed = replicate 2 false; default = 0; current = 0 };
      loc = first_arg;
    })
    ≡ some (record {
      knob = record { disallowed = replicate 2 false; default = 0; current = 1 };
      loc = node (builtin null_vertex) (cons first_arg nil);
    })
unfolding turn_simple_action map_idx count_shifted count_bits_set insert_above set_to
    simple_action_loc
hidden = refl

map_idx-disallow_example :
    (multiplicity (disallow 1 fresh) + 1 ≡ multiplicity fresh)
    × (map_idx (disallow 1 fresh) 1 ≡ 1)
    × (get_elem? (disallow 1 fresh).disallowed 1 ≡ some true)
map_idx-disallow_example =
    map_idx-disallow fresh 1 fresh-AllAllowed (omega arith) (λ e. omega (arith, e))
      (λ e. omega (arith, e))

turn_logical_lem_example :
    turn_logical 2 (logical_at fresh first_arg)
    ≡ some (logical_at (record fresh { current = map_idx fresh 2 }) first_arg)
unfolding map_idx count_shifted count_bits_set
turn_logical_lem_example = turn_logical_lem fresh first_arg 2 (omega arith) (omega arith)

turn_logical-back_example :
    (q : Placed ℕ) × (turn_logical 2 (logical_at fresh first_arg) ≡ some q)
    × (turn_logical 0 q ≡ some (logical_at fresh first_arg))
turn_logical-back_example =
    turn_logical-back (replicate 3 false) 0 first_arg 2 fresh-AllAllowed (omega arith) (omega arith)

abbrev no_action : Placed ℕ
no_action = record { knob = fresh; loc = node (builtin null_vertex) nil }

abbrev two_actions : List (ComboTree ℕ)
two_actions = node (builtin logical_not) (cons first_arg nil) ∷ first_arg ∷ []

turn_action_lem_example :
    (q : Placed ℕ) × (turn_action two_actions 2 no_action ≡ some q)
    × (q.knob.current ≡ map_idx fresh 2)
    × IsAction two_actions q.knob.current q.loc
unfolding map_idx count_shifted count_bits_set
turn_action_lem_example = turn_action_lem two_actions no_action 2 absent (omega arith)
