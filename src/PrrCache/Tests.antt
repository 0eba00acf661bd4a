-- ===== src/PrrCache/Tests.antt =====
-- The caches at concrete inputs: ten times the key is cached, the key 9 throws, and the first entry
-- of the map is the newest one.
use mathlib.Core.List.{lookup}
use asmoses.Base.{
  get_elem?, map, ◌++◌, ℕ, ◌*◌, ◌≡◌, refl, ◌<◌, ◌≤◌, List, [], ◌∷◌, Option, none, some, ◌==◌,
  if◌then◌else◌, ℕ_discrete, length, arith,
}
use asmoses.LruCache.{table_erase}
use asmoses.Threads.{AllOf, run, count}
use asmoses.PrrCache.{
  Answer, PrrCache, Phase, calling, finished, clearing, ended, erased_end, prr_call, prr_resize,
  store, prr_full, assign, erase_begin, step,
}
use asmoses.PrrCache.Table.{AllComputed, IsBegin}
use asmoses.PrrCache.Calls.{as_answer, IsPrrValid, prr_call-transparent, prr_resize_lem}
use asmoses.PrrCache.Phases.{IsInCall, IsShared, run-IsInCall, IsAnswer}
use asmoses.PrrCache.Ends.{run-answers}
use asmoses.PrrCache.Races.{clear_races}
use asmoses.PrrCache.Overfull.{overfills}

abbrev ten : ℕ → Option ℕ
ten k = if k == 9 then none else some (k * 10)

abbrev newest : List (ℕ × ℕ) → Option ℕ
newest [] = none
newest (e ∷ m) = some e.0

newest_entry :
    (m : List (ℕ × ℕ))
    → 0 < length m
    → (k : ℕ) × (v : ℕ) × (newest m ≡ some k) × (lookup ℕ_discrete k m ≡ some v)
unfolding lookup
newest_entry [] h = absurd (omega arith)
newest_entry (e ∷ m) h = (e.0, e.1, refl, ground arith)

newest-IsBegin : IsBegin ℕ_discrete newest
newest-IsBegin = record { at_end = refl; entry = newest_entry }

abbrev full_two : PrrCache ℕ ℕ
full_two = record { n = 2; table = (2, 20) ∷ (1, 10) ∷ []; misses = 2; hits = 0 }

abbrev over_full : PrrCache ℕ ℕ
over_full = record { n = 1; table = (2, 20) ∷ (1, 10) ∷ []; misses = 2; hits = 0 }

abbrev one_free : PrrCache ℕ ℕ
one_free = record { n = 2; table = (1, 10) ∷ []; misses = 1; hits = 0 }

full_two-IsPrrValid : IsPrrValid ten full_two
unfolding AllComputed
full_two-IsPrrValid = record { bounded = omega arith; computed = (refl, (refl, tt)) }

prr_call-transparent_example :
    ((prr_call ℕ_discrete newest ten 3 full_two).1 ≡ as_answer (ten 3))
    × IsPrrValid ten (prr_call ℕ_discrete newest ten 3 full_two).0
    × ((prr_call ℕ_discrete newest ten 3 full_two).0.n ≡ 2)
    × (lookup ℕ_discrete 3 (prr_call ℕ_discrete newest ten 3 full_two).0.table ≡ ten 3)
prr_call-transparent_example =
    prr_call-transparent ℕ_discrete newest ten newest-IsBegin 3 full_two (omega arith)
      full_two-IsPrrValid

replaced : (prr_call ℕ_discrete newest ten 3 full_two).0.table ≡ (1, 10) ∷ (3, 30) ∷ []
unfolding prr_call store prr_full assign erase_begin lookup table_erase ℕ_discrete
replaced = refl

missing_3 : lookup ℕ_discrete 3 over_full.table ≡ none
unfolding lookup ℕ_discrete
missing_3 = refl

prr_resize_lem_example :
    (d : PrrCache ℕ ℕ) × (prr_resize ℕ_discrete newest 1 full_two ≡ some d)
    × IsPrrValid ten d
    × (d.n ≡ 1)
prr_resize_lem_example =
    prr_resize_lem ℕ_discrete newest ten newest-IsBegin 1 full_two full_two-IsPrrValid

abbrev interleaved : List ℕ
interleaved = 0 ∷ 1 ∷ 0 ∷ 1 ∷ 0 ∷ 1 ∷ 0 ∷ 1 ∷ []

abbrev callers : List (Phase ℕ ℕ)
callers = calling 3 ∷ calling 9 ∷ []

full_two-IsShared : IsShared ten full_two
unfolding AllComputed
full_two-IsShared = record { positive = omega arith; computed = (refl, (refl, tt)) }

callers-IsInCall : AllOf (IsInCall ten full_two) callers
unfolding AllOf IsInCall
callers-IsInCall = (tt, (tt, tt))

run-IsInCall_example :
    IsShared ten (run (step ℕ_discrete newest ten) interleaved callers full_two).1
    × AllOf
        (IsInCall ten (run (step ℕ_discrete newest ten) interleaved callers full_two).1)
        (run (step ℕ_discrete newest ten) interleaved callers full_two).0
run-IsInCall_example =
    run-IsInCall ℕ_discrete newest ten newest-IsBegin interleaved callers full_two full_two-IsShared
      callers-IsInCall

four_turns : 4 ≤ count 1 interleaved
unfolding count
four_turns = omega arith

run-answers_example :
    (a : Answer ℕ) × (get_elem?
        (run (step ℕ_discrete newest ten) interleaved (map calling (3 ∷ 9 ∷ [])) full_two).0
        1
      ≡ some (finished 9 a))
    × IsAnswer ten 9 a
run-answers_example =
    run-answers ℕ_discrete newest ten newest-IsBegin 1 interleaved (3 ∷ 9 ∷ []) 9 full_two
      full_two-IsShared refl four_turns

missing_in_one : (k : ℕ) → 1 < k → lookup ℕ_discrete k one_free.table ≡ none
unfolding lookup
missing_in_one k h = ground arith

three_turns :
    (count 0 (0 ∷ 0 ∷ 1 ∷ 1 ∷ 0 ∷ 1 ∷ []) ≡ 3) × (count 1 (0 ∷ 0 ∷ 1 ∷ 1 ∷ 0 ∷ 1 ∷ []) ≡ 3)
unfolding count
three_turns = (refl, refl)

one_turn : (1 ≤ count 0 (1 ∷ 0 ∷ [])) × (1 ≤ count 1 (1 ∷ 0 ∷ []))
unfolding count
one_turn = (omega arith, omega arith)

overfills_example :
    length
      (run
        (step ℕ_discrete newest ten)
        ((0 ∷ 0 ∷ 1 ∷ 1 ∷ 0 ∷ 1 ∷ []) ++ 1 ∷ 0 ∷ [])
        (calling 2 ∷ calling 3 ∷ [])
        one_free).1.table
    ≡ 3
overfills_example =
    overfills ℕ_discrete newest ten 2 3 20 30 refl refl (λ e. omega (arith, e))
      (0 ∷ 0 ∷ 1 ∷ 1 ∷ 0 ∷ 1 ∷ []) (1 ∷ 0 ∷ []) one_free (missing_in_one 2 (omega arith))
      (missing_in_one 3 (omega arith)) refl three_turns.0 three_turns.1 one_turn.0 one_turn.1

missing_in_two : lookup ℕ_discrete 3 full_two.table ≡ none
unfolding lookup ℕ_discrete
missing_in_two = refl

clear_races_example :
    (run
      (step ℕ_discrete newest ten)
      (0 ∷ 0 ∷ 0 ∷ 1 ∷ 0 ∷ [])
      (calling 3 ∷ clearing ∷ [])
      full_two).0
    ≡ finished 3 erased_end ∷ ended ∷ []
clear_races_example =
    clear_races ℕ_discrete newest ten 3 30 full_two newest-IsBegin refl missing_in_two refl
      (omega arith)
