-- ===== src/InfCache/Tests.antt =====
-- Two calls of one `inf_cache` at the same key: ten times the key is cached, and the key 9 throws.
use mathlib.Core.List.{lookup}
use asmoses.Base.{
  ℕ, ◌*◌, ◌≡◌, refl, List, [], ◌∷◌, Option, none, some, ◌==◌, if◌then◌else◌, ℕ_discrete,
}
use asmoses.Threads.{AllOf, run, turn}
use asmoses.PrrCache.{assign}
use asmoses.PrrCache.Table.{AllComputed}
use asmoses.InfCache.{Point, searching, over, inf_init, inf_step}
use asmoses.InfCache.Calls.{IsRight, run-IsRight}

abbrev ten : ℕ → Option ℕ
ten k = if k == 9 then none else some (k * 10)

abbrev schedule : List ℕ
schedule = 0 ∷ 1 ∷ 0 ∷ 1 ∷ 0 ∷ 1 ∷ []

abbrev calls : List (Point ℕ ℕ)
calls = searching 3 ∷ searching 3 ∷ []

both_miss : run (inf_step ℕ_discrete ten) schedule calls inf_init ≡ (
  over 3 (some 30) ∷ over 3 (some 30) ∷ [],
  record { entries = (3, 30) ∷ []; misses = 2; hits = 0 },
)
unfolding run turn inf_step inf_init assign lookup ℕ_discrete
both_miss = refl

none_yet : AllComputed ten (inf_init {V = ℕ}).entries
unfolding AllComputed inf_init
none_yet = tt

calls-IsRight : AllOf (IsRight ℕ_discrete ten inf_init) calls
unfolding AllOf IsRight
calls-IsRight = (tt, (tt, tt))

run-IsRight_example :
    AllComputed ten (run (inf_step ℕ_discrete ten) schedule calls inf_init).1.entries
    × AllOf
        (IsRight ℕ_discrete ten (run (inf_step ℕ_discrete ten) schedule calls inf_init).1)
        (run (inf_step ℕ_discrete ten) schedule calls inf_init).0
run-IsRight_example = run-IsRight ℕ_discrete ten schedule calls inf_init none_yet calls-IsRight
