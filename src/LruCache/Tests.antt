-- ===== src/LruCache/Tests.antt =====
-- The cache at concrete inputs: ten times the key is cached, and the key 9 throws.
use mathlib.Core.List.{lookup}
use asmoses.Base.{
  ℕ, ◌+◌, ◌*◌, ◌≡◌, refl, ◌≢◌, false, [], ◌∷◌, Option, none, some, ◌==◌, if◌then◌else◌, ℕ_discrete,
  take,
}
use asmoses.LruCache.{
  Cache, returned, init, full, empty, call, call_uncached, call_first, call_miss, call_hit, remove,
  resize, shrink, evict, checked, table_insert, table_erase, erase, pop_front, pop_back, back,
}
use asmoses.LruCache.Keys.{contains}
use asmoses.LruCache.Valid.{IsValid, init-IsValid}
use asmoses.LruCache.Calls.{
  as_outcome, call-transparent, call-IsValid, call-lru, call_counts, call_thrown,
}
use asmoses.LruCache.Resize.{remove_lem, resize_lem, Shrunk}

abbrev ten : ℕ → Option ℕ
ten k = if k == 9 then none else some (k * 10)

abbrev two : Cache ℕ ℕ
two = record { n = 2; table = (2, 20) ∷ (1, 10) ∷ []; lru = 2 ∷ 1 ∷ []; misses = 2; hits = 0 }

program : Unit {0}
unfolding full empty call call_uncached call_first call_miss call_hit evict checked table_insert
    table_erase erase pop_front pop_back back ℕ_discrete init contains resize shrink remove lookup
program = tt

filled : (call ℕ_discrete ten 2 (call ℕ_discrete ten 1 (init 2)).0).0 ≡ two
unfolding program
filled = refl

two-IsValid : IsValid ℕ_discrete ten two
two-IsValid = rw filled at (
    call-IsValid ℕ_discrete ten 2 (call ℕ_discrete ten 1 (init 2)).0
      (call-IsValid ℕ_discrete ten 1 (init 2) (init-IsValid ℕ_discrete 2)))

evicted : call ℕ_discrete ten 3 two ≡ (
  record { n = 2; table = (3, 30) ∷ (2, 20) ∷ []; lru = 3 ∷ 2 ∷ []; misses = 3; hits = 0 },
  returned 30,
)
unfolding program
evicted = refl

call-transparent_example : (call ℕ_discrete ten 9 two).1 ≡ as_outcome (ten 9)
call-transparent_example = call-transparent ℕ_discrete ten 9 two two-IsValid

call-IsValid_example : IsValid ℕ_discrete ten (call ℕ_discrete ten 3 two).0
call-IsValid_example = call-IsValid ℕ_discrete ten 3 two two-IsValid

call-lru_example : (call ℕ_discrete ten 3 two).0.lru ≡ take 2 (3 ∷ erase ℕ_discrete 3 (2 ∷ 1 ∷ []))
call-lru_example = call-lru ℕ_discrete ten 3 two 30 two-IsValid refl

call_counts_example :
    ((call ℕ_discrete ten 1 two).0.hits
      ≡ two.hits + (if contains ℕ_discrete 1 two.lru then 1 else 0))
    × ((call ℕ_discrete ten 1 two).0.misses
        ≡ two.misses + (if contains ℕ_discrete 1 two.lru then 0 else 1))
call_counts_example = call_counts ℕ_discrete ten 1 two two-IsValid

call_thrown_example :
    ((call ℕ_discrete ten 9 two).0.lru ≡ two.lru)
    × ((call ℕ_discrete ten 9 two).0.table ≡ two.table)
call_thrown_example = call_thrown ℕ_discrete ten 9 two two-IsValid refl

remove_lem_example :
    IsValid ℕ_discrete ten (remove ℕ_discrete 1 two)
    × (contains ℕ_discrete 1 (remove ℕ_discrete 1 two).lru ≡ false)
    × (lookup ℕ_discrete 1 (remove ℕ_discrete 1 two).table ≡ none)
    × ((j : ℕ)
        → 1 ≢ j
        → lookup ℕ_discrete j (remove ℕ_discrete 1 two).table ≡ lookup ℕ_discrete j two.table)
remove_lem_example = remove_lem ℕ_discrete ten 1 two two-IsValid

resize_lem_example :
    (d : Cache ℕ ℕ) × (resize ℕ_discrete 1 two ≡ some d)
    × Shrunk ℕ_discrete ten (record two { n = 1 }) d
resize_lem_example = resize_lem ℕ_discrete ten 1 two two-IsValid

-- The key that was used last is dropped, the oldest stays.
resized :
    resize ℕ_discrete 1 two
    ≡ some (record { n = 1; table = (1, 10) ∷ []; lru = 1 ∷ []; misses = 2; hits = 0 })
unfolding program
resized = refl
