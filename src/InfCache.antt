-- ===== src/InfCache.antt =====
-- `inf_cache` of opencog/asmoses/utils/lru_cache.h: a cache that keeps every result, called by
-- threads. A call searches under a shared lock, evaluates without one, and stores under another.
use mathlib.Core.List.{lookup}
use asmoses.Base.{ℕ, ◌+◌, List, [], ◌∷◌, Option, none, some}
use asmoses.PrrCache.{assign}
mod Calls
mod Tests

pub record InfCache (K V : Type 0) : Type 0 where
  pub entries : List (K × V)
  pub misses : ℕ
  pub hits : ℕ

-- The point that a call has reached, with the key; at its end it returned a value or, `none`, let
-- the exception of the function pass.
pub data Point (K V : Type 0) : Type 0 where
  searching : K → Point K V
  missed : K → Point K V
  inserting : K → V → Point K V
  over : K → Option V → Point K V

unfoldable pub inf_init : {K V : Type 0} → InfCache K V
inf_init = record { entries = []; misses = 0; hits = 0 }

module _ {K V : Type 0} (dec : Discrete K) (f : K → Option V) where
  unfoldable pub inf_step : Point K V → InfCache K V → Point K V × InfCache K V
  inf_step (searching x) c = elim (lookup dec x c.entries) [
    | some v ↦ (over x (some v), record c { hits = c.hits + 1 })
    | none ↦ (missed x, c)
  ]
  inf_step (missed x) c = elim (f x) [
    | none ↦ (over x none, record c { misses = c.misses + 1 })
    | some v ↦ (inserting x v, record c { misses = c.misses + 1 })
  ]
  inf_step (inserting x v) c = (over x (some v), record c { entries = assign dec x v c.entries })
  inf_step (over x a) c = (over x a, c)
