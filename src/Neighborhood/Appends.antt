-- ===== src/Neighborhood/Appends.antt =====
-- Loops over the deme that append instances with a property.
use asmoses.Base.{
  append-nil, append_assoc, ◌≡◌, refl, sym, ◌∙◌, inl, inr, Bool-cases, List, [], ◌∷◌, ◌++◌, ◌==◌,
}
use asmoses.Threads.{AllOf, AllOf-append}
use asmoses.FieldSet.{Instance}
use asmoses.Neighborhood.{
  Deme, Writing, done, assert_failed, overrun, no_fuel, ◌>>=◌, put, has_room,
}

-- If the loop ends, it has appended instances to the deme that all have the property.
unfoldable pub Appends : (Instance → Type 0) → Deme → Writing → Type 0
Appends P d (done e) = (news : List Instance) × (e.written ≡ d.written ++ news) × AllOf P news
Appends P d assert_failed = Unit
Appends P d overrun = Unit
Appends P d no_fuel = Unit

module _ (P : Instance → Type 0) where
  pub put-Appends : (inst : Instance) (d : Deme) → P inst → Appends P d (put inst d)
  unfolding put Appends AllOf
  put-Appends inst d p = elim (Bool-cases (d.room == 0)) [
    | inl q ↦ rw q tt
    | inr q ↦ rw q ((inst ∷ [], refl, (p, tt)))
  ]

  pub done-Appends : (d : Deme) → Appends P d (done d)
  unfolding Appends AllOf
  done-Appends d = ([], sym (append-nil d.written), tt)

  pub has_room-Appends : (d : Deme) → Appends P d (has_room d)
  unfolding has_room Appends AllOf
  has_room-Appends d = elim (Bool-cases (d.room == 0)) [
    | inl q ↦ rw q tt
    | inr q ↦ rw q (([], sym (append-nil d.written), tt))
  ]

  pub later-Appends :
      (d e : Deme) (news : List Instance) (r : Writing)
      → e.written ≡ d.written ++ news
      → AllOf P news
      → Appends P e r
      → Appends P d r
  unfolding Appends
  later-Appends d e news (done f) h a b = (
    news ++ b.0,
    b.1 ∙ rw (h, append_assoc d.written news b.0) refl,
    AllOf-append P news b.0 a b.2,
  )
  later-Appends d e news assert_failed h a b = tt
  later-Appends d e news overrun h a b = tt
  later-Appends d e news no_fuel h a b = tt

  pub bind-Appends :
      (d : Deme) (w : Writing) (k : Deme → Writing)
      → Appends P d w
      → ((e : Deme) → Appends P e (k e))
      → Appends P d (w >>= k)
  unfolding Appends ◌>>=◌
  bind-Appends d (done e) k a b = later-Appends d e a.0 (k e) a.1 a.2 (b e)
  bind-Appends d assert_failed k a b = tt
  bind-Appends d overrun k a b = tt
  bind-Appends d no_fuel k a b = tt
