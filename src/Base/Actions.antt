-- ===== src/Base/Actions.antt =====
-- Calls that change state and may fail.
use mathlib.Core.Path.{◌≡◌, refl}
use mathlib.Core.Logic.{◌⊎◌, inl, inr}
use mathlib.Core.Bool.{Bool, true, false}

pub data Result (E A : Type 0) : Type 0 where
  ok : A → Result E A
  err : E → Result E A

abbrev pub is_ok : {E A : Type 0} → Result E A → Bool
is_ok (ok a) = true
is_ok (err e) = false

pub Result-cases :
    {E A : Type 0} (r : Result E A) → ((a : A) × (r ≡ ok a)) ⊎ ((e : E) × (r ≡ err e))
Result-cases (ok a) = inl (a, refl)
Result-cases (err e) = inr (e, refl)

-- A computation with an early return.
infixr 4 ◌then◌
abbrev pub ◌then◌ : {E A B : Type 0} → Result E A → (A → Result E B) → Result E B
ok a then f = f a
err e then f = err e

abbrev pub Action : Type 0 → Type 0 → Type 0 → Type 0
Action S E A = S → Result E A × S

module _ {S E : Type 0} where
  infixl 5 ◌>>=◌ ◌>>◌
  unfoldable pub ◌>>=◌ : {A B : Type 0} → Action S E A → (A → Action S E B) → Action S E B
  ◌>>=◌ m f w = let (r, w') = m w in elim r [ ok a ↦ f a w' | err e ↦ (err e, w') ]

  abbrev pub ◌>>◌ : {A B : Type 0} → Action S E A → Action S E B → Action S E B
  m >> k = m >>= λ _. k

  unfoldable pub pure : {A : Type 0} → A → Action S E A
  pure a w = (ok a, w)

  unfoldable pub fail : {A : Type 0} → E → Action S E A
  fail e w = (err e, w)

  -- An early return with an error.
  unfoldable pub fail_if : Bool → E → Action S E (Unit {0})
  fail_if true e w = (err e, w)
  fail_if false e w = (ok tt, w)

  -- A value that is already there, or its error.
  unfoldable pub lift : {A : Type 0} → Result E A → Action S E A
  lift r w = (r, w)

  -- `if err != nil { return f(err) }`
  unfoldable pub map_error : {F A : Type 0} → (E → F) → Action S E A → Action S F A
  map_error f m w = let (r, w') = m w in elim r [ ok a ↦ (ok a, w') | err e ↦ (err (f e), w') ]

  -- A call whose error the caller looks at itself.
  unfoldable pub try : {F A : Type 0} → Action S E A → Action S F (Result E A)
  try m w = let (r, w') = m w in (ok r, w')

-- Stands on the `unfolding` line of what runs actions.
unfoldable pub running : Unit {0}
unfolding ◌>>=◌ pure fail fail_if lift map_error try
running = tt
