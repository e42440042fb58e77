-- ===== src/Base/Silent.antt =====
-- Actions that send no message.
use mathlib.Core.Path.{◌≡◌, refl, ◌∙◌}
use mathlib.Core.Bool.{Bool, true, false}
use mathlib.Core.Logic.{inl, inr}
use native.Mathlib.Omega.{arith}
use event_driven_ecommerce.Base.Tests.{Option-cases}
use event_driven_ecommerce.Base.Actions.{
  Result, ok, err, Result-cases, Action, ◌>>=◌, pure, fail, fail_if, lift, map_error,
}
use event_driven_ecommerce.Base.Surroundings.{World, DbError, query, now}

module _ {D : Type 0} where
  pub record Quiet {E A : Type 0} (m : Action (World D) E A) : Type 0 where
    pub apply : (w : World D) → (m w).1.sent ≡ w.sent

  pub query-Quiet : {A : Type 0} (q : D → Result DbError (A × D)) → Quiet (query q)
  unfolding query
  query-Quiet q = record {
    apply = λ w. elim (Option-cases (w.fault w.tick)) [
      | inr (text, e) ↦ ground (arith, e)
      | inl e ↦ elim (Result-cases (q w.db)) [
        | inl ((a, d'), e') ↦ ground (arith, e, e')
        | inr (x, e') ↦ ground (arith, e, e')
      ]
    ];
  }

  module _ {E : Type 0} where
    pub now-Quiet : Quiet {E = E} now
    unfolding now
    now-Quiet = record { apply = λ w. refl }

    pub fail_if-Quiet : (b : Bool) (e : E) → Quiet (fail_if b e)
    unfolding fail_if
    fail_if-Quiet true e = record { apply = λ w. refl }
    fail_if-Quiet false e = record { apply = λ w. refl }

  module _ {E A : Type 0} where
    pub pure-Quiet : (a : A) → Quiet {E = E} (pure a)
    unfolding pure
    pure-Quiet a = record { apply = λ w. refl }

    pub fail-Quiet : (e : E) → Quiet {A = A} (fail e)
    unfolding fail
    fail-Quiet e = record { apply = λ w. refl }

    pub lift-Quiet : (r : Result E A) → Quiet (lift r)
    unfolding lift
    lift-Quiet r = record { apply = λ w. refl }

    mapped :
        {F : Type 0} (g : E → F) (x : Result E A × World D)
        → (map_error g (λ (w : World D). x) x.1).1.sent ≡ x.1.sent
    unfolding map_error
    mapped g (ok a, w) = refl
    mapped g (err e, w) = refl

    pub map_error-Quiet :
        {F : Type 0} (g : E → F) (m : Action (World D) E A) → Quiet m → Quiet (map_error g m)
    unfolding map_error
    map_error-Quiet g m q = record { apply = λ w. mapped g (m w) ∙ q.apply w }

    bound :
        {B : Type 0} (f : A → Action (World D) E B) (x : Result E A × World D)
        → ((a : A) → Quiet (f a))
        → (◌>>=◌ (λ (w : World D). x) f x.1).1.sent ≡ x.1.sent
    unfolding ◌>>=◌
    bound f (ok a, w) h = (h a).apply w
    bound f (err e, w) h = refl

    pub bind-Quiet :
        {B : Type 0} (m : Action (World D) E A) (f : A → Action (World D) E B)
        → Quiet m
        → ((a : A) → Quiet (f a))
        → Quiet (m >>= f)
    unfolding ◌>>=◌
    bind-Quiet m f q h = record { apply = λ w. bound f (m w) h ∙ q.apply w }
