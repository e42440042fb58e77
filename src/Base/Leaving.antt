-- ===== src/Base/Leaving.antt =====
-- Rules for what holds of the tables after an action, whether it succeeds or fails.
use Prim.Native.Nat.{ℕ, suc}
use mathlib.Core.Path.{◌≡◌, refl, sym, subst}
use mathlib.Core.Bool.{Bool, true, false}
use mathlib.Core.Logic.{inl, inr}
use native.Mathlib.Omega.{arith}
use event_driven_ecommerce.Base.Tests.{Option-cases}
use event_driven_ecommerce.Base.Actions.{
  Result, ok, err, Result-cases, Action, ◌>>=◌, fail_if, map_error,
}
use event_driven_ecommerce.Base.Surroundings.{World, DbError, query, now}
use event_driven_ecommerce.Base.Ending.{Ended, Ends}
use event_driven_ecommerce.Base.Keeping.{Keeps}

module _ {D : Type 0} (P : D → Type 0) where
  -- Started on the tables `d`, the action leaves tables with `P`.
  pub record Leaves {E A : Type 0} (d : D) (m : Action (World D) E A) : Type 0 where
    pub apply : (w : World D) → w.db ≡ d → P (m w).1.db

  pub Leaves-Keeps :
      {E A : Type 0} (m : Action (World D) E A) → ((d : D) → P d → Leaves d m) → Keeps P m
  Leaves-Keeps m h = record { apply = λ w p. (h w.db p).apply w refl }

  pub Keeps-Leaves :
      {E A : Type 0} (d : D) (m : Action (World D) E A) → Keeps P m → P d → Leaves d m
  Keeps-Leaves d m k p = record { apply = λ w at. k.apply w (subst P (sym at) p) }

  queried :
      {A : Type 0} (q : D → Result DbError (A × D)) (w : World D)
      → ((a : A) (d' : D) → q w.db ≡ ok (a, d') → P d')
      → P w.db
      → P (query q w).1.db
  unfolding query
  queried q w h p = elim (Option-cases (w.fault w.tick)) [
    | inr (text, e) ↦ let same : (query q w).1.db ≡ w.db = ground (arith, e) in subst P (sym same) p
    | inl e ↦ elim (Result-cases (q w.db)) [
      | inl ((a, d'), e') ↦
          let new : (query q w).1.db ≡ d' = ground (arith, e, e') in subst P (sym new) (h a d' e')
      | inr (x, e') ↦
          let same : (query q w).1.db ≡ w.db = ground (arith, e, e') in subst P (sym same) p
    ]
  ]

  pub query-Leaves :
      {A : Type 0} (d : D) (q : D → Result DbError (A × D))
      → ((a : A) (d' : D) → q d ≡ ok (a, d') → P d')
      → P d
      → Leaves d (query q)
  query-Leaves d q h p = record {
    apply = λ w at.
        queried q w (λ a d' e. h a d' (subst (λ x. q x ≡ ok (a, d')) at e)) (subst P (sym at) p);
  }

  mapped_error :
      {E F A : Type 0} (g : E → F) (x : Result E A × World D)
      → P x.1.db
      → P (map_error g (λ (w : World D). x) x.1).1.db
  unfolding map_error
  mapped_error g (ok a, w) p = p
  mapped_error g (err e, w) p = p

  pub map_error-Leaves :
      {E F A : Type 0} (d : D) (g : E → F) (m : Action (World D) E A)
      → Leaves d m
      → Leaves d (map_error g m)
  unfolding map_error
  map_error-Leaves d g m l = record { apply = λ w at. mapped_error g (m w) (l.apply w at) }

  bound :
      {E A B : Type 0} (f : A → Action (World D) E B) (x : Result E A × World D)
      → ((a : A) → Keeps P (f a))
      → P x.1.db
      → P (◌>>=◌ (λ (w : World D). x) f x.1).1.db
  unfolding ◌>>=◌
  bound f (ok a, w) h p = (h a).apply w p
  bound f (err e, w) h p = p

  -- A step that leaves `P`, and a rest that keeps it.
  pub bind-Leaves :
      {E A B : Type 0} (d : D) (m : Action (World D) E A) (f : A → Action (World D) E B)
      → Leaves d m
      → ((a : A) → Keeps P (f a))
      → Leaves d (m >>= f)
  unfolding ◌>>=◌
  bind-Leaves d m f l h = record { apply = λ w at. bound f (m w) h (l.apply w at) }

  after_read :
      {E A B : Type 0} (d : D) (f : A → Action (World D) E B) (Q : A → D → Type 0)
      (x : Result E A × World D)
      → Ended (λ a d'. (d' ≡ d) × Q a d') (λ _ d'. d' ≡ d) x
      → P d
      → ((a : A) → Q a d → Leaves d (f a))
      → P (◌>>=◌ (λ (w : World D). x) f x.1).1.db
  unfolding ◌>>=◌
  after_read d f Q (ok a, w) (same, q) p h = (h a (subst (Q a) same q)).apply w same
  after_read d f Q (err e, w) same p h = subst P (sym same) p

  -- A step that only reads, and a rest that relies on what was read.
  pub read-Leaves :
      {E A B : Type 0} (d : D) (m : Action (World D) E A) (f : A → Action (World D) E B)
      (Q : A → D → Type 0)
      → Ends d m (λ a d'. (d' ≡ d) × Q a d') (λ _ d'. d' ≡ d)
      → P d
      → ((a : A) → Q a d → Leaves d (f a))
      → Leaves d (m >>= f)
  unfolding ◌>>=◌
  read-Leaves d m f Q r p h = record { apply = λ w at. after_read d f Q (m w) (r.apply w at) p h }

  untouched :
      {E A B : Type 0} (d : D) (f : A → Action (World D) E B) (x : Result E A × World D)
      → x.1.db ≡ d
      → P d
      → ((a : A) → Leaves d (f a))
      → P (◌>>=◌ (λ (w : World D). x) f x.1).1.db
  unfolding ◌>>=◌
  untouched d f (ok a, w) same p h = (h a).apply w same
  untouched d f (err e, w) same p h = subst P (sym same) p

  -- A step that changes no tables, and any rest.
  pub quiet-Leaves :
      {E A B : Type 0} (d : D) (m : Action (World D) E A) (f : A → Action (World D) E B)
      → Keeps (λ x. x ≡ d) m
      → P d
      → ((a : A) → Leaves d (f a))
      → Leaves d (m >>= f)
  unfolding ◌>>=◌
  quiet-Leaves d m f k p h = record { apply = λ w at. untouched d f (m w) (k.apply w at) p h }

  pub guard-Leaves :
      {E A : Type 0} (d : D) (bad : Bool) (e : E) (f : Unit {0} → Action (World D) E A)
      → P d
      → (bad ≡ false → Leaves d (f tt))
      → Leaves d (fail_if bad e >>= f)
  unfolding fail_if ◌>>=◌
  guard-Leaves d true e f p h = record { apply = λ w at. subst P (sym at) p }
  guard-Leaves d false e f p h = record { apply = λ w at. (h refl).apply w at }

  pub clock-Leaves :
      {E A : Type 0} (d : D) (f : ℕ → Action (World D) E A)
      → ((t : ℕ) → Leaves d (f t))
      → Leaves d (now >>= f)
  unfolding now ◌>>=◌
  clock-Leaves d f h = record {
    apply = λ w at. (h (w.clock w.tick)).apply (record w { tick = suc w.tick }) at;
  }
