-- ===== src/Base/Settling.antt =====
-- Actions that either succeed with what they promise or leave the tables as they were.
use Prim.Native.Nat.{ℕ, suc}
use Prim.Native.String.{String}
use mathlib.Core.Path.{◌≡◌, refl, sym, subst, ◌∙◌}
use mathlib.Core.Bool.{Bool, true, false}
use event_driven_ecommerce.Base.Tests.{if◌then◌else◌}
use event_driven_ecommerce.Base.Actions.{Result, ok, err, Action, ◌>>=◌, pure, fail_if}
use event_driven_ecommerce.Base.Surroundings.{
  World, now, transaction, transaction-eq-ok, transaction_rolls_back,
}
use event_driven_ecommerce.Base.Triples.{Ensures}

module _ {D E A : Type 0} (d : D) where
  -- The outcome of an action that was started on the tables `d`.
  abbrev pub Outcome : (A → D → Type 0) → Result E A × World D → Type 0
  Outcome Q (ok a, w) = Q a w.db
  Outcome Q (err e, w) = w.db ≡ d

  pub record Settles (m : Action (World D) E A) (Q : A → D → Type 0) : Type 0 where
    pub apply : (w : World D) → w.db ≡ d → Outcome Q (m w)

module _ {D E A : Type 0} where
  transaction-Outcome :
      (d : D) (Q : A → D → Type 0) (x : Result E A × World D)
      → ((a : A) → x.0 ≡ ok a → Q a x.1.db)
      → ((e : E) → x.0 ≡ err e → x.1.db ≡ d)
      → Outcome d Q x
  transaction-Outcome d Q (ok a, w) hq he = hq a refl
  transaction-Outcome d Q (err e, w) hq he = he e refl

  pub transaction-Settles :
      (d : D) (b : String → E) (c : A → String → E) (body : Action (World D) E A)
      (Q : A → D → Type 0)
      → Ensures d body Q
      → Settles d (transaction b c body) Q
  transaction-Settles d b c body Q h = record {
    apply = λ w at.
        transaction-Outcome d Q (transaction b c body w)
          (λ a e.
            let (same, kept) = transaction-eq-ok b c body w e in
            subst (Q a) (sym kept) (h.apply (record w { tick = suc w.tick }) at a same))
          (λ x e. transaction_rolls_back b c body w e ∙ at);
  }

  pub guard-Settles :
      (d : D) (bad : Bool) (e : E) (f : Unit {0} → Action (World D) E A) (Q : A → D → Type 0)
      → (bad ≡ false → Settles d (f tt) Q)
      → Settles d (fail_if bad e >>= f) Q
  unfolding fail_if ◌>>=◌
  guard-Settles d true e f Q h = record { apply = λ w at. at }
  guard-Settles d false e f Q h = record { apply = λ w at. (h refl).apply w at }

  mapped-Outcome :
      {B : Type 0} (d : D) (f : A → B) (P : A → D → Type 0) (Q : B → D → Type 0)
      (x : Result E A × World D)
      → ((a : A) (d' : D) → P a d' → Q (f a) d')
      → Outcome d P x
      → Outcome d Q (◌>>=◌ (λ (w : World D). x) (λ a. pure (f a)) x.1)
  unfolding ◌>>=◌ pure
  mapped-Outcome d f P Q (ok a, w) h o = h a w.db o
  mapped-Outcome d f P Q (err e, w) h o = o

  -- A last step that computes the result.
  pub mapped-Settles :
      {B : Type 0} (d : D) (m : Action (World D) E A) (f : A → B) (P : A → D → Type 0)
      (Q : B → D → Type 0)
      → Settles d m P
      → ((a : A) (d' : D) → P a d' → Q (f a) d')
      → Settles d (m >>= λ a. pure (f a)) Q
  unfolding ◌>>=◌
  mapped-Settles d m f P Q s h = record {
    apply = λ w at. mapped-Outcome d f P Q (m w) h (s.apply w at);
  }

  pub Settles_mono :
      (d : D) (m : Action (World D) E A) (P Q : A → D → Type 0)
      → Settles d m P
      → ((a : A) (d' : D) → P a d' → Q a d')
      → Settles d m Q
  Settles_mono d m P Q s h = record { apply = λ w at. weakened (m w) (s.apply w at) }
    where
      weakened : (x : Result E A × World D) → Outcome d P x → Outcome d Q x
      weakened (ok a, w) o = h a w.db o
      weakened (err e, w) o = o

  pub clock-Settles :
      (d : D) (f : ℕ → Action (World D) E A) (Q : A → D → Type 0)
      → ((t : ℕ) → Settles d (f t) Q)
      → Settles d (now >>= f) Q
  unfolding now ◌>>=◌
  clock-Settles d f Q h = record {
    apply = λ w at. (h (w.clock w.tick)).apply (record w { tick = suc w.tick }) at;
  }

  pub pure-Settles : (d : D) (a : A) (Q : A → D → Type 0) → Q a d → Settles {E = E} d (pure a) Q
  unfolding pure
  pure-Settles d a Q h = record { apply = λ w at. subst (Q a) (sym at) h }

  pub if-Settles :
      (d : D) (b : Bool) (m n : Action (World D) E A) (Q : A → D → Type 0)
      → (b ≡ true → Settles d m Q)
      → (b ≡ false → Settles d n Q)
      → Settles d (if b then m else n) Q
  if-Settles d true m n Q h k = h refl
  if-Settles d false m n Q h k = k refl
