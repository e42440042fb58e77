-- ===== src/Base/Ending.antt =====
-- Rules for what holds of the tables after an action, both where it succeeds and where it fails.
use mathlib.Core.Path.{◌≡◌, refl, sym, subst}
use event_driven_ecommerce.Base.Actions.{Result, ok, err, Action, ◌>>=◌, pure, fail, try}
use event_driven_ecommerce.Base.Surroundings.{World}
use event_driven_ecommerce.Base.Triples.{Ensures, ok_inj}
use event_driven_ecommerce.Base.Settling.{Outcome, Settles}

module _ {D E A : Type 0} where
  abbrev pub Ended : (A → D → Type 0) → (E → D → Type 0) → Result E A × World D → Type 0
  Ended Q R (ok a, w) = Q a w.db
  Ended Q R (err e, w) = R e w.db

  -- Started on the tables `d`, the action makes `Q` if it succeeds and `R` if it fails.
  pub record Ends (d : D) (m : Action (World D) E A) (Q : A → D → Type 0) (R : E → D → Type 0)
      : Type 0 where
    pub apply : (w : World D) → w.db ≡ d → Ended Q R (m w)

  settled_result :
      (d : D) (Q : A → D → Type 0) (x : Result E A × World D)
      → Outcome d Q x
      → Ended Q (λ _ d'. d' ≡ d) x
  settled_result d Q (ok a, w) o = o
  settled_result d Q (err e, w) o = o

  pub Settles-Ends :
      (d : D) (m : Action (World D) E A) (Q : A → D → Type 0)
      → Settles d m Q
      → Ends d m Q (λ _ d'. d' ≡ d)
  Settles-Ends d m Q s = record { apply = λ w at. settled_result d Q (m w) (s.apply w at) }

  weakened :
      (P Q : A → D → Type 0) (R : E → D → Type 0) (x : Result E A × World D)
      → ((a : A) (d' : D) → P a d' → Q a d')
      → Ended P R x
      → Ended Q R x
  weakened P Q R (ok a, w) h o = h a w.db o
  weakened P Q R (err e, w) h o = o

  pub Ends_mono :
      (d : D) (m : Action (World D) E A) (P Q : A → D → Type 0) (R : E → D → Type 0)
      → Ends d m P R
      → ((a : A) (d' : D) → P a d' → Q a d')
      → Ends d m Q R
  Ends_mono d m P Q R s h = record { apply = λ w at. weakened P Q R (m w) h (s.apply w at) }

  pub pure-Ends :
      (d : D) (a : A) (Q : A → D → Type 0) (R : E → D → Type 0) → Q a d → Ends d (pure a) Q R
  unfolding pure
  pure-Ends d a Q R h = record { apply = λ w at. subst (Q a) (sym at) h }

  pub fail-Ends :
      (d : D) (e : E) (Q : A → D → Type 0) (R : E → D → Type 0) → R e d → Ends d (fail e) Q R
  unfolding fail
  fail-Ends d e Q R h = record { apply = λ w at. subst (R e) (sym at) h }

  ensured :
      (Q : A → D → Type 0) (R : E → D → Type 0) (x : Result E A × World D)
      → Ended Q R x
      → (a : A) → x.0 ≡ ok a
      → Q a x.1.db
  ensured Q R (ok a, w) o b e = subst (λ z. Q z w.db) (ok_inj e) o
  ensured Q R (err x, w) o b e = cc

  pub Ends-Ensures :
      (d : D) (m : Action (World D) E A) (Q : A → D → Type 0) (R : E → D → Type 0)
      → Ends d m Q R
      → Ensures d m Q
  Ends-Ensures d m Q R s = record { apply = λ w at. ensured Q R (m w) (s.apply w at) }

module _ {D E A B : Type 0} where
  bound :
      (f : A → Action (World D) E B) (P : A → D → Type 0) (Q : B → D → Type 0) (R : E → D → Type 0)
      (x : Result E A × World D)
      → ((a : A) (d' : D) → P a d' → Ends d' (f a) Q R)
      → Ended P R x
      → Ended Q R (◌>>=◌ (λ (w : World D). x) f x.1)
  unfolding ◌>>=◌
  bound f P Q R (ok a, w) h o = (h a w.db o).apply w refl
  bound f P Q R (err e, w) h o = o

  pub bind-Ends :
      (d : D) (m : Action (World D) E A) (f : A → Action (World D) E B) (P : A → D → Type 0)
      (Q : B → D → Type 0) (R : E → D → Type 0)
      → Ends d m P R
      → ((a : A) (d' : D) → P a d' → Ends d' (f a) Q R)
      → Ends d (m >>= f) Q R
  unfolding ◌>>=◌
  bind-Ends d m f P Q R s h = record { apply = λ w at. bound f P Q R (m w) h (s.apply w at) }

  tried :
      {F : Type 0} (f : Result E A → Action (World D) F B) (P : A → D → Type 0) (S : E → D → Type 0)
      (Q : B → D → Type 0) (R : F → D → Type 0) (x : Result E A × World D)
      → ((a : A) (d' : D) → P a d' → Ends d' (f (ok a)) Q R)
      → ((e : E) (d' : D) → S e d' → Ends d' (f (err e)) Q R)
      → Ended P S x
      → Ended Q R (◌>>=◌ (try (λ (w : World D). x)) f x.1)
  unfolding ◌>>=◌ try
  tried f P S Q R (ok a, w) h g o = (h a w.db o).apply w refl
  tried f P S Q R (err e, w) h g o = (g e w.db o).apply w refl

  -- A step whose error the rest looks at.
  pub try-Ends :
      {F : Type 0} (d : D) (m : Action (World D) E A) (f : Result E A → Action (World D) F B)
      (P : A → D → Type 0) (S : E → D → Type 0) (Q : B → D → Type 0) (R : F → D → Type 0)
      → Ends d m P S
      → ((a : A) (d' : D) → P a d' → Ends d' (f (ok a)) Q R)
      → ((e : E) (d' : D) → S e d' → Ends d' (f (err e)) Q R)
      → Ends d (try m >>= f) Q R
  unfolding ◌>>=◌ try
  try-Ends d m f P S Q R s h g = record { apply = λ w at. tried f P S Q R (m w) h g (s.apply w at) }

module _ {D E A : Type 0} (d : D) (m : Action (World D) E A) (P : A → D → Type 0) where
  unchanged_or : (x : Result E A × World D) → Ended P (λ _ d'. d' ≡ d) x → Outcome d P x
  unchanged_or (ok a, w) o = o
  unchanged_or (err e, w) o = o

  pub Ends-Settles : Ends d m P (λ _ d'. d' ≡ d) → Settles d m P
  Ends-Settles s = record { apply = λ w at. unchanged_or (m w) (s.apply w at) }

  together :
      (x : Result E A × World D)
      → ((a : A) → x.0 ≡ ok a → P a x.1.db)
      → x.1.db ≡ d
      → Ended (λ a d'. (d' ≡ d) × P a d') (λ _ d'. d' ≡ d) x
  together (ok a, w) h same = (same, h a refl)
  together (err e, w) h same = same

  -- An action that only reads.
  pub reading-Ends :
      Ensures d m P
      → ((w : World D) → w.db ≡ d → (m w).1.db ≡ d)
      → Ends d m (λ a d'. (d' ≡ d) × P a d') (λ _ d'. d' ≡ d)
  reading-Ends h k = record { apply = λ w at. together (m w) (h.apply w at) (k w at) }
