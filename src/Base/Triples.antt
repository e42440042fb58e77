-- ===== src/Base/Triples.antt =====
-- Rules for what holds of the tables after an action that succeeds, one for each way to build
-- an action; whatever calls fail.
use Prim.Native.Nat.{ℕ, suc}
use Prim.Native.String.{String}
use mathlib.Core.Path.{◌≡◌, refl, sym, ◌∙◌, subst, subst₂}
use mathlib.Core.Bool.{Bool, true, false}
use native.Mathlib.Omega.{arith}
use event_driven_ecommerce.Base.Tests.{if◌then◌else◌}
use event_driven_ecommerce.Base.Actions.{
  Result, ok, err, Action, ◌>>=◌, pure, fail, fail_if, map_error, lift, try,
}
use event_driven_ecommerce.Base.Surroundings.{
  World, DbError, now, query, transaction, transaction-eq-ok,
}

pub ok_inj : {E A : Type 0} {a b : A} → ◌≡◌ {A = Result E A} (ok a) (ok b) → a ≡ b
ok_inj e = ground arith

module _ {D : Type 0} where
  -- Started on the tables `d`, the action ends in an error or makes `Q` of its result and the
  -- tables that it leaves.
  pub record Ensures {E A : Type 0} (d : D) (m : Action (World D) E A) (Q : A → D → Type 0)
      : Type 0 where
    pub apply : (w : World D) → w.db ≡ d → (a : A) → (m w).0 ≡ ok a → Q a (m w).1.db

  query-eq-ok :
      {A : Type 0} (q : D → Result DbError (A × D)) (w : World D) {a : A}
      → (query q w).0 ≡ ok a
      → q w.db ≡ ok (a, (query q w).1.db)
  unfolding query
  query-eq-ok q w e = ground arith

  pub query-Ensures :
      {A : Type 0} (q : D → Result DbError (A × D)) (d : D) (Q : A → D → Type 0)
      → ((a : A) (d' : D) → q d ≡ ok (a, d') → Q a d')
      → Ensures d (query q) Q
  query-Ensures q d Q h = record {
    apply = λ w at a e.
        h a (query q w).1.db (subst (λ x. q x ≡ ok (a, (query q w).1.db)) at (query-eq-ok q w e));
  }

  pub now-Ensures :
      {E : Type 0} (d : D) (Q : ℕ → D → Type 0) → ((t : ℕ) → Q t d) → Ensures {E = E} d now Q
  unfolding now
  now-Ensures d Q h = record { apply = λ w at a e. subst (Q a) (sym at) (h a) }

  module _ {E A : Type 0} where
    pub pure-Ensures : (a : A) (d : D) (Q : A → D → Type 0) → Q a d → Ensures {E = E} d (pure a) Q
    unfolding pure
    pure-Ensures a d Q h = record { apply = λ w at b e. subst₂ Q (ok_inj e) (sym at) h }

    pub fail-Ensures : (d : D) (e : E) (Q : A → D → Type 0) → Ensures d (fail {A = A} e) Q
    unfolding fail
    fail-Ensures d e Q = record { apply = λ w at a r. cc }

    bind_result :
        {B : Type 0} (f : A → Action (World D) E B) (P : A → D → Type 0) (Q : B → D → Type 0)
        (x : Result E A × World D)
        → ((a : A) → x.0 ≡ ok a → P a x.1.db)
        → ((a : A) (d' : D) → P a d' → Ensures d' (f a) Q)
        → (b : B) → (◌>>=◌ (λ (w : World D). x) f x.1).0 ≡ ok b
        → Q b (◌>>=◌ (λ (w : World D). x) f x.1).1.db
    unfolding ◌>>=◌
    bind_result f P Q (ok a, w) hm hf b e = (hf a w.db (hm a refl)).apply w refl b e
    bind_result f P Q (err x, w) hm hf b e = cc

    pub >>=-Ensures :
        {B : Type 0} (m : Action (World D) E A) (f : A → Action (World D) E B) (d : D)
        (P : A → D → Type 0) (Q : B → D → Type 0)
        → Ensures d m P
        → ((a : A) (d' : D) → P a d' → Ensures d' (f a) Q)
        → Ensures d (m >>= f) Q
    unfolding ◌>>=◌
    >>=-Ensures m f d P Q hm hf = record {
      apply = λ w at. bind_result f P Q (m w) (hm.apply w at) hf;
    }

    map_error_result :
        {F : Type 0} (g : E → F) (Q : A → D → Type 0) (x : Result E A × World D)
        → ((a : A) → x.0 ≡ ok a → Q a x.1.db)
        → (a : A) → (map_error g (λ (w : World D). x) x.1).0 ≡ ok a
        → Q a (map_error g (λ (w : World D). x) x.1).1.db
    unfolding map_error
    map_error_result g Q (ok a, w) h b e = h b (ground arith)
    map_error_result g Q (err x, w) h b e = cc

    pub map_error-Ensures :
        {F : Type 0} (g : E → F) (m : Action (World D) E A) (d : D) (Q : A → D → Type 0)
        → Ensures d m Q
        → Ensures d (map_error g m) Q
    unfolding map_error
    map_error-Ensures g m d Q h = record {
      apply = λ w at. map_error_result g Q (m w) (h.apply w at);
    }

    pub transaction-Ensures :
        (b : String → E) (c : A → String → E) (body : Action (World D) E A) (d : D)
        (Q : A → D → Type 0)
        → Ensures d body Q
        → Ensures d (transaction b c body) Q
    transaction-Ensures b c body d Q h = record {
      apply = λ w at a e.
          let (same, kept) = transaction-eq-ok b c body w e in
          subst (Q a) (sym kept) (h.apply (record w { tick = suc w.tick }) at a same);
    }

  pub Ensures_mono :
      {E A : Type 0} (d : D) (m : Action (World D) E A) (P Q : A → D → Type 0)
      → Ensures d m P
      → ((a : A) (d' : D) → P a d' → Q a d')
      → Ensures d m Q
  Ensures_mono d m P Q s h = record { apply = λ w at a e. h a (m w).1.db (s.apply w at a e) }

  -- A statement whose error the caller turns into its own.
  pub called-Ensures :
      {E A : Type 0} (g : DbError → E) (q : D → Result DbError (A × D)) (d : D) (Q : A → D → Type 0)
      → ((a : A) (d' : D) → q d ≡ ok (a, d') → Q a d')
      → Ensures d (map_error g (query q)) Q
  called-Ensures g q d Q h = map_error-Ensures g (query q) d Q (query-Ensures q d Q h)

  -- The same rules with the rest of a block behind the step.
  module _ {E A B : Type 0} (d : D) (Q : B → D → Type 0) where
    pub step-Ensures :
        (g : DbError → E) (q : D → Result DbError (A × D)) (f : A → Action (World D) E B)
        → ((a : A) (d' : D) → q d ≡ ok (a, d') → Ensures d' (f a) Q)
        → Ensures d (map_error g (query q) >>= f) Q
    step-Ensures g q f h =
        >>=-Ensures (map_error g (query q)) f d (λ a d'. q d ≡ ok (a, d')) Q
          (called-Ensures g q d (λ a d'. q d ≡ ok (a, d')) (λ a d' e. e)) h

    -- A statement that only reads.
    pub read-Ensures :
        (g : DbError → E) (q : D → Result DbError (A × D)) (f : A → Action (World D) E B)
        → ((a : A) (d' : D) → q d ≡ ok (a, d') → d' ≡ d)
        → ((a : A) → q d ≡ ok (a, d) → Ensures d (f a) Q)
        → Ensures d (map_error g (query q) >>= f) Q
    read-Ensures g q f same h = step-Ensures g q f λ a d' e.
        subst (λ x. Ensures x (f a) Q) (sym (same a d' e))
          (h a (subst (λ x. q d ≡ ok (a, x)) (same a d' e) e))

  module _ {E B : Type 0} (d : D) (Q : B → D → Type 0) where
    pub clock-Ensures :
        (f : ℕ → Action (World D) E B) → ((t : ℕ) → Ensures d (f t) Q) → Ensures d (now >>= f) Q
    clock-Ensures f h =
        >>=-Ensures now f d (λ _ d'. d' ≡ d) Q (now-Ensures d (λ _ d'. d' ≡ d) (λ _. refl))
          λ t d' same. subst (λ x. Ensures x (f t) Q) (sym same) (h t)

    pub guard-Ensures :
        (b : Bool) (e : E) (f : Unit {0} → Action (World D) E B)
        → (b ≡ false → Ensures d (f tt) Q)
        → Ensures d (fail_if b e >>= f) Q
    unfolding fail_if ◌>>=◌
    guard-Ensures true e f h = record { apply = λ w at a r. cc }
    guard-Ensures false e f h = record { apply = λ w at a r. (h refl).apply w at a r }

module _ {D E A : Type 0} where
  tried :
      (Q : A → D → Type 0) (x : Result E A × World D)
      → ((a : A) → x.0 ≡ ok a → Q a x.1.db)
      → (r : Result E A) → x.0 ≡ r
      → (a : A) → r ≡ ok a
      → Q a x.1.db
  tried Q x h r e a is = h a (e ∙ is)

  -- A call whose error the caller looks at.
  pub try-Ensures :
      {F : Type 0} (m : Action (World D) E A) (d : D) (Q : A → D → Type 0)
      → Ensures d m Q
      → Ensures {E = F} d (try m) (λ r d'. (a : A) → r ≡ ok a → Q a d')
  unfolding try
  try-Ensures m d Q h = record { apply = λ w at r e. tried Q (m w) (h.apply w at) r (ok_inj e) }

  pub if-Ensures :
      (d : D) (b : Bool) (m n : Action (World D) E A) (Q : A → D → Type 0)
      → (b ≡ true → Ensures d m Q)
      → (b ≡ false → Ensures d n Q)
      → Ensures d (if b then m else n) Q
  if-Ensures d true m n Q h k = h refl
  if-Ensures d false m n Q h k = k refl

module _ {D E A : Type 0} where
  -- A computation that may fail.
  pub lift-Ensures :
      (r : Result E A) (d : D) (Q : A → D → Type 0)
      → ((a : A) → r ≡ ok a → Q a d)
      → Ensures d (lift r) Q
  unfolding lift
  lift-Ensures r d Q h = record { apply = λ w at a e. subst (Q a) (sym at) (h a e) }
